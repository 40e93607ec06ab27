-- ===== src/Handlers/Replies.antt =====
-- What the answer to a frame and the event for the other connections have to do with each other.
use vaultcrdt_server.Base.{
  is_none, nat_eq, list_eq, option_eq, pair_eq, Bytes, Text, ℕ, ◌≡◌, refl, ap, ◌⊎◌, inl, inr, Bool,
  not, ◌&&◌, Option, none, some,
}
use vaultcrdt_server.Errors.{Result, ok, err}
use vaultcrdt_server.Sql.{Conn, pure, lift}
use vaultcrdt_server.Sql.Results.{Gives, pure-Gives, raise-Gives, bind-Gives, if-Gives}
use vaultcrdt_server.Loro.{Loro}
use vaultcrdt_server.Protocol.{ClientMsg, ServerMsg, BroadcastEvent}
use vaultcrdt_server.Documents.Delete.{DeleteOutcome, deleted, idempotent_no_live, rejected}
use vaultcrdt_server.Handlers.{
  Reply, stored_reply, deletion_reply, start_from, handle_sync_start, push_store, handle_sync_push,
  create_store, handle_doc_create, dispatch, process_inner, process_parsed, process_message,
  request_id_of, with_request_id, answer,
}
use vaultcrdt_server.Handlers.Merge.{Merged}

-- The vault and the connection that an event comes from.
abbrev pub origin : BroadcastEvent → Text × ℕ
origin (BroadcastEvent.delta v u delta p conn_id vv incarnation) = (v, conn_id)
origin (BroadcastEvent.delete v u conn_id hash) = (v, conn_id)
origin (BroadcastEvent.blob_path_changed v path seq) = (v, 0)

-- No event; or the answer is an `Ack`, and the event names this vault and this connection.
abbrev pub Announces : Text → ℕ → Option Text → Reply → Type 0
Announces v conn_id request_id (message, broadcast) =
    (broadcast ≡ none)
    ⊎ ((event : BroadcastEvent) × (incarnation : Option ℕ) × (broadcast ≡ some event)
        × (message ≡ ServerMsg.ack incarnation request_id)
        × (◌≡◌ {A = Text × ℕ} (origin event) (v, conn_id)))

abbrev AnnouncesAny : Text → ℕ → Reply → Type 0
AnnouncesAny v conn_id r = (request_id : Option Text) × Announces v conn_id request_id r

module _ (loro : Loro) (v : Text) (conn_id : ℕ) where
  abbrev A : Reply → Type 0
  A = AnnouncesAny v conn_id

  silent : (message : ServerMsg) → Gives A (pure (message, none))
  silent message = pure-Gives A (message, none) (none, inl refl)

  start_from-Announces :
      (u : Text) (vv : Option Bytes) (existing : Option (Bytes × ℕ))
      → Gives A (start_from loro u vv existing)
  unfolding start_from
  start_from-Announces u vv none = silent _
  start_from-Announces u vv (some (blob, token)) =
      bind-Gives A _ _ λ doc. bind-Gives A _ _ λ delta. silent _

  stored_reply-Announces :
      (u : Text) (incoming : Bytes) (p : Text) (vv : loro.VersionVector) (token : Option ℕ)
      → A (stored_reply loro v u incoming p conn_id vv token)
  unfolding stored_reply
  stored_reply-Announces u incoming p vv token = (none, inr (_, token, refl, refl, refl))

  deletion_reply-Announces :
      (u : Text) (i r : Option Text) (o : DeleteOutcome) → A (deletion_reply v u conn_id i r o)
  unfolding deletion_reply
  deletion_reply-Announces u i r (deleted hash token) = (r, inr (_, none, refl, refl, refl))
  deletion_reply-Announces u i r (idempotent_no_live hash) = (r, inr (_, none, refl, refl, refl))
  deletion_reply-Announces u i r (rejected token) = (none, inl refl)

  -- `lift (ok a)`, the end of a handler
  ends : (a : Reply) → A a → Gives A (lift (ok a))
  unfolding lift pure
  ends a h = pure-Gives A a h

  module _ (u : Text) (incoming : Bytes) (p : Text) where
    push_store-Announces :
        (is_new : Bool) (m : Option (Merged loro))
        → Gives A (push_store loro v u incoming p conn_id is_new m)
    unfolding push_store
    push_store-Announces is_new none = silent _
    push_store-Announces is_new (some (snapshot, vv)) =
        bind-Gives A _ _ λ token. ends _ (stored_reply-Announces u incoming p vv _)

    push-Announces : Gives A (handle_sync_push loro v u incoming p conn_id)
    unfolding handle_sync_push
    push-Announces = bind-Gives A _ _ λ existing. bind-Gives A _ _ λ refused.
        if-Gives A refused _ _ (silent _)
          (bind-Gives A _ _ λ merged. push_store-Announces (is_none existing) merged)

    create_store-Announces :
        (is_new anew : Bool) (m : Option (Merged loro))
        → Gives A (create_store loro v u incoming p conn_id is_new anew m)
    unfolding create_store
    create_store-Announces is_new anew none = silent _
    create_store-Announces is_new anew (some (snapshot, vv)) =
        bind-Gives A _ _ λ token. ends _ (stored_reply-Announces u incoming p vv _)

    create-Announces :
        (replace : Bool) → Gives A (handle_doc_create loro v u incoming p conn_id replace)
    unfolding handle_doc_create
    create-Announces replace = bind-Gives A _ _ λ existing. bind-Gives A _ _ λ dead.
        if-Gives A (dead && not replace) _ _ (silent _) (
          bind-Gives A _ _
            λ stale. bind-Gives A _ _ λ merged. create_store-Announces (is_none existing) _ merged)

  dispatch-Announces : (message : ClientMsg) → Gives A (dispatch loro message v conn_id)
  unfolding dispatch handle_sync_start
  dispatch-Announces (ClientMsg.auth token version features) = raise-Gives A _
  dispatch-Announces ClientMsg.ping = silent _
  dispatch-Announces ClientMsg.request_doc_list =
      bind-Gives A _ _ λ docs. bind-Gives A _ _ λ tombs. bind-Gives A _ _ λ hashes. silent _
  dispatch-Announces (ClientMsg.sync_start u vv) =
      bind-Gives A _ _ λ existing. start_from-Announces u vv existing
  dispatch-Announces (ClientMsg.sync_push u delta p r) = push-Announces u delta p
  dispatch-Announces (ClientMsg.doc_create u snapshot p replace r) =
      create-Announces u snapshot p replace
  dispatch-Announces (ClientMsg.doc_delete u p expected i r) =
      bind-Gives A _ _ λ outcome. ends _ (deletion_reply-Announces u i r outcome)

  process_parsed-Announces :
      (from_slice : Bytes → Option ClientMsg) (parsed : Option ClientMsg)
      → Gives A (process_parsed loro from_slice parsed v conn_id)
  unfolding process_parsed process_inner
  process_parsed-Announces from_slice none = raise-Gives A _
  process_parsed-Announces from_slice (some message) =
      bind-Gives A _ _ λ _. dispatch-Announces message

module _ (v : Text) (conn_id : ℕ) (request_id : Option Text) where
  relabelled :
      (message : ServerMsg) (broadcast : Option BroadcastEvent) (echo : Option Text)
      → Announces v conn_id echo (message, broadcast)
      → Announces v conn_id request_id (with_request_id request_id message, broadcast)
  unfolding with_request_id
  relabelled message broadcast echo (inl quiet) = inl quiet
  relabelled message broadcast echo (inr (event, token, b, m, o)) =
      inr (event, token, b, ap (with_request_id request_id) m, o)

  answer-Announces :
      (r : Result Reply)
      → ((a : Reply) → r ≡ ok a → AnnouncesAny v conn_id a)
      → Announces v conn_id request_id (answer request_id r)
  unfolding answer
  answer-Announces (err e) h = inl refl
  answer-Announces (ok (message, broadcast)) h =
      let x = h (message, broadcast) refl in relabelled message broadcast x.0 x.1

-- Whatever a frame holds and whichever statements fail: the other connections are told of something
-- only if the client gets an `Ack` with the request id of its frame, and what they are told names the
-- vault and the connection of that client.
pub process_message-Announces :
    (loro : Loro) (from_slice : Bytes → Option ClientMsg) (bytes : Bytes) (v : Text) (conn_id : ℕ)
    (s : Conn)
    → Announces v conn_id
        (request_id_of (from_slice bytes))
        (process_message loro from_slice bytes v conn_id s).0
unfolding process_message
process_message-Announces loro from_slice bytes v conn_id s =
    answer-Announces v conn_id _ _
      ((process_parsed-Announces loro v conn_id from_slice (from_slice bytes)).gives s)
