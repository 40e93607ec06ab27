-- ===== src/Handlers.antt =====
-- handlers.rs: what the server does with one frame of a client. A handler is an action on the
-- database whose result is the answer and the event for the other connections. The lock of the
-- document is held from the first query of a push, a create or a delete to its end, so that no
-- other of them on the same document stands between two of its statements.
pub mod Checks
pub mod Merge
pub mod Spec
pub mod Refinement
pub mod Reading
pub mod Within
pub mod Replies
pub mod Isolation
pub mod Invariant
use vaultcrdt_server.Base.{
  if◌then◌else◌, tests, is_some, is_none, nat_eq, list_eq, option_eq, pair_eq, Bytes, Text, ℕ, zero,
  suc, Bool, true, false, not, ◌&&◌, ◌||◌, Option, none, some, arith,
}
use vaultcrdt_server.Errors.{
  ServerError, Result, ok, err, or_fail, unexpected_auth, invalid_msgpack, loro_import_existing,
  loro_export_delta, client_facing,
}
use vaultcrdt_server.Sql.{Conn, Sql, pure, raise, lift, ◌>>=◌}
use vaultcrdt_server.Loro.{Loro}
use vaultcrdt_server.Protocol.{ClientMsg, ServerMsg, BroadcastEvent}
use vaultcrdt_server.VvSerde.{vv_to_json_bytes, vv_from_json_bytes, vv_to_db_bytes}
use vaultcrdt_server.Documents.{
  get_snapshot_with_incarnation, get_snapshot_with_vv, is_tombstoned, store_snapshot_with_vv,
  store_snapshot_replacing_tombstone,
}
use vaultcrdt_server.Documents.Delete.{
  DeleteOutcome, deleted, idempotent_no_live, rejected, delete_doc_guarded,
}
use vaultcrdt_server.Documents.Listing.{
  list_docs_with_vv, list_tombstones, list_tombstones_with_hash,
}
use Checks.{check_lengths, ◌>>◌}
use Merge.{Merged, push_merge, create_merge}

abbrev pub Reply : Type 0
Reply = ServerMsg × Option BroadcastEvent

-- `a && b.await?`: the query is made only if `a` holds.
unfoldable pub and_then : Bool → Sql Bool → Sql Bool
and_then a b = if a then b else pure false

-- `a.then_some(b)`
abbrev pub then_some {ℓ} : {A : Type ℓ} → Bool → A → Option A
then_some true a = some a
then_some false a = none

-- With `effective_replace` nothing stored is looked at.
unfoldable pub merge_base : Bool → Option (Bytes × Bytes) → Option (Bytes × Bytes)
merge_base effective_replace existing = if effective_replace then none else existing

unfoldable pub deletion_reply :
    (vault_id doc_uuid : Text) (conn_id : ℕ) (intent_id request_id : Option Text)
    → DeleteOutcome
    → Reply
deletion_reply vault_id doc_uuid conn_id intent_id request_id (deleted content_hash token) = (
  ServerMsg.ack none request_id,
  some (BroadcastEvent.delete vault_id doc_uuid conn_id content_hash),
)
deletion_reply vault_id doc_uuid conn_id intent_id request_id (idempotent_no_live content_hash) = (
  ServerMsg.ack none request_id,
  some (BroadcastEvent.delete vault_id doc_uuid conn_id content_hash),
)
deletion_reply vault_id doc_uuid conn_id intent_id request_id (rejected live_incarnation) =
    (ServerMsg.delete_rejected doc_uuid intent_id request_id, none)

module _ (loro : Loro) where
  open loro use {LoroDoc, VersionVector, new, import, export_updates, oplog_vv}

  -- The delta since the client's version vector, or the whole stored snapshot.
  unfoldable pub delta_since : LoroDoc → Bytes → Option Bytes → Result Bytes
  delta_since doc snapshot_blob none = ok snapshot_blob
  delta_since doc snapshot_blob (some vv_bytes) = elim (vv_from_json_bytes loro vv_bytes) [
    | err e ↦ err e
    | ok client_vv ↦ or_fail (export_updates doc client_vv) (ServerError.sync loro_export_delta)
  ]

  unfoldable pub start_from : Text → Option Bytes → Option (Bytes × ℕ) → Sql Reply
  unfolding delta_since
  start_from doc_uuid client_vv_bytes none = pure (ServerMsg.doc_unknown doc_uuid, none)
  start_from doc_uuid client_vv_bytes (some (snapshot_blob, incarnation)) = do
    doc ← lift (or_fail (import new snapshot_blob) (ServerError.sync loro_import_existing))
    let server_vv_json = vv_to_json_bytes loro (oplog_vv doc)
    delta ← lift (delta_since doc snapshot_blob client_vv_bytes)
    pure (ServerMsg.sync_delta doc_uuid delta server_vv_json (some incarnation), none)

  unfoldable pub handle_sync_start : Text → Text → Option Bytes → Sql Reply
  unfolding start_from
  handle_sync_start vault_id doc_uuid client_vv_bytes = do
    existing ← get_snapshot_with_incarnation vault_id doc_uuid
    start_from doc_uuid client_vv_bytes existing

  -- The answer to a push or a create that was stored, and the client's bytes for the others.
  unfoldable pub stored_reply :
      (vault_id doc_uuid : Text) (incoming : Bytes) (peer_id : Text) (conn_id : ℕ)
      → VersionVector
      → Option ℕ
      → Reply
  stored_reply vault_id doc_uuid incoming peer_id conn_id new_vv incarnation = (
    ServerMsg.ack incarnation none,
    some (
        BroadcastEvent.delta vault_id doc_uuid incoming peer_id conn_id
          (vv_to_json_bytes loro new_vv) incarnation),
  )

  unfoldable pub push_store :
      (vault_id doc_uuid : Text) (delta : Bytes) (peer_id : Text) (conn_id : ℕ) (is_new : Bool)
      → Option (Merged loro)
      → Sql Reply
  unfolding stored_reply
  push_store vault_id doc_uuid delta peer_id conn_id is_new none =
      pure (ServerMsg.create_conflict doc_uuid, none)
  push_store vault_id doc_uuid delta peer_id conn_id is_new (some (new_snapshot, new_vv)) = do
    token ← store_snapshot_with_vv vault_id doc_uuid new_snapshot (vv_to_db_bytes loro new_vv)
    lift (ok (stored_reply vault_id doc_uuid delta peer_id conn_id new_vv (then_some is_new token)))

  unfoldable pub handle_sync_push :
      (vault_id doc_uuid : Text) (delta : Bytes) (peer_id : Text) (conn_id : ℕ) → Sql Reply
  unfolding and_then push_store
  handle_sync_push vault_id doc_uuid delta peer_id conn_id = do
    existing ← get_snapshot_with_vv vault_id doc_uuid
    refused ← and_then (is_none existing) (is_tombstoned vault_id doc_uuid)
    if refused then pure (ServerMsg.doc_tombstoned doc_uuid, none) else do
      merged ← lift (push_merge loro existing delta)
      push_store vault_id doc_uuid delta peer_id conn_id (is_none existing) merged

  unfoldable pub create_store :
      (vault_id doc_uuid : Text) (snapshot : Bytes) (peer_id : Text) (conn_id : ℕ)
      (is_new anew : Bool)
      → Option (Merged loro)
      → Sql Reply
  unfolding stored_reply
  create_store vault_id doc_uuid snapshot peer_id conn_id is_new anew none =
      pure (ServerMsg.create_conflict doc_uuid, none)
  create_store vault_id doc_uuid snapshot peer_id conn_id is_new anew
        (some (new_snapshot, new_vv)) =
      do
        let new_vv_blob = vv_to_db_bytes loro new_vv
        token ←
            (if anew
              then store_snapshot_replacing_tombstone vault_id doc_uuid new_snapshot new_vv_blob
              else store_snapshot_with_vv vault_id doc_uuid new_snapshot new_vv_blob)
        lift (
            ok (
              stored_reply vault_id doc_uuid snapshot peer_id conn_id new_vv
                (then_some (is_new || anew) token)))

  unfoldable pub handle_doc_create :
      (vault_id doc_uuid : Text) (snapshot : Bytes) (peer_id : Text) (conn_id : ℕ)
      (replace_tombstone : Bool)
      → Sql Reply
  unfolding and_then create_store merge_base
  handle_doc_create vault_id doc_uuid snapshot peer_id conn_id replace_tombstone = do
    existing ← get_snapshot_with_vv vault_id doc_uuid
    was_tombstoned ← and_then (is_none existing) (is_tombstoned vault_id doc_uuid)
    if was_tombstoned && not replace_tombstone
        then pure (ServerMsg.doc_tombstoned doc_uuid, none)
        else do
          let effective_replace = was_tombstoned && replace_tombstone
          clear_stale_tombstone ←
              and_then (replace_tombstone && not was_tombstoned && is_some existing)
                (is_tombstoned vault_id doc_uuid)
          merged ← lift (create_merge loro (merge_base effective_replace existing) snapshot)
          create_store vault_id doc_uuid snapshot peer_id conn_id (is_none existing)
              (effective_replace || clear_stale_tombstone) merged

  unfoldable pub dispatch : ClientMsg → Text → ℕ → Sql Reply
  unfolding handle_sync_start handle_sync_push handle_doc_create deletion_reply
  dispatch (ClientMsg.auth token protocol_version features) vault_id conn_id =
      raise (ServerError.bad_frame unexpected_auth)
  dispatch ClientMsg.ping vault_id conn_id = pure (ServerMsg.pong, none)
  dispatch ClientMsg.request_doc_list vault_id conn_id = do
    docs ← list_docs_with_vv loro vault_id
    tombstones ← list_tombstones vault_id
    tombstone_hashes ← list_tombstones_with_hash vault_id
    pure (ServerMsg.doc_list docs tombstones tombstone_hashes, none)
  dispatch (ClientMsg.sync_start doc_uuid client_vv) vault_id conn_id =
      handle_sync_start vault_id doc_uuid client_vv
  dispatch (ClientMsg.sync_push doc_uuid delta peer_id request_id) vault_id conn_id =
      handle_sync_push vault_id doc_uuid delta peer_id conn_id
  dispatch (ClientMsg.doc_create doc_uuid snapshot peer_id replace_tombstone request_id) vault_id
        conn_id =
      handle_doc_create vault_id doc_uuid snapshot peer_id conn_id replace_tombstone
  dispatch (ClientMsg.doc_delete doc_uuid peer_id expected_incarnation intent_id request_id)
        vault_id conn_id =
      do
        outcome ← delete_doc_guarded loro vault_id doc_uuid peer_id expected_incarnation
        lift (ok (deletion_reply vault_id doc_uuid conn_id intent_id request_id outcome))

  unfoldable pub process_inner : ClientMsg → Text → ℕ → Sql Reply
  unfolding check_lengths dispatch
  process_inner message vault_id conn_id = do
    check_lengths message
    dispatch message vault_id conn_id

-- The request id that a frame carries, if it is a push, a create or a delete.
unfoldable pub request_id_of : Option ClientMsg → Option Text
request_id_of none = none
request_id_of (some (ClientMsg.auth token protocol_version features)) = none
request_id_of (some ClientMsg.ping) = none
request_id_of (some ClientMsg.request_doc_list) = none
request_id_of (some (ClientMsg.sync_start doc_uuid client_vv)) = none
request_id_of (some (ClientMsg.sync_push doc_uuid delta peer_id request_id)) = request_id
request_id_of (some (ClientMsg.doc_create doc_uuid snapshot peer_id replace_tombstone request_id)) =
    request_id
request_id_of (some (ClientMsg.doc_delete doc_uuid peer_id expected intent_id request_id)) =
    request_id

-- An `Ack` echoes the request id; any other answer is as the handler made it.
unfoldable pub with_request_id : Option Text → ServerMsg → ServerMsg
with_request_id request_id (ServerMsg.ack incarnation echo) = ServerMsg.ack incarnation request_id
with_request_id request_id response = response

unfoldable pub answer : Option Text → Result Reply → Reply
unfolding with_request_id
answer request_id (ok (response, broadcast)) = (with_request_id request_id response, broadcast)
answer request_id (err e) =
    let (code, message) = client_facing e in (ServerMsg.error code message request_id, none)

module _ (loro : Loro) (from_slice : Bytes → Option ClientMsg) where
  unfoldable pub process_parsed : Option ClientMsg → Text → ℕ → Sql Reply
  process_parsed none vault_id conn_id = raise (ServerError.bad_frame invalid_msgpack)
  process_parsed (some message) vault_id conn_id = process_inner loro message vault_id conn_id

  -- No error leaves here: it becomes an answer to the client.
  unfoldable pub process_message : Bytes → Text → ℕ → Conn → Reply × Conn
  unfolding process_parsed request_id_of answer
  process_message bytes vault_id conn_id s =
      let parsed = from_slice bytes in
      let (result, s') = process_parsed parsed vault_id conn_id s in
      (answer (request_id_of parsed) result, s')
