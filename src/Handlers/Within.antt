-- ===== src/Handlers/Within.antt =====
-- From the three handlers that write to a whole frame: a relation of the tables before and after.
use vaultcrdt_server.Base.{
  nat_eq, list_eq, option_eq, pair_eq, Bytes, Text, ℕ, Bool, Option, none, some,
}
use vaultcrdt_server.Base.Int.{ℤ}
use vaultcrdt_server.Db.{Db}
use vaultcrdt_server.Sql.{Conn}
use vaultcrdt_server.Sql.Reading.{
  IsWithin, IsReading-IsWithin, Refines-IsWithin, bind-IsWithin, raise-IsReading, pure-IsReading,
}
use vaultcrdt_server.Loro.{Loro}
use vaultcrdt_server.Protocol.{ClientMsg}
use vaultcrdt_server.Handlers.{dispatch, process_inner, process_parsed, process_message}
use vaultcrdt_server.Handlers.Spec.{pushed, created, removed}
use vaultcrdt_server.Handlers.Refinement.{
  handle_sync_push-Refines, handle_doc_create-Refines, doc_delete-Refines,
}
use vaultcrdt_server.Handlers.Reading.{
  check_lengths-IsReading, handle_sync_start-IsReading, doc_list-IsReading,
}

module _ (loro : Loro) (v : Text) (conn_id : ℕ) where
  -- The relation holds of a state and itself, and of a state and what a write makes of it.
  pub record Allows (R : Db → Db → Type 0) : Type 0 where
    pub same : (d : Db) → R d d
    pub push :
        (u : Text) (delta : Bytes) (p : Text) (t : ℕ) (d : Db)
        → R d (pushed loro v u delta p conn_id t d).1
    pub create :
        (u : Text) (snapshot : Bytes) (p : Text) (replace : Bool) (t : ℕ) (d : Db)
        → R d (created loro v u snapshot p conn_id replace t d).1
    pub delete :
        (u p : Text) (expected : Option ℤ) (i r : Option Text) (t : ℕ) (d : Db)
        → R d (removed loro v u p conn_id expected i r t d).1

  module _ (R : Db → Db → Type 0) (allows : Allows R) where
    dispatch-IsWithin : (message : ClientMsg) → IsWithin R (dispatch loro message v conn_id)
    unfolding dispatch
    dispatch-IsWithin (ClientMsg.auth token version features) =
        IsReading-IsWithin R _ allows.same (raise-IsReading _)
    dispatch-IsWithin ClientMsg.ping = IsReading-IsWithin R _ allows.same (pure-IsReading _)
    dispatch-IsWithin ClientMsg.request_doc_list =
        IsReading-IsWithin R _ allows.same (doc_list-IsReading loro v conn_id)
    dispatch-IsWithin (ClientMsg.sync_start u vv) =
        IsReading-IsWithin R _ allows.same (handle_sync_start-IsReading loro v u vv)
    dispatch-IsWithin (ClientMsg.sync_push u delta p r) =
        Refines-IsWithin R _ _ (handle_sync_push-Refines loro v u delta p conn_id) allows.same
          (allows.push u delta p)
    dispatch-IsWithin (ClientMsg.doc_create u snapshot p replace r) =
        Refines-IsWithin R _ _ (handle_doc_create-Refines loro v u snapshot p conn_id replace)
          allows.same (allows.create u snapshot p replace)
    dispatch-IsWithin (ClientMsg.doc_delete u p expected i r) =
        Refines-IsWithin R _ _ (doc_delete-Refines loro v u p conn_id expected i r) allows.same
          (allows.delete u p expected i r)

    process_parsed-IsWithin :
        (from_slice : Bytes → Option ClientMsg) (parsed : Option ClientMsg)
        → IsWithin R (process_parsed loro from_slice parsed v conn_id)
    unfolding process_parsed process_inner
    process_parsed-IsWithin from_slice none = IsReading-IsWithin R _ allows.same (raise-IsReading _)
    process_parsed-IsWithin from_slice (some message) =
        bind-IsWithin R _ _ allows.same (check_lengths-IsReading message)
          λ _. dispatch-IsWithin message

    pub process_message-within :
        (from_slice : Bytes → Option ClientMsg) (bytes : Bytes) (s : Conn)
        → R s.db (process_message loro from_slice bytes v conn_id s).1.db
    unfolding process_message
    process_message-within from_slice bytes s =
        (process_parsed-IsWithin from_slice (from_slice bytes)).within s
