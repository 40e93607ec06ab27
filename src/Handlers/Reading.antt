-- ===== src/Handlers/Reading.antt =====
-- The parts of a frame's handling that leave the tables as they are.
use vaultcrdt_server.Base.{nat_eq, list_eq, option_eq, pair_eq, Bytes, Text, ℕ, Option, none, some}
use vaultcrdt_server.Sql.Reading.{
  IsReading, lift-IsReading, pure-IsReading, query-IsReading, bind-IsReading,
}
use vaultcrdt_server.Loro.{Loro}
use vaultcrdt_server.Protocol.{ClientMsg}
use vaultcrdt_server.Documents.{get_snapshot_with_incarnation}
use vaultcrdt_server.Documents.Listing.{
  list_docs_with_vv, list_tombstones, list_tombstones_with_hash,
}
use vaultcrdt_server.Handlers.Checks.{check_ids, check_lengths}
use vaultcrdt_server.Handlers.{start_from, handle_sync_start, dispatch}

check_ids-IsReading : (u p : Text) (r : Option Text) → IsReading (check_ids u p r)
unfolding check_ids
check_ids-IsReading u p r =
    bind-IsReading _ _ (lift-IsReading _)
      λ _. bind-IsReading _ _ (lift-IsReading _) λ _. lift-IsReading _

pub check_lengths-IsReading : (message : ClientMsg) → IsReading (check_lengths message)
unfolding check_lengths
check_lengths-IsReading (ClientMsg.auth token version features) = pure-IsReading tt
check_lengths-IsReading ClientMsg.ping = pure-IsReading tt
check_lengths-IsReading ClientMsg.request_doc_list = pure-IsReading tt
check_lengths-IsReading (ClientMsg.sync_start u vv) = lift-IsReading _
check_lengths-IsReading (ClientMsg.sync_push u delta p r) = check_ids-IsReading u p r
check_lengths-IsReading (ClientMsg.doc_create u snapshot p replace r) = check_ids-IsReading u p r
check_lengths-IsReading (ClientMsg.doc_delete u p expected i r) =
    bind-IsReading _ _ (check_ids-IsReading u p r) λ _. lift-IsReading _

module _ (loro : Loro) where
  start_from-IsReading :
      (u : Text) (vv : Option Bytes) (existing : Option (Bytes × ℕ))
      → IsReading (start_from loro u vv existing)
  unfolding start_from
  start_from-IsReading u vv none = pure-IsReading _
  start_from-IsReading u vv (some (blob, token)) =
      bind-IsReading _ _ (lift-IsReading _)
        λ doc. bind-IsReading _ _ (lift-IsReading _) λ delta. pure-IsReading _

  pub handle_sync_start-IsReading :
      (v u : Text) (vv : Option Bytes) → IsReading (handle_sync_start loro v u vv)
  unfolding handle_sync_start get_snapshot_with_incarnation
  handle_sync_start-IsReading v u vv =
      bind-IsReading _ _ (query-IsReading _) λ existing. start_from-IsReading u vv existing

  pub doc_list-IsReading :
      (v : Text) (conn_id : ℕ) → IsReading (dispatch loro ClientMsg.request_doc_list v conn_id)
  unfolding dispatch list_docs_with_vv list_tombstones list_tombstones_with_hash
  doc_list-IsReading v conn_id = bind-IsReading _ _ (query-IsReading _) λ docs.
      bind-IsReading _ _ (query-IsReading _)
        λ tombstones. bind-IsReading _ _ (query-IsReading _) λ hashes. pure-IsReading _
