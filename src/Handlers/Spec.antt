-- ===== src/Handlers/Spec.antt =====
-- What a push, a create and a delete come to, from the row and the tombstone of the path alone.
use vaultcrdt_server.Base.{
  if◌then◌else◌, is_none, nat_eq, list_eq, option_eq, pair_eq, Bytes, Text, ℕ, Bool, false, not,
  ◌&&◌, ◌||◌, Option, none, some,
}
use vaultcrdt_server.Base.Int.{ℤ}
use vaultcrdt_server.Errors.{Result, ok, err}
use vaultcrdt_server.Sql.Refines.{Spec}
use vaultcrdt_server.Sql.Transactions.{mapped}
use vaultcrdt_server.Loro.{Loro}
use vaultcrdt_server.Protocol.{ServerMsg}
use vaultcrdt_server.VvSerde.{vv_to_db_bytes}
use vaultcrdt_server.Documents.{snapshot_and_vv, has_tombstone}
use vaultcrdt_server.Documents.Spec.{stored, stored_anew, guarded}
use vaultcrdt_server.Handlers.{Reply, then_some, stored_reply, deletion_reply}
use vaultcrdt_server.Handlers.Merge.{Merged, push_merge, create_merge}

module _ (loro : Loro) (v u : Text) (incoming : Bytes) (peer_id : Text) (conn_id : ℕ) where
  -- The last step, with a merge that was made, refused or failed.
  abbrev pub finish : (is_new anew : Bool) → Result (Option (Merged loro)) → Spec Reply
  finish is_new anew (err e) t d = (err e, d)
  finish is_new anew (ok none) t d = (ok (ServerMsg.create_conflict u, none), d)
  finish is_new anew (ok (some (snapshot, vv))) t d =
      mapped
        (λ token. ok (stored_reply loro v u incoming peer_id conn_id vv (then_some is_new token)))
        (if anew
          then stored_anew v u snapshot (vv_to_db_bytes loro vv) t d
          else stored v u snapshot (vv_to_db_bytes loro vv) t d)

  -- A push to a path with a tombstone and no row is refused; any other is merged into what is there.
  abbrev pub pushed : Spec Reply
  pushed t d =
      let existing = snapshot_and_vv (v, u) d in
      if is_none existing && has_tombstone (v, u) d
      then (ok (ServerMsg.doc_tombstoned u, none), d)
      else finish (is_none existing) false (push_merge loro existing incoming) t d

  -- A create is refused likewise, unless it is told to replace the tombstone. Where it is and there
  -- is one, the row gets a new token and the tombstone goes, whether there was a row or not.
  abbrev pub created : Bool → Spec Reply
  created replace_tombstone t d =
      let existing = snapshot_and_vv (v, u) d in
      let anew = has_tombstone (v, u) d && replace_tombstone in
      if is_none existing && has_tombstone (v, u) d && not replace_tombstone
      then (ok (ServerMsg.doc_tombstoned u, none), d)
      else finish (is_none existing || anew) anew (create_merge loro existing incoming) t d

abbrev pub removed :
    (loro : Loro) (v u peer_id : Text) (conn_id : ℕ) (expected : Option ℤ)
    (intent_id request_id : Option Text)
    → Spec Reply
removed loro v u peer_id conn_id expected intent_id request_id t d =
    mapped (λ outcome. ok (deletion_reply v u conn_id intent_id request_id outcome))
      (guarded loro v u peer_id expected t d)
