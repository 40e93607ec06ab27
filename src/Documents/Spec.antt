-- ===== src/Documents/Spec.antt =====
-- What the document functions promise, without statements, transactions or faults: the result and
-- the tables, from the row and the tombstone of the path, and the vault's counter.
use vaultcrdt_server.Base.{
  ltb, if◌then◌else◌, unwrap_or, nat_eq, list_eq, option_eq, pair_eq, Bytes, Text, ℕ, ◌+◌, Option,
  none, some,
}
use vaultcrdt_server.Base.Int.{ℤ}
use vaultcrdt_server.Table.{find, put, remove}
use vaultcrdt_server.Errors.{ServerError, ok, err, incarnation_space_exhausted}
use vaultcrdt_server.Db.{Db, Key, Tombstone}
use vaultcrdt_server.Sql.Refines.{Spec}
use vaultcrdt_server.Sql.Sequence.{chain}
use vaultcrdt_server.Loro.{Loro}
use vaultcrdt_server.Documents.{
  i64_max, existing_incarnation, snapshot_and_incarnation, replace_document, drop_tombstone,
}
use vaultcrdt_server.Documents.Delete.{
  DeleteOutcome, deleted, idempotent_no_live, rejected, coalesce, mismatch, live_token, live_hash,
}

-- The counter of a vault is the next token to give out; a vault with no counter gives 1.
abbrev pub next_token : Text → Db → ℕ
next_token v d = unwrap_or (find v d.vault_incarnation) 1

abbrev pub with_next_token : Text → ℕ → Db → Db
with_next_token v n d = record d { vault_incarnation = put v n d.vault_incarnation }

abbrev pub allocated : Text → Spec ℕ
allocated v t d =
    let n = next_token v d in
    if ltb n i64_max
    then (ok n, with_next_token v (n + 1) d)
    else (err (ServerError.db incarnation_space_exhausted), d)

abbrev pub stored_by : Option ℕ → Text → Text → Bytes → Bytes → Spec ℕ
stored_by (some token) v u snapshot vv t d =
    (ok token, replace_document (v, u) snapshot vv token t d)
stored_by none v u snapshot vv t d =
    chain (allocated v t d) (λ n t d1. (ok n, replace_document (v, u) snapshot vv n t d1)) t

-- A live row keeps its token; a new one gets the next.
abbrev pub stored : Text → Text → Bytes → Bytes → Spec ℕ
stored v u snapshot vv t d = stored_by (existing_incarnation (v, u) d) v u snapshot vv t d

-- Whatever stood at the path, the row is new, under the next token, and the tombstone is gone.
abbrev pub stored_anew : Text → Text → Bytes → Bytes → Spec ℕ
stored_anew v u snapshot vv t d =
    chain (allocated v t d)
      (λ n t d1. (ok n, drop_tombstone (v, u) (replace_document (v, u) snapshot vv n t d1))) t

abbrev pub old_hash : Option Tombstone → Option Text
old_hash none = none
old_hash (some r) = r.content_hash

abbrev pub old_token : Option Tombstone → ℕ
old_token none = 1
old_token (some r) = r.incarnation

module _ (loro : Loro) where
  -- The tombstone after a delete: a new hash or token counts before the one that was there.
  abbrev pub grave : Key → Text → Option (Bytes × ℕ) → ℕ → Db → Tombstone
  grave k deleted_by live t d = record {
    deleted_by = deleted_by;
    deleted_at = t;
    content_hash = coalesce (live_hash loro live) (old_hash (find k d.tombstones));
    incarnation = unwrap_or (live_token live) (old_token (find k d.tombstones));
  }

  abbrev pub buried_at : Key → Tombstone → Db → Db
  buried_at k tomb d = record d {
    documents = remove k d.documents;
    tombstones = put k tomb d.tombstones;
  }

  abbrev pub report : Option (Bytes × ℕ) → Option Text → DeleteOutcome
  report none hash = idempotent_no_live hash
  report (some (_, token)) hash = deleted hash token

  abbrev pub guarded : Text → Text → Text → Option ℤ → Spec DeleteOutcome
  guarded v u deleted_by expected t d =
      let live = snapshot_and_incarnation (v, u) d in
      let token = unwrap_or (live_token live) 0 in
      let tomb = grave (v, u) deleted_by live t d in
      if mismatch expected token
      then (ok (rejected token), d)
      else (ok (report live tomb.content_hash), buried_at (v, u) tomb d)
