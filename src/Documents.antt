-- ===== src/Documents.antt =====
-- db.rs, the document and tombstone queries. Each function is the statements of its source in
-- their order; a `transaction` is one that the source opens. A vault and a document name are two
-- arguments, as in the source, and together the primary key.
pub mod Delete
pub mod Spec
pub mod Refinement
pub mod Listing
pub mod Tokens
pub mod Sound
use vaultcrdt_server.Base.{
  ltb, if◌then◌else◌, tests, is_some, nat_eq, list_eq, option_eq, pair_eq, Bytes, Text, ℕ, zero,
  suc, ◌+◌, ◌-◌, Bool, Option, none, some, arith,
}
use vaultcrdt_server.Base.Int.{int_eq}
use vaultcrdt_server.Table.{find, put, remove}
use vaultcrdt_server.Errors.{ServerError, or_fail, incarnation_space_exhausted}
use vaultcrdt_server.Errors
use vaultcrdt_server.Db.{Db, Key, Document}
use vaultcrdt_server.Sql.{Sql, pure, lift, ◌>>=◌, query, execute, transaction}

abbrev pub i64_max : ℕ
i64_max = 9223372036854775807

-- INSERT INTO vault_incarnation … ON CONFLICT … WHERE next_incarnation < i64::MAX RETURNING: no row
-- comes back where the WHERE refuses.
unfoldable pub bump_incarnation : Text → Db → Option ℕ × Db
bump_incarnation vault_id d = elim (find vault_id d.vault_incarnation) [
  | none ↦ (some 2, record d { vault_incarnation = put vault_id 2 d.vault_incarnation })
  | some n ↦
      if ltb n i64_max
      then (some (n + 1), record d { vault_incarnation = put vault_id (n + 1) d.vault_incarnation })
      else (none, d)
]

unfoldable pub allocate_incarnation : Text → Sql ℕ
unfolding bump_incarnation
allocate_incarnation vault_id = do
  next ← execute (λ _ d. bump_incarnation vault_id d)
  next ← lift (or_fail next (ServerError.db incarnation_space_exhausted))
  pure (next - 1)

-- The row that INSERT … ON CONFLICT DO UPDATE leaves, where the conflict keeps the incarnation.
unfoldable pub keep_incarnation : Option Document → Document → Document
keep_incarnation none new = new
keep_incarnation (some old) new = record new { incarnation = old.incarnation }

unfoldable pub existing_incarnation : Key → Db → Option ℕ
existing_incarnation k d = elim (find k d.documents) [ none ↦ none | some r ↦ some r.incarnation ]

unfoldable pub use_or_allocate : Option ℕ → Text → Sql ℕ
unfolding allocate_incarnation
use_or_allocate (some token) vault_id = pure token
use_or_allocate none vault_id = allocate_incarnation vault_id

unfoldable pub upsert_document : Key → Bytes → Bytes → ℕ → ℕ → Db → Db
unfolding keep_incarnation
upsert_document k snapshot vv_blob incarnation t d = record d {
  documents = put k (keep_incarnation (find k d.documents) row) d.documents;
}
  where
    row : Document
    row = record {
      snapshot_blob = snapshot;
      vv_blob = vv_blob;
      updated_at = t;
      incarnation = incarnation;
    }

unfoldable pub store_snapshot_with_vv : Text → Text → Bytes → Bytes → Sql ℕ
unfolding use_or_allocate upsert_document existing_incarnation
store_snapshot_with_vv vault_id doc_uuid snapshot vv_blob = transaction (do
  existing ← query (λ _ d. existing_incarnation (vault_id, doc_uuid) d)
  incarnation ← use_or_allocate existing vault_id
  _ ←
      execute
        (λ t d. (tt {0}, upsert_document (vault_id, doc_uuid) snapshot vv_blob incarnation t d))
  pure incarnation)

-- Here the conflict takes the new incarnation too.
unfoldable pub replace_document : Key → Bytes → Bytes → ℕ → ℕ → Db → Db
replace_document k snapshot vv_blob incarnation t d = record d { documents = put k row d.documents }
  where
    row : Document
    row = record {
      snapshot_blob = snapshot;
      vv_blob = vv_blob;
      updated_at = t;
      incarnation = incarnation;
    }

unfoldable pub drop_tombstone : Key → Db → Db
drop_tombstone k d = record d { tombstones = remove k d.tombstones }

unfoldable pub store_snapshot_replacing_tombstone : Text → Text → Bytes → Bytes → Sql ℕ
unfolding allocate_incarnation replace_document drop_tombstone
store_snapshot_replacing_tombstone vault_id doc_uuid snapshot vv_blob = transaction (do
  incarnation ← allocate_incarnation vault_id
  _ ←
      execute
        (λ t d. (tt {0}, replace_document (vault_id, doc_uuid) snapshot vv_blob incarnation t d))
  _ ← execute (λ _ d. (tt {0}, drop_tombstone (vault_id, doc_uuid) d))
  pure incarnation)

unfoldable pub snapshot_and_incarnation : Key → Db → Option (Bytes × ℕ)
snapshot_and_incarnation k d = elim (find k d.documents) [
  | none ↦ none
  | some r ↦ some (r.snapshot_blob, r.incarnation)
]

unfoldable pub get_snapshot_with_incarnation : Text → Text → Sql (Option (Bytes × ℕ))
get_snapshot_with_incarnation vault_id doc_uuid =
    query (λ _ d. snapshot_and_incarnation (vault_id, doc_uuid) d)

unfoldable pub snapshot_and_vv : Key → Db → Option (Bytes × Bytes)
snapshot_and_vv k d = elim (find k d.documents) [
  | none ↦ none
  | some r ↦ some (r.snapshot_blob, r.vv_blob)
]

unfoldable pub get_snapshot_with_vv : Text → Text → Sql (Option (Bytes × Bytes))
get_snapshot_with_vv vault_id doc_uuid = query (λ _ d. snapshot_and_vv (vault_id, doc_uuid) d)

unfoldable pub has_tombstone : Key → Db → Bool
has_tombstone k d = is_some (find k d.tombstones)

unfoldable pub is_tombstoned : Text → Text → Sql Bool
is_tombstoned vault_id doc_uuid = query (λ _ d. has_tombstone (vault_id, doc_uuid) d)
