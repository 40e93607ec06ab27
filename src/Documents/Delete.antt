-- ===== src/Documents/Delete.antt =====
-- db.rs, `delete_doc_guarded`: the guarded delete, in one transaction.
use vaultcrdt_server.Base.{
  if◌then◌else◌, unwrap_or, ◌==◌, nat_eq, list_eq, option_eq, pair_eq, Bytes, Text, ℕ, Bool, false,
  not, Option, none, some,
}
use vaultcrdt_server.Base.Int.{ℤ, pos, int_eq}
use vaultcrdt_server.Table.{find, put, remove}
use vaultcrdt_server.Db.{Db, Key, Tombstone}
use vaultcrdt_server.Sql.{Sql, pure, ◌>>=◌, query, execute, transaction}
use vaultcrdt_server.Loro.{Loro}
use vaultcrdt_server.Fnv.{fnv1a_64_hex}
use vaultcrdt_server.Documents.{snapshot_and_incarnation}

pub data DeleteOutcome : Type 0 where
  -- A live row is gone; the tombstone has its incarnation.
  deleted : Option Text → ℕ → DeleteOutcome
  -- There was no live row.
  idempotent_no_live : Option Text → DeleteOutcome
  -- Nothing changed; zero is for no live row.
  rejected : ℕ → DeleteOutcome

-- COALESCE(a, b)
abbrev pub coalesce {ℓ} : {A : Type ℓ} → Option A → Option A → Option A
coalesce none b = b
coalesce (some a) b = some a

-- The tombstone that INSERT … ON CONFLICT DO UPDATE leaves.
unfoldable pub buried : Option Tombstone → Text → Option Text → Option ℕ → ℕ → Tombstone
buried none deleted_by content_hash incarnation t = record {
  deleted_by = deleted_by;
  deleted_at = t;
  content_hash = content_hash;
  incarnation = unwrap_or incarnation 1;
}
buried (some old) deleted_by content_hash incarnation t = record {
  deleted_by = deleted_by;
  deleted_at = t;
  content_hash = coalesce content_hash old.content_hash;
  incarnation = unwrap_or incarnation old.incarnation;
}

unfoldable pub bury : Key → Text → Option Text → Option ℕ → ℕ → Db → Db
unfolding buried
bury k deleted_by content_hash incarnation t d = record d {
  tombstones =
      put k (buried (find k d.tombstones) deleted_by content_hash incarnation t) d.tombstones;
}

unfoldable pub drop_document : Key → Db → Db
drop_document k d = record d { documents = remove k d.documents }

unfoldable pub stored_hash : Key → Db → Option Text
stored_hash k d = elim (find k d.tombstones) [ none ↦ none | some r ↦ r.content_hash ]

-- `expected.is_some_and(|token| token != live_incarnation)`
unfoldable pub mismatch : Option ℤ → ℕ → Bool
mismatch none live = false
mismatch (some token) live = not (token == pos live)

unfoldable pub live_token : Option (Bytes × ℕ) → Option ℕ
live_token none = none
live_token (some (_, token)) = some token

unfoldable pub outcome_of : Option ℕ → Option Text → DeleteOutcome
outcome_of none hash = idempotent_no_live hash
outcome_of (some token) hash = deleted hash token

module _ (loro : Loro) where
  open loro use {new, import, content}

  unfoldable pub content_hash_from_snapshot_blob : Bytes → Option Text
  content_hash_from_snapshot_blob snapshot_blob = elim (import new snapshot_blob) [
    | none ↦ none
    | some doc ↦ some (fnv1a_64_hex (content doc))
  ]

  unfoldable pub live_hash : Option (Bytes × ℕ) → Option Text
  unfolding content_hash_from_snapshot_blob
  live_hash none = none
  live_hash (some (snapshot, _)) = content_hash_from_snapshot_blob snapshot

  -- The statements from the DELETE to the read of the stored hash.
  unfoldable pub delete_and_bury : Text → Text → Text → Option (Bytes × ℕ) → Sql DeleteOutcome
  unfolding drop_document bury stored_hash live_token outcome_of live_hash
  delete_and_bury vault_id doc_uuid deleted_by live = do
    let content_hash = live_hash live
    let incarnation = live_token live
    _ ← execute (λ _ d. (tt {0}, drop_document (vault_id, doc_uuid) d))
    _ ← execute (λ t d. (tt {0}, bury (vault_id, doc_uuid) deleted_by content_hash incarnation t d))
    stored_hash ← query (λ _ d. stored_hash (vault_id, doc_uuid) d)
    pure (outcome_of incarnation stored_hash)

  unfoldable pub delete_doc_guarded : Text → Text → Text → Option ℤ → Sql DeleteOutcome
  unfolding delete_and_bury mismatch
  delete_doc_guarded vault_id doc_uuid deleted_by expected = transaction (do
    live ← query (λ _ d. snapshot_and_incarnation (vault_id, doc_uuid) d)
    let live_incarnation = unwrap_or (live_token live) 0
    if mismatch expected live_incarnation
        then pure (rejected live_incarnation)
        else delete_and_bury vault_id doc_uuid deleted_by live)
