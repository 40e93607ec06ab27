-- ===== src/Documents/Listing.antt =====
-- db.rs, the lists of a vault's documents and tombstones.
pub mod Laws
use vaultcrdt_server.Base.{
  tests, ◌==◌, nat_eq, list_eq, option_eq, pair_eq, Bytes, Text, codes, zero, suc, Bool, some, List,
  arith,
}
use vaultcrdt_server.Base.Sorting.{sort_by}
use vaultcrdt_server.Table.{select_where}
use vaultcrdt_server.Errors.{ok, err}
use vaultcrdt_server.Db.{Db, Key, Document, Tombstone}
use vaultcrdt_server.Sql.{Sql, query}
use vaultcrdt_server.Loro.{Loro}
use vaultcrdt_server.Protocol.{DocEntry, TombstoneHash}
use vaultcrdt_server.VvSerde.{vv_from_db_bytes, vv_to_json_bytes}

abbrev pub invalid_vv_sentinel_json : Bytes
invalid_vv_sentinel_json = codes "__vaultcrdt_invalid_vv__"

-- WHERE vault_id = ?
unfoldable pub in_vault {ℓ} : {V : Type ℓ} → Text → Key → V → Bool
in_vault vault_id (v, u) row = v == vault_id

module _ (loro : Loro) where
  unfoldable pub json_vv : Bytes → Bytes
  json_vv db_vv = elim (vv_from_db_bytes loro db_vv) [
    | ok vv ↦ vv_to_json_bytes loro vv
    | err e ↦ invalid_vv_sentinel_json
  ]

  unfoldable pub doc_entry : Key → Document → DocEntry
  unfolding json_vv
  doc_entry (v, u) r = record {
    doc_uuid = u;
    updated_at = r.updated_at;
    server_vv = json_vv r.vv_blob;
    incarnation = some r.incarnation;
  }

  unfoldable pub docs_of : Text → Db → List DocEntry
  unfolding doc_entry in_vault
  docs_of vault_id d =
      sort_by (λ (e : DocEntry). e.doc_uuid)
        (select_where (in_vault vault_id) doc_entry d.documents)

  unfoldable pub list_docs_with_vv : Text → Sql (List DocEntry)
  unfolding docs_of
  list_docs_with_vv vault_id = query (λ _ d. docs_of vault_id d)

abbrev pub doc_name {ℓ} : {V : Type ℓ} → Key → V → Text
doc_name (v, u) r = u

unfoldable pub tombstones_of : Text → Db → List Text
unfolding in_vault
tombstones_of vault_id d = sort_by (λ u. u) (select_where (in_vault vault_id) doc_name d.tombstones)

unfoldable pub list_tombstones : Text → Sql (List Text)
unfolding tombstones_of
list_tombstones vault_id = query (λ _ d. tombstones_of vault_id d)

abbrev pub name_and_hash : Key → Tombstone → TombstoneHash
name_and_hash (v, u) r = record { doc_uuid = u; content_hash = r.content_hash }

unfoldable pub tombstone_hashes_of : Text → Db → List TombstoneHash
unfolding in_vault
tombstone_hashes_of vault_id d =
    sort_by (λ (e : TombstoneHash). e.doc_uuid)
      (select_where (in_vault vault_id) name_and_hash d.tombstones)

unfoldable pub list_tombstones_with_hash : Text → Sql (List TombstoneHash)
unfolding tombstone_hashes_of
list_tombstones_with_hash vault_id = query (λ _ d. tombstone_hashes_of vault_id d)
