-- ===== src/Tests/Documents.antt =====
-- Instances of the theorems on documents, lists, version vectors, hashes and tombstones.
use vaultcrdt_server.Base.{
  tests, is_some, ◌==◌, nat_eq, list_eq, option_eq, pair_eq, length, all, any, Text, codes, zero,
  suc, ◌≡◌, refl, ◌↔◌, true, none, some, [], ◌∷◌, arith,
}
use vaultcrdt_server.Base.Int.{pos}
use vaultcrdt_server.Base.Sorting.{IsSorted}
use vaultcrdt_server.Table.{find}
use vaultcrdt_server.Errors.{ok}
use vaultcrdt_server.Db.{Db, Key, Peer, Tombstone, empty_db}
use vaultcrdt_server.Sql.Refines.{Refines}
use vaultcrdt_server.Protocol.{DocEntry, TombstoneHash}
use vaultcrdt_server.Base.Decimal.{u64_to_string}
use vaultcrdt_server.VvSerde.{peer_texts, vv_from_json_bytes, vv_to_json_bytes}
use vaultcrdt_server.VvSerde.RoundTrip.{vv_from_json_bytes-vv_to_json_bytes}
use vaultcrdt_server.Documents.{
  store_snapshot_with_vv, store_snapshot_replacing_tombstone, has_tombstone,
}
use vaultcrdt_server.Documents.Delete.{delete_doc_guarded}
use vaultcrdt_server.Documents.Spec.{stored, stored_anew, guarded}
use vaultcrdt_server.Documents.Refinement.Store.{store_snapshot_with_vv-Refines}
use vaultcrdt_server.Documents.Refinement.Replace.{store_snapshot_replacing_tombstone-Refines}
use vaultcrdt_server.Documents.Refinement.Delete.{delete_doc_guarded-Refines}
use vaultcrdt_server.Documents.Listing.{docs_of, tombstones_of, tombstone_hashes_of}
use vaultcrdt_server.Documents.Listing.Laws.{names, doc_list_complete}
use vaultcrdt_server.Retention.{expire_tombstones_at}
use vaultcrdt_server.Retention.Laws.{Stays, expire_tombstones_at_lem}
use vaultcrdt_server.Fnv.{fnv1a_64_hex, encode_utf16, offset, fold_units}
use vaultcrdt_server.Fnv.Hex.{read_hex, is_hex, fnv1a_64_hex_shape}
use vaultcrdt_server.Tests.Toy.{toy, to_json, from_json, vault, note, peer}

store_snapshot_with_vv-Refines_example :
    Refines
      (λ _. Unit {0})
      (store_snapshot_with_vv vault note (104 ∷ []) (1 ∷ []))
      (stored vault note (104 ∷ []) (1 ∷ []))
store_snapshot_with_vv-Refines_example =
    store_snapshot_with_vv-Refines vault note (104 ∷ []) (1 ∷ [])

store_snapshot_replacing_tombstone-Refines_example :
    Refines
      (λ _. Unit {0})
      (store_snapshot_replacing_tombstone vault note (104 ∷ []) (1 ∷ []))
      (stored_anew vault note (104 ∷ []) (1 ∷ []))
store_snapshot_replacing_tombstone-Refines_example =
    store_snapshot_replacing_tombstone-Refines vault note (104 ∷ []) (1 ∷ [])

delete_doc_guarded-Refines_example :
    Refines
      (λ _. Unit {0})
      (delete_doc_guarded toy vault note peer (some (pos 1)))
      (guarded toy vault note peer (some (pos 1)))
delete_doc_guarded-Refines_example = delete_doc_guarded-Refines toy vault note peer (some (pos 1))

abbrev old_tombstone : Tombstone
old_tombstone = record { deleted_by = peer; deleted_at = 10; content_hash = none; incarnation = 1 }

-- One tombstone, and a peer that was last seen before it.
abbrev waiting : Db
waiting = record empty_db {
  tombstones = ((vault, note), old_tombstone) ∷ [];
  peers = ((vault, peer), record { device_name = codes "laptop"; last_seen_at = 9 }) ∷ [];
}

waiting_found : find (vault, note) waiting.tombstones ≡ some old_tombstone
unfolding find vaultcrdt_server.Base.list_beq vaultcrdt_server.Base.pair_beq
waiting_found = refl

nothing_else : find {K = Key} {V = Tombstone} (vault, note) [] ≡ none
unfolding find
nothing_else = refl

no_peer_else : find {K = Key} {V = Peer} (vault, peer) [] ≡ none
unfolding find
no_peer_else = refl

expire_tombstones_at_lem_example :
    (find (vault, note) (expire_tombstones_at (pos 90) 8000000 waiting).1.tombstones
      ≡ some old_tombstone)
    ↔ Stays 90 8000000 vault note old_tombstone waiting
expire_tombstones_at_lem_example =
    expire_tombstones_at_lem 90 8000000 vault note old_tombstone waiting (nothing_else, tt)
      (no_peer_else, tt) waiting_found

doc_list_complete_example :
    ((u : Text)
      → (any (λ (e : DocEntry). e.doc_uuid == u) (docs_of toy vault waiting)
          ≡ is_some (find (vault, u) waiting.documents))
        × (names u (tombstones_of vault waiting) ≡ has_tombstone (vault, u) waiting)
        × (any (λ (e : TombstoneHash). e.doc_uuid == u) (tombstone_hashes_of vault waiting)
            ≡ has_tombstone (vault, u) waiting))
    × IsSorted (λ (e : DocEntry). e.doc_uuid) (docs_of toy vault waiting)
    × IsSorted (λ u. u) (tombstones_of vault waiting)
    × IsSorted (λ (e : TombstoneHash). e.doc_uuid) (tombstone_hashes_of vault waiting)
doc_list_complete_example = doc_list_complete toy vault waiting

-- Peer 7 has counted to 3.
abbrev counted : toy.VersionVector
counted = (7, pos 3) ∷ []

json_read : toy.json_from_slice (toy.json_to_vec (peer_texts counted)) ≡ some (peer_texts counted)
unfolding to_json from_json peer_texts u64_to_string vaultcrdt_server.Base.Decimal.decimal
json_read = refl

vv_from_json_bytes-vv_to_json_bytes_example :
    vv_from_json_bytes toy (vv_to_json_bytes toy counted) ≡ ok counted
vv_from_json_bytes-vv_to_json_bytes_example =
    vv_from_json_bytes-vv_to_json_bytes toy counted (omega arith, tt) json_read refl

-- The hashes that the unit tests of fnv.rs expect.
golden :
    (fnv1a_64_hex [] ≡ codes "cbf29ce484222325")
    × (fnv1a_64_hex (codes "vaultcrdt fnv golden") ≡ codes "a6a9b25f2a464e61")
unfolding fnv1a_64_hex fold_units encode_utf16 vaultcrdt_server.Fnv.hex_digits
    vaultcrdt_server.Fnv.absorb vaultcrdt_server.Fnv.hex_digit
golden = (refl, refl)

fnv1a_64_hex_shape_example :
    (length (fnv1a_64_hex (codes "abc")) ≡ 16)
    × (all is_hex (fnv1a_64_hex (codes "abc")) ≡ true)
    × (read_hex 0 (fnv1a_64_hex (codes "abc")) ≡ fold_units offset (encode_utf16 (codes "abc")))
fnv1a_64_hex_shape_example = fnv1a_64_hex_shape (codes "abc")
