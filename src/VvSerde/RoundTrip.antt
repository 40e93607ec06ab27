-- ===== src/VvSerde/RoundTrip.antt =====
-- A version vector to JSON and back.
use vaultcrdt_server.Base.{
  nat_eq, list_eq, option_eq, pair_eq, All, ℕ, ◌≤◌, ◌≡◌, refl, ap, ◌∙◌, some, List, [], ◌∷◌,
}
use vaultcrdt_server.Base.Int.{ℤ}
use vaultcrdt_server.Base.Decimal.{u64_max, parse_unsigned-u64_to_string}
use vaultcrdt_server.Errors.{ok}
use vaultcrdt_server.Loro.{Loro}
use vaultcrdt_server.VvSerde.{peer_texts, insert_peers, vv_to_json_bytes, vv_from_json_bytes}

module _ (loro : Loro) where
  open loro use {VersionVector, vv_new, vv_insert, vv_entries, json_to_vec, json_from_slice}

  -- The vector with the entries put in one after the other.
  abbrev pub rebuilt : VersionVector → List (ℕ × ℤ) → VersionVector
  rebuilt vv [] = vv
  rebuilt vv ((k, z) ∷ rest) = rebuilt (vv_insert k z vv) rest

  insert_peers-peer_texts :
      (vv : VersionVector) (entries : List (ℕ × ℤ))
      → All (λ (e : ℕ × ℤ). e.0 ≤ u64_max) entries
      → insert_peers loro vv (peer_texts entries) ≡ ok (rebuilt vv entries)
  unfolding insert_peers peer_texts
  insert_peers-peer_texts vv [] h = refl
  insert_peers-peer_texts vv ((k, z) ∷ rest) h =
      rw (parse_unsigned-u64_to_string k h.0, insert_peers)
        (insert_peers-peer_texts (vv_insert k z vv) rest h.1)

  -- A version vector whose peers are 64-bit numbers comes back from its JSON bytes as the vector that
  -- has its entries put in, where serde reads the map that it wrote and where putting a vector's
  -- entries into a new one gives the vector.
  pub vv_from_json_bytes-vv_to_json_bytes :
      (vv : VersionVector)
      → All (λ (e : ℕ × ℤ). e.0 ≤ u64_max) (vv_entries vv)
      → json_from_slice (json_to_vec (peer_texts (vv_entries vv)))
        ≡ some (peer_texts (vv_entries vv))
      → rebuilt vv_new (vv_entries vv) ≡ vv
      → vv_from_json_bytes loro (vv_to_json_bytes loro vv) ≡ ok vv
  unfolding vv_from_json_bytes vv_to_json_bytes
  vv_from_json_bytes-vv_to_json_bytes vv peers json same =
      rw (json, vv_from_json_bytes)
        (insert_peers-peer_texts vv_new (vv_entries vv) peers ∙ ap ok same)
