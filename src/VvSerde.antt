-- ===== src/VvSerde.antt =====
-- vv_serde.rs: a version vector on the wire (JSON) and in the database (Loro's own encoding).
pub mod RoundTrip
use vaultcrdt_server.Base.{
  tests, nat_eq, list_eq, option_eq, pair_eq, is_empty, Bytes, Text, ℕ, zero, suc, Bool, none, some,
  List, [], ◌∷◌, map, arith,
}
use vaultcrdt_server.Base.Int.{ℤ}
use vaultcrdt_server.Base.Decimal.{u64_to_string, parse_unsigned}
use vaultcrdt_server.Errors.{
  ServerError, Result, ok, err, or_fail, invalid_vv_json, invalid_peer_id_in_vv, invalid_vv_bytes,
}
use vaultcrdt_server.Loro.{Loro}

unfoldable pub peer_texts : List (ℕ × ℤ) → List (Text × ℤ)
peer_texts [] = []
peer_texts ((k, v) ∷ rest) = (u64_to_string k, v) ∷ peer_texts rest

module _ (loro : Loro) where
  open loro use {
    VersionVector, vv_new, vv_insert, vv_entries, vv_encode, vv_decode, json_to_vec,
    json_from_slice,
  }

  unfoldable pub vv_to_json_bytes : VersionVector → Bytes
  unfolding peer_texts
  vv_to_json_bytes vv = json_to_vec (peer_texts (vv_entries vv))

  -- The loop of `vv_from_json_bytes`: the first text that is no `u64` ends it.
  unfoldable pub insert_peers : VersionVector → List (Text × ℤ) → Result VersionVector
  insert_peers vv [] = ok vv
  insert_peers vv ((peer_str, counter) ∷ rest) = elim (parse_unsigned peer_str) [
    | none ↦ err (ServerError.sync invalid_peer_id_in_vv)
    | some peer ↦ insert_peers (vv_insert peer counter vv) rest
  ]

  unfoldable pub vv_from_json_bytes : Bytes → Result VersionVector
  unfolding insert_peers
  vv_from_json_bytes bytes = elim (json_from_slice bytes) [
    | none ↦ err (ServerError.sync invalid_vv_json)
    | some map ↦ insert_peers vv_new map
  ]

  unfoldable pub vv_to_db_bytes : VersionVector → Bytes
  vv_to_db_bytes vv = vv_encode vv

  unfoldable pub vv_from_db_bytes : Bytes → Result VersionVector
  vv_from_db_bytes bytes = or_fail (vv_decode bytes) (ServerError.sync invalid_vv_bytes)

  unfoldable pub vv_is_empty : VersionVector → Bool
  vv_is_empty vv = is_empty (vv_entries vv)
