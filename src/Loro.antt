-- ===== src/Loro.antt =====
-- The Loro CRDT library and serde's JSON, as far as the server calls them. They are not part of
-- the repository: the operations are a parameter of the model, which every handler takes.
use vaultcrdt_server.Base.{nat_eq, list_eq, option_eq, pair_eq, Bytes, Text, ℕ, Bool, Option, List}
use vaultcrdt_server.Base.Int.{ℤ}

-- `decode_import_blob_meta(delta, true)`
pub record ImportBlobMeta : Type 0 where
  pub change_num : ℕ
  pub start_frontiers_is_empty : Bool

pub record Loro : Type 1 where
  pub LoroDoc : Type 0
  pub VersionVector : Type 0
  -- `LoroDoc::new()`, and `doc.import(bytes)`, which fails or gives the merged document.
  pub new : LoroDoc
  pub import : LoroDoc → Bytes → Option LoroDoc
  -- `export(ExportMode::Snapshot)` and `export(ExportMode::updates(vv))`
  pub export_snapshot : LoroDoc → Option Bytes
  pub export_updates : LoroDoc → VersionVector → Option Bytes
  pub oplog_vv : LoroDoc → VersionVector
  pub decode_import_blob_meta : Bytes → Option ImportBlobMeta
  -- `get_text("content").to_string()`, as its Unicode scalar values
  pub content : LoroDoc → List ℕ
  -- `encode`, `decode`, `iter`, `get`, and `insert` into `VersionVector::new()`
  pub vv_encode : VersionVector → Bytes
  pub vv_decode : Bytes → Option VersionVector
  pub vv_entries : VersionVector → List (ℕ × ℤ)
  pub vv_get : VersionVector → ℕ → Option ℤ
  pub vv_new : VersionVector
  pub vv_insert : ℕ → ℤ → VersionVector → VersionVector
  -- `serde_json::to_vec` and `from_slice` at a map from text to `i32`
  pub json_to_vec : List (Text × ℤ) → Bytes
  pub json_from_slice : Bytes → Option (List (Text × ℤ))
