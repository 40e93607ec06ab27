-- ===== src/Handlers/Merge.antt =====
-- handlers.rs, the work on Loro documents inside `handle_sync_push` and `handle_doc_create`, which
-- reads no table: what the stored snapshot and the client's bytes come to.
use vaultcrdt_server.Base.{
  ltb, if◌then◌else◌, is_some, nat_eq, list_eq, option_eq, pair_eq, Bytes, ℕ, Bool, true, false,
  not, ◌&&◌, ◌||◌, Option, none, some, List, [], ◌∷◌,
}
use vaultcrdt_server.Base.Int.{ℤ}
use vaultcrdt_server.Errors.{
  ServerError, Result, ok, err, or_fail, loro_import_existing, loro_import_client_delta,
  loro_import_client_snapshot, loro_decode_client_delta, loro_export_snapshot,
}
use vaultcrdt_server.Errors
use vaultcrdt_server.Loro.{Loro}
use vaultcrdt_server.VvSerde.{vv_from_db_bytes, vv_is_empty}

infixl 10 ◌>>=◌
abbrev ◌>>=◌ {ℓ κ} : {A : Type ℓ} {B : Type κ} → Result A → (A → Result B) → Result B
ok a >>= f = f a
err e >>= f = err e

abbrev not_synced : Errors.SyncFault → ServerError
not_synced f = ServerError.sync f

-- A new snapshot and the version vector that goes with it.
abbrev pub Merged : Loro → Type 0
Merged loro = Bytes × loro.VersionVector

module _ (loro : Loro) where
  open loro use {
    LoroDoc, VersionVector, new, import, export_snapshot, oplog_vv, decode_import_blob_meta,
    vv_entries, vv_get,
  }

  -- Some history is stored, and the delta starts a history of its own.
  push_disjoint_from : VersionVector → Bytes → Result Bool
  push_disjoint_from stored_vv delta = do
    meta ← or_fail (decode_import_blob_meta delta) (not_synced loro_decode_client_delta)
    ok (not (vv_is_empty loro stored_vv) && ltb 0 meta.change_num && meta.start_frontiers_is_empty)

  unfoldable pub push_disjoint : Option (Bytes × Bytes) → Bytes → Result Bool
  unfolding push_disjoint_from
  push_disjoint none delta = ok false
  push_disjoint (some (_, existing_vv_blob)) delta = elim (vv_from_db_bytes loro existing_vv_blob) [
    | ok stored_vv ↦ push_disjoint_from stored_vv delta
    | err e ↦ ok true
  ]

  -- `stored_vv.iter().any(|(peer, _)| incoming_vv.get(peer).is_some())`
  shares_peer : List (ℕ × ℤ) → VersionVector → Bool
  shares_peer [] incoming_vv = false
  shares_peer ((peer, _) ∷ rest) incoming_vv =
      is_some (vv_get incoming_vv peer) || shares_peer rest incoming_vv

  create_disjoint_from : VersionVector → Bytes → Result Bool
  unfolding shares_peer
  create_disjoint_from stored_vv snapshot = do
    probe ← or_fail (import new snapshot) (not_synced loro_import_client_snapshot)
    let incoming_vv = oplog_vv probe
    ok (
        not (vv_is_empty loro stored_vv)
        && not (vv_is_empty loro incoming_vv)
        && not (shares_peer (vv_entries stored_vv) incoming_vv))

  unfoldable pub create_disjoint : Option (Bytes × Bytes) → Bytes → Result Bool
  unfolding create_disjoint_from
  create_disjoint none snapshot = ok false
  create_disjoint (some (_, existing_vv_blob)) snapshot =
      elim (vv_from_db_bytes loro existing_vv_blob) [
        | ok stored_vv ↦ create_disjoint_from stored_vv snapshot
        | err e ↦ ok true
      ]

  load_existing : Option (Bytes × Bytes) → Result LoroDoc
  load_existing none = ok new
  load_existing (some (snapshot_blob, _)) =
      or_fail (import new snapshot_blob) (not_synced loro_import_existing)

  -- Import what is stored, import the client's bytes, export a snapshot.
  unfoldable pub merge : Option (Bytes × Bytes) → Bytes → Errors.SyncFault → Result (Merged loro)
  unfolding load_existing
  merge existing incoming fault = do
    doc ← load_existing existing
    doc ← or_fail (import doc incoming) (not_synced fault)
    new_snapshot ← or_fail (export_snapshot doc) (not_synced loro_export_snapshot)
    ok (new_snapshot, oplog_vv doc)

  -- `none` is a refusal for a disjoint history.
  unfoldable pub push_merge : Option (Bytes × Bytes) → Bytes → Result (Option (Merged loro))
  unfolding push_disjoint merge
  push_merge existing delta = do
    disjoint ← push_disjoint existing delta
    if disjoint
        then ok none
        else do merged ← merge existing delta loro_import_client_delta; ok (some merged)

  unfoldable pub create_merge : Option (Bytes × Bytes) → Bytes → Result (Option (Merged loro))
  unfolding create_disjoint merge
  create_merge existing snapshot = do
    disjoint ← create_disjoint existing snapshot
    if disjoint
        then ok none
        else do merged ← merge existing snapshot loro_import_client_snapshot; ok (some merged)
