-- ===== src/Blobs/Uploads/Put.antt =====
-- blobs.rs, `put_upload`: one segment is written behind what has come so far, and the last one turns
-- the upload into a blob if it has the hash that was claimed.
use vaultcrdt_server.Base.{
  ltb, if◌then◌else◌, nat_eq, list_eq, option_eq, pair_eq, ◌==◌, is_none, is_some, Bytes, Text, ℕ,
  Bool, true, false, not, ◌&&◌, Option, none, some, List,
}
use vaultcrdt_server.Table.{find, put}
use vaultcrdt_server.Errors.{ServerError, Result, ok, err}
use vaultcrdt_server.Db.{Db, Upload}
use vaultcrdt_server.Sql.{execute, query}
use vaultcrdt_server.Blobs.Disk.{
  Io, pure, raise, sql, ◌>>=◌, ◌>>◌, attempt, ignore, sync, open_tmp, write_tmp, read_tmp,
  reopen_tmp, remove_tmp, exists_stored, remove_stored, place,
}
use vaultcrdt_server.Blobs.Svg.{looks_like_svg}
use vaultcrdt_server.Blobs.Uploads.{
  UploadReply, UploadRow, upload_not_found, size_does_not_match_upload, conflict,
  exceeds_claimed_size, accepted, type_cap_exceeded, hash_mismatch, svg_not_sanitized, svg_invalid,
  stored, absolute_max, saturating_add, upload_of, read_upload, delete_upload, discard_upload,
}
use vaultcrdt_server.Blobs.Uploads.Body.{Segment, Request, refused, segment, read_request}

abbrev received : Text → Upload → ℕ → ℕ → Db → Db
received upload_id u next t d = record d {
  uploads = put upload_id (record u { received_bytes = next; updated_at = t }) d.uploads;
}

abbrev advanced : Text → Option Upload → ℕ → ℕ → Db → Db
advanced upload_id none next t d = d
advanced upload_id (some u) next t d = received upload_id u next t d

-- UPDATE … WHERE upload_id = ? AND vault_id = ?
abbrev pub advance_upload : Text → Text → ℕ → ℕ → Db → Db
advance_upload vault_id upload_id next t d =
    advanced upload_id (upload_of vault_id upload_id d) next t d

unfoldable pub write_segment : Text → Text → UploadRow → Bytes → ℕ → Io (Unit {0})
write_segment vault_id upload_id row buf next = do
  open_tmp upload_id
  sync
  write_tmp upload_id row.received_bytes buf
  sync
  sql (execute (λ t d. (tt, advance_upload vault_id upload_id next t d)))

-- Whether a blob's file was there before. It is never overwritten.
unfoldable pub place_blob : Text → Text → Text → Io Bool
place_blob vault_id upload_id hash = do
  sync
  dest_existed ← exists_stored (vault_id, hash)
  if dest_existed
      then (ignore (remove_tmp upload_id) >> pure true)
      else do reopen_tmp upload_id; sync; place upload_id (vault_id, hash); pure false

-- INSERT OR IGNORE: the number of new rows.
abbrev pub blob_inserted : Text → Text → ℕ → ℕ → Db → ℕ × Db
blob_inserted vault_id hash size t d =
    if is_none (find (vault_id, hash) d.blobs)
    then (
      1,
      record d { blobs = put (vault_id, hash) (record { size = size; created_at = t }) d.blobs },
    )
    else (0, d)

unfoldable pub give_up : Text → Text → Text → Bool → ServerError → Io (Unit {0})
give_up vault_id upload_id hash dest_existed e = do
  if dest_existed then pure tt else ignore (remove_stored (vault_id, hash))
  discard_upload vault_id upload_id
  raise e

unfoldable pub check_inserted : Text → Text → Text → Bool → Result ℕ → Io (Unit {0})
unfolding give_up
check_inserted vault_id upload_id hash dest_existed (err e) =
    give_up vault_id upload_id hash dest_existed e
check_inserted vault_id upload_id hash dest_existed (ok rows) =
    if rows == 0 && not dest_existed
    then (do
      has_row ← sql (query (λ _ d. is_some (find (vault_id, hash) d.blobs)))
      if has_row then pure tt else give_up vault_id upload_id hash dest_existed ServerError.io)
    else pure tt

unfoldable pub register_blob : Text → Text → Text → ℕ → Bool → Io (Unit {0})
unfolding check_inserted
register_blob vault_id upload_id hash size dest_existed = do
  rows ← attempt (sql (execute (blob_inserted vault_id hash size)))
  check_inserted vault_id upload_id hash dest_existed rows

module _ (blake3 : Bytes → Text) (svg_at_fixpoint : Bytes → Option Bool) where
  unfoldable pub svg_refused : Option Bool → Option UploadReply
  svg_refused (some true) = none
  svg_refused (some false) = some svg_not_sanitized
  svg_refused none = some svg_invalid

  unfoldable pub content_refused : Text → Bytes → Option UploadReply
  unfolding svg_refused
  content_refused hash bytes =
      if not (blake3 bytes == hash)
      then some hash_mismatch
      else if looks_like_svg bytes
      then svg_refused (svg_at_fixpoint bytes)
      else none

  unfoldable pub complete : Text → Text → UploadRow → Option UploadReply → Io UploadReply
  unfolding place_blob register_blob
  complete vault_id upload_id row (some reply) = discard_upload vault_id upload_id >> pure reply
  complete vault_id upload_id row none = do
    dest_existed ← place_blob vault_id upload_id row.hash_claimed
    register_blob vault_id upload_id row.hash_claimed row.size_claimed dest_existed
    delete_upload vault_id upload_id
    pure (stored row.hash_claimed)

  unfoldable pub finalize : Text → Text → UploadRow → ℕ → Io UploadReply
  unfolding content_refused complete
  finalize vault_id upload_id row next =
      if ltb absolute_max next
      then (discard_upload vault_id upload_id >> pure type_cap_exceeded)
      else (do
        bytes ← read_tmp upload_id
        complete vault_id upload_id row (content_refused row.hash_claimed bytes))

  -- The checks of a segment against its row: `none` lets it be written.
  unfoldable pub segment_refused : UploadRow → Segment → Option UploadReply
  segment_refused row s =
      if not (s.size == row.size_claimed)
      then some size_does_not_match_upload
      else if not (s.start == row.received_bytes)
      then some (conflict row.received_bytes)
      else if ltb row.size_claimed (saturating_add s.last 1)
      then some exceeds_claimed_size
      else none

  unfoldable pub store_segment :
      Text → Text → UploadRow → Segment → Option UploadReply → Io UploadReply
  unfolding write_segment finalize
  store_segment vault_id upload_id row s (some reply) = pure reply
  store_segment vault_id upload_id row s none =
      let next = saturating_add s.last 1 in
      (do
        write_segment vault_id upload_id row s.bytes next
        if next == row.size_claimed
            then finalize vault_id upload_id row next
            else pure (accepted next))

  -- The row as it is read, first to know its lock and then under it.
  unfoldable pub with_row :
      Text → Text → Option UploadRow → (UploadRow → Io UploadReply) → Io UploadReply
  with_row vault_id upload_id none next = pure upload_not_found
  with_row vault_id upload_id (some row) next =
      if row.expired then (discard_upload vault_id upload_id >> pure upload_not_found) else next row

  unfoldable pub put_segment : Text → Text → Segment → Io UploadReply
  unfolding with_row segment_refused store_segment
  put_segment vault_id upload_id s = do
    preview ← read_upload vault_id upload_id
    with_row vault_id upload_id preview λ preview. (do
      row ← read_upload vault_id upload_id
      with_row vault_id upload_id row
          λ row. store_segment vault_id upload_id row s (segment_refused row s))

  unfoldable pub put_request : Text → Text → Result Request → Io UploadReply
  unfolding put_segment
  put_request vault_id upload_id (err e) = raise e
  put_request vault_id upload_id (ok (refused reply)) = pure reply
  put_request vault_id upload_id (ok (segment s)) = put_segment vault_id upload_id s

  unfoldable pub put_upload : Text → Text → Option Text → List (Option Bytes) → Io UploadReply
  unfolding put_request
  put_upload vault_id upload_id content_range chunks =
      put_request vault_id upload_id (read_request content_range chunks)
