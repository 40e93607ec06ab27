-- ===== src/Blobs/Uploads.antt =====
-- blobs.rs: an upload is opened with the hash and the size that it will have, gets its bytes in
-- segments, and is discarded after a day. A request is one action: the lock of a hash is held from
-- the second reading of the row to the end of a `put_upload`.
pub mod Put
pub mod Create
pub mod Body
pub mod Limits
pub mod Admission
pub mod Refusals
use vaultcrdt_server.Base.{
  ltb, leb, if◌then◌else◌, tests, nat_eq, list_eq, option_eq, pair_eq, ◌==◌, is_some, is_none,
  Bytes, Text, ℕ, ◌+◌, ◌-◌, ◌*◌, ◌^◌, min, Bool, true, false, not, ◌&&◌, ◌||◌, Option, none, some,
  List, [], ◌∷◌, arith,
}
use vaultcrdt_server.Base.Int.{ℤ, pos, negsuc}
use vaultcrdt_server.Table.{Table, find, put, remove, count_where, select_where}
use vaultcrdt_server.Errors.{ServerError, Result, ok, err, or_fail}
use vaultcrdt_server.Db.{Db, Vault, Blob, Upload}
use vaultcrdt_server.Sql.{Sql, execute, query, lift, db_failed}
use vaultcrdt_server.Sql
use vaultcrdt_server.Blobs.Disk.{
  World, Io, pure, raise, sql, ◌>>=◌, ◌>>◌, attempt, ignore, sync, create_tmp, remove_tmp,
}
use vaultcrdt_server.Blobs.Names.{is_hash}

abbrev pub segment_bytes : ℕ
segment_bytes = 4 * 1024 * 1024

-- The largest cap of a type, that of audio.
abbrev pub absolute_max : ℕ
absolute_max = 25 * 1024 * 1024

abbrev pub day : ℕ
day = 24 * 3600

-- The answers of the upload handlers, each with its status code and its body.
pub data UploadReply : Type 0 where
  invalid_hash_or_size : UploadReply
  exists : UploadReply
  type_cap_exceeded : UploadReply
  too_many_uploads : UploadReply
  quota_exceeded : (quota_bytes : ℕ) → UploadReply
  created : (upload_id : Text) → UploadReply
  upload_not_found : UploadReply
  progress : (next_offset : ℕ) (hash : Text) (size : ℕ) → UploadReply
  malformed_content_range : UploadReply
  invalid_content_range : UploadReply
  payload_too_large : UploadReply
  length_does_not_match_body : UploadReply
  size_does_not_match_upload : UploadReply
  conflict : (next_offset : ℕ) → UploadReply
  exceeds_claimed_size : UploadReply
  accepted : (next_offset : ℕ) → UploadReply
  hash_mismatch : UploadReply
  svg_not_sanitized : UploadReply
  svg_invalid : UploadReply
  stored : (hash : Text) → UploadReply

pub status_of : UploadReply → ℕ
status_of invalid_hash_or_size = 400
status_of exists = 200
status_of type_cap_exceeded = 413
status_of too_many_uploads = 429
status_of (quota_exceeded quota_bytes) = 413
status_of (created upload_id) = 201
status_of upload_not_found = 404
status_of (progress next_offset hash size) = 200
status_of malformed_content_range = 400
status_of invalid_content_range = 400
status_of payload_too_large = 413
status_of length_does_not_match_body = 400
status_of size_does_not_match_upload = 400
status_of (conflict next_offset) = 409
status_of exceeds_claimed_size = 400
status_of (accepted next_offset) = 202
status_of hash_mismatch = 422
status_of svg_not_sanitized = 422
status_of svg_invalid = 422
status_of (stored hash) = 201

-- `created_at < datetime('now', '-24 hours')`
abbrev pub is_expired : ℕ → Upload → Bool
is_expired now u = ltb (u.created_at + day) now

pub record UploadRow : Type 0 where
  pub hash_claimed : Text
  pub size_claimed : ℕ
  pub received_bytes : ℕ
  pub expired : Bool

abbrev pub row_of : ℕ → Upload → UploadRow
row_of now u = record {
  hash_claimed = u.hash_claimed;
  size_claimed = u.size_claimed;
  received_bytes = u.received_bytes;
  expired = is_expired now u;
}

abbrev pub in_vault : Text → Option Upload → Option Upload
in_vault vault_id none = none
in_vault vault_id (some u) = if u.vault_id == vault_id then some u else none

abbrev pub upload_of : Text → Text → Db → Option Upload
upload_of vault_id upload_id d = in_vault vault_id (find upload_id d.uploads)

abbrev pub row_seen : ℕ → Option Upload → Option UploadRow
row_seen now none = none
row_seen now (some u) = some (row_of now u)

unfoldable pub read_upload : Text → Text → Io (Option UploadRow)
read_upload vault_id upload_id =
    sql (query (λ now d. row_seen now (upload_of vault_id upload_id d)))

-- DELETE … WHERE upload_id = ? AND vault_id = ?
abbrev pub without_upload : Text → Text → Db → Db
without_upload vault_id upload_id d =
    if is_some (upload_of vault_id upload_id d)
    then record d { uploads = remove upload_id d.uploads }
    else d

unfoldable pub delete_upload : Text → Text → Io (Unit {0})
delete_upload vault_id upload_id = sql (execute (λ _ d. (tt, without_upload vault_id upload_id d)))

unfoldable pub discard_upload : Text → Text → Io (Unit {0})
unfolding delete_upload
discard_upload vault_id upload_id = do
  ignore (delete_upload vault_id upload_id)
  ignore (remove_tmp upload_id)

abbrev expired_ids : ℕ → Db → List (Text × Text)
expired_ids now d = select_where (λ id u. is_expired now u) (λ id u. (u.vault_id, id)) d.uploads

-- Each is tried, and then looked for again, which is only to log it.
unfoldable pub discard_all : List (Text × Text) → ℕ → Io ℕ
unfolding discard_upload
discard_all [] attempted = pure attempted
discard_all ((vault_id, upload_id) ∷ rest) attempted = do
  discard_upload vault_id upload_id
  _ ← sql (query (λ _ d. is_some (upload_of vault_id upload_id d)))
  discard_all rest (attempted + 1)

unfoldable pub sweep_expired_uploads : Io ℕ
unfolding discard_all
sweep_expired_uploads = do expired ← sql (query expired_ids); discard_all expired 0

unfoldable pub get_upload : Text → Text → Io UploadReply
unfolding read_upload discard_upload
get_upload vault_id upload_id = do
  row ← read_upload vault_id upload_id
  elim row [
    | none ↦ pure upload_not_found
    | some row ↦
        if row.expired
        then (discard_upload vault_id upload_id >> pure upload_not_found)
        else pure (progress row.received_bytes row.hash_claimed row.size_claimed)
  ]

abbrev pub saturating_add : ℕ → ℕ → ℕ
saturating_add a b = min (a + b) (2 ^ 64 - 1)
