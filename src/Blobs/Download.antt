-- ===== src/Blobs/Download.antt =====
-- blobs.rs, `get_blob`: a blob or a range of it. The file is opened by the hash, after its row has
-- said how long it is.
pub mod Laws
use vaultcrdt_server.Base.{
  ltb, if◌then◌else◌, tests, nat_eq, list_eq, option_eq, pair_eq, ◌==◌, length, take, drop, Bytes,
  Text, ℕ, ◌+◌, ◌-◌, not, Bool, true, false, Option, none, some, List, [], ◌∷◌, arith,
}
use vaultcrdt_server.Table.{find}
use vaultcrdt_server.Errors.{ServerError}
use vaultcrdt_server.Db.{Db, Blob}
use vaultcrdt_server.Sql.{query}
use vaultcrdt_server.Blobs.Disk.{World, Io, pure, raise, sql, ◌>>=◌, ◌>>◌, sync, look_stored}
use vaultcrdt_server.Blobs.Names.{is_hash}
use vaultcrdt_server.Blobs.Ranges.{ByteRange, malformed, unsatisfiable, span, parse_byte_range}

-- The answers; the headers that they have in common are left out.
pub data Download : Type 0 where
  blob_not_found : Download
  range_not_satisfiable : (total : ℕ) → Download
  -- 200, the whole blob
  whole : (etag : Text) (body : Bytes) → Download
  -- 206, the bytes from `start` to `end` of `total`
  partial : (etag : Text) (start end total : ℕ) (body : Bytes) → Download

pub status_of : Download → ℕ
status_of blob_not_found = 404
status_of (range_not_satisfiable total) = 416
status_of (whole etag body) = 200
status_of (partial etag start end total body) = 206

abbrev pub size_of : Option Blob → Option ℕ
size_of none = none
size_of (some b) = some b.size

-- `read_exact` of `len` bytes from `start`, which fails where the file ends before.
unfoldable pub read_exact : ℕ → ℕ → Option Bytes → Io Bytes
read_exact start len none = raise ServerError.io
read_exact start len (some bytes) =
    if ltb (length (drop start bytes)) len
    then raise ServerError.io
    else pure (take len (drop start bytes))

-- Opens, seeks and reads.
unfoldable pub read_span : Text → Text → ℕ → ℕ → Io Bytes
unfolding read_exact
read_span vault_id hash start len = do
  file ← look_stored (vault_id, hash)
  sync
  read_exact start len file

-- What the range header makes of a blob of this size.
unfoldable pub serve : Text → Text → ℕ → ByteRange → Io Download
unfolding read_span
serve vault_id hash total malformed = do
  body ← read_span vault_id hash 0 total
  pure (whole hash body)
serve vault_id hash total unsatisfiable = pure (range_not_satisfiable total)
serve vault_id hash total (span start end) = do
  body ← read_span vault_id hash start (end - start + 1)
  pure (partial hash start end total body)

abbrev pub range_of : Option Text → ℕ → ByteRange
range_of none total = malformed
range_of (some header) total = parse_byte_range header total

unfoldable pub with_file : Text → Text → Option Text → ℕ → Option Bytes → Io Download
unfolding serve
with_file vault_id hash range total none = pure blob_not_found
with_file vault_id hash range total (some bytes) =
    if not (length bytes == total)
    then pure blob_not_found
    else serve vault_id hash total (range_of range total)

unfoldable pub with_size : Text → Text → Option Text → Option ℕ → Io Download
unfolding with_file
with_size vault_id hash range none = pure blob_not_found
with_size vault_id hash range (some total) = do
  file ← look_stored (vault_id, hash)
  with_file vault_id hash range total file

unfoldable pub get_blob : Text → Text → Option Text → Io Download
unfolding with_size
get_blob vault_id hash range = if not (is_hash hash) then pure blob_not_found else (do
  size ← sql (query (λ _ d. size_of (find (vault_id, hash) d.blobs)))
  with_size vault_id hash range size)
