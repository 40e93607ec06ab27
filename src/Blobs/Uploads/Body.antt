-- ===== src/Blobs/Uploads/Body.antt =====
-- blobs.rs, `put_upload`: what the header and the body of a segment are, before any row is read.
use vaultcrdt_server.Base.{
  ltb, if◌then◌else◌, nat_eq, list_eq, option_eq, pair_eq, ◌==◌, length, Bytes, Text, ℕ, ◌+◌, ◌-◌,
  ◌*◌, not, Option, none, some, List, [], ◌∷◌, ◌++◌,
}
use vaultcrdt_server.Errors.{ServerError, Result, ok, err}
use vaultcrdt_server.Blobs.Uploads.{
  UploadReply, malformed_content_range, invalid_content_range, payload_too_large,
  length_does_not_match_body, segment_bytes, saturating_add,
}
use vaultcrdt_server.Blobs.Ranges.{parse_content_range}

abbrev pub segment_body_guard : ℕ
segment_body_guard = segment_bytes + 4 * 1024

-- The stream of the body, where `none` is an error of the transport. No body is over the guard.
unfoldable pub buffer : Bytes → List (Option Bytes) → Result (Option Bytes)
buffer buf [] = ok (some buf)
buffer buf (none ∷ chunks) = err ServerError.io
buffer buf (some chunk ∷ chunks) =
    let rest = buffer (buf ++ chunk) chunks in
    if ltb segment_body_guard (length buf + length chunk) then ok none else rest

-- The range `start`–`last` of `size` bytes, with its bytes.
pub record Segment : Type 0 where
  pub start : ℕ
  pub last : ℕ
  pub size : ℕ
  pub bytes : Bytes

-- An answer, or a segment that goes on.
pub data Request : Type 0 where
  refused : UploadReply → Request
  segment : Segment → Request

unfoldable pub sized : ℕ → ℕ → ℕ → Option Bytes → Request
sized a b size none = refused payload_too_large
sized a b size (some buf) =
    if ltb segment_bytes (length buf)
    then refused payload_too_large
    else if not (saturating_add (b - a) 1 == length buf)
    then refused length_does_not_match_body
    else segment (record { start = a; last = b; size = size; bytes = buf })

abbrev pub map_result : (Option Bytes → Request) → Result (Option Bytes) → Result Request
map_result f (ok body) = ok (f body)
map_result f (err e) = err e

unfoldable pub with_range : Option (ℕ × ℕ × ℕ) → List (Option Bytes) → Result Request
unfolding buffer sized
with_range none chunks = ok (refused malformed_content_range)
with_range (some (a, b, size)) chunks =
    if ltb b a
    then ok (refused invalid_content_range)
    else map_result (sized a b size) (buffer [] chunks)

unfoldable pub read_request : Option Text → List (Option Bytes) → Result Request
unfolding with_range
read_request none chunks = ok (refused malformed_content_range)
read_request (some header) chunks = with_range (parse_content_range header) chunks
