-- ===== src/Blobs/Intact/Request.antt =====
-- The body of a segment that goes on has the length that its range says.
use vaultcrdt_server.Base.{
  ltb, nat_eq, list_eq, option_eq, pair_eq, ◌==◌, eq_iff, Bool-cases, length, Text, Bytes, ℕ, ◌-◌,
  ◌≤◌, ◌≡◌, refl, sym, inl, inr, Option, none, some, List, [], arith,
}
use vaultcrdt_server.Errors.{Result, ok, err}
use vaultcrdt_server.Blobs.Ranges.{parse_content_range}
use vaultcrdt_server.Blobs.Uploads.{UploadReply, stored, saturating_add, segment_bytes}
use vaultcrdt_server.Blobs.Uploads.Body.{
  Segment, Request, refused, segment, map_result, buffer, sized, with_range, read_request,
}

-- The hash that an answer says is stored.
abbrev pub said_stored : UploadReply → Option Text
said_stored (stored hash) = some hash
said_stored _ = none

-- The body has as many bytes as its range says.
abbrev pub IsSegment : Segment → Type 0
IsSegment s = (s.start ≤ s.last) × (length s.bytes ≡ saturating_add (s.last - s.start) 1)

abbrev pub Fits : Request → Type 0
Fits (refused reply) = said_stored reply ≡ none
Fits (segment s) = IsSegment s

abbrev pub FitsAny : Result Request → Type 0
FitsAny (ok r) = Fits r
FitsAny (err e) = Unit

sized-Fits : (a b size : ℕ) (body : Option Bytes) → a ≤ b → Fits (sized a b size body)
unfolding sized
sized-Fits a b size none h = refl
sized-Fits a b size (some buf) h = elim (Bool-cases (ltb segment_bytes (length buf))) [
  | inl e ↦ rw e refl
  | inr e ↦ elim (Bool-cases (saturating_add (b - a) 1 == length buf)) [
    | inl f ↦ rw e (rw f (h, sym ((eq_iff (saturating_add (b - a) 1) (length buf)).0 f)))
    | inr f ↦ rw e (rw f refl)
  ]
]

pub read_request-Fits :
    (header : Option Text) (chunks : List (Option Bytes)) → FitsAny (read_request header chunks)
unfolding read_request
read_request-Fits none chunks = refl
read_request-Fits (some header) chunks = ranged (parse_content_range header)
  where
    body_read :
        (a b size : ℕ) (r : Result (Option Bytes)) → a ≤ b → FitsAny (map_result (sized a b size) r)
    body_read a b size (ok body) h = sized-Fits a b size body h
    body_read a b size (err e) h = tt

    ranged : (o : Option (ℕ × ℕ × ℕ)) → FitsAny (with_range o chunks)
    ranged none = refl
    ranged (some (a, b, size)) = elim (Bool-cases (ltb b a)) [
      | inl e ↦ rw e refl
      | inr e ↦ rw e (body_read a b size (buffer [] chunks) (ground arith))
    ]
