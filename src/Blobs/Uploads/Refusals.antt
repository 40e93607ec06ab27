-- ===== src/Blobs/Uploads/Refusals.antt =====
-- blobs.rs, `put_upload`: a segment that is a bad request leaves nothing behind.
use vaultcrdt_server.Base.{
  ltb, nat_beq, ◌==◌, nat_eq, list_eq, option_eq, pair_eq, Bytes, Text, ℕ, ◌≡◌, refl, subst, Bool,
  true, false, ◌||◌, Option, none, some, List, Bool-cases, inl, inr,
}
use vaultcrdt_server.Errors.{Result, ok, err}
use vaultcrdt_server.Blobs.Disk.{World, Io, pure, ◌>>=◌}
use vaultcrdt_server.Blobs.Disk.Triples.{
  Store, view, Post, Triple, pure-Triple, raise-Triple, if-Triple, query-Triple, bind-Triple,
  post_of,
}
use vaultcrdt_server.Blobs.Svg.{looks_like_svg}
use vaultcrdt_server.Blobs.Uploads.{
  UploadReply, UploadRow, status_of, upload_not_found, type_cap_exceeded, stored, absolute_max,
  saturating_add, read_upload, accepted,
}
use vaultcrdt_server.Blobs.Uploads.Body.{Request, Segment, refused, segment, read_request}
use vaultcrdt_server.Blobs.Uploads.Put.{
  svg_refused, content_refused, complete, finalize, segment_refused, store_segment, with_row,
  put_segment, put_request, put_upload,
}

-- A bad request, or a segment that does not come next.
unfoldable pub is_refusal : UploadReply → Bool
unfolding status_of
is_refusal reply = nat_beq (status_of reply) 400 || nat_beq (status_of reply) 409

other_reply :
    (given reply : UploadReply)
    → is_refusal given ≡ false
    → ◌≡◌ {A = Option UploadReply} (some given) (some reply)
    → is_refusal reply ≡ false
other_reply given reply h e =
    let same : given ≡ reply = cc e in subst (λ r. is_refusal r ≡ false) same h

any-Triple :
    {A : Type 0} (P : Store → Type 0) (m : Io A) → Triple P m (λ _ _. Unit {0}) (λ _. Unit {0})
any-Triple {A} P m = record { holds = λ w p. either (m w).0 (view (m w).1) }
  where
    either : (r : Result A) (s : Store) → Post (λ _ _. Unit {0}) (λ _. Unit {0}) r s
    either (ok a) s = tt
    either (err e) s = tt

module _ (blake3 : Bytes → Text) (svg_at_fixpoint : Bytes → Option Bool) (s0 : Store) where
  abbrev Same : Store → Type 0
  Same s = s ≡ s0

  abbrev Kept : UploadReply → Store → Type 0
  Kept reply s = is_refusal reply ≡ true → s ≡ s0

  abbrev Any : Store → Type 0
  Any s = Unit {0}

  -- An action that ends with another status.
  other-Triple :
      {A : Type 0} (P : Store → Type 0) (m : Io A) (reply : UploadReply)
      → is_refusal reply ≡ false
      → Triple P (m >>= λ _. pure reply) Kept Any
  other-Triple P m reply other =
      bind-Triple P (λ _. Any) Kept Any m _ (any-Triple P m)
        (λ _. pure-Triple Any Kept Any reply (λ s p e. absurd (cc (e, other))))

  svg_refused_other :
      (o : Option Bool) (reply : UploadReply)
      → svg_refused blake3 svg_at_fixpoint o ≡ some reply
      → is_refusal reply ≡ false
  unfolding svg_refused is_refusal status_of
  svg_refused_other (some true) reply e = absurd (cc e)
  svg_refused_other (some false) reply e = other_reply _ reply refl e
  svg_refused_other none reply e = other_reply _ reply refl e

  content_refused_other :
      (hash : Text) (bytes : Bytes) (reply : UploadReply)
      → content_refused blake3 svg_at_fixpoint hash bytes ≡ some reply
      → is_refusal reply ≡ false
  unfolding content_refused is_refusal status_of
  content_refused_other hash bytes reply = elim (Bool-cases (blake3 bytes == hash)) [
    | inr differ ↦ rw differ (λ e. other_reply _ reply refl e)
    | inl same ↦ elim (Bool-cases (looks_like_svg bytes)) [
      | inl svg ↦ rw (same, svg) (svg_refused_other (svg_at_fixpoint bytes) reply)
      | inr other ↦ rw (same, other) (λ e. absurd (cc e))
    ]
  ]

  complete-Triple :
      (v id : Text) (row : UploadRow) (o : Option UploadReply)
      → ((reply : UploadReply) → o ≡ some reply → is_refusal reply ≡ false)
      → Triple Any (complete blake3 svg_at_fixpoint v id row o) Kept Any
  unfolding complete is_refusal status_of
  complete-Triple v id row (some reply) other = other-Triple Any _ reply (other reply refl)
  complete-Triple v id row none other =
      bind-Triple Any (λ _. Any) Kept Any _ _ (any-Triple Any _)
        λ _.
          bind-Triple Any (λ _. Any) Kept Any _ _ (any-Triple Any _)
            λ _. other-Triple Any _ (stored row.hash_claimed) refl

  finalize-Triple :
      (v id : Text) (row : UploadRow) (next : ℕ)
      → Triple Any (finalize blake3 svg_at_fixpoint v id row next) Kept Any
  unfolding finalize is_refusal status_of
  finalize-Triple v id row next =
      if-Triple Any Kept Any (ltb absolute_max next) _ _
        (λ _. other-Triple Any _ type_cap_exceeded refl)
        (λ _.
          bind-Triple Any (λ _. Any) Kept Any _ _ (any-Triple Any _)
            λ bytes.
              complete-Triple v id row
                (content_refused blake3 svg_at_fixpoint row.hash_claimed bytes)
                (content_refused_other row.hash_claimed bytes))

  store_segment-Triple :
      (v id : Text) (row : UploadRow) (seg : Segment) (o : Option UploadReply)
      → Triple Same (store_segment blake3 svg_at_fixpoint v id row seg o) Kept Any
  unfolding store_segment is_refusal status_of
  store_segment-Triple v id row seg (some reply) = pure-Triple Same Kept Any reply (λ s p e. p)
  store_segment-Triple v id row seg none =
      bind-Triple Same (λ _. Any) Kept Any _ _ (any-Triple Same _)
        λ _.
          if-Triple Any Kept Any (saturating_add seg.last 1 == row.size_claimed) _ _
            (λ _. finalize-Triple v id row (saturating_add seg.last 1))
            (λ _.
              pure-Triple Any Kept Any (accepted (saturating_add seg.last 1))
                (λ s p e. absurd (cc e)))

  with_row-Triple :
      (v id : Text) (o : Option UploadRow) (next : UploadRow → Io UploadReply)
      → ((row : UploadRow) → Triple Same (next row) Kept Any)
      → Triple Same (with_row blake3 svg_at_fixpoint v id o next) Kept Any
  unfolding with_row is_refusal status_of
  with_row-Triple v id none next h = pure-Triple Same Kept Any upload_not_found (λ s p e. p)
  with_row-Triple v id (some row) next h =
      if-Triple Same Kept Any row.expired _ _ (λ _. other-Triple Same _ upload_not_found refl)
        (λ _. h row)

  read_upload-Triple : (v id : Text) → Triple Same (read_upload v id) (λ _. Same) Any
  unfolding read_upload
  read_upload-Triple v id = query-Triple Same (λ _. Same) Any _ (λ t s p. p) (λ s p. tt)

  put_segment-Triple :
      (v id : Text) (seg : Segment)
      → Triple Same (put_segment blake3 svg_at_fixpoint v id seg) Kept Any
  unfolding put_segment
  put_segment-Triple v id seg =
      bind-Triple Same (λ _. Same) Kept Any _ _ (read_upload-Triple v id)
        λ preview. with_row-Triple v id preview _ λ _.
          bind-Triple Same (λ _. Same) Kept Any _ _ (read_upload-Triple v id)
            λ row. with_row-Triple v id row _ λ row.
              store_segment-Triple v id row seg (segment_refused blake3 svg_at_fixpoint row seg)

  put_request-Triple :
      (v id : Text) (r : Result Request)
      → Triple Same (put_request blake3 svg_at_fixpoint v id r) Kept Any
  unfolding put_request
  put_request-Triple v id (err e) = raise-Triple Same Kept Any e (λ s p. tt)
  put_request-Triple v id (ok (refused reply)) = pure-Triple Same Kept Any reply (λ s p e. p)
  put_request-Triple v id (ok (segment seg)) = put_segment-Triple v id seg

-- A `PUT` of a segment that is answered with 400 or with 409 has changed no table and no file, whatever the
-- state was.
pub put_upload_refused :
    (blake3 : Bytes → Text) (svg_at_fixpoint : Bytes → Option Bool) (v id : Text)
    (content_range : Option Text) (chunks : List (Option Bytes)) (w : World) (reply : UploadReply)
    → let r = put_upload blake3 svg_at_fixpoint v id content_range chunks w in
      r.0 ≡ ok reply → is_refusal reply ≡ true → view r.1 ≡ view w
unfolding put_upload
put_upload_refused blake3 svg_at_fixpoint v id content_range chunks w reply e refusal =
    post_of _ _ _ _ w reply
      (put_request-Triple blake3 svg_at_fixpoint (view w) v id (read_request content_range chunks))
      refl e refusal
