-- ===== src/Blobs/Intact/Put.antt =====
-- `put_upload` leaves everything intact, and says that a blob is stored only if it is.
use vaultcrdt_server.Base.{
  if◌then◌else◌, ltb, nat_eq, list_eq, option_eq, pair_eq, ◌==◌, eq_iff, Bool-cases, length, Bytes,
  Text, ℕ, ◌+◌, ◌≤◌, ◌≡◌, refl, sym, subst, inl, inr, Bool, Option, none, some, List, arith,
}
use vaultcrdt_server.Table.{find}
use vaultcrdt_server.Errors.{Result, ok, err}
use vaultcrdt_server.Blobs.Disk.{Io, pure, ◌>>◌, or_empty}
use vaultcrdt_server.Blobs.Disk.Triples.{
  Store, Triple, pure-Triple, raise-Triple, bind-Triple, if-Triple, weaken-Triple, knowing-Triple,
}
use vaultcrdt_server.Blobs.Uploads.{
  UploadReply, UploadRow, upload_not_found, accepted, absolute_max, saturating_add,
}
use vaultcrdt_server.Blobs.Uploads.Body.{Segment, Request, refused, segment, read_request}
use vaultcrdt_server.Blobs.Uploads.Put.{
  finalize, segment_refused, store_segment, with_row, put_segment, put_request, put_upload,
  write_segment,
}
use vaultcrdt_server.Blobs.Intact.{IsIntact}
use vaultcrdt_server.Blobs.Intact.Discard.{Has, Seen, read_upload-Triple, discard_with-Triple}
use vaultcrdt_server.Blobs.Intact.Writing.{Grown, write_segment-Triple}
use vaultcrdt_server.Blobs.Intact.Request.{said_stored, IsSegment, FitsAny, read_request-Fits}
use vaultcrdt_server.Blobs.Intact.Finalize.{Answered, plain-Answered, Whole, finalize-Triple}

module _ (blake3 : Bytes → Text) (svg_at_fixpoint : Bytes → Option Bool) (v id : Text) where
  abbrev I : Store → Type 0
  I = IsIntact blake3

  abbrev Good : UploadReply → Store → Type 0
  Good = Answered blake3 svg_at_fixpoint v id

  plain : (reply : UploadReply) → said_stored reply ≡ none → (s : Store) → I s → Good reply s
  plain reply e s h = plain-Answered blake3 svg_at_fixpoint v id reply e s h

  module _ (row : UploadRow) where
    -- What the checks of a segment leave to be known.
    segment_refused-none :
        (s : Segment)
        → segment_refused blake3 svg_at_fixpoint row s ≡ none
        → IsSegment s
        → row.size_claimed ≤ absolute_max
        → (saturating_add s.last 1 ≡ row.received_bytes + length s.bytes)
          × (saturating_add s.last 1 ≤ row.size_claimed)
    unfolding segment_refused
    segment_refused-none s e g h = elim (Bool-cases (s.size == row.size_claimed)) [
      | inr f ↦ absurd (ground arith)
      | inl f ↦ elim (Bool-cases (s.start == row.received_bytes)) [
        | inr k ↦ absurd (ground arith)
        | inl k ↦ elim (Bool-cases (ltb row.size_claimed (saturating_add s.last 1))) [
          | inl l ↦ absurd (ground arith)
          | inr l ↦ ground (arith, eq_iff s.start row.received_bytes)
        ]
      ]
    ]

    segment_refused-said :
        (s : Segment) (reply : UploadReply)
        → segment_refused blake3 svg_at_fixpoint row s ≡ some reply
        → said_stored reply ≡ none
    unfolding segment_refused
    segment_refused-said s reply e = ground arith

    abbrev Here : Store → Type 0
    Here s = I s × Has blake3 v id row s

    last-Triple :
        (s : Segment) (next : ℕ)
        → next ≤ row.size_claimed
        → Triple
            (λ t.
              I t
              × (next ≤ length (or_empty (find id t.files.tmp)))
              × (length (or_empty (find id t.files.tmp)) ≤ row.size_claimed))
            (if next == row.size_claimed
              then finalize blake3 svg_at_fixpoint v id row next
              else pure (accepted next))
            Good
            I
    last-Triple s next l =
        if-Triple _ Good I (next == row.size_claimed) _ _
          (λ e.
            weaken-Triple (Whole blake3 svg_at_fixpoint v id row) Good I _ _
              (λ t p. (p.0, omega (arith, (eq_iff next row.size_claimed).0 e, p)))
              (finalize-Triple blake3 svg_at_fixpoint v id row next))
          (λ _. pure-Triple _ Good I (accepted next) (λ t p. plain (accepted next) refl t p.0))

    stored-Triple :
        (s : Segment) (o : Option UploadReply)
        → segment_refused blake3 svg_at_fixpoint row s ≡ o
        → IsSegment s
        → Triple Here (store_segment blake3 svg_at_fixpoint v id row s o) Good I
    unfolding store_segment
    stored-Triple s (some reply) e g =
        pure-Triple Here Good I reply (λ t p. plain reply (segment_refused-said s reply e) t p.0)
    stored-Triple s none e g =
        knowing-Triple Here Good I _ (λ t p. segment_refused-none s e g (capped t p))
          λ (same, l).
            let fits = subst (λ n. n ≤ row.size_claimed) same l in
            subst
              (λ n.
                Triple Here
                  (do
                    write_segment v id row s.bytes n
                    if n == row.size_claimed
                        then finalize blake3 svg_at_fixpoint v id row n
                        else pure (accepted n))
                  Good I)
              (sym same)
              (bind-Triple Here (λ _. Grown blake3 v id row s.bytes fits) Good I _ _
                (write_segment-Triple blake3 v id row s.bytes fits)
                (λ _. last-Triple s (row.received_bytes + length s.bytes) fits))
      where
        capped : (t : Store) → Here t → row.size_claimed ≤ absolute_max
        capped t (i, (u, e, w, h, z, r)) = subst (λ n. n ≤ absolute_max) z (i.bounded id u e).1

  with_row-Triple :
      (o : Option UploadRow) (next : UploadRow → Io UploadReply)
      → ((row : UploadRow) → Triple (Seen blake3 v id (some row)) (next row) Good I)
      → Triple (Seen blake3 v id o) (with_row blake3 svg_at_fixpoint v id o next) Good I
  unfolding with_row
  with_row-Triple none next h =
      pure-Triple _ Good I upload_not_found (λ s p. plain upload_not_found refl s p)
  with_row-Triple (some row) next h =
      if-Triple _ Good I row.expired _ _
        (λ _.
          weaken-Triple I Good I _ _ (λ s p. p.0)
            (discard_with-Triple blake3 v id I upload_not_found Good (plain upload_not_found refl)))
        (λ _. h row)

  put_segment-Triple :
      (s : Segment) → IsSegment s → Triple I (put_segment blake3 svg_at_fixpoint v id s) Good I
  unfolding put_segment
  put_segment-Triple s g =
      bind-Triple I (Seen blake3 v id) Good I _ _ (read_upload-Triple blake3 v id) λ preview.
        with_row-Triple preview _ λ _.
          weaken-Triple I Good I _ _ (λ t p. p.0)
            (bind-Triple I (Seen blake3 v id) Good I _ _ (read_upload-Triple blake3 v id)
              λ row. with_row-Triple row _ λ row. stored-Triple row s _ refl g)

  put_request-Triple :
      (r : Result Request) → FitsAny r → Triple I (put_request blake3 svg_at_fixpoint v id r) Good I
  unfolding put_request
  put_request-Triple (err e) h = raise-Triple I Good I e (λ s p. p)
  put_request-Triple (ok (refused reply)) h = pure-Triple I Good I reply (plain reply h)
  put_request-Triple (ok (segment s)) h = put_segment-Triple s h

  pub put_upload-Triple :
      (header : Option Text) (chunks : List (Option Bytes))
      → Triple I (put_upload blake3 svg_at_fixpoint v id header chunks) Good I
  unfolding put_upload
  put_upload-Triple header chunks =
      put_request-Triple (read_request header chunks) (read_request-Fits header chunks)
