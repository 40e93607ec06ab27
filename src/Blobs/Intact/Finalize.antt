-- ===== src/Blobs/Intact/Finalize.antt =====
-- The end of an upload: the hash is checked, and then the blob is stored or the upload given up.
use vaultcrdt_server.Base.{
  ltb, nat_eq, list_eq, option_eq, pair_eq, ◌==◌, eq_iff, Bool-cases, length, is_some, Bytes, Text,
  ℕ, ◌≡◌, refl, subst, inl, inr, Bool, true, false, Option, none, some, arith,
}
use vaultcrdt_server.Table.{find}
use vaultcrdt_server.Blobs.Disk.{Files, pure, ◌>>=◌, ◌>>◌, as_it_was, or_empty, read_tmp, read_from}
use vaultcrdt_server.Blobs.Disk.Triples.{
  Store, Triple, pure-Triple, bind-Triple, if-Triple, weaken-Triple, call-Triple, knowing-Triple,
}
use vaultcrdt_server.Blobs.Uploads.{
  UploadReply, UploadRow, stored, type_cap_exceeded, absolute_max, delete_upload, hash_mismatch,
  svg_not_sanitized, svg_invalid,
}
use vaultcrdt_server.Blobs.Svg.{looks_like_svg}
use vaultcrdt_server.Blobs.Uploads.Put.{
  content_refused, complete, finalize, svg_refused, place_blob, register_blob,
}
use vaultcrdt_server.Blobs.Intact.{IsIntact}
use vaultcrdt_server.Blobs.Intact.Discard.{forget-Triple, discard_with-Triple}
use vaultcrdt_server.Blobs.Intact.Placing.{place_blob-Triple, Placed}
use vaultcrdt_server.Blobs.Intact.Registering.{Registered, register_blob-Triple}
use vaultcrdt_server.Blobs.Intact.Request.{said_stored}

module _ (blake3 : Bytes → Text) (svg_at_fixpoint : Bytes → Option Bool) (v id : Text) where
  abbrev I : Store → Type 0
  I = IsIntact blake3

  -- What is said to be stored has its row.
  abbrev pub Answered : UploadReply → Store → Type 0
  Answered reply s =
      I s
      × ((hash : Text) → said_stored reply ≡ some hash → is_some (find (v, hash) s.db.blobs) ≡ true)

  -- Any other answer.
  pub plain-Answered :
      (reply : UploadReply) → said_stored reply ≡ none → (s : Store) → I s → Answered reply s
  plain-Answered reply e s h = (h, λ hash f. cc (e, f))

  content_refused_lem :
      (hash : Text) (bytes : Bytes)
      → content_refused blake3 svg_at_fixpoint hash bytes ≡ none
      → blake3 bytes ≡ hash
  unfolding content_refused
  content_refused_lem hash bytes e = elim (Bool-cases (blake3 bytes == hash)) [
    | inl same ↦ (eq_iff (blake3 bytes) hash).0 same
    | inr other ↦ ground arith
  ]

  content_refused-said :
      (hash : Text) (bytes : Bytes) (reply : UploadReply)
      → content_refused blake3 svg_at_fixpoint hash bytes ≡ some reply
      → said_stored reply ≡ none
  unfolding content_refused
  content_refused-said hash bytes reply e = elim (Bool-cases (blake3 bytes == hash)) [
    | inl same ↦ elim (Bool-cases (looks_like_svg bytes)) [
      | inl svg ↦ svg_said (svg_at_fixpoint bytes) (ground arith)
      | inr other ↦ ground arith
    ]
    | inr other ↦
        let same : hash_mismatch ≡ reply = ground arith in
        subst (λ r. said_stored r ≡ none) same refl
  ]
    where
      svg_said :
          (o : Option Bool)
          → svg_refused blake3 svg_at_fixpoint o ≡ some reply
          → said_stored reply ≡ none
      svg_said (some true) f = absurd (cc f)
      svg_said (some false) f =
          let same : svg_not_sanitized ≡ reply = cc f in subst (λ r. said_stored r ≡ none) same refl
      svg_said none f =
          let same : svg_invalid ≡ reply = cc f in subst (λ r. said_stored r ≡ none) same refl

  module _ (row : UploadRow) where
    -- The upload's file as long as was claimed.
    abbrev pub Whole : Store → Type 0
    Whole s = I s × (length (or_empty (find id s.files.tmp)) ≡ row.size_claimed)

    abbrev Read : Bytes → Store → Type 0
    Read bytes s = I s × (find id s.files.tmp ≡ some bytes) × (length bytes ≡ row.size_claimed)

    registered-Triple :
        (bytes : Bytes)
        → blake3 bytes ≡ row.hash_claimed
        → (size : ℕ) → length bytes ≡ size
        → Triple
            (λ s. I s × (find id s.files.tmp ≡ some bytes))
            (do
              dest_existed ← place_blob v id row.hash_claimed
              register_blob v id row.hash_claimed size dest_existed
              delete_upload v id
              pure (stored row.hash_claimed))
            Answered
            I
    registered-Triple bytes right size e =
        let hash = row.hash_claimed in
        subst
          (λ n.
            Triple (λ s. I s × (find id s.files.tmp ≡ some bytes))
              (do
                dest_existed ← place_blob v id hash
                register_blob v id hash n dest_existed
                delete_upload v id
                pure (stored hash))
              Answered I)
          e
          (bind-Triple _ (Placed blake3 v id hash bytes right) Answered I _ _
            (place_blob-Triple blake3 v id hash bytes right)
            λ existed.
              bind-Triple _ (λ _. Registered blake3 v id hash bytes right) Answered I _ _
                (register_blob-Triple blake3 v id hash bytes right existed)
                λ _.
                  bind-Triple _ (λ _. Registered blake3 v id hash bytes right) Answered I _ _
                    (forget-Triple blake3 v id (λ blobs. is_some (find (v, hash) blobs) ≡ true))
                    λ _. pure-Triple _ Answered I (stored hash) (λ s p. (
                      p.0,
                      λ h f. subst (λ x. is_some (find (v, x) s.db.blobs) ≡ true) (cc f) p.1,
                    )))

    complete-Triple :
        (bytes : Bytes) (o : Option UploadReply)
        → content_refused blake3 svg_at_fixpoint row.hash_claimed bytes ≡ o
        → Triple (Read bytes) (complete blake3 svg_at_fixpoint v id row o) Answered I
    unfolding complete
    complete-Triple bytes (some reply) e =
        weaken-Triple I Answered I (Read bytes) _ (λ s p. p.0)
          (discard_with-Triple blake3 v id I reply Answered
            (plain-Answered reply (content_refused-said row.hash_claimed bytes reply e)))
    complete-Triple bytes none e =
        knowing-Triple (Read bytes) Answered I _ (λ s p. p.2)
          λ whole.
            weaken-Triple _ Answered I (Read bytes) _ (λ s p. (p.0, p.1))
              (registered-Triple bytes (content_refused_lem row.hash_claimed bytes e)
                row.size_claimed whole)

    Read-Whole :
        (s : Store) (o : Option Bytes) (bytes : Bytes) (files : Files)
        → find id s.files.tmp ≡ o
        → Whole s
        → read_from o s.files ≡ some (bytes, files)
        → Read bytes (record s { files = files })
    Read-Whole s none bytes files f h e = absurd (cc e)
    Read-Whole s (some b) bytes files f h e =
        let same : ◌≡◌ {A = Bytes × Files} (b, s.files) (bytes, files) = cc e in
        let here : Read b s = (h.0, f, subst (λ o. length (or_empty o) ≡ row.size_claimed) f h.1) in
        subst (λ x. Read x.0 (record s { files = x.1 })) same here

    read_tmp-Triple : Triple Whole (read_tmp id) Read I
    unfolding read_tmp
    read_tmp-Triple =
        call-Triple Whole Read I as_it_was _
          (λ s bytes files p e. Read-Whole s (find id s.files.tmp) bytes files refl p e)
          (λ s n p. p.0) (λ s p. p.0)

    pub finalize-Triple :
        (next : ℕ) → Triple Whole (finalize blake3 svg_at_fixpoint v id row next) Answered I
    unfolding finalize
    finalize-Triple next =
        if-Triple Whole Answered I (ltb absolute_max next) _ _
          (λ _.
            weaken-Triple I Answered I Whole _ (λ s p. p.0)
              (discard_with-Triple blake3 v id I type_cap_exceeded Answered
                (plain-Answered type_cap_exceeded refl)))
          (λ _.
            bind-Triple Whole Read Answered I _ _ read_tmp-Triple
              (λ bytes. complete-Triple bytes _ refl))
