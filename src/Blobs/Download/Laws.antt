-- ===== src/Blobs/Download/Laws.antt =====
-- A download serves bytes of a content that has the hash it is asked for.
use vaultcrdt_server.Base.{
  ltb, nat_eq, list_eq, option_eq, pair_eq, ◌==◌, eq_iff, length, take, drop, is_some, Bytes, Text,
  ℕ, ◌+◌, ◌-◌, ◌≤◌, ◌<◌, ◌≡◌, refl, sym, ap, ◌∙◌, subst, not, true, false, Option, none, some, [],
  ◌∷◌, arith,
}
use vaultcrdt_server.Table.{find}
use vaultcrdt_server.Db.{Blob}
use vaultcrdt_server.Blobs.Disk.{Files, as_it_was, look_stored}
use vaultcrdt_server.Blobs.Disk.Triples.{
  Store, Triple, pure-Triple, raise-Triple, bind-Triple, if-Triple, weaken-Triple, query-Triple,
  call-Triple,
}
use vaultcrdt_server.Blobs.Names.{is_hash}
use vaultcrdt_server.Blobs.Ranges.{ByteRange, malformed, unsatisfiable, span}
use vaultcrdt_server.Blobs.Ranges.Laws.{Within, parse_byte_range-Within}
use vaultcrdt_server.Blobs.Intact.{IsIntact, IsBacked}
use vaultcrdt_server.Blobs.Intact.Discard.{sync-Triple}
use vaultcrdt_server.Blobs.Download.{
  Download, blob_not_found, range_not_satisfiable, whole, partial, range_of, read_exact, read_span,
  serve, with_file, with_size, get_blob,
}

take-length : (bytes : Bytes) → take (length bytes) bytes ≡ bytes
take-length [] = refl
take-length (c ∷ bytes) = ap (λ r. c ∷ r) (take-length bytes)

module _ (blake3 : Bytes → Text) (v hash : Text) where
  abbrev I : Store → Type 0
  I = IsIntact blake3

  -- A content of the vault under this hash.
  abbrev pub Content : Store → Type 0
  Content s = (bytes : Bytes) × (find (v, hash) s.files.stored ≡ some bytes) × (blake3 bytes ≡ hash)

  -- The whole content, or the bytes of the range that is named.
  abbrev pub Serves : Download → Store → Type 0
  Serves blob_not_found s = Unit
  Serves (range_not_satisfiable total) s = Unit
  Serves (whole etag body) s = (etag ≡ hash) × (c : Content s) × (body ≡ c.0)
  Serves (partial etag start end total body) s =
      (etag ≡ hash)
      × (start ≤ end)
      × (end < total)
      × (c : Content s) × (length c.0 ≡ total)
      × (body ≡ take (end - start + 1) (drop start c.0))

  abbrev Good : Download → Store → Type 0
  Good r s = I s × Serves r s

  module _ (P : Store → Type 0) (intact : (s : Store) → P s → I s) where
    abbrev Looked : Option Bytes → Store → Type 0
    Looked o s = P s × (o ≡ find (v, hash) s.files.stored)

    look-Triple : Triple P (look_stored (v, hash)) Looked I
    unfolding look_stored
    look-Triple =
        call-Triple P Looked I as_it_was _ (λ s o files h e. looked s o files h (cc e))
          (λ s n h. intact s h) intact
      where
        looked :
            (s : Store) (o : Option Bytes) (files : Files)
            → P s
            → ◌≡◌ {A = Option Bytes × Files} (find (v, hash) s.files.stored, s.files) (o, files)
            → Looked o (record s { files = files })
        looked s o files h e =
            let q : Looked (find (v, hash) s.files.stored) s = (h, refl) in
            subst (λ x. Looked x.0 (record s { files = x.1 })) e q

    -- The bytes of a span of a content.
    abbrev Span : ℕ → ℕ → Bytes → Store → Type 0
    Span start len body s = P s × ((c : Content s) × (body ≡ take len (drop start c.0)))

    exact-Triple :
        (start len : ℕ) (o : Option Bytes)
        → Triple (Looked o) (read_exact start len o) (Span start len) I
    unfolding read_exact
    exact-Triple start len none =
        raise-Triple (Looked none) (Span start len) I _ (λ s p. intact s p.0)
    exact-Triple start len (some bytes) =
        if-Triple (Looked (some bytes)) (Span start len) I (ltb (length (drop start bytes)) len) _ _
          (λ e. raise-Triple _ (Span start len) I _ (λ s p. intact s p.0))
          (λ e. pure-Triple _ (Span start len) I _ (λ s p.
            (p.0, ((bytes, sym p.1, (intact s p.0).named (v, hash) bytes (sym p.1)), refl))))

    read_span-Triple : (start len : ℕ) → Triple P (read_span v hash start len) (Span start len) I
    unfolding read_span
    read_span-Triple start len = bind-Triple P Looked (Span start len) I _ _ look-Triple λ o.
        bind-Triple (Looked o) (λ _. Looked o) (Span start len) I _ _
          (sync-Triple (Looked o) I (λ s p. intact s p.0)) (λ _. exact-Triple start len o)

  -- How long the file is.
  abbrev Sized : ℕ → Store → Type 0
  Sized total s =
      I s × ((bytes : Bytes) → find (v, hash) s.files.stored ≡ some bytes → length bytes ≡ total)

  serve-Triple :
      (total : ℕ) (r : ByteRange)
      → Within total r
      → Triple (Sized total) (serve v hash total r) Good I
  unfolding serve
  serve-Triple total malformed w =
      bind-Triple (Sized total) (Span (Sized total) (λ s p. p.0) 0 total) Good I _ _
        (read_span-Triple (Sized total) (λ s p. p.0) 0 total)
        (λ body.
          pure-Triple _ Good I _ (λ s (p, (c, e)). (p.0, (refl, c, e ∙ all_of c.0 (p.1 c.0 c.1)))))
    where
      all_of : (bytes : Bytes) → length bytes ≡ total → take total bytes ≡ bytes
      all_of bytes e = subst (λ n. take n bytes ≡ bytes) e (take-length bytes)
  serve-Triple total unsatisfiable w = pure-Triple (Sized total) Good I _ (λ s p. (p.0, tt))
  serve-Triple total (span start end) w =
      bind-Triple (Sized total) (Span (Sized total) (λ s p. p.0) start (end - start + 1)) Good I _ _
        (read_span-Triple (Sized total) (λ s p. p.0) start (end - start + 1))
        (λ body.
          pure-Triple _ Good I _ (λ s (p, (c, e)). (p.0, (refl, w.0, w.1, c, p.1 c.0 c.1, e))))

  range_of-Within : (range : Option Text) (total : ℕ) → Within total (range_of range total)
  range_of-Within none total = tt
  range_of-Within (some header) total = parse_byte_range-Within header total

  with_file-Triple :
      (range : Option Text) (total : ℕ) (o : Option Bytes)
      → Triple (Looked I (λ s h. h) o) (with_file v hash range total o) Good I
  unfolding with_file
  with_file-Triple range total none = pure-Triple _ Good I blob_not_found (λ s p. (p.0, tt))
  with_file-Triple range total (some bytes) =
      if-Triple _ Good I (not (length bytes == total)) _ _
        (λ e. pure-Triple _ Good I blob_not_found (λ s p. (p.0, tt)))
        (λ e.
          weaken-Triple (Sized total) Good I _ _
            (λ s p. (p.0, λ b f. same_size bytes b (p.1 ∙ f) e))
            (serve-Triple total _ (range_of-Within range total)))
    where
      same_size :
          (a b : Bytes) → some a ≡ some b → not (length a == total) ≡ false → length b ≡ total
      same_size a b f e =
          let same : a ≡ b = cc f in
          subst (λ x. length x ≡ total) same ((eq_iff (length a) total).0 (ground arith))

  with_size-Triple :
      (range : Option Text) (o : Option ℕ) → Triple I (with_size v hash range o) Good I
  unfolding with_size
  with_size-Triple range none = pure-Triple I Good I blob_not_found (λ s h. (h, tt))
  with_size-Triple range (some total) =
      bind-Triple I (Looked I (λ s h. h)) Good I _ _ (look-Triple I (λ s h. h))
        (with_file-Triple range total)

  pub get_blob-Triple : (range : Option Text) → Triple I (get_blob v hash range) Good I
  unfolding get_blob
  get_blob-Triple range =
      if-Triple I Good I (not (is_hash hash)) _ _
        (λ e. pure-Triple I Good I blob_not_found (λ s h. (h, tt)))
        (λ e.
          bind-Triple I (λ _. I) Good I _ _ (query-Triple I (λ _. I) I _ (λ t s h. h) (λ s h. h))
            (with_size-Triple range))

  -- A blob that has a row has its content.
  pub row-Content : (s : Store) → I s → is_some (find (v, hash) s.db.blobs) ≡ true → Content s
  row-Content s i e = from_row (find (v, hash) s.db.blobs) refl e
    where
      from_file :
          (n : ℕ) (f : Option Bytes)
          → find (v, hash) s.files.stored ≡ f
          → IsBacked blake3 n f
          → Content s
      from_file n none e back = absurd back
      from_file n (some bytes) e back = (bytes, e, i.named (v, hash) bytes e)

      from_row : (o : Option Blob) → find (v, hash) s.db.blobs ≡ o → is_some o ≡ true → Content s
      from_row none f e = absurd (cc e)
      from_row (some b) f e =
          from_file b.size (find (v, hash) s.files.stored) refl (i.backed (v, hash) b f)
