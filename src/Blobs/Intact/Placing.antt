-- ===== src/Blobs/Intact/Placing.antt =====
-- An upload that is complete becomes a blob: the file first and the row after it.
use vaultcrdt_server.Base.{
  if◌then◌else◌, nat_eq, list_eq, option_eq, pair_eq, length, is_some, Bytes, Text, ◌≡◌, refl, sym,
  ◌∙◌, subst, inl, Bool, true, false, Option, none, some, arith,
}
use vaultcrdt_server.Table.{find, put, remove}
use vaultcrdt_server.Table.Laws.{find-put_self}
use vaultcrdt_server.Db.{Blob}
use vaultcrdt_server.Blobs.Disk.{
  Files, pure, ◌>>◌, ignore, sync, as_it_was, reopen_tmp, remove_tmp, exists_stored, place,
}
use vaultcrdt_server.Blobs.Disk.Triples.{
  Store, Triple, pure-Triple, bind-Triple, weaken-Triple, call-Triple, ignore-Triple,
}
use vaultcrdt_server.Blobs.Uploads.Put.{place_blob}
use vaultcrdt_server.Blobs.Intact.{
  IsIntact, IsBacked, remove_tmp-IsIntact, put_stored-IsIntact, named-IsBacked,
}
use vaultcrdt_server.Blobs.Intact.Discard.{sync-Triple, remove_tmp-Triple}

module _ (blake3 : Bytes → Text) (v id hash : Text) (bytes : Bytes)
    (right : blake3 bytes ≡ hash) where
  abbrev I : Store → Type 0
  I = IsIntact blake3

  -- The upload's file has the content.
  abbrev pub Holds : Store → Type 0
  Holds s = I s × (find id s.files.tmp ≡ some bytes)

  -- The blob's file stands, and if it is new there is no row for it yet.
  abbrev pub Placed : Bool → Store → Type 0
  Placed existed s =
      I s
      × IsBacked blake3 (length bytes) (find (v, hash) s.files.stored)
      × (existed ≡ false → find (v, hash) s.db.blobs ≡ none)

  abbrev Looked : Bool → Store → Type 0
  Looked existed s = Holds s × (is_some (find (v, hash) s.files.stored) ≡ existed)

  Looked-Triple : Triple Holds (exists_stored (v, hash)) Looked I
  unfolding exists_stored
  Looked-Triple =
      call-Triple Holds Looked I as_it_was _ (λ s a files p e. found s a files p (cc e))
        (λ s n p. p.0) (λ s p. p.0)
    where
      found :
          (s : Store) (a : Bool) (files : Files)
          → Holds s
          → ◌≡◌ {A = Bool × Files} (is_some (find (v, hash) s.files.stored), s.files) (a, files)
          → Looked a (record s { files = files })
      found s a files p e =
          let q : Looked (is_some (find (v, hash) s.files.stored)) s = (p, refl) in
          subst (λ x. Looked x.0 (record s { files = x.1 })) e q

  there-Placed :
      (s : Store) (o : Option Bytes)
      → find (v, hash) s.files.stored ≡ o
      → is_some o ≡ true
      → I s
      → Placed true s
  there-Placed s none f e h = absurd (cc e)
  there-Placed s (some there) f e h = (
    h,
    rw f (named-IsBacked blake3 bytes there (h.named (v, hash) there f ∙ sym right)),
    λ x. absurd (cc x),
  )

  no_row :
      (s : Store) (o : Option Blob)
      → find (v, hash) s.db.blobs ≡ o
      → find (v, hash) s.files.stored ≡ none
      → I s
      → find (v, hash) s.db.blobs ≡ none
  no_row s none e f h = e
  no_row s (some b) e f h = absurd (subst (IsBacked blake3 b.size) f (h.backed (v, hash) b e))

  moved-Placed :
      (s : Store)
      → Looked false s
      → Placed false (record s {
        files = record { tmp = remove id s.files.tmp; stored = put (v, hash) bytes s.files.stored };
      })
  moved-Placed s ((h, f), e) =
      let free : find (v, hash) s.files.stored ≡ none = ground arith in
      (
        put_stored-IsIntact blake3
            (record s { files = record s.files { tmp = remove id s.files.tmp } }) (v, hash) bytes
            right free (remove_tmp-IsIntact blake3 s id h),
        rw find-put_self (inl refl),
        λ x. no_row s (find (v, hash) s.db.blobs) refl free h,
      )

  moving :
      (s : Store) (o : Option Bytes) (a : Unit {0}) (files : Files)
      → Looked false s
      → find id s.files.tmp ≡ o
      → elim o as (λ _. Option (Unit {0} × Files)) [
        | none ↦ none
        | some b ↦ some (
          tt,
          record s.files { tmp = remove id s.files.tmp; stored = put (v, hash) b s.files.stored },
        )
      ]
        ≡ some (a, files)
      → Placed false (record s { files = files })
  moving s none a files p f e = absurd (cc e)
  moving s (some b) a files p f e =
      let same : bytes ≡ b = cc (p.0.1, f) in
      subst (λ g. Placed false (record s { files = g })) (cc (e, same)) (moved-Placed s p)

  place-Triple : Triple (Looked false) (place id (v, hash)) (λ _. Placed false) I
  unfolding place
  place-Triple =
      call-Triple (Looked false) (λ _. Placed false) I as_it_was _
        (λ s a files p e. moving s (find id s.files.tmp) a files p refl e) (λ s n p. p.0.0)
        (λ s p. p.0.0)

  reopened :
      (s : Store) (o : Option Bytes) (a : Unit {0}) (files : Files)
      → elim o as (λ _. Option (Unit {0} × Files)) [ none ↦ none | some b ↦ some (tt, s.files) ]
        ≡ some (a, files)
      → s.files ≡ files
  reopened s none a files e = absurd (cc e)
  reopened s (some b) a files e = cc e

  reopen-Triple : Triple (Looked false) (reopen_tmp id) (λ _. Looked false) I
  unfolding reopen_tmp
  reopen-Triple =
      call-Triple (Looked false) (λ _. Looked false) I as_it_was _
        (λ s a files p e.
          subst (λ f. Looked false (record s { files = f }))
            (reopened s (find id s.files.tmp) a files e) p)
        (λ s n p. p.0.0) (λ s p. p.0.0)

  settled-Triple :
      (existed : Bool)
      → Triple
          (Looked existed)
          (if existed
            then (ignore (remove_tmp id) >> pure true)
            else (do reopen_tmp id; sync; place id (v, hash); pure false))
          Placed
          I
  settled-Triple true =
      bind-Triple (Looked true) (λ _. Placed true) Placed I _ _
        (ignore-Triple (Looked true) (Placed true) I _ (
          weaken-Triple (Placed true) (λ _. Placed true) (Placed true) (Looked true) _
            (λ s p. there-Placed s (find (v, hash) s.files.stored) refl p.1 p.0.0)
            (remove_tmp-Triple id (Placed true) (Placed true)
              (λ s p. (remove_tmp-IsIntact blake3 s id p.0, p.1, p.2)) (λ s p. p))))
        (λ _. pure-Triple (Placed true) Placed I true (λ s p. p))
  settled-Triple false =
      bind-Triple (Looked false) (λ _. Looked false) Placed I _ _ reopen-Triple
        λ _.
          bind-Triple (Looked false) (λ _. Looked false) Placed I _ _
            (sync-Triple (Looked false) I (λ s p. p.0.0))
            λ _.
              bind-Triple (Looked false) (λ _. Placed false) Placed I _ _ place-Triple
                λ _. pure-Triple (Placed false) Placed I false (λ s p. p)

  pub place_blob-Triple : Triple Holds (place_blob v id hash) Placed I
  unfolding place_blob
  place_blob-Triple =
      bind-Triple Holds (λ _. Holds) Placed I _ _ (sync-Triple Holds I (λ s p. p.0))
        λ _. bind-Triple Holds Looked Placed I _ _ Looked-Triple settled-Triple
