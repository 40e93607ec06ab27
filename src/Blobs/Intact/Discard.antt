-- ===== src/Blobs/Intact/Discard.antt =====
-- Reading an upload, giving one up, and the sweep of old ones leave everything intact.
use vaultcrdt_server.Base.{
  if◌then◌else◌, nat_eq, list_eq, option_eq, pair_eq, ◌==◌, eq_iff, Bool-cases, is_some, Bytes,
  Text, ℕ, ◌+◌, ◌≡◌, refl, sym, subst, inl, inr, Option, none, some, List, [], ◌∷◌,
}
use vaultcrdt_server.Table.{Table, find, remove}
use vaultcrdt_server.Db.{Key, Blob, Upload}
use vaultcrdt_server.Blobs.Disk.{Files, Io, pure, ◌>>◌, sync, as_it_was, remove_tmp}
use vaultcrdt_server.Blobs.Disk.Triples.{
  Store, Triple, pure-Triple, bind-Triple, execute-Triple, query-Triple, call-Triple, total-Triple,
  weaken-Triple, ignore-Triple, if-Triple,
}
use vaultcrdt_server.Blobs.Uploads.{
  UploadRow, UploadReply, upload_not_found, progress, row_seen, in_vault, upload_of, read_upload,
  without_upload, delete_upload, discard_upload, discard_all, sweep_expired_uploads, get_upload,
}
use vaultcrdt_server.Blobs.Intact.{IsIntact, remove_tmp-IsIntact, remove_upload-IsIntact}

-- A call that only looks, or touches no file that is modelled.
pub sync-Triple : (P E : Store → Type 0) → ((s : Store) → P s → E s) → Triple P sync (λ _. P) E
unfolding sync
sync-Triple P E e =
    total-Triple P (λ _. P) E as_it_was tt (λ files. files) (λ s p. p) (λ s n p. e s p) e

module _ (id : Text) (P E : Store → Type 0)
    (keep : (s : Store)
      → P s
      → P (record s { files = record s.files { tmp = remove id s.files.tmp } }))
    (fail : (s : Store) → P s → E s) where
  removed :
      (s : Store) (o : Option Bytes) (files : Files) (a : Unit {0})
      → P s
      → elim o as (λ _. Option (Unit {0} × Files)) [
        | none ↦ none
        | some bytes ↦ some (tt, record s.files { tmp = remove id s.files.tmp })
      ]
        ≡ some (a, files)
      → P (record s { files = files })
  removed s none files a h e = absurd (cc e)
  removed s (some bytes) files a h e = subst (λ f. P (record s { files = f })) (cc e) (keep s h)

  -- What holds without the upload's file holds after its removal.
  pub remove_tmp-Triple : Triple P (remove_tmp id) (λ _. P) E
  unfolding remove_tmp
  remove_tmp-Triple =
      call-Triple P (λ _. P) E as_it_was _
        (λ s a files h e. removed s (find id s.files.tmp) files a h e) (λ s n h. fail s h) fail

module _ (blake3 : Bytes → Text) (v id : Text) where
  abbrev I : Store → Type 0
  I = IsIntact blake3

  -- The row of this upload, as it was read.
  abbrev pub Has : UploadRow → Store → Type 0
  Has row s =
      (u : Upload) × (find id s.db.uploads ≡ some u)
      × (u.vault_id ≡ v)
      × (u.hash_claimed ≡ row.hash_claimed)
      × (u.size_claimed ≡ row.size_claimed)
      × (u.received_bytes ≡ row.received_bytes)

  abbrev pub Seen : Option UploadRow → Store → Type 0
  Seen none s = IsIntact blake3 s
  Seen (some row) s = IsIntact blake3 s × Has row s

  row_seen-Seen :
      (now : ℕ) (s : Store) (o : Option Upload)
      → find id s.db.uploads ≡ o
      → I s
      → Seen (row_seen now (in_vault v o)) s
  row_seen-Seen now s none e h = h
  row_seen-Seen now s (some u) e h = elim (Bool-cases (u.vault_id == v)) [
    | inl same ↦ rw same (h, (u, e, (eq_iff u.vault_id v).0 same, refl, refl, refl))
    | inr other ↦ rw other h
  ]

  pub read_upload-Triple : Triple I (read_upload v id) Seen I
  unfolding read_upload
  read_upload-Triple =
      query-Triple I Seen I _ (λ t s h. row_seen-Seen t s (find id s.db.uploads) refl h) (λ s h. h)

  without_upload-IsIntact : (s : Store) → I s → I (record s { db = without_upload v id s.db })
  without_upload-IsIntact s h = elim (Bool-cases (is_some (upload_of v id s.db))) [
    | inl e ↦ rw e (remove_upload-IsIntact blake3 s id h)
    | inr e ↦ rw e h
  ]

  -- The blobs are as they were.
  without_upload-blobs : (s : Store) → (without_upload v id s.db).blobs ≡ s.db.blobs
  without_upload-blobs s = elim (Bool-cases (is_some (upload_of v id s.db))) [
    | inl e ↦ rw e refl
    | inr e ↦ rw e refl
  ]

  pub forget-Triple :
      (F : Table Key Blob → Type 0)
      → Triple (λ s. I s × F s.db.blobs) (delete_upload v id) (λ _ s. I s × F s.db.blobs) I
  unfolding delete_upload
  forget-Triple F =
      execute-Triple _ (λ _ s. I s × F s.db.blobs) I _
        (λ t s p. (without_upload-IsIntact s p.0, subst F (sym (without_upload-blobs s)) p.1))
        (λ s p. p.0)

  delete_upload-Triple : Triple I (delete_upload v id) (λ _. I) I
  unfolding delete_upload
  delete_upload-Triple =
      execute-Triple I (λ _. I) I _ (λ t s h. without_upload-IsIntact s h) (λ s h. h)

  pub discard_upload-Triple : (E : Store → Type 0) → Triple I (discard_upload v id) (λ _. I) E
  unfolding discard_upload
  discard_upload-Triple E =
      bind-Triple I (λ _. I) (λ _. I) E _ _ (ignore-Triple I I E _ delete_upload-Triple)
        (λ _.
          ignore-Triple I I E _
            (remove_tmp-Triple id I I (λ s h. remove_tmp-IsIntact blake3 s id h) (λ s h. h)))

  -- Given up, with an answer.
  pub discard_with-Triple :
      {A : Type 0} (E : Store → Type 0) (a : A) (Q : A → Store → Type 0)
      → ((s : Store) → I s → Q a s)
      → Triple I (discard_upload v id >> pure a) Q E
  discard_with-Triple E a Q h =
      bind-Triple I (λ _. I) Q E _ _ (discard_upload-Triple E) (λ _. pure-Triple I Q E a h)

module _ (blake3 : Bytes → Text) (E : Store → Type 0) where
  discard_all-Triple :
      ((s : Store) → IsIntact blake3 s → E s)
      → (ids : List (Text × Text)) (n : ℕ)
      → Triple (IsIntact blake3) (discard_all ids n) (λ _. IsIntact blake3) E
  unfolding discard_all
  discard_all-Triple e [] n = pure-Triple (IsIntact blake3) (λ _. IsIntact blake3) E n (λ s h. h)
  discard_all-Triple e ((v, id) ∷ ids) n =
      let I = IsIntact blake3 in
      bind-Triple I (λ _. I) (λ _. I) E _ _ (discard_upload-Triple blake3 v id E)
        (λ _.
          bind-Triple I (λ _. I) (λ _. I) E _ _ (query-Triple I (λ _. I) E _ (λ t s h. h) e)
            (λ _. discard_all-Triple e ids (n + 1)))

  pub sweep-Triple :
      ((s : Store) → IsIntact blake3 s → E s)
      → Triple (IsIntact blake3) sweep_expired_uploads (λ _. IsIntact blake3) E
  unfolding sweep_expired_uploads
  sweep-Triple e =
      let I = IsIntact blake3 in
      bind-Triple I (λ _. I) (λ _. I) E _ _ (query-Triple I (λ _. I) E _ (λ t s h. h) e)
        (λ ids. discard_all-Triple e ids 0)

module _ (blake3 : Bytes → Text) (v id : Text) where
  asked :
      (row : Option UploadRow)
      → Triple
          (Seen blake3 v id row)
          (elim row as (λ _. Io UploadReply) [
            | none ↦ pure upload_not_found
            | some row ↦
                if row.expired
                then (discard_upload v id >> pure upload_not_found)
                else pure (progress row.received_bytes row.hash_claimed row.size_claimed)
          ])
          (λ _. IsIntact blake3)
          (IsIntact blake3)
  asked none = pure-Triple (IsIntact blake3) (λ _. IsIntact blake3) _ _ (λ s h. h)
  asked (some row) =
      if-Triple _ (λ _. IsIntact blake3) (IsIntact blake3) row.expired _ _
        (λ _.
          weaken-Triple (IsIntact blake3) (λ _. IsIntact blake3) (IsIntact blake3) _ _ (λ s h. h.0)
            (discard_with-Triple blake3 v id (IsIntact blake3) _ (λ _. IsIntact blake3) (λ s h. h)))
        (λ _. pure-Triple _ (λ _. IsIntact blake3) (IsIntact blake3) _ (λ s h. h.0))

  pub get_upload-Triple :
      Triple (IsIntact blake3) (get_upload v id) (λ _. IsIntact blake3) (IsIntact blake3)
  unfolding get_upload
  get_upload-Triple =
      bind-Triple (IsIntact blake3) (Seen blake3 v id) (λ _. IsIntact blake3) (IsIntact blake3) _ _
        (read_upload-Triple blake3 v id) asked
