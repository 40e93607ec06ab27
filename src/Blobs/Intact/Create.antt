-- ===== src/Blobs/Intact/Create.antt =====
-- A new upload leaves everything intact, and is opened only within the limits.
use vaultcrdt_server.Base.{
  leb, nat_eq, list_eq, option_eq, pair_eq, Bool-cases, length, is_none, Bytes, Text, ℕ, ◌≤◌, ◌≡◌,
  refl, subst, Bool, true, false, inl, inr, not, ◌||◌, Option, none, some, [], arith,
}
use vaultcrdt_server.Base.Int.{ℤ, pos, negsuc}
use vaultcrdt_server.Table.{find}
use vaultcrdt_server.Table.Laws.{find-put_self}
use vaultcrdt_server.Errors.{Result, ok, err, or_fail}
use vaultcrdt_server.Sql.{db_failed}
use vaultcrdt_server.Blobs.Disk.{World, meanwhile, as_it_was, create_tmp}
use vaultcrdt_server.Blobs.Disk.Triples.{
  Store, view, query-Triple, Triple, Post, pure-Triple, raise-Triple, bind-Triple, if-Triple,
  weaken-Triple, execute-Triple, total-Triple, attempt-Triple, ignore-Triple, lift-Triple,
  knowing-Triple,
}
use vaultcrdt_server.Blobs.Uploads.{UploadReply, created, exists, absolute_max}
use vaultcrdt_server.Blobs.Uploads.Create.{
  new_upload, inserted, insert_upload, undo, open_upload, blob_exists, open_admitted, create_absent,
  create_upload,
}
use vaultcrdt_server.Blobs.Names.{is_hash}
use vaultcrdt_server.Blobs.Intact.{
  IsIntact, put_tmp-IsIntact, remove_tmp-IsIntact, put_upload-IsIntact,
}
use vaultcrdt_server.Blobs.Intact.Admit.{admit_upload-Triple}
use vaultcrdt_server.Blobs.Intact.Discard.{sync-Triple, remove_tmp-Triple}

module _ (blake3 : Bytes → Text) (v id hash : Text) (size : ℕ) (cap : size ≤ absolute_max) where
  abbrev I : Store → Type 0
  I = IsIntact blake3

  -- The upload's file is new.
  abbrev Fresh : Store → Type 0
  Fresh s = I s × (find id s.files.tmp ≡ some [])

  create_tmp-Triple : Triple I (create_tmp id) (λ _. Fresh) I
  unfolding create_tmp
  create_tmp-Triple =
      total-Triple I (λ _. Fresh) I as_it_was tt _
        (λ s h.
          (put_tmp-IsIntact blake3 s id [] (λ u e. omega arith) h, find-put_self id [] s.files.tmp))
        (λ s n h. h) (λ s h. h)

  inserted-IsIntact :
      (t : ℕ) (s : Store) → Fresh s → I (record s { db = (inserted v id hash size t s.db).1 })
  inserted-IsIntact t s (h, f) = elim (Bool-cases (is_none (find id s.db.uploads))) [
    | inl e ↦ rw e (
        put_upload-IsIntact blake3 s id (new_upload v hash size t) (omega arith, cap)
          (λ bytes g. subst (λ b. length b ≤ size) {x = []} {y = bytes} (cc (f, g)) (omega arith))
          h)
    | inr e ↦ rw e h
  ]

  insert-Triple : Triple Fresh (insert_upload v id hash size) (λ _. I) I
  unfolding insert_upload
  insert-Triple =
      bind-Triple Fresh (λ _. I) (λ _. I) I _ _
        (execute-Triple Fresh (λ _. I) I _ inserted-IsIntact (λ s p. p.0))
        (λ done. lift-Triple I (λ _. I) I (or_fail done db_failed) (λ s a h. h) (λ s h. h))

  undo-Triple : (r : Result (Unit {0})) → Triple (Post (λ _. I) I r) (undo id r) (λ _. I) I
  undo-Triple (ok done) = pure-Triple I (λ _. I) I tt (λ s h. h)
  undo-Triple (err e) =
      bind-Triple I (λ _. I) (λ _. I) I _ _
        (ignore-Triple I I I _
          (remove_tmp-Triple id I I (λ s h. remove_tmp-IsIntact blake3 s id h) (λ s h. h)))
        (λ _. raise-Triple I (λ _. I) I e (λ s h. h))

  pub open_upload-Triple : Triple I (open_upload v id hash size) (λ _. I) I
  unfolding open_upload
  open_upload-Triple =
      bind-Triple I (λ _. I) (λ _. I) I _ _ (sync-Triple I I (λ s h. h))
        λ _.
          bind-Triple I (λ _. Fresh) (λ _. I) I _ _ create_tmp-Triple
            λ _.
              bind-Triple Fresh (Post (λ _. I) I) (λ _. I) I _ _
                (attempt-Triple Fresh (λ _. I) I I _ insert-Triple)
                λ done.
                  bind-Triple _ (λ _. I) (λ _. I) I _ _ (undo-Triple done)
                    λ _. pure-Triple I (λ _. I) I (created id) (λ s h. h)

-- Other requests leave everything intact.
module _ (blake3 : Bytes → Text) (default_quota : ℕ) (between later : World → World)
    (between_kept : (w : World) → IsIntact blake3 (view w) → IsIntact blake3 (view (between w)))
    (later_kept : (w : World) → IsIntact blake3 (view w) → IsIntact blake3 (view (later w)))
    (v id hash : Text) where
  abbrev J : Store → Type 0
  J = IsIntact blake3

  meanwhile-Triple :
      (others : World → World)
      → ((w : World) → J (view w) → J (view (others w)))
      → Triple J (meanwhile others) (λ _. J) J
  unfolding meanwhile
  meanwhile-Triple others h = record { holds = h }

  open_admitted-Triple :
      (size : ℕ) (o : Option UploadReply)
      → Triple
          (λ s. J s × (o ≡ none → size ≤ absolute_max))
          (open_admitted default_quota between later v id hash size o)
          (λ _. J)
          J
  unfolding open_admitted
  open_admitted-Triple size (some reply) = pure-Triple _ (λ _. J) J reply (λ s p. p.0)
  open_admitted-Triple size none =
      knowing-Triple _ (λ _. J) J _ (λ s p. p.1 refl)
        λ cap.
          weaken-Triple J (λ _. J) J _ _ (λ s p. p.0)
            (bind-Triple J (λ _. J) (λ _. J) J _ _ (meanwhile-Triple later later_kept)
              (λ _. open_upload-Triple blake3 v id hash size cap))

  create_absent-Triple :
      (size : ℕ) (have : Bool)
      → Triple J (create_absent default_quota between later v id hash size have) (λ _. J) J
  unfolding create_absent
  create_absent-Triple size true = pure-Triple J (λ _. J) J exists (λ s h. h)
  create_absent-Triple size false =
      bind-Triple J (λ _. J) (λ _. J) J _ _ (meanwhile-Triple between between_kept)
        λ _.
          bind-Triple J _ (λ _. J) J _ _ (admit_upload-Triple default_quota v size J)
            (open_admitted-Triple size)

  pub create_upload-Triple :
      (size : ℤ) → Triple J (create_upload default_quota between later v id hash size) (λ _. J) J
  unfolding create_upload blob_exists
  create_upload-Triple (negsuc n) = pure-Triple J (λ _. J) J _ (λ s h. h)
  create_upload-Triple (pos size) =
      if-Triple J (λ _. J) J (not (is_hash hash) || leb size 0) _ _
        (λ e. pure-Triple J (λ _. J) J _ (λ s h. h))
        (λ e.
          bind-Triple J (λ _. J) (λ _. J) J _ _
            (query-Triple J (λ _. J) J _ (λ t s h. h) (λ s h. h)) (create_absent-Triple size))
