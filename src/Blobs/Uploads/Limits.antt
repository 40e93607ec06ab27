-- ===== src/Blobs/Uploads/Limits.antt =====
-- blobs.rs, `create_upload`: the limits under which the second use of the connection lets an upload in,
-- as they are at its end.
use vaultcrdt_server.Base.{
  ltb, leb, nat_eq, list_eq, option_eq, pair_eq, Text, ℕ, ◌+◌, ◌-◌, ◌^◌, ◌≤◌, ◌<◌, ◌≡◌, refl, sym,
  subst, Bool, true, false, Option, none, some, arith, [], ◌∷◌, ◌⊎◌, inl, inr,
}
use vaultcrdt_server.Table.{Table, count_where, select_where}
use vaultcrdt_server.Db.{Db, Upload}
use vaultcrdt_server.Blobs.Disk.Reading.{
  Reading, pure-Reading, if-Reading, query-Reading, bind-Reading,
}
use vaultcrdt_server.Blobs.Uploads.{UploadReply, created, absolute_max, saturating_add}
use vaultcrdt_server.Blobs.Uploads.Create.{
  max_open_uploads, over_quota, admit_upload, effective_quota, vault_quota, stored_bytes, sum,
  inflight_bytes, open_count, is_open,
}

-- Below the largest `u64` the sum is exact.
within_quota :
    (q held inflight size : ℕ)
    → ltb q (saturating_add (saturating_add held inflight) size) ≡ false
    → q < 2 ^ 64 - 1
    → held + inflight + size ≤ q
within_quota q held inflight size h l = ground arith

-- An upload that is open was open before.
open_count_later : (v : Text) (t t' : ℕ) (d : Db) → t ≤ t' → open_count v t' d ≤ open_count v t d
unfolding count_where
open_count_later v t t' d l = fewer d.uploads
  where
    fewer :
        (us : Table Text Upload)
        → count_where (λ id u. is_open v t' u) us ≤ count_where (λ id u. is_open v t u) us
    fewer [] = omega arith
    fewer ((id, u) ∷ us) = ground (arith, fewer us)

inflight_bytes_later :
    (v : Text) (t t' : ℕ) (d : Db) → t ≤ t' → inflight_bytes v t' d ≤ inflight_bytes v t d
unfolding select_where
inflight_bytes_later v t t' d l = less d.uploads
  where
    lacks : ℕ → Table Text Upload → ℕ
    lacks n us =
        sum (select_where (λ id u. is_open v n u) (λ id u. u.size_claimed - u.received_bytes) us)

    less : (us : Table Text Upload) → lacks t' us ≤ lacks t us
    less [] = omega arith
    less ((id, u) ∷ us) = ground (arith, less us)

abbrev pub is_created : UploadReply → Bool
is_created (created id) = true
is_created _ = false

module _ (default_quota : ℕ) (v : Text) (size : ℕ) where
  abbrev quota : Db → ℕ
  quota d = effective_quota default_quota (vault_quota v d)

  -- Not too large. The quota is below the largest `u64`.
  abbrev IsSmall : ℕ → Db → Type 0
  IsSmall t d = (quota d < 2 ^ 64 - 1) × (size ≤ absolute_max)

  -- And fewer than four uploads are open.
  abbrev IsOneOfFew : ℕ → Db → Type 0
  IsOneOfFew t d = IsSmall t d × (open_count v t d < max_open_uploads)

  -- What the vault stores and awaits leaves room for the upload, if there is a quota.
  abbrev pub HasRoom : ℕ → Db → Type 0
  HasRoom t d = (quota d ≡ 0) ⊎ (stored_bytes v d + inflight_bytes v t d + size ≤ quota d)

  abbrev pub Admissible : ℕ → Db → Type 0
  Admissible t d = (size ≤ absolute_max) × (open_count v t d < max_open_uploads) × HasRoom t d

  -- What is let in fits, and what is not let in is not answered as a new upload.
  abbrev pub Judged : Option UploadReply → ℕ → Db → Type 0
  Judged none t d = Admissible t d
  Judged (some reply) t d = is_created reply ≡ false

  few_later : (t t' : ℕ) (d : Db) → t ≤ t' → IsOneOfFew t d → IsOneOfFew t' d
  few_later t t' d l (p, c) = (p, ground (arith, open_count_later v t t' d l))

  over_quota-Reading :
      (q : ℕ)
      → Reading
          (λ t d. IsOneOfFew t d × (quota d ≡ q))
          (over_quota v q size)
          (λ over t d. IsOneOfFew t d × (over ≡ false → HasRoom t d))
  unfolding over_quota
  over_quota-Reading q =
      if-Reading _ _ (ltb 0 q) _ _
        (λ some_quota.
          bind-Reading _ (λ held t d. IsOneOfFew t d × (quota d ≡ q) × (held ≡ stored_bytes v d)) _
            _ _
            (query-Reading _ _ _ (λ t t' d l p. (few_later t t' d l p.0, p.1))
              (λ t t' d l p. (few_later t t' d l p.0, p.1, refl)))
            λ held.
              bind-Reading _
                (λ inflight t d.
                  IsOneOfFew t d
                  × (quota d ≡ q)
                  × (held ≡ stored_bytes v d)
                  × (inflight_bytes v t d ≤ inflight))
                _ _ _
                (query-Reading _ _ _ (λ t t' d l p. (few_later t t' d l p.0, p.1, p.2))
                  (λ t t' d l p.
                    (few_later t t' d l p.0, p.1, p.2, inflight_bytes_later v t t' d l)))
                λ inflight. pure-Reading _ _ _ (λ t d (few, e, f, l).
                  (few, λ fits. inr (room t d held inflight few.0.0 e f l fits))))
        (λ no_quota. pure-Reading _ _ _ (λ t d p. (p.0, λ _. inl (ground (arith, p.1)))))
    where
      room :
          (t : ℕ) (d : Db) (held inflight : ℕ)
          → quota d < 2 ^ 64 - 1
          → quota d ≡ q
          → held ≡ stored_bytes v d
          → inflight_bytes v t d ≤ inflight
          → ltb q (saturating_add (saturating_add held inflight) size) ≡ false
          → stored_bytes v d + inflight_bytes v t d + size ≤ quota d
      room t d held inflight small e f l fits =
          let h = within_quota q held inflight size fits (subst (λ n. n < 2 ^ 64 - 1) e small) in
          rw e (rw (sym f) (omega arith))

  pub admit_upload-Reading :
      Reading (λ t d. quota d < 2 ^ 64 - 1) (admit_upload default_quota v size) Judged
  unfolding admit_upload
  admit_upload-Reading =
      if-Reading _ _ (ltb absolute_max size) _ _ (λ e. pure-Reading _ Judged _ (λ t d p. refl))
        (λ cap.
          bind-Reading _ (λ count t d. IsSmall t d × (open_count v t d ≤ count)) Judged _ _
            (query-Reading _ _ _ (λ t t' d l p. p)
              (λ t t' d l q. ((q, ground arith), open_count_later v t t' d l)))
            λ count.
              if-Reading _ _ (leb max_open_uploads count) _ _
                (λ e. pure-Reading _ Judged _ (λ t d p. refl))
                (λ few.
                  bind-Reading _
                    (λ held_quota t d.
                      IsOneOfFew t d × (quota d ≡ effective_quota default_quota held_quota))
                    Judged _ _
                    (query-Reading _ _ _
                      (λ t t' d l (p, c). (p, ground (arith, open_count_later v t t' d l)))
                      (λ t t' d l (p, c). ((p, ground (arith, open_count_later v t t' d l)), refl)))
                    λ held_quota.
                      bind-Reading _ _ Judged _ _
                        (over_quota-Reading (effective_quota default_quota held_quota))
                        λ over.
                          if-Reading _ _ over _ _ (λ e. pure-Reading _ Judged _ (λ t d p. refl))
                            (λ room.
                              pure-Reading _ Judged _
                                (λ t d (few, fits). (few.0.1, few.1, fits room)))))
