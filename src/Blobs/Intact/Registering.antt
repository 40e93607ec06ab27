-- ===== src/Blobs/Intact/Registering.antt =====
-- The row of a blob whose file stands; where it cannot be written a new file goes again.
use vaultcrdt_server.Base.{
  if◌then◌else◌, nat_eq, list_eq, option_eq, pair_eq, ◌==◌, Bool-cases, length, is_some, is_none,
  Bytes, Text, ℕ, ◌≡◌, refl, subst, inl, inr, Bool, true, false, not, ◌&&◌, Option, none, some,
  arith,
}
use vaultcrdt_server.Table.{find, remove}
use vaultcrdt_server.Table.Laws.{find-put_self}
use vaultcrdt_server.Errors.{ServerError, Result, ok, err}
use vaultcrdt_server.Blobs.Disk.{Files, pure, ignore, as_it_was, remove_stored}
use vaultcrdt_server.Blobs.Disk.Triples.{
  Store, Triple, Post, pure-Triple, raise-Triple, bind-Triple, if-Triple, execute-Triple,
  query-Triple, call-Triple, attempt-Triple, ignore-Triple, absurd-Triple,
}
use vaultcrdt_server.Blobs.Uploads.Put.{blob_inserted, give_up, check_inserted, register_blob}
use vaultcrdt_server.Blobs.Intact.{IsIntact, remove_stored-IsIntact, put_blob-IsIntact}
use vaultcrdt_server.Blobs.Intact.Discard.{discard_upload-Triple}
use vaultcrdt_server.Blobs.Intact.Placing.{Placed}

module _ (blake3 : Bytes → Text) (v id hash : Text) (bytes : Bytes)
    (right : blake3 bytes ≡ hash) where
  abbrev I : Store → Type 0
  I = IsIntact blake3

  abbrev Stands : Bool → Store → Type 0
  Stands = Placed blake3 v id hash bytes right

  -- The row of the blob is there.
  abbrev pub Registered : Store → Type 0
  Registered s = I s × (is_some (find (v, hash) s.db.blobs) ≡ true)

  insert-Registered :
      (existed : Bool) (t : ℕ) (s : Store)
      → Stands existed s
      → Registered (record s { db = (blob_inserted v hash (length bytes) t s.db).1 })
  insert-Registered existed t s (h, back, free) =
      elim (Bool-cases (is_none (find (v, hash) s.db.blobs))) [
        | inl e ↦ rw e (
          put_blob-IsIntact blake3 s (v, hash) (record { size = length bytes; created_at = t }) back
              h,
          rw find-put_self refl,
        )
        | inr e ↦ rw e (h, ground arith)
      ]

  unplaced :
      (s : Store) (o : Option Bytes) (a : Unit {0}) (files : Files)
      → Stands false s
      → elim o as (λ _. Option (Unit {0} × Files)) [
        | none ↦ none
        | some b ↦ some (tt, record s.files { stored = remove (v, hash) s.files.stored })
      ]
        ≡ some (a, files)
      → I (record s { files = files })
  unplaced s none a files p e = absurd (cc e)
  unplaced s (some b) a files p e =
      subst (λ f. I (record s { files = f })) (cc e)
        (remove_stored-IsIntact blake3 s (v, hash) (p.2 refl) p.0)

  unplace-Triple : Triple (Stands false) (remove_stored (v, hash)) (λ _. I) I
  unfolding remove_stored
  unplace-Triple =
      call-Triple (Stands false) (λ _. I) I as_it_was _
        (λ s a files p e. unplaced s (find (v, hash) s.files.stored) a files p e) (λ s n p. p.0)
        (λ s p. p.0)

  cleared-Triple :
      (existed : Bool)
      → Triple
          (Stands existed)
          (if existed then pure tt else ignore (remove_stored (v, hash)))
          (λ _. I)
          I
  cleared-Triple true = pure-Triple (Stands true) (λ _. I) I tt (λ s p. p.0)
  cleared-Triple false = ignore-Triple (Stands false) I I _ unplace-Triple

  give_up-Triple :
      (existed : Bool) (e : ServerError) (Q : Unit {0} → Store → Type 0)
      → Triple (Stands existed) (give_up v id hash existed e) Q I
  unfolding give_up
  give_up-Triple existed e Q =
      bind-Triple (Stands existed) (λ _. I) Q I _ _ (cleared-Triple existed)
        λ _.
          bind-Triple I (λ _. I) Q I _ _ (discard_upload-Triple blake3 v id I)
            λ _. raise-Triple I Q I e (λ s h. h)

  checked-Triple :
      (existed : Bool) (rows : Result ℕ)
      → Triple
          (Post (λ _. Registered) (Stands existed) rows)
          (check_inserted v id hash existed rows)
          (λ _. Registered)
          I
  unfolding check_inserted
  checked-Triple existed (err e) = give_up-Triple existed e (λ _. Registered)
  checked-Triple existed (ok rows) =
      if-Triple Registered (λ _. Registered) I (rows == 0 && not existed) _ _
        (λ _.
          bind-Triple Registered (λ b s. Registered s × (is_some (find (v, hash) s.db.blobs) ≡ b))
            (λ _. Registered) I _ _
            (query-Triple Registered
              (λ b s. Registered s × (is_some (find (v, hash) s.db.blobs) ≡ b)) I _
              (λ t s p. (p, refl)) (λ s p. p.0))
            row_found-Triple)
        (λ _. pure-Triple Registered (λ _. Registered) I tt (λ s p. p))
    where
      row_found-Triple :
          (has_row : Bool)
          → Triple
              (λ s. Registered s × (is_some (find (v, hash) s.db.blobs) ≡ has_row))
              (if has_row then pure tt else give_up v id hash existed ServerError.io)
              (λ _. Registered)
              I
      row_found-Triple true = pure-Triple _ (λ _. Registered) I tt (λ s p. p.0)
      row_found-Triple false = absurd-Triple _ (λ _. Registered) I _ (λ s p. cc (p.0.1, p.1))

  pub register_blob-Triple :
      (existed : Bool)
      → Triple (Stands existed) (register_blob v id hash (length bytes) existed) (λ _. Registered) I
  unfolding register_blob
  register_blob-Triple existed =
      bind-Triple (Stands existed) (Post (λ _. Registered) (Stands existed)) (λ _. Registered) I _ _
        (attempt-Triple (Stands existed) (λ _. Registered) (Stands existed) I _
          (execute-Triple (Stands existed) (λ _. Registered) (Stands existed) _
            (λ t s p. insert-Registered existed t s p) (λ s p. p)))
        (checked-Triple existed)
