-- ===== src/Documents/Refinement/Delete.antt =====
-- `delete_doc_guarded` does what `guarded` says.
use vaultcrdt_server.Base.{
  if◌then◌else◌, unwrap_or, nat_eq, list_eq, option_eq, pair_eq, Bytes, Text, ℕ, ◌≡◌, refl, Option,
  none, some, arith,
}
use vaultcrdt_server.Base.Int.{ℤ}
use vaultcrdt_server.Table.{find}
use vaultcrdt_server.Table.Laws.{find-put_self}
use vaultcrdt_server.Errors.{ok}
use vaultcrdt_server.Db.{Db, Key}
use vaultcrdt_server.Sql.{pure, lift, ◌>>=◌, query, execute}
use vaultcrdt_server.Sql.Refines.{
  Spec, Runs, Refines, Refines-Runs, Refines-lift, Refines-ext, Runs-if,
}
use vaultcrdt_server.Sql.Sequence.{Runs-step}
use vaultcrdt_server.Sql.Transactions.{undone, Refines-transaction}
use vaultcrdt_server.Loro.{Loro}
use vaultcrdt_server.Documents.{snapshot_and_incarnation}
use vaultcrdt_server.Documents.Delete.{
  DeleteOutcome, rejected, mismatch, live_token, live_hash, delete_doc_guarded,
}
use vaultcrdt_server.Documents.Spec.{guarded}
use vaultcrdt_server.Documents.Refinement.{Always}
use vaultcrdt_server.Documents.Delete.{
  buried, drop_document, bury, stored_hash, outcome_of, delete_and_bury,
}
use vaultcrdt_server.Documents.Spec.{grave, buried_at, report}

module _ (loro : Loro) (v u deleted_by : Text) where
  bury_it : Option (Bytes × ℕ) → ℕ → Db → Db
  bury_it live t d = bury (v, u) deleted_by (live_hash loro live) (live_token live) t d

  read_back : Option (Bytes × ℕ) → Spec DeleteOutcome
  read_back live t d = (ok (outcome_of (live_token live) (stored_hash (v, u) d)), d)

  entomb : Option (Bytes × ℕ) → Spec DeleteOutcome
  entomb live t d = read_back live t (bury_it live t (drop_document (v, u) d))

  read_back-Runs :
      (live : Option (Bytes × ℕ))
      → Runs Always
          (query (λ _ d. stored_hash (v, u) d) >>= λ h. pure (outcome_of (live_token live) h))
          (read_back live)
  unfolding read_back pure lift query
  read_back-Runs live =
      Runs-step Always (λ _ _. Unit) (λ _ d. (stored_hash (v, u) d, d))
        (λ h _ d. (ok (outcome_of (live_token live) h), d)) (read_back live) _
        (λ h. Refines-Runs _ _ _ (Refines-lift _ (ok _) _ (λ t d p. refl))) (λ t d p. tt)
        (λ t w d p. record { time = t; bound = omega arith; equal = refl })

  bury_it-Runs :
      (live : Option (Bytes × ℕ))
      → Runs Always
          (execute
              (λ t d. (tt {0}, bury (v, u) deleted_by (live_hash loro live) (live_token live) t d))
            >>= λ _.
                query (λ _ d. stored_hash (v, u) d) >>= λ h. pure (outcome_of (live_token live) h))
          (λ t d. read_back live t (bury_it live t d))
  unfolding bury_it read_back
  bury_it-Runs live =
      Runs-step Always (λ _ _. Unit)
        (λ t d. (tt {0}, bury (v, u) deleted_by (live_hash loro live) (live_token live) t d))
        (λ _. read_back live) _ _ (λ _. read_back-Runs live) (λ t d p. tt)
        (λ t w d p. record { time = t; bound = omega arith; equal = refl })

  entomb-Runs :
      (live : Option (Bytes × ℕ))
      → Runs Always (delete_and_bury loro v u deleted_by live) (entomb live)
  unfolding entomb delete_and_bury
  entomb-Runs live =
      Runs-step Always (λ _ _. Unit) (λ _ d. (tt {0}, drop_document (v, u) d))
        (λ _ t d. read_back live t (bury_it live t d)) (entomb live) _ (λ _. bury_it-Runs live)
        (λ t d p. tt) (λ t w d p. record { time = w; bound = omega arith; equal = refl })

  buried-grave :
      (live : Option (Bytes × ℕ)) (t : ℕ) (d : Db)
      → buried (find (v, u) d.tombstones) deleted_by (live_hash loro live) (live_token live) t
        ≡ grave loro (v, u) deleted_by live t d
  unfolding buried
  buried-grave live t d = ground arith

  stored_hash-bury_it :
      (live : Option (Bytes × ℕ)) (t : ℕ) (d : Db)
      → stored_hash (v, u) (bury_it live t (drop_document (v, u) d))
        ≡ (grave loro (v, u) deleted_by live t d).content_hash
  unfolding stored_hash bury_it bury drop_document
  stored_hash-bury_it live t d = rw (buried-grave live t d) (
      rw (
        find-put_self {K = Key} (v, u) (grave loro (v, u) deleted_by live t d) d.tombstones,
        stored_hash,
      ))

  bury_it-buried_at :
      (live : Option (Bytes × ℕ)) (t : ℕ) (d : Db)
      → bury_it live t (drop_document (v, u) d)
        ≡ buried_at loro (v, u) (grave loro (v, u) deleted_by live t d) d
  unfolding bury_it bury drop_document
  bury_it-buried_at live t d = rw (buried-grave live t d)

  outcome_of-report :
      (live : Option (Bytes × ℕ)) (h : Option Text)
      → outcome_of (live_token live) h ≡ report loro live h
  unfolding outcome_of live_token
  outcome_of-report none h = refl
  outcome_of-report (some (snapshot, token)) h = refl

  entomb-same :
      (live : Option (Bytes × ℕ)) (t : ℕ) (d : Db)
      → entomb live t d ≡ (
        ok (report loro live (grave loro (v, u) deleted_by live t d).content_hash),
        buried_at loro (v, u) (grave loro (v, u) deleted_by live t d) d,
      )
  unfolding entomb read_back
  entomb-same live t d =
      rw (stored_hash-bury_it live t d, bury_it-buried_at live t d, outcome_of-report live)

  decide : Option ℤ → Option (Bytes × ℕ) → Spec DeleteOutcome
  decide expected live t d =
      let token = unwrap_or (live_token live) 0 in
      if mismatch expected token then (ok (rejected token), d) else entomb live t d

  decide-Runs :
      (expected : Option ℤ) (live : Option (Bytes × ℕ))
      → Runs Always
          (if mismatch expected (unwrap_or (live_token live) 0)
            then pure (rejected (unwrap_or (live_token live) 0))
            else delete_and_bury loro v u deleted_by live)
          (decide expected live)
  unfolding decide pure lift
  decide-Runs expected live =
      Runs-if Always (mismatch expected (unwrap_or (live_token live) 0)) _ _ _ _
        (Refines-Runs _ _ _
          (Refines-lift _ (ok (rejected (unwrap_or (live_token live) 0))) _ (λ t d p. refl)))
        (entomb-Runs live)

  decide-guarded :
      (expected : Option ℤ) (t : ℕ) (d : Db)
      → decide expected (snapshot_and_incarnation (v, u) d) t d
        ≡ guarded loro v u deleted_by expected t d
  unfolding decide
  decide-guarded expected t d = rw (entomb-same (snapshot_and_incarnation (v, u) d) t d)

  undone-guarded :
      (expected : Option ℤ) (t : ℕ) (d : Db)
      → undone d (guarded loro v u deleted_by expected t d)
        ≡ guarded loro v u deleted_by expected t d
  undone-guarded expected t d = ground arith

  -- A guarded delete compares the expected token with that of the live row, 0 for none. On a mismatch
  -- it changes nothing; otherwise the row is gone and the tombstone has the hash and the token of the
  -- row, or keeps those it had. A statement that fails changes nothing.
  pub delete_doc_guarded-Refines :
      (expected : Option ℤ)
      → Refines
          (λ _. Unit)
          (delete_doc_guarded loro v u deleted_by expected)
          (guarded loro v u deleted_by expected)
  unfolding delete_doc_guarded query
  delete_doc_guarded-Refines expected =
      Refines-ext Always _ _ _
        (Refines-transaction Always (guarded loro v u deleted_by expected) _ (
          Runs-step Always (λ _ _. Unit) (λ _ d. (snapshot_and_incarnation (v, u) d, d))
            (decide expected) _ _ (decide-Runs expected) (λ t d p. tt)
            (λ t w d p. record {
              time = w;
              bound = omega arith;
              equal = decide-guarded expected w d;
            })))
        (λ d p. p) (λ t d p. undone-guarded expected t d)
