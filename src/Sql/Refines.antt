-- ===== src/Sql/Refines.antt =====
-- What a fallible action does, up to faults: either a statement failed and the database is as it
-- was, or the action did what a pure description of it says. One rule for each way to build one.
use vaultcrdt_server.Base.{
  if◌then◌else◌, Bool-cases, nat_eq, list_eq, option_eq, pair_eq, ℕ, ◌+◌, ◌≤◌, ◌≡◌, refl, ◌⊎◌, inl,
  inr, Bool, true, false, ◌||◌, List, [], ◌∷◌, arith,
}
use vaultcrdt_server.Errors.{Result, ok, err}
use vaultcrdt_server.Db.{Db}
use vaultcrdt_server.Sql.{Outcome, Conn, Sql, lift, continue, db_failed, spend, execute}

-- A pure description: the result and the new tables, from the time of the write and the old tables.
abbrev pub Spec {ℓ} : Type ℓ → Type ℓ
Spec A = ℕ → Db → Result A × Db

-- Whether a statement to come fails.
unfoldable pub any_fails : List Outcome → Bool
any_fails [] = false
any_fails (o ∷ rest) = o.fails || any_fails rest

module _ {A : Type 0} where
  pub record Done (spec : Spec A) (s : Conn) (r : Result A × Conn) : Type 0 where
    pub at : ℕ
    pub since : s.now ≤ at
    pub result : r.0 ≡ (spec at s.db).0
    pub tables : r.1.db ≡ (spec at s.db).1

  pub record Failed (s : Conn) (r : Result A × Conn) : Type 0 where
    pub error : r.0 ≡ err db_failed
    pub blame : any_fails s.outcomes ≡ true

  -- Of an action inside a transaction: a failure may leave anything behind.
  pub record Ran (spec : Spec A) (s : Conn) (r : Result A × Conn) : Type 0 where
    pub later : s.now ≤ r.1.now
    pub fewer : any_fails r.1.outcomes ≡ true → any_fails s.outcomes ≡ true
    pub outcome : Failed s r ⊎ Done spec s r

  -- Of an action on its own: a failure leaves the tables as they were.
  pub record Met (spec : Spec A) (s : Conn) (r : Result A × Conn) : Type 0 where
    pub later : s.now ≤ r.1.now
    pub fewer : any_fails r.1.outcomes ≡ true → any_fails s.outcomes ≡ true
    pub outcome : (Failed s r × (r.1.db ≡ s.db)) ⊎ Done spec s r

  pub record Runs (P : Db → Type 0) (m : Sql A) (spec : Spec A) : Type 0 where
    pub run : (s : Conn) → P s.db → Ran spec s (m s)

  pub record Refines (P : Db → Type 0) (m : Sql A) (spec : Spec A) : Type 0 where
    pub meet : (s : Conn) → P s.db → Met spec s (m s)

  pub Refines-Runs :
      (P : Db → Type 0) (m : Sql A) (spec : Spec A) → Refines P m spec → Runs P m spec
  Refines-Runs P m spec h = record {
    run = λ s p.
        let g = h.meet s p in
        record {
          later = g.later;
          fewer = g.fewer;
          outcome = elim g.outcome [ inl f ↦ inl f.0 | inr d ↦ inr d ];
        };
  }

  pub Refines-lift :
      (P : Db → Type 0) (r : Result A) (spec : Spec A)
      → ((t : ℕ) (d : Db) → P d → spec t d ≡ (r, d))
      → Refines P (lift r) spec
  unfolding lift
  Refines-lift P r spec h = record {
    meet = λ s p. record {
      later = omega arith;
      fewer = λ f. f;
      outcome = inr (record {
        at = s.now;
        since = omega arith;
        result = rw (h s.now s.db p);
        tables = rw (h s.now s.db p);
      });
    };
  }

-- What one statement does: `g` at the time when it runs, or nothing.
module _ {A : Type 0} (g : ℕ → Db → A × Db) where
  pub data Executed (s : Conn) (r : Result A × Conn) : Type 0 where
    failed :
        r.0 ≡ err db_failed
        → r.1.db ≡ s.db
        → s.now ≤ r.1.now
        → any_fails s.outcomes ≡ true
        → Executed s r
    carried_out :
        (t : ℕ)
        → s.now ≤ t
        → t ≤ r.1.now
        → r.0 ≡ ok (g t s.db).0
        → r.1.db ≡ (g t s.db).1
        → (any_fails r.1.outcomes ≡ true → any_fails s.outcomes ≡ true)
        → Executed s r

  spend-Executed :
      (os : List Outcome) (s : Conn)
      → s.outcomes ≡ os
      → Executed s (
          continue
            (spend os s).0
            (λ _ s'. let (a, d) = g s'.now s'.db in (ok a, record s' { db = d }))
            (spend os s).1)
  unfolding spend any_fails
  spend-Executed [] s e = carried_out s.now (omega arith) (omega arith) refl refl (λ f. f)
  spend-Executed (o ∷ rest) s e = elim (Bool-cases o.fails) [
    | inl bad ↦ failed (rw bad) (rw bad) (rw bad (omega arith)) (rw e (rw bad))
    | inr good ↦
        carried_out (s.now + o.delay) (omega arith) (rw good (omega arith)) (rw good) (rw good)
          (rw good (λ f. rw e (rw good f)))
  ]

  pub execute-Executed : (s : Conn) → Executed s (execute g s)
  unfolding execute
  execute-Executed s = spend-Executed s.outcomes s refl

module _ {A : Type 0} (P : Db → Type 0) where
  pub Runs-execute : (g : ℕ → Db → A × Db) → Runs P (execute g) (λ t d. (ok (g t d).0, (g t d).1))
  Runs-execute g = record { run = λ s p. go s (execute g s) (execute-Executed g s) }
    where
      go :
          (s : Conn) (r : Result A × Conn)
          → Executed g s r
          → Ran (λ t d. (ok (g t d).0, (g t d).1)) s r
      go s r (failed e d n b) = record {
        later = n;
        fewer = λ _. b;
        outcome = inl (record { error = e; blame = b });
      }
      go s r (carried_out t n m e d b) = record {
        later = omega arith;
        fewer = b;
        outcome = inr (record { at = t; since = n; result = e; tables = d });
      }

module _ {A : Type 0} {P : Db → Type 0} where
  -- The description may be given another form, and the condition may be more than is needed.
  pub Refines-ext :
      (Q : Db → Type 0) (m : Sql A) (sp sq : Spec A)
      → Refines P m sp
      → ((d : Db) → Q d → P d)
      → ((t : ℕ) (d : Db) → Q d → sp t d ≡ sq t d)
      → Refines Q m sq
  Refines-ext Q m sp sq h weaken same = record {
    meet = λ s q.
        let g = h.meet s (weaken s.db q) in
        record {
          later = g.later;
          fewer = g.fewer;
          outcome = elim g.outcome [
            | inl f ↦ inl f
            | inr w ↦ inr (record {
              at = w.at;
              since = w.since;
              result = rw (← same w.at s.db q) w.result;
              tables = rw (← same w.at s.db q) w.tables;
            })
          ];
        };
  }

  -- With no fault to come, the action does exactly what its description says.
  pub Refines-no_faults :
      (m : Sql A) (spec : Spec A)
      → Refines P m spec
      → (s : Conn) → P s.db
      → any_fails s.outcomes ≡ false
      → Done spec s (m s)
  Refines-no_faults m spec h s p calm = elim ((h.meet s p).outcome) [
    | inl f ↦ absurd (cc (f.0.blame, calm))
    | inr w ↦ w
  ]

  -- What holds of the tables before and after `spec` survives faults too.
  pub Refines-keeps :
      (I : Db → Type 0) (m : Sql A) (spec : Spec A)
      → Refines P m spec
      → ((t : ℕ) (d : Db) → P d → I d → I (spec t d).1)
      → (s : Conn) → P s.db
      → I s.db
      → I (m s).1.db
  Refines-keeps I m spec h keep s p i = elim ((h.meet s p).outcome) [
    | inl f ↦ rw f.1 i
    | inr w ↦ rw w.tables (keep w.at s.db p i)
  ]

module _ {A : Type 0} (P : Db → Type 0) where
  -- A test: each branch has its own description, or may use the test's value.
  pub Runs-if :
      (b : Bool) (m n : Sql A) (sp sq : Spec A)
      → Runs P m sp
      → Runs P n sq
      → Runs P (if b then m else n) (λ t d. if b then sp t d else sq t d)
  Runs-if true m n sp sq h k = h
  Runs-if false m n sp sq h k = k

  pub Refines-if :
      (b : Bool) (m n : Sql A) (spec : Spec A)
      → (b ≡ true → Refines P m spec)
      → (b ≡ false → Refines P n spec)
      → Refines P (if b then m else n) spec
  Refines-if true m n spec h k = h refl
  Refines-if false m n spec h k = k refl
