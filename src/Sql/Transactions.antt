-- ===== src/Sql/Transactions.antt =====
-- Reads before a transaction, and the transaction itself: a failure leaves the tables as they were.
use vaultcrdt_server.Base.{
  nat_eq, list_eq, option_eq, pair_eq, ℕ, ◌≤◌, ◌≡◌, refl, sym, ◌∙◌, inl, inr, true, arith,
}
use vaultcrdt_server.Errors.{ServerError, Result, ok, err}
use vaultcrdt_server.Db.{Db}
use vaultcrdt_server.Sql.{
  Conn, Sql, pure, lift, continue, ◌>>=◌, mark, query, rolled_back, transaction,
}
use vaultcrdt_server.Sql.Refines.{
  Spec, any_fails, Ran, Met, Runs, Refines, Executed, failed, carried_out, execute-Executed,
  Refines-lift, Refines-Runs, Runs-execute,
}
use vaultcrdt_server.Sql.Sequence.{chain, Runs-bind}

module _ {A B : Type 0} (P : Db → Type 0) (spec : Spec B) (f : ℕ → Db → A) where
  after_query :
      (k : A → Sql B) (s : Conn)
      → ((t : ℕ) (a : A) → Refines (λ d. P d × (f t d ≡ a)) (k a) spec)
      → P s.db
      → (r : Result A) (s' : Conn) → Executed (λ t d. (f t d, d)) s (r, s')
      → Met spec s (continue r k s')
  after_query k s h p (ok a) s' (failed e d n b) = absurd (cc e)
  after_query k s h p (ok a) s' (carried_out t n m e d b) =
      let g = (h t a).meet s' (rw d (p, cc e)) in
      record {
        later = omega (arith, g.later);
        fewer = λ x. b (g.fewer x);
        outcome = elim g.outcome [
          | inl x ↦ inl (record { error = x.0.error; blame = b x.0.blame }, x.1 ∙ d)
          | inr w ↦ inr (record {
            at = w.at;
            since = omega (arith, w.since);
            result = rw (← d) w.result;
            tables = rw (← d) w.tables;
          })
        ];
      }
  after_query k s h p (err x) s' (failed e d n b) = record {
    later = n;
    fewer = λ _. b;
    outcome = inl (record { error = cc e; blame = b }, d);
  }
  after_query k s h p (err x) s' (carried_out t n m e d b) = absurd (cc e)

  pub Refines-query :
      (k : A → Sql B)
      → ((t : ℕ) (a : A) → Refines (λ d. P d × (f t d ≡ a)) (k a) spec)
      → Refines P (query f >>= k) spec
  unfolding query ◌>>=◌
  Refines-query k h = record {
    meet = λ s p.
        after_query k s h p (query f s).0 (query f s).1 (execute-Executed (λ t d. (f t d, d)) s);
  }

-- What a transaction makes of its body: an error takes the writes back.
abbrev pub undone : {A : Type 0} → Db → Result A × Db → Result A × Db
undone d (ok a, d') = (ok a, d')
undone d (err e, d') = (err e, d)

chain_pure : {A : Type 0} (x : Result A × Db) (u : ℕ) → chain x (λ a _ d. (ok a, d)) u ≡ x
chain_pure (ok a, d) u = refl
chain_pure (err e, d) u = refl

module _ {A : Type 0} (P : Db → Type 0) (spec : Spec A) where
  committed : (body : Sql A) → Runs P body spec → Runs P (body >>= λ a. mark >>= λ _. pure a) spec
  unfolding mark pure lift
  committed body h =
      Runs-bind P (λ _ _. Unit) spec (λ a _ d. (ok a, d)) spec body (λ a. mark >>= λ _. pure a) h
        (λ a.
          Runs-bind (λ _. Unit) (λ _ _. Unit) (λ _ d. (ok tt, d)) (λ _ _ d. (ok a, d))
            (λ _ d. (ok a, d)) mark (λ _. pure a) (Runs-execute _ (λ _ d. (tt, d)))
            (λ _. Refines-Runs _ _ _ (Refines-lift _ (ok a) _ (λ t d p. refl))) (λ t a d p e. tt)
            (λ t u d p. record { time = u; bound = omega arith; equal = refl }))
        (λ t a d p e. tt)
        (λ t u d p. record { time = t; bound = omega arith; equal = chain_pure (spec t d) u })

  undone_ok : (x : Result A × Db) (d : Db) (a : A) → x.0 ≡ ok a → undone d x ≡ x
  undone_ok (ok b, d') d a e = refl
  undone_ok (err b, d') d a e = absurd (cc e)

  undone_err :
      (x : Result A × Db) (d : Db) (b : ServerError) → x.0 ≡ err b → undone d x ≡ (err b, d)
  undone_err (ok a, d') d b e = absurd (cc e)
  undone_err (err c, d') d b e = cc

  after_body :
      (s s' : Conn) (r : Result A) (s2 : Conn)
      → s'.db ≡ s.db
      → s.now ≤ s'.now
      → (any_fails s'.outcomes ≡ true → any_fails s.outcomes ≡ true)
      → Ran spec s' (r, s2)
      → Met (λ t d. undone d (spec t d)) s (rolled_back s'.db (r, s2))
  unfolding rolled_back
  after_body s s' (ok a) s2 d n b g = record {
    later = omega (arith, g.later);
    fewer = λ x. b (g.fewer x);
    outcome = elim g.outcome [
      | inl f ↦ absurd (cc (f.error))
      | inr w ↦
          let eq : undone s.db (spec w.at s.db) ≡ spec w.at s.db =
            undone_ok (spec w.at s.db) s.db a (rw (← d) (sym w.result)) in
          inr (record {
            at = w.at;
            since = omega (arith, w.since);
            result = rw eq (rw (← d) w.result);
            tables = rw eq (rw (← d) w.tables);
          })
    ];
  }
  after_body s s' (err x) s2 d n b g = record {
    later = omega (arith, g.later);
    fewer = λ x. b (g.fewer x);
    outcome = elim g.outcome [
      | inl f ↦ inl (record { error = cc (f.error); blame = b f.blame }, d)
      | inr w ↦
          let eq : undone s.db (spec w.at s.db) ≡ (err x, s.db) =
            undone_err (spec w.at s.db) s.db x (rw (← d) (sym w.result)) in
          inr (record {
            at = w.at;
            since = omega (arith, w.since);
            result = rw eq refl;
            tables = rw eq d;
          })
    ];
  }

  after_mark :
      (body : Sql A) (s : Conn)
      → Runs P body spec
      → P s.db
      → (r : Result (Unit {0})) (s' : Conn) → Executed (λ _ d. (tt, d)) s (r, s')
      → Met
          (λ t d. undone d (spec t d))
          s
          (continue r (λ _ s1. rolled_back s1.db ((body >>= λ a. mark >>= λ _. pure a) s1)) s')
  after_mark body s h p (ok a) s' (failed e d n b) = absurd (cc e)
  after_mark body s h p (ok a) s' (carried_out t n m e d b) =
      after_body s s' _ _ d (omega arith) b ((committed body h).run s' (rw d p))
  after_mark body s h p (err x) s' (failed e d n b) = record {
    later = n;
    fewer = λ _. b;
    outcome = inl (record { error = cc e; blame = b }, d);
  }
  after_mark body s h p (err x) s' (carried_out t n m e d b) = absurd (cc e)

  pub Refines-transaction :
      (body : Sql A) → Runs P body spec → Refines P (transaction body) (λ t d. undone d (spec t d))
  unfolding transaction ◌>>=◌
  Refines-transaction body h = record {
    meet = λ s p. after_mark body s h p (mark s).0 (mark s).1 (execute-Executed (λ _ d. (tt, d)) s);
  }

-- A pure last step.
abbrev pub mapped : {A B : Type 0} → (A → Result B) → Result A × Db → Result B × Db
mapped f (ok a, d) = (f a, d)
mapped f (err e, d) = (err e, d)

module _ {A B : Type 0} (P : Db → Type 0) (spec : Spec A) (f : A → Result B) where
  mapped_ok : (x : Result A × Db) (a : A) (d : Db) → x.0 ≡ ok a → d ≡ x.1 → mapped f x ≡ (f a, d)
  mapped_ok (ok b, d') a d e p = cc
  mapped_ok (err b, d') a d e p = absurd (cc e)

  mapped_err :
      (x : Result A × Db) (b : ServerError) (d : Db)
      → x.0 ≡ err b
      → d ≡ x.1
      → mapped f x ≡ (err b, d)
  mapped_err (ok a, d') b d e p = absurd (cc e)
  mapped_err (err c, d') b d e p = cc

  after_Met :
      (s : Conn) (r : Result A) (s' : Conn)
      → Met spec s (r, s')
      → Met (λ t d. mapped f (spec t d)) s (continue r (λ a. lift (f a)) s')
  unfolding lift
  after_Met s (ok a) s' g = record {
    later = g.later;
    fewer = g.fewer;
    outcome = elim g.outcome [
      | inl x ↦ absurd (cc (x.0.error))
      | inr w ↦
          let eq : mapped f (spec w.at s.db) ≡ (f a, s'.db) =
            mapped_ok (spec w.at s.db) a s'.db (sym w.result) w.tables in
          inr (record { at = w.at; since = w.since; result = rw eq; tables = rw eq })
    ];
  }
  after_Met s (err e) s' g = record {
    later = g.later;
    fewer = g.fewer;
    outcome = elim g.outcome [
      | inl x ↦ inl (record { error = cc (x.0.error); blame = x.0.blame }, x.1)
      | inr w ↦
          let eq : mapped f (spec w.at s.db) ≡ (err e, s'.db) =
            mapped_err (spec w.at s.db) e s'.db (sym w.result) w.tables in
          inr (record { at = w.at; since = w.since; result = rw eq; tables = rw eq })
    ];
  }

  pub Refines-then :
      (m : Sql A)
      → Refines P m spec
      → Refines P (m >>= λ a. lift (f a)) (λ t d. mapped f (spec t d))
  unfolding ◌>>=◌
  Refines-then m h = record { meet = λ s p. after_Met s (m s).0 (m s).1 (h.meet s p) }

module _ {A B : Type 0} (P : Db → Type 0) (spec : Spec B) where
  -- A pure first step.
  pub Refines-lift_bind :
      (r : Result A) (k : A → Sql B)
      → ((a : A) → r ≡ ok a → Refines P (k a) spec)
      → ((e : ServerError) → r ≡ err e → (t : ℕ) (d : Db) → P d → spec t d ≡ (err e, d))
      → Refines P (lift r >>= k) spec
  unfolding lift ◌>>=◌
  Refines-lift_bind (ok a) k good bad = good a refl
  Refines-lift_bind (err e) k good bad = unfold lift in Refines-lift P (err e) spec (bad e refl)
