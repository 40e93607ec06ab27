-- ===== src/Sql/Triples.antt =====
-- What an action that returns has established: from a condition on the tables before it to one on its
-- value and the tables after it. An action that fails says nothing.
use vaultcrdt_server.Base.{
  if◌then◌else◌, nat_eq, list_eq, option_eq, pair_eq, ℕ, ◌≡◌, refl, sym, subst, Bool, true, false,
}
use vaultcrdt_server.Errors.{ServerError, Result, ok, err}
use vaultcrdt_server.Db.{Db}
use vaultcrdt_server.Sql.{
  Conn, Sql, pure, raise, lift, continue, ◌>>=◌, execute, query, mark, rolled_back, transaction,
}
use vaultcrdt_server.Sql.Refines.{Executed, execute-Executed}

pub record Triple {A : Type 0} (P : Db → Type 0) (m : Sql A) (Q : A → Db → Type 0) : Type 0 where
  pub holds : (s : Conn) → P s.db → (a : A) → (m s).0 ≡ ok a → Q a (m s).1.db

module _ {A : Type 0} (P : Db → Type 0) (Q : A → Db → Type 0) where
  pub lift-Triple :
      (r : Result A) → ((a : A) (d : Db) → r ≡ ok a → P d → Q a d) → Triple P (lift r) Q
  unfolding lift
  lift-Triple r h = record { holds = λ s p a e. h a s.db e p }

  pub raise-Triple : (e : ServerError) → Triple P (raise e) Q
  unfolding raise
  raise-Triple e = record { holds = λ s p a h. absurd (cc h) }

  pub pure-Triple : (a : A) → ((d : Db) → P d → Q a d) → Triple P (pure a) Q
  unfolding pure
  pure-Triple a h = record { holds = λ s p b e. subst (λ x. Q x s.db) (cc e) (h s.db p) }

  executed_triple :
      (g : ℕ → Db → A × Db) (s : Conn) (r : Result A × Conn)
      → ((t : ℕ) (d : Db) → P d → Q (g t d).0 (g t d).1)
      → P s.db
      → Executed g s r
      → (a : A) → r.0 ≡ ok a
      → Q a r.1.db
  executed_triple g s r h p (Executed.failed e d n b) a f = absurd (cc (e, f))
  executed_triple g s r h p (Executed.carried_out t n m e d b) a f =
      subst (λ x. Q x r.1.db) (cc (e, f)) (subst (λ x. Q (g t s.db).0 x) (sym d) (h t s.db p))

  pub execute-Triple :
      (g : ℕ → Db → A × Db)
      → ((t : ℕ) (d : Db) → P d → Q (g t d).0 (g t d).1)
      → Triple P (execute g) Q
  execute-Triple g h = record {
    holds = λ s p a e. executed_triple g s (execute g s) h p (execute-Executed g s) a e;
  }

  pub query-Triple :
      (f : ℕ → Db → A) → ((t : ℕ) (d : Db) → P d → Q (f t d) d) → Triple P (query f) Q
  unfolding query
  query-Triple f h = execute-Triple (λ t d. (f t d, d)) h

  pub if-Triple :
      (b : Bool) (m n : Sql A)
      → (b ≡ true → Triple P m Q)
      → (b ≡ false → Triple P n Q)
      → Triple P (if b then m else n) Q
  if-Triple true m n g h = g refl
  if-Triple false m n g h = h refl

  pub weaken-Triple :
      (P' : Db → Type 0) (m : Sql A) → ((d : Db) → P' d → P d) → Triple P m Q → Triple P' m Q
  weaken-Triple P' m f h = record { holds = λ s p a e. h.holds s (f s.db p) a e }

  -- A fact about neither the value nor the tables.
  pub fact-Triple : (m : Sql A) → ((d : Db) → P d → (a : A) (d' : Db) → Q a d') → Triple P m Q
  fact-Triple m h = record { holds = λ s p a e. h s.db p a (m s).1.db }

module _ {A B : Type 0} (P : Db → Type 0) (R : A → Db → Type 0) (Q : B → Db → Type 0) where
  continue_holds :
      (k : A → Sql B)
      → ((a : A) → Triple (R a) (k a) Q)
      → (x : Result A × Conn) → ((a : A) → x.0 ≡ ok a → R a x.1.db)
      → (b : B) → (continue x.0 k x.1).0 ≡ ok b
      → Q b (continue x.0 k x.1).1.db
  continue_holds k h (ok a, s) r b e = (h a).holds s (r a refl) b e
  continue_holds k h (err f, s) r b e = absurd (cc e)

  pub bind-Triple :
      (m : Sql A) (k : A → Sql B)
      → Triple P m R
      → ((a : A) → Triple (R a) (k a) Q)
      → Triple P (m >>= k) Q
  unfolding ◌>>=◌
  bind-Triple m k g h = record {
    holds = λ s p b e. continue_holds k h (m s) (λ a f. g.holds s p a f) b e;
  }

module _ {A : Type 0} (P : Db → Type 0) (Q : A → Db → Type 0) where
  mark-Triple : (R : Db → Type 0) → Triple R mark (λ _ d. R d)
  unfolding mark
  mark-Triple R = execute-Triple R (λ _ d. R d) (λ _ d. (tt, d)) (λ t d p. p)

  committed-Triple : (m : Sql A) → Triple P m Q → Triple P (m >>= λ a. mark >>= λ _. pure a) Q
  committed-Triple m h = bind-Triple P Q Q m _ h (λ a.
      bind-Triple (Q a) (λ _ d. Q a d) Q mark _ (mark-Triple (Q a))
        (λ _. pure-Triple (Q a) Q a (λ d q. q)))

  kept_ok :
      (d : Db) (r : Result A × Conn) (a : A)
      → (rolled_back d r).0 ≡ ok a
      → (r.0 ≡ ok a) × ((rolled_back d r).1.db ≡ r.1.db)
  unfolding rolled_back
  kept_ok d (ok b, s) a e = (e, refl)
  kept_ok d (err x, s) a e = absurd (cc e)

  -- A transaction that returns has committed.
  pub transaction-Triple : (m : Sql A) → Triple P m Q → Triple P (transaction m) Q
  unfolding transaction
  transaction-Triple m h =
      bind-Triple P (λ _ d. P d) Q mark _ (mark-Triple P)
        (λ _. record {
          holds = λ s p a e.
              let k = kept_ok s.db ((m >>= λ a. mark >>= λ _. pure a) s) a e in
              subst (Q a) (sym k.1) ((committed-Triple m h).holds s p a k.0);
        })
