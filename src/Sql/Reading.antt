-- ===== src/Sql/Reading.antt =====
-- Actions that leave the tables as they are, whether or not a statement fails, and what relates the
-- tables before and after an action that refines a description.
use vaultcrdt_server.Base.{
  nat_eq, list_eq, option_eq, pair_eq, ℕ, ◌≡◌, refl, sym, ◌∙◌, subst, inl, inr,
}
use vaultcrdt_server.Errors.{ServerError, Result, ok, err}
use vaultcrdt_server.Db.{Db}
use vaultcrdt_server.Sql.{Conn, Sql, pure, raise, lift, continue, ◌>>=◌, query}
use vaultcrdt_server.Sql.Refines.{Spec, Refines, Executed, execute-Executed}

pub record IsReading {A : Type 0} (m : Sql A) : Type 0 where
  pub quiet : (s : Conn) → (m s).1.db ≡ s.db

module _ {A : Type 0} where
  pub lift-IsReading : (r : Result A) → IsReading (lift r)
  unfolding lift
  lift-IsReading r = record { quiet = λ s. refl }

  pub raise-IsReading : (e : ServerError) → IsReading (raise {A = A} e)
  unfolding raise
  raise-IsReading e = record { quiet = λ s. refl }

  pub pure-IsReading : (a : A) → IsReading (pure a)
  unfolding pure
  pure-IsReading a = record { quiet = λ s. refl }

  Executed-quiet :
      (f : ℕ → Db → A) (s : Conn) (r : Result A × Conn)
      → Executed (λ t d. (f t d, d)) s r
      → r.1.db ≡ s.db
  Executed-quiet f s r (Executed.failed e d n b) = d
  Executed-quiet f s r (Executed.carried_out t a b e d c) = d

  pub query-IsReading : (f : ℕ → Db → A) → IsReading (query f)
  unfolding query
  query-IsReading f = record {
    quiet = λ s. Executed-quiet f s _ (execute-Executed (λ t d. (f t d, d)) s);
  }

module _ {A B : Type 0} where
  continue_quiet :
      (k : A → Sql B)
      → ((a : A) → IsReading (k a))
      → (x : Result A × Conn) → (continue x.0 k x.1).1.db ≡ x.1.db
  continue_quiet k h (ok a, s) = (h a).quiet s
  continue_quiet k h (err e, s) = refl

  pub bind-IsReading :
      (m : Sql A) (k : A → Sql B) → IsReading m → ((a : A) → IsReading (k a)) → IsReading (m >>= k)
  unfolding ◌>>=◌
  bind-IsReading m k g h = record { quiet = λ s. continue_quiet k h (m s) ∙ g.quiet s }

-- A relation that holds of a state and itself, and of a state and what `spec` makes of it.
pub Refines-relates :
    {A : Type 0} (R : Db → Db → Type 0) (P : Db → Type 0) (m : Sql A) (spec : Spec A)
    → Refines P m spec
    → ((d : Db) → R d d)
    → ((t : ℕ) (d : Db) → P d → R d (spec t d).1)
    → (s : Conn) → P s.db
    → R s.db (m s).1.db
Refines-relates R P m spec h same keep s p = elim ((h.meet s p).outcome) [
  | inl f ↦ subst (R s.db) (sym f.1) (same s.db)
  | inr w ↦ subst (R s.db) (sym w.tables) (keep w.at s.db p)
]

-- An action that relates the tables before it to those after it, faults or not.
pub record IsWithin {A : Type 0} (R : Db → Db → Type 0) (m : Sql A) : Type 0 where
  pub within : (s : Conn) → R s.db (m s).1.db

module _ (R : Db → Db → Type 0) where
  pub IsReading-IsWithin :
      {A : Type 0} (m : Sql A) → ((d : Db) → R d d) → IsReading m → IsWithin R m
  IsReading-IsWithin m same h = record {
    within = λ s. subst (R s.db) (sym (h.quiet s)) (same s.db);
  }

  pub Refines-IsWithin :
      {A : Type 0} (m : Sql A) (spec : Spec A)
      → Refines (λ _. Unit {0}) m spec
      → ((d : Db) → R d d)
      → ((t : ℕ) (d : Db) → R d (spec t d).1)
      → IsWithin R m
  Refines-IsWithin m spec h same keep = record {
    within = λ s. Refines-relates R (λ _. Unit) m spec h same (λ t d _. keep t d) s tt;
  }

  continue_within :
      {A B : Type 0} (k : A → Sql B) (d : Db)
      → ((a : A) → IsWithin R (k a))
      → (x : Result A × Conn) → x.1.db ≡ d
      → R d d
      → R d (continue x.0 k x.1).1.db
  continue_within k d h (ok a, s) e same = subst (λ c. R c (k a s).1.db) e ((h a).within s)
  continue_within k d h (err b, s) e same = subst (R d) (sym e) same

  pub bind-IsWithin :
      {A B : Type 0} (m : Sql A) (k : A → Sql B)
      → ((d : Db) → R d d)
      → IsReading m
      → ((a : A) → IsWithin R (k a))
      → IsWithin R (m >>= k)
  unfolding ◌>>=◌
  bind-IsWithin m k same g h = record {
    within = λ s. continue_within k s.db h (m s) (g.quiet s) (same s.db);
  }
