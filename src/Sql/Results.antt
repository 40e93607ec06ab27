-- ===== src/Sql/Results.antt =====
-- What holds of every value that an action returns.
use vaultcrdt_server.Base.{
  if◌then◌else◌, nat_eq, list_eq, option_eq, pair_eq, ◌≡◌, ap, subst, Bool, true, false,
}
use vaultcrdt_server.Errors.{ServerError, Result, ok, err}
use vaultcrdt_server.Sql.{Conn, Sql, pure, raise, lift, continue, ◌>>=◌}

pub record Gives {A : Type 0} (Q : A → Type 0) (m : Sql A) : Type 0 where
  pub gives : (s : Conn) (a : A) → (m s).0 ≡ ok a → Q a

ok_value {ℓ} : {A : Type ℓ} → A → Result A → A
ok_value a (ok b) = b
ok_value a (err e) = a

module _ {A : Type 0} (Q : A → Type 0) where
  pub lift-Gives : (r : Result A) → ((a : A) → r ≡ ok a → Q a) → Gives Q (lift r)
  unfolding lift
  lift-Gives r h = record { gives = λ s a e. h a e }

  pub pure-Gives : (a : A) → Q a → Gives Q (pure a)
  unfolding pure ok_value
  pure-Gives a q = record { gives = λ s b e. subst Q (ap (ok_value a) e) q }

  pub raise-Gives : (e : ServerError) → Gives Q (raise e)
  unfolding raise
  raise-Gives e = record { gives = λ s a h. absurd (cc h) }

module _ {A B : Type 0} (Q : B → Type 0) where
  continue_gives :
      (k : A → Sql B)
      → ((a : A) → Gives Q (k a))
      → (x : Result A × Conn) (b : B) → (continue x.0 k x.1).0 ≡ ok b
      → Q b
  continue_gives k h (ok a, s) b e = (h a).gives s b e
  continue_gives k h (err f, s) b e = absurd (cc e)

  pub bind-Gives : (m : Sql A) (k : A → Sql B) → ((a : A) → Gives Q (k a)) → Gives Q (m >>= k)
  unfolding ◌>>=◌
  bind-Gives m k h = record { gives = λ s b e. continue_gives k h (m s) b e }

module _ {A : Type 0} (Q : A → Type 0) where
  pub if-Gives : (b : Bool) (m n : Sql A) → Gives Q m → Gives Q n → Gives Q (if b then m else n)
  if-Gives true m n g h = g
  if-Gives false m n g h = h
