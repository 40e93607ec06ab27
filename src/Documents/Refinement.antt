-- ===== src/Documents/Refinement.antt =====
-- The document functions do what their descriptions say, or fail and change nothing: here the
-- allocation of a token, in the children the three functions.
pub mod Store
pub mod Replace
pub mod Delete
use vaultcrdt_server.Base.{
  tests, nat_eq, list_eq, option_eq, pair_eq, Text, ℕ, zero, suc, ◌-◌, ◌≡◌, refl, Option, none,
  some, arith,
}
use vaultcrdt_server.Errors.{ServerError, ok, err, or_fail, incarnation_space_exhausted}
use vaultcrdt_server.Db.{Db}
use vaultcrdt_server.Sql.{pure, lift, ◌>>=◌}
use vaultcrdt_server.Sql.Refines.{Spec, Runs, Refines-Runs, Refines-lift}
use vaultcrdt_server.Sql.Sequence.{Runs-step}
use vaultcrdt_server.Documents.{bump_incarnation, allocate_incarnation}
use vaultcrdt_server.Documents.Spec.{allocated}

abbrev pub Always : Db → Type 0
Always d = Unit

given : Option ℕ → Spec ℕ
given none t d = (err (ServerError.db incarnation_space_exhausted), d)
given (some n) t d = (ok (n - 1), d)

given-Runs :
    (next : Option ℕ)
    → Runs Always
        (lift (or_fail next (ServerError.db incarnation_space_exhausted)) >>= λ n. pure (n - 1))
        (given next)
unfolding given lift pure ◌>>=◌
given-Runs none = Refines-Runs _ _ _ (Refines-lift _ (err _) _ (λ t d p. refl))
given-Runs (some n) = Refines-Runs _ _ _ (Refines-lift _ (ok _) _ (λ t d p. refl))

given-bump :
    (v : Text) (t u : ℕ) (d : Db)
    → given (bump_incarnation v d).0 u (bump_incarnation v d).1 ≡ allocated v u d
unfolding given bump_incarnation
given-bump v t u d = ground arith

pub allocate-Runs : (v : Text) → Runs Always (allocate_incarnation v) (allocated v)
unfolding allocate_incarnation
allocate-Runs v =
    Runs-step Always (λ _ _. Unit) (λ _ d. bump_incarnation v d) given (allocated v) _ given-Runs
      (λ t d p. tt)
      (λ t u d p. record { time = u; bound = omega arith; equal = given-bump v t u d })
