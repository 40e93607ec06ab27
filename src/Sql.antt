-- ===== src/Sql.antt =====
-- A connection (`Db::lock`) and the actions on it. A statement may fail, and takes time: what the
-- environment does is a list of outcomes, one for each statement to come; past its end no
-- statement fails. A transaction that ends in an error is rolled back.
pub mod Refines
pub mod Sequence
pub mod Transactions
pub mod Reading
pub mod Results
pub mod Triples
use vaultcrdt_server.Base.{
  if◌then◌else◌, tests, nat_eq, list_eq, option_eq, pair_eq, ℕ, zero, suc, ◌+◌, Bool, List, [], ◌∷◌,
  arith,
}
use vaultcrdt_server.Errors.{ServerError, statement_failed, Result, ok, err}
use vaultcrdt_server.Errors
use vaultcrdt_server.Db.{Db}

pub record Outcome : Type 0 where
  pub fails : Bool
  pub delay : ℕ

pub record Conn : Type 0 where
  pub db : Db
  pub now : ℕ
  pub outcomes : List Outcome

abbrev pub Sql {ℓ} : Type ℓ → Type ℓ
Sql A = Conn → Result A × Conn

module _ {ℓ} {A : Type ℓ} where
  unfoldable pub pure : A → Sql A
  pure a s = (ok a, s)

  unfoldable pub raise : ServerError → Sql A
  raise e s = (err e, s)

  unfoldable pub lift : Result A → Sql A
  lift r s = (r, s)

module _ {ℓ κ} {A : Type ℓ} {B : Type κ} where
  abbrev pub continue : Result A → (A → Sql B) → Sql B
  continue (ok a) f s = f a s
  continue (err e) f s = (err e, s)

  infixl 10 ◌>>=◌
  unfoldable pub ◌>>=◌ : Sql A → (A → Sql B) → Sql B
  ◌>>=◌ m f s = let (r, s') = m s in continue r f s'

abbrev pub db_failed : ServerError
db_failed = ServerError.db statement_failed

spend : List Outcome → Conn → Result (Unit {0}) × Conn
spend [] s = (ok tt, s)
spend (o ∷ rest) s =
    let s' = record s { now = s.now + o.delay; outcomes = rest } in
    if o.fails then (err db_failed, s') else (ok tt, s')

module _ {ℓ} {A : Type ℓ} where
  -- One statement reaches SQLite, and either fails with no effect or is carried out.
  unfoldable pub execute : (ℕ → Db → A × Db) → Sql A
  unfolding spend
  execute g s =
      let (r, s') = spend s.outcomes s in
      continue r (λ _ s''. let (a, d) = g s''.now s''.db in (ok a, record s'' { db = d })) s'

  -- A statement that only reads.
  unfoldable pub query : (ℕ → Db → A) → Sql A
  unfolding execute
  query f = execute (λ t d. (f t d, d))

-- BEGIN and COMMIT
unfoldable pub mark : Sql (Unit {0})
unfolding execute
mark = execute (λ _ d. (tt, d))

module _ {ℓ} {A : Type ℓ} where
  unfoldable pub rolled_back : Db → Result A × Conn → Result A × Conn
  rolled_back d (ok a, s) = (ok a, s)
  rolled_back d (err e, s) = (err e, record s { db = d })

  -- `conn.transaction()`, the body, `tx.commit()`; a `Transaction` that is dropped rolls back.
  unfoldable pub transaction : Sql A → Sql A
  unfolding mark rolled_back
  transaction body = do _ ← mark; λ s. rolled_back s.db ((do a ← body; _ ← mark; pure a) s)
