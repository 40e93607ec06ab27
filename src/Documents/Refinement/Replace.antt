-- ===== src/Documents/Refinement/Replace.antt =====
-- `store_snapshot_replacing_tombstone` does what `stored_anew` says.
use vaultcrdt_server.Base.{nat_eq, list_eq, option_eq, pair_eq, Bytes, Text, ℕ, ◌≡◌, refl, arith}
use vaultcrdt_server.Errors.{ok}
use vaultcrdt_server.Db.{Db}
use vaultcrdt_server.Sql.{pure, lift, ◌>>=◌, execute}
use vaultcrdt_server.Sql.Refines.{Spec, Runs, Refines, Refines-Runs, Refines-lift, Refines-ext}
use vaultcrdt_server.Sql.Sequence.{Runs-bind, Runs-step}
use vaultcrdt_server.Sql.Transactions.{undone, Refines-transaction}
use vaultcrdt_server.Documents.{
  allocate_incarnation, replace_document, drop_tombstone, store_snapshot_replacing_tombstone,
}
use vaultcrdt_server.Documents.Spec.{allocated, stored_anew}
use vaultcrdt_server.Documents.Refinement.{Always, allocate-Runs}

module _ (v u : Text) (snapshot vv : Bytes) where
  write_anew : ℕ → Spec ℕ
  write_anew n t d = (ok n, drop_tombstone (v, u) (replace_document (v, u) snapshot vv n t d))

  clear-Runs :
      (n : ℕ)
      → Runs Always
          (execute (λ _ d. (tt {0}, drop_tombstone (v, u) d)) >>= λ _. pure n)
          (λ t d. (ok n, drop_tombstone (v, u) d))
  unfolding pure lift
  clear-Runs n =
      Runs-step Always (λ _ _. Unit) (λ _ d. (tt {0}, drop_tombstone (v, u) d)) (λ _ _ d. (ok n, d))
        _ (λ _. pure n) (λ _. Refines-Runs _ _ _ (Refines-lift _ (ok n) _ (λ t d p. refl)))
        (λ t d p. tt) (λ t w d p. record { time = t; bound = omega arith; equal = refl })

  write_anew-Runs :
      (n : ℕ)
      → Runs Always
          (execute (λ t d. (tt {0}, replace_document (v, u) snapshot vv n t d)) >>= λ _.
            execute (λ _ d. (tt {0}, drop_tombstone (v, u) d)) >>= λ _. pure n)
          (write_anew n)
  unfolding write_anew
  write_anew-Runs n =
      Runs-step Always (λ _ _. Unit) (λ t d. (tt {0}, replace_document (v, u) snapshot vv n t d))
        (λ _ t d. (ok n, drop_tombstone (v, u) d)) (write_anew n) _ (λ _. clear-Runs n)
        (λ t d p. tt) (λ t w d p. record { time = t; bound = omega arith; equal = refl })

  undone-stored_anew :
      (t : ℕ) (d : Db)
      → undone d (stored_anew v u snapshot vv t d) ≡ stored_anew v u snapshot vv t d
  undone-stored_anew t d = ground arith

  -- Storing over a tombstone gives the row the vault's next token and takes the tombstone away, in
  -- one step: a statement that fails, or a vault with no token left, changes nothing.
  pub store_snapshot_replacing_tombstone-Refines :
      Refines
        (λ _. Unit)
        (store_snapshot_replacing_tombstone v u snapshot vv)
        (stored_anew v u snapshot vv)
  unfolding store_snapshot_replacing_tombstone write_anew
  store_snapshot_replacing_tombstone-Refines =
      Refines-ext Always _ _ _
        (Refines-transaction Always (stored_anew v u snapshot vv) _ (
          Runs-bind Always (λ _ _. Unit) (allocated v) write_anew (stored_anew v u snapshot vv)
            (allocate_incarnation v) _ (allocate-Runs v) write_anew-Runs (λ t n d p e. tt)
            (λ t w d p. record { time = w; bound = omega arith; equal = refl })))
        (λ d p. p) (λ t d p. undone-stored_anew t d)
