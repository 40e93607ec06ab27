-- ===== src/Documents/Refinement/Store.antt =====
-- `store_snapshot_with_vv` does what `stored` says.
use vaultcrdt_server.Base.{
  nat_eq, list_eq, option_eq, pair_eq, Bytes, Text, ℕ, ◌≡◌, refl, ap, Option, none, some, arith,
}
use vaultcrdt_server.Errors.{ok}
use vaultcrdt_server.Db.{Db}
use vaultcrdt_server.Sql.{pure, lift, ◌>>=◌, query, execute}
use vaultcrdt_server.Sql.Refines.{Spec, Runs, Refines, Refines-Runs, Refines-lift, Refines-ext}
use vaultcrdt_server.Sql.Sequence.{chain, Runs-bind, Runs-step}
use vaultcrdt_server.Sql.Transactions.{undone, Refines-transaction}
use vaultcrdt_server.Documents.{
  use_or_allocate, existing_incarnation, upsert_document, replace_document, store_snapshot_with_vv,
}
use vaultcrdt_server.Documents.Spec.{allocated, stored}
use vaultcrdt_server.Documents.Refinement.{Always, allocate-Runs}

module _ (v u : Text) (snapshot vv : Bytes) where
  write_kept : ℕ → Spec ℕ
  write_kept n t d = (ok n, upsert_document (v, u) snapshot vv n t d)

  write_kept-Runs :
      (n : ℕ)
      → Runs Always
          (execute (λ t d. (tt {0}, upsert_document (v, u) snapshot vv n t d)) >>= λ _. pure n)
          (write_kept n)
  unfolding write_kept pure lift
  write_kept-Runs n =
      Runs-step Always (λ _ _. Unit) (λ t d. (tt {0}, upsert_document (v, u) snapshot vv n t d))
        (λ _ _ d. (ok n, d)) (write_kept n) (λ _. pure n)
        (λ _. Refines-Runs _ _ _ (Refines-lift _ (ok n) _ (λ t d p. refl))) (λ t d p. tt)
        (λ t u d p. record { time = t; bound = omega arith; equal = refl })

  token_for : Option ℕ → Spec ℕ
  token_for (some token) t d = (ok token, d)
  token_for none t d = allocated v t d

  token_for-Runs : (a : Option ℕ) → Runs Always (use_or_allocate a v) (token_for a)
  unfolding token_for use_or_allocate pure lift
  token_for-Runs (some n) = Refines-Runs _ _ _ (Refines-lift _ (ok n) _ (λ t d p. refl))
  token_for-Runs none = allocate-Runs v

  -- A live row keeps its token, and a new one has the token that it was given.
  kept-same :
      (t w : ℕ) (d : Db)
      → chain (token_for (existing_incarnation (v, u) d) t d) write_kept w
        ≡ stored v u snapshot vv w d
  unfolding token_for write_kept existing_incarnation upsert_document replace_document
  kept-same t w d = ground arith

  token_for-time : (a : Option ℕ) (t w : ℕ) (d : Db) → token_for a t d ≡ token_for a w d
  unfolding token_for
  token_for-time (some n) t w d = refl
  token_for-time none t w d = refl

  then_write : Option ℕ → Spec ℕ
  then_write a w d = chain (token_for a w d) write_kept w

  then_write-Runs :
      (a : Option ℕ)
      → Runs Always
          (use_or_allocate a v >>= λ n.
            execute (λ t d. (tt {0}, upsert_document (v, u) snapshot vv n t d)) >>= λ _. pure n)
          (then_write a)
  unfolding then_write
  then_write-Runs a =
      Runs-bind Always (λ _ _. Unit) (token_for a) write_kept (then_write a) (use_or_allocate a v) _
        (token_for-Runs a) write_kept-Runs (λ t n d p e. tt)
        (λ t w d p. record {
          time = w;
          bound = omega arith;
          equal = ap (λ x. chain x write_kept w) (token_for-time a t w d);
        })

  undone-stored :
      (t : ℕ) (d : Db) → undone d (stored v u snapshot vv t d) ≡ stored v u snapshot vv t d
  undone-stored t d = ground arith

  -- Storing a snapshot keeps the token of a live row and gives a new row the vault's next one, all
  -- in one step: a statement that fails, or a vault with no token left, changes nothing.
  pub store_snapshot_with_vv-Refines :
      Refines (λ _. Unit) (store_snapshot_with_vv v u snapshot vv) (stored v u snapshot vv)
  unfolding store_snapshot_with_vv query then_write
  store_snapshot_with_vv-Refines =
      Refines-ext Always _ _ _
        (Refines-transaction Always (stored v u snapshot vv) _ (
          Runs-step Always (λ _ _. Unit) (λ _ d. (existing_incarnation (v, u) d, d)) then_write
            (stored v u snapshot vv) _ then_write-Runs (λ t d p. tt)
            (λ t w d p. record { time = w; bound = omega arith; equal = kept-same w w d })))
        (λ d p. p) (λ t d p. undone-stored t d)
