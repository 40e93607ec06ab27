-- ===== src/Table.antt =====
-- A SQL table with a primary key, as the list of its rows (key and the other columns). The order
-- of the rows is not specified by SQL; a query that has no ORDER BY does not depend on it.
pub mod Laws
use vaultcrdt_server.Base.{ℕ, Bool, List, [], ◌∷◌, Option, none, some, Eq, ◌==◌, if◌then◌else◌}

abbrev pub Table {ℓ} : Type ℓ → Type ℓ → Type ℓ
Table K V = List (K × V)

module _ {ℓ} {K V : Type ℓ} ⦃e : Eq K⦄ where
  -- SELECT … WHERE the key is `k`
  unfoldable pub find : K → Table K V → Option V
  find k [] = none
  find k ((j, v) ∷ t) = if j == k then some v else find k t

  -- INSERT … ON CONFLICT DO UPDATE: the row of `k` becomes `v`.
  unfoldable pub put : K → V → Table K V → Table K V
  put k v [] = (k, v) ∷ []
  put k v ((j, w) ∷ t) = if j == k then (k, v) ∷ t else (j, w) ∷ put k v t

  -- DELETE … WHERE the key is `k`
  unfoldable pub remove : K → Table K V → Table K V
  remove k [] = []
  remove k ((j, v) ∷ t) = let rest = remove k t in if j == k then rest else (j, v) ∷ rest

module _ {ℓ} {K V : Type ℓ} where
  -- DELETE … WHERE `p`
  unfoldable pub delete_where : (K → V → Bool) → Table K V → Table K V
  delete_where p [] = []
  delete_where p ((k, v) ∷ t) = let rest = delete_where p t in if p k v then rest else (k, v) ∷ rest

  -- SELECT COUNT(*) … WHERE `p`
  unfoldable pub count_where : (K → V → Bool) → Table K V → ℕ
  count_where p [] = 0
  count_where p ((k, v) ∷ t) =
      let rest = count_where p t in if p k v then Prim.Native.Nat.suc rest else rest

  -- SELECT `f` … WHERE `p`, in the order of the rows
  unfoldable pub select_where {κ} : {B : Type κ} → (K → V → Bool) → (K → V → B) → Table K V → List B
  select_where p f [] = []
  select_where p f ((k, v) ∷ t) =
      let rest = select_where p f t in if p k v then f k v ∷ rest else rest
