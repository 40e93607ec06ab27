-- ===== src/Table/Laws.antt =====
-- The laws of a table: what `find` sees after each statement. Where rows are deleted by a test,
-- the keys have to be distinct, which every statement keeps.
use vaultcrdt_server.Base.{
  ◌⊎◌, inl, inr, is_some, ◌+◌, ◌≤◌, ◌≡◌, refl, Bool, true, Bool-cases, [], ◌∷◌, Option, none, some,
  arith, Eq, ◌==◌, if◌then◌else◌, length,
}
use vaultcrdt_server.Table.{Table, find, put, remove, delete_where, count_where}

module _ {ℓ} {K V : Type ℓ} ⦃e : Eq K⦄ where
  pub find-put :
      (k j : K) (v : V) (t : Table K V) → find j (put k v t) ≡ (if k == j then some v else find j t)
  unfolding find put
  find-put k j v [] = refl
  find-put k j v ((i, w) ∷ t) =
      ground (arith, find-put k j v t, e.decides i k, e.decides i j, e.decides k j)

  pub find-remove :
      (k j : K) (t : Table K V) → find j (remove k t) ≡ (if k == j then none else find j t)
  unfolding find remove
  find-remove k j [] = ground arith
  find-remove k j ((i, w) ∷ t) =
      ground (arith, find-remove k j t, e.decides i k, e.decides i j, e.decides k j)

  pub find-put_self : (k : K) (v : V) (t : Table K V) → find k (put k v t) ≡ some v
  find-put_self k v t = ground (arith, find-put k k v t, e.decides k k)

  pub find-remove_self : (k : K) (t : Table K V) → find k (remove k t) ≡ none
  find-remove_self k t = ground (arith, find-remove k k t, e.decides k k)

  -- No two rows have one key.
  abbrev pub HasKeys : Table K V → Type ℓ
  HasKeys [] = Unit
  HasKeys ((k, v) ∷ t) = (find k t ≡ none) × HasKeys t

  pub put-HasKeys : (k : K) (v : V) (t : Table K V) → HasKeys t → HasKeys (put k v t)
  unfolding put find
  put-HasKeys k v [] h = (refl, tt)
  put-HasKeys k v ((i, w) ∷ t) h =
      ground (arith, put-HasKeys k v t h.1, find-put k i v t, e.decides i k, e.decides k i)

  pub remove-HasKeys : (k : K) (t : Table K V) → HasKeys t → HasKeys (remove k t)
  unfolding remove find
  remove-HasKeys k [] h = tt
  remove-HasKeys k ((i, w) ∷ t) h =
      ground (arith, remove-HasKeys k t h.1, find-remove k i t, e.decides i k, e.decides k i)

  abbrev pub keep_unless : (K → V → Bool) → K → Option V → Option V
  keep_unless p k none = none
  keep_unless p k (some v) = if p k v then none else some v

  pub find-delete_where-none :
      (p : K → V → Bool) (k : K) (t : Table K V)
      → find k t ≡ none
      → find k (delete_where p t) ≡ none
  unfolding find delete_where
  find-delete_where-none p k [] h = refl
  find-delete_where-none p k ((i, w) ∷ t) h = ground (arith, find-delete_where-none p k t)

  pub delete_where-HasKeys :
      (p : K → V → Bool) (t : Table K V) → HasKeys t → HasKeys (delete_where p t)
  unfolding delete_where
  delete_where-HasKeys p [] h = tt
  delete_where-HasKeys p ((i, w) ∷ t) h =
      ground (arith, delete_where-HasKeys p t h.1, find-delete_where-none p i t)

  pub find-delete_where :
      (p : K → V → Bool) (k : K) (t : Table K V)
      → HasKeys t
      → find k (delete_where p t) ≡ keep_unless p k (find k t)
  unfolding find delete_where
  find-delete_where p k [] h = refl
  find-delete_where p k ((i, w) ∷ t) h =
      ground (arith, find-delete_where p k t h.1, find-delete_where-none p k t, e.decides i k)

  pub count-delete_where :
      (p : K → V → Bool) (t : Table K V) → length (delete_where p t) + count_where p t ≡ length t
  unfolding delete_where count_where
  count-delete_where p [] = refl
  count-delete_where p ((i, w) ∷ t) = ground (arith, count-delete_where p t)

  -- A row that is found after a write was written, or was there.
  pub put-cases :
      (k j : K) (v w : V) (t : Table K V)
      → find j (put k v t) ≡ some w
      → ((k ≡ j) × (w ≡ v)) ⊎ (find j t ≡ some w)
  put-cases k j v w t h = ground (arith, find-put k j v t, e.decides k j)

  pub remove-cases :
      (k j : K) (w : V) (t : Table K V) → find j (remove k t) ≡ some w → find j t ≡ some w
  remove-cases k j w t h = ground (arith, find-remove k j t)

  -- A row that satisfies `p` is counted, and a count that is not 0 has such a row.
  pub count_where-found :
      (p : K → V → Bool) (k : K) (v : V) (t : Table K V)
      → find k t ≡ some v
      → p k v ≡ true
      → 1 ≤ count_where p t
  unfolding find count_where
  count_where-found p k v [] h g = absurd (cc h)
  count_where-found p k v ((i, w) ∷ t) h g =
      ground (arith, count_where-found p k v t, e.decides i k)

  abbrev pub Found : (K → V → Bool) → Table K V → Type ℓ
  Found p t = (k : K) × (v : V) × (find k t ≡ some v) × (p k v ≡ true)

  Found-later :
      (p : K → V → Bool) (i : K) (w : V) (t : Table K V)
      → find i t ≡ none
      → Found p t
      → Found p ((i, w) ∷ t)
  unfolding find
  Found-later p i w t h (k, v, f, g) = (k, v, ground (arith, e.decides i k), g)

  pub Found-count_where :
      (p : K → V → Bool) (t : Table K V) → HasKeys t → 1 ≤ count_where p t → Found p t
  unfolding find count_where
  Found-count_where p [] h c = absurd (omega arith)
  Found-count_where p ((i, w) ∷ t) h c = elim (Bool-cases (p i w)) [
    | inl y ↦ (i, w, ground (arith, e.decides i i), y)
    | inr n ↦ Found-later p i w t h.0 (Found-count_where p t h.1 (ground arith))
  ]

  pub length-put :
      (k : K) (v : V) (t : Table K V)
      → length (put k v t) ≡ (if is_some (find k t) then length t else length t + 1)
  unfolding put find
  length-put k v [] = refl
  length-put k v ((i, w) ∷ t) = ground (arith, length-put k v t, e.decides i k)
