-- ===== src/Base/Sorting.antt =====
-- ORDER BY a text column: SQLite's BINARY collation compares bytes.
use mathlib.Core.Path.{◌≡◌, refl}
use mathlib.Core.Logic.{inl, inr}
use mathlib.Core.Bool.{Bool, true, false, ◌&&◌, ◌||◌}
use mathlib.Core.List.{List, [], ◌∷◌, Perm}
use mathlib.Core.List.Perm
use native.Mathlib.Omega.{arith}
use vaultcrdt_server.Base.Tests.{ltb, nat_beq, if◌then◌else◌, Bool-cases}
use vaultcrdt_server.Base.Texts.{Text}

-- `memcmp`, and a prefix comes first.
unfoldable pub text_le : Text → Text → Bool
text_le [] ys = true
text_le (x ∷ xs) [] = false
text_le (x ∷ xs) (y ∷ ys) = ltb x y || nat_beq x y && text_le xs ys

pub text_le_total : (xs ys : Text) → text_le xs ys ≡ false → text_le ys xs ≡ true
unfolding text_le
text_le_total [] ys h = absurd (cc h)
text_le_total (x ∷ xs) [] h = refl
text_le_total (x ∷ xs) (y ∷ ys) h = ground (arith, text_le_total xs ys)

module _ {ℓ} {A : Type ℓ} (key : A → Text) where
  unfoldable pub insert_by : A → List A → List A
  insert_by a [] = a ∷ []
  insert_by a (b ∷ bs) = if text_le (key a) (key b) then a ∷ b ∷ bs else b ∷ insert_by a bs

  unfoldable pub sort_by : List A → List A
  unfolding insert_by
  sort_by [] = []
  sort_by (a ∷ rest) = insert_by a (sort_by rest)

  -- Each key is at most the next.
  abbrev pub HeadLe : A → List A → Type 0
  HeadLe a [] = Unit
  HeadLe a (b ∷ bs) = text_le (key a) (key b) ≡ true

  abbrev pub IsSorted : List A → Type 0
  IsSorted [] = Unit
  IsSorted (a ∷ rest) = HeadLe a rest × IsSorted rest

  insert_by-HeadLe :
      (a b : A) (bs : List A)
      → text_le (key b) (key a) ≡ true
      → HeadLe b bs
      → HeadLe b (insert_by a bs)
  unfolding insert_by
  insert_by-HeadLe a b [] h k = h
  insert_by-HeadLe a b (c ∷ cs) h k = ground arith

  insert_by-IsSorted : (a : A) (bs : List A) → IsSorted bs → IsSorted (insert_by a bs)
  unfolding insert_by
  insert_by-IsSorted a [] h = (tt, tt)
  insert_by-IsSorted a (b ∷ bs) h = elim (Bool-cases (text_le (key a) (key b))) [
    | inl e ↦ rw e (e, h)
    | inr e ↦
        rw e (
          insert_by-HeadLe a b bs (text_le_total (key a) (key b) e) h.0,
          insert_by-IsSorted a bs h.1,
        )
  ]

  pub sort_by-IsSorted : (xs : List A) → IsSorted (sort_by xs)
  unfolding sort_by
  sort_by-IsSorted [] = tt
  sort_by-IsSorted (a ∷ rest) = insert_by-IsSorted a (sort_by rest) (sort_by-IsSorted rest)

  insert_by-perm : (a : A) (bs : List A) → Perm (insert_by a bs) (a ∷ bs)
  unfolding insert_by
  insert_by-perm a [] = Perm.refl (a ∷ [])
  insert_by-perm a (b ∷ bs) = elim (Bool-cases (text_le (key a) (key b))) [
    | inl e ↦ rw e (Perm.refl _)
    | inr e ↦ rw e (Perm.trans (Perm.cons b (insert_by-perm a bs)) (Perm.swap a b bs))
  ]

  pub sort_by-perm : (xs : List A) → Perm (sort_by xs) xs
  unfolding sort_by
  sort_by-perm [] = Perm.refl []
  sort_by-perm (a ∷ rest) =
      Perm.trans (insert_by-perm a (sort_by rest)) (Perm.cons a (sort_by-perm rest))
