-- ===== src/Base/Strings.antt =====
-- The language's searches and splits of strings, at one-byte separators, with their laws.
use Prim.Native.Nat.{ℕ, ◌+◌}
use mathlib.Core.Path.{◌≡◌, refl, sym, ap, ◌∙◌}
use mathlib.Core.Logic.{inl, inr}
use mathlib.Core.Bool.{Bool, false, ◌&&◌}
use mathlib.Core.Option.{Option, none, some}
use mathlib.Core.List.{List, [], ◌∷◌, ◌++◌, map}
use native.Mathlib.Omega.{arith}
use vaultcrdt_server.Base.Tests.{leb, nat_beq, if◌then◌else◌, is_some, Bool-cases, nat_beq_iff}
use vaultcrdt_server.Base.Lists.{any, All}
use vaultcrdt_server.Base.Texts.{Text}

unfoldable pub strip_prefix : Text → Text → Option Text
strip_prefix [] s = some s
strip_prefix (p ∷ ps) [] = none
strip_prefix (p ∷ ps) (c ∷ cs) = let rest = strip_prefix ps cs in if nat_beq p c then rest else none

abbrev pub starts_with : Text → Text → Bool
starts_with p s = is_some (strip_prefix p s)

abbrev pub has : ℕ → Text → Bool
has d s = any (λ c. nat_beq c d) s

unfoldable pub ends_with : ℕ → Text → Bool
ends_with d [] = false
ends_with d (c ∷ []) = nat_beq c d
ends_with d (c ∷ e ∷ cs) = ends_with d (e ∷ cs)

abbrev pub before : ℕ → Option (Text × Text) → Option (Text × Text)
before c none = none
before c (some (a, b)) = some (c ∷ a, b)

-- At the first separator.
unfoldable pub split_once : ℕ → Text → Option (Text × Text)
split_once d [] = none
split_once d (c ∷ cs) =
    let rest = split_once d cs in if nat_beq c d then some ([], cs) else before c rest

abbrev pub or_here : Option (Text × Text) → Option (Text × Text) → Option (Text × Text)
or_here (some p) here = some p
or_here none here = here

-- At the last separator.
unfoldable pub rsplit_once : ℕ → Text → Option (Text × Text)
rsplit_once d [] = none
rsplit_once d (c ∷ cs) =
    or_here (before c (rsplit_once d cs)) (if nat_beq c d then some ([], cs) else none)

abbrev pub push_front : ℕ → List Text → List Text
push_front c [] = (c ∷ []) ∷ []
push_front c (s ∷ ss) = (c ∷ s) ∷ ss

unfoldable pub split : ℕ → Text → List Text
split d [] = [] ∷ []
split d (c ∷ cs) = let rest = split d cs in if nat_beq c d then [] ∷ rest else push_front c rest

unfoldable pub last_of : List Text → Text
last_of [] = []
last_of (s ∷ []) = s
last_of (s ∷ t ∷ ss) = last_of (t ∷ ss)

abbrev pub ascii_lower : ℕ → ℕ
ascii_lower c = if leb b'A' c && leb c b'Z' then c + 32 else c

abbrev pub to_ascii_lowercase : Text → Text
to_ascii_lowercase s = map ascii_lower s

-- The parts with separators between them.
unfoldable pub join : ℕ → List Text → Text
join d [] = []
join d (s ∷ []) = s
join d (s ∷ t ∷ ss) = s ++ d ∷ join d (t ∷ ss)

join-push_front : (d c : ℕ) (ss : List Text) → join d (push_front c ss) ≡ c ∷ join d ss
unfolding join
join-push_front d c [] = refl
join-push_front d c (s ∷ []) = refl
join-push_front d c (s ∷ t ∷ ss) = refl

-- There is always a first part.
split_first : (d : ℕ) (s : Text) → (t : Text) × (ts : List Text) × (split d s ≡ t ∷ ts)
unfolding split
split_first d [] = ([], [], refl)
split_first d (c ∷ cs) = elim (Bool-cases (nat_beq c d)) [
  | inl here ↦ ([], split d cs, rw here)
  | inr on ↦ let (t, ts, e) = split_first d cs in (c ∷ t, ts, rw (on) (ap (push_front c) e))
]

join_after :
    (d : ℕ) (ss : List Text) (t : Text) (ts : List Text)
    → ss ≡ t ∷ ts
    → join d ([] ∷ ss) ≡ d ∷ join d ss
unfolding join
join_after d ss t ts e = ap (λ r. join d ([] ∷ r)) e ∙ ap (λ r. d ∷ join d r) (sym e)

pub join-split : (d : ℕ) (s : Text) → join d (split d s) ≡ s
unfolding split join
join-split d [] = refl
join-split d (c ∷ cs) = elim (Bool-cases (nat_beq c d)) [
  | inl here ↦
      let (t, ts, e) = split_first d cs in
      rw here (
        join_after d (split d cs) t ts e
        ∙ ap (λ r. d ∷ r) (join-split d cs)
        ∙ ap (λ x. x ∷ cs) (sym ((nat_beq_iff c d).0 here)))
  | inr on ↦ rw on (join-push_front d c (split d cs) ∙ ap (λ r. c ∷ r) (join-split d cs))
]

push_front-All :
    (d c : ℕ) (ss : List Text)
    → nat_beq c d ≡ false
    → All (λ s. has d s ≡ false) ss
    → All (λ s. has d s ≡ false) (push_front c ss)
unfolding vaultcrdt_server.Base.Lists.any
push_front-All d c [] h k = (ground arith, tt)
push_front-All d c (s ∷ ss) h k = (ground (arith, k.0), k.1)

-- No part has the separator in it.
pub split-All : (d : ℕ) (s : Text) → All (λ t. has d t ≡ false) (split d s)
unfolding split vaultcrdt_server.Base.Lists.any
split-All d [] = (refl, tt)
split-All d (c ∷ cs) = elim (Bool-cases (nat_beq c d)) [
  | inl here ↦ rw here (refl, split-All d cs)
  | inr on ↦ rw on (push_front-All d c (split d cs) on (split-All d cs))
]

-- A text without the separator, before one.
pub split_once-before :
    (d : ℕ) (s t : Text) → has d s ≡ false → split_once d (s ++ d ∷ t) ≡ some (s, t)
unfolding split_once vaultcrdt_server.Base.Lists.any
split_once-before d [] t h = ground (arith, nat_beq_iff d d)
split_once-before d (c ∷ s) t h = ground (arith, split_once-before d s t)

pub split-before : (d : ℕ) (s t : Text) → has d s ≡ false → split d (s ++ d ∷ t) ≡ s ∷ split d t
unfolding split vaultcrdt_server.Base.Lists.any
split-before d [] t h = ground (arith, nat_beq_iff d d)
split-before d (c ∷ s) t h = ground (arith, split-before d s t)

pub split-whole : (d : ℕ) (s : Text) → has d s ≡ false → split d s ≡ s ∷ []
unfolding split vaultcrdt_server.Base.Lists.any
split-whole d [] h = refl
split-whole d (c ∷ s) h = ground (arith, split-whole d s)
