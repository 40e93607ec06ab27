-- ===== src/Base/Decimal.antt =====
-- The language's `u64::to_string` and `str::parse::<u64>`.
use Prim.Native.Nat.{ℕ, zero, suc, ◌+◌, ◌-◌, ◌*◌, ◌/◌, ◌%◌, ◌^◌, ◌≤◌, ◌<◌}
use mathlib.Core.Path.{◌≡◌, refl, ap, ◌∙◌}
use mathlib.Core.Logic.{◌≢◌, inl, inr}
use mathlib.Core.Bool.{◌&&◌}
use mathlib.Core.Option.{Option, none, some}
use mathlib.Core.List.{[], ◌∷◌, ◌++◌}
use native.Mathlib.Omega.{arith}
use native.Mathlib.Nat.{pow-suc}
use vaultcrdt_server.Base.Tests.{ltb, leb, nat_beq, if◌then◌else◌, Bool-cases}
use vaultcrdt_server.Base.Texts.{Text}

abbrev pub u64_max : ℕ
u64_max = 2 ^ 64 - 1

-- With `f` at least the number of digits; 20 for a `u64`.
unfoldable pub decimal : ℕ → ℕ → Text
decimal zero n = []
decimal (suc f) n =
    let front = decimal f (n / 10) in
    if ltb n 10 then (b'0' + n) ∷ [] else front ++ (b'0' + n % 10) ∷ []

unfoldable pub u64_to_string : ℕ → Text
unfolding decimal
u64_to_string n = decimal 20 n

unfoldable pub parse_digits : ℕ → Text → Option ℕ
parse_digits acc [] = some acc
parse_digits acc (c ∷ cs) =
    let next = acc * 10 + (c - b'0') in
    let rest = parse_digits next cs in
    if leb b'0' c && leb c b'9' then (if leb next u64_max then rest else none) else none

-- A lone sign and the empty text are errors; one leading `+` is allowed.
unfoldable pub parse_unsigned : Text → Option ℕ
unfolding parse_digits
parse_unsigned [] = none
parse_unsigned (c ∷ []) = parse_digits 0 (c ∷ [])
parse_unsigned (c ∷ d ∷ cs) =
    if nat_beq c b'+' then parse_digits 0 (d ∷ cs) else parse_digits 0 (c ∷ d ∷ cs)

-- Reading digits goes through an append.
abbrev then_digits : Option ℕ → Text → Option ℕ
then_digits none ys = none
then_digits (some acc) ys = parse_digits acc ys

parse_digits-append :
    (acc : ℕ) (xs ys : Text) → parse_digits acc (xs ++ ys) ≡ then_digits (parse_digits acc xs) ys
unfolding parse_digits
parse_digits-append acc [] ys = refl
parse_digits-append acc (x ∷ xs) ys =
    ground (arith, parse_digits-append (acc * 10 + (x - b'0')) xs ys)

parse_digits-digit :
    (acc d m : ℕ)
    → d < 10
    → acc * 10 + d ≡ m
    → m ≤ u64_max
    → parse_digits acc ((b'0' + d) ∷ []) ≡ some m
unfolding parse_digits
parse_digits-digit acc d m h e k = ground arith

pub parse_digits-decimal :
    (f n : ℕ) → n < 10 ^ f → n ≤ u64_max → parse_digits 0 (decimal f n) ≡ some n
unfolding decimal parse_digits
parse_digits-decimal zero n h k = ap some (omega arith)
parse_digits-decimal (suc f) n h k = elim (Bool-cases (ltb n 10)) [
  | inl e ↦ rw e (parse_digits-digit 0 n n (ground arith) (omega arith) k)
  | inr e ↦ rw e (
      parse_digits-append 0 (decimal f (n / 10)) _
      ∙ ap (λ o. then_digits o ((b'0' + n % 10) ∷ []))
          (parse_digits-decimal f (n / 10) (omega (arith, pow-suc 10 f)) (omega arith))
      ∙ parse_digits-digit (n / 10) (n % 10) n (omega arith) (omega arith) k)
]

parse_unsigned_of_digits :
    (s : Text) (n : ℕ) → parse_digits 0 s ≡ some n → s ≢ [] → parse_unsigned s ≡ some n
unfolding parse_unsigned
parse_unsigned_of_digits [] n h k = absurd (k refl)
parse_unsigned_of_digits (c ∷ []) n h k = h
parse_unsigned_of_digits (c ∷ d ∷ cs) n h k = ground arith

append-ne-nil : (xs : Text) (y : ℕ) → xs ++ y ∷ [] ≢ []
append-ne-nil [] y e = cc
append-ne-nil (x ∷ xs) y e = cc

decimal-ne-nil : (f n : ℕ) → decimal (suc f) n ≢ []
unfolding decimal
decimal-ne-nil f n e = ground (arith, append-ne-nil (decimal f (n / 10)) (b'0' + n % 10))

-- A `u64` is read back from its decimal digits.
pub parse_unsigned-u64_to_string : (n : ℕ) → n ≤ u64_max → parse_unsigned (u64_to_string n) ≡ some n
unfolding u64_to_string
parse_unsigned-u64_to_string n h =
    parse_unsigned_of_digits (decimal 20 n) n (parse_digits-decimal 20 n (omega arith) h)
      (decimal-ne-nil 19 n)
