-- ===== src/Base/Bits.antt =====
-- `^` and `|` on machine words: when they give 0.
use Prim.Native.Nat.{
  ℕ, zero, suc, ◌/◌, ◌%◌, ◌≤◌, max, bit_or, bit_xor, digits, differ, bit_or-bitwise,
  bit_xor-bitwise,
}
use mathlib.Core.Path.{◌≡◌, refl, sym, ap, ◌∙◌}
use mathlib.Core.Logic.{◌↔◌}
use native.Mathlib.Omega.{arith}

abbrev xor_digits : ℕ → ℕ → ℕ → ℕ
xor_digits n a b = digits (λ b. b) differ n a b

abbrev or_digits : ℕ → ℕ → ℕ → ℕ
or_digits n a b = digits (λ b. b) max n a b

differ_zero : (x y : ℕ) → differ x y ≡ 0 → x ≡ y
differ_zero zero zero h = refl
differ_zero zero (suc y) h = omega arith
differ_zero (suc x) zero h = omega arith
differ_zero (suc x) (suc y) h = ap suc (differ_zero x y h)

differ_self : (x : ℕ) → differ x x ≡ 0
differ_self zero = refl
differ_self (suc x) = differ_self x

xor_digits_zero : (n a b : ℕ) → a ≤ n → xor_digits n a b ≡ 0 → a ≡ b
xor_digits_zero zero zero b p h = omega arith
xor_digits_zero zero (suc a) b p h = absurd (omega arith)
xor_digits_zero (suc n) zero b p h = omega arith
xor_digits_zero (suc n) (suc a) b p h =
    let high = xor_digits_zero n (suc a / 2) (b / 2) (omega arith) (omega arith) in
    let low = differ_zero (suc a % 2) (b % 2) (omega arith) in omega arith

xor_digits_self : (n a : ℕ) → a ≤ n → xor_digits n a a ≡ 0
xor_digits_self zero zero h = refl
xor_digits_self zero (suc a) h = absurd (omega arith)
xor_digits_self (suc n) zero h = refl
xor_digits_self (suc n) (suc a) h =
    omega (arith, xor_digits_self n (suc a / 2) (omega arith), differ_self (suc a % 2))

pub bit_xor_zero : (a b : ℕ) → (bit_xor a b ≡ 0) ↔ (a ≡ b)
bit_xor_zero a b = (
  (λ h. xor_digits_zero a a b (omega arith) (omega (arith, bit_xor-bitwise a b))),
  (λ e. ap (bit_xor a) (sym e) ∙ bit_xor-bitwise a a ∙ xor_digits_self a a (omega arith)),
)

or_digits_zero : (n a b : ℕ) → a ≤ n → or_digits n a b ≡ 0 → (a ≡ 0) × (b ≡ 0)
or_digits_zero zero zero b p h = (refl, h)
or_digits_zero zero (suc a) b p h = absurd (omega arith)
or_digits_zero (suc n) zero b p h = (refl, h)
or_digits_zero (suc n) (suc a) b p h =
    let high = or_digits_zero n (suc a / 2) (b / 2) (omega arith) (omega arith) in
    absurd (omega (arith, high.0))

pub bit_or_zero : (a b : ℕ) → (bit_or a b ≡ 0) ↔ ((a ≡ 0) × (b ≡ 0))
bit_or_zero a b = (
  (λ h. or_digits_zero a a b (omega arith) (omega (arith, bit_or-bitwise a b))),
  (λ e. ap (λ x. bit_or x b) e.0 ∙ ap (bit_or 0) e.1),
)
