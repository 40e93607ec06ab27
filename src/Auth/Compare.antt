-- ===== src/Auth/Compare.antt =====
-- The comparison of secrets is the equality of their bytes.
use vaultcrdt_server.Base.{
  nat_beq, nat_beq_iff, nat_eq, list_eq, option_eq, pair_eq, length, Bytes, ℕ, ◌≡◌, ap, ◌↔◌, true,
  [], ◌∷◌, arith,
}
use vaultcrdt_server.Base.Bits.{bit_or_zero, bit_xor_zero}
use vaultcrdt_server.Auth.{or_differences, constant_time_eq}
use Prim.Native.Nat.{bit_or, bit_xor}

no_differences :
    (diff : ℕ) (a b : Bytes)
    → length a ≡ length b
    → (or_differences diff a b ≡ 0) ↔ ((diff ≡ 0) × (a ≡ b))
unfolding or_differences
no_differences diff [] [] e = ground arith
no_differences diff (x ∷ xs) [] e = absurd (omega arith)
no_differences diff [] (y ∷ ys) e = absurd (omega arith)
no_differences diff (x ∷ xs) (y ∷ ys) e = ground (
  arith,
  no_differences (bit_or diff (bit_xor x y)) xs ys (omega arith),
  bit_or_zero diff (bit_xor x y),
  bit_xor_zero x y,
)

-- The accumulator never loses a difference.
differences_stay : (diff : ℕ) (a b : Bytes) → or_differences diff a b ≡ 0 → diff ≡ 0
unfolding or_differences
differences_stay diff [] [] h = h
differences_stay diff (x ∷ xs) [] h =
    ((bit_or_zero diff (bit_xor x 0)).0 (differences_stay (bit_or diff (bit_xor x 0)) xs [] h)).0
differences_stay diff [] (y ∷ ys) h =
    ((bit_or_zero diff (bit_xor 0 y)).0 (differences_stay (bit_or diff (bit_xor 0 y)) [] ys h)).0
differences_stay diff (x ∷ xs) (y ∷ ys) h =
    ((bit_or_zero diff (bit_xor x y)).0 (differences_stay (bit_or diff (bit_xor x y)) xs ys h)).0

-- The comparison that looks at every byte says yes just if the two secrets are equal, also where one
-- is a beginning of the other, or longer by zero bytes.
pub constant_time_eq_lem : (a b : Bytes) → (constant_time_eq a b ≡ true) ↔ (a ≡ b)
unfolding constant_time_eq
constant_time_eq_lem a b = (equal, same)
  where
    d : ℕ
    d = bit_xor (length a) (length b)

    equal : nat_beq (or_differences d a b) 0 ≡ true → a ≡ b
    equal h =
        let none_left : or_differences d a b ≡ 0 = (nat_beq_iff _ 0).0 h in
        let lengths : length a ≡ length b =
          (bit_xor_zero (length a) (length b)).0 (differences_stay d a b none_left) in
        ((no_differences d a b lengths).0 none_left).1

    same : a ≡ b → nat_beq (or_differences d a b) 0 ≡ true
    same e = (nat_beq_iff _ 0).1 (
        (no_differences d a b (ap length e)).1
          ((bit_xor_zero (length a) (length b)).1 (ap length e), e))
