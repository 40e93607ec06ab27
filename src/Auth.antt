-- ===== src/Auth.antt =====
-- auth.rs: the comparison of secrets, and the limit on attempts. The signing of tokens is the
-- library jsonwebtoken and is left out.
pub mod Compare
pub mod Limit
use vaultcrdt_server.Base.{
  leb, nat_beq, if◌then◌else◌, tests, is_none, nat_eq, list_eq, option_eq, pair_eq, length, Bytes,
  Text, ℕ, zero, suc, ◌+◌, ◌-◌, Bool, true, false, ◌&&◌, Option, none, some, [], ◌∷◌, arith,
}
use vaultcrdt_server.Table.{Table, find, put, delete_where}
use Prim.Native.Nat.{bit_or, bit_xor}

-- The loop from the index where the two rests stand: past the end of one its byte counts as 0.
unfoldable pub or_differences : ℕ → Bytes → Bytes → ℕ
or_differences diff [] [] = diff
or_differences diff (x ∷ xs) [] = or_differences (bit_or diff (bit_xor x 0)) xs []
or_differences diff [] (y ∷ ys) = or_differences (bit_or diff (bit_xor 0 y)) [] ys
or_differences diff (x ∷ xs) (y ∷ ys) = or_differences (bit_or diff (bit_xor x y)) xs ys

unfoldable pub constant_time_eq : Bytes → Bytes → Bool
unfolding or_differences
constant_time_eq a b = nat_beq (or_differences (bit_xor (length a) (length b)) a b) 0

abbrev pub auth_request_limit : ℕ
auth_request_limit = 10

abbrev pub auth_window_secs : ℕ
auth_window_secs = 60

abbrev pub auth_max_keys : ℕ
auth_max_keys = 65536

-- Per key, when its window began and how many attempts it has had.
abbrev pub Windows : Type 0
Windows = Table Text (ℕ × ℕ)

unfoldable pub is_over : ℕ → Text → ℕ × ℕ → Bool
is_over now_secs key (start, count) = leb auth_window_secs (now_secs - start)

unfoldable pub retained : ℕ → Windows → Windows
unfolding is_over
retained now_secs windows = delete_where (is_over now_secs) windows

-- `entry(key).or_insert((now_secs, 0))`, and the count of an attempt
unfoldable pub count_attempt : Text → ℕ → Windows → Option (ℕ × ℕ) → Bool × Windows
count_attempt key now_secs windows none = (true, put key (now_secs, 1) windows)
count_attempt key now_secs windows (some (start, count)) =
    if leb auth_request_limit count
    then (false, windows)
    else (true, put key (start, count + 1) windows)

unfoldable pub check : Text → ℕ → Windows → Bool × Windows
unfolding retained count_attempt
check key now_secs windows =
    let kept = retained now_secs windows in
    if leb auth_max_keys (length kept) && is_none (find key kept)
    then (false, kept)
    else count_attempt key now_secs kept (find key kept)
