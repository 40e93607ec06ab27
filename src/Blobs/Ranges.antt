-- ===== src/Blobs/Ranges.antt =====
-- blobs.rs: the ranges in the headers of uploads and downloads. Both headers are ASCII, as
-- `HeaderValue::to_str` gives no other.
pub mod Laws
use vaultcrdt_server.Base.{
  ltb, leb, nat_beq, if◌then◌else◌, tests, nat_eq, list_eq, option_eq, pair_eq, drop, is_empty,
  Text, codes, ℕ, zero, suc, ◌-◌, min, Bool, ◌&&◌, ◌||◌, Option, none, some, List, [], ◌∷◌, arith,
}
use vaultcrdt_server.Base.Decimal.{parse_unsigned}
use vaultcrdt_server.Base.Strings.{strip_prefix, ends_with, split_once, split}

infixl 10 ◌>>=◌
abbrev ◌>>=◌ {ℓ κ} : {A : Type ℓ} {B : Type κ} → Option A → (A → Option B) → Option B
none >>= f = none
some a >>= f = f a

unfoldable pub parse_content_range : Text → Option (ℕ × ℕ × ℕ)
parse_content_range header = do
  rest ← strip_prefix (codes "bytes ") header
  (range, total) ← split_once b'/' rest
  (a, b) ← split_once b'-' range
  if is_empty a || is_empty b then none else do
    a ← parse_unsigned a
    b ← parse_unsigned b
    total ← parse_unsigned total
    some (a, b, total)

abbrev is_space : ℕ → Bool
is_space c = leb 9 c && leb c 13 || nat_beq c b' '

unfoldable pub trim_start : Text → Text
trim_start [] = []
trim_start (c ∷ cs) = let rest = trim_start cs in if is_space c then rest else c ∷ cs

unfoldable pub reversed : Text → Text → Text
reversed acc [] = acc
reversed acc (c ∷ cs) = reversed (c ∷ acc) cs

unfoldable pub trim : Text → Text
unfolding trim_start reversed
trim s = reversed [] (trim_start (reversed [] (trim_start s)))

abbrev pub first_of : List Text → Text
first_of [] = []
first_of (s ∷ ss) = s

-- `strip_suffix('-').filter(|s| !s.is_empty())`
unfoldable pub before_dash : Text → Option Text
unfolding reversed
before_dash spec =
    if ends_with b'-' spec
    then (let front = reversed [] (drop 1 (reversed [] spec)) in
        if is_empty front then none else some front)
    else none

-- The outcomes of `parse_byte_range`: a header that is ignored, a range outside, a range.
pub data ByteRange : Type 0 where
  malformed : ByteRange
  unsatisfiable : ByteRange
  span : (start end : ℕ) → ByteRange

unfoldable pub from_start : ℕ → Option ℕ → ByteRange
from_start total none = malformed
from_start total (some start) =
    if nat_beq total 0 || leb total start then unsatisfiable else span start (total - 1)

unfoldable pub suffix_of : ℕ → Option ℕ → ByteRange
suffix_of total none = malformed
suffix_of total (some n) =
    if nat_beq n 0 || nat_beq total 0 then unsatisfiable else span (total - min n total) (total - 1)

unfoldable pub between : ℕ → Option ℕ → Option ℕ → ByteRange
between total none b = malformed
between total (some start) none = malformed
between total (some start) (some end) =
    if ltb end start || nat_beq total 0 || leb total start
    then unsatisfiable
    else span start (min end (total - 1))

unfoldable pub both_ends : ℕ → Text → ByteRange
unfolding between
both_ends total spec = elim (split_once b'-' spec) [
  | none ↦ malformed
  | some (a, b) ↦ between total (parse_unsigned a) (parse_unsigned b)
]

unfoldable pub dash_first : ℕ → Text → ByteRange
unfolding suffix_of both_ends
dash_first total spec = elim (strip_prefix (codes "-") spec) [
  | some suffix ↦ suffix_of total (parse_unsigned suffix)
  | none ↦ both_ends total spec
]

unfoldable pub parse_spec : ℕ → Text → ByteRange
unfolding before_dash from_start dash_first
parse_spec total spec = if is_empty spec then malformed else elim (before_dash spec) [
  | some start ↦ from_start total (parse_unsigned start)
  | none ↦ dash_first total spec
]

unfoldable pub parse_byte_range : Text → ℕ → ByteRange
unfolding parse_spec trim
parse_byte_range header total = elim (strip_prefix (codes "bytes=") header) [
  | none ↦ malformed
  | some spec ↦ parse_spec total (trim (first_of (split b',' spec)))
]
