-- ===== src/Fnv/Hex.antt =====
-- The shape of the hash: 16 lowercase hexadecimal digits that tell the 64-bit value exactly.
use vaultcrdt_server.Base.{
  ltb, leb, if◌then◌else◌, nat_eq, list_eq, option_eq, pair_eq, length, length-append, all, Text, ℕ,
  zero, suc, ◌+◌, ◌-◌, ◌*◌, ◌/◌, ◌%◌, ◌^◌, ◌<◌, ◌≡◌, refl, Bool, true, ◌&&◌, ◌||◌, List, [], ◌∷◌,
  ◌++◌, arith,
}
use native.Mathlib.Nat.{pow-suc}
use vaultcrdt_server.Fnv.{
  encode_utf16, absorb, fold_units, hex_digit, hex_digits, fnv1a_64_hex, offset,
}

-- The value of a hexadecimal digit, and of a text of them.
abbrev pub digit_value : ℕ → ℕ
digit_value c = if ltb c b'a' then c - b'0' else c - b'a' + 10

abbrev pub read_hex : ℕ → Text → ℕ
read_hex acc [] = acc
read_hex acc (c ∷ cs) = read_hex (acc * 16 + digit_value c) cs

abbrev pub is_hex : ℕ → Bool
is_hex c = leb b'0' c && leb c b'9' || leb b'a' c && leb c b'f'

fold_units-lt : (hash : ℕ) (units : List ℕ) → hash < 2 ^ 64 → fold_units hash units < 2 ^ 64
unfolding fold_units
fold_units-lt hash [] h = h
fold_units-lt hash (u ∷ units) h = fold_units-lt (absorb hash u) units (omega arith)

length-hex_digits : (n x : ℕ) → length (hex_digits n x) ≡ n
unfolding hex_digits
length-hex_digits zero x = refl
length-hex_digits (suc n) x = omega (
  arith,
  length-append (hex_digits n (x / 16)) (hex_digit (x % 16) ∷ []),
  length-hex_digits n (x / 16),
)

hex_digit-is_hex : (d : ℕ) → d < 16 → is_hex (hex_digit d) ≡ true
unfolding hex_digit
hex_digit-is_hex d h = ground arith

all-append :
    (p : ℕ → Bool) (xs ys : Text) → all p xs ≡ true → all p ys ≡ true → all p (xs ++ ys) ≡ true
unfolding all
all-append p [] ys h k = k
all-append p (x ∷ xs) ys h k = ground (arith, all-append p xs ys)

hex_digits-is_hex : (n x : ℕ) → all is_hex (hex_digits n x) ≡ true
unfolding hex_digits all
hex_digits-is_hex zero x = refl
hex_digits-is_hex (suc n) x =
    all-append is_hex (hex_digits n (x / 16)) _ (hex_digits-is_hex n (x / 16))
      (rw (hex_digit-is_hex (x % 16) (omega arith)))

digit_value-hex_digit : (d : ℕ) → d < 16 → digit_value (hex_digit d) ≡ d
unfolding hex_digit
digit_value-hex_digit d h = ground arith

read_hex-append : (acc : ℕ) (xs ys : Text) → read_hex acc (xs ++ ys) ≡ read_hex (read_hex acc xs) ys
read_hex-append acc [] ys = refl
read_hex-append acc (x ∷ xs) ys = read_hex-append (acc * 16 + digit_value x) xs ys

read_hex-hex_digits : (n acc x : ℕ) → x < 16 ^ n → read_hex acc (hex_digits n x) ≡ acc * 16 ^ n + x
unfolding hex_digits
read_hex-hex_digits zero acc x h = omega arith
read_hex-hex_digits (suc n) acc x h =
    rw
      (
        read_hex-append acc (hex_digits n (x / 16)) (hex_digit (x % 16) ∷ []),
        read_hex-hex_digits n acc (x / 16) (omega (arith, pow-suc 16 n)),
        pow-suc 16 n,
      )
      (rw (digit_value-hex_digit (x % 16) (omega arith)) (omega arith))

-- The hash of a text is 16 lowercase hexadecimal digits, which read back are the 64-bit FNV-1a value
-- of its UTF-16 code units.
pub fnv1a_64_hex_shape :
    (s : List ℕ)
    → (length (fnv1a_64_hex s) ≡ 16)
      × (all is_hex (fnv1a_64_hex s) ≡ true)
      × (read_hex 0 (fnv1a_64_hex s) ≡ fold_units offset (encode_utf16 s))
unfolding fnv1a_64_hex
fnv1a_64_hex_shape s = (
  length-hex_digits 16 (fold_units offset (encode_utf16 s)),
  hex_digits-is_hex 16 (fold_units offset (encode_utf16 s)),
  omega (
    arith,
    read_hex-hex_digits 16 0 (fold_units offset (encode_utf16 s))
        (fold_units-lt offset (encode_utf16 s) (omega arith)),
  ),
)
