-- ===== src/Fnv.antt =====
-- fnv.rs: FNV-1a, 64 bits wide, over UTF-16 code units.
pub mod Hex
use vaultcrdt_server.Base.{
  ltb, if◌then◌else◌, tests, nat_eq, list_eq, option_eq, pair_eq, Text, ℕ, zero, suc, ◌+◌, ◌-◌, ◌*◌,
  ◌/◌, ◌%◌, ◌^◌, List, [], ◌∷◌, ◌++◌, arith,
}
use Prim.Native.Nat.{bit_xor}

-- `str::encode_utf16`, from the Unicode scalar values of the text.
unfoldable pub encode_utf16 : List ℕ → List ℕ
encode_utf16 [] = []
encode_utf16 (c ∷ cs) =
    let rest = encode_utf16 cs in
    if ltb c 0x10000
    then c ∷ rest
    else (0xd800 + (c - 0x10000) / 0x400) ∷ (0xdc00 + (c - 0x10000) % 0x400) ∷ rest

abbrev pub offset : ℕ
offset = 0xcbf29ce484222325

abbrev pub prime : ℕ
prime = 0x100000001b3

-- `hash ^= u64::from(unit)`, then `hash = hash.wrapping_mul(PRIME)`
unfoldable pub absorb : ℕ → ℕ → ℕ
absorb hash unit = (bit_xor hash unit * prime) % 2 ^ 64

unfoldable pub fold_units : ℕ → List ℕ → ℕ
unfolding absorb
fold_units hash [] = hash
fold_units hash (unit ∷ units) = fold_units (absorb hash unit) units

-- A digit of `{:x}`, as its character.
unfoldable pub hex_digit : ℕ → ℕ
hex_digit d = if ltb d 10 then b'0' + d else b'a' + (d - 10)

-- The lowest `n` hexadecimal digits, the highest first: `{:016x}` at `n` = 16.
unfoldable pub hex_digits : ℕ → ℕ → Text
unfolding hex_digit
hex_digits zero x = []
hex_digits (suc n) x = hex_digits n (x / 16) ++ hex_digit (x % 16) ∷ []

unfoldable pub fnv1a_64_hex : List ℕ → Text
unfolding encode_utf16 fold_units hex_digits
fnv1a_64_hex s = hex_digits 16 (fold_units offset (encode_utf16 s))
