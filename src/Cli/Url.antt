-- ===== src/Cli/Url.antt =====
-- cli.rs: the server's URL as an argument, and in the setup link.
pub mod Laws
use vaultcrdt_server.Base.{
  if◌then◌else◌, tests, ltb, leb, nat_beq, is_empty, Text, codes, ℕ, zero, suc, ◌+◌, ◌-◌, ◌/◌, ◌%◌,
  Bool, false, ◌||◌, ◌&&◌, Option, none, some, [], ◌∷◌, ◌++◌, arith,
}
use vaultcrdt_server.Base.Strings.{starts_with, ends_with}
use vaultcrdt_server.Vaults.{is_ascii_alphanumeric}

abbrev is_ascii_space : ℕ → Bool
is_ascii_space a = leb 9 a && leb a 13 || nat_beq a 32

-- U+0085 and U+00A0
two_byte_space : ℕ → Text → Bool
two_byte_space a [] = false
two_byte_space a (b ∷ rest) = nat_beq a 0xc2 && (nat_beq b 0x85 || nat_beq b 0xa0)

-- U+1680, U+2000 to U+200A, U+2028, U+2029, U+202F, U+205F and U+3000
three_byte_space : ℕ → Text → Bool
three_byte_space a [] = false
three_byte_space a (b ∷ []) = false
three_byte_space a (b ∷ c ∷ rest) =
    nat_beq a 0xe1 && nat_beq b 0x9a && nat_beq c 0x80
    || nat_beq a 0xe2
      && nat_beq b 0x80
      && (leb 0x80 c && leb c 0x8a || nat_beq c 0xa8 || nat_beq c 0xa9 || nat_beq c 0xaf)
    || nat_beq a 0xe2 && nat_beq b 0x81 && nat_beq c 0x9f
    || nat_beq a 0xe3 && nat_beq b 0x80 && nat_beq c 0x80

-- `skip` bytes of a white space are still to come.
unfoldable pub trim_start : ℕ → Text → Text
unfolding two_byte_space three_byte_space
trim_start skip [] = []
trim_start (suc skip) (c ∷ cs) = trim_start skip cs
trim_start zero (c ∷ cs) =
    let after_one = trim_start 0 cs in
    let after_two = trim_start 1 cs in
    let after_three = trim_start 2 cs in
    if is_ascii_space c
    then after_one
    else if two_byte_space c cs
    then after_two
    else if three_byte_space c cs
    then after_three
    else c ∷ cs

-- What follows is white space to the end.
unfoldable pub trim_end : Text → Text
unfolding trim_start
trim_end [] = []
trim_end (c ∷ cs) =
    let rest = trim_end cs in if is_empty (trim_start 0 (c ∷ cs)) then [] else c ∷ rest

-- `str::trim`, of the white space of Unicode in UTF-8
unfoldable pub trim : Text → Text
unfolding trim_end
trim s = trim_end (trim_start 0 s)

abbrev only_slashes : Text → Bool
only_slashes [] = Bool.true
only_slashes (c ∷ cs) = let rest = only_slashes cs in nat_beq c b'/' && rest

unfoldable pub trim_end_slashes : Text → Text
trim_end_slashes [] = []
trim_end_slashes (c ∷ cs) =
    let rest = trim_end_slashes cs in if only_slashes (c ∷ cs) then [] else c ∷ rest

abbrev pub http : Text
http = codes "http://"

abbrev pub https : Text
https = codes "https://"

unfoldable pub normalize_url : Text → Option Text
unfolding trim trim_end_slashes
normalize_url value =
    let url = trim_end_slashes (trim value) in
    if starts_with http url || starts_with https url then some url else none

-- A digit of `{:X}`.
unfoldable pub upper_hex : ℕ → ℕ
upper_hex d = if ltb d 10 then b'0' + d else b'A' + (d - 10)

abbrev pub is_unreserved : ℕ → Bool
is_unreserved b =
    is_ascii_alphanumeric b || nat_beq b b'-' || nat_beq b b'.' || nat_beq b b'_' || nat_beq b b'~'

-- The three characters of an escape
abbrev pub escape : ℕ → Text
escape b = b'%' ∷ upper_hex (b / 16) ∷ upper_hex (b % 16) ∷ []

unfoldable pub percent_encode : Text → Text
unfolding upper_hex
percent_encode [] = []
percent_encode (b ∷ bs) =
    let rest = percent_encode bs in if is_unreserved b then b ∷ rest else escape b ++ rest

abbrev pub with_invite : Option Text → Text
with_invite none = []
with_invite (some invite) = codes "&invite=" ++ invite

unfoldable pub setup_uri : Text → Text → Option Text → Text
unfolding percent_encode
setup_uri server_url vault_id invite =
    codes "obsidian://vaultcrdt/setup?v=1&server="
    ++ (percent_encode server_url ++ (codes "&vaultId=" ++ (vault_id ++ with_invite invite)))
