-- ===== src/Devices/Secrets.antt =====
-- invites.rs, `random_secret`: a secret from the random bytes of UUIDs. The UUIDs that are drawn are
-- given as a list; where it ends too early there is no secret yet.
pub mod Laws
use vaultcrdt_server.Base.{
  if◌then◌else◌, tests, ltb, leb, nat_beq, length, Bytes, Text, codes, ℕ, zero, suc, ◌+◌, ◌*◌, ◌/◌,
  ◌%◌, Bool, ◌||◌, Option, none, some, List, [], ◌∷◌, ◌++◌, arith,
}

-- The alphabets of the two calls.
abbrev pub alphanumeric : Text
alphanumeric = codes "ABCDEFGHIJKLMNOPQRSTUVWXYZabcdefghijklmnopqrstuvwxyz0123456789"

abbrev pub url_safe : Text
url_safe = codes "ABCDEFGHIJKLMNOPQRSTUVWXYZabcdefghijklmnopqrstuvwxyz0123456789_-"

unfoldable pub char_at : Text → ℕ → ℕ
char_at [] i = 0
char_at (c ∷ cs) zero = c
char_at (c ∷ cs) (suc i) = char_at cs i

module _ (len : ℕ) (alphabet : Text) where
  -- Bytes 6 and 8 hold the version and the variant; a byte that would bias the choice is passed over.
  unfoldable pub passed_over : ℕ → ℕ → Bool
  passed_over i byte =
      nat_beq i 6 || nat_beq i 8 || leb (256 / length alphabet * length alphabet) byte

  unfoldable pub chosen : ℕ → ℕ
  unfolding char_at
  chosen byte = char_at alphabet (byte % length alphabet)

  -- The bytes of one UUID from the `i`th on.
  unfoldable pub use_bytes : ℕ → Bytes → Text → Text
  unfolding passed_over chosen
  use_bytes i [] result = result
  use_bytes i (byte ∷ bytes) result =
      let skipped = use_bytes (i + 1) bytes result in
      let used = use_bytes (i + 1) bytes (result ++ chosen byte ∷ []) in
      if passed_over i byte
      then skipped
      else if nat_beq (length (result ++ chosen byte ∷ [])) len
      then result ++ chosen byte ∷ []
      else used

  unfoldable pub fill : List Bytes → Text → Option Text
  unfolding use_bytes
  fill [] result = if ltb (length result) len then none else some result
  fill (uuid ∷ uuids) result =
      let rest = fill uuids (use_bytes 0 uuid result) in
      if ltb (length result) len then rest else some result

  unfoldable pub random_secret : List Bytes → Option Text
  unfolding fill
  random_secret uuids = fill uuids []
