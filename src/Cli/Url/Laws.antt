-- ===== src/Cli/Url/Laws.antt =====
-- What a client reads from a setup link.
use vaultcrdt_server.Base.{
  if◌then◌else◌, tests, ltb, leb, nat_beq, Bool-cases, inl, inr, All, all_sound, nat_beq_iff, not,
  ◌&&◌, Text, codes, ℕ, ◌+◌, ◌-◌, ◌*◌, ◌/◌, ◌%◌, ◌<◌, ◌≡◌, refl, sym, ap, ◌∙◌, subst, Bool, true,
  false, Option, none, some, List, [], ◌∷◌, ◌++◌, map, arith,
}
use mathlib.Core.List.{append-nil}
use vaultcrdt_server.Base.Strings.{
  has, split_once, split, split_once-before, split-before, split-whole,
}
use vaultcrdt_server.Cli.Url.{
  is_unreserved, upper_hex, escape, percent_encode, setup_uri, with_invite,
}
use vaultcrdt_server.Vaults.{valid_vault_id, is_vault_byte}
use vaultcrdt_server.Devices.Secrets.{url_safe}

-- RFC 3986: an escape stands for the byte that its two digits give.
abbrev hex_value : ℕ → ℕ
hex_value c = if leb c b'9' then c - b'0' else c - b'A' + 10

unfoldable pub percent_decode : Text → Text
percent_decode [] = []
percent_decode (c ∷ []) = c ∷ []
percent_decode (c ∷ d ∷ []) = c ∷ d ∷ []
percent_decode (c ∷ d ∷ e ∷ rest) =
    let escaped = percent_decode rest in
    let plain = percent_decode (d ∷ e ∷ rest) in
    if nat_beq c b'%' then (hex_value d * 16 + hex_value e) ∷ escaped else c ∷ plain

decode_plain :
    (c : ℕ) (s : Text) → nat_beq c b'%' ≡ false → percent_decode (c ∷ s) ≡ c ∷ percent_decode s
unfolding percent_decode
decode_plain c [] h = refl
decode_plain c (d ∷ []) h = refl
decode_plain c (d ∷ e ∷ s) h = rw h refl

decode_escape : (b : ℕ) (s : Text) → b < 256 → percent_decode (escape b ++ s) ≡ b ∷ percent_decode s
unfolding percent_decode upper_hex
decode_escape b s l = ap (λ x. x ∷ percent_decode s) (ground arith)

-- What was encoded is decoded again.
pub percent_decode-percent_encode :
    (s : Text) → All (λ b. b < 256) s → percent_decode (percent_encode s) ≡ s
unfolding percent_encode percent_decode
percent_decode-percent_encode [] h = refl
percent_decode-percent_encode (b ∷ s) h = elim (Bool-cases (is_unreserved b)) [
  | inl plain ↦ rw plain (
      decode_plain b (percent_encode s) (ground arith)
      ∙ ap (λ r. b ∷ r) (percent_decode-percent_encode s h.1))
  | inr other ↦ rw other (
      decode_escape b (percent_encode s) h.0
      ∙ ap (λ r. b ∷ r) (percent_decode-percent_encode s h.1))
]

-- A byte that is no escape's first.
abbrev IsPlain : ℕ → Type 0
IsPlain c = (nat_beq c b'&' ≡ false) × (nat_beq c b'%' ≡ false)

has_none : (s : Text) → All IsPlain s → has b'&' s ≡ false
unfolding vaultcrdt_server.Base.any
has_none [] h = refl
has_none (c ∷ s) h = ground (arith, h.0.0, has_none s h.1)

decode_lem : (s : Text) → All IsPlain s → percent_decode s ≡ s
unfolding percent_decode
decode_lem [] h = refl
decode_lem (c ∷ s) h = decode_plain c s h.0.1 ∙ ap (λ r. c ∷ r) (decode_lem s h.1)

encode_has_none : (s : Text) → All (λ b. b < 256) s → has b'&' (percent_encode s) ≡ false
unfolding percent_encode vaultcrdt_server.Base.any upper_hex
encode_has_none [] h = refl
encode_has_none (b ∷ s) h = ground (arith, encode_has_none s h.1, h.0)

-- The parameters of a link: name and value, the value decoded.
abbrev pub decoded : Option (Text × Text) → Option (Text × Text)
decoded none = none
decoded (some (name, value)) = some (name, percent_decode value)

abbrev pub parameters_of : Option (Text × Text) → List (Option (Text × Text))
parameters_of none = []
parameters_of (some (front, query)) = map (λ f. decoded (split_once b'=' f)) (split b'&' query)

unfoldable pub link_parameters : Text → List (Option (Text × Text))
link_parameters uri = parameters_of (split_once b'?' uri)

abbrev pub invite_parameter : Option Text → List (Option (Text × Text))
invite_parameter none = []
invite_parameter (some invite) = some (codes "invite", invite) ∷ []

abbrev AllPlain : Option Text → Type 0
AllPlain none = Unit {0}
AllPlain (some invite) = All IsPlain invite

abbrev is_plain : ℕ → Bool
is_plain c = not (nat_beq c b'&') && not (nat_beq c b'%')

abbrev pub IsUrlSafe : Option Text → Type 0
IsUrlSafe none = Unit {0}
IsUrlSafe (some s) = All (λ c. has c url_safe ≡ true) s

-- A byte of a text has what all of its bytes have.
has-All : (Q : ℕ → Type 0) (c : ℕ) (s : Text) → All Q s → has c s ≡ true → Q c
unfolding vaultcrdt_server.Base.any
has-All Q c [] h e = absurd (cc e)
has-All Q c (b ∷ s) h e = elim (Bool-cases (nat_beq b c)) [
  | inl same ↦ subst Q ((nat_beq_iff b c).0 same) h.0
  | inr other ↦ has-All Q c s h.1 (sym (rw other refl) ∙ e)
]

url_safe-IsPlain : (s : Text) → All (λ c. has c url_safe ≡ true) s → All IsPlain s
unfolding vaultcrdt_server.Base.all
url_safe-IsPlain [] h = tt
url_safe-IsPlain (c ∷ s) h = (
  ground
      (arith, has-All (λ c. is_plain c ≡ true) c url_safe (all_sound is_plain url_safe refl) h.0),
  url_safe-IsPlain s h.1,
)

vault-IsPlain : (s : Text) → All (λ c. is_vault_byte c ≡ true) s → All IsPlain s
vault-IsPlain [] h = tt
vault-IsPlain (c ∷ s) h = (ground (arith, h.0), vault-IsPlain s h.1)

vault_bytes : (v : Text) → valid_vault_id v ≡ true → All (λ c. is_vault_byte c ≡ true) v
unfolding valid_vault_id
vault_bytes v h = all_sound is_vault_byte v (ground arith)

-- The name of a field has no `=`.
field_of :
    (name value : Text)
    → has b'=' name ≡ false
    → percent_decode value ≡ value
    → decoded (split_once b'=' (name ++ b'=' ∷ value)) ≡ some (name, value)
field_of name value h e =
    ap decoded (split_once-before b'=' name value h) ∙ ap (λ x. some (name, x)) e

abbrev server_field : Text → Text
server_field url = codes "server=" ++ percent_encode url

abbrev vault_field : Text → Text
vault_field v = codes "vaultId=" ++ v

abbrev pub query_of : Text → Text → Option Text → Text
query_of url v invite =
    codes "v=1" ++ b'&' ∷ (server_field url ++ b'&' ∷ (vault_field v ++ with_invite invite))

abbrev field : Text → Option (Text × Text)
field f = decoded (split_once b'=' f)

-- The last two fields, or the last one.
last_fields :
    (v : Text) (invite : Option Text)
    → All IsPlain v
    → IsUrlSafe invite
    → map field (split b'&' (vault_field v ++ with_invite invite))
      ≡ some (codes "vaultId", v) ∷ invite_parameter invite
unfolding vaultcrdt_server.Base.any
last_fields v none h i =
    ap (λ t. map field (split b'&' (codes "vaultId=" ++ t))) (append-nil v)
    ∙ ap (map field) (split-whole b'&' (vault_field v) (has_none v h))
    ∙ ap (λ x. x ∷ []) (field_of (codes "vaultId") v refl (decode_lem v h))
last_fields v (some invite) h i =
    ap (map field) (
      split-before b'&' (vault_field v) (codes "invite=" ++ invite) (has_none v h)
      ∙ ap (λ r. vault_field v ∷ r)
          (split-whole b'&' (codes "invite=" ++ invite)
            (has_none invite (url_safe-IsPlain invite i))))
    ∙ ap (λ x. x ∷ field (codes "invite=" ++ invite) ∷ [])
        (field_of (codes "vaultId") v refl (decode_lem v h))
    ∙ ap (λ x. some (codes "vaultId", v) ∷ x ∷ [])
        (field_of (codes "invite") invite refl (decode_lem invite (url_safe-IsPlain invite i)))

-- A client that reads the parameters of a setup link finds version 1, the URL, the vault and the invite,
-- if there is one, as they were given, and no others. The URL is a text of bytes, the name of the vault is
-- allowed, and the invite is of the alphabet of invites.
pub link_parameters-setup_uri :
    (url v : Text) (invite : Option Text)
    → All (λ b. b < 256) url
    → valid_vault_id v ≡ true
    → IsUrlSafe invite
    → link_parameters (setup_uri url v invite)
      ≡ some (codes "v", codes "1")
        ∷ some (codes "server", url)
        ∷ some (codes "vaultId", v)
        ∷ invite_parameter invite
unfolding link_parameters setup_uri vaultcrdt_server.Base.any percent_decode
link_parameters-setup_uri url v invite bytes fine safe =
    ap parameters_of
      (split_once-before b'?' (codes "obsidian://vaultcrdt/setup") (query_of url v invite) refl)
    ∙ ap (map field) (
        split-before b'&' (codes "v=1")
          (server_field url ++ b'&' ∷ (vault_field v ++ with_invite invite)) refl
        ∙ ap (λ r. codes "v=1" ∷ r)
            (split-before b'&' (server_field url) (vault_field v ++ with_invite invite)
              (encode_has_none url bytes)))
    ∙ ap
        (λ x.
          x
          ∷ field (server_field url)
          ∷ map field (split b'&' (vault_field v ++ with_invite invite)))
        (field_of (codes "v") (codes "1") refl refl)
    ∙ ap
        (λ x.
          some (codes "v", codes "1")
          ∷ x
          ∷ map field (split b'&' (vault_field v ++ with_invite invite)))
        (ap decoded (split_once-before b'=' (codes "server") (percent_encode url) refl)
          ∙ ap (λ x. some (codes "server", x)) (percent_decode-percent_encode url bytes))
    ∙ ap (λ r. some (codes "v", codes "1") ∷ some (codes "server", url) ∷ r)
        (last_fields v invite (vault-IsPlain v (vault_bytes v fine)) safe)
