-- ===== src/Blobs/Svg.antt =====
-- blobs.rs: the sniff that decides whether an upload is looked at as an SVG, and its check.
use vaultcrdt_server.Base.{
  nat_beq, if◌then◌else◌, nat_eq, list_eq, option_eq, pair_eq, take, Bytes, codes, ℕ, Bool, false,
  ◌&&◌, ◌||◌, none, some, [], ◌∷◌,
}
use vaultcrdt_server.Base.Strings.{strip_prefix}

-- `is_ascii_whitespace`: space, \t, \n, \f, \r
unfoldable pub is_ascii_whitespace : ℕ → Bool
is_ascii_whitespace c = nat_beq c 32 || nat_beq c 9 || nat_beq c 10 || nat_beq c 12 || nat_beq c 13

unfoldable pub skip_bom : Bytes → Bytes
skip_bom bytes = elim (strip_prefix (0xEF ∷ 0xBB ∷ 0xBF ∷ []) bytes) [
  | none ↦ bytes
  | some rest ↦ rest
]

unfoldable pub skip_whitespace : Bytes → Bytes
unfolding is_ascii_whitespace
skip_whitespace [] = []
skip_whitespace (c ∷ cs) =
    let rest = skip_whitespace cs in if is_ascii_whitespace c then rest else c ∷ cs

unfoldable pub is_delimiter : ℕ → Bool
is_delimiter c =
    nat_beq c b' '
    || nat_beq c b'>'
    || nat_beq c b'/'
    || nat_beq c 9
    || nat_beq c 10
    || nat_beq c 13

unfoldable pub delimited : Bytes → Bool
unfolding is_delimiter
delimited [] = false
delimited (c ∷ cs) = is_delimiter c

-- `<svg` and a delimiter at the front.
unfoldable pub tag_here : Bytes → Bool
unfolding delimited
tag_here window = elim (strip_prefix (codes "<svg") window) [
  | none ↦ false
  | some rest ↦ delimited rest
]

-- The loop over the places of the window.
unfoldable pub tag_somewhere : Bytes → Bool
unfolding tag_here
tag_somewhere [] = false
tag_somewhere (c ∷ cs) = tag_here (c ∷ cs) || tag_somewhere cs

unfoldable pub opens : Bytes → Bool
opens [] = false
opens (c ∷ cs) = nat_beq c b'<'

unfoldable pub looks_like_svg : Bytes → Bool
unfolding skip_bom skip_whitespace opens tag_somewhere
looks_like_svg bytes = opens (skip_whitespace (skip_bom bytes)) && tag_somewhere (take 4096 bytes)
