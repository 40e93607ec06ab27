-- ===== src/Blobs/Names.antt =====
-- blobs.rs: hashes, extensions, and the keys and display paths of attachments.
pub mod Laws
use vaultcrdt_server.Base.{
  ltb, leb, nat_beq, if◌then◌else◌, tests, is_some, ◌==◌, nat_eq, list_eq, option_eq, pair_eq,
  length, is_empty, all, any, Text, codes, ℕ, zero, suc, ◌*◌, Bool, true, false, not, ◌&&◌, ◌||◌,
  Option, none, some, List, [], ◌∷◌, arith,
}
use vaultcrdt_server.Base.Strings.{
  strip_prefix, starts_with, has, ends_with, split_once, rsplit_once, split, last_of,
  to_ascii_lowercase,
}

abbrev pub image_cap : ℕ
image_cap = 10 * 1024 * 1024

abbrev pub pdf_cap : ℕ
pdf_cap = 10 * 1024 * 1024

abbrev pub audio_cap : ℕ
audio_cap = 25 * 1024 * 1024

abbrev pub obsidian_cap : ℕ
obsidian_cap = 2 * 1024 * 1024

abbrev pub absolute_max : ℕ
absolute_max = audio_cap

abbrev pub key_max_bytes : ℕ
key_max_bytes = 1024

abbrev pub is_hash_byte : ℕ → Bool
is_hash_byte b = leb b'0' b && leb b b'9' || leb b'a' b && leb b b'f'

unfoldable pub is_hash : Text → Bool
is_hash s = nat_beq (length s) 64 && all is_hash_byte s

-- One of the texts of a `matches!`.
abbrev pub one_of : List Text → Text → Bool
one_of ts s = any (λ t. t == s) ts

abbrev image_extensions : List Text
image_extensions =
    codes "jpg"
    ∷ codes "jpeg"
    ∷ codes "png"
    ∷ codes "webp"
    ∷ codes "gif"
    ∷ codes "heic"
    ∷ codes "heif"
    ∷ codes "avif"
    ∷ codes "svg"
    ∷ []

abbrev audio_extensions : List Text
audio_extensions =
    codes "mp3"
    ∷ codes "m4a"
    ∷ codes "ogg"
    ∷ codes "oga"
    ∷ codes "opus"
    ∷ codes "flac"
    ∷ codes "wav"
    ∷ codes "webm"
    ∷ codes "3gp"
    ∷ []

unfoldable pub type_cap_for_ext : Text → Option ℕ
type_cap_for_ext ext =
    if one_of image_extensions ext
    then some image_cap
    else if ext == codes "pdf"
    then some pdf_cap
    else if one_of audio_extensions ext
    then some audio_cap
    else none

unfoldable pub last_extension : Text → Option Text
last_extension name = elim (rsplit_once b'.' name) [
  | none ↦ none
  | some (stem, ext) ↦ if is_empty stem || is_empty ext then none else some ext
]

unfoldable pub snippet_allowed : Text → Bool
unfolding last_extension
snippet_allowed name =
    not (is_empty name) && not (has b'/' name) && last_extension name == some (codes "css")

unfoldable pub theme_allowed : Text → Bool
theme_allowed theme_rest = elim (split_once b'/' theme_rest) [
  | none ↦ false
  | some (dir, file) ↦
      not (is_empty dir)
      && not (has b'/' file)
      && one_of (codes "theme.css" ∷ codes "manifest.json" ∷ []) file
]

unfoldable pub themes_allowed : Text → Bool
unfolding theme_allowed
themes_allowed rest = elim (strip_prefix (codes "themes/") rest) [
  | none ↦ false
  | some theme_rest ↦ theme_allowed theme_rest
]

unfoldable pub config_allowed : Text → Bool
unfolding snippet_allowed themes_allowed
config_allowed rest =
    if rest == codes "app.json" || rest == codes "appearance.json"
    then true
    else elim (strip_prefix (codes "snippets/") rest) [
      | some name ↦ snippet_allowed name
      | none ↦ themes_allowed rest
    ]

unfoldable pub obsidian_allowlisted : Text → Bool
unfolding config_allowed
obsidian_allowlisted path = elim (strip_prefix (codes ".obsidian/") path) [
  | none ↦ false
  | some rest ↦ config_allowed rest
]

-- The body of the loop over the segments: none of its early returns is taken.
unfoldable pub segment_allowed : Text → Bool
segment_allowed segment =
    not (is_empty segment || segment == codes "." || segment == codes "..")
    && not (has b'\\' segment)
    && not (ends_with b' ' segment || ends_with b'.' segment)

abbrev pub is_ascii_uppercase : ℕ → Bool
is_ascii_uppercase b = leb b'A' b && leb b b'Z'

unfoldable pub cap_for_name : Text → Option ℕ
unfolding last_extension type_cap_for_ext
cap_for_name last = elim (last_extension last) [
  | none ↦ none
  | some ext ↦ type_cap_for_ext (to_ascii_lowercase ext)
]

unfoldable pub validate_segments : Text → Bool → Bool
unfolding segment_allowed obsidian_allowlisted cap_for_name
validate_segments path allow_ascii_upper =
    if is_empty path || ltb key_max_bytes (length path) || starts_with (codes "/") path
    then false
    else if not allow_ascii_upper && any is_ascii_uppercase path
    then false
    else if path == codes ".trash" || starts_with (codes ".trash/") path
    then false
    else if not (all segment_allowed (split b'/' path))
    then false
    else if path == codes ".obsidian" || starts_with (codes ".obsidian/") path
    then obsidian_allowlisted path
    else is_some (cap_for_name (last_of (split b'/' path)))

unfoldable pub validate_blob_key : Text → Bool
unfolding validate_segments
validate_blob_key key = validate_segments key false

unfoldable pub validate_display_path : Text → Bool
unfolding validate_segments
validate_display_path path = validate_segments path true

unfoldable pub cap_for_key : Text → Option ℕ
unfolding obsidian_allowlisted cap_for_name
cap_for_key key =
    if obsidian_allowlisted key then some obsidian_cap else cap_for_name (last_of (split b'/' key))
