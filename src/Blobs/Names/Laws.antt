-- ===== src/Blobs/Names/Laws.antt =====
-- What a key or path that passes the checks is like.
use vaultcrdt_server.Base.{
  tests, Bool-cases, Option-cases, is_some, eq_iff, nat_eq, list_eq, option_eq, pair_eq, length,
  all, any, All, Text, codes, ℕ, zero, suc, ◌≤◌, ◌≡◌, ◌≢◌, inl, inr, Bool, true, false, some, List,
  [], ◌∷◌, arith,
}
use vaultcrdt_server.Base.Strings.{
  split, join, join-split, has, split-All, starts_with, last_of, to_ascii_lowercase,
}
use vaultcrdt_server.Blobs.Names.{
  validate_blob_key, validate_segments, segment_allowed, cap_for_key, cap_for_name, absolute_max,
  key_max_bytes, obsidian_allowlisted, type_cap_for_ext, is_ascii_uppercase, last_extension,
}

-- A segment that names neither its own directory nor the one above, and has no separator of any
-- system in it.
abbrev pub Plain : Text → Type 0
Plain s =
    (s ≢ []) × (s ≢ codes ".") × (s ≢ codes "..") × (has b'/' s ≡ false) × (has b'\\' s ≡ false)

allowed-Plain : (s : Text) → segment_allowed s ≡ true → has b'/' s ≡ false → Plain s
unfolding segment_allowed
allowed-Plain s h k = (
  (λ e. absurd (ground (arith, e))),
  (λ e. absurd (ground (arith, eq_iff s (codes ".")))),
  (λ e. absurd (ground (arith, eq_iff s (codes "..")))),
  k,
  ground arith,
)

all-Plain :
    (ss : List Text)
    → all segment_allowed ss ≡ true
    → All (λ s. has b'/' s ≡ false) ss
    → All Plain ss
unfolding vaultcrdt_server.Base.all
all-Plain [] h k = tt
all-Plain (s ∷ ss) h k = (allowed-Plain s (ground arith) k.0, all-Plain ss (ground arith) k.1)

-- A path that passes is not empty, has at most 1,024 bytes and does not begin with a slash; it is its
-- segments with slashes between them, and each of them is plain: not empty, not `.`, not `..`, and
-- without a slash or a backslash.
pub validate_segments_lem :
    (path : Text) (allow_ascii_upper : Bool)
    → validate_segments path allow_ascii_upper ≡ true
    → (path ≢ [])
      × (length path ≤ key_max_bytes)
      × (starts_with (codes "/") path ≡ false)
      × (join b'/' (split b'/' path) ≡ path)
      × All Plain (split b'/' path)
unfolding validate_segments
validate_segments_lem path allow_ascii_upper h = (
  (λ e. absurd (ground (arith, e))),
  ground arith,
  ground arith,
  join-split b'/' path,
  all-Plain (split b'/' path) (ground arith) (split-All b'/' path),
)

bounded_by_max : (ext : Text) (limit : ℕ) → type_cap_for_ext ext ≡ some limit → limit ≤ absolute_max
unfolding type_cap_for_ext
bounded_by_max ext limit h = ground arith

name_bounded : (last : Text) (limit : ℕ) → cap_for_name last ≡ some limit → limit ≤ absolute_max
unfolding cap_for_name
name_bounded last limit h = elim (Option-cases (last_extension last)) [
  | inl e ↦ ground arith
  | inr (ext, e) ↦ ground (arith, bounded_by_max (to_ascii_lowercase ext) limit)
]

key_bounded : (key : Text) (limit : ℕ) → cap_for_key key ≡ some limit → limit ≤ absolute_max
unfolding cap_for_key
key_bounded key limit h = elim (Bool-cases (obsidian_allowlisted key)) [
  | inl y ↦ ground arith
  | inr n ↦ name_bounded (last_of (split b'/' key)) limit (ground arith)
]

key_capped : (key : Text) → validate_blob_key key ≡ true → is_some (cap_for_key key) ≡ true
unfolding validate_blob_key validate_segments cap_for_key
key_capped key h = ground arith

-- A key that passes has a size limit, of at most 25 MiB, and no upper-case ASCII letter.
pub cap_for_key_lem :
    (key : Text)
    → validate_blob_key key ≡ true
    → (limit : ℕ) × (cap_for_key key ≡ some limit)
      × (limit ≤ absolute_max)
      × (any is_ascii_uppercase key ≡ false)
unfolding validate_blob_key validate_segments
cap_for_key_lem key h = elim (Option-cases (cap_for_key key)) [
  | inl e ↦ absurd (ground (arith, key_capped key h))
  | inr (limit, e) ↦ (limit, e, key_bounded key limit e, ground arith)
]
