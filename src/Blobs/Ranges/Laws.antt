-- ===== src/Blobs/Ranges/Laws.antt =====
-- A range that is served lies within the blob.
use vaultcrdt_server.Base.{
  ltb, leb, nat_beq, Bool-cases, nat_eq, list_eq, option_eq, pair_eq, is_empty, Text, codes, ℕ, ◌≤◌,
  ◌<◌, ◌≡◌, refl, inl, inr, ◌||◌, Option, none, some, arith,
}
use vaultcrdt_server.Base.Decimal.{parse_unsigned}
use vaultcrdt_server.Base.Strings.{strip_prefix, split_once, split}
use vaultcrdt_server.Blobs.Ranges.{
  ByteRange, malformed, unsatisfiable, span, from_start, suffix_of, between, both_ends, dash_first,
  before_dash, parse_spec, parse_byte_range, first_of, trim,
}

-- Nothing, or a range that is not empty and ends within the first `total` bytes.
abbrev pub Within : ℕ → ByteRange → Type 0
Within total malformed = Unit
Within total unsatisfiable = Unit
Within total (span start end) = (start ≤ end) × (end < total)

from_start-Within : (total : ℕ) (start : Option ℕ) → Within total (from_start total start)
unfolding from_start
from_start-Within total none = tt
from_start-Within total (some start) = elim (Bool-cases (nat_beq total 0 || leb total start)) [
  | inl out ↦ rw out tt
  | inr fits ↦ rw fits (ground arith, ground arith)
]

suffix_of-Within : (total : ℕ) (n : Option ℕ) → Within total (suffix_of total n)
unfolding suffix_of
suffix_of-Within total none = tt
suffix_of-Within total (some n) = elim (Bool-cases (nat_beq n 0 || nat_beq total 0)) [
  | inl out ↦ rw out tt
  | inr fits ↦ rw fits (ground arith, ground arith)
]

between-Within : (total : ℕ) (a b : Option ℕ) → Within total (between total a b)
unfolding between
between-Within total none b = tt
between-Within total (some start) none = tt
between-Within total (some start) (some end) =
    elim (Bool-cases (ltb end start || nat_beq total 0 || leb total start)) [
      | inl out ↦ rw out tt
      | inr fits ↦ rw fits (ground arith, ground arith)
    ]

both_ends-Within :
    (total : ℕ) (p : Option (Text × Text)) (spec : Text)
    → split_once b'-' spec ≡ p
    → Within total (both_ends total spec)
unfolding both_ends
both_ends-Within total none spec e = rw (e, both_ends) tt
both_ends-Within total (some (a, b)) spec e =
    rw (e, both_ends) (between-Within total (parse_unsigned a) (parse_unsigned b))

dash_first-Within :
    (total : ℕ) (p : Option Text) (spec : Text)
    → strip_prefix (codes "-") spec ≡ p
    → Within total (dash_first total spec)
unfolding dash_first
dash_first-Within total (some suffix) spec e =
    rw (e, dash_first) (suffix_of-Within total (parse_unsigned suffix))
dash_first-Within total none spec e =
    rw (e, dash_first) (both_ends-Within total (split_once b'-' spec) spec refl)

parse_spec-Within :
    (total : ℕ) (p : Option Text) (spec : Text)
    → before_dash spec ≡ p
    → Within total (parse_spec total spec)
unfolding parse_spec
parse_spec-Within total p spec e = elim (Bool-cases (is_empty spec)) [
  | inl nothing ↦ rw (nothing, parse_spec) tt
  | inr text ↦ rw (text, parse_spec) (given p e)
]
  where
    given :
        (p : Option Text)
        → before_dash spec ≡ p
        → Within total (elim (before_dash spec) [
          | some start ↦ from_start total (parse_unsigned start)
          | none ↦ dash_first total spec
        ])
    given (some start) e = rw e (from_start-Within total (parse_unsigned start))
    given none e = rw e (dash_first-Within total (strip_prefix (codes "-") spec) spec refl)

-- Whatever the header and the size of the blob: a range that is served begins no later than it ends,
-- and ends before the end of the blob.
pub parse_byte_range-Within :
    (header : Text) (total : ℕ) → Within total (parse_byte_range header total)
unfolding parse_byte_range
parse_byte_range-Within header total = go (strip_prefix (codes "bytes=") header) refl
  where
    go :
        (p : Option Text)
        → strip_prefix (codes "bytes=") header ≡ p
        → Within total (elim p [
          | none ↦ malformed
          | some spec ↦ parse_spec total (trim (first_of (split b',' spec)))
        ])
    go none e = tt
    go (some spec) e = parse_spec-Within total _ (trim (first_of (split b',' spec))) refl
