-- ===== src/Cli/Args/Words.antt =====
-- How each argument is classified.
use vaultcrdt_server.Base.{
  if◌then◌else◌, ◌==◌, nat_eq, list_eq, option_eq, pair_eq, Bool-cases, nat_beq_iff, Text, codes,
  ◌≡◌, refl, inl, inr, false, Option, none, some, [], ◌∷◌, ◌++◌, arith,
}
use vaultcrdt_server.Base.Strings.{strip_prefix, starts_with}
use vaultcrdt_server.Cli.Args.{
  Word, json_flag, url_of, url_flag, unknown_flag, positional, or_word, word,
}

-- How an argument was classified.
pub data IsWord (arg : Text) : Word → Type 0 where
  is_flag : arg ≡ codes "--json" → IsWord arg json_flag
  is_url : (value : Text) → arg ≡ codes "--server-url=" ++ value → IsWord arg (url_of value)
  is_url_flag : arg ≡ codes "--server-url" → IsWord arg url_flag
  is_unknown : IsWord arg unknown_flag
  is_name : starts_with (codes "-") arg ≡ false → IsWord arg positional

strip_prefix_lem : (p s t : Text) → strip_prefix p s ≡ some t → s ≡ p ++ t
unfolding strip_prefix
strip_prefix_lem [] s t h = cc
strip_prefix_lem (c ∷ p) [] t h = absurd (cc h)
strip_prefix_lem (c ∷ p) (d ∷ s) t h = ground (arith, strip_prefix_lem p s t, nat_beq_iff c d)

abbrev plain_word : Text → Word
plain_word arg =
    if arg == codes "--server-url"
    then url_flag
    else if starts_with (codes "-") arg
    then unknown_flag
    else positional

plain_word-IsWord : (arg : Text) → IsWord arg (plain_word arg)
plain_word-IsWord arg = elim (Bool-cases (arg == codes "--server-url")) [
  | inl same ↦ rw same (is_url_flag ((list_eq.decides arg (codes "--server-url")).0 same))
  | inr other ↦ elim (Bool-cases (starts_with (codes "-") arg)) [
    | inl dash ↦ rw (other, dash) is_unknown
    | inr no_dash ↦ rw (other, no_dash) (is_name no_dash)
  ]
]

pub word-IsWord : (arg : Text) → IsWord arg (word arg)
unfolding word
word-IsWord arg = elim (Bool-cases (arg == codes "--json")) [
  | inl same ↦ rw same (is_flag ((list_eq.decides arg (codes "--json")).0 same))
  | inr other ↦ rw other (by_prefix arg (strip_prefix (codes "--server-url=") arg) refl)
]
  where
    by_prefix :
        (arg : Text) (o : Option Text)
        → strip_prefix (codes "--server-url=") arg ≡ o
        → IsWord arg (or_word o (plain_word arg))
    by_prefix arg none e = plain_word-IsWord arg
    by_prefix arg (some value) e =
        is_url value (strip_prefix_lem (codes "--server-url=") arg value e)
