-- ===== src/Cli/Commands/Amounts.antt =====
-- cli.rs, `vault_quota`: the argument that stands for a quota.
use vaultcrdt_server.Base.{
  if◌then◌else◌, leb, nat_eq, list_eq, option_eq, pair_eq, ◌==◌, Bool-cases, inl, inr, Text, codes,
  ℕ, ◌<◌, ◌^◌, ◌-◌, ◌≡◌, refl, sym, ap, ◌∙◌, subst, Bool, true, false, Option, none, some, arith,
}
use vaultcrdt_server.Base.Int.{ℤ, pos}
use vaultcrdt_server.Base.Decimal.{parse_unsigned}
use vaultcrdt_server.Cli.Commands.{parse_quota}

-- The argument is `default`, or a number of an `i64`.
pub data IsQuota (bytes : Text) : Option ℤ → Type 0 where
  by_default : bytes ≡ codes "default" → IsQuota bytes none
  number : (n : ℕ) → parse_unsigned bytes ≡ some n → n < 2 ^ 63 → IsQuota bytes (some (pos n))

module _ (bytes : Text) (quota : Option ℤ) where
  in_range :
      (n : ℕ)
      → parse_unsigned bytes ≡ some n
      → (if leb n (2 ^ 63 - 1) then some (some (pos n)) else none) ≡ some quota
      → IsQuota bytes quota
  in_range n e f = elim (Bool-cases (leb n (2 ^ 63 - 1))) [
    | inl below ↦
        subst (IsQuota bytes) {x = some (pos n)} {y = quota} (cc (below, f))
          (number n e (ground (arith, below)))
    | inr above ↦ absurd (cc (above, f))
  ]

  parsed_number :
      (o : Option ℕ)
      → parse_unsigned bytes ≡ o
      → (elim o [ none ↦ none | some n ↦ if leb n (2 ^ 63 - 1) then some (some (pos n)) else none ])
        ≡ some quota
      → IsQuota bytes quota
  parsed_number none e f = absurd (cc f)
  parsed_number (some n) e f = in_range n e f

  pub parse_quota-IsQuota : parse_quota bytes ≡ some quota → IsQuota bytes quota
  unfolding parse_quota
  parse_quota-IsQuota e = either (bytes == codes "default") refl e
    where
      either :
          (b : Bool)
          → (bytes == codes "default") ≡ b
          → (if b then some none else elim (parse_unsigned bytes) [
            | none ↦ none
            | some n ↦ if leb n (2 ^ 63 - 1) then some (some (pos n)) else none
          ])
            ≡ some quota
          → IsQuota bytes quota
      either true same f =
          subst (IsQuota bytes) {x = none} {y = quota} (cc f)
            (by_default ((list_eq.decides bytes (codes "default")).0 same))
      either false other f = parsed_number (parse_unsigned bytes) refl f

no_number : parse_unsigned (codes "default") ≡ none
unfolding parse_unsigned
no_number = refl

pub IsQuota-parse_quota :
    (bytes : Text) (quota : Option ℤ) → IsQuota bytes quota → parse_quota bytes ≡ some quota
unfolding parse_quota vaultcrdt_server.Base.list_beq
IsQuota-parse_quota bytes _ (by_default e) = subst (λ b. parse_quota b ≡ some none) (sym e) refl
IsQuota-parse_quota bytes _ (number n e l) = elim (Bool-cases (bytes == codes "default")) [
  | inl same ↦
      absurd
        (cc (e, ap parse_unsigned ((list_eq.decides bytes (codes "default")).0 same), no_number))
  | inr other ↦ rw other (rw e (ground (arith, l)))
]
