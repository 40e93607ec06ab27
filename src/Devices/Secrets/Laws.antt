-- ===== src/Devices/Secrets/Laws.antt =====
-- A secret is as long as was asked and drawn from its alphabet, and it is there in time.
use vaultcrdt_server.Base.{
  if◌then◌else◌, tests, ltb, leb, nat_beq, nat_beq_iff, length, length-append, keep_if, All, Bytes,
  Text, ℕ, zero, suc, ◌+◌, ◌-◌, ◌%◌, ◌≤◌, ◌<◌, ◌≡◌, refl, sym, ap, ◌∙◌, subst, Bool, true, false,
  not, ◌||◌, Option, none, some, List, [], ◌∷◌, ◌++◌, arith, Bool-cases, ◌⊎◌, inl, inr,
}
use vaultcrdt_server.Base.Strings.{has}
use vaultcrdt_server.Devices.Secrets.{char_at, passed_over, chosen, use_bytes, fill, random_secret}

char_at-has : (s : Text) (i : ℕ) → i < length s → has (char_at s i) s ≡ true
unfolding char_at vaultcrdt_server.Base.any
char_at-has [] i l = absurd (omega arith)
char_at-has (c ∷ s) zero l = ground (arith, nat_beq_iff c c)
char_at-has (c ∷ s) (suc i) l = ground (arith, char_at-has s i)

All-append : (P : ℕ → Type 0) (s : Text) (c : ℕ) → All P s → P c → All P (s ++ c ∷ [])
All-append P [] c h p = (p, tt)
All-append P (b ∷ s) c h p = (h.0, All-append P s c h.1 p)

module _ (len : ℕ) (alphabet : Text) where
  -- Whether a UUID has a byte, from the `i`th on, that is not passed over.
  unfoldable pub yields : ℕ → Bytes → Bool
  yields i [] = false
  yields i (byte ∷ bytes) =
      let rest = yields (i + 1) bytes in if passed_over len alphabet i byte then rest else true

  abbrev IsDrawn : Text → Type 0
  IsDrawn s = All (λ c. has c alphabet ≡ true) s

  record IsLonger (result longer : Text) (more : Bool) : Type 0 where
    at_least : length result ≤ length longer
    at_most : length longer ≤ len
    drawn : IsDrawn longer
    grows : more ≡ true → length result < length longer

  chosen-has : (byte : ℕ) → 0 < length alphabet → has (chosen len alphabet byte) alphabet ≡ true
  unfolding chosen
  chosen-has byte l = char_at-has alphabet (byte % length alphabet) (omega arith)

  use_bytes-IsLonger :
      (i : ℕ) (bytes : Bytes) (result : Text)
      → 0 < length alphabet
      → length result < len
      → IsDrawn result
      → IsLonger result (use_bytes len alphabet i bytes result) (yields i bytes)
  unfolding use_bytes yields
  use_bytes-IsLonger i [] result l short drawn = record {
    at_least = omega arith;
    at_most = omega arith;
    drawn = drawn;
    grows = λ e. absurd (cc e);
  }
  use_bytes-IsLonger i (byte ∷ bytes) result l short drawn =
      elim (Bool-cases (passed_over len alphabet i byte)) [
        | inl skip ↦ rw skip (use_bytes-IsLonger (i + 1) bytes result l short drawn)
        | inr use_it ↦ elim (Bool-cases (nat_beq (length next) len)) [
          | inl full ↦
              rw (use_it, full)
                (record {
                  at_least = ground (arith, next_length);
                  at_most = ground (arith, nat_beq_iff (length next) len);
                  drawn = next_drawn;
                  grows = λ _. ground (arith, next_length);
                })
          | inr not_full ↦
              rw (use_it, not_full)
                (longer not_full (
                  use_bytes-IsLonger (i + 1) bytes next l
                    (ground (arith, next_length, nat_beq_iff (length next) len)) next_drawn))
        ]
      ]
    where
      next : Text
      next = result ++ chosen len alphabet byte ∷ []

      next_drawn : IsDrawn next
      next_drawn = All-append _ result (chosen len alphabet byte) drawn (chosen-has byte l)

      next_length : length next ≡ length result + 1
      next_length = length-append result (chosen len alphabet byte ∷ [])

      longer :
          nat_beq (length next) len ≡ false
          → IsLonger next (use_bytes len alphabet (i + 1) bytes next) (yields (i + 1) bytes)
          → IsLonger result (use_bytes len alphabet (i + 1) bytes next) true
      longer not_full r = record {
        at_least = ground (arith, next_length, r.at_least);
        at_most = r.at_most;
        drawn = r.drawn;
        grows = λ _. ground (arith, next_length, r.at_least);
      }

  abbrev pub useful : List Bytes → List Bytes
  useful uuids = keep_if (yields 0) uuids

  fill_enough :
      (uuids : List Bytes) (result : Text)
      → 0 < length alphabet
      → length result ≤ len
      → IsDrawn result
      → len ≤ length result + length (useful uuids)
      → (s : Text) × (fill len alphabet uuids result ≡ some s) × (length s ≡ len) × IsDrawn s
  unfolding fill vaultcrdt_server.Base.keep_if
  fill_enough [] result l most drawn enough = (result, ground arith, omega arith, drawn)
  fill_enough (uuid ∷ uuids) result l most drawn enough =
      elim (Bool-cases (ltb (length result) len)) [
        | inl short ↦
            let r = use_bytes-IsLonger 0 uuid result l (ground arith) drawn in
            let (s, e, n, d) =
              fill_enough uuids (use_bytes len alphabet 0 uuid result) l r.at_most r.drawn
                (left r (Bool-cases (yields 0 uuid))) in
            (s, rw short e, n, d)
        | inr full ↦ (result, rw full refl, ground arith, drawn)
      ]
    where
      left :
          IsLonger result (use_bytes len alphabet 0 uuid result) (yields 0 uuid)
          → (yields 0 uuid ≡ true) ⊎ (yields 0 uuid ≡ false)
          → len ≤ length (use_bytes len alphabet 0 uuid result) + length (useful uuids)
      left r (inl more) = ground (arith, r.grows more, enough)
      left r (inr none_more) = ground (arith, r.at_least, enough)

-- A secret of `len` characters of an alphabet that is not empty is drawn as soon as `len` of the UUIDs have
-- had a byte that is not passed over.
pub random_secret_lem :
    (len : ℕ) (alphabet : Text) (uuids : List Bytes)
    → 0 < length alphabet
    → len ≤ length (useful len alphabet uuids)
    → (s : Text) × (random_secret len alphabet uuids ≡ some s)
      × (length s ≡ len)
      × All (λ c. has c alphabet ≡ true) s
unfolding random_secret
random_secret_lem len alphabet uuids l enough =
    fill_enough len alphabet uuids [] l (omega arith) tt (omega arith)
