-- ===== src/Tests/Auth.antt =====
-- Instances of the theorems on secrets and attempts.
use vaultcrdt_server.Base.{
  tests, nat_eq, list_eq, option_eq, pair_eq, Text, codes, ℕ, zero, suc, ◌+◌, ◌≤◌, ◌≡◌, refl, ◌↔◌,
  true, false, none, some, [], ◌∷◌, arith,
}
use vaultcrdt_server.Table.{find}
use vaultcrdt_server.Auth.{Windows, constant_time_eq, check}
use vaultcrdt_server.Auth.Compare.{constant_time_eq_lem}
use vaultcrdt_server.Auth.Limit.{IsLimited, check-IsLimited, accepted, accepted_at_most_ten}

constant_time_eq_lem_example :
    (constant_time_eq (codes "abc") (codes "abd") ≡ true) ↔ (codes "abc" ≡ codes "abd")
constant_time_eq_lem_example = constant_time_eq_lem (codes "abc") (codes "abd")

-- A secret and the same with a zero byte after it.
padded_differs : constant_time_eq (97 ∷ []) (97 ∷ 0 ∷ []) ≡ false
unfolding constant_time_eq
padded_differs = refl

-- One attempt of 203.0.113.9 at second 100.
abbrev client : Text
client = codes "203.0.113.9"

abbrev one_attempt : Windows
one_attempt = (client, (100, 1)) ∷ []

one_attempt_found : find client one_attempt ≡ some (100, 1)
unfolding find vaultcrdt_server.Base.list_beq
one_attempt_found = refl

nothing_else : find {V = ℕ × ℕ} client [] ≡ none
unfolding find
nothing_else = refl

accepted_at_most_ten_example :
    accepted client ((client, 101) ∷ (client, 159) ∷ []) one_attempt + 1 ≤ 10
accepted_at_most_ten_example =
    accepted_at_most_ten client 100 1 ((client, 101) ∷ (client, 159) ∷ []) one_attempt
      (nothing_else, tt) one_attempt_found (omega arith) (omega arith, (omega arith, tt))

no_windows-IsLimited : IsLimited []
unfolding find
no_windows-IsLimited = record {
  keys = tt;
  counts = λ key start count f. absurd (cc f);
  size = omega arith;
}

check-IsLimited_example : IsLimited (check client 100 []).1
check-IsLimited_example = check-IsLimited client 100 [] no_windows-IsLimited
