-- ===== src/Auth/Limit.antt =====
-- What the limit on attempts promises.
use vaultcrdt_server.Base.{
  leb, if◌then◌else◌, Bool-cases, is_some, is_none, ◌==◌, eq_iff, nat_eq, list_eq, option_eq,
  pair_eq, length, All, Text, ℕ, ◌+◌, ◌≤◌, ◌<◌, ◌≡◌, refl, ap, ◌∙◌, ◌⊎◌, inl, inr, Bool, true,
  false, ◌&&◌, Option, none, some, List, [], ◌∷◌, arith,
}
use vaultcrdt_server.Table.{find, put}
use vaultcrdt_server.Table.Laws.{
  HasKeys, keep_unless, find-put, find-delete_where, put-HasKeys, delete_where-HasKeys, length-put,
  put-cases, count-delete_where,
}
use vaultcrdt_server.Auth.{
  Windows, auth_request_limit, auth_window_secs, auth_max_keys, is_over, retained, count_attempt,
  check,
}

-- Each key is there once, no key has more than ten attempts, and there are at most 65,536 keys.
pub record IsLimited (windows : Windows) : Type 0 where
  pub keys : HasKeys windows
  pub counts : (key : Text) (start count : ℕ) → find key windows ≡ some (start, count) → count ≤ 10
  pub size : length windows ≤ auth_max_keys

module _ (now : ℕ) (windows : Windows) (keys : HasKeys windows) where
  find-retained :
      (key : Text)
      → find key (retained now windows) ≡ keep_unless (is_over now) key (find key windows)
  unfolding retained
  find-retained key = find-delete_where (is_over now) key windows keys

  retained_row :
      (key : Text) (row : ℕ × ℕ)
      → find key (retained now windows) ≡ some row
      → find key windows ≡ some row
  retained_row key row h = ground (arith, find-retained key)

  retained_in_window :
      (key : Text) (start count : ℕ)
      → find key windows ≡ some (start, count)
      → now < start + auth_window_secs
      → find key (retained now windows) ≡ some (start, count)
  unfolding is_over
  retained_in_window key start count f h =
      find-retained key ∙ ap (keep_unless (is_over now) key) f ∙ ground arith

retained-IsLimited :
    (now : ℕ) (windows : Windows) → IsLimited windows → IsLimited (retained now windows)
unfolding retained
retained-IsLimited now windows h = record {
  keys = delete_where-HasKeys (is_over now) windows h.keys;
  counts = λ key start count f.
      h.counts key start count (retained_row now windows h.keys key (start, count) f);
  size = omega (arith, count-delete_where (is_over now) windows, h.size);
}

written-IsLimited :
    (key : Text) (start count : ℕ) (windows : Windows)
    → IsLimited windows
    → count ≤ 10
    → (is_some (find key windows) ≡ true) ⊎ (length windows < auth_max_keys)
    → IsLimited (put key (start, count) windows)
written-IsLimited key start count windows h small room = record {
  keys = put-HasKeys key (start, count) windows h.keys;
  counts = λ j s c f. elim (put-cases key j (start, count) (s, c) windows f) [
    | inl e ↦ ground (arith, ap (λ (p : ℕ × ℕ). p.1) e.1)
    | inr old ↦ h.counts j s c old
  ];
  size = ground (arith, length-put key (start, count) windows, h.size);
}

-- The three hold of no windows, and every check keeps them.
pub check-IsLimited :
    (key : Text) (now : ℕ) (windows : Windows)
    → IsLimited windows
    → IsLimited (check key now windows).1
unfolding check
check-IsLimited key now windows h = go (find key kept) refl
  where
    kept : Windows
    kept = retained now windows

    k : IsLimited kept
    k = retained-IsLimited now windows h

    counted :
        (row : Option (ℕ × ℕ))
        → find key kept ≡ row
        → (leb auth_max_keys (length kept) && is_none row) ≡ false
        → IsLimited (count_attempt key now kept row).1
    counted none e room = written-IsLimited key now 1 kept k (omega arith) (inr (ground arith))
    counted (some (start, count)) e room = elim (Bool-cases (leb auth_request_limit count)) [
      | inl full ↦ rw full k
      | inr free ↦
          rw free
            (written-IsLimited key start (count + 1) kept k (ground arith) (inl (ground arith)))
    ]

    go :
        (row : Option (ℕ × ℕ))
        → find key kept ≡ row
        → IsLimited
            (if leb auth_max_keys (length kept) && is_none row
              then (false, kept)
              else count_attempt key now kept row).1
    go row e = elim (Bool-cases (leb auth_max_keys (length kept) && is_none row)) [
      | inl full ↦ rw full k
      | inr room ↦ rw room (counted row e room)
    ]

-- Of a sequence of attempts, by key and second, how many of one key are let through.
unfoldable pub accepted : Text → List (Text × ℕ) → Windows → ℕ
accepted key [] windows = 0
accepted key ((j, now) ∷ rest) windows =
    let (allowed, windows') = check j now windows in
    (if j == key && allowed then 1 else 0) + accepted key rest windows'

-- What one attempt does to the row of a key whose window has not passed.
record Counts (key j : Text) (start count : ℕ) (r : Bool × Windows) : Type 0 where
  count' : ℕ
  row : find key r.1 ≡ some (start, count')
  keys : HasKeys r.1
  bounded : count ≤ 10 → count' ≤ 10
  counted : count' ≡ (if j == key && r.0 then 1 else 0) + count

module _ (key : Text) (start count : ℕ) where
  unchanged :
      (j : Text) (windows : Windows)
      → HasKeys windows
      → find key windows ≡ some (start, count)
      → Counts key j start count (false, windows)
  unchanged j windows keys f = record {
    count' = count;
    row = f;
    keys = keys;
    bounded = λ h. h;
    counted = ground arith;
  }

  count_attempt-Counts :
      (j : Text) (now : ℕ) (kept : Windows)
      → HasKeys kept
      → find key kept ≡ some (start, count)
      → (row : Option (ℕ × ℕ)) → find j kept ≡ row
      → Counts key j start count (count_attempt j now kept row)
  unfolding count_attempt
  count_attempt-Counts j now kept keys f none e = record {
    count' = count;
    row = ground (arith, find-put j key (now, 1) kept, eq_iff j key);
    keys = put-HasKeys j (now, 1) kept keys;
    bounded = λ h. h;
    counted = ground (arith, eq_iff j key);
  }
  count_attempt-Counts j now kept keys f (some (s, c)) e =
      elim (Bool-cases (leb auth_request_limit c)) [
        | inl full ↦ rw full (unchanged j kept keys f)
        | inr free ↦ rw free (record {
          count' = (if j == key then 1 else 0) + count;
          row = ground (arith, find-put j key (s, c + 1) kept, eq_iff j key);
          keys = put-HasKeys j (s, c + 1) kept keys;
          bounded = λ h. ground (arith, eq_iff j key);
          counted = ground arith;
        })
      ]

  check-Counts :
      (j : Text) (now : ℕ) (windows : Windows)
      → HasKeys windows
      → find key windows ≡ some (start, count)
      → now < start + auth_window_secs
      → Counts key j start count (check j now windows)
  unfolding check
  check-Counts j now windows keys f h =
      elim (Bool-cases (leb auth_max_keys (length kept) && is_none (find j kept))) [
        | inl full ↦ rw full (unchanged j kept kept_keys still)
        | inr room ↦ rw room (count_attempt-Counts j now kept kept_keys still (find j kept) refl)
      ]
    where
      kept : Windows
      kept = retained now windows

      kept_keys : HasKeys kept
      kept_keys = unfold retained in delete_where-HasKeys (is_over now) windows keys

      still : find key kept ≡ some (start, count)
      still = retained_in_window now windows keys key start count f h

-- While the window of a key lasts, the attempts of that key that are let through, with those that were
-- counted before, are at most ten, whatever other keys do in between.
pub accepted_at_most_ten :
    (key : Text) (start count : ℕ) (calls : List (Text × ℕ)) (windows : Windows)
    → HasKeys windows
    → find key windows ≡ some (start, count)
    → count ≤ 10
    → All (λ (c : Text × ℕ). c.1 < start + auth_window_secs) calls
    → accepted key calls windows + count ≤ 10
unfolding accepted
accepted_at_most_ten key start count [] windows keys f h times = omega arith
accepted_at_most_ten key start count ((j, now) ∷ rest) windows keys f h times =
    let s = check-Counts key start count j now windows keys f times.0 in
    let more =
      accepted_at_most_ten key start s.count' rest (check j now windows).1 s.keys s.row
        (s.bounded h) times.1 in
    omega (arith, s.counted)
