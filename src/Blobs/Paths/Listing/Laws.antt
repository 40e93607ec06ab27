-- ===== src/Blobs/Paths/Listing/Laws.antt =====
-- A client that asks for page after page gets every row once.
use mathlib.Core.List.{append-nil}
use vaultcrdt_server.Base.{
  if◌then◌else◌, ltb, nat_eq, list_eq, option_eq, pair_eq, take, drop, length, keep_if, All, Text,
  ℕ, zero, suc, ◌-◌, min, ◌<◌, ◌≡◌, refl, sym, ap, ◌∙◌, subst, true, List, [], ◌∷◌, ◌++◌, arith,
  Bool-cases, inl, inr,
}
use vaultcrdt_server.Base.Int.{ℤ, pos, negsuc}
use vaultcrdt_server.Db.{Db}
use vaultcrdt_server.Blobs.Paths.Listing.{
  Entry, StatesPage, states_after, page_limit, list_blob_paths,
}
use vaultcrdt_server.Errors.{Result, ok, err}
use vaultcrdt_server.Sql.{execute, query, pure, ◌>>=◌}
use vaultcrdt_server.Blobs.Paths.Listing.Order.{newer, Ascends, AllDiffer, sort_by-Ascends}
use vaultcrdt_server.Blobs.Paths.Listing.Tails.{
  entries, in_order, states_after-keep_if, last_seq, keep_if-page, keep_if-keep_if, keep_if-Ascends,
  All-newer, page_ends_after, take-drop, take_all, length-drop-le,
}

zero_short : (n : ℕ) → ltb 0 (suc n) ≡ true
zero_short n = ground arith

-- A client asks for pages of at most `limit` entries, each after the last entry of the one before, until a
-- page is not full.
module _ (limit : ℕ) (page : ℤ → List Entry) where
  unfoldable pub walk : ℕ → ℤ → List Entry
  walk zero s = []
  walk (suc k) s =
      let rest = walk k (last_seq s (page s)) in
      page s ++ (if ltb (length (page s)) limit then [] else rest)

module _ (n : ℕ) (all_rows : List Entry) (ascends : Ascends all_rows) (page : ℤ → List Entry)
    (pages : (s : ℤ) → page s ≡ take (suc n) (keep_if (newer s) all_rows)) where
  walk_lem :
      (k : ℕ) (s : ℤ) (rows : List Entry)
      → keep_if (newer s) all_rows ≡ rows
      → length rows < k
      → walk (suc n) page k s ≡ rows
  unfolding walk
  walk_lem zero s rows e l = absurd (omega arith)
  walk_lem (suc k) s [] e l = rw (pages s ∙ ap (take (suc n)) e, zero_short n) refl
  walk_lem (suc k) s (row ∷ rows) kept l =
      rw (pages s ∙ ap (take (suc n)) kept)
        (elim (Bool-cases (ltb (length (take (suc n) (row ∷ rows))) (suc n))) [
          | inl short ↦ rw short (append-nil _ ∙ take_all (suc n) (row ∷ rows) (ground arith))
          | inr full ↦ rw full (
              ap (λ r. take (suc n) (row ∷ rows) ++ r)
                (walk_lem k (last_seq (pos row.1.seq) (take n rows)) (drop n rows) next
                  (omega (arith, length-drop-le n rows)))
              ∙ take-drop (suc n) (row ∷ rows))
        ])
    where
      in_order_rows : Ascends (row ∷ rows)
      in_order_rows = subst Ascends kept (keep_if-Ascends s all_rows ascends)

      first : newer s row ≡ true
      first = (subst (All (λ x. newer s x ≡ true)) kept (All-newer s all_rows)).0

      next : keep_if (newer (last_seq (pos row.1.seq) (take n rows))) all_rows ≡ drop n rows
      next =
          sym (
            keep_if-keep_if s (last_seq (pos row.1.seq) (take n rows)) all_rows
              (page_ends_after n s row rows first in_order_rows.0))
          ∙ ap (keep_if (newer (last_seq (pos row.1.seq) (take n rows)))) kept
          ∙ keep_if-page n row rows in_order_rows

-- The entries of an answer.
abbrev pub listed : Result StatesPage → List Entry
listed (ok p) = p.states
listed (err e) = []

-- A page that a client is sent when no statement fails.
abbrev pub page_sent : Text → ℤ → Db → ℕ → ℤ → List Entry
page_sent v limit d t since =
    listed (list_blob_paths v since limit (record { db = d; now = t; outcomes = [] })).0

positive_limit : (limit : ℤ) → (n : ℕ) × (page_limit limit ≡ suc n)
unfolding page_limit
positive_limit (pos zero) = (999, refl)
positive_limit (pos (suc n)) = (min (suc n) 1000 - 1, ground arith)
positive_limit (negsuc n) = (999, refl)

page_sent_lem :
    (v : Text) (limit : ℤ) (d : Db) (t : ℕ) (since : ℤ)
    → page_sent v limit d t since ≡ take (page_limit limit) (states_after v since d)
unfolding list_blob_paths ◌>>=◌ query execute pure
page_sent_lem v limit d t since = refl

-- While the tables stay as they are, no statement fails and no two rows of the vault have one number: a
-- client that asks for page after page, whatever its limit, each after the last number of the one before,
-- until a page is not full, gets the rows of the vault after a number, each once and in the order of their
-- numbers, in at most one page more than there are rows.
pub list_blob_paths-walk :
    (v : Text) (limit : ℤ) (d : Db) (t k : ℕ) (since : ℤ)
    → AllDiffer (entries v d.path_states)
    → length (states_after v since d) < k
    → walk (page_limit limit) (page_sent v limit d t) k since ≡ states_after v since d
list_blob_paths-walk v limit d t k since differ l =
    let (n, e) = positive_limit limit in
    ap (λ m. walk m (page_sent v limit d t) k since) e
    ∙ walk_lem n (in_order v d) (sort_by-Ascends (entries v d.path_states) differ)
        (page_sent v limit d t)
        (λ s.
          page_sent_lem v limit d t s
          ∙ ap (λ m. take m (states_after v s d)) e
          ∙ ap (take (suc n)) (states_after-keep_if v s d))
        k since (states_after v since d) (sym (states_after-keep_if v since d)) l
