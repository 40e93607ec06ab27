-- ===== src/Documents/Tokens.antt =====
-- The incarnation tokens: every row's token was given out before, and the counter only rises.
use vaultcrdt_server.Base.{
  if◌then◌else◌, is_some, ◌==◌, eq_iff, nat_eq, list_eq, option_eq, pair_eq, Bytes, Text, ℕ, ◌+◌,
  ◌≤◌, ◌<◌, ◌≡◌, refl, ap, ◌∙◌, subst, ◌⊎◌, inl, inr, false, ◌&&◌, none, some, arith,
}
use vaultcrdt_server.Table.{find, put}
use vaultcrdt_server.Table.Laws.{find-put, put-cases}
use vaultcrdt_server.Db.{Db, Key, Document}
use vaultcrdt_server.Documents.{replace_document}
use vaultcrdt_server.Documents.Spec.{next_token, with_next_token}

-- A row's token is at least 1 and below the counter of its vault, and no path has a row and a
-- tombstone at once.
pub record IsSound (d : Db) : Type 0 where
  pub given_out :
      (v u : Text) (row : Document)
      → find (v, u) d.documents ≡ some row
      → (1 ≤ row.incarnation) × (row.incarnation < next_token v d)
  pub counting : (v : Text) → 1 ≤ next_token v d
  pub apart : (k : Key) → (is_some (find k d.documents) && is_some (find k d.tombstones)) ≡ false

-- From one state to a later one the counters do not fall, and a row of the later state has the
-- token of the row that stood at its path, or one that was still to be given out.
pub record Grows (d d' : Db) : Type 0 where
  pub counters : (v : Text) → next_token v d ≤ next_token v d'
  pub tokens :
      (v u : Text) (row : Document)
      → find (v, u) d'.documents ≡ some row
      → ((old : Document) × (find (v, u) d.documents ≡ some old)
          × (row.incarnation ≡ old.incarnation))
        ⊎ (next_token v d ≤ row.incarnation)

pub Grows-refl : (d : Db) → Grows d d
Grows-refl d = record { counters = λ v. omega arith; tokens = λ v u row e. inl (row, e, refl) }

pub Grows-trans : (a b c : Db) → Grows a b → Grows b c → Grows a c
Grows-trans a b c g h = record {
  counters = λ v. omega (arith, g.counters v, h.counters v);
  tokens = λ v u row e. elim (h.tokens v u row e) [
    | inr new ↦ inr (omega (arith, g.counters v))
    | inl (old, f, same) ↦ elim (g.tokens v u old f) [
      | inl (older, f', same') ↦ inl (older, f', same ∙ same')
      | inr new ↦ inr (omega arith)
    ]
  ];
}

module _ (v u : Text) (snapshot vv : Bytes) (t : ℕ) (d : Db) where
  -- The row of the path with token `n`, as the document functions write it.
  abbrev pub row_with : ℕ → Document
  row_with n = record { snapshot_blob = snapshot; vv_blob = vv; updated_at = t; incarnation = n }

  -- A new row under the next token.
  abbrev pub renewed : Db
  renewed =
      replace_document (v, u) snapshot vv (next_token v d) t
        (with_next_token v (next_token v d + 1) d)

  pub next_token-renewed :
      (w : Text) → next_token w renewed ≡ (if v == w then next_token v d + 1 else next_token w d)
  unfolding replace_document
  next_token-renewed w = ground (arith, find-put v w (next_token v d + 1) d.vault_incarnation)

  abbrev FromOld : Text → Text → Document → Type 0
  FromOld w x row =
      ((old : Document) × (find (w, x) d.documents ≡ some old)
        × (row.incarnation ≡ old.incarnation))
      ⊎ (next_token w d ≤ row.incarnation)

  renewed_row :
      (w x : Text) (row : Document)
      → (◌≡◌ {A = Key} (v, u) (w, x) × (row ≡ row_with (next_token v d)))
        ⊎ (find (w, x) d.documents ≡ some row)
      → FromOld w x row
  renewed_row w x row (inl (same, e)) = inr (ground (arith, ap (λ (k : Key). k.0) same))
  renewed_row w x row (inr e) = inl (row, e, refl)

  pub renewed-Grows : Grows d renewed
  unfolding replace_document
  renewed-Grows = record {
    counters = λ w. ground (arith, next_token-renewed w, eq_iff v w);
    tokens = λ w x row e.
        renewed_row w x row (put-cases (v, u) (w, x) (row_with (next_token v d)) row d.documents e);
  }

  -- A live row written again under its own token.
  abbrev pub rewritten : Document → Db
  rewritten old = replace_document (v, u) snapshot vv old.incarnation t d

  rewritten_row :
      (old : Document) (w x : Text) (row : Document)
      → find (v, u) d.documents ≡ some old
      → (◌≡◌ {A = Key} (v, u) (w, x) × (row ≡ row_with old.incarnation))
        ⊎ (find (w, x) d.documents ≡ some row)
      → FromOld w x row
  rewritten_row old w x row live (inl (same, e)) =
      inl (old, subst (λ (k : Key). find k d.documents ≡ some old) same live, ground arith)
  rewritten_row old w x row live (inr e) = inl (row, e, refl)

  pub rewritten-Grows :
      (old : Document) → find (v, u) d.documents ≡ some old → Grows d (rewritten old)
  unfolding replace_document
  rewritten-Grows old live = record {
    counters = λ w. omega arith;
    tokens = λ w x row e.
        rewritten_row old w x row live
          (put-cases (v, u) (w, x) (row_with old.incarnation) row d.documents e);
  }

  -- What a write of the path's row does to a sound state, from the token and the counters after it.
  pub written_given_out :
      (n : ℕ) (d' : Db) (w x : Text) (row : Document)
      → IsSound d
      → (1 ≤ n) × (n < next_token v d')
      → ((y : Text) → next_token y d ≤ next_token y d')
      → (◌≡◌ {A = Key} (v, u) (w, x) × (row ≡ row_with n)) ⊎ (find (w, x) d.documents ≡ some row)
      → (1 ≤ row.incarnation) × (row.incarnation < next_token w d')
  written_given_out n d' w x row s h up (inl (same, e)) =
      let eq : v ≡ w = ap (λ (k : Key). k.0) same in rw (e, ← eq) h
  written_given_out n d' w x row s h up (inr e) =
      let g = s.given_out w x row e in (g.0, omega (arith, g.1, up w))

  pub apart_after :
      (k : Key) (row : Document)
      → IsSound d
      → find (v, u) d.tombstones ≡ none
      → (is_some (find k (put (v, u) row d.documents)) && is_some (find k d.tombstones)) ≡ false
  apart_after k row s dead =
      ground (arith, find-put (v, u) k row d.documents, eq_iff {A = Key} (v, u) k, s.apart k)
