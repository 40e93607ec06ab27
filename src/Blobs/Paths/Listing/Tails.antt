-- ===== src/Blobs/Paths/Listing/Tails.antt =====
-- The rows after a number, as a tail of all of them.
use vaultcrdt_server.Base.{
  if◌then◌else◌, ◌==◌, nat_eq, list_eq, option_eq, pair_eq, take, drop, length, keep_if, All,
  All-keep_if, Text, ℕ, zero, suc, ◌≤◌, ◌<◌, ◌≡◌, refl, sym, ap, ◌∙◌, true, false, List, [], ◌∷◌,
  ◌++◌, arith, Bool-cases, ◌⊎◌, inl, inr,
}
use vaultcrdt_server.Base.Int.{ℤ, pos, ltb_ℤ}
use vaultcrdt_server.Base.Sorting.{text_le, insert_by, sort_by}
use vaultcrdt_server.Table.{Table, select_where}
use vaultcrdt_server.Db.{Db, Key, PathState}
use vaultcrdt_server.Blobs.Paths.Listing.{Entry, seq_key, is_after, entry, states_after}
use vaultcrdt_server.Blobs.Paths.Listing.Order.{newer, Later, Ascends}

-- What is after a number is a tail of what is in order.
pub keep_if-insert_by :
    (s : ℤ) (a : Entry) (es : List Entry)
    → keep_if (newer s) (insert_by seq_key a es)
      ≡ (if newer s a then insert_by seq_key a (keep_if (newer s) es) else keep_if (newer s) es)
unfolding insert_by keep_if text_le
keep_if-insert_by s a [] = ground arith
keep_if-insert_by s a (e ∷ es) = ground (arith, keep_if-insert_by s a es)

pub keep_if-sort_by :
    (s : ℤ) (es : List Entry)
    → keep_if (newer s) (sort_by seq_key es) ≡ sort_by seq_key (keep_if (newer s) es)
unfolding keep_if sort_by
keep_if-sort_by s [] = refl
keep_if-sort_by s (e ∷ es) =
    keep_if-insert_by s e (sort_by seq_key es)
    ∙ ap (λ r. if newer s e then insert_by seq_key e r else r) (keep_if-sort_by s es)
    ∙ sorted_rest (Bool-cases (newer s e))
  where
    rest : List Entry
    rest = sort_by seq_key (keep_if (newer s) es)

    sorted_rest :
        (newer s e ≡ true) ⊎ (newer s e ≡ false)
        → (if newer s e then insert_by seq_key e rest else rest)
          ≡ sort_by seq_key (if newer s e then e ∷ keep_if (newer s) es else keep_if (newer s) es)
    sorted_rest (inl keeps) = rw keeps refl
    sorted_rest (inr skips) = rw skips refl

-- The rows of the vault, as entries in the order of the table.
abbrev pub entries : Text → Table Key PathState → List Entry
entries v t = select_where (λ k row. k.0 == v) entry t

pub select_where-keep_if :
    (v : Text) (s : ℤ) (t : Table Key PathState)
    → select_where (is_after v s) entry t ≡ keep_if (newer s) (entries v t)
unfolding select_where keep_if
select_where-keep_if v s [] = refl
select_where-keep_if v s ((k, row) ∷ t) = ground (arith, select_where-keep_if v s t)

-- All rows of the vault, in order.
abbrev pub in_order : Text → Db → List Entry
in_order v d = sort_by seq_key (entries v d.path_states)

pub states_after-keep_if :
    (v : Text) (s : ℤ) (d : Db) → states_after v s d ≡ keep_if (newer s) (in_order v d)
unfolding states_after
states_after-keep_if v s d =
    ap (sort_by seq_key) (select_where-keep_if v s d.path_states)
    ∙ sym (keep_if-sort_by s (entries v d.path_states))

-- The number of the last entry, or the one before.
abbrev pub last_seq : ℤ → List Entry → ℤ
last_seq s [] = s
last_seq s (e ∷ es) = last_seq (pos e.1.seq) es

pub keep_if-Later : (n : ℕ) (es : List Entry) → Later n es → keep_if (newer (pos n)) es ≡ es
unfolding keep_if
keep_if-Later n [] h = refl
keep_if-Later n (e ∷ es) h = ground (arith, keep_if-Later n es h.1, h.0)

pub Later-last :
    (n : ℕ) (s : ℤ) (m : ℕ) (es : List Entry)
    → Later m es
    → (last_seq s (take n es) ≡ s) ⊎ (ltb_ℤ (pos m) (last_seq s (take n es)) ≡ true)
Later-last zero s m es h = inl refl
Later-last (suc n) s m [] h = inl refl
Later-last (suc n) s m (e ∷ es) h = elim (Later-last n (pos e.1.seq) m es h.1) [
  | inl same ↦ inr (rw same (ground (arith, h.0)))
  | inr more ↦ inr more
]

pub keep_if-old :
    (s : ℤ) (e : Entry) (es : List Entry)
    → newer s e ≡ false
    → keep_if (newer s) (e ∷ es) ≡ keep_if (newer s) es
unfolding keep_if
keep_if-old s e es h = rw h refl

-- An entry before `f` is not after a page that begins with `f`.
pub old_before :
    (n : ℕ) (e f : Entry) (es : List Entry)
    → e.1.seq < f.1.seq
    → Later f.1.seq es
    → newer (last_seq (pos f.1.seq) (take n es)) e ≡ false
old_before n e f es l h = elim (Later-last n (pos f.1.seq) f.1.seq es h) [
  | inl same ↦ rw same (ground (arith, l))
  | inr more ↦ ground (arith, more, l)
]

-- After the last entry of a page come those that the page has left out.
pub keep_if-page :
    (n : ℕ) (e : Entry) (es : List Entry)
    → Ascends (e ∷ es)
    → keep_if (newer (last_seq (pos e.1.seq) (take n es))) (e ∷ es) ≡ drop n es
unfolding keep_if
keep_if-page zero e es h =
    keep_if-old (pos e.1.seq) e es (ground arith) ∙ keep_if-Later e.1.seq es h.0
keep_if-page (suc n) e [] h = keep_if-old (pos e.1.seq) e [] (ground arith)
keep_if-page (suc n) e (f ∷ es) h =
    keep_if-old (last_seq (pos f.1.seq) (take n es)) e (f ∷ es) (old_before n e f es h.0.0 h.1.0)
    ∙ keep_if-page n f es h.1

pub keep_if-keep_if :
    (s s' : ℤ) (es : List Entry)
    → ltb_ℤ s s' ≡ true
    → keep_if (newer s') (keep_if (newer s) es) ≡ keep_if (newer s') es
unfolding keep_if
keep_if-keep_if s s' [] l = refl
keep_if-keep_if s s' (e ∷ es) l = ground (arith, keep_if-keep_if s s' es l, l)

pub keep_if-Ascends : (s : ℤ) (es : List Entry) → Ascends es → Ascends (keep_if (newer s) es)
unfolding keep_if
keep_if-Ascends s [] h = tt
keep_if-Ascends s (e ∷ es) h = elim (Bool-cases (newer s e)) [
  | inl keeps ↦ rw keeps (All-keep_if _ (newer s) es h.0, keep_if-Ascends s es h.1)
  | inr skips ↦ rw skips (keep_if-Ascends s es h.1)
]

pub All-newer : (s : ℤ) (es : List Entry) → All (λ e. newer s e ≡ true) (keep_if (newer s) es)
unfolding keep_if
All-newer s [] = tt
All-newer s (e ∷ es) = elim (Bool-cases (newer s e)) [
  | inl keeps ↦ rw keeps (keeps, All-newer s es)
  | inr skips ↦ rw skips (All-newer s es)
]

-- The end of a page is after what the page was asked for.
pub page_ends_after :
    (n : ℕ) (s : ℤ) (e : Entry) (es : List Entry)
    → newer s e ≡ true
    → Later e.1.seq es
    → ltb_ℤ s (last_seq (pos e.1.seq) (take n es)) ≡ true
page_ends_after n s e es l h = elim (Later-last n (pos e.1.seq) e.1.seq es h) [
  | inl same ↦ rw same l
  | inr more ↦ ground (arith, more, l)
]

pub take-drop : {A : Type 0} (n : ℕ) (xs : List A) → take n xs ++ drop n xs ≡ xs
take-drop zero xs = refl
take-drop (suc n) [] = refl
take-drop (suc n) (x ∷ xs) = ap (λ r. x ∷ r) (take-drop n xs)

pub take_all : {A : Type 0} (n : ℕ) (xs : List A) → length (take n xs) < n → take n xs ≡ xs
take_all zero xs l = absurd (omega arith)
take_all (suc n) [] l = refl
take_all (suc n) (x ∷ xs) l = ap (λ r. x ∷ r) (take_all n xs (omega arith))

pub length-drop-le : {A : Type 0} (n : ℕ) (xs : List A) → length (drop n xs) ≤ length xs
length-drop-le zero xs = omega arith
length-drop-le (suc n) [] = omega arith
length-drop-le (suc n) (x ∷ xs) = omega (arith, length-drop-le n xs)
