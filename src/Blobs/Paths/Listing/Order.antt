-- ===== src/Blobs/Paths/Listing/Order.antt =====
-- Path rows with different numbers, and sorted by them.
use vaultcrdt_server.Base.{
  nat_eq, list_eq, option_eq, pair_eq, All, ℕ, ◌<◌, ◌≡◌, ◌≢◌, Bool, true, List, [], ◌∷◌, arith,
  Bool-cases, inl, inr,
}
use vaultcrdt_server.Base.Int.{ℤ, pos, ltb_ℤ}
use vaultcrdt_server.Base.Sorting.{text_le, insert_by, sort_by}
use vaultcrdt_server.Blobs.Paths.Listing.{Entry, seq_key}

abbrev pub newer : ℤ → Entry → Bool
newer since e = ltb_ℤ since (pos e.1.seq)

abbrev pub Later : ℕ → List Entry → Type 0
Later n es = All (λ e. n < e.1.seq) es

abbrev pub Ascends : List Entry → Type 0
Ascends [] = Unit
Ascends (e ∷ es) = Later e.1.seq es × Ascends es

abbrev pub Differs : ℕ → List Entry → Type 0
Differs n es = All (λ e. e.1.seq ≢ n) es

abbrev pub AllDiffer : List Entry → Type 0
AllDiffer [] = Unit
AllDiffer (e ∷ es) = Differs e.1.seq es × AllDiffer es

pub Later-Later : (m n : ℕ) (es : List Entry) → m < n → Later n es → Later m es
Later-Later m n [] l h = tt
Later-Later m n (e ∷ es) l h = (omega (arith, h.0), Later-Later m n es l h.1)

pub insert_by-Later :
    (n : ℕ) (a : Entry) (es : List Entry)
    → n < a.1.seq
    → Later n es
    → Later n (insert_by seq_key a es)
unfolding insert_by
insert_by-Later n a [] l h = (l, tt)
insert_by-Later n a (e ∷ es) l h = elim (Bool-cases (text_le (seq_key a) (seq_key e))) [
  | inl le ↦ rw le (l, h)
  | inr gt ↦ rw gt (h.0, insert_by-Later n a es l h.1)
]

pub insert_by-Differs :
    (n : ℕ) (a : Entry) (es : List Entry)
    → a.1.seq ≢ n
    → Differs n es
    → Differs n (insert_by seq_key a es)
unfolding insert_by
insert_by-Differs n a [] l h = (l, tt)
insert_by-Differs n a (e ∷ es) l h = elim (Bool-cases (text_le (seq_key a) (seq_key e))) [
  | inl le ↦ rw le (l, h)
  | inr gt ↦ rw gt (h.0, insert_by-Differs n a es l h.1)
]

pub insert_by-Ascends :
    (a : Entry) (es : List Entry)
    → Differs a.1.seq es
    → Ascends es
    → Ascends (insert_by seq_key a es)
unfolding insert_by text_le
insert_by-Ascends a [] d h = (tt, tt)
insert_by-Ascends a (e ∷ es) d h = elim (Bool-cases (text_le (seq_key a) (seq_key e))) [
  | inl le ↦ rw le ((lower le, Later-Later a.1.seq e.1.seq es (lower le) h.0), h)
  | inr gt ↦
      rw gt (insert_by-Later e.1.seq a es (ground (arith, gt)) h.0, insert_by-Ascends a es d.1 h.1)
]
  where
    lower : text_le (seq_key a) (seq_key e) ≡ true → a.1.seq < e.1.seq
    lower le = ground (arith, d.0)

pub sort_by-Differs : (n : ℕ) (es : List Entry) → Differs n es → Differs n (sort_by seq_key es)
unfolding sort_by
sort_by-Differs n [] h = tt
sort_by-Differs n (e ∷ es) h =
    insert_by-Differs n e (sort_by seq_key es) h.0 (sort_by-Differs n es h.1)

pub sort_by-Ascends : (es : List Entry) → AllDiffer es → Ascends (sort_by seq_key es)
unfolding sort_by
sort_by-Ascends [] h = tt
sort_by-Ascends (e ∷ es) h =
    insert_by-Ascends e (sort_by seq_key es) (sort_by-Differs e.1.seq es h.0)
      (sort_by-Ascends es h.1)
