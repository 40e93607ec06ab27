-- ===== src/Documents/Listing/Laws.antt =====
-- The lists of a vault name each row once it is there, and are in the order of the names.
use vaultcrdt_server.Base.{
  tests, is_some, ◌==◌, nat_eq, list_eq, option_eq, pair_eq, any, Text, zero, suc, ◌≡◌, refl, ap,
  ◌∙◌, Bool, ◌&&◌, ◌||◌, List, [], ◌∷◌, arith,
}
use vaultcrdt_server.Base.Sorting.{insert_by, sort_by, IsSorted, sort_by-IsSorted}
use vaultcrdt_server.Table.{Table, find, select_where}
use vaultcrdt_server.Db.{Db, Key}
use vaultcrdt_server.Loro.{Loro}
use vaultcrdt_server.Protocol.{DocEntry, TombstoneHash}
use vaultcrdt_server.Documents.{has_tombstone}
use vaultcrdt_server.Documents.Listing.{
  in_vault, docs_of, doc_entry, tombstones_of, tombstone_hashes_of,
}

module _ {A : Type 0} (key : A → Text) (p : A → Bool) where
  any-insert_by : (a : A) (xs : List A) → any p (insert_by key a xs) ≡ (p a || any p xs)
  unfolding any insert_by
  any-insert_by a [] = ground arith
  any-insert_by a (b ∷ bs) = ground (arith, any-insert_by a bs)

  any-sort_by : (xs : List A) → any p (sort_by key xs) ≡ any p xs
  unfolding any sort_by
  any-sort_by [] = refl
  any-sort_by (a ∷ rest) =
      any-insert_by a (sort_by key rest) ∙ ap (λ b. p a || b) (any-sort_by rest)

module _ {V B : Type 0} (q : Key → V → Bool) (f : Key → V → B) (p : B → Bool) (k : Key) where
  any-select_where :
      (t : Table Key V)
      → ((j : Key) (r : V) → (q j r && p (f j r)) ≡ (j == k))
      → any p (select_where q f t) ≡ is_some (find k t)
  unfolding any select_where find
  any-select_where [] h = refl
  any-select_where ((j, r) ∷ t) h = ground (arith, any-select_where t h, h j r)

-- Whether a list of names has the name.
abbrev pub names : Text → List Text → Bool
names u xs = any (λ x. x == u) xs

module _ (loro : Loro) (v : Text) (d : Db) where
  -- The list of the documents of a vault has a document just if there is a row for it, the list of its
  -- tombstones just if there is a tombstone; and the list that carries the hashes likewise. The three
  -- are in ascending order of the names.
  pub doc_list_complete :
      ((u : Text)
        → (any (λ (e : DocEntry). e.doc_uuid == u) (docs_of loro v d)
            ≡ is_some (find (v, u) d.documents))
          × (names u (tombstones_of v d) ≡ has_tombstone (v, u) d)
          × (any (λ (e : TombstoneHash). e.doc_uuid == u) (tombstone_hashes_of v d)
              ≡ has_tombstone (v, u) d))
      × IsSorted (λ (e : DocEntry). e.doc_uuid) (docs_of loro v d)
      × IsSorted (λ u. u) (tombstones_of v d)
      × IsSorted (λ (e : TombstoneHash). e.doc_uuid) (tombstone_hashes_of v d)
  unfolding docs_of tombstones_of tombstone_hashes_of has_tombstone in_vault doc_entry
      vaultcrdt_server.Base.pair_beq
  doc_list_complete = (
    (λ u. (
      any-sort_by _ _ _ ∙ any-select_where _ _ _ (v, u) d.documents (λ j r. refl),
      any-sort_by _ _ _ ∙ any-select_where _ _ _ (v, u) d.tombstones (λ j r. refl),
      any-sort_by _ _ _ ∙ any-select_where _ _ _ (v, u) d.tombstones (λ j r. refl),
    )),
    sort_by-IsSorted _ _,
    sort_by-IsSorted _ _,
    sort_by-IsSorted _ _,
  )
