-- ===== src/Blobs/Paths/Listing.antt =====
-- blobs.rs, `list_blob_paths`: a page of the path rows of a vault, in the order of their numbers. The
-- column `env_json` is never written and is left out.
pub mod Order
pub mod Tails
pub mod Laws
use vaultcrdt_server.Base.{
  if◌then◌else◌, tests, leb, ◌==◌, nat_eq, list_eq, option_eq, pair_eq, take, Text, ℕ, min, max,
  Bool, ◌&&◌, List, [], ◌∷◌,
}
use vaultcrdt_server.Base.Int.{ℤ, pos, negsuc, ltb_ℤ}
use vaultcrdt_server.Base.Sorting.{sort_by}
use vaultcrdt_server.Table.{select_where}
use vaultcrdt_server.Db.{Db, Key, PathState}
use vaultcrdt_server.Sql.{Sql, pure, ◌>>=◌, query}

-- A path with its row.
abbrev pub Entry : Type 0
Entry = Text × PathState

pub record StatesPage : Type 0 where
  pub states : List Entry
  pub max_seq : ℕ

unfoldable pub page_limit : ℤ → ℕ
page_limit (pos n) = if leb n 0 then 1000 else min n 1000
page_limit (negsuc n) = 1000

-- The number as a text of one character, which orders as the number does.
abbrev pub seq_key : Entry → Text
seq_key (path, row) = row.seq ∷ []

abbrev pub is_after : Text → ℤ → Key → PathState → Bool
is_after vault_id since k row = k.0 == vault_id && ltb_ℤ since (pos row.seq)

abbrev pub entry : Key → PathState → Entry
entry k row = (k.1, row)

unfoldable pub states_after : Text → ℤ → Db → List Entry
states_after vault_id since d =
    sort_by seq_key (select_where (is_after vault_id since) entry d.path_states)

abbrev pub largest : List ℕ → ℕ
largest [] = 0
largest (n ∷ ns) = max n (largest ns)

unfoldable pub max_seq_of : Text → Db → ℕ
max_seq_of vault_id d =
    largest (select_where (λ k row. k.0 == vault_id) (λ k row. row.seq) d.path_states)

unfoldable pub list_blob_paths : Text → ℤ → ℤ → Sql StatesPage
unfolding states_after max_seq_of page_limit
list_blob_paths vault_id since_seq limit = do
  max_seq ← query (λ _ d. max_seq_of vault_id d)
  states ← query (λ _ d. take (page_limit limit) (states_after vault_id since_seq d))
  pure (record { states = states; max_seq = max_seq })
