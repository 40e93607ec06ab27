-- ===== src/Handlers/Refinement/Stored.antt =====
-- The parts that a push and a create share: the query that is asked only under a condition, and the
-- writes with the reply after them.
use vaultcrdt_server.Base.{
  nat_eq, list_eq, option_eq, pair_eq, Bytes, Text, ℕ, ◌≡◌, refl, Bool, true, false, ◌&&◌, ◌||◌,
  Option, none, some,
}
use vaultcrdt_server.Errors.{Result, ok}
use vaultcrdt_server.Db.{Db}
use vaultcrdt_server.Sql.{Sql, pure, lift, ◌>>=◌, query}
use vaultcrdt_server.Sql.Refines.{Spec, Refines, Refines-lift, Refines-ext}
use vaultcrdt_server.Sql.Transactions.{Refines-query, Refines-then}
use vaultcrdt_server.Loro.{Loro}
use vaultcrdt_server.VvSerde.{vv_to_db_bytes}
use vaultcrdt_server.Documents.Refinement.Store.{store_snapshot_with_vv-Refines}
use vaultcrdt_server.Documents.Refinement.Replace.{store_snapshot_replacing_tombstone-Refines}
use vaultcrdt_server.Handlers.{Reply, and_then, push_store, create_store}
use vaultcrdt_server.Handlers.Merge.{Merged}
use vaultcrdt_server.Handlers.Spec.{finish}

module _ (P : Db → Type 0) (spec : Spec Reply) (f : Db → Bool) where
  pub Refines-and_then :
      (a : Bool) (k : Bool → Sql Reply)
      → ((b : Bool) → Refines (λ d. P d × ((a && f d) ≡ b)) (k b) spec)
      → Refines P (and_then a (query (λ _ d. f d)) >>= k) spec
  unfolding and_then
  Refines-and_then true k h = Refines-query P spec (λ _ d. f d) k (λ t b. h b)
  Refines-and_then false k h =
      unfold pure ◌>>=◌ in
      Refines-ext P (k false) spec spec (h false) (λ d p. (p, refl)) (λ t d p. refl)

module _ (loro : Loro) (v u : Text) (incoming : Bytes) (peer_id : Text) (conn_id : ℕ) where
  abbrev end : (is_new anew : Bool) → Result (Option (Merged loro)) → Spec Reply
  end = finish loro v u incoming peer_id conn_id

  pub push_store-Refines :
      (is_new : Bool) (m : Option (Merged loro))
      → Refines
          (λ _. Unit)
          (push_store loro v u incoming peer_id conn_id is_new m)
          (end is_new false (ok m))
  unfolding push_store
  push_store-Refines is_new none = unfold pure lift in Refines-lift _ (ok _) _ (λ t d p. refl)
  push_store-Refines is_new (some (snapshot, vv)) =
      Refines-then _ _ _ _ (store_snapshot_with_vv-Refines v u snapshot (vv_to_db_bytes loro vv))

  pub create_store-Refines :
      (is_new anew : Bool) (m : Option (Merged loro))
      → Refines
          (λ _. Unit)
          (create_store loro v u incoming peer_id conn_id is_new anew m)
          (end (is_new || anew) anew (ok m))
  unfolding create_store
  create_store-Refines is_new anew none =
      unfold pure lift in Refines-lift _ (ok _) _ (λ t d p. refl)
  create_store-Refines is_new true (some (snapshot, vv)) =
      Refines-then _ _ _ _
        (store_snapshot_replacing_tombstone-Refines v u snapshot (vv_to_db_bytes loro vv))
  create_store-Refines is_new false (some (snapshot, vv)) =
      Refines-then _ _ _ _ (store_snapshot_with_vv-Refines v u snapshot (vv_to_db_bytes loro vv))
