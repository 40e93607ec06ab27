-- ===== src/Retention.antt =====
-- db.rs, the peers of a vault and the expiry of tombstones: a tombstone stays while some peer of the
-- vault has not been seen after the delete. main.rs runs both deletions every hour.
use vaultcrdt_server.Base.{
  ltb, leb, nat_beq, if◌then◌else◌, tests, is_some, ◌==◌, nat_eq, list_eq, option_eq, pair_eq, Text,
  ℕ, zero, suc, ◌+◌, ◌*◌, Bool, false, ◌&&◌, Option, arith,
}
use vaultcrdt_server.Base.Int.{ℤ, pos, negsuc}
use vaultcrdt_server.Table.{Table, find, put, remove, delete_where, count_where}
use vaultcrdt_server.Db.{Db, Key, Peer, Tombstone}
use vaultcrdt_server.Sql.{Conn, Sql, execute, query}
pub mod Laws

abbrev pub seconds_per_day : ℕ
seconds_per_day = 86400

-- `t < datetime('now', '-' || days || ' days')`; with a negative number the modifier is no modifier,
-- `datetime` is NULL, and the comparison holds of no row.
unfoldable pub older_than : ℤ → ℕ → ℕ → Bool
older_than (pos days) now t = ltb (t + days * seconds_per_day) now
older_than (negsuc n) now t = false

unfoldable pub upsert_peer : Text → Text → Text → Sql (Unit {0})
upsert_peer vault_id peer_id device_name = execute (λ t d. (
  tt,
  record d {
    peers =
        put (vault_id, peer_id) (record { device_name = device_name; last_seen_at = t }) d.peers;
  },
))

unfoldable pub get_peer : Text → Text → Sql (Option Peer)
get_peer vault_id peer_id = query (λ _ d. find (vault_id, peer_id) d.peers)

unfoldable pub delete_peer : Text → Text → Sql ℕ
delete_peer vault_id peer_id = execute (λ _ d. (
  (if is_some (find (vault_id, peer_id) d.peers) then 1 else 0),
  record d { peers = remove (vault_id, peer_id) d.peers },
))

unfoldable pub not_seen_since : Text → ℕ → Key → Tombstone → Bool
not_seen_since vault_id last_seen_at (v, u) r = v == vault_id && leb last_seen_at r.deleted_at

unfoldable pub count_peer_blocked_tombstones : Text → ℕ → Sql ℕ
unfolding not_seen_since
count_peer_blocked_tombstones vault_id last_seen_at =
    query (λ _ d. count_where (not_seen_since vault_id last_seen_at) d.tombstones)

unfoldable pub blocks : Text → ℕ → Key → Peer → Bool
blocks vault_id deleted_at (v, p) peer = v == vault_id && leb peer.last_seen_at deleted_at

-- The rows that `expire_tombstones` deletes.
unfoldable pub expired : ℤ → ℕ → Table Key Peer → Key → Tombstone → Bool
unfolding older_than blocks
expired max_age_days now peers (v, u) r =
    older_than max_age_days now r.deleted_at
    && nat_beq (count_where (blocks v r.deleted_at) peers) 0

unfoldable pub expire_tombstones_at : ℤ → ℕ → Db → ℕ × Db
unfolding expired
expire_tombstones_at max_age_days now d = (
  count_where (expired max_age_days now d.peers) d.tombstones,
  record d { tombstones = delete_where (expired max_age_days now d.peers) d.tombstones },
)

unfoldable pub expire_tombstones : ℤ → Sql ℕ
unfolding expire_tombstones_at
expire_tombstones max_age_days = execute (expire_tombstones_at max_age_days)

unfoldable pub stale : ℤ → ℕ → Key → Peer → Bool
unfolding older_than
stale max_age_days now k peer = older_than max_age_days now peer.last_seen_at

unfoldable pub expire_stale_peers_at : ℤ → ℕ → Db → ℕ × Db
unfolding stale
expire_stale_peers_at max_age_days now d = (
  count_where (stale max_age_days now) d.peers,
  record d { peers = delete_where (stale max_age_days now) d.peers },
)

unfoldable pub expire_stale_peers : ℤ → Sql ℕ
unfolding expire_stale_peers_at
expire_stale_peers max_age_days = execute (expire_stale_peers_at max_age_days)

-- main.rs, the part of the hourly task on these tables: a failure of the one is logged, and the other still runs.
unfoldable pub expiry_pass : ℤ → ℤ → Conn → Conn
unfolding expire_tombstones expire_stale_peers
expiry_pass tombstone_days peer_days s =
    (expire_stale_peers peer_days (expire_tombstones tombstone_days s).1).1
