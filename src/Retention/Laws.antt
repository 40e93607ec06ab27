-- ===== src/Retention/Laws.antt =====
-- When a tombstone expires.
use vaultcrdt_server.Base.{
  ltb, if◌then◌else◌, le→leb, Bool-cases, eq_iff, eq_refl, nat_eq, list_eq, option_eq, pair_eq,
  Text, ℕ, ◌+◌, ◌*◌, ◌≤◌, ◌≡◌, ap, ◌∙◌, subst, ◌↔◌, ◌⊎◌, inl, inr, false, none, some, arith,
}
use vaultcrdt_server.Base.Int.{pos}
use vaultcrdt_server.Table.{find, delete_where, count_where}
use vaultcrdt_server.Table.Laws.{
  HasKeys, keep_unless, find-delete_where, count_where-found, Found-count_where, Found,
}
use vaultcrdt_server.Db.{Db, Peer, Tombstone}
use vaultcrdt_server.Retention.{seconds_per_day, older_than, blocks, expired, expire_tombstones_at}

-- Some peer of the vault was last seen no later than the delete.
abbrev pub Awaited : Text → Tombstone → Db → Type 0
Awaited v r d =
    (p : Text) × (peer : Peer) × (find (v, p) d.peers ≡ some peer)
    × (peer.last_seen_at ≤ r.deleted_at)

module _ (v : Text) (r : Tombstone) (d : Db) where
  Awaited-blocks : Awaited v r d → 1 ≤ count_where (blocks v r.deleted_at) d.peers
  unfolding blocks
  Awaited-blocks (p, peer, f, seen) =
      count_where-found (blocks v r.deleted_at) (v, p) peer d.peers f
        (ground (arith, eq_refl v, le→leb peer.last_seen_at r.deleted_at))

  Found-Awaited : Found (blocks v r.deleted_at) d.peers → Awaited v r d
  unfolding blocks
  Found-Awaited ((w, p), peer, f, b) = (
    p,
    peer,
    subst (λ x. find (x, p) d.peers ≡ some peer) (ground (arith, eq_iff w v)) f,
    ground arith,
  )

  blocks-Awaited : HasKeys d.peers → 1 ≤ count_where (blocks v r.deleted_at) d.peers → Awaited v r d
  blocks-Awaited keys h = Found-Awaited (Found-count_where (blocks v r.deleted_at) d.peers keys h)

module _ (days now : ℕ) (v u : Text) (r : Tombstone) (d : Db) where
  -- Not expired: too young, or awaited.
  abbrev pub Stays : Type 0
  Stays = (now ≤ r.deleted_at + days * seconds_per_day) ⊎ Awaited v r d

  stays_unexpired : Stays → expired (pos days) now d.peers (v, u) r ≡ false
  unfolding expired older_than
  stays_unexpired (inl young) = ground arith
  stays_unexpired (inr awaited) = ground (arith, Awaited-blocks v r d awaited)

  unexpired_stays : HasKeys d.peers → expired (pos days) now d.peers (v, u) r ≡ false → Stays
  unfolding expired older_than
  unexpired_stays keys h = elim (Bool-cases (ltb (r.deleted_at + days * seconds_per_day) now)) [
    | inr young ↦ inl (ground arith)
    | inl old ↦ inr (blocks-Awaited v r d keys (ground arith))
  ]

  -- After the expiry a tombstone is there just if it was too young to expire, or a peer of its vault
  -- was last seen no later than the delete.
  pub expire_tombstones_at_lem :
      HasKeys d.tombstones
      → HasKeys d.peers
      → find (v, u) d.tombstones ≡ some r
      → (find (v, u) (expire_tombstones_at (pos days) now d).1.tombstones ≡ some r) ↔ Stays
  unfolding expire_tombstones_at
  expire_tombstones_at_lem keys peer_keys f = (there_stays, stays_there)
    where
      after :
          find (v, u) (delete_where (expired (pos days) now d.peers) d.tombstones)
          ≡ (if expired (pos days) now d.peers (v, u) r then none else some r)
      after =
          find-delete_where (expired (pos days) now d.peers) (v, u) d.tombstones keys
          ∙ ap (keep_unless (expired (pos days) now d.peers) (v, u)) f

      there_stays :
          find (v, u) (delete_where (expired (pos days) now d.peers) d.tombstones) ≡ some r → Stays
      there_stays h = unexpired_stays peer_keys (ground (arith, after))

      stays_there :
          Stays → find (v, u) (delete_where (expired (pos days) now d.peers) d.tombstones) ≡ some r
      stays_there s = ground (arith, after, stays_unexpired s)
