-- ===== src/History/Sound.antt =====
-- What every step keeps, and so every history.
use vaultcrdt_server.Base.{
  nat_eq, list_eq, option_eq, pair_eq, Bytes, Text, ℕ, refl, sym, subst, inl, Option, arith,
}
use vaultcrdt_server.Base.Int.{ℤ}
use vaultcrdt_server.Table.Laws.{find-delete_where-none}
use vaultcrdt_server.Db.{Db}
use vaultcrdt_server.Sql.{Conn}
use vaultcrdt_server.Sql.Refines.{Executed, execute-Executed}
use vaultcrdt_server.Loro.{Loro}
use vaultcrdt_server.Protocol.{ClientMsg}
use vaultcrdt_server.Documents.Tokens.{Grows-trans}
use vaultcrdt_server.Documents.Sound.{Keeps, Keeps-refl}
use vaultcrdt_server.Handlers.Within.{Allows, process_message-within}
use vaultcrdt_server.Handlers.Invariant.{pushed-Keeps, created-Keeps, removed-Keeps}
use vaultcrdt_server.Retention.{
  expiry_pass, expire_tombstones, expire_tombstones_at, expired, expire_stale_peers,
  expire_stale_peers_at,
}
use vaultcrdt_server.History.{Step, frame, expiry, pause, History, start, later}

Keeps-trans : (a b c : Db) → Keeps a b → Keeps b c → Keeps a c
Keeps-trans a b c h k = record {
  grows = Grows-trans a b c h.grows k.grows;
  sound = λ s. k.sound (h.sound s);
}

writes-Keeps : (loro : Loro) (v : Text) (conn_id : ℕ) → Allows loro v conn_id Keeps
writes-Keeps loro v conn_id = record {
  same = Keeps-refl;
  push = λ u delta p t d. pushed-Keeps loro v u delta p conn_id t d;
  create = λ u snapshot p replace t d. created-Keeps loro v u snapshot p conn_id t d replace;
  delete = λ u p expected i r t d. removed-Keeps loro v u p conn_id expected i r t d;
}

module _ {A : Type 0} (g : ℕ → Db → A × Db) where
  executed_within :
      (R : Db → Db → Type 0)
      → ((d : Db) → R d d)
      → ((t : ℕ) (d : Db) → R d (g t d).1)
      → (s : Conn) (r : _) → Executed g s r
      → R s.db r.1.db
  executed_within R same h s r (Executed.failed e d n b) = subst (R s.db) (sym d) (same s.db)
  executed_within R same h s r (Executed.carried_out t a b e d c) =
      subst (R s.db) (sym d) (h t s.db)

expire_tombstones_at-Keeps : (days : ℤ) (t : ℕ) (d : Db) → Keeps d (expire_tombstones_at days t d).1
unfolding expire_tombstones_at
expire_tombstones_at-Keeps days t d = record {
  grows = record { counters = λ v. omega arith; tokens = λ v u row e. inl (row, e, refl) };
  sound = λ s. record {
    given_out = s.given_out;
    counting = s.counting;
    apart = λ k.
        ground (arith, s.apart k, find-delete_where-none (expired days t d.peers) k d.tombstones);
  };
}

expire_stale_peers_at-Keeps :
    (days : ℤ) (t : ℕ) (d : Db) → Keeps d (expire_stale_peers_at days t d).1
unfolding expire_stale_peers_at
expire_stale_peers_at-Keeps days t d = record {
  grows = record { counters = λ v. omega arith; tokens = λ v u row e. inl (row, e, refl) };
  sound = λ s. record { given_out = s.given_out; counting = s.counting; apart = s.apart };
}

expiry_pass-Keeps :
    (tombstone_days peer_days : ℤ) (s : Conn)
    → Keeps s.db (expiry_pass tombstone_days peer_days s).db
unfolding expiry_pass expire_tombstones expire_stale_peers
expiry_pass-Keeps tombstone_days peer_days s =
    let s1 = (expire_tombstones tombstone_days s).1 in
    Keeps-trans s.db s1.db _
      (executed_within (expire_tombstones_at tombstone_days) Keeps Keeps-refl
        (expire_tombstones_at-Keeps tombstone_days) s _ (execute-Executed _ s))
      (executed_within (expire_stale_peers_at peer_days) Keeps Keeps-refl
        (expire_stale_peers_at-Keeps peer_days) s1 _ (execute-Executed _ s1))

module _ (loro : Loro) (from_slice : Bytes → Option ClientMsg) where
  Step-Keeps : (s t : Conn) → Step loro from_slice s t → Keeps s.db t.db
  Step-Keeps s _ (frame bytes v conn_id) =
      process_message-within loro v conn_id Keeps (writes-Keeps loro v conn_id) from_slice bytes s
  Step-Keeps s _ (expiry tombstone_days peer_days) = expiry_pass-Keeps tombstone_days peer_days s
  Step-Keeps s _ (pause t outcomes h) = Keeps-refl s.db

  pub History-Keeps : (s t : Conn) → History loro from_slice s t → Keeps s.db t.db
  History-Keeps s _ start = Keeps-refl s.db
  History-Keeps s u (later {t} h e) =
      Keeps-trans s.db t.db u.db (History-Keeps s t h) (Step-Keeps t u e)
