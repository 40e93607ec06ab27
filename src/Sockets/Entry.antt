-- ===== src/Sockets/Entry.antt =====
-- What the handshake lets in, and what a vault keeps when others are let in.
use vaultcrdt_server.Base.{
  if◌then◌else◌, nat_eq, list_eq, option_eq, pair_eq, ◌==◌, is_empty, Bytes, Text, ℕ, ◌≡◌, ◌≢◌,
  refl, sym, ap, ◌∙◌, subst, inl, inr, Bool, true, false, not, Option, none, some, List, eq_iff,
  Bool-cases,
}
use vaultcrdt_server.Errors.{Result, ok, err}
use vaultcrdt_server.Table.{Table, find, put, remove}
use vaultcrdt_server.Table.Laws.{put-cases, remove-cases}
use vaultcrdt_server.Sql.{Conn}
use vaultcrdt_server.Sql.Refines.{Executed, execute-Executed}
use vaultcrdt_server.Db.{Db}
use vaultcrdt_server.Protocol.{ClientMsg}
use vaultcrdt_server.Handlers.Isolation.{Elsewhere}
use vaultcrdt_server.Retention.{upsert_peer}
use vaultcrdt_server.Sockets.{
  FirstFrame, Handshake, refused, accepted, handshake, greet, authenticate, protocol_version,
}
use vaultcrdt_server.Sockets.Hub.{Session, record_peer}

-- What the two states have at a vault is the same: rows, tombstones and counter.
pub record Untouched (v : Text) (d d' : Db) : Type 0 where
  pub documents : (u : Text) → find (v, u) d'.documents ≡ find (v, u) d.documents
  pub tombstones : (u : Text) → find (v, u) d'.tombstones ≡ find (v, u) d.tombstones
  pub counter : find v d'.vault_incarnation ≡ find v d.vault_incarnation

abbrev inserted : Text → Text → Text → ℕ → Db → Unit {0} × Db
inserted vault_id peer_id device_name t d = (
  tt,
  record d {
    peers =
        put (vault_id, peer_id) (record { device_name = device_name; last_seen_at = t }) d.peers;
  },
)

module _ (v : Text) where
  pub Untouched-refl : (d : Db) → Untouched v d d
  Untouched-refl d = record { documents = λ u. refl; tombstones = λ u. refl; counter = refl }

  pub Untouched-trans : (a b c : Db) → Untouched v a b → Untouched v b c → Untouched v a c
  Untouched-trans a b c g h = record {
    documents = λ u. h.documents u ∙ g.documents u;
    tombstones = λ u. h.tombstones u ∙ g.tombstones u;
    counter = h.counter ∙ g.counter;
  }

  pub Elsewhere-Untouched : (w : Text) (d d' : Db) → w ≢ v → Elsewhere w d d' → Untouched v d d'
  Elsewhere-Untouched w d d' n h = record {
    documents = λ u. h.documents v u different;
    tombstones = λ u. h.tombstones v u different;
    counter = h.counters v different;
  }
    where
      different : (w == v) ≡ false
      different = elim (Bool-cases (w == v)) [
        | inl same ↦ absurd (n ((eq_iff w v).0 same))
        | inr other ↦ other
      ]

  registered :
      (w peer device : Text) (s : Conn) (r : Result (Unit {0}) × Conn)
      → Executed (inserted w peer device) s r
      → Untouched v s.db r.1.db
  registered w peer device s r (Executed.failed e d n b) =
      subst (Untouched v s.db) (sym d) (Untouched-refl s.db)
  registered w peer device s r (Executed.carried_out t n m e d b) =
      subst (Untouched v s.db) (sym d)
        (record { documents = λ u. refl; tombstones = λ u. refl; counter = refl })

  pub record_peer-Untouched :
      (w peer device : Text) (s : Conn) → Untouched v s.db (record_peer w peer device s).db
  unfolding record_peer upsert_peer
  record_peer-Untouched w peer device s = elim (Bool-cases (is_empty peer)) [
    | inl e ↦ rw (e) (Untouched-refl s.db)
    | inr e ↦ rw (e) (registered w peer device s _ (execute-Executed (inserted w peer device) s))
  ]

  -- Nobody is connected to the vault.
  abbrev pub NotHeld : Table ℕ Session → Type 0
  NotHeld t = (c : ℕ) (s : Session) → find c t ≡ some s → s.vault_id ≢ v

  pub put-NotHeld :
      (c : ℕ) (s : Session) (t : Table ℕ Session) → s.vault_id ≢ v → NotHeld t → NotHeld (put c s t)
  put-NotHeld c s t n h j r f = elim (put-cases c j s r t f) [
    | inl (same, e) ↦ λ x. n (ap (λ q. q.vault_id) (sym e) ∙ x)
    | inr old ↦ h j r old
  ]

  pub remove-NotHeld : (c : ℕ) (t : Table ℕ Session) → NotHeld t → NotHeld (remove c t)
  remove-NotHeld c t h j r f = h j r (remove-cases c j r t f)

  -- A client that is let in is let in to another vault.
  abbrev pub IsShut : Handshake → Type 0
  IsShut (refused sent reason) = Unit
  IsShut (accepted sent w blobs) = w ≢ v

  if-IsShut : (b : Bool) (x y : Handshake) → IsShut x → IsShut y → IsShut (if b then x else y)
  if-IsShut true x y g h = g
  if-IsShut false x y g h = h

  module _ (from_slice : Bytes → Option ClientMsg) (jwt_verify : Text → Result Text)
      (closed : (token : Text) → jwt_verify token ≢ ok v) where
    greet-IsShut :
        (token : Text) (r : Result Text) (version : ℕ) (features : List Text)
        → jwt_verify token ≡ r
        → IsShut (greet from_slice jwt_verify r version features)
    unfolding greet
    greet-IsShut token (err x) version features e = tt
    greet-IsShut token (ok w) version features e =
        if-IsShut (not (version == protocol_version)) _ _ tt (λ same. closed token (e ∙ ap ok same))

    authenticate-IsShut : (m : Option ClientMsg) → IsShut (authenticate from_slice jwt_verify m)
    unfolding authenticate
    authenticate-IsShut none = tt
    authenticate-IsShut (some (ClientMsg.auth token version features)) =
        greet-IsShut token (jwt_verify token) version features refl
    authenticate-IsShut (some ClientMsg.ping) = tt
    authenticate-IsShut (some ClientMsg.request_doc_list) = tt
    authenticate-IsShut (some (ClientMsg.sync_start u vv)) = tt
    authenticate-IsShut (some (ClientMsg.sync_push u delta p r)) = tt
    authenticate-IsShut (some (ClientMsg.doc_create u snapshot p replace r)) = tt
    authenticate-IsShut (some (ClientMsg.doc_delete u p expected i r)) = tt

    pub handshake-IsShut : (first : FirstFrame) → IsShut (handshake from_slice jwt_verify first)
    unfolding handshake
    handshake-IsShut FirstFrame.nothing = tt
    handshake-IsShut FirstFrame.unreadable = tt
    handshake-IsShut (FirstFrame.binary bytes) = authenticate-IsShut (from_slice bytes)
