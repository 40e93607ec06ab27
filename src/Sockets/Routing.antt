-- ===== src/Sockets/Routing.antt =====
-- Whom an event comes from and who is told of it.
use vaultcrdt_server.Base.{
  if◌then◌else◌, nat_eq, list_eq, option_eq, pair_eq, ◌==◌, length, Bytes, Text, ltb, All, ℕ, ◌+◌,
  ◌≡◌, ◌≢◌, refl, sym, ◌∙◌, subst, inl, inr, Bool, true, false, not, ◌&&◌, Option, none, some, [],
  eq_iff, eq_refl, Bool-cases, Option-cases, arith,
}
use vaultcrdt_server.Errors.{Result}
use vaultcrdt_server.Table.{find}
use vaultcrdt_server.Table.Laws.{remove-cases}
use vaultcrdt_server.Loro.{Loro}
use vaultcrdt_server.Protocol.{ClientMsg, ServerMsg, BroadcastEvent}
use vaultcrdt_server.Handlers.{Reply, request_id_of}
use vaultcrdt_server.Handlers.Replies.{Announces, process_message-Announces}
use vaultcrdt_server.Sockets.{Handshake, refused, accepted, handshake, get_elem?, max_ws_msg_bytes}
use vaultcrdt_server.Sockets.Hub.{
  Session, Hub, Step, connecting, reading, forwarding, disconnecting, pausing, notifying, Run,
  start, later, connect, admit, too_long_to_upgrade, read_frame, read_from, settle, forward_next,
  forward_to, forwarded, disconnect, notify,
}
use vaultcrdt_server.Sockets.Owners.{
  IsFrom, IsOwned, put-HasOwners, append-All, find-All, publish-All, joining, joining-HasOwners,
  joining-All, wider,
}

abbrev Owned : Hub → Type 0
Owned hub = (owner : ℕ → Text) × IsOwned owner hub

module _ (owner : ℕ → Text) where
  forward_to-IsOwned :
      (c : ℕ) (o : Option Session) (hub : Hub)
      → find c hub.connections ≡ o
      → IsOwned owner hub
      → IsOwned owner (forward_to c o hub)
  unfolding forward_to
  forward_to-IsOwned c none hub e h = h
  forward_to-IsOwned c (some s) hub e h = elim (Option-cases (get_elem? hub.events s.next_event)) [
    | inl f ↦ rw (forward_to, f) h
    | inr (event, f) ↦
        rw (forward_to, f)
          (put-HasOwners owner hub.conn_counter c _ hub.connections (h.0 c s e) h.0, h.1)
  ]

  admit-Owned :
      (device peer : Text) (greeting : Handshake) (hub : Hub)
      → IsOwned owner hub
      → Owned (
          admit device peer greeting hub.conn_counter
            (record hub { conn_counter = hub.conn_counter + 1 }))
  unfolding admit
  admit-Owned device peer (refused sent reason) hub h = (
    owner,
    (
      (λ c s e. let (o, l) = h.0 c s e in (o, omega (arith, l))),
      wider owner hub.conn_counter hub.events h.1,
    ),
  )
  admit-Owned device peer (accepted sent w blobs) hub h =
      let n = hub.conn_counter in
      (
        joining owner n w,
        (
          put-HasOwners (joining owner n w) (n + 1) n _ hub.connections
              (ground (arith, eq_refl n), omega arith)
              (joining-HasOwners owner n w hub.connections h.0),
          joining-All owner n w hub.events h.1,
        ),
      )

  module _ (loro : Loro) (from_slice : Bytes → Option ClientMsg)
      (jwt_verify : Text → Result Text) where
    settle-IsOwned :
        (c : ℕ) (reachable : Bool) (s : Session) (r : Option Text) (reply : Reply) (hub : Hub)
        → find c hub.connections ≡ some s
        → Announces s.vault_id c r reply
        → IsOwned owner hub
        → IsOwned owner (settle loro from_slice jwt_verify c reachable s reply hub)
    unfolding settle disconnect
    settle-IsOwned c true s r (response, broadcast) hub e a h =
        let (o, l) = h.0 c s e in
        (
          put-HasOwners owner hub.conn_counter c _ hub.connections (o, l) h.0,
          publish-All owner hub.conn_counter c s.vault_id r response broadcast hub.events o l a h.1,
        )
    settle-IsOwned c false s r (response, broadcast) hub e a h =
        ((λ j t f. h.0 j t (remove-cases c j t hub.connections f)), h.1)

    read_from-IsOwned :
        (c : ℕ) (reachable : Bool) (bytes : Bytes) (o : Option Session) (hub : Hub)
        → find c hub.connections ≡ o
        → IsOwned owner hub
        → IsOwned owner (read_from loro from_slice jwt_verify c reachable bytes o hub)
    unfolding read_from
    read_from-IsOwned c reachable bytes none hub e h = h
    read_from-IsOwned c reachable bytes (some s) hub e h =
        elim (Bool-cases (ltb max_ws_msg_bytes (length bytes))) [
          | inl f ↦
              rw f (put-HasOwners owner hub.conn_counter c _ hub.connections (h.0 c s e) h.0, h.1)
          | inr f ↦ rw f (
              settle-IsOwned c reachable s (request_id_of (from_slice bytes)) _ _ e
                (process_message-Announces loro from_slice bytes s.vault_id c hub.store) h)
        ]

module _ (loro : Loro) (from_slice : Bytes → Option ClientMsg)
    (jwt_verify : Text → Result Text) where
  Step-Owned : (hub hub' : Hub) → Owned hub → Step loro from_slice jwt_verify hub hub' → Owned hub'
  unfolding connect read_frame forward_next disconnect notify
  Step-Owned hub hub' (owner, h) (connecting device peer first) =
      elim (Bool-cases (too_long_to_upgrade device peer)) [
        | inl e ↦ rw e (owner, h)
        | inr e ↦ rw e (admit-Owned owner device peer (handshake from_slice jwt_verify first) hub h)
      ]
  Step-Owned hub hub' (owner, h) (reading c reachable bytes) = (
    owner,
    read_from-IsOwned owner loro from_slice jwt_verify c reachable bytes (find c hub.connections)
        hub refl h,
  )
  Step-Owned hub hub' (owner, h) (forwarding c) =
      (owner, forward_to-IsOwned owner c (find c hub.connections) hub refl h)
  Step-Owned hub hub' (owner, h) (disconnecting c) =
      (owner, ((λ j t f. h.0 j t (remove-cases c j t hub.connections f)), h.1))
  Step-Owned hub hub' (owner, h) (pausing t outcomes le) = (owner, h)
  Step-Owned hub hub' (owner, h) (notifying w path seq) =
      (owner, (h.0, append-All owner hub.conn_counter hub.events _ tt h.1))

  Run-Owned : (hub hub' : Hub) → Owned hub → Run loro from_slice jwt_verify hub hub' → Owned hub'
  Run-Owned hub hub' h start = h
  Run-Owned hub hub' h (later {g} run step) = Step-Owned g hub' (Run-Owned hub g h run) step

-- A connection under this number is one to the vault of `session`.
abbrev pub SameVault : Hub → ℕ → Session → Type 0
SameVault hub sender session =
    (other : Session) → find sender hub.connections ≡ some other → other.vault_id ≡ session.vault_id

-- An event of another connection to the vault of `session`, or of a path in it.
abbrev pub IsForeign : Hub → ℕ → Session → BroadcastEvent → Type 0
IsForeign hub c session (BroadcastEvent.delta v u delta p sender vv token) =
    (v ≡ session.vault_id) × (sender ≢ c) × SameVault hub sender session
IsForeign hub c session (BroadcastEvent.delete v u sender hash) =
    (v ≡ session.vault_id) × (sender ≢ c) × SameVault hub sender session
IsForeign hub c session (BroadcastEvent.blob_path_changed v path seq) =
    (v ≡ session.vault_id) × (session.has_blob_feature ≡ true)

told_only :
    (a b : Bool) (m m' : ServerMsg)
    → (if a && b then some m else none) ≡ some m'
    → (a ≡ true) × (b ≡ true)
told_only true true m m' e = (refl, refl)
told_only true false m m' e = absurd (cc e)
told_only false b m m' e = absurd (cc e)

not_same : (a b : ℕ) → not (a == b) ≡ true → a ≢ b
not_same a b e same = ground (arith, eq_iff a b)

module _ (owner : ℕ → Text) (hub : Hub) (h : IsOwned owner hub) (c : ℕ) (session : Session)
    (here : find c hub.connections ≡ some session) where
  same_vault :
      (v : Text) (sender : ℕ)
      → v ≡ session.vault_id
      → v ≡ owner sender
      → SameVault hub sender session
  same_vault v sender e o other f = (h.0 sender other f).0 ∙ sym o ∙ e

  forwarded-IsForeign :
      (event : BroadcastEvent) (message : ServerMsg)
      → IsFrom owner hub.conn_counter event
      → forwarded c session event ≡ some message
      → IsForeign hub c session event
  unfolding forwarded
  forwarded-IsForeign (BroadcastEvent.delta v u delta p sender vv token) message k e =
      let (a, b) = told_only (v == session.vault_id) (not (sender == c)) _ message e in
      let same = (eq_iff v session.vault_id).0 a in
      (same, not_same sender c b, same_vault v sender same k.0)
  forwarded-IsForeign (BroadcastEvent.delete v u sender hash) message k e =
      let (a, b) = told_only (v == session.vault_id) (not (sender == c)) _ message e in
      let same = (eq_iff v session.vault_id).0 a in
      (same, not_same sender c b, same_vault v sender same k.0)
  forwarded-IsForeign (BroadcastEvent.blob_path_changed v path seq) message k e =
      let (a, b) = told_only (v == session.vault_id) session.has_blob_feature _ message e in
      ((eq_iff v session.vault_id).0 a, b)

-- A server that has just started.
abbrev pub IsIdle : Hub → Type 0
IsIdle hub = (hub.connections ≡ []) × (hub.events ≡ [])

IsIdle-Owned : (hub : Hub) → IsIdle hub → Owned hub
unfolding find
IsIdle-Owned hub (a, b) = (
  (λ i. []),
  (
    (λ c s e. absurd (cc (subst (λ t. find c t ≡ some s) a e))),
    subst (All (IsFrom (λ i. []) hub.conn_counter)) (sym b) tt,
  ),
)

-- After any run from the start, an event that a client is told of names the vault of that client. If
-- it is about a document it comes from another connection, and if that connection is still there,
-- it is one to the same vault; if it is about a path, the client asked for such events.
pub forwarded_lem :
    (loro : Loro) (from_slice : Bytes → Option ClientMsg) (jwt_verify : Text → Result Text)
    (first hub : Hub) (c : ℕ) (session : Session) (event : BroadcastEvent) (message : ServerMsg)
    → IsIdle first
    → Run loro from_slice jwt_verify first hub
    → find c hub.connections ≡ some session
    → get_elem? hub.events session.next_event ≡ some event
    → forwarded c session event ≡ some message
    → IsForeign hub c session event
forwarded_lem loro from_slice jwt_verify first hub c session event message idle run here next told =
    let (owner, h) = Run-Owned loro from_slice jwt_verify first hub (IsIdle-Owned first idle) run in
    forwarded-IsForeign owner hub h c session here event message
      (find-All owner hub.conn_counter hub.events session.next_event event h.1 next) told
