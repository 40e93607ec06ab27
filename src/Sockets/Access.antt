-- ===== src/Sockets/Access.antt =====
-- Who can act on a vault over a socket.
use vaultcrdt_server.Base.{
  nat_eq, list_eq, option_eq, pair_eq, length, Bytes, Text, ltb, ℕ, ◌+◌, ◌≡◌, ◌≢◌, refl, sym, subst,
  inl, inr, Bool, true, false, Option, none, some, Bool-cases, Option-cases,
}
use vaultcrdt_server.Errors.{Result, ok}
use vaultcrdt_server.Table.{find}
use vaultcrdt_server.Sql.{Conn}
use vaultcrdt_server.Loro.{Loro}
use vaultcrdt_server.Protocol.{ClientMsg}
use vaultcrdt_server.Handlers.{Reply, process_message}
use vaultcrdt_server.Handlers.Isolation.{process_message-Elsewhere}
use vaultcrdt_server.Sockets.{
  FirstFrame, Handshake, refused, accepted, handshake, get_elem?, max_ws_msg_bytes,
}
use vaultcrdt_server.Sockets.Hub.{
  Session, Hub, Step, connecting, reading, forwarding, disconnecting, pausing, notifying, Run,
  start, later, connect, admit, too_long_to_upgrade, read_frame, read_from, settle, forward_next,
  forward_to, disconnect, notify,
}
use vaultcrdt_server.Sockets.Entry.{
  Untouched, Untouched-refl, Untouched-trans, Elsewhere-Untouched, record_peer-Untouched, NotHeld,
  put-NotHeld, remove-NotHeld, IsShut, handshake-IsShut,
}

module _ (v : Text) where
  -- Still nobody is connected to the vault, and nothing happened to it.
  abbrev IsKept : Hub → Hub → Type 0
  IsKept hub hub' = NotHeld v hub'.connections × Untouched v hub.store.db hub'.store.db

  forward_to-IsKept :
      (c : ℕ) (o : Option Session) (hub : Hub)
      → find c hub.connections ≡ o
      → NotHeld v hub.connections
      → IsKept hub (forward_to c o hub)
  unfolding forward_to
  forward_to-IsKept c none hub e h = (h, Untouched-refl v hub.store.db)
  forward_to-IsKept c (some s) hub e h = elim (Option-cases (get_elem? hub.events s.next_event)) [
    | inl f ↦ rw (forward_to, f) (h, Untouched-refl v hub.store.db)
    | inr (event, f) ↦
        rw (forward_to, f)
          (put-NotHeld v c _ hub.connections (h c s e) h, Untouched-refl v hub.store.db)
  ]

  admit-IsKept :
      (device peer : Text) (greeting : Handshake) (c : ℕ) (hub : Hub)
      → IsShut v greeting
      → NotHeld v hub.connections
      → IsKept hub (admit device peer greeting c hub)
  unfolding admit
  admit-IsKept device peer (refused sent reason) c hub x h = (h, Untouched-refl v hub.store.db)
  admit-IsKept device peer (accepted sent w blobs) c hub x h =
      (put-NotHeld v c _ hub.connections x h, record_peer-Untouched v w peer device hub.store)

  module _ (loro : Loro) (from_slice : Bytes → Option ClientMsg)
      (jwt_verify : Text → Result Text) where
    connect-IsKept :
        (device peer : Text) (first : FirstFrame) (hub : Hub)
        → ((token : Text) → jwt_verify token ≢ ok v)
        → NotHeld v hub.connections
        → IsKept hub (connect loro from_slice jwt_verify device peer first hub)
    unfolding connect
    connect-IsKept device peer first hub closed h =
        elim (Bool-cases (too_long_to_upgrade device peer)) [
          | inl e ↦ rw e (h, Untouched-refl v hub.store.db)
          | inr e ↦ rw e (
              admit-IsKept device peer (handshake from_slice jwt_verify first) hub.conn_counter
                (record hub { conn_counter = hub.conn_counter + 1 })
                (handshake-IsShut v from_slice jwt_verify closed first) h)
        ]

    settle-NotHeld :
        (c : ℕ) (reachable : Bool) (s : Session) (reply : Reply) (hub : Hub)
        → s.vault_id ≢ v
        → NotHeld v hub.connections
        → NotHeld v (settle loro from_slice jwt_verify c reachable s reply hub).connections
    unfolding settle disconnect
    settle-NotHeld c true s (response, broadcast) hub n h = put-NotHeld v c _ hub.connections n h
    settle-NotHeld c false s (response, broadcast) hub n h = remove-NotHeld v c hub.connections h

    settle-store :
        (c : ℕ) (reachable : Bool) (s : Session) (reply : Reply) (hub : Hub)
        → (settle loro from_slice jwt_verify c reachable s reply hub).store ≡ hub.store
    unfolding settle disconnect
    settle-store c true s (response, broadcast) hub = refl
    settle-store c false s (response, broadcast) hub = refl

    read_from-IsKept :
        (c : ℕ) (reachable : Bool) (bytes : Bytes) (o : Option Session) (hub : Hub)
        → find c hub.connections ≡ o
        → NotHeld v hub.connections
        → IsKept hub (read_from loro from_slice jwt_verify c reachable bytes o hub)
    unfolding read_from
    read_from-IsKept c reachable bytes none hub e h = (h, Untouched-refl v hub.store.db)
    read_from-IsKept c reachable bytes (some s) hub e h =
        elim (Bool-cases (ltb max_ws_msg_bytes (length bytes))) [
          | inl f ↦
              rw f (put-NotHeld v c _ hub.connections (h c s e) h, Untouched-refl v hub.store.db)
          | inr f ↦ rw f (
            settle-NotHeld c reachable s reply (record hub { store = after }) (h c s e) h,
            subst (λ x. Untouched v hub.store.db x.db)
                (sym (settle-store c reachable s reply (record hub { store = after })))
                (Elsewhere-Untouched v s.vault_id hub.store.db after.db (h c s e)
                  (process_message-Elsewhere loro from_slice bytes s.vault_id c hub.store)),
          )
        ]
      where
        reply : Reply
        reply = (process_message loro from_slice bytes s.vault_id c hub.store).0

        after : Conn
        after = (process_message loro from_slice bytes s.vault_id c hub.store).1

    Step-IsKept :
        (hub hub' : Hub)
        → ((token : Text) → jwt_verify token ≢ ok v)
        → NotHeld v hub.connections
        → Step loro from_slice jwt_verify hub hub'
        → IsKept hub hub'
    unfolding read_frame forward_next disconnect notify
    Step-IsKept hub hub' closed h (connecting device peer first) =
        connect-IsKept device peer first hub closed h
    Step-IsKept hub hub' closed h (reading c reachable bytes) =
        read_from-IsKept c reachable bytes (find c hub.connections) hub refl h
    Step-IsKept hub hub' closed h (forwarding c) =
        forward_to-IsKept c (find c hub.connections) hub refl h
    Step-IsKept hub hub' closed h (disconnecting c) =
        (remove-NotHeld v c hub.connections h, Untouched-refl v hub.store.db)
    Step-IsKept hub hub' closed h (pausing t outcomes le) = (h, Untouched-refl v hub.store.db)
    Step-IsKept hub hub' closed h (notifying w path seq) = (h, Untouched-refl v hub.store.db)

    Run-IsKept :
        (hub hub' : Hub)
        → ((token : Text) → jwt_verify token ≢ ok v)
        → NotHeld v hub.connections
        → Run loro from_slice jwt_verify hub hub'
        → IsKept hub hub'
    Run-IsKept hub hub' closed h start = (h, Untouched-refl v hub.store.db)
    Run-IsKept hub hub' closed h (later {g} run step) =
        let (h1, u1) = Run-IsKept hub g closed h run in
        let (h2, u2) = Step-IsKept g hub' closed h1 step in
        (h2, Untouched-trans v hub.store.db g.store.db hub'.store.db u1 u2)

-- While no token verifies for a vault and nobody is connected to it, no connection, frame, failure
-- or event, in any number and order, changes its rows, its tombstones and its counter, and nobody
-- gets connected to it.
pub closed_vault-Untouched :
    (loro : Loro) (from_slice : Bytes → Option ClientMsg) (jwt_verify : Text → Result Text)
    (v : Text) (hub hub' : Hub)
    → ((token : Text) → jwt_verify token ≢ ok v)
    → NotHeld v hub.connections
    → Run loro from_slice jwt_verify hub hub'
    → NotHeld v hub'.connections × Untouched v hub.store.db hub'.store.db
closed_vault-Untouched loro from_slice jwt_verify v hub hub' closed h run =
    Run-IsKept v loro from_slice jwt_verify hub hub' closed h run
