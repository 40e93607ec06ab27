-- ===== src/Sockets/Hub.antt =====
-- ws.rs and the parts of `AppState` in lib.rs that the connections share: the counter of
-- connections, the registry, the broadcast channel and the database. The channel is the list of
-- what was ever sent on it, and a receiver is its position there.
use vaultcrdt_server.Base.{
  ltb, if◌then◌else◌, nat_eq, list_eq, option_eq, pair_eq, ◌==◌, length, is_empty, Bytes, Text, ℕ,
  ◌+◌, ◌≤◌, Bool, not, ◌&&◌, ◌||◌, Option, none, some, List, [], ◌∷◌, ◌++◌,
}
use vaultcrdt_server.Errors.{Result}
use vaultcrdt_server.Table.{Table, find, put, remove}
use vaultcrdt_server.Sql.{Conn, Outcome}
use vaultcrdt_server.Loro.{Loro}
use vaultcrdt_server.Protocol.{ClientMsg, ServerMsg, BroadcastEvent}
use vaultcrdt_server.Handlers.{Reply, process_message}
use vaultcrdt_server.Handlers.Checks.{max_peer_id_bytes}
use vaultcrdt_server.Retention.{upsert_peer}
use vaultcrdt_server.Sockets.{
  FirstFrame, Handshake, refused, accepted, handshake, get_elem?, max_ws_msg_bytes,
  too_large_message,
}

-- `ConnectionInfo` and what the tasks of the connection hold.
pub record Session : Type 0 where
  pub vault_id : Text
  pub device_name : Text
  pub connected_at : ℕ
  pub has_blob_feature : Bool
  pub next_event : ℕ
  pub sent : List ServerMsg

pub record Hub : Type 0 where
  pub conn_counter : ℕ
  pub connections : Table ℕ Session
  pub events : List BroadcastEvent
  pub store : Conn

-- Task 3: what this client is told of an event, if anything.
unfoldable pub forwarded : ℕ → Session → BroadcastEvent → Option ServerMsg
forwarded conn_id session (BroadcastEvent.delta vault u delta p sender vv incarnation) =
    if vault == session.vault_id && not (sender == conn_id)
    then some (ServerMsg.delta_broadcast u delta p vv incarnation)
    else none
forwarded conn_id session (BroadcastEvent.delete vault u sender hash) =
    if vault == session.vault_id && not (sender == conn_id)
    then some (ServerMsg.doc_deleted u hash)
    else none
forwarded conn_id session (BroadcastEvent.blob_path_changed vault path seq) =
    if vault == session.vault_id && session.has_blob_feature
    then some (ServerMsg.blob_path_changed path seq)
    else none

abbrev tell : Option ServerMsg → List ServerMsg → List ServerMsg
tell none sent = sent
tell (some message) sent = sent ++ message ∷ []

abbrev pub publish : Option BroadcastEvent → List BroadcastEvent → List BroadcastEvent
publish none events = events
publish (some event) events = events ++ event ∷ []

unfoldable pub forward_to : ℕ → Option Session → Hub → Hub
unfolding forwarded
forward_to conn_id none hub = hub
forward_to conn_id (some session) hub = elim (get_elem? hub.events session.next_event) [
  | none ↦ hub
  | some event ↦ record hub {
    connections =
        put conn_id
          (record session {
            next_event = session.next_event + 1;
            sent = tell (forwarded conn_id session event) session.sent;
          })
          hub.connections;
  }
]

unfoldable pub forward_next : ℕ → Hub → Hub
unfolding forward_to
forward_next conn_id hub = forward_to conn_id (find conn_id hub.connections) hub

-- The end of a connection.
unfoldable pub disconnect : ℕ → Hub → Hub
disconnect conn_id hub = record hub { connections = remove conn_id hub.connections }

-- An event from an HTTP handler.
unfoldable pub notify : (vault_id path_key : Text) (seq : ℕ) → Hub → Hub
notify vault_id path_key seq hub = record hub {
  events = hub.events ++ BroadcastEvent.blob_path_changed vault_id path_key seq ∷ [];
}

-- The upgrade: identifiers over the limit are refused before anything else.
unfoldable pub too_long_to_upgrade : (device_name peer_id : Text) → Bool
too_long_to_upgrade device_name peer_id =
    ltb max_peer_id_bytes (length peer_id) || ltb max_peer_id_bytes (length device_name)

-- A peer without a name is not recorded, and a failure to record one is only logged.
unfoldable pub record_peer : (vault_id peer_id device_name : Text) → Conn → Conn
record_peer vault_id peer_id device_name s =
    if is_empty peer_id then s else (upsert_peer vault_id peer_id device_name s).1

unfoldable pub admit : (device_name peer_id : Text) → Handshake → ℕ → Hub → Hub
unfolding record_peer
admit device_name peer_id (refused sent reason) conn_id hub = hub
admit device_name peer_id (accepted sent vault_id has_blob_feature) conn_id hub = record hub {
  connections =
      put conn_id
        (record {
          vault_id = vault_id;
          device_name = device_name;
          connected_at = hub.store.now;
          has_blob_feature = has_blob_feature;
          next_event = length hub.events;
          sent = sent;
        })
        hub.connections;
  store = record_peer vault_id peer_id device_name hub.store;
}

module _ (loro : Loro) (from_slice : Bytes → Option ClientMsg)
    (jwt_verify : Text → Result Text) where
  unfoldable pub connect : (device_name peer_id : Text) → FirstFrame → Hub → Hub
  unfolding too_long_to_upgrade admit
  connect device_name peer_id first hub =
      if too_long_to_upgrade device_name peer_id
      then hub
      else admit device_name peer_id (handshake from_slice jwt_verify first) hub.conn_counter
          (record hub { conn_counter = hub.conn_counter + 1 })

  -- The answer goes to the writer before the event to the channel; where the writer is gone,
  -- (`reachable` is false) the connection ends and the event is not sent.
  unfoldable pub settle : (conn_id : ℕ) (reachable : Bool) → Session → Reply → Hub → Hub
  unfolding disconnect
  settle conn_id reachable session (response, broadcast) hub =
      if reachable
      then record hub {
        connections =
            put conn_id (record session { sent = session.sent ++ response ∷ [] }) hub.connections;
        events = publish broadcast hub.events;
      }
      else disconnect conn_id hub

  unfoldable pub read_from : (conn_id : ℕ) (reachable : Bool) → Bytes → Option Session → Hub → Hub
  unfolding settle
  read_from conn_id reachable bytes none hub = hub
  read_from conn_id reachable bytes (some session) hub =
      if ltb max_ws_msg_bytes (length bytes)
      then record hub {
        connections =
            put conn_id
              (record session {
                sent =
                    session.sent
                    ++ ServerMsg.error "frame_too_large" (too_large_message (length bytes)) none
                      ∷ [];
              })
              hub.connections;
      }
      else let (reply, s) =
          process_message loro from_slice bytes session.vault_id conn_id hub.store in
        settle conn_id reachable session reply (record hub { store = s })

  -- Task 2: a binary frame of the client.
  unfoldable pub read_frame : (conn_id : ℕ) (reachable : Bool) → Bytes → Hub → Hub
  unfolding read_from
  read_frame conn_id reachable bytes hub =
      read_from conn_id reachable bytes (find conn_id hub.connections) hub

  pub data Step (hub : Hub) : Hub → Type 0 where
    connecting :
        (device_name peer_id : Text) (first : FirstFrame)
        → Step hub (connect device_name peer_id first hub)
    reading :
        (conn_id : ℕ) (reachable : Bool) (bytes : Bytes)
        → Step hub (read_frame conn_id reachable bytes hub)
    forwarding : (conn_id : ℕ) → Step hub (forward_next conn_id hub)
    disconnecting : (conn_id : ℕ) → Step hub (disconnect conn_id hub)
    -- Which of the statements to come fail is open.
    pausing :
        (t : ℕ) (outcomes : List Outcome)
        → hub.store.now ≤ t
        → Step hub (record hub { store = record hub.store { now = t; outcomes = outcomes } })
    notifying : (vault_id path_key : Text) (seq : ℕ) → Step hub (notify vault_id path_key seq hub)

  pub data Run (hub : Hub) : Hub → Type 0 where
    start : Run hub hub
    later : {g h : Hub} → Run hub g → Step g h → Run hub h
