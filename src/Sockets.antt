-- ===== src/Sockets.antt =====
-- ws.rs: the life of a connection. The first frame is the handshake; then three tasks run until one
-- of them ends: the reader, which answers the client's frames, the forwarder, which tells it of the
-- events of others, and the writer. Messages stand for their encodings; a failure of the socket,
-- of an encoding, or an inbox that lags behind ends the connection, which may happen at any moment.
use vaultcrdt_server.Base.{
  tests, ltb, if◌then◌else◌, nat_eq, list_eq, option_eq, pair_eq, ◌==◌, length, any, Bytes, Text,
  codes, ℕ, zero, suc, ◌+◌, ◌*◌, ◌/◌, ◌%◌, String, Bool, true, false, not, ◌&&◌, Option, none, some,
  List, [], ◌∷◌, ◌++◌, map, arith,
}
pub mod Hub
pub mod Entry
pub mod Access
pub mod Owners
pub mod Routing
use vaultcrdt_server.Errors.{Result, ok, err}
use vaultcrdt_server.Sql.{Conn, Outcome}
use vaultcrdt_server.Loro.{Loro}
use vaultcrdt_server.Protocol.{ClientMsg, ServerMsg, BroadcastEvent}
use vaultcrdt_server.Handlers.{Reply, process_message}
use Prim.Native.String.{◌++◌ as ◌<>◌}

abbrev pub protocol_version : ℕ
protocol_version = 1

abbrev pub max_ws_msg_bytes : ℕ
max_ws_msg_bytes = 50 * 1024 * 1024

-- What the first ten seconds bring.
pub data FirstFrame : Type 0 where
  nothing : FirstFrame
  binary : Bytes → FirstFrame
  unreadable : FirstFrame

pub data CloseReason : Type 0 where
  auth_timeout auth_required auth_invalid protocol_version_mismatch : CloseReason

-- With the messages that go to the client first.
pub data Handshake : Type 0 where
  refused : List ServerMsg → CloseReason → Handshake
  accepted : List ServerMsg → (vault_id : Text) (has_blob_feature : Bool) → Handshake

abbrev digits : List String
digits = "0" ∷ "1" ∷ "2" ∷ "3" ∷ "4" ∷ "5" ∷ "6" ∷ "7" ∷ "8" ∷ "9" ∷ []

module _ {ℓ} {A : Type ℓ} where
  unfoldable pub get_elem? : List A → ℕ → Option A
  get_elem? [] n = none
  get_elem? (x ∷ xs) zero = some x
  get_elem? (x ∷ xs) (suc n) = get_elem? xs n

unfoldable pub digit : Option String → String
digit none = ""
digit (some d) = d

-- A number in a message, with `f` at least the number of its digits.
unfoldable pub shown : ℕ → ℕ → String
unfolding digit get_elem?
shown zero n = ""
shown (suc f) n =
    let front = shown f (n / 10) in
    let d = digit (get_elem? digits (n % 10)) in if ltb n 10 then d else front <> d

unfoldable pub version_message : ℕ → String
unfolding shown
version_message client = "server=1 client=" <> shown 10 client

unfoldable pub too_large_message : ℕ → String
unfolding shown
too_large_message size =
    "frame too large (" <> shown 20 size <> " bytes, limit 50 MiB) — document not synced"

module _ (from_slice : Bytes → Option ClientMsg) (jwt_verify : Text → Result Text) where
  unfoldable pub greet : (vault_id : Result Text) (version : ℕ) (features : List Text) → Handshake
  unfolding version_message any
  greet (err e) version features = refused [] auth_invalid
  greet (ok vault_id) version features =
      if not (version == protocol_version)
      then refused (ServerMsg.error "protocol_version_mismatch" (version_message version) none ∷ [])
          protocol_version_mismatch
      else accepted (ServerMsg.auth_ok protocol_version (some ("delete_incarnation" ∷ [])) ∷ [])
          vault_id (any (λ f. f == codes "blobs") features)

  unfoldable pub authenticate : Option ClientMsg → Handshake
  unfolding greet
  authenticate (some (ClientMsg.auth token version features)) =
      greet (jwt_verify token) version features
  authenticate _ = refused [] auth_required

  unfoldable pub handshake : FirstFrame → Handshake
  unfolding authenticate
  handshake nothing = refused [] auth_timeout
  handshake unreadable = refused [] auth_required
  handshake (binary bytes) = authenticate (from_slice bytes)
