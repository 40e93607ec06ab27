-- ===== src/Errors.antt =====
-- errors.rs: the error of every fallible operation, what a WebSocket client is told of it, and
-- the HTTP response. A foreign error inside a variant (of SQLite, jsonwebtoken, std::io) is not
-- modelled further; the messages that the program itself writes are enumerated.
use vaultcrdt_server.Base.{nat_eq, list_eq, option_eq, pair_eq, ℕ, String, Option, none, some}

-- What a `Db` error stands for: a statement that SQLite refused, or the program's own SQLITE_FULL.
pub data DbFault : Type 0 where
  statement_failed : DbFault
  incarnation_space_exhausted : DbFault

pub data Field : Type 0 where
  doc_uuid_field peer_id_field request_id_field intent_id_field : Field

pub data FrameFault : Type 0 where
  invalid_msgpack : FrameFault
  too_long : Field → FrameFault
  unexpected_auth : FrameFault

pub data SyncFault : Type 0 where
  loro_import_existing : SyncFault
  loro_import_client_delta : SyncFault
  loro_import_client_snapshot : SyncFault
  loro_decode_client_delta : SyncFault
  loro_export_snapshot : SyncFault
  loro_export_delta : SyncFault
  invalid_vv_json : SyncFault
  invalid_peer_id_in_vv : SyncFault
  invalid_vv_bytes : SyncFault

pub data ServerError : Type 0 where
  db : DbFault → ServerError
  migration : ServerError
  auth : String → ServerError
  too_many_requests : ServerError
  jwt : ServerError
  bad_frame : FrameFault → ServerError
  sync : SyncFault → ServerError
  io : ServerError

-- (stable code, client-safe text)
pub client_facing : ServerError → String × String
client_facing (bad_frame f) = ("bad_frame", "message could not be decoded")
client_facing (sync f) = ("sync_failed", "document could not be processed — not synced")
client_facing (db f) = ("storage_error", "server storage error — not synced")
client_facing migration = ("storage_error", "server storage error — not synced")
client_facing (auth m) = ("internal", "internal server error")
client_facing too_many_requests = ("internal", "internal server error")
client_facing jwt = ("internal", "internal server error")
client_facing io = ("internal", "internal server error")

-- The `error` field of the body: a fixed text, or the error's own `Display` text.
pub data ErrorBody : Type 0 where
  fixed : String → ErrorBody
  display : ServerError → ErrorBody

pub into_response : ServerError → ℕ × ErrorBody
into_response (auth m) = (401, display (auth m))
into_response too_many_requests = (429, display too_many_requests)
into_response jwt = (401, fixed "unauthorized")
into_response (db f) = (500, fixed "database error")
into_response migration = (500, fixed "database error")
into_response (sync f) = (500, fixed "sync error")
into_response (bad_frame f) = (500, display (bad_frame f))
into_response io = (500, display io)

pub data Result {ℓ} (A : Type ℓ) : Type ℓ where
  ok : A → Result A
  err : ServerError → Result A

abbrev pub or_fail {ℓ} : {A : Type ℓ} → Option A → ServerError → Result A
or_fail none e = err e
or_fail (some a) e = ok a
