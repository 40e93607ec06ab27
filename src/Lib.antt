-- ===== src/Lib.antt =====
-- The VaultCRDT server keeps the documents of a vault as Loro snapshots in SQLite, merges what the
-- clients send over WebSockets, remembers deletes as tombstones, and keeps attachments beside them.
--
-- The parts, and how they stand for the code:
-- Base: numbers, Booleans, lists and texts of the language. A string or byte vector is the list of
--   its bytes, so that `len` is `length`; `i64` and `u64` are natural numbers or integers with their
--   bounds written out where the code can meet them.
-- Table, Db: the SQLite tables (migrations/) as association lists, and all of them as one record.
--   Times are in seconds. Table.Laws has what a query sees after each statement.
-- Sql: how db.rs reaches the tables. An action takes the connection and gives a result and the
--   connection after it. Each statement may fail, as a list of outcomes to come says, and may take
--   time; a transaction that fails is rolled back. Sql.Refines and the files beside it say that an
--   action does what a pure description says or fails with no effect, Sql.Reading relates the
--   tables before and after, Sql.Results and Sql.Triples say what holds of what is returned.
-- Errors: src/errors.rs. Fnv: src/fnv.rs. VvSerde: src/vv_serde.rs. Protocol: the messages of
--   src/ws.rs and the events of src/lib.rs. Loro: the library, a parameter.
-- Documents: the document and tombstone functions of src/db.rs. Documents.Spec has their pure
--   descriptions (`stored`, `stored_anew`, `guarded`), Documents.Refinement that the code does what
--   they say; Documents.Tokens and Documents.Sound the invariant on incarnation tokens.
-- Handlers: src/handlers.rs, `process_message` and all it calls. Handlers.Spec (`pushed`,
--   `created`, `removed`), Handlers.Refinement, Handlers.Isolation, Handlers.Replies.
-- Retention: the peers of src/db.rs, the expiry of tombstones, and the hourly task of src/main.rs.
-- History: frames of any clients, expiry and pauses, in any order, as a step relation.
-- Auth: src/auth.rs, the comparison of secrets and the limit on attempts.
-- Sockets: src/ws.rs. The handshake (`handshake`), and in Sockets.Hub the shared state of `AppState`
--   and the three tasks of a connection: `read_frame`, `forward_next`, `disconnect`; `Step` and `Run`
--   are any of these in any order. The broadcast channel is the list of all events, and a receiver
--   its position there. Sockets.Entry, Sockets.Access, Sockets.Owners and Sockets.Routing are about runs.
-- Vaults: the vaults of src/db.rs and `auth_verify_body` of src/lib.rs. Devices: src/invites.rs
--   and `retire_peer_handler` of src/lib.rs.
-- Blobs: src/blobs.rs. Blobs.Names and Blobs.Ranges check what comes in, Blobs.Paths has the path
--   states and Blobs.Paths.Listing their pages. Blobs.Disk has the files beside the tables: an
--   action may fail at any call of the disk and at any statement, a write may be cut short, and a
--   process that dies is one whose calls all fail from some point on. Blobs.Uploads, its parts
--   Create, Body and Put, and Blobs.Download are the handlers of uploads and downloads; Blobs.Intact
--   has the invariant on rows and files with one file for each part of a handler, Blobs.Traffic the
--   runs of them.
-- Cli: src/cli.rs, the operator's command line and the choice in src/main.rs that leads to it: Cli.Url
--   for the setup link, Cli.Args for the words, Cli.Commands for what they do to the same tables,
--   Cli.Run for the whole. Devices.Secrets has `random_secret` of src/invites.rs.
-- Tests: runs on concrete values, and an instance of each theorem.
--
-- The lock of a document is held through a push, a create or a delete, and the lock of a path through
-- a post to it; the model runs such a request as one step. Requests on other documents may stand
-- between the statements of one in the code; every statement or transaction of theirs is atomic, and
-- in the model they come before or after the whole request.
--
-- An upload is put under the lock of its hash, which the model takes as one step too. `create_upload`
-- takes the connection three times: for the blob, for the limits and the quota, and for the row. What
-- other requests do after the first and after the second time are its arguments `between` and `later`,
-- any functions in Blobs.Uploads.Admission and any runs in Blobs.Traffic. The file of a new upload has a
-- name that nobody else knows before its row is there, so that `later` stands before both.
--
-- A command of the operator runs with no other command beside it.
--
-- Recursion is structural everywhere. The one bound is the number of digits of a decimal: 20 for a
-- `u64`, 10 for a `u32`.
--
-- Parameters: Loro, serde_json and rmp_serde; Argon2, SHA-256, jsonwebtoken; blake3 and svg_hush;
-- the texts of errors and times. What each call of the disk does to the two directories is written
-- out in Blobs.Disk. Left out: the router and the extractors of axum, tracing, the pragmas and
-- maintenance of the database, process start. Not modelled: the table of document
-- locks, which the steps above take as held; the middleware that limits attempts by the address of a
-- client, whose limiter is in Auth; the length checks of `create` in src/invites.rs.
pub mod Base
pub mod Table
pub mod Errors
pub mod Db
pub mod Sockets
pub mod Sql
pub mod Loro
pub mod Fnv
pub mod Protocol
pub mod VvSerde
pub mod Documents
pub mod Handlers
pub mod Retention
pub mod History
pub mod Auth
pub mod Blobs
pub mod Vaults
pub mod Devices
pub mod Cli
pub mod Tests
