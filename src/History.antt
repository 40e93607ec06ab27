-- ===== src/History.antt =====
-- The life of a server: frames of any client, in any order and with any statement failing, the
-- hourly expiry of main.rs, and pauses. A frame is one step, as the lock of its document makes it
-- for the other frames on that document.
use vaultcrdt_server.Base.{
  tests, nat_eq, list_eq, option_eq, pair_eq, Bytes, Text, ℕ, zero, suc, ◌≤◌, Option, List, arith,
}
use vaultcrdt_server.Base.Int.{ℤ}
use vaultcrdt_server.Sql.{Conn, Outcome}
use vaultcrdt_server.Loro.{Loro}
use vaultcrdt_server.Protocol.{ClientMsg}
use vaultcrdt_server.Handlers.{process_message}
use vaultcrdt_server.Retention.{expiry_pass}
pub mod Sound
pub mod Tokens

module _ (loro : Loro) (from_slice : Bytes → Option ClientMsg) where
  pub data Step (s : Conn) : Conn → Type 0 where
    frame :
        (bytes : Bytes) (vault_id : Text) (conn_id : ℕ)
        → Step s (process_message loro from_slice bytes vault_id conn_id s).1
    expiry : (tombstone_days peer_days : ℤ) → Step s (expiry_pass tombstone_days peer_days s)
    -- Which of the statements to come fail is open.
    pause :
        (t : ℕ) (outcomes : List Outcome)
        → s.now ≤ t
        → Step s (record s { now = t; outcomes = outcomes })

  pub data History (s : Conn) : Conn → Type 0 where
    start : History s s
    later : {t u : Conn} → History s t → Step t u → History s u
