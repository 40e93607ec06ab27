-- ===== src/Db.antt =====
-- The tables of migrations/*.sql. A date is the number of its seconds; SQLite's texts compare as
-- those numbers do. An `i64` that the program keeps non-negative is a number, any other an integer.
use vaultcrdt_server.Base.{nat_eq, list_eq, option_eq, pair_eq, Bytes, Text, ℕ, Option, []}
use vaultcrdt_server.Base.Int.{ℤ}
use vaultcrdt_server.Table.{Table}

pub record Vault : Type 0 where
  pub api_key : Text
  pub created_at : ℕ
  pub quota_bytes : Option ℤ

pub record Document : Type 0 where
  pub snapshot_blob : Bytes
  pub vv_blob : Bytes
  pub updated_at : ℕ
  pub incarnation : ℕ

pub record Tombstone : Type 0 where
  pub deleted_by : Text
  pub deleted_at : ℕ
  pub content_hash : Option Text
  pub incarnation : ℕ

pub record Peer : Type 0 where
  pub device_name : Text
  pub last_seen_at : ℕ

pub record Invite : Type 0 where
  pub vault_id : Text
  pub token_hash : Text
  pub inviter_peer_id : Text
  pub device_name : Option Text
  pub created_at : ℕ
  pub expires_at : ℕ
  pub used_at : Option ℕ

pub record DeviceKey : Type 0 where
  pub key_hash : Text
  pub device_name : Option Text
  pub created_at : ℕ
  pub revoked_at : Option ℕ

pub record Blob : Type 0 where
  pub size : ℕ
  pub created_at : ℕ

pub record Upload : Type 0 where
  pub vault_id : Text
  pub hash_claimed : Text
  pub size_claimed : ℕ
  pub received_bytes : ℕ
  pub created_at : ℕ
  pub updated_at : ℕ

-- CHECK(state IN ('live', 'deleted'))
pub data PathStatus : Type 0 where
  live deleted : PathStatus

pub record PathState : Type 0 where
  pub display_path : Text
  pub key_version : ℕ
  pub generation : ℕ
  pub state : PathStatus
  pub content_hash : Option Text
  pub size : Option ℕ
  pub peer_id : Text
  pub updated_at : ℕ
  pub seq : ℕ

-- A vault and a name in it: a document, a peer, a hash or a path.
abbrev pub Key : Type 0
Key = Text × Text

pub record Db : Type 0 where
  pub vaults : Table Text Vault
  pub documents : Table Key Document
  pub tombstones : Table Key Tombstone
  pub vault_incarnation : Table Text ℕ
  pub peers : Table Key Peer
  pub invites : Table ℕ Invite
  pub next_invite_id : ℕ
  pub device_keys : Table Key DeviceKey
  pub blobs : Table Key Blob
  pub uploads : Table Text Upload
  pub path_states : Table Key PathState
  pub blob_seq : ℕ

abbrev pub empty_db : Db
empty_db = record {
  vaults = [];
  documents = [];
  tombstones = [];
  vault_incarnation = [];
  peers = [];
  invites = [];
  next_invite_id = 1;
  device_keys = [];
  blobs = [];
  uploads = [];
  path_states = [];
  blob_seq = 0;
}
