-- ===== src/Protocol.antt =====
-- The messages of ws.rs (`msg`) and the events of lib.rs that the tasks of the connections share.
use vaultcrdt_server.Base.{
  nat_eq, list_eq, option_eq, pair_eq, Bytes, Text, ℕ, String, Bool, Option, List,
}
use vaultcrdt_server.Base.Int.{ℤ}

-- db.rs: a row of the list of documents, and of the tombstones with their hashes
pub record DocEntry : Type 0 where
  pub doc_uuid : Text
  pub updated_at : ℕ
  pub server_vv : Bytes
  pub incarnation : Option ℕ

pub record TombstoneHash : Type 0 where
  pub doc_uuid : Text
  pub content_hash : Option Text

pub data ClientMsg : Type 0 where
  auth : (token : Text) (protocol_version : ℕ) (features : List Text) → ClientMsg
  ping : ClientMsg
  request_doc_list : ClientMsg
  sync_start : (doc_uuid : Text) (client_vv : Option Bytes) → ClientMsg
  sync_push :
      (doc_uuid : Text) (delta : Bytes) (peer_id : Text) (request_id : Option Text) → ClientMsg
  doc_create :
      (doc_uuid : Text) (snapshot : Bytes) (peer_id : Text) (replace_tombstone : Bool)
      (request_id : Option Text)
      → ClientMsg
  doc_delete :
      (doc_uuid peer_id : Text) (expected_incarnation : Option ℤ)
      (intent_id request_id : Option Text)
      → ClientMsg

pub data ServerMsg : Type 0 where
  auth_ok : (protocol_version : ℕ) (capabilities : Option (List String)) → ServerMsg
  pong : ServerMsg
  ack : (incarnation : Option ℕ) (request_id : Option Text) → ServerMsg
  error : (code message : String) (request_id : Option Text) → ServerMsg
  delete_rejected : (doc_uuid : Text) (intent_id request_id : Option Text) → ServerMsg
  doc_list :
      (docs : List DocEntry) (tombstones : List Text) (tombstone_hashes : List TombstoneHash)
      → ServerMsg
  sync_delta : (doc_uuid : Text) (delta server_vv : Bytes) (incarnation : Option ℕ) → ServerMsg
  doc_unknown : (doc_uuid : Text) → ServerMsg
  delta_broadcast :
      (doc_uuid : Text) (delta : Bytes) (peer_id : Text) (server_vv : Bytes)
      (incarnation : Option ℕ)
      → ServerMsg
  doc_deleted : (doc_uuid : Text) (content_hash : Option Text) → ServerMsg
  doc_tombstoned : (doc_uuid : Text) → ServerMsg
  create_conflict : (doc_uuid : Text) → ServerMsg
  blob_path_changed : (path_key : Text) (seq : ℕ) → ServerMsg

pub data BroadcastEvent : Type 0 where
  delta :
      (vault_id doc_uuid : Text) (delta : Bytes) (peer_id : Text) (sender_conn_id : ℕ)
      (server_vv : Bytes) (incarnation : Option ℕ)
      → BroadcastEvent
  delete :
      (vault_id doc_uuid : Text) (sender_conn_id : ℕ) (content_hash : Option Text) → BroadcastEvent
  blob_path_changed : (vault_id path_key : Text) (seq : ℕ) → BroadcastEvent
