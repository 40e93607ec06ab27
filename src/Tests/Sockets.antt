-- ===== src/Tests/Sockets.antt =====
-- A client of one vault, and another vault that no token is for.
use vaultcrdt_server.Base.{
  tests, nat_eq, list_eq, option_eq, pair_eq, Bytes, Text, codes, ℕ, zero, suc, ◌≡◌, ◌≢◌, refl,
  true, false, Option, none, some, List, [], ◌∷◌, arith,
}
use vaultcrdt_server.Errors.{Result, ok}
use vaultcrdt_server.Db.{empty_db}
use vaultcrdt_server.Protocol.{ClientMsg, ServerMsg, BroadcastEvent}
use vaultcrdt_server.Sockets.{FirstFrame}
use vaultcrdt_server.Table.{find}
use vaultcrdt_server.Sockets.{get_elem?}
use vaultcrdt_server.Sockets.Routing.{IsForeign, forwarded_lem}
use vaultcrdt_server.Sockets.Hub.{Session, forwarded}
use vaultcrdt_server.Sockets.Hub.{Hub, Run, start, later, connecting, reading, connect, read_frame}
use vaultcrdt_server.Sockets.Entry.{NotHeld, Untouched}
use vaultcrdt_server.Sockets.Access.{closed_vault-Untouched}
use vaultcrdt_server.Tests.Toy.{toy, vault, note, peer}

abbrev decoded : Bytes → Option ClientMsg
decoded [] = none
decoded (zero ∷ rest) = some (ClientMsg.auth (codes "token") 1 (codes "blobs" ∷ []))
decoded (suc n ∷ rest) = some (ClientMsg.doc_create note (104 ∷ []) peer false none)

-- Every token is for one vault.
abbrev verify : Text → Result Text
verify token = ok (codes "w")

abbrev idle : Hub
idle = record {
  conn_counter = 0;
  connections = [];
  events = [];
  store = record { db = empty_db; now = 5; outcomes = [] };
}

abbrev joined : Hub
joined = connect toy decoded verify (codes "laptop") peer (FirstFrame.binary (0 ∷ [])) idle

abbrev wrote : Hub
wrote = read_frame toy decoded verify 0 true (1 ∷ []) joined

idle-NotHeld : NotHeld vault idle.connections
unfolding vaultcrdt_server.Table.find
idle-NotHeld c s e = absurd (cc e)

closed_vault-Untouched_example :
    NotHeld vault wrote.connections × Untouched vault idle.store.db wrote.store.db
closed_vault-Untouched_example =
    closed_vault-Untouched toy decoded verify vault idle wrote (λ token e. ground (arith, e))
      idle-NotHeld
      (later (later start (connecting (codes "laptop") peer (FirstFrame.binary (0 ∷ []))))
        (reading 0 true (1 ∷ [])))

-- A second client of the vault, before the first one writes.
abbrev both : Hub
both = connect toy decoded verify (codes "phone") (codes "q") (FirstFrame.binary (0 ∷ [])) joined

abbrev told : Hub
told = read_frame toy decoded verify 0 true (1 ∷ []) both

abbrev second : Session
second = record {
  vault_id = codes "w";
  device_name = codes "phone";
  connected_at = 5;
  has_blob_feature = true;
  next_event = 0;
  sent = ServerMsg.auth_ok 1 (some ("delete_incarnation" ∷ [])) ∷ [];
}

abbrev news : BroadcastEvent
news = BroadcastEvent.delta (codes "w") note (104 ∷ []) peer 0 (49 ∷ 44 ∷ 1 ∷ []) (some 1)

told_run :
    (find 1 told.connections ≡ some second)
    × (get_elem? told.events 0 ≡ some news)
    × (forwarded 1 second news
        ≡ some (ServerMsg.delta_broadcast note (104 ∷ []) peer (49 ∷ 44 ∷ 1 ∷ []) (some 1)))
unfolding vaultcrdt_server.Tests.Toy.to_json vaultcrdt_server.Base.list_beq
    vaultcrdt_server.Table.find vaultcrdt_server.Table.put vaultcrdt_server.Sql.pure
    vaultcrdt_server.Sql.lift vaultcrdt_server.Sql.◌>>=◌ vaultcrdt_server.Sql.query
    vaultcrdt_server.Sql.transaction vaultcrdt_server.Documents.store_snapshot_with_vv
    vaultcrdt_server.Documents.snapshot_and_vv vaultcrdt_server.Documents.get_snapshot_with_vv
    vaultcrdt_server.Documents.has_tombstone vaultcrdt_server.Documents.is_tombstoned
    vaultcrdt_server.Handlers.process_inner vaultcrdt_server.Handlers.process_message
    vaultcrdt_server.Handlers.Merge.create_merge vaultcrdt_server.VvSerde.vv_to_json_bytes
    vaultcrdt_server.Sockets.handshake vaultcrdt_server.Sockets.Hub.forward_next
    vaultcrdt_server.Sockets.Hub.connect vaultcrdt_server.Sockets.Hub.read_frame
    vaultcrdt_server.Retention.upsert_peer vaultcrdt_server.Base.Decimal.u64_to_string
told_run = (refl, refl, refl)

forwarded_lem_example : IsForeign told 1 second news
forwarded_lem_example =
    forwarded_lem toy decoded verify idle told 1 second news
      (ServerMsg.delta_broadcast note (104 ∷ []) peer (49 ∷ 44 ∷ 1 ∷ []) (some 1)) (refl, refl)
      (later
        (later (later start (connecting (codes "laptop") peer (FirstFrame.binary (0 ∷ []))))
          (connecting (codes "phone") (codes "q") (FirstFrame.binary (0 ∷ []))))
        (reading 0 true (1 ∷ [])))
      told_run.0 told_run.1 told_run.2
