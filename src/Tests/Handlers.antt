-- ===== src/Tests/Handlers.antt =====
-- Frames on a small vault.
use vaultcrdt_server.Base.{
  tests, nat_eq, list_eq, option_eq, pair_eq, ℕ, zero, suc, ◌≡◌, refl, ◌⊎◌, true, none, some, [],
  ◌∷◌, arith,
}
use vaultcrdt_server.Base.Int.{pos}
use vaultcrdt_server.Table.{find}
use vaultcrdt_server.Db.{Document, empty_db}
use vaultcrdt_server.Errors.{ok, err}
use vaultcrdt_server.Documents.Delete.{rejected, delete_doc_guarded}
use vaultcrdt_server.Handlers.{handle_sync_push, handle_doc_create}
use vaultcrdt_server.Handlers.Spec.{pushed, created}
use vaultcrdt_server.Handlers.Refinement.{handle_sync_push-Refines, handle_doc_create-Refines}
use vaultcrdt_server.Sql.Refines.{Refines}
use vaultcrdt_server.Sql.{Conn, db_failed}
use vaultcrdt_server.Handlers.{process_message, request_id_of}
use vaultcrdt_server.Handlers.Isolation.{Elsewhere, process_message-Elsewhere}
use vaultcrdt_server.Handlers.Replies.{Announces, process_message-Announces}
use vaultcrdt_server.Documents.Tokens.{IsSound}
use vaultcrdt_server.History.{start, later, frame}
use vaultcrdt_server.History.Tokens.{History-IsSound, live_or_0, late_delete_rejected}
use vaultcrdt_server.Tests.Toy.{toy, from_slice, vault, note, peer}

abbrev fresh : Conn
fresh = record { db = empty_db; now = 5; outcomes = [] }

abbrev after : ℕ → Conn → Conn
after byte s = (process_message toy from_slice (byte ∷ []) vault 7 s).1

abbrev s0 : Conn
s0 = after 0 fresh

abbrev s1 : Conn
s1 = after 2 s0

abbrev s2 : Conn
s2 = after 3 s1

abbrev first_row : Document
first_row = record {
  snapshot_blob = 104 ∷ [];
  vv_blob = 1 ∷ 0 ∷ 1 ∷ [];
  updated_at = 5;
  incarnation = 1;
}

-- Created, deleted, and created again under the next token.
three_frames_run :
    (find (vault, note) s0.db.documents ≡ some first_row)
    × (find (vault, note) s1.db.documents ≡ none)
    × (find (vault, note) s2.db.documents
        ≡ some (record first_row { snapshot_blob = 106 ∷ []; incarnation = 2 }))
unfolding from_slice vaultcrdt_server.Tests.Toy.encode_entries vaultcrdt_server.Base.list_beq
    vaultcrdt_server.Base.pair_beq vaultcrdt_server.Table.find vaultcrdt_server.Table.put
    vaultcrdt_server.Table.remove vaultcrdt_server.Sql.pure vaultcrdt_server.Sql.lift
    vaultcrdt_server.Sql.◌>>=◌ vaultcrdt_server.Sql.query vaultcrdt_server.Sql.transaction
    vaultcrdt_server.Documents.store_snapshot_with_vv
    vaultcrdt_server.Documents.store_snapshot_replacing_tombstone
    vaultcrdt_server.Documents.snapshot_and_vv vaultcrdt_server.Documents.get_snapshot_with_vv
    vaultcrdt_server.Documents.has_tombstone vaultcrdt_server.Documents.is_tombstoned
    vaultcrdt_server.Documents.Delete.delete_doc_guarded vaultcrdt_server.Handlers.process_inner
    vaultcrdt_server.Handlers.process_message vaultcrdt_server.Handlers.Merge.create_merge
    vaultcrdt_server.VvSerde.vv_to_db_bytes
three_frames_run = (refl, refl, refl)

empty_db-IsSound : IsSound empty_db
unfolding find
empty_db-IsSound = record {
  given_out = λ v u row e. absurd (cc e);
  counting = λ v. omega arith;
  apart = λ k. refl;
}

History-IsSound_example : IsSound s2.db
History-IsSound_example = History-IsSound toy from_slice fresh s2 empty_db-IsSound (
    later (later (later start (frame (0 ∷ []) vault 7)) (frame (2 ∷ []) vault 7))
      (frame (3 ∷ []) vault 7))

s0-IsSound : IsSound s0.db
s0-IsSound =
    History-IsSound toy from_slice fresh s0 empty_db-IsSound (later start (frame (0 ∷ []) vault 7))

late_delete_rejected_example :
    let r = delete_doc_guarded toy vault note peer (some (pos 1)) s2 in
    ((r.0 ≡ err db_failed) ⊎ (r.0 ≡ ok (rejected (live_or_0 (vault, note) s2.db))))
    × (r.1.db ≡ s2.db)
late_delete_rejected_example =
    late_delete_rejected toy from_slice vault note s0 s1 s2 first_row peer s0-IsSound
      three_frames_run.0 (later start (frame (2 ∷ []) vault 7)) three_frames_run.1
      (later start (frame (3 ∷ []) vault 7))

handle_sync_push-Refines_example :
    Refines
      (λ _. Unit {0})
      (handle_sync_push toy vault note (105 ∷ []) peer 7)
      (pushed toy vault note (105 ∷ []) peer 7)
handle_sync_push-Refines_example = handle_sync_push-Refines toy vault note (105 ∷ []) peer 7

handle_doc_create-Refines_example :
    Refines
      (λ _. Unit {0})
      (handle_doc_create toy vault note (106 ∷ []) peer 7 true)
      (created toy vault note (106 ∷ []) peer 7 true)
handle_doc_create-Refines_example = handle_doc_create-Refines toy vault note (106 ∷ []) peer 7 true

process_message-Elsewhere_example :
    Elsewhere vault s0.db (process_message toy from_slice (1 ∷ []) vault 7 s0).1.db
process_message-Elsewhere_example = process_message-Elsewhere toy from_slice (1 ∷ []) vault 7 s0

process_message-Announces_example :
    Announces vault 7
      (request_id_of (from_slice (1 ∷ [])))
      (process_message toy from_slice (1 ∷ []) vault 7 s0).0
process_message-Announces_example = process_message-Announces toy from_slice (1 ∷ []) vault 7 s0
