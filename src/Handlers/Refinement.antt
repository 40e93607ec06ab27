-- ===== src/Handlers/Refinement.antt =====
-- The handlers of a push, a create and a delete do what their descriptions say, or a statement
-- failed and nothing changed.
pub mod Stored
use vaultcrdt_server.Base.{
  if◌then◌else◌, is_some, is_none, nat_eq, list_eq, option_eq, pair_eq, Bytes, Text, ℕ, ◌≡◌, refl,
  sym, ap, ◌∙◌, Bool, true, false, not, ◌&&◌, ◌||◌, Option, none, some, arith,
}
use vaultcrdt_server.Base.Int.{ℤ}
use vaultcrdt_server.Errors.{Result, ok}
use vaultcrdt_server.Db.{Db}
use vaultcrdt_server.Sql.{Sql, pure, lift, ◌>>=◌, query}
use vaultcrdt_server.Sql.Refines.{Spec, Refines, Refines-lift, Refines-ext, Refines-if}
use vaultcrdt_server.Sql.Transactions.{Refines-query, Refines-then, Refines-lift_bind}
use vaultcrdt_server.Loro.{Loro}
use vaultcrdt_server.Protocol.{ServerMsg}
use vaultcrdt_server.VvSerde.{vv_to_db_bytes}
use vaultcrdt_server.Documents.{snapshot_and_vv, has_tombstone, get_snapshot_with_vv, is_tombstoned}
use vaultcrdt_server.Documents.Delete.{delete_doc_guarded}
use vaultcrdt_server.Documents.Refinement.Store.{store_snapshot_with_vv-Refines}
use vaultcrdt_server.Documents.Refinement.Replace.{store_snapshot_replacing_tombstone-Refines}
use vaultcrdt_server.Documents.Refinement.Delete.{delete_doc_guarded-Refines}
use vaultcrdt_server.Handlers.{
  Reply, and_then, deletion_reply, push_store, create_store, merge_base, handle_sync_push,
  handle_doc_create,
}
use vaultcrdt_server.Handlers.Merge.{Merged, push_merge, create_merge}
use vaultcrdt_server.Handlers.Spec.{finish, pushed, created, removed}
use Stored.{Refines-and_then, push_store-Refines, create_store-Refines}

the_flag : (b : Bool) → (true && not b) ≡ true → b ≡ false
the_flag true h = absurd (cc h)
the_flag false h = refl

module _ (loro : Loro) (v u : Text) (incoming : Bytes) (peer_id : Text) (conn_id : ℕ) where
  abbrev end : (is_new anew : Bool) → Result (Option (Merged loro)) → Spec Reply
  end = finish loro v u incoming peer_id conn_id

  -- What the two queries of a push have told.
  abbrev Seen : Option (Bytes × Bytes) → Bool → Db → Type 0
  Seen existing refused d =
      (Unit {0} × (snapshot_and_vv (v, u) d ≡ existing))
      × ((is_none existing && has_tombstone (v, u) d) ≡ refused)

  pushed-Seen :
      (existing : Option (Bytes × Bytes)) (t : ℕ) (d : Db)
      → Seen existing false d
      → end (is_none existing) false (push_merge loro existing incoming) t d
        ≡ pushed loro v u incoming peer_id conn_id t d
  pushed-Seen existing t d ((_, e), b) = rw (e) (rw b)

  pushed-refused :
      (existing : Option (Bytes × Bytes)) (t : ℕ) (d : Db)
      → Seen existing true d
      → pushed loro v u incoming peer_id conn_id t d ≡ (ok (ServerMsg.doc_tombstoned u, none), d)
  pushed-refused existing t d ((_, e), b) = rw e (rw b)

  -- A push is what `pushed` says, from the row and the tombstone of its path at one moment: refused
  -- on a tombstone without a row, a conflict on a disjoint history, else merged and stored, with an
  -- `Ack` and one event. A statement that fails changes nothing and is the error.
  pub handle_sync_push-Refines :
      Refines
        (λ _. Unit)
        (handle_sync_push loro v u incoming peer_id conn_id)
        (pushed loro v u incoming peer_id conn_id)
  unfolding handle_sync_push get_snapshot_with_vv is_tombstoned
  handle_sync_push-Refines =
      Refines-query _ _ (λ _ d. snapshot_and_vv (v, u) d) _
        λ _ existing.
          Refines-and_then _ _ (has_tombstone (v, u)) (is_none existing) _
            λ refused. after existing refused
    where
      after :
          (existing : Option (Bytes × Bytes)) (refused : Bool)
          → Refines
              (Seen existing refused)
              (if refused
                then pure (ServerMsg.doc_tombstoned u, none)
                else lift (push_merge loro existing incoming) >>= λ merged.
                    push_store loro v u incoming peer_id conn_id (is_none existing) merged)
              (pushed loro v u incoming peer_id conn_id)
      after existing true =
          unfold pure lift in Refines-lift _ (ok _) _ (λ t d p. pushed-refused existing t d p)
      after existing false =
          Refines-lift_bind _ _ (push_merge loro existing incoming) _
            (λ m e.
              Refines-ext _ _ _ _
                (push_store-Refines loro v u incoming peer_id conn_id (is_none existing) m)
                (λ d p. tt)
                (λ t d p.
                  ap (λ r. end (is_none existing) false r t d) (sym e)
                  ∙ pushed-Seen existing t d p))
            (λ x e t d p.
              sym (pushed-Seen existing t d p) ∙ ap (λ r. end (is_none existing) false r t d) e)

  Known : Bool → Option (Bytes × Bytes) → Bool → Bool → Db → Type 0
  Known replace existing dead stale d =
      ((Unit {0} × (snapshot_and_vv (v, u) d ≡ existing))
        × ((is_none existing && has_tombstone (v, u) d) ≡ dead))
      × ((replace && not dead && is_some existing && has_tombstone (v, u) d) ≡ stale)

  created-Known :
      (replace : Bool) (existing : Option (Bytes × Bytes)) (dead stale : Bool) (t : ℕ) (d : Db)
      → Known replace existing dead stale d
      → (dead && not replace) ≡ false
      → end
          (is_none existing || (dead && replace || stale))
          (dead && replace || stale)
          (create_merge loro (merge_base (dead && replace) existing) incoming)
          t
          d
        ≡ created loro v u incoming peer_id conn_id replace t d
  unfolding Known merge_base
  created-Known replace existing dead stale t d (((_, e), b), c) h = rw e (ground arith)

  created-refused :
      (existing : Option (Bytes × Bytes)) (t : ℕ) (d : Db)
      → Seen existing true d
      → created loro v u incoming peer_id conn_id false t d
        ≡ (ok (ServerMsg.doc_tombstoned u, none), d)
  created-refused existing t d ((_, e), b) = rw e (rw b)

  refusal-Refines :
      (replace : Bool) (existing : Option (Bytes × Bytes)) (dead : Bool)
      → (dead && not replace) ≡ true
      → Refines
          (Seen existing dead)
          (pure (ServerMsg.doc_tombstoned u, none))
          (created loro v u incoming peer_id conn_id replace)
  refusal-Refines replace existing true h =
      unfold pure lift in
      Refines-lift _ (ok _) _ (λ t d p. rw (the_flag replace h) (created-refused existing t d p))
  refusal-Refines replace existing false h = absurd (cc h)

  -- A create is what `created` says, from the row and the tombstone of its path at one moment: a
  -- tombstone without a row refuses it unless it may replace; where it may and there is one, the row
  -- gets a new token and the tombstone goes. A statement that fails changes nothing and is the error.
  pub handle_doc_create-Refines :
      (replace : Bool)
      → Refines
          (λ _. Unit)
          (handle_doc_create loro v u incoming peer_id conn_id replace)
          (created loro v u incoming peer_id conn_id replace)
  unfolding handle_doc_create get_snapshot_with_vv is_tombstoned Known
  handle_doc_create-Refines replace =
      Refines-query _ _ (λ _ d. snapshot_and_vv (v, u) d) _
        λ _ existing. Refines-and_then _ _ (has_tombstone (v, u)) (is_none existing) _ λ dead.
          Refines-if _ (dead && not replace) _ _ _ (λ h. refusal-Refines replace existing dead h)
            (λ h.
              Refines-and_then _ _ (has_tombstone (v, u)) (replace && not dead && is_some existing)
                _ λ stale. after existing dead stale h)
    where
      after :
          (existing : Option (Bytes × Bytes)) (dead stale : Bool)
          → (dead && not replace) ≡ false
          → Refines
              (Known replace existing dead stale)
              (lift (create_merge loro (merge_base (dead && replace) existing) incoming)
                >>= λ merged.
                    create_store loro v u incoming peer_id conn_id
                      (is_none existing)
                      (dead && replace || stale)
                      merged)
              (created loro v u incoming peer_id conn_id replace)
      after existing dead stale h =
          Refines-lift_bind _ _ (create_merge loro (merge_base (dead && replace) existing) incoming)
            _
            (λ m e.
              Refines-ext _ _ _ _
                (create_store-Refines loro v u incoming peer_id conn_id (is_none existing)
                  (dead && replace || stale) m)
                (λ d p. tt)
                (λ t d p.
                  ap
                    (λ r.
                      end (is_none existing || (dead && replace || stale))
                        (dead && replace || stale) r t d)
                    (sym e)
                  ∙ created-Known replace existing dead stale t d p h))
            (λ x e t d p.
              sym (created-Known replace existing dead stale t d p h)
              ∙ ap
                  (λ r.
                    end (is_none existing || (dead && replace || stale)) (dead && replace || stale)
                      r t d)
                  e)

-- A delete does what `removed` says.
pub doc_delete-Refines :
    (loro : Loro) (v u peer_id : Text) (conn_id : ℕ) (expected : Option ℤ)
    (intent_id request_id : Option Text)
    → Refines
        (λ _. Unit)
        (delete_doc_guarded loro v u peer_id expected >>= λ outcome.
          lift (ok (deletion_reply v u conn_id intent_id request_id outcome)))
        (removed loro v u peer_id conn_id expected intent_id request_id)
doc_delete-Refines loro v u peer_id conn_id expected intent_id request_id =
    Refines-then _ _ _ _ (delete_doc_guarded-Refines loro v u peer_id expected)
