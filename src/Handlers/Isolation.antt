-- ===== src/Handlers/Isolation.antt =====
-- A frame touches one vault.
use vaultcrdt_server.Base.{
  ltb, tests, Bool-cases, is_none, unwrap_or, ◌==◌, nat_eq, list_eq, option_eq, pair_eq, Bytes,
  Text, ℕ, zero, suc, ◌≡◌, refl, ◌∙◌, inl, inr, Bool, true, false, not, ◌&&◌, Option, none, some,
  arith,
}
use vaultcrdt_server.Base.Int.{ℤ}
use vaultcrdt_server.Table.{find}
use vaultcrdt_server.Table.Laws.{find-put, find-remove}
use vaultcrdt_server.Errors.{Result, ok, err}
use vaultcrdt_server.Db.{Db, Key, Tombstone}
use vaultcrdt_server.Sql.{Conn}
use vaultcrdt_server.Loro.{Loro}
use vaultcrdt_server.Protocol.{ClientMsg}
use vaultcrdt_server.Documents.{
  replace_document, drop_tombstone, i64_max, has_tombstone, snapshot_and_vv, existing_incarnation,
  snapshot_and_incarnation,
}
use vaultcrdt_server.Documents.Delete.{mismatch, live_token}
use vaultcrdt_server.Documents.Spec.{
  next_token, with_next_token, stored, stored_by, stored_anew, guarded, buried_at,
}
use vaultcrdt_server.Handlers.{process_message}
use vaultcrdt_server.Handlers.Merge.{Merged}
use vaultcrdt_server.Handlers.Spec.{finish, pushed, created}
use vaultcrdt_server.Handlers.Within.{Allows, process_message-within}
use vaultcrdt_server.Handlers.Invariant.{mapped_tables}

-- What the two states have at the other vaults is the same: rows, tombstones and counters.
pub record Elsewhere (v : Text) (d d' : Db) : Type 0 where
  pub documents :
      (w x : Text) → (v == w) ≡ false → find (w, x) d'.documents ≡ find (w, x) d.documents
  pub tombstones :
      (w x : Text) → (v == w) ≡ false → find (w, x) d'.tombstones ≡ find (w, x) d.tombstones
  pub counters :
      (w : Text) → (v == w) ≡ false → find w d'.vault_incarnation ≡ find w d.vault_incarnation

module _ (v : Text) where
  Elsewhere-refl : (d : Db) → Elsewhere v d d
  Elsewhere-refl d = record {
    documents = λ w x h. refl;
    tombstones = λ w x h. refl;
    counters = λ w h. refl;
  }

  Elsewhere-trans : (a b c : Db) → Elsewhere v a b → Elsewhere v b c → Elsewhere v a c
  Elsewhere-trans a b c g h = record {
    documents = λ w x k. h.documents w x k ∙ g.documents w x k;
    tombstones = λ w x k. h.tombstones w x k ∙ g.tombstones w x k;
    counters = λ w k. h.counters w k ∙ g.counters w k;
  }

module _ (v u : Text) where
  other_key : (w x : Text) → (v == w) ≡ false → (◌==◌ {A = Key} (v, u) (w, x)) ≡ false
  unfolding vaultcrdt_server.Base.pair_beq
  other_key w x h = ground arith

  replaced-Elsewhere :
      (snapshot vv : Bytes) (n t : ℕ) (d : Db)
      → Elsewhere v d (replace_document (v, u) snapshot vv n t d)
  unfolding replace_document
  replaced-Elsewhere snapshot vv n t d = record {
    documents = λ w x h. find-put (v, u) (w, x) _ d.documents ∙ rw (other_key w x h);
    tombstones = λ w x h. refl;
    counters = λ w h. refl;
  }

  counted-Elsewhere : (n : ℕ) (d : Db) → Elsewhere v d (with_next_token v n d)
  counted-Elsewhere n d = record {
    documents = λ w x h. refl;
    tombstones = λ w x h. refl;
    counters = λ w h. find-put v w n d.vault_incarnation ∙ rw h;
  }

  dropped-Elsewhere : (d : Db) → Elsewhere v d (drop_tombstone (v, u) d)
  unfolding drop_tombstone
  dropped-Elsewhere d = record {
    documents = λ w x h. refl;
    tombstones = λ w x h. find-remove (v, u) (w, x) d.tombstones ∙ rw (other_key w x h);
    counters = λ w h. refl;
  }

  buried-Elsewhere :
      (loro : Loro) (tomb : Tombstone) (d : Db) → Elsewhere v d (buried_at loro (v, u) tomb d)
  buried-Elsewhere loro tomb d = record {
    documents = λ w x h. find-remove (v, u) (w, x) d.documents ∙ rw (other_key w x h);
    tombstones = λ w x h. find-put (v, u) (w, x) tomb d.tombstones ∙ rw (other_key w x h);
    counters = λ w h. refl;
  }

  module _ (snapshot vv : Bytes) (t : ℕ) (d : Db) where
    renewed-Elsewhere :
        (n m : ℕ) → Elsewhere v d (replace_document (v, u) snapshot vv n t (with_next_token v m d))
    renewed-Elsewhere n m =
        Elsewhere-trans v d (with_next_token v m d) _ (counted-Elsewhere m d)
          (replaced-Elsewhere snapshot vv n t (with_next_token v m d))

    stored_by-Elsewhere :
        (existing : Option ℕ) → Elsewhere v d (stored_by existing v u snapshot vv t d).1
    stored_by-Elsewhere (some token) = replaced-Elsewhere snapshot vv token t d
    stored_by-Elsewhere none = elim (Bool-cases (ltb (next_token v d) i64_max)) [
      | inl room ↦ rw room (renewed-Elsewhere _ _)
      | inr full ↦ rw full (Elsewhere-refl v d)
    ]

    stored_anew-Elsewhere : Elsewhere v d (stored_anew v u snapshot vv t d).1
    stored_anew-Elsewhere = elim (Bool-cases (ltb (next_token v d) i64_max)) [
      | inl room ↦ rw room (Elsewhere-trans v d _ _ (renewed-Elsewhere _ _) (dropped-Elsewhere _))
      | inr full ↦ rw full (Elsewhere-refl v d)
    ]

module _ (loro : Loro) (v u : Text) where
  guarded-Elsewhere :
      (deleted_by : Text) (expected : Option ℤ) (t : ℕ) (d : Db)
      → Elsewhere v d (guarded loro v u deleted_by expected t d).1
  guarded-Elsewhere deleted_by expected t d =
      elim (Bool-cases
        (mismatch expected (unwrap_or (live_token (snapshot_and_incarnation (v, u) d)) 0))) [
          | inl e ↦ rw e (Elsewhere-refl v d)
          | inr e ↦ rw e (buried-Elsewhere v u loro _ d)
        ]

  module _ (incoming : Bytes) (p : Text) (conn_id : ℕ) (t : ℕ) (d : Db) where
    finish-Elsewhere :
        (is_new anew : Bool) (r : Result (Option (Merged loro)))
        → Elsewhere v d (finish loro v u incoming p conn_id is_new anew r t d).1
    finish-Elsewhere is_new anew (err e) = Elsewhere-refl v d
    finish-Elsewhere is_new anew (ok none) = Elsewhere-refl v d
    finish-Elsewhere is_new true (ok (some (snapshot, vv))) =
        rw (mapped_tables _ (stored_anew v u snapshot _ t d))
          (stored_anew-Elsewhere v u snapshot _ t d)
    finish-Elsewhere is_new false (ok (some (snapshot, vv))) =
        rw (mapped_tables _ (stored v u snapshot _ t d))
          (stored_by-Elsewhere v u snapshot _ t d (existing_incarnation (v, u) d))

    pushed-Elsewhere : Elsewhere v d (pushed loro v u incoming p conn_id t d).1
    pushed-Elsewhere =
        elim (Bool-cases (is_none (snapshot_and_vv (v, u) d) && has_tombstone (v, u) d)) [
          | inl refused ↦ rw refused (Elsewhere-refl v d)
          | inr on ↦ rw on (finish-Elsewhere _ false _)
        ]

    created-Elsewhere :
        (replace : Bool) → Elsewhere v d (created loro v u incoming p conn_id replace t d).1
    created-Elsewhere replace =
        elim (Bool-cases
          (is_none (snapshot_and_vv (v, u) d) && has_tombstone (v, u) d && not replace)) [
            | inl refused ↦ rw refused (Elsewhere-refl v d)
            | inr on ↦ rw on (finish-Elsewhere _ (has_tombstone (v, u) d && replace) _)
          ]

writes-Elsewhere : (loro : Loro) (v : Text) (conn_id : ℕ) → Allows loro v conn_id (Elsewhere v)
writes-Elsewhere loro v conn_id = record {
  same = Elsewhere-refl v;
  push = λ u delta p t d. pushed-Elsewhere loro v u delta p conn_id t d;
  create = λ u snapshot p replace t d. created-Elsewhere loro v u snapshot p conn_id t d replace;
  delete = λ u p expected i r t d.
      rw (mapped_tables _ (guarded loro v u p expected t d))
        (guarded-Elsewhere loro v u p expected t d);
}

-- A frame of a connection to one vault leaves the rows, the tombstones and the counter of every other
-- vault as they were, whatever it holds and whichever statements fail.
pub process_message-Elsewhere :
    (loro : Loro) (from_slice : Bytes → Option ClientMsg) (bytes : Bytes) (v : Text) (conn_id : ℕ)
    (s : Conn)
    → Elsewhere v s.db (process_message loro from_slice bytes v conn_id s).1.db
process_message-Elsewhere loro from_slice bytes v conn_id s =
    process_message-within loro v conn_id (Elsewhere v) (writes-Elsewhere loro v conn_id) from_slice
      bytes s
