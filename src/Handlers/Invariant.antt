-- ===== src/Handlers/Invariant.antt =====
-- What the handlers keep, whatever a client sends and whichever statements fail.
use vaultcrdt_server.Base.{
  ltb, Bool-cases, is_none, unwrap_or, nat_eq, list_eq, option_eq, pair_eq, Bytes, Text, ℕ, ◌≡◌,
  refl, sym, ap, subst, inl, inr, Bool, true, false, not, ◌&&◌, Option, none, some, arith,
}
use vaultcrdt_server.Base.Int.{ℤ}
use vaultcrdt_server.Table.{find}
use vaultcrdt_server.Errors.{Result, ok, err}
use vaultcrdt_server.Db.{Db, Key, Document}
use vaultcrdt_server.Sql.Transactions.{mapped}
use vaultcrdt_server.Loro.{Loro}
use vaultcrdt_server.Documents.{
  snapshot_and_vv, has_tombstone, existing_incarnation, i64_max, snapshot_and_incarnation,
}
use vaultcrdt_server.Documents.Delete.{mismatch, live_token}
use vaultcrdt_server.Documents.Spec.{next_token, stored, stored_by, stored_anew, guarded}
use vaultcrdt_server.Documents.Sound.{
  Keeps, Keeps-refl, renewed-Keeps, rewritten-Keeps, renewed_alone-Keeps, buried_at-Keeps,
}
use vaultcrdt_server.Handlers.Merge.{Merged}
use vaultcrdt_server.Handlers.Spec.{finish, pushed, created, removed}

pub mapped_tables : {A B : Type 0} (f : A → Result B) (x : Result A × Db) → (mapped f x).1 ≡ x.1
mapped_tables f (ok a, d) = refl
mapped_tables f (err e, d) = refl

module _ (v u : Text) (snapshot vv : Bytes) (t : ℕ) (d : Db) where
  stored-Keeps :
      (o : Option Document)
      → find (v, u) d.documents ≡ o
      → (is_none o && has_tombstone (v, u) d) ≡ false
      → Keeps d (stored v u snapshot vv t d).1
  unfolding existing_incarnation has_tombstone
  stored-Keeps (some old) e h =
      subst (λ r. Keeps d (stored_by r v u snapshot vv t d).1)
        (sym (ap (λ (o : Option Document). elim o [ none ↦ none | some r ↦ some r.incarnation ]) e))
        (rewritten-Keeps v u snapshot vv t d old e)
  stored-Keeps none e h =
      subst (λ r. Keeps d (stored_by r v u snapshot vv t d).1)
        (sym (ap (λ (o : Option Document). elim o [ none ↦ none | some r ↦ some r.incarnation ]) e))
        (elim (Bool-cases (ltb (next_token v d) i64_max)) [
          | inl room ↦ rw room (renewed-Keeps v u snapshot vv t d (ground arith))
          | inr full ↦ rw full (Keeps-refl d)
        ])

  stored_anew-Keeps : Keeps d (stored_anew v u snapshot vv t d).1
  stored_anew-Keeps = elim (Bool-cases (ltb (next_token v d) i64_max)) [
    | inl room ↦ rw room (renewed_alone-Keeps v u snapshot vv t d)
    | inr full ↦ rw full (Keeps-refl d)
  ]

guarded-Keeps :
    (loro : Loro) (v u deleted_by : Text) (expected : Option ℤ) (t : ℕ) (d : Db)
    → Keeps d (guarded loro v u deleted_by expected t d).1
guarded-Keeps loro v u deleted_by expected t d =
    elim (Bool-cases
      (mismatch expected (unwrap_or (live_token (snapshot_and_incarnation (v, u) d)) 0))) [
        | inl e ↦ rw e (Keeps-refl d)
        | inr e ↦ rw e (buried_at-Keeps loro v u _ d)
      ]

is_none-snapshot_and_vv :
    (k : Key) (d : Db) → is_none (snapshot_and_vv k d) ≡ is_none (find k d.documents)
unfolding snapshot_and_vv
is_none-snapshot_and_vv k d = ground arith

module _ (loro : Loro) (v u : Text) (incoming : Bytes) (peer_id : Text) (conn_id : ℕ) (t : ℕ)
    (d : Db) where
  finish-Keeps :
      (is_new anew : Bool) (r : Result (Option (Merged loro)))
      → (is_none (find (v, u) d.documents) && has_tombstone (v, u) d && not anew) ≡ false
      → Keeps d (finish loro v u incoming peer_id conn_id is_new anew r t d).1
  finish-Keeps is_new anew (err e) h = Keeps-refl d
  finish-Keeps is_new anew (ok none) h = Keeps-refl d
  finish-Keeps is_new true (ok (some (snapshot, vv))) h =
      rw (mapped_tables _ (stored_anew v u snapshot _ t d)) (stored_anew-Keeps v u snapshot _ t d)
  finish-Keeps is_new false (ok (some (snapshot, vv))) h =
      rw (mapped_tables _ (stored v u snapshot _ t d))
        (stored-Keeps v u snapshot _ t d (find (v, u) d.documents) refl (ground arith))

  pub pushed-Keeps : Keeps d (pushed loro v u incoming peer_id conn_id t d).1
  pushed-Keeps = elim (Bool-cases (is_none (snapshot_and_vv (v, u) d) && has_tombstone (v, u) d)) [
    | inl refused ↦ rw refused (Keeps-refl d)
    | inr on ↦ rw on (finish-Keeps _ false _ (ground (arith, is_none-snapshot_and_vv (v, u) d)))
  ]

  pub created-Keeps :
      (replace : Bool) → Keeps d (created loro v u incoming peer_id conn_id replace t d).1
  created-Keeps replace =
      elim (Bool-cases
        (is_none (snapshot_and_vv (v, u) d) && has_tombstone (v, u) d && not replace)) [
          | inl refused ↦ rw refused (Keeps-refl d)
          | inr on ↦ rw on (
              finish-Keeps _ (has_tombstone (v, u) d && replace) _
                (ground (arith, is_none-snapshot_and_vv (v, u) d)))
        ]

pub removed-Keeps :
    (loro : Loro) (v u peer_id : Text) (conn_id : ℕ) (expected : Option ℤ)
    (intent_id request_id : Option Text) (t : ℕ) (d : Db)
    → Keeps d (removed loro v u peer_id conn_id expected intent_id request_id t d).1
removed-Keeps loro v u peer_id conn_id expected intent_id request_id t d =
    rw (mapped_tables _ (guarded loro v u peer_id expected t d))
      (guarded-Keeps loro v u peer_id expected t d)
