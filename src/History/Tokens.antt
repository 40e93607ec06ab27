-- ===== src/History/Tokens.antt =====
-- What the tokens are for: a delete that was meant for an earlier document of a path does nothing to
-- a later one.
use vaultcrdt_server.Base.{
  Option-cases, unwrap_or, ◌==◌, nat_eq, list_eq, option_eq, pair_eq, Bytes, Text, ℕ, ◌≤◌, ◌<◌, ◌≡◌,
  ap, ◌∙◌, ◌⊎◌, inl, inr, true, not, Option, none, some, arith,
}
use vaultcrdt_server.Base.Int.{pos, int_eq, int_beq_iff}
use vaultcrdt_server.Table.{find}
use vaultcrdt_server.Errors.{ok, err}
use vaultcrdt_server.Db.{Db, Key, Document}
use vaultcrdt_server.Sql.{Conn, db_failed}
use vaultcrdt_server.Sql.Refines.{Met}
use vaultcrdt_server.Loro.{Loro}
use vaultcrdt_server.Protocol.{ClientMsg}
use vaultcrdt_server.Documents.{snapshot_and_incarnation}
use vaultcrdt_server.Documents.Delete.{rejected, mismatch, live_token, delete_doc_guarded}
use vaultcrdt_server.Documents.Spec.{next_token, guarded}
use vaultcrdt_server.Documents.Tokens.{IsSound, Grows}
use vaultcrdt_server.Documents.Refinement.Delete.{delete_doc_guarded-Refines}
use vaultcrdt_server.History.{History}
use vaultcrdt_server.History.Sound.{History-Keeps}

-- In every history from a sound state, a row's token is at least 1 and less than its vault's counter,
-- no counter is below 1, and no path has a row and a tombstone at once.
pub History-IsSound :
    (loro : Loro) (from_slice : Bytes → Option ClientMsg) (s t : Conn)
    → IsSound s.db
    → History loro from_slice s t
    → IsSound t.db
History-IsSound loro from_slice s t sound h = (History-Keeps loro from_slice s t h).sound sound

-- The token that a delete is compared with: the live row's, or 0.
abbrev pub live_or_0 : Key → Db → ℕ
live_or_0 k d = unwrap_or (live_token (snapshot_and_incarnation k d)) 0

module _ (v u : Text) where
  live_or_0-cases :
      (d : Db)
      → ((row : Document) × (find (v, u) d.documents ≡ some row)
          × (live_or_0 (v, u) d ≡ row.incarnation))
        ⊎ (live_or_0 (v, u) d ≡ 0)
  unfolding snapshot_and_incarnation live_token
  live_or_0-cases d = elim (Option-cases (find (v, u) d.documents)) [
    | inl none_here ↦ inr (ground arith)
    | inr (row, e) ↦ inl (row, e, ground arith)
  ]

  -- A token that was on a row before the path was empty is on none after.
  outdated :
      (d0 d1 d2 : Db) (row : Document)
      → IsSound d0
      → find (v, u) d0.documents ≡ some row
      → Grows d0 d1
      → find (v, u) d1.documents ≡ none
      → Grows d1 d2
      → mismatch (some (pos row.incarnation)) (live_or_0 (v, u) d2) ≡ true
  unfolding mismatch
  outdated d0 d1 d2 row s f g gone h = differs (live_or_0-cases d2)
    where
      old : (1 ≤ row.incarnation) × (row.incarnation < next_token v d1)
      old = let a = s.given_out v u row f in (a.0, omega (arith, a.1, g.counters v))

      newer :
          (later_row : Document)
          → find (v, u) d2.documents ≡ some later_row
          → next_token v d1 ≤ later_row.incarnation
      newer later_row e = elim (h.tokens v u later_row e) [
        | inl (before, live, same) ↦ absurd (cc (gone, live))
        | inr new ↦ new
      ]

      differs :
          ((later_row : Document) × (find (v, u) d2.documents ≡ some later_row)
              × (live_or_0 (v, u) d2 ≡ later_row.incarnation))
            ⊎ (live_or_0 (v, u) d2 ≡ 0)
          → not (pos row.incarnation == pos (live_or_0 (v, u) d2)) ≡ true
      differs (inl (later_row, e, same)) = ground (
        arith,
        old,
        newer later_row e,
        int_beq_iff (pos row.incarnation) (pos (live_or_0 (v, u) d2)),
      )
      differs (inr zero_token) =
          ground (arith, old, int_beq_iff (pos row.incarnation) (pos (live_or_0 (v, u) d2)))

module _ (loro : Loro) (from_slice : Bytes → Option ClientMsg) (v u : Text) where
  -- A delete that names the token of a row, and comes when the path has been empty since, changes
  -- no table: it is rejected with the token of the row that is there now, or 0, or a statement of it
  -- failed. The server was in a sound state when the row was there, and anything may have happened
  -- before and after the path was empty.
  pub late_delete_rejected :
      (s0 s1 s2 : Conn) (row : Document) (deleted_by : Text)
      → IsSound s0.db
      → find (v, u) s0.db.documents ≡ some row
      → History loro from_slice s0 s1
      → find (v, u) s1.db.documents ≡ none
      → History loro from_slice s1 s2
      → let r = delete_doc_guarded loro v u deleted_by (some (pos row.incarnation)) s2 in
        ((r.0 ≡ err db_failed) ⊎ (r.0 ≡ ok (rejected (live_or_0 (v, u) s2.db)))) × (r.1.db ≡ s2.db)
  late_delete_rejected s0 s1 s2 row deleted_by s f h01 gone h12 =
      met ((delete_doc_guarded-Refines loro v u deleted_by (some (pos row.incarnation))).meet s2 tt)
    where
      apart : mismatch (some (pos row.incarnation)) (live_or_0 (v, u) s2.db) ≡ true
      apart =
          outdated v u s0.db s1.db s2.db row s f (History-Keeps loro from_slice s0 s1 h01).grows
            gone (History-Keeps loro from_slice s1 s2 h12).grows

      refused :
          (t : ℕ)
          → guarded loro v u deleted_by (some (pos row.incarnation)) t s2.db
            ≡ (ok (rejected (live_or_0 (v, u) s2.db)), s2.db)
      refused t = rw apart

      met :
          Met
            (guarded loro v u deleted_by (some (pos row.incarnation)))
            s2
            (delete_doc_guarded loro v u deleted_by (some (pos row.incarnation)) s2)
          → ((((delete_doc_guarded loro v u deleted_by (some (pos row.incarnation)) s2).0
                  ≡ err db_failed)
                ⊎ ((delete_doc_guarded loro v u deleted_by (some (pos row.incarnation)) s2).0
                    ≡ ok (rejected (live_or_0 (v, u) s2.db))))
              × ((delete_doc_guarded loro v u deleted_by (some (pos row.incarnation)) s2).1.db
                  ≡ s2.db))
      met m = elim (m.outcome) [
        | inl f ↦ (inl f.0.error, f.1)
        | inr w ↦
            (inr (w.result ∙ ap (λ p. p.0) (refused w.at)), w.tables ∙ ap (λ p. p.1) (refused w.at))
      ]
