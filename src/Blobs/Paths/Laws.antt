-- ===== src/Blobs/Paths/Laws.antt =====
-- What posts keep: the numbers of the rows are distinct, and no row is replaced by a lesser one.
use vaultcrdt_server.Base.{
  ltb, nat_beq, Bool-cases, unwrap_or, ◌==◌, eq_iff, nat_eq, list_eq, option_eq, pair_eq, Bytes,
  Text, ℕ, ◌+◌, ◌≤◌, ◌<◌, ◌≡◌, refl, sym, ap, ◌∙◌, subst, ◌⊎◌, inl, inr, Bool, true, ◌&&◌, ◌||◌,
  Option, none, some, [], arith,
}
use vaultcrdt_server.Table.{find}
use vaultcrdt_server.Errors.{Result, ok, err}
use vaultcrdt_server.Db.{Db, Key, PathState}
use vaultcrdt_server.Blobs.Paths.{
  BlobPathBody, PathReply, FileRead, refused, repeats, wins, row_of, next_seq, write_path,
  svg_refused, post_blob_path,
}
use vaultcrdt_server.Table.Laws.{find-put, put-cases}
use vaultcrdt_server.Sql.{Conn}
use vaultcrdt_server.Sql.Reading.{Refines-relates}
use vaultcrdt_server.Blobs.Paths.{text_gt}
use vaultcrdt_server.Blobs.Paths.Spec.{
  published, present_in, svg_end, attached, competed, posted_unless, posted,
}
use vaultcrdt_server.Blobs.Paths.Refinement.{post_blob_path-Refines}

-- The numbers of the path rows are at most the counter, and no two rows have one.
pub record IsSequenced (d : Db) : Type 0 where
  pub bounded : (k : Key) (r : PathState) → find k d.path_states ≡ some r → r.seq ≤ d.blob_seq
  pub distinct :
      (j k : Key) (q r : PathState)
      → find j d.path_states ≡ some q
      → find k d.path_states ≡ some r
      → q.seq ≡ r.seq
      → j ≡ k

-- A row outranks another by its generation, then by its peer, then by its hash.
abbrev pub outranks : PathState → PathState → Bool
outranks new old =
    ltb old.generation new.generation
    || nat_beq new.generation old.generation
      && (text_gt new.peer_id old.peer_id
          || new.peer_id == old.peer_id
            && text_gt (unwrap_or new.content_hash []) (unwrap_or old.content_hash []))

-- From a state to a later one: the counter does not fall, each row is still there or was replaced by
-- one that outranks it and has a newer number, and the numbers stay in order.
pub record Advances (d d' : Db) : Type 0 where
  pub counter : d.blob_seq ≤ d'.blob_seq
  pub rows :
      (k : Key) (old : PathState)
      → find k d.path_states ≡ some old
      → (new : PathState) × (find k d'.path_states ≡ some new)
        × ((new ≡ old) ⊎ ((outranks new old ≡ true) × (d.blob_seq < new.seq)))
  pub sequenced : IsSequenced d → IsSequenced d'

Advances-refl : (d : Db) → Advances d d
Advances-refl d = record {
  counter = omega arith;
  rows = λ k old e. (old, e, inl refl);
  sequenced = λ s. s;
}

module _ (v : Text) (body : BlobPathBody) (t : ℕ) (d : Db) where
  abbrev key : Key
  key = (v, body.path_key)

  abbrev row : PathState
  row = row_of body t (d.blob_seq + 1)

  abbrev Uncontested : Type 0
  Uncontested = (cur : PathState) → find key d.path_states ≡ some cur → wins body cur ≡ true

  published_rows :
      Uncontested
      → (k : Key) (old : PathState) → find k d.path_states ≡ some old
      → (new : PathState) × (find k (published v body t d).1.path_states ≡ some new)
        × ((new ≡ old) ⊎ ((outranks new old ≡ true) × (d.blob_seq < new.seq)))
  unfolding write_path next_seq wins
  published_rows won k old e = elim (Bool-cases (◌==◌ {A = Key} key k)) [
    | inl here ↦ (
      row,
      find-put key k row d.path_states ∙ rw here,
      inr (
        won old (subst (λ j. find j d.path_states ≡ some old) (sym ((eq_iff key k).0 here)) e),
        omega arith,
      ),
    )
    | inr there ↦ (old, find-put key k row d.path_states ∙ rw there e, inl refl)
  ]

  abbrev WrittenOrThere : Key → PathState → Type 0
  WrittenOrThere k r = ((key ≡ k) × (r ≡ row)) ⊎ (find k d.path_states ≡ some r)

  -- Only the new row has the new number.
  no_clash :
      IsSequenced d
      → (j k : Key) (q r : PathState) → WrittenOrThere j q
      → WrittenOrThere k r
      → q.seq ≡ r.seq
      → j ≡ k
  no_clash s j k q r (inl (a, e)) (inl (b, f)) h = sym a ∙ b
  no_clash s j k q r (inl (a, e)) (inr f) h =
      absurd (omega (arith, s.bounded k r f, ap (λ (p : PathState). p.seq) e))
  no_clash s j k q r (inr e) (inl (b, f)) h =
      absurd (omega (arith, s.bounded j q e, ap (λ (p : PathState). p.seq) f))
  no_clash s j k q r (inr e) (inr f) h = s.distinct j k q r e f h

  within_counter :
      IsSequenced d → (k : Key) (r : PathState) → WrittenOrThere k r → r.seq ≤ d.blob_seq + 1
  within_counter s k r (inl (a, e)) = omega (arith, ap (λ (p : PathState). p.seq) e)
  within_counter s k r (inr e) = omega (arith, s.bounded k r e)

  published-IsSequenced : IsSequenced d → IsSequenced (published v body t d).1
  unfolding write_path next_seq
  published-IsSequenced s = record {
    bounded = λ k r e. within_counter s k r (put-cases key k row r d.path_states e);
    distinct = λ j k q r e f h.
        no_clash s j k q r (put-cases key j row q d.path_states e)
          (put-cases key k row r d.path_states f) h;
  }

  published-Advances : Uncontested → Advances d (published v body t d).1
  unfolding write_path next_seq
  published-Advances won = record {
    counter = omega arith;
    rows = λ k old e. published_rows won k old e;
    sequenced = λ s. published-IsSequenced s;
  }

module _ (svg_at_fixpoint : Bytes → Option Bool) (read_blob : Text → Text → FileRead) (v : Text)
    (body : BlobPathBody) (t : ℕ) (d : Db) where
  svg_end-Advances :
      Uncontested v body t d
      → (r : Result (Option PathReply))
      → Advances d (svg_end svg_at_fixpoint read_blob v body r t d).1
  svg_end-Advances won (err e) = Advances-refl d
  svg_end-Advances won (ok (some reply)) = Advances-refl d
  svg_end-Advances won (ok none) = published-Advances v body t d won

  attached-Advances :
      Uncontested v body t d → Advances d (attached svg_at_fixpoint read_blob v body t d).1
  attached-Advances won = elim (Bool-cases (present_in v body.content_hash d)) [
    | inl there ↦ rw there (svg_end-Advances won (svg_refused svg_at_fixpoint read_blob v body))
    | inr absent ↦ rw absent (Advances-refl d)
  ]

  competed-Advances :
      (stored : Option PathState)
      → find (v, body.path_key) d.path_states ≡ stored
      → Advances d (competed svg_at_fixpoint read_blob v body stored t d).1
  competed-Advances none e = attached-Advances (λ cur f. absurd (cc (e, f)))
  competed-Advances (some cur) e = elim (Bool-cases (repeats body cur)) [
    | inl again ↦ rw again (Advances-refl d)
    | inr other ↦ elim (Bool-cases (wins body cur)) [
      | inl won ↦ rw other (
          rw won (
            attached-Advances
              (λ old f. subst (λ c. wins body c ≡ true) (same_row cur old e f) won)))
      | inr beaten ↦ rw other (rw beaten (Advances-refl d))
    ]
  ]
    where
      same_row :
          (cur old : PathState)
          → find (v, body.path_key) d.path_states ≡ some cur
          → find (v, body.path_key) d.path_states ≡ some old
          → cur ≡ old
      same_row cur old e f = cc (e, f)

  posted_unless-Advances :
      (r : Option PathReply) → Advances d (posted_unless svg_at_fixpoint read_blob v body r t d).1
  posted_unless-Advances (some reply) = Advances-refl d
  posted_unless-Advances none = competed-Advances (find (v, body.path_key) d.path_states) refl

-- Whatever is posted, and whichever statements fail: no row of a path is lost, a row that is replaced
-- is outranked by generation, peer and hash and the new one has a newer number, and where the numbers
-- of the rows were distinct and at most the counter, they still are.
pub post_blob_path-Advances :
    (svg_at_fixpoint : Bytes → Option Bool) (read_blob : Text → Text → FileRead) (v : Text)
    (body : BlobPathBody) (s : Conn)
    → Advances s.db (post_blob_path svg_at_fixpoint read_blob v body s).1.db
post_blob_path-Advances svg_at_fixpoint read_blob v body s =
    Refines-relates Advances (λ _. Unit) _ (posted svg_at_fixpoint read_blob v body)
      (post_blob_path-Refines svg_at_fixpoint read_blob v body) Advances-refl
      (λ t d _. posted_unless-Advances svg_at_fixpoint read_blob v body t d (refused body)) s tt
