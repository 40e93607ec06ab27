-- ===== src/Sql/Sequence.antt =====
-- One action after another, each described purely.
use vaultcrdt_server.Base.{
  nat_eq, list_eq, option_eq, pair_eq, ℕ, ◌≤◌, min, ◌≡◌, sym, ap, ◌∙◌, subst, inl, inr, arith,
}
use vaultcrdt_server.Errors.{ServerError, Result, ok, err}
use vaultcrdt_server.Db.{Db}
use vaultcrdt_server.Sql.{Conn, Sql, continue, ◌>>=◌, execute}
use vaultcrdt_server.Sql.Refines.{Spec, Ran, Runs, Runs-execute}

-- What one action does and what the next one does, together.
module _ {A B : Type 0} where
  abbrev pub chain : Result A × Db → (A → Spec B) → ℕ → Result B × Db
  chain (ok a, d) sq t = sq a t d
  chain (err e, d) sq t = (err e, d)

  chain_ok :
      (x : Result A × Db) (sq : A → Spec B) (t : ℕ) (a : A) → x.0 ≡ ok a → chain x sq t ≡ sq a t x.1
  chain_ok (ok b, d') sq t a e = cc
  chain_ok (err b, d') sq t a e = cc

  chain_err :
      (x : Result A × Db) (sq : A → Spec B) (t : ℕ) (b : ServerError)
      → x.0 ≡ err b
      → chain x sq t ≡ (err b, x.1)
  chain_err (ok a, d') sq t b e = cc
  chain_err (err c, d') sq t b e = cc

-- The two together are `spec` at a time that is not before either.
pub record Joined {B : Type 0} (low : ℕ) (x : Result B × Db) (spec : Spec B) (d : Db) : Type 0 where
  pub time : ℕ
  pub bound : low ≤ time
  pub equal : x ≡ spec time d

module _ {A B : Type 0} (P : Db → Type 0) (Q : A → Db → Type 0) where
  after_Ran :
      (sp : Spec A) (sq : A → Spec B) (spec : Spec B) (k : A → Sql B) (s : Conn)
      → P s.db
      → ((t : ℕ) (a : A) (d : Db) → P d → (sp t d).0 ≡ ok a → Q a (sp t d).1)
      → ((t u : ℕ) (d : Db) → P d → Joined (min t u) (chain (sp t d) sq u) spec d)
      → ((a : A) → Runs (Q a) (k a) (sq a))
      → (r : Result A) (s' : Conn) → Ran sp s (r, s')
      → Ran spec s (continue r k s')
  after_Ran sp sq spec k s p post join rest (ok a) s' ran = elim ran.outcome [
    | inl f ↦ absurd (cc (f.error))
    | inr w ↦
        let g = (rest a).run s' (rw w.tables (post w.at a s.db p (sym w.result))) in
        record {
          later = omega (arith, ran.later, g.later);
          fewer = λ x. ran.fewer (g.fewer x);
          outcome = elim g.outcome [
            | inl f ↦ inl (record { error = f.error; blame = ran.fewer f.blame })
            | inr v ↦
                let j = join w.at v.at s.db p in
                let eq : sq a v.at s'.db ≡ spec j.time s.db =
                  rw w.tables (sym (chain_ok (sp w.at s.db) sq v.at a (sym w.result)) ∙ j.equal) in
                inr (record {
                  at = j.time;
                  since = omega (arith, ran.later, v.since, w.since, j.bound);
                  result = v.result ∙ ap (λ x. x.0) eq;
                  tables = v.tables ∙ ap (λ x. x.1) eq;
                })
          ];
        }
  ]
  after_Ran sp sq spec k s p post join rest (err e) s' ran = record {
    later = ran.later;
    fewer = ran.fewer;
    outcome = elim ran.outcome [
      | inl f ↦ inl (record { error = cc (f.error); blame = f.blame })
      | inr w ↦
          let j = join w.at w.at s.db p in
          let eq : (◌≡◌ {A = Result B × Db} (err e, (sp w.at s.db).1) (spec j.time s.db)) =
            sym (chain_err (sp w.at s.db) sq w.at e (sym w.result)) ∙ j.equal in
          inr (record {
            at = j.time;
            since = omega (arith, w.since, j.bound);
            result = ap (λ x. x.0) eq;
            tables = w.tables ∙ ap (λ x. x.1) eq;
          })
    ];
  }

  pub Runs-bind :
      (sp : Spec A) (sq : A → Spec B) (spec : Spec B) (m : Sql A) (k : A → Sql B)
      → Runs P m sp
      → ((a : A) → Runs (Q a) (k a) (sq a))
      → ((t : ℕ) (a : A) (d : Db) → P d → (sp t d).0 ≡ ok a → Q a (sp t d).1)
      → ((t u : ℕ) (d : Db) → P d → Joined (min t u) (chain (sp t d) sq u) spec d)
      → Runs P (m >>= k) spec
  unfolding ◌>>=◌
  Runs-bind sp sq spec m k first rest post join = record {
    run = λ s p. after_Ran sp sq spec k s p post join rest (m s).0 (m s).1 (first.run s p);
  }

  -- The same where the first action is one statement.
  pub Runs-step :
      (g : ℕ → Db → A × Db) (sq : A → Spec B) (spec : Spec B) (k : A → Sql B)
      → ((a : A) → Runs (Q a) (k a) (sq a))
      → ((t : ℕ) (d : Db) → P d → Q (g t d).0 (g t d).1)
      → ((t u : ℕ) (d : Db) → P d → Joined (min t u) (sq (g t d).0 u (g t d).1) spec d)
      → Runs P (execute g >>= k) spec
  Runs-step g sq spec k rest post join =
      Runs-bind (λ t d. (ok (g t d).0, (g t d).1)) sq spec (execute g) k (Runs-execute P g) rest
        (λ t a d p e. subst (λ x. Q x (g t d).1) (cc e) (post t d p)) join
