-- ===== src/Blobs/Disk/Triples.antt =====
-- What holds of the tables and the files after an action that returns, and after one that fails.
use vaultcrdt_server.Base.{
  if◌then◌else◌, nat_eq, list_eq, option_eq, pair_eq, ℕ, ◌≡◌, refl, sym, subst, inl, inr, Bool,
  true, false, Option, none, some, List, [], ◌∷◌, Bool-cases,
}
use vaultcrdt_server.Errors.{ServerError, Result, ok, err}
use vaultcrdt_server.Db.{Db}
use vaultcrdt_server.Sql.{Conn, execute, query, lift}
use vaultcrdt_server.Sql.Refines.{Executed, execute-Executed}
use vaultcrdt_server.Blobs.Disk.{
  Files, DiskOutcome, World, Io, pure, raise, sql, continue, ◌>>=◌, attempt, ignore, next_call,
  performed, call,
}

-- The part of the world that lasts.
pub record Store : Type 0 where
  pub db : Db
  pub files : Files

abbrev pub view : World → Store
view w = record { db = w.conn.db; files = w.files }

module _ {A : Type 0} where
  abbrev pub Post : (A → Store → Type 0) → (Store → Type 0) → Result A → Store → Type 0
  Post Q E (ok a) s = Q a s
  Post Q E (err e) s = E s

  pub record Triple (P : Store → Type 0) (m : Io A) (Q : A → Store → Type 0) (E : Store → Type 0)
      : Type 0 where
    pub holds : (w : World) → P (view w) → Post Q E (m w).0 (view (m w).1)

module _ {A : Type 0} (P : Store → Type 0) (Q : A → Store → Type 0) (E : Store → Type 0) where
  pub pure-Triple : (a : A) → ((s : Store) → P s → Q a s) → Triple P (pure a) Q E
  unfolding pure
  pure-Triple a h = record { holds = λ w p. h (view w) p }

  pub raise-Triple : (e : ServerError) → ((s : Store) → P s → E s) → Triple P (raise e) Q E
  unfolding raise
  raise-Triple e h = record { holds = λ w p. h (view w) p }

  pub weaken-Triple :
      (P' : Store → Type 0) (m : Io A)
      → ((s : Store) → P' s → P s)
      → Triple P m Q E
      → Triple P' m Q E
  weaken-Triple P' m f h = record { holds = λ w p. h.holds w (f (view w) p) }

  pub if-Triple :
      (b : Bool) (m n : Io A)
      → (b ≡ true → Triple P m Q E)
      → (b ≡ false → Triple P n Q E)
      → Triple P (if b then m else n) Q E
  if-Triple true m n g h = g refl
  if-Triple false m n g h = h refl

  pub lift-Triple :
      (r : Result A)
      → ((s : Store) (a : A) → P s → Q a s)
      → ((s : Store) → P s → E s)
      → Triple P (sql (lift r)) Q E
  unfolding sql lift
  lift-Triple (ok a) h f = record { holds = λ w p. h (view w) a p }
  lift-Triple (err e) h f = record { holds = λ w p. f (view w) p }

  -- A fact that the condition implies.
  pub knowing-Triple :
      {F : Type 0} (m : Io A) → ((s : Store) → P s → F) → (F → Triple P m Q E) → Triple P m Q E
  knowing-Triple m f h = record { holds = λ w p. (h (f (view w) p)).holds w p }

  pub absurd-Triple : (m : Io A) → ((s : Store) → P s → ⊥) → Triple P m Q E
  absurd-Triple m h = record { holds = λ w p. absurd (h (view w) p) }

  statement :
      (g : ℕ → Db → A × Db) (w : World) (r : Result A × Conn)
      → ((t : ℕ) (s : Store) → P s → Q (g t s.db).0 (record s { db = (g t s.db).1 }))
      → ((s : Store) → P s → E s)
      → P (view w)
      → Executed g w.conn r
      → Post Q E r.0 (record { db = r.1.db; files = w.files })
  statement g w (ok a, c) h f p (Executed.failed e d n b) = absurd (cc e)
  statement g w (err x, c) h f p (Executed.failed e d n b) =
      subst (λ d'. E (record { db = d'; files = w.files })) (sym d) (f (view w) p)
  statement g w (ok a, c) h f p (Executed.carried_out t n m e d b) =
      subst (λ d'. Q a (record { db = d'; files = w.files })) (sym d)
        (subst (λ x. Q x (record { db = (g t w.conn.db).1; files = w.files })) (cc e)
          (h t (view w) p))
  statement g w (err x, c) h f p (Executed.carried_out t n m e d b) = absurd (cc e)

  pub execute-Triple :
      (g : ℕ → Db → A × Db)
      → ((t : ℕ) (s : Store) → P s → Q (g t s.db).0 (record s { db = (g t s.db).1 }))
      → ((s : Store) → P s → E s)
      → Triple P (sql (execute g)) Q E
  unfolding sql
  execute-Triple g h f = record {
    holds = λ w p. statement g w (execute g w.conn) h f p (execute-Executed g w.conn);
  }

  pub query-Triple :
      (f : ℕ → Db → A)
      → ((t : ℕ) (s : Store) → P s → Q (f t s.db) s)
      → ((s : Store) → P s → E s)
      → Triple P (sql (query f)) Q E
  unfolding query
  query-Triple f h e = execute-Triple (λ t d. (f t d, d)) h e

  performed-Post :
      (o : Option (A × Files)) (w : World)
      → ((a : A) (files : Files) → o ≡ some (a, files) → Q a (record (view w) { files = files }))
      → E (view w)
      → Post Q E (performed o w).0 (view (performed o w).1)
  performed-Post none w h e = e
  performed-Post (some (a, files)) w h e = h a files refl

  next_call-Post :
      (os : List DiskOutcome) (broken : ℕ → Files → Files) (f : Files → Option (A × Files))
      (w : World)
      → ((a : A) (files : Files)
          → f w.files ≡ some (a, files)
          → Q a (record (view w) { files = files }))
      → ((n : ℕ) → E (record (view w) { files = broken n w.files }))
      → E (view w)
      → Post Q E (next_call os broken f w).0 (view (next_call os broken f w).1)
  unfolding next_call
  next_call-Post [] broken f w h b e = performed-Post (f w.files) w h e
  next_call-Post (o ∷ rest) broken f w h b e = elim (Bool-cases o.fails) [
    | inl bad ↦ rw bad (b o.written)
    | inr good ↦ rw good (performed-Post (f w.files) (record w { disk = rest }) h e)
  ]

  pub call-Triple :
      (broken : ℕ → Files → Files) (f : Files → Option (A × Files))
      → ((s : Store) (a : A) (files : Files)
          → P s
          → f s.files ≡ some (a, files)
          → Q a (record s { files = files }))
      → ((s : Store) (n : ℕ) → P s → E (record s { files = broken n s.files }))
      → ((s : Store) → P s → E s)
      → Triple P (call broken f) Q E
  unfolding call
  call-Triple broken f h b e = record {
    holds = λ w p.
        next_call-Post w.disk broken f w (λ a files x. h (view w) a files p x) (λ n. b (view w) n p)
          (e (view w) p);
  }

  -- A call that fails only where the disk does.
  pub total-Triple :
      (broken : ℕ → Files → Files) (a : A) (g : Files → Files)
      → ((s : Store) → P s → Q a (record s { files = g s.files }))
      → ((s : Store) (n : ℕ) → P s → E (record s { files = broken n s.files }))
      → ((s : Store) → P s → E s)
      → Triple P (call broken (λ files. some (a, g files))) Q E
  total-Triple broken a g h b e = call-Triple broken _ (λ s c files p x. done s c files p x) b e
    where
      done :
          (s : Store) (c : A) (files : Files)
          → P s
          → ◌≡◌ {A = Option (A × Files)} (some (a, g s.files)) (some (c, files))
          → Q c (record s { files = files })
      done s c files p x =
          let same : ◌≡◌ {A = A × Files} (a, g s.files) (c, files) = cc x in
          subst (λ y. Q y.0 (record s { files = y.1 })) same (h s p)

module _ {A B : Type 0} (P : Store → Type 0) (R : A → Store → Type 0) (Q : B → Store → Type 0)
    (E : Store → Type 0) where
  continue-Post :
      (k : A → Io B)
      → ((a : A) → Triple (R a) (k a) Q E)
      → (x : Result A × World) → Post R E x.0 (view x.1)
      → Post Q E (continue x.0 k x.1).0 (view (continue x.0 k x.1).1)
  continue-Post k h (ok a, w) p = (h a).holds w p
  continue-Post k h (err e, w) p = p

  pub bind-Triple :
      (m : Io A) (k : A → Io B)
      → Triple P m R E
      → ((a : A) → Triple (R a) (k a) Q E)
      → Triple P (m >>= k) Q E
  unfolding ◌>>=◌
  bind-Triple m k g h = record { holds = λ w p. continue-Post k h (m w) (g.holds w p) }

module _ {A : Type 0} (P : Store → Type 0) (R : A → Store → Type 0) (F : Store → Type 0)
    (E : Store → Type 0) where
  -- A call whose failure is not looked at cannot fail.
  pub attempt-Triple : (m : Io A) → Triple P m R F → Triple P (attempt m) (Post R F) E
  unfolding attempt
  attempt-Triple m h = record { holds = λ w p. h.holds w p }

-- `let _ = m`, where what holds after it holds after its failure too.
pub ignore-Triple :
    {A : Type 0} (P R E : Store → Type 0) (m : Io A)
    → Triple P m (λ _. R) R
    → Triple P (ignore m) (λ _. R) E
ignore-Triple {A} P R E m h =
    bind-Triple P (Post (λ _. R) R) (λ _. R) E (attempt m) _ (attempt-Triple P (λ _. R) R E m h)
      (λ r. pure-Triple (Post (λ _. R) R r) (λ _. R) E tt (λ s p. either r s p))
  where
    either : (r : Result A) (s : Store) → Post (λ _. R) R r s → R s
    either (ok a) s p = p
    either (err e) s p = p

-- Of an action that has returned a value.
pub post_of :
    {A : Type 0} (P : Store → Type 0) (Q : A → Store → Type 0) (E : Store → Type 0) (m : Io A)
    (w : World) (a : A)
    → Triple P m Q E
    → P (view w)
    → (m w).0 ≡ ok a
    → Q a (view (m w).1)
post_of {A} P Q E m w a h p e = value (m w).0 e (h.holds w p)
  where
    value : (r : Result A) → r ≡ ok a → Post Q E r (view (m w).1) → Q a (view (m w).1)
    value (ok b) f q = subst (λ x. Q x (view (m w).1)) (cc f) q
    value (err x) f q = absurd (cc f)
