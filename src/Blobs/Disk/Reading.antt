-- ===== src/Blobs/Disk/Reading.antt =====
-- What an action that only reads has seen of the tables, as they are at the time when it returns.
use vaultcrdt_server.Base.{if◌then◌else◌, ℕ, ◌≤◌, ◌≡◌, refl, sym, ap, ◌∙◌, subst, Bool, true, false}
use vaultcrdt_server.Errors.{Result, ok, err}
use vaultcrdt_server.Db.{Db}
use vaultcrdt_server.Sql.{Conn, query}
use vaultcrdt_server.Sql.Refines.{Executed, execute-Executed}
use vaultcrdt_server.Blobs.Disk.{World, Io, pure, sql, continue, ◌>>=◌}
use vaultcrdt_server.Blobs.Disk.Triples.{view}

module _ {A : Type 0} where
  -- If it returns a value, nothing has changed and `Q` holds of the value, the time and the tables.
  pub record Reading (P : ℕ → Db → Type 0) (m : Io A) (Q : A → ℕ → Db → Type 0) : Type 0 where
    pub reads :
        (w : World) (a : A)
        → P w.conn.now w.conn.db
        → (m w).0 ≡ ok a
        → (view (m w).1 ≡ view w) × Q a (m w).1.conn.now w.conn.db

module _ {A : Type 0} (P : ℕ → Db → Type 0) (Q : A → ℕ → Db → Type 0) where
  pub pure-Reading : (a : A) → ((t : ℕ) (d : Db) → P t d → Q a t d) → Reading P (pure a) Q
  unfolding pure
  pure-Reading a h = record {
    reads = λ w b p e. (refl, subst (λ x. Q x w.conn.now w.conn.db) (cc e) (h _ _ p));
  }

  pub if-Reading :
      (b : Bool) (m n : Io A)
      → (b ≡ true → Reading P m Q)
      → (b ≡ false → Reading P n Q)
      → Reading P (if b then m else n) Q
  if-Reading true m n g h = g refl
  if-Reading false m n g h = h refl

  pub query-Reading :
      (f : ℕ → Db → A)
      → ((t t' : ℕ) (d : Db) → t ≤ t' → P t d → P t' d)
      → ((t t' : ℕ) (d : Db) → t ≤ t' → P t d → Q (f t d) t' d)
      → Reading P (sql (query f)) Q
  unfolding sql query
  query-Reading f later h = record {
    reads = λ w a p e. seen w (query f w.conn) a p (execute-Executed (λ t d. (f t d, d)) w.conn) e;
  }
    where
      seen :
          (w : World) (r : Result A × Conn) (a : A)
          → P w.conn.now w.conn.db
          → Executed (λ t d. (f t d, d)) w.conn r
          → r.0 ≡ ok a
          → (view (record w { conn = r.1 }) ≡ view w) × Q a r.1.now w.conn.db
      seen w r a p (Executed.failed e d n b) f' = absurd (cc (f', e))
      seen w r a p (Executed.carried_out t n m e d b) f' = (
        ap (λ x. record { db = x; files = w.files }) d,
        subst (λ x. Q x r.1.now w.conn.db) (cc (e, f')) (h t r.1.now w.conn.db m (later _ _ _ n p)),
      )

module _ {A B : Type 0} (P : ℕ → Db → Type 0) (R : A → ℕ → Db → Type 0)
    (Q : B → ℕ → Db → Type 0) where
  pub bind-Reading :
      (m : Io A) (k : A → Io B)
      → Reading P m R
      → ((a : A) → Reading (R a) (k a) Q)
      → Reading P (m >>= k) Q
  unfolding ◌>>=◌
  bind-Reading m k g h = record { reads = λ w b p e. both w (m w) b p refl e }
    where
      both :
          (w : World) (r : Result A × World) (b : B)
          → P w.conn.now w.conn.db
          → m w ≡ r
          → (continue r.0 k r.1).0 ≡ ok b
          → (view (continue r.0 k r.1).1 ≡ view w) × Q b (continue r.0 k r.1).1.conn.now w.conn.db
      both w (err x, w') b p e f = absurd (cc f)
      both w (ok a, w') b p e f =
          let (same, r) = g.reads w a p (ap (λ x. x.0) e) in
          let same' : view w' ≡ view w = subst (λ x. view x.1 ≡ view w) e same in
          let r' : R a w'.conn.now w'.conn.db =
            subst (λ d. R a w'.conn.now d) (sym (ap (λ s. s.db) same'))
              (subst (λ x. R a x.1.conn.now w.conn.db) e r) in
          let (last, q) = (h a).reads w' b r' f in
          (last ∙ same', subst (λ d. Q b (k a w').1.conn.now d) (ap (λ s. s.db) same') q)

module _ {A B : Type 0} (m : Io A) (k : A → Io B) where
  -- Where a chain returns a value, so did its parts.
  pub returned :
      (w : World) (b : B)
      → ((m >>= k) w).0 ≡ ok b
      → (a : A) × ((m w).0 ≡ ok a) × ((k a (m w).1).0 ≡ ok b)
  unfolding ◌>>=◌
  returned w b e = parts (m w) e
    where
      parts :
          (r : Result A × World)
          → (continue r.0 k r.1).0 ≡ ok b
          → (a : A) × (r.0 ≡ ok a) × ((k a r.1).0 ≡ ok b)
      parts (ok a, w') f = (a, refl, f)
      parts (err x, w') f = absurd (cc f)
