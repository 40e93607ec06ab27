-- ===== src/Cli/Commands/Triples.antt =====
-- What holds of the tables after an action, whether it has returned or failed, and of the report of a
-- command.
use vaultcrdt_server.Base.{if◌then◌else◌, ℕ, ◌≡◌, refl, sym, subst, Bool, true, false}
use vaultcrdt_server.Errors.{ServerError, Result, ok, err}
use vaultcrdt_server.Db.{Db}
use vaultcrdt_server.Sql.{Conn, Sql, pure, lift, continue, ◌>>=◌, execute, query}
use vaultcrdt_server.Sql.Refines.{Executed, execute-Executed}
use vaultcrdt_server.Cli.Report.{Report}
use vaultcrdt_server.Cli.Commands.{Printer, Command, report, answer, on, runtime_error}

module _ {A : Type 0} where
  abbrev pub Ended : (A → Db → Type 0) → (Db → Type 0) → Result A → Db → Type 0
  Ended Q E (ok a) d = Q a d
  Ended Q E (err e) d = E d

  pub record Ends (P : Db → Type 0) (m : Sql A) (Q : A → Db → Type 0) (E : Db → Type 0)
      : Type 0 where
    pub ends : (s : Conn) → P s.db → Ended Q E (m s).0 (m s).1.db

module _ {A : Type 0} (P : Db → Type 0) (Q : A → Db → Type 0) (E : Db → Type 0) where
  pub pure-Ends : (a : A) → ((d : Db) → P d → Q a d) → Ends P (pure a) Q E
  unfolding pure
  pure-Ends a h = record { ends = λ s p. h s.db p }

  Executed-Ended :
      (g : ℕ → Db → A × Db) (s : Conn) (r : Result A × Conn)
      → ((t : ℕ) (d : Db) → P d → Q (g t d).0 (g t d).1)
      → ((d : Db) → P d → E d)
      → P s.db
      → Executed g s r
      → Ended Q E r.0 r.1.db
  Executed-Ended g s (ok a, c) h k p (Executed.failed e d n b) = absurd (cc e)
  Executed-Ended g s (err x, c) h k p (Executed.failed e d n b) = subst E (sym d) (k s.db p)
  Executed-Ended g s (ok a, c) h k p (Executed.carried_out t n m e d b) =
      subst (Q a) (sym d) (subst (λ x. Q x (g t s.db).1) (cc e) (h t s.db p))
  Executed-Ended g s (err x, c) h k p (Executed.carried_out t n m e d b) = absurd (cc e)

  pub execute-Ends :
      (g : ℕ → Db → A × Db)
      → ((t : ℕ) (d : Db) → P d → Q (g t d).0 (g t d).1)
      → ((d : Db) → P d → E d)
      → Ends P (execute g) Q E
  execute-Ends g h k = record {
    ends = λ s p. Executed-Ended g s (execute g s) h k p (execute-Executed g s);
  }

  pub query-Ends :
      (f : ℕ → Db → A)
      → ((t : ℕ) (d : Db) → P d → Q (f t d) d)
      → ((d : Db) → P d → E d)
      → Ends P (query f) Q E
  unfolding query
  query-Ends f h k = execute-Ends (λ t d. (f t d, d)) h k

module _ {A B : Type 0} (P : Db → Type 0) (R : A → Db → Type 0) (Q : B → Db → Type 0)
    (E : Db → Type 0) where
  continue-Ended :
      (k : A → Sql B)
      → ((a : A) → Ends (R a) (k a) Q E)
      → (x : Result A × Conn) → Ended R E x.0 x.1.db
      → Ended Q E (continue x.0 k x.1).0 (continue x.0 k x.1).1.db
  continue-Ended k h (ok a, s) r = (h a).ends s r
  continue-Ended k h (err e, s) r = r

  pub bind-Ends :
      (m : Sql A) (k : A → Sql B)
      → Ends P m R E
      → ((a : A) → Ends (R a) (k a) Q E)
      → Ends P (m >>= k) Q E
  unfolding ◌>>=◌
  bind-Ends m k g h = record { ends = λ s p. continue-Ended k h (m s) (g.ends s p) }

  -- What is lifted into the action, and known to be so.
  pub lift-Ends :
      (r : Result A) (k : A → Sql B)
      → ((d : Db) → P d → E d)
      → ((a : A) → r ≡ ok a → Ends P (k a) Q E)
      → Ends P (lift r >>= k) Q E
  unfolding ◌>>=◌ lift
  lift-Ends (ok a) k f h = record { ends = λ s p. (h a refl).ends s p }
  lift-Ends (err e) k f h = record { ends = λ s p. f s.db p }

-- A command shows `Q`.
pub record Shows (P : Db → Type 0) (c : Command) (Q : Report → Db → Type 0) : Type 0 where
  pub shows : (s : Conn) → P s.db → Q (c s).0 (c s).1.db

module _ (P : Db → Type 0) (Q : Report → Db → Type 0) where
  pub report-Shows : (r : Report) → ((d : Db) → P d → Q r d) → Shows P (report r) Q
  report-Shows r h = record { shows = λ s p. h s.db p }

  pub if-Shows :
      (b : Bool) (c e : Command)
      → (b ≡ true → Shows P c Q)
      → (b ≡ false → Shows P e Q)
      → Shows P (if b then c else e) Q
  if-Shows true c e g h = g refl
  if-Shows false c e g h = h refl

module _ (printer : Printer) {A : Type 0} (P : Db → Type 0) (R : A → Db → Type 0) (E : Db → Type 0)
    (Q : Report → Db → Type 0) where
  answer-Shows :
      (k : A → Command)
      → ((a : A) → Shows (R a) (k a) Q)
      → ((e : ServerError) (d : Db) → E d → Q (runtime_error printer e) d)
      → (x : Result A × Conn) → Ended R E x.0 x.1.db
      → Q (answer printer x.0 k x.1).0 (answer printer x.0 k x.1).1.db
  answer-Shows k h f (ok a, s) r = (h a).shows s r
  answer-Shows k h f (err e, s) r = f e s.db r

  pub on-Shows :
      (m : Sql A) (k : A → Command)
      → Ends P m R E
      → ((a : A) → Shows (R a) (k a) Q)
      → ((e : ServerError) (d : Db) → E d → Q (runtime_error printer e) d)
      → Shows P (on printer m k) Q
  unfolding on
  on-Shows m k g h f = record { shows = λ s p. answer-Shows k h f (m s) (g.ends s p) }

pub any-Ends :
    {A : Type 0} (P : Db → Type 0) (m : Sql A) → Ends P m (λ _ _. Unit {0}) (λ _. Unit {0})
any-Ends {A} P m = record { ends = λ s p. either (m s).0 (m s).1.db }
  where
    either : (r : Result A) (d : Db) → Ended (λ _ _. Unit {0}) (λ _. Unit {0}) r d
    either (ok a) d = tt
    either (err e) d = tt
