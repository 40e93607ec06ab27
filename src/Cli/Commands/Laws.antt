-- ===== src/Cli/Commands/Laws.antt =====
-- A vault that the operator creates, and the quota that the operator sets.
use vaultcrdt_server.Base.{
  if◌then◌else◌, nat_eq, list_eq, option_eq, pair_eq, Text, ℕ, ◌≡◌, ◌⊎◌, inl, inr, refl, sym, subst,
  Bool, true, false, not, Option, none, some,
}
use vaultcrdt_server.Table.{find, put}
use vaultcrdt_server.Errors.{ServerError, Result, ok, or_fail}
use vaultcrdt_server.Db.{Db, Vault}
use vaultcrdt_server.Sql.{Conn}
use vaultcrdt_server.Vaults.{
  Argon, valid_vault_id, vault_exists, hash_secret, insert_vault, create_vault,
}
use vaultcrdt_server.Cli.Report.{Report, success, usage}
use vaultcrdt_server.Cli.Commands.{
  Printer, report, vault_create, created_text, exists_already, runtime_error,
}
use vaultcrdt_server.Cli.Commands.Triples.{
  Ends, Shows, query-Ends, execute-Ends, lift-Ends, report-Shows, if-Shows, on-Shows,
}

module _ (printer : Printer) (argon : Argon) (sha256_hex : Text → Text)
    (jwt_sign : Text → Result Text) (salt : ℕ) (secret name : Text) (url : Option Text)
    (json : Bool) where
  abbrev pub new_vault : Text → ℕ → Vault
  new_vault hashed t = record { api_key = hashed; created_at = t; quota_bytes = none }

  -- The vault is there with the hash of the secret that is shown, and was not there before.
  pub record IsCreated (before : Db) (r : Report) (after : Db) : Type 0 where
    pub hashed : Text
    pub time : ℕ
    pub absent : find name before.vaults ≡ none
    pub hashes : argon.hash_password salt secret ≡ some hashed
    pub stored : after ≡ record before { vaults = put name (new_vault hashed time) before.vaults }
    pub shown : r ≡ success (created_text printer name secret url json)

  pub data IsRefused : Report → Type 0 where
    by_usage : IsRefused usage
    name_taken : IsRefused (exists_already printer name)
    by_error : (e : ServerError) → IsRefused (runtime_error printer e)

  abbrev pub Done : Db → Report → Db → Type 0
  Done before r after = IsCreated before r after ⊎ (IsRefused r × (after ≡ before))

  known_hash :
      (o : Option Text) (e : ServerError) (hashed : Text)
      → or_fail o e ≡ ok hashed
      → o ≡ some hashed
  known_hash none e hashed h = absurd (cc h)
  known_hash (some x) e hashed h = cc h

  hash_secret_ok :
      (hashed : Text)
      → hash_secret argon salt secret ≡ ok hashed
      → argon.hash_password salt secret ≡ some hashed
  unfolding hash_secret
  hash_secret_ok hashed e = known_hash (argon.hash_password salt secret) _ hashed e

  abbrev shown_text : Report
  shown_text = success (created_text printer name secret url json)

  abbrev Inserted : Db → Bool → Db → Type 0
  Inserted before true d = IsCreated before shown_text d
  Inserted before false d = d ≡ before

  insert_vault-Inserted :
      (hashed : Text) (t : ℕ) (before : Db)
      → argon.hash_password salt secret ≡ some hashed
      → (o : Option Vault) → find name before.vaults ≡ o
      → Inserted before (insert_vault name hashed t before).0 (insert_vault name hashed t before).1
  unfolding insert_vault
  insert_vault-Inserted hashed t before known none e = rw e (record {
    hashed = hashed;
    time = t;
    absent = e;
    hashes = known;
    stored = refl;
    shown = refl;
  })
  insert_vault-Inserted hashed t before known (some row) e = rw e refl

  create_vault-Ends :
      (before : Db)
      → Ends
          (λ d. d ≡ before)
          (create_vault argon salt name secret)
          (λ created d. Inserted before created d)
          (λ d. d ≡ before)
  unfolding create_vault
  create_vault-Ends before =
      lift-Ends (λ d. d ≡ before) (λ _ d. d ≡ before) _ _ (hash_secret argon salt secret) _
        (λ d e. e)
        λ hashed known.
          execute-Ends _ _ _ (insert_vault name hashed)
            (λ t d e.
              subst
                (λ x.
                  Inserted before (insert_vault name hashed t x).0 (insert_vault name hashed t x).1)
                (sym e)
                (insert_vault-Inserted hashed t before (hash_secret_ok hashed known)
                  (find name before.vaults) refl))
            (λ d e. e)

  abbrev Unchanged : Db → Db → Type 0
  Unchanged before d = d ≡ before

  vault_create-Shows :
      (before : Db)
      → Shows
          (Unchanged before)
          (vault_create printer argon sha256_hex jwt_sign salt secret name url json)
          (Done before)
  unfolding vault_create vault_exists
  vault_create-Shows before =
      if-Shows _ _ (not (valid_vault_id name)) _ _
        (λ bad. report-Shows _ _ usage (λ d e. inr (by_usage, e)))
        (λ good.
          on-Shows printer _ (λ _. Unchanged before) (Unchanged before) _ _ _
            (query-Ends _ _ _ _ (λ t d e. e) (λ d e. e))
            (λ exists.
              if-Shows _ _ exists _ _
                (λ taken.
                  report-Shows _ _ (exists_already printer name) (λ d e. inr (name_taken, e)))
                (λ free.
                  on-Shows printer _ (λ created d. Inserted before created d) (Unchanged before) _ _
                    _ (create_vault-Ends before) (λ created. by_result created)
                    (λ e d same. inr (by_error e, same))))
            (λ e d same. inr (by_error e, same)))
    where
      by_result :
          (created : Bool)
          → Shows
              (Inserted before created)
              (if created then report shown_text else report (exists_already printer name))
              (Done before)
      by_result true = report-Shows _ _ shown_text (λ d i. inl i)
      by_result false = report-Shows _ _ (exists_already printer name) (λ d e. inr (name_taken, e))

-- `vault create` shows its secret only if it has just stored the vault, which was not there, with the hash
-- of this secret and the default quota. Otherwise it shows the usage, that the name is taken or an error, and
-- no table has changed, whichever statement failed.
pub vault_create_lem :
    (printer : Printer) (argon : Argon) (sha256_hex : Text → Text) (jwt_sign : Text → Result Text)
    (salt : ℕ) (secret name : Text) (url : Option Text) (json : Bool) (s : Conn)
    → let r = vault_create printer argon sha256_hex jwt_sign salt secret name url json s in
      Done printer argon sha256_hex jwt_sign salt secret name url json s.db r.0 r.1.db
vault_create_lem printer argon sha256_hex jwt_sign salt secret name url json s =
    (vault_create-Shows printer argon sha256_hex jwt_sign salt secret name url json s.db).shows s
      refl
