-- ===== src/Cli/Commands/Quota.antt =====
-- The quota that the operator sets.
use vaultcrdt_server.Base.{
  if◌then◌else◌, nat_eq, list_eq, option_eq, pair_eq, Bool-cases, inl, inr, Text, ℕ, ◌≡◌, refl, sym,
  ap, ◌∙◌, subst, Bool, true, false, Option, none, some,
}
use vaultcrdt_server.Base.Int.{ℤ}
use vaultcrdt_server.Table.{find, put}
use vaultcrdt_server.Table.Laws.{find-put}
use vaultcrdt_server.Errors.{ServerError, Result, ok, err}
use vaultcrdt_server.Db.{Db, Vault}
use vaultcrdt_server.Sql.{Conn, query}
use vaultcrdt_server.Sql.Refines.{any_fails, Executed, execute-Executed}
use vaultcrdt_server.Vaults.{
  valid_vault_id, update_vault, set_vault_quota, get_vault_quota, stored_quota,
}
use vaultcrdt_server.Cli.Report.{Report, success, usage}
use vaultcrdt_server.Cli.Commands.{
  Printer, Command, report, answer, on, runtime_error, not_found, parse_quota, quota_report,
  show_quota, vault_quota,
}
use vaultcrdt_server.Cli.Commands.Amounts.{IsQuota, parse_quota-IsQuota, IsQuota-parse_quota}

module _ (printer : Printer) (default_quota : ℕ) (name bytes : Text) (json : Bool) where
  abbrev pub with_quota : Option ℤ → Vault → Db → Db
  with_quota quota row d = record d {
    vaults = put name (record row { quota_bytes = quota }) d.vaults;
  }

  -- What the command shows and leaves, by its arguments and the tables that it finds.
  pub data QuotaDone (s : Conn) : Report → Db → Type 0 where
    set :
        (quota : Option ℤ) (row : Vault)
        → valid_vault_id name ≡ true
        → IsQuota bytes quota
        → find name s.db.vaults ≡ some row
        → QuotaDone s
            (success (quota_report printer default_quota name json quota))
            (with_quota quota row s.db)
    misnamed : valid_vault_id name ≡ false → QuotaDone s usage s.db
    no_quota : ((quota : Option ℤ) → ¬ (IsQuota bytes quota)) → QuotaDone s usage s.db
    no_vault :
        (quota : Option ℤ)
        → valid_vault_id name ≡ true
        → IsQuota bytes quota
        → find name s.db.vaults ≡ none
        → QuotaDone s (not_found printer name) s.db
    -- A statement failed, of which the second only reads.
    failed :
        (e : ServerError) (quota : Option ℤ)
        → valid_vault_id name ≡ true
        → IsQuota bytes quota
        → any_fails s.outcomes ≡ true
        → QuotaDone s (runtime_error printer e) s.db
    failed_to_show :
        (e : ServerError) (quota : Option ℤ) (row : Vault)
        → valid_vault_id name ≡ true
        → IsQuota bytes quota
        → any_fails s.outcomes ≡ true
        → find name s.db.vaults ≡ some row
        → QuotaDone s (runtime_error printer e) (with_quota quota row s.db)

  -- What is read is what was set.
  reads_back :
      (d : Db) (quota : Option ℤ) (row : Vault)
      → stored_quota (find name (with_quota quota row d).vaults) ≡ some quota
  unfolding stored_quota
  reads_back d quota row = ap stored_quota (
      find-put name name (record row { quota_bytes = quota }) d.vaults
      ∙ ap (λ b. if b then some (record row { quota_bytes = quota }) else find name d.vaults)
          ((list_eq.decides name name).1 refl))

  module _ (s : Conn) (quota : Option ℤ) (valid : valid_vault_id name ≡ true)
      (parsed : IsQuota bytes quota) where
    abbrev IsDone : Report × Conn → Type 0
    IsDone r = QuotaDone s r.0 r.1.db

    module _ (row : Vault) (there : find name s.db.vaults ≡ some row) where
      show-IsDone :
          (o : Option (Option ℤ)) (c : Conn)
          → o ≡ some quota
          → c.db ≡ with_quota quota row s.db
          → IsDone (show_quota printer default_quota name json o c)
      show-IsDone none c e f = absurd (cc e)
      show-IsDone (some q) c e f =
          subst (λ x. QuotaDone s (success (quota_report printer default_quota name json x)) c.db)
            {x = quota} {y = q} (cc e)
            (subst (QuotaDone s _) (sym f) (set quota row valid parsed there))

      read-IsDone :
          (c : Conn) (r : Result (Option (Option ℤ)) × Conn)
          → c.db ≡ with_quota quota row s.db
          → (any_fails c.outcomes ≡ true → any_fails s.outcomes ≡ true)
          → Executed (λ t d. (stored_quota (find name d.vaults), d)) c r
          → IsDone (answer printer r.0 (show_quota printer default_quota name json) r.1)
      read-IsDone c (ok o, c') f b (Executed.failed e d n blame) = absurd (cc e)
      read-IsDone c (err x, c') f b (Executed.failed e d n blame) =
          subst (QuotaDone s _) (sym (d ∙ f))
            (failed_to_show x quota row valid parsed (b blame) there)
      read-IsDone c (ok o, c') f b (Executed.carried_out t n m e d h) =
          show-IsDone o c'
            (subst (λ x. o ≡ stored_quota (find name x.vaults)) f (cc e)
              ∙ reads_back s.db quota row)
            (d ∙ f)
      read-IsDone c (err x, c') f b (Executed.carried_out t n m e d h) = absurd (cc e)

    after_update : Bool → Command
    after_update found =
        if found
        then on printer (get_vault_quota name) (show_quota printer default_quota name json)
        else report (not_found printer name)

    updated-IsDone :
        (o : Option Vault) (found : Bool) (c : Conn)
        → find name s.db.vaults ≡ o
        → let r = update_vault (λ row. record row { quota_bytes = quota }) name o s.db in
          found ≡ r.0
          → c.db ≡ r.1
          → (any_fails c.outcomes ≡ true → any_fails s.outcomes ≡ true)
          → IsDone (after_update found c)
    unfolding on get_vault_quota query after_update
    updated-IsDone none true c e f g b = absurd (cc f)
    updated-IsDone none false c e f g b =
        subst (QuotaDone s _) (sym g) (no_vault quota valid parsed e)
    updated-IsDone (some row) false c e f g b = absurd (cc f)
    updated-IsDone (some row) true c e f g b =
        read-IsDone row e c _ g b
          (execute-Executed (λ t d. (stored_quota (find name d.vaults), d)) c)

    set-IsDone :
        (r : Result Bool × Conn)
        → Executed
            (λ _ d.
              update_vault (λ row. record row { quota_bytes = quota }) name (find name d.vaults) d)
            s
            r
        → IsDone (answer printer r.0 after_update r.1)
    set-IsDone (ok found, c) (Executed.failed e d n blame) = absurd (cc e)
    set-IsDone (err x, c) (Executed.failed e d n blame) =
        subst (QuotaDone s _) (sym d) (failed x quota valid parsed blame)
    set-IsDone (ok found, c) (Executed.carried_out t n m e d h) =
        updated-IsDone (find name s.db.vaults) found c refl (cc e) d h
    set-IsDone (err x, c) (Executed.carried_out t n m e d h) = absurd (cc e)

-- With `vault quota`, a name that no vault may have, or an argument that is not `default` nor a number
-- below 2^63, gets the usage and changes nothing. Otherwise, unless a statement fails, the command sets
-- the quota that the argument stands for and shows what the server then enforces, where the vault is
-- there, and says that it is not found, and changes nothing, where it is not. Where a statement fails,
-- the error is shown, and either nothing has changed or the quota of the vault that was found is set.
-- No other vault and no other table changes.
pub vault_quota_lem :
    (printer : Printer) (default_quota : ℕ) (name bytes : Text) (json : Bool) (s : Conn)
    → let r = vault_quota printer default_quota name bytes json s in
      QuotaDone printer default_quota name bytes json s r.0 r.1.db
unfolding vault_quota on set_vault_quota after_update
vault_quota_lem printer default_quota name bytes json s = elim (Bool-cases (valid_vault_id name)) [
  | inl valid ↦ rw valid (by_quota valid (parse_quota bytes) refl)
  | inr bad ↦ rw bad (QuotaDone.misnamed bad)
]
  where
    by_quota :
        valid_vault_id name ≡ true
        → (o : Option (Option ℤ)) → parse_quota bytes ≡ o
        → let r =
            (elim o as (λ x. Command) [
              | none ↦ report usage
              | some quota ↦ on printer (set_vault_quota name quota) λ found.
                  if found
                  then on printer
                      (get_vault_quota name)
                      (show_quota printer default_quota name json)
                  else report (not_found printer name)
            ])
              s in
          QuotaDone printer default_quota name bytes json s r.0 r.1.db
    by_quota valid none e =
        QuotaDone.no_quota (λ quota q. absurd (cc (e, IsQuota-parse_quota bytes quota q)))
    by_quota valid (some quota) e =
        set-IsDone printer default_quota name bytes json s quota valid
          (parse_quota-IsQuota bytes quota e) _ (execute-Executed _ s)
