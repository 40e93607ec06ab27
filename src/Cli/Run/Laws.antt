-- ===== src/Cli/Run/Laws.antt =====
-- What holds of every command.
use vaultcrdt_server.Base.{
  nat_eq, list_eq, option_eq, pair_eq, ◌==◌, Text, codes, ℕ, ◌≡◌, ◌⊎◌, inl, inr, refl, sym, subst,
  Bool, not, ◌&&◌, ◌||◌, Option, none, some, List, [], ◌∷◌,
}
use vaultcrdt_server.Errors.{ServerError, Result}
use vaultcrdt_server.Db.{Db}
use vaultcrdt_server.Sql.{Conn}
use vaultcrdt_server.Vaults.{Argon, valid_vault_id, vault_exists, list_vaults}
use vaultcrdt_server.Cli.Args.{Parsed, parse}
use vaultcrdt_server.Cli.Report.{Report, usage_text, success, failure, usage}
use vaultcrdt_server.Cli.Commands.{
  Printer, report, runtime_error, not_found, vault_list, vault_quota, vault_create, invite_mint,
  minted_text, list_text,
}
use vaultcrdt_server.Devices.{mint_invite}
use vaultcrdt_server.Cli.Commands.Triples.{
  Shows, query-Ends, any-Ends, report-Shows, if-Shows, on-Shows,
}
use vaultcrdt_server.Cli.Commands.Laws.{Done, by_usage, name_taken, by_error, vault_create_lem}
use vaultcrdt_server.Cli.Commands.Quota.{QuotaDone, vault_quota_lem}
use vaultcrdt_server.Cli.Run.{dispatch, run_parsed, run}

-- A command ends with 0 and writes to the standard output only; or with 2 or 3, writes to the standard error
-- only, and has changed nothing; or with 1, where a statement or a library failed.
pub data IsSober (before : Db) : Report → Db → Type 0 where
  fine : (out : Text) (after : Db) → IsSober before (success out) after
  refused :
      (code : ℕ) (err : Text) → (code ≡ 2) ⊎ (code ≡ 3) → IsSober before (failure code err) before
  failed : (err : Text) (after : Db) → IsSober before (failure 1 err) after

module _ (printer : Printer) (argon : Argon) (sha256_hex : Text → Text)
    (jwt_sign : Text → Result Text) (default_quota : ℕ) (before : Db) where
  abbrev Same : Db → Type 0
  Same d = d ≡ before

  error-IsSober : (e : ServerError) (d : Db) → IsSober before (runtime_error printer e) d
  unfolding runtime_error
  error-IsSober e d = failed _ d

  usage-IsSober : IsSober before usage before
  unfolding usage
  usage-IsSober = refused 2 usage_text (inl refl)

  usage-Shows : Shows Same (report usage) (IsSober before)
  usage-Shows = report-Shows _ _ usage (λ d e. subst (IsSober before usage) (sym e) usage-IsSober)

  created-IsSober :
      (salt : ℕ) (secret name : Text) (url : Option Text) (json : Bool) (r : Report) (d : Db)
      → Done printer argon sha256_hex jwt_sign salt secret name url json before r d
      → IsSober before r d
  created-IsSober salt secret name url json r d (inl made) =
      subst (λ x. IsSober before x d) (sym made.shown) (fine _ d)
  created-IsSober salt secret name url json _ d (inr (by_usage, e)) =
      subst (IsSober before usage) (sym e) usage-IsSober
  created-IsSober salt secret name url json _ d (inr (name_taken, e)) =
      subst (IsSober before _) (sym e) (refused 3 _ (inr refl))
  created-IsSober salt secret name url json _ d (inr (by_error x, e)) = error-IsSober x d

  quota-IsSober :
      (name bytes : Text) (json : Bool) (s : Conn) (r : Report) (d : Db)
      → s.db ≡ before
      → QuotaDone printer default_quota name bytes json s r d
      → IsSober before r d
  quota-IsSober name bytes json s _ _ e (QuotaDone.set quota row v p f) = fine _ _
  quota-IsSober name bytes json s _ _ e (QuotaDone.misnamed v) =
      subst (IsSober before usage) (sym e) usage-IsSober
  quota-IsSober name bytes json s _ _ e (QuotaDone.no_quota p) =
      subst (IsSober before usage) (sym e) usage-IsSober
  quota-IsSober name bytes json s _ _ e (QuotaDone.no_vault quota v p f) =
      subst (IsSober before _) (sym e) (refused 3 _ (inr refl))
  quota-IsSober name bytes json s _ _ e (QuotaDone.failed x quota v p b) = error-IsSober x _
  quota-IsSober name bytes json s _ _ e (QuotaDone.failed_to_show x quota row v p b f) =
      error-IsSober x _

  vault_create-Sober :
      (salt : ℕ) (secret name : Text) (url : Option Text) (json : Bool)
      → Shows Same
          (vault_create printer argon sha256_hex jwt_sign salt secret name url json)
          (IsSober before)
  vault_create-Sober salt secret name url json = record {
    shows = λ s e.
        let r = vault_create printer argon sha256_hex jwt_sign salt secret name url json s in
        created-IsSober salt secret name url json r.0 r.1.db (
          subst (λ x. Done printer argon sha256_hex jwt_sign salt secret name url json x r.0 r.1.db)
            e (vault_create_lem printer argon sha256_hex jwt_sign salt secret name url json s));
  }

  vault_quota-Sober :
      (name bytes : Text) (json : Bool)
      → Shows Same (vault_quota printer default_quota name bytes json) (IsSober before)
  vault_quota-Sober name bytes json = record {
    shows = λ s e.
        let r = vault_quota printer default_quota name bytes json s in
        quota-IsSober name bytes json s r.0 r.1.db e
          (vault_quota_lem printer default_quota name bytes json s);
  }

  vault_list-Sober :
      (json : Bool) → Shows Same (vault_list printer default_quota json) (IsSober before)
  unfolding vault_list
  vault_list-Sober json =
      on-Shows printer Same (λ _ _. Unit {0}) (λ _. Unit {0}) (IsSober before) list_vaults _
        (any-Ends Same list_vaults)
        (λ rows.
          report-Shows _ _ (success (list_text printer default_quota json rows)) (λ d e. fine _ d))
        (λ e d p. error-IsSober e d)

  invite_mint-Sober :
      (invite vault : Text) (url : Option Text) (json : Bool)
      → Shows Same
          (invite_mint printer argon sha256_hex jwt_sign invite vault url json)
          (IsSober before)
  unfolding invite_mint vault_exists
  invite_mint-Sober invite vault url json =
      if-Shows _ _ (not (valid_vault_id vault)) _ _ (λ bad. usage-Shows)
        (λ good.
          on-Shows printer Same (λ _. Same) Same _ _ _ (query-Ends _ _ _ _ (λ t d e. e) (λ d e. e))
            (λ exists.
              if-Shows _ _ exists _ _
                (λ there.
                  on-Shows printer {A = Text × ℕ} Same (λ _ _. Unit {0}) (λ _. Unit {0})
                    (IsSober before)
                    (mint_invite argon sha256_hex jwt_sign invite vault (codes "operator-cli") none)
                    _ (any-Ends Same _)
                    (λ minted.
                      report-Shows _ _ (success (minted_text printer vault url json minted))
                        (λ d e. fine _ d))
                    (λ e d p. error-IsSober e d))
                (λ missing.
                  report-Shows _ _ (not_found printer vault)
                    (λ d e. subst (IsSober before _) (sym e) (refused 3 _ (inr refl)))))
            (λ e d p. error-IsSober e d))

  dispatch-Sober :
      (salt : ℕ) (secret command : Text) (words : List Text) (url : Option Text) (json : Bool)
      → Shows Same
          (dispatch printer argon sha256_hex jwt_sign default_quota salt secret command words url
            json)
          (IsSober before)
  unfolding dispatch
  dispatch-Sober salt secret command [] url json = usage-Shows
  dispatch-Sober salt secret command (sub ∷ []) url json =
      if-Shows _ _ (command == codes "vault" && sub == codes "list") _ _
        (λ _. vault_list-Sober json) (λ _. usage-Shows)
  dispatch-Sober salt secret command (sub ∷ name ∷ []) url json =
      if-Shows _ _ (command == codes "vault" && sub == codes "create") _ _
        (λ _. vault_create-Sober salt secret name url json)
        (λ _.
          if-Shows _ _ (command == codes "invite" && sub == codes "mint") _ _
            (λ _. invite_mint-Sober secret name url json) (λ _. usage-Shows))
  dispatch-Sober salt secret command (sub ∷ name ∷ bytes ∷ []) url json =
      if-Shows _ _ (command == codes "vault" && sub == codes "quota") _ _
        (λ _. vault_quota-Sober name bytes json) (λ _. usage-Shows)
  dispatch-Sober salt secret command (sub ∷ name ∷ bytes ∷ more ∷ rest) url json = usage-Shows

  parsed-Sober :
      (salt : ℕ) (secret command : Text) (o : Option Parsed)
      → Shows Same
          (run_parsed printer argon sha256_hex jwt_sign default_quota salt secret command o)
          (IsSober before)
  unfolding run_parsed
  parsed-Sober salt secret command none = usage-Shows
  parsed-Sober salt secret command (some p) =
      dispatch-Sober salt secret command p.positionals p.server_url p.json

  run-Sober :
      (salt : ℕ) (secret : Text) (args : List Text)
      → Shows Same
          (run printer argon sha256_hex jwt_sign default_quota salt secret args)
          (IsSober before)
  unfolding run
  run-Sober salt secret [] = usage-Shows
  run-Sober salt secret (command ∷ rest) =
      if-Shows _ _ (command == codes "help" || command == codes "--help" || command == codes "-h") _
        _ (λ _. report-Shows _ _ _ (λ d e. fine usage_text d))
        (λ _.
          if-Shows _ _ (command == codes "vault" || command == codes "invite") _ _
            (λ _. parsed-Sober salt secret command (parse rest)) (λ _. usage-Shows))

-- Whatever the command line says and whichever statements fail, the process exits with 0 and has written to
-- the standard output only; or with 2 or 3, has written to the standard error only, and no table has
-- changed; or with 1, has written to the standard error only.
pub run-IsSober :
    (printer : Printer) (argon : Argon) (sha256_hex : Text → Text) (jwt_sign : Text → Result Text)
    (default_quota salt : ℕ) (secret : Text) (args : List Text) (s : Conn)
    → let r = run printer argon sha256_hex jwt_sign default_quota salt secret args s in
      IsSober s.db r.0 r.1.db
run-IsSober printer argon sha256_hex jwt_sign default_quota salt secret args s =
    (run-Sober printer argon sha256_hex jwt_sign default_quota s.db salt secret args).shows s refl
