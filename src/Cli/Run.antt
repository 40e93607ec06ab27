-- ===== src/Cli/Run.antt =====
-- cli.rs, `run`: the command that the arguments name. `secret` is what `random_secret` draws for it.
pub mod Laws
use vaultcrdt_server.Base.{
  if◌then◌else◌, tests, ◌==◌, nat_eq, list_eq, option_eq, pair_eq, Text, codes, ℕ, Bool, ◌&&◌, ◌||◌,
  Option, none, some, List, [], ◌∷◌,
}
use vaultcrdt_server.Errors.{Result}
use vaultcrdt_server.Vaults.{Argon}
use vaultcrdt_server.Cli.Args.{Parsed, parse}
use vaultcrdt_server.Cli.Report.{usage_text, success, usage}
use vaultcrdt_server.Cli.Commands.{
  Printer, Command, report, vault_list, vault_quota, vault_create, invite_mint,
}

module _ (printer : Printer) (argon : Argon) (sha256_hex : Text → Text)
    (jwt_sign : Text → Result Text) (default_quota_bytes : ℕ) where
  -- The command, its subcommand and what follows it.
  unfoldable pub dispatch :
      (salt : ℕ) (secret : Text) → Text → List Text → Option Text → Bool → Command
  dispatch salt secret command [] server_url json = report usage
  dispatch salt secret command (sub ∷ []) server_url json =
      if command == codes "vault" && sub == codes "list"
      then vault_list printer default_quota_bytes json
      else report usage
  dispatch salt secret command (sub ∷ name ∷ []) server_url json =
      if command == codes "vault" && sub == codes "create"
      then vault_create printer argon sha256_hex jwt_sign salt secret name server_url json
      else if command == codes "invite" && sub == codes "mint"
      then invite_mint printer argon sha256_hex jwt_sign secret name server_url json
      else report usage
  dispatch salt secret command (sub ∷ name ∷ bytes ∷ []) server_url json =
      if command == codes "vault" && sub == codes "quota"
      then vault_quota printer default_quota_bytes name bytes json
      else report usage
  dispatch salt secret command (sub ∷ name ∷ bytes ∷ more ∷ rest) server_url json = report usage

  unfoldable pub run_parsed : (salt : ℕ) (secret : Text) → Text → Option Parsed → Command
  unfolding dispatch
  run_parsed salt secret command none = report usage
  run_parsed salt secret command (some p) =
      dispatch salt secret command p.positionals p.server_url p.json

  unfoldable pub run : (salt : ℕ) (secret : Text) → List Text → Command
  unfolding run_parsed
  run salt secret [] = report usage
  run salt secret (command ∷ rest) =
      if command == codes "help" || command == codes "--help" || command == codes "-h"
      then report (success usage_text)
      else if command == codes "vault" || command == codes "invite"
      then run_parsed salt secret command (parse rest)
      else report usage
