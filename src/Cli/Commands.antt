-- ===== src/Cli/Commands.antt =====
-- cli.rs: the commands, on the database that the server uses. `secret` and `invite` are what
-- `random_secret` has drawn.
pub mod Triples
pub mod Laws
pub mod Amounts
pub mod Quota
pub mod Login
use vaultcrdt_server.Base.{
  if◌then◌else◌, tests, leb, ◌==◌, nat_eq, list_eq, option_eq, pair_eq, length, Text, codes, ℕ, ◌-◌,
  ◌^◌, max, Bool, true, false, not, Option, none, some, List, [], ◌∷◌, ◌++◌, map, arith,
}
use vaultcrdt_server.Base.Int.{ℤ, pos}
use vaultcrdt_server.Base.Decimal.{parse_unsigned, u64_to_string}
use vaultcrdt_server.Errors.{ServerError, Result, ok, err}
use vaultcrdt_server.Sql.{Conn, Sql}
use vaultcrdt_server.Vaults.{
  Argon, valid_vault_id, vault_exists, create_vault, list_vaults, set_vault_quota, get_vault_quota,
}
use vaultcrdt_server.Devices.{mint_invite}
use vaultcrdt_server.Blobs.Uploads.Create.{effective_quota}
use vaultcrdt_server.Cli.Url.{setup_uri}
use vaultcrdt_server.Cli.Args.{Parsed, parse}
use vaultcrdt_server.Cli.Report.{
  Report, newline, usage_text, success, failure, usage, padded, kv, i64_to_string, quota_text, Json,
  null, string, number, quota_json,
}

abbrev pub Command : Type 0
Command = Conn → Report × Conn

abbrev pub report : Report → Command
report r s = (r, s)

-- The texts of errors and times, and the printing of JSON, are those of the libraries.
pub record Printer : Type 0 where
  pub display : ServerError → Text
  pub datetime : ℕ → Text
  pub json_object : List (Text × Json) → Text
  pub json_array : List (List (Text × Json)) → Text

-- `default`, or a number of an `i64`
unfoldable pub parse_quota : Text → Option (Option ℤ)
parse_quota bytes = if bytes == codes "default" then some none else elim (parse_unsigned bytes) [
  | none ↦ none
  | some n ↦ if leb n (2 ^ 63 - 1) then some (some (pos n)) else none
]

module _ (printer : Printer) where
  unfoldable pub runtime_error : ServerError → Report
  runtime_error e = failure 1 (codes "error: " ++ (printer.display e ++ newline))

  abbrev pub answer : {A : Type 0} → Result A → (A → Command) → Command
  answer (ok a) next s = next a s
  answer (err e) next s = (runtime_error e, s)

  -- `match action.await`, where an error ends the command.
  unfoldable pub on : {A : Type 0} → Sql A → (A → Command) → Command
  on action next s = let (r, s') = action s in answer r next s'

  abbrev pub line : Text → Text → Text
  line text name = text ++ (name ++ newline)

  abbrev pub exists_already : Text → Report
  exists_already name = failure 3 (line (codes "vault exists: ") name)

  abbrev pub not_found : Text → Report
  not_found name = failure 3 (line (codes "vault not found: ") name)

  -- The fields about the server, where its URL was given.
  abbrev pub server_fields : Text → Option Text → Option Text → List (Text × Json)
  server_fields name invite none = []
  server_fields name invite (some url) =
      (codes "server_url", string url)
      ∷ (codes "setup_uri", string (setup_uri url name invite))
      ∷ []

  abbrev pub server_lines : ℕ → Text → Option Text → Option Text → Text
  server_lines width name invite none = []
  server_lines width name invite (some url) =
      kv width (codes "server") url ++ kv width (codes "setup") (setup_uri url name invite)

  abbrev pub next_step : Text → Option Text → Text
  next_step name none = []
  next_step name (some url) =
      codes "Next: vaultcrdt-server invite mint "
      ++ (name ++ (codes " --server-url " ++ (url ++ newline)))

  unfoldable pub created_text : Text → Text → Option Text → Bool → Text
  unfolding kv
  created_text name secret server_url true =
      printer.json_object (
        (codes "vault_id", string name)
        ∷ (codes "secret", string secret)
        ∷ server_fields name none server_url)
      ++ newline
  created_text name secret server_url false =
      kv 6 (codes "vault") name
      ++ (kv 6 (codes "secret") secret
          ++ (server_lines 6 name none server_url
              ++ (codes "\nStore the secret. It is shown once and cannot be recovered.\n"
                  ++ next_step name server_url)))

  -- The stored and the effective quota of a vault
  abbrev quota_fields : ℕ → Option ℤ → List (Text × Json)
  quota_fields default_quota_bytes quota =
      (codes "quota_bytes", quota_json quota)
      ∷ (codes "effective_quota_bytes", number (pos (effective_quota default_quota_bytes quota)))
      ∷ []

  abbrev vault_fields : ℕ → Text × ℕ × Option ℤ → List (Text × Json)
  vault_fields default_quota_bytes (name, created, quota) =
      (codes "vault_id", string name)
      ∷ (codes "created_at", string (printer.datetime created))
      ∷ quota_fields default_quota_bytes quota

  abbrev longest : List (Text × ℕ × Option ℤ) → ℕ
  longest [] = 0
  longest ((name, created, quota) ∷ rest) = max (length name) (longest rest)

  vault_line : ℕ → ℕ → Text × ℕ × Option ℤ → Text
  vault_line default_quota_bytes width (name, created, quota) =
      padded width name
      ++ (codes "  "
          ++ (printer.datetime created
              ++ (codes "  quota="
                  ++ (quota_text quota
                      ++ (codes "  effective="
                          ++ (u64_to_string (effective_quota default_quota_bytes quota)
                              ++ newline))))))

  vault_lines : ℕ → ℕ → List (Text × ℕ × Option ℤ) → Text
  unfolding vault_line
  vault_lines default_quota_bytes width [] = []
  vault_lines default_quota_bytes width (row ∷ rows) =
      vault_line default_quota_bytes width row ++ vault_lines default_quota_bytes width rows

  unfoldable pub list_text : ℕ → Bool → List (Text × ℕ × Option ℤ) → Text
  unfolding vault_lines
  list_text default_quota_bytes true rows =
      printer.json_array (map (vault_fields default_quota_bytes) rows) ++ newline
  list_text default_quota_bytes false rows = vault_lines default_quota_bytes (longest rows) rows

  unfoldable pub vault_list : ℕ → Bool → Command
  unfolding on list_text
  vault_list default_quota_bytes json =
      on list_vaults λ rows. report (success (list_text default_quota_bytes json rows))

  unfoldable pub quota_report : ℕ → Text → Bool → Option ℤ → Text
  unfolding kv
  quota_report default_quota_bytes name true quota =
      printer.json_object ((codes "vault_id", string name) ∷ quota_fields default_quota_bytes quota)
      ++ newline
  quota_report default_quota_bytes name false quota =
      kv 9 (codes "vault") name
      ++ (kv 9 (codes "quota") (quota_text quota)
          ++ kv 9 (codes "effective") (u64_to_string (effective_quota default_quota_bytes quota)))

  abbrev pub show_quota : ℕ → Text → Bool → Option (Option ℤ) → Command
  show_quota default_quota_bytes name json none = report (not_found name)
  show_quota default_quota_bytes name json (some quota) =
      report (success (quota_report default_quota_bytes name json quota))

  unfoldable pub vault_quota : ℕ → Text → Text → Bool → Command
  unfolding on parse_quota
  vault_quota default_quota_bytes name bytes json =
      if not (valid_vault_id name) then report usage else elim (parse_quota bytes) [
        | none ↦ report usage
        | some quota ↦ on (set_vault_quota name quota) λ found.
            if found
            then on (get_vault_quota name) (show_quota default_quota_bytes name json)
            else report (not_found name)
      ]

  unfoldable pub minted_text : Text → Option Text → Bool → Text × ℕ → Text
  unfolding kv
  minted_text vault server_url true (invite, expires_at) =
      printer.json_object (
        (codes "vault_id", string vault)
        ∷ (codes "invite", string invite)
        ∷ (codes "expires_at", string (printer.datetime expires_at))
        ∷ server_fields vault (some invite) server_url)
      ++ newline
  minted_text vault server_url false (invite, expires_at) =
      kv 7 (codes "vault") vault
      ++ (kv 7 (codes "invite") invite
          ++ (kv 7 (codes "expires") (printer.datetime expires_at)
              ++ (server_lines 7 vault (some invite) server_url
                  ++ codes
                      "\nOpen the setup link on the new device, or render it as a QR code (any QR tool) and scan it with the phone.\n")))

  module _ (argon : Argon) (sha256_hex : Text → Text) (jwt_sign : Text → Result Text) where
    -- A vault that somebody else creates meanwhile has another secret.
    unfoldable pub vault_create : ℕ → Text → Text → Option Text → Bool → Command
    unfolding on created_text
    vault_create salt secret name server_url json =
        if not (valid_vault_id name)
        then report usage
        else on (vault_exists name) λ exists.
          if exists
          then report (exists_already name)
          else on (create_vault argon salt name secret) λ created.
            if created
            then report (success (created_text name secret server_url json))
            else report (exists_already name)

    unfoldable pub invite_mint : Text → Text → Option Text → Bool → Command
    unfolding on minted_text
    invite_mint invite vault server_url json =
        if not (valid_vault_id vault)
        then report usage
        else on (vault_exists vault) λ exists.
          if exists
          then on (mint_invite argon sha256_hex jwt_sign invite vault (codes "operator-cli") none)
              (λ minted. report (success (minted_text vault server_url json minted)))
          else report (not_found vault)
