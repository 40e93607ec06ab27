-- ===== src/Tests/Cli.antt =====
-- The command line at concrete arguments.
use vaultcrdt_server.Base.{
  if◌then◌else◌, tests, nat_eq, list_eq, option_eq, pair_eq, ◌==◌, length, All, all, ltb, Bytes,
  Text, codes, ℕ, ◌+◌, ◌<◌, ◌≤◌, ◌≡◌, ◌↔◌, refl, Bool, true, false, Option, none, some, List, [],
  ◌∷◌, ◌++◌, arith,
}
use vaultcrdt_server.Base.Strings.{has}
use vaultcrdt_server.Base.Decimal.{u64_to_string}
use vaultcrdt_server.Table.{find}
use vaultcrdt_server.Errors.{Result, ok}
use vaultcrdt_server.Db.{empty_db}
use vaultcrdt_server.Sql.{Conn}
use vaultcrdt_server.Vaults.{Argon, argon_prefix, valid_vault_id, auth_verify_body}
use vaultcrdt_server.Devices.Secrets.{alphanumeric, random_secret}
use vaultcrdt_server.Devices.Secrets.Laws.{random_secret_lem, useful}
use vaultcrdt_server.Cli.Url.{normalize_url, percent_encode, setup_uri}
use vaultcrdt_server.Cli.Url.Laws.{link_parameters, link_parameters-setup_uri}
use vaultcrdt_server.Cli.Args.{Parsed, parse, parse_invocation, usage_error}
use vaultcrdt_server.Cli.Args.Pieces.{Piece, IsPiece, written, names, last_url, asks_json}
use vaultcrdt_server.Cli.Args.Laws.{parse_iff}
use vaultcrdt_server.Cli.Report.{success}
use vaultcrdt_server.Cli.Commands.{Printer, vault_create, vault_quota, created_text}
use vaultcrdt_server.Cli.Commands.Laws.{Done, vault_create_lem}
use vaultcrdt_server.Cli.Commands.Login.{calm, auth_verify_body-vault_create}
use vaultcrdt_server.Cli.Commands.Quota.{QuotaDone, vault_quota_lem}
use vaultcrdt_server.Cli.Run.{run}
use vaultcrdt_server.Cli.Run.Laws.{IsSober, run-IsSober}

abbrev printer : Printer
printer = record {
  display = λ e. codes "failed";
  datetime = u64_to_string;
  json_object = λ fields. codes "{}";
  json_array = λ rows. codes "[]";
}

abbrev plain_argon : Argon
plain_argon = record {
  hash_password = λ salt plaintext. some (argon_prefix ++ plaintext);
  verify_password = λ plaintext stored. stored == argon_prefix ++ plaintext;
}

abbrev sign : Text → Result Text
sign vault_id = ok vault_id

abbrev same_text : Text → Text
same_text s = s

abbrev fresh : Conn
fresh = calm empty_db 5

abbrev secret : Text
secret = codes "s3cret"

abbrev create_words : List Text
create_words = codes "vault" ∷ codes "create" ∷ codes "v1" ∷ codes "--server-url=https://h/" ∷ []

-- The vault is made, and a second time it is there already.
create_run :
    ((run printer plain_argon same_text sign 0 1 secret create_words fresh).0.code ≡ 0)
    × (let s = (run printer plain_argon same_text sign 0 1 secret create_words fresh).1 in
        (run printer plain_argon same_text sign 0 1 secret create_words s).0.code ≡ 3)
unfolding vaultcrdt_server.Cli.Url.normalize_url vaultcrdt_server.Cli.Args.parse
    vaultcrdt_server.Cli.Commands.vault_create vaultcrdt_server.Cli.Run.run
    vaultcrdt_server.Vaults.auth_verify_body vaultcrdt_server.Table.find vaultcrdt_server.Table.put
    vaultcrdt_server.Sql.lift vaultcrdt_server.Sql.◌>>=◌ vaultcrdt_server.Sql.query
    vaultcrdt_server.Base.Strings.strip_prefix vaultcrdt_server.Base.all
    vaultcrdt_server.Base.list_beq
create_run = (refl, refl)

url_run :
    (normalize_url (codes " https://h/x// ") ≡ some (codes "https://h/x"))
    × (percent_encode (codes "https://h/ ~") ≡ codes "https%3A%2F%2Fh%2F%20~")
    × (parse_invocation (codes "serve" ∷ []) ≡ usage_error)
unfolding vaultcrdt_server.Cli.Url.normalize_url vaultcrdt_server.Cli.Url.setup_uri
    vaultcrdt_server.Cli.Args.parse_invocation vaultcrdt_server.Base.Strings.strip_prefix
    vaultcrdt_server.Base.list_beq
url_run = (refl, refl, refl)

abbrev address_text : Text
address_text = codes "https://h?a=1&b"

bytes_below : (s : Text) → all (λ b. ltb b 256) s ≡ true → All (λ b. b < 256) s
unfolding vaultcrdt_server.Base.all
bytes_below [] h = tt
bytes_below (b ∷ s) h = (ground arith, bytes_below s (ground arith))

link_parameters-setup_uri_example :
    link_parameters (setup_uri address_text (codes "v1") (some (codes "i_1")))
    ≡ some (codes "v", codes "1")
      ∷ some (codes "server", address_text)
      ∷ some (codes "vaultId", codes "v1")
      ∷ some (codes "invite", codes "i_1")
      ∷ []
unfolding vaultcrdt_server.Vaults.auth_verify_body vaultcrdt_server.Base.all
    vaultcrdt_server.Base.any
link_parameters-setup_uri_example =
    link_parameters-setup_uri address_text (codes "v1") (some (codes "i_1"))
      (bytes_below address_text refl) refl (refl, (refl, (refl, tt)))

abbrev quota_words : List Text
quota_words = codes "quota" ∷ codes "--json" ∷ codes "v1" ∷ codes "10" ∷ []

abbrev quota_parsed : Parsed
quota_parsed = record {
  positionals = codes "quota" ∷ codes "v1" ∷ codes "10" ∷ [];
  server_url = none;
  json = true;
}

parse_iff_example : (parse quota_words ≡ some quota_parsed) ↔ (
    (ps : List Piece) × All IsPiece ps
    × (written ps ≡ quota_words)
    × (names ps ≡ quota_parsed.positionals)
    × (last_url none ps ≡ quota_parsed.server_url)
    × (asks_json false ps ≡ quota_parsed.json))
parse_iff_example = parse_iff quota_words quota_parsed

vault_create_lem_example :
    let r = vault_create printer plain_argon same_text sign 0 secret (codes "v1") none true fresh in
    Done printer plain_argon same_text sign 0 secret (codes "v1") none true empty_db r.0 r.1.db
vault_create_lem_example =
    vault_create_lem printer plain_argon same_text sign 0 secret (codes "v1") none true fresh

auth_verify_body-vault_create_example :
    let r = vault_create printer plain_argon same_text sign 0 secret (codes "v1") none true fresh in
    (r.0 ≡ success (created_text printer (codes "v1") secret none true))
    × ((auth_verify_body plain_argon sign (codes "admin") 7 (codes "v1") secret none r.1).0
        ≡ ok (codes "v1", codes "v1"))
unfolding vaultcrdt_server.Vaults.auth_verify_body vaultcrdt_server.Table.find
    vaultcrdt_server.Base.Strings.strip_prefix vaultcrdt_server.Base.all
    vaultcrdt_server.Base.list_beq
auth_verify_body-vault_create_example =
    auth_verify_body-vault_create printer plain_argon same_text sign (codes "admin") 0 7 secret
      (codes "v1") (argon_prefix ++ secret) (codes "v1") none true empty_db 5 refl refl refl refl
      refl refl

-- The vault is there.
abbrev made : Conn
made = (vault_create printer plain_argon same_text sign 0 secret (codes "v1") none true fresh).1

vault_quota_lem_example :
    let r = vault_quota printer 9 (codes "v1") (codes "10") true made in
    QuotaDone printer 9 (codes "v1") (codes "10") true made r.0 r.1.db
vault_quota_lem_example = vault_quota_lem printer 9 (codes "v1") (codes "10") true made

run-IsSober_example :
    let r = run printer plain_argon same_text sign 9 1 secret create_words fresh in
    IsSober empty_db r.0 r.1.db
run-IsSober_example = run-IsSober printer plain_argon same_text sign 9 1 secret create_words fresh

-- Two UUIDs, of which the second has a byte for each of the characters that are missing.
abbrev uuids : List Bytes
uuids = (0 ∷ 255 ∷ []) ∷ (1 ∷ 62 ∷ []) ∷ []

random_secret_lem_example :
    (s : Text) × (random_secret 2 alphanumeric uuids ≡ some s)
    × (length s ≡ 2)
    × All (λ c. has c alphanumeric ≡ true) s
unfolding vaultcrdt_server.Base.keep_if vaultcrdt_server.Devices.Secrets.random_secret
    vaultcrdt_server.Devices.Secrets.Laws.yields
random_secret_lem_example = random_secret_lem 2 alphanumeric uuids (omega arith) (omega arith)
