-- ===== src/Cli/Commands/Login.antt =====
-- From the operator's command line to the client's first token.
use vaultcrdt_server.Base.{
  if◌then◌else◌, nat_eq, list_eq, option_eq, pair_eq, Text, ℕ, ◌≡◌, refl, ap, ◌∙◌, Bool, true,
  Option, none, some, [],
}
use vaultcrdt_server.Base.Strings.{starts_with}
use vaultcrdt_server.Table.{find, put}
use vaultcrdt_server.Table.Laws.{find-put}
use vaultcrdt_server.Errors.{Result, ok}
use vaultcrdt_server.Db.{Db, Vault}
use vaultcrdt_server.Sql.{Conn, execute, query, ◌>>=◌, lift, pure}
use vaultcrdt_server.Vaults.{
  Argon, argon_prefix, valid_vault_id, vault_exists, hash_secret, insert_vault, create_vault,
  verify_secret, migrate_key, verify_stored, verify_vault, log_in, auth_verify_body,
}
use vaultcrdt_server.Cli.Report.{success}
use vaultcrdt_server.Cli.Commands.{Printer, vault_create, created_text, on}

abbrev pub calm : Db → ℕ → Conn
calm d t = record { db = d; now = t; outcomes = [] }

module _ (argon : Argon) (salt : ℕ) (secret name hashed : Text)
    (hashes : argon.hash_password salt secret ≡ some hashed) (d : Db) (t : ℕ)
    (valid : valid_vault_id name ≡ true) where
  abbrev row : Vault
  row = record { api_key = hashed; created_at = t; quota_bytes = none }

  abbrev with_vault : Db
  with_vault = record d { vaults = put name row d.vaults }

  create_calm :
      find name d.vaults ≡ none
      → create_vault argon salt name secret (calm d t) ≡ (ok true, calm with_vault t)
  unfolding create_vault hash_secret insert_vault ◌>>=◌ lift execute
  create_calm absent = rw (hashes, absent) refl

  vault_create-calm :
      (printer : Printer) (sha256_hex : Text → Text) (jwt_sign : Text → Result Text)
      (url : Option Text) (json : Bool)
      → find name d.vaults ≡ none
      → vault_create printer argon sha256_hex jwt_sign salt secret name url json (calm d t)
        ≡ (success (created_text printer name secret url json), calm with_vault t)
  unfolding vault_create vault_exists on query execute
  vault_create-calm printer sha256_hex jwt_sign url json absent =
      rw (valid, absent, create_calm absent) refl

  vault_there : find name with_vault.vaults ≡ some row
  vault_there =
      find-put name name row d.vaults
      ∙ ap (λ b. if b then some row else find name d.vaults) ((list_eq.decides name name).1 refl)

  verify_calm :
      (salt' : ℕ)
      → starts_with argon_prefix hashed ≡ true
      → argon.verify_password secret hashed ≡ true
      → verify_vault argon salt' name secret (calm with_vault t) ≡ (ok true, calm with_vault t)
  unfolding verify_vault verify_stored verify_secret migrate_key ◌>>=◌ query execute pure
  verify_calm salt' phc fits = rw (vault_there, phc, fits) refl

-- Where no statement fails and Argon2 verifies what it has hashed, in a PHC string: `vault create` of an
-- allowed name that is free exits with 0 and shows its secret, and a client that then names the vault and
-- shows this secret gets a token for it, without the admin token.
pub auth_verify_body-vault_create :
    (printer : Printer) (argon : Argon) (sha256_hex : Text → Text) (jwt_sign : Text → Result Text)
    (admin : Text) (salt salt' : ℕ) (secret name hashed token : Text) (url : Option Text)
    (json : Bool) (d : Db) (t : ℕ)
    → argon.hash_password salt secret ≡ some hashed
    → starts_with argon_prefix hashed ≡ true
    → argon.verify_password secret hashed ≡ true
    → jwt_sign name ≡ ok token
    → valid_vault_id name ≡ true
    → find name d.vaults ≡ none
    → let r = vault_create printer argon sha256_hex jwt_sign salt secret name url json (calm d t) in
      (r.0 ≡ success (created_text printer name secret url json))
      × ((auth_verify_body argon jwt_sign admin salt' name secret none r.1).0 ≡ ok (token, name))
unfolding auth_verify_body log_in vault_exists query execute ◌>>=◌ lift pure
auth_verify_body-vault_create printer argon sha256_hex jwt_sign admin salt salt' secret name hashed
      token url json d t hashes phc fits signed valid absent =
    let made =
      vault_create-calm argon salt secret name hashed hashes d t valid printer sha256_hex jwt_sign
        url json absent in
    (
      ap (λ x. x.0) made,
      ap (λ x. (auth_verify_body argon jwt_sign admin salt' name secret none x.1).0) made
          ∙ rw
              (
                valid,
                vault_there argon salt secret name hashed hashes d t valid,
                verify_calm argon salt secret name hashed hashes d t valid salt' phc fits,
                signed,
              )
              refl,
    )
