-- ===== src/Vaults.antt =====
-- db.rs, the vaults and their keys, and lib.rs, the route that a client gets its token from. Argon2 is
-- a library: hashing may fail and takes a fresh salt, which the caller of the model hands on.
pub mod Laws
use vaultcrdt_server.Base.{
  leb, nat_beq, if◌then◌else◌, tests, is_some, unwrap_or, ◌==◌, nat_eq, list_eq, option_eq, pair_eq,
  length, is_empty, all, Text, codes, ℕ, zero, suc, Bool, true, false, not, ◌&&◌, ◌||◌, Option,
  none, some, List, [], ◌∷◌, arith,
}
use vaultcrdt_server.Base.Int.{ℤ}
use vaultcrdt_server.Base.Strings.{starts_with}
use vaultcrdt_server.Base.Sorting.{sort_by}
use vaultcrdt_server.Table.{find, put, select_where}
use vaultcrdt_server.Errors.{ServerError, Result, or_fail}
use vaultcrdt_server.Db.{Db, Vault}
use vaultcrdt_server.Sql.{Sql, pure, raise, lift, ◌>>=◌, execute, query}
use vaultcrdt_server.Auth.{constant_time_eq}

-- `hash_password` with its salt, and `verify_password` of a PHC string that parses.
pub record Argon : Type 0 where
  pub hash_password : (salt : ℕ) (plaintext : Text) → Option Text
  pub verify_password : (plaintext stored : Text) → Bool

abbrev pub argon_prefix : Text
argon_prefix = codes "$argon2"

abbrev pub is_vault_byte : ℕ → Bool
is_vault_byte b =
    leb b'a' b && leb b b'z' || leb b'0' b && leb b b'9' || nat_beq b b'-' || nat_beq b b'_'

abbrev pub is_ascii_alphanumeric : ℕ → Bool
is_ascii_alphanumeric b =
    leb b'a' b && leb b b'z' || leb b'A' b && leb b b'Z' || leb b'0' b && leb b b'9'

abbrev pub first_is_alphanumeric : Text → Bool
first_is_alphanumeric [] = false
first_is_alphanumeric (b ∷ bs) = is_ascii_alphanumeric b

unfoldable pub valid_vault_id : Text → Bool
valid_vault_id vault_id =
    not (is_empty vault_id)
    && leb (length vault_id) 64
    && all is_vault_byte vault_id
    && first_is_alphanumeric vault_id

unfoldable pub vault_exists : Text → Sql Bool
vault_exists vault_id = query (λ _ d. is_some (find vault_id d.vaults))

-- INSERT OR IGNORE, and whether a row was inserted
unfoldable pub insert_vault : Text → Text → ℕ → Db → Bool × Db
insert_vault vault_id hashed t d =
    if is_some (find vault_id d.vaults)
    then (false, d)
    else (true, record d { vaults = put vault_id row d.vaults })
  where
    row : Vault
    row = record { api_key = hashed; created_at = t; quota_bytes = none }

abbrev pub update_vault : (Vault → Vault) → Text → Option Vault → Db → Bool × Db
update_vault f vault_id none d = (false, d)
update_vault f vault_id (some row) d = (true, record d { vaults = put vault_id (f row) d.vaults })

unfoldable pub set_vault_quota : Text → Option ℤ → Sql Bool
set_vault_quota vault_id quota_bytes = execute (λ _ d.
    update_vault (λ row. record row { quota_bytes = quota_bytes }) vault_id (find vault_id d.vaults)
      d)

unfoldable pub stored_quota : Option Vault → Option (Option ℤ)
stored_quota none = none
stored_quota (some row) = some row.quota_bytes

unfoldable pub get_vault_quota : Text → Sql (Option (Option ℤ))
unfolding stored_quota
get_vault_quota vault_id = query (λ _ d. stored_quota (find vault_id d.vaults))

-- The name, the time of creation and the quota of each vault, in the order of the names.
unfoldable pub list_vaults : Sql (List (Text × ℕ × Option ℤ))
list_vaults = query (λ _ d.
    sort_by (λ (r : Text × ℕ × Option ℤ). r.0)
      (select_where (λ _ _. true) (λ name v. (name, v.created_at, v.quota_bytes)) d.vaults))

abbrev pub stored_key : Option Vault → Option Text
stored_key none = none
stored_key (some row) = some row.api_key

unfoldable pub write_key : Text → Text → Db → Bool × Db
write_key vault_id hashed d =
    update_vault (λ row. record row { api_key = hashed }) vault_id (find vault_id d.vaults) d

module _ (argon : Argon) where
  unfoldable pub hash_secret : ℕ → Text → Result Text
  hash_secret salt plaintext =
      or_fail (argon.hash_password salt plaintext) (ServerError.auth "hash error")

  unfoldable pub verify_secret : Text → Text → Bool
  verify_secret plaintext stored =
      if starts_with argon_prefix stored
      then argon.verify_password plaintext stored
      else stored == plaintext

  unfoldable pub create_vault : ℕ → Text → Text → Sql Bool
  unfolding hash_secret insert_vault
  create_vault salt vault_id api_key = do
    hashed ← lift (hash_secret salt api_key)
    execute (λ t d. insert_vault vault_id hashed t d)

  -- A key that is stored as it is, from an earlier version, is replaced by its hash.
  unfoldable pub migrate_key : ℕ → Text → Text → Text → Sql Bool
  unfolding hash_secret write_key
  migrate_key salt vault_id api_key stored =
      if starts_with argon_prefix stored then pure true else do
        hashed ← lift (hash_secret salt api_key)
        _ ← execute (λ _ d. write_key vault_id hashed d)
        pure true

  unfoldable pub verify_stored : ℕ → Text → Text → Option Text → Sql Bool
  unfolding verify_secret migrate_key
  verify_stored salt vault_id api_key none = pure false
  verify_stored salt vault_id api_key (some stored) =
      if not (verify_secret api_key stored)
      then pure false
      else migrate_key salt vault_id api_key stored

  unfoldable pub verify_vault : ℕ → Text → Text → Sql Bool
  unfolding verify_stored
  verify_vault salt vault_id api_key = do
    stored ← query (λ _ d. stored_key (find vault_id d.vaults))
    verify_stored salt vault_id api_key stored

  abbrev pub authentication_failed : ServerError
  authentication_failed = ServerError.auth "Authentication failed"

  -- The body of a request to `/auth/verify`, and the signer of tokens.
  module _ (jwt_sign : Text → Result Text) (server_admin_token : Text) where
    unfoldable pub register : ℕ → Text → Text → Option Text → Sql (Unit {0})
    unfolding create_vault verify_vault
    register salt vault_id api_key admin_token =
        if not (constant_time_eq (unwrap_or admin_token []) server_admin_token)
        then raise authentication_failed
        else do
          created ← create_vault salt vault_id api_key
          if created then pure tt else do
            fine ← verify_vault salt vault_id api_key
            if fine then pure tt else raise authentication_failed

    unfoldable pub log_in : ℕ → Text → Text → Sql (Unit {0})
    unfolding verify_vault
    log_in salt vault_id api_key = do
      fine ← verify_vault salt vault_id api_key
      if fine then pure tt else raise authentication_failed

    unfoldable pub auth_verify_body : ℕ → Text → Text → Option Text → Sql (Text × Text)
    unfolding valid_vault_id vault_exists register log_in
    auth_verify_body salt vault_id api_key admin_token =
        if not (valid_vault_id vault_id) then raise (ServerError.auth "Invalid vault name") else do
          exists ← vault_exists vault_id
          _ ←
              (if exists
                then log_in salt vault_id api_key
                else register salt vault_id api_key admin_token)
          token ← lift (jwt_sign vault_id)
          pure (token, vault_id)
