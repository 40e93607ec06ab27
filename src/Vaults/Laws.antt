-- ===== src/Vaults/Laws.antt =====
-- Who gets a token.
use vaultcrdt_server.Base.{
  if◌then◌else◌, is_some, unwrap_or, nat_eq, list_eq, option_eq, pair_eq, Text, ℕ, ◌≡◌, refl, sym,
  ap, subst, ◌⊎◌, inl, inr, Bool, true, false, not, Option, none, some, [], arith,
}
use vaultcrdt_server.Table.{find}
use vaultcrdt_server.Errors.{Result, ok}
use vaultcrdt_server.Db.{Db, Vault}
use vaultcrdt_server.Sql.{Conn}
use vaultcrdt_server.Sql.Triples.{
  Triple, lift-Triple, raise-Triple, pure-Triple, weaken-Triple, query-Triple, if-Triple,
  fact-Triple, bind-Triple,
}
use vaultcrdt_server.Auth.{constant_time_eq}
use vaultcrdt_server.Auth.Compare.{constant_time_eq_lem}
use vaultcrdt_server.Vaults.{
  Argon, valid_vault_id, vault_exists, stored_key, verify_secret, verify_stored, verify_vault,
  register, log_in, auth_verify_body,
}

module _ (argon : Argon) (jwt_sign : Text → Result Text) (server_admin_token : Text) (salt : ℕ)
    (vault_id api_key : Text) (admin_token : Option Text) (d0 : Db) where
  -- The vault was there and the key fits what was stored of it; or it was not there and the client
  -- has the admin token.
  abbrev pub Authorised : Type 0
  Authorised =
      ((row : Vault) × (find vault_id d0.vaults ≡ some row)
        × (verify_secret argon api_key row.api_key ≡ true))
      ⊎ ((find vault_id d0.vaults ≡ none) × (unwrap_or admin_token [] ≡ server_admin_token))

  abbrev Same : Db → Type 0
  Same d = d ≡ d0

  abbrev Fine : Bool → Db → Type 0
  Fine b d = b ≡ true → Authorised

  abbrev Stored : Option Text → Db → Type 0
  Stored stored d = stored_key (find vault_id d0.vaults) ≡ stored

  row_of_key :
      (row : Option Vault) (stored : Text)
      → find vault_id d0.vaults ≡ row
      → stored_key row ≡ some stored
      → verify_secret argon api_key stored ≡ true
      → Authorised
  row_of_key none stored e h v = absurd (cc h)
  row_of_key (some row) stored e h v =
      inl (row, e, subst (λ k. verify_secret argon api_key k ≡ true) (sym (cc h)) v)

  verify_stored-Triple :
      (stored : Option Text)
      → Triple (Stored stored) (verify_stored argon salt vault_id api_key stored) Fine
  unfolding verify_stored
  verify_stored-Triple none = pure-Triple _ _ false (λ d p h. absurd (cc h))
  verify_stored-Triple (some stored) =
      if-Triple _ _ (not (verify_secret argon api_key stored)) _ _
        (λ no. pure-Triple _ _ false (λ d p h. absurd (cc h)))
        (λ yes.
          fact-Triple _ _ _
            (λ d p a d' h. row_of_key (find vault_id d0.vaults) stored refl p (ground arith)))

  verify_vault-Triple : Triple Same (verify_vault argon salt vault_id api_key) Fine
  unfolding verify_vault
  verify_vault-Triple =
      bind-Triple Same Stored Fine _ _
        (query-Triple _ _ _ (λ t d p. ap (λ (x : Db). stored_key (find vault_id x.vaults)) (sym p)))
        verify_stored-Triple

  abbrev Known : {A : Type 0} → A → Db → Type 0
  Known a d = Authorised

  log_in-Triple : Triple Same (log_in argon jwt_sign server_admin_token salt vault_id api_key) Known
  unfolding log_in
  log_in-Triple = bind-Triple Same Fine Known _ _ verify_vault-Triple (λ fine.
      if-Triple _ _ fine _ _ (λ yes. pure-Triple _ _ tt (λ d p. p yes)) (λ no. raise-Triple _ _ _))

  -- What the first query has told.
  abbrev Seen : Bool → Db → Type 0
  Seen exists d = (d ≡ d0) × (is_some (find vault_id d0.vaults) ≡ exists)

  register-Triple :
      Triple
        (Seen false)
        (register argon jwt_sign server_admin_token salt vault_id api_key admin_token)
        Known
  unfolding register
  register-Triple =
      if-Triple _ _ (not (constant_time_eq (unwrap_or admin_token []) server_admin_token)) _ _
        (λ no. raise-Triple _ _ _)
        (λ yes. fact-Triple _ _ _ (λ d p a d'. inr (
          ground (arith, p.1),
          (constant_time_eq_lem (unwrap_or admin_token []) server_admin_token).0 (ground arith),
        )))

  either-Triple :
      (exists : Bool)
      → Triple
          (Seen exists)
          (if exists
            then log_in argon jwt_sign server_admin_token salt vault_id api_key
            else register argon jwt_sign server_admin_token salt vault_id api_key admin_token)
          Known
  either-Triple true = weaken-Triple Same Known _ _ (λ d p. p.0) log_in-Triple
  either-Triple false = register-Triple

  abbrev Granted : Text × Text → Db → Type 0
  Granted r d = (r.1 ≡ vault_id) × (valid_vault_id vault_id ≡ true) × Authorised

  Granted-Triple :
      Triple Same
        (auth_verify_body argon jwt_sign server_admin_token salt vault_id api_key admin_token)
        Granted
  unfolding auth_verify_body
  Granted-Triple =
      if-Triple _ _ (not (valid_vault_id vault_id)) _ _ (λ no. raise-Triple _ _ _)
        (λ yes. bind-Triple Same Seen Granted _ _ seen (λ exists.
          bind-Triple (Seen exists) Known Granted _ _ (either-Triple exists) (λ u.
            bind-Triple _ (λ _ d. Authorised) Granted _ _
              (lift-Triple _ _ (jwt_sign vault_id) (λ token d e p. p))
              (λ token. pure-Triple _ _ (token, vault_id) (λ d p. (refl, ground arith, p))))))
    where
      seen : Triple Same (vault_exists vault_id) Seen
      seen =
          unfold vault_exists in
          query-Triple Same Seen _
            (λ t d p. (p, ap (λ (x : Db). is_some (find vault_id x.vaults)) (sym p)))

-- A client gets a token only for the vault that it names, whose name has to be allowed; and only where
-- the vault was there and the key fits what was stored of it, or it was not there and the client has
-- the admin token. No statement that fails can change this.
pub auth_verify_body_lem :
    (argon : Argon) (jwt_sign : Text → Result Text) (server_admin_token : Text) (salt : ℕ)
    (vault_id api_key : Text) (admin_token : Option Text) (s : Conn) (token named : Text)
    → (auth_verify_body argon jwt_sign server_admin_token salt vault_id api_key admin_token s).0
      ≡ ok (token, named)
    → (named ≡ vault_id)
      × (valid_vault_id vault_id ≡ true)
      × Authorised argon jwt_sign server_admin_token salt vault_id api_key admin_token s.db
auth_verify_body_lem argon jwt_sign server_admin_token salt vault_id api_key admin_token s token
      named e =
    (Granted-Triple argon jwt_sign server_admin_token salt vault_id api_key admin_token s.db).holds
      s refl (token, named) e
