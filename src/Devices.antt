-- ===== src/Devices.antt =====
-- invites.rs: invites, the keys of devices, and the tokens that they give; and lib.rs, the route that
-- retires a peer. SHA-256, Argon2 and the signer of tokens are parameters; a fresh secret is an
-- argument of the operation that draws it.
pub mod Laws
pub mod Redeem
pub mod Secrets
use vaultcrdt_server.Base.{
  ltb, nat_beq, if◌then◌else◌, tests, is_some, is_none, ◌==◌, nat_eq, list_eq, option_eq, pair_eq,
  length, is_empty, all, Text, ℕ, zero, suc, ◌+◌, ◌*◌, Bool, true, false, not, ◌&&◌, ◌||◌, Option,
  none, some, [], ◌∷◌, arith,
}
use vaultcrdt_server.Table.{Table, find, put, remove, delete_where}
use vaultcrdt_server.Errors.{ServerError, Result}
use vaultcrdt_server.Db.{Db, Key, Invite, DeviceKey, Peer}
use vaultcrdt_server.Sql.{Sql, pure, raise, lift, ◌>>=◌, execute, query, transaction, db_failed}
use vaultcrdt_server.Auth.{constant_time_eq}
use vaultcrdt_server.Handlers.Checks.{max_peer_id_bytes}
use vaultcrdt_server.Retention.{get_peer, count_peer_blocked_tombstones, seconds_per_day}
use vaultcrdt_server.Vaults.{Argon, hash_secret, verify_secret, is_ascii_alphanumeric}

abbrev pub invite_seconds : ℕ
invite_seconds = 15 * 60

unfoldable pub dead_weight : ℕ → ℕ → Invite → Bool
dead_weight now id invite = ltb (invite.created_at + seconds_per_day) now

unfoldable pub insert_invite :
    (vault_id token_hash inviter_peer_id : Text) (device_name : Option Text) → ℕ → Db → ℕ × Db
insert_invite vault_id token_hash inviter_peer_id device_name t d = (
  t + invite_seconds,
  record d { invites = put d.next_invite_id row d.invites; next_invite_id = d.next_invite_id + 1 },
)
  where
    row : Invite
    row = record {
      vault_id = vault_id;
      token_hash = token_hash;
      inviter_peer_id = inviter_peer_id;
      device_name = device_name;
      created_at = t;
      expires_at = t + invite_seconds;
      used_at = none;
    }

-- An invite of the last day with the hash.
unfoldable pub invite_matches : ℕ → Text → Invite → Bool
invite_matches now token_hash invite =
    ltb now (invite.created_at + seconds_per_day) && invite.token_hash == token_hash

unfoldable pub matching : ℕ → Text → Table ℕ Invite → Option (ℕ × Text)
unfolding invite_matches
matching now token_hash [] = none
matching now token_hash ((id, invite) ∷ rest) =
    let later = matching now token_hash rest in
    if invite_matches now token_hash invite then some (id, invite.vault_id) else later

abbrev pub is_invite_byte : ℕ → Bool
is_invite_byte b = is_ascii_alphanumeric b || nat_beq b b'_' || nat_beq b b'-'

pub data RedeemReply : Type 0 where
  invalid_invite : RedeemReply
  peer_id_empty : RedeemReply
  identifier_too_long : RedeemReply
  already_used : RedeemReply
  invite_expired : RedeemReply
  redeemed : (device_key token vault_id : Text) → RedeemReply

unfoldable pub redeem_refused : (invite peer_id device_name : Text) → Option RedeemReply
redeem_refused invite peer_id device_name =
    if not (nat_beq (length invite) 22 && all is_invite_byte invite)
    then some invalid_invite
    else if is_empty peer_id
    then some peer_id_empty
    else if ltb max_peer_id_bytes (length peer_id) || ltb max_peer_id_bytes (length device_name)
    then some identifier_too_long
    else none

-- UPDATE invites SET used_at … WHERE it is not used and not expired, and whether a row was updated
unfoldable pub use_row : ℕ → ℕ → Option Invite → Db → Bool × Db
use_row id t none d = (false, d)
use_row id t (some row) d =
    if is_none row.used_at && ltb t row.expires_at
    then (true, record d { invites = put id (record row { used_at = some t }) d.invites })
    else (false, d)

unfoldable pub use_invite : ℕ → ℕ → Db → Bool × Db
unfolding use_row
use_invite id t d = use_row id t (find id d.invites) d

-- The primary key: a second row of the peer is refused by SQLite.
unfoldable pub insert_device_key :
    (vault_id peer_id key_hash device_name : Text) → ℕ → Db → Bool × Db
insert_device_key vault_id peer_id key_hash device_name t d =
    if is_some (find (vault_id, peer_id) d.device_keys)
    then (false, d)
    else (true, record d { device_keys = put (vault_id, peer_id) row d.device_keys })
  where
    row : DeviceKey
    row = record {
      key_hash = key_hash;
      device_name = some device_name;
      created_at = t;
      revoked_at = none;
    }

unfoldable pub not_usable : Option Invite → Sql RedeemReply
not_usable none = raise db_failed
not_usable (some row) = pure (if is_some row.used_at then already_used else invite_expired)

-- The transaction of `redeem`; where no row was updated, its rollback has nothing to undo.
unfoldable pub redeem_row :
    ℕ → (vault_id peer_id device_name device_key token key_hash : Text) → Sql RedeemReply
unfolding use_invite insert_device_key not_usable
redeem_row id vault_id peer_id device_name device_key token key_hash = transaction (do
  updated ← execute (λ t d. use_invite id t d)
  if not updated then query (λ _ d. find id d.invites) >>= not_usable else do
    inserted ← execute (λ t d. insert_device_key vault_id peer_id key_hash device_name t d)
    if inserted then pure (redeemed device_key token vault_id) else raise db_failed)

unfoldable pub live_key_hash : Option DeviceKey → Option Text
live_key_hash none = none
live_key_hash (some row) = if is_none row.revoked_at then some row.key_hash else none

unfoldable pub ensure_not_revoked : Text → Text → Sql Bool
unfolding live_key_hash
ensure_not_revoked vault_id peer_id =
    query (λ _ d. is_some (live_key_hash (find (vault_id, peer_id) d.device_keys)))

pub data DeviceReply : Type 0 where
  authentication_failed : DeviceReply
  granted : (token : Text) → DeviceReply

module _ (argon : Argon) (sha256_hex : Text → Text) (jwt_sign : Text → Result Text) where
  unfoldable pub mint_invite :
      (invite vault_id inviter : Text) (device_name : Option Text) → Sql (Text × ℕ)
  unfolding insert_invite dead_weight
  mint_invite invite vault_id inviter device_name = do
    _ ← execute (λ t d. (tt {0}, record d { invites = delete_where (dead_weight t) d.invites }))
    expires_at ← execute (λ t d. insert_invite vault_id (sha256_hex invite) inviter device_name t d)
    pure (invite, expires_at)

  unfoldable pub redeem_matched :
      (salt : ℕ) (device_key peer_id device_name : Text) → Option (ℕ × Text) → Sql RedeemReply
  unfolding redeem_row
  redeem_matched salt device_key peer_id device_name none = pure invalid_invite
  redeem_matched salt device_key peer_id device_name (some (id, vault_id)) = do
    hash ← lift (hash_secret argon salt device_key)
    token ← lift (jwt_sign vault_id)
    redeem_row id vault_id peer_id device_name device_key token hash

  unfoldable pub redeem :
      (salt : ℕ) (device_key invite peer_id device_name : Text) → Sql RedeemReply
  unfolding redeem_matched redeem_refused matching
  redeem salt device_key invite peer_id device_name =
      elim (redeem_refused invite peer_id device_name) [
        | some reply ↦ pure reply
        | none ↦
            query (λ t d. matching t (sha256_hex invite) d.invites)
            >>= redeem_matched salt device_key peer_id device_name
      ]

  abbrev pub key_fits : Text → Option Text → Bool
  key_fits device_key none = false
  key_fits device_key (some hash) = verify_secret argon device_key hash

  unfoldable pub device_auth : (vault_id peer_id device_key : Text) → Sql DeviceReply
  unfolding live_key_hash ensure_not_revoked
  device_auth vault_id peer_id device_key =
      if ltb max_peer_id_bytes (length peer_id) then pure authentication_failed else do
        hash ← query (λ _ d. live_key_hash (find (vault_id, peer_id) d.device_keys))
        if not (key_fits device_key hash) then pure authentication_failed else do
          still ← ensure_not_revoked vault_id peer_id
          if not still
              then pure authentication_failed
              else do token ← lift (jwt_sign vault_id); pure (granted token)

-- lib.rs, `retire_peer_handler`
pub data RetireReply : Type 0 where
  missing_vault_id missing_device_name no_such_peer : RetireReply
  name_differs : (stored : Peer) → RetireReply
  retired : (peer : Peer) (possibly_freed : ℕ) → RetireReply

unfoldable pub revoke_row : Key → ℕ → Option DeviceKey → Db → Db
revoke_row k t none d = d
revoke_row k t (some row) d = record d {
  device_keys = put k (record row { revoked_at = some t }) d.device_keys;
}

unfoldable pub retire_found : Text → Text → Text → Option Peer → Sql RetireReply
unfolding revoke_row
retire_found vault_id peer_id device_name none = pure no_such_peer
retire_found vault_id peer_id device_name (some peer) =
    if not (peer.device_name == device_name) then pure (name_differs peer) else do
      possibly_freed ← count_peer_blocked_tombstones vault_id peer.last_seen_at
      _ ← transaction (do
        _ ← execute (λ t d.
            (tt {0}, revoke_row (vault_id, peer_id) t (find (vault_id, peer_id) d.device_keys) d))
        execute (λ _ d. (tt {0}, record d { peers = remove (vault_id, peer_id) d.peers })))
      pure (retired peer possibly_freed)

abbrev pub given : Option Text → Option Text
given none = none
given (some t) = if is_empty t then none else some t

abbrev pub admin_allowed : Text → Option Text → Bool
admin_allowed server_admin_token none = false
admin_allowed server_admin_token (some token) = constant_time_eq token server_admin_token

unfoldable pub retire_named : Text → Option Text → Option Text → Sql RetireReply
unfolding retire_found
retire_named peer_id none name = pure missing_vault_id
retire_named peer_id (some vault_id) none = pure missing_device_name
retire_named peer_id (some vault_id) (some device_name) = do
  peer ← get_peer vault_id peer_id
  retire_found vault_id peer_id device_name peer

-- `bearer` is the token of the `Authorization` header, if it has one.
unfoldable pub retire_peer_handler :
    (server_admin_token : Text) (bearer : Option Text) (peer_id : Text)
    (vault_id device_name : Option Text)
    → Sql RetireReply
unfolding retire_named
retire_peer_handler server_admin_token bearer peer_id vault_id device_name =
    if admin_allowed server_admin_token bearer
    then retire_named peer_id (given vault_id) (given device_name)
    else raise (ServerError.auth "Admin token required")
