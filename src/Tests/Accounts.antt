-- ===== src/Tests/Accounts.antt =====
-- Instances of the theorems on vaults and devices, with a hash that puts a prefix before the secret.
use vaultcrdt_server.Base.{
  tests, ◌==◌, nat_eq, list_eq, option_eq, pair_eq, all, any, Text, codes, ℕ, zero, suc, ◌≡◌, refl,
  ◌≢◌, true, Option, none, some, [], ◌∷◌, ◌++◌, arith,
}
use vaultcrdt_server.Base.Strings.{strip_prefix}
use vaultcrdt_server.Table.{find}
use vaultcrdt_server.Errors.{Result, ok}
use vaultcrdt_server.Db.{Peer, DeviceKey, Invite, empty_db}
use vaultcrdt_server.Sql.{Conn}
use vaultcrdt_server.Vaults.{Argon, argon_prefix, valid_vault_id, auth_verify_body}
use vaultcrdt_server.Vaults.Laws.{Authorised, auth_verify_body_lem}
use vaultcrdt_server.Table.Laws.{HasKeys}
use vaultcrdt_server.Devices.Redeem.{redeem_lem}
use vaultcrdt_server.Devices.Redeem.Row.{Redeemed}
use vaultcrdt_server.Devices.{redeem, redeemed, device_auth, granted, retired, retire_peer_handler}
use vaultcrdt_server.Devices.Laws.{retire_peer_handler-device_auth}

abbrev plain_argon : Argon
plain_argon = record {
  hash_password = λ salt plaintext. some (argon_prefix ++ plaintext);
  verify_password = λ plaintext stored. stored == argon_prefix ++ plaintext;
}

abbrev sign : Text → Result Text
sign vault_id = ok vault_id

abbrev same_text : Text → Text
same_text t = t

abbrev admin : Text
admin = codes "root"

abbrev fresh : Conn
fresh = record { db = empty_db; now = 5; outcomes = [] }

-- A new vault, with the admin token.
registered :
    (auth_verify_body plain_argon sign admin 0 (codes "v1") (codes "key") (some admin) fresh).0
    ≡ ok (codes "v1", codes "v1")
unfolding vaultcrdt_server.Vaults.auth_verify_body vaultcrdt_server.Sql.pure
    vaultcrdt_server.Sql.lift vaultcrdt_server.Sql.◌>>=◌ vaultcrdt_server.Sql.query
    vaultcrdt_server.Auth.constant_time_eq vaultcrdt_server.Table.find vaultcrdt_server.Base.all
registered = refl

auth_verify_body_lem_example :
    (codes "v1" ≡ codes "v1")
    × (valid_vault_id (codes "v1") ≡ true)
    × Authorised plain_argon sign admin 0 (codes "v1") (codes "key") (some admin) empty_db
auth_verify_body_lem_example =
    auth_verify_body_lem plain_argon sign admin 0 (codes "v1") (codes "key") (some admin) fresh
      (codes "v1") (codes "v1") registered

abbrev laptop : Peer
laptop = record { device_name = codes "laptop"; last_seen_at = 3 }

abbrev key_row : Option ℕ → DeviceKey
key_row revoked = record {
  key_hash = argon_prefix ++ codes "secret";
  device_name = some (codes "laptop");
  created_at = 1;
  revoked_at = revoked;
}

abbrev owned : Conn
owned = record fresh {
  db = record empty_db {
    peers = ((codes "v1", codes "p1"), laptop) ∷ [];
    device_keys = ((codes "v1", codes "p1"), key_row none) ∷ [];
  };
}

abbrev left : Conn
left = record fresh {
  db = record empty_db {
    peers = [];
    device_keys = ((codes "v1", codes "p1"), key_row (some 5)) ∷ [];
  };
}

laptop_retired :
    retire_peer_handler admin
      (some admin)
      (codes "p1")
      (some (codes "v1"))
      (some (codes "laptop"))
      owned
    ≡ (ok (retired laptop 0), left)
unfolding vaultcrdt_server.Devices.retire_peer_handler vaultcrdt_server.Sql.pure
    vaultcrdt_server.Sql.◌>>=◌ vaultcrdt_server.Sql.query vaultcrdt_server.Sql.transaction
    vaultcrdt_server.Auth.constant_time_eq vaultcrdt_server.Table.find vaultcrdt_server.Table.put
    vaultcrdt_server.Table.remove vaultcrdt_server.Table.count_where
    vaultcrdt_server.Retention.get_peer vaultcrdt_server.Retention.count_peer_blocked_tombstones
    vaultcrdt_server.Base.list_beq vaultcrdt_server.Base.pair_beq
laptop_retired = refl

-- Before that the device gets its token.
device_granted :
    (device_auth plain_argon same_text sign (codes "v1") (codes "p1") (codes "secret") owned).0
    ≡ ok (granted (codes "v1"))
unfolding vaultcrdt_server.Devices.device_auth vaultcrdt_server.Vaults.auth_verify_body
    vaultcrdt_server.Sql.pure vaultcrdt_server.Sql.lift vaultcrdt_server.Sql.◌>>=◌
    vaultcrdt_server.Sql.query vaultcrdt_server.Table.find vaultcrdt_server.Base.list_beq
    vaultcrdt_server.Base.pair_beq vaultcrdt_server.Base.Strings.strip_prefix
device_granted = refl

retire_peer_handler-device_auth_example :
    (find (codes "v1", codes "p1") left.db.peers ≡ none)
    × ((device_auth plain_argon same_text sign (codes "v1") (codes "p1") (codes "secret") left).0
        ≢ ok (granted (codes "v1")))
retire_peer_handler-device_auth_example =
    retire_peer_handler-device_auth plain_argon same_text sign admin (some admin)
      (some (codes "laptop")) (codes "v1") (codes "p1") (codes "secret") (codes "v1") laptop 0 owned
      left laptop_retired

abbrev code : Text
code = codes "ABCDEFGHIJKLMNOPQRSTUV"

abbrev invite_row : Option ℕ → Invite
invite_row used = record {
  vault_id = codes "v1";
  token_hash = code;
  inviter_peer_id = codes "p1";
  device_name = none;
  created_at = 4;
  expires_at = 904;
  used_at = used;
}

abbrev invited : Conn
invited = record fresh { db = record empty_db { invites = (1, invite_row none) ∷ [] } }

abbrev joined : Conn
joined = record fresh {
  db = record empty_db {
    invites = (1, invite_row (some 5)) ∷ [];
    device_keys =
        (
          (codes "v1", codes "p2"),
          record {
            key_hash = argon_prefix ++ codes "secret";
            device_name = some (codes "phone");
            created_at = 5;
            revoked_at = none;
          },
        )
        ∷ [];
  };
}

phone_joins :
    redeem plain_argon same_text sign 0 (codes "secret") code (codes "p2") (codes "phone") invited
    ≡ (ok (redeemed (codes "secret") (codes "v1") (codes "v1")), joined)
unfolding vaultcrdt_server.Devices.redeem vaultcrdt_server.Vaults.auth_verify_body
    vaultcrdt_server.Sql.pure vaultcrdt_server.Sql.lift vaultcrdt_server.Sql.◌>>=◌
    vaultcrdt_server.Sql.query vaultcrdt_server.Sql.transaction vaultcrdt_server.Table.find
    vaultcrdt_server.Table.put vaultcrdt_server.Base.all vaultcrdt_server.Base.list_beq
phone_joins = refl

one_invite : HasKeys invited.db.invites
unfolding find
one_invite = (refl, tt)

redeem_lem_example :
    (id : ℕ) × Redeemed
      (codes "p2")
      (codes "phone")
      (codes "secret")
      (codes "v1")
      invited.db
      (codes "v1")
      id
      joined.db
    × ((row : Invite) × (find id invited.db.invites ≡ some row)
        × (row.vault_id ≡ codes "v1")
        × (row.token_hash ≡ same_text code))
redeem_lem_example =
    redeem_lem plain_argon same_text sign 0 (codes "secret") code (codes "p2") (codes "phone")
      (codes "secret") (codes "v1") (codes "v1") invited joined one_invite phone_joins
