-- ===== src/Devices/Redeem.antt =====
-- What a redeemed invite means.
pub mod Row
use vaultcrdt_server.Base.{
  ltb, if◌then◌else◌, Bool-cases, is_some, is_none, eq_iff, eq_refl, nat_eq, list_eq, option_eq,
  pair_eq, Text, ℕ, ◌<◌, ◌≡◌, refl, sym, ap, ◌∙◌, subst, inl, inr, Bool, true, false, not, ◌&&◌,
  Option, none, some, [], ◌∷◌, arith,
}
use vaultcrdt_server.Table.{Table, find}
use vaultcrdt_server.Table.Laws.{find-put_self, HasKeys}
use vaultcrdt_server.Errors.{Result, ok}
use vaultcrdt_server.Db.{Db, Key, Invite, DeviceKey}
use vaultcrdt_server.Sql.{Conn, Sql, pure, raise, ◌>>=◌, execute, query}
use vaultcrdt_server.Sql.Triples.{
  Triple, lift-Triple, raise-Triple, pure-Triple, execute-Triple, query-Triple, if-Triple,
  fact-Triple, bind-Triple, transaction-Triple,
}
use vaultcrdt_server.Vaults.{Argon, hash_secret}
use vaultcrdt_server.Devices.{
  RedeemReply, invalid_invite, peer_id_empty, identifier_too_long, already_used, invite_expired,
  redeemed, redeem_refused, use_row, use_invite, insert_device_key, not_usable, redeem_row,
  redeem_matched, redeem, matching, invite_matches,
}
use Row.{Matches, matching-Matches, Redeemed, Answered, redeem_row-Triple}

-- The answer to `redeem`: an answer that hands out a key names an invite with the hash of what the
-- client sent.
module _ (argon : Argon) (sha256_hex : Text → Text) (jwt_sign : Text → Result Text) (salt : ℕ)
    (device_key invite peer_id device_name : Text) (d0 : Db) (keys : HasKeys d0.invites) where
  abbrev pub Outcome : RedeemReply → Db → Type 0
  Outcome invalid_invite d = Unit
  Outcome peer_id_empty d = Unit
  Outcome identifier_too_long d = Unit
  Outcome already_used d = Unit
  Outcome invite_expired d = Unit
  Outcome (redeemed k token vault_id) d =
      (id : ℕ) × Redeemed peer_id device_name k token d0 vault_id id d
      × ((row : Invite) × (find id d0.invites ≡ some row)
          × (row.vault_id ≡ vault_id)
          × (row.token_hash ≡ sha256_hex invite))

  abbrev Looked : Option (ℕ × Text) → Db → Type 0
  Looked m d = (d ≡ d0) × ((t : ℕ) × (matching t (sha256_hex invite) d0.invites ≡ m))

  answered :
      (id : ℕ) (vault_id token : Text) (t : ℕ)
      → matching t (sha256_hex invite) d0.invites ≡ some (id, vault_id)
      → (r : RedeemReply) (d : Db)
      → Answered peer_id device_name device_key token d0 vault_id id r d
      → Outcome r d
  answered id vault_id token t e invalid_invite d a = tt
  answered id vault_id token t e peer_id_empty d a = tt
  answered id vault_id token t e identifier_too_long d a = tt
  answered id vault_id token t e already_used d a = tt
  answered id vault_id token t e invite_expired d a = tt
  answered id vault_id token t e (redeemed k tok v) d (same, done) =
      let (row, f, owner, hash) =
        matching-Matches t (sha256_hex invite) d0.invites (id, vault_id) keys e in
      (
        id,
        subst (λ w. Redeemed peer_id device_name k tok d0 w id d) (sym same) done,
        (row, f, owner ∙ sym same, hash),
      )

  redeem_matched-Triple :
      (m : Option (ℕ × Text))
      → Triple
          (Looked m)
          (redeem_matched argon sha256_hex jwt_sign salt device_key peer_id device_name m)
          Outcome
  unfolding redeem_matched
  redeem_matched-Triple none = pure-Triple _ _ invalid_invite (λ d p. tt)
  redeem_matched-Triple (some (id, vault_id)) =
      bind-Triple _ (λ (hash : Text) d. Looked (some (id, vault_id)) d) _ _ _
        (lift-Triple _ _ (hash_secret argon salt device_key) (λ hash d e p. p))
        (λ hash.
          bind-Triple _ (λ (token : Text) d. Looked (some (id, vault_id)) d) _ _ _
            (lift-Triple _ _ (jwt_sign vault_id) (λ token d e p. p))
            (λ token. record {
              holds = λ s p r e. answered id vault_id token p.1.0 p.1.1 r _ (
                  (redeem_row-Triple peer_id device_name device_key token d0 vault_id id hash).holds
                    s p.0 r e);
            }))

  refusal :
      (reply : RedeemReply)
      → redeem_refused invite peer_id device_name ≡ some reply
      → (d : Db) → Outcome reply d
  unfolding redeem_refused
  refusal invalid_invite e d = tt
  refusal peer_id_empty e d = tt
  refusal identifier_too_long e d = tt
  refusal already_used e d = tt
  refusal invite_expired e d = tt
  refusal (redeemed k tok v) e d = absurd (ground (arith, e))

  redeem-Triple :
      Triple
        (λ d. d ≡ d0)
        (redeem argon sha256_hex jwt_sign salt device_key invite peer_id device_name)
        Outcome
  unfolding redeem
  redeem-Triple = decided (redeem_refused invite peer_id device_name) refl
    where
      decided :
          (r : Option RedeemReply)
          → redeem_refused invite peer_id device_name ≡ r
          → Triple
              (λ d. d ≡ d0)
              (elim r [
                | some reply ↦ pure reply
                | none ↦
                    query (λ t d. matching t (sha256_hex invite) d.invites)
                    >>= redeem_matched argon sha256_hex jwt_sign salt device_key peer_id device_name
              ])
              Outcome
      decided none e =
          bind-Triple _ Looked _ _ _
            (query-Triple _ _ _ (λ t d p.
              (p, (t, ap (λ (x : Db). matching t (sha256_hex invite) x.invites) (sym p)))))
            redeem_matched-Triple
      decided (some reply) e = pure-Triple _ _ reply (λ d p. refusal reply e d)

-- An invite is redeemed once: where a client gets a key, an invite of the vault with the hash of what
-- it sent was there, unused and not expired, and is used now, and the peer had no key in the vault
-- before, revoked or not. The ids of the invites are unique.
pub redeem_lem :
    (argon : Argon) (sha256_hex : Text → Text) (jwt_sign : Text → Result Text) (salt : ℕ)
    (device_key invite peer_id device_name k token vault_id : Text) (s s' : Conn)
    → HasKeys s.db.invites
    → redeem argon sha256_hex jwt_sign salt device_key invite peer_id device_name s
      ≡ (ok (redeemed k token vault_id), s')
    → (id : ℕ) × Redeemed peer_id device_name k token s.db vault_id id s'.db
      × ((row : Invite) × (find id s.db.invites ≡ some row)
          × (row.vault_id ≡ vault_id)
          × (row.token_hash ≡ sha256_hex invite))
redeem_lem argon sha256_hex jwt_sign salt device_key invite peer_id device_name k token vault_id s
      s' keys e =
    subst
      (λ (x : Result RedeemReply × Conn).
        Outcome argon sha256_hex jwt_sign salt device_key invite peer_id device_name s.db keys
          (redeemed k token vault_id) x.1.db)
      e
      ((redeem-Triple argon sha256_hex jwt_sign salt device_key invite peer_id device_name s.db
          keys).holds
        s refl (redeemed k token vault_id) (ap (λ x. x.0) e))
