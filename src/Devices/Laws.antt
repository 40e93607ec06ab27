-- ===== src/Devices/Laws.antt =====
-- An invite is redeemed once, for a peer that has no key; and a retired peer gets no token.
use vaultcrdt_server.Base.{
  ltb, if◌then◌else◌, Bool-cases, is_some, ◌==◌, nat_eq, list_eq, option_eq, pair_eq, length,
  is_empty, Text, ℕ, ◌≡◌, refl, ap, subst, ◌≢◌, ◌⊎◌, inl, inr, Bool, true, false, not, Option, none,
  some, arith,
}
use vaultcrdt_server.Table.{find}
use vaultcrdt_server.Table.Laws.{find-put_self, find-remove_self}
use vaultcrdt_server.Errors.{Result, ok}
use vaultcrdt_server.Db.{Db, DeviceKey, Peer}
use vaultcrdt_server.Sql.{Conn, pure, lift, ◌>>=◌}
use vaultcrdt_server.Sql.Triples.{
  Triple, lift-Triple, raise-Triple, pure-Triple, execute-Triple, query-Triple, if-Triple,
  fact-Triple, bind-Triple, transaction-Triple,
}
use vaultcrdt_server.Vaults.{Argon}
use vaultcrdt_server.Handlers.Checks.{max_peer_id_bytes}
use vaultcrdt_server.Devices.{
  live_key_hash, ensure_not_revoked, DeviceReply, granted, authentication_failed, key_fits,
  device_auth, RetireReply, retired, missing_vault_id, missing_device_name, no_such_peer,
  name_differs, revoke_row, retire_found, given, admin_allowed, retire_named, retire_peer_handler,
}

module _ (vault_id peer_id : Text) where
  abbrev pub HasLiveKey : Db → Type 0
  HasLiveKey d = is_some (live_key_hash (find (vault_id, peer_id) d.device_keys)) ≡ true

  -- What a device that got a token has shown: its key was live when the token was signed.
  abbrev Shown : Db → DeviceReply → Db → Type 0
  Shown d0 authentication_failed d = Unit
  Shown d0 (granted token) d = HasLiveKey d0

  module _ (argon : Argon) (sha256_hex : Text → Text) (jwt_sign : Text → Result Text)
      (d0 : Db) where
    signed-Triple :
        (still : Bool)
        → Triple
            (λ d. still ≡ true → HasLiveKey d0)
            (if not still
              then pure authentication_failed
              else (lift (jwt_sign vault_id) >>= λ token. pure (granted token)))
            (Shown d0)
    signed-Triple false = pure-Triple _ _ authentication_failed (λ d p. tt)
    signed-Triple true =
        bind-Triple _ (λ _ _. HasLiveKey d0) (Shown d0) _ _
          (lift-Triple _ _ (jwt_sign vault_id) (λ token d f p. p refl))
          (λ token. pure-Triple _ _ (granted token) (λ d p. p))

    checked-Triple :
        Triple (λ d. d ≡ d0) (ensure_not_revoked vault_id peer_id) (λ b d. b ≡ true → HasLiveKey d0)
    checked-Triple =
        unfold ensure_not_revoked in
        query-Triple _ _ _ (λ t d p h. subst (λ (x : Db). HasLiveKey x) p h)

    device_auth-Triple :
        (device_key : Text)
        → Triple
            (λ d. d ≡ d0)
            (device_auth argon sha256_hex jwt_sign vault_id peer_id device_key)
            (Shown d0)
    unfolding device_auth
    device_auth-Triple device_key =
        if-Triple _ _ (ltb max_peer_id_bytes (length peer_id)) _ _
          (λ long. pure-Triple _ _ authentication_failed (λ d p. tt))
          (λ short.
            bind-Triple _ (λ (hash : Option Text) d. d ≡ d0) (Shown d0) _ _
              (query-Triple _ _ _ (λ t d p. p))
              (λ hash.
                if-Triple _ _ (not (key_fits argon sha256_hex jwt_sign device_key hash)) _ _
                  (λ no. pure-Triple _ _ authentication_failed (λ d p. tt))
                  (λ yes.
                    bind-Triple _ (λ (b : Bool) d. b ≡ true → HasLiveKey d0) (Shown d0) _ _
                      checked-Triple signed-Triple)))

  -- After the retirement the peer is gone, and what key it has is revoked.
  abbrev pub IsRetired : Db → Type 0
  IsRetired d =
      (find (vault_id, peer_id) d.peers ≡ none)
      × (live_key_hash (find (vault_id, peer_id) d.device_keys) ≡ none)

  abbrev After : RetireReply → Db → Type 0
  After missing_vault_id d = Unit
  After missing_device_name d = Unit
  After no_such_peer d = Unit
  After (name_differs stored) d = Unit
  After (retired peer freed) d = IsRetired d

  abbrev Revoked : Db → Type 0
  Revoked d = live_key_hash (find (vault_id, peer_id) d.device_keys) ≡ none

  revoke_row-Revoked :
      (t : ℕ) (d : Db) (row : Option DeviceKey)
      → find (vault_id, peer_id) d.device_keys ≡ row
      → Revoked (revoke_row (vault_id, peer_id) t row d)
  unfolding revoke_row live_key_hash
  revoke_row-Revoked t d none e = ap live_key_hash e
  revoke_row-Revoked t d (some row) e =
      ap live_key_hash
        (find-put_self (vault_id, peer_id) (record row { revoked_at = some t }) d.device_keys)

  retire_found-Triple :
      (device_name : Text) (peer : Option Peer)
      → Triple (λ _. Unit) (retire_found vault_id peer_id device_name peer) After
  unfolding retire_found
  retire_found-Triple device_name none = pure-Triple _ _ no_such_peer (λ d p. tt)
  retire_found-Triple device_name (some peer) =
      if-Triple _ _ (not (peer.device_name == device_name)) _ _
        (λ no. pure-Triple _ _ (name_differs peer) (λ d p. tt))
        (λ yes.
          bind-Triple _ (λ _ _. Unit) After _ _ (fact-Triple _ _ _ (λ d p a d'. tt))
            (λ freed.
              bind-Triple _ (λ _ d. IsRetired d) After _ _
                (transaction-Triple _ _ _ (
                  bind-Triple _ (λ _ d. Revoked d) (λ _ d. IsRetired d) _ _
                    (execute-Triple _ _ _ (λ t d p.
                      revoke_row-Revoked t d (find (vault_id, peer_id) d.device_keys) refl))
                    (λ u.
                      execute-Triple _ _ _
                        (λ t d p. (find-remove_self (vault_id, peer_id) d.peers, p)))))
                (λ u. pure-Triple _ _ (retired peer freed) (λ d p. p))))

  retire_named-Triple :
      (name : Option Text) → Triple (λ _. Unit) (retire_named peer_id (some vault_id) name) After
  unfolding retire_named
  retire_named-Triple none = pure-Triple _ _ missing_device_name (λ d p. tt)
  retire_named-Triple (some device_name) =
      bind-Triple _ (λ _ _. Unit) After _ _ (fact-Triple _ _ _ (λ d p a d'. tt))
        (λ peer. retire_found-Triple device_name peer)

  retire_given-Triple :
      (named : Option Text) (name : Option Text)
      → (named ≡ none) ⊎ (named ≡ some vault_id)
      → Triple (λ _. Unit) (retire_named peer_id named name) After
  retire_given-Triple named name (inl e) =
      rw e (unfold retire_named in pure-Triple _ _ missing_vault_id (λ d p. tt))
  retire_given-Triple named name (inr e) = rw e (retire_named-Triple name)

  given-cases : (given (some vault_id) ≡ none) ⊎ (given (some vault_id) ≡ some vault_id)
  given-cases = elim (Bool-cases (is_empty vault_id)) [ inl e ↦ inl (rw e) | inr e ↦ inr (rw e) ]

  retire-Triple :
      (server_admin_token : Text) (bearer name : Option Text)
      → Triple
          (λ _. Unit)
          (retire_peer_handler server_admin_token bearer peer_id (some vault_id) name)
          After
  unfolding retire_peer_handler
  retire-Triple server_admin_token bearer name =
      if-Triple _ _ (admin_allowed server_admin_token bearer) _ _
        (λ yes. retire_given-Triple (given (some vault_id)) (given name) given-cases)
        (λ no. raise-Triple _ _ _)

  no_live_key :
      (d : Db)
      → IsRetired d
      → is_some (live_key_hash (find (vault_id, peer_id) d.device_keys)) ≢ true
  no_live_key d r h = absurd (ground (arith, r.1))

-- A peer that was retired is gone from the vault, and no key of it gets a token in the state that the
-- retirement leaves, whatever key the device shows.
pub retire_peer_handler-device_auth :
    (argon : Argon) (sha256_hex : Text → Text) (jwt_sign : Text → Result Text)
    (server_admin_token : Text) (bearer name : Option Text)
    (vault_id peer_id device_key token : Text) (peer : Peer) (freed : ℕ) (s s' : Conn)
    → retire_peer_handler server_admin_token bearer peer_id (some vault_id) name s
      ≡ (ok (retired peer freed), s')
    → (find (vault_id, peer_id) s'.db.peers ≡ none)
      × ((device_auth argon sha256_hex jwt_sign vault_id peer_id device_key s').0
          ≢ ok (granted token))
retire_peer_handler-device_auth argon sha256_hex jwt_sign server_admin_token bearer name vault_id
      peer_id device_key token peer freed s s' e =
    let r = retire_peer_handler server_admin_token bearer peer_id (some vault_id) name s in
    let gone : IsRetired vault_id peer_id s'.db =
      subst (λ (x : Result RetireReply × Conn). IsRetired vault_id peer_id x.1.db) e
        ((retire-Triple vault_id peer_id server_admin_token bearer name).holds s tt
          (retired peer freed) (ap (λ x. x.0) e)) in
    (
      gone.0,
      λ f. no_live_key vault_id peer_id s'.db gone (
          (device_auth-Triple vault_id peer_id argon sha256_hex jwt_sign s'.db device_key).holds s'
            refl (granted token) f),
    )
