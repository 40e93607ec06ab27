-- ===== src/Devices/Redeem/Row.antt =====
-- The transaction that redeems an invite.
use vaultcrdt_server.Base.{
  ltb, if◌then◌else◌, Bool-cases, is_some, is_none, eq_iff, eq_refl, nat_eq, list_eq, option_eq,
  pair_eq, Text, ℕ, ◌<◌, ◌≡◌, refl, sym, ap, subst, inl, inr, Bool, true, false, not, ◌&&◌, Option,
  none, some, [], ◌∷◌, arith,
}
use vaultcrdt_server.Table.{Table, find}
use vaultcrdt_server.Table.Laws.{find-put_self, HasKeys}
use vaultcrdt_server.Db.{Db, Key, Invite, DeviceKey}
use vaultcrdt_server.Sql.{Conn, Sql, pure, raise, ◌>>=◌, execute, query}
use vaultcrdt_server.Sql.Triples.{
  Triple, raise-Triple, pure-Triple, execute-Triple, if-Triple, fact-Triple, bind-Triple,
  transaction-Triple,
}
use vaultcrdt_server.Devices.{
  RedeemReply, invalid_invite, peer_id_empty, identifier_too_long, already_used, invite_expired,
  redeemed, use_row, use_invite, insert_device_key, not_usable, redeem_row, matching,
  invite_matches,
}

-- A match in the table is the row that its id finds, where ids are unique.
abbrev pub Matches : ℕ → Text → Table ℕ Invite → ℕ × Text → Type 0
Matches now hash t m =
    (invite : Invite) × (find m.0 t ≡ some invite)
    × (invite.vault_id ≡ m.1)
    × (invite.token_hash ≡ hash)

pub matching-Matches :
    (now : ℕ) (hash : Text) (t : Table ℕ Invite) (m : ℕ × Text)
    → HasKeys t
    → matching now hash t ≡ some m
    → Matches now hash t m
unfolding matching invite_matches find
matching-Matches now hash [] m keys e = absurd (cc e)
matching-Matches now hash ((id, invite) ∷ rest) m keys e =
    elim (Bool-cases (invite_matches now hash invite)) [
      | inl here ↦ (
        invite,
        ground (arith, eq_refl id),
        ground arith,
        ground (arith, eq_iff invite.token_hash hash),
      )
      | inr on ↦
          let (other, f, v, h) = matching-Matches now hash rest m keys.1 (ground arith) in
          (other, ground (arith, eq_iff id m.0, keys.0), v, h)
    ]

module _ (peer_id device_name device_key token : Text) (d0 : Db) where
  -- The invite was there, unused and not expired, and is used now; the peer had no key in the vault and
  -- has one now.
  abbrev pub Redeemed : Text → ℕ → Db → Type 0
  Redeemed vault_id id d =
      (invite : Invite) × (t : ℕ) × (find id d0.invites ≡ some invite)
      × (invite.used_at ≡ none)
      × (t < invite.expires_at)
      × (find id d.invites ≡ some (record invite { used_at = some t }))
      × (find (vault_id, peer_id) d0.device_keys ≡ none)
      × (is_some (find (vault_id, peer_id) d.device_keys) ≡ true)

  abbrev Used : ℕ → Db → Type 0
  Used id d =
      (invite : Invite) × (t : ℕ) × (find id d0.invites ≡ some invite)
      × (invite.used_at ≡ none)
      × (t < invite.expires_at)
      × (find id d.invites ≡ some (record invite { used_at = some t }))
      × (d.device_keys ≡ d0.device_keys)

  -- What the answer says of the state.
  abbrev pub Answered : Text → ℕ → RedeemReply → Db → Type 0
  Answered vault_id id invalid_invite d = Unit
  Answered vault_id id peer_id_empty d = Unit
  Answered vault_id id identifier_too_long d = Unit
  Answered vault_id id already_used d = Unit
  Answered vault_id id invite_expired d = Unit
  Answered vault_id id (redeemed k tok v) d = (v ≡ vault_id) × Redeemed vault_id id d

  use_row-Used :
      (id t : ℕ) (row : Option Invite)
      → find id d0.invites ≡ row
      → (use_row id t row d0).0 ≡ true
      → Used id (use_row id t row d0).1
  unfolding use_row
  use_row-Used id t none f h = absurd (cc h)
  use_row-Used id t (some invite) f h =
      elim (Bool-cases (is_none invite.used_at && ltb t invite.expires_at)) [
        | inl usable ↦ rw usable (
          invite,
          t,
          f,
          ground arith,
          ground arith,
          find-put_self id (record invite { used_at = some t }) d0.invites,
          refl,
        )
        | inr not_now ↦ absurd (ground (arith, h))
      ]

  module _ (vault_id : Text) (id : ℕ) where
    not_usable-Triple :
        (row : Option Invite) → Triple (λ _. Unit {0}) (not_usable row) (Answered vault_id id)
    unfolding not_usable
    not_usable-Triple none = raise-Triple _ _ _
    not_usable-Triple (some row) = elim (Bool-cases (is_some row.used_at)) [
      | inl used ↦ rw used (pure-Triple _ _ already_used (λ d p. tt))
      | inr unused ↦ rw unused (pure-Triple _ _ invite_expired (λ d p. tt))
    ]

    inserted_key :
        (t : ℕ) (d : Db) (hash : Text)
        → Used id d
        → (insert_device_key vault_id peer_id hash device_name t d).0 ≡ true
        → Redeemed vault_id id (insert_device_key vault_id peer_id hash device_name t d).1
    unfolding insert_device_key
    inserted_key t d hash (invite, at, f, unused, in_time, used, same) h =
        elim (Bool-cases (is_some (find (vault_id, peer_id) d.device_keys))) [
          | inl taken ↦ absurd (ground (arith, h))
          | inr free ↦ rw free (
            invite,
            at,
            f,
            unused,
            in_time,
            used,
            subst (λ (x : Table Key DeviceKey). find (vault_id, peer_id) x ≡ none) same
                (ground arith),
            ap is_some (find-put_self (vault_id, peer_id) _ d.device_keys),
          )
        ]

    pub redeem_row-Triple :
        (hash : Text)
        → Triple
            (λ d. d ≡ d0)
            (redeem_row id vault_id peer_id device_name device_key token hash)
            (Answered vault_id id)
    unfolding redeem_row use_invite
    redeem_row-Triple hash = transaction-Triple _ _ _ (
        bind-Triple _ (λ (b : Bool) d. b ≡ true → Used id d) _ _ _
          (execute-Triple _ _ _ (λ t d p.
            subst
              (λ (x : Db).
                (use_row id t (find id x.invites) x).0 ≡ true
                → Used id (use_row id t (find id x.invites) x).1)
              (sym p) (use_row-Used id t (find id d0.invites) refl)))
          (λ updated. branch updated))
      where
        branch :
            (updated : Bool)
            → Triple
                (λ d. updated ≡ true → Used id d)
                (if not updated
                  then (query (λ _ d. find id d.invites) >>= not_usable)
                  else (execute (λ t d. insert_device_key vault_id peer_id hash device_name t d)
                      >>= λ inserted.
                          if inserted
                          then pure (redeemed device_key token vault_id)
                          else raise vaultcrdt_server.Sql.db_failed))
                (Answered vault_id id)
        branch false =
            bind-Triple _ (λ _ _. Unit) _ _ _ (fact-Triple _ _ _ (λ d p a d'. tt)) not_usable-Triple
        branch true =
            bind-Triple _ (λ (b : Bool) d. b ≡ true → Redeemed vault_id id d) _ _ _
              (execute-Triple _ _ _ (λ t d p. inserted_key t d hash (p refl)))
              (λ inserted.
                if-Triple _ _ inserted _ _
                  (λ e. pure-Triple _ _ (redeemed device_key token vault_id) (λ d p. (refl, p e)))
                  (λ e. raise-Triple _ _ _))
