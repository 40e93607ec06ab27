-- ===== src/Sockets/Owners.antt =====
-- The vault of every connection so far, and the events that come from one.
use vaultcrdt_server.Base.{
  if◌then◌else◌, nat_eq, list_eq, option_eq, pair_eq, ◌==◌, Text, All, ℕ, ◌+◌, ◌<◌, ◌≡◌, sym, ap,
  ◌∙◌, subst, inl, inr, Option, none, some, List, [], ◌∷◌, ◌++◌, eq_iff, arith,
}
use vaultcrdt_server.Table.{Table, find, put}
use vaultcrdt_server.Table.Laws.{put-cases}
use vaultcrdt_server.Protocol.{ServerMsg, BroadcastEvent}
use vaultcrdt_server.Handlers.Replies.{Announces, origin}
use vaultcrdt_server.Sockets.{get_elem?}
use vaultcrdt_server.Sockets.Hub.{Session, Hub, publish}

-- `owner` has the vault of each connection so far.
abbrev pub IsFrom : (ℕ → Text) → ℕ → BroadcastEvent → Type 0
IsFrom owner n (BroadcastEvent.delta v u delta p sender vv token) =
    (v ≡ owner sender) × (sender < n)
IsFrom owner n (BroadcastEvent.delete v u sender hash) = (v ≡ owner sender) × (sender < n)
IsFrom owner n (BroadcastEvent.blob_path_changed v path seq) = Unit

abbrev pub HasOwners : (ℕ → Text) → ℕ → Table ℕ Session → Type 0
HasOwners owner n t = (c : ℕ) (s : Session) → find c t ≡ some s → (s.vault_id ≡ owner c) × (c < n)

abbrev pub IsOwned : (ℕ → Text) → Hub → Type 0
IsOwned owner hub =
    HasOwners owner hub.conn_counter hub.connections
    × All (IsFrom owner hub.conn_counter) hub.events

module _ (owner : ℕ → Text) (n : ℕ) where
  pub put-HasOwners :
      (c : ℕ) (s : Session) (t : Table ℕ Session)
      → (s.vault_id ≡ owner c) × (c < n)
      → HasOwners owner n t
      → HasOwners owner n (put c s t)
  put-HasOwners c s t k h j r f = elim (put-cases c j s r t f) [
    | inl (same, e) ↦ (ap (λ q. q.vault_id) e ∙ k.0 ∙ ap owner same, subst (λ i. i < n) same k.1)
    | inr old ↦ h j r old
  ]

  pub append-All :
      (events : List BroadcastEvent) (event : BroadcastEvent)
      → IsFrom owner n event
      → All (IsFrom owner n) events
      → All (IsFrom owner n) (events ++ event ∷ [])
  append-All [] event k h = (k, tt)
  append-All (e ∷ events) event k h = (h.0, append-All events event k h.1)

  pub find-All :
      (events : List BroadcastEvent) (i : ℕ) (event : BroadcastEvent)
      → All (IsFrom owner n) events
      → get_elem? events i ≡ some event
      → IsFrom owner n event
  unfolding get_elem?
  find-All [] i event h e = absurd (cc e)
  find-All (x ∷ events) Prim.Native.Nat.zero event h e = subst (IsFrom owner n) (cc e) h.0
  find-All (x ∷ events) (Prim.Native.Nat.suc i) event h e = find-All events i event h.1 e

  -- An event that a frame of connection `c` leads to.
  announced-IsFrom :
      (c : ℕ) (v : Text) (event : BroadcastEvent)
      → v ≡ owner c
      → c < n
      → ◌≡◌ {A = Text × ℕ} (origin event) (v, c)
      → IsFrom owner n event
  announced-IsFrom c v (BroadcastEvent.delta w u delta p sender vv token) e l o =
      let same = ap (λ x. x.1) o in
      (ap (λ x. x.0) o ∙ e ∙ ap owner (sym same), subst (λ i. i < n) (sym same) l)
  announced-IsFrom c v (BroadcastEvent.delete w u sender hash) e l o =
      let same = ap (λ x. x.1) o in
      (ap (λ x. x.0) o ∙ e ∙ ap owner (sym same), subst (λ i. i < n) (sym same) l)
  announced-IsFrom c v (BroadcastEvent.blob_path_changed w path seq) e l o = tt

  pub publish-All :
      (c : ℕ) (v : Text) (r : Option Text) (message : ServerMsg) (broadcast : Option BroadcastEvent)
      (events : List BroadcastEvent)
      → v ≡ owner c
      → c < n
      → Announces v c r (message, broadcast)
      → All (IsFrom owner n) events
      → All (IsFrom owner n) (publish broadcast events)
  publish-All c v r message none events e l a h = h
  publish-All c v r message (some event) events e l (inl quiet) h = absurd (cc quiet)
  publish-All c v r message (some event) events e l (inr (x, token, b, m, o)) h =
      append-All events event
        (announced-IsFrom c v event e l
          (subst (λ y. ◌≡◌ {A = Text × ℕ} (origin y) (v, c)) {x = x} {y = event} (cc b) o))
        h

  pub wider :
      (events : List BroadcastEvent)
      → All (IsFrom owner n) events
      → All (IsFrom owner (n + 1)) events
  wider [] h = tt
  wider (BroadcastEvent.delta v u delta p sender vv token ∷ events) h =
      ((h.0.0, omega (arith, h.0.1)), wider events h.1)
  wider (BroadcastEvent.delete v u sender hash ∷ events) h =
      ((h.0.0, omega (arith, h.0.1)), wider events h.1)
  wider (BroadcastEvent.blob_path_changed v path seq ∷ events) h = (tt, wider events h.1)

  -- The next connection gets the next number.
  abbrev pub joining : Text → ℕ → Text
  joining w i = if i == n then w else owner i

  joining-old : (w : Text) (i : ℕ) → i < n → owner i ≡ joining w i
  joining-old w i l = ground (arith, eq_iff i n)

  joining-IsFrom :
      (w : Text) (event : BroadcastEvent) → IsFrom owner n event → IsFrom (joining w) (n + 1) event
  joining-IsFrom w (BroadcastEvent.delta v u delta p sender vv token) h =
      (h.0 ∙ joining-old w sender h.1, omega arith)
  joining-IsFrom w (BroadcastEvent.delete v u sender hash) h =
      (h.0 ∙ joining-old w sender h.1, omega arith)
  joining-IsFrom w (BroadcastEvent.blob_path_changed v path seq) h = tt

  pub joining-All :
      (w : Text) (events : List BroadcastEvent)
      → All (IsFrom owner n) events
      → All (IsFrom (joining w) (n + 1)) events
  joining-All w [] h = tt
  joining-All w (e ∷ events) h = (joining-IsFrom w e h.0, joining-All w events h.1)

  pub joining-HasOwners :
      (w : Text) (t : Table ℕ Session) → HasOwners owner n t → HasOwners (joining w) (n + 1) t
  joining-HasOwners w t h c s e = let (o, l) = h c s e in (o ∙ joining-old w c l, omega (arith, l))
