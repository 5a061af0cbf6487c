-- ===== src/PeerState/Tracked.antt =====
-- RequestManager.peerStats and ResponseManager.peerState: whose requests they give.
use go_graphsync.Base.{
  ℕ, ◌≡◌, refl, ◌∙◌, ap, true, not, [], ◌∷◌, Option, none, some, arith, ◌==◌, if◌then◌else◌,
  Bool-cases, inl, inr, Map, IsMap, get?, has, get?-insert, insert-IsMap, contains,
}
use go_graphsync.ResponseManager.{RequestState}
use go_graphsync.PeerState.{Topics, request_states, peer_state, diagnostics}
use go_graphsync.PeerState.Agreement.{in_place, diagnostics-agrees}

-- The state of the request, if it is the peer's.
abbrev pub own_state {ℓ} :
    {V : Type ℓ} → (V → ℕ) → (V → RequestState) → ℕ → Option V → Option RequestState
own_state peer state p none = none
own_state peer state p (some v) = if peer v == p then some (state v) else none

equal_keys : (j id : ℕ) → (j == id) ≡ true → j ≡ id
equal_keys j id h = ground arith

module _ {ℓ} {V : Type ℓ} (peer : V → ℕ) (state : V → RequestState) (p : ℕ) where
  same_key : (j id : ℕ) (m : Map V) → (j == id) ≡ true → get? j m ≡ get? id m
  same_key j id m h = ap (λ i. get? i m) (equal_keys j id h)

  get?-request_states :
      (id : ℕ) (m : Map V)
      → IsMap m
      → get? id (request_states peer state p m) ≡ own_state peer state p (get? id m)
  unfolding request_states get?
  get?-request_states id [] v = refl
  get?-request_states id ((j, x) ∷ m) v = elim (Bool-cases (peer x == p)) [
    | inl t ↦
        rw (t, request_states)
          (get?-insert j id (state x) (request_states peer state p m)
            ∙ ground (arith, get?-request_states id m v.1))
    | inr t ↦
        rw (t, request_states) ground (arith, get?-request_states id m v.1, v.0, same_key j id m)
  ]

  request_states-IsMap : (m : Map V) → IsMap (request_states peer state p m)
  unfolding request_states
  request_states-IsMap [] = tt
  request_states-IsMap ((j, x) ∷ m) = elim (Bool-cases (peer x == p)) [
    | inl t ↦
        rw (t, request_states)
          (insert-IsMap j (state x) (request_states peer state p m) (request_states-IsMap m))
    | inr t ↦ rw (t, request_states) (request_states-IsMap m)
  ]

  -- The diagnostics on what a manager gives for a peer, with a task queue that has topics for it, say
  -- something about a request just where that peer's request, if the manager has it, and the queue do
  -- not agree: a running one is to be active and not pending, a queued one pending and not active, and
  -- any other, or one that the manager does not have for the peer, neither.
  pub peer_state-agrees :
      (id : ℕ) (t : Topics) (m : Map V)
      → IsMap m
      → has id (diagnostics (peer_state peer state p (some t) m))
        ≡ not (
            in_place
              (own_state peer state p (get? id m))
              (contains id t.active)
              (contains id t.pending))
  unfolding peer_state
  peer_state-agrees id t m v =
      diagnostics-agrees id (peer_state peer state p (some t) m) (request_states-IsMap m)
      ∙ ap (λ s. not (in_place s (contains id t.active) (contains id t.pending)))
          (get?-request_states id m v)
