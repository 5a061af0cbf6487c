-- ===== src/PeerState/Tests.antt =====
-- Runs and instances for peerstate/peerstate.go.
use go_graphsync.Base.{ℕ, ◌≡◌, refl, true, false, not, [], ◌∷◌, some, get?, has, insert, Map}
use go_graphsync.ResponseManager.{running, queued, paused, RequestState}
use go_graphsync.PeerState.{peer_state, diagnostics, active_but, running_not_active}
use go_graphsync.PeerState.Tracked.{peer_state-agrees}
use go_graphsync.PeerState.Agreement.{in_place}

-- Entries with a peer and a state.
abbrev entries : Map (ℕ × RequestState)
entries = (1, (3, running)) ∷ (2, (3, paused)) ∷ (4, (5, queued)) ∷ []

peer_state-agrees_example :
    has 2 (
      diagnostics (
        peer_state
          (λ v. v.0)
          (λ v. v.1)
          3
          (some (record { active = 2 ∷ []; pending = [] }))
          entries))
    ≡ not (in_place (some paused) true false)
unfolding get?
peer_state-agrees_example =
    peer_state-agrees (λ v. v.0) (λ v. v.1) 3 2 (record { active = 2 ∷ []; pending = [] }) entries
      (refl, (refl, (refl, tt)))

two_diagnostics :
    diagnostics
      (peer_state (λ v. v.0) (λ v. v.1) 3 (some (record { active = 2 ∷ []; pending = [] })) entries)
    ≡ (2, active_but paused ∷ []) ∷ (1, running_not_active ∷ []) ∷ []
unfolding diagnostics peer_state get? has insert
two_diagnostics = refl
