-- ===== src/PeerState.antt =====
-- peerstate/peerstate.go: the states of a peer's requests against its task queue; and peerStats and
-- peerState of the request manager and the response manager, which give them. What the diagnostics
-- say is their kind; the order of a Go map is that of the list.
pub mod Agreement
pub mod Tracked
mod Tests
use go_graphsync.Base.{
  ℕ, Bool, true, false, not, List, [], ◌∷◌, ◌++◌, Option, none, some, ◌==◌, if◌then◌else◌, Map,
  get?, insert, has, contains,
}
use go_graphsync.ResponseManager.{RequestState, queued, running, paused, completing_send}

pub record TaskQueueState : Type 0 where
  pub active : List ℕ
  pub pending : List ℕ

pub record PeerState : Type 0 where
  pub states : Map RequestState
  pub tasks : TaskQueueState

pub data Diagnostic : Type 0 where
  active_but pending_but : RequestState → Diagnostic
  active_untracked pending_untracked : Diagnostic
  running_not_active queued_not_pending : Diagnostic

abbrev pub Diagnostics : Type 0
Diagnostics = Map (List Diagnostic)

abbrev pub or_empty : Option (List Diagnostic) → List Diagnostic
or_empty none = []
or_empty (some ds) = ds

unfoldable pub note : ℕ → Diagnostic → Diagnostics → Diagnostics
note id d ds = insert id (or_empty (get? id ds) ++ d ∷ []) ds

unfoldable pub is_running : RequestState → Bool
is_running running = true
is_running queued = false
is_running paused = false
is_running completing_send = false

unfoldable pub is_queued : RequestState → Bool
is_queued queued = true
is_queued running = false
is_queued paused = false
is_queued completing_send = false

-- The active tasks: the diagnostics, and the requests matched.
unfoldable pub check_active :
    Map RequestState → List ℕ → Diagnostics × List ℕ → Diagnostics × List ℕ
unfolding note is_running
check_active states [] d = d
check_active states (id ∷ ids) d = check_active states ids (elim (get? id states) [
  | none ↦ (note id active_untracked d.0, d.1)
  | some s ↦ (if is_running s then d.0 else note id (active_but s) d.0, id ∷ d.1)
])

unfoldable pub check_pending :
    Map RequestState → List ℕ → Diagnostics × List ℕ → Diagnostics × List ℕ
unfolding note is_queued
check_pending states [] d = d
check_pending states (id ∷ ids) d = check_pending states ids (elim (get? id states) [
  | none ↦ (note id pending_untracked d.0, d.1)
  | some s ↦ (if is_queued s then d.0 else note id (pending_but s) d.0, id ∷ d.1)
])

unfoldable pub check_state : List ℕ → List ℕ → ℕ → RequestState → Diagnostics → Diagnostics
unfolding note
check_state active pending id running d =
    if contains id active then d else note id running_not_active d
check_state active pending id queued d =
    if contains id pending then d else note id queued_not_pending d
check_state active pending id paused d = d
check_state active pending id completing_send d = d

unfoldable pub check_states : List ℕ → List ℕ → Map RequestState → Diagnostics → Diagnostics
unfolding check_state
check_states active pending [] d = d
check_states active pending ((id, s) ∷ states) d =
    check_states active pending states (check_state active pending id s d)

unfoldable pub diagnostics : PeerState → Diagnostics
unfolding check_active check_pending check_states
diagnostics ps =
    let a = check_active ps.states ps.tasks.active ([], []) in
    let p = check_pending ps.states ps.tasks.pending (a.0, []) in check_states a.1 p.1 ps.states p.0

-- PeerTrackerTopics of the task queue's library.
pub record Topics : Type 0 where
  pub active : List ℕ
  pub pending : List ℕ

unfoldable pub from_peer_topics : Option Topics → TaskQueueState
from_peer_topics none = record { active = []; pending = [] }
from_peer_topics (some t) = record { active = t.active; pending = t.pending }

-- The states of the requests with the peer, of managers whose entries have a peer and a state.
unfoldable pub request_states {ℓ} :
    {V : Type ℓ} → (V → ℕ) → (V → RequestState) → ℕ → Map V → Map RequestState
request_states peer state p [] = []
request_states peer state p ((id, v) ∷ m) =
    let rest = request_states peer state p m in
    if peer v == p then insert id (state v) rest else rest

unfoldable pub peer_state {ℓ} :
    {V : Type ℓ} → (V → ℕ) → (V → RequestState) → ℕ → Option Topics → Map V → PeerState
unfolding request_states from_peer_topics
peer_state peer state p t m = record {
  states = request_states peer state p m;
  tasks = from_peer_topics t;
}
