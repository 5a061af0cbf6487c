-- ===== src/PeerState/Agreement.antt =====
-- PeerState.Diagnostics against a description of when the states and the task queue agree.
use go_graphsync.Base.{
  ℕ, ◌≡◌, sym, ◌∙◌, ap, Bool, true, false, not, ◌&&◌, ◌||◌, List, [], ◌∷◌, ◌++◌, Option, none, some,
  arith, ◌==◌, if◌then◌else◌, Option-cases, Bool-cases, inl, inr, Map, IsMap, get?, has,
  get?-insert, contains,
}
use go_graphsync.ResponseManager.{RequestState, queued, running, paused, completing_send}
use go_graphsync.RequestManager.Validity.{State-cases}
use go_graphsync.PeerState.{
  PeerState, Diagnostic, Diagnostics, active_but, pending_but, active_untracked, pending_untracked,
  running_not_active, queued_not_pending, note, or_empty, is_running, is_queued, check_active,
  check_pending, check_state, check_states, diagnostics,
}

-- Whether a request with the state, if any, may be active, and pending, in the task queue as it is.
unfoldable pub in_place : Option RequestState → Bool → Bool → Bool
in_place none active pending = not active && not pending
in_place (some running) active pending = active && not pending
in_place (some queued) active pending = pending && not active
in_place (some paused) active pending = not active && not pending
in_place (some completing_send) active pending = not active && not pending

has-note :
    (id j : ℕ) (d : Diagnostic) (ds : Diagnostics) → has id (note j d ds) ≡ ((j == id) || has id ds)
unfolding note has
has-note id j d ds = ground (arith, get?-insert j id (or_empty (get? j ds) ++ d ∷ []) ds)

abbrev state_is : (RequestState → Bool) → Option RequestState → Bool
state_is f none = false
state_is f (some s) = f s

equal_get? : (id j : ℕ) (m : Map RequestState) → (j == id) ≡ true → get? j m ≡ get? id m
equal_get? id j m h = ap (λ i. get? i m) (ground arith)

has-check_active :
    (id : ℕ) (states : Map RequestState) (ids : List ℕ) (d : Diagnostics × List ℕ)
    → has id (check_active states ids d).0
      ≡ (has id d.0 || (contains id ids && not (state_is is_running (get? id states))))
unfolding check_active
has-check_active id states [] d = ground arith
has-check_active id states (j ∷ ids) d = elim (Option-cases (get? j states)) [
  | inl e ↦
      rw (e, check_active)
        (has-check_active id states ids (note j active_untracked d.0, d.1)
          ∙ ground (arith, has-note id j active_untracked d.0, equal_get? id j states))
  | inr (s, e) ↦ elim (Bool-cases (is_running s)) [
    | inl r ↦
        rw (e, check_active) rw (r)
          (has-check_active id states ids (d.0, j ∷ d.1) ∙ ground (arith, equal_get? id j states))
    | inr r ↦
        rw (e, check_active) rw (r)
          (has-check_active id states ids (note j (active_but s) d.0, j ∷ d.1)
            ∙ ground (arith, has-note id j (active_but s) d.0, equal_get? id j states))
  ]
]

has-check_pending :
    (id : ℕ) (states : Map RequestState) (ids : List ℕ) (d : Diagnostics × List ℕ)
    → has id (check_pending states ids d).0
      ≡ (has id d.0 || (contains id ids && not (state_is is_queued (get? id states))))
unfolding check_pending
has-check_pending id states [] d = ground arith
has-check_pending id states (j ∷ ids) d = elim (Option-cases (get? j states)) [
  | inl e ↦
      rw (e, check_pending)
        (has-check_pending id states ids (note j pending_untracked d.0, d.1)
          ∙ ground (arith, has-note id j pending_untracked d.0, equal_get? id j states))
  | inr (s, e) ↦ elim (Bool-cases (is_queued s)) [
    | inl r ↦
        rw (e, check_pending) rw (r)
          (has-check_pending id states ids (d.0, j ∷ d.1) ∙ ground (arith, equal_get? id j states))
    | inr r ↦
        rw (e, check_pending) rw (r)
          (has-check_pending id states ids (note j (pending_but s) d.0, j ∷ d.1)
            ∙ ground (arith, has-note id j (pending_but s) d.0, equal_get? id j states))
  ]
]

matched-check_active :
    (id : ℕ) (states : Map RequestState) (ids : List ℕ) (d : Diagnostics × List ℕ)
    → contains id (check_active states ids d).1
      ≡ (contains id d.1 || (contains id ids && has id states))
unfolding check_active has
matched-check_active id states [] d = ground arith
matched-check_active id states (j ∷ ids) d = elim (Option-cases (get? j states)) [
  | inl e ↦
      rw (e, check_active)
        (matched-check_active id states ids (note j active_untracked d.0, d.1)
          ∙ ground (arith, equal_get? id j states))
  | inr (s, e) ↦
      rw (e, check_active)
        (matched-check_active id states ids
            (if is_running s then d.0 else note j (active_but s) d.0, j ∷ d.1)
          ∙ ground (arith, equal_get? id j states))
]

matched-check_pending :
    (id : ℕ) (states : Map RequestState) (ids : List ℕ) (d : Diagnostics × List ℕ)
    → contains id (check_pending states ids d).1
      ≡ (contains id d.1 || (contains id ids && has id states))
unfolding check_pending has
matched-check_pending id states [] d = ground arith
matched-check_pending id states (j ∷ ids) d = elim (Option-cases (get? j states)) [
  | inl e ↦
      rw (e, check_pending)
        (matched-check_pending id states ids (note j pending_untracked d.0, d.1)
          ∙ ground (arith, equal_get? id j states))
  | inr (s, e) ↦
      rw (e, check_pending)
        (matched-check_pending id states ids
            (if is_queued s then d.0 else note j (pending_but s) d.0, j ∷ d.1)
          ∙ ground (arith, equal_get? id j states))
]

-- What the last loop says of a request.
abbrev misses : List ℕ → List ℕ → ℕ → Option RequestState → Bool
misses active pending id none = false
misses active pending id (some running) = not (contains id active)
misses active pending id (some queued) = not (contains id pending)
misses active pending id (some paused) = false
misses active pending id (some completing_send) = false

has-check_state :
    (active pending : List ℕ) (id j : ℕ) (s : RequestState) (d : Diagnostics)
    → has id (check_state active pending j s d)
      ≡ (has id d || ((j == id) && misses active pending j (some s)))
unfolding check_state
has-check_state active pending id j running d = ground (arith, has-note id j running_not_active d)
has-check_state active pending id j queued d = ground (arith, has-note id j queued_not_pending d)
has-check_state active pending id j paused d = ground arith
has-check_state active pending id j completing_send d = ground arith

misses-equal :
    (active pending : List ℕ) (id j : ℕ) (s : Option RequestState)
    → (j == id) ≡ true
    → misses active pending j s ≡ misses active pending id s
misses-equal active pending id j s h = ap (λ i. misses active pending i s) (ground arith)

has-check_states :
    (active pending : List ℕ) (id : ℕ) (states : Map RequestState) (d : Diagnostics)
    → IsMap states
    → has id (check_states active pending states d)
      ≡ (has id d || misses active pending id (get? id states))
unfolding check_states get?
has-check_states active pending id [] d v = ground arith
has-check_states active pending id ((j, s) ∷ states) d v =
    has-check_states active pending id states (check_state active pending j s d) v.1
    ∙ elim (Bool-cases (j == id)) [
      | inl h ↦
          let gone : get? id states ≡ none = sym (equal_get? id j states h) ∙ v.0 in
          rw (gone) ground (
            arith,
            has-check_state active pending id j s d,
            misses-equal active pending id j (some s) h,
          )
      | inr h ↦ ground (arith, has-check_state active pending id j s d)
    ]

-- Diagnostics says something about a request just where its state and the task queue do not agree: a
-- running request is to be active and not pending, a queued one pending and not active, and any other,
-- or one that is not tracked, neither.
pub diagnostics-agrees :
    (id : ℕ) (ps : PeerState)
    → IsMap ps.states
    → has id (diagnostics ps)
      ≡ not (
          in_place (get? id ps.states) (contains id ps.tasks.active) (contains id ps.tasks.pending))
unfolding diagnostics in_place has get? is_running is_queued
diagnostics-agrees id ps v =
    let a = check_active ps.states ps.tasks.active ([], []) in
    let p = check_pending ps.states ps.tasks.pending (a.0, []) in
    let said = has-check_states a.1 p.1 id ps.states p.0 v in
    let by_pending = has-check_pending id ps.states ps.tasks.pending (a.0, []) in
    let by_active = has-check_active id ps.states ps.tasks.active ([], []) in
    let in_active = matched-check_active id ps.states ps.tasks.active ([], []) in
    let in_pending = matched-check_pending id ps.states ps.tasks.pending (a.0, []) in
    elim (Option-cases (get? id ps.states)) [
      | inl e ↦ ground arith
      | inr (s, e) ↦ elim (State-cases s) [
        | inl t ↦ ground arith
        | inr (inl t) ↦ ground arith
        | inr (inr (inl t)) ↦ ground arith
        | inr (inr (inr t)) ↦ ground arith
      ]
    ]
