-- ===== src/RequestManager/Loop.antt =====
-- requestmanager/messages.go: what the loop of the request manager does for each message, and that it
-- goes through. A channel of the caller is a number. The state of a peer (peerStateMessage) is left out.
use go_graphsync.Base.{
  ◌⊎◌, ℕ, ◌≡◌, refl, sym, ◌∙◌, Bool, true, List, [], ◌∷◌, ◌++◌, Option, none, some, Option-cases,
  inl, inr, get?, insert,
}
use go_graphsync.Message.{
  Block, Extension, Request, Response, new_cancel_request, replace_extensions,
}
use go_graphsync.ResponseManager.{queued, running, paused}
use go_graphsync.RequestManager.Hooks.{RequestResult}
use go_graphsync.RequestManager.{
  Checks, Manager, InProgress, Outcome, Error, Effect, TaskError, ResponseHooks, start_request,
  add_request, validate_request, skip_count, get_request_task, release_request_task, cancel_request,
  add_channel, prepend, process_responses, pause, unpause, update, answer, give_request, give_task,
  released, send_request, err_paused, task_failed, terminate_request, Validated, invalid, valid,
  refuse,
}
use go_graphsync.RequestManager.Validity.{
  IsValid, is_ready, ready-some, insert-IsStep, terminate_request-IsStep, State-cases,
  cancel_on_error-runs,
}
use go_graphsync.RequestManager.About.{distinct}
use go_graphsync.RequestManager.Responding.{process_responses-runs}

-- What a manager is made with.
pub record Config : Type 0 where
  pub checks : Checks
  pub default_link_system : ℕ
  pub request_hooks : ℕ → Request → RequestResult
  pub response_hooks : ResponseHooks

pub data Call : Type 0 where
  new_request_call : ℕ → ℕ → Option ℕ → ℕ → List Extension → ℕ → Call
  process_responses_call : ℕ → List Response → List Block → Call
  pause_call : ℕ → ℕ → Call
  unpause_call update_call : ℕ → List Extension → ℕ → Call
  cancel_call : ℕ → Option ℕ → Option Error → Call
  get_task_call : ℕ → ℕ → ℕ → Call
  release_task_call : ℕ → ℕ → Option TaskError → ℕ → Call

abbrev pub with_answer : Outcome → List Effect → Outcome
with_answer o es = (o.0, o.1 ++ es)

unfoldable pub handle : Config → Call → Manager → Option Outcome
unfolding start_request process_responses pause unpause update cancel_request get_request_task
    release_request_task
handle g (new_request_call id p root selector es c) m =
    let o =
      start_request g.checks g.default_link_system id p root selector es (g.request_hooks p) m in
    some (with_answer o.0 (give_request c o.1 ∷ []))
handle g (process_responses_call p rs blocks) m = process_responses g.response_hooks p rs blocks m
handle g (pause_call id c) m = let o = pause id m in some (o.0, answer c o.1 ∷ [])
handle g (unpause_call id es c) m =
    let o = unpause id es m in some (with_answer o.0 (answer c o.1 ∷ []))
handle g (update_call id es c) m = let o = update id es m in some (m, o.0 ++ answer c o.1 ∷ [])
handle g (cancel_call id c e) m = cancel_request id c e m
handle g (get_task_call p id c) m =
    let o = get_request_task id p m in some (with_answer o.0 (give_task c o.1 ∷ []))
handle g (release_task_call p id e c) m =
    some (with_answer (release_request_task id p e m) (released c ∷ []))

-- Responses that come together are about different requests.
unfoldable pub is_message : Call → Bool
unfolding distinct
is_message (new_request_call id p root selector es c) = true
is_message (process_responses_call p rs blocks) = distinct rs
is_message (pause_call id c) = true
is_message (unpause_call id es c) = true
is_message (update_call id es c) = true
is_message (cancel_call id c e) = true
is_message (get_task_call p id c) = true
is_message (release_task_call p id e c) = true

pub Validated-cases :
    (x : Validated) → ((e : Error) × (x ≡ invalid e)) ⊎ ((q : Request) × (l : ℕ) × (x ≡ valid q l))
Validated-cases (invalid e) = inl (e, refl)
Validated-cases (valid q l) = inr (q, l, refl)

start_request-IsValid :
    (g : Checks) (default id p : ℕ) (root : Option ℕ) (selector : ℕ) (es : List Extension)
    → (hooks : Request → RequestResult) (m : Manager) → IsValid m
    → IsValid (start_request g default id p root selector es hooks m).0.0
unfolding start_request add_request
start_request-IsValid g default id p root selector es hooks m v =
    elim (Validated-cases (validate_request g default id root selector es hooks)) [
      | inl (e, t) ↦ rw (t, start_request) v
      | inr (q, l, t) ↦ elim (Option-cases (skip_count g q)) [
        | inl u ↦ rw (t, start_request) rw (u, start_request) v
        | inr (n, u) ↦
            rw (t, start_request) rw (u, start_request) (insert-IsStep q.id _ m refl v).valid
      ]
    ]

pause-IsValid : (id : ℕ) (m : Manager) → IsValid m → IsValid (pause id m).0
unfolding pause
pause-IsValid id m v = elim (Option-cases (get? id m)) [
  | inl e ↦ rw (e, pause) v
  | inr (r, e) ↦
      let ready_here : is_ready r ≡ true = sym (ready-some id r m e) ∙ v id in
      let step = insert-IsStep id (record r { pause_message = true }) m ready_here v in
      elim (State-cases r.state) [
        | inl t ↦ rw (e, pause) rw (t, pause) step.valid
        | inr (inl t) ↦ rw (e, pause) rw (t, pause) step.valid
        | inr (inr (inl t)) ↦ rw (e, pause) rw (t, pause) v
        | inr (inr (inr t)) ↦ rw (e, pause) rw (t, pause) step.valid
      ]
]

unpause-IsValid :
    (id : ℕ) (es : List Extension) (m : Manager) → IsValid m → IsValid (unpause id es m).0.0
unfolding unpause
unpause-IsValid id es m v = elim (Option-cases (get? id m)) [
  | inl e ↦ rw (e, unpause) v
  | inr (r, e) ↦
      let s = record r { state = queued; request = replace_extensions es r.request } in
      elim (State-cases r.state) [
        | inl t ↦ rw (e, unpause) rw (t, unpause) v
        | inr (inl t) ↦ rw (e, unpause) rw (t, unpause) v
        | inr (inr (inl t)) ↦ rw (e, unpause) rw (t, unpause) (insert-IsStep id s m refl v).valid
        | inr (inr (inr t)) ↦ rw (e, unpause) rw (t, unpause) v
      ]
]

get_request_task-IsValid :
    (id p : ℕ) (m : Manager) → IsValid m → IsValid (get_request_task id p m).0.0
unfolding get_request_task
get_request_task-IsValid id p m v = elim (Option-cases (get? id m)) [
  | inl e ↦ rw (e, get_request_task) v
  | inr (r, e) ↦
      rw (e, get_request_task)
        (insert-IsStep id (record r { state = running; has_traverser = true }) m refl v).valid
]

released-IsValid :
    (id p : ℕ) (e : Option TaskError) (r : InProgress) (m : Manager)
    → IsValid m
    → IsValid
        (elim e as (λ _. Outcome) [
          | none ↦ terminate_request id r m
          | some x ↦ elim x [
            | err_paused ↦ (insert id (record r { state = paused }) m, [])
            | task_failed f ↦ terminate_request id r m
          ]
        ]).0
released-IsValid id p none r m v = (terminate_request-IsStep id r m v).valid
released-IsValid id p (some err_paused) r m v =
    (insert-IsStep id (record r { state = paused }) m refl v).valid
released-IsValid id p (some (task_failed f)) r m v = (terminate_request-IsStep id r m v).valid

release_request_task-IsValid :
    (id p : ℕ) (e : Option TaskError) (m : Manager)
    → IsValid m
    → IsValid (release_request_task id p e m).0
unfolding release_request_task
release_request_task-IsValid id p e m v = elim (Option-cases (get? id m)) [
  | inl g ↦ rw (g, release_request_task) v
  | inr (r, g) ↦ rw (g, release_request_task) (released-IsValid id p e r m v)
]

is_ready-add_channel : (c : Option ℕ) (r : InProgress) → is_ready (add_channel c r) ≡ is_ready r
is_ready-add_channel none r = refl
is_ready-add_channel (some c) r = refl

cancel_request-runs :
    (id : ℕ) (c : Option ℕ) (e : Option Error) (m : Manager)
    → IsValid m
    → (o : Outcome) × (cancel_request id c e m ≡ some o) × IsValid o.0
unfolding cancel_request
cancel_request-runs id c e m v = elim (Option-cases (get? id m)) [
  | inl g ↦ ((m, refuse c), rw (g, cancel_request) refl, v)
  | inr (r, g) ↦
      let ready_here : is_ready (add_channel c r) ≡ true =
        is_ready-add_channel c r ∙ sym (ready-some id r m g) ∙ v id in
      let (o, f, step) = cancel_on_error-runs id e (add_channel c r) m ready_here v in
      (
        prepend (send_request r.peer (new_cancel_request id) ∷ []) o,
        rw (g, cancel_request) rw (f, cancel_request) refl,
        step.valid,
      )
]

goes_through : (o : Outcome) → IsValid o.0 → (q : Outcome) × (some o ≡ some q) × IsValid q.0
goes_through o v = (o, refl, v)

-- From a manager in which each running request has its loader, the loop goes through on every message
-- whose responses are about different requests, and leaves such a manager.
pub handle-runs :
    (g : Config) (call : Call) (m : Manager)
    → is_message call ≡ true
    → IsValid m
    → (o : Outcome) × (handle g call m ≡ some o) × IsValid o.0
unfolding handle is_message
handle-runs g (new_request_call id p root selector es c) m d v = goes_through _ (
    start_request-IsValid g.checks g.default_link_system id p root selector es (g.request_hooks p) m
      v)
handle-runs g (process_responses_call p rs blocks) m d v =
    process_responses-runs g.response_hooks p rs blocks m d v
handle-runs g (pause_call id c) m d v = goes_through _ (pause-IsValid id m v)
handle-runs g (unpause_call id es c) m d v = goes_through _ (unpause-IsValid id es m v)
handle-runs g (update_call id es c) m d v = goes_through _ v
handle-runs g (cancel_call id c e) m d v = cancel_request-runs id c e m v
handle-runs g (get_task_call p id c) m d v = goes_through _ (get_request_task-IsValid id p m v)
handle-runs g (release_task_call p id e c) m d v =
    goes_through _ (release_request_task-IsValid id p e m v)
