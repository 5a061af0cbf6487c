-- ===== src/ResponseManager/Waiting.antt =====
-- The tasks that responsemanager/server.go keeps in the queue against the responses that are queued.
use go_graphsync.Base.{
  ℕ, ◌≡◌, refl, sym, ◌∙◌, ap, Bool, true, false, List, [], ◌∷◌, ◌++◌, Option, none, some, arith,
  ◌==◌, if◌then◌else◌, Bool-cases, Option-cases, inl, inr, get?, insert, delete, get?-insert,
  get?-delete, ==_iff,
}
use go_graphsync.Message.{Extension, Request}
use go_graphsync.ResponseManager.Hooks.{RequestResult, UpdateResult}
use go_graphsync.ResponseManager.Effects.{
  waiting_after, waiting_after-append, quiet-waiting_after, prepare_query-IsQuiet,
}
use go_graphsync.ResponseManager.{
  Manager, InProgress, Failure, TaskError, RequestState, queued, running, paused, completing_send,
  terminate_request, unpause_in, unpause_request, update_paused, process_update, abort_idle,
  abort_in, abort_request, new_request, start_in, start_task, finish_in, finish_task, get_updates,
  pause_response, update_request, context_cancelled, network_error, other_failure, notify_cancelled,
  signal, start_effects, start_state, prepare_query, Decoders, Call, new_call, update_call,
  abort_call, unpause_call, pause_call, send_update_call, get_updates_call, start_call, finish_call,
  terminate_call, handle,
}

abbrev pub in_queue : RequestState → Bool
in_queue queued = true
in_queue _ = false

-- Whether the request's response is in the state `queued`.
unfoldable pub is_queued : ℕ → Manager → Bool
is_queued id m = elim (get? id m) [ none ↦ false | some r ↦ in_queue r.state ]

is_queued-insert :
    (id j : ℕ) (s : InProgress) (m : Manager)
    → is_queued j (insert id s m) ≡ (if id == j then in_queue s.state else is_queued j m)
unfolding is_queued
is_queued-insert id j s m = ground (arith, get?-insert id j s m)

is_queued-delete :
    (id j : ℕ) (m : Manager)
    → is_queued j (delete id m) ≡ (if id == j then false else is_queued j m)
unfolding is_queued
is_queued-delete id j m = ground (arith, get?-delete id j m)

is_queued-some :
    (id j : ℕ) (r : InProgress) (m : Manager)
    → get? id m ≡ some r
    → (id == j) ≡ true
    → is_queued j m ≡ in_queue r.state
unfolding is_queued
is_queued-some id j r m e f = ground (arith, (==_iff id j).0 f)

is_queued-none :
    (id j : ℕ) (m : Manager) → get? id m ≡ none → (id == j) ≡ true → is_queued j m ≡ false
unfolding is_queued
is_queued-none id j m e f = ground (arith, (==_iff id j).0 f)

is_queued-same :
    (id j : ℕ) (r s : InProgress) (m : Manager)
    → get? id m ≡ some r
    → in_queue s.state ≡ in_queue r.state
    → is_queued j (insert id s m) ≡ is_queued j m
is_queued-same id j r s m e h = elim (Bool-cases (id == j)) [
  | inl f ↦ ground (arith, is_queued-insert id j s m, is_queued-some id j r m e f)
  | inr f ↦ ground (arith, is_queued-insert id j s m)
]

-- What is asked of a message: a new request has an id that is not in use, and a task that ends and a
-- response that is closed are not those of a queued one.
abbrev pub IsExpected : Call → Manager → Type 0
IsExpected (new_call result p request) m = get? request.id m ≡ none
IsExpected (finish_call id p e) m = is_queued id m ≡ false
IsExpected (terminate_call id) m = is_queued id m ≡ false
IsExpected _ m = Unit

-- Whether a task waits before the message is handled; a task that starts has been taken out.
abbrev pub waiting_before : Call → ℕ → Manager → Bool
waiting_before (start_call id p) j m = if id == j then false else is_queued j m
waiting_before _ j m = is_queued j m

terminate_request-waiting :
    (j id : ℕ) (m : Manager) (b : Bool) → waiting_after j (terminate_request id m).1 b ≡ b
unfolding terminate_request
terminate_request-waiting j id m b = elim (Option-cases (get? id m)) [
  | inl e ↦ ground arith
  | inr (r, e) ↦ ground arith
]

terminate_request-is_queued :
    (j id : ℕ) (m : Manager)
    → is_queued j (terminate_request id m).0 ≡ (if id == j then false else is_queued j m)
unfolding terminate_request
terminate_request-is_queued j id m = elim (Option-cases (get? id m)) [
  | inl e ↦ elim (Bool-cases (id == j)) [
    | inl f ↦ unfold is_queued in ground (arith, (==_iff id j).0 f)
    | inr f ↦ ground arith
  ]
  | inr (r, e) ↦ ground (arith, is_queued-delete id j m)
]

unpause_in-waiting :
    (j id : ℕ) (es : List Extension) (r : InProgress) (m : Manager)
    → let o = unpause_in id es r m in waiting_after j o.1 (is_queued j m) ≡ is_queued j o.0
unfolding unpause_in
unpause_in-waiting j id [] r m =
    ground (arith, is_queued-insert id j (record r { state = queued }) m)
unpause_in-waiting j id (x ∷ es) r m =
    ground (arith, is_queued-insert id j (record r { state = queued }) m)

unpause_request-waiting :
    (j id : ℕ) (es : List Extension) (m : Manager)
    → let o = unpause_request id es m in waiting_after j o.1 (is_queued j m) ≡ is_queued j o.0
unfolding unpause_request
unpause_request-waiting j id es m = elim (Option-cases (get? id m)) [
  | inl e ↦ ground arith
  | inr (r, e) ↦ ground (arith, unpause_in-waiting j id es r m)
]

process_update-waiting :
    (j id : ℕ) (hooks : ℕ → Request → Request → UpdateResult) (u : Request) (m : Manager)
    → let o = process_update hooks id u m in waiting_after j o.1 (is_queued j m) ≡ is_queued j o.0
unfolding process_update update_paused
process_update-waiting j id hooks u m = elim (Option-cases (get? id m)) [
  | inl e ↦ ground arith
  | inr (r, e) ↦ ground (
    arith,
    unpause_request-waiting j id [] m,
    is_queued-same id j r (record r { state = completing_send }) m e,
    is_queued-same id j r (record r { updates = r.updates ++ u ∷ []; update_signal = true }) m e,
  )
]

abort_idle-waiting :
    (j id : ℕ) (f : Failure) (r : InProgress) (m : Manager)
    → let o = abort_idle id f r m in
      waiting_after j o.1 (if id == j then false else is_queued j m) ≡ is_queued j o.0
unfolding abort_idle
abort_idle-waiting j id context_cancelled r m =
    let t = terminate_request id m in
    let b = if id == j then false else is_queued j m in
    waiting_after-append j t.1 (notify_cancelled r.peer id ∷ []) b
    ∙ terminate_request-waiting j id m b
    ∙ sym (terminate_request-is_queued j id m)
abort_idle-waiting j id network_error r m =
    let b = if id == j then false else is_queued j m in
    terminate_request-waiting j id m b ∙ sym (terminate_request-is_queued j id m)
abort_idle-waiting j id (other_failure x) r m =
    sym (is_queued-insert id j (record r { state = completing_send }) m)

abort_request-waiting :
    (j id : ℕ) (f : Failure) (m : Manager)
    → let o = abort_request id f m in waiting_after j o.1 (is_queued j m) ≡ is_queued j o.0
unfolding abort_request abort_in
abort_request-waiting j id f m = elim (Option-cases (get? id m)) [
  | inl e ↦ ground arith
  | inr (r, e) ↦ ground (
    arith,
    abort_idle-waiting j id f r m,
    is_queued-some id j r m e,
    is_queued-insert id j (record r { err_signal = signal f r.err_signal }) m,
  )
]

finish_task-waiting :
    (j id q : ℕ) (x : Option TaskError) (m : Manager)
    → is_queued id m ≡ false
    → let o = finish_task id q x m in waiting_after j o.1 (is_queued j m) ≡ is_queued j o.0
unfolding finish_task finish_in
finish_task-waiting j id q x m h = elim (Option-cases (get? id m)) [
  | inl e ↦ ground arith
  | inr (r, e) ↦ ground (
    arith,
    terminate_request-waiting j id m (is_queued j m),
    terminate_request-is_queued j id m,
    ap (λ u. is_queued u m),
    is_queued-insert id j (record r { state = completing_send }) m,
    is_queued-insert id j (record r { state = paused }) m,
  )
]

start_task-waiting :
    (j id q : ℕ) (m : Manager)
    → let o = start_task id q m in
      waiting_after j o.1 (if id == j then false else is_queued j m) ≡ is_queued j o.0
unfolding start_task start_in
start_task-waiting j id q m = elim (Option-cases (get? id m)) [
  | inl e ↦ ground (arith, is_queued-none id j m e)
  | inr (r, e) ↦ ground (
    arith,
    is_queued-some id j r m e,
    is_queued-insert id j (record r { state = running; has_traverser = true }) m,
  )
]

start_effects-waiting :
    (j q : ℕ) (s : RequestState) (request : Request) (b : Bool)
    → (b ≡ true → (request.id == j) ≡ false)
    → waiting_after j (start_effects s q request) b ≡ (if request.id == j then in_queue s else b)
start_effects-waiting j q queued request b h = ground arith
start_effects-waiting j q running request b h = ground arith
start_effects-waiting j q paused request b h = ground arith
start_effects-waiting j q completing_send request b h = ground arith

new_request-waiting :
    (d : Decoders) (j q : ℕ) (result : RequestResult) (request : Request) (m : Manager)
    → get? request.id m ≡ none
    → let o = new_request d result q request m in
      waiting_after j o.1 (is_queued j m) ≡ is_queued j o.0
unfolding new_request
new_request-waiting d j q result request m e =
    let es = (prepare_query d request result).1 in
    let state = start_state (prepare_query d request result).0 result in
    let b = is_queued j m in
    waiting_after-append j es (start_effects state q request) b
    ∙ ap (waiting_after j (start_effects state q request))
        (quiet-waiting_after j es b (prepare_query-IsQuiet d request result))
    ∙ start_effects-waiting j q state request b
        (λ (h : b ≡ true). ground (arith, is_queued-none request.id j m e))
    ∙ sym (
        is_queued-insert request.id j
          (record {
            peer = q;
            request = request;
            state = state;
            has_traverser = false;
            updates = [];
            pause_signal = false;
            update_signal = false;
            err_signal = none;
            link_system = result.link_system;
            chooser = result.chooser;
          })
          m)

pause_response-queued :
    (j id : ℕ) (m : Manager) → is_queued j m ≡ is_queued j (pause_response id m).0
unfolding pause_response
pause_response-queued j id m = elim (Option-cases (get? id m)) [
  | inl e ↦ ground arith
  | inr (r, e) ↦ ground (arith, is_queued-same id j r (record r { pause_signal = true }) m e refl)
]

get_updates-queued : (j id : ℕ) (m : Manager) → is_queued j m ≡ is_queued j (get_updates id m).0
unfolding get_updates
get_updates-queued j id m = elim (Option-cases (get? id m)) [
  | inl e ↦ ground arith
  | inr (r, e) ↦ ground (arith, is_queued-same id j r (record r { updates = [] }) m e refl)
]

update_request-waiting :
    (j id : ℕ) (es : List Extension) (m : Manager)
    → let o = update_request id es m in waiting_after j o.1 (is_queued j m) ≡ is_queued j o.0
unfolding update_request
update_request-waiting j id es m = ground arith

closed-waiting :
    (j id : ℕ) (m : Manager)
    → is_queued id m ≡ false
    → let o = terminate_request id m in waiting_after j o.1 (is_queued j m) ≡ is_queued j o.0
closed-waiting j id m h = elim (Bool-cases (id == j)) [
  | inl f ↦ ground (
    arith,
    terminate_request-waiting j id m (is_queued j m),
    terminate_request-is_queued j id m,
    (==_iff id j).0 f,
  )
  | inr f ↦
      ground (
        arith,
        terminate_request-waiting j id m (is_queued j m),
        terminate_request-is_queued j id m,
      )
]

-- After each message, the responses that are queued are those for which a task waits in the queue, if
-- a new request has an id that is not in use, a task that starts was taken from the queue, and no task
-- ends and no response is closed while it is queued.
pub handle-waiting :
    (d : Decoders) (c : Call) (m : Manager) (j : ℕ)
    → IsExpected c m
    → let o = handle d c m in waiting_after j o.1 (waiting_before c j m) ≡ is_queued j o.0
unfolding handle
handle-waiting d (new_call result q request) m j f = new_request-waiting d j q result request m f
handle-waiting d (update_call result id u) m j f = process_update-waiting j id (λ q r v. result) u m
handle-waiting d (abort_call id e) m j f = abort_request-waiting j id e m
handle-waiting d (unpause_call id es) m j f = unpause_request-waiting j id es m
handle-waiting d (pause_call id) m j f = pause_response-queued j id m
handle-waiting d (send_update_call id es) m j f = update_request-waiting j id es m
handle-waiting d (get_updates_call id) m j f = get_updates-queued j id m
handle-waiting d (start_call id q) m j f = start_task-waiting j id q m
handle-waiting d (finish_call id q e) m j f = finish_task-waiting j id q e m f
handle-waiting d (terminate_call id) m j f = closed-waiting j id m f
