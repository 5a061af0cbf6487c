-- ===== src/ResponseManager/Completing.antt =====
-- Responses of responsemanager/server.go that have sent all they have to say, and wait for it to go
-- over the network.
use go_graphsync.Base.{
  ℕ, ◌+◌, ◌≡◌, refl, ◌∙◌, Bool, true, false, List, [], ◌∷◌, ◌++◌, Option, none, some, arith, ◌==◌,
  if◌then◌else◌, All, Bool-cases, Option-cases, inl, inr, get?, insert, delete, get?-insert,
  get?-delete, ==_iff,
}
use go_graphsync.Message.{Extension, Request}
use go_graphsync.ResponseManager.Hooks.{RequestResult, UpdateResult}
use go_graphsync.ResponseManager.Effects.{transactions, prepare_query-All}
use go_graphsync.ResponseManager.{
  Manager, InProgress, Effect, protect, Failure, TaskError, RequestState, queued, running, paused,
  completing_send, terminate_request, unpause_in, unpause_request, update_paused, process_update,
  abort_idle, abort_in, abort_request, new_request, start_in, start_task, finish_in, finish_task,
  get_updates, pause_response, update_request, context_cancelled, network_error, other_failure,
  notify_cancelled, signal, transaction, start_effects, start_state, prepare_query, Decoders, Call,
  new_call, update_call, abort_call, unpause_call, pause_call, send_update_call, get_updates_call,
  start_call, finish_call, terminate_call, handle,
}

unfoldable pub state_of : ℕ → Manager → Option RequestState
state_of id m = elim (get? id m) [ none ↦ none | some r ↦ some r.state ]

state_of-insert :
    (k id : ℕ) (s : InProgress) (m : Manager)
    → state_of id (insert k s m) ≡ (if k == id then some s.state else state_of id m)
unfolding state_of
state_of-insert k id s m = ground (arith, get?-insert k id s m)

state_of-delete :
    (k id : ℕ) (m : Manager) → state_of id (delete k m) ≡ (if k == id then none else state_of id m)
unfolding state_of
state_of-delete k id m = ground (arith, get?-delete k id m)

state_of-some :
    (k id : ℕ) (r : InProgress) (m : Manager)
    → get? k m ≡ some r
    → (k == id) ≡ true
    → state_of id m ≡ some r.state
unfolding state_of
state_of-some k id r m e f = ground (arith, (==_iff k id).0 f)

-- The messages that are let write to the request's stream, or replace its response: a new request of
-- the same id, the end of a task of it, and an update that the application sends.
abbrev pub may_write : ℕ → Call → Bool
may_write id (new_call result p request) = request.id == id
may_write id (finish_call k p e) = k == id
may_write id (send_update_call k es) = k == id
may_write id _ = false

abbrev pub closes : ℕ → Call → Bool
closes id (terminate_call k) = k == id
closes id _ = false

transactions-append :
    (id : ℕ) (es fs : List Effect)
    → transactions id (es ++ fs) ≡ transactions id es + transactions id fs
transactions-append id [] fs = omega arith
transactions-append id (transaction k acts ∷ es) fs = omega (arith, transactions-append id es fs)
transactions-append id (_ ∷ es) fs = transactions-append id es fs

-- What is asked of a handler's outcome.
abbrev Still : ℕ → Manager → List Effect → Type 0
Still id m es = (transactions id es ≡ 0) × (state_of id m ≡ some completing_send)

terminate_request-transactions :
    (id k : ℕ) (m : Manager) → transactions id (terminate_request k m).1 ≡ 0
unfolding terminate_request
terminate_request-transactions id k m = elim (Option-cases (get? k m)) [
  | inl e ↦ ground arith
  | inr (r, e) ↦ ground arith
]

terminate_request-state_of :
    (id k : ℕ) (m : Manager)
    → state_of id (terminate_request k m).0 ≡ (if k == id then none else state_of id m)
unfolding terminate_request
terminate_request-state_of id k m = elim (Option-cases (get? k m)) [
  | inl e ↦ elim (Bool-cases (k == id)) [
    | inl f ↦ unfold state_of in ground (arith, (==_iff k id).0 f)
    | inr f ↦ ground arith
  ]
  | inr (r, e) ↦ ground (arith, state_of-delete k id m)
]

unpause_request-Still :
    (id k : ℕ) (es : List Extension) (m : Manager)
    → state_of id m ≡ some completing_send
    → let o = unpause_request k es m in Still id o.0 o.1
unfolding unpause_request unpause_in
unpause_request-Still id k [] m s = elim (Option-cases (get? k m)) [
  | inl e ↦ ground arith
  | inr (r, e) ↦
      ground (arith, state_of-some k id r m e, state_of-insert k id (record r { state = queued }) m)
]
unpause_request-Still id k (x ∷ es) m s = elim (Option-cases (get? k m)) [
  | inl e ↦ ground arith
  | inr (r, e) ↦
      ground (arith, state_of-some k id r m e, state_of-insert k id (record r { state = queued }) m)
]

process_update-Still :
    (id k : ℕ) (hooks : ℕ → Request → Request → UpdateResult) (u : Request) (m : Manager)
    → state_of id m ≡ some completing_send
    → let o = process_update hooks k u m in Still id o.0 o.1
unfolding process_update update_paused
process_update-Still id k hooks u m s = elim (Option-cases (get? k m)) [
  | inl e ↦ ground arith
  | inr (r, e) ↦ ground (
    arith,
    unpause_request-Still id k [] m s,
    state_of-some k id r m e,
    state_of-insert k id (record r { state = completing_send }) m,
    state_of-insert k id (record r { updates = r.updates ++ u ∷ []; update_signal = true }) m,
  )
]

abort_idle-Still :
    (id k : ℕ) (f : Failure) (r : InProgress) (m : Manager)
    → (k == id) ≡ false
    → state_of id m ≡ some completing_send
    → let o = abort_idle k f r m in Still id o.0 o.1
unfolding abort_idle
abort_idle-Still id k context_cancelled r m h s = ground (
  arith,
  transactions-append id (terminate_request k m).1 (notify_cancelled r.peer k ∷ []),
  terminate_request-transactions id k m,
  terminate_request-state_of id k m,
)
abort_idle-Still id k network_error r m h s =
    ground (arith, terminate_request-transactions id k m, terminate_request-state_of id k m)
abort_idle-Still id k (other_failure x) r m h s =
    ground (arith, state_of-insert k id (record r { state = completing_send }) m)

abort_request-Still :
    (id k : ℕ) (f : Failure) (m : Manager)
    → state_of id m ≡ some completing_send
    → let o = abort_request k f m in Still id o.0 o.1
unfolding abort_request abort_in
abort_request-Still id k f m s = elim (Option-cases (get? k m)) [
  | inl e ↦ ground arith
  | inr (r, e) ↦ elim (Bool-cases (k == id)) [
    | inl h ↦ ground (arith, state_of-some k id r m e h)
    | inr h ↦ ground (
      arith,
      abort_idle-Still id k f r m h s,
      state_of-insert k id (record r { err_signal = signal f r.err_signal }) m,
    )
  ]
]

finish_task-Still :
    (id k q : ℕ) (x : Option TaskError) (m : Manager)
    → (k == id) ≡ false
    → state_of id m ≡ some completing_send
    → let o = finish_task k q x m in Still id o.0 o.1
unfolding finish_task finish_in
finish_task-Still id k q x m h s = elim (Option-cases (get? k m)) [
  | inl e ↦ ground arith
  | inr (r, e) ↦ ground (
    arith,
    terminate_request-transactions id k m,
    terminate_request-state_of id k m,
    state_of-insert k id (record r { state = completing_send }) m,
    state_of-insert k id (record r { state = paused }) m,
  )
]

start_task-Still :
    (id k q : ℕ) (m : Manager)
    → state_of id m ≡ some completing_send
    → let o = start_task k q m in Still id o.0 o.1
unfolding start_task start_in
start_task-Still id k q m s = elim (Option-cases (get? k m)) [
  | inl e ↦ ground arith
  | inr (r, e) ↦ ground (
    arith,
    state_of-some k id r m e,
    state_of-insert k id (record r { state = running; has_traverser = true }) m,
  )
]

pause_response-state_of :
    (id k : ℕ) (m : Manager) → state_of id (pause_response k m).0 ≡ state_of id m
unfolding pause_response
pause_response-state_of id k m = elim (Option-cases (get? k m)) [
  | inl e ↦ ground arith
  | inr (r, e) ↦
      ground
        (arith, state_of-some k id r m e, state_of-insert k id (record r { pause_signal = true }) m)
]

get_updates-state_of : (id k : ℕ) (m : Manager) → state_of id (get_updates k m).0 ≡ state_of id m
unfolding get_updates
get_updates-state_of id k m = elim (Option-cases (get? k m)) [
  | inl e ↦ ground arith
  | inr (r, e) ↦
      ground (arith, state_of-some k id r m e, state_of-insert k id (record r { updates = [] }) m)
]

update_request-Still :
    (id k : ℕ) (es : List Extension) (m : Manager)
    → (k == id) ≡ false
    → state_of id m ≡ some completing_send
    → let o = update_request k es m in Still id o.0 o.1
unfolding update_request
update_request-Still id k es m h s = ground arith

-- Transactions are only on the stream of request `k`.
abbrev IsOf : ℕ → Effect → Type 0
IsOf k (transaction i acts) = i ≡ k
IsOf k _ = Unit

IsOf-transactions :
    (k id : ℕ) (es : List Effect) → (k == id) ≡ false → All (IsOf k) es → transactions id es ≡ 0
IsOf-transactions k id [] h q = refl
IsOf-transactions k id (transaction i acts ∷ es) h q =
    ground (arith, IsOf-transactions k id es h q.1)
IsOf-transactions k id (protect _ _ ∷ es) h q = IsOf-transactions k id es h q.1
IsOf-transactions k id (_ ∷ es) h q = IsOf-transactions k id es h q.1

start_effects-transactions :
    (id q : ℕ) (s : RequestState) (request : Request)
    → transactions id (start_effects s q request) ≡ 0
start_effects-transactions id q queued request = refl
start_effects-transactions id q running request = refl
start_effects-transactions id q paused request = refl
start_effects-transactions id q completing_send request = refl

new_request-Still :
    (d : Decoders) (id q : ℕ) (result : RequestResult) (request : Request) (m : Manager)
    → (request.id == id) ≡ false
    → state_of id m ≡ some completing_send
    → let o = new_request d result q request m in Still id o.0 o.1
unfolding new_request
new_request-Still d id q result request m h s =
    let es = (prepare_query d request result).1 in
    let state = start_state (prepare_query d request result).0 result in
    let none_here : transactions id es ≡ 0 = IsOf-transactions request.id id es h (
      prepare_query-All (IsOf request.id) d request result (λ acts. refl) (λ k. tt) (λ l. tt)
        (λ n. tt)) in
    let new_one : InProgress = record {
      peer = q;
      request = request;
      state = state;
      has_traverser = false;
      updates = [];
      pause_signal = false;
      update_signal = false;
      err_signal = none;
      link_system = result.link_system;
      chooser = result.chooser;
    } in
    (
      transactions-append id es (start_effects state q request)
          ∙ omega (arith, none_here, start_effects-transactions id q state request),
      state_of-insert request.id id new_one m ∙ rw h s,
    )

-- A message to the manager, unless it is a new request with the response's id, the end of its task or an
-- update that the application sends to it, begins no transaction on the stream of a response in
-- CompletingSend; and the response is still there in CompletingSend after it, or, where the message
-- terminates it, no longer there.
pub handle-completing :
    (d : Decoders) (c : Call) (m : Manager) (id : ℕ)
    → state_of id m ≡ some completing_send
    → may_write id c ≡ false
    → let o = handle d c m in
      (transactions id o.1 ≡ 0)
      × (state_of id o.0 ≡ (if closes id c then none else some completing_send))
unfolding handle
handle-completing d (new_call result q request) m id s f =
    new_request-Still d id q result request m f s
handle-completing d (update_call result k u) m id s f =
    process_update-Still id k (λ q r v. result) u m s
handle-completing d (abort_call k e) m id s f = abort_request-Still id k e m s
handle-completing d (unpause_call k es) m id s f = unpause_request-Still id k es m s
handle-completing d (pause_call k) m id s f = (refl, pause_response-state_of id k m ∙ s)
handle-completing d (send_update_call k es) m id s f = update_request-Still id k es m f s
handle-completing d (get_updates_call k) m id s f = (refl, get_updates-state_of id k m ∙ s)
handle-completing d (start_call k q) m id s f = start_task-Still id k q m s
handle-completing d (finish_call k q e) m id s f = finish_task-Still id k q e m f s
handle-completing d (terminate_call k) m id s f =
    (terminate_request-transactions id k m, ground (arith, terminate_request-state_of id k m))
