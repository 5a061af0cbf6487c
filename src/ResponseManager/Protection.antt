-- ===== src/ResponseManager/Protection.antt =====
-- The connections that responsemanager/server.go protects against the responses in progress.
use go_graphsync.Base.{
  ℕ, ◌≡◌, refl, sym, ◌∙◌, Bool, true, false, ◌&&◌, List, [], ◌∷◌, ◌++◌, Option, none, some, arith,
  ◌==◌, if◌then◌else◌, Bool-cases, Option-cases, inl, inr, get?, insert, get?-insert, get?-delete,
  ==_iff,
}
use go_graphsync.Message.{Extension, Request}
use go_graphsync.ResponseManager.Hooks.{RequestResult, UpdateResult}
use go_graphsync.ResponseManager.Effects.{
  protected_after, protected_after-append, quiet-protected_after, prepare_query-IsQuiet,
  send_extensions-IsQuiet,
}
use go_graphsync.ResponseManager.{
  Manager, InProgress, Failure, TaskError, RequestState, queued, running, paused, completing_send,
  terminate_request, unpause_in, unpause_request, update_paused, process_update, abort_idle,
  abort_in, abort_request, new_request, start_in, start_task, finish_in, finish_task, get_updates,
  pause_response, update_request, context_cancelled, network_error, other_failure, send_extensions,
  notify_cancelled, signal, start_effects, start_state, prepare_query, Decoders, Call, new_call,
  update_call, abort_call, unpause_call, pause_call, send_update_call, get_updates_call, start_call,
  finish_call, terminate_call, handle,
}

-- Whether the request's response is in progress for the peer.
unfoldable pub owns : ℕ → ℕ → Manager → Bool
owns p id m = elim (get? id m) [ none ↦ false | some r ↦ r.peer == p ]

owns-insert :
    (p id j : ℕ) (r s : InProgress) (m : Manager)
    → get? id m ≡ some r
    → s.peer ≡ r.peer
    → owns p j (insert id s m) ≡ owns p j m
unfolding owns
owns-insert p id j r s m e h = elim (Bool-cases (id == j)) [
  | inl f ↦ ground (arith, get?-insert id j s m, (==_iff id j).0 f)
  | inr f ↦ ground (arith, get?-insert id j s m)
]

terminate_request-protected :
    (p j id : ℕ) (m : Manager)
    → let o = terminate_request id m in protected_after p j o.1 (owns p j m) ≡ owns p j o.0
unfolding terminate_request owns
terminate_request-protected p j id m = elim (Option-cases (get? id m)) [
  | inl e ↦ rw (e, terminate_request) refl
  | inr (r, e) ↦ ground (arith, get?-delete id j m)
]

send_extensions-protected :
    (p j id : ℕ) (es : List Extension) (b : Bool)
    → protected_after p j (send_extensions id es) b ≡ b
send_extensions-protected p j id es b =
    quiet-protected_after p j (send_extensions id es) b (send_extensions-IsQuiet id es)

unpause_request-protected :
    (p j id : ℕ) (es : List Extension) (m : Manager)
    → let o = unpause_request id es m in protected_after p j o.1 (owns p j m) ≡ owns p j o.0
unfolding unpause_request unpause_in
unpause_request-protected p j id [] m = elim (Option-cases (get? id m)) [
  | inl e ↦ ground arith
  | inr (r, e) ↦ ground (arith, owns-insert p id j r (record r { state = queued }) m e refl)
]
unpause_request-protected p j id (x ∷ es) m = elim (Option-cases (get? id m)) [
  | inl e ↦ ground arith
  | inr (r, e) ↦ ground (arith, owns-insert p id j r (record r { state = queued }) m e refl)
]

process_update-protected :
    (p j id : ℕ) (hooks : ℕ → Request → Request → UpdateResult) (u : Request) (m : Manager)
    → let o = process_update hooks id u m in protected_after p j o.1 (owns p j m) ≡ owns p j o.0
unfolding process_update update_paused
process_update-protected p j id hooks u m = elim (Option-cases (get? id m)) [
  | inl e ↦ ground arith
  | inr (r, e) ↦ ground (
    arith,
    unpause_request-protected p j id [] m,
    owns-insert p id j r (record r { state = completing_send }) m e refl,
    owns-insert p id j r (record r { updates = r.updates ++ u ∷ []; update_signal = true }) m e
        refl,
  )
]

abort_idle-protected :
    (p j id : ℕ) (f : Failure) (r : InProgress) (m : Manager)
    → get? id m ≡ some r
    → let o = abort_idle id f r m in protected_after p j o.1 (owns p j m) ≡ owns p j o.0
unfolding abort_idle
abort_idle-protected p j id context_cancelled r m e =
    let t = terminate_request id m in
    protected_after-append p j t.1 (notify_cancelled r.peer id ∷ []) (owns p j m)
    ∙ terminate_request-protected p j id m
abort_idle-protected p j id network_error r m e = terminate_request-protected p j id m
abort_idle-protected p j id (other_failure x) r m e =
    sym (owns-insert p id j r (record r { state = completing_send }) m e refl)

abort_request-protected :
    (p j id : ℕ) (f : Failure) (m : Manager)
    → let o = abort_request id f m in protected_after p j o.1 (owns p j m) ≡ owns p j o.0
unfolding abort_request abort_in abort_idle
abort_request-protected p j id f m = elim (Option-cases (get? id m)) [
  | inl e ↦ ground arith
  | inr (r, e) ↦ ground (
    arith,
    abort_idle-protected p j id f r m e,
    owns-insert p id j r (record r { err_signal = signal f r.err_signal }) m e refl,
  )
]

finish_task-protected :
    (p j id q : ℕ) (e : Option TaskError) (m : Manager)
    → let o = finish_task id q e m in protected_after p j o.1 (owns p j m) ≡ owns p j o.0
unfolding finish_task finish_in
finish_task-protected p j id q x m = elim (Option-cases (get? id m)) [
  | inl e ↦ ground arith
  | inr (r, e) ↦ ground (
    arith,
    terminate_request-protected p j id m,
    owns-insert p id j r (record r { state = completing_send }) m e refl,
    owns-insert p id j r (record r { state = paused }) m e refl,
  )
]

start_task-protected :
    (p j id q : ℕ) (m : Manager)
    → let o = start_task id q m in protected_after p j o.1 (owns p j m) ≡ owns p j o.0
unfolding start_task start_in
start_task-protected p j id q m = elim (Option-cases (get? id m)) [
  | inl e ↦ ground arith
  | inr (r, e) ↦
      ground
        (arith, owns-insert p id j r (record r { state = running; has_traverser = true }) m e refl)
]

-- A message that is no new request, or one whose id is not in use.
abbrev pub IsFresh : Call → Manager → Type 0
IsFresh (new_call result p request) m = get? request.id m ≡ none
IsFresh _ m = Unit

start_effects-protected :
    (p j q : ℕ) (s : RequestState) (request : Request) (b : Bool)
    → protected_after p j (start_effects s q request) b ≡ b
start_effects-protected p j q queued request b = refl
start_effects-protected p j q running request b = refl
start_effects-protected p j q paused request b = refl
start_effects-protected p j q completing_send request b = refl

owns-insert_new :
    (p id j : ℕ) (r : InProgress) (m : Manager)
    → get? id m ≡ none
    → (if (r.peer == p) && (id == j) then true else owns p j m) ≡ owns p j (insert id r m)
unfolding owns
owns-insert_new p id j r m e = elim (Bool-cases (id == j)) [
  | inl f ↦ ground (arith, get?-insert id j r m, (==_iff id j).0 f)
  | inr f ↦ ground (arith, get?-insert id j r m)
]

new_request-protected :
    (d : Decoders) (p j q : ℕ) (result : RequestResult) (request : Request) (m : Manager)
    → get? request.id m ≡ none
    → let o = new_request d result q request m in
      protected_after p j o.1 (owns p j m) ≡ owns p j o.0
unfolding new_request
new_request-protected d p j q result request m e =
    let es = (prepare_query d request result).1 in
    let state = start_state (prepare_query d request result).0 result in
    let b = if (q == p) && (request.id == j) then true else owns p j m in
    protected_after-append p j es (start_effects state q request) b
    ∙ start_effects-protected p j q state request (protected_after p j es b)
    ∙ quiet-protected_after p j es b (prepare_query-IsQuiet d request result)
    ∙ owns-insert_new p request.id j
        (record {
          peer = q;
          request = request;
          state = state;
          has_traverser = false;
          updates = [];
          pause_signal = false;
          update_signal = false;
          err_signal = none;
          link_system = result.link_system;
          chooser = result.chooser;
        })
        m e

pause_response-owns : (p j id : ℕ) (m : Manager) → owns p j m ≡ owns p j (pause_response id m).0
unfolding pause_response
pause_response-owns p j id m = elim (Option-cases (get? id m)) [
  | inl e ↦ ground arith
  | inr (r, e) ↦ ground (arith, owns-insert p id j r (record r { pause_signal = true }) m e refl)
]

get_updates-owns : (p j id : ℕ) (m : Manager) → owns p j m ≡ owns p j (get_updates id m).0
unfolding get_updates
get_updates-owns p j id m = elim (Option-cases (get? id m)) [
  | inl e ↦ ground arith
  | inr (r, e) ↦ ground (arith, owns-insert p id j r (record r { updates = [] }) m e refl)
]

update_request-protected :
    (p j id : ℕ) (es : List Extension) (m : Manager)
    → let o = update_request id es m in protected_after p j o.1 (owns p j m) ≡ owns p j o.0
unfolding update_request
update_request-protected p j id es m = ground arith

-- After each message, unless it is a new request with an id in use, the connections protected for
-- requests are those of the responses in progress: each to its own peer.
pub handle-protected :
    (d : Decoders) (c : Call) (m : Manager) (p j : ℕ)
    → IsFresh c m
    → let o = handle d c m in protected_after p j o.1 (owns p j m) ≡ owns p j o.0
unfolding handle
handle-protected d (new_call result q request) m p j f =
    new_request-protected d p j q result request m f
handle-protected d (update_call result id u) m p j f =
    process_update-protected p j id (λ q r v. result) u m
handle-protected d (abort_call id e) m p j f = abort_request-protected p j id e m
handle-protected d (unpause_call id es) m p j f = unpause_request-protected p j id es m
handle-protected d (pause_call id) m p j f = pause_response-owns p j id m
handle-protected d (send_update_call id es) m p j f = update_request-protected p j id es m
handle-protected d (get_updates_call id) m p j f = get_updates-owns p j id m
handle-protected d (start_call id q) m p j f = start_task-protected p j id q m
handle-protected d (finish_call id q e) m p j f = finish_task-protected p j id q e m
handle-protected d (terminate_call id) m p j f = terminate_request-protected p j id m
