-- ===== src/ResponseManager.antt =====
-- responsemanager/server.go and preparequery.go: the responses in progress, and what each message to
-- the manager's loop does to them. What a handler does outside of the manager (tasks pushed on the
-- queue, connections protected, transactions on a response's stream, listeners told) is a list of
-- effects, in order. A signal channel of one place is a field that is set or not. The results of the
-- hooks, and the decoding of the extensions' data, are parameters. Contexts and spans are left out, but
-- for the cancelling of a response's own context.
pub mod Hooks
pub mod Subscriber
pub mod NetworkErrors
mod Tests
pub mod Effects
pub mod Protection
pub mod Waiting
pub mod Completing
use go_graphsync.Base.{
  ℕ, Bool, true, false, not, ◌&&◌, List, [], ◌∷◌, ◌++◌, map, Option, none, some, ◌==◌,
  if◌then◌else◌, Map, get?, insert, delete, length,
}
use go_graphsync.Message.{Extension, Request, RequestType, new, cancel, update}
use go_graphsync.Assembler.{
  Action, send_extension_data, finish_with_error, pause_request, send_updates,
}
use go_graphsync.ResponseCode.{request_rejected, request_failed_unknown, request_cancelled}
use Hooks.{RequestResult, UpdateResult}

-- graphsync.RequestState
pub data RequestState : Type 0 where
  queued running paused completing_send : RequestState

-- The errors that end a task or abort a request: a cancelled context, ErrNetworkError, others.
pub data Failure : Type 0 where
  context_cancelled network_error : Failure
  other_failure : ℕ → Failure

pub data TaskError : Type 0 where
  err_paused : TaskError
  failed : Failure → TaskError

pub data Error : Type 0 where
  request_not_found already_paused not_paused : Error

pub data Effect : Type 0 where
  protect unprotect : ℕ → ℕ → Effect
  push_task : ℕ → ℕ → ℕ → Effect
  task_done remove_task : ℕ → ℕ → Effect
  transaction : ℕ → List Action → Effect
  clear_request : ℕ → Effect
  dedup_key : ℕ → ℕ → Effect
  ignore_blocks : ℕ → List ℕ → Effect
  skip_first_blocks : ℕ → ℕ → Effect
  notify_cancelled : ℕ → ℕ → Effect
  notify_processing : ℕ → ℕ → ℕ → Effect
  cancel_context : ℕ → Effect

-- `has_traverser` says whether there is a traverser.
pub record InProgress : Type 0 where
  pub peer : ℕ
  pub request : Request
  pub state : RequestState
  pub has_traverser : Bool
  pub updates : List Request
  pub pause_signal : Bool
  pub update_signal : Bool
  pub err_signal : Option Failure
  pub link_system : Option ℕ
  pub chooser : Option ℕ

abbrev pub Manager : Type 0
Manager = Map InProgress

-- The new manager, the effects, and the error returned.
abbrev pub Outcome : Type 0
Outcome = Manager × List Effect × Option Error

-- math.MaxInt32
abbrev pub max_priority : ℕ
max_priority = 2147483647

abbrev pub with_state : RequestState → InProgress → InProgress
with_state s r = record r { state = s }

abbrev pub prepend : List Effect → Outcome → Outcome
prepend es o = (o.0, es ++ o.1, o.2)

unfoldable pub terminate_request : ℕ → Manager → Outcome
terminate_request id m = elim (get? id m) [
  | none ↦ (m, [], none)
  | some r ↦ (delete id m, unprotect r.peer id ∷ cancel_context id ∷ [], none)
]

abbrev pub send_extensions : ℕ → List Extension → List Effect
send_extensions id [] = []
send_extensions id (e ∷ es) = transaction id (map send_extension_data (e ∷ es)) ∷ []

-- unpauseRequest for a response in progress.
unfoldable pub unpause_in : ℕ → List Extension → InProgress → Manager → Outcome
unpause_in id es r m = elim r.state [
  | paused ↦ (
    insert id (with_state queued r) m,
    send_extensions id es ++ push_task r.peer id max_priority ∷ [],
    none,
  )
  | queued ↦ (m, [], some not_paused)
  | running ↦ (m, [], some not_paused)
  | completing_send ↦ (m, [], some not_paused)
]

unfoldable pub unpause_request : ℕ → List Extension → Manager → Outcome
unfolding unpause_in
unpause_request id es m = elim (get? id m) [
  | none ↦ (m, [], some request_not_found)
  | some r ↦ unpause_in id es r m
]

abbrev pub error_action : Option ℕ → List Action
error_action none = []
error_action (some _) = finish_with_error request_failed_unknown ∷ []

-- processUpdate for a response that is paused, with the result of the hooks.
unfoldable pub update_paused : ℕ → UpdateResult → InProgress → Manager → Outcome
unfolding unpause_request
update_paused id result r m =
    let sent =
      transaction id (map send_extension_data result.extensions ++ error_action result.err) in
    elim result.err [
      | some e ↦ (insert id (with_state completing_send r) m, sent ∷ [], none)
      | none ↦ elim result.unpause [
        | true ↦ ((unpause_request id [] m).0, sent ∷ (unpause_request id [] m).1, none)
        | false ↦ (m, sent ∷ [], none)
      ]
    ]

abbrev pub add_update : Request → InProgress → InProgress
add_update u r = record r { updates = r.updates ++ u ∷ []; update_signal = true }

unfoldable pub process_update :
    (ℕ → Request → Request → UpdateResult) → ℕ → Request → Manager → Outcome
unfolding update_paused
process_update hooks id u m = elim (get? id m) [
  | none ↦ (m, [], none)
  | some r ↦ elim r.state [
    | completing_send ↦ (m, [], none)
    | paused ↦ update_paused id (hooks r.peer r.request u) r m
    | queued ↦ (insert id (add_update u r) m, [], none)
    | running ↦ (insert id (add_update u r) m, [], none)
  ]
]

-- abortRequest for a response that neither runs nor completes.
unfoldable pub abort_idle : ℕ → Failure → InProgress → Manager → Outcome
unfolding terminate_request
abort_idle id context_cancelled r m = (
  (terminate_request id m).0,
  clear_request id ∷ (terminate_request id m).1 ++ notify_cancelled r.peer id ∷ [],
  none,
)
abort_idle id network_error r m =
    ((terminate_request id m).0, clear_request id ∷ (terminate_request id m).1, none)
abort_idle id (other_failure e) r m = (
  insert id (with_state completing_send r) m,
  transaction id (finish_with_error request_cancelled ∷ []) ∷ [],
  none,
)

-- A send to a channel of one place that may be full.
abbrev pub signal : Failure → Option Failure → Option Failure
signal e none = some e
signal e (some d) = some d

unfoldable pub abort_in : ℕ → Failure → InProgress → Manager → Outcome
unfolding abort_idle
abort_in id e r m = elim r.state [
  | completing_send ↦ (m, [], some request_not_found)
  | running ↦ (insert id (record r { err_signal = signal e r.err_signal }) m, [], none)
  | queued ↦ abort_idle id e r m
  | paused ↦ abort_idle id e r m
]

unfoldable pub abort_request : ℕ → Failure → Manager → Outcome
unfolding abort_in
abort_request id e m = elim (get? id m) [
  | none ↦ (m, [], some request_not_found)
  | some r ↦ prepend (remove_task id r.peer ∷ []) (abort_in id e r m)
]

-- A step of prepareQuery: whether it went well, and its effects.
abbrev pub Step : Type 0
Step = Bool × List Effect

abbrev pub and_then : Step → Step → Step
and_then (true, es) t = (t.0, es ++ t.1)
and_then (false, es) t = (false, es)

abbrev pub refuse : ℕ → Step
refuse id = (false, transaction id (finish_with_error request_failed_unknown ∷ []) ∷ [])

-- The extensions' names.
abbrev pub dedup_by_key : ℕ
dedup_by_key = 1

abbrev pub do_not_send_cids : ℕ
do_not_send_cids = 2

abbrev pub do_not_send_first_blocks : ℕ
do_not_send_first_blocks = 3

-- cidset, dedupkey and donotsendfirstblocks: `none` is an error.
pub record Decoders : Type 0 where
  pub key : ℕ → Option ℕ
  pub cids : ℕ → Option (List ℕ)
  pub count : ℕ → Option ℕ

-- One of the steps of prepareQuery that read an extension.
unfoldable pub process_extension {ℓ} :
    {A : Type ℓ} → ℕ → (ℕ → Option A) → (A → Effect) → Option ℕ → Step
process_extension id decode use_value none = (true, [])
process_extension id decode use_value (some d) = elim (decode d) [
  | none ↦ refuse id
  | some a ↦ (true, use_value a ∷ [])
]

-- The actions of prepareQuery's transaction behind the extensions, and whether it gives an error.
unfoldable pub decide : RequestResult → Bool × List Action
decide result = elim result.err [
  | some e ↦ (false, finish_with_error request_failed_unknown ∷ [])
  | none ↦ elim result.is_validated [
    | false ↦ (false, finish_with_error request_rejected ∷ [])
    | true ↦ (true, if result.is_paused then pause_request ∷ [] else [])
  ]
]

unfoldable pub prepare_query : Decoders → Request → RequestResult → Step
unfolding process_extension decide
prepare_query d request result =
    let id = request.id in
    let (fine, actions) = decide result in
    and_then (fine, transaction id (map send_extension_data result.extensions ++ actions) ∷ [])
      (and_then (process_extension id d.key (dedup_key id) (get? dedup_by_key request.extensions)) (
        and_then
          (process_extension id d.cids (ignore_blocks id)
            (get? do_not_send_cids request.extensions))
          (process_extension id d.count (skip_first_blocks id)
            (get? do_not_send_first_blocks request.extensions))))

-- The state of a new response, and its task.
unfoldable pub start_state : Bool → RequestResult → RequestState
start_state fine result =
    if fine then if result.is_paused then paused else queued else completing_send

abbrev pub start_effects : RequestState → ℕ → Request → List Effect
start_effects queued p request = push_task p request.id request.priority ∷ []
start_effects _ p request = []

unfoldable pub new_request : Decoders → RequestResult → ℕ → Request → Manager → Outcome
unfolding prepare_query start_state
new_request d result p request m =
    let (fine, es) = prepare_query d request result in
    let s = start_state fine result in
    (
      insert request.id
          (record {
            peer = p;
            request = request;
            state = s;
            has_traverser = false;
            updates = [];
            pause_signal = false;
            update_signal = false;
            err_signal = none;
            link_system = result.link_system;
            chooser = result.chooser;
          })
          m,
      protect p request.id ∷ es ++ start_effects s p request,
      none,
    )

-- taskDataForKey for a response in progress; the Boolean says whether there is a task to run.
unfoldable pub start_in : ℕ → InProgress → Manager → Manager × List Effect × Bool
start_in id r m = elim r.state [
  | completing_send ↦ (m, [], false)
  | _ ↦ (
    insert id (record r { state = running; has_traverser = true }) m,
    (if r.has_traverser then [] else notify_processing r.peer id (length m) ∷ []),
    true,
  )
]

unfoldable pub start_task : ℕ → ℕ → Manager → Manager × List Effect × Bool
unfolding start_in
start_task id p m = elim (get? id m) [
  | none ↦ (m, task_done p id ∷ [], false)
  | some r ↦ let o = start_in id r m in (o.0, o.1 ++ (if o.2 then [] else task_done p id ∷ []), o.2)
]

unfoldable pub finish_in : ℕ → ℕ → Option TaskError → InProgress → Manager → Outcome
unfolding terminate_request
finish_in id p none r m = (insert id (with_state completing_send r) m, [], none)
finish_in id p (some err_paused) r m = (insert id (with_state paused r) m, [], none)
finish_in id p (some (failed context_cancelled)) r m =
    prepend (notify_cancelled p id ∷ []) (terminate_request id m)
finish_in id p (some (failed network_error)) r m = terminate_request id m
finish_in id p (some (failed (other_failure e))) r m =
    (insert id (with_state completing_send r) m, [], none)

unfoldable pub finish_task : ℕ → ℕ → Option TaskError → Manager → Outcome
unfolding finish_in
finish_task id p e m = elim (get? id m) [
  | none ↦ (m, task_done p id ∷ [], none)
  | some r ↦ prepend (task_done p id ∷ []) (finish_in id p e r m)
]

unfoldable pub get_updates : ℕ → Manager → Manager × List Request
get_updates id m = elim (get? id m) [
  | none ↦ (m, [])
  | some r ↦ (insert id (record r { updates = [] }) m, r.updates)
]

unfoldable pub pause_response : ℕ → Manager → Outcome
pause_response id m = elim (get? id m) [
  | none ↦ (m, [], some request_not_found)
  | some r ↦ elim r.state [
    | completing_send ↦ (m, [], some request_not_found)
    | paused ↦ (m, [], some already_paused)
    | queued ↦ (insert id (record r { pause_signal = true }) m, [], none)
    | running ↦ (insert id (record r { pause_signal = true }) m, [], none)
  ]
]

unfoldable pub update_request : ℕ → List Extension → Manager → Outcome
update_request id es m = elim (get? id m) [
  | none ↦ (m, [], some request_not_found)
  | some r ↦ (m, transaction id (send_updates es ∷ []) ∷ [], none)
]

-- The messages that the loop of the manager takes; the requests of a processRequestsMessage are taken
-- one by one, each with the result of its hooks.
pub data Call : Type 0 where
  new_call : RequestResult → ℕ → Request → Call
  update_call : UpdateResult → ℕ → Request → Call
  abort_call : ℕ → Failure → Call
  unpause_call : ℕ → List Extension → Call
  pause_call : ℕ → Call
  send_update_call : ℕ → List Extension → Call
  get_updates_call : ℕ → Call
  start_call : ℕ → ℕ → Call
  finish_call : ℕ → ℕ → Option TaskError → Call
  terminate_call : ℕ → Call

unfoldable pub handle : Decoders → Call → Manager → Manager × List Effect
unfolding new_request process_update abort_request unpause_request pause_response update_request
    get_updates start_task finish_task terminate_request
handle d (new_call result p request) m = let o = new_request d result p request m in (o.0, o.1)
handle d (update_call result id u) m = let o = process_update (λ p r v. result) id u m in (o.0, o.1)
handle d (abort_call id e) m = let o = abort_request id e m in (o.0, o.1)
handle d (unpause_call id es) m = let o = unpause_request id es m in (o.0, o.1)
handle d (pause_call id) m = ((pause_response id m).0, [])
handle d (send_update_call id es) m = let o = update_request id es m in (o.0, o.1)
handle d (get_updates_call id) m = ((get_updates id m).0, [])
handle d (start_call id p) m = let o = start_task id p m in (o.0, o.1)
handle d (finish_call id p e) m = let o = finish_task id p e m in (o.0, o.1)
handle d (terminate_call id) m = let o = terminate_request id m in (o.0, o.1)

-- One request of processRequests.
unfoldable pub process_request :
    Decoders
    → (ℕ → Request → RequestResult)
    → (ℕ → Request → Request → UpdateResult)
    → ℕ
    → Request
    → Manager
    → Outcome
unfolding new_request process_update abort_request
process_request d request_hooks update_hooks p request m = elim request.kind [
  | cancel ↦ abort_request request.id context_cancelled m
  | update ↦ process_update update_hooks request.id request m
  | new ↦ new_request d (request_hooks p request) p request m
]

unfoldable pub process_requests :
    Decoders
    → (ℕ → Request → RequestResult)
    → (ℕ → Request → Request → UpdateResult)
    → ℕ
    → List Request
    → Manager
    → Manager × List Effect
unfolding process_request
process_requests d request_hooks update_hooks p [] m = (m, [])
process_requests d request_hooks update_hooks p (r ∷ rs) m =
    let o = process_request d request_hooks update_hooks p r m in
    let rest = process_requests d request_hooks update_hooks p rs o.0 in (rest.0, o.1 ++ rest.1)
