-- ===== src/RequestManager.antt =====
-- requestmanager/server.go and messages.go: the requests in progress, and what each message to the
-- manager's loop does to them. What a handler does outside of the manager (requests sent, tasks pushed,
-- connections protected, calls of a request's loader and traverser, answers on channels) is a list of
-- effects, in order; a channel of a request is named by the request's id. A request's traverser and its
-- loader are made together, so one field says whether they are there. The hooks' results, the checks of
-- a selector and the encoding of a key are parameters. The manager's own context is taken to be alive;
-- contexts otherwise, spans and the time of a request are left out.
pub mod Hooks
pub mod Validity
pub mod About
pub mod Untouched
pub mod Responding
pub mod Loop
pub mod Channels
pub mod Orderly
mod Tests
use go_graphsync.Base.{
  ℕ, Bool, true, false, not, ◌&&◌, List, [], ◌∷◌, ◌++◌, map, Option, none, some, ◌==◌,
  if◌then◌else◌, Map, get?, insert, delete, length,
}
use go_graphsync.Message.{
  Block, Extension, Metadatum, Request, Response, new_request, new_cancel_request,
  new_update_request, new_response, replace_extensions,
}
use go_graphsync.ResponseCode.{StatusError, is_terminal, is_failure, as_error}
use go_graphsync.ResponseManager.{
  RequestState, queued, running, paused, completing_send, max_priority, dedup_by_key,
  do_not_send_first_blocks,
}
use Hooks.{RequestResult, ResponseResult}

pub data Error : Type 0 where
  request_not_found not_paused already_paused client_cancelled : Error
  no_cid unknown_persistence_option bad_extension : Error
  invalid_selector hook_error : ℕ → Error
  status_error : StatusError → Error

pub data Effect : Type 0 where
  send_request : ℕ → Request → Effect
  protect unprotect : ℕ → ℕ → Effect
  push_task : ℕ → ℕ → ℕ → Effect
  task_done : ℕ → ℕ → Effect
  notify_processing : ℕ → ℕ → ℕ → Effect
  cancel_context : ℕ → Effect
  send_error : ℕ → Error → Effect
  close_channels : ℕ → Effect
  answer : ℕ → Option Error → Effect
  loader_online : ℕ → Bool → Effect
  loader_ingest : ℕ → List Metadatum → List Block → Effect
  loader_cleanup : ℕ → Effect
  traverser_shutdown : ℕ → Effect
  give_request : ℕ → Option Error → Effect
  give_task : ℕ → Bool → Effect
  released : ℕ → Effect

pub record InProgress : Type 0 where
  pub peer : ℕ
  pub request : Request
  pub state : RequestState
  pub terminal_error : Option Error
  pub pause_message : Bool
  pub on_terminated : List ℕ
  pub last_response : Response
  pub skip_first : ℕ
  pub link_system : ℕ
  pub chooser : Option ℕ
  pub has_traverser : Bool

abbrev pub Manager : Type 0
Manager = Map InProgress

abbrev pub Outcome : Type 0
Outcome = Manager × List Effect

abbrev pub prepend : List Effect → Outcome → Outcome
prepend es o = (o.0, es ++ o.1)

-- graphsync.RequestAcknowledged
abbrev pub request_acknowledged : ℕ
request_acknowledged = 10

-- What validateRequest relies on: ParseSelector and the encoding of a selector, which gives an error
-- or none, the encoding of a dedup key and the link systems by name.
pub record Checks : Type 0 where
  pub selector_error : ℕ → Option ℕ
  pub encode_key : ℕ → Option ℕ
  pub link_system : ℕ → Option ℕ
  pub count : ℕ → Option ℕ

pub data Validated : Type 0 where
  invalid : Error → Validated
  valid : Request → ℕ → Validated

-- validateRequest behind its checks: the request, as the hooks want it, with its link system.
unfoldable pub with_option : Checks → ℕ → Option ℕ → Request → Validated
with_option c default none request = valid request default
with_option c default (some name) request = elim (c.encode_key name) [
  | none ↦ invalid bad_extension
  | some key ↦ elim (c.link_system name) [
    | none ↦ invalid unknown_persistence_option
    | some l ↦
        valid (replace_extensions (record { name = dedup_by_key; node = key } ∷ []) request) l
  ]
]

-- The priority is the default, 0; the root is `none` for a link that has no cid.
unfoldable pub validate_request :
    Checks → ℕ → ℕ → Option ℕ → ℕ → List Extension → (Request → RequestResult) → Validated
unfolding with_option
validate_request c default id root selector es hooks = elim (c.selector_error selector) [
  | some e ↦ invalid (invalid_selector e)
  | none ↦ elim root [
    | none ↦ invalid no_cid
    | some r ↦
        let request = new_request id r selector 0 es in
        with_option c default (hooks request).persistence_option request
  ]
]

-- The number of the extension that asks to leave out the first blocks; `none` is an error.
unfoldable pub skip_count : Checks → Request → Option ℕ
skip_count c request = elim (get? do_not_send_first_blocks request.extensions) [
  | none ↦ some 0
  | some d ↦ c.count d
]

unfoldable pub add_request : ℕ → Request → ℕ → ℕ → Option ℕ → Manager → Outcome
add_request p request skip l chooser m = (
  insert request.id
      (record {
        peer = p;
        request = request;
        state = queued;
        terminal_error = none;
        pause_message = false;
        on_terminated = [];
        last_response = new_response request.id request_acknowledged [] [];
        skip_first = skip;
        link_system = l;
        chooser = chooser;
        has_traverser = false;
      })
      m,
  protect p request.id ∷ push_task p request.id max_priority ∷ [],
)

-- The error is that of the channel that the caller gets in place of the request's own.
unfoldable pub start_request :
    Checks
    → ℕ
    → ℕ
    → ℕ
    → Option ℕ
    → ℕ
    → List Extension
    → (Request → RequestResult)
    → Manager
    → Outcome × Option Error
unfolding validate_request skip_count add_request
start_request c default id p root selector es hooks m =
    elim (validate_request c default id root selector es hooks) [
      | invalid e ↦ ((m, []), some e)
      | valid request l ↦ elim (skip_count c request) [
        | none ↦ ((m, []), some bad_extension)
        | some n ↦ (add_request p request n l (hooks request).chooser m, none)
      ]
    ]

-- requestTask and getRequestTask; the Boolean says whether there is a task to run.
unfoldable pub get_request_task : ℕ → ℕ → Manager → Outcome × Bool
get_request_task id p m = elim (get? id m) [
  | none ↦ ((m, task_done p id ∷ []), false)
  | some r ↦ (
    (
      insert id (record r { state = running; has_traverser = true }) m,
      if r.has_traverser then [] else notify_processing r.peer id (length m) ∷ [],
    ),
    true,
  )
]

abbrev pub error_effects : ℕ → Option Error → List Effect
error_effects id none = []
error_effects id (some e) = send_error id e ∷ []

unfoldable pub terminate_request : ℕ → InProgress → Manager → Outcome
terminate_request id r m = (
  delete id m,
  error_effects id r.terminal_error
      ++ unprotect r.peer id
        ∷ cancel_context id
        ∷ (if r.has_traverser then loader_cleanup id ∷ traverser_shutdown id ∷ [] else [])
      ++ close_channels id ∷ map (λ c. answer c none) r.on_terminated,
)

pub data TaskError : Type 0 where
  err_paused : TaskError
  task_failed : Error → TaskError

unfoldable pub release_request_task : ℕ → ℕ → Option TaskError → Manager → Outcome
unfolding terminate_request
release_request_task id p e m = elim (get? id m) [
  | none ↦ (m, task_done p id ∷ [])
  | some r ↦ prepend (task_done p id ∷ []) (elim e [
    | none ↦ terminate_request id r m
    | some x ↦ elim x [
      | err_paused ↦ (insert id (record r { state = paused }) m, [])
      | task_failed f ↦ terminate_request id r m
    ]
  ])
]

-- The first terminal error stays.
abbrev pub first_error : Option Error → Option Error → Option Error
first_error none e = e
first_error (some d) e = some d

-- `none` is the fault of a request that runs without a loader.
unfoldable pub cancel_on_error : ℕ → Option Error → InProgress → Manager → Option Outcome
unfolding terminate_request
cancel_on_error id e r m =
    let s = record r { terminal_error = first_error r.terminal_error e } in
    elim r.state [
      | running ↦ elim r.has_traverser [
        | true ↦ some (insert id s m, cancel_context id ∷ loader_online id false ∷ [])
        | false ↦ none
      ]
      | queued ↦ some (terminate_request id s m)
      | paused ↦ some (terminate_request id s m)
      | completing_send ↦ some (terminate_request id s m)
    ]

abbrev pub prepend_some : List Effect → Option Outcome → Option Outcome
prepend_some es none = none
prepend_some es (some o) = some (prepend es o)

abbrev pub add_channel : Option ℕ → InProgress → InProgress
add_channel none r = r
add_channel (some c) r = record r { on_terminated = r.on_terminated ++ c ∷ [] }

abbrev pub refuse : Option ℕ → List Effect
refuse none = []
refuse (some c) = answer c (some request_not_found) ∷ []

unfoldable pub cancel_request : ℕ → Option ℕ → Option Error → Manager → Option Outcome
unfolding cancel_on_error
cancel_request id channel e m = elim (get? id m) [
  | none ↦ some (m, refuse channel)
  | some r ↦
      prepend_some (send_request r.peer (new_cancel_request id) ∷ [])
        (cancel_on_error id e (add_channel channel r) m)
]

-- Updating the requests for what a handler says about one of them.
abbrev pub and_then : Option Outcome → (Manager → Option Outcome) → Option Outcome
and_then none f = none
and_then (some o) f = prepend_some o.1 (f o.0)

abbrev pub extension_effects : ℕ → ℕ → List Extension → List Effect
extension_effects p id [] = []
extension_effects p id (e ∷ es) = send_request p (new_update_request id (e ∷ es)) ∷ []

-- processExtensionsForResponse, with the result of the hooks.
unfoldable pub process_extensions_for : ℕ → Response → ResponseResult → Manager → Option Outcome
unfolding cancel_on_error
process_extensions_for p response result m =
    let id = response.request_id in
    prepend_some (extension_effects p id result.extensions) (elim result.err [
      | none ↦ some (m, [])
      | some e ↦ elim (get? id m) [
        | none ↦ some (m, [])
        | some r ↦
            prepend_some (send_request r.peer (new_cancel_request id) ∷ [])
              (cancel_on_error id (some (hook_error e)) r m)
      ]
    ])

abbrev pub ResponseHooks : Type 0
ResponseHooks = ℕ → Response → ResponseResult

unfoldable pub process_extensions : ResponseHooks → ℕ → List Response → Manager → Option Outcome
unfolding process_extensions_for
process_extensions hooks p [] m = some (m, [])
process_extensions hooks p (r ∷ rs) m =
    and_then (process_extensions_for p r (hooks p r) m) (process_extensions hooks p rs)

-- The responses that the hooks let through.
unfoldable pub let_through : ResponseHooks → ℕ → List Response → List Response
let_through hooks p [] = []
let_through hooks p (r ∷ rs) =
    let rest = let_through hooks p rs in elim (hooks p r).err [ none ↦ r ∷ rest | some e ↦ rest ]

unfoldable pub filter_for_peer : ℕ → Manager → List Response → List Response
filter_for_peer p m [] = []
filter_for_peer p m (r ∷ rs) =
    let rest = filter_for_peer p m rs in
    elim (get? r.request_id m) [ none ↦ rest | some s ↦ if s.peer == p then r ∷ rest else rest ]

-- The loop that gives the responses to the loaders; `none` is the fault of an unknown request.
unfoldable pub ingest : List Block → List Response → Manager → Option (List Effect)
ingest blocks [] m = some []
ingest blocks (r ∷ rs) m = elim (get? r.request_id m) [
  | none ↦ none
  | some s ↦ elim (ingest blocks rs m) [
    | none ↦ none
    | some es ↦
        some (
          (if s.has_traverser then loader_ingest r.request_id r.metadata blocks ∷ [] else []) ++ es)
  ]
]

unfoldable pub update_last_responses : List Response → Manager → Option Manager
update_last_responses [] m = some m
update_last_responses (r ∷ rs) m = elim (get? r.request_id m) [
  | none ↦ none
  | some s ↦ update_last_responses rs (insert r.request_id (record s { last_response = r }) m)
]

abbrev pub offline_effects : ℕ → Manager → List Effect
offline_effects id m = elim (get? id m) [
  | none ↦ []
  | some r ↦ if r.has_traverser then loader_online id false ∷ [] else []
]

abbrev pub terminal_error_of : ℕ → Option Error
terminal_error_of status = elim (as_error status) [ none ↦ none | some e ↦ some (status_error e) ]

-- processTerminations for one response; `none` is a fault.
unfoldable pub process_termination : Response → Manager → Option Outcome
unfolding cancel_on_error
process_termination response m =
    let id = response.request_id in
    elim (is_terminal response.status) [
      | false ↦ some (m, [])
      | true ↦ elim (is_failure response.status) [
        | false ↦ some (m, offline_effects id m)
        | true ↦ elim (get? id m) [
          | none ↦ none
          | some r ↦
              and_then (cancel_on_error id (terminal_error_of response.status) r m)
                (λ n. some (n, offline_effects id n))
        ]
      ]
    ]

unfoldable pub process_terminations : List Response → Manager → Option Outcome
unfolding process_termination
process_terminations [] m = some (m, [])
process_terminations (r ∷ rs) m = and_then (process_termination r m) (process_terminations rs)

-- processResponses from its filtered responses on.
unfoldable pub process_filtered : List Block → List Response → Manager → Option Outcome
unfolding ingest update_last_responses process_terminations
process_filtered blocks rs m = elim (ingest blocks rs m) [
  | none ↦ none
  | some es ↦ elim (update_last_responses rs m) [
    | none ↦ none
    | some n ↦ prepend_some es (process_terminations rs n)
  ]
]

unfoldable pub process_responses :
    ResponseHooks → ℕ → List Response → List Block → Manager → Option Outcome
unfolding process_extensions let_through filter_for_peer process_filtered
process_responses hooks p rs blocks m =
    and_then (process_extensions hooks p rs m)
      (λ n. process_filtered blocks (filter_for_peer p n (let_through hooks p rs)) n)

unfoldable pub unpause : ℕ → List Extension → Manager → Outcome × Option Error
unpause id es m = elim (get? id m) [
  | none ↦ ((m, []), some request_not_found)
  | some r ↦ elim r.state [
    | paused ↦ (
      (
        insert id (record r { state = queued; request = replace_extensions es r.request }) m,
        push_task r.peer id max_priority ∷ [],
      ),
      none,
    )
    | queued ↦ ((m, []), some not_paused)
    | running ↦ ((m, []), some not_paused)
    | completing_send ↦ ((m, []), some not_paused)
  ]
]

unfoldable pub pause : ℕ → Manager → Manager × Option Error
pause id m = elim (get? id m) [
  | none ↦ (m, some request_not_found)
  | some r ↦ elim r.state [
    | paused ↦ (m, some already_paused)
    | queued ↦ (insert id (record r { pause_message = true }) m, none)
    | running ↦ (insert id (record r { pause_message = true }) m, none)
    | completing_send ↦ (insert id (record r { pause_message = true }) m, none)
  ]
]

unfoldable pub update : ℕ → List Extension → Manager → List Effect × Option Error
update id es m = elim (get? id m) [
  | none ↦ ([], some request_not_found)
  | some r ↦ (send_request r.peer (new_update_request id es) ∷ [], none)
]
