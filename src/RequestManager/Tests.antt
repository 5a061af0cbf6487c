-- ===== src/RequestManager/Tests.antt =====
-- Runs and instances for requestmanager/server.go and messages.go.
use go_graphsync.Base.{◌≡◌, refl, insert, true, false, [], ◌∷◌, none, some, get?, has}
use go_graphsync.Message.{Response, new_request, new_cancel_request, new_response}
use go_graphsync.ResponseManager.{running}
use go_graphsync.RequestManager.Hooks.{
  ResponseResult, request_result, response_result, terminate_with_error,
}
use go_graphsync.RequestManager.{
  Checks, Manager, InProgress, Outcome, client_cancelled, invalid_selector, hook_error,
  start_request, send_request, cancel_context, loader_online, process_responses,
}
use go_graphsync.RequestManager.Validity.{IsValid, ready, insert-IsStep}
use go_graphsync.RequestManager.Responding.{process_responses-others}
use go_graphsync.RequestManager.About.{distinct, owned, refused}
use go_graphsync.RequestManager.Untouched.{touched}
use go_graphsync.RequestManager.Channels.{channels_after}
use go_graphsync.RequestManager.Loop.{
  Config, is_message, handle, handle-runs, cancel_call, process_responses_call,
}
use go_graphsync.RequestManager.Orderly.{handle-channels, opens}

abbrev checks : Checks
checks = record {
  selector_error = λ n. none;
  encode_key = λ n. some n;
  link_system = λ n. some n;
  count = λ n. some n;
}

abbrev no_result : ResponseResult
no_result = record { err = none; extensions = [] }

abbrev config : Config
unfolding request_result
config = record {
  checks = checks;
  default_link_system = 9;
  request_hooks = λ p q. request_result [] (record { persistence_option = none; chooser = none });
  response_hooks = λ p r. no_result;
}

abbrev in_progress : InProgress
in_progress = record {
  peer = 3;
  request = new_request 7 1 2 0 [];
  state = running;
  terminal_error = none;
  pause_message = false;
  on_terminated = [];
  last_response = new_response 7 10 [] [];
  skip_first = 0;
  link_system = 9;
  chooser = none;
  has_traverser = true;
}

abbrev one : Manager
one = (7, in_progress) ∷ []

one-IsValid : IsValid one
unfolding insert ready get?
one-IsValid = (insert-IsStep 7 in_progress [] refl (λ j. refl)).valid

-- A response that says that the request failed.
abbrev failed : Response
failed = record { request_id = 7; status = 30; metadata = []; extensions = [] }

handle-runs_example :
    (o : Outcome) × (handle config (process_responses_call 3 (failed ∷ []) []) one ≡ some o)
    × IsValid o.0
unfolding is_message distinct
handle-runs_example =
    handle-runs config (process_responses_call 3 (failed ∷ []) []) one refl one-IsValid

handle-channels_example :
    (o : Outcome) × (handle config (cancel_call 7 (some 5) (some client_cancelled)) one ≡ some o)
    × (channels_after 7 o.1 true ≡ some (has 7 o.0))
unfolding is_message opens has
handle-channels_example =
    handle-channels config (cancel_call 7 (some 5) (some client_cancelled)) 7 one refl one-IsValid

process_responses-others_example :
    (o : Outcome) × (process_responses (λ p r. no_result) 4 (failed ∷ []) [] one ≡ some o)
    × (get? 7 o.0 ≡ some in_progress)
    × (touched 7 o.1 ≡ false)
unfolding distinct owned refused get?
process_responses-others_example =
    process_responses-others (λ p r. no_result) 4 7 (failed ∷ []) [] one refl one-IsValid refl refl

-- A response of another peer that a hook refuses cancels the request.
refused_of_another_peer :
    process_responses
      (λ p r. response_result (terminate_with_error 8 ∷ []) no_result)
      4
      (failed ∷ [])
      []
      one
    ≡ some (
      (7, record in_progress { terminal_error = some (hook_error 8) }) ∷ [],
      send_request 3 (new_cancel_request 7) ∷ cancel_context 7 ∷ loader_online 7 false ∷ [],
    )
unfolding process_responses response_result get? new_response insert
refused_of_another_peer = refl

-- A selector that does not parse ends the request before it is in progress.
bad_selector_refused :
    start_request
      (record checks { selector_error = λ n. some 3 })
      9
      7
      3
      (some 1)
      2
      []
      (λ q. record { persistence_option = none; chooser = none })
      []
    ≡ (([], []), some (invalid_selector 3))
unfolding start_request
bad_selector_refused = refl
