-- ===== src/RequestManager/Hooks.antt =====
-- requestmanager/hooks/requesthooks.go and responsehooks.go: what hooks decide about a request that goes
-- out or a response that comes in. What the hooks do is the list of the actions they take, in order;
-- how the pubsub library runs them is outside of the model. An empty persistence option is `none`.
use go_graphsync.Base.{ℕ, List, [], ◌∷◌, ◌++◌, Option, some}
use go_graphsync.Message.{Extension}

pub record RequestResult : Type 0 where
  pub persistence_option : Option ℕ
  pub chooser : Option ℕ

pub data RequestAction : Type 0 where
  use_persistence_option use_chooser : ℕ → RequestAction

unfoldable pub act_on_request : RequestAction → RequestResult → RequestResult
act_on_request (use_persistence_option n) r = record r { persistence_option = some n }
act_on_request (use_chooser c) r = record r { chooser = some c }

unfoldable pub request_result : List RequestAction → RequestResult → RequestResult
unfolding act_on_request
request_result [] r = r
request_result (a ∷ more) r = request_result more (act_on_request a r)

-- UpdateResult
pub record ResponseResult : Type 0 where
  pub err : Option ℕ
  pub extensions : List Extension

-- ErrPaused
abbrev pub pause_error : ℕ
pause_error = 0

pub data ResponseAction : Type 0 where
  terminate_with_error : ℕ → ResponseAction
  update_with_extensions : List Extension → ResponseAction
  pause_request : ResponseAction

unfoldable pub act_on_response : ResponseAction → ResponseResult → ResponseResult
act_on_response (terminate_with_error e) r = record r { err = some e }
act_on_response (update_with_extensions es) r = record r { extensions = r.extensions ++ es }
act_on_response pause_request r = record r { err = some pause_error }

unfoldable pub response_result : List ResponseAction → ResponseResult → ResponseResult
unfolding act_on_response
response_result [] r = r
response_result (a ∷ more) r = response_result more (act_on_response a r)
