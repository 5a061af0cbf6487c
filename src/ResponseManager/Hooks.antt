-- ===== src/ResponseManager/Hooks.antt =====
-- responsemanager/hooks/requesthook.go and requestupdatehooks.go: what hooks decide about a request or
-- an update. The hooks that are registered, and how the pubsub library runs them, are outside of the
-- model; what they do is the list of the actions they take, in order. Link systems, choosers and
-- errors are numbers; the link systems by name are a parameter. The context is left out.
use go_graphsync.Base.{ℕ, Bool, true, false, List, [], ◌∷◌, ◌++◌, Option, none, some}
use go_graphsync.Message.{Extension}

pub record RequestResult : Type 0 where
  pub is_validated : Bool
  pub is_paused : Bool
  pub link_system : Option ℕ
  pub chooser : Option ℕ
  pub err : Option ℕ
  pub extensions : List Extension

pub data RequestAction : Type 0 where
  send_extension : Extension → RequestAction
  terminate_with_error : ℕ → RequestAction
  validate_request : RequestAction
  use_persistence_option : ℕ → RequestAction
  use_chooser : ℕ → RequestAction
  pause_response : RequestAction

-- errors.New("unknown loader option")
abbrev pub unknown_loader : ℕ
unknown_loader = 0

unfoldable pub no_request_actions : RequestResult
no_request_actions = record {
  is_validated = false;
  is_paused = false;
  link_system = none;
  chooser = none;
  err = none;
  extensions = [];
}

unfoldable pub act_on_request : (ℕ → Option ℕ) → RequestAction → RequestResult → RequestResult
act_on_request systems (send_extension e) r = record r { extensions = r.extensions ++ e ∷ [] }
act_on_request systems (terminate_with_error e) r = record r { err = some e }
act_on_request systems validate_request r = record r { is_validated = true }
act_on_request systems (use_persistence_option n) r = elim (systems n) [
  | none ↦ record r { err = some unknown_loader }
  | some l ↦ record r { link_system = some l }
]
act_on_request systems (use_chooser c) r = record r { chooser = some c }
act_on_request systems pause_response r = record r { is_paused = true }

unfoldable pub request_result : (ℕ → Option ℕ) → List RequestAction → RequestResult → RequestResult
unfolding act_on_request
request_result systems [] r = r
request_result systems (a ∷ as_taken) r =
    request_result systems as_taken (act_on_request systems a r)

pub record UpdateResult : Type 0 where
  pub err : Option ℕ
  pub unpause : Bool
  pub extensions : List Extension

pub data UpdateAction : Type 0 where
  send_extension : Extension → UpdateAction
  terminate_with_error : ℕ → UpdateAction
  unpause_response : UpdateAction

unfoldable pub no_update_actions : UpdateResult
no_update_actions = record { err = none; unpause = false; extensions = [] }

unfoldable pub act_on_update : UpdateAction → UpdateResult → UpdateResult
act_on_update (send_extension e) r = record r { extensions = r.extensions ++ e ∷ [] }
act_on_update (terminate_with_error e) r = record r { err = some e }
act_on_update unpause_response r = record r { unpause = true }

unfoldable pub update_result : List UpdateAction → UpdateResult → UpdateResult
unfolding act_on_update
update_result [] r = r
update_result (a ∷ more) r = update_result more (act_on_update a r)
