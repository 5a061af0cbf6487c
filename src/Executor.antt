-- ===== src/Executor.antt =====
-- requestmanager/executor/executor.go: the execution of one request. What the traverser and the
-- reconciled loader give in each round of the loop, with whether the request's context is done and what
-- the block hooks decide, is a list of rounds and the result with which the traversal is complete. What
-- the executor does outside is a list of effects, in order. The encoding of a number of blocks is a
-- parameter.
pub mod Asking
mod Tests
use go_graphsync.Base.{
  ℕ, Bool, true, false, List, [], ◌∷◌, ◌++◌, Option, none, some, if◌then◌else◌, ltb,
}
use go_graphsync.Message.{
  Extension, Request, new_cancel_request, new_update_request, replace_extensions,
}
use go_graphsync.ResponseManager.{do_not_send_first_blocks}

-- AsyncLoadResult: a block, RemoteMissingBlockErr, or another error.
pub data LoadResult : Type 0 where
  loaded : LoadResult
  missing : LoadResult
  failed : ℕ → LoadResult

-- The errors that end an execution: ErrPaused, ContextCancelError and others.
pub data Stop : Type 0 where
  err_paused context_cancelled : Stop
  stop_error : ℕ → Stop

pub data Effect : Type 0 where
  set_online : Bool → Effect
  send_request : Request → Effect
  report : LoadResult → Effect
  report_stop : Stop → Effect
  skip_link : Effect
  traverser_error : ℕ → Effect
  advance : Effect
  release_task : Option Stop → Effect

-- One round of the loop in traverse. `first_load` is what the loader gives first, `retried_load` what it
-- gives on a retry; `n_blocks` counts the blocks traversed before the round.
pub record Round : Type 0 where
  pub n_blocks : ℕ
  pub first_load : LoadResult
  pub retried_load : LoadResult
  pub is_done : Bool
  pub advance_error : Option Stop
  pub hook_extensions : List Extension
  pub hook_error : Option Stop
  pub is_paused : Bool

pub record RequestTask : Type 0 where
  pub request : Request
  pub do_not_send_first_blocks : ℕ
  pub response_id : ℕ

unfoldable pub start_remote_request : (ℕ → ℕ) → RequestTask → ℕ → Request
start_remote_request encode rt n =
    let skipped = if ltb rt.do_not_send_first_blocks n then n else rt.do_not_send_first_blocks in
    if ltb 0 skipped
    then replace_extensions (record { name = do_not_send_first_blocks; node = encode skipped } ∷ [])
        rt.request
    else rt.request

-- The load of a round: what it gives, whether the remote has been asked by then, and the effects.
unfoldable pub load : (ℕ → ℕ) → RequestTask → Bool → Round → LoadResult × Bool × List Effect
unfolding start_remote_request
load encode rt true r = (r.first_load, true, [])
load encode rt false r = elim r.first_load [
  | loaded ↦ (loaded, false, [])
  | failed e ↦ (failed e, false, [])
  | missing ↦ (
    r.retried_load,
    true,
    set_online true ∷ send_request (start_remote_request encode rt r.n_blocks) ∷ [],
  )
]

unfoldable pub advance_traversal : Round → LoadResult → Option Stop × List Effect
advance_traversal r loaded = (r.advance_error, advance ∷ [])
advance_traversal r missing =
    if r.is_done then (some context_cancelled, []) else (none, report missing ∷ skip_link ∷ [])
advance_traversal r (failed e) =
    if r.is_done
    then (some context_cancelled, [])
    else (none, report (failed e) ∷ traverser_error e ∷ [])

-- The hooks' part of a round.
unfoldable pub on_new_block : RequestTask → Round → Option Stop × List Effect
on_new_block rt r = (
  r.hook_error,
  elim r.hook_extensions [
    | [] ↦ []
    | e ∷ es ↦ send_request (new_update_request rt.response_id (e ∷ es)) ∷ []
  ],
)

abbrev pub or_paused : Bool → Option Stop → Option Stop
or_paused p (some e) = some e
or_paused p none = if p then some err_paused else none

unfoldable pub process_result : RequestTask → Round → LoadResult → Option Stop × List Effect
unfolding on_new_block
process_result rt r loaded = let (e, es) = on_new_block rt r in (or_paused r.is_paused e, es)
process_result rt r missing = (or_paused r.is_paused none, [])
process_result rt r (failed e) = (or_paused r.is_paused none, [])

-- The part of a round behind the load.
unfoldable pub finish_round : RequestTask → Round → LoadResult → Option Stop × List Effect
unfolding advance_traversal process_result
finish_round rt r result =
    let (stop, es) = advance_traversal r result in
    let (paused, fs) = process_result rt r result in
    elim stop [ some e ↦ (some e, es) | none ↦ (paused, es ++ fs) ]

abbrev pub Behaviour : Type 0
Behaviour = Option Stop × List Effect

-- A round's load and rest, and the rounds behind it.
abbrev pub then_rounds : List Effect → Behaviour → Behaviour → Behaviour
then_rounds es (some e, fs) rest = (some e, es ++ fs)
then_rounds es (none, fs) rest = (rest.0, es ++ fs ++ rest.1)

-- The loop, with whether the remote has been asked, to the result of a traversal that is complete.
unfoldable pub traverse : (ℕ → ℕ) → RequestTask → Bool → List Round → Option Stop → Behaviour
unfolding load finish_round
traverse encode rt asked [] complete = (complete, [])
traverse encode rt asked (r ∷ rs) complete =
    let l = load encode rt asked r in
    then_rounds l.2 (finish_round rt r l.0) (traverse encode rt l.1 rs complete)

-- What ExecuteTask does with the error of a traversal; the Boolean says whether the request's context is
-- done when the error is to be given to the caller.
unfoldable pub end_task : RequestTask → Bool → Option Stop → List Effect
end_task rt done none = release_task none ∷ []
end_task rt done (some context_cancelled) = release_task (some context_cancelled) ∷ []
end_task rt done (some err_paused) =
    send_request (new_cancel_request rt.request.id)
    ∷ set_online false
    ∷ release_task (some err_paused)
    ∷ []
end_task rt done (some (stop_error e)) =
    send_request (new_cancel_request rt.request.id)
      ∷ set_online false
      ∷ (if done then [] else report_stop (stop_error e) ∷ [])
    ++ release_task (some (stop_error e)) ∷ []

unfoldable pub execute_task : (ℕ → ℕ) → RequestTask → List Round → Option Stop → Bool → List Effect
unfolding traverse end_task
execute_task encode rt rs complete done =
    let (stop, es) = traverse encode rt false rs complete in es ++ end_task rt done stop
