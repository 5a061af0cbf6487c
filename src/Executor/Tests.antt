-- ===== src/Executor/Tests.antt =====
-- Runs and instances for requestmanager/executor/executor.go.
use go_graphsync.Base.{ℕ, ◌+◌, ◌≡◌, refl, true, false, List, [], ◌∷◌, none, some}
use go_graphsync.Message.{new_request, new_cancel_request}
use go_graphsync.Executor.{
  Round, RequestTask, LoadResult, loaded, missing, failed, err_paused, traverse, execute_task,
  set_online, send_request, advance, release_task,
}
use go_graphsync.Executor.Asking.{asked_for, to_ask, traverse-asks_once}

abbrev task : RequestTask
unfolding new_request
task = record { request = new_request 7 1 2 0 []; do_not_send_first_blocks = 0; response_id = 7 }

abbrev round : ℕ → LoadResult → Round
round n x = record {
  n_blocks = n;
  first_load = x;
  retried_load = loaded;
  is_done = false;
  advance_error = none;
  hook_extensions = [];
  hook_error = none;
  is_paused = false;
}

abbrev rounds : List Round
rounds = round 0 loaded ∷ round 1 missing ∷ round 2 (failed 6) ∷ round 2 missing ∷ []

traverse-asks_once_example :
    asked_for false (traverse (λ n. n + 50) task false rounds none).1
    ≡ to_ask (λ n. n + 50) task rounds
traverse-asks_once_example = traverse-asks_once (λ n. n + 50) task rounds none

-- A pause after the first block cancels at the remote.
paused_task_cancels :
    execute_task (λ n. n) task (record (round 0 loaded) { is_paused = true } ∷ []) none false
    ≡ advance
      ∷ send_request (new_cancel_request 7)
      ∷ set_online false
      ∷ release_task (some err_paused)
      ∷ []
unfolding execute_task task new_request
paused_task_cancels = refl
