-- ===== src/Loader.antt =====
-- requestmanager/reconciledloader/reconciledloader.go and load.go: how a loader goes online, and how it
-- catches up with what the remote sends again before it loads from it. A path is the list of its
-- segments.
pub mod Waiting
pub mod Remote
mod Tests
use go_graphsync.Base.{
  ℕ, zero, suc, Bool, true, false, not, ◌&&◌, List, [], Option, none, some, if◌then◌else◌,
}
use mathlib.Core.Option
use go_graphsync.Message.{Metadatum, did_follow_link}
use go_graphsync.Traversal.{
  Record, Frame, new_record, new_verifier, done, current_path, record_next_step, VerifyError,
  verify_next, refused, advanced,
}
use go_graphsync.RemoteQueue.{
  RemoteQueue, empty, first, consume, clear, queue, retry_last, record_remote_load_attempt,
}

pub record Attempt : Type 0 where
  pub link : ℕ
  pub path : List ℕ
  pub successful : Bool
  pub used_remote : Bool

pub record Loader : Type 0 where
  pub most_recent : Option Attempt
  pub traversal_record : Record
  pub last_unfollowed : List ℕ
  pub is_open : Bool
  pub verifier : Option (List Frame)
  pub remote_queue : RemoteQueue

abbrev pub no_items : RemoteQueue
no_items = record {
  items = [];
  pooled = [];
  head = none;
  tail = none;
  data_size = 0;
  last_consumed = none;
}

unfoldable pub new_loader : Loader
unfolding new_record
new_loader = record {
  most_recent = none;
  traversal_record = new_record;
  last_unfollowed = [];
  is_open = false;
  verifier = none;
  remote_queue = no_items;
}

unfoldable pub set_remote_online : Bool → Loader → Loader
unfolding new_verifier
set_remote_online online l = record l {
  is_open = online;
  verifier = if online && not l.is_open then some (new_verifier l.traversal_record) else l.verifier;
}

-- The end of IngestResponse, for items at these addresses of the heap; a loader that is offline puts
-- them into the pool.
unfoldable pub ingest : List ℕ → Loader → Option Loader
ingest items l =
    if l.is_open
    then Option.map (λ q. record l { remote_queue = q }) (queue items l.remote_queue)
    else some l

unfoldable pub cleanup : Loader → Option Loader
cleanup l = Option.map (λ q. record l { remote_queue = q }) (clear l.remote_queue)

-- The first lines of BlockReadOpener: the load before this one is recorded.
unfoldable pub record_attempt : Loader → Loader
unfolding record_next_step
record_attempt l = elim l.most_recent [
  | none ↦ l
  | some a ↦ record l {
    traversal_record = record_next_step a.path a.link a.successful l.traversal_record;
    most_recent = none;
  }
]

-- The first lines of RetryLastLoad: the load to try again; `none` is its error.
unfoldable pub begin_retry : Loader → Option (Attempt × Loader)
unfolding retry_last
begin_retry l = elim l.most_recent [
  | none ↦ none
  | some a ↦ some (
    a,
    record l {
      most_recent = none;
      remote_queue = if a.used_remote then retry_last l.remote_queue else l.remote_queue;
    },
  )
]

pub data Waited : Type 0 where
  waiting offline online : Waited
  failed : VerifyError → Waited

-- The verifier, if it has something left to verify.
unfoldable pub pending_verifier : Option (List Frame) → Option (List Frame)
unfolding done
pending_verifier none = none
pending_verifier (some stack) = if done stack then none else some stack

unfoldable pub catch_up : RemoteQueue → List Frame → List ℕ → Loader → Loader
catch_up q stack path l = record l {
  remote_queue = q;
  verifier = some stack;
  last_unfollowed = path;
}

-- waitRemote on fuel, up to where it would wait for the signal: the outer `none` if the fuel runs
-- out, or for a fault.
unfoldable pub wait_remote : ℕ → Loader → Option (Waited × Loader)
unfolding empty first consume pending_verifier catch_up verify_next current_path
wait_remote zero l = none
wait_remote (suc fuel) l = elim (empty l.remote_queue) [
  | true ↦ some ((if l.is_open then waiting else offline), l)
  | false ↦ elim (pending_verifier l.verifier) [
    | none ↦ some (online, record l { verifier = none })
    | some stack ↦ elim (first l.remote_queue) [
      | none ↦ none
      | some item ↦ elim (consume l.remote_queue) [
        | none ↦ none
        | some q ↦ elim (verify_next item.link (did_follow_link item.action) stack) [
          | refused e ↦ some (failed e, record l { remote_queue = q })
          | advanced rest ↦ wait_remote fuel (
              catch_up q rest
                (record_remote_load_attempt (current_path stack) item.action l.last_unfollowed) l)
        ]
      ]
    ]
  ]
]
