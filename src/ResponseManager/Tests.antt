-- ===== src/ResponseManager/Tests.antt =====
-- Runs and instances for responsemanager/server.go and subscriber.go.
use go_graphsync.Base.{◌≡◌, refl, false, [], ◌∷◌, none, some, All, get?, insert}
use go_graphsync.Message.{Request, Response, new}
use go_graphsync.Message.Builder.{build, partial_response}
use go_graphsync.Message.Scrub.{new_builder-IsSized}
use go_graphsync.MessageQueue.{
  MessageQueue, QueueBuilder, InternalMetadata, new_queue_builder, publish_error, error,
}
use go_graphsync.Assembler.{ResponseBuilder, act, send_updates, build_operations, status}
use go_graphsync.PeerTracker.{new_peer_tracker}
use go_graphsync.ResponseCode.{is_terminal}
use go_graphsync.ResponseManager.Hooks.{
  RequestResult, no_request_actions, request_result, validate_request,
}
use go_graphsync.ResponseManager.Effects.{protected_after, waiting_after, transactions}
use go_graphsync.ResponseManager.Protection.{owns, handle-protected}
use go_graphsync.ResponseManager.Waiting.{is_queued, waiting_before, handle-waiting}
use go_graphsync.ResponseManager.Completing.{state_of, handle-completing}
use go_graphsync.ResponseManager.Subscriber.{see_event}
use go_graphsync.ResponseManager.NetworkErrors.{error_event-leaves, send_updates-hides}
use go_graphsync.ResponseManager.{
  Manager, InProgress, Decoders, handle, new_call, abort_call, finish_call, network_error,
  RequestState, queued, running, completing_send, start_call,
}

abbrev decoders : Decoders
decoders = record { key = λ n. some n; cids = λ n. some []; count = λ n. none }

abbrev request : Request
request = record {
  id = 7;
  root = some 1;
  selector = some 2;
  priority = 5;
  kind = new;
  extensions = [];
}

abbrev validated : RequestResult
unfolding request_result no_request_actions
validated = request_result (λ n. none) (validate_request ∷ []) no_request_actions

abbrev in_state : RequestState → InProgress
in_state s = record {
  peer = 3;
  request = request;
  state = s;
  has_traverser = false;
  updates = [];
  pause_signal = false;
  update_signal = false;
  err_signal = none;
  link_system = none;
  chooser = none;
}

abbrev with_one : RequestState → Manager
with_one s = (7, in_state s) ∷ []

new_request_is_queued : (handle decoders (new_call validated 3 request) []).0 ≡ with_one queued
unfolding handle validated get? insert
new_request_is_queued = refl

task_starts : state_of 7 (handle decoders (start_call 7 3) (with_one queued)).0 ≡ some running
unfolding handle state_of get? insert
task_starts = refl

handle-protected_example :
    (let o = handle decoders (new_call validated 3 request) [] in
      protected_after 3 7 o.1 (owns 3 7 []))
    ≡ owns 3 7 (handle decoders (new_call validated 3 request) []).0
unfolding get?
handle-protected_example = handle-protected decoders (new_call validated 3 request) [] 3 7 refl

handle-waiting_example :
    (let o = handle decoders (finish_call 7 3 none) (with_one running) in
      waiting_after 7 o.1 (waiting_before (finish_call 7 3 none) 7 (with_one running)))
    ≡ is_queued 7 (handle decoders (finish_call 7 3 none) (with_one running)).0
unfolding is_queued get?
handle-waiting_example = handle-waiting decoders (finish_call 7 3 none) (with_one running) 7 refl

handle-completing_example :
    (let o = handle decoders (abort_call 7 network_error) (with_one completing_send) in
      (transactions 7 o.1 ≡ 0) × (state_of 7 o.0 ≡ some completing_send))
unfolding state_of get?
handle-completing_example =
    handle-completing decoders (abort_call 7 network_error) (with_one completing_send) 7 refl refl

abbrev partial_sent : InternalMetadata
partial_sent = record {
  public = record { block_data = []; response_codes = (7, 14) ∷ [] };
  topic = 0;
  msg_size = 0;
  response_streams = (7, 1) ∷ [];
}

abbrev one_waits : MessageQueue
one_waits = record { builders = new_queue_builder 1 ∷ []; next_builder_topic = 2 }

error_event-leaves_example :
    All
      (λ b. get? 7 b.inner.outgoing_responses ≡ none)
      (publish_error partial_sent one_waits).0.builders
    × (state_of 7 (see_event decoders 3 7 error partial_sent.public (with_one completing_send)).0
        ≡ some completing_send)
unfolding state_of get? is_terminal new_queue_builder
error_event-leaves_example =
    error_event-leaves decoders 3 7 partial_sent one_waits (with_one completing_send)
      (new_builder-IsSized, tt) refl refl refl

abbrev transaction_start : ResponseBuilder
unfolding new_peer_tracker
transaction_start = record { request_id = 7; operations = []; link_tracker = new_peer_tracker }

abbrev updated : ResponseBuilder
unfolding transaction_start
updated = record transaction_start { operations = status 7 14 ∷ [] }

updates : act (send_updates []) transaction_start ≡ some updated
unfolding act transaction_start updated
updates = refl

abbrev ended : QueueBuilder
unfolding build_operations new_queue_builder
ended = build_operations (status 7 20 ∷ []) (new_queue_builder 0)

send_updates-hides_example :
    (r : Response) × (get? 7 (build (build_operations updated.operations ended).inner).responses
      ≡ some r)
    × (r.status ≡ partial_response)
    × (is_terminal r.status ≡ false)
unfolding transaction_start
send_updates-hides_example = send_updates-hides transaction_start updated [] ended updates
