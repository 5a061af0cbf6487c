-- ===== src/Assembler.antt =====
-- responsemanager/responseassembler/responseBuilder.go and responseassembler.go: what a transaction
-- on a response records, and how it becomes part of a message. The encoded length of an
-- extension's data (dagcbor.EncodedLength, 0 for nil data or an error) is a parameter. A block is
-- made with its cid by blocks.NewBlockWithCid, which fails only in its debug mode. The spans are
-- left out; the peer's tracker is found by the caller.
pub mod Memory
mod Tests
use go_graphsync.Base.{
  ℕ, ◌+◌, Bool, true, false, List, [], ◌∷◌, ◌++◌, map, Option, none, some, ltb, ◌==◌, if◌then◌else◌,
  length, add64,
}
use mathlib.Core.Option
use go_graphsync.Message.{Extension, LinkAction, present, missing}
use go_graphsync.Message.Builder
use go_graphsync.Message.Builder.{add_block, add_link, add_extension_data, add_response_code}
use go_graphsync.MessageQueue.{
  BlockData, QueueBuilder, MessageQueue, add_block_data, set_response_stream, set_subscriber,
  build_message,
}
use go_graphsync.PeerTracker.{PeerTracker, finish_tracking, record_link_traversal}

-- graphsync.ResponseStatusCode of this code.
abbrev pub partial_response : ℕ
partial_response = 14

abbrev pub request_paused : ℕ
request_paused = 15

abbrev pub request_completed_full : ℕ
request_completed_full = 20

abbrev pub request_completed_partial : ℕ
request_completed_partial = 21

pub data Operation : Type 0 where
  status : ℕ → ℕ → Operation
  extension : ℕ → Extension → Operation
  block : Option (List ℕ) → Bool → ℕ → ℕ → ℕ → Operation

-- The bytes of a block, none for nil.
abbrev pub bytes : Option (List ℕ) → List ℕ
bytes none = []
bytes (some d) = d

-- blockOperation.Block, with the sizes of blockQueued.
unfoldable pub block_queued : Option (List ℕ) → Bool → ℕ → ℕ → BlockData
block_queued d send link index = record {
  link = link;
  size = length (bytes d);
  size_on_wire = if send then length (bytes d) else 0;
  index = index;
}

abbrev pub on_inner : (Builder.Builder → Builder.Builder) → QueueBuilder → QueueBuilder
on_inner f b = record b { inner = f b.inner }

abbrev pub action_of : Option (List ℕ) → LinkAction
action_of none = missing
action_of (some _) = present

unfoldable pub build_operation : Operation → QueueBuilder → QueueBuilder
unfolding block_queued
build_operation (status request code) b = on_inner (add_response_code request code) b
build_operation (extension request e) b = on_inner (add_extension_data request e) b
build_operation (block d send link request index) b =
    let c = if send then on_inner (add_block (record { cid = link; raw = bytes d })) b else b in
    add_block_data request (block_queued d send link index)
      (on_inner (add_link request link (action_of d)) c)

unfoldable pub build_operations : List Operation → QueueBuilder → QueueBuilder
unfolding build_operation
build_operations [] b = b
build_operations (op ∷ ops) b = build_operations ops (build_operation op b)

module _ (encoded_length : ℕ → ℕ) where
  unfoldable pub size : Operation → ℕ
  size (status request code) = 0
  size (extension request e) = encoded_length e.node
  size (block d send link request index) = if send then length (bytes d) else 0

  unfoldable pub total_size : List Operation → ℕ
  unfolding size
  total_size [] = 0
  total_size (op ∷ ops) = add64 (size op) (total_size ops)

-- What a transaction does with the response builder, each with the request's id at hand.
pub data Action : Type 0 where
  send_response : ℕ → Option (List ℕ) → Action
  send_extension_data : Extension → Action
  finish_request : Action
  finish_with_error : ℕ → Action
  pause_request : Action
  send_updates : List Extension → Action

pub record ResponseBuilder : Type 0 where
  pub request_id : ℕ
  pub operations : List Operation
  pub link_tracker : PeerTracker

abbrev pub push : Operation → ResponseBuilder → ResponseBuilder
push op rb = record rb { operations = rb.operations ++ op ∷ [] }

abbrev pub is_some : Option (List ℕ) → Bool
is_some none = false
is_some (some _) = true

-- `none` is a fault of the link tracker.
unfoldable pub act : Action → ResponseBuilder → Option ResponseBuilder
act (send_response link d) rb =
    Option.map (λ r. push (block d r.1 link rb.request_id r.2) (record rb { link_tracker = r.0 }))
      (record_link_traversal rb.request_id link (is_some d) rb.link_tracker)
act (send_extension_data e) rb = some (push (extension rb.request_id e) rb)
act finish_request rb =
    Option.map
      (λ r.
        push
          (status rb.request_id (if r.1 then request_completed_full else request_completed_partial))
          (record rb { link_tracker = r.0 }))
      (finish_tracking rb.request_id rb.link_tracker)
act (finish_with_error code) rb =
    Option.map (λ r. push (status rb.request_id code) (record rb { link_tracker = r.0 }))
      (finish_tracking rb.request_id rb.link_tracker)
act pause_request rb = some (push (status rb.request_id request_paused) rb)
act (send_updates es) rb = some (record rb {
  operations =
      (rb.operations ++ map (extension rb.request_id) es)
      ++ status rb.request_id partial_response ∷ [];
})

pub record ResponseStream : Type 0 where
  pub request_id : ℕ
  pub stream : ℕ
  pub subscriber : ℕ
  pub closed : Bool

-- The function that `execute` gives to the message queue.
unfoldable pub fill_builder : ResponseStream → List Operation → QueueBuilder → QueueBuilder
unfolding build_operations
fill_builder rs ops b =
    if rs.closed
    then b
    else set_subscriber rs.request_id rs.subscriber
        (set_response_stream rs.request_id rs.stream (build_operations ops b))

-- `execute` on a queue whose allocator has granted the memory asked for, with that amount.
unfoldable pub execute : (ℕ → ℕ) → ResponseStream → List Operation → MessageQueue → MessageQueue × ℕ
unfolding total_size fill_builder
execute encoded_length rs ops q =
    if rs.closed
    then (q, 0)
    else let n = total_size encoded_length ops in ((build_message n (fill_builder rs ops) q).0, n)
