-- ===== src/MessageQueue.antt =====
-- messagequeue/builder.go and messagequeue/messagequeue.go: the messages that wait to be sent to one
-- peer. Topics, streams and subscribers are numbers. What a method does outside the queue (events
-- published, memory given back to the allocator, streams closed) is a list of effects, in order.
-- The network's behaviour is an argument: whether the first sender could be opened, and how each
-- try to send ended. The goroutines, the work signal and the spans are left out.
pub mod Scrub
pub mod Sending
mod Tests
use go_graphsync.Base.{
  ℕ, zero, suc, ◌+◌, Bool, true, false, not, List, [], ◌∷◌, ◌++◌, map, Option, none, some, ltb,
  ◌==◌, if◌then◌else◌, Map, get?, insert, add64,
}
use go_graphsync.Message.{Message, response_codes}
use go_graphsync.Message.Builder.{new_builder, slice_at, delete_all, build}
use go_graphsync.Message.Builder

-- graphsync.BlockData.
pub record BlockData : Type 0 where
  pub link : ℕ
  pub size : ℕ
  pub size_on_wire : ℕ
  pub index : ℕ

pub record QueueBuilder : Type 0 where
  pub inner : Builder.Builder
  pub topic : ℕ
  pub response_streams : Map ℕ
  pub subscribers : Map ℕ
  pub block_data : Map (List BlockData)

unfoldable pub new_queue_builder : ℕ → QueueBuilder
new_queue_builder topic = record {
  inner = new_builder;
  topic = topic;
  response_streams = [];
  subscribers = [];
  block_data = [];
}

unfoldable pub set_response_stream : ℕ → ℕ → QueueBuilder → QueueBuilder
set_response_stream request stream b = record b {
  response_streams = insert request stream b.response_streams;
}

unfoldable pub set_subscriber : ℕ → ℕ → QueueBuilder → QueueBuilder
set_subscriber request subscriber b = record b {
  subscribers = insert request subscriber b.subscribers;
}

unfoldable pub add_block_data : ℕ → BlockData → QueueBuilder → QueueBuilder
add_block_data request d b = record b {
  block_data = insert request (slice_at request b.block_data ++ d ∷ []) b.block_data;
}

unfoldable pub scrub_responses : List ℕ → QueueBuilder → QueueBuilder × ℕ
unfolding delete_all
scrub_responses ids b =
    let (inner, freed) = Builder.scrub_responses ids b.inner in
    (
      record b {
        inner = inner;
        response_streams = delete_all ids b.response_streams;
        subscribers = delete_all ids b.subscribers;
        block_data = delete_all ids b.block_data;
      },
      freed,
    )

pub record Metadata : Type 0 where
  pub block_data : Map (List BlockData)
  pub response_codes : Map ℕ

pub record InternalMetadata : Type 0 where
  pub public : Metadata
  pub topic : ℕ
  pub msg_size : ℕ
  pub response_streams : Map ℕ

-- The subscriptions that `build` makes are those of the builder's subscribers to its topic.
unfoldable pub build_metadata : QueueBuilder → Message × InternalMetadata
build_metadata b =
    let message = build b.inner in
    (
      message,
      record {
        public = record { block_data = b.block_data; response_codes = response_codes message };
        topic = b.topic;
        msg_size = b.inner.blk_size;
        response_streams = b.response_streams;
      },
    )

pub record MessageQueue : Type 0 where
  pub builders : List QueueBuilder
  pub next_builder_topic : ℕ

-- 512 KiB.
abbrev pub max_block_size : ℕ
max_block_size = 524288

abbrev pub last : List QueueBuilder → Option QueueBuilder
last [] = none
last (b ∷ []) = some b
last (b ∷ c ∷ bs) = last (c ∷ bs)

abbrev pub change_last : (QueueBuilder → QueueBuilder) → List QueueBuilder → List QueueBuilder
change_last f [] = []
change_last f (b ∷ []) = f b ∷ []
change_last f (b ∷ c ∷ bs) = b ∷ change_last f (c ∷ bs)

unfoldable pub should_begin_new_response : List QueueBuilder → ℕ → Bool
should_begin_new_response builders blk_size = elim (last builders) [
  | none ↦ true
  | some b ↦ if blk_size == 0 then false else ltb max_block_size (add64 b.inner.blk_size blk_size)
]

unfoldable pub with_builder : ℕ → MessageQueue → MessageQueue
unfolding should_begin_new_response
with_builder size q =
    if should_begin_new_response q.builders size
    then record {
      builders = q.builders ++ new_queue_builder q.next_builder_topic ∷ [];
      next_builder_topic = add64 q.next_builder_topic 1;
    }
    else q

-- The new queue, and whether there is something to send.
unfoldable pub build_message :
    ℕ → (QueueBuilder → QueueBuilder) → MessageQueue → MessageQueue × Bool
unfolding with_builder
build_message size f q =
    let r = with_builder size q in
    let bs = change_last f r.builders in
    (
      record r { builders = bs },
      elim (last bs) [ none ↦ false | some b ↦ not (Builder.is_empty b.inner) ],
    )

-- extractOutgoingMessage; `none` is errEmptyMessage.
unfoldable pub extract_outgoing_message :
    MessageQueue → MessageQueue × Option (Message × InternalMetadata)
unfolding build_metadata
extract_outgoing_message q = elim q.builders [
  | [] ↦ (q, none)
  | b ∷ bs ↦ (
    record q { builders = bs },
    if Builder.is_empty b.inner then none else some (build_metadata b),
  )
]

-- The loop of scrubResponses, with the builders kept so far and `totalFreed`.
unfoldable pub scrub_builders :
    List ℕ → List QueueBuilder → List QueueBuilder → ℕ → List QueueBuilder × ℕ
scrub_builders ids [] kept freed = (kept, freed)
scrub_builders ids (b ∷ bs) kept freed =
    let (c, n) = scrub_responses ids b in
    scrub_builders ids bs (if Builder.is_empty c.inner then kept else kept ++ c ∷ []) n

unfoldable pub scrub_queue : List ℕ → MessageQueue → MessageQueue × ℕ
unfolding scrub_builders
scrub_queue ids q =
    let (bs, freed) = scrub_builders ids q.builders [] 0 in (record q { builders = bs }, freed)

pub data EventName : Type 0 where
  queued sent error : EventName

pub data Effect : Type 0 where
  publish : ℕ → EventName → Effect
  close_topic : ℕ → Effect
  close_stream : ℕ → Effect
  release : ℕ → Effect

unfoldable pub scrub_response_streams : Map ℕ → MessageQueue → MessageQueue × List Effect
unfolding scrub_queue
scrub_response_streams streams q =
    let (r, freed) = scrub_queue (map (λ e. e.0) streams) q in
    (r, map (λ e. close_stream e.1) streams ++ (if ltb 0 freed then release freed ∷ [] else []))

unfoldable pub publish_sent : InternalMetadata → List Effect
publish_sent m = publish m.topic sent ∷ release m.msg_size ∷ []

unfoldable pub publish_error : InternalMetadata → MessageQueue → MessageQueue × List Effect
unfolding scrub_response_streams
publish_error m q =
    let (r, es) = scrub_response_streams m.response_streams q in
    (r, es ++ publish m.topic error ∷ release m.msg_size ∷ [])

-- How a try to send ended: with success, or with a failure after which the queue was shut down, its
-- context cancelled, the sender not opened again, or opened again.
pub data Attempt : Type 0 where
  delivered shut_down cancelled reopen_failed reopened : Attempt

-- attemptSendAndRecovery, with what comes of the tries left.
unfoldable pub attempt_result :
    Attempt
    → InternalMetadata
    → MessageQueue
    → MessageQueue × List Effect
    → MessageQueue × List Effect
unfolding publish_sent publish_error
attempt_result delivered m q again = (q, publish_sent m)
attempt_result reopened m q again = again
attempt_result _ m q again = publish_error m q

-- The loop of sendMessage over the tries left; `tries n` is how the try with `n` more left ended.
unfoldable pub send_attempts :
    ℕ → (ℕ → Attempt) → InternalMetadata → MessageQueue → MessageQueue × List Effect
unfolding attempt_result publish_error
send_attempts zero tries m q = publish_error m q
send_attempts (suc n) tries m q = attempt_result (tries n) m q (send_attempts n tries m q)

-- sendMessage once it has a message: `opened` says whether there was a sender to begin with.
unfoldable pub deliver :
    ℕ → Bool → (ℕ → Attempt) → InternalMetadata → MessageQueue → MessageQueue × List Effect
unfolding send_attempts
deliver max_retries opened tries m q =
    let (r, es) = if opened then send_attempts max_retries tries m q else publish_error m q in
    (r, publish m.topic queued ∷ es ++ close_topic m.topic ∷ [])

unfoldable pub send_message : ℕ → Bool → (ℕ → Attempt) → MessageQueue → MessageQueue × List Effect
unfolding extract_outgoing_message deliver
send_message max_retries opened tries q =
    let (r, message) = extract_outgoing_message q in
    elim message [ none ↦ (r, []) | some (_, m) ↦ deliver max_retries opened tries m r ]
