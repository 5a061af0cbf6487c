-- ===== src/MessageQueue/Tests.antt =====
-- The theorems on messagequeue/messagequeue.go at a queue of two messages: request 1 has three
-- bytes in the first, and two in the second.
use go_graphsync.Base.{
  ℕ, ◌+◌, ◌≡◌, refl, true, List, [], ◌∷◌, some, arith, get?, insert, delete, All,
}
use go_graphsync.Message.{Message, present}
use go_graphsync.Message.Builder.{
  Builder, new_builder, add_block, add_link, add_response_code, add_extension_data, build,
}
use go_graphsync.Message.Builder
use go_graphsync.Message.Scrub.{IsSized, new_builder-IsSized, add_block-IsSized}
use go_graphsync.MessageQueue.{
  QueueBuilder, MessageQueue, InternalMetadata, new_queue_builder, set_response_stream, scrub_queue,
  scrub_responses, extract_outgoing_message, build_metadata, queued, sent, error, Attempt, reopened,
  send_message,
}
use go_graphsync.MessageQueue.Scrub.{Without, freed_by, scrubbed, scrub_queue_lem}
use go_graphsync.MessageQueue.Sending.{
  published, released, scrubbed_bytes, send_message_lem, delivers,
}

abbrev of_block : ℕ → List ℕ → Builder
of_block cid raw = add_link 1 cid present (add_block (record { cid = cid; raw = raw }) new_builder)

abbrev first : QueueBuilder
first =
    set_response_stream 1 40 (record (new_queue_builder 0) { inner = of_block 7 (1 ∷ 2 ∷ 3 ∷ []) })

abbrev second : QueueBuilder
second = set_response_stream 1 40 (record (new_queue_builder 1) { inner = of_block 8 (4 ∷ 5 ∷ []) })

abbrev both : MessageQueue
both = record { builders = first ∷ second ∷ []; next_builder_topic = 2 }

first-IsSized : IsSized first.inner
unfolding set_response_stream new_queue_builder add_link
first-IsSized =
    let v =
      add_block-IsSized (record { cid = 7; raw = 1 ∷ 2 ∷ 3 ∷ [] }) new_builder new_builder-IsSized
        (unfold new_builder in omega arith) in
    record { distinct = v.distinct; covered = v.covered; bounded = v.bounded }

second-IsSized : IsSized second.inner
unfolding set_response_stream new_queue_builder add_link
second-IsSized =
    let v =
      add_block-IsSized (record { cid = 8; raw = 4 ∷ 5 ∷ [] }) new_builder new_builder-IsSized
        (unfold new_builder in omega arith) in
    record { distinct = v.distinct; covered = v.covered; bounded = v.bounded }

-- Five bytes leave the queue, and two are said to be freed.
both-scrub : scrub_queue (1 ∷ []) both ≡ (record { builders = []; next_builder_topic = 2 }, 2)
unfolding scrub_queue scrub_responses set_response_stream new_queue_builder add_link add_block
    new_builder get? insert delete Builder.scrub_responses Builder.is_empty
both-scrub = refl

scrub_queue_lem_example :
    ([] ≡ scrubbed (1 ∷ []) both.builders)
    × All (Without (1 ∷ [])) []
    × (2 ≡ freed_by (1 ∷ []) second)
scrub_queue_lem_example =
    scrub_queue_lem (1 ∷ []) both (record { builders = []; next_builder_topic = 2 }) (first ∷ [])
      second 2 (first-IsSized, (second-IsSized, tt)) refl both-scrub

abbrev behind : MessageQueue
behind = record both { builders = second ∷ [] }

abbrev taken : Message × InternalMetadata
taken = build_metadata first

abbrev tries : ℕ → Attempt
tries n = reopened

both-extract : extract_outgoing_message both ≡ (behind, some (taken.0, taken.1))
unfolding extract_outgoing_message set_response_stream new_queue_builder add_link add_block
    new_builder get? insert Builder.is_empty
both-extract = refl

-- No try succeeds: three bytes are given back for the message, and two for the one behind it.
send_message_lem_example :
    let es = (send_message 2 true tries both).1 in
    (published taken.1.topic queued es ≡ 1)
    × (published taken.1.topic sent es ≡ 0)
    × (published taken.1.topic error es ≡ 1)
    × (released es ≡ taken.1.msg_size + scrubbed_bytes taken.1 behind)
unfolding delivers
send_message_lem_example = send_message_lem 2 true tries both behind taken.0 taken.1 both-extract
