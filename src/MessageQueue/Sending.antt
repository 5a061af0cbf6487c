-- ===== src/MessageQueue/Sending.antt =====
-- sendMessage of messagequeue/messagequeue.go: what is published and what memory is given back.
use go_graphsync.Base.{
  ℕ, zero, suc, ◌+◌, ◌≡◌, refl, ap, Bool, true, false, ◌&&◌, List, [], ◌∷◌, ◌++◌, map, Option, none,
  some, arith, ltb, ◌==◌, if◌then◌else◌, ==_refl, Map,
}
use go_graphsync.Message.{Message}
use go_graphsync.MessageQueue.Scrub.{freed_by_last, scrub_builders-freed_by_last}
use go_graphsync.MessageQueue.{
  deliver, MessageQueue, InternalMetadata, EventName, queued, sent, error, Effect, publish,
  close_topic, close_stream, release, scrub_queue, scrub_response_streams, publish_sent,
  publish_error, Attempt, delivered, reopened, send_attempts, send_message, attempt_result,
  extract_outgoing_message,
}

abbrev pub same_name : EventName → EventName → Bool
same_name queued queued = true
same_name sent sent = true
same_name error error = true
same_name _ _ = false

-- How often an event was published on a topic, and how much memory was given back.
abbrev pub published : ℕ → EventName → List Effect → ℕ
published t n [] = 0
published t n (publish u m ∷ es) = (if u == t && same_name m n then 1 else 0) + published t n es
published t n (close_topic u ∷ es) = published t n es
published t n (close_stream s ∷ es) = published t n es
published t n (release k ∷ es) = published t n es

abbrev pub released : List Effect → ℕ
released [] = 0
released (release n ∷ es) = n + released es
released (publish t n ∷ es) = released es
released (close_topic t ∷ es) = released es
released (close_stream s ∷ es) = released es

published-append :
    (t : ℕ) (n : EventName) (es fs : List Effect)
    → published t n (es ++ fs) ≡ published t n es + published t n fs
published-append t n [] fs = omega arith
published-append t n (publish u m ∷ es) fs = omega (arith, published-append t n es fs)
published-append t n (close_topic u ∷ es) fs = published-append t n es fs
published-append t n (close_stream u ∷ es) fs = published-append t n es fs
published-append t n (release u ∷ es) fs = published-append t n es fs

released-append : (es fs : List Effect) → released (es ++ fs) ≡ released es + released fs
released-append [] fs = omega arith
released-append (publish u m ∷ es) fs = released-append es fs
released-append (close_topic u ∷ es) fs = released-append es fs
released-append (close_stream u ∷ es) fs = released-append es fs
released-append (release u ∷ es) fs = omega (arith, released-append es fs)

closings_silent :
    (t : ℕ) (n : EventName) (m : Map ℕ)
    → (published t n (map (λ e. close_stream e.1) m) ≡ 0)
      × (released (map (λ e. close_stream e.1) m) ≡ 0)
closings_silent t n [] = (refl, refl)
closings_silent t n (e ∷ m) = closings_silent t n m

-- The bytes that a failed message's requests free in the last of the messages behind it.
abbrev pub scrubbed_bytes : InternalMetadata → MessageQueue → ℕ
scrubbed_bytes m q = freed_by_last (map (λ e. e.0) m.response_streams) q.builders

scrub_queue-bytes :
    (m : InternalMetadata) (q : MessageQueue)
    → (scrub_queue (map (λ e. e.0) m.response_streams) q).1 ≡ scrubbed_bytes m q
unfolding scrub_queue
scrub_queue-bytes m q =
    scrub_builders-freed_by_last (map {A = ℕ × ℕ} (λ e. e.0) m.response_streams) q.builders []

-- Whether one of the tries succeeds before one fails for good.
unfoldable pub after_attempt : Attempt → Bool → Bool
after_attempt delivered later = true
after_attempt reopened later = later
after_attempt _ later = false

unfoldable pub delivers : ℕ → (ℕ → Attempt) → Bool
unfolding after_attempt
delivers zero tries = false
delivers (suc n) tries = after_attempt (tries n) (delivers n tries)

-- A message's end: either it was sent, or it failed and its requests were scrubbed.
abbrev pub Ends : InternalMetadata → MessageQueue → Bool → List Effect → Type 0
Ends m q done es =
    (published m.topic queued es ≡ 0)
    × (published m.topic sent es ≡ (if done then 1 else 0))
    × (published m.topic error es ≡ (if done then 0 else 1))
    × (released es ≡ m.msg_size + (if done then 0 else scrubbed_bytes m q))

freeing_silent :
    (t freed : ℕ) (n : EventName)
    → let es = if ltb 0 freed then release freed ∷ [] else [] in
      (published t n es ≡ 0) × (released es ≡ freed)
freeing_silent t freed n = ground arith

scrubbing_silent :
    (t : ℕ) (n : EventName) (m : InternalMetadata) (q : MessageQueue)
    → let es = (scrub_response_streams m.response_streams q).1 in
      (published t n es ≡ 0) × (released es ≡ scrubbed_bytes m q)
unfolding scrub_response_streams
scrubbing_silent t n m q =
    let closings = map {A = ℕ × ℕ} (λ e. close_stream e.1) m.response_streams in
    let freed = (scrub_queue (map (λ e. e.0) m.response_streams) q).1 in
    let frees = if ltb 0 freed then release freed ∷ [] else [] in
    let (p, r) = closings_silent t n m.response_streams in
    let (p', r') = freeing_silent t freed n in
    (
      omega (arith, published-append t n closings frees, p, p'),
      omega (arith, released-append closings frees, r, r', scrub_queue-bytes m q),
    )

publish_error-Ends :
    (m : InternalMetadata) (q : MessageQueue) → Ends m q false (publish_error m q).1
unfolding publish_error
publish_error-Ends m q =
    let es = (scrub_response_streams m.response_streams q).1 in
    let end = publish m.topic error ∷ release m.msg_size ∷ [] in
    (
      omega (
        arith,
        published-append m.topic queued es end,
        scrubbing_silent m.topic queued m q,
        ended queued,
      ),
      omega (
        arith,
        published-append m.topic sent es end,
        scrubbing_silent m.topic sent m q,
        ended sent,
      ),
      omega (
        arith,
        published-append m.topic error es end,
        scrubbing_silent m.topic error m q,
        ended error,
      ),
      omega (arith, released-append es end, scrubbing_silent m.topic error m q),
    )
  where
    ended :
        (n : EventName)
        → published m.topic n (publish m.topic error ∷ release m.msg_size ∷ [])
          ≡ (if same_name error n then 1 else 0)
    ended n = ground (arith, ==_refl m.topic)

publish_sent-Ends : (m : InternalMetadata) (q : MessageQueue) → Ends m q true (publish_sent m)
unfolding publish_sent
publish_sent-Ends m q = ground (arith, ==_refl m.topic)

-- A try ended with success, after a failure with a new sender, or for good.
attempt_Ends :
    (a : Attempt) (m : InternalMetadata) (q : MessageQueue) (d : Bool)
    (again : MessageQueue × List Effect)
    → Ends m q d again.1
    → Ends m q (after_attempt a d) (attempt_result a m q again).1
unfolding attempt_result after_attempt
attempt_Ends delivered m q d again h = publish_sent-Ends m q
attempt_Ends reopened m q d again h = h
attempt_Ends _ m q d again h = publish_error-Ends m q

send_attempts-Ends :
    (n : ℕ) (tries : ℕ → Attempt) (m : InternalMetadata) (q : MessageQueue)
    → Ends m q (delivers n tries) (send_attempts n tries m q).1
unfolding send_attempts delivers
send_attempts-Ends zero tries m q = publish_error-Ends m q
send_attempts-Ends (suc n) tries m q =
    attempt_Ends (tries n) m q (delivers n tries) (send_attempts n tries m q)
      (send_attempts-Ends n tries m q)

send-Ends :
    (max_retries : ℕ) (opened : Bool) (tries : ℕ → Attempt) (m : InternalMetadata)
    (r : MessageQueue)
    → Ends m r
        (opened && delivers max_retries tries)
        (if opened then send_attempts max_retries tries m r else publish_error m r).1
send-Ends max_retries true tries m r = send_attempts-Ends max_retries tries m r
send-Ends max_retries false tries m r = publish_error-Ends m r

abbrev one_if : Bool → ℕ
one_if b = if b then 1 else 0

deliver_lem :
    (max_retries : ℕ) (opened : Bool) (tries : ℕ → Attempt) (r : MessageQueue)
    (m : InternalMetadata)
    → let es = (deliver max_retries opened tries m r).1 in
      let done = opened && delivers max_retries tries in
      (published m.topic queued es ≡ 1)
      × (published m.topic sent es ≡ (if done then 1 else 0))
      × (published m.topic error es ≡ (if done then 0 else 1))
      × (released es ≡ m.msg_size + (if done then 0 else scrubbed_bytes m r))
unfolding deliver
deliver_lem max_retries opened tries r m =
    let es = (if opened then send_attempts max_retries tries m r else publish_error m r).1 in
    let (a, b, c, d) = send-Ends max_retries opened tries m r in
    let end : List Effect = close_topic m.topic ∷ [] in
    (
      omega (arith, published-append m.topic queued es end, a, announced queued),
      omega (arith, published-append m.topic sent es end, b, announced sent),
      omega (arith, published-append m.topic error es end, c, announced error),
      omega (arith, released-append es end, d),
    )
  where
    announced :
        (n : EventName)
        → one_if (m.topic == m.topic && same_name queued n) ≡ one_if (same_name queued n)
    announced n = ground (arith, ==_refl m.topic)

-- A message that is taken from the queue is announced once; then it is published as sent exactly
-- when its sender was opened and one of the tries succeeds before one fails for good, and otherwise
-- as failed; and its memory is given back once, and if it failed, with it what its requests free in
-- the last of the messages behind it, and nothing of what they free in the others.
pub send_message_lem :
    (max_retries : ℕ) (opened : Bool) (tries : ℕ → Attempt) (q r : MessageQueue) (msg : Message)
    (m : InternalMetadata)
    → extract_outgoing_message q ≡ (r, some (msg, m))
    → let es = (send_message max_retries opened tries q).1 in
      let done = opened && delivers max_retries tries in
      (published m.topic queued es ≡ 1)
      × (published m.topic sent es ≡ (if done then 1 else 0))
      × (published m.topic error es ≡ (if done then 0 else 1))
      × (released es ≡ m.msg_size + (if done then 0 else scrubbed_bytes m r))
unfolding send_message
send_message_lem max_retries opened tries q r msg m h =
    let same : send_message max_retries opened tries q ≡ deliver max_retries opened tries m r =
      ap
        (λ (x : MessageQueue × Option (Message × InternalMetadata)).
          elim x.1 as (λ _. MessageQueue × List Effect) [
            | none ↦ (x.0, [])
            | some (_, k) ↦ deliver max_retries opened tries k x.0
          ])
        h in
    rw same (deliver_lem max_retries opened tries r m)
