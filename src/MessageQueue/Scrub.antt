-- ===== src/MessageQueue/Scrub.antt =====
-- scrubResponses of messagequeue/messagequeue.go: which responses leave the queue, and how many
-- bytes it says it has freed.
use go_graphsync.Base.{
  ℕ, ◌≡◌, refl, sym, ◌∙◌, Bool, true, false, List, [], ◌∷◌, ◌++◌, none, arith, if◌then◌else◌, get?,
  contains, All, Bool-cases, inl, inr, append_assoc, append-nil,
}
use go_graphsync.Message.Builder
use go_graphsync.Message.Scrub.{IsSized, scrub_responses_lem}
use go_graphsync.MessageQueue.{
  QueueBuilder, MessageQueue, scrub_responses, scrub_builders, scrub_queue,
}

-- No response to one of the requests is in the builder.
abbrev pub Without : List ℕ → QueueBuilder → Type 0
Without ids b = (k : ℕ) → contains k ids ≡ true → get? k b.inner.outgoing_responses ≡ none

abbrev pub freed_by : List ℕ → QueueBuilder → ℕ
freed_by ids b = (scrub_responses ids b).1

abbrev pub scrubbed : List ℕ → List QueueBuilder → List QueueBuilder
scrubbed ids [] = []
scrubbed ids (b ∷ bs) =
    let rest = scrubbed ids bs in
    let c = (scrub_responses ids b).0 in if Builder.is_empty c.inner then rest else c ∷ rest

append-kept :
    (e : Bool) (kept rest : List QueueBuilder) (c : QueueBuilder)
    → (if e then kept else kept ++ c ∷ []) ++ rest ≡ kept ++ (if e then rest else c ∷ rest)
append-kept true kept rest c = refl
append-kept false kept rest c = append_assoc kept (c ∷ []) rest

pub scrub_builders-kept :
    (ids : List ℕ) (bs kept : List QueueBuilder) (freed : ℕ)
    → (scrub_builders ids bs kept freed).0 ≡ kept ++ scrubbed ids bs
unfolding scrub_builders
scrub_builders-kept ids [] kept freed = sym (append-nil kept)
scrub_builders-kept ids (b ∷ bs) kept freed =
    let c = (scrub_responses ids b).0 in
    let e = Builder.is_empty c.inner in
    scrub_builders-kept ids bs (if e then kept else kept ++ c ∷ []) (freed_by ids b)
    ∙ append-kept e kept (scrubbed ids bs) c

scrub_builders-freed :
    (ids : List ℕ) (bs : List QueueBuilder) (b : QueueBuilder) (kept : List QueueBuilder)
    (freed : ℕ)
    → (scrub_builders ids (bs ++ b ∷ []) kept freed).1 ≡ freed_by ids b
unfolding scrub_builders
scrub_builders-freed ids [] b kept freed = refl
scrub_builders-freed ids (c ∷ bs) b kept freed = scrub_builders-freed ids bs b _ _

-- What the last of the messages freed, which is what scrubResponses returns.
abbrev pub freed_by_last : List ℕ → List QueueBuilder → ℕ
freed_by_last ids [] = 0
freed_by_last ids (b ∷ []) = freed_by ids b
freed_by_last ids (b ∷ c ∷ bs) = freed_by_last ids (c ∷ bs)

last_freed :
    (ids : List ℕ) (b : QueueBuilder) (bs kept : List QueueBuilder) (freed : ℕ)
    → (scrub_builders ids (b ∷ bs) kept freed).1 ≡ freed_by_last ids (b ∷ bs)
unfolding scrub_builders
last_freed ids b [] kept freed = refl
last_freed ids b (c ∷ bs) kept freed = last_freed ids c bs _ (freed_by ids b)

pub scrub_builders-freed_by_last :
    (ids : List ℕ) (bs kept : List QueueBuilder)
    → (scrub_builders ids bs kept 0).1 ≡ freed_by_last ids bs
scrub_builders-freed_by_last ids [] kept = unfold scrub_builders in refl
scrub_builders-freed_by_last ids (b ∷ bs) kept = last_freed ids b bs kept 0

Without-scrub :
    (ids : List ℕ) (b : QueueBuilder) → IsSized b.inner → Without ids (scrub_responses ids b).0
unfolding scrub_responses
Without-scrub ids b v k h = ground (arith, (scrub_responses_lem ids b.inner v).0 k)

pub scrubbed-Without :
    (ids : List ℕ) (bs : List QueueBuilder)
    → All (λ b. IsSized b.inner) bs
    → All (Without ids) (scrubbed ids bs)
scrubbed-Without ids [] v = tt
scrubbed-Without ids (b ∷ bs) v =
    elim (Bool-cases (Builder.is_empty (scrub_responses ids b).0.inner)) [
      | inl e ↦ rw e (scrubbed-Without ids bs v.1)
      | inr e ↦ rw e (Without-scrub ids b v.0, scrubbed-Without ids bs v.1)
    ]

-- scrubResponses takes the requests out of every message that waits, and drops those that are then
-- empty; but the number of bytes that it returns is what the last of the messages freed alone.
pub scrub_queue_lem :
    (ids : List ℕ) (q r : MessageQueue) (bs : List QueueBuilder) (b : QueueBuilder) (freed : ℕ)
    → All (λ c. IsSized c.inner) q.builders
    → q.builders ≡ bs ++ b ∷ []
    → scrub_queue ids q ≡ (r, freed)
    → (r.builders ≡ scrubbed ids q.builders)
      × All (Without ids) r.builders
      × (freed ≡ freed_by ids b)
unfolding scrub_queue
scrub_queue_lem ids q r bs b freed v e h =
    let kept : r.builders ≡ scrubbed ids q.builders =
      ground (arith, scrub_builders-kept ids q.builders [] 0) in
    (
      kept,
      rw kept (scrubbed-Without ids q.builders v),
      ground (arith, scrub_builders-freed ids bs b [] 0),
    )
