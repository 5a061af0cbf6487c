-- ===== src/Collector.antt =====
-- requestmanager/responsecollector.go: the two goroutines that hold what a request has got until its
-- caller takes it. An event is the case that a goroutine's select takes, and what the inner selects
-- take; the event is `none` where that case cannot be taken, which is so for a channel that is nil and
-- after the end. Blocks and errors are numbers.
pub mod Delivery
pub mod Runs
mod Tests
use go_graphsync.Base.{
  ℕ, Bool, true, false, ◌&&◌, not, List, [], ◌∷◌, ◌++◌, Option, none, some, if◌then◌else◌,
}

-- What waits, whether the incoming channel is not nil, and whether the goroutine has returned.
pub record Collector : Type 0 where
  pub received : List ℕ
  pub incoming : Bool
  pub ended : Bool

unfoldable pub new_collector : Collector
new_collector = record { received = []; incoming = true; ended = false }

pub data Out : Type 0 where
  sent : ℕ → Out
  sent_cancelled cancel_request on_complete closed : Out

-- The select of the goroutine for blocks.
pub data Event : Type 0 where
  context_done request_done incoming_closed taken : Event
  arrived : ℕ → Event

abbrev pub Step : Type 0
Step = Collector × List Out

abbrev pub is_empty : List ℕ → Bool
is_empty [] = true
is_empty (x ∷ xs) = false

-- The loop's condition, and what is deferred.
unfoldable pub next_round : List Out → Collector → Step
next_round ends c =
    if is_empty c.received && not c.incoming then (record c { ended = true }, ends) else (c, [])

abbrev pub after : List Out → Step → Step
after es s = (s.0, es ++ s.1)

abbrev pub response_ends : List Out
response_ends = on_complete ∷ closed ∷ []

unfoldable pub take_next : List Out → Collector → Option Step
unfolding next_round
take_next ends c = elim c.received [
  | [] ↦ none
  | x ∷ xs ↦ some (after (sent x ∷ []) (next_round ends (record c { received = xs })))
]

unfoldable pub collect_response : Event → Collector → Option Step
unfolding next_round take_next
collect_response e c =
    let stopped = record c { ended = true } in
    if c.ended then none else elim e [
      | context_done ↦ some (stopped, response_ends)
      | request_done ↦
          some (stopped, (if c.incoming then cancel_request ∷ [] else []) ++ response_ends)
      | incoming_closed ↦
          if c.incoming
          then some (next_round response_ends (record c { incoming = false }))
          else none
      | taken ↦ take_next response_ends c
      | arrived x ↦
          if c.incoming then some (record c { received = c.received ++ x ∷ [] }, []) else none
    ]

-- The select of the goroutine for errors. The number of cancelled errors says whether the caller, and
-- not the end of the manager, was heard, and for a closed channel whether the request was done too.
pub data ErrorEvent : Type 0 where
  manager_done errors_taken : ErrorEvent
  caller_done errors_closed : Bool → ErrorEvent
  error_arrived : ℕ → ErrorEvent

abbrev pub error_ends : List Out
error_ends = closed ∷ []

abbrev pub cancelled : Bool → List Out
cancelled b = if b then sent_cancelled ∷ [] else []

unfoldable pub collect_error : ErrorEvent → Collector → Option Step
unfolding next_round take_next
collect_error e c =
    let stopped = record c { ended = true } in
    if c.ended then none else elim e [
      | manager_done ↦ some (stopped, error_ends)
      | caller_done heard ↦ some (stopped, cancelled heard ++ error_ends)
      | errors_closed heard ↦
          if c.incoming
          then some
              (after (cancelled heard) (next_round error_ends (record c { incoming = false })))
          else none
      | errors_taken ↦ take_next error_ends c
      | error_arrived x ↦
          if c.incoming then some (record c { received = c.received ++ x ∷ [] }, []) else none
    ]

-- A run of a goroutine over a sequence of events.
unfoldable pub run {ℓ} :
    {E : Type ℓ} → (E → Collector → Option Step) → List E → Collector → Option Step
run step [] c = some (c, [])
run step (e ∷ es) c = elim (step e c) [
  | none ↦ none
  | some s ↦ elim (run step es s.0) [ none ↦ none | some t ↦ some (after s.1 t) ]
]
