-- ===== src/Collector/Tests.antt =====
-- Runs and instances for requestmanager/responsecollector.go.
use go_graphsync.Base.{◌≡◌, refl, true, false, not, ◌||◌, [], ◌∷◌, ◌++◌, some, List}
use go_graphsync.Collector.{
  Event, Step, new_collector, run, collect_response, collect_error, arrived, taken, incoming_closed,
  caller_done, errors_closed, error_arrived, sent, sent_cancelled, on_complete, closed, is_empty,
}
use go_graphsync.Collector.Delivery.{delivered, arrivals, arrival, interrupted}
use go_graphsync.Collector.Runs.{collect_response-delivers}

abbrev events : List Event
events = arrived 4 ∷ arrived 5 ∷ taken ∷ incoming_closed ∷ taken ∷ []

abbrev outcome : Step
outcome = (
  record { received = []; incoming = false; ended = true },
  sent 4 ∷ sent 5 ∷ on_complete ∷ closed ∷ [],
)

two_blocks_pass : run collect_response events new_collector ≡ some outcome
unfolding run collect_response new_collector
two_blocks_pass = refl

collect_response-delivers_example :
    (delivered outcome.1 ++ outcome.0.received ≡ arrivals arrival events)
    × ((interrupted events || (not outcome.0.ended || is_empty outcome.0.received)) ≡ true)
collect_response-delivers_example = collect_response-delivers events outcome two_blocks_pass

-- The caller that gives up after the request has ended may hear that twice, before an error.
cancelled_twice :
    run collect_error (error_arrived 8 ∷ errors_closed true ∷ caller_done true ∷ []) new_collector
    ≡ some (
      record { received = 8 ∷ []; incoming = false; ended = true },
      sent_cancelled ∷ sent_cancelled ∷ closed ∷ [],
    )
unfolding run collect_error new_collector
cancelled_twice = refl
