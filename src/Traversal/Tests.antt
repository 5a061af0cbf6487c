-- ===== src/Traversal/Tests.antt =====
-- Runs and instances for requestmanager/reconciledloader/traversalrecord/traversalrecord.go.
use go_graphsync.Base.{◌≡◌, refl, true, false, List, [], ◌∷◌, some}
use go_graphsync.Traversal.{
  Record, chain, new_record, all_links, get_links, new_verifier, current_path, record_next_step,
  verify_next,
}
use go_graphsync.Traversal.Shape.{record_next_step-Good}
use go_graphsync.Traversal.Matching.{accepts, new_verifier-accepts, is_finished, match_node}
use go_graphsync.Traversal.RoundTrip.{Step, step, record_steps, trace, new_verifier-trace}
use go_graphsync.Traversal.Paths.{link_at-record_next_step, link_at}

-- Two links below the root, the first missing, and one below the second.
abbrev first_step : Step
first_step = step (1 ∷ []) 50 false

abbrev steps : List Step
steps = step (2 ∷ []) 60 true ∷ step (2 ∷ 7 ∷ []) 70 true ∷ []

abbrev recorded : Record
unfolding new_record record_next_step
recorded = record_steps (first_step ∷ steps) new_record

links_recorded : all_links recorded ≡ some (50 ∷ 60 ∷ 70 ∷ [])
unfolding all_links recorded chain
links_recorded = refl

links_below : get_links (2 ∷ []) recorded ≡ some (60 ∷ 70 ∷ [])
unfolding get_links recorded chain
links_below = refl

starts_at : current_path (new_verifier recorded) ≡ 1 ∷ []
unfolding current_path new_verifier recorded chain
starts_at = refl

-- A remote may not claim a link that the record lacks.
additional_data_is_refused : accepts ((50, true) ∷ []) (new_verifier recorded) ≡ false
unfolding accepts new_verifier verify_next recorded chain
additional_data_is_refused = refl

new_verifier-trace_example :
    accepts
      (trace (record_steps (first_step ∷ steps) new_record))
      (new_verifier (record_steps (first_step ∷ steps) new_record))
    ≡ true
new_verifier-trace_example = new_verifier-trace first_step steps

link_at-record_next_step_example :
    link_at (2 ∷ []) (record_next_step (2 ∷ []) 61 true recorded) ≡ some (61, true)
link_at-record_next_step_example = link_at-record_next_step (2 ∷ []) (2 ∷ []) 61 true recorded

-- A remote may leave out what is below a link that it could not follow.
new_verifier-accepts_example :
    accepts ((50, false) ∷ []) (new_verifier (record_next_step (1 ∷ []) 50 true new_record))
    ≡ is_finished (match_node (record_next_step (1 ∷ []) 50 true new_record) ((50, false) ∷ []))
unfolding new_record
new_verifier-accepts_example =
    new_verifier-accepts (record_next_step (1 ∷ []) 50 true new_record) ((50, false) ∷ [])
      (record_next_step-Good new_record (1 ∷ []) 50 true tt)
