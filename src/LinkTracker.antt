-- ===== src/LinkTracker.antt =====
-- linktracker/linktracker.go. Request ids and links are numbers that stand for
-- graphsync.RequestID and ipld.Link, which are only compared. A set of links is a list without
-- repetition. The counts are Go's int; the loop of FinishRequest deletes an entry whose count falls
-- to 0 or below, which the truncated subtraction keeps.
pub mod Counts
mod Tests
use go_graphsync.Base.{
  ℕ, ◌+◌, ◌-◌, Bool, true, false, ◌&&◌, List, [], ◌∷◌, ◌++◌, Option, none, some, ltb, ◌==◌,
  if◌then◌else◌, contains, length, Map, get?, insert, delete, has, not,
}

pub record LinkTracker : Type 0 where
  pub missing : Map (List ℕ)
  pub traversed : Map (List ℕ)
  pub in_progress : Map ℕ

unfoldable pub new_tracker : LinkTracker
new_tracker = record { missing = []; traversed = []; in_progress = [] }

-- Go's reading of a map from keys to slices, or to numbers.
abbrev pub list_at : ℕ → Map (List ℕ) → List ℕ
list_at k m = elim (get? k m) [ none ↦ [] | some l ↦ l ]

abbrev pub count_at : ℕ → Map ℕ → ℕ
count_at k m = elim (get? k m) [ none ↦ 0 | some n ↦ n ]

unfoldable pub block_ref_count : ℕ → LinkTracker → ℕ
block_ref_count link lt = count_at link lt.in_progress

unfoldable pub is_known_missing_link : ℕ → ℕ → LinkTracker → Bool
is_known_missing_link request link lt = elim (get? request lt.missing) [
  | none ↦ false
  | some links ↦ contains link links
]

abbrev pub add_link : ℕ → List ℕ → List ℕ
add_link link links = if contains link links then links else link ∷ links

unfoldable pub record_link_traversal : ℕ → ℕ → Bool → LinkTracker → LinkTracker
record_link_traversal request link has_block lt =
    if has_block
    then record lt {
      traversed = insert request (list_at request lt.traversed ++ link ∷ []) lt.traversed;
      in_progress = insert link (count_at link lt.in_progress + 1) lt.in_progress;
    }
    else record lt {
      missing = insert request (add_link link (list_at request lt.missing)) lt.missing;
    }

-- The body of the loop of FinishRequest.
unfoldable pub drop_traversal : ℕ → Map ℕ → Map ℕ
drop_traversal link m =
    let left = count_at link m - 1 in if ltb 0 left then insert link left m else delete link m

unfoldable pub drop_traversals : List ℕ → Map ℕ → Map ℕ
unfolding drop_traversal
drop_traversals [] m = m
drop_traversals (link ∷ links) m = drop_traversals links (drop_traversal link m)

unfoldable pub finish_request : ℕ → LinkTracker → LinkTracker × Bool
unfolding drop_traversals has
finish_request request lt = (
  elim (get? request lt.traversed) [
    | none ↦ record lt { missing = delete request lt.missing }
    | some links ↦ record {
      missing = delete request lt.missing;
      traversed = delete request lt.traversed;
      in_progress = drop_traversals links lt.in_progress;
    }
  ],
  not (has request lt.missing),
)

unfoldable pub is_empty : LinkTracker → Bool
is_empty lt = length lt.missing == 0 && length lt.in_progress == 0
