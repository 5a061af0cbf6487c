-- ===== src/LinkTracker/Tests.antt =====
-- The theorems on linktracker/linktracker.go at a tracker that two requests use: request 1 has had
-- link 7 twice and misses link 9, request 2 has had link 7 once.
use go_graphsync.Base.{
  ℕ, ◌+◌, ◌≡◌, ◌↔◌, refl, true, false, get?, insert, delete, count, ◌==◌, if◌then◌else◌,
}
use go_graphsync.LinkTracker.Counts.{
  IsCounted, new_tracker-IsCounted, record_link_traversal-IsCounted, finish_request_lem,
  is_empty_iff,
}
use go_graphsync.LinkTracker.{
  LinkTracker, new_tracker, list_at, block_ref_count, is_known_missing_link, record_link_traversal,
  finish_request, is_empty,
}

abbrev shared : LinkTracker
shared = record_link_traversal 2 7 true (
    record_link_traversal 1 9 false
      (record_link_traversal 1 7 true (record_link_traversal 1 7 true new_tracker)))

shared-IsCounted : IsCounted shared
shared-IsCounted = record_link_traversal-IsCounted 2 7 true _ (
    record_link_traversal-IsCounted 1 9 false _ (
      record_link_traversal-IsCounted 1 7 true _
        (record_link_traversal-IsCounted 1 7 true _ new_tracker-IsCounted)))

shared-counts : block_ref_count 7 shared ≡ 3
unfolding block_ref_count record_link_traversal new_tracker get? insert
shared-counts = refl

shared-finish : block_ref_count 7 (finish_request 1 shared).0 ≡ 1
unfolding block_ref_count record_link_traversal new_tracker get? insert delete finish_request
shared-finish = refl

finish_request_lem_example :
    let (after, complete) = finish_request 1 shared in
    ((complete ≡ true) ↔ ((link : ℕ) → is_known_missing_link 1 link shared ≡ false))
    × ((link : ℕ)
        → block_ref_count link after + count link (list_at 1 shared.traversed)
          ≡ block_ref_count link shared)
    × ((other link : ℕ)
        → is_known_missing_link other link after
          ≡ (if 1 == other then false else is_known_missing_link other link shared))
finish_request_lem_example = finish_request_lem 1 shared shared-IsCounted

is_empty_iff_example : (is_empty shared ≡ true) ↔ (
    ((link : ℕ) → block_ref_count link shared ≡ 0)
    × ((request link : ℕ) → is_known_missing_link request link shared ≡ false))
is_empty_iff_example = is_empty_iff shared shared-IsCounted
