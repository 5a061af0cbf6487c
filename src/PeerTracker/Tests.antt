-- ===== src/PeerTracker/Tests.antt =====
-- The theorems on responsemanager/responseassembler/peerlinktracker.go at concrete trackers:
-- requests 1 and 2 share dedup key 5, and both meet link 7.
use go_graphsync.Base.{◌+◌, ◌<◌, ◌≡◌, ◌↔◌, refl, true, false, [], ◌∷◌, some, get?, insert}
use go_graphsync.LinkTracker.{new_tracker, count_at, block_ref_count}
use go_graphsync.LinkTracker.Counts.{uses}
use go_graphsync.LinkTracker
use go_graphsync.PeerTracker.Trackers.{Inv, new_peer_tracker-Inv, dedup_key-Inv}
use go_graphsync.PeerTracker.Dedup.{skip, finish, step, step-Inv}
use go_graphsync.PeerTracker.SendsOnce.{run, run-sends_once, record_link_traversal_lem}
use go_graphsync.PeerTracker.{
  PeerTracker, new_peer_tracker, get_link_tracker, dedup_key, record_link_traversal, traverse_in,
  put_link_tracker, skip_first_blocks,
}

abbrev keyed : PeerTracker
keyed = dedup_key 2 5 (dedup_key 1 5 new_peer_tracker)

keyed-Inv : Inv keyed
keyed-Inv = dedup_key-Inv 2 5 _ (dedup_key-Inv 1 5 _ new_peer_tracker-Inv)

abbrev sent : PeerTracker
sent = (traverse_in 1 7 true new_tracker keyed).0

abbrev skipping : PeerTracker
skipping = skip_first_blocks 2 3 sent

-- Request 2 is not told to send the block that request 1 was told to send.
sent-refuses :
    record_link_traversal 2 7 true skipping
    ≡ some (
      (traverse_in 2 7 true (LinkTracker.record_link_traversal 1 7 true new_tracker) skipping).0,
      false,
      1,
    )
unfolding record_link_traversal get_link_tracker put_link_tracker new_peer_tracker dedup_key get?
    insert new_tracker skip_first_blocks LinkTracker.record_link_traversal
sent-refuses = refl

step-Inv_example : (u : PeerTracker) × (step (finish 1) keyed ≡ some u) × Inv u
step-Inv_example = step-Inv (finish 1) keyed keyed-Inv

run-sends_once_example : false ≡ false
unfolding record_link_traversal get_link_tracker put_link_tracker new_peer_tracker dedup_key get?
    insert new_tracker skip_first_blocks run step LinkTracker.record_link_traversal block_ref_count
run-sends_once_example =
    run-sends_once 1 2 7 true false 1 1 true (skip 2 3 ∷ []) keyed sent skipping _ keyed-Inv refl
      (tt, tt) refl refl sent-refuses

record_link_traversal_lem_example :
    (1 ≡ count_at 1 keyed.block_sent_count + 1)
    × ((true ≡ true)
        ↔ ((true ≡ true) × (count_at 1 keyed.skip_first < 1) × (uses 7 new_tracker ≡ 0)))
unfolding record_link_traversal get_link_tracker put_link_tracker new_peer_tracker dedup_key get?
    insert new_tracker LinkTracker.record_link_traversal block_ref_count
record_link_traversal_lem_example =
    record_link_traversal_lem 1 7 true true 1 new_tracker keyed sent keyed-Inv refl refl
