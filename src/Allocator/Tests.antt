-- ===== src/Allocator/Tests.antt =====
-- Runs of allocator/allocator.go over the sorted queue, and its theorems at concrete inputs: ten
-- bytes in all and eight for each peer. Peer 1 takes eight, then peer 2 waits for five.
use go_graphsync.Base.{ℕ, ◌≡◌, refl, List, [], ◌∷◌, none, some, arith, get?, insert, delete}
use mathlib.Core.Option
use go_graphsync.Allocator.Queue.{IsWeakOrder}
use go_graphsync.Allocator.Order.{less-IsWeakOrder}
use go_graphsync.Allocator.Accounts.{Inv, new_allocator-Inv}
use go_graphsync.Allocator.Loop.{Settles, Blocked, process_pending-Settles, process_pending_fair}
use go_graphsync.Allocator.Operations.{release, step, Accounted, step-Accounted, allocate-Accounted}
use go_graphsync.Allocator.SortedQueue.{sorted_queue}
use go_graphsync.Allocator.{
  Pending, Allocator, Responses, new_allocator, allocate_block_memory, status_of, process_pending,
  release_block_memory, release_peer_memory, allocated_for_peer, stats, less, peer_deallocated,
  compare_status,
}

abbrev fresh : Allocator (List ℕ)
fresh = new_allocator sorted_queue 10 8

abbrev one : Allocator (List ℕ)
one = (allocate_block_memory sorted_queue 1 8 100 fresh).0

abbrev busy : Allocator (List ℕ)
busy = (allocate_block_memory sorted_queue 2 5 200 one).0

one-Inv : Inv sorted_queue one
unfolding new_allocator
one-Inv =
    (allocate-Accounted sorted_queue 1 8 100 fresh (new_allocator-Inv sorted_queue 10 8)
      (omega arith)).inv

busy-Inv : Inv sorted_queue busy
unfolding new_allocator allocate_block_memory get? insert less compare_status
busy-Inv = (allocate-Accounted sorted_queue 2 5 200 one one-Inv (omega arith)).inv

-- Nothing can be granted while peer 1 holds its eight bytes.
busy_stuck : process_pending sorted_queue busy ≡ some (busy, [])
unfolding process_pending new_allocator allocate_block_memory get? insert less compare_status
busy_stuck = refl

-- Once peer 1 gives them back, peer 2 is answered.
busy-release :
    Option.map (λ r. r.2) (release_block_memory sorted_queue 1 8 busy) ≡ some ((200, none) ∷ [])
unfolding release_block_memory new_allocator allocate_block_memory get? insert delete less
    compare_status
busy-release = refl

busy-release_peer :
    Option.map (λ r. r.2) (release_peer_memory sorted_queue 2 busy)
    ≡ some ((200, some peer_deallocated) ∷ [])
unfolding release_peer_memory new_allocator allocate_block_memory get? insert delete less
    compare_status
busy-release_peer = refl

busy-stats : (stats sorted_queue busy).total_pending ≡ 5
unfolding stats new_allocator allocate_block_memory get? insert less compare_status
busy-stats = refl

busy-allocated_for_peer : allocated_for_peer sorted_queue 1 busy ≡ 8
unfolding allocated_for_peer new_allocator allocate_block_memory get? insert less compare_status
busy-allocated_for_peer = refl

less-IsWeakOrder_example : IsWeakOrder (less 8 busy.statuses)
less-IsWeakOrder_example = less-IsWeakOrder 8 busy.statuses

step-Accounted_example :
    (r : Allocator (List ℕ) × Responses) × (step sorted_queue (release 1 8) busy ≡ some r)
    × Accounted sorted_queue (release 1 8) busy r.0 r.1
step-Accounted_example = step-Accounted sorted_queue (release 1 8) busy busy-Inv tt

process_pending-Settles_example :
    (r : Allocator (List ℕ) × Responses) × (process_pending sorted_queue busy ≡ some r)
    × Settles sorted_queue busy r.0 r.1
process_pending-Settles_example = process_pending-Settles sorted_queue busy busy-Inv

abbrev request : Pending
request = record { p = 2; amount = 5; response = 200; alloc_index = 0 }

process_pending_fair_example : Blocked sorted_queue busy (status_of 2 busy.statuses) request
unfolding new_allocator allocate_block_memory get? insert less compare_status status_of
process_pending_fair_example =
    process_pending_fair sorted_queue busy busy [] 2 request [] busy-Inv busy_stuck refl refl
