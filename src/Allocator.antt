-- ===== src/Allocator.antt =====
-- allocator/allocator.go: memory for outgoing blocks, limited in all and for each peer. Peers are
-- numbers that stand for peer.ID. A method takes the allocator and returns the new one; what it
-- sends on response channels is a list, each entry a channel with `nil` (`none`) or an error. The
-- channel that AllocateBlockMemory makes is an argument. The priority queue is a parameter: it
-- holds peers and its comparator reads their statuses in the map, so the pointer in the queue and
-- the one in the map are one status; a push there comes after the write of the map, so that the
-- comparator finds the new status (both happen under one lock). The fields uint64 wrap.
pub mod Queue
pub mod Order
pub mod Accounts
pub mod Granting
pub mod Loop
pub mod Operations
pub mod SortedQueue
mod Tests
use go_graphsync.Base.{
  ℕ, zero, suc, ◌+◌, ◌-◌, ◌≡◌, Bool, true, false, ◌&&◌, List, [], ◌∷◌, ◌++◌, map, Option, none,
  some, ltb, leb, ◌==◌, if◌then◌else◌, length, Map, get?, insert, delete, total, value_at, add64,
  sub64, sum,
}
use mathlib.Core.Option
use Queue.{PriorityQueue, Less}

pub record Pending : Type 0 where
  pub p : ℕ
  pub amount : ℕ
  pub response : ℕ
  pub alloc_index : ℕ

pub record PeerStatus : Type 0 where
  pub p : ℕ
  pub total_allocated : ℕ
  pub pending : List Pending

pub data Error : Type 0 where
  no_allocations peer_deallocated : Error

abbrev pub Responses : Type 0
Responses = List (ℕ × Option Error)

pub record Allocator (Q : Type 0) : Type 0 where
  pub max_total : ℕ
  pub max_per_peer : ℕ
  pub allocated : ℕ
  pub next_index : ℕ
  pub statuses : Map PeerStatus
  pub queue : Q

-- makePeerStatusCompare.
unfoldable pub compare_status : ℕ → PeerStatus → PeerStatus → Bool
compare_status max_per_peer a b = elim a.pending [
  | [] ↦ elim b.pending [ [] ↦ ltb a.total_allocated b.total_allocated | _ ∷ _ ↦ false ]
  | x ∷ _ ↦ elim b.pending [
    | [] ↦ true
    | y ∷ _ ↦
        if ltb max_per_peer (add64 a.total_allocated x.amount)
        then false
        else if ltb max_per_peer (add64 b.total_allocated y.amount)
        then true
        else ltb x.alloc_index y.alloc_index
  ]
]

abbrev pub new_status : ℕ → PeerStatus
new_status p = record { p = p; total_allocated = 0; pending = [] }

unfoldable pub status_of : ℕ → Map PeerStatus → PeerStatus
status_of p m = elim (get? p m) [ none ↦ new_status p | some s ↦ s ]

unfoldable pub less : ℕ → Map PeerStatus → Less
less limit m a b = compare_status limit (status_of a m) (status_of b m)

no_pending : PeerStatus → Bool
no_pending s = elim s.pending [ [] ↦ true | _ ∷ _ ↦ false ]

abbrev pub refusals : List Pending → Responses
refusals = map λ x. (x.response, some peer_deallocated)

pub data Round (Q : Type 0) : Type 0 where
  stop : Round Q
  next : Allocator Q → Responses → Round Q

pub record Stats : Type 0 where
  pub max_allowed_total : ℕ
  pub max_allowed_per_peer : ℕ
  pub total_allocated_all : ℕ
  pub total_pending : ℕ
  pub peers_with_pending : ℕ

abbrev pub sum64 : List ℕ → ℕ
sum64 [] = 0
sum64 (x ∷ xs) = add64 x (sum64 xs)

abbrev pub pending_amount : PeerStatus → ℕ
pending_amount s = sum64 (map (λ x. x.amount) s.pending)

module _ (pq : PriorityQueue) where
  open pq use {Queue, empty, len, peek, push, pop, update, remove}

  unfoldable pub new_allocator : ℕ → ℕ → Allocator Queue
  new_allocator max_total max_per_peer = record {
    max_total = max_total;
    max_per_peer = max_per_peer;
    allocated = 0;
    next_index = 0;
    statuses = [];
    queue = empty;
  }

  unfoldable pub allocated_for_peer : ℕ → Allocator Queue → ℕ
  allocated_for_peer p a = elim (get? p a.statuses) [ none ↦ 0 | some s ↦ s.total_allocated ]

  -- The first lines of AllocateBlockMemory: a peer that is not known gets a status.
  unfoldable pub ensure_peer : ℕ → Allocator Queue → Allocator Queue
  ensure_peer p a = elim (get? p a.statuses) [
    | none ↦
        let m = insert p (new_status p) a.statuses in
        record a { statuses = m; queue = push (less a.max_per_peer m) p a.queue }
    | some _ ↦ a
  ]

  -- A status that has changed is written and its place in the queue updated.
  unfoldable pub put_status : ℕ → PeerStatus → Allocator Queue → Allocator Queue
  put_status p s a =
      let m = insert p s a.statuses in
      record a { statuses = m; queue = update (less a.max_per_peer m) p a.queue }

  unfoldable pub fits : ℕ → PeerStatus → Allocator Queue → Bool
  fits amount s a =
      leb (add64 a.allocated amount) a.max_total
      && leb (add64 s.total_allocated amount) a.max_per_peer

  unfoldable pub grant_or_defer :
      ℕ → ℕ → ℕ → PeerStatus → Allocator Queue → Allocator Queue × Responses
  unfolding fits put_status no_pending
  grant_or_defer p amount response s a =
      if fits amount s a && no_pending s
      then (
        put_status p (record s { total_allocated = add64 s.total_allocated amount })
            (record a { allocated = add64 a.allocated amount }),
        (response, none) ∷ [],
      )
      else (
        put_status p
            (record s {
              pending =
                  s.pending
                  ++ record {
                    p = p;
                    amount = amount;
                    response = response;
                    alloc_index = a.next_index;
                  }
                    ∷ [];
            })
            (record a { next_index = add64 a.next_index 1 }),
        [],
      )

  unfoldable pub allocate_block_memory : ℕ → ℕ → ℕ → Allocator Queue → Allocator Queue × Responses
  unfolding ensure_peer grant_or_defer status_of
  allocate_block_memory p amount response a =
      let b = ensure_peer p a in grant_or_defer p amount response (status_of p b.statuses) b

  -- processNextPendingAllocationForPeer; `none` is its `false`.
  unfoldable pub process_next :
      ℕ
      → PeerStatus
      → Pending
      → List Pending
      → Allocator Queue
      → Option (Allocator Queue × Responses)
  unfolding put_status
  process_next p s x rest a =
      if ltb a.max_total (add64 a.allocated x.amount)
      then none
      else if ltb a.max_per_peer (add64 s.total_allocated x.amount)
      then none
      else some (
        put_status p
            (record s { total_allocated = add64 s.total_allocated x.amount; pending = rest })
            (record a { allocated = add64 a.allocated x.amount }),
        (x.response, none) ∷ [],
      )

  -- The body of the loop of processPendingAllocations for the peer at the front.
  unfoldable pub process_round : ℕ → PeerStatus → Allocator Queue → Round Queue
  unfolding process_next
  process_round p s a = elim s.pending [
    | [] ↦
        if ltb 0 s.total_allocated
        then stop
        else next
            (record a {
              queue = pop (less a.max_per_peer a.statuses) a.queue;
              statuses = delete p a.statuses;
            })
            []
    | x ∷ rest ↦ elim (process_next p s x rest a) [ none ↦ stop | some (b, rs) ↦ next b rs ]
  ]

  -- The loop of processPendingAllocations on fuel: `none` if the fuel runs out, or if the queue
  -- is not empty and has no front, where the source would fault.
  unfoldable pub process_loop : ℕ → Allocator Queue → Option (Allocator Queue × Responses)
  unfolding process_round status_of
  process_loop zero a = none
  process_loop (suc fuel) a = elim (len a.queue == 0) [
    | true ↦ some (a, [])
    | false ↦ elim (peek a.queue) [
      | none ↦ none
      | some p ↦ elim (process_round p (status_of p a.statuses) a) [
        | stop ↦ some (a, [])
        | next b rs ↦
            Option.map (λ (r : Allocator Queue × Responses). (r.0, rs ++ r.1)) (process_loop fuel b)
      ]
    ]
  ]

  -- Each round of the loop answers a pending allocation or drops a peer.
  abbrev pub rounds : Allocator Queue → ℕ
  rounds a = total (λ s. length s.pending) a.statuses + len a.queue

  unfoldable pub process_pending : Allocator Queue → Option (Allocator Queue × Responses)
  unfolding process_loop
  process_pending a = process_loop (suc (rounds a)) a

  -- The subtraction from the total, which stops at 0.
  unfoldable pub deduct : ℕ → Allocator Queue → Allocator Queue
  deduct amount a = record a {
    allocated = if leb amount a.allocated then a.allocated - amount else 0;
  }

  -- ReleaseBlockMemory up to its call of processPendingAllocations.
  unfoldable pub release_amount : ℕ → ℕ → PeerStatus → Allocator Queue → Allocator Queue
  unfolding deduct put_status
  release_amount p amount s a =
      let freed = if leb amount s.total_allocated then amount else s.total_allocated in
      put_status p (record s { total_allocated = s.total_allocated - freed }) (deduct freed a)

  -- The error comes back first; the outer `none` is that of the loop.
  abbrev pub Released : Type 0
  Released = Option (Option Error × Allocator Queue × Responses)

  unfoldable pub release_block_memory : ℕ → ℕ → Allocator Queue → Released
  unfolding release_amount process_pending
  release_block_memory p amount a = elim (get? p a.statuses) [
    | none ↦ some (some no_allocations, a, [])
    | some s ↦
        Option.map (λ (r : Allocator Queue × Responses). (none, r.0, r.1))
          (process_pending (release_amount p amount s a))
  ]

  -- ReleasePeerMemory up to its call of processPendingAllocations.
  unfoldable pub drop_peer : ℕ → PeerStatus → Allocator Queue → Allocator Queue
  unfolding deduct
  drop_peer p s a = deduct s.total_allocated (record a {
    queue = remove (less a.max_per_peer a.statuses) p a.queue;
    statuses = delete p a.statuses;
  })

  unfoldable pub release_peer_memory : ℕ → Allocator Queue → Released
  unfolding drop_peer process_pending
  release_peer_memory p a = elim (get? p a.statuses) [
    | none ↦ some (some no_allocations, a, [])
    | some s ↦
        Option.map (λ (r : Allocator Queue × Responses). (none, r.0, refusals s.pending ++ r.1))
          (process_pending (drop_peer p s a))
  ]

  unfoldable pub stats : Allocator Queue → Stats
  stats a =
      let amounts = map (λ e. pending_amount e.1) a.statuses in
      record {
        max_allowed_total = a.max_total;
        max_allowed_per_peer = a.max_per_peer;
        total_allocated_all = a.allocated;
        total_pending = sum64 amounts;
        peers_with_pending = sum64 (map (λ n. if ltb 0 n then 1 else 0) amounts);
      }
