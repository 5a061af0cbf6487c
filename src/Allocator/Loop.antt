-- ===== src/Allocator/Loop.antt =====
-- processPendingAllocations of allocator/allocator.go: the loop ends, keeps the accounts, answers
-- exactly those who stop waiting, and leaves nobody waiting who could be served.
use go_graphsync.Base.{
  ℕ, zero, suc, ◌+◌, ◌≤◌, ◌<◌, ◌≡◌, refl, sym, ◌∙◌, true, false, List, [], ◌∷◌, ◌++◌, some, arith,
  ◌==◌, get?, has, Option-cases, List-cases, add64, Bool-cases, inl, inr, ◌⊎◌, some_inj, All, subst,
}
use go_graphsync.Allocator.Queue.{PriorityQueue}
use go_graphsync.Allocator.Order.{less-IsWeakOrder}
use go_graphsync.Allocator.Accounts.{Inv, IsSmall}
use go_graphsync.Allocator.Granting.{
  answered, answered-append, waiting, Advances, process_round-Advances,
}
use go_graphsync.Allocator.{
  Pending, PeerStatus, Allocator, Responses, Round, stop, next, status_of, less, compare_status,
  process_round, process_loop, process_pending, rounds,
}

module _ (pq : PriorityQueue) where
  open pq use {Queue, holds, Ordered}

  -- The loop has stopped: no peer is left, or the one at the front cannot be served.
  abbrev pub Stopped : Allocator Queue → Type 0
  Stopped a =
      (pq.len a.queue ≡ 0)
      ⊎ ((p : ℕ) × (pq.peek a.queue ≡ some p)
          × (process_round pq p (status_of p a.statuses) a ≡ stop))

  pub record Settles (a b : Allocator Queue) (rs : Responses) : Type 0 where
    pub inv : Inv pq b
    pub stopped : Stopped b
    pub conserved : (c : ℕ) → answered c rs + waiting pq c b ≡ waiting pq c a
    pub same_total : b.max_total ≡ a.max_total
    pub same_per_peer : b.max_per_peer ≡ a.max_per_peer

  known :
      (a : Allocator Queue) (p : ℕ)
      → Inv pq a
      → pq.peek a.queue ≡ some p
      → get? p a.statuses ≡ some (status_of p a.statuses)
  unfolding has status_of
  known a p v h = ground (arith, v.synced p, pq.holds-peek a.queue p h)

  Settles-next :
      (a b c : Allocator Queue) (rs ss : Responses)
      → Advances pq a b rs
      → Settles b c ss
      → Settles a c (rs ++ ss)
  Settles-next a b c rs ss d s = record {
    inv = s.inv;
    stopped = s.stopped;
    conserved = λ k. omega (arith, d.conserved k, s.conserved k, answered-append k rs ss);
    same_total = s.same_total ∙ d.same_total;
    same_per_peer = s.same_per_peer ∙ d.same_per_peer;
  }

  Settles-stop : (a : Allocator Queue) → Inv pq a → Stopped a → Settles a a []
  Settles-stop a v s = record {
    inv = v;
    stopped = s;
    conserved = λ k. omega arith;
    same_total = refl;
    same_per_peer = refl;
  }

  Round-cases :
      (r : Round Queue) → (r ≡ stop) ⊎ ((b : Allocator Queue) × (rs : Responses) × (r ≡ next b rs))
  Round-cases stop = inl refl
  Round-cases (next b rs) = inr (b, rs, refl)

  process_loop-Settles :
      (fuel : ℕ) (a : Allocator Queue)
      → Inv pq a
      → rounds pq a < fuel
      → (r : Allocator Queue × Responses) × (process_loop pq fuel a ≡ some r) × Settles a r.0 r.1
  unfolding process_loop
  process_loop-Settles zero a v h = elim h [ ]
  process_loop-Settles (suc fuel) a v h = elim (Bool-cases (pq.len a.queue == 0)) [
    | inl e ↦ ((a, []), rw (e, process_loop) refl, Settles-stop a v (inl (ground arith)))
    | inr e ↦ elim (Option-cases (pq.peek a.queue)) [
      | inl n ↦ absurd (ground (arith, pq.peek-none a.queue n))
      | inr (p, f) ↦ elim (Round-cases (process_round pq p (status_of p a.statuses) a)) [
        | inl s ↦ ((a, []), rw (e, f, s, process_loop) refl, Settles-stop a v (inr (p, f, s)))
        | inr (b, rs, s) ↦
            let d : Advances pq a b rs =
              rw s at
                (process_round-Advances pq p (status_of p a.statuses) a v f (known a p v f)) in
            let (r, q, t) = process_loop-Settles fuel b d.inv (omega (arith, d.fewer)) in
            ((r.0, rs ++ r.1), rw (e, f, s, q, process_loop) refl, Settles-next a b r.0 rs r.1 d t)
      ]
    ]
  ]

  -- The loop always comes to its end, with the accounts in order, one answer for each request that
  -- no longer waits and none for another, and stops only at a front peer that cannot be served.
  pub process_pending-Settles :
      (a : Allocator Queue)
      → Inv pq a
      → (r : Allocator Queue × Responses) × (process_pending pq a ≡ some r) × Settles a r.0 r.1
  unfolding process_pending
  process_pending-Settles a v = process_loop-Settles (suc (rounds pq a)) a v (omega arith)

  -- Who waits behind a stopped queue: the head of a peer's list exceeds what the peer may have, or
  -- one that came no later exceeds what is left in all.
  abbrev pub Blocked : Allocator Queue → PeerStatus → Pending → Type 0
  Blocked a s x =
      (a.max_per_peer < s.total_allocated + x.amount)
      ⊎ ((p : ℕ) × (y : Pending) × (rest : List Pending) × ((status_of p a.statuses).pending
            ≡ y ∷ rest)
          × (y.alloc_index ≤ x.alloc_index)
          × (a.max_total < a.allocated + y.amount))

  not_least :
      (limit : ℕ) (s t : PeerStatus) (x : Pending) (rest : List Pending)
      → s.pending ≡ x ∷ rest
      → compare_status limit s t ≡ false
      → (y : Pending) × (more : List Pending) × (t.pending ≡ y ∷ more)
        × ((limit < add64 s.total_allocated x.amount)
            ⊎ ((add64 t.total_allocated y.amount ≤ limit) × (y.alloc_index ≤ x.alloc_index)))
  unfolding compare_status
  not_least limit s t x rest e h = elim (List-cases t.pending) [
    | inl n ↦ absurd (ground arith)
    | inr (y, more, f) ↦ (y, more, f, ground arith)
  ]

  stop_blocked :
      (p : ℕ) (t : PeerStatus) (y : Pending) (more : List Pending) (a : Allocator Queue)
      → t.pending ≡ y ∷ more
      → process_round pq p t a ≡ stop
      → add64 t.total_allocated y.amount ≤ a.max_per_peer
      → a.max_total < add64 a.allocated y.amount
  unfolding process_round
  stop_blocked p t y more a e s h = ground arith

  head_small :
      (a : Allocator Queue) (p : ℕ) (y : Pending) (more : List Pending)
      → Inv pq a
      → (status_of p a.statuses).pending ≡ y ∷ more
      → (add64 a.allocated y.amount ≡ a.allocated + y.amount)
        × (add64 (status_of p a.statuses).total_allocated y.amount
            ≡ (status_of p a.statuses).total_allocated + y.amount)
  head_small a p y more v e =
      let w : All (IsSmall a.max_total a.max_per_peer) (y ∷ more) = rw e at (v.small p) in
      omega (arith, w.0, v.within_total, v.within_peer p)

  Stopped-Blocked :
      (a : Allocator Queue) (k : ℕ) (x : Pending) (rest : List Pending)
      → Inv pq a
      → has k a.statuses ≡ true
      → (status_of k a.statuses).pending ≡ x ∷ rest
      → Stopped a
      → Blocked a (status_of k a.statuses) x
  Stopped-Blocked a k x rest v h e (inl z) =
      absurd
        (omega (arith, pq.len-remove (less a.max_per_peer a.statuses) k a.queue (v.synced k ∙ h)))
  Stopped-Blocked a k x rest v h e (inr (p, f, s)) =
      let (y, more, g, c) =
        not_least a.max_per_peer (status_of k a.statuses) (status_of p a.statuses) x rest e (
          unfold less in
          pq.peek-least (less a.max_per_peer a.statuses) a.queue p k (less-IsWeakOrder _ _)
            v.ordered f (v.synced k ∙ h)) in
      elim c [
        | inl own ↦ inl (omega (arith, head_small a k x rest v e))
        | inr (fits, older) ↦ inr (
          p,
          y,
          more,
          g,
          older,
          omega (
            arith,
            head_small a p y more v g,
            stop_blocked p (status_of p a.statuses) y more a g s fits,
          ),
        )
      ]

  -- When the loop has run, a peer's oldest request waits only if the peer's own limit forbids it,
  -- or if a request that came no later waits for room in the total.
  pub process_pending_fair :
      (a b : Allocator Queue) (rs : Responses) (k : ℕ) (x : Pending) (rest : List Pending)
      → Inv pq a
      → process_pending pq a ≡ some (b, rs)
      → get? k b.statuses ≡ some (status_of k b.statuses)
      → (status_of k b.statuses).pending ≡ x ∷ rest
      → Blocked b (status_of k b.statuses) x
  unfolding has
  process_pending_fair a b rs k x rest v h g e =
      let (r, q, t) = process_pending-Settles a v in
      let same : r ≡ (b, rs) = some_inj (sym q ∙ h) in
      Stopped-Blocked b k x rest (subst (λ z. Inv pq z.0) same t.inv) (rw (g, has) refl) e
        (subst (λ z. Stopped z.0) same t.stopped)
