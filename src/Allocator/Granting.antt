-- ===== src/Allocator/Granting.antt =====
-- The grants of allocator/allocator.go: AllocateBlockMemory and one round of the loop of
-- processPendingAllocations.
use go_graphsync.Base.{
  ℕ, suc, ◌+◌, ◌≤◌, ◌<◌, ◌≡◌, refl, ◌&&◌, List, [], ◌∷◌, ◌++◌, map, none, some, arith, ltb, ◌==◌,
  if◌then◌else◌, get?, insert, delete, total, total-insert, total-delete, All, All-append,
  List-cases, u64_mod, add64, Bool-cases, length, count, count-append, inl, inr,
}
use mathlib.Core.List.{map-append}
use go_graphsync.Allocator.Queue.{PriorityQueue}
use go_graphsync.Allocator.Order.{status_of-some}
use go_graphsync.Allocator.Accounts.{IsSmall, Inv, put_status-Inv, delete-Inv}
use go_graphsync.Allocator.{
  Pending, PeerStatus, Allocator, Responses, Round, stop, next, less, put_status, grant_or_defer,
  fits, no_pending, process_round, rounds,
}

-- How many answers went to a response channel.
abbrev pub answered : ℕ → Responses → ℕ
answered c rs = count c (map (λ r. r.0) rs)

-- How many pending allocations of a peer wait on a response channel.
abbrev pub waiting_in : ℕ → PeerStatus → ℕ
waiting_in c s = count c (map (λ x. x.response) s.pending)

pub answered-append :
    (c : ℕ) (rs ss : Responses) → answered c (rs ++ ss) ≡ answered c rs + answered c ss
answered-append c rs ss = rw map-append (count-append c (map (λ r. r.0) rs) (map (λ r. r.0) ss))

waiting_in-snoc :
    (c : ℕ) (xs : List Pending) (x : Pending)
    → count c (map (λ y. y.response) (xs ++ x ∷ []))
      ≡ count c (map (λ y. y.response) xs) + (if x.response == c then 1 else 0)
waiting_in-snoc c [] x = omega arith
waiting_in-snoc c (y ∷ ys) x = omega (arith, waiting_in-snoc c ys x)

module _ (pq : PriorityQueue) where
  open pq use {Queue, holds, Ordered}

  abbrev pub waiting : ℕ → Allocator Queue → ℕ
  waiting c a = total (waiting_in c) a.statuses

  -- AllocateBlockMemory for a known peer keeps the accounts.
  pub grant_or_defer-Inv :
      (p amount response : ℕ) (s : PeerStatus) (a : Allocator Queue)
      → Inv pq a
      → get? p a.statuses ≡ some s
      → a.max_total + amount < u64_mod
      → a.max_per_peer + amount < u64_mod
      → Inv pq (grant_or_defer pq p amount response s a).0
  unfolding grant_or_defer
  grant_or_defer-Inv p amount response s a v g t m =
      elim (Bool-cases (fits pq amount s a && no_pending s)) [
        | inl e ↦ rw e (
            put_status-Inv pq a p _ _ s _ v g (ground (arith, own)) (ground arith)
              (ground (arith, own)) held)
        | inr e ↦ rw e (
            put_status-Inv pq a p _ _ s _ v g refl v.within_total own
              (All-append _ s.pending _ held ((t, m), tt)))
      ]
    where
      held : All (IsSmall a.max_total a.max_per_peer) s.pending
      held = rw (status_of-some p a.statuses g) at (v.small p)

      own : s.total_allocated ≤ a.max_per_peer
      own = rw (status_of-some p a.statuses g) at (v.within_peer p)

  -- The new request is answered or kept, and nobody else's waiting changes.
  pub grant_or_defer-waiting :
      (c p amount response : ℕ) (s : PeerStatus) (a : Allocator Queue)
      → get? p a.statuses ≡ some s
      → let r = grant_or_defer pq p amount response s a in
        answered c r.1 + waiting c r.0 ≡ waiting c a + (if response == c then 1 else 0)
  unfolding grant_or_defer put_status
  grant_or_defer-waiting c p amount response s a g =
      elim (Bool-cases (fits pq amount s a && no_pending s)) [
        | inl e ↦ rw e (ground (arith, total-insert (waiting_in c) p given a.statuses))
        | inr e ↦ rw e (
            ground (
              arith,
              total-insert (waiting_in c) p kept a.statuses,
              waiting_in-snoc c s.pending new,
            ))
      ]
    where
      new : Pending
      new = record { p = p; amount = amount; response = response; alloc_index = a.next_index }

      given : PeerStatus
      given = record s { total_allocated = add64 s.total_allocated amount }

      kept : PeerStatus
      kept = record s { pending = s.pending ++ new ∷ [] }

  -- What one round of processPendingAllocations does: it keeps the accounts, comes nearer to the
  -- end, and answers exactly those that stop waiting.
  pub record Advances (a b : Allocator Queue) (rs : Responses) : Type 0 where
    pub inv : Inv pq b
    pub fewer : suc (rounds pq b) ≡ rounds pq a
    pub conserved : (c : ℕ) → answered c rs + waiting c b ≡ waiting c a
    pub same_total : b.max_total ≡ a.max_total
    pub same_per_peer : b.max_per_peer ≡ a.max_per_peer

  abbrev pub RoundAdvances : Allocator Queue → Round Queue → Type 0
  RoundAdvances a stop = Unit
  RoundAdvances a (next b rs) = Advances a b rs

  abbrev served : PeerStatus → Pending → List Pending → PeerStatus
  served s x rest = record s { total_allocated = add64 s.total_allocated x.amount; pending = rest }

  granted-Advances :
      (p : ℕ) (s : PeerStatus) (x : Pending) (rest : List Pending) (a : Allocator Queue)
      → Inv pq a
      → get? p a.statuses ≡ some s
      → s.pending ≡ x ∷ rest
      → add64 a.allocated x.amount ≤ a.max_total
      → add64 s.total_allocated x.amount ≤ a.max_per_peer
      → Advances a
          (put_status pq p (served s x rest) (record a { allocated = add64 a.allocated x.amount }))
          ((x.response, none) ∷ [])
  unfolding put_status
  granted-Advances p s x rest a v g e t m = record {
    inv = put_status-Inv pq a p _ _ s _ v g (omega (arith, own, held.0, v.within_total)) t m held.1;
    fewer = ground (
      arith,
      total-insert (λ r. length r.pending) p (served s x rest) a.statuses,
      pq.len-update (less a.max_per_peer (insert p (served s x rest) a.statuses)) p a.queue,
    );
    conserved = λ c. ground (arith, total-insert (waiting_in c) p (served s x rest) a.statuses);
    same_total = refl;
    same_per_peer = refl;
  }
    where
      held : All (IsSmall a.max_total a.max_per_peer) (x ∷ rest)
      held = rw (status_of-some p a.statuses g, e) at (v.small p)

      own : s.total_allocated ≤ a.max_per_peer
      own = rw (status_of-some p a.statuses g) at (v.within_peer p)

  emptied-Advances :
      (p : ℕ) (s : PeerStatus) (a : Allocator Queue)
      → Inv pq a
      → pq.peek a.queue ≡ some p
      → get? p a.statuses ≡ some s
      → s.pending ≡ []
      → s.total_allocated ≡ 0
      → Advances a
          (record a {
            queue = pq.pop (less a.max_per_peer a.statuses) a.queue;
            statuses = delete p a.statuses;
          })
          []
  emptied-Advances p s a v h g e z =
      rw (pq.pop-remove (less a.max_per_peer a.statuses) a.queue p h) (record {
        inv = delete-Inv pq a p a.allocated s v g (omega arith);
        fewer = ground (
          arith,
          total-delete (λ r. length r.pending) p a.statuses v.distinct,
          pq.len-remove (less a.max_per_peer a.statuses) p a.queue (pq.holds-peek a.queue p h),
        );
        conserved = λ c. ground (arith, total-delete (waiting_in c) p a.statuses v.distinct);
        same_total = refl;
        same_per_peer = refl;
      })

  pub process_round-Advances :
      (p : ℕ) (s : PeerStatus) (a : Allocator Queue)
      → Inv pq a
      → pq.peek a.queue ≡ some p
      → get? p a.statuses ≡ some s
      → RoundAdvances a (process_round pq p s a)
  unfolding process_round
  process_round-Advances p s a v h g = elim (List-cases s.pending) [
    | inl e ↦
        rw (e, process_round)
          (elim (Bool-cases (ltb 0 s.total_allocated)) [
            | inl t ↦ rw t tt
            | inr t ↦ rw t (emptied-Advances p s a v h g e (ground arith))
          ])
    | inr (x, rest, e) ↦
        rw (e, process_round)
          (elim (Bool-cases (ltb a.max_total (add64 a.allocated x.amount))) [
            | inl t ↦ rw t tt
            | inr t ↦
                rw t (elim (Bool-cases (ltb a.max_per_peer (add64 s.total_allocated x.amount))) [
                  | inl m ↦ rw m tt
                  | inr m ↦ rw m (granted-Advances p s x rest a v g e (ground arith) (ground arith))
                ])
          ])
  ]
