-- ===== src/Allocator/Operations.antt =====
-- The methods of allocator/allocator.go in any order: the accounts hold after each of them, and
-- each allocation request is answered once or still waits.
use go_graphsync.Base.{
  ℕ, ◌+◌, ◌-◌, ◌≤◌, ◌<◌, ◌≡◌, refl, List, [], ◌∷◌, ◌++◌, map, value-le-total, Option, some, arith,
  leb, ◌==◌, if◌then◌else◌, get?, total-delete, total-insert, Option-cases, inl, inr, All, u64_mod,
  count,
}
use mathlib.Core.Option
use go_graphsync.Allocator.Queue.{PriorityQueue}
use go_graphsync.Allocator.Order.{status_of-some}
use go_graphsync.Allocator.Accounts.{
  Inv, IsSmall, put_status-Inv, delete-Inv, ensure_peer-Inv, ensure_peer_limits,
}
use go_graphsync.Allocator.Granting.{
  answered, answered-append, waiting, waiting_in, grant_or_defer-Inv, grant_or_defer-waiting,
}
use go_graphsync.Allocator.Loop.{process_pending-Settles}
use go_graphsync.Allocator.{
  Pending, PeerStatus, Allocator, Responses, new_status, ensure_peer, put_status,
  allocate_block_memory, deduct, release_amount, release_block_memory, drop_peer, refusals,
  release_peer_memory, Released,
}

pub data Op : Type 0 where
  allocate : ℕ → ℕ → ℕ → Op
  release : ℕ → ℕ → Op
  release_peer : ℕ → Op

answered-refusals :
    (c : ℕ) (xs : List Pending) → answered c (refusals xs) ≡ count c (map (λ x. x.response) xs)
answered-refusals c [] = refl
answered-refusals c (x ∷ xs) = ground (arith, answered-refusals c xs)

module _ (pq : PriorityQueue) where
  open pq use {Queue}

  abbrev without_error : Released pq → Option (Allocator Queue × Responses)
  without_error = Option.map λ r. (r.1, r.2)

  pub step : Op → Allocator Queue → Option (Allocator Queue × Responses)
  step (allocate p amount response) a = some (allocate_block_memory pq p amount response a)
  step (release p amount) a = without_error (release_block_memory pq p amount a)
  step (release_peer p) a = without_error (release_peer_memory pq p a)

  -- The amount of a new request is added to the limits without a wrap.
  abbrev pub IsSmallOp : Allocator Queue → Op → Type 0
  IsSmallOp a (allocate p amount response) =
      (a.max_total + amount < u64_mod) × (a.max_per_peer + amount < u64_mod)
  IsSmallOp a _ = Unit

  abbrev pub asks : ℕ → Op → ℕ
  asks c (allocate p amount response) = if response == c then 1 else 0
  asks c _ = 0

  pub record Accounted (op : Op) (a b : Allocator Queue) (rs : Responses) : Type 0 where
    pub inv : Inv pq b
    pub conserved : (c : ℕ) → answered c rs + waiting pq c b ≡ waiting pq c a + asks c op

  waiting-ensure_peer :
      (p c : ℕ) (a : Allocator Queue) → waiting pq c (ensure_peer pq p a) ≡ waiting pq c a
  unfolding ensure_peer
  waiting-ensure_peer p c a =
      ground (arith, total-insert (waiting_in c) p (new_status p) a.statuses)

  pub allocate-Accounted :
      (p amount response : ℕ) (a : Allocator Queue)
      → Inv pq a
      → IsSmallOp a (allocate p amount response)
      → let r = allocate_block_memory pq p amount response a in
        Accounted (allocate p amount response) a r.0 r.1
  unfolding allocate_block_memory
  allocate-Accounted p amount response a v h =
      let (w, k) = ensure_peer-Inv pq p a v in
      let (t, m, _) = ensure_peer_limits pq p a in
      record {
        inv =
            grant_or_defer-Inv pq p amount response _ (ensure_peer pq p a) w k
              (omega (arith, t, h.0)) (omega (arith, m, h.1));
        conserved = λ c. omega (
          arith,
          waiting-ensure_peer p c a,
          grant_or_defer-waiting pq c p amount response _ (ensure_peer pq p a) k,
        );
      }

  release_amount-Inv :
      (p amount : ℕ) (s : PeerStatus) (a : Allocator Queue)
      → Inv pq a
      → get? p a.statuses ≡ some s
      → Inv pq (release_amount pq p amount s a)
        × ((c : ℕ) → waiting pq c (release_amount pq p amount s a) ≡ waiting pq c a)
  unfolding release_amount deduct put_status
  release_amount-Inv p amount s a v g =
      let most = value-le-total (λ r. r.total_allocated) p a.statuses in
      (
        put_status-Inv pq a p _ a.next_index s freed v g (ground (arith, most, v.accounted))
            (ground (arith, v.within_total)) (omega (arith, own)) held,
        λ c. ground (arith, total-insert (waiting_in c) p freed a.statuses),
      )
    where
      freed : PeerStatus
      freed = record s {
        total_allocated =
            s.total_allocated
            - (if leb amount s.total_allocated then amount else s.total_allocated);
      }

      held : All (IsSmall a.max_total a.max_per_peer) s.pending
      held = rw (status_of-some p a.statuses g) at (v.small p)

      own : s.total_allocated ≤ a.max_per_peer
      own = rw (status_of-some p a.statuses g) at (v.within_peer p)

  drop_peer-Inv :
      (p : ℕ) (s : PeerStatus) (a : Allocator Queue)
      → Inv pq a
      → get? p a.statuses ≡ some s
      → Inv pq (drop_peer pq p s a)
        × ((c : ℕ)
            → answered c (refusals s.pending) + waiting pq c (drop_peer pq p s a) ≡ waiting pq c a)
  unfolding drop_peer deduct
  drop_peer-Inv p s a v g =
      let most = value-le-total (λ r. r.total_allocated) p a.statuses in
      (
        delete-Inv pq a p _ s v g (ground (arith, most, v.accounted)),
        λ c. ground (
          arith,
          total-delete (waiting_in c) p a.statuses v.distinct,
          answered-refusals c s.pending,
        ),
      )

  -- Every method returns, with the accounts in order: the total is the sum over the peers, both
  -- limits hold, the queue knows exactly the peers of the map, and of the requests on a channel
  -- those answered and those left waiting are those that waited before and the one that is new.
  pub step-Accounted :
      (op : Op) (a : Allocator Queue)
      → Inv pq a
      → IsSmallOp a op
      → (r : Allocator Queue × Responses) × (step op a ≡ some r) × Accounted op a r.0 r.1
  unfolding step release_block_memory release_peer_memory
  step-Accounted (allocate p amount response) a v h = (
    allocate_block_memory pq p amount response a,
    refl,
    allocate-Accounted p amount response a v h,
  )
  step-Accounted (release p amount) a v h = elim (Option-cases (get? p a.statuses)) [
    | inl e ↦ (
      (a, []),
      rw (e, release_block_memory) refl,
      record { inv = v; conserved = λ c. omega arith },
    )
    | inr (s, e) ↦
        let (w, k) = release_amount-Inv p amount s a v e in
        let (r, q, t) = process_pending-Settles pq (release_amount pq p amount s a) w in
        (
          r,
          rw (e, release_block_memory, q) refl,
          record { inv = t.inv; conserved = λ c. omega (arith, t.conserved c, k c) },
        )
  ]
  step-Accounted (release_peer p) a v h = elim (Option-cases (get? p a.statuses)) [
    | inl e ↦ (
      (a, []),
      rw (e, release_peer_memory) refl,
      record { inv = v; conserved = λ c. omega arith },
    )
    | inr (s, e) ↦
        let (w, k) = drop_peer-Inv p s a v e in
        let (r, q, t) = process_pending-Settles pq (drop_peer pq p s a) w in
        (
          (r.0, refusals s.pending ++ r.1),
          rw (e, release_peer_memory, q) refl,
          record {
            inv = t.inv;
            conserved =
                λ c. omega (arith, t.conserved c, k c, answered-append c (refusals s.pending) r.1);
          },
        )
  ]
