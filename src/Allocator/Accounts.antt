-- ===== src/Allocator/Accounts.antt =====
-- The accounts of allocator/allocator.go: the total is the sum over the peers and both limits hold.
use go_graphsync.Base.{
  ℕ, ◌+◌, ◌≤◌, ◌<◌, ◌≡◌, refl, true, none, some, arith, ◌==◌, if◌then◌else◌, Map, get?, insert,
  delete, has, IsMap, total, get?-insert, get?-insert_self, get?-delete, insert-IsMap, delete-IsMap,
  total-insert, total-delete, All, Option-cases, inl, inr, u64_mod,
}
use go_graphsync.Allocator.Queue.{PriorityQueue}
use go_graphsync.Allocator.Order.{
  less-IsWeakOrder, status_of-insert, less-insert_ne, less-delete_ne, status_of-insert_elim,
  status_of-delete_elim,
}
use go_graphsync.Allocator.{
  Pending, PeerStatus, Allocator, new_status, status_of, less, new_allocator, ensure_peer,
  put_status,
}

-- Adding the amount to a total within its limit does not wrap.
abbrev pub IsSmall : ℕ → ℕ → Pending → Type 0
IsSmall max_total max_per_peer x =
    (max_total + x.amount < u64_mod) × (max_per_peer + x.amount < u64_mod)

module _ (pq : PriorityQueue) where
  open pq use {Queue, holds, Ordered}

  pub record Inv (a : Allocator Queue) : Type 0 where
    pub distinct : IsMap a.statuses
    pub synced : (p : ℕ) → holds p a.queue ≡ has p a.statuses
    pub ordered : Ordered (less a.max_per_peer a.statuses) a.queue
    pub accounted : a.allocated ≡ total (λ s. s.total_allocated) a.statuses
    pub within_total : a.allocated ≤ a.max_total
    pub within_peer : (p : ℕ) → (status_of p a.statuses).total_allocated ≤ a.max_per_peer
    pub small : (p : ℕ) → All (IsSmall a.max_total a.max_per_peer) (status_of p a.statuses).pending

  pub new_allocator-Inv : (t m : ℕ) → Inv (new_allocator pq t m)
  unfolding new_allocator has get? status_of
  new_allocator-Inv t m = record {
    distinct = tt;
    synced = λ p. pq.holds-empty p;
    ordered = pq.Ordered-empty _;
    accounted = refl;
    within_total = omega arith;
    within_peer = λ p. omega arith;
    small = λ p. tt;
  }

  has-insert :
      (p k : ℕ) (s : PeerStatus) (m : Map PeerStatus)
      → has k (insert p s m) ≡ (if p == k then true else has k m)
  unfolding has
  has-insert p k s m = ground (arith, get?-insert p k s m)

  -- A known peer's new status is written with a total that matches it.
  pub put_status-Inv :
      (a : Allocator Queue) (p n i : ℕ) (old s : PeerStatus)
      → Inv a
      → get? p a.statuses ≡ some old
      → n + old.total_allocated ≡ a.allocated + s.total_allocated
      → n ≤ a.max_total
      → s.total_allocated ≤ a.max_per_peer
      → All (IsSmall a.max_total a.max_per_peer) s.pending
      → Inv (put_status pq p s (record a { allocated = n; next_index = i }))
  unfolding put_status has
  put_status-Inv a p n i old s v g e t w k = record {
    distinct = insert-IsMap p s a.statuses v.distinct;
    synced = λ q. ground (
      arith,
      pq.holds-update (less a.max_per_peer (insert p s a.statuses)) p q a.queue,
      has-insert p q s a.statuses,
      v.synced q,
      v.synced p,
    );
    ordered =
        pq.Ordered-update _ (less a.max_per_peer a.statuses) p a.queue (less-IsWeakOrder _ _)
          (less-insert_ne a.max_per_peer p s a.statuses) v.ordered;
    accounted = ground (arith, total-insert (λ r. r.total_allocated) p s a.statuses, v.accounted);
    within_total = t;
    within_peer = λ q. ground (arith, status_of-insert p q s a.statuses, v.within_peer q);
    small = λ q.
        status_of-insert_elim (λ r. All (IsSmall a.max_total a.max_per_peer) r.pending) p q s
          a.statuses k (v.small q);
  }

  -- A status leaves the map and the queue, and its memory the total.
  pub delete-Inv :
      (a : Allocator Queue) (p n : ℕ) (s : PeerStatus)
      → Inv a
      → get? p a.statuses ≡ some s
      → n + s.total_allocated ≡ a.allocated
      → Inv (record a {
        allocated = n;
        queue = pq.remove (less a.max_per_peer a.statuses) p a.queue;
        statuses = delete p a.statuses;
      })
  unfolding has
  delete-Inv a p n s v g e = record {
    distinct = delete-IsMap p a.statuses v.distinct;
    synced = λ q. ground (
      arith,
      pq.holds-remove (less a.max_per_peer a.statuses) p q a.queue,
      get?-delete p q a.statuses,
      v.synced q,
    );
    ordered =
        pq.Ordered-agree _ (less a.max_per_peer a.statuses) _
          (λ x y hx hy.
            less-delete_ne a.max_per_peer p a.statuses x y
              (ground (arith, pq.holds-remove (less a.max_per_peer a.statuses) p x a.queue))
              (ground (arith, pq.holds-remove (less a.max_per_peer a.statuses) p y a.queue)))
          (pq.Ordered-remove _ p a.queue (less-IsWeakOrder _ _) v.ordered);
    accounted =
        ground (arith, total-delete (λ r. r.total_allocated) p a.statuses v.distinct, v.accounted);
    within_total = omega (arith, v.within_total);
    within_peer = λ q.
        status_of-delete_elim (λ r. r.total_allocated ≤ a.max_per_peer) p q a.statuses (omega arith)
          (v.within_peer q);
    small = λ q.
        status_of-delete_elim (λ r. All (IsSmall a.max_total a.max_per_peer) r.pending) p q
          a.statuses tt (v.small q);
  }

  add-Inv :
      (a : Allocator Queue) (p : ℕ)
      → Inv a
      → get? p a.statuses ≡ none
      → let m = insert p (new_status p) a.statuses in
        Inv (record a { statuses = m; queue = pq.push (less a.max_per_peer m) p a.queue })
  unfolding has
  add-Inv a p v g = record {
    distinct = insert-IsMap p (new_status p) a.statuses v.distinct;
    synced = λ q. ground (
      arith,
      pq.holds-push (less a.max_per_peer (insert p (new_status p) a.statuses)) p q a.queue,
      has-insert p q (new_status p) a.statuses,
      v.synced q,
    );
    ordered = pq.Ordered-push _ p a.queue (less-IsWeakOrder _ _) (
        pq.Ordered-agree _ (less a.max_per_peer a.statuses) _
          (λ x y hx hy.
            less-insert_ne a.max_per_peer p (new_status p) a.statuses x y
              (λ e. ground (arith, v.synced x, v.synced p))
              (λ e. ground (arith, v.synced y, v.synced p)))
          v.ordered);
    accounted =
        ground
          (arith, total-insert (λ r. r.total_allocated) p (new_status p) a.statuses, v.accounted);
    within_total = v.within_total;
    within_peer = λ q.
        status_of-insert_elim (λ r. r.total_allocated ≤ a.max_per_peer) p q (new_status p)
          a.statuses (omega arith) (v.within_peer q);
    small = λ q.
        status_of-insert_elim (λ r. All (IsSmall a.max_total a.max_per_peer) r.pending) p q
          (new_status p) a.statuses tt (v.small q);
  }

  -- After ensure_peer the peer is known, with the status that it had or a new one.
  pub ensure_peer-Inv :
      (p : ℕ) (a : Allocator Queue)
      → Inv a
      → Inv (ensure_peer pq p a)
        × (get? p (ensure_peer pq p a).statuses ≡ some (status_of p (ensure_peer pq p a).statuses))
  unfolding ensure_peer status_of
  ensure_peer-Inv p a v = elim (Option-cases (get? p a.statuses)) [
    | inl e ↦
        rw (e, ensure_peer)
          (add-Inv a p v e, ground (arith, get?-insert_self p (new_status p) a.statuses))
    | inr (s, e) ↦ rw (e, ensure_peer, status_of) (v, ground arith)
  ]

  pub ensure_peer_limits :
      (p : ℕ) (a : Allocator Queue)
      → ((ensure_peer pq p a).max_total ≡ a.max_total)
        × ((ensure_peer pq p a).max_per_peer ≡ a.max_per_peer)
        × ((ensure_peer pq p a).allocated ≡ a.allocated)
  unfolding ensure_peer
  ensure_peer_limits p a = ground arith
