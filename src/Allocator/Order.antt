-- ===== src/Allocator/Order.antt =====
-- The comparator of allocator/allocator.go (makePeerStatusCompare).
use go_graphsync.Base.{
  ℕ, ◌≡◌, ◌≢◌, true, false, arith, ◌==◌, if◌then◌else◌, Map, get?, insert, delete, get?-insert,
  get?-delete, some, Bool-cases, inl, inr,
}
use go_graphsync.Allocator.Queue.{IsWeakOrder}
use go_graphsync.Allocator.{PeerStatus, compare_status, status_of, less, new_status}

compare_status-asym :
    (l : ℕ) (a b : PeerStatus) → compare_status l a b ≡ true → compare_status l b a ≡ false
unfolding compare_status
compare_status-asym l a b h = ground arith

compare_status-neg_trans :
    (l : ℕ) (a b c : PeerStatus)
    → compare_status l a b ≡ false
    → compare_status l b c ≡ false
    → compare_status l a c ≡ false
unfolding compare_status
compare_status-neg_trans l a b c h k = ground arith

-- The comparator of the allocator's queue is a strict weak order on the peers, whatever their
-- statuses are: it is asymmetric, and not being less is transitive.
pub less-IsWeakOrder : (l : ℕ) (m : Map PeerStatus) → IsWeakOrder (less l m)
unfolding less
less-IsWeakOrder l m = record {
  asym = λ a b. compare_status-asym l (status_of a m) (status_of b m);
  neg_trans = λ a b c. compare_status-neg_trans l (status_of a m) (status_of b m) (status_of c m);
}

pub status_of-insert :
    (p k : ℕ) (s : PeerStatus) (m : Map PeerStatus)
    → status_of k (insert p s m) ≡ (if p == k then s else status_of k m)
unfolding status_of
status_of-insert p k s m = ground (arith, get?-insert p k s m)

pub status_of-delete :
    (p k : ℕ) (m : Map PeerStatus)
    → status_of k (delete p m) ≡ (if p == k then new_status k else status_of k m)
unfolding status_of
status_of-delete p k m = ground (arith, get?-delete p k m)

pub status_of-some :
    (p : ℕ) (m : Map PeerStatus) {s : PeerStatus} → get? p m ≡ some s → status_of p m ≡ s
unfolding status_of
status_of-some p m h = ground arith

-- Writing one status changes no comparison of the others.
pub less-insert_ne :
    (l p : ℕ) (s : PeerStatus) (m : Map PeerStatus) (a b : ℕ)
    → a ≢ p
    → b ≢ p
    → less l m a b ≡ less l (insert p s m) a b
unfolding less
less-insert_ne l p s m a b h k = ground (arith, status_of-insert p a s m, status_of-insert p b s m)

pub less-delete_ne :
    (l p : ℕ) (m : Map PeerStatus) (a b : ℕ)
    → (p == a) ≡ false
    → (p == b) ≡ false
    → less l m a b ≡ less l (delete p m) a b
unfolding less
less-delete_ne l p m a b h k = ground (arith, status_of-delete p a m, status_of-delete p b m)

-- What holds of the status that is written and of the one that was there holds after the write.
pub status_of-insert_elim {ℓ} :
    (P : PeerStatus → Type ℓ) (p k : ℕ) (s : PeerStatus) (m : Map PeerStatus)
    → P s
    → P (status_of k m)
    → P (status_of k (insert p s m))
status_of-insert_elim P p k s m h h' =
    rw (status_of-insert p k s m) (elim (Bool-cases (p == k)) [ inl e ↦ rw e h | inr e ↦ rw e h' ])

pub status_of-delete_elim {ℓ} :
    (P : PeerStatus → Type ℓ) (p k : ℕ) (m : Map PeerStatus)
    → P (new_status k)
    → P (status_of k m)
    → P (status_of k (delete p m))
status_of-delete_elim P p k m h h' =
    rw (status_of-delete p k m) (elim (Bool-cases (p == k)) [ inl e ↦ rw e h | inr e ↦ rw e h' ])
