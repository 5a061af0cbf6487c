-- ===== src/Allocator/Queue.antt =====
-- What allocator/allocator.go relies on of its priority queue (github.com/ipfs/go-ipfs-pq), which
-- holds the peers and compares them by a function that reads their present statuses.
use go_graphsync.Base.{ℕ, suc, ◌≡◌, ◌≢◌, Bool, true, false, Option, none, some, ◌==◌, if◌then◌else◌}

abbrev pub Less : Type 0
Less = ℕ → ℕ → Bool

-- What a comparator has to be for a heap to work.
pub record IsWeakOrder (less : Less) : Type 0 where
  pub asym : (a b : ℕ) → less a b ≡ true → less b a ≡ false
  pub neg_trans : (a b c : ℕ) → less a b ≡ false → less b c ≡ false → less a c ≡ false

-- `Ordered less q` stands for the heap order inside the queue, which the operations keep by
-- comparing elements. `update` restores it after the priority of one element has changed.
pub record PriorityQueue : Type 1 where
  pub Queue : Type 0
  pub empty : Queue
  pub len : Queue → ℕ
  pub peek : Queue → Option ℕ
  pub push : Less → ℕ → Queue → Queue
  pub pop : Less → Queue → Queue
  pub update : Less → ℕ → Queue → Queue
  pub remove : Less → ℕ → Queue → Queue
  pub holds : ℕ → Queue → Bool
  pub Ordered : Less → Queue → Type 0
  pub holds-empty : (k : ℕ) → holds k empty ≡ false
  pub holds-push :
      (l : Less) (p k : ℕ) (q : Queue) → holds k (push l p q) ≡ (if p == k then true else holds k q)
  pub holds-update : (l : Less) (p k : ℕ) (q : Queue) → holds k (update l p q) ≡ holds k q
  pub holds-remove :
      (l : Less) (p k : ℕ) (q : Queue)
      → holds k (remove l p q) ≡ (if p == k then false else holds k q)
  pub holds-peek : (q : Queue) (p : ℕ) → peek q ≡ some p → holds p q ≡ true
  pub peek-none : (q : Queue) → peek q ≡ none → len q ≡ 0
  pub pop-remove : (l : Less) (q : Queue) (p : ℕ) → peek q ≡ some p → pop l q ≡ remove l p q
  pub len-update : (l : Less) (p : ℕ) (q : Queue) → len (update l p q) ≡ len q
  pub len-remove :
      (l : Less) (p : ℕ) (q : Queue) → holds p q ≡ true → len q ≡ suc (len (remove l p q))
  pub Ordered-empty : (l : Less) → Ordered l empty
  pub Ordered-push :
      (l : Less) (p : ℕ) (q : Queue) → IsWeakOrder l → Ordered l q → Ordered l (push l p q)
  pub Ordered-remove :
      (l : Less) (p : ℕ) (q : Queue) → IsWeakOrder l → Ordered l q → Ordered l (remove l p q)
  pub Ordered-update :
      (l l' : Less) (p : ℕ) (q : Queue)
      → IsWeakOrder l
      → ((a b : ℕ) → a ≢ p → b ≢ p → l' a b ≡ l a b)
      → Ordered l' q
      → Ordered l (update l p q)
  pub Ordered-agree :
      (l l' : Less) (q : Queue)
      → ((a b : ℕ) → holds a q ≡ true → holds b q ≡ true → l' a b ≡ l a b)
      → Ordered l' q
      → Ordered l q
  pub peek-least :
      (l : Less) (q : Queue) (p k : ℕ)
      → IsWeakOrder l
      → Ordered l q
      → peek q ≡ some p
      → holds k q ≡ true
      → l k p ≡ false
