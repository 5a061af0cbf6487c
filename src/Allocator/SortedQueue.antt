-- ===== src/Allocator/SortedQueue.antt =====
-- A priority queue that meets what allocator/allocator.go relies on: a list in the order of the
-- comparator. It shows that the assumptions of `PriorityQueue` can be met, and runs in the tests.
use go_graphsync.Base.{
  ℕ, suc, ◌≡◌, ◌≢◌, refl, sym, ◌∙◌, true, false, List, [], ◌∷◌, Option, none, some, arith, ◌==◌,
  if◌then◌else◌, All, contains, Bool-cases, inl, inr, subst, ==_iff, some_inj,
}
use go_graphsync.Allocator.Queue.{Less, IsWeakOrder, PriorityQueue}

abbrev pub front : List ℕ → Option ℕ
front [] = none
front (x ∷ _) = some x

abbrev pub ins : Less → ℕ → List ℕ → List ℕ
ins l p [] = p ∷ []
ins l p (x ∷ xs) = let rest = ins l p xs in if l x p then x ∷ rest else p ∷ x ∷ xs

abbrev pub without : ℕ → List ℕ → List ℕ
without p [] = []
without p (x ∷ xs) = let rest = without p xs in if x == p then rest else x ∷ rest

-- The number of distinct entries.
abbrev pub size : List ℕ → ℕ
size [] = 0
size (x ∷ xs) = if contains x xs then size xs else suc (size xs)

abbrev pub resort : Less → ℕ → List ℕ → List ℕ
resort l p q = if contains p q then ins l p (without p q) else q

abbrev pub tail : List ℕ → List ℕ
tail [] = []
tail (x ∷ xs) = without x xs

pub contains-ins :
    (l : Less) (p k : ℕ) (q : List ℕ)
    → contains k (ins l p q) ≡ (if p == k then true else contains k q)
contains-ins l p k [] = refl
contains-ins l p k (x ∷ xs) = ground (arith, contains-ins l p k xs)

pub contains-without :
    (p k : ℕ) (q : List ℕ) → contains k (without p q) ≡ (if p == k then false else contains k q)
contains-without p k [] = ground arith
contains-without p k (x ∷ xs) = ground (arith, contains-without p k xs)

pub contains-resort : (l : Less) (p k : ℕ) (q : List ℕ) → contains k (resort l p q) ≡ contains k q
contains-resort l p k q = elim (Bool-cases (contains p q)) [
  | inl e ↦ rw e (ground (arith, contains-ins l p k (without p q), contains-without p k q))
  | inr e ↦ rw e refl
]

size-ins : (l : Less) (p : ℕ) (q : List ℕ) → contains p q ≡ false → size (ins l p q) ≡ suc (size q)
size-ins l p [] h = refl
size-ins l p (x ∷ xs) h = ground (arith, size-ins l p xs, contains-ins l p x xs)

without_absent : (p : ℕ) (q : List ℕ) → contains p q ≡ false → without p q ≡ q
without_absent p [] h = refl
without_absent p (x ∷ xs) h = ground (arith, without_absent p xs)

pub size-without : (p : ℕ) (q : List ℕ) → contains p q ≡ true → size q ≡ suc (size (without p q))
size-without p [] h = cc
size-without p (x ∷ xs) h = elim (Bool-cases (contains p xs)) [
  | inl e ↦ ground (arith, size-without p xs e, contains-without p x xs)
  | inr e ↦ ground (arith, without_absent p xs e)
]

pub size-resort : (l : Less) (p : ℕ) (q : List ℕ) → size (resort l p q) ≡ size q
size-resort l p q = elim (Bool-cases (contains p q)) [
  | inl e ↦
      rw e (ground (arith, size-without p q e, size-ins l p (without p q), contains-without p p q))
  | inr e ↦ rw e refl
]

abbrev pub IsSorted : Less → List ℕ → Type 0
IsSorted l [] = Unit
IsSorted l (x ∷ xs) = All (λ y. l y x ≡ false) xs × IsSorted l xs

All-ins : (P : ℕ → Type 0) (l : Less) (p : ℕ) (q : List ℕ) → P p → All P q → All P (ins l p q)
All-ins P l p [] h k = (h, tt)
All-ins P l p (x ∷ xs) h k = elim (Bool-cases (l x p)) [
  | inl e ↦ rw e (k.0, All-ins P l p xs h k.1)
  | inr e ↦ rw e (h, k)
]

All-map : (P Q : ℕ → Type 0) (q : List ℕ) → ((y : ℕ) → P y → Q y) → All P q → All Q q
All-map P Q [] f k = tt
All-map P Q (x ∷ xs) f k = (f x k.0, All-map P Q xs f k.1)

All-without : (P : ℕ → Type 0) (p : ℕ) (q : List ℕ) → All P q → All P (without p q)
All-without P p [] k = tt
All-without P p (x ∷ xs) k = elim (Bool-cases (x == p)) [
  | inl e ↦ rw e (All-without P p xs k.1)
  | inr e ↦ rw e (k.0, All-without P p xs k.1)
]

All-contains : (P : ℕ → Type 0) (q : List ℕ) → ((y : ℕ) → contains y q ≡ true → P y) → All P q
All-contains P [] f = tt
All-contains P (x ∷ xs) f = (f x (ground arith), All-contains P xs (λ y h. f y (ground arith)))

contains-All : (P : ℕ → Type 0) (k : ℕ) (q : List ℕ) → All P q → contains k q ≡ true → P k
contains-All P k [] a h = cc
contains-All P k (x ∷ xs) a h = elim (Bool-cases (x == k)) [
  | inl e ↦ subst P ((==_iff x k).0 e) a.0
  | inr e ↦ contains-All P k xs a.1 (ground arith)
]

pub ins-IsSorted :
    (l : Less) (p : ℕ) (q : List ℕ) → IsWeakOrder l → IsSorted l q → IsSorted l (ins l p q)
ins-IsSorted l p [] w s = (tt, tt)
ins-IsSorted l p (x ∷ xs) w s = elim (Bool-cases (l x p)) [
  | inl e ↦ rw e (All-ins _ l p xs (w.asym x p e) s.0, ins-IsSorted l p xs w s.1)
  | inr e ↦ rw e ((e, All-map _ _ xs (λ y h. w.neg_trans y x p h e) s.0), s)
]

pub without-IsSorted : (l : Less) (p : ℕ) (q : List ℕ) → IsSorted l q → IsSorted l (without p q)
without-IsSorted l p [] s = tt
without-IsSorted l p (x ∷ xs) s = elim (Bool-cases (x == p)) [
  | inl e ↦ rw e (without-IsSorted l p xs s.1)
  | inr e ↦ rw e (All-without _ p xs s.0, without-IsSorted l p xs s.1)
]

pub agree-IsSorted :
    (l l' : Less) (q : List ℕ)
    → ((a b : ℕ) → contains a q ≡ true → contains b q ≡ true → l' a b ≡ l a b)
    → IsSorted l' q
    → IsSorted l q
agree-IsSorted l l' [] f s = tt
agree-IsSorted l l' (x ∷ xs) f s = (
  All-contains _ xs (λ y h. sym (f y x (ground arith) (ground arith)) ∙ contains-All _ y xs s.0 h),
  agree-IsSorted l l' xs (λ a b ha hb. f a b (ground arith) (ground arith)) s.1,
)

pub resort-IsSorted :
    (l l' : Less) (p : ℕ) (q : List ℕ)
    → IsWeakOrder l
    → ((a b : ℕ) → a ≢ p → b ≢ p → l' a b ≡ l a b)
    → IsSorted l' q
    → IsSorted l (resort l p q)
resort-IsSorted l l' p q w f s = elim (Bool-cases (contains p q)) [
  | inl e ↦ rw e (
      ins-IsSorted l p (without p q) w (
        agree-IsSorted l l' (without p q)
          (λ a b ha hb.
            f a b (λ n. ground (arith, contains-without p a q))
              (λ n. ground (arith, contains-without p b q)))
          (without-IsSorted l' p q s)))
  | inr e ↦
      rw e (agree-IsSorted l l' q (λ a b ha hb. f a b (λ n. ground arith) (λ n. ground arith)) s)
]

pub least_first :
    (l : Less) (q : List ℕ) (p k : ℕ)
    → IsWeakOrder l
    → IsSorted l q
    → front q ≡ some p
    → contains k q ≡ true
    → l k p ≡ false
least_first l [] p k w s f h = cc
least_first l (x ∷ xs) p k w s f h = elim (Bool-cases (x == k)) [
  | inl e ↦ ground (arith, w.asym k p, some_inj f)
  | inr e ↦
      subst (λ z. l k z ≡ false) (some_inj f)
        (contains-All (λ y. l y x ≡ false) k xs s.0 (ground arith))
]

pub front_contained : (q : List ℕ) (p : ℕ) → front q ≡ some p → contains p q ≡ true
front_contained [] p h = cc
front_contained (x ∷ xs) p h = ground arith

pub front-none : (q : List ℕ) → front q ≡ none → size q ≡ 0
front-none [] h = refl
front-none (x ∷ xs) h = cc

pub tail-without : (q : List ℕ) (p : ℕ) → front q ≡ some p → tail q ≡ without p q
tail-without [] p h = refl
tail-without (x ∷ xs) p h = ground arith

abbrev pub sorted_queue : PriorityQueue
sorted_queue = record {
  Queue = List ℕ;
  empty = [];
  len = size;
  peek = front;
  push = ins;
  pop = λ l. tail;
  update = resort;
  remove = λ l. without;
  holds = contains;
  Ordered = IsSorted;
  holds-empty = λ k. refl;
  holds-push = contains-ins;
  holds-update = contains-resort;
  holds-remove = λ l. contains-without;
  holds-peek = front_contained;
  peek-none = front-none;
  pop-remove = λ l. tail-without;
  len-update = size-resort;
  len-remove = λ l. size-without;
  Ordered-empty = λ l. tt;
  Ordered-push = ins-IsSorted;
  Ordered-remove = λ l p q w. without-IsSorted l p q;
  Ordered-update = resort-IsSorted;
  Ordered-agree = agree-IsSorted;
  peek-least = least_first;
}
