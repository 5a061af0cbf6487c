-- ===== src/Notifications/Listening.antt =====
-- Who listens to what after the publisher's commands.
use go_graphsync.Base.{
  ℕ, ◌≡◌, refl, sym, ◌∙◌, ap, Bool, true, false, not, ◌&&◌, ◌||◌, List, [], ◌∷◌, ◌++◌, Option, none,
  some, arith, ◌==◌, if◌then◌else◌, Bool-cases, inl, inr, Map, get?, insert, get?-insert,
  get?-delete, contains, some_inj,
}
use go_graphsync.Notifications.{
  SubscriberRegistry, Told, on_next, on_close, members, put_in, take_out, add, put_back, remove,
}

-- The subscriber is told of the topic.
unfoldable pub listens : ℕ → ℕ → SubscriberRegistry → Bool
listens t s r = contains s (members (get? t r.topics))

-- The reverse map says so.
unfoldable pub follows : ℕ → ℕ → SubscriberRegistry → Bool
follows t s r = contains t (members (get? s r.rev_topics))

-- The two maps are inverse to each other.
abbrev pub IsInverse : SubscriberRegistry → Type 0
IsInverse r = (t s : ℕ) → follows t s r ≡ listens t s r

contains-++ : (y : ℕ) (xs ys : List ℕ) → contains y (xs ++ ys) ≡ (contains y xs || contains y ys)
contains-++ y [] ys = refl
contains-++ y (x ∷ xs) ys = ground (arith, contains-++ y xs ys)

pub equal_ids : (x y : ℕ) → (x == y) ≡ true → x ≡ y
equal_ids x y h = ground arith

contains_equal : (x y : ℕ) (xs : List ℕ) → (x == y) ≡ true → contains x xs ≡ contains y xs
contains_equal x y xs h = ap (λ i. contains i xs) (equal_ids x y h)

contains-put_in : (x y : ℕ) (xs : List ℕ) → contains y (put_in x xs) ≡ ((x == y) || contains y xs)
unfolding put_in
contains-put_in x y xs = ground (arith, contains-++ y xs (x ∷ []), contains_equal x y xs)

contains-take_out :
    (x y : ℕ) (xs : List ℕ) → contains y (take_out x xs) ≡ (not (x == y) && contains y xs)
unfolding take_out
contains-take_out x y [] = ground arith
contains-take_out x y (z ∷ zs) = ground (arith, contains-take_out x y zs)

contains-put_back :
    (k j y : ℕ) (xs : List ℕ) (m : Map (List ℕ))
    → contains y (members (get? j (put_back k xs m)))
      ≡ (if k == j then contains y xs else contains y (members (get? j m)))
unfolding put_back
contains-put_back k j y [] m = ground (arith, get?-delete k j m)
contains-put_back k j y (x ∷ xs) m = ground (arith, get?-insert k j (x ∷ xs) m)

contains-insert :
    (k j y : ℕ) (xs : List ℕ) (m : Map (List ℕ))
    → contains y (members (get? j (insert k xs m)))
      ≡ (if k == j then contains y xs else contains y (members (get? j m)))
contains-insert k j y xs m = ground (arith, get?-insert k j xs m)

same_set : (k j : ℕ) (m : Map (List ℕ)) → (k == j) ≡ true → get? k m ≡ get? j m
same_set k j m h = ap (λ i. get? i m) (equal_ids k j h)

pub listens-add :
    (t s u v : ℕ) (r : SubscriberRegistry)
    → listens t s (add u v r) ≡ (((u == t) && (v == s)) || listens t s r)
unfolding listens add
listens-add t s u v r = ground (
  arith,
  contains-insert u t s (put_in v (members (get? u r.topics))) r.topics,
  contains-put_in v s (members (get? u r.topics)),
  same_set u t r.topics,
)

pub follows-add :
    (t s u v : ℕ) (r : SubscriberRegistry)
    → follows t s (add u v r) ≡ (((u == t) && (v == s)) || follows t s r)
unfolding follows add
follows-add t s u v r = ground (
  arith,
  contains-insert v s t (put_in u (members (get? v r.rev_topics))) r.rev_topics,
  contains-put_in u t (members (get? v r.rev_topics)),
  same_set v s r.rev_topics,
)

pub listens-remove :
    (t s u v : ℕ) (r : SubscriberRegistry)
    → listens t s (remove u v r).0 ≡ (not ((u == t) && (v == s)) && listens t s r)
unfolding listens remove
listens-remove t s u v r = elim (Bool-cases (contains v (members (get? u r.topics)))) [
  | inl h ↦ ground (
    arith,
    contains-put_back u t s (take_out v (members (get? u r.topics))) r.topics,
    contains-take_out v s (members (get? u r.topics)),
    same_set u t r.topics,
  )
  | inr h ↦ ground (arith, same_set u t r.topics, contains_equal v s (members (get? u r.topics)))
]

pub follows-remove :
    (t s u v : ℕ) (r : SubscriberRegistry)
    → IsInverse r
    → follows t s (remove u v r).0 ≡ (not ((u == t) && (v == s)) && follows t s r)
unfolding listens follows remove
follows-remove t s u v r i = elim (Bool-cases (contains v (members (get? u r.topics)))) [
  | inl h ↦ ground (
    arith,
    contains-put_back v s t (take_out u (members (get? v r.rev_topics))) r.rev_topics,
    contains-take_out u t (members (get? v r.rev_topics)),
    same_set v s r.rev_topics,
  )
  | inr h ↦
      ground (
        arith,
        i u v,
        same_set v s r.rev_topics,
        contains_equal u t (members (get? v r.rev_topics)),
      )
]

pub remove-IsInverse : (u v : ℕ) (r : SubscriberRegistry) → IsInverse r → IsInverse (remove u v r).0
remove-IsInverse u v r i t s =
    follows-remove t s u v r i
    ∙ ap (λ b. not ((u == t) && (v == s)) && b) (i t s)
    ∙ sym (listens-remove t s u v r)

-- Whether the subscriber listens to the topic after what subscribers are told; `none` is a fault: it is
-- told of the topic, or that the topic is closed, where it does not listen.
unfoldable pub told_after : ℕ → ℕ → List Told → Bool → Option Bool
told_after t s [] b = some b
told_after t s (on_next v u e ∷ es) b =
    let rest = told_after t s es b in if ((u == t) && (v == s)) && not b then none else rest
told_after t s (on_close v u ∷ es) b =
    let closed = told_after t s es false in
    let other = told_after t s es b in
    if (u == t) && (v == s) then if b then closed else none else other

pub told_after-++ :
    (t s : ℕ) (es fs : List Told) (b c : Bool)
    → told_after t s es b ≡ some c
    → told_after t s (es ++ fs) b ≡ told_after t s fs c
unfolding told_after
told_after-++ t s [] fs b c h = ap (told_after t s fs) (some_inj h)
told_after-++ t s (on_next v u e ∷ es) fs b c h = ground (arith, told_after-++ t s es fs b c)
told_after-++ t s (on_close v u ∷ es) fs b c h =
    ground (arith, told_after-++ t s es fs b c, told_after-++ t s es fs false c)

pub remove-told :
    (t s u v : ℕ) (r : SubscriberRegistry)
    → told_after t s (remove u v r).1 (listens t s r) ≡ some (listens t s (remove u v r).0)
unfolding remove told_after listens
remove-told t s u v r = elim (Bool-cases (contains v (members (get? u r.topics)))) [
  | inl h ↦ ground (
    arith,
    listens-remove t s u v r,
    same_set u t r.topics,
    contains_equal v s (members (get? u r.topics)),
  )
  | inr h ↦ ground arith
]
