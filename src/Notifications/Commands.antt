-- ===== src/Notifications/Commands.antt =====
-- What each command of the publisher does to who listens, and what subscribers are told.
use go_graphsync.Base.{
  ℕ, ◌≡◌, refl, sym, ◌∙◌, ap, Bool, true, false, not, ◌&&◌, ◌||◌, List, [], ◌∷◌, ◌++◌, map, some,
  arith, ◌==◌, Map, get?, contains,
}
use go_graphsync.Notifications.{
  SubscriberRegistry, on_next, members, send, remove, remove_pairs, remove_topic, remove_subscriber,
  all_pairs, remove_all, Command, subscribe, publish, unsub_all, close_topic, shut_down, carry_out,
  start, empty_registry,
}
use go_graphsync.Notifications.Listening.{
  listens, follows, IsInverse, listens-add, follows-add, listens-remove, remove-IsInverse,
  told_after, told_after-++, remove-told,
}

unfoldable pair_in : ℕ → ℕ → List (ℕ × ℕ) → Bool
pair_in t s [] = false
pair_in t s ((u, v) ∷ ps) = ((u == t) && (v == s)) || pair_in t s ps

listens-remove_pairs :
    (t s : ℕ) (ps : List (ℕ × ℕ)) (r : SubscriberRegistry)
    → listens t s (remove_pairs ps r).0 ≡ (not (pair_in t s ps) && listens t s r)
unfolding remove_pairs pair_in
listens-remove_pairs t s [] r = ground arith
listens-remove_pairs t s ((u, v) ∷ ps) r =
    listens-remove_pairs t s ps (remove u v r).0 ∙ ground (arith, listens-remove t s u v r)

remove_pairs-IsInverse :
    (ps : List (ℕ × ℕ)) (r : SubscriberRegistry) → IsInverse r → IsInverse (remove_pairs ps r).0
unfolding remove_pairs
remove_pairs-IsInverse [] r i = i
remove_pairs-IsInverse ((u, v) ∷ ps) r i =
    remove_pairs-IsInverse ps (remove u v r).0 (remove-IsInverse u v r i)

remove_pairs-told :
    (t s : ℕ) (ps : List (ℕ × ℕ)) (r : SubscriberRegistry)
    → told_after t s (remove_pairs ps r).1 (listens t s r)
      ≡ some (listens t s (remove_pairs ps r).0)
unfolding remove_pairs told_after
remove_pairs-told t s [] r = refl
remove_pairs-told t s ((u, v) ∷ ps) r =
    let (q, es) = remove u v r in
    told_after-++ t s es (remove_pairs ps q).1 (listens t s r) (listens t s q)
      (remove-told t s u v r)
    ∙ remove_pairs-told t s ps q

pair_in-subscribers :
    (t s u : ℕ) (xs : List ℕ) → pair_in t s (map (λ v. (u, v)) xs) ≡ ((u == t) && contains s xs)
unfolding pair_in
pair_in-subscribers t s u [] = ground arith
pair_in-subscribers t s u (x ∷ xs) = ground (arith, pair_in-subscribers t s u xs)

pair_in-topics :
    (t s v : ℕ) (xs : List ℕ) → pair_in t s (map (λ u. (u, v)) xs) ≡ ((v == s) && contains t xs)
unfolding pair_in
pair_in-topics t s v [] = ground arith
pair_in-topics t s v (x ∷ xs) = ground (arith, pair_in-topics t s v xs)

pair_in-++ :
    (t s : ℕ) (ps qs : List (ℕ × ℕ)) → pair_in t s (ps ++ qs) ≡ (pair_in t s ps || pair_in t s qs)
unfolding pair_in
pair_in-++ t s [] qs = refl
pair_in-++ t s ((u, v) ∷ ps) qs = ground (arith, pair_in-++ t s ps qs)

-- Every subscription is among all pairs.
pair_in-all_pairs :
    (t s : ℕ) (m : Map (List ℕ))
    → contains s (members (get? t m)) ≡ true
    → pair_in t s (all_pairs m) ≡ true
unfolding all_pairs get?
pair_in-all_pairs t s [] h = absurd (ground arith)
pair_in-all_pairs t s ((u, xs) ∷ m) h =
    pair_in-++ t s (map (λ v. (u, v)) xs) (all_pairs m)
    ∙ ground (arith, pair_in-subscribers t s u xs, pair_in-all_pairs t s m)

next-told :
    (t s u e : ℕ) (xs : List ℕ) (b : Bool)
    → (not ((u == t) && contains s xs) || b) ≡ true
    → told_after t s (map (λ v. on_next v u e) xs) b ≡ some b
unfolding told_after
next-told t s u e [] b h = refl
next-told t s u e (x ∷ xs) b h = ground (arith, next-told t s u e xs b)

equal_number : (k j : ℕ) → (k == j) ≡ true → k ≡ j
equal_number k j h = ground arith

equal_key : (k j : ℕ) (m : Map (List ℕ)) → (k == j) ≡ true → get? k m ≡ get? j m
equal_key k j m h = ap (λ i. get? i m) (equal_number k j h)

send-told :
    (t s u e : ℕ) (r : SubscriberRegistry)
    → told_after t s (send u e r) (listens t s r) ≡ some (listens t s r)
unfolding send listens
send-told t s u e r =
    next-told t s u e (members (get? u r.topics)) (contains s (members (get? t r.topics)))
      (ground (arith, equal_key u t r.topics))

-- Whether the subscriber is to listen to the topic after a command.
unfoldable pub listening : ℕ → ℕ → Command → Bool → Bool
listening t s (subscribe u v) b = ((u == t) && (v == s)) || b
listening t s (publish u e) b = b
listening t s (unsub_all v) b = not (v == s) && b
listening t s (close_topic u) b = not (u == t) && b
listening t s shut_down b = false

-- A subscription that the command makes.
unfoldable pub subscribes : ℕ → ℕ → Command → Bool
subscribes t s (subscribe u v) = (u == t) && (v == s)
subscribes t s (publish u e) = false
subscribes t s (unsub_all v) = false
subscribes t s (close_topic u) = false
subscribes t s shut_down = false

carry_out-listens :
    (t s : ℕ) (c : Command) (r : SubscriberRegistry)
    → IsInverse r
    → listens t s (carry_out c r).0 ≡ listening t s c (listens t s r)
unfolding carry_out listening remove_topic remove_subscriber remove_all listens follows
carry_out-listens t s (subscribe u v) r i = listens-add t s u v r
carry_out-listens t s (publish u e) r i = refl
carry_out-listens t s (unsub_all v) r i =
    listens-remove_pairs t s (map (λ u. (u, v)) (members (get? v r.rev_topics))) r
    ∙ ground (
      arith,
      pair_in-topics t s v (members (get? v r.rev_topics)),
      i t s,
      equal_key v s r.rev_topics,
    )
carry_out-listens t s (close_topic u) r i =
    listens-remove_pairs t s (map (λ v. (u, v)) (members (get? u r.topics))) r
    ∙ ground (arith, pair_in-subscribers t s u (members (get? u r.topics)), equal_key u t r.topics)
carry_out-listens t s shut_down r i =
    listens-remove_pairs t s (all_pairs r.topics) r ∙ ground (arith, pair_in-all_pairs t s r.topics)

pub carry_out-IsInverse :
    (c : Command) (r : SubscriberRegistry) → IsInverse r → IsInverse (carry_out c r).0
unfolding carry_out remove_topic remove_subscriber remove_all
carry_out-IsInverse (subscribe u v) r i = λ t s.
    follows-add t s u v r
    ∙ ap (λ b. ((u == t) && (v == s)) || b) (i t s)
    ∙ sym (listens-add t s u v r)
carry_out-IsInverse (publish u e) r i = i
carry_out-IsInverse (unsub_all v) r i =
    remove_pairs-IsInverse (map (λ u. (u, v)) (members (get? v r.rev_topics))) r i
carry_out-IsInverse (close_topic u) r i =
    remove_pairs-IsInverse (map (λ v. (u, v)) (members (get? u r.topics))) r i
carry_out-IsInverse shut_down r i = remove_pairs-IsInverse (all_pairs r.topics) r i

carry_out-told :
    (t s : ℕ) (c : Command) (r : SubscriberRegistry)
    → told_after t s (carry_out c r).1 (subscribes t s c || listens t s r)
      ≡ some (listens t s (carry_out c r).0)
unfolding carry_out subscribes told_after remove_topic remove_subscriber remove_all
carry_out-told t s (subscribe u v) r = ap some (sym (listens-add t s u v r))
carry_out-told t s (publish u e) r = send-told t s u e r
carry_out-told t s (unsub_all v) r =
    remove_pairs-told t s (map (λ u. (u, v)) (members (get? v r.rev_topics))) r
carry_out-told t s (close_topic u) r =
    remove_pairs-told t s (map (λ v. (u, v)) (members (get? u r.topics))) r
carry_out-told t s shut_down r = remove_pairs-told t s (all_pairs r.topics) r

-- Who is to listen after commands, up to the end of the goroutine.
unfoldable pub listening_after : ℕ → ℕ → List Command → Bool → Bool
unfolding listening
listening_after t s [] b = b
listening_after t s (c ∷ cs) b =
    let rest = listening_after t s cs (listening t s c b) in
    elim c [
      | shut_down ↦ false
      | subscribe u v ↦ rest
      | publish u e ↦ rest
      | unsub_all v ↦ rest
      | close_topic u ↦ rest
    ]

start-listens :
    (t s : ℕ) (cs : List Command) (r : SubscriberRegistry)
    → IsInverse r
    → listens t s (start cs r).0 ≡ listening_after t s cs (listens t s r)
unfolding start listening_after
start-listens t s [] r i = refl
start-listens t s (shut_down ∷ cs) r i = carry_out-listens t s shut_down r i
start-listens t s (subscribe u v ∷ cs) r i =
    start-listens t s cs (carry_out (subscribe u v) r).0 (carry_out-IsInverse (subscribe u v) r i)
    ∙ ap (listening_after t s cs) (carry_out-listens t s (subscribe u v) r i)
start-listens t s (publish u e ∷ cs) r i =
    start-listens t s cs (carry_out (publish u e) r).0 (carry_out-IsInverse (publish u e) r i)
    ∙ ap (listening_after t s cs) (carry_out-listens t s (publish u e) r i)
start-listens t s (unsub_all v ∷ cs) r i =
    start-listens t s cs (carry_out (unsub_all v) r).0 (carry_out-IsInverse (unsub_all v) r i)
    ∙ ap (listening_after t s cs) (carry_out-listens t s (unsub_all v) r i)
start-listens t s (close_topic u ∷ cs) r i =
    start-listens t s cs (carry_out (close_topic u) r).0 (carry_out-IsInverse (close_topic u) r i)
    ∙ ap (listening_after t s cs) (carry_out-listens t s (close_topic u) r i)

-- A command of the publisher, on a registry whose two maps are inverse to each other, makes a subscriber
-- listen to a topic, or not, as the command says; it tells of the topic only those that listen, and that
-- the topic is closed just those that listened and do not any more, once.
pub carry_out-notifies :
    (t s : ℕ) (c : Command) (r : SubscriberRegistry)
    → IsInverse r
    → (listens t s (carry_out c r).0 ≡ listening t s c (listens t s r))
      × (told_after t s (carry_out c r).1 (subscribes t s c || listens t s r)
          ≡ some (listens t s (carry_out c r).0))
carry_out-notifies t s c r i = (carry_out-listens t s c r i, carry_out-told t s c r)

-- After the commands of a new publisher, up to the end of its goroutine, the subscribers of a topic are
-- those that its commands leave, one after the other: none after a shutdown.
pub start-subscribers :
    (t s : ℕ) (cs : List Command)
    → listens t s (start cs empty_registry).0 ≡ listening_after t s cs false
unfolding listens follows empty_registry get?
start-subscribers t s cs = start-listens t s cs empty_registry (λ u v. refl)
