-- ===== src/Notifications.antt =====
-- notifications/publisher.go: the registry of topics and subscribers, the commands that the publisher's
-- goroutine carries out, and the queue of them. What subscribers are told is a list, in order. A set,
-- which is a Go map with empty values, is a list; a range over it is over what it held at its start.
pub mod Listening
pub mod Commands
mod Tests
use go_graphsync.Base.{
  ℕ, Bool, true, false, not, List, [], ◌∷◌, ◌++◌, map, Option, none, some, ◌==◌, if◌then◌else◌, Map,
  get?, insert, delete, contains, keys,
}

pub record SubscriberRegistry : Type 0 where
  pub topics : Map (List ℕ)
  pub rev_topics : Map (List ℕ)

unfoldable pub empty_registry : SubscriberRegistry
empty_registry = record { topics = []; rev_topics = [] }

-- OnNext and OnClose of a subscriber.
pub data Told : Type 0 where
  on_next : ℕ → ℕ → ℕ → Told
  on_close : ℕ → ℕ → Told

abbrev pub members : Option (List ℕ) → List ℕ
members none = []
members (some xs) = xs

unfoldable pub put_in : ℕ → List ℕ → List ℕ
put_in x xs = if contains x xs then xs else xs ++ x ∷ []

unfoldable pub take_out : ℕ → List ℕ → List ℕ
take_out x [] = []
take_out x (y ∷ ys) = let rest = take_out x ys in if x == y then rest else y ∷ rest

unfoldable pub add : ℕ → ℕ → SubscriberRegistry → SubscriberRegistry
unfolding put_in
add topic sub r = record {
  topics = insert topic (put_in sub (members (get? topic r.topics))) r.topics;
  rev_topics = insert sub (put_in topic (members (get? sub r.rev_topics))) r.rev_topics;
}

unfoldable pub send : ℕ → ℕ → SubscriberRegistry → List Told
send topic msg r = map (λ sub. on_next sub topic msg) (members (get? topic r.topics))

-- A set that is left empty goes.
unfoldable pub put_back : ℕ → List ℕ → Map (List ℕ) → Map (List ℕ)
put_back k [] m = delete k m
put_back k (x ∷ xs) m = insert k (x ∷ xs) m

unfoldable pub remove : ℕ → ℕ → SubscriberRegistry → SubscriberRegistry × List Told
unfolding take_out put_back
remove topic sub r =
    let subs = members (get? topic r.topics) in
    if contains sub subs
    then (
      record {
        topics = put_back topic (take_out sub subs) r.topics;
        rev_topics = put_back sub (take_out topic (members (get? sub r.rev_topics))) r.rev_topics;
      },
      on_close sub topic ∷ [],
    )
    else (r, [])

unfoldable pub remove_pairs : List (ℕ × ℕ) → SubscriberRegistry → SubscriberRegistry × List Told
unfolding remove
remove_pairs [] r = (r, [])
remove_pairs ((topic, sub) ∷ more) r =
    let (q, es) = remove topic sub r in let (p, fs) = remove_pairs more q in (p, es ++ fs)

unfoldable pub remove_topic : ℕ → SubscriberRegistry → SubscriberRegistry × List Told
unfolding remove_pairs
remove_topic topic r = remove_pairs (map (λ sub. (topic, sub)) (members (get? topic r.topics))) r

unfoldable pub remove_subscriber : ℕ → SubscriberRegistry → SubscriberRegistry × List Told
unfolding remove_pairs
remove_subscriber sub r =
    remove_pairs (map (λ topic. (topic, sub)) (members (get? sub r.rev_topics))) r

-- What the goroutine does when it ends: every subscriber of every topic is removed.
unfoldable pub all_pairs : Map (List ℕ) → List (ℕ × ℕ)
all_pairs [] = []
all_pairs ((topic, subs) ∷ m) = map (λ sub. (topic, sub)) subs ++ all_pairs m

unfoldable pub remove_all : SubscriberRegistry → SubscriberRegistry × List Told
unfolding remove_pairs all_pairs
remove_all r = remove_pairs (all_pairs r.topics) r

-- cmd, with its op.
pub data Command : Type 0 where
  subscribe publish : ℕ → ℕ → Command
  unsub_all close_topic : ℕ → Command
  shut_down : Command

unfoldable pub carry_out : Command → SubscriberRegistry → SubscriberRegistry × List Told
unfolding add send remove_topic remove_subscriber remove_all
carry_out (subscribe topic sub) r = (add topic sub r, [])
carry_out (publish topic msg) r = (r, send topic msg r)
carry_out (unsub_all sub) r = remove_subscriber sub r
carry_out (close_topic topic) r = remove_topic topic r
carry_out shut_down r = remove_all r

-- The publisher's methods queue commands until Shutdown closes it.
pub record Publisher : Type 0 where
  pub is_closed : Bool
  pub cmds : List Command

unfoldable pub queue : Command → Publisher → Publisher × Bool
queue c p = if p.is_closed then (p, false) else (
  record {
    is_closed = elim c [
      | shut_down ↦ true
      | subscribe t s ↦ false
      | publish t e ↦ false
      | unsub_all s ↦ false
      | close_topic t ↦ false
    ];
    cmds = p.cmds ++ c ∷ [];
  },
  true,
)

-- The goroutine's loop over the commands that are queued; the Boolean says whether it has ended.
unfoldable pub start : List Command → SubscriberRegistry → SubscriberRegistry × List Told × Bool
unfolding carry_out
start [] r = (r, [], false)
start (c ∷ cs) r =
    let (q, es) = carry_out c r in
    let (p, fs, b) = start cs q in
    elim c [
      | shut_down ↦ (q, es, true)
      | subscribe t s ↦ (p, es ++ fs, b)
      | publish t e ↦ (p, es ++ fs, b)
      | unsub_all s ↦ (p, es ++ fs, b)
      | close_topic t ↦ (p, es ++ fs, b)
    ]
