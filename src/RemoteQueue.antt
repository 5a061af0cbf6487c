-- ===== src/RemoteQueue.antt =====
-- requestmanager/reconciledloader/remotequeue.go, pathtracker.go and injest.go: what a remote has sent
-- and the loader has not used yet. Items are linked by pointers; here a pointer is an address in a map
-- of the items, and nil is `none`. The items put into the sync.Pool are listed, last first; how the
-- pool gives them out again is not modelled, so a new item has an address of its own. Trace links and
-- the signal to a loader that waits are left out.
pub mod Contents
pub mod Queueing
pub mod Ingesting
mod Tests
use go_graphsync.Base.{
  ℕ, zero, suc, ◌+◌, Bool, true, false, not, ◌&&◌, List, [], ◌∷◌, ◌++◌, map, Option, none, some,
  ltb, leb, ◌==◌, if◌then◌else◌, length, Map, get?, insert, has, add64, sub64, contains,
}
use mathlib.Core.Option
use go_graphsync.Message.{LinkAction, is_present, did_follow_link, Metadatum}

pub record Item : Type 0 where
  pub link : ℕ
  pub action : LinkAction
  pub block : Option (List ℕ)
  pub next : Option ℕ

abbrev pub block_size : Option (List ℕ) → ℕ
block_size none = 0
block_size (some b) = length b

pub record RemoteQueue : Type 0 where
  pub items : Map Item
  pub pooled : List ℕ
  pub head : Option ℕ
  pub tail : Option ℕ
  pub data_size : ℕ
  pub last_consumed : Option ℕ

unfoldable pub empty : RemoteQueue → Bool
empty q = elim q.head [ none ↦ true | some _ ↦ false ]

-- `none` for the zero item.
unfoldable pub first : RemoteQueue → Option Item
first q = elim q.head [ none ↦ none | some a ↦ get? a q.items ]

unfoldable pub retry_last : RemoteQueue → RemoteQueue
retry_last q = elim q.last_consumed [ none ↦ q | some a ↦ record q { head = some a } ]

-- The item that was consumed before goes into the pool.
unfoldable pub release_last : RemoteQueue → RemoteQueue
release_last q = record q {
  pooled = elim q.last_consumed [ none ↦ q.pooled | some a ↦ a ∷ q.pooled ];
  last_consumed = none;
}

unfoldable pub consume_item : ℕ → Item → RemoteQueue → RemoteQueue
consume_item a item q = record q {
  data_size = sub64 q.data_size (block_size item.block);
  items = insert a (record item { block = none }) q.items;
  last_consumed = some a;
  head = item.next;
}

-- `none` is the fault of an empty queue.
unfoldable pub consume : RemoteQueue → Option RemoteQueue
unfolding first release_last consume_item
consume q = elim q.head [
  | none ↦ none
  | some a ↦ Option.map (λ item. consume_item a item (release_last q)) (get? a q.items)
]

-- The loop of clear, on fuel: `none` if the fuel runs out.
unfoldable pub consume_all : ℕ → RemoteQueue → Option RemoteQueue
unfolding consume
consume_all zero q = none
consume_all (suc fuel) q = elim q.head [
  | none ↦ some q
  | some _ ↦ elim (consume q) [ none ↦ none | some r ↦ consume_all fuel r ]
]

unfoldable pub clear : RemoteQueue → Option RemoteQueue
unfolding consume_all release_last
clear q = Option.map release_last (consume_all (suc (length q.items)) q)

unfoldable pub set_next : ℕ → ℕ → Map Item → Option (Map Item)
set_next t a m = Option.map (λ item. insert t (record item { next = some a }) m) (get? t m)

-- The place of one item of `queue`, by the head and the tail; `none` is a fault.
unfoldable pub place : Option ℕ → Option ℕ → ℕ → RemoteQueue → Option RemoteQueue
unfolding set_next
place none tail a q = some (record q { tail = some a; head = some a })
place (some _) none a q = none
place (some _) (some t) a q =
    Option.map (λ m. record q { items = m; tail = some a }) (set_next t a q.items)

unfoldable pub queue_item : ℕ → Item → RemoteQueue → Option RemoteQueue
unfolding place
queue_item a item q =
    place q.head q.tail a (record q { data_size = add64 q.data_size (block_size item.block) })

unfoldable pub queue : List ℕ → RemoteQueue → Option RemoteQueue
unfolding queue_item
queue [] q = some q
queue (a ∷ more) q = elim (get? a q.items) [
  | none ↦ none
  | some item ↦ elim (queue_item a item q) [ none ↦ none | some r ↦ queue more r ]
]

-- injest.go: the item of each link, with its block where it is the first one present.
unfoldable pub make_items : List Metadatum → Map (List ℕ) → List ℕ → List Item
make_items [] blocks seen = []
make_items (d ∷ md) blocks seen =
    let fresh = is_present d.action && not (contains d.link seen) in
    record {
      link = d.link;
      action = d.action;
      block = if fresh then get? d.link blocks else none;
      next = none;
    }
    ∷ make_items md blocks (if fresh then d.link ∷ seen else seen)

-- pathTracker, of which the path is empty if the remote misses none.
unfoldable pub still_on_unfollowed_remote_path : List ℕ → List ℕ → Bool × List ℕ
still_on_unfollowed_remote_path path [] = (false, [])
still_on_unfollowed_remote_path path (p ∷ last) =
    if leb (length path) (length (p ∷ last)) then (false, []) else (true, p ∷ last)

unfoldable pub record_remote_load_attempt : List ℕ → LinkAction → List ℕ → List ℕ
unfolding did_follow_link
record_remote_load_attempt path action last = if did_follow_link action then last else path
