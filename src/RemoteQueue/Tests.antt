-- ===== src/RemoteQueue/Tests.antt =====
-- Runs and instances for requestmanager/reconciledloader/remotequeue.go, pathtracker.go and injest.go.
use go_graphsync.Base.{
  ◌≡◌, refl, List, [], ◌∷◌, ◌++◌, none, some, get?, insert, get_elem?, arith, true,
}
use mathlib.Core.Option
use go_graphsync.Message.{present, missing}
use go_graphsync.RemoteQueue.{
  Item, RemoteQueue, queue, consume, retry_last, make_items, still_on_unfollowed_remote_path,
  record_remote_load_attempt,
}
use go_graphsync.RemoteQueue.Contents.{Held, IsQueue, consume_lem}
use go_graphsync.RemoteQueue.Queueing.{queue_lem}
use go_graphsync.RemoteQueue.Ingesting.{make_items_lem, item_of}

abbrev first_item : Item
first_item = record { link = 70; action = present; block = some (1 ∷ 2 ∷ []); next = none }

abbrev second_item : Item
second_item = record { link = 80; action = missing; block = none; next = none }

-- Two items in the heap, none queued.
abbrev nothing_queued : RemoteQueue
nothing_queued = record {
  items = (1, first_item) ∷ (2, second_item) ∷ [];
  pooled = [];
  head = none;
  tail = none;
  data_size = 0;
  last_consumed = none;
}

abbrev two_queued : RemoteQueue
two_queued = record {
  items = (1, record first_item { next = some 2 }) ∷ (2, second_item) ∷ [];
  pooled = [];
  head = some 1;
  tail = some 2;
  data_size = 2;
  last_consumed = none;
}

abbrev both : List Held
both = (1, first_item) ∷ (2, second_item) ∷ []

nothing_queued-IsQueue : IsQueue nothing_queued []
nothing_queued-IsQueue = record {
  held = refl;
  distinct = tt;
  ends = tt;
  counted = refl;
  bounded = omega arith;
}

two_queued-IsQueue : IsQueue two_queued both
unfolding get?
two_queued-IsQueue = record {
  held = (refl, some 2, refl, (refl, none, refl, refl));
  distinct = (refl, (refl, tt));
  ends = refl;
  counted = refl;
  bounded = omega arith;
}

queue_runs : queue (1 ∷ 2 ∷ []) nothing_queued ≡ some two_queued
unfolding queue get? insert
queue_runs = refl

-- An item that was consumed, put back and consumed again goes into the pool twice.
pooled_twice :
    Option.map
      (λ q. q.pooled)
      (Option.bind (consume two_queued) λ q. Option.bind (consume (retry_last q)) consume)
    ≡ some (1 ∷ 1 ∷ [])
unfolding consume retry_last get? insert Option.bind
pooled_twice = refl

-- An item that was consumed as the last one, and put back after others were queued, hides them.
queued_and_lost :
    Option.bind
      (Option.bind (queue (1 ∷ []) nothing_queued) λ q. Option.bind (consume q) (queue (2 ∷ [])))
      (λ q. Option.map (λ r. r.head) (consume (retry_last q)))
    ≡ some none
unfolding consume queue retry_last get? insert Option.bind
queued_and_lost = refl

goes_on_below :
    still_on_unfollowed_remote_path (1 ∷ 2 ∷ []) (record_remote_load_attempt (1 ∷ []) missing [])
    ≡ (true, 1 ∷ [])
unfolding still_on_unfollowed_remote_path record_remote_load_attempt
goes_on_below = refl

queue_lem_example :
    (r : RemoteQueue) × (queue (1 ∷ 2 ∷ []) nothing_queued ≡ some r) × IsQueue r ([] ++ both)
unfolding get?
queue_lem_example =
    queue_lem nothing_queued [] both nothing_queued-IsQueue
      (refl, refl, refl, (refl, refl, refl, tt)) (omega arith)

consume_lem_example :
    (r : RemoteQueue) × (consume two_queued ≡ some r) × IsQueue r ((2, second_item) ∷ [])
consume_lem_example =
    consume_lem two_queued (1, first_item) ((2, second_item) ∷ []) two_queued-IsQueue

make_items_lem_example :
    get_elem?
      (make_items
        (record { link = 5; action = present } ∷ record { link = 5; action = present } ∷ [])
        ((5, 9 ∷ []) ∷ [])
        [])
      1
    ≡ some (item_of (record { link = 5; action = present }) none)
make_items_lem_example =
    make_items_lem (record { link = 5; action = present } ∷ [])
      (record { link = 5; action = present }) [] ((5, 9 ∷ []) ∷ [])
