-- ===== src/Loader/Tests.antt =====
-- Runs and instances for requestmanager/reconciledloader/load.go.
use go_graphsync.Base.{
  ℕ, Bool, Option, ◌≡◌, refl, true, List, [], ◌∷◌, ◌++◌, map, none, some, arith, get?, insert,
}
use go_graphsync.Message.{present, did_follow_link}
use go_graphsync.Traversal.{new_verifier, new_record, record_next_step, Frame}
use go_graphsync.Traversal.Matching.{accepts}
use go_graphsync.RemoteQueue.{Item, record_remote_load_attempt}
use go_graphsync.RemoteQueue.Contents.{Held, IsQueue}
use go_graphsync.Loader.{Loader, online, wait_remote}
use go_graphsync.Loader.Remote.{load_remote, load_remote-data, block_data}
use go_graphsync.Loader.Waiting.{event, wait_remote-accepts}

abbrev known : Item
known = record { link = 50; action = present; block = none; next = none }

abbrev unknown : Item
unknown = record { link = 60; action = present; block = some (9 ∷ []); next = none }

abbrev queued : List Held
queued = (1, known) ∷ (2, unknown) ∷ []

abbrev stack : List Frame
unfolding new_verifier record_next_step new_record
stack = new_verifier (record_next_step [] 50 true new_record)

-- A loader that has loaded one link and went online, with two items from the remote.
abbrev caught : Loader
unfolding stack new_record record_next_step
caught = record {
  most_recent = none;
  traversal_record = record_next_step [] 50 true new_record;
  last_unfollowed = [];
  is_open = true;
  verifier = some stack;
  remote_queue = record {
    items = (1, record known { next = some 2 }) ∷ (2, unknown) ∷ [];
    pooled = [];
    head = some 1;
    tail = some 2;
    data_size = 1;
    last_consumed = none;
  };
}

queued-IsQueue : IsQueue caught.remote_queue queued
unfolding get? caught
queued-IsQueue = record {
  held = (refl, some 2, refl, (refl, none, refl, refl));
  distinct = (refl, (refl, tt));
  ends = refl;
  counted = refl;
  bounded = omega arith;
}

-- The first item is held against the record; the second one is new.
abbrev ready : Loader
unfolding caught
ready = record caught {
  verifier = none;
  remote_queue = record {
    items = (1, record known { next = some 2 }) ∷ (2, unknown) ∷ [];
    pooled = [];
    head = some 2;
    tail = some 2;
    data_size = 1;
    last_consumed = some 1;
  };
}

catches_up : wait_remote 3 caught ≡ some (online, ready)
unfolding wait_remote ready get? insert did_follow_link record_remote_load_attempt
catches_up = refl

has_verifier : caught.verifier ≡ some stack
unfolding caught
has_verifier = refl

wait_remote-accepts_example :
    (before : List Held) × (after : List Held) × (queued ≡ before ++ after)
    × (accepts (map event before) stack ≡ true)
    × IsQueue ready.remote_queue after
    × (ready.verifier ≡ none)
wait_remote-accepts_example =
    wait_remote-accepts queued caught ready 3 stack queued-IsQueue has_verifier catches_up

abbrev Store : Type 0
Store = List (ℕ × List ℕ)

abbrev write_block : Store → ℕ → List ℕ → Store × Bool
write_block s link d = ((link, d) ∷ s, true)

abbrev loaded : Loader
unfolding ready
loaded = record ready {
  remote_queue = record {
    items = (1, record known { next = some 2 }) ∷ (2, record unknown { block = none }) ∷ [];
    pooled = 1 ∷ [];
    head = none;
    tail = some 2;
    data_size = 0;
    last_consumed = some 2;
  };
}

ready-IsQueue : IsQueue ready.remote_queue ((2, unknown) ∷ [])
unfolding get? ready
ready-IsQueue = record {
  held = (refl, none, refl, refl);
  distinct = (refl, tt);
  ends = refl;
  counted = refl;
  bounded = omega arith;
}

loads :
    load_remote write_block 60 [] [] ready ≡ some (block_data (9 ∷ []), (60, 9 ∷ []) ∷ [], loaded)
unfolding load_remote loaded get? insert did_follow_link record_remote_load_attempt
loads = refl

load_remote-data_example :
    (◌≡◌ {A = ℕ} 60 60)
    × (◌≡◌ {A = Option (List ℕ)} (some (9 ∷ [])) (some (9 ∷ [])))
    × (◌≡◌ {A = Store} ((60, 9 ∷ []) ∷ []) ((60, 9 ∷ []) ∷ []))
    × (true ≡ true)
    × IsQueue loaded.remote_queue []
load_remote-data_example =
    load_remote-data write_block 60 [] [] ((60, 9 ∷ []) ∷ []) ready loaded (9 ∷ []) (2, unknown) []
      ready-IsQueue loads
