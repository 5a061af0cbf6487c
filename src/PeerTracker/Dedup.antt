-- ===== src/PeerTracker/Dedup.antt =====
-- The calls of responsemanager/responseassembler/peerlinktracker.go in any order: none faults.
use go_graphsync.Base.{ℕ, ◌≡◌, refl, Bool, List, Option, some}
use mathlib.Core.Option
use go_graphsync.LinkTracker.{LinkTracker}
use go_graphsync.LinkTracker.Counts.{
  IsCounted, record_link_traversal-IsCounted, finish_request-IsCounted,
}
use go_graphsync.PeerTracker.Trackers.{
  Inv, get_link_tracker-some, put_link_tracker-Inv, dedup_key-Inv, record_all-IsCounted,
  release_key-Inv,
}
use go_graphsync.PeerTracker.{
  PeerTracker, put_link_tracker, dedup_key, record_all, ignore_blocks, skip_first_blocks, finish_in,
  traverse_in, finish_tracking, record_link_traversal,
}

pub data Op : Type 0 where
  dedup : ℕ → ℕ → Op
  ignore : ℕ → List ℕ → Op
  skip : ℕ → ℕ → Op
  finish : ℕ → Op
  traverse : ℕ → ℕ → Bool → Op

unfoldable pub step : Op → PeerTracker → Option PeerTracker
step (dedup request key) t = some (dedup_key request key t)
step (ignore request links) t = ignore_blocks request links t
step (skip request n) t = some (skip_first_blocks request n t)
step (finish request) t = Option.map (λ r. r.0) (finish_tracking request t)
step (traverse request link has_block) t =
    Option.map (λ r. r.0) (record_link_traversal request link has_block t)

finish-Inv :
    (request : ℕ) (lt : LinkTracker) (t : PeerTracker)
    → Inv t
    → IsCounted lt
    → Inv (finish_in request lt t).0
unfolding finish_in
finish-Inv request lt t v c =
    let w =
      release_key-Inv request _
        (put_link_tracker-Inv request _ t v (finish_request-IsCounted request lt c)) in
    record { counted = w.counted; alt_counted = w.alt_counted; keyed = w.keyed }

traverse-Inv :
    (request link : ℕ) (has_block : Bool) (lt : LinkTracker) (t : PeerTracker)
    → Inv t
    → IsCounted lt
    → Inv (traverse_in request link has_block lt t).0
unfolding traverse_in
traverse-Inv request link has_block lt t v c =
    put_link_tracker-Inv request _ _
      (record { counted = v.counted; alt_counted = v.alt_counted; keyed = v.keyed })
      (record_link_traversal-IsCounted request link has_block lt c)

-- From a tracker in order no call faults, and the tracker stays in order: each dedup key in use has
-- a link tracker, and the reference counts of every link tracker are those of its requests.
pub step-Inv :
    (op : Op) (t : PeerTracker) → Inv t → (u : PeerTracker) × (step op t ≡ some u) × Inv u
unfolding step ignore_blocks finish_tracking record_link_traversal
step-Inv (dedup request key) t v = (dedup_key request key t, refl, dedup_key-Inv request key t v)
step-Inv (skip request n) t v = (
  skip_first_blocks request n t,
  refl,
  unfold skip_first_blocks in
      record { counted = v.counted; alt_counted = v.alt_counted; keyed = v.keyed },
)
step-Inv (ignore request links) t v =
    let (lt, e, c) = get_link_tracker-some request t v in
    (
      put_link_tracker request (record_all request links lt) t,
      rw e refl,
      put_link_tracker-Inv request _ t v (record_all-IsCounted request links lt c),
    )
step-Inv (finish request) t v =
    let (lt, e, c) = get_link_tracker-some request t v in
    ((finish_in request lt t).0, rw e refl, finish-Inv request lt t v c)
step-Inv (traverse request link has_block) t v =
    let (lt, e, c) = get_link_tracker-some request t v in
    (
      (traverse_in request link has_block lt t).0,
      rw e refl,
      traverse-Inv request link has_block lt t v c,
    )
