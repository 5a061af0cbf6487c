-- ===== src/PeerTracker.antt =====
-- responsemanager/responseassembler/peerlinktracker.go: which blocks one peer has been sent.
-- Dedup keys are numbers that stand for strings. A method returns `none` where the source would
-- fault, on the nil tracker of a key without one. The tracker that getLinkTracker returns is a
-- pointer into the peer's tracker, so a method that changes it writes it back. A number of blocks
-- to skip below 0 skips as many as 0 does, and is left out.
pub mod Trackers
pub mod Dedup
pub mod SendsOnce
mod Tests
use go_graphsync.Base.{
  ℕ, ◌+◌, Bool, true, false, ◌&&◌, List, [], ◌∷◌, Option, none, some, ltb, ◌==◌, if◌then◌else◌, Map,
  get?, insert, delete, has,
}
use mathlib.Core.Option
use go_graphsync.LinkTracker.{LinkTracker, new_tracker, count_at, block_ref_count, finish_request}
use go_graphsync.LinkTracker

pub record PeerTracker : Type 0 where
  pub link_tracker : LinkTracker
  pub alt_trackers : Map LinkTracker
  pub dedup_keys : Map ℕ
  pub block_sent_count : Map ℕ
  pub skip_first : Map ℕ

unfoldable pub new_peer_tracker : PeerTracker
new_peer_tracker = record {
  link_tracker = new_tracker;
  alt_trackers = [];
  dedup_keys = [];
  block_sent_count = [];
  skip_first = [];
}

unfoldable pub get_link_tracker : ℕ → PeerTracker → Option LinkTracker
get_link_tracker request t = elim (get? request t.dedup_keys) [
  | none ↦ some t.link_tracker
  | some key ↦ get? key t.alt_trackers
]

-- The write through the pointer that getLinkTracker returned.
unfoldable pub put_link_tracker : ℕ → LinkTracker → PeerTracker → PeerTracker
put_link_tracker request lt t = elim (get? request t.dedup_keys) [
  | none ↦ record t { link_tracker = lt }
  | some key ↦ record t { alt_trackers = insert key lt t.alt_trackers }
]

unfoldable pub dedup_key : ℕ → ℕ → PeerTracker → PeerTracker
unfolding has
dedup_key request key t = record t {
  dedup_keys = insert request key t.dedup_keys;
  alt_trackers =
      if has key t.alt_trackers then t.alt_trackers else insert key new_tracker t.alt_trackers;
}

unfoldable pub record_all : ℕ → List ℕ → LinkTracker → LinkTracker
record_all request [] lt = lt
record_all request (link ∷ links) lt =
    record_all request links (LinkTracker.record_link_traversal request link true lt)

unfoldable pub ignore_blocks : ℕ → List ℕ → PeerTracker → Option PeerTracker
unfolding get_link_tracker put_link_tracker record_all
ignore_blocks request links t =
    Option.map (λ lt. put_link_tracker request (record_all request links lt) t)
      (get_link_tracker request t)

unfoldable pub skip_first_blocks : ℕ → ℕ → PeerTracker → PeerTracker
skip_first_blocks request n t = record t { skip_first = insert request n t.skip_first }

-- Whether a key is that of some request.
unfoldable pub has_key : ℕ → Map ℕ → Bool
has_key key [] = false
has_key key ((_, k) ∷ m) = if k == key then true else has_key key m

-- The end of a request's dedup key, and of its tracker when no other request has the key.
unfoldable pub release_key : ℕ → PeerTracker → PeerTracker
unfolding has_key
release_key request t = elim (get? request t.dedup_keys) [
  | none ↦ t
  | some key ↦
      let left = delete request t.dedup_keys in
      record t {
        dedup_keys = left;
        alt_trackers = if has_key key left then t.alt_trackers else delete key t.alt_trackers;
      }
]

-- FinishTracking with the request's link tracker at hand.
unfoldable pub finish_in : ℕ → LinkTracker → PeerTracker → PeerTracker × Bool
finish_in request lt t =
    let (after, all_blocks) = finish_request request lt in
    let freed = release_key request (put_link_tracker request after t) in
    (
      record freed {
        block_sent_count = delete request freed.block_sent_count;
        skip_first = delete request freed.skip_first;
      },
      all_blocks,
    )

unfoldable pub finish_tracking : ℕ → PeerTracker → Option (PeerTracker × Bool)
unfolding finish_in
finish_tracking request t = Option.map (λ lt. finish_in request lt t) (get_link_tracker request t)

-- RecordLinkTraversal with the request's link tracker at hand: the new tracker, whether the block
-- is to be sent, and its number among the request's blocks.
unfoldable pub traverse_in : ℕ → ℕ → Bool → LinkTracker → PeerTracker → PeerTracker × Bool × ℕ
traverse_in request link has_block lt t =
    let sent = count_at request t.block_sent_count + 1 in
    let not_skipped = ltb (count_at request t.skip_first) sent in
    (
      put_link_tracker request (LinkTracker.record_link_traversal request link has_block lt)
          (record t { block_sent_count = insert request sent t.block_sent_count }),
      has_block && not_skipped && block_ref_count link lt == 0,
      sent,
    )

unfoldable pub record_link_traversal : ℕ → ℕ → Bool → PeerTracker → Option (PeerTracker × Bool × ℕ)
unfolding traverse_in
record_link_traversal request link has_block t =
    Option.map (λ lt. traverse_in request link has_block lt t) (get_link_tracker request t)
