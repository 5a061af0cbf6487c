-- ===== src/PeerTracker/Trackers.antt =====
-- The trackers of responsemanager/responseassembler/peerlinktracker.go: every dedup key in use has
-- its tracker, so that no method meets a nil one, and the counts of each tracker are right.
use go_graphsync.Base.{
  ℕ, ◌≡◌, ◌≢◌, refl, true, List, [], ◌∷◌, none, some, arith, Map, get?, delete, has, get?-insert,
  get?-delete, Option-cases, Bool-cases, inl, inr, ==_refl, get?-insert_elim, get?-delete-some,
}
use go_graphsync.LinkTracker.{LinkTracker, new_tracker, finish_request}
use go_graphsync.LinkTracker.Counts.{
  IsCounted, new_tracker-IsCounted, record_link_traversal-IsCounted,
}
use go_graphsync.LinkTracker
use go_graphsync.PeerTracker.{
  PeerTracker, new_peer_tracker, get_link_tracker, put_link_tracker, dedup_key, record_all, has_key,
  release_key,
}

pub record Inv (t : PeerTracker) : Type 0 where
  pub counted : IsCounted t.link_tracker
  pub alt_counted : (key : ℕ) (lt : LinkTracker) → get? key t.alt_trackers ≡ some lt → IsCounted lt
  pub keyed :
      (request key : ℕ) → get? request t.dedup_keys ≡ some key → get? key t.alt_trackers ≢ none

pub new_peer_tracker-Inv : Inv new_peer_tracker
unfolding new_peer_tracker get?
new_peer_tracker-Inv = record {
  counted = new_tracker-IsCounted;
  alt_counted = λ key lt h. cc;
  keyed = λ r k h. cc;
}

pub get_link_tracker-some :
    (request : ℕ) (t : PeerTracker)
    → Inv t
    → (lt : LinkTracker) × (get_link_tracker request t ≡ some lt) × IsCounted lt
unfolding get_link_tracker
get_link_tracker-some request t v = elim (Option-cases (get? request t.dedup_keys)) [
  | inl e ↦ (t.link_tracker, rw (e, get_link_tracker) refl, v.counted)
  | inr (key, e) ↦ elim (Option-cases (get? key t.alt_trackers)) [
    | inl n ↦ absurd (v.keyed request key e n)
    | inr (lt, f) ↦ (lt, rw (e, f, get_link_tracker) refl, v.alt_counted key lt f)
  ]
]

pub put_link_tracker-Inv :
    (request : ℕ) (lt : LinkTracker) (t : PeerTracker)
    → Inv t
    → IsCounted lt
    → Inv (put_link_tracker request lt t)
unfolding put_link_tracker
put_link_tracker-Inv request lt t v c = elim (Option-cases (get? request t.dedup_keys)) [
  | inl e ↦
      rw (e, put_link_tracker)
        (record { counted = c; alt_counted = v.alt_counted; keyed = v.keyed })
  | inr (key, e) ↦
      rw (e, put_link_tracker)
        (record {
          counted = v.counted;
          alt_counted =
              λ k x h. get?-insert_elim IsCounted key k lt t.alt_trackers c (v.alt_counted k) h;
          keyed = λ r k h. ground (arith, v.keyed r k h, get?-insert key k lt t.alt_trackers);
        })
]

pub dedup_key-Inv : (request key : ℕ) (t : PeerTracker) → Inv t → Inv (dedup_key request key t)
unfolding dedup_key has
dedup_key-Inv request key t v = elim (Option-cases (get? key t.alt_trackers)) [
  | inl e ↦
      rw (e, dedup_key, has)
        (record {
          counted = v.counted;
          alt_counted = λ k x h.
              get?-insert_elim IsCounted key k new_tracker t.alt_trackers new_tracker-IsCounted
                (v.alt_counted k) h;
          keyed = λ r k h. ground (
            arith,
            v.keyed r k,
            get?-insert key k new_tracker t.alt_trackers,
            get?-insert request r key t.dedup_keys,
          );
        })
  | inr (lt, e) ↦
      rw (e, dedup_key, has)
        (record {
          counted = v.counted;
          alt_counted = v.alt_counted;
          keyed = λ r k h. ground (arith, v.keyed r k, get?-insert request r key t.dedup_keys);
        })
]

pub record_all-IsCounted :
    (request : ℕ) (links : List ℕ) (lt : LinkTracker)
    → IsCounted lt
    → IsCounted (record_all request links lt)
unfolding record_all
record_all-IsCounted request [] lt c = c
record_all-IsCounted request (link ∷ links) lt c =
    record_all-IsCounted request links (LinkTracker.record_link_traversal request link true lt)
      (record_link_traversal-IsCounted request link true lt c)

pub has_key_lem : (request key : ℕ) (m : Map ℕ) → get? request m ≡ some key → has_key key m ≡ true
unfolding has_key get?
has_key_lem request key [] h = cc
has_key_lem request key ((r, k) ∷ m) h = ground (arith, has_key_lem request key m, ==_refl key)

pub release_key-Inv : (request : ℕ) (t : PeerTracker) → Inv t → Inv (release_key request t)
unfolding release_key
release_key-Inv request t v = elim (Option-cases (get? request t.dedup_keys)) [
  | inl e ↦ rw (e, release_key) v
  | inr (key, e) ↦ elim (Bool-cases (has_key key (delete request t.dedup_keys))) [
    | inl f ↦
        rw (e, f, release_key)
          (record {
            counted = v.counted;
            alt_counted = v.alt_counted;
            keyed = λ r k h. v.keyed r k (get?-delete-some request r t.dedup_keys h);
          })
    | inr f ↦
        rw (e, f, release_key)
          (record {
            counted = v.counted;
            alt_counted = λ k x h. v.alt_counted k x (get?-delete-some key k t.alt_trackers h);
            keyed = λ r k h. ground (
              arith,
              v.keyed r k (get?-delete-some request r t.dedup_keys h),
              get?-delete key k t.alt_trackers,
              has_key_lem r k (delete request t.dedup_keys) h,
            );
          })
  ]
]
