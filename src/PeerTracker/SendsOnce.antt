-- ===== src/PeerTracker/SendsOnce.antt =====
-- What responsemanager/responseassembler/peerlinktracker.go is for: a peer is not sent a block that
-- a request in progress of the same bucket has already had.
use go_graphsync.Base.{
  ℕ, ◌+◌, ◌≤◌, ◌<◌, ◌≡◌, ◌⊎◌, ◌↔◌, ap, refl, sym, ◌∙◌, subst, Bool, true, false, List, [], ◌∷◌,
  ◌++◌, Option, none, some, arith, ◌==◌, Map, get?, insert, delete, has, get?-insert, get?-delete,
  Option-cases, Bool-cases, inl, inr, ==_refl, ==_iff, some_inj, count, value-le-total, All,
  get?-insert_self, count-append,
}
use go_graphsync.LinkTracker.{
  LinkTracker, new_tracker, list_at, count_at, block_ref_count, finish_request,
}
use go_graphsync.LinkTracker.Counts.{IsCounted, uses}
use go_graphsync.LinkTracker
use go_graphsync.PeerTracker.Trackers.{Inv, get_link_tracker-some, has_key_lem}
use go_graphsync.PeerTracker.{
  PeerTracker, get_link_tracker, put_link_tracker, dedup_key, record_all, ignore_blocks,
  skip_first_blocks, release_key, finish_in, traverse_in, finish_tracking, record_link_traversal,
}
use go_graphsync.PeerTracker.Dedup.{Op, dedup, ignore, skip, finish, traverse, step, step-Inv}

-- The links that a request in progress has traversed with their blocks.
abbrev pub traversed_in : ℕ → Option LinkTracker → List ℕ
traversed_in request none = []
traversed_in request (some lt) = list_at request lt.traversed

abbrev pub held : ℕ → ℕ → PeerTracker → ℕ
held request link t = count link (traversed_in request (get_link_tracker request t))

get-put :
    (r q : ℕ) (lt lt' : LinkTracker) (t : PeerTracker)
    → get_link_tracker q t ≡ some lt
    → (get_link_tracker r (put_link_tracker q lt' t) ≡ get_link_tracker r t)
      ⊎ ((get_link_tracker r t ≡ some lt)
          × (get_link_tracker r (put_link_tracker q lt' t) ≡ some lt'))
unfolding get_link_tracker put_link_tracker
get-put r q lt lt' t e = elim (Option-cases (get? q t.dedup_keys)) [
  | inl f ↦ ground arith
  | inr (key, f) ↦ elim (Option-cases (get? r t.dedup_keys)) [
    | inl g ↦ inl (ground arith)
    | inr (k, g) ↦ elim (Bool-cases (key == k)) [
      | inl h ↦ inr (ground arith, ground (arith, get?-insert key k lt' t.alt_trackers))
      | inr h ↦ inl (ground (arith, get?-insert key k lt' t.alt_trackers))
    ]
  ]
]

get-release_key :
    (r q : ℕ) (t : PeerTracker)
    → (q == r) ≡ false
    → get_link_tracker r (release_key q t) ≡ get_link_tracker r t
unfolding get_link_tracker release_key
get-release_key r q t h = elim (Option-cases (get? q t.dedup_keys)) [
  | inl f ↦ rw (f, release_key) refl
  | inr (key, f) ↦ elim (Option-cases (get? r t.dedup_keys)) [
    | inl g ↦ ground (arith, get?-delete q r t.dedup_keys)
    | inr (k, g) ↦ ground (
      arith,
      get?-delete q r t.dedup_keys,
      get?-delete key k t.alt_trackers,
      has_key_lem r k (delete q t.dedup_keys),
    )
  ]
]

get-dedup_key :
    (r q key : ℕ) (t : PeerTracker)
    → Inv t
    → (q == r) ≡ false
    → get_link_tracker r (dedup_key q key t) ≡ get_link_tracker r t
unfolding get_link_tracker dedup_key has
get-dedup_key r q key t v h = elim (Option-cases (get? r t.dedup_keys)) [
  | inl g ↦ ground (arith, get?-insert q r key t.dedup_keys)
  | inr (k, g) ↦ ground (
    arith,
    v.keyed r k g,
    get?-insert q r key t.dedup_keys,
    get?-insert key k new_tracker t.alt_trackers,
  )
]

traversed-record :
    (r q link l : ℕ) (b : Bool) (lt : LinkTracker)
    → count link (list_at r lt.traversed)
      ≤ count link (list_at r (LinkTracker.record_link_traversal q l b lt).traversed)
unfolding LinkTracker.record_link_traversal
traversed-record r q link l false lt = omega arith
traversed-record r q link l true lt = ground (
  arith,
  get?-insert q r (list_at q lt.traversed ++ l ∷ []) lt.traversed,
  count-append link (list_at q lt.traversed) (l ∷ []),
  ==_iff q r,
)

traversed-record_all :
    (r q link : ℕ) (links : List ℕ) (lt : LinkTracker)
    → count link (list_at r lt.traversed) ≤ count link (list_at r (record_all q links lt).traversed)
unfolding record_all
traversed-record_all r q link [] lt = omega arith
traversed-record_all r q link (l ∷ ls) lt = omega (
  arith,
  traversed-record r q link l true lt,
  traversed-record_all r q link ls (LinkTracker.record_link_traversal q l true lt),
)

traversed-finish :
    (r q : ℕ) (lt : LinkTracker)
    → (q == r) ≡ false
    → list_at r (finish_request q lt).0.traversed ≡ list_at r lt.traversed
unfolding finish_request
traversed-finish r q lt h = ground (arith, get?-delete q r lt.traversed)

-- A write that loses none of the request's traversals in the tracker loses none in the whole.
held-put :
    (r q link : ℕ) (lt lt' : LinkTracker) (t : PeerTracker)
    → get_link_tracker q t ≡ some lt
    → count link (list_at r lt.traversed) ≤ count link (list_at r lt'.traversed)
    → held r link t ≤ held r link (put_link_tracker q lt' t)
held-put r q link lt lt' t e h = elim (get-put r q lt lt' t e) [
  | inl f ↦ rw f (omega arith)
  | inr (f, g) ↦ rw (f, g) h
]

-- The request's end, and a new dedup key for it, are what makes the peer forget its traversals.
abbrev pub Keeps : ℕ → Op → Type 0
Keeps r (finish q) = (q == r) ≡ false
Keeps r (dedup q key) = (q == r) ≡ false
Keeps r _ = Unit

get_link_tracker_counters :
    (request : ℕ) (sent skips : Map ℕ) (t : PeerTracker)
    → get_link_tracker request (record t { block_sent_count = sent; skip_first = skips })
      ≡ get_link_tracker request t
unfolding get_link_tracker
get_link_tracker_counters request sent skips t = refl

held-counters :
    (r link : ℕ) (sent skips : Map ℕ) (t : PeerTracker)
    → held r link (record t { block_sent_count = sent; skip_first = skips }) ≡ held r link t
held-counters r link sent skips t =
    ap (λ o. count link (traversed_in r o)) (get_link_tracker_counters r sent skips t)

held-finish :
    (r q link : ℕ) (lt : LinkTracker) (t : PeerTracker)
    → get_link_tracker q t ≡ some lt
    → (q == r) ≡ false
    → held r link t ≤ held r link (finish_in q lt t).0
unfolding finish_in
held-finish r q link lt t e h =
    let after = (finish_request q lt).0 in
    omega (
      arith,
      held-put r q link lt after t e (rw (traversed-finish r q lt h) (omega arith)),
      ap (λ o. count link (traversed_in r o)) (get-release_key r q (put_link_tracker q after t) h),
      held-counters r link _ _ (release_key q (put_link_tracker q after t)),
    )

held-traverse :
    (r q link l : ℕ) (b : Bool) (lt : LinkTracker) (t : PeerTracker)
    → get_link_tracker q t ≡ some lt
    → held r link t ≤ held r link (traverse_in q l b lt t).0
unfolding traverse_in
held-traverse r q link l b lt t e = omega (
  arith,
  held-put r q link lt (LinkTracker.record_link_traversal q l b lt)
      (record t { block_sent_count = sent }) (get_link_tracker_counters q sent t.skip_first t ∙ e)
      (traversed-record r q link l b lt),
  held-counters r link sent t.skip_first t,
)
  where
    sent : Map ℕ
    sent = insert q (count_at q t.block_sent_count + 1) t.block_sent_count

step-held :
    (r link : ℕ) (op : Op) (t u : PeerTracker)
    → Inv t
    → Keeps r op
    → step op t ≡ some u
    → held r link t ≤ held r link u
unfolding step ignore_blocks finish_tracking record_link_traversal
step-held r link (dedup q key) t u v k h =
    rw (← some_inj h, get-dedup_key r q key t v k) (omega arith)
step-held r link (skip q n) t u v k h = rw (← some_inj h) (
    unfold skip_first_blocks in
    omega (arith, held-counters r link t.block_sent_count (insert q n t.skip_first) t))
step-held r link (ignore q links) t u v k h =
    let (lt, e, c) = get_link_tracker-some q t v in
    rw (← some_inj (rw e at h))
      (held-put r q link lt (record_all q links lt) t e (traversed-record_all r q link links lt))
step-held r link (finish q) t u v k h =
    let (lt, e, c) = get_link_tracker-some q t v in
    rw (← some_inj (rw e at h)) (held-finish r q link lt t e k)
step-held r link (traverse q l b) t u v k h =
    let (lt, e, c) = get_link_tracker-some q t v in
    rw (← some_inj (rw e at h)) (held-traverse r q link l b lt t e)

unfoldable pub run : List Op → PeerTracker → Option PeerTracker
run [] t = some t
run (op ∷ ops) t = elim (step op t) [ none ↦ none | some u ↦ run ops u ]

run-held :
    (r link : ℕ) (ops : List Op) (t u : PeerTracker)
    → Inv t
    → All (Keeps r) ops
    → run ops t ≡ some u
    → Inv u × (held r link t ≤ held r link u)
unfolding run
run-held r link [] t u v k h =
    let e = some_inj h in
    (subst Inv e v, subst (λ z. held r link t ≤ held r link z) e (omega arith))
run-held r link (op ∷ ops) t u v k h =
    let (t', e, v') = step-Inv op t v in
    let (w, le) = run-held r link ops t' u v' k.1 (rw (e, run) at h) in
    (w, omega (arith, step-held r link op t t' v k.0 e, le))

-- The requests that share a tracker: those with the same dedup key, and those without one.
abbrev pub SameBucket : ℕ → ℕ → PeerTracker → Type 0
SameBucket q r t = get_link_tracker q t ≡ get_link_tracker r t

held_refuses :
    (q r link : ℕ) (b : Bool) (t w : PeerTracker) (send : Bool) (n : ℕ)
    → Inv t
    → SameBucket q r t
    → 0 < held r link t
    → record_link_traversal q link b t ≡ some (w, send, n)
    → send ≡ false
unfolding record_link_traversal traverse_in block_ref_count
held_refuses q r link b t w send n v s h e =
    let (lt, f, c) = get_link_tracker-some q t v in
    ground (
      arith,
      some_inj (rw f at e),
      c.counted link,
      value-le-total (count link) r lt.traversed,
      rw (sym s ∙ f) at h,
    )

get-put_self :
    (q : ℕ) (lt : LinkTracker) (t : PeerTracker)
    → get_link_tracker q (put_link_tracker q lt t) ≡ some lt
unfolding get_link_tracker put_link_tracker
get-put_self q lt t = elim (Option-cases (get? q t.dedup_keys)) [
  | inl e ↦ ground arith
  | inr (key, e) ↦ ground (arith, get?-insert_self key lt t.alt_trackers)
]

record-counts :
    (r link : ℕ) (lt : LinkTracker)
    → 0 < count link (list_at r (LinkTracker.record_link_traversal r link true lt).traversed)
unfolding LinkTracker.record_link_traversal
record-counts r link lt = ground (
  arith,
  get?-insert_self r (list_at r lt.traversed ++ link ∷ []) lt.traversed,
  count-append link (list_at r lt.traversed) (link ∷ []),
  ==_refl link,
)

traverse-held :
    (r link : ℕ) (t u : PeerTracker) (send : Bool) (n : ℕ)
    → Inv t
    → record_link_traversal r link true t ≡ some (u, send, n)
    → 0 < held r link u
unfolding record_link_traversal traverse_in
traverse-held r link t u send n v h =
    let (lt, f, c) = get_link_tracker-some r t v in
    rw (← ap (λ z. z.0) (some_inj (rw f at h)))
      (rw (traverse_in, get-put_self r) (record-counts r link lt))

-- Once a request has traversed a link with its block, no request of its bucket is told to send that
-- block again, whatever calls come between, as long as the first request neither finishes nor
-- changes its dedup key.
pub run-sends_once :
    (r q link : ℕ) (first send : Bool) (m n : ℕ) (b : Bool) (ops : List Op) (t t' u w : PeerTracker)
    → Inv t
    → record_link_traversal r link true t ≡ some (t', first, m)
    → All (Keeps r) ops
    → run ops t' ≡ some u
    → SameBucket q r u
    → record_link_traversal q link b u ≡ some (w, send, n)
    → send ≡ false
unfolding step
run-sends_once r q link first send m n b ops t t' u w v h k e s g =
    let (x, f, v') = step-Inv (traverse r link true) t v in
    let same : x ≡ t' = some_inj (sym f ∙ rw h) in
    let (v'', le) = run-held r link ops t' u (subst Inv same v') k e in
    held_refuses q r link b u w send n v'' s
      (omega (arith, le, traverse-held r link t t' first m v h)) g

-- RecordLinkTraversal counts the request's blocks, and says to send one exactly when it is there,
-- lies beyond those to skip, and no request in progress of the bucket has traversed its link.
pub record_link_traversal_lem :
    (r link : ℕ) (b send : Bool) (n : ℕ) (lt : LinkTracker) (t u : PeerTracker)
    → Inv t
    → get_link_tracker r t ≡ some lt
    → record_link_traversal r link b t ≡ some (u, send, n)
    → (n ≡ count_at r t.block_sent_count + 1)
      × ((send ≡ true) ↔ ((b ≡ true) × (count_at r t.skip_first < n) × (uses link lt ≡ 0)))
unfolding record_link_traversal traverse_in block_ref_count
record_link_traversal_lem r link b send n lt t u v f h =
    let (x, g, c) = get_link_tracker-some r t v in
    let same : x ≡ lt = some_inj (sym g ∙ f) in
    let d : IsCounted lt = subst IsCounted same c in
    let e = some_inj (rw f at h) in
    (ground arith, (λ s. ground (arith, d.counted link), λ s. ground (arith, d.counted link)))
