-- ===== src/LinkTracker/Counts.antt =====
-- The reference counts of linktracker/linktracker.go: a link's count is the number of times that
-- requests in progress have traversed it with its block.
use go_graphsync.Base.{
  ℕ, ◌+◌, ◌-◌, ◌<◌, ◌≡◌, ◌↔◌, ◌≢◌, refl, List-cases, ==_refl, Bool, true, false, not, List, [], ◌∷◌,
  ◌++◌, some, arith, ◌==◌, if◌then◌else◌, contains, count, count-append, Map, get?, has, IsMap,
  total, get?-insert, get?-delete, insert-IsMap, delete-IsMap, total-insert, total-delete,
  value-le-total, Option-cases, inl, inr,
}
use go_graphsync.LinkTracker.{
  LinkTracker, new_tracker, list_at, count_at, block_ref_count, is_known_missing_link,
  record_link_traversal, drop_traversal, drop_traversals, finish_request, is_empty, add_link,
}

-- How often requests in progress have traversed a link with its block.
abbrev pub uses : ℕ → LinkTracker → ℕ
uses link lt = total (count link) lt.traversed

pub record IsCounted (lt : LinkTracker) : Type 0 where
  pub distinct : IsMap lt.traversed
  pub counted : (link : ℕ) → count_at link lt.in_progress ≡ uses link lt
  pub positive : (link n : ℕ) → get? link lt.in_progress ≡ some n → 0 < n
  pub nonempty : (request : ℕ) → get? request lt.missing ≢ some []

pub new_tracker-IsCounted : IsCounted new_tracker
unfolding new_tracker get?
new_tracker-IsCounted = record {
  distinct = tt;
  counted = λ link. refl;
  positive = λ link n h. cc;
  nonempty = λ r h. cc;
}

pub drop_traversals-count_at :
    (link : ℕ) (links : List ℕ) (m : Map ℕ)
    → count_at link (drop_traversals links m) ≡ count_at link m - count link links
unfolding drop_traversals
drop_traversals-count_at link [] m = omega arith
drop_traversals-count_at link (x ∷ xs) m = ground (
  arith,
  drop_traversals-count_at link xs (drop_traversal x m),
  get?-insert x link (count_at x m - 1) m,
  get?-delete x link m,
)

drop_traversals_positive :
    (links : List ℕ) (m : Map ℕ)
    → ((link n : ℕ) → get? link m ≡ some n → 0 < n)
    → (link n : ℕ) → get? link (drop_traversals links m) ≡ some n
    → 0 < n
unfolding drop_traversals
drop_traversals_positive [] m h = h
drop_traversals_positive (x ∷ xs) m h =
    drop_traversals_positive xs (drop_traversal x m) (λ link n e.
      ground (arith, h link n, get?-insert x link (count_at x m - 1) m, get?-delete x link m))

-- Recording a traversal keeps the counts.
pub record_link_traversal-IsCounted :
    (request link : ℕ) (has_block : Bool) (lt : LinkTracker)
    → IsCounted lt
    → IsCounted (record_link_traversal request link has_block lt)
unfolding record_link_traversal
record_link_traversal-IsCounted request link false lt v = record {
  distinct = v.distinct;
  counted = v.counted;
  positive = v.positive;
  nonempty = λ r h. ground (
    arith,
    v.nonempty r,
    get?-insert request r (add_link link (list_at request lt.missing)) lt.missing,
  );
}
record_link_traversal-IsCounted request link true lt v = record {
  distinct = insert-IsMap request _ lt.traversed v.distinct;
  counted = λ k. ground (
    arith,
    v.counted k,
    get?-insert link k (count_at link lt.in_progress + 1) lt.in_progress,
    total-insert (count k) request (list_at request lt.traversed ++ link ∷ []) lt.traversed,
    count-append k (list_at request lt.traversed) (link ∷ []),
  );
  positive = λ k n e.
      ground (
        arith,
        v.positive k n,
        get?-insert link k (count_at link lt.in_progress + 1) lt.in_progress,
      );
  nonempty = v.nonempty;
}

-- So does finishing a request.
pub finish_request-IsCounted :
    (request : ℕ) (lt : LinkTracker) → IsCounted lt → IsCounted (finish_request request lt).0
unfolding finish_request
finish_request-IsCounted request lt v = elim (Option-cases (get? request lt.traversed)) [
  | inl e ↦
      rw (e, finish_request)
        (record {
          distinct = v.distinct;
          counted = v.counted;
          positive = v.positive;
          nonempty = λ r. ground (arith, v.nonempty r, get?-delete request r lt.missing);
        })
  | inr (links, e) ↦
      rw (e, finish_request)
        (record {
          distinct = delete-IsMap request lt.traversed v.distinct;
          counted = λ k. ground (
            arith,
            v.counted k,
            drop_traversals-count_at k links lt.in_progress,
            total-delete (count k) request lt.traversed v.distinct,
          );
          positive = drop_traversals_positive links lt.in_progress v.positive;
          nonempty = λ r. ground (arith, v.nonempty r, get?-delete request r lt.missing);
        })
]

complete_iff :
    (request : ℕ) (lt : LinkTracker)
    → IsCounted lt
    → (not (has request lt.missing) ≡ true)
      ↔ ((link : ℕ) → is_known_missing_link request link lt ≡ false)
unfolding is_known_missing_link has
complete_iff request lt v = elim (Option-cases (get? request lt.missing)) [
  | inl e ↦ rw (e, has, is_known_missing_link) (λ _ link. refl, λ _. refl)
  | inr (links, e) ↦ elim (List-cases links) [
    | inl n ↦ absurd (ground (arith, v.nonempty request))
    | inr (x, xs, n) ↦ (λ h. ground arith, λ h. ground (arith, h x))
  ]
]

-- What FinishRequest says and does: it returns true exactly when no link of the request is known
-- to be missing; each link's count falls by the number of times that the request had traversed it
-- with its block; and no link is known to be missing for the request any more, while what is known
-- of the other requests stays.
pub finish_request_lem :
    (request : ℕ) (lt : LinkTracker)
    → IsCounted lt
    → let (after, complete) = finish_request request lt in
      ((complete ≡ true) ↔ ((link : ℕ) → is_known_missing_link request link lt ≡ false))
      × ((link : ℕ)
          → block_ref_count link after + count link (list_at request lt.traversed)
            ≡ block_ref_count link lt)
      × ((other link : ℕ)
          → is_known_missing_link other link after
            ≡ (if request == other then false else is_known_missing_link other link lt))
unfolding finish_request block_ref_count is_known_missing_link
finish_request_lem request lt v = (
  complete_iff request lt v,
  λ link. counts link,
  λ other link. ground (arith, get?-delete request other lt.missing),
)
  where
    counts :
        (link : ℕ)
        → block_ref_count link (finish_request request lt).0
            + count link (list_at request lt.traversed)
          ≡ block_ref_count link lt
    counts link = elim (Option-cases (get? request lt.traversed)) [
      | inl e ↦ ground arith
      | inr (links, e) ↦ ground (
        arith,
        v.counted link,
        drop_traversals-count_at link links lt.in_progress,
        value-le-total (count link) request lt.traversed,
      )
    ]

empty_of_counts :
    (m : Map ℕ)
    → ((link n : ℕ) → get? link m ≡ some n → 0 < n)
    → ((link : ℕ) → count_at link m ≡ 0)
    → m ≡ []
unfolding get?
empty_of_counts [] p z = refl
empty_of_counts ((k, n) ∷ m) p z = absurd (ground (arith, p k n, z k, ==_refl k))

empty_of_missing :
    (m : Map (List ℕ))
    → ((request : ℕ) → get? request m ≢ some [])
    → ((request link : ℕ) → contains link (list_at request m) ≡ false)
    → m ≡ []
unfolding get?
empty_of_missing [] p z = refl
empty_of_missing ((k, []) ∷ m) p z = absurd (ground (arith, p k, ==_refl k))
empty_of_missing ((k, x ∷ xs) ∷ m) p z = absurd (ground (arith, z k x, ==_refl k, ==_refl x))

-- Empty says exactly that no link is counted and none is known to be missing.
pub is_empty_iff :
    (lt : LinkTracker)
    → IsCounted lt
    → (is_empty lt ≡ true) ↔ (
        ((link : ℕ) → block_ref_count link lt ≡ 0)
        × ((request link : ℕ) → is_known_missing_link request link lt ≡ false))
unfolding is_empty block_ref_count is_known_missing_link get?
is_empty_iff lt v = (forth, back)
  where
    forth :
        is_empty lt ≡ true
        → ((link : ℕ) → block_ref_count link lt ≡ 0)
          × ((request link : ℕ) → is_known_missing_link request link lt ≡ false)
    forth h = elim (List-cases lt.missing) [
      | inr (x, xs, e) ↦ absurd (ground arith)
      | inl e ↦ elim (List-cases lt.in_progress) [
        | inr (y, ys, f) ↦ absurd (ground arith)
        | inl f ↦ (λ link. rw f refl, λ request link. rw (e, is_known_missing_link) refl)
      ]
    ]

    back :
        ((link : ℕ) → block_ref_count link lt ≡ 0)
          × ((request link : ℕ) → is_known_missing_link request link lt ≡ false)
        → is_empty lt ≡ true
    back h = ground (
      arith,
      empty_of_counts lt.in_progress v.positive h.0,
      empty_of_missing lt.missing v.nonempty (λ request link. ground (arith, h.1 request link)),
    )
