-- ===== src/RequestManager/Responding.antt =====
-- RequestManager.processResponses: it goes through on the responses of one message.
use go_graphsync.Base.{
  ℕ, ◌≡◌, refl, sym, ◌∙◌, true, false, ◌&&◌, List, [], ◌∷◌, ◌++◌, some, arith, ◌==◌, if◌then◌else◌,
  Bool-cases, Option-cases, inl, inr, get?, insert, has,
}
use go_graphsync.Message.{Block, Response, new_cancel_request}
use go_graphsync.ResponseCode.{is_terminal, is_failure}
use go_graphsync.RequestManager.Hooks.{ResponseResult}
use go_graphsync.RequestManager.{
  Manager, Outcome, Effect, ResponseHooks, prepend, process_extensions_for, process_extensions,
  let_through, filter_for_peer, ingest, update_last_responses, process_termination,
  process_terminations, process_filtered, process_responses, terminal_error_of, offline_effects,
  hook_error, extension_effects, loader_ingest, send_request,
}
use go_graphsync.RequestManager.About.{
  mentions, distinct, all_known, is_refusal, refused, owned, owned-same, mentions-owned,
}
use go_graphsync.RequestManager.Untouched.{
  touched, touched-++, process_extensions-untouched, process_filtered-untouched,
}
use go_graphsync.RequestManager.Validity.{
  IsValid, IsStep, is_ready, ready-some, has-some, has-insert, has-same, insert-IsStep, same-IsStep,
  cancel_on_error-runs,
}

mentions-let_through :
    (hooks : ResponseHooks) (p id : ℕ) (rs : List Response)
    → mentions id rs ≡ false
    → mentions id (let_through hooks p rs) ≡ false
unfolding mentions let_through
mentions-let_through hooks p id [] h = refl
mentions-let_through hooks p id (r ∷ rs) h = elim (Option-cases (hooks p r).err) [
  | inl e ↦ ground (arith, mentions-let_through hooks p id rs)
  | inr (x, e) ↦ ground (arith, mentions-let_through hooks p id rs)
]

distinct-let_through :
    (hooks : ResponseHooks) (p : ℕ) (rs : List Response)
    → distinct rs ≡ true
    → distinct (let_through hooks p rs) ≡ true
unfolding distinct let_through
distinct-let_through hooks p [] h = refl
distinct-let_through hooks p (r ∷ rs) h = elim (Option-cases (hooks p r).err) [
  | inl e ↦
      ground (arith, distinct-let_through hooks p rs, mentions-let_through hooks p r.request_id rs)
  | inr (x, e) ↦ ground (arith, distinct-let_through hooks p rs)
]

mentions-filter_for_peer :
    (p id : ℕ) (m : Manager) (rs : List Response)
    → mentions id rs ≡ false
    → mentions id (filter_for_peer p m rs) ≡ false
unfolding mentions filter_for_peer
mentions-filter_for_peer p id m [] h = refl
mentions-filter_for_peer p id m (r ∷ rs) h = elim (Option-cases (get? r.request_id m)) [
  | inl e ↦ ground (arith, mentions-filter_for_peer p id m rs)
  | inr (s, e) ↦ ground (arith, mentions-filter_for_peer p id m rs)
]

distinct-filter_for_peer :
    (p : ℕ) (m : Manager) (rs : List Response)
    → distinct rs ≡ true
    → distinct (filter_for_peer p m rs) ≡ true
unfolding distinct filter_for_peer
distinct-filter_for_peer p m [] h = refl
distinct-filter_for_peer p m (r ∷ rs) h = elim (Option-cases (get? r.request_id m)) [
  | inl e ↦ ground (arith, distinct-filter_for_peer p m rs)
  | inr (s, e) ↦
      ground (arith, distinct-filter_for_peer p m rs, mentions-filter_for_peer p r.request_id m rs)
]

all_known-filter_for_peer :
    (p : ℕ) (m : Manager) (rs : List Response) → all_known (filter_for_peer p m rs) m ≡ true
unfolding all_known filter_for_peer has
all_known-filter_for_peer p m [] = refl
all_known-filter_for_peer p m (r ∷ rs) = elim (Option-cases (get? r.request_id m)) [
  | inl e ↦ ground (arith, all_known-filter_for_peer p m rs)
  | inr (s, e) ↦ ground (arith, all_known-filter_for_peer p m rs)
]

-- What is known does not change with what is said about other requests.
all_known-IsStep :
    (id : ℕ) (rs : List Response) (m n : Manager)
    → mentions id rs ≡ false
    → IsStep id m n
    → all_known rs m ≡ true
    → all_known rs n ≡ true
unfolding all_known mentions
all_known-IsStep id [] m n d t k = refl
all_known-IsStep id (r ∷ rs) m n d t k =
    ground (arith, all_known-IsStep id rs m n, t.others r.request_id, has-same r.request_id m n)

all_known-same :
    (rs : List Response) (m n : Manager)
    → ((j : ℕ) → has j n ≡ has j m)
    → all_known rs m ≡ true
    → all_known rs n ≡ true
unfolding all_known
all_known-same [] m n same k = refl
all_known-same (r ∷ rs) m n same k = ground (arith, all_known-same rs m n same, same r.request_id)

-- The loop over the loaders meets no unknown request.
ingest-runs :
    (blocks : List Block) (rs : List Response) (m : Manager)
    → all_known rs m ≡ true
    → (es : List Effect) × (ingest blocks rs m ≡ some es)
unfolding all_known ingest
ingest-runs blocks [] m k = ([], refl)
ingest-runs blocks (r ∷ rs) m k =
    let (s, e) = has-some r.request_id m (ground arith) in
    let (es, i) = ingest-runs blocks rs m (ground arith) in
    (
      (if s.has_traverser then loader_ingest r.request_id r.metadata blocks ∷ [] else []) ++ es,
      rw (e, ingest) rw (i, ingest) refl,
    )

update_last_responses-runs :
    (rs : List Response) (m : Manager)
    → all_known rs m ≡ true
    → IsValid m
    → (n : Manager) × (update_last_responses rs m ≡ some n)
      × IsValid n
      × ((j : ℕ) → has j n ≡ has j m)
      × ((j : ℕ) → mentions j rs ≡ false → get? j n ≡ get? j m)
unfolding all_known mentions update_last_responses
update_last_responses-runs [] m k v = (m, refl, v, (λ j. refl), λ j a. refl)
update_last_responses-runs (r ∷ rs) m k v =
    let (s, e) = has-some r.request_id m (ground arith) in
    let t = record s { last_response = r } in
    let ready_here : is_ready s ≡ true = sym (ready-some r.request_id s m e) ∙ v r.request_id in
    let step = insert-IsStep r.request_id t m ready_here v in
    let same : (j : ℕ) → has j (insert r.request_id t m) ≡ has j m =
      λ j. ground (arith, has-insert r.request_id j t m) in
    let (n, i, w, there, others) =
      update_last_responses-runs rs (insert r.request_id t m)
        (all_known-same rs m (insert r.request_id t m) same (ground arith)) step.valid in
    (
      n,
      rw (e, update_last_responses) i,
      w,
      (λ j. there j ∙ same j),
      λ j a. others j (ground arith) ∙ step.others j (ground arith),
    )

process_termination-runs :
    (r : Response) (m : Manager)
    → has r.request_id m ≡ true
    → IsValid m
    → (o : Outcome) × (process_termination r m ≡ some o) × IsStep r.request_id m o.0
unfolding process_termination
process_termination-runs r m k v = elim (Bool-cases (is_terminal r.status)) [
  | inr t ↦ ((m, []), rw (t, process_termination) refl, same-IsStep r.request_id m v)
  | inl t ↦ elim (Bool-cases (is_failure r.status)) [
    | inr f ↦ ((m, offline_effects r.request_id m), ground arith, same-IsStep r.request_id m v)
    | inl f ↦
        let (s, e) = has-some r.request_id m k in
        let ready_here : is_ready s ≡ true = sym (ready-some r.request_id s m e) ∙ v r.request_id in
        let (o, c, step) =
          cancel_on_error-runs r.request_id (terminal_error_of r.status) s m ready_here v in
        (prepend o.1 (o.0, offline_effects r.request_id o.0), ground arith, step)
  ]
]

process_terminations-runs :
    (rs : List Response) (m : Manager)
    → distinct rs ≡ true
    → all_known rs m ≡ true
    → IsValid m
    → (o : Outcome) × (process_terminations rs m ≡ some o)
      × IsValid o.0
      × ((j : ℕ) → mentions j rs ≡ false → get? j o.0 ≡ get? j m)
unfolding all_known distinct mentions process_terminations
process_terminations-runs [] m d k v = ((m, []), refl, v, λ j d. refl)
process_terminations-runs (r ∷ rs) m d k v =
    let (o, e, step) = process_termination-runs r m (ground arith) v in
    let (q, f, w, others) =
      process_terminations-runs rs o.0 (ground arith)
        (all_known-IsStep r.request_id rs m o.0 (ground arith) step (ground arith)) step.valid in
    (
      prepend o.1 q,
      rw (e, process_terminations) rw (f, process_terminations) refl,
      w,
      λ j a. others j (ground arith) ∙ step.others j (ground arith),
    )

process_filtered-runs :
    (blocks : List Block) (rs : List Response) (m : Manager)
    → distinct rs ≡ true
    → all_known rs m ≡ true
    → IsValid m
    → (o : Outcome) × (process_filtered blocks rs m ≡ some o)
      × IsValid o.0
      × ((j : ℕ) → mentions j rs ≡ false → get? j o.0 ≡ get? j m)
unfolding process_filtered
process_filtered-runs blocks rs m d k v =
    let (es, i) = ingest-runs blocks rs m k in
    let (n, u, w, same, others) = update_last_responses-runs rs m k v in
    let (o, t, z, rest) = process_terminations-runs rs n d (all_known-same rs m n same k) w in
    (
      prepend es o,
      rw (i, process_filtered) rw (u, process_filtered) rw (t, process_filtered) refl,
      z,
      λ j a. rest j a ∙ others j a,
    )

process_extensions_for-runs :
    (p : ℕ) (r : Response) (h : ResponseResult) (m : Manager)
    → IsValid m
    → (o : Outcome) × (process_extensions_for p r h m ≡ some o)
      × IsValid o.0
      × ((j : ℕ) → (is_refusal h && (j == r.request_id)) ≡ false → get? j o.0 ≡ get? j m)
unfolding process_extensions_for
process_extensions_for-runs p r h m v =
    let sent = extension_effects p r.request_id h.extensions in
    elim (Option-cases h.err) [
      | inl e ↦ (prepend sent (m, []), rw (e, process_extensions_for) refl, v, λ j a. refl)
      | inr (x, e) ↦ elim (Option-cases (get? r.request_id m)) [
        | inl g ↦ (prepend sent (m, []), ground arith, v, λ j a. refl)
        | inr (s, g) ↦
            let ready_here : is_ready s ≡ true =
              sym (ready-some r.request_id s m g) ∙ v r.request_id in
            let (o, c, step) =
              cancel_on_error-runs r.request_id (some (hook_error x)) s m ready_here v in
            (
              prepend sent (prepend (send_request s.peer (new_cancel_request r.request_id) ∷ []) o),
              ground arith,
              step.valid,
              λ j a. step.others j (ground arith),
            )
      ]
    ]

process_extensions-runs :
    (hooks : ResponseHooks) (p : ℕ) (rs : List Response) (m : Manager)
    → IsValid m
    → (o : Outcome) × (process_extensions hooks p rs m ≡ some o)
      × IsValid o.0
      × ((j : ℕ) → refused hooks p j rs ≡ false → get? j o.0 ≡ get? j m)
unfolding process_extensions refused
process_extensions-runs hooks p [] m v = ((m, []), refl, v, λ j a. refl)
process_extensions-runs hooks p (r ∷ rs) m v =
    let (o, e, w, here) = process_extensions_for-runs p r (hooks p r) m v in
    let (q, f, z, others) = process_extensions-runs hooks p rs o.0 w in
    (
      prepend o.1 q,
      rw (e, process_extensions) rw (f, process_extensions) refl,
      z,
      λ j a. others j (ground arith) ∙ here j (ground arith),
    )

-- What processResponses leaves.
pub record Left (hooks : ResponseHooks) (p : ℕ) (rs : List Response) (m : Manager) (o : Outcome)
    : Type 0 where
  pub valid : IsValid o.0
  pub others : (j : ℕ) → owned p j m ≡ false → refused hooks p j rs ≡ false → get? j o.0 ≡ get? j m
  pub silent : (j : ℕ) → owned p j m ≡ false → refused hooks p j rs ≡ false → touched j o.1 ≡ false

process_responses-leaves :
    (hooks : ResponseHooks) (p : ℕ) (rs : List Response) (blocks : List Block) (m : Manager)
    → distinct rs ≡ true
    → IsValid m
    → (o : Outcome) × (process_responses hooks p rs blocks m ≡ some o) × Left hooks p rs m o
unfolding process_responses
process_responses-leaves hooks p rs blocks m d v =
    let (o, e, w, others) = process_extensions-runs hooks p rs m v in
    let kept = let_through hooks p rs in
    let (q, f, z, rest) =
      process_filtered-runs blocks (filter_for_peer p o.0 kept) o.0
        (distinct-filter_for_peer p o.0 kept (distinct-let_through hooks p rs d))
        (all_known-filter_for_peer p o.0 kept) w in
    let unmentioned : (j : ℕ)
        → owned p j m ≡ false
        → refused hooks p j rs ≡ false
        → mentions j (filter_for_peer p o.0 kept) ≡ false =
      λ j a b. mentions-owned p j o.0 kept (owned-same p j m o.0 (others j b) ∙ a) in
    (
      prepend o.1 q,
      rw (e, process_responses) rw (f, process_responses) refl,
      record {
        valid = z;
        others = λ j a b. rest j (unmentioned j a b) ∙ others j b;
        silent = λ j a b. ground (
          arith,
          touched-++ j o.1 q.1,
          process_extensions-untouched j hooks p rs m o b e,
          process_filtered-untouched j blocks (filter_for_peer p o.0 kept) o.0 q (unmentioned j a b)
              f,
        );
      },
    )

-- processResponses goes through on any responses of one message, no two of which are about the same
-- request, from a manager in which each running request has its loader, and leaves such a manager: it
-- never takes a request that is not there, nor a running request's loader that is not there.
pub process_responses-runs :
    (hooks : ResponseHooks) (p : ℕ) (rs : List Response) (blocks : List Block) (m : Manager)
    → distinct rs ≡ true
    → IsValid m
    → (o : Outcome) × (process_responses hooks p rs blocks m ≡ some o) × IsValid o.0
process_responses-runs hooks p rs blocks m d v =
    let (o, e, left) = process_responses-leaves hooks p rs blocks m d v in (o, e, left.valid)

-- Where no two responses are about the same request and each running request has its loader,
-- processResponses goes through and leaves a request that the sender of the responses does not serve,
-- unless a hook refuses a response about it: its entry is the same, its loader and traverser are given
-- nothing and stay on or offline as they are, its context and its task are left, nothing is sent on its
-- channels and they are not closed, and no cancellation of it is sent.
pub process_responses-others :
    (hooks : ResponseHooks) (p j : ℕ) (rs : List Response) (blocks : List Block) (m : Manager)
    → distinct rs ≡ true
    → IsValid m
    → owned p j m ≡ false
    → refused hooks p j rs ≡ false
    → (o : Outcome) × (process_responses hooks p rs blocks m ≡ some o)
      × (get? j o.0 ≡ get? j m)
      × (touched j o.1 ≡ false)
process_responses-others hooks p j rs blocks m d v a b =
    let (o, e, left) = process_responses-leaves hooks p rs blocks m d v in
    (o, e, left.others j a b, left.silent j a b)
