-- ===== src/RequestManager/Orderly.antt =====
-- The channels of the requests over each message to the request manager's loop
-- (requestmanager/messages.go).
use go_graphsync.Base.{
  ℕ, ◌≡◌, refl, sym, ◌∙◌, ap, subst, Bool, true, false, ◌||◌, List, [], ◌∷◌, ◌++◌, Option, none,
  some, arith, Option-cases, Bool-cases, inl, inr, get?, insert, has, length,
}
use go_graphsync.Message.{Block, Response, Request, Extension, replace_extensions}
use go_graphsync.ResponseManager.{queued, running, paused, max_priority}
use go_graphsync.RequestManager.{
  Checks, Manager, InProgress, Outcome, Error, Effect, TaskError, ResponseHooks, start_request,
  add_request, validate_request, skip_count, get_request_task, release_request_task, cancel_request,
  add_channel, process_filtered, process_responses, ingest, update_last_responses,
  process_terminations, process_extensions, let_through, filter_for_peer, pause, unpause, update,
  answer, give_request, give_task, released, err_paused, task_failed, terminate_request, refuse,
  push_task, notify_processing,
}
use go_graphsync.RequestManager.Hooks.{RequestResult}
use go_graphsync.RequestManager.Validity.{IsValid, State-cases, has-insert}
use go_graphsync.RequestManager.Channels.{
  channels_after, after_both, channels_after-++, IsOrderly, prepend_some-IsOrderly,
  and_then-IsOrderly, terminate_request-IsOrderly, insert-IsOrderly, announced-IsOrderly, has-get?,
  has_stays, process_extensions-IsOrderly, process_terminations-IsOrderly,
}
use go_graphsync.RequestManager.Loop.{
  Config, Call, handle, with_answer, is_message, handle-runs, new_request_call,
  process_responses_call, pause_call, unpause_call, update_call, cancel_call, get_task_call,
  release_task_call, Validated-cases,
}

ingest-channels :
    (id : ℕ) (blocks : List Block) (rs : List Response) (m : Manager) (es : List Effect) (b : Bool)
    → ingest blocks rs m ≡ some es
    → channels_after id es b ≡ some b
unfolding ingest channels_after
ingest-channels id blocks [] m es b e = ground arith
ingest-channels id blocks (r ∷ rs) m es b e = elim (Option-cases (get? r.request_id m)) [
  | inl g ↦ absurd (ground arith)
  | inr (s, g) ↦ elim (Option-cases (ingest blocks rs m)) [
    | inl f ↦ absurd (ground arith)
    | inr (fs, f) ↦
        let rest = ingest-channels id blocks rs m fs b f in
        elim (Bool-cases s.has_traverser) [ inl t ↦ ground arith | inr t ↦ ground arith ]
  ]
]

update_last_responses-has :
    (id : ℕ) (rs : List Response) (m n : Manager)
    → update_last_responses rs m ≡ some n
    → has id n ≡ has id m
unfolding update_last_responses
update_last_responses-has id [] m n e = ap (has id) (ground arith)
update_last_responses-has id (r ∷ rs) m n e = elim (Option-cases (get? r.request_id m)) [
  | inl g ↦ absurd (ground arith)
  | inr (s, g) ↦
      let t = record s { last_response = r } in
      let f : update_last_responses rs (insert r.request_id t m) ≡ some n = ground arith in
      update_last_responses-has id rs (insert r.request_id t m) n f
      ∙ has_stays id r.request_id t m (has-get? r.request_id s m g)
]

process_filtered-IsOrderly :
    (id : ℕ) (blocks : List Block) (rs : List Response) (m : Manager)
    → IsOrderly id m (process_filtered blocks rs m)
unfolding process_filtered
process_filtered-IsOrderly id blocks rs m = elim (Option-cases (ingest blocks rs m)) [
  | inl i ↦ rw (i, process_filtered) tt
  | inr (es, i) ↦ elim (Option-cases (update_last_responses rs m)) [
    | inl u ↦ rw (i, process_filtered) rw (u) tt
    | inr (n, u) ↦
        rw (i, process_filtered) rw (u)
          (prepend_some-IsOrderly id m n es (process_terminations rs n)
            (ingest-channels id blocks rs m es (has id m) i
              ∙ sym (ap some (update_last_responses-has id rs m n u)))
            (process_terminations-IsOrderly id rs n))
  ]
]

process_responses-IsOrderly :
    (id p : ℕ) (hooks : ResponseHooks) (rs : List Response) (blocks : List Block) (m : Manager)
    → IsOrderly id m (process_responses hooks p rs blocks m)
unfolding process_responses
process_responses-IsOrderly id p hooks rs blocks m =
    and_then-IsOrderly id m (process_extensions hooks p rs m)
      (λ n. process_filtered blocks (filter_for_peer p n (let_through hooks p rs)) n)
      (process_extensions-IsOrderly id p hooks rs m)
      (λ n. process_filtered-IsOrderly id blocks (filter_for_peer p n (let_through hooks p rs)) n)

refuse-channels : (id : ℕ) (c : Option ℕ) (b : Bool) → channels_after id (refuse c) b ≡ some b
unfolding channels_after
refuse-channels id none b = refl
refuse-channels id (some c) b = refl

cancel_request-IsOrderly :
    (id j : ℕ) (c : Option ℕ) (e : Option Error) (m : Manager)
    → IsOrderly id m (cancel_request j c e m)
unfolding cancel_request channels_after
cancel_request-IsOrderly id j c e m = elim (Option-cases (get? j m)) [
  | inl g ↦ rw (g, cancel_request) (refuse-channels id c (has id m))
  | inr (r, g) ↦
      rw (g, cancel_request)
        (announced-IsOrderly id j r.peer e (add_channel c r) m (has-get? j r m g))
]

with_answer-IsOrderly :
    (id : ℕ) (m : Manager) (o : Outcome) (es : List Effect)
    → ((b : Bool) → channels_after id es b ≡ some b)
    → IsOrderly id m (some o)
    → IsOrderly id m (some (with_answer o es))
with_answer-IsOrderly id m o es quiet h =
    rw (channels_after-++ id o.1 es (has id m), h) (quiet (has id o.0))

pause-has : (id j : ℕ) (m : Manager) → has id (pause j m).0 ≡ has id m
unfolding pause
pause-has id j m = elim (Option-cases (get? j m)) [
  | inl e ↦ rw (e, pause) refl
  | inr (r, e) ↦
      let stays = has_stays id j (record r { pause_message = true }) m (has-get? j r m e) in
      elim (State-cases r.state) [
        | inl t ↦ rw (e, pause) rw (t) stays
        | inr (inl t) ↦ rw (e, pause) rw (t) stays
        | inr (inr (inl t)) ↦ rw (e, pause) rw (t) refl
        | inr (inr (inr t)) ↦ rw (e, pause) rw (t) stays
      ]
]

unpause-IsOrderly :
    (id j : ℕ) (es : List Extension) (m : Manager) → IsOrderly id m (some (unpause j es m).0)
unfolding unpause channels_after
unpause-IsOrderly id j es m = elim (Option-cases (get? j m)) [
  | inl e ↦ rw (e, unpause) refl
  | inr (r, e) ↦
      let s = record r { state = queued; request = replace_extensions es r.request } in
      elim (State-cases r.state) [
        | inl t ↦ rw (e, unpause) rw (t) refl
        | inr (inl t) ↦ rw (e, unpause) rw (t) refl
        | inr (inr (inl t)) ↦
            rw (e, unpause) rw (t)
              (insert-IsOrderly id j s m (push_task r.peer j max_priority ∷ []) (λ b. refl)
                (has-get? j r m e))
        | inr (inr (inr t)) ↦ rw (e, unpause) rw (t) refl
      ]
]

get_request_task-IsOrderly :
    (id j p : ℕ) (m : Manager) → IsOrderly id m (some (get_request_task j p m).0)
unfolding get_request_task channels_after
get_request_task-IsOrderly id j p m = elim (Option-cases (get? j m)) [
  | inl e ↦ rw (e, get_request_task) refl
  | inr (r, e) ↦
      let s = record r { state = running; has_traverser = true } in
      let there = has-get? j r m e in
      elim (Bool-cases r.has_traverser) [
        | inl t ↦ rw (e, get_request_task) rw (t) (insert-IsOrderly id j s m [] (λ b. refl) there)
        | inr t ↦
            rw (e, get_request_task) rw (t)
              (insert-IsOrderly id j s m (notify_processing r.peer j (length m) ∷ []) (λ b. refl)
                there)
      ]
]

released-IsOrderly :
    (id j : ℕ) (e : Option TaskError) (r : InProgress) (m : Manager)
    → has j m ≡ true
    → IsOrderly id m (
        some (elim e as (λ _. Outcome) [
          | none ↦ terminate_request j r m
          | some x ↦ elim x [
            | err_paused ↦ (insert j (record r { state = paused }) m, [])
            | task_failed f ↦ terminate_request j r m
          ]
        ]))
unfolding channels_after
released-IsOrderly id j none r m h = terminate_request-IsOrderly id j r m h
released-IsOrderly id j (some err_paused) r m h =
    insert-IsOrderly id j (record r { state = paused }) m [] (λ b. refl) h
released-IsOrderly id j (some (task_failed f)) r m h = terminate_request-IsOrderly id j r m h

release_request_task-IsOrderly :
    (id j p : ℕ) (e : Option TaskError) (m : Manager)
    → IsOrderly id m (some (release_request_task j p e m))
unfolding release_request_task channels_after
release_request_task-IsOrderly id j p e m = elim (Option-cases (get? j m)) [
  | inl g ↦ rw (g, release_request_task) refl
  | inr (r, g) ↦ rw (g, release_request_task) (released-IsOrderly id j e r m (has-get? j r m g))
]

or_self : (b : Bool) → (b || b) ≡ b
or_self true = refl
or_self false = refl

or_false : (b : Bool) → (b || false) ≡ b
or_false true = refl
or_false false = refl

started-has :
    (id j : ℕ) (s : InProgress) (m : Manager)
    → (has id m || has id (insert j s m)) ≡ has id (insert j s m)
started-has id j s m = ground (arith, has-insert j id s m)

-- A new request's effects are not about the channels, and no request goes.
start_request-has :
    (id : ℕ) (g : Checks) (default j p : ℕ) (root : Option ℕ) (selector : ℕ) (es : List Extension)
    → (hooks : Request → RequestResult) (m : Manager)
    → let o = (start_request g default j p root selector es hooks m).0 in
      channels_after id o.1 (has id m || has id o.0) ≡ some (has id o.0)
unfolding start_request add_request channels_after
start_request-has id g default j p root selector es hooks m =
    elim (Validated-cases (validate_request g default j root selector es hooks)) [
      | inl (e, t) ↦ rw (t, start_request) (ap some (or_self (has id m)))
      | inr (q, l, t) ↦ elim (Option-cases (skip_count g q)) [
        | inl u ↦ rw (t, start_request) rw (u) (ap some (or_self (has id m)))
        | inr (n, u) ↦ rw (t, start_request) rw (u) (ap some (started-has id q.id _ m))
      ]
    ]

-- A request that a call for a new request leaves there.
unfoldable pub opens : ℕ → Call → Manager → Bool
opens id (new_request_call j p root selector es c) n = has id n
opens id (process_responses_call p rs blocks) n = false
opens id (pause_call j c) n = false
opens id (unpause_call j es c) n = false
opens id (update_call j es c) n = false
opens id (cancel_call j c e) n = false
opens id (get_task_call p j c) n = false
opens id (release_task_call p j e c) n = false

-- IsOrderly, with a request that is put there.
abbrev IsAfter : ℕ → (Manager → Bool) → Manager → Option Outcome → Type 0
IsAfter id f m none = Unit
IsAfter id f m (some o) = channels_after id o.1 (has id m || f o.0) ≡ some (has id o.0)

widened :
    (id : ℕ) (m : Manager) (x : Option Outcome) → IsOrderly id m x → IsAfter id (λ n. false) m x
widened id m none h = tt
widened id m (some o) h = ap (channels_after id o.1) (or_false (has id m)) ∙ h

update-channels :
    (id j : ℕ) (es : List Extension) (c : ℕ) (m : Manager) (b : Bool)
    → channels_after id ((update j es m).0 ++ answer c (update j es m).1 ∷ []) b ≡ some b
unfolding update channels_after
update-channels id j es c m b = elim (Option-cases (get? j m)) [
  | inl e ↦ rw (e, update) refl
  | inr (r, e) ↦ rw (e, update) refl
]

handle-IsOrderly :
    (g : Config) (call : Call) (id : ℕ) (m : Manager)
    → IsAfter id (opens id call) m (handle g call m)
unfolding handle opens channels_after
handle-IsOrderly g (new_request_call j p root selector es c) id m =
    let o =
      start_request g.checks g.default_link_system j p root selector es (g.request_hooks p) m in
    channels_after-++ id o.0.1 (give_request c o.1 ∷ []) (has id m || has id o.0.0)
    ∙ ap (after_both id (give_request c o.1 ∷ [])) (
        start_request-has id g.checks g.default_link_system j p root selector es (g.request_hooks p)
          m)
handle-IsOrderly g (process_responses_call p rs blocks) id m =
    widened id m (process_responses g.response_hooks p rs blocks m)
      (process_responses-IsOrderly id p g.response_hooks rs blocks m)
handle-IsOrderly g (pause_call j c) id m =
    widened id m (some ((pause j m).0, answer c (pause j m).1 ∷ []))
      (sym (ap some (pause-has id j m)))
handle-IsOrderly g (unpause_call j es c) id m =
    let o = unpause j es m in
    widened id m (some (with_answer o.0 (answer c o.1 ∷ [])))
      (with_answer-IsOrderly id m o.0 (answer c o.1 ∷ []) (λ b. refl) (unpause-IsOrderly id j es m))
handle-IsOrderly g (update_call j es c) id m =
    widened id m (some (m, (update j es m).0 ++ answer c (update j es m).1 ∷ []))
      (update-channels id j es c m (has id m))
handle-IsOrderly g (cancel_call j c e) id m =
    widened id m (cancel_request j c e m) (cancel_request-IsOrderly id j c e m)
handle-IsOrderly g (get_task_call p j c) id m =
    let o = get_request_task j p m in
    widened id m (some (with_answer o.0 (give_task c o.1 ∷ []))) (
      with_answer-IsOrderly id m o.0 (give_task c o.1 ∷ []) (λ b. refl)
        (get_request_task-IsOrderly id j p m))
handle-IsOrderly g (release_task_call p j e c) id m =
    let o = release_request_task j p e m in
    widened id m (some (with_answer o (released c ∷ []))) (
      with_answer-IsOrderly id m o (released c ∷ []) (λ b. refl)
        (release_request_task-IsOrderly id j p e m))

-- The channels of a request are open while it is in progress: whatever message the request manager's
-- loop handles, from a manager in which each running request has its loader and for responses about
-- different requests, nothing is sent on a channel that is closed, no channel is closed again, and
-- after it the channels of just the requests that are still in progress are open.
pub handle-channels :
    (g : Config) (call : Call) (id : ℕ) (m : Manager)
    → is_message call ≡ true
    → IsValid m
    → (o : Outcome) × (handle g call m ≡ some o)
      × (channels_after id o.1 (has id m || opens id call o.0) ≡ some (has id o.0))
handle-channels g call id m d v =
    let (o, e, w) = handle-runs g call m d v in
    (o, e, subst (IsAfter id (opens id call) m) e (handle-IsOrderly g call id m))
