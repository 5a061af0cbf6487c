-- ===== src/RequestManager/Untouched.antt =====
-- Which effects of RequestManager.processResponses are about a request.
use go_graphsync.Base.{
  ℕ, ◌≡◌, refl, subst, Bool, true, false, ◌&&◌, ◌||◌, List, [], ◌∷◌, ◌++◌, map, Option, none, some,
  arith, ◌==◌, if◌then◌else◌, Bool-cases, Option-cases, inl, inr, get?,
}
use go_graphsync.Message.{
  Block, Response, Extension, RequestType, new, cancel, update, new_cancel_request,
  new_update_request,
}
use go_graphsync.ResponseCode.{is_terminal, is_failure}
use go_graphsync.RequestManager.Hooks.{ResponseResult}
use go_graphsync.RequestManager.{
  Manager, InProgress, Outcome, Error, Effect, send_request, protect, unprotect, push_task,
  task_done, notify_processing, cancel_context, send_error, close_channels, answer, loader_online,
  loader_ingest, loader_cleanup, traverser_shutdown, give_request, give_task, released,
  ResponseHooks, prepend_some, and_then, error_effects, terminate_request, cancel_on_error,
  first_error, process_extensions_for, process_extensions, ingest, update_last_responses,
  process_termination, process_terminations, process_filtered, terminal_error_of, offline_effects,
  hook_error, extension_effects,
}
use go_graphsync.RequestManager.Validity.{State-cases}
use go_graphsync.RequestManager.About.{mentions, is_refusal, refused}

abbrev pub is_cancel : RequestType → Bool
is_cancel new = false
is_cancel cancel = true
is_cancel update = false

-- The effect is about the request: its loader, its traverser, its context, its channels, its task, its
-- connection, or a cancellation of it that is sent. An answer is about who asked.
unfoldable pub touches : ℕ → Effect → Bool
touches j (send_request p q) = is_cancel q.kind && (j == q.id)
touches j (protect p k) = j == k
touches j (unprotect p k) = j == k
touches j (push_task p k n) = j == k
touches j (task_done p k) = j == k
touches j (notify_processing p k n) = j == k
touches j (cancel_context k) = j == k
touches j (send_error k e) = j == k
touches j (close_channels k) = j == k
touches j (answer c e) = false
touches j (loader_online k b) = j == k
touches j (loader_ingest k ms bs) = j == k
touches j (loader_cleanup k) = j == k
touches j (traverser_shutdown k) = j == k
touches j (give_request c e) = false
touches j (give_task c b) = false
touches j (released c) = false

unfoldable pub touched : ℕ → List Effect → Bool
unfolding touches
touched j [] = false
touched j (e ∷ es) = touches j e || touched j es

pub touched-++ :
    (j : ℕ) (es fs : List Effect) → touched j (es ++ fs) ≡ (touched j es || touched j fs)
unfolding touched
touched-++ j [] fs = refl
touched-++ j (e ∷ es) fs = ground (arith, touched-++ j es fs)

-- What a handler that goes through does, it does not do to the request.
abbrev IsUntouched : ℕ → Option Outcome → Type 0
IsUntouched j none = Unit
IsUntouched j (some o) = touched j o.1 ≡ false

prepend_some-IsUntouched :
    (j : ℕ) (es : List Effect) (x : Option Outcome)
    → touched j es ≡ false
    → IsUntouched j x
    → IsUntouched j (prepend_some es x)
prepend_some-IsUntouched j es none h k = tt
prepend_some-IsUntouched j es (some o) h k = ground (arith, touched-++ j es o.1)

and_then-IsUntouched :
    (j : ℕ) (x : Option Outcome) (f : Manager → Option Outcome)
    → IsUntouched j x
    → ((n : Manager) → IsUntouched j (f n))
    → IsUntouched j (and_then x f)
and_then-IsUntouched j none f h k = tt
and_then-IsUntouched j (some o) f h k = prepend_some-IsUntouched j o.1 (f o.0) h (k o.0)

touched-answers : (j : ℕ) (cs : List ℕ) → touched j (map (λ c. answer c none) cs) ≡ false
unfolding touched
touched-answers j [] = refl
touched-answers j (c ∷ cs) = touched-answers j cs

touched-error_effects :
    (j id : ℕ) (e : Option Error) → (j == id) ≡ false → touched j (error_effects id e) ≡ false
unfolding touched
touched-error_effects j id none d = refl
touched-error_effects j id (some e) d = ground arith

touched-loader_effects :
    (j id : ℕ) (t : Bool)
    → (j == id) ≡ false
    → touched j (if t then loader_cleanup id ∷ traverser_shutdown id ∷ [] else []) ≡ false
unfolding touched
touched-loader_effects j id true d = ground arith
touched-loader_effects j id false d = refl

touched-terminate_request :
    (j id : ℕ) (r : InProgress) (m : Manager)
    → (j == id) ≡ false
    → touched j (terminate_request id r m).1 ≡ false
unfolding terminate_request touched
touched-terminate_request j id r m d =
    let ends = close_channels id ∷ map (λ c. answer c none) r.on_terminated in
    let loader = if r.has_traverser then loader_cleanup id ∷ traverser_shutdown id ∷ [] else [] in
    let rest = unprotect r.peer id ∷ cancel_context id ∷ loader ++ ends in
    ground (
      arith,
      touched-++ j (error_effects id r.terminal_error) rest,
      touched-error_effects j id r.terminal_error d,
      touched-++ j loader ends,
      touched-loader_effects j id r.has_traverser d,
      touched-answers j r.on_terminated,
    )

cancel_on_error-IsUntouched :
    (j id : ℕ) (e : Option Error) (r : InProgress) (m : Manager)
    → (j == id) ≡ false
    → IsUntouched j (cancel_on_error id e r m)
unfolding cancel_on_error touched
cancel_on_error-IsUntouched j id e r m d =
    let s = record r { terminal_error = first_error r.terminal_error e } in
    let ended = touched-terminate_request j id s m d in
    elim (State-cases r.state) [
      | inl t ↦ elim (Bool-cases r.has_traverser) [
        | inl u ↦ rw (t, cancel_on_error) rw (u) (ground arith)
        | inr u ↦ rw (t, cancel_on_error) rw (u) tt
      ]
      | inr (inl t) ↦ rw (t, cancel_on_error) ended
      | inr (inr (inl t)) ↦ rw (t, cancel_on_error) ended
      | inr (inr (inr t)) ↦ rw (t, cancel_on_error) ended
    ]

touched-extension_effects :
    (j p id : ℕ) (es : List Extension) → touched j (extension_effects p id es) ≡ false
unfolding touched new_update_request
touched-extension_effects j p id [] = refl
touched-extension_effects j p id (e ∷ es) = refl

process_extensions_for-IsUntouched :
    (j p : ℕ) (r : Response) (h : ResponseResult) (m : Manager)
    → (is_refusal h && (j == r.request_id)) ≡ false
    → IsUntouched j (process_extensions_for p r h m)
unfolding process_extensions_for touched new_cancel_request
process_extensions_for-IsUntouched j p r h m a =
    prepend_some-IsUntouched j (extension_effects p r.request_id h.extensions) _
      (touched-extension_effects j p r.request_id h.extensions)
      (elim (Option-cases h.err) [
        | inl e ↦ rw (e) refl
        | inr (x, e) ↦ elim (Option-cases (get? r.request_id m)) [
          | inl g ↦ rw (e) rw (g) refl
          | inr (s, g) ↦
              let other : (j == r.request_id) ≡ false = ground arith in
              rw (e) rw (g) (
                prepend_some-IsUntouched j
                  (send_request s.peer (new_cancel_request r.request_id) ∷ [])
                  (cancel_on_error r.request_id (some (hook_error x)) s m) (ground arith)
                  (cancel_on_error-IsUntouched j r.request_id (some (hook_error x)) s m other))
        ]
      ])

process_extensions-IsUntouched :
    (j : ℕ) (hooks : ResponseHooks) (p : ℕ) (rs : List Response) (m : Manager)
    → refused hooks p j rs ≡ false
    → IsUntouched j (process_extensions hooks p rs m)
unfolding process_extensions refused touched
process_extensions-IsUntouched j hooks p [] m a = refl
process_extensions-IsUntouched j hooks p (r ∷ rs) m a =
    let rest : refused hooks p j rs ≡ false = ground arith in
    and_then-IsUntouched j (process_extensions_for p r (hooks p r) m)
      (process_extensions hooks p rs)
      (process_extensions_for-IsUntouched j p r (hooks p r) m (ground arith))
      (λ n. process_extensions-IsUntouched j hooks p rs n rest)

touched-ingest :
    (j : ℕ) (blocks : List Block) (rs : List Response) (m : Manager) (es : List Effect)
    → mentions j rs ≡ false
    → ingest blocks rs m ≡ some es
    → touched j es ≡ false
unfolding ingest touched mentions
touched-ingest j blocks [] m es a e = ground arith
touched-ingest j blocks (r ∷ rs) m es a e = elim (Option-cases (get? r.request_id m)) [
  | inl g ↦ absurd (ground arith)
  | inr (s, g) ↦ elim (Option-cases (ingest blocks rs m)) [
    | inl f ↦ absurd (ground arith)
    | inr (fs, f) ↦
        let rest = touched-ingest j blocks rs m fs (ground arith) f in
        elim (Bool-cases s.has_traverser) [ inl t ↦ ground arith | inr t ↦ ground arith ]
  ]
]

touched-offline_effects :
    (j id : ℕ) (m : Manager) → (j == id) ≡ false → touched j (offline_effects id m) ≡ false
unfolding touched
touched-offline_effects j id m d = elim (Option-cases (get? id m)) [
  | inl e ↦ rw (e, offline_effects) refl
  | inr (r, e) ↦ elim (Bool-cases r.has_traverser) [
    | inl t ↦ rw (e, offline_effects) rw (t) (ground arith)
    | inr t ↦ rw (e, offline_effects) rw (t) refl
  ]
]

process_termination-IsUntouched :
    (j : ℕ) (r : Response) (m : Manager)
    → (j == r.request_id) ≡ false
    → IsUntouched j (process_termination r m)
unfolding process_termination touched
process_termination-IsUntouched j r m d = elim (Bool-cases (is_terminal r.status)) [
  | inr t ↦ rw (t, process_termination) refl
  | inl t ↦ elim (Bool-cases (is_failure r.status)) [
    | inr f ↦ rw (t, process_termination) rw (f) (touched-offline_effects j r.request_id m d)
    | inl f ↦ elim (Option-cases (get? r.request_id m)) [
      | inl e ↦ rw (t, process_termination) rw (f) rw (e) tt
      | inr (s, e) ↦
          rw (t, process_termination) rw (f) rw (e)
            (and_then-IsUntouched j (cancel_on_error r.request_id (terminal_error_of r.status) s m)
              (λ n. some (n, offline_effects r.request_id n))
              (cancel_on_error-IsUntouched j r.request_id (terminal_error_of r.status) s m d)
              (λ n. touched-offline_effects j r.request_id n d))
    ]
  ]
]

process_terminations-IsUntouched :
    (j : ℕ) (rs : List Response) (m : Manager)
    → mentions j rs ≡ false
    → IsUntouched j (process_terminations rs m)
unfolding process_terminations mentions touched
process_terminations-IsUntouched j [] m a = refl
process_terminations-IsUntouched j (r ∷ rs) m a =
    let rest : mentions j rs ≡ false = ground arith in
    and_then-IsUntouched j (process_termination r m) (process_terminations rs)
      (process_termination-IsUntouched j r m (ground arith))
      (λ n. process_terminations-IsUntouched j rs n rest)

process_filtered-IsUntouched :
    (j : ℕ) (blocks : List Block) (rs : List Response) (m : Manager)
    → mentions j rs ≡ false
    → IsUntouched j (process_filtered blocks rs m)
unfolding process_filtered
process_filtered-IsUntouched j blocks rs m a = elim (Option-cases (ingest blocks rs m)) [
  | inl i ↦ rw (i, process_filtered) tt
  | inr (es, i) ↦ elim (Option-cases (update_last_responses rs m)) [
    | inl u ↦ rw (i, process_filtered) rw (u) tt
    | inr (n, u) ↦
        rw (i, process_filtered) rw (u)
          (prepend_some-IsUntouched j es (process_terminations rs n)
            (touched-ingest j blocks rs m es a i) (process_terminations-IsUntouched j rs n a))
  ]
]

pub process_extensions-untouched :
    (j : ℕ) (hooks : ResponseHooks) (p : ℕ) (rs : List Response) (m : Manager) (o : Outcome)
    → refused hooks p j rs ≡ false
    → process_extensions hooks p rs m ≡ some o
    → touched j o.1 ≡ false
process_extensions-untouched j hooks p rs m o a e =
    subst (IsUntouched j) e (process_extensions-IsUntouched j hooks p rs m a)

pub process_filtered-untouched :
    (j : ℕ) (blocks : List Block) (rs : List Response) (m : Manager) (o : Outcome)
    → mentions j rs ≡ false
    → process_filtered blocks rs m ≡ some o
    → touched j o.1 ≡ false
process_filtered-untouched j blocks rs m o a e =
    subst (IsUntouched j) e (process_filtered-IsUntouched j blocks rs m a)
