-- ===== src/RequestManager/Channels.antt =====
-- The channels on which a request's caller gets its blocks and its errors (inProgressChan and
-- inProgressErr of requestmanager/server.go) over what the manager's loop does.
use go_graphsync.Base.{
  ℕ, ◌≡◌, refl, sym, ◌∙◌, ap, subst, Bool, true, false, not, ◌&&◌, List, [], ◌∷◌, ◌++◌, map, Option,
  none, some, arith, ◌==◌, if◌then◌else◌, Option-cases, Bool-cases, inl, inr, get?, insert, has,
}
use go_graphsync.Message.{Response, Extension, new_cancel_request}
use go_graphsync.ResponseCode.{is_terminal, is_failure}
use go_graphsync.RequestManager.{
  Manager, InProgress, Outcome, Error, Effect, send_error, close_channels, answer, send_request,
  protect, unprotect, push_task, task_done, notify_processing, cancel_context, loader_online,
  loader_ingest, loader_cleanup, traverser_shutdown, give_request, give_task, released,
  error_effects, terminate_request, cancel_on_error, prepend_some, and_then, first_error,
  process_extensions_for, process_extensions, process_termination, process_terminations,
  ResponseHooks, offline_effects, extension_effects, hook_error, terminal_error_of,
}
use go_graphsync.RequestManager.Hooks.{ResponseResult}
use go_graphsync.RequestManager.Validity.{State-cases, has-insert, has-delete}

-- Whether the channels of the request are open after the effect; `none` is a fault: something is sent
-- on a channel that is closed, or it is closed again.
unfoldable pub channel_after : ℕ → Effect → Bool → Option Bool
channel_after id (send_error j x) live = if (id == j) && not live then none else some live
channel_after id (close_channels j) live =
    if id == j then if live then some false else none else some live
channel_after id (send_request p q) live = some live
channel_after id (protect p j) live = some live
channel_after id (unprotect p j) live = some live
channel_after id (push_task p j n) live = some live
channel_after id (task_done p j) live = some live
channel_after id (notify_processing p j n) live = some live
channel_after id (cancel_context j) live = some live
channel_after id (answer c x) live = some live
channel_after id (loader_online j o) live = some live
channel_after id (loader_ingest j ms bs) live = some live
channel_after id (loader_cleanup j) live = some live
channel_after id (traverser_shutdown j) live = some live
channel_after id (give_request c x) live = some live
channel_after id (give_task c o) live = some live
channel_after id (released c) live = some live

unfoldable pub channels_after : ℕ → List Effect → Bool → Option Bool
unfolding channel_after
channels_after id [] live = some live
channels_after id (e ∷ es) live = elim (channel_after id e live) [
  | none ↦ none
  | some b ↦ channels_after id es b
]

abbrev pub after_both : ℕ → List Effect → Option Bool → Option Bool
after_both id es none = none
after_both id es (some b) = channels_after id es b

pub channels_after-++ :
    (id : ℕ) (es fs : List Effect) (b : Bool)
    → channels_after id (es ++ fs) b ≡ after_both id fs (channels_after id es b)
unfolding channels_after
channels_after-++ id [] fs b = refl
channels_after-++ id (e ∷ es) fs b = elim (Option-cases (channel_after id e b)) [
  | inl t ↦ rw (t, channels_after) refl
  | inr (c, t) ↦ rw (t, channels_after) (channels_after-++ id es fs c)
]

-- A handler that goes through leaves the channels open just where the request is still there.
abbrev pub IsOrderly : ℕ → Manager → Option Outcome → Type 0
IsOrderly id m none = Unit
IsOrderly id m (some o) = channels_after id o.1 (has id m) ≡ some (has id o.0)

pub prepend_some-IsOrderly :
    (id : ℕ) (m n : Manager) (es : List Effect) (x : Option Outcome)
    → channels_after id es (has id m) ≡ some (has id n)
    → IsOrderly id n x
    → IsOrderly id m (prepend_some es x)
prepend_some-IsOrderly id m n es none h k = tt
prepend_some-IsOrderly id m n es (some o) h k =
    ground (arith, channels_after-++ id es o.1 (has id m))

pub and_then-IsOrderly :
    (id : ℕ) (m : Manager) (x : Option Outcome) (f : Manager → Option Outcome)
    → IsOrderly id m x
    → ((n : Manager) → IsOrderly id n (f n))
    → IsOrderly id m (and_then x f)
and_then-IsOrderly id m none f h k = tt
and_then-IsOrderly id m (some o) f h k = prepend_some-IsOrderly id m o.0 o.1 (f o.0) h (k o.0)

channels_after-answers :
    (id : ℕ) (cs : List ℕ) (b : Bool) → channels_after id (map (λ c. answer c none) cs) b ≡ some b
unfolding channels_after
channels_after-answers id [] b = refl
channels_after-answers id (c ∷ cs) b = channels_after-answers id cs b

loader_effects-channels :
    (id j : ℕ) (t : Bool) (b : Bool)
    → channels_after id (if t then loader_cleanup j ∷ traverser_shutdown j ∷ [] else []) b ≡ some b
unfolding channels_after channel_after
loader_effects-channels id j true b = refl
loader_effects-channels id j false b = refl

error_effects-there :
    (id : ℕ) (e : Option Error) → channels_after id (error_effects id e) true ≡ some true
unfolding channels_after channel_after
error_effects-there id none = refl
error_effects-there id (some e) = ground arith

error_effects-other :
    (id j : ℕ) (e : Option Error) (b : Bool)
    → (id == j) ≡ false
    → channels_after id (error_effects j e) b ≡ some b
unfolding channels_after channel_after
error_effects-other id j none b d = refl
error_effects-other id j (some e) b d = ground arith

terminate_request-there :
    (id : ℕ) (r : InProgress) (m : Manager)
    → channels_after id (terminate_request id r m).1 true ≡ some false
unfolding terminate_request channels_after channel_after
terminate_request-there id r m =
    let ends = close_channels id ∷ map (λ c. answer c none) r.on_terminated in
    let loader = if r.has_traverser then loader_cleanup id ∷ traverser_shutdown id ∷ [] else [] in
    let rest = unprotect r.peer id ∷ cancel_context id ∷ loader ++ ends in
    ground (
      arith,
      channels_after-++ id (error_effects id r.terminal_error) rest true,
      error_effects-there id r.terminal_error,
      channels_after-++ id loader ends true,
      loader_effects-channels id id r.has_traverser true,
      channels_after-answers id r.on_terminated false,
    )

terminate_request-other :
    (id j : ℕ) (r : InProgress) (m : Manager) (b : Bool)
    → (id == j) ≡ false
    → channels_after id (terminate_request j r m).1 b ≡ some b
unfolding terminate_request channels_after channel_after
terminate_request-other id j r m b d =
    let ends = close_channels j ∷ map (λ c. answer c none) r.on_terminated in
    let loader = if r.has_traverser then loader_cleanup j ∷ traverser_shutdown j ∷ [] else [] in
    let rest = unprotect r.peer j ∷ cancel_context j ∷ loader ++ ends in
    ground (
      arith,
      channels_after-++ id (error_effects j r.terminal_error) rest b,
      error_effects-other id j r.terminal_error b d,
      channels_after-++ id loader ends b,
      loader_effects-channels id j r.has_traverser b,
      channels_after-answers id r.on_terminated b,
    )

equal_ids : (a b : ℕ) → (a == b) ≡ true → a ≡ b
equal_ids a b h = ground arith

terminated-there :
    (j : ℕ) (r : InProgress) (m : Manager) → has j (terminate_request j r m).0 ≡ false
unfolding terminate_request
terminated-there j r m = ground (arith, has-delete j j m)

terminated-other :
    (id j : ℕ) (r : InProgress) (m : Manager)
    → (id == j) ≡ false
    → has id (terminate_request j r m).0 ≡ has id m
unfolding terminate_request
terminated-other id j r m d = ground (arith, has-delete j id m)

pub terminate_request-IsOrderly :
    (id j : ℕ) (r : InProgress) (m : Manager)
    → has j m ≡ true
    → IsOrderly id m (some (terminate_request j r m))
terminate_request-IsOrderly id j r m h = elim (Bool-cases (id == j)) [
  | inl d ↦
      subst (λ i. IsOrderly i m (some (terminate_request j r m))) (sym (equal_ids id j d))
        (ap (channels_after j (terminate_request j r m).1) h
          ∙ terminate_request-there j r m
          ∙ sym (ap some (terminated-there j r m)))
  | inr d ↦
      terminate_request-other id j r m (has id m) d ∙ sym (ap some (terminated-other id j r m d))
]

has_stays_here : (j : ℕ) (s : InProgress) (m : Manager) → has j (insert j s m) ≡ true
has_stays_here j s m = ground (arith, has-insert j j s m)

pub has_stays :
    (id j : ℕ) (s : InProgress) (m : Manager) → has j m ≡ true → has id (insert j s m) ≡ has id m
has_stays id j s m h = elim (Bool-cases (j == id)) [
  | inl d ↦
      ap (λ i. has i (insert j s m)) (sym (equal_ids j id d))
      ∙ has_stays_here j s m
      ∙ sym h
      ∙ ap (λ i. has i m) (equal_ids j id d)
  | inr d ↦ ground (arith, has-insert j id s m)
]

-- Of a request that stays, with effects that are not about the channels.
pub insert-IsOrderly :
    (id j : ℕ) (s : InProgress) (m : Manager) (es : List Effect)
    → ((b : Bool) → channels_after id es b ≡ some b)
    → has j m ≡ true
    → IsOrderly id m (some (insert j s m, es))
insert-IsOrderly id j s m es quiet h = quiet (has id m) ∙ sym (ap some (has_stays id j s m h))

cancel_on_error-IsOrderly :
    (id j : ℕ) (e : Option Error) (r : InProgress) (m : Manager)
    → has j m ≡ true
    → IsOrderly id m (cancel_on_error j e r m)
unfolding cancel_on_error channels_after
cancel_on_error-IsOrderly id j e r m h =
    let s = record r { terminal_error = first_error r.terminal_error e } in
    let ended = terminate_request-IsOrderly id j s m h in
    elim (State-cases r.state) [
      | inl t ↦ elim (Bool-cases r.has_traverser) [
        | inl u ↦
            rw (t, cancel_on_error) rw (u)
              (insert-IsOrderly id j s m (cancel_context j ∷ loader_online j false ∷ []) (λ b. refl)
                h)
        | inr u ↦ rw (t, cancel_on_error) rw (u) tt
      ]
      | inr (inl t) ↦ rw (t, cancel_on_error) ended
      | inr (inr (inl t)) ↦ rw (t, cancel_on_error) ended
      | inr (inr (inr t)) ↦ rw (t, cancel_on_error) ended
    ]

pub has-get? : (j : ℕ) (r : InProgress) (m : Manager) → get? j m ≡ some r → has j m ≡ true
unfolding has
has-get? j r m e = rw (e, has) refl

-- A cancellation that the other peer is told of.
pub announced-IsOrderly :
    (id j p : ℕ) (e : Option Error) (r : InProgress) (m : Manager)
    → has j m ≡ true
    → IsOrderly id m
        (prepend_some (send_request p (new_cancel_request j) ∷ []) (cancel_on_error j e r m))
unfolding channels_after
announced-IsOrderly id j p e r m h =
    prepend_some-IsOrderly id m m (send_request p (new_cancel_request j) ∷ [])
      (cancel_on_error j e r m) refl (cancel_on_error-IsOrderly id j e r m h)

extension_effects-channels :
    (id p j : ℕ) (es : List Extension) (b : Bool)
    → channels_after id (extension_effects p j es) b ≡ some b
unfolding channels_after
extension_effects-channels id p j [] b = refl
extension_effects-channels id p j (e ∷ es) b = refl

process_extensions_for-IsOrderly :
    (id p : ℕ) (r : Response) (h : ResponseResult) (m : Manager)
    → IsOrderly id m (process_extensions_for p r h m)
unfolding process_extensions_for channels_after
process_extensions_for-IsOrderly id p r h m =
    prepend_some-IsOrderly id m m (extension_effects p r.request_id h.extensions) _
      (extension_effects-channels id p r.request_id h.extensions (has id m))
      (elim (Option-cases h.err) [
        | inl e ↦ rw (e) refl
        | inr (x, e) ↦ elim (Option-cases (get? r.request_id m)) [
          | inl g ↦ rw (e) rw (g) refl
          | inr (s, g) ↦ rw (e) rw (g) (
              announced-IsOrderly id r.request_id s.peer (some (hook_error x)) s m
                (has-get? r.request_id s m g))
        ]
      ])

pub process_extensions-IsOrderly :
    (id p : ℕ) (hooks : ResponseHooks) (rs : List Response) (m : Manager)
    → IsOrderly id m (process_extensions hooks p rs m)
unfolding process_extensions channels_after
process_extensions-IsOrderly id p hooks [] m = refl
process_extensions-IsOrderly id p hooks (r ∷ rs) m =
    and_then-IsOrderly id m (process_extensions_for p r (hooks p r) m)
      (process_extensions hooks p rs) (process_extensions_for-IsOrderly id p r (hooks p r) m)
      (process_extensions-IsOrderly id p hooks rs)

offline_effects-channels :
    (id j : ℕ) (m : Manager) (b : Bool) → channels_after id (offline_effects j m) b ≡ some b
unfolding channels_after
offline_effects-channels id j m b = elim (Option-cases (get? j m)) [
  | inl e ↦ rw (e, offline_effects) refl
  | inr (r, e) ↦ elim (Bool-cases r.has_traverser) [
    | inl t ↦ rw (e, offline_effects) rw (t) refl
    | inr t ↦ rw (e, offline_effects) rw (t) refl
  ]
]

process_termination-IsOrderly :
    (id : ℕ) (r : Response) (m : Manager) → IsOrderly id m (process_termination r m)
unfolding process_termination channels_after
process_termination-IsOrderly id r m = elim (Bool-cases (is_terminal r.status)) [
  | inr t ↦ rw (t, process_termination) refl
  | inl t ↦ elim (Bool-cases (is_failure r.status)) [
    | inr f ↦
        rw (t, process_termination) rw (f) (offline_effects-channels id r.request_id m (has id m))
    | inl f ↦ elim (Option-cases (get? r.request_id m)) [
      | inl e ↦ rw (t, process_termination) rw (f) rw (e) tt
      | inr (s, e) ↦
          rw (t, process_termination) rw (f) rw (e)
            (and_then-IsOrderly id m (cancel_on_error r.request_id (terminal_error_of r.status) s m)
              (λ n. some (n, offline_effects r.request_id n))
              (cancel_on_error-IsOrderly id r.request_id (terminal_error_of r.status) s m
                (has-get? r.request_id s m e))
              (λ n. offline_effects-channels id r.request_id n (has id n)))
    ]
  ]
]

pub process_terminations-IsOrderly :
    (id : ℕ) (rs : List Response) (m : Manager) → IsOrderly id m (process_terminations rs m)
unfolding process_terminations channels_after
process_terminations-IsOrderly id [] m = refl
process_terminations-IsOrderly id (r ∷ rs) m =
    and_then-IsOrderly id m (process_termination r m) (process_terminations rs)
      (process_termination-IsOrderly id r m) (process_terminations-IsOrderly id rs)
