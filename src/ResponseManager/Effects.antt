-- ===== src/ResponseManager/Effects.antt =====
-- The effects of responsemanager/server.go, read as a state of their own: which connections are
-- protected, for which responses a task waits in the queue, and how often a stream is written to.
use go_graphsync.Base.{
  ℕ, ◌+◌, ◌≡◌, refl, Bool, true, false, ◌&&◌, List, [], ◌∷◌, ◌++◌, map, Option, none, some, ◌==◌,
  if◌then◌else◌, All, All-append, Option-cases, inl, inr, get?,
}
use go_graphsync.Message.{Extension, Request}
use go_graphsync.Assembler.{Action, send_extension_data, finish_with_error}
use go_graphsync.ResponseCode.{request_failed_unknown}
use go_graphsync.ResponseManager.Hooks.{RequestResult}
use go_graphsync.ResponseManager.{
  Effect, protect, unprotect, push_task, remove_task, transaction, dedup_key, ignore_blocks,
  skip_first_blocks, Decoders, Step, and_then, process_extension, prepare_query, decide,
  dedup_by_key, do_not_send_cids, do_not_send_first_blocks, send_extensions,
}

-- Whether the peer's connection is protected for the request, after an effect.
abbrev pub protected_by : ℕ → ℕ → Effect → Bool → Bool
protected_by p id (protect q k) b = if (q == p) && (k == id) then true else b
protected_by p id (unprotect q k) b = if (q == p) && (k == id) then false else b
protected_by p id _ b = b

abbrev pub protected_after : ℕ → ℕ → List Effect → Bool → Bool
protected_after p id [] b = b
protected_after p id (e ∷ es) b = protected_after p id es (protected_by p id e b)

-- Whether a task waits in the queue for the request.
abbrev pub waiting_by : ℕ → Effect → Bool → Bool
waiting_by id (push_task p k n) b = if k == id then true else b
waiting_by id (remove_task k p) b = if k == id then false else b
waiting_by id _ b = b

abbrev pub waiting_after : ℕ → List Effect → Bool → Bool
waiting_after id [] b = b
waiting_after id (e ∷ es) b = waiting_after id es (waiting_by id e b)

-- How many transactions there are on the request's stream.
abbrev pub transactions : ℕ → List Effect → ℕ
transactions id [] = 0
transactions id (transaction k acts ∷ es) = (if k == id then 1 else 0) + transactions id es
transactions id (_ ∷ es) = transactions id es

-- Effects that neither protect connections nor touch tasks.
abbrev pub IsQuiet : Effect → Type 0
IsQuiet (protect _ _) = ⊥
IsQuiet (unprotect _ _) = ⊥
IsQuiet (push_task _ _ _) = ⊥
IsQuiet (remove_task _ _) = ⊥
IsQuiet _ = Unit

pub protected_after-append :
    (p id : ℕ) (es fs : List Effect) (b : Bool)
    → protected_after p id (es ++ fs) b ≡ protected_after p id fs (protected_after p id es b)
protected_after-append p id [] fs b = refl
protected_after-append p id (e ∷ es) fs b =
    protected_after-append p id es fs (protected_by p id e b)

pub waiting_after-append :
    (id : ℕ) (es fs : List Effect) (b : Bool)
    → waiting_after id (es ++ fs) b ≡ waiting_after id fs (waiting_after id es b)
waiting_after-append id [] fs b = refl
waiting_after-append id (e ∷ es) fs b = waiting_after-append id es fs (waiting_by id e b)

quiet-protected_by : (p id : ℕ) (e : Effect) (b : Bool) → IsQuiet e → protected_by p id e b ≡ b
quiet-protected_by p id (protect _ _) b q = absurd q
quiet-protected_by p id (unprotect _ _) b q = absurd q
quiet-protected_by p id _ b q = refl

quiet-waiting_by : (id : ℕ) (e : Effect) (b : Bool) → IsQuiet e → waiting_by id e b ≡ b
quiet-waiting_by id (push_task _ _ _) b q = absurd q
quiet-waiting_by id (remove_task _ _) b q = absurd q
quiet-waiting_by id _ b q = refl

pub quiet-protected_after :
    (p id : ℕ) (es : List Effect) (b : Bool) → All IsQuiet es → protected_after p id es b ≡ b
quiet-protected_after p id [] b q = refl
quiet-protected_after p id (e ∷ es) b q =
    rw (quiet-protected_by p id e b q.0) (quiet-protected_after p id es b q.1)

pub quiet-waiting_after :
    (id : ℕ) (es : List Effect) (b : Bool) → All IsQuiet es → waiting_after id es b ≡ b
quiet-waiting_after id [] b q = refl
quiet-waiting_after id (e ∷ es) b q =
    rw (quiet-waiting_by id e b q.0) (quiet-waiting_after id es b q.1)

module _ (P : Effect → Type 0) where
  and_then-All : (s t : Step) → All P s.1 → All P t.1 → All P (and_then s t).1
  and_then-All (true, es) t q r = All-append P es t.1 q r
  and_then-All (false, es) t q r = q

  process_extension-All {ℓ} :
      {A : Type ℓ} (id : ℕ) (decode : ℕ → Option A) (f : A → Effect) (o : Option ℕ)
      → ((acts : List Action) → P (transaction id acts))
      → ((a : A) → P (f a))
      → All P (process_extension id decode f o).1
  unfolding process_extension
  process_extension-All id decode f none t q = tt
  process_extension-All id decode f (some d) t q = elim (Option-cases (decode d)) [
    | inl e ↦ rw (e, All) (t (finish_with_error request_failed_unknown ∷ []), tt)
    | inr (a, e) ↦ rw (e, All) (q a, tt)
  ]

  -- The effects of prepareQuery are transactions on the request's stream, and calls of its tracker.
  pub prepare_query-All :
      (d : Decoders) (request : Request) (result : RequestResult)
      → ((acts : List Action) → P (transaction request.id acts))
      → ((key : ℕ) → P (dedup_key request.id key))
      → ((links : List ℕ) → P (ignore_blocks request.id links))
      → ((n : ℕ) → P (skip_first_blocks request.id n))
      → All P (prepare_query d request result).1
  unfolding prepare_query
  prepare_query-All d request result t k l n =
      let id = request.id in
      let acts = map send_extension_data result.extensions ++ (decide result).1 in
      let sent : Step = ((decide result).0, transaction id acts ∷ []) in
      let key : Step =
        process_extension id d.key (dedup_key id) (get? dedup_by_key request.extensions) in
      let cids : Step =
        process_extension id d.cids (ignore_blocks id) (get? do_not_send_cids request.extensions) in
      let count : Step =
        process_extension id d.count (skip_first_blocks id)
          (get? do_not_send_first_blocks request.extensions) in
      and_then-All sent (and_then key (and_then cids count)) (t acts, tt)
        (and_then-All key (and_then cids count)
          (process_extension-All id d.key (dedup_key id) (get? dedup_by_key request.extensions) t k)
          (and_then-All cids count
            (process_extension-All id d.cids (ignore_blocks id)
              (get? do_not_send_cids request.extensions) t l)
            (process_extension-All id d.count (skip_first_blocks id)
              (get? do_not_send_first_blocks request.extensions) t n)))

pub prepare_query-IsQuiet :
    (d : Decoders) (request : Request) (result : RequestResult)
    → All IsQuiet (prepare_query d request result).1
prepare_query-IsQuiet d request result =
    prepare_query-All IsQuiet d request result (λ acts. tt) (λ k. tt) (λ l. tt) (λ n. tt)

pub send_extensions-IsQuiet : (id : ℕ) (es : List Extension) → All IsQuiet (send_extensions id es)
send_extensions-IsQuiet id [] = tt
send_extensions-IsQuiet id (e ∷ es) = (tt, tt)
