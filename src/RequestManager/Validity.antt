-- ===== src/RequestManager/Validity.antt =====
-- A request that runs has its loader: the invariant of requestmanager/server.go under which no handler
-- faults.
use go_graphsync.Base.{
  ◌⊎◌, ℕ, ◌≡◌, refl, Bool, true, false, [], ◌∷◌, Option, none, some, arith, ◌==◌, if◌then◌else◌,
  Option-cases, inl, inr, get?, insert, delete, get?-insert, get?-delete, has,
}
use go_graphsync.ResponseManager.{RequestState, queued, running, paused, completing_send}
use go_graphsync.RequestManager.{
  Manager, InProgress, Outcome, Error, terminate_request, cancel_on_error, first_error,
  cancel_context, loader_online,
}

abbrev pub is_ready : InProgress → Bool
is_ready r = elim r.state [
  | running ↦ r.has_traverser
  | queued ↦ true
  | paused ↦ true
  | completing_send ↦ true
]

-- The request is not there, does not run, or has its loader.
unfoldable pub ready : ℕ → Manager → Bool
ready id m = elim (get? id m) [ none ↦ true | some r ↦ is_ready r ]

abbrev pub IsValid : Manager → Type 0
IsValid m = (id : ℕ) → ready id m ≡ true

pub ready-insert :
    (id j : ℕ) (s : InProgress) (m : Manager)
    → ready j (insert id s m) ≡ (if id == j then is_ready s else ready j m)
unfolding ready
ready-insert id j s m = ground (arith, get?-insert id j s m)

pub ready-delete :
    (id j : ℕ) (m : Manager) → ready j (delete id m) ≡ (if id == j then true else ready j m)
unfolding ready
ready-delete id j m = ground (arith, get?-delete id j m)

pub ready-some :
    (id : ℕ) (r : InProgress) (m : Manager) → get? id m ≡ some r → ready id m ≡ is_ready r
unfolding ready
ready-some id r m e = rw (e, ready) refl

pub has-insert :
    (id j : ℕ) (s : InProgress) (m : Manager)
    → has j (insert id s m) ≡ (if id == j then true else has j m)
unfolding has
has-insert id j s m = ground (arith, get?-insert id j s m)

pub has-delete :
    (id j : ℕ) (m : Manager) → has j (delete id m) ≡ (if id == j then false else has j m)
unfolding has
has-delete id j m = ground (arith, get?-delete id j m)

pub has-some : (id : ℕ) (m : Manager) → has id m ≡ true → (r : InProgress) × (get? id m ≡ some r)
unfolding has
has-some id m h = elim (Option-cases (get? id m)) [ inl e ↦ absurd (ground arith) | inr re ↦ re ]

-- What a step for request `id` leaves: a valid manager, and the other requests.
pub record IsStep (id : ℕ) (m n : Manager) : Type 0 where
  pub valid : IsValid n
  pub others : (j : ℕ) → (id == j) ≡ false → get? j n ≡ get? j m

pub insert-IsStep :
    (id : ℕ) (s : InProgress) (m : Manager)
    → is_ready s ≡ true
    → IsValid m
    → IsStep id m (insert id s m)
insert-IsStep id s m h v = record {
  valid = λ j. ground (arith, ready-insert id j s m, v j);
  others = λ j d. ground (arith, get?-insert id j s m);
}

pub terminate_request-IsStep :
    (id : ℕ) (r : InProgress) (m : Manager) → IsValid m → IsStep id m (terminate_request id r m).0
unfolding terminate_request
terminate_request-IsStep id r m v = record {
  valid = λ j. ground (arith, ready-delete id j m, v j);
  others = λ j d. ground (arith, get?-delete id j m);
}

pub same-IsStep : (id : ℕ) (m : Manager) → IsValid m → IsStep id m m
same-IsStep id m v = record { valid = v; others = λ j d. refl }

pub State-cases :
    (s : RequestState) → (s ≡ running) ⊎ ((s ≡ queued) ⊎ ((s ≡ paused) ⊎ (s ≡ completing_send)))
State-cases running = inl refl
State-cases queued = inr (inl refl)
State-cases paused = inr (inr (inl refl))
State-cases completing_send = inr (inr (inr refl))

running_has_traverser :
    (r : InProgress) → r.state ≡ running → is_ready r ≡ true → r.has_traverser ≡ true
running_has_traverser r t h = ground arith

cancel_on_error-running :
    (id : ℕ) (e : Option Error) (r : InProgress) (m : Manager)
    → r.state ≡ running
    → r.has_traverser ≡ true
    → cancel_on_error id e r m
      ≡ some (
        insert id (record r { terminal_error = first_error r.terminal_error e }) m,
        cancel_context id ∷ loader_online id false ∷ [],
      )
unfolding cancel_on_error
cancel_on_error-running id e r m t h = ground arith

pub cancel_on_error-runs :
    (id : ℕ) (e : Option Error) (r : InProgress) (m : Manager)
    → is_ready r ≡ true
    → IsValid m
    → (o : Outcome) × (cancel_on_error id e r m ≡ some o) × IsStep id m o.0
unfolding cancel_on_error
cancel_on_error-runs id e r m h v =
    let s = record r { terminal_error = first_error r.terminal_error e } in
    elim (State-cases r.state) [
      | inl t ↦ (
        (insert id s m, cancel_context id ∷ loader_online id false ∷ []),
        cancel_on_error-running id e r m t (running_has_traverser r t h),
        insert-IsStep id s m h v,
      )
      | inr (inl t) ↦ (
        terminate_request id s m,
        rw (t, cancel_on_error) refl,
        terminate_request-IsStep id s m v,
      )
      | inr (inr (inl t)) ↦ (
        terminate_request id s m,
        rw (t, cancel_on_error) refl,
        terminate_request-IsStep id s m v,
      )
      | inr (inr (inr t)) ↦ (
        terminate_request id s m,
        rw (t, cancel_on_error) refl,
        terminate_request-IsStep id s m v,
      )
    ]

pub has-same : (j : ℕ) (m n : Manager) → get? j n ≡ get? j m → has j n ≡ has j m
unfolding has
has-same j m n e = rw (e, has) refl
