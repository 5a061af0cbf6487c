-- ===== src/Collector/Delivery.antt =====
-- What the goroutines of responsecollector.go deliver, and in which order.
use go_graphsync.Base.{
  ◌⊎◌, ℕ, ◌≡◌, refl, sym, ◌∙◌, ap, Bool, true, false, not, ◌&&◌, ◌||◌, List, [], ◌∷◌, ◌++◌, some,
  arith, Bool-cases, inl, inr, append-nil, some_inj,
}
use go_graphsync.Collector.{
  Collector, Out, sent, sent_cancelled, cancel_request, on_complete, closed, Event, context_done,
  request_done, incoming_closed, taken, arrived, Step, is_empty, next_round, response_ends,
  take_next, collect_response, ErrorEvent, manager_done, errors_taken, caller_done, errors_closed,
  error_arrived, error_ends, cancelled, collect_error,
}

-- What the caller gets.
unfoldable pub delivered : List Out → List ℕ
delivered [] = []
delivered (sent x ∷ es) = x ∷ delivered es
delivered (sent_cancelled ∷ es) = delivered es
delivered (cancel_request ∷ es) = delivered es
delivered (on_complete ∷ es) = delivered es
delivered (closed ∷ es) = delivered es

-- What comes in with an event.
unfoldable pub arrival : Event → List ℕ
arrival (arrived x) = x ∷ []
arrival context_done = []
arrival request_done = []
arrival incoming_closed = []
arrival taken = []

unfoldable pub error_arrival : ErrorEvent → List ℕ
error_arrival (error_arrived x) = x ∷ []
error_arrival manager_done = []
error_arrival errors_taken = []
error_arrival (caller_done b) = []
error_arrival (errors_closed b) = []

unfoldable pub arrivals {ℓ} : {E : Type ℓ} → (E → List ℕ) → List E → List ℕ
arrivals f [] = []
arrivals f (e ∷ es) = f e ++ arrivals f es

pub delivered-++ : (es fs : List Out) → delivered (es ++ fs) ≡ delivered es ++ delivered fs
unfolding delivered
delivered-++ [] fs = refl
delivered-++ (sent x ∷ es) fs = ap (λ xs. x ∷ xs) (delivered-++ es fs)
delivered-++ (sent_cancelled ∷ es) fs = delivered-++ es fs
delivered-++ (cancel_request ∷ es) fs = delivered-++ es fs
delivered-++ (on_complete ∷ es) fs = delivered-++ es fs
delivered-++ (closed ∷ es) fs = delivered-++ es fs

abbrev pub KeepsOrder : List ℕ → List ℕ → Step → Type 0
KeepsOrder waiting xs s = waiting ++ xs ≡ delivered s.1 ++ s.0.received

next_round-received :
    (ends : List Out) (c : Collector) → (next_round ends c).0.received ≡ c.received
unfolding next_round
next_round-received ends c = ground arith

next_round-delivered :
    (ends : List Out) (c : Collector) → delivered ends ≡ [] → delivered (next_round ends c).1 ≡ []
unfolding next_round delivered
next_round-delivered ends c h = elim (Bool-cases (is_empty c.received && not c.incoming)) [
  | inl t ↦ rw (t, next_round) h
  | inr t ↦ rw (t, next_round) refl
]

List-cases : (xs : List ℕ) → (xs ≡ []) ⊎ ((x : ℕ) × (ys : List ℕ) × (xs ≡ x ∷ ys))
List-cases [] = inl refl
List-cases (x ∷ ys) = inr (x, ys, refl)

take_next-order :
    (ends : List Out) (c : Collector) (s : Step)
    → delivered ends ≡ []
    → take_next ends c ≡ some s
    → c.received ≡ delivered s.1 ++ s.0.received
unfolding take_next delivered
take_next-order ends c s h e = elim (List-cases c.received) [
  | inl t ↦ absurd (ground arith)
  | inr (x, xs, t) ↦
      let d = record c { received = xs } in
      ground (arith, next_round-received ends d, next_round-delivered ends d)
]

quiet-order :
    (ends : List Out) (c d : Collector) (s : Step)
    → d.received ≡ c.received
    → delivered ends ≡ []
    → some (d, ends) ≡ some s
    → KeepsOrder c.received [] s
quiet-order ends c d s r q h =
    append-nil c.received
    ∙ sym r
    ∙ sym (ap (λ xs. xs ++ d.received) q)
    ∙ ap (λ t. delivered t.1 ++ t.0.received) (some_inj h)

delivered-cancelled :
    (b : Bool) (es : List Out) → delivered es ≡ [] → delivered (cancelled b ++ es) ≡ []
unfolding delivered
delivered-cancelled true es h = h
delivered-cancelled false es h = h

-- One event keeps the order.
pub collect_response-order :
    (e : Event) (c : Collector) (s : Step)
    → c.ended ≡ false
    → collect_response e c ≡ some s
    → KeepsOrder c.received (arrival e) s
unfolding collect_response arrival delivered
collect_response-order context_done c s t h = ground (arith, append-nil c.received)
collect_response-order request_done c s t h = ground (arith, append-nil c.received)
collect_response-order incoming_closed c s t h = elim (Bool-cases c.incoming) [
  | inl i ↦
      let d = record c { incoming = false } in
      let n = next_round response_ends d in
      quiet-order n.1 c n.0 s (next_round-received response_ends d)
        (next_round-delivered response_ends d refl) (ground arith)
  | inr i ↦ absurd (ground arith)
]
collect_response-order taken c s t h =
    append-nil c.received ∙ take_next-order response_ends c s refl (ground arith)
collect_response-order (arrived x) c s t h = ground arith

pub collect_error-order :
    (e : ErrorEvent) (c : Collector) (s : Step)
    → c.ended ≡ false
    → collect_error e c ≡ some s
    → KeepsOrder c.received (error_arrival e) s
unfolding collect_error error_arrival delivered
collect_error-order manager_done c s t h = ground (arith, append-nil c.received)
collect_error-order (caller_done b) c s t h = ground (arith, append-nil c.received)
collect_error-order (errors_closed b) c s t h = elim (Bool-cases c.incoming) [
  | inl i ↦
      let d = record c { incoming = false } in
      let n = next_round error_ends d in
      quiet-order (cancelled b ++ n.1) c n.0 s (next_round-received error_ends d)
        (delivered-cancelled b n.1 (next_round-delivered error_ends d refl)) (ground arith)
  | inr i ↦ absurd (ground arith)
]
collect_error-order errors_taken c s t h =
    append-nil c.received ∙ take_next-order error_ends c s refl (ground arith)
collect_error-order (error_arrived x) c s t h = ground arith

-- A goroutine that has returned by itself has nothing left to deliver.
abbrev pub settled : Collector → Bool
settled c = not c.ended || is_empty c.received

next_round-settled :
    (ends : List Out) (c : Collector) → c.ended ≡ false → settled (next_round ends c).0 ≡ true
unfolding next_round
next_round-settled ends c h = ground arith

unfoldable pub is_interruption : Event → Bool
is_interruption context_done = true
is_interruption request_done = true
is_interruption incoming_closed = false
is_interruption taken = false
is_interruption (arrived x) = false

unfoldable pub interrupted : List Event → Bool
unfolding is_interruption
interrupted [] = false
interrupted (e ∷ es) = is_interruption e || interrupted es

take_next-settled :
    (ends : List Out) (c : Collector) (s : Step)
    → c.ended ≡ false
    → take_next ends c ≡ some s
    → settled s.0 ≡ true
unfolding take_next
take_next-settled ends c s t e = elim (List-cases c.received) [
  | inl u ↦ absurd (ground arith)
  | inr (x, xs, u) ↦
      let d = record c { received = xs } in ground (arith, next_round-settled ends d t)
]

pub collect_response-settled :
    (e : Event) (c : Collector) (s : Step)
    → c.ended ≡ false
    → collect_response e c ≡ some s
    → (is_interruption e || settled s.0) ≡ true
unfolding collect_response is_interruption
collect_response-settled context_done c s t h = refl
collect_response-settled request_done c s t h = refl
collect_response-settled incoming_closed c s t h = elim (Bool-cases c.incoming) [
  | inl i ↦ ground (arith, next_round-settled response_ends (record c { incoming = false }) t)
  | inr i ↦ absurd (ground arith)
]
collect_response-settled taken c s t h = take_next-settled response_ends c s t (ground arith)
collect_response-settled (arrived x) c s t h = ground arith

-- What is taken from a goroutine that has returned is refused.
pub collect_response-live :
    (e : Event) (c : Collector) (s : Step) → collect_response e c ≡ some s → c.ended ≡ false
unfolding collect_response
collect_response-live e c s h = elim (Bool-cases c.ended) [
  | inl t ↦ absurd (ground arith)
  | inr t ↦ t
]

pub collect_error-live :
    (e : ErrorEvent) (c : Collector) (s : Step) → collect_error e c ≡ some s → c.ended ≡ false
unfolding collect_error
collect_error-live e c s h = elim (Bool-cases c.ended) [ inl t ↦ absurd (ground arith) | inr t ↦ t ]
