-- ===== src/Collector/Runs.antt =====
-- Whole runs of the goroutines of responsecollector.go.
use go_graphsync.Base.{
  ℕ, ◌≡◌, refl, sym, ◌∙◌, ap, true, not, ◌||◌, List, [], ◌∷◌, ◌++◌, Option, some, arith,
  Option-cases, Bool-cases, inl, inr, append-nil, append_assoc, some_inj,
}
use go_graphsync.Collector.{
  Collector, new_collector, Event, ErrorEvent, Step, is_empty, after, collect_response,
  collect_error, run,
}
use go_graphsync.Collector.Delivery.{
  delivered, delivered-++, arrival, error_arrival, arrivals, KeepsOrder, settled, is_interruption,
  interrupted, collect_response-order, collect_error-order, collect_response-settled,
  collect_response-live, collect_error-live,
}

-- The events of a run, its first one apart.
run-cases :
    {E : Type 0} (step : E → Collector → Option Step) (e : E) (es : List E) (c : Collector)
    (s : Step)
    → run step (e ∷ es) c ≡ some s
    → (t : Step) × (u : Step) × (step e c ≡ some t) × (run step es t.0 ≡ some u) × (after t.1 u ≡ s)
unfolding run
run-cases step e es c s h = elim (Option-cases (step e c)) [
  | inl f ↦ absurd (ground arith)
  | inr (t, f) ↦ elim (Option-cases (run step es t.0)) [
    | inl g ↦ absurd (ground arith)
    | inr (u, g) ↦ (t, u, f, g, ground arith)
  ]
]

run-order :
    {E : Type 0} (step : E → Collector → Option Step) (f : E → List ℕ)
    → ((e : E) (c : Collector) (s : Step) → step e c ≡ some s → KeepsOrder c.received (f e) s)
    → (es : List E) (c : Collector) (s : Step) → run step es c ≡ some s
    → KeepsOrder c.received (arrivals f es) s
unfolding run arrivals delivered
run-order step f k [] c s h =
    append-nil c.received ∙ ap (λ t. delivered t.1 ++ t.0.received) (some_inj h)
run-order step f k (e ∷ es) c s h =
    let (t, u, p, q, r) = run-cases step e es c s h in
    let here = k e c t p in
    let rest = run-order step f k es t.0 u q in
    sym (append_assoc c.received (f e) (arrivals f es))
    ∙ ap (λ xs. xs ++ arrivals f es) here
    ∙ append_assoc (delivered t.1) t.0.received (arrivals f es)
    ∙ ap (λ xs. delivered t.1 ++ xs) rest
    ∙ sym (append_assoc (delivered t.1) (delivered u.1) u.0.received)
    ∙ ap (λ xs. xs ++ u.0.received) (sym (delivered-++ t.1 u.1))
    ∙ ap (λ v. delivered v.1 ++ v.0.received) r

run-settled :
    (es : List Event) (c : Collector) (s : Step)
    → settled c ≡ true
    → run collect_response es c ≡ some s
    → (interrupted es || settled s.0) ≡ true
unfolding run interrupted
run-settled [] c s k h = ap (λ t. settled t.0) (sym (some_inj h)) ∙ k
run-settled (e ∷ es) c s k h =
    let (t, u, p, q, r) = run-cases collect_response e es c s h in
    let here = collect_response-settled e c t (collect_response-live e c t p) p in
    elim (Bool-cases (is_interruption e)) [
      | inl i ↦ ground arith
      | inr i ↦
          let rest = run-settled es t.0 u (ground arith) q in
          ground (arith, ap (λ v. settled v.0) r)
    ]

-- Whatever the goroutine for blocks does, what its caller has got and what still waits are, in order,
-- the blocks that came in; and if it has returned and neither context ended, nothing waits.
pub collect_response-delivers :
    (es : List Event) (s : Step)
    → run collect_response es new_collector ≡ some s
    → (delivered s.1 ++ s.0.received ≡ arrivals arrival es)
      × ((interrupted es || (not s.0.ended || is_empty s.0.received)) ≡ true)
unfolding new_collector
collect_response-delivers es s h = (
  sym (
      run-order collect_response arrival
        (λ e c t k. collect_response-order e c t (collect_response-live e c t k) k) es new_collector
        s h),
  run-settled es new_collector s refl h,
)

-- Whatever the goroutine for errors does, the errors of the request that its caller has got and those
-- that still wait are, in order, the errors that came in.
pub collect_error-delivers :
    (es : List ErrorEvent) (s : Step)
    → run collect_error es new_collector ≡ some s
    → delivered s.1 ++ s.0.received ≡ arrivals error_arrival es
unfolding new_collector
collect_error-delivers es s h = sym (
    run-order collect_error error_arrival
      (λ e c t k. collect_error-order e c t (collect_error-live e c t k) k) es new_collector s h)
