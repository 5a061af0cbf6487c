-- ===== src/Executor/Asking.antt =====
-- When executor.go asks the remote, and how an execution ends.
use go_graphsync.Base.{
  ◌⊎◌, ℕ, zero, suc, ◌+◌, ◌-◌, ltb, ◌≡◌, refl, sym, ◌∙◌, ap, Bool, true, false, ◌||◌, List, [], ◌∷◌,
  ◌++◌, Option, none, some, arith, if◌then◌else◌, Option-cases, Bool-cases, inl, inr, append-nil,
}
use go_graphsync.Message.{Extension, Request, replace_extensions}
use go_graphsync.ResponseManager.{do_not_send_first_blocks}
use go_graphsync.Executor.{
  LoadResult, loaded, missing, failed, Stop, Effect, set_online, send_request, report, report_stop,
  skip_link, traverser_error, advance, release_task, Round, RequestTask, Behaviour, then_rounds,
  start_remote_request, load, advance_traversal, on_new_block, process_result, finish_round,
  traverse,
}

-- The requests that are sent just when the loader is set online; the Boolean says whether it was, last.
unfoldable pub asked_for : Bool → List Effect → List Request
asked_for b [] = []
asked_for b (send_request q ∷ es) = let rest = asked_for false es in if b then q ∷ rest else rest
asked_for b (set_online o ∷ es) = asked_for o es
asked_for b (report x ∷ es) = asked_for false es
asked_for b (report_stop x ∷ es) = asked_for false es
asked_for b (skip_link ∷ es) = asked_for false es
asked_for b (traverser_error x ∷ es) = asked_for false es
asked_for b (advance ∷ es) = asked_for false es
asked_for b (release_task x ∷ es) = asked_for false es

-- Whether a round ends the loop, from what was loaded.
unfoldable pub ends_loop : Round → LoadResult → Bool
ends_loop r loaded = elim r.advance_error [
  | some e ↦ true
  | none ↦ elim r.hook_error [ some e ↦ true | none ↦ r.is_paused ]
]
ends_loop r missing = r.is_done || r.is_paused
ends_loop r (failed e) = r.is_done || r.is_paused

-- The request with a number of blocks to leave out, if there are any.
unfoldable pub leaving_out : (ℕ → ℕ) → Request → ℕ → Request
leaving_out encode q zero = q
leaving_out encode q (suc n) =
    replace_extensions (record { name = do_not_send_first_blocks; node = encode (suc n) } ∷ []) q

-- The larger number, as the first and what the second has beyond it.
abbrev pub larger : ℕ → ℕ → ℕ
larger a b = a + (b - a)

-- What the remote is to be asked for: the request, once, in the first round that misses a block, if no
-- round before it ends the loop.
unfoldable pub to_ask : (ℕ → ℕ) → RequestTask → List Round → List Request
unfolding ends_loop leaving_out
to_ask encode rt [] = []
to_ask encode rt (r ∷ rs) =
    let rest = to_ask encode rt rs in
    elim r.first_load [
      | missing ↦ leaving_out encode rt.request (larger rt.do_not_send_first_blocks r.n_blocks) ∷ []
      | loaded ↦ if ends_loop r loaded then [] else rest
      | failed e ↦ if ends_loop r (failed e) then [] else rest
    ]

Extensions-cases :
    (es : List Extension) → (es ≡ []) ⊎ ((x : Extension) × (xs : List Extension) × (es ≡ x ∷ xs))
Extensions-cases [] = inl refl
Extensions-cases (x ∷ xs) = inr (x, xs, refl)

asked_for-finish_round :
    (rt : RequestTask) (r : Round) (x : LoadResult) (gs : List Effect)
    → asked_for false ((finish_round rt r x).1 ++ gs) ≡ asked_for false gs
unfolding asked_for finish_round advance_traversal process_result on_new_block
asked_for-finish_round rt r loaded gs = elim (Option-cases r.advance_error) [
  | inl e ↦ elim (Extensions-cases r.hook_extensions) [
    | inl h ↦ ground arith
    | inr (x, xs, h) ↦ ground arith
  ]
  | inr (s, e) ↦ ground arith
]
asked_for-finish_round rt r missing gs = elim (Bool-cases r.is_done) [
  | inl e ↦ ground arith
  | inr e ↦ ground arith
]
asked_for-finish_round rt r (failed x) gs = elim (Bool-cases r.is_done) [
  | inl e ↦ ground arith
  | inr e ↦ ground arith
]

abbrev stopped : Option Stop → Bool
stopped none = false
stopped (some e) = true

finish_round-ends :
    (rt : RequestTask) (r : Round) (x : LoadResult)
    → stopped (finish_round rt r x).0 ≡ ends_loop r x
unfolding finish_round advance_traversal process_result on_new_block ends_loop
finish_round-ends rt r loaded = ground arith
finish_round-ends rt r missing = ground arith
finish_round-ends rt r (failed x) = ground arith

asked_for-finish_round_end :
    (rt : RequestTask) (r : Round) (x : LoadResult) → asked_for false (finish_round rt r x).1 ≡ []
unfolding asked_for
asked_for-finish_round_end rt r x =
    ap (asked_for false) (sym (append-nil (finish_round rt r x).1))
    ∙ asked_for-finish_round rt r x []

nothing_either_way : (b : Bool) {qs : List Request} → qs ≡ [] → (if b then [] else qs) ≡ []
nothing_either_way true h = refl
nothing_either_way false h = h

load-missing :
    (encode : ℕ → ℕ) (rt : RequestTask) (r : Round)
    → r.first_load ≡ missing
    → load encode rt false r ≡ (
      r.retried_load,
      true,
      set_online true ∷ send_request (start_remote_request encode rt r.n_blocks) ∷ [],
    )
unfolding load
load-missing encode rt r l = rw (l, load) refl

then_rounds-asked :
    (rt : RequestTask) (r : Round) (x : LoadResult) (f rest : Behaviour)
    → finish_round rt r x ≡ f
    → asked_for false (then_rounds [] f rest).1
      ≡ (if ends_loop r x then [] else asked_for false rest.1)
then_rounds-asked rt r x (some e, fs) rest h =
    let stops : ends_loop r x ≡ true = sym (finish_round-ends rt r x) ∙ ap (λ g. stopped g.0) h in
    rw (stops) (ap (λ g. asked_for false g.1) (sym h) ∙ asked_for-finish_round_end rt r x)
then_rounds-asked rt r x (none, fs) rest h =
    let goes_on : ends_loop r x ≡ false =
      sym (finish_round-ends rt r x) ∙ ap (λ g. stopped g.0) h in
    rw (goes_on)
      (ap (λ g. asked_for false (g.1 ++ rest.1)) (sym h) ∙ asked_for-finish_round rt r x rest.1)

-- Once the remote has been asked, it is not asked again.
traverse-asked :
    (encode : ℕ → ℕ) (rt : RequestTask) (rs : List Round) (complete : Option Stop)
    → asked_for false (traverse encode rt true rs complete).1 ≡ []
unfolding traverse asked_for load
traverse-asked encode rt [] complete = refl
traverse-asked encode rt (r ∷ rs) complete =
    let rest = traverse encode rt true rs complete in
    then_rounds-asked rt r r.first_load (finish_round rt r r.first_load) rest refl
    ∙ nothing_either_way (ends_loop r r.first_load) (traverse-asked encode rt rs complete)

-- A round in which nothing is asked.
round-silent :
    (encode : ℕ → ℕ) (rt : RequestTask) (r : Round) (rs : List Round) (complete : Option Stop)
    → (x : LoadResult) → load encode rt false r ≡ (x, false, [])
    → asked_for false (traverse encode rt false (r ∷ rs) complete).1
      ≡ (if ends_loop r x then [] else asked_for false (traverse encode rt false rs complete).1)
unfolding traverse
round-silent encode rt r rs complete x l =
    ap
      (λ t.
        asked_for false
          (then_rounds t.2 (finish_round rt r t.0) (traverse encode rt t.1 rs complete)).1)
      l
    ∙ then_rounds-asked rt r x (finish_round rt r x) (traverse encode rt false rs complete) refl

then_rounds-online :
    (q : Request) (f rest : Behaviour)
    → asked_for false (then_rounds (set_online true ∷ send_request q ∷ []) f rest).1
      ≡ q ∷ asked_for false (then_rounds [] f rest).1
unfolding asked_for
then_rounds-online q (some e, fs) rest = refl
then_rounds-online q (none, fs) rest = refl

-- A round that misses a block.
round-asks :
    (encode : ℕ → ℕ) (rt : RequestTask) (r : Round) (rs : List Round) (complete : Option Stop)
    → r.first_load ≡ missing
    → asked_for false (traverse encode rt false (r ∷ rs) complete).1
      ≡ start_remote_request encode rt r.n_blocks ∷ []
unfolding traverse
round-asks encode rt r rs complete l =
    let x = r.retried_load in
    let rest = traverse encode rt true rs complete in
    let q = start_remote_request encode rt r.n_blocks in
    ap
      (λ t.
        asked_for false
          (then_rounds t.2 (finish_round rt r t.0) (traverse encode rt t.1 rs complete)).1)
      (load-missing encode rt r l)
    ∙ then_rounds-online q (finish_round rt r x) rest
    ∙ ap (λ qs. q ∷ qs)
        (then_rounds-asked rt r x (finish_round rt r x) rest refl
          ∙ nothing_either_way (ends_loop r x) (traverse-asked encode rt rs complete))

picks_larger : (a n : ℕ) → (if ltb a n then n else a) ≡ larger a n
picks_larger a n = ground arith

skips :
    (encode : ℕ → ℕ) (q : Request) (k : ℕ)
    → (if ltb 0 k
        then replace_extensions (record { name = do_not_send_first_blocks; node = encode k } ∷ []) q
        else q)
      ≡ leaving_out encode q k
unfolding leaving_out
skips encode q zero = refl
skips encode q (suc n) = ground arith

start_remote_request_lem :
    (encode : ℕ → ℕ) (rt : RequestTask) (n : ℕ)
    → start_remote_request encode rt n
      ≡ leaving_out encode rt.request (larger rt.do_not_send_first_blocks n)
unfolding start_remote_request leaving_out
start_remote_request_lem encode rt n =
    let a = rt.do_not_send_first_blocks in
    ap
      (λ k.
        if ltb 0 k
        then replace_extensions (record { name = do_not_send_first_blocks; node = encode k } ∷ [])
            rt.request
        else rt.request)
      (picks_larger a n)
    ∙ skips encode rt.request (larger a n)

Load-cases : (x : LoadResult) → (x ≡ loaded) ⊎ ((x ≡ missing) ⊎ ((e : ℕ) × (x ≡ failed e)))
Load-cases loaded = inl refl
Load-cases missing = inr (inl refl)
Load-cases (failed e) = inr (inr (e, refl))

-- The requests that the loop of the executor sends just when it sets the loader online are those to be
-- asked: one, in the first round whose block is missing, if no round before it ends the loop, which is
-- the task's request, with the larger of the number of blocks to leave out and the number traversed in
-- its extension if that is not 0; and none otherwise.
pub traverse-asks_once :
    (encode : ℕ → ℕ) (rt : RequestTask) (rs : List Round) (complete : Option Stop)
    → asked_for false (traverse encode rt false rs complete).1 ≡ to_ask encode rt rs
unfolding to_ask traverse asked_for load
traverse-asks_once encode rt [] complete = refl
traverse-asks_once encode rt (r ∷ rs) complete =
    let later = traverse-asks_once encode rt rs complete in
    elim (Load-cases r.first_load) [
      | inl l ↦
          round-silent encode rt r rs complete loaded (rw (l, load) refl)
          ∙ rw (l, to_ask) (ap (λ qs. if ends_loop r loaded then [] else qs) later)
      | inr (inl l) ↦
          round-asks encode rt r rs complete l
          ∙ ap (λ q. q ∷ []) (start_remote_request_lem encode rt r.n_blocks)
          ∙ rw (l, to_ask) refl
      | inr (inr (e, l)) ↦
          round-silent encode rt r rs complete (failed e) (rw (l, load) refl)
          ∙ rw (l, to_ask) (ap (λ qs. if ends_loop r (failed e) then [] else qs) later)
    ]
