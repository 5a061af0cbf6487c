-- ===== src/RequestManager/About.antt =====
-- Which requests the responses of a message are about, for RequestManager.processResponses.
use go_graphsync.Base.{
  ℕ, ◌≡◌, refl, ◌∙◌, ap, Bool, true, false, not, ◌&&◌, ◌||◌, List, [], ◌∷◌, none, some, arith, ◌==◌,
  Bool-cases, Option-cases, inl, inr, get?, has,
}
use go_graphsync.Message.{Response}
use go_graphsync.RequestManager.Hooks.{ResponseResult}
use go_graphsync.RequestManager.{Manager, ResponseHooks, filter_for_peer}

-- Some response is about the request.
unfoldable pub mentions : ℕ → List Response → Bool
mentions id [] = false
mentions id (r ∷ rs) = (id == r.request_id) || mentions id rs

-- No two responses are about one request, as in a message.
unfoldable pub distinct : List Response → Bool
unfolding mentions
distinct [] = true
distinct (r ∷ rs) = not (mentions r.request_id rs) && distinct rs

-- The request of each response is in progress.
unfoldable pub all_known : List Response → Manager → Bool
all_known [] m = true
all_known (r ∷ rs) m = has r.request_id m && all_known rs m

abbrev pub is_refusal : ResponseResult → Bool
is_refusal h = elim h.err [ none ↦ false | some e ↦ true ]

-- The hooks refuse a response about the request.
unfoldable pub refused : ResponseHooks → ℕ → ℕ → List Response → Bool
refused hooks p id [] = false
refused hooks p id (r ∷ rs) =
    (is_refusal (hooks p r) && (id == r.request_id)) || refused hooks p id rs

-- The request is in progress with the peer.
unfoldable pub owned : ℕ → ℕ → Manager → Bool
owned p id m = elim (get? id m) [ none ↦ false | some s ↦ s.peer == p ]

pub owned-same : (p j : ℕ) (m n : Manager) → get? j n ≡ get? j m → owned p j n ≡ owned p j m
unfolding owned
owned-same p j m n e = rw (e, owned) refl

equal_ids : (a b : ℕ) → (a == b) ≡ true → a ≡ b
equal_ids a b h = ground arith

-- What passes the filter is about requests of the peer.
pub mentions-owned :
    (p j : ℕ) (m : Manager) (rs : List Response)
    → owned p j m ≡ false
    → mentions j (filter_for_peer p m rs) ≡ false
unfolding mentions filter_for_peer owned
mentions-owned p j m [] h = refl
mentions-owned p j m (r ∷ rs) h = elim (Option-cases (get? r.request_id m)) [
  | inl e ↦ ground (arith, mentions-owned p j m rs)
  | inr (s, e) ↦ elim (Bool-cases (j == r.request_id)) [
    | inl f ↦
        let g : get? j m ≡ some s = ap (λ i. get? i m) (equal_ids j r.request_id f) ∙ e in
        ground (arith, mentions-owned p j m rs)
    | inr f ↦ ground (arith, mentions-owned p j m rs)
  ]
]
