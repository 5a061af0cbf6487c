-- ===== src/Traversal/Matching.antt =====
-- The verifier of traversalrecord.go against an independent description: a remote's links match a
-- node if they begin with the node's link and, if the remote followed it, go on with those of its
-- children in order.
use go_graphsync.Base.{
  ℕ, zero, suc, ◌+◌, ◌<◌, ◌≡◌, refl, sym, ◌∙◌, ap, Bool, true, false, ◌&&◌, not, List, [], ◌∷◌,
  Option, none, some, arith, ◌==◌, if◌then◌else◌, Bool-cases, inl, inr, subst, ◌⊎◌, ==_refl, ==_iff,
  All,
}
use go_graphsync.Traversal.Shape.{Good, GoodChildren, Good-children}
use go_graphsync.Traversal.{
  Record, node, Children, empty, child, children_of, find_child, later, Frame, append_until_link,
  append_first, new_verifier, done, pop_link, next_link, verify_tip, verify_next, refused, advanced,
  additional_data, incorrect_response,
}

-- A remote's link, and whether the remote followed it.
abbrev pub Event : Type 0
Event = ℕ × Bool

abbrev pub bind : Option (List Event) → (List Event → Option (List Event)) → Option (List Event)
bind none f = none
bind (some es) f = f es

-- What is left of the events behind those that a node, or a list of children, accounts for.
abbrev mutual
  pub match_node : Record → List Event → Option (List Event)
  match_node (node none s cs) es = match_children cs es
  match_node (node (some l) s cs) [] = none
  match_node (node (some l) s cs) ((x, followed) ∷ es) =
      let below = match_children cs es in
      if l == x
      then if followed && not s then none else if followed then below else some es
      else none

  pub match_children : Children → List Event → Option (List Event)
  match_children empty es = some es
  match_children (child k r cs) es = bind (match_node r es) (match_children cs)

-- A run of VerifyNext over a remote's links that ends with nothing left to verify.
unfoldable pub accepts : List Event → List Frame → Bool
accepts [] stack = done stack
accepts ((x, followed) ∷ es) stack = elim (verify_next x followed stack) [
  | refused e ↦ false
  | advanced next ↦ accepts es next
]

abbrev pub is_finished : Option (List Event) → Bool
is_finished (some []) = true
is_finished _ = false

-- The events behind those of the later siblings of each entry of the stack.
abbrev after : List Frame → List Event → Option (List Event)
after [] es = some es
after (f ∷ []) es = some es
after (f ∷ p ∷ stack) es =
    bind (match_children (later f.0 (children_of p.1)) es) (after (p ∷ stack))

abbrev mutual
  size : Record → ℕ
  size (node l s cs) = 2 + size_in cs

  size_in : Children → ℕ
  size_in empty = 0
  size_in (child k r cs) = 1 + size r + size_in cs

abbrev weight : List Frame → ℕ
weight [] = 0
weight (f ∷ []) = 1
weight (f ∷ p ∷ stack) = 1 + size_in (later f.0 (children_of p.1)) + weight (p ∷ stack)

abbrev GoodFrames : List Frame → Type 0
GoodFrames = All λ f. Good f.1

later-first : (k : ℕ) (r : Record) (cs : Children) → later k (child k r cs) ≡ cs
unfolding later
later-first k r cs = rw (==_refl k) refl

later-Good : (q : ℕ) (cs : Children) → GoodChildren cs → GoodChildren (later q cs)
unfolding later
later-Good q empty v = tt
later-Good q (child k r cs) v = elim (Bool-cases (k == q)) [
  | inl t ↦ rw t v.2
  | inr t ↦ rw t (later-Good q cs v.2)
]

Children-cases :
    (cs : Children)
    → (cs ≡ empty) ⊎ ((k : ℕ) × (r : Record) × (xs : Children) × (cs ≡ child k r xs))
Children-cases empty = inl refl
Children-cases (child k r xs) = inr (k, r, xs, refl)

done-link :
    (k l : ℕ) (s : Bool) (cs : Children) (stack : List Frame)
    → done ((k, node (some l) s cs) ∷ stack) ≡ false
unfolding done
done-link k l s cs [] = refl
done-link k l s cs (f ∷ stack) = refl

later-hit : (q j : ℕ) (t : Record) (cs : Children) → (j == q) ≡ true → later q (child j t cs) ≡ cs
unfolding later
later-hit q j t cs h = rw h refl

later-miss :
    (q j : ℕ) (t : Record) (cs : Children) → (j == q) ≡ false → later q (child j t cs) ≡ later q cs
unfolding later
later-miss q j t cs h = rw h refl

find_child-first : (k : ℕ) (r : Record) (cs : Children) → ¬ find_child k (child k r cs) ≡ none
unfolding find_child
find_child-first k r cs = rw (==_refl k) (ground arith)

find_child-later :
    (q k : ℕ) (cs xs : Children) (r : Record) → later q cs ≡ child k r xs → ¬ find_child k cs ≡ none
unfolding find_child
find_child-later q k empty xs r e = unfold later in ground arith
find_child-later q k (child j t cs) xs r e = elim (Bool-cases (j == k)) [
  | inl h ↦ rw h (ground arith)
  | inr h ↦ rw h (elim (Bool-cases (j == q)) [
    | inl g ↦ rw (sym (later-hit q j t cs g) ∙ e) (find_child-first k r xs)
    | inr g ↦ find_child-later q k cs xs r (sym (later-miss q j t cs g) ∙ e)
  ])
]

-- A later sibling: its later siblings are those behind it.
later-later :
    (q k : ℕ) (cs xs : Children) (r : Record)
    → GoodChildren cs
    → later q cs ≡ child k r xs
    → later k cs ≡ xs
later-later q k empty xs r v e = unfold later in ground arith
later-later q k (child j t cs) xs r v e = elim (Bool-cases (j == q)) [
  | inl g ↦
      (let e' = sym (later-hit q j t cs g) ∙ e in
        elim (Bool-cases (j == k)) [
          | inl h ↦ absurd (
              find_child-first k r xs (
                sym (ap (find_child k) e')
                ∙ subst (λ z. find_child z cs ≡ none) ((==_iff j k).0 h) v.0))
          | inr h ↦ later-miss k j t cs h ∙ ap (later k) e' ∙ later-first k r xs
        ])
  | inr g ↦
      (let e' = sym (later-miss q j t cs g) ∙ e in
        elim (Bool-cases (j == k)) [
          | inl h ↦ absurd (
              find_child-later q k cs xs r e'
                (subst (λ z. find_child z cs ≡ none) ((==_iff j k).0 h) v.0))
          | inr h ↦ later-miss k j t cs h ∙ later-later q k cs xs r v.2 e'
        ])
]

later-Good-first :
    (q k : ℕ) (cs xs : Children) (r : Record) → GoodChildren cs → later q cs ≡ child k r xs → Good r
later-Good-first q k cs xs r v e = let g = subst GoodChildren e (later-Good q cs v) in g.1

-- A child comes up above its parent.
below :
    (p : Frame) (j : ℕ) (t : Record) (cs : Children) (stack : List Frame)
    → later j (children_of p.1) ≡ cs
    → (o : Option (List Event))
    → bind o (after ((j, t) ∷ p ∷ stack)) ≡ bind (bind o (match_children cs)) (after (p ∷ stack))
below p j t cs stack e none = refl
below p j t cs stack e (some es) = rw e refl

weight-child :
    (p : Frame) (j : ℕ) (t : Record) (cs : Children) (stack : List Frame)
    → later j (children_of p.1) ≡ cs
    → weight ((j, t) ∷ p ∷ stack) ≡ 1 + size_in cs + weight (p ∷ stack)
weight-child p j t cs stack e = rw e refl

verify_next-link :
    (x : ℕ) (followed : Bool) (k l : ℕ) (s : Bool) (cs : Children) (stack : List Frame)
    → verify_next x followed ((k, node (some l) s cs) ∷ stack) ≡ (
        if l == x
        then if followed && not s
          then refused additional_data
          else advanced (next_link followed ((k, node (some l) s cs) ∷ stack))
        else refused incorrect_response)
unfolding verify_next verify_tip done
verify_next-link x followed k l s cs [] = refl
verify_next-link x followed k l s cs (f ∷ stack) = refl

accepts-link :
    (x : ℕ) (followed : Bool) (es : List Event) (k l : ℕ) (s : Bool) (cs : Children)
    (stack : List Frame)
    → accepts ((x, followed) ∷ es) ((k, node (some l) s cs) ∷ stack) ≡ (
        if l == x
        then if followed && not s
          then false
          else accepts es (next_link followed ((k, node (some l) s cs) ∷ stack))
        else false)
unfolding accepts
accepts-link x followed es k l s cs stack =
    rw (verify_next-link x followed k l s cs stack, accepts)
      (elim (Bool-cases (l == x)) [
        | inl e ↦
            rw e (elim (Bool-cases (followed && not s)) [ inl f ↦ rw f refl | inr f ↦ rw f refl ])
        | inr e ↦ rw e refl
      ])

accepts-nothing :
    (k l : ℕ) (s : Bool) (cs : Children) (stack : List Frame)
    → accepts [] ((k, node (some l) s cs) ∷ stack) ≡ false
unfolding accepts
accepts-nothing k l s cs stack = done-link k l s cs stack

accepts-end : (es : List Event) → accepts es [] ≡ is_finished (some es)
unfolding accepts done verify_next
accepts-end [] = refl
accepts-end (e ∷ es) = refl

pop_link-none : pop_link [] ≡ []
unfolding pop_link
pop_link-none = refl

pop_link-last : (f : Frame) → pop_link (f ∷ []) ≡ []
unfolding pop_link
pop_link-last f = refl

pop_link-up :
    (f p : Frame) (stack : List Frame)
    → later f.0 (children_of p.1) ≡ empty
    → pop_link (f ∷ p ∷ stack) ≡ pop_link (p ∷ stack)
unfolding pop_link
pop_link-up f p stack e = rw (e, pop_link) refl

pop_link-next :
    (f p : Frame) (stack : List Frame) (j : ℕ) (t : Record) (cs : Children)
    → later f.0 (children_of p.1) ≡ child j t cs
    → pop_link (f ∷ p ∷ stack) ≡ append_until_link t ((j, t) ∷ p ∷ stack)
unfolding pop_link
pop_link-next f p stack j t cs e = rw (e, pop_link) refl

next_link-leaf :
    (followed : Bool) (k : ℕ) (l : Option ℕ) (s : Bool) (stack : List Frame)
    → next_link followed ((k, node l s empty) ∷ stack) ≡ pop_link ((k, node l s empty) ∷ stack)
unfolding next_link
next_link-leaf followed k l s stack = refl

next_link-skipped :
    (k : ℕ) (r : Record) (stack : List Frame)
    → next_link false ((k, r) ∷ stack) ≡ pop_link ((k, r) ∷ stack)
unfolding next_link
next_link-skipped k (node l s empty) stack = refl
next_link-skipped k (node l s (child j t cs)) stack = refl

next_link-followed :
    (k j : ℕ) (t : Record) (cs : Children) (l : Option ℕ) (s : Bool) (stack : List Frame)
    → next_link true ((k, node l s (child j t cs)) ∷ stack)
      ≡ append_until_link t ((j, t) ∷ (k, node l s (child j t cs)) ∷ stack)
unfolding next_link
next_link-followed k j t cs l s stack = refl

weight-next :
    (f p : Frame) (j : ℕ) (t : Record) (cs : Children) (stack : List Frame)
    → later f.0 (children_of p.1) ≡ child j t cs
    → weight (f ∷ p ∷ stack) ≡ 1 + (1 + size t + size_in cs) + weight (p ∷ stack)
weight-next f p j t cs stack e = rw e refl

bind-some : (o : Option (List Event)) → bind o some ≡ o
bind-some none = refl
bind-some (some es) = refl

mutual
  unfolding append_until_link append_first

  accepts-append_until_link :
      (n : ℕ) (k : ℕ) (r : Record) (stack : List Frame) (es : List Event)
      → (size r + weight ((k, r) ∷ stack)) < n
      → Good r
      → GoodFrames stack
      → accepts es (append_until_link r ((k, r) ∷ stack))
        ≡ is_finished (bind (match_node r es) (after ((k, r) ∷ stack)))
  accepts-append_until_link zero k r stack es b v w = elim b [ ]
  accepts-append_until_link (suc n) k (node none s (child j t cs)) stack es b v w =
      accepts-append_until_link n j t ((k, node none s (child j t cs)) ∷ stack) es
        (rw (later-first j t cs) (omega arith)) (let g = v.1 in g.1) (v, w)
      ∙ ap is_finished (
          below (k, node none s (child j t cs)) j t cs stack (later-first j t cs) (match_node t es))
  accepts-append_until_link (suc n) k (node none s empty) stack es b v w = absurd v.0
  accepts-append_until_link (suc n) k (node (some l) s cs) stack [] b v w =
      accepts-nothing k l s cs stack
  accepts-append_until_link (suc n) k (node (some l) s cs) stack ((x, followed) ∷ es) b v w =
      accepts-link x followed es k l s cs stack ∙ elim (Bool-cases (l == x)) [
        | inl e ↦ rw e (elim (Bool-cases (followed && not s)) [
          | inl f ↦ rw f refl
          | inr f ↦
              rw f (accepts-next_link n followed k (node (some l) s cs) stack es (omega arith) v w)
        ])
        | inr e ↦ rw e refl
      ]

  accepts-next_link :
      (n : ℕ) (followed : Bool) (k : ℕ) (r : Record) (stack : List Frame) (es : List Event)
      → (size_in (children_of r) + suc (weight ((k, r) ∷ stack))) < n
      → Good r
      → GoodFrames stack
      → accepts es (next_link followed ((k, r) ∷ stack))
        ≡ is_finished (
            bind
              (if followed then match_children (children_of r) es else some es)
              (after ((k, r) ∷ stack)))
  accepts-next_link zero followed k r stack es b v w = elim b [ ]
  accepts-next_link (suc n) false k r stack es b v w =
      rw (next_link-skipped k r stack) (accepts-pop_link n ((k, r) ∷ stack) es (omega arith) (v, w))
  accepts-next_link (suc n) true k (node l s empty) stack es b v w =
      rw (next_link-leaf true k l s stack)
        (accepts-pop_link n ((k, node l s empty) ∷ stack) es (omega arith) (v, w))
  accepts-next_link (suc n) true k (node l s (child j t cs)) stack es b v w =
      rw (next_link-followed k j t cs l s stack) (
        accepts-append_until_link n j t ((k, node l s (child j t cs)) ∷ stack) es
          (rw (later-first j t cs) (omega arith)) (let g = v.1 in g.1) (v, w)
        ∙ ap is_finished (
            below (k, node l s (child j t cs)) j t cs stack (later-first j t cs) (match_node t es)))

  accepts-pop_link :
      (n : ℕ) (stack : List Frame) (es : List Event)
      → weight stack < n
      → GoodFrames stack
      → accepts es (pop_link stack) ≡ is_finished (after stack es)
  accepts-pop_link zero stack es b w = elim b [ ]
  accepts-pop_link (suc n) [] es b w = ap (accepts es) pop_link-none ∙ accepts-end es
  accepts-pop_link (suc n) (f ∷ []) es b w = ap (accepts es) (pop_link-last f) ∙ accepts-end es
  accepts-pop_link (suc n) (f ∷ p ∷ stack) es b w =
      elim (Children-cases (later f.0 (children_of p.1))) [
        | inl e ↦
            rw (pop_link-up f p stack e)
              (rw e (accepts-pop_link n (p ∷ stack) es (omega arith) w.1))
        | inr (j, t, cs, e) ↦
            (let g = w.1 in
              let next = later-later f.0 j (children_of p.1) cs t (Good-children p.1 g.0) e in
              rw (pop_link-next f p stack j t cs e) (
                rw e (
                  accepts-append_until_link n j t (p ∷ stack) es
                    (rw (weight-child p j t cs stack next)
                      (ground (arith, weight-next f p j t cs stack e)))
                    (later-Good-first f.0 j (children_of p.1) cs t (Good-children p.1 g.0) e) w.1
                  ∙ ap is_finished (below p j t cs stack next (match_node t es)))))
      ]

-- From a record in order, the verifier accepts the links that a remote sends exactly when they match
-- the record's tree: the node's link comes first, with no more loaded than the record has, then, if
-- the remote followed the link, those of the children in order, and nothing is left over.
pub new_verifier-accepts :
    (root : Record) (es : List Event)
    → Good root
    → accepts es (new_verifier root) ≡ is_finished (match_node root es)
unfolding new_verifier
new_verifier-accepts root es v =
    accepts-append_until_link (suc (size root + 1)) 0 root [] es (omega arith) v tt
    ∙ ap is_finished (bind-some (match_node root es))
