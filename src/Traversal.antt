-- ===== src/Traversal.antt =====
-- requestmanager/reconciledloader/traversalrecord/traversalrecord.go: the links that a traversal has
-- met, as a tree along the paths, and the verifier that holds a remote's links against it. Path
-- segments and cids are numbers. A node's map from segments to the places of its children is read
-- off the list of the children, in which a segment's place is that of its first child. The stack of
-- a verifier holds pointers into the record; here it holds the subtrees, top first, as they are when
-- the verifier is made (the record does not grow while a verifier is in use).
pub mod Shape
pub mod Matching
pub mod RoundTrip
pub mod Paths
pub mod Tests
use go_graphsync.Base.{
  ℕ, Bool, true, false, ◌&&◌, List, [], ◌∷◌, ◌++◌, Option, none, some, ◌==◌, if◌then◌else◌, not,
}

mutual
  -- The link, whether it was loaded, and the children.
  pub data Record : Type 0 where
    node : Option ℕ → Bool → Children → Record

  pub data Children : Type 0 where
    empty : Children
    child : ℕ → Record → Children → Children

abbrev pub link_of : Record → Option ℕ
link_of (node l s cs) = l

abbrev pub successful : Record → Bool
successful (node l s cs) = s

abbrev pub children_of : Record → Children
children_of (node l s cs) = cs

unfoldable pub new_record : Record
new_record = node none false empty

-- A path along new nodes, for a segment that no child has.
unfoldable pub chain : List ℕ → ℕ → Bool → Record
chain [] link s = node (some link) s empty
chain (p ∷ ps) link s = node none false (child p (chain ps link s) empty)

unfoldable mutual
  pub record_next_step : List ℕ → ℕ → Bool → Record → Record
  record_next_step p link s (node l t cs) = elim p [
    | [] ↦ node (some link) s cs
    | q ∷ ps ↦ node l t (record_in q ps link s cs)
  ]

  -- The step below the child with the segment, which is made at the end if there is none.
  pub record_in : ℕ → List ℕ → ℕ → Bool → Children → Children
  record_in q ps link s empty = child q (chain ps link s) empty
  record_in q ps link s (child k r cs) =
      if k == q
      then child k (record_next_step ps link s r) cs
      else child k r (record_in q ps link s cs)

abbrev pub one_link : Option ℕ → List ℕ
one_link none = []
one_link (some l) = l ∷ []

abbrev pub or_fault : Option ℕ → Option (List ℕ)
or_fault none = none
or_fault (some l) = some (l ∷ [])

abbrev pub join : Option (List ℕ) → Option (List ℕ) → Option (List ℕ)
join (some xs) (some ys) = some (xs ++ ys)
join _ _ = none

-- AllLinks; `none` is the fault of a node with neither link nor children.
unfoldable mutual
  pub all_links : Record → Option (List ℕ)
  all_links (node l s empty) = or_fault l
  all_links (node l s (child k r cs)) =
      join (some (one_link l)) (join (all_links r) (all_links_in cs))

  pub all_links_in : Children → Option (List ℕ)
  all_links_in empty = some []
  all_links_in (child k r cs) = join (all_links r) (all_links_in cs)

unfoldable pub find_child : ℕ → Children → Option Record
find_child q empty = none
find_child q (child k r cs) = if k == q then some r else find_child q cs

unfoldable pub get_links : List ℕ → Record → Option (List ℕ)
unfolding find_child all_links
get_links [] r = some (one_link (link_of r))
get_links (q ∷ []) r = elim (find_child q (children_of r)) [ none ↦ some [] | some c ↦ all_links c ]
get_links (q ∷ p ∷ ps) r = elim (find_child q (children_of r)) [
  | none ↦ some []
  | some c ↦ get_links (p ∷ ps) c
]

-- A stack entry: its segment, which at the root is not used, and its subtree.
abbrev pub Frame : Type 0
Frame = ℕ × Record

-- appendUntilLink from a tip on: the first child again and again, until there is a link.
unfoldable mutual
  pub append_until_link : Record → List Frame → List Frame
  append_until_link (node (some l) s cs) stack = stack
  append_until_link (node none s cs) stack = append_first cs stack

  pub append_first : Children → List Frame → List Frame
  append_first empty stack = stack
  append_first (child k r cs) stack = append_until_link r ((k, r) ∷ stack)

unfoldable pub new_verifier : Record → List Frame
unfolding append_until_link
new_verifier root = append_until_link root ((0, root) ∷ [])

unfoldable pub done : List Frame → Bool
done [] = true
done ((_, node none s cs) ∷ []) = true
done _ = false

-- The children behind the one with the segment.
unfoldable pub later : ℕ → Children → Children
later q empty = empty
later q (child k r cs) = if k == q then cs else later q cs

-- nextLink without the children of the tip: the tip is popped, and the next of its siblings, or of
-- the siblings above, comes up.
unfoldable pub pop_link : List Frame → List Frame
unfolding later append_first
pop_link [] = []
pop_link (f ∷ []) = []
pop_link (f ∷ p ∷ stack) =
    let above = pop_link (p ∷ stack) in
    elim (later f.0 (children_of p.1)) [
      | empty ↦ above
      | child k r cs ↦ append_until_link r ((k, r) ∷ p ∷ stack)
    ]

unfoldable pub next_link : Bool → List Frame → List Frame
unfolding pop_link
next_link explore [] = []
next_link explore (f ∷ stack) =
    let popped = pop_link (f ∷ stack) in
    elim (children_of f.1) [
      | empty ↦ popped
      | child k r cs ↦ elim explore [
        | true ↦ append_until_link r ((k, r) ∷ f ∷ stack)
        | false ↦ popped
      ]
    ]

unfoldable pub segments_below : List Frame → List ℕ → List ℕ
segments_below [] path = path
segments_below (f ∷ []) path = path
segments_below (f ∷ g ∷ stack) path = segments_below (g ∷ stack) (f.0 ∷ path)

unfoldable pub current_path : List Frame → List ℕ
unfolding done segments_below
current_path stack = if done stack then [] else segments_below stack []

pub data VerifyError : Type 0 where
  nothing_left incorrect_response additional_data nil_link : VerifyError

pub data Verified : Type 0 where
  refused : VerifyError → Verified
  advanced : List Frame → Verified

-- The comparison of VerifyNext with the tip; a tip without a link would fault.
unfoldable pub verify_tip : Frame → List Frame → ℕ → Bool → Verified
unfolding next_link
verify_tip f stack link s = elim (link_of f.1) [
  | none ↦ refused nil_link
  | some l ↦
      if l == link
      then if s && not (successful f.1)
        then refused additional_data
        else advanced (next_link s (f ∷ stack))
      else refused incorrect_response
]

unfoldable pub verify_next : ℕ → Bool → List Frame → Verified
unfolding done verify_tip
verify_next link s [] = refused nothing_left
verify_next link s (f ∷ stack) =
    if done (f ∷ stack) then refused nothing_left else verify_tip f stack link s
