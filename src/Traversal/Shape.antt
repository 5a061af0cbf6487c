-- ===== src/Traversal/Shape.antt =====
-- The shape of the records of requestmanager/reconciledloader/traversalrecord/traversalrecord.go:
-- siblings have different segments, and a node has a link or children.
use go_graphsync.Base.{
  ℕ, ◌≡◌, refl, Bool, false, List, [], ◌∷◌, Option, none, some, arith, ◌==◌, Bool-cases, inl, inr,
}
use go_graphsync.Traversal.{
  Record, node, Children, empty, child, find_child, chain, record_next_step, record_in, children_of,
}

abbrev pub LinkOrChildren : Option ℕ → Children → Type 0
LinkOrChildren none empty = ⊥
LinkOrChildren _ _ = Unit

abbrev mutual
  pub Good : Record → Type 0
  Good (node l s cs) = LinkOrChildren l cs × GoodChildren cs

  pub GoodChildren : Children → Type 0
  GoodChildren empty = Unit
  GoodChildren (child k r cs) = (find_child k cs ≡ none) × Good r × GoodChildren cs

LinkOrChildren-some : (l : ℕ) (cs : Children) → LinkOrChildren (some l) cs
LinkOrChildren-some l empty = tt
LinkOrChildren-some l (child k r cs) = tt

chain-Good : (p : List ℕ) (link : ℕ) (s : Bool) → Good (chain p link s)
unfolding chain find_child
chain-Good [] link s = (tt, tt)
chain-Good (q ∷ p) link s = (tt, (refl, chain-Good p link s, tt))

find_child-record_in :
    (k q : ℕ) (p : List ℕ) (link : ℕ) (s : Bool) (cs : Children)
    → (q == k) ≡ false
    → find_child k cs ≡ none
    → find_child k (record_in q p link s cs) ≡ none
unfolding find_child record_in
find_child-record_in k q p link s empty h e = ground arith
find_child-record_in k q p link s (child j r cs) h e = elim (Bool-cases (j == q)) [
  | inl t ↦ rw t (ground arith)
  | inr t ↦ rw t (ground (arith, find_child-record_in k q p link s cs h))
]

record_in-LinkOrChildren :
    (l : Option ℕ) (q : ℕ) (p : List ℕ) (link : ℕ) (s : Bool) (cs : Children)
    → LinkOrChildren l (record_in q p link s cs)
unfolding record_in
record_in-LinkOrChildren none q p link s empty = tt
record_in-LinkOrChildren (some l) q p link s empty = tt
record_in-LinkOrChildren none q p link s (child k r cs) = ground arith
record_in-LinkOrChildren (some l) q p link s (child k r cs) = ground arith

find_child-empty : (q : ℕ) → find_child q empty ≡ none
unfolding find_child
find_child-empty q = refl

pub Good-children : (r : Record) → Good r → GoodChildren (children_of r)
Good-children (node l s cs) v = v.1

mutual
  unfolding record_next_step

  pub record_next_step-Good :
      (r : Record) (p : List ℕ) (link : ℕ) (s : Bool)
      → GoodChildren (children_of r)
      → Good (record_next_step p link s r)
  record_next_step-Good (node l t cs) [] link s v = (LinkOrChildren-some link cs, v)
  record_next_step-Good (node l t cs) (q ∷ p) link s v =
      let g = record_in-GoodChildren cs q p link s v in
      (record_in-LinkOrChildren l q p link s cs, g)

  record_in-GoodChildren :
      (cs : Children) (q : ℕ) (p : List ℕ) (link : ℕ) (s : Bool)
      → GoodChildren cs
      → GoodChildren (record_in q p link s cs)
  record_in-GoodChildren empty q p link s v = (find_child-empty q, chain-Good p link s, tt)
  record_in-GoodChildren (child k r cs) q p link s v = elim (Bool-cases (k == q)) [
    | inl t ↦ rw t (v.0, record_next_step-Good r p link s (Good-children r v.1), v.2)
    | inr t ↦ rw t (
      find_child-record_in k q p link s cs (ground arith) v.0,
      v.1,
      record_in-GoodChildren cs q p link s v.2,
    )
  ]
