-- ===== src/Traversal/Paths.antt =====
-- A record of requestmanager/reconciledloader/traversalrecord/traversalrecord.go as a map from paths
-- to links.
use go_graphsync.Base.{
  ℕ, ◌≡◌, refl, Bool, true, false, ◌&&◌, List, [], ◌∷◌, Option, none, some, arith, ◌==◌,
  if◌then◌else◌, Bool-cases, inl, inr,
}
use go_graphsync.Traversal.{
  Record, node, Children, empty, child, chain, record_next_step, record_in,
}

-- The link at a path and whether it was loaded.
abbrev mutual
  pub link_at : List ℕ → Record → Option (ℕ × Bool)
  link_at [] (node none s cs) = none
  link_at [] (node (some l) s cs) = some (l, s)
  link_at (q ∷ p) (node l s cs) = link_in q p cs

  pub link_in : ℕ → List ℕ → Children → Option (ℕ × Bool)
  link_in q p empty = none
  link_in q p (child k r cs) =
      let below = link_at p r in let beside = link_in q p cs in if k == q then below else beside

abbrev pub same_path : List ℕ → List ℕ → Bool
same_path [] [] = true
same_path (x ∷ xs) (y ∷ ys) = (x == y) && same_path xs ys
same_path _ _ = false

link_at-chain :
    (q p : List ℕ) (link : ℕ) (s : Bool)
    → link_at q (chain p link s) ≡ (if same_path p q then some (link, s) else none)
unfolding chain
link_at-chain [] [] link s = refl
link_at-chain [] (y ∷ p) link s = refl
link_at-chain (x ∷ q) [] link s = refl
link_at-chain (x ∷ q) (y ∷ p) link s = elim (Bool-cases (y == x)) [
  | inl e ↦ rw e (link_at-chain q p link s)
  | inr e ↦ rw e refl
]

==_both : (k y x : ℕ) → (k == y) ≡ true → (k == x) ≡ true → (y == x) ≡ true
==_both k y x e f = ground arith

==_changed : (k y x : ℕ) → (k == y) ≡ true → (k == x) ≡ false → (y == x) ≡ false
==_changed k y x e f = ground arith

==_differs : (k y x : ℕ) → (k == y) ≡ false → (k == x) ≡ true → (y == x) ≡ false
==_differs k y x e f = ground arith

mutual
  unfolding record_next_step

  link_at-recorded :
      (q p : List ℕ) (link : ℕ) (s : Bool) (r : Record)
      → link_at q (record_next_step p link s r)
        ≡ (if same_path p q then some (link, s) else link_at q r)
  link_at-recorded [] [] link s (node l t cs) = refl
  link_at-recorded (x ∷ q) [] link s (node l t cs) = refl
  link_at-recorded [] (y ∷ p) link s (node none t cs) = refl
  link_at-recorded [] (y ∷ p) link s (node (some l) t cs) = refl
  link_at-recorded (x ∷ q) (y ∷ p) link s (node l t cs) = link_in-record_in x y q p link s cs

  link_in-record_in :
      (x y : ℕ) (q p : List ℕ) (link : ℕ) (s : Bool) (cs : Children)
      → link_in x q (record_in y p link s cs)
        ≡ (if (y == x) && same_path p q then some (link, s) else link_in x q cs)
  link_in-record_in x y q p link s empty = elim (Bool-cases (y == x)) [
    | inl e ↦ rw (e, link_at-chain q p link s) refl
    | inr e ↦ rw e refl
  ]
  link_in-record_in x y q p link s (child k r cs) =
      let below = link_at-recorded q p link s r in
      let beside = link_in-record_in x y q p link s cs in
      elim (Bool-cases (k == y)) [
        | inl e ↦ rw e (elim (Bool-cases (k == x)) [
          | inl f ↦ rw (f, ==_both k y x e f) below
          | inr f ↦ rw (f, ==_changed k y x e f) refl
        ])
        | inr e ↦ rw e (elim (Bool-cases (k == x)) [
          | inl f ↦ rw (f, ==_differs k y x e f) refl
          | inr f ↦ rw f beside
        ])
      ]

-- After RecordNextStep the path of the step has the step's link, and every other path what it had.
pub link_at-record_next_step :
    (q p : List ℕ) (link : ℕ) (s : Bool) (r : Record)
    → link_at q (record_next_step p link s r)
      ≡ (if same_path p q then some (link, s) else link_at q r)
link_at-record_next_step q p link s r = link_at-recorded q p link s r
