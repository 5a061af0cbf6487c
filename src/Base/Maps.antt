-- ===== src/Base/Maps.antt =====
-- Go's maps as association lists over keys that are numbers: reading a missing key gives `none`,
-- a write replaces the entry of its key, `delete` leaves no entry of its key.
use Prim.Native.Nat.{ℕ, ◌+◌, ◌≤◌}
use mathlib.Core.Path.{◌≡◌, refl}
use mathlib.Core.Bool.{Bool, true, false}
use mathlib.Core.List.{List, [], ◌∷◌, map}
use mathlib.Core.Option.{Option, none, some}
use native.Mathlib.Omega.{arith}
use mathlib.Core.Path.{subst, ap}
use mathlib.Core.Logic.{inl, inr}
use go_graphsync.Base.Tests.{◌==◌, if◌then◌else◌, Bool-cases, some_inj, ==_refl}

abbrev pub Map {ℓ} : Type ℓ → Type ℓ
Map V = List (ℕ × V)

module _ {ℓ} {V : Type ℓ} where
  unfoldable pub get? : ℕ → Map V → Option V
  get? k [] = none
  get? k ((j, v) ∷ m) = if j == k then some v else get? k m

  unfoldable pub insert : ℕ → V → Map V → Map V
  insert k v [] = (k, v) ∷ []
  insert k v ((j, w) ∷ m) = if j == k then (k, v) ∷ m else (j, w) ∷ insert k v m

  unfoldable pub delete : ℕ → Map V → Map V
  delete k [] = []
  delete k ((j, w) ∷ m) = let rest = delete k m in if j == k then rest else (j, w) ∷ rest

  abbrev pub keys : Map V → List ℕ
  keys = map λ e. e.0

  unfoldable pub has : ℕ → Map V → Bool
  unfolding get?
  has k m = elim (get? k m) [ none ↦ false | some _ ↦ true ]

  pub get?-insert :
      (k j : ℕ) (v : V) (m : Map V) → get? j (insert k v m) ≡ (if k == j then some v else get? j m)
  unfolding get? insert
  get?-insert k j v [] = refl
  get?-insert k j v ((i, w) ∷ m) = ground (arith, get?-insert k j v m)

  pub get?-delete :
      (k j : ℕ) (m : Map V) → get? j (delete k m) ≡ (if k == j then none else get? j m)
  unfolding get? delete
  get?-delete k j [] = ground arith
  get?-delete k j ((i, w) ∷ m) = ground (arith, get?-delete k j m)

  pub get?-insert_self : (k : ℕ) (v : V) (m : Map V) → get? k (insert k v m) ≡ some v
  get?-insert_self k v m = ground (arith, get?-insert k k v m)

  pub get?-delete_self : (k : ℕ) (m : Map V) → get? k (delete k m) ≡ none
  get?-delete_self k m = ground (arith, get?-delete k k m)

  -- No key is bound twice.
  abbrev pub IsMap : Map V → Type ℓ
  IsMap [] = Unit
  IsMap ((k, v) ∷ m) = (get? k m ≡ none) × IsMap m

  pub insert-IsMap : (k : ℕ) (v : V) (m : Map V) → IsMap m → IsMap (insert k v m)
  unfolding insert get?
  insert-IsMap k v [] h = (refl, tt)
  insert-IsMap k v ((j, w) ∷ m) h = ground (arith, insert-IsMap k v m h.1, get?-insert k j v m)

  pub delete-IsMap : (k : ℕ) (m : Map V) → IsMap m → IsMap (delete k m)
  unfolding delete
  delete-IsMap k [] h = tt
  delete-IsMap k ((j, w) ∷ m) h = ground (arith, delete-IsMap k m h.1, get?-delete k j m)

  -- The sum of a measure over the values.
  abbrev pub total : (V → ℕ) → Map V → ℕ
  total f [] = 0
  total f ((k, v) ∷ m) = f v + total f m

  abbrev pub value_at : (V → ℕ) → Option V → ℕ
  value_at f none = 0
  value_at f (some v) = f v

  pub total-insert :
      (f : V → ℕ) (k : ℕ) (v : V) (m : Map V)
      → total f (insert k v m) + value_at f (get? k m) ≡ total f m + f v
  unfolding insert get?
  total-insert f k v [] = omega arith
  total-insert f k v ((j, w) ∷ m) = ground (arith, total-insert f k v m)

  delete_absent : (k : ℕ) (m : Map V) → get? k m ≡ none → delete k m ≡ m
  unfolding delete get?
  delete_absent k [] h = refl
  delete_absent k ((j, w) ∷ m) h = ground (arith, delete_absent k m)

  pub total-delete :
      (f : V → ℕ) (k : ℕ) (m : Map V)
      → IsMap m
      → total f (delete k m) + value_at f (get? k m) ≡ total f m
  unfolding delete get?
  total-delete f k [] h = omega arith
  total-delete f k ((j, w) ∷ m) h = ground (arith, total-delete f k m h.1, delete_absent k m)

  pub value-le-total : (f : V → ℕ) (k : ℕ) (m : Map V) → value_at f (get? k m) ≤ total f m
  unfolding get?
  value-le-total f k [] = omega arith
  value-le-total f k ((j, w) ∷ m) = ground (arith, value-le-total f k m)

  -- What is read after a write is the value written or what was there.
  pub get?-insert_elim {κ} :
      (P : V → Type κ) (k j : ℕ) (v : V) (m : Map V) {x : V}
      → P v
      → ((y : V) → get? j m ≡ some y → P y)
      → get? j (insert k v m) ≡ some x
      → P x
  get?-insert_elim P k j v m h f e = elim (Bool-cases (k == j)) [
    | inl t ↦ subst P (some_inj (ground (arith, get?-insert k j v m))) h
    | inr t ↦ f _ (ground (arith, get?-insert k j v m))
  ]

  pub get?-delete-some :
      (k j : ℕ) (m : Map V) {x : V} → get? j (delete k m) ≡ some x → get? j m ≡ some x
  get?-delete-some k j m e = ground (arith, get?-delete k j m)

  -- A map within another has no larger sum.
  pub total-le :
      (f : V → ℕ) (m n : Map V)
      → IsMap m
      → IsMap n
      → ((k : ℕ) (x : V) → get? k m ≡ some x → get? k n ≡ some x)
      → total f m ≤ total f n
  unfolding get?
  total-le f [] n v w h = omega arith
  total-le f ((k, x) ∷ m) n v w h = omega (
    arith,
    total-delete f k n w,
    ap (value_at f) (h k x (ground (arith, ==_refl k))),
    total-le f m (delete k n) v.1 (delete-IsMap k n w)
        (λ j y e. ground (arith, h j y, get?-delete k j n, v.0)),
  )
