-- ===== src/Message/Extensions.antt =====
-- MergeExtensions and ReplaceExtensions of message/message.go.
use go_graphsync.Base.{
  ℕ, ◌≡◌, refl, List, [], ◌∷◌, Option, none, some, arith, ◌==◌, if◌then◌else◌, Map, get?, insert,
  has, IsMap, get?-insert, insert-IsMap, Option-cases, inl, inr, ◌⊎◌, Bool-cases,
}
use go_graphsync.Message.{
  Extension, Request, Result, ok, err, add_extensions, to_extensions_map, combine, fill,
  merge_extensions, replace_extensions,
}

abbrev pub or_else : Option ℕ → Option ℕ → Option ℕ
or_else none o = o
or_else (some a) o = some a

add_extensions-IsMap : (es : List Extension) (m : Map ℕ) → IsMap m → IsMap (add_extensions es m)
unfolding add_extensions
add_extensions-IsMap [] m h = h
add_extensions-IsMap (e ∷ es) m h =
    add_extensions-IsMap es (insert e.name e.node m) (insert-IsMap e.name e.node m h)

get?-fill : (n : ℕ) (old acc : Map ℕ) → get? n (fill old acc) ≡ or_else (get? n acc) (get? n old)
unfolding fill get?
get?-fill n [] acc = ground arith
get?-fill n ((k, d) ∷ old) acc =
    ground
      (arith, get?-fill n old (if has k acc then acc else insert k d acc), get?-insert k n d acc)

-- What a merge gives a name: `d` is its new value, `o` its old one, and `a` what it has with no new
-- value.
abbrev pub merged :
    {E : Type 0} → (ℕ → ℕ → ℕ → Result E ℕ) → ℕ → Option ℕ → Option ℕ → Option ℕ → Option ℕ
merged merge n none o a = a
merged merge n (some d) none a = some d
merged merge n (some d) (some o) a = elim (merge n o d) [ ok x ↦ some x | err e ↦ none ]

Result-cases : {E A : Type 0} (r : Result E A) → ((e : E) × (r ≡ err e)) ⊎ ((a : A) × (r ≡ ok a))
Result-cases (err e) = inl (e, refl)
Result-cases (ok a) = inr (a, refl)

module _ {E : Type 0} (merge : ℕ → ℕ → ℕ → Result E ℕ) (old : Map ℕ) where
  combine_lem :
      (n : ℕ) (m acc res : Map ℕ)
      → IsMap m
      → combine merge m old acc ≡ ok res
      → get? n res ≡ merged merge n (get? n m) (get? n old) (get? n acc)
  unfolding combine get?
  combine_lem n [] acc res v h = ground arith
  combine_lem n ((k, d) ∷ more) acc res v h = elim (Option-cases (get? k old)) [
    | inl e ↦ ground (arith, combine_lem n more (insert k d acc) res v.1, get?-insert k n d acc)
    | inr (o, e) ↦ elim (Result-cases (merge k o d)) [
      | inl (x, f) ↦ absurd (ground arith)
      | inr (x, f) ↦
          ground (arith, combine_lem n more (insert k x acc) res v.1, get?-insert k n x acc)
    ]
  ]

  combine-ok :
      (n d o : ℕ) (m acc res : Map ℕ)
      → combine merge m old acc ≡ ok res
      → get? n m ≡ some d
      → get? n old ≡ some o
      → (x : ℕ) × (merge n o d ≡ ok x)
  unfolding combine get?
  combine-ok n d o [] acc res h g f = cc
  combine-ok n d o ((k, c) ∷ more) acc res h g f = elim (Bool-cases (k == n)) [
    | inl e ↦ elim (Result-cases (merge n o d)) [
      | inl (x, q) ↦ absurd (ground arith)
      | inr (x, q) ↦ (x, q)
    ]
    | inr e ↦ elim (Option-cases (get? k old)) [
      | inl p ↦ combine-ok n d o more (insert k c acc) res (ground arith) (ground arith) f
      | inr (b, p) ↦ elim (Result-cases (merge k b c)) [
        | inl (x, q) ↦ absurd (ground arith)
        | inr (x, q) ↦ combine-ok n d o more (insert k x acc) res (ground arith) (ground arith) f
      ]
    ]
  ]

-- MergeExtensions, when it succeeds, binds each name to the merge of its old and new values, to the
-- one that there is, or not at all, and leaves the rest of the request as it was.
pub merge_extensions_lem :
    {E : Type 0} (merge : ℕ → ℕ → ℕ → Result E ℕ) (es : List Extension) (r s : Request) (n : ℕ)
    → merge_extensions merge es r ≡ ok s
    → (get? n s.extensions
        ≡ merged merge n
            (get? n (to_extensions_map es))
            (get? n r.extensions)
            (get? n r.extensions))
      × (record s { extensions = r.extensions } ≡ r)
unfolding merge_extensions to_extensions_map get?
merge_extensions_lem merge es r s n h =
    elim (Result-cases (combine merge (to_extensions_map es) r.extensions [])) [
      | inl (e, f) ↦ absurd (ground arith)
      | inr (m, f) ↦
          let same : record r { extensions = fill r.extensions m } ≡ s = ground arith in
          let bound =
            combine_lem merge r.extensions n (to_extensions_map es) [] m
              (add_extensions-IsMap es [] tt) f in
          let filled = get?-fill n r.extensions m in
          (
            elim (Option-cases (get? n (to_extensions_map es))) [
              | inl a ↦ ground arith
              | inr (d, a) ↦ elim (Option-cases (get? n r.extensions)) [
                | inl b ↦ ground arith
                | inr (o, b) ↦
                    let (x, q) =
                      combine-ok merge r.extensions n d o (to_extensions_map es) [] m f a b in
                    ground arith
              ]
            ],
            ground arith,
          )
    ]

-- ReplaceExtensions binds each name to its new value, or else to its old one.
pub replace_extensions_lem :
    (es : List Extension) (r : Request) (n : ℕ)
    → get? n (replace_extensions es r).extensions
      ≡ or_else (get? n (to_extensions_map es)) (get? n r.extensions)
unfolding replace_extensions
replace_extensions_lem es r n =
    elim (Result-cases (merge_extensions {E = ⊥} (λ n o d. ok d) es r)) [
      | inl (e, f) ↦ absurd e
      | inr (s, f) ↦
          let (g, _) = merge_extensions_lem {E = ⊥} (λ n o d. ok d) es r s n f in
          elim (Option-cases (get? n (to_extensions_map es))) [
            | inl a ↦ ground arith
            | inr (d, a) ↦ elim (Option-cases (get? n r.extensions)) [
              | inl b ↦ ground arith
              | inr (o, b) ↦ ground arith
            ]
          ]
    ]
