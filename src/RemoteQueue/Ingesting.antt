-- ===== src/RemoteQueue/Ingesting.antt =====
-- The items that requestmanager/reconciledloader/injest.go makes of the metadata of a response.
use go_graphsync.Base.{
  ℕ, ◌≡◌, refl, ap, ◌∙◌, ==_iff, Bool, true, false, not, ◌&&◌, ◌||◌, List, [], ◌∷◌, ◌++◌, Option,
  none, some, arith, ◌==◌, if◌then◌else◌, Bool-cases, inl, inr, contains, Map, get?, length,
  get_elem?,
}
use go_graphsync.Message.{Metadatum, is_present}
use go_graphsync.RemoteQueue.{Item, make_items}

abbrev pub is_listed : ℕ → List Metadatum → Bool
is_listed l [] = false
is_listed l (d ∷ md) = (is_present d.action && (d.link == l)) || is_listed l md

abbrev pub item_of : Metadatum → Option (List ℕ) → Item
item_of d b = record { link = d.link; action = d.action; block = b; next = none }

-- Whether a link counts as listed is the same before and after a first metadatum that is fresh, and
-- after one that is not.
listed_fresh : (p e s l : Bool) → p ≡ true → ((if e then true else s) || l) ≡ (s || ((p && e) || l))
listed_fresh p e s l h = ground arith

listed_old :
    (p : Bool) (c d : ℕ) (seen : List ℕ) (l : Bool)
    → (p && not (contains c seen)) ≡ false
    → (contains d seen || l) ≡ (contains d seen || ((p && (c == d)) || l))
listed_old p c d seen l h = elim (Bool-cases (c == d)) [
  | inl e ↦ ground (arith, ap (λ u. contains u seen) ((==_iff c d).0 e))
  | inr e ↦ ground arith
]

make_items-seen :
    (before : List Metadatum) (d : Metadatum) (after : List Metadatum) (blocks : Map (List ℕ))
    (seen : List ℕ)
    → get_elem? (make_items (before ++ d ∷ after) blocks seen) (length before)
      ≡ some (
          item_of d (
            if is_present d.action && not (contains d.link seen || is_listed d.link before)
            then get? d.link blocks
            else none))
unfolding make_items
make_items-seen [] d after blocks seen = elim (Bool-cases (contains d.link seen)) [
  | inl e ↦ rw e refl
  | inr e ↦ rw e refl
]
make_items-seen (c ∷ before) d after blocks seen =
    elim (Bool-cases (is_present c.action && not (contains c.link seen))) [
      | inl e ↦ rw e (
          make_items-seen before d after blocks (c.link ∷ seen)
          ∙ ap
              (λ b.
                some
                  (item_of d (if is_present d.action && not b then get? d.link blocks else none)))
              (listed_fresh (is_present c.action) (c.link == d.link) (contains d.link seen)
                (is_listed d.link before) (ground arith)))
      | inr e ↦ rw e (
          make_items-seen before d after blocks seen
          ∙ ap
              (λ b.
                some
                  (item_of d (if is_present d.action && not b then get? d.link blocks else none)))
              (listed_old (is_present c.action) c.link d.link seen (is_listed d.link before) e))
    ]

-- Each link of a response's metadata becomes an item, in order, with its link and its action; the
-- item has the link's block exactly where the link is present and was not listed as present before.
pub make_items_lem :
    (before : List Metadatum) (d : Metadatum) (after : List Metadatum) (blocks : Map (List ℕ))
    → get_elem? (make_items (before ++ d ∷ after) blocks []) (length before)
      ≡ some (
          item_of d (
            if is_present d.action && not (is_listed d.link before)
            then get? d.link blocks
            else none))
make_items_lem before d after blocks = make_items-seen before d after blocks []
