-- ===== src/Message/Scrub.antt =====
-- ScrubResponses and Build of message/builder.go.
use go_graphsync.Base.{
  ℕ, ◌+◌, ◌%◌, ◌≤◌, ◌<◌, ◌≡◌, refl, Bool, true, false, ◌&&◌, List, [], ◌∷◌, map, Option, none, some,
  arith, ◌==◌, if◌then◌else◌, length, Map, get?, delete, has, IsMap, get?-insert, get?-delete,
  total, total-insert, u64_mod, contains, Bool-cases, Option-cases, inl, inr, insert-IsMap,
  total-le,
}
use go_graphsync.Message.{Block, Metadatum, is_present, new_response}
use go_graphsync.Message.Builder.{
  Builder, Saved, slice_at, delete_all, save_item, save_items, save_responses, scrub_responses,
  response_code, build_response, build, new_builder, add_block,
}

get?-delete_all {ℓ} :
    {V : Type ℓ} (ids : List ℕ) (k : ℕ) (m : Map V)
    → get? k (delete_all ids m) ≡ (if contains k ids then none else get? k m)
unfolding delete_all
get?-delete_all [] k m = refl
get?-delete_all (i ∷ ids) k m =
    ground (arith, get?-delete_all ids k (delete i m), get?-delete i k m)

-- Whether some of the metadata lists a link as present.
abbrev pub lists : ℕ → List Metadatum → Bool
lists link [] = false
lists link (x ∷ xs) = if x.link == link && is_present x.action then true else lists link xs

abbrev pub lists_any : ℕ → Map (List Metadatum) → Bool
lists_any link [] = false
lists_any link ((_, xs) ∷ m) = if lists link xs then true else lists_any link m

-- The blocks saved so far are outgoing ones, and their size is counted.
pub record IsSaved (outgoing : Map Block) (s : Saved) : Type 0 where
  pub distinct : IsMap s.blocks
  pub counted : s.size ≡ total (λ b. length b.raw) s.blocks % u64_mod

save_item-IsSaved :
    (outgoing : Map Block) (x : Metadatum) (s : Saved)
    → IsSaved outgoing s
    → IsSaved outgoing (save_item outgoing x s)
unfolding save_item has
save_item-IsSaved outgoing x s v = elim (Option-cases (get? x.link outgoing)) [
  | inl e ↦ rw (e, save_item) v
  | inr (b, e) ↦
      elim (Bool-cases (is_present x.action && (if has x.link s.blocks then false else true))) [
        | inl t ↦
            rw (e, save_item, t)
              (record {
                distinct = insert-IsMap x.link b s.blocks v.distinct;
                counted =
                    ground (arith, v.counted, total-insert (λ b. length b.raw) x.link b s.blocks);
              })
        | inr t ↦ rw (e, save_item, t) v
      ]
]

-- What a link has after it was looked for: its saved block, or the outgoing one if it is wanted.
abbrev pick : Option Block → Bool → Option Block → Option Block
pick (some b) wanted o = some b
pick none wanted o = if wanted then o else none

get?-save_item :
    (outgoing : Map Block) (link : ℕ) (x : Metadatum) (s : Saved)
    → get? link (save_item outgoing x s).blocks
      ≡ pick (get? link s.blocks) (x.link == link && is_present x.action) (get? link outgoing)
unfolding save_item has
get?-save_item outgoing link x s = elim (Option-cases (get? x.link outgoing)) [
  | inl e ↦ ground arith
  | inr (b, e) ↦ ground (arith, get?-insert x.link link b s.blocks)
]

save_items-IsSaved :
    (outgoing : Map Block) (xs : List Metadatum) (s : Saved)
    → IsSaved outgoing s
    → IsSaved outgoing (save_items outgoing xs s)
unfolding save_items
save_items-IsSaved outgoing [] s v = v
save_items-IsSaved outgoing (x ∷ xs) s v =
    save_items-IsSaved outgoing xs (save_item outgoing x s) (save_item-IsSaved outgoing x s v)

get?-save_items :
    (outgoing : Map Block) (link : ℕ) (xs : List Metadatum) (s : Saved)
    → get? link (save_items outgoing xs s).blocks
      ≡ pick (get? link s.blocks) (lists link xs) (get? link outgoing)
unfolding save_items
get?-save_items outgoing link [] s = ground arith
get?-save_items outgoing link (x ∷ xs) s = ground (
  arith,
  get?-save_items outgoing link xs (save_item outgoing x s),
  get?-save_item outgoing link x s,
)

save_responses-IsSaved :
    (outgoing : Map Block) (m : Map (List Metadatum)) (s : Saved)
    → IsSaved outgoing s
    → IsSaved outgoing (save_responses outgoing m s)
unfolding save_responses
save_responses-IsSaved outgoing [] s v = v
save_responses-IsSaved outgoing ((k, xs) ∷ m) s v =
    save_responses-IsSaved outgoing m (save_items outgoing xs s)
      (save_items-IsSaved outgoing xs s v)

get?-save_responses :
    (outgoing : Map Block) (link : ℕ) (m : Map (List Metadatum)) (s : Saved)
    → get? link (save_responses outgoing m s).blocks
      ≡ pick (get? link s.blocks) (lists_any link m) (get? link outgoing)
unfolding save_responses
get?-save_responses outgoing link [] s = ground arith
get?-save_responses outgoing link ((k, xs) ∷ m) s = ground (
  arith,
  get?-save_responses outgoing link m (save_items outgoing xs s),
  get?-save_items outgoing link xs s,
)

-- The block size covers the blocks that are held, and has not wrapped.
pub record IsSized (b : Builder) : Type 0 where
  pub distinct : IsMap b.outgoing_blocks
  pub covered : total (λ x. length x.raw) b.outgoing_blocks ≤ b.blk_size
  pub bounded : b.blk_size < u64_mod

pub new_builder-IsSized : IsSized new_builder
unfolding new_builder
new_builder-IsSized = record { distinct = tt; covered = omega arith; bounded = omega arith }

pub add_block-IsSized :
    (x : Block) (b : Builder)
    → IsSized b
    → b.blk_size + length x.raw < u64_mod
    → IsSized (add_block x b)
unfolding add_block
add_block-IsSized x b v h = record {
  distinct = insert-IsMap x.cid x b.outgoing_blocks v.distinct;
  covered = omega (arith, v.covered, total-insert (λ x. length x.raw) x.cid x b.outgoing_blocks);
  bounded = omega arith;
}

-- ScrubResponses removes the responses of the requests and no others, keeps exactly the blocks that
-- a response left lists as present, and returns how many bytes the size of the builder has fallen
-- by; the new size is that of the blocks kept.
pub scrub_responses_lem :
    (ids : List ℕ) (b : Builder)
    → IsSized b
    → let (after, freed) = scrub_responses ids b in
      ((k : ℕ)
        → get? k after.outgoing_responses
          ≡ (if contains k ids then none else get? k b.outgoing_responses))
      × ((link : ℕ)
          → get? link after.outgoing_blocks ≡ (
              if lists_any link after.outgoing_responses
              then get? link b.outgoing_blocks
              else none))
      × (after.blk_size ≡ total (λ x. length x.raw) after.outgoing_blocks)
      × (freed + after.blk_size ≡ b.blk_size)
unfolding scrub_responses
scrub_responses_lem ids b v = (
  λ k. get?-delete_all ids k b.outgoing_responses,
  λ link. kept link,
  size,
  omega (arith, size, within, v.covered, v.bounded),
)
  where
    nothing : Saved
    nothing = record { blocks = []; size = 0 }

    left : Map (List Metadatum)
    left = delete_all ids b.outgoing_responses

    saved : Saved
    saved = save_responses b.outgoing_blocks left nothing

    kept :
        (link : ℕ)
        → get? link saved.blocks
          ≡ (if lists_any link left then get? link b.outgoing_blocks else none)
    kept link = unfold get? in get?-save_responses b.outgoing_blocks link left nothing

    good : IsSaved b.outgoing_blocks saved
    good =
        save_responses-IsSaved b.outgoing_blocks left nothing
          (record { distinct = tt; counted = refl })

    within : total (λ x. length x.raw) saved.blocks ≤ total (λ x. length x.raw) b.outgoing_blocks
    within =
        total-le (λ x. length x.raw) saved.blocks b.outgoing_blocks good.distinct v.distinct
          (λ k x e. ground (arith, kept k))

    size : saved.size ≡ total (λ x. length x.raw) saved.blocks
    size = omega (arith, good.counted, within, v.covered, v.bounded)

-- Build makes a response for each request in the map of link metadata: with
-- the metadata and the extensions of the request, and its status or, if it has none, PartialResponse.
pub get?-build :
    (id : ℕ) (b : Builder)
    → get? id (build b).responses ≡ elim (get? id b.outgoing_responses) [
      | none ↦ none
      | some md ↦ some (
          new_response id
            (response_code (get? id b.completed_responses))
            md
            (slice_at id b.extensions))
    ]
unfolding build get?
get?-build id b = go b.outgoing_responses
  where
    go :
        (m : Map (List Metadatum))
        → get? id (map (λ e. (e.0, build_response b e.0 e.1)) m)
          ≡ elim (get? id m) [ none ↦ none | some md ↦ some (build_response b id md) ]
    go [] = refl
    go ((k, md) ∷ m) = ground (arith, go m)
