-- ===== src/Message/Builder.antt =====
-- message/builder.go: the message that is being put together for a peer. The map of a request's
-- link metadata holds the empty list where the source holds nil.
use go_graphsync.Base.{
  ℕ, Bool, true, false, ◌&&◌, List, [], ◌∷◌, ◌++◌, map, Option, none, some, ◌==◌, if◌then◌else◌,
  length, Map, get?, insert, delete, has, add64, sub64,
}
use go_graphsync.Message.{
  Block, Extension, LinkAction, is_present, Metadatum, Request, Response, Message, new_response,
}

pub record Builder : Type 0 where
  pub outgoing_blocks : Map Block
  pub blk_size : ℕ
  pub completed_responses : Map ℕ
  pub outgoing_responses : Map (List Metadatum)
  pub extensions : Map (List Extension)
  pub requests : Map Request

unfoldable pub new_builder : Builder
new_builder = record {
  outgoing_blocks = [];
  blk_size = 0;
  completed_responses = [];
  outgoing_responses = [];
  extensions = [];
  requests = [];
}

unfoldable pub add_request : Request → Builder → Builder
add_request r b = record b { requests = insert r.id r b.requests }

unfoldable pub add_block : Block → Builder → Builder
add_block block b = record b {
  blk_size = add64 b.blk_size (length block.raw);
  outgoing_blocks = insert block.cid block b.outgoing_blocks;
}

-- Go's reading of a map from request ids to slices.
abbrev pub slice_at {ℓ} : {A : Type ℓ} → ℕ → Map (List A) → List A
slice_at k m = elim (get? k m) [ none ↦ [] | some l ↦ l ]

-- A request that has no response yet gets an empty one.
unfoldable pub ensure_response : ℕ → Map (List Metadatum) → Map (List Metadatum)
unfolding has
ensure_response request m = if has request m then m else insert request [] m

unfoldable pub add_extension_data : ℕ → Extension → Builder → Builder
unfolding ensure_response
add_extension_data request e b = record b {
  extensions = insert request (slice_at request b.extensions ++ e ∷ []) b.extensions;
  outgoing_responses = ensure_response request b.outgoing_responses;
}

unfoldable pub add_link : ℕ → ℕ → LinkAction → Builder → Builder
add_link request link action b = record b {
  outgoing_responses =
      insert request
        (slice_at request b.outgoing_responses ++ record { link = link; action = action } ∷ [])
        b.outgoing_responses;
}

unfoldable pub add_response_code : ℕ → ℕ → Builder → Builder
unfolding ensure_response
add_response_code request status b = record b {
  completed_responses = insert request status b.completed_responses;
  outgoing_responses = ensure_response request b.outgoing_responses;
}

unfoldable pub is_empty : Builder → Bool
is_empty b =
    length b.requests == 0 && length b.outgoing_blocks == 0 && length b.outgoing_responses == 0

unfoldable pub delete_all {ℓ} : {V : Type ℓ} → List ℕ → Map V → Map V
delete_all [] m = m
delete_all (k ∷ ks) m = delete_all ks (delete k m)

-- The blocks that ScrubResponses saves, and their size.
pub record Saved : Type 0 where
  pub blocks : Map Block
  pub size : ℕ

unfoldable pub save_item : Map Block → Metadatum → Saved → Saved
unfolding has
save_item outgoing item s = elim (get? item.link outgoing) [
  | none ↦ s
  | some block ↦
      if is_present item.action && (if has item.link s.blocks then false else true)
      then record {
        blocks = insert item.link block s.blocks;
        size = add64 s.size (length block.raw);
      }
      else s
]

unfoldable pub save_items : Map Block → List Metadatum → Saved → Saved
unfolding save_item
save_items outgoing [] s = s
save_items outgoing (item ∷ items) s = save_items outgoing items (save_item outgoing item s)

unfoldable pub save_responses : Map Block → Map (List Metadatum) → Saved → Saved
unfolding save_items
save_responses outgoing [] s = s
save_responses outgoing ((_, items) ∷ m) s = save_responses outgoing m (save_items outgoing items s)

-- The builder without the requests' responses, and the number of bytes freed.
unfoldable pub scrub_responses : List ℕ → Builder → Builder × ℕ
unfolding delete_all save_responses
scrub_responses ids b =
    let left = delete_all ids b.outgoing_responses in
    let saved = save_responses b.outgoing_blocks left (record { blocks = []; size = 0 }) in
    (
      record b {
        completed_responses = delete_all ids b.completed_responses;
        extensions = delete_all ids b.extensions;
        outgoing_responses = left;
        blk_size = saved.size;
        outgoing_blocks = saved.blocks;
      },
      sub64 b.blk_size saved.size,
    )

-- graphsync.PartialResponse.
abbrev pub partial_response : ℕ
partial_response = 14

abbrev pub response_code : Option ℕ → ℕ
response_code none = partial_response
response_code (some status) = status

unfoldable pub build_response : Builder → ℕ → List Metadatum → Response
unfolding new_response
build_response b id md =
    new_response id (response_code (get? id b.completed_responses)) md (slice_at id b.extensions)

-- Build never fails.
unfoldable pub build : Builder → Message
unfolding build_response
build b = record {
  requests = b.requests;
  responses = map (λ e. (e.0, build_response b e.0 e.1)) b.outgoing_responses;
  blocks = b.outgoing_blocks;
}
