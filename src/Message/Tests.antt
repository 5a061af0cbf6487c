-- ===== src/Message/Tests.antt =====
-- The theorems on message/message.go and message/builder.go at concrete requests and builders:
-- requests 1 and 2 both list block 7, request 1 has a status, and request 2 an extension.
use go_graphsync.Base.{
  ℕ, ◌+◌, ◌≡◌, refl, List, [], ◌∷◌, none, some, arith, length, get?, insert, delete, contains,
  total, if◌then◌else◌,
}
use go_graphsync.Message.{
  Extension, Block, Request, Result, ok, present, missing, new_request, new_response,
  to_extensions_map, fill, merge_extensions, replace_extensions, new_response,
}
use go_graphsync.Message.Extensions.{merged, or_else, merge_extensions_lem, replace_extensions_lem}
use go_graphsync.Message.Builder.{
  Builder, new_builder, add_block, add_link, add_response_code, add_extension_data, scrub_responses,
}
use go_graphsync.Message.Responses.{Addition, of_code, of_link, of_extension}
use go_graphsync.Message.Scrub.{
  IsSized, new_builder-IsSized, add_block-IsSized, lists_any, scrub_responses_lem,
}

abbrev asked : Request
asked = new_request 1 2 3 4 (record { name = 5; node = 50 } ∷ record { name = 6; node = 60 } ∷ [])

abbrev more : List Extension
more = record { name = 6; node = 61 } ∷ record { name = 8; node = 80 } ∷ []

replaced : get? 6 (replace_extensions more asked).extensions ≡ some 61
unfolding replace_extensions new_request get? insert
replaced = refl

replace_extensions_lem_example :
    get? 6 (replace_extensions more asked).extensions
    ≡ or_else (get? 6 (to_extensions_map more)) (get? 6 asked.extensions)
replace_extensions_lem_example = replace_extensions_lem more asked 6

abbrev added : ℕ → ℕ → ℕ → Result ℕ ℕ
added n old fresh = ok (old + fresh)

merge_extensions_lem_example :
    (get? 6 (fill asked.extensions ((6, 121) ∷ (8, 80) ∷ []))
      ≡ merged added 6
          (get? 6 (to_extensions_map more))
          (get? 6 asked.extensions)
          (get? 6 asked.extensions))
    × (record asked { extensions = asked.extensions } ≡ asked)
unfolding merge_extensions new_request get? insert
merge_extensions_lem_example =
    merge_extensions_lem added more asked
      (record asked { extensions = fill asked.extensions ((6, 121) ∷ (8, 80) ∷ []) }) 6 refl

abbrev block : Block
block = record { cid = 7; raw = 1 ∷ 2 ∷ 3 ∷ [] }

-- The builder under a block whose response and others are then noted.
abbrev filled : Builder
filled =
    add_extension_data 2 (record { name = 5; node = 50 })
      (add_response_code 1 20 (
        add_link 2 7 present
          (add_link 1 9 missing (add_link 1 7 present (add_block block new_builder)))))

filled-IsSized : IsSized filled
unfolding add_extension_data add_response_code add_link
filled-IsSized =
    let v =
      add_block-IsSized block new_builder new_builder-IsSized (unfold new_builder in omega arith) in
    record { distinct = v.distinct; covered = v.covered; bounded = v.bounded }

scrubbed-freed : (scrub_responses (1 ∷ []) filled).1 ≡ 0
unfolding scrub_responses add_extension_data add_response_code add_link add_block new_builder get?
    insert delete
scrubbed-freed = refl

scrubbed_all-freed : (scrub_responses (1 ∷ 2 ∷ []) filled).1 ≡ 3
unfolding scrub_responses add_extension_data add_response_code add_link add_block new_builder get?
    insert delete
scrubbed_all-freed = refl

scrub_responses_lem_example :
    let (after, freed) = scrub_responses (1 ∷ []) filled in
    ((k : ℕ)
      → get? k after.outgoing_responses
        ≡ (if contains k (1 ∷ []) then none else get? k filled.outgoing_responses))
    × ((link : ℕ)
        → get? link after.outgoing_blocks ≡ (
            if lists_any link after.outgoing_responses
            then get? link filled.outgoing_blocks
            else none))
    × (after.blk_size ≡ total (λ x. length x.raw) after.outgoing_blocks)
    × (freed + after.blk_size ≡ filled.blk_size)
scrub_responses_lem_example = scrub_responses_lem (1 ∷ []) filled filled-IsSized

-- A status and an extension alone make responses; the later of two statuses stays.
abbrev additions : List Addition
additions =
    of_code 1 20
    ∷ of_link 2 7 present
    ∷ of_extension 2 (record { name = 5; node = 50 })
    ∷ of_code 1 21
    ∷ []
