-- ===== src/Assembler/Tests.antt =====
-- The theorem on the memory of a transaction at one that sends a block of three bytes and an
-- extension whose data takes five.
use go_graphsync.Base.{ℕ, ◌+◌, ◌≡◌, refl, true, List, [], ◌∷◌, some, arith}
use go_graphsync.MessageQueue.{new_queue_builder}
use go_graphsync.Message.Builder.{new_builder}
use go_graphsync.Assembler.{Operation, status, extension, block, build_operations, total_size}
use go_graphsync.Assembler.Memory.{extension_bytes, total_size_exceeds}

abbrev five : ℕ → ℕ
five n = 5

abbrev operations : List Operation
operations =
    block (some (1 ∷ 2 ∷ 3 ∷ [])) true 7 1 1
    ∷ extension 1 (record { name = 4; node = 9 })
    ∷ status 1 14
    ∷ []

asked : total_size five operations ≡ 8
unfolding total_size
asked = refl

total_size_exceeds_example :
    (new_queue_builder 0).inner.blk_size + total_size five operations
    ≡ (build_operations operations (new_queue_builder 0)).inner.blk_size
      + extension_bytes five operations
unfolding new_queue_builder new_builder
total_size_exceeds_example = total_size_exceeds five operations (new_queue_builder 0) (omega arith)
