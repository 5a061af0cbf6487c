-- ===== src/Assembler/Memory.antt =====
-- The memory of a transaction of responsemanager/responseassembler/responseBuilder.go: what it asks
-- the allocator for, and what its message gives back.
use go_graphsync.Base.{
  ℕ, ◌+◌, ◌<◌, ◌%◌, ◌≡◌, refl, true, false, List, [], ◌∷◌, arith, if◌then◌else◌, length, u64_mod,
}
use go_graphsync.Message.Builder.{add_block, add_link, add_extension_data, add_response_code}
use go_graphsync.MessageQueue.{QueueBuilder, add_block_data}
use go_graphsync.Assembler.{
  Operation, status, extension, block, bytes, build_operation, build_operations, total_size,
}

-- The bytes of the blocks that are sent, and of the extensions' data.
abbrev pub block_bytes : List Operation → ℕ
block_bytes [] = 0
block_bytes (block d send link request index ∷ ops) =
    (if send then length (bytes d) else 0) + block_bytes ops
block_bytes (status request code ∷ ops) = block_bytes ops
block_bytes (extension request e ∷ ops) = block_bytes ops

abbrev pub extension_bytes : (ℕ → ℕ) → List Operation → ℕ
extension_bytes encoded_length [] = 0
extension_bytes encoded_length (extension request e ∷ ops) =
    encoded_length e.node + extension_bytes encoded_length ops
extension_bytes encoded_length (block d send link request index ∷ ops) =
    extension_bytes encoded_length ops
extension_bytes encoded_length (status request code ∷ ops) = extension_bytes encoded_length ops

total_size_lem :
    (encoded_length : ℕ → ℕ) (ops : List Operation)
    → total_size encoded_length ops
      ≡ (block_bytes ops + extension_bytes encoded_length ops) % u64_mod
unfolding total_size
total_size_lem l [] = refl
total_size_lem l (status request code ∷ ops) = omega (arith, total_size_lem l ops)
total_size_lem l (extension request e ∷ ops) = omega (arith, total_size_lem l ops)
total_size_lem l (block d send link request index ∷ ops) = omega (arith, total_size_lem l ops)

blk_size-build_operations :
    (ops : List Operation) (b : QueueBuilder)
    → b.inner.blk_size + block_bytes ops < u64_mod
    → (build_operations ops b).inner.blk_size ≡ b.inner.blk_size + block_bytes ops
unfolding build_operations add_block add_link add_extension_data add_response_code add_block_data
blk_size-build_operations [] b h = omega arith
blk_size-build_operations (status request code ∷ ops) b h = blk_size-build_operations ops _ h
blk_size-build_operations (extension request e ∷ ops) b h = blk_size-build_operations ops _ h
blk_size-build_operations (block d true link request index ∷ ops) b h =
    ground
      (arith, blk_size-build_operations ops (build_operation (block d true link request index) b))
blk_size-build_operations (block d false link request index ∷ ops) b h =
    ground
      (arith, blk_size-build_operations ops (build_operation (block d false link request index) b))

-- As long as nothing wraps, the memory that a transaction asks for exceeds what it adds to the
-- message's size, and so what is given back when the message is sent, by the encoded length of its
-- extensions.
pub total_size_exceeds :
    (encoded_length : ℕ → ℕ) (ops : List Operation) (b : QueueBuilder)
    → b.inner.blk_size + block_bytes ops + extension_bytes encoded_length ops < u64_mod
    → b.inner.blk_size + total_size encoded_length ops
      ≡ (build_operations ops b).inner.blk_size + extension_bytes encoded_length ops
total_size_exceeds l ops b h = omega (arith, total_size_lem l ops, blk_size-build_operations ops b)
