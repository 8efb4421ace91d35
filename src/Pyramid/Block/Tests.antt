-- ===== src/Pyramid/Block/Tests.antt =====
-- Runs of source/pyramid/types/block.go, with a toy hash.
use urd_code.Prelude.{◌≡◌, ◌⊎◌, refl, some, List, [], ◌∷◌, ◌++◌, arith, replicate, length}
use urd_code.Prelude.Int.{pos}
use urd_code.Prelude.Bytes.{Bytes}
use urd_code.Pyramid.Block.{Block, Hashing, new_block, empty_header, block_hash}
use urd_code.Pyramid.Block.Binding.{
  IsFresh, SameContents, Breaks, block_hash_binds, block_hash-ignores_body,
  block_hash-ignores_receipts,
}

abbrev toy_merkle : List Bytes → Bytes
toy_merkle [] = 0 ∷ []
toy_merkle (b ∷ bs) = length b ∷ (b ++ toy_merkle bs)

abbrev toy : Hashing
toy = record { merkle = toy_merkle; sum = λ b. b; time_bytes = λ t. some (t ∷ []) }

abbrev one : Block
one = record new_block {
  header = record empty_header { height = pos 1 };
  body_txs = (5 ∷ 6 ∷ []) ∷ [];
}

abbrev rooted : Block
rooted = record one { header = record empty_header { body_root = replicate 32 1 } }

one-IsFresh : IsFresh toy one
one-IsFresh = (refl, refl, refl, refl, (0 ∷ [], refl), omega arith, omega arith)

block_hash_binds_example : SameContents toy one one ⊎ Breaks toy one one
block_hash_binds_example = block_hash_binds toy one one one-IsFresh one-IsFresh refl

block_hash-ignores_body_example :
    (block_hash toy (record rooted { body_txs = [] })).1 ≡ (block_hash toy rooted).1
block_hash-ignores_body_example = block_hash-ignores_body toy rooted [] refl

block_hash-ignores_receipts_example :
    block_hash toy (record one { header = record (one.header) { receipt_root = 9 ∷ [] } })
    ≡ block_hash toy one
block_hash-ignores_receipts_example = block_hash-ignores_receipts toy one (9 ∷ []) refl
