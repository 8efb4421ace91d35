-- ===== src/Urd/Block/Hash.antt =====
-- source/urd/types/block.go: what the hash of a block does not cover.
use urd_code.Prelude.{◌≡◌, Option, List, arith}
use urd_code.Prelude.Bytes.{Bytes}
use urd_code.Prelude.Calls.{Call, returns, ◌>>=◌}
use urd_code.Urd.Block.{Hashing, Block, hashed, cal_block_hash, fill_in_header, commit_txs_root}

-- The hash that `Hash` returns.
abbrev pub hash_of_block : Hashing → Block → Call Bytes
hash_of_block hashing b = do c ← hashed hashing b; returns c.header.hash

-- The hash of a block does not depend on the transactions between shards that it proposes, nor on
-- their root in the header.
pub hash_of_block-cross_shard_txs :
    (hashing : Hashing) (b : Block) (txs : Option (List Bytes)) (root : Bytes)
    → hash_of_block hashing
        (record b { cross_shard_txs = txs; header = record (b.header) { cross_shard_root = root } })
      ≡ hash_of_block hashing b
unfolding hashed cal_block_hash fill_in_header commit_txs_root
hash_of_block-cross_shard_txs hashing b txs root = ground arith
