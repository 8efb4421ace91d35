-- ===== src/Pyramid/Consensus/Run/CrossShard.antt =====
-- source/pyramid/consensus/main.go: what a cross-shard block has to show to get into the pool.
use urd_code.Prelude.{ℕ, ◌≡◌, true, false, some, arith}
use urd_code.Prelude.Bytes.{bytes_eq_refl}
use urd_code.Prelude.Maps.{lookup, insert, lookup-insert}
use urd_code.Prelude.Calls.{returns}
use urd_code.Pyramid.Block.{Block, block_hash}
use urd_code.Pyramid.Consensus.{
  Env, ConsensusState, CrossShardBlock, is_i, is_related, verify_collective,
}
use urd_code.Pyramid.Consensus.Messages.{transits, receive_cross_shard_block}

module _ {W : Type 0} (env : Env W) where
  -- An I shard that holds the signatures of a related shard right takes any block with them that its
  -- store does not have: the block goes into the pool under its own hash, signed or not.
  pub receive_cross_shard_block-takes_any :
      (fuel : ℕ) (m : CrossShardBlock) (b : Block) (s : ConsensusState W)
      → is_i env ≡ true
      → is_related env m.collective_signatures.header.chain_id ≡ true
      → verify_collective env s m.collective_signatures ≡ returns true
      → env.has_block s.world (block_hash env.hashing b).1 ≡ false
      → (s' : ConsensusState W) × (receive_cross_shard_block env fuel (record m { block = b }) s
          ≡ returns (s', transits))
        × (lookup (block_hash env.hashing b).1 s'.cross_shard_block_pool
            ≡ some (record m { block = (block_hash env.hashing b).0 }))
  unfolding receive_cross_shard_block
  receive_cross_shard_block-takes_any fuel m b s i related verified new =
      let hash = (block_hash env.hashing b).1 in
      let m' : CrossShardBlock = record m { block = (block_hash env.hashing b).0 } in
      (
        record s { cross_shard_block_pool = insert hash m' s.cross_shard_block_pool },
        ground arith,
        ground (arith, lookup-insert hash hash m' s.cross_shard_block_pool, bytes_eq_refl hash),
      )
