-- ===== src/Urd/Parts.antt =====
-- source/urd/types/block-part.go: the parts of a block. They have the shape of Pyramid's, whose types
-- are used here with the view in the place of the height; what is verified comes in another order.
use urd_code.Prelude.{ℕ, Bool, not, ◌&&◌, Option, none, some, if◌then◌else◌, length}
use urd_code.Prelude.Int.{ℤ, pos, eqb_ℤ, ltb_ℤ}
use urd_code.Prelude.Bytes.{Bytes, bytes_eq}
use urd_code.Prelude.Calls.{Call, returns, ◌>>=◌}
use urd_code.Pyramid.Parts.{
  Part, PartSet, PartError, duplicated, wrong_height, wrong_round, wrong_proof, not_decoded,
  wrong_chain, invalid, wrong_hash, has_part, put_part, is_complete, part_bytes, join, make_parts,
  split_byte_array,
}
use urd_code.Urd.Block.{Hashing, Block, fill_in_header, hashed}
use urd_code.Urd.Block.Check.{validate_block}

-- The hashing of blocks and their encoding.
pub record Codec : Type 0 where
  pub hashing : Hashing
  pub block_bytes : Block → Bytes
  -- `NewBlockFromBytes`, which panics on bytes without a header.
  pub block_from_bytes : Bytes → Call (Option Block)

module _ (codec : Codec) where
  -- `Part.Verify`
  unfoldable pub verify_part : Part → Bytes → ℤ → Bytes → Bool
  unfolding bytes_eq
  verify_part p root total chain =
      codec.hashing.verifies p.proof root p.bytes
      && eqb_ℤ total p.proof.total
      && bytes_eq chain p.chain_id

  -- The tests after that for a duplicate.
  unfoldable pub add_new : PartSet → Part → Call (PartSet × Option PartError)
  unfolding verify_part
  add_new ps p =
      if not (eqb_ℤ ps.header.height p.height)
      then returns (ps, some wrong_height)
      else if not (eqb_ℤ ps.header.round p.round)
      then returns (ps, some wrong_round)
      else if not (verify_part p ps.header.root ps.header.total ps.header.chain_id)
      then returns (ps, some wrong_proof)
      else put_part ps p.proof.index p

  -- `PartSet.AddPart`
  unfoldable pub add_part : PartSet → Part → Call (PartSet × Option PartError)
  unfolding add_new
  add_part ps p =
      if ltb_ℤ p.proof.index ps.header.total
      then (do
        is_there ← has_part ps.parts p.proof.index
        if is_there then returns (ps, some duplicated) else add_new ps p)
      else add_new ps p

  -- The tests of `GenBlock` on the block that is read. `Hash` keeps the hash in it.
  unfoldable pub check_block : PartSet → Option Block → Call (Option Block × Option PartError)
  unfolding bytes_eq validate_block hashed
  check_block ps none = returns (none, some not_decoded)
  check_block ps (some b) =
      if not (bytes_eq b.header.chain_id ps.header.chain_id)
      then returns (none, some wrong_chain)
      else if not (eqb_ℤ b.header.view ps.header.height)
      then returns (none, some wrong_height)
      else (do
        e ← validate_block codec.hashing b
        elim e [
          | some _ ↦ returns (some b, some invalid)
          | none ↦ do
            done ← hashed codec.hashing b
            if not (bytes_eq done.header.hash ps.block_header_hash)
                then returns (some done, some wrong_hash)
                else returns (some done, none)
        ])

  unfoldable pub gen_block : PartSet → Call (Option Block × Option PartError)
  unfolding part_bytes join check_block
  gen_block ps =
      if not (is_complete ps)
      then returns (none, none)
      else (do bz ← part_bytes ps.parts; b ← codec.block_from_bytes (join bz); check_block ps b)

  -- `PartSetFromBlock`. `ProtoBytes` fills the header of the block.
  unfoldable pub part_set_from_block : Block → ℕ → ℤ → Call PartSet
  unfolding fill_in_header split_byte_array make_parts hashed
  part_set_from_block b max_part_size round = do
    filled ← fill_in_header codec.hashing b
    let bzs = split_byte_array (codec.block_bytes filled) max_part_size
    let (root, proof_list) = codec.hashing.proofs bzs
    parts ← make_parts b.header.chain_id b.header.view round bzs proof_list
    done ← hashed codec.hashing filled
    returns (record {
      header = record {
        height = b.header.view;
        round = round;
        total = pos (length parts);
        root = root;
        chain_id = b.header.chain_id;
      };
      parts = parts;
      count = length parts;
      block_header_hash = done.header.hash;
    })
