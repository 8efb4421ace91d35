-- ===== src/Pyramid/Block.antt =====
-- source/pyramid/types/block.go and tx.go: blocks and what their hash is made of. The Merkle tree,
-- the hash of bytes and the wire form of a time are parameters. A time is the nanoseconds since the
-- zero time. The hash is kept in the block, so hashing returns the block too.
pub mod Binding
mod Tests
use urd_code.Prelude.{
  ℕ, suc, Bool, true, false, not, Option, none, some, List, [], ◌∷◌, map, if◌then◌else◌, ◌==◌,
  length,
}
use urd_code.Prelude.Int.{ℤ, pos, negsuc, suc_ℤ}
use urd_code.Prelude.Bytes.{Bytes, bytes_eq}
use urd_code.Convert.{Kind, int8, int64, other, int_to_bytes}

-- `BLOCKTYPE_NONE` and what follows it, by their numbers.
abbrev pub type_inner_shard : ℤ
type_inner_shard = pos 3

abbrev pub type_cross_shard : ℤ
type_cross_shard = pos 4

abbrev pub type_b_commit : ℤ
type_b_commit = pos 5

abbrev pub type_i_commit : ℤ
type_i_commit = pos 6

abbrev pub type_i_accept : ℤ
type_i_accept = pos 7

abbrev pub hash_size : ℕ
hash_size = 32

pub record Header : Type 0 where
  pub block_type : ℤ
  pub hash_pointer : Bytes
  pub chain_id : Bytes
  pub height : ℤ
  pub time : ℕ
  pub body_root : Bytes
  pub cross_shard_body_root : Bytes
  pub state_root : Bytes
  pub receipt_root : Bytes
  pub relation_root : Bytes

pub record Relation : Type 0 where
  pub related_commit_status : List Bytes
  pub related_hash : List Bytes
  pub my_commit_status : Bytes

pub record CrossShardBody : Type 0 where
  pub cross_shard_txs : List Bytes
  pub cross_shard_datas : List Bytes

pub record Commit : Type 0 where
  pub height : ℤ
  pub round : ℤ
  pub block_hash : Bytes
  pub sigs : List Bytes
  pub hash : Option Bytes

pub record Block : Type 0 where
  pub header : Header
  pub body_txs : List Bytes
  pub cross_shard_body : CrossShardBody
  pub relation : Relation
  pub blockhash : Bytes

abbrev pub empty_header : Header
empty_header = record {
  block_type = pos 0;
  hash_pointer = [];
  chain_id = [];
  height = pos 0;
  time = 0;
  body_root = [];
  cross_shard_body_root = [];
  state_root = [];
  receipt_root = [];
  relation_root = [];
}

-- `new(types.Block)`
abbrev pub new_block : Block
new_block = record {
  header = empty_header;
  body_txs = [];
  cross_shard_body = record { cross_shard_txs = []; cross_shard_datas = [] };
  relation = record { related_commit_status = []; related_hash = []; my_commit_status = [] };
  blockhash = [];
}

-- `HashFromByteSlices` of the Merkle tree, `Sum`, and `StdTimeMarshal`.
pub record Hashing : Type 0 where
  pub merkle : List Bytes → Bytes
  pub sum : Bytes → Bytes
  pub time_bytes : ℕ → Option Bytes

abbrev pub is_hash : Bytes → Bool
is_hash b = length b == hash_size

-- `Txs.Index`
unfoldable pub index_from : ℤ → List Bytes → Bytes → ℤ
unfolding bytes_eq
index_from i [] tx = negsuc 0
index_from i (t ∷ txs) tx = if bytes_eq t tx then i else index_from (suc_ℤ i) txs tx

module _ (hashing : Hashing) where
  -- `Txs.Hash`
  unfoldable pub txs_hash : List Bytes → Bytes
  txs_hash txs = hashing.merkle (map hashing.sum txs)

  abbrev pub header_leaves : Header → Bytes → List Bytes
  header_leaves h time =
      int_to_bytes int8 h.block_type
      ∷ h.hash_pointer
      ∷ h.chain_id
      ∷ int_to_bytes int64 h.height
      ∷ time
      ∷ h.body_root
      ∷ h.cross_shard_body_root
      ∷ h.state_root
      ∷ h.receipt_root
      ∷ h.relation_root
      ∷ []

  -- A time that is not encoded gives nil.
  unfoldable pub header_hash : Header → Bytes
  unfolding int_to_bytes
  header_hash h = elim (hashing.time_bytes h.time) [
    | none ↦ []
    | some time ↦ hashing.merkle (header_leaves h time)
  ]

  unfoldable pub relation_hash : Relation → Bytes
  relation_hash r = hashing.merkle (
      hashing.merkle r.related_commit_status
      ∷ hashing.merkle r.related_hash
      ∷ r.my_commit_status
      ∷ [])

  unfoldable pub cross_shard_body_hash : CrossShardBody → Bytes
  unfolding txs_hash
  cross_shard_body_hash b =
      hashing.merkle (txs_hash b.cross_shard_txs ∷ hashing.merkle b.cross_shard_datas ∷ [])

  -- The round is an `int`, which `IntToBytes` does not write.
  unfoldable pub commit_hash : Commit → Bytes
  unfolding int_to_bytes
  commit_hash c = elim c.hash [
    | some h ↦ h
    | none ↦ hashing.merkle (
        int_to_bytes int64 c.height
        ∷ int_to_bytes other c.round
        ∷ c.block_hash
        ∷ hashing.merkle c.sigs
        ∷ [])
  ]

  unfoldable pub fill_header : Block → Header
  unfolding txs_hash relation_hash cross_shard_body_hash
  fill_header b = record (b.header) {
    body_root = if is_hash b.header.body_root then b.header.body_root else txs_hash b.body_txs;
    receipt_root =
        if is_hash b.header.relation_root then b.header.receipt_root else relation_hash b.relation;
    cross_shard_body_root =
        if is_hash b.header.cross_shard_body_root
        then b.header.cross_shard_body_root
        else cross_shard_body_hash b.cross_shard_body;
  }

  -- `Block.Hash`: the block with its header filled and its hash kept, and the hash.
  unfoldable pub block_hash : Block → Block × Bytes
  unfolding fill_header header_hash
  block_hash b =
      let h = fill_header b in
      let hash = if is_hash b.blockhash then b.blockhash else header_hash h in
      (record b { header = h; blockhash = hash }, hash)
