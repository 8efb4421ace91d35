-- ===== src/Urd/BlockData.antt =====
-- source/urd/consensus/block_datas.go: the blocks that are collected by view and round, the parts
-- that come before their header, and the messages between shards of the present view and of the two
-- before it. A map that is nil is read like an empty one, and is made before it is written.
pub mod Replay
pub mod Current
mod Tests
use urd_code.Prelude.{
  ℕ, Bool, false, not, Option, none, some, List, [], ◌∷◌, ◌++◌, if◌then◌else◌, ◌==◌, length,
}
use urd_code.Prelude.Int.{ℤ}
use urd_code.Prelude.Bytes.{Bytes}
use urd_code.Prelude.Maps.{Map}
use urd_code.Prelude.IntMaps.{IntMap, find_in, put_in, prune_in, is_before}
use urd_code.Prelude.Calls.{Call, returns, ◌>>=◌}
use urd_code.Pyramid.Parts.{Part, PartSet, PartSetHeader, PartError, new_part_set, is_complete}
use urd_code.Urd.Block.{Block, CrossShardMessage}
use urd_code.Urd.Parts.{Codec, add_part, gen_block, part_set_from_block}

pub record BlockData : Type 0 where
  pub retain_view : ℤ
  pub retain_round : ℤ
  pub blocks : IntMap (IntMap PartSet)
  pub retain_block_parts : IntMap (IntMap (List Part))
  pub last_hash : Map Bytes
  pub finished : Map CrossShardMessage
  pub j_1finished : Map CrossShardMessage
  pub j_2finished : Map CrossShardMessage
  pub j_cross_shard_txs : List (List Bytes)
  pub j_1_cross_shard_txs : List (List Bytes)
  pub j_2_cross_shard_txs : List (List Bytes)

pub data DataError : Type 0 where
  is_old already_exists no_part_set no_block : DataError
  part_error : PartError → DataError

unfoldable pub new_block_data : ℤ → ℤ → Map Bytes → Map CrossShardMessage → BlockData
new_block_data view round last_hash finished = record {
  retain_view = view;
  retain_round = round;
  blocks = [];
  retain_block_parts = [];
  last_hash = last_hash;
  finished = finished;
  j_1finished = [];
  j_2finished = [];
  j_cross_shard_txs = [];
  j_1_cross_shard_txs = [];
  j_2_cross_shard_txs = [];
}

abbrev pub old : BlockData → ℤ → ℤ → Bool
old bd v r = is_before v r bd.retain_view bd.retain_round

abbrev pub parts_of : Option (List Part) → List Part
parts_of none = []
parts_of (some ps) = ps

unfoldable pub append_part : Part → BlockData → BlockData
unfolding find_in put_in
append_part p bd = if old bd p.height p.round then bd else record bd {
  retain_block_parts =
      let before = parts_of (find_in p.height p.round bd.retain_block_parts) in
      put_in p.height p.round (before ++ p ∷ []) bd.retain_block_parts;
}

abbrev pub part_error_of : Option PartError → Option DataError
part_error_of none = none
part_error_of (some e) = some (part_error e)

-- `isCrossShardMessageComplete`
abbrev pub is_cross_shard_complete : BlockData → Bool
is_cross_shard_complete bd = length bd.finished == length bd.last_hash

unfoldable pub is_block_complete : ℤ → ℤ → BlockData → Bool
unfolding find_in
is_block_complete view round bd = elim (find_in view round bd.blocks) [
  | none ↦ false
  | some ps ↦ is_complete ps
]

unfoldable pub prune : ℤ → ℤ → BlockData → BlockData
unfolding prune_in
prune view round bd = record bd {
  blocks = prune_in view round bd.blocks;
  retain_block_parts = prune_in view round bd.retain_block_parts;
}

unfoldable pub next : ℤ → ℤ → BlockData → BlockData
unfolding prune
next view round bd = record (prune view round bd) {
  j_2finished = bd.j_1finished;
  j_1finished = bd.finished;
  finished = [];
  j_2_cross_shard_txs = bd.j_1_cross_shard_txs;
  j_1_cross_shard_txs = bd.j_cross_shard_txs;
  j_cross_shard_txs = [];
  retain_view = view;
  retain_round = round;
}

unfoldable pub add_part_set : PartSet → BlockData → BlockData × Option DataError
unfolding find_in put_in
add_part_set ps bd =
    let h = ps.header in
    if old bd h.height h.round
    then (bd, some is_old)
    else elim (find_in h.height h.round bd.blocks) [
      | none ↦ (record bd { blocks = put_in h.height h.round ps bd.blocks }, none)
      | some _ ↦ (bd, some already_exists)
    ]

module _ (codec : Codec) where
  -- `PartSet.AddPart` writes to the part set that the map points to.
  abbrev pub add_to : PartSet → Part → BlockData → Call (BlockData × Option DataError)
  add_to ps p bd = do
    (ps', e) ← add_part codec ps p
    returns (record bd { blocks = put_in p.height p.round ps' bd.blocks }, part_error_of e)

  -- `addPart`: a part that comes before its header is kept, and an error is returned.
  unfoldable pub add_data_part : Part → BlockData → Call (BlockData × Option DataError)
  unfolding find_in put_in append_part add_part
  add_data_part p bd =
      if old bd p.height p.round
      then returns (bd, some is_old)
      else elim (find_in p.height p.round bd.blocks) [
        | none ↦ returns (append_part p bd, some no_part_set)
        | some ps ↦ add_to ps p bd
      ]

  -- The loop over the parts that came in advance; an error is printed.
  unfoldable pub replay : List Part → BlockData → Call BlockData
  unfolding add_data_part
  replay [] bd = returns bd
  replay (p ∷ ps) bd = do (bd', _) ← add_data_part p bd; replay ps bd'

  unfoldable pub add_part_set_header :
      PartSetHeader → Bytes → BlockData → Call (BlockData × Option DataError)
  unfolding find_in put_in new_part_set replay
  add_part_set_header h header_hash bd =
      if old bd h.height h.round
      then returns (bd, some is_old)
      else elim (find_in h.height h.round bd.blocks) [
        | some _ ↦ returns (bd, some already_exists)
        | none ↦ do
          ps ← new_part_set h header_hash
          bd' ←
              replay (parts_of (find_in h.height h.round bd.retain_block_parts))
                (record bd { blocks = put_in h.height h.round ps bd.blocks })
          returns (bd', none)
      ]

  -- `addBlock`
  unfoldable pub add_block :
      Block → ℕ → ℤ → BlockData → Call (BlockData × PartSet × Option DataError)
  unfolding part_set_from_block add_part_set
  add_block b size round bd = do
    ps ← part_set_from_block codec b size round
    let (bd', e) = add_part_set ps bd
    returns (bd', ps, e)

  -- `getBlock`; `GenBlock` returns an error or a block where the parts are complete.
  unfoldable pub get_block : ℤ → ℤ → BlockData → Call (Option Block × Option DataError)
  unfolding find_in gen_block
  get_block view round bd = elim (find_in view round bd.blocks) [
    | none ↦ returns (none, some no_block)
    | some ps ↦
        if not (is_complete ps)
        then returns (none, some no_block)
        else (do (b, e) ← gen_block codec ps; returns (b, part_error_of e))
  ]
