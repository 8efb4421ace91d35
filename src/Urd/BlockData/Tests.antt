-- ===== src/Urd/BlockData/Tests.antt =====
-- A run of source/urd/consensus/block_datas.go: a part that comes before its header.
use urd_code.Prelude.{◌≡◌, refl, true, false, Option, none, some, List, [], ◌∷◌}
use urd_code.Prelude.Int.{pos}
use urd_code.Prelude.IntMaps.{find_in}
use urd_code.Prelude.Calls.{returns}
use urd_code.Pyramid.Parts.{Part, PartSet, PartSetHeader}
use urd_code.Urd.Parts.{Codec}
use urd_code.Urd.BlockData.{BlockData, new_block_data, add_part_set_header, replay, old}
use urd_code.Urd.BlockData.Replay.{AllAt, add_part_set_header-replay}

abbrev codec : Codec
codec = record {
  hashing = record {
    merkle = λ bs. 8 ∷ [];
    proofs = λ bs. (7 ∷ [], []);
    verifies = λ p root leaf. true;
    root_of = λ p. [];
    aggregated_bytes = λ v. [];
    time_bytes = λ t. [];
  };
  block_bytes = λ b. 5 ∷ [];
  block_from_bytes = λ bz. returns none;
}

abbrev header : PartSetHeader
header = record { height = pos 2; round = pos 0; total = pos 1; root = []; chain_id = 1 ∷ [] }

abbrev part : Part
part = record {
  chain_id = 1 ∷ [];
  height = pos 2;
  round = pos 0;
  bytes = 5 ∷ [];
  proof = record { total = pos 1; index = pos 0; leaf_hash = []; aunts = [] };
}

abbrev empty : BlockData
empty = new_block_data (pos 1) (pos 0) [] []

abbrev part_set : List (Option Part) → PartSet
part_set slots = record { header = header; parts = slots; count = 0; block_header_hash = 7 ∷ [] }

abbrev known : BlockData
known = record empty { blocks = (pos 2, (pos 0, part_set (none ∷ [])) ∷ []) ∷ [] }

abbrev filled : BlockData
filled = record empty {
  blocks = (pos 2, (pos 0, record (part_set (some part ∷ [])) { count = 1 }) ∷ []) ∷ [];
}

all_at : AllAt header (part ∷ [])
unfolding AllAt
all_at = (refl, refl, tt)

fresh : old empty (pos 2) (pos 0) ≡ false
unfolding new_block_data
fresh = refl

no_set : find_in (pos 2) (pos 0) empty.blocks ≡ none
unfolding find_in new_block_data
no_set = refl

no_parts : find_in (pos 2) (pos 0) empty.retain_block_parts ≡ none
unfolding find_in new_block_data
no_parts = refl

takes_header : add_part_set_header codec header (7 ∷ []) empty ≡ returns (known, none)
unfolding add_part_set_header new_block_data
takes_header = refl

takes_part : replay codec (part ∷ []) known ≡ returns filled
unfolding replay new_block_data
takes_part = refl

add_part_set_header-replay_example :
    (early bd3 : BlockData) × (replay codec (part ∷ []) empty ≡ returns early)
    × (add_part_set_header codec header (7 ∷ []) early ≡ returns (bd3, none))
    × (bd3.blocks ≡ filled.blocks)
add_part_set_header-replay_example =
    add_part_set_header-replay codec header (7 ∷ []) (part ∷ []) empty known filled all_at fresh
      no_set no_parts takes_header takes_part
