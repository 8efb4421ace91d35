-- ===== src/Pyramid/HeightData/Tests.antt =====
-- A run of source/pyramid/consensus/height_datas.go on a height whose block and votes are there.
use urd_code.Prelude.{◌≡◌, refl, true, none, some, [], ◌∷◌, arith}
use urd_code.Prelude.Int.{pos}
use urd_code.Prelude.Bytes.{Bytes}
use urd_code.Prelude.Calls.{returns}
use urd_code.Pyramid.VoteSet.{VoteSet}
use urd_code.Pyramid.Parts.{PartSet, PartSetHeader}
use urd_code.Pyramid.Votes.{Proposal, proposal}
use urd_code.Pyramid.HeightData.{HeightData, finish_precommit}
use urd_code.Pyramid.HeightData.Steps.{Backed}

abbrev votes : VoteSet
votes = record {
  validator_num = 0;
  total_votes = 0;
  votes = [];
  block_header_hash_cnt = [];
  bit_vector = none;
  has_mj23 = true;
  mj23_key = 1 ∷ [];
  mj23_code = true;
}

abbrev header : PartSetHeader
header = record { height = pos 4; round = pos 0; total = pos 0; root = []; chain_id = 5 ∷ [] }

abbrev the_proposal : Proposal
the_proposal = record {
  vote_type = proposal;
  header = header;
  proposer_index = pos 0;
  block_header_hash = 1 ∷ [];
  signature = [];
}

abbrev parts : PartSet
parts = record { header = header; parts = []; count = 0; block_header_hash = 1 ∷ [] }

abbrev ready : HeightData Bytes
ready = record {
  height = pos 4;
  round = pos 0;
  my_chain_id = 5 ∷ [];
  pass_step = 1;
  peer_list = [];
  shard_votes = [];
  all_validator_set = [];
  proposal = some the_proposal;
  prevotes = votes;
  precommits = votes;
  part_set = some parts;
  block = some (1 ∷ []);
  random_header_buffer = [];
}

abbrev passed : HeightData Bytes
passed = record ready { pass_step = 5 }

ready-Backed : Backed ready
ready-Backed = (λ h. absurd (omega arith), λ h. absurd (omega arith), λ h. absurd (omega arith))

finishes : finish_precommit ready ≡ returns (passed, true)
unfolding finish_precommit
finishes = refl
