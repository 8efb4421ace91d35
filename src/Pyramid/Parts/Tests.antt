-- ===== src/Pyramid/Parts/Tests.antt =====
-- Runs of source/pyramid/types/block-part.go: a block is its bytes, and every proof verifies.
use urd_code.Prelude.{
  List, length, ◌↔◌, ◌≡◌, refl, true, Option, none, some, [], ◌∷◌, map, arith, length-map,
}
use urd_code.Prelude.Int.{pos}
use urd_code.Prelude.Bytes.{Bytes}
use urd_code.Prelude.Calls.{Call, returns, panics, ◌>>=◌}
use urd_code.Pyramid.Parts.{
  part_bytes, join, Proof, Part, PartSet, PartSetHeader, Codec, add_part, gen_block,
  part_set_from_block,
}
use urd_code.Pyramid.Parts.Split.{gen_block-part_set_from_block}
use urd_code.Pyramid.Parts.Fill.{IsValid, filled, gen_block-panics}

abbrev proof_of : Bytes → Proof
proof_of bz = record { total = pos 2; index = pos 0; leaf_hash = bz; aunts = [] }

-- Bytes without a header panic.
abbrev decode : Bytes → Call (Option Bytes)
decode [] = panics
decode (b ∷ bs) = returns (some (b ∷ bs))

abbrev codec : Codec Bytes
codec = record {
  chain_id = λ b. 5 ∷ [];
  height = λ b. pos 9;
  is_basic = λ b. true;
  hash = λ b. b;
  proto_bytes = λ b. b;
  from_bytes = decode;
  verify_proof = λ proof root bz. true;
  proofs = λ bzs. ([], map proof_of bzs);
}

abbrev block : Bytes
block = 1 ∷ 2 ∷ 3 ∷ []

abbrev header : PartSetHeader
header = record { height = pos 9; round = pos 0; total = pos 2; root = []; chain_id = 5 ∷ [] }

abbrev part : Part
part = record {
  chain_id = 5 ∷ [];
  height = pos 9;
  round = pos 0;
  bytes = 1 ∷ 2 ∷ [];
  proof = proof_of (1 ∷ 2 ∷ []);
}

abbrev empty_set : PartSet
empty_set = record {
  header = header;
  parts = none ∷ none ∷ [];
  count = 0;
  block_header_hash = block;
}

abbrev one_part : PartSet
one_part = record {
  header = header;
  parts = some part ∷ none ∷ [];
  count = 1;
  block_header_hash = block;
}

abbrev empty_valid : IsValid empty_set
unfolding filled
empty_valid = record { slots = refl; counted = refl }

added : add_part codec empty_set part ≡ returns (one_part, none)
unfolding add_part
added = refl

-- No part is asked for, and the decoder panics on no bytes.
abbrev no_parts : PartSet
no_parts = record {
  header = record header { total = pos 0 };
  parts = [];
  count = 0;
  block_header_hash = block;
}

abbrev none_valid : IsValid no_parts
unfolding filled
none_valid = record { slots = refl; counted = refl }

gen_block-panics_example : (gen_block codec no_parts ≡ panics) ↔ (
    (no_parts.count ≡ length no_parts.parts)
    × ((bzs : List Bytes) × (part_bytes [] ≡ returns bzs) × (codec.from_bytes (join bzs) ≡ panics)))
gen_block-panics_example = gen_block-panics codec no_parts none_valid

test_panics : gen_block codec no_parts ≡ panics
unfolding gen_block part_bytes join
test_panics = refl

gen_block-part_set_from_block_example :
    (part_set_from_block codec block 2 (pos 0) >>= gen_block codec) ≡ returns (some block, none)
gen_block-part_set_from_block_example =
    gen_block-part_set_from_block codec block 2 (pos 0) (omega arith) refl refl
      (λ bzs. length-map bzs proof_of)
