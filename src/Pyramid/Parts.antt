-- ===== src/Pyramid/Parts.antt =====
-- source/pyramid/types/block-part.go and SplitByteArray of source/utils/compare-bytes.go: a block cut
-- into parts that carry Merkle proofs, and put together again. The Merkle tree and the encoding,
-- validation and hash of a block are parameters. An int64 is the integer it stands for.
pub mod Split
pub mod Fill
mod Tests
use urd_code.Prelude.{
  ℕ, zero, suc, ◌+◌, Bool, true, false, not, ◌&&◌, Option, none, some, List, [], ◌∷◌, ◌++◌, map,
  if◌then◌else◌, ◌==◌, get_elem?, set, replicate, length, take, drop,
}
use urd_code.Prelude.Int.{ℤ, pos, negsuc, eqb_ℤ, ltb_ℤ, is_negative}
use urd_code.Prelude.Bytes.{Bytes, bytes_eq}
use urd_code.Prelude.Calls.{Call, returns, panics, ◌>>=◌}

pub record Proof : Type 0 where
  pub total : ℤ
  pub index : ℤ
  pub leaf_hash : Bytes
  pub aunts : List Bytes

pub record Part : Type 0 where
  pub chain_id : Bytes
  pub height : ℤ
  pub round : ℤ
  pub bytes : Bytes
  pub proof : Proof

pub record PartSetHeader : Type 0 where
  pub height : ℤ
  pub round : ℤ
  pub total : ℤ
  pub root : Bytes
  pub chain_id : Bytes

pub record PartSet : Type 0 where
  pub header : PartSetHeader
  pub parts : List (Option Part)
  pub count : ℕ
  pub block_header_hash : Bytes

pub data PartError : Type 0 where
  duplicated wrong_height wrong_round wrong_proof not_decoded wrong_chain invalid wrong_hash :
      PartError

-- What is used of a block, and of the Merkle tree.
pub record Codec (B : Type 0) : Type 0 where
  pub chain_id : B → Bytes
  pub height : B → ℤ
  pub is_basic : B → Bool
  pub hash : B → Bytes
  pub proto_bytes : B → Bytes
  -- `NewBlockFromBytes`: nil where the bytes cannot be read, and a panic where they have no header.
  pub from_bytes : Bytes → Call (Option B)
  pub verify_proof : Proof → Bytes → Bytes → Bool
  pub proofs : List Bytes → Bytes × List Proof

pub data FieldError : Type 0 where
  bad_height bad_round bad_total empty_bytes empty_chain bad_root bad_proof : FieldError

abbrev is_empty : Bytes → Bool
is_empty [] = true
is_empty (_ ∷ _) = false

-- `Part.ValidateBasic`; the proof's own test is a parameter.
unfoldable pub validate_part : (Proof → Bool) → Part → Option FieldError
validate_part is_basic_proof p =
    if is_negative p.height
    then some bad_height
    else if is_negative p.round
    then some bad_round
    else if is_empty p.bytes
    then some empty_bytes
    else if is_empty p.chain_id
    then some empty_chain
    else if is_basic_proof p.proof
    then none
    else some bad_proof

-- `PartSetHeader.Equal`
unfoldable pub header_equal : PartSetHeader → PartSetHeader → Bool
unfolding bytes_eq
header_equal p other =
    bytes_eq p.chain_id other.chain_id
    && eqb_ℤ p.height other.height
    && eqb_ℤ p.round other.round
    && eqb_ℤ p.total other.total
    && bytes_eq p.root other.root

-- `PartSetHeader.ValidateBasic`; a hash has `hash_size` bytes.
unfoldable pub validate_header : ℕ → PartSetHeader → Option FieldError
validate_header hash_size p =
    if is_negative p.height
    then some bad_height
    else if is_negative p.round
    then some bad_round
    else if is_negative p.total
    then some bad_total
    else if is_empty p.chain_id
    then some empty_chain
    else if length p.root == hash_size
    then none
    else some bad_root

-- `make([]*Part, h.Total)` panics for a negative number.
unfoldable pub new_part_set : PartSetHeader → Bytes → Call PartSet
new_part_set h header_hash = elim h.total [
  | pos n ↦
      returns (record {
        header = h;
        parts = replicate n none;
        count = 0;
        block_header_hash = header_hash;
      })
  | negsuc _ ↦ panics
]

-- The pieces of `size` bytes; the fuel is the number of bytes that are left.
unfoldable pub split_from : ℕ → Bytes → ℕ → List Bytes
split_from zero data_bytes size = []
split_from (suc fuel) [] size = []
split_from (suc fuel) (b ∷ bs) size = take size (b ∷ bs) ∷ split_from fuel (drop size (b ∷ bs)) size

unfoldable pub split_byte_array : Bytes → ℕ → List Bytes
unfolding split_from
split_byte_array data_bytes size = split_from (length data_bytes) data_bytes size

-- `bytes.Join(blockBytes, nil)`
unfoldable pub join : List Bytes → Bytes
join [] = []
join (b ∷ bs) = b ++ join bs

abbrev pub is_complete : PartSet → Bool
is_complete ps = eqb_ℤ ps.header.total (pos ps.count)

-- `ps.Parts[i] != nil`
abbrev pub has_part : List (Option Part) → ℤ → Call Bool
has_part parts (pos i) = elim (get_elem? parts i) [
  | none ↦ panics
  | some slot ↦ elim slot [ none ↦ returns false | some _ ↦ returns true ]
]
has_part parts (negsuc _) = panics

-- `ps.Parts[i] = p; ps.count++`
abbrev pub put_part : PartSet → ℤ → Part → Call (PartSet × Option PartError)
put_part ps (pos i) p = elim (get_elem? ps.parts i) [
  | none ↦ panics
  | some _ ↦ returns (record ps { parts = set ps.parts i (some p); count = suc ps.count }, none)
]
put_part ps (negsuc _) p = panics

-- `part.Bytes` of every slot; a slot that is nil panics.
unfoldable pub part_bytes : List (Option Part) → Call (List Bytes)
part_bytes [] = returns []
part_bytes (none ∷ parts) = panics
part_bytes (some p ∷ parts) = do rest ← part_bytes parts; returns (p.bytes ∷ rest)

-- The parts of the pieces. A proof that is missing panics.
unfoldable pub make_parts : Bytes → ℤ → ℤ → List Bytes → List Proof → Call (List (Option Part))
make_parts chain height round [] proofs = returns []
make_parts chain height round (bz ∷ bzs) [] = panics
make_parts chain height round (bz ∷ bzs) (proof ∷ proofs) = do
  rest ← make_parts chain height round bzs proofs
  let part : Part = record {
    chain_id = chain;
    height = height;
    round = round;
    bytes = bz;
    proof = proof;
  }
  returns (some part ∷ rest)

module _ {B : Type 0} (codec : Codec B) where
  unfoldable pub verify_part : Part → Bytes → ℤ → Bytes → Bool
  unfolding bytes_eq
  verify_part p root total chain =
      eqb_ℤ total p.proof.total
      && bytes_eq chain p.chain_id
      && codec.verify_proof p.proof root p.bytes

  -- The tests after that for a duplicate.
  unfoldable pub add_new : PartSet → Part → Call (PartSet × Option PartError)
  unfolding verify_part
  add_new ps p =
      if not (eqb_ℤ ps.header.height p.height)
      then returns (ps, some wrong_height)
      else if not (eqb_ℤ ps.header.round p.round)
      then returns (ps, some wrong_round)
      else if not (verify_part p ps.header.root ps.header.total ps.header.chain_id)
      then returns (ps, some wrong_proof)
      else put_part ps p.proof.index p

  unfoldable pub add_part : PartSet → Part → Call (PartSet × Option PartError)
  unfolding add_new
  add_part ps p =
      if ltb_ℤ p.proof.index ps.header.total
      then (do
        is_there ← has_part ps.parts p.proof.index
        if is_there then returns (ps, some duplicated) else add_new ps p)
      else add_new ps p

  -- The tests of `GenBlock` on the block that is read.
  unfoldable pub check_block : PartSet → Option B → Option B × Option PartError
  unfolding bytes_eq
  check_block ps none = (none, some not_decoded)
  check_block ps (some block) =
      if not (bytes_eq (codec.chain_id block) ps.header.chain_id)
      then (none, some wrong_chain)
      else if not (eqb_ℤ (codec.height block) ps.header.height)
      then (none, some wrong_height)
      else if not (codec.is_basic block)
      then (some block, some invalid)
      else if not (bytes_eq (codec.hash block) ps.block_header_hash)
      then (some block, some wrong_hash)
      else (some block, none)

  unfoldable pub gen_block : PartSet → Call (Option B × Option PartError)
  unfolding part_bytes join check_block
  gen_block ps =
      if not (is_complete ps)
      then returns (none, none)
      else (do bz ← part_bytes ps.parts; b ← codec.from_bytes (join bz); returns (check_block ps b))

  unfoldable pub part_set_from_block : B → ℕ → ℤ → Call PartSet
  unfolding split_byte_array make_parts
  part_set_from_block b max_part_size round = do
    let bzs = split_byte_array (codec.proto_bytes b) max_part_size
    let (root, proof_list) = codec.proofs bzs
    parts ← make_parts (codec.chain_id b) (codec.height b) round bzs proof_list
    returns (record {
      header = record {
        height = codec.height b;
        round = round;
        total = pos (length parts);
        root = root;
        chain_id = codec.chain_id b;
      };
      parts = parts;
      count = length parts;
      block_header_hash = codec.hash b;
    })
