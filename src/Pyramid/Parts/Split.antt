-- ===== src/Pyramid/Parts/Split.antt =====
-- source/pyramid/types/block-part.go: bytes cut into pieces and a block into parts.
use urd_code.Prelude.{
  ℕ, zero, suc, ◌≡◌, ◌≤◌, ◌<◌, refl, ap, ◌∙◌, true, Option, none, some, List, [], ◌∷◌, ◌++◌, arith,
  length, take, drop, take-append-drop, length-drop,
}
use urd_code.Prelude.Int.{ℤ, eqb_ℤ_iff}
use urd_code.Prelude.Bytes.{Bytes, bytes_eq_refl}
use urd_code.Prelude.Calls.{returns, ◌>>=◌}
use urd_code.Pyramid.Parts.{
  Proof, Part, Codec, split_from, split_byte_array, join, part_bytes, make_parts, check_block,
  gen_block, part_set_from_block,
}

join-split_from :
    (fuel : ℕ) (bs : Bytes) (size : ℕ)
    → 0 < size
    → length bs ≤ fuel
    → join (split_from fuel bs size) ≡ bs
unfolding join split_from
join-split_from zero [] size h e = refl
join-split_from zero (b ∷ bs) size h e = absurd (omega arith)
join-split_from (suc fuel) [] size h e = refl
join-split_from (suc fuel) (b ∷ bs) size h e =
    ap (λ r. take size (b ∷ bs) ++ r)
      (join-split_from fuel (drop size (b ∷ bs)) size h (omega (arith, length-drop size (b ∷ bs))))
    ∙ take-append-drop size (b ∷ bs)

-- The pieces of a byte sequence, put one after the other, are the sequence.
join-split_byte_array : (bs : Bytes) (size : ℕ) → 0 < size → join (split_byte_array bs size) ≡ bs
unfolding split_byte_array
join-split_byte_array bs size h = join-split_from (length bs) bs size h (omega arith)

-- With a proof for each piece, the parts are made and carry the pieces.
part_bytes-make_parts :
    (chain : Bytes) (height round : ℤ) (bzs : List Bytes) (proofs : List Proof)
    → length bzs ≤ length proofs
    → (parts : List (Option Part)) × (make_parts chain height round bzs proofs ≡ returns parts)
      × (part_bytes parts ≡ returns bzs)
unfolding make_parts part_bytes
part_bytes-make_parts chain height round [] proofs h = ([], refl, refl)
part_bytes-make_parts chain height round (bz ∷ bzs) [] h = absurd (omega arith)
part_bytes-make_parts chain height round (bz ∷ bzs) (proof ∷ proofs) h =
    let (parts, made, same) = part_bytes-make_parts chain height round bzs proofs (omega arith) in
    (
      some (record { chain_id = chain; height = height; round = round; bytes = bz; proof = proof })
          ∷ parts,
      ground (arith, made),
      ap (λ c. c >>= λ rest. returns (bz ∷ rest)) same,
    )

-- A block that is cut into parts is read from them again.
pub gen_block-part_set_from_block :
    {B : Type 0} (codec : Codec B) (b : B) (size : ℕ) (round : ℤ)
    → 0 < size
    → codec.from_bytes (codec.proto_bytes b) ≡ returns (some b)
    → codec.is_basic b ≡ true
    → ((bzs : List Bytes) → length (codec.proofs bzs).1 ≡ length bzs)
    → (part_set_from_block codec b size round >>= gen_block codec) ≡ returns (some b, none)
unfolding part_set_from_block gen_block check_block
gen_block-part_set_from_block codec b size round h reads basic proofs =
    let bzs = split_byte_array (codec.proto_bytes b) size in
    let (parts, made, same) =
      part_bytes-make_parts (codec.chain_id b) (codec.height b) round bzs (codec.proofs bzs).1
        (omega (arith, proofs bzs)) in
    ground (
      arith,
      join-split_byte_array (codec.proto_bytes b) size h,
      bytes_eq_refl (codec.chain_id b),
      bytes_eq_refl (codec.hash b),
      eqb_ℤ_iff (codec.height b) (codec.height b),
    )
