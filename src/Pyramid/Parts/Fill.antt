-- ===== src/Pyramid/Parts/Fill.antt =====
-- source/pyramid/types/block-part.go: the collection of parts and its invariant.
use mathlib.Core.Path.{subst}
use urd_code.Prelude.{
  ◌↔◌, ◌⊎◌, inl, inr, Bool-cases, Option-cases, ℕ, zero, suc, ◌≡◌, ◌≤◌, ◌<◌, refl, sym, ap, ◌∙◌,
  Option, none, some, List, [], ◌∷◌, arith, length, get_elem?, set, replicate, length-set,
  length-replicate,
}
use urd_code.Prelude.Int.{ℤ, pos, negsuc}
use urd_code.Prelude.Bytes.{Bytes}
use urd_code.Prelude.Calls.{returns, panics, ◌>>=◌, call_cases}
use urd_code.Pyramid.Parts.{
  join, Part, PartSetHeader, PartSet, PartError, Codec, new_part_set, is_complete, put_part,
  part_bytes, add_new, add_part, gen_block,
}

unfoldable pub filled : List (Option Part) → ℕ
filled [] = 0
filled (none ∷ parts) = filled parts
filled (some _ ∷ parts) = suc (filled parts)

pub record IsValid (ps : PartSet) : Type 0 where
  pub slots : ps.header.total ≡ pos (length ps.parts)
  pub counted : ps.count ≡ filled ps.parts

filled-le : (parts : List (Option Part)) → filled parts ≤ length parts
unfolding filled
filled-le [] = omega arith
filled-le (none ∷ parts) = omega (arith, filled-le parts)
filled-le (some _ ∷ parts) = omega (arith, filled-le parts)

filled-replicate : (n : ℕ) → filled (replicate n none) ≡ 0
unfolding filled
filled-replicate zero = refl
filled-replicate (suc n) = filled-replicate n

filled-set :
    (parts : List (Option Part)) (i : ℕ) (p : Part)
    → get_elem? parts i ≡ some none
    → filled (set parts i (some p)) ≡ suc (filled parts)
unfolding filled
filled-set [] i p h = cc
filled-set (none ∷ parts) zero p h = refl
filled-set (some q ∷ parts) zero p h = cc
filled-set (none ∷ parts) (suc i) p h = filled-set parts i p h
filled-set (some q ∷ parts) (suc i) p h = ap suc (filled-set parts i p h)

part_bytes-full :
    (parts : List (Option Part))
    → filled parts ≡ length parts
    → (bz : List Bytes) × (part_bytes parts ≡ returns bz)
unfolding filled part_bytes
part_bytes-full [] h = ([], refl)
part_bytes-full (none ∷ parts) h = absurd (omega (arith, filled-le parts))
part_bytes-full (some p ∷ parts) h =
    let (bz, e) = part_bytes-full parts (omega arith) in
    (p.bytes ∷ bz, ap (λ c. c >>= λ rest. returns (p.bytes ∷ rest)) e)

abbrev fresh : PartSetHeader → Bytes → ℕ → PartSet
fresh h hash n = record {
  header = h;
  parts = replicate n none;
  count = 0;
  block_header_hash = hash;
}

-- A set of parts that is made is valid.
pub new_part_set-IsValid :
    (h : PartSetHeader) (hash : Bytes) (ps : PartSet)
    → new_part_set h hash ≡ returns ps
    → IsValid ps
unfolding new_part_set
new_part_set-IsValid h hash ps e =
    elim h.total as (λ t. h.total ≡ t → IsValid ps) [
      | pos n ↦ λ same.
          let made : ps ≡ fresh h hash n = ground arith in
          subst (λ u. IsValid u) (sym made)
            (record {
              slots = same ∙ ap pos (sym (length-replicate n none));
              counted = sym (filled-replicate n);
            })
      | negsuc n ↦ λ same. absurd (ground arith)
    ]
      refl

-- A valid set panics when it is put together exactly if its count reaches the total and the decoder
-- panics on the joined bytes of its parts, none of which is nil then.
pub gen_block-panics :
    {B : Type 0} (codec : Codec B) (ps : PartSet)
    → IsValid ps
    → (gen_block codec ps ≡ panics) ↔ (
        (ps.count ≡ length ps.parts)
        × ((bzs : List Bytes) × (part_bytes ps.parts ≡ returns bzs)
            × (codec.from_bytes (join bzs) ≡ panics)))
unfolding gen_block
gen_block-panics codec ps valid = elim (Bool-cases (is_complete ps)) [
  | inl complete ↦
      let full : ps.count ≡ length ps.parts = ground (arith, valid.slots) in
      let (bzs, e) = part_bytes-full ps.parts (omega (arith, valid.counted, full)) in
      elim (call_cases (codec.from_bytes (join bzs))) [
        | inl (b, read) ↦
            ((λ h. absurd (ground arith)), λ (_, (bzs', e', bad)). absurd (ground arith))
        | inr bad ↦ ((λ h. (full, (bzs, e, bad))), λ h. ground arith)
      ]
  | inr missing ↦ ((λ h. absurd (ground arith)), λ (full, _). absurd (ground (arith, valid.slots)))
]

-- No part stands at the index.
abbrev Free : List (Option Part) → ℤ → Type 0
Free parts i = (n : ℕ) → i ≡ pos n → (get_elem? parts n ≡ none) ⊎ (get_elem? parts n ≡ some none)

put_part-IsValid :
    (ps ps' : PartSet) (i : ℤ) (p : Part) (e : Option PartError)
    → IsValid ps
    → Free ps.parts i
    → put_part ps i p ≡ returns (ps', e)
    → IsValid ps'
put_part-IsValid ps ps' (pos n) p e valid free h = elim (free n refl) [
  | inl gone ↦ absurd (ground arith)
  | inr empty ↦
      let made : ps' ≡ record ps { parts = set ps.parts n (some p); count = suc ps.count } =
        ground arith in
      subst (λ u. IsValid u) (sym made)
        (record {
          slots = valid.slots ∙ ap pos (sym (length-set ps.parts n (some p)));
          counted = ap suc valid.counted ∙ sym (filled-set ps.parts n p empty);
        })
]
put_part-IsValid ps ps' (negsuc n) p e valid free h = absurd (ground arith)

add_new-IsValid :
    {B : Type 0} (codec : Codec B) (ps ps' : PartSet) (p : Part) (e : Option PartError)
    → IsValid ps
    → Free ps.parts p.proof.index
    → add_new codec ps p ≡ returns (ps', e)
    → IsValid ps'
unfolding add_new
add_new-IsValid codec ps ps' p e valid free h =
    let split : (ps' ≡ ps) ⊎ (put_part ps p.proof.index p ≡ returns (ps', e)) = ground arith in
    elim split [
      | inl same ↦ subst (λ u. IsValid u) (sym same) valid
      | inr put ↦ put_part-IsValid ps ps' p.proof.index p e valid free put
    ]

in_range :
    (parts : List (Option Part)) (n : ℕ) (slot : Option Part)
    → get_elem? parts n ≡ some slot
    → n < length parts
in_range [] n slot h = absurd (ground arith)
in_range (x ∷ parts) zero slot h = omega arith
in_range (x ∷ parts) (suc n) slot h = omega (arith, in_range parts n slot h)

-- The slot of a part that is not reported as a duplicate.
slot_open :
    {B : Type 0} (codec : Codec B) (ps ps' : PartSet) (p : Part) (e : Option PartError)
    → IsValid ps
    → add_part codec ps p ≡ returns (ps', e)
    → (ps' ≡ ps) ⊎ Free ps.parts p.proof.index
unfolding add_part
slot_open codec ps ps' p e valid h =
    elim p.proof.index as (λ t. p.proof.index ≡ t → (ps' ≡ ps) ⊎ Free ps.parts p.proof.index) [
      | pos i ↦ λ same. elim (Option-cases (get_elem? ps.parts i)) [
        | inl gone ↦ inr (λ n at. inl (ground arith))
        | inr (none, empty) ↦ inr (λ n at. inr (ground arith))
        | inr (some q, there) ↦
            inl (ground (arith, in_range ps.parts i (some q) there, valid.slots))
      ]
      | negsuc i ↦ λ same. inr (λ n at. absurd (ground arith))
    ]
      refl

-- Every part that is added, also one that is refused, leaves the set valid.
add_part-IsValid :
    {B : Type 0} (codec : Codec B) (ps ps' : PartSet) (p : Part) (e : Option PartError)
    → IsValid ps
    → add_part codec ps p ≡ returns (ps', e)
    → IsValid ps'
unfolding add_part
add_part-IsValid codec ps ps' p e valid h =
    let split : (ps' ≡ ps) ⊎ (add_new codec ps p ≡ returns (ps', e)) = ground arith in
    elim split [
      | inl same ↦ subst (λ u. IsValid u) (sym same) valid
      | inr new ↦ elim (slot_open codec ps ps' p e valid h) [
        | inl same ↦ subst (λ u. IsValid u) (sym same) valid
        | inr free ↦ add_new-IsValid codec ps ps' p e valid free new
      ]
    ]
