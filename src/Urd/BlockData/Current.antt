-- ===== src/Urd/BlockData/Current.antt =====
-- source/urd/consensus/block_datas.go: nothing is kept that is older than the present view and round.
use mathlib.Core.Path.{subst}
use urd_code.Prelude.{
  ℕ, ◌≡◌, refl, ap, ◌∙◌, inl, inr, true, false, Option, none, List, [], ◌∷◌, ◌++◌, arith,
  Option-cases, Bool-cases,
}
use urd_code.Prelude.Int.{ℤ, eqb_ℤ_iff}
use urd_code.Prelude.Bytes.{Bytes}
use urd_code.Prelude.IntMaps.{IntMap, find_in, put_in, is_before, find_in-put_in, find_in-prune_in}
use urd_code.Prelude.Calls.{returns, >>=-eq-returns, call_cases}
use urd_code.Pyramid.Parts.{Part, PartSet, PartSetHeader, new_part_set}
use urd_code.Urd.Block.{Block}
use urd_code.Urd.Parts.{Codec, add_part, part_set_from_block}
use urd_code.Urd.BlockData.{
  BlockData, DataError, old, parts_of, append_part, add_data_part, replay, add_part_set,
  add_part_set_header, add_block, next, prune,
}

abbrev NoneBefore : {A : Type 0} → ℤ → ℤ → IntMap (IntMap A) → Type 0
NoneBefore view round m = (v r : ℤ) → is_before v r view round ≡ true → find_in v r m ≡ none

-- Neither a part set nor a part of an old view and round is there.
abbrev pub IsCurrent : BlockData → Type 0
IsCurrent bd =
    NoneBefore bd.retain_view bd.retain_round bd.blocks
    × NoneBefore bd.retain_view bd.retain_round bd.retain_block_parts

-- Only the blocks and the parts change, and nothing old comes in.
abbrev pub Collects : BlockData → BlockData → Type 0
Collects bd bd' =
    (bd' ≡ record bd { blocks = bd'.blocks; retain_block_parts = bd'.retain_block_parts })
    × (IsCurrent bd → IsCurrent bd')

abbrev pub with_blocks :
    BlockData → IntMap (IntMap PartSet) → IntMap (IntMap (List Part)) → BlockData
with_blocks bd m n = record bd { blocks = m; retain_block_parts = n }

NoneBefore-put_in :
    {A : Type 0} (view round v r : ℤ) (a : A) (m : IntMap (IntMap A))
    → is_before v r view round ≡ false
    → NoneBefore view round m
    → NoneBefore view round (put_in v r a m)
NoneBefore-put_in view round v r a m fresh h w s before =
    ground (arith, find_in-put_in v r w s a m, eqb_ℤ_iff v w, eqb_ℤ_iff r s, h w s before)

pub next-IsCurrent : (view round : ℤ) (bd : BlockData) → IsCurrent (next view round bd)
unfolding next prune
next-IsCurrent view round bd = (
  λ v r before. ground (arith, find_in-prune_in view round v r bd.blocks),
  λ v r before. ground (arith, find_in-prune_in view round v r bd.retain_block_parts),
)

pub Collects-trans : (a b c : BlockData) → Collects a b → Collects b c → Collects a c
Collects-trans a b c h k = (
  k.0 ∙ ap (λ (x : BlockData). with_blocks x c.blocks c.retain_block_parts) h.0,
  λ i. k.1 (h.1 i),
)

pub Collects-refl : (bd : BlockData) → Collects bd bd
Collects-refl bd = (refl, λ i. i)

with_part-Collects :
    (v r : ℤ) (ps : List Part) (bd : BlockData)
    → old bd v r ≡ false
    → Collects bd (record bd { retain_block_parts = put_in v r ps bd.retain_block_parts })
with_part-Collects v r ps bd fresh = (
  refl,
  λ i. (
    i.0,
    NoneBefore-put_in bd.retain_view bd.retain_round v r ps bd.retain_block_parts fresh i.1,
  ),
)

with_block-Collects :
    (v r : ℤ) (set : PartSet) (bd : BlockData)
    → old bd v r ≡ false
    → Collects bd (record bd { blocks = put_in v r set bd.blocks })
with_block-Collects v r set bd fresh =
    (refl, λ i. (NoneBefore-put_in bd.retain_view bd.retain_round v r set bd.blocks fresh i.0, i.1))

-- Every part set that is added, and every part, is of a view and a round that are not old.
pub add_part_set-Collects : (set : PartSet) (bd : BlockData) → Collects bd (add_part_set set bd).0
unfolding add_part_set
add_part_set-Collects set bd =
    let v = set.header.height in
    let r = set.header.round in
    elim (Bool-cases (old bd v r)) [
      | inl e ↦ subst (Collects bd) (ground arith) (Collects-refl bd)
      | inr e ↦ elim (Option-cases (find_in v r bd.blocks)) [
        | inl q ↦ subst (Collects bd) (ground arith) (with_block-Collects v r set bd e)
        | inr (_, q) ↦ subst (Collects bd) (ground arith) (Collects-refl bd)
      ]
    ]

module _ (codec : Codec) where
  pub add_data_part-Collects :
      (p : Part) (bd bd' : BlockData) (e : Option DataError)
      → add_data_part codec p bd ≡ returns (bd', e)
      → Collects bd bd'
  unfolding add_data_part append_part
  add_data_part-Collects p bd bd' e r =
      let v = p.height in
      let w = p.round in
      let kept = parts_of (find_in v w bd.retain_block_parts) ++ p ∷ [] in
      elim (Bool-cases (old bd v w)) [
        | inl o ↦ subst (Collects bd) (ground arith) (Collects-refl bd)
        | inr o ↦ elim (Option-cases (find_in v w bd.blocks)) [
          | inl q ↦ subst (Collects bd) (ground arith) (with_part-Collects v w kept bd o)
          | inr (set, q) ↦ elim (call_cases (add_part codec set p)) [
            | inl ((set', e'), t) ↦
                subst (Collects bd) (ground arith) (with_block-Collects v w set' bd o)
            | inr t ↦ ground arith
          ]
        ]
      ]

  replay-Collects :
      (ps : List Part) (bd bd' : BlockData) → replay codec ps bd ≡ returns bd' → Collects bd bd'
  unfolding replay
  replay-Collects [] bd bd' r = subst (Collects bd) (ground arith) (Collects-refl bd)
  replay-Collects (p ∷ ps) bd bd' r =
      let ((b, e), r1, r2) = >>=-eq-returns (add_data_part codec p bd) _ r in
      Collects-trans bd b bd' (add_data_part-Collects p bd b e r1) (replay-Collects ps b bd' r2)

  pub add_part_set_header-Collects :
      (h : PartSetHeader) (hash : Bytes) (bd bd' : BlockData) (e : Option DataError)
      → add_part_set_header codec h hash bd ≡ returns (bd', e)
      → Collects bd bd'
  unfolding add_part_set_header
  add_part_set_header-Collects h hash bd bd' e r =
      let v = h.height in
      let w = h.round in
      let early = parts_of (find_in v w bd.retain_block_parts) in
      let made = λ (set : PartSet). record bd { blocks = put_in v w set bd.blocks } in
      elim (Bool-cases (old bd v w)) [
        | inl o ↦ subst (Collects bd) (ground arith) (Collects-refl bd)
        | inr o ↦ elim (Option-cases (find_in v w bd.blocks)) [
          | inr (_, q) ↦ subst (Collects bd) (ground arith) (Collects-refl bd)
          | inl q ↦ elim (call_cases (new_part_set h hash)) [
            | inr n ↦ ground arith
            | inl (set, n) ↦ elim (call_cases (replay codec early (made set))) [
              | inr t ↦ ground arith
              | inl (b, t) ↦ subst (Collects bd) (ground arith) (
                  Collects-trans bd (made set) b (with_block-Collects v w set bd o)
                    (replay-Collects early (made set) b t))
            ]
          ]
        ]
      ]

  pub add_block-Collects :
      (b : Block) (size : ℕ) (round : ℤ) (bd bd' : BlockData) (set : PartSet) (e : Option DataError)
      → add_block codec b size round bd ≡ returns (bd', set, e)
      → Collects bd bd'
  unfolding add_block
  add_block-Collects b size round bd bd' set e r =
      let (set', r1, r2) = >>=-eq-returns (part_set_from_block codec b size round) _ r in
      subst (Collects bd) (ground arith) (add_part_set-Collects set' bd)
