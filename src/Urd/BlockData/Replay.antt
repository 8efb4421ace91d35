-- ===== src/Urd/BlockData/Replay.antt =====
-- source/urd/consensus/block_datas.go: parts that come before the header of their block.
use mathlib.Core.List.{append-nil, append_assoc}
use urd_code.Prelude.{
  ◌≡◌, inl, inr, refl, sym, ap, ◌∙◌, false, Option, none, some, List, [], ◌∷◌, ◌++◌, arith,
}
use urd_code.Prelude.Int.{eqb_ℤ_iff}
use urd_code.Prelude.Bytes.{Bytes}
use urd_code.Prelude.IntMaps.{IntMap, find_in, put_in, find_in-put_in}
use urd_code.Prelude.Calls.{returns, >>=-eq-returns, call_cases}
use urd_code.Pyramid.Parts.{Part, PartSet, PartSetHeader, new_part_set}
use urd_code.Urd.Parts.{Codec, add_part}
use urd_code.Urd.BlockData.{
  BlockData, DataError, no_part_set, old, parts_of, append_part, add_to, add_data_part, replay,
  add_part_set_header,
}

-- Every part is of the view and the round of the header.
unfoldable pub AllAt : PartSetHeader → List Part → Type 0
AllAt h [] = Unit
AllAt h (p ∷ ps) = (p.height ≡ h.height) × (p.round ≡ h.round) × AllAt h ps

abbrev with_parts : IntMap (IntMap (List Part)) → BlockData → BlockData
with_parts m bd = record bd { retain_block_parts = m }

module _ (codec : Codec) (h : PartSetHeader) where
  abbrev kept_at : Part → BlockData → IntMap (IntMap (List Part))
  kept_at p bd =
      put_in h.height h.round (parts_of (find_in h.height h.round bd.retain_block_parts) ++ p ∷ [])
        bd.retain_block_parts

  add_data_part-early :
      (p : Part) (bd : BlockData)
      → p.height ≡ h.height
      → p.round ≡ h.round
      → old bd h.height h.round ≡ false
      → find_in h.height h.round bd.blocks ≡ none
      → add_data_part codec p bd ≡ returns (with_parts (kept_at p bd) bd, some no_part_set)
  unfolding add_data_part append_part
  add_data_part-early p bd at1 at2 fresh unknown = ground arith

  kept_at-grows :
      (p : Part) (bd : BlockData)
      → parts_of (find_in h.height h.round (kept_at p bd))
        ≡ parts_of (find_in h.height h.round bd.retain_block_parts) ++ p ∷ []
  kept_at-grows p bd =
      let before = parts_of (find_in h.height h.round bd.retain_block_parts) in
      ground (
        arith,
        find_in-put_in h.height h.round h.height h.round (before ++ p ∷ []) bd.retain_block_parts,
        eqb_ℤ_iff h.height h.height,
        eqb_ℤ_iff h.round h.round,
      )

  -- Without a header every part is kept.
  replay-keeps :
      (ps : List Part) (bd : BlockData)
      → AllAt h ps
      → old bd h.height h.round ≡ false
      → find_in h.height h.round bd.blocks ≡ none
      → (m : IntMap (IntMap (List Part))) × (replay codec ps bd ≡ returns (with_parts m bd))
        × (parts_of (find_in h.height h.round m)
            ≡ parts_of (find_in h.height h.round bd.retain_block_parts) ++ ps)
  unfolding AllAt replay
  replay-keeps [] bd at fresh unknown =
      let kept = parts_of (find_in h.height h.round bd.retain_block_parts) in
      (bd.retain_block_parts, refl, sym (append-nil kept))
  replay-keeps (p ∷ ps) bd at fresh unknown =
      let (m, e, l) = replay-keeps ps (with_parts (kept_at p bd) bd) at.2 fresh unknown in
      let kept = parts_of (find_in h.height h.round bd.retain_block_parts) in
      (
        m,
        rw (add_data_part-early p bd at.0 at.1 fresh unknown, e),
        l ∙ ap (λ xs. xs ++ ps) (kept_at-grows p bd) ∙ append_assoc kept (p ∷ []) ps,
      )

  find_in-put_in_self :
      (set : PartSet) (m : IntMap (IntMap PartSet))
      → find_in h.height h.round (put_in h.height h.round set m) ≡ some set
  find_in-put_in_self set m = ground (
    arith,
    find_in-put_in h.height h.round h.height h.round set m,
    eqb_ℤ_iff h.height h.height,
    eqb_ℤ_iff h.round h.round,
  )

  find_in-put_in_at :
      (p : Part) (set : PartSet) (m : IntMap (IntMap PartSet))
      → p.height ≡ h.height
      → p.round ≡ h.round
      → find_in h.height h.round (put_in p.height p.round set m) ≡ some set
  find_in-put_in_at p set m at1 at2 = ground (
    arith,
    find_in-put_in p.height p.round h.height h.round set m,
    eqb_ℤ_iff p.height h.height,
    eqb_ℤ_iff p.round h.round,
  )

  -- With a header no part is kept, so what is kept plays no role.
  add_data_part-late :
      (p : Part) (bd : BlockData) (set : PartSet)
      → p.height ≡ h.height
      → p.round ≡ h.round
      → old bd h.height h.round ≡ false
      → find_in h.height h.round bd.blocks ≡ some set
      → add_data_part codec p bd ≡ add_to codec set p bd
  unfolding add_data_part
  add_data_part-late p bd set at1 at2 fresh there = ground arith

  add_data_part-known :
      (p : Part) (bd bd' : BlockData) (m : IntMap (IntMap (List Part))) (set : PartSet)
      (e : Option DataError)
      → p.height ≡ h.height
      → p.round ≡ h.round
      → old bd h.height h.round ≡ false
      → find_in h.height h.round bd.blocks ≡ some set
      → add_data_part codec p bd ≡ returns (bd', e)
      → (add_data_part codec p (with_parts m bd) ≡ returns (with_parts m bd', e))
        × (old bd' h.height h.round ≡ false)
        × ((set' : PartSet) × (find_in h.height h.round bd'.blocks ≡ some set'))
  add_data_part-known p bd bd' m set e at1 at2 fresh there r =
      let r0 = sym (add_data_part-late p bd set at1 at2 fresh there) ∙ r in
      let same = add_data_part-late p (with_parts m bd) set at1 at2 fresh there in
      elim (call_cases (add_part codec set p)) [
        | inl ((set1, e1), r1) ↦
            let q : bd' ≡ record bd { blocks = put_in p.height p.round set1 bd.blocks } =
              ground arith in
            (
              ground arith,
              ap (λ (b : BlockData). old b h.height h.round) q ∙ fresh,
              (
                set1,
                ap (λ (b : BlockData). find_in h.height h.round b.blocks) q
                    ∙ find_in-put_in_at p set1 bd.blocks at1 at2,
              ),
            )
        | inr r1 ↦ ground arith
      ]

  replay-known :
      (ps : List Part) (bd bd' : BlockData) (m : IntMap (IntMap (List Part))) (set : PartSet)
      → AllAt h ps
      → old bd h.height h.round ≡ false
      → find_in h.height h.round bd.blocks ≡ some set
      → replay codec ps bd ≡ returns bd'
      → replay codec ps (with_parts m bd) ≡ returns (with_parts m bd')
  unfolding AllAt replay
  replay-known [] bd bd' m set at fresh there e = ground arith
  replay-known (p ∷ ps) bd bd' m set at fresh there e =
      let ((bd1, e1), r1, r2) = >>=-eq-returns (add_data_part codec p bd) _ e in
      let (same, fresh1, (set1, there1)) =
        add_data_part-known p bd bd1 m set e1 at.0 at.1 fresh there r1 in
      rw (same, replay-known ps bd1 bd' m set1 at.2 fresh1 there1 r2)

  -- A header on its own makes the part set; where parts are kept, they are taken.
  header_takes :
      (hash : Bytes) (bd bd' : BlockData) (set : PartSet)
      → old bd h.height h.round ≡ false
      → find_in h.height h.round bd.blocks ≡ none
      → new_part_set h hash ≡ returns set
      → replay codec
          (parts_of (find_in h.height h.round bd.retain_block_parts))
          (record bd { blocks = put_in h.height h.round set bd.blocks })
        ≡ returns bd'
      → add_part_set_header codec h hash bd ≡ returns (bd', none)
  unfolding add_part_set_header
  header_takes hash bd bd' set fresh unknown made r = rw (fresh, unknown, made, r)

  header_made :
      (hash : Bytes) (bd bd' : BlockData)
      → find_in h.height h.round bd.retain_block_parts ≡ none
      → old bd h.height h.round ≡ false
      → find_in h.height h.round bd.blocks ≡ none
      → add_part_set_header codec h hash bd ≡ returns (bd', none)
      → (set : PartSet) × (new_part_set h hash ≡ returns set)
        × (bd' ≡ record bd { blocks = put_in h.height h.round set bd.blocks })
  unfolding add_part_set_header replay
  header_made hash bd bd' unkept fresh unknown e = elim (call_cases (new_part_set h hash)) [
    | inl (set, made) ↦ (set, made, ground arith)
    | inr made ↦ ground arith
  ]

  -- The parts of a block may come before its header: for a view and a round that are not old, that
  -- have no part set and no parts kept, taking the parts and then the header gives the same blocks as
  -- taking the header and then the parts, and no error for the header.
  pub add_part_set_header-replay :
      (hash : Bytes) (ps : List Part) (bd bd1 bd2 : BlockData)
      → AllAt h ps
      → old bd h.height h.round ≡ false
      → find_in h.height h.round bd.blocks ≡ none
      → find_in h.height h.round bd.retain_block_parts ≡ none
      → add_part_set_header codec h hash bd ≡ returns (bd1, none)
      → replay codec ps bd1 ≡ returns bd2
      → (early bd3 : BlockData) × (replay codec ps bd ≡ returns early)
        × (add_part_set_header codec h hash early ≡ returns (bd3, none))
        × (bd3.blocks ≡ bd2.blocks)
  add_part_set_header-replay hash ps bd bd1 bd2 at fresh unknown unkept e r =
      let (m, e1, l) = replay-keeps ps bd at fresh unknown in
      let (set, made, q) = header_made hash bd bd1 unkept fresh unknown e in
      let kept : parts_of (find_in h.height h.round m) ≡ ps =
        l ∙ ap (λ o. parts_of o ++ ps) unkept in
      let given = record bd { blocks = put_in h.height h.round set bd.blocks } in
      let there = find_in-put_in_self set bd.blocks in
      let later =
        replay-known ps given bd2 m set at fresh there (ap (replay codec ps) (sym q) ∙ r) in
      (
        with_parts m bd,
        with_parts m bd2,
        e1,
        header_takes hash (with_parts m bd) (with_parts m bd2) set fresh unknown made
            (ap (λ xs. replay codec xs (with_parts m given)) kept ∙ later),
        refl,
      )
