-- ===== src/Pyramid/HeightData/Steps.antt =====
-- source/pyramid/consensus/height_datas.go: the steps that a height passes, and what each asks for.
use urd_code.Prelude.{◌≡◌, ◌≤◌, inl, inr, Bool, true, false, Option, some, arith, leb}
use urd_code.Prelude.Calls.{returns, call_cases}
use urd_code.Pyramid.Parts.{PartSet, is_complete}
use urd_code.Pyramid.Votes.{Proposal}
use urd_code.Pyramid.HeightData.{
  HeightData, finish_proposal, finish_prevote, finish_precommit, step_propose, step_prevote,
  step_precommit,
}

-- The proposal of the height is there with its whole block.
unfoldable pub is_proposed {ℓ} : {B : Type ℓ} → Option Proposal → Option B → Option PartSet → Bool
is_proposed (some _) (some _) (some ps) = is_complete ps
is_proposed _ _ _ = false

-- What each step that is passed was passed with.
abbrev pub Backed : {B : Type 0} → HeightData B → Type 0
Backed h =
    (step_propose ≤ h.pass_step → is_proposed h.proposal h.block h.part_set ≡ true)
    × (step_prevote ≤ h.pass_step → h.prevotes.has_mj23 ≡ true)
    × (step_precommit ≤ h.pass_step → h.precommits.has_mj23 ≡ true)

finish_proposal-Backed :
    {B : Type 0} (h h' : HeightData B) (ok : Bool)
    → Backed h
    → finish_proposal h ≡ returns (h', ok)
    → Backed h' × (h.pass_step ≤ h'.pass_step) × (ok ≡ leb step_propose h'.pass_step)
unfolding finish_proposal is_proposed
finish_proposal-Backed h h' ok backed e = ground arith

finish_prevote-Backed :
    {B : Type 0} (h h' : HeightData B) (ok : Bool)
    → Backed h
    → finish_prevote h ≡ returns (h', ok)
    → Backed h' × (h.pass_step ≤ h'.pass_step) × (ok ≡ leb step_prevote h'.pass_step)
unfolding finish_prevote
finish_prevote-Backed h h' ok backed e = elim (call_cases (finish_proposal h)) [
  | inl ((h1, ok1), e1) ↦ ground (arith, finish_proposal-Backed h h1 ok1 backed e1)
  | inr e1 ↦ ground arith
]

-- Finishing the precommit passes a step only with what it asks for, takes none back, and answers
-- whether the precommit step is passed.
finish_precommit-Backed :
    {B : Type 0} (h h' : HeightData B) (ok : Bool)
    → Backed h
    → finish_precommit h ≡ returns (h', ok)
    → Backed h' × (h.pass_step ≤ h'.pass_step) × (ok ≡ leb step_precommit h'.pass_step)
unfolding finish_precommit
finish_precommit-Backed h h' ok backed e = elim (call_cases (finish_prevote h)) [
  | inl ((h1, ok1), e1) ↦ ground (arith, finish_prevote-Backed h h1 ok1 backed e1)
  | inr e1 ↦ ground arith
]
