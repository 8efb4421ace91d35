-- ===== src/Pyramid/HeightData/Grows.antt =====
-- source/pyramid/consensus/height_datas.go: what the handlers of messages leave as it is.
use urd_code.Prelude.{ℕ, ◌≡◌, ◌≤◌, refl, inl, inr, Bool, true, Option, List, [], ◌∷◌, arith}
use urd_code.Prelude.Int.{ℤ}
use urd_code.Prelude.Calls.{returns, >>=-eq-returns, call_cases}
use urd_code.Pyramid.VoteSet.{
  VoteSet, VoteError, Vote, add_vote, first_vote, second_vote, find_majority,
}
use urd_code.Pyramid.Parts.{Part, Codec, new_part_set}
use urd_code.Pyramid.Votes.{Proposal, StepVote, Wire, as_vote}
use urd_code.Pyramid.HeightData.{
  HeightData, AddError, finish_proposal, finish_prevote, finish_precommit, step_prevote,
  step_precommit,
}
use urd_code.Pyramid.HeightData.Add.{
  height_add_part, admit_vote, add_buffered, take_proposal, add_proposal, add_prevote,
  add_precommit,
}

-- The height, the round and the steps that are passed stay, and so do majorities.
abbrev pub Grows : {B : Type 0} → HeightData B → HeightData B → Type 0
Grows h h' =
    (h'.height ≡ h.height)
    × (h'.round ≡ h.round)
    × (h'.my_chain_id ≡ h.my_chain_id)
    × (h'.pass_step ≡ h.pass_step)
    × (h.prevotes.has_mj23 ≡ true → h'.prevotes.has_mj23 ≡ true)
    × (h.precommits.has_mj23 ≡ true → h'.precommits.has_mj23 ≡ true)

pub Grows-refl : {B : Type 0} (h : HeightData B) → Grows h h
Grows-refl h = (refl, refl, refl, refl, λ e. e, λ e. e)

pub Grows-trans : {B : Type 0} (a b c : HeightData B) → Grows a b → Grows b c → Grows a c
Grows-trans a b c h k = ground arith

add_vote-keeps :
    (vs vs' : VoteSet) (v : Vote) (w : ℕ) (e : Option VoteError)
    → add_vote vs v w ≡ returns (vs', e)
    → vs.has_mj23 ≡ true
    → vs'.has_mj23 ≡ true
unfolding add_vote first_vote second_vote find_majority
add_vote-keeps vs vs' v w e h m = ground arith

module _ {B : Type 0} (codec : Codec B) where
  pub height_add_part-Grows :
      (h h' : HeightData B) (p : Part) (e : Option AddError)
      → height_add_part codec h p ≡ returns (h', e)
      → Grows h h'
  unfolding height_add_part
  height_add_part-Grows h h' p e r = ground arith

  add_buffered-Grows :
      (ps : List Part) (h h' : HeightData B) → add_buffered codec ps h ≡ returns h' → Grows h h'
  unfolding add_buffered
  add_buffered-Grows [] h h' r = ground arith
  add_buffered-Grows (p ∷ ps) h h' r =
      let ((h1, e), r1, r2) = >>=-eq-returns (height_add_part codec h p) _ r in
      Grows-trans h h1 h' (height_add_part-Grows h h1 p e r1) (add_buffered-Grows ps h1 h' r2)

  module _ (wire : Wire) where
    pub add_prevote-Grows :
        (h h' : HeightData B) (p : StepVote) (e : Option AddError)
        → add_prevote codec wire h p ≡ returns (h', e)
        → Grows h h'
    unfolding add_prevote
    add_prevote-Grows h h' p e r =
        let ((e1, w), r1, r2) = >>=-eq-returns (admit_vote codec wire h p) _ r in
        elim (call_cases (add_vote h.prevotes (as_vote p) w)) [
          | inl ((vs, e2), r3) ↦ ground (arith, add_vote-keeps h.prevotes vs (as_vote p) w e2 r3)
          | inr r3 ↦ ground arith
        ]

    pub add_precommit-Grows :
        (h h' : HeightData B) (p : StepVote) (e : Option AddError)
        → add_precommit codec wire h p ≡ returns (h', e)
        → Grows h h'
    unfolding add_precommit
    add_precommit-Grows h h' p e r =
        let ((e1, w), r1, r2) = >>=-eq-returns (admit_vote codec wire h p) _ r in
        elim (call_cases (add_vote h.precommits (as_vote p) w)) [
          | inl ((vs, e2), r3) ↦ ground (arith, add_vote-keeps h.precommits vs (as_vote p) w e2 r3)
          | inr r3 ↦ ground arith
        ]

    -- What `take_proposal` keeps, where the proposal is accepted.
    take_proposal-Grows :
        (h h' : HeightData B) (p : Proposal) (e : Option AddError)
        → take_proposal codec h p ≡ returns (h', e)
        → Grows h h'
    take_proposal-Grows h h' p e r =
        let (ps, r1, r2) = >>=-eq-returns (new_part_set p.header p.block_header_hash) _ r in
        let (h1, r3, r4) = >>=-eq-returns (add_buffered codec h.random_header_buffer _) _ r2 in
        ground (arith, add_buffered-Grows h.random_header_buffer _ h1 r3)

    pub add_proposal-Grows :
        (h h' : HeightData B) (p : Proposal) (i : ℤ) (e : Option AddError)
        → add_proposal codec wire h p i ≡ returns (h', e)
        → Grows h h'
    unfolding add_proposal
    add_proposal-Grows h h' p i e r = elim (call_cases (take_proposal codec h p)) [
      | inl ((h1, e1), r1) ↦ ground (arith, take_proposal-Grows h h1 p e1 r1)
      | inr r1 ↦ ground arith
    ]

-- The steps that ask for votes were passed with a majority of them.
abbrev pub VotesBacked : {B : Type 0} → HeightData B → Type 0
VotesBacked h =
    (step_prevote ≤ h.pass_step → h.prevotes.has_mj23 ≡ true)
    × (step_precommit ≤ h.pass_step → h.precommits.has_mj23 ≡ true)

-- Finishing a step changes nothing but the step that is passed.
abbrev pub Passes : {B : Type 0} → HeightData B → HeightData B → Type 0
Passes h h' =
    (h'.height ≡ h.height)
    × (h'.round ≡ h.round)
    × (h'.prevotes ≡ h.prevotes)
    × (h'.precommits ≡ h.precommits)
    × VotesBacked h'

module _ {B : Type 0} where
  pub finish_proposal-Passes :
      (h h' : HeightData B) (ok : Bool)
      → VotesBacked h
      → finish_proposal h ≡ returns (h', ok)
      → Passes h h'
  unfolding finish_proposal
  finish_proposal-Passes h h' ok backed e = ground arith

  pub finish_prevote-Passes :
      (h h' : HeightData B) (ok : Bool)
      → VotesBacked h
      → finish_prevote h ≡ returns (h', ok)
      → Passes h h' × (ok ≡ true → h'.prevotes.has_mj23 ≡ true)
  unfolding finish_prevote
  finish_prevote-Passes h h' ok backed e = elim (call_cases (finish_proposal h)) [
    | inl ((h1, ok1), e1) ↦ ground (arith, finish_proposal-Passes h h1 ok1 backed e1)
    | inr e1 ↦ ground arith
  ]

  pub finish_precommit-Passes :
      (h h' : HeightData B) (ok : Bool)
      → VotesBacked h
      → finish_precommit h ≡ returns (h', ok)
      → Passes h h' × (ok ≡ true → h'.precommits.has_mj23 ≡ true)
  unfolding finish_precommit
  finish_precommit-Passes h h' ok backed e = elim (call_cases (finish_prevote h)) [
    | inl ((h1, ok1), e1) ↦ ground (arith, finish_prevote-Passes h h1 ok1 backed e1)
    | inr e1 ↦ ground arith
  ]
