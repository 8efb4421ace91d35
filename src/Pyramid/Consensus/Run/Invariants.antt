-- ===== src/Pyramid/Consensus/Run/Invariants.antt =====
-- source/pyramid/consensus/main.go: what holds of a node in every state that a run can reach.
use urd_code.Prelude.{
  ℕ, zero, suc, ◌≡◌, ◌≤◌, inl, inr, Bool, true, false, Option, none, some, List, [], ◌∷◌, arith,
  if◌then◌else◌, Bool-cases, ◌==◌,
}
use urd_code.Prelude.Int.{pos}
use urd_code.Prelude.Calls.{Call, returns, ◌>>=◌, >>=-eq-returns, call_cases}
use urd_code.Pyramid.HeightData.{finish_proposal, finish_prevote, finish_precommit}
use urd_code.Pyramid.HeightData.Grows.{
  VotesBacked, finish_proposal-Passes, finish_prevote-Passes, finish_precommit-Passes,
}
use urd_code.Pyramid.Consensus.{Env, ConsensusState, Message, is_proposer, step_commit}
use urd_code.Pyramid.Consensus.Judge.{do_propose, do_prevote}
use urd_code.Pyramid.Consensus.Process.{do_precommit}
use urd_code.Pyramid.Consensus.Create.{announced, enter_new_height, do_commit}
use urd_code.Pyramid.Consensus.Messages.{Answer, receive}
use urd_code.Pyramid.Consensus.Moves.{
  do_propose-StepsOn, do_prevote-StepsOn, do_precommit-StepsOn, enter_new_height-Enters,
}
use urd_code.Pyramid.Consensus.Receives.{CountsValid, receive-CountsValid}
use urd_code.Pyramid.Consensus.Run.{
  Transition, waits, goes, if_finished, commit_or_wait, transition, take_message, take_messages,
  handle_state_transition, do_message,
}

-- The votes are collected for the height and the round of the node.
abbrev pub HeightsAgree : {W : Type 0} → ConsensusState W → Type 0
HeightsAgree s =
    (s.height_datas.height ≡ pos s.height) × (s.height_datas.round ≡ pos 0) × (s.round ≡ 0)

-- The node precommits with a majority of prevotes, and has executed the block of its height with a
-- majority of precommits.
abbrev pub HasQuorums : {W : Type 0} → ConsensusState W → Type 0
HasQuorums s =
    VotesBacked s.height_datas
    × (5 ≤ s.step → s.height_datas.prevotes.has_mj23 ≡ true)
    × (6 ≤ s.step → s.height_datas.precommits.has_mj23 ≡ true)

if_true {ℓ} :
    {A : Type ℓ} {z : A} (b : Bool) (x y : A) → b ≡ true → (if b then x else y) ≡ z → x ≡ z
if_true true x y e r = r
if_true false x y e r = absurd (ground arith)

if_false {ℓ} :
    {A : Type ℓ} {z : A} (b : Bool) (x y : A) → b ≡ false → (if b then x else y) ≡ z → y ≡ z
if_false true x y e r = absurd (ground arith)
if_false false x y e r = r

module _ {W : Type 0} (env : Env W) where
  abbrev pub IsValid : ConsensusState W → Type 0
  IsValid s = HeightsAgree s × HasQuorums s × CountsValid env s

  receive-IsValid :
      (fuel : ℕ) (m : Message) (s s' : ConsensusState W) (a : Answer)
      → receive env fuel m s ≡ returns (s', a)
      → IsValid s
      → IsValid s' × (s'.height ≡ s.height)
  receive-IsValid fuel m s s' a r h = ground (arith, receive-CountsValid env fuel m s s' a r)

  -- The state that a transition leads to.
  abbrev target : Transition W → ConsensusState W
  target (waits s) = s
  target (goes s ms) = s

  pub enter_new_height-IsValid :
      (s s' : ConsensusState W) (ms : List Message)
      → HeightsAgree s
      → CountsValid env s
      → enter_new_height env s ≡ returns (s', ms)
      → IsValid s' × (s'.height ≡ suc s.height)
  enter_new_height-IsValid s s' ms h c r = ground (arith, enter_new_height-Enters env s s' ms r)

  do_commit-IsValid :
      (s s' : ConsensusState W) (ms : List Message)
      → IsValid s
      → do_commit env s ≡ returns (s', ms)
      → IsValid s' × (s'.height ≡ suc s.height)
  unfolding do_commit
  do_commit-IsValid s s' ms h r =
      let (mine, r1, r2) = >>=-eq-returns (is_proposer env s) _ r in
      ground (arith, enter_new_height-Enters env (announced env mine s) s' ms r2)

  propose-IsValid :
      (s : ConsensusState W) (t : Transition W)
      → IsValid s
      → s.step ≡ 3
      → (finish_proposal s.height_datas >>= if_finished env s (do_propose env)) ≡ returns t
      → IsValid (target t) × ((target t).height ≡ s.height)
  propose-IsValid s t h e r = elim (call_cases (finish_proposal s.height_datas)) [
    | inr e1 ↦ ground arith
    | inl ((hd, ok), e1) ↦
        let passes = finish_proposal-Passes s.height_datas hd ok h.1.0 e1 in
        let s1 : ConsensusState W = record s { height_datas = hd } in
        elim (call_cases (do_propose env s1)) [
          | inr e2 ↦ ground (arith, passes)
          | inl (s2, e2) ↦ ground (arith, passes, do_propose-StepsOn env s1 s2 e e2)
        ]
  ]

  prevote-IsValid :
      (s : ConsensusState W) (t : Transition W)
      → IsValid s
      → s.step ≡ 4
      → (finish_prevote s.height_datas >>= if_finished env s (do_prevote env)) ≡ returns t
      → IsValid (target t) × ((target t).height ≡ s.height)
  prevote-IsValid s t h e r = elim (call_cases (finish_prevote s.height_datas)) [
    | inr e1 ↦ ground arith
    | inl ((hd, ok), e1) ↦
        let passes = finish_prevote-Passes s.height_datas hd ok h.1.0 e1 in
        let s1 : ConsensusState W = record s { height_datas = hd } in
        elim (call_cases (do_prevote env s1)) [
          | inr e2 ↦ ground (arith, passes)
          | inl (s2, e2) ↦ ground (arith, passes, do_prevote-StepsOn env s1 s2 e e2)
        ]
  ]

  precommit-IsValid :
      (s : ConsensusState W) (t : Transition W)
      → IsValid s
      → s.step ≡ 5
      → (finish_precommit s.height_datas >>= if_finished env s (do_precommit env)) ≡ returns t
      → IsValid (target t) × ((target t).height ≡ s.height)
  precommit-IsValid s t h e r = elim (call_cases (finish_precommit s.height_datas)) [
    | inr e1 ↦ ground arith
    | inl ((hd, ok), e1) ↦
        let passes = finish_precommit-Passes s.height_datas hd ok h.1.0 e1 in
        let s1 : ConsensusState W = record s { height_datas = hd } in
        elim (call_cases (do_precommit env s1)) [
          | inr e2 ↦ ground (arith, passes)
          | inl (s2, e2) ↦
              ground (arith, passes, do_precommit-StepsOn env s1 s2 e (ground arith) e2)
        ]
  ]

  commit-IsValid :
      (s : ConsensusState W) (t : Transition W)
      → IsValid s
      → (if s.step == step_commit then commit_or_wait env s else returns (waits s)) ≡ returns t
      → IsValid (target t) × (s.height ≤ (target t).height)
  commit-IsValid s t h r = elim (call_cases (do_commit env s)) [
    | inr e ↦ ground arith
    | inl ((s1, ms), e) ↦ ground (arith, do_commit-IsValid s s1 ms h e)
  ]

  -- A transition keeps a node valid, and takes it to the next height at most.
  transition-IsValid :
      (s : ConsensusState W) (t : Transition W)
      → IsValid s
      → transition env s ≡ returns t
      → IsValid (target t) × (s.height ≤ (target t).height)
  unfolding transition
  transition-IsValid s t h r = elim (Bool-cases (s.step == 3)) [
    | inl e ↦ ground (arith, propose-IsValid s t h (ground arith) (if_true _ _ _ e r))
    | inr n3 ↦ elim (Bool-cases (s.step == 4)) [
      | inl e ↦
          ground
            (arith, prevote-IsValid s t h (ground arith) (if_true _ _ _ e (if_false _ _ _ n3 r)))
      | inr n4 ↦ elim (Bool-cases (s.step == 5)) [
        | inl e ↦ ground (
          arith,
          precommit-IsValid s t h (ground arith)
              (if_true _ _ _ e (if_false _ _ _ n4 (if_false _ _ _ n3 r))),
        )
        | inr n5 ↦
            commit-IsValid s t h (if_false _ _ _ n5 (if_false _ _ _ n4 (if_false _ _ _ n3 r)))
      ]
    ]
  ]

  -- A state transition ends in a valid node, of the same height or a later one.
  abbrev pub Keeps : (ConsensusState W → Call (Option (ConsensusState W))) → Type 0
  Keeps run =
      (s s' : ConsensusState W)
      → IsValid s
      → run s ≡ returns (some s')
      → IsValid s' × (s.height ≤ s'.height)

  take_message-Keeps :
      (fuel : ℕ) (rest : ConsensusState W → Call (Option (ConsensusState W))) (m : Message)
      → Keeps rest
      → Keeps (take_message env fuel rest m)
  take_message-Keeps fuel rest m keeps s s' h r = elim (call_cases (receive env fuel m s)) [
    | inr e ↦ ground arith
    | inl ((s1, a), e) ↦ ground (arith, receive-IsValid fuel m s s1 a e h, keeps s1 s')
  ]

  pub take_messages-Keeps :
      (fuel : ℕ) (rest : ConsensusState W → Call (Option (ConsensusState W))) (ms : List Message)
      → Keeps rest
      → Keeps (take_messages env fuel rest ms)
  unfolding take_messages
  take_messages-Keeps fuel rest [] keeps s s' h r = ground arith
  take_messages-Keeps fuel rest (m ∷ ms) keeps s s' h r =
      elim (call_cases (take_message env fuel rest m s)) [
        | inr e ↦ ground arith
        | inl (none, e) ↦ ground arith
        | inl (some s1, e) ↦
            let (h1, le1) = take_message-Keeps fuel rest m keeps s s1 h e in
            ground (arith, take_messages-Keeps fuel rest ms keeps s1 s' h1, le1)
      ]

  pub handle-Keeps : (fuel : ℕ) → Keeps (handle_state_transition env fuel)
  unfolding handle_state_transition
  handle-Keeps zero s s' h r = absurd (ground arith)
  handle-Keeps (suc fuel) s s' h r = elim (call_cases (transition env s)) [
    | inr e ↦ ground arith
    | inl (waits s1, e) ↦ ground (arith, transition-IsValid s (waits s1) h e)
    | inl (goes s1 ms, e) ↦
        let (h1, le1) = transition-IsValid s (goes s1 ms) h e in
        let rest = handle_state_transition env fuel in
        elim (call_cases (take_messages env fuel rest ms s1)) [
          | inr e1 ↦ ground arith
          | inl (none, e1) ↦ ground arith
          | inl (some s2, e1) ↦
              let (h2, le2) = take_messages-Keeps fuel rest ms (handle-Keeps fuel) s1 s2 h1 e1 in
              ground (arith, handle-Keeps fuel s2 s' h2, le1, le2)
        ]
  ]

  -- A message leaves a valid node valid, and never takes it back to an earlier height.
  pub do_message-IsValid :
      (fuel : ℕ) (m : Message) (s s' : ConsensusState W)
      → IsValid s
      → do_message env fuel m s ≡ returns (some s')
      → IsValid s' × (s.height ≤ s'.height)
  unfolding do_message
  do_message-IsValid fuel m s s' h r =
      take_message-Keeps fuel (handle_state_transition env fuel) m (handle-Keeps fuel) s s' h r
