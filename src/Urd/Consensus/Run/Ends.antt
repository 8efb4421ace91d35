-- ===== src/Urd/Consensus/Run/Ends.antt =====
-- source/urd/consensus/state_transition.go: when the state transition ends by itself. A leader stops
-- after view 600.
use mathlib.Core.Path.{subst}
use urd_code.Prelude.{
  ℕ, zero, suc, ◌+◌, ◌-◌, ◌*◌, ◌≤◌, ◌<◌, ◌≡◌, ◌≢◌, ◌⊎◌, refl, sym, ap, ◌∙◌, inl, inr, true, false,
  none, some, arith,
}
use urd_code.Prelude.Int.{ℤ, pos, negsuc, pos_part, suc_ℤ, ltb_ℤ}
use urd_code.Prelude.Calls.{returns, >>=-eq-returns, call_cases}
use urd_code.Hotstuff.State.{State, state_is_quorum}
use urd_code.Urd.Consensus.{
  Env, ConsensusState, Step, idle, validator_wait, leader_vote, leader_wait, is_proposer, next_step,
}
use urd_code.Urd.Consensus.Propose.{do_propose}
use urd_code.Urd.Consensus.CrossShard.{communicate}
use urd_code.Urd.Consensus.Frames.{Keeps, Enters, Moves}
use urd_code.Urd.Consensus.Keeps.{communicate-Keeps}
use urd_code.Urd.Consensus.Enters.{do_propose-Enters}
use urd_code.Urd.Consensus.Run.{Answer, waits, goes, fails, next_of, transition, advance, handle}
use urd_code.Urd.Consensus.Run.Invariants.{transition-Moves}

goes-cases : (a : Answer) → (a ≡ goes) ⊎ (elim a [ goes ↦ true | _ ↦ false ] ≡ false)
goes-cases waits = inr refl
goes-cases goes = inl refl
goes-cases (fails e) = inr refl

abbrev rank : Step → ℕ
rank leader_wait = 0
rank leader_vote = 1
rank idle = 2
rank validator_wait = 2

-- Two transitions a view, up to the view in which the leader stops.
abbrev pub transitions_left : {W : Type 0} → ConsensusState W → ℕ
transitions_left s = 2 * (601 - pos_part s.hotstuff.view) + rank s.step

next-fewer :
    (v r : ℕ)
    → ltb_ℤ (pos 600) (pos (suc v)) ≡ false
    → r ≤ 1
    → 2 * (601 - suc v) + r < 2 * (601 - v) + 0
next-fewer v r h l = ground arith

still_pos : (v : ℕ) (z : ℤ) → ltb_ℤ z (pos v) ≡ false → (z ≡ pos (pos_part z)) × (v ≤ pos_part z)
still_pos v (pos w) h = (refl, ground arith)
still_pos v (negsuc w) h = ground arith

later-fewer : (v w r : ℕ) → v ≤ w → r ≤ 1 → 2 * (601 - w) + r < 2 * (601 - v) + 2
later-fewer v w r h l = omega arith

module _ {W : Type 0} (env : Env W) where
  abbrev After : ConsensusState W → ConsensusState W → Type 0
  After s s' =
      (s'.hotstuff.view ≡ s.hotstuff.view)
      × (ltb_ℤ (pos 600) s'.hotstuff.view ≡ false)
      × (rank s'.step ≤ 1)
      × (state_is_quorum s.hotstuff ≡ returns true → rank s'.step ≡ 0)

  next_of-After :
      (s s' : ConsensusState W)
      → is_proposer env ≡ true
      → next_of env (s, goes) ≡ returns (s', goes)
      → After s s'
  unfolding next_step
  next_of-After s s' leads r =
      let (step, r1, r2) = >>=-eq-returns (next_step env s) _ r in ground arith

  next_of-goes :
      (s s' : ConsensusState W) (a : Answer) → next_of env (s, a) ≡ returns (s', goes) → a ≡ goes
  next_of-goes s s' waits r = ground arith
  next_of-goes s s' goes r = refl
  next_of-goes s s' (fails e) r = ground arith

  abbrev Fewer : Step → ℕ → ConsensusState W → Type 0
  Fewer step v s' =
      (v' : ℕ) × (s'.hotstuff.view ≡ pos v')
      × (2 * (601 - v') + rank s'.step < 2 * (601 - v) + rank step)

  propose-Fewer :
      (s s1 s' : ConsensusState W) (v : ℕ)
      → s.hotstuff.view ≡ pos v
      → transition env leader_wait s ≡ returns (s1, goes)
      → After s1 s'
      → Fewer leader_wait v s'
  unfolding transition Enters
  propose-Fewer s s1 s' v at r after = elim (call_cases (do_propose env s)) [
    | inl ((s2, none), q) ↦
        let entered = do_propose-Enters env s s2 none q in
        let same : s1.hotstuff.view ≡ s2.hotstuff.view = ground arith in
        let view = after.0 ∙ same ∙ entered.0 ∙ ap suc_ℤ at in
        let bound = subst (λ z. ltb_ℤ (pos 600) z ≡ false) view after.1 in
        (suc v, view, next-fewer v (rank s'.step) bound after.2)
    | inl ((s2, some e), q) ↦ ground arith
    | inr q ↦ ground arith
  ]

  communicate-Fewer :
      (s s1 s' : ConsensusState W) (v : ℕ)
      → s.hotstuff.view ≡ pos v
      → transition env leader_vote s ≡ returns (s1, goes)
      → After s1 s'
      → Fewer leader_vote v s'
  unfolding transition Keeps
  communicate-Fewer s s1 s' v at r after =
      let (quorum, r1, r2) = >>=-eq-returns (state_is_quorum s.hotstuff) _ r in
      elim (call_cases (communicate env s)) [
        | inl ((s2, none), q) ↦
            let kept = communicate-Keeps env s s2 none q in
            let same : s1.hotstuff ≡ s2.hotstuff = ground arith in
            let asked : state_is_quorum s.hotstuff ≡ returns true = ground arith in
            let ready = after.3 (ap state_is_quorum same ∙ kept.3 asked) in
            (v, after.0 ∙ ap (λ (h : State). h.view) same ∙ kept.0 ∙ at, omega (arith, ready))
        | inl ((s2, some e), q) ↦ ground arith
        | inr q ↦ ground arith
      ]

  other-Fewer :
      (step : Step) (s s1 s' : ConsensusState W) (v : ℕ)
      → s.hotstuff.view ≡ pos v
      → rank step ≡ 2
      → transition env step s ≡ returns (s1, goes)
      → After s1 s'
      → Fewer step v s'
  unfolding Moves
  other-Fewer step s s1 s' v at h r after =
      let moved = transition-Moves env step s s1 goes r in
      let w = pos_part s1.hotstuff.view in
      let (view, later) =
        still_pos v s1.hotstuff.view (subst (λ z. ltb_ℤ s1.hotstuff.view z ≡ false) at moved.0) in
      (
        w,
        after.0 ∙ view,
        subst (λ k. 2 * (601 - w) + rank s'.step < 2 * (601 - v) + k) (sym h)
            (later-fewer v w (rank s'.step) later after.2),
      )

  transition-Fewer :
      (step : Step) (s s1 s' : ConsensusState W) (v : ℕ)
      → s.hotstuff.view ≡ pos v
      → transition env step s ≡ returns (s1, goes)
      → After s1 s'
      → Fewer step v s'
  transition-Fewer idle s s1 s' v at r after = other-Fewer idle s s1 s' v at refl r after
  transition-Fewer validator_wait s s1 s' v at r after =
      other-Fewer validator_wait s s1 s' v at refl r after
  transition-Fewer leader_wait s s1 s' v at r after = propose-Fewer s s1 s' v at r after
  transition-Fewer leader_vote s s1 s' v at r after = communicate-Fewer s s1 s' v at r after

  -- Every transition of a leader that goes on leaves fewer.
  advance-Fewer :
      (s s' : ConsensusState W) (v : ℕ)
      → is_proposer env ≡ true
      → s.hotstuff.view ≡ pos v
      → advance env s ≡ returns (s', goes)
      → Fewer s.step v s'
  unfolding advance
  advance-Fewer s s' v leads at r =
      let ((s1, a), r1, r2) = >>=-eq-returns (transition env s.step s) _ r in
      let q = next_of-goes s1 s' a r2 in
      transition-Fewer s.step s s1 s' v at (r1 ∙ ap (λ b. returns (s1, b)) q)
        (next_of-After s1 s' leads (ap (λ b. next_of env (s1, b)) (sym q) ∙ r2))

  -- With fuel for two transitions a view, up to view 601, and two more, the state transition of a
  -- leader never runs out of it.
  pub handle-leader_ends :
      (fuel : ℕ) (s : ConsensusState W) (v : ℕ)
      → is_proposer env ≡ true
      → s.hotstuff.view ≡ pos v
      → transitions_left s < fuel
      → handle env fuel s ≢ returns none
  unfolding handle
  handle-leader_ends zero s v leads at enough r = omega arith
  handle-leader_ends (suc fuel) s v leads at enough r =
      let ((s1, a), r1, r2) = >>=-eq-returns (advance env s) _ r in
      elim (goes-cases a) [
        | inl q ↦
            let (v', at', fewer) =
              advance-Fewer s s1 v leads at (r1 ∙ ap (λ b. returns (s1, b)) q) in
            let l : transitions_left s1 < fuel =
              omega (arith, fewer, ap pos_part at, ap pos_part at') in
            handle-leader_ends fuel s1 v' leads at' l (ground arith)
        | inr q ↦ ground arith
      ]
