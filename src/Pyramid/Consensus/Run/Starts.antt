-- ===== src/Pyramid/Consensus/Run/Starts.antt =====
-- source/pyramid/consensus/main.go: a new node, and the state that it starts in.
use urd_code.Prelude.{ℕ, ◌≡◌, refl, inl, inr, Option, some, List, [], ◌∷◌, arith, Option-cases, map}
use urd_code.Prelude.Int.{ℤ, pos}
use urd_code.Prelude.Bytes.{Bytes}
use urd_code.Prelude.Maps.{Map, insert}
use urd_code.Prelude.Calls.{returns, >>=-eq-returns, call_cases}
use urd_code.Signer.{Verifier}
use urd_code.Pyramid.HeightData.{
  HeightData, Peer, new_height_data, set_peers, set_shard_info, clear_all, sum_votes, unset,
}
use urd_code.Pyramid.Block.{Block}
use urd_code.Pyramid.Consensus.{Env, ConsensusState}
use urd_code.Pyramid.Consensus.Create.{enter_new_height}
use urd_code.Pyramid.Consensus.Receives.{CountsValid}
use urd_code.Pyramid.Consensus.Run.{handle_state_transition, start, new_consensus_state}
use urd_code.Pyramid.Consensus.Run.Invariants.{
  HeightsAgree, IsValid, enter_new_height-IsValid, take_messages-Keeps, handle-Keeps,
}

module _ {W : Type 0} (env : Env W) where
  set_peers-keeps :
      (new_verifier : List Bytes → Option Verifier) (peers : Map (List Peer)) (h : HeightData Block)
      → ((set_peers new_verifier peers h).0.height ≡ h.height)
        × ((set_peers new_verifier peers h).0.round ≡ h.round)
  unfolding set_peers
  set_peers-keeps new_verifier [] h = (refl, refl)
  set_peers-keeps new_verifier ((chain, ps) ∷ peers) h =
      elim (Option-cases (new_verifier (map (λ (p : Peer). p.pubkey) ps))) [
        | inl e ↦ ground arith
        | inr (v, e) ↦
            let h1 : HeightData Block = record h {
              all_validator_set = insert chain v h.all_validator_set;
              shard_votes = insert chain (sum_votes 0 ps) h.shard_votes;
            } in
            ground (arith, set_peers-keeps new_verifier peers h1)
      ]

  new_height_data-empty :
      (new_verifier : List Bytes → Option Verifier) (chain : Bytes) (height : ℤ)
      (peers : Map (List Peer)) (h : HeightData Block)
      → new_height_data new_verifier chain height peers ≡ returns h
      → (h.height ≡ height) × (h.round ≡ pos 0)
  unfolding new_height_data clear_all set_shard_info
  new_height_data-empty new_verifier chain height peers h r =
      let h0 : HeightData Block = unset chain height in
      let h1 : HeightData Block = record h0 {
        peer_list = peers;
        all_validator_set = [];
        shard_votes = [];
      } in
      ground (arith, set_peers-keeps new_verifier peers h1)

  -- A new node is as it should be, but for its votes.
  pub new-Counts :
      (new_verifier : List Bytes → Option Verifier) (chain : Bytes) (peers : Map (List Peer))
      (world : W) (now : ℕ) (s : ConsensusState W)
      → new_consensus_state new_verifier chain peers world now ≡ returns s
      → HeightsAgree s × CountsValid env s × (s.height ≡ 0)
  unfolding new_consensus_state
  new-Counts new_verifier chain peers world now s r =
      let (h, r1, r2) =
        >>=-eq-returns (new_height_data {B = Block} new_verifier chain (pos 0) peers) _ r in
      ground (arith, new_height_data-empty new_verifier chain (pos 0) peers h r1)

  pub start-IsValid :
      (fuel : ℕ) (s s' : ConsensusState W)
      → HeightsAgree s
      → CountsValid env s
      → s.height ≡ 0
      → start env fuel s ≡ returns (some s')
      → IsValid env s'
  unfolding start
  start-IsValid fuel s s' h c e r = elim (call_cases (enter_new_height env s)) [
    | inr e1 ↦ ground arith
    | inl ((s1, ms), e1) ↦
        let (h1, _) = enter_new_height-IsValid env s s1 ms h c e1 in
        let rest = handle_state_transition env fuel in
        ground (arith, take_messages-Keeps env fuel rest ms (handle-Keeps env fuel) s1 s' h1)
  ]
