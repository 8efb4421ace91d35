-- ===== src/Pyramid/Consensus/Run/Reach.antt =====
-- source/pyramid/consensus/main.go: the states that a node reaches, from `NewConsensusState` and `Start`
-- by any messages in any order, and what holds in all of them.
use urd_code.Prelude.{ℕ, ◌≡◌, ◌≤◌, refl, true, false, Option, none, some, List, [], ◌∷◌, arith}
use urd_code.Prelude.Int.{pos, pred_ℤ, ltb_ℤ, eqb_ℤ_iff}
use urd_code.Prelude.Bytes.{Bytes}
use urd_code.Prelude.Maps.{Map}
use urd_code.Prelude.IntMaps.{find_at, put_at, find_at-put_at}
use urd_code.Prelude.Calls.{returns}
use urd_code.Signer.{Verifier}
use urd_code.Pyramid.HeightData.{Peer}
use urd_code.Pyramid.Consensus.{
  Env, ConsensusState, Message, MessageOk, message_ok, mem_bytes, add_relay_message,
}
use urd_code.Pyramid.Consensus.Messages.{transits, receive_ok}
use urd_code.Pyramid.Consensus.Frames.{AcceptsValid}
use urd_code.Pyramid.Consensus.Moves.{OksValid}
use urd_code.Pyramid.Consensus.Run.{do_message, start, new_consensus_state}
use urd_code.Pyramid.Consensus.Run.Invariants.{
  HeightsAgree, HasQuorums, IsValid, do_message-IsValid,
}
use urd_code.Pyramid.Consensus.Run.Starts.{new-Counts, start-IsValid}

-- The states of a node between two messages.
pub data Reaches {W : Type 0} (env : Env W) : ConsensusState W → Type 0 where
  started :
      (new_verifier : List Bytes → Option Verifier) (chain : Bytes) (peers : Map (List Peer))
      (world : W) (now fuel : ℕ) (s0 : ConsensusState W) {s : ConsensusState W}
      → new_consensus_state new_verifier chain peers world now ≡ returns s0
      → start env fuel s0 ≡ returns (some s)
      → Reaches env s
  took :
      {s : ConsensusState W} (fuel : ℕ) (m : Message) {s' : ConsensusState W}
      → Reaches env s
      → do_message env fuel m s ≡ returns (some s')
      → Reaches env s'

module _ {W : Type 0} (env : Env W) where
  Reaches-IsValid : {s : ConsensusState W} → Reaches env s → IsValid env s
  Reaches-IsValid (started new_verifier chain peers world now fuel s0 {s = s} e r) =
      let (heights, counts, zero_height) = new-Counts env new_verifier chain peers world now s0 e in
      start-IsValid env fuel s0 s heights counts zero_height r
  Reaches-IsValid (took {s = s} fuel m {s' = s'} reach r) =
      (do_message-IsValid env fuel m s s' (Reaches-IsValid reach) r).0

  -- In every state that a node reaches, it has a majority of prevotes of the height if it is at the
  -- precommit step or later, and one of precommits if it is at the commit step.
  pub Reaches-HasQuorums : (s : ConsensusState W) → Reaches env s → HasQuorums s
  Reaches-HasQuorums s reach = (Reaches-IsValid reach).1

  -- In every state that a node reaches, its votes and parts are collected for its height, and both
  -- rounds are 0.
  pub Reaches-HeightsAgree : (s : ConsensusState W) → Reaches env s → HeightsAgree s
  Reaches-HeightsAgree s reach = (Reaches-IsValid reach).0

  -- In every state that a node reaches: where it keeps the senders of OK messages, it is in an I
  -- shard, and the counter of these messages is the number of related shards less that of the
  -- senders; where it keeps none, the counter is 0. The counter of accepts is the number of related
  -- shards less that of the accepts in the pool, or -1 where no pool is open.
  pub Reaches-counts : (s : ConsensusState W) → Reaches env s → OksValid env s × AcceptsValid env s
  Reaches-counts s reach = (Reaches-IsValid reach).2

  -- A message that a node takes in a state that it reaches never leads to an earlier height.
  pub do_message_mono :
      (fuel : ℕ) (m : Message) (s s' : ConsensusState W)
      → Reaches env s
      → do_message env fuel m s ≡ returns (some s')
      → s.height ≤ s'.height
  do_message_mono fuel m s s' reach r =
      (do_message-IsValid env fuel m s s' (Reaches-IsValid reach) r).1

  -- An OK message of a later height, the first message that comes for that height, of a sender not
  -- seen: it is kept for its height, and it is counted for the present height too.
  pub receive_ok-early :
      (m : MessageOk) (s : ConsensusState W) (seen : List Bytes)
      → ltb_ℤ (pos s.height) m.height ≡ true
      → find_at m.height s.relay_message_channel ≡ none
      → s.bseen ≡ some seen
      → mem_bytes m.src_chain seen ≡ false
      → (s' : ConsensusState W) × (receive_ok env m s ≡ returns (s', transits))
        × (find_at m.height s'.relay_message_channel ≡ some ((pos 0, message_ok m ∷ []) ∷ []))
        × (s'.bcount ≡ pred_ℤ s.bcount)
        × (s'.bseen ≡ some (m.src_chain ∷ seen))
  unfolding receive_ok add_relay_message
  receive_ok-early m s seen later first e fresh =
      let rounds = (pos 0, message_ok m ∷ []) ∷ [] in
      let kept = put_at m.height rounds s.relay_message_channel in
      (
        record s {
          relay_message_channel = kept;
          bcount = pred_ℤ s.bcount;
          bseen = some (m.src_chain ∷ seen);
        },
        ground arith,
        ground (
          arith,
          find_at-put_at m.height m.height rounds s.relay_message_channel,
          eqb_ℤ_iff m.height m.height,
        ),
        refl,
        refl,
      )
