-- ===== src/Pyramid/Consensus.antt =====
-- source/pyramid/consensus/main.go and constypes/cross_shard.go: the state of a node and the messages
-- it takes. The application, the two mempools, the store, the clock and the random numbers are a type
-- of outside worlds with their operations; the codecs, hashes and signatures are parameters. What is
-- sent, also by a goroutine, is listed where the sending starts. Logging is left out.
pub mod Judge
pub mod Process
pub mod Create
pub mod Messages
pub mod Frames
pub mod Moves
pub mod Receives
pub mod Run
use urd_code.Prelude.{
  ℕ, zero, suc, ◌+◌, ◌%◌, Bool, true, false, not, ◌||◌, ◌&&◌, Option, none, some, List, [], ◌∷◌,
  ◌++◌, map, if◌then◌else◌, ◌==◌, ltb, length,
}
use urd_code.Prelude.Int.{ℤ, pos, negsuc, eqb_ℤ, ltb_ℤ}
use urd_code.Prelude.Bytes.{Bytes, bytes_eq}
use urd_code.Prelude.Maps.{Map, lookup}
use urd_code.Prelude.IntMaps.{find_at, put_at, delete_at}
use urd_code.Prelude.Calls.{Call, returns, panics, ◌>>=◌}
use urd_code.BitVector.{byte}
use urd_code.Signer.{Verifier}
use urd_code.Pyramid.Parts.{Part, Proof, Codec}
use urd_code.Pyramid.Votes.{Proposal, StepVote, PrecommitAggregated, Wire, verify_signatures}
use urd_code.Pyramid.HeightData.{HeightData, size_of, my_verifier}
use urd_code.Pyramid.Block.{Block, Hashing, block_hash}

abbrev pub step_new_height : ℕ
step_new_height = 1

abbrev pub step_propose : ℕ
step_propose = 3

abbrev pub step_prevote : ℕ
step_prevote = 4

abbrev pub step_precommit : ℕ
step_precommit = 5

abbrev pub step_commit : ℕ
step_commit = 6

pub record CrossShardBlock : Type 0 where
  pub block : Block
  pub collective_signatures : PrecommitAggregated

pub record MessageAccept : Type 0 where
  pub b_block_hash : Bytes
  pub collective_signatures : PrecommitAggregated

pub record MessageAcceptSet : Type 0 where
  pub accepts : List MessageAccept
  pub block_hash : Bytes

pub record MessageCommit : Type 0 where
  pub b_block_hash : Bytes
  pub collective_signatures : PrecommitAggregated

pub record MessageOk : Type 0 where
  pub height : ℤ
  pub src_chain : Bytes

pub data Message : Type 0 where
  part : Part → Message
  proposal : Proposal → Message
  prevote : StepVote → Message
  precommit : StepVote → Message
  cross_shard_block : CrossShardBlock → Message
  message_accept : MessageAccept → Message
  message_commit : MessageCommit → Message
  message_ok : MessageOk → Message

pub data Identity : Type 0 where
  i_shard b_shard no_shard : Identity

-- A node's settings, and what it calls that is not modelled. An encoded receipt stands for a receipt.
pub record Env (W : Type 0) : Type 0 where
  pub identity : Identity
  -- The chains that `RelatedShards` maps to true.
  pub related_shards : List Bytes
  pub signer_index : ℕ
  pub min_block_interval : ℕ
  pub max_part_size : ℕ
  pub max_block_tx_num : ℕ
  pub hashing : Hashing
  pub wire : Wire
  pub proto_bytes : Block → Bytes
  pub from_bytes : Bytes → Call (Option Block)
  pub verify_proof : Proof → Bytes → Bytes → Bool
  pub proofs : List Bytes → Bytes × List Proof
  pub aggregate_signatures : List Bytes → Option Bytes
  pub sign : Bytes → Option Bytes
  pub encode_cross_shard_block : CrossShardBlock → Bytes
  pub decode_cross_shard_block : Bytes → Option CrossShardBlock
  pub encode_accept_set : MessageAcceptSet → Bytes
  pub decode_accept_set : Bytes → Option MessageAcceptSet
  pub encode_commit : MessageCommit → Bytes
  pub decode_commit : Bytes → Option MessageCommit
  pub pre_execution_b : Block → W → Call (W × Bool)
  pub pre_execution_i : Block → W → Call (W × Bool)
  pub execution_inner_shard : Block → W → Call (W × List Bytes)
  pub accept_cross_shard : Block → Bytes → Bool → W → Call (W × List Bytes)
  pub accept_commit_shard : List Bytes → List Bool → Bytes → W → Call (W × List Bytes)
  pub commit : W → W × Bytes
  pub fill_data : Block → W → Block
  pub ok_receipt : Bytes
  pub reap : W → ℕ → List Bytes
  pub reap_cross_shard : W → ℕ → List Bytes
  pub update : List Bytes → W → W
  pub update_cross_shard : List Bytes → W → W
  pub has_block : W → Bytes → Bool
  pub set_block : ℤ → Bytes → Block → W → W
  pub block_by_height : W → ℤ → Bytes → Option Bytes
  pub block_by_hash : W → Bytes → Option Bytes
  pub now : W → W × ℕ
  pub intn : W → ℕ → W × ℕ

-- Heights and rounds of the node start at 0 and only grow. A nil map of accepts, or of the senders
-- that are seen, is `none`: a write to it panics. Keys with the value true stand for a set.
pub record ConsensusState (W : Type 0) : Type 0 where
  pub height : ℕ
  pub round : ℕ
  pub step : ℕ
  pub height_datas : HeightData Block
  pub relay_message_channel : List (ℤ × List (ℤ × List Message))
  pub last_block_time : ℕ
  pub last_block_hash : Bytes
  pub last_receipt_root : Bytes
  pub last_state_root : Bytes
  pub block_hash : Bytes
  pub cross_shard_block_pool : Map CrossShardBlock
  pub commit_pool : Map MessageCommit
  pub committed : List Bytes
  pub bcount : ℤ
  pub bseen : Option (List Bytes)
  pub pending_cross_shard_block_hash : Bytes
  pub pending_block_size : ℕ
  pub ma_count : ℤ
  pub ma_pool : Option (Map MessageAccept)
  pub shard_height : Map ℤ
  pub world : W
  pub sent : List (Bytes × Message)

abbrev pub mem_bytes : Bytes → List Bytes → Bool
mem_bytes b [] = false
mem_bytes b (x ∷ xs) = bytes_eq x b || mem_bytes b xs

module _ {W : Type 0} where
  abbrev pub send_to : Bytes → Message → ConsensusState W → ConsensusState W
  send_to chain m s = record s { sent = s.sent ++ (chain, m) ∷ [] }

  abbrev pub send_internal : Message → ConsensusState W → ConsensusState W
  send_internal m s = send_to s.height_datas.my_chain_id m s

  -- `addRelayMessageIfOverTime`: the first message of a later height is kept, and not reported.
  unfoldable pub add_relay_message : ℤ → ℤ → Message → ConsensusState W → ConsensusState W × Bool
  unfolding find_at put_at
  add_relay_message height round m s =
      if ltb_ℤ (pos s.height) height || (eqb_ℤ (pos s.height) height && ltb_ℤ (pos s.round) round)
      then elim (find_at height s.relay_message_channel) [
        | none ↦ (
          record s {
            relay_message_channel = put_at height ((round, m ∷ []) ∷ []) s.relay_message_channel;
          },
          false,
        )
        | some rounds ↦
            let before : List Message = elim (find_at round rounds) [ none ↦ [] | some ms ↦ ms ] in
            (
              record s {
                relay_message_channel =
                    put_at height (put_at round (before ++ m ∷ []) rounds) s.relay_message_channel;
              },
              true,
            )
      ]
      else (s, false)

  unfoldable pub next : ConsensusState W → ConsensusState W
  unfolding delete_at
  next s =
      if s.step == step_commit
      then record s {
        relay_message_channel = delete_at (pos s.height) s.relay_message_channel;
        round = 0;
        height = suc s.height;
        step = step_new_height;
      }
      else record s { step = suc s.step }

  -- The messages that `enterNewRound` takes out again.
  unfoldable pub relayed : ConsensusState W → List Message
  unfolding find_at
  relayed s = elim (find_at (pos s.height) s.relay_message_channel) [
    | none ↦ []
    | some rounds ↦ elim (find_at (pos s.round) rounds) [ none ↦ [] | some ms ↦ ms ]
  ]

module _ {W : Type 0} (env : Env W) where
  abbrev pub is_i : Bool
  is_i = elim env.identity [ i_shard ↦ true | _ ↦ false ]

  abbrev pub is_b : Bool
  is_b = elim env.identity [ b_shard ↦ true | _ ↦ false ]

  abbrev pub is_related : Bytes → Bool
  is_related chain = mem_bytes chain env.related_shards

  -- `Block.ValidateBasic` returns nil.
  abbrev pub block_codec : Codec Block
  block_codec = record {
    chain_id = λ b. b.header.chain_id;
    height = λ b. b.header.height;
    is_basic = λ b. true;
    hash = λ b. (block_hash env.hashing b).1;
    proto_bytes = env.proto_bytes;
    from_bytes = env.from_bytes;
    verify_proof = env.verify_proof;
    proofs = env.proofs;
  }

  -- `VerifySignatures` against the keys of the chain that the signatures name.
  unfoldable pub verify_collective : ConsensusState W → PrecommitAggregated → Call Bool
  unfolding verify_signatures lookup byte
  verify_collective s sig =
      verify_signatures env.wire sig (lookup sig.header.chain_id s.height_datas.all_validator_set)
        (byte sig.validator_bit_vector)

  -- `%` panics for a shard without validators.
  unfoldable pub calculate_proposer : ConsensusState W → Call ℕ
  unfolding lookup
  calculate_proposer s = do
    n ← size_of (my_verifier s.height_datas)
    if n == 0 then panics else returns ((s.height + s.round) % n)

  unfoldable pub is_proposer : ConsensusState W → Call Bool
  unfolding calculate_proposer
  is_proposer s = do p ← calculate_proposer s; returns (p == env.signer_index)

  abbrev pub send_to_related_shards : Message → ConsensusState W → ConsensusState W
  send_to_related_shards m s = record s {
    sent = s.sent ++ map (λ chain. (chain, m)) env.related_shards;
  }
