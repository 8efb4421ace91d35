-- ===== src/Pyramid/Consensus/Run/Receive.antt =====
-- source/pyramid/consensus/main.go: `Receive`, which reads and tests a message of the network before the
-- node takes it. The decoders and the test of a proof are parameters; what `doMessage` answers is left
-- out, and a block passes its `ValidateBasic`, which returns nil.
use urd_code.Prelude.{
  ℕ, Bool, Option, none, some, if◌then◌else◌, ◌==◌, ◌⊎◌, inl, inr, ◌≡◌, ◌≤◌, refl, arith,
}
use urd_code.Prelude.Bytes.{Bytes}
use urd_code.Prelude.Calls.{Call, returns, ◌>>=◌}
use urd_code.Pyramid.Parts.{Part, Proof, validate_part}
use urd_code.Pyramid.Votes.{
  Proposal, StepVote, validate_proposal, validate_prevote, validate_precommit, validate_aggregated,
}
use urd_code.Pyramid.Consensus.{
  Env, ConsensusState, Message, CrossShardBlock, MessageAccept, MessageCommit, MessageOk, part,
  proposal, prevote, precommit, cross_shard_block, message_accept, message_commit, message_ok,
}
use urd_code.Pyramid.Consensus.Run.{do_message}
use urd_code.Pyramid.Consensus.Run.Reach.{Reaches, took, do_message_mono}

-- The numbers of the message types.
pub data MessageType : Type 0 where
  type_part type_proposal type_prevote type_precommit type_accept type_commit type_ok
        type_cross_shard_block type_other :
      MessageType

unfoldable pub message_type : ℕ → MessageType
message_type n =
    if n == 1
    then type_part
    else if n == 4
    then type_proposal
    else if n == 5
    then type_prevote
    else if n == 6
    then type_precommit
    else if n == 8
    then type_accept
    else if n == 9
    then type_commit
    else if n == 10
    then type_ok
    else if n == 11
    then type_cross_shard_block
    else type_other

pub record Decoders : Type 0 where
  pub is_basic_proof : Proof → Bool
  pub part_from_bytes : Bytes → Option Part
  pub proposal_from_bytes : Bytes → Option Proposal
  pub vote_from_bytes : Bytes → Option StepVote
  pub cross_shard_block_from_bytes : Bytes → Option CrossShardBlock
  pub accept_from_bytes : Bytes → Option MessageAccept
  pub commit_from_bytes : Bytes → Option MessageCommit
  pub ok_from_bytes : Bytes → Option MessageOk

pub data ReceiveError : Type 0 where
  unmarshal_error not_valid unknown_type : ReceiveError

-- What is decoded, if its `ValidateBasic` finds no error.
abbrev admit {ℓ κ} :
    {A : Type ℓ} {E : Type κ} → Option A → (A → Option E) → (A → Message) → ReceiveError ⊎ Message
admit none validate make = inl unmarshal_error
admit (some a) validate make = elim (validate a) [ none ↦ inr (make a) | some _ ↦ inl not_valid ]

-- A message without a test.
abbrev always {ℓ} : {A : Type ℓ} → A → Option ReceiveError
always _ = none

sum_cases {ℓ κ} :
    {A : Type ℓ} {B : Type κ} (x : A ⊎ B) → ((a : A) × (x ≡ inl a)) ⊎ ((b : B) × (x ≡ inr b))
sum_cases (inl a) = inl (a, refl)
sum_cases (inr b) = inr (b, refl)

module _ (d : Decoders) where
  unfoldable pub read_message : MessageType → Bytes → ReceiveError ⊎ Message
  unfolding validate_part validate_proposal validate_prevote validate_precommit validate_aggregated
  read_message type_part bz = admit (d.part_from_bytes bz) (validate_part d.is_basic_proof) part
  read_message type_proposal bz = admit (d.proposal_from_bytes bz) validate_proposal proposal
  read_message type_prevote bz = admit (d.vote_from_bytes bz) validate_prevote prevote
  read_message type_precommit bz = admit (d.vote_from_bytes bz) validate_precommit precommit
  read_message type_accept bz =
      admit (d.accept_from_bytes bz)
        (λ (m : MessageAccept). validate_aggregated m.collective_signatures) message_accept
  read_message type_commit bz =
      admit (d.commit_from_bytes bz)
        (λ (m : MessageCommit). validate_aggregated m.collective_signatures) message_commit
  read_message type_ok bz = admit (d.ok_from_bytes bz) always message_ok
  read_message type_cross_shard_block bz =
      admit (d.cross_shard_block_from_bytes bz)
        (λ (m : CrossShardBlock). validate_aggregated m.collective_signatures) cross_shard_block
  read_message type_other bz = inl unknown_type

  module _ {W : Type 0} (env : Env W) where
    -- A message that is refused changes nothing.
    unfoldable pub receive_bytes :
        ℕ → ℕ → Bytes → ConsensusState W → Call (Option (ConsensusState W) × Option ReceiveError)
    unfolding message_type read_message do_message
    receive_bytes fuel type_number bz s = elim (read_message (message_type type_number) bz) [
      | inl e ↦ returns (some s, some e)
      | inr m ↦ do s' ← do_message env fuel m s; returns (s', none)
    ]

    read_cases :
        (t : MessageType) (bz : Bytes)
        → ((e : ReceiveError) × (read_message t bz ≡ inl e))
          ⊎ ((m : Message) × (read_message t bz ≡ inr m))
    read_cases t bz = sum_cases (read_message t bz)

    -- Whatever bytes of whatever type a node receives in a state that it reaches, the state after it
    -- is one that it reaches, of the same height or a later one.
    pub receive_bytes-Reaches :
        (fuel type_number : ℕ) (bz : Bytes) (s s' : ConsensusState W) (e : Option ReceiveError)
        → Reaches env s
        → receive_bytes fuel type_number bz s ≡ returns (some s', e)
        → Reaches env s' × (s.height ≤ s'.height)
    unfolding receive_bytes
    receive_bytes-Reaches fuel type_number bz s s' e reach r =
        elim (read_cases (message_type type_number) bz) [
          | inl (err, h) ↦ let same : s' ≡ s = ground arith in (rw same reach, ground arith)
          | inr (m, h) ↦
              let step : do_message env fuel m s ≡ returns (some s') = ground arith in
              (took fuel m reach step, do_message_mono env fuel m s s' reach step)
        ]
