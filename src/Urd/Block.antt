-- ===== src/Urd/Block.antt =====
-- source/urd/types: blocks, commitment intentions and certificates, messages between shards, and what
-- their hashes are made of. The Merkle tree, the marshalled votes and times are parameters. Caches of
-- hashes that are not exported hold what is computed here from the same data; the hash and the proofs
-- of a block are kept in its header, as in the code. A nil slice of transactions is `none`.
pub mod Check
pub mod Marks
pub mod Certificate
pub mod Hash
mod Tests
use urd_code.Prelude.{
  ℕ, Bool, true, false, Option, none, some, List, [], ◌∷◌, map, if◌then◌else◌, get_elem?,
}
use urd_code.Prelude.Int.{ℤ}
use urd_code.Prelude.Bytes.{Bytes}
use urd_code.Prelude.Calls.{Call, returns, panics, ◌>>=◌}
use urd_code.Convert.{int32, int64, int_to_bytes}
use urd_code.Hotstuff.Votes.{Vote, AggregatedVote}
use urd_code.Pyramid.Parts.{Proof}

-- `merkle.HashFromByteSlices`, `ProofsFromByteSlices`, `Verify` and `ComputeRootHash` of a proof, and
-- the marshalled forms of a vote and a time.
pub record Hashing : Type 0 where
  pub merkle : List Bytes → Bytes
  pub proofs : List Bytes → Bytes × List Proof
  pub verifies : Proof → Bytes → Bytes → Bool
  pub root_of : Proof → Bytes
  pub aggregated_bytes : AggregatedVote → Bytes
  pub time_bytes : ℕ → Bytes

pub record CommitIntention : Type 0 where
  pub intention_hash : List Bytes
  pub aggregated_signatures : List (Option AggregatedVote)

pub record ProofOfIntention : Type 0 where
  pub intention_hash_proof : Option Proof
  pub right_hash : Bytes

pub record CommitCertificateCore : Type 0 where
  pub hash : Bytes
  pub mk_proof : ProofOfIntention
  pub intention_brief : List Bytes

pub record OutputTxsProof : Type 0 where
  pub block_proof : Option Proof
  pub opt_proof : Option Proof

pub record CrossShardMessage : Type 0 where
  pub source_chain : Bytes
  pub agg_vote : Option AggregatedVote
  pub intention_brief : List Bytes
  pub proof_of_intention : Option ProofOfIntention
  pub op_txs : List Bytes
  pub output_txs_proof : Option OutputTxsProof

pub record Header : Type 0 where
  pub hash_pointer : Bytes
  pub chain_id : Bytes
  pub view : ℤ
  pub round : ℤ
  pub time : ℕ
  pub prepare_root : Bytes
  pub cross_shard_root : Bytes
  pub output_txs_root : Bytes
  pub last_agg_sig_root : Bytes
  pub commit_intention_root : Bytes
  pub commit_certificate_root : Bytes
  pub commit_txs_list_root : Bytes
  pub state_root : Bytes
  pub hash : Bytes
  pub mk_proof : List Proof

pub record Block : Type 0 where
  pub header : Header
  pub p_txs : Option (List Bytes)
  pub cross_shard_txs : Option (List Bytes)
  pub opt : List Bytes
  pub agg_sig_vote : Option AggregatedVote
  pub ci : Option CommitIntention
  pub cc : List CommitCertificateCore
  pub c_txs : List (List Bytes)
  pub c_txs_proof : List (Option OutputTxsProof)

abbrev pub is_empty {ℓ} : {A : Type ℓ} → List A → Bool
is_empty [] = true
is_empty (_ ∷ _) = false

-- A method that reads a field of a nil pointer panics.
abbrev pub deref {ℓ} : {A : Type ℓ} → Option A → Call A
deref none = panics
deref (some a) = returns a

abbrev first_or_nil : List Bytes → Bytes
first_or_nil [] = []
first_or_nil (b ∷ bs) = b

abbrev set_first : Bytes → List Bytes → List Bytes
set_first b [] = b ∷ []
set_first b (_ ∷ bs) = b ∷ bs

-- `GetLastHashOfAggVote`
abbrev pub last_hash_of_agg_vote : AggregatedVote → Bytes
last_hash_of_agg_vote v = first_or_nil v.for_necessary_data

-- `SetLastHashOfVote`
abbrev pub set_last_hash_of_vote : Vote → Bytes → Vote
set_last_hash_of_vote v hash = record v { for_necessary_data = set_first hash v.for_necessary_data }

-- `CrossShardMessage.GetLastHash`
abbrev pub get_last_hash : CrossShardMessage → Call Bytes
get_last_hash csm = do v ← deref csm.agg_vote; returns (last_hash_of_agg_vote v)

-- The hash of every element, where one may panic.
unfoldable pub hash_all {ℓ} : {A : Type ℓ} → (A → Call Bytes) → List A → Call (List Bytes)
hash_all f [] = returns []
hash_all f (a ∷ as') = do b ← f a; rest ← hash_all f as'; returns (b ∷ rest)

module _ (hashing : Hashing) where
  -- `Proof.ContentHash`
  abbrev content_hash : Option Proof → Call Bytes
  content_hash p = do
    q ← deref p
    returns (
        hashing.merkle (
          int_to_bytes int64 q.index
          ∷ int_to_bytes int64 q.total
          ∷ q.leaf_hash
          ∷ hashing.merkle q.aunts
          ∷ []))

  -- `AggregatedVote.Hash`
  abbrev agg_vote_hash : Option AggregatedVote → Call Bytes
  agg_vote_hash v = do w ← deref v; returns (hashing.merkle (hashing.aggregated_bytes w ∷ []))

  unfoldable pub right_hash : CommitIntention → Call Bytes
  unfolding hash_all
  right_hash ci = do
    hashes ← hash_all agg_vote_hash ci.aggregated_signatures
    returns (hashing.merkle hashes)

  unfoldable pub ci_hash : CommitIntention → Call Bytes
  unfolding right_hash
  ci_hash ci = do
    right ← right_hash ci
    returns (hashing.merkle (hashing.merkle ci.intention_hash ∷ right ∷ []))

  -- `ProofOfIntention.Hash`
  unfoldable pub poi_hash : ProofOfIntention → Call Bytes
  unfolding int_to_bytes
  poi_hash poi = do
    content ← content_hash poi.intention_hash_proof
    returns (hashing.merkle (content ∷ poi.right_hash ∷ []))

  unfoldable pub core_hash : CommitCertificateCore → Call Bytes
  unfolding poi_hash
  core_hash core = do
    proof ← poi_hash core.mk_proof
    returns (hashing.merkle (core.hash ∷ hashing.merkle core.intention_brief ∷ proof ∷ []))

  -- `CommitCertificate.Hash`
  unfoldable pub cc_hash : List CommitCertificateCore → Call Bytes
  unfolding hash_all core_hash
  cc_hash cc = do hashes ← hash_all core_hash cc; returns (hashing.merkle hashes)

  -- `OutputTxsProof.Hash`
  unfoldable pub output_proof_hash : Option OutputTxsProof → Call Bytes
  unfolding int_to_bytes
  output_proof_hash p = do
    q ← deref p
    block ← content_hash q.block_proof
    output ← content_hash q.opt_proof
    returns (hashing.merkle (block ∷ output ∷ []))

  -- A root that is there stays, and one of nothing stays empty.
  abbrev root_or_txs : Bytes → Option (List Bytes) → Bytes
  root_or_txs root txs =
      if is_empty root then elim txs [ none ↦ root | some t ↦ hashing.merkle t ] else root

  abbrev root_or_vote : Bytes → Option AggregatedVote → Call Bytes
  root_or_vote root v =
      if is_empty root
      then elim v [ none ↦ returns root | some w ↦ agg_vote_hash (some w) ]
      else returns root

  abbrev root_or_intention : Bytes → Option CommitIntention → Call Bytes
  root_or_intention root c =
      if is_empty root then elim c [ none ↦ returns root | some w ↦ ci_hash w ] else returns root

  unfoldable pub commit_txs_root : Block → Call Bytes
  unfolding hash_all output_proof_hash
  commit_txs_root b = do
    proofs ← hash_all output_proof_hash b.c_txs_proof
    returns
        (hashing.merkle (hashing.merkle (map hashing.merkle b.c_txs) ∷ hashing.merkle proofs ∷ []))

  -- `fillInHeader`
  unfoldable pub fill_in_header : Block → Call Block
  unfolding ci_hash cc_hash commit_txs_root
  fill_in_header b = do
    let h = b.header
    agg ← root_or_vote h.last_agg_sig_root b.agg_sig_vote
    intention ← root_or_intention h.commit_intention_root b.ci
    certificate ←
        if is_empty h.commit_certificate_root
        then cc_hash b.cc
        else returns h.commit_certificate_root
    txs_list ←
        if is_empty h.commit_txs_list_root
        then commit_txs_root b
        else returns h.commit_txs_list_root
    returns (record b {
      header = record h {
        prepare_root = root_or_txs h.prepare_root b.p_txs;
        cross_shard_root = root_or_txs h.cross_shard_root b.cross_shard_txs;
        output_txs_root =
            if is_empty h.output_txs_root then hashing.merkle b.opt else h.output_txs_root;
        last_agg_sig_root = agg;
        commit_intention_root = intention;
        commit_certificate_root = certificate;
        commit_txs_list_root = txs_list;
      };
    })

  -- `packageHash` of `calBlockHashAndProof`.
  abbrev package_hash : Header → Bytes
  package_hash h = hashing.merkle (
      h.chain_id
      ∷ int_to_bytes int64 h.view
      ∷ int_to_bytes int32 h.round
      ∷ hashing.time_bytes h.time
      ∷ h.last_agg_sig_root
      ∷ h.commit_certificate_root
      ∷ [])

  abbrev block_leaves : Header → List Bytes
  block_leaves h =
      package_hash h
      ∷ h.hash_pointer
      ∷ h.prepare_root
      ∷ h.output_txs_root
      ∷ h.commit_intention_root
      ∷ h.commit_txs_list_root
      ∷ h.state_root
      ∷ []

  unfoldable pub cal_block_hash : Block → Call Block
  unfolding fill_in_header int_to_bytes
  cal_block_hash b = do
    filled ← fill_in_header b
    let (root, proof_list) = hashing.proofs (block_leaves filled.header)
    returns
        (record filled { header = record (filled.header) { hash = root; mk_proof = proof_list } })

  -- `Block.Hash`: the block with its hash kept, whose header has the hash.
  unfoldable pub hashed : Block → Call Block
  unfolding cal_block_hash
  hashed b = if is_empty b.header.hash then cal_block_hash b else returns b

  -- `ProofOfIndex`, whose indices are 1, 3 and 4.
  unfoldable pub proof_of_index : Block → ℕ → Call (Option Proof)
  unfolding cal_block_hash
  proof_of_index b i = do
    c ← if is_empty b.header.mk_proof then cal_block_hash b else returns b
    returns (get_elem? c.header.mk_proof i)

  -- `GetOutputTxsProofOf`
  unfoldable pub output_txs_proof_of : Block → ℕ → Call OutputTxsProof
  unfolding proof_of_index
  output_txs_proof_of b index = do
    block_proof ← proof_of_index b 3
    proof ← deref (get_elem? (hashing.proofs b.opt).1 index)
    returns (record { block_proof = block_proof; opt_proof = some proof })
