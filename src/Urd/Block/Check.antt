-- ===== src/Urd/Block/Check.antt =====
-- source/urd/types: what is verified of certificates, of messages between shards and of blocks.
-- `true` and `none` stand for no error.
use urd_code.Prelude.{
  ℕ, suc, Bool, true, false, not, ◌||◌, Option, none, some, List, [], ◌∷◌, map, if◌then◌else◌, ◌==◌,
  get_elem?, set, replicate, length,
}
use urd_code.Prelude.Int.{pos, ltb_ℤ}
use urd_code.Prelude.Bytes.{Bytes, bytes_eq}
use urd_code.Prelude.Calls.{Call, returns, panics, ◌>>=◌}
use urd_code.Hotstuff.Votes.{AggregatedVote}
use urd_code.Urd.Block.{
  Hashing, ProofOfIntention, OutputTxsProof, CommitCertificateCore, CrossShardMessage, Block, deref,
  is_empty, last_hash_of_agg_vote, get_last_hash,
}

pub data BlockError : Type 0 where
  signature_count intention_hash certificate_count certificate_hash certificate : BlockError
  proof_count output : BlockError

-- `results` and `Errors` of `CommitCertificate.Result`.
pub record Results : Type 0 where
  pub results : List Bytes
  pub errors : List Bool

-- The body of the inner loop, where the result at `i` is read.
abbrev pub mark_read : ℕ → Bytes → Bytes → Results → Results
mark_read i bz r t =
    if bytes_eq r bz || is_empty bz
    then t
    else if not (is_empty r)
    then record t { errors = set t.errors i true }
    else record t { results = set t.results i bz }

-- The inner loop: an index past the results panics.
unfoldable pub mark_brief : ℕ → List Bytes → Results → Call Results
unfolding bytes_eq
mark_brief i [] t = returns t
mark_brief i (bz ∷ brief) t = do
  r ← deref (get_elem? t.results i)
  mark_brief (suc i) brief (mark_read i bz r t)

unfoldable pub mark_all : List CommitCertificateCore → Results → Call Results
unfolding mark_brief
mark_all [] t = returns t
mark_all (core ∷ cc) t = do t' ← mark_brief 0 core.intention_brief t; mark_all cc t'

unfoldable pub result : List CommitCertificateCore → Call Results
unfolding mark_all
result cc =
    mark_all cc
      (record { results = replicate (length cc) []; errors = replicate (length cc) false })

-- The hashes agree with those that the votes name. The numbers of both were compared before.
unfoldable pub consistent : List Bytes → List (Option AggregatedVote) → Call Bool
unfolding bytes_eq
consistent [] [] = returns true
consistent (h ∷ hs) (v ∷ vs) = do
  w ← deref v
  if bytes_eq h (last_hash_of_agg_vote w) then consistent hs vs else returns false
consistent [] (_ ∷ _) = panics
consistent (_ ∷ _) [] = panics

module _ (hashing : Hashing) where
  -- `ProofOfIntention.Verify`: no proof is no error.
  unfoldable pub verify_intention : Option ProofOfIntention → Bytes → Bytes → Call Bool
  verify_intention none root left_hash = returns true
  verify_intention (some poi) root left_hash = do
    proof ← deref poi.intention_hash_proof
    returns (hashing.verifies proof root (hashing.merkle (left_hash ∷ poi.right_hash ∷ [])))

  -- `OutputTxsProof.Verify`: the root that the first proof is held against is its own.
  unfoldable pub verify_output : Option OutputTxsProof → Bytes → List Bytes → Call Bool
  verify_output none root output_txs = returns true
  verify_output (some p) root output_txs = do
    opt_proof ← deref p.opt_proof
    let opt_root = hashing.root_of opt_proof
    if hashing.verifies opt_proof opt_root (hashing.merkle output_txs)
        then (do
          block_proof ← deref p.block_proof
          returns (hashing.verifies block_proof root opt_root))
        else returns false

  -- `CommitCertificateCore.Verify`
  unfoldable pub verify_core : CommitCertificateCore → Call Bool
  unfolding verify_intention
  verify_core core =
      verify_intention (some core.mk_proof) core.hash (hashing.merkle core.intention_brief)

  -- `CommitCertificate.Verify`
  unfoldable pub verify_cc : List CommitCertificateCore → Call Bool
  unfolding verify_core
  verify_cc [] = returns true
  verify_cc (core ∷ cc) = do ok ← verify_core core; if ok then verify_cc cc else returns false

  -- `CrossShardMessage.ValidateBasic`
  unfoldable pub validate_message : CrossShardMessage → Call Bool
  unfolding verify_intention verify_output
  validate_message csm = do
    last ← get_last_hash csm
    ok ← verify_intention csm.proof_of_intention last (hashing.merkle csm.intention_brief)
    if ok then verify_output csm.output_txs_proof last csm.op_txs else returns false

  -- The branch of `Block.ValidateBasic` for later views.
  unfoldable pub validate_certificate : Block → Call (Option BlockError)
  unfolding consistent verify_cc
  validate_certificate b = do
    ci ← deref b.ci
    if not (length ci.intention_hash == length ci.aggregated_signatures)
        then returns (some signature_count)
        else (do
          ok ← consistent ci.intention_hash ci.aggregated_signatures
          if not ok
              then returns (some intention_hash)
              else if not (length b.cc == length ci.intention_hash)
              then returns (some certificate_count)
              else (do
                ok' ←
                    consistent (map (λ (c : CommitCertificateCore). c.hash) b.cc)
                      ci.aggregated_signatures
                if not ok' then returns (some certificate_hash) else (do
                  ok'' ← verify_cc b.cc
                  returns (if ok'' then none else some certificate))))

  -- The body of the last loop of `Block.ValidateBasic`, for an intention without an error.
  unfoldable pub verify_output_at : Block → ℕ → Call Bool
  unfolding verify_output
  verify_output_at b i = do
    proof ← deref (get_elem? b.c_txs_proof i)
    ci ← deref b.ci
    v ← deref (get_elem? ci.aggregated_signatures i)
    w ← deref v
    txs ← deref (get_elem? b.c_txs i)
    verify_output proof (last_hash_of_agg_vote w) txs

  unfoldable pub verify_outputs : Block → ℕ → List Bool → Call (Option BlockError)
  unfolding verify_output_at
  verify_outputs b i [] = returns none
  verify_outputs b i (e ∷ es) = do
    ok ← if e then returns true else verify_output_at b i
    if ok then verify_outputs b (suc i) es else returns (some output)

  abbrev validate_outputs : Block → Call (Option BlockError)
  validate_outputs b =
      if not (length b.c_txs == length b.c_txs_proof) || not (length b.c_txs == length b.cc)
      then returns (some proof_count)
      else (do t ← result b.cc; verify_outputs b 0 t.errors)

  -- `Block.ValidateBasic`
  unfoldable pub validate_block : Block → Call (Option BlockError)
  unfolding validate_certificate verify_outputs result
  validate_block b = do
    e ← if ltb_ℤ (pos 5) b.header.view then validate_certificate b else returns none
    elim e [ some err ↦ returns (some err) | none ↦ validate_outputs b ]
