-- ===== src/Urd/Block/Tests.antt =====
-- Runs of source/urd/types and source/urd/consensus/block_datas.go.
use urd_code.Prelude.{ℕ, ◌≡◌, ◌<◌, refl, true, false, none, some, List, [], ◌∷◌, arith, get_elem?}
use urd_code.Prelude.Int.{pos}
use urd_code.Prelude.Bytes.{Bytes}
use urd_code.Prelude.Calls.{returns}
use urd_code.Urd.Block.{Block, Header, Hashing, CommitCertificateCore}
use urd_code.Urd.Block.Check.{Results, result}
use urd_code.Urd.Block.Certificate.{BriefsFit, chosen, disagrees, result_lem}
use urd_code.Urd.Block.Hash.{hash_of_block, hash_of_block-cross_shard_txs}

abbrev core : List Bytes → CommitCertificateCore
core brief = record {
  hash = [];
  mk_proof = record { intention_hash_proof = none; right_hash = [] };
  intention_brief = brief;
}

-- The second index has two different entries.
abbrev certificate : List CommitCertificateCore
certificate = core ([] ∷ (4 ∷ []) ∷ []) ∷ core ((3 ∷ []) ∷ (5 ∷ []) ∷ []) ∷ []

briefs_fit : BriefsFit 2 certificate
unfolding BriefsFit
briefs_fit = (omega arith, (omega arith, tt))

result_lem_example :
    (t : Results) × (result certificate ≡ returns t)
    × ((i : ℕ)
        → i < 2
        → (get_elem? t.results i ≡ some (chosen i certificate))
          × (get_elem? t.errors i ≡ some (disagrees i (chosen i certificate) certificate)))
result_lem_example = result_lem certificate briefs_fit

result_of_certificate :
    result certificate
    ≡ returns (record { results = (3 ∷ []) ∷ (4 ∷ []) ∷ []; errors = false ∷ true ∷ [] })
unfolding result
result_of_certificate = refl

abbrev hashing : Hashing
hashing = record {
  merkle = λ bs. 8 ∷ [];
  proofs = λ bs. (7 ∷ [], []);
  verifies = λ p root leaf. true;
  root_of = λ p. [];
  aggregated_bytes = λ v. [];
  time_bytes = λ t. [];
}

abbrev header : Header
header = record {
  hash_pointer = [];
  chain_id = [];
  view = pos 1;
  round = pos 0;
  time = 0;
  prepare_root = [];
  cross_shard_root = [];
  output_txs_root = [];
  last_agg_sig_root = [];
  commit_intention_root = [];
  commit_certificate_root = [];
  commit_txs_list_root = [];
  state_root = [];
  hash = [];
  mk_proof = [];
}

abbrev block : Block
block = record {
  header = header;
  p_txs = none;
  cross_shard_txs = none;
  opt = [];
  agg_sig_vote = none;
  ci = none;
  cc = [];
  c_txs = [];
  c_txs_proof = [];
}

hash_of_block-cross_shard_txs_example :
    hash_of_block hashing (record block {
      cross_shard_txs = some ((2 ∷ []) ∷ []);
      header = record header { cross_shard_root = 6 ∷ [] };
    })
    ≡ hash_of_block hashing block
hash_of_block-cross_shard_txs_example =
    hash_of_block-cross_shard_txs hashing block (some ((2 ∷ []) ∷ [])) (6 ∷ [])
