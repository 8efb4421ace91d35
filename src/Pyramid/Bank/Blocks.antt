-- ===== src/Pyramid/Bank/Blocks.antt =====
-- source/pyramid/abci/minibank/application.go: the execution of whole blocks. The range trees, the
-- protobuf decoders and encoders and the store of blocks are parameters. The locks and the stored
-- balances are the state; the printing, the mutex and the batch's own errors are left out.
use urd_code.Prelude.{ℕ, Bool, true, false, ◌||◌, Option, none, some, List, [], ◌∷◌, if◌then◌else◌}
use urd_code.Prelude.Bytes.{Bytes, bytes_eq}
use urd_code.Prelude.Maps.{Map}
use urd_code.Prelude.Calls.{Call, returns, panics, ◌>>=◌}
use urd_code.Pyramid.Bank.MemDb.{
  MemoryDb, new_memory_db, get, commit_write, ranged, range_write, cross_shard,
}
use urd_code.Pyramid.Bank.Transfer.{TransferTx, TxError}
use urd_code.Pyramid.Bank.Locks.{
  unmarshal_transfer_tx, execute, append_rw_set, set_lock, release_lock, undo_lock,
}

pub data BlockType : Type 0 where
  inner_shard cross_shard_block other_block : BlockType

pub record Block : Type 0 where
  pub chain_id : Bytes
  pub height : ℕ
  pub block_type : BlockType
  pub body_txs : List Bytes
  pub cross_shard_txs : List Bytes
  pub cross_shard_datas : List Bytes
  pub hash : Bytes

-- The receipt codes of source/pyramid/types/abci-resp.go.
pub data Code : Type 0 where
  code_ok code_encoding_error code_abort code_unknown_error : Code

-- The decoders and stores that the application calls.
pub record Env : Type 0 where
  pub decode : Bytes → Option TransferTx
  pub decode_data : Bytes → Option (Map ℕ × Bool)
  pub encode_data : Map ℕ → Bool → Bytes
  -- `KeyRangeTree[chain].Search`
  pub search : Bytes → Bytes → Bool
  -- `AllShardRangeTree.Search`
  pub search_all : Bytes → Bool
  -- `GetBlockByHash`, read by `NewBlockFromBytes`
  pub block_by_hash : Bytes → Option Block

pub record App : Type 0 where
  pub db : Map ℕ
  pub locked_keys : Map ℕ
  pub is_i : Bool
  -- `SetState(hash, "ok")`
  pub accepted : List Bytes
  -- `SetBlockByHeight`
  pub blocks : List Block

abbrev pub is_none : Option TxError → Bool
is_none none = true
is_none (some _) = false

abbrev is_code_ok : Code → Bool
is_code_ok code_ok = true
is_code_ok _ = false

abbrev pub mem_bytes : Bytes → List Bytes → Bool
mem_bytes b [] = false
mem_bytes b (x ∷ xs) = bytes_eq x b || mem_bytes b xs

module _ (env : Env) where
  -- The loop of `ExecutionInnerShard`.
  unfoldable pub run_body : Bytes → Map ℕ → List Bytes → MemoryDb → List Code × MemoryDb
  unfolding execute commit_write
  run_body chain locked_keys [] m = ([], m)
  run_body chain locked_keys (tx ∷ txs) m =
      let (err, m') = execute env.decode (ranged (env.search chain)) locked_keys tx m in
      let (codes, m'') = run_body chain locked_keys txs (commit_write (is_none err) m') in
      ((if is_none err then code_ok else code_abort) ∷ codes, m'')

  unfoldable pub execution_inner_shard : Block → App → Call (List Code × App)
  unfolding run_body range_write new_memory_db
  execution_inner_shard block app = elim block.block_type [
    | inner_shard ↦
        let (codes, m) =
          run_body block.chain_id app.locked_keys block.body_txs (new_memory_db app.db) in
        returns (
          codes,
          record app {
            db = (range_write (env.search block.chain_id) m).db;
            blocks = block ∷ app.blocks;
          },
        )
    | _ ↦ panics
  ]

  -- The first loop of `AcceptCrossShard`. An index past the data panics.
  unfoldable pub run_cross :
      Map ℕ → List Bytes → List Bytes → MemoryDb → Call (List Code × MemoryDb)
  unfolding execute commit_write
  run_cross locked_keys [] datas m = returns ([], m)
  run_cross locked_keys (tx ∷ txs) [] m = panics
  run_cross locked_keys (tx ∷ txs) (data_bytes ∷ datas) m =
      let skipped = (do
        (codes, m') ← run_cross locked_keys txs datas m
        returns (code_encoding_error ∷ codes, m')) in
      elim (env.decode_data data_bytes) [
        | none ↦ skipped
        | some (csd, ok) ↦
            let (err, m') = execute env.decode (cross_shard csd) locked_keys tx m in
            let ran = (do
              (codes, m'') ← run_cross locked_keys txs datas (commit_write (is_none err) m')
              returns ((if is_none err then code_ok else code_unknown_error) ∷ codes, m'')) in
            if ok then ran else skipped
      ]

  -- The keys to lock: those of the transactions that ran.
  unfoldable pub accepted_keys :
      List Bytes → List Code → Map Bool × Map Bool → Call (Map Bool × Map Bool)
  unfolding unmarshal_transfer_tx append_rw_set
  accepted_keys [] codes sets = returns sets
  accepted_keys (tx ∷ txs) [] sets = panics
  accepted_keys (tx ∷ txs) (code ∷ codes) sets =
      let skipped = accepted_keys txs codes sets in
      elim (unmarshal_transfer_tx env.decode tx) [
        | none ↦ if is_code_ok code then panics else skipped
        | some ptx ↦
            let taken = accepted_keys txs codes (append_rw_set ptx sets) in
            if is_code_ok code then taken else skipped
      ]

  -- The loop that locks, each key with the balance that the block leaves it.
  unfoldable pub lock_keys : Bytes → Map Bool → MemoryDb → Map ℕ → Map ℕ
  unfolding get set_lock
  lock_keys chain [] m locked_keys = locked_keys
  lock_keys chain ((key, _) ∷ keys) m locked_keys =
      let (u, m') = get key m in
      let locked = lock_keys chain keys m' (set_lock key u locked_keys).1 in
      let skipped = lock_keys chain keys m locked_keys in
      if env.search chain key then locked else skipped

  abbrev store_cross : Block → App → App
  store_cross block app = record app {
    accepted = block.hash ∷ app.accepted;
    blocks = block ∷ app.blocks;
  }

  unfoldable pub accept_cross_shard : Block → Bytes → Bool → App → Call (List Code × App)
  unfolding run_cross accepted_keys lock_keys new_memory_db
  accept_cross_shard block chain ifcommit app = elim block.block_type [
    | cross_shard_block ↦
        if ifcommit
        then (do
          (codes, m) ←
              run_cross app.locked_keys block.cross_shard_txs block.cross_shard_datas
                (new_memory_db app.db)
          (read_set, write_set) ← accepted_keys block.cross_shard_txs codes ([], [])
          returns (
            codes,
            store_cross block
                (record app { locked_keys = lock_keys chain write_set m app.locked_keys }),
          ))
        else returns ([], store_cross block app)
    | _ ↦ panics
  ]

  -- The keys of a stored block, the transactions that do not decode left out.
  unfoldable pub written_keys : List Bytes → Map Bool × Map Bool → Map Bool × Map Bool
  unfolding unmarshal_transfer_tx append_rw_set
  written_keys [] sets = sets
  written_keys (tx ∷ txs) sets = elim (unmarshal_transfer_tx env.decode tx) [
    | none ↦ written_keys txs sets
    | some ptx ↦ written_keys txs (append_rw_set ptx sets)
  ]

  unfoldable pub release_keys : Bytes → Map Bool → Map ℕ → Map ℕ → Map ℕ × Map ℕ
  unfolding release_lock
  release_keys chain [] batch locked_keys = (batch, locked_keys)
  release_keys chain ((key, _) ∷ keys) batch locked_keys =
      let (batch', locked') = release_lock key (some batch) locked_keys in
      let released = release_keys chain keys (elim batch' [ none ↦ batch | some b ↦ b ]) locked' in
      let skipped = release_keys chain keys batch locked_keys in
      if env.search chain key then released else skipped

  unfoldable pub undo_keys : Bytes → Map Bool → Map ℕ → Map ℕ
  unfolding undo_lock
  undo_keys chain [] locked_keys = locked_keys
  undo_keys chain ((key, _) ∷ keys) locked_keys =
      let undone = undo_keys chain keys (undo_lock key locked_keys) in
      let skipped = undo_keys chain keys locked_keys in
      if env.search chain key then undone else skipped
