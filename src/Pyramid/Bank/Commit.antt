-- ===== src/Pyramid/Bank/Commit.antt =====
-- source/pyramid/abci/minibank/application.go: the end of a cross-shard block, and what runs before
-- it, `AcceptCommitShard`, `FillData`, `PreExecutionB` and `PreExecutionI`.
use urd_code.Prelude.{
  ℕ, Bool, true, false, not, Option, none, some, List, [], ◌∷◌, if◌then◌else◌, ◌==◌,
}
use urd_code.Prelude.Bytes.{Bytes}
use urd_code.Prelude.Maps.{Map}
use urd_code.Prelude.Calls.{Call, returns, panics, ◌>>=◌}
use urd_code.Pyramid.Bank.MemDb.{
  MemoryDb, new_memory_db, get, commit_write, ranged, cross_shard, copy_into,
}
use urd_code.Pyramid.Bank.Locks.{unmarshal_transfer_tx, execute, append_rw_set, all_unlocked}
use urd_code.Pyramid.Bank.Blocks.{
  Block, cross_shard_block, Code, code_ok, code_abort, Env, App, is_none, mem_bytes, written_keys,
  release_keys, undo_keys,
}

abbrev tail : List Bool → List Bool
tail [] = []
tail (_ ∷ bs) = bs

module _ (env : Env) where
  -- The loop of `AcceptCommitShard`. The batch is a map, written at the end.
  unfoldable pub commit_shards :
      Bytes → List Bytes → List Bool → App → Map ℕ → Call (List Code × App × Map ℕ)
  unfolding written_keys release_keys undo_keys
  commit_shards chain [] commits app batch = returns ([], app, batch)
  commit_shards chain (hs ∷ hashes) commits app batch =
      let aborts = (do
        (codes, app', batch') ← commit_shards chain hashes (tail commits) app batch
        returns (code_abort ∷ codes, app', batch')) in
      elim (env.block_by_hash hs) [
        | none ↦ aborts
        | some block ↦
            let keys = (written_keys env block.cross_shard_txs ([], [])).1 in
            let (released, unlocked) = release_keys env chain keys batch app.locked_keys in
            let commits_block = (do
              (codes, app', batch') ←
                  commit_shards chain hashes (tail commits) (record app { locked_keys = unlocked })
                    released
              returns (code_ok ∷ codes, app', batch')) in
            let undoes_block = (do
              (codes, app', batch') ←
                  commit_shards chain hashes (tail commits)
                    (record app { locked_keys = undo_keys env chain keys app.locked_keys }) batch
              returns (code_abort ∷ codes, app', batch')) in
            if not (mem_bytes hs app.accepted)
            then aborts
            else elim commits [ [] ↦ panics | c ∷ _ ↦ if c then commits_block else undoes_block ]
      ]

  unfoldable pub accept_commit_shard : List Bytes → List Bool → Bytes → App → Call (List Code × App)
  unfolding commit_shards copy_into
  accept_commit_shard hashes commits chain app = do
    (codes, app', batch) ← commit_shards chain hashes commits app []
    returns (codes, record app' { db = copy_into batch app'.db })

  -- The loop of `FillData`. A transaction that fails gives an empty read set.
  unfoldable pub fill_datas : Map ℕ → List Bytes → MemoryDb → List Bytes
  unfolding execute commit_write
  fill_datas locked_keys [] m = []
  fill_datas locked_keys (tx ∷ txs) m =
      let (err, m') = execute env.decode (ranged env.search_all) locked_keys tx m in
      let rest = fill_datas locked_keys txs (commit_write (is_none err) m') in
      env.encode_data (if is_none err then m'.read_buffer else []) (is_none err) ∷ rest

  unfoldable pub fill_data : Block → App → Call Block
  unfolding fill_datas new_memory_db
  fill_data block app =
      if app.is_i
      then panics
      else returns (record block {
        cross_shard_datas = fill_datas app.locked_keys block.cross_shard_txs (new_memory_db app.db);
      })

  unfoldable pub pre_execution_b : Block → Code × List Bytes
  pre_execution_b block = (code_ok, block.cross_shard_datas)

  -- The keys of a block, `none` where a transaction does not decode.
  unfoldable pub touched_keys : List Bytes → Map Bool × Map Bool → Option (Map Bool × Map Bool)
  unfolding unmarshal_transfer_tx append_rw_set
  touched_keys [] sets = some sets
  touched_keys (tx ∷ txs) sets = elim (unmarshal_transfer_tx env.decode tx) [
    | none ↦ none
    | some ptx ↦ touched_keys txs (append_rw_set ptx sets)
  ]

  -- Whether the cross-shard data agrees with the balances of the shard.
  unfoldable pub is_fresh : Map ℕ → MemoryDb → Bool × MemoryDb
  unfolding get
  is_fresh [] m = (true, m)
  is_fresh ((key, value) ∷ csd) m =
      let (v, m') = get key m in
      let read = is_fresh csd m' in
      let skipped = is_fresh csd m in
      if env.search_all key then (if v == value then read else (false, m')) else skipped

  -- The second loop of `PreExecutionI`.
  unfoldable pub pre_execute : Map ℕ → List Bytes → List Bytes → MemoryDb → Call Code
  unfolding is_fresh execute commit_write
  pre_execute locked_keys [] datas m = returns code_ok
  pre_execute locked_keys (tx ∷ txs) [] m = panics
  pre_execute locked_keys (tx ∷ txs) (data_bytes ∷ datas) m = elim (env.decode_data data_bytes) [
    | none ↦ returns code_abort
    | some (csd, ok) ↦
        let (fresh, m') = is_fresh csd m in
        let (err, m'') = execute env.decode (cross_shard csd) locked_keys tx m' in
        let ran = pre_execute locked_keys txs datas (commit_write (is_none err) m'') in
        let skipped = pre_execute locked_keys txs datas m' in
        if not fresh then returns code_abort else if ok then ran else skipped
  ]

  unfoldable pub pre_execution_i : Block → App → Call Code
  unfolding touched_keys all_unlocked pre_execute new_memory_db
  pre_execution_i block app = elim block.block_type [
    | cross_shard_block ↦
        if not app.is_i then panics else elim (touched_keys block.cross_shard_txs ([], [])) [
          | none ↦ returns code_abort
          | some (read_set, write_set) ↦
              if not (all_unlocked read_set app.locked_keys)
              then returns code_abort
              else if not (all_unlocked write_set app.locked_keys)
              then returns code_abort
              else pre_execute app.locked_keys block.body_txs block.cross_shard_datas
                  (new_memory_db app.db)
        ]
    | _ ↦ panics
  ]
