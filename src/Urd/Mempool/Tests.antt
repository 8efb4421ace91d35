-- ===== src/Urd/Mempool/Tests.antt =====
-- A run of source/urd/mempool/mempool.go: three transactions and a limit that is reached by the second.
use urd_code.Prelude.{◌≡◌, ◌<◌, ◌⊎◌, refl, false, List, [], ◌∷◌, ◌++◌, length}
use urd_code.Prelude.Bytes.{Bytes}
use urd_code.Urd.Mempool.{Mempool, reap_tx}
use urd_code.Urd.Mempool.Reap.{waiting, total_bytes, IsFull, reap_tx-takes}

abbrev mempool : Mempool
mempool = record {
  txs = (0, 1 ∷ 2 ∷ []) ∷ (1, 3 ∷ 4 ∷ []) ∷ (2, []) ∷ [];
  txs_map = [];
  fresh = 3;
  is_cross_shard_mempool = false;
}

reap_tx-takes_example :
    (taken left : List Bytes) × (reap_tx 4 mempool ≡ (taken, length taken))
    × (taken ++ left ≡ waiting mempool.txs)
    × ((taken ≡ []) ⊎ (total_bytes taken < 4))
    × IsFull 4 (total_bytes taken) left
reap_tx-takes_example = reap_tx-takes 4 mempool

takes_one : reap_tx 4 mempool ≡ ((1 ∷ 2 ∷ []) ∷ [], 1)
unfolding reap_tx
takes_one = refl
