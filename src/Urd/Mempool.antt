-- ===== src/Urd/Mempool.antt =====
-- source/urd/mempool/mempool.go: the transactions that wait. The linked list is a list of elements,
-- each with a number that is its address; the map takes the key of a transaction, the
-- hex of its hash, to the element added last for it. The test of the application and `TxKey` are
-- parameters.
pub mod Reap
mod Tests
use urd_code.Prelude.{
  ℕ, suc, ◌+◌, Bool, Option, none, some, List, [], ◌∷◌, ◌++◌, if◌then◌else◌, ◌==◌, leb, length,
}
use urd_code.Prelude.Bytes.{Bytes}
use urd_code.Prelude.Maps.{Map, lookup, insert, erase}

pub record Mempool : Type 0 where
  pub txs : List (ℕ × Bytes)
  pub txs_map : Map ℕ
  -- The address of the next element.
  pub fresh : ℕ
  pub is_cross_shard_mempool : Bool

pub data TxError : Type 0 where
  not_valid : TxError

unfoldable pub new_mempool : Bool → Mempool
new_mempool is_cross = record {
  txs = [];
  txs_map = [];
  fresh = 0;
  is_cross_shard_mempool = is_cross;
}

unfoldable pub add_tx :
    (Bytes → Bytes) → (Bytes → Bool → Bool) → Bytes → Mempool → Mempool × Option TxError
unfolding insert
add_tx tx_key validate_tx tx m =
    if validate_tx tx m.is_cross_shard_mempool
    then (
      record m {
        txs = m.txs ++ (m.fresh, tx) ∷ [];
        txs_map = insert (tx_key tx) m.fresh m.txs_map;
        fresh = suc m.fresh;
      },
      none,
    )
    else (m, some not_valid)

-- `CList.Remove`
unfoldable pub remove_element : ℕ → List (ℕ × Bytes) → List (ℕ × Bytes)
remove_element e [] = []
remove_element e ((i, tx) ∷ txs) = if i == e then txs else (i, tx) ∷ remove_element e txs

unfoldable pub remove_tx : (Bytes → Bytes) → Bytes → Mempool → Mempool
unfolding lookup erase remove_element
remove_tx tx_key tx m = elim (lookup (tx_key tx) m.txs_map) [
  | none ↦ m
  | some e ↦ record m { txs = remove_element e m.txs; txs_map = erase (tx_key tx) m.txs_map }
]

unfoldable pub update : (Bytes → Bytes) → List Bytes → Mempool → Mempool
unfolding remove_tx
update tx_key [] m = m
update tx_key (tx ∷ txs) m = update tx_key txs (remove_tx tx_key tx m)

-- The loop of `ReapTx`, with the bytes and the transactions that it has so far.
unfoldable pub reap_from : ℕ → ℕ → List (ℕ × Bytes) → List Bytes → List Bytes
reap_from max_txs_bz current [] taken = taken
reap_from max_txs_bz current ((_, tx) ∷ rest) taken =
    let more = reap_from max_txs_bz (current + length tx) rest (taken ++ tx ∷ []) in
    if leb max_txs_bz (current + length tx) then taken else more

unfoldable pub reap_tx : ℕ → Mempool → List Bytes × ℕ
unfolding reap_from
reap_tx max_txs_bz m = let txs = reap_from max_txs_bz 0 m.txs [] in (txs, length txs)
