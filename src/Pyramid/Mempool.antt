-- ===== src/Pyramid/Mempool.antt =====
-- source/pyramid/mempool/mempool.go: the transactions that wait. The linked list is a list of elements,
-- each with a number that is its address; the map takes a transaction to the element added last for
-- it. The tests of the application are parameters.
pub mod Reap
pub mod Copies
mod Tests
use urd_code.Prelude.{
  ℕ, zero, suc, ◌+◌, Bool, true, false, not, ◌&&◌, Option, none, some, List, [], ◌∷◌, ◌++◌,
  if◌then◌else◌, ◌==◌, leb, length,
}
use urd_code.Prelude.Int.{ℤ, pos}
use urd_code.Prelude.Bytes.{Bytes}
use urd_code.Prelude.Maps.{Map, lookup, insert, erase}
use urd_code.Prelude.Calls.{Call, returns, panics, ◌>>=◌}
use urd_code.BitVector.{BitVector, get_index, new_bit_array_from_byte}

pub record Mempool : Type 0 where
  pub txs : List (ℕ × Bytes)
  pub txs_map : Map ℕ
  -- The address of the next element.
  pub fresh : ℕ
  pub is_cross_shard_mempool : Bool

pub data TxError : Type 0 where
  not_valid : TxError

unfoldable pub new_mempool : Bool → Mempool
new_mempool is_cross = record {
  txs = [];
  txs_map = [];
  fresh = 0;
  is_cross_shard_mempool = is_cross;
}

unfoldable pub add_tx : (Bytes → Bool → Bool) → Bytes → Mempool → Mempool × Option TxError
unfolding insert
add_tx validate_tx tx m =
    if validate_tx tx m.is_cross_shard_mempool
    then (
      record m {
        txs = m.txs ++ (m.fresh, tx) ∷ [];
        txs_map = insert tx m.fresh m.txs_map;
        fresh = suc m.fresh;
      },
      none,
    )
    else (m, some not_valid)

-- `CList.Remove`
unfoldable pub remove_element : ℕ → List (ℕ × Bytes) → List (ℕ × Bytes)
remove_element e [] = []
remove_element e ((i, tx) ∷ txs) = if i == e then txs else (i, tx) ∷ remove_element e txs

unfoldable pub remove_tx : Bytes → Mempool → Mempool
unfolding lookup erase remove_element
remove_tx tx m = elim (lookup tx m.txs_map) [
  | none ↦ m
  | some e ↦ record m { txs = remove_element e m.txs; txs_map = erase tx m.txs_map }
]

-- The loop of `ReapTx`, with what it has taken so far.
unfoldable pub reap_from : (Bytes → Bool) → ℕ → List (ℕ × Bytes) → List Bytes → List Bytes
reap_from check_lock max_txs [] taken = taken
reap_from check_lock max_txs ((_, tx) ∷ rest) taken =
    let longer = taken ++ tx ∷ [] in
    let skipped = reap_from check_lock max_txs rest taken in
    let more = reap_from check_lock max_txs rest longer in
    if not (check_lock tx) then skipped else if leb max_txs (length longer) then longer else more

unfoldable pub reap_tx : (Bytes → Bool) → ℕ → Mempool → List Bytes × ℕ
unfolding reap_from
reap_tx check_lock max_txs m = let txs = reap_from check_lock max_txs m.txs [] in (txs, length txs)

unfoldable pub remove_all : List Bytes → Mempool → Mempool
unfolding remove_tx
remove_all [] m = m
remove_all (tx ∷ txs) m = remove_all txs (remove_tx tx m)

-- The loop over the transactions that a bit vector marks.
unfoldable pub remove_marked : Option BitVector → ℕ → List Bytes → Mempool → Call Mempool
unfolding remove_tx get_index
remove_marked bv i [] m = returns m
remove_marked bv i (tx ∷ txs) m = do
  marked ← get_index bv (pos i)
  remove_marked bv (suc i) txs (if marked then remove_tx tx m else m)

-- A commit status that is nil is `none`.
unfoldable pub update : List Bytes → Option Bytes → Mempool → Call Mempool
unfolding remove_all remove_marked new_bit_array_from_byte
update [] status m = returns m
update (tx ∷ txs) none m = returns (remove_all (tx ∷ txs) m)
update (tx ∷ txs) (some status) m =
    if m.is_cross_shard_mempool
    then (do bv ← new_bit_array_from_byte status; remove_marked bv 0 (tx ∷ txs) m)
    else returns (remove_all (tx ∷ txs) m)
