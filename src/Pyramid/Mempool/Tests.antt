-- ===== src/Pyramid/Mempool/Tests.antt =====
-- Runs of source/pyramid/mempool/mempool.go.
use urd_code.Prelude.{◌≡◌, refl, Bool, true, false, ◌||◌, [], ◌∷◌, ◌++◌, ◌==◌, arith, take, length}
use urd_code.Prelude.Bytes.{Bytes}
use urd_code.Pyramid.Mempool.{Mempool, reap_tx, remove_tx}
use urd_code.Pyramid.Mempool.Reap.{reap_tx-eq-take, unlocked}
use urd_code.Pyramid.Mempool.Copies.{AddressesBelow, IsFresh, remove_tx-add_twice, add_twice}

-- Transactions of an even first byte are not locked.
abbrev is_even : Bytes → Bool
is_even [] = true
is_even (b ∷ bs) = b == 2 || b == 4

abbrev three : Mempool
three = record {
  txs = (0, 2 ∷ []) ∷ (1, 3 ∷ []) ∷ (2, 4 ∷ []) ∷ [];
  txs_map = (2 ∷ [], 0) ∷ (3 ∷ [], 1) ∷ (4 ∷ [], 2) ∷ [];
  fresh = 3;
  is_cross_shard_mempool = false;
}

abbrev all_valid : Bytes → Bool → Bool
all_valid tx is_cross = true

three-IsFresh : IsFresh three
unfolding AddressesBelow
three-IsFresh = (omega arith, (omega arith, (omega arith, tt)))

reap_tx-eq-take_example :
    reap_tx is_even 2 three
    ≡ (take 2 (unlocked is_even three.txs), length (take 2 (unlocked is_even three.txs)))
reap_tx-eq-take_example = reap_tx-eq-take is_even 2 three

remove_tx-add_twice_example :
    ((remove_tx (8 ∷ []) (add_twice all_valid (8 ∷ []) three)).txs ≡ three.txs ++ (3, 8 ∷ []) ∷ [])
    × (remove_tx (8 ∷ []) (remove_tx (8 ∷ []) (add_twice all_valid (8 ∷ []) three))
        ≡ remove_tx (8 ∷ []) (add_twice all_valid (8 ∷ []) three))
remove_tx-add_twice_example = remove_tx-add_twice all_valid (8 ∷ []) three three-IsFresh refl
