-- ===== src/Pyramid/Mempool/Copies.antt =====
-- source/pyramid/mempool/mempool.go: transactions that are added and removed, once or twice.
use urd_code.Prelude.{ℕ, suc, ◌≡◌, ◌<◌, ◌≤◌, Bool, true, List, [], ◌∷◌, ◌++◌, arith}
use urd_code.Prelude.Bytes.{Bytes, bytes_eq_refl}
use urd_code.Prelude.Maps.{insert, lookup-insert, lookup-erase}
use urd_code.Pyramid.Mempool.{Mempool, add_tx, remove_element, remove_tx}

-- Every address is below a number.
unfoldable pub AddressesBelow : ℕ → List (ℕ × Bytes) → Type 0
AddressesBelow n [] = Unit
AddressesBelow n ((i, tx) ∷ txs) = (i < n) × AddressesBelow n txs

-- The addresses of a mempool are below the next.
abbrev pub IsFresh : Mempool → Type 0
IsFresh m = AddressesBelow m.fresh m.txs

remove_element-last :
    (n e : ℕ) (tx : Bytes) (txs : List (ℕ × Bytes))
    → AddressesBelow n txs
    → n ≤ e
    → remove_element e (txs ++ (e, tx) ∷ []) ≡ txs
unfolding remove_element AddressesBelow
remove_element-last n e tx [] h l = ground arith
remove_element-last n e tx ((i, t) ∷ txs) h l = ground (arith, remove_element-last n e tx txs h.1 l)

AddressesBelow-suc :
    (n : ℕ) (tx : Bytes) (txs : List (ℕ × Bytes))
    → AddressesBelow n txs
    → AddressesBelow (suc n) (txs ++ (n, tx) ∷ [])
unfolding AddressesBelow
AddressesBelow-suc n tx [] h = (omega arith, tt)
AddressesBelow-suc n tx ((i, t) ∷ txs) h = (omega arith, AddressesBelow-suc n tx txs h.1)

module _ (validate_tx : Bytes → Bool → Bool) where
  -- A transaction that is valid and added once is gone after it is removed, and the others stay.
  remove_tx-add_tx :
      (tx : Bytes) (m : Mempool)
      → IsFresh m
      → validate_tx tx m.is_cross_shard_mempool ≡ true
      → (remove_tx tx (add_tx validate_tx tx m).0).txs ≡ m.txs
  unfolding add_tx remove_tx
  remove_tx-add_tx tx m h valid = ground (
    arith,
    lookup-insert tx tx m.fresh m.txs_map,
    bytes_eq_refl tx,
    remove_element-last m.fresh m.fresh tx m.txs h (omega arith),
  )

  pub add_twice : Bytes → Mempool → Mempool
  add_twice tx m = (add_tx validate_tx tx (add_tx validate_tx tx m).0).0

  -- A transaction that is valid and added twice is still there once after it is removed, and the map
  -- has forgotten it, so removing it again removes nothing.
  pub remove_tx-add_twice :
      (tx : Bytes) (m : Mempool)
      → IsFresh m
      → validate_tx tx m.is_cross_shard_mempool ≡ true
      → ((remove_tx tx (add_twice tx m)).txs ≡ m.txs ++ (m.fresh, tx) ∷ [])
        × (remove_tx tx (remove_tx tx (add_twice tx m)) ≡ remove_tx tx (add_twice tx m))
  unfolding add_tx remove_tx add_twice
  remove_tx-add_twice tx m h valid =
      let once = insert tx m.fresh m.txs_map in
      let two = insert tx (suc m.fresh) once in
      ground (
        arith,
        lookup-insert tx tx m.fresh m.txs_map,
        lookup-insert tx tx (suc m.fresh) once,
        lookup-erase tx tx two,
        bytes_eq_refl tx,
        remove_element-last (suc m.fresh) (suc m.fresh) tx (m.txs ++ (m.fresh, tx) ∷ [])
            (AddressesBelow-suc m.fresh tx m.txs h) (omega arith),
      )
