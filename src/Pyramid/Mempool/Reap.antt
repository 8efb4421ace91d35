-- ===== src/Pyramid/Mempool/Reap.antt =====
-- source/pyramid/mempool/mempool.go: what a proposer reaps, and that what is removed is gone.
use urd_code.Prelude.{
  ℕ, zero, suc, ◌+◌, ◌≡◌, ◌≤◌, refl, ap, sym, Bool, List, [], ◌∷◌, ◌++◌, arith, if◌then◌else◌,
  length, length-append, take, length-take,
}
use urd_code.Prelude.Bytes.{Bytes}
use urd_code.Pyramid.Mempool.{Mempool, reap_from, reap_tx}

-- The transactions that wait and are not locked, in the order in which they came.
unfoldable pub unlocked : (Bytes → Bool) → List (ℕ × Bytes) → List Bytes
unlocked check_lock [] = []
unlocked check_lock ((_, tx) ∷ txs) =
    let rest = unlocked check_lock txs in if check_lock tx then tx ∷ rest else rest

append_assoc : (xs ys zs : List Bytes) → (xs ++ ys) ++ zs ≡ xs ++ (ys ++ zs)
append_assoc [] ys zs = refl
append_assoc (x ∷ xs) ys zs = ap (λ r. x ∷ r) (append_assoc xs ys zs)

append_nil : (xs : List Bytes) → xs ++ [] ≡ xs
append_nil [] = refl
append_nil (x ∷ xs) = ap (λ r. x ∷ r) (append_nil xs)

-- With room for `n + 1` more, the loop takes the first `n + 1` that are not locked.
reap_from-eq :
    (check_lock : Bytes → Bool) (n max_txs : ℕ) (txs : List (ℕ × Bytes)) (taken : List Bytes)
    → length taken + suc n ≡ max_txs
    → reap_from check_lock max_txs txs taken ≡ taken ++ take (suc n) (unlocked check_lock txs)
unfolding reap_from unlocked
reap_from-eq check_lock n max_txs [] taken e = sym (append_nil taken)
reap_from-eq check_lock zero max_txs ((i, tx) ∷ rest) taken e =
    ground (arith, reap_from-eq check_lock zero max_txs rest taken e, length-append taken (tx ∷ []))
reap_from-eq check_lock (suc n) max_txs ((i, tx) ∷ rest) taken e = ground (
  arith,
  reap_from-eq check_lock (suc n) max_txs rest taken e,
  reap_from-eq check_lock n max_txs rest (taken ++ tx ∷ []),
  length-append taken (tx ∷ []),
  append_assoc taken (tx ∷ []) (take (suc n) (unlocked check_lock rest)),
)

-- With no room at all one transaction is taken even so.
reap_from-zero :
    (check_lock : Bytes → Bool) (txs : List (ℕ × Bytes))
    → reap_from check_lock 0 txs [] ≡ take 1 (unlocked check_lock txs)
unfolding reap_from unlocked
reap_from-zero check_lock [] = refl
reap_from-zero check_lock ((i, tx) ∷ rest) = ground (arith, reap_from-zero check_lock rest)

-- How many transactions may be reaped.
abbrev pub room : ℕ → ℕ
room zero = 1
room (suc n) = suc n

-- ReapTx takes the first transactions that are not locked, in the order in which they came, and as
-- many as it is asked for, but at least one where there is one; and it returns their number.
pub reap_tx-eq-take :
    (check_lock : Bytes → Bool) (max_txs : ℕ) (m : Mempool)
    → reap_tx check_lock max_txs m ≡ (
      take (room max_txs) (unlocked check_lock m.txs),
      length (take (room max_txs) (unlocked check_lock m.txs)),
    )
unfolding reap_tx
reap_tx-eq-take check_lock zero m = ground (arith, reap_from-zero check_lock m.txs)
reap_tx-eq-take check_lock (suc n) m =
    ground (arith, reap_from-eq check_lock n (suc n) m.txs [] (omega arith))

-- ReapTx never takes more transactions than it is asked for, or one where that is none.
reap_tx-le-room :
    (check_lock : Bytes → Bool) (max_txs : ℕ) (m : Mempool)
    → (reap_tx check_lock max_txs m).1 ≤ room max_txs
reap_tx-le-room check_lock max_txs m =
    let fits = length-take (room max_txs) (unlocked check_lock m.txs) in
    ground (arith, reap_tx-eq-take check_lock max_txs m, fits)
