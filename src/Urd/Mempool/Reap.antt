-- ===== src/Urd/Mempool/Reap.antt =====
-- source/urd/mempool/mempool.go: what `ReapTx` takes.
use mathlib.Core.Path.{subst}
use mathlib.Core.List.{append-nil, append_assoc}
use urd_code.Prelude.{
  ℕ, ◌+◌, ◌≤◌, ◌<◌, ◌≡◌, ◌⊎◌, inl, inr, refl, sym, ap, ◌∙◌, false, List, [], ◌∷◌, ◌++◌, map, arith,
  length, leb, Bool-cases,
}
use urd_code.Prelude.Bytes.{Bytes}
use urd_code.Urd.Mempool.{Mempool, reap_from, reap_tx}

abbrev pub waiting : List (ℕ × Bytes) → List Bytes
waiting txs = map (λ (t : ℕ × Bytes). t.1) txs

-- The bytes of all transactions of a list.
unfoldable pub total_bytes : List Bytes → ℕ
total_bytes [] = 0
total_bytes (tx ∷ txs) = length tx + total_bytes txs

-- The transactions that are left are none, or the first of them does not fit.
unfoldable pub IsFull : ℕ → ℕ → List Bytes → Type 0
IsFull max used [] = Unit
IsFull max used (tx ∷ txs) = max ≤ used + length tx

below_max :
    (max current size : ℕ) (more : List Bytes)
    → leb max (current + size) ≡ false
    → ((more ≡ []) ⊎ (current + size + total_bytes more < max))
    → current + (size + total_bytes more) < max
unfolding total_bytes
below_max max current size more e (inl q) =
    let none_more : total_bytes more ≡ 0 = ap total_bytes q in ground (arith, none_more, e)
below_max max current size more e (inr q) = omega (arith, q)

fits_from_zero :
    (max : ℕ) (more : List Bytes)
    → ((more ≡ []) ⊎ (0 + total_bytes more < max))
    → ((more ≡ []) ⊎ (total_bytes more < max))
fits_from_zero max more (inl q) = inl q
fits_from_zero max more (inr q) = inr (omega (arith, q))

reap_from-takes :
    (max current : ℕ) (txs : List (ℕ × Bytes)) (taken : List Bytes)
    → (more left : List Bytes) × (reap_from max current txs taken ≡ taken ++ more)
      × (more ++ left ≡ waiting txs)
      × ((more ≡ []) ⊎ (current + total_bytes more < max))
      × IsFull max (current + total_bytes more) left
unfolding reap_from total_bytes IsFull
reap_from-takes max current [] taken = ([], [], sym (append-nil taken), refl, inl refl, tt)
reap_from-takes max current ((i, tx) ∷ txs) taken =
    elim (Bool-cases (leb max (current + length tx))) [
      | inl e ↦ (
        [],
        tx ∷ waiting txs,
        ground (arith, append-nil taken),
        refl,
        inl refl,
        ground (arith, e),
      )
      | inr e ↦
          let (more, left, q, split, fits, full) =
            reap_from-takes max (current + length tx) txs (taken ++ tx ∷ []) in
          (
            tx ∷ more,
            left,
            ground (arith, e, q ∙ append_assoc taken (tx ∷ []) more),
            ap (tx ∷◌) split,
            inr (below_max max current (length tx) more e fits),
            subst (λ k. IsFull max k left) (omega arith) full,
          )
    ]

-- ReapTx takes the first transactions, in the order in which they came, and returns their number: their
-- bytes are below the limit where there are any, and those left are none, or with the first of
-- them the bytes would reach the limit.
pub reap_tx-takes :
    (max : ℕ) (m : Mempool)
    → (taken left : List Bytes) × (reap_tx max m ≡ (taken, length taken))
      × (taken ++ left ≡ waiting m.txs)
      × ((taken ≡ []) ⊎ (total_bytes taken < max))
      × IsFull max (total_bytes taken) left
unfolding reap_tx
reap_tx-takes max m =
    let (more, left, q, split, fits, full) = reap_from-takes max 0 m.txs [] in
    (
      more,
      left,
      rw q,
      split,
      fits_from_zero max more fits,
      subst (λ k. IsFull max k left) (omega arith) full,
    )
