-- ===== src/RangeList/Delete.antt =====
-- source/utils/RangeList.go: `DeleteRange`.
use Prim.Native.Nat.{min}
use urd_code.Prelude.{
  ℕ, ◌+◌, ◌-◌, ◌≡◌, refl, ap, inl, inr, Bool, true, false, not, ◌&&◌, List, [], ◌∷◌, ◌++◌, arith,
  take, drop, ◌==◌, Bool-cases, length-take, length-drop, length-append,
}
use urd_code.Prelude.Bytes.{Bytes}
use urd_code.Prelude.Calls.{returns, ◌>>=◌}
use urd_code.RangeList.{str_ltb, red_place, search, delete_at, delete_range}
use urd_code.RangeList.Order.{ltb_trans, ltb_asym, leb_ltb_trans}
use urd_code.RangeList.Count.{
  count, is_above, is_ascending, count-le, count_mono, count-le-count_lt,
}
use urd_code.RangeList.Find.{find-eq-count, search-eq-count}
use urd_code.RangeList.Splice.{
  count-append, count-take, count-drop, ascending-take, ascending-drop, below-take, above-drop,
  ascending-append, ascending_cut,
}
use urd_code.RangeList.Ranges.{IsValid, in_range}
use urd_code.RangeList.Cut.{bound, Left, Right, delete_left-Left, delete_right-Right}

abbrev pub Removes : List Bytes → Bytes → Bytes → List Bytes → Type 0
Removes xs low high ys =
    IsValid ys
    × ((p : Bytes) → red_place (count ys p) ≡ (red_place (count xs p) && not (in_range low high p)))

module _ (xs : List Bytes) (valid : IsValid xs) (low high : Bytes)
    (up : str_ltb low high ≡ true) where
  abbrev left_over : ℕ → Bool → ℕ → Bool → List Bytes
  left_over i b j c = take i xs ++ (bound b low ++ (bound c high ++ drop j xs))

  left_over-ascending :
      (i : ℕ) (b : Bool) (j : ℕ) (c : Bool)
      → Left xs low i b
      → Right xs high j c
      → is_ascending (left_over i b j c) ≡ true
  unfolding is_ascending is_above
  left_over-ascending i false j false (il, ib, even, out) (jl, jh, jt, jc, even') =
      ascending_cut i j xs (omega (arith, count-le-count_lt xs low high up)) valid.0
  left_over-ascending i true j false (il, ib, even, out) (jl, jh, jt, jc, even') =
      ascending-append (take i xs) (drop j xs) low (ascending-take i xs valid.0)
        (below-take i xs low valid.0 (ib refl))
        (above-drop j xs low valid.0 (omega (arith, count-le-count_lt xs low high up)))
        (ascending-drop j xs valid.0)
  left_over-ascending i false j true (il, ib, even, out) (jl, jh, jt, jc, even') =
      ascending-append (take i xs) (drop j xs) high (ascending-take i xs valid.0)
        (below-take i xs high valid.0 (omega (arith, count-le-count_lt xs low high up)))
        (above-drop j xs high valid.0 (jc refl)) (ascending-drop j xs valid.0)
  left_over-ascending i true j true (il, ib, even, out) (jl, jh, jt, jc, even') =
      ascending-append (take i xs) (high ∷ drop j xs) low (ascending-take i xs valid.0)
        (below-take i xs low valid.0 (ib refl))
        (ground (
          arith,
          up,
          above-drop j xs low valid.0 (omega (arith, count-le-count_lt xs low high up)),
        ))
        (ground (arith, above-drop j xs high valid.0 (jc refl), ascending-drop j xs valid.0))

  count-left_over :
      (i : ℕ) (b : Bool) (j : ℕ) (c : Bool) (p : Bytes)
      → count (left_over i b j c) p
        ≡ min i (count xs p) + (count (bound b low) p + (count (bound c high) p + (count xs p - j)))
  count-left_over i b j c p = omega (
    arith,
    count-append (take i xs) (bound b low ++ (bound c high ++ drop j xs)) p,
    count-append (bound b low) (bound c high ++ drop j xs) p,
    count-append (bound c high) (drop j xs) p,
    count-take i xs p valid.0,
    count-drop j xs p valid.0,
  )

  left_over-Removes :
      (i : ℕ) (b : Bool) (j : ℕ) (c : Bool)
      → Left xs low i b
      → Right xs high j c
      → Removes xs low high (left_over i b j c)
  unfolding count
  left_over-Removes i b j c l r = (
    (
      left_over-ascending i b j c l r,
      ground (
        arith,
        length-append (take i xs) (bound b low ++ (bound c high ++ drop j xs)),
        length-append (bound b low) (bound c high ++ drop j xs),
        length-append (bound c high) (drop j xs),
        length-take i xs,
        length-drop j xs,
        count-le xs low,
        l,
        r,
        valid.1,
      ),
    ),
    λ p. ground (
      arith,
      count-left_over i b j c p,
      l.0,
      l.2,
      l.3 p,
      r.0,
      r.1,
      r.2,
      r.4,
      count_mono xs low p,
      count_mono xs high p,
      count-le-count_lt xs p high,
      ltb_trans p low high,
    ),
  )

  outside-Removes :
      count xs high ≡ count xs low → red_place (count xs low) ≡ false → Removes xs low high xs
  outside-Removes same gap =
      (valid, λ p. ground (arith, count_mono xs low p, count_mono xs p high, ltb_asym p high))

  delete_at-Removes :
      (ys : List Bytes) × (delete_at xs low high (count xs low) (count xs high) ≡ returns ys)
      × Removes xs low high ys
  delete_at-Removes =
      elim (Bool-cases ((count xs high == count xs low) && not (red_place (count xs low)))) [
        | inl done ↦ (xs, rw done, outside-Removes (ground arith) (ground arith))
        | inr go ↦
            let (i, b, e, l) = delete_left-Left xs valid.0 low (count xs low) refl in
            let (j, c, d, r) = delete_right-Right xs valid.0 high (count xs high) refl in
            (left_over i b j c, rw (go, e, d), left_over-Removes i b j c l r)
      ]

no_range :
    (xs : List Bytes) (low high : Bytes)
    → IsValid xs
    → str_ltb low high ≡ false
    → Removes xs low high xs
no_range xs low high valid h = (valid, λ p. ground (arith, leb_ltb_trans low p high))

nil-Removes : (low high : Bytes) → IsValid [] → Removes [] low high []
unfolding count
nil-Removes low high valid = (valid, λ p. refl)

delete_range-Removes :
    (xs : List Bytes) (low high : Bytes)
    → IsValid xs
    → (ys : List Bytes) × (delete_range xs low high ≡ returns ys) × Removes xs low high ys
unfolding delete_range
delete_range-Removes [] low high valid = ([], ground arith, nil-Removes low high valid)
delete_range-Removes (b ∷ xs) low high valid = elim (Bool-cases (str_ltb low high)) [
  | inr out ↦ (b ∷ xs, rw out refl, no_range (b ∷ xs) low high valid out)
  | inl up ↦
      let (ys, e, removes) = delete_at-Removes (b ∷ xs) valid low high up in
      (
        ys,
        rw (up, find-eq-count (b ∷ xs) low valid.0, find-eq-count (b ∷ xs) high valid.0, e),
        removes,
      )
]

-- `DeleteRange` on a valid list ends without a panic and leaves a valid list, and a search of that
-- finds exactly the keys that were found before and are not in the range.
pub delete_range-search :
    (xs : List Bytes) (low high : Bytes)
    → IsValid xs
    → (ys : List Bytes) × (delete_range xs low high ≡ returns ys)
      × IsValid ys
      × ((p : Bytes)
          → search ys p ≡ (search xs p >>= λ b. returns (b && not (in_range low high p))))
delete_range-search xs low high valid =
    let (ys, e, (valid', removes)) = delete_range-Removes xs low high valid in
    (
      ys,
      e,
      valid',
      λ p.
          rw (search-eq-count xs p valid.0, search-eq-count ys p valid'.0) (ap returns (removes p)),
    )
