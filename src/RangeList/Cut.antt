-- ===== src/RangeList/Cut.antt =====
-- source/utils/RangeList.go: what `DeleteRange` keeps on each side of the range.
use urd_code.Prelude.{
  ℕ, zero, suc, ◌+◌, ◌%◌, ◌≤◌, ◌≡◌, ap, ◌⊎◌, inl, inr, Bool, true, false, some, List, [], ◌∷◌,
  arith, length, get_elem?, take, drop, Bool-cases,
}
use urd_code.Prelude.Bytes.{Bytes, bytes_eq, bytes_eq_iff}
use urd_code.Prelude.Calls.{returns}
use urd_code.RangeList.{str_ltb, red_place, delete_left, delete_right}
use urd_code.RangeList.Order.{ltb_connex, ltb_asym}
use urd_code.RangeList.Count.{
  count, count_lt, is_ascending, count-le, count_mono, count-le-count_lt, count_lt-le-count,
  count_iff, count_lt_iff, count-at,
}
use urd_code.RangeList.Find.{elem_at-returns}

-- A bound that a deletion makes, or none.
abbrev pub bound : Bool → Bytes → List Bytes
bound true s = s ∷ []
bound false s = []

abbrev pub size : Bool → ℕ
size true = 1
size false = 0

-- What stays on the left: `i` bounds, and the low end as a bound if `b` holds.
abbrev pub Left : List Bytes → Bytes → ℕ → Bool → Type 0
Left xs low i b =
    (i ≤ count xs low)
    × (b ≡ true → i ≤ count_lt xs low)
    × ((i + size b) % 2 ≡ 0)
    × ((p : Bytes) → str_ltb p low ≡ true → count xs p ≤ i)

-- What stays on the right: the bounds from `j`, after the high end if `b` holds.
abbrev pub Right : List Bytes → Bytes → ℕ → Bool → Type 0
Right xs high j b =
    (j ≤ length xs)
    × (j ≤ count xs high)
    × (count_lt xs high ≤ j)
    × (b ≡ true → count xs high ≤ j)
    × ((j + size b) % 2 ≡ 0)

module _ (xs : List Bytes) (asc : is_ascending xs ≡ true) where
  -- The last bound up to a key is the key, or below it.
  last_bound :
      (s x : Bytes) (k : ℕ)
      → count xs s ≡ suc k
      → get_elem? xs k ≡ some x
      → ((bytes_eq x s ≡ true) × (count_lt xs s ≡ k))
        ⊎ ((bytes_eq x s ≡ false) × (count_lt xs s ≡ suc k))
  last_bound s x k n e = elim (Bool-cases (bytes_eq x s)) [
    | inl same ↦
        let is : x ≡ s = (bytes_eq_iff x s).0 same in
        inl (same, omega (arith, ap (count_lt xs) is, count-at xs x k asc e))
    | inr other ↦ inr (
      other,
      ground (
        arith,
        count_lt-le-count xs s,
        count_iff xs s x k asc e,
        count_lt_iff xs s x k asc e,
        ltb_connex x s,
        bytes_eq_iff x s,
      ),
    )
  ]

  pub delete_left-Left :
      (low : Bytes) (n : ℕ)
      → count xs low ≡ n
      → (i : ℕ) × (b : Bool) × (delete_left xs low n ≡ returns (take i xs, bound b low))
        × Left xs low i b
  unfolding bytes_eq
  delete_left-Left low zero n = (
    0,
    false,
    ground arith,
    (
      omega arith,
      λ h. omega arith,
      omega arith,
      λ p h. omega (arith, n, count_mono xs p low (ltb_asym p low h)),
    ),
  )
  delete_left-Left low (suc k) n =
      let (x, e) = elem_at-returns xs k (omega (arith, count-le xs low)) in
      elim (Bool-cases (red_place (suc k))) [
        | inl red ↦ elim (last_bound low x k n e) [
          | inl (same, lt) ↦ (
            k,
            false,
            ground (arith, count-le xs low),
            (
              omega arith,
              λ h. omega arith,
              ground arith,
              λ p h. omega (arith, lt, count-le-count_lt xs p low h),
            ),
          )
          | inr (other, lt) ↦ (
            suc k,
            true,
            ground (arith, count-le xs low),
            (
              omega arith,
              λ h. omega arith,
              ground arith,
              λ p h. omega (arith, lt, count-le-count_lt xs p low h),
            ),
          )
        ]
        | inr gap ↦ (
          suc k,
          false,
          ground (arith, count-le xs low),
          (
            omega arith,
            λ h. absurd (ground arith),
            ground arith,
            λ p h. omega (arith, n, count_mono xs p low (ltb_asym p low h)),
          ),
        )
      ]

  pub delete_right-Right :
      (high : Bytes) (m : ℕ)
      → count xs high ≡ m
      → (j : ℕ) × (b : Bool) × (delete_right xs high m ≡ returns (drop j xs, bound b high))
        × Right xs high j b
  unfolding bytes_eq
  delete_right-Right high zero m = (
    0,
    false,
    ground arith,
    (
      omega arith,
      omega arith,
      omega (arith, count_lt-le-count xs high),
      λ h. omega arith,
      omega arith,
    ),
  )
  delete_right-Right high (suc k) m =
      let (x, e) = elem_at-returns xs k (omega (arith, count-le xs high)) in
      elim (Bool-cases (red_place (suc k))) [
        | inl red ↦ elim (last_bound high x k m e) [
          | inl (same, lt) ↦ (
            k,
            false,
            ground (arith, count-le xs high),
            (
              omega (arith, count-le xs high),
              omega arith,
              omega arith,
              λ h. absurd (ground arith),
              ground arith,
            ),
          )
          | inr (other, lt) ↦ (
            suc k,
            true,
            ground (arith, count-le xs high),
            (
              omega (arith, count-le xs high),
              omega arith,
              omega arith,
              λ h. omega arith,
              ground arith,
            ),
          )
        ]
        | inr gap ↦ (
          suc k,
          false,
          ground (arith, count-le xs high),
          (
            omega (arith, count-le xs high),
            omega arith,
            omega (arith, count_lt-le-count xs high),
            λ h. omega arith,
            ground arith,
          ),
        )
      ]
