-- ===== src/RangeList/Ranges.antt =====
-- source/utils/RangeList.go: a list of bounds as a set of keys, under `AddRange` and `DeleteRange`.
use mathlib.Core.Path.{subst}
use Prim.Native.Nat.{min}
use urd_code.Prelude.{
  ℕ, zero, suc, ◌+◌, ◌-◌, ◌%◌, ◌≤◌, ◌<◌, ◌≡◌, ap, inl, inr, Bool, true, false, ◌&&◌, some, List,
  arith, length, get_elem?, take, drop, if◌then◌else◌, Bool-cases,
}
use urd_code.Prelude.Bytes.{Bytes, bytes_eq, bytes_eq_iff}
use urd_code.Prelude.Calls.{returns}
use urd_code.RangeList.{str_ltb, str_leb, red_place, add_left, add_right}
use urd_code.RangeList.Order.{ltb_irrefl, ltb_connex, ltb_asym}
use urd_code.RangeList.Count.{
  count, count_lt, is_ascending, count-le, count_iff, count_lt_iff, count_mono, count-le-count_lt,
  count_lt-le-count, count-at,
}
use urd_code.RangeList.Find.{elem_at-returns}

-- The bounds ascend, and come in pairs.
abbrev pub IsValid : List Bytes → Type 0
IsValid xs = (is_ascending xs ≡ true) × (length xs % 2 ≡ 0)

abbrev pub in_range : Bytes → Bytes → Bytes → Bool
in_range low high p = str_leb low p && str_ltb p high

-- What the left part of a new list is: `i` bounds that stay, and the low bound `x`.
abbrev pub Left : List Bytes → Bytes → ℕ → Bytes → Type 0
Left xs low i x =
    (i ≤ count_lt xs x)
    × (i ≤ length xs)
    × (i % 2 ≡ 0)
    × (str_ltb low x ≡ false)
    × ((p : Bytes) → str_ltb p low ≡ false → (str_ltb p x ≡ false) × (i ≤ count xs p))
    × ((p : Bytes)
        → str_ltb p low ≡ true
        → min i (count xs p) + (if str_ltb p x then 0 else 1) ≡ count xs p)

-- So the right part: the high bound `y`, and the bounds from `j`.
abbrev pub Right : List Bytes → Bytes → ℕ → Bytes → Type 0
Right xs high j y =
    (count xs y ≤ j)
    × (j ≤ length xs)
    × (j % 2 ≡ 0)
    × (str_ltb y high ≡ false)
    × ((p : Bytes) → str_ltb p high ≡ true → (str_ltb p y ≡ true) × (count xs p ≤ j))
    × ((p : Bytes)
        → str_ltb p high ≡ false
        → (1 + (if str_ltb p y then 0 else 1) + (count xs p - j)) % 2 ≡ count xs p % 2)

module _ (xs : List Bytes) (asc : is_ascending xs ≡ true) (pairs : length xs % 2 ≡ 0) where
  -- The low bound is the one at `k`.
  Left-at :
      (low x : Bytes) (k : ℕ)
      → get_elem? xs k ≡ some x
      → k % 2 ≡ 0
      → suc k ≤ count xs low
      → count_lt xs low ≤ suc k
      → Left xs low k x
  Left-at low x k e even up down = (
    omega (arith, count-at xs x k asc e),
    omega (arith, count-le xs low),
    even,
    ground (arith, count_iff xs low x k asc e),
    λ p h. ground (arith, count_mono xs low p h, count_iff xs p x k asc e),
    λ p h. ground (arith, count-le-count_lt xs p low h, count_iff xs p x k asc e),
  )

  -- The low bound is the key itself.
  pub Left-own :
      (low : Bytes)
      → count xs low % 2 ≡ 0
      → count xs low ≤ count_lt xs low
      → Left xs low (count xs low) low
  Left-own low even up = (
    up,
    count-le xs low,
    even,
    ltb_irrefl low,
    λ p h. (h, count_mono xs low p h),
    λ p h. ground (arith, count-le-count_lt xs p low h, count_lt-le-count xs low),
  )

  Right-at :
      (high y : Bytes) (m : ℕ)
      → get_elem? xs m ≡ some y
      → m % 2 ≡ 1
      → count xs high ≡ m
      → Right xs high (suc m) y
  Right-at high y m e odd at = (
    omega (arith, count-at xs y m asc e),
    omega (arith, in_bounds),
    omega arith,
    ground (arith, count_iff xs high y m asc e, ltb_asym y high),
    λ p h.
        ground (
          arith,
          count-le-count_lt xs p high h,
          count_lt-le-count xs high,
          count_iff xs p y m asc e,
        ),
    λ p h. ground (arith, count_mono xs high p h, count_iff xs p y m asc e),
  )
    where
      in_bounds : m < length xs
      in_bounds = omega (arith, count-le xs y, count-at xs y m asc e)

  pub Right-own : (high : Bytes) → count xs high % 2 ≡ 0 → Right xs high (count xs high) high
  Right-own high even = (
    omega arith,
    count-le xs high,
    even,
    ltb_irrefl high,
    λ p h. (h, omega (arith, count-le-count_lt xs p high h, count_lt-le-count xs high)),
    λ p h. ground (arith, count_mono xs high p h),
  )

  -- A range that ends at the key is joined.
  Left-step :
      (low : Bytes) (k : ℕ) (x : Bytes)
      → count xs low ≡ suc k
      → get_elem? xs k ≡ some x
      → k % 2 ≡ 1
      → x ≡ low
      → (i : ℕ) × (w : Bytes) × (add_left xs low (suc k) ≡ returns (take i xs, w)) × Left xs low i w
  unfolding bytes_eq
  Left-step low zero x n e odd same = absurd (omega arith)
  Left-step low (suc k) x n e odd same =
      let (w, d) = elem_at-returns xs k (omega (arith, count-le xs low)) in
      let at : count_lt xs x ≡ suc k = (count-at xs x (suc k) asc e).1 in
      (
        k,
        w,
        ground (arith, count-le xs low, bytes_eq_iff x low),
        Left-at low w k d (omega arith) (omega arith) (omega (arith, ap (count_lt xs) same)),
      )

  pub add_left-Left :
      (low : Bytes) (n : ℕ)
      → count xs low ≡ n
      → (i : ℕ) × (x : Bytes) × (add_left xs low n ≡ returns (take i xs, x)) × Left xs low i x
  unfolding bytes_eq
  add_left-Left low zero e = (
    0,
    low,
    ground arith,
    subst (λ n. Left xs low n low) e (Left-own low (omega arith) (omega arith)),
  )
  add_left-Left low (suc k) n =
      let (x, e) = elem_at-returns xs k (omega (arith, count-le xs low)) in
      elim (Bool-cases (red_place (suc k))) [
        | inl red ↦ (
          k,
          x,
          ground (arith, count-le xs low),
          Left-at low x k e (ground arith) (omega arith) (omega (arith, count_lt-le-count xs low)),
        )
        | inr gap ↦ elim (Bool-cases (bytes_eq x low)) [
          | inl same ↦ Left-step low k x n e (ground arith) ((bytes_eq_iff x low).0 same)
          | inr other ↦ (
            suc k,
            low,
            ground (arith, count-le xs low),
            subst (λ n. Left xs low n low) n
                (Left-own low (ground arith) (
                  ground (
                    arith,
                    count_iff xs low x k asc e,
                    count_lt_iff xs low x k asc e,
                    ltb_connex x low,
                    bytes_eq_iff x low,
                  ))),
          )
        ]
      ]

  pub add_right-Right :
      (high : Bytes) (m : ℕ)
      → count xs high ≡ m
      → (j : ℕ) × (y : Bytes) × (add_right xs high m ≡ returns (drop j xs, y)) × Right xs high j y
  unfolding bytes_eq
  add_right-Right high zero e =
      (0, high, ground arith, subst (λ m. Right xs high m high) e (Right-own high (omega arith)))
  add_right-Right high (suc k) m =
      let (x, e) = elem_at-returns xs k (omega (arith, count-le xs high)) in
      elim (Bool-cases (red_place (suc k))) [
        | inl red ↦
            let (y, d) = elem_at-returns xs (suc k) (ground (arith, count-le xs high)) in
            (
              suc (suc k),
              y,
              ground (arith, count-le xs high),
              Right-at high y (suc k) d (ground arith) m,
            )
        | inr gap ↦ (
          suc k,
          high,
          ground (arith, count-le xs high, bytes_eq_iff x high),
          subst (λ m. Right xs high m high) m (Right-own high (ground arith)),
        )
      ]
