-- ===== src/RangeList/Find.antt =====
-- source/utils/RangeList.go: the binary search.
use urd_code.Prelude.{
  ℕ, zero, suc, ◌+◌, ◌-◌, ◌≤◌, ◌<◌, ◌≡◌, refl, ◌↔◌, inl, inr, true, false, some, List, [], ◌∷◌,
  arith, length, get_elem?, ◌==◌, Bool-cases,
}
use urd_code.Prelude.Bytes.{Bytes}
use urd_code.Prelude.Calls.{returns}
use urd_code.RangeList.{str_ltb, get, good_place, middle, find_from, find, red_place, search}
use urd_code.RangeList.Count.{count, is_ascending, count-le, count_iff}

pub elem_at-returns :
    (xs : List Bytes) (i : ℕ) → i < length xs → (x : Bytes) × (get_elem? xs i ≡ some x)
elem_at-returns [] i h = absurd (omega arith)
elem_at-returns (x ∷ xs) zero h = (x, refl)
elem_at-returns (x ∷ xs) (suc i) h = elem_at-returns xs i (omega arith)

module _ (xs : List Bytes) (s : Bytes) (asc : is_ascending xs ≡ true) where
  -- The test holds at the count alone.
  good_place-count : (n : ℕ) → n ≤ length xs → good_place xs s n ≡ returns (n == count xs s)
  unfolding good_place
  good_place-count zero h = elim (Bool-cases (0 == length xs)) [
    | inl none_left ↦ ground (arith, count-le xs s)
    | inr some_left ↦
        let (x, e) = elem_at-returns xs 0 (ground arith) in ground (arith, count_iff xs s x 0 asc e)
  ]
  good_place-count (suc i) h =
      let (y, d) = elem_at-returns xs i (omega arith) in
      elim (Bool-cases (suc i == length xs)) [
        | inl none_left ↦ ground (arith, count-le xs s, count_iff xs s y i asc d)
        | inr some_left ↦
            let (x, e) = elem_at-returns xs (suc i) (ground arith) in
            ground (arith, count_iff xs s y i asc d, count_iff xs s x (suc i) asc e)
      ]

  -- The bound at a place is up to the key exactly if the place is up to the count.
  pub get-returns :
      (n : ℕ)
      → 0 < n
      → n ≤ length xs
      → (x : Bytes) × (get xs n ≡ returns x) × ((str_ltb s x ≡ false) ↔ (n ≤ count xs s))
  get-returns zero h k = absurd (omega arith)
  get-returns (suc i) h k =
      let (x, e) = elem_at-returns xs i (omega arith) in
      (x, ground arith, ground (arith, count_iff xs s x i asc e))

  -- With the count between the two ends, and more fuel than places between them.
  find_from-count :
      (fuel start stop : ℕ)
      → start ≤ count xs s
      → count xs s ≤ stop
      → stop ≤ length xs
      → stop < start + fuel
      → find_from fuel xs s start stop ≡ returns (count xs s)
  unfolding find_from
  find_from-count zero start stop h k l m = absurd (omega arith)
  find_from-count (suc fuel) start stop h k l m =
      elim (Bool-cases (middle start stop == count xs s)) [
        | inl found ↦ ground (arith, good_place-count (middle start stop) (ground arith))
        | inr off ↦
            let (x, e, below) = get-returns (middle start stop) (ground arith) (ground arith) in
            ground (
              arith,
              good_place-count (middle start stop) (ground arith),
              find_from-count fuel start (middle start stop - 1),
              find_from-count fuel (middle start stop + 1) stop,
            )
      ]

-- The search of an ascending list ends, with the number of bounds up to the key.
pub find-eq-count :
    (xs : List Bytes) (s : Bytes) → is_ascending xs ≡ true → find xs s ≡ returns (count xs s)
unfolding find
find-eq-count xs s asc =
    find_from-count xs s asc (length xs + 1) 0 (length xs) (omega arith) (count-le xs s)
      (omega arith) (omega arith)

-- A key is in the list exactly if the number of bounds up to it is odd.
pub search-eq-count :
    (xs : List Bytes) (s : Bytes)
    → is_ascending xs ≡ true
    → search xs s ≡ returns (red_place (count xs s))
unfolding search
search-eq-count xs s asc = ground (arith, find-eq-count xs s asc)
