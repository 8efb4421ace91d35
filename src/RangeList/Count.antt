-- ===== src/RangeList/Count.antt =====
-- source/utils/RangeList.go: the number of bounds up to a key, by which the laws speak of a list.
use urd_code.Prelude.{
  ℕ, zero, suc, ◌+◌, ◌≤◌, ◌<◌, ◌≡◌, refl, ap, ◌↔◌, Bool, true, false, ◌&&◌, some, List, [], ◌∷◌,
  arith, length, get_elem?, if◌then◌else◌,
}
use urd_code.Prelude.Bytes.{Bytes}
use urd_code.RangeList.{str_ltb}
use urd_code.RangeList.Order.{ltb_irrefl, ltb_trans, ltb_asym, leb_ltb_trans}

-- The bounds up to `s`, and those below it.
unfoldable pub count : List Bytes → Bytes → ℕ
count [] s = 0
count (x ∷ xs) s = (if str_ltb s x then 0 else 1) + count xs s

unfoldable pub count_lt : List Bytes → Bytes → ℕ
count_lt [] s = 0
count_lt (x ∷ xs) s = (if str_ltb x s then 1 else 0) + count_lt xs s

unfoldable pub is_above : Bytes → List Bytes → Bool
is_above a [] = true
is_above a (x ∷ xs) = str_ltb a x && is_above a xs

unfoldable pub is_ascending : List Bytes → Bool
unfolding is_above
is_ascending [] = true
is_ascending (x ∷ xs) = is_above x xs && is_ascending xs

unfoldable pub are_below : List Bytes → Bytes → Bool
are_below [] a = true
are_below (x ∷ xs) a = str_ltb x a && are_below xs a

pub count-le : (xs : List Bytes) (s : Bytes) → count xs s ≤ length xs
unfolding count
count-le [] s = omega arith
count-le (x ∷ xs) s = ground (arith, count-le xs s)

count-above :
    (xs : List Bytes) (s a : Bytes) → is_above a xs ≡ true → str_ltb a s ≡ false → count xs s ≡ 0
unfolding count is_above
count-above [] s a h k = refl
count-above (x ∷ xs) s a h k = ground (arith, count-above xs s a, leb_ltb_trans s a x)

pub count_lt-above :
    (xs : List Bytes) (s a : Bytes) → is_above a xs ≡ true → str_ltb a s ≡ false → count_lt xs s ≡ 0
unfolding count_lt is_above
count_lt-above [] s a h k = refl
count_lt-above (x ∷ xs) s a h k = ground (arith, count_lt-above xs s a, ltb_trans a x s)

pub above-get :
    (xs : List Bytes) (a x : Bytes) (i : ℕ)
    → is_above a xs ≡ true
    → get_elem? xs i ≡ some x
    → str_ltb a x ≡ true
unfolding is_above
above-get [] a x i h e = cc
above-get (y ∷ xs) a x zero h e =
    let same : y ≡ x = ground arith in ground (arith, ap (str_ltb a) same)
above-get (y ∷ xs) a x (suc i) h e = ground (arith, above-get xs a x i)

-- A bound is one of the first `count` exactly if it is up to the key.
pub count_iff :
    (xs : List Bytes) (s x : Bytes) (i : ℕ)
    → is_ascending xs ≡ true
    → get_elem? xs i ≡ some x
    → (str_ltb s x ≡ false) ↔ (i < count xs s)
unfolding count is_ascending
count_iff [] s x i asc e = absurd (ground arith)
count_iff (y ∷ xs) s x zero asc e =
    let same : y ≡ x = ground arith in
    ground (arith, ap (str_ltb s) same, count-above xs s y, ltb_asym s y)
count_iff (y ∷ xs) s x (suc i) asc e = ground (
  arith,
  count_iff xs s x i,
  count-above xs s y,
  ltb_asym s y,
  above-get xs y x i,
  ltb_trans s y x,
)

-- So too for those below it.
pub count_lt_iff :
    (xs : List Bytes) (s x : Bytes) (i : ℕ)
    → is_ascending xs ≡ true
    → get_elem? xs i ≡ some x
    → (str_ltb x s ≡ true) ↔ (i < count_lt xs s)
unfolding count_lt is_ascending
count_lt_iff [] s x i asc e = absurd (ground arith)
count_lt_iff (y ∷ xs) s x zero asc e =
    let same : y ≡ x = ground arith in
    ground (arith, ap (λ u. str_ltb u s) same, count_lt-above xs s y)
count_lt_iff (y ∷ xs) s x (suc i) asc e =
    ground
      (arith, count_lt_iff xs s x i, count_lt-above xs s y, above-get xs y x i, ltb_trans y x s)

pub count_mono : (xs : List Bytes) (a b : Bytes) → str_ltb b a ≡ false → count xs a ≤ count xs b
unfolding count
count_mono [] a b h = omega arith
count_mono (x ∷ xs) a b h = ground (arith, count_mono xs a b, leb_ltb_trans a b x)

pub count-le-count_lt :
    (xs : List Bytes) (a b : Bytes) → str_ltb a b ≡ true → count xs a ≤ count_lt xs b
unfolding count count_lt
count-le-count_lt [] a b h = omega arith
count-le-count_lt (x ∷ xs) a b h = ground (arith, count-le-count_lt xs a b, leb_ltb_trans x a b)

pub count_lt-le-count : (xs : List Bytes) (a : Bytes) → count_lt xs a ≤ count xs a
unfolding count count_lt
count_lt-le-count [] a = omega arith
count_lt-le-count (x ∷ xs) a = ground (arith, count_lt-le-count xs a, ltb_asym x a)

pub count-at :
    (xs : List Bytes) (x : Bytes) (i : ℕ)
    → is_ascending xs ≡ true
    → get_elem? xs i ≡ some x
    → (count xs x ≡ suc i) × (count_lt xs x ≡ i)
unfolding count count_lt is_ascending
count-at [] x i asc e = absurd (ground arith)
count-at (y ∷ xs) x zero asc e =
    let same : y ≡ x = ground arith in
    ground (
      arith,
      ap (str_ltb x) same,
      ap (λ u. str_ltb u x) same,
      ap (λ u. is_above u xs) same,
      ltb_irrefl x,
      count-above xs x x,
      count_lt-above xs x x,
    )
count-at (y ∷ xs) x (suc i) asc e =
    ground (arith, count-at xs x i, above-get xs y x i, ltb_asym y x)
