-- ===== src/RangeList/Splice.antt =====
-- source/utils/RangeList.go: lists of bounds cut out of another.
use Prim.Native.Nat.{min}
use urd_code.Prelude.{
  ℕ, zero, suc, ◌+◌, ◌-◌, ◌≤◌, ◌≡◌, refl, true, List, [], ◌∷◌, ◌++◌, arith, take, drop,
}
use urd_code.Prelude.Bytes.{Bytes}
use urd_code.RangeList.{str_ltb}
use urd_code.RangeList.Order.{ltb_trans}
use urd_code.RangeList.Count.{count, count_lt, is_above, is_ascending, are_below, count_lt-above}

pub count-append : (xs ys : List Bytes) (s : Bytes) → count (xs ++ ys) s ≡ count xs s + count ys s
unfolding count
count-append [] ys s = omega arith
count-append (x ∷ xs) ys s = omega (arith, count-append xs ys s)

above-count :
    (xs : List Bytes) (a s : Bytes) → is_above a xs ≡ true → str_ltb s a ≡ true → count xs s ≡ 0
unfolding count is_above
above-count [] a s h k = refl
above-count (x ∷ xs) a s h k = ground (arith, above-count xs a s, ltb_trans s a x)

pub count-take :
    (i : ℕ) (xs : List Bytes) (s : Bytes)
    → is_ascending xs ≡ true
    → count (take i xs) s ≡ min i (count xs s)
unfolding count is_ascending
count-take zero xs s h = omega arith
count-take (suc i) [] s h = omega arith
count-take (suc i) (x ∷ xs) s h = ground (arith, count-take i xs s, above-count xs x s)

pub count-drop :
    (i : ℕ) (xs : List Bytes) (s : Bytes)
    → is_ascending xs ≡ true
    → count (drop i xs) s ≡ count xs s - i
unfolding count is_ascending
count-drop zero xs s h = omega arith
count-drop (suc i) [] s h = omega arith
count-drop (suc i) (x ∷ xs) s h = ground (arith, count-drop i xs s, above-count xs x s)

above-take :
    (i : ℕ) (xs : List Bytes) (a : Bytes) → is_above a xs ≡ true → is_above a (take i xs) ≡ true
unfolding is_above
above-take zero xs a h = refl
above-take (suc i) [] a h = refl
above-take (suc i) (x ∷ xs) a h = ground (arith, above-take i xs a)

above_drop :
    (i : ℕ) (xs : List Bytes) (a : Bytes) → is_above a xs ≡ true → is_above a (drop i xs) ≡ true
unfolding is_above
above_drop zero xs a h = h
above_drop (suc i) [] a h = refl
above_drop (suc i) (x ∷ xs) a h = ground (arith, above_drop i xs a)

pub ascending-take :
    (i : ℕ) (xs : List Bytes) → is_ascending xs ≡ true → is_ascending (take i xs) ≡ true
unfolding is_ascending
ascending-take zero xs h = refl
ascending-take (suc i) [] h = refl
ascending-take (suc i) (x ∷ xs) h = ground (arith, ascending-take i xs, above-take i xs x)

pub ascending-drop :
    (i : ℕ) (xs : List Bytes) → is_ascending xs ≡ true → is_ascending (drop i xs) ≡ true
unfolding is_ascending
ascending-drop zero xs h = h
ascending-drop (suc i) [] h = refl
ascending-drop (suc i) (x ∷ xs) h = ground (arith, ascending-drop i xs)

pub below-take :
    (i : ℕ) (xs : List Bytes) (a : Bytes)
    → is_ascending xs ≡ true
    → i ≤ count_lt xs a
    → are_below (take i xs) a ≡ true
unfolding count_lt is_ascending are_below
below-take zero xs a h k = refl
below-take (suc i) [] a h k = refl
below-take (suc i) (x ∷ xs) a h k = ground (arith, below-take i xs a, count_lt-above xs a x)

no_count-above : (xs : List Bytes) (a : Bytes) → count xs a ≡ 0 → is_above a xs ≡ true
unfolding count is_above
no_count-above [] a h = refl
no_count-above (x ∷ xs) a h = ground (arith, no_count-above xs a)

pub above-drop :
    (j : ℕ) (xs : List Bytes) (a : Bytes)
    → is_ascending xs ≡ true
    → count xs a ≤ j
    → is_above a (drop j xs) ≡ true
unfolding count is_ascending
above-drop zero xs a h k = no_count-above xs a (omega arith)
above-drop (suc j) [] a h k = no_count-above [] a refl
above-drop (suc j) (x ∷ xs) a h k = ground (arith, above-drop j xs a, above-count xs x a)

above_both :
    (xs ys : List Bytes) (a : Bytes)
    → is_above a xs ≡ true
    → is_above a ys ≡ true
    → is_above a (xs ++ ys) ≡ true
unfolding is_above
above_both [] ys a h k = k
above_both (x ∷ xs) ys a h k = ground (arith, above_both xs ys a)

above-append :
    (a b : Bytes) (xs ys : List Bytes)
    → is_above a xs ≡ true
    → str_ltb a b ≡ true
    → is_above b ys ≡ true
    → is_above a (xs ++ b ∷ ys) ≡ true
unfolding is_above
above-append a b [] [] h k l = ground arith
above-append a b [] (y ∷ ys) h k l = ground (arith, ltb_trans a b y, above-append a b [] ys)
above-append a b (x ∷ xs) ys h k l = ground (arith, above-append a b xs ys)

-- A bound between two lists.
pub ascending-append :
    (xs ys : List Bytes) (b : Bytes)
    → is_ascending xs ≡ true
    → are_below xs b ≡ true
    → is_above b ys ≡ true
    → is_ascending ys ≡ true
    → is_ascending (xs ++ b ∷ ys) ≡ true
unfolding is_ascending are_below
ascending-append [] ys b h k l m = ground arith
ascending-append (x ∷ xs) ys b h k l m =
    ground (arith, ascending-append xs ys b, above-append x b xs ys)

-- A list without the bounds from `i` to `j`.
pub ascending_cut :
    (i j : ℕ) (xs : List Bytes)
    → i ≤ j
    → is_ascending xs ≡ true
    → is_ascending (take i xs ++ drop j xs) ≡ true
unfolding is_ascending
ascending_cut zero j xs h k = ascending-drop j xs k
ascending_cut (suc i) zero xs h k = absurd (omega arith)
ascending_cut (suc i) (suc j) [] h k = k
ascending_cut (suc i) (suc j) (x ∷ xs) h k = ground (
  arith,
  ascending_cut i j xs,
  above_both (take i xs) (drop j xs) x,
  above-take i xs x,
  above_drop j xs x,
)
