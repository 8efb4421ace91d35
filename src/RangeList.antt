-- ===== src/RangeList.antt =====
-- source/utils/RangeList.go: a set of keys, kept as the ascending bounds of half-open ranges. Go's
-- place `plc` runs from -1 to one below the length; here a place is `plc + 1`, the number of bounds
-- up to it, and the quotient of the search is written for that, cut off towards 0 as in Go.
pub mod Order
pub mod Count
pub mod Find
pub mod Splice
pub mod Ranges
pub mod Add
pub mod Cut
pub mod Delete
mod Tests
use urd_code.Prelude.{
  ℕ, zero, suc, ◌+◌, ◌-◌, ◌/◌, ◌%◌, Bool, true, false, not, ◌&&◌, ◌||◌, Option, none, some, List,
  [], ◌∷◌, ◌++◌, if◌then◌else◌, ltb, leb, ◌==◌, length, get_elem?, take, drop,
}
use urd_code.Prelude.Bytes.{Bytes, bytes_eq}
use urd_code.Prelude.Calls.{Call, returns, panics, ◌>>=◌}

-- `a < b` on strings: byte by byte.
unfoldable pub str_ltb : Bytes → Bytes → Bool
str_ltb [] [] = false
str_ltb [] (_ ∷ _) = true
str_ltb (_ ∷ _) [] = false
str_ltb (a ∷ as') (b ∷ bs) =
    let rest = str_ltb as' bs in if ltb a b then true else if a == b then rest else false

-- `a <= b`
abbrev pub str_leb : Bytes → Bytes → Bool
str_leb a b = not (str_ltb b a)

-- `r.lists[i]`
abbrev pub elem_at : List Bytes → ℕ → Call Bytes
elem_at lists i = elim (get_elem? lists i) [ none ↦ panics | some x ↦ returns x ]

-- `r.get(plc)`, at the place above it; -1 is out of range.
abbrev pub get : List Bytes → ℕ → Call Bytes
get lists zero = panics
get lists (suc i) = elem_at lists i

-- `plc == -1 || r.lists[plc] <= s`
abbrev after_bound : List Bytes → Bytes → ℕ → Call Bool
after_bound lists s zero = returns true
after_bound lists s (suc i) = do x ← elem_at lists i; returns (str_leb x s)

-- `plc == len(r.lists)-1 || s < r.lists[plc+1]`
abbrev before_bound : List Bytes → Bytes → ℕ → Call Bool
before_bound lists s n =
    if n == length lists then returns true else (do x ← elem_at lists n; returns (str_ltb s x))

unfoldable pub good_place : List Bytes → Bytes → ℕ → Call Bool
unfolding str_ltb
good_place lists s n = do
  b ← after_bound lists s n
  if b then before_bound lists s n else returns false

-- `(start + end) / 2`, all three one higher.
abbrev pub middle : ℕ → ℕ → ℕ
middle start stop = if start + stop == 1 then 1 else (start + stop) / 2

-- The loop of `find`. It panics without fuel too, which `find` never lacks.
unfoldable pub find_from : ℕ → List Bytes → Bytes → ℕ → ℕ → Call ℕ
unfolding good_place
find_from zero lists s start stop = panics
find_from (suc fuel) lists s start stop = do
  good ← good_place lists s (middle start stop)
  if good then returns (middle start stop) else (do
    x ← get lists (middle start stop)
    if str_ltb s x
        then find_from fuel lists s start (middle start stop - 1)
        else find_from fuel lists s (middle start stop + 1) stop)

unfoldable pub find : List Bytes → Bytes → Call ℕ
unfolding find_from
find lists s = find_from (length lists + 1) lists s 0 (length lists)

-- `plc%2 == 0`; -1 % 2 is -1 in Go.
abbrev pub red_place : ℕ → Bool
red_place n = n % 2 == 1

unfoldable pub search : List Bytes → Bytes → Call Bool
unfolding find
search lists p = do n ← find lists p; returns (red_place n)

-- `plc >= 0 && r.lists[plc] == s`
abbrev pub step_there : List Bytes → Bytes → ℕ → Call Bool
step_there lists s zero = returns false
step_there lists s (suc i) = do x ← elem_at lists i; returns (bytes_eq x s)

-- `r.lists[:plc]`, and nil for -1
abbrev pub left_range : List Bytes → ℕ → Call (List Bytes)
left_range lists zero = returns []
left_range lists (suc i) = if leb i (length lists) then returns (take i lists) else panics

-- `r.lists[plc+1:]`, and nil for the last place
abbrev pub right_range : List Bytes → ℕ → Call (List Bytes)
right_range lists n = if leb n (length lists) then returns (drop n lists) else panics

-- What `AddRange` puts before the bounds it keeps on the right: the bounds on the left and the low one.
abbrev pub add_left : List Bytes → Bytes → ℕ → Call (List Bytes × Bytes)
add_left lists low n =
    if red_place n then (do l ← left_range lists n; x ← get lists n; returns (l, x)) else (do
      there ← step_there lists low n
      if there
          then (do l ← left_range lists (n - 1); x ← get lists (n - 1); returns (l, x))
          else (do l ← left_range lists (n + 1); returns (l, low)))

-- The high bound, and what it keeps on the right.
abbrev pub add_right : List Bytes → Bytes → ℕ → Call (List Bytes × Bytes)
add_right lists high n =
    if red_place n
    then (do r ← right_range lists (n + 1); x ← get lists (n + 1); returns (r, x))
    else (do
      there ← step_there lists high n
      if there
          then (do r ← right_range lists n; x ← get lists n; returns (r, x))
          else (do r ← right_range lists n; returns (r, high)))

abbrev pub add_at : List Bytes → Bytes → Bytes → ℕ → ℕ → Call (List Bytes)
add_at lists low high pl pr = if pr == pl && red_place pl then returns lists else (do
  (l, x) ← add_left lists low pl
  (r, y) ← add_right lists high pr
  returns (l ++ x ∷ y ∷ r))

abbrev is_nil : List Bytes → Bool
is_nil [] = true
is_nil (_ ∷ _) = false

unfoldable pub add_range : List Bytes → Bytes → Bytes → Call (List Bytes)
unfolding find bytes_eq
add_range lists low high =
    if str_leb high low
    then returns lists
    else if is_nil lists
    then returns (low ∷ high ∷ [])
    else (do pl ← find lists low; pr ← find lists high; add_at lists low high pl pr)

-- What `DeleteRange` keeps on the left, with the bound it makes there.
abbrev pub delete_left : List Bytes → Bytes → ℕ → Call (List Bytes × List Bytes)
delete_left lists low n =
    if red_place n
    then (do
      there ← step_there lists low n
      if there
          then (do l ← left_range lists n; returns (l, []))
          else (do l ← left_range lists (n + 1); returns (l, low ∷ [])))
    else (do l ← left_range lists (n + 1); returns (l, []))

abbrev pub delete_right : List Bytes → Bytes → ℕ → Call (List Bytes × List Bytes)
delete_right lists high n =
    if red_place n
    then (do
      there ← step_there lists high n
      if there
          then (do r ← right_range lists (n - 1); returns (r, []))
          else (do r ← right_range lists n; returns (r, high ∷ [])))
    else (do r ← right_range lists n; returns (r, []))

abbrev pub delete_at : List Bytes → Bytes → Bytes → ℕ → ℕ → Call (List Bytes)
delete_at lists low high pl pr = if pr == pl && not (red_place pl) then returns lists else (do
  (l, xs) ← delete_left lists low pl
  (r, ys) ← delete_right lists high pr
  returns (l ++ (xs ++ (ys ++ r))))

unfoldable pub delete_range : List Bytes → Bytes → Bytes → Call (List Bytes)
unfolding find bytes_eq
delete_range lists low high =
    if str_leb high low
    then returns lists
    else if is_nil lists
    then returns lists
    else (do pl ← find lists low; pr ← find lists high; delete_at lists low high pl pr)

-- `Range`: the bounds in pairs.
unfoldable pub ranges : List Bytes → List (Bytes × Bytes)
ranges [] = []
ranges (x ∷ []) = []
ranges (x ∷ y ∷ lists) = (x, y) ∷ ranges lists

-- The loops of `Add` and `NewRangeListFromString`.
unfoldable pub add_ranges : List Bytes → List (Bytes × Bytes) → Call (List Bytes)
unfolding add_range
add_ranges lists [] = returns lists
add_ranges lists ((low, high) ∷ rest) = do l ← add_range lists low high; add_ranges l rest

-- `NewRangeListFromString`, from the labels between the commas; nil for an odd number of them.
unfoldable pub new_range_list : List Bytes → Call (Option (List Bytes))
unfolding ranges add_ranges
new_range_list labels =
    if length labels % 2 == 1
    then returns none
    else (do l ← add_ranges [] (ranges labels); returns (some l))
