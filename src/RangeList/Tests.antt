-- ===== src/RangeList/Tests.antt =====
-- Runs of source/utils/RangeList.go: the keys are strings of one byte.
use urd_code.Prelude.{ℕ, ◌≡◌, refl, not, ◌&&◌, List, [], ◌∷◌}
use urd_code.Prelude.Bytes.{Bytes}
use urd_code.Prelude.Calls.{returns, ◌>>=◌}
use urd_code.RangeList.{str_ltb, search, add_range, add_ranges, delete_range}
use urd_code.RangeList.Count.{is_ascending}
use urd_code.RangeList.Ranges.{IsValid, in_range}
use urd_code.RangeList.Add.{add_ranges-search, is_listed}
use urd_code.RangeList.Delete.{delete_range-search}

abbrev key : ℕ → Bytes
key n = n ∷ []

abbrev two : List Bytes
two = key 2 ∷ key 4 ∷ key 7 ∷ key 9 ∷ []

two-IsValid : IsValid two
unfolding is_ascending str_ltb
two-IsValid = (refl, refl)

test_join : add_range two (key 4) (key 7) ≡ returns (key 2 ∷ key 9 ∷ [])
unfolding add_range
test_join = refl

delete_range-search_example :
    (ys : List Bytes) × (delete_range two (key 3) (key 8) ≡ returns ys)
    × IsValid ys
    × ((p : Bytes)
        → search ys p ≡ (search two p >>= λ b. returns (b && not (in_range (key 3) (key 8) p))))
delete_range-search_example = delete_range-search two (key 3) (key 8) two-IsValid

add_ranges-search_example :
    (ys : List Bytes) × (add_ranges [] ((key 5, key 9) ∷ (key 1, key 6) ∷ []) ≡ returns ys)
    × IsValid ys
    × ((p : Bytes) → search ys p ≡ returns (is_listed ((key 5, key 9) ∷ (key 1, key 6) ∷ []) p))
add_ranges-search_example = add_ranges-search ((key 5, key 9) ∷ (key 1, key 6) ∷ [])
