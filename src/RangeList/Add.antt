-- ===== src/RangeList/Add.antt =====
-- source/utils/RangeList.go: `AddRange` and what is built of it.
use urd_code.Prelude.{
  ℕ, ◌≡◌, refl, ap, ◌∙◌, inl, inr, Bool, true, false, ◌&&◌, ◌||◌, List, [], ◌∷◌, ◌++◌, arith, take,
  drop, ◌==◌, Bool-cases, length-take, length-drop, length-append,
}
use urd_code.Prelude.Bytes.{Bytes}
use urd_code.Prelude.Calls.{returns, ◌>>=◌}
use urd_code.RangeList.{str_ltb, red_place, search, add_at, add_range, add_ranges}
use urd_code.RangeList.Order.{ltb_trans, ltb_asym, ltb_leb_trans, leb_ltb_trans}
use urd_code.RangeList.Count.{count, is_above, is_ascending, count_mono}
use urd_code.RangeList.Find.{find-eq-count, search-eq-count}
use urd_code.RangeList.Splice.{
  count-append, count-take, count-drop, ascending-take, ascending-drop, below-take, above-drop,
  ascending-append,
}
use urd_code.RangeList.Ranges.{IsValid, in_range, Left, Right, add_left-Left, add_right-Right}

-- The list is valid, and its keys are those of another with a range.
abbrev pub Adds : List Bytes → Bytes → Bytes → List Bytes → Type 0
Adds xs low high ys =
    IsValid ys
    × ((p : Bytes) → red_place (count ys p) ≡ (red_place (count xs p) || in_range low high p))

module _ (xs : List Bytes) (valid : IsValid xs) (low high : Bytes)
    (up : str_ltb low high ≡ true) where
  joined-Adds :
      (i : ℕ) (x : Bytes) (j : ℕ) (y : Bytes)
      → Left xs low i x
      → Right xs high j y
      → Adds xs low high (take i xs ++ x ∷ y ∷ drop j xs)
  unfolding is_above is_ascending count
  joined-Adds i x j y (below, fits, even, upto, inside, outside)
        (above, fits', even', downto, before, after) =
      (
        (
          ascending-append (take i xs) (y ∷ drop j xs) x (ascending-take i xs valid.0)
              (below-take i xs x valid.0 below) (ground (arith, above_rest))
              (ground (arith, above-drop j xs y valid.0 above, ascending-drop j xs valid.0)),
          omega (
            arith,
            length-append (take i xs) (x ∷ y ∷ drop j xs),
            length-take i xs,
            length-drop j xs,
            valid.1,
          ),
        ),
        λ p. ground (
          arith,
          count-append (take i xs) (x ∷ y ∷ drop j xs) p,
          count-take i xs p valid.0,
          count-drop j xs p valid.0,
          inside p,
          outside p,
          before p,
          after p,
          ltb_trans p low high,
        ),
      )
    where
      x_below_y : str_ltb x y ≡ true
      x_below_y = ltb_leb_trans x high y (leb_ltb_trans x low high upto up) downto

      above_rest : is_above x (y ∷ drop j xs) ≡ true
      above_rest = ground (
        arith,
        x_below_y,
        above-drop j xs x valid.0
            (omega (arith, above, count_mono xs x y (ltb_asym x y x_below_y))),
      )

  -- Where both ends lie in one range, nothing is to be done.
  inside-Adds : count xs high ≡ count xs low → red_place (count xs low) ≡ true → Adds xs low high xs
  inside-Adds same red =
      (valid, λ p. ground (arith, count_mono xs low p, count_mono xs p high, ltb_asym p high))

  add_at-Adds :
      (ys : List Bytes) × (add_at xs low high (count xs low) (count xs high) ≡ returns ys)
      × Adds xs low high ys
  add_at-Adds = elim (Bool-cases ((count xs high == count xs low) && red_place (count xs low))) [
    | inl done ↦ (xs, rw done, inside-Adds (ground arith) (ground arith))
    | inr go ↦
        let (i, x, e, l) = add_left-Left xs valid.0 valid.1 low (count xs low) refl in
        let (j, y, d, r) = add_right-Right xs valid.0 valid.1 high (count xs high) refl in
        (take i xs ++ x ∷ y ∷ drop j xs, rw (go, e, d), joined-Adds i x j y l r)
  ]

empty_range :
    (xs : List Bytes) (low high : Bytes)
    → IsValid xs
    → str_ltb low high ≡ false
    → Adds xs low high xs
empty_range xs low high valid h = (valid, λ p. ground (arith, leb_ltb_trans low p high))

first-Adds : (low high : Bytes) → str_ltb low high ≡ true → Adds [] low high (low ∷ high ∷ [])
unfolding is_ascending is_above count
first-Adds low high up = ((ground arith, omega arith), λ p. ground (arith, ltb_trans p low high))

add_range-Adds :
    (xs : List Bytes) (low high : Bytes)
    → IsValid xs
    → (ys : List Bytes) × (add_range xs low high ≡ returns ys) × Adds xs low high ys
unfolding add_range
add_range-Adds [] low high valid = elim (Bool-cases (str_ltb low high)) [
  | inr out ↦ ([], rw out refl, empty_range [] low high valid out)
  | inl up ↦ (low ∷ high ∷ [], rw up refl, first-Adds low high up)
]
add_range-Adds (b ∷ xs) low high valid = elim (Bool-cases (str_ltb low high)) [
  | inr out ↦ (b ∷ xs, rw out refl, empty_range (b ∷ xs) low high valid out)
  | inl up ↦
      let (ys, e, adds) = add_at-Adds (b ∷ xs) valid low high up in
      (
        ys,
        rw (up, find-eq-count (b ∷ xs) low valid.0, find-eq-count (b ∷ xs) high valid.0, e),
        adds,
      )
]

-- `AddRange` on a valid list ends without a panic and leaves a valid list, and a search of that
-- finds exactly the keys that were found before and those of the range.
pub add_range-search :
    (xs : List Bytes) (low high : Bytes)
    → IsValid xs
    → (ys : List Bytes) × (add_range xs low high ≡ returns ys)
      × IsValid ys
      × ((p : Bytes) → search ys p ≡ (search xs p >>= λ b. returns (b || in_range low high p)))
add_range-search xs low high valid =
    let (ys, e, (valid', adds)) = add_range-Adds xs low high valid in
    (
      ys,
      e,
      valid',
      λ p. rw (search-eq-count xs p valid.0, search-eq-count ys p valid'.0) (ap returns (adds p)),
    )

-- Whether a key is in one of the ranges.
unfoldable pub is_listed : List (Bytes × Bytes) → Bytes → Bool
is_listed [] p = false
is_listed ((low, high) ∷ rest) p = in_range low high p || is_listed rest p

add_ranges-listed :
    (rest : List (Bytes × Bytes)) (xs : List Bytes)
    → IsValid xs
    → (ys : List Bytes) × (add_ranges xs rest ≡ returns ys)
      × IsValid ys
      × ((p : Bytes) → red_place (count ys p) ≡ (red_place (count xs p) || is_listed rest p))
unfolding add_ranges is_listed
add_ranges-listed [] xs valid = (xs, refl, valid, λ p. ground arith)
add_ranges-listed ((low, high) ∷ rest) xs valid =
    let (ys, e, (valid1, adds)) = add_range-Adds xs low high valid in
    let (zs, d, valid2, more) = add_ranges-listed rest ys valid1 in
    (zs, rw e d, valid2, λ p. ground (arith, adds p, more p))

-- A list built from any ranges, in any order and overlapping or not, is valid, and a search of it
-- ends, and finds exactly the keys of the ranges.
pub add_ranges-search :
    (rest : List (Bytes × Bytes))
    → (ys : List Bytes) × (add_ranges [] rest ≡ returns ys)
      × IsValid ys
      × ((p : Bytes) → search ys p ≡ returns (is_listed rest p))
unfolding count is_ascending
add_ranges-search rest =
    let (ys, e, valid, listed) = add_ranges-listed rest [] (refl, refl) in
    (ys, e, valid, λ p. search-eq-count ys p valid.0 ∙ ap returns (listed p))
