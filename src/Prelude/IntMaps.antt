-- ===== src/Prelude/IntMaps.antt =====
-- Go's maps with integers as keys, and maps of such maps. A delete takes every entry of the key.
use mathlib.Core.Path.{◌≡◌, refl}
use mathlib.Core.Bool.{Bool, true, false, ◌&&◌, ◌||◌}
use mathlib.Core.Option.{Option, none, some}
use mathlib.Core.List.{List, [], ◌∷◌}
use native.Mathlib.Omega.{arith}
use urd_code.Prelude.Tests.{if◌then◌else◌}
use urd_code.Prelude.Int.{ℤ, eqb_ℤ, ltb_ℤ, eqb_ℤ_iff}

abbrev pub IntMap {ℓ} : Type ℓ → Type ℓ
IntMap A = List (ℤ × A)

module _ {ℓ} {A : Type ℓ} where
  -- `a, ok := m[k]`
  unfoldable pub find_at : ℤ → IntMap A → Option A
  find_at k [] = none
  find_at k ((j, a) ∷ m) = if eqb_ℤ j k then some a else find_at k m

  -- `m[k] = a`
  unfoldable pub put_at : ℤ → A → IntMap A → IntMap A
  put_at k a [] = (k, a) ∷ []
  put_at k a ((j, b) ∷ m) = if eqb_ℤ j k then (k, a) ∷ m else (j, b) ∷ put_at k a m

  -- `delete(m, k)`
  unfoldable pub delete_at : ℤ → IntMap A → IntMap A
  delete_at k [] = []
  delete_at k ((j, b) ∷ m) = let rest = delete_at k m in if eqb_ℤ j k then rest else (j, b) ∷ rest

  pub find_at-put_at :
      (k j : ℤ) (v : A) (m : IntMap A)
      → find_at j (put_at k v m) ≡ (if eqb_ℤ k j then some v else find_at j m)
  unfolding find_at put_at
  find_at-put_at k j v [] = refl
  find_at-put_at k j v ((i, w) ∷ m) =
      ground (arith, find_at-put_at k j v m, eqb_ℤ_iff k j, eqb_ℤ_iff i k, eqb_ℤ_iff i j)

  pub find_at-delete_at :
      (k j : ℤ) (m : IntMap A)
      → find_at j (delete_at k m) ≡ (if eqb_ℤ k j then none else find_at j m)
  unfolding find_at delete_at
  find_at-delete_at k j [] = ground arith
  find_at-delete_at k j ((i, w) ∷ m) =
      ground (arith, find_at-delete_at k j m, eqb_ℤ_iff k j, eqb_ℤ_iff i k, eqb_ℤ_iff i j)

  -- `for r := range m { if r < round { delete(m, r) } }`
  unfoldable pub prune_below : ℤ → IntMap A → IntMap A
  prune_below round [] = []
  prune_below round ((r, a) ∷ m) =
      let rest = prune_below round m in if ltb_ℤ r round then rest else (r, a) ∷ rest

  pub find_at-prune_below :
      (round r : ℤ) (m : IntMap A)
      → find_at r (prune_below round m) ≡ (if ltb_ℤ r round then none else find_at r m)
  unfolding find_at prune_below
  find_at-prune_below round r [] = ground arith
  find_at-prune_below round r ((i, w) ∷ m) =
      ground (arith, find_at-prune_below round r m, eqb_ℤ_iff i r)

abbrev no_entries {ℓ} : {A : Type ℓ} → List A → Bool
no_entries [] = true
no_entries (_ ∷ _) = false

abbrev entries_of {ℓ} : {A : Type ℓ} → Option (IntMap A) → IntMap A
entries_of none = []
entries_of (some m) = m

-- `v < view || (v == view && r < round)`
abbrev pub is_before : ℤ → ℤ → ℤ → ℤ → Bool
is_before v r view round = ltb_ℤ v view || eqb_ℤ v view && ltb_ℤ r round

module _ {ℓ} {A : Type ℓ} where
  -- `a, ok := m[v][r]`
  unfoldable pub find_in : ℤ → ℤ → IntMap (IntMap A) → Option A
  unfolding find_at
  find_in v r m = find_at r (entries_of (find_at v m))

  -- `m[v][r] = a`, where the map of `v` is made if it is missing.
  unfoldable pub put_in : ℤ → ℤ → A → IntMap (IntMap A) → IntMap (IntMap A)
  unfolding find_at put_at
  put_in v r a m = put_at v (put_at r a (entries_of (find_at v m))) m

  -- The entries before a view and a round are deleted, and then a view that has none left.
  unfoldable pub prune_in : ℤ → ℤ → IntMap (IntMap A) → IntMap (IntMap A)
  unfolding prune_below delete_at
  prune_in view round [] = []
  prune_in view round ((v, rounds) ∷ m) =
      let rest = prune_in view round m in
      let kept = prune_below round rounds in
      if ltb_ℤ v view
      then rest
      else if eqb_ℤ v view
      then if no_entries kept then delete_at v rest else (v, kept) ∷ rest
      else (v, rounds) ∷ rest

  pub find_in-put_in :
      (v r v' r' : ℤ) (a : A) (m : IntMap (IntMap A))
      → find_in v' r' (put_in v r a m)
        ≡ (if eqb_ℤ v v' && eqb_ℤ r r' then some a else find_in v' r' m)
  unfolding find_in put_in
  find_in-put_in v r v' r' a m =
      let before = entries_of (find_at v m) in
      ground (
        arith,
        find_at-put_at v v' (put_at r a before) m,
        find_at-put_at r r' a before,
        eqb_ℤ_iff v v',
      )

  find_at-no_entries : (r : ℤ) (m : IntMap A) → no_entries m ≡ true → find_at r m ≡ none
  unfolding find_at
  find_at-no_entries r [] h = refl
  find_at-no_entries r (_ ∷ _) h = ground arith

  pub find_in-prune_in :
      (view round v r : ℤ) (m : IntMap (IntMap A))
      → find_in v r (prune_in view round m)
        ≡ (if is_before v r view round then none else find_in v r m)
  unfolding find_in prune_in
  find_in-prune_in view round v r [] = ground arith
  find_in-prune_in view round v r ((w, rounds) ∷ m) =
      let kept = prune_below round rounds in
      ground (
        arith,
        find_in-prune_in view round v r m,
        find_at-delete_at w v (prune_in view round m),
        find_at-prune_below round r rounds,
        find_at-no_entries r kept,
        eqb_ℤ_iff w v,
        eqb_ℤ_iff w view,
      )
