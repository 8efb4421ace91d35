-- ===== src/Prelude/Maps.antt =====
-- Go's `map[string]V`, as an association list. The order of its entries is the order in which
-- `range` visits them; Go promises none.
use mathlib.Core.Path.{◌≡◌, refl}
use mathlib.Core.Bool.{Bool, true, false}
use mathlib.Core.Option.{Option, none, some}
use mathlib.Core.List.{List, [], ◌∷◌}
use native.Mathlib.Omega.{arith}
use Prim.Native.Nat.{suc}
use urd_code.Prelude.Tests.{if◌then◌else◌}
use urd_code.Prelude.Lists.{length}
use urd_code.Prelude.Bytes.{Bytes, bytes_eq, bytes_eq_iff}

abbrev pub Map {ℓ} : Type ℓ → Type ℓ
Map V = List (Bytes × V)

module _ {ℓ} {V : Type ℓ} where
  -- `v, ok := m[k]`
  unfoldable pub lookup : Bytes → Map V → Option V
  lookup k [] = none
  lookup k ((j, v) ∷ m) = if bytes_eq j k then some v else lookup k m

  -- `_, ok := m[k]`
  abbrev pub contains : Bytes → Map V → Bool
  contains k m = elim (lookup k m) [ none ↦ false | some _ ↦ true ]

  -- `m[k] = v`
  unfoldable pub insert : Bytes → V → Map V → Map V
  insert k v [] = (k, v) ∷ []
  insert k v ((j, w) ∷ m) = if bytes_eq j k then (k, v) ∷ m else (j, w) ∷ insert k v m

  -- `delete(m, k)`: every entry of the key goes, so none is left whatever the list.
  unfoldable pub erase : Bytes → Map V → Map V
  erase k [] = []
  erase k ((j, w) ∷ m) = let rest = erase k m in if bytes_eq j k then rest else (j, w) ∷ rest

  pub lookup-insert :
      (k j : Bytes) (v : V) (m : Map V)
      → lookup j (insert k v m) ≡ (if bytes_eq k j then some v else lookup j m)
  unfolding lookup insert
  lookup-insert k j v [] = refl
  lookup-insert k j v ((i, w) ∷ m) =
      ground (arith, lookup-insert k j v m, bytes_eq_iff i k, bytes_eq_iff i j, bytes_eq_iff k j)

  pub lookup-erase :
      (k j : Bytes) (m : Map V) → lookup j (erase k m) ≡ (if bytes_eq k j then none else lookup j m)
  unfolding lookup erase
  lookup-erase k j [] = ground arith
  lookup-erase k j ((i, w) ∷ m) =
      ground (arith, lookup-erase k j m, bytes_eq_iff i k, bytes_eq_iff i j, bytes_eq_iff k j)

  -- A key that is not there makes the map longer by one.
  pub length-insert :
      (k : Bytes) (v : V) (m : Map V)
      → contains k m ≡ false
      → length (insert k v m) ≡ suc (length m)
  unfolding lookup insert
  length-insert k v [] h = refl
  length-insert k v ((j, w) ∷ m) h = ground (arith, length-insert k v m)
