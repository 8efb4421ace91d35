-- ===== src/Prelude/Keys.antt =====
-- The keys of Go's maps: maps whose keys are distinct, and what their numbers say.
use mathlib.Core.Path.{◌≡◌, refl, sym, ap, ◌∙◌}
use mathlib.Core.Logic.{inl, inr}
use mathlib.Core.Bool.{Bool, true, false}
use mathlib.Core.List.{[], ◌∷◌}
use native.Mathlib.Omega.{arith}
use Prim.Native.Nat.{◌<◌, ◌≤◌}
use urd_code.Prelude.Tests.{Bool-cases, if◌then◌else◌}
use urd_code.Prelude.Lists.{length}
use urd_code.Prelude.Bytes.{Bytes, bytes_eq, bytes_eq_iff}
use urd_code.Prelude.Maps.{Map, lookup, contains, insert, erase, lookup-insert, lookup-erase}

unfoldable pub Distinct {ℓ} : {V : Type ℓ} → Map V → Type 0
Distinct [] = Unit
Distinct ((k, v) ∷ m) = (contains k m ≡ false) × Distinct m

-- Every key of the first map is one of the second.
abbrev pub Within {ℓ κ} : {V : Type ℓ} {W : Type κ} → Map V → Map W → Type 0
Within m n = (k : Bytes) → contains k m ≡ true → contains k n ≡ true

bytes_ne_sym : (a b : Bytes) → bytes_eq a b ≡ false → bytes_eq b a ≡ false
bytes_ne_sym a b h = ground (arith, bytes_eq_iff a b, bytes_eq_iff b a)

module _ {ℓ} {V : Type ℓ} where
  pub contains-insert :
      (k j : Bytes) (v : V) (m : Map V) → contains j m ≡ true → contains j (insert k v m) ≡ true
  contains-insert k j v m h = ground (arith, lookup-insert k j v m)

  pub contains-insert_self : (k : Bytes) (v : V) (m : Map V) → contains k (insert k v m) ≡ true
  contains-insert_self k v m = ground (arith, lookup-insert k k v m, bytes_eq_iff k k)

  contains-insert_ne :
      (k j : Bytes) (v : V) (m : Map V)
      → bytes_eq k j ≡ false
      → contains j (insert k v m) ≡ contains j m
  contains-insert_ne k j v m h = ground (arith, lookup-insert k j v m)

  Distinct-if :
      (b : Bool) (m n : Map V)
      → (b ≡ true → Distinct m)
      → (b ≡ false → Distinct n)
      → Distinct (if b then m else n)
  Distinct-if true m n h k = h refl
  Distinct-if false m n h k = k refl

  pub insert-Distinct : (k : Bytes) (v : V) (m : Map V) → Distinct m → Distinct (insert k v m)
  unfolding Distinct insert lookup
  insert-Distinct k v [] d = (refl, tt)
  insert-Distinct k v ((j, w) ∷ m) d =
      Distinct-if (bytes_eq j k) _ _
        (λ e. (ap (λ x. contains x m) (sym ((bytes_eq_iff j k).0 e)) ∙ d.0, d.1))
        (λ e. (contains-insert_ne k j v m (bytes_ne_sym j k e) ∙ d.0, insert-Distinct k v m d.1))

  length-erase_le : (k : Bytes) (m : Map V) → length (erase k m) ≤ length m
  unfolding erase
  length-erase_le k [] = omega arith
  length-erase_le k ((j, w) ∷ m) = ground (arith, length-erase_le k m)

  length-erase : (k : Bytes) (m : Map V) → contains k m ≡ true → length (erase k m) < length m
  unfolding lookup erase
  length-erase k [] h = ground arith
  length-erase k ((j, w) ∷ m) h = ground (arith, length-erase k m, length-erase_le k m)

module _ {ℓ} {V : Type ℓ} where
  contains-head : (k : Bytes) (v : V) (m : Map V) → contains k ((k, v) ∷ m) ≡ true
  unfolding lookup
  contains-head k v m = ground (arith, bytes_eq_iff k k)

  contains-tail :
      (k j : Bytes) (v : V) (m : Map V) → contains j m ≡ true → contains j ((k, v) ∷ m) ≡ true
  unfolding lookup
  contains-tail k j v m h = ground arith

module _ {ℓ κ} {V : Type ℓ} {W : Type κ} where
  pub Within-insert :
      (k : Bytes) (v : V) (w : W) (m : Map V) (n : Map W)
      → Within m n
      → Within (insert k v m) (insert k w n)
  Within-insert k v w m n h j there =
      ground (arith, lookup-insert k j v m, lookup-insert k j w n, h j)

  Within-erase :
      (k : Bytes) (m : Map V) (n : Map W) → contains k m ≡ false → Within m n → Within m (erase k n)
  Within-erase k m n fresh h j there =
      ground (arith, lookup-erase k j n, bytes_eq_iff k j, h j there)

  length-Within : (m : Map V) (n : Map W) → Distinct m → Within m n → length m ≤ length n
  unfolding Distinct
  length-Within [] n d h = omega arith
  length-Within ((k, v) ∷ m) n d h =
      let within = Within-erase k m n d.0 (λ j there. h j (contains-tail k j v m there)) in
      let shorter = length-erase k n (h k (contains-head k v m)) in
      omega (arith, length-Within m (erase k n) d.1 within, shorter)

  -- A map with distinct keys that are keys of another, of the same length, has all keys of the other.
  pub Within-full :
      (m : Map V) (n : Map W) → Distinct m → Within m n → length m ≡ length n → Within n m
  Within-full m n d h e k there = elim (Bool-cases (contains k m)) [
    | inl q ↦ q
    | inr q ↦
        ground
          (arith, length-Within m (erase k n) d (Within-erase k m n q h), length-erase k n there)
  ]
