-- ===== src/BitVector/Words.antt =====
-- source/utils/bit-vector.go: setting and clearing one bit of a byte, by a check of every byte and
-- every pair of places.
use Prim.Native.Nat.{bit_and, bit_or}
use urd_code.Prelude.{
  ℕ, zero, suc, ◌-◌, ◌^◌, ◌<◌, ◌≡◌, refl, Bool, true, false, ◌&&◌, ◌||◌, not, arith, if◌then◌else◌,
  ltb, ◌==◌, bool_eq, bool_eq_iff,
}

-- Whether a test passes at each place under a bound.
passes : (ℕ → Bool) → ℕ → Bool
passes test zero = true
passes test (suc top) = let below = passes test top in if test top then below else false

passes-at :
    (test : ℕ → Bool) (top place : ℕ) → place < top → passes test top ≡ true → test place ≡ true
unfolding passes
passes-at test zero place under all = absurd (omega arith)
passes-at test (suc top) place under all = ground (passes-at test top place, arith)

abbrev tested : ℕ → ℕ → Bool
tested e k = ltb 0 (bit_and e (2 ^ k))

abbrev set_right : ℕ → ℕ → ℕ → Bool
set_right e j k = bool_eq (tested (bit_or e (2 ^ j)) k) ((j == k) || tested e k)

abbrev clear_right : ℕ → ℕ → ℕ → Bool
clear_right e j k = bool_eq (tested (bit_and e (255 - 2 ^ j)) k) (not (j == k) && tested e k)

abbrev for_all : (ℕ → ℕ → ℕ → Bool) → Bool
for_all p = passes (λ e. passes (λ j. passes (λ k. p e j k) 8) 8) 256

for_all_sound :
    (p : ℕ → ℕ → ℕ → Bool) (e j k : ℕ) → for_all p ≡ true → e < 256 → j < 8 → k < 8 → p e j k ≡ true
for_all_sound p e j k h he hj hk = passes-at (p e j) 8 k hk (
    passes-at (λ j. passes (p e j) 8) 8 j hj
      (passes-at (λ e. passes (λ j. passes (p e j) 8) 8) 256 e he h))

set_table : for_all set_right ≡ true
unfolding passes
set_table = refl

clear_table : for_all clear_right ≡ true
unfolding passes
clear_table = refl

byte_table :
    for_all (λ e j _. ltb (bit_or e (2 ^ j)) 256 && ltb (bit_and e (255 - 2 ^ j)) 256) ≡ true
unfolding passes
byte_table = refl

module _ (e j : ℕ) (he : e < 256) (hj : j < 8) where
  pub tested-bit_or : (k : ℕ) → k < 8 → tested (bit_or e (2 ^ j)) k ≡ ((j == k) || tested e k)
  tested-bit_or k hk = (bool_eq_iff _ _).0 (for_all_sound set_right e j k set_table he hj hk)

  pub tested-bit_and :
      (k : ℕ) → k < 8 → tested (bit_and e (255 - 2 ^ j)) k ≡ (not (j == k) && tested e k)
  tested-bit_and k hk = (bool_eq_iff _ _).0 (for_all_sound clear_right e j k clear_table he hj hk)

  pub bit_or-lt : bit_or e (2 ^ j) < 256
  bit_or-lt = ground (arith, for_all_sound _ e j 0 byte_table he hj (omega arith))

  pub bit_and-lt : bit_and e (255 - 2 ^ j) < 256
  bit_and-lt = ground (arith, for_all_sound _ e j 0 byte_table he hj (omega arith))
