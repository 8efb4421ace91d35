-- ===== src/BitVector/Digits.antt =====
-- source/utils/bit-vector.go: the digits of two bytes that are joined, by recursion on the digits.
use Prim.Native.Nat.{min, max, digits, bit_and, bit_or, bit_and-bitwise, bit_or-bitwise}
use urd_code.Prelude.{
  ℕ, zero, suc, ◌+◌, ◌-◌, ◌*◌, ◌/◌, ◌%◌, ◌^◌, ◌≤◌, ◌<◌, ◌≡◌, refl, ap, ◌∙◌, not, ◌&&◌, ◌||◌, arith,
  ltb, ◌==◌,
}

-- What is asked of a rest: it splits into its own rest and a lowest digit.
module _ (z : ℕ → ℕ) (f : ℕ → ℕ → ℕ) (rest : (b : ℕ) → z b ≡ z (b / 2) * 2 + f 0 (b % 2)) where
  -- One more digit to go changes nothing, where the count covers the number.
  digits_more : (n a b : ℕ) → a ≤ n → digits z f (suc n) a b ≡ digits z f n a b
  digits_more zero zero b h = refl
  digits_more (suc n) zero b h = refl
  digits_more zero (suc a) b h = absurd (omega arith)
  digits_more (suc n) (suc a) b h =
      ap (λ high. high * 2 + f (suc a % 2) (b % 2))
        (digits_more n (suc a / 2) (b / 2) (omega arith))

  digits_spare : (spare a b : ℕ) → digits z f (spare + a) a b ≡ digits z f a a b
  digits_spare zero a b =
      let none_left : 0 + a ≡ a = omega arith in ap (λ n. digits z f n a b) none_left
  digits_spare (suc spare) a b =
      let one_left : suc spare + a ≡ suc (spare + a) = omega arith in
      ap (λ n. digits z f n a b) one_left
      ∙ digits_more (spare + a) a b (omega arith)
      ∙ digits_spare spare a b

  digits_split :
      (a b : ℕ) → digits z f a a b ≡ digits z f (a / 2) (a / 2) (b / 2) * 2 + f (a % 2) (b % 2)
  digits_split zero b = rest b
  digits_split (suc a) b =
      let half = suc a / 2 in
      let count : a ≡ a - half + half = omega arith in
      ap (λ high. high * 2 + f (suc a % 2) (b % 2))
        (ap (λ n. digits z f n half (b / 2)) count ∙ digits_spare (a - half) half (b / 2))

and_split : (a b : ℕ) → bit_and a b ≡ bit_and (a / 2) (b / 2) * 2 + min (a % 2) (b % 2)
and_split a b = omega (
  arith,
  bit_and-bitwise a b,
  bit_and-bitwise (a / 2) (b / 2),
  digits_split (λ _. 0) min (λ _. omega arith) a b,
)

or_split : (a b : ℕ) → bit_or a b ≡ bit_or (a / 2) (b / 2) * 2 + max (a % 2) (b % 2)
or_split a b = omega (
  arith,
  bit_or-bitwise a b,
  bit_or-bitwise (a / 2) (b / 2),
  digits_split (λ b. b) max (λ b. omega arith) a b,
)

pub digit : ℕ → ℕ → ℕ
digit zero e = e % 2
digit (suc k) e = digit k (e / 2)

digit-bit_and : (k a b : ℕ) → digit k (bit_and a b) ≡ min (digit k a) (digit k b)
unfolding digit
digit-bit_and zero a b = omega (arith, and_split a b)
digit-bit_and (suc k) a b =
    let half : bit_and a b / 2 ≡ bit_and (a / 2) (b / 2) = omega (arith, and_split a b) in
    ap (digit k) half ∙ digit-bit_and k (a / 2) (b / 2)

digit-bit_or : (k a b : ℕ) → digit k (bit_or a b) ≡ max (digit k a) (digit k b)
unfolding digit
digit-bit_or zero a b = omega (arith, or_split a b)
digit-bit_or (suc k) a b =
    let half : bit_or a b / 2 ≡ bit_or (a / 2) (b / 2) = omega (arith, or_split a b) in
    ap (digit k) half ∙ digit-bit_or k (a / 2) (b / 2)

digit-lt : (k e : ℕ) → digit k e < 2
unfolding digit
digit-lt zero e = omega arith
digit-lt (suc k) e = digit-lt k (e / 2)

bit_and-zero : (n a : ℕ) → a ≤ n → bit_and a 0 ≡ 0
bit_and-zero zero zero h = refl
bit_and-zero zero (suc a) h = absurd (omega arith)
bit_and-zero (suc n) a h = omega (arith, and_split a 0, bit_and-zero n (a / 2) (omega arith))

-- A mask with one bit tests a digit.
pub tested-eq-digit : (k e : ℕ) → ltb 0 (bit_and e (2 ^ k)) ≡ (digit k e == 1)
unfolding digit
tested-eq-digit zero e =
    let low : bit_and e 1 ≡ e % 2 =
      omega (arith, and_split e 1, bit_and-zero e (e / 2) (omega arith)) in
    ground arith
tested-eq-digit (suc k) e =
    let twice : 2 ^ suc k ≡ 2 * 2 ^ k = omega arith in
    let half : 2 ^ suc k / 2 ≡ 2 ^ k = omega (arith, twice) in
    let high : bit_and e (2 ^ suc k) ≡ bit_and (e / 2) (2 ^ k) * 2 =
      omega (arith, and_split e (2 ^ suc k), ap (bit_and (e / 2)) half, twice) in
    ground (arith, tested-eq-digit k (e / 2))

pub bit_and-lt_power : (n a b : ℕ) → a < 2 ^ n → b < 2 ^ n → bit_and a b < 2 ^ n
bit_and-lt_power zero zero b p q = omega (arith, bit_and-bitwise 0 b)
bit_and-lt_power zero (suc a) b p q = absurd (omega arith)
bit_and-lt_power (suc n) a b p q =
    let twice : 2 ^ suc n ≡ 2 * 2 ^ n = omega arith in
    omega (arith, and_split a b, bit_and-lt_power n (a / 2) (b / 2) (omega arith) (omega arith))

pub bit_or-lt_power : (n a b : ℕ) → a < 2 ^ n → b < 2 ^ n → bit_or a b < 2 ^ n
bit_or-lt_power zero zero zero p q = omega arith
bit_or-lt_power zero zero (suc b) p q = absurd (omega arith)
bit_or-lt_power zero (suc a) b p q = absurd (omega arith)
bit_or-lt_power (suc n) a b p q =
    let twice : 2 ^ suc n ≡ 2 * 2 ^ n = omega arith in
    omega (arith, or_split a b, bit_or-lt_power n (a / 2) (b / 2) (omega arith) (omega arith))

digit-complement : (n k e : ℕ) → k < n → e < 2 ^ n → digit k (2 ^ n - 1 - e) ≡ 1 - digit k e
unfolding digit
digit-complement zero k e p q = absurd (omega arith)
digit-complement (suc n) zero e p q = let twice : 2 ^ suc n ≡ 2 * 2 ^ n = omega arith in omega arith
digit-complement (suc n) (suc k) e p q =
    let twice : 2 ^ suc n ≡ 2 * 2 ^ n = omega arith in
    let half : (2 ^ suc n - 1 - e) / 2 ≡ 2 ^ n - 1 - e / 2 = omega arith in
    ap (digit k) half ∙ digit-complement n k (e / 2) (omega arith) (omega arith)

-- The bits of two bytes that are joined, and of one that is inverted.
pub tested-or :
    (k a b : ℕ)
    → ltb 0 (bit_and (bit_or a b) (2 ^ k))
      ≡ (ltb 0 (bit_and a (2 ^ k)) || ltb 0 (bit_and b (2 ^ k)))
tested-or k a b = ground (
  arith,
  tested-eq-digit k (bit_or a b),
  tested-eq-digit k a,
  tested-eq-digit k b,
  digit-bit_or k a b,
  digit-lt k a,
  digit-lt k b,
)

pub tested-and :
    (k a b : ℕ)
    → ltb 0 (bit_and (bit_and a b) (2 ^ k))
      ≡ (ltb 0 (bit_and a (2 ^ k)) && ltb 0 (bit_and b (2 ^ k)))
tested-and k a b = ground (
  arith,
  tested-eq-digit k (bit_and a b),
  tested-eq-digit k a,
  tested-eq-digit k b,
  digit-bit_and k a b,
  digit-lt k a,
  digit-lt k b,
)

pub tested-not :
    (k e : ℕ)
    → k < 8
    → e < 256
    → ltb 0 (bit_and (255 - e) (2 ^ k)) ≡ not (ltb 0 (bit_and e (2 ^ k)))
tested-not k e p q = ground (
  arith,
  tested-eq-digit k (255 - e),
  tested-eq-digit k e,
  digit-complement 8 k e p q,
  digit-lt k e,
)
