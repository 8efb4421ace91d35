-- ===== src/Prelude/Words.antt =====
-- Go's int32 as its bit pattern, a number below 2 ^ 32: sums wrap, and `/` and `>` read the
-- pattern as a signed number. `/` cuts off towards 0.
use Prim.Native.Nat.{ℕ, ◌+◌, ◌-◌, ◌*◌, ◌/◌, ◌%◌, ◌^◌, ◌<◌}
use mathlib.Core.Path.{◌≡◌}
use mathlib.Core.Bool.{Bool}
use native.Mathlib.Omega.{arith}
use urd_code.Prelude.Tests.{ltb, if◌then◌else◌}

abbrev pub add_32 : ℕ → ℕ → ℕ
add_32 a b = (a + b) % 2 ^ 32

abbrev pub double_32 : ℕ → ℕ
double_32 a = (2 * a) % 2 ^ 32

abbrev pub third_32 : ℕ → ℕ
third_32 a = if ltb a (2 ^ 31) then a / 3 else (2 ^ 32 - (2 ^ 32 - a) / 3) % 2 ^ 32

-- `a > b`
abbrev pub gtb_32 : ℕ → ℕ → Bool
gtb_32 a b = ltb ((b + 2 ^ 31) % 2 ^ 32) ((a + 2 ^ 31) % 2 ^ 32)

-- Where nothing overflows, the test is that of the numbers.
pub gtb_32-third_32 :
    (c t : ℕ) → t < 2 ^ 30 → c < 2 ^ 31 → gtb_32 c (third_32 (double_32 t)) ≡ ltb (2 * t / 3) c
gtb_32-third_32 c t ht hc = ground arith
