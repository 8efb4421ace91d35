-- ===== src/Convert.antt =====
-- source/utils/convert.go: numbers as little-endian bytes. Signed numbers are read as the unsigned
-- word of the same width; `encoding/binary` is written out, and panics on too few bytes.
mod Tests
use urd_code.Prelude.{
  ℕ, zero, suc, ◌+◌, ◌-◌, ◌*◌, ◌/◌, ◌%◌, ◌^◌, ◌<◌, ◌≤◌, ◌≡◌, refl, ap, ◌∙◌, Bool, Option, none,
  some, List, [], ◌∷◌, arith, if◌then◌else◌, ltb,
}
use urd_code.Prelude.Int.{ℤ, pos, negsuc}
use urd_code.Prelude.Bytes.{Bytes}
use urd_code.Prelude.Calls.{Call, returns, panics, ◌>>=◌}

-- The types of the type switch, and any other.
pub data Kind : Type 0 where
  int8 uint8 int16 uint16 int32 uint32 int64 uint64 other : Kind

-- The conversion to the unsigned word of `m` values.
abbrev pub to_word : ℕ → ℤ → ℕ
to_word m (pos n) = n % m
to_word m (negsuc n) = m - 1 - n % m

-- The conversion back to a signed word.
abbrev pub to_signed : ℕ → ℕ → ℤ
to_signed m n = if ltb n (m / 2) then pos n else negsuc (m - 1 - n)

-- The `count` low bytes, the lowest first.
unfoldable pub put_bytes : ℕ → ℕ → Bytes
put_bytes zero n = []
put_bytes (suc count) n = n % 256 ∷ put_bytes count (n / 256)

unfoldable pub read_bytes : ℕ → Bytes → Call ℕ
read_bytes zero bs = returns 0
read_bytes (suc count) [] = panics
read_bytes (suc count) (b ∷ bs) = do rest ← read_bytes count bs; returns (b + 256 * rest)

-- A value of another type is printed as an error and gives nil.
unfoldable pub int_to_bytes : Kind → ℤ → Bytes
unfolding put_bytes
int_to_bytes int8 v = put_bytes 1 (to_word (2 ^ 8) v)
int_to_bytes uint8 v = put_bytes 1 (to_word (2 ^ 8) v)
int_to_bytes int16 v = put_bytes 2 (to_word (2 ^ 16) v)
int_to_bytes uint16 v = put_bytes 2 (to_word (2 ^ 16) v)
int_to_bytes int32 v = put_bytes 4 (to_word (2 ^ 32) v)
int_to_bytes uint32 v = put_bytes 4 (to_word (2 ^ 32) v)
int_to_bytes int64 v = put_bytes 8 (to_word (2 ^ 64) v)
int_to_bytes uint64 v = put_bytes 8 (to_word (2 ^ 64) v)
int_to_bytes other v = []

abbrev read_unsigned : ℕ → Bytes → Call (Option ℤ)
read_unsigned count data_bytes = do n ← read_bytes count data_bytes; returns (some (pos n))

abbrev read_signed : ℕ → ℕ → Bytes → Call (Option ℤ)
read_signed count m data_bytes = do n ← read_bytes count data_bytes; returns (some (to_signed m n))

-- The value that is read; a value of another type is printed as an error and gives nil.
unfoldable pub bytes_to_int : Bytes → Kind → Call (Option ℤ)
unfolding read_bytes
bytes_to_int data_bytes int8 = read_signed 1 (2 ^ 8) data_bytes
bytes_to_int data_bytes uint8 = read_unsigned 1 data_bytes
bytes_to_int data_bytes int16 = read_signed 2 (2 ^ 16) data_bytes
bytes_to_int data_bytes uint16 = read_unsigned 2 data_bytes
bytes_to_int data_bytes int32 = read_signed 4 (2 ^ 32) data_bytes
bytes_to_int data_bytes uint32 = read_unsigned 4 data_bytes
bytes_to_int data_bytes int64 = read_signed 8 (2 ^ 64) data_bytes
bytes_to_int data_bytes uint64 = read_unsigned 8 data_bytes
bytes_to_int data_bytes other = returns none

div_lt : (n m : ℕ) → n < 256 * m → n / 256 < m
div_lt n m h = omega arith

-- The bytes of a number that they have room for are read as the number.
read-put : (count n : ℕ) → n < 256 ^ count → read_bytes count (put_bytes count n) ≡ returns n
unfolding put_bytes read_bytes
read-put zero n h = ground arith
read-put (suc count) n h =
    let below : n / 256 < 256 ^ count = div_lt n (256 ^ count) (omega arith) in
    rw (read-put count (n / 256) below) (ap returns (omega arith))

abbrev IsUnsigned : ℕ → ℤ → Type 0
IsUnsigned m (pos n) = n < m
IsUnsigned m (negsuc n) = ⊥

-- From `-half` up to below `half`.
abbrev IsSigned : ℕ → ℤ → Type 0
IsSigned half (pos n) = n < half
IsSigned half (negsuc n) = n < half

-- The values of a type.
abbrev pub IsOf : Kind → ℤ → Type 0
IsOf int8 v = IsSigned (2 ^ 7) v
IsOf uint8 v = IsUnsigned (2 ^ 8) v
IsOf int16 v = IsSigned (2 ^ 15) v
IsOf uint16 v = IsUnsigned (2 ^ 16) v
IsOf int32 v = IsSigned (2 ^ 31) v
IsOf uint32 v = IsUnsigned (2 ^ 32) v
IsOf int64 v = IsSigned (2 ^ 63) v
IsOf uint64 v = IsUnsigned (2 ^ 64) v
IsOf other v = ⊥

small_mod : (n m : ℕ) → n < m → n % m ≡ n
small_mod n m h = grind arith

unsigned-read :
    (count m : ℕ) (v : ℤ)
    → m ≡ 256 ^ count
    → IsUnsigned m v
    → read_unsigned count (put_bytes count (to_word m v)) ≡ returns (some v)
unsigned-read count m (pos n) e h = rw (small_mod n m h, read-put count n (omega arith)) refl
unsigned-read count m (negsuc n) e h = elim h [ ]

signed-read :
    (count h m : ℕ) (v : ℤ)
    → m ≡ 256 ^ count
    → m ≡ 2 * h
    → IsSigned h v
    → read_signed count m (put_bytes count (to_word m v)) ≡ returns (some v)
signed-read count h m (pos n) e e' l =
    ground (arith, small_mod n m (omega arith), read-put count n (omega arith))
signed-read count h m (negsuc n) e e' l =
    ground (arith, small_mod n m (omega arith), read-put count (m - 1 - n) (omega arith))

-- A value of each of the eight types, written and read as that type, is the value.
pub bytes_to_int-int_to_bytes :
    (k : Kind) (v : ℤ) → IsOf k v → bytes_to_int (int_to_bytes k v) k ≡ returns (some v)
unfolding int_to_bytes bytes_to_int
bytes_to_int-int_to_bytes int8 v h = signed-read 1 (2 ^ 7) (2 ^ 8) v refl refl h
bytes_to_int-int_to_bytes uint8 v h = unsigned-read 1 (2 ^ 8) v refl h
bytes_to_int-int_to_bytes int16 v h = signed-read 2 (2 ^ 15) (2 ^ 16) v refl refl h
bytes_to_int-int_to_bytes uint16 v h = unsigned-read 2 (2 ^ 16) v refl h
bytes_to_int-int_to_bytes int32 v h = signed-read 4 (2 ^ 31) (2 ^ 32) v refl refl h
bytes_to_int-int_to_bytes uint32 v h = unsigned-read 4 (2 ^ 32) v refl h
bytes_to_int-int_to_bytes int64 v h = signed-read 8 (2 ^ 63) (2 ^ 64) v refl refl h
bytes_to_int-int_to_bytes uint64 v h = unsigned-read 8 (2 ^ 64) v refl h
bytes_to_int-int_to_bytes other v h = elim h [ ]
