-- ===== src/BitVector/Tests.antt =====
-- Runs of source/utils/bit-vector.go.
use Prim.Native.Nat.{min, max}
use urd_code.BitVector.Sets.{Holds, set_operations}
use urd_code.Prelude.{◌<◌, ◌/◌, ◌||◌, ◌&&◌, not, ltb, ◌≡◌, refl, ◌↔◌, true, some, [], ◌∷◌, arith}
use urd_code.Prelude.Int.{pos}
use urd_code.Prelude.Calls.{returns, panics}
use urd_code.BitVector.{
  BitVector, IsValid, byte, get_index, set_index, bit, copy_bits, or_vector, and_vector, not_vector,
  sub_vector, new_bit_array_from_byte,
}
use urd_code.BitVector.Index.{set_get}
use urd_code.BitVector.Codec.{new_bit_array_from_byte-byte, new_bit_array_from_byte-panics}

abbrev ten : BitVector
ten = record { bits = 10; elems = 5 ∷ 2 ∷ [] }

ten-IsValid : IsValid ten
ten-IsValid = record { sized = refl; bytes = (omega arith, (omega arith, tt)) }

new_bit_array_from_byte-byte_example :
    new_bit_array_from_byte (byte (some ten)) ≡ returns (some ten)
new_bit_array_from_byte-byte_example = new_bit_array_from_byte-byte ten ten-IsValid

new_bit_array_from_byte-panics_example :
    (new_bit_array_from_byte (9 ∷ 1 ∷ []) ≡ panics) ↔ ((7 < 9) × (9 < 128) × (0 < 1))
new_bit_array_from_byte-panics_example = new_bit_array_from_byte-panics 9 (1 ∷ []) (omega arith)

test_panics : new_bit_array_from_byte (9 ∷ 1 ∷ []) ≡ panics
unfolding new_bit_array_from_byte
test_panics = refl

set_get_example :
    (bv' : BitVector) × (set_index (some ten) (pos 1) true ≡ returns (some bv', true))
    × IsValid bv'
    × (bv'.bits ≡ 10)
    × (get_index (some bv') (pos 9) ≡ get_index (some ten) (pos 9))
set_get_example = set_get ten 1 9 true ten-IsValid (omega arith) (omega arith)

abbrev four : BitVector
four = record { bits = 4; elems = 6 ∷ [] }

four-IsValid : IsValid four
four-IsValid = record { sized = refl; bytes = (omega arith, tt) }

set_operations_example :
    Holds
      (or_vector (some four) (some ten))
      (max 4 10)
      (λ j. bit four j || (ltb (j / 8) 1 && bit ten j))
    × Holds (and_vector (some four) (some ten)) (min 4 10) (λ j. bit four j && bit ten j)
    × Holds (sub_vector (some four) (some ten)) 4 (λ j. bit four j && not (bit ten j))
    × Holds (returns (not_vector (some four))) 4 (λ j. not (bit four j))
set_operations_example = set_operations four ten four-IsValid ten-IsValid

-- The tenth bit of the argument is lost.
test_or :
    or_vector (some four) (some ten) ≡ returns (some (record { bits = 10; elems = 7 ∷ 0 ∷ [] }))
unfolding or_vector copy_bits
test_or = refl

test_sub :
    sub_vector (some ten) (some four) ≡ returns (some (record { bits = 10; elems = 1 ∷ 2 ∷ [] }))
unfolding sub_vector copy_bits
test_sub = refl
