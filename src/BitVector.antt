-- ===== src/BitVector.antt =====
-- source/utils/bit-vector.go: the vector of bits by which an aggregated signature names its
-- signers, and its wire form. A pointer `*BitVector` is an `Option`: `none` is nil. `Byte` and
-- `NewBitArrayFromByte` go through `bytes.Buffer`, which only appends to and reads from a list.
mod Words
mod Digits
pub mod Sets
pub mod Index
pub mod Codec
mod Tests
use Prim.Native.Nat.{min, max, bit_and, bit_or}
use urd_code.Prelude.{
  ℕ, zero, suc, ◌+◌, ◌-◌, ◌*◌, ◌/◌, ◌%◌, ◌^◌, ◌<◌, ◌≡◌, Bool, true, false, Option, none, some, List,
  [], ◌∷◌, map, if◌then◌else◌, ltb, leb, length, get_elem?, get_or, set, replicate,
}
use urd_code.Prelude.Int.{ℤ, pos, negsuc}
use urd_code.Prelude.Bytes.{Bytes}
use urd_code.Prelude.Calls.{Call, returns, panics, ◌>>=◌}

pub record BitVector : Type 0 where
  pub bits : ℕ
  pub elems : List ℕ

-- `uint8(1) << uint(i%8)`
abbrev pub mask : ℕ → ℕ
mask i = 2 ^ (i % 8)

-- The bit at an index below `bits`, by which the laws speak of a vector.
unfoldable pub bit : BitVector → ℕ → Bool
bit bv i = ltb 0 (bit_and (get_or bv.elems (i / 8) 0) (mask i))

unfoldable pub new_bit_vector : ℤ → Option BitVector
new_bit_vector (negsuc _) = none
new_bit_vector (pos bits) = some (record { bits = bits; elems = replicate ((bits + 7) / 8) 0 })

unfoldable pub size : Option BitVector → ℕ
size none = 0
size (some bv) = bv.bits

abbrev test_elem : Option ℕ → ℕ → Call Bool
test_elem none m = panics
test_elem (some e) m = returns (ltb 0 (bit_and e m))

-- A negative index passes the guard. Go divides towards 0, so from -7 to -1 it reads the first
-- element under an empty mask, and below that the index of the slice is negative.
unfoldable pub get_index : Option BitVector → ℤ → Call Bool
get_index none i = returns false
get_index (some bv) (pos i) =
    if leb bv.bits i then returns false else test_elem (get_elem? bv.elems (i / 8)) (mask i)
get_index (some bv) (negsuc n) = if ltb n 7 then test_elem (get_elem? bv.elems 0) 0 else panics

-- `e |= m` and `e &= ^m` on a byte
abbrev write_elem : ℕ → ℕ → Bool → ℕ
write_elem e m true = bit_or e m
write_elem e m false = bit_and e (255 - m)

abbrev set_elem : BitVector → ℕ → ℕ → Bool → Call (Option BitVector × Bool)
set_elem bv k m v = elim (get_elem? bv.elems k) [
  | none ↦ panics
  | some e ↦ returns (some (record bv { elems = set bv.elems k (write_elem e m v) }), true)
]

-- Returns the vector after the call beside the result.
unfoldable pub set_index : Option BitVector → ℤ → Bool → Call (Option BitVector × Bool)
set_index none i v = returns (none, false)
set_index (some bv) (pos i) v =
    if leb bv.bits i then returns (some bv, false) else set_elem bv (i / 8) (mask i) v
set_index (some bv) (negsuc n) v = if ltb n 7 then set_elem bv 0 0 v else panics

-- The loop of `CountNoneZero` over the `n` indices from `i`.
unfoldable pub count_from : Option BitVector → ℕ → ℕ → Call ℕ
count_from bv i zero = returns 0
count_from bv i (suc n) = do
  b ← get_index bv (pos i)
  rest ← count_from bv (i + 1) n
  returns (if b then suc rest else rest)

unfoldable pub count_none_zero : Option BitVector → Call ℕ
unfolding count_from size
count_none_zero bv = count_from bv 0 (size bv)

-- `int8(8*len(Elems) - Bits)`, as the byte written; the multiple of 256 keeps `-` from stopping.
unfoldable pub byte_bits : BitVector → ℕ
byte_bits bv = (8 * length bv.elems + 256 * bv.bits - bv.bits) % 256

-- A nil vector writes `NewBitVector(0)`.
unfoldable pub byte : Option BitVector → Bytes
unfolding byte_bits
byte none = 0 ∷ []
byte (some bv) = byte_bits bv ∷ bv.elems

-- `length*8 - int(uselessBits)`, the first byte read as an int8
unfoldable pub all_bits : ℕ → ℕ → ℤ
all_bits u len =
    if ltb u 128
    then (if leb u (8 * len) then pos (8 * len - u) else negsuc (u - 8 * len - 1))
    else pos (8 * len + (256 - u))

-- The loop `bv.Elems[i] = temp`.
unfoldable pub fill_elems : List ℕ → List ℕ → Call (List ℕ)
fill_elems [] es = returns es
fill_elems (b ∷ bs) [] = panics
fill_elems (b ∷ bs) (e ∷ es) = do rest ← fill_elems bs es; returns (b ∷ rest)

abbrev fill : Option BitVector → List ℕ → Call (Option BitVector)
fill none [] = returns none
fill none (_ ∷ _) = panics
fill (some bv) bs = do es ← fill_elems bs bv.elems; returns (some (record bv { elems = es }))

unfoldable pub new_bit_array_from_byte : Bytes → Call (Option BitVector)
unfolding new_bit_vector fill_elems all_bits
new_bit_array_from_byte [] = returns (new_bit_vector (pos 0))
new_bit_array_from_byte (u ∷ bs) = fill (new_bit_vector (all_bits u (length bs))) bs

-- `copy(c, src)` into the zeros `c`
unfoldable pub copy_into : List ℕ → List ℕ → List ℕ
copy_into [] es = []
copy_into (c ∷ cs) [] = c ∷ cs
copy_into (c ∷ cs) (e ∷ es) = e ∷ copy_into cs es

-- The elements of a new vector are a new slice, so a copy has the same value.
abbrev pub copied : BitVector → BitVector
copied bv = record { bits = bv.bits; elems = copy_into (replicate (length bv.elems) 0) bv.elems }

-- A nil vector is copied to an empty one.
unfoldable pub copy : Option BitVector → Option BitVector
unfolding new_bit_vector copy_into
copy none = new_bit_vector (pos 0)
copy (some bv) = some (copied bv)

unfoldable pub copy_bits : BitVector → ℕ → BitVector
unfolding copy_into
copy_bits bv bits = record {
  bits = bits;
  elems = copy_into (replicate ((bits + 7) / 8) 0) bv.elems;
}

-- The loop that joins the first `n` elements of `c` with those of `o`.
unfoldable pub join_elems : (ℕ → ℕ → ℕ) → ℕ → List ℕ → List ℕ → Call (List ℕ)
join_elems f zero cs os = returns cs
join_elems f (suc n) [] os = panics
join_elems f (suc n) (c ∷ cs) [] = panics
join_elems f (suc n) (c ∷ cs) (o ∷ os) = do rest ← join_elems f n cs os; returns (f c o ∷ rest)

abbrev pub join_with : (ℕ → ℕ → ℕ) → ℕ → BitVector → BitVector → Call (Option BitVector)
join_with f n c o = do es ← join_elems f n c.elems o.elems; returns (some (record c { elems = es }))

-- `&^` on a byte
abbrev pub bit_clear : ℕ → ℕ → ℕ
bit_clear a b = bit_and a (255 - b)

unfoldable pub or_vector : Option BitVector → Option BitVector → Call (Option BitVector)
unfolding copy copy_bits join_elems
or_vector none none = returns none
or_vector none (some o) = returns (copy (some o))
or_vector (some a) none = returns (copy (some a))
or_vector (some a) (some o) =
    join_with bit_or (min (length a.elems) (length o.elems)) (copy_bits a (max a.bits o.bits)) o

unfoldable pub and_vector : Option BitVector → Option BitVector → Call (Option BitVector)
unfolding copy_bits join_elems
and_vector none o = returns none
and_vector (some a) none = returns none
and_vector (some a) (some o) =
    let c = copy_bits a (min a.bits o.bits) in join_with bit_and (length c.elems) c o

unfoldable pub not_vector : Option BitVector → Option BitVector
unfolding copy_into
not_vector none = none
not_vector (some a) = let c = copied a in some (record c { elems = map (λ e. 255 - e) c.elems })

unfoldable pub sub_vector : Option BitVector → Option BitVector → Call (Option BitVector)
unfolding copy_bits join_elems
sub_vector none o = returns none
sub_vector (some a) none = returns none
sub_vector (some a) (some o) =
    join_with bit_clear (min (length a.elems) (length o.elems)) (copy_bits a a.bits) o

abbrev pub AllBytes : List ℕ → Type 0
AllBytes [] = Unit
AllBytes (e ∷ es) = (e < 256) × AllBytes es

-- What the constructor makes and every operation keeps: just enough bytes.
pub record IsValid (bv : BitVector) : Type 0 where
  pub sized : length bv.elems ≡ (bv.bits + 7) / 8
  pub bytes : AllBytes bv.elems
