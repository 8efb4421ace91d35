-- ===== src/BitVector/Index.antt =====
-- source/utils/bit-vector.go: reads and writes of single bits of a valid vector.
use Prim.Native.Nat.{bit_and, bit_and-bitwise}
use urd_code.Prelude.{
  ℕ, zero, suc, ◌+◌, ◌/◌, ◌%◌, ◌<◌, ◌≡◌, refl, ap, ◌∙◌, ◌≢◌, inl, inr, Bool, true, false, some,
  List, [], ◌∷◌, arith, if◌then◌else◌, ltb, ◌==◌, length, get_elem?, get_or, set, replicate,
  length-set, length-replicate, Bool-cases,
}
use urd_code.Prelude.Int.{pos}
use urd_code.Prelude.Calls.{returns}
use urd_code.BitVector.{
  BitVector, IsValid, AllBytes, bit, mask, write_elem, new_bit_vector, get_index, set_index,
}
use urd_code.BitVector.Words.{tested-bit_or, tested-bit_and, bit_or-lt, bit_and-lt}

get_elem?-get_or : (xs : List ℕ) (i : ℕ) → i < length xs → get_elem? xs i ≡ some (get_or xs i 0)
get_elem?-get_or [] i h = absurd (omega arith)
get_elem?-get_or (x ∷ xs) zero h = refl
get_elem?-get_or (x ∷ xs) (suc i) h = get_elem?-get_or xs i (omega arith)

get_or-set_self : (xs : List ℕ) (i v : ℕ) → i < length xs → get_or (set xs i v) i 0 ≡ v
get_or-set_self [] i v h = absurd (omega arith)
get_or-set_self (x ∷ xs) zero v h = refl
get_or-set_self (x ∷ xs) (suc i) v h = get_or-set_self xs i v (omega arith)

get_or-set_ne : (xs : List ℕ) (i j v : ℕ) → i ≢ j → get_or (set xs i v) j 0 ≡ get_or xs j 0
get_or-set_ne [] i j v h = refl
get_or-set_ne (x ∷ xs) zero zero v h = absurd (h refl)
get_or-set_ne (x ∷ xs) zero (suc j) v h = refl
get_or-set_ne (x ∷ xs) (suc i) zero v h = refl
get_or-set_ne (x ∷ xs) (suc i) (suc j) v h = get_or-set_ne xs i j v (λ e. h (ap suc e))

pub AllBytes-get_or : (xs : List ℕ) (i : ℕ) → AllBytes xs → get_or xs i 0 < 256
AllBytes-get_or [] i h = omega arith
AllBytes-get_or (x ∷ xs) zero h = h.0
AllBytes-get_or (x ∷ xs) (suc i) h = AllBytes-get_or xs i h.1

AllBytes-set : (xs : List ℕ) (i v : ℕ) → AllBytes xs → v < 256 → AllBytes (set xs i v)
AllBytes-set [] i v h p = tt
AllBytes-set (x ∷ xs) zero v h p = (p, h.1)
AllBytes-set (x ∷ xs) (suc i) v h p = (h.0, AllBytes-set xs i v h.1 p)

pub AllBytes-replicate : (n : ℕ) → AllBytes (replicate n 0)
AllBytes-replicate zero = tt
AllBytes-replicate (suc n) = (omega arith, AllBytes-replicate n)

pub new_bit_vector-IsValid :
    (n : ℕ) → (bv : BitVector) × (new_bit_vector (pos n) ≡ some bv) × (bv.bits ≡ n) × IsValid bv
unfolding new_bit_vector
new_bit_vector-IsValid n = (
  record { bits = n; elems = replicate ((n + 7) / 8) 0 },
  refl,
  refl,
  record { sized = length-replicate ((n + 7) / 8) 0; bytes = AllBytes-replicate ((n + 7) / 8) },
)

-- The vector that a write leaves.
pub written : BitVector → ℕ → Bool → BitVector
written bv i v = record bv {
  elems = set bv.elems (i / 8) (write_elem (get_or bv.elems (i / 8) 0) (mask i) v);
}

pub bits-written : (bv : BitVector) (i : ℕ) (v : Bool) → (written bv i v).bits ≡ bv.bits
unfolding written
bits-written bv i v = refl

module _ (bv : BitVector) (i : ℕ) (valid : IsValid bv) (below : i < bv.bits) where
  in_elems : i / 8 < length bv.elems
  in_elems = omega (arith, valid.sized)

  -- Below the size a read is the bit, and does not panic.
  pub get_index-eq-bit : get_index (some bv) (pos i) ≡ returns (bit bv i)
  unfolding get_index bit
  get_index-eq-bit = ground (arith, get_elem?-get_or bv.elems (i / 8) in_elems)

  pub set_index-eq-written :
      (v : Bool) → set_index (some bv) (pos i) v ≡ returns (some (written bv i v), true)
  unfolding set_index written
  set_index-eq-written v = ground (arith, get_elem?-get_or bv.elems (i / 8) in_elems)

  elem-lt : get_or bv.elems (i / 8) 0 < 256
  elem-lt = AllBytes-get_or bv.elems (i / 8) valid.bytes

  write_elem-lt : (v : Bool) → write_elem (get_or bv.elems (i / 8) 0) (mask i) v < 256
  write_elem-lt true = bit_or-lt (get_or bv.elems (i / 8) 0) (i % 8) elem-lt (omega arith)
  write_elem-lt false = bit_and-lt (get_or bv.elems (i / 8) 0) (i % 8) elem-lt (omega arith)

  pub written-IsValid : (v : Bool) → IsValid (written bv i v)
  unfolding written
  written-IsValid v = record {
    sized =
        length-set bv.elems (i / 8) (write_elem (get_or bv.elems (i / 8) 0) (mask i) v)
        ∙ valid.sized;
    bytes =
        AllBytes-set bv.elems (i / 8) (write_elem (get_or bv.elems (i / 8) 0) (mask i) v)
          valid.bytes (write_elem-lt v);
  }

  -- Within the element that is written, only the bit at the index changes.
  tested-write_elem :
      (v : Bool) (j : ℕ)
      → ltb 0 (bit_and (write_elem (get_or bv.elems (i / 8) 0) (mask i) v) (mask j))
        ≡ (if i % 8 == j % 8 then v else ltb 0 (bit_and (get_or bv.elems (i / 8) 0) (mask j)))
  tested-write_elem true j = ground (
    arith,
    tested-bit_or (get_or bv.elems (i / 8) 0) (i % 8) elem-lt (omega arith) (j % 8) (omega arith),
  )
  tested-write_elem false j = ground (
    arith,
    tested-bit_and (get_or bv.elems (i / 8) 0) (i % 8) elem-lt (omega arith) (j % 8) (omega arith),
  )

  same_elem : (j : ℕ) → i / 8 ≡ j / 8 → (i % 8 == j % 8) ≡ (i == j)
  same_elem j e = ground arith

  -- After a write at `i` the bit at `i` has the value written, and every other bit is as it was.
  pub bit-written : (v : Bool) (j : ℕ) → bit (written bv i v) j ≡ (if i == j then v else bit bv j)
  unfolding bit written
  bit-written v j = elim (Bool-cases (i / 8 == j / 8)) [
    | inl e ↦
        let e' : i / 8 ≡ j / 8 = ground arith in
        rw (← e') (
          rw
            (get_or-set_self bv.elems (i / 8) (write_elem (get_or bv.elems (i / 8) 0) (mask i) v)
              in_elems)
            (rw (tested-write_elem v j) (rw (same_elem j e'))))
    | inr n ↦
        let n' : i / 8 ≢ j / 8 = ground arith in
        rw
          (get_or-set_ne bv.elems (i / 8) (j / 8)
            (write_elem (get_or bv.elems (i / 8) 0) (mask i) v) n')
          (ground arith)
  ]

-- A fresh vector has no bit set.
pub get_or-replicate : (n i : ℕ) → get_or (replicate n 0) i 0 ≡ zero
get_or-replicate zero i = refl
get_or-replicate (suc n) zero = refl
get_or-replicate (suc n) (suc i) = get_or-replicate n i

pub zero-bit_and : (m : ℕ) → ltb 0 (bit_and 0 m) ≡ false
zero-bit_and m = rw (bit_and-bitwise 0 m) refl

pub bit-new_bit_vector :
    (n i : ℕ) (bv : BitVector) → new_bit_vector (pos n) ≡ some bv → bit bv i ≡ false
unfolding new_bit_vector bit
bit-new_bit_vector n i bv e =
    ground (arith, get_or-replicate ((n + 7) / 8) (i / 8), zero-bit_and (mask i))

-- `SetIndex` below the size succeeds without a panic and leaves a valid vector of the same size, in
-- which `GetIndex` reads the value written at that index, and at every other index what it read
-- before.
pub set_get :
    (bv : BitVector) (i j : ℕ) (v : Bool)
    → IsValid bv
    → i < bv.bits
    → j < bv.bits
    → (bv' : BitVector) × (set_index (some bv) (pos i) v ≡ returns (some bv', true))
      × IsValid bv'
      × (bv'.bits ≡ bv.bits)
      × (get_index (some bv') (pos j) ≡ (if i == j then returns v else get_index (some bv) (pos j)))
set_get bv i j v valid below below' = (
  written bv i v,
  set_index-eq-written bv i valid below v,
  written-IsValid bv i valid below v,
  bits-written bv i v,
  ground (
    arith,
    get_index-eq-bit (written bv i v) j (written-IsValid bv i valid below v)
        (omega (arith, bits-written bv i v)),
    get_index-eq-bit bv j valid below',
    bit-written bv i valid below v j,
  ),
)
