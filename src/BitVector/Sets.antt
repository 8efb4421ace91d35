-- ===== src/BitVector/Sets.antt =====
-- source/utils/bit-vector.go: the set operations on valid vectors, bit by bit.
use Prim.Native.Nat.{min, max, bit_and, bit_or}
use urd_code.Prelude.{
  ℕ, zero, suc, ◌+◌, ◌-◌, ◌/◌, ◌%◌, ◌^◌, ◌≤◌, ◌<◌, ◌≡◌, refl, ap, ◌∙◌, Bool, false, not, ◌&&◌, ◌||◌,
  Option, some, List, [], ◌∷◌, map, arith, if◌then◌else◌, ltb, length, get_or, replicate,
  length-replicate, length-map,
}
use urd_code.Prelude.Calls.{Call, returns}
use urd_code.BitVector.{
  BitVector, IsValid, AllBytes, bit, copy_into, copy_bits, join_elems, join_with, bit_clear,
  or_vector, and_vector, not_vector, sub_vector,
}
use urd_code.BitVector.Digits.{tested-or, tested-and, tested-not, bit_and-lt_power, bit_or-lt_power}
use urd_code.BitVector.Index.{AllBytes-get_or, AllBytes-replicate, get_or-replicate, zero-bit_and}

length-copy_into : (n : ℕ) (es : List ℕ) → length (copy_into (replicate n 0) es) ≡ n
unfolding copy_into
length-copy_into zero es = refl
length-copy_into (suc n) [] = ap suc (length-replicate n 0)
length-copy_into (suc n) (e ∷ es) = ap suc (length-copy_into n es)

get_or-copy_into :
    (n : ℕ) (es : List ℕ) (i : ℕ)
    → i < n
    → get_or (copy_into (replicate n 0) es) i 0 ≡ get_or es i 0
unfolding copy_into
get_or-copy_into zero es i h = absurd (omega arith)
get_or-copy_into (suc n) [] zero h = refl
get_or-copy_into (suc n) [] (suc i) h = get_or-replicate n i
get_or-copy_into (suc n) (e ∷ es) zero h = refl
get_or-copy_into (suc n) (e ∷ es) (suc i) h = get_or-copy_into n es i (omega arith)

AllBytes-copy_into : (n : ℕ) (es : List ℕ) → AllBytes es → AllBytes (copy_into (replicate n 0) es)
unfolding copy_into
AllBytes-copy_into zero es h = tt
AllBytes-copy_into (suc n) [] h = (omega arith, AllBytes-replicate n)
AllBytes-copy_into (suc n) (e ∷ es) h = (h.0, AllBytes-copy_into n es h.1)

-- A vector of a result: its size, and the bit at each index below that.
abbrev pub Holds : Call (Option BitVector) → ℕ → (ℕ → Bool) → Type 0
Holds r bits at =
    (c : BitVector) × (r ≡ returns (some c))
    × (c.bits ≡ bits)
    × IsValid c
    × ((j : ℕ) → j < bits → bit c j ≡ at j)

-- Past the elements no bit is set.
get_or-beyond : (es : List ℕ) (i : ℕ) → length es ≤ i → get_or es i 0 ≡ 0
get_or-beyond [] i h = refl
get_or-beyond (e ∷ es) zero h = absurd (omega arith)
get_or-beyond (e ∷ es) (suc i) h = get_or-beyond es i (omega arith)

bit-beyond : (a : BitVector) (j : ℕ) → length a.elems ≤ j / 8 → bit a j ≡ false
unfolding bit
bit-beyond a j h = rw (get_or-beyond a.elems (j / 8) h) (zero-bit_and (2 ^ (j % 8)))

-- The loop does not panic, and joins the elements below the bound.
module _ (f : ℕ → ℕ → ℕ) (closed : (a b : ℕ) → a < 256 → b < 256 → f a b < 256) where
  abbrev JoinedAt : ℕ → List ℕ → List ℕ → List ℕ → ℕ → Type 0
  JoinedAt n cs os es i =
      get_or es i 0 ≡ (if ltb i n then f (get_or cs i 0) (get_or os i 0) else get_or cs i 0)

  joined_step :
      (n c o : ℕ) (cs os es : List ℕ)
      → ((i : ℕ) → JoinedAt n cs os es i)
      → (i : ℕ) → JoinedAt (suc n) (c ∷ cs) (o ∷ os) (f c o ∷ es) i
  joined_step n c o cs os es at zero = ground arith
  joined_step n c o cs os es at (suc i) = ground (arith, at i)

  join_elems-joins :
      (n : ℕ) (cs os : List ℕ)
      → n ≤ length cs
      → n ≤ length os
      → AllBytes cs
      → AllBytes os
      → (es : List ℕ) × (join_elems f n cs os ≡ returns es)
        × (length es ≡ length cs)
        × AllBytes es
        × ((i : ℕ) → JoinedAt n cs os es i)
  unfolding join_elems
  join_elems-joins zero cs os p q hc ho = (cs, refl, refl, hc, λ i. ground arith)
  join_elems-joins (suc n) [] os p q hc ho = absurd (omega arith)
  join_elems-joins (suc n) (c ∷ cs) [] p q hc ho = absurd (omega arith)
  join_elems-joins (suc n) (c ∷ cs) (o ∷ os) p q hc ho =
      let (es, r, l, h, at) = join_elems-joins n cs os (omega arith) (omega arith) hc.1 ho.1 in
      (f c o ∷ es, rw r refl, ap suc l, (closed c o hc.0 ho.0, h), joined_step n c o cs os es at)

  module _ (g : Bool → Bool → Bool)
      (digitwise : (k a b : ℕ)
        → k < 8
        → a < 256
        → b < 256
        → ltb 0 (bit_and (f a b) (2 ^ k))
          ≡ g (ltb 0 (bit_and a (2 ^ k))) (ltb 0 (bit_and b (2 ^ k)))) where
    join_with-Holds :
        (a o : BitVector) (n bits : ℕ)
        → IsValid a
        → IsValid o
        → n ≤ (bits + 7) / 8
        → n ≤ length o.elems
        → Holds
            (join_with f n (copy_bits a bits) o)
            bits
            (λ j. if ltb (j / 8) n then g (bit a j) (bit o j) else bit a j)
    unfolding copy_bits bit
    join_with-Holds a o n bits va vo p q =
        let zs = copy_into (replicate ((bits + 7) / 8) 0) a.elems in
        let sized = length-copy_into ((bits + 7) / 8) a.elems in
        let (es, r, l, h, at) =
          join_elems-joins n zs o.elems (omega (arith, sized)) q
            (AllBytes-copy_into ((bits + 7) / 8) a.elems va.bytes) vo.bytes in
        (
          record { bits = bits; elems = es },
          rw r refl,
          refl,
          record { sized = l ∙ sized; bytes = h },
          λ j below. ground (
            arith,
            at (j / 8),
            get_or-copy_into ((bits + 7) / 8) a.elems (j / 8) (omega arith),
            digitwise (j % 8) (get_or a.elems (j / 8) 0) (get_or o.elems (j / 8) 0) (omega arith)
                (AllBytes-get_or a.elems (j / 8) va.bytes)
                (AllBytes-get_or o.elems (j / 8) vo.bytes),
          ),
        )

-- On a Holds, the bits may be described another way.
Holds-same :
    (r : Call (Option BitVector)) (bits : ℕ) (at at' : ℕ → Bool)
    → Holds r bits at
    → ((j : ℕ) → j < bits → at j ≡ at' j)
    → Holds r bits at'
Holds-same r bits at at' (c, e, l, valid, h) same =
    (c, e, l, valid, λ j below. h j below ∙ same j below)

AllBytes-inverted : (es : List ℕ) → AllBytes (map (λ e. 255 - e) es)
AllBytes-inverted [] = tt
AllBytes-inverted (e ∷ es) = (omega arith, AllBytes-inverted es)

get_or-inverted :
    (es : List ℕ) (i : ℕ) → i < length es → get_or (map (λ e. 255 - e) es) i 0 ≡ 255 - get_or es i 0
get_or-inverted [] i h = absurd (omega arith)
get_or-inverted (e ∷ es) zero h = refl
get_or-inverted (e ∷ es) (suc i) h = get_or-inverted es i (omega arith)

not_vector-Holds :
    (a : BitVector) → IsValid a → Holds (returns (not_vector (some a))) a.bits (λ j. not (bit a j))
unfolding not_vector bit
not_vector-Holds a va =
    let n = length a.elems in
    let zs = copy_into (replicate n 0) a.elems in
    let sized = length-copy_into n a.elems in
    (
      record { bits = a.bits; elems = map (λ e. 255 - e) zs },
      refl,
      refl,
      record {
        sized = length-map zs (λ e. 255 - e) ∙ sized ∙ va.sized;
        bytes = AllBytes-inverted zs;
      },
      λ j below. ground (
        arith,
        va.sized,
        get_or-inverted zs (j / 8) (omega (arith, sized, va.sized)),
        get_or-copy_into n a.elems (j / 8) (omega (arith, va.sized)),
        tested-not (j % 8) (get_or a.elems (j / 8) 0) (omega arith)
            (AllBytes-get_or a.elems (j / 8) va.bytes),
      ),
    )

module _ (a o : BitVector) (va : IsValid a) (vo : IsValid o) where
  or_vector-Holds :
      Holds
        (or_vector (some a) (some o))
        (max a.bits o.bits)
        (λ j. bit a j || (ltb (j / 8) (length a.elems) && bit o j))
  unfolding or_vector
  or_vector-Holds =
      Holds-same _ _ _ _
        (join_with-Holds bit_or (bit_or-lt_power 8) (λ p q. p || q) (λ k x y _ _ _. tested-or k x y)
          a o (min (length a.elems) (length o.elems)) (max a.bits o.bits) va vo
          (omega (arith, va.sized)) (omega arith))
        (λ j below. ground (arith, bit-beyond a j, bit-beyond o j))

  and_vector-Holds :
      Holds (and_vector (some a) (some o)) (min a.bits o.bits) (λ j. bit a j && bit o j)
  unfolding and_vector copy_bits
  and_vector-Holds =
      Holds-same _ _ _ _
        (join_with-Holds bit_and (bit_and-lt_power 8) (λ p q. p && q)
          (λ k x y _ _ _. tested-and k x y) a o (length (copy_bits a (min a.bits o.bits)).elems)
          (min a.bits o.bits) va vo
          (omega (arith, length-copy_into ((min a.bits o.bits + 7) / 8) a.elems))
          (omega (arith, vo.sized, length-copy_into ((min a.bits o.bits + 7) / 8) a.elems)))
        (λ j below. ground (arith, length-copy_into ((min a.bits o.bits + 7) / 8) a.elems))

  sub_vector-Holds : Holds (sub_vector (some a) (some o)) a.bits (λ j. bit a j && not (bit o j))
  unfolding sub_vector
  sub_vector-Holds =
      Holds-same _ _ _ _
        (join_with-Holds bit_clear (λ x y p q. bit_and-lt_power 8 x (255 - y) p (omega arith))
          (λ p q. p && not q)
          (λ k x y hk hx hy. ground (arith, tested-and k x (255 - y), tested-not k y hk hy)) a o
          (min (length a.elems) (length o.elems)) a.bits va vo (omega (arith, va.sized))
          (omega arith))
        (λ j below. ground (arith, va.sized, bit-beyond o j))

  -- The set operations on valid vectors do not panic and leave valid vectors. `And` has the smaller
  -- size and the bits of both, `Sub` the size of its receiver and the bits that the argument has not,
  -- `Not` the bits that are not set; `Or` has the larger size, and of its argument only the bits in
  -- the bytes that its receiver has.
  pub set_operations :
      Holds
        (or_vector (some a) (some o))
        (max a.bits o.bits)
        (λ j. bit a j || (ltb (j / 8) (length a.elems) && bit o j))
      × Holds (and_vector (some a) (some o)) (min a.bits o.bits) (λ j. bit a j && bit o j)
      × Holds (sub_vector (some a) (some o)) a.bits (λ j. bit a j && not (bit o j))
      × Holds (returns (not_vector (some a))) a.bits (λ j. not (bit a j))
  set_operations = (or_vector-Holds, and_vector-Holds, sub_vector-Holds, not_vector-Holds a va)
