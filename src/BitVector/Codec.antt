-- ===== src/BitVector/Codec.antt =====
-- source/utils/bit-vector.go: the wire form, `Byte` and `NewBitArrayFromByte`.
use urd_code.Prelude.{
  ℕ, zero, ◌+◌, ◌-◌, ◌*◌, ◌/◌, ◌≤◌, ◌<◌, ◌≡◌, refl, sym, ◌∙◌, inl, inr, ◌≢◌, ◌⊎◌, ◌&&◌, ◌↔◌, Option,
  none, some, List, [], ◌∷◌, arith, length, replicate, length-replicate, Bool-cases, leb, ltb,
}
use urd_code.Prelude.Int.{pos, negsuc}
use urd_code.Prelude.Calls.{returns, panics}
use urd_code.BitVector.{
  BitVector, IsValid, byte, byte_bits, fill_elems, all_bits, fill, new_bit_vector,
  new_bit_array_from_byte,
}

fill_elems-same : (bs es : List ℕ) → length bs ≡ length es → fill_elems bs es ≡ returns bs
unfolding fill_elems
fill_elems-same [] [] h = refl
fill_elems-same [] (e ∷ es) h = absurd (omega arith)
fill_elems-same (b ∷ bs) [] h = absurd (omega arith)
fill_elems-same (b ∷ bs) (e ∷ es) h = rw (fill_elems-same bs es (omega arith))

fill_elems-long : (bs es : List ℕ) → length es < length bs → fill_elems bs es ≡ panics
unfolding fill_elems
fill_elems-long [] es h = absurd (omega arith)
fill_elems-long (b ∷ bs) [] h = refl
fill_elems-long (b ∷ bs) (e ∷ es) h = rw (fill_elems-long bs es (omega arith))

fill_elems-short :
    (bs es : List ℕ)
    → length bs ≤ length es
    → (r : List ℕ) × (fill_elems bs es ≡ returns r) × (length r ≡ length es)
unfolding fill_elems
fill_elems-short [] es h = (es, refl, refl)
fill_elems-short (b ∷ bs) [] h = absurd (omega arith)
fill_elems-short (b ∷ bs) (e ∷ es) h =
    let (r, p, q) = fill_elems-short bs es (omega arith) in (b ∷ r, rw p, omega arith)

all_bits-byte_bits :
    (bv : BitVector) → IsValid bv → all_bits (byte_bits bv) (length bv.elems) ≡ pos bv.bits
unfolding all_bits byte_bits
all_bits-byte_bits bv v = ground (arith, v.sized)

-- What `Byte` writes of a valid vector, `NewBitArrayFromByte` reads as that vector.
pub new_bit_array_from_byte-byte :
    (bv : BitVector) → IsValid bv → new_bit_array_from_byte (byte (some bv)) ≡ returns (some bv)
unfolding new_bit_array_from_byte byte new_bit_vector
new_bit_array_from_byte-byte bv v = rw (all_bits-byte_bits bv v) (
    rw
      (fill_elems-same bv.elems (replicate ((bv.bits + 7) / 8) 0)
        (v.sized ∙ sym (length-replicate ((bv.bits + 7) / 8) 0)))
      refl)

-- The first byte is at most 127 and above 7, and bytes follow.
abbrev pub IsHostile : ℕ → List ℕ → Type 0
IsHostile u bs = (7 < u) × (u < 128) × (0 < length bs)

module _ (u : ℕ) (b : ℕ) (bs : List ℕ) where
  all_bits-hostile :
      7 < u
      → u < 128
      → let n = all_bits u (length (b ∷ bs)) in
        ((k : ℕ) × (n ≡ pos k) × ((k + 7) / 8 < length (b ∷ bs))) ⊎ ((k : ℕ) × (n ≡ negsuc k))
  unfolding all_bits
  all_bits-hostile lo hi = elim (Bool-cases (leb u (8 * length (b ∷ bs)))) [
    | inl e ↦ inl (8 * length (b ∷ bs) - u, ground arith, ground arith)
    | inr e ↦ inr (u - 8 * length (b ∷ bs) - 1, ground arith)
  ]

  hostile_panics : 7 < u → u < 128 → new_bit_array_from_byte (u ∷ b ∷ bs) ≡ panics
  unfolding new_bit_array_from_byte new_bit_vector
  hostile_panics lo hi = elim (all_bits-hostile lo hi) [
    | inl (k, e, short) ↦ rw e (
        rw
          (fill_elems-long (b ∷ bs) (replicate ((k + 7) / 8) 0)
            (omega (arith, length-replicate ((k + 7) / 8) zero)))
          refl)
    | inr (k, e) ↦ rw e
  ]

  all_bits-benign :
      (u ≤ 7) ⊎ (128 ≤ u)
      → u < 256
      → (k : ℕ) × (all_bits u (length (b ∷ bs)) ≡ pos k) × (length (b ∷ bs) ≤ (k + 7) / 8)
  unfolding all_bits
  all_bits-benign (inl h) lt = (8 * length (b ∷ bs) - u, ground arith, omega arith)
  all_bits-benign (inr h) lt = (8 * length (b ∷ bs) + (256 - u), ground arith, omega arith)

  benign_returns : (u ≤ 7) ⊎ (128 ≤ u) → u < 256 → new_bit_array_from_byte (u ∷ b ∷ bs) ≢ panics
  unfolding new_bit_array_from_byte new_bit_vector
  benign_returns h lt =
      let (k, e, enough) = all_bits-benign h lt in
      let (r, p, q) =
        fill_elems-short (b ∷ bs) (replicate ((k + 7) / 8) 0)
          (omega (arith, length-replicate ((k + 7) / 8) zero)) in
      rw e (rw p (λ bad. cc bad))

fill-nil : (o : Option BitVector) → fill o [] ≢ panics
unfolding fill_elems
fill-nil none bad = cc
fill-nil (some bv) bad = cc

hostile_or_benign : (u : ℕ) → ((7 < u) × (u < 128)) ⊎ ((u ≤ 7) ⊎ (128 ≤ u))
hostile_or_benign u = elim (Bool-cases (ltb 7 u && ltb u 128)) [
  | inl e ↦ inl (ground arith, ground arith)
  | inr e ↦
      inr
        (elim (Bool-cases (ltb 7 u)) [ inl lo ↦ inr (ground arith) | inr lo ↦ inl (ground arith) ])
]

-- The reader panics on the bytes of a peer exactly when the first is from 8 to 127 and another
-- byte follows.
pub new_bit_array_from_byte-panics :
    (u : ℕ) (bs : List ℕ)
    → u < 256
    → (new_bit_array_from_byte (u ∷ bs) ≡ panics) ↔ ((7 < u) × (u < 128) × (0 < length bs))
unfolding new_bit_array_from_byte
new_bit_array_from_byte-panics u [] lt =
    (λ bad. absurd (fill-nil (new_bit_vector (all_bits u 0)) bad), λ h. absurd (omega arith))
new_bit_array_from_byte-panics u (b ∷ bs) lt = (
  λ bad. elim (hostile_or_benign u) [
    | inl h ↦ (h.0, h.1, omega arith)
    | inr benign ↦ absurd (benign_returns u b bs benign lt bad)
  ],
  λ h. hostile_panics u b bs h.0 h.1,
)
