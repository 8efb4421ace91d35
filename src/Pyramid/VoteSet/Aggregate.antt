-- ===== src/Pyramid/VoteSet/Aggregate.antt =====
-- source/pyramid/consensus/constypes/vote_set.go: the aggregated signature of a majority.
use urd_code.Prelude.{
  ℕ, zero, suc, ◌+◌, ◌<◌, ◌≡◌, refl, ap, ◌∙◌, sym, inl, inr, Bool, true, false, Option, none, some,
  List, [], ◌∷◌, ◌++◌, arith, if◌then◌else◌, ltb, ◌==◌, get_elem?, length, drop, Bool-cases,
}
use urd_code.Prelude.Int.{pos}
use urd_code.Prelude.Bytes.{Bytes, bytes_eq_iff}
use urd_code.Prelude.Calls.{Call, returns, ◌>>=◌}
use mathlib.Core.Path.{subst}
use mathlib.Core.List.{append_assoc, append-nil}
use urd_code.BitVector.{BitVector, bit, byte, get_index}
use urd_code.BitVector
use urd_code.BitVector.Index.{
  new_bit_vector-IsValid, bit-new_bit_vector, get_index-eq-bit, set_index-eq-written, written,
  written-IsValid, bit-written, bits-written,
}
use urd_code.Pyramid.VoteSet.{Vote, VoteSet, in_majority, visit, collect_from, get_maj23_aggre_sig}
use urd_code.Pyramid.VoteSet.Tally.{is_for}
use urd_code.Pyramid.VoteSet.Invariant.{IsValid, is_some}

-- Whether the slot of a validator holds a vote for the majority's block with its code.
abbrev pub is_marked : VoteSet → Option (Option Vote) → Bool
is_marked vs (some (some v)) = is_for vs.mj23_key vs.mj23_code v
is_marked vs (some none) = false
is_marked vs none = false

-- The signatures of the majority's votes, in the order of the validators.
unfoldable pub majority_signatures : VoteSet → List (Option Vote) → List Bytes
majority_signatures vs [] = []
majority_signatures vs (none ∷ slots) = majority_signatures vs slots
majority_signatures vs (some v ∷ slots) =
    if is_for vs.mj23_key vs.mj23_code v
    then v.signature ∷ majority_signatures vs slots
    else majority_signatures vs slots

in_majority-eq : (vs : VoteSet) (v : Vote) → in_majority vs v ≡ is_for vs.mj23_key vs.mj23_code v
in_majority-eq vs v = ground (
  arith,
  bytes_eq_iff vs.mj23_key v.block_header_hash,
  bytes_eq_iff v.block_header_hash vs.mj23_key,
)

-- What the loop has made before index `i`.
record Made (vs : VoteSet) (n i : ℕ) (b : BitVector) : Type 0 where
  valid_so_far : BitVector.IsValid b
  sized : b.bits ≡ n
  marks :
      (j : ℕ) → j < n → bit b j ≡ (if ltb j i then is_marked vs (get_elem? vs.votes j) else false)

drop-slot :
    (slots : List (Option Vote)) (i : ℕ)
    → i < length slots
    → (slot : Option Vote) × (get_elem? slots i ≡ some slot)
      × (drop i slots ≡ slot ∷ drop (suc i) slots)
drop-slot [] i h = absurd (omega arith)
drop-slot (x ∷ slots) zero h = (x, refl, refl)
drop-slot (x ∷ slots) (suc i) h = drop-slot slots i (omega arith)

drop-length : (slots : List (Option Vote)) (i : ℕ) → i ≡ length slots → drop i slots ≡ []
drop-length [] zero h = refl
drop-length [] (suc i) h = refl
drop-length (x ∷ slots) zero h = absurd (omega arith)
drop-length (x ∷ slots) (suc i) h = drop-length slots i (omega arith)

module _ (ws : List ℕ) (vs : VoteSet) (bv : BitVector) (valid : IsValid ws vs bv) where
  -- A round that marks nothing.
  Made-same :
      (i : ℕ) (b : BitVector) (slot : Option Vote)
      → Made vs (length ws) i b
      → get_elem? vs.votes i ≡ some slot
      → is_marked vs (some slot) ≡ false
      → Made vs (length ws) (suc i) b
  Made-same i b slot made e unmarked = record {
    valid_so_far = made.valid_so_far;
    sized = made.sized;
    marks = λ j h. elim (Bool-cases (i == j)) [
      | inl s ↦
          let s' : i ≡ j = ground arith in
          ground (
            arith,
            made.marks j h,
            ap (λ n. is_marked vs (get_elem? vs.votes n)) s',
            ap (is_marked vs) e,
          )
      | inr n ↦ ground (arith, made.marks j h)
    ];
  }

  -- A round that marks its validator.
  Made-marked :
      (i : ℕ) (b : BitVector) (v : Vote)
      → i < length ws
      → Made vs (length ws) i b
      → get_elem? vs.votes i ≡ some (some v)
      → is_for vs.mj23_key vs.mj23_code v ≡ true
      → Made vs (length ws) (suc i) (written b i true)
  Made-marked i b v lt made e marked =
      let below : i < b.bits = omega (arith, made.sized) in
      record {
        valid_so_far = written-IsValid b i made.valid_so_far below true;
        sized = bits-written b i true ∙ made.sized;
        marks = λ j h.
            rw (bit-written b i made.valid_so_far below true j) (elim (Bool-cases (i == j)) [
              | inl s ↦
                  let s' : i ≡ j = ground arith in
                  ground
                    (arith, ap (λ n. is_marked vs (get_elem? vs.votes n)) s', ap (is_marked vs) e)
              | inr n ↦ ground (arith, made.marks j h)
            ]);
      }

  -- One round of the loop.
  step :
      (i : ℕ) (b : BitVector) (sigs : List Bytes) (slot : Option Vote)
      → i < length ws
      → Made vs (length ws) i b
      → get_elem? vs.votes i ≡ some slot
      → (b' : BitVector) × ((if is_some (some slot)
            then visit vs i (sigs, some b)
            else returns (sigs, some b))
          ≡ returns (sigs ++ majority_signatures vs (slot ∷ []), some b'))
        × Made vs (length ws) (suc i) b'
  unfolding majority_signatures
  step i b sigs none lt made e = (b, rw (append-nil sigs), Made-same i b none made e refl)
  step i b sigs (some v) lt made e = elim (Bool-cases (is_for vs.mj23_key vs.mj23_code v)) [
    | inl m ↦ (
      written b i true,
      rw (
        e,
        in_majority-eq vs v ∙ m,
        m,
        set_index-eq-written b i made.valid_so_far (omega (arith, made.sized)) true,
      ),
      Made-marked i b v lt made e m,
    )
    | inr m ↦
        (b, rw (e, in_majority-eq vs v ∙ m, m, append-nil sigs), Made-same i b (some v) made e m)
  ]

  signatures-cons :
      (slot : Option Vote) (slots : List (Option Vote)) (sigs : List Bytes)
      → (sigs ++ majority_signatures vs (slot ∷ [])) ++ majority_signatures vs slots
        ≡ sigs ++ majority_signatures vs (slot ∷ slots)
  unfolding majority_signatures
  signatures-cons none slots sigs = rw (append-nil sigs)
  signatures-cons (some v) slots sigs = elim (Bool-cases (is_for vs.mj23_key vs.mj23_code v)) [
    | inl m ↦ rw m (append_assoc sigs (v.signature ∷ []) (majority_signatures vs slots))
    | inr m ↦ rw (m, append-nil sigs)
  ]

  collect_from-suc :
      (n i : ℕ) (slot : Option Vote) (acc : List Bytes × Option BitVector)
      → i < length ws
      → get_elem? vs.votes i ≡ some slot
      → collect_from vs i (suc n) acc ≡ (
          (if is_some (some slot) then visit vs i acc else returns acc) >>= λ acc'.
          collect_from vs (i + 1) n acc')
  unfolding collect_from
  collect_from-suc n i slot acc lt e =
      ap
        (λ (m : Call Bool). m >>= λ seen.
          (if seen then visit vs i acc else returns acc) >>= λ acc'. collect_from vs (i + 1) n acc')
        (ap (λ p. get_index p (pos i)) valid.vector
          ∙ get_index-eq-bit bv i valid.vector_valid (omega (arith, valid.vector_size))
          ∙ ap returns (valid.seen i lt ∙ ap is_some e))

  collect_from-zero :
      (i : ℕ) (b : BitVector) (sigs : List Bytes)
      → i ≡ length ws
      → collect_from vs i 0 (sigs, some b)
        ≡ returns (sigs ++ majority_signatures vs (drop i vs.votes), some b)
  unfolding collect_from majority_signatures
  collect_from-zero i b sigs e =
      rw (drop-length vs.votes i (omega (arith, valid.slots)), append-nil sigs)

  join :
      (n i : ℕ) (slot : Option Vote) (b b1 b' : BitVector) (sigs : List Bytes)
      → i < length ws
      → get_elem? vs.votes i ≡ some slot
      → drop i vs.votes ≡ slot ∷ drop (suc i) vs.votes
      → (if is_some (some slot) then visit vs i (sigs, some b) else returns (sigs, some b))
        ≡ returns (sigs ++ majority_signatures vs (slot ∷ []), some b1)
      → collect_from vs (i + 1) n (sigs ++ majority_signatures vs (slot ∷ []), some b1)
        ≡ returns (
          (sigs ++ majority_signatures vs (slot ∷ []))
              ++ majority_signatures vs (drop (i + 1) vs.votes),
          some b',
        )
      → collect_from vs i (suc n) (sigs, some b)
        ≡ returns (sigs ++ majority_signatures vs (drop i vs.votes), some b')
  join n i slot b b1 b' sigs lt e rest first others =
      let next : i + 1 ≡ suc i = omega arith in
      collect_from-suc n i slot (sigs, some b) lt e
      ∙ ap (λ m. m >>= λ acc'. collect_from vs (i + 1) n acc') first
      ∙ others
      ∙ ap
          (λ k. returns (
            (sigs ++ majority_signatures vs (slot ∷ []))
                ++ majority_signatures vs (drop k vs.votes),
            some b',
          ))
          next
      ∙ ap (λ l. returns (l, some b')) (signatures-cons slot (drop (suc i) vs.votes) sigs)
      ∙ ap (λ l. returns (sigs ++ majority_signatures vs l, some b')) (sym rest)

  loop :
      (n i : ℕ) (b : BitVector) (sigs : List Bytes)
      → i + n ≡ length ws
      → Made vs (length ws) i b
      → (b' : BitVector) × (collect_from vs i n (sigs, some b)
          ≡ returns (sigs ++ majority_signatures vs (drop i vs.votes), some b'))
        × Made vs (length ws) (length ws) b'
  loop zero i b sigs e made =
      let e' : i ≡ length ws = omega arith in
      (b, collect_from-zero i b sigs e', subst (λ k. Made vs (length ws) k b) e' made)
  loop (suc n) i b sigs e made =
      let lt : i < length ws = omega arith in
      let (slot, at, rest) = drop-slot vs.votes i (omega (arith, valid.slots)) in
      let (b1, made1, ok1) = step i b sigs slot lt made at in
      let next : suc i ≡ i + 1 = omega arith in
      let (b', made', ok') =
        loop n (i + 1) b1 (sigs ++ majority_signatures vs (slot ∷ [])) (omega arith)
          (subst (λ k. Made vs (length ws) k b1) next ok1) in
      (b', join n i slot b b1 b' sigs lt at rest made1 made', ok')

  -- The aggregate of a valid set joins the signatures of the votes for the majority's block and
  -- code, in the order of the validators, and its bit vector names exactly those validators.
  pub get_maj23_aggre_sig-names :
      (aggregate_signatures : List Bytes → Option Bytes) (sig : Bytes)
      → aggregate_signatures (majority_signatures vs vs.votes) ≡ some sig
      → (named : BitVector) × (get_maj23_aggre_sig aggregate_signatures vs
          ≡ returns (sig, byte (some named)))
        × BitVector.IsValid named
        × (named.bits ≡ length ws)
        × ((i : ℕ) → i < length ws → bit named i ≡ is_marked vs (get_elem? vs.votes i))
  unfolding get_maj23_aggre_sig
  get_maj23_aggre_sig-names agg sig joined =
      let (b0, e0, sized, ok0) = new_bit_vector-IsValid (length ws) in
      let (b, e, made) = loop (length ws) 0 b0 [] (omega arith) (record {
        valid_so_far = ok0;
        sized = sized;
        marks = λ j h. ground (arith, bit-new_bit_vector (length ws) j b0 e0);
      }) in
      (
        b,
        rw (valid.num, e0, e, joined),
        made.valid_so_far,
        made.sized,
        λ i lt. ground (arith, made.marks i lt),
      )
