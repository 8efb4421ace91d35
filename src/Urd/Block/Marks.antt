-- ===== src/Urd/Block/Marks.antt =====
-- source/urd/types/commit_certificate.go: what the inner loop of Result does to the entry at one index.
use mathlib.Core.Path.{subst}
use urd_code.Prelude.{
  ◌⊎◌, sym, ℕ, zero, suc, ◌+◌, ◌-◌, ◌≤◌, ◌<◌, ◌≡◌, refl, ap, inl, inr, Bool, true, ◌||◌, none, some,
  List, [], ◌∷◌, arith, if◌then◌else◌, ltb, Bool-cases, get_elem?, ◌==◌, replicate, length,
  length-set, get_elem?-set_self, get_elem?-set_ne,
}
use urd_code.Prelude.Bytes.{Bytes, bytes_eq}
use urd_code.Prelude.Calls.{returns}
use urd_code.Urd.Block.{is_empty}
use urd_code.Urd.Block.Check.{Results, mark_read, mark_brief}

-- The entry of a brief at an index; one that is missing is empty.
abbrev entry_of : List Bytes → ℕ → Bytes
entry_of brief i = elim (get_elem? brief i) [ none ↦ [] | some b ↦ b ]

abbrev pub entry : ℕ → List Bytes → Bytes
entry i brief = entry_of brief i

-- The result and the error at an index.
abbrev pub At : Results → ℕ → Bytes → Bool → Type 0
At t j r e = (get_elem? t.results j ≡ some r) × (get_elem? t.errors j ≡ some e)

abbrev pub HasLength : ℕ → Results → Type 0
HasLength n t = (length t.results ≡ n) × (length t.errors ≡ n)

-- What an entry does to the result and the error.
abbrev keeps : Bytes → Bytes → Bool
keeps r bz = bytes_eq r bz || is_empty bz

abbrev pub step_result : Bytes → Bytes → Bytes
step_result r bz = if keeps r bz then r else if is_empty r then bz else r

abbrev pub step_error : Bytes → Bool → Bytes → Bool
step_error r e bz = if keeps r bz then e else if is_empty r then e else true

decide-eq : (i j : ℕ) → (i ≡ j) ⊎ (i ≡ j → ⊥)
decide-eq i j = elim (Bool-cases (i == j)) [
  | inl e ↦ inl (ground arith)
  | inr e ↦ inr (λ h. ground arith)
]

get_elem?-lt :
    {A : Type 0} (xs : List A) (i : ℕ) → i < length xs → (a : A) × (get_elem? xs i ≡ some a)
get_elem?-lt [] i h = elim h [ ]
get_elem?-lt (x ∷ xs) zero h = (x, refl)
get_elem?-lt (x ∷ xs) (suc i) h = get_elem?-lt xs i (omega arith)

pub get_elem?-replicate :
    {A : Type 0} (n i : ℕ) (a : A) → i < n → get_elem? (replicate n a) i ≡ some a
get_elem?-replicate zero i a h = elim h [ ]
get_elem?-replicate (suc n) zero a h = refl
get_elem?-replicate (suc n) (suc i) a h = get_elem?-replicate n i a (omega arith)

get_elem?-length :
    {A : Type 0} (xs : List A) (i : ℕ) (a : A) → get_elem? xs i ≡ some a → i < length xs
get_elem?-length [] i a h = ground arith
get_elem?-length (x ∷ xs) zero a h = omega arith
get_elem?-length (x ∷ xs) (suc i) a h = omega (arith, get_elem?-length xs i a h)

mark_read-At :
    (i : ℕ) (bz r : Bytes) (e : Bool) (t : Results)
    → At t i r e
    → At (mark_read i bz r t) i (step_result r bz) (step_error r e bz)
mark_read-At i bz r e t h = ground (
  arith,
  get_elem?-set_self t.results i bz,
  get_elem?-set_self t.errors i true,
  get_elem?-length t.results i r h.0,
  get_elem?-length t.errors i e h.1,
)

mark_read-other :
    (i j : ℕ) (bz r r' : Bytes) (e : Bool) (t : Results)
    → (i ≡ j → ⊥)
    → At t j r' e
    → At (mark_read i bz r t) j r' e
mark_read-other i j bz r r' e t ne h = ground (
  arith,
  get_elem?-set_ne t.results {i = i} {j = j} bz ne,
  get_elem?-set_ne t.errors {i = i} {j = j} true ne,
)

mark_read-HasLength :
    (n i : ℕ) (bz r : Bytes) (t : Results) → HasLength n t → HasLength n (mark_read i bz r t)
mark_read-HasLength n i bz r t h =
    ground (arith, length-set t.results i bz, length-set t.errors i true)

-- The entry that the loop from `i` has for an index.
abbrev entry_from : ℕ → List Bytes → ℕ → Bytes
entry_from i brief j = if ltb j i then [] else entry (j - i) brief

-- An entry that is empty changes nothing.
At-empty :
    (t : Results) (j : ℕ) (r bz : Bytes) (e : Bool)
    → bz ≡ []
    → At t j r e
    → At t j (step_result r bz) (step_error r e bz)
At-empty t j r bz e empty h = ground arith

At-empty_inv :
    (t : Results) (j : ℕ) (r bz : Bytes) (e : Bool)
    → bz ≡ []
    → At t j (step_result r bz) (step_error r e bz)
    → At t j r e
At-empty_inv t j r bz e empty h = ground arith

pub entry_from-zero : (brief : List Bytes) (j : ℕ) → entry_from 0 brief j ≡ entry j brief
entry_from-zero brief j = let q : j - 0 ≡ j = omega arith in ground (arith, ap (entry_of brief) q)

entry_from-before : (i : ℕ) (brief : List Bytes) → entry_from (suc i) brief i ≡ []
entry_from-before i brief = ground arith

entry_from_self : (i : ℕ) (bz : Bytes) (brief : List Bytes) → entry_from i (bz ∷ brief) i ≡ bz
entry_from_self i bz brief =
    let q : i - i ≡ 0 = omega arith in ground (arith, ap (entry_of (bz ∷ brief)) q)

entry_from-other :
    (i j : ℕ) (bz : Bytes) (brief : List Bytes)
    → (i ≡ j → ⊥)
    → entry_from (suc i) brief j ≡ entry_from i (bz ∷ brief) j
entry_from-other i j bz brief ne = elim (Bool-cases (ltb j i)) [
  | inl l ↦ ground arith
  | inr l ↦
      let q : j - i ≡ suc (j - suc i) = ground arith in ground (arith, ap (entry_of (bz ∷ brief)) q)
]

pub mark_brief-At :
    (n i : ℕ) (brief : List Bytes) (t : Results)
    → HasLength n t
    → i + length brief ≤ n
    → (t' : Results) × (mark_brief i brief t ≡ returns t')
      × HasLength n t'
      × ((j : ℕ) (r : Bytes) (e : Bool)
          → At t j r e
          → At t' j (step_result r (entry_from i brief j)) (step_error r e (entry_from i brief j)))
unfolding mark_brief
mark_brief-At n i [] t l fit =
    (t, refl, l, λ j r e h. At-empty t j r (entry_from i [] j) e (ground arith) h)
mark_brief-At n i (bz ∷ brief) t l fit =
    let (r0, q) = get_elem?-lt t.results i (omega (arith, l.0)) in
    let t1 = mark_read i bz r0 t in
    let (t', e', l', at) =
      mark_brief-At n (suc i) brief t1 (mark_read-HasLength n i bz r0 t l) (omega arith) in
    (
      t',
      rw (q, e'),
      l',
      λ j r e h. elim (decide-eq i j) [
        | inl same ↦
            let at_i = subst (λ k. At t k r e) (sym same) h in
            let q0 : r0 ≡ r = ground (arith, q, at_i.0) in
            let read =
              subst (λ x. At (mark_read i bz x t) i (step_result r bz) (step_error r e bz)) (sym q0)
                (mark_read-At i bz r e t at_i) in
            let later = at i (step_result r bz) (step_error r e bz) read in
            let done =
              At-empty_inv t' i (step_result r bz) (entry_from (suc i) brief i) (step_error r e bz)
                (entry_from-before i brief) later in
            subst
              (λ k.
                At t' k (step_result r (entry_from i (bz ∷ brief) k))
                  (step_error r e (entry_from i (bz ∷ brief) k)))
              same
              (subst (λ b. At t' i (step_result r b) (step_error r e b))
                (sym (entry_from_self i bz brief)) done)
        | inr ne ↦
            let other = mark_read-other i j bz r0 r e t ne h in
            subst (λ b. At t' j (step_result r b) (step_error r e b))
              (entry_from-other i j bz brief ne) (at j r e other)
      ],
    )
