-- ===== src/Urd/Block/Certificate.antt =====
-- source/urd/types/commit_certificate.go: the result of a commit certificate, against a description of
-- it for each index alone.
use mathlib.Core.Path.{subst}
use urd_code.Prelude.{
  ℕ, ◌≤◌, ◌<◌, ◌≡◌, refl, ap, ◌∙◌, inl, inr, Bool, false, not, ◌&&◌, ◌||◌, some, List, [], ◌∷◌,
  arith, if◌then◌else◌, Bool-cases, get_elem?, replicate, length, length-replicate,
}
use urd_code.Prelude.Bytes.{Bytes, bytes_eq, bytes_eq_refl}
use urd_code.Prelude.Calls.{returns}
use urd_code.Urd.Block.{CommitCertificateCore, is_empty}
use urd_code.Urd.Block.Check.{Results, mark_all, result}
use urd_code.Urd.Block.Marks.{
  entry, At, HasLength, step_result, step_error, get_elem?-replicate, entry_from-zero,
  mark_brief-At,
}

-- The first entry at an index that is not empty.
unfoldable pub chosen : ℕ → List CommitCertificateCore → Bytes
chosen i [] = []
chosen i (core ∷ cc) =
    if is_empty (entry i core.intention_brief) then chosen i cc else entry i core.intention_brief

-- Whether an entry at an index is neither empty nor the given one.
unfoldable pub disagrees : ℕ → Bytes → List CommitCertificateCore → Bool
unfolding bytes_eq
disagrees i r [] = false
disagrees i r (core ∷ cc) =
    not (is_empty (entry i core.intention_brief)) && not (bytes_eq r (entry i core.intention_brief))
    || disagrees i r cc

-- No brief is longer than a number.
unfoldable pub BriefsFit : ℕ → List CommitCertificateCore → Type 0
BriefsFit n [] = Unit
BriefsFit n (core ∷ cc) = (length core.intention_brief ≤ n) × BriefsFit n cc

-- The result and the error at an index after the certificates.
unfoldable fold_result : ℕ → Bytes → List CommitCertificateCore → Bytes
unfolding bytes_eq
fold_result i r [] = r
fold_result i r (core ∷ cc) = fold_result i (step_result r (entry i core.intention_brief)) cc

unfoldable fold_error : ℕ → Bytes → Bool → List CommitCertificateCore → Bool
unfolding bytes_eq
fold_error i r e [] = e
fold_error i r e (core ∷ cc) =
    let bz = entry i core.intention_brief in fold_error i (step_result r bz) (step_error r e bz) cc

mark_all-At :
    (n : ℕ) (cc : List CommitCertificateCore) (t : Results)
    → HasLength n t
    → BriefsFit n cc
    → (t' : Results) × (mark_all cc t ≡ returns t')
      × HasLength n t'
      × ((j : ℕ) (r : Bytes) (e : Bool)
          → At t j r e
          → At t' j (fold_result j r cc) (fold_error j r e cc))
unfolding mark_all fold_result fold_error BriefsFit
mark_all-At n [] t l fit = (t, refl, l, λ j r e h. h)
mark_all-At n (core ∷ cores) t l fit =
    let (t1, q, l1, at1) = mark_brief-At n 0 core.intention_brief t l (omega (arith, fit.0)) in
    let (t2, q2, l2, at2) = mark_all-At n cores t1 l1 fit.1 in
    (
      t2,
      rw (q, q2),
      l2,
      λ j r e h.
          at2 j (step_result r (entry j core.intention_brief))
            (step_error r e (entry j core.intention_brief))
            (subst (λ b. At t1 j (step_result r b) (step_error r e b))
              (entry_from-zero core.intention_brief j) (at1 j r e h)),
    )

errors-agree :
    (r bz : Bytes) (e d : Bool)
    → is_empty r ≡ false
    → (step_error r e bz || d) ≡ (e || (not (is_empty bz) && not (bytes_eq r bz) || d))
errors-agree r bz e d h = ground arith

first_taken : (bz : Bytes) → is_empty bz ≡ false → step_result [] bz ≡ bz
unfolding bytes_eq
first_taken [] h = refl
first_taken (b ∷ bz) h = refl

fold_result-set :
    (i : ℕ) (r : Bytes) (e : Bool) (cc : List CommitCertificateCore)
    → is_empty r ≡ false
    → (fold_result i r cc ≡ r) × (fold_error i r e cc ≡ (e || disagrees i r cc))
unfolding fold_result fold_error disagrees
fold_result-set i r e [] h = (refl, ground arith)
fold_result-set i r e (core ∷ cores) h =
    let bz = entry i core.intention_brief in
    let same : step_result r bz ≡ r = ground arith in
    let ih = fold_result-set i r (step_error r e bz) cores h in
    (
      ap (λ x. fold_result i x cores) same ∙ ih.0,
      ap (λ x. fold_error i x (step_error r e bz) cores) same
          ∙ ih.1
          ∙ errors-agree r bz e (disagrees i r cores) h,
    )

fold_result-chosen :
    (i : ℕ) (cc : List CommitCertificateCore)
    → (fold_result i [] cc ≡ chosen i cc)
      × (fold_error i [] false cc ≡ disagrees i (chosen i cc) cc)
unfolding fold_result fold_error chosen disagrees
fold_result-chosen i [] = (refl, refl)
fold_result-chosen i (core ∷ cores) =
    let bz = entry i core.intention_brief in
    let ih = fold_result-chosen i cores in
    elim (Bool-cases (is_empty bz)) [
      | inl q ↦
          let r0 : step_result [] bz ≡ [] = ground arith in
          let e0 : step_error [] false bz ≡ false = ground arith in
          ground (
            arith,
            ih,
            ap (λ x. fold_result i x cores) r0,
            ap (λ x. fold_error i x (step_error [] false bz) cores) r0
                ∙ ap (λ x. fold_error i [] x cores) e0,
          )
      | inr q ↦
          let r0 : step_result [] bz ≡ bz = first_taken bz q in
          let e0 : step_error [] false bz ≡ false = ground arith in
          ground (
            arith,
            fold_result-set i bz false cores q,
            bytes_eq_refl bz,
            ap (λ x. fold_result i x cores) r0,
            ap (λ x. fold_error i x (step_error [] false bz) cores) r0
                ∙ ap (λ x. fold_error i bz x cores) e0,
          )
    ]

-- Where no brief is longer than the certificate, the loops do not panic, and at each index the result
-- is the first entry there that is not empty, and the error says whether another entry there is
-- neither empty nor that one.
pub result_lem :
    (cc : List CommitCertificateCore)
    → BriefsFit (length cc) cc
    → (t : Results) × (result cc ≡ returns t)
      × ((i : ℕ)
          → i < length cc
          → (get_elem? t.results i ≡ some (chosen i cc))
            × (get_elem? t.errors i ≡ some (disagrees i (chosen i cc) cc)))
unfolding result
result_lem cores fit =
    let n = length cores in
    let t0 : Results = record { results = replicate n []; errors = replicate n false } in
    let (t, q, l, at) =
      mark_all-At n cores t0 (length-replicate n [], length-replicate n false) fit in
    (
      t,
      q,
      λ i h.
          let (first, second) = fold_result-chosen i cores in
          subst
            (λ r.
              (get_elem? t.results i ≡ some r)
              × (get_elem? t.errors i ≡ some (disagrees i (chosen i cores) cores)))
            first
            (subst
              (λ e.
                (get_elem? t.results i ≡ some (fold_result i [] cores))
                × (get_elem? t.errors i ≡ some e))
              second
              (at i [] false (get_elem?-replicate n i [] h, get_elem?-replicate n i false h))),
    )
