-- ===== src/Pyramid/VoteSet/Majority.antt =====
-- source/pyramid/consensus/constypes/vote_set.go: `AddVote` and sequences of it, and the majorities
-- that come of them.
use mathlib.Core.Path.{subst}
use urd_code.Prelude.{
  ℕ, zero, suc, ◌*◌, ◌/◌, ◌^◌, ◌≤◌, ◌<◌, ◌≡◌, ◌≢◌, ◌↔◌, refl, ap, ◌∙◌, sym, ◌⊎◌, inl, inr, Bool,
  true, false, not, ◌||◌, Option, none, some, List, [], ◌∷◌, arith, if◌then◌else◌, bool_eq,
  bool_eq_iff, get_elem?, length,
}
use urd_code.Prelude.Int.{pos}
use urd_code.Prelude.Bytes.{Bytes, bytes_eq, bytes_eq_iff}
use urd_code.Prelude.Calls.{Call, returns, ◌>>=◌}
use urd_code.BitVector.{BitVector}
use urd_code.Pyramid.VoteSet.{
  Vote, VoteSet, VoteError, ambiguous, new_vote_set, first_vote, second_vote, add_vote,
}
use urd_code.Pyramid.VoteSet.Tally.{sum, tally, shared, tally-shared}
use urd_code.Pyramid.VoteSet.Invariant.{IsValid, is_some, new_vote_set-IsValid}
use urd_code.Pyramid.VoteSet.FirstVote.{
  get_elem?-lt, reads_bit, first_vote-IsValid, first_vote-stores, first_vote-keeps,
}

-- A validator `i` of weight `w` casts the vote.
pub record Casts (ws : List ℕ) (vote : Vote) (w : ℕ) : Type 0 where
  pub validator : ℕ
  pub at_validator : vote.index ≡ pos validator
  pub weight : get_elem? ws validator ≡ some w

slot-cases :
    (vs : List (Option Vote)) (i : ℕ)
    → i < length vs
    → (get_elem? vs i ≡ some none) ⊎ ((raw : Vote) × (get_elem? vs i ≡ some (some raw)))
slot-cases [] i h = absurd (omega arith)
slot-cases (none ∷ vs) zero h = inl refl
slot-cases (some v ∷ vs) zero h = inr (v, refl)
slot-cases (v ∷ vs) (suc i) h = slot-cases vs i (omega arith)

-- The reply to a second vote: an error if it is for the block of the first, or has another code.
abbrev second_reply : Vote → Vote → Option VoteError
second_reply vote raw =
    if bytes_eq vote.block_header_hash raw.block_header_hash || not (bool_eq vote.is_ok raw.is_ok)
    then some ambiguous
    else none

module _ (ws : List ℕ) (vs : VoteSet) (bv : BitVector) (vote : Vote) (w : ℕ)
    (valid : IsValid ws vs bv) (casts : Casts ws vote w) where
  abbrev who : ℕ
  who = casts.validator

  who_in_range : who < length ws
  who_in_range = get_elem?-lt ws who w casts.weight

  add_vote-first : get_elem? vs.votes who ≡ some none → add_vote vs vote w ≡ first_vote vs vote w
  unfolding add_vote
  add_vote-first e = rw (
    reads_bit ws vs bv valid vote who w casts.at_validator casts.weight,
    valid.seen who who_in_range ∙ ap is_some e,
  )

  add_vote-second :
      (raw : Vote)
      → get_elem? vs.votes who ≡ some (some raw)
      → add_vote vs vote w ≡ returns (vs, second_reply vote raw)
  unfolding add_vote second_vote
  add_vote-second raw e = rw (
    reads_bit ws vs bv valid vote who w casts.at_validator casts.weight,
    valid.seen who who_in_range ∙ ap is_some e,
    casts.at_validator,
    e,
  )

  -- A vote of a validator keeps the set valid, and the call does not panic.
  add_vote-IsValid :
      (vs' : VoteSet) × (reply : Option VoteError) × (bv' : BitVector) × (add_vote vs vote w
        ≡ returns (vs', reply))
      × IsValid ws vs' bv'
  add_vote-IsValid = elim (slot-cases vs.votes who (omega (arith, valid.slots, who_in_range))) [
    | inl fresh ↦
        let (vs', e, valid') =
          first_vote-IsValid ws vs bv valid vote who w casts.at_validator casts.weight fresh in
        (vs', none, _, add_vote-first fresh ∙ e, valid')
    | inr (raw, e) ↦ (vs, second_reply vote raw, bv, add_vote-second raw e, valid)
  ]

  -- A majority that is found stays: no later vote changes its block or its code.
  add_vote-keeps_majority :
      (vs' : VoteSet) (reply : Option VoteError)
      → vs.has_mj23 ≡ true
      → add_vote vs vote w ≡ returns (vs', reply)
      → (vs'.has_mj23 ≡ true) × (vs'.mj23_key ≡ vs.mj23_key) × (vs'.mj23_code ≡ vs.mj23_code)
  add_vote-keeps_majority vs' reply h e =
      elim (slot-cases vs.votes who (omega (arith, valid.slots, who_in_range))) [
        | inl fresh ↦
            first_vote-keeps ws vs bv valid vote who w casts.at_validator casts.weight fresh vs'
              reply h (sym (add_vote-first fresh) ∙ e)
        | inr (raw, s) ↦ ground (arith, add_vote-second raw s)
      ]

second_reply-none :
    (v1 v2 : Vote)
    → (second_reply v2 v1 ≡ none)
      ↔ ((v1.block_header_hash ≢ v2.block_header_hash) × (v1.is_ok ≡ v2.is_ok))
second_reply-none v1 v2 =
    ground
      (arith, bytes_eq_iff v2.block_header_hash v1.block_header_hash, bool_eq_iff v2.is_ok v1.is_ok)

-- Two votes of a validator that has no vote in a valid set: the first is taken with no error, and the
-- second changes nothing and passes with no error exactly if it is for another block with the code
-- of the first, so that the same vote sent again is reported and an equivocation is not.
pub add_vote-twice :
    (ws : List ℕ) (vs : VoteSet) (bv : BitVector) (v1 v2 : Vote) (w : ℕ)
    → IsValid ws vs bv
    → (c1 : Casts ws v1 w) (c2 : Casts ws v2 w) → c2.validator ≡ c1.validator
    → get_elem? vs.votes c1.validator ≡ some none
    → (vs' : VoteSet) × (reply : Option VoteError) × (add_vote vs v1 w ≡ returns (vs', none))
      × (add_vote vs' v2 w ≡ returns (vs', reply))
      × ((reply ≡ none) ↔ ((v1.block_header_hash ≢ v2.block_header_hash) × (v1.is_ok ≡ v2.is_ok)))
add_vote-twice ws vs bv v1 v2 w valid c1 c2 same free =
    let (vs', e, valid') =
      first_vote-IsValid ws vs bv valid v1 c1.validator w c1.at_validator c1.weight free in
    let stored =
      first_vote-stores ws vs bv valid v1 c1.validator w c1.at_validator c1.weight free vs' e in
    let slot = ap (λ i. get_elem? vs'.votes i) same ∙ stored in
    (
      vs',
      second_reply v2 v1,
      add_vote-first ws vs bv v1 w valid c1 free ∙ e,
      add_vote-second ws vs' _ v2 w valid' c2 v1 slot,
      second_reply-none v1 v2,
    )

-- A sequence of votes with their weights, as `AddPrevote` and `AddPrecommit` hand them on.
unfoldable pub add_votes : VoteSet → List (Vote × ℕ) → Call VoteSet
unfolding add_vote
add_votes vs [] = returns vs
add_votes vs ((vote, w) ∷ rest) = do r ← add_vote vs vote w; add_votes r.0 rest

abbrev pub AllCast : List ℕ → List (Vote × ℕ) → Type 0
AllCast ws [] = Unit
AllCast ws ((vote, w) ∷ rest) = Casts ws vote w × AllCast ws rest

pub add_votes-IsValid :
    (ws : List ℕ) (cast : List (Vote × ℕ)) (vs : VoteSet) (bv : BitVector)
    → IsValid ws vs bv
    → AllCast ws cast
    → (vs' : VoteSet) × (bv' : BitVector) × (add_votes vs cast ≡ returns vs') × IsValid ws vs' bv'
unfolding add_votes
add_votes-IsValid ws [] vs bv valid h = (vs, bv, refl, valid)
add_votes-IsValid ws ((vote, w) ∷ rest) vs bv valid h =
    let (mid, reply, bv1, e, valid1) = add_vote-IsValid ws vs bv vote w valid h.0 in
    let (vs', bv', e', valid') = add_votes-IsValid ws rest mid bv1 valid1 h.1 in
    (vs', bv', rw (e, ◌>>=◌) e', valid')

-- `HasMaj23` after any votes says exactly whether some block and code have more than two thirds of
-- the weight, and `GetMaj23` then names such a block and code.
abbrev pub Decides : List ℕ → VoteSet → Type 0
Decides ws vs =
    (vs.has_mj23 ≡ true → 2 * sum ws / 3 < tally vs.mj23_key vs.mj23_code ws vs.votes)
    × (vs.has_mj23 ≡ false → (k : Bytes) (c : Bool) → tally k c ws vs.votes ≤ 2 * sum ws / 3)

-- From a fresh set, any sequence of votes by its validators is taken without a panic, and then
-- the set has a majority exactly if some block and code have more than two thirds of the weight.
pub add_votes-Decides :
    (ws : List ℕ) (cast : List (Vote × ℕ))
    → sum ws < 2 ^ 30
    → AllCast ws cast
    → (vs : VoteSet) × (add_votes (new_vote_set (length ws) (sum ws)) cast ≡ returns vs)
      × Decides ws vs
add_votes-Decides ws cast small h =
    let (bv, fresh) = new_vote_set-IsValid ws small in
    let (vs, _, e, valid) =
      add_votes-IsValid ws cast (new_vote_set (length ws) (sum ws)) bv fresh h in
    (vs, e, (valid.found, valid.missed))

majorities_overlap :
    (ws : List ℕ) (vs us : VoteSet) (bv bu : BitVector)
    → IsValid ws vs bv
    → IsValid ws us bu
    → vs.has_mj23 ≡ true
    → us.has_mj23 ≡ true
    → sum ws < 3 * shared vs.mj23_key vs.mj23_code us.mj23_key us.mj23_code ws vs.votes us.votes
majorities_overlap ws vs us bv bu v u hv hu = omega (
  arith,
  v.found hv,
  u.found hu,
  tally-shared vs.mj23_key vs.mj23_code us.mj23_key us.mj23_code ws vs.votes us.votes,
)

-- Two sequences of votes by the same validators, as two replicas may receive them, both from a
-- fresh set: if both end in a majority, validators with more than a third of the weight have a
-- recorded vote for both. So if the blocks or the codes differ, that many have cast two votes.
pub majorities_share :
    (ws : List ℕ) (cast cast' : List (Vote × ℕ)) (vs us : VoteSet)
    → sum ws < 2 ^ 30
    → AllCast ws cast
    → AllCast ws cast'
    → add_votes (new_vote_set (length ws) (sum ws)) cast ≡ returns vs
    → add_votes (new_vote_set (length ws) (sum ws)) cast' ≡ returns us
    → vs.has_mj23 ≡ true
    → us.has_mj23 ≡ true
    → sum ws < 3 * shared vs.mj23_key vs.mj23_code us.mj23_key us.mj23_code ws vs.votes us.votes
majorities_share ws cast cast' vs us small h h' e e' hv hu =
    let (bv, fresh) = new_vote_set-IsValid ws small in
    let (vs1, b1, e1, v1) =
      add_votes-IsValid ws cast (new_vote_set (length ws) (sum ws)) bv fresh h in
    let (us1, b2, e2, v2) =
      add_votes-IsValid ws cast' (new_vote_set (length ws) (sum ws)) bv fresh h' in
    majorities_overlap ws vs us b1 b2 (subst (λ u. IsValid ws u b1) (cc (e, e1)) v1)
      (subst (λ u. IsValid ws u b2) (cc (e', e2)) v2) hv hu
