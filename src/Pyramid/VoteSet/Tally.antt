-- ===== src/Pyramid/VoteSet/Tally.antt =====
-- source/pyramid/consensus/constypes/vote_set.go: the weight behind a block and a code, counted over
-- the recorded votes.
use urd_code.Prelude.{
  ℕ, zero, suc, ◌+◌, ◌≤◌, ◌≡◌, refl, Bool, false, ◌&&◌, Option, none, some, List, [], ◌∷◌, arith,
  if◌then◌else◌, bool_eq, get_elem?, set, replicate,
}
use urd_code.Prelude.Bytes.{Bytes, bytes_eq}
use urd_code.Pyramid.VoteSet.{Vote}

abbrev pub sum : List ℕ → ℕ
sum [] = 0
sum (w ∷ ws) = w + sum ws

-- Whether a vote is for the block `k` with the code `c`.
abbrev pub is_for : Bytes → Bool → Vote → Bool
is_for k c v = bytes_eq v.block_header_hash k && bool_eq v.is_ok c

abbrev pub slot_is_for : Bytes → Bool → Option Vote → Bool
slot_is_for k c none = false
slot_is_for k c (some v) = is_for k c v

-- The weight of the validators whose recorded vote is for `k` with `c`.
unfoldable pub tally : Bytes → Bool → List ℕ → List (Option Vote) → ℕ
tally k c [] vs = 0
tally k c (w ∷ ws) [] = 0
tally k c (w ∷ ws) (v ∷ vs) = (if slot_is_for k c v then w else 0) + tally k c ws vs

-- The weight of the validators who are for `k` with `c` in one set, and for `k'` with `c'` in
-- another.
unfoldable pub shared :
    Bytes → Bool → Bytes → Bool → List ℕ → List (Option Vote) → List (Option Vote) → ℕ
shared k c k' c' [] vs us = 0
shared k c k' c' (w ∷ ws) [] us = 0
shared k c k' c' (w ∷ ws) (v ∷ vs) [] = 0
shared k c k' c' (w ∷ ws) (v ∷ vs) (u ∷ us) =
    (if slot_is_for k c v && slot_is_for k' c' u then w else 0) + shared k c k' c' ws vs us

module _ (k : Bytes) (c : Bool) where
  pub tally-le-sum : (ws : List ℕ) (vs : List (Option Vote)) → tally k c ws vs ≤ sum ws
  unfolding tally
  tally-le-sum [] vs = omega arith
  tally-le-sum (w ∷ ws) [] = omega arith
  tally-le-sum (w ∷ ws) (v ∷ vs) = ground (arith, tally-le-sum ws vs)

  pub tally-replicate : (ws : List ℕ) (n : ℕ) → tally k c ws (replicate n none) ≡ 0
  unfolding tally
  tally-replicate [] n = refl
  tally-replicate (w ∷ ws) zero = refl
  tally-replicate (w ∷ ws) (suc n) = omega (arith, tally-replicate ws n)

  -- A first vote adds the weight of its validator, where it is for `k` with `c`.
  pub tally-set :
      (ws : List ℕ) (vs : List (Option Vote)) (i w : ℕ) (v : Vote)
      → get_elem? ws i ≡ some w
      → get_elem? vs i ≡ some none
      → tally k c ws (set vs i (some v)) ≡ tally k c ws vs + (if is_for k c v then w else 0)
  unfolding tally
  tally-set [] vs i w v hw hv = cc
  tally-set (x ∷ ws) [] i w v hw hv = cc
  tally-set (x ∷ ws) (u ∷ vs) zero w v hw hv = ground arith
  tally-set (x ∷ ws) (u ∷ vs) (suc i) w v hw hv = ground (arith, tally-set ws vs i w v hw hv)

-- Two tallies that together pass the sum overlap.
pub tally-shared :
    (k : Bytes) (c : Bool) (k' : Bytes) (c' : Bool) (ws : List ℕ) (vs us : List (Option Vote))
    → tally k c ws vs + tally k' c' ws us ≤ sum ws + shared k c k' c' ws vs us
unfolding tally shared
tally-shared k c k' c' [] vs us = omega arith
tally-shared k c k' c' (w ∷ ws) [] us = omega (arith, tally-le-sum k' c' (w ∷ ws) us)
tally-shared k c k' c' (w ∷ ws) (v ∷ vs) [] = omega (arith, tally-le-sum k c (w ∷ ws) (v ∷ vs))
tally-shared k c k' c' (w ∷ ws) (v ∷ vs) (u ∷ us) = ground (arith, tally-shared k c k' c' ws vs us)
