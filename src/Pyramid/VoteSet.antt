-- ===== src/Pyramid/VoteSet.antt =====
-- source/pyramid/consensus/constypes/vote_set.go: the votes of one step of a round, counted for
-- each block and each code, and the majority of two thirds. `crypto.AggregateSignatures` is a
-- parameter: it wraps the BLS library.
pub mod Tally
pub mod Invariant
pub mod FirstVote
pub mod Majority
pub mod Aggregate
mod Tests
use urd_code.Prelude.{
  ℕ, zero, suc, ◌+◌, Bool, true, false, not, ◌||◌, ◌&&◌, Option, none, some, List, [], ◌∷◌, ◌++◌,
  if◌then◌else◌, bool_eq, get_elem?, set, replicate, length,
}
use urd_code.Prelude.Int.{ℤ, pos, negsuc}
use urd_code.Prelude.Bytes.{Bytes, bytes_eq}
use urd_code.Prelude.Maps.{Map, lookup, insert}
use urd_code.Prelude.Calls.{Call, returns, panics, ◌>>=◌}
use urd_code.Prelude.Words.{add_32, double_32, third_32, gtb_32}
use urd_code.BitVector.{BitVector, new_bit_vector, get_index, set_index, byte}

-- The interface `Vote`: what its four methods return.
pub record Vote : Type 0 where
  pub block_header_hash : Bytes
  pub index : ℤ
  pub is_ok : Bool
  pub signature : Bytes

-- A slice of two int32, which is written at `voteIndex`.
pub record Count : Type 0 where
  pub for_ok : ℕ
  pub for_abort : ℕ

pub record VoteSet : Type 0 where
  pub validator_num : ℕ
  pub total_votes : ℕ
  pub votes : List (Option Vote)
  pub block_header_hash_cnt : Map Count
  pub bit_vector : Option BitVector
  pub has_mj23 : Bool
  pub mj23_key : Bytes
  pub mj23_code : Bool

pub data VoteError : Type 0 where
  ambiguous : VoteError

unfoldable pub new_vote_set : ℕ → ℕ → VoteSet
unfolding new_bit_vector
new_vote_set n total = record {
  validator_num = n;
  total_votes = total;
  votes = replicate n none;
  block_header_hash_cnt = [];
  bit_vector = new_bit_vector (pos n);
  has_mj23 = false;
  mj23_key = [];
  mj23_code = false;
}

-- `u[voteIndex(vote)]`
abbrev pub at_code : Bool → Count → ℕ
at_code true u = u.for_ok
at_code false u = u.for_abort

-- `u[voteIndex(vote)] += valVote`
abbrev pub add_at : Bool → ℕ → Count → Count
add_at true w u = record u { for_ok = add_32 u.for_ok w }
add_at false w u = record u { for_abort = add_32 u.for_abort w }

abbrev pub no_votes : Count
no_votes = record { for_ok = 0; for_abort = 0 }

-- A fresh pair of counters for a key that is not there.
abbrev pub counters : Bytes → Map Count → Count
counters key cnt = elim (lookup key cnt) [ none ↦ no_votes | some u ↦ u ]

abbrev pub read_elem {ℓ} : {A : Type ℓ} → Option A → Call A
read_elem none = panics
read_elem (some a) = returns a

-- `vs.votes[i]`
abbrev pub vote_at : List (Option Vote) → ℤ → Call (Option Vote)
vote_at votes (pos i) = read_elem (get_elem? votes i)
vote_at votes (negsuc _) = panics

-- `vs.votes[i] = vote`
abbrev pub store_vote : List (Option Vote) → ℤ → Vote → Call (List (Option Vote))
store_vote votes (pos i) v = do _ ← read_elem (get_elem? votes i); returns (set votes i (some v))
store_vote votes (negsuc _) v = panics

-- The branch for a validator that has voted. A call on a nil `rawVote` panics.
unfoldable pub second_vote : VoteSet → Vote → Call (VoteSet × Option VoteError)
second_vote vs vote = do
  slot ← vote_at vs.votes vote.index
  raw ← read_elem slot
  returns (
    vs,
    if bytes_eq vote.block_header_hash raw.block_header_hash || not (bool_eq vote.is_ok raw.is_ok)
        then some ambiguous
        else none,
  )

-- The test for two thirds, after the vote is counted; the first majority stays.
unfoldable pub find_majority : VoteSet → Vote → VoteSet
find_majority vs vote =
    if vs.has_mj23
    then vs
    else if gtb_32 (at_code vote.is_ok (counters vote.block_header_hash vs.block_header_hash_cnt))
        (third_32 (double_32 vs.total_votes))
    then record vs { has_mj23 = true; mj23_key = vote.block_header_hash; mj23_code = vote.is_ok }
    else vs

unfoldable pub first_vote : VoteSet → Vote → ℕ → Call (VoteSet × Option VoteError)
unfolding find_majority set_index lookup insert
first_vote vs vote val_vote = do
  marked ← set_index vs.bit_vector vote.index true
  votes ← store_vote vs.votes vote.index vote
  let key = vote.block_header_hash
  let cnt =
      insert key (add_at vote.is_ok val_vote (counters key vs.block_header_hash_cnt))
        vs.block_header_hash_cnt
  returns (
    find_majority (record vs { bit_vector = marked.0; votes = votes; block_header_hash_cnt = cnt })
        vote,
    none,
  )

unfoldable pub add_vote : VoteSet → Vote → ℕ → Call (VoteSet × Option VoteError)
unfolding second_vote first_vote get_index bytes_eq
add_vote vs vote val_vote = do
  seen ← get_index vs.bit_vector vote.index
  if seen then second_vote vs vote else first_vote vs vote val_vote

abbrev pub has_maj23 : VoteSet → Bool
has_maj23 vs = vs.has_mj23

abbrev pub get_maj23 : VoteSet → Bytes × Bool
get_maj23 vs = (vs.mj23_key, vs.mj23_code)

-- Whether a recorded vote is one of the majority.
abbrev pub in_majority : VoteSet → Vote → Bool
in_majority vs vote = bool_eq vote.is_ok vs.mj23_code && bytes_eq vs.mj23_key vote.block_header_hash

abbrev collect :
    VoteSet → ℕ → Vote → List Bytes × Option BitVector → Call (List Bytes × Option BitVector)
collect vs i vote acc =
    if in_majority vs vote
    then (do bv ← set_index acc.1 (pos i) true; returns (acc.0 ++ vote.signature ∷ [], bv.0))
    else returns acc

-- The body of the loop at `i`, where a bit is set.
abbrev visit : VoteSet → ℕ → List Bytes × Option BitVector → Call (List Bytes × Option BitVector)
visit vs i acc = do slot ← vote_at vs.votes (pos i); vote ← read_elem slot; collect vs i vote acc

-- The loop of `GetMaj23AggreSig` over the `n` indices from `i`.
unfoldable pub collect_from :
    VoteSet → ℕ → ℕ → List Bytes × Option BitVector → Call (List Bytes × Option BitVector)
unfolding get_index set_index bytes_eq
collect_from vs i zero acc = returns acc
collect_from vs i (suc n) acc = do
  seen ← get_index vs.bit_vector (pos i)
  acc' ← if seen then visit vs i acc else returns acc
  collect_from vs (i + 1) n acc'

-- An error of `AggregateSignatures` panics.
module _ (aggregate_signatures : List Bytes → Option Bytes) where
  unfoldable pub get_maj23_aggre_sig : VoteSet → Call (Bytes × Bytes)
  unfolding collect_from new_bit_vector byte
  get_maj23_aggre_sig vs = do
    acc ← collect_from vs 0 vs.validator_num ([], new_bit_vector (pos vs.validator_num))
    sig ← read_elem (aggregate_signatures acc.0)
    returns (sig, byte acc.1)
