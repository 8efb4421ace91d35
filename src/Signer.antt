-- ===== src/Signer.antt =====
-- source/utils/signer/bls.go: verification against the keys of a shard. The BLS library is a
-- parameter: whether a signature verifies under the key at an index, or under the sum of the keys
-- at some indices. Keys are deserialised by `NewVerifier`, so none is nil.
use urd_code.Prelude.{
  ℕ, zero, suc, ◌+◌, Bool, false, ◌&&◌, Option, List, [], ◌∷◌, if◌then◌else◌, ltb, ◌==◌,
}
use urd_code.Prelude.Int.{ℤ, pos, negsuc}
use urd_code.Prelude.Bytes.{Bytes}
use urd_code.Prelude.Calls.{Call, returns, panics, ◌>>=◌}
use urd_code.BitVector.{BitVector, size, get_index, new_bit_array_from_byte}

pub record Verifier : Type 0 where
  pub keys : ℕ
  pub verifies : ℕ → Bytes → Bytes → Bool
  pub verifies_sum : List ℕ → Bytes → Bytes → Bool

-- A negative index passes the guard and panics at the slice.
unfoldable pub verify : Verifier → Bytes → Bytes → ℤ → Call Bool
verify s sig msg (pos i) = returns (ltb i s.keys && s.verifies i sig msg)
verify s sig msg (negsuc _) = panics

-- The indices of the set bits: the keys that the loop adds up.
unfoldable pub named_from : Option BitVector → ℕ → ℕ → Call (List ℕ)
unfolding get_index
named_from bm i zero = returns []
named_from bm i (suc n) = do
  b ← get_index bm (pos i)
  rest ← named_from bm (i + 1) n
  returns (if b then i ∷ rest else rest)

abbrev check_sum : Verifier → Bytes → Bytes → Option BitVector → Call Bool
check_sum s sig msg bm = do
  named ← named_from bm 0 (size bm)
  returns (s.verifies_sum named sig msg)

unfoldable pub verify_aggregate_signature : Verifier → Bytes → Bytes → Bytes → Call Bool
unfolding new_bit_array_from_byte named_from size
verify_aggregate_signature s sig msg bytes = do
  bm ← new_bit_array_from_byte bytes
  if s.keys == size bm then check_sum s sig msg bm else returns false
