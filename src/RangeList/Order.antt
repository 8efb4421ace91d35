-- ===== src/RangeList/Order.antt =====
-- source/utils/RangeList.go: the order of Go's strings.
use urd_code.Prelude.{◌≡◌, refl, true, false, ◌∷◌, [], arith}
use urd_code.Prelude.Bytes.{Bytes}
use urd_code.RangeList.{str_ltb}

pub ltb_irrefl : (a : Bytes) → str_ltb a a ≡ false
unfolding str_ltb
ltb_irrefl [] = refl
ltb_irrefl (a ∷ as') = ground (arith, ltb_irrefl as')

pub ltb_trans : (a b c : Bytes) → str_ltb a b ≡ true → str_ltb b c ≡ true → str_ltb a c ≡ true
unfolding str_ltb
ltb_trans [] [] c h k = ground arith
ltb_trans [] (b ∷ bs) [] h k = ground arith
ltb_trans [] (b ∷ bs) (c ∷ cs) h k = refl
ltb_trans (a ∷ as') [] c h k = ground arith
ltb_trans (a ∷ as') (b ∷ bs) [] h k = ground arith
ltb_trans (a ∷ as') (b ∷ bs) (c ∷ cs) h k = ground (arith, ltb_trans as' bs cs)

-- Two strings neither of which is below the other are equal.
pub ltb_connex : (a b : Bytes) → str_ltb a b ≡ false → str_ltb b a ≡ false → a ≡ b
unfolding str_ltb
ltb_connex [] [] h k = refl
ltb_connex [] (b ∷ bs) h k = ground arith
ltb_connex (a ∷ as') [] h k = ground arith
ltb_connex (a ∷ as') (b ∷ bs) h k = ground (arith, ltb_connex as' bs)

pub ltb_asym : (a b : Bytes) → str_ltb a b ≡ true → str_ltb b a ≡ false
ltb_asym a b h = ground (arith, ltb_trans a b a h, ltb_irrefl a)

-- `a < b` and `b <= c`.
pub ltb_leb_trans : (a b c : Bytes) → str_ltb a b ≡ true → str_ltb c b ≡ false → str_ltb a c ≡ true
ltb_leb_trans a b c h k = ground (arith, ltb_trans c a b, ltb_connex a c, ltb_trans a b c)

-- `a <= b` and `b < c`.
pub leb_ltb_trans : (a b c : Bytes) → str_ltb b a ≡ false → str_ltb b c ≡ true → str_ltb a c ≡ true
leb_ltb_trans a b c h k =
    ground (arith, ltb_trans b c a, ltb_connex a c, ltb_trans a b c, ltb_connex a b)
