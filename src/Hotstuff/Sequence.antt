-- ===== src/Hotstuff/Sequence.antt =====
-- source/core/hotstuff/height_datas.go: the quorum after a sequence of votes.
use urd_code.Prelude.{◌≡◌, none, List, [], ◌∷◌}
use urd_code.Prelude.Calls.{Call, returns, ◌>>=◌}
use urd_code.BitVector.{BitVector}
use urd_code.Hotstuff.Votes.{Vote, Wire, validate_basic}
use urd_code.Hotstuff.Package.{HeightDataPackage, add_vote}

-- The votes of a sequence are added one after the other.
unfoldable pub add_votes : Wire → HeightDataPackage → List Vote → Call HeightDataPackage
unfolding add_vote
add_votes wire hdp [] = returns hdp
add_votes wire hdp (vote ∷ votes) = do (hdp', _) ← add_vote wire hdp vote; add_votes wire hdp' votes

abbrev pub AllBasic : List Vote → Type 0
AllBasic [] = Unit
AllBasic (vote ∷ votes) = (validate_basic vote ≡ none) × AllBasic votes
