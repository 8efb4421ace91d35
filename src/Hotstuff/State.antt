-- ===== src/Hotstuff/State.antt =====
-- source/core/hotstuff/main.go: the state of views and rounds over the package of the present one.
-- Each operation on a package that was never made panics at the nil pointer.
use urd_code.Prelude.{Bool, Option, none, some, List}
use urd_code.Prelude.{ℕ}
use urd_code.Prelude.Int.{ℤ, pos, suc_ℤ}
use urd_code.Prelude.Bytes.{Bytes}
use urd_code.Prelude.Calls.{Call, returns, panics, ◌>>=◌}
use urd_code.Signer.{Verifier}
use urd_code.Hotstuff.Votes.{Error, Vote, AggregatedVote, Wire}
use urd_code.Hotstuff.Package.{
  HeightDataPackage, new_height_data_package, is_quorum, add_vote, get_maj23, validate_aggregated,
}
use urd_code.Hotstuff.Package

pub record State : Type 0 where
  pub view : ℤ
  pub round : ℤ
  pub signer_index : ℤ
  pub height_datas : Option HeightDataPackage
  pub validator_set : Verifier
  pub per_votes : List ℕ

unfoldable pub new_state : ℤ → ℤ → ℤ → Verifier → List ℕ → State
new_state view round index vs per_votes = record {
  view = view;
  round = round;
  signer_index = index;
  height_datas = none;
  validator_set = vs;
  per_votes = per_votes;
}

abbrev pub fresh_package : State → HeightDataPackage
fresh_package s = new_height_data_package s.validator_set s.per_votes s.view s.round

abbrev or_package : State → HeightDataPackage
or_package s = elim s.height_datas [ none ↦ fresh_package s | some h ↦ h ]

unfoldable pub set_hash : State → Bytes → State
set_hash s hash = record s { height_datas = some (record (or_package s) { proposal_hash = hash }) }

unfoldable pub update_validators : State → Verifier → List ℕ → State
update_validators s vs per_votes = record s { validator_set = vs; per_votes = per_votes }

-- The package is made for the new view and round; the assignment of both after that repeats it.
abbrev renew : State → State
renew s = record s {
  height_datas = some (record (fresh_package s) { view = s.view; round = s.round });
}

unfoldable pub enter_new_round : State → State
unfolding new_height_data_package
enter_new_round s = renew (record s { round = suc_ℤ s.round })

unfoldable pub enter_new_view : State → State
unfolding new_height_data_package
enter_new_view s = renew (record s { view = suc_ℤ s.view; round = pos 0 })

abbrev pub with_package {ℓ} : {A : Type ℓ} → State → (HeightDataPackage → Call A) → Call A
with_package s f = elim s.height_datas [ none ↦ panics | some h ↦ f h ]

module _ (wire : Wire) where
  unfoldable pub state_add_vote : State → Vote → Call (State × Option Error)
  unfolding Package.add_vote
  state_add_vote s vote =
      with_package s
        λ h. do r ← add_vote wire h vote; returns (record s { height_datas = some r.0 }, r.1)

  unfoldable pub state_validate_aggregated : State → AggregatedVote → Call (State × Option Error)
  unfolding Package.validate_aggregated
  state_validate_aggregated s agg = with_package s λ h. do
    r ← validate_aggregated wire h agg
    returns (record s { height_datas = some r.0 }, r.1)

unfoldable pub state_is_quorum : State → Call Bool
unfolding Package.is_quorum
state_is_quorum s = with_package s (λ h. returns (is_quorum h))

module _ (aggregate_signatures : List Bytes → Option Bytes) where
  unfoldable pub state_get_maj23 : State → Call (State × Option AggregatedVote × Option Error)
  unfolding Package.get_maj23
  state_get_maj23 s = with_package s λ h. do
    r ← get_maj23 aggregate_signatures h
    returns (record s { height_datas = some r.0 }, r.1, r.2)
