-- ===== src/Contract/Guardian/Guards.antt =====
-- What the votes of the guardians require.
use sorowill_contracts.Prelude.{
  ℕ, ◌+◌, ◌*◌, ◌≤◌, ◌≡◌, Bool, true, false, ◌&&◌, Option, none, some, List, [], ◌∷◌, arith, min,
  if◌then◌else◌,
}
use sorowill_contracts.Prelude.Words.{u32_max, saturating_add_u32}
use sorowill_contracts.Errors.{ok}
use sorowill_contracts.Types.{
  Address, Guardian, GuardianVoteReason, Will, active, triggered, accepted, is_consent,
}
use sorowill_contracts.Env.{Env}
use sorowill_contracts.Storage.Wills.{load_will}
use sorowill_contracts.Storage.Votes.{
  seconds_per_day, has_guardian_voted, has_guardian_cancel_voted,
}
use sorowill_contracts.Validation.{assert_status, days_after}
use sorowill_contracts.Contract.Guardian.{
  guardian_cooldown_days, find_guardian, consented_weight, tally_guardian_votes,
  assert_cooldown_over, guardian_trigger, guardian_cancel_trigger,
}

-- Whether a guardian is in the list and has accepted the role.
abbrev pub has_accepted : Option Guardian → Bool
has_accepted none = false
has_accepted (some g) = is_consent g.consent accepted

-- A vote to release succeeds only for a guardian who signs it, stands in the will's list, has
-- accepted the role and has no live vote, on an active will, seven days or more after the list of
-- guardians was last changed.
pub guardian_trigger-guards :
    (id : ℕ) (guardian : Address) (reason : GuardianVoteReason) (env env' : Env) (w : Will)
    → load_will id env ≡ ok w
    → guardian_trigger id guardian reason env ≡ ok (tt, env')
    → (env.authorized guardian ≡ true)
      × (w.status ≡ active)
      × (w.guardian_list_updated_at + guardian_cooldown_days * seconds_per_day ≤ env.now)
      × (has_guardian_voted id guardian env.now w.grace_period_days env ≡ false)
      × (has_accepted (find_guardian w.guardians guardian) ≡ true)
unfolding guardian_trigger assert_status assert_cooldown_over days_after consented_weight
guardian_trigger-guards id guardian reason env env' w e h = ground arith

-- On a will with a trigger time: a vote to cancel succeeds only for such a guardian without a live
-- cancel vote, on a triggered will, at or before the end of its grace period.
pub guardian_cancel_trigger-guards :
    (id : ℕ) (guardian : Address) (env env' : Env) (w : Will) (t : ℕ)
    → load_will id env ≡ ok w
    → w.trigger_time ≡ some t
    → guardian_cancel_trigger id guardian env ≡ ok (tt, env')
    → (env.authorized guardian ≡ true)
      × (w.status ≡ triggered)
      × (env.now ≤ t + w.grace_period_days * seconds_per_day)
      × (w.guardian_list_updated_at + guardian_cooldown_days * seconds_per_day ≤ env.now)
      × (has_guardian_cancel_voted id guardian env.now w.grace_period_days env ≡ false)
      × (has_accepted (find_guardian w.guardians guardian) ≡ true)
unfolding guardian_cancel_trigger assert_status assert_cooldown_over days_after consented_weight
guardian_cancel_trigger-guards id guardian env env' w t e f h = ground arith

-- The guardians whose votes a tally counts, and their weight without a bound.
abbrev counted : (Address → Bool) → Guardian → Bool
counted has_voted g = is_consent g.consent accepted && has_voted g.address

unfoldable count : (Address → Bool) → List Guardian → ℕ
count has_voted [] = 0
count has_voted (g ∷ gs) = count has_voted gs + (if counted has_voted g then 1 else 0)

unfoldable weight_of : (Address → Bool) → List Guardian → ℕ
weight_of has_voted [] = 0
weight_of has_voted (g ∷ gs) =
    weight_of has_voted gs + (if counted has_voted g then g.weight else 0)

tally_from :
    (has_voted : Address → Bool) (gs : List Guardian) (votes weight : ℕ)
    → weight ≤ u32_max
    → tally_guardian_votes has_voted gs votes weight
      ≡ (votes + count has_voted gs, min (weight + weight_of has_voted gs) u32_max)
unfolding tally_guardian_votes count weight_of saturating_add_u32
tally_from has_voted [] votes weight fits = ground arith
tally_from has_voted (g ∷ gs) votes weight fits = ground (
  arith,
  tally_from has_voted gs (votes + 1) (saturating_add_u32 weight g.weight),
  tally_from has_voted gs votes weight,
)

-- The tally is the number of the guardians that have accepted and voted, and their total weight, or
-- the largest u32 if the total is above it.
tally_guardian_votes-eq :
    (has_voted : Address → Bool) (guardians : List Guardian)
    → tally_guardian_votes has_voted guardians 0 0
      ≡ (count has_voted guardians, min (weight_of has_voted guardians) u32_max)
tally_guardian_votes-eq has_voted guardians = ground (arith, tally_from has_voted guardians 0 0)
