-- ===== src/Tests/Lifecycle.antt =====
-- Runs of the entry points on a sample will.
use sorowill_contracts.Prelude.{
  ℕ, ◌+◌, ◌*◌, ◌≤◌, ◌<◌, ◌≡◌, refl, Bool, true, false, Option, none, some, List, [], ◌∷◌, ◌==◌,
  arith, update, if◌then◌else◌,
}
use sorowill_contracts.Prelude.Int.{ℤ, pos}
use sorowill_contracts.Errors.{ok}
use sorowill_contracts.Types.{
  Will, active, triggered, released, cancelled, settled, deceased, fixed_amount,
}
use sorowill_contracts.Env.{Env, encoded}
use sorowill_contracts.Storage.Votes.{
  seconds_per_day, has_guardian_voted, has_guardian_cancel_voted,
}
use sorowill_contracts.Storage.Wills.{load_will}
use sorowill_contracts.Storage.Wills.Saves.{wills_of}
use sorowill_contracts.Distribute.Plan.{percentage_count, fixed_part, pay_fixed}
use sorowill_contracts.Contract.Trigger.{trigger_will, emergency_checkin}
use sorowill_contracts.Contract.Trigger.Outcome.{
  checkin_deadline, grace_end, trigger_will-outcome, emergency_checkin-outcome,
  release_inheritance-late, emergency_checkin-excludes-release_inheritance,
}
use sorowill_contracts.Contract.Release.{release_inheritance}
use sorowill_contracts.Contract.Release.Stuck.{release_inheritance-fails}
use sorowill_contracts.Contract.Cancel.{close_will}
use sorowill_contracts.Contract.Guardian.{
  guardian_cooldown_days, find_guardian, guardian_trigger, guardian_cancel_trigger,
}
use sorowill_contracts.Contract.Guardian.Guards.{
  has_accepted, guardian_trigger-guards, guardian_cancel_trigger-guards,
}
use sorowill_contracts.Contract.Transition.Calls.{run, trigger_will_call, close_will_call, IsKeyed}
use sorowill_contracts.Contract.Transition.Traces.{
  stop, next, call, Later, is_paid_out, Trace-Later, Trace-is_final, Trace-is_paid_out,
}
use sorowill_contracts.Prelude.{ℕ, length, All}
use sorowill_contracts.Contract.Checkin.{max_batch_check_in, batch_check_in}
use sorowill_contracts.Contract.Checkin.Batch.{are_distinct, IsCheckable, batch_check_in-requires}
use sorowill_contracts.Tests.Sample.{heir, second_heir, will, state, after}

-- Past the deadline.
abbrev due : Env
due = state 3000000 (will active none)

abbrev triggered_state : Env
triggered_state = after due (trigger_will 1 due)

triggers : trigger_will 1 due ≡ ok (tt, triggered_state)
unfolding trigger_will load_will sorowill_contracts.Validation.assert_status
    sorowill_contracts.Validation.days_after sorowill_contracts.Validation.grace_deadline
    sorowill_contracts.Storage.Wills.save_will sorowill_contracts.Storage.History.record_transition
    sorowill_contracts.Storage.Indexes.index_triggered_will
triggers = refl

loads_due : load_will 1 due ≡ ok (will active none)
unfolding load_will
loads_due = refl

due-IsKeyed : IsKeyed due
unfolding IsKeyed
due-IsKeyed id w h = ground arith

Trace-Later_example : Later (will active none) (wills_of triggered_state 1)
unfolding run trigger_will
Trace-Later_example =
    Trace-Later (next (call trigger_will_call 1 triggers) stop) due-IsKeyed 1 (will active none)
      refl

-- A cancelled will and one that is due, of another id.
abbrev over : Env
over = record due {
  wills = λ i.
      if i == 1
      then some (encoded (will cancelled none))
      else (if i == 2 then some (encoded (record (will active none) { id = 2 })) else none);
}

abbrev after_over : Env
after_over = after over (trigger_will 2 over)

triggers_other : trigger_will 2 over ≡ ok (tt, after_over)
unfolding trigger_will load_will sorowill_contracts.Validation.assert_status
    sorowill_contracts.Validation.days_after sorowill_contracts.Validation.grace_deadline
    sorowill_contracts.Storage.Wills.save_will sorowill_contracts.Storage.History.record_transition
    sorowill_contracts.Storage.Indexes.index_triggered_will
triggers_other = refl

over-IsKeyed : IsKeyed over
unfolding IsKeyed
over-IsKeyed id w h = ground arith

Trace-is_final_example : wills_of after_over 1 ≡ some (encoded (will cancelled none))
unfolding run trigger_will
Trace-is_final_example =
    Trace-is_final (next (call trigger_will_call 2 triggers_other) stop) over-IsKeyed 1
      (will cancelled none) refl refl

abbrev paid : Env
paid = state 100 (will released none)

abbrev closed : Env
closed = after paid (close_will 1 10 paid)

closes : close_will 1 10 paid ≡ ok (tt, closed)
unfolding close_will sorowill_contracts.Validation.load_owned load_will
    sorowill_contracts.Validation.assert_status sorowill_contracts.Storage.Wills.save_will
    sorowill_contracts.Storage.History.record_transition
closes = refl

closed_will : wills_of closed 1 ≡ some (encoded (will settled none))
unfolding close_will sorowill_contracts.Validation.load_owned load_will
    sorowill_contracts.Validation.assert_status sorowill_contracts.Storage.Wills.save_will
    sorowill_contracts.Storage.History.record_transition
closed_will = refl

paid-IsKeyed : IsKeyed paid
unfolding IsKeyed
paid-IsKeyed id w h = ground arith

Trace-is_paid_out_example : is_paid_out settled ≡ true
unfolding run close_will
Trace-is_paid_out_example =
    Trace-is_paid_out (next (call (close_will_call 10) 1 closes) stop) paid-IsKeyed 1
      (will released none) (will settled none) refl closed_will refl

trigger_will-outcome_example :
    (active ≡ active)
    × (checkin_deadline (will active none) ≤ 3000000)
    × (triggered_state.wills ≡ update due.wills 1 (some (encoded (will triggered (some 2593000)))))
    × (triggered_state.owner_wills ≡ due.owner_wills)
    × (triggered_state.protocol_stats ≡ due.protocol_stats)
    × (triggered_state.transfers ≡ due.transfers)
trigger_will-outcome_example =
    trigger_will-outcome 1 due triggered_state (will active none) loads_due triggers

-- In the grace period, and after it.
abbrev in_grace : Env
in_grace = state 2600000 (will triggered (some 2593000))

abbrev recovered : Env
recovered = after in_grace (emergency_checkin 1 10 in_grace)

recovers : emergency_checkin 1 10 in_grace ≡ ok (tt, recovered)
unfolding emergency_checkin sorowill_contracts.Validation.load_owned load_will
    sorowill_contracts.Validation.assert_status sorowill_contracts.Validation.grace_deadline
    sorowill_contracts.Storage.Wills.save_will
    sorowill_contracts.Storage.Votes.reset_guardian_cancel_votes
    sorowill_contracts.Storage.Votes.reset_guardian_votes
    sorowill_contracts.Storage.History.record_transition
    sorowill_contracts.Storage.Indexes.unindex_triggered_will
recovers = refl

loads_in_grace : load_will 1 in_grace ≡ ok (will triggered (some 2593000))
unfolding load_will
loads_in_grace = refl

emergency_checkin-outcome_example :
    (true ≡ true)
    × ((will triggered (some 2593000)).owner ≡ 10)
    × (triggered ≡ triggered)
    × (2600000 ≤ grace_end 2593000 (will triggered (some 2593000)))
    × (recovered.wills
        ≡ update in_grace.wills 1
            (some (encoded (record (will active none) { last_checkin = 2600000 }))))
    × (recovered.transfers ≡ in_grace.transfers)
unfolding sorowill_contracts.Types.Balances.get_or_zero
emergency_checkin-outcome_example =
    emergency_checkin-outcome 1 10 in_grace recovered (will triggered (some 2593000)) 2593000
      loads_in_grace refl recovers

emergency_checkin-excludes-release_inheritance_example :
    ¬ (release_inheritance 1 none in_grace ≡ ok (tt, in_grace))
emergency_checkin-excludes-release_inheritance_example =
    emergency_checkin-excludes-release_inheritance 1 10 none in_grace recovered in_grace
      (will triggered (some 2593000)) 2593000 loads_in_grace refl recovers

abbrev after_grace : Env
after_grace = state 9000000 (will triggered (some 2593000))

loads_after_grace : load_will 1 after_grace ≡ ok (will triggered (some 2593000))
unfolding load_will
loads_after_grace = refl

some_percentage : 1 ≤ percentage_count (heir ∷ second_heir ∷ [])
unfolding percentage_count
some_percentage = omega arith

remains : fixed_part (will triggered (some 2593000)) 5 (pos 1000) ≡ ok (pos 1000, [])
unfolding pay_fixed
remains = refl

release_inheritance-fails_example :
    ¬ (release_inheritance 1 none after_grace ≡ ok (tt, after_grace))
release_inheritance-fails_example =
    release_inheritance-fails 1 none after_grace after_grace (will triggered (some 2593000)) 5 999
      999 [] [] loads_after_grace refl refl refl some_percentage remains

abbrev fixed_will : Will
fixed_will = record (will triggered (some 2593000)) {
  beneficiaries = record { address = 20; allocation = fixed_amount (pos 400) } ∷ [];
}

abbrev fixed_state : Env
fixed_state = state 9000000 fixed_will

abbrev fixed_released : Env
fixed_released = after fixed_state (release_inheritance 1 none fixed_state)

releases : release_inheritance 1 none fixed_state ≡ ok (tt, fixed_released)
unfolding release_inheritance load_will sorowill_contracts.Validation.assert_status
    sorowill_contracts.Validation.grace_deadline sorowill_contracts.Validation.grace_elapsed
    sorowill_contracts.Storage.History.record_transition sorowill_contracts.Prelude.Int.◌-ℤ◌
    sorowill_contracts.Storage.Stats.adjust_locked_value
    sorowill_contracts.Validation.assert_release_preconditions
    sorowill_contracts.Distribute.Payout.distribute sorowill_contracts.Shares.assert_payout_budget
    sorowill_contracts.Distribute.Plan.should_pay_bounty
    sorowill_contracts.Distribute.Plan.plan_tokens
    sorowill_contracts.Validation.unclaimed_hashed_bps sorowill_contracts.Prelude.Int.max_ℤ
    sorowill_contracts.Prelude.Int.min_ℤ sorowill_contracts.Prelude.Int.◌+ℤ◌
    sorowill_contracts.Contract.Release.acquire sorowill_contracts.Contract.Release.release
    sorowill_contracts.Contract.Release.unlock_balance
    sorowill_contracts.Contract.Release.unlock_balances
    sorowill_contracts.Distribute.Payout.pay_bounty
    sorowill_contracts.Distribute.Payout.pay_if_positive
    sorowill_contracts.Distribute.Payout.pay_or_record_failure
    sorowill_contracts.Distribute.Payout.pay_plan sorowill_contracts.Distribute.Payout.pay_refunds
    sorowill_contracts.Distribute.Payout.pay_shares
    sorowill_contracts.Distribute.Payout.released_will
    sorowill_contracts.Distribute.Payout.remove_beneficiary_indexes
    sorowill_contracts.Distribute.Payout.settle sorowill_contracts.Distribute.Payout.terms_of
    sorowill_contracts.Distribute.Plan.add_refunds sorowill_contracts.Distribute.Plan.add_shares
    sorowill_contracts.Distribute.Plan.check_planned pay_fixed
    sorowill_contracts.Distribute.Plan.pay_percentages percentage_count
    sorowill_contracts.Distribute.Plan.pick_bounty sorowill_contracts.Distribute.Plan.plan_balance
    sorowill_contracts.Prelude.Int.div_ℤ sorowill_contracts.Prelude.Int.mod_ℤ
    sorowill_contracts.Prelude.Int.◌*ℤ◌ sorowill_contracts.Prelude.contains
    sorowill_contracts.Prelude.Words.saturating_add_u32 sorowill_contracts.Shares.keeper_bounty
    sorowill_contracts.Shares.min_one_unit_share sorowill_contracts.Shares.proportional_share
    sorowill_contracts.Storage.History.append_history
    sorowill_contracts.Storage.History.next_history_seq sorowill_contracts.Storage.History.trim
    sorowill_contracts.Storage.Indexes.remove_beneficiary_index
    sorowill_contracts.Storage.Indexes.remove_first sorowill_contracts.Storage.Indexes.remove_index
    sorowill_contracts.Storage.Indexes.remove_owner_index
    sorowill_contracts.Storage.Indexes.remove_triggered
    sorowill_contracts.Storage.Indexes.unindex_triggered_will
    sorowill_contracts.Storage.Indexes.without sorowill_contracts.Storage.Stats.adjust_entries
    sorowill_contracts.Storage.Stats.adjust_locked_for_balances
    sorowill_contracts.Storage.Stats.adjust_unless_zero sorowill_contracts.Storage.Stats.adjusted
    sorowill_contracts.Storage.Stats.decrement_active_will_count
    sorowill_contracts.Storage.Wills.decode_will sorowill_contracts.Storage.Wills.forget_removed
    sorowill_contracts.Storage.Wills.is_guardian sorowill_contracts.Storage.Wills.save_will
    sorowill_contracts.Storage.Wills.set_failed_payout sorowill_contracts.Types.Balances.get
    sorowill_contracts.Types.Balances.get_or_zero sorowill_contracts.Types.Balances.set
    sorowill_contracts.Validation.days_after
releases = refl

loads_fixed : load_will 1 fixed_state ≡ ok fixed_will
unfolding load_will
loads_fixed = refl

release_inheritance-late_example :
    (triggered ≡ triggered) × (grace_end 2593000 fixed_will < 9000000)
release_inheritance-late_example =
    release_inheritance-late 1 none fixed_state fixed_released fixed_will 2593000 loads_fixed refl
      releases

abbrev voted : Env
voted = after due (guardian_trigger 1 30 deceased due)

votes : guardian_trigger 1 30 deceased due ≡ ok (tt, voted)
unfolding guardian_trigger load_will sorowill_contracts.Validation.assert_status
    sorowill_contracts.Validation.days_after has_guardian_voted
    sorowill_contracts.Storage.Wills.save_will sorowill_contracts.Storage.Votes.set_guardian_voted
votes = refl

guardian_trigger-guards_example :
    (true ≡ true)
    × (active ≡ active)
    × (1000 + guardian_cooldown_days * seconds_per_day ≤ 3000000)
    × (has_guardian_voted 1 30 3000000 7 due ≡ false)
    × (has_accepted (find_guardian (will active none).guardians 30) ≡ true)
guardian_trigger-guards_example =
    guardian_trigger-guards 1 30 deceased due voted (will active none) loads_due votes

abbrev cancel_voted : Env
cancel_voted = after in_grace (guardian_cancel_trigger 1 30 in_grace)

cancel_votes : guardian_cancel_trigger 1 30 in_grace ≡ ok (tt, cancel_voted)
unfolding guardian_cancel_trigger load_will sorowill_contracts.Validation.assert_status
    sorowill_contracts.Validation.days_after has_guardian_cancel_voted
    sorowill_contracts.Storage.Wills.save_will
    sorowill_contracts.Storage.Votes.set_guardian_cancel_voted
cancel_votes = refl

guardian_cancel_trigger-guards_example :
    (true ≡ true)
    × (triggered ≡ triggered)
    × (2600000 ≤ 2593000 + 7 * seconds_per_day)
    × (1000 + guardian_cooldown_days * seconds_per_day ≤ 2600000)
    × (has_guardian_cancel_voted 1 30 2600000 7 in_grace ≡ false)
    × (has_accepted (find_guardian (will triggered (some 2593000)).guardians 30) ≡ true)
guardian_cancel_trigger-guards_example =
    guardian_cancel_trigger-guards 1 30 in_grace cancel_voted (will triggered (some 2593000))
      2593000 loads_in_grace refl cancel_votes

batch_checks_in :
    batch_check_in (1 ∷ []) 10 due ≡ ok (tt, after due (batch_check_in (1 ∷ []) 10 due))
unfolding batch_check_in sorowill_contracts.Validation.load_owned load_will
    sorowill_contracts.Validation.assert_status sorowill_contracts.Validation.days_after
    sorowill_contracts.Storage.Wills.save_will sorowill_contracts.Storage.History.record_transition
batch_checks_in = refl

batch_check_in-requires_example :
    (true ≡ true)
    × (length {A = ℕ} (1 ∷ []) ≤ max_batch_check_in)
    × (are_distinct (1 ∷ []) ≡ true)
    × All (IsCheckable 10 due) (1 ∷ [])
batch_check_in-requires_example =
    batch_check_in-requires (1 ∷ []) 10 due (after due (batch_check_in (1 ∷ []) 10 due))
      batch_checks_in
