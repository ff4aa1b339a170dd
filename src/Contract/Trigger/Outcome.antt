-- ===== src/Contract/Trigger/Outcome.antt =====
-- When `trigger_will` and `emergency_checkin` succeed and what they store, and that the grace period
-- divides the time between the owner and the heirs.
use sorowill_contracts.Prelude.{ℕ, ◌+◌, ◌*◌, ◌≤◌, ◌<◌, ◌≡◌, Option, none, some, true, update, arith}
use sorowill_contracts.Errors.{ok}
use sorowill_contracts.Types.{Address, Will, active, triggered}
use sorowill_contracts.Types.Balances.{get_or_zero}
use sorowill_contracts.Env.{Env, encoded}
use sorowill_contracts.Storage.Wills.{load_will, save_will}
use sorowill_contracts.Storage.Indexes.{index_triggered_will, unindex_triggered_will}
use sorowill_contracts.Storage.History.{record_transition, next_history_seq}
use sorowill_contracts.Storage.Votes.{
  seconds_per_day, reset_guardian_votes, reset_guardian_cancel_votes,
}
use sorowill_contracts.Validation.{
  load_owned, assert_status, days_after, grace_deadline, grace_elapsed,
}
use sorowill_contracts.Contract.Trigger.{trigger_will, sync_primary_balance, emergency_checkin}
use sorowill_contracts.Contract.Release.{acquire, release_inheritance}

abbrev pub checkin_deadline : Will → ℕ
checkin_deadline w = w.last_checkin + w.checkin_period_days * seconds_per_day

-- A successful trigger comes at or after the will's check-in deadline and finds the will active;
-- it stores the will with its status triggered, its trigger time the deadline and nothing else
-- changed, writes no other will, and moves no token, no index by owner and no statistic.
pub trigger_will-outcome :
    (id : ℕ) (env env' : Env) (w : Will)
    → load_will id env ≡ ok w
    → trigger_will id env ≡ ok (tt, env')
    → (w.status ≡ active)
      × (checkin_deadline w ≤ env.now)
      × (env'.wills
          ≡ update env.wills w.id (
              some (
                encoded
                  (record w { status = triggered; trigger_time = some (checkin_deadline w) }))))
      × (env'.owner_wills ≡ env.owner_wills)
      × (env'.protocol_stats ≡ env.protocol_stats)
      × (env'.transfers ≡ env.transfers)
unfolding trigger_will assert_status save_will record_transition next_history_seq days_after
    index_triggered_will
trigger_will-outcome id env env' w e h = ground arith

-- The end of the grace period of a triggered will.
abbrev pub grace_end : ℕ → Will → ℕ
grace_end trigger_time w = trigger_time + w.grace_period_days * seconds_per_day

pub emergency_checkin-outcome :
    (id : ℕ) (owner : Address) (env env' : Env) (w : Will) (t : ℕ)
    → load_will id env ≡ ok w
    → w.trigger_time ≡ some t
    → emergency_checkin id owner env ≡ ok (tt, env')
    → (env.authorized owner ≡ true)
      × (w.owner ≡ owner)
      × (w.status ≡ triggered)
      × (env.now ≤ grace_end t w)
      × (env'.wills
          ≡ update env.wills w.id (
              some (
                encoded (record w {
                  status = active;
                  trigger_time = none;
                  last_checkin = env.now;
                  balance = get_or_zero w.balances w.token;
                  guardian_vote_weight = 0;
                  guardian_votes = 0;
                  guardian_cancel_vote_weight = 0;
                  guardian_cancel_votes = 0;
                }))))
      × (env'.transfers ≡ env.transfers)
unfolding emergency_checkin sync_primary_balance load_owned assert_status save_will
    record_transition next_history_seq days_after grace_deadline unindex_triggered_will
    reset_guardian_votes reset_guardian_cancel_votes
emergency_checkin-outcome id owner env env' w t e f h = ground arith

-- On a will with a trigger time: a release succeeds only on a triggered will, strictly after the
-- end of its grace period.
pub release_inheritance-late :
    (id : ℕ) (caller : Option Address) (env env' : Env) (w : Will) (t : ℕ)
    → load_will id env ≡ ok w
    → w.trigger_time ≡ some t
    → release_inheritance id caller env ≡ ok (tt, env')
    → (w.status ≡ triggered) × (grace_end t w < env.now)
unfolding release_inheritance acquire load_will assert_status grace_deadline days_after
    grace_elapsed
release_inheritance-late id caller env env' w t e f h = ground arith

-- At one and the same time the owner can recover a will that has a trigger time or the heirs can
-- release it, never both: `emergency_checkin` and `release_inheritance` do not both succeed on one
-- state of the contract.
pub emergency_checkin-excludes-release_inheritance :
    (id : ℕ) (owner : Address) (caller : Option Address) (env env₁ env₂ : Env) (w : Will) (t : ℕ)
    → load_will id env ≡ ok w
    → w.trigger_time ≡ some t
    → emergency_checkin id owner env ≡ ok (tt, env₁)
    → ¬ (release_inheritance id caller env ≡ ok (tt, env₂))
emergency_checkin-excludes-release_inheritance id owner caller env env₁ env₂ w t e f h k =
    let (_, _, _, before, _, _) = emergency_checkin-outcome id owner env env₁ w t e f h in
    let (_, late) = release_inheritance-late id caller env env₂ w t e f k in omega arith
