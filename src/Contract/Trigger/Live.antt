-- ===== src/Contract/Trigger/Live.antt =====
-- When a will can be triggered.
use sorowill_contracts.Prelude.{
  ℕ, ◌+◌, ◌*◌, ◌<◌, ◌≤◌, ◌≡◌, refl, Bool, true, false, Option, some, ltb, arith,
}
use sorowill_contracts.Prelude.Words.{u64_max}
use sorowill_contracts.Errors.{will_not_active, Result, ok, err}
use sorowill_contracts.Types.{Will, active}
use sorowill_contracts.Env.Action.{add_u64}
use sorowill_contracts.Env.{Env, encoded}
use sorowill_contracts.Storage.Wills.{load_will, decode_will, save_will}
use sorowill_contracts.Storage.Indexes.{index_triggered_will}
use sorowill_contracts.Storage.History.{record_transition, append_history, next_history_seq}
use sorowill_contracts.Storage.Stats.{id_or_zero}
use sorowill_contracts.Storage.Votes.{seconds_per_day}
use sorowill_contracts.Validation.{assert_status, days_after, grace_deadline}
use sorowill_contracts.Contract.Trigger.{triggered_will, trigger_will}
use sorowill_contracts.Contract.Trigger.Outcome.{checkin_deadline}

abbrev pub has_succeeded : Result (Unit {0} × Env) → Bool
has_succeeded (ok _) = true
has_succeeded (err _) = false

loads_stored :
    (id : ℕ) (env : Env) (w : Will) → env.wills id ≡ some (encoded w) → load_will id env ≡ ok w
unfolding load_will decode_will
loads_stored id env w stored = rw stored refl

is_active : (w : Will) → w.status ≡ active → assert_status w active will_not_active ≡ ok tt
unfolding assert_status
is_active w e = rw e refl

days_fit :
    (start days : ℕ)
    → start + days * seconds_per_day ≤ u64_max
    → days_after start days ≡ ok (start + days * seconds_per_day)
unfolding days_after
days_fit start days fits = ground arith

numbered :
    (entry : Option ℕ)
    → id_or_zero entry < u64_max
    → add_u64 (id_or_zero entry) 1 ≡ ok (id_or_zero entry + 1)
numbered entry fits = ground arith

-- The end of the grace period that the trigger would start.
abbrev pub grace_end : Will → ℕ
grace_end w = checkin_deadline w + w.grace_period_days * seconds_per_day

grace_fits :
    (w : Will)
    → grace_end w ≤ u64_max
    → grace_deadline (triggered_will w (checkin_deadline w)) ≡ ok (grace_end w)
unfolding grace_deadline
grace_fits w fits =
    rw
      (
        days_fit w.last_checkin w.checkin_period_days (omega arith),
        days_fit (checkin_deadline w) w.grace_period_days (omega arith),
      )
      refl

-- An active will that is stored under its own id can be triggered by anybody from its check-in
-- deadline on, where the end of the grace period and the next number of its audit trail fit in a
-- u64: the call succeeds.
pub trigger_will-succeeds :
    (env : Env) (w : Will)
    → env.wills w.id ≡ some (encoded w)
    → w.status ≡ active
    → checkin_deadline w ≤ env.now
    → grace_end w ≤ u64_max
    → id_or_zero (env.will_history_seq w.id) < u64_max
    → has_succeeded (trigger_will w.id env) ≡ true
unfolding trigger_will save_will record_transition append_history next_history_seq
    index_triggered_will
trigger_will-succeeds env w stored status due fits seq =
    let not_early : ltb env.now (checkin_deadline w) ≡ false = ground arith in
    rw
      (
        loads_stored w.id env w stored,
        is_active w status,
        days_fit w.last_checkin w.checkin_period_days (omega arith),
        not_early,
        grace_fits w fits,
      )
      (ground (arith, stored, numbered (env.will_history_seq w.id) seq))
