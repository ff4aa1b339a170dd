-- ===== src/Contract/Transition/Lifecycle.antt =====
-- Each entry point of a will's life rewrites its one will along an edge of the state machine.
use sorowill_contracts.Prelude.{ℕ, ◌≡◌, refl, false, not, ◌&&◌, Option, arith}
use sorowill_contracts.Errors.{ok, will_not_active, will_not_triggered, will_not_released}
use sorowill_contracts.Types.{
  Address, Will, active, triggered, released, settled, cancelled, pending_confirmation, is_status,
  WillStatus,
}
use sorowill_contracts.Validation.{assert_status}
use sorowill_contracts.Contract.Create.{confirmed_will, confirm_will}
use sorowill_contracts.Contract.Checkin.{checked_in, check_in, set_delegate}
use sorowill_contracts.Contract.Trigger.{
  triggered_will, trigger_will, sync_primary_balance, reactivated_will, emergency_checkin,
}
use sorowill_contracts.Contract.Cancel.{cancelled_will, cancel_will, close_will}
use sorowill_contracts.Contract.Transition.Frame.{saves_rules}
use sorowill_contracts.Contract.Transition.Rules.{
  Follows, Edge, stay_active, confirm, trigger, recover, cancel_pending, cancel, close, Rewrites,
  assert_status-eq-ok,
}

triggered_will-Follows :
    (w : Will) (d : ℕ) {a : Unit {0}}
    → assert_status w active will_not_active ≡ ok a
    → Follows w (triggered_will w d)
triggered_will-Follows w d passed = record {
  same_id = refl;
  same_owner = refl;
  same_token = refl;
  edge = rw (assert_status-eq-ok w active will_not_active passed) trigger;
}

pub trigger_will-Rewrites : (id : ℕ) → Rewrites id (trigger_will id)
unfolding trigger_will
trigger_will-Rewrites id = search (saves_rules, triggered_will-Follows) depth 20

recovered_will-Follows :
    (w : Will) (now : ℕ) {a : Unit {0}}
    → assert_status w triggered will_not_triggered ≡ ok a
    → Follows w (sync_primary_balance (reactivated_will w now))
unfolding sync_primary_balance
recovered_will-Follows w now passed = record {
  same_id = refl;
  same_owner = refl;
  same_token = refl;
  edge = rw (assert_status-eq-ok w triggered will_not_triggered passed) recover;
}

pub emergency_checkin-Rewrites :
    (id : ℕ) (owner : Address) → Rewrites id (emergency_checkin id owner)
unfolding emergency_checkin
emergency_checkin-Rewrites id owner = search (saves_rules, recovered_will-Follows) depth 20

checked_in-Follows :
    (w : Will) (now : ℕ) {a : Unit {0}}
    → assert_status w active will_not_active ≡ ok a
    → Follows w (checked_in w now)
checked_in-Follows w now passed = record {
  same_id = refl;
  same_owner = refl;
  same_token = refl;
  edge = rw (assert_status-eq-ok w active will_not_active passed) stay_active;
}

pub check_in-Rewrites : (id : ℕ) (caller : Address) → Rewrites id (check_in id caller)
unfolding check_in
check_in-Rewrites id caller = search (saves_rules, checked_in-Follows) depth 20

delegated-Follows :
    (w : Will) (d : Option Address) {a : Unit {0}}
    → assert_status w active will_not_active ≡ ok a
    → Follows w (record w { delegate = d })
delegated-Follows w d passed = record {
  same_id = refl;
  same_owner = refl;
  same_token = refl;
  edge = rw (assert_status-eq-ok w active will_not_active passed) stay_active;
}

pub set_delegate-Rewrites :
    (id : ℕ) (owner : Address) (d : Option Address) → Rewrites id (set_delegate id owner d)
unfolding set_delegate
set_delegate-Rewrites id owner d = search (saves_rules, delegated-Follows) depth 20

confirmed_will-Follows :
    (w : Will) (now : ℕ)
    → not (is_status w.status pending_confirmation) ≡ false
    → Follows w (confirmed_will w now)
confirmed_will-Follows w now passed =
    let e : w.status ≡ pending_confirmation = ground arith in
    record { same_id = refl; same_owner = refl; same_token = refl; edge = rw e confirm }

pub confirm_will-Rewrites : (id : ℕ) (owner : Address) → Rewrites id (confirm_will id owner)
unfolding confirm_will
confirm_will-Rewrites id owner = search (saves_rules, confirmed_will-Follows) depth 24

cancel_edge :
    (s : WillStatus)
    → not (is_status s active) && not (is_status s pending_confirmation) ≡ false
    → Edge s cancelled
cancel_edge pending_confirmation h = cancel_pending
cancel_edge active h = cancel
cancel_edge triggered h = cc
cancel_edge released h = cc
cancel_edge cancelled h = cc
cancel_edge settled h = cc

cancelled_will-Follows :
    (w : Will)
    → not (is_status w.status active) && not (is_status w.status pending_confirmation) ≡ false
    → Follows w (cancelled_will w)
cancelled_will-Follows w passed = record {
  same_id = refl;
  same_owner = refl;
  same_token = refl;
  edge = cancel_edge w.status passed;
}

pub cancel_will-Rewrites : (id : ℕ) (owner : Address) → Rewrites id (cancel_will id owner)
unfolding cancel_will
cancel_will-Rewrites id owner = search (saves_rules, cancelled_will-Follows) depth 24

closed-Follows :
    (w : Will) {a : Unit {0}}
    → assert_status w released will_not_released ≡ ok a
    → Follows w (record w { status = settled })
closed-Follows w passed = record {
  same_id = refl;
  same_owner = refl;
  same_token = refl;
  edge = rw (assert_status-eq-ok w released will_not_released passed) close;
}

pub close_will-Rewrites : (id : ℕ) (owner : Address) → Rewrites id (close_will id owner)
unfolding close_will
close_will-Rewrites id owner = search (saves_rules, closed-Follows) depth 20
