-- ===== src/Distribute/Payout/Frame.antt =====
-- The loops of a release and of a cancellation touch no stored will.
use sorowill_contracts.Prelude.{
  ℕ, ◌≡◌, refl, Bool, true, false, Option, none, some, List, [], ◌∷◌, arith,
}
use sorowill_contracts.Prelude.Int.{ℤ, is_zero}
use sorowill_contracts.Types.{Address, TokenMap, Beneficiary}
use sorowill_contracts.Env.{Env}
use sorowill_contracts.Env.Action.{Action, pure, ◌>>◌, transfer, try_transfer, publish}
use sorowill_contracts.Env.Action.Keeps.{Keeps, keeps_rules, Keeps-pure, Keeps-then}
use sorowill_contracts.Storage.Stats.{
  adjust_locked_value, adjust_unless_zero, adjust_locked_for_balances,
}
use sorowill_contracts.Storage.Wills.{set_failed_payout}
use sorowill_contracts.Storage.Wills.Saves.{wills_of}
use sorowill_contracts.Storage.History.{append_history, next_history_seq, record_transition}
use sorowill_contracts.Storage.Indexes.{remove_beneficiary_index}
use sorowill_contracts.Types.{WillStatus, Symbol}
use sorowill_contracts.Env.{Transfer, Event, leftover_refunded}
use sorowill_contracts.Distribute.Plan.{Payments}
use sorowill_contracts.Distribute.Payout.{
  pay_or_record_failure, pay_if_positive, pay_refunds, pay_shares, pay_bounty, pay_plan,
  remove_beneficiary_indexes,
}

pub transfer-Keeps : (t : Transfer) → Keeps wills_of (transfer t)
transfer-Keeps t = record { at = λ env env' a h. ground arith }

pub try_transfer-Keeps : (t : Transfer) → Keeps wills_of (try_transfer t)
try_transfer-Keeps t = record { at = λ env env' a h. ground arith }

pub publish-Keeps : (e : Event) → Keeps wills_of (publish e)
publish-Keeps e = record { at = λ env env' a h. ground arith }

pub set_failed_payout-same :
    (id : ℕ) (t r : Address) (x : ℤ) (env : Env)
    → wills_of (set_failed_payout id t r x env) ≡ wills_of env
unfolding set_failed_payout
set_failed_payout-same id t r x env = refl

pub adjust_locked_value-Keeps : (t : Address) (x : ℤ) → Keeps wills_of (adjust_locked_value t x)
unfolding adjust_locked_value
adjust_locked_value-Keeps t x = record { at = λ env env' a h. ground arith }

pub record_transition-Keeps :
    (id : ℕ) (s t : WillStatus) (a : Address) (x : Symbol)
    → Keeps wills_of (record_transition id s t a x)
unfolding record_transition append_history next_history_seq
record_transition-Keeps id s t a x = record { at = λ env env' b h. ground arith }

pub ruleset frame_rules = (
  keeps_rules, transfer-Keeps, try_transfer-Keeps, publish-Keeps, set_failed_payout-same,
  adjust_locked_value-Keeps, record_transition-Keeps,
)

adjust_unless_zero-Keeps :
    (b : Bool) (t : Address) (s x : ℤ) → Keeps wills_of (adjust_unless_zero b t s x)
unfolding adjust_unless_zero
adjust_unless_zero-Keeps true t s x = search frame_rules
adjust_unless_zero-Keeps false t s x = search frame_rules

pub adjust_locked_for_balances-Keeps :
    (balances : TokenMap) (sign : ℤ) → Keeps wills_of (adjust_locked_for_balances balances sign)
unfolding adjust_locked_for_balances
adjust_locked_for_balances-Keeps [] sign = Keeps-pure tt
adjust_locked_for_balances-Keeps ((t, x) ∷ balances) sign =
    Keeps-then (adjust_unless_zero (is_zero x) t sign x) (adjust_locked_for_balances balances sign)
      (adjust_unless_zero-Keeps (is_zero x) t sign x)
      (adjust_locked_for_balances-Keeps balances sign)

pay_or_record_failure-Keeps :
    (t s r : Address) (x : ℤ) (id : ℕ) → Keeps wills_of (pay_or_record_failure t s r x id)
unfolding pay_or_record_failure
pay_or_record_failure-Keeps t s r x id = search frame_rules depth 8

pay_if_positive-Keeps :
    (id : ℕ) (t r : Address) (x : ℤ) (m : Action (Unit {0}))
    → Keeps wills_of m
    → Keeps wills_of (pay_if_positive id t r x m)
unfolding pay_if_positive
pay_if_positive-Keeps id t r x m km = search (frame_rules, pay_or_record_failure-Keeps) depth 8

pub pay_refunds-Keeps :
    (id : ℕ) (owner : Address) (refunds : Payments) → Keeps wills_of (pay_refunds id owner refunds)
unfolding pay_refunds
pay_refunds-Keeps id owner [] = Keeps-pure tt
pay_refunds-Keeps id owner ((t, x) ∷ refunds) =
    let event = publish (leftover_refunded id t owner x) in
    Keeps-then (pay_if_positive id t owner x event) (pay_refunds id owner refunds)
      (pay_if_positive-Keeps id t owner x event (publish-Keeps _))
      (pay_refunds-Keeps id owner refunds)

pay_shares-Keeps :
    (id : ℕ) (t : Address) (shares : Payments) → Keeps wills_of (pay_shares id t shares)
unfolding pay_shares
pay_shares-Keeps id t [] = Keeps-pure tt
pay_shares-Keeps id t ((r, x) ∷ shares) =
    Keeps-then (pay_if_positive id t r x (pure tt)) (pay_shares id t shares)
      (pay_if_positive-Keeps id t r x (pure tt) (Keeps-pure tt)) (pay_shares-Keeps id t shares)

pay_bounty-Keeps :
    (id : ℕ) (t : Address) (b : Option (ℕ × ℤ)) (keeper : Option Address)
    → Keeps wills_of (pay_bounty id t b keeper)
unfolding pay_bounty
pay_bounty-Keeps id t none keeper = Keeps-pure tt
pay_bounty-Keeps id t (some b) none = Keeps-pure tt
pay_bounty-Keeps id t (some (bt, x)) (some keeper) = search (frame_rules, pay_if_positive-Keeps)

pub pay_plan-Keeps :
    (id : ℕ) (b : Option (ℕ × ℤ)) (keeper : Option Address) (plan : List (ℕ × List (ℕ × ℤ)))
    → Keeps wills_of (pay_plan id b keeper plan)
unfolding pay_plan
pay_plan-Keeps id b keeper [] = Keeps-pure tt
pay_plan-Keeps id b keeper ((t, shares) ∷ plan) =
    Keeps-then (pay_shares id t shares) (pay_bounty id t b keeper >> pay_plan id b keeper plan)
      (pay_shares-Keeps id t shares)
      (Keeps-then (pay_bounty id t b keeper) (pay_plan id b keeper plan)
        (pay_bounty-Keeps id t b keeper) (pay_plan-Keeps id b keeper plan))

pub wills-remove_beneficiary_indexes :
    (bs : List Beneficiary) (id : ℕ) (env : Env)
    → wills_of (remove_beneficiary_indexes bs id env) ≡ wills_of env
unfolding remove_beneficiary_indexes remove_beneficiary_index
wills-remove_beneficiary_indexes [] id env = refl
wills-remove_beneficiary_indexes (b ∷ bs) id env =
    wills-remove_beneficiary_indexes bs id (remove_beneficiary_index b.address id env)
