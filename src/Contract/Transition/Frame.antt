-- ===== src/Contract/Transition/Frame.antt =====
-- The steps of the entry points that touch no stored will, and the rules that follow one which does.
use sorowill_contracts.Prelude.{ℕ, ◌≡◌, refl, [], ◌∷◌, arith}
use sorowill_contracts.Prelude.Int.{ℤ}
use sorowill_contracts.Types.{Address, TokenMap, Will, GuardianVoteReason}
use sorowill_contracts.Env.{Env}
use sorowill_contracts.Env.Action.{◌>>◌}
use sorowill_contracts.Env.Action.Keeps.{Keeps, Keeps-pure, Keeps-gets, Keeps-bind, Keeps-then}
use sorowill_contracts.Storage.Stats.{decrement_active_will_count}
use sorowill_contracts.Storage.Wills.Saves.{
  wills_of, Saves-after, Saves-before, Saves-lift, Saves-panic_if, save_will-Saves,
}
use sorowill_contracts.Storage.Indexes.{
  index_triggered_will, unindex_triggered_will, remove_owner_index,
}
use sorowill_contracts.Storage.Votes.{
  reset_guardian_votes, reset_guardian_cancel_votes, set_guardian_voted, set_guardian_cancel_voted,
}
use sorowill_contracts.Distribute.Payout.Frame.{
  frame_rules, adjust_locked_for_balances-Keeps, pay_refunds-Keeps, pay_plan-Keeps,
  wills-remove_beneficiary_indexes,
}
use sorowill_contracts.Contract.Release.{acquire, release, unlock_balance, unlock_balances}
use sorowill_contracts.Contract.Cancel.{refund_balance, refund_balances}
use sorowill_contracts.Contract.Guardian.{assert_cooldown_over}
use sorowill_contracts.Contract.Transition.Rules.{
  Rewrites-load, Rewrites-load_owned, Rewrites-after,
}

pub index_triggered_will-same :
    (id : ℕ) (env : Env) → wills_of (index_triggered_will id env) ≡ wills_of env
unfolding index_triggered_will
index_triggered_will-same id env = refl

pub unindex_triggered_will-same :
    (id : ℕ) (env : Env) → wills_of (unindex_triggered_will id env) ≡ wills_of env
unfolding unindex_triggered_will
unindex_triggered_will-same id env = refl

pub remove_owner_index-same :
    (a : Address) (id : ℕ) (env : Env) → wills_of (remove_owner_index a id env) ≡ wills_of env
unfolding remove_owner_index
remove_owner_index-same a id env = refl

pub decrement-same : (env : Env) → wills_of (decrement_active_will_count env) ≡ wills_of env
unfolding decrement_active_will_count
decrement-same env = refl

pub reset_guardian_votes-same :
    (w : Will) (env : Env) → wills_of (reset_guardian_votes w env) ≡ wills_of env
unfolding reset_guardian_votes
reset_guardian_votes-same w env = refl

pub reset_guardian_cancel_votes-same :
    (w : Will) (env : Env) → wills_of (reset_guardian_cancel_votes w env) ≡ wills_of env
unfolding reset_guardian_cancel_votes
reset_guardian_cancel_votes-same w env = refl

pub release-same : (id : ℕ) (env : Env) → wills_of (release id env) ≡ wills_of env
unfolding release
release-same id env = refl

pub acquire-Keeps : (id : ℕ) → Keeps wills_of (acquire id)
unfolding acquire
acquire-Keeps id = record { at = λ env env' a h. ground arith }

pub unlock_balance-Keeps : (t : Address) (x : ℤ) → Keeps wills_of (unlock_balance t x)
unfolding unlock_balance
unlock_balance-Keeps t x = search frame_rules

pub unlock_balances-Keeps : (balances : TokenMap) → Keeps wills_of (unlock_balances balances)
unfolding unlock_balances
unlock_balances-Keeps [] = Keeps-pure tt
unlock_balances-Keeps ((t, x) ∷ balances) =
    Keeps-then (unlock_balance t x) (unlock_balances balances) (unlock_balance-Keeps t x)
      (unlock_balances-Keeps balances)

pub refund_balances-Keeps :
    (owner : Address) (balances : TokenMap) → Keeps wills_of (refund_balances owner balances)
unfolding refund_balances
refund_balances-Keeps owner [] = Keeps-pure tt
refund_balances-Keeps owner ((t, x) ∷ balances) =
    Keeps-bind _ (λ contract. refund_balance contract owner t x >> refund_balances owner balances)
      (Keeps-gets (λ env. env.contract_address))
      (λ contract.
        Keeps-then (refund_balance contract owner t x) (refund_balances owner balances)
          (search frame_rules) (refund_balances-Keeps owner balances))

pub set_guardian_voted-same :
    (id : ℕ) (g : Address) (t : ℕ) (r : GuardianVoteReason) (env : Env)
    → wills_of (set_guardian_voted id g t r env) ≡ wills_of env
unfolding set_guardian_voted
set_guardian_voted-same id g t r env = refl

pub set_guardian_cancel_voted-same :
    (id : ℕ) (g : Address) (t : ℕ) (env : Env)
    → wills_of (set_guardian_cancel_voted id g t env) ≡ wills_of env
unfolding set_guardian_cancel_voted
set_guardian_cancel_voted-same id g t env = refl

pub assert_cooldown_over-Keeps : (w : Will) → Keeps wills_of (assert_cooldown_over w)
unfolding assert_cooldown_over
assert_cooldown_over-Keeps w = search frame_rules depth 8

pub ruleset saves_rules = (
  Rewrites-load, Rewrites-load_owned, Rewrites-after, Saves-lift, Saves-panic_if, Saves-after,
  Saves-before, save_will-Saves, frame_rules, index_triggered_will-same,
  unindex_triggered_will-same, remove_owner_index-same, decrement-same, reset_guardian_votes-same,
  reset_guardian_cancel_votes-same, wills-remove_beneficiary_indexes,
  adjust_locked_for_balances-Keeps, pay_refunds-Keeps, pay_plan-Keeps, unlock_balances-Keeps,
  refund_balances-Keeps, acquire-Keeps, release-same, set_guardian_voted-same,
  set_guardian_cancel_voted-same, assert_cooldown_over-Keeps,
)
