-- ===== src/Contract/Transition/Calls.antt =====
-- The calls that name one will, and what any of them does to the stored wills. `migrate_will` is not
-- among them: it may also store an ended will of an old layout again.
use sorowill_contracts.Prelude.{
  ℕ, ◌≡◌, ◌∙◌, refl, Bool, true, false, Option, some, List, update, ◌==◌, arith, ap, inl, inr,
}
use sorowill_contracts.Prelude.Int.{ℤ}
use sorowill_contracts.Errors.{ok}
use sorowill_contracts.Types.{Address, Bytes, Beneficiary, GuardianSpec, GuardianVoteReason, Will}
use sorowill_contracts.Env.{Env, Val, encoded}
use sorowill_contracts.Env.Action.{Action}
use sorowill_contracts.Storage.Wills.Saves.{wills_of}
use sorowill_contracts.Contract.Create.{confirm_will}
use sorowill_contracts.Contract.Checkin.{check_in, set_delegate}
use sorowill_contracts.Contract.Trigger.{trigger_will, emergency_checkin}
use sorowill_contracts.Contract.Release.{release_inheritance}
use sorowill_contracts.Contract.Cancel.{cancel_will, close_will}
use sorowill_contracts.Contract.Guardian.{guardian_trigger, guardian_cancel_trigger}
use sorowill_contracts.Contract.Settings.{
  update_beneficiaries, update_guardians, update_guardians_weighted, update_periods, top_up,
}
use sorowill_contracts.Contract.Consent.{accept_guardian_role, reject_guardian_role}
use sorowill_contracts.Contract.Transition.Consent.{
  accept_guardian_role-Amends, reject_guardian_role-Amends,
}
use sorowill_contracts.Contract.Renounce.{renounce_beneficiary}
use sorowill_contracts.Contract.Settings.Update.{update_will_settings}
use sorowill_contracts.Contract.Hashed.{Crypto, add_hashed_beneficiary, reveal_and_claim}
use sorowill_contracts.Contract.Transition.Updates.{
  renounce_beneficiary-Rewrites, update_will_settings-Rewrites, add_hashed_beneficiary-Rewrites,
  reveal_and_claim-Rewrites,
}
use sorowill_contracts.Contract.Transition.Lifecycle.{
  trigger_will-Rewrites, emergency_checkin-Rewrites, check_in-Rewrites, set_delegate-Rewrites,
  confirm_will-Rewrites, cancel_will-Rewrites, close_will-Rewrites,
}
use sorowill_contracts.Contract.Transition.Guardian.{
  release_inheritance-Rewrites, guardian_trigger-Rewrites, guardian_cancel_trigger-Rewrites,
}
use sorowill_contracts.Contract.Transition.Settings.{
  update_beneficiaries-Rewrites, update_guardians-Rewrites, update_guardians_weighted-Rewrites,
  update_periods-Rewrites, top_up-Rewrites,
}
use sorowill_contracts.Contract.Transition.Rules.{Follows, Amends, Amends-Rewrites}

-- An entry point with its arguments, the will's id apart.
pub data Call : Type 0 where
  confirm_will_call : Address → Call
  check_in_call : Address → Call
  set_delegate_call : Address → Option Address → Call
  trigger_will_call : Call
  emergency_checkin_call : Address → Call
  release_inheritance_call : Option Address → Call
  cancel_will_call : Address → Call
  close_will_call : Address → Call
  guardian_trigger_call : Address → GuardianVoteReason → Call
  guardian_cancel_trigger_call : Address → Call
  update_beneficiaries_call : Address → List Beneficiary → Call
  update_guardians_call : Address → List Address → Call
  update_guardians_weighted_call : Address → List GuardianSpec → Option ℕ → Call
  update_periods_call : Address → Option ℕ → Option ℕ → Call
  top_up_call : Address → Address → ℤ → Call
  renounce_beneficiary_call : Address → Call
  update_will_settings_call :
      Address → Option (List Beneficiary) → Option (List Address) → Option ℕ → Option ℕ → Call
  add_hashed_beneficiary_call : Address → Bytes → ℕ → Call
  reveal_and_claim_call : Crypto → Address → Bytes → Call
  accept_guardian_role_call : Address → Call
  reject_guardian_role_call : Address → Call

unfoldable pub run : Call → ℕ → Action (Unit {0})
run (confirm_will_call owner) id = confirm_will id owner
run (check_in_call caller) id = check_in id caller
run (set_delegate_call owner d) id = set_delegate id owner d
run trigger_will_call id = trigger_will id
run (emergency_checkin_call owner) id = emergency_checkin id owner
run (release_inheritance_call caller) id = release_inheritance id caller
run (cancel_will_call owner) id = cancel_will id owner
run (close_will_call owner) id = close_will id owner
run (guardian_trigger_call g r) id = guardian_trigger id g r
run (guardian_cancel_trigger_call g) id = guardian_cancel_trigger id g
run (update_beneficiaries_call owner bs) id = update_beneficiaries id owner bs
run (update_guardians_call owner gs) id = update_guardians id owner gs
run (update_guardians_weighted_call owner gs k) id = update_guardians_weighted id owner gs k
run (update_periods_call owner c g) id = update_periods id owner c g
run (top_up_call owner t x) id = top_up id owner t x
run (renounce_beneficiary_call b) id = renounce_beneficiary id b
run (update_will_settings_call owner bs gs c g) id = update_will_settings id owner bs gs c g
run (add_hashed_beneficiary_call owner x bps) id = add_hashed_beneficiary id owner x bps
run (reveal_and_claim_call crypto claimant x) id = reveal_and_claim crypto id claimant x
run (accept_guardian_role_call g) id = accept_guardian_role id g
run (reject_guardian_role_call g) id = reject_guardian_role id g

run-Amends : (c : Call) (id : ℕ) → Amends id (run c id)
unfolding run
run-Amends (confirm_will_call owner) id = Amends-Rewrites id _ (confirm_will-Rewrites id owner)
run-Amends (check_in_call caller) id = Amends-Rewrites id _ (check_in-Rewrites id caller)
run-Amends (set_delegate_call owner d) id = Amends-Rewrites id _ (set_delegate-Rewrites id owner d)
run-Amends trigger_will_call id = Amends-Rewrites id _ (trigger_will-Rewrites id)
run-Amends (emergency_checkin_call owner) id =
    Amends-Rewrites id _ (emergency_checkin-Rewrites id owner)
run-Amends (release_inheritance_call caller) id =
    Amends-Rewrites id _ (release_inheritance-Rewrites id caller)
run-Amends (cancel_will_call owner) id = Amends-Rewrites id _ (cancel_will-Rewrites id owner)
run-Amends (close_will_call owner) id = Amends-Rewrites id _ (close_will-Rewrites id owner)
run-Amends (guardian_trigger_call g r) id = Amends-Rewrites id _ (guardian_trigger-Rewrites id g r)
run-Amends (guardian_cancel_trigger_call g) id =
    Amends-Rewrites id _ (guardian_cancel_trigger-Rewrites id g)
run-Amends (update_beneficiaries_call owner bs) id =
    Amends-Rewrites id _ (update_beneficiaries-Rewrites id owner bs)
run-Amends (update_guardians_call owner gs) id =
    Amends-Rewrites id _ (update_guardians-Rewrites id owner gs)
run-Amends (update_guardians_weighted_call owner gs k) id =
    Amends-Rewrites id _ (update_guardians_weighted-Rewrites id owner gs k)
run-Amends (update_periods_call owner c g) id =
    Amends-Rewrites id _ (update_periods-Rewrites id owner c g)
run-Amends (top_up_call owner t x) id = Amends-Rewrites id _ (top_up-Rewrites id owner t x)
run-Amends (renounce_beneficiary_call b) id =
    Amends-Rewrites id _ (renounce_beneficiary-Rewrites id b)
run-Amends (update_will_settings_call owner bs gs c g) id =
    Amends-Rewrites id _ (update_will_settings-Rewrites id owner bs gs c g)
run-Amends (add_hashed_beneficiary_call owner x bps) id =
    Amends-Rewrites id _ (add_hashed_beneficiary-Rewrites id owner x bps)
run-Amends (reveal_and_claim_call crypto claimant x) id =
    Amends-Rewrites id _ (reveal_and_claim-Rewrites crypto id claimant x)
run-Amends (accept_guardian_role_call g) id = accept_guardian_role-Amends id g
run-Amends (reject_guardian_role_call g) id = reject_guardian_role-Amends id g

-- Every will is stored under its own id.
unfoldable pub IsKeyed : Env → Type 0
IsKeyed env = (id : ℕ) (w : Will) → wills_of env id ≡ some (encoded w) → w.id ≡ id

-- An entry is left alone, or is replaced by one that follows it.
pub data Moves (before after : Option Val) : Type 0 where
  same : after ≡ before → Moves before after
  moved :
      (v w : Will)
      → before ≡ some (encoded v)
      → after ≡ some (encoded w)
      → Follows v w
      → Moves before after

update_self : (f : ℕ → Option Val) (k : ℕ) (v : Option Val) → update f k v k ≡ v
update_self f k v = ground arith

keyed_stored :
    (f g : ℕ → Option Val) (w : Will)
    → g ≡ update f w.id (some (encoded w))
    → ((id : ℕ) (v : Will) → f id ≡ some (encoded v) → v.id ≡ id)
    → (id : ℕ) (v : Will) → g id ≡ some (encoded v)
    → v.id ≡ id
keyed_stored f g w e keyed id v h = ground (arith, keyed id v, ap (λ k. k id) e)

-- Keyed wills stay keyed, whichever call succeeds.
pub run-IsKeyed :
    (c : Call) (id : ℕ) (env env' : Env) → run c id env ≡ ok (tt, env') → IsKeyed env → IsKeyed env'
unfolding IsKeyed
run-IsKeyed c id env env' h keyed = elim ((run-Amends c id).at env env' tt h) [
  | inl kept ↦ rw kept keyed
  | inr (v, found, (w, stored, follows)) ↦
      keyed_stored (wills_of env) (wills_of env') w stored keyed
]

Moves-at :
    (before after : ℕ → Option Val) (id j : ℕ) (v w : Will)
    → before id ≡ some (encoded v)
    → after ≡ update before w.id (some (encoded w))
    → w.id ≡ id
    → Follows v w
    → (b : Bool) → (j == id) ≡ b
    → Moves (before j) (after j)
Moves-at before after id j v w found stored named follows true e =
    let here : j ≡ id = ground arith in
    moved v w (rw here found) (ground (arith, ap (λ k. k j) stored)) follows
Moves-at before after id j v w found stored named follows false e =
    same (ground (arith, ap (λ k. k j) stored))

-- A successful call moves the will that it names or leaves it, and writes no other entry.
pub run-Moves :
    (c : Call) (id : ℕ) (env env' : Env)
    → run c id env ≡ ok (tt, env')
    → IsKeyed env
    → (j : ℕ) → Moves (wills_of env j) (wills_of env' j)
unfolding IsKeyed
run-Moves c id env env' h keyed j = elim ((run-Amends c id).at env env' tt h) [
  | inl kept ↦ same (ap (λ k. k j) kept)
  | inr (v, found, (w, stored, follows)) ↦
      Moves-at (wills_of env) (wills_of env') id j v w found stored
        (follows.same_id ∙ keyed id v found) follows (j == id) refl
]
