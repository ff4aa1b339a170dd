-- ===== src/Contract/Consent.antt =====
-- lib.rs: `accept_guardian_role` and `reject_guardian_role`.
use sorowill_contracts.Prelude.{
  ℕ, ◌-◌, Bool, true, false, not, Option, none, some, List, [], ◌∷◌, ◌==◌, if◌then◌else◌,
}
use sorowill_contracts.Errors
use sorowill_contracts.Errors.{
  not_guardian, invalid_consent_transition, contract_error, Result, ok, err,
}
use sorowill_contracts.Types.{Address, Guardian, GuardianConsent, pending, accepted, rejected, Will}
use sorowill_contracts.Env.{guardian_accepted_role, guardian_rejected_role}
use sorowill_contracts.Env.Action.{
  Action, pure, lift, query, gets, panic_if, modify, require_auth, publish, choose, ◌>>=◌, ◌>>◌,
}
use sorowill_contracts.Storage.Wills.{load_will, save_will}
use sorowill_contracts.Storage.Votes.{
  has_guardian_voted, has_guardian_cancel_voted, clear_guardian_vote, clear_guardian_cancel_vote,
}
use sorowill_contracts.Validation.{assert_consent_changeable}
use sorowill_contracts.Contract.Guardian.{find_guardian}

-- How the loop over the guardians ends: by its `return`, or with `found` and the new list.
pub data Walk : Type 0 where
  returned : Walk
  walked : Bool → List Guardian → Walk

abbrev pub walk_cons : Bool → Guardian → Walk → Walk
walk_cons matched g returned = returned
walk_cons true g (walked found guardians) = walked true (g ∷ guardians)
walk_cons false g (walked found guardians) = walked found (g ∷ guardians)

abbrev pub answered : Guardian → GuardianConsent → Guardian
answered g consent = record g { consent = consent }

-- The step of `accept_guardian_role`'s loop at the guardian who calls.
abbrev pub accept_at : GuardianConsent → Guardian → Result Walk → Result Walk
accept_at rejected g rest = err (contract_error invalid_consent_transition)
accept_at accepted g rest = ok returned
accept_at pending g rest =
    Errors.◌>>=◌ rest (λ walk. ok (walk_cons true (answered g accepted) walk))

abbrev pub reject_at : GuardianConsent → Guardian → Result Walk → Result Walk
reject_at rejected g rest = ok returned
reject_at accepted g rest =
    Errors.◌>>=◌ rest (λ walk. ok (walk_cons true (answered g rejected) walk))
reject_at pending g rest =
    Errors.◌>>=◌ rest (λ walk. ok (walk_cons true (answered g rejected) walk))

unfoldable pub accept_walk : List Guardian → Address → Result Walk
accept_walk [] guardian = ok (walked false [])
accept_walk (g ∷ guardians) guardian =
    let rest = accept_walk guardians guardian in
    if g.address == guardian
    then accept_at g.consent g rest
    else Errors.◌>>=◌ rest (λ walk. ok (walk_cons false g walk))

unfoldable pub reject_walk : List Guardian → Address → Result Walk
reject_walk [] guardian = ok (walked false [])
reject_walk (g ∷ guardians) guardian =
    let rest = reject_walk guardians guardian in
    if g.address == guardian
    then reject_at g.consent g rest
    else Errors.◌>>=◌ rest (λ walk. ok (walk_cons false g walk))

unfoldable pub accept_walked : ℕ → Address → Will → Walk → Action (Unit {0})
accept_walked will_id guardian will returned = pure tt
accept_walked will_id guardian will (walked found guardians) = do
  panic_if (not found) not_guardian
  save_will (record will { guardians = guardians })
  publish (guardian_accepted_role will_id guardian)

unfoldable pub accept_guardian_role : ℕ → Address → Action (Unit {0})
unfolding accept_walk accept_walked
accept_guardian_role will_id guardian = do
  require_auth guardian
  will ← query (load_will will_id)
  lift (assert_consent_changeable will)
  walk ← lift (accept_walk will.guardians guardian)
  accept_walked will_id guardian will walk

abbrev weight_or_zero : Option Guardian → ℕ
weight_or_zero none = 0
weight_or_zero (some g) = g.weight

unfoldable pub g_weight : Will → Address → ℕ
unfolding find_guardian
g_weight will guardian = weight_or_zero (find_guardian will.guardians guardian)

-- A vote that still counts is withdrawn; the counters saturate, as `-` on ℕ does.
abbrev pub withdraw_vote : Bool → Will → ℕ → Will
withdraw_vote false will weight = will
withdraw_vote true will weight = record will {
  guardian_vote_weight = will.guardian_vote_weight - weight;
  guardian_votes = will.guardian_votes - 1;
}

abbrev pub withdraw_cancel_vote : Bool → Will → ℕ → Will
withdraw_cancel_vote false will weight = will
withdraw_cancel_vote true will weight = record will {
  guardian_cancel_vote_weight = will.guardian_cancel_vote_weight - weight;
  guardian_cancel_votes = will.guardian_cancel_votes - 1;
}

-- The will as `reject_guardian_role` stores it.
abbrev pub rejected_will : Will → Address → Bool → Bool → List Guardian → Will
rejected_will will guardian voted cancel_voted guardians =
    record (withdraw_cancel_vote cancel_voted (withdraw_vote voted will (g_weight will guardian))
      (g_weight will guardian)) { guardians = guardians }

unfoldable pub reject_walked : ℕ → Address → Will → Walk → Action (Unit {0})
unfolding g_weight
reject_walked will_id guardian will returned = pure tt
reject_walked will_id guardian will (walked found guardians) = do
  panic_if (not found) not_guardian
  voted ← gets (λ env. has_guardian_voted will_id guardian env.now will.grace_period_days env)
  choose voted (modify (clear_guardian_vote will_id guardian)) (pure tt)
  cancel_voted ←
      gets (λ env. has_guardian_cancel_voted will_id guardian env.now will.grace_period_days env)
  choose cancel_voted (modify (clear_guardian_cancel_vote will_id guardian)) (pure tt)
  save_will (rejected_will will guardian voted cancel_voted guardians)
  publish (guardian_rejected_role will_id guardian)

unfoldable pub reject_guardian_role : ℕ → Address → Action (Unit {0})
unfolding reject_walk reject_walked
reject_guardian_role will_id guardian = do
  require_auth guardian
  will ← query (load_will will_id)
  lift (assert_consent_changeable will)
  walk ← lift (reject_walk will.guardians guardian)
  reject_walked will_id guardian will walk
