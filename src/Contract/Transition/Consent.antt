-- ===== src/Contract/Transition/Consent.antt =====
-- The answers of a guardian along the state machine: either call may return without storing the will.
use sorowill_contracts.Prelude.{ℕ, ◌≡◌, refl, Bool, true, false, ◌||◌, List, arith}
use sorowill_contracts.Errors.{ok}
use sorowill_contracts.Types.{
  Address, Guardian, Will, WillStatus, pending_confirmation, active, triggered, released, cancelled,
  settled, is_status,
}
use sorowill_contracts.Env.{Env}
use sorowill_contracts.Env.Action.Keeps.{Keeps-pure}
use sorowill_contracts.Storage.Votes.{clear_guardian_vote, clear_guardian_cancel_vote}
use sorowill_contracts.Storage.Wills.Saves.{wills_of, Resaves, Resaves-Keeps, Resaves-Saves}
use sorowill_contracts.Validation.{assert_consent_changeable}
use sorowill_contracts.Contract.Consent.{
  Walk, returned, walked, accept_walked, accept_guardian_role, rejected_will, reject_walked,
  reject_guardian_role,
}
use sorowill_contracts.Contract.Transition.Frame.{saves_rules}
use sorowill_contracts.Contract.Transition.Rules.{
  Edge, stay_pending, stay_active, stay_triggered, Follows, Amends, Amends-auth, Amends-load,
  Resaves-lift,
}

stays_open :
    (s : WillStatus)
    → (is_status s released || is_status s cancelled || is_status s settled) ≡ false
    → Edge s s
stays_open pending_confirmation h = stay_pending
stays_open active h = stay_active
stays_open triggered h = stay_triggered
stays_open released h = cc
stays_open cancelled h = cc
stays_open settled h = cc

changeable : (w : Will) {a : Unit {0}} → assert_consent_changeable w ≡ ok a → Edge w.status w.status
unfolding assert_consent_changeable
changeable w passed = stays_open w.status (ground arith)

answered-Follows :
    (w : Will) (gs : List Guardian)
    → Edge w.status w.status
    → Follows w (record w { guardians = gs })
answered-Follows w gs stays = record {
  same_id = refl;
  same_owner = refl;
  same_token = refl;
  edge = stays;
}

rejected-Follows :
    (w : Will) (g : Address) (voted cancel_voted : Bool) (gs : List Guardian)
    → Edge w.status w.status
    → Follows w (rejected_will w g voted cancel_voted gs)
rejected-Follows w g true true gs stays = record {
  same_id = refl;
  same_owner = refl;
  same_token = refl;
  edge = stays;
}
rejected-Follows w g true false gs stays = record {
  same_id = refl;
  same_owner = refl;
  same_token = refl;
  edge = stays;
}
rejected-Follows w g false true gs stays = record {
  same_id = refl;
  same_owner = refl;
  same_token = refl;
  edge = stays;
}
rejected-Follows w g false false gs stays = record {
  same_id = refl;
  same_owner = refl;
  same_token = refl;
  edge = stays;
}

clear_guardian_vote-same :
    (id : ℕ) (g : Address) (env : Env) → wills_of (clear_guardian_vote id g env) ≡ wills_of env
unfolding clear_guardian_vote
clear_guardian_vote-same id g env = refl

clear_guardian_cancel_vote-same :
    (id : ℕ) (g : Address) (env : Env)
    → wills_of (clear_guardian_cancel_vote id g env) ≡ wills_of env
unfolding clear_guardian_cancel_vote
clear_guardian_cancel_vote-same id g env = refl

module _ (id : ℕ) (g : Address) (w : Will) (stays : Edge w.status w.status) where
  accept_walked-Resaves : (walk : Walk) → Resaves (Follows w) (accept_walked id g w walk)
  unfolding accept_walked
  accept_walked-Resaves returned = Resaves-Keeps _ (Keeps-pure tt)
  accept_walked-Resaves (walked found gs) =
      Resaves-Saves _ (search (saves_rules, answered-Follows) depth 12)

  reject_walked-Resaves : (walk : Walk) → Resaves (Follows w) (reject_walked id g w walk)
  unfolding reject_walked
  reject_walked-Resaves returned = Resaves-Keeps _ (Keeps-pure tt)
  reject_walked-Resaves (walked found gs) = Resaves-Saves _ (
      search
        (saves_rules, rejected-Follows, clear_guardian_vote-same, clear_guardian_cancel_vote-same)
        depth 20)

pub accept_guardian_role-Amends : (id : ℕ) (g : Address) → Amends id (accept_guardian_role id g)
unfolding accept_guardian_role
accept_guardian_role-Amends id g = Amends-auth id g _ (
    Amends-load id _ λ w. Resaves-lift _ _ λ _ passed.
      Resaves-lift _ _ λ walk _. accept_walked-Resaves id g w (changeable w passed) walk)

pub reject_guardian_role-Amends : (id : ℕ) (g : Address) → Amends id (reject_guardian_role id g)
unfolding reject_guardian_role
reject_guardian_role-Amends id g = Amends-auth id g _ (
    Amends-load id _ λ w. Resaves-lift _ _ λ _ passed.
      Resaves-lift _ _ λ walk _. reject_walked-Resaves id g w (changeable w passed) walk)
