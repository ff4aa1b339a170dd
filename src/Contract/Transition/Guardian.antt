-- ===== src/Contract/Transition/Guardian.antt =====
-- The entry points that end in `distribute`, and those of the guardians, along the state machine.
use sorowill_contracts.Prelude.{ℕ, ◌≡◌, refl, Bool, true, false, Option, arith}
use sorowill_contracts.Errors.{ok, will_not_active, will_not_triggered}
use sorowill_contracts.Types.{Address, TokenMap, Will, active, triggered, GuardianVoteReason}
use sorowill_contracts.Storage.Wills.Saves.{
  Saves, save_will-Saves, Resaves, Resaves-Keeps, Resaves-Saves, Resaves-after, Saves-again,
}
use sorowill_contracts.Env.Action.Keeps.{Keeps-pure}
use sorowill_contracts.Validation.{assert_status}
use sorowill_contracts.Distribute.Payout.{released_will, settle, distribute}
use sorowill_contracts.Contract.Release.{release_inheritance}
use sorowill_contracts.Contract.Guardian.{
  with_votes, with_cancel_votes, release_by_quorum, store_vote, store_cancel_vote, guardian_trigger,
  cleared_will, cancel_by_quorum, guardian_cancel_trigger,
}
use sorowill_contracts.Contract.Transition.Frame.{saves_rules}
use sorowill_contracts.Contract.Transition.Rules.{
  Follows, stay_active, stay_triggered, recover, release, release_by_quorum as by_quorum, Rewrites,
  assert_status-eq-ok,
}

module _ {P : Will → Type 0} (w : Will) (fits : (r : TokenMap) → P (released_will w r)) where
  settle-Saves : (reserves : TokenMap) → Saves P (settle w reserves)
  unfolding settle
  settle-Saves reserves = search (saves_rules, fits) depth 12

  -- A distribution stores the will it is given as released, and no other.
  pub distribute-Saves : (keeper : Option Address) → Saves P (distribute w keeper)
  unfolding distribute
  distribute-Saves keeper = search (saves_rules, settle-Saves) depth 20

released_will-Follows :
    (w : Will) {a : Unit {0}}
    → assert_status w triggered will_not_triggered ≡ ok a
    → (r : TokenMap) → Follows w (released_will w r)
unfolding released_will
released_will-Follows w passed r = record {
  same_id = refl;
  same_owner = refl;
  same_token = refl;
  edge = rw (assert_status-eq-ok w triggered will_not_triggered passed) release;
}

pub release_inheritance-Rewrites :
    (id : ℕ) (caller : Option Address) → Rewrites id (release_inheritance id caller)
unfolding release_inheritance
release_inheritance-Rewrites id caller =
    search (saves_rules, distribute-Saves, released_will-Follows) depth 24

one_id : (w u v : Will) → Follows w u → Follows w v → u.id ≡ v.id
one_id w u v fu fv = ground arith

module _ (w : Will) {a : Unit {0}} (passed : assert_status w active will_not_active ≡ ok a) where
  voted-Follows : (t : ℕ × ℕ) → Follows w (with_votes w t)
  voted-Follows t = record {
    same_id = refl;
    same_owner = refl;
    same_token = refl;
    edge = rw (assert_status-eq-ok w active will_not_active passed) stay_active;
  }

  voted_released-Follows : (t : ℕ × ℕ) (r : TokenMap) → Follows w (released_will (with_votes w t) r)
  unfolding released_will
  voted_released-Follows t r = record {
    same_id = refl;
    same_owner = refl;
    same_token = refl;
    edge = rw (assert_status-eq-ok w active will_not_active passed) by_quorum;
  }

  release_by_quorum-Resaves :
      (id : ℕ) (g : Address) (t : ℕ × ℕ) (q : Bool)
      → Resaves (Follows w) (release_by_quorum id g (with_votes w t) q)
  unfolding release_by_quorum
  release_by_quorum-Resaves id g t false = Resaves-Keeps _ (Keeps-pure tt)
  release_by_quorum-Resaves id g t true = Resaves-Saves _ (
      search
        (saves_rules, distribute-Saves {P = Follows w} (with_votes w t) (voted_released-Follows t)))

  vote_stored-Saves :
      (id : ℕ) (g : Address) (t : ℕ × ℕ) (weight : ℕ)
      → Saves (Follows w) (store_vote id g weight (with_votes w t))
  unfolding store_vote
  vote_stored-Saves id g t weight =
      Saves-again {P = Follows w} (one_id w) _ _ (save_will-Saves (Follows w) _ (voted-Follows t))
        λ _. search (Resaves-after, saves_rules, release_by_quorum-Resaves)

pub guardian_trigger-Rewrites :
    (id : ℕ) (g : Address) (reason : GuardianVoteReason)
    → Rewrites id (guardian_trigger id g reason)
unfolding guardian_trigger
guardian_trigger-Rewrites id g reason = search (saves_rules, vote_stored-Saves) depth 24

module _ (w : Will) {a : Unit {0}}
    (passed : assert_status w triggered will_not_triggered ≡ ok a) where
  cancel_voted-Follows : (t : ℕ × ℕ) → Follows w (with_cancel_votes w t)
  cancel_voted-Follows t = record {
    same_id = refl;
    same_owner = refl;
    same_token = refl;
    edge = rw (assert_status-eq-ok w triggered will_not_triggered passed) stay_triggered;
  }

  cleared-Follows : (t : ℕ × ℕ) (now : ℕ) → Follows w (cleared_will (with_cancel_votes w t) now)
  cleared-Follows t now = record {
    same_id = refl;
    same_owner = refl;
    same_token = refl;
    edge = rw (assert_status-eq-ok w triggered will_not_triggered passed) recover;
  }

  cancel_by_quorum-Resaves :
      (id : ℕ) (g : Address) (t : ℕ × ℕ) (q : Bool)
      → Resaves (Follows w) (cancel_by_quorum id g (with_cancel_votes w t) q)
  unfolding cancel_by_quorum
  cancel_by_quorum-Resaves id g t false = Resaves-Keeps _ (Keeps-pure tt)
  cancel_by_quorum-Resaves id g t true =
      Resaves-Saves _ (search (saves_rules, cleared-Follows t) depth 12)

  cancel_vote_stored-Saves :
      (id : ℕ) (g : Address) (t : ℕ × ℕ) (weight : ℕ)
      → Saves (Follows w) (store_cancel_vote id g weight (with_cancel_votes w t))
  unfolding store_cancel_vote
  cancel_vote_stored-Saves id g t weight =
      Saves-again {P = Follows w} (one_id w) _ _
        (save_will-Saves (Follows w) _ (cancel_voted-Follows t))
        λ _. search (Resaves-after, saves_rules, cancel_by_quorum-Resaves)

pub guardian_cancel_trigger-Rewrites :
    (id : ℕ) (g : Address) → Rewrites id (guardian_cancel_trigger id g)
unfolding guardian_cancel_trigger
guardian_cancel_trigger-Rewrites id g =
    search (saves_rules, cancel_vote_stored-Saves) depth 24 fits 20000
