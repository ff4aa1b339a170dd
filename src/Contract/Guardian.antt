-- ===== src/Contract/Guardian.antt =====
-- lib.rs: `guardian_trigger` and `guardian_cancel_trigger`; guardian_vote_freshness.rs.
pub mod Guards
use sorowill_contracts.Prelude.{
  ℕ, ◌+◌, ◌-◌, ◌*◌, Bool, true, false, not, ◌&&◌, Option, none, some, List, [], ◌∷◌, ltb, leb, ◌==◌,
  if◌then◌else◌,
}
use sorowill_contracts.Prelude.Words.{u32_max, saturating_add_u32}
use sorowill_contracts.Errors
use sorowill_contracts.Errors.{
  will_not_active, will_not_triggered, guardian_cooldown_active, guardian_not_consented,
  not_guardian, already_voted, grace_period_expired, invalid_consent_transition,
  guardian_weight_overflow, contract_error, Result, ok, err,
}
use sorowill_contracts.Types.{
  Address, Guardian, GuardianConsent, pending, accepted, rejected, GuardianVoteReason, Will, active,
  triggered, released, is_consent,
}
use sorowill_contracts.Env.{
  Env, guardian_voted, guardian_cancel_voted, guardian_cancelled_trigger, Event,
}
use sorowill_contracts.Env.Action.{
  Action, pure, lift, query, gets, panic_if, modify, require_auth, publish, ◌>>=◌, ◌>>◌,
}
use sorowill_contracts.Storage.Wills.{load_will, save_will}
use sorowill_contracts.Storage.Indexes.{unindex_triggered_will}
use sorowill_contracts.Storage.Votes.{
  has_guardian_voted, has_guardian_cancel_voted, set_guardian_voted, set_guardian_cancel_voted,
  clear_guardian_vote, clear_guardian_cancel_vote, reset_guardian_votes,
  reset_guardian_cancel_votes,
}
use sorowill_contracts.Storage.History.{record_transition}
use sorowill_contracts.Validation.{assert_status, assert_consent_changeable, days_after}
use sorowill_contracts.Distribute.Payout.{distribute}
use sorowill_contracts.Contract.Trigger.{reactivated_will}

abbrev pub guardian_cooldown_days : ℕ
guardian_cooldown_days = 7

-- `guardians.iter().find(|g| g.address == guardian)`
unfoldable pub find_guardian : List Guardian → Address → Option Guardian
find_guardian [] address = none
find_guardian (g ∷ guardians) address =
    if g.address == address then some g else find_guardian guardians address

abbrev found_weight : Option Guardian → Result ℕ
found_weight none = err (contract_error not_guardian)
found_weight (some g) =
    if is_consent g.consent accepted
    then ok g.weight
    else err (contract_error guardian_not_consented)

-- The weight of a guardian that has accepted the role.
unfoldable pub consented_weight : List Guardian → Address → Result ℕ
unfolding find_guardian
consented_weight guardians guardian = found_weight (find_guardian guardians guardian)

-- The loop of `tally_guardian_votes` of lib.rs, over the kind of vote that `has_voted` reads. The
-- number of votes is at most the list's length, so its `+=` does not overflow.
unfoldable pub tally_guardian_votes : (Address → Bool) → List Guardian → ℕ → ℕ → ℕ × ℕ
unfolding saturating_add_u32
tally_guardian_votes has_voted [] votes weight = (votes, weight)
tally_guardian_votes has_voted (g ∷ guardians) votes weight =
    let counted = is_consent g.consent accepted && has_voted g.address in
    tally_guardian_votes has_voted guardians (if counted then votes + 1 else votes)
      (if counted then saturating_add_u32 weight g.weight else weight)

-- guardian_vote_freshness.rs: the loop of `live_guardian_vote_weight`.
unfoldable pub live_guardian_vote_weight : (Address → Bool) → List Guardian → ℕ → Result ℕ
live_guardian_vote_weight has_voted [] total = ok total
live_guardian_vote_weight has_voted (g ∷ guardians) total =
    Errors.◌>>=◌
      (if has_voted g.address
        then if leb (total + g.weight) u32_max
          then ok (total + g.weight)
          else err (contract_error guardian_weight_overflow)
        else ok total)
      (λ total'. live_guardian_vote_weight has_voted guardians total')

-- Whether a guardian's vote on this will counts at present.
abbrev pub voted_now : ℕ → Will → Env → Address → Bool
voted_now will_id will env guardian =
    has_guardian_voted will_id guardian env.now will.grace_period_days env

abbrev pub cancel_voted_now : Will → Env → Address → Bool
cancel_voted_now will env guardian =
    has_guardian_cancel_voted will.id guardian env.now will.grace_period_days env

-- `now < guardian_list_updated_at + GUARDIAN_COOLDOWN_DAYS * SECONDS_PER_DAY`
unfoldable pub assert_cooldown_over : Will → Action (Unit {0})
assert_cooldown_over will = do
  now ← gets (λ env. env.now)
  cooldown_ends ← lift (days_after will.guardian_list_updated_at guardian_cooldown_days)
  panic_if (ltb now cooldown_ends) guardian_cooldown_active

abbrev pub with_votes : Will → ℕ × ℕ → Will
with_votes will (votes, weight) = record will {
  guardian_votes = votes;
  guardian_vote_weight = weight;
}

abbrev pub with_cancel_votes : Will → ℕ × ℕ → Will
with_cancel_votes will (votes, weight) = record will {
  guardian_cancel_votes = votes;
  guardian_cancel_vote_weight = weight;
}

-- The quorum test of `guardian_trigger`: the live weight is read only if the counter is enough.
unfoldable pub has_quorum : ℕ → Will → Env → Result Bool
unfolding live_guardian_vote_weight
has_quorum will_id will env =
    if leb will.guardian_threshold will.guardian_vote_weight
    then Errors.◌>>=◌ (live_guardian_vote_weight (voted_now will_id will env) will.guardians 0)
        (λ live. ok (leb will.guardian_threshold live))
    else ok false

unfoldable pub release_by_quorum : ℕ → Address → Will → Bool → Action (Unit {0})
release_by_quorum will_id guardian will false = pure tt
release_by_quorum will_id guardian will true = do
  record_transition will_id active released guardian "gtrigr"
  distribute will none

-- The end of `guardian_trigger`, with the will that has the new tally.
unfoldable pub store_vote : ℕ → Address → ℕ → Will → Action (Unit {0})
unfolding has_quorum release_by_quorum
store_vote will_id guardian weight will = do
  save_will will
  publish (guardian_voted will_id guardian weight will.guardian_vote_weight)
  quorum ← query (has_quorum will_id will)
  release_by_quorum will_id guardian will quorum

unfoldable pub guardian_trigger : ℕ → Address → GuardianVoteReason → Action (Unit {0})
unfolding assert_cooldown_over consented_weight tally_guardian_votes store_vote
guardian_trigger will_id guardian reason = do
  require_auth guardian
  will ← query (load_will will_id)
  lift (assert_status will active will_not_active)
  assert_cooldown_over will
  weight ← lift (consented_weight will.guardians guardian)
  voted ← gets (λ env. has_guardian_voted will_id guardian env.now will.grace_period_days env)
  panic_if voted already_voted
  now ← gets (λ env. env.now)
  modify (set_guardian_voted will_id guardian now reason)
  tally ← gets (λ env. tally_guardian_votes (voted_now will.id will env) will.guardians 0 0)
  store_vote will_id guardian weight (with_votes will tally)

-- The end of `guardian_cancel_trigger`, once the cancel votes reach the threshold.
abbrev pub cleared_will : Will → ℕ → Will
cleared_will will now = record (reactivated_will will now) { triggered_beneficiaries = none }

unfoldable pub cancel_by_quorum : ℕ → Address → Will → Bool → Action (Unit {0})
cancel_by_quorum will_id guardian will false = pure tt
cancel_by_quorum will_id guardian will true = do
  now ← gets (λ env. env.now)
  modify (reset_guardian_cancel_votes will)
  modify (reset_guardian_votes will)
  save_will (cleared_will will now)
  modify (unindex_triggered_will will_id)
  record_transition will_id triggered active guardian "gcancel"
  next_deadline ← lift (days_after now will.checkin_period_days)
  publish (guardian_cancelled_trigger will_id guardian next_deadline)

-- The end of `guardian_cancel_trigger`, with the will that has the new tally.
unfoldable pub store_cancel_vote : ℕ → Address → ℕ → Will → Action (Unit {0})
unfolding cancel_by_quorum
store_cancel_vote will_id guardian weight will = do
  save_will will
  publish (guardian_cancel_voted will_id guardian weight will.guardian_cancel_vote_weight)
  cancel_by_quorum will_id guardian will
      (leb will.guardian_threshold will.guardian_cancel_vote_weight)

abbrev or_zero : Option ℕ → ℕ
or_zero none = 0
or_zero (some t) = t

unfoldable pub guardian_cancel_trigger : ℕ → Address → Action (Unit {0})
unfolding assert_cooldown_over consented_weight tally_guardian_votes store_cancel_vote
guardian_cancel_trigger will_id guardian = do
  require_auth guardian
  will ← query (load_will will_id)
  lift (assert_status will triggered will_not_triggered)
  now ← gets (λ env. env.now)
  grace_deadline ← lift (days_after (or_zero will.trigger_time) will.grace_period_days)
  panic_if (ltb grace_deadline now) grace_period_expired
  assert_cooldown_over will
  weight ← lift (consented_weight will.guardians guardian)
  voted ← gets (λ env. has_guardian_cancel_voted will_id guardian now will.grace_period_days env)
  panic_if voted already_voted
  modify (set_guardian_cancel_voted will_id guardian now)
  tally ← gets (λ env. tally_guardian_votes (cancel_voted_now will env) will.guardians 0 0)
  store_cancel_vote will_id guardian weight (with_cancel_votes will tally)
