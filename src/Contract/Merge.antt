-- ===== src/Contract/Merge.antt =====
-- lib.rs: `merge_wills`, which folds one will of an owner into another.
pub mod Shares
pub mod Total
pub mod Outcome
pub mod Balances
use sorowill_contracts.Prelude.{
  ℕ, not, ◌||◌, List, [], ◌∷◌, ◌++◌, ltb, ◌==◌, min, max, length, if◌then◌else◌,
}
use sorowill_contracts.Prelude.Int.{ℤ, pos}
use sorowill_contracts.Errors
use sorowill_contracts.Errors.{
  same_will_id, not_same_owner, not_owner, will_not_both_active, primary_token_mismatch,
  merge_with_hashed_beneficiaries, merge_would_exceed_limits, Result, ok,
}
use sorowill_contracts.Types.{
  Address, TokenMap, Beneficiary, GuardianConsent, pending, accepted, rejected, Guardian, Will,
  active, cancelled,
}
use sorowill_contracts.Types.Balances.{get_or_zero, set}
use sorowill_contracts.Env.{Env, wills_merged}
use sorowill_contracts.Env.Action.{
  Action, lift, query, panic_if, modify, require_auth, publish, add_i128, ◌>>=◌, ◌>>◌,
}
use sorowill_contracts.Shares.{max_beneficiaries, max_tokens}
use sorowill_contracts.Storage.Stats.{decrement_active_will_count}
use sorowill_contracts.Storage.Wills.{load_will, save_will}
use sorowill_contracts.Storage.Indexes.{remove_owner_index}
use sorowill_contracts.Storage.Votes.{reset_guardian_votes, reset_guardian_cancel_votes}
use sorowill_contracts.Storage.History.{record_transition}
use sorowill_contracts.Validation.{max_guardians, assert_status, load_owned, unclaimed_hashed_bps}
use sorowill_contracts.Distribute.Payout.{remove_beneficiary_indexes}
use sorowill_contracts.Contract.Create.{index_beneficiaries}
use sorowill_contracts.Contract.Merge.Shares.{merge_beneficiaries}

unfoldable pub more_advanced_consent : GuardianConsent → GuardianConsent → GuardianConsent
more_advanced_consent rejected rejected = rejected
more_advanced_consent rejected pending = pending
more_advanced_consent rejected accepted = pending
more_advanced_consent pending rejected = pending
more_advanced_consent pending pending = pending
more_advanced_consent pending accepted = accepted
more_advanced_consent accepted rejected = pending
more_advanced_consent accepted pending = accepted
more_advanced_consent accepted accepted = accepted

-- The two entries of one address.
abbrev pub merged_guardian : Guardian → Guardian → Guardian
merged_guardian existing guardian = record {
  address = existing.address;
  weight = max existing.weight guardian.weight;
  consent = more_advanced_consent existing.consent guardian.consent;
}

-- One guardian of the second will enters the list.
unfoldable pub add_guardian : List Guardian → Guardian → List Guardian
add_guardian [] guardian = guardian ∷ []
add_guardian (existing ∷ merged) guardian =
    let rest = add_guardian merged guardian in
    if existing.address == guardian.address
    then merged_guardian existing guardian ∷ merged
    else existing ∷ rest

unfoldable pub merge_guardians : List Guardian → List Guardian → List Guardian
unfolding add_guardian
merge_guardians merged [] = merged
merge_guardians merged (guardian ∷ guardians) =
    merge_guardians (add_guardian merged guardian) guardians

-- The loop that adds the second will's balances.
unfoldable pub combine_balances : TokenMap → TokenMap → Result TokenMap
combine_balances combined [] = ok combined
combine_balances combined ((token, amount) ∷ balances) =
    Errors.◌>>=◌ (add_i128 (get_or_zero combined token) amount)
      (λ total. combine_balances (set combined token total) balances)

-- The surviving will.
abbrev pub merged_will : Will → Will → List Beneficiary → List Guardian → TokenMap → ℤ → Will
merged_will will_a will_b beneficiaries guardians balances balance = record will_a {
  beneficiaries = beneficiaries;
  guardians = guardians;
  checkin_period_days = min will_a.checkin_period_days will_b.checkin_period_days;
  grace_period_days = max will_a.grace_period_days will_b.grace_period_days;
  balances = balances;
  balance = balance;
  guardian_votes = 0;
  guardian_cancel_votes = 0;
}

-- The will that is folded in.
abbrev pub consumed_will : Will → Will
consumed_will will = record will {
  balances = [];
  balance = pos 0;
  status = cancelled;
  guardian_votes = 0;
  guardian_cancel_votes = 0;
}

-- The checks on the two wills that need no more of the environment.
unfoldable pub assert_mergeable : Will → Will → Result (Unit {0})
unfolding unclaimed_hashed_bps
assert_mergeable will_a will_b = Errors.◌>>◌ (assert_status will_a active will_not_both_active) (
    Errors.◌>>◌ (assert_status will_b active will_not_both_active) (
      Errors.◌>>◌ (Errors.panic_if (not (will_a.token == will_b.token)) primary_token_mismatch) (
        Errors.panic_if
          (ltb 0 (unclaimed_hashed_bps will_a.hashed_beneficiaries 0)
            || ltb 0 (unclaimed_hashed_bps will_b.hashed_beneficiaries 0))
          merge_with_hashed_beneficiaries)))

-- The surviving will, computed before anything is changed.
unfoldable pub merge : Will → Will → Result Will
unfolding merge_guardians combine_balances
merge will_a will_b = Errors.◌>>=◌ (merge_beneficiaries will_a will_b) (λ beneficiaries.
    Errors.◌>>◌
      (Errors.panic_if (ltb max_beneficiaries (length beneficiaries)) merge_would_exceed_limits)
      (let guardians = merge_guardians will_a.guardians will_b.guardians in
        Errors.◌>>◌
          (Errors.panic_if (ltb max_guardians (length guardians)) merge_would_exceed_limits)
          (Errors.◌>>=◌ (add_i128 will_a.balance will_b.balance) (λ balance.
            Errors.◌>>=◌ (combine_balances will_a.balances will_b.balances) (λ balances.
              Errors.◌>>◌
                (Errors.panic_if (ltb max_tokens (length balances)) merge_would_exceed_limits)
                (ok (merged_will will_a will_b beneficiaries guardians balances balance)))))))

unfoldable pub reset_all_votes : Will → Env → Env
reset_all_votes will env = reset_guardian_cancel_votes will (reset_guardian_votes will env)

-- The changes of the votes, the indexes and the two wills.
unfoldable pub store_merge : Address → ℕ → Will → Will → Will → Action (Unit {0})
unfolding reset_all_votes
store_merge owner will_id_b will_a will_b merged = do
  modify (reset_all_votes will_a)
  modify (reset_all_votes will_b)
  modify (remove_beneficiary_indexes will_b.beneficiaries will_id_b)
  modify decrement_active_will_count
  modify (remove_owner_index owner will_id_b)
  save_will merged
  save_will (consumed_will will_b)

-- The audit trail, the index of the survivor's beneficiaries and the event.
unfoldable pub record_merge : Address → ℕ → ℕ → Will → Action (Unit {0})
record_merge owner will_id_a will_id_b merged = do
  record_transition will_id_b active cancelled owner "merge"
  record_transition will_id_a active active owner "merge"
  index_beneficiaries merged.beneficiaries will_id_a
  publish (wills_merged will_id_a will_id_b owner merged.balance merged.beneficiaries)

-- The second pair of loads reads the same wills again.
unfoldable pub merge_wills : Address → ℕ → ℕ → Action (Unit {0})
unfolding assert_mergeable merge store_merge record_merge
merge_wills owner will_id_a will_id_b = do
  require_auth owner
  panic_if (will_id_a == will_id_b) same_will_id
  first_a ← query (load_will will_id_a)
  first_b ← query (load_will will_id_b)
  panic_if (not (first_a.owner == first_b.owner)) not_same_owner
  panic_if (not (first_a.owner == owner)) not_owner
  will_a ← query (load_owned will_id_a owner)
  will_b ← query (load_will will_id_b)
  panic_if (not (will_b.owner == owner)) not_same_owner
  lift (assert_mergeable will_a will_b)
  merged ← lift (merge will_a will_b)
  store_merge owner will_id_b will_a will_b merged
  record_merge owner will_id_a will_id_b merged
