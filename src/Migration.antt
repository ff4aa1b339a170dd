-- ===== src/Migration.antt =====
-- migration.rs, migration_rules.rs and `migrate_will` of lib.rs: the upgrade of a stored will to the
-- current layout, version by version.
pub mod Upgrade
use sorowill_contracts.Prelude.{
  ℕ, zero, suc, ◌+◌, ◌-◌, Bool, true, false, not, ◌&&◌, ◌||◌, Option, none, some, List, [], ◌∷◌,
  ltb, leb, ◌==◌, length, is_empty, is_none, if◌then◌else◌,
}
use sorowill_contracts.Prelude.Int.{ℤ, pos, ltb_ℤ, eqb_ℤ}
use sorowill_contracts.Prelude.Words.{u32_max}
use sorowill_contracts.Errors
use sorowill_contracts.Errors.{
  unsupported_schema_version, distribution_mismatch, zero_amount, invalid_period,
  too_many_beneficiaries, invalid_guardian_threshold, invalid_percentages,
  migration_invariant_violation, contract_error, Result, ok, err,
}
use sorowill_contracts.Types.{
  Address, TokenMap, Allocation, percentage, fixed_amount, Beneficiary, Will, triggered, is_status,
}
use sorowill_contracts.Types.Balances.{get}
use sorowill_contracts.Env.{will_migrated}
use sorowill_contracts.Env.Action.{
  Action, choose, pure, lift, query, require_auth, publish, ◌>>=◌, ◌>>◌,
}
use sorowill_contracts.Shares.{max_beneficiaries, max_tokens}
use sorowill_contracts.Storage.Wills.{save_will}
use sorowill_contracts.Validation.{load_owned, add_visible_bps}
use sorowill_contracts.Contract.Create.{current_schema_version}

abbrev differs : Option ℤ → ℤ → Bool
differs none balance = false
differs (some held) balance = not (eqb_ℤ held balance)

unfoldable has_negative : TokenMap → Bool
has_negative [] = false
has_negative ((_, balance) ∷ balances) = ltb_ℤ balance (pos 0) || has_negative balances

unfoldable assert_migration_invariants : Will → Result (Unit {0})
unfolding get has_negative add_visible_bps
assert_migration_invariants will =
    Errors.◌>>◌
      (Errors.panic_if (differs (get will.balances will.token) will.balance) distribution_mismatch)
      (Errors.◌>>◌ (Errors.panic_if (has_negative will.balances) zero_amount) (
        Errors.◌>>◌
          (Errors.panic_if (will.checkin_period_days == 0 || will.grace_period_days == 0)
            invalid_period)
          (Errors.◌>>◌
            (Errors.panic_if (is_empty will.beneficiaries || ltb 10 (length will.beneficiaries))
              too_many_beneficiaries)
            (Errors.◌>>◌
              (Errors.panic_if
                (not (is_empty will.guardians)
                  && (will.guardian_threshold == 0
                      || ltb (length will.guardians) will.guardian_threshold))
                invalid_guardian_threshold)
              (Errors.◌>>=◌ (add_visible_bps will.beneficiaries 0)
                (λ total_pct. Errors.panic_if (ltb 10000 total_pct) invalid_percentages))))))

unfoldable pub migrate_v0_to_v1 : Will → Will
migrate_v0_to_v1 will = record will { schema_version = 1 }

-- The u64 sum of `is_valid_migration`.
unfoldable percentage_sum : List Beneficiary → ℕ
percentage_sum [] = 0
percentage_sum (b ∷ bs) = elim b.allocation [
  | percentage bp ↦ bp + percentage_sum bs
  | fixed_amount _ ↦ percentage_sum bs
]

unfoldable pub is_valid_migration : Will → ℕ → Bool
unfolding percentage_sum
is_valid_migration will previous_version =
    leb (previous_version + 1) u32_max
    && (previous_version + 1) == will.schema_version
    && not (is_status will.status triggered && is_none will.trigger_time)
    && not (
        ltb (length will.guardians) will.guardian_votes
        || ltb (length will.guardians) will.guardian_cancel_votes)
    && not
        (ltb max_beneficiaries (length will.beneficiaries) || ltb max_tokens (length will.balances))
    && leb (percentage_sum will.beneficiaries) 10000

unfoldable pub validate_step : Will → ℕ → Result (Unit {0})
unfolding is_valid_migration
validate_step will previous_version =
    Errors.panic_if (not (is_valid_migration will previous_version)) migration_invariant_violation

-- The arm of the `match` for one version.
unfoldable pub upgrade_step : Will → Result Will
unfolding migrate_v0_to_v1 assert_migration_invariants
upgrade_step will =
    if will.schema_version == 0
    then Errors.◌>>◌ (assert_migration_invariants (migrate_v0_to_v1 will))
        (ok (migrate_v0_to_v1 will))
    else err (contract_error unsupported_schema_version)

-- The loop, on fuel: `none` if the fuel is spent and the loop is not over.
unfoldable pub upgrade_loop : ℕ → Will → Option (Result Will)
unfolding upgrade_step validate_step
upgrade_loop zero will =
    if ltb will.schema_version current_schema_version then none else some (ok will)
upgrade_loop (suc fuel) will =
    if ltb will.schema_version current_schema_version
    then elim (upgrade_step will) [
      | err t ↦ some (err t)
      | ok will' ↦ elim (validate_step will' will.schema_version) [
        | err t ↦ some (err t)
        | ok _ ↦ upgrade_loop fuel will'
      ]
    ]
    else some (ok will)

abbrev result_of : Option (Result Will) → Result Will
result_of none = err (contract_error unsupported_schema_version)
result_of (some r) = r

-- One iteration for each version below the current one.
unfoldable pub upgrade : Will → Result Will
unfolding upgrade_loop
upgrade will = result_of (upgrade_loop (current_schema_version - will.schema_version) will)

unfoldable store_upgraded : ℕ → Address → Will → Action (Unit {0})
unfolding upgrade
store_upgraded will_id owner will = do
  upgraded ← lift (upgrade will)
  save_will upgraded
  publish (will_migrated will_id owner will.schema_version current_schema_version)

unfoldable pub migrate_will : ℕ → Address → Action (Unit {0})
unfolding store_upgraded
migrate_will will_id owner = do
  require_auth owner
  will ← query (load_owned will_id owner)
  choose (leb current_schema_version will.schema_version) (pure tt)
      (store_upgraded will_id owner will)
