-- ===== src/Migration/Upgrade.antt =====
-- The upgrade ends, and what the will that it gives satisfies.
use sorowill_contracts.Prelude.{
  ℕ, zero, suc, ◌-◌, ◌<◌, ◌≤◌, ◌≡◌, refl, true, some, arith, ◌⊎◌, inl, inr,
}
use sorowill_contracts.Errors.{Result, ok, ok-injective, ◌>>=◌, ◌>>◌}
use sorowill_contracts.Types.{Will}
use sorowill_contracts.Contract.Create.{current_schema_version}
use sorowill_contracts.Migration.{
  migrate_v0_to_v1, is_valid_migration, validate_step, upgrade_step, upgrade_loop, upgrade,
}

at_or_below : (v : ℕ) → (v ≡ 0) ⊎ (1 ≤ v)
at_or_below zero = inl refl
at_or_below (suc v) = inr (omega arith)

-- A will of the current version is given back at once.
upgraded_already :
    (will : Will) (fuel : ℕ)
    → current_schema_version ≤ will.schema_version
    → upgrade_loop fuel will ≡ some (ok will)
unfolding upgrade_loop
upgraded_already will zero h = ground arith
upgraded_already will (suc fuel) h = ground arith

-- A will of version 0 takes one iteration.
abbrev upgraded_once : Will → Result Will
upgraded_once will =
    upgrade_step will >>= λ will'. validate_step will' will.schema_version >> ok will'

upgrade_loop_once :
    (will : Will) (fuel : ℕ)
    → will.schema_version ≡ 0
    → upgrade_loop (suc fuel) will ≡ some (upgraded_once will)
unfolding upgrade_loop upgrade_step migrate_v0_to_v1
upgrade_loop_once will fuel e =
    ground (arith, upgraded_already (record will { schema_version = 1 }) fuel (omega arith))

upgrade-once : (will : Will) → will.schema_version ≡ 0 → upgrade will ≡ upgraded_once will
unfolding upgrade
upgrade-once will e =
    let one : current_schema_version - will.schema_version ≡ 1 = omega arith in
    rw (one, upgrade_loop_once will 0 e) refl

upgrade-already :
    (will : Will) → current_schema_version ≤ will.schema_version → upgrade will ≡ ok will
unfolding upgrade
upgrade-already will h =
    rw (upgraded_already will (current_schema_version - will.schema_version) h) refl

-- The loop ends within one iteration for each version below the current one, and more fuel changes
-- nothing.
pub upgrade_loop-ends :
    (will : Will) (fuel : ℕ)
    → current_schema_version - will.schema_version ≤ fuel
    → upgrade_loop fuel will ≡ some (upgrade will)
upgrade_loop-ends will zero enough =
    rw (upgraded_already will 0 (omega arith), upgrade-already will (omega arith)) refl
upgrade_loop-ends will (suc fuel) enough = elim (at_or_below will.schema_version) [
  | inl e ↦ rw (upgrade_loop_once will fuel e, upgrade-once will e) refl
  | inr h ↦ rw (upgraded_already will (suc fuel) h, upgrade-already will h) refl
]

-- A will of the current version or a later one is given back as it is. An older one is given back
-- only with its version raised to the current one, and only if it passes the rules of a migration.
pub upgrade-outcome :
    (will upgraded : Will)
    → upgrade will ≡ ok upgraded
    → ((current_schema_version ≤ will.schema_version) × (upgraded ≡ will))
      ⊎ ((will.schema_version < current_schema_version)
          × (upgraded ≡ record will { schema_version = current_schema_version })
          × (is_valid_migration upgraded will.schema_version ≡ true))
unfolding upgrade_step migrate_v0_to_v1 validate_step
upgrade-outcome will upgraded h = elim (at_or_below will.schema_version) [
  | inl e ↦
      (let once : upgraded_once will ≡ ok upgraded = rw (upgrade-once will e) at h in
        inr (omega arith, ground arith, ground arith))
  | inr k ↦ (let same = ok-injective (rw (upgrade-already will k) at h) in inl (k, cc))
]
