-- ===== src/Tests/Creations.antt =====
-- New wills at concrete inputs.
use sorowill_contracts.Prelude.{ℕ, ◌+◌, ◌≤◌, ◌≡◌, refl, none, List, [], ◌∷◌, length, arith}
use sorowill_contracts.Prelude.Int.{pos}
use sorowill_contracts.Errors.{Result, ok, err}
use sorowill_contracts.Types.{active}
use sorowill_contracts.Env.{Env}
use sorowill_contracts.Contract.Create.{create_will}
use sorowill_contracts.Contract.Batch.{WillSpec, batch_max, batch_create_wills}
use sorowill_contracts.Contract.Fresh.{last_id, Entry}
use sorowill_contracts.Contract.Fresh.Creators.{
  IsCreated, AreStored, numbers_after, create_will-fresh, batch_create_wills-fresh,
}
use sorowill_contracts.Tests.Sample.{heir, second_heir, will, state}

-- A contract with one will, of id 1.
abbrev before : Env
before = state 5000 (will active none)

abbrev left_by : {A : Type 0} → Result (A × Env) → Env
left_by (ok (_, env)) = env
left_by (err _) = before

abbrev spec : WillSpec
spec = record {
  tokens = (5, pos 300) ∷ [];
  beneficiaries = heir ∷ second_heir ∷ [];
  checkin_period_days = 30;
  grace_period_days = 7;
  guardians = [];
  guardian_threshold = 0;
}

abbrev new : Result (ℕ × Env)
new = create_will 10 ((5, pos 300) ∷ []) (heir ∷ second_heir ∷ []) 30 7 [] 0 none 0 before

creates : new ≡ ok (2, left_by new)
unfolding create_will sorowill_contracts.Contract.Create.checked_bounty
    sorowill_contracts.Contract.Create.check_tokens
    sorowill_contracts.Validation.assert_beneficiary_count
    sorowill_contracts.Validation.assert_valid_guardians
    sorowill_contracts.Validation.assert_valid_periods
    sorowill_contracts.Contract.Create.checked_threshold
    sorowill_contracts.Storage.Indexes.assert_index_capacity
    sorowill_contracts.Contract.Create.deposit sorowill_contracts.Prelude.Int.◌+ℤ◌
    sorowill_contracts.Types.Balances.get_or_zero
    sorowill_contracts.Validation.assert_valid_allocations sorowill_contracts.Types.Balances.set
    sorowill_contracts.Storage.Stats.next_will_id
    sorowill_contracts.Contract.Create.index_beneficiaries
    sorowill_contracts.Storage.Indexes.index_by_beneficiary
    sorowill_contracts.Storage.Indexes.index_push sorowill_contracts.Contract.Create.initial_status
    sorowill_contracts.Contract.Create.lock_tokens sorowill_contracts.Contract.Create.new_guardians
    sorowill_contracts.Prelude.contains sorowill_contracts.Prelude.Words.saturating_add_i128
    sorowill_contracts.Storage.History.append_history
    sorowill_contracts.Storage.History.next_history_seq
    sorowill_contracts.Storage.History.record_transition sorowill_contracts.Storage.History.trim
    sorowill_contracts.Storage.Indexes.assert_beneficiaries_capacity
    sorowill_contracts.Storage.Indexes.assert_single_index_capacity
    sorowill_contracts.Storage.Indexes.index_by_owner
    sorowill_contracts.Storage.Stats.adjust_entries
    sorowill_contracts.Storage.Stats.adjust_locked_value sorowill_contracts.Storage.Stats.adjusted
    sorowill_contracts.Storage.Stats.increment_active_will_count
    sorowill_contracts.Storage.Wills.forget_removed sorowill_contracts.Storage.Wills.is_guardian
    sorowill_contracts.Storage.Wills.save_will sorowill_contracts.Types.Balances.get
    sorowill_contracts.Validation.check_guardians sorowill_contracts.Validation.count_allocation
    sorowill_contracts.Validation.count_allocations sorowill_contracts.Validation.days_after
    sorowill_contracts.Validation.names_address sorowill_contracts.Validation.total_checked_add
creates = refl

create_will-fresh_example :
    (2 ≡ last_id before + 1)
    × (last_id (left_by new) ≡ 2)
    × Entry
        (left_by new).wills
        2
        (IsCreated 10 ((5, pos 300) ∷ []) (heir ∷ second_heir ∷ []) 30 7 [] 0 5000 2)
    × ((left_by new).wills 1 ≡ before.wills 1)
create_will-fresh_example =
    create_will-fresh 10 ((5, pos 300) ∷ []) (heir ∷ second_heir ∷ []) 30 7 [] 0 none 0 before
      (left_by new) 2 1 creates (omega arith)

abbrev batch : Result (List ℕ × Env)
batch = batch_create_wills 10 (spec ∷ spec ∷ []) before

creates_two : batch ≡ ok (2 ∷ 3 ∷ [], left_by batch)
unfolding batch_create_wills sorowill_contracts.Contract.Create.check_tokens
    sorowill_contracts.Validation.assert_beneficiary_count
    sorowill_contracts.Validation.assert_valid_guardians
    sorowill_contracts.Validation.assert_valid_periods
    sorowill_contracts.Contract.Create.checked_threshold
    sorowill_contracts.Contract.Clone.take_deposits sorowill_contracts.Prelude.Int.◌+ℤ◌
    sorowill_contracts.Types.Balances.get_or_zero
    sorowill_contracts.Validation.assert_valid_allocations sorowill_contracts.Types.Balances.set
    sorowill_contracts.Storage.Stats.next_will_id
    sorowill_contracts.Contract.Create.index_beneficiaries
    sorowill_contracts.Storage.Indexes.index_by_beneficiary
    sorowill_contracts.Storage.Indexes.index_push sorowill_contracts.Contract.Clone.store_new_will
    sorowill_contracts.Storage.Wills.save_will sorowill_contracts.Storage.Indexes.index_by_owner
    sorowill_contracts.Contract.Batch.create_all sorowill_contracts.Contract.Batch.create_one
    sorowill_contracts.Contract.Create.new_guardians sorowill_contracts.Prelude.Int.◌*ℤ◌
    sorowill_contracts.Prelude.contains sorowill_contracts.Prelude.Words.saturating_add_i128
    sorowill_contracts.Storage.History.append_history
    sorowill_contracts.Storage.History.next_history_seq
    sorowill_contracts.Storage.History.record_transition sorowill_contracts.Storage.History.trim
    sorowill_contracts.Storage.Stats.adjust_entries
    sorowill_contracts.Storage.Stats.adjust_locked_for_balances
    sorowill_contracts.Storage.Stats.adjust_locked_value
    sorowill_contracts.Storage.Stats.adjust_unless_zero sorowill_contracts.Storage.Stats.adjusted
    sorowill_contracts.Storage.Stats.increment_active_will_count
    sorowill_contracts.Storage.Wills.forget_removed sorowill_contracts.Storage.Wills.is_guardian
    sorowill_contracts.Types.Balances.get sorowill_contracts.Validation.check_guardians
    sorowill_contracts.Validation.count_allocation sorowill_contracts.Validation.count_allocations
    sorowill_contracts.Validation.days_after sorowill_contracts.Validation.names_address
    sorowill_contracts.Validation.total_checked_add
creates_two = refl

batch_create_wills-fresh_example :
    (1 ≤ length (spec ∷ spec ∷ []))
    × (length (spec ∷ spec ∷ []) ≤ batch_max)
    × ((2 ∷ 3 ∷ []) ≡ numbers_after (last_id before) (length (spec ∷ spec ∷ [])))
    × AreStored (left_by batch).wills 10 5000 1 (spec ∷ spec ∷ [])
    × ((left_by batch).wills 1 ≡ before.wills 1)
batch_create_wills-fresh_example =
    batch_create_wills-fresh 10 (spec ∷ spec ∷ []) before (left_by batch) (2 ∷ 3 ∷ []) 1 creates_two
      (omega arith)
