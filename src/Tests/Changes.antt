-- ===== src/Tests/Changes.antt =====
-- Merges, splits, renunciations, archiving and migration at concrete inputs.
use sorowill_contracts.Prelude.{
  ℕ, ◌+◌, ◌-◌, ◌<◌, ◌≤◌, ◌≡◌, ◌≢◌, ◌⊎◌, refl, true, false, Option, none, some, List, [], ◌∷◌, ◌==◌,
  update, contains, arith, if◌then◌else◌,
}
use sorowill_contracts.Prelude.Int.{ℤ, pos, ◌+ℤ◌}
use sorowill_contracts.Prelude.Words.{u32_max, u64_max}
use sorowill_contracts.Errors.{ok, err}
use sorowill_contracts.Types.{
  Address, TokenMap, Beneficiary, percentage, fixed_amount, Will, active, released, cancelled,
}
use sorowill_contracts.Types.Balances.{get_or_zero}
use sorowill_contracts.Env.{Env, encoded}
use sorowill_contracts.Storage.Wills.{load_will}
use sorowill_contracts.Distribute.Plan.{percentage_count}
use sorowill_contracts.Validation.Allocations.{total_bps}
use sorowill_contracts.Contract.Create.{current_schema_version}
use sorowill_contracts.Contract.Renormalize.{renormalize_percentages}
use sorowill_contracts.Contract.Renormalize.Total.{addresses, total_bps-renormalize_percentages}
use sorowill_contracts.Contract.Renounce.{share_out}
use sorowill_contracts.Contract.Renounce.Shares.{share_out-conserves}
use sorowill_contracts.Contract.Merge.{merge, merge_wills, consumed_will}
use sorowill_contracts.Contract.Merge.Shares.{merge_beneficiaries}
use sorowill_contracts.Contract.Merge.Balances.{merge-conserves}
use sorowill_contracts.Contract.Merge.Total.{IsSettled, merge_beneficiaries-IsSettled}
use sorowill_contracts.Contract.Merge.Outcome.{IsMergeable, merged_wills, merge_wills-outcome}
use sorowill_contracts.Contract.Split.{SplitPlan, plan_split, split_will}
use sorowill_contracts.Contract.Split.Conserves.{IsShared, plan_split-conserves}
use sorowill_contracts.Contract.Split.Count.{Effect, split_will-counts_twice}
use sorowill_contracts.Contract.Archive.{archive_will}
use sorowill_contracts.Contract.Archive.Outcome.{IsArchived, archive_will-outcome}
use sorowill_contracts.Migration.{upgrade, upgrade_loop}
use sorowill_contracts.Migration.Upgrade.{upgrade_loop-ends}
use sorowill_contracts.Tests.Sample.{second_heir, will, state, after}

-- The will 2 of the same owner, with dust for two other heirs.
abbrev dust : Will
dust = record (will active none) {
  id = 2;
  balances = (5, pos 2) ∷ [];
  balance = pos 2;
  beneficiaries =
      record { address = 22; allocation = percentage 5000 }
      ∷ record { address = 23; allocation = percentage 5000 }
      ∷ [];
}

-- The will 1 with so much that a unit of the other will is no basis point.
abbrev rich : Will
rich = record (will active none) {
  balances = (5, pos 1000000) ∷ [];
  balance = pos 1000000;
  beneficiaries = record { address = 20; allocation = percentage 10000 } ∷ [];
}

abbrev two_wills : Env
two_wills = record (state 5000 rich) {
  wills = λ i. if i == 1 then some (encoded rich) else if i == 2 then some (encoded dust) else none;
}

-- The percentages of this merge come to 10,001 basis points.
abbrev overfull : List Beneficiary
overfull =
    record { address = 20; allocation = percentage 9999 }
    ∷ record { address = 22; allocation = percentage 1 }
    ∷ record { address = 23; allocation = percentage 1 }
    ∷ []

merged_shares : merge_beneficiaries rich dust ≡ ok overfull
unfolding merge_beneficiaries sorowill_contracts.Shares.proportional_share
    sorowill_contracts.Prelude.Int.◌*ℤ◌ sorowill_contracts.Prelude.Int.div_ℤ ◌+ℤ◌
    sorowill_contracts.Prelude.Int.mod_ℤ
merged_shares = refl

overfull_counted : 1 ≤ percentage_count overfull
unfolding percentage_count
overfull_counted = omega arith

overfull_total : total_bps overfull ≡ 10001
unfolding total_bps
overfull_total = refl

merge_beneficiaries-IsSettled_example : IsSettled overfull
merge_beneficiaries-IsSettled_example =
    merge_beneficiaries-IsSettled rich dust overfull merged_shares overfull_counted

abbrev merged : Will
merged = elim (merge rich dust) [ ok m ↦ m | err _ ↦ rich ]

merges : merge rich dust ≡ ok merged
unfolding merge merge_beneficiaries sorowill_contracts.Shares.proportional_share
    sorowill_contracts.Prelude.Int.◌*ℤ◌ sorowill_contracts.Prelude.Int.div_ℤ ◌+ℤ◌
    sorowill_contracts.Prelude.Int.mod_ℤ get_or_zero sorowill_contracts.Types.Balances.set
merges = refl

merge-conserves_example :
    (merged.id ≡ rich.id)
    × (merged.owner ≡ rich.owner)
    × (merged.token ≡ rich.token)
    × (merged.status ≡ rich.status)
    × (merged.guardian_votes ≡ 0)
    × (merged.guardian_cancel_votes ≡ 0)
    × (merged.guardian_vote_weight ≡ rich.guardian_vote_weight)
    × (merged.guardian_cancel_vote_weight ≡ rich.guardian_cancel_vote_weight)
    × ((token : Address)
        → get_or_zero merged.balances token
          ≡ get_or_zero rich.balances token +ℤ get_or_zero dust.balances token)
merge-conserves_example = merge-conserves rich dust merged (tt, tt) merges

abbrev after_merge : Env
after_merge = after two_wills (merge_wills 10 1 2 two_wills)

wills_merged : merge_wills 10 1 2 two_wills ≡ ok (tt, after_merge)
unfolding merge_wills load_will sorowill_contracts.Validation.load_owned
    sorowill_contracts.Validation.assert_status merge_beneficiaries
    sorowill_contracts.Shares.proportional_share sorowill_contracts.Prelude.Int.◌*ℤ◌
    sorowill_contracts.Prelude.Int.div_ℤ ◌+ℤ◌ sorowill_contracts.Prelude.Int.mod_ℤ get_or_zero
    sorowill_contracts.Types.Balances.set sorowill_contracts.Storage.Wills.save_will
    sorowill_contracts.Storage.Indexes.remove_owner_index
    sorowill_contracts.Storage.Stats.decrement_active_will_count
    sorowill_contracts.Distribute.Payout.remove_beneficiary_indexes
    sorowill_contracts.Storage.Indexes.remove_beneficiary_index
    sorowill_contracts.Storage.Votes.reset_guardian_cancel_votes
    sorowill_contracts.Contract.Create.index_beneficiaries
    sorowill_contracts.Contract.Merge.Shares.accumulate
    sorowill_contracts.Contract.Merge.Shares.change_last
    sorowill_contracts.Contract.Merge.Shares.gather
    sorowill_contracts.Contract.Merge.Shares.merge_allocation
    sorowill_contracts.Contract.Merge.Shares.recalculate
    sorowill_contracts.Contract.Merge.Shares.settle_total
    sorowill_contracts.Contract.Merge.Shares.share_bps
    sorowill_contracts.Contract.Merge.add_guardian
    sorowill_contracts.Contract.Merge.assert_mergeable
    sorowill_contracts.Contract.Merge.combine_balances merge
    sorowill_contracts.Contract.Merge.merge_guardians
    sorowill_contracts.Contract.Merge.more_advanced_consent
    sorowill_contracts.Contract.Merge.record_merge sorowill_contracts.Contract.Merge.reset_all_votes
    sorowill_contracts.Contract.Merge.store_merge contains
    sorowill_contracts.Prelude.Words.saturating_add_i128
    sorowill_contracts.Prelude.Words.saturating_add_u32
    sorowill_contracts.Storage.History.append_history
    sorowill_contracts.Storage.History.next_history_seq
    sorowill_contracts.Storage.History.record_transition sorowill_contracts.Storage.History.trim
    sorowill_contracts.Storage.Indexes.index_by_beneficiary
    sorowill_contracts.Storage.Indexes.index_push sorowill_contracts.Storage.Indexes.remove_index
    sorowill_contracts.Storage.Indexes.without sorowill_contracts.Storage.Votes.clear_all
    sorowill_contracts.Storage.Votes.reset_guardian_votes
    sorowill_contracts.Storage.Wills.decode_will sorowill_contracts.Storage.Wills.forget_removed
    sorowill_contracts.Storage.Wills.is_guardian sorowill_contracts.Types.Balances.get
    sorowill_contracts.Validation.total_balance sorowill_contracts.Validation.unclaimed_hashed_bps
wills_merged = refl

loads_rich : load_will 1 two_wills ≡ ok rich
unfolding load_will
loads_rich = refl

loads_dust : load_will 2 two_wills ≡ ok dust
unfolding load_will
loads_dust = refl

merge_wills-outcome_example :
    IsMergeable two_wills 10 1 2 rich dust
    × ((m : Will) × (merge rich dust ≡ ok m)
        × (m.id ≡ 1)
        × (m.owner ≡ 10)
        × (m.status ≡ active)
        × (after_merge.wills ≡ merged_wills two_wills m dust))
merge_wills-outcome_example =
    merge_wills-outcome 10 1 2 two_wills after_merge rich dust loads_rich loads_dust wills_merged

-- Three heirs with a third each, and one with a fixed amount.
abbrev thirds : List Beneficiary
thirds =
    record { address = 20; allocation = percentage 1000 }
    ∷ record { address = 21; allocation = percentage 1000 }
    ∷ record { address = 24; allocation = fixed_amount (pos 7) }
    ∷ record { address = 22; allocation = percentage 1000 }
    ∷ []

thirds_fit : total_bps thirds ≤ u32_max
unfolding total_bps
thirds_fit = omega arith

thirds_some : 1 ≤ percentage_count thirds
unfolding percentage_count
thirds_some = omega arith

total_bps-renormalize_percentages_example :
    (result : List Beneficiary) × (renormalize_percentages thirds ≡ ok result)
    × (addresses result ≡ addresses thirds)
    × (total_bps result ≡ 10000)
total_bps-renormalize_percentages_example =
    total_bps-renormalize_percentages thirds thirds_fit thirds_some

thirds_positive : 1 ≤ total_bps thirds
unfolding total_bps
thirds_positive = omega arith

thirds_room : total_bps thirds + 7000 ≤ 10000
unfolding total_bps
thirds_room = omega arith

share_out-conserves_example :
    (result : List Beneficiary) × (share_out 7000 thirds ≡ ok result)
    × (addresses result ≡ addresses thirds)
    × (total_bps result ≡ total_bps thirds + 7000)
share_out-conserves_example =
    share_out-conserves 7000 thirds (omega arith) thirds_positive thirds_room

abbrev whole : Will
whole = will active none

abbrev planned : SplitPlan
planned = elim (plan_split whole (second_heir ∷ []) ((5, pos 300) ∷ (5, pos 100) ∷ [])) [
  | ok plan ↦ plan
  | err _ ↦ record { child_balances = []; source_balances = []; remaining = []; moved = [] }
]

plans : plan_split whole (second_heir ∷ []) ((5, pos 300) ∷ (5, pos 100) ∷ []) ≡ ok planned
unfolding plan_split ◌+ℤ◌ get_or_zero sorowill_contracts.Types.Balances.set percentage_count
    sorowill_contracts.Prelude.Int.◌-ℤ◌ sorowill_contracts.Validation.assert_valid_allocations
plans = refl

plan_split-conserves_example :
    ((token : Address)
      → get_or_zero planned.child_balances token +ℤ get_or_zero planned.source_balances token
        ≡ get_or_zero whole.balances token)
    × IsShared planned.remaining
    × IsShared planned.moved
plan_split-conserves_example =
    plan_split-conserves whole (second_heir ∷ []) ((5, pos 300) ∷ (5, pos 100) ∷ []) planned plans

-- With another will, of id 2.
abbrev before_split : Env
before_split = record (state 5000 whole) {
  next_will_id = some 2;
  wills = λ i.
      if i == 1
      then some (encoded whole)
      else (if i == 2 then some (encoded (record whole { id = 2 })) else none);
}

abbrev after_split : Env
after_split = elim (split_will 1 10 (second_heir ∷ []) ((5, pos 300) ∷ []) before_split) [
  | ok (_, env) ↦ env
  | err _ ↦ before_split
]

splits : split_will 1 10 (second_heir ∷ []) ((5, pos 300) ∷ []) before_split ≡ ok (3, after_split)
unfolding split_will sorowill_contracts.Validation.load_owned load_will
    sorowill_contracts.Validation.assert_status ◌+ℤ◌ get_or_zero
    sorowill_contracts.Types.Balances.set percentage_count sorowill_contracts.Prelude.Int.◌-ℤ◌
    sorowill_contracts.Validation.assert_valid_allocations
    sorowill_contracts.Storage.Wills.save_will
    sorowill_contracts.Distribute.Payout.remove_beneficiary_indexes
    sorowill_contracts.Storage.Indexes.remove_beneficiary_index
    sorowill_contracts.Storage.Stats.next_will_id
    sorowill_contracts.Contract.Create.index_beneficiaries
    sorowill_contracts.Storage.Indexes.index_by_beneficiary
    sorowill_contracts.Storage.Indexes.index_push sorowill_contracts.Storage.Indexes.remove_index
    sorowill_contracts.Contract.Clone.reset_guardian_consent
    sorowill_contracts.Contract.Renormalize.percentage_total renormalize_percentages
    sorowill_contracts.Contract.Renormalize.rescale sorowill_contracts.Contract.Split.announce_split
    sorowill_contracts.Contract.Split.assert_held sorowill_contracts.Contract.Split.assert_movable
    sorowill_contracts.Contract.Split.assert_split_addresses_unique
    sorowill_contracts.Contract.Split.moved_of sorowill_contracts.Contract.Split.plan_amounts
    sorowill_contracts.Contract.Split.plan_beneficiaries plan_split
    sorowill_contracts.Contract.Split.remaining_of
    sorowill_contracts.Contract.Split.requested_balances
    sorowill_contracts.Contract.Split.store_parts sorowill_contracts.Contract.Split.store_split
    sorowill_contracts.Contract.Split.subtract_balances contains
    sorowill_contracts.Prelude.Words.saturating_add_i128
    sorowill_contracts.Prelude.Words.saturating_add_u32
    sorowill_contracts.Storage.History.append_history
    sorowill_contracts.Storage.History.next_history_seq
    sorowill_contracts.Storage.History.record_transition sorowill_contracts.Storage.History.trim
    sorowill_contracts.Storage.Indexes.index_by_owner sorowill_contracts.Storage.Indexes.without
    sorowill_contracts.Storage.Stats.increment_active_will_count
    sorowill_contracts.Storage.Wills.decode_will sorowill_contracts.Storage.Wills.forget_removed
    sorowill_contracts.Storage.Wills.is_guardian sorowill_contracts.Types.Balances.get
    sorowill_contracts.Validation.count_allocation sorowill_contracts.Validation.count_allocations
    sorowill_contracts.Validation.days_after sorowill_contracts.Validation.names_address
    sorowill_contracts.Validation.total_checked_add
splits = refl

loads_whole : load_will 1 before_split ≡ ok whole
unfolding load_will
loads_whole = refl

split_will-counts_twice_example :
    (whole.status ≡ active) × (whole.owner ≡ 10) × Effect before_split after_split whole 5 3 2
split_will-counts_twice_example =
    split_will-counts_twice 1 10 (second_heir ∷ []) ((5, pos 300) ∷ []) before_split after_split
      whole 3 2 loads_whole splits (omega arith) (λ same. omega arith)

abbrev cancelled_before : Env
cancelled_before = record (state 5000 (will cancelled none)) { owner_wills = λ _. some (1 ∷ []) }

abbrev archived : Env
archived = after cancelled_before (archive_will 1 cancelled_before)

archives : archive_will 1 cancelled_before ≡ ok (tt, archived)
unfolding archive_will load_will
archives = refl

loads_cancelled : load_will 1 cancelled_before ≡ ok (will cancelled none)
unfolding load_will
loads_cancelled = refl

archive_will-outcome_example :
    ((cancelled ≡ released) ⊎ (cancelled ≡ cancelled))
    × IsArchived (will cancelled none) cancelled_before archived
archive_will-outcome_example =
    archive_will-outcome 1 cancelled_before archived (will cancelled none) loads_cancelled archives

-- A will of the layout before the first version.
abbrev old : Will
old = record (will active none) { schema_version = 0 }

upgrade_loop-ends_example : upgrade_loop 5 old ≡ some (upgrade old)
upgrade_loop-ends_example = upgrade_loop-ends old 5 (omega arith)
