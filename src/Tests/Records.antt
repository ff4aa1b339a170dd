-- ===== src/Tests/Records.antt =====
-- The stored lists and the guards at concrete inputs.
use sorowill_contracts.Prelude.{
  ◌+◌, ◌≤◌, ◌≡◌, ◌⊎◌, ◌↔◌, refl, true, none, some, List, [], ◌∷◌, ◌++◌, ◌==◌, length, if◌then◌else◌,
}
use sorowill_contracts.Prelude.Int.{pos}
use sorowill_contracts.Errors.{ok}
use sorowill_contracts.Types.{Address, Will, WillStatusTransition, active, triggered}
use sorowill_contracts.Env.{Env}
use sorowill_contracts.Storage.Stats.{id_or_zero}
use sorowill_contracts.Storage.Wills.{load_will, save_will}
use sorowill_contracts.Storage.Wills.RoundTrip.{load_will-save_will}
use sorowill_contracts.Storage.History.{max_history_entries, append_history, get_history}
use sorowill_contracts.Storage.History.Bounds.{append_history-keeps_latest}
use sorowill_contracts.Validation.{max_guardians, assert_valid_allocations, assert_valid_guardians}
use sorowill_contracts.Validation.Allocations.{
  are_distinct_from, are_distinct_shares, total_bps, assert_valid_guardians_iff,
  assert_valid_allocations_sound,
}
use sorowill_contracts.Tests.Sample.{heir, second_heir, will, state, after}
use sorowill_contracts.Prelude.Int.{negsuc, ◌+ℤ◌}
use sorowill_contracts.Types.{TokenLockedBalance}
use sorowill_contracts.Storage.Stats.{adjusted, adjust_locked_for_balances}
use sorowill_contracts.Storage.Stats.Locked.{locked_in, are_distinct_tokens, adjusted-locked_in}
use sorowill_contracts.Contract.Release.{unlock_balances}
use sorowill_contracts.Contract.Release.Unlock.{
  are_natural, unlock_balances-eq-adjust_locked_for_balances,
}
use sorowill_contracts.Tests.Sample.{balances}

abbrev now : Env
now = state 5 (will active none)

abbrev entry : WillStatusTransition
entry = record {
  will_id = 1;
  from_status = active;
  to_status = triggered;
  timestamp = 5;
  actor = 10;
  action = "trigger";
  seq = 0;
}

abbrev logged : Env
logged = after now (append_history 1 entry now)

logs : append_history 1 entry now ≡ ok (tt, logged)
unfolding append_history
logs = refl

append_history-keeps_latest_example :
    (length (get_history 1 logged) ≤ max_history_entries)
    × (logged.will_history_seq 1 ≡ some (id_or_zero (now.will_history_seq 1) + 1))
    × ((dropped : List WillStatusTransition) × (dropped ++ get_history 1 logged
          ≡ get_history 1 now
            ++ record entry { seq = id_or_zero (now.will_history_seq 1) + 1 } ∷ []))
append_history-keeps_latest_example = append_history-keeps_latest 1 entry now logged logs

-- The will without its guardian.
abbrev unguarded : Will
unguarded = record (will active none) { guardians = [] }

abbrev saved : Env
saved = after now (save_will unguarded now)

saves : save_will unguarded now ≡ ok (tt, saved)
unfolding save_will
saves = refl

load_will-save_will_example : load_will 1 saved ≡ (if 1 == 1 then ok unguarded else load_will 1 now)
load_will-save_will_example = load_will-save_will unguarded now saved 1 saves

assert_valid_guardians_iff_example : (assert_valid_guardians 10 (30 ∷ 31 ∷ []) ≡ ok tt) ↔ (
    (length {A = Address} (30 ∷ 31 ∷ []) ≤ max_guardians)
    × (are_distinct_from 10 (30 ∷ 31 ∷ []) ≡ true))
assert_valid_guardians_iff_example = assert_valid_guardians_iff 10 (30 ∷ 31 ∷ [])

valid : assert_valid_allocations (heir ∷ second_heir ∷ []) (pos 1000) ≡ ok tt
unfolding assert_valid_allocations
valid = refl

assert_valid_allocations_sound_example :
    (are_distinct_shares (heir ∷ second_heir ∷ []) ≡ true)
    × ((total_bps (heir ∷ second_heir ∷ []) ≡ 0) ⊎ (total_bps (heir ∷ second_heir ∷ []) ≡ 10000))
assert_valid_allocations_sound_example =
    assert_valid_allocations_sound (heir ∷ second_heir ∷ []) (pos 1000) valid

abbrev totals : List TokenLockedBalance
totals = record { token = 5; total_locked = pos 9 } ∷ []

adjusts : adjusted totals 5 (negsuc 3) ≡ ok (record { token = 5; total_locked = pos 5 } ∷ [])
unfolding adjusted ◌+ℤ◌
adjusts = refl

one_entry : are_distinct_tokens totals ≡ true
unfolding are_distinct_tokens sorowill_contracts.Storage.Stats.Locked.has_entry
one_entry = refl

adjusted-locked_in_example :
    (locked_in (record { token = 5; total_locked = pos 5 } ∷ []) 5
      ≡ (if 5 == 5 then locked_in totals 5 +ℤ negsuc 3 else locked_in totals 5))
    × (are_distinct_tokens (record { token = 5; total_locked = pos 5 } ∷ []) ≡ true)
adjusted-locked_in_example =
    adjusted-locked_in totals (record { token = 5; total_locked = pos 5 } ∷ []) 5 5 (negsuc 3)
      adjusts one_entry

naturals : are_natural balances ≡ true
unfolding are_natural
naturals = refl

unlock_balances-eq-adjust_locked_for_balances_example :
    unlock_balances balances ≡ adjust_locked_for_balances balances (negsuc 0)
unlock_balances-eq-adjust_locked_for_balances_example =
    unlock_balances-eq-adjust_locked_for_balances balances naturals
