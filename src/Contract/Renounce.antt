-- ===== src/Contract/Renounce.antt =====
-- lib.rs: `renounce_beneficiary`.
pub mod Shares
use sorowill_contracts.Prelude.{
  ℕ, ◌+◌, ◌-◌, ◌*◌, ◌/◌, Bool, true, false, not, ◌&&◌, Option, none, some, List, [], ◌∷◌, ltb, leb,
  ◌==◌, min, is_empty, if◌then◌else◌,
}
use sorowill_contracts.Prelude.Words.{u32_max, saturating_add_u32}
use sorowill_contracts.Errors
use sorowill_contracts.Errors.{
  will_not_active, beneficiary_not_found, too_many_beneficiaries, invalid_percentages,
  contract_error, Result, ok, err,
}
use sorowill_contracts.Types.{
  Address, Allocation, percentage, fixed_amount, Beneficiary, Will, active, triggered, is_status,
}
use sorowill_contracts.Types.Balances.{get_or_zero}
use sorowill_contracts.Env.{beneficiary_renounced}
use sorowill_contracts.Env.Action.{
  Action, lift, query, panic_if, modify, require_auth, publish, ◌>>=◌, ◌>>◌,
}
use sorowill_contracts.Storage.Wills.{load_will, save_will}
use sorowill_contracts.Storage.Indexes.{remove_beneficiary_index}
use sorowill_contracts.Distribute.Plan.{percentage_count}
use sorowill_contracts.Validation.{assert_valid_allocations, total_checked_add}
use sorowill_contracts.Contract.Renormalize.{percentage_total, as_u32}

-- The allocation of the first entry of the address.
unfoldable find_allocation : List Beneficiary → Address → Option Allocation
find_allocation [] address = none
find_allocation (b ∷ bs) address =
    if b.address == address then some b.allocation else find_allocation bs address

-- The list without that entry.
unfoldable without_first : List Beneficiary → Address → List Beneficiary
without_first [] address = []
without_first (b ∷ bs) address =
    let rest = without_first bs address in if b.address == address then bs else b ∷ rest

abbrev found_allocation : Option Allocation → Result Allocation
found_allocation none = err (contract_error beneficiary_not_found)
found_allocation (some a) = ok a

-- The new basis points of one entry: the last takes what the target leaves.
abbrev pub enlarged_bps : ℕ → ℕ → ℕ → ℕ → Bool → ℕ → Result ℕ
enlarged_bps renounced remaining target bp is_last running =
    if is_last
    then if leb running target
      then ok (target - running)
      else err (contract_error invalid_percentages)
    else ok (min (bp + as_u32 (renounced * bp / remaining)) u32_max)

-- The loop over the entries that stay, with the running total that it ends at.
unfoldable pub redistribute :
    ℕ → ℕ → ℕ → ℕ → List Beneficiary → ℕ → ℕ → Result (ℕ × List Beneficiary)
unfolding total_checked_add
redistribute renounced remaining target count [] seen running = ok (running, [])
redistribute renounced remaining target count (b ∷ bs) seen running = elim b.allocation [
  | percentage bp ↦
      Errors.◌>>=◌ (enlarged_bps renounced remaining target bp ((seen + 1) == count) running)
        (λ new_bp. Errors.◌>>=◌ (total_checked_add running new_bp) (λ running'.
          Errors.◌>>=◌ (redistribute renounced remaining target count bs (seen + 1) running')
            (λ (total, result).
              ok (total, record { address = b.address; allocation = percentage new_bp } ∷ result))))
  | fixed_amount amount ↦
      Errors.◌>>=◌ (redistribute renounced remaining target count bs seen running)
        (λ (total, result).
          ok (total, record { address = b.address; allocation = fixed_amount amount } ∷ result))
]

abbrev bounded : ℕ × List Beneficiary → Result (List Beneficiary)
bounded (total, result) =
    if ltb 10000 total then err (contract_error invalid_percentages) else ok result

abbrev renounced_bps : Allocation → ℕ
renounced_bps (percentage bp) = bp
renounced_bps (fixed_amount _) = 0

-- The entries that stay, with the renounced basis points shared out among their percentages.
unfoldable pub share_out : ℕ → List Beneficiary → Result (List Beneficiary)
unfolding redistribute percentage_total saturating_add_u32
share_out renounced beneficiaries =
    let remaining = percentage_total beneficiaries 0 in
    if ltb 0 renounced && ltb 0 remaining
    then Errors.◌>>=◌
        (redistribute renounced remaining (min (saturating_add_u32 remaining renounced) 10000)
          (percentage_count beneficiaries) beneficiaries 0 0)
        bounded
    else ok beneficiaries

unfoldable pub renounce_beneficiary : ℕ → Address → Action (Unit {0})
unfolding find_allocation without_first share_out
renounce_beneficiary will_id beneficiary = do
  require_auth beneficiary
  will ← query (load_will will_id)
  panic_if (not (is_status will.status active) && not (is_status will.status triggered))
      will_not_active
  allocation ← lift (found_allocation (find_allocation will.beneficiaries beneficiary))
  let others = without_first will.beneficiaries beneficiary
  panic_if (is_empty others) too_many_beneficiaries
  new_beneficiaries ← lift (share_out (renounced_bps allocation) others)
  modify (remove_beneficiary_index beneficiary will_id)
  lift (assert_valid_allocations new_beneficiaries (get_or_zero will.balances will.token))
  save_will (record will { beneficiaries = new_beneficiaries })
  publish (beneficiary_renounced will_id beneficiary will.owner new_beneficiaries will.trigger_time)
