-- ===== src/Contract/Merge/Shares.antt =====
-- lib.rs: `merge_beneficiaries` and `merge_allocation`.
use sorowill_contracts.Prelude.{
  ℕ, ◌-◌, ◌*◌, ◌/◌, ◌^◌, Bool, true, false, ◌&&◌, ◌||◌, List, [], ◌∷◌, ltb, leb, ◌==◌, is_empty,
  if◌then◌else◌,
}
use sorowill_contracts.Prelude.Int.{ℤ, pos, negsuc, ltb_ℤ}
use sorowill_contracts.Prelude.Words.{saturating_add_i128}
use sorowill_contracts.Errors.{overflow, Result, ok, err, ◌>>=◌}
use sorowill_contracts.Types.{Address, Allocation, percentage, fixed_amount, Beneficiary, Will}
use sorowill_contracts.Shares.{proportional_share}
use sorowill_contracts.Validation.{total_balance}
use sorowill_contracts.Contract.Renormalize.{add_u32, as_u32}

unfoldable pub merge_allocation : Allocation → Allocation → Allocation
unfolding saturating_add_i128
merge_allocation (fixed_amount a) (fixed_amount b) = fixed_amount (saturating_add_i128 a b)
merge_allocation (fixed_amount a) (percentage _) = fixed_amount a
merge_allocation (percentage _) (fixed_amount b) = fixed_amount b
merge_allocation (percentage a) (percentage b) = percentage a

-- An entry of `beneficiary_shares` with the entry of `beneficiary_allocations` at the same index.
pub record MergedShare : Type 0 where
  pub address : Address
  pub share : ℤ
  pub allocation : Allocation

-- The share of one beneficiary enters the entry of its address, or a new one at the end.
unfoldable pub accumulate : List MergedShare → Address → ℤ → Allocation → List MergedShare
unfolding merge_allocation saturating_add_i128
accumulate [] address share allocation =
    record { address = address; share = share; allocation = allocation } ∷ []
accumulate (entry ∷ entries) address share allocation =
    let rest = accumulate entries address share allocation in
    if entry.address == address
    then record {
      address = address;
      share = saturating_add_i128 entry.share share;
      allocation = merge_allocation entry.allocation allocation;
    }
      ∷ entries
    else entry ∷ rest

abbrev share_of : ℤ → Allocation → Result ℤ
share_of value (percentage bp) = proportional_share value bp
share_of value (fixed_amount amount) = ok amount

-- The loop over one will's beneficiaries.
unfoldable pub gather : ℤ → List Beneficiary → List MergedShare → Result (List MergedShare)
unfolding accumulate
gather value [] entries = ok entries
gather value (b ∷ bs) entries = do
  share ← share_of value b.allocation
  gather value bs (accumulate entries b.address share b.allocation)

-- `as u128`
abbrev as_u128 : ℤ → ℕ
as_u128 (pos n) = n
as_u128 (negsuc n) = 2 ^ 128 - 1 - n

-- The basis points of a share, by checked u128 arithmetic.
unfoldable pub share_bps : ℤ → ℤ → Result ℕ
share_bps share total_value =
    if ltb_ℤ (pos 0) total_value
    then if leb (as_u128 share * 10000) (2 ^ 128 - 1)
      then ok (as_u32 (as_u128 share * 10000 / as_u128 total_value))
      else err overflow
    else ok 0

-- The basis points that the entry is given: at least one for a share above zero.
abbrev pub final_bps : ℕ → ℤ → ℕ
final_bps bp share = if ltb 0 bp then bp else if ltb_ℤ (pos 0) share then 1 else 0

abbrev pub is_kept : ℕ → ℤ → Bool → Bool
is_kept bp share is_last = ltb 0 bp || (ltb_ℤ (pos 0) share && bp == 0) || is_last

abbrev pub merged_entry : Address → Allocation → Beneficiary
merged_entry address allocation = record { address = address; allocation = allocation }

-- The recalculation, with the running `total_bp`; an entry is the last if no other follows it.
unfoldable pub recalculate : ℤ → List MergedShare → ℕ → Result (ℕ × List Beneficiary)
unfolding share_bps
recalculate total_value [] total_bp = ok (total_bp, [])
recalculate total_value (entry ∷ entries) total_bp = elim entry.allocation [
  | fixed_amount amount ↦ recalculate total_value entries total_bp >>= λ (total, merged).
      ok (total, merged_entry entry.address (fixed_amount amount) ∷ merged)
  | percentage _ ↦ share_bps entry.share total_value >>= λ bp.
      (let skipped = recalculate total_value entries total_bp in
        if is_kept bp entry.share (is_empty entries)
        then (add_u32 total_bp (final_bps bp entry.share) >>= λ total_bp'.
            recalculate total_value entries total_bp' >>= λ (total, merged).
            ok (total, merged_entry entry.address (percentage (final_bps bp entry.share)) ∷ merged))
        else skipped)
]

-- The last percentage entry is changed by `change`, the others are left.
unfoldable pub change_last : (ℕ → Result ℕ) → List Beneficiary → Result (Bool × List Beneficiary)
change_last change [] = ok (false, [])
change_last change (b ∷ bs) = do
  (changed, rest) ← change_last change bs
  elim b.allocation [
    | fixed_amount _ ↦ ok (changed, b ∷ rest)
    | percentage bp ↦
        if changed
        then ok (true, b ∷ rest)
        else (change bp >>= λ bp'. ok (true, merged_entry b.address (percentage bp') ∷ rest))
  ]

abbrev pub reduced_bps : ℕ → ℕ → ℕ
reduced_bps bp excess = if ltb excess bp then bp - excess else 1

-- The remainder to 10,000 basis points, or the excess, goes to the last percentage entry.
unfoldable pub settle_total : ℕ → List Beneficiary → Result (List Beneficiary)
unfolding change_last
settle_total total_bp merged =
    if ltb total_bp 10000
    then (change_last (λ bp. add_u32 bp (10000 - total_bp)) merged >>= λ (_, result). ok result)
    else if ltb 10000 total_bp
    then (change_last (λ bp. ok (reduced_bps bp (total_bp - 10000))) merged >>= λ (_, result).
        ok result)
    else ok merged

unfoldable pub merge_beneficiaries : Will → Will → Result (List Beneficiary)
unfolding total_balance gather recalculate settle_total saturating_add_i128
merge_beneficiaries will_a will_b = do
  let value_a = total_balance will_a.balances (pos 0)
  let value_b = total_balance will_b.balances (pos 0)
  let total_value = saturating_add_i128 value_a value_b
  entries_a ← gather value_a will_a.beneficiaries []
  entries ← gather value_b will_b.beneficiaries entries_a
  (total_bp, merged) ← recalculate total_value entries 0
  settle_total total_bp merged
