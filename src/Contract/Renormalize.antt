-- ===== src/Contract/Renormalize.antt =====
-- lib.rs: `renormalize_percentages`, which a split uses on both sides.
pub mod Total
use sorowill_contracts.Prelude.{
  ℕ, ◌+◌, ◌-◌, ◌*◌, ◌/◌, ◌%◌, ◌^◌, Bool, List, [], ◌∷◌, ltb, leb, ◌==◌, if◌then◌else◌,
}
use sorowill_contracts.Prelude.Words.{u32_max, saturating_add_u32}
use sorowill_contracts.Errors.{overflow, Result, ok, err, ◌>>=◌}
use sorowill_contracts.Types.{Allocation, percentage, fixed_amount, Beneficiary}
use sorowill_contracts.Distribute.Plan.{percentage_count}

-- The first loop, which adds up the percentages.
unfoldable pub percentage_total : List Beneficiary → ℕ → ℕ
unfolding saturating_add_u32
percentage_total [] total = total
percentage_total (b ∷ bs) total = elim b.allocation [
  | percentage bp ↦ percentage_total bs (saturating_add_u32 total bp)
  | fixed_amount _ ↦ percentage_total bs total
]

-- `+=` on u32 under `overflow-checks`
abbrev pub add_u32 : ℕ → ℕ → Result ℕ
add_u32 a b = if leb (a + b) u32_max then ok (a + b) else err overflow

-- `as u32`
abbrev pub as_u32 : ℕ → ℕ
as_u32 n = n % 2 ^ 32

-- The new basis points of one percentage entry.
abbrev pub rescaled_bps : ℕ → ℕ → Bool → ℕ → ℕ
rescaled_bps total bp is_last running =
    if is_last then 10000 - running else if ltb 0 total then as_u32 (bp * 10000 / total) else 0

-- The second loop: `index` percentage entries out of `count` are done and have come to `running`.
unfoldable pub rescale : ℕ → ℕ → List Beneficiary → ℕ → ℕ → Result (List Beneficiary)
rescale total count [] index running = ok []
rescale total count (b ∷ bs) index running = elim b.allocation [
  | percentage bp ↦
      (let new_bp = rescaled_bps total bp ((index + 1) == count) running in
        add_u32 running new_bp >>= λ running'.
        rescale total count bs (index + 1) running' >>= λ result.
        ok (record { address = b.address; allocation = percentage new_bp } ∷ result))
  | fixed_amount _ ↦ rescale total count bs index running >>= λ result. ok (b ∷ result)
]

unfoldable pub renormalize_percentages : List Beneficiary → Result (List Beneficiary)
unfolding percentage_total rescale
renormalize_percentages beneficiaries =
    rescale (percentage_total beneficiaries 0) (percentage_count beneficiaries) beneficiaries 0 0
