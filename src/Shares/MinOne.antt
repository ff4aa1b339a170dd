-- ===== src/Shares/MinOne.antt =====
-- The least share of one unit that a beneficiary gets before the last.
use sorowill_contracts.Prelude.{ℕ, ◌+◌, ◌-◌, ◌≤◌, ◌≡◌, arith, min, max}
use sorowill_contracts.Prelude.Int.{pos, ◌-ℤ◌, min_ℤ, max_ℤ, pos_sub}
use sorowill_contracts.Prelude.Words.{i128_max}
use sorowill_contracts.Errors.{ok}
use sorowill_contracts.Shares.{min_one_unit_share}

-- While an i128 holds what is left and it has more units than beneficiaries come later, the share is
-- at least one unit, leaves a unit for each later beneficiary, and is at most the floor share or one
-- unit.
pub min_one_unit_share-bounds :
    (floor_share left later : ℕ)
    → left ≤ i128_max
    → later + 1 ≤ left
    → (share : ℕ) × (min_one_unit_share (pos floor_share) (pos left) later ≡ ok (pos share))
      × (1 ≤ share)
      × (share + later ≤ left)
      × (share ≤ max floor_share 1)
unfolding min_one_unit_share min_ℤ max_ℤ
min_one_unit_share-bounds floor_share left later fits enough =
    let e : pos left -ℤ pos later ≡ pos (left - later) = pos_sub left later (omega arith) in
    (min (max floor_share 1) (left - later), ground arith, omega arith, omega arith, omega arith)
