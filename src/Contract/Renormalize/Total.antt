-- ===== src/Contract/Renormalize/Total.antt =====
-- Where percentages are renormalized they come to 10,000 basis points again.
use native.Mathlib.Nat.{div-mul-le_self, div-zero, le_of_mul-le-mul_right, le_trans, zero-lt-suc}
use sorowill_contracts.Prelude.{
  ℕ, zero, suc, ◌+◌, ◌-◌, ◌*◌, ◌/◌, ◌≤◌, ◌≡◌, refl, true, false, Bool, List, [], ◌∷◌, ◌==◌, arith,
}
use sorowill_contracts.Prelude.Words.{u32_max, saturating_add_u32}
use sorowill_contracts.Errors.{Result, ok}
use sorowill_contracts.Types.{Address, Allocation, percentage, fixed_amount, Beneficiary}
use sorowill_contracts.Distribute.Plan.{percentage_count}
use sorowill_contracts.Validation.Allocations.{total_bps}
use sorowill_contracts.Contract.Renormalize.{
  percentage_total, add_u32, rescaled_bps, rescale, renormalize_percentages,
}

abbrev pub addresses : List Beneficiary → List Address
addresses [] = []
addresses (b ∷ bs) = b.address ∷ addresses bs

percentage_total_entry :
    (address : Address) (a : Allocation) (bs : List Beneficiary) (total : ℕ)
    → ((t : ℕ) → t + total_bps bs ≤ u32_max → percentage_total bs t ≡ t + total_bps bs)
    → total + total_bps (record { address = address; allocation = a } ∷ bs) ≤ u32_max
    → percentage_total (record { address = address; allocation = a } ∷ bs) total
      ≡ total + total_bps (record { address = address; allocation = a } ∷ bs)
unfolding percentage_total total_bps saturating_add_u32
percentage_total_entry address (percentage bp) bs total ih h = ground (arith, ih (total + bp))
percentage_total_entry address (fixed_amount x) bs total ih h = ground (arith, ih total)

-- Without saturation, the first loop adds the percentages.
pub percentage_total-eq :
    (bs : List Beneficiary) (total : ℕ)
    → total + total_bps bs ≤ u32_max
    → percentage_total bs total ≡ total + total_bps bs
unfolding percentage_total total_bps
percentage_total-eq [] total h = omega arith
percentage_total-eq (b ∷ bs) total h =
    percentage_total_entry b.address b.allocation bs total (percentage_total-eq bs) h

-- The running total stays in proportion to the percentages that are done.
abbrev IsInProportion : ℕ → ℕ → ℕ → Type 0
IsInProportion total running rest =
    (running ≤ 10000) × (running * total + rest * 10000 ≤ total * 10000)

rescaled_small : (total bp : ℕ) → bp ≤ total → bp * 10000 / total ≤ 10000
rescaled_small zero bp h = rw div-zero (omega arith)
rescaled_small (suc n) bp h =
    le_of_mul-le-mul_right (le_trans (div-mul-le_self (bp * 10000) (suc n)) (omega arith))
      (zero-lt-suc n)

add_share :
    (total share bp running rest : ℕ)
    → 1 ≤ total
    → share * total ≤ bp * 10000
    → running * total + (bp + rest) * 10000 ≤ total * 10000
    → IsInProportion total (running + share) rest
add_share total share bp running rest positive k p =
    let e : (running + share) * total ≡ running * total + share * total = grind arith in
    let fits : (running + share) * total ≤ 10000 * total = omega arith in
    (le_of_mul-le-mul_right fits positive, omega arith)

stays-IsInProportion :
    (total bp running rest : ℕ)
    → IsInProportion total running (bp + rest)
    → bp + rest ≤ total
    → IsInProportion total (running + rescaled_bps total bp false running) rest
stays-IsInProportion zero bp running rest (small, p) h = (omega arith, omega arith)
stays-IsInProportion (suc n) bp running rest (small, p) h =
    let q : bp * 10000 / suc n ≤ 10000 = rescaled_small (suc n) bp (omega arith) in
    let same : rescaled_bps (suc n) bp false running ≡ bp * 10000 / suc n = ground arith in
    rw same (
      add_share (suc n) (bp * 10000 / suc n) bp running rest (omega arith)
        (div-mul-le_self (bp * 10000) (suc n)) p)

no_percentages :
    (total count : ℕ) (bs : List Beneficiary) (index running : ℕ)
    → percentage_count bs ≡ 0
    → (rescale total count bs index running ≡ ok bs) × (total_bps bs ≡ 0)
unfolding rescale percentage_count total_bps
no_percentages total count [] index running e = (refl, refl)
no_percentages total count (b ∷ bs) index running e =
    ground (arith, no_percentages total count bs index running)

-- What the loop makes of the entries that are left: the same addresses, and percentages that bring
-- the running total to 10,000.
abbrev pub Completes : Result (List Beneficiary) → ℕ → List Beneficiary → Type 0
Completes result running bs =
    (bs' : List Beneficiary) × (result ≡ ok bs')
    × (addresses bs' ≡ addresses bs)
    × (running + total_bps bs' ≡ 10000)

abbrev CompletesFrom : ℕ → ℕ → List Beneficiary → Type 0
CompletesFrom total count bs =
    (index running : ℕ)
    → IsInProportion total running (total_bps bs)
    → total_bps bs ≤ total
    → index + percentage_count bs ≡ count
    → 1 ≤ percentage_count bs
    → Completes (rescale total count bs index running) running bs

rescale_entry :
    (total count : ℕ) (address : Address) (bp : ℕ) (bs bs' : List Beneficiary) (index running q : ℕ)
    (t : Bool)
    → ((index + 1) == count) ≡ t
    → rescaled_bps total bp t running ≡ q
    → running + q ≤ 10000
    → rescale total count bs (index + 1) (running + q) ≡ ok bs'
    → rescale total count
        (record { address = address; allocation = percentage bp } ∷ bs)
        index
        running
      ≡ ok (record { address = address; allocation = percentage q } ∷ bs')
unfolding rescale
rescale_entry total count address bp bs bs' index running q t et eq small done =
    let fits : add_u32 running q ≡ ok (running + q) = ground arith in rw (et, eq, fits, done) refl

Completes-at :
    (total count : ℕ) (address : Address) (a : Allocation) (bs : List Beneficiary)
    (index running : ℕ) (t : Bool)
    → ((index + 1) == count) ≡ t
    → CompletesFrom total count bs
    → IsInProportion total running (total_bps (record { address = address; allocation = a } ∷ bs))
    → total_bps (record { address = address; allocation = a } ∷ bs) ≤ total
    → index + percentage_count (record { address = address; allocation = a } ∷ bs) ≡ count
    → 1 ≤ percentage_count (record { address = address; allocation = a } ∷ bs)
    → Completes
        (rescale total count (record { address = address; allocation = a } ∷ bs) index running)
        running
        (record { address = address; allocation = a } ∷ bs)
unfolding rescale percentage_count total_bps
Completes-at total count address (fixed_amount x) bs index running t et ih (small, p) h e k =
    let (bs', done, same, sum) = ih index running (small, omega arith) (omega arith) e k in
    (
      record { address = address; allocation = fixed_amount x } ∷ bs',
      rw done refl,
      rw same refl,
      omega arith,
    )
Completes-at total count address (percentage bp) bs index running true et ih (small, p) h e k =
    let full : running + (10000 - running) ≡ 10000 = omega arith in
    let (nothing, none_left) = no_percentages total count bs (index + 1) 10000 (ground arith) in
    (
      record { address = address; allocation = percentage (10000 - running) } ∷ bs,
      rescale_entry total count address bp bs bs index running (10000 - running) true et refl
          (omega arith) (rw full nothing),
      refl,
      omega (arith, none_left),
    )
Completes-at total count address (percentage bp) bs index running false et ih p h e k =
    let (small, p') = stays-IsInProportion total bp running (total_bps bs) p h in
    let (bs', done, same, sum) =
      ih (index + 1) (running + rescaled_bps total bp false running) (small, p') (omega arith)
        (omega arith) (ground arith) in
    (
      record { address = address; allocation = percentage (rescaled_bps total bp false running) }
          ∷ bs',
      rescale_entry total count address bp bs bs' index running
          (rescaled_bps total bp false running) false et refl small done,
      rw same refl,
      omega arith,
    )

completes_from : (total count : ℕ) (bs : List Beneficiary) → CompletesFrom total count bs
unfolding percentage_count
completes_from total count [] index running p h e k = ground arith
completes_from total count (b ∷ bs) index running p h e k =
    Completes-at total count b.address b.allocation bs index running ((index + 1) == count) refl
      (completes_from total count bs) p h e k

-- A list with at least one percentage, whose percentages add up without overflow of a u32, is
-- renormalized: the addresses stay in their order, and the percentages come to exactly 10,000 basis
-- points.
pub total_bps-renormalize_percentages :
    (beneficiaries : List Beneficiary)
    → total_bps beneficiaries ≤ u32_max
    → 1 ≤ percentage_count beneficiaries
    → (result : List Beneficiary) × (renormalize_percentages beneficiaries ≡ ok result)
      × (addresses result ≡ addresses beneficiaries)
      × (total_bps result ≡ 10000)
unfolding renormalize_percentages
total_bps-renormalize_percentages bs fits some_percentage =
    let e = percentage_total-eq bs 0 (omega arith) in
    let total : percentage_total bs 0 ≡ total_bps bs = omega arith in
    let (result, done, same, sum) =
      completes_from (percentage_total bs 0) (percentage_count bs) bs 0 0 (omega arith, omega arith)
        (omega arith) (omega arith) some_percentage in
    (result, done, same, omega arith)
