-- ===== src/Contract/Merge/Total.antt =====
-- What the percentages of a merged will come to.
use sorowill_contracts.Prelude.{
  ℕ, ◌+◌, ◌-◌, ◌≤◌, ◌≡◌, ◌⊎◌, inl, inr, refl, Bool, true, false, Option, none, some, List, [], ◌∷◌,
  ltb, arith, Bool-cases, if◌then◌else◌, is_empty,
}
use sorowill_contracts.Prelude.Int.{ℤ, pos}
use sorowill_contracts.Errors.{Result, ok, run_both, ok-injective, ◌>>=◌}
use sorowill_contracts.Types.{Address, Allocation, percentage, fixed_amount, Beneficiary, Will}
use sorowill_contracts.Distribute.Plan.{percentage_count}
use sorowill_contracts.Validation.Allocations.{total_bps}
use sorowill_contracts.Prelude.Words.{saturating_add_i128}
use sorowill_contracts.Validation.{total_balance}
use sorowill_contracts.Contract.Renormalize.{add_u32}
use sorowill_contracts.Contract.Merge.Shares.{
  MergedShare, share_bps, final_bps, is_kept, merged_entry, recalculate, change_last, reduced_bps,
  settle_total, merge_beneficiaries, gather,
}

abbrev last_or : Option ℕ → ℕ → Option ℕ
last_or none bp = some bp
last_or (some later) bp = some later

-- The basis points of the last percentage entry.
unfoldable pub last_bps : List Beneficiary → Option ℕ
last_bps [] = none
last_bps (b ∷ bs) = elim b.allocation [
  | percentage bp ↦ last_or (last_bps bs) bp
  | fixed_amount _ ↦ last_bps bs
]

-- What `change_last` makes of a list: nothing if there is no percentage, otherwise one entry, the
-- last, is changed.
abbrev Changes : (ℕ → Result ℕ) → List Beneficiary → Bool → List Beneficiary → Type 0
Changes change bs false bs' = (bs' ≡ bs) × (last_bps bs ≡ none) × (percentage_count bs ≡ 0)
Changes change bs true bs' =
    (bp : ℕ) × (bp' : ℕ) × (change bp ≡ ok bp')
    × (total_bps bs' + bp ≡ total_bps bs + bp')
    × (last_bps bs' ≡ some bp')

abbrev Changed : (ℕ → Result ℕ) → List Beneficiary → Bool × List Beneficiary → Type 0
Changed change bs (c, bs') = Changes change bs c bs'

Changes-at :
    (change : ℕ → Result ℕ) (address : Address) (a : Allocation) (bs rest : List Beneficiary)
    (changed : Bool) (p : Bool × List Beneficiary)
    → Changes change bs changed rest
    → change_last change bs ≡ ok (changed, rest)
    → change_last change (record { address = address; allocation = a } ∷ bs) ≡ ok p
    → Changed change (record { address = address; allocation = a } ∷ bs) p
unfolding change_last total_bps last_bps percentage_count
Changes-at change address (fixed_amount x) bs rest false p (same, l, n) e h =
    rw (← ok-injective (rw e at h), same) (refl, l, n)
Changes-at change address (fixed_amount x) bs rest true p (bp, bp', done, sum, l) e h =
    rw (← ok-injective (rw e at h)) (bp, bp', done, omega arith, l)
Changes-at change address (percentage q) bs rest false p (same, l, n) e h =
    let (q', hq, h') = run_both (change q) _ (rw e at h) in
    rw (← ok-injective h', same) (q, q', hq, omega arith, rw l refl)
Changes-at change address (percentage q) bs rest true p (bp, bp', done, sum, l) e h =
    rw (← ok-injective (rw e at h)) (bp, bp', done, omega arith, rw l refl)

changes :
    (change : ℕ → Result ℕ) (bs : List Beneficiary) (p : Bool × List Beneficiary)
    → change_last change bs ≡ ok p
    → Changed change bs p
unfolding change_last last_bps percentage_count
changes change [] p h = rw (← ok-injective h) (refl, refl, refl)
changes change (b ∷ bs) p h =
    let ((changed, rest), e, _) = run_both (change_last change bs) _ h in
    Changes-at change b.address b.allocation bs rest changed p (changes change bs (changed, rest) e)
      e h

-- The percentages of a list come to exactly 10,000 basis points, or to more, and then the last of
-- them has been cut down to one basis point.
abbrev pub IsSettled : List Beneficiary → Type 0
IsSettled bs = (total_bps bs ≡ 10000) ⊎ ((10000 ≤ total_bps bs) × (last_bps bs ≡ some 1))

IsSettled-after :
    (bs : List Beneficiary) (change : ℕ → Result ℕ) (p : Bool × List Beneficiary)
    → Changed change bs p
    → 1 ≤ percentage_count (p.1)
    → ((bp bp' : ℕ) (bs' : List Beneficiary)
        → change bp ≡ ok bp'
        → total_bps bs' + bp ≡ total_bps bs + bp'
        → last_bps bs' ≡ some bp'
        → IsSettled bs')
    → IsSettled (p.1)
IsSettled-after bs change (false, bs') (same, _, nothing) k f =
    let none_there : percentage_count bs' ≡ 0 = rw same nothing in ground arith
IsSettled-after bs change (true, bs') (bp, bp', done, sum, l) k f = f bp bp' bs' done sum l

abbrev Settles : (ℕ → Result ℕ) → List Beneficiary → Type 0
Settles change bs =
    (bp bp' : ℕ) (bs' : List Beneficiary)
    → change bp ≡ ok bp'
    → total_bps bs' + bp ≡ total_bps bs + bp'
    → last_bps bs' ≡ some bp'
    → IsSettled bs'

IsSettled-by :
    (change : ℕ → Result ℕ) (bs bs' : List Beneficiary)
    → Settles change bs
    → change_last change bs >>= (λ (_, result). ok result) ≡ ok bs'
    → 1 ≤ percentage_count bs'
    → IsSettled bs'
IsSettled-by change bs bs' settles h k =
    let (p, hp, h') = run_both (change_last change bs) (λ (_, result). ok result) h in
    let q : p.1 ≡ bs' = ok-injective h' in
    rw (← q) (IsSettled-after bs change p (changes change bs p hp) (rw q k) settles)

add_Settles :
    (bs : List Beneficiary)
    → total_bps bs ≤ 10000
    → Settles (λ bp. add_u32 bp (10000 - total_bps bs)) bs
add_Settles bs small bp bp' bs' done sum l = inl (ground arith)

reduce_Settles :
    (bs : List Beneficiary)
    → 10000 ≤ total_bps bs
    → Settles (λ bp. ok (reduced_bps bp (total_bps bs - 10000))) bs
reduce_Settles bs large bp bp' bs' done sum l = elim (Bool-cases (ltb (total_bps bs - 10000) bp)) [
  | inl e ↦ inl (ground arith)
  | inr e ↦ (let one : 1 ≡ bp' = ok-injective (rw e at done) in inr (ground arith, rw one l))
]

settle_total-IsSettled :
    (bs bs' : List Beneficiary) (t u : Bool)
    → ltb (total_bps bs) 10000 ≡ t
    → ltb 10000 (total_bps bs) ≡ u
    → settle_total (total_bps bs) bs ≡ ok bs'
    → 1 ≤ percentage_count bs'
    → IsSettled bs'
unfolding settle_total
settle_total-IsSettled bs bs' true u e f h k =
    IsSettled-by (λ bp. add_u32 bp (10000 - total_bps bs)) bs bs' (add_Settles bs (ground arith))
      (rw e at h) k
settle_total-IsSettled bs bs' false true e f h k =
    IsSettled-by (λ bp. ok (reduced_bps bp (total_bps bs - 10000))) bs bs'
      (reduce_Settles bs (ground arith)) (rw (e, f) at h) k
settle_total-IsSettled bs bs' false false e f h k =
    rw (← ok-injective (rw (e, f) at h)) (inl (ground arith))

-- The running total of the recalculation is that of the percentages.
abbrev IsTotal : ℤ → List MergedShare → Type 0
IsTotal value entries =
    (total : ℕ) (p : ℕ × List Beneficiary)
    → recalculate value entries total ≡ ok p
    → p.0 ≡ total + total_bps (p.1)

kept_or_skipped :
    (value : ℤ) (address : Address) (share : ℤ) (bp : ℕ) (entries : List MergedShare) (total : ℕ)
    (p : ℕ × List Beneficiary) (t : Bool)
    → is_kept bp share (is_empty entries) ≡ t
    → IsTotal value entries
    → (if is_kept bp share (is_empty entries)
        then (add_u32 total (final_bps bp share) >>= λ total'.
            recalculate value entries total' >>= λ (sum, merged).
            ok (sum, merged_entry address (percentage (final_bps bp share)) ∷ merged))
        else recalculate value entries total)
      ≡ ok p
    → p.0 ≡ total + total_bps (p.1)
unfolding total_bps
kept_or_skipped value address share bp entries total p true e ih h =
    let (total', ht, h₁) = run_both (add_u32 total (final_bps bp share)) _ (rw e at h) in
    let (q, hq, h₂) = run_both (recalculate value entries total') _ h₁ in
    let sum : total' ≡ total + final_bps bp share = ground arith in
    let rest = ih total' q hq in rw (← ok-injective h₂) (omega arith)
kept_or_skipped value address share bp entries total p false e ih h = ih total p (rw e at h)

recalculated_at :
    (value : ℤ) (address : Address) (share : ℤ) (a : Allocation) (entries : List MergedShare)
    (total : ℕ) (p : ℕ × List Beneficiary)
    → IsTotal value entries
    → recalculate value
        (record { address = address; share = share; allocation = a } ∷ entries)
        total
      ≡ ok p
    → p.0 ≡ total + total_bps (p.1)
unfolding recalculate total_bps
recalculated_at value address share (fixed_amount x) entries total p ih h =
    let (q, hq, h') = run_both (recalculate value entries total) _ h in
    rw (← ok-injective h') (ground (arith, ih total q hq))
recalculated_at value address share (percentage x) entries total p ih h =
    let (bp, _, h') = run_both (share_bps share value) _ h in
    kept_or_skipped value address share bp entries total p (is_kept bp share (is_empty entries))
      refl ih h'

recalculated :
    (value : ℤ) (entries : List MergedShare) (total : ℕ) (p : ℕ × List Beneficiary)
    → recalculate value entries total ≡ ok p
    → p.0 ≡ total + total_bps (p.1)
unfolding recalculate total_bps
recalculated value [] total p h = rw (← ok-injective h) (omega arith)
recalculated value (entry ∷ entries) total p h =
    recalculated_at value entry.address entry.share entry.allocation entries total p
      (recalculated value entries) h

-- The percentages of a merged list that has any come to exactly 10,000 basis points, or to more than
-- that with the last of them at one basis point.
pub merge_beneficiaries-IsSettled :
    (will_a will_b : Will) (result : List Beneficiary)
    → merge_beneficiaries will_a will_b ≡ ok result
    → 1 ≤ percentage_count result
    → IsSettled result
unfolding merge_beneficiaries
merge_beneficiaries-IsSettled will_a will_b result h some_percentage =
    let value_a = total_balance will_a.balances (pos 0) in
    let value_b = total_balance will_b.balances (pos 0) in
    let (entries_a, _, h₁) = run_both (gather value_a will_a.beneficiaries []) _ h in
    let (entries, _, h₂) = run_both (gather value_b will_b.beneficiaries entries_a) _ h₁ in
    let (p, hp, h₃) = run_both (recalculate (saturating_add_i128 value_a value_b) entries 0) _ h₂ in
    let e = recalculated (saturating_add_i128 value_a value_b) entries 0 p hp in
    let same : p.0 ≡ total_bps (p.1) = omega arith in
    settle_total-IsSettled (p.1) result _ _ refl refl (rw same at h₃) some_percentage
