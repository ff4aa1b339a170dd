-- ===== src/Validation/Allocations.antt =====
-- Which beneficiary lists and which guardian lists the guards accept.
use sorowill_contracts.Prelude.{
  ℕ, ◌+◌, ◌≤◌, ◌≡◌, ◌⊎◌, ◌↔◌, refl, Bool, true, not, ◌&&◌, ◌||◌, List, [], ◌∷◌, ◌==◌, arith, ltb,
  length, contains,
}
use sorowill_contracts.Prelude.Int.{ℤ, pos, leb_ℤ}
use sorowill_contracts.Errors.{
  ok, duplicate_beneficiary, too_many_beneficiaries, run_both, panic_if,
}
use sorowill_contracts.Types.{Address, Allocation, percentage, fixed_amount, Beneficiary}
use sorowill_contracts.Validation.{
  max_guardians, Totals, no_totals, names_address, total_checked_add, count_allocation,
  count_allocations, assert_valid_allocations, check_guardians, assert_valid_guardians,
}

-- No guardian is the owner or stands twice in the list.
unfoldable pub are_distinct_from : Address → List Address → Bool
are_distinct_from owner [] = true
are_distinct_from owner (g ∷ gs) =
    not (g == owner) && not (contains gs g) && are_distinct_from owner gs

check_guardians_sound :
    (owner : Address) (gs : List Address) {u : Unit {0}}
    → check_guardians owner gs ≡ ok u
    → are_distinct_from owner gs ≡ true
unfolding check_guardians are_distinct_from
check_guardians_sound owner [] h = refl
check_guardians_sound owner (g ∷ gs) h = ground (arith, check_guardians_sound owner gs)

check_guardians_complete :
    (owner : Address) (gs : List Address)
    → are_distinct_from owner gs ≡ true
    → check_guardians owner gs ≡ ok tt
unfolding check_guardians are_distinct_from
check_guardians_complete owner [] h = refl
check_guardians_complete owner (g ∷ gs) h = ground (arith, check_guardians_complete owner gs)

-- The share of one beneficiary: its basis points, its fixed amount, and whether it is allowed.
abbrev pub bps_of : Allocation → ℕ
bps_of (percentage bp) = bp
bps_of (fixed_amount _) = 0

abbrev pub is_positive : Allocation → Bool
is_positive (percentage bp) = not (bp == 0)
is_positive (fixed_amount amount) = not (leb_ℤ amount (pos 0))

unfoldable pub total_bps : List Beneficiary → ℕ
total_bps [] = 0
total_bps (b ∷ bs) = bps_of b.allocation + total_bps bs

-- Every share is above zero, and no address is named twice.
unfoldable pub are_distinct_shares : List Beneficiary → Bool
are_distinct_shares [] = true
are_distinct_shares (b ∷ bs) =
    is_positive b.allocation && not (names_address bs b.address) && are_distinct_shares bs

counted_sound :
    (bs : List Beneficiary) (t t' : Totals)
    → count_allocations bs t ≡ ok t'
    → (are_distinct_shares bs ≡ true)
      × (t'.percentage_total ≡ t.percentage_total + total_bps bs)
      × (t'.has_percentage ≡ (t.has_percentage || ltb 0 (total_bps bs)))
unfolding count_allocations count_allocation are_distinct_shares total_bps total_checked_add
counted_sound [] t t' h = ground arith
counted_sound (b ∷ bs) t t' h =
    let (t₁, h₁, rest) = run_both (count_allocation b.allocation t) _ h in
    let (_, _, rest') =
      run_both (panic_if (names_address bs b.address) duplicate_beneficiary) _ rest in
    ground (arith, counted_sound bs t₁ t' rest')

-- A list of guardians is accepted exactly if it has at most three of them, each once, and the owner
-- is none of them.
pub assert_valid_guardians_iff :
    (owner : Address) (guardians : List Address)
    → (assert_valid_guardians owner guardians ≡ ok tt)
      ↔ ((length guardians ≤ max_guardians) × (are_distinct_from owner guardians ≡ true))
unfolding assert_valid_guardians
assert_valid_guardians_iff owner guardians = (
  λ h.
      let (_, _, rest) =
        run_both (panic_if (ltb max_guardians (length guardians)) too_many_beneficiaries) _ h in
      (ground arith, check_guardians_sound owner guardians rest),
  λ (few, distinct). ground (arith, check_guardians_complete owner guardians distinct),
)

-- A beneficiary list that is accepted names nobody twice, gives everyone a share above zero, and its
-- percentages add up to exactly 10,000 basis points, or there are none.
pub assert_valid_allocations_sound :
    (beneficiaries : List Beneficiary) (primary_balance : ℤ)
    → assert_valid_allocations beneficiaries primary_balance ≡ ok tt
    → (are_distinct_shares beneficiaries ≡ true)
      × ((total_bps beneficiaries ≡ 0) ⊎ (total_bps beneficiaries ≡ 10000))
unfolding assert_valid_allocations
assert_valid_allocations_sound beneficiaries primary_balance h =
    let (t, ht, rest) = run_both (count_allocations beneficiaries no_totals) _ h in
    let (distinct, total, has) = counted_sound beneficiaries no_totals t ht in
    (distinct, ground arith)
