-- ===== src/Contract/Split/Conserves.antt =====
-- What a split makes of the balances and of the beneficiaries.
use sorowill_contracts.Prelude.{ℕ, ◌≡◌, ◌⊎◌, refl, ◌==◌, Bool, true, false, List, [], ◌∷◌, arith}
use sorowill_contracts.Prelude.Int.{ℤ, pos, ◌+ℤ◌, ◌-ℤ◌, add_sub, sub_zero, leb_ℤ}
use sorowill_contracts.Errors.{ok, run_both, ok-injective, zero_amount, panic_if}
use sorowill_contracts.Types.{TokenMap, Address, Beneficiary, Will}
use sorowill_contracts.Types.Balances.{get_or_zero, set, IsAbove, IsSorted}
use sorowill_contracts.Types.Balances.Lookup.{
  get_or_zero-above, get_or_zero-cons, get_or_zero-set, set-IsSorted,
}
use sorowill_contracts.Env.Action.{add_i128, sub_i128}
use sorowill_contracts.Distribute.Plan.Sums.{sub_i128-eq-ok}
use sorowill_contracts.Validation.{assert_valid_allocations}
use sorowill_contracts.Validation.Allocations.{
  are_distinct_shares, total_bps, assert_valid_allocations_sound,
}
use sorowill_contracts.Contract.Create.{primary_token}
use sorowill_contracts.Contract.Split.{
  requested_balances, subtract_balances, plan_amounts, SplitPlan, plan_split,
}

requested_balances-IsSorted :
    (tokens : List (ℕ × ℤ)) (m m' : TokenMap)
    → IsSorted m
    → requested_balances tokens m ≡ ok m'
    → IsSorted m'
unfolding requested_balances
requested_balances-IsSorted [] m m' sorted h = rw (← ok-injective h) sorted
requested_balances-IsSorted ((t, x) ∷ tokens) m m' sorted h =
    let (_, _, h₁) = run_both (panic_if (leb_ℤ x (pos 0)) zero_amount) _ h in
    let (s, _, h₂) = run_both (add_i128 (get_or_zero m t) x) _ h₁ in
    requested_balances-IsSorted tokens (set m t s) m' (set-IsSorted m t s sorted) h₂

subtract_at :
    (a : TokenMap) (i : ℕ) (v s : ℤ) (m : TokenMap) (j : ℕ) (t : Bool)
    → (i == j) ≡ t
    → s ≡ get_or_zero a i -ℤ v
    → IsAbove i m
    → get_or_zero (set a i s) j -ℤ get_or_zero m j ≡ get_or_zero a j -ℤ get_or_zero ((i, v) ∷ m) j
subtract_at a i v s m j true e es above =
    let same : i ≡ j = ground arith in
    rw
      (
        get_or_zero-set,
        get_or_zero-cons,
        e,
        get_or_zero-above m i j above (ground arith),
        sub_zero,
        es,
        same,
      )
      refl
subtract_at a i v s m j false e es above = rw (get_or_zero-set, get_or_zero-cons, e) refl

get_or_zero-subtract_balances :
    (a b c : TokenMap) (token : Address)
    → IsSorted b
    → subtract_balances a b ≡ ok c
    → get_or_zero c token ≡ get_or_zero a token -ℤ get_or_zero b token
unfolding subtract_balances get_or_zero
get_or_zero-subtract_balances a [] c token sorted h = rw (← ok-injective h, sub_zero) refl
get_or_zero-subtract_balances a ((i, v) ∷ b) c token (above, sorted) h =
    let (s, hs, rest) = run_both (sub_i128 (get_or_zero a i) v) _ h in
    rw (get_or_zero-subtract_balances (set a i s) b c token sorted rest) (
      subtract_at a i v s b token (i == token) refl (sub_i128-eq-ok (get_or_zero a i) v s hs) above)

-- Everyone once, with a share above zero, and percentages of 10,000 basis points in all, or none.
abbrev pub IsShared : List Beneficiary → Type 0
IsShared bs = (are_distinct_shares bs ≡ true) × ((total_bps bs ≡ 0) ⊎ (total_bps bs ≡ 10000))

-- A split that is planned takes nothing away: of every token, what the source keeps and what the new
-- will gets add up to what the source held. Both wills are left with beneficiaries that are named
-- once, have shares above zero, and percentages of 10,000 basis points in all, or none.
pub plan_split-conserves :
    (source : Will) (moved : List Beneficiary) (tokens : List (ℕ × ℤ)) (plan : SplitPlan)
    → plan_split source moved tokens ≡ ok plan
    → ((token : Address)
        → get_or_zero plan.child_balances token +ℤ get_or_zero plan.source_balances token
          ≡ get_or_zero source.balances token)
      × IsShared plan.remaining
      × IsShared plan.moved
unfolding plan_split plan_amounts
plan_split-conserves source moved tokens plan h =
    let requested : requested_balances tokens [] ≡ ok plan.child_balances = ground arith in
    let left : subtract_balances source.balances plan.child_balances ≡ ok plan.source_balances =
      ground arith in
    let kept : assert_valid_allocations plan.remaining
          (get_or_zero plan.source_balances source.token)
        ≡ ok tt =
      ground arith in
    let given : assert_valid_allocations plan.moved
          (get_or_zero plan.child_balances (primary_token tokens))
        ≡ ok tt =
      ground arith in
    let sorted : IsSorted plan.child_balances =
      requested_balances-IsSorted tokens [] plan.child_balances tt requested in
    (
      λ token.
          rw
            (get_or_zero-subtract_balances source.balances plan.child_balances plan.source_balances
              token sorted left)
            (add_sub (get_or_zero source.balances token) (get_or_zero plan.child_balances token)),
      assert_valid_allocations_sound plan.remaining (get_or_zero plan.source_balances source.token)
          kept,
      assert_valid_allocations_sound plan.moved
          (get_or_zero plan.child_balances (primary_token tokens)) given,
    )
