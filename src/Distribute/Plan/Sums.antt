-- ===== src/Distribute/Plan/Sums.antt =====
-- What each loop of the plan adds up to.
use sorowill_contracts.Prelude.{
  ℕ, ◌+◌, ◌-◌, ◌≤◌, ◌≡◌, refl, sym, ap, Bool, true, false, List, [], ◌∷◌, ◌++◌, ◌==◌, arith,
}
use sorowill_contracts.Prelude.Int.{
  ℤ, pos, ◌+ℤ◌, ◌-ℤ◌, ltb_ℤ, min_ℤ, max_ℤ, zero_add, add_zero, add_assoc, add_sub,
}
use sorowill_contracts.Errors.{
  distribution_mismatch, Result, ok, panic_if, ◌>>=◌, run_both, ok-injective,
}
use sorowill_contracts.Types.{Address, Allocation, percentage, fixed_amount, Beneficiary}
use sorowill_contracts.Env.Action.{sub_i128}
use sorowill_contracts.Shares.{proportional_share, min_one_unit_share}
use sorowill_contracts.Distribute.Plan.{
  Payments, percentage_count, pay_fixed, pay_percentages, plan_add, add_shares, add_refunds,
}

unfoldable pub sum : Payments → ℤ
sum [] = pos 0
sum ((_, amount) ∷ payments) = amount +ℤ sum payments

-- The part of the refunds that is in one token.
unfoldable pub sum_in : Address → Payments → ℤ
sum_in token [] = pos 0
sum_in token ((t, amount) ∷ payments) =
    let rest = sum_in token payments in elim (t == token) [ true ↦ amount +ℤ rest | false ↦ rest ]

pub sum-append : (xs ys : Payments) → sum (xs ++ ys) ≡ sum xs +ℤ sum ys
unfolding sum
sum-append [] ys = sym (zero_add (sum ys))
sum-append ((a, x) ∷ xs) ys = rw (sum-append xs ys) (sym (add_assoc x (sum xs) (sum ys)))

pub sub_i128-eq-ok : (a b c : ℤ) → sub_i128 a b ≡ ok c → c ≡ a -ℤ b
sub_i128-eq-ok a b c h = ground arith

plan_add-eq-ok : (p x q : ℤ) → plan_add p x ≡ ok q → q ≡ p +ℤ x
plan_add-eq-ok p x q h = ground arith

no_percentages :
    (remaining : ℤ) (count : ℕ) (bs : List Beneficiary) (index : ℕ) (left : ℤ)
    → percentage_count bs ≡ 0
    → pay_percentages remaining count bs index left ≡ ok []
unfolding pay_percentages percentage_count
no_percentages remaining count [] index left e = refl
no_percentages remaining count (b ∷ bs) index left e =
    ground (arith, no_percentages remaining count bs index left)

-- The share of one beneficiary, and those of the others.
split_bind :
    (portion : Result ℤ) (rest : ℤ → Result Payments) (address : Address) (left : ℤ)
    (shares : Payments)
    → (portion >>= λ p.
        sub_i128 left p >>= λ left'. rest left' >>= λ others. ok ((address, p) ∷ others))
      ≡ ok shares
    → (p : ℤ) × (others : Payments) × (rest (left -ℤ p) ≡ ok others)
      × ((address, p) ∷ others ≡ shares)
split_bind portion rest address left shares h =
    let (p, hp, h₁) = run_both portion _ h in
    let (left', hl, h₂) = run_both (sub_i128 left p) _ h₁ in
    let (others, ho, h₃) = run_both (rest left') _ h₂ in
    (p, others, rw (← sub_i128-eq-ok left p left' hl) ho, ok-injective h₃)

-- What is proved of the later beneficiaries.
abbrev SumsTo : ℤ → ℕ → List Beneficiary → Type 0
SumsTo remaining count bs =
    (index : ℕ) (left : ℤ) (shares : Payments)
    → pay_percentages remaining count bs index left ≡ ok shares
    → index + percentage_count bs ≡ count
    → 1 ≤ percentage_count bs
    → sum shares ≡ left

sums_at :
    (remaining : ℤ) (count : ℕ) (address : Address) (a : Allocation) (bs : List Beneficiary)
    (index : ℕ) (left : ℤ) (shares : Payments) (t : Bool)
    → ((index + 1) == count) ≡ t
    → SumsTo remaining count bs
    → pay_percentages remaining count (record { address = address; allocation = a } ∷ bs) index left
      ≡ ok shares
    → index + percentage_count (record { address = address; allocation = a } ∷ bs) ≡ count
    → 1 ≤ percentage_count (record { address = address; allocation = a } ∷ bs)
    → sum shares ≡ left
unfolding pay_percentages percentage_count sum
sums_at remaining count address (fixed_amount x) bs index left shares t et ih h e k =
    ih index left shares h e k
sums_at remaining count address (percentage bp) bs index left shares true et ih h e k =
    let nothing = no_percentages remaining count bs (index + 1) left (ground arith) in
    let h₁ : ((address, left) ∷ []) ≡ shares =
      ok-injective (rw nothing at (rw (et, pay_percentages) at h)) in
    rw (← h₁) (add_zero left)
sums_at remaining count address (percentage bp) bs index left shares false et ih h e k =
    let (floor_share, _, h₁) =
      run_both (proportional_share remaining bp) _ (rw (et, pay_percentages) at h) in
    let (p, others, ho, hs) =
      split_bind (min_one_unit_share floor_share left (count - (index + 1)))
        (pay_percentages remaining count bs (index + 1)) address left shares h₁ in
    rw (← hs)
      (rw (ih (index + 1) (left -ℤ p) others ho (ground arith) (ground arith)) (add_sub left p))

-- Where `index` of the `count` percentage beneficiaries have been served and at least one is to come,
-- the shares of those to come add up to exactly what is left, whatever is rounded off.
pub sum-pay_percentages :
    (remaining : ℤ) (count : ℕ) (bs : List Beneficiary) (index : ℕ) (left : ℤ) (shares : Payments)
    → pay_percentages remaining count bs index left ≡ ok shares
    → index + percentage_count bs ≡ count
    → 1 ≤ percentage_count bs
    → sum shares ≡ left
unfolding pay_percentages percentage_count sum
sum-pay_percentages remaining count [] index left shares h e k = ground arith
sum-pay_percentages remaining count (b ∷ bs) index left shares h e k =
    sums_at remaining count b.address b.allocation bs index left shares ((index + 1) == count) refl
      (sum-pay_percentages remaining count bs) h e k

-- The fixed amounts and what remains after them are what there was.
fixed_at :
    (address : Address) (a : Allocation) (bs : List Beneficiary) (remaining rest : ℤ)
    (shares : Payments)
    → ((r t : ℤ) (s : Payments) → pay_fixed bs r ≡ ok (t, s) → sum s +ℤ t ≡ r)
    → pay_fixed (record { address = address; allocation = a } ∷ bs) remaining ≡ ok (rest, shares)
    → sum shares +ℤ rest ≡ remaining
unfolding pay_fixed sum
fixed_at address (percentage bp) bs remaining rest shares ih h = ih remaining rest shares h
fixed_at address (fixed_amount amount) bs remaining rest shares ih h =
    let share = max_ℤ (min_ℤ amount remaining) (pos 0) in
    let (left, hl, h₁) = run_both (sub_i128 remaining share) _ h in
    let ((r, s), hr, h₂) = run_both (pay_fixed bs left) _ h₁ in
    let sums : sum s +ℤ r ≡ left = ih left r s hr in
    let e₁ : r ≡ rest = ap (λ p. p.0) (ok-injective h₂) in
    let e₂ : ((address, share) ∷ s) ≡ shares = ap (λ p. p.1) (ok-injective h₂) in
    rw (← e₂, ← e₁, add_assoc share (sum s) r, sums, sub_i128-eq-ok remaining share left hl)
      (add_sub remaining share)

pub sum-pay_fixed :
    (bs : List Beneficiary) (remaining rest : ℤ) (shares : Payments)
    → pay_fixed bs remaining ≡ ok (rest, shares)
    → sum shares +ℤ rest ≡ remaining
unfolding pay_fixed sum
sum-pay_fixed [] remaining rest shares h =
    let e₁ : remaining ≡ rest = ap (λ p. p.0) (ok-injective h) in
    let e₂ : [] ≡ shares = ap (λ p. p.1) (ok-injective h) in rw (← e₂, e₁) (zero_add rest)
sum-pay_fixed (b ∷ bs) remaining rest shares h =
    fixed_at b.address b.allocation bs remaining rest shares (sum-pay_fixed bs) h

-- What the two summing loops of the check return, where they return.
pub add_shares-eq-ok :
    (shares : Payments) (planned q : ℤ)
    → add_shares shares planned ≡ ok q
    → q ≡ planned +ℤ sum shares
unfolding add_shares sum
add_shares-eq-ok [] planned q h = rw (add_zero planned) (sym (ok-injective h))
add_shares-eq-ok ((a, x) ∷ shares) planned q h =
    let (_, _, h₁) = run_both (panic_if (ltb_ℤ x (pos 0)) distribution_mismatch) _ h in
    let (p, hp, h₂) = run_both (plan_add planned x) _ h₁ in
    let q_sum : q ≡ p +ℤ sum shares = add_shares-eq-ok shares p q h₂ in
    rw (q_sum, plan_add-eq-ok planned x p hp) (add_assoc planned x (sum shares))

refund_at :
    (t : Bool) (a token : Address) (x : ℤ) (refunds : Payments) (planned q : ℤ)
    → (a == token) ≡ t
    → ((p r : ℤ) → add_refunds refunds token p ≡ ok r → r ≡ p +ℤ sum_in token refunds)
    → add_refunds ((a, x) ∷ refunds) token planned ≡ ok q
    → q ≡ planned +ℤ sum_in token ((a, x) ∷ refunds)
unfolding add_refunds sum_in
refund_at true a token x refunds planned q e ih h =
    let (p, hp, h₁) = run_both (plan_add planned x) _ (rw (e, add_refunds) at h) in
    rw (e, sum_in, ih p q h₁, plan_add-eq-ok planned x p hp)
      (add_assoc planned x (sum_in token refunds))
refund_at false a token x refunds planned q e ih h =
    rw (e, sum_in) (ih planned q (rw (e, add_refunds) at h))

pub add_refunds-eq-ok :
    (refunds : Payments) (token : Address) (planned q : ℤ)
    → add_refunds refunds token planned ≡ ok q
    → q ≡ planned +ℤ sum_in token refunds
unfolding add_refunds sum_in
add_refunds-eq-ok [] token planned q h = rw (add_zero planned) (sym (ok-injective h))
add_refunds-eq-ok ((a, x) ∷ refunds) token planned q h =
    refund_at (a == token) a token x refunds planned q refl (add_refunds-eq-ok refunds token) h
