-- ===== src/Distribute/Plan/Conservation.antt =====
-- What one token's plan adds up to, and the wills whose plan never adds up.
use sorowill_contracts.Prelude.{
  ℕ, suc, ◌≤◌, ◌≡◌, refl, sym, ◌∙◌, ap, Bool, true, false, none, [], ◌∷◌, ◌++◌, ◌==◌, arith,
  ==_refl,
}
use sorowill_contracts.Prelude.Int.{ℤ, pos, ◌+ℤ◌, zero_add, add_zero, add_assoc}
use sorowill_contracts.Errors.{ok, run_both, ok-injective}
use sorowill_contracts.Types.{Address, TokenMap, Will}
use sorowill_contracts.Distribute.Plan.{
  Payments, Plan, Terms, percentage_count, pay_percentages, after_bounty, token_bounty, reserve,
  fixed_part, with_refund, add_shares, add_refunds, check_planned, plan_balance,
}
use sorowill_contracts.Distribute.Plan.Sums.{
  sum, sum_in, sum-append, sum-pay_percentages, sum-pay_fixed, add_shares-eq-ok, add_refunds-eq-ok,
}

check_planned-eq-ok :
    (bounty : ℤ) (shares refunds : Payments) (token : Address) (total : ℤ) {u : Unit {0}}
    → check_planned bounty shares refunds token total ≡ ok u
    → bounty +ℤ sum shares +ℤ sum_in token refunds ≡ total
unfolding check_planned
check_planned-eq-ok bounty shares refunds token total h =
    let (p, hp, h₁) = run_both (add_shares shares bounty) _ h in
    let (q, hq, h₂) = run_both (add_refunds refunds token p) _ h₁ in
    let e : q ≡ total = ground arith in
    rw (← add_shares-eq-ok shares bounty p hp, ← add_refunds-eq-ok refunds token p q hq) e

-- The parts of a token's plan that has been made.
pub record Planned (terms : Terms) (plan plan' : Plan) (token : Address) (total : ℤ) : Type 0 where
  pub bounty : ℤ
  pub net : ℤ
  pub available : ℤ
  pub reserves : TokenMap
  pub remaining : ℤ
  pub fixed_shares : Payments
  pub percentage_shares : Payments
  pub bounty_of : token_bounty terms plan total ≡ ok bounty
  pub net_of : after_bounty terms.bounty_token token total ≡ ok net
  pub reserve_of :
      reserve terms.hashed_bps token net plan.hashed_reserves ≡ ok (available, reserves)
  pub fixed_of : fixed_part terms.will token available ≡ ok (remaining, fixed_shares)
  pub percentages_of :
      pay_percentages remaining terms.share_count terms.will.beneficiaries 0 remaining
      ≡ ok percentage_shares
  pub check_of :
      bounty
        +ℤ sum (fixed_shares ++ percentage_shares)
        +ℤ sum_in token (with_refund plan.refund_plan token remaining)
      ≡ total
  pub transfers_of :
      plan'.transfer_plan ≡ plan.transfer_plan ++ (token, fixed_shares ++ percentage_shares) ∷ []
  pub refunds_of : plan'.refund_plan ≡ with_refund plan.refund_plan token remaining

planned :
    (terms : Terms) (plan plan' : Plan) (token : Address) (total : ℤ)
    → plan_balance terms plan token total ≡ ok plan'
    → Planned terms plan plan' token total
unfolding plan_balance
planned terms plan plan' token total h =
    let (b, hb, h₁) = run_both (token_bounty terms plan total) _ h in
    let (n, hn, h₂) = run_both (after_bounty terms.bounty_token token total) _ h₁ in
    let ((a, r), ha, h₃) = run_both (reserve terms.hashed_bps token n plan.hashed_reserves) _ h₂ in
    let ((m, f), hf, h₄) = run_both (fixed_part terms.will token a) _ h₃ in
    let (s, hs, h₅) =
      run_both (pay_percentages m terms.share_count terms.will.beneficiaries 0 m) _ h₄ in
    let (_, hc, h₆) =
      run_both (check_planned b (f ++ s) (with_refund plan.refund_plan token m) token total) _ h₅ in
    let e = ok-injective h₆ in
    record {
      bounty = b;
      net = n;
      available = a;
      reserves = r;
      remaining = m;
      fixed_shares = f;
      percentage_shares = s;
      bounty_of = hb;
      net_of = hn;
      reserve_of = ha;
      fixed_of = hf;
      percentages_of = hs;
      check_of =
          check_planned-eq-ok b (f ++ s) (with_refund plan.refund_plan token m) token total hc;
      transfers_of = sym (ap (λ p. p.transfer_plan) e);
      refunds_of = sym (ap (λ p. p.refund_plan) e);
    }

-- A token's plan that passes its check accounts for the balance exactly: the bounty charged, the
-- shares planned and the refunds planned in this token add up to the token's whole balance.
pub plan_balance-conserves :
    (terms : Terms) (plan plan' : Plan) (token : Address) (total : ℤ)
    → plan_balance terms plan token total ≡ ok plan'
    → (bounty : ℤ) × (shares : Payments) × (token_bounty terms plan total ≡ ok bounty)
      × (plan'.transfer_plan ≡ plan.transfer_plan ++ (token, shares) ∷ [])
      × (bounty +ℤ sum shares +ℤ sum_in token plan'.refund_plan ≡ total)
plan_balance-conserves terms plan plan' token total h =
    let p = planned terms plan plan' token total h in
    (
      p.bounty,
      p.fixed_shares ++ p.percentage_shares,
      p.bounty_of,
      p.transfers_of,
      rw p.refunds_of p.check_of,
    )

sum_in_cons :
    (t : Bool) (token a : Address) (y x : ℤ) (xs : Payments)
    → (a == token) ≡ t
    → sum_in token (xs ++ (token, x) ∷ []) ≡ sum_in token xs +ℤ x
    → sum_in token (((a, y) ∷ xs) ++ (token, x) ∷ []) ≡ sum_in token ((a, y) ∷ xs) +ℤ x
unfolding sum_in
sum_in_cons true token a y x xs e ih = rw (e, sum_in, ih) (sym (add_assoc y (sum_in token xs) x))
sum_in_cons false token a y x xs e ih = rw (e, sum_in) ih

sum_in-append :
    (token : Address) (xs : Payments) (x : ℤ)
    → sum_in token (xs ++ (token, x) ∷ []) ≡ sum_in token xs +ℤ x
unfolding sum_in
sum_in-append token [] x = rw (==_refl token, sum_in) (add_zero x ∙ sym (zero_add x))
sum_in-append token ((a, y) ∷ xs) x =
    sum_in_cons (a == token) token a y x xs refl (sum_in-append token xs x)

fixed_if :
    (t : Bool) (w : Will) (token : Address) (available remaining : ℤ) (fixed : Payments)
    → (token == w.token) ≡ t
    → fixed_part w token available ≡ ok (remaining, fixed)
    → sum fixed +ℤ remaining ≡ available
unfolding sum
fixed_if true w token available remaining fixed e h =
    sum-pay_fixed w.beneficiaries available remaining fixed (rw e at h)
fixed_if false w token available remaining fixed e h =
    let p = ok-injective (rw e at h) in
    rw (← ap (λ q. q.0) p, ← ap (λ q. q.1) p) (zero_add available)

pub fixed_part-sums :
    (w : Will) (token : Address) (available remaining : ℤ) (fixed : Payments)
    → fixed_part w token available ≡ ok (remaining, fixed)
    → sum fixed +ℤ remaining ≡ available
fixed_part-sums w token available remaining fixed h =
    fixed_if (token == w.token) w token available remaining fixed refl h

-- The arithmetic of the check where the remainder is both shared out and refunded.
over_planned :
    (total r : ℤ) (fixed shares refunds : Payments) (token : Address) (n : ℕ)
    → r ≡ pos (suc n)
    → sum fixed +ℤ r ≡ total
    → sum shares ≡ r
    → sum_in token refunds ≡ pos 0
    → ¬ (pos 0 +ℤ sum (fixed ++ shares) +ℤ sum_in token (with_refund refunds token r) ≡ total)
unfolding ◌+ℤ◌
over_planned total r fixed shares refunds token n e sums pcts none_before h =
    let both : sum (fixed ++ shares) ≡ total =
      sum-append fixed shares ∙ ap (λ x. sum fixed +ℤ x) pcts ∙ sums in
    let again : sum_in token (refunds ++ (token, r) ∷ []) ≡ sum_in token refunds +ℤ r =
      sum_in-append token refunds r in
    ground arith

-- Without a bounty, a hashed reserve and an earlier refund in the token, the plan never passes its
-- check where there are percentage beneficiaries and something remains for them: it is shared out to
-- them and then planned a second time, as a refund to the owner.
pub plan_balance-fails :
    (terms : Terms) (plan plan' : Plan) (token : Address) (total remaining : ℤ) (fixed : Payments)
    (n : ℕ)
    → terms.pays_bounty ≡ false
    → terms.bounty_token ≡ none
    → terms.hashed_bps ≡ 0
    → terms.share_count ≡ percentage_count terms.will.beneficiaries
    → 1 ≤ percentage_count terms.will.beneficiaries
    → sum_in token plan.refund_plan ≡ pos 0
    → fixed_part terms.will token total ≡ ok (remaining, fixed)
    → remaining ≡ pos (suc n)
    → ¬ (plan_balance terms plan token total ≡ ok plan')
plan_balance-fails terms plan plan' token total remaining fixed n no_bounty no_token no_hash count
      some_pct none_before hf e h =
    let p = planned terms plan plan' token total h in
    let b : pos 0 ≡ p.bounty = ok-injective (rw no_bounty at p.bounty_of) in
    let m : total ≡ p.net = ok-injective (rw no_token at p.net_of) in
    let a : p.net ≡ p.available = ap (λ q. q.0) (ok-injective (rw no_hash at p.reserve_of)) in
    let f : ok (remaining, fixed) ≡ ok (p.remaining, p.fixed_shares) =
      sym hf ∙ ap (λ x. fixed_part terms.will token x) (m ∙ a) ∙ p.fixed_of in
    let r : remaining ≡ p.remaining = ap (λ q. q.0) (ok-injective f) in
    let pcts : sum p.percentage_shares ≡ p.remaining =
      sum-pay_percentages p.remaining terms.share_count terms.will.beneficiaries 0 p.remaining
        p.percentage_shares p.percentages_of (ground arith) some_pct in
    over_planned total p.remaining p.fixed_shares p.percentage_shares plan.refund_plan token n
      (sym r ∙ e)
      (fixed_part-sums terms.will token p.available p.remaining p.fixed_shares p.fixed_of
        ∙ sym (m ∙ a))
      pcts none_before (rw (← b) at p.check_of)
