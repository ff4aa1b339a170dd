-- ===== src/Contract/Release/Stuck.antt =====
-- The wills that `release_inheritance` can never pay out.
use sorowill_contracts.Prelude.{
  ℕ, suc, ◌≤◌, ◌≡◌, ◌∙◌, refl, Bool, false, Option, none, some, List, [], ◌∷◌, sym, ap, arith,
}
use sorowill_contracts.Prelude.Int.{ℤ, pos, is_zero}
use sorowill_contracts.Errors.{ok, err, Result, run_both, ok-injective}
use sorowill_contracts.Types.{Address, Will}
use sorowill_contracts.Env.{Env, Val, encoded}
use sorowill_contracts.Env.Action.{Action, lift, query, resume, ◌>>=◌}
use sorowill_contracts.Env.Action.Keeps.{Keeps}
use sorowill_contracts.Storage.Wills.{load_will}
use sorowill_contracts.Storage.Wills.Saves.{wills_of}
use sorowill_contracts.Validation.{unclaimed_hashed_bps}
use sorowill_contracts.Distribute.Plan.{
  Payments, Plan, Terms, empty_plan, percentage_count, should_pay_bounty, fixed_part, plan_balance,
  plan_tokens,
}
use sorowill_contracts.Distribute.Plan.Conservation.{plan_balance-fails}
use sorowill_contracts.Distribute.Plan.Sums.{sum_in}
use sorowill_contracts.Distribute.Payout.{terms_of, pick_if, distribute}
use sorowill_contracts.Contract.Release.{release_inheritance}
use sorowill_contracts.Contract.Transition.Frame.{acquire-Keeps, unlock_balances-Keeps}
use sorowill_contracts.Distribute.Payout.Frame.{frame_rules}

-- No run of `m` over these wills succeeds.
record Stuck {A : Type 0} (wills : ℕ → Option Val) (m : Action A) : Type 0 where
  at : (env env' : Env) (a : A) → wills_of env ≡ wills → ¬ (m env ≡ ok (a, env'))

stopped :
    {A B : Type 0} (r : Result (A × Env)) (f : A → Action B) (env' : Env) (b : B)
    → ((a : A) (env₁ : Env) → ¬ (r ≡ ok (a, env₁)))
    → ¬ (resume r f ≡ ok (b, env'))
stopped (ok (a, env₁)) f env' b never h = never a env₁ refl
stopped (err t) f env' b never h = cc

module _ {A B : Type 0} {wills : ℕ → Option Val} where
  Stuck-then :
      (r : Result (A × Env)) (f : A → Action B) (env' : Env) (b : B)
      → ((a : A) (env₁ : Env) → r ≡ ok (a, env₁) → wills_of env₁ ≡ wills)
      → ((a : A) → Stuck wills (f a))
      → ¬ (resume r f ≡ ok (b, env'))
  Stuck-then (ok (a, env₁)) f env' b km sf h = (sf a).at env₁ env' b (km a env₁ refl) h
  Stuck-then (err t) f env' b km sf h = cc

  Stuck-after :
      (m : Action A) (f : A → Action B)
      → Keeps wills_of m
      → ((a : A) → Stuck wills (f a))
      → Stuck wills (m >>= f)
  Stuck-after m f km sf = record {
    at = λ env env' b e h. Stuck-then (m env) f env' b (λ a env₁ e₁. km.at env env₁ a e₁ ∙ e) sf h;
  }

  Stuck-first : (m : Action A) (f : A → Action B) → Stuck wills m → Stuck wills (m >>= f)
  Stuck-first m f sm = record {
    at = λ env env' b e h. stopped (m env) f env' b (λ a env₁. sm.at env env₁ a e) h;
  }

  Stuck-lift :
      (r : Result A) (f : A → Action B)
      → ((a : A) → r ≡ ok a → Stuck wills (f a))
      → Stuck wills (lift r >>= f)
  Stuck-lift (ok a) f sf = record { at = λ env env' b e h. (sf a refl).at env env' b e h }
  Stuck-lift (err t) f sf = record { at = λ env env' b e h. cc }

  Stuck-never :
      (r : Result A) (f : A → Action B) → ((a : A) → ¬ (r ≡ ok a)) → Stuck wills (lift r >>= f)
  Stuck-never r f never = Stuck-lift r f λ a e. elim (never a e) [ ]

module _ {B : Type 0} {wills : ℕ → Option Val} where
  loaded :
      (r : Result Will) (w : Will) (k : Will → Action B) (env env' : Env) (b : B)
      → r ≡ ok w
      → wills_of env ≡ wills
      → Stuck wills (k w)
      → ¬ (resume (query (λ _. r) env) k ≡ ok (b, env'))
  loaded (ok v) w k env env' b e same sk h =
      let v_is : v ≡ w = ground arith in sk.at env env' b same (rw v_is at h)
  loaded (err t) w k env env' b e same sk h = cc

  Stuck-load :
      (id : ℕ) (w : Will) (k : Will → Action B)
      → wills id ≡ some (encoded w)
      → Stuck wills (k w)
      → Stuck wills (query (load_will id) >>= k)
  unfolding load_will
  Stuck-load id w k found sk = record {
    at = λ env env' b e h. loaded (load_will id env) w k env env' b (ground arith) e sk h;
  }

no_bounty_due :
    (keeper : Option Address) (contract : Address) (w : Will)
    → w.keeper_bounty_bps ≡ 0
    → should_pay_bounty keeper contract w ≡ false
unfolding should_pay_bounty
no_bounty_due none contract w e = refl
no_bounty_due (some k) contract w e = ground arith

plan_tokens-fails :
    (terms : Terms) (plan plan' : Plan) (token : Address) (n : ℕ) (rest : List (ℕ × ℤ))
    → ((p : Plan) → ¬ (plan_balance terms plan token (pos (suc n)) ≡ ok p))
    → ¬ (plan_tokens terms plan ((token, pos (suc n)) ∷ rest) ≡ ok plan')
unfolding plan_tokens
plan_tokens-fails terms plan plan' token n rest never h =
    let some_left : is_zero (pos (suc n)) ≡ false = ground arith in
    let (p, hp, _) =
      run_both (plan_balance terms plan token (pos (suc n))) _ (rw (some_left, plan_tokens) at h) in
    never p hp

module _ (w : Will) (token : Address) (n m : ℕ) (rest : List (ℕ × ℤ)) (fixed : Payments)
    (no_rate : w.keeper_bounty_bps ≡ 0) (no_hash : w.hashed_beneficiaries ≡ [])
    (first : w.balances ≡ (token, pos (suc n)) ∷ rest)
    (some_pct : 1 ≤ percentage_count w.beneficiaries)
    (left : fixed_part w token (pos (suc n)) ≡ ok (pos (suc m), fixed)) where
  plan_never :
      (pays : Bool) (bounty : Option (ℕ × ℤ)) (plan : Plan)
      → pays ≡ false
      → pick_if pays w ≡ ok bounty
      → ¬ (plan_tokens (terms_of w pays bounty) empty_plan w.balances ≡ ok plan)
  unfolding terms_of unclaimed_hashed_bps sum_in
  plan_never pays bounty plan no_pay picked h =
      let b : none ≡ bounty = ok-injective (rw no_pay at picked) in
      let none_hashed : unclaimed_hashed_bps w.hashed_beneficiaries 0 ≡ 0 =
        ap (λ hs. unclaimed_hashed_bps hs 0) no_hash in
      plan_tokens-fails (terms_of w pays bounty) empty_plan plan token n rest
        (λ p.
          plan_balance-fails (terms_of w pays bounty) empty_plan p token (pos (suc n)) (pos (suc m))
            fixed m no_pay (sym b) none_hashed refl some_pct refl left refl)
        (ap (λ bs. plan_tokens (terms_of w pays bounty) empty_plan bs) (sym first) ∙ h)

  distribute-Stuck :
      (wills : ℕ → Option Val) (keeper : Option Address) → Stuck wills (distribute w keeper)
  unfolding distribute
  distribute-Stuck wills keeper =
      search (Stuck-after, Stuck-lift, Stuck-never, plan_never, no_bounty_due, no_rate, frame_rules)
        depth 20 fits 20000

  release-Stuck :
      (wills : ℕ → Option Val) (id : ℕ) (caller : Option Address)
      → wills id ≡ some (encoded w)
      → Stuck wills (release_inheritance id caller)
  unfolding release_inheritance
  release-Stuck wills id caller found =
      search
        (
          Stuck-after, Stuck-load, Stuck-first, distribute-Stuck, frame_rules, acquire-Keeps,
          unlock_balances-Keeps,
        )
        depth 20 fits 20000

-- Nobody can release a will that offers no keeper bounty and has no hashed beneficiary, if it names
-- a percentage beneficiary and its first balance is above zero and not used up by fixed amounts: the
-- call aborts, whoever makes it and whatever the time.
pub release_inheritance-fails :
    (id : ℕ) (caller : Option Address) (env env' : Env) (w : Will) (token : Address) (n m : ℕ)
    (rest : List (ℕ × ℤ)) (fixed : Payments)
    → load_will id env ≡ ok w
    → w.keeper_bounty_bps ≡ 0
    → w.hashed_beneficiaries ≡ []
    → w.balances ≡ (token, pos (suc n)) ∷ rest
    → 1 ≤ percentage_count w.beneficiaries
    → fixed_part w token (pos (suc n)) ≡ ok (pos (suc m), fixed)
    → ¬ (release_inheritance id caller env ≡ ok (tt, env'))
unfolding load_will
release_inheritance-fails id caller env env' w token n m rest fixed found no_rate no_hash first
      some_pct left =
    (release-Stuck w token n m rest fixed no_rate no_hash first some_pct left (wills_of env) id
        caller (ground arith)).at
      env env' tt refl
