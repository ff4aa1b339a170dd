-- ===== src/Contract/Merge/Balances.antt =====
-- What a merge makes of the balances.
use sorowill_contracts.Prelude.{ℕ, ◌≡◌, refl, ◌==◌, Bool, true, false, [], ◌∷◌, arith}
use sorowill_contracts.Prelude.Int.{ℤ, ◌+ℤ◌, add_zero}
use sorowill_contracts.Errors.{ok, run_both, ok-injective}
use sorowill_contracts.Types.{TokenMap, Address, Will}
use sorowill_contracts.Types.Balances.{get, get_or_zero, set, IsAbove, IsSorted}
use sorowill_contracts.Types.Balances.Lookup.{get_or_zero-above, get_or_zero-cons, get_or_zero-set}
use sorowill_contracts.Env.Action.{add_i128}
use sorowill_contracts.Contract.Merge.{combine_balances, merge}

add_i128-eq-ok : (a b c : ℤ) → add_i128 a b ≡ ok c → c ≡ a +ℤ b
add_i128-eq-ok a b c h = ground arith

add_at :
    (a : TokenMap) (i : ℕ) (v s : ℤ) (m : TokenMap) (j : ℕ) (t : Bool)
    → (i == j) ≡ t
    → s ≡ get_or_zero a i +ℤ v
    → IsAbove i m
    → get_or_zero (set a i s) j +ℤ get_or_zero m j ≡ get_or_zero a j +ℤ get_or_zero ((i, v) ∷ m) j
add_at a i v s m j true e es above =
    let same : i ≡ j = ground arith in
    rw
      (
        get_or_zero-set,
        get_or_zero-cons,
        e,
        get_or_zero-above m i j above (ground arith),
        add_zero,
        es,
        same,
      )
      refl
add_at a i v s m j false e es above = rw (get_or_zero-set, get_or_zero-cons, e) refl

-- Combining a map of balances with one whose keys are in ascending order adds up, for every token,
-- what the two hold of it.
get_or_zero-combine_balances :
    (a b c : TokenMap) (token : Address)
    → IsSorted b
    → combine_balances a b ≡ ok c
    → get_or_zero c token ≡ get_or_zero a token +ℤ get_or_zero b token
unfolding combine_balances get_or_zero get
get_or_zero-combine_balances a [] c token sorted h = rw (← ok-injective h, add_zero) refl
get_or_zero-combine_balances a ((i, v) ∷ b) c token (above, sorted) h =
    let (s, hs, rest) = run_both (add_i128 (get_or_zero a i) v) _ h in
    rw (get_or_zero-combine_balances (set a i s) b c token sorted rest)
      (add_at a i v s b token (i == token) refl (add_i128-eq-ok (get_or_zero a i) v s hs) above)

-- The merged will keeps the id, the owner, the primary token and the status of the first will, holds
-- of every token what the two wills held together, where the balances of the second are in ascending
-- order of their tokens, and has no counted votes of
-- either kind, but keeps the weights of the first will's votes.
pub merge-conserves :
    (will_a will_b m : Will)
    → IsSorted will_b.balances
    → merge will_a will_b ≡ ok m
    → (m.id ≡ will_a.id)
      × (m.owner ≡ will_a.owner)
      × (m.token ≡ will_a.token)
      × (m.status ≡ will_a.status)
      × (m.guardian_votes ≡ 0)
      × (m.guardian_cancel_votes ≡ 0)
      × (m.guardian_vote_weight ≡ will_a.guardian_vote_weight)
      × (m.guardian_cancel_vote_weight ≡ will_a.guardian_cancel_vote_weight)
      × ((token : Address)
          → get_or_zero m.balances token
            ≡ get_or_zero will_a.balances token +ℤ get_or_zero will_b.balances token)
unfolding merge
merge-conserves will_a will_b m sorted h =
    let combined : combine_balances will_a.balances will_b.balances ≡ ok m.balances =
      ground arith in
    (
      ground arith,
      ground arith,
      ground arith,
      ground arith,
      ground arith,
      ground arith,
      ground arith,
      ground arith,
      λ token.
          get_or_zero-combine_balances will_a.balances will_b.balances m.balances token sorted
            combined,
    )
