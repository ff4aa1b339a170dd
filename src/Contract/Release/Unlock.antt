-- ===== src/Contract/Release/Unlock.antt =====
-- The two loops that lower the protocol's locked totals.
use sorowill_contracts.Prelude.{ℕ, ◌≡◌, refl, fun_ext, Bool, true, false, ◌&&◌, [], ◌∷◌, arith}
use sorowill_contracts.Prelude.Int.{ℤ, pos, negsuc, ◌*ℤ◌, ◌-ℤ◌, is_zero}
use sorowill_contracts.Types.{Address, TokenMap}
use sorowill_contracts.Storage.Stats.{adjust_unless_zero, adjust_locked_for_balances}
use sorowill_contracts.Contract.Release.{unlock_balance, unlock_balances}

-- No amount is below zero.
abbrev pub is_natural : ℤ → Bool
is_natural (pos _) = true
is_natural (negsuc _) = false

unfoldable pub are_natural : TokenMap → Bool
are_natural [] = true
are_natural ((_, x) ∷ balances) = is_natural x && are_natural balances

minus_one : (n : ℕ) → negsuc 0 *ℤ pos n ≡ pos 0 -ℤ pos n
unfolding ◌*ℤ◌ ◌-ℤ◌
minus_one n = ground arith

unlock_one :
    (t : Address) (x : ℤ)
    → is_natural x ≡ true
    → unlock_balance t x ≡ adjust_unless_zero (is_zero x) t (negsuc 0) x
unfolding unlock_balance adjust_unless_zero
unlock_one t (negsuc n) h = cc
unlock_one t (pos n) h = fun_ext λ env. ground (arith, minus_one n)

-- On balances that are not below zero the loop of `unlock_balances` is the very action of
-- `adjust_locked_for_balances` with the sign -1.
pub unlock_balances-eq-adjust_locked_for_balances :
    (balances : TokenMap)
    → are_natural balances ≡ true
    → unlock_balances balances ≡ adjust_locked_for_balances balances (negsuc 0)
unfolding unlock_balances adjust_locked_for_balances are_natural
unlock_balances-eq-adjust_locked_for_balances [] h = refl
unlock_balances-eq-adjust_locked_for_balances ((t, x) ∷ balances) h =
    let e = unlock_one t x (ground arith) in
    let rest = unlock_balances-eq-adjust_locked_for_balances balances (ground arith) in
    fun_ext λ env. rw (← e, ← rest) refl
