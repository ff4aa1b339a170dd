-- ===== src/Contract/Fresh/New.antt =====
-- What a new will is, and the steps that make one.
use sorowill_contracts.Prelude.{
  ℕ, ◌≡◌, refl, ap, Option, List, [], ◌∷◌, arith, none, ltb, if◌then◌else◌,
}
use sorowill_contracts.Prelude.Int.{ℤ}
use sorowill_contracts.Errors.{ok}
use sorowill_contracts.Types.{
  Address, TokenMap, Beneficiary, Will, WillStatus, pending_confirmation, active,
}
use sorowill_contracts.Types.Balances.{get_or_zero}
use sorowill_contracts.Env.{Env}
use sorowill_contracts.Env.Action.{Action, ◌>>=◌}
use sorowill_contracts.Env.Action.Keeps.{Keeps, Keeps-pure, Keeps-then, keeps_rules}
use sorowill_contracts.Contract.Clone.{guardian_addresses}
use sorowill_contracts.Contract.Batch.{WillSpec, specified_will}
use sorowill_contracts.Contract.Fresh.{
  book, last_id, Numbers, Numbers-bind, Numbers-next, Fills, Fills-bind, Fills-store, Fills-now,
  Fills-knowing, Rests-bind, Rests-pure, Entry, save_will-Stores,
}
use sorowill_contracts.Contract.Fresh.Deposits.{AreDeposited}
use sorowill_contracts.Contract.Fresh.Frame.{
  transfer-Keeps, publish-Keeps, index_by_owner-Keeps, index_beneficiaries-Keeps,
  record_transition-Keeps, increment-Keeps, adjust_locked_value-Keeps, take_deposits-Keeps,
  store_new_will-Stores,
}
use sorowill_contracts.Contract.Create.{lock_tokens, initial_status, new_guardians, primary_token}

-- A will as it is made at this time under this id, from what its owner deposits and asks for.
abbrev pub IsNew :
    Address
    → List (ℕ × ℤ)
    → List Beneficiary
    → ℕ
    → ℕ
    → List Address
    → WillStatus
    → ℕ
    → ℕ
    → Will
    → Type 0
IsNew owner tokens beneficiaries checkin grace guardians status now id w =
    (w.id ≡ id)
    × (w.owner ≡ owner)
    × AreDeposited tokens w.balances
    × (w.token ≡ primary_token tokens)
    × (w.balance ≡ get_or_zero w.balances w.token)
    × (w.beneficiaries ≡ beneficiaries)
    × (w.hashed_beneficiaries ≡ [])
    × (w.checkin_period_days ≡ checkin)
    × (w.grace_period_days ≡ grace)
    × (guardian_addresses w.guardians ≡ guardians)
    × (w.status ≡ status)
    × (w.last_checkin ≡ now)
    × (w.trigger_time ≡ none)
    × (w.guardian_votes ≡ 0)
    × (w.guardian_cancel_votes ≡ 0)

pub addresses-new_guardians :
    (guardians : List Address) → guardian_addresses (new_guardians guardians) ≡ guardians
unfolding new_guardians
addresses-new_guardians [] = refl
addresses-new_guardians (g ∷ guardians) = ap (λ gs. g ∷ gs) (addresses-new_guardians guardians)

abbrev pub IsSpecified : Address → WillSpec → ℕ → ℕ → Will → Type 0
IsSpecified owner spec =
    IsNew owner spec.tokens spec.beneficiaries spec.checkin_period_days spec.grace_period_days
      spec.guardians active

pub IsSpecified-holds :
    (owner : Address) (spec : WillSpec) (id : ℕ) (balances : TokenMap) (threshold now : ℕ)
    → AreDeposited spec.tokens balances
    → IsSpecified owner spec now id (specified_will spec id owner balances threshold now)
IsSpecified-holds owner spec id balances threshold now held =
    let guarded = addresses-new_guardians spec.guardians in
    (refl, refl, held, refl, refl, refl, refl, refl, refl, guarded, refl, refl, refl, refl, refl)

pub ruleset fresh_rules = (
  keeps_rules, Numbers-bind, Numbers-next, Fills-now, Fills-store, Fills-bind, Rests-bind,
  Rests-pure, take_deposits-Keeps, publish-Keeps, index_beneficiaries-Keeps, store_new_will-Stores,
)

pub lock_tokens-Keeps : (j : ℕ) (tokens : List (ℕ × ℤ)) → Keeps (book j) (lock_tokens tokens)
unfolding lock_tokens
lock_tokens-Keeps j [] = Keeps-pure tt
lock_tokens-Keeps j ((token, amount) ∷ tokens) =
    Keeps-then _ _ (adjust_locked_value-Keeps j token amount) (lock_tokens-Keeps j tokens)

initial_status-Keeps : (j now delay : ℕ) → Keeps (book j) (initial_status now delay)
unfolding initial_status
initial_status-Keeps j now delay = search keeps_rules depth 8

-- The status that a delay of the confirmation asks for.
abbrev pub first_status : ℕ → WillStatus
first_status delay = if ltb 0 delay then pending_confirmation else active

initial_status-eq :
    (now delay : ℕ) (env env' : Env) (r : WillStatus × Option ℕ)
    → initial_status now delay env ≡ ok (r, env')
    → r.0 ≡ first_status delay
unfolding initial_status
initial_status-eq now delay env env' r h = ground arith

pub Fills-status :
    (t delay now id : ℕ) (P : Will → Type 0) (f : WillStatus × Option ℕ → Action ℕ)
    → ((r : WillStatus × Option ℕ) → r.0 ≡ first_status delay → Fills now id P (f r))
    → Fills now id P (initial_status t delay >>= f)
Fills-status t delay now id P f ff =
    Fills-knowing (λ r. r.0 ≡ first_status delay) now id P (initial_status t delay) f
      (initial_status-eq t delay) (λ j. initial_status-Keeps j t delay) ff
