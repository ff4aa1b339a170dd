-- ===== src/Errors.antt =====
-- errors.rs, and what else can abort an invocation. Every abort rolls the whole invocation back.
use sorowill_contracts.Prelude.{◌≡◌, refl, Bool, true, false}

-- `WillError`. The last three are raised by release_lock.rs, guardian_vote_freshness.rs and
-- `reveal_and_claim` and are missing from the enum, so they have no code of their own there.
pub data WillError : Type 0 where
  will_not_found not_owner will_not_active will_not_triggered grace_period_not_expired : WillError
  grace_period_expired invalid_percentages already_voted not_guardian checkin_not_due : WillError
  zero_amount too_many_beneficiaries will_not_settled will_not_released not_same_owner : WillError
  will_not_both_active same_will_id merge_would_exceed_limits invalid_period : WillError
  duplicate_guardian guardian_cooldown_active owner_cannot_be_guardian : WillError
  beneficiary_not_found keeper_bounty_exceeds_max invalid_guardian_threshold : WillError
  fixed_amount_exceeds_balance invalid_token duplicate_beneficiary will_not_confirmed : WillError
  confirmation_window_expired too_many_ids insufficient_balance invalid_split : WillError
  invalid_preimage already_claimed too_many_wills guardian_not_consented : WillError
  distribution_mismatch unsupported_schema_version primary_token_mismatch : WillError
  duplicate_token batch_too_large invalid_token_count invalid_preimage_length : WillError
  invalid_commitment_length duplicate_commitment preimage_address_mismatch : WillError
  merge_with_hashed_beneficiaries duplicate_will_id invalid_consent_transition : WillError
  no_failed_payout guardian_cancel_in_progress migration_invariant_violation : WillError
  distribution_too_large invalid_cursor merge_with_released_will release_in_progress : WillError
  guardian_weight_overflow weak_preimage_salt : WillError

-- Why an invocation ends without a result: `panic_with_error!`, an arithmetic overflow (the release
-- profile keeps `overflow-checks`), `require_auth`, a token call that fails, or a stored value that
-- does not decode.
pub data Trap : Type 0 where
  contract_error : WillError → Trap
  overflow unauthorized token_failed undecodable : Trap

pub data Result (A : Type 0) : Type 0 where
  ok : A → Result A
  err : Trap → Result A

-- `if c { panic_with_error!(e) }` where nothing of the environment is read.
abbrev pub panic_if : Bool → WillError → Result (Unit {0})
panic_if true e = err (contract_error e)
panic_if false e = ok tt

pub ok-injective : {A : Type 0} {a b : A} → ok a ≡ ok b → a ≡ b
ok-injective h = cc

module _ {A B : Type 0} where
  -- An abort ends the rest.
  infixl 5 ◌>>=◌
  abbrev pub ◌>>=◌ : Result A → (A → Result B) → Result B
  err t >>= rest = err t
  ok a >>= rest = rest a

  -- Where a sequence returns, its first part has returned.
  pub run_both :
      {result : B} (first : Result A) (rest : A → Result B)
      → first >>= rest ≡ ok result
      → (x : A) × (first ≡ ok x) × (rest x ≡ ok result)
  run_both (err _) rest returned = cc
  run_both (ok x) rest returned = (x, refl, returned)

infixl 5 ◌>>◌
abbrev pub ◌>>◌ : {A B : Type 0} → Result A → Result B → Result B
first >> next = first >>= λ _. next
