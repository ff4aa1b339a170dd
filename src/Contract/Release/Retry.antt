-- ===== src/Contract/Release/Retry.antt =====
-- A payment that fails is recorded, and a recorded one can be paid once.
use sorowill_contracts.Prelude.{
  ℕ, ◌≡◌, ◌⊎◌, inl, inr, Bool, true, false, some, [], ◌∷◌, ◌++◌, arith, refl,
}
use sorowill_contracts.Prelude.Int.{ℤ}
use sorowill_contracts.Errors.{no_failed_payout, contract_error, ok, err}
use sorowill_contracts.Types.{Address}
use sorowill_contracts.Env.{Env, Transfer, payout_failed}
use sorowill_contracts.Storage.Wills.{set_failed_payout, get_failed_payout, remove_failed_payout}
use sorowill_contracts.Distribute.Payout.{pay_or_record_failure}
use sorowill_contracts.Contract.Release.{retry_failed_payout}

-- The transfer that a payout asks for.
abbrev pub payout : Address → Address → Address → ℤ → Transfer
payout token source recipient amount = record {
  token = token;
  source = source;
  recipient = recipient;
  amount = amount;
}

-- The environment after a payout that is made.
abbrev pub made : Transfer → Env → Env
made t env = record env { transfers = env.transfers ++ t ∷ [] }

outcome_if :
    (b : Bool) (token source recipient : Address) (amount : ℤ) (id : ℕ) (env : Env)
    → env.accepts env.transfers (payout token source recipient amount) ≡ b
    → (pay_or_record_failure token source recipient amount id env
        ≡ ok (true, made (payout token source recipient amount) env))
      ⊎ ((env' : Env) × (pay_or_record_failure token source recipient amount id env
            ≡ ok (false, env'))
          × (env'.transfers ≡ env.transfers)
          × (get_failed_payout id token recipient env' ≡ some amount))
unfolding pay_or_record_failure get_failed_payout set_failed_payout
outcome_if true token source recipient amount id env e = inl (ground arith)
outcome_if false token source recipient amount id env e =
    let after : Env = set_failed_payout id token recipient amount env in
    inr (
      record after { events = env.events ++ payout_failed id token recipient amount ∷ [] },
      ground arith,
      refl,
      ground arith,
    )

-- A payout never aborts. Either the transfer is made and nothing else of the state changes, or no
-- transfer is made and the whole amount is recorded as owed to the recipient.
pub pay_or_record_failure-outcome :
    (token source recipient : Address) (amount : ℤ) (id : ℕ) (env : Env)
    → (pay_or_record_failure token source recipient amount id env
        ≡ ok (true, made (payout token source recipient amount) env))
      ⊎ ((env' : Env) × (pay_or_record_failure token source recipient amount id env
            ≡ ok (false, env'))
          × (env'.transfers ≡ env.transfers)
          × (get_failed_payout id token recipient env' ≡ some amount))
pay_or_record_failure-outcome token source recipient amount id env =
    outcome_if (env.accepts env.transfers (payout token source recipient amount)) token source
      recipient amount id env refl

-- A recorded payout that is retried with success pays exactly the amount recorded, once: a second
-- retry finds no record and aborts.
pub retry_failed_payout-once :
    (id : ℕ) (token recipient : Address) (amount : ℤ) (env env' : Env)
    → get_failed_payout id token recipient env ≡ some amount
    → retry_failed_payout id token recipient env ≡ ok (tt, env')
    → (env'.transfers ≡ env.transfers ++ payout token env.contract_address recipient amount ∷ [])
      × (retry_failed_payout id token recipient env' ≡ err (contract_error no_failed_payout))
unfolding retry_failed_payout get_failed_payout remove_failed_payout
retry_failed_payout-once id token recipient amount env env' e h = ground arith
