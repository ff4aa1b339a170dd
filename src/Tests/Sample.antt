-- ===== src/Tests/Sample.antt =====
-- A state of the contract with one will, and the environments that calls leave.
use sorowill_contracts.Prelude.{ℕ, true, false, Option, none, some, [], ◌∷◌, ◌==◌, if◌then◌else◌}
use sorowill_contracts.Prelude.Int.{pos}
use sorowill_contracts.Errors.{Result, ok, err}
use sorowill_contracts.Types.{
  Beneficiary, percentage, Guardian, accepted, Will, WillStatus, TokenMap,
}
use sorowill_contracts.Env.{Env, encoded}

abbrev pub heir : Beneficiary
heir = record { address = 20; allocation = percentage 6000 }

abbrev pub second_heir : Beneficiary
second_heir = record { address = 21; allocation = percentage 4000 }

abbrev pub guardian : Guardian
guardian = record { address = 30; weight = 1; consent = accepted }

abbrev pub balances : TokenMap
balances = (5, pos 1000) ∷ []

-- The will 1 of owner 10: 1,000 units of token 5, checked in at 1,000 for 30 days, 7 days of grace.
abbrev pub will : WillStatus → Option ℕ → Will
will status trigger_time = record {
  id = 1;
  owner = 10;
  balances = balances;
  token = 5;
  is_native = false;
  balance = pos 1000;
  beneficiaries = heir ∷ second_heir ∷ [];
  hashed_beneficiaries = [];
  checkin_period_days = 30;
  grace_period_days = 7;
  last_checkin = 1000;
  trigger_time = trigger_time;
  confirmation_deadline = none;
  status = status;
  guardians = guardian ∷ [];
  guardian_vote_weight = 0;
  guardian_votes = 0;
  guardian_cancel_vote_weight = 0;
  guardian_cancel_votes = 0;
  guardian_threshold = 2;
  guardian_list_updated_at = 1000;
  schema_version = 1;
  keeper_bounty_bps = 0;
  delegate = none;
  triggered_beneficiaries = none;
}

-- The contract at a time, with one will.
abbrev pub state : ℕ → Will → Env
state now w = record {
  now = now;
  contract_address = 99;
  authorized = λ _. true;
  answers_decimals = λ _. true;
  accepts = λ _ _. true;
  next_will_id = some 1;
  protocol_stats = none;
  wills = λ i. if i == 1 then some (encoded w) else none;
  owner_wills = λ _. none;
  beneficiary_wills = λ _. none;
  guardian_vote = λ _ _. none;
  guardian_cancel_vote = λ _ _. none;
  will_history = λ _. none;
  will_history_seq = λ _. none;
  archived_will = λ _. none;
  triggered_wills = none;
  failed_payout = λ _ _ _. none;
  release_lock = λ _. false;
  transfers = [];
  events = [];
}

-- The environment that a successful call leaves.
abbrev pub after : Env → Result (Unit {0} × Env) → Env
after env (ok (_, env')) = env'
after env (err _) = env
