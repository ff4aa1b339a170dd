-- ===== src/Env.antt =====
-- The environment of an invocation: what the host supplies, the contract's storage, and the effects
-- made so far. Storage has one field for each constructor of `DataKey`; a key that is absent reads
-- `none`. Time to live is rent and is not kept.
pub mod Action
use sorowill_contracts.Prelude.{ℕ, Bool, Option, List}
use sorowill_contracts.Prelude.Int.{ℤ}
use sorowill_contracts.Types.{
  Address, Bytes, Symbol, Beneficiary, Guardian, ProtocolStats, Will, WillStatusTransition,
  GuardianVoteRecord,
}

-- A call of a SEP-41 token's `transfer`.
pub record Transfer : Type 0 where
  pub token : Address
  pub source : Address
  pub recipient : Address
  pub amount : ℤ

-- What `env.events().publish` is given, one constructor for each function of events.rs.
pub data Event : Type 0 where
  will_created : ℕ → Address → ℕ → List Beneficiary → ℕ → Event
  will_confirmed : ℕ → Address → Event
  check_in : ℕ → Address → ℕ → Event
  will_triggered : ℕ → ℕ → Event
  emergency_checkin : ℕ → Address → ℕ → Event
  inheritance_released : ℕ → ℕ → ℕ → Event
  will_cancelled : ℕ → Address → ℕ → Event
  beneficiaries_updated : ℕ → Address → ℕ → List Beneficiary → Event
  guardians_updated : ℕ → Address → List Guardian → Event
  will_closed : ℕ → Address → Event
  top_up : ℕ → Address → Address → ℤ → ℤ → Event
  guardian_voted : ℕ → Address → ℕ → ℕ → Event
  guardian_cancel_voted : ℕ → Address → ℕ → ℕ → Event
  guardian_cancelled_trigger : ℕ → Address → ℕ → Event
  wills_merged : ℕ → ℕ → Address → ℤ → List Beneficiary → Event
  will_migrated : ℕ → Address → ℕ → ℕ → Event
  will_cloned : ℕ → ℕ → Address → Event
  batch_created : Address → List ℕ → Event
  will_archived : ℕ → Address → ℕ → Symbol → Event
  periods_updated : ℕ → Address → ℕ → ℕ → ℕ → Event
  beneficiary_renounced : ℕ → Address → Address → List Beneficiary → Option ℕ → Event
  will_settings_updated : ℕ → Address → List Symbol → Event
  keeper_bounty_paid : ℕ → Address → ℤ → Event
  leftover_refunded : ℕ → Address → Address → ℤ → Event
  will_split : ℕ → ℕ → Address → ℤ → Event
  hashed_claimed : ℕ → Address → ℤ → Event
  hashed_beneficiary_added : ℕ → Address → Bytes → ℕ → Event
  delegate_set : ℕ → Address → Address → Event
  delegate_cleared : ℕ → Address → Event
  guardian_accepted_role : ℕ → Address → Event
  guardian_rejected_role : ℕ → Address → Event
  batch_checkin : Address → List ℕ → ℕ → Event
  payout_failed : ℕ → Address → Address → ℤ → Event
  payout_retried : ℕ → Address → Address → ℤ → Event

-- A stored value under `DataKey::Will`: one in the layout of `Will`, or one in another layout.
pub data Val : Type 0 where
  encoded : Will → Val
  foreign : Val

pub record Env : Type 0 where
  -- the host: ledger time, this contract's address, who has authorized the call, which addresses
  -- answer `decimals()`, and whether a token takes a transfer after those that it has taken
  pub now : ℕ
  pub contract_address : Address
  pub authorized : Address → Bool
  pub answers_decimals : Address → Bool
  pub accepts : List Transfer → Transfer → Bool
  -- instance storage
  pub next_will_id : Option ℕ
  pub protocol_stats : Option ProtocolStats
  -- persistent storage
  pub wills : ℕ → Option Val
  pub owner_wills : Address → Option (List ℕ)
  pub beneficiary_wills : Address → Option (List ℕ)
  pub guardian_vote : ℕ → Address → Option GuardianVoteRecord
  pub guardian_cancel_vote : ℕ → Address → Option GuardianVoteRecord
  pub will_history : ℕ → Option (List WillStatusTransition)
  pub will_history_seq : ℕ → Option ℕ
  pub archived_will : ℕ → Option Will
  pub triggered_wills : Option (List ℕ)
  pub failed_payout : ℕ → Address → Address → Option ℤ
  -- temporary storage: the lock of release_lock.rs
  pub release_lock : ℕ → Bool
  -- the effects, the latest last
  pub transfers : List Transfer
  pub events : List Event
