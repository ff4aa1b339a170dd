-- ===== src/Types.antt =====
-- types.rs: the contract's data. An address is a number, of which the code uses equality and, as a
-- map key, the order; `Map<Address, i128>` is a list of entries in ascending order of the key.
pub mod Balances
use Prim.Native.String.{String}
use sorowill_contracts.Prelude.{ℕ, Bool, Option, none, some, List, ◌==◌, if◌then◌else◌}
use sorowill_contracts.Prelude.Int.{ℤ}

abbrev pub Address : Type 0
Address = ℕ

abbrev pub Bytes : Type 0
Bytes = List ℕ

abbrev pub Symbol : Type 0
Symbol = String

abbrev pub TokenMap : Type 0
TokenMap = List (ℕ × ℤ)

pub data Allocation : Type 0 where
  percentage : ℕ → Allocation
  fixed_amount : ℤ → Allocation

pub record Beneficiary : Type 0 where
  pub address : Address
  pub allocation : Allocation

pub data GuardianConsent : Type 0 where
  pending accepted rejected : GuardianConsent

pub record GuardianSpec : Type 0 where
  pub address : Address
  pub weight : ℕ

pub record Guardian : Type 0 where
  pub address : Address
  pub weight : ℕ
  pub consent : GuardianConsent

pub record HashedBeneficiary : Type 0 where
  pub commitment : Bytes
  pub share_bps : ℕ
  pub claimed : Bool

pub data WillStatus : Type 0 where
  pending_confirmation active triggered released cancelled settled : WillStatus

pub record TokenLockedBalance : Type 0 where
  pub token : Address
  pub total_locked : ℤ

pub record ProtocolStats : Type 0 where
  pub active_will_count : ℕ
  pub total_locked_by_token : List TokenLockedBalance

pub record ProtocolStatsAudit : Type 0 where
  pub stored : ProtocolStats
  pub computed : ProtocolStats
  pub consistent : Bool

pub record Will : Type 0 where
  pub id : ℕ
  pub owner : Address
  pub balances : TokenMap
  pub token : Address
  pub is_native : Bool
  pub balance : ℤ
  pub beneficiaries : List Beneficiary
  pub hashed_beneficiaries : List HashedBeneficiary
  pub checkin_period_days : ℕ
  pub grace_period_days : ℕ
  pub last_checkin : ℕ
  pub trigger_time : Option ℕ
  pub confirmation_deadline : Option ℕ
  pub status : WillStatus
  pub guardians : List Guardian
  pub guardian_vote_weight : ℕ
  pub guardian_votes : ℕ
  pub guardian_cancel_vote_weight : ℕ
  pub guardian_cancel_votes : ℕ
  pub guardian_threshold : ℕ
  pub guardian_list_updated_at : ℕ
  pub schema_version : ℕ
  pub keeper_bounty_bps : ℕ
  pub delegate : Option Address
  pub triggered_beneficiaries : Option (List Beneficiary)

-- `Will::distribution_beneficiaries`
abbrev pub snapshot_or : Option (List Beneficiary) → List Beneficiary → List Beneficiary
snapshot_or none live = live
snapshot_or (some snapshot) live = snapshot

unfoldable pub distribution_beneficiaries : Will → List Beneficiary
distribution_beneficiaries will = snapshot_or will.triggered_beneficiaries will.beneficiaries

pub record OwnerStats : Type 0 where
  pub total_wills : ℕ
  pub active_wills : ℕ
  pub total_locked_by_token : List TokenLockedBalance

-- No operation builds one.
pub record ClaimableShare : Type 0 where
  pub total : ℤ
  pub claimed : ℤ

pub record WillPage : Type 0 where
  pub wills : List Will
  pub total_count : ℕ
  pub next_cursor : Option ℕ

pub data GuardianVoteReason : Type 0 where
  deceased incapacitated unreachable other : GuardianVoteReason

pub record WillStatusTransition : Type 0 where
  pub will_id : ℕ
  pub from_status : WillStatus
  pub to_status : WillStatus
  pub timestamp : ℕ
  pub actor : Address
  pub action : Symbol
  pub seq : ℕ

-- storage.rs
pub record GuardianVoteRecord : Type 0 where
  pub timestamp : ℕ
  pub reason : GuardianVoteReason

-- The derived `==` of the enums, through their discriminants.
abbrev pub status_code : WillStatus → ℕ
status_code pending_confirmation = 0
status_code active = 1
status_code triggered = 2
status_code released = 3
status_code cancelled = 4
status_code settled = 5

abbrev pub is_status : WillStatus → WillStatus → Bool
is_status s t = status_code s == status_code t

abbrev pub consent_code : GuardianConsent → ℕ
consent_code pending = 0
consent_code accepted = 1
consent_code rejected = 2

abbrev pub is_consent : GuardianConsent → GuardianConsent → Bool
is_consent s t = consent_code s == consent_code t
