-- ===== src/Contract/Hashed.antt =====
-- lib.rs: `add_hashed_beneficiary` and `reveal_and_claim`. A hashed beneficiary is a commitment to a
-- preimage of 64 bytes: the fingerprint of an address, then a salt.
pub mod Compare
pub mod Claims
use Prim.Native.Nat.{bit_or, bit_xor}
use sorowill_contracts.Prelude.{
  ℕ, zero, suc, ◌+◌, ◌*◌, ◌/◌, ◌%◌, Bool, true, false, not, ◌&&◌, ◌||◌, Option, none, some, List,
  [], ◌∷◌, ◌++◌, ltb, ◌==◌, length, if◌then◌else◌,
}
use sorowill_contracts.Prelude.Int.{ℤ, pos, ◌-ℤ◌, div_ℤ, ltb_ℤ, is_zero}
use sorowill_contracts.Errors
use sorowill_contracts.Errors.{
  will_not_active, invalid_preimage, invalid_commitment_length, duplicate_commitment,
  invalid_percentages, will_not_released, grace_period_not_expired, invalid_preimage_length,
  weak_preimage_salt, preimage_address_mismatch, already_claimed, contract_error, Result, ok, err,
}
use sorowill_contracts.Types.{Address, Bytes, TokenMap, HashedBeneficiary, Will, active, released}
use sorowill_contracts.Types.Balances.{set, get_or_zero}
use sorowill_contracts.Env.{hashed_beneficiary_added, hashed_claimed}
use sorowill_contracts.Env.Action.{
  Action, choose, pure, lift, query, gets, panic_if, require_auth, publish, transfer, mul_i128,
  sub_i128, ◌>>=◌, ◌>>◌,
}
use sorowill_contracts.Storage.Stats.{adjust_locked_value}
use sorowill_contracts.Storage.Wills.{load_will, save_will}
use sorowill_contracts.Validation.{
  load_owned, assert_status, assert_valid_percentages, unclaimed_hashed_bps, grace_deadline,
  grace_elapsed,
}
use sorowill_contracts.Distribute.Plan.{Payments}

-- What the contract uses of the host: `env.crypto().sha256` and an address's XDR encoding.
pub record Crypto : Type 0 where
  pub sha256 : Bytes → Bytes
  pub to_xdr : Address → Bytes

abbrev pub preimage_length : ℕ
preimage_length = 64

abbrev pub preimage_address_length : ℕ
preimage_address_length = 32

abbrev pub sha256_digest_len : ℕ
sha256_digest_len = 32

-- `==` of `Bytes`
unfoldable bytes_eq : Bytes → Bytes → Bool
bytes_eq [] [] = true
bytes_eq [] (y ∷ ys) = false
bytes_eq (x ∷ xs) [] = false
bytes_eq (x ∷ xs) (y ∷ ys) = x == y && bytes_eq xs ys

-- The loop of `assert_valid_hashed_beneficiary`.
unfoldable has_commitment : List HashedBeneficiary → Bytes → Bool
unfolding bytes_eq
has_commitment [] commitment = false
has_commitment (hb ∷ hbs) commitment =
    bytes_eq hb.commitment commitment || has_commitment hbs commitment

unfoldable pub assert_valid_hashed_beneficiary :
    List HashedBeneficiary → Bytes → ℕ → Result (Unit {0})
unfolding has_commitment
assert_valid_hashed_beneficiary existing commitment share_bps =
    Errors.◌>>◌
      (Errors.panic_if (not (length commitment == sha256_digest_len)) invalid_commitment_length)
      (Errors.◌>>◌ (Errors.panic_if (has_commitment existing commitment) duplicate_commitment)
        (Errors.panic_if (share_bps == 0) invalid_percentages))

-- The list with the new entry at its end.
abbrev with_commitment : List HashedBeneficiary → Bytes → ℕ → List HashedBeneficiary
with_commitment hbs commitment share_bps =
    hbs ++ record { commitment = commitment; share_bps = share_bps; claimed = false } ∷ []

unfoldable pub add_hashed_beneficiary : ℕ → Address → Bytes → ℕ → Action (Unit {0})
unfolding assert_valid_hashed_beneficiary
add_hashed_beneficiary will_id owner commitment share_bps = do
  require_auth owner
  will ← query (load_owned will_id owner)
  lift (assert_status will active will_not_active)
  panic_if (not (length commitment == 32)) invalid_preimage
  lift (assert_valid_hashed_beneficiary will.hashed_beneficiaries commitment share_bps)
  let hashed_beneficiaries = with_commitment will.hashed_beneficiaries commitment share_bps
  lift (assert_valid_percentages will.beneficiaries hashed_beneficiaries)
  save_will (record will { hashed_beneficiaries = hashed_beneficiaries })
  publish (hashed_beneficiary_added will_id owner commitment share_bps)

-- The loop of `constant_time_bytes_eq`, over two lists of one length.
unfoldable pub byte_difference : Bytes → Bytes → ℕ → ℕ
byte_difference [] ys diff = diff
byte_difference (x ∷ xs) [] diff = diff
byte_difference (x ∷ xs) (y ∷ ys) diff = byte_difference xs ys (bit_or diff (bit_xor x y))

unfoldable pub constant_time_bytes_eq : Bytes → Bytes → Bool
unfolding byte_difference
constant_time_bytes_eq a b = if length a == length b then byte_difference a b 0 == 0 else false

-- The bytes before and from an index on.
unfoldable take_bytes : ℕ → Bytes → Bytes
take_bytes zero bytes = []
take_bytes (suc n) [] = []
take_bytes (suc n) (byte ∷ bytes) = byte ∷ take_bytes n bytes

unfoldable drop_bytes : ℕ → Bytes → Bytes
drop_bytes zero bytes = bytes
drop_bytes (suc n) [] = []
drop_bytes (suc n) (byte ∷ bytes) = drop_bytes n bytes

unfoldable are_all_zero : Bytes → Bool
are_all_zero [] = true
are_all_zero (byte ∷ bytes) = byte == 0 && are_all_zero bytes

-- The place of the first entry with this commitment.
unfoldable pub find_slot : List HashedBeneficiary → Bytes → Option HashedBeneficiary
unfolding constant_time_bytes_eq
find_slot [] digest = none
find_slot (hb ∷ hbs) digest =
    if constant_time_bytes_eq hb.commitment digest then some hb else find_slot hbs digest

-- That entry claimed.
unfoldable pub claim_slot : List HashedBeneficiary → Bytes → List HashedBeneficiary
unfolding constant_time_bytes_eq
claim_slot [] digest = []
claim_slot (hb ∷ hbs) digest =
    let rest = claim_slot hbs digest in
    if constant_time_bytes_eq hb.commitment digest
    then record hb { claimed = true } ∷ hbs
    else hb ∷ rest

abbrev pub found_slot : Option HashedBeneficiary → Result HashedBeneficiary
found_slot none = err (contract_error invalid_preimage)
found_slot (some hb) = if hb.claimed then err (contract_error already_claimed) else ok hb

-- The share of one token. The divisor counts the slot itself, so it is above zero with the share.
unfoldable claim_share : ℤ → ℕ → ℕ → Result ℤ
claim_share total share_bps unclaimed_bps =
    if is_zero total || share_bps == 0
    then ok (pos 0)
    else Errors.◌>>=◌ (mul_i128 total (pos share_bps)) (λ product. ok (div_ℤ product unclaimed_bps))

-- What the loop over the tokens gathers.
pub record ClaimPlan : Type 0 where
  pub transfer_plan : Payments
  pub updated_balances : TokenMap
  pub primary_share : ℤ

abbrev planned_transfer : Address → ℤ → Payments → Payments
planned_transfer token share transfers =
    if ltb_ℤ (pos 0) share then transfers ++ (token, share) ∷ [] else transfers

unfoldable pub plan_claim : Address → ℕ → ℕ → TokenMap → ClaimPlan → Action ClaimPlan
unfolding claim_share
plan_claim primary share_bps unclaimed_bps [] plan = pure plan
plan_claim primary share_bps unclaimed_bps ((token, total) ∷ balances) plan = do
  share ← lift (claim_share total share_bps unclaimed_bps)
  choose (ltb_ℤ (pos 0) share) (adjust_locked_value token (pos 0 -ℤ share)) (pure tt)
  left ← lift (sub_i128 total share)
  plan_claim primary share_bps unclaimed_bps balances (record {
    transfer_plan = planned_transfer token share plan.transfer_plan;
    updated_balances = set plan.updated_balances token left;
    primary_share = if token == primary then share else plan.primary_share;
  })

unfoldable pub pay_claims : Address → Payments → Action (Unit {0})
pay_claims claimant [] = pure tt
pay_claims claimant ((token, share) ∷ transfers) = do
  contract ← gets (λ env. env.contract_address)
  transfer (record { token = token; source = contract; recipient = claimant; amount = share })
  pay_claims claimant transfers

-- The will with the slot claimed and its share taken off.
abbrev pub claimed_will : Will → Bytes → TokenMap → Will
claimed_will will digest balances = record will {
  balances = balances;
  balance = get_or_zero balances will.token;
  hashed_beneficiaries = claim_slot will.hashed_beneficiaries digest;
}

module _ (crypto : Crypto) where
  abbrev pub preimage_address_binding : Address → Bytes
  preimage_address_binding address = crypto.sha256 (crypto.to_xdr address)

  unfoldable pub preimage_is_bound_to : Address → Bytes → Bool
  unfolding take_bytes bytes_eq
  preimage_is_bound_to address preimage =
      bytes_eq (take_bytes preimage_address_length preimage) (preimage_address_binding address)

  -- The checks of the preimage, which read nothing of the environment.
  unfoldable pub assert_preimage : Address → Bytes → Result (Unit {0})
  unfolding drop_bytes are_all_zero preimage_is_bound_to
  assert_preimage claimant preimage =
      Errors.◌>>◌
        (Errors.panic_if (not (length preimage == preimage_length)) invalid_preimage_length)
        (Errors.◌>>◌
          (Errors.panic_if (are_all_zero (drop_bytes preimage_address_length preimage))
            weak_preimage_salt)
          (Errors.panic_if (not (preimage_is_bound_to claimant preimage))
            preimage_address_mismatch))

  -- The call from the point where the will is loaded.
  unfoldable pub claim_rest : ℕ → Address → Bytes → Will → Action (Unit {0})
  unfolding assert_preimage find_slot plan_claim pay_claims
  claim_rest will_id claimant preimage will = do
    lift (assert_status will released will_not_released)
    now ← gets (λ env. env.now)
    deadline ← lift (grace_deadline will)
    panic_if (not (grace_elapsed now deadline)) grace_period_not_expired
    lift (assert_preimage claimant preimage)
    let digest = crypto.sha256 preimage
    hb ← lift (found_slot (find_slot will.hashed_beneficiaries digest))
    plan ←
        plan_claim will.token hb.share_bps (unclaimed_hashed_bps will.hashed_beneficiaries 0)
          will.balances
          (record { transfer_plan = []; updated_balances = []; primary_share = pos 0 })
    pay_claims claimant plan.transfer_plan
    save_will (claimed_will will digest plan.updated_balances)
    publish (hashed_claimed will_id claimant plan.primary_share)

  unfoldable pub reveal_and_claim : ℕ → Address → Bytes → Action (Unit {0})
  unfolding claim_rest
  reveal_and_claim will_id claimant preimage = do
    require_auth claimant
    will ← query (load_will will_id)
    claim_rest will_id claimant preimage will
