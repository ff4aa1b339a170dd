-- ===== src/Contract/Transition/Updates.antt =====
-- The entry points on beneficiaries and settings that keep a will's status.
use sorowill_contracts.Prelude.{ℕ, ◌≡◌, refl, false, not, ◌&&◌, Option, none, some, List}
use sorowill_contracts.Errors.{ok, will_not_active, will_not_released}
use sorowill_contracts.Types.{
  Address, Bytes, TokenMap, Beneficiary, HashedBeneficiary, Will, WillStatus, active, triggered,
  released, pending_confirmation, cancelled, settled, is_status,
}
use sorowill_contracts.Env.{Env}
use sorowill_contracts.Env.Action.Keeps.{Keeps, Keeps-pure}
use sorowill_contracts.Storage.Wills.Saves.{wills_of, Saves}
use sorowill_contracts.Storage.Indexes.{remove_beneficiary_index}
use sorowill_contracts.Validation.{assert_status}
use sorowill_contracts.Contract.Renounce.{renounce_beneficiary}
use sorowill_contracts.Contract.Settings.Update.{
  beneficiaries_update, guardians_update, GuardianFields, with_settings, update_will_settings,
}
use sorowill_contracts.Contract.Hashed.{
  Crypto, claimed_will, claim_rest, add_hashed_beneficiary, reveal_and_claim,
}
use sorowill_contracts.Contract.Hashed.Claims.{plan_claim-Keeps, pay_claims-Keeps}
use sorowill_contracts.Contract.Transition.Frame.{saves_rules}
use sorowill_contracts.Contract.Transition.Rules.{
  Edge, Follows, stay_active, stay_triggered, stay_released, Rewrites, assert_status-eq-ok,
}
use sorowill_contracts.Contract.Transition.Settings.{
  unindex_removed-same, index_added-Keeps, reset_votes-Keeps,
}

remove_beneficiary_index-same :
    (a : Address) (id : ℕ) (env : Env) → wills_of (remove_beneficiary_index a id env) ≡ wills_of env
unfolding remove_beneficiary_index
remove_beneficiary_index-same a id env = refl

stays_live :
    (s : WillStatus) → (not (is_status s active) && not (is_status s triggered)) ≡ false → Edge s s
stays_live active h = stay_active
stays_live triggered h = stay_triggered
stays_live pending_confirmation h = cc
stays_live released h = cc
stays_live cancelled h = cc
stays_live settled h = cc

renounced-Follows :
    (w : Will) (bs : List Beneficiary)
    → (not (is_status w.status active) && not (is_status w.status triggered)) ≡ false
    → Follows w (record w { beneficiaries = bs })
renounced-Follows w bs live = record {
  same_id = refl;
  same_owner = refl;
  same_token = refl;
  edge = stays_live w.status live;
}

pub renounce_beneficiary-Rewrites :
    (id : ℕ) (beneficiary : Address) → Rewrites id (renounce_beneficiary id beneficiary)
unfolding renounce_beneficiary
renounce_beneficiary-Rewrites id beneficiary =
    search (saves_rules, renounced-Follows, remove_beneficiary_index-same) depth 24 fits 20000

beneficiaries_update-Keeps :
    (id : ℕ) (w : Will) (bs : Option (List Beneficiary))
    → Keeps wills_of (beneficiaries_update id w bs)
unfolding beneficiaries_update
beneficiaries_update-Keeps id w none = Keeps-pure w.beneficiaries
beneficiaries_update-Keeps id w (some bs) =
    search (saves_rules, unindex_removed-same, index_added-Keeps) depth 12

guardians_update-Keeps :
    (owner : Address) (w : Will) (gs : Option (List Address))
    → Keeps wills_of (guardians_update owner w gs)
unfolding guardians_update
guardians_update-Keeps owner w none = Keeps-pure _
guardians_update-Keeps owner w (some gs) = search (saves_rules, reset_votes-Keeps) depth 12

module _ (w : Will) {a : Unit {0}} where
  settings-Follows :
      (bs : List Beneficiary) (fields : GuardianFields) (checkin grace : ℕ)
      → assert_status w active will_not_active ≡ ok a
      → Follows w (with_settings w bs fields checkin grace)
  settings-Follows bs fields checkin grace passed = record {
    same_id = refl;
    same_owner = refl;
    same_token = refl;
    edge = rw (assert_status-eq-ok w active will_not_active passed) stay_active;
  }

  committed-Follows :
      (hbs : List HashedBeneficiary)
      → assert_status w active will_not_active ≡ ok a
      → Follows w (record w { hashed_beneficiaries = hbs })
  committed-Follows hbs passed = record {
    same_id = refl;
    same_owner = refl;
    same_token = refl;
    edge = rw (assert_status-eq-ok w active will_not_active passed) stay_active;
  }

  claimed-Follows :
      (digest : Bytes) (balances : TokenMap)
      → assert_status w released will_not_released ≡ ok a
      → Follows w (claimed_will w digest balances)
  claimed-Follows digest balances passed = record {
    same_id = refl;
    same_owner = refl;
    same_token = refl;
    edge = rw (assert_status-eq-ok w released will_not_released passed) stay_released;
  }

pub update_will_settings-Rewrites :
    (id : ℕ) (owner : Address) (bs : Option (List Beneficiary)) (gs : Option (List Address))
    (checkin grace : Option ℕ)
    → Rewrites id (update_will_settings id owner bs gs checkin grace)
unfolding update_will_settings
update_will_settings-Rewrites id owner bs gs checkin grace =
    search (saves_rules, settings-Follows, beneficiaries_update-Keeps, guardians_update-Keeps) depth
      24 fits 20000

pub add_hashed_beneficiary-Rewrites :
    (id : ℕ) (owner : Address) (commitment : Bytes) (bps : ℕ)
    → Rewrites id (add_hashed_beneficiary id owner commitment bps)
unfolding add_hashed_beneficiary
add_hashed_beneficiary-Rewrites id owner commitment bps =
    search (saves_rules, committed-Follows) depth 24 fits 20000

claim_rest-Follows :
    (crypto : Crypto) (id : ℕ) (claimant : Address) (preimage : Bytes) (w : Will)
    → Saves (Follows w) (claim_rest crypto id claimant preimage w)
unfolding claim_rest
claim_rest-Follows crypto id claimant preimage w =
    search (saves_rules, claimed-Follows, plan_claim-Keeps, pay_claims-Keeps) depth 24 fits 20000

pub reveal_and_claim-Rewrites :
    (crypto : Crypto) (id : ℕ) (claimant : Address) (preimage : Bytes)
    → Rewrites id (reveal_and_claim crypto id claimant preimage)
unfolding reveal_and_claim
reveal_and_claim-Rewrites crypto id claimant preimage =
    search (saves_rules, claim_rest-Follows) depth 24
