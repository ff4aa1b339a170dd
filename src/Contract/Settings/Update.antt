-- ===== src/Contract/Settings/Update.antt =====
-- lib.rs: `update_will_settings`, which changes any of a will's settings in one call.
use sorowill_contracts.Prelude.{ℕ, Bool, true, false, Option, none, some, List, [], ◌∷◌, ◌++◌}
use sorowill_contracts.Errors.{will_not_active}
use sorowill_contracts.Types.{Address, Symbol, Beneficiary, Guardian, Will, active}
use sorowill_contracts.Env.{will_settings_updated, guardians_updated}
use sorowill_contracts.Env.Action.{
  Action, pure, choose, lift, query, gets, modify, require_auth, publish, ◌>>=◌, ◌>>◌,
}
use sorowill_contracts.Storage.Wills.{save_will}
use sorowill_contracts.Validation.{load_owned, assert_status}
use sorowill_contracts.Contract.Create.{new_guardians}
use sorowill_contracts.Contract.Settings.{
  unindex_removed, index_added, assert_new_beneficiaries, reset_votes, assert_new_guardians,
  new_period,
}

-- The first part: the new beneficiaries, if any, and the indexes.
unfoldable pub beneficiaries_update :
    ℕ → Will → Option (List Beneficiary) → Action (List Beneficiary)
unfolding assert_new_beneficiaries unindex_removed index_added
beneficiaries_update will_id will none = pure will.beneficiaries
beneficiaries_update will_id will (some beneficiaries) = do
  lift (assert_new_beneficiaries beneficiaries will)
  modify (unindex_removed will.beneficiaries beneficiaries will_id)
  index_added beneficiaries will.beneficiaries will_id
  pure beneficiaries

-- What the second part sets of a will.
pub record GuardianFields : Type 0 where
  pub guardians : List Guardian
  pub guardian_votes : ℕ
  pub guardian_vote_weight : ℕ
  pub guardian_cancel_votes : ℕ
  pub guardian_cancel_vote_weight : ℕ
  pub guardian_list_updated_at : ℕ

abbrev fields_of : Will → GuardianFields
fields_of will = record {
  guardians = will.guardians;
  guardian_votes = will.guardian_votes;
  guardian_vote_weight = will.guardian_vote_weight;
  guardian_cancel_votes = will.guardian_cancel_votes;
  guardian_cancel_vote_weight = will.guardian_cancel_vote_weight;
  guardian_list_updated_at = will.guardian_list_updated_at;
}

-- The second part: the new guardians, if any, with no votes.
unfoldable pub guardians_update : Address → Will → Option (List Address) → Action GuardianFields
unfolding assert_new_guardians reset_votes
guardians_update owner will none = pure (fields_of will)
guardians_update owner will (some guardians) = do
  lift (assert_new_guardians owner guardians will)
  now ← gets (λ env. env.now)
  reset_votes will
  pure (record {
    guardians = new_guardians guardians;
    guardian_votes = 0;
    guardian_vote_weight = 0;
    guardian_cancel_votes = 0;
    guardian_cancel_vote_weight = 0;
    guardian_list_updated_at = now;
  })

-- The will with every setting that the call gives.
abbrev pub with_settings : Will → List Beneficiary → GuardianFields → ℕ → ℕ → Will
with_settings will beneficiaries fields checkin grace = record will {
  beneficiaries = beneficiaries;
  guardians = fields.guardians;
  guardian_votes = fields.guardian_votes;
  guardian_vote_weight = fields.guardian_vote_weight;
  guardian_cancel_votes = fields.guardian_cancel_votes;
  guardian_cancel_vote_weight = fields.guardian_cancel_vote_weight;
  guardian_list_updated_at = fields.guardian_list_updated_at;
  checkin_period_days = checkin;
  grace_period_days = grace;
}

abbrev is_some {ℓ} : {A : Type ℓ} → Option A → Bool
is_some none = false
is_some (some _) = true

-- The name of a field that the call gives.
abbrev name_if : Bool → Symbol → List Symbol
name_if true name = name ∷ []
name_if false name = []

unfoldable pub update_will_settings :
    ℕ
    → Address
    → Option (List Beneficiary)
    → Option (List Address)
    → Option ℕ
    → Option ℕ
    → Action (Unit {0})
unfolding beneficiaries_update guardians_update new_period
update_will_settings will_id owner beneficiaries guardians checkin_period_days grace_period_days =
    do
      require_auth owner
      will ← query (load_owned will_id owner)
      lift (assert_status will active will_not_active)
      bs ← beneficiaries_update will_id will beneficiaries
      fields ← guardians_update owner will guardians
      checkin ← lift (new_period checkin_period_days will.checkin_period_days)
      grace ← lift (new_period grace_period_days will.grace_period_days)
      save_will (with_settings will bs fields checkin grace)
      publish (
          will_settings_updated will_id owner (
            name_if (is_some beneficiaries) "benef"
            ++ name_if (is_some guardians) "guard"
            ++ name_if (is_some checkin_period_days) "checkin"
            ++ name_if (is_some grace_period_days) "grace"))
      choose (is_some guardians) (publish (guardians_updated will_id owner fields.guardians))
          (pure tt)
