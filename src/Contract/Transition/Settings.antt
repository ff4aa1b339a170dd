-- ===== src/Contract/Transition/Settings.antt =====
-- The entry points that change a will's terms keep its status.
use sorowill_contracts.Prelude.{
  ℕ, ◌≡◌, refl, Bool, true, false, Option, List, [], ◌∷◌, arith, ◌∙◌, if◌then◌else◌,
}
use sorowill_contracts.Prelude.Int.{ℤ}
use sorowill_contracts.Errors.{ok, will_not_active}
use sorowill_contracts.Types.{Address, Beneficiary, Guardian, GuardianSpec, Will, active}
use sorowill_contracts.Env.{Env}
use sorowill_contracts.Env.Action.Keeps.{Keeps, Keeps-pure, Keeps-then, Keeps-choose}
use sorowill_contracts.Storage.Wills.Saves.{wills_of}
use sorowill_contracts.Storage.Indexes.{remove_beneficiary_index, index_by_beneficiary}
use sorowill_contracts.Validation.{assert_status, names_address}
use sorowill_contracts.Contract.Trigger.{sync_primary_balance}
use sorowill_contracts.Contract.Settings.{
  unindex_removed, index_added, purge_guardian_vote_records, reset_votes, with_guardians,
  with_periods, record_balance, update_beneficiaries, update_guardians, update_guardians_weighted,
  update_periods, top_up,
}
use sorowill_contracts.Contract.Transition.Frame.{saves_rules}
use sorowill_contracts.Contract.Transition.Rules.{
  Follows, stay_active, Rewrites, assert_status-eq-ok,
}

unindex_unless-same :
    (b : Bool) (a : Address) (id : ℕ) (env : Env)
    → wills_of (if b then env else remove_beneficiary_index a id env) ≡ wills_of env
unfolding remove_beneficiary_index
unindex_unless-same true a id env = refl
unindex_unless-same false a id env = refl

pub unindex_removed-same :
    (olds news : List Beneficiary) (id : ℕ) (env : Env)
    → wills_of (unindex_removed olds news id env) ≡ wills_of env
unfolding unindex_removed
unindex_removed-same [] news id env = refl
unindex_removed-same (old ∷ olds) news id env =
    unindex_removed-same olds news id _
    ∙ unindex_unless-same (names_address news old.address) old.address id env

pub index_by_beneficiary-Keeps : (a : Address) (id : ℕ) → Keeps wills_of (index_by_beneficiary a id)
unfolding index_by_beneficiary
index_by_beneficiary-Keeps a id = record { at = λ env env' u h. ground arith }

pub index_added-Keeps :
    (news olds : List Beneficiary) (id : ℕ) → Keeps wills_of (index_added news olds id)
unfolding index_added
index_added-Keeps [] olds id = Keeps-pure tt
index_added-Keeps (new ∷ news) olds id =
    Keeps-then _ _
      (Keeps-choose (names_address olds new.address) _ _ (Keeps-pure tt)
        (index_by_beneficiary-Keeps new.address id))
      (index_added-Keeps news olds id)

purge-same : (w : Will) (env : Env) → wills_of (purge_guardian_vote_records w env) ≡ wills_of env
unfolding purge_guardian_vote_records
purge-same w env = refl

pub reset_votes-Keeps : (w : Will) → Keeps wills_of (reset_votes w)
unfolding reset_votes
reset_votes-Keeps w = search (saves_rules, purge-same)

module _ (w : Will) {a : Unit {0}} (passed : assert_status w active will_not_active ≡ ok a) where
  renamed-Follows : (bs : List Beneficiary) → Follows w (record w { beneficiaries = bs })
  renamed-Follows bs = record {
    same_id = refl;
    same_owner = refl;
    same_token = refl;
    edge = rw (assert_status-eq-ok w active will_not_active passed) stay_active;
  }

  guarded-Follows : (gs : List Guardian) (k t : ℕ) → Follows w (with_guardians w gs k t)
  guarded-Follows gs k t = record {
    same_id = refl;
    same_owner = refl;
    same_token = refl;
    edge = rw (assert_status-eq-ok w active will_not_active passed) stay_active;
  }

  timed-Follows : (c g : ℕ) → Follows w (with_periods w c g)
  timed-Follows c g = record {
    same_id = refl;
    same_owner = refl;
    same_token = refl;
    edge = rw (assert_status-eq-ok w active will_not_active passed) stay_active;
  }

  topped-Follows : (t : Address) (x : ℤ) → Follows w (record_balance w t x)
  unfolding record_balance sync_primary_balance
  topped-Follows t x = record {
    same_id = refl;
    same_owner = refl;
    same_token = refl;
    edge = rw (assert_status-eq-ok w active will_not_active passed) stay_active;
  }

pub update_beneficiaries-Rewrites :
    (id : ℕ) (owner : Address) (bs : List Beneficiary)
    → Rewrites id (update_beneficiaries id owner bs)
unfolding update_beneficiaries
update_beneficiaries-Rewrites id owner bs =
    search (saves_rules, renamed-Follows, unindex_removed-same, index_added-Keeps) depth 24

pub update_guardians-Rewrites :
    (id : ℕ) (owner : Address) (gs : List Address) → Rewrites id (update_guardians id owner gs)
unfolding update_guardians
update_guardians-Rewrites id owner gs =
    search (saves_rules, guarded-Follows, reset_votes-Keeps) depth 24

pub update_guardians_weighted-Rewrites :
    (id : ℕ) (owner : Address) (gs : List GuardianSpec) (k : Option ℕ)
    → Rewrites id (update_guardians_weighted id owner gs k)
unfolding update_guardians_weighted
update_guardians_weighted-Rewrites id owner gs k =
    search (saves_rules, guarded-Follows, reset_votes-Keeps) depth 24

pub update_periods-Rewrites :
    (id : ℕ) (owner : Address) (c g : Option ℕ) → Rewrites id (update_periods id owner c g)
unfolding update_periods
update_periods-Rewrites id owner c g = search (saves_rules, timed-Follows) depth 24

pub top_up-Rewrites : (id : ℕ) (owner t : Address) (x : ℤ) → Rewrites id (top_up id owner t x)
unfolding top_up
top_up-Rewrites id owner t x = search (saves_rules, topped-Follows) depth 24 fits 20000
