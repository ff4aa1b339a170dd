-- ===== src/Contract/Checkin.antt =====
-- lib.rs: `check_in`, `set_delegate`, `batch_check_in`; batch_check_in_limit.rs and
-- batch_atomicity.rs.
pub mod Batch
use sorowill_contracts.Prelude.{ℕ, Option, none, some, List, [], ◌∷◌, ltb, length, contains}
use sorowill_contracts.Errors
use sorowill_contracts.Errors.{will_not_active, batch_too_large, duplicate_will_id, Result, ok, err}
use sorowill_contracts.Types.{Address, Will, active}
use sorowill_contracts.Env.{Env, delegate_set, delegate_cleared, batch_checkin, Event}
use sorowill_contracts.Env.Action.{
  Action, pure, lift, query, gets, require_auth, publish, ◌>>=◌, ◌>>◌,
}
use sorowill_contracts.Storage.Wills.{load_will, save_will}
use sorowill_contracts.Storage.History.{record_transition}
use sorowill_contracts.Validation.{load_owned, assert_status, assert_owner_or_delegate, days_after}

abbrev pub checked_in : Will → ℕ → Will
checked_in will now = record will { last_checkin = now }

unfoldable pub check_in : ℕ → Address → Action (Unit {0})
check_in will_id caller = do
  require_auth caller
  will ← query (load_will will_id)
  lift (assert_status will active will_not_active)
  lift (assert_owner_or_delegate will caller)
  now ← gets (λ env. env.now)
  next_deadline ← lift (days_after now will.checkin_period_days)
  save_will (checked_in will now)
  record_transition will_id active active caller "checkin"
  publish (Event.check_in will_id caller next_deadline)

abbrev delegate_event : ℕ → Address → Option Address → Event
delegate_event will_id owner none = delegate_cleared will_id owner
delegate_event will_id owner (some delegate) = delegate_set will_id owner delegate

unfoldable pub set_delegate : ℕ → Address → Option Address → Action (Unit {0})
set_delegate will_id owner delegate = do
  require_auth owner
  will ← query (load_owned will_id owner)
  lift (assert_status will active will_not_active)
  save_will (record will { delegate = delegate })
  publish (delegate_event will_id owner delegate)

abbrev pub max_batch_check_in : ℕ
max_batch_check_in = 50

unfoldable pub assert_within_limit : ℕ → Result (Unit {0})
assert_within_limit len = Errors.panic_if (ltb max_batch_check_in len) batch_too_large

unfoldable pub assert_no_duplicates : List ℕ → Result (Unit {0})
unfolding contains
assert_no_duplicates [] = ok tt
assert_no_duplicates (id ∷ ids) =
    Errors.◌>>◌ (Errors.panic_if (contains ids id) duplicate_will_id) (assert_no_duplicates ids)

unfoldable pub prevalidate_check_in : List ℕ → Address → Env → Result (Unit {0})
prevalidate_check_in [] owner env = ok tt
prevalidate_check_in (id ∷ ids) owner env =
    Errors.◌>>◌
      (Errors.◌>>=◌ (load_owned id owner env) (λ will. assert_status will active will_not_active))
      (prevalidate_check_in ids owner env)

-- One round of the loop of `batch_check_in`.
unfoldable pub check_in_owned : Address → ℕ → ℕ → Action (Unit {0})
check_in_owned owner now will_id = do
  will ← query (load_owned will_id owner)
  lift (assert_status will active will_not_active)
  next_deadline ← lift (days_after now will.checkin_period_days)
  save_will (checked_in will now)
  record_transition will_id active active owner "checkin"
  publish (Event.check_in will_id owner next_deadline)

unfoldable pub check_in_all : Address → ℕ → List ℕ → Action (Unit {0})
unfolding check_in_owned
check_in_all owner now [] = pure tt
check_in_all owner now (will_id ∷ ids) = do
  check_in_owned owner now will_id
  check_in_all owner now ids

unfoldable pub batch_check_in : List ℕ → Address → Action (Unit {0})
unfolding assert_within_limit assert_no_duplicates prevalidate_check_in check_in_all
batch_check_in will_ids owner = do
  require_auth owner
  lift (assert_within_limit (length will_ids))
  lift (assert_no_duplicates will_ids)
  query (prevalidate_check_in will_ids owner)
  now ← gets (λ env. env.now)
  check_in_all owner now will_ids
  publish (batch_checkin owner will_ids (length will_ids))
