-- ===== src/Lib.antt =====
-- The SoroWill contract, a dead man's switch for token estates on Soroban. An owner locks tokens in a
-- will and checks in from time to time; once a check-in is missed anyone may trigger the will, and
-- after a grace period anyone may release the estate to the beneficiaries. Guardians can vote to
-- release early or to cancel a trigger.
--
-- The parts, under contracts/will/src, and where they stand here:
--   * types.rs, errors.rs: `Types`, `Errors`. An address is a number. `Types.Balances` is the SDK's
--     ordered `Map<Address, i128>` as its documentation describes it.
--   * The host and events.rs: `Env`, `Env.Action`. An entry point is an `Action`: from the
--     environment of the invocation it makes a result with the next environment, or an abort, which
--     carries none because the host rolls everything back. Storage is one field for each `DataKey`.
--     Ledger time, authorizations and the answers of token contracts are fields of the environment
--     that nothing is assumed of: `accepts` may refuse any transfer.
--   * storage.rs: `Storage`, a child for each kind of entry: `Stats`, `Wills`, `Indexes`, `Votes`,
--     `History` (which has `record_transition` of lib.rs too).
--   * The guards of lib.rs and grace_boundary.rs: `Validation`.
--   * `proportional_share`, distribute_limits.rs, bounty_rounding.rs: `Shares`.
--   * `distribute` of lib.rs: `Distribute.Plan` computes every payment from the balances,
--     `Distribute.Payout` stores the released will and makes the payments.
--   * The entry points of lib.rs, each under the name it has there: `Contract.Create` (`create_will`,
--     `confirm_will`), `Contract.Checkin`, `Contract.Trigger`, `Contract.Release`, `Contract.Cancel`,
--     `Contract.Guardian`, `Contract.Consent`, `Contract.Settings` with `Settings.Update`
--     (`update_will_settings`), `Contract.Renounce`, `Contract.Hashed` (`add_hashed_beneficiary`,
--     `reveal_and_claim`), `Contract.Merge`, `Contract.Split` (with split_uniqueness_check.rs),
--     `Contract.Clone`, `Contract.Batch` and `Contract.Archive`. `Contract.Renormalize` is
--     `renormalize_percentages`, `Merge.Shares` is `merge_beneficiaries`. Merging and splitting are a
--     pure computation of the new wills (`merge`, `plan_split`), then what is stored (`store_merge`,
--     `store_split`).
--     `Contract.Fresh` has the rules for actions that give out the next id, and `Fresh.Creators` the
--     theorems on those that create wills, `Fresh.New` what a new will is,
--     `Fresh.Deposits` what it holds.
--   * migration.rs, migration_rules.rs and `migrate_will`: `Migration`.
--   * The read-only entry points: `Views.Stats` (with `repair_protocol_stats`), `Views.Pages`,
--     `Views.Deadline`.
--   * `Contract.Transition` has the machine of a will's status (`Rules.Edge`), a lemma on each of
--     twenty-one entry points that load and store one will (`Lifecycle`, `Guardian`, `Settings`,
--     `Updates`, `Consent`), these as one data type (`Calls.Call`) and their sequences, with changes of
--     the host in between (`Traces`). `migrate_will` is not a `Call`: it may store an ended will of an
--     old layout again. Nor are the entry points that make, merge, split or archive wills,
--     `batch_check_in`, and those that write no will (`retry_failed_payout`, `repair_protocol_stats`).
--   * `Tests` runs the definitions on a sample will.
--
-- Numbers: unsigned integers are native numbers and i128 amounts are `Prelude.Int`, with the checks
-- that `overflow-checks = true` of the release profile adds written out: arithmetic that leaves its
-- type aborts, and saturating arithmetic saturates. A loop over a list is a structural recursion. The
-- loop of `upgrade` runs on fuel, the number of versions below the current one, which is as often as
-- it goes round; `walk`, a client that reads an index page by page, runs on fuel as well, and one
-- iteration for each id past the cursor is enough.
--
-- SHA-256 and the XDR encoding of an address belong to the host: they are the record `Crypto`, a
-- parameter of the operations on hashed beneficiaries of which nothing is assumed.
--
-- As it stands the source names three errors that errors.rs does not declare and builds a `Will`
-- without `triggered_beneficiaries`; here `WillError` has the three and the field starts as `none`.
--
-- Not modelled: helpers that no entry point calls (in storage.rs the tallies and recounts of votes and
-- `purge_removed_guardian_votes`, which lib.rs and guardian_vote_purge.rs have as well), the constant
-- of `get_contract_version`, and the code for tests and measurements. Time to live of storage entries
-- is rent and has no counterpart; a lock of release_lock.rs stays until it is released.
pub mod Migration
pub mod Views
pub mod Prelude
pub mod Errors
pub mod Types
pub mod Env
pub mod Storage
pub mod Shares
pub mod Validation
pub mod Distribute
pub mod Contract
pub mod Tests
