-- ===== src/Storage/Archive.antt =====
-- storage.rs: `archive_will`, which moves a will out of the active storage.
use sorowill_contracts.Prelude.{ℕ, Bool, true, false, none, some, update}
use sorowill_contracts.Types.{Will, triggered, is_status}
use sorowill_contracts.Env.{Env}
use sorowill_contracts.Storage.Indexes.{remove_owner_index, unindex_triggered_will}
use sorowill_contracts.Storage.Votes.{clear_all}
use sorowill_contracts.Distribute.Payout.{remove_beneficiary_indexes}

-- The entry, and its copy under the archive's key.
abbrev pub moved_entry : Will → Env → Env
moved_entry will env = record env {
  archived_will = update env.archived_will will.id (some will);
  wills = update env.wills will.id none;
}

-- The votes of the guardians, the audit trail and its counter.
abbrev cleared_records : Will → Env → Env
cleared_records will env = record env {
  guardian_vote = clear_all will.id will.guardians env.guardian_vote;
  guardian_cancel_vote = clear_all will.id will.guardians env.guardian_cancel_vote;
  will_history = update env.will_history will.id none;
  will_history_seq = update env.will_history_seq will.id none;
}

abbrev pub unindex_if : Bool → ℕ → Env → Env
unindex_if true will_id env = unindex_triggered_will will_id env
unindex_if false will_id env = env

unfoldable pub archive_will : Will → Env → Env
archive_will will env = cleared_records will (
    remove_beneficiary_indexes will.beneficiaries will.id (
      unindex_if (is_status will.status triggered) will.id
        (remove_owner_index will.owner will.id (moved_entry will env))))
