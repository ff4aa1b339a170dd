-- ===== src/Contract/Archive.antt =====
-- lib.rs: `archive_will`.
pub mod Outcome
use sorowill_contracts.Prelude.{ℕ, not, ◌&&◌, if◌then◌else◌}
use sorowill_contracts.Errors.{will_not_settled}
use sorowill_contracts.Types.{Symbol, Will, released, cancelled, is_status}
use sorowill_contracts.Env.{will_archived}
use sorowill_contracts.Env.Action.{Action, query, gets, panic_if, modify, publish, ◌>>=◌, ◌>>◌}
use sorowill_contracts.Storage.Archive
use sorowill_contracts.Storage.Wills.{load_will}

abbrev archive_reason : Will → Symbol
archive_reason will = if is_status will.status released then "released" else "cancelled"

unfoldable pub archive_will : ℕ → Action (Unit {0})
archive_will will_id = do
  will ← query (load_will will_id)
  panic_if (not (is_status will.status released) && not (is_status will.status cancelled))
      will_not_settled
  modify (Archive.archive_will will)
  now ← gets (λ env. env.now)
  publish (will_archived will_id will.owner now (archive_reason will))
