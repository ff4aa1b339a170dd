-- ===== src/Storage/History.antt =====
-- storage.rs: the audit trail of a will, and `record_transition` of lib.rs.
pub mod Bounds
use sorowill_contracts.Prelude.{
  ℕ, suc, ◌+◌, Bool, Option, none, some, List, [], ◌∷◌, ◌++◌, ltb, leb, ◌==◌, min, length, update,
  if◌then◌else◌,
}
use sorowill_contracts.Prelude.Words.{saturating_add_u32}
use sorowill_contracts.Errors.{ok, err}
use sorowill_contracts.Types.{Address, Symbol, WillStatus, WillStatusTransition}
use sorowill_contracts.Env.{Env}
use sorowill_contracts.Env.Action.{Action, add_u64}
use sorowill_contracts.Storage.Stats.{id_or_zero}

abbrev pub max_history_entries : ℕ
max_history_entries = 50

abbrev pub history_or_empty : Option (List WillStatusTransition) → List WillStatusTransition
history_or_empty none = []
history_or_empty (some h) = h

-- `while history.len() > MAX_HISTORY_ENTRIES { history.remove(0) }`
unfoldable pub trim : List WillStatusTransition → List WillStatusTransition
trim [] = []
trim (entry ∷ history) =
    if ltb max_history_entries (length (entry ∷ history)) then trim history else entry ∷ history

unfoldable pub next_history_seq : ℕ → Action ℕ
next_history_seq will_id env = elim (add_u64 (id_or_zero (env.will_history_seq will_id)) 1) [
  | ok next ↦
      ok (next, record env { will_history_seq = update env.will_history_seq will_id (some next) })
  | err t ↦ err t
]

abbrev push_history : ℕ → WillStatusTransition → ℕ → Env → Env
push_history will_id transition seq env = record env {
  will_history = update env.will_history will_id (
      some (
        trim
          (history_or_empty (env.will_history will_id) ++ record transition { seq = seq } ∷ [])));
}

unfoldable pub append_history : ℕ → WillStatusTransition → Action (Unit {0})
unfolding next_history_seq
append_history will_id transition env = elim (next_history_seq will_id env) [
  | ok (seq, env') ↦ ok (tt, push_history will_id transition seq env')
  | err t ↦ err t
]

abbrev pub get_history : ℕ → Env → List WillStatusTransition
get_history will_id env = history_or_empty (env.will_history will_id)

unfoldable pub record_transition :
    ℕ → WillStatus → WillStatus → Address → Symbol → Action (Unit {0})
unfolding append_history
record_transition will_id from_status to_status actor action env =
    append_history will_id
      (record {
        will_id = will_id;
        from_status = from_status;
        to_status = to_status;
        timestamp = env.now;
        actor = actor;
        action = action;
        seq = 0;
      })
      env
