-- ===== src/Storage/History/Bounds.antt =====
-- The audit trail keeps the latest entries, numbered in order.
use sorowill_contracts.Prelude.{
  ℕ, ◌+◌, ◌≤◌, ◌≡◌, refl, some, List, [], ◌∷◌, ◌++◌, ap, arith, ltb, length, Bool, true, false,
}
use sorowill_contracts.Errors.{ok}
use sorowill_contracts.Types.{WillStatusTransition}
use sorowill_contracts.Env.{Env}
use sorowill_contracts.Storage.Stats.{id_or_zero}
use sorowill_contracts.Storage.History.{
  max_history_entries, trim, next_history_seq, append_history, get_history,
}

length-trim : (h : List WillStatusTransition) → length (trim h) ≤ max_history_entries
unfolding trim
length-trim [] = omega arith
length-trim (x ∷ h) = ground (arith, length-trim h)

trim_if :
    (t : Bool) (x : WillStatusTransition) (h : List WillStatusTransition)
    → ltb max_history_entries (length (x ∷ h)) ≡ t
    → ((dropped : List WillStatusTransition) × (dropped ++ trim h ≡ h))
    → (dropped : List WillStatusTransition) × (dropped ++ trim (x ∷ h) ≡ x ∷ h)
unfolding trim
trim_if true x h e (dropped, same) = (x ∷ dropped, rw (e, trim) (ap (λ t. x ∷ t) same))
trim_if false x h e rest = ([], rw (e, trim) refl)

-- What is dropped is a part at the front.
trim_suffix :
    (h : List WillStatusTransition)
    → (dropped : List WillStatusTransition) × (dropped ++ trim h ≡ h)
unfolding trim
trim_suffix [] = ([], refl)
trim_suffix (x ∷ h) = trim_if (ltb max_history_entries (length (x ∷ h))) x h refl (trim_suffix h)

appended_history :
    (id : ℕ) (t : WillStatusTransition) (env env' : Env)
    → append_history id t env ≡ ok (tt, env')
    → get_history id env'
      ≡ trim
          (get_history id env ++ record t { seq = id_or_zero (env.will_history_seq id) + 1 } ∷ [])
unfolding append_history next_history_seq
appended_history id t env env' h = ground arith

-- After an entry is appended the trail holds at most 50 entries, and these are the last of the trail
-- before followed by the new entry, which has the next sequence number; the counter has moved to it.
pub append_history-keeps_latest :
    (id : ℕ) (t : WillStatusTransition) (env env' : Env)
    → append_history id t env ≡ ok (tt, env')
    → (length (get_history id env') ≤ max_history_entries)
      × (env'.will_history_seq id ≡ some (id_or_zero (env.will_history_seq id) + 1))
      × ((dropped : List WillStatusTransition) × (dropped ++ get_history id env'
            ≡ get_history id env
              ++ record t { seq = id_or_zero (env.will_history_seq id) + 1 } ∷ []))
unfolding append_history next_history_seq
append_history-keeps_latest id t env env' h =
    let e = appended_history id t env env' h in
    let (dropped, same) =
      trim_suffix
        (get_history id env ++ record t { seq = id_or_zero (env.will_history_seq id) + 1 } ∷ []) in
    (rw e (length-trim _), ground arith, (dropped, rw e same))
