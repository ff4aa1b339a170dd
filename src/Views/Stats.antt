-- ===== src/Views/Stats.antt =====
-- storage.rs: `recompute_protocol_stats`; lib.rs: `stats_match`, `audit_protocol_stats`,
-- `repair_protocol_stats` and `get_owner_stats`.
pub mod Match
use sorowill_contracts.Prelude.{
  ℕ, zero, suc, ◌+◌, Bool, true, false, not, ◌&&◌, Option, none, some, List, [], ◌∷◌, ◌++◌, ◌==◌,
  length, if◌then◌else◌,
}
use sorowill_contracts.Prelude.Int.{ℤ, pos, eqb_ℤ, is_zero}
use sorowill_contracts.Errors.{undecodable, Result, ok, err, ◌>>=◌}
use sorowill_contracts.Types.{
  Address, TokenMap, TokenLockedBalance, ProtocolStats, ProtocolStatsAudit, OwnerStats, Will,
}
use sorowill_contracts.Types.Balances.{get_or_zero, remove}
use sorowill_contracts.Env.{Env, Val, encoded, foreign}
use sorowill_contracts.Env.Action
use sorowill_contracts.Env.Action.{Action, pure, query, modify}
use sorowill_contracts.Storage.Stats.{
  id_or_zero, get_protocol_stats, save_protocol_stats, is_live_status,
}
use sorowill_contracts.Storage.Wills.{load_will}
use sorowill_contracts.Storage.Indexes.{get_owner_wills}
use sorowill_contracts.Contract.Merge.{combine_balances}

-- The count of live wills and their balances by token, so far.
pub record Tally : Type 0 where
  pub active_will_count : ℕ
  pub totals : TokenMap

-- A will enters the tally if it is live; the loop over its balances is that of a merge.
unfoldable pub count_will : Will → Tally → Result Tally
unfolding is_live_status combine_balances
count_will will tally =
    if is_live_status will.status
    then (combine_balances tally.totals will.balances >>= λ totals.
        ok (record { active_will_count = tally.active_will_count + 1; totals = totals }))
    else ok tally

-- The entry of one id: an absent one is passed over.
abbrev pub count_entry : Option Val → Tally → Result Tally
count_entry none tally = ok tally
count_entry (some (encoded will)) tally = count_will will tally
count_entry (some foreign) tally = err undecodable

-- The loop from `id` on, over as many ids as `left`.
unfoldable pub count_wills : (ℕ → Option Val) → ℕ → ℕ → Tally → Result Tally
unfolding count_will
count_wills wills id zero tally = ok tally
count_wills wills id (suc left) tally = do
  tally' ← count_entry (wills id) tally
  count_wills wills (id + 1) left tally'

-- The loop over the stored entries: each keeps its place, with the new total.
unfoldable pub known_totals :
    List TokenLockedBalance → TokenMap → List TokenLockedBalance × TokenMap
unfolding get_or_zero remove
known_totals [] totals = ([], totals)
known_totals (entry ∷ entries) totals =
    let (rest, left) = known_totals entries (remove totals entry.token) in
    (record { token = entry.token; total_locked = get_or_zero totals entry.token } ∷ rest, left)

unfoldable pub locked_entries : TokenMap → List TokenLockedBalance
locked_entries [] = []
locked_entries ((token, total) ∷ totals) =
    record { token = token; total_locked = total } ∷ locked_entries totals

abbrev pub listed : List TokenLockedBalance × TokenMap → List TokenLockedBalance
listed (entries, left) = entries ++ locked_entries left

unfoldable pub recompute_protocol_stats : Env → Result ProtocolStats
unfolding count_wills known_totals
recompute_protocol_stats env = do
  tally ←
      count_wills env.wills 1 (id_or_zero env.next_will_id)
        (record { active_will_count = 0; totals = [] })
  ok (record {
    active_will_count = tally.active_will_count;
    total_locked_by_token =
        listed (known_totals (get_protocol_stats env).total_locked_by_token tally.totals);
  })

-- The total of the first entry of the token.
unfoldable pub total_of : List TokenLockedBalance → Address → ℤ
total_of [] token = pos 0
total_of (entry ∷ entries) token =
    if entry.token == token then entry.total_locked else total_of entries token

unfoldable pub covers : List TokenLockedBalance → List TokenLockedBalance → Bool
unfolding total_of
covers [] entries = true
covers (entry ∷ others) entries =
    eqb_ℤ (total_of entries entry.token) entry.total_locked && covers others entries

unfoldable pub stats_match : ProtocolStats → ProtocolStats → Bool
unfolding covers
stats_match a b =
    a.active_will_count == b.active_will_count
    && covers a.total_locked_by_token b.total_locked_by_token
    && covers b.total_locked_by_token a.total_locked_by_token

unfoldable pub audit_protocol_stats : Env → Result ProtocolStatsAudit
unfolding recompute_protocol_stats stats_match
audit_protocol_stats env = do
  computed ← recompute_protocol_stats env
  let stored = get_protocol_stats env
  ok (record { stored = stored; computed = computed; consistent = stats_match stored computed })

unfoldable nonzero_entries : List TokenLockedBalance → List TokenLockedBalance
nonzero_entries [] = []
nonzero_entries (entry ∷ entries) =
    let rest = nonzero_entries entries in if is_zero entry.total_locked then rest else entry ∷ rest

unfoldable pub repair_protocol_stats : Action ProtocolStats
unfolding recompute_protocol_stats nonzero_entries
repair_protocol_stats = Action.◌>>=◌ (query recompute_protocol_stats) (λ computed.
    let repaired = record computed {
      total_locked_by_token = nonzero_entries computed.total_locked_by_token;
    } in
    Action.◌>>◌ (modify (save_protocol_stats repaired)) (pure repaired))

-- The loop of `get_owner_stats`.
unfoldable count_owned : List ℕ → Env → Tally → Result Tally
unfolding count_will load_will
count_owned [] env tally = ok tally
count_owned (id ∷ ids) env tally = do
  will ← load_will id env
  tally' ← count_will will tally
  count_owned ids env tally'

unfoldable pub get_owner_stats : Address → Env → Result OwnerStats
unfolding count_owned locked_entries
get_owner_stats owner env = do
  let ids = get_owner_wills owner env
  tally ← count_owned ids env (record { active_will_count = 0; totals = [] })
  ok (record {
    total_wills = length ids;
    active_wills = tally.active_will_count;
    total_locked_by_token = locked_entries tally.totals;
  })
