-- ===== src/Storage/Stats.antt =====
-- storage.rs: the will id counter and the protocol statistics in instance storage.
pub mod Locked
use sorowill_contracts.Prelude.{
  ℕ, ◌-◌, Bool, true, false, not, ◌&&◌, Option, none, some, List, [], ◌∷◌, ◌++◌, ◌==◌,
  if◌then◌else◌,
}
use sorowill_contracts.Prelude.Int.{ℤ, is_zero}
use sorowill_contracts.Errors.{Result, ok, err, ◌>>=◌}
use sorowill_contracts.Types.{
  Address, TokenMap, TokenLockedBalance, ProtocolStats, WillStatus, pending_confirmation, active,
  triggered, released, cancelled, settled,
}
use sorowill_contracts.Env.{Env}
use sorowill_contracts.Env.Action
use sorowill_contracts.Env.Action.{Action, pure, lift, gets, modify, add_u64, add_i128, mul_i128}

-- `unwrap_or(0)`
abbrev pub id_or_zero : Option ℕ → ℕ
id_or_zero none = 0
id_or_zero (some n) = n

unfoldable pub next_will_id : Action ℕ
next_will_id env = elim (add_u64 (id_or_zero env.next_will_id) 1) [
  | ok next ↦ ok (next, record env { next_will_id = some next })
  | err t ↦ err t
]

abbrev pub stats_or_empty : Option ProtocolStats → ProtocolStats
stats_or_empty none = record { active_will_count = 0; total_locked_by_token = [] }
stats_or_empty (some s) = s

abbrev pub get_protocol_stats : Env → ProtocolStats
get_protocol_stats env = stats_or_empty env.protocol_stats

abbrev pub save_protocol_stats : ProtocolStats → Env → Env
save_protocol_stats s env = record env { protocol_stats = some s }

unfoldable pub increment_active_will_count : Action (Unit {0})
increment_active_will_count env =
    let stats = get_protocol_stats env in
    elim (add_u64 stats.active_will_count 1) [
      | ok n ↦ ok (tt, save_protocol_stats (record stats { active_will_count = n }) env)
      | err t ↦ err t
    ]

-- The count stays at 0 there.
unfoldable pub decrement_active_will_count : Env → Env
decrement_active_will_count env =
    let stats = get_protocol_stats env in
    save_protocol_stats (record stats { active_will_count = stats.active_will_count - 1 }) env

-- An entry rewritten by `next_total`, or dropped.
abbrev keep_nonzero : Address → ℤ → List TokenLockedBalance → List TokenLockedBalance
keep_nonzero token next_total updated =
    if is_zero next_total
    then updated
    else record { token = token; total_locked = next_total } ∷ updated

abbrev rewrite_entry :
    TokenLockedBalance
    → Address
    → ℤ
    → Bool
    → List TokenLockedBalance
    → Result (Bool × List TokenLockedBalance)
rewrite_entry entry token delta found updated =
    if entry.token == token
    then (add_i128 entry.total_locked delta >>= λ next_total.
        ok (true, keep_nonzero entry.token next_total updated))
    else ok (found, entry ∷ updated)

-- The loop of `adjust_locked_value`: whether the token was found, and the entries rewritten. An
-- entry that comes to zero is dropped.
unfoldable pub adjust_entries :
    List TokenLockedBalance → Address → ℤ → Result (Bool × List TokenLockedBalance)
adjust_entries [] token delta = ok (false, [])
adjust_entries (entry ∷ entries) token delta = do
  (found, updated) ← adjust_entries entries token delta
  rewrite_entry entry token delta found updated

unfoldable pub adjusted : List TokenLockedBalance → Address → ℤ → Result (List TokenLockedBalance)
unfolding adjust_entries
adjusted entries token delta = do
  (found, updated) ← adjust_entries entries token delta
  ok (
      if not found && not (is_zero delta)
      then updated ++ record { token = token; total_locked = delta } ∷ []
      else updated)

-- A computation that rewrites the totals by token, in an environment.
abbrev pub with_totals : Env → Result (List TokenLockedBalance) → Result (Unit {0} × Env)
with_totals env (ok totals) = ok (
  tt,
  save_protocol_stats (record (get_protocol_stats env) { total_locked_by_token = totals }) env,
)
with_totals env (err t) = err t

unfoldable pub adjust_locked_value : Address → ℤ → Action (Unit {0})
unfolding adjusted
adjust_locked_value token delta env =
    with_totals env (adjusted (get_protocol_stats env).total_locked_by_token token delta)

-- `if amount != 0 { adjust_locked_value(token, sign * amount) }`
unfoldable pub adjust_unless_zero : Bool → Address → ℤ → ℤ → Action (Unit {0})
adjust_unless_zero true token sign amount = pure tt
adjust_unless_zero false token sign amount =
    Action.◌>>=◌ (lift (mul_i128 sign amount)) (λ delta. adjust_locked_value token delta)

unfoldable pub adjust_locked_for_balances : TokenMap → ℤ → Action (Unit {0})
unfolding adjust_unless_zero
adjust_locked_for_balances [] sign env = ok (tt, env)
adjust_locked_for_balances ((token, amount) ∷ balances) sign env =
    Action.◌>>◌ (adjust_unless_zero (is_zero amount) token sign amount)
      (adjust_locked_for_balances balances sign) env

unfoldable pub is_live_status : WillStatus → Bool
is_live_status pending_confirmation = true
is_live_status active = true
is_live_status triggered = true
is_live_status released = false
is_live_status cancelled = false
is_live_status settled = false
