-- ===== src/Views/Deadline.antt =====
-- lib.rs: `get_will`, `get_will_status`, `get_time_until_deadline`, `grace_period_end` and
-- `get_guardian_vote_status`.
use sorowill_contracts.Prelude.{
  ℕ, ◌+◌, ◌-◌, ◌*◌, ◌^◌, Bool, ◌&&◌, Option, none, some, ltb, leb, if◌then◌else◌,
}
use sorowill_contracts.Prelude.Int.{ℤ, pos, negsuc, ◌+ℤ◌, ◌-ℤ◌}
use sorowill_contracts.Prelude.Words.{u64_max}
use sorowill_contracts.Errors.{
  will_not_triggered, invalid_period, contract_error, overflow, Result, ok, err, ◌>>=◌,
}
use sorowill_contracts.Types.{
  Address, Will, WillStatus, pending_confirmation, active, triggered, released, cancelled, settled,
  GuardianVoteRecord,
}
use sorowill_contracts.Env.{Env}
use sorowill_contracts.Storage.Wills.{load_will}
use sorowill_contracts.Storage.Votes.{seconds_per_day, get_guardian_vote, vote_is_live}

abbrev pub get_will : ℕ → Env → Result Will
get_will will_id env = load_will will_id env

unfoldable pub get_will_status : ℕ → Env → Result WillStatus
unfolding load_will
get_will_status will_id env = do will ← load_will will_id env; ok will.status

-- `as i64` of a u64
abbrev as_i64 : ℕ → ℤ
as_i64 n = if ltb n (2 ^ 63) then pos n else negsuc (2 ^ 64 - 1 - n)

abbrev fits_i64 : ℤ → Bool
fits_i64 (pos n) = ltb n (2 ^ 63)
fits_i64 (negsuc n) = ltb n (2 ^ 63)

-- `+`, `-` and `*` under `overflow-checks`
abbrev checked_i64 : ℤ → Result ℤ
checked_i64 a = if fits_i64 a then ok a else err overflow

abbrev mul_u64 : ℕ → ℕ → Result ℕ
mul_u64 a b = if leb (a * b) u64_max then ok (a * b) else err overflow

-- What is left from `now` until a number of days after a start.
unfoldable time_left : ℕ → ℕ → ℕ → Result (Option ℤ)
time_left start days now = do
  seconds ← mul_u64 days seconds_per_day
  deadline ← checked_i64 (as_i64 start +ℤ as_i64 seconds)
  left ← checked_i64 (deadline -ℤ as_i64 now)
  ok (some left)

abbrev trigger_time_or : Option ℕ → ℕ → ℕ
trigger_time_or none last_checkin = last_checkin
trigger_time_or (some t) last_checkin = t

unfoldable deadline_of : Will → ℕ → Result (Option ℤ)
unfolding time_left
deadline_of will now = elim will.status [
  | active ↦ time_left will.last_checkin will.checkin_period_days now
  | triggered ↦
      time_left (trigger_time_or will.trigger_time will.last_checkin) will.grace_period_days now
  | pending_confirmation ↦ ok none
  | released ↦ ok none
  | cancelled ↦ ok none
  | settled ↦ ok none
]

unfoldable pub get_time_until_deadline : ℕ → Env → Result (Option ℤ)
unfolding load_will deadline_of
get_time_until_deadline will_id env = do will ← load_will will_id env; deadline_of will env.now

abbrev trigger_time_of : Option ℕ → Result ℕ
trigger_time_of none = err (contract_error will_not_triggered)
trigger_time_of (some t) = ok t

-- `checked_mul` and `checked_add`: the product is above the largest u64 where it overflows.
abbrev deadline_after : ℕ → ℕ → Result ℕ
deadline_after t seconds =
    if leb seconds u64_max && leb (t + seconds) u64_max
    then ok (t + seconds)
    else err (contract_error invalid_period)

unfoldable pub grace_period_end : Will → Result ℕ
grace_period_end will = do
  t ← trigger_time_of will.trigger_time
  deadline_after t (will.grace_period_days * seconds_per_day)

abbrev live_vote : Option GuardianVoteRecord → ℕ → ℕ → Option GuardianVoteRecord
live_vote none now expiry_days = none
live_vote (some vote) now expiry_days =
    if vote_is_live now vote.timestamp expiry_days then some vote else none

unfoldable pub get_guardian_vote_status : ℕ → Address → Env → Result (Option GuardianVoteRecord)
unfolding load_will get_guardian_vote vote_is_live
get_guardian_vote_status will_id guardian env = do
  will ← load_will will_id env
  ok (live_vote (get_guardian_vote will_id guardian env) env.now will.grace_period_days)
