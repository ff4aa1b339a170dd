-- ===== src/Tests/Claims.antt =====
-- Hashed beneficiaries, pages and statistics at concrete inputs.
use sorowill_contracts.Prelude.{
  ℕ, zero, suc, ◌+◌, ◌*◌, ◌<◌, ◌≤◌, ◌≡◌, ◌↔◌, refl, true, false, ◌++◌, Option, none, some, List, [],
  ◌∷◌, ◌==◌, min, length, arith,
}
use sorowill_contracts.Prelude.Int.{ℤ, pos}
use sorowill_contracts.Errors.{ok}
use sorowill_contracts.Types.{Address, Bytes, ProtocolStats, Will, active, released}
use sorowill_contracts.Env.{Env}
use sorowill_contracts.Storage.Wills.{load_will}
use sorowill_contracts.Storage.Stats.{id_or_zero}
use sorowill_contracts.Storage.Indexes.{max_page_size, paginate_ids}
use sorowill_contracts.Storage.Indexes.Walks.{past, first, paginate_ids-eq-first}
use sorowill_contracts.Storage.Indexes.Walks.Complete.{walk, walk_complete}
use sorowill_contracts.Contract.Hashed.{Crypto, constant_time_bytes_eq, reveal_and_claim}
use sorowill_contracts.Contract.Hashed.Compare.{constant_time_bytes_eq_iff}
use sorowill_contracts.Contract.Hashed.Claims.{reveal_and_claim-once}
use sorowill_contracts.Contract.Trigger.{trigger_will}
use sorowill_contracts.Contract.Trigger.Live.{has_succeeded, trigger_will-succeeds}
use sorowill_contracts.Views.Stats.{total_of, stats_match}
use sorowill_contracts.Views.Stats.Match.{are_single, stats_match_iff}
use sorowill_contracts.Tests.Sample.{will, state, after}

abbrev zeros : ℕ → Bytes
zeros zero = []
zeros (suc n) = 0 ∷ zeros n

-- A stand-in for the hash, which gives 32 bytes that begin with the first byte of its input.
abbrev stand_in : Bytes → Bytes
stand_in [] = 0 ∷ zeros 31
stand_in (byte ∷ bytes) = byte ∷ zeros 31

abbrev crypto : Crypto
crypto = record { sha256 = stand_in; to_xdr = λ address. address ∷ [] }

abbrev ones : ℕ → Bytes
ones zero = []
ones (suc n) = 1 ∷ ones n

-- The fingerprint of address 40, and a salt.
abbrev preimage : Bytes
preimage = 40 ∷ (zeros 31 ++ ones 32)

abbrev committed : Will
committed = record (will released (some 2593000)) {
  hashed_beneficiaries =
      record { commitment = 40 ∷ zeros 31; share_bps = 2500; claimed = false } ∷ [];
}

abbrev released_env : Env
released_env = state 9000000 committed

abbrev claimed : Env
claimed = after released_env (reveal_and_claim crypto 1 40 preimage released_env)

claims : reveal_and_claim crypto 1 40 preimage released_env ≡ ok (tt, claimed)
unfolding reveal_and_claim load_will sorowill_contracts.Validation.assert_status
    sorowill_contracts.Validation.grace_deadline sorowill_contracts.Validation.grace_elapsed
    sorowill_contracts.Prelude.Int.◌*ℤ◌ sorowill_contracts.Prelude.Int.div_ℤ
    sorowill_contracts.Validation.unclaimed_hashed_bps
    sorowill_contracts.Storage.Stats.adjust_locked_value sorowill_contracts.Prelude.Int.◌-ℤ◌
    sorowill_contracts.Storage.Wills.save_will
claims = refl

keyed : (w : Will) → load_will 1 released_env ≡ ok w → w.id ≡ 1
unfolding load_will
keyed w loaded = ground arith

reveal_and_claim-once_example : ¬ (reveal_and_claim crypto 1 40 preimage claimed ≡ ok (tt, claimed))
reveal_and_claim-once_example =
    reveal_and_claim-once crypto 1 40 40 preimage released_env claimed claimed claimed keyed claims
      refl

abbrev ids : List ℕ
ids = 2 ∷ 3 ∷ 5 ∷ 8 ∷ []

ids_ascending : (2 < 3) × ((3 < 5) × ((5 < 8) × Unit {0}))
ids_ascending = (omega arith, (omega arith, (omega arith, tt)))

paginate_ids-eq-first_example :
    paginate_ids ids (some 2) 2 ≡ first (min 2 max_page_size) (past (some 2) ids)
paginate_ids-eq-first_example = paginate_ids-eq-first ids (some 2) 2 ids_ascending

pages_fit : length (past (some 2) ids) ≤ 3
unfolding past
pages_fit = omega arith

walk_complete_example : walk ids 2 3 (some 2) ≡ past (some 2) ids
walk_complete_example = walk_complete ids 2 3 (some 2) ids_ascending (omega arith) pages_fit

abbrev stats : ProtocolStats
stats = record {
  active_will_count = 1;
  total_locked_by_token = record { token = 5; total_locked = pos 7 } ∷ [];
}

-- The same, with an entry of zero for another token.
abbrev recounted : ProtocolStats
recounted = record {
  active_will_count = 1;
  total_locked_by_token =
      record { token = 6; total_locked = pos 0 } ∷ record { token = 5; total_locked = pos 7 } ∷ [];
}

single_stats : are_single stats.total_locked_by_token ≡ true
unfolding are_single
single_stats = refl

single_recounted : are_single recounted.total_locked_by_token ≡ true
unfolding are_single
single_recounted = refl

stats_match_iff_example : (stats_match stats recounted ≡ true) ↔ (
    (stats.active_will_count ≡ recounted.active_will_count)
    × ((token : Address)
        → total_of stats.total_locked_by_token token
          ≡ total_of recounted.total_locked_by_token token))
stats_match_iff_example = stats_match_iff stats recounted single_stats single_recounted

abbrev due : Env
due = state 2593000 (will active none)

trigger_will-succeeds_example : has_succeeded (trigger_will 1 due) ≡ true
trigger_will-succeeds_example =
    trigger_will-succeeds due (will active none) refl refl (omega arith) (omega arith) (omega arith)

constant_time_bytes_eq_iff_example :
    (constant_time_bytes_eq (1 ∷ 2 ∷ []) (1 ∷ 3 ∷ []) ≡ true)
    ↔ (◌≡◌ {A = Bytes} (1 ∷ 2 ∷ []) (1 ∷ 3 ∷ []))
constant_time_bytes_eq_iff_example = constant_time_bytes_eq_iff (1 ∷ 2 ∷ []) (1 ∷ 3 ∷ [])
