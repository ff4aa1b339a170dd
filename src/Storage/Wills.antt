-- ===== src/Storage/Wills.antt =====
-- storage.rs: the will entries and the payouts that failed.
pub mod Saves
pub mod RoundTrip
use sorowill_contracts.Prelude.{
  ℕ, Bool, true, false, ◌||◌, Option, none, some, List, [], ◌∷◌, ◌==◌, update, update₂,
  if◌then◌else◌,
}
use sorowill_contracts.Prelude.Int.{ℤ}
use sorowill_contracts.Errors.{
  will_not_found, unsupported_schema_version, contract_error, undecodable, Result, ok, err,
}
use sorowill_contracts.Types.{Address, Guardian, GuardianVoteRecord, Will}
use sorowill_contracts.Env.{Env, Val, encoded, foreign}
use sorowill_contracts.Env.Action.{Action}

-- migration.rs: `decode_will`
unfoldable pub decode_will : Val → Result Will
decode_will (encoded will) = ok will
decode_will foreign = err (contract_error unsupported_schema_version)

abbrev found_will : Option Val → Result Will
found_will none = err (contract_error will_not_found)
found_will (some raw) = decode_will raw

unfoldable pub load_will : ℕ → Env → Result Will
unfolding decode_will
load_will will_id env = found_will (env.wills will_id)

unfoldable pub is_guardian : List Guardian → Address → Bool
is_guardian [] address = false
is_guardian (g ∷ guardians) address = g.address == address || is_guardian guardians address

-- The loop of `save_will`, over one of the two kinds of vote.
unfoldable pub forget_removed :
    ℕ
    → List Guardian
    → List Guardian
    → (ℕ → Address → Option GuardianVoteRecord)
    → ℕ
    → Address
    → Option GuardianVoteRecord
unfolding is_guardian
forget_removed will_id [] current votes = votes
forget_removed will_id (g ∷ previous) current votes =
    forget_removed will_id previous current
      (if is_guardian current g.address then votes else update₂ votes will_id g.address none)

-- `get::<_, Will>` of the entry that `save_will` replaces.
abbrev pub previous_guardians : Option Val → Result (List Guardian)
previous_guardians none = ok []
previous_guardians (some (encoded previous)) = ok previous.guardians
previous_guardians (some foreign) = err undecodable

unfoldable pub save_will : Will → Action (Unit {0})
save_will will env = elim (previous_guardians (env.wills will.id)) [
  | ok previous ↦ ok (
    tt,
    record env {
      wills = update env.wills will.id (some (encoded will));
      guardian_vote = forget_removed will.id previous will.guardians env.guardian_vote;
      guardian_cancel_vote =
          forget_removed will.id previous will.guardians env.guardian_cancel_vote;
    },
  )
  | err t ↦ err t
]

unfoldable pub set_failed_payout : ℕ → Address → Address → ℤ → Env → Env
set_failed_payout will_id token recipient amount env = record env {
  failed_payout = λ i t r.
      if i == will_id
      then update₂ (env.failed_payout i) token recipient (some amount) t r
      else env.failed_payout i t r;
}

unfoldable pub get_failed_payout : ℕ → Address → Address → Env → Option ℤ
get_failed_payout will_id token recipient env = env.failed_payout will_id token recipient

unfoldable pub remove_failed_payout : ℕ → Address → Address → Env → Env
remove_failed_payout will_id token recipient env = record env {
  failed_payout = λ i t r.
      if i == will_id
      then update₂ (env.failed_payout i) token recipient none t r
      else env.failed_payout i t r;
}
