-- ===== src/Storage/Votes.antt =====
-- storage.rs: the guardians' votes to release and to cancel.
use sorowill_contracts.Prelude.{
  ℕ, ◌-◌, Bool, false, ◌&&◌, Option, none, some, List, [], ◌∷◌, leb, ◌==◌, update₂, if◌then◌else◌,
}
use sorowill_contracts.Prelude.Words.{saturating_mul_u64}
use sorowill_contracts.Types.{
  Address, Guardian, GuardianVoteReason, other, GuardianVoteRecord, Will,
}
use sorowill_contracts.Env.{Env}

abbrev pub seconds_per_day : ℕ
seconds_per_day = 86400

unfoldable pub get_guardian_vote : ℕ → Address → Env → Option GuardianVoteRecord
get_guardian_vote will_id guardian env = env.guardian_vote will_id guardian

-- `-` on ℕ saturates as `saturating_sub` does.
unfoldable pub vote_is_live : ℕ → ℕ → ℕ → Bool
unfolding saturating_mul_u64
vote_is_live now vote_timestamp expiry_days =
    leb (now - vote_timestamp) (saturating_mul_u64 expiry_days seconds_per_day)

abbrev pub counts : Option GuardianVoteRecord → ℕ → ℕ → Bool
counts none now expiry_days = false
counts (some vote) now expiry_days =
    leb vote.timestamp now && vote_is_live now vote.timestamp expiry_days

unfoldable pub has_guardian_voted : ℕ → Address → ℕ → ℕ → Env → Bool
unfolding vote_is_live
has_guardian_voted will_id guardian now expiry_days env =
    counts (env.guardian_vote will_id guardian) now expiry_days

unfoldable pub has_guardian_cancel_voted : ℕ → Address → ℕ → ℕ → Env → Bool
unfolding vote_is_live
has_guardian_cancel_voted will_id guardian now expiry_days env =
    counts (env.guardian_cancel_vote will_id guardian) now expiry_days

unfoldable pub set_guardian_voted : ℕ → Address → ℕ → GuardianVoteReason → Env → Env
set_guardian_voted will_id guardian timestamp reason env = record env {
  guardian_vote =
      update₂ env.guardian_vote will_id guardian
        (some (record { timestamp = timestamp; reason = reason }));
}

unfoldable pub set_guardian_cancel_voted : ℕ → Address → ℕ → Env → Env
set_guardian_cancel_voted will_id guardian timestamp env = record env {
  guardian_cancel_vote =
      update₂ env.guardian_cancel_vote will_id guardian
        (some (record { timestamp = timestamp; reason = other }));
}

unfoldable pub clear_guardian_vote : ℕ → Address → Env → Env
clear_guardian_vote will_id guardian env = record env {
  guardian_vote = update₂ env.guardian_vote will_id guardian none;
}

unfoldable pub clear_guardian_cancel_vote : ℕ → Address → Env → Env
clear_guardian_cancel_vote will_id guardian env = record env {
  guardian_cancel_vote = update₂ env.guardian_cancel_vote will_id guardian none;
}

-- The loop of the two resets, over one kind of vote.
unfoldable pub clear_all :
    ℕ
    → List Guardian
    → (ℕ → Address → Option GuardianVoteRecord)
    → ℕ
    → Address
    → Option GuardianVoteRecord
clear_all will_id [] votes = votes
clear_all will_id (g ∷ guardians) votes =
    clear_all will_id guardians (update₂ votes will_id g.address none)

unfoldable pub reset_guardian_votes : Will → Env → Env
reset_guardian_votes will env = record env {
  guardian_vote = clear_all will.id will.guardians env.guardian_vote;
}

unfoldable pub reset_guardian_cancel_votes : Will → Env → Env
reset_guardian_cancel_votes will env = record env {
  guardian_cancel_vote =
      if will.guardian_cancel_votes == 0
      then env.guardian_cancel_vote
      else clear_all will.id will.guardians env.guardian_cancel_vote;
}
