-- ===== src/Storage/Wills/RoundTrip.antt =====
-- Storing a will and loading it, and the votes of the guardians that a new list drops.
use sorowill_contracts.Prelude.{
  ℕ, ◌≡◌, refl, ◌&&◌, not, Option, none, some, List, [], ◌∷◌, ◌==◌, arith, update₂, if◌then◌else◌,
}
use sorowill_contracts.Errors.{ok}
use sorowill_contracts.Types.{Address, Guardian, GuardianVoteRecord, Will}
use sorowill_contracts.Env.{Env, encoded}
use sorowill_contracts.Storage.Wills.{
  decode_will, load_will, is_guardian, forget_removed, save_will,
}

forget_removed-at :
    (id : ℕ) (previous current : List Guardian) (votes : ℕ → Address → Option GuardianVoteRecord)
    (a : Address)
    → forget_removed id previous current votes id a
      ≡ (if is_guardian previous a && not (is_guardian current a) then none else votes id a)
unfolding forget_removed is_guardian
forget_removed-at id [] current votes a = refl
forget_removed-at id (g ∷ previous) current votes a = ground (
  arith,
  forget_removed-at id previous current
      (if is_guardian current g.address then votes else update₂ votes id g.address none) a,
)

-- A will that is saved loads as it was saved, and every other will loads as before.
pub load_will-save_will :
    (w : Will) (env env' : Env) (id : ℕ)
    → save_will w env ≡ ok (tt, env')
    → load_will id env' ≡ (if id == w.id then ok w else load_will id env)
unfolding load_will save_will decode_will
load_will-save_will w env env' id h = ground arith

-- Saving a will over an older one drops, of that will's votes to release, those of the guardians of
-- the old list that the new list does not name, and keeps every other.
guardian_vote-save_will :
    (v w : Will) (env env' : Env) (a : Address)
    → env.wills w.id ≡ some (encoded v)
    → save_will w env ≡ ok (tt, env')
    → env'.guardian_vote w.id a ≡ (
        if is_guardian v.guardians a && not (is_guardian w.guardians a)
        then none
        else env.guardian_vote w.id a)
unfolding save_will
guardian_vote-save_will v w env env' a found h =
    ground (arith, forget_removed-at w.id v.guardians w.guardians env.guardian_vote a)
