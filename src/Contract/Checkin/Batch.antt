-- ===== src/Contract/Checkin/Batch.antt =====
-- What `batch_check_in` requires of the whole batch.
use sorowill_contracts.Prelude.{
  ℕ, ◌≤◌, ◌≡◌, refl, Bool, true, not, ◌&&◌, List, [], ◌∷◌, length, contains, All, arith,
}
use sorowill_contracts.Errors.{ok, run_both}
use sorowill_contracts.Types.{Address, Will, active}
use sorowill_contracts.Env.{Env}
use sorowill_contracts.Storage.Wills.{load_will}
use sorowill_contracts.Validation.{load_owned, assert_status}
use sorowill_contracts.Contract.Checkin.{
  max_batch_check_in, assert_within_limit, assert_no_duplicates, prevalidate_check_in,
  batch_check_in,
}

unfoldable pub are_distinct : List ℕ → Bool
are_distinct [] = true
are_distinct (id ∷ ids) = not (contains ids id) && are_distinct ids

no_duplicates :
    (ids : List ℕ) {u : Unit {0}} → assert_no_duplicates ids ≡ ok u → are_distinct ids ≡ true
unfolding assert_no_duplicates are_distinct
no_duplicates [] h = refl
no_duplicates (id ∷ ids) h = ground (arith, no_duplicates ids)

-- The id is that of an active will of the owner.
abbrev pub IsCheckable : Address → Env → ℕ → Type 0
IsCheckable owner env id =
    (w : Will) × (load_will id env ≡ ok w) × (w.owner ≡ owner) × (w.status ≡ active)

checkable :
    (ids : List ℕ) (owner : Address) (env : Env) {u : Unit {0}}
    → prevalidate_check_in ids owner env ≡ ok u
    → All (IsCheckable owner env) ids
unfolding prevalidate_check_in load_owned assert_status
checkable [] owner env h = tt
checkable (id ∷ ids) owner env h =
    let (_, h₁, rest) = run_both _ (λ _. prevalidate_check_in ids owner env) h in
    let (w, h₂, status) = run_both (load_owned id owner env) _ h₁ in
    let (v, h₃, owned) = run_both (load_will id env) _ h₂ in
    let same : v ≡ w = ground arith in
    ((w, rw (← same) h₃, ground arith, ground arith), checkable ids owner env rest)

-- A batch of check-ins succeeds only as a whole: it has at most 50 ids, none of them twice, and each
-- is the id of an active will of the owner, who has signed the call.
pub batch_check_in-requires :
    (ids : List ℕ) (owner : Address) (env env' : Env)
    → batch_check_in ids owner env ≡ ok (tt, env')
    → (env.authorized owner ≡ true)
      × (length ids ≤ max_batch_check_in)
      × (are_distinct ids ≡ true)
      × All (IsCheckable owner env) ids
unfolding batch_check_in assert_within_limit
batch_check_in-requires ids owner env env' h =
    let passed : assert_no_duplicates ids ≡ ok tt = ground arith in
    let valid : prevalidate_check_in ids owner env ≡ ok tt = ground arith in
    (ground arith, ground arith, no_duplicates ids passed, checkable ids owner env valid)
