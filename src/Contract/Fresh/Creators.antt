-- ===== src/Contract/Fresh/Creators.antt =====
-- The ids that the creators of wills give out, the wills that they store under them, and those that
-- were there before.
use sorowill_contracts.Prelude.{
  ℕ, zero, suc, ◌+◌, ◌≤◌, ◌≡◌, ◌∙◌, refl, ap, Option, some, List, [], ◌∷◌, length, arith,
}
use sorowill_contracts.Prelude.Int.{ℤ}
use sorowill_contracts.Errors.{ok}
use sorowill_contracts.Types.{Address, TokenMap, Beneficiary, Will, WillStatus, active}
use sorowill_contracts.Env.{Env, Val, encoded, batch_created}
use sorowill_contracts.Env.Action.Runs.{run_step, run_auth}
use sorowill_contracts.Env.Action.{Action, pure, publish, ◌>>=◌, ◌>>◌}
use sorowill_contracts.Env.Action.Runs.{run_step}
use sorowill_contracts.Contract.Clone.{clone_will, cloned_will}
use sorowill_contracts.Contract.Batch.{WillSpec, create_one}
use sorowill_contracts.Contract.Fresh.{last_id, Numbers, Entry, save_will-Stores}
use sorowill_contracts.Contract.Fresh.Frame.{
  index_by_owner-Keeps, record_transition-Keeps, increment-Keeps,
}
use sorowill_contracts.Contract.Create.{create_will, created_will}
use sorowill_contracts.Contract.Batch.{create_all, batch_max, batch_create_wills}
use sorowill_contracts.Contract.Fresh.Deposits.{
  AreDeposited, Numbers-take_deposits, Numbers-deposit,
}
use sorowill_contracts.Contract.Fresh.New.{
  IsNew, addresses-new_guardians, IsSpecified, IsSpecified-holds, fresh_rules, lock_tokens-Keeps,
  first_status, Fills-status,
}

create_one-Numbers :
    (owner : Address) (spec : WillSpec) → Numbers (IsSpecified owner spec) (create_one owner spec)
unfolding create_one
create_one-Numbers owner spec =
    search (fresh_rules, Numbers-take_deposits, IsSpecified-holds) depth 60

module _ (owner : Address) (tokens : List (ℕ × ℤ)) (beneficiaries : List Beneficiary)
    (checkin grace : ℕ) (guardians : List Address) (delay : ℕ) where
  abbrev pub IsCreated : ℕ → ℕ → Will → Type 0
  IsCreated = IsNew owner tokens beneficiaries checkin grace guardians (first_status delay)

  IsCreated-holds :
      (id : ℕ) (balances : TokenMap) (threshold bounty : ℕ) (r : WillStatus × Option ℕ) (now : ℕ)
      → AreDeposited tokens balances
      → r.0 ≡ first_status delay
      → IsCreated now id (
          created_will id owner tokens balances beneficiaries checkin grace guardians threshold
            bounty
            (r.0)
            (r.1)
            now)
  IsCreated-holds id balances threshold bounty r now held e =
      let guarded = addresses-new_guardians guardians in
      (refl, refl, held, refl, refl, refl, refl, refl, refl, guarded, e, refl, refl, refl, refl)

  create_will-Numbers :
      (threshold : ℕ) (bounty : Option ℕ)
      → Numbers IsCreated
          (create_will owner tokens beneficiaries checkin grace guardians threshold bounty delay)
  unfolding create_will
  create_will-Numbers threshold bounty =
      search
        (
          fresh_rules, Fills-status, IsCreated-holds, Numbers-deposit, lock_tokens-Keeps,
          save_will-Stores, index_by_owner-Keeps, increment-Keeps, record_transition-Keeps,
        )
        depth 80

-- A will that is created gets the id after the last one that was given out and is stored under it:
-- for its owner, holding of every token what was deposited of it, with the first token as its primary
-- one, the beneficiaries, periods and guardians that are given, no hashed beneficiary and no votes,
-- checked in now, waiting for a confirmation if a delay for it is asked for and active otherwise.
-- Every will of an earlier id stays as it is.
pub create_will-fresh :
    (owner : Address) (tokens : List (ℕ × ℤ)) (beneficiaries : List Beneficiary) (checkin grace : ℕ)
    (guardians : List Address) (threshold : ℕ) (bounty : Option ℕ) (delay : ℕ) (env env' : Env)
    (id j : ℕ)
    → create_will owner tokens beneficiaries checkin grace guardians threshold bounty delay env
      ≡ ok (id, env')
    → j ≤ last_id env
    → (id ≡ last_id env + 1)
      × (last_id env' ≡ id)
      × Entry env'.wills id
          (IsCreated owner tokens beneficiaries checkin grace guardians delay env.now id)
      × (env'.wills j ≡ env.wills j)
create_will-fresh owner tokens beneficiaries checkin grace guardians threshold bounty delay env env'
      id j h old =
    let (next, counter, _, entry, kept) =
      (create_will-Numbers owner tokens beneficiaries checkin grace guardians delay threshold
          bounty).at
        env env' id h in
    (next, counter, entry, kept j old)

abbrev pub IsClone : Address → ℕ → ℕ → Will → Type 0
IsClone owner now id w =
    (w.id ≡ id) × (w.owner ≡ owner) × (w.status ≡ active) × (w.last_checkin ≡ now)

cloned-IsClone :
    (source : Will) (id : ℕ) (owner : Address) (balances : TokenMap) (token : Address) (balance : ℤ)
    (now : ℕ)
    → IsClone owner now id (cloned_will source id owner balances token balance now)
cloned-IsClone source id owner balances token balance now = (refl, refl, refl, refl)

clone_will-Numbers :
    (source : ℕ) (owner : Address) (tokens : List (ℕ × ℤ))
    → Numbers (IsClone owner) (clone_will source owner tokens)
unfolding clone_will
clone_will-Numbers source owner tokens = search (fresh_rules, cloned-IsClone) depth 60

-- A clone gets the next id as well, and is stored under it as an active will of its owner, checked in
-- now; in particular its source stays as it is, if its id is one that was given out.
pub clone_will-fresh :
    (source : ℕ) (owner : Address) (tokens : List (ℕ × ℤ)) (env env' : Env) (id j : ℕ)
    → clone_will source owner tokens env ≡ ok (id, env')
    → j ≤ last_id env
    → (id ≡ last_id env + 1)
      × (last_id env' ≡ id)
      × Entry env'.wills id (IsClone owner env.now id)
      × (env'.wills j ≡ env.wills j)
clone_will-fresh source owner tokens env env' id j h old =
    let (next, counter, _, entry, kept) =
      (clone_will-Numbers source owner tokens).at env env' id h in
    (next, counter, entry, kept j old)

-- The `count` numbers after `last`.
abbrev pub numbers_after : ℕ → ℕ → List ℕ
numbers_after last zero = []
numbers_after last (suc count) = (last + 1) ∷ numbers_after (last + 1) count

-- Each description has its will, under the ids after `last` in order.
unfoldable pub AreStored : (ℕ → Option Val) → Address → ℕ → ℕ → List WillSpec → Type 0
AreStored wills owner now last [] = Unit {0}
AreStored wills owner now last (spec ∷ specs) =
    Entry wills (last + 1) (IsSpecified owner spec now (last + 1))
    × AreStored wills owner now (last + 1) specs

moved_wills :
    (owner : Address) (now last : ℕ) (specs : List WillSpec) (before after : ℕ → Option Val)
    → after ≡ before
    → AreStored before owner now last specs
    → AreStored after owner now last specs
moved_wills owner now last specs before after e stored = rw e stored

create_all-fresh :
    (owner : Address) (specs : List WillSpec) (env env' : Env) (ids : List ℕ)
    → create_all owner specs env ≡ ok (ids, env')
    → (ids ≡ numbers_after (last_id env) (length specs))
      × AreStored env'.wills owner env.now (last_id env) specs
      × ((j : ℕ) → j ≤ last_id env → env'.wills j ≡ env.wills j)
unfolding create_all AreStored
create_all-fresh owner [] env env' ids h = (ground arith, tt, λ j old. ground arith)
create_all-fresh owner (spec ∷ specs) env env' ids h =
    let (id, env₁, made, rest) =
      run_step (create_one owner spec) (λ id. create_all owner specs >>= λ ids. pure (id ∷ ids)) env
        h in
    let (more, env₂, all_made, done) =
      run_step (create_all owner specs) (λ ids. pure (id ∷ ids)) env₁ rest in
    let (next, counter, time, (w, stored, new), kept) =
      (create_one-Numbers owner spec).at env env₁ id made in
    let (numbers, others, kept_later) = create_all-fresh owner specs env₁ env₂ more all_made in
    let last : last_id env₁ ≡ last_id env + 1 = counter ∙ next in
    let listed : more ≡ numbers_after (last_id env + 1) (length specs) = rw (← last) numbers in
    let result : ids ≡ id ∷ more = ground arith in
    let wills : env'.wills ≡ env₂.wills = ground arith in
    let still : env₂.wills id ≡ some (encoded w) = kept_later id (omega arith) ∙ stored in
    let first : Entry env₂.wills (last_id env + 1)
        (IsSpecified owner spec env.now (last_id env + 1)) =
      (w, rw (← next) still, rw (← next) new) in
    let later : AreStored env₂.wills owner env.now (last_id env + 1) specs =
      rw (← last, ← time) others in
    (
      result ∙ rw (next, listed) refl,
      moved_wills owner env.now (last_id env) (spec ∷ specs) env₂.wills env'.wills wills
          (first, later),
      λ j old. ap (λ (f : ℕ → Option Val). f j) wills ∙ kept_later j (omega arith) ∙ kept j old,
    )

-- A batch makes one to ten wills: they get the ids after the last one that was given out, in the
-- order of their descriptions, and each is stored under its id for the owner, holding what its
-- description deposits, with the primary token, beneficiaries, periods and guardians described, no
-- hashed beneficiary and no votes, active and checked in now. Every will of an earlier id stays as it
-- is.
pub batch_create_wills-fresh :
    (owner : Address) (specs : List WillSpec) (env env' : Env) (ids : List ℕ) (j : ℕ)
    → batch_create_wills owner specs env ≡ ok (ids, env')
    → j ≤ last_id env
    → (1 ≤ length specs)
      × (length specs ≤ batch_max)
      × (ids ≡ numbers_after (last_id env) (length specs))
      × AreStored env'.wills owner env.now (last_id env) specs
      × (env'.wills j ≡ env.wills j)
unfolding batch_create_wills
batch_create_wills-fresh owner specs env env' ids j h old =
    let announced : List ℕ → Action (List ℕ) =
      λ ids. (publish (batch_created owner ids) >> pure ids) in
    let created : Action (List ℕ) = create_all owner specs >>= announced in
    let (_, h₁) = run_auth owner _ env h in
    let few : (1 ≤ length specs) × (length specs ≤ batch_max) = ground arith in
    let h₂ : created env ≡ ok (ids, env') = ground arith in
    let (made, env₁, all_made, done) = run_step (create_all owner specs) announced env h₂ in
    let (numbers, stored, kept) = create_all-fresh owner specs env env₁ made all_made in
    let same : ids ≡ made = ground arith in
    let stays : env'.wills ≡ env₁.wills = ground arith in
    (
      few.0,
      few.1,
      same ∙ numbers,
      rw stays stored,
      ap (λ (w : ℕ → Option Val). w j) stays ∙ kept j old,
    )
