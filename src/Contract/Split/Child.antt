-- ===== src/Contract/Split/Child.antt =====
-- The new will of a split, and the wills that stay.
use sorowill_contracts.Prelude.{ℕ, ◌+◌, ◌≤◌, ◌≡◌, ◌≢◌, ◌∙◌, refl, ap, List, [], ◌∷◌, arith}
use sorowill_contracts.Errors.{ok}
use sorowill_contracts.Types.{Address, Beneficiary, Will, active}
use sorowill_contracts.Env.{Env}
use sorowill_contracts.Env.Action.{Action, pure, gets, ◌>>=◌, ◌>>◌}
use sorowill_contracts.Env.Action.Keeps.{keeps_rules}
use sorowill_contracts.Env.Action.Runs.{run_step}
use sorowill_contracts.Storage.Stats.{id_or_zero, next_will_id}
use sorowill_contracts.Storage.Wills.{save_will}
use sorowill_contracts.Storage.Indexes.{index_by_owner, remove_beneficiary_index}
use sorowill_contracts.Contract.Fresh.{
  book, last_id, Entry, Numbers, Numbers-next, Fills-now, Fills-store, Fills-bind, Rests-bind,
  Rests-pure, save_will-Stores,
}
use sorowill_contracts.Contract.Fresh.Frame
use sorowill_contracts.Distribute.Payout.{remove_beneficiary_indexes}
use sorowill_contracts.Contract.Create.{index_beneficiaries}
use sorowill_contracts.Contract.Split.{SplitPlan, split_source, split_child, store_parts}

-- The new will of a split.
abbrev pub IsChild : Address → Address → ℕ → ℕ → Will → Type 0
IsChild owner token now id w =
    (w.id ≡ id)
    × (w.owner ≡ owner)
    × (w.token ≡ token)
    × (w.status ≡ active)
    × (w.last_checkin ≡ now)

IsChild-holds :
    (source : Will) (plan : SplitPlan) (id : ℕ) (token : Address) (now : ℕ)
    → IsChild source.owner token now id (split_child source plan id token now)
IsChild-holds source plan id token now = (refl, refl, refl, refl, refl)

-- The part of `store_parts` after the source is saved.
abbrev store_child : Will → Address → SplitPlan → Action ℕ
store_child source token plan = do
  new_id ← next_will_id
  now ← gets (λ env. env.now)
  index_beneficiaries plan.moved new_id
  save_will (split_child source plan new_id token now)
  index_by_owner source.owner new_id
  pure new_id

store_child-Numbers :
    (source : Will) (token : Address) (plan : SplitPlan)
    → Numbers (IsChild source.owner token) (store_child source token plan)
store_child-Numbers source token plan =
    search
      (
        keeps_rules, Numbers-next, Fills-now, Fills-store, Fills-bind, Rests-bind, Rests-pure,
        Frame.index_beneficiaries-Keeps, Frame.index_by_owner-Keeps, save_will-Stores,
        IsChild-holds,
      )
      depth 40

removed-same :
    (bs : List Beneficiary) (id : ℕ) (env : Env) (j : ℕ)
    → book j (remove_beneficiary_indexes bs id env) ≡ book j env
unfolding remove_beneficiary_indexes remove_beneficiary_index
removed-same [] id env j = refl
removed-same (b ∷ bs) id env j = removed-same bs id (remove_beneficiary_index b.address id env) j

-- What the new will of a split is, and what stays: of the earlier wills only the source is written.
abbrev pub AddsOne : Env → Env → Will → Address → ℕ → ℕ → Type 0
AddsOne env env' source token new_id j =
    (new_id ≡ last_id env + 1)
    × Entry env'.wills new_id (IsChild source.owner token env.now new_id)
    × (env'.wills j ≡ env.wills j)

saved_source :
    (w : Will) (env env' : Env) (j : ℕ)
    → save_will w env ≡ ok (tt, env')
    → j ≢ w.id
    → (env'.next_will_id ≡ env.next_will_id) × (env'.now ≡ env.now) × (env'.wills j ≡ env.wills j)
unfolding save_will
saved_source w env env' j h other = ground arith

pub store_parts-AddsOne :
    (id : ℕ) (source : Will) (moved : List Beneficiary) (token : Address) (plan : SplitPlan)
    (env env' : Env) (new_id j : ℕ)
    → store_parts id source moved token plan env ≡ ok (new_id, env')
    → j ≤ last_id env
    → j ≢ source.id
    → AddsOne env env' source token new_id j
unfolding store_parts
store_parts-AddsOne id source moved token plan env env' new_id j h old other =
    let env₀ = remove_beneficiary_indexes moved id env in
    let (_, env₁, h₁, h₂) =
      run_step (save_will (split_source source plan)) (λ _. store_child source token plan) env₀ h in
    let (counter, time, kept) = saved_source (split_source source plan) env₀ env₁ j h₁ other in
    let before : book j env₀ ≡ book j env = removed-same moved id env j in
    let last : last_id env₁ ≡ last_id env = ap id_or_zero (counter ∙ ap (λ b. (b.0).0) before) in
    let at_now : env₁.now ≡ env.now = time ∙ ap (λ b. (b.0).1) before in
    let (next, _, _, (w, stored, child), others) =
      (store_child-Numbers source token plan).at env₁ env' new_id h₂ in
    (
      rw (← last) next,
      (w, stored, rw (← at_now) child),
      others j (rw last old) ∙ kept ∙ ap (λ b. b.1) before,
    )
