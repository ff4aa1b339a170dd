-- ===== src/Contract/Split/Count.antt =====
-- What a split does to the stored wills and to the count of active wills.
use sorowill_contracts.Prelude.{ℕ, ◌+◌, ◌≤◌, ◌≡◌, ◌≢◌, ◌∙◌, refl, ap, Option, List, [], ◌∷◌, arith}
use sorowill_contracts.Prelude.Int.{ℤ}
use sorowill_contracts.Errors.{ok, will_not_active}
use sorowill_contracts.Types.{Address, Symbol, Beneficiary, ProtocolStats, Will, WillStatus, active}
use sorowill_contracts.Env.{Env, Event}
use sorowill_contracts.Env.Action.{Action, lift, query, publish, ◌>>=◌, ◌>>◌}
use sorowill_contracts.Env.Action.Keeps.{Keeps, Keeps-pure, Keeps-then, keeps_rules}
use sorowill_contracts.Env.Action.Runs.{run_auth, run_step, run_query, run_lift}
use sorowill_contracts.Storage.Stats.{
  next_will_id, increment_active_will_count, get_protocol_stats, stats_or_empty,
}
use sorowill_contracts.Storage.Wills.{load_will, save_will}
use sorowill_contracts.Contract.Transition.Rules.{assert_status-eq-ok}
use sorowill_contracts.Storage.Indexes.{
  index_by_owner, index_by_beneficiary, remove_beneficiary_index,
}
use sorowill_contracts.Storage.History.{record_transition, append_history, next_history_seq}
use sorowill_contracts.Contract.Fresh.{last_id, Rests-bind, Rests-pure, Rests}
use sorowill_contracts.Contract.Fresh.Frame
use sorowill_contracts.Validation.{load_owned, assert_status}
use sorowill_contracts.Distribute.Payout.{remove_beneficiary_indexes}
use sorowill_contracts.Contract.Create.{index_beneficiaries, primary_token}
use sorowill_contracts.Contract.Split.Child.{AddsOne, store_parts-AddsOne}
use sorowill_contracts.Contract.Split.{
  SplitPlan, plan_split, store_parts, announce_split, store_split, split_will,
}

abbrev stats_of : Env → Option ProtocolStats
stats_of env = env.protocol_stats

save_will-Keeps : (w : Will) → Keeps stats_of (save_will w)
unfolding save_will
save_will-Keeps w = record { at = λ env env' u h. ground arith }

next_will_id-Keeps : Keeps stats_of next_will_id
unfolding next_will_id
next_will_id-Keeps = record { at = λ env env' u h. ground arith }

index_by_owner-Keeps : (a : Address) (id : ℕ) → Keeps stats_of (index_by_owner a id)
unfolding index_by_owner
index_by_owner-Keeps a id = record { at = λ env env' u h. ground arith }

index_by_beneficiary-Keeps : (a : Address) (id : ℕ) → Keeps stats_of (index_by_beneficiary a id)
unfolding index_by_beneficiary
index_by_beneficiary-Keeps a id = record { at = λ env env' u h. ground arith }

index_beneficiaries-Keeps :
    (bs : List Beneficiary) (id : ℕ) → Keeps stats_of (index_beneficiaries bs id)
unfolding index_beneficiaries
index_beneficiaries-Keeps [] id = Keeps-pure tt
index_beneficiaries-Keeps (b ∷ bs) id =
    Keeps-then _ _ (index_by_beneficiary-Keeps b.address id) (index_beneficiaries-Keeps bs id)

record_transition-Keeps :
    (id : ℕ) (s t : WillStatus) (a : Address) (x : Symbol)
    → Keeps stats_of (record_transition id s t a x)
unfolding record_transition append_history next_history_seq
record_transition-Keeps id s t a x = record { at = λ env env' u h. ground arith }

publish-Keeps : (e : Event) → Keeps stats_of (publish e)
publish-Keeps e = record { at = λ env env' u h. ground arith }

remove-same :
    (bs : List Beneficiary) (id : ℕ) (env : Env)
    → stats_of (remove_beneficiary_indexes bs id env) ≡ stats_of env
unfolding remove_beneficiary_indexes remove_beneficiary_index
remove-same [] id env = refl
remove-same (b ∷ bs) id env = remove-same bs id (remove_beneficiary_index b.address id env)

store_parts-Keeps :
    (id : ℕ) (source : Will) (moved : List Beneficiary) (token : Address) (plan : SplitPlan)
    → Keeps stats_of (store_parts id source moved token plan)
unfolding store_parts
store_parts-Keeps id source moved token plan =
    search
      (
        keeps_rules, save_will-Keeps, next_will_id-Keeps, index_by_owner-Keeps,
        index_beneficiaries-Keeps, remove-same,
      )
      depth 16

announce_split-Keeps :
    (id new_id : ℕ) (owner : Address) (source : Will) (token : Address) (plan : SplitPlan)
    → Keeps stats_of (announce_split id new_id owner source token plan)
unfolding announce_split
announce_split-Keeps id new_id owner source token plan =
    search (keeps_rules, record_transition-Keeps, publish-Keeps) depth 16

-- The count of active wills.
abbrev pub active_count : Env → ℕ
active_count env = (get_protocol_stats env).active_will_count

increment-adds :
    (env env' : Env)
    → increment_active_will_count env ≡ ok (tt, env')
    → active_count env' ≡ active_count env + 1
unfolding increment_active_will_count
increment-adds env env' h = ground arith

same_count : (env env' : Env) → stats_of env' ≡ stats_of env → active_count env' ≡ active_count env
same_count env env' e = ap (λ (s : Option ProtocolStats). (stats_or_empty s).active_will_count) e

announce_split-Rests :
    (id new_id : ℕ) (owner : Address) (source : Will) (token : Address) (plan : SplitPlan)
    → Rests new_id (announce_split id new_id owner source token plan)
unfolding announce_split
announce_split-Rests id new_id owner source token plan =
    search (keeps_rules, Rests-bind, Rests-pure, Frame.record_transition-Keeps, Frame.publish-Keeps)
      depth 30

-- The count goes up by two, and one will is added.
abbrev pub Effect : Env → Env → Will → Address → ℕ → ℕ → Type 0
Effect env env' source token new_id j =
    (active_count env' ≡ active_count env + 2) × AddsOne env env' source token new_id j

store_split-counts :
    (id : ℕ) (owner : Address) (source : Will) (moved : List Beneficiary) (token : Address)
    (plan : SplitPlan) (env env' : Env) (new_id j : ℕ)
    → store_split id owner source moved token plan env ≡ ok (new_id, env')
    → j ≤ last_id env
    → j ≢ source.id
    → Effect env env' source token new_id j
unfolding store_split
store_split-counts id owner source moved token plan env env' new_id j h old other =
    let (k, env₁, h₁, rest) =
      run_step (store_parts id source moved token plan)
        (λ k.
          increment_active_will_count
          >> (increment_active_will_count >> announce_split id k owner source token plan))
        env h in
    let (_, env₂, h₂, rest') =
      run_step increment_active_will_count
        (λ _. increment_active_will_count >> announce_split id k owner source token plan) env₁
        rest in
    let (_, env₃, h₃, h₄) =
      run_step increment_active_will_count (λ _. announce_split id k owner source token plan) env₂
        rest' in
    let first =
      same_count env env₁ ((store_parts-Keeps id source moved token plan).at env env₁ k h₁) in
    let one = increment-adds env₁ env₂ h₂ in
    let two = increment-adds env₂ env₃ h₃ in
    let last =
      same_count env₃ env'
        ((announce_split-Keeps id k owner source token plan).at env₃ env' new_id h₄) in
    let (gives, rests) =
      (announce_split-Rests id k owner source token plan).at env₃ env' new_id h₄ in
    let still : (i : ℕ) → env'.wills i ≡ env₁.wills i = λ i.
      ap (λ b. b.1)
        (rests i
          ∙ (Frame.increment-Keeps i).at env₂ env₃ tt h₃
          ∙ (Frame.increment-Keeps i).at env₁ env₂ tt h₂) in
    let (next, (w, stored, child), kept) =
      store_parts-AddsOne id source moved token plan env env₁ k j h₁ old other in
    (
      omega arith,
      (
        gives ∙ next,
        (w, ap (λ i. env'.wills i) gives ∙ still k ∙ stored, rw gives child),
        still j ∙ kept,
      ),
    )

owned_source :
    (id : ℕ) (owner : Address) (env : Env) (source found : Will)
    → load_will id env ≡ ok source
    → load_owned id owner env ≡ ok found
    → (source ≡ found) × (found.owner ≡ owner)
unfolding load_owned
owned_source id owner env source found loaded e = ground arith

-- The call from the point where the source is loaded.
abbrev split_loaded : ℕ → Address → List Beneficiary → List (ℕ × ℤ) → Will → Action ℕ
split_loaded id owner moved tokens source = do
  lift (assert_status source active will_not_active)
  plan ← lift (plan_split source moved tokens)
  store_split id owner source moved (primary_token tokens) plan

split_loaded-counts :
    (id : ℕ) (owner : Address) (moved : List Beneficiary) (tokens : List (ℕ × ℤ)) (env env' : Env)
    (source : Will) (new_id j : ℕ)
    → split_loaded id owner moved tokens source env ≡ ok (new_id, env')
    → j ≤ last_id env
    → j ≢ source.id
    → (source.status ≡ active) × Effect env env' source (primary_token tokens) new_id j
split_loaded-counts id owner moved tokens env env' source new_id j h old other =
    let stored : SplitPlan → Action ℕ =
      λ plan. store_split id owner source moved (primary_token tokens) plan in
    let (_, passed, h₁) =
      run_lift (assert_status source active will_not_active)
        (λ _. lift (plan_split source moved tokens) >>= stored) env h in
    let (plan, _, h₂) = run_lift (plan_split source moved tokens) stored env h₁ in
    (
      assert_status-eq-ok source active will_not_active passed,
      store_split-counts id owner source moved (primary_token tokens) plan env env' new_id j h₂ old
          other,
    )

split_found-counts :
    (id : ℕ) (owner : Address) (moved : List Beneficiary) (tokens : List (ℕ × ℤ)) (env env' : Env)
    (source found : Will) (new_id j : ℕ)
    → source ≡ found
    → split_loaded id owner moved tokens found env ≡ ok (new_id, env')
    → j ≤ last_id env
    → j ≢ source.id
    → (source.status ≡ active) × Effect env env' source (primary_token tokens) new_id j
split_found-counts id owner moved tokens env env' source found new_id j same h old other =
    split_loaded-counts id owner moved tokens env env' source new_id j
      (ap (λ w. split_loaded id owner moved tokens w env) same ∙ h) old other

pub split_will-counts_twice :
    (id : ℕ) (owner : Address) (moved : List Beneficiary) (tokens : List (ℕ × ℤ)) (env env' : Env)
    (source : Will) (new_id j : ℕ)
    → load_will id env ≡ ok source
    → split_will id owner moved tokens env ≡ ok (new_id, env')
    → j ≤ last_id env
    → j ≢ source.id
    → (source.status ≡ active)
      × (source.owner ≡ owner)
      × Effect env env' source (primary_token tokens) new_id j
unfolding split_will
split_will-counts_twice id owner moved tokens env env' source new_id j loaded h old other =
    let split = split_loaded id owner moved tokens in
    let (_, signed) = run_auth owner (query (load_owned id owner) >>= split) env h in
    let (found, e, h₁) = run_query (load_owned id owner) split env signed in
    let (same, owned) = owned_source id owner env source found loaded e in
    let (live, counts) =
      split_found-counts id owner moved tokens env env' source found new_id j same h₁ old other in
    (live, ap (λ (w : Will). w.owner) same ∙ owned, counts)
