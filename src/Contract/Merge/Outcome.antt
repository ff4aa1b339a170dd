-- ===== src/Contract/Merge/Outcome.antt =====
-- When a merge succeeds, and the two wills that it stores.
use sorowill_contracts.Prelude.{
  ℕ, ◌≡◌, ◌≢◌, ◌∙◌, refl, ap, true, Option, some, List, [], ◌∷◌, update, arith,
}
use sorowill_contracts.Errors.{ok}
use sorowill_contracts.Prelude.Int.{pos}
use sorowill_contracts.Types.{Address, Beneficiary, Will, active, cancelled}
use sorowill_contracts.Env.{Env, Val, encoded}
use sorowill_contracts.Env.Action.{Action, lift, ◌>>=◌, ◌>>◌}
use sorowill_contracts.Env.Action.Keeps.{Keeps, Keeps-pure, Keeps-then}
use sorowill_contracts.Env.Action.Runs.{run_step, run_lift}
use sorowill_contracts.Storage.Wills.{load_will, save_will}
use sorowill_contracts.Storage.Wills.Saves.{wills_of}
use sorowill_contracts.Storage.Indexes.{remove_owner_index}
use sorowill_contracts.Storage.Stats.{decrement_active_will_count}
use sorowill_contracts.Storage.Votes.{reset_guardian_votes, reset_guardian_cancel_votes}
use sorowill_contracts.Validation.{load_owned, assert_status}
use sorowill_contracts.Contract.Create.{index_beneficiaries}
use sorowill_contracts.Contract.Transition.Frame.{
  saves_rules, decrement-same, remove_owner_index-same,
}
use sorowill_contracts.Contract.Transition.Settings.{index_by_beneficiary-Keeps}
use sorowill_contracts.Distribute.Payout.{remove_beneficiary_indexes}
use sorowill_contracts.Distribute.Payout.Frame.{wills-remove_beneficiary_indexes}
use sorowill_contracts.Contract.Merge.{
  merge, consumed_will, assert_mergeable, reset_all_votes, store_merge, record_merge, merge_wills,
}

pub index_beneficiaries-Keeps :
    (bs : List Beneficiary) (id : ℕ) → Keeps wills_of (index_beneficiaries bs id)
unfolding index_beneficiaries
index_beneficiaries-Keeps [] id = Keeps-pure tt
index_beneficiaries-Keeps (b ∷ bs) id =
    Keeps-then _ _ (index_by_beneficiary-Keeps b.address id) (index_beneficiaries-Keeps bs id)

record_merge-Keeps :
    (owner : Address) (a b : ℕ) (m : Will) → Keeps wills_of (record_merge owner a b m)
unfolding record_merge
record_merge-Keeps owner a b m = search (saves_rules, index_beneficiaries-Keeps) depth 12

reset_all_votes-same : (w : Will) (env : Env) → wills_of (reset_all_votes w env) ≡ wills_of env
unfolding reset_all_votes reset_guardian_votes reset_guardian_cancel_votes
reset_all_votes-same w env = refl

save_will-wills :
    (w : Will) (env env' : Env)
    → save_will w env ≡ ok (tt, env')
    → env'.wills ≡ update env.wills w.id (some (encoded w))
unfolding save_will
save_will-wills w env env' h = ground arith

-- The environment in which the wills are saved.
abbrev cleared : Address → ℕ → Will → Will → Env → Env
cleared owner b will_a will_b env = remove_owner_index owner b (
    decrement_active_will_count (
      remove_beneficiary_indexes will_b.beneficiaries b
        (reset_all_votes will_b (reset_all_votes will_a env))))

cleared-same :
    (owner : Address) (b : ℕ) (will_a will_b : Will) (env : Env)
    → wills_of (cleared owner b will_a will_b env) ≡ wills_of env
cleared-same owner b will_a will_b env =
    remove_owner_index-same owner b _
    ∙ decrement-same _
    ∙ wills-remove_beneficiary_indexes will_b.beneficiaries b _
    ∙ reset_all_votes-same will_b _
    ∙ reset_all_votes-same will_a env

-- The stored wills after a merge: the survivor, and the other one emptied.
abbrev pub merged_wills : Env → Will → Will → ℕ → Option Val
merged_wills env m will_b = update (update env.wills m.id (some (encoded m))) will_b.id (
    some (
      encoded (record will_b {
        balances = [];
        balance = pos 0;
        status = cancelled;
        guardian_votes = 0;
        guardian_cancel_votes = 0;
      })))

store_merge-wills :
    (owner : Address) (b : ℕ) (will_a will_b m : Will) (env env' : Env)
    → store_merge owner b will_a will_b m env ≡ ok (tt, env')
    → env'.wills ≡ merged_wills env m will_b
unfolding store_merge
store_merge-wills owner b will_a will_b m env env' h =
    let (_, env₁, h₁, h₂) =
      run_step (save_will m) (λ _. save_will (consumed_will will_b))
        (cleared owner b will_a will_b env) h in
    save_will-wills (consumed_will will_b) env₁ env' h₂
    ∙ ap (λ (ws : ℕ → Option Val). update ws will_b.id (some (encoded (consumed_will will_b))))
        (save_will-wills m (cleared owner b will_a will_b env) env₁ h₁
          ∙ ap (λ (ws : ℕ → Option Val). update ws m.id (some (encoded m)))
              (cleared-same owner b will_a will_b env))

abbrev merge_tail : Address → ℕ → ℕ → Will → Will → Will → Action (Unit {0})
merge_tail owner a b will_a will_b m =
    store_merge owner b will_a will_b m >> record_merge owner a b m

merge_tail-wills :
    (owner : Address) (a b : ℕ) (env env' : Env) (will_a will_b : Will)
    → (lift (merge will_a will_b) >>= merge_tail owner a b will_a will_b) env ≡ ok (tt, env')
    → (m : Will) × (merge will_a will_b ≡ ok m) × (env'.wills ≡ merged_wills env m will_b)
merge_tail-wills owner a b env env' will_a will_b h =
    let (m, hm, stored) =
      run_lift (merge will_a will_b) (merge_tail owner a b will_a will_b) env h in
    let (_, env₁, h₁, h₂) =
      run_step (store_merge owner b will_a will_b m) (λ _. record_merge owner a b m) env stored in
    let kept = (record_merge-Keeps owner a b m).at env₁ env' tt h₂ in
    (m, hm, kept ∙ store_merge-wills owner b will_a will_b m env env₁ h₁)

merge_wills-tail :
    (owner : Address) (a b : ℕ) (env env' : Env) (will_a will_b : Will)
    → load_will a env ≡ ok will_a
    → load_will b env ≡ ok will_b
    → merge_wills owner a b env ≡ ok (tt, env')
    → (lift (merge will_a will_b) >>= merge_tail owner a b will_a will_b) env ≡ ok (tt, env')
unfolding merge_wills load_owned
merge_wills-tail owner a b env env' will_a will_b ea eb h = ground arith

merge-keeps :
    (will_a will_b m : Will)
    → merge will_a will_b ≡ ok m
    → (m.id ≡ will_a.id) × (m.owner ≡ will_a.owner) × (m.status ≡ will_a.status)
unfolding merge
merge-keeps will_a will_b m h = (ground arith, ground arith, ground arith)

-- The checks that a merge has passed.
abbrev pub IsMergeable : Env → Address → ℕ → ℕ → Will → Will → Type 0
IsMergeable env owner a b will_a will_b =
    (env.authorized owner ≡ true)
    × (a ≢ b)
    × (will_a.owner ≡ owner)
    × (will_b.owner ≡ owner)
    × (will_a.status ≡ active)
    × (will_b.status ≡ active)
    × (will_a.token ≡ will_b.token)

merge_wills-checks :
    (owner : Address) (a b : ℕ) (env env' : Env) (will_a will_b : Will)
    → load_will a env ≡ ok will_a
    → load_will b env ≡ ok will_b
    → merge_wills owner a b env ≡ ok (tt, env')
    → IsMergeable env owner a b will_a will_b
unfolding merge_wills load_owned assert_mergeable assert_status
merge_wills-checks owner a b env env' will_a will_b ea eb h = ground arith

-- A merge succeeds only for the owner of both wills, who has signed the call; the wills are two,
-- both active, of the same primary token. It stores the merged will, which has the id and the owner
-- of the first will and is active, and the second as cancelled, with no balances and no counted
-- votes and nothing else changed; every other will stays as it is.
pub merge_wills-outcome :
    (owner : Address) (a b : ℕ) (env env' : Env) (will_a will_b : Will)
    → load_will a env ≡ ok will_a
    → load_will b env ≡ ok will_b
    → merge_wills owner a b env ≡ ok (tt, env')
    → IsMergeable env owner a b will_a will_b
      × ((m : Will) × (merge will_a will_b ≡ ok m)
          × (m.id ≡ will_a.id)
          × (m.owner ≡ owner)
          × (m.status ≡ active)
          × (env'.wills ≡ merged_wills env m will_b))
merge_wills-outcome owner a b env env' will_a will_b ea eb h =
    let checks = merge_wills-checks owner a b env env' will_a will_b ea eb h in
    let (_, _, owned, _, live, _, _) = checks in
    let (m, made, stored) =
      merge_tail-wills owner a b env env' will_a will_b
        (merge_wills-tail owner a b env env' will_a will_b ea eb h) in
    let (same_id, same_owner, same_status) = merge-keeps will_a will_b m made in
    (checks, (m, made, same_id, same_owner ∙ owned, same_status ∙ live, stored))
