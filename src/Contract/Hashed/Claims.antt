-- ===== src/Contract/Hashed/Claims.antt =====
-- A claim that has succeeded, and the next one with the same preimage.
use sorowill_contracts.Prelude.{
  ℕ, ◌≡◌, ==_refl, refl, ap, ◌∙◌, Bool, false, update, true, Option, some, List, [], ◌∷◌, arith,
}
use sorowill_contracts.Errors.{already_claimed, contract_error, ok, err}
use sorowill_contracts.Types.{Address, Bytes, TokenMap, HashedBeneficiary, Will}
use sorowill_contracts.Env.{Env, Val, encoded}
use sorowill_contracts.Env.Action.{query, gets, transfer, ◌>>=◌, ◌>>◌}
use sorowill_contracts.Env.Action.Keeps.{Keeps, Keeps-pure, Keeps-bind, Keeps-then}
use sorowill_contracts.Env.Action.Runs.{run_auth, run_query}
use sorowill_contracts.Storage.Wills.{load_will, decode_will}
use sorowill_contracts.Storage.Wills.Saves.{wills_of, Stored, Saves}
use sorowill_contracts.Distribute.Plan.{Payments}
use sorowill_contracts.Contract.Transition.Frame.{saves_rules}
use sorowill_contracts.Contract.Hashed.{
  constant_time_bytes_eq, find_slot, claim_slot, found_slot, plan_claim, ClaimPlan, pay_claims,
  claimed_will, Crypto, claim_rest, reveal_and_claim,
}

slot_at :
    (hb : HashedBeneficiary) (hbs : List HashedBeneficiary) (digest : Bytes) (t : Bool)
    (found : HashedBeneficiary)
    → constant_time_bytes_eq hb.commitment digest ≡ t
    → (found_slot (find_slot hbs digest) ≡ ok found
        → found_slot (find_slot (claim_slot hbs digest) digest)
          ≡ err (contract_error already_claimed))
    → found_slot (find_slot (hb ∷ hbs) digest) ≡ ok found
    → found_slot (find_slot (claim_slot (hb ∷ hbs) digest) digest)
      ≡ err (contract_error already_claimed)
unfolding find_slot claim_slot
slot_at hb hbs digest true found e ih h = rw (e, e) refl
slot_at hb hbs digest false found e ih h = rw (e, e) (ih (rw e at h))

-- The slot that was claimed is the first of its commitment, and stays it.
found_slot-claim_slot :
    (hbs : List HashedBeneficiary) (digest : Bytes) (found : HashedBeneficiary)
    → found_slot (find_slot hbs digest) ≡ ok found
    → found_slot (find_slot (claim_slot hbs digest) digest) ≡ err (contract_error already_claimed)
unfolding find_slot claim_slot
found_slot-claim_slot [] digest found h = ground arith
found_slot-claim_slot (hb ∷ hbs) digest found h =
    slot_at hb hbs digest (constant_time_bytes_eq hb.commitment digest) found refl
      (found_slot-claim_slot hbs digest found) h

pub plan_claim-Keeps :
    (primary : Address) (bps unclaimed : ℕ) (balances : TokenMap) (plan : ClaimPlan)
    → Keeps wills_of (plan_claim primary bps unclaimed balances plan)
unfolding plan_claim
plan_claim-Keeps primary bps unclaimed [] plan = Keeps-pure plan
plan_claim-Keeps primary bps unclaimed ((token, total) ∷ balances) plan =
    let rest : (p : ClaimPlan) → Keeps wills_of (plan_claim primary bps unclaimed balances p) =
      λ p. plan_claim-Keeps primary bps unclaimed balances p in
    search (saves_rules, rest) depth 12

pub pay_claims-Keeps :
    (claimant : Address) (transfers : Payments) → Keeps wills_of (pay_claims claimant transfers)
unfolding pay_claims
pay_claims-Keeps claimant [] = Keeps-pure tt
pay_claims-Keeps claimant ((token, share) ∷ transfers) =
    Keeps-bind (gets (λ env. env.contract_address))
      (λ contract.
        transfer (record { token = token; source = contract; recipient = claimant; amount = share })
        >> pay_claims claimant transfers)
      (search saves_rules)
      (λ contract.
        Keeps-then (transfer _) (pay_claims claimant transfers) (search saves_rules)
          (pay_claims-Keeps claimant transfers))

module _ (crypto : Crypto) where
  -- What is stored where a claim on this will succeeds: the slot, which was open, is claimed.
  abbrev IsClaimed : Bytes → Will → Will → Type 0
  IsClaimed digest w v =
      (v.id ≡ w.id)
      × (v.hashed_beneficiaries ≡ claim_slot w.hashed_beneficiaries digest)
      × ((hb : HashedBeneficiary) × (found_slot (find_slot w.hashed_beneficiaries digest) ≡ ok hb))

  claimed_will-IsClaimed :
      (w : Will) (digest : Bytes) (balances : TokenMap) (hb : HashedBeneficiary)
      → found_slot (find_slot w.hashed_beneficiaries digest) ≡ ok hb
      → IsClaimed digest w (claimed_will w digest balances)
  claimed_will-IsClaimed w digest balances hb h = (refl, refl, (hb, h))

  claim_rest-Saves :
      (w : Will) (id : ℕ) (claimant : Address) (preimage : Bytes)
      → Saves (IsClaimed (crypto.sha256 preimage) w) (claim_rest crypto id claimant preimage w)
  unfolding claim_rest
  claim_rest-Saves w id claimant preimage =
      search (saves_rules, claimed_will-IsClaimed, plan_claim-Keeps, pay_claims-Keeps) depth 24 fits
        20000

  -- What a claim that succeeds has loaded and what it stores.
  claim-stores :
      (id : ℕ) (claimant : Address) (preimage : Bytes) (env env' : Env)
      → reveal_and_claim crypto id claimant preimage env ≡ ok (tt, env')
      → (w : Will) × (load_will id env ≡ ok w)
        × Stored (IsClaimed (crypto.sha256 preimage) w) (wills_of env) (wills_of env')
  unfolding reveal_and_claim
  claim-stores id claimant preimage env env' h =
      let k = claim_rest crypto id claimant preimage in
      let (_, signed) = run_auth claimant (query (load_will id) >>= k) env h in
      let (w, loaded, rest) = run_query (load_will id) k env signed in
      (w, loaded, (claim_rest-Saves w id claimant preimage).at env env' tt rest)

  -- A will that is stored under its id is what loads.
  stored_loads :
      (id : ℕ) (v : Will) (f : ℕ → Option Val) (env env₁ : Env) {w₁ : Will}
      → wills_of env ≡ update f v.id (some (encoded v))
      → v.id ≡ id
      → env₁.wills id ≡ env.wills id
      → load_will id env₁ ≡ ok w₁
      → w₁ ≡ v
  unfolding load_will decode_will
  stored_loads id v f env env₁ stored same_id same loaded =
      let entry : env.wills id ≡ some (encoded v) =
        ap (λ (ws : ℕ → Option Val). ws id) stored ∙ rw (same_id, ==_refl) refl in
      ground (arith, same, entry)

  no_open_slot :
      (hbs : List HashedBeneficiary) (digest : Bytes) (hb hb₁ : HashedBeneficiary)
      → found_slot (find_slot hbs digest) ≡ ok hb
      → ¬ (found_slot (find_slot (claim_slot hbs digest) digest) ≡ ok hb₁)
  no_open_slot hbs digest hb hb₁ found h =
      let closed = found_slot-claim_slot hbs digest hb found in cc

  -- A preimage is claimed at most once: after a successful claim on a will that is stored under its
  -- own id, as long as the entry of that id is not written again, no claim by anybody with the same
  -- preimage succeeds.
  pub reveal_and_claim-once :
      (id : ℕ) (claimant other : Address) (preimage : Bytes) (env env' env₁ env₂ : Env)
      → ((w : Will) → load_will id env ≡ ok w → w.id ≡ id)
      → reveal_and_claim crypto id claimant preimage env ≡ ok (tt, env')
      → env₁.wills id ≡ env'.wills id
      → ¬ (reveal_and_claim crypto id other preimage env₁ ≡ ok (tt, env₂))
  reveal_and_claim-once id claimant other preimage env env' env₁ env₂ ids h same again =
      let (w, loaded, (v, stored, (same_id, slots, (hb, found)))) =
        claim-stores id claimant preimage env env' h in
      let (w₁, loaded₁, (_, _, (_, _, (hb₁, found₁)))) =
        claim-stores id other preimage env₁ env₂ again in
      let now_v : w₁ ≡ v =
        stored_loads id v (wills_of env) env' env₁ stored (same_id ∙ ids w loaded) same loaded₁ in
      no_open_slot w.hashed_beneficiaries (crypto.sha256 preimage) hb hb₁ found
        (rw (now_v, slots) at found₁)
