-- ===== src/Contract/Fresh/Frame.antt =====
-- The steps of the creators of wills that leave the counter of ids and the other wills as they are.
use sorowill_contracts.Prelude.{ℕ, ◌≡◌, Bool, true, false, List, [], ◌∷◌, arith}
use sorowill_contracts.Prelude.Int.{ℤ, is_zero}
use sorowill_contracts.Types.{Address, Symbol, TokenMap, Beneficiary, Will, WillStatus}
use sorowill_contracts.Types.Balances.{set}
use sorowill_contracts.Env.{Event, Transfer}
use sorowill_contracts.Env.Action.{transfer, publish}
use sorowill_contracts.Env.Action.Keeps.{Keeps, Keeps-pure, Keeps-then, keeps_rules}
use sorowill_contracts.Storage.Stats.{
  increment_active_will_count, adjust_locked_value, adjust_unless_zero, adjust_locked_for_balances,
}
use sorowill_contracts.Storage.Wills.{save_will}
use sorowill_contracts.Storage.Indexes.{index_by_owner, index_by_beneficiary}
use sorowill_contracts.Storage.History.{record_transition, append_history, next_history_seq}
use sorowill_contracts.Contract.Fresh.{book, Stores, Stores-before, save_will-Stores}
use sorowill_contracts.Contract.Create.{index_beneficiaries}
use sorowill_contracts.Contract.Clone.{take_deposits, store_new_will}

module _ (j : ℕ) where
  pub transfer-Keeps : (t : Transfer) → Keeps (book j) (transfer t)
  transfer-Keeps t = record { at = λ env env' a h. ground arith }

  pub publish-Keeps : (e : Event) → Keeps (book j) (publish e)
  publish-Keeps e = record { at = λ env env' a h. ground arith }

  pub index_by_owner-Keeps : (a : Address) (id : ℕ) → Keeps (book j) (index_by_owner a id)
  unfolding index_by_owner
  index_by_owner-Keeps a id = record { at = λ env env' u h. ground arith }

  index_by_beneficiary-Keeps : (a : Address) (id : ℕ) → Keeps (book j) (index_by_beneficiary a id)
  unfolding index_by_beneficiary
  index_by_beneficiary-Keeps a id = record { at = λ env env' u h. ground arith }

  pub index_beneficiaries-Keeps :
      (bs : List Beneficiary) (id : ℕ) → Keeps (book j) (index_beneficiaries bs id)
  unfolding index_beneficiaries
  index_beneficiaries-Keeps [] id = Keeps-pure tt
  index_beneficiaries-Keeps (b ∷ bs) id =
      Keeps-then _ _ (index_by_beneficiary-Keeps b.address id) (index_beneficiaries-Keeps bs id)

  pub record_transition-Keeps :
      (id : ℕ) (s t : WillStatus) (a : Address) (x : Symbol)
      → Keeps (book j) (record_transition id s t a x)
  unfolding record_transition append_history next_history_seq
  record_transition-Keeps id s t a x = record { at = λ env env' u h. ground arith }

  pub increment-Keeps : Keeps (book j) increment_active_will_count
  unfolding increment_active_will_count
  increment-Keeps = record { at = λ env env' u h. ground arith }

  pub adjust_locked_value-Keeps : (t : Address) (x : ℤ) → Keeps (book j) (adjust_locked_value t x)
  unfolding adjust_locked_value
  adjust_locked_value-Keeps t x = record { at = λ env env' u h. ground arith }

  adjust_unless_zero-Keeps :
      (b : Bool) (t : Address) (s x : ℤ) → Keeps (book j) (adjust_unless_zero b t s x)
  unfolding adjust_unless_zero
  adjust_unless_zero-Keeps true t s x = Keeps-pure tt
  adjust_unless_zero-Keeps false t s x = search (keeps_rules, adjust_locked_value-Keeps)

  adjust_locked_for_balances-Keeps :
      (balances : TokenMap) (sign : ℤ) → Keeps (book j) (adjust_locked_for_balances balances sign)
  unfolding adjust_locked_for_balances
  adjust_locked_for_balances-Keeps [] sign = Keeps-pure tt
  adjust_locked_for_balances-Keeps ((t, x) ∷ balances) sign =
      Keeps-then (adjust_unless_zero (is_zero x) t sign x)
        (adjust_locked_for_balances balances sign) (adjust_unless_zero-Keeps (is_zero x) t sign x)
        (adjust_locked_for_balances-Keeps balances sign)

  pub take_deposits-Keeps :
      (owner : Address) (tokens : List (ℕ × ℤ)) (balances : TokenMap)
      → Keeps (book j) (take_deposits owner tokens balances)
  unfolding take_deposits
  take_deposits-Keeps owner [] balances = Keeps-pure balances
  take_deposits-Keeps owner ((token, amount) ∷ tokens) balances =
      let rest : (total : ℤ)
          → Keeps (book j) (take_deposits owner tokens (set balances token total)) =
        λ total. take_deposits-Keeps owner tokens (set balances token total) in
      search (keeps_rules, transfer-Keeps, rest) depth 12

pub store_new_will-Stores :
    (id : ℕ) (P : Will → Type 0) (w : Will) → w.id ≡ id → P w → Stores id P (store_new_will w)
unfolding store_new_will
store_new_will-Stores id P w named p =
    Stores-before id P (save_will w) _ (save_will-Stores id P w named p) (λ _ j.
      search
        (
          keeps_rules, index_by_owner-Keeps, increment-Keeps, adjust_locked_for_balances-Keeps,
          record_transition-Keeps,
        )
        depth 16)
