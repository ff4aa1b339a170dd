-- ===== src/Contract/Fresh/Deposits.antt =====
-- The balances that the deposits of a new will come to.
use sorowill_contracts.Prelude.{
  ℕ, ◌≡◌, ◌∙◌, refl, ◌==◌, Bool, true, false, List, [], ◌∷◌, arith, if◌then◌else◌,
}
use sorowill_contracts.Prelude.Int.{ℤ, pos, ◌+ℤ◌, leb_ℤ, add_zero, zero_add, add_assoc}
use sorowill_contracts.Errors.{ok, zero_amount, invalid_token}
use sorowill_contracts.Prelude.{not}
use sorowill_contracts.Types.{Address, TokenMap, Will}
use sorowill_contracts.Types.Balances.{get, get_or_zero, set}
use sorowill_contracts.Types.Balances.Lookup.{get_or_zero-set}
use sorowill_contracts.Env.{Env}
use sorowill_contracts.Env.Action.{Action, lift, gets, panic_if, transfer, add_i128, ◌>>=◌, ◌>>◌}
use sorowill_contracts.Env.Action.Runs.{run_step, run_lift}
use sorowill_contracts.Env.Action.Keeps.{Keeps, Keeps-pure, keeps_rules}
use sorowill_contracts.Contract.Fresh.{book, Numbers, Numbers-knowing}
use sorowill_contracts.Contract.Create.{deposit}
use sorowill_contracts.Contract.Clone.{take_deposits}
use sorowill_contracts.Contract.Fresh.Frame.{take_deposits-Keeps, transfer-Keeps}

-- What a list of deposits holds of a token in all.
unfoldable pub deposited : List (ℕ × ℤ) → Address → ℤ
deposited [] token = pos 0
deposited ((i, amount) ∷ tokens) token =
    let rest = deposited tokens token in (if i == token then amount +ℤ rest else rest)

-- A map of balances that holds what was deposited of every token, and no more.
abbrev pub AreDeposited : List (ℕ × ℤ) → TokenMap → Type 0
AreDeposited tokens balances =
    (token : Address) → get_or_zero balances token ≡ deposited tokens token

add_i128-eq-ok : (a b c : ℤ) → add_i128 a b ≡ ok c → c ≡ a +ℤ b
add_i128-eq-ok a b c h = ground arith

-- One deposit enters the map.
entered :
    (held : TokenMap) (i : ℕ) (amount s : ℤ) (tokens : List (ℕ × ℤ)) (j : ℕ) (t : Bool)
    → (i == j) ≡ t
    → add_i128 (get_or_zero held i) amount ≡ ok s
    → get_or_zero (set held i s) j +ℤ deposited tokens j
      ≡ get_or_zero held j +ℤ deposited ((i, amount) ∷ tokens) j
unfolding deposited
entered held i amount s tokens j true e h =
    let same : i ≡ j = ground arith in
    rw (get_or_zero-set, e, add_i128-eq-ok (get_or_zero held i) amount s h, same, add_assoc) refl
entered held i amount s tokens j false e h = rw (get_or_zero-set, e) refl

take_deposits-adds :
    (owner : Address) (tokens : List (ℕ × ℤ)) (held : TokenMap) (env env' : Env) (r : TokenMap)
    (token : Address)
    → take_deposits owner tokens held env ≡ ok (r, env')
    → get_or_zero r token ≡ get_or_zero held token +ℤ deposited tokens token
unfolding take_deposits deposited
take_deposits-adds owner [] held env env' r token h =
    let same : r ≡ held = ground arith in rw (same, add_zero) refl
take_deposits-adds owner ((i, amount) ∷ tokens) held env env' r token h =
    let later : ℤ → Action TokenMap = λ total. take_deposits owner tokens (set held i total) in
    let added : Action TokenMap = lift (add_i128 (get_or_zero held i) amount) >>= later in
    let sent : ℕ → Action TokenMap = λ contract.
      (transfer (record { token = i; source = owner; recipient = contract; amount = amount })
        >> added) in
    let (_, env₁, _, h₁) =
      run_step (panic_if (leb_ℤ amount (pos 0)) zero_amount)
        (λ _. gets (λ env. env.contract_address) >>= sent) env h in
    let (contract, env₂, _, h₂) = run_step (gets (λ env. env.contract_address)) sent env₁ h₁ in
    let (_, env₃, _, h₃) =
      run_step
        (transfer (record { token = i; source = owner; recipient = contract; amount = amount }))
        (λ _. added) env₂ h₂ in
    let (s, hs, h₄) = run_lift (add_i128 (get_or_zero held i) amount) later env₃ h₃ in
    take_deposits-adds owner tokens (set held i s) env₃ env' r token h₄
    ∙ entered held i amount s tokens token (i == token) refl hs

deposit-adds :
    (owner : Address) (tokens : List (ℕ × ℤ)) (held : TokenMap) (env env' : Env) (r : TokenMap)
    (token : Address)
    → deposit owner tokens held env ≡ ok (r, env')
    → get_or_zero r token ≡ get_or_zero held token +ℤ deposited tokens token
unfolding deposit deposited
deposit-adds owner [] held env env' r token h =
    let same : r ≡ held = ground arith in rw (same, add_zero) refl
deposit-adds owner ((i, amount) ∷ tokens) held env env' r token h =
    let later : ℤ → Action TokenMap = λ total. deposit owner tokens (set held i total) in
    let added : Action TokenMap = lift (add_i128 (get_or_zero held i) amount) >>= later in
    let sent : ℕ → Action TokenMap = λ contract.
      (transfer (record { token = i; source = owner; recipient = contract; amount = amount })
        >> added) in
    let checked : Bool → Action TokenMap = λ known.
      (panic_if (not known) invalid_token >> (gets (λ env. env.contract_address) >>= sent)) in
    let (_, env₁, _, h₁) =
      run_step (panic_if (leb_ℤ amount (pos 0)) zero_amount)
        (λ _. gets (λ env. env.answers_decimals i) >>= checked) env h in
    let (known, env₂, _, h₂) = run_step (gets (λ env. env.answers_decimals i)) checked env₁ h₁ in
    let (_, env₃, _, h₃) =
      run_step (panic_if (not known) invalid_token)
        (λ _. gets (λ env. env.contract_address) >>= sent) env₂ h₂ in
    let (contract, env₄, _, h₄) = run_step (gets (λ env. env.contract_address)) sent env₃ h₃ in
    let (_, env₅, _, h₅) =
      run_step
        (transfer (record { token = i; source = owner; recipient = contract; amount = amount }))
        (λ _. added) env₄ h₄ in
    let (s, hs, h₆) = run_lift (add_i128 (get_or_zero held i) amount) later env₅ h₅ in
    deposit-adds owner tokens (set held i s) env₅ env' r token h₆
    ∙ entered held i amount s tokens token (i == token) refl hs

deposit-Keeps :
    (j : ℕ) (owner : Address) (tokens : List (ℕ × ℤ)) (balances : TokenMap)
    → Keeps (book j) (deposit owner tokens balances)
unfolding deposit
deposit-Keeps j owner [] balances = Keeps-pure balances
deposit-Keeps j owner ((token, amount) ∷ tokens) balances =
    let rest : (total : ℤ) → Keeps (book j) (deposit owner tokens (set balances token total)) =
      λ total. deposit-Keeps j owner tokens (set balances token total) in
    search (keeps_rules, transfer-Keeps, rest) depth 16

empty_held : (token : Address) (x : ℤ) → get_or_zero [] token +ℤ x ≡ x
unfolding get_or_zero get
empty_held token x = zero_add x

-- The two loops as steps of an action that gives out an id.
pub Numbers-take_deposits :
    (P : ℕ → ℕ → Will → Type 0) (owner : Address) (tokens : List (ℕ × ℤ)) (f : TokenMap → Action ℕ)
    → ((balances : TokenMap) → AreDeposited tokens balances → Numbers P (f balances))
    → Numbers P (take_deposits owner tokens [] >>= f)
Numbers-take_deposits P owner tokens f nf =
    Numbers-knowing (AreDeposited tokens) P (take_deposits owner tokens []) f
      (λ env env' r h token.
        take_deposits-adds owner tokens [] env env' r token h
        ∙ empty_held token (deposited tokens token))
      (λ j. take_deposits-Keeps j owner tokens []) nf

pub Numbers-deposit :
    (P : ℕ → ℕ → Will → Type 0) (owner : Address) (tokens : List (ℕ × ℤ)) (f : TokenMap → Action ℕ)
    → ((balances : TokenMap) → AreDeposited tokens balances → Numbers P (f balances))
    → Numbers P (deposit owner tokens [] >>= f)
Numbers-deposit P owner tokens f nf =
    Numbers-knowing (AreDeposited tokens) P (deposit owner tokens []) f
      (λ env env' r h token.
        deposit-adds owner tokens [] env env' r token h ∙ empty_held token (deposited tokens token))
      (λ j. deposit-Keeps j owner tokens []) nf
