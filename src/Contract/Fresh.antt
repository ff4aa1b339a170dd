-- ===== src/Contract/Fresh.antt =====
-- Actions that give out the next id and fill its entry: rules along a sequence of steps.
pub mod Frame
pub mod Deposits
pub mod New
pub mod Creators
use sorowill_contracts.Prelude.{
  ℕ, suc, ◌+◌, ◌≤◌, ◌≡◌, ◌∙◌, refl, sym, ap, Bool, true, false, Option, some, List, [], ◌∷◌, ◌==◌,
  length, arith,
}
use sorowill_contracts.Prelude.Int.{ℤ, pos, is_zero}
use sorowill_contracts.Errors.{Result, ok, err}
use sorowill_contracts.Types.{Address, Symbol, TokenMap, Beneficiary, Will, WillStatus}
use sorowill_contracts.Types.Balances.{get_or_zero, set}
use sorowill_contracts.Env.{Env, Val, Event, Transfer, encoded}
use sorowill_contracts.Env.Action.{
  Action, pure, gets, lift, transfer, publish, resume, add_i128, ◌>>=◌, ◌>>◌,
}
use sorowill_contracts.Env.Action.Runs.{run_step}
use sorowill_contracts.Env.Action.Keeps.{Keeps, Keeps-pure, Keeps-then, keeps_rules}
use sorowill_contracts.Storage.Stats.{
  id_or_zero, next_will_id, increment_active_will_count, adjust_locked_value, adjust_unless_zero,
  adjust_locked_for_balances,
}
use sorowill_contracts.Storage.Wills.{save_will}
use sorowill_contracts.Storage.Indexes.{index_by_owner, index_by_beneficiary}
use sorowill_contracts.Storage.History.{record_transition, append_history, next_history_seq}
use sorowill_contracts.Contract.Create.{index_beneficiaries}
use sorowill_contracts.Contract.Clone.{take_deposits, store_new_will, clone_will}
use sorowill_contracts.Contract.Batch.{WillSpec, create_one}

-- The counter of ids, the time and the entry of one will.
abbrev pub book : ℕ → Env → (Option ℕ × ℕ) × Option Val
book j env = ((env.next_will_id, env.now), env.wills j)

-- The entry of this id is a will with the property.
abbrev pub Entry : (ℕ → Option Val) → ℕ → (Will → Type 0) → Type 0
Entry wills id P = (w : Will) × (wills id ≡ some (encoded w)) × P w

-- Where `m` succeeds, it has stored such a will under `id`, and written no other.
pub record Stores {A : Type 0} (id : ℕ) (P : Will → Type 0) (m : Action A) : Type 0 where
  pub at :
      (env env' : Env) (a : A)
      → m env ≡ ok (a, env')
      → Entry env'.wills id P
        × (env'.next_will_id ≡ env.next_will_id)
        × (env'.now ≡ env.now)
        × ((j : ℕ) → (id == j) ≡ false → env'.wills j ≡ env.wills j)

-- Where `m` succeeds, its result is `id`, and it leaves the counter, the time and the wills.
pub record Rests (id : ℕ) (m : Action ℕ) : Type 0 where
  pub at :
      (env env' : Env) (k : ℕ)
      → m env ≡ ok (k, env')
      → (k ≡ id) × ((j : ℕ) → book j env' ≡ book j env)

-- Where `m` succeeds at this time, its result is `id`, it has stored such a will under `id`, and
-- written no other.
pub record Fills (now id : ℕ) (P : Will → Type 0) (m : Action ℕ) : Type 0 where
  pub at :
      (env env' : Env) (k : ℕ)
      → env.now ≡ now
      → m env ≡ ok (k, env')
      → (k ≡ id)
        × Entry env'.wills id P
        × (env'.next_will_id ≡ env.next_will_id)
        × (env'.now ≡ env.now)
        × ((j : ℕ) → (id == j) ≡ false → env'.wills j ≡ env.wills j)

abbrev pub last_id : Env → ℕ
last_id env = id_or_zero env.next_will_id

-- Where `m` succeeds, it has given out the next id, stored such a will under it, and left the wills
-- of the earlier ids.
pub record Numbers (P : ℕ → ℕ → Will → Type 0) (m : Action ℕ) : Type 0 where
  pub at :
      (env env' : Env) (id : ℕ)
      → m env ≡ ok (id, env')
      → (id ≡ last_id env + 1)
        × (last_id env' ≡ id)
        × (env'.now ≡ env.now)
        × Entry env'.wills id (P env.now id)
        × ((j : ℕ) → j ≤ last_id env → env'.wills j ≡ env.wills j)

-- The parts of a book that stays.
parts :
    (env env' : Env)
    → ((j : ℕ) → book j env' ≡ book j env)
    → (env'.next_will_id ≡ env.next_will_id)
      × (env'.now ≡ env.now)
      × ((j : ℕ) → env'.wills j ≡ env.wills j)
parts env env' km = (ap (λ b. (b.0).0) (km 0), ap (λ b. (b.0).1) (km 0), λ j. ap (λ b. b.1) (km j))

pub save_will-Stores :
    (id : ℕ) (P : Will → Type 0) (w : Will) → w.id ≡ id → P w → Stores id P (save_will w)
unfolding save_will
save_will-Stores id P w named p = record {
  at = λ env env' a h. ((w, ground arith, p), ground arith, ground arith, λ j other. ground arith);
}

pub Rests-pure : (id : ℕ) → Rests id (pure id)
Rests-pure id = record { at = λ env env' k h. (ground arith, λ j. ground arith) }

module _ {A : Type 0} where
  pub Stores-before :
      {B : Type 0} (id : ℕ) (P : Will → Type 0) (m : Action A) (f : A → Action B)
      → Stores id P m
      → ((a : A) (j : ℕ) → Keeps (book j) (f a))
      → Stores id P (m >>= f)
  Stores-before id P m f sm kf = record {
    at = λ env env' b h.
        let (a, env₁, h₁, h₂) = run_step m f env h in
        let ((w, stored, p), counter, time, others) = sm.at env env₁ a h₁ in
        let (counter', time', kept) = parts env₁ env' (λ j. (kf a j).at env₁ env' b h₂) in
        (
          (w, kept id ∙ stored, p),
          counter' ∙ counter,
          time' ∙ time,
          λ j other. kept j ∙ others j other,
        );
  }

  pub Rests-bind :
      (id : ℕ) (m : Action A) (f : A → Action ℕ)
      → ((j : ℕ) → Keeps (book j) m)
      → ((a : A) → Rests id (f a))
      → Rests id (m >>= f)
  Rests-bind id m f km rf = record {
    at = λ env env' k h.
        let (a, env₁, h₁, h₂) = run_step m f env h in
        let (gives, kept) = (rf a).at env₁ env' k h₂ in
        (gives, λ j. kept j ∙ (km j).at env env₁ a h₁);
  }

  pub Fills-store :
      (now id : ℕ) (P : Will → Type 0) (m : Action A) (f : A → Action ℕ)
      → Stores id P m
      → ((a : A) → Rests id (f a))
      → Fills now id P (m >>= f)
  Fills-store now id P m f sm rf = record {
    at = λ env env' k at_now h.
        let (a, env₁, h₁, h₂) = run_step m f env h in
        let ((w, stored, p), counter, time, others) = sm.at env env₁ a h₁ in
        let (gives, same) = (rf a).at env₁ env' k h₂ in
        let (counter', time', kept) = parts env₁ env' same in
        (
          gives,
          (w, kept id ∙ stored, p),
          counter' ∙ counter,
          time' ∙ time,
          λ j other. kept j ∙ others j other,
        );
  }

  -- A step before the one that stores; what follows may use what is known of its result.
  pub Fills-knowing :
      (Q : A → Type 0) (now id : ℕ) (P : Will → Type 0) (m : Action A) (f : A → Action ℕ)
      → ((env env' : Env) (a : A) → m env ≡ ok (a, env') → Q a)
      → ((j : ℕ) → Keeps (book j) m)
      → ((a : A) → Q a → Fills now id P (f a))
      → Fills now id P (m >>= f)
  Fills-knowing Q now id P m f known km ff = record {
    at = λ env env' k at_now h.
        let (a, env₁, h₁, h₂) = run_step m f env h in
        let (counter₁, time₁, kept) = parts env env₁ (λ j. (km j).at env env₁ a h₁) in
        let (gives, entry, counter, time, others) =
          (ff a (known env env₁ a h₁)).at env₁ env' k (time₁ ∙ at_now) h₂ in
        (gives, entry, counter ∙ counter₁, time ∙ time₁, λ j other. others j other ∙ kept j);
  }

  pub Fills-bind :
      (now id : ℕ) (P : Will → Type 0) (m : Action A) (f : A → Action ℕ)
      → ((j : ℕ) → Keeps (book j) m)
      → ((a : A) → Fills now id P (f a))
      → Fills now id P (m >>= f)
  Fills-bind now id P m f km ff =
      Fills-knowing (λ _. Unit {0}) now id P m f (λ _ _ _ _. tt) km (λ a _. ff a)

  pub Numbers-knowing :
      (Q : A → Type 0) (P : ℕ → ℕ → Will → Type 0) (m : Action A) (f : A → Action ℕ)
      → ((env env' : Env) (a : A) → m env ≡ ok (a, env') → Q a)
      → ((j : ℕ) → Keeps (book j) m)
      → ((a : A) → Q a → Numbers P (f a))
      → Numbers P (m >>= f)
  Numbers-knowing Q P m f known km nf = record {
    at = λ env env' id h.
        let (a, env₁, h₁, h₂) = run_step m f env h in
        let (counter₁, time₁, kept) = parts env env₁ (λ j. (km j).at env env₁ a h₁) in
        let (next, counter, time, (w, stored, p), others) =
          (nf a (known env env₁ a h₁)).at env₁ env' id h₂ in
        let same_last : last_id env₁ ≡ last_id env = ap id_or_zero counter₁ in
        let p' : P env.now id w = rw (← time₁) p in
        (
          rw (← same_last) next,
          counter,
          time ∙ time₁,
          (w, stored, p'),
          λ j old. others j (rw same_last old) ∙ kept j,
        );
  }

  pub Numbers-bind :
      (P : ℕ → ℕ → Will → Type 0) (m : Action A) (f : A → Action ℕ)
      → ((j : ℕ) → Keeps (book j) m)
      → ((a : A) → Numbers P (f a))
      → Numbers P (m >>= f)
  Numbers-bind P m f km nf = Numbers-knowing (λ _. Unit {0}) P m f (λ _ _ _ _. tt) km (λ a _. nf a)

-- The step that reads the time.
pub Fills-now :
    (now id : ℕ) (P : Will → Type 0) (f : ℕ → Action ℕ)
    → Fills now id P (f now)
    → Fills now id P (gets (λ env. env.now) >>= f)
Fills-now now id P f ff = record {
  at = λ env env' k at_now h. ff.at env env' k at_now (sym (ap (λ n. f n env) at_now) ∙ h);
}

next_will_id-steps :
    (env env' : Env) (id : ℕ)
    → next_will_id env ≡ ok (id, env')
    → (id ≡ last_id env + 1)
      × (env'.next_will_id ≡ some id)
      × (env'.now ≡ env.now)
      × (env'.wills ≡ env.wills)
unfolding next_will_id
next_will_id-steps env env' id h = ground arith

pub Numbers-next :
    (P : ℕ → ℕ → Will → Type 0) (f : ℕ → Action ℕ)
    → ((now id : ℕ) → Fills now id (P now id) (f id))
    → Numbers P (next_will_id >>= f)
Numbers-next P f ff = record {
  at = λ env env' id h.
      let (k, env₁, taken, rest) = run_step next_will_id f env h in
      let (next, counter, time, wills) = next_will_id-steps env env₁ k taken in
      let (gives, entry, kept, same_now, others) = (ff env.now k).at env₁ env' id time rest in
      (
        gives ∙ next,
        ap id_or_zero (kept ∙ counter) ∙ sym gives,
        same_now ∙ time,
        rw gives entry,
        λ j old. others j (ground arith) ∙ ap (λ (w : ℕ → Option Val). w j) wills,
      );
}
