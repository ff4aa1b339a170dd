-- ===== src/Contract/Transition/Rules.antt =====
-- The state machine of a will: which status may follow which, and what no entry point changes.
use sorowill_contracts.Prelude.{ℕ, ◌≡◌, refl, some, arith, ◌⊎◌, inl, inr}
use sorowill_contracts.Errors.{WillError, Result, ok, err}
use sorowill_contracts.Types.{
  Address, Will, WillStatus, pending_confirmation, active, triggered, released, cancelled, settled,
}
use sorowill_contracts.Env.{Env, encoded}
use sorowill_contracts.Env.Action.{Action, query, lift, require_auth, resume, ◌>>=◌, ◌>>◌}
use sorowill_contracts.Env.Action.Runs.{run_auth}
use sorowill_contracts.Env.Action.Keeps.{Keeps}
use sorowill_contracts.Storage.Wills.{load_will}
use sorowill_contracts.Storage.Wills.Saves.{wills_of, Stored, Saves, Resaves}
use sorowill_contracts.Validation.{assert_status, load_owned}

-- One step of a will's life. `cancelled` and `settled` have no step, `released` only one out.
pub data Edge : WillStatus → WillStatus → Type 0 where
  stay_pending : Edge pending_confirmation pending_confirmation
  stay_active : Edge active active
  stay_triggered : Edge triggered triggered
  stay_released : Edge released released
  confirm : Edge pending_confirmation active
  trigger : Edge active triggered
  recover : Edge triggered active
  release : Edge triggered released
  release_by_quorum : Edge active released
  cancel_pending : Edge pending_confirmation cancelled
  cancel : Edge active cancelled
  close : Edge released settled

-- What every entry point keeps of a will that it rewrites.
pub record Follows (before after : Will) : Type 0 where
  pub same_id : after.id ≡ before.id
  pub same_owner : after.owner ≡ before.owner
  pub same_token : after.token ≡ before.token
  pub edge : Edge before.status after.status

-- The entry point loads the will of this id, and stores it as a will that follows it; every other
-- entry is left alone.
pub record Rewrites {A : Type 0} (id : ℕ) (m : Action A) : Type 0 where
  pub at :
      (env env' : Env) (a : A)
      → m env ≡ ok (a, env')
      → (w : Will) × (wills_of env id ≡ some (encoded w))
        × Stored (Follows w) (wills_of env) (wills_of env')

load_will-stored :
    (id : ℕ) (env : Env) {w : Will} → load_will id env ≡ ok w → wills_of env id ≡ some (encoded w)
unfolding load_will
load_will-stored id env h = ground arith

load_owned-stored :
    (id : ℕ) (owner : Address) (env : Env) {w : Will}
    → load_owned id owner env ≡ ok w
    → wills_of env id ≡ some (encoded w)
unfolding load_owned load_will
load_owned-stored id owner env h = ground arith

module _ {A : Type 0} where
  query_then :
      (r : Result Will) (id : ℕ) (k : Will → Action A) (env : Env)
      → ((w : Will) → r ≡ ok w → wills_of env id ≡ some (encoded w))
      → ((w : Will) → Saves (Follows w) (k w))
      → (env' : Env) (a : A) → resume (query (λ _. r) env) k ≡ ok (a, env')
      → (w : Will) × (wills_of env id ≡ some (encoded w))
        × Stored (Follows w) (wills_of env) (wills_of env')
  query_then (ok w) id k env found sk env' a h = (w, found w refl, (sk w).at env env' a h)
  query_then (err t) id k env found sk env' a h = cc

  pub Rewrites-load :
      (id : ℕ) (k : Will → Action A)
      → ((w : Will) → Saves (Follows w) (k w))
      → Rewrites id (query (load_will id) >>= k)
  Rewrites-load id k sk = record {
    at = λ env env' a h.
        query_then (load_will id env) id k env (λ w e. load_will-stored id env e) sk env' a h;
  }

  pub Rewrites-load_owned :
      (id : ℕ) (owner : Address) (k : Will → Action A)
      → ((w : Will) → Saves (Follows w) (k w))
      → Rewrites id (query (load_owned id owner) >>= k)
  Rewrites-load_owned id owner k sk = record {
    at = λ env env' a h.
        query_then (load_owned id owner env) id k env (λ w e. load_owned-stored id owner env e) sk
          env' a h;
  }

module _ {A B : Type 0} where
  kept_then :
      (r : Result (A × Env)) (id : ℕ) (n : Action B) (env : Env)
      → ((a : A) (env₁ : Env) → r ≡ ok (a, env₁) → wills_of env₁ ≡ wills_of env)
      → Rewrites id n
      → (env' : Env) (b : B) → resume r (λ _. n) ≡ ok (b, env')
      → (w : Will) × (wills_of env id ≡ some (encoded w))
        × Stored (Follows w) (wills_of env) (wills_of env')
  kept_then (ok (a, env₁)) id n env km rn env' b h = rw (← km a env₁ refl) (rn.at env₁ env' b h)
  kept_then (err t) id n env km rn env' b h = cc

  -- A first step that keeps the wills.
  pub Rewrites-after :
      (id : ℕ) (m : Action A) (n : Action B)
      → Keeps wills_of m
      → Rewrites id n
      → Rewrites id (m >> n)
  Rewrites-after id m n km rn = record {
    at = λ env env' b h. kept_then (m env) id n env (λ a env₁ e. km.at env env₁ a e) rn env' b h;
  }

-- The same of an entry point that may leave the wills as they are.
pub record Amends {A : Type 0} (id : ℕ) (m : Action A) : Type 0 where
  pub at :
      (env env' : Env) (a : A)
      → m env ≡ ok (a, env')
      → (wills_of env' ≡ wills_of env)
        ⊎ ((w : Will) × (wills_of env id ≡ some (encoded w))
            × Stored (Follows w) (wills_of env) (wills_of env'))

module _ {A : Type 0} where
  pub Amends-Rewrites : (id : ℕ) (m : Action A) → Rewrites id m → Amends id m
  Amends-Rewrites id m rm = record { at = λ env env' a h. inr (rm.at env env' a h) }

  amended :
      (r : Result Will) (id : ℕ) (k : Will → Action A) (env : Env)
      → ((w : Will) → r ≡ ok w → wills_of env id ≡ some (encoded w))
      → ((w : Will) → Resaves (Follows w) (k w))
      → (env' : Env) (a : A) → resume (query (λ _. r) env) k ≡ ok (a, env')
      → (wills_of env' ≡ wills_of env)
        ⊎ ((w : Will) × (wills_of env id ≡ some (encoded w))
            × Stored (Follows w) (wills_of env) (wills_of env'))
  amended (ok w) id k env found rk env' a h = elim ((rk w).at env env' a h) [
    | inl same ↦ inl same
    | inr stored ↦ inr (w, found w refl, stored)
  ]
  amended (err t) id k env found rk env' a h = cc

  pub Amends-load :
      (id : ℕ) (k : Will → Action A)
      → ((w : Will) → Resaves (Follows w) (k w))
      → Amends id (query (load_will id) >>= k)
  Amends-load id k rk = record {
    at = λ env env' a h.
        amended (load_will id env) id k env (λ w e. load_will-stored id env e) rk env' a h;
  }

  pub Amends-auth :
      (id : ℕ) (who : Address) (n : Action A) → Amends id n → Amends id (require_auth who >> n)
  Amends-auth id who n an = record {
    at = λ env env' a h. let (_, signed) = run_auth who n env h in an.at env env' a signed;
  }

module _ {A B : Type 0} {P : Will → Type 0} where
  -- A check that reads nothing of the environment: what follows may use that it passed.
  pub Resaves-lift :
      (r : Result A) (f : A → Action B)
      → ((a : A) → r ≡ ok a → Resaves P (f a))
      → Resaves P (lift r >>= f)
  Resaves-lift (ok a) f rf = record { at = λ env env' b h. (rf a refl).at env env' b h }
  Resaves-lift (err t) f rf = record { at = λ env env' b h. cc }

pub assert_status-eq-ok :
    (w : Will) (s : WillStatus) (e : WillError) {a : Unit {0}}
    → assert_status w s e ≡ ok a
    → w.status ≡ s
unfolding assert_status
assert_status-eq-ok w s e h = ground arith
