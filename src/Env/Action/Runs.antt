-- ===== src/Env/Action/Runs.antt =====
-- A sequence that succeeds, taken apart: each of its steps has succeeded.
use sorowill_contracts.Prelude.{◌≡◌, refl, true, arith}
use sorowill_contracts.Errors.{Result, ok, err}
use sorowill_contracts.Types.{Address}
use sorowill_contracts.Env.{Env}
use sorowill_contracts.Env.Action.{Action, lift, query, require_auth, resume, ◌>>=◌, ◌>>◌}

module _ {A B : Type 0} where
  run_resume :
      (r : Result (A × Env)) (f : A → Action B) {b : B} {env' : Env}
      → resume r f ≡ ok (b, env')
      → (a : A) × (env₁ : Env) × (r ≡ ok (a, env₁)) × (f a env₁ ≡ ok (b, env'))
  run_resume (ok (a, env₁)) f h = (a, env₁, refl, h)
  run_resume (err t) f h = cc

  pub run_step :
      (m : Action A) (f : A → Action B) (env : Env) {b : B} {env' : Env}
      → (m >>= f) env ≡ ok (b, env')
      → (a : A) × (env₁ : Env) × (m env ≡ ok (a, env₁)) × (f a env₁ ≡ ok (b, env'))
  run_step m f env h = run_resume (m env) f h

  -- A first step that reads the environment.
  run_lifted :
      (r : Result A) (f : A → Action B) (env : Env) {b : B} {env' : Env}
      → resume (lift r env) f ≡ ok (b, env')
      → (a : A) × (r ≡ ok a) × (f a env ≡ ok (b, env'))
  run_lifted (ok a) f env h = (a, refl, h)
  run_lifted (err t) f env h = cc

  pub run_query :
      (q : Env → Result A) (f : A → Action B) (env : Env) {b : B} {env' : Env}
      → (query q >>= f) env ≡ ok (b, env')
      → (a : A) × (q env ≡ ok a) × (f a env ≡ ok (b, env'))
  run_query q f env h = run_lifted (q env) f env h

  pub run_lift :
      (r : Result A) (f : A → Action B) (env : Env) {b : B} {env' : Env}
      → (lift r >>= f) env ≡ ok (b, env')
      → (a : A) × (r ≡ ok a) × (f a env ≡ ok (b, env'))
  run_lift r f env h = run_lifted r f env h

-- A first step that asks for a signature, which the call has.
pub run_auth :
    {A : Type 0} (a : Address) (n : Action A) (env : Env) {b : A} {env' : Env}
    → (require_auth a >> n) env ≡ ok (b, env')
    → (env.authorized a ≡ true) × (n env ≡ ok (b, env'))
run_auth a n env h = ground arith
