-- ===== src/Env/Action/Keeps.antt =====
-- Actions that leave a part of the environment as it is: one rule for each way to build an action.
use sorowill_contracts.Prelude.{◌≡◌, ◌∙◌, ap, refl, Bool, true, false, arith}
use sorowill_contracts.Errors.{WillError, Result, ok, err}
use sorowill_contracts.Types.{Address}
use sorowill_contracts.Env.{Env}
use sorowill_contracts.Env.Action.{
  Action, pure, lift, query, gets, panic_if, modify, require_auth, choose, resume, ◌>>=◌, ◌>>◌,
}

-- Where `m` succeeds, `view` reads the same after it as before.
pub record Keeps {A B : Type 0} (view : Env → B) (m : Action A) : Type 0 where
  pub at : (env env' : Env) (a : A) → m env ≡ ok (a, env') → view env' ≡ view env

pub env-lift :
    {A : Type 0} (r : Result A) (env env' : Env) (a : A) → lift r env ≡ ok (a, env') → env' ≡ env
env-lift (ok a) env env' b h = ground arith
env-lift (err t) env env' b h = cc

module _ {A B : Type 0} {view : Env → B} where
  pub Keeps-pure : (a : A) → Keeps view (pure a)
  Keeps-pure a = record { at = λ env env' b h. ground arith }

  pub Keeps-lift : (r : Result A) → Keeps view (lift r)
  Keeps-lift (ok a) = record { at = λ env env' b h. ground arith }
  Keeps-lift (err t) = record { at = λ env env' b h. cc }

  pub Keeps-query : (f : Env → Result A) → Keeps view (query f)
  Keeps-query f = record { at = λ env env' b h. ap view (env-lift (f env) env env' b h) }

  pub Keeps-gets : (f : Env → A) → Keeps view (gets f)
  Keeps-gets f = record { at = λ env env' b h. ground arith }

  pub Keeps-choose :
      (b : Bool) (m n : Action A) → Keeps view m → Keeps view n → Keeps view (choose b m n)
  Keeps-choose true m n km kn = km
  Keeps-choose false m n km kn = kn

module _ {B : Type 0} {view : Env → B} where
  pub Keeps-panic_if : (c : Bool) (e : WillError) → Keeps view (panic_if c e)
  Keeps-panic_if true e = record { at = λ env env' b h. cc }
  Keeps-panic_if false e = record { at = λ env env' b h. ground arith }

  pub Keeps-require_auth : (a : Address) → Keeps view (require_auth a)
  Keeps-require_auth a = record { at = λ env env' b h. ground arith }

  pub Keeps-modify :
      (f : Env → Env) → ((env : Env) → view (f env) ≡ view env) → Keeps view (modify f)
  Keeps-modify f same = record { at = λ env env' b h. ground (arith, same env) }

module _ {A B C : Type 0} {view : Env → C} where
  after :
      (r : Result (A × Env)) (f : A → Action B) (env : Env)
      → ((a : A) (env' : Env) → r ≡ ok (a, env') → view env' ≡ view env)
      → ((a : A) → Keeps view (f a))
      → (env' : Env) (b : B) → resume r f ≡ ok (b, env')
      → view env' ≡ view env
  after (ok (a, env₁)) f env km kf env' b h = (kf a).at env₁ env' b h ∙ km a env₁ refl
  after (err t) f env km kf env' b h = cc

  pub Keeps-bind :
      (m : Action A) (f : A → Action B)
      → Keeps view m
      → ((a : A) → Keeps view (f a))
      → Keeps view (m >>= f)
  Keeps-bind m f km kf = record {
    at = λ env env' b h. after (m env) f env (λ a env₁ e. km.at env env₁ a e) kf env' b h;
  }

module _ {A B C : Type 0} {view : Env → C} where
  pub Keeps-then : (m : Action A) (n : Action B) → Keeps view m → Keeps view n → Keeps view (m >> n)
  Keeps-then m n km kn = Keeps-bind m (λ _. n) km (λ _. kn)

pub ruleset keeps_rules = (
  Keeps-pure, Keeps-lift, Keeps-query, Keeps-gets, Keeps-choose, Keeps-panic_if, Keeps-require_auth,
  Keeps-modify, Keeps-bind,
)
