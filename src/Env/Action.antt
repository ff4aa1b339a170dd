-- ===== src/Env/Action.antt =====
-- An invocation: it reads and changes the environment, or aborts. An abort carries no environment,
-- since the host then discards every change.
pub mod Runs
pub mod Keeps
use sorowill_contracts.Prelude.{
  ℕ, ◌+◌, ◌*◌, ◌≤◌, ◌≡◌, refl, Bool, true, false, not, Option, none, some, List, [], ◌∷◌, ◌++◌, leb,
  arith, if◌then◌else◌,
}
use sorowill_contracts.Prelude.Int.{ℤ, pos, negsuc, ◌+ℤ◌, ◌-ℤ◌, ◌*ℤ◌}
use sorowill_contracts.Prelude.Words.{u32_max, u64_max, i128_max}
use sorowill_contracts.Errors.{
  WillError, invalid_token, Trap, contract_error, overflow, unauthorized, token_failed, Result, ok,
  err,
}
use sorowill_contracts.Types.{Address}
use sorowill_contracts.Env.{Env, Transfer, Event}

abbrev pub Action : Type 0 → Type 0
Action A = Env → Result (A × Env)

module _ {A : Type 0} where
  abbrev pub pure : A → Action A
  pure a env = ok (a, env)

  abbrev pub trap : Trap → Action A
  trap t env = err t

  -- `panic_with_error!`
  abbrev pub panic : WillError → Action A
  panic e env = err (contract_error e)

  -- A computation that reads nothing of the environment.
  abbrev pub lift : Result A → Action A
  lift (ok a) env = ok (a, env)
  lift (err t) env = err t

  -- A computation that reads the environment.
  abbrev pub query : (Env → Result A) → Action A
  query f env = lift (f env) env

  abbrev pub gets : (Env → A) → Action A
  gets f env = ok (f env, env)

abbrev pub resume : {A B : Type 0} → Result (A × Env) → (A → Action B) → Result (B × Env)
resume (ok (a, env)) f = f a env
resume (err t) f = err t

infixl 5 ◌>>=◌ ◌>>◌
abbrev pub ◌>>=◌ : {A B : Type 0} → Action A → (A → Action B) → Action B
◌>>=◌ m f env = resume (m env) f

abbrev pub ◌>>◌ : {A B : Type 0} → Action A → Action B → Action B
m >> k = m >>= λ _. k

-- `if c { panic_with_error!(e) }`
abbrev pub panic_if : Bool → WillError → Action (Unit {0})
panic_if true e env = err (contract_error e)
panic_if false e env = ok (tt, env)

abbrev pub modify : (Env → Env) → Action (Unit {0})
modify f env = ok (tt, f env)

-- `address.require_auth()`
abbrev pub authorize : Bool → Action (Unit {0})
authorize true env = ok (tt, env)
authorize false env = err unauthorized

abbrev pub require_auth : Address → Action (Unit {0})
require_auth a env = authorize (env.authorized a) env

-- `env.events().publish(..)`
abbrev pub publish : Event → Action (Unit {0})
publish e env = ok (tt, record env { events = env.events ++ e ∷ [] })

abbrev sent : Env → Transfer → Env
sent env t = record env { transfers = env.transfers ++ t ∷ [] }

-- `token::Client::transfer` fails the invocation; `try_transfer` says whether it was taken.
abbrev pub transfer_if : Bool → Transfer → Action (Unit {0})
transfer_if true t env = ok (tt, sent env t)
transfer_if false t env = err token_failed

abbrev pub transfer : Transfer → Action (Unit {0})
transfer t env = transfer_if (env.accepts env.transfers t) t env

abbrev pub try_transfer_if : Bool → Transfer → Action Bool
try_transfer_if true t env = ok (true, sent env t)
try_transfer_if false t env = ok (false, env)

abbrev pub try_transfer : Transfer → Action Bool
try_transfer t env = try_transfer_if (env.accepts env.transfers t) t env

-- One of two actions.
abbrev pub choose : {A : Type 0} → Bool → Action A → Action A → Action A
choose true m n = m
choose false m n = n

-- `+` and `*` under `overflow-checks`.
abbrev pub add_u64 : ℕ → ℕ → Result ℕ
add_u64 a b = if leb (a + b) u64_max then ok (a + b) else err overflow

-- Whether an integer is an i128.
abbrev pub fits_i128 : ℤ → Bool
fits_i128 (pos n) = leb n i128_max
fits_i128 (negsuc n) = leb n i128_max

abbrev pub checked_i128 : ℤ → Result ℤ
checked_i128 a = if fits_i128 a then ok a else err overflow

abbrev pub add_i128 : ℤ → ℤ → Result ℤ
add_i128 a b = checked_i128 (a +ℤ b)

abbrev pub sub_i128 : ℤ → ℤ → Result ℤ
sub_i128 a b = checked_i128 (a -ℤ b)

abbrev pub mul_i128 : ℤ → ℤ → Result ℤ
mul_i128 a b = checked_i128 (a *ℤ b)
