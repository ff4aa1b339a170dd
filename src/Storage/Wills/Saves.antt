-- ===== src/Storage/Wills/Saves.antt =====
-- Actions that store one will and touch no other: rules along a sequence of steps.
use sorowill_contracts.Prelude.{
  ℕ, ◌≡◌, ◌∙◌, refl, fun_ext, ◌⊎◌, inl, inr, Bool, true, false, Option, some, update, arith,
}
use sorowill_contracts.Errors.{WillError, Result, ok, err}
use sorowill_contracts.Types.{Will}
use sorowill_contracts.Env.{Env, Val, encoded}
use sorowill_contracts.Env.Action.{Action, lift, panic_if, resume, ◌>>=◌, ◌>>◌}
use sorowill_contracts.Env.Action.Keeps.{Keeps}
use sorowill_contracts.Storage.Wills.{save_will}

abbrev pub wills_of : Env → ℕ → Option Val
wills_of env = env.wills

-- The wills are those of `before`, but for one that satisfies `P` and is stored under its id.
abbrev pub Stored : (Will → Type 0) → (ℕ → Option Val) → (ℕ → Option Val) → Type 0
Stored P before after = (w : Will) × (after ≡ update before w.id (some (encoded w))) × P w

-- Where `m` succeeds, it has stored one will, which satisfies `P`.
pub record Saves {A : Type 0} (P : Will → Type 0) (m : Action A) : Type 0 where
  pub at : (env env' : Env) (a : A) → m env ≡ ok (a, env') → Stored P (wills_of env) (wills_of env')

pub save_will-Saves : (P : Will → Type 0) (w : Will) → P w → Saves P (save_will w)
unfolding save_will
save_will-Saves P w p = record { at = λ env env' a h. (w, ground arith, p) }

module _ {A B : Type 0} {P : Will → Type 0} where
  kept_then :
      (r : Result (A × Env)) (f : A → Action B) (env : Env)
      → ((a : A) (env₁ : Env) → r ≡ ok (a, env₁) → wills_of env₁ ≡ wills_of env)
      → ((a : A) → Saves P (f a))
      → (env' : Env) (b : B) → resume r f ≡ ok (b, env')
      → Stored P (wills_of env) (wills_of env')
  kept_then (ok (a, env₁)) f env km sf env' b h = rw (← km a env₁ refl) ((sf a).at env₁ env' b h)
  kept_then (err t) f env km sf env' b h = cc

  -- A step that keeps the wills, before the one that stores.
  pub Saves-after :
      (m : Action A) (f : A → Action B)
      → Keeps wills_of m
      → ((a : A) → Saves P (f a))
      → Saves P (m >>= f)
  Saves-after m f km sf = record {
    at = λ env env' b h. kept_then (m env) f env (λ a env₁ e. km.at env env₁ a e) sf env' b h;
  }

  then_kept :
      (r : Result (A × Env)) (f : A → Action B) (env : Env)
      → ((a : A) (env₁ : Env) → r ≡ ok (a, env₁) → Stored P (wills_of env) (wills_of env₁))
      → ((a : A) → Keeps wills_of (f a))
      → (env' : Env) (b : B) → resume r f ≡ ok (b, env')
      → Stored P (wills_of env) (wills_of env')
  then_kept (ok (a, env₁)) f env sm kf env' b h = rw ((kf a).at env₁ env' b h) (sm a env₁ refl)
  then_kept (err t) f env sm kf env' b h = cc

  -- A step that keeps the wills, after the one that stores.
  pub Saves-before :
      (m : Action A) (f : A → Action B)
      → Saves P m
      → ((a : A) → Keeps wills_of (f a))
      → Saves P (m >>= f)
  Saves-before m f sm kf = record {
    at = λ env env' b h. then_kept (m env) f env (λ a env₁ e. sm.at env env₁ a e) kf env' b h;
  }

  -- A check that reads nothing of the environment: what follows may use that it passed.
  pub Saves-lift :
      (r : Result A) (f : A → Action B)
      → ((a : A) → r ≡ ok a → Saves P (f a))
      → Saves P (lift r >>= f)
  Saves-lift (ok a) f sf = record { at = λ env env' b h. (sf a refl).at env env' b h }
  Saves-lift (err t) f sf = record { at = λ env env' b h. cc }

module _ {B : Type 0} {P : Will → Type 0} where
  pub Saves-panic_if :
      (c : Bool) (e : WillError) (n : Action B)
      → (c ≡ false → Saves P n)
      → Saves P (panic_if c e >> n)
  Saves-panic_if true e n sn = record { at = λ env env' b h. cc }
  Saves-panic_if false e n sn = record { at = λ env env' b h. (sn refl).at env env' b h }

  pub Saves-weaken :
      (Q : Will → Type 0) (m : Action B) → ((w : Will) → Q w → P w) → Saves Q m → Saves P m
  Saves-weaken Q m weaker sm = record {
    at = λ env env' a h. let (w, stored, q) = sm.at env env' a h in (w, stored, weaker w q);
  }

-- Where `m` succeeds, it has stored one will or none.
pub record Resaves {A : Type 0} (P : Will → Type 0) (m : Action A) : Type 0 where
  pub at :
      (env env' : Env) (a : A)
      → m env ≡ ok (a, env')
      → (wills_of env' ≡ wills_of env) ⊎ Stored P (wills_of env) (wills_of env')

module _ {A : Type 0} {P : Will → Type 0} where
  pub Resaves-Keeps : (m : Action A) → Keeps wills_of m → Resaves P m
  Resaves-Keeps m km = record { at = λ env env' a h. inl (km.at env env' a h) }

  pub Resaves-Saves : (m : Action A) → Saves P m → Resaves P m
  Resaves-Saves m sm = record { at = λ env env' a h. inr (sm.at env env' a h) }

module _ {A B : Type 0} {P : Will → Type 0} where
  kept-Resaves :
      (r : Result (A × Env)) (f : A → Action B) (env : Env)
      → ((a : A) (env₁ : Env) → r ≡ ok (a, env₁) → wills_of env₁ ≡ wills_of env)
      → ((a : A) → Resaves P (f a))
      → (env' : Env) (b : B) → resume r f ≡ ok (b, env')
      → (wills_of env' ≡ wills_of env) ⊎ Stored P (wills_of env) (wills_of env')
  kept-Resaves (ok (a, env₁)) f env km rf env' b h = rw (← km a env₁ refl) ((rf a).at env₁ env' b h)
  kept-Resaves (err t) f env km rf env' b h = cc

  pub Resaves-after :
      (m : Action A) (f : A → Action B)
      → Keeps wills_of m
      → ((a : A) → Resaves P (f a))
      → Resaves P (m >>= f)
  Resaves-after m f km rf = record {
    at = λ env env' b h. kept-Resaves (m env) f env (λ a env₁ e. km.at env env₁ a e) rf env' b h;
  }

update-update :
    (f : ℕ → Option Val) (k l : ℕ) (v w : Option Val)
    → k ≡ l
    → update (update f k v) l w ≡ update f l w
update-update f k l v w e = fun_ext λ j. ground arith

module _ {P : Will → Type 0} (one_id : (v w : Will) → P v → P w → v.id ≡ w.id) where
  again :
      (before middle after : ℕ → Option Val)
      → Stored P before middle
      → (after ≡ middle) ⊎ Stored P middle after
      → Stored P before after
  again before middle after (v, e, p) (inl same) = (v, same ∙ e, p)
  again before middle after (v, e, p) (inr (w, e', q)) =
      (w, rw (e', e) (update-update before v.id w.id _ _ (one_id v w p q)), q)

  again_then :
      {A B : Type 0} (r : Result (A × Env)) (f : A → Action B) (env : Env)
      → ((a : A) (env₁ : Env) → r ≡ ok (a, env₁) → Stored P (wills_of env) (wills_of env₁))
      → ((a : A) → Resaves P (f a))
      → (env' : Env) (b : B) → resume r f ≡ ok (b, env')
      → Stored P (wills_of env) (wills_of env')
  again_then (ok (a, env₁)) f env sm rf env' b h =
      again (wills_of env) (wills_of env₁) (wills_of env') (sm a env₁ refl)
        ((rf a).at env₁ env' b h)
  again_then (err t) f env sm rf env' b h = cc

  -- A will is stored, and then possibly stored again.
  pub Saves-again :
      {A B : Type 0} (m : Action A) (f : A → Action B)
      → Saves P m
      → ((a : A) → Resaves P (f a))
      → Saves P (m >>= f)
  Saves-again m f sm rf = record {
    at = λ env env' b h. again_then (m env) f env (λ a env₁ e. sm.at env env₁ a e) rf env' b h;
  }
