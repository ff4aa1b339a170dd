-- ===== src/Contract/Transition/Traces.antt =====
-- Sequences of calls by anyone, with time passing between them, and what a will can become.
use sorowill_contracts.Prelude.{
  ℕ, ◌≤◌, ◌≡◌, ◌∙◌, refl, Bool, Option, some, List, arith, ap, true, false,
}
use sorowill_contracts.Errors.{ok}
use sorowill_contracts.Types.{Address, Will, WillStatus, released, cancelled, settled}
use sorowill_contracts.Env.{Env, Val, Transfer, encoded}
use sorowill_contracts.Storage.Wills.Saves.{wills_of}
use sorowill_contracts.Contract.Transition.Rules.{
  Edge, stay_pending, stay_active, stay_triggered, stay_released, confirm, trigger, recover,
  release, release_by_quorum, cancel_pending, cancel, close,
}
use sorowill_contracts.Contract.Transition.Calls.{
  Call, run, IsKeyed, Moves, same, moved, run-IsKeyed, run-Moves,
}

-- Between two calls the host's clock may advance, and its other answers may change.
pub data Step : Env → Env → Type 0 where
  call : {env env' : Env} (c : Call) (id : ℕ) → run c id env ≡ ok (tt, env') → Step env env'
  host :
      {env : Env} (now : ℕ) (authorized answers : Address → Bool)
      (accepts : List Transfer → Transfer → Bool)
      → env.now ≤ now
      → Step env (record env {
        now = now;
        authorized = authorized;
        answers_decimals = answers;
        accepts = accepts;
      })

pub data Trace : Env → Env → Type 0 where
  stop : {env : Env} → Trace env env
  next : {env env₁ env₂ : Env} → Step env env₁ → Trace env₁ env₂ → Trace env env₂

Step-IsKeyed : {env env' : Env} → Step env env' → IsKeyed env → IsKeyed env'
unfolding IsKeyed
Step-IsKeyed {env = env} {env' = env'} (call c id h) keyed = run-IsKeyed c id env env' h keyed
Step-IsKeyed (host now authorized answers accepts later) keyed = keyed

Step-Moves :
    {env env' : Env}
    → Step env env'
    → IsKeyed env
    → (j : ℕ) → Moves (wills_of env j) (wills_of env' j)
Step-Moves {env = env} {env' = env'} (call c id h) keyed j = run-Moves c id env env' h keyed j
Step-Moves (host now authorized answers accepts later) keyed j = same refl

-- The states that a will can be in after one in the first state.
pub data Reaches : WillStatus → WillStatus → Type 0 where
  here : {s : WillStatus} → Reaches s s
  onward : {s t u : WillStatus} → Edge s t → Reaches t u → Reaches s u

-- The entry of a will later on: the owner and the token are kept, the status is one that it reaches.
pub record Later (v : Will) (entry : Option Val) : Type 0 where
  pub will : Will
  pub stored : entry ≡ some (encoded will)
  pub keeps_owner : will.owner ≡ v.owner
  pub keeps_token : will.token ≡ v.token
  pub reached : Reaches v.status will.status

Later-moved :
    (before after : Option Val) (u v : Will)
    → Moves before after
    → before ≡ some (encoded u)
    → u.owner ≡ v.owner
    → u.token ≡ v.token
    → (w : Will) × (after ≡ some (encoded w))
      × (w.owner ≡ v.owner)
      × (w.token ≡ v.token)
      × ((s : WillStatus) → Reaches w.status s → Reaches u.status s)
Later-moved before after u v (same e) found o t = (u, e ∙ found, o, t, λ s r. r)
Later-moved before after u v (moved x w from to follows) found o t =
    let e : x ≡ u = ground arith in
    (
      w,
      to,
      follows.same_owner ∙ ap (λ z. z.owner) e ∙ o,
      follows.same_token ∙ ap (λ z. z.token) e ∙ t,
      λ s r. rw (← e) (onward follows.edge r),
    )

Trace-Later_from :
    {env env' : Env} (id : ℕ) (u v : Will)
    → Trace env env'
    → IsKeyed env
    → wills_of env id ≡ some (encoded u)
    → u.owner ≡ v.owner
    → u.token ≡ v.token
    → (w : Will) × (wills_of env' id ≡ some (encoded w))
      × (w.owner ≡ v.owner)
      × (w.token ≡ v.token)
      × Reaches u.status w.status
Trace-Later_from id u v stop keyed found o t = (u, found, o, t, here)
Trace-Later_from id u v (next step rest) keyed found o t =
    let (x, found', o', t', extend) = Later-moved _ _ u v (Step-Moves step keyed id) found o t in
    let (w, to, o'', t'', r) =
      Trace-Later_from id x v rest (Step-IsKeyed step keyed) found' o' t' in
    (w, to, o'', t'', extend w.status r)

-- From wills that are each stored under their own id: whichever of the calls of `Call` succeed, in
-- any order and however late, a stored will stays stored under its id with its owner and its primary
-- token, and its status is one that the state machine reaches from the one it had.
pub Trace-Later :
    {env env' : Env}
    → Trace env env'
    → IsKeyed env
    → (id : ℕ) (v : Will) → wills_of env id ≡ some (encoded v)
    → Later v (wills_of env' id)
Trace-Later path keyed id v found =
    let (w, to, o, t, r) = Trace-Later_from id v v path keyed found refl refl in
    record { will = w; stored = to; keeps_owner = o; keeps_token = t; reached = r }

-- A status without a way out.
abbrev pub is_final : WillStatus → Bool
is_final cancelled = true
is_final settled = true
is_final _ = false

edge_not_final : {s t : WillStatus} → Edge s t → is_final s ≡ false
edge_not_final stay_pending = refl
edge_not_final stay_active = refl
edge_not_final stay_triggered = refl
edge_not_final stay_released = refl
edge_not_final confirm = refl
edge_not_final trigger = refl
edge_not_final recover = refl
edge_not_final release = refl
edge_not_final release_by_quorum = refl
edge_not_final cancel_pending = refl
edge_not_final cancel = refl
edge_not_final close = refl

final_same :
    (before after : Option Val) (v : Will)
    → Moves before after
    → before ≡ some (encoded v)
    → is_final v.status ≡ true
    → after ≡ before
final_same before after v (same e) found f = e
final_same before after v (moved x w from to follows) found f =
    let e : x ≡ v = ground arith in
    let open_ : is_final v.status ≡ false = rw (← e) (edge_not_final follows.edge) in cc

-- From wills that are each stored under their own id: none of the calls of `Call` writes a cancelled
-- or settled will again; whichever succeed on any will, its entry stays the very same.
pub Trace-is_final :
    {env env' : Env}
    → Trace env env'
    → IsKeyed env
    → (id : ℕ) (v : Will) → wills_of env id ≡ some (encoded v)
    → is_final v.status ≡ true
    → wills_of env' id ≡ some (encoded v)
Trace-is_final stop keyed id v found f = found
Trace-is_final (next step rest) keyed id v found f =
    Trace-is_final rest (Step-IsKeyed step keyed) id v
      (final_same _ _ v (Step-Moves step keyed id) found f ∙ found) f

-- Paid out, with or without the owner's `close_will`.
abbrev pub is_paid_out : WillStatus → Bool
is_paid_out released = true
is_paid_out settled = true
is_paid_out _ = false

edge_paid_out : {s t : WillStatus} → Edge s t → is_paid_out s ≡ true → is_paid_out t ≡ true
edge_paid_out stay_pending h = h
edge_paid_out stay_active h = h
edge_paid_out stay_triggered h = h
edge_paid_out stay_released h = h
edge_paid_out confirm h = h
edge_paid_out trigger h = h
edge_paid_out recover h = h
edge_paid_out release h = refl
edge_paid_out release_by_quorum h = refl
edge_paid_out cancel_pending h = h
edge_paid_out cancel h = h
edge_paid_out close h = h

Reaches-paid_out : {s t : WillStatus} → Reaches s t → is_paid_out s ≡ true → is_paid_out t ≡ true
Reaches-paid_out here h = h
Reaches-paid_out (onward e r) h = Reaches-paid_out r (edge_paid_out e h)

-- From wills that are each stored under their own id: once a will is released or settled, no
-- sequence of the calls of `Call` brings it back; it is released or settled ever after.
pub Trace-is_paid_out :
    {env env' : Env}
    → Trace env env'
    → IsKeyed env
    → (id : ℕ) (v w : Will) → wills_of env id ≡ some (encoded v)
    → wills_of env' id ≡ some (encoded w)
    → is_paid_out v.status ≡ true
    → is_paid_out w.status ≡ true
Trace-is_paid_out path keyed id v w from to e =
    let (x, to', o, t, r) = Trace-Later_from id v v path keyed from refl refl in
    let same_will : x ≡ w = ground arith in rw (← same_will) (Reaches-paid_out r e)
