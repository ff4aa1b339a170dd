-- ===== src/Storage/Stats/Locked.antt =====
-- What `adjust_locked_value` does to the total of each token.
use sorowill_contracts.Prelude.{
  ◌≡◌, refl, Bool, true, false, not, ◌&&◌, ◌||◌, List, [], ◌∷◌, ◌++◌, ◌==◌, arith, if◌then◌else◌,
}
use sorowill_contracts.Prelude.Int.{ℤ, pos, ◌+ℤ◌, zero_add, add_zero}
use sorowill_contracts.Errors.{ok, run_both}
use sorowill_contracts.Types.{Address, TokenLockedBalance}
use sorowill_contracts.Env.Action.{add_i128}
use sorowill_contracts.Storage.Stats.{adjust_entries, adjusted}

-- The total recorded for a token, and whether there is an entry for it.
unfoldable pub locked_in : List TokenLockedBalance → Address → ℤ
locked_in [] t = pos 0
locked_in (e ∷ es) t = if e.token == t then e.total_locked else locked_in es t

unfoldable pub has_entry : List TokenLockedBalance → Address → Bool
has_entry [] t = false
has_entry (e ∷ es) t = e.token == t || has_entry es t

-- At most one entry for each token.
unfoldable pub are_distinct_tokens : List TokenLockedBalance → Bool
are_distinct_tokens [] = true
are_distinct_tokens (e ∷ es) = not (has_entry es e.token) && are_distinct_tokens es

untouched :
    (es es' : List TokenLockedBalance) (token : Address) (delta : ℤ) (found : Bool)
    → adjust_entries es token delta ≡ ok (found, es')
    → has_entry es token ≡ false
    → (found ≡ false) × (es' ≡ es)
unfolding adjust_entries has_entry
untouched [] es' token delta found h n = ground arith
untouched (e ∷ es) es' token delta found h n =
    let ((f, u), hu, rest) = run_both (adjust_entries es token delta) _ h in
    ground (arith, untouched es u token delta f hu)

no_entry :
    (es : List TokenLockedBalance) (t : Address) → has_entry es t ≡ false → locked_in es t ≡ pos 0
unfolding has_entry locked_in
no_entry [] t h = refl
no_entry (e ∷ es) t h = ground (arith, no_entry es t)

-- The entries of the other tokens.
others :
    (es es' : List TokenLockedBalance) (token t : Address) (delta : ℤ) (found : Bool)
    → adjust_entries es token delta ≡ ok (found, es')
    → (token == t) ≡ false
    → locked_in es' t ≡ locked_in es t
unfolding adjust_entries locked_in
others [] es' token t delta found h n = ground arith
others (e ∷ es) es' token t delta found h n =
    let ((f, u), hu, rest) = run_both (adjust_entries es token delta) _ h in
    ground (arith, others es u token t delta f hu)

add_i128-eq-ok : (a b c : ℤ) → add_i128 a b ≡ ok c → c ≡ a +ℤ b
add_i128-eq-ok a b c h = ground arith

-- The entry of the token itself.
own :
    (es es' : List TokenLockedBalance) (token : Address) (delta : ℤ) (found : Bool)
    → adjust_entries es token delta ≡ ok (found, es')
    → are_distinct_tokens es ≡ true
    → (found ≡ has_entry es token)
      × (locked_in es' token ≡ (if has_entry es token then locked_in es token +ℤ delta else pos 0))
unfolding adjust_entries locked_in has_entry are_distinct_tokens
own [] es' token delta found h d = ground arith
own (e ∷ es) es' token delta found h d =
    let ((f, u), hu, rest) = run_both (adjust_entries es token delta) _ h in
    ground (
      arith,
      own es u token delta f hu,
      untouched es u token delta f hu,
      no_entry es token,
      add_i128-eq-ok e.total_locked delta,
    )

locked_in-append :
    (es : List TokenLockedBalance) (e : TokenLockedBalance) (t : Address)
    → locked_in (es ++ e ∷ []) t
      ≡ (if has_entry es t then locked_in es t else if e.token == t then e.total_locked else pos 0)
unfolding locked_in has_entry
locked_in-append [] e t = ground arith
locked_in-append (x ∷ es) e t = ground (arith, locked_in-append es e t)

-- No entry is made for another token.
entries_kept :
    (es es' : List TokenLockedBalance) (token t : Address) (delta : ℤ) (found : Bool)
    → adjust_entries es token delta ≡ ok (found, es')
    → has_entry es t ≡ false
    → has_entry es' t ≡ false
unfolding adjust_entries has_entry
entries_kept [] es' token t delta found h n = ground arith
entries_kept (e ∷ es) es' token t delta found h n =
    let ((f, u), hu, rest) = run_both (adjust_entries es token delta) _ h in
    ground (arith, entries_kept es u token t delta f hu)

distinct_kept :
    (es es' : List TokenLockedBalance) (token : Address) (delta : ℤ) (found : Bool)
    → adjust_entries es token delta ≡ ok (found, es')
    → are_distinct_tokens es ≡ true
    → are_distinct_tokens es' ≡ true
unfolding adjust_entries has_entry are_distinct_tokens
distinct_kept [] es' token delta found h d = ground arith
distinct_kept (e ∷ es) es' token delta found h d =
    let ((f, u), hu, rest) = run_both (adjust_entries es token delta) _ h in
    ground (arith, distinct_kept es u token delta f hu, entries_kept es u token e.token delta f hu)

has_entry-append :
    (es : List TokenLockedBalance) (e : TokenLockedBalance) (t : Address)
    → has_entry (es ++ e ∷ []) t ≡ (has_entry es t || e.token == t)
unfolding has_entry
has_entry-append [] e t = ground arith
has_entry-append (x ∷ es) e t = ground (arith, has_entry-append es e t)

distinct-append :
    (es : List TokenLockedBalance) (e : TokenLockedBalance)
    → are_distinct_tokens es ≡ true
    → has_entry es e.token ≡ false
    → are_distinct_tokens (es ++ e ∷ []) ≡ true
unfolding are_distinct_tokens has_entry
distinct-append [] e d n = refl
distinct-append (x ∷ es) e d n = ground (arith, distinct-append es e, has_entry-append es e x.token)

-- Where the totals have one entry for each token, a successful change of a token's total by `delta`
-- adds `delta` to that token's total, leaves every other total, and keeps one entry for each token.
pub adjusted-locked_in :
    (es es' : List TokenLockedBalance) (token t : Address) (delta : ℤ)
    → adjusted es token delta ≡ ok es'
    → are_distinct_tokens es ≡ true
    → (locked_in es' t ≡ (if token == t then locked_in es t +ℤ delta else locked_in es t))
      × (are_distinct_tokens es' ≡ true)
unfolding adjusted
adjusted-locked_in es es' token t delta h d =
    let ((f, u), hu, rest) = run_both (adjust_entries es token delta) _ h in
    let (found, mine) = own es u token delta f hu d in
    let kept = distinct_kept es u token delta f hu d in
    (
      ground (
        arith,
        found,
        mine,
        others es u token t delta f hu,
        untouched es u token delta f hu,
        no_entry es token,
        no_entry es t,
        locked_in-append u (record { token = token; total_locked = delta }) t,
        zero_add delta,
        add_zero (locked_in es t),
      ),
      ground (
        arith,
        found,
        kept,
        untouched es u token delta f hu,
        distinct-append u (record { token = token; total_locked = delta }),
      ),
    )
