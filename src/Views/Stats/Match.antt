-- ===== src/Views/Stats/Match.antt =====
-- What the audit's comparison of two statistics says.
use sorowill_contracts.Prelude.{
  ◌≡◌, ◌↔◌, refl, sym, ◌∙◌, Bool, true, false, not, ◌&&◌, ◌||◌, List, [], ◌∷◌, ◌==◌, ==_refl, arith,
}
use sorowill_contracts.Prelude.Int.{ℤ, pos, eqb_ℤ, eq_of_parts}
use sorowill_contracts.Types.{Address, TokenLockedBalance, ProtocolStats}
use sorowill_contracts.Views.Stats.{total_of, covers, stats_match}

-- Whether a token has an entry, and whether every token has at most one.
unfoldable pub lists : List TokenLockedBalance → Address → Bool
lists [] token = false
lists (entry ∷ entries) token = entry.token == token || lists entries token

unfoldable pub are_single : List TokenLockedBalance → Bool
unfolding lists
are_single [] = true
are_single (entry ∷ entries) = not (lists entries entry.token) && are_single entries

eqb_ℤ_sound : (a b : ℤ) → eqb_ℤ a b ≡ true → a ≡ b
eqb_ℤ_sound a b h = eq_of_parts a b (ground arith)

eqb_ℤ_refl : (a : ℤ) → eqb_ℤ a a ≡ true
eqb_ℤ_refl a = ground arith

-- A list that is covered agrees on the tokens that it lists.
covered_at :
    (x : TokenLockedBalance) (xs ys : List TokenLockedBalance) (token : Address) (t : Bool)
    → (x.token == token) ≡ t
    → (covers xs ys ≡ true → lists xs token ≡ true → total_of ys token ≡ total_of xs token)
    → covers (x ∷ xs) ys ≡ true
    → lists (x ∷ xs) token ≡ true
    → total_of ys token ≡ total_of (x ∷ xs) token
unfolding covers lists total_of
covered_at x xs ys token true e ih c l =
    let same : x.token ≡ token = ground arith in
    let total : total_of ys x.token ≡ x.total_locked =
      eqb_ℤ_sound (total_of ys x.token) x.total_locked (ground arith) in
    rw (e, ← same) total
covered_at x xs ys token false e ih c l = rw e (ih (ground arith) (ground arith))

covered :
    (xs ys : List TokenLockedBalance) (token : Address)
    → covers xs ys ≡ true
    → lists xs token ≡ true
    → total_of ys token ≡ total_of xs token
unfolding lists
covered [] ys token c l = ground arith
covered (x ∷ xs) ys token c l =
    covered_at x xs ys token (x.token == token) refl (covered xs ys token) c l

skip_head :
    (x : TokenLockedBalance) (xs : List TokenLockedBalance) (token : Address)
    → are_single (x ∷ xs) ≡ true
    → lists xs token ≡ true
    → total_of (x ∷ xs) token ≡ total_of xs token
unfolding total_of are_single lists
skip_head x xs token single l = other (x.token == token) refl
  where
    other : (t : Bool) → (x.token == token) ≡ t → total_of (x ∷ xs) token ≡ total_of xs token
    other true e =
        let same : x.token ≡ token = ground arith in
        let absent : lists xs x.token ≡ false = ground arith in ground (arith, rw same at absent)
    other false e = rw e refl

covers_complete :
    (xs ys : List TokenLockedBalance)
    → are_single xs ≡ true
    → ((token : Address) → lists xs token ≡ true → total_of ys token ≡ total_of xs token)
    → covers xs ys ≡ true
unfolding covers lists total_of are_single
covers_complete [] ys single same = refl
covers_complete (x ∷ xs) ys single same =
    let head : total_of ys x.token ≡ x.total_locked =
      rw (==_refl x.token) at (same x.token (rw (==_refl x.token) refl)) in
    let tail : covers xs ys ≡ true =
      covers_complete xs ys (ground arith)
        (λ token l. same token (ground arith) ∙ skip_head x xs token single l) in
    rw (head, eqb_ℤ_refl, tail) refl

unlisted :
    (xs : List TokenLockedBalance) (token : Address)
    → lists xs token ≡ false
    → total_of xs token ≡ pos 0
unfolding lists total_of
unlisted [] token l = refl
unlisted (x ∷ xs) token l = ground (arith, unlisted xs token)

-- Two lists that cover each other give every token one total.
agree :
    (xs ys : List TokenLockedBalance) (token : Address) (t u : Bool)
    → lists xs token ≡ t
    → lists ys token ≡ u
    → covers xs ys ≡ true
    → covers ys xs ≡ true
    → total_of xs token ≡ total_of ys token
agree xs ys token true u e f c d = sym (covered xs ys token c e)
agree xs ys token false true e f c d = covered ys xs token d f
agree xs ys token false false e f c d = unlisted xs token e ∙ sym (unlisted ys token f)

-- Two statistics in which no token has two entries match exactly if they count as many active wills
-- and give every token the same total, where a token without an entry has zero.
pub stats_match_iff :
    (a b : ProtocolStats)
    → are_single a.total_locked_by_token ≡ true
    → are_single b.total_locked_by_token ≡ true
    → (stats_match a b ≡ true) ↔ (
        (a.active_will_count ≡ b.active_will_count)
        × ((token : Address)
            → total_of a.total_locked_by_token token ≡ total_of b.total_locked_by_token token))
unfolding stats_match
stats_match_iff a b single_a single_b = (
  λ h. (
    ground arith,
    λ token.
        agree a.total_locked_by_token b.total_locked_by_token token
          (lists a.total_locked_by_token token) (lists b.total_locked_by_token token) refl refl
          (ground arith) (ground arith),
  ),
  λ (count, same).
      (let left =
          covers_complete a.total_locked_by_token b.total_locked_by_token single_a
            (λ token l. sym (same token)) in
        let right =
          covers_complete b.total_locked_by_token a.total_locked_by_token single_b
            (λ token l. same token) in
        rw (count, ==_refl, left, right) refl),
)
