-- ===== src/Storage/Indexes/Walks/Complete.antt =====
-- Walking an index page by page, each with the last id of the page before it as its cursor.
use sorowill_contracts.Prelude.{
  ℕ, zero, suc, ◌+◌, ◌-◌, ◌<◌, ◌≤◌, ◌≡◌, refl, sym, ap, subst, ◌∙◌, Bool, true, false, Option, none,
  some, List, [], ◌∷◌, ◌++◌, min, arith, length, length-append,
}
use sorowill_contracts.Storage.Indexes.{max_page_size, is_past, last, paginate_ids}
use sorowill_contracts.Storage.Indexes.Walks.{
  IsAbove, IsAscending, past, first, paginate_ids-eq-first,
}

-- The walk of a client, on fuel: an empty page ends it.
abbrev walk_on : List ℕ → (Option ℕ → List ℕ) → List ℕ
walk_on [] next = []
walk_on (id ∷ ids) next = (id ∷ ids) ++ next (last (id ∷ ids))

unfoldable pub walk : List ℕ → ℕ → ℕ → Option ℕ → List ℕ
walk ids limit zero cursor = []
walk ids limit (suc fuel) cursor = walk_on (paginate_ids ids cursor limit) (walk ids limit fuel)

IsAbove-lower : (k j : ℕ) (ids : List ℕ) → k < j → IsAbove j ids → IsAbove k ids
IsAbove-lower k j [] h above = tt
IsAbove-lower k j (id ∷ ids) h (lt, above) = (omega arith, above)

kept-IsAbove :
    (cursor : Option ℕ) (k id : ℕ) (ids : List ℕ) (t : Bool)
    → is_past cursor id ≡ t
    → k < id
    → IsAbove id (past cursor ids)
    → IsAbove k (past cursor (id ∷ ids))
unfolding past
kept-IsAbove cursor k id ids true e lt above = rw e (IsAbove-lower k id (past cursor ids) lt above)
kept-IsAbove cursor k id ids false e lt above = rw e (lt, above)

past-IsAbove :
    (cursor : Option ℕ) (k : ℕ) (ids : List ℕ) → IsAbove k ids → IsAbove k (past cursor ids)
unfolding past
past-IsAbove cursor k [] above = tt
past-IsAbove cursor k (id ∷ ids) (lt, above) =
    kept-IsAbove cursor k id ids (is_past cursor id) refl lt (past-IsAbove cursor id ids above)

past_all : (k : ℕ) (ids : List ℕ) → IsAbove k ids → past (some k) ids ≡ ids
unfolding past
past_all k [] above = refl
past_all k (id ∷ ids) (lt, above) = ground (arith, past_all k ids (IsAbove-lower k id ids lt above))

-- The last id of a nonempty list above `k` is above `k`.
last_above :
    (k id : ℕ) (ids : List ℕ)
    → k < id
    → IsAbove id ids
    → (l : ℕ) × (last (id ∷ ids) ≡ some l) × (k < l)
last_above k id [] lt above = (id, refl, lt)
last_above k id (next ∷ ids) lt (lt', above) = last_above k next ids (omega arith) above

first-IsAbove : (n k : ℕ) (ids : List ℕ) → IsAbove k ids → IsAbove k (first n ids)
unfolding first
first-IsAbove zero k ids above = tt
first-IsAbove (suc n) k [] above = tt
first-IsAbove (suc n) k (id ∷ ids) (lt, above) = (lt, first-IsAbove n id ids above)

-- The first ids, and what lies past the last of them.
split_at :
    (n id : ℕ) (ids : List ℕ)
    → IsAbove id ids
    → first (suc n) (id ∷ ids) ++ past (last (first (suc n) (id ∷ ids))) (id ∷ ids) ≡ id ∷ ids
unfolding first past
split_at zero id ids above = ground (arith, past_all id ids above)
split_at (suc n) id [] above = ground arith
split_at (suc n) id (next ∷ ids) (lt, above) =
    let (l, e, beyond) = last_above id next (first n ids) lt (first-IsAbove n next ids above) in
    let rest = split_at n next ids above in ap (λ (t : List ℕ). id ∷ t) (ground (arith, e, rest))

-- A later cursor passes over all that an earlier one does.
past-past :
    (cursor : Option ℕ) (l : ℕ) (ids : List ℕ)
    → is_past cursor l ≡ false
    → past (some l) (past cursor ids) ≡ past (some l) ids
unfolding past
past-past cursor l [] h = refl
past-past none l (id ∷ ids) h = ground (arith, past-past none l ids h)
past-past (some k) l (id ∷ ids) h = ground (arith, past-past (some k) l ids h)

IsAscending-tail : (id : ℕ) (ids : List ℕ) → IsAbove id ids → IsAscending ids
IsAscending-tail id [] above = tt
IsAscending-tail id (next ∷ ids) (lt, above) = above

last_or_first : (x : ℕ) (xs : List ℕ) → (l : ℕ) × (last (x ∷ xs) ≡ some l) × (x ≡ x)
last_or_first x [] = (x, refl, refl)
last_or_first x (y ∷ ys) = let (l, e, _) = last_or_first y ys in (l, e, refl)

beyond_at :
    (k id : ℕ) (ids : List ℕ) (t : Bool)
    → is_past (some k) id ≡ t
    → IsAbove id (past (some k) ids)
    → IsAbove k (past (some k) ids)
    → IsAbove k (past (some k) (id ∷ ids))
unfolding past
beyond_at k id ids true e above beyond = rw e beyond
beyond_at k id ids false e above beyond = rw e (ground arith, above)

-- The ids past a cursor are above it.
past_beyond : (k : ℕ) (ids : List ℕ) → IsAscending ids → IsAbove k (past (some k) ids)
unfolding past
past_beyond k [] ascending = tt
past_beyond k (id ∷ ids) ascending =
    beyond_at k id ids (is_past (some k) id) refl (past-IsAbove (some k) id ids ascending)
      (past_beyond k ids (IsAscending-tail id ids ascending))

-- Where the ids past the cursor start with `x`, the last id of the page lies past the cursor.
page_ends :
    (cursor : Option ℕ) (ids : List ℕ) (n x : ℕ) (xs : List ℕ)
    → IsAscending ids
    → IsAbove x xs
    → past cursor ids ≡ x ∷ xs
    → (l : ℕ) × (last (x ∷ first n xs) ≡ some l) × (is_past cursor l ≡ false)
page_ends none ids n x xs ascending above e =
    let (l, el, _) = last_or_first x (first n xs) in (l, el, refl)
page_ends (some k) ids n x xs ascending above e =
    let (lt, _) = subst (IsAbove k) e (past_beyond k ids ascending) in
    let (l, el, beyond) = last_above k x (first n xs) lt (first-IsAbove n x xs above) in
    (l, el, ground arith)

rest_after :
    (n x : ℕ) (xs : List ℕ) (l : ℕ) (rest : List ℕ)
    → IsAbove x xs
    → last (x ∷ first n xs) ≡ some l
    → past (some l) (x ∷ xs) ≡ rest
    → (x ∷ first n xs) ++ rest ≡ x ∷ xs
unfolding first
rest_after n x xs l rest above ends same = rw (← same, ← ends) (split_at n x xs above)

shorter :
    (x : ℕ) (page rest xs : List ℕ) (fuel : ℕ)
    → (x ∷ page) ++ rest ≡ x ∷ xs
    → length (x ∷ xs) ≤ suc fuel
    → length rest ≤ fuel
shorter x page rest xs fuel whole enough =
    let k = length-append (x ∷ page) rest in
    let sum : length (x ∷ xs) ≡ length (x ∷ page) + length rest = sym (ap length whole) ∙ k in
    omega arith

walk_from :
    (ids : List ℕ) (limit fuel : ℕ) (cursor : Option ℕ) (n : ℕ) (xs : List ℕ)
    → IsAscending ids
    → min limit max_page_size ≡ suc n
    → past cursor ids ≡ xs
    → IsAscending xs
    → length xs ≤ suc fuel
    → ((l : ℕ)
        → length (past (some l) ids) ≤ fuel
        → walk ids limit fuel (some l) ≡ past (some l) ids)
    → walk ids limit (suc fuel) cursor ≡ xs
unfolding walk first
walk_from ids limit fuel cursor n [] ascending page e above enough ih =
    rw (paginate_ids-eq-first ids cursor limit ascending, page, e) refl
walk_from ids limit fuel cursor n (x ∷ xs) ascending page e above enough ih =
    let (l, ends, later) = page_ends cursor ids n x xs ascending above e in
    let same : past (some l) (x ∷ xs) ≡ past (some l) ids =
      subst (λ (ys : List ℕ). past (some l) ys ≡ past (some l) ids) e
        (past-past cursor l ids later) in
    let whole : (x ∷ first n xs) ++ past (some l) ids ≡ x ∷ xs =
      rest_after n x xs l (past (some l) ids) above ends same in
    let fewer : length (past (some l) ids) ≤ fuel =
      shorter x (first n xs) (past (some l) ids) xs fuel whole enough in
    rw (paginate_ids-eq-first ids cursor limit ascending, page, e, ends, ih l fewer) whole

IsAscending-at :
    (cursor : Option ℕ) (id : ℕ) (ids : List ℕ) (t : Bool)
    → is_past cursor id ≡ t
    → IsAbove id (past cursor ids)
    → IsAscending (past cursor ids)
    → IsAscending (past cursor (id ∷ ids))
unfolding past
IsAscending-at cursor id ids true e above ascending = rw e ascending
IsAscending-at cursor id ids false e above ascending = rw e above

past-IsAscending :
    (cursor : Option ℕ) (ids : List ℕ) → IsAscending ids → IsAscending (past cursor ids)
unfolding past
past-IsAscending cursor [] ascending = tt
past-IsAscending cursor (id ∷ ids) ascending =
    IsAscending-at cursor id ids (is_past cursor id) refl (past-IsAbove cursor id ids ascending)
      (past-IsAscending cursor ids (IsAscending-tail id ids ascending))

empty_list : (xs : List ℕ) → length xs ≤ 0 → [] ≡ xs
empty_list [] h = refl
empty_list (x ∷ xs) h = ground arith

-- A walk over an index in strictly ascending order, with a limit of at least one and as much fuel as
-- there are ids past the cursor it starts from, ends with exactly those ids, each once and in order.
pub walk_complete :
    (ids : List ℕ) (limit fuel : ℕ) (cursor : Option ℕ)
    → IsAscending ids
    → 1 ≤ limit
    → length (past cursor ids) ≤ fuel
    → walk ids limit fuel cursor ≡ past cursor ids
unfolding walk
walk_complete ids limit zero cursor ascending positive enough = empty_list (past cursor ids) enough
walk_complete ids limit (suc fuel) cursor ascending positive enough =
    let page : min limit max_page_size ≡ suc (min limit max_page_size - 1) = omega arith in
    walk_from ids limit fuel cursor (min limit max_page_size - 1) (past cursor ids) ascending page
      refl (past-IsAscending cursor ids ascending) enough
      (λ l fits. walk_complete ids limit fuel (some l) ascending positive fits)
