-- ===== src/Storage/Indexes/Walks.antt =====
-- The pages of an index against the list of ids that lie past a cursor.
pub mod Complete
use sorowill_contracts.Prelude.{
  ℕ, zero, suc, ◌-◌, ◌<◌, ◌≤◌, ◌≡◌, refl, Bool, true, false, Option, none, some, List, [], ◌∷◌,
  ◌++◌, ◌==◌, ltb, leb, min, arith, length, if◌then◌else◌, All,
}
use sorowill_contracts.Storage.Indexes.{
  max_page_size, is_past, last, is_exhausted, take_page, paginate_ids,
}

-- The ids are in strictly ascending order.
abbrev pub IsAbove : ℕ → List ℕ → Type 0
IsAbove k [] = Unit
IsAbove k (id ∷ ids) = (k < id) × IsAbove id ids

abbrev pub IsAscending : List ℕ → Type 0
IsAscending [] = Unit
IsAscending (id ∷ ids) = IsAbove id ids

-- The ids past a cursor, and the first ids of a list.
unfoldable pub past : Option ℕ → List ℕ → List ℕ
past cursor [] = []
past cursor (id ∷ ids) = let rest = past cursor ids in if is_past cursor id then rest else id ∷ rest

unfoldable pub first : ℕ → List ℕ → List ℕ
first zero ids = []
first (suc n) [] = []
first (suc n) (id ∷ ids) = id ∷ first n ids

take_page-eq-first :
    (cursor : Option ℕ) (room : ℕ) (ids : List ℕ)
    → take_page cursor room ids ≡ first room (past cursor ids)
unfolding take_page past first
take_page-eq-first cursor zero [] = refl
take_page-eq-first cursor (suc room) [] = refl
take_page-eq-first cursor zero (id ∷ ids) = ground (arith, take_page-eq-first cursor zero ids)
take_page-eq-first cursor (suc room) (id ∷ ids) =
    ground (arith, take_page-eq-first cursor (suc room) ids, take_page-eq-first cursor room ids)

-- Where the last id is not past the cursor, none is.
exhausted_past :
    (cursor id : ℕ) (ids : List ℕ)
    → IsAbove id ids
    → is_exhausted (some cursor) (last (id ∷ ids)) ≡ true
    → past (some cursor) (id ∷ ids) ≡ []
unfolding past
exhausted_past cursor id [] above h = ground arith
exhausted_past cursor id (next ∷ ids) (lt, above) h =
    ground (arith, exhausted_past cursor next ids above h)

no_more :
    (ids : List ℕ) (cursor : Option ℕ)
    → IsAscending ids
    → is_exhausted cursor (last ids) ≡ true
    → past cursor ids ≡ []
unfolding past
no_more [] cursor ascending h = refl
no_more (id ∷ ids) none ascending h = ground arith
no_more (id ∷ ids) (some cursor) ascending h = exhausted_past cursor id ids ascending h

nothing_first : (n : ℕ) → first n [] ≡ []
unfolding first
nothing_first zero = refl
nothing_first (suc n) = refl

paginated :
    (ids : List ℕ) (cursor : Option ℕ) (limit : ℕ) (t : Bool)
    → is_exhausted cursor (last ids) ≡ t
    → IsAscending ids
    → paginate_ids ids cursor limit ≡ first (min limit max_page_size) (past cursor ids)
unfolding paginate_ids first
paginated ids cursor limit true e ascending =
    let nothing = no_more ids cursor ascending e in
    ground (arith, nothing, nothing_first (min limit max_page_size))
paginated ids cursor limit false e ascending =
    ground (arith, take_page-eq-first cursor (min limit max_page_size) ids)

-- A page of an index in strictly ascending order is the list of the first ids past the cursor: as
-- many as the limit allows, and at most 50.
pub paginate_ids-eq-first :
    (ids : List ℕ) (cursor : Option ℕ) (limit : ℕ)
    → IsAscending ids
    → paginate_ids ids cursor limit ≡ first (min limit max_page_size) (past cursor ids)
paginate_ids-eq-first ids cursor limit ascending =
    paginated ids cursor limit (is_exhausted cursor (last ids)) refl ascending
