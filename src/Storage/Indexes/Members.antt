-- ===== src/Storage/Indexes/Members.antt =====
-- Which ids the indexes hold after an entry or a removal.
use sorowill_contracts.Prelude.{
  ℕ, ◌≤◌, ◌≡◌, refl, not, ◌&&◌, ◌||◌, Option, none, some, List, [], ◌∷◌, ◌++◌, ◌==◌, arith, length,
  length-append, contains,
}
use sorowill_contracts.Errors.{ok}
use sorowill_contracts.Storage.Indexes.{
  max_wills_per_index, ids_or_empty, index_push, without, remove_index,
}

contains-append : (xs : List ℕ) (y j : ℕ) → contains (xs ++ y ∷ []) j ≡ (contains xs j || y == j)
unfolding contains
contains-append [] y j = ground arith
contains-append (x ∷ xs) y j = ground (arith, contains-append xs y j)

-- Entering an id in a list within the limit of 1,000 ids makes it a member, changes no other
-- membership and keeps the list within the limit.
contains-index_push :
    (entry entry' : Option (List ℕ)) (id : ℕ)
    → index_push entry id ≡ ok entry'
    → length (ids_or_empty entry) ≤ max_wills_per_index
    → ((j : ℕ) → contains (ids_or_empty entry') j ≡ (contains (ids_or_empty entry) j || id == j))
      × (length (ids_or_empty entry') ≤ max_wills_per_index)
unfolding index_push
contains-index_push entry entry' id h fits = (
  λ j. ground (arith, contains-append (ids_or_empty entry) id j),
  ground (arith, length-append (ids_or_empty entry) (id ∷ [])),
)

contains-without :
    (ids : List ℕ) (id j : ℕ) → contains (without ids id) j ≡ (contains ids j && not (id == j))
unfolding contains without
contains-without [] id j = refl
contains-without (x ∷ ids) id j = ground (arith, contains-without ids id j)

-- Removing an id ends its membership and changes no other.
pub contains-remove_index :
    (entry : Option (List ℕ)) (id j : ℕ)
    → contains (ids_or_empty (remove_index entry id)) j
      ≡ (contains (ids_or_empty entry) j && not (id == j))
unfolding remove_index contains
contains-remove_index none id j = refl
contains-remove_index (some ids) id j = ground (arith, contains-without ids id j)
