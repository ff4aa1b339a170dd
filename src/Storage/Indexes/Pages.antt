-- ===== src/Storage/Indexes/Pages.antt =====
-- The pages of an index.
use sorowill_contracts.Prelude.{
  ℕ, ◌≤◌, ◌≡◌, ◌-◌, true, false, Option, List, [], ◌∷◌, min, arith, length, contains,
}
use sorowill_contracts.Storage.Indexes.{max_page_size, is_past, take_page, paginate_ids}

length-take_page :
    (cursor : Option ℕ) (room : ℕ) (ids : List ℕ) → length (take_page cursor room ids) ≤ room
unfolding take_page
length-take_page cursor room [] = omega arith
length-take_page cursor room (id ∷ ids) =
    ground (arith, length-take_page cursor room ids, length-take_page cursor (room - 1) ids)

-- A page holds at most the requested number of ids, and at most 50.
length-paginate_ids :
    (ids : List ℕ) (cursor : Option ℕ) (limit : ℕ)
    → length (paginate_ids ids cursor limit) ≤ min limit max_page_size
unfolding paginate_ids
length-paginate_ids ids cursor limit =
    ground (arith, length-take_page cursor (min limit max_page_size) ids)

take_page-subset :
    (cursor : Option ℕ) (room : ℕ) (ids : List ℕ) (j : ℕ)
    → contains (take_page cursor room ids) j ≡ true
    → (contains ids j ≡ true) × (is_past cursor j ≡ false)
unfolding take_page contains
take_page-subset cursor room [] j h = ground arith
take_page-subset cursor room (id ∷ ids) j h =
    ground (arith, take_page-subset cursor room ids j, take_page-subset cursor (room - 1) ids j)

-- Every id of a page is in the index and lies past the cursor.
paginate_ids-subset :
    (ids : List ℕ) (cursor : Option ℕ) (limit j : ℕ)
    → contains (paginate_ids ids cursor limit) j ≡ true
    → (contains ids j ≡ true) × (is_past cursor j ≡ false)
unfolding paginate_ids contains
paginate_ids-subset ids cursor limit j h =
    ground (arith, take_page-subset cursor (min limit max_page_size) ids j)
