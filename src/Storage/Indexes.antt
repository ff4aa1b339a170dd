-- ===== src/Storage/Indexes.antt =====
-- storage.rs: the lists of will ids by owner, by beneficiary and of the triggered wills.
pub mod Members
pub mod Pages
pub mod Walks
use sorowill_contracts.Prelude.{
  ℕ, ◌-◌, Bool, true, false, ◌||◌, Option, none, some, List, [], ◌∷◌, ◌++◌, ltb, leb, ◌==◌, min,
  length, contains, update, if◌then◌else◌,
}
use sorowill_contracts.Errors.{
  too_many_wills, contract_error, Result, ok, err, panic_if, ◌>>=◌, ◌>>◌,
}
use sorowill_contracts.Types.{Address, Beneficiary}
use sorowill_contracts.Env.{Env}
use sorowill_contracts.Env.Action.{Action}

-- The deployed value; test builds use 10.
abbrev pub max_wills_per_index : ℕ
max_wills_per_index = 1000

abbrev pub max_page_size : ℕ
max_page_size = 50

abbrev pub ids_or_empty : Option (List ℕ) → List ℕ
ids_or_empty none = []
ids_or_empty (some ids) = ids

-- `index_push`, on the stored list.
unfoldable pub index_push : Option (List ℕ) → ℕ → Result (Option (List ℕ))
unfolding contains
index_push entry will_id =
    let ids = ids_or_empty entry in
    if contains ids will_id
    then ok entry
    else if leb max_wills_per_index (length ids)
    then err (contract_error too_many_wills)
    else ok (some (ids ++ will_id ∷ []))

unfoldable pub assert_single_index_capacity : Option (List ℕ) → Result (Unit {0})
assert_single_index_capacity entry =
    panic_if (leb max_wills_per_index (length (ids_or_empty entry))) too_many_wills

unfoldable pub assert_beneficiaries_capacity : List Beneficiary → Env → Result (Unit {0})
unfolding assert_single_index_capacity
assert_beneficiaries_capacity [] env = ok tt
assert_beneficiaries_capacity (b ∷ beneficiaries) env = do
  assert_single_index_capacity (env.beneficiary_wills b.address)
  assert_beneficiaries_capacity beneficiaries env

unfoldable pub assert_index_capacity : Address → List Beneficiary → Env → Result (Unit {0})
unfolding assert_beneficiaries_capacity
assert_index_capacity owner beneficiaries env = do
  assert_single_index_capacity (env.owner_wills owner)
  assert_beneficiaries_capacity beneficiaries env

unfoldable pub index_by_owner : Address → ℕ → Action (Unit {0})
index_by_owner owner will_id env = elim (index_push (env.owner_wills owner) will_id) [
  | ok entry ↦ ok (tt, record env { owner_wills = update env.owner_wills owner entry })
  | err t ↦ err t
]

unfoldable pub index_by_beneficiary : Address → ℕ → Action (Unit {0})
index_by_beneficiary beneficiary will_id env =
    elim (index_push (env.beneficiary_wills beneficiary) will_id) [
      | ok entry ↦
          ok (tt, record env { beneficiary_wills = update env.beneficiary_wills beneficiary entry })
      | err t ↦ err t
    ]

-- The loop that keeps every id but one.
unfoldable pub without : List ℕ → ℕ → List ℕ
without [] will_id = []
without (id ∷ ids) will_id =
    let rest = without ids will_id in if id == will_id then rest else id ∷ rest

-- An id is taken off a stored list, if the list is there and holds it.
unfoldable pub remove_index : Option (List ℕ) → ℕ → Option (List ℕ)
unfolding without contains
remove_index none will_id = none
remove_index (some ids) will_id =
    if contains ids will_id then some (without ids will_id) else some ids

unfoldable pub remove_beneficiary_index : Address → ℕ → Env → Env
remove_beneficiary_index beneficiary will_id env = record env {
  beneficiary_wills =
      update env.beneficiary_wills beneficiary
        (remove_index (env.beneficiary_wills beneficiary) will_id);
}

unfoldable pub remove_owner_index : Address → ℕ → Env → Env
remove_owner_index owner will_id env = record env {
  owner_wills = update env.owner_wills owner (remove_index (env.owner_wills owner) will_id);
}

abbrev pub get_owner_wills : Address → Env → List ℕ
get_owner_wills owner env = ids_or_empty (env.owner_wills owner)

abbrev pub get_beneficiary_wills : Address → Env → List ℕ
get_beneficiary_wills beneficiary env = ids_or_empty (env.beneficiary_wills beneficiary)

-- The triggered index has no cap.
unfoldable pub push_triggered : Option (List ℕ) → ℕ → Option (List ℕ)
unfolding contains
push_triggered entry will_id =
    if contains (ids_or_empty entry) will_id
    then entry
    else some (ids_or_empty entry ++ will_id ∷ [])

unfoldable pub index_triggered_will : ℕ → Env → Env
index_triggered_will will_id env = record env {
  triggered_wills = push_triggered env.triggered_wills will_id;
}

-- `remove_unchecked(first_index_of(id))`
unfoldable pub remove_first : List ℕ → ℕ → List ℕ
remove_first [] will_id = []
remove_first (id ∷ ids) will_id =
    let rest = remove_first ids will_id in if id == will_id then ids else id ∷ rest

unfoldable pub remove_triggered : Option (List ℕ) → ℕ → Option (List ℕ)
unfolding remove_first
remove_triggered none will_id = none
remove_triggered (some ids) will_id = some (remove_first ids will_id)

unfoldable pub unindex_triggered_will : ℕ → Env → Env
unindex_triggered_will will_id env = record env {
  triggered_wills = remove_triggered env.triggered_wills will_id;
}

abbrev pub get_triggered_wills : Env → List ℕ
get_triggered_wills env = ids_or_empty env.triggered_wills

abbrev pub is_past : Option ℕ → ℕ → Bool
is_past none id = false
is_past (some cursor) id = leb id cursor

-- The loop of `paginate_ids`: `room` is `page_size - result.len()`.
unfoldable pub take_page : Option ℕ → ℕ → List ℕ → List ℕ
take_page cursor room [] = []
take_page cursor room (id ∷ ids) =
    let skip = take_page cursor room ids in
    let keep = id ∷ take_page cursor (room - 1) ids in
    if is_past cursor id then skip else if room == 0 then [] else keep

abbrev pub last : List ℕ → Option ℕ
last [] = none
last (x ∷ []) = some x
last (x ∷ y ∷ ys) = last (y ∷ ys)

-- A cursor at or past the last id ends the walk at once.
abbrev pub is_exhausted : Option ℕ → Option ℕ → Bool
is_exhausted none newest = false
is_exhausted (some cursor) none = true
is_exhausted (some cursor) (some newest) = leb newest cursor

unfoldable pub paginate_ids : List ℕ → Option ℕ → ℕ → List ℕ
unfolding take_page
paginate_ids ids cursor limit =
    let page_size = min limit max_page_size in
    if page_size == 0
    then []
    else if is_exhausted cursor (last ids)
    then []
    else take_page cursor page_size ids

unfoldable pub get_triggered_wills_page : Option ℕ → ℕ → Env → List ℕ
unfolding paginate_ids
get_triggered_wills_page cursor limit env = paginate_ids (get_triggered_wills env) cursor limit
