-- ===== src/Views/Pages.antt =====
-- lib.rs: the pages of wills; storage.rs: `paginate_history`.
use sorowill_contracts.Prelude.{
  ℕ, ◌+◌, Bool, true, false, ◌&&◌, not, Option, none, some, List, [], ◌∷◌, ◌++◌, ltb, leb, ◌==◌,
  min, length, is_empty, if◌then◌else◌,
}
use sorowill_contracts.Prelude.Words.{u32_max, saturating_add_u32}
use sorowill_contracts.Errors.{
  too_many_ids, invalid_cursor, overflow, Result, ok, err, panic_if, ◌>>=◌, ◌>>◌,
}
use sorowill_contracts.Types.{Address, Will, WillStatus, WillPage, WillStatusTransition, is_status}
use sorowill_contracts.Env.{Env}
use sorowill_contracts.Storage.Wills.{load_will}
use sorowill_contracts.Storage.Indexes.{
  max_page_size, get_owner_wills, get_beneficiary_wills, paginate_ids, get_triggered_wills_page,
}
use sorowill_contracts.Storage.History.{get_history}

abbrev pub max_get_wills_ids : ℕ
max_get_wills_ids = 50

-- The wills of a list of ids; the first that does not load aborts the call.
unfoldable load_all : List ℕ → Env → Result (List Will)
unfolding load_will
load_all [] env = ok []
load_all (id ∷ ids) env = do will ← load_will id env; wills ← load_all ids env; ok (will ∷ wills)

unfoldable pub get_wills_by_owner : Address → Option ℕ → ℕ → Env → Result (List Will)
unfolding paginate_ids load_all
get_wills_by_owner owner cursor limit env =
    load_all (paginate_ids (get_owner_wills owner env) cursor limit) env

unfoldable pub get_wills_by_beneficiary : Address → Option ℕ → ℕ → Env → Result (List Will)
unfolding paginate_ids load_all
get_wills_by_beneficiary beneficiary cursor limit env =
    load_all (paginate_ids (get_beneficiary_wills beneficiary env) cursor limit) env

abbrev pub get_triggered_wills : Option ℕ → ℕ → Env → List ℕ
get_triggered_wills cursor limit env = get_triggered_wills_page cursor limit env

-- A will in front of a list, where it loads.
abbrev loaded_then : Result Will → List Will → List Will
loaded_then (ok will) wills = will ∷ wills
loaded_then (err _) wills = wills

unfoldable load_known : List ℕ → Env → List Will
unfolding load_will
load_known [] env = []
load_known (id ∷ ids) env = loaded_then (load_will id env) (load_known ids env)

unfoldable pub get_wills : List ℕ → Env → Result (List Will)
unfolding load_known
get_wills ids env = do
  panic_if (ltb max_get_wills_ids (length ids)) too_many_ids
  ok (load_known ids env)

-- `cursor.unwrap_or(0)`
abbrev cursor_or_zero : Option ℕ → ℕ
cursor_or_zero none = 0
cursor_or_zero (some cursor) = cursor

-- What the loop of `wills_by_owner_and_status_page` gathers.
pub record Filtered : Type 0 where
  pub wills : List Will
  pub total_count : ℕ
  pub has_more : Bool

-- One iteration, on the will that was loaded.
abbrev filter_will : WillStatus → ℕ → ℕ → ℕ → Will → Filtered → Filtered
filter_will status cursor page_size id will page =
    if not (is_status will.status status)
    then page
    else if leb id cursor
    then record page { total_count = page.total_count + 1 }
    else if ltb (length page.wills) page_size
    then record page { wills = page.wills ++ will ∷ []; total_count = page.total_count + 1 }
    else record page { total_count = page.total_count + 1; has_more = true }

unfoldable filter_wills : WillStatus → ℕ → ℕ → List ℕ → Env → Filtered → Result Filtered
unfolding load_will
filter_wills status cursor page_size [] env page = ok page
filter_wills status cursor page_size (id ∷ ids) env page = do
  will ← load_will id env
  filter_wills status cursor page_size ids env (filter_will status cursor page_size id will page)

abbrev pub last_id : List Will → Option ℕ
last_id [] = none
last_id (w ∷ []) = some w.id
last_id (w ∷ v ∷ wills) = last_id (v ∷ wills)

unfoldable pub wills_by_owner_and_status_page :
    Address → WillStatus → Option ℕ → ℕ → Env → Result WillPage
unfolding filter_wills
wills_by_owner_and_status_page owner status cursor limit env = do
  page ←
      filter_wills status (cursor_or_zero cursor) (min limit max_page_size)
        (get_owner_wills owner env) env (record { wills = []; total_count = 0; has_more = false })
  ok (record {
    wills = page.wills;
    total_count = page.total_count;
    next_cursor = if page.has_more then last_id page.wills else none;
  })

unfoldable pub get_wills_by_owner_and_status :
    Address → WillStatus → Option ℕ → ℕ → Env → Result (List Will)
unfolding wills_by_owner_and_status_page
get_wills_by_owner_and_status owner status cursor limit env = do
  page ← wills_by_owner_and_status_page owner status cursor limit env
  ok page.wills

-- The first loop of `get_owner_status_page`: `skipping` until an id is past the cursor, and no
-- further than a full page.
unfoldable status_wills : WillStatus → ℕ → ℕ → List ℕ → Env → Bool → List Will → Result (List Will)
unfolding load_will
status_wills status cursor page_size [] env skipping wills = ok wills
status_wills status cursor page_size (id ∷ ids) env skipping wills =
    let skip = status_wills status cursor page_size ids env skipping wills in
    let next = load_will id env >>= λ will.
    status_wills status cursor page_size ids env false
      (if is_status will.status status then wills ++ will ∷ [] else wills) in
    if leb page_size (length wills)
    then ok wills
    else if skipping && leb id cursor
    then skip
    else next

abbrev has_status : WillStatus → Result Will → Bool
has_status status (ok will) = is_status will.status status
has_status status (err _) = false

-- The second loop, which passes over the ids that do not load.
unfoldable count_status : WillStatus → List ℕ → Env → ℕ → ℕ
unfolding load_will
count_status status [] env total = total
count_status status (id ∷ ids) env total =
    count_status status ids env (if has_status status (load_will id env) then total + 1 else total)

abbrev is_given : Option ℕ → Bool
is_given none = false
is_given (some _) = true

-- The cursor after a full page: the index `len() - 1` overflows where the page is empty.
abbrev cursor_after : ℕ → List Will → Result (Option ℕ)
cursor_after page_size wills =
    if leb page_size (length wills)
    then if is_empty wills then err overflow else ok (last_id wills)
    else ok none

unfoldable pub get_owner_status_page : Address → WillStatus → Option ℕ → ℕ → Env → Result WillPage
unfolding status_wills count_status
get_owner_status_page owner status cursor limit env = do
  let ids = get_owner_wills owner env
  let page_size = min limit max_page_size
  wills ← status_wills status (cursor_or_zero cursor) page_size ids env (is_given cursor) []
  next_cursor ← cursor_after page_size wills
  ok (record {
    wills = wills;
    total_count = count_status status ids env 0;
    next_cursor = next_cursor;
  })

-- The loop of `paginate_history`: `taken` entries are in the page, `index` is the next place.
unfoldable history_page : ℕ → ℕ → List WillStatusTransition → ℕ → ℕ → List WillStatusTransition
unfolding saturating_add_u32
history_page start page_size [] index taken = []
history_page start page_size (entry ∷ history) index taken =
    let is_in = leb start index && ltb taken page_size in
    let rest =
      history_page start page_size history (index + 1) (if is_in then taken + 1 else taken) in
    let tail = if leb (saturating_add_u32 start page_size) (index + 1) then [] else rest in
    if is_in then entry ∷ tail else tail

unfoldable pub paginate_history : ℕ → Option ℕ → ℕ → Env → List WillStatusTransition
unfolding history_page
paginate_history will_id cursor limit env =
    history_page (cursor_or_zero cursor) (min limit max_page_size) (get_history will_id env) 0 0

abbrev pub get_will_history_page : ℕ → Option ℕ → ℕ → Env → List WillStatusTransition
get_will_history_page will_id cursor limit env = paginate_history will_id cursor limit env

abbrev is_last_offset : Option ℕ → Bool
is_last_offset none = false
is_last_offset (some offset) = offset == u32_max

unfoldable pub validate_cursor : Option ℕ → Result (Unit {0})
validate_cursor cursor = panic_if (is_last_offset cursor) invalid_cursor
