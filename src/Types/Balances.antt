-- ===== src/Types/Balances.antt =====
-- `Map<Address, i128>` of the SDK, as its documentation has it: one entry for a key, in ascending
-- order of the keys.
pub mod Lookup
use sorowill_contracts.Prelude.{
  ℕ, ◌<◌, ◌≡◌, ◌≢◌, Bool, true, false, Option, none, some, List, [], ◌∷◌, arith, ltb, ◌==◌,
  if◌then◌else◌,
}
use sorowill_contracts.Prelude.Int.{ℤ, pos}

-- `get`
unfoldable pub get : List (ℕ × ℤ) → ℕ → Option ℤ
get [] k = none
get ((j, v) ∷ m) k = if j == k then some v else get m k

-- `get(k).unwrap_or(0)`
abbrev pub value_or_zero : Option ℤ → ℤ
value_or_zero none = pos 0
value_or_zero (some v) = v

unfoldable pub get_or_zero : List (ℕ × ℤ) → ℕ → ℤ
unfolding get
get_or_zero m k = value_or_zero (get m k)

-- `contains_key`
unfoldable pub contains_key : List (ℕ × ℤ) → ℕ → Bool
contains_key [] k = false
contains_key ((j, v) ∷ m) k = if j == k then true else contains_key m k

-- `set`
unfoldable pub set : List (ℕ × ℤ) → ℕ → ℤ → List (ℕ × ℤ)
set [] k v = (k, v) ∷ []
set ((j, w) ∷ m) k v =
    let rest = set m k v in
    if j == k then (k, v) ∷ m else if ltb k j then (k, v) ∷ (j, w) ∷ m else (j, w) ∷ rest

-- `remove`
unfoldable pub remove : List (ℕ × ℤ) → ℕ → List (ℕ × ℤ)
remove [] k = []
remove ((j, w) ∷ m) k = let rest = remove m k in if j == k then m else (j, w) ∷ rest

-- Every key of the map is above `k`.
abbrev pub IsAbove : ℕ → List (ℕ × ℤ) → Type 0
IsAbove k [] = Unit
IsAbove k ((j, v) ∷ m) = (k < j) × IsAbove k m

-- The keys are in strictly ascending order, as the SDK keeps them.
abbrev pub IsSorted : List (ℕ × ℤ) → Type 0
IsSorted [] = Unit
IsSorted ((j, v) ∷ m) = IsAbove j m × IsSorted m

pub get-set_self : (m : List (ℕ × ℤ)) (k : ℕ) (v : ℤ) → get (set m k v) k ≡ some v
unfolding get set
get-set_self [] k v = ground arith
get-set_self ((j, w) ∷ m) k v = ground (arith, get-set_self m k v)

pub get-set_ne : (m : List (ℕ × ℤ)) (k j : ℕ) (v : ℤ) → k ≢ j → get (set m k v) j ≡ get m j
unfolding get set
get-set_ne [] k j v h = ground arith
get-set_ne ((i, w) ∷ m) k j v h = ground (arith, get-set_ne m k j v h)
