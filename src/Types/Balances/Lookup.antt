-- ===== src/Types/Balances/Lookup.antt =====
-- Reading a map of balances after an entry was added or replaced, and the order of its keys.
use sorowill_contracts.Prelude.{
  ℕ, ◌≡◌, ◌<◌, refl, subst, if-both, ◌==◌, ltb, true, false, List, [], ◌∷◌, arith,
}
use sorowill_contracts.Prelude.Int.{ℤ, pos}
use sorowill_contracts.Types.Balances.{
  get, get_or_zero, set, IsAbove, IsSorted, get-set_self, get-set_ne,
}

pub get_or_zero-above : (m : List (ℕ × ℤ)) (k j : ℕ) → IsAbove k m → j ≡ k → get_or_zero m j ≡ pos 0
unfolding get_or_zero get
get_or_zero-above [] k j above e = refl
get_or_zero-above ((i, v) ∷ m) k j (lt, above) e = ground (arith, get_or_zero-above m k j above e)

pub get_or_zero-cons :
    (i : ℕ) (v : ℤ) (m : List (ℕ × ℤ)) (j : ℕ)
    → get_or_zero ((i, v) ∷ m) j ≡ elim (i == j) [ true ↦ v | false ↦ get_or_zero m j ]
unfolding get_or_zero get
get_or_zero-cons i v m j = ground arith

pub get_or_zero-set :
    (m : List (ℕ × ℤ)) (k : ℕ) (v : ℤ) (j : ℕ)
    → get_or_zero (set m k v) j ≡ elim (k == j) [ true ↦ v | false ↦ get_or_zero m j ]
unfolding get_or_zero
get_or_zero-set m k v j = ground (arith, get-set_self m k v, get-set_ne m k j v)

set-IsAbove : (m : List (ℕ × ℤ)) (i k : ℕ) (v : ℤ) → i < k → IsAbove i m → IsAbove i (set m k v)
unfolding set
set-IsAbove [] i k v lt above = (lt, tt)
set-IsAbove ((j, w) ∷ m) i k v lt (lt', above) =
    if-both (IsAbove i) (j == k) _ _ (λ e. (lt, above))
      (λ e.
        if-both (IsAbove i) (ltb k j) _ _ (λ f. (lt, (lt', above)))
          (λ f. (lt', set-IsAbove m i k v lt above)))

IsAbove-trans : (i j : ℕ) (m : List (ℕ × ℤ)) → i < j → IsAbove j m → IsAbove i m
IsAbove-trans i j [] lt above = tt
IsAbove-trans i j ((k, v) ∷ m) lt (lt', above) = (omega arith, IsAbove-trans i j m lt above)

IsAbove-trans_eq : (i j : ℕ) (m : List (ℕ × ℤ)) → i ≡ j → IsAbove i m → IsAbove j m
IsAbove-trans_eq i j m e above = subst (λ (k : ℕ). IsAbove k m) e above

-- A map stays in ascending order of its keys.
pub set-IsSorted : (m : List (ℕ × ℤ)) (k : ℕ) (v : ℤ) → IsSorted m → IsSorted (set m k v)
unfolding set
set-IsSorted [] k v sorted = (tt, tt)
set-IsSorted ((j, w) ∷ m) k v (above, sorted) =
    if-both IsSorted (j == k) _ _ (λ e. (IsAbove-trans_eq j k m (ground arith) above, sorted))
      (λ e.
        if-both IsSorted (ltb k j) _ _
          (λ f. ((ground arith, IsAbove-trans k j m (ground arith) above), (above, sorted)))
          (λ f. (set-IsAbove m j k v (ground arith) above, set-IsSorted m k v sorted)))
