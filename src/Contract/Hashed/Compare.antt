-- ===== src/Contract/Hashed/Compare.antt =====
-- The comparison that takes the same time for all bytes is equality.
use Prim.Native.Nat.{bit_or, bit_xor, digits, differ, bit_or-bitwise, bit_xor-bitwise}
use sorowill_contracts.Prelude.{
  ℕ, zero, suc, ◌/◌, ◌%◌, ◌≤◌, ◌≡◌, ◌↔◌, refl, true, [], ◌∷◌, arith, max, length,
}
use sorowill_contracts.Types.{Bytes}
use sorowill_contracts.Contract.Hashed.{byte_difference, constant_time_bytes_eq}

differ_zero : (x y : ℕ) → (differ x y ≡ 0) ↔ (x ≡ y)
differ_zero zero y = (λ h. omega arith, λ h. omega arith)
differ_zero (suc x) zero = (λ h. omega arith, λ h. omega arith)
differ_zero (suc x) (suc y) = ground (arith, differ_zero x y)

xor_zero : (n a b : ℕ) → a ≤ n → (digits (λ d. d) differ n a b ≡ 0) ↔ (a ≡ b)
xor_zero zero a b h = (λ e. omega arith, λ e. omega arith)
xor_zero (suc n) zero b h = (λ e. omega arith, λ e. omega arith)
xor_zero (suc n) (suc a) b h =
    let (low, low') = differ_zero (suc a % 2) (b % 2) in
    let (high, high') = xor_zero n (suc a / 2) (b / 2) (omega arith) in
    (
      λ e. (let d = high (omega arith) in let l = low (omega arith) in omega arith),
      λ e. (let d = high' (omega arith) in let l = low' (omega arith) in omega arith),
    )

or_zero : (n a b : ℕ) → a ≤ n → (digits (λ d. d) max n a b ≡ 0) ↔ ((a ≡ 0) × (b ≡ 0))
or_zero zero a b h = (λ e. (omega arith, e), λ e. e.1)
or_zero (suc n) zero b h = (λ e. (refl, e), λ e. e.1)
or_zero (suc n) (suc a) b h =
    let (high, high') = or_zero n (suc a / 2) (b / 2) (omega arith) in
    (λ e. (let (d, l) = high (omega arith) in (omega arith, omega arith)), λ (e, f). omega arith)

bit_xor_zero : (a b : ℕ) → (bit_xor a b ≡ 0) ↔ (a ≡ b)
bit_xor_zero a b = rw bit_xor-bitwise (xor_zero a a b (omega arith))

bit_or_zero : (a b : ℕ) → (bit_or a b ≡ 0) ↔ ((a ≡ 0) × (b ≡ 0))
bit_or_zero a b = rw bit_or-bitwise (or_zero a a b (omega arith))

difference_zero :
    (xs ys : Bytes) (diff : ℕ)
    → length xs ≡ length ys
    → (byte_difference xs ys diff ≡ 0) ↔ ((diff ≡ 0) × (xs ≡ ys))
unfolding byte_difference
difference_zero [] [] diff e = (λ h. (h, refl), λ h. h.0)
difference_zero [] (y ∷ ys) diff e = ground arith
difference_zero (x ∷ xs) [] diff e = ground arith
difference_zero (x ∷ xs) (y ∷ ys) diff e = ground (
  arith,
  difference_zero xs ys (bit_or diff (bit_xor x y)),
  bit_or_zero diff (bit_xor x y),
  bit_xor_zero x y,
)

-- The comparison that gathers the differences of all bytes says yes exactly on equal byte strings.
pub constant_time_bytes_eq_iff : (a b : Bytes) → (constant_time_bytes_eq a b ≡ true) ↔ (a ≡ b)
unfolding constant_time_bytes_eq
constant_time_bytes_eq_iff a b = (
  λ h. let (_, same) = (difference_zero a b 0 (ground arith)).0 (ground arith) in same,
  λ h. rw h (ground (arith, difference_zero b b 0 refl)),
)
