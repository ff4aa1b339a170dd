-- ===== src/Shares/Bounds.antt =====
-- The share arithmetic on balances that are not negative.
use sorowill_contracts.Prelude.{ℕ, ◌*◌, ◌/◌, ◌%◌, ◌+◌, ◌≤◌, ◌≡◌, ap, arith}
use sorowill_contracts.Prelude.Int.{pos, div_ℤ, mod_ℤ, pos_add, pos_mul}
use sorowill_contracts.Prelude.Words.{i128_max}
use sorowill_contracts.Errors.{ok}
use sorowill_contracts.Env.Action.{add_i128, mul_i128}
use sorowill_contracts.Shares.{proportional_share}

mul_le : (q b : ℕ) → b ≤ 10000 → q * b ≤ q * 10000
mul_le q b h = grind arith

split_mul : (n b : ℕ) → n * b ≡ (n / 10000) * b * 10000 + (n % 10000) * b
split_mul n b =
    let e : n ≡ (n / 10000) * 10000 + n % 10000 = omega arith in
    omega (arith, ap (λ (t : ℕ). t * b) e)

-- Splitting the total into quotient and remainder loses nothing of the floor.
split_floor : (n b : ℕ) → (n / 10000) * b + (n % 10000) * b / 10000 ≡ n * b / 10000
split_floor n b = omega (arith, split_mul n b)

pub share_le : (n b : ℕ) → b ≤ 10000 → n * b / 10000 ≤ n
share_le n b h = let e : n * b ≤ n * 10000 = mul_le n b h in omega arith

checked_pos : (n : ℕ) → n ≤ i128_max → add_i128 (pos 0) (pos n) ≡ ok (pos n)
checked_pos n h = rw pos_add (ground arith)

mul_pos : (a b : ℕ) → a * b ≤ i128_max → mul_i128 (pos a) (pos b) ≡ ok (pos (a * b))
mul_pos a b h = rw pos_mul (ground arith)

add_pos : (a b : ℕ) → a + b ≤ i128_max → add_i128 (pos a) (pos b) ≡ ok (pos (a + b))
add_pos a b h = rw pos_add (ground arith)

-- For every balance that an i128 holds and every share up to 10,000 basis points the result is the
-- exact floor of balance times share over 10,000, and no step overflows.
pub proportional_share-eq-floor :
    (n b : ℕ) → n ≤ i128_max → b ≤ 10000 → proportional_share (pos n) b ≡ ok (pos (n * b / 10000))
unfolding proportional_share div_ℤ mod_ℤ
proportional_share-eq-floor n b h k =
    let quotient : (n / 10000) * b ≤ (n / 10000) * 10000 = mul_le (n / 10000) b k in
    let rest : (n % 10000) * b ≤ (n % 10000) * 10000 = mul_le (n % 10000) b k in
    let small : n * b / 10000 ≤ n = share_le n b k in
    let floor : (n / 10000) * b + (n % 10000) * b / 10000 ≡ n * b / 10000 = split_floor n b in
    rw (
      mul_pos (n / 10000) b (omega arith),
      mul_pos (n % 10000) b (omega arith),
      add_pos ((n / 10000) * b) ((n % 10000) * b / 10000) (omega arith),
      floor,
    )
