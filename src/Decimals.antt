-- ===== src/Decimals.antt =====
-- Rounding in the default context of `decimal.Decimal`, 28 significant digits with ties to even, as
-- the ledger, the risk engine and the accounting use it. Results are integers, in the unit of the
-- operands. `digits` counts with 128 units of fuel: no coefficient of the program reaches 10¹²⁸, since
-- amounts have at most 28 digits and a quotient's numerator at most 28 + 46 + 28 more. Below that
-- bound the count is that of all the digits (`digits_enough`).
use arima_executive_os.Common.{
  ℕ, zero, suc, ◌+◌, ◌-◌, ◌*◌, ◌/◌, ◌%◌, ◌^◌, ◌≤◌, ◌<◌, ◌≡◌, refl, ◌==◌, ltb, false, if◌then◌else◌,
  inl, inr, Bool-cases, arith, ℤ, pos, negsuc, pos_part, neg, abs, ◌≤ℤ◌, ◌<ℤ◌,
}
use native.Mathlib.Nat.{pow-succ', div-add-mod, mod-lt}

-- The precision of the default context.
abbrev pub precision : ℕ
precision = 28

-- The quotient rounded half to even.
unfoldable pub round_half_even : ℕ → ℕ → ℕ
round_half_even n d =
    let q = n / d in
    let r = n % d in
    if ltb (2 * r) d then q else if ltb d (2 * r) then q + 1 else if q % 2 == 0 then q else q + 1

unfoldable pub digits : ℕ → ℕ → ℕ
digits zero n = 0
digits (suc fuel) n = let rest = digits fuel (n / 10) in if ltb 0 n then suc rest else 0

-- `n / d` to 28 significant digits.
unfoldable pub significant : ℕ → ℕ → ℕ
significant n d =
    let unit = 10 ^ (digits 128 (n / d) - precision) in round_half_even n (d * unit) * unit

abbrev pub with_sign : ℤ → ℕ → ℤ
with_sign (pos _) n = pos n
with_sign (negsuc _) n = neg (pos n)

-- A sum, a difference or a product as the context returns it.
unfoldable pub in_context : ℤ → ℤ
in_context c = with_sign c (significant (pos_part (abs c)) 1)

-- The rounded quotient is within half a unit of the exact one.
pub round_half_even_near :
    (n d : ℕ)
    → 0 < d
    → (2 * (round_half_even n d * d) ≤ 2 * n + d) × (2 * n ≤ 2 * (round_half_even n d * d) + d)
unfolding round_half_even
round_half_even_near n d h = grind (arith, div-add-mod n d, mod-lt n h)

pow_ten : (n : ℕ) → 10 ^ suc n ≡ 10 * 10 ^ n
pow_ten n = pow-succ' 10 n

digits_step : (n p q : ℕ) → n / 10 < q → p ≡ 10 * q → n < p
digits_step n p q h e = omega arith

tenth_below : (n p q : ℕ) → n < p → p ≡ 10 * q → n / 10 < q
tenth_below n p q h e = omega arith

below_one : (n : ℕ) → ltb 0 n ≡ false → n < 10 ^ 0
below_one n e = ground arith

-- Where the fuel covers the number, `digits` counts its decimal digits.
digits_enough : (fuel n : ℕ) → n < 10 ^ fuel → n < 10 ^ digits fuel n
unfolding digits
digits_enough zero n h = h
digits_enough (suc fuel) n h = elim (Bool-cases (ltb 0 n)) [
  | inr e ↦ rw e (below_one n e)
  | inl e ↦ rw e (
      digits_step n (10 ^ suc (digits fuel (n / 10))) (10 ^ digits fuel (n / 10))
        (digits_enough fuel (n / 10) (tenth_below n (10 ^ suc fuel) (10 ^ fuel) h (pow_ten fuel)))
        (pow_ten (digits fuel (n / 10))))
]

pub digits_at_most : (fuel k n : ℕ) → n < 10 ^ k → digits fuel n ≤ k
unfolding digits
digits_at_most zero k n h = omega arith
digits_at_most (suc fuel) zero n h = ground arith
digits_at_most (suc fuel) (suc k) n h =
    let rest = digits_at_most fuel k (n / 10) (tenth_below n (10 ^ suc k) (10 ^ k) h (pow_ten k)) in
    elim (Bool-cases (ltb 0 n)) [ inl e ↦ rw e (omega (arith, rest)) | inr e ↦ rw e (omega arith) ]

round_half_even_one : (n : ℕ) → round_half_even n 1 ≡ n
round_half_even_one n =
    let (low, high) = round_half_even_near n 1 (omega arith) in omega (arith, low, high)

significant_exact : (n : ℕ) → n < 10 ^ precision → significant n 1 ≡ n
unfolding significant
significant_exact n h =
    let one : n / 1 ≡ n = omega arith in
    let few : digits 128 n - precision ≡ 0 = omega (arith, digits_at_most 128 precision n h) in
    rw (one, few) (omega (arith, round_half_even_one n))

-- A value of at most 28 digits is its own result.
pub in_context_exact : (c : ℤ) → pos 0 ≤ℤ c → c <ℤ pos (10 ^ precision) → in_context c ≡ c
unfolding in_context
in_context_exact (pos n) h k = rw (significant_exact n (omega (arith, k))) refl
in_context_exact (negsuc n) h k = absurd (omega arith)
