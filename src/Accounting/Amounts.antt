-- ===== src/Accounting/Amounts.antt =====
-- The amounts of app/services/trade_accounting.py: which values `quantize_amount` leaves, and the
-- signs of sums and differences.
use arima_executive_os.Common.{
  ℕ, ◌*◌, ◌≡◌, refl, arith, ℤ, pos, negsuc, pos_part, ◌*ℤ◌, neg, abs, ◌≤ℤ◌, int_laws, ok,
}
use arima_executive_os.Decimals.{round_half_even, round_half_even_near, with_sign, in_context}
use arima_executive_os.Accounting.Decimals.{amount, fit, plus, minus, quantize_amount}
use arima_executive_os.Accounting.Service.{quantized}

round_half_even_exact : (n : ℕ) → round_half_even (n * 1000000000000000000) 1000000000000000000 ≡ n
round_half_even_exact n =
    let (low, high) =
      round_half_even_near (n * 1000000000000000000) 1000000000000000000 (omega arith) in
    omega (arith, low, high)

sign_abs : (x : ℤ) → with_sign x (pos_part (abs x)) ≡ x
sign_abs (pos n) = refl
sign_abs (negsuc n) = omega int_laws

-- Where an amount with 18 decimal places can be quantized at all, it is its own result.
pub quantized_eq : (x y : ℤ) → quantized (amount x) ≡ ok y → y ≡ x
unfolding quantize_amount
quantized_eq x y h =
    let n = pos_part (abs x) in
    let exact : round_half_even (n * 1000000000000000000) 1000000000000000000 ≡ n =
      round_half_even_exact n in
    ground (arith, exact, sign_abs x)

mul_one_ℤ : (x : ℤ) → x *ℤ pos 1 ≡ x
unfolding ◌*ℤ◌
mul_one_ℤ (pos n) = ground arith
mul_one_ℤ (negsuc n) = ground arith

fit-nonneg : (c : ℤ) (s : ℕ) → pos 0 ≤ℤ c → pos 0 ≤ℤ (fit c s).coefficient
unfolding in_context
fit-nonneg (pos n) s h = omega arith
fit-nonneg (negsuc n) s h = absurd (omega arith)

pub plus-nonneg :
    (a b : ℤ) → pos 0 ≤ℤ a → pos 0 ≤ℤ b → pos 0 ≤ℤ (plus (amount a) (amount b)).coefficient
unfolding plus
plus-nonneg a b h k = fit-nonneg _ 18 (rw (mul_one_ℤ a, mul_one_ℤ b) (omega int_laws))

pub minus-nonneg : (a b : ℤ) → b ≤ℤ a → pos 0 ≤ℤ (minus (amount a) (amount b)).coefficient
unfolding plus
minus-nonneg a b h = fit-nonneg _ 18 (rw (mul_one_ℤ a, mul_one_ℤ (neg b)) (omega int_laws))
