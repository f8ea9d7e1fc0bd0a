-- ===== src/Accounting/Decimals.antt =====
-- The arithmetic of `decimal.Decimal` in its default context, 28 significant digits with ties to
-- even, as app/services/trade_accounting.py uses it, and `quantize_amount` of
-- app/services/assets.py. A decimal is a coefficient and the number of its decimal places.
use arima_executive_os.Common.{
  ℕ, ◌+◌, ◌-◌, ◌*◌, ◌^◌, max, ltb, if◌then◌else◌, ℤ, pos, pos_part, ◌+ℤ◌, ◌*ℤ◌, neg, abs, Result,
  ok, err,
}
use arima_executive_os.Decimals.{
  precision, round_half_even, digits, significant, with_sign, in_context,
}

-- The value is `coefficient / 10 ^ scale`.
pub record Decimal : Type 0 where
  pub coefficient : ℤ
  pub scale : ℕ

-- The decimal places of `ASSET_QUANTUM`.
abbrev pub places : ℕ
places = 18

abbrev pub amount : ℤ → Decimal
amount x = record { coefficient = x; scale = places }

abbrev pub fit : ℤ → ℕ → Decimal
fit c s = record { coefficient = in_context c; scale = s }

unfoldable pub times : Decimal → Decimal → Decimal
times a b = fit (a.coefficient *ℤ b.coefficient) (a.scale + b.scale)

unfoldable pub plus : Decimal → Decimal → Decimal
plus a b =
    let s = max a.scale b.scale in
    fit (a.coefficient *ℤ pos (10 ^ (s - a.scale)) +ℤ b.coefficient *ℤ pos (10 ^ (s - b.scale))) s

abbrev pub minus : Decimal → Decimal → Decimal
minus a b = plus a (record b { coefficient = neg b.coefficient })

-- The quotient by a positive decimal, with enough places for 28 significant digits.
unfoldable pub over : Decimal → Decimal → Decimal
over a b =
    let d = pos_part b.coefficient * 10 ^ a.scale in
    let s = precision + digits 128 d in
    let n = pos_part (abs a.coefficient) * 10 ^ (b.scale + s) in
    record { coefficient = with_sign a.coefficient (significant n d); scale = s }

-- `value.quantize(ASSET_QUANTUM)`, in quanta; `InvalidOperation` when they need more than 28 digits.
unfoldable pub quantize_amount {ℓ} : {E : Type ℓ} → E → Decimal → Result E ℤ
quantize_amount invalid_operation x =
    let n = round_half_even (pos_part (abs x.coefficient) * 10 ^ places) (10 ^ x.scale) in
    if ltb n (10 ^ precision) then ok (with_sign x.coefficient n) else err invalid_operation
