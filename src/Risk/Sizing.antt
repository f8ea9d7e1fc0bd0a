-- ===== src/Risk/Sizing.antt =====
-- How far the size of `RiskEngine.validate` in app/services/risk_contract.py, which is rounded twice,
-- may be from the exact quotient.
use arima_executive_os.Common.{
  ℕ, zero, suc, ◌+◌, ◌-◌, ◌*◌, ◌/◌, ◌^◌, ◌≤◌, ◌<◌, ◌≡◌, arith, ltb, true, inl, inr, Bool-cases, ℤ,
  pos_part, ok, leb, ap, sym, refl, ◌∙◌,
}
use native.Mathlib.Nat.{
  mul-le-mul_left, mul-le-mul_right, le_of_mul-le-mul_left, pow-le-pow_right, div-mul-le_self,
  one-le-pow, one-le-mul, sub-add_cancel, pow-succ',
}
use arima_executive_os.Decimals.{
  precision, digits, digits_at_most, significant, round_half_even, round_half_even_near,
}
use arima_executive_os.Risk.Tables.{
  ResearchSignal, RiskSnapshot, RiskLimits, RiskExecutionContext, RiskDecision,
}
use arima_executive_os.Risk.Engine.{size_scale, position_size, risk_per_unit, validate}
use arima_executive_os.Risk.Soundness.{validate_sound}

-- Two roundings, the first to units of `u` and the second of the quotient of `S`.
combine_low :
    (size S d R u risk : ℕ)
    → 0 < S
    → 2 * (R * (d * u)) ≤ 2 * (risk * S) + d * u
    → 2 * (size * S) ≤ 2 * (R * u * size_scale) + S
    → size_scale * u ≤ S
    → size * d ≤ risk * size_scale + d
combine_low size S d R u risk p h1 h2 h3 =
    let a = mul-le-mul_left d h2 in
    let b = mul-le-mul_left size_scale h1 in
    let c = mul-le-mul_left d h3 in
    let goal : S * (size * d) ≤ S * (risk * size_scale + d) = omega (arith, a, b, c) in
    le_of_mul-le-mul_left goal p

combine_high :
    (size S d R u risk : ℕ)
    → 0 < S
    → 2 * (risk * S) ≤ 2 * (R * (d * u)) + d * u
    → 2 * (R * u * size_scale) ≤ 2 * (size * S) + S
    → size_scale * u ≤ S
    → risk * size_scale ≤ size * d + d
combine_high size S d R u risk p h1 h2 h3 =
    let a = mul-le-mul_left d h2 in
    let b = mul-le-mul_left size_scale h1 in
    let c = mul-le-mul_left d h3 in
    let goal : S * (risk * size_scale) ≤ S * (size * d + d) = omega (arith, a, b, c) in
    le_of_mul-le-mul_left goal p

-- The first rounding keeps 28 digits: `q` has its first digit 27 places above the unit.
digits_first :
    (u d q n R : ℕ)
    → 0 < d * u
    → 10 ^ 28 * u ≤ 10 * q
    → q * d ≤ n
    → 2 * n ≤ 2 * (R * (d * u)) + d * u
    → 10 ^ 27 ≤ R
digits_first u d q n R p h1 h2 h3 =
    let a = mul-le-mul_right d h1 in
    let low : 10 ^ 27 * (d * u) ≤ n = omega (arith, a) in
    elim (Bool-cases (leb (10 ^ 27) R)) [
      | inl e ↦ ground (arith, e)
      | inr e ↦
          let few : R + 1 ≤ 10 ^ 27 = ground (arith, e) in
          let b = mul-le-mul_right (d * u) few in absurd (omega (arith, b, low, p))
    ]

-- The second rounding fits 28 digits, so the unit is small against the scale.
scale_above :
    (size S R u : ℕ)
    → 10 ^ 27 ≤ R
    → size < 10 ^ 28
    → 2 * (R * u * size_scale) ≤ 2 * (size * S) + S
    → 0 < S
    → 10 ^ 7 * u < S
scale_above size S R u h k w p =
    let a = mul-le-mul_right u h in
    let more : size + 1 ≤ 10 ^ 28 = omega (arith, k) in
    let b = mul-le-mul_right S more in omega (arith, a, b, w, p)

-- Powers of ten that differ by less than a factor of ten are the same.
power_gap : (a b : ℕ) → 10 ^ 7 * 10 ^ b < 10 ^ a → size_scale * 10 ^ b ≤ 10 ^ a
power_gap zero b h = absurd (omega (arith, one-le-pow b 10 (omega arith)))
power_gap (suc a) zero h = elim (Bool-cases (leb 8 (suc a))) [
  | inl e ↦ let w : 8 ≤ suc a = ground (arith, e) in pow-le-pow_right (omega arith) w
  | inr e ↦
      let w : suc a ≤ 7 = ground (arith, e) in
      let below : 10 ^ suc a ≤ 10 ^ 7 = pow-le-pow_right (omega arith) w in
      absurd (omega (arith, below, h))
]
power_gap (suc a) (suc b) h =
    let p = pow-succ' 10 a in
    let q = pow-succ' 10 b in omega (arith, p, q, power_gap a b (omega (arith, h, p, q)))

digits_floor : (fuel n : ℕ) → 0 < n → 10 ^ digits fuel n ≤ 10 * n
unfolding digits
digits_floor zero n h = omega arith
digits_floor (suc fuel) n h = elim (Bool-cases (ltb 0 n)) [
  | inr e ↦ absurd (ground arith)
  | inl e ↦ elim (Bool-cases (ltb 0 (n / 10))) [
    | inl f ↦
        let rest = digits_floor fuel (n / 10) (ground arith) in
        rw e (omega (arith, pow-succ' 10 (digits fuel (n / 10)), rest))
    | inr f ↦
        let small : n / 10 < 10 ^ 0 = ground arith in
        let none_left : digits fuel (n / 10) ≡ 0 =
          omega (arith, digits_at_most fuel 0 (n / 10) small) in
        rw (e, none_left) (omega (arith, h))
  ]
]

pow_split : (k b : ℕ) → 10 ^ (b + k) ≡ 10 ^ k * 10 ^ b
pow_split zero b = let same : b + 0 ≡ b = omega arith in rw same (omega arith)
pow_split (suc k) b =
    let same : b + suc k ≡ suc (b + k) = omega arith in
    rw (same, pow-succ' 10 k) (omega (arith, pow-succ' 10 (b + k), pow_split k b))

positive : (q D : ℕ) → 28 < D → (q ≡ 0 → D ≡ 0) → 0 < q
positive zero D h k = absurd (omega (arith, h, k refl))
positive (suc q) D h k = omega arith

-- The quotient `n / d` of `D` digits, rounded to `R` units and then to `size`.
unit_gap :
    (D a n d size R : ℕ)
    → 0 < d
    → 28 ≤ a
    → (0 < n / d → 10 ^ D ≤ 10 * (n / d))
    → (n / d ≡ 0 → D ≡ 0)
    → 2 * n ≤ 2 * (R * (d * 10 ^ (D - 28))) + d * 10 ^ (D - 28)
    → 2 * (R * 10 ^ (D - 28) * size_scale) ≤ 2 * (size * 10 ^ a) + 10 ^ a
    → size < 10 ^ 28
    → size_scale * 10 ^ (D - 28) ≤ 10 ^ a
unit_gap D a n d size R h many first none_left high1 high2 small = elim (Bool-cases (ltb 28 D)) [
  | inr e ↦
      let unit : D - 28 ≡ 0 = ground (arith, e) in
      let enough : 8 ≤ a = omega (arith, many) in
      let scale : 10 ^ 8 ≤ 10 ^ a = pow-le-pow_right (omega arith) enough in rw unit scale
  | inl e ↦
      let b = D - 28 in
      let unit_pos : 0 < 10 ^ b = one-le-pow b 10 (omega arith) in
      let some_digits : 28 < D = ground (arith, e) in
      let split : 10 ^ D ≡ 10 ^ 28 * 10 ^ b =
        ap (λ z. 10 ^ z) (sym (sub-add_cancel (omega (arith, some_digits)))) ∙ pow_split 28 b in
      let quotient : 0 < n / d = positive (n / d) D some_digits none_left in
      let r =
        digits_first (10 ^ b) d (n / d) n R (one-le-mul h unit_pos)
          (omega (arith, first quotient, split)) (div-mul-le_self n d) high1 in
      power_gap a b
        (scale_above size (10 ^ a) R (10 ^ b) r small high2 (one-le-pow a 10 (omega arith)))
]

digits_zero : (fuel n : ℕ) → n ≡ 0 → digits fuel n ≡ 0
digits_zero fuel n h = omega (arith, digits_at_most fuel 0 n (omega arith))

-- What `position_size` allows, against the exact quotient of the risk and the distance.
pub position_size_near :
    (maximum per_unit : ℤ) (size : ℕ)
    → 0 < pos_part per_unit
    → position_size maximum per_unit ≡ ok size
    → let risk = pos_part maximum in
      let d = pos_part per_unit in
      (size * d ≤ risk * size_scale + d) × (risk * size_scale ≤ size * d + d)
unfolding position_size significant
position_size_near maximum per_unit size h e =
    let risk = pos_part maximum in
    let d = pos_part per_unit in
    let a = precision + digits 128 d in
    let S = 10 ^ a in
    let n = risk * S in
    let b = digits 128 (n / d) - precision in
    let u = 10 ^ b in
    let R = round_half_even n (d * u) in
    let S_pos : 0 < S = one-le-pow a 10 (omega arith) in
    let u_pos : 0 < u = one-le-pow b 10 (omega arith) in
    let du_pos : 0 < d * u = one-le-mul h u_pos in
    let (low1, high1) = round_half_even_near n (d * u) du_pos in
    let (low2, high2) = round_half_even_near (R * u * size_scale) S S_pos in
    let fits : ltb (round_half_even (R * u * size_scale) S) (10 ^ precision) ≡ true =
      ground arith in
    let size_eq : round_half_even (R * u * size_scale) S ≡ size = ground arith in
    let small : size < 10 ^ 28 = ground arith in
    let gap : size_scale * u ≤ S =
      unit_gap (digits 128 (n / d)) a n d size R h (omega arith) (λ p. digits_floor 128 (n / d) p)
        (λ z. digits_zero 128 (n / d) z) high1 (rw size_eq at high2) small in
    (
      combine_low size S d R u risk S_pos low1 (rw size_eq at low2) gap,
      combine_high size S d R u risk S_pos high1 (rw size_eq at high2) gap,
    )

-- What an allowed trade puts at risk, its size times the distance to the stop, is the maximum risk up
-- to a unit in the eighth decimal place of the size, though the quotient is rounded twice.
pub validate_risk :
    (now : ℕ) (g : ResearchSignal) (s : RiskSnapshot) (l : RiskLimits) (c : RiskExecutionContext)
    (d : RiskDecision)
    → validate now g s l c ≡ ok d
    → d.allowed ≡ true
    → let per_unit = pos_part (risk_per_unit g) in
      let at_risk = d.position_size * per_unit in
      let maximum = pos_part l.maximum_risk * size_scale in
      (at_risk ≤ maximum + per_unit) × (maximum ≤ at_risk + per_unit)
validate_risk now g s l c d h a =
    let z = (validate_sound now g s l c d h a).sized in
    position_size_near l.maximum_risk (risk_per_unit g) d.position_size
      (omega (arith, z.measurable)) z.size_eq
