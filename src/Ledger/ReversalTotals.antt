-- ===== src/Ledger/ReversalTotals.antt =====
-- The totals of the lines with which `reverse` of app/services/ledger.py takes a transaction back.
use arima_executive_os.Common.{
  arith, keep, ◌+ℤ◌, neg, int_laws, ℕ, ◌≡◌, ap, ◌∙◌, ◌==◌, Bool, List, [], ◌∷◌, map, ℤ, pos, inl,
  inr, Bool-cases, sym, add_zero_ℤ,
}
use arima_executive_os.Ledger.Tables.{debit, credit, Entry}
use arima_executive_os.Ledger.Movements.{signed, reversing_line, sum_where}
use arima_executive_os.Ledger.Sums.{exact_total}

-- An entry `a` before others whose reversal has the credits `c` and whose sum is `s`.
swap_debit : (a c s : ℤ) → a +ℤ c +ℤ (neg a +ℤ s) ≡ c +ℤ s
swap_debit a c s = omega int_laws

swap_credit : (a c s : ℤ) → c +ℤ (a +ℤ s) ≡ a +ℤ (c +ℤ s)
swap_credit a c s = omega int_laws

-- The lines of a reversal take out the sum of the entries.
reversing_total :
    (p : Entry → Bool) (es : List Entry)
    → exact_total credit (map reversing_line (keep p es)) +ℤ sum_where p es
      ≡ exact_total debit (map reversing_line (keep p es))
unfolding exact_total sum_where signed
reversing_total p [] = add_zero_ℤ (pos 0)
reversing_total p (e ∷ es) = elim (Bool-cases (p e)) [
  | inl c ↦ ground (
    arith,
    c,
    reversing_total p es,
    swap_credit e.amount (exact_total credit (map reversing_line (keep p es))) (sum_where p es),
    swap_debit e.amount (exact_total credit (map reversing_line (keep p es))) (sum_where p es),
  )
  | inr c ↦ rw c (reversing_total p es)
]

pub reversal_adds_up :
    (es : List Entry) (tid : ℕ)
    → sum_where (λ e. e.transaction_id == tid) es ≡ pos 0
    → exact_total debit (map reversing_line (keep (λ e. e.transaction_id == tid) es))
      ≡ exact_total credit (map reversing_line (keep (λ e. e.transaction_id == tid) es))
reversal_adds_up es tid h =
    let credits =
      exact_total credit (map reversing_line (keep (λ e. e.transaction_id == tid) es)) in
    sym (reversing_total (λ e. e.transaction_id == tid) es)
    ∙ ap (λ z. credits +ℤ z) h
    ∙ add_zero_ℤ credits
