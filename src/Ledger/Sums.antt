-- ===== src/Ledger/Sums.antt =====
-- Sums of signed ledger entries: over an append, over entries on which two tests agree, and over
-- the entries that one posting adds.
use arima_executive_os.Common.{
  ℕ, ◌≡◌, refl, Bool, true, false, List, [], ◌∷◌, ◌++◌, map, sym, pos, ◌+ℤ◌, ◌-ℤ◌, All, arith, ℤ,
  any_of, leb_ℤ, ◌≤ℤ◌, ◌<ℤ◌, ◌^◌, ◌∙◌, if◌then◌else◌, Bool-cases, inl, inr, int_laws, add_zero_ℤ,
  zero_add_ℤ, +ℤ_assoc, add_sub_ℤ, neg_add_sub_ℤ, sub_self_ℤ,
}
use arima_executive_os.Ledger.Tables.{Direction, debit, credit, Entry, LedgerLine, Runtime}
use arima_executive_os.Ledger.Service.{entry_of, direction_total, add_lines, same_direction}
use arima_executive_os.Decimals.{precision, in_context, in_context_exact}
use arima_executive_os.Ledger.Movements.{signed, sum_where}

pub sum_where-append :
    (p : Entry → Bool) (xs ys : List Entry)
    → sum_where p (xs ++ ys) ≡ sum_where p xs +ℤ sum_where p ys
unfolding sum_where
sum_where-append p [] ys = sym (zero_add_ℤ _)
sum_where-append p (x ∷ xs) ys =
    ground (arith, sum_where-append p xs ys, +ℤ_assoc (signed x) (sum_where p xs) (sum_where p ys))

-- The sum of one direction's amounts without rounding.
unfoldable pub exact_total : Direction → List LedgerLine → ℤ
exact_total d [] = pos 0
exact_total d (l ∷ ls) =
    let rest = exact_total d ls in if same_direction l.direction d then l.amount +ℤ rest else rest

-- Tests that agree on every entry of the list select the same sum.
pub sum_where-eq :
    (p q : Entry → Bool) (xs : List Entry)
    → All (λ e. p e ≡ q e) xs
    → sum_where p xs ≡ sum_where q xs
unfolding sum_where
sum_where-eq p q [] h = refl
sum_where-eq p q (x ∷ xs) h = ground (arith, sum_where-eq p q xs h.1)

-- What the entries of a posting add to a sum that selects all of them.
pub sum_where_every :
    (rt : Runtime) (tid : ℕ) (p : Entry → Bool) (ls : List LedgerLine)
    → All (λ l. p (entry_of rt tid l) ≡ true) ls
    → sum_where p (map (entry_of rt tid) ls) ≡ exact_total credit ls -ℤ exact_total debit ls
unfolding sum_where exact_total signed
sum_where_every rt tid p [] h = sym (sub_self_ℤ _)
sum_where_every rt tid p (l ∷ ls) h = ground (
  arith,
  sum_where_every rt tid p ls h.1,
  add_sub_ℤ l.amount (exact_total credit ls) (exact_total debit ls),
  neg_add_sub_ℤ l.amount (exact_total credit ls) (exact_total debit ls),
)

pub sum_where-none :
    (rt : Runtime) (tid : ℕ) (p : Entry → Bool) (ls : List LedgerLine)
    → All (λ l. p (entry_of rt tid l) ≡ false) ls
    → sum_where p (map (entry_of rt tid) ls) ≡ pos 0
unfolding sum_where
sum_where-none rt tid p [] h = refl
sum_where-none rt tid p (l ∷ ls) h = ground (arith, sum_where-none rt tid p ls h.1)

exact_total-nonneg :
    (d : Direction) (ls : List LedgerLine)
    → any_of (λ l. leb_ℤ l.amount (pos 0)) ls ≡ false
    → pos 0 ≤ℤ exact_total d ls
unfolding exact_total
exact_total-nonneg d [] h = omega arith
exact_total-nonneg d (l ∷ ls) h =
    let positive : pos 0 <ℤ l.amount = ground arith in
    let rest = exact_total-nonneg d ls (ground arith) in
    elim (Bool-cases (same_direction l.direction d)) [
      | inl e ↦ rw e (omega (int_laws, positive, rest))
      | inr e ↦ rw e rest
    ]

add_lines-exact :
    (d : Direction) (total : ℤ) (ls : List LedgerLine)
    → any_of (λ l. leb_ℤ l.amount (pos 0)) ls ≡ false
    → pos 0 ≤ℤ total
    → total +ℤ exact_total d ls <ℤ pos (10 ^ precision)
    → add_lines d total ls ≡ total +ℤ exact_total d ls
unfolding add_lines exact_total
add_lines-exact d total [] h k w = sym (add_zero_ℤ total)
add_lines-exact d total (l ∷ ls) h k w =
    let positive : pos 0 <ℤ l.amount = ground arith in
    let others : any_of (λ m. leb_ℤ m.amount (pos 0)) ls ≡ false = ground arith in
    let rest = exact_total-nonneg d ls others in
    elim (Bool-cases (same_direction l.direction d)) [
      | inl e ↦
          let sum : total +ℤ (l.amount +ℤ exact_total d ls) <ℤ pos (10 ^ precision) = rw e at w in
          let same : in_context (total +ℤ l.amount) ≡ total +ℤ l.amount =
            in_context_exact (total +ℤ l.amount) (omega (int_laws, k, positive))
              (omega (int_laws, sum, rest)) in
          rw (e, same)
            (add_lines-exact d (total +ℤ l.amount) ls others (omega (int_laws, k, positive))
                (omega (int_laws, sum))
              ∙ +ℤ_assoc total l.amount (exact_total d ls))
      | inr e ↦ rw e (add_lines-exact d total ls others k (rw e at w))
    ]

-- A sum of positive amounts below 10²⁸ is not rounded.
pub direction_total-exact :
    (d : Direction) (ls : List LedgerLine)
    → any_of (λ l. leb_ℤ l.amount (pos 0)) ls ≡ false
    → exact_total d ls <ℤ pos (10 ^ precision)
    → direction_total d ls ≡ exact_total d ls
unfolding direction_total
direction_total-exact d ls h w =
    add_lines-exact d (pos 0) ls h (omega arith) (rw (zero_add_ℤ (exact_total d ls)) w)
    ∙ zero_add_ℤ (exact_total d ls)
