-- ===== src/Auth/Counts.antt =====
-- What the buckets of app/database/repositories/security.py count, and what `enforce` of
-- app/auth/security.py answers after a history of calls.
use arima_executive_os.Common.{
  ℕ, ◌+◌, ◌≤◌, ◌≡◌, refl, sym, ap, ◌∙◌, ◌==◌, ==_iff, ==_refl, ltb, Bool, true, false, inl, inr,
  Bool-cases, Option-cases, none, some, List, [], ◌∷◌, String, str_eq, eq_iff, eq_refl, arith,
  if◌then◌else◌, Result, ok, err,
}
use arima_executive_os.Auth.Limiter.{
  Slot, RateLimitBucket, LimitError, same_slot, find_bucket, bump, increment, LimitRequest,
  window_seconds, slot_of, retry_after, enforce, run_requests, calls_in, rate_limited,
}

-- What is counted in a slot.
abbrev count_of : Slot → List RateLimitBucket → ℕ
count_of slot [] = 0
count_of slot (b ∷ bs) =
    let rest = count_of slot bs in if same_slot b.slot slot then b.count else rest

count_of-none :
    (slot : Slot) (bs : List RateLimitBucket) → find_bucket slot bs ≡ none → count_of slot bs ≡ 0
count_of-none slot [] e = refl
count_of-none slot (b ∷ bs) e = ground (arith, count_of-none slot bs)

count_of-some :
    (slot : Slot) (bs : List RateLimitBucket) (b : RateLimitBucket)
    → find_bucket slot bs ≡ some b
    → count_of slot bs ≡ b.count
count_of-some slot [] b e = absurd (ground arith)
count_of-some slot (x ∷ xs) b e = elim (Bool-cases (same_slot x.slot slot)) [
  | inl c ↦ let row : x ≡ b = ground (arith, e, c) in rw c (ap (λ z. z.count) row)
  | inr c ↦ rw c (count_of-some slot xs b (ground (arith, e, c)))
]

same_slot_self : (a : Slot) → same_slot a a ≡ true
same_slot_self a = rw (eq_refl a.scope, eq_refl a.key, ==_refl a.window_started_at) refl

slot_ext :
    (a b : Slot)
    → a.scope ≡ b.scope
    → a.key ≡ b.key
    → a.window_started_at ≡ b.window_started_at
    → a ≡ b
slot_ext a b h k w = λ i. record { scope = h i; key = k i; window_started_at = w i }

same_slot_sound : (a b : Slot) → same_slot a b ≡ true → a ≡ b
same_slot_sound a b h =
    let s : str_eq a.scope b.scope ≡ true = ground arith in
    let k : str_eq a.key b.key ≡ true = ground arith in
    let w : (a.window_started_at == b.window_started_at) ≡ true = ground arith in
    slot_ext a b ((eq_iff _ _).0 s) ((eq_iff _ _).0 k) ((==_iff _ _).0 w)

not_same : (a b c : Slot) → same_slot a c ≡ true → same_slot a b ≡ false → same_slot b c ≡ false
not_same a b c h k = elim (Bool-cases (same_slot b c)) [
  | inr e ↦ e
  | inl e ↦
      let one : b ≡ a = same_slot_sound b c e ∙ sym (same_slot_sound a c h) in
      let self : same_slot a b ≡ true = rw one (same_slot_self a) in
      absurd (ground (arith, self, k))
]

abbrev one_if : Bool → ℕ
one_if b = if b then 1 else 0

bump-count :
    (t slot : Slot) (bs : List RateLimitBucket) (b : RateLimitBucket)
    → find_bucket t bs ≡ some b
    → count_of slot (bump t bs) ≡ count_of slot bs + one_if (same_slot t slot)
unfolding bump
bump-count t slot [] b e = absurd (ground arith)
bump-count t slot (x ∷ xs) b e = elim (Bool-cases (same_slot x.slot t)) [
  | inl c ↦
      let same : same_slot x.slot slot ≡ same_slot t slot =
        ap (λ z. same_slot z slot) (same_slot_sound x.slot t c) in
      rw (c, ← same) (ground arith)
  | inr c ↦ elim (Bool-cases (same_slot x.slot slot)) [
    | inl d ↦
        let off : same_slot t slot ≡ false = not_same x.slot t slot d c in
        rw (c, off, d) (omega arith)
    | inr d ↦
        let rest : count_of slot (bump t xs) ≡ count_of slot xs + one_if (same_slot t slot) =
          bump-count t slot xs b (ground (arith, e, c)) in
        rw (c, d) rest
  ]
]

first_count :
    (t slot : Slot) (bs : List RateLimitBucket)
    → find_bucket t bs ≡ none
    → count_of slot (record { slot = t; count = 1 } ∷ bs)
      ≡ count_of slot bs + one_if (same_slot t slot)
first_count t slot bs e = elim (Bool-cases (same_slot t slot)) [
  | inr d ↦ rw d (omega arith)
  | inl d ↦
      let zero_of : count_of slot bs ≡ 0 =
        count_of-none slot bs (rw (← same_slot_sound t slot d) e) in
      rw (d, zero_of) refl
]

increment-count :
    (t slot : Slot) (bs : List RateLimitBucket)
    → ((increment none t bs).0 ≡ ok (count_of t bs + 1))
      × (count_of slot (increment none t bs).1 ≡ count_of slot bs + one_if (same_slot t slot))
unfolding increment
increment-count t slot bs = elim (Option-cases (find_bucket t bs)) [
  | inr (b, e) ↦
      let count : count_of t bs ≡ b.count = count_of-some t bs b e in
      rw (e, increment, count) (refl, bump-count t slot bs b e)
  | inl e ↦
      let count : count_of t bs ≡ 0 = count_of-none t bs e in
      rw (e, increment, count) (refl, first_count t slot bs e)
]

run_requests-count :
    (cut : String → String) (slot : Slot) (rs : List LimitRequest) (bs : List RateLimitBucket)
    → count_of slot (run_requests cut rs bs) ≡ count_of slot bs + calls_in cut slot rs
unfolding run_requests enforce
run_requests-count cut slot [] bs = omega arith
run_requests-count cut slot (r ∷ rs) bs =
    let (_, now) = increment-count (slot_of cut r) slot bs in
    let later = run_requests-count cut slot rs (increment none (slot_of cut r) bs).1 in
    ground (arith, now, later)

flip :
    (n limit : ℕ) (x y : Result LimitError (Unit {0}))
    → (if ltb limit (n + 1) then x else y) ≡ (if ltb n limit then y else x)
flip n limit x y = ground arith

zero_add : (n : ℕ) → 0 + n ≡ n
zero_add n = omega arith

-- After any history of calls on an empty table, with no races, a call is let through exactly when
-- fewer calls than its limit have come before it in the same scope, under the same key as cut, in
-- the same window; otherwise it is told to come back after at least one second and at most the
-- length of a window.
pub enforce-counts :
    (cut : String → String) (rs : List LimitRequest) (r : LimitRequest)
    → let earlier = calls_in cut (slot_of cut r) rs in
      ((enforce cut none r (run_requests cut rs [])).0
        ≡ (if ltb earlier r.limit then ok tt else err (rate_limited (retry_after r))))
      × (1 ≤ retry_after r)
      × (retry_after r ≤ window_seconds r)
unfolding enforce
enforce-counts cut rs r =
    let slot = slot_of cut r in
    let bs = run_requests cut rs [] in
    let (answer, _) = increment-count slot slot bs in
    let count : count_of slot bs ≡ calls_in cut slot rs =
      run_requests-count cut slot rs [] ∙ zero_add (calls_in cut slot rs) in
    (
      rw (answer, count)
          (flip (calls_in cut slot rs) r.limit (err (rate_limited (retry_after r))) (ok tt)),
      grind arith,
      grind arith,
    )
