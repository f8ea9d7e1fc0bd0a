-- ===== src/Auth/Rows.antt =====
-- The rows of app/database/models/refresh_token.py through the updates of
-- app/database/repositories/refresh_token.py: which of them are still live.
use arima_executive_os.Common.{
  ℕ, suc, ◌+◌, ◌≤◌, ◌≡◌, refl, ap, ◌==◌, Bool, true, false, ◌&&◌, inl, inr, Bool-cases, some, List,
  [], ◌∷◌, String, All, arith, if◌then◌else◌, any_of,
}
use arima_executive_os.Auth.Repository.{
  RefreshTokenSession, is_live, is_active_at, is_usable, find_usable, mark_rotated, revoke_where,
}

-- A choice of rows by token and family.
abbrev pub TokenChoice : Type 0
TokenChoice = ℕ → ℕ → Bool

abbrev pub is_chosen : TokenChoice → RefreshTokenSession → Bool
is_chosen q r = q r.token_jti r.family_id

abbrev pub by_jti : ℕ → TokenChoice
by_jti j = λ jti family. jti == j

abbrev pub by_family : ℕ → TokenChoice
by_family f = λ jti family. family == f

-- No chosen row is live.
abbrev pub AllDead : TokenChoice → List RefreshTokenSession → Type 0
AllDead q rs = All (λ r. (is_chosen q r && is_live r) ≡ false) rs

unfoldable pub live_count : TokenChoice → List RefreshTokenSession → ℕ
live_count q [] = 0
live_count q (r ∷ rs) =
    let rest = live_count q rs in if is_chosen q r && is_live r then suc rest else rest

pub live_count-AllDead :
    (q : TokenChoice) (rs : List RefreshTokenSession) → live_count q rs ≡ 0 → AllDead q rs
unfolding live_count
live_count-AllDead q [] h = tt
live_count-AllDead q (r ∷ rs) h = elim (Bool-cases (is_chosen q r && is_live r)) [
  | inl e ↦ absurd (ground arith)
  | inr e ↦ (e, live_count-AllDead q rs (ground arith))
]

pub AllDead-live_count :
    (q : TokenChoice) (rs : List RefreshTokenSession) → AllDead q rs → live_count q rs ≡ 0
unfolding live_count
AllDead-live_count q [] h = refl
AllDead-live_count q (r ∷ rs) h = ground (arith, AllDead-live_count q rs h.1)

and_false : (b : Bool) → (b && false) ≡ false
and_false true = refl
and_false false = refl

pub mark_rotated-dead :
    (q : TokenChoice) (jti now : ℕ) (rs : List RefreshTokenSession)
    → AllDead q rs
    → AllDead q (mark_rotated jti now rs)
unfolding mark_rotated
mark_rotated-dead q jti now [] h = tt
mark_rotated-dead q jti now (r ∷ rs) h = elim (Bool-cases (is_usable jti now r)) [
  | inl e ↦ rw (e, mark_rotated) (and_false (is_chosen q r), h.1)
  | inr e ↦ rw (e, mark_rotated) (h.0, mark_rotated-dead q jti now rs h.1)
]

pub revoke_where-dead :
    (q : TokenChoice) (p : RefreshTokenSession → Bool) (now : ℕ) (reason : String)
    (rs : List RefreshTokenSession)
    → AllDead q rs
    → AllDead q (revoke_where p now reason rs)
unfolding revoke_where
revoke_where-dead q p now reason [] h = tt
revoke_where-dead q p now reason (r ∷ rs) h = elim (Bool-cases (p r && is_live r)) [
  | inl e ↦
      rw (e, revoke_where) (and_false (is_chosen q r), revoke_where-dead q p now reason rs h.1)
  | inr e ↦ rw (e, revoke_where) (h.0, revoke_where-dead q p now reason rs h.1)
]

-- A revoked family is dead.
pub revoke_where-family :
    (family now : ℕ) (reason : String) (rs : List RefreshTokenSession)
    → AllDead (by_family family) (revoke_where (λ r. r.family_id == family) now reason rs)
unfolding revoke_where
revoke_where-family family now reason [] = tt
revoke_where-family family now reason (r ∷ rs) =
    elim (Bool-cases (r.family_id == family && is_live r)) [
      | inl e ↦
          rw (e, revoke_where)
            (and_false (r.family_id == family), revoke_where-family family now reason rs)
      | inr e ↦ rw (e, revoke_where) (e, revoke_where-family family now reason rs)
    ]

pub usable_live :
    (jti now : ℕ) (r : RefreshTokenSession) → is_usable jti now r ≡ true → is_live r ≡ true
usable_live jti now r h = ground arith

head_count :
    (a b c : Bool) (n : ℕ)
    → a ≡ b
    → c ≡ true
    → (if a && false then suc n else n) + (if b then 1 else 0) ≡ (if a && c then suc n else n)
head_count a b c n h k = ground arith

-- Rotation takes one live row of its token and family away, and none of the others.
pub mark_rotated-count :
    (q : TokenChoice) (jti now : ℕ) (rs : List RefreshTokenSession) (r : RefreshTokenSession)
    → find_usable jti now rs ≡ some r
    → live_count q (mark_rotated jti now rs) + (if is_chosen q r then 1 else 0) ≡ live_count q rs
unfolding mark_rotated live_count find_usable
mark_rotated-count q jti now [] r e = absurd (ground arith)
mark_rotated-count q jti now (x ∷ xs) r e = elim (Bool-cases (is_usable jti now x)) [
  | inl c ↦
      let row : x ≡ r = ground (arith, e, c) in
      let same : is_chosen q x ≡ is_chosen q r = ap (is_chosen q) row in
      let live : is_live x ≡ true = usable_live jti now x c in
      rw (c, mark_rotated)
        (head_count (is_chosen q x) (is_chosen q r) (is_live x) (live_count q xs) same live)
  | inr c ↦
      let rest : live_count q (mark_rotated jti now xs) + (if is_chosen q r then 1 else 0)
          ≡ live_count q xs =
        mark_rotated-count q jti now xs r (ground (arith, e, c)) in
      ground (arith, rest)
]

pub revoke_where-count :
    (q : TokenChoice) (p : RefreshTokenSession → Bool) (now : ℕ) (reason : String)
    (rs : List RefreshTokenSession)
    → live_count q (revoke_where p now reason rs) ≤ live_count q rs
unfolding revoke_where live_count
revoke_where-count q p now reason [] = omega arith
revoke_where-count q p now reason (r ∷ rs) = ground (arith, revoke_where-count q p now reason rs)

pub active-dead :
    (family now : ℕ) (rs : List RefreshTokenSession)
    → AllDead (by_family family) rs
    → any_of (λ r. r.family_id == family && is_active_at now r) rs ≡ false
active-dead family now [] h = refl
active-dead family now (r ∷ rs) h = ground (arith, active-dead family now rs h.1)
