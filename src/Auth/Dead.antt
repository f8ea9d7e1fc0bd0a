-- ===== src/Auth/Dead.antt =====
-- Choices of refresh tokens whose rows stay dead through the session methods of app/auth/service.py.
use arima_executive_os.Common.{
  ℕ, ◌+◌, ◌≤◌, ◌<◌, ◌≡◌, Bool, true, false, ◌&&◌, inl, inr, Bool-cases, some, List, [], ◌∷◌, All,
  arith,
}
use arima_executive_os.Auth.Repository.{
  RefreshTokenSession, Store, is_live, is_usable, find_usable, issue_in, issue_token_pair,
}
use arima_executive_os.Auth.Rows.{
  TokenChoice, is_chosen, by_jti, by_family, AllDead, usable_live, mark_rotated-dead,
  revoke_where-dead,
}
use arima_executive_os.Auth.Calls.{IsKept}

-- Every identifier of a row has been given out.
abbrev pub AllKnown : ℕ → List RefreshTokenSession → Type 0
AllKnown n rs = All (λ r. (r.token_jti < n) × (r.family_id < n)) rs

-- A choice that no new token joins, unless it is of a family with chosen tokens.
pub record IsClosed (q : TokenChoice) (n : ℕ) : Type 0 where
  pub fresh : (j f : ℕ) → n ≤ j → n ≤ f → q j f ≡ false
  pub same : (i j f : ℕ) → n ≤ j → q i f ≡ false → q j f ≡ false

pub by_jti-IsClosed : (jti n : ℕ) → jti < n → IsClosed (by_jti jti) n
by_jti-IsClosed jti n h = record {
  fresh = λ j f a b. ground arith;
  same = λ i j f a b. ground arith;
}

pub by_family-IsClosed : (family n : ℕ) → family < n → IsClosed (by_family family) n
by_family-IsClosed family n h = record { fresh = λ j f a b. ground arith; same = λ i j f a b. b }

IsClosed-later : (q : TokenChoice) (m n : ℕ) → m ≤ n → IsClosed q m → IsClosed q n
IsClosed-later q m n h c = record {
  fresh = λ j f a b. c.fresh j f (omega (arith, h, a)) (omega (arith, h, b));
  same = λ i j f a b. c.same i j f (omega (arith, h, a)) b;
}

-- The chosen tokens are dead, and no new one joins them.
pub record StaysDead (q : TokenChoice) (s : Store) : Type 0 where
  pub dead : AllDead q s.sessions
  pub closed : IsClosed q s.next_id

find_usable-live :
    (q : TokenChoice) (jti now : ℕ) (rs : List RefreshTokenSession) (r : RefreshTokenSession)
    → AllDead q rs
    → find_usable jti now rs ≡ some r
    → (is_chosen q r ≡ false) × (is_usable jti now r ≡ true)
unfolding find_usable
find_usable-live q jti now [] r h e = absurd (ground arith)
find_usable-live q jti now (x ∷ xs) r h e = elim (Bool-cases (is_usable jti now x)) [
  | inl c ↦
      let row : x ≡ r = ground (arith, e, c) in
      let live : is_live x ≡ true = usable_live jti now x c in
      let off : is_chosen q x ≡ false = ground (arith, h.0, live) in (rw (← row) off, rw (← row) c)
  | inr c ↦ find_usable-live q jti now xs r h.1 (ground (arith, e, c))
]

and_true : (b : Bool) → b ≡ false → (b && true) ≡ false
and_true b h = ground arith

pub StaysDead-IsKept : (q : TokenChoice) → IsKept (StaysDead q)
unfolding issue_token_pair issue_in
StaysDead-IsKept q = record {
  bare = λ s s' e n h. record { dead = rw e h.dead; closed = rw n h.closed };
  revoke = λ p now reason s h. record {
    dead = revoke_where-dead q p now reason s.sessions h.dead;
    closed = h.closed;
  };
  consume = λ jti now s h. record {
    dead = mark_rotated-dead q jti now s.sessions h.dead;
    closed = h.closed;
  };
  new_family = λ lib set user remember_me now s h. record {
    dead = (
      and_true _ (h.closed.fresh (s.next_id + 1 + 1) s.next_id (omega arith) (omega arith)),
      h.dead,
    );
    closed = IsClosed-later q s.next_id (s.next_id + 1 + 2) (omega arith) h.closed;
  };
  rotate = λ lib set user remember_me jti now r s s' e rows n h. record {
    dead = (
      and_true _ (
          h.closed.same r.token_jti (s'.next_id + 1) r.family_id (omega (arith, n))
            (find_usable-live q jti now s.sessions r h.dead e).0),
      rw rows (mark_rotated-dead q jti now s.sessions h.dead),
    );
    closed = IsClosed-later q s.next_id (s'.next_id + 2) (omega (arith, n)) h.closed;
  };
}
