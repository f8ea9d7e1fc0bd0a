-- ===== src/Auth/Single.antt =====
-- The rows of refresh tokens through the session methods of app/auth/service.py: one live row for
-- a family and for a token.
use arima_executive_os.Common.{
  ℕ, ◌+◌, ◌≤◌, ◌<◌, ◌≡◌, refl, ◌==◌, Bool, true, false, ◌&&◌, inl, inr, Bool-cases, some, List, [],
  ◌∷◌, String, All-find_first, arith,
}
use arima_executive_os.Auth.Tokens.{Settings, Library}
use arima_executive_os.Auth.Repository.{
  RefreshTokenSession, Store, is_live, is_usable, find_usable, revoke_where, mark_rotated, issue_in,
  issue_token_pair,
}
use arima_executive_os.Auth.Rows.{
  TokenChoice, is_chosen, by_jti, by_family, live_count, mark_rotated-count, revoke_where-count,
}
use arima_executive_os.Auth.Calls.{SessionCall, run_session_calls, IsKept, run_session_calls-kept}
use arima_executive_os.Auth.Dead.{AllKnown}

-- The identifiers of the rows have been given out, and no family and no token has two live rows.
pub record IsTokenStore (s : Store) : Type 0 where
  pub known : AllKnown s.next_id s.sessions
  pub single_family : (f : ℕ) → live_count (by_family f) s.sessions ≤ 1
  pub single_token : (j : ℕ) → live_count (by_jti j) s.sessions ≤ 1

AllKnown-later : (m n : ℕ) (rs : List RefreshTokenSession) → m ≤ n → AllKnown m rs → AllKnown n rs
AllKnown-later m n [] h k = tt
AllKnown-later m n (r ∷ rs) h k =
    ((omega (arith, h, k.0.0), omega (arith, h, k.0.1)), AllKnown-later m n rs h k.1)

mark_rotated-known :
    (n jti now : ℕ) (rs : List RefreshTokenSession)
    → AllKnown n rs
    → AllKnown n (mark_rotated jti now rs)
unfolding mark_rotated
mark_rotated-known n jti now [] k = tt
mark_rotated-known n jti now (r ∷ rs) k = elim (Bool-cases (is_usable jti now r)) [
  | inl e ↦ rw (e, mark_rotated) k
  | inr e ↦ rw (e, mark_rotated) (k.0, mark_rotated-known n jti now rs k.1)
]

revoke_where-known :
    (n : ℕ) (p : RefreshTokenSession → Bool) (now : ℕ) (reason : String)
    (rs : List RefreshTokenSession)
    → AllKnown n rs
    → AllKnown n (revoke_where p now reason rs)
unfolding revoke_where
revoke_where-known n p now reason [] k = tt
revoke_where-known n p now reason (r ∷ rs) k = elim (Bool-cases (p r && is_live r)) [
  | inl e ↦ rw (e, revoke_where) (k.0, revoke_where-known n p now reason rs k.1)
  | inr e ↦ rw (e, revoke_where) (k.0, revoke_where-known n p now reason rs k.1)
]

mark_rotated-less :
    (q : TokenChoice) (jti now : ℕ) (rs : List RefreshTokenSession)
    → live_count q (mark_rotated jti now rs) ≤ live_count q rs
unfolding mark_rotated live_count
mark_rotated-less q jti now [] = omega arith
mark_rotated-less q jti now (r ∷ rs) = ground (arith, mark_rotated-less q jti now rs)

-- No row belongs to an identifier that has not been given out.
fresh_count :
    (q : TokenChoice) (n : ℕ) (rs : List RefreshTokenSession)
    → ((j f : ℕ) → j < n → f < n → q j f ≡ false)
    → AllKnown n rs
    → live_count q rs ≡ 0
unfolding live_count
fresh_count q n [] h k = refl
fresh_count q n (r ∷ rs) h k =
    let off : is_chosen q r ≡ false = h r.token_jti r.family_id k.0.0 k.0.1 in
    ground (arith, off, fresh_count q n rs h k.1)

cons_count :
    (q : TokenChoice) (r : RefreshTokenSession) (rs : List RefreshTokenSession)
    → (is_chosen q r ≡ true → live_count q rs ≡ 0)
    → live_count q rs ≤ 1
    → live_count q (r ∷ rs) ≤ 1
unfolding live_count
cons_count q r rs h k = elim (Bool-cases (is_chosen q r && is_live r)) [
  | inr e ↦ rw (e, live_count) k
  | inl e ↦
      let none_yet : live_count q rs ≡ 0 = h (ground arith) in
      rw (e, live_count) (omega (arith, none_yet))
]

new_token_count :
    (n m j : ℕ) (rs : List RefreshTokenSession)
    → AllKnown n rs
    → n ≤ m
    → (m == j) ≡ true
    → live_count (by_jti j) rs ≡ 0
new_token_count n m j rs k h e = fresh_count (by_jti j) n rs (λ i f a b. ground arith) k

new_family_count :
    (n f : ℕ) (rs : List RefreshTokenSession)
    → AllKnown n rs
    → (n == f) ≡ true
    → live_count (by_family f) rs ≡ 0
new_family_count n f rs k e = fresh_count (by_family f) n rs (λ i g a b. ground arith) k

rotated_family_count :
    (jti now f : ℕ) (r : RefreshTokenSession) (rs : List RefreshTokenSession)
    → find_usable jti now rs ≡ some r
    → live_count (by_family f) rs ≤ 1
    → (r.family_id == f) ≡ true
    → live_count (by_family f) (mark_rotated jti now rs) ≡ 0
rotated_family_count jti now f r rs e h c =
    let count = mark_rotated-count (by_family f) jti now rs r e in ground (arith, count)

pub found_known :
    (n jti now : ℕ) (rs : List RefreshTokenSession) (r : RefreshTokenSession)
    → AllKnown n rs
    → find_usable jti now rs ≡ some r
    → (r.token_jti < n) × (r.family_id < n)
unfolding find_usable
found_known n jti now rs r k e =
    All-find_first (λ x. (x.token_jti < n) × (x.family_id < n)) (is_usable jti now) rs r k e

pub IsTokenStore-IsKept : IsKept IsTokenStore
unfolding issue_token_pair issue_in
IsTokenStore-IsKept = record {
  bare = λ s s' e n h. record {
    known = rw (e, n) h.known;
    single_family = λ f. rw e (h.single_family f);
    single_token = λ j. rw e (h.single_token j);
  };
  revoke = λ p now reason s h. record {
    known = revoke_where-known s.next_id p now reason s.sessions h.known;
    single_family = λ f.
        omega (arith, revoke_where-count (by_family f) p now reason s.sessions, h.single_family f);
    single_token =
        λ j. omega (arith, revoke_where-count (by_jti j) p now reason s.sessions, h.single_token j);
  };
  consume = λ jti now s h. record {
    known = mark_rotated-known s.next_id jti now s.sessions h.known;
    single_family =
        λ f. omega (arith, mark_rotated-less (by_family f) jti now s.sessions, h.single_family f);
    single_token =
        λ j. omega (arith, mark_rotated-less (by_jti j) jti now s.sessions, h.single_token j);
  };
  new_family = λ lib set user remember_me now s h. record {
    known = (
      omega arith,
      AllKnown-later s.next_id (s.next_id + 1 + 2) s.sessions (omega arith) h.known,
    );
    single_family = λ f.
        cons_count (by_family f) _ s.sessions (new_family_count s.next_id f s.sessions h.known)
          (h.single_family f);
    single_token = λ j.
        cons_count (by_jti j) _ s.sessions
          (new_token_count s.next_id (s.next_id + 1 + 1) j s.sessions h.known (omega arith))
          (h.single_token j);
  };
  rotate = λ lib set user remember_me jti now r s s' e rows n h.
      let more : s.next_id ≤ s'.next_id + 1 = omega (arith, n) in
      record {
        known = (
          omega (arith, n, (found_known s.next_id jti now s.sessions r h.known e).1),
          rw rows (
              AllKnown-later s.next_id (s'.next_id + 2) _ (omega (arith, n))
                (mark_rotated-known s.next_id jti now s.sessions h.known)),
        );
        single_family = λ f.
            cons_count (by_family f) _ s'.sessions
              (λ c. rw rows (rotated_family_count jti now f r s.sessions e (h.single_family f) c))
              (rw rows (
                omega
                  (arith, mark_rotated-less (by_family f) jti now s.sessions, h.single_family f)));
        single_token = λ j.
            cons_count (by_jti j) _ s'.sessions
              (λ c. rw rows (
                new_token_count s.next_id (s'.next_id + 1) j _
                  (mark_rotated-known s.next_id jti now s.sessions h.known) more c))
              (rw rows
                (omega (arith, mark_rotated-less (by_jti j) jti now s.sessions, h.single_token j)));
      };
}

-- Through any calls of the session methods, in any order and at any times, no family and no token
-- has two live rows, and every identifier of a row has been given out, if this holds at the start.
pub run_session_calls-IsTokenStore :
    (lib : Library) (set : Settings) (cs : List (ℕ × SessionCall)) (s : Store)
    → IsTokenStore s
    → IsTokenStore (run_session_calls lib set cs s)
run_session_calls-IsTokenStore = run_session_calls-kept IsTokenStore IsTokenStore-IsKept
