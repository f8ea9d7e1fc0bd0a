-- ===== src/Withdrawal/Workspaces.antt =====
-- `_workspace_query` and `WithdrawalService.workspace_for` of app/services/operations.py: the one
-- workspace that a user works in.
use arima_executive_os.Common.{
  ℕ, suc, ◌≤◌, ◌≡◌, refl, ap, ◌==◌, ==_iff, Bool, true, ◌||◌, List, [], ◌∷◌, ◌++◌, map, arith,
  if◌then◌else◌, keep, length, length-append, Result, ok, err,
}
use mathlib.Core.List.{Memᴰ}
use arima_executive_os.Identity.{Workspace, Membership, Directory}
use arima_executive_os.Withdrawal.Tables.{OperationsError, no_workspace, ambiguous_workspace}

-- The rows of `_workspace_query`: the outer join of workspaces with their memberships, one row for
-- each membership and one for a workspace without any, of those the user owns or is the member of.
abbrev pub joined : ℕ → Workspace → List Membership → List Workspace
joined user w [] = if w.owner_id == user then w ∷ [] else []
joined user w (m ∷ ms) = map (λ _. w) (keep (λ x. w.owner_id == user || x.user_id == user) (m ∷ ms))

abbrev pub memberships_of : Directory → Workspace → List Membership
memberships_of d w = keep (λ m. m.workspace_id == w.id) d.memberships

unfoldable pub workspace_rows : Directory → ℕ → List Workspace → List Workspace
workspace_rows d user [] = []
workspace_rows d user (w ∷ ws) = joined user w (memberships_of d w) ++ workspace_rows d user ws

abbrev pub single : List Workspace → Result OperationsError Workspace
single [] = err no_workspace
single (w ∷ []) = ok w
single (w ∷ v ∷ ws) = err ambiguous_workspace

unfoldable pub workspace_for : Directory → ℕ → Result OperationsError Workspace
workspace_for d user = single (workspace_rows d user d.workspaces)

length-map : (xs : List Membership) (w : Workspace) → length (map (λ _. w) xs) ≡ length xs
length-map [] w = refl
length-map (x ∷ xs) w = ap suc (length-map xs w)

keep-true {ℓ} :
    {A : Type ℓ} (b : Bool) (q : A → Bool) (xs : List A)
    → b ≡ true
    → length (keep (λ x. b || q x) xs) ≡ length xs
keep-true b q [] e = refl
keep-true b q (x ∷ xs) e = ground (arith, keep-true b q xs e)

joined-owner :
    (user : ℕ) (w : Workspace) (ms : List Membership)
    → w.owner_id ≡ user
    → length ms ≤ length (joined user w ms)
joined-owner user w [] e = omega arith
joined-owner user w (m ∷ ms) e =
    let own : (w.owner_id == user) ≡ true = (==_iff w.owner_id user).1 e in
    omega (
      arith,
      length-map (keep (λ x. w.owner_id == user || x.user_id == user) (m ∷ ms)) w,
      keep-true (w.owner_id == user) (λ (x : Membership). x.user_id == user) (m ∷ ms) own,
    )

rows-owner :
    (d : Directory) (user : ℕ) (w : Workspace) (ws : List Workspace)
    → Memᴰ w ws
    → w.owner_id ≡ user
    → length (memberships_of d w) ≤ length (workspace_rows d user ws)
unfolding workspace_rows
rows-owner d user w [] h e = elim h [ ]
rows-owner d user w (v ∷ ws) (Memᴰ.head p) e = rw p (
    omega (
      arith,
      joined-owner user v (memberships_of d v) (rw (← p) e),
      length-append {0} (joined user v (memberships_of d v)) (workspace_rows d user ws),
    ))
rows-owner d user w (v ∷ ws) (Memᴰ.tail h) e = omega (
  arith,
  rows-owner d user w ws h e,
  length-append {0} (joined user v (memberships_of d v)) (workspace_rows d user ws),
)

single_ambiguous : (ws : List Workspace) → 2 ≤ length ws → single ws ≡ err ambiguous_workspace
single_ambiguous [] h = absurd (omega arith)
single_ambiguous (w ∷ []) h = absurd (omega arith)
single_ambiguous (w ∷ v ∷ ws) h = refl

-- The owner of a workspace that has two memberships or more is told that his workspace selection is
-- ambiguous.
pub workspace_for_shared :
    (d : Directory) (w : Workspace)
    → Memᴰ w d.workspaces
    → 2 ≤ length (memberships_of d w)
    → workspace_for d w.owner_id ≡ err ambiguous_workspace
unfolding workspace_for
workspace_for_shared d w m h =
    single_ambiguous _ (omega (arith, rows-owner d w.owner_id w d.workspaces m refl))
