-- ===== src/Identity/Soundness.antt =====
-- Who is entitled to a financial context of `resolve` in app/services/identity.py.
use arima_executive_os.Common.{
  ℕ, ◌≡◌, ◌==◌, true, ◌⊎◌, Option, none, some, inl, inr, Option-cases, arith, any_of, ok,
}
use arima_executive_os.Identity.{
  User, Workspace, Directory, has_founder_control_access, is_member, find_user, find_workspace,
  AuthorizedFinancialContext, resolve, resolve_members,
}

-- Owner or member of a workspace.
abbrev pub BelongsTo : Directory → Workspace → ℕ → ℕ → Type 0
BelongsTo d w workspace_id user = (w.owner_id ≡ user) ⊎ (is_member d workspace_id user ≡ true)

-- The chain of actor, tenant, workspace and account that a context certifies.
pub record IsEntitled (d : Directory) (actor : User) (workspace_id account_id : ℕ)
    (asked : Option ℕ) (c : AuthorizedFinancialContext) : Type 0 where
  pub workspace : Workspace
  pub account : User
  pub workspace_found : find_workspace workspace_id d ≡ some workspace
  pub account_found : find_user account_id d ≡ some account
  pub tenant_found : workspace.tenant_id ≡ some c.tenant_id
  pub tenant_known : any_of (λ t. t == c.tenant_id) d.tenants ≡ true
  pub tenant_asked : (asked ≡ none) ⊎ (asked ≡ some c.tenant_id)
  pub actor_belongs :
      BelongsTo d workspace workspace_id actor.id ⊎ (has_founder_control_access d actor ≡ true)
  pub account_belongs : BelongsTo d workspace workspace_id account_id
  pub actor_for_account : (account_id ≡ actor.id) ⊎ (has_founder_control_access d actor ≡ true)
  pub context_actor : c.actor_id ≡ actor.id
  pub context_workspace : c.workspace_id ≡ workspace.id
  pub context_account : c.account_id ≡ account.id

-- A context is granted only to an actor who belongs to the workspace or is an allowlisted founder,
-- for an account that belongs to the workspace and is the actor's own unless the actor is such a
-- founder, in the workspace's own tenant, which is the one asked for if one is.
pub resolve_sound :
    (d : Directory) (actor : User) (workspace_id account_id : ℕ) (asked : Option ℕ)
    (c : AuthorizedFinancialContext)
    → resolve d actor workspace_id account_id asked ≡ ok c
    → IsEntitled d actor workspace_id account_id asked c
unfolding resolve resolve_members
resolve_sound d actor workspace_id account_id asked c h =
    elim (Option-cases (find_workspace workspace_id d)) [
      | inl e ↦ absurd (ground arith)
      | inr (w, e) ↦ elim (Option-cases (find_user account_id d)) [
        | inl f ↦ absurd (ground arith)
        | inr (account, f) ↦ record {
          workspace = w;
          account = account;
          workspace_found = e;
          account_found = f;
          tenant_found = ground arith;
          tenant_known = ground arith;
          tenant_asked = ground arith;
          actor_belongs = ground arith;
          account_belongs = ground arith;
          actor_for_account = ground arith;
          context_actor = ground arith;
          context_workspace = ground arith;
          context_account = ground arith;
        }
      ]
    ]

-- Whoever is entitled to a financial context, by the chain of actor, tenant, workspace and account
-- that the context certifies, is granted it.
pub resolve_complete :
    (d : Directory) (actor : User) (workspace_id account_id : ℕ) (asked : Option ℕ)
    (c : AuthorizedFinancialContext)
    → IsEntitled d actor workspace_id account_id asked c
    → resolve d actor workspace_id account_id asked ≡ ok c
unfolding resolve resolve_members
resolve_complete d actor workspace_id account_id asked c h = ground arith
