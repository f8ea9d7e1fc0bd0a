-- ===== src/Identity.antt =====
-- Who may act for whom: `has_founder_control_access` of app/services/permissions.py and
-- `FinancialContextResolver` of app/services/identity.py, over the tables of users, tenants,
-- workspaces and memberships. `fold` is `str.strip().casefold()`, and `founder_control_emails` is
-- the setting of that name.
pub mod Soundness
pub mod Tests
use arima_executive_os.Common.{
  ℕ, ◌==◌, Bool, true, false, ◌&&◌, ◌||◌, not, Option, none, some, List, map, String, str_eq,
  if◌then◌else◌, find_first, any_of, is_some, is_none, is_empty, Result, ok, err,
}

pub record User : Type 0 where
  pub id : ℕ
  pub email : String
  pub first_name : String
  pub last_name : String
  pub roles : List String
  pub is_active : Bool

pub record Workspace : Type 0 where
  pub id : ℕ
  pub owner_id : ℕ
  pub tenant_id : Option ℕ

pub record Membership : Type 0 where
  pub workspace_id : ℕ
  pub user_id : ℕ

pub record Directory : Type 0 where
  pub users : List User
  pub tenants : List ℕ
  pub workspaces : List Workspace
  pub memberships : List Membership
  pub founder_control_emails : List String
  pub fold : String → String

abbrev pub has_text : String → List String → Bool
has_text s xs = any_of (λ x. str_eq x s) xs

unfoldable pub has_founder_control_access : Directory → User → Bool
has_founder_control_access d u =
    let allowed = map d.fold d.founder_control_emails in
    not (is_empty allowed)
    && (has_text "administrator" u.roles && has_text (d.fold u.email) allowed)

abbrev pub is_member : Directory → ℕ → ℕ → Bool
is_member d ws user = any_of (λ m. m.workspace_id == ws && m.user_id == user) d.memberships

abbrev pub find_user : ℕ → Directory → Option User
find_user id d = find_first (λ u. u.id == id) d.users

abbrev pub find_workspace : ℕ → Directory → Option Workspace
find_workspace id d = find_first (λ w. w.id == id) d.workspaces

pub data ContextError : Type 0 where
  no_workspace_tenant no_tenant tenant_mismatch actor_not_in_workspace : ContextError
  no_account account_not_in_workspace actor_not_for_account actor_mismatch : ContextError

pub record AuthorizedFinancialContext : Type 0 where
  pub actor_id : ℕ
  pub tenant_id : ℕ
  pub workspace_id : ℕ
  pub account_id : ℕ

-- The checks of `resolve` that follow the workspace's and the tenant's.
unfoldable pub resolve_members :
    Directory → User → Workspace → ℕ → ℕ → ℕ → Result ContextError AuthorizedFinancialContext
resolve_members d actor w tenant workspace_id account_id =
    if not (w.owner_id == actor.id)
      && not (is_member d workspace_id actor.id)
      && not (has_founder_control_access d actor)
    then err actor_not_in_workspace
    else elim (find_user account_id d) [
      | none ↦ err no_account
      | some account ↦
          if not (w.owner_id == account_id) && not (is_member d workspace_id account_id)
          then err account_not_in_workspace
          else if not (account_id == actor.id) && not (has_founder_control_access d actor)
          then err actor_not_for_account
          else ok (record {
            actor_id = actor.id;
            tenant_id = tenant;
            workspace_id = w.id;
            account_id = account.id;
          })
    ]

-- `tenant_id is not None and tenant.id != tenant_id`
abbrev pub other_tenant : Option ℕ → ℕ → Bool
other_tenant none t = false
other_tenant (some asked) t = not (t == asked)

unfoldable pub resolve :
    Directory → User → ℕ → ℕ → Option ℕ → Result ContextError AuthorizedFinancialContext
unfolding resolve_members
resolve d actor workspace_id account_id tenant_id = elim (find_workspace workspace_id d) [
  | none ↦ err no_workspace_tenant
  | some w ↦ elim w.tenant_id [
    | none ↦ err no_workspace_tenant
    | some tenant ↦
        if not (any_of (λ t. t == tenant) d.tenants)
        then err no_tenant
        else if other_tenant tenant_id tenant
        then err tenant_mismatch
        else resolve_members d actor w tenant workspace_id account_id
  ]
]

-- `DatabaseFinancialContextAuthorizer.authorize`: the authenticated actor is `actor`.
unfoldable pub authorize :
    Directory → User → ℕ → ℕ → ℕ → ℕ → Result ContextError AuthorizedFinancialContext
unfolding resolve
authorize d actor tenant_id workspace_id actor_id account_id =
    if not (actor_id == actor.id)
    then err actor_mismatch
    else elim (resolve d actor workspace_id account_id (some tenant_id)) [
      | err e ↦ err e
      | ok context ↦ if not (context.actor_id == actor_id) then err actor_mismatch else ok context
    ]
