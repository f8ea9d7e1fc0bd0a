-- ===== src/Background/Permissions.antt =====
-- `BackgroundPermissionValidator` of app/background/permissions.py. A set of permissions is a list.
-- `conversation_owner_id` and `agent_is_active` are what the check reads of the conversation and of
-- the agent.
use arima_executive_os.Common.{
  ℕ, ltb, ◌==◌, Bool, true, false, ◌&&◌, ◌||◌, not, Option, none, some, List, [], ◌∷◌, String,
  str_eq, if◌then◌else◌, keep, any_of, is_none, is_empty, Result, ok, err,
}
use arima_executive_os.Identity.{User}

pub data BackgroundPermission : Type 0 where
  read write admin approval_required sensitive_data : BackgroundPermission
  execute_tool execute_integration execute_agent : BackgroundPermission

pub data ApprovalPolicy : Type 0 where
  no_approval user_approval admin_approval multi_stage : ApprovalPolicy

pub data ApprovalOutcome : Type 0 where
  not_required approved denied pending : ApprovalOutcome

pub record ApprovalGrant : Type 0 where
  pub policy : ApprovalPolicy
  pub outcome : ApprovalOutcome
  pub approved_by : Option ℕ
  pub approved_at : Option ℕ
  pub completed_stages : ℕ

pub record BackgroundExecutionContext : Type 0 where
  pub user : User
  pub agent_is_active : Bool
  pub conversation_owner_id : ℕ
  pub permissions : List BackgroundPermission
  pub required_permissions : List BackgroundPermission
  pub required_approval_policy : ApprovalPolicy

abbrev pub permission_eq : BackgroundPermission → BackgroundPermission → Bool
permission_eq read read = true
permission_eq write write = true
permission_eq admin admin = true
permission_eq approval_required approval_required = true
permission_eq sensitive_data sensitive_data = true
permission_eq execute_tool execute_tool = true
permission_eq execute_integration execute_integration = true
permission_eq execute_agent execute_agent = true
permission_eq _ _ = false

abbrev pub policy_eq : ApprovalPolicy → ApprovalPolicy → Bool
policy_eq no_approval no_approval = true
policy_eq user_approval user_approval = true
policy_eq admin_approval admin_approval = true
policy_eq multi_stage multi_stage = true
policy_eq _ _ = false

abbrev pub is_approved : ApprovalOutcome → Bool
is_approved approved = true
is_approved _ = false

abbrev pub has_permission : BackgroundPermission → List BackgroundPermission → Bool
has_permission p xs = any_of (λ q. permission_eq q p) xs

-- `ROLE_PERMISSIONS.get(role, ())`
unfoldable pub role_permissions : String → List BackgroundPermission
role_permissions role =
    if str_eq role "administrator"
    then read ∷ write ∷ admin ∷ approval_required ∷ sensitive_data ∷ execute_tool
      ∷ execute_integration ∷ execute_agent ∷ []
    else if str_eq role "executive"
    then read ∷ write ∷ approval_required ∷ sensitive_data ∷ execute_tool ∷ execute_integration
      ∷ execute_agent ∷ []
    else if str_eq role "manager"
    then read ∷ write ∷ approval_required ∷ execute_tool ∷ execute_integration ∷ execute_agent ∷ []
    else if str_eq role "analyst"
    then read ∷ execute_tool ∷ []
    else if str_eq role "viewer"
    then read ∷ []
    else []

-- Whether one of the roles grants the permission.
abbrev pub granted_by_roles : BackgroundPermission → List String → Bool
granted_by_roles p roles = any_of (λ r. has_permission p (role_permissions r)) roles

-- `required - (context.permissions & role_permissions)`
abbrev pub missing : BackgroundExecutionContext → List BackgroundPermission
missing c =
    keep (λ p. not (has_permission p c.permissions && granted_by_roles p c.user.roles))
      c.required_permissions

pub data Reason : Type 0 where
  user_inactive agent_inactive conversation_denied missing_permissions approval_missing : Reason

pub record BackgroundPermissionDecision : Type 0 where
  pub allowed : Bool
  pub missing_permissions : List BackgroundPermission
  pub approval_outcome : ApprovalOutcome
  pub reason : Option Reason

-- `_approval`
unfoldable pub approval : ApprovalPolicy → Option ApprovalGrant → ApprovalOutcome
approval no_approval grant = not_required
approval policy none = pending
approval policy (some g) =
    if not (policy_eq g.policy policy)
      || not (is_approved g.outcome)
      || is_none g.approved_by
      || is_none g.approved_at
    then denied
    else if policy_eq policy multi_stage && ltb g.completed_stages 2
    then pending
    else approved

-- `outcome in {NOT_REQUIRED, APPROVED}`
abbrev pub allows : ApprovalOutcome → Bool
allows not_required = true
allows approved = true
allows _ = false

-- `_denied`
abbrev pub deny : List BackgroundPermission → Reason → BackgroundPermissionDecision
deny required reason = record {
  allowed = false;
  missing_permissions = required;
  approval_outcome = denied;
  reason = some reason;
}

unfoldable pub evaluate :
    BackgroundExecutionContext → Option ApprovalGrant → BackgroundPermissionDecision
evaluate c grant =
    if not c.user.is_active
    then deny c.required_permissions user_inactive
    else if not c.agent_is_active
    then deny c.required_permissions agent_inactive
    else if not (c.conversation_owner_id == c.user.id)
    then deny c.required_permissions conversation_denied
    else if not (is_empty (missing c))
    then deny (missing c) missing_permissions
    else let outcome = approval c.required_approval_policy grant in
      record {
        allowed = allows outcome;
        missing_permissions = [];
        approval_outcome = outcome;
        reason = if allows outcome then none else some approval_missing;
      }

pub data BackgroundError : Type 0 where
  permission_denied approval_required_error : Option Reason → BackgroundError

unfoldable pub require :
    BackgroundExecutionContext
    → Option ApprovalGrant
    → Result BackgroundError BackgroundPermissionDecision
require c grant =
    let d = evaluate c grant in
    if not (is_empty d.missing_permissions)
    then err (permission_denied d.reason)
    else if not d.allowed
    then err (approval_required_error d.reason)
    else ok d
