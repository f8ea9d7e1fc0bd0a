-- ===== src/Background/Grants.antt =====
-- What `require` of app/background/permissions.py asks of a background job.
use arima_executive_os.Common.{
  ◌≤◌, ◌≡◌, ◌≢◌, refl, ◌==◌, Bool, true, false, ◌&&◌, not, ◌⊎◌, Option, none, some, List, [], ◌∷◌,
  inl, inr, Bool-cases, arith, keep, All, is_empty, ok, err,
}
use arima_executive_os.Background.Permissions.{
  ApprovalPolicy, no_approval, multi_stage, user_approval, admin_approval, approved, ApprovalGrant,
  BackgroundExecutionContext, has_permission, granted_by_roles, BackgroundPermissionDecision,
  user_inactive, agent_inactive, conversation_denied, Reason, approval, allows, evaluate,
  approval_required_error, require,
}

-- A grant of that policy, by someone, at some time, with both stages where there are two.
pub record IsGranted (policy : ApprovalPolicy) (g : ApprovalGrant) : Type 0 where
  pub same_policy : g.policy ≡ policy
  pub outcome : g.outcome ≡ approved
  pub by_someone : g.approved_by ≢ none
  pub at_some_time : g.approved_at ≢ none
  pub stages : (policy ≢ multi_stage) ⊎ (2 ≤ g.completed_stages)

pub record IsPermitted (c : BackgroundExecutionContext) (grant : Option ApprovalGrant)
    : Type 0 where
  pub active_user : c.user.is_active ≡ true
  pub active_agent : c.agent_is_active ≡ true
  pub own_conversation : c.conversation_owner_id ≡ c.user.id
  pub permissions :
      All
        (λ p. (has_permission p c.permissions ≡ true) × (granted_by_roles p c.user.roles ≡ true))
        c.required_permissions
  pub by_approval :
      (c.required_approval_policy ≡ no_approval)
      ⊎ ((g : ApprovalGrant) × (grant ≡ some g) × IsGranted c.required_approval_policy g)

-- Nothing that is required is missing.
keep_none {ℓ} :
    {A : Type ℓ} (f g : A → Bool) (xs : List A)
    → is_empty (keep (λ x. not (f x && g x)) xs) ≡ true
    → All (λ x. (f x ≡ true) × (g x ≡ true)) xs
keep_none f g [] h = tt
keep_none f g (x ∷ xs) h = elim (Bool-cases (f x)) [
  | inr e ↦ absurd (ground arith)
  | inl e ↦ elim (Bool-cases (g x)) [
    | inr k ↦ absurd (ground arith)
    | inl k ↦ ((e, k), keep_none f g xs (ground arith))
  ]
]

approval-IsGranted :
    (policy : ApprovalPolicy) (g : ApprovalGrant)
    → policy ≢ no_approval
    → allows (approval policy (some g)) ≡ true
    → IsGranted policy g
unfolding approval
approval-IsGranted no_approval g ne h = absurd (ne refl)
approval-IsGranted user_approval g ne h = record {
  same_policy = ground arith;
  outcome = ground arith;
  by_someone = ground arith;
  at_some_time = ground arith;
  stages = inl (ground arith);
}
approval-IsGranted admin_approval g ne h = record {
  same_policy = ground arith;
  outcome = ground arith;
  by_someone = ground arith;
  at_some_time = ground arith;
  stages = inl (ground arith);
}
approval-IsGranted multi_stage g ne h = record {
  same_policy = ground arith;
  outcome = ground arith;
  by_someone = ground arith;
  at_some_time = ground arith;
  stages = inr (ground arith);
}

approval_sound :
    (policy : ApprovalPolicy) (grant : Option ApprovalGrant)
    → allows (approval policy grant) ≡ true
    → (policy ≡ no_approval) ⊎ ((g : ApprovalGrant) × (grant ≡ some g) × IsGranted policy g)
unfolding approval
approval_sound no_approval grant h = inl refl
approval_sound user_approval none h = absurd (ground arith)
approval_sound admin_approval none h = absurd (ground arith)
approval_sound multi_stage none h = absurd (ground arith)
approval_sound user_approval (some g) h =
    inr (g, refl, approval-IsGranted user_approval g (ground arith) h)
approval_sound admin_approval (some g) h =
    inr (g, refl, approval-IsGranted admin_approval g (ground arith) h)
approval_sound multi_stage (some g) h =
    inr (g, refl, approval-IsGranted multi_stage g (ground arith) h)

-- A job is let through only for an active user and an active agent in the user's own conversation,
-- with every required permission held by the context and granted by one of the user's roles, and
-- with a complete grant of the very approval policy of the job, if it has one.
pub require_sound :
    (c : BackgroundExecutionContext) (grant : Option ApprovalGrant)
    (d : BackgroundPermissionDecision)
    → require c grant ≡ ok d
    → IsPermitted c grant
unfolding require evaluate
require_sound c grant d h = record {
  active_user = ground arith;
  active_agent = ground arith;
  own_conversation = ground arith;
  permissions = keep_none _ _ c.required_permissions (ground arith);
  by_approval = approval_sound c.required_approval_policy grant (ground arith);
}

-- Where a job requires no permission, a user who is inactive, an inactive agent and a conversation
-- of somebody else are not answered as denied: the job is said to wait for an approval.
pub require_waits :
    (c : BackgroundExecutionContext) (grant : Option ApprovalGrant)
    → c.required_permissions ≡ []
    → (c.user.is_active && c.agent_is_active && (c.conversation_owner_id == c.user.id)) ≡ false
    → (r : Reason) × (require c grant ≡ err (approval_required_error (some r)))
unfolding require evaluate
require_waits c grant e h = elim (Bool-cases c.user.is_active) [
  | inr f ↦ (user_inactive, ground arith)
  | inl f ↦ elim (Bool-cases c.agent_is_active) [
    | inr g ↦ (agent_inactive, ground arith)
    | inl g ↦ (conversation_denied, ground arith)
  ]
]
