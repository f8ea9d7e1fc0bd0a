-- ===== src/Identity/Tests.antt =====
-- Contexts in a directory with one workspace, its owner, a stranger and a founder.
use arima_executive_os.Common.{◌≡◌, refl, true, some, [], ◌∷◌, ok, err}
use arima_executive_os.Identity.{
  User, Directory, has_founder_control_access, resolve, resolve_members, AuthorizedFinancialContext,
  actor_not_in_workspace,
}
use arima_executive_os.Identity.Soundness.{IsEntitled, resolve_sound, resolve_complete}

abbrev pub customer : User
customer = record {
  id = 5;
  email = "customer";
  first_name = "Ada";
  last_name = "Byron";
  roles = [];
  is_active = true;
}

abbrev pub founder : User
founder = record {
  id = 9;
  email = "founder";
  first_name = "Grace";
  last_name = "Hopper";
  roles = "administrator" ∷ [];
  is_active = true;
}

abbrev stranger : User
stranger = record customer { id = 6; email = "stranger" }

abbrev pub directory : Directory
directory = record {
  users = customer ∷ stranger ∷ founder ∷ [];
  tenants = 1 ∷ [];
  workspaces = record { id = 7; owner_id = 5; tenant_id = some 1 } ∷ [];
  memberships = [];
  founder_control_emails = "founder" ∷ [];
  fold = λ s. s;
}

abbrev founder_context : AuthorizedFinancialContext
founder_context = record { actor_id = 9; tenant_id = 1; workspace_id = 7; account_id = 5 }

founder_resolves : resolve directory founder 7 5 (some 1) ≡ ok founder_context
unfolding resolve resolve_members has_founder_control_access
founder_resolves = refl

stranger_refused : resolve directory stranger 7 5 (some 1) ≡ err actor_not_in_workspace
unfolding resolve resolve_members has_founder_control_access
stranger_refused = refl

resolve_sound_example : IsEntitled directory founder 7 5 (some 1) founder_context
resolve_sound_example =
    resolve_sound directory founder 7 5 (some 1) founder_context founder_resolves

resolve_complete_example : resolve directory founder 7 5 (some 1) ≡ ok founder_context
resolve_complete_example =
    resolve_complete directory founder 7 5 (some 1) founder_context
      (resolve_sound directory founder 7 5 (some 1) founder_context founder_resolves)
