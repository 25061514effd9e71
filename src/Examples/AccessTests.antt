-- ===== src/Examples/AccessTests.antt =====
-- The theorems on roles, access and the retry delay at concrete users and settings.
use starter_backend_template.Prelude.{◌≡◌, ◌≤◌, ◌↔◌, true, refl, arith}
use starter_backend_template.Permissions.{tenants_list, User, user_has_permission, can_read_user}
use starter_backend_template.Permissions.Roles.{tenants_permission_iff}
use starter_backend_template.Permissions.Access.{MayAccess, can_read_user_iff}
use starter_backend_template.Queue.Backoff.{
  calculate_retry_delay_seconds, calculate_retry_delay_seconds_bounds,
}
use starter_backend_template.Examples.Jobs.{settings}

abbrev alice : User
alice = record {
  id = 1;
  tenant_id = 10;
  email = "alice@acme.test";
  hashed_password = "x";
  is_active = true;
  role = "admin";
  token_version = 0;
}

abbrev bob : User
bob = record alice { id = 2; email = "bob@acme.test"; role = "user" }

tenants_permission_iff_example :
    (user_has_permission alice tenants_list ≡ true) ↔ (alice.role ≡ "platform_admin")
tenants_permission_iff_example = tenants_permission_iff alice tenants_list refl

can_read_user_iff_example : (can_read_user bob alice ≡ true) ↔ MayAccess bob alice
can_read_user_iff_example = can_read_user_iff bob alice

calculate_retry_delay_seconds_bounds_example :
    (5 ≤ calculate_retry_delay_seconds settings 9)
    × (calculate_retry_delay_seconds settings 9 ≤ 300)
    × (calculate_retry_delay_seconds settings 9 ≤ calculate_retry_delay_seconds settings 10)
calculate_retry_delay_seconds_bounds_example =
    calculate_retry_delay_seconds_bounds settings 9 (omega arith)
