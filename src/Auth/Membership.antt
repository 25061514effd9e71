-- ===== src/Auth/Membership.antt =====
-- The tests of app/services/tenant_membership_service.py on a user and a tenant of a request.
use starter_backend_template.Prelude.{ℕ, ◌≡◌, ◌↔◌, Bool, true, not, if◌then◌else◌, ◌==◌, arith}
use starter_backend_template.Errors.{forbidden, Result, ok, err}
use starter_backend_template.Permissions.{User, can_read_user}
use starter_backend_template.Permissions.Access.{can_read_user_iff}

unfoldable pub user_belongs_to_tenant : User → ℕ → Bool
user_belongs_to_tenant user tenant_id = user.tenant_id == tenant_id

unfoldable pub assert_user_belongs_to_tenant : User → ℕ → Result (Unit {0})
unfolding user_belongs_to_tenant
assert_user_belongs_to_tenant user tenant_id =
    if not (user_belongs_to_tenant user tenant_id)
    then err (forbidden "Tenant access denied")
    else ok tt

-- `request_tenant_id` is `request_tenant.id`.
unfoldable pub assert_request_tenant_matches_user :
    User → (request_tenant_id : ℕ) → Result (Unit {0})
assert_request_tenant_matches_user user request_tenant_id =
    if not (user.tenant_id == request_tenant_id)
    then err (forbidden "Tenant access denied")
    else ok tt

tenant_is :
    (n m : ℕ)
    → let checked : Result (Unit {0}) =
        if not (n == m) then err (forbidden "Tenant access denied") else ok tt in
      (checked ≡ ok tt) ↔ (n ≡ m)
tenant_is n m = (λ h. ground arith, λ h. ground arith)

-- A user whom another one may read passes the test of the tenant of a request that the other one
-- passes.
pub can_read_user-assert_request_tenant_matches_user :
    (current_user target_user : User) (request_tenant_id : ℕ)
    → can_read_user current_user target_user ≡ true
    → assert_request_tenant_matches_user current_user request_tenant_id ≡ ok tt
    → assert_request_tenant_matches_user target_user request_tenant_id ≡ ok tt
unfolding assert_request_tenant_matches_user
can_read_user-assert_request_tenant_matches_user u v n readable h =
    let same = (tenant_is u.tenant_id n).0 h in
    let (shared, _) = (can_read_user_iff u v).0 readable in
    (tenant_is v.tenant_id n).1 (rw (← shared) same)
