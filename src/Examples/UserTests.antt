-- ===== src/Examples/UserTests.antt =====
-- The theorems on users at one tenant with a user and an administrator.
use starter_backend_template.Prelude.{
  ℕ, ◌≡◌, ◌<◌, refl, inl, true, false, not, ◌==◌, none, some, List, [], ◌∷◌, map, select, codes,
}
use starter_backend_template.Errors.{ok}
use starter_backend_template.Permissions.{
  User, tenants_manage, user_has_permission, user_has_any_permission, users_share_tenant,
  can_update_user, get_permissions_for_role, user_permissions, tenant_admin_permissions,
}
use starter_backend_template.Accounts.{replaced_by}
use starter_backend_template.Auth.{is_id, Claims, Jwt, assert_active_tenant_membership}
use starter_backend_template.Webhook.Signature.{ℤ, pos}
use starter_backend_template.Users.CurrentUser.{
  access_claims, check_current, check_requested_tenant, get_current_user, require_permission,
  is_access, int_of, NamesTenantOf, get_current_user-IsCurrent,
}
use starter_backend_template.Users.Service.{
  unset, given, UserUpdate, Directory, IsDirectory, UsersState, get_user_by_id, flush, updated_user,
  update_user, deactivate_user, activate_user, audited_user, deactivate_user_endpoint,
  activate_user_endpoint, found_user, patch_found, patch_user, commit_user_mutation_with_audit,
}
use starter_backend_template.Users.Sessions.{
  activates, done, more, deactivate_user_endpoint-get_current_user,
}
use starter_backend_template.Users.Patching.{SameButEmail, patch_user_self, patch_user_escalates}
use starter_backend_template.Examples.Tables.{keys}
use starter_backend_template.Examples.AuthTests.{accounts, accounts_lawful, carol, settings}
use starter_backend_template.Examples.ResetTests.{tokens}
use starter_backend_template.Examples.TenantTests.{tenants}

abbrev directory : Directory
directory = record {
  accounts = accounts;
  flush_user = λ s u. (ok tt, map (replaced_by u) s);
  delete_row = λ s u. select (λ v. not (v.id == u.id)) s;
}

directory_lawful : IsDirectory directory
directory_lawful = record {
  rows = accounts_lawful;
  users-flush_ok = λ s u e. refl;
  users-flush_err = λ s u e. cc;
  flush_answers = λ s u. inl refl;
  users-delete_row = λ s u. refl;
}

abbrev admin : User
admin = record carol { id = 2; email = "ada@acme.test"; role = "admin" }

abbrev team : UsersState (List User)
team = record { accounts = carol ∷ admin ∷ []; calls = [] }

-- A token of the version that carol has after a deactivation.
abbrev new_claims : Claims
new_claims = record {
  sub = some (codes "1");
  tenant_id = some 10;
  token_version = some 5;
  exp = some 500;
  type = some (codes "access");
  jti = none;
}

abbrev jwt : Jwt
jwt = record {
  encode = λ c. codes "token";
  decode = λ now t. some new_claims;
  int = λ t. some (pos 1);
  str = λ n. codes "1";
}

abbrev deactivated : UsersState (List User)
deactivated = (deactivate_user_endpoint directory 1 admin team).1

abbrev reactivated : UsersState (List User)
reactivated = (activate_user_endpoint directory 1 admin deactivated).1

deactivate_user_endpoint-get_current_user_example :
    (payload : Claims) × (version : ℕ) × (jwt.decode 100 (codes "token") ≡ some payload)
    × (payload.token_version ≡ some version)
    × (carol.token_version < version)
unfolding deactivate_user_endpoint activate_user_endpoint deactivate_user activate_user audited_user
    flush get_user_by_id commit_user_mutation_with_audit require_permission user_has_any_permission
    get_permissions_for_role tenant_admin_permissions get_current_user access_claims check_current
    assert_active_tenant_membership check_requested_tenant
deactivate_user_endpoint-get_current_user_example =
    deactivate_user_endpoint-get_current_user directory directory_lawful tokens keys jwt settings
      tenants 1 admin carol (record carol { is_active = false; token_version = 5 })
      (record carol { token_version = 5 }) team reactivated (codes "token") none 100 (0, []) refl
      refl
      (more deactivated reactivated reactivated (activates 1 admin deactivated) (done reactivated))
      refl refl

abbrev new_email : UserUpdate
new_email = record { email = given "new@acme.test"; is_active = given false; role = given "admin" }

patch_user_self_example :
    (u : User) × (get_user_by_id directory 1 carol.tenant_id team ≡ some u)
    × (u.id ≡ carol.id)
    × SameButEmail u (record carol { email = "new@acme.test" })
unfolding patch_user found_user get_user_by_id patch_found update_user updated_user flush
    can_update_user users_share_tenant user_has_permission get_permissions_for_role user_permissions
patch_user_self_example =
    patch_user_self directory 1 new_email carol (record carol { email = "new@acme.test" }) team refl
      refl

patch_user_escalates_example :
    (w : User) × ((patch_user directory admin.id
        (record { email = unset; is_active = unset; role = given "platform_admin" })
        admin
        team).0
      ≡ ok w)
    × (w.id ≡ admin.id)
    × (user_has_permission admin tenants_manage ≡ false)
    × (user_has_permission w tenants_manage ≡ true)
unfolding get_user_by_id
patch_user_escalates_example = patch_user_escalates directory admin team refl refl refl

get_current_user-IsCurrent_example :
    let user = record carol { token_version = 5 } in
    (payload : Claims) × (jwt.decode 100 (codes "token") ≡ some payload)
    × (is_access payload.type ≡ true)
    × (payload.token_version ≡ some user.token_version)
    × (payload.tenant_id ≡ some user.tenant_id)
    × ((n : ℤ) × (int_of jwt.int payload.sub ≡ some n) × (is_id n user.id ≡ true))
    × (user.is_active ≡ true)
    × (accounts.tenant_is_active (user ∷ []) user.tenant_id ≡ some true)
    × NamesTenantOf keys accounts jwt settings tenants user none (0, [])
unfolding get_current_user access_claims check_current assert_active_tenant_membership
    check_requested_tenant
get_current_user-IsCurrent_example =
    get_current_user-IsCurrent keys accounts jwt settings tenants accounts_lawful (codes "token")
      none 100 (record carol { token_version = 5 } ∷ []) (0, [])
      (record carol { token_version = 5 }) refl
