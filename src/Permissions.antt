-- ===== src/Permissions.antt =====
-- app/core/permissions.py and app/services/permission_service.py: the permissions of each role,
-- and who may read or change a user. A role is a text, as in the column `users.role`; an unknown
-- role has no permission. A `StrEnum` member equals another when their values are equal texts.
pub mod Roles
pub mod Access
use starter_backend_template.Prelude.{
  ℕ, String, Bool, true, false, not, ◌&&◌, List, [], ◌∷◌, ◌==◌, str_eq, str_starts_with,
  if◌then◌else◌, any, select,
}

pub data Permission : Type 0 where
  users_list users_read users_read_self users_update users_update_self : Permission
  users_delete users_activate users_deactivate admin_access audit_logs_list : Permission
  files_upload files_download files_download_self files_delete files_delete_self : Permission
  tenants_list tenants_provision tenants_manage : Permission

abbrev pub value : Permission → String
value users_list = "users.list"
value users_read = "users.read"
value users_read_self = "users.read.self"
value users_update = "users.update"
value users_update_self = "users.update.self"
value users_delete = "users.delete"
value users_activate = "users.activate"
value users_deactivate = "users.deactivate"
value admin_access = "admin.access"
value audit_logs_list = "audit_logs.list"
value files_upload = "files.upload"
value files_download = "files.download"
value files_download_self = "files.download.self"
value files_delete = "files.delete"
value files_delete_self = "files.delete.self"
value tenants_list = "tenants.list"
value tenants_provision = "tenants.provision"
value tenants_manage = "tenants.manage"

-- Iteration over the class `Permission`, in the order of declaration.
abbrev pub all_permissions : List Permission
all_permissions =
    users_list ∷ users_read ∷ users_read_self ∷ users_update ∷ users_update_self ∷ users_delete
    ∷ users_activate ∷ users_deactivate ∷ admin_access ∷ audit_logs_list ∷ files_upload
    ∷ files_download ∷ files_download_self ∷ files_delete ∷ files_delete_self ∷ tenants_list
    ∷ tenants_provision ∷ tenants_manage ∷ []

-- `permission in permissions`
abbrev pub is_member : Permission → List Permission → Bool
is_member p ps = any (λ q. str_eq (value p) (value q)) ps

unfoldable pub user_permissions : List Permission
user_permissions =
    users_read_self ∷ users_update_self ∷ files_upload ∷ files_download_self ∷ files_delete_self
    ∷ []

unfoldable pub tenant_admin_permissions : List Permission
tenant_admin_permissions = select (λ p. not (str_starts_with (value p) "tenants.")) all_permissions

unfoldable pub platform_admin_permissions : List Permission
platform_admin_permissions = all_permissions

-- `ROLE_PERMISSIONS.get(role, frozenset())`
unfoldable pub get_permissions_for_role : String → List Permission
get_permissions_for_role role =
    if str_eq role "user"
    then user_permissions
    else if str_eq role "admin"
    then tenant_admin_permissions
    else if str_eq role "platform_admin"
    then platform_admin_permissions
    else []

-- `ROLE_HIERARCHY.get(role, frozenset())`
unfoldable pub role_hierarchy : String → List String
role_hierarchy role =
    if str_eq role "platform_admin"
    then "platform_admin" ∷ "admin" ∷ "user" ∷ []
    else if str_eq role "admin"
    then "admin" ∷ "user" ∷ []
    else if str_eq role "user"
    then "user" ∷ []
    else []

unfoldable pub role_includes : String → String → Bool
unfolding role_hierarchy
role_includes actor_role required_role = any (str_eq required_role) (role_hierarchy actor_role)

-- The columns of `users` that the program reads and writes, app/models/user.py.
pub record User : Type 0 where
  pub id : ℕ
  pub tenant_id : ℕ
  pub email : String
  pub hashed_password : String
  pub is_active : Bool
  pub role : String
  pub token_version : ℕ

unfoldable pub user_has_permission : User → Permission → Bool
user_has_permission user permission = is_member permission (get_permissions_for_role user.role)

unfoldable pub user_has_any_permission : User → List Permission → Bool
user_has_any_permission user permissions =
    any (λ p. is_member p (get_permissions_for_role user.role)) permissions

unfoldable pub users_share_tenant : User → User → Bool
users_share_tenant current_user target_user = current_user.tenant_id == target_user.tenant_id

unfoldable pub can_read_user : User → User → Bool
unfolding users_share_tenant
can_read_user current_user target_user =
    if not (users_share_tenant current_user target_user)
    then false
    else if user_has_permission current_user users_read
    then true
    else current_user.id == target_user.id && user_has_permission current_user users_read_self

unfoldable pub can_update_user : User → User → Bool
unfolding users_share_tenant
can_update_user current_user target_user =
    if not (users_share_tenant current_user target_user)
    then false
    else if user_has_permission current_user users_update
    then true
    else current_user.id == target_user.id && user_has_permission current_user users_update_self
