-- ===== src/Permissions/Roles.antt =====
-- What the roles of app/core/permissions.py may do, role by role.
use starter_backend_template.Prelude.{
  String, true, false, ◌≡◌, refl, ◌⊎◌, inl, inr, ◌↔◌, [], arith, eq_iff, str_starts_with,
}
use starter_backend_template.Permissions.{
  Permission, users_list, tenants_list, tenants_provision, tenants_manage, value, is_member,
  user_permissions, tenant_admin_permissions, platform_admin_permissions, get_permissions_for_role,
  role_hierarchy, role_includes, User, user_has_permission,
}

-- A user permission is one of a tenant admin.
user_member-admin_member :
    (p : Permission)
    → is_member p user_permissions ≡ true
    → is_member p tenant_admin_permissions ≡ true
unfolding user_permissions tenant_admin_permissions
user_member-admin_member users_list h = refl
user_member-admin_member _ h = ground arith

platform_member : (p : Permission) → is_member p platform_admin_permissions ≡ true
unfolding platform_admin_permissions
platform_member users_list = refl
platform_member _ = refl

-- A role is one of the three, or has no permission and includes no role.
abbrev pub RoleCases : String → Type 0
RoleCases r =
    (r ≡ "user")
    ⊎ (r ≡ "admin")
    ⊎ (r ≡ "platform_admin")
    ⊎ ((get_permissions_for_role r ≡ []) × (role_hierarchy r ≡ []))

pub role_cases : (r : String) → RoleCases r
unfolding get_permissions_for_role role_hierarchy
role_cases r = ground (arith, eq_iff r "user", eq_iff r "admin", eq_iff r "platform_admin")

abbrev Holds : Permission → String → Type 0
Holds p role = is_member p (get_permissions_for_role role) ≡ true

user-platform_admin_excluded :
    (role_includes "user" "admin" ≡ false)
    × (role_includes "user" "platform_admin" ≡ false)
    × (role_includes "admin" "platform_admin" ≡ false)
unfolding role_includes
user-platform_admin_excluded = (refl, refl, refl)

includes_nothing : (a r : String) → role_hierarchy a ≡ [] → role_includes a r ≡ false
unfolding role_includes
includes_nothing a r e = rw e

no_member : (p : Permission) (r : String) → get_permissions_for_role r ≡ [] → Holds p r → ⊥
no_member p r e h = cc

admin_of_user : (p : Permission) → Holds p "user" → Holds p "admin"
unfolding get_permissions_for_role
admin_of_user p h = user_member-admin_member p h

platform-Holds : (p : Permission) → Holds p "platform_admin"
unfolding get_permissions_for_role
platform-Holds p = platform_member p

mono_cases :
    (a r : String) (p : Permission)
    → RoleCases a
    → RoleCases r
    → role_includes a r ≡ true
    → Holds p r
    → Holds p a
mono_cases a r p ca (inr (inr (inr (e, f)))) h m = absurd (no_member p r e m)
mono_cases a r p (inr (inr (inr (e, f)))) cr h m = cc (includes_nothing a r f)
mono_cases a r p (inr (inr (inl e))) cr h m = rw e (platform-Holds p)
mono_cases a r p (inl e) (inl e') h m = rw e (rw e' at m)
mono_cases a r p (inl e) (inr (inl e')) h m = cc (user-platform_admin_excluded.0)
mono_cases a r p (inl e) (inr (inr (inl e'))) h m = cc (user-platform_admin_excluded.1)
mono_cases a r p (inr (inl e)) (inl e') h m = rw e (admin_of_user p (rw e' at m))
mono_cases a r p (inr (inl e)) (inr (inl e')) h m = rw e (rw e' at m)
mono_cases a r p (inr (inl e)) (inr (inr (inl e'))) h m = cc (user-platform_admin_excluded.2)

-- A role that includes another holds every permission of it, whatever the two texts are.
pub role_includes_mono :
    (actor_role required_role : String) (p : Permission)
    → role_includes actor_role required_role ≡ true
    → is_member p (get_permissions_for_role required_role) ≡ true
    → is_member p (get_permissions_for_role actor_role) ≡ true
role_includes_mono a r p h m = mono_cases a r p (role_cases a) (role_cases r) h m

not_tenants_permission :
    (p : Permission)
    → str_starts_with (value p) "tenants." ≡ true
    → (Holds p "user" → ⊥) × (Holds p "admin" → ⊥)
unfolding get_permissions_for_role user_permissions tenant_admin_permissions
not_tenants_permission users_list h = cc
not_tenants_permission tenants_list h = (λ x. cc, λ x. cc)
not_tenants_permission tenants_provision h = (λ x. cc, λ x. cc)
not_tenants_permission tenants_manage h = (λ x. cc, λ x. cc)
not_tenants_permission _ h = cc

role_of_tenants_permission :
    (p : Permission) (r : String)
    → str_starts_with (value p) "tenants." ≡ true
    → Holds p r
    → RoleCases r
    → r ≡ "platform_admin"
role_of_tenants_permission p r h m (inl e) = absurd ((not_tenants_permission p h).0 (rw e at m))
role_of_tenants_permission p r h m (inr (inl e)) =
    absurd ((not_tenants_permission p h).1 (rw e at m))
role_of_tenants_permission p r h m (inr (inr (inl e))) = e
role_of_tenants_permission p r h m (inr (inr (inr (e, f)))) = absurd (no_member p r e m)

-- The permissions on tenants belong to the platform administrators alone, and to all of them.
pub tenants_permission_iff :
    (user : User) (p : Permission)
    → str_starts_with (value p) "tenants." ≡ true
    → (user_has_permission user p ≡ true) ↔ (user.role ≡ "platform_admin")
unfolding user_has_permission
tenants_permission_iff u p h =
    (λ m. role_of_tenants_permission p u.role h m (role_cases u.role), λ e. rw e (platform-Holds p))
