-- ===== src/Permissions/Access.antt =====
-- Who may read and update whom: `can_read_user` and `can_update_user` of
-- app/services/permission_service.py.
use starter_backend_template.Prelude.{
  ◌==◌, if◌then◌else◌, not, ◌&&◌, ℕ, String, Bool, true, false, ◌≡◌, refl, ◌⊎◌, inl, inr, ◌↔◌, [],
  arith, ==_iff,
}
use starter_backend_template.Permissions.{
  Permission, users_read, users_read_self, users_update, users_update_self, is_member,
  user_permissions, tenant_admin_permissions, platform_admin_permissions, get_permissions_for_role,
  User, user_has_permission, can_read_user, can_update_user,
}
use starter_backend_template.Permissions.Roles.{RoleCases, role_cases}

-- An administrator of either kind.
abbrev pub IsAdmin : User → Type 0
IsAdmin u = (u.role ≡ "admin") ⊎ (u.role ≡ "platform_admin")

abbrev pub has : Permission → String → Bool
has p r = is_member p (get_permissions_for_role r)

-- A permission for everyone in the tenant is an administrator's, one for oneself a known role's.
pub record IsPair (p q : Permission) : Type 0 where
  pub user_p : has p "user" ≡ false
  pub user_q : has q "user" ≡ true
  pub admin : has p "admin" ≡ true
  pub platform : has p "platform_admin" ≡ true

read-IsPair : IsPair users_read users_read_self
unfolding get_permissions_for_role user_permissions tenant_admin_permissions
    platform_admin_permissions
read-IsPair = record { user_p = refl; user_q = refl; admin = refl; platform = refl }

update-IsPair : IsPair users_update users_update_self
unfolding get_permissions_for_role user_permissions tenant_admin_permissions
    platform_admin_permissions
update-IsPair = record { user_p = refl; user_q = refl; admin = refl; platform = refl }

-- Same tenant, and an administrator, or oneself as a plain user.
abbrev pub MayAccess : User → User → Type 0
MayAccess u t = (u.tenant_id ≡ t.tenant_id) × (IsAdmin u ⊎ ((u.role ≡ "user") × (u.id ≡ t.id)))

abbrev pub AdminRole : String → Type 0
AdminRole r = (r ≡ "admin") ⊎ (r ≡ "platform_admin")

abbrev Decides : Permission → Permission → String → Bool → Bool → Type 0
Decides p q r same own =
    ((if not same then false else if has p r then true else own && has q r) ≡ true)
    ↔ ((same ≡ true) × (AdminRole r ⊎ ((r ≡ "user") × (own ≡ true))))

unknown_has : (p : Permission) (r : String) → get_permissions_for_role r ≡ [] → has p r ≡ false
unknown_has p r e = rw e

-- What a pair of permissions decides, for each kind of role.
decides :
    (p q : Permission) (r : String) (same own : Bool)
    → IsPair p q
    → RoleCases r
    → Decides p q r same own
decides p q r same own v (inl e) =
    let a : has p r ≡ false = rw e v.user_p in
    let b : has q r ≡ true = rw e v.user_q in (λ h. ground (arith, a, b), λ h. ground (arith, a, b))
decides p q r same own v (inr (inl e)) =
    let a : has p r ≡ true = rw e v.admin in (λ h. ground (arith, a), λ h. ground (arith, a))
decides p q r same own v (inr (inr (inl e))) =
    let a : has p r ≡ true = rw e v.platform in (λ h. ground (arith, a), λ h. ground (arith, a))
decides p q r same own v (inr (inr (inr (e, f)))) =
    let a : has p r ≡ false = unknown_has p r e in
    let b : has q r ≡ false = unknown_has q r e in
    (λ h. ground (arith, a, b), λ h. ground (arith, a, b))

pub decides_iff :
    (p q : Permission) (r : String) (a b c d : ℕ)
    → IsPair p q
    → ((if not (a == b) then false else if has p r then true else c == d && has q r) ≡ true)
      ↔ ((a ≡ b) × (AdminRole r ⊎ ((r ≡ "user") × (c ≡ d))))
decides_iff p q r a b c d v =
    let k = decides p q r (a == b) (c == d) v (role_cases r) in
    (
      λ h. let (x, y) = k.0 h in ((==_iff a b).0 x, own_of y),
      λ h. k.1 ((==_iff a b).1 h.0, own_to h.1),
    )
  where
    own_of :
        (AdminRole r ⊎ ((r ≡ "user") × ((c == d) ≡ true))) → AdminRole r ⊎ ((r ≡ "user") × (c ≡ d))
    own_of (inl x) = inl x
    own_of (inr (x, y)) = inr (x, (==_iff c d).0 y)

    own_to :
        (AdminRole r ⊎ ((r ≡ "user") × (c ≡ d))) → AdminRole r ⊎ ((r ≡ "user") × ((c == d) ≡ true))
    own_to (inl x) = inl x
    own_to (inr (x, y)) = inr (x, (==_iff c d).1 y)

-- A user may be read exactly by the administrators of its tenant and, with the role `user`, by
-- itself.
pub can_read_user_iff : (u t : User) → (can_read_user u t ≡ true) ↔ MayAccess u t
unfolding can_read_user user_has_permission
can_read_user_iff u t =
    decides_iff users_read users_read_self u.role u.tenant_id t.tenant_id u.id t.id read-IsPair

-- A user may be updated exactly by those who may read it.
pub can_update_user_iff : (u t : User) → (can_update_user u t ≡ true) ↔ MayAccess u t
unfolding can_update_user user_has_permission
can_update_user_iff u t =
    decides_iff users_update users_update_self u.role u.tenant_id t.tenant_id u.id t.id
      update-IsPair
