-- ===== src/Users/Patching.antt =====
-- What `patch_user` of app/api/routes/users.py lets a user change: a plain user its own email only, an
-- administrator the role of every user of its tenant, to any role.
use starter_backend_template.Prelude.{
  ℕ, ◌+◌, ◌≡◌, refl, sym, ap, ◌∙◌, inl, inr, String, Bool, true, false, str_eq, some, arith,
  Option-cases, false≢true,
}
use starter_backend_template.Errors.{Result, ok, err, pure, lift, ◌>>◌}
use starter_backend_template.Errors.Chains.{Returns, Returns-bind, Returns-to}
use starter_backend_template.Permissions.{
  User, users_update, tenants_manage, user_has_permission, can_update_user,
  get_permissions_for_role, user_permissions, tenant_admin_permissions, platform_admin_permissions,
}
use starter_backend_template.Permissions.Access.{MayAccess, can_update_user_iff}
use starter_backend_template.Users.Service.{
  unset, given, UserUpdate, self_update, Directory, S, set_field, with_fields, updated_user,
  get_user_by_id, flush, finish, update_user, commit_user_mutation_with_audit, or_403, found_user,
  update_with_audit, patch_found, patch_user,
}

-- Nothing but the email of a row differs.
abbrev pub SameButEmail : User → User → Type 0
SameButEmail u w =
    (w.id ≡ u.id)
    × (w.tenant_id ≡ u.tenant_id)
    × (w.is_active ≡ u.is_active)
    × (w.role ≡ u.role)
    × (w.token_version ≡ u.token_version)
    × (w.hashed_password ≡ u.hashed_password)

self_updated :
    (u w : User) (update : UserUpdate)
    → updated_user u (self_update update) ≡ ok w
    → SameButEmail u w
unfolding updated_user
self_updated u w update h = from (set_field update.email u.email) h
  where
    from :
        (a : Result String)
        → with_fields u (self_update update) a (ok u.is_active) (ok u.role) ≡ ok w
        → SameButEmail u w
    from (err e) h = cc
    from (ok a) h =
        let row : record u { email = a } ≡ w = cc in rw (← row) (refl, refl, refl, refl, refl, refl)

-- A plain user has no permission on others.
plain_lacks : (u : User) → u.role ≡ "user" → user_has_permission u users_update ≡ false
unfolding user_has_permission get_permissions_for_role user_permissions
plain_lacks u e = rw e refl

admin_has : (u : User) → u.role ≡ "admin" → user_has_permission u users_update ≡ true
unfolding user_has_permission get_permissions_for_role tenant_admin_permissions
admin_has u e = rw e refl

platform_has : (u : User) → u.role ≡ "platform_admin" → user_has_permission u tenants_manage ≡ true
unfolding user_has_permission get_permissions_for_role platform_admin_permissions
platform_has u e = rw e refl

admin_lacks : (u : User) → u.role ≡ "admin" → user_has_permission u tenants_manage ≡ false
unfolding user_has_permission get_permissions_for_role tenant_admin_permissions
admin_lacks u e = rw e refl

-- A plain user may update itself only.
plain_own : (u t : User) → u.role ≡ "user" → MayAccess u t → t.id ≡ u.id
plain_own u t role (_, inl (inl admin)) =
    absurd (false≢true (sym (ap (str_eq "user") admin) ∙ ap (str_eq "user") role))
plain_own u t role (_, inl (inr platform)) =
    absurd (false≢true (sym (ap (str_eq "user") platform) ∙ ap (str_eq "user") role))
plain_own u t role (_, inr (_, own)) = sym own

module _ (d : Directory) where
  update_user_ok :
      (u w : User) (update : UserUpdate) (commit : Bool) (s : S d)
      → Returns (update_user d u update commit) s w
      → updated_user u update ≡ ok w
  unfolding update_user
  update_user_ok u w update commit s h =
      let (x, made, h₁) =
        Returns-bind (lift (updated_user u update))
          (λ x. flush d x >> (finish d commit x.tenant_id >> pure x)) s w h in
      let (_, _, h₂) =
        Returns-bind (flush d x) (λ _. finish d commit x.tenant_id >> pure x) s w h₁ in
      let (_, _, h₃) =
        Returns-bind (finish d commit x.tenant_id) (λ _. pure x) (flush d x s).1 w h₂ in
      let same : ok x ≡ ok w = h₃.returned in made ∙ same

  found_row :
      (user_id t : ℕ) (s : S d) (u : User)
      → (found_user d user_id t s).0 ≡ ok u
      → get_user_by_id d user_id t s ≡ some u
  unfolding found_user
  found_row user_id t s u h = elim (Option-cases (get_user_by_id d user_id t s)) [
    | inl absent ↦ cc (rw (absent, found_user) at h)
    | inr (w, found) ↦
        let same : ok w ≡ ok u = rw (found, found_user) at h in
        let is_u : w ≡ u = cc in found ∙ ap some is_u
  ]

  -- A user with the role `user` whose update returned has updated its own row, and nothing but its email.
  pub patch_user_self :
      (user_id : ℕ) (update : UserUpdate) (current w : User) (s : S d)
      → current.role ≡ "user"
      → (patch_user d user_id update current s).0 ≡ ok w
      → (u : User) × (get_user_by_id d user_id current.tenant_id s ≡ some u)
        × (u.id ≡ current.id)
        × SameButEmail u w
  unfolding patch_user patch_found found_user
  patch_user_self user_id update current w s role h =
      let run : Returns (patch_user d user_id update current) s w = record { returned = h } in
      let (u, found, h₁) = Returns-bind (found_user d user_id current.tenant_id) _ s w run in
      let (_, may, h₂) =
        Returns-bind (lift (or_403 d (can_update_user current u)))
          (λ _. patch_found d u update current user_id) s w h₁ in
      let mine : user_has_permission current users_update ≡ false = plain_lacks current role in
      let h₃ : Returns (update_user d u (self_update update) true) s w = record {
        returned = rw (mine, patch_found) at h₂.returned;
      } in
      let allowed : can_update_user current u ≡ true = ground (arith, may) in
      (
        u,
        found_row user_id current.tenant_id s u found,
        plain_own current u role ((can_update_user_iff current u).0 allowed),
        self_updated u w update (update_user_ok u w (self_update update) true s h₃),
      )

  -- The update of the role alone, which counts the token version on.
  to_platform_admin :
      (current : User)
      → current.role ≡ "admin"
      → updated_user current
          (record { email = unset; is_active = unset; role = given "platform_admin" })
        ≡ ok (record current { role = "platform_admin"; token_version = current.token_version + 1 })
  unfolding updated_user
  to_platform_admin current role = rw role refl

  -- An administrator's update of a row that the database takes returns the row.
  update_with_audit-Returns :
      (u w current : User) (update : UserUpdate) (user_id : ℕ) (s : S d)
      → updated_user u update ≡ ok w
      → (d.flush_user s.accounts w).0 ≡ ok tt
      → Returns (update_with_audit d u update current user_id) s w
  unfolding update_with_audit update_user flush commit_user_mutation_with_audit
  update_with_audit-Returns u w current update user_id s made taken =
      let updated : Returns (update_user d u update false) s w =
        Returns-to (lift (updated_user u update)) _ s w w made (
          Returns-to (flush d w) (λ _. finish d false w.tenant_id >> pure w) s tt w taken
            (record { returned = refl })) in
      Returns-to (update_user d u update false)
        (λ x.
          commit_user_mutation_with_audit d current.tenant_id current.id "user.updated" user_id
          >> pure x)
        s w w updated.returned (record { returned = refl })

  -- An administrator of a tenant may give itself the role `platform_admin`, and with it the permissions
  -- on all tenants that it lacks. Hypotheses: the query finds its row, and the database takes that row
  -- with the new role and the next token version.
  pub patch_user_escalates :
      (current : User) (s : S d)
      → current.role ≡ "admin"
      → get_user_by_id d current.id current.tenant_id s ≡ some current
      → (d.flush_user s.accounts
          (record current { role = "platform_admin"; token_version = current.token_version + 1 })).0
        ≡ ok tt
      → (w : User) × ((patch_user d current.id
            (record { email = unset; is_active = unset; role = given "platform_admin" })
            current
            s).0
          ≡ ok w)
        × (w.id ≡ current.id)
        × (user_has_permission current tenants_manage ≡ false)
        × (user_has_permission w tenants_manage ≡ true)
  unfolding patch_user patch_found found_user
  patch_user_escalates current s role found flushes =
      let update : UserUpdate = record {
        email = unset;
        is_active = unset;
        role = given "platform_admin";
      } in
      let w : User = record current {
        role = "platform_admin";
        token_version = current.token_version + 1;
      } in
      let may : can_update_user current current ≡ true =
        (can_update_user_iff current current).1 (refl, inl (inl role)) in
      let here : (found_user d current.id current.tenant_id s).0 ≡ ok current =
        rw (found, found_user) refl in
      let allowed : or_403 d (can_update_user current current) ≡ ok tt = rw may refl in
      let patched : Returns (patch_found d current update current current.id) s w = record {
        returned =
            rw (admin_has current role, patch_found)
              ((update_with_audit-Returns current w current update current.id s
                (to_platform_admin current role) flushes).returned);
      } in
      let run : Returns (patch_user d current.id update current) s w =
        Returns-to (found_user d current.id current.tenant_id) _ s current w here (
          Returns-to (lift (or_403 d (can_update_user current current)))
            (λ _. patch_found d current update current current.id) s tt w allowed patched) in
      (w, run.returned, refl, admin_lacks current role, platform_has w refl)
