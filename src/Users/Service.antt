-- ===== src/Users/Service.antt =====
-- The changes of users: app/services/user_service.py and the routes of app/api/routes/users.py. What
-- a session has flushed is seen in it at once; a call that raises before its commit leaves the rows as
-- they were, and the only call here that raises so is the flush itself. A field of an update is left
-- out, null, or given.
use starter_backend_template.Prelude.{
  ℕ, ◌+◌, ◌≡◌, ◌⊎◌, String, Bool, true, false, not, ◌&&◌, ◌==◌, str_eq, if◌then◌else◌, Option, none,
  some, List, [], ◌∷◌, map, select,
}
use starter_backend_template.Errors.{
  integrity_error, http_exception, Result, ok, err, Exec, pure, lift, modify, ◌>>=◌, ◌>>◌,
}
use starter_backend_template.Permissions.{
  User, users_update, users_delete, users_activate, users_deactivate, user_has_permission,
  can_read_user, can_update_user,
}
use starter_backend_template.Accounts.{Accounts, IsAccounts, replaced_by}
use starter_backend_template.Users.CurrentUser.{require_permission}

pub data Field (A : Type 0) : Type 0 where
  unset null : Field A
  given : A → Field A

-- `UserAdminUpdate`; a `UserSelfUpdate` has the first field only.
pub record UserUpdate : Type 0 where
  pub email : Field String
  pub is_active : Field Bool
  pub role : Field String

-- `UserSelfUpdate(**user_update.model_dump(exclude_unset=True))`, which ignores the other fields.
abbrev pub self_update : UserUpdate → UserUpdate
self_update u = record { email = u.email; is_active = unset; role = unset }

-- The accounts with a row written (`flush`, which the unique columns may refuse) and a row deleted.
pub record Directory : Type 1 where
  pub accounts : Accounts
  pub flush_user : accounts.State → User → Result (Unit {0}) × accounts.State
  pub delete_row : accounts.State → User → accounts.State

pub record IsDirectory (d : Directory) : Type 1 where
  pub rows : IsAccounts d.accounts
  pub users-flush_ok :
      (s : d.accounts.State) (u : User)
      → (d.flush_user s u).0 ≡ ok tt
      → d.accounts.users (d.flush_user s u).1 ≡ map (replaced_by u) (d.accounts.users s)
  pub users-flush_err :
      (s : d.accounts.State) (u : User)
      → (d.flush_user s u).0 ≡ err integrity_error
      → d.accounts.users (d.flush_user s u).1 ≡ d.accounts.users s
  pub flush_answers :
      (s : d.accounts.State) (u : User)
      → ((d.flush_user s u).0 ≡ ok tt) ⊎ ((d.flush_user s u).0 ≡ err integrity_error)
  pub users-delete_row :
      (s : d.accounts.State) (u : User)
      → d.accounts.users (d.delete_row s u) ≡ select (λ v. not (v.id == u.id)) (d.accounts.users s)

-- The calls of `create_audit_log` and `invalidate_users_list_cache`.
pub data Call : Type 0 where
  audited : (tenant_id admin_id : ℕ) (action : String) (target_user_id : ℕ) → Call
  invalidated : (tenant_id : ℕ) → Call

pub record UsersState (A : Type 0) : Type 0 where
  pub accounts : A
  pub calls : List Call

-- `setattr(user, field, value)`: a null in a column that may not be null ends in an `IntegrityError`.
abbrev pub set_field : {A : Type 0} → Field A → A → Result A
set_field unset old = ok old
set_field null old = err integrity_error
set_field (given new) old = ok new

-- `"role" in update_data and update_data["role"] != user.role`
abbrev pub changes_role : Field String → String → Bool
changes_role unset old = false
changes_role null old = true
changes_role (given new) old = not (str_eq new old)

-- The row with the fields of an update, and its token version counted on if the role changes.
abbrev pub with_fields :
    User → UserUpdate → Result String → Result Bool → Result String → Result User
with_fields user update (ok email) (ok is_active) (ok role) = ok (record user {
  email = email;
  is_active = is_active;
  role = role;
  token_version =
      if changes_role update.role user.role then user.token_version + 1 else user.token_version;
})
with_fields user update _ _ _ = err integrity_error

unfoldable pub updated_user : User → UserUpdate → Result User
updated_user user update =
    with_fields user update (set_field update.email user.email)
      (set_field update.is_active user.is_active) (set_field update.role user.role)

module _ (d : Directory) where
  abbrev pub S : Type 0
  S = UsersState d.accounts.State

  unfoldable pub get_user_by_id : (user_id tenant_id : ℕ) → S → Option User
  get_user_by_id user_id tenant_id s =
      d.accounts.first_user s.accounts (λ u. u.id == user_id && u.tenant_id == tenant_id)

  abbrev pub invalidate_users_list_cache : ℕ → Exec S (Unit {0})
  invalidate_users_list_cache tenant_id =
      modify (λ s. record s { calls = invalidated tenant_id ∷ s.calls })

  unfoldable pub flush : User → Exec S (Unit {0})
  flush u s = let (r, accounts) = d.flush_user s.accounts u in (r, record s { accounts = accounts })

  -- The end of the changes: with `commit`, the cache of the lists is invalidated.
  abbrev pub finish : Bool → ℕ → Exec S (Unit {0})
  finish true tenant_id = invalidate_users_list_cache tenant_id
  finish false tenant_id = pure tt

  unfoldable pub update_user : User → UserUpdate → (commit : Bool) → Exec S User
  update_user user user_update commit = do
    updated ← lift (updated_user user user_update)
    flush updated
    finish commit updated.tenant_id
    pure updated

  unfoldable pub commit_user_mutation_with_audit :
      (tenant_id admin_id : ℕ) (action : String) (target_user_id : ℕ) → Exec S (Unit {0})
  commit_user_mutation_with_audit tenant_id admin_id action target_user_id = modify (λ s. record s {
    calls = invalidated tenant_id ∷ audited tenant_id admin_id action target_user_id ∷ s.calls;
  })

  -- The row with `is_active` written, for the row that was found.
  abbrev pub set_active : (User → User) → (commit : Bool) → Option User → Exec S (Option User)
  set_active change commit none = pure none
  set_active change commit (some user) = do
    flush (change user)
    finish commit user.tenant_id
    pure (some (change user))

  abbrev pub deactivated : User → User
  deactivated user = record user { is_active = false; token_version = user.token_version + 1 }

  abbrev pub activated : User → User
  activated user = record user { is_active = true }

  unfoldable pub deactivate_user : (user_id tenant_id : ℕ) (commit : Bool) → Exec S (Option User)
  deactivate_user user_id tenant_id commit s =
      set_active deactivated commit (get_user_by_id user_id tenant_id s) s

  unfoldable pub activate_user : (user_id tenant_id : ℕ) (commit : Bool) → Exec S (Option User)
  activate_user user_id tenant_id commit s =
      set_active activated commit (get_user_by_id user_id tenant_id s) s

  -- `delete_user(db, user, commit=False)`, and with `commit` the invalidation too.
  unfoldable pub delete_user : User → (commit : Bool) → Exec S (Unit {0})
  delete_user user commit = do
    modify (λ s. record s { accounts = d.delete_row s.accounts user })
    finish commit user.tenant_id

  abbrev pub or_404 : {A : Type 0} → Option A → Result A
  or_404 none = err (http_exception 404 "User not found")
  or_404 (some a) = ok a

  abbrev pub or_403 : Bool → Result (Unit {0})
  or_403 b = if not b then err (http_exception 403 "Insufficient permissions") else ok tt

  unfoldable pub get_user : (user_id : ℕ) (current_user : User) → S → Result User
  get_user user_id current_user s = elim (get_user_by_id user_id current_user.tenant_id s) [
    | none ↦ err (http_exception 404 "User not found")
    | some user ↦
        if not (can_read_user current_user user)
        then err (http_exception 403 "Insufficient permissions")
        else ok user
  ]

  -- The row of a tenant, or 404.
  unfoldable pub found_user : (user_id tenant_id : ℕ) → Exec S User
  found_user user_id tenant_id s = (or_404 (get_user_by_id user_id tenant_id s), s)

  -- The update of an administrator, with its audit log.
  unfoldable pub update_with_audit :
      User → UserUpdate → (current_user : User) → (user_id : ℕ) → Exec S User
  update_with_audit user user_update current_user user_id = do
    updated ← update_user user user_update false
    commit_user_mutation_with_audit current_user.tenant_id current_user.id "user.updated" user_id
    pure updated

  -- What `patch_user` does with the row that it found and that may be updated.
  unfoldable pub patch_found :
      User → UserUpdate → (current_user : User) → (user_id : ℕ) → Exec S User
  patch_found user user_update current_user user_id =
      if user_has_permission current_user users_update
      then update_with_audit user user_update current_user user_id
      else update_user user (self_update user_update) true

  unfoldable pub patch_user : (user_id : ℕ) → UserUpdate → (current_user : User) → Exec S User
  patch_user user_id user_update current_user = do
    user ← found_user user_id current_user.tenant_id
    lift (or_403 (can_update_user current_user user))
    patch_found user user_update current_user user_id

  -- What the routes on the activation do with the row that was changed, if there is one.
  unfoldable pub audited_user :
      Option User → (tenant_id admin_id : ℕ) (action : String) (target_user_id : ℕ) → Exec S User
  audited_user found tenant_id admin_id action target_user_id = do
    user ← lift (or_404 found)
    commit_user_mutation_with_audit tenant_id admin_id action target_user_id
    pure user

  unfoldable pub deactivate_user_endpoint : (user_id : ℕ) (current_user : User) → Exec S User
  deactivate_user_endpoint user_id current_user = do
    admin ← lift (require_permission (users_deactivate ∷ []) current_user)
    found ← deactivate_user user_id admin.tenant_id false
    audited_user found admin.tenant_id admin.id "user.deactivated" user_id

  unfoldable pub activate_user_endpoint : (user_id : ℕ) (current_user : User) → Exec S User
  activate_user_endpoint user_id current_user = do
    admin ← lift (require_permission (users_activate ∷ []) current_user)
    found ← activate_user user_id admin.tenant_id false
    audited_user found admin.tenant_id admin.id "user.activated" user_id

  unfoldable pub remove_user : (user_id : ℕ) (current_user : User) → Exec S (Unit {0})
  remove_user user_id current_user = do
    admin ← lift (require_permission (users_delete ∷ []) current_user)
    user ← found_user user_id admin.tenant_id
    delete_user user false
    commit_user_mutation_with_audit admin.tenant_id admin.id "user.deleted" user_id
