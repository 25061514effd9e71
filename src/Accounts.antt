-- ===== src/Accounts.antt =====
-- The tables of users and tenants (app/models/user.py, app/models/tenant.py) behind a database
-- session, as a parameter: the rows, the first row that a query finds, and an update of a user.
use starter_backend_template.Prelude.{
  ℕ, ◌≡◌, Bool, true, Option, some, List, All, map, if◌then◌else◌, ◌==◌,
}
use starter_backend_template.Permissions.{User}

pub record Accounts : Type 1 where
  pub State : Type 0
  pub users : State → List User
  pub first_user : State → (User → Bool) → Option User
  -- `user.tenant` with its `is_active`, by the identifier of the tenant
  pub tenant_is_active : State → ℕ → Option Bool
  -- the columns of a user written and committed
  pub save_user : State → User → State

-- The row with the identifier of another, replaced by that.
abbrev pub replaced_by : User → User → User
replaced_by new old = if old.id == new.id then new else old

pub record IsAccounts (a : Accounts) : Type 1 where
  pub first_user_some :
      (s : a.State) (p : User → Bool) (u : User) → a.first_user s p ≡ some u → p u ≡ true
  pub first_user_stored :
      (s : a.State) (p : User → Bool) (u : User) (P : User → Type 0)
      → a.first_user s p ≡ some u
      → All P (a.users s)
      → P u
  pub users-save_user :
      (s : a.State) (u : User) → a.users (a.save_user s u) ≡ map (replaced_by u) (a.users s)
