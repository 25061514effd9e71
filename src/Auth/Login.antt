-- ===== src/Auth/Login.antt =====
-- The login of app/services/auth_service.py. `verify_password` is that of app/core/security.py, which
-- asks `passlib`, a parameter.
use starter_backend_template.Prelude.{
  ℕ, ◌≡◌, ◌↔◌, String, Bool, true, not, ◌&&◌, if◌then◌else◌, str_eq, ◌==◌, Option, none, some, Text,
  refl, ap, arith, eq_iff, ==_iff, Bool-cases, inl, inr,
}
use starter_backend_template.Errors.{unauthorized, Result, ok, err}
use starter_backend_template.Permissions.{User}
use starter_backend_template.Keys.{Keys}
use starter_backend_template.Accounts.{Accounts, IsAccounts}
use starter_backend_template.Auth.{Jwt, AuthSettings, issue_tokens}

module _ (a : Accounts) (verify_password : String → String → Bool) where
  unfoldable pub get_user_by_email : (email : String) (tenant_id : ℕ) → a.State → Option User
  get_user_by_email email tenant_id accounts =
      a.first_user accounts (λ u. str_eq u.email email && u.tenant_id == tenant_id)

  -- The tests of the row that was found.
  unfoldable pub check_login : (password : String) → Option User → Result User
  check_login password none = err (unauthorized "Invalid email or password")
  check_login password (some user) =
      if not (verify_password password user.hashed_password)
      then err (unauthorized "Invalid email or password")
      else if not user.is_active
      then err (unauthorized "Inactive user")
      else ok user

  unfoldable pub authenticate_user :
      (email password : String) (tenant_id : ℕ) → a.State → Result User
  authenticate_user email password tenant_id accounts =
      check_login password (get_user_by_email email tenant_id accounts)

  unfoldable pub login_user :
      (k : Keys) (j : Jwt) (settings : AuthSettings) (email password : String) (tenant_id : ℕ)
      (access_jti refresh_jti : Text) (now : ℕ)
      → a.State
      → Result (Text × Text)
  login_user k j settings email password tenant_id access_jti refresh_jti now accounts =
      elim (authenticate_user email password tenant_id accounts) [
        | err e ↦ err e
        | ok user ↦ ok (issue_tokens k a j settings user access_jti refresh_jti now)
      ]

  check_login_ok :
      (password : String) (found : Option User) (user : User)
      → check_login password found ≡ ok user
      → (found ≡ some user)
        × (verify_password password user.hashed_password ≡ true)
        × (user.is_active ≡ true)
  unfolding check_login
  check_login_ok password none user h = cc
  check_login_ok password (some u) user h =
      elim (Bool-cases (verify_password password u.hashed_password)) [
        | inr bad ↦ cc (rw (bad, check_login) at h)
        | inl valid ↦ elim (Bool-cases u.is_active) [
          | inr off ↦ cc (rw (off, check_login) at (rw (valid, check_login) at h))
          | inl active ↦
              let same : u ≡ user = ground (arith, valid, active, h) in
              (ap some same, rw (← same) valid, rw (← same) active)
        ]
      ]

  -- A user is authenticated exactly if it is the first row with the email and the tenant, it has them,
  -- the password is verified against its hash, and it is active.
  pub authenticate_user_iff :
      (rows : IsAccounts a) (email password : String) (tenant_id : ℕ) (accounts : a.State)
      (user : User)
      → (authenticate_user email password tenant_id accounts ≡ ok user) ↔ (
          (a.first_user accounts (λ u. str_eq u.email email && u.tenant_id == tenant_id)
            ≡ some user)
          × (user.email ≡ email)
          × (user.tenant_id ≡ tenant_id)
          × (verify_password password user.hashed_password ≡ true)
          × (user.is_active ≡ true))
  unfolding authenticate_user check_login get_user_by_email
  authenticate_user_iff rows email password tenant_id accounts user = (
    λ h.
        let (found, valid, active) =
          check_login_ok password (get_user_by_email email tenant_id accounts) user h in
        let match = rows.first_user_some accounts _ user found in
        (
          found,
          (eq_iff user.email email).0 (ground (arith, match)),
          (==_iff user.tenant_id tenant_id).0 (ground (arith, match)),
          valid,
          active,
        ),
    λ h.
        let (found, _, _, valid, active) = h in
        rw (found, check_login) (rw (valid, check_login) (rw (active, check_login) refl)),
  )
