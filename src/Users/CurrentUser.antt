-- ===== src/Users/CurrentUser.antt =====
-- The user of a request, app/api/dependencies/auth.py.
use starter_backend_template.Prelude.{
  ℕ, ◌≡◌, refl, sym, ap, ◌∙◌, inl, inr, String, Bool, true, false, not, ◌&&◌, ◌==◌, ==_iff,
  if◌then◌else◌, Option, none, some, List, Text, codes, text_eq, arith, Option-cases, Bool-cases,
}
use starter_backend_template.Errors.{http_exception, Error, Result, ok, err}
use starter_backend_template.Errors.Chains.{◌>>=◌, ◌>>◌, chain_iff, sequence_iff}
use starter_backend_template.Permissions.{User, Permission, user_has_any_permission, role_includes}
use starter_backend_template.Keys.{Keys}
use starter_backend_template.Accounts.{Accounts, IsAccounts}
use starter_backend_template.Webhook.Signature.{ℤ}
use starter_backend_template.Auth.{
  Claims, Jwt, AuthSettings, is_id, assert_active_tenant_membership,
}
use starter_backend_template.Auth.Membership.{assert_request_tenant_matches_user}
use starter_backend_template.Tenants.{Tenant, TenantTable, get_active_tenant_by_slug}

-- `credentials_exception`
unfoldable pub credentials_exception : Error
credentials_exception = http_exception 401 "Could not validate credentials"

-- The claims that `get_current_user` takes from a payload.
pub record AccessClaims : Type 0 where
  pub user_id : ℤ
  pub tenant_id : ℕ
  pub token_version : ℕ

-- `payload.get("type") == "access"`
abbrev pub is_access : Option Text → Bool
is_access none = false
is_access (some type) = text_eq type (codes "access")

-- The claims, if they are there and `int` reads the subject.
abbrev pub claims_of : Option ℤ → Option ℕ → Option ℕ → Option AccessClaims
claims_of (some n) (some tenant_id) (some token_version) =
    some (record { user_id = n; tenant_id = tenant_id; token_version = token_version })
claims_of _ _ _ = none

-- `int(user_id)` where there is one
abbrev pub int_of : (Text → Option ℤ) → Option Text → Option ℤ
int_of int none = none
int_of int (some sub) = int sub

claims_of-some :
    (n : Option ℤ) (t v : Option ℕ) (claims : AccessClaims)
    → claims_of n t v ≡ some claims
    → (v ≡ some claims.token_version) × (t ≡ some claims.tenant_id) × (n ≡ some claims.user_id)
claims_of-some none t v claims h = cc
claims_of-some (some n) none v claims h = cc
claims_of-some (some n) (some t) none claims h = cc
claims_of-some (some n) (some t) (some v) claims h =
    let same : record { user_id = n; tenant_id = t; token_version = v } ≡ claims = cc in
    (
      ap (λ (c : AccessClaims). some c.token_version) same,
      ap (λ (c : AccessClaims). some c.tenant_id) same,
      ap (λ (c : AccessClaims). some c.user_id) same,
    )

module _ (k : Keys) (a : Accounts) (j : Jwt) (settings : AuthSettings) (t : TenantTable) where
  unfoldable pub access_claims : Option Claims → Option AccessClaims
  access_claims none = none
  access_claims (some payload) =
      if is_access payload.type
      then claims_of (int_of j.int payload.sub) payload.tenant_id payload.token_version
      else none

  -- `… or raise credentials_exception`
  abbrev pub or_401 : {A : Type 0} → Option A → Result A
  or_401 none = err credentials_exception
  or_401 (some x) = ok x

  abbrev pub of_claims : AccessClaims → User → Bool
  of_claims claims user = is_id claims.user_id user.id && user.tenant_id == claims.tenant_id

  -- `if user is None or not user.is_active`, `if user.token_version != parsed_token_version`
  unfoldable pub check_current : AccessClaims → User → Result (Unit {0})
  check_current claims user =
      if not user.is_active
      then err credentials_exception
      else if not (user.token_version == claims.token_version)
      then err credentials_exception
      else ok tt

  -- The tenant that the request names, if it names one.
  unfoldable pub check_requested_tenant : User → Option String → t.State → Result (Unit {0})
  check_requested_tenant user none tenants = ok tt
  check_requested_tenant user (some requested_slug) tenants = do
    request_tenant ← get_active_tenant_by_slug t tenants requested_slug
    assert_request_tenant_matches_user user request_tenant.id

  unfoldable pub get_current_user :
      (credentials : Text) (x_tenant_slug : Option String) (now : ℕ)
      → a.State
      → t.State
      → Result User
  get_current_user credentials x_tenant_slug now accounts tenants = do
    claims ← or_401 (access_claims (j.decode now credentials))
    user ← or_401 (a.first_user accounts (of_claims claims))
    check_current claims user
    assert_active_tenant_membership k a j settings user accounts
    check_requested_tenant user x_tenant_slug tenants
    ok user

  or_401_ok : {A : Type 0} (o : Option A) (x : A) → or_401 o ≡ ok x → o ≡ some x
  or_401_ok none x h = cc
  or_401_ok (some y) x h = cc

  -- What a token that is accepted has: the type of an access token, and its claims.
  pub access_claims-some :
      (payload : Option Claims) (claims : AccessClaims)
      → access_claims payload ≡ some claims
      → (p : Claims) × (payload ≡ some p)
        × (is_access p.type ≡ true)
        × (p.token_version ≡ some claims.token_version)
        × (p.tenant_id ≡ some claims.tenant_id)
        × (int_of j.int p.sub ≡ some claims.user_id)
  unfolding access_claims
  access_claims-some none claims h = cc
  access_claims-some (some p) claims h = elim (Bool-cases (is_access p.type)) [
    | inr other ↦ cc (rw (other, access_claims) at h)
    | inl access ↦
        let (version, tenant, subject) =
          claims_of-some (int_of j.int p.sub) p.tenant_id p.token_version claims
            (rw (access, access_claims) at h) in
        (p, refl, access, version, tenant, subject)
  ]

  check_current_ok :
      (claims : AccessClaims) (user : User)
      → check_current claims user ≡ ok tt
      → (user.is_active ≡ true) × (user.token_version ≡ claims.token_version)
  unfolding check_current
  check_current_ok claims user h = (ground arith, ground arith)

  -- The tenant that a request names, if it does, is an active one of the user.
  abbrev pub NamesTenantOf : User → Option String → t.State → Type 0
  NamesTenantOf user none tenants = Unit
  NamesTenantOf user (some slug) tenants =
      (tenant : Tenant) × (get_active_tenant_by_slug t tenants slug ≡ ok tenant)
      × (tenant.id ≡ user.tenant_id)

  named_tenant :
      (user : User) (slug : Option String) (tenants : t.State)
      → check_requested_tenant user slug tenants ≡ ok tt
      → NamesTenantOf user slug tenants
  unfolding check_requested_tenant assert_request_tenant_matches_user
  named_tenant user none tenants h = tt
  named_tenant user (some slug) tenants h =
      let (tenant, found, same) = (chain_iff (get_active_tenant_by_slug t tenants slug) _ tt).0 h in
      (tenant, found, ground arith)

  member_ok :
      (user : User) (accounts : a.State)
      → assert_active_tenant_membership k a j settings user accounts ≡ ok tt
      → a.tenant_is_active accounts user.tenant_id ≡ some true
  unfolding assert_active_tenant_membership
  member_ok user accounts h = elim (Option-cases (a.tenant_is_active accounts user.tenant_id)) [
    | inl gone ↦ cc (rw (gone, assert_active_tenant_membership) at h)
    | inr (b, found) ↦ elim (Bool-cases b) [
      | inl open_tenant ↦ found ∙ ap some open_tenant
      | inr shut ↦ cc (rw (found, shut, assert_active_tenant_membership) at h)
    ]
  ]

  -- A request has a user only with an access token that decodes, of an active user whose
  -- identifier, token version and tenant it names, in an active tenant, and only if a tenant that the
  -- request names is an active one and that of the user.
  pub get_current_user-IsCurrent :
      (rows : IsAccounts a) (credentials : Text) (slug : Option String) (now : ℕ)
      (accounts : a.State) (tenants : t.State) (user : User)
      → get_current_user credentials slug now accounts tenants ≡ ok user
      → (payload : Claims) × (j.decode now credentials ≡ some payload)
        × (is_access payload.type ≡ true)
        × (payload.token_version ≡ some user.token_version)
        × (payload.tenant_id ≡ some user.tenant_id)
        × ((n : ℤ) × (int_of j.int payload.sub ≡ some n) × (is_id n user.id ≡ true))
        × (user.is_active ≡ true)
        × (a.tenant_is_active accounts user.tenant_id ≡ some true)
        × NamesTenantOf user slug tenants
  unfolding get_current_user
  get_current_user-IsCurrent rows credentials slug now accounts tenants user h =
      let (claims, read, h₁) =
        (chain_iff (or_401 (access_claims (j.decode now credentials))) _ user).0 h in
      let (found, row, h₂) =
        (chain_iff (or_401 (a.first_user accounts (of_claims claims))) _ user).0 h₁ in
      let (current, h₃) = (sequence_iff (check_current claims found) _ user).0 h₂ in
      let (member, h₄) =
        (sequence_iff (assert_active_tenant_membership k a j settings found accounts) _ user).0
          h₃ in
      let (named, same) = (sequence_iff (check_requested_tenant found slug tenants) _ user).0 h₄ in
      let is_user : found ≡ user = cc in
      let (payload, decoded, access, version, tenant, subject) =
        access_claims-some (j.decode now credentials) claims
          (or_401_ok (access_claims (j.decode now credentials)) claims read) in
      let (active, same_version) = check_current_ok claims found current in
      let match =
        rows.first_user_some accounts _ found
          (or_401_ok (a.first_user accounts (of_claims claims)) found row) in
      let same_tenant : found.tenant_id ≡ claims.tenant_id =
        (==_iff found.tenant_id claims.tenant_id).0 (ground (arith, match)) in
      rw (← is_user) (
        payload,
        decoded,
        access,
        version ∙ ap some (sym same_version),
        tenant ∙ ap some (sym same_tenant),
        (claims.user_id, subject, ground (arith, match)),
        active,
        member_ok found accounts member,
        named_tenant found slug tenants named,
      )

  -- The user of a request is a row that the session found.
  pub get_current_user_found :
      (credentials : Text) (slug : Option String) (now : ℕ) (accounts : a.State) (tenants : t.State)
      (user : User)
      → get_current_user credentials slug now accounts tenants ≡ ok user
      → (p : User → Bool) × (a.first_user accounts p ≡ some user)
  unfolding get_current_user
  get_current_user_found credentials slug now accounts tenants user h =
      let (claims, read, h₁) =
        (chain_iff (or_401 (access_claims (j.decode now credentials))) _ user).0 h in
      let (found, row, h₂) =
        (chain_iff (or_401 (a.first_user accounts (of_claims claims))) _ user).0 h₁ in
      let (_, h₃) = (sequence_iff (check_current claims found) _ user).0 h₂ in
      let (_, h₄) =
        (sequence_iff (assert_active_tenant_membership k a j settings found accounts) _ user).0
          h₃ in
      let (_, same) = (sequence_iff (check_requested_tenant found slug tenants) _ user).0 h₄ in
      let is_user : found ≡ user = cc in
      (
        of_claims claims,
        or_401_ok (a.first_user accounts (of_claims claims)) found row ∙ ap some is_user,
      )

-- The test of `require_permission(*permissions)` and `require_role(required_role)`.
unfoldable pub require_permission : List Permission → User → Result User
require_permission permissions current_user =
    if not (user_has_any_permission current_user permissions)
    then err (http_exception 403 "Insufficient permissions")
    else ok current_user

unfoldable pub require_role : String → User → Result User
require_role required_role current_user =
    if not (role_includes current_user.role required_role)
    then err (http_exception 403 "Insufficient permissions")
    else ok current_user

pub require_permission_ok :
    (permissions : List Permission) (current_user user : User)
    → require_permission permissions current_user ≡ ok user
    → (user_has_any_permission current_user permissions ≡ true) × (current_user ≡ user)
unfolding require_permission
require_permission_ok permissions current_user user h =
    elim (Bool-cases (user_has_any_permission current_user permissions)) [
      | inl may ↦
          let same : ok current_user ≡ ok user = rw (may, require_permission) at h in (may, cc)
      | inr denied ↦ cc (rw (denied, require_permission) at h)
    ]
