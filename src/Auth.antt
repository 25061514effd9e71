-- ===== src/Auth.antt =====
-- The refresh tokens of app/services/auth_service.py, app/core/security.py and app/core/redis.py.
-- `Jwt` is what the program takes from `jose` and Python's `int`; times are in seconds.
pub mod Rotation
pub mod Sessions
pub mod Login
pub mod Membership
use starter_backend_template.Prelude.{
  ℕ, ◌+◌, ◌-◌, ◌*◌, ◌≡◌, Bool, true, false, not, ◌&&◌, if◌then◌else◌, leb, ◌==◌, Option, none, some,
  Text, codes, text_eq, is_nonempty, ◌++◌,
}
use starter_backend_template.Errors.{Error, unauthorized, forbidden, Result, ok, err, Exec}
use starter_backend_template.Permissions.{User}
use starter_backend_template.Keys.{Keys, is_there}
use starter_backend_template.Accounts.{Accounts}
use starter_backend_template.Webhook.Signature.{ℤ, pos, negsuc}

-- The payload of a token; a claim that is missing is none.
pub record Claims : Type 0 where
  pub sub : Option Text
  pub tenant_id : Option ℕ
  pub token_version : Option ℕ
  pub exp : Option ℕ
  pub type : Option Text
  pub jti : Option Text

pub record Jwt : Type 0 where
  -- `jwt.encode` with the key of the settings; `jwt.decode` at a time, none for a `JWTError`
  pub encode : Claims → Text
  pub decode : ℕ → Text → Option Claims
  pub int : Text → Option ℤ
  pub str : ℕ → Text

-- A token has one payload, whenever it is read.
pub record IsJwt (j : Jwt) : Type 0 where
  pub decode_same :
      (now later : ℕ) (token : Text) (a b : Claims)
      → j.decode now token ≡ some a
      → j.decode later token ≡ some b
      → a ≡ b

pub record AuthSettings : Type 0 where
  pub access_token_expire_minutes : ℕ
  pub refresh_token_expire_days : ℕ

-- A payload that `_decode_refresh_token` lets pass.
pub record RefreshClaims : Type 0 where
  pub sub : Option Text
  pub tenant_id : ℕ
  pub token_version : ℕ
  pub exp : ℕ
  pub jti : Text

pub record AuthState (K A : Type 0) : Type 0 where
  pub keys : K
  pub accounts : A

-- The tests of the claims in `_decode_refresh_token`.
unfoldable pub required_claims :
    Option Text → Option Text → Option ℕ → Option ℕ → Option ℕ → Result RefreshClaims
required_claims sub (some jti) (some exp) (some tenant_id) (some token_version) =
    if not (is_nonempty jti)
    then err (unauthorized "Invalid refresh token")
    else if exp == 0
    then err (unauthorized "Invalid refresh token")
    else ok (record {
      sub = sub;
      tenant_id = tenant_id;
      token_version = token_version;
      exp = exp;
      jti = jti;
    })
required_claims sub _ _ _ _ = err (unauthorized "Invalid refresh token")

-- `payload.get("type") == "refresh"`
abbrev is_refresh : Option Text → Bool
is_refresh none = false
is_refresh (some type) = text_eq type (codes "refresh")

unfoldable pub check_claims : Claims → Result RefreshClaims
unfolding required_claims
check_claims payload =
    if not (is_refresh payload.type)
    then err (unauthorized "Invalid token type")
    else required_claims payload.sub payload.jti payload.exp payload.tenant_id payload.token_version

-- The filter on the identifier, which Python's `int` may give as a negative number.
abbrev pub is_id : ℤ → ℕ → Bool
is_id (pos n) id = n == id
is_id (negsuc n) id = false

unfoldable pub revocation_key : Text → Text
revocation_key jti = codes "revoked_refresh_token:" ++ jti

module _ (k : Keys) (a : Accounts) (j : Jwt) (settings : AuthSettings) where
  unfoldable pub revoke_refresh_token :
      (jti : Text) (expires_at : ℕ) (require_new : Bool) → ℕ → k.State → Bool × k.State
  revoke_refresh_token jti expires_at require_new now keys =
      if leb expires_at now
      then (not require_new, keys)
      else if require_new
      then k.set_nx_ex keys now (revocation_key jti) (codes "1") (expires_at - now)
      else (true, k.set_ex keys now (revocation_key jti) (codes "1") (expires_at - now))

  unfoldable pub is_refresh_token_revoked : Text → ℕ → k.State → Bool
  is_refresh_token_revoked jti now keys = is_there (k.value keys now (revocation_key jti))

  unfoldable pub create_access_token :
      (subject : Text) (tenant_id token_version : ℕ) (jti : Text) → ℕ → Text
  create_access_token subject tenant_id token_version jti now = j.encode (record {
    sub = some subject;
    tenant_id = some tenant_id;
    token_version = some token_version;
    exp = some (now + settings.access_token_expire_minutes * 60);
    type = some (codes "access");
    jti = some jti;
  })

  unfoldable pub create_refresh_token :
      (subject : Text) (tenant_id token_version : ℕ) (jti : Text) → ℕ → Text
  create_refresh_token subject tenant_id token_version jti now = j.encode (record {
    sub = some subject;
    tenant_id = some tenant_id;
    token_version = some token_version;
    exp = some (now + settings.refresh_token_expire_days * 86400);
    type = some (codes "refresh");
    jti = some jti;
  })

  unfoldable pub decode_refresh_token : Text → ℕ → k.State → Result RefreshClaims
  unfolding is_refresh_token_revoked
  decode_refresh_token refresh_token now keys = elim (j.decode now refresh_token) [
    | none ↦ err (unauthorized "Invalid refresh token")
    | some payload ↦ elim (check_claims payload) [
      | err e ↦ err e
      | ok claims ↦
          if is_there (k.value keys now (revocation_key claims.jti))
          then err (unauthorized "Refresh token has been revoked")
          else ok claims
    ]
  ]

  unfoldable pub assert_active_tenant_membership : User → a.State → Result (Unit {0})
  assert_active_tenant_membership user accounts =
      elim (a.tenant_is_active accounts user.tenant_id) [
        | none ↦ err (forbidden "Tenant access denied")
        | some is_active ↦ if is_active then ok tt else err (forbidden "Tenant access denied")
      ]

  -- What `_get_active_user_from_refresh_payload` does with the row that it found.
  unfoldable pub check_user : RefreshClaims → Option User → a.State → Result User
  check_user claims none accounts = err (unauthorized "User not found or inactive")
  check_user claims (some user) accounts =
      if not user.is_active
      then err (unauthorized "User not found or inactive")
      else elim (assert_active_tenant_membership user accounts) [
        | err e ↦ err e
        | ok _ ↦
            if claims.token_version == user.token_version
            then ok user
            else err (unauthorized "Refresh token has been revoked")
      ]

  unfoldable pub get_active_user_from_refresh_payload : RefreshClaims → a.State → Result User
  get_active_user_from_refresh_payload claims accounts = elim claims.sub [
    | none ↦ err (unauthorized "Invalid refresh token")
    | some user_id ↦ elim (j.int user_id) [
      | none ↦ err (unauthorized "Invalid refresh token")
      | some parsed_user_id ↦
          check_user claims
            (a.first_user accounts
              (λ user. is_id parsed_user_id user.id && user.tenant_id == claims.tenant_id))
            accounts
    ]
  ]

  -- The two new tokens; `access_jti` and `refresh_jti` are the next two `uuid7()`.
  unfoldable pub issue_tokens : User → (access_jti refresh_jti : Text) → ℕ → Text × Text
  issue_tokens user access_jti refresh_jti now = (
    create_access_token (j.str user.id) user.tenant_id user.token_version access_jti now,
    create_refresh_token (j.str user.id) user.tenant_id user.token_version refresh_jti now,
  )

  unfoldable pub rotate_refresh_token :
      Text → (access_jti refresh_jti : Text) → ℕ → Exec (AuthState k.State a.State) (Text × Text)
  rotate_refresh_token refresh_token access_jti refresh_jti now s =
      elim (decode_refresh_token refresh_token now s.keys) [
        | err e ↦ (err e, s)
        | ok claims ↦ elim (get_active_user_from_refresh_payload claims s.accounts) [
          | err e ↦ (err e, s)
          | ok user ↦
              let (is_new, keys) = revoke_refresh_token claims.jti claims.exp true now s.keys in
              if is_new
              then (ok (issue_tokens user access_jti refresh_jti now), record s { keys = keys })
              else (err (unauthorized "Refresh token has been revoked"), record s { keys = keys })
        ]
      ]

  unfoldable pub logout_user : Text → ℕ → Exec (AuthState k.State a.State) (Unit {0})
  logout_user refresh_token now s = elim (decode_refresh_token refresh_token now s.keys) [
    | err e ↦ (err e, s)
    | ok claims ↦
        (ok tt, record s { keys = (revoke_refresh_token claims.jti claims.exp false now s.keys).1 })
  ]
