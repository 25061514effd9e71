-- ===== src/Examples/AuthTests.antt =====
-- The theorems on refresh tokens at one user and one token.
use starter_backend_template.Prelude.{
  str_eq, ◌&&◌, ◌==◌, ◌↔◌, ◌≡◌, ◌≢◌, Bool, true, false, refl, sym, ◌∙◌, arith, if◌then◌else◌, leb,
  none, some, List, [], ◌∷◌, codes, map,
}
use starter_backend_template.Errors.{ok}
use starter_backend_template.Permissions.{User}
use starter_backend_template.Accounts.{Accounts, IsAccounts, replaced_by}
use starter_backend_template.Webhook.Signature.{pos}
use starter_backend_template.Auth.{
  Claims, Jwt, IsJwt, AuthSettings, RefreshClaims, AuthState, check_claims, required_claims,
  revocation_key, revoke_refresh_token, decode_refresh_token, assert_active_tenant_membership,
  check_user, get_active_user_from_refresh_payload, issue_tokens, rotate_refresh_token, logout_user,
}
use starter_backend_template.Auth.Rotation.{IsEntitled, rotate_refresh_token_once}
use starter_backend_template.Auth.Login.{authenticate_user, authenticate_user_iff}
use starter_backend_template.Auth.Sessions.{
  IsRowOf, rotate_refresh_token-IsEntitled, logout_user_ends,
}
use starter_backend_template.Examples.Tables.{
  Table, keys, keys_lawful, find, find-some, find_stored,
}

abbrev pub accounts : Accounts
accounts = record {
  State = List User;
  users = λ s. s;
  first_user = λ s p. find p s;
  tenant_is_active = λ s n. some true;
  save_user = λ s u. map (replaced_by u) s;
}

pub accounts_lawful : IsAccounts accounts
accounts_lawful = record {
  first_user_some = λ s p u e. find-some p s u e;
  first_user_stored = λ s p u P e all. find_stored p s u P e all;
  users-save_user = λ s u. refl;
}

abbrev pub carol : User
carol = record {
  id = 1;
  tenant_id = 10;
  email = "carol@acme.test";
  hashed_password = "x";
  is_active = true;
  role = "user";
  token_version = 4;
}

abbrev pub refresh_claims : Claims
refresh_claims = record {
  sub = some (codes "1");
  tenant_id = some 10;
  token_version = some 4;
  exp = some 500;
  type = some (codes "refresh");
  jti = some (codes "r1");
}

abbrev pub jwt : Jwt
jwt = record {
  encode = λ c. codes "token";
  decode = λ now t. if leb now 500 then some refresh_claims else none;
  int = λ t. some (pos 1);
  str = λ n. codes "1";
}

pub jwt_lawful : IsJwt jwt
jwt_lawful = record {
  decode_same =
      λ now later t a b h h'. decoded (leb now 500) a h ∙ sym (decoded (leb later 500) b h');
}
  where
    decoded :
        (b : Bool) (a : Claims)
        → (if b then some refresh_claims else none) ≡ some a
        → a ≡ refresh_claims
    decoded true a h = let e : some a ≡ some refresh_claims = sym h in cc
    decoded false a h = cc

abbrev pub settings : AuthSettings
settings = record { access_token_expire_minutes = 30; refresh_token_expire_days = 7 }

abbrev logged_in : AuthState Table (List User)
logged_in = record { keys = λ t j. none; accounts = carol ∷ [] }

rotate_refresh_token_once_example :
    (rotate_refresh_token keys accounts jwt settings
      (codes "token")
      (codes "a3")
      (codes "r3")
      120
      (rotate_refresh_token keys accounts jwt settings
        (codes "token")
        (codes "a2")
        (codes "r2")
        100
        logged_in).1).0
    ≢ ok (codes "x", codes "y")
unfolding rotate_refresh_token decode_refresh_token check_claims required_claims
    revoke_refresh_token revocation_key get_active_user_from_refresh_payload check_user
    assert_active_tenant_membership
rotate_refresh_token_once_example =
    rotate_refresh_token_once keys keys_lawful accounts jwt jwt_lawful settings (codes "token")
      (codes "a2") (codes "r2") (codes "a3") (codes "r3") 100 120 logged_in
      (issue_tokens keys accounts jwt settings carol (codes "a2") (codes "r2") 100)
      (codes "x", codes "y") refl

rotate_refresh_token-IsEntitled_example :
    (claims : RefreshClaims) × (user : User) × (decode_refresh_token keys accounts jwt settings
        (codes "token")
        100
        logged_in.keys
      ≡ ok claims)
    × IsRowOf keys keys_lawful accounts accounts_lawful jwt jwt_lawful settings claims user
        (carol ∷ [])
    × IsEntitled keys keys_lawful accounts jwt jwt_lawful settings claims user (carol ∷ [])
    × (issue_tokens keys accounts jwt settings carol (codes "a2") (codes "r2") 100
        ≡ issue_tokens keys accounts jwt settings user (codes "a2") (codes "r2") 100)
unfolding rotate_refresh_token decode_refresh_token check_claims required_claims
    revoke_refresh_token revocation_key get_active_user_from_refresh_payload check_user
    assert_active_tenant_membership
rotate_refresh_token-IsEntitled_example =
    rotate_refresh_token-IsEntitled keys keys_lawful accounts accounts_lawful jwt jwt_lawful
      settings (codes "token") (codes "a2") (codes "r2") 100 logged_in
      (issue_tokens keys accounts jwt settings carol (codes "a2") (codes "r2") 100) refl

logout_user_ends_example :
    (rotate_refresh_token keys accounts jwt settings
      (codes "token")
      (codes "a3")
      (codes "r3")
      120
      (logout_user keys accounts jwt settings (codes "token") 100 logged_in).1).0
    ≢ ok (codes "x", codes "y")
unfolding logout_user decode_refresh_token check_claims required_claims revocation_key
logout_user_ends_example =
    logout_user_ends keys keys_lawful accounts accounts_lawful jwt jwt_lawful settings
      (codes "token") (codes "a3") (codes "r3") 100 120 logged_in (codes "x", codes "y")
      (omega arith) refl

authenticate_user_iff_example :
    (authenticate_user accounts str_eq "carol@acme.test" "x" 10 (carol ∷ []) ≡ ok carol) ↔ (
      (accounts.first_user (carol ∷ []) (λ u. str_eq u.email "carol@acme.test" && u.tenant_id == 10)
        ≡ some carol)
      × (carol.email ≡ "carol@acme.test")
      × (carol.tenant_id ≡ 10)
      × (str_eq "x" carol.hashed_password ≡ true)
      × (carol.is_active ≡ true))
authenticate_user_iff_example =
    authenticate_user_iff accounts str_eq accounts_lawful "carol@acme.test" "x" 10 (carol ∷ [])
      carol
