-- ===== src/Examples/ResetTests.antt =====
-- The theorems on the confirmation of a password reset at one token.
use starter_backend_template.Prelude.{
  ℕ, ◌+◌, ◌≡◌, ◌≢◌, Bool, true, not, refl, ap, if◌then◌else◌, Option, none, some, List, [], ◌∷◌,
  Text, codes, map, select, All, Bool-cases, inl, inr,
}
use starter_backend_template.Errors.{ok}
use starter_backend_template.Permissions.{User}
use starter_backend_template.Auth.{
  RefreshClaims, get_active_user_from_refresh_payload, check_user, assert_active_tenant_membership,
}
use starter_backend_template.Reset.{
  PasswordResetToken, use_token, has_hash, Tokens, IsTokens, ResetState, reset_user,
  confirm_for_user, confirm_password_reset, increment_user_token_version,
}
use starter_backend_template.Reset.Confirmation.{confirm_password_reset_once}
use starter_backend_template.Reset.Ended.{confirm_password_reset_ends_sessions}
use starter_backend_template.Examples.Tables.{keys, keys_lawful}
use starter_backend_template.Examples.AuthTests.{
  accounts, accounts_lawful, carol, jwt, jwt_lawful, settings,
}

-- A table that has at most one row.
abbrev rows : Option PasswordResetToken → List PasswordResetToken
rows none = []
rows (some x) = x ∷ []

abbrev first : Option PasswordResetToken → (PasswordResetToken → Bool) → Option PasswordResetToken
first none p = none
first (some x) p = if p x then some x else none

abbrev update :
    (PasswordResetToken → PasswordResetToken)
    → Option PasswordResetToken
    → Option PasswordResetToken
update f none = none
update f (some x) = some (f x)

abbrev without :
    Option PasswordResetToken → (PasswordResetToken → Bool) → ℕ × Option PasswordResetToken
without none p = (0, none)
without (some x) p = if p x then (1, none) else (0, some x)

abbrev pub tokens : Tokens
tokens = record {
  State = Option PasswordResetToken;
  tokens = rows;
  first_token = first;
  use_tokens = λ s user_id now. update (use_token user_id now) s;
  delete_tokens = without;
}

first_is :
    (x y : PasswordResetToken) (p : PasswordResetToken → Bool)
    → first (some x) p ≡ some y
    → (x ≡ y) × (p x ≡ true)
first_is x y p e = elim (Bool-cases (p x)) [
  | inl h ↦ let same : some x ≡ some y = rw h at e in (cc, h)
  | inr h ↦ let bad : none ≡ some y = rw h at e in cc
]

one_row :
    (s : Option PasswordResetToken) (p : PasswordResetToken → Bool) (x : PasswordResetToken)
    → first s p ≡ some x
    → (s ≡ some x) × (p x ≡ true)
one_row none p x e = cc
one_row (some y) p x e = let (same, h) = first_is y x p e in (ap some same, rw (← same) h)

stored_row :
    (s : Option PasswordResetToken) (p : PasswordResetToken → Bool) (x : PasswordResetToken)
    (P : PasswordResetToken → Type 0)
    → first s p ≡ some x
    → All P (rows s)
    → P x
stored_row none p x P e all = cc
stored_row (some y) p x P e all = let (same, h) = first_is y x p e in rw (← same) all.0

unique_row :
    (s : Option PasswordResetToken) (h : Text) (x : PasswordResetToken)
    → first s (has_hash h) ≡ some x
    → All (λ y. has_hash h y ≡ true → y ≡ x) (rows s)
unique_row none h x e = tt
unique_row (some y) h x e = ((λ g. (first_is y x (has_hash h) e).0), tt)

deleted_rows :
    (s : Option PasswordResetToken) (p : PasswordResetToken → Bool)
    → rows (without s p).1 ≡ select (λ x. not (p x)) (rows s)
deleted_rows none p = refl
deleted_rows (some x) p = elim (Bool-cases (p x)) [ inl h ↦ rw h refl | inr h ↦ rw h refl ]

updated_rows :
    (s : Option PasswordResetToken) (f : PasswordResetToken → PasswordResetToken)
    → rows (update f s) ≡ map f (rows s)
updated_rows none f = refl
updated_rows (some x) f = refl

tokens_lawful : IsTokens tokens
tokens_lawful = record {
  first_token_some = λ s p x e. (one_row s p x e).1;
  first_token_stored = λ s p x P e all. stored_row s p x P e all;
  unique_hash = λ s h x e. unique_row s h x e;
  tokens-use_tokens = λ s user_id now. updated_rows s (use_token user_id now);
  tokens-delete_tokens = λ s p. deleted_rows s p;
}

abbrev reset_token : PasswordResetToken
reset_token = record {
  id = 9;
  user_id = 1;
  token_hash = codes "h";
  expires_at = 600;
  used_at = none;
}

abbrev requested : ResetState (List User) (Option PasswordResetToken)
requested = record { accounts = carol ∷ []; reset_tokens = some reset_token; calls = [] }

confirm_password_reset_once_example :
    (confirm_password_reset accounts tokens
      (codes "h")
      "y"
      120
      (confirm_password_reset accounts tokens (codes "h") "z" 100 requested).1).0
    ≢ ok "Password has been reset."
unfolding confirm_password_reset confirm_for_user
confirm_password_reset_once_example =
    confirm_password_reset_once accounts accounts_lawful tokens tokens_lawful (codes "h") "z" "y"
      100 120 requested "Password has been reset." "Password has been reset." refl

abbrev new_carol : User
new_carol = record carol { hashed_password = "z"; token_version = 5 }

abbrev new_claims : RefreshClaims
new_claims = record {
  sub = some (codes "1");
  tenant_id = 10;
  token_version = 5;
  exp = 900;
  jti = codes "r9";
}

confirm_password_reset_ends_sessions_example : 5 ≡ carol.token_version + 1
unfolding confirm_password_reset confirm_for_user reset_user increment_user_token_version
    get_active_user_from_refresh_payload check_user assert_active_tenant_membership
confirm_password_reset_ends_sessions_example =
    confirm_password_reset_ends_sessions keys keys_lawful accounts accounts_lawful jwt jwt_lawful
      settings tokens tokens_lawful (codes "h") "z" 100 requested "Password has been reset."
      reset_token carol new_claims new_carol refl refl refl refl refl
