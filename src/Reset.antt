-- ===== src/Reset.antt =====
-- app/services/password_reset_service.py with app/models/password_reset_token.py: the confirmation of
-- a password reset and the cleanup of its tokens. The rows of the tokens are behind a database
-- session, a parameter. The audit log and the cache of the user lists are modelled as the sequence of
-- the calls to them, the last one first. Times are in seconds.
pub mod Confirmation
pub mod Ended
pub mod Sending
use starter_backend_template.Prelude.{
  ℕ, ◌+◌, ◌≡◌, String, Bool, true, false, not, ◌&&◌, if◌then◌else◌, ltb, ◌==◌, Option, none, some,
  List, [], ◌∷◌, map, select, Text, text_eq, All,
}
use starter_backend_template.Errors.{Error, bad_request, Result, ok, err, Exec}
use starter_backend_template.Permissions.{User}
use starter_backend_template.Accounts.{Accounts}

pub record PasswordResetToken : Type 0 where
  pub id : ℕ
  pub user_id : ℕ
  pub token_hash : Text
  pub expires_at : ℕ
  pub used_at : Option ℕ

abbrev pub is_used : PasswordResetToken → Bool
is_used t = elim t.used_at [ none ↦ false | some u ↦ true ]

-- `update({"used_at": now})` on the unused tokens of a user.
abbrev pub use_token : ℕ → ℕ → PasswordResetToken → PasswordResetToken
use_token user_id now t =
    if t.user_id == user_id && not (is_used t) then record t { used_at = some now } else t

abbrev pub has_hash : Text → PasswordResetToken → Bool
has_hash token_hash t = text_eq t.token_hash token_hash

pub record Tokens : Type 1 where
  pub State : Type 0
  pub tokens : State → List PasswordResetToken
  pub first_token : State → (PasswordResetToken → Bool) → Option PasswordResetToken
  -- the update of `use_token`, committed; and the deletion of what a filter takes, committed
  pub use_tokens : State → (user_id now : ℕ) → State
  pub delete_tokens : State → (PasswordResetToken → Bool) → ℕ × State

-- The hash has a unique index.
pub record IsTokens (t : Tokens) : Type 1 where
  pub first_token_some :
      (s : t.State) (p : PasswordResetToken → Bool) (x : PasswordResetToken)
      → t.first_token s p ≡ some x
      → p x ≡ true
  pub first_token_stored :
      (s : t.State) (p : PasswordResetToken → Bool) (x : PasswordResetToken)
      (P : PasswordResetToken → Type 0)
      → t.first_token s p ≡ some x
      → All P (t.tokens s)
      → P x
  pub unique_hash :
      (s : t.State) (token_hash : Text) (x : PasswordResetToken)
      → t.first_token s (has_hash token_hash) ≡ some x
      → All (λ y. has_hash token_hash y ≡ true → y ≡ x) (t.tokens s)
  pub tokens-use_tokens :
      (s : t.State) (user_id now : ℕ)
      → t.tokens (t.use_tokens s user_id now) ≡ map (use_token user_id now) (t.tokens s)
  pub tokens-delete_tokens :
      (s : t.State) (p : PasswordResetToken → Bool)
      → t.tokens (t.delete_tokens s p).1 ≡ select (λ x. not (p x)) (t.tokens s)

-- A call of a service that the confirmation makes.
pub data Call : Type 0 where
  invalidate_users_list_cache : (tenant_id : ℕ) → Call
  create_audit_log : (tenant_id : ℕ) (action : String) (target_user_id : ℕ) → Call

pub record ResetState (A T : Type 0) : Type 0 where
  pub accounts : A
  pub reset_tokens : T
  pub calls : List Call

-- `raise_invalid_reset_token`
unfoldable pub invalid_reset_token : Error
invalid_reset_token = bad_request "Invalid or expired password reset token"

module _ (a : Accounts) (t : Tokens) where
  unfoldable pub increment_user_token_version : User → a.State → a.State
  increment_user_token_version user accounts =
      a.save_user accounts (record user { token_version = user.token_version + 1 })

  -- What a confirmation that is accepted does; `new_hash` is the hash of the new password.
  unfoldable pub reset_user :
      User → (new_hash : String) → ℕ → ResetState a.State t.State → ResetState a.State t.State
  reset_user user new_hash now s = record {
    accounts = increment_user_token_version (record user { hashed_password = new_hash }) s.accounts;
    reset_tokens = t.use_tokens s.reset_tokens user.id now;
    calls =
        create_audit_log user.tenant_id "password_reset.confirmed" user.id
        ∷ invalidate_users_list_cache user.tenant_id
        ∷ s.calls;
  }

  -- The test of the user of a token that is unused and has not expired.
  unfoldable pub confirm_for_user :
      Option User → (new_hash : String) → ℕ → Exec (ResetState a.State t.State) String
  confirm_for_user none new_hash now s = (err invalid_reset_token, s)
  confirm_for_user (some user) new_hash now s =
      if not user.is_active
      then (err invalid_reset_token, s)
      else (ok "Password has been reset.", reset_user user new_hash now s)

  unfoldable pub confirm_password_reset :
      (token_hash : Text) (new_hash : String) → ℕ → Exec (ResetState a.State t.State) String
  confirm_password_reset token_hash new_hash now s =
      elim (t.first_token s.reset_tokens (has_hash token_hash)) [
        | none ↦ (err invalid_reset_token, s)
        | some reset_token ↦
            let user = a.first_user s.accounts (λ u. u.id == reset_token.user_id) in
            let confirmed = confirm_for_user user new_hash now s in
            if is_used reset_token
            then (err invalid_reset_token, s)
            else if ltb reset_token.expires_at now
            then (err invalid_reset_token, s)
            else confirmed
      ]

  unfoldable pub cleanup_expired_password_reset_tokens :
      ℕ → ResetState a.State t.State → ℕ × ResetState a.State t.State
  cleanup_expired_password_reset_tokens now s =
      let (deleted_count, rest) = t.delete_tokens s.reset_tokens (λ x. ltb x.expires_at now) in
      (deleted_count, record s { reset_tokens = rest })
