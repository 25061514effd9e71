-- ===== src/Reset/Ended.antt =====
-- A password reset ends the sessions of its user.
use starter_backend_template.Prelude.{
  ℕ, ◌+◌, ◌≡◌, String, true, ◌==◌, ==_iff, some, List, [], ◌∷◌, map, Text, All, refl, sym, ap, ◌∙◌,
  Bool-cases, inl, inr, false≢true,
}
use starter_backend_template.Errors.{ok}
use starter_backend_template.Permissions.{User}
use starter_backend_template.Keys.{Keys, IsKeys}
use starter_backend_template.Accounts.{Accounts, IsAccounts, replaced_by}
use starter_backend_template.Auth.{
  Jwt, IsJwt, AuthSettings, RefreshClaims, get_active_user_from_refresh_payload,
}
use starter_backend_template.Auth.Sessions.{get_active_user_found}
use starter_backend_template.Reset.{
  PasswordResetToken, has_hash, Tokens, IsTokens, ResetState, increment_user_token_version,
  reset_user, confirm_password_reset,
}
use starter_backend_template.Reset.Confirmation.{IsConfirmed, confirm_password_reset-IsConfirmed}

module _ (k : Keys) (lawful : IsKeys k) (a : Accounts) (rows : IsAccounts a) (j : Jwt)
    (jwt : IsJwt j) (settings : AuthSettings) (t : Tokens) (table : IsTokens t) where
  -- A row after an update has the new token version, if it has the identifier of the new row.
  IsUpdated : User → User → Type 0
  IsUpdated new w = (w.id == new.id) ≡ true → w.token_version ≡ new.token_version

  replaced_by-IsUpdated : (new old : User) → IsUpdated new (replaced_by new old)
  unfolding IsUpdated
  replaced_by-IsUpdated new old = elim (Bool-cases (old.id == new.id)) [
    | inl e ↦ rw e (λ _. refl)
    | inr e ↦ rw e (λ g. absurd (false≢true (sym e ∙ g)))
  ]

  users-IsUpdated : (new : User) (us : List User) → All (IsUpdated new) (map (replaced_by new) us)
  users-IsUpdated new [] = tt
  users-IsUpdated new (u ∷ us) = (replaced_by-IsUpdated new u, users-IsUpdated new us)

  -- After a confirmation that returned, a refresh token that is accepted for its user names the token
  -- version after the one that the user had: every token issued before is refused.
  pub confirm_password_reset_ends_sessions :
      (token_hash : Text) (new_hash : String) (now : ℕ) (s : ResetState a.State t.State)
      (x : String) (token : PasswordResetToken) (user : User) (claims : RefreshClaims) (v : User)
      → (confirm_password_reset a t token_hash new_hash now s).0 ≡ ok x
      → t.first_token s.reset_tokens (has_hash token_hash) ≡ some token
      → a.first_user s.accounts (λ u. u.id == token.user_id) ≡ some user
      → get_active_user_from_refresh_payload k a j settings claims
          (confirm_password_reset a t token_hash new_hash now s).1.accounts
        ≡ ok v
      → v.id ≡ user.id
      → claims.token_version ≡ user.token_version + 1
  unfolding IsConfirmed IsUpdated reset_user increment_user_token_version
  confirm_password_reset_ends_sessions token_hash new_hash now s x token user claims v h p q
        accepted own =
      let (token', user', p', q', _, _, _, after) =
        confirm_password_reset-IsConfirmed a rows t table token_hash new_hash now s x h in
      let same_token : some token' ≡ some token = sym p' ∙ p in
      let one_token : token' ≡ token = cc in
      let same_user : some user' ≡ some user = sym q' ∙ rw one_token q in
      let one_user : user' ≡ user = cc in
      let new : User = record user' {
        hashed_password = new_hash;
        token_version = user'.token_version + 1;
      } in
      let ((_, n, _, _, found), _, _, version) =
        get_active_user_found k lawful a rows j jwt settings claims v _ accepted in
      let stored =
        ap (λ (z : ResetState a.State t.State). a.users z.accounts) after
        ∙ rows.users-save_user s.accounts new in
      let updated =
        rows.first_user_stored _ _ v (IsUpdated new) found
          (rw stored (users-IsUpdated new (a.users s.accounts))) in
      version
      ∙ updated ((==_iff v.id user'.id).1 (own ∙ ap (λ (u : User). u.id) (sym one_user)))
      ∙ ap (λ (u : User). u.token_version + 1) one_user
