-- ===== src/Reset/Confirmation.antt =====
-- A password reset token is spent by its confirmation.
use starter_backend_template.Prelude.{
  ℕ, ◌≡◌, ◌≢◌, ◌≤◌, String, true, false, not, ◌&&◌, ltb, ◌==◌, ==_iff, ==_refl, Option, none, some,
  List, [], ◌∷◌, map, Text, All, refl, sym, ap, ◌∙◌, arith, Bool-cases, Option-cases, inl, inr,
  false≢true,
}
use starter_backend_template.Errors.{ok}
use starter_backend_template.Permissions.{User}
use starter_backend_template.Accounts.{Accounts, IsAccounts}
use starter_backend_template.Reset.{
  PasswordResetToken, is_used, use_token, has_hash, Tokens, IsTokens, ResetState, reset_user,
  confirm_for_user, confirm_password_reset,
}

module _ (a : Accounts) (rows : IsAccounts a) (t : Tokens) (table : IsTokens t) where
  abbrev S : Type 0
  S = ResetState a.State t.State

  -- The steps of a confirmation that returned.
  unfoldable pub IsConfirmed : Text → String → ℕ → S → S → Type 0
  IsConfirmed token_hash new_hash now s s' =
      (token : PasswordResetToken) × (user : User) × (t.first_token s.reset_tokens
          (has_hash token_hash)
        ≡ some token)
      × (a.first_user s.accounts (λ u. u.id == token.user_id) ≡ some user)
      × (is_used token ≡ false)
      × (now ≤ token.expires_at)
      × (user.is_active ≡ true)
      × (s' ≡ reset_user a t user new_hash now s)

  confirm_for_user-IsActive :
      (found : Option User) (new_hash : String) (now : ℕ) (s : S) (x : String)
      → (confirm_for_user a t found new_hash now s).0 ≡ ok x
      → (user : User) × (found ≡ some user)
        × (user.is_active ≡ true)
        × ((confirm_for_user a t found new_hash now s).1 ≡ reset_user a t user new_hash now s)
  unfolding confirm_for_user
  confirm_for_user-IsActive none new_hash now s x h = cc
  confirm_for_user-IsActive (some user) new_hash now s x h = elim (Bool-cases user.is_active) [
    | inl active ↦ (user, refl, active, rw (active, confirm_for_user) refl)
    | inr off ↦ cc (rw (off, confirm_for_user) at h)
  ]

  pub confirm_password_reset-IsConfirmed :
      (token_hash : Text) (new_hash : String) (now : ℕ) (s : S) (x : String)
      → (confirm_password_reset a t token_hash new_hash now s).0 ≡ ok x
      → IsConfirmed token_hash new_hash now s
          (confirm_password_reset a t token_hash new_hash now s).1
  unfolding confirm_password_reset IsConfirmed
  confirm_password_reset-IsConfirmed token_hash new_hash now s x h =
      elim (Option-cases (t.first_token s.reset_tokens (has_hash token_hash))) [
        | inl gone ↦ cc (rw (gone, confirm_password_reset) at h)
        | inr (token, p) ↦
            let h' = rw (p, confirm_password_reset) at h in
            elim (Bool-cases (is_used token)) [
              | inl old ↦ cc (rw old at h')
              | inr new ↦ elim (Bool-cases (ltb token.expires_at now)) [
                | inl late ↦ cc (rw late at (rw new at h'))
                | inr live ↦
                    let (user, q, active, after) =
                      confirm_for_user-IsActive _ new_hash now s x (rw live at (rw new at h')) in
                    (
                      token,
                      user,
                      p,
                      q,
                      new,
                      ground (arith, live),
                      active,
                      rw (p, confirm_password_reset) (rw new (rw live after)),
                    )
              ]
            ]
      ]

  used_one :
      (h : Text) (token y : PasswordResetToken) (now : ℕ)
      → (has_hash h y ≡ true → y ≡ token)
      → has_hash h (use_token token.user_id now y) ≡ true
      → is_used (use_token token.user_id now y) ≡ true
  used_one h token y now first = elim (Bool-cases (y.user_id == token.user_id && not (is_used y))) [
    | inl e ↦ rw e (λ g. refl)
    | inr e ↦ rw e (λ g.
        let own : (y.user_id == token.user_id) ≡ true = rw (first g) (==_refl token.user_id) in
        ground (arith, own, e))
  ]

  -- Tokens with the hash of a token of a user are used after the update of that user's tokens.
  used_after :
      (h : Text) (token : PasswordResetToken) (now : ℕ) (ts : List PasswordResetToken)
      → All (λ y. has_hash h y ≡ true → y ≡ token) ts
      → All (λ y. has_hash h y ≡ true → is_used y ≡ true) (map (use_token token.user_id now) ts)
  used_after h token now [] all = tt
  used_after h token now (y ∷ ts) (first, all) =
      (used_one h token y now first, used_after h token now ts all)

  -- A password reset token is confirmed at most once: after a confirmation that returned, every other
  -- one with the token is refused.
  pub confirm_password_reset_once :
      (token_hash : Text) (new_hash new_hash' : String) (now later : ℕ) (s : S) (x y : String)
      → (confirm_password_reset a t token_hash new_hash now s).0 ≡ ok x
      → (confirm_password_reset a t token_hash new_hash' later
          (confirm_password_reset a t token_hash new_hash now s).1).0
        ≢ ok y
  unfolding IsConfirmed reset_user
  confirm_password_reset_once token_hash new_hash new_hash' now later s x y h h' =
      let s₁ = (confirm_password_reset a t token_hash new_hash now s).1 in
      let P = λ (z : PasswordResetToken). has_hash token_hash z ≡ true → is_used z ≡ true in
      let (token, user, p, q, _, _, _, after) =
        confirm_password_reset-IsConfirmed token_hash new_hash now s x h in
      let (token', _, p', _, unused, _, _, _) =
        confirm_password_reset-IsConfirmed token_hash new_hash' later s₁ y h' in
      let owner : user.id ≡ token.user_id =
        (==_iff user.id token.user_id).0 (rows.first_user_some s.accounts _ user q) in
      let stored : t.tokens s₁.reset_tokens
          ≡ map (use_token token.user_id now) (t.tokens s.reset_tokens) =
        ap (λ (z : S). t.tokens z.reset_tokens) after
        ∙ table.tokens-use_tokens s.reset_tokens user.id now
        ∙ ap (λ (n : ℕ). map (use_token n now) (t.tokens s.reset_tokens)) owner in
      let all : All P (t.tokens s₁.reset_tokens) = rw stored (
        used_after token_hash token now (t.tokens s.reset_tokens)
          (table.unique_hash s.reset_tokens token_hash token p)) in
      let used =
        table.first_token_stored s₁.reset_tokens _ token' P p' all
          (table.first_token_some s₁.reset_tokens _ token' p') in
      false≢true (sym unused ∙ used)
