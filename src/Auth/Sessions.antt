-- ===== src/Auth/Sessions.antt =====
-- Who gets new tokens, and what a logout ends.
use starter_backend_template.Prelude.{
  ℕ, ◌+◌, ◌-◌, ◌≡◌, ◌≢◌, ◌<◌, ◌≤◌, true, false, ◌&&◌, leb, ltb, ◌==◌, some, Text, codes,
  text_eq_refl, refl, sym, ap, ◌∙◌, arith, Bool-cases, Option-cases, inl, inr, ==_iff, lt→ltb,
  ltb→lt, false≢true,
}
use starter_backend_template.Errors.{ok, Result-cases}
use starter_backend_template.Permissions.{User}
use starter_backend_template.Keys.{Keys, IsKeys, is_there}
use starter_backend_template.Accounts.{Accounts, IsAccounts}
use starter_backend_template.Webhook.Signature.{ℤ}
use starter_backend_template.Auth.{
  Jwt, IsJwt, AuthSettings, RefreshClaims, AuthState, revocation_key, revoke_refresh_token, is_id,
  decode_refresh_token, get_active_user_from_refresh_payload, issue_tokens, rotate_refresh_token,
  logout_user,
}
use starter_backend_template.Auth.Rotation.{
  IsDecoded, IsRotated, IsEntitled, decode_refresh_token-IsDecoded, same_claims,
  rotate_refresh_token-IsRotated, expired_not_new, check_user-IsEntitled,
}

module _ (k : Keys) (lawful : IsKeys k) (a : Accounts) (rows : IsAccounts a) (j : Jwt)
    (jwt : IsJwt j) (settings : AuthSettings) where
  abbrev S : Type 0
  S = AuthState k.State a.State

  -- The row of the subject and the tenant of a refresh token.
  abbrev pub IsRowOf : RefreshClaims → User → a.State → Type 0
  IsRowOf claims user accounts =
      (sub : Text) × (n : ℤ) × (claims.sub ≡ some sub)
      × (j.int sub ≡ some n)
      × (a.first_user accounts (λ u. is_id n u.id && u.tenant_id == claims.tenant_id) ≡ some user)

  -- The row that `_get_active_user_from_refresh_payload` found, and what it checked of it.
  pub get_active_user_found :
      (claims : RefreshClaims) (user : User) (accounts : a.State)
      → get_active_user_from_refresh_payload k a j settings claims accounts ≡ ok user
      → IsRowOf claims user accounts
        × (user.is_active ≡ true)
        × (a.tenant_is_active accounts user.tenant_id ≡ some true)
        × (claims.token_version ≡ user.token_version)
  unfolding get_active_user_from_refresh_payload
  get_active_user_found claims user accounts h = elim (Option-cases claims.sub) [
    | inl gone ↦ cc (rw (gone, get_active_user_from_refresh_payload) at h)
    | inr (user_id, p) ↦
        let h' = rw (p, get_active_user_from_refresh_payload) at h in
        elim (Option-cases (j.int user_id)) [
          | inl bad ↦ cc (rw (bad, get_active_user_from_refresh_payload) at h')
          | inr (n, q) ↦
              let (found, active, open_tenant, version) =
                check_user-IsEntitled k lawful a j jwt settings claims _ user accounts
                  (rw (q, get_active_user_from_refresh_payload) at h') in
              ((user_id, n, p, q, found), active, open_tenant, version)
        ]
  ]

  get_active_user-IsEntitled :
      (claims : RefreshClaims) (user : User) (accounts : a.State)
      → get_active_user_from_refresh_payload k a j settings claims accounts ≡ ok user
      → IsEntitled k lawful a j jwt settings claims user accounts
  unfolding IsEntitled
  get_active_user-IsEntitled claims user accounts h =
      let ((_, _, _, _, found), active, open_tenant, version) =
        get_active_user_found claims user accounts h in
      let filter = rows.first_user_some accounts _ user found in
      (
        active,
        open_tenant,
        version,
        (==_iff user.tenant_id claims.tenant_id).0 (ground (arith, filter)),
      )

  -- New tokens are given for a refresh token that decodes, and for the row of its subject and tenant,
  -- an active user of an active tenant with the token version that the refresh token names; they are the
  -- two tokens of that user.
  pub rotate_refresh_token-IsEntitled :
      (token m n : Text) (now : ℕ) (s : S) (x : Text × Text)
      → (rotate_refresh_token k a j settings token m n now s).0 ≡ ok x
      → (claims : RefreshClaims) × (user : User) × (decode_refresh_token k a j settings token now
            s.keys
          ≡ ok claims)
        × IsRowOf claims user s.accounts
        × IsEntitled k lawful a j jwt settings claims user s.accounts
        × (x ≡ issue_tokens k a j settings user m n now)
  unfolding IsRotated
  rotate_refresh_token-IsEntitled token m n now s x h =
      let (claims, user, p, q, _, _, tokens) =
        rotate_refresh_token-IsRotated k lawful a j jwt settings token m n now s x h in
      let (row, _, _, _) = get_active_user_found claims user s.accounts q in
      (claims, user, p, row, get_active_user-IsEntitled claims user s.accounts q, tokens)

  -- What a logout leaves: an entry for the token until it expires.
  logout_entry :
      (jti : Text) (exp now later : ℕ) (keys : k.State)
      → now ≤ later
      → later < exp
      → is_there (
          k.value
            (revoke_refresh_token k a j settings jti exp false now keys).1
            later
            (revocation_key jti))
        ≡ true
  unfolding revoke_refresh_token
  logout_entry jti exp now later keys o l =
      let key = revocation_key jti in
      let live : leb exp now ≡ false = ground arith in
      let ttl : now + (exp - now) ≡ exp = ground arith in
      rw live (
        rw (lawful.value-set_ex keys now key (codes "1") (exp - now) later key)
          (rw (text_eq_refl key) (rw ttl (rw (lt→ltb later exp l) refl))))

  logged_out :
      (token : Text) (now : ℕ) (s : S)
      → (logout_user k a j settings token now s).0 ≡ ok tt
      → (claims : RefreshClaims) × (decode_refresh_token k a j settings token now s.keys
          ≡ ok claims)
        × ((logout_user k a j settings token now s).1 ≡ record s {
          keys = (revoke_refresh_token k a j settings claims.jti claims.exp false now s.keys).1;
        })
  unfolding logout_user
  logged_out token now s h =
      elim (Result-cases (decode_refresh_token k a j settings token now s.keys)) [
        | inr (e, bad) ↦ cc (rw (bad, logout_user) at h)
        | inl (claims, p) ↦ (claims, p, rw (p, logout_user) refl)
      ]

  -- After a logout that returned, no rotation of the token returns.
  pub logout_user_ends :
      (token m n : Text) (now later : ℕ) (s : S) (y : Text × Text)
      → now ≤ later
      → (logout_user k a j settings token now s).0 ≡ ok tt
      → (rotate_refresh_token k a j settings token m n later
          (logout_user k a j settings token now s).1).0
        ≢ ok y
  unfolding IsRotated IsDecoded
  logout_user_ends token m n now later s y o h h' =
      let s₁ = (logout_user k a j settings token now s).1 in
      let (claims, p, after) = logged_out token now s h in
      let (claims', user', p', q', new', _, _) =
        rotate_refresh_token-IsRotated k lawful a j jwt settings token m n later s₁ y h' in
      let read =
        decode_refresh_token-IsDecoded k lawful a j jwt settings token now s.keys claims p in
      let read' =
        decode_refresh_token-IsDecoded k lawful a j jwt settings token later s₁.keys claims' p' in
      let (_, _, _, unseen) = read' in
      let same : claims ≡ claims' =
        same_claims k lawful a j jwt settings token now later s.keys s₁.keys claims claims' read
          read' in
      let free : is_there (k.value s₁.keys later (revocation_key claims.jti)) ≡ false =
        rw same unseen in
      let kept : s₁.keys
          ≡ (revoke_refresh_token k a j settings claims.jti claims.exp false now s.keys).1 =
        ap (λ (t : S). t.keys) after in
      elim (Bool-cases (ltb later claims.exp)) [
        | inl live ↦ false≢true (
            sym free
            ∙ rw kept (
                logout_entry claims.jti claims.exp now later s.keys o
                  (ltb→lt later claims.exp live)))
        | inr over ↦
            let old =
              expired_not_new k lawful a j jwt settings claims.jti claims.exp later s₁.keys
                (ground (arith, over)) in
            false≢true (sym old ∙ rw same new')
      ]
