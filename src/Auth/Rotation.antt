-- ===== src/Auth/Rotation.antt =====
-- What a rotation of a refresh token requires, and that it and a logout spend the token.
use starter_backend_template.Prelude.{
  ℕ, ◌+◌, ◌-◌, ◌≡◌, ◌≢◌, ◌<◌, ◌≤◌, true, false, leb, ltb, ◌==◌, Option, none, some, Text, codes,
  text_eq_refl, refl, sym, ap, ◌∙◌, arith, Bool-cases, Option-cases, inl, inr, ==_iff, lt→ltb,
  ltb→lt, le→leb, false≢true,
}
use starter_backend_template.Errors.{ok, Result-cases}
use starter_backend_template.Permissions.{User}
use starter_backend_template.Keys.{Keys, IsKeys, is_there}
use starter_backend_template.Accounts.{Accounts}
use starter_backend_template.Auth.{
  Claims, Jwt, IsJwt, AuthSettings, RefreshClaims, AuthState, check_claims, revocation_key,
  revoke_refresh_token, decode_refresh_token, assert_active_tenant_membership, check_user,
  get_active_user_from_refresh_payload, issue_tokens, rotate_refresh_token,
}

module _ (k : Keys) (lawful : IsKeys k) (a : Accounts) (j : Jwt) (jwt : IsJwt j)
    (settings : AuthSettings) where
  abbrev S : Type 0
  S = AuthState k.State a.State

  -- A token that decodes: its payload, which has the claims, and no entry for its identifier.
  unfoldable pub IsDecoded : Text → ℕ → k.State → RefreshClaims → Type 0
  IsDecoded token now keys claims =
      (payload : Claims) × (j.decode now token ≡ some payload)
      × (check_claims payload ≡ ok claims)
      × (is_there (k.value keys now (revocation_key claims.jti)) ≡ false)

  pub decode_refresh_token-IsDecoded :
      (token : Text) (now : ℕ) (keys : k.State) (claims : RefreshClaims)
      → decode_refresh_token k a j settings token now keys ≡ ok claims
      → IsDecoded token now keys claims
  unfolding decode_refresh_token IsDecoded
  decode_refresh_token-IsDecoded token now keys claims h =
      elim (Option-cases (j.decode now token)) [
        | inl gone ↦ cc (rw (gone, decode_refresh_token) at h)
        | inr (payload, p) ↦ elim (Result-cases (check_claims payload)) [
          | inr (e, bad) ↦
              cc (rw (bad, decode_refresh_token) at (rw (p, decode_refresh_token) at h))
          | inl (found, q) ↦
              let h' = rw (q, decode_refresh_token) at (rw (p, decode_refresh_token) at h) in
              elim (Bool-cases (is_there (k.value keys now (revocation_key found.jti)))) [
                | inl revoked ↦ cc (rw revoked at h')
                | inr free ↦
                    let same : found ≡ claims = ground (arith, rw free at h') in
                    (payload, p, q ∙ ap ok same, rw (← same) free)
              ]
        ]
      ]

  -- The payload of a token does not change between two readings.
  pub same_claims :
      (token : Text) (now later : ℕ) (keys keys' : k.State) (claims claims' : RefreshClaims)
      → IsDecoded token now keys claims
      → IsDecoded token later keys' claims'
      → claims ≡ claims'
  unfolding IsDecoded
  same_claims token now later keys keys' claims claims' (p, d, e, f) (p', d', e', f') =
      let same = jwt.decode_same now later token p p' d d' in
      let both : ok claims ≡ ok claims' = sym e ∙ ap check_claims same ∙ e' in ground (arith, both)

  -- The steps of a rotation that returned the two tokens.
  unfoldable pub IsRotated : Text → (m n : Text) → ℕ → S → S → Text × Text → Type 0
  IsRotated token m n now s s' x =
      (claims : RefreshClaims) × (user : User) × (decode_refresh_token k a j settings token now
          s.keys
        ≡ ok claims)
      × (get_active_user_from_refresh_payload k a j settings claims s.accounts ≡ ok user)
      × ((revoke_refresh_token k a j settings claims.jti claims.exp true now s.keys).0 ≡ true)
      × (s' ≡ record s {
        keys = (revoke_refresh_token k a j settings claims.jti claims.exp true now s.keys).1;
      })
      × (x ≡ issue_tokens k a j settings user m n now)

  returned : {a b : Text × Text} → ok a ≡ ok b → b ≡ a
  returned e = cc

  pub rotate_refresh_token-IsRotated :
      (token m n : Text) (now : ℕ) (s : S) (x : Text × Text)
      → (rotate_refresh_token k a j settings token m n now s).0 ≡ ok x
      → IsRotated token m n now s (rotate_refresh_token k a j settings token m n now s).1 x
  unfolding rotate_refresh_token IsRotated
  rotate_refresh_token-IsRotated token m n now s x h =
      elim (Result-cases (decode_refresh_token k a j settings token now s.keys)) [
        | inr (e, bad) ↦ cc (rw (bad, rotate_refresh_token) at h)
        | inl (claims, p) ↦
            elim (Result-cases
              (get_active_user_from_refresh_payload k a j settings claims s.accounts)) [
                | inr (e, bad) ↦
                    cc (rw (bad, rotate_refresh_token) at (rw (p, rotate_refresh_token) at h))
                | inl (user, q) ↦
                    let h' = rw (q, rotate_refresh_token) at (rw (p, rotate_refresh_token) at h) in
                    elim (Bool-cases
                      (revoke_refresh_token k a j settings claims.jti claims.exp true now
                        s.keys).0) [
                          | inr old ↦ cc (rw old at h')
                          | inl new ↦ (
                            claims,
                            user,
                            p,
                            q,
                            new,
                            rw (p, rotate_refresh_token)
                                (rw (q, rotate_refresh_token) (rw new refl)),
                            returned (rw new at h'),
                          )
                        ]
              ]
      ]

  -- What the first use of an identifier leaves: an entry until the token expires.
  revoked_until :
      (jti : Text) (exp now : ℕ) (keys : k.State)
      → (revoke_refresh_token k a j settings jti exp true now keys).0 ≡ true
      → (later : ℕ) → later < exp
      → is_there (
          k.value
            (revoke_refresh_token k a j settings jti exp true now keys).1
            later
            (revocation_key jti))
        ≡ true
  unfolding revoke_refresh_token
  revoked_until jti exp now keys h later l = elim (Bool-cases (leb exp now)) [
    | inl over ↦ cc (rw over at h)
    | inr live ↦
        let key = revocation_key jti in
        let flag =
          sym (lawful.set_nx_ex_flag keys now key (codes "1") (exp - now)) ∙ rw live at h in
        let free : is_there (k.value keys now key) ≡ false = ground (arith, flag) in
        let ttl : now + (exp - now) ≡ exp = ground (arith, live) in
        rw live (
          rw (lawful.value-set_nx_ex keys now key (codes "1") (exp - now) later key)
            (rw free (rw (text_eq_refl key) (rw ttl (rw (lt→ltb later exp l) refl)))))
  ]

  pub expired_not_new :
      (jti : Text) (exp now : ℕ) (keys : k.State)
      → exp ≤ now
      → (revoke_refresh_token k a j settings jti exp true now keys).0 ≡ false
  unfolding revoke_refresh_token
  expired_not_new jti exp now keys h = rw (le→leb exp now h) refl

  -- A refresh token is rotated at most once: after a rotation that returned, no second rotation of
  -- the token returns, at any time.
  pub rotate_refresh_token_once :
      (token m n m' n' : Text) (now later : ℕ) (s : S) (x y : Text × Text)
      → (rotate_refresh_token k a j settings token m n now s).0 ≡ ok x
      → (rotate_refresh_token k a j settings token m' n' later
          (rotate_refresh_token k a j settings token m n now s).1).0
        ≢ ok y
  unfolding IsRotated IsDecoded
  rotate_refresh_token_once token m n m' n' now later s x y h h' =
      let s₁ = (rotate_refresh_token k a j settings token m n now s).1 in
      let (claims, user, p, q, new, after, _) =
        rotate_refresh_token-IsRotated token m n now s x h in
      let (claims', user', p', q', new', _, _) =
        rotate_refresh_token-IsRotated token m' n' later s₁ y h' in
      let read = decode_refresh_token-IsDecoded token now s.keys claims p in
      let read' = decode_refresh_token-IsDecoded token later s₁.keys claims' p' in
      let (_, _, _, unseen) = read' in
      let same : claims ≡ claims' =
        same_claims token now later s.keys s₁.keys claims claims' read read' in
      let free : is_there (k.value s₁.keys later (revocation_key claims.jti)) ≡ false =
        rw same unseen in
      let kept : s₁.keys
          ≡ (revoke_refresh_token k a j settings claims.jti claims.exp true now s.keys).1 =
        ap (λ (t : S). t.keys) after in
      elim (Bool-cases (ltb later claims.exp)) [
        | inl live ↦
            let entry =
              revoked_until claims.jti claims.exp now s.keys new later
                (ltb→lt later claims.exp live) in
            false≢true (sym free ∙ rw kept entry)
        | inr over ↦
            let old = expired_not_new claims.jti claims.exp later s₁.keys (ground (arith, over)) in
            false≢true (sym old ∙ rw same new')
      ]

  -- Who may have new tokens: an active user of an active tenant, whose token version is the one of the
  -- token, and whose tenant is that of the token.
  unfoldable pub IsEntitled : RefreshClaims → User → a.State → Type 0
  IsEntitled claims user accounts =
      (user.is_active ≡ true)
      × (a.tenant_is_active accounts user.tenant_id ≡ some true)
      × (claims.token_version ≡ user.token_version)
      × (user.tenant_id ≡ claims.tenant_id)

  pub check_user-IsEntitled :
      (claims : RefreshClaims) (found : Option User) (user : User) (accounts : a.State)
      → check_user k a j settings claims found accounts ≡ ok user
      → (found ≡ some user)
        × (user.is_active ≡ true)
        × (a.tenant_is_active accounts user.tenant_id ≡ some true)
        × (claims.token_version ≡ user.token_version)
  unfolding check_user assert_active_tenant_membership
  check_user-IsEntitled claims none user accounts h = cc
  check_user-IsEntitled claims (some u) user accounts h = elim (Bool-cases u.is_active) [
    | inr off ↦ cc (rw (off, check_user) at h)
    | inl active ↦ elim (Option-cases (a.tenant_is_active accounts u.tenant_id)) [
      | inl gone ↦ cc (rw (gone, check_user) at (rw (active, check_user) at h))
      | inr (false, closed) ↦ cc (rw (closed, check_user) at (rw (active, check_user) at h))
      | inr (true, open_tenant) ↦
          let h' = rw (open_tenant, check_user) at (rw (active, check_user) at h) in
          elim (Bool-cases (claims.token_version == u.token_version)) [
            | inr other ↦ cc (rw other at h')
            | inl version ↦
                let same : u ≡ user = ground (arith, rw version at h') in
                (
                  ap some same,
                  rw (← same) active,
                  rw (← same) open_tenant,
                  (==_iff claims.token_version u.token_version).0 version
                      ∙ ap (λ (x : User). x.token_version) same,
                )
          ]
    ]
  ]
