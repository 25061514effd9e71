-- ===== src/Users/Sessions.antt =====
-- What the deactivation of a user ends: the access tokens that app/api/dependencies/auth.py accepts
-- afterwards, whatever the routes of app/api/routes/users.py and password resets do in between.
use starter_backend_template.Prelude.{
  ℕ, ◌+◌, ◌≡◌, ◌<◌, inl, inr, String, Bool, false, ◌==◌, ==_iff, Option, some, List, [], ◌∷◌, map,
  All, Text, arith, Bool-cases,
}
use starter_backend_template.Errors.{ok, pure, lift, ◌>>◌}
use starter_backend_template.Errors.Chains.{After, After-bind}
use starter_backend_template.Permissions.{User, users_deactivate}
use starter_backend_template.Keys.{Keys}
use starter_backend_template.Accounts.{replaced_by}
use starter_backend_template.Auth.{Claims, Jwt, AuthSettings}
use starter_backend_template.Reset.{Tokens, increment_user_token_version}
use starter_backend_template.Tenants.{TenantTable}
use starter_backend_template.Users.CurrentUser.{
  get_current_user, get_current_user-IsCurrent, get_current_user_found, require_permission,
  require_permission_ok,
}
use starter_backend_template.Users.Service.{
  UserUpdate, Directory, IsDirectory, S, get_user_by_id, flush, finish, set_active, deactivated,
  deactivate_user, audited_user, patch_user, deactivate_user_endpoint, activate_user_endpoint,
  remove_user,
}
use starter_backend_template.Users.Versions.{
  HasVersion, All-replaced, AllFrom, audited_user-Raises, patch_user-Raises,
  deactivate_user_endpoint-Raises, activate_user_endpoint-Raises, remove_user-Raises,
}

-- All rows of an identifier are replaced by one of its version.
All-set :
    (n : ℕ) (w : User) (us : List User)
    → w.id ≡ n
    → All (HasVersion n w.token_version) (map (replaced_by w) us)
All-set n w [] is = tt
All-set n w (u ∷ us) is = elim (Bool-cases (u.id == w.id)) [
  | inl same ↦ rw same ((λ _. omega arith), All-set n w us is)
  | inr differs ↦ rw differs ((λ at. absurd (ground (arith, at, is))), All-set n w us is)
]

module _ (d : Directory) (lawful : IsDirectory d) (tokens : Tokens) where
  -- The steps of the program on the users.
  pub data Step : S d → S d → Type 0 where
    patches :
        (user_id : ℕ) (update : UserUpdate) (current_user : User) (s : S d)
        → Step s (patch_user d user_id update current_user s).1
    deactivates :
        (user_id : ℕ) (current_user : User) (s : S d)
        → Step s (deactivate_user_endpoint d user_id current_user s).1
    activates :
        (user_id : ℕ) (current_user : User) (s : S d)
        → Step s (activate_user_endpoint d user_id current_user s).1
    removes :
        (user_id : ℕ) (current_user : User) (s : S d)
        → Step s (remove_user d user_id current_user s).1
    resets :
        (p : User → Bool) (user : User) (new_hash : String) (s : S d)
        → d.accounts.first_user s.accounts p ≡ some user
        → Step s (record s {
          accounts =
              increment_user_token_version d.accounts tokens
                (record user { hashed_password = new_hash })
                s.accounts;
        })

  pub data Steps : S d → S d → Type 0 where
    done : (s : S d) → Steps s s
    more : (s s' s'' : S d) → Step s s' → Steps s' s'' → Steps s s''

  Step-AllFrom :
      (n v : ℕ) (s s' : S d) → Step s s' → AllFrom d lawful n v s → AllFrom d lawful n v s'
  unfolding increment_user_token_version
  Step-AllFrom n v _ _ (patches id update u s) all =
      (patch_user-Raises d lawful n v id update u).step s all
  Step-AllFrom n v _ _ (deactivates id u s) all =
      (deactivate_user_endpoint-Raises d lawful n v id u).step s all
  Step-AllFrom n v _ _ (activates id u s) all =
      (activate_user_endpoint-Raises d lawful n v id u).step s all
  Step-AllFrom n v _ _ (removes id u s) all = (remove_user-Raises d lawful n v id u).step s all
  Step-AllFrom n v _ _ (resets p user h s found) all =
      let old = lawful.rows.first_user_stored s.accounts p user (HasVersion n v) found all in
      let new : User = record user {
        hashed_password = h;
        token_version = user.token_version + 1;
      } in
      rw (lawful.rows.users-save_user s.accounts new)
        (All-replaced n v new (d.accounts.users s.accounts) (λ is. omega (arith, old is)) all)

  Steps-AllFrom :
      (n v : ℕ) (s s' : S d) → Steps s s' → AllFrom d lawful n v s → AllFrom d lawful n v s'
  Steps-AllFrom n v _ _ (done s) all = all
  Steps-AllFrom n v s _ (more _ s' s'' step rest) all =
      Steps-AllFrom n v s' s'' rest (Step-AllFrom n v s s' step all)

  -- The row that a change of `is_active` leaves.
  set_active-users :
      (change : User → User) (f : User) (s : S d) (o : Option User)
      → (set_active d change false (some f) s).0 ≡ ok o
      → d.accounts.users (set_active d change false (some f) s).1.accounts
        ≡ map (replaced_by (change f)) (d.accounts.users s.accounts)
  unfolding flush
  set_active-users change f s o h =
      let P = λ (s' : S d).
        d.accounts.users s'.accounts ≡ map (replaced_by (change f)) (d.accounts.users s.accounts) in
      (After-bind (flush d (change f)) (λ _. finish d false f.tenant_id >> pure (some (change f))) s
          P
          (λ _ written. record {
            after = λ _ _. lawful.users-flush_ok s.accounts (change f) written;
          })).after
        o h

  -- The row that was deactivated has the next token version.
  deactivate_user_sets :
      (user_id t : ℕ) (s : S d) (f : User) (o : Option User)
      → get_user_by_id d user_id t s ≡ some f
      → (deactivate_user d user_id t false s).0 ≡ ok o
      → AllFrom d lawful user_id (f.token_version + 1) (deactivate_user d user_id t false s).1
  unfolding deactivate_user get_user_by_id
  deactivate_user_sets user_id t s f o found h =
      let match = lawful.rows.first_user_some s.accounts _ f found in
      let is : f.id ≡ user_id = (==_iff f.id user_id).0 (ground (arith, match)) in
      let set : (set_active d (deactivated d) false (some f) s).0 ≡ ok o = rw found at h in
      rw found (
        rw (set_active-users (deactivated d) f s o set)
          (All-set user_id (deactivated d f) (d.accounts.users s.accounts) is))

  -- The route that returned has deactivated the row.
  deactivated_from :
      (user_id : ℕ) (current : User) (s : S d) (f : User)
      → get_user_by_id d user_id current.tenant_id s ≡ some f
      → After
          (deactivate_user_endpoint d user_id current)
          s
          (AllFrom d lawful user_id (f.token_version + 1))
  unfolding deactivate_user_endpoint
  deactivated_from user_id current s f found =
      let P = AllFrom d lawful user_id (f.token_version + 1) in
      After-bind (lift (require_permission (users_deactivate ∷ []) current)) _ s P (λ admin may.
        let (_, is_admin) = require_permission_ok (users_deactivate ∷ []) current admin may in
        let there : get_user_by_id d user_id admin.tenant_id s ≡ some f = rw (← is_admin) found in
        After-bind (deactivate_user d user_id admin.tenant_id false)
          (λ o. audited_user d o admin.tenant_id admin.id "user.deactivated" user_id) s P
          (λ o set. record {
            after = λ g h.
                (audited_user-Raises d lawful user_id (f.token_version + 1) o admin.tenant_id
                    admin.id user_id "user.deactivated").step
                  (deactivate_user d user_id admin.tenant_id false s).1
                  (deactivate_user_sets user_id admin.tenant_id s f o there set);
          }))

  -- After a user was deactivated, whatever the routes on users and password resets do next, an access
  -- token that is accepted for it names a later token version than the one that it had.
  pub deactivate_user_endpoint-get_current_user :
      (k : Keys) (j : Jwt) (settings : AuthSettings) (t : TenantTable) (user_id : ℕ)
      (current f g u : User) (s s' : S d) (credentials : Text) (slug : Option String) (now : ℕ)
      (tenants : t.State)
      → get_user_by_id d user_id current.tenant_id s ≡ some f
      → (deactivate_user_endpoint d user_id current s).0 ≡ ok g
      → Steps (deactivate_user_endpoint d user_id current s).1 s'
      → get_current_user k d.accounts j settings t credentials slug now s'.accounts tenants ≡ ok u
      → u.id ≡ user_id
      → (payload : Claims) × (version : ℕ) × (j.decode now credentials ≡ some payload)
        × (payload.token_version ≡ some version)
        × (f.token_version < version)
  deactivate_user_endpoint-get_current_user k j settings t user_id current f g u s s' credentials
        slug now tenants found h steps accepted is =
      let (payload, decoded, _, version, _, _, _, _, _) =
        get_current_user-IsCurrent k d.accounts j settings t lawful.rows credentials slug now
          s'.accounts tenants u accepted in
      let (p, row) =
        get_current_user_found k d.accounts j settings t credentials slug now s'.accounts tenants u
          accepted in
      let all = (deactivated_from user_id current s f found).after g h in
      let kept = Steps-AllFrom user_id (f.token_version + 1) _ s' steps all in
      let later =
        lawful.rows.first_user_stored s'.accounts p u (HasVersion user_id (f.token_version + 1)) row
          kept in
      (payload, u.token_version, decoded, version, omega (arith, later is))
