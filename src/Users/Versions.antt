-- ===== src/Users/Versions.antt =====
-- The token version of a user never falls: `update_user`, `deactivate_user`, `activate_user` and
-- `delete_user` of app/services/user_service.py under their routes, and the confirmation of a password
-- reset.
use starter_backend_template.Prelude.{
  ℕ, ◌+◌, ◌≡◌, ◌≤◌, refl, sym, subst, ◌∙◌, inl, inr, String, Bool, true, false, not, ◌==◌, Option,
  none, some, List, [], ◌∷◌, map, select, All, arith, Bool-cases, Option-cases,
}
use starter_backend_template.Errors.{Result, ok, err, Exec, pure, lift, ◌>>=◌, ◌>>◌}
use starter_backend_template.Errors.Chains.{bind_state}
use starter_backend_template.Permissions.{
  User, users_delete, users_activate, users_deactivate, users_update, can_update_user,
  user_has_permission,
}
use starter_backend_template.Accounts.{replaced_by}
use starter_backend_template.Users.CurrentUser.{require_permission}
use starter_backend_template.Users.Service.{
  UserUpdate, self_update, Directory, IsDirectory, set_field, changes_role, with_fields,
  updated_user, S, get_user_by_id, flush, finish, update_user, commit_user_mutation_with_audit,
  set_active, deactivated, activated, deactivate_user, activate_user, delete_user, or_404, or_403,
  found_user, update_with_audit, audited_user, patch_found, patch_user, deactivate_user_endpoint,
  activate_user_endpoint, remove_user,
}

-- The rows of an identifier have a token version from a number on.
abbrev pub HasVersion : ℕ → ℕ → User → Type 0
HasVersion n v u = u.id ≡ n → v ≤ u.token_version

-- An update keeps the identifier, and does not lower the version.
updated_user_raises :
    (u w : User) (update : UserUpdate)
    → updated_user u update ≡ ok w
    → (w.id ≡ u.id) × (u.token_version ≤ w.token_version)
unfolding updated_user
updated_user_raises u w update h =
    from (set_field update.email u.email) (set_field update.is_active u.is_active)
      (set_field update.role u.role) h
  where
    from :
        (a : Result String) (b : Result Bool) (c : Result String)
        → with_fields u update a b c ≡ ok w
        → (w.id ≡ u.id) × (u.token_version ≤ w.token_version)
    from (err e) b c h = cc
    from (ok a) (err e) c h = cc
    from (ok a) (ok b) (err e) h = cc
    from (ok a) (ok b) (ok c) h = elim (Bool-cases (changes_role update.role u.role)) [
      | inl changes ↦
          let same : ok (record u {
            email = a;
            is_active = b;
            role = c;
            token_version = u.token_version + 1;
          })
              ≡ ok w =
            rw changes at h in
          let row : record u {
            email = a;
            is_active = b;
            role = c;
            token_version = u.token_version + 1;
          }
              ≡ w =
            cc in
          (rw (← row) refl, rw (← row) (omega arith))
      | inr keeps ↦
          let same : ok (record u { email = a; is_active = b; role = c }) ≡ ok w = rw keeps at h in
          let row : record u { email = a; is_active = b; role = c } ≡ w = cc in
          (rw (← row) refl, rw (← row) (omega arith))
    ]

pub All-replaced :
    (n v : ℕ) (w : User) (us : List User)
    → HasVersion n v w
    → All (HasVersion n v) us
    → All (HasVersion n v) (map (replaced_by w) us)
All-replaced n v w [] h all = tt
All-replaced n v w (u ∷ us) h (p, all) = elim (Bool-cases (u.id == w.id)) [
  | inl same ↦ rw same (h, All-replaced n v w us h all)
  | inr differs ↦ rw differs (p, All-replaced n v w us h all)
]

All-removed :
    (P : User → Type 0) (f : User → Bool) (us : List User) → All P us → All P (select f us)
All-removed P f [] all = tt
All-removed P f (u ∷ us) (p, all) = elim (Bool-cases (f u)) [
  | inl kept ↦ rw kept (p, All-removed P f us all)
  | inr gone ↦ rw gone (All-removed P f us all)
]

module _ (d : Directory) (lawful : IsDirectory d) (n v : ℕ) where
  -- All rows of the identifier have a version from the number on.
  abbrev pub AllFrom : S d → Type 0
  AllFrom s = All (HasVersion n v) (d.accounts.users s.accounts)

  -- A call that keeps this.
  pub record Raises {A : Type 0} (m : Exec (S d) A) : Type 0 where
    pub step : (s : S d) → AllFrom s → AllFrom (m s).1

  then-Raises :
      {A B : Type 0} (m : Exec (S d) A) (f : A → Exec (S d) B)
      → Raises m
      → ((a : A) (s : S d) → AllFrom s → (m s).0 ≡ ok a → Raises (f a))
      → Raises (m >>= f)
  then-Raises m f first next = record {
    step = λ s all.
        bind_state m f s AllFrom (first.step s all)
          (λ a e. (next a s all e).step (m s).1 (first.step s all));
  }

  both_raise :
      {A B : Type 0} (m : Exec (S d) A) (k : Exec (S d) B) → Raises m → Raises k → Raises (m >> k)
  both_raise m k first second = then-Raises m (λ _. k) first (λ _ _ _ _. second)

  returns_raise : {A : Type 0} (a : A) → Raises (pure a)
  returns_raise a = record { step = λ s all. all }

  same_rows : {A : Type 0} (r : Result A) → Raises (lift r)
  same_rows r = record { step = λ s all. all }

  flush-Raises : (w : User) → HasVersion n v w → Raises (flush d w)
  unfolding flush
  flush-Raises w h = record {
    step = λ s all. elim (lawful.flush_answers s.accounts w) [
      | inl done ↦
          rw (lawful.users-flush_ok s.accounts w done)
            (All-replaced n v w (d.accounts.users s.accounts) h all)
      | inr refused ↦ rw (lawful.users-flush_err s.accounts w refused) all
    ];
  }

  finish-Raises : (commit : Bool) (t : ℕ) → Raises (finish d commit t)
  finish-Raises true t = record { step = λ s all. all }
  finish-Raises false t = record { step = λ s all. all }

  update_user-Raises :
      (u : User) (update : UserUpdate) (commit : Bool)
      → HasVersion n v u
      → Raises (update_user d u update commit)
  unfolding update_user
  update_user-Raises u update commit h =
      then-Raises (lift (updated_user u update)) _ (same_rows _) (λ w s _ e.
        let (id, raised) = updated_user_raises u w update e in
        both_raise (flush d w) (finish d commit w.tenant_id >> pure w)
          (flush-Raises w (λ is. omega (arith, raised, h (sym id ∙ is))))
          (both_raise (finish d commit w.tenant_id) (pure w) (finish-Raises commit w.tenant_id)
            (returns_raise w)))

  audit-Raises :
      (t admin target : ℕ) (action : String)
      → Raises (commit_user_mutation_with_audit d t admin action target)
  unfolding commit_user_mutation_with_audit
  audit-Raises t admin target action = record { step = λ s all. all }

  -- The row that a query found has the version, too.
  found_user-HasVersion :
      (user_id t : ℕ) (s : S d) (u : User)
      → AllFrom s
      → (found_user d user_id t s).0 ≡ ok u
      → HasVersion n v u
  unfolding found_user get_user_by_id
  found_user-HasVersion user_id t s u all h = elim (Option-cases (get_user_by_id d user_id t s)) [
    | inl absent ↦ cc (rw (absent, found_user) at h)
    | inr (w, found) ↦
        let same : ok w ≡ ok u = rw (found, found_user) at h in
        let is_u : w ≡ u = cc in
        subst (HasVersion n v) is_u
          (lawful.rows.first_user_stored s.accounts _ w (HasVersion n v) found all)
  ]

  patch_found-Raises :
      (u : User) (update : UserUpdate) (current : User) (user_id : ℕ)
      → HasVersion n v u
      → Raises (patch_found d u update current user_id)
  unfolding patch_found update_with_audit
  patch_found-Raises u update current user_id h =
      elim (Bool-cases (user_has_permission current users_update)) [
        | inl may ↦ rw may (
            then-Raises (update_user d u update false) _ (update_user-Raises u update false h)
              (λ w _ _ _.
                both_raise
                  (commit_user_mutation_with_audit d current.tenant_id current.id "user.updated"
                    user_id)
                  (pure w) (audit-Raises current.tenant_id current.id user_id "user.updated")
                  (returns_raise w)))
        | inr self ↦ rw self (update_user-Raises u (self_update update) true h)
      ]

  found_user-Raises : (user_id t : ℕ) → Raises (found_user d user_id t)
  unfolding found_user
  found_user-Raises user_id t = record { step = λ s all. all }

  pub patch_user-Raises :
      (user_id : ℕ) (update : UserUpdate) (current : User)
      → Raises (patch_user d user_id update current)
  unfolding patch_user
  patch_user-Raises user_id update current =
      then-Raises (found_user d user_id current.tenant_id) _
        (found_user-Raises user_id current.tenant_id)
        (λ u s all e.
          both_raise (lift (or_403 d (can_update_user current u)))
            (patch_found d u update current user_id)
            (same_rows (or_403 d (can_update_user current u)))
            (patch_found-Raises u update current user_id
              (found_user-HasVersion user_id current.tenant_id s u all e)))

  set_active-Raises :
      (change : User → User) (commit : Bool) (o : Option User)
      → ((u : User) → o ≡ some u → HasVersion n v (change u))
      → Raises (set_active d change commit o)
  set_active-Raises change commit none h = returns_raise none
  set_active-Raises change commit (some u) h =
      both_raise (flush d (change u)) (finish d commit u.tenant_id >> pure (some (change u)))
        (flush-Raises (change u) (h u refl))
        (both_raise (finish d commit u.tenant_id) (pure (some (change u)))
          (finish-Raises commit u.tenant_id) (returns_raise (some (change u))))

  row-HasVersion :
      (user_id t : ℕ) (s : S d) (u : User)
      → AllFrom s
      → get_user_by_id d user_id t s ≡ some u
      → HasVersion n v u
  unfolding get_user_by_id
  row-HasVersion user_id t s u all found =
      lawful.rows.first_user_stored s.accounts _ u (HasVersion n v) found all

  deactivate_user-Raises :
      (user_id t : ℕ) (commit : Bool) → Raises (deactivate_user d user_id t commit)
  unfolding deactivate_user
  deactivate_user-Raises user_id t commit = record {
    step = λ s all.
        (set_active-Raises (deactivated d) commit (get_user_by_id d user_id t s)
            (λ u e is. omega (arith, row-HasVersion user_id t s u all e is))).step
          s all;
  }

  activate_user-Raises : (user_id t : ℕ) (commit : Bool) → Raises (activate_user d user_id t commit)
  unfolding activate_user
  activate_user-Raises user_id t commit = record {
    step = λ s all.
        (set_active-Raises (activated d) commit (get_user_by_id d user_id t s)
            (λ u e is. row-HasVersion user_id t s u all e is)).step
          s all;
  }

  pub audited_user-Raises :
      (o : Option User) (t admin target : ℕ) (action : String)
      → Raises (audited_user d o t admin action target)
  unfolding audited_user
  audited_user-Raises o t admin target action =
      then-Raises (lift (or_404 d o))
        (λ user. commit_user_mutation_with_audit d t admin action target >> pure user)
        (same_rows (or_404 d o))
        (λ user _ _ _.
          both_raise (commit_user_mutation_with_audit d t admin action target) (pure user)
            (audit-Raises t admin target action) (returns_raise user))

  pub deactivate_user_endpoint-Raises :
      (user_id : ℕ) (current : User) → Raises (deactivate_user_endpoint d user_id current)
  unfolding deactivate_user_endpoint
  deactivate_user_endpoint-Raises user_id current =
      then-Raises (lift (require_permission (users_deactivate ∷ []) current)) _
        (same_rows (require_permission (users_deactivate ∷ []) current))
        (λ admin _ _ _.
          then-Raises (deactivate_user d user_id admin.tenant_id false) _
            (deactivate_user-Raises user_id admin.tenant_id false)
            (λ o _ _ _. audited_user-Raises o admin.tenant_id admin.id user_id "user.deactivated"))

  pub activate_user_endpoint-Raises :
      (user_id : ℕ) (current : User) → Raises (activate_user_endpoint d user_id current)
  unfolding activate_user_endpoint
  activate_user_endpoint-Raises user_id current =
      then-Raises (lift (require_permission (users_activate ∷ []) current)) _
        (same_rows (require_permission (users_activate ∷ []) current))
        (λ admin _ _ _.
          then-Raises (activate_user d user_id admin.tenant_id false) _
            (activate_user-Raises user_id admin.tenant_id false)
            (λ o _ _ _. audited_user-Raises o admin.tenant_id admin.id user_id "user.activated"))

  delete_user-Raises : (u : User) → Raises (delete_user d u false)
  unfolding delete_user
  delete_user-Raises u = record {
    step = λ s all.
        rw (lawful.users-delete_row s.accounts u) (
          All-removed (HasVersion n v) (λ w. not (w.id == u.id)) (d.accounts.users s.accounts) all);
  }

  pub remove_user-Raises : (user_id : ℕ) (current : User) → Raises (remove_user d user_id current)
  unfolding remove_user
  remove_user-Raises user_id current =
      then-Raises (lift (require_permission (users_delete ∷ []) current)) _
        (same_rows (require_permission (users_delete ∷ []) current))
        (λ admin _ _ _.
          then-Raises (found_user d user_id admin.tenant_id) _
            (found_user-Raises user_id admin.tenant_id)
            (λ u _ _ _.
              both_raise (delete_user d u false)
                (commit_user_mutation_with_audit d admin.tenant_id admin.id "user.deleted" user_id)
                (delete_user-Raises u)
                (audit-Raises admin.tenant_id admin.id user_id "user.deleted")))
