-- ===== src/Tenants/Provisioning.antt =====
-- The life of a tenant: `provision_tenant` and `set_tenant_active_state` of
-- app/services/tenant_service.py against the lookup of the requests.
use starter_backend_template.Prelude.{
  ℕ, ◌≡◌, ◌≢◌, refl, sym, ap, subst, ◌∙◌, String, Bool, true, false, not, ◌==◌, str_eq, eq_refl,
  eq_iff, if◌then◌else◌, Option, none, some, List, [], ◌∷◌, All, map, arith, Option-cases,
  Bool-cases, inl, inr, ==_iff, false≢true,
}
use starter_backend_template.Errors.{not_found, bad_request, ok, err, Result-cases}
use starter_backend_template.Tenants.{
  Tenant, replaced_tenant, TenantTable, IsTenantTable, TenantState, get_tenant_by_slug,
  get_tenant_by_id, get_active_tenant_by_slug, if_active, create_tenant, update_tenant,
  provision_tenant, set_tenant_active_state,
}

-- A row with a slug is found by a query for it.
module _ (t : TenantTable) (rows : IsTenantTable t) where
  slug_found :
      (s : t.State) (x : Tenant) (xs : List Tenant)
      → t.tenants s ≡ x ∷ xs
      → (y : Tenant) × (get_tenant_by_slug t s x.slug ≡ some y) × (y.slug ≡ x.slug)
  unfolding get_tenant_by_slug
  slug_found s x xs e = elim (Option-cases (t.first_tenant s (λ y. str_eq y.slug x.slug))) [
    | inl absent ↦
        let (not_here, _) =
          subst (All (λ y. str_eq y.slug x.slug ≡ false)) e (rows.first_none s _ absent) in
        absurd (false≢true (sym not_here ∙ eq_refl x.slug))
    | inr (y, found) ↦ (y, found, (eq_iff y.slug x.slug).0 (rows.first_some s _ y found))
  ]

  create_taken :
      (s : TenantState t.State) (slug name : String) (y : Tenant)
      → get_tenant_by_slug t s.table slug ≡ some y
      → create_tenant t slug name s ≡ (err (bad_request "Tenant with this slug already exists"), s)
  unfolding create_tenant
  create_taken s slug name y found = rw (found, create_tenant) refl

  create_free :
      (s : TenantState t.State) (slug name : String)
      → get_tenant_by_slug t s.table slug ≡ none
      → create_tenant t slug name s
        ≡ ((t.add s.table slug name true).0, record s { table = (t.add s.table slug name true).1 })
  unfolding create_tenant
  create_free s slug name free = rw (free, create_tenant) refl

  refused :
      (s : TenantState t.State) (slug name : String) (admin tenant : ℕ) (y : Tenant)
      → get_tenant_by_slug t s.table slug ≡ some y
      → (provision_tenant t slug name admin tenant s).0
        ≡ err (bad_request "Tenant with this slug already exists")
  unfolding provision_tenant
  refused s slug name admin tenant y found =
      rw (create_taken s slug name y found, provision_tenant) refl

  provisioned :
      (s : TenantState t.State) (slug name : String) (admin tenant : ℕ)
      → get_tenant_by_slug t s.table slug ≡ none
      → ((provision_tenant t slug name admin tenant s).0 ≡ (t.add s.table slug name true).0)
        × ((provision_tenant t slug name admin tenant s).1.table ≡ (t.add s.table slug name true).1)
  unfolding provision_tenant
  provisioned s slug name admin tenant free =
      let table = ap (λ x. x.1.table) (create_free s slug name free) in
      elim (Result-cases (t.add s.table slug name true).0) [
        | inl (x, added) ↦ (
          rw (create_free s slug name free, provision_tenant) (rw added refl),
          rw (create_free s slug name free, provision_tenant) (rw added table),
        )
        | inr (e, refused) ↦ (
          rw (create_free s slug name free, provision_tenant) (rw refused refl),
          rw (create_free s slug name free, provision_tenant) (rw refused table),
        )
      ]

  -- A tenant that was provisioned had a free slug, is active and has the slug and the name, and its slug
  -- is refused in the state after it.
  pub provision_tenant_once :
      (slug name name' : String) (admin tenant admin' tenant' : ℕ) (s : TenantState t.State)
      (x : Tenant)
      → (provision_tenant t slug name admin tenant s).0 ≡ ok x
      → (get_tenant_by_slug t s.table slug ≡ none)
        × (x.slug ≡ slug)
        × (x.name ≡ name)
        × (x.is_active ≡ true)
        × ((provision_tenant t slug name' admin' tenant'
              (provision_tenant t slug name admin tenant s).1).0
            ≡ err (bad_request "Tenant with this slug already exists"))
  provision_tenant_once slug name name' admin tenant admin' tenant' s x h =
      elim (Option-cases (get_tenant_by_slug t s.table slug)) [
        | inr (y, found) ↦ cc (refused s slug name admin tenant y found)
        | inl free ↦
            let (returned, stored) = provisioned s slug name admin tenant free in
            let (n, new, added) = rows.tenants-add_ok s.table slug name true x (sym returned ∙ h) in
            let (y, found, _) =
              slug_found (t.add s.table slug name true).1
                (record { id = n; slug = slug; name = name; is_active = true }) (t.tenants s.table)
                (added ∙ ap (λ z. z ∷ t.tenants s.table) (sym new)) in
            (
              free,
              ap (λ (z : Tenant). z.slug) (sym new),
              ap (λ (z : Tenant). z.name) (sym new),
              ap (λ (z : Tenant). z.is_active) (sym new),
              refused (provision_tenant t slug name admin tenant s).1 slug name' admin' tenant' y
                  (subst (λ table. get_tenant_by_slug t table slug ≡ some y) (sym stored) found),
            )
      ]

  -- Every row of an identifier is inactive.
  abbrev ClosedFor : ℕ → Tenant → Type 0
  ClosedFor n x = x.id ≡ n → x.is_active ≡ false

  closed :
      (n : ℕ) (w : Tenant) (xs : List Tenant)
      → w.id ≡ n
      → w.is_active ≡ false
      → All (ClosedFor n) (map (replaced_tenant w) xs)
  closed n w [] is shut = tt
  closed n w (x ∷ xs) is shut = elim (Bool-cases (x.id == w.id)) [
    | inl same ↦ rw same ((λ _. shut), closed n w xs is shut)
    | inr differs ↦ rw differs ((λ at. absurd (ground (arith, at, is))), closed n w xs is shut)
  ]

  active_only :
      (s : t.State) (slug : String) (y : Tenant)
      → get_active_tenant_by_slug t s slug ≡ ok y
      → (get_tenant_by_slug t s slug ≡ some y) × (y.is_active ≡ true)
  unfolding get_active_tenant_by_slug
  active_only s slug y h = if_active_ok (get_tenant_by_slug t s slug) y h
    where
      guarded :
          (b : Bool) (z y : Tenant)
          → (if not b then err (not_found "Tenant not found") else ok z) ≡ ok y
          → (b ≡ true) × (z ≡ y)
      guarded true z y h = (refl, cc)
      guarded false z y h = cc

      if_active_ok :
          (o : Option Tenant) (y : Tenant)
          → if_active t o ≡ ok y
          → (o ≡ some y) × (y.is_active ≡ true)
      if_active_ok none y h = cc
      if_active_ok (some z) y h =
          let (active, is_y) = guarded z.is_active z y h in
          (ap some is_y, subst (λ (w : Tenant). w.is_active ≡ true) is_y active)

  update_found :
      (tenant_id : ℕ) (s : TenantState t.State) (z : Tenant)
      → t.first_tenant s.table (λ x. x.id == tenant_id) ≡ some z
      → update_tenant t tenant_id none (some false) s ≡ (
        some (record z { is_active = false }),
        record s { table = t.save s.table (record z { is_active = false }) },
      )
  unfolding update_tenant get_tenant_by_id
  update_found tenant_id s z found = rw (found, update_tenant) refl

  deactivated :
      (tenant_id admin tenant : ℕ) (s : TenantState t.State) (z : Tenant)
      → t.first_tenant s.table (λ x. x.id == tenant_id) ≡ some z
      → (set_tenant_active_state t tenant_id false admin tenant s).1.table
        ≡ t.save s.table (record z { is_active = false })
  unfolding set_tenant_active_state
  deactivated tenant_id admin tenant s z found =
      let saved = update_found tenant_id s z found in
      rw (saved, set_tenant_active_state) (ap (λ x. x.1.table) saved)

  -- After a tenant was deactivated, no request finds it as an active one under any slug.
  pub set_tenant_active_state_closes :
      (tenant_id admin tenant : ℕ) (s : TenantState t.State) (x y : Tenant) (slug : String)
      → let run = set_tenant_active_state t tenant_id false admin tenant s in
        run.0 ≡ some x → get_active_tenant_by_slug t run.1.table slug ≡ ok y → y.id ≢ tenant_id
  unfolding set_tenant_active_state update_tenant get_tenant_by_id get_tenant_by_slug
  set_tenant_active_state_closes tenant_id admin tenant s x y slug h active is =
      elim (Option-cases (t.first_tenant s.table (λ x. x.id == tenant_id))) [
        | inl absent ↦ cc (rw (absent, set_tenant_active_state, update_tenant) at h)
        | inr (z, found) ↦
            let at : z.id ≡ tenant_id =
              (==_iff z.id tenant_id).0 (rows.first_some s.table _ z found) in
            let w : Tenant = record z { is_active = false } in
            let table = t.save s.table w in
            let shown : get_active_tenant_by_slug t table slug ≡ ok y =
              subst (λ table. get_active_tenant_by_slug t table slug ≡ ok y)
                (deactivated tenant_id admin tenant s z found) active in
            let (row, open_tenant) = active_only table slug y shown in
            let all : All (ClosedFor tenant_id) (t.tenants table) =
              rw (rows.tenants-save s.table w) (closed tenant_id w (t.tenants s.table) at refl) in
            let shut = rows.first_stored table _ y (ClosedFor tenant_id) row all is in
            false≢true (sym shut ∙ open_tenant)
      ]
