-- ===== src/Tenants.antt =====
-- The tenants: app/services/tenant_service.py and the lookup of app/api/dependencies/tenant.py. The
-- table of tenants is a parameter.
pub mod Provisioning
use starter_backend_template.Prelude.{
  ℕ, ◌≡◌, ◌≢◌, refl, sym, ap, subst, ◌∙◌, String, Bool, true, false, not, ◌==◌, str_eq,
  if◌then◌else◌, Option, none, some, List, [], ◌∷◌, All, any, map, arith, eq_iff, eq_refl,
  Option-cases, Bool-cases, inl, inr, ==_iff,
}
use starter_backend_template.Errors.{integrity_error, bad_request, not_found, Result, ok, err, Exec}

-- app/models/tenant.py, less the timestamps.
pub record Tenant : Type 0 where
  pub id : ℕ
  pub slug : String
  pub name : String
  pub is_active : Bool

-- The row with the identifier of another, replaced by that.
abbrev pub replaced_tenant : Tenant → Tenant → Tenant
replaced_tenant new old = if old.id == new.id then new else old

-- The rows, the first one that a query finds, and a row added or written, committed. A new row gets a
-- new identifier; the unique index on the slug may refuse it.
pub record TenantTable : Type 1 where
  pub State : Type 0
  pub tenants : State → List Tenant
  pub first_tenant : State → (Tenant → Bool) → Option Tenant
  pub add : State → (slug name : String) (is_active : Bool) → Result Tenant × State
  pub save : State → Tenant → State

pub record IsTenantTable (t : TenantTable) : Type 1 where
  pub first_some :
      (s : t.State) (p : Tenant → Bool) (x : Tenant) → t.first_tenant s p ≡ some x → p x ≡ true
  pub first_none :
      (s : t.State) (p : Tenant → Bool)
      → t.first_tenant s p ≡ none
      → All (λ x. p x ≡ false) (t.tenants s)
  pub first_stored :
      (s : t.State) (p : Tenant → Bool) (x : Tenant) (P : Tenant → Type 0)
      → t.first_tenant s p ≡ some x
      → All P (t.tenants s)
      → P x
  pub tenants-add_ok :
      (s : t.State) (slug name : String) (b : Bool) (x : Tenant)
      → (t.add s slug name b).0 ≡ ok x
      → (n : ℕ) × (record { id = n; slug = slug; name = name; is_active = b } ≡ x)
        × (t.tenants (t.add s slug name b).1 ≡ x ∷ t.tenants s)
  pub tenants-add_err :
      (s : t.State) (slug name : String) (b : Bool)
      → (t.add s slug name b).0 ≡ err integrity_error
      → t.tenants (t.add s slug name b).1 ≡ t.tenants s
  pub tenants-save :
      (s : t.State) (x : Tenant) → t.tenants (t.save s x) ≡ map (replaced_tenant x) (t.tenants s)

-- The calls of `create_audit_log`.
pub data Audit : Type 0 where
  audited : (tenant_id admin_id : ℕ) (action : String) → Audit

pub record TenantState (T : Type 0) : Type 0 where
  pub table : T
  pub audits : List Audit

-- `request.headers.get("X-Tenant-Slug", DEFAULT_TENANT_SLUG)`
unfoldable pub resolve_tenant_slug : Option String → String
resolve_tenant_slug none = "default"
resolve_tenant_slug (some slug) = slug

module _ (t : TenantTable) where
  unfoldable pub get_tenant_by_slug : t.State → String → Option Tenant
  get_tenant_by_slug s slug = t.first_tenant s (λ x. str_eq x.slug slug)

  unfoldable pub get_tenant_by_id : t.State → ℕ → Option Tenant
  get_tenant_by_id s tenant_id = t.first_tenant s (λ x. x.id == tenant_id)

  -- The test of the row that was found.
  abbrev pub if_active : Option Tenant → Result Tenant
  if_active none = err (not_found "Tenant not found")
  if_active (some tenant) =
      if not tenant.is_active then err (not_found "Tenant not found") else ok tenant

  unfoldable pub get_active_tenant_by_slug : t.State → String → Result Tenant
  get_active_tenant_by_slug s slug = if_active (get_tenant_by_slug s slug)

  -- The tenant of a request without a user, `get_request_tenant`.
  unfoldable pub get_request_tenant : t.State → (x_tenant_slug : Option String) → Result Tenant
  get_request_tenant s x_tenant_slug =
      get_active_tenant_by_slug s (resolve_tenant_slug x_tenant_slug)

  -- `if existing_tenant is not None`, or the insertion.
  abbrev pub create_if_free :
      Option Tenant → (slug name : String) → Exec (TenantState t.State) Tenant
  create_if_free (some existing) slug name s =
      (err (bad_request "Tenant with this slug already exists"), s)
  create_if_free none slug name s =
      ((t.add s.table slug name true).0, record s { table = (t.add s.table slug name true).1 })

  unfoldable pub create_tenant : (slug name : String) → Exec (TenantState t.State) Tenant
  create_tenant slug name s = create_if_free (get_tenant_by_slug s.table slug) slug name s

  -- `value if value is not None else old`
  abbrev pub or_old : {A : Type 0} → Option A → A → A
  or_old none old = old
  or_old (some new) old = new

  unfoldable pub update_tenant :
      (tenant_id : ℕ) (name : Option String) (is_active : Option Bool)
      → TenantState t.State
      → Option Tenant × TenantState t.State
  update_tenant tenant_id name is_active s = elim (get_tenant_by_id s.table tenant_id) [
    | none ↦ (none, s)
    | some tenant ↦
        let updated : Tenant = record tenant {
          name = or_old name tenant.name;
          is_active = or_old is_active tenant.is_active;
        } in
        (some updated, record s { table = t.save s.table updated })
  ]

  -- The audit log of a call that returned a tenant.
  abbrev pub with_audit : Audit → TenantState t.State → TenantState t.State
  with_audit a s = record s { audits = a ∷ s.audits }

  unfoldable pub provision_tenant :
      (slug name : String) (admin_id admin_tenant_id : ℕ) → Exec (TenantState t.State) Tenant
  provision_tenant slug name admin_id admin_tenant_id s =
      let (r, s') = create_tenant slug name s in
      elim r [
        | err e ↦ (err e, s')
        | ok tenant ↦ (ok tenant, with_audit (audited admin_tenant_id admin_id "tenant.created") s')
      ]

  unfoldable pub set_tenant_active_state :
      (tenant_id : ℕ) (is_active : Bool) (admin_id admin_tenant_id : ℕ)
      → TenantState t.State
      → Option Tenant × TenantState t.State
  set_tenant_active_state tenant_id is_active admin_id admin_tenant_id s =
      let (r, s') = update_tenant tenant_id none (some is_active) s in
      let action = if is_active then "tenant.activated" else "tenant.deactivated" in
      elim r [
        | none ↦ (none, s')
        | some tenant ↦ (some tenant, with_audit (audited admin_tenant_id admin_id action) s')
      ]
