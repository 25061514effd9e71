-- ===== src/Examples/TenantTests.antt =====
-- The theorems on tenants at a table in memory.
use starter_backend_template.Prelude.{
  ℕ, suc, ◌≡◌, ◌≢◌, refl, ap, String, Bool, true, false, none, List, [], ◌∷◌, map,
}
use starter_backend_template.Errors.{bad_request, ok, err}
use starter_backend_template.Tenants.{
  Tenant, replaced_tenant, TenantTable, IsTenantTable, TenantState, get_tenant_by_slug,
  get_tenant_by_id, get_active_tenant_by_slug, create_tenant, update_tenant, provision_tenant,
  set_tenant_active_state,
}
use starter_backend_template.Tenants.Provisioning.{
  provision_tenant_once, set_tenant_active_state_closes,
}
use starter_backend_template.Examples.Tables.{find, find-some, find-none, find_stored}

-- The rows, with the last identifier that was given.
abbrev Rows : Type 0
Rows = ℕ × List Tenant

abbrev row : ℕ → String → String → Bool → Tenant
row n slug name b = record { id = suc n; slug = slug; name = name; is_active = b }

abbrev pub tenants : TenantTable
tenants = record {
  State = Rows;
  tenants = λ s. s.1;
  first_tenant = λ s p. find p s.1;
  add = λ s slug name b. (ok (row s.0 slug name b), (suc s.0, row s.0 slug name b ∷ s.1));
  save = λ s x. (s.0, map (replaced_tenant x) s.1);
}

added :
    (s : Rows) (slug name : String) (b : Bool) (x : Tenant)
    → ok (row s.0 slug name b) ≡ ok x
    → (n : ℕ) × (record { id = n; slug = slug; name = name; is_active = b } ≡ x)
      × (row s.0 slug name b ∷ s.1 ≡ x ∷ s.1)
added s slug name b x e =
    let same : row s.0 slug name b ≡ x = cc in (suc s.0, same, ap (λ z. z ∷ s.1) same)

tenants_lawful : IsTenantTable tenants
tenants_lawful = record {
  first_some = λ s p x e. find-some p s.1 x e;
  first_none = λ s p e. find-none p s.1 e;
  first_stored = λ s p x P e all. find_stored p s.1 x P e all;
  tenants-add_ok = λ s slug name b x e. added s slug name b x e;
  tenants-add_err = λ s slug name b e. cc;
  tenants-save = λ s x. refl;
}

abbrev one : TenantState Rows
one = record { table = (1, row 0 "default" "Default" true ∷ []); audits = [] }

provision_tenant_once_example :
    let x = row 1 "acme" "Acme" true in
    (get_tenant_by_slug tenants one.table "acme" ≡ none)
    × (x.slug ≡ "acme")
    × (x.name ≡ "Acme")
    × (x.is_active ≡ true)
    × ((provision_tenant tenants "acme" "Other" 4 1
          (provision_tenant tenants "acme" "Acme" 3 1 one).1).0
        ≡ err (bad_request "Tenant with this slug already exists"))
unfolding provision_tenant create_tenant get_tenant_by_slug
provision_tenant_once_example =
    provision_tenant_once tenants tenants_lawful "acme" "Acme" "Other" 3 1 4 1 one
      (row 1 "acme" "Acme" true) refl

-- Two tenants, of which one is deactivated.
abbrev two : TenantState Rows
two = record {
  table = (2, row 0 "default" "Default" true ∷ row 1 "acme" "Acme" true ∷ []);
  audits = [];
}

set_tenant_active_state_closes_example : (row 0 "default" "Default" true).id ≢ 2
unfolding set_tenant_active_state update_tenant get_tenant_by_id get_tenant_by_slug
    get_active_tenant_by_slug
set_tenant_active_state_closes_example =
    set_tenant_active_state_closes tenants tenants_lawful 2 3 1 two (row 1 "acme" "Acme" false)
      (row 0 "default" "Default" true) "default" refl refl
