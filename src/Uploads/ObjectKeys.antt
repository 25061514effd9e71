-- ===== src/Uploads/ObjectKeys.antt =====
-- The keys under which objects are stored: `build_object_key` and
-- `ensure_object_key_belongs_to_owner` of app/services/storage_service.py, and the prefixes of
-- app/services/tenant_service.py.
use starter_backend_template.Prelude.{
  ℕ, ◌≡◌, refl, sym, Bool, true, not, ◌==◌, if◌then◌else◌, [], ◌∷◌, ◌++◌, map, Text, codes,
  starts_with, decimal, decimal-injective, decimal-IsDigit, same_field, starts_with-append,
  starts_with-drop, arith, subst, ◌↔◌,
}
use starter_backend_template.Errors.{bad_request, Result, ok, err}

unfoldable pub build_tenant_cache_prefix : ℕ → Text
build_tenant_cache_prefix tenant_id = codes "tenant:" ++ decimal tenant_id

unfoldable pub build_tenant_object_key_prefix : ℕ → Text
build_tenant_object_key_prefix tenant_id = codes "tenants/" ++ decimal tenant_id

-- `s.replace(old, new)` for single characters
abbrev pub replace : ℕ → ℕ → Text → Text
replace old new s = map (λ c. if c == old then new else c) s

-- `uuid_hex` is the next `uuid7().hex`; 92 is a backslash and 95 an underscore.
unfoldable pub build_object_key : (tenant_id owner_id : ℕ) (filename uuid_hex : Text) → Text
build_object_key tenant_id owner_id filename uuid_hex =
    let safe_filename = replace 92 95 (replace 47 95 filename) in
    build_tenant_object_key_prefix tenant_id
    ++ (codes "/uploads/"
        ++ (decimal owner_id ++ (codes "/" ++ (uuid_hex ++ (codes "-" ++ safe_filename)))))

-- The prefix that `ensure_object_key_belongs_to_owner` expects.
unfoldable pub expected_prefix : (tenant_id owner_id : ℕ) → Text
expected_prefix tenant_id owner_id =
    build_tenant_object_key_prefix tenant_id
    ++ (codes "/uploads/" ++ (decimal owner_id ++ codes "/"))

unfoldable pub ensure_object_key_belongs_to_owner :
    (object_key : Text) (tenant_id owner_id : ℕ) → Result (Unit {0})
ensure_object_key_belongs_to_owner object_key tenant_id owner_id =
    if not (starts_with object_key (expected_prefix tenant_id owner_id))
    then err (bad_request "Invalid object key for current user")
    else ok tt

-- The key lies in the directory of a tenant and an owner.
abbrev pub IsKeyOf : Text → ℕ → ℕ → Type 0
IsKeyOf object_key tenant_id owner_id =
    ensure_object_key_belongs_to_owner object_key tenant_id owner_id ≡ ok tt

passed_iff :
    (b : Bool)
    → let checked : Result (Unit {0}) =
        if not b then err (bad_request "Invalid object key for current user") else ok tt in
      (checked ≡ ok tt) ↔ (b ≡ true)
passed_iff b = (λ h. ground arith, λ h. ground arith)

IsKeyOf-prefix : (s : Text) (t o : ℕ) → IsKeyOf s t o → starts_with s (expected_prefix t o) ≡ true
unfolding ensure_object_key_belongs_to_owner
IsKeyOf-prefix s t o h = (passed_iff (starts_with s (expected_prefix t o))).0 h

append_assoc : (a b c : Text) → (a ++ b) ++ c ≡ a ++ (b ++ c)
append_assoc [] b c = refl
append_assoc (x ∷ a) b c = rw (append_assoc a b c) refl

-- A key that is built passes the check of its tenant and its owner, whatever the file name.
pub build_object_key-IsKeyOf :
    (tenant_id owner_id : ℕ) (filename uuid_hex : Text)
    → IsKeyOf (build_object_key tenant_id owner_id filename uuid_hex) tenant_id owner_id
unfolding ensure_object_key_belongs_to_owner build_object_key expected_prefix
    build_tenant_object_key_prefix
build_object_key-IsKeyOf t o filename uuid_hex =
    let name = uuid_hex ++ (codes "-" ++ replace 92 95 (replace 47 95 filename)) in
    let shape : build_object_key t o filename uuid_hex ≡ expected_prefix t o ++ name =
      rw
        (append_assoc (codes "tenants/" ++ decimal t)
          (codes "/uploads/" ++ (decimal o ++ codes "/")) name)
        (rw (append_assoc (decimal o) (codes "/") name) refl) in
    (passed_iff (starts_with (build_object_key t o filename uuid_hex) (expected_prefix t o))).1 (
      subst (λ k. starts_with k (expected_prefix t o) ≡ true) (sym shape)
        (starts_with-append name (expected_prefix t o)))

-- A key passes the check of one tenant and one owner at most.
pub ensure_object_key_belongs_to_owner_unique :
    (object_key : Text) (tenant_id owner_id tenant_id' owner_id' : ℕ)
    → ensure_object_key_belongs_to_owner object_key tenant_id owner_id ≡ ok tt
    → ensure_object_key_belongs_to_owner object_key tenant_id' owner_id' ≡ ok tt
    → (tenant_id ≡ tenant_id') × (owner_id ≡ owner_id')
unfolding expected_prefix build_tenant_object_key_prefix
ensure_object_key_belongs_to_owner_unique key t o t' o' h h' =
    let rest = λ (t o : ℕ) (h : IsKeyOf key t o).
      starts_with-drop key (codes "tenants/")
        (decimal t ++ (codes "/uploads/" ++ (decimal o ++ codes "/"))) (IsKeyOf-prefix key t o h) in
    let (a, (r, p, q)) =
      same_field _ (decimal t) (decimal t') _ _ (decimal-IsDigit t) (decimal-IsDigit t')
        (rest t o h) (rest t' o' h') in
    let (b, _) =
      same_field _ (decimal o) (decimal o') [] [] (decimal-IsDigit o) (decimal-IsDigit o')
        (starts_with-drop r (codes "uploads/") (decimal o ++ codes "/") p)
        (starts_with-drop r (codes "uploads/") (decimal o' ++ codes "/") q) in
    (decimal-injective t t' a, decimal-injective o o' b)
