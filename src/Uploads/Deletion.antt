-- ===== src/Uploads/Deletion.antt =====
-- What the deletion of a file leaves of the files of other tenants: `delete_uploaded_file` of
-- app/services/storage_service.py under the route of app/api/routes/files.py.
use starter_backend_template.Prelude.{
  ℕ, ◌≡◌, refl, ap, ◌∙◌, ◌⊎◌, inl, inr, false, not, ◌==◌, List, [], ◌∷◌, any, All, select, Text,
  arith, Bool-cases, Option-cases, ==_iff, ==_refl,
}
use starter_backend_template.Errors.{forbidden, raise_if, modify, ◌>>◌}
use starter_backend_template.Errors.Chains.{bind_state}
use starter_backend_template.Permissions.{User}
use starter_backend_template.Uploads.ObjectKeys.{IsKeyOf}
use starter_backend_template.Uploads.Stores.{UploadedFile, has_id, IsFileTable}
use starter_backend_template.Uploads.Access.{can_delete_uploaded_file}
use starter_backend_template.Uploads.Service.{
  Backends, delete_row, S, delete_object, delete_uploaded_file, get_uploaded_file,
}
use starter_backend_template.Uploads.Handlers.{delete_file}
use starter_backend_template.Uploads.Rows.{IsOwned, IsDistinct}
use starter_backend_template.Uploads.Changes.{files_of}
use starter_backend_template.Uploads.Lifecycle.{Reachable, Reachable-IsSound}

-- The rows of the other tenants.
abbrev pub others : ℕ → List UploadedFile → List UploadedFile
others tenant_id fs = select (λ f. not (f.tenant_id == tenant_id)) fs

abbrev without : ℕ → List UploadedFile → List UploadedFile
without n fs = select (λ g. not (has_id n g)) fs

-- Removing the identifier of the row leaves the rows of the other tenants.
abbrev SparesOthers : ℕ → List UploadedFile → UploadedFile → Type 0
SparesOthers t fs g = g.tenant_id ≡ t → others t (without g.id fs) ≡ others t fs

without_absent : (n : ℕ) (fs : List UploadedFile) → any (has_id n) fs ≡ false → without n fs ≡ fs
without_absent n [] h = refl
without_absent n (g ∷ fs) h =
    let here : (g.id == n) ≡ false = ground arith in
    let rest : any (has_id n) fs ≡ false = ground arith in
    rw here (ap (λ x. g ∷ x) (without_absent n fs rest))

spares_behind :
    (t : ℕ) (f : UploadedFile) (fs gs : List UploadedFile)
    → any (has_id f.id) gs ≡ false
    → All (SparesOthers t fs) gs
    → All (SparesOthers t (f ∷ fs)) gs
spares_behind t f fs [] h a = tt
spares_behind t f fs (g ∷ gs) h (spares, a) =
    let other : (f.id == g.id) ≡ false = ground arith in
    let rest : any (has_id f.id) gs ≡ false = ground arith in
    (
      λ e. elim (Bool-cases (f.tenant_id == t)) [
        | inl own ↦ rw other (rw own (spares e))
        | inr foreign ↦ rw other (rw foreign (ap (λ x. f ∷ x) (spares e)))
      ],
      spares_behind t f fs gs rest a,
    )

all_spare : (t : ℕ) (fs : List UploadedFile) → IsDistinct fs → All (SparesOthers t fs) fs
all_spare t [] d = tt
all_spare t (f ∷ fs) (new, d) = (
  λ e. rw (==_refl f.id) (rw (without_absent f.id fs new) (rw e (rw (==_refl t) refl))),
  spares_behind t f fs fs new (all_spare t fs d),
)

module _ (v : Backends) (rows : IsFileTable v.table) where
  -- The only object that the storage was asked to delete, if any, is one in the directory of a tenant.
  abbrev pub DeletesOf : ℕ → S v → S v → Type 0
  DeletesOf t s s' =
      (s'.objects ≡ s.objects)
      ⊎ ((key : Text) × (owner_id : ℕ) × IsKeyOf key t owner_id
          × (s'.objects ≡ (v.objects.delete_object s.objects key).1))

  -- The deletion of a file of one's tenant, of which the row is found.
  delete_uploaded_file_isolated :
      (f : UploadedFile) (user : User) (s : S v)
      → IsKeyOf f.object_key user.tenant_id f.owner_id
      → others user.tenant_id (without f.id (files_of v rows s))
        ≡ others user.tenant_id (files_of v rows s)
      → let s' = (delete_uploaded_file v f user s).1 in
        (others user.tenant_id (files_of v rows s') ≡ others user.tenant_id (files_of v rows s))
        × DeletesOf user.tenant_id s s'
  unfolding delete_uploaded_file delete_object
  delete_uploaded_file_isolated f user s owned spares =
      let P = λ (s' : S v).
        (others user.tenant_id (files_of v rows s') ≡ others user.tenant_id (files_of v rows s))
        × DeletesOf user.tenant_id s s' in
      bind_state
        (raise_if (not (can_delete_uploaded_file user f)) (forbidden "Insufficient permissions"))
        (λ _. delete_object v f.object_key >> modify (delete_row v f)) s P (refl, inl refl)
        (λ _ _.
          bind_state (delete_object v f.object_key) (λ _. modify (delete_row v f)) s P
            (refl, inr (f.object_key, f.owner_id, owned, refl))
            (λ _ _. (
              ap (others user.tenant_id) (rows.files-delete s.table f) ∙ spares,
              inr (f.object_key, f.owner_id, owned, refl),
            )))

  -- Whatever the route that deletes a file does, the rows of the other tenants stay as they are, and the
  -- storage is asked to delete no object outside the directory of the tenant of the user.
  pub delete_file_isolated :
      (s : S v) (file_id : ℕ) (user : User)
      → Reachable v rows s
      → let s' = (delete_file v file_id user s).1 in
        (others user.tenant_id (files_of v rows s') ≡ others user.tenant_id (files_of v rows s))
        × DeletesOf user.tenant_id s s'
  unfolding delete_file get_uploaded_file
  delete_file_isolated s file_id user reached =
      elim (Option-cases (get_uploaded_file v file_id user.tenant_id s)) [
        | inl absent ↦ rw (absent, delete_file) (refl, inl refl)
        | inr (f, found) ↦
            let (owned, distinct) = Reachable-IsSound v rows s reached in
            let match = rows.first_file_some s.table _ f found in
            let tenant : f.tenant_id ≡ user.tenant_id =
              (==_iff f.tenant_id user.tenant_id).0 (ground (arith, match)) in
            let mine = rows.first_file_stored s.table _ f IsOwned found owned in
            let spares =
              rows.first_file_stored s.table _ f (SparesOthers user.tenant_id (files_of v rows s))
                found (all_spare user.tenant_id (files_of v rows s) distinct) tenant in
            rw (found, delete_file)
              (delete_uploaded_file_isolated f user s (rw (← tenant) mine) spares)
      ]
