-- ===== src/Uploads/Access.antt =====
-- Who may download and delete a file, and which files can be downloaded:
-- `can_access_uploaded_file`, `can_delete_uploaded_file` and `ensure_upload_is_downloadable` of
-- app/services/storage_service.py.
use starter_backend_template.Prelude.{
  ◌≡◌, refl, ◌↔◌, ◌⊎◌, String, Bool, true, false, not, ◌&&◌, ◌==◌, str_eq, if◌then◌else◌, arith,
  eq_iff,
}
use starter_backend_template.Errors.{conflict, not_found, Result, ok, err}
use starter_backend_template.Permissions.{
  files_download, files_download_self, files_delete, files_delete_self, get_permissions_for_role,
  user_permissions, tenant_admin_permissions, platform_admin_permissions, User, user_has_permission,
}
use starter_backend_template.Permissions.Access.{IsAdmin, IsPair, decides_iff}
use starter_backend_template.Uploads.Stores.{UploadedFile}

-- The values of `UploadVerificationStatus`.
abbrev pub pending : String
pending = "pending"

abbrev pub verified : String
verified = "verified"

unfoldable pub can_access_uploaded_file : User → UploadedFile → Bool
can_access_uploaded_file current_user uploaded_file =
    if not (current_user.tenant_id == uploaded_file.tenant_id)
    then false
    else if user_has_permission current_user files_download
    then true
    else uploaded_file.owner_id == current_user.id
      && user_has_permission current_user files_download_self

unfoldable pub can_delete_uploaded_file : User → UploadedFile → Bool
can_delete_uploaded_file current_user uploaded_file =
    if not (current_user.tenant_id == uploaded_file.tenant_id)
    then false
    else if user_has_permission current_user files_delete
    then true
    else uploaded_file.owner_id == current_user.id
      && user_has_permission current_user files_delete_self

unfoldable pub ensure_upload_is_downloadable : UploadedFile → Result (Unit {0})
ensure_upload_is_downloadable uploaded_file =
    if str_eq uploaded_file.verification_status pending
    then err (conflict "File verification is still in progress")
    else if not (str_eq uploaded_file.verification_status verified)
    then err (not_found "File not found")
    else ok tt

download-IsPair : IsPair files_download files_download_self
unfolding get_permissions_for_role user_permissions tenant_admin_permissions
    platform_admin_permissions
download-IsPair = record { user_p = refl; user_q = refl; admin = refl; platform = refl }

delete-IsPair : IsPair files_delete files_delete_self
unfolding get_permissions_for_role user_permissions tenant_admin_permissions
    platform_admin_permissions
delete-IsPair = record { user_p = refl; user_q = refl; admin = refl; platform = refl }

-- A file of one's tenant, for an administrator, or for its owner as a plain user.
abbrev pub MayHandle : User → UploadedFile → Type 0
MayHandle u f =
    (u.tenant_id ≡ f.tenant_id) × (IsAdmin u ⊎ ((u.role ≡ "user") × (f.owner_id ≡ u.id)))

pub can_access_uploaded_file_iff :
    (u : User) (f : UploadedFile) → (can_access_uploaded_file u f ≡ true) ↔ MayHandle u f
unfolding can_access_uploaded_file user_has_permission
can_access_uploaded_file_iff u f =
    decides_iff files_download files_download_self u.role u.tenant_id f.tenant_id f.owner_id u.id
      download-IsPair

pub can_delete_uploaded_file_iff :
    (u : User) (f : UploadedFile) → (can_delete_uploaded_file u f ≡ true) ↔ MayHandle u f
unfolding can_delete_uploaded_file user_has_permission
can_delete_uploaded_file_iff u f =
    decides_iff files_delete files_delete_self u.role u.tenant_id f.tenant_id f.owner_id u.id
      delete-IsPair

downloadable_iff :
    (status : String)
    → let checked : Result (Unit {0}) =
        if str_eq status pending
        then err (conflict "File verification is still in progress")
        else if not (str_eq status verified)
        then err (not_found "File not found")
        else ok tt in
      (checked ≡ ok tt) ↔ (status ≡ verified)
downloadable_iff status = (λ h. ground (arith, eq_iff status verified), λ h. rw h refl)

pub ensure_upload_is_downloadable_iff :
    (f : UploadedFile)
    → (ensure_upload_is_downloadable f ≡ ok tt) ↔ (f.verification_status ≡ verified)
unfolding ensure_upload_is_downloadable
ensure_upload_is_downloadable_iff f = downloadable_iff f.verification_status
