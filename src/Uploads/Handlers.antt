-- ===== src/Uploads/Handlers.antt =====
-- The check that the worker runs, app/services/upload_verification_service.py, and the two routes of
-- app/api/routes/files.py that take the identifier of a file.
use starter_backend_template.Prelude.{ℕ, not, ◌==◌, str_eq, if◌then◌else◌, Option, none, some}
use starter_backend_template.Errors.{http_exception, is_domain_error, Result, ok, err, Exec}
use starter_backend_template.Permissions.{User}
use starter_backend_template.Uploads.Stores.{UploadedFile}
use starter_backend_template.Uploads.Access.{pending, verified}
use starter_backend_template.Uploads.Content.{verify_stored_object_content}
use starter_backend_template.Uploads.Service.{
  Backends, PresignedUrl, S, get_presigned_download_url, delete_row, delete_uploaded_file,
  get_uploaded_file,
}

module _ (v : Backends) where
  open v use {settings, scanning}

  -- A file that could not be verified is removed, whatever the storage answers to the deletion.
  abbrev pub discard : UploadedFile → (S v) → (S v)
  discard f s =
      delete_row v f (record s { objects = (v.objects.delete_object s.objects f.object_key).1 })

  -- What follows the check of the content.
  abbrev pub conclude : UploadedFile → Result (Unit {0}) → Exec (S v) (Unit {0})
  conclude f (ok _) s = (
    ok tt,
    record s { table = v.table.save s.table (record f { verification_status = verified }) },
  )
  conclude f (err e) s = if is_domain_error e then (ok tt, discard f s) else (err e, s)

  -- What is done with the row that the query found.
  abbrev pub verify_found : Option UploadedFile → Exec (S v) (Unit {0})
  verify_found none s = (ok tt, s)
  verify_found (some f) s =
      if not (str_eq f.verification_status pending)
      then (ok tt, s)
      else conclude f
          (verify_stored_object_content v.objects scanning settings s.objects f.object_key
            f.content_type f.size_bytes f.filename)
          s

  unfoldable pub verify_presigned_upload_in_worker : (uploaded_file_id : ℕ) → Exec (S v) (Unit {0})
  verify_presigned_upload_in_worker uploaded_file_id s =
      verify_found (v.table.first_file s.table (λ f. f.id == uploaded_file_id)) s

  -- app/api/routes/files.py: the two routes that take the identifier of a file.
  unfoldable pub get_download_url : (file_id : ℕ) (current_user : User) → Exec (S v) PresignedUrl
  get_download_url file_id current_user s =
      elim (get_uploaded_file v file_id current_user.tenant_id s) [
        | none ↦ (err (http_exception 404 "File not found"), s)
        | some uploaded_file ↦ get_presigned_download_url v uploaded_file current_user s
      ]

  unfoldable pub delete_file : (file_id : ℕ) (current_user : User) → Exec (S v) (Unit {0})
  delete_file file_id current_user s = elim (get_uploaded_file v file_id current_user.tenant_id s) [
    | none ↦ (err (http_exception 404 "File not found"), s)
    | some uploaded_file ↦ delete_uploaded_file v uploaded_file current_user s
  ]
