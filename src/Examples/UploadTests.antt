-- ===== src/Examples/UploadTests.antt =====
-- The theorems on uploaded files at one user, one file and a storage in memory.
use starter_backend_template.Prelude.{
  ◌≡◌, ◌⊎◌, ◌≤◌, refl, none, some, [], Text, codes, arith, inr, take, length, decimal,
}
use starter_backend_template.Errors.{Error, ok, err}
use starter_backend_template.Permissions.{
  user_has_permission, get_permissions_for_role, user_permissions,
}
use starter_backend_template.Uploads.Validation.{
  validate_upload_filename, validate_content_type_format, validate_declared_content_type,
  allowed_content_types, sniff_content_type, validate_content_sniff, ensure_malware_scan_is_clean,
  run_malware_scan, infected_filename_scan, ensure_clean,
}
use starter_backend_template.Uploads.ObjectKeys.{
  build_object_key, build_tenant_object_key_prefix, expected_prefix,
  ensure_object_key_belongs_to_owner, IsKeyOf, ensure_object_key_belongs_to_owner_unique,
}
use starter_backend_template.Uploads.Spool.{
  validate_file_size, spool_upload_stream_limited, read_whole,
  spool_upload_stream_limited-read_whole,
}
use starter_backend_template.Uploads.Stores.{UploadedFile}
use starter_backend_template.Uploads.Access.{
  MayHandle, can_access_uploaded_file, ensure_upload_is_downloadable, verified,
}
use starter_backend_template.Uploads.Content.{IsClean}
use starter_backend_template.Uploads.Service.{
  PresignedUrl, S, upload_fileobj, add_file, store_upload, upload, get_uploaded_file,
  generate_presigned_download_url, get_presigned_download_url,
}
use starter_backend_template.Uploads.Handlers.{
  get_download_url, delete_file, verify_presigned_upload_in_worker, discard,
}
use starter_backend_template.Uploads.Rows.{status_of, storing, Move}
use starter_backend_template.Uploads.Changes.{files_of}
use starter_backend_template.Uploads.Lifecycle.{start, next, uploads, Step-Move}
use starter_backend_template.Uploads.Serving.{
  IsGenuineFile, confirm, verify_presigned_upload_in_worker_cases, get_download_url_allowed,
}
use starter_backend_template.Uploads.Acceptance.{upload_accepted}
use starter_backend_template.Uploads.Deletion.{others, DeletesOf, delete_file_isolated}
use starter_backend_template.Examples.Files.{
  table_lawful, upload_settings, backends, no_files, dora, pdf, waiting_file, one_waiting,
}

abbrev hex : Text
hex = codes "0"

-- The state after an upload.
abbrev uploaded : S backends
uploaded = (upload backends dora pdf hex no_files).1

ensure_object_key_belongs_to_owner_unique_example :
    (waiting_file.tenant_id ≡ 12) × (waiting_file.owner_id ≡ 7)
unfolding ensure_object_key_belongs_to_owner expected_prefix build_tenant_object_key_prefix decimal
ensure_object_key_belongs_to_owner_unique_example =
    ensure_object_key_belongs_to_owner_unique (codes "tenants/12/uploads/7/0-a.pdf") 12 7 12 7 refl
      refl

spool_upload_stream_limited-read_whole_example :
    spool_upload_stream_limited upload_settings (codes "%PDF-1.7")
    ≡ read_whole 20 (codes "%PDF-1.7") [] 0
spool_upload_stream_limited-read_whole_example =
    spool_upload_stream_limited-read_whole upload_settings (codes "%PDF-1.7") (omega arith)

verify_presigned_upload_in_worker_cases_example :
    let run = verify_presigned_upload_in_worker backends 1 one_waiting in
    (IsGenuineFile backends waiting_file one_waiting
      × (run ≡ (ok tt, confirm backends waiting_file one_waiting)))
    ⊎ ((IsGenuineFile backends waiting_file one_waiting → ⊥)
        × ((run ≡ (ok tt, discard backends waiting_file one_waiting))
            ⊎ ((e : Error) × (run ≡ (err e, one_waiting)))))
verify_presigned_upload_in_worker_cases_example =
    verify_presigned_upload_in_worker_cases backends 1 one_waiting waiting_file refl refl

Step-Move_example : Move storing 1 none (status_of (files_of backends table_lawful uploaded) 1)
Step-Move_example =
    Step-Move backends table_lawful no_files uploaded (start no_files refl)
      (uploads dora pdf hex no_files) 1

upload_accepted_example :
    let g = record waiting_file { verification_status = verified } in
    (length (codes "%PDF-1.7") ≤ 20)
    × (g.size_bytes ≡ length (codes "%PDF-1.7"))
    × (sniff_content_type (take 512 (codes "%PDF-1.7")) ≡ some g.content_type)
    × IsClean backends.objects backends.scanning backends.settings (codes "%PDF-1.7") g.filename
    × ((backends.objects.upload_fileobj no_files.objects g.object_key
          (codes "%PDF-1.7")
          g.content_type).0
        ≡ inr tt)
    × (g.tenant_id ≡ 12)
    × (g.owner_id ≡ 7)
    × (g.verification_status ≡ verified)
unfolding upload upload_fileobj store_upload add_file validate_upload_filename
    validate_content_type_format validate_declared_content_type allowed_content_types
    spool_upload_stream_limited validate_file_size validate_content_sniff sniff_content_type
    ensure_clean run_malware_scan infected_filename_scan ensure_malware_scan_is_clean
    build_object_key build_tenant_object_key_prefix decimal
upload_accepted_example =
    upload_accepted backends table_lawful dora pdf hex no_files
      (record waiting_file { verification_status = verified }) (omega arith) refl

abbrev link : PresignedUrl
link = record { url = codes "tenants/12/uploads/7/0-a.pdf"; expires_in_seconds = 300 }

get_download_url_allowed_example :
    (f : UploadedFile) × (get_uploaded_file backends 1 12 uploaded ≡ some f)
    × (f.id ≡ 1)
    × (status_of (files_of backends table_lawful uploaded) 1 ≡ some verified)
    × MayHandle dora f
    × (f.verification_status ≡ verified)
    × IsKeyOf f.object_key 12 f.owner_id
    × (backends.objects.presign_get uploaded.objects f.object_key 300
        ≡ inr (codes "tenants/12/uploads/7/0-a.pdf"))
unfolding get_uploaded_file get_download_url get_presigned_download_url
    generate_presigned_download_url can_access_uploaded_file ensure_upload_is_downloadable
    user_has_permission get_permissions_for_role user_permissions upload upload_fileobj store_upload
    add_file validate_upload_filename validate_content_type_format validate_declared_content_type
    allowed_content_types spool_upload_stream_limited validate_file_size validate_content_sniff
    sniff_content_type ensure_clean run_malware_scan infected_filename_scan
    ensure_malware_scan_is_clean build_object_key build_tenant_object_key_prefix decimal
get_download_url_allowed_example =
    get_download_url_allowed backends table_lawful uploaded 1 dora link
      (next no_files uploaded (start no_files refl) (uploads dora pdf hex no_files)) refl

delete_file_isolated_example :
    let s' = (delete_file backends 1 dora uploaded).1 in
    (others 12 (files_of backends table_lawful s')
      ≡ others 12 (files_of backends table_lawful uploaded))
    × DeletesOf backends table_lawful 12 uploaded s'
delete_file_isolated_example =
    delete_file_isolated backends table_lawful uploaded 1 dora
      (next no_files uploaded (start no_files refl) (uploads dora pdf hex no_files))
