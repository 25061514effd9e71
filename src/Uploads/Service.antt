-- ===== src/Uploads/Service.antt =====
-- The operations of `StorageService` in app/services/storage_service.py and
-- `verify_presigned_upload_in_worker` of app/services/upload_verification_service.py. The storage, the
-- table, Redis and the scanner are parameters. A command of Redis that fails is not modelled.
use starter_backend_template.Prelude.{
  ℕ, ◌⊎◌, inl, inr, String, not, ◌==◌, ◌&&◌, if◌then◌else◌, Option, none, some, Text, codes, take,
  is_nonempty,
}
use starter_backend_template.Errors.{
  S3Error, forbidden, service_unavailable, s3_error, Result, ok, err, Exec, pure, lift, gets,
  modify, raise_if, ◌>>=◌, ◌>>◌,
}
use starter_backend_template.Permissions.{User}
use starter_backend_template.Queue.Redis.{Redis}
use starter_backend_template.Queue.Job.{num, obj, field, end, Codec, Job}
use starter_backend_template.Queue.Backoff.{WorkerSettings}
use starter_backend_template.Queue.Ops.{enqueue_job}
use starter_backend_template.Worker.{verify_presigned_upload_job}
use starter_backend_template.Uploads.Validation.{
  Bytes, UploadSettings, Scanning, validate_upload_filename, validate_declared_content_type,
  validate_content_sniff, ensure_clean,
}
use starter_backend_template.Uploads.ObjectKeys.{
  build_object_key, ensure_object_key_belongs_to_owner,
}
use starter_backend_template.Uploads.Spool.{validate_file_size, spool_upload_stream_limited}
use starter_backend_template.Uploads.Stores.{UploadedFile, FileTable, ObjectStore}
use starter_backend_template.Uploads.Access.{
  pending, verified, can_access_uploaded_file, can_delete_uploaded_file,
  ensure_upload_is_downloadable,
}
use starter_backend_template.Uploads.Content.{verify_stored_object_metadata}

-- The storage, the table, Redis and the scanner, with the settings of the uploads and of the worker.
pub record Backends : Type 1 where
  pub objects : ObjectStore
  pub table : FileTable
  pub redis : Redis
  pub codec : Codec
  pub worker_settings : WorkerSettings
  pub scanning : Scanning
  pub settings : UploadSettings

pub record UploadState (O F Q : Type 0) : Type 0 where
  pub objects : O
  pub table : F
  pub queue : Q

-- `UploadFile` of FastAPI, with the bytes that its file holds.
pub record UploadFile : Type 0 where
  pub filename : Option Text
  pub content_type : Option Text
  pub file : Bytes

pub record PresignedUrl : Type 0 where
  pub url : Text
  pub expires_in_seconds : ℕ

-- `value or default`
abbrev pub or_text : Option Text → Text → Text
or_text none default = default
or_text (some t) default = if is_nonempty t then t else default

-- `except (BotoCoreError, ClientError) as exc: raise ServiceUnavailableError(message) from exc`
abbrev pub or_unavailable : {A : Type 0} → String → S3Error ⊎ A → Result A
or_unavailable message (inl e) = err (service_unavailable message)
or_unavailable message (inr a) = ok a

-- A call that the provider does not guard.
abbrev pub or_s3_error : {A : Type 0} → S3Error ⊎ A → Result A
or_s3_error (inl e) = err (s3_error e)
or_s3_error (inr a) = ok a

module _ (v : Backends) where
  open v use {settings, scanning}

  abbrev pub S : Type 0
  S = UploadState v.objects.State v.table.State v.redis.State

  -- `provider.upload_fileobj` under the handler of `upload`.
  unfoldable pub upload_fileobj : Text → Bytes → Text → Exec S (Unit {0})
  upload_fileobj object_key body content_type s =
      let (answer, objects) = v.objects.upload_fileobj s.objects object_key body content_type in
      (or_unavailable "Object storage upload failed" answer, record s { objects = objects })

  -- `db.add(uploaded_file)`, `db.commit()` and `db.refresh(uploaded_file)`
  unfoldable pub add_file : UploadedFile → Exec S UploadedFile
  add_file f s = let (r, table) = v.table.add s.table f in (r, record s { table = table })

  -- The row that an upload makes; its identifier is the database's.
  abbrev pub new_file : User → (object_key filename content_type : Text) → ℕ → String → UploadedFile
  new_file owner object_key filename content_type size_bytes status = record {
    id = 0;
    tenant_id = owner.tenant_id;
    owner_id = owner.id;
    object_key = object_key;
    filename = filename;
    content_type = content_type;
    size_bytes = size_bytes;
    verification_status = status;
  }

  -- What follows the checks: the object is stored under a new key, and its row added.
  unfoldable pub store_upload :
      (owner : User) (filename content_type : Text)
      → Bytes
      → (size_bytes : ℕ) (uuid_hex : Text) → Exec S UploadedFile
  store_upload owner filename content_type spool size_bytes uuid_hex = do
    let object_key = build_object_key owner.tenant_id owner.id filename uuid_hex
    upload_fileobj object_key spool content_type
    add_file (new_file owner object_key filename content_type size_bytes verified)

  unfoldable pub upload : (owner : User) → UploadFile → (uuid_hex : Text) → Exec S UploadedFile
  upload owner file uuid_hex = do
    filename ← lift (validate_upload_filename (or_text file.filename (codes "upload")))
    content_type ← lift (
        validate_declared_content_type scanning settings
          (some (or_text file.content_type (codes "application/octet-stream"))))
    (spool, size_bytes) ← lift (spool_upload_stream_limited settings file.file)
    lift (validate_file_size settings size_bytes)
    lift (validate_content_sniff content_type (take 512 spool))
    lift (ensure_clean scanning settings spool filename)
    store_upload owner filename content_type spool size_bytes uuid_hex

  -- The provider's `verify_bucket_access`.
  unfoldable pub verify_bucket_access : Exec S (Unit {0})
  verify_bucket_access s =
      (or_unavailable "Object storage bucket is not reachable" (v.objects.head_bucket s.objects), s)

  unfoldable pub create_presigned_upload :
      (owner : User) (filename content_type uuid_hex : Text) → Exec S (Text × PresignedUrl)
  create_presigned_upload owner filename content_type uuid_hex = do
    safe_filename ← lift (validate_upload_filename filename)
    normalized_content_type ←
        lift (validate_declared_content_type scanning settings (some content_type))
    verify_bucket_access
    let object_key = build_object_key owner.tenant_id owner.id safe_filename uuid_hex
    objects ← gets (λ (s : S). s.objects)
    url ← lift (
        or_s3_error (
          v.objects.presign_put objects object_key normalized_content_type
            settings.upload_presigned_url_expire_seconds))
    pure (
      object_key,
      record { url = url; expires_in_seconds = settings.upload_presigned_url_expire_seconds },
    )

  unfoldable pub enqueue_verify_presigned_upload_job :
      ℕ → (job_id : Text) → Option Text → Exec S Job
  enqueue_verify_presigned_upload_job uploaded_file_id job_id request_id s =
      let (job, queue) =
        enqueue_job v.redis v.codec v.worker_settings verify_presigned_upload_job
          (obj (field (codes "uploaded_file_id") (num uploaded_file_id) end)) job_id request_id
          s.queue in
      (ok job, record s { queue = queue })

  -- The row of a presigned upload is added and its check enqueued.
  unfoldable pub register_upload :
      UploadedFile → (job_id : Text) → Option Text → Exec S UploadedFile
  register_upload f job_id request_id = do
    uploaded_file ← add_file f
    enqueue_verify_presigned_upload_job uploaded_file.id job_id request_id
    pure uploaded_file

  unfoldable pub complete_presigned_upload :
      (owner : User) (object_key filename content_type : Text) (size_bytes : ℕ) (job_id : Text)
      → Option Text
      → Exec S UploadedFile
  complete_presigned_upload owner object_key filename content_type size_bytes job_id request_id = do
    safe_filename ← lift (validate_upload_filename filename)
    normalized_content_type ←
        lift (validate_declared_content_type scanning settings (some content_type))
    lift (validate_file_size settings size_bytes)
    lift (ensure_object_key_belongs_to_owner object_key owner.tenant_id owner.id)
    objects ← gets (λ (s : S). s.objects)
    lift (
        verify_stored_object_metadata v.objects scanning settings objects object_key
          normalized_content_type size_bytes)
    register_upload
        (new_file owner object_key safe_filename normalized_content_type size_bytes pending) job_id
        request_id

  -- The URL with the time that it is good for.
  abbrev pub signed_url : Result Text → Result PresignedUrl
  signed_url (err e) = err e
  signed_url (ok url) =
      ok (record { url = url; expires_in_seconds = settings.upload_presigned_url_expire_seconds })

  -- The provider's `generate_presigned_download_url` under the handler of its caller.
  unfoldable pub generate_presigned_download_url : Text → Exec S PresignedUrl
  generate_presigned_download_url object_key s = (
    signed_url (
        or_unavailable "Object storage download URL generation failed" (
          v.objects.presign_get s.objects object_key settings.upload_presigned_url_expire_seconds)),
    s,
  )

  unfoldable pub get_presigned_download_url : UploadedFile → User → Exec S PresignedUrl
  get_presigned_download_url uploaded_file current_user = do
    raise_if (not (can_access_uploaded_file current_user uploaded_file))
        (forbidden "Insufficient permissions")
    lift (ensure_upload_is_downloadable uploaded_file)
    generate_presigned_download_url uploaded_file.object_key

  -- `provider.delete_object` under the handler of `delete_uploaded_file`.
  unfoldable pub delete_object : Text → Exec S (Unit {0})
  delete_object object_key s =
      let (answer, objects) = v.objects.delete_object s.objects object_key in
      (or_unavailable "Object storage delete failed" answer, record s { objects = objects })

  -- `db.delete(uploaded_file)` and `db.commit()`
  abbrev pub delete_row : UploadedFile → S → S
  delete_row f s = record s { table = v.table.delete s.table f }

  unfoldable pub delete_uploaded_file : UploadedFile → User → Exec S (Unit {0})
  delete_uploaded_file uploaded_file current_user = do
    raise_if (not (can_delete_uploaded_file current_user uploaded_file))
        (forbidden "Insufficient permissions")
    delete_object uploaded_file.object_key
    modify (delete_row uploaded_file)

  unfoldable pub get_uploaded_file : (file_id tenant_id : ℕ) → S → Option UploadedFile
  get_uploaded_file file_id tenant_id s =
      v.table.first_file s.table (λ f. f.id == file_id && f.tenant_id == tenant_id)
