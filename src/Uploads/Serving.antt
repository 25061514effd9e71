-- ===== src/Uploads/Serving.antt =====
-- Which files are verified, accepted and handed out by the services of
-- app/services/storage_service.py and app/services/upload_verification_service.py.
use starter_backend_template.Prelude.{
  ℕ, ◌≡◌, ap, ◌∙◌, refl, ◌⊎◌, String, true, not, ◌==◌, str_eq, some, Text, arith, Bool-cases,
  Option-cases, inl, inr, ==_iff,
}
use starter_backend_template.Errors.{
  Error, ok, err, is_domain_error, Result-cases, raise_if, forbidden, S3Error,
}
use starter_backend_template.Errors.Chains.{Returns, Returns-bind, Returns-lift}
use starter_backend_template.Permissions.{User}
use starter_backend_template.Uploads.ObjectKeys.{IsKeyOf}
use starter_backend_template.Uploads.Stores.{UploadedFile, IsFileTable}
use starter_backend_template.Uploads.Access.{
  pending, verified, can_access_uploaded_file, can_access_uploaded_file_iff,
  ensure_upload_is_downloadable, ensure_upload_is_downloadable_iff, MayHandle,
}
use starter_backend_template.Uploads.Content.{verify_stored_object_content, IsGenuine}
use starter_backend_template.Uploads.Genuine.{verify_stored_object_content_iff}
use starter_backend_template.Uploads.Service.{
  Backends, PresignedUrl, or_unavailable, signed_url, generate_presigned_download_url, S,
  get_presigned_download_url, get_uploaded_file,
}
use starter_backend_template.Uploads.Handlers.{
  discard, verify_presigned_upload_in_worker, get_download_url,
}
use starter_backend_template.Uploads.Rows.{IsOwned, status_of, IsDistinct-status_of}
use starter_backend_template.Uploads.Changes.{files_of}
use starter_backend_template.Uploads.Lifecycle.{Reachable, Reachable-IsSound}

module _ (v : Backends) where
  -- The object of a row is what the row declares.
  abbrev pub IsGenuineFile : UploadedFile → S v → Type 0
  IsGenuineFile f s =
      IsGenuine v.objects v.scanning v.settings s.objects f.object_key f.content_type f.size_bytes
        f.filename

  -- The state with the row marked.
  abbrev pub confirm : UploadedFile → S v → S v
  confirm f s = record s {
    table = v.table.save s.table (record f { verification_status = verified });
  }

  -- The worker marks a pending file exactly if its object is what was declared. Otherwise it removes the
  -- file and its object, or raises the error of the storage and leaves everything for a retry.
  pub verify_presigned_upload_in_worker_cases :
      (uploaded_file_id : ℕ) (s : S v) (f : UploadedFile)
      → v.table.first_file s.table (λ f. f.id == uploaded_file_id) ≡ some f
      → f.verification_status ≡ pending
      → let run = verify_presigned_upload_in_worker v uploaded_file_id s in
        (IsGenuineFile f s × (run ≡ (ok tt, confirm f s)))
        ⊎ ((IsGenuineFile f s → ⊥)
            × ((run ≡ (ok tt, discard v f s)) ⊎ ((e : Error) × (run ≡ (err e, s)))))
  unfolding verify_presigned_upload_in_worker
  verify_presigned_upload_in_worker_cases n s f found status =
      let check =
        verify_stored_object_content v.objects v.scanning v.settings s.objects f.object_key
          f.content_type f.size_bytes f.filename in
      let genuine =
        verify_stored_object_content_iff v.objects v.scanning v.settings s.objects f.object_key
          f.content_type f.size_bytes f.filename in
      let is_pending : str_eq f.verification_status pending ≡ true = rw status refl in
      elim (Result-cases check) [
        | inl (_, good) ↦ inl (genuine.0 good, rw found (rw is_pending (rw good refl)))
        | inr (e, bad) ↦ elim (Bool-cases (is_domain_error e)) [
          | inl domain ↦
              inr (λ g. cc (genuine.1 g), inl (rw found (rw is_pending (rw bad (rw domain refl)))))
          | inr other ↦
              inr
                (λ g. cc (genuine.1 g), inr (e, rw found (rw is_pending (rw bad (rw other refl)))))
        ]
      ]

  signed_url_ok :
      (message : String) (r : S3Error ⊎ Text) (url : PresignedUrl)
      → signed_url v (or_unavailable message r) ≡ ok url
      → r ≡ inr url.url
  signed_url_ok message (inl e) url h = cc
  signed_url_ok message (inr link) url h = cc

  -- What a URL for a download stands for.
  get_presigned_download_url_ok :
      (f : UploadedFile) (user : User) (s : S v) (url : PresignedUrl)
      → Returns (get_presigned_download_url v f user) s url
      → MayHandle user f
        × (f.verification_status ≡ verified)
        × (v.objects.presign_get s.objects f.object_key
              v.settings.upload_presigned_url_expire_seconds
            ≡ inr url.url)
  unfolding get_presigned_download_url generate_presigned_download_url
  get_presigned_download_url_ok f user s url h =
      let answer =
        v.objects.presign_get s.objects f.object_key
          v.settings.upload_presigned_url_expire_seconds in
      let (_, allowed, h₁) =
        Returns-bind
          (raise_if (not (can_access_uploaded_file user f)) (forbidden "Insufficient permissions"))
          _ s url h in
      let (_, ready, h₂) = Returns-lift (ensure_upload_is_downloadable f) _ s url h₁ in
      (
        (can_access_uploaded_file_iff user f).0 (ground (arith, allowed)),
        (ensure_upload_is_downloadable_iff f).0 ready,
        signed_url_ok _ answer url (h₂.returned),
      )

  -- In a reachable state a URL for a download is given for the row that is found under the identifier in
  -- the tenant of the user, whose status in the table is `verified`, which the user may handle, and for
  -- its object, in the directory of that tenant.
  pub get_download_url_allowed :
      (rows : IsFileTable v.table) (s : S v) (file_id : ℕ) (user : User) (url : PresignedUrl)
      → Reachable v rows s
      → (get_download_url v file_id user s).0 ≡ ok url
      → (f : UploadedFile) × (get_uploaded_file v file_id user.tenant_id s ≡ some f)
        × (f.id ≡ file_id)
        × (status_of (files_of v rows s) file_id ≡ some verified)
        × MayHandle user f
        × (f.verification_status ≡ verified)
        × IsKeyOf f.object_key user.tenant_id f.owner_id
        × (v.objects.presign_get s.objects f.object_key
              v.settings.upload_presigned_url_expire_seconds
            ≡ inr url.url)
  unfolding get_download_url get_uploaded_file
  get_download_url_allowed rows s file_id user url reached h =
      elim (Option-cases (get_uploaded_file v file_id user.tenant_id s)) [
        | inl absent ↦ cc (rw (absent, get_download_url) at h)
        | inr (f, found) ↦
            let (may, status, signed) =
              get_presigned_download_url_ok f user s url
                (record { returned = rw (found, get_download_url) at h }) in
            let match = rows.first_file_some s.table _ f found in
            let id : f.id ≡ file_id = (==_iff f.id file_id).0 (ground (arith, match)) in
            let tenant : f.tenant_id ≡ user.tenant_id =
              (==_iff f.tenant_id user.tenant_id).0 (ground (arith, match)) in
            let (owned, distinct) = Reachable-IsSound v rows s reached in
            let shown =
              rows.first_file_stored s.table _ f _ found
                (IsDistinct-status_of (files_of v rows s) distinct) in
            (
              f,
              found,
              id,
              rw (← id) (shown ∙ ap some status),
              may,
              status,
              rw (← tenant) (rows.first_file_stored s.table _ f IsOwned found owned),
              signed,
            )
      ]
