-- ===== src/Uploads/Changes.antt =====
-- What the operations of app/services/storage_service.py and
-- app/services/upload_verification_service.py do to the table of files, as steps of a machine.
use starter_backend_template.Prelude.{
  ℕ, ◌≡◌, refl, ap, ◌∙◌, Bool, not, ◌==◌, str_eq, Option, none, some, List, any, Text, codes, take,
  Bool-cases, Option-cases, inl, inr, eq_iff, ==_iff, arith,
}
use starter_backend_template.Errors.{
  modify, pure, forbidden, gets, lift, Exec, ◌>>=◌, ◌>>◌, Result, ok, err, is_domain_error,
  raise_if,
}
use starter_backend_template.Errors.Chains.{bind_state}
use starter_backend_template.Permissions.{User}
use starter_backend_template.Uploads.Validation.{
  Bytes, validate_upload_filename, validate_declared_content_type, validate_content_sniff,
  ensure_clean,
}
use starter_backend_template.Uploads.ObjectKeys.{
  build_object_key, build_object_key-IsKeyOf, ensure_object_key_belongs_to_owner,
}
use starter_backend_template.Uploads.Spool.{validate_file_size, spool_upload_stream_limited}
use starter_backend_template.Uploads.Stores.{UploadedFile, has_object_key, with_id, IsFileTable}
use starter_backend_template.Uploads.Access.{pending, can_delete_uploaded_file}
use starter_backend_template.Uploads.Content.{
  verify_stored_object_metadata, verify_stored_object_content, IsGenuine,
}
use starter_backend_template.Uploads.Genuine.{verify_stored_object_content_iff}
use starter_backend_template.Uploads.Service.{
  Backends, UploadFile, or_text, S, upload_fileobj, add_file, new_file, store_upload, upload,
  delete_row, register_upload, enqueue_verify_presigned_upload_job, complete_presigned_upload,
  delete_object, delete_uploaded_file, get_uploaded_file,
}
use starter_backend_template.Uploads.Handlers.{
  verify_found, conclude, verify_presigned_upload_in_worker, delete_file,
}
use starter_backend_template.Uploads.Rows.{
  IsOwned, IsSound, status_of, Label, storing, registering, verifying, deleting, Gives, Confirms,
  Removes, marked, Change, unchanged, inserted, confirmed, removed, IsDistinct-status_of,
}

module _ (v : Backends) (rows : IsFileTable v.table) where
  abbrev pub files_of : S v → List UploadedFile
  files_of s = v.table.files s.table

  -- The rows of a state, changed from those of another.
  abbrev pub From : Label → S v → S v → Type 0
  From l s s' = Change l (files_of s) (files_of s')

  -- A call that changes the rows at most in one of the ways of `Change`.
  pub record Changes (l : Label) {A : Type 0} (m : Exec (S v) A) : Type 0 where
    pub step : (s : S v) → From l s (m s).1

  -- A call that leaves the rows.
  record Keeps {A : Type 0} (m : Exec (S v) A) : Type 0 where
    kept : (s : S v) → files_of (m s).1 ≡ files_of s

  after_lift :
      {l : Label} {A B : Type 0} (r : Result A) (f : A → Exec (S v) B)
      → ((a : A) → r ≡ ok a → Changes l (f a))
      → Changes l (lift r >>= f)
  after_lift {l} r f next = record {
    step =
        λ s. bind_state (lift r) f s (From l s) (unchanged (files_of s)) (λ a e. (next a e).step s);
  }

  after_kept :
      {l : Label} {A B : Type 0} (m : Exec (S v) A) (f : A → Exec (S v) B)
      → Keeps m
      → ((a : A) → Changes l (f a))
      → Changes l (m >>= f)
  after_kept {l} m f keeps next = record {
    step = λ s.
        bind_state m f s (From l s) (rw (keeps.kept s) (unchanged (files_of s)))
          (λ a e. rw (← keeps.kept s) ((next a).step (m s).1));
  }

  add_file-Changes :
      (l : Label) (f : UploadedFile)
      → IsOwned f
      → Gives l f.verification_status
      → Changes l (add_file v f)
  unfolding add_file
  add_file-Changes l f owned status = record {
    step = λ s. elim (Bool-cases (any (has_object_key f.object_key) (v.table.files s.table))) [
      | inl taken ↦ rw ((rows.add_taken s.table f taken).1) (unchanged (files_of s))
      | inr free ↦ elim (rows.add_new s.table f free) [
        | inl (n, _, added, new) ↦ rw added (inserted (with_id n f) (files_of s) new owned status)
        | inr (_, same) ↦ rw same (unchanged (files_of s))
      ]
    ];
  }

  store_upload-Changes :
      (owner : User) (filename content_type : Text) (spool : Bytes) (size_bytes : ℕ)
      (uuid_hex : Text)
      → Changes storing (store_upload v owner filename content_type spool size_bytes uuid_hex)
  unfolding store_upload upload_fileobj
  store_upload-Changes owner filename content_type spool size_bytes uuid_hex =
      after_kept
        (upload_fileobj v (build_object_key owner.tenant_id owner.id filename uuid_hex) spool
          content_type)
        _ (record { kept = λ s. refl })
        (λ _.
          add_file-Changes storing _
            (build_object_key-IsKeyOf owner.tenant_id owner.id filename uuid_hex) refl)

  pub upload-Changes :
      (owner : User) (file : UploadFile) (uuid_hex : Text)
      → Changes storing (upload v owner file uuid_hex)
  unfolding upload
  upload-Changes owner file uuid_hex =
      after_lift (validate_upload_filename (or_text file.filename (codes "upload"))) _
        (λ filename _.
          after_lift
            (validate_declared_content_type v.scanning v.settings
              (some (or_text file.content_type (codes "application/octet-stream"))))
            _
            (λ content_type _.
              after_lift (spool_upload_stream_limited v.settings file.file) _ (λ spooled _.
                after_lift (validate_file_size v.settings spooled.1) _ (λ _ _.
                  after_lift (validate_content_sniff content_type (take 512 spooled.0)) _ (λ _ _.
                    after_lift (ensure_clean v.scanning v.settings spooled.0 filename) _ (λ _ _.
                      store_upload-Changes owner filename content_type spooled.0 spooled.1
                        uuid_hex))))))

  before_kept :
      {l : Label} {A B : Type 0} (m : Exec (S v) A) (f : A → Exec (S v) B)
      → Changes l m
      → ((a : A) → Keeps (f a))
      → Changes l (m >>= f)
  before_kept {l} m f changes keeps = record {
    step = λ s.
        bind_state m f s (From l s) (changes.step s)
          (λ a e. rw ((keeps a).kept (m s).1) (changes.step s));
  }

  register_upload-Changes :
      (f : UploadedFile) (job_id : Text) (request_id : Option Text)
      → IsOwned f
      → f.verification_status ≡ pending
      → Changes registering (register_upload v f job_id request_id)
  unfolding register_upload enqueue_verify_presigned_upload_job
  register_upload-Changes f job_id request_id owned status =
      before_kept (add_file v f)
        (λ g. enqueue_verify_presigned_upload_job v g.id job_id request_id >> pure g)
        (add_file-Changes registering f owned status) (λ g. record { kept = λ s. refl })

  pub complete_presigned_upload-Changes :
      (owner : User) (object_key filename content_type : Text) (size_bytes : ℕ) (job_id : Text)
      (request_id : Option Text)
      → Changes registering (
          complete_presigned_upload v owner object_key filename content_type size_bytes job_id
            request_id)
  unfolding complete_presigned_upload
  complete_presigned_upload-Changes owner object_key filename content_type size_bytes job_id
        request_id =
      after_lift (validate_upload_filename filename) _ (λ safe_filename _.
        after_lift (validate_declared_content_type v.scanning v.settings (some content_type)) _
          (λ type _. after_lift (validate_file_size v.settings size_bytes) _ (λ _ _.
            after_lift (ensure_object_key_belongs_to_owner object_key owner.tenant_id owner.id) _
              (λ _ owned.
                after_kept (gets (λ (s : S v). s.objects)) _ (record { kept = λ s. refl })
                  (λ objects.
                    after_lift
                      (verify_stored_object_metadata v.objects v.scanning v.settings objects
                        object_key type size_bytes)
                      _
                      (λ _ _.
                        register_upload-Changes
                          (new_file v owner object_key safe_filename type size_bytes pending) job_id
                          request_id owned refl))))))

  delete_row-Changes : (f : UploadedFile) → Changes (deleting f.id) (modify (delete_row v f))
  delete_row-Changes f = record {
    step = λ s. rw (rows.files-delete s.table f) (removed f.id (files_of s) refl);
  }

  delete_uploaded_file-Changes :
      (f : UploadedFile) (user : User) → Changes (deleting f.id) (delete_uploaded_file v f user)
  unfolding delete_uploaded_file delete_object
  delete_uploaded_file-Changes f user =
      after_kept
        (raise_if (not (can_delete_uploaded_file user f)) (forbidden "Insufficient permissions")) _
        (record { kept = λ s. refl })
        (λ _.
          after_kept (delete_object v f.object_key) _ (record { kept = λ s. refl })
            (λ _. delete_row-Changes f))

  pub delete_file-Changes :
      (file_id : ℕ) (user : User) → Changes (deleting file_id) (delete_file v file_id user)
  unfolding delete_file get_uploaded_file
  delete_file-Changes file_id user = record {
    step = λ s. elim (Option-cases (get_uploaded_file v file_id user.tenant_id s)) [
      | inl none_found ↦ rw (none_found, delete_file) (unchanged (files_of s))
      | inr (f, found) ↦
          let match = rows.first_file_some s.table _ f found in
          let at : f.id ≡ file_id = (==_iff f.id file_id).0 (ground (arith, match)) in
          rw (found, delete_file) (rw (← at) ((delete_uploaded_file-Changes f user).step s))
    ];
  }

  -- The row that the worker marks is the one that it found, and its object was what it declares.
  conclude-Change :
      (l : Label) (f : UploadedFile) (r : Result (Unit {0})) (s : S v)
      → status_of (files_of s) f.id ≡ some pending
      → IsOwned f
      → (r ≡ ok tt → Confirms l f)
      → Removes l f.id (some pending)
      → From l s (conclude v f r s).1
  conclude-Change l f (ok _) s was owned confirms removes =
      rw (rows.files-save s.table (marked f)) (confirmed f (files_of s) was owned (confirms refl))
  conclude-Change l f (err e) s was owned confirms removes = elim (Bool-cases (is_domain_error e)) [
    | inl domain ↦
        rw domain (rw (rows.files-delete s.table f) (removed f.id (files_of s) (rw was removes)))
    | inr other ↦ rw other (unchanged (files_of s))
  ]

  -- The row with an identifier that the query of the worker finds, with the object that it declares.
  abbrev pub IsGenuineRow : ℕ → S v → UploadedFile → Type 0
  IsGenuineRow n s f =
      (v.table.first_file s.table (λ g. g.id == n) ≡ some f)
      × IsGenuine v.objects v.scanning v.settings s.objects f.object_key f.content_type f.size_bytes
          f.filename

  verify_found-Change :
      (n : ℕ) (found : Option UploadedFile) (s : S v)
      → IsSound (files_of s)
      → v.table.first_file s.table (λ g. g.id == n) ≡ found
      → From (verifying n (IsGenuineRow n s)) s (verify_found v found s).1
  verify_found-Change n none s sound e = unchanged (files_of s)
  verify_found-Change n (some f) s (owned, distinct) e =
      elim (Bool-cases (str_eq f.verification_status pending)) [
        | inr other ↦ rw other (unchanged (files_of s))
        | inl is_pending ↦
            let p : UploadedFile → Bool = λ g. g.id == n in
            let shown =
              rows.first_file_stored s.table p f _ e (IsDistinct-status_of (files_of s) distinct) in
            let status = (eq_iff f.verification_status pending).0 is_pending in
            let at : f.id ≡ n = (==_iff f.id n).0 (rows.first_file_some s.table p f e) in
            rw is_pending (
              conclude-Change (verifying n (IsGenuineRow n s)) f
                (verify_stored_object_content v.objects v.scanning v.settings s.objects f.object_key
                  f.content_type f.size_bytes f.filename)
                s (shown ∙ ap some status) (rows.first_file_stored s.table p f _ e owned)
                (λ good. (
                  at,
                  (
                    e,
                    (verify_stored_object_content_iff v.objects v.scanning v.settings s.objects
                          f.object_key f.content_type f.size_bytes f.filename).0
                        good,
                  ),
                ))
                (at, refl))
      ]

  pub verify_presigned_upload_in_worker-Change :
      (uploaded_file_id : ℕ) (s : S v)
      → IsSound (files_of s)
      → From
          (verifying uploaded_file_id (IsGenuineRow uploaded_file_id s))
          s
          (verify_presigned_upload_in_worker v uploaded_file_id s).1
  unfolding verify_presigned_upload_in_worker
  verify_presigned_upload_in_worker-Change n s sound =
      verify_found-Change n (v.table.first_file s.table (λ f. f.id == n)) s sound refl
