-- ===== src/Uploads/Lifecycle.antt =====
-- What the operations on uploaded files may do to their table, as steps of a machine.
use starter_backend_template.Prelude.{ℕ, ◌≡◌, Option, [], Text}
use starter_backend_template.Permissions.{User}
use starter_backend_template.Uploads.Stores.{IsFileTable}
use starter_backend_template.Uploads.Service.{
  Backends, UploadFile, S, upload, complete_presigned_upload,
}
use starter_backend_template.Uploads.Handlers.{verify_presigned_upload_in_worker, delete_file}
use starter_backend_template.Uploads.Rows.{
  IsSound, status_of, Label, storing, registering, external, verifying, deleting, unchanged, Move,
  Change-Move,
}
use starter_backend_template.Uploads.Soundness.{Change-IsSound}
use starter_backend_template.Uploads.Changes.{
  files_of, From, IsGenuineRow, upload-Changes, complete_presigned_upload-Changes,
  delete_file-Changes, verify_presigned_upload_in_worker-Change,
}

module _ (v : Backends) (rows : IsFileTable v.table) where
  -- The steps of the program on the files. A client writes to the storage by itself, and other calls of
  -- the program use the queue.
  pub data Step : S v → S v → Type 0 where
    uploads :
        (owner : User) (file : UploadFile) (uuid_hex : Text) (s : S v)
        → Step s (upload v owner file uuid_hex s).1
    completes :
        (owner : User) (object_key filename content_type : Text) (size_bytes : ℕ) (job_id : Text)
        (request_id : Option Text) (s : S v)
        → Step s
            (complete_presigned_upload v owner object_key filename content_type size_bytes job_id
              request_id s).1
    verifies :
        (uploaded_file_id : ℕ) (s : S v)
        → Step s (verify_presigned_upload_in_worker v uploaded_file_id s).1
    deletes : (file_id : ℕ) (user : User) (s : S v) → Step s (delete_file v file_id user s).1
    outside :
        (objects : v.objects.State) (queue : v.redis.State) (s : S v)
        → Step s (record s { objects = objects; queue = queue })

  pub data Reachable : S v → Type 0 where
    start : (s : S v) → files_of v rows s ≡ [] → Reachable s
    next : (s s' : S v) → Reachable s → Step s s' → Reachable s'

  -- The operation of a step.
  abbrev pub label : (s s' : S v) → Step s s' → Label
  label _ _ (uploads owner file uuid_hex s) = storing
  label _ _ (completes owner key filename type size job_id request_id s) = registering
  label _ _ (verifies n s) = verifying n (IsGenuineRow v rows n s)
  label _ _ (deletes n user s) = deleting n
  label _ _ (outside objects queue s) = external

  Step-Change :
      (s s' : S v) (step : Step s s')
      → IsSound (files_of v rows s)
      → From v rows (label s s' step) s s'
  Step-Change _ _ (uploads owner file uuid_hex s) sound =
      (upload-Changes v rows owner file uuid_hex).step s
  Step-Change _ _ (completes owner key filename type size job_id request_id s) sound =
      (complete_presigned_upload-Changes v rows owner key filename type size job_id request_id).step
        s
  Step-Change _ _ (verifies n s) sound = verify_presigned_upload_in_worker-Change v rows n s sound
  Step-Change _ _ (deletes n user s) sound = (delete_file-Changes v rows n user).step s
  Step-Change _ _ (outside objects queue s) sound = unchanged (files_of v rows s)

  -- In every reachable state each object key lies in the directory of the tenant and the owner of its
  -- row, and the identifiers are distinct.
  pub Reachable-IsSound : (s : S v) → Reachable s → IsSound (files_of v rows s)
  Reachable-IsSound s (start _ empty) = rw empty (tt, tt)
  Reachable-IsSound s (next before _ r step) =
      let sound = Reachable-IsSound before r in
      Change-IsSound (label before s step) (files_of v rows before) (files_of v rows s)
        (Step-Change before s step sound) sound

  -- The table refines the life of an upload: in a reachable state a step leaves the status of every
  -- identifier, except that an upload may give `verified` to a new one, the completion of a presigned
  -- upload `pending` to a new one, the check of the worker of a file may turn its `pending` into
  -- `verified`, if the object is there as the row that its query finds declares it and passes the scan,
  -- or remove it while it is `pending`, and the deletion of a file may remove it.
  pub Step-Move :
      (s s' : S v)
      → Reachable s
      → (step : Step s s') (n : ℕ)
      → Move
          (label s s' step)
          n
          (status_of (files_of v rows s) n)
          (status_of (files_of v rows s') n)
  Step-Move s s' r step n =
      Change-Move (label s s' step) (files_of v rows s) (files_of v rows s')
        (Step-Change s s' step (Reachable-IsSound s r)) n
