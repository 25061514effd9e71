-- ===== src/Examples/Files.antt =====
-- A table of files and a storage of objects in memory, with the files that the examples use.
use starter_backend_template.Prelude.{
  ℕ, suc, ◌≤◌, ◌≡◌, refl, max, Bool, true, false, not, ◌==◌, Option, none, some, List, [], ◌∷◌, map,
  any, select, Text, codes, text_eq, arith, ◌⊎◌, inl, inr, length,
}
use starter_backend_template.Errors.{S3Error, client_error, integrity_error, Result, ok, err}
use starter_backend_template.Permissions.{User}
use starter_backend_template.Uploads.Validation.{Bytes, UploadSettings, Scanning}
use starter_backend_template.Uploads.Stores.{
  UploadedFile, has_id, has_object_key, with_id, replaced_file, FileTable, IsFileTable, ObjectStore,
}
use starter_backend_template.Uploads.Service.{Backends, UploadState, UploadFile}
use starter_backend_template.Examples.Memory.{Memory, memory}
use starter_backend_template.Examples.Codec.{codec}
use starter_backend_template.Examples.Jobs.{no_jobs}
use starter_backend_template.Examples.Jobs.{settings as worker_settings}
use starter_backend_template.Examples.Tables.{find, find-some, find_stored}

-- An identifier above all others.
abbrev next_id : List UploadedFile → ℕ
next_id [] = 1
next_id (f ∷ fs) = max (suc f.id) (next_id fs)

above : (fs : List UploadedFile) (n : ℕ) → next_id fs ≤ n → any (has_id n) fs ≡ false
above [] n o = refl
above (f ∷ fs) n o =
    let rest = above fs n (ground (arith, o)) in
    let here : (f.id == n) ≡ false = ground (arith, o) in ground (arith, rest, here)

abbrev insert : Bool → UploadedFile → List UploadedFile → Result UploadedFile × List UploadedFile
insert true f fs = (err integrity_error, fs)
insert false f fs = (ok (with_id (next_id fs) f), with_id (next_id fs) f ∷ fs)

abbrev pub table : FileTable
table = record {
  State = List UploadedFile;
  files = λ s. s;
  first_file = λ s p. find p s;
  add = λ s f. insert (any (has_object_key f.object_key) s) f s;
  save = λ s f. map (replaced_file f) s;
  delete = λ s f. select (λ g. not (has_id f.id g)) s;
}

pub table_lawful : IsFileTable table
table_lawful = record {
  first_file_some = λ s p f e. find-some p s f e;
  first_file_stored = λ s p f P e all. find_stored p s f P e all;
  add_new = λ s f free. rw free (inl (next_id s, refl, refl, above s (next_id s) (omega arith)));
  add_taken = λ s f taken. rw taken (refl, refl);
  files-save = λ s f. refl;
  files-delete = λ s f. refl;
}

-- An object with its key and media type.
pub record Stored : Type 0 where
  pub object_key : Text
  pub content_type : Text
  pub body : Bytes

abbrev answer : {A : Type 0} → (Stored → A) → Option Stored → S3Error ⊎ A
answer f none = inl client_error
answer f (some o) = inr (f o)

abbrev at : Text → Stored → Bool
at key o = text_eq o.object_key key

abbrev pub objects : ObjectStore
objects = record {
  State = List Stored;
  head_object = λ s key.
      answer (λ o. record { content_length = length o.body; content_type = some o.content_type })
        (find (at key) s);
  get_object = λ s key. answer (λ o. o.body) (find (at key) s);
  upload_fileobj = λ s key body type.
      (inr tt, record { object_key = key; content_type = type; body = body } ∷ s);
  delete_object = λ s key. (inr tt, select (λ o. not (at key o)) s);
  head_bucket = λ s. inr tt;
  presign_get = λ s key seconds. inr key;
  presign_put = λ s key type seconds. inr key;
}

abbrev pub scanning : Scanning
scanning = record { lower = λ t. t; post = λ url body filename. none }

abbrev pub upload_settings : UploadSettings
upload_settings = record {
  upload_max_size_bytes = 20;
  upload_allowed_content_types = codes "image/png, application/pdf";
  upload_presigned_url_expire_seconds = 300;
  upload_stream_chunk_size_bytes = 4;
  upload_malware_scan_enabled = true;
  upload_malware_scanner_url = [];
}

abbrev pub backends : Backends
backends = record {
  objects = objects;
  table = table;
  redis = memory;
  codec = codec;
  worker_settings = worker_settings;
  scanning = scanning;
  settings = upload_settings;
}

abbrev pub no_files : UploadState (List Stored) (List UploadedFile) Memory
no_files = record { objects = []; table = []; queue = no_jobs }

abbrev pub dora : User
dora = record {
  id = 7;
  tenant_id = 12;
  email = "dora@acme.test";
  hashed_password = "x";
  is_active = true;
  role = "user";
  token_version = 0;
}

abbrev pub pdf : UploadFile
pdf = record {
  filename = some (codes "a.pdf");
  content_type = some (codes "application/pdf");
  file = codes "%PDF-1.7";
}

-- A file that waits for its check, with its object.
abbrev pub waiting_file : UploadedFile
waiting_file = record {
  id = 1;
  tenant_id = 12;
  owner_id = 7;
  object_key = codes "tenants/12/uploads/7/0-a.pdf";
  filename = codes "a.pdf";
  content_type = codes "application/pdf";
  size_bytes = 8;
  verification_status = "pending";
}

abbrev pub waiting_object : Stored
waiting_object = record {
  object_key = codes "tenants/12/uploads/7/0-a.pdf";
  content_type = codes "application/pdf";
  body = codes "%PDF-1.7";
}

abbrev pub one_waiting : UploadState (List Stored) (List UploadedFile) Memory
one_waiting = record { objects = waiting_object ∷ []; table = waiting_file ∷ []; queue = no_jobs }
