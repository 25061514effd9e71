-- ===== src/Uploads/Stores.antt =====
-- The table `uploaded_files` (app/models/uploaded_file.py) behind a database session and the client of
-- the object storage, as parameters: what they show, and the documented effect of each call on that.
use starter_backend_template.Prelude.{
  ℕ, ◌≡◌, String, Bool, true, false, not, ◌==◌, if◌then◌else◌, Option, some, List, ◌∷◌, Text,
  text_eq, any, All, map, select, ◌⊎◌,
}
use starter_backend_template.Errors.{S3Error, integrity_error, Result, ok, err}
use starter_backend_template.Uploads.Validation.{Bytes}

-- Less the column `created_at`.
pub record UploadedFile : Type 0 where
  pub id : ℕ
  pub tenant_id : ℕ
  pub owner_id : ℕ
  pub object_key : Text
  pub filename : Text
  pub content_type : Text
  pub size_bytes : ℕ
  pub verification_status : String

abbrev pub has_id : ℕ → UploadedFile → Bool
has_id n f = f.id == n

-- `object_key` is unique.
abbrev pub has_object_key : Text → UploadedFile → Bool
has_object_key k f = text_eq f.object_key k

-- The columns of a row, with an identifier that the database gives.
abbrev pub with_id : ℕ → UploadedFile → UploadedFile
with_id n f = record f { id = n }

-- The row with the identifier of another, replaced by that.
abbrev pub replaced_file : UploadedFile → UploadedFile → UploadedFile
replaced_file new old = if has_id new.id old then new else old

-- A session of which nothing is pending: the committed rows, the first row that a query finds, and a
-- row added, written or deleted, and committed. `add` gives the row a new identifier.
pub record FileTable : Type 1 where
  pub State : Type 0
  pub files : State → List UploadedFile
  pub first_file : State → (UploadedFile → Bool) → Option UploadedFile
  pub add : State → UploadedFile → Result UploadedFile × State
  pub save : State → UploadedFile → State
  pub delete : State → UploadedFile → State

pub record IsFileTable (t : FileTable) : Type 1 where
  pub first_file_some :
      (s : t.State) (p : UploadedFile → Bool) (f : UploadedFile)
      → t.first_file s p ≡ some f
      → p f ≡ true
  pub first_file_stored :
      (s : t.State) (p : UploadedFile → Bool) (f : UploadedFile) (P : UploadedFile → Type 0)
      → t.first_file s p ≡ some f
      → All P (t.files s)
      → P f
  -- a row with a free object key is added, unless another constraint refuses it
  pub add_new :
      (s : t.State) (f : UploadedFile)
      → any (has_object_key f.object_key) (t.files s) ≡ false
      → ((n : ℕ) × ((t.add s f).0 ≡ ok (with_id n f))
          × (t.files (t.add s f).1 ≡ with_id n f ∷ t.files s)
          × (any (has_id n) (t.files s) ≡ false))
        ⊎ (((t.add s f).0 ≡ err integrity_error) × (t.files (t.add s f).1 ≡ t.files s))
  pub add_taken :
      (s : t.State) (f : UploadedFile)
      → any (has_object_key f.object_key) (t.files s) ≡ true
      → ((t.add s f).0 ≡ err integrity_error) × (t.files (t.add s f).1 ≡ t.files s)
  pub files-save :
      (s : t.State) (f : UploadedFile) → t.files (t.save s f) ≡ map (replaced_file f) (t.files s)
  pub files-delete :
      (s : t.State) (f : UploadedFile)
      → t.files (t.delete s f) ≡ select (λ g. not (has_id f.id g)) (t.files s)

-- `ContentLength` and `ContentType` of a response.
pub record Head : Type 0 where
  pub content_length : ℕ
  pub content_type : Option Text

-- The bucket of `settings.s3_bucket_name`; a call returns or raises one of botocore's exceptions.
-- `presign_get key seconds` and `presign_put key content_type seconds` are `generate_presigned_url`.
pub record ObjectStore : Type 1 where
  pub State : Type 0
  pub head_object : State → Text → S3Error ⊎ Head
  pub get_object : State → Text → S3Error ⊎ Bytes
  pub upload_fileobj :
      State → (object_key : Text) → Bytes → (content_type : Text) → (S3Error ⊎ Unit {0}) × State
  pub delete_object : State → Text → (S3Error ⊎ Unit {0}) × State
  pub head_bucket : State → S3Error ⊎ Unit {0}
  pub presign_get : State → Text → ℕ → S3Error ⊎ Text
  pub presign_put : State → Text → (content_type : Text) → ℕ → S3Error ⊎ Text
