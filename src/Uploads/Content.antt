-- ===== src/Uploads/Content.antt =====
-- What is checked of an object in the storage: the provider's `get_object_metadata` and
-- `download_object_body`, `assert_stored_metadata_matches`, `verify_stored_object_metadata` and
-- `verify_stored_object_content` of app/services/storage_service.py.
use starter_backend_template.Prelude.{
  ℕ, ◌+◌, ◌≡◌, ◌⊎◌, inl, inr, String, true, not, ◌==◌, if◌then◌else◌, ltb, Option, none, some, [],
  ◌∷◌, Text, codes, text_eq, strip, length, take, is_nonempty,
}
use starter_backend_template.Errors.{
  S3Error, client_error, boto_core_error, bad_request, payload_too_large, s3_error, Result, ok, err,
}
use starter_backend_template.Errors.Chains.{◌>>=◌, ◌>>◌}
use starter_backend_template.Uploads.Validation.{
  Bytes, UploadSettings, Scanning, MalwareScanResult, sniff_content_type, validate_content_sniff,
  run_malware_scan, ensure_clean,
}
use starter_backend_template.Uploads.Stores.{Head, ObjectStore}

pub record StoredObjectMetadata : Type 0 where
  pub size_bytes : ℕ
  pub content_type : Text

-- `s.split(sep, maxsplit=1)[0]`
abbrev pub before : ℕ → Text → Text
before sep [] = []
before sep (c ∷ s) = if c == sep then [] else c ∷ before sep s

-- `value or "application/octet-stream"`
abbrev pub or_octet_stream : Option Text → Text
or_octet_stream none = codes "application/octet-stream"
or_octet_stream (some t) = if is_nonempty t then t else codes "application/octet-stream"

-- `except ClientError as exc: raise BadRequestError(message) from exc`
abbrev pub or_bad_request : {A : Type 0} → String → S3Error ⊎ A → Result A
or_bad_request message (inl client_error) = err (bad_request message)
or_bad_request message (inl boto_core_error) = err (s3_error boto_core_error)
or_bad_request message (inr a) = ok a

module _ (o : ObjectStore) (x : Scanning) where
  -- The media type of a response, without its parameters.
  abbrev pub media_type : Head → Text
  media_type response = x.lower (strip (before 59 (or_octet_stream response.content_type)))

  unfoldable pub get_object_metadata : o.State → Text → Result StoredObjectMetadata
  get_object_metadata objects object_key = do
    response ←
        or_bad_request "Uploaded object was not found in storage" (o.head_object objects object_key)
    ok (record { size_bytes = response.content_length; content_type = media_type response })

  unfoldable pub download_object_body : o.State → Text → (max_bytes : ℕ) → Result Bytes
  download_object_body objects object_key max_bytes = do
    response ←
        or_bad_request "Uploaded object could not be verified" (o.get_object objects object_key)
    let body = take (max_bytes + 1) response
    if ltb max_bytes (length body) then err (payload_too_large "File too large") else ok body

unfoldable pub assert_stored_metadata_matches :
    StoredObjectMetadata
    → (declared_content_type : Text) (declared_size_bytes : ℕ) → Result (Unit {0})
assert_stored_metadata_matches metadata declared_content_type declared_size_bytes =
    if not (metadata.size_bytes == declared_size_bytes)
    then err (bad_request "Uploaded object size does not match declared size")
    else if not (text_eq metadata.content_type declared_content_type)
    then err (bad_request "Uploaded object content type does not match declared content type")
    else ok tt

module _ (o : ObjectStore) (x : Scanning) (settings : UploadSettings) where
  unfoldable pub verify_stored_object_metadata :
      o.State
      → (object_key declared_content_type : Text) (declared_size_bytes : ℕ)
      → Result StoredObjectMetadata
  verify_stored_object_metadata objects object_key declared_content_type declared_size_bytes = do
    metadata ← get_object_metadata o x objects object_key
    assert_stored_metadata_matches metadata declared_content_type declared_size_bytes
    ok metadata

  unfoldable pub verify_stored_object_content :
      o.State
      → (object_key declared_content_type : Text) (declared_size_bytes : ℕ) (filename : Text)
      → Result (Unit {0})
  verify_stored_object_content objects object_key declared_content_type declared_size_bytes
        filename =
      do
        metadata ← get_object_metadata o x objects object_key
        assert_stored_metadata_matches metadata declared_content_type declared_size_bytes
        body ← download_object_body o x objects object_key metadata.size_bytes
        if not (length body == metadata.size_bytes)
            then err (bad_request "Uploaded object size could not be verified")
            else ok tt
        validate_content_sniff declared_content_type body
        ensure_clean x settings body filename

  -- The scanner returns and takes the bytes for clean.
  abbrev pub IsClean : Bytes → Text → Type 0
  IsClean body filename =
      (scan_result : MalwareScanResult) × (run_malware_scan x settings body filename
        ≡ ok scan_result)
      × (scan_result.clean ≡ true)

  -- The storage has the object, its size and media type are those declared, its bytes are of that size
  -- and begin like a file of that type, and the scanner takes them for clean.
  abbrev pub IsGenuine :
      o.State
      → (object_key declared_content_type : Text) (declared_size_bytes : ℕ) (filename : Text)
      → Type 0
  IsGenuine objects object_key declared_content_type declared_size_bytes filename =
      (response : Head) × (o.head_object objects object_key ≡ inr response)
      × (response.content_length ≡ declared_size_bytes)
      × (media_type o x response ≡ declared_content_type)
      × ((body : Bytes) × (o.get_object objects object_key ≡ inr body)
          × (length body ≡ declared_size_bytes)
          × (sniff_content_type body ≡ some declared_content_type)
          × IsClean body filename)
