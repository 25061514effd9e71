-- ===== src/Uploads/Acceptance.antt =====
-- What an upload that returned has checked and stored: `upload` of app/services/storage_service.py.
use starter_backend_template.Prelude.{
  any, ℕ, ◌+◌, ◌≡◌, ◌≤◌, ◌<◌, refl, sym, subst, ◌∙◌, ◌⊎◌, String, ltb, some, [], Text, codes, take,
  length, arith, Bool-cases, inl, inr,
}
use starter_backend_template.Errors.{ok, S3Error}
use starter_backend_template.Errors.Chains.{Returns, Returns-bind, Returns-lift}
use starter_backend_template.Permissions.{User}
use starter_backend_template.Uploads.Validation.{
  Bytes, validate_upload_filename, validate_declared_content_type, validate_content_sniff,
  ensure_clean, sniff_content_type,
}
use starter_backend_template.Uploads.ObjectKeys.{build_object_key}
use starter_backend_template.Uploads.Spool.{
  validate_file_size, spool_upload_stream_limited, read_whole,
  spool_upload_stream_limited-read_whole,
}
use starter_backend_template.Uploads.Stores.{UploadedFile, IsFileTable, with_id, has_object_key}
use starter_backend_template.Uploads.Access.{verified}
use starter_backend_template.Uploads.Content.{IsClean}
use starter_backend_template.Uploads.Genuine.{sniff_iff, ensure_clean_iff}
use starter_backend_template.Uploads.Service.{
  Backends, UploadFile, or_text, or_unavailable, S, new_file, upload_fileobj, add_file,
  store_upload, upload,
}

module _ (v : Backends) where
  -- The row that a call of `add_file` returned is the one that it was given, with an identifier.
  add_file_ok :
      (rows : IsFileTable v.table) (f g : UploadedFile) (s : S v)
      → (add_file v f s).0 ≡ ok g
      → (n : ℕ) × (with_id n f ≡ g)
  unfolding add_file
  add_file_ok rows f g s h =
      elim (Bool-cases (any (has_object_key f.object_key) (v.table.files s.table))) [
        | inl taken ↦ cc (rw ((rows.add_taken s.table f taken).0) at h)
        | inr free ↦ elim (rows.add_new s.table f free) [
          | inr (refused, _) ↦ cc (rw refused at h)
          | inl (n, added, _, _) ↦ let same : ok (with_id n f) ≡ ok g = rw added at h in (n, cc)
        ]
      ]

  upload_fileobj_ok :
      (key type : Text) (body : Bytes) (s : S v)
      → (upload_fileobj v key body type s).0 ≡ ok tt
      → (v.objects.upload_fileobj s.objects key body type).0 ≡ inr tt
  unfolding upload_fileobj
  upload_fileobj_ok key type body s h =
      stored "Object storage upload failed" (v.objects.upload_fileobj s.objects key body type).0 h
    where
      stored :
          (message : String) (r : S3Error ⊎ Unit {0})
          → or_unavailable message r ≡ ok tt
          → r ≡ inr tt
      stored message (inl e) h = cc
      stored message (inr _) h = refl

  store_upload_ok :
      (rows : IsFileTable v.table) (owner : User) (filename type : Text) (body : Bytes) (size : ℕ)
      (uuid_hex : Text) (s : S v) (g : UploadedFile)
      → Returns (store_upload v owner filename type body size uuid_hex) s g
      → let key = build_object_key owner.tenant_id owner.id filename uuid_hex in
        (n : ℕ) × (with_id n (new_file v owner key filename type size verified) ≡ g)
        × ((v.objects.upload_fileobj s.objects key body type).0 ≡ inr tt)
  unfolding store_upload
  store_upload_ok rows owner filename type body size uuid_hex s g h =
      let key = build_object_key owner.tenant_id owner.id filename uuid_hex in
      let f = new_file v owner key filename type size verified in
      let (_, stored, h') =
        Returns-bind (upload_fileobj v key body type) (λ _. add_file v f) s g h in
      let (n, same) = add_file_ok rows f g (upload_fileobj v key body type s).1 h'.returned in
      (n, same, upload_fileobj_ok key type body s stored)

  parts : (a : Bytes) (n : ℕ) (x : Bytes × ℕ) → ok (a, n) ≡ ok x → (a ≡ x.0) × (n ≡ x.1)
  parts a n (b, m) h = (cc, cc)

  -- A file that is read whole.
  read_whole_ok :
      (limit : ℕ) (file : Bytes) (x : Bytes × ℕ)
      → read_whole limit file [] 0 ≡ ok x
      → (length file ≤ limit) × (x.0 ≡ file) × (x.1 ≡ length file)
  read_whole_ok limit file x h = elim (Bool-cases (ltb limit (0 + length file))) [
    | inl over ↦ cc (rw over at h)
    | inr fits ↦
        let zero_plus : 0 + length file ≡ length file = omega arith in
        let same : ok (file, 0 + length file) ≡ ok x = rw fits at h in
        let (spool, size) = parts file (0 + length file) x same in
        (ground (arith, fits), sym spool, sym size ∙ zero_plus)
  ]

  -- An upload that returned a row has read the whole file within the limit, its first bytes are those of
  -- the type of the row, the scanner took it for clean, and the storage took it under the key of the row.
  pub upload_accepted :
      (rows : IsFileTable v.table) (owner : User) (file : UploadFile) (uuid_hex : Text) (s : S v)
      (g : UploadedFile)
      → 0 < v.settings.upload_stream_chunk_size_bytes
      → (upload v owner file uuid_hex s).0 ≡ ok g
      → (length file.file ≤ v.settings.upload_max_size_bytes)
        × (g.size_bytes ≡ length file.file)
        × (sniff_content_type (take 512 file.file) ≡ some g.content_type)
        × IsClean v.objects v.scanning v.settings file.file g.filename
        × ((v.objects.upload_fileobj s.objects g.object_key file.file g.content_type).0 ≡ inr tt)
        × (g.tenant_id ≡ owner.tenant_id)
        × (g.owner_id ≡ owner.id)
        × (g.verification_status ≡ verified)
  unfolding upload
  upload_accepted rows owner file uuid_hex s g chunked h =
      let run : Returns (upload v owner file uuid_hex) s g = record { returned = h } in
      let (filename, _, h₁) =
        Returns-lift (validate_upload_filename (or_text file.filename (codes "upload"))) _ s g
          run in
      let (type, _, h₂) =
        Returns-lift
          (validate_declared_content_type v.scanning v.settings
            (some (or_text file.content_type (codes "application/octet-stream"))))
          _ s g h₁ in
      let (spooled, read, h₃) =
        Returns-lift (spool_upload_stream_limited v.settings file.file) _ s g h₂ in
      let (_, _, h₄) = Returns-lift (validate_file_size v.settings spooled.1) _ s g h₃ in
      let (_, sniffed, h₅) =
        Returns-lift (validate_content_sniff type (take 512 spooled.0)) _ s g h₄ in
      let (_, scanned, h₆) =
        Returns-lift (ensure_clean v.scanning v.settings spooled.0 filename) _ s g h₅ in
      let key = build_object_key owner.tenant_id owner.id filename uuid_hex in
      let (n, same, stored) =
        store_upload_ok rows owner filename type spooled.0 spooled.1 uuid_hex s g h₆ in
      let (fits, file_is, size_is) =
        read_whole_ok v.settings.upload_max_size_bytes file.file spooled
          (sym (spool_upload_stream_limited-read_whole v.settings file.file chunked) ∙ read) in
      rw (← same) (
        fits,
        size_is,
        subst (λ b. sniff_content_type (take 512 b) ≡ some type) file_is
            ((sniff_iff type (take 512 spooled.0)).0 sniffed),
        subst (λ b. IsClean v.objects v.scanning v.settings b filename) file_is
            ((ensure_clean_iff v.objects v.scanning v.settings spooled.0 filename).0 scanned),
        subst (λ b. (v.objects.upload_fileobj s.objects key b type).0 ≡ inr tt) file_is stored,
        refl,
        refl,
        refl,
      )
