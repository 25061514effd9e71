-- ===== src/Uploads/Genuine.antt =====
-- When the check of a stored object returns: `verify_stored_object_content` of
-- app/services/storage_service.py.
use starter_backend_template.Prelude.{
  ℕ, zero, suc, ◌+◌, ◌≡◌, ◌≤◌, refl, sym, ap, ◌∙◌, ◌↔◌, ◌⊎◌, inl, inr, String, true, false, not,
  ◌==◌, if◌then◌else◌, ltb, Option, none, some, [], ◌∷◌, Text, text_eq_sound, text_eq_refl, length,
  take, arith, ==_refl,
}
use starter_backend_template.Errors.{
  S3Error, client_error, boto_core_error, bad_request, payload_too_large, Result, ok, err,
}
use starter_backend_template.Errors.Chains.{chain_iff, sequence_iff}
use starter_backend_template.Uploads.Validation.{
  Bytes, UploadSettings, Scanning, MalwareScanResult, sniff_content_type, is_text,
  validate_content_sniff, ensure_malware_scan_is_clean, run_malware_scan, ensure_clean,
}
use starter_backend_template.Uploads.Stores.{Head, ObjectStore}
use starter_backend_template.Uploads.Content.{
  StoredObjectMetadata, or_bad_request, media_type, get_object_metadata, download_object_body,
  assert_stored_metadata_matches, verify_stored_object_content, IsClean, IsGenuine,
}

or_bad_request_iff :
    {A : Type 0} (message : String) (r : S3Error ⊎ A) (a : A)
    → (or_bad_request message r ≡ ok a) ↔ (r ≡ inr a)
or_bad_request_iff message (inl client_error) a = (λ h. cc, λ h. cc)
or_bad_request_iff message (inl boto_core_error) a = (λ h. cc, λ h. cc)
or_bad_request_iff message (inr b) a = (λ h. cc, λ h. cc)

assert_stored_metadata_matches_iff :
    (m : StoredObjectMetadata) (t : Text) (n : ℕ)
    → (assert_stored_metadata_matches m t n ≡ ok tt) ↔ ((m.size_bytes ≡ n) × (m.content_type ≡ t))
unfolding assert_stored_metadata_matches
assert_stored_metadata_matches_iff m t n = (
  λ h. (ground arith, text_eq_sound m.content_type t (ground arith)),
  λ (a, b). rw a (rw b (rw (==_refl n) (rw (text_eq_refl t) refl))),
)

-- A text cut behind its limit and not longer than that is whole.
take_short : (n : ℕ) (s : Bytes) → length (take (n + 1) s) ≤ n → take (n + 1) s ≡ s
take_short n s l = let next : n + 1 ≡ suc n = omega arith in rw next (within n s (rw next at l))
  where
    within : (k : ℕ) (s : Bytes) → length (take (suc k) s) ≤ k → take (suc k) s ≡ s
    within k [] l = refl
    within zero (c ∷ s) l = absurd (omega (arith, l))
    within (suc k) (c ∷ s) l = ap (λ t. c ∷ t) (within k s (omega (arith, l)))

take_all : (n : ℕ) (s : Bytes) → length s ≤ n → take (n + 1) s ≡ s
take_all n s l = take_short n s (omega (arith, l, shorter (n + 1) s))
  where
    shorter : (k : ℕ) (s : Bytes) → length (take k s) ≤ length s
    shorter zero s = omega arith
    shorter (suc k) [] = omega arith
    shorter (suc k) (c ∷ s) = omega (arith, shorter k s)

-- A body that is read up to one byte over its limit.
abbrev limited : ℕ → Bytes → Result Bytes
limited n response =
    let body = take (n + 1) response in
    if ltb n (length body) then err (payload_too_large "File too large") else ok body

limited_iff : (n : ℕ) (r body : Bytes) → length body ≡ n → (limited n r ≡ ok body) ↔ (r ≡ body)
limited_iff n r body size = (
  λ h.
      let short : length (take (n + 1) r) ≤ n = ground (arith, h) in
      let low : ltb n (length (take (n + 1) r)) ≡ false = ground (arith, short) in
      let same : ok (take (n + 1) r) ≡ ok body = rw low at h in
      let cut : take (n + 1) r ≡ body = cc in sym (take_short n r short) ∙ cut,
  λ e.
      let low : ltb n (length body) ≡ false = ground (arith, size) in
      rw e (rw (take_all n body (omega (arith, size))) (rw low refl)),
)

pub sniff_iff :
    (t : Text) (body : Bytes)
    → (validate_content_sniff t body ≡ ok tt) ↔ (sniff_content_type body ≡ some t)
unfolding validate_content_sniff
sniff_iff t body = from (sniff_content_type body)
  where
    from :
        (s : Option Text)
        → let checked : Result (Unit {0}) =
            if not (is_text s t)
            then err (bad_request "File content does not match declared content type")
            else ok tt in
          (checked ≡ ok tt) ↔ (s ≡ some t)
    from none = (λ h. cc, λ h. cc)
    from (some s) = (
      λ h. ap some (text_eq_sound s t (ground arith)),
      λ h. let same : s ≡ t = cc in rw same (rw (text_eq_refl t) refl),
    )

clean_iff : (r : MalwareScanResult) → (ensure_malware_scan_is_clean r ≡ ok tt) ↔ (r.clean ≡ true)
unfolding ensure_malware_scan_is_clean
clean_iff r = (λ h. ground arith, λ h. rw h refl)

module _ (o : ObjectStore) (x : Scanning) (settings : UploadSettings) where
  pub ensure_clean_iff :
      (body filename : Text)
      → (ensure_clean x settings body filename ≡ ok tt) ↔ IsClean o x settings body filename
  unfolding ensure_clean
  ensure_clean_iff body filename =
      let both =
        chain_iff (run_malware_scan x settings body filename) ensure_malware_scan_is_clean tt in
      (
        λ h. let (r, e, clean) = both.0 h in (r, e, (clean_iff r).0 clean),
        λ (r, e, clean). both.1 (r, e, (clean_iff r).1 clean),
      )

  -- The metadata of a response.
  abbrev metadata_of : Head → StoredObjectMetadata
  metadata_of response = record {
    size_bytes = response.content_length;
    content_type = media_type o x response;
  }

  metadata_iff :
      (s : o.State) (key : Text) (m : StoredObjectMetadata)
      → (get_object_metadata o x s key ≡ ok m) ↔ (
          (response : Head) × (o.head_object s key ≡ inr response)
          × (ok (metadata_of response) ≡ ok m))
  unfolding get_object_metadata
  metadata_iff s key m =
      let both =
        chain_iff (or_bad_request "Uploaded object was not found in storage" (o.head_object s key))
          (λ r. ok (metadata_of r)) m in
      (
        λ h.
            let (r, e, same) = both.0 h in
            (r, (or_bad_request_iff _ (o.head_object s key) r).0 e, same),
        λ (r, e, same). both.1 (r, (or_bad_request_iff _ (o.head_object s key) r).1 e, same),
      )

  -- A body of the size that was announced, downloaded within the limit of that size.
  download_iff :
      (s : o.State) (key : Text) (n : ℕ) (body : Bytes)
      → ((download_object_body o x s key n ≡ ok body) × (length body ≡ n))
        ↔ ((o.get_object s key ≡ inr body) × (length body ≡ n))
  unfolding download_object_body
  download_iff s key n body =
      let both =
        chain_iff (or_bad_request "Uploaded object could not be verified" (o.get_object s key))
          (limited n) body in
      (
        λ (h, size).
            let (r, e, same) = both.0 h in
            (
              (or_bad_request_iff _ (o.get_object s key) r).0 e
                  ∙ ap inr ((limited_iff n r body size).0 same),
              size,
            ),
        λ (e, size). (
          both.1 (
            body,
            (or_bad_request_iff _ (o.get_object s key) body).1 e,
            (limited_iff n body body size).1 refl,
          ),
          size,
        ),
      )

  abbrev sized : Bytes → ℕ → Result (Unit {0})
  sized body n =
      if not (length body == n)
      then err (bad_request "Uploaded object size could not be verified")
      else ok tt

  sized_iff : (body : Bytes) (n : ℕ) → (sized body n ≡ ok tt) ↔ (length body ≡ n)
  sized_iff body n = (λ h. ground arith, λ e. rw e (rw (==_refl n) refl))

  -- The check of a stored object returns exactly if the object is what was declared.
  pub verify_stored_object_content_iff :
      (s : o.State) (key t : Text) (n : ℕ) (filename : Text)
      → (verify_stored_object_content o x settings s key t n filename ≡ ok tt)
        ↔ IsGenuine o x settings s key t n filename
  unfolding verify_stored_object_content
  verify_stored_object_content_iff s key t n filename = (
    λ h.
        let (m, e, h₁) = (chain_iff (get_object_metadata o x s key) _ tt).0 h in
        let (matches, h₂) = (sequence_iff (assert_stored_metadata_matches m t n) _ tt).0 h₁ in
        let (body, read, h₃) =
          (chain_iff (download_object_body o x s key m.size_bytes) _ tt).0 h₂ in
        let (size, h₄) = (sequence_iff (sized body m.size_bytes) _ tt).0 h₃ in
        let (sniffed, scanned) = (sequence_iff (validate_content_sniff t body) _ tt).0 h₄ in
        let (response, found, same) = (metadata_iff s key m).0 e in
        let same_m : metadata_of response ≡ m = cc in
        let (n_is, t_is) = (assert_stored_metadata_matches_iff m t n).0 matches in
        let whole = (sized_iff body m.size_bytes).0 size in
        (
          response,
          found,
          ap (λ (m : StoredObjectMetadata). m.size_bytes) same_m ∙ n_is,
          ap (λ (m : StoredObjectMetadata). m.content_type) same_m ∙ t_is,
          (
            body,
            ((download_iff s key m.size_bytes body).0 (read, whole)).0,
            whole ∙ n_is,
            (sniff_iff t body).0 sniffed,
            (ensure_clean_iff body filename).0 scanned,
          ),
        ),
    λ (response, found, size, type, (body, read, whole, sniffed, clean)).
        let m = metadata_of response in
        let fits : length body ≡ m.size_bytes = whole ∙ sym size in
        (chain_iff (get_object_metadata o x s key) _ tt).1 (
          m,
          (metadata_iff s key m).1 (response, found, refl),
          (sequence_iff (assert_stored_metadata_matches m t n) _ tt).1 (
            (assert_stored_metadata_matches_iff m t n).1 (size, type),
            (chain_iff (download_object_body o x s key m.size_bytes) _ tt).1 (
              body,
              ((download_iff s key m.size_bytes body).1 (read, fits)).0,
              (sequence_iff (sized body m.size_bytes) _ tt).1 (
                (sized_iff body m.size_bytes).1 fits,
                (sequence_iff (validate_content_sniff t body) _ tt).1
                    ((sniff_iff t body).1 sniffed, (ensure_clean_iff body filename).1 clean),
              ),
            ),
          ),
        ),
  )
