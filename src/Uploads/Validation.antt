-- ===== src/Uploads/Validation.antt =====
-- The checks on what is uploaded: app/core/upload_metadata.py, app/core/file_validation.py,
-- app/core/malware_scan.py and app/services/malware_scanner.py. Bytes are natural numbers. `lower` is
-- Python's `str.lower` and `post` the request to the scanner with its answer, both parameters.
use starter_backend_template.Prelude.{
  ℕ, Bool, true, false, not, ◌&&◌, ◌||◌, ◌==◌, if◌then◌else◌, leb, ltb, Option, none, some, List,
  [], ◌∷◌, ◌++◌, map, Text, codes, text_eq, starts_with, contains, is_one_of, is_nonempty, strip,
  split, length, any, all, select, decimal,
}
use starter_backend_template.Errors.{bad_request, other_error, Result, ok, err}
use starter_backend_template.Errors.Chains.{◌>>=◌}

abbrev pub Bytes : Type 0
Bytes = List ℕ

abbrev pub max_upload_filename_length : ℕ
max_upload_filename_length = 255

-- `("\x00", "/", "\\", "..")`
abbrev pub forbidden_parts : List Text
forbidden_parts = (0 ∷ []) ∷ codes "/" ∷ (92 ∷ []) ∷ codes ".." ∷ []

unfoldable pub validate_upload_filename : Text → Result Text
validate_upload_filename filename =
    let normalized_filename = strip filename in
    if not (is_nonempty normalized_filename)
    then err (bad_request "Filename is required")
    else if ltb max_upload_filename_length (length normalized_filename)
    then err (bad_request "Filename is too long")
    else if any (contains normalized_filename) forbidden_parts
    then err (bad_request "Invalid filename")
    else ok normalized_filename

-- The class `[a-zA-Z0-9!#$&\-^_.+]` of `CONTENT_TYPE_PATTERN`.
abbrev pub is_token_char : ℕ → Bool
is_token_char c =
    (leb 97 c && leb c 122)
    || (leb 65 c && leb c 90)
    || (leb 48 c && leb c 57)
    || any (λ d. c == d) (codes "!#$&-^_.+")

-- One or more characters of the class.
abbrev pub is_token : Text → Bool
is_token s = is_nonempty s && all is_token_char s

-- `CONTENT_TYPE_PATTERN.fullmatch(s)`: two tokens around the only slash.
abbrev pub matches_content_type_pattern : List Text → Bool
matches_content_type_pattern (main ∷ sub ∷ []) = is_token main && is_token sub
matches_content_type_pattern _ = false

abbrev pub content_signatures : List (Text × List Bytes)
content_signatures =
    (codes "application/pdf", codes "%PDF" ∷ [])
    ∷ (codes "image/png", (0x89 ∷ 80 ∷ 78 ∷ 71 ∷ 13 ∷ 10 ∷ 26 ∷ 10 ∷ []) ∷ [])
    ∷ (codes "image/jpeg", (0xff ∷ 0xd8 ∷ 0xff ∷ []) ∷ [])
    ∷ []

abbrev pub sniff_loop : List (Text × List Bytes) → Bytes → Option Text
sniff_loop [] body = none
sniff_loop ((content_type, signatures) ∷ rest) body =
    if any (starts_with body) signatures then some content_type else sniff_loop rest body

unfoldable pub sniff_content_type : Bytes → Option Text
sniff_content_type body = sniff_loop content_signatures body

-- `sniffed == declared`, where `sniffed` may be None.
abbrev pub is_text : Option Text → Text → Bool
is_text none t = false
is_text (some s) t = text_eq s t

unfoldable pub validate_content_sniff : Text → Bytes → Result (Unit {0})
validate_content_sniff declared_content_type body =
    if not (is_text (sniff_content_type body) declared_content_type)
    then err (bad_request "File content does not match declared content type")
    else ok tt

pub record MalwareScanResult : Type 0 where
  pub clean : Bool
  pub detail : Text

unfoldable pub ensure_malware_scan_is_clean : MalwareScanResult → Result (Unit {0})
ensure_malware_scan_is_clean scan_result =
    if scan_result.clean then ok tt else err (bad_request "File failed malware scanning")

-- The JSON that the scanner answers: an object, with `payload.get("clean") is True`, or another value.
pub data Payload : Type 0 where
  json_object : Bool → Payload
  json_other : Payload

pub record UploadSettings : Type 0 where
  pub upload_max_size_bytes : ℕ
  pub upload_allowed_content_types : Text
  pub upload_presigned_url_expire_seconds : ℕ
  pub upload_stream_chunk_size_bytes : ℕ
  pub upload_malware_scan_enabled : Bool
  pub upload_malware_scanner_url : Text

-- `lower` is `str.lower`; `post url body filename` is the request of `HttpMalwareScanner.scan` with
-- the status and the JSON of its answer, none if it raises what that method catches.
pub record Scanning : Type 0 where
  pub lower : Text → Text
  pub post : Text → Bytes → Text → Option (ℕ × Payload)

module _ (x : Scanning) (settings : UploadSettings) where
  unfoldable pub validate_content_type_format : Text → Result Text
  validate_content_type_format content_type =
      let normalized_content_type = x.lower (strip content_type) in
      if not (matches_content_type_pattern (split 47 normalized_content_type))
      then err (bad_request "Invalid content type format")
      else ok normalized_content_type

  unfoldable pub allowed_content_types : List Text
  allowed_content_types =
      map (λ value. x.lower (strip value))
        (select (λ value. is_nonempty (strip value))
          (split 44 settings.upload_allowed_content_types))

  unfoldable pub validate_declared_content_type : Option Text → Result Text
  validate_declared_content_type none = err (bad_request "Unsupported file type")
  validate_declared_content_type (some content_type) =
      elim (validate_content_type_format content_type) [
        | err e ↦ err e
        | ok normalized_content_type ↦
            if not (is_one_of normalized_content_type allowed_content_types)
            then err (bad_request "Unsupported file type")
            else ok normalized_content_type
      ]

  unfoldable pub infected_filename_scan : Text → MalwareScanResult
  infected_filename_scan filename =
      if contains (x.lower filename) (codes ".infected.")
      then record { clean = false; detail = codes "infected_filename_detected" }
      else record { clean = true; detail = codes "malware_scan_passed" }

  -- What `HttpMalwareScanner.scan` makes of the answer.
  unfoldable pub http_scan_result : Option (ℕ × Payload) → Result MalwareScanResult
  http_scan_result none =
      ok (record { clean = false; detail = codes "malware_scanner_unavailable" })
  http_scan_result (some (status, payload)) =
      if not (status == 200)
      then ok (record { clean = false; detail = codes "malware_scanner_status_" ++ decimal status })
      else elim payload [
        | json_other ↦ err other_error
        | json_object is_clean ↦
            if is_clean
            then ok (record { clean = true; detail = codes "malware_scan_passed" })
            else ok (record { clean = false; detail = codes "malware_detected" })
      ]

  -- `get_malware_scanner().scan(body, filename)`
  unfoldable pub run_malware_scan : Bytes → Text → Result MalwareScanResult
  run_malware_scan body filename =
      let scanner_url = strip settings.upload_malware_scanner_url in
      if not settings.upload_malware_scan_enabled
      then ok (record { clean = true; detail = codes "malware_scan_disabled" })
      else if is_nonempty scanner_url
      then http_scan_result (x.post scanner_url body filename)
      else ok (infected_filename_scan filename)

  -- `ensure_malware_scan_is_clean(run_malware_scan(body, filename))`
  unfoldable pub ensure_clean : Bytes → Text → Result (Unit {0})
  ensure_clean body filename = run_malware_scan body filename >>= ensure_malware_scan_is_clean
