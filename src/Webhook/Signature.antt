-- ===== src/Webhook/Signature.antt =====
-- app/core/webhook_security.py and `verify_inbound_webhook_signature` of
-- app/services/webhook_service.py. `hmac`, `lower`, `int` and the decimal `show` of a number are the
-- standard library's, as parameters. A class `\d` of the pattern is read as the ASCII digits.
use starter_backend_template.Prelude.{
  length, ℕ, ◌+◌, ◌-◌, Bool, true, not, ◌&&◌, ◌||◌, if◌then◌else◌, ltb, leb, ◌==◌, Option, none,
  some, [], ◌∷◌, ◌++◌, Text, codes, text_eq, is_nonempty, strip,
}
use starter_backend_template.Errors.{
  payload_too_large, value_error, type_error, webhook_signature_error, unauthorized, Result, ok,
  err,
}

-- Python's `int`; `negsuc n` is -(n + 1).
pub data ℤ : Type 0 where
  pos : ℕ → ℤ
  negsuc : ℕ → ℤ

-- `abs(n - t)`
unfoldable pub distance : ℕ → ℤ → ℕ
distance n (pos t) = if leb t n then n - t else t - n
distance n (negsuc t) = n + t + 1

abbrev pub is_digit : ℕ → Bool
is_digit c = leb b'0' c && leb c b'9'

-- `[a-f0-9]` under `re.IGNORECASE`
abbrev pub is_hex : ℕ → Bool
is_hex c = is_digit c || (leb b'a' c && leb c b'f') || (leb b'A' c && leb c b'F')

-- `s.isascii()`
abbrev pub is_ascii : Text → Bool
is_ascii [] = true
is_ascii (c ∷ s) = ltb c 128 && is_ascii s

-- The longest prefix of characters that pass a test, and the rest.
abbrev pub span : (ℕ → Bool) → Text → Text × Text
span p [] = ([], [])
span p (c ∷ s) = let r = span p s in if p c then (c ∷ r.0, r.1) else ([], c ∷ s)

abbrev hex_digits : Text × Text → Option (Option Text)
hex_digits (digits, rest) = if is_nonempty rest then none else some (some digits)

-- `(?:,v1=(?P<signature>[a-f0-9]+))?$` on what follows the timestamp.
abbrev pub match_signature : Text → Option (Option Text)
match_signature [] = some none
match_signature (c ∷ v ∷ n ∷ e ∷ hex ∷ s) =
    if c == b',' && (v == b'v' || v == b'V') && n == b'1' && e == b'=' && is_hex hex
    then hex_digits (span is_hex (hex ∷ s))
    else none
match_signature (c ∷ s) = none

abbrev match_timestamp : Text × Text → Option (Text × Option Text)
match_timestamp ([], rest) = none
match_timestamp (c ∷ digits, rest) = elim (match_signature rest) [
  | none ↦ none
  | some signature ↦ some (c ∷ digits, signature)
]

-- `STRIPE_STYLE_SIGNATURE_PATTERN.fullmatch`
unfoldable pub stripe_match : Text → Option (Text × Option Text)
stripe_match [] = none
stripe_match (t ∷ []) = none
stripe_match (t ∷ e ∷ s) =
    if (t == b't' || t == b'T') && e == b'=' then match_timestamp (span is_digit s) else none

-- app/services/webhook_service.py; the limit is `settings.webhook_max_body_bytes`.
unfoldable pub enforce_webhook_body_size : (webhook_max_body_bytes : ℕ) → Text → Result (Unit {0})
enforce_webhook_body_size webhook_max_body_bytes raw_body =
    if ltb webhook_max_body_bytes (length raw_body)
    then err (payload_too_large "Webhook payload too large")
    else ok tt

pub record Crypto : Type 0 where
  -- `hmac.new(secret, message, sha256).hexdigest()`
  pub hmac : Text → Text → Text
  pub lower : Text → Text
  pub int : Text → Option ℤ
  pub show : ℤ → Text

module _ (crypto : Crypto) where
  open crypto use {hmac, lower, int, show}

  unfoldable pub build_timestamped_signing_message : ℤ → Text → Text
  build_timestamped_signing_message timestamp payload = show timestamp ++ (codes "." ++ payload)

  unfoldable pub compute_timestamped_hmac_signature : ℤ → Text → Text → Text
  compute_timestamped_hmac_signature timestamp payload secret =
      hmac secret (build_timestamped_signing_message timestamp payload)

  abbrev pub stripe_header : Text × Option Text → Result (Option ℤ × Text)
  stripe_header (digits, signature) = elim (int digits) [
    | none ↦ err (value_error "invalid literal for int()")
    | some timestamp ↦ elim signature [
      | none ↦ err (webhook_signature_error "Webhook signature version is required")
      | some parsed_signature ↦ ok (some timestamp, lower parsed_signature)
    ]
  ]

  unfoldable pub parse_webhook_signature_header : Text → Result (Option ℤ × Text)
  parse_webhook_signature_header signature = elim (stripe_match (strip signature)) [
    | some parts ↦ stripe_header parts
    | none ↦ ok (none, lower (strip signature))
  ]

  -- `timestamp if timestamp is not None else header_timestamp`
  abbrev pub or_header : Option ℤ → Option ℤ → Option ℤ
  or_header (some t) header = some t
  or_header none header = header

  -- What follows the choice of the timestamp. `hmac.compare_digest` takes no other text than ASCII; that
  -- of a digest is.
  unfoldable pub check_signature : Text → Text → ℤ → Text → ℕ → ℕ → Result ℤ
  check_signature payload parsed_signature effective_timestamp secret tolerance_seconds now =
      if ltb tolerance_seconds (distance now effective_timestamp)
      then err (webhook_signature_error "Webhook timestamp is outside the replay window")
      else if not (is_ascii parsed_signature)
      then err type_error
      else if not (
          text_eq (compute_timestamped_hmac_signature effective_timestamp payload secret)
            parsed_signature)
      then err (webhook_signature_error "Invalid webhook signature")
      else ok effective_timestamp

  unfoldable pub verify_timestamped_hmac_signature :
      Text → Text → Option ℤ → Text → ℕ → ℕ → Result ℤ
  verify_timestamped_hmac_signature payload signature timestamp secret tolerance_seconds now =
      if not (is_nonempty secret)
      then err (webhook_signature_error "Webhook signature secret is not configured")
      else elim (parse_webhook_signature_header signature) [
        | err e ↦ err e
        | ok (header_timestamp, parsed_signature) ↦ elim (or_header timestamp header_timestamp) [
          | none ↦ err (webhook_signature_error "Webhook timestamp is required")
          | some effective_timestamp ↦
              check_signature payload parsed_signature effective_timestamp secret tolerance_seconds
                now
        ]
      ]

  -- `except WebhookSignatureError as exc: raise UnauthorizedError(str(exc))`
  abbrev pub unauthorize : Result ℤ → Result (Unit {0})
  unauthorize (ok t) = ok tt
  unauthorize (err (webhook_signature_error m)) = err (unauthorized m)
  unauthorize (err e) = err e

  unfoldable pub verify_inbound_webhook_signature :
      Text → Option Text → Option Text → Text → ℕ → ℕ → Result (Unit {0})
  verify_inbound_webhook_signature payload none timestamp secret tolerance_seconds now =
      err (unauthorized "Webhook signature header is required")
  verify_inbound_webhook_signature payload (some signature) none secret tolerance_seconds now =
      unauthorize
        (verify_timestamped_hmac_signature payload signature none secret tolerance_seconds now)
  verify_inbound_webhook_signature payload (some signature) (some timestamp) secret
        tolerance_seconds now =
      elim (int (strip timestamp)) [
        | none ↦ err (unauthorized "Webhook timestamp must be a Unix timestamp")
        | some parsed_timestamp ↦ unauthorize (
            verify_timestamped_hmac_signature payload signature (some parsed_timestamp) secret
              tolerance_seconds now)
      ]
