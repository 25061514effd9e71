-- ===== src/Config.antt =====
-- app/core/config.py: the settings that the validators read, and the validators. `lower` is Python's
-- `str.lower`, a parameter; a problem is a constructor in place of its message. The bounds that
-- `Field(gt=0)` and the like declare are checked by pydantic and are not modelled.
pub mod Checks
pub mod Remote
pub mod Production
pub mod Loading
use starter_backend_template.Prelude.{
  ℕ, ◌≤◌, Bool, true, false, not, ◌&&◌, ◌||◌, if◌then◌else◌, ltb, Option, none, some, List, [], ◌∷◌,
  map, Text, codes, text_eq, is_one_of, is_nonempty, strip, ◌⊎◌, inl, inr, split, length, select,
}

pub record Settings : Type 0 where
  pub environment : Text
  pub database_url : Text
  pub secret_key : Text
  pub redis_host : Text
  pub redis_password : Text
  pub redis_ssl_cert_reqs : Text
  pub cors_enabled : Bool
  pub cors_allow_origins : Text
  pub trusted_hosts_enabled : Bool
  pub trusted_hosts : Text
  pub log_format : Text
  pub rate_limit_trust_forwarded_headers : Bool
  pub registration_policy : Text
  pub legacy_routes_enabled : Option Bool
  pub smtp_host : Text
  pub smtp_username : Text
  pub smtp_password : Text
  pub email_from : Text
  pub password_reset_url : Text
  pub worker_retry_backoff_base_seconds : ℕ
  pub worker_retry_backoff_max_seconds : ℕ
  pub s3_endpoint_url : Text
  pub s3_access_key_id : Text
  pub s3_secret_access_key : Text
  pub s3_bucket_name : Text
  pub upload_malware_scan_enabled : Bool
  pub upload_malware_scanner_url : Text
  pub metrics_require_auth : Option Bool
  pub metrics_bearer_token : Text
  pub webhook_signature_secret : Text

pub data Problem : Type 0 where
  environment_unknown log_format_unknown registration_policy_unknown : Problem
  redis_ssl_cert_reqs_unknown secret_key_weak backoff_order : Problem
  secret_key_short database_url_local smtp_host_missing smtp_username_missing : Problem
  smtp_password_missing email_from_placeholder password_reset_url_local : Problem
  s3_endpoint_url_local s3_access_key_id_default s3_secret_access_key_default : Problem
  s3_bucket_name_default redis_host_local redis_password_missing : Problem
  trusted_hosts_disabled trusted_hosts_missing forwarded_headers_untrusted : Problem
  cors_allow_origins_missing cors_allow_origins_wildcard webhook_secret_missing : Problem
  webhook_secret_weak webhook_secret_short metrics_bearer_token_missing : Problem
  malware_scan_disabled malware_scanner_url_missing : Problem

unfoldable pub allowed_environments : List Text
allowed_environments =
    codes "development" ∷ codes "test" ∷ codes "staging" ∷ codes "production" ∷ []

unfoldable pub allowed_log_formats : List Text
allowed_log_formats = codes "text" ∷ codes "json" ∷ []

unfoldable pub allowed_registration_policies : List Text
allowed_registration_policies = codes "public" ∷ codes "disabled" ∷ []

unfoldable pub weak_secret_keys : List Text
weak_secret_keys =
    codes "change-me" ∷ codes "changeme" ∷ codes "secret" ∷ codes "test" ∷ codes "password" ∷ []

unfoldable pub local_database_url : Text
local_database_url = codes "postgresql://app_user:app_password@db:5432/app_db"

unfoldable pub local_password_reset_urls : List Text
local_password_reset_urls =
    codes "http://localhost:8000/reset-password" ∷ codes "http://127.0.0.1:8000/reset-password" ∷ []

unfoldable pub local_s3_endpoint_urls : List Text
local_s3_endpoint_urls =
    codes "http://minio:9000" ∷ codes "http://localhost:9000" ∷ codes "http://127.0.0.1:9000" ∷ []

unfoldable pub local_s3_credentials : List Text
local_s3_credentials = codes "minioadmin" ∷ []

unfoldable pub local_redis_hosts : List Text
local_redis_hosts = codes "redis" ∷ codes "localhost" ∷ codes "127.0.0.1" ∷ []

unfoldable pub allowed_redis_ssl_cert_reqs : List Text
allowed_redis_ssl_cert_reqs = codes "none" ∷ codes "optional" ∷ codes "required" ∷ []

unfoldable pub placeholder_emails : List Text
placeholder_emails = codes "noreply@example.com" ∷ []

unfoldable pub parse_csv_setting : Text → List Text
parse_csv_setting value = map strip (select (λ item. is_nonempty (strip item)) (split b',' value))

-- A run of statements `if test: errors.append(problem)`, before later ones.
abbrev pub reports : List (Bool × Problem) → List Problem → List Problem
reports [] rest = rest
reports ((test, problem) ∷ more) rest =
    if test then problem ∷ reports more rest else reports more rest

-- One such statement.
abbrev pub report : Bool → Problem → List Problem → List Problem
report test problem rest = if test then problem ∷ rest else rest

-- `x.strip() == ""`
abbrev pub is_blank : Text → Bool
is_blank x = not (is_nonempty (strip x))

-- What three validators in a row return for the settings, or raise.
abbrev pub first_failure :
    List Problem → List Problem → List Problem → Settings → Settings ⊎ List Problem
first_failure [] [] [] s = inl s
first_failure [] [] (e ∷ es) s = inr (e ∷ es)
first_failure [] (e ∷ es) third s = inr (e ∷ es)
first_failure (e ∷ es) second third s = inr (e ∷ es)

-- The truth test of a list.
abbrev pub is_any : List Text → Bool
is_any [] = false
is_any (x ∷ xs) = true

-- `bool(self.metrics_require_auth)`
abbrev pub is_set : Option Bool → Bool
is_set none = false
is_set (some b) = b

unfoldable pub apply_metrics_auth_default : Settings → Settings
apply_metrics_auth_default s = elim s.metrics_require_auth [
  | none ↦ record s { metrics_require_auth = some (text_eq s.environment (codes "production")) }
  | some b ↦ s
]

unfoldable pub apply_legacy_routes_default : Settings → Settings
apply_legacy_routes_default s = elim s.legacy_routes_enabled [
  | none ↦ record s {
    legacy_routes_enabled = some (not (text_eq s.environment (codes "production")));
  }
  | some b ↦ s
]

unfoldable pub validate_worker_backoff : Settings → List Problem
validate_worker_backoff s =
    report (ltb s.worker_retry_backoff_max_seconds s.worker_retry_backoff_base_seconds)
      backoff_order []

-- `registration_enabled`
unfoldable pub registration_enabled : Settings → Bool
registration_enabled s = text_eq s.registration_policy (codes "public")

module _ (lower : Text → Text) where
  -- The first of the three tests of the webhook secret that fails.
  unfoldable pub webhook_secret_errors : Text → List Problem → List Problem
  webhook_secret_errors webhook_secret rest =
      if not (is_nonempty webhook_secret)
      then webhook_secret_missing ∷ rest
      else if is_one_of (lower webhook_secret) weak_secret_keys
      then webhook_secret_weak ∷ rest
      else if ltb (length webhook_secret) 32
      then webhook_secret_short ∷ rest
      else rest

  -- The tests before those of the webhook secret, and after them. `production` is
  -- `environment_name == "production"`.
  unfoldable pub remote_checks : Settings → Bool → List (Bool × Problem)
  remote_checks s require_trusted_hosts =
      (ltb (length (strip s.secret_key)) 32, secret_key_short)
      ∷ (text_eq s.database_url local_database_url, database_url_local)
      ∷ (is_blank s.smtp_host, smtp_host_missing)
      ∷ (is_blank s.smtp_username, smtp_username_missing)
      ∷ (is_blank s.smtp_password, smtp_password_missing)
      ∷ (is_one_of (lower s.email_from) placeholder_emails, email_from_placeholder)
      ∷ (is_one_of s.password_reset_url local_password_reset_urls, password_reset_url_local)
      ∷ (is_one_of s.s3_endpoint_url local_s3_endpoint_urls, s3_endpoint_url_local)
      ∷ (is_one_of s.s3_access_key_id local_s3_credentials, s3_access_key_id_default)
      ∷ (is_one_of s.s3_secret_access_key local_s3_credentials, s3_secret_access_key_default)
      ∷ (text_eq s.s3_bucket_name (codes "uploads"), s3_bucket_name_default)
      ∷ (is_one_of s.redis_host local_redis_hosts, redis_host_local)
      ∷ (is_blank s.redis_password, redis_password_missing)
      ∷ (require_trusted_hosts && not s.trusted_hosts_enabled, trusted_hosts_disabled)
      ∷ (
        require_trusted_hosts && not (is_any (parse_csv_setting s.trusted_hosts)),
        trusted_hosts_missing,
      )
      ∷ (
        require_trusted_hosts && not s.rate_limit_trust_forwarded_headers,
        forwarded_headers_untrusted,
      )
      ∷ (
        s.cors_enabled && not (is_any (parse_csv_setting s.cors_allow_origins)),
        cors_allow_origins_missing,
      )
      ∷ (
        s.cors_enabled && is_one_of (codes "*") (parse_csv_setting s.cors_allow_origins),
        cors_allow_origins_wildcard,
      )
      ∷ []

  unfoldable pub late_checks :
      Settings → (production require_trusted_hosts : Bool) → List (Bool × Problem)
  late_checks s production require_trusted_hosts =
      (
        require_trusted_hosts && (is_set s.metrics_require_auth && is_blank s.metrics_bearer_token),
        metrics_bearer_token_missing,
      )
      ∷ (production && not s.upload_malware_scan_enabled, malware_scan_disabled)
      ∷ (production && is_blank s.upload_malware_scanner_url, malware_scanner_url_missing)
      ∷ []

  unfoldable pub collect_remote_environment_errors :
      Settings → (production require_trusted_hosts require_webhook_secret : Bool) → List Problem
  collect_remote_environment_errors s production require_trusted_hosts require_webhook_secret =
      let late = reports (late_checks s production require_trusted_hosts) [] in
      reports (remote_checks s require_trusted_hosts) (
        if require_webhook_secret
        then webhook_secret_errors (strip s.webhook_signature_secret) late
        else late)

  -- The problems that a validator raises; none is `return self`.
  unfoldable pub validate_staging_settings : Settings → List Problem
  validate_staging_settings s =
      if is_one_of (lower (strip s.secret_key)) weak_secret_keys
      then secret_key_weak ∷ []
      else if not (text_eq s.environment (codes "staging"))
      then []
      else collect_remote_environment_errors s false false false

  unfoldable pub validate_production_settings : Settings → List Problem
  validate_production_settings s =
      if is_one_of (lower (strip s.secret_key)) weak_secret_keys
      then secret_key_weak ∷ []
      else if not (text_eq s.environment (codes "production"))
      then []
      else collect_remote_environment_errors s true true true

  -- The four field validators that normalise by `lower` and test membership.
  unfoldable pub normalize_fields : Settings → Settings
  normalize_fields s = record s {
    environment = lower s.environment;
    registration_policy = lower s.registration_policy;
    log_format = lower s.log_format;
    redis_ssl_cert_reqs = lower s.redis_ssl_cert_reqs;
  }

  unfoldable pub field_errors : Settings → List Problem
  field_errors s =
      report (not (is_one_of (lower s.environment) allowed_environments)) environment_unknown (
        report (not (is_one_of (lower s.registration_policy) allowed_registration_policies))
          registration_policy_unknown
          (report (not (is_one_of (lower s.log_format) allowed_log_formats)) log_format_unknown (
            report (not (is_one_of (lower s.redis_ssl_cert_reqs) allowed_redis_ssl_cert_reqs))
              redis_ssl_cert_reqs_unknown [])))

  -- The validators that may raise, in the order of the class; the first that raises ends the chain.
  unfoldable pub validators : Settings → Settings ⊎ List Problem
  validators s =
      first_failure (validate_staging_settings s) (validate_production_settings s)
        (validate_worker_backoff s) s

  -- `Settings()`: the field validators, the two defaults, and the validators of the whole.
  unfoldable pub load_settings : Settings → Settings ⊎ List Problem
  load_settings s = elim (field_errors s) [
    | e ∷ es ↦ inr (e ∷ es)
    | [] ↦
        validators (apply_legacy_routes_default (apply_metrics_auth_default (normalize_fields s)))
  ]
