-- ===== src/Examples/ConfigTests.antt =====
-- The theorems on the settings at one production and one staging environment.
use starter_backend_template.Prelude.{
  ◌≡◌, ◌≢◌, ◌≤◌, ◌↔◌, true, false, refl, none, some, [], Text, codes, strip, All,
}
use starter_backend_template.Config.{
  Settings, validate_production_settings, validate_staging_settings, load_settings,
  weak_secret_keys, normalize_fields, field_errors, validators, validate_worker_backoff,
  apply_metrics_auth_default, apply_legacy_routes_default, collect_remote_environment_errors,
  remote_checks, late_checks, webhook_secret_errors, parse_csv_setting, allowed_environments,
  allowed_log_formats, allowed_registration_policies, allowed_redis_ssl_cert_reqs,
  local_database_url, local_password_reset_urls, local_s3_endpoint_urls, local_s3_credentials,
  local_redis_hosts, placeholder_emails,
}
use starter_backend_template.Config.Production.{validate_production_settings_iff}
use starter_backend_template.Config.Remote.{IsProductionReady}
use starter_backend_template.Config.Loading.{load_settings_production}

abbrev same : Text → Text
same t = t

abbrev given : Settings
given = record {
  environment = codes "production";
  database_url = codes "postgresql://db.acme.test/app";
  secret_key = codes "0123456789abcdef0123456789abcdef";
  redis_host = codes "redis.acme.test";
  redis_password = codes "r3dis";
  redis_ssl_cert_reqs = codes "required";
  cors_enabled = true;
  cors_allow_origins = codes "https://acme.test";
  trusted_hosts_enabled = true;
  trusted_hosts = codes "acme.test";
  log_format = codes "json";
  rate_limit_trust_forwarded_headers = true;
  registration_policy = codes "disabled";
  legacy_routes_enabled = none;
  smtp_host = codes "smtp.acme.test";
  smtp_username = codes "mailer";
  smtp_password = codes "m41l";
  email_from = codes "noreply@acme.test";
  password_reset_url = codes "https://acme.test/reset";
  worker_retry_backoff_base_seconds = 5;
  worker_retry_backoff_max_seconds = 300;
  s3_endpoint_url = codes "https://s3.acme.test";
  s3_access_key_id = codes "key";
  s3_secret_access_key = codes "s3cret";
  s3_bucket_name = codes "acme";
  upload_malware_scan_enabled = true;
  upload_malware_scanner_url = codes "https://scan.acme.test";
  metrics_require_auth = none;
  metrics_bearer_token = codes "token";
  webhook_signature_secret = codes "fedcba9876543210fedcba9876543210";
}

abbrev loaded : Settings
loaded = record given { metrics_require_auth = some true; legacy_routes_enabled = some false }

abbrev staging : Settings
staging = record given { environment = codes "staging" }

validate_production_settings_iff_example :
    (validate_production_settings same given ≡ [])
    ↔ (All (λ t. same (strip given.secret_key) ≢ t) weak_secret_keys × IsProductionReady same given)
validate_production_settings_iff_example = validate_production_settings_iff same given refl

load_settings_production_example :
    IsProductionReady same loaded
    × (given.metrics_require_auth ≡ none → strip loaded.metrics_bearer_token ≢ [])
    × (given.legacy_routes_enabled ≡ none → loaded.legacy_routes_enabled ≡ some false)
    × (loaded.worker_retry_backoff_base_seconds ≤ loaded.worker_retry_backoff_max_seconds)
unfolding load_settings normalize_fields field_errors validators validate_worker_backoff
    apply_metrics_auth_default apply_legacy_routes_default validate_production_settings
    validate_staging_settings collect_remote_environment_errors remote_checks late_checks
    webhook_secret_errors parse_csv_setting weak_secret_keys allowed_environments
    allowed_log_formats allowed_registration_policies allowed_redis_ssl_cert_reqs local_database_url
    local_password_reset_urls local_s3_endpoint_urls local_s3_credentials local_redis_hosts
    placeholder_emails
load_settings_production_example = load_settings_production same given loaded refl refl
