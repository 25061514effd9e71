-- ===== src/Config/Remote.antt =====
-- What a remote and a production environment require, and the runs of tests of
-- `_collect_remote_environment_errors` in app/core/config.py.
use starter_backend_template.Prelude.{
  ◌≤◌, ◌≡◌, ◌≢◌, ◌↔◌, refl, Bool, true, false, ◌&&◌, [], Text, codes, strip, length, All,
}
use starter_backend_template.Config.{
  Settings, is_set, weak_secret_keys, local_database_url, local_password_reset_urls,
  local_s3_endpoint_urls, local_s3_credentials, local_redis_hosts, placeholder_emails,
  parse_csv_setting, remote_checks, late_checks,
}
use starter_backend_template.Config.Checks.{
  text_ne_iff, none_of_iff, not_blank_iff, any_iff, not-false_iff, not_lt_iff, Passes,
}

-- Nothing of the local development set-up is left, and cross-origin requests name their origins.
pub record IsRemoteReady (lower : Text → Text) (s : Settings) : Type 0 where
  pub secret_key : 32 ≤ length (strip s.secret_key)
  pub database_url : s.database_url ≢ local_database_url
  pub smtp_host : strip s.smtp_host ≢ []
  pub smtp_username : strip s.smtp_username ≢ []
  pub smtp_password : strip s.smtp_password ≢ []
  pub email_from : All (λ t. lower s.email_from ≢ t) placeholder_emails
  pub password_reset_url : All (λ t. s.password_reset_url ≢ t) local_password_reset_urls
  pub s3_endpoint_url : All (λ t. s.s3_endpoint_url ≢ t) local_s3_endpoint_urls
  pub s3_access_key_id : All (λ t. s.s3_access_key_id ≢ t) local_s3_credentials
  pub s3_secret_access_key : All (λ t. s.s3_secret_access_key ≢ t) local_s3_credentials
  pub s3_bucket_name : s.s3_bucket_name ≢ codes "uploads"
  pub redis_host : All (λ t. s.redis_host ≢ t) local_redis_hosts
  pub redis_password : strip s.redis_password ≢ []
  pub cors_named : s.cors_enabled ≡ true → parse_csv_setting s.cors_allow_origins ≢ []
  pub cors_no_wildcard :
      s.cors_enabled ≡ true → All (λ t. codes "*" ≢ t) (parse_csv_setting s.cors_allow_origins)

pub record IsProductionReady (lower : Text → Text) (s : Settings) : Type 0 where
  pub remote : IsRemoteReady lower s
  pub trusted_hosts_enabled : s.trusted_hosts_enabled ≡ true
  pub trusted_hosts : parse_csv_setting s.trusted_hosts ≢ []
  pub forwarded_headers : s.rate_limit_trust_forwarded_headers ≡ true
  pub webhook_secret : 32 ≤ length (strip s.webhook_signature_secret)
  pub webhook_strong : All (λ t. lower (strip s.webhook_signature_secret) ≢ t) weak_secret_keys
  pub metrics_token : is_set s.metrics_require_auth ≡ true → strip s.metrics_bearer_token ≢ []
  pub malware_scan : s.upload_malware_scan_enabled ≡ true
  pub scanner_url : strip s.upload_malware_scanner_url ≢ []

and_false : (a b : Bool) → (a && b ≡ false) ↔ (a ≡ true → b ≡ false)
and_false true b = (λ h _. h, λ h. h refl)
and_false false b = (λ h x. cc, λ h. refl)

-- A test that is made only under a condition.
and_then :
    (a : Bool) {b : Bool} {P : Type 0} → ((b ≡ false) ↔ P) → (a && b ≡ false) ↔ (a ≡ true → P)
and_then a {b} e = (λ h x. e.0 ((and_false a b).0 h x), λ f. (and_false a b).1 (λ x. e.1 (f x)))

module _ (lower : Text → Text) (s : Settings) (b : Bool) where
  -- The three tests on proxies and hosts.
  abbrev pub Trusts : Type 0
  Trusts =
      (b ≡ true → s.trusted_hosts_enabled ≡ true)
      × (b ≡ true → parse_csv_setting s.trusted_hosts ≢ [])
      × (b ≡ true → s.rate_limit_trust_forwarded_headers ≡ true)

  pub remote_iff : All Passes (remote_checks lower s b) ↔ (IsRemoteReady lower s × Trusts)
  unfolding remote_checks
  remote_iff = (
    λ h.
        let (p0, h0) = h in
        let (p1, h1) = h0 in
        let (p2, h2) = h1 in
        let (p3, h3) = h2 in
        let (p4, h4) = h3 in
        let (p5, h5) = h4 in
        let (p6, h6) = h5 in
        let (p7, h7) = h6 in
        let (p8, h8) = h7 in
        let (p9, h9) = h8 in
        let (p10, h10) = h9 in
        let (p11, h11) = h10 in
        let (p12, h12) = h11 in
        let (p13, h13) = h12 in
        let (p14, h14) = h13 in
        let (p15, h15) = h14 in
        let (p16, h16) = h15 in
        let (p17, h17) = h16 in
        (
          record {
            secret_key = (not_lt_iff _ 32).0 p0;
            database_url = (text_ne_iff _ _).0 p1;
            smtp_host = (not_blank_iff s.smtp_host).0 p2;
            smtp_username = (not_blank_iff s.smtp_username).0 p3;
            smtp_password = (not_blank_iff s.smtp_password).0 p4;
            email_from = (none_of_iff _ _).0 p5;
            password_reset_url = (none_of_iff _ _).0 p6;
            s3_endpoint_url = (none_of_iff _ _).0 p7;
            s3_access_key_id = (none_of_iff _ _).0 p8;
            s3_secret_access_key = (none_of_iff _ _).0 p9;
            s3_bucket_name = (text_ne_iff _ _).0 p10;
            redis_host = (none_of_iff _ _).0 p11;
            redis_password = (not_blank_iff s.redis_password).0 p12;
            cors_named = (and_then s.cors_enabled (any_iff _)).0 p16;
            cors_no_wildcard = (and_then s.cors_enabled (none_of_iff _ _)).0 p17;
          },
          (
            (and_then b (not-false_iff _)).0 p13,
            (and_then b (any_iff _)).0 p14,
            (and_then b (not-false_iff _)).0 p15,
          ),
        ),
    λ (v, t). (
      (not_lt_iff _ 32).1 v.secret_key,
      (
        (text_ne_iff _ _).1 v.database_url,
        (
          (not_blank_iff s.smtp_host).1 v.smtp_host,
          (
            (not_blank_iff s.smtp_username).1 v.smtp_username,
            (
              (not_blank_iff s.smtp_password).1 v.smtp_password,
              (
                (none_of_iff _ _).1 v.email_from,
                (
                  (none_of_iff _ _).1 v.password_reset_url,
                  (
                    (none_of_iff _ _).1 v.s3_endpoint_url,
                    (
                      (none_of_iff _ _).1 v.s3_access_key_id,
                      (
                        (none_of_iff _ _).1 v.s3_secret_access_key,
                        (
                          (text_ne_iff _ _).1 v.s3_bucket_name,
                          (
                            (none_of_iff _ _).1 v.redis_host,
                            (
                              (not_blank_iff s.redis_password).1 v.redis_password,
                              (
                                (and_then b (not-false_iff _)).1 t.0,
                                (
                                  (and_then b (any_iff _)).1 t.1,
                                  (
                                    (and_then b (not-false_iff _)).1 t.2,
                                    (
                                      (and_then s.cors_enabled (any_iff _)).1 v.cors_named,
                                      (
                                        (and_then s.cors_enabled (none_of_iff _ _)).1
                                            v.cors_no_wildcard,
                                        (tt),
                                      ),
                                    ),
                                  ),
                                ),
                              ),
                            ),
                          ),
                        ),
                      ),
                    ),
                  ),
                ),
              ),
            ),
          ),
        ),
      ),
    ),
  )

  pub late_iff :
      (c : Bool)
      → All Passes (late_checks lower s c b) ↔ (
          (b ≡ true → is_set s.metrics_require_auth ≡ true → strip s.metrics_bearer_token ≢ [])
          × (c ≡ true → s.upload_malware_scan_enabled ≡ true)
          × (c ≡ true → strip s.upload_malware_scanner_url ≢ []))
  unfolding late_checks
  late_iff c = (
    λ (x, (y, (z, _))). (
      (and_then b
            (and_then (is_set s.metrics_require_auth) (not_blank_iff s.metrics_bearer_token))).0
          x,
      (and_then c (not-false_iff _)).0 y,
      (and_then c (not_blank_iff s.upload_malware_scanner_url)).0 z,
    ),
    λ (x, y, z). (
      (and_then b
            (and_then (is_set s.metrics_require_auth) (not_blank_iff s.metrics_bearer_token))).1
          x,
      (
        (and_then c (not-false_iff _)).1 y,
        ((and_then c (not_blank_iff s.upload_malware_scanner_url)).1 z, tt),
      ),
    ),
  )
