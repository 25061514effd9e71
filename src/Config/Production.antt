-- ===== src/Config/Production.antt =====
-- What `validate_staging_settings` and `validate_production_settings` of app/core/config.py accept.
use starter_backend_template.Prelude.{
  Bool-cases, sym, ◌∙◌, ◌≤◌, ◌≡◌, ◌≢◌, ◌↔◌, refl, Bool, true, false, List, [], ◌∷◌, Text, codes,
  text_eq, is_one_of, strip, length, All, arith, inl, inr,
}
use starter_backend_template.Config.{
  Settings, Problem, secret_key_weak, reports, weak_secret_keys, webhook_secret_errors,
  remote_checks, late_checks, collect_remote_environment_errors, validate_staging_settings,
  validate_production_settings,
}
use starter_backend_template.Config.Checks.{none_of_iff, not_lt_iff, Passes, reports_iff}
use starter_backend_template.Config.Remote.{
  IsRemoteReady, IsProductionReady, Trusts, remote_iff, late_iff,
}

module _ (lower : Text → Text) where
  webhook_iff :
      (w : Text) (rest : List Problem)
      → (webhook_secret_errors lower w rest ≡ [])
        ↔ (((32 ≤ length w) × All (λ t. lower w ≢ t) weak_secret_keys) × (rest ≡ []))
  unfolding webhook_secret_errors
  webhook_iff [] rest = (λ h. cc, λ h. absurd (omega (arith, h.0.0)))
  webhook_iff (x ∷ w) rest =
      let weak = is_one_of (lower (x ∷ w)) weak_secret_keys in
      let clear = none_of_iff (lower (x ∷ w)) weak_secret_keys in
      (
        λ h. elim (Bool-cases weak) [
          | inl e ↦ cc e
          | inr e ↦ (
            ((not_lt_iff (length (x ∷ w)) 32).0 (ground (arith, e)), clear.0 e),
            ground (arith, e),
          )
        ],
        λ h. ground (arith, clear.1 h.0.1, (not_lt_iff (length (x ∷ w)) 32).1 h.0.0),
      )

  collect_iff :
      (s : Settings) (production trust webhook : Bool)
      → (collect_remote_environment_errors lower s production trust webhook ≡ []) ↔ (
          (IsRemoteReady lower s × Trusts lower s trust)
          × (webhook ≡ true
              → (32 ≤ length (strip s.webhook_signature_secret))
                × All (λ t. lower (strip s.webhook_signature_secret) ≢ t) weak_secret_keys)
          × All Passes (late_checks lower s production trust))
  unfolding collect_remote_environment_errors
  collect_iff s production trust true =
      let front = reports_iff (remote_checks lower s trust) (
        webhook_secret_errors lower (strip s.webhook_signature_secret)
          (reports (late_checks lower s production trust) [])) in
      let middle =
        webhook_iff (strip s.webhook_signature_secret)
          (reports (late_checks lower s production trust) []) in
      let back = reports_iff (late_checks lower s production trust) [] in
      (
        λ h.
            let (a, m) = front.0 h in
            let (w, l) = middle.0 m in ((remote_iff lower s trust).0 a, λ _. w, (back.0 l).0),
        λ (a, w, l). front.1 ((remote_iff lower s trust).1 a, middle.1 (w refl, back.1 (l, refl))),
      )
  collect_iff s production trust false =
      let front =
        reports_iff (remote_checks lower s trust)
          (reports (late_checks lower s production trust) []) in
      let back = reports_iff (late_checks lower s production trust) [] in
      (
        λ h. let (a, m) = front.0 h in ((remote_iff lower s trust).0 a, λ e. cc, (back.0 m).0),
        λ (a, w, l). front.1 ((remote_iff lower s trust).1 a, back.1 (l, refl)),
      )

  production_weak :
      (s : Settings)
      → is_one_of (lower (strip s.secret_key)) weak_secret_keys ≡ true
      → validate_production_settings lower s ≡ secret_key_weak ∷ []
  unfolding validate_production_settings
  production_weak s h = rw h refl

  production_strong :
      (s : Settings)
      → is_one_of (lower (strip s.secret_key)) weak_secret_keys ≡ false
      → s.environment ≡ codes "production"
      → validate_production_settings lower s
        ≡ collect_remote_environment_errors lower s true true true
  unfolding validate_production_settings
  production_strong s h e =
      let here : text_eq s.environment (codes "production") ≡ true = rw e refl in
      rw h (rw here refl)

  -- The production validator accepts exactly the settings with a strong secret that are ready for
  -- production.
  pub validate_production_settings_iff :
      (s : Settings)
      → s.environment ≡ codes "production"
      → (validate_production_settings lower s ≡ [])
        ↔ (All (λ t. lower (strip s.secret_key) ≢ t) weak_secret_keys × IsProductionReady lower s)
  unfolding validate_production_settings
  validate_production_settings_iff s e =
      let strong = none_of_iff (lower (strip s.secret_key)) weak_secret_keys in
      let all = collect_iff s true true true in
      let late = late_iff lower s true true in
      (
        λ h. elim (Bool-cases (is_one_of (lower (strip s.secret_key)) weak_secret_keys)) [
          | inl weak ↦ cc (production_weak s weak, h)
          | inr ok ↦
              let ((v, t), w, l) = all.0 (sym (production_strong s ok e) ∙ h) in
              let (m, k, u) = late.0 l in
              (
                strong.0 ok,
                record {
                  remote = v;
                  trusted_hosts_enabled = t.0 refl;
                  trusted_hosts = t.1 refl;
                  forwarded_headers = t.2 refl;
                  webhook_secret = (w refl).0;
                  webhook_strong = (w refl).1;
                  metrics_token = m refl;
                  malware_scan = k refl;
                  scanner_url = u refl;
                },
              )
        ],
        λ (h, v).
            production_strong s (strong.1 h) e
            ∙ all.1 (
              (
                v.remote,
                (λ _. v.trusted_hosts_enabled, λ _. v.trusted_hosts, λ _. v.forwarded_headers),
              ),
              λ _. (v.webhook_secret, v.webhook_strong),
              late.1 (λ _. v.metrics_token, λ _. v.malware_scan, λ _. v.scanner_url),
            ),
      )

  staging_strong :
      (s : Settings)
      → is_one_of (lower (strip s.secret_key)) weak_secret_keys ≡ false
      → s.environment ≡ codes "staging"
      → validate_staging_settings lower s
        ≡ collect_remote_environment_errors lower s false false false
  unfolding validate_staging_settings
  staging_strong s h e =
      let here : text_eq s.environment (codes "staging") ≡ true = rw e refl in rw h (rw here refl)

  staging_weak :
      (s : Settings)
      → is_one_of (lower (strip s.secret_key)) weak_secret_keys ≡ true
      → validate_staging_settings lower s ≡ secret_key_weak ∷ []
  unfolding validate_staging_settings
  staging_weak s h = rw h refl

  -- The staging validator accepts exactly the settings with a strong secret that keep nothing of the
  -- local set-up; the demands on hosts, webhooks, metrics and malware are production's alone.
  pub validate_staging_settings_iff :
      (s : Settings)
      → s.environment ≡ codes "staging"
      → (validate_staging_settings lower s ≡ [])
        ↔ (All (λ t. lower (strip s.secret_key) ≢ t) weak_secret_keys × IsRemoteReady lower s)
  validate_staging_settings_iff s e =
      let strong = none_of_iff (lower (strip s.secret_key)) weak_secret_keys in
      let all = collect_iff s false false false in
      let late = late_iff lower s false false in
      (
        λ h. elim (Bool-cases (is_one_of (lower (strip s.secret_key)) weak_secret_keys)) [
          | inl weak ↦ cc (staging_weak s weak, h)
          | inr ok ↦ (strong.0 ok, (all.0 (sym (staging_strong s ok e) ∙ h)).0.0)
        ],
        λ (h, v).
            staging_strong s (strong.1 h) e
            ∙ all.1 ((v, (λ x. cc, λ x. cc, λ x. cc)), λ x. cc, late.1 (λ x. cc, λ x. cc, λ x. cc)),
      )
