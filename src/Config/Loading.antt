-- ===== src/Config/Loading.antt =====
-- What `Settings()` of app/core/config.py guarantees of the settings that it returns.
use starter_backend_template.Prelude.{
  ◌≤◌, ◌≡◌, ◌≢◌, refl, ◌∙◌, true, false, none, some, List, [], ◌∷◌, Text, codes, text_eq, strip,
  arith, inl, inr,
}
use starter_backend_template.Config.{
  Settings, Problem, apply_metrics_auth_default, apply_legacy_routes_default, normalize_fields,
  field_errors, validators, first_failure, load_settings, validate_worker_backoff,
}
use starter_backend_template.Config.Production.{validate_production_settings_iff}
use starter_backend_template.Config.Remote.{IsProductionReady}

first_failure_sound :
    (a b c : List Problem) (s t : Settings)
    → first_failure a b c s ≡ inl t
    → (s ≡ t) × (b ≡ []) × (c ≡ [])
first_failure_sound [] [] [] s t h = (cc, refl, refl)
first_failure_sound [] [] (e ∷ es) s t h = cc
first_failure_sound [] (e ∷ es) c s t h = cc
first_failure_sound (e ∷ es) b c s t h = cc

-- The two defaults, applied.
abbrev with_defaults : Settings → Settings
with_defaults s = apply_legacy_routes_default (apply_metrics_auth_default s)

production_defaults :
    (s : Settings)
    → s.environment ≡ codes "production"
    → (s.metrics_require_auth ≡ none → (with_defaults s).metrics_require_auth ≡ some true)
      × (s.legacy_routes_enabled ≡ none → (with_defaults s).legacy_routes_enabled ≡ some false)
      × ((with_defaults s).environment ≡ s.environment)
unfolding apply_legacy_routes_default apply_metrics_auth_default
production_defaults s e =
    let here : text_eq s.environment (codes "production") ≡ true = rw e refl in
    (λ h. ground (arith, here), λ h. ground (arith, here), ground arith)

module _ (lower : Text → Text) where
  load_settings_validated :
      (s t : Settings)
      → load_settings lower s ≡ inl t
      → validators lower (with_defaults (normalize_fields lower s)) ≡ inl t
  unfolding load_settings
  load_settings_validated s t h = go (field_errors lower s) refl
    where
      go :
          (es : List Problem)
          → field_errors lower s ≡ es
          → validators lower (with_defaults (normalize_fields lower s)) ≡ inl t
      go [] e = rw (e, load_settings) at h
      go (x ∷ xs) e = let bad : inr (x ∷ xs) ≡ inl t = rw (e, load_settings) at h in cc

  -- Settings that load for production are ready for it; what was left open gets the safe choice, an
  -- authenticated metrics endpoint with a token and no legacy routes; and the retry delays are
  -- bounded by their maximum.
  pub load_settings_production :
      (s t : Settings)
      → load_settings lower s ≡ inl t
      → lower s.environment ≡ codes "production"
      → IsProductionReady lower t
        × (s.metrics_require_auth ≡ none → strip t.metrics_bearer_token ≢ [])
        × (s.legacy_routes_enabled ≡ none → t.legacy_routes_enabled ≡ some false)
        × (t.worker_retry_backoff_base_seconds ≤ t.worker_retry_backoff_max_seconds)
  unfolding validators validate_worker_backoff normalize_fields
  load_settings_production s t h e =
      let u = with_defaults (normalize_fields lower s) in
      let (same, production, backoff) =
        first_failure_sound _ _ _ u t (load_settings_validated s t h) in
      let (metrics, legacy, env) = production_defaults (normalize_fields lower s) e in
      let ready = ((validate_production_settings_iff lower u (env ∙ e)).0 production).1 in
      rw (← same)
        (ready, λ unset. ready.metrics_token (rw (metrics unset) refl), legacy, ground arith)
