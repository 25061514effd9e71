-- ===== src/Webhook/Header.antt =====
-- What the signature check accepts, and the two forms of the signature header.
use starter_backend_template.Prelude.{
  ℕ, ◌≤◌, ◌≡◌, ◌≢◌, ◌↔◌, Option, some, [], ◌∷◌, ◌++◌, codes, true, Text, text_eq_sound,
  text_eq_refl, arith, refl, inl, inr, ap, Option-cases, ◌∙◌,
}
use starter_backend_template.Errors.{ok, Result-cases}
use starter_backend_template.Webhook.Signature.{
  ℤ, distance, Crypto, compute_timestamped_hmac_signature, build_timestamped_signing_message,
  is_ascii, parse_webhook_signature_header, or_header, check_signature,
  verify_timestamped_hmac_signature,
}

module _ (crypto : Crypto) where
  -- What a signature and a timestamp that are accepted have in common: the secret is configured, the
  -- header parses, the timestamp that counts is the explicit one if it is there, it is near the
  -- clock, and the signature is ASCII and the HMAC of the timestamp, a dot and the payload.
  abbrev pub IsGenuine : Text → Text → Option ℤ → Text → ℕ → ℕ → ℤ → Type 0
  IsGenuine payload signature timestamp secret tolerance now t =
      (header : Option ℤ) × (parsed : Text) × (parse_webhook_signature_header crypto signature
        ≡ ok (header, parsed))
      × (or_header crypto timestamp header ≡ some t)
      × (secret ≢ [])
      × (distance now t ≤ tolerance)
      × (is_ascii parsed ≡ true)
      × (parsed ≡ crypto.hmac secret (crypto.show t ++ (codes "." ++ payload)))

  check_signature_iff :
      (payload parsed : Text) (t u : ℤ) (secret : Text) (tolerance now : ℕ)
      → (check_signature crypto payload parsed t secret tolerance now ≡ ok u) ↔ (
          (t ≡ u)
          × (distance now t ≤ tolerance)
          × (is_ascii parsed ≡ true)
          × (parsed ≡ crypto.hmac secret (crypto.show t ++ (codes "." ++ payload))))
  unfolding check_signature compute_timestamped_hmac_signature build_timestamped_signing_message
  check_signature_iff payload parsed t u secret tolerance now =
      let mine = crypto.hmac secret (crypto.show t ++ (codes "." ++ payload)) in
      (
        λ h. (ground arith, ground arith, ground arith, ground (arith, text_eq_sound mine parsed)),
        λ h. ground (arith, text_eq_refl mine),
      )

  verify_of_genuine :
      (payload signature : Text) (timestamp : Option ℤ) (secret : Text) (tolerance now : ℕ) (t : ℤ)
      → IsGenuine payload signature timestamp secret tolerance now t
      → verify_timestamped_hmac_signature crypto payload signature timestamp secret tolerance now
        ≡ ok t
  unfolding verify_timestamped_hmac_signature
  verify_of_genuine payload signature timestamp (x ∷ xs) tolerance now t
        (header, parsed, p, o, s, n, i, e) =
      rw (p, verify_timestamped_hmac_signature)
        (rw (o, verify_timestamped_hmac_signature)
          ((check_signature_iff payload parsed t t (x ∷ xs) tolerance now).1 (refl, n, i, e)))
  verify_of_genuine payload signature timestamp [] tolerance now t
        (header, parsed, p, o, s, n, i, e) =
      absurd (s refl)

  verify-IsGenuine :
      (payload signature : Text) (timestamp : Option ℤ) (secret : Text) (tolerance now : ℕ) (t : ℤ)
      → verify_timestamped_hmac_signature crypto payload signature timestamp secret tolerance now
        ≡ ok t
      → IsGenuine payload signature timestamp secret tolerance now t
  unfolding verify_timestamped_hmac_signature
  verify-IsGenuine payload signature timestamp [] tolerance now t h = cc
  verify-IsGenuine payload signature timestamp (x ∷ xs) tolerance now t h =
      elim (Result-cases (parse_webhook_signature_header crypto signature)) [
        | inr (e, bad) ↦ cc (rw (bad, verify_timestamped_hmac_signature) at h)
        | inl ((header, parsed), p) ↦ elim (Option-cases (or_header crypto timestamp header)) [
          | inl gone ↦ cc (
              rw (gone, verify_timestamped_hmac_signature) at
                (rw (p, verify_timestamped_hmac_signature) at h))
          | inr (u, o) ↦
              let k = (check_signature_iff payload parsed u t (x ∷ xs) tolerance now).0 (
                rw (o, verify_timestamped_hmac_signature) at
                  (rw (p, verify_timestamped_hmac_signature) at h)) in
              (
                header,
                parsed,
                p,
                o ∙ ap some k.0,
                (λ e. cc),
                rw (← k.0) k.1,
                k.2,
                k.3 ∙ ap (λ v. crypto.hmac (x ∷ xs) (crypto.show v ++ (codes "." ++ payload))) k.0,
              )
        ]
      ]

  -- The check returns a timestamp exactly if the secret is not empty, the header parses, the timestamp is
  -- the explicit one or else that of the header, it is within the tolerance of the clock, and the
  -- signature in the header is ASCII and the HMAC of the timestamp, a dot and the payload.
  pub verify_timestamped_hmac_signature_iff :
      (payload signature : Text) (timestamp : Option ℤ) (secret : Text) (tolerance now : ℕ) (t : ℤ)
      → (verify_timestamped_hmac_signature crypto payload signature timestamp secret tolerance now
          ≡ ok t)
        ↔ IsGenuine payload signature timestamp secret tolerance now t
  verify_timestamped_hmac_signature_iff p g i s o n t =
      (verify-IsGenuine p g i s o n t, verify_of_genuine p g i s o n t)
