-- ===== src/Errors.antt =====
-- app/core/domain_errors.py and app/core/exception_handlers.py: the exceptions of the program as a
-- data type, and the status and code of the response that each one ends in.
-- `Exec` is a call that may change a state and may raise: what was written before a raise stays
-- written.
pub mod Chains
use starter_backend_template.Prelude.{
  ℕ, String, Text, Bool, true, false, ◌≡◌, refl, ◌==◌, if◌then◌else◌, Option, none, some, ◌⊎◌, inl,
  inr,
}

-- The two exceptions of botocore that the program names.
pub data S3Error : Type 0 where
  client_error boto_core_error : S3Error

pub data Error : Type 0 where
  -- the subclasses of `DomainError`, each with its message
  bad_request unauthorized forbidden not_found conflict : String → Error
  payload_too_large service_unavailable : String → Error
  -- `HTTPException(status_code, detail)`
  http_exception : ℕ → String → Error
  value_error webhook_signature_error : String → Error
  integrity_error email_delivery_error jwt_error redis_error : Error
  s3_error : S3Error → Error
  -- what a job may raise besides, and what reading malformed JSON raises
  unknown_job_type : Text → Error
  malformed other_error : Error
  -- Python's `TypeError`
  type_error : Error
  -- not an exception of Python: what stands here for a job whose JSON fields have types that the class
  -- does not name, which Python builds all the same
  ill_typed : Error

-- The status of the response: `exc.status_code` in the handlers, 500 for an unhandled exception.
unfoldable pub status_code : Error → ℕ
status_code (bad_request m) = 400
status_code (unauthorized m) = 401
status_code (forbidden m) = 403
status_code (not_found m) = 404
status_code (conflict m) = 409
status_code (payload_too_large m) = 413
status_code (service_unavailable m) = 503
status_code (http_exception code m) = code
status_code _ = 500

-- `isinstance(exc, DomainError)`
abbrev pub is_domain_error : Error → Bool
is_domain_error (bad_request m) = true
is_domain_error (unauthorized m) = true
is_domain_error (forbidden m) = true
is_domain_error (not_found m) = true
is_domain_error (conflict m) = true
is_domain_error (payload_too_large m) = true
is_domain_error (service_unavailable m) = true
is_domain_error _ = false

-- `ERROR_CODES_BY_STATUS.get(status_code, "api_error")`
unfoldable pub get_error_code : ℕ → String
get_error_code code =
    if code == 400
    then "bad_request"
    else if code == 401
    then "unauthorized"
    else if code == 403
    then "forbidden"
    else if code == 404
    then "not_found"
    else if code == 405
    then "method_not_allowed"
    else if code == 409
    then "conflict"
    else if code == 413
    then "payload_too_large"
    else if code == 422
    then "validation_error"
    else if code == 429
    then "rate_limit_exceeded"
    else if code == 500
    then "internal_server_error"
    else "api_error"

pub data Result {ℓ} (A : Type ℓ) : Type ℓ where
  ok : A → Result A
  err : Error → Result A

abbrev pub Exec {ℓ} : Type ℓ → Type ℓ → Type ℓ
Exec S A = S → Result A × S

module _ {ℓ} {S A : Type ℓ} where
  abbrev pub pure : A → Exec S A
  pure a s = (ok a, s)

  abbrev pub raise : Error → Exec S A
  raise e s = (err e, s)

  abbrev pub lift : Result A → Exec S A
  lift r s = (r, s)

  abbrev pub gets : (S → A) → Exec S A
  gets f s = (ok (f s), s)

  -- `if test: raise e`
  abbrev pub or_raise : Option A → Error → Exec S A
  or_raise none e = raise e
  or_raise (some a) e = pure a

  -- `try: m; except …: handler`, where the handler raises again what it does not catch
  abbrev pub catch : Exec S A → (Error → Exec S A) → Exec S A
  catch m handler s = let (r, s') = m s in elim r [ ok a ↦ (ok a, s') | err e ↦ handler e s' ]

  -- `try: m; finally: cleanup`, for a cleanup that does not raise
  abbrev pub finally : Exec S A → (S → S) → Exec S A
  finally m cleanup s = let (r, s') = m s in (r, cleanup s')

abbrev pub modify : {S : Type 0} → (S → S) → Exec S (Unit {0})
modify f s = (ok tt, f s)

abbrev pub raise_if : {S : Type 0} → Bool → Error → Exec S (Unit {0})
raise_if c e s = (if c then err e else ok tt, s)

infixl 5 ◌>>=◌ ◌>>◌
abbrev pub ◌>>=◌ : {S A B : Type 0} → Exec S A → (A → Exec S B) → Exec S B
◌>>=◌ m f s = let (r, s') = m s in elim r [ ok a ↦ f a s' | err e ↦ (err e, s') ]

abbrev pub ◌>>◌ : {S A B : Type 0} → Exec S A → Exec S B → Exec S B
m >> k = m >>= λ _. k

-- To split on a result and keep the equation.
pub Result-cases {ℓ} :
    {A : Type ℓ} (x : Result A) → ((a : A) × (x ≡ ok a)) ⊎ ((e : Error) × (x ≡ err e))
Result-cases (ok a) = inl (a, refl)
Result-cases (err e) = inr (e, refl)
