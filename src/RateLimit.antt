-- ===== src/RateLimit.antt =====
-- The rate limits of app/api/dependencies/rate_limit.py over counters in Redis, and the address that
-- they count by, app/core/client_ip.py. Times are in seconds.
pub mod Windows
use starter_backend_template.Prelude.{
  ℕ, suc, ◌+◌, ◌≡◌, Bool, true, false, ◌==◌, if◌then◌else◌, ltb, leb, Option, none, some, List, [],
  ◌∷◌, ◌++◌, Text, codes, text_eq, is_nonempty, strip, split, head?,
}
use starter_backend_template.Errors.{http_exception, value_error, Result, ok, err, Exec}

-- What a counter is: its value, and the time at which it expires, if it has one.
abbrev pub Counter : Type 0
Counter = Option (ℕ × Option ℕ)

-- The counter as it is seen at a time.
abbrev pub live : ℕ → Counter → Counter
live now none = none
live now (some (n, none)) = some (n, none)
live now (some (n, some deadline)) = if ltb now deadline then some (n, some deadline) else none

-- The counter after INCR.
abbrev pub counted : Counter → ℕ × Option ℕ
counted none = (1, none)
counted (some (n, deadline)) = (suc n, deadline)

-- INCR and EXPIRE; none and false are a `RedisError`.
pub record Counters : Type 1 where
  pub State : Type 0
  pub counter : State → Text → Counter
  pub incr : State → ℕ → Text → Option ℕ × State
  pub expire : State → ℕ → Text → ℕ → Bool × State

pub record IsCounters (c : Counters) : Type 0 where
  pub incr_some :
      (s : c.State) (now : ℕ) (key : Text) (n : ℕ)
      → (c.incr s now key).0 ≡ some n
      → (n ≡ (counted (live now (c.counter s key))).0)
        × (c.counter (c.incr s now key).1 key ≡ some (counted (live now (c.counter s key))))
  pub expire_true :
      (s : c.State) (now : ℕ) (key : Text) (ttl n : ℕ) (d : Option ℕ)
      → (c.expire s now key ttl).0 ≡ true
      → c.counter s key ≡ some (n, d)
      → c.counter (c.expire s now key ttl).1 key ≡ some (n, some (now + ttl))
  pub expire_false :
      (s : c.State) (now : ℕ) (key : Text) (ttl : ℕ)
      → (c.expire s now key ttl).0 ≡ false
      → c.counter (c.expire s now key ttl).1 key ≡ c.counter s key

module _ (c : Counters) where
  -- The test of the count.
  abbrev pub check_count : (limit current_count : ℕ) → Result (Unit {0})
  check_count limit current_count =
      if ltb limit current_count then err (http_exception 429 "Too many requests") else ok tt

  -- What follows INCR.
  abbrev pub after_incr : Text → (limit window_seconds now : ℕ) → Option ℕ → Exec c.State (Unit {0})
  after_incr key limit window_seconds now none s =
      (err (http_exception 503 "Service temporarily unavailable"), s)
  after_incr key limit window_seconds now (some current_count) s =
      if current_count == 1
      then (
        (if (c.expire s now key window_seconds).0
            then check_count limit current_count
            else err (http_exception 503 "Service temporarily unavailable")),
        (c.expire s now key window_seconds).1,
      )
      else (check_count limit current_count, s)

  unfoldable pub enforce_rate_limit_counter :
      Text → (limit window_seconds now : ℕ) → Exec c.State (Unit {0})
  enforce_rate_limit_counter key limit window_seconds now s =
      after_incr key limit window_seconds now (c.incr s now key).0 (c.incr s now key).1

-- What a request shows of its sender.
pub record Request : Type 0 where
  pub x_forwarded_for : Option Text
  pub x_real_ip : Option Text
  pub client_host : Option Text

-- `request.client.host`, if there is a client
abbrev pub host_or_unknown : Option Text → Text
host_or_unknown none = codes "unknown"
host_or_unknown (some host) = host

-- `s.split(",")[0]`
abbrev pub first_part : List Text → Text
first_part [] = []
first_part (part ∷ parts) = part

-- A truth test of a header: `if value`.
abbrev pub is_set : Option Text → Bool
is_set none = false
is_set (some t) = is_nonempty t

abbrev pub text_or_empty : Option Text → Text
text_or_empty none = []
text_or_empty (some t) = t

unfoldable pub get_client_ip : (trust_forwarded_headers : Bool) → Request → Text
get_client_ip trust_forwarded_headers request =
    if trust_forwarded_headers
    then if is_set request.x_forwarded_for
      then strip (first_part (split 44 (text_or_empty request.x_forwarded_for)))
      else if is_set request.x_real_ip
      then strip (text_or_empty request.x_real_ip)
      else host_or_unknown request.client_host
    else host_or_unknown request.client_host

-- `limit is not None and limit <= 0`
abbrev pub is_refused : Option ℕ → Bool
is_refused none = false
is_refused (some n) = n == 0

-- `value if value is not None else default`
abbrev pub or_default : Option ℕ → ℕ → ℕ
or_default none default = default
or_default (some n) default = n

pub record LimitSettings : Type 0 where
  pub rate_limit_trust_forwarded_headers : Bool
  pub rate_limit_default_limit : ℕ
  pub rate_limit_default_window_seconds : ℕ
  pub password_reset_rate_limit_limit : ℕ
  pub password_reset_rate_limit_window_seconds : ℕ
  pub webhook_provider_rate_limit_limit : ℕ
  pub webhook_provider_rate_limit_window_seconds : ℕ

-- `lower` is `str.lower`, `sha256` is `hashlib.sha256(…).hexdigest()`.
module _ (c : Counters) (settings : LimitSettings) (lower sha256 : Text → Text) where
  -- `rate_limit(…)` and the dependency that it returns.
  unfoldable pub rate_limit :
      (limit window_seconds : Option ℕ) (key_prefix : Text)
      → Request
      → (now : ℕ) → Exec c.State (Unit {0})
  rate_limit limit window_seconds key_prefix request now s =
      if is_refused limit
      then (err (value_error "rate limit must be greater than 0"), s)
      else if is_refused window_seconds
      then (err (value_error "rate limit window_seconds must be greater than 0"), s)
      else enforce_rate_limit_counter c
          (key_prefix
            ++ (codes ":" ++ get_client_ip settings.rate_limit_trust_forwarded_headers request))
          (or_default limit settings.rate_limit_default_limit)
          (or_default window_seconds settings.rate_limit_default_window_seconds) now s

  -- `email` is `str(body.get("email", ""))` for a JSON object, none for another body.
  unfoldable pub password_reset_rate_limit :
      Request → (email : Option Text) → (now : ℕ) → Exec c.State (Unit {0})
  password_reset_rate_limit request email now s =
      enforce_rate_limit_counter c
        (codes "rate_limit:password_reset:"
          ++ (get_client_ip settings.rate_limit_trust_forwarded_headers request
              ++ (codes ":" ++ sha256 (lower (text_or_empty email)))))
        settings.password_reset_rate_limit_limit settings.password_reset_rate_limit_window_seconds
        now s

  unfoldable pub enforce_webhook_provider_rate_limit :
      (provider : Text) → (now : ℕ) → Exec c.State (Unit {0})
  enforce_webhook_provider_rate_limit provider now s =
      let normalized_provider = lower (strip provider) in
      if is_nonempty normalized_provider
      then enforce_rate_limit_counter c
          (codes "rate_limit:webhook_provider:" ++ normalized_provider)
          settings.webhook_provider_rate_limit_limit
          settings.webhook_provider_rate_limit_window_seconds now s
      else (ok tt, s)
