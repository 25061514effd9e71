-- ===== src/Examples/LimitTests.antt =====
-- The theorems on rate limits at one key and counters in memory.
use starter_backend_template.Prelude.{
  ℕ, ◌+◌, ◌≡◌, refl, Bool, true, false, if◌then◌else◌, none, some, [], ◌∷◌, Text, codes, text_eq,
  text_eq_refl,
}
use starter_backend_template.Errors.{http_exception, err}
use starter_backend_template.RateLimit.{
  Counter, live, counted, Counters, IsCounters, enforce_rate_limit_counter,
}
use starter_backend_template.RateLimit.Windows.{
  IsUp, verdicts, enforce_rate_limit_counter-up_to, enforce_rate_limit_counter_never_expires,
}

abbrev with_deadline : ℕ → Counter → Counter
with_deadline deadline none = none
with_deadline deadline (some (n, d)) = some (n, some deadline)

abbrev put : Text → Counter → (Text → Counter) → Text → Counter
put key x s j = if text_eq key j then x else s j

-- Counters of which EXPIRE goes through or fails.
abbrev counters : Bool → Counters
counters expires = record {
  State = Text → Counter;
  counter = λ s key. s key;
  incr = λ s now key.
      (some (counted (live now (s key))).0, put key (some (counted (live now (s key)))) s);
  expire = λ s now key ttl.
      (expires, (if expires then put key (with_deadline (now + ttl) (s key)) s else s));
}

counters_lawful : (expires : Bool) → IsCounters (counters expires)
counters_lawful expires = record {
  incr_some =
      λ s now key n e. (value (counted (live now (s key))).0 n e, rw (text_eq_refl key) refl);
  expire_true = λ s now key ttl n d e h. rw e (rw (text_eq_refl key) (rw h refl));
  expire_false = λ s now key ttl e. rw e refl;
}
  where
    value : (a b : ℕ) → some a ≡ some b → b ≡ a
    value a b h = cc

up : IsUp (counters true)
up = record {
  answers = λ s now key. ((counted (live now (s key))).0, refl);
  expires = λ s now key ttl. refl;
}

abbrev nothing : Text → Counter
nothing key = none

enforce_rate_limit_counter-up_to_example :
    verdicts (counters true) (codes "k") 2 60 (100 ∷ 110 ∷ 159 ∷ []) nothing
    ≡ true ∷ true ∷ false ∷ []
enforce_rate_limit_counter-up_to_example =
    enforce_rate_limit_counter-up_to (counters true) (counters_lawful true) (codes "k") 2 60 up 100
      (110 ∷ 159 ∷ []) nothing refl (refl, (refl, tt))

enforce_rate_limit_counter_never_expires_example :
    let left = enforce_rate_limit_counter (counters false) (codes "k") 2 60 100 nothing in
    (left.0 ≡ err (http_exception 503 "Service temporarily unavailable"))
    × (verdicts (counters false) (codes "k") 2 60 (110 ∷ 9000 ∷ []) left.1 ≡ true ∷ false ∷ [])
enforce_rate_limit_counter_never_expires_example =
    enforce_rate_limit_counter_never_expires (counters false) (counters_lawful false) (codes "k") 2
      60 (λ s now key. ((counted (live now (s key))).0, refl)) 100 (110 ∷ 9000 ∷ []) nothing refl
      refl
