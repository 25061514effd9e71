-- ===== src/Queue/Backoff.antt =====
-- `calculate_retry_delay_seconds` of app/core/job_queue.py, and the settings of app/core/config.py
-- that the queue and the worker read.
use native.Mathlib.Nat.{pow-suc}
use starter_backend_template.Prelude.{
  ℕ, zero, suc, ◌*◌, ◌-◌, ◌^◌, ◌≤◌, ◌≡◌, String, Bool, refl, arith, ◌==◌, if◌then◌else◌, min, ap,
}

pub record WorkerSettings : Type 0 where
  pub worker_queue_name : String
  pub worker_failed_queue_name : String
  pub worker_processing_queue_name : String
  pub worker_delayed_queue_name : String
  pub worker_max_retries : ℕ
  pub worker_retry_backoff_base_seconds : ℕ
  pub worker_retry_backoff_max_seconds : ℕ
  pub worker_processing_visibility_timeout_seconds : ℕ
  pub worker_maintenance_enabled : Bool
  pub worker_maintenance_interval_seconds : ℕ
  pub worker_queue_maintenance_interval_seconds : ℕ
  pub worker_queue_promote_batch_size : ℕ

-- `attempts` is never negative here.
unfoldable pub calculate_retry_delay_seconds : WorkerSettings → ℕ → ℕ
calculate_retry_delay_seconds settings attempts =
    if attempts == 0
    then settings.worker_retry_backoff_base_seconds
    else let delay = settings.worker_retry_backoff_base_seconds * 2 ^ (attempts - 1) in
      min delay settings.worker_retry_backoff_max_seconds

base-le-mul_pow : (b n : ℕ) → b ≤ b * 2 ^ n
base-le-mul_pow b zero = omega arith
base-le-mul_pow b (suc n) =
    omega (arith, pow-suc 2 n, base-le-mul_pow b n, ap (λ (t : ℕ). b * t) (pow-suc 2 n))

delay_suc :
    (settings : WorkerSettings) (n : ℕ)
    → calculate_retry_delay_seconds settings (suc n)
      ≡ min
          (settings.worker_retry_backoff_base_seconds * 2 ^ n)
          settings.worker_retry_backoff_max_seconds
unfolding calculate_retry_delay_seconds
delay_suc settings n = let e : suc n - 1 ≡ n = omega arith in rw e (ground arith)

-- With the settings that `validate_worker_backoff` accepts, every delay lies between the base and
-- the maximum, and a further attempt never waits less than the one before.
pub calculate_retry_delay_seconds_bounds :
    (settings : WorkerSettings) (attempts : ℕ)
    → settings.worker_retry_backoff_base_seconds ≤ settings.worker_retry_backoff_max_seconds
    → (settings.worker_retry_backoff_base_seconds ≤ calculate_retry_delay_seconds settings attempts)
      × (calculate_retry_delay_seconds settings attempts
          ≤ settings.worker_retry_backoff_max_seconds)
      × (calculate_retry_delay_seconds settings attempts
          ≤ calculate_retry_delay_seconds settings (suc attempts))
calculate_retry_delay_seconds_bounds settings zero h =
    let e : calculate_retry_delay_seconds settings zero
        ≡ settings.worker_retry_backoff_base_seconds =
      unfold calculate_retry_delay_seconds in refl in
    omega (
      arith,
      e,
      delay_suc settings zero,
      base-le-mul_pow settings.worker_retry_backoff_base_seconds zero,
    )
calculate_retry_delay_seconds_bounds settings (suc n) h = omega (
  arith,
  delay_suc settings n,
  delay_suc settings (suc n),
  base-le-mul_pow settings.worker_retry_backoff_base_seconds n,
  ap (λ (t : ℕ). settings.worker_retry_backoff_base_seconds * t) (pow-suc 2 n),
)
