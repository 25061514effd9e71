-- ===== src/Worker.antt =====
-- app/worker.py: one round of the worker. The handlers of the two job types and the database session
-- they run in are `Handlers`, filled by the services; `message` is `str(exc)`. `now` and `later` are
-- the clock when the job is taken and when its handler has returned.
pub mod Rounds
pub mod Retries
pub mod Maintenance
use starter_backend_template.Prelude.{
  ℕ, ◌+◌, ◌-◌, ◌≡◌, String, Bool, true, false, if◌then◌else◌, ltb, leb, Option, none, some, List,
  [], ◌∷◌, Text, codes, text_eq,
}
use starter_backend_template.Errors.{
  Error, unknown_job_type, malformed, Result, ok, err, Exec, raise, finally,
}
use starter_backend_template.Queue.Redis.{Redis}
use starter_backend_template.Queue.Job.{Value, obj, get, Codec, Job}
use starter_backend_template.Queue.Backoff.{WorkerSettings}
use starter_backend_template.Queue.Ops.{
  dequeue_job, ack_job, schedule_retry, move_job_to_failed_queue, promote_delayed_jobs,
  reclaim_stale_processing_jobs,
}

abbrev pub send_password_reset_email_job : Text
send_password_reset_email_job = codes "send_password_reset_email"

abbrev pub verify_presigned_upload_job : Text
verify_presigned_upload_job = codes "verify_presigned_upload"

pub record Handlers (D : Type 0) : Type 0 where
  -- `SessionLocal()` and `db.close()`
  pub open_session : D → D
  pub close_session : D → D
  pub create_password_reset_token_and_send_email : Value → Text → Exec D (Unit {0})
  pub verify_presigned_upload_in_worker : Value → Exec D (Unit {0})

-- `job.payload[key]`
abbrev pub payload_field : Text → Value → Option Value
payload_field key (obj fs) = get key fs
payload_field key _ = none

-- The label that `observe_worker_job` counts.
pub data Status : Type 0 where
  completed retry_scheduled failed : Status

pub record WorkerState (Q D : Type 0) : Type 0 where
  pub queue : Q
  pub services : D
  -- the flag `_worker_job_in_progress` of app/core/shutdown.py
  pub job_in_progress : Bool
  pub observed : List (Text × Status)

module _ (r : Redis) (c : Codec) (settings : WorkerSettings) {D : Type 0} (handlers : Handlers D)
    (message : Error → Text) where
  in_session : Exec D (Unit {0}) → Exec D (Unit {0})
  in_session m d = finally m handlers.close_session (handlers.open_session d)

  unfoldable pub handle_job : Job → Exec D (Unit {0})
  unfolding in_session
  handle_job job d =
      if text_eq job.type send_password_reset_email_job
      then elim (payload_field (codes "user_id") job.payload) [
        | none ↦ (err malformed, d)
        | some user_id ↦
            in_session (handlers.create_password_reset_token_and_send_email user_id job.id) d
      ]
      else if text_eq job.type verify_presigned_upload_job
      then elim (payload_field (codes "uploaded_file_id") job.payload) [
        | none ↦ (err malformed, d)
        | some uploaded_file_id ↦
            in_session (handlers.verify_presigned_upload_in_worker uploaded_file_id) d
      ]
      else (err (unknown_job_type job.type), d)

  -- The state after a job ended in a status; the `finally` clears the flag.
  abbrev pub ended : Job → Status → D → r.State → List (Text × Status) → WorkerState r.State D
  ended job status d queue observed = record {
    queue = queue;
    services = d;
    job_in_progress = false;
    observed = (job.type, status) ∷ observed;
  }

  -- The `except` clauses, and what follows the `try`.
  unfoldable pub settle :
      Job → ℕ → Result (Unit {0}) → D → r.State → List (Text × Status) → WorkerState r.State D
  settle job later (ok _) d queue observed =
      ended job completed d (ack_job r c settings job queue) observed
  settle job later (err (unknown_job_type job_type)) d queue observed =
      ended job failed d
        (move_job_to_failed_queue r c settings job (some (message (unknown_job_type job_type)))
          later queue).1
        observed
  settle job later (err e) d queue observed =
      if ltb job.attempts settings.worker_max_retries
      then ended job retry_scheduled d (schedule_retry r c settings job (message e) later queue).1
          observed
      else ended job failed d
          (move_job_to_failed_queue r c settings job (some (message e)) later queue).1 observed

  unfoldable pub process_next_job : ℕ → ℕ → Exec (WorkerState r.State D) Bool
  process_next_job now later w =
      let (taken, queue) = dequeue_job r c settings now w.queue in
      elim taken [
        | err e ↦ (err e, record w { queue = queue })
        | ok none ↦ (ok false, record w { queue = queue })
        | ok (some job) ↦
            let (outcome, d) = handle_job job w.services in
            (ok true, settle job later outcome d queue w.observed)
      ]

  -- The state also holds the global `_last_queue_maintenance_at`, in seconds of the monotonic clock
  -- that `current_time` reads; `now` and `later` are the clock when the queues are read.
  unfoldable pub maybe_run_queue_maintenance :
      (current_time now later : ℕ) → Exec (ℕ × WorkerState r.State D) (Unit {0})
  maybe_run_queue_maintenance current_time now later (last_queue_maintenance_at, w) =
      let (reclaimed, queue) = reclaim_stale_processing_jobs r c settings now w.queue in
      let promoted =
        (promote_delayed_jobs r c settings later (some settings.worker_queue_promote_batch_size)
          queue).1 in
      if ltb (current_time - last_queue_maintenance_at)
        settings.worker_queue_maintenance_interval_seconds
      then (ok tt, (last_queue_maintenance_at, w))
      else elim reclaimed [
        | err e ↦ (err e, (current_time, record w { queue = queue }))
        | ok n ↦ (ok tt, (current_time, record w { queue = promoted }))
      ]
