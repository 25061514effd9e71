-- ===== src/Worker/Retries.antt =====
-- What the worker writes for a job that it retries.
-- In every theorem here, the lists of the queue, of the jobs being processed and of the failed jobs
-- have three different names, and Redis and JSON behave as their interfaces say.
use starter_backend_template.Prelude.{
  ℕ, ◌+◌, ◌≤◌, ◌<◌, ◌≡◌, ◌≢◌, refl, arith, none, some, List, ◌∷◌, ◌++◌, Text, lt→ltb, take, sym,
  ◌∙◌,
}
use starter_backend_template.Errors.{Error, unknown_job_type, ok, err}
use starter_backend_template.Queue.Redis.{Redis, IsRedis}
use starter_backend_template.Queue.Backoff.{WorkerSettings, calculate_retry_delay_seconds}
use starter_backend_template.Queue.Job.{
  Codec, IsCodec, Job, to_json, from_json, from_json-to_json, with_next_attempt, with_error,
}
use starter_backend_template.Queue.Ops.{schedule_retry, seconds}
use starter_backend_template.Queue.Copies.Commands.{AreDistinct}
use starter_backend_template.Worker.{Handlers, Status, retry_scheduled, settle}
use starter_backend_template.Worker.Rounds.{IsNotDelayed, retry_is_new}

module _ (r : Redis) (lawful : IsRedis r) (c : Codec) (codec : IsCodec c)
    (settings : WorkerSettings) (distinct : AreDistinct settings) where
  open settings use {worker_processing_queue_name as p, worker_delayed_queue_name as d}

  abbrev pub delayed_until : Job → ℕ → ℕ
  delayed_until job later =
      later + seconds (calculate_retry_delay_seconds settings (job.attempts + 1))

  -- The delayed queue got one member, the text of a job that reads back as `job` with one more
  -- attempt, its error cut to 500 characters and no starting time, all else unchanged.
  abbrev pub IsRetried : Job → Text → ℕ → r.State → r.State → Type 0
  IsRetried job error later s s' =
      (job' : Job) × (xs : List (Text × ℕ)) × (ys : List (Text × ℕ)) × (r.members s d ≡ xs ++ ys)
      × (r.members s' d ≡ xs ++ ((to_json c job', delayed_until job later) ∷ ys))
      × (from_json c (to_json c job') ≡ ok job')
      × (job'.id ≡ job.id)
      × (job'.type ≡ job.type)
      × (job'.payload ≡ job.payload)
      × (job'.attempts ≡ job.attempts + 1)
      × (job'.last_error ≡ some (take 500 error))
      × (job'.request_id ≡ job.request_id)
      × (job'.failed_at ≡ job.failed_at)
      × (job'.processing_started_at ≡ none)

  schedule_retry-IsRetried :
      (job : Job) (error : Text) (later : ℕ) (s : r.State)
      → IsNotDelayed r lawful c codec settings distinct job s
      → IsRetried job error later s (schedule_retry r c settings job error later s).1
  unfolding schedule_retry with_error with_next_attempt
  schedule_retry-IsRetried job error later s new =
      let job' = with_error (with_next_attempt job) error in
      let (xs, ys, before, after) =
        lawful.members-zadd (r.lrem s p (to_json c job)).1 d (to_json c job')
          (delayed_until job later)
          (rw (lawful.members-lrem s p (to_json c job) d)
            (retry_is_new r lawful c codec settings distinct job error later s new)) in
      (
        job',
        xs,
        ys,
        sym (lawful.members-lrem s p (to_json c job) d) ∙ before,
        after,
        from_json-to_json c codec job',
        refl,
        refl,
        refl,
        refl,
        refl,
        refl,
        refl,
        refl,
      )

  -- A job whose handler raised anything but an unknown job type, while it has attempts left, is
  -- retried: the delayed queue got one member, which reads back as the job with one more attempt, at
  -- most `worker_max_retries`, its error cut to 500 characters, no starting time and all else
  -- unchanged, due after the delay of that attempt; the round counts as `retry_scheduled`. The
  -- hypothesis is that no copy of it was delayed already.
  pub settle-IsRetried :
      {D : Type 0} (handlers : Handlers D) (message : Error → Text) (job : Job) (later : ℕ)
      (services : D) (s : r.State) (seen : List (Text × Status))
      → job.attempts < settings.worker_max_retries
      → IsNotDelayed r lawful c codec settings distinct job s
      → (e : Error) → ((t : Text) → e ≢ unknown_job_type t)
      → let w' = settle r c settings handlers message job later (err e) services s seen in
        IsRetried job (message e) later s w'.queue
        × (job.attempts + 1 ≤ settings.worker_max_retries)
        × (w'.observed ≡ (job.type, retry_scheduled) ∷ seen)
  unfolding settle
  settle-IsRetried handlers message job later services s seen h new (unknown_job_type t) known =
      absurd (known t refl)
  settle-IsRetried handlers message job later services s seen h new e known =
      rw (lt→ltb job.attempts settings.worker_max_retries h)
        (schedule_retry-IsRetried job (message e) later s new, omega arith, refl)
