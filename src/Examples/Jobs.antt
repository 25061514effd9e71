-- ===== src/Examples/Jobs.antt =====
-- Settings and states of the job queue, for the examples.
use starter_backend_template.Prelude.{
  ℕ, ◌+◌, true, false, none, some, [], ◌∷◌, Text, codes, str_eq, if◌then◌else◌,
}
use starter_backend_template.Errors.{Error, redis_error, ok, err}
use starter_backend_template.Queue.Job.{Value, num, obj, end, field, Job, to_json}
use starter_backend_template.Queue.Backoff.{WorkerSettings}
use starter_backend_template.Queue.Copies.Commands.{AreDistinct}
use starter_backend_template.Worker.{Handlers, WorkerState}
use starter_backend_template.Examples.Memory.{Memory}
use starter_backend_template.Examples.Codec.{codec}

abbrev pub settings : WorkerSettings
settings = record {
  worker_queue_name = "jobs";
  worker_failed_queue_name = "jobs:failed";
  worker_processing_queue_name = "jobs:processing";
  worker_delayed_queue_name = "jobs:delayed";
  worker_max_retries = 3;
  worker_retry_backoff_base_seconds = 5;
  worker_retry_backoff_max_seconds = 300;
  worker_processing_visibility_timeout_seconds = 900;
  worker_maintenance_enabled = true;
  worker_maintenance_interval_seconds = 3600;
  worker_queue_maintenance_interval_seconds = 5;
  worker_queue_promote_batch_size = 100;
}

pub settings_distinct : AreDistinct settings
settings_distinct = record {
  queue_processing = λ e. cc;
  queue_failed = λ e. cc;
  processing_failed = λ e. cc;
}

abbrev pub no_jobs : Memory
no_jobs = record { lists = λ j. []; sets = λ j. [] }

abbrev pub payload : Value
payload = obj (field (codes "uploaded_file_id") (num 7) end)

abbrev pub queued_job : Job
queued_job = record {
  id = codes "j1";
  type = codes "verify_presigned_upload";
  payload = payload;
  attempts = 0;
  request_id = none;
  last_error = none;
  failed_at = none;
  processing_started_at = none;
}

abbrev pub running_job : Job
running_job = record queued_job { processing_started_at = some (5 ∷ []) }

-- One job in the queue; the same job when it is being processed.
abbrev pub queued : Memory
queued = record no_jobs {
  lists = λ j. if str_eq j "jobs" then to_json codec queued_job ∷ [] else [];
}

abbrev pub running : Memory
running = record no_jobs {
  lists = λ j. if str_eq j "jobs:processing" then to_json codec running_job ∷ [] else [];
}

abbrev pub handlers : Handlers ℕ
handlers = record {
  open_session = λ d. d;
  close_session = λ d. d;
  create_password_reset_token_and_send_email = λ v t d. (err redis_error, d);
  verify_presigned_upload_in_worker = λ v d. (ok tt, d + 1);
}

abbrev pub failing : Handlers ℕ
failing = record handlers { verify_presigned_upload_in_worker = λ v d. (err redis_error, d) }

abbrev pub message : Error → Text
message e = codes "boom"

abbrev pub worker : WorkerState Memory ℕ
worker = record { queue = queued; services = 0; job_in_progress = false; observed = [] }

-- The job in the delayed queue, due at 7; and in the failed queue.
abbrev pub waiting : Memory
waiting = record no_jobs {
  sets = λ j. if str_eq j "jobs:delayed" then (to_json codec queued_job, 7) ∷ [] else [];
}

abbrev pub given_up : Memory
given_up = record no_jobs {
  lists = λ j. if str_eq j "jobs:failed" then to_json codec queued_job ∷ [] else [];
}
