-- ===== src/Examples/QueueTests.antt =====
-- The theorems on the queue and the worker at one job.
use starter_backend_template.Prelude.{
  ℕ, ◌+◌, ◌≡◌, true, ◌≢◌, ◌≤◌, false, refl, arith, none, [], ◌∷◌, codes,
}
use starter_backend_template.Errors.{redis_error, ok, err}
use starter_backend_template.Queue.Job.{
  from_json, to_json, with_processing_started_at, from_json-to_json,
}
use starter_backend_template.Queue.Ops.{
  mark_processing, dequeue_job, schedule_retry, requeue_failed_jobs,
}
use starter_backend_template.Queue.Redis.{member, scored}
use starter_backend_template.Queue.Conservation.{job_copies, copies-schedule_retry}
use starter_backend_template.Queue.Batches.{copies-requeue_failed_jobs}
use starter_backend_template.Worker.{
  handle_job, process_next_job, settle, completed, retry_scheduled,
}
use starter_backend_template.Worker.Rounds.{
  IsMoved, process_next_job_keeps, process_next_job_acknowledges,
}
use starter_backend_template.Worker.Retries.{settle-IsRetried, IsRetried}
use starter_backend_template.Examples.Memory.{Memory, memory, memory_lawful}
use starter_backend_template.Examples.Codec.{enc, dec, codec, codec_lawful}
use starter_backend_template.Examples.Jobs.{
  settings, settings_distinct, queued_job, running_job, queued, running, given_up, handlers,
  failing, message, worker,
}

abbrev copies_of : Memory → ℕ
copies_of s = job_copies memory codec settings (codes "j1") s

from_json-to_json_example : from_json codec (to_json codec queued_job) ≡ ok queued_job
from_json-to_json_example = from_json-to_json codec codec_lawful queued_job

copies-schedule_retry_example :
    let job' = (schedule_retry memory codec settings running_job (codes "boom") 9 running).0 in
    let s' = (schedule_retry memory codec settings running_job (codes "boom") 9 running).1 in
    (memory.items s' "jobs:processing" ≡ [])
    × (scored (to_json codec job') (memory.members s' "jobs:delayed") ≡ true)
    × ((job'.id ≡ codes "j1")
        × (job'.type ≡ running_job.type)
        × (job'.payload ≡ running_job.payload))
    × ((memory.items s' "jobs" ≡ []) × (memory.items s' "jobs:failed" ≡ []))
    × (copies_of s' ≡ copies_of running)
unfolding to_json enc
copies-schedule_retry_example =
    copies-schedule_retry memory memory_lawful codec codec_lawful settings settings_distinct
      (codes "j1") running_job (codes "boom") 9 running refl refl

copies-requeue_failed_jobs_example :
    (copies_of (requeue_failed_jobs memory codec settings none given_up).1 ≡ copies_of given_up)
    × ((requeue_failed_jobs memory codec settings none given_up).0 ≢ ok none)
copies-requeue_failed_jobs_example =
    copies-requeue_failed_jobs memory memory_lawful codec codec_lawful settings settings_distinct
      (codes "j1") none given_up

process_next_job_keeps_example :
    let taken = (dequeue_job memory codec settings 5 queued).1 in
    let s' = (process_next_job memory codec settings failing message 5 9 worker).1.queue in
    (member (to_json codec running_job) (memory.items taken "jobs:processing") ≡ true)
    × IsMoved memory memory_lawful codec codec_lawful settings settings_distinct running_job taken
        s'
    × (copies_of s' ≡ copies_of queued)
unfolding handle_job dequeue_job mark_processing from_json to_json enc dec
    with_processing_started_at
process_next_job_keeps_example =
    process_next_job_keeps memory memory_lawful codec codec_lawful settings settings_distinct
      failing message (codes "j1") 5 9 worker running_job redis_error refl refl (λ t h. cc)

process_next_job_acknowledges_example :
    let w' = (process_next_job memory codec settings handlers message 5 9 worker).1 in
    (1 + copies_of w'.queue ≡ copies_of queued)
    × (w'.observed ≡ (codes "verify_presigned_upload", completed) ∷ [])
    × (w'.job_in_progress ≡ false)
unfolding handle_job dequeue_job mark_processing from_json to_json enc dec
    with_processing_started_at
process_next_job_acknowledges_example =
    process_next_job_acknowledges memory memory_lawful codec codec_lawful settings settings_distinct
      handlers message (codes "j1") 5 9 worker running_job refl refl

settle-IsRetried_example :
    let w' =
      settle memory codec settings failing message running_job 9 (err redis_error) 0 running [] in
    IsRetried memory memory_lawful codec codec_lawful settings settings_distinct running_job
      (codes "boom")
      9
      running
      w'.queue
    × (0 + 1 ≤ 3)
    × (w'.observed ≡ (codes "verify_presigned_upload", retry_scheduled) ∷ [])
settle-IsRetried_example =
    settle-IsRetried memory memory_lawful codec codec_lawful settings settings_distinct failing
      message running_job 9 0 running [] (omega arith) (λ t h. cc) redis_error (λ t e. cc)
