-- ===== src/Worker/Maintenance.antt =====
-- What the maintenance of the queues leaves.
-- In every theorem here, the lists of the queue, of the jobs being processed and of the failed jobs
-- have three different names, and Redis and JSON behave as their interfaces say.
use starter_backend_template.Prelude.{ℕ, ◌-◌, ◌≡◌, true, refl, ltb, Text, Bool-cases, inl, inr, ◌∙◌}
use starter_backend_template.Errors.{Error, Result-cases}
use starter_backend_template.Queue.Redis.{Redis, IsRedis}
use starter_backend_template.Queue.Job.{Codec, IsCodec}
use starter_backend_template.Queue.Backoff.{WorkerSettings}
use starter_backend_template.Queue.Ops.{reclaim_stale_processing_jobs}
use starter_backend_template.Queue.Copies.Commands.{AreDistinct}
use starter_backend_template.Queue.Conservation.{job_copies}
use starter_backend_template.Queue.Batches.{
  copies-promote_delayed_jobs, copies-reclaim_stale_processing_jobs,
}
use starter_backend_template.Worker.{Handlers, WorkerState, maybe_run_queue_maintenance}

module _ (r : Redis) (lawful : IsRedis r) (c : Codec) (codec : IsCodec c)
    (settings : WorkerSettings) (distinct : AreDistinct settings) {D : Type 0}
    (handlers : Handlers D) (message : Error → Text) (i : Text) where
  -- The maintenance of the queues keeps the number of copies of every job, also when it raises, and
  -- it does nothing before its interval is over.
  pub maybe_run_queue_maintenance_keeps :
      (current_time now later last : ℕ) (w : WorkerState r.State D)
      → let (last', w') =
          (maybe_run_queue_maintenance r c settings handlers message current_time now later
            (last, w)).1 in
        (job_copies r c settings i w'.queue ≡ job_copies r c settings i w.queue)
        × (ltb (current_time - last) settings.worker_queue_maintenance_interval_seconds ≡ true
            → (last' ≡ last) × (w' ≡ w))
  unfolding maybe_run_queue_maintenance
  maybe_run_queue_maintenance_keeps current_time now later last w =
      elim (Bool-cases
        (ltb (current_time - last) settings.worker_queue_maintenance_interval_seconds)) [
          | inl early ↦ rw early (refl, λ _. (refl, refl))
          | inr over ↦
              rw over
                (elim (Result-cases (reclaim_stale_processing_jobs r c settings now w.queue).0) [
                  | inr (e, raised) ↦
                      rw (raised, maybe_run_queue_maintenance)
                        (
                          copies-reclaim_stale_processing_jobs r lawful c codec settings distinct i
                              now w.queue,
                          λ h. cc,
                        )
                  | inl (n, done) ↦
                      rw (done, maybe_run_queue_maintenance)
                        (
                          copies-promote_delayed_jobs r lawful c codec settings distinct i later _ _
                              ∙ copies-reclaim_stale_processing_jobs r lawful c codec settings
                                  distinct i now w.queue,
                          λ h. cc,
                        )
                ])
        ]
