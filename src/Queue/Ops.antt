-- ===== src/Queue/Ops.antt =====
-- The operations of app/core/job_queue.py on the four queues, each as a call on the Redis state.
use starter_backend_template.Prelude.{
  ℕ, zero, suc, ◌+◌, ◌*◌, Bool, true, false, not, ◌==◌, if◌then◌else◌, leb, Option, none, some,
  List, [], ◌∷◌, Text, text_eq, take, length,
}
use starter_backend_template.Errors.{value_error, Result, ok, err, Exec, pure, ◌>>=◌}
use starter_backend_template.Queue.Redis.{Redis}
use starter_backend_template.Queue.Job.{
  Value, Codec, Job, to_json, from_json, with_processing_started_at, without_processing_started_at,
  with_next_attempt, with_error, with_failed_at,
}
use starter_backend_template.Queue.Backoff.{WorkerSettings, calculate_retry_delay_seconds}

-- Times are in microseconds.
abbrev pub seconds : ℕ → ℕ
seconds n = n * 1000000

-- `if limit is not None and count >= limit`
abbrev pub is_reached : Option ℕ → ℕ → Bool
is_reached none count = false
is_reached (some limit) count = leb limit count

module _ (r : Redis) (c : Codec) (settings : WorkerSettings) where
  open settings use {
    worker_queue_name as queue_name, worker_processing_queue_name as processing_queue_name,
    worker_delayed_queue_name as delayed_queue_name, worker_failed_queue_name as failed_queue_name,
  }

  -- `job_id` is the next `uuid7()`, `request_id` that of the request.
  unfoldable pub enqueue_job : Text → Value → Text → Option Text → r.State → Job × r.State
  enqueue_job job_type payload job_id request_id s =
      let job : Job = record {
        id = job_id;
        type = job_type;
        payload = payload;
        attempts = 0;
        request_id = request_id;
        last_error = none;
        failed_at = none;
        processing_started_at = none;
      } in
      (job, r.lpush s queue_name (to_json c job))

  -- What `dequeue_job` does with a job that it took.
  unfoldable pub mark_processing : Text → ℕ → Exec r.State (Option Job)
  mark_processing raw_job now s = elim (from_json c raw_job) [
    | err e ↦ (err e, s)
    | ok job ↦
        let processing_job = with_processing_started_at c job none now in
        if not (text_eq (to_json c processing_job) raw_job)
        then (
          ok (some processing_job),
          r.lpush (r.lrem s processing_queue_name raw_job).1 processing_queue_name
              (to_json c processing_job),
        )
        else (ok (some processing_job), s)
  ]

  unfoldable pub dequeue_job : ℕ → Exec r.State (Option Job)
  dequeue_job now s =
      let (popped, s') = r.brpoplpush s queue_name processing_queue_name in
      elim popped [ none ↦ (ok none, s') | some raw_job ↦ mark_processing raw_job now s' ]

  unfoldable pub ack_job : Job → r.State → r.State
  ack_job job s = (r.lrem s processing_queue_name (to_json c job)).1

  unfoldable pub schedule_retry : Job → Text → ℕ → r.State → Job × r.State
  schedule_retry job error now s =
      let retried_job = with_error (with_next_attempt job) error in
      let available_at =
        now + seconds (calculate_retry_delay_seconds settings retried_job.attempts) in
      (
        retried_job,
        r.zadd (r.lrem s processing_queue_name (to_json c job)).1 delayed_queue_name
            (to_json c retried_job) available_at,
      )

  -- One round of the loop of `promote_delayed_jobs`: how many jobs it promoted.
  unfoldable pub promote_one : Text → r.State → ℕ × r.State
  promote_one raw_job s =
      let (removed, s') = r.zrem s delayed_queue_name raw_job in
      if removed == 0 then (0, s') else (1, r.lpush s' queue_name raw_job)

  unfoldable pub promote_loop : List Text → Option ℕ → ℕ → r.State → ℕ × r.State
  promote_loop [] limit promoted_count s = (promoted_count, s)
  promote_loop (raw_job ∷ raw_jobs) limit promoted_count s =
      let (n, s') = promote_one raw_job s in
      let rest = promote_loop raw_jobs limit (promoted_count + n) s' in
      if is_reached limit promoted_count then (promoted_count, s) else rest

  unfoldable pub promote_delayed_jobs : ℕ → Option ℕ → r.State → ℕ × r.State
  promote_delayed_jobs now limit s =
      promote_loop (r.zrangebyscore s delayed_queue_name now) limit 0 s

  -- `is_stale` of `reclaim_stale_processing_jobs`
  unfoldable pub is_stale : Job → ℕ → Result Bool
  is_stale job current_time = elim job.processing_started_at [
    | none ↦ ok true
    | some text ↦ elim (c.fromisoformat text) [
      | none ↦ err (value_error "Invalid isoformat string")
      | some started_at ↦ ok (
          leb (started_at + seconds settings.worker_processing_visibility_timeout_seconds)
            current_time)
    ]
  ]

  -- What its loop does with a stale job: `if redis.lrem(…): redis.lpush(…)`.
  unfoldable pub put_back : Text → Job → Exec r.State ℕ
  put_back raw_job job s =
      let (removed, s') = r.lrem s processing_queue_name raw_job in
      if removed == 0
      then (ok 0, s')
      else (ok 1, r.lpush s' queue_name (to_json c (without_processing_started_at job)))

  -- One round of its loop: how many jobs it reclaimed.
  unfoldable pub reclaim_one : Text → ℕ → Exec r.State ℕ
  reclaim_one raw_job current_time s = elim (from_json c raw_job) [
    | err e ↦ (err e, s)
    | ok job ↦ elim (is_stale job current_time) [
      | err e ↦ (err e, s)
      | ok false ↦ (ok 0, s)
      | ok true ↦ put_back raw_job job s
    ]
  ]

  unfoldable pub reclaim_loop : List Text → ℕ → ℕ → Exec r.State ℕ
  reclaim_loop [] current_time reclaimed_count = pure reclaimed_count
  reclaim_loop (raw_job ∷ raw_jobs) current_time reclaimed_count = do
    n ← reclaim_one raw_job current_time
    reclaim_loop raw_jobs current_time (reclaimed_count + n)

  unfoldable pub reclaim_stale_processing_jobs : ℕ → Exec r.State ℕ
  reclaim_stale_processing_jobs current_time s =
      reclaim_loop (r.items s processing_queue_name) current_time 0 s

  unfoldable pub requeue_job : Job → r.State → Job × r.State
  requeue_job job s =
      let retried_job = with_next_attempt job in
      (retried_job, r.lpush s queue_name (to_json c retried_job))

  -- `error` is `str(error)`, or `none` for the default `None`.
  unfoldable pub failed_version : Job → Option Text → ℕ → Job
  failed_version job (some error) now = with_error (with_failed_at c job none now) error
  failed_version job none now = elim job.last_error [
    | none ↦ with_failed_at c job none now
    | some e ↦ with_error (with_failed_at c job none now) e
  ]

  unfoldable pub move_job_to_failed_queue : Job → Option Text → ℕ → r.State → Job × r.State
  move_job_to_failed_queue job error now s =
      let failed_job = failed_version job error now in
      (
        failed_job,
        r.lpush (r.lrem s processing_queue_name (to_json c job)).1 failed_queue_name
            (to_json c failed_job),
      )

  parse_all : List Text → Result (List Job)
  parse_all [] = ok []
  parse_all (raw_job ∷ raw_jobs) = elim (from_json c raw_job) [
    | err e ↦ err e
    | ok job ↦ elim (parse_all raw_jobs) [ err e ↦ err e | ok jobs ↦ ok (job ∷ jobs) ]
  ]

  -- LRANGE key 0 (limit - 1), for a limit of at least 1
  unfoldable pub list_failed_jobs : ℕ → r.State → Result (List Job)
  unfolding parse_all
  list_failed_jobs limit s = parse_all (take limit (r.items s failed_queue_name))

  -- The `while` loop of `requeue_failed_jobs`, on fuel: `none` if that ran out.
  unfoldable pub requeue_failed_loop : ℕ → Option ℕ → ℕ → Exec r.State (Option ℕ)
  requeue_failed_loop zero limit requeued_count s = (ok none, s)
  requeue_failed_loop (suc fuel) limit requeued_count s =
      let (popped, s') = r.rpop s failed_queue_name in
      let rest : Result (Option ℕ) × r.State = elim popped [
        | none ↦ (ok (some requeued_count), s')
        | some raw_job ↦ elim (from_json c raw_job) [
          | err e ↦ (err e, s')
          | ok job ↦
              requeue_failed_loop fuel limit (requeued_count + 1)
                (r.lpush s' queue_name (to_json c job))
        ]
      ] in
      if is_reached limit requeued_count then (ok (some requeued_count), s) else rest

  -- One round more than the list has items is enough.
  unfoldable pub requeue_failed_jobs : Option ℕ → Exec r.State (Option ℕ)
  requeue_failed_jobs limit s =
      requeue_failed_loop (suc (length (r.items s failed_queue_name))) limit 0 s
