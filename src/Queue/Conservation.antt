-- ===== src/Queue/Conservation.antt =====
-- No operation of app/core/job_queue.py loses or doubles a job: for each identifier, how many
-- copies of the job stand in the four queues before and after.
-- In every theorem here, the lists of the queue, of the jobs being processed and of the failed jobs
-- have three different names, and Redis and JSON behave as their interfaces say.
use starter_backend_template.Prelude.{
  ℕ, ◌+◌, ◌≡◌, true, false, refl, arith, if◌then◌else◌, Option, none, some, Text, text_eq,
  text_eq_refl, eq_refl, str_eq, String, inl, inr, ap, Bool-cases, Option-cases, ◌∙◌,
}
use starter_backend_template.Errors.{Error, Result, ok, err, Result-cases}
use starter_backend_template.Queue.Redis.{Redis, IsRedis, member, erase, scored, last?}
use starter_backend_template.Queue.Backoff.{WorkerSettings, calculate_retry_delay_seconds}
use starter_backend_template.Queue.Job.{
  Value, Codec, IsCodec, Job, to_json, from_json, from_json-to_json, with_processing_started_at,
  with_next_attempt, with_error, with_failed_at,
}
use starter_backend_template.Queue.Ops.{
  enqueue_job, mark_processing, dequeue_job, ack_job, schedule_retry, failed_version,
  move_job_to_failed_queue, seconds,
}
use starter_backend_template.Queue.Copies.Tally.{scored-insert}
use starter_backend_template.Queue.Copies.Commands.{
  AreDistinct, str_ne, copies, copies-lpush_queue, copies-lpush_processing, copies-lpush_failed,
  copies-lrem, copies-brpoplpush, items-brpoplpush_processing, copies-zadd,
}

-- 1 for a job with this identifier, 0 for any other.
abbrev pub has_id : Text → Job → ℕ
has_id i job = if text_eq job.id i then 1 else 0

abbrev pub id_weight_of : Text → Result Job → ℕ
id_weight_of i (ok job) = has_id i job
id_weight_of i (err e) = 0

unfoldable pub id_weight : Codec → Text → Text → ℕ
id_weight c i raw_job = id_weight_of i (from_json c raw_job)

-- The copies of the job with this identifier in the four queues.
abbrev pub job_copies : (r : Redis) → Codec → WorkerSettings → Text → r.State → ℕ
job_copies r c settings i s = copies r settings (id_weight c i) s

module _ (r : Redis) (lawful : IsRedis r) (c : Codec) (codec : IsCodec c)
    (settings : WorkerSettings) (distinct : AreDistinct settings) (i : Text) where
  abbrev copies_of : r.State → ℕ
  copies_of s = job_copies r c settings i s

  open settings use {
    worker_queue_name as q, worker_processing_queue_name as p, worker_delayed_queue_name as d,
    worker_failed_queue_name as f,
  }

  pub weight-to_json : (job : Job) → id_weight c i (to_json c job) ≡ has_id i job
  unfolding id_weight
  weight-to_json job = rw (from_json-to_json c codec job) refl

  pub weight_of_ok :
      (raw : Text) (job : Job) → from_json c raw ≡ ok job → id_weight c i raw ≡ has_id i job
  unfolding id_weight
  weight_of_ok raw job e = rw e refl

  pub malformed_weight : (raw : Text) (e : Error) → from_json c raw ≡ err e → id_weight c i raw ≡ 0
  unfolding id_weight
  malformed_weight raw e h = rw h refl

  -- `enqueue_job` adds one copy of its job and of no other.
  pub copies-enqueue_job :
      (job_type : Text) (payload : Value) (job_id : Text) (request_id : Option Text) (s : r.State)
      → copies_of (enqueue_job r c settings job_type payload job_id request_id s).1
        ≡ (if text_eq job_id i then 1 else 0) + copies_of s
  unfolding enqueue_job
  copies-enqueue_job t v j q' s =
      let job : Job = record {
        id = j;
        type = t;
        payload = v;
        attempts = 0;
        request_id = q';
        last_error = none;
        failed_at = none;
        processing_started_at = none;
      } in
      omega (
        arith,
        copies-lpush_queue r lawful settings distinct (id_weight c i) s (to_json c job),
        weight-to_json job,
      )

  -- `ack_job` takes away the copy that is being processed.
  pub copies-ack_job :
      (job : Job) (s : r.State)
      → member (to_json c job) (r.items s p) ≡ true
      → has_id i job + copies_of (ack_job r c settings job s) ≡ copies_of s
  unfolding ack_job
  copies-ack_job job s h = omega (
    arith,
    copies-lrem r lawful settings distinct (id_weight c i) s (to_json c job) h,
    weight-to_json job,
  )

  -- The job that replaces `raw` in the processing queue.
  replaced :
      (raw : Text) (job job' : Job) (s : r.State)
      → member raw (r.items s p) ≡ true
      → from_json c raw ≡ ok job
      → job'.id ≡ job.id
      → copies_of (r.lpush (r.lrem s p raw).1 p (to_json c job')) ≡ copies_of s
  replaced raw job job' s h e same = omega (
    arith,
    copies-lrem r lawful settings distinct (id_weight c i) s raw h,
    copies-lpush_processing r lawful settings distinct (id_weight c i) (r.lrem s p raw).1
        (to_json c job'),
    weight_of_ok raw job e,
    weight-to_json job',
    ap {B = ℕ} (λ (t : Text). if text_eq t i then 1 else 0) same,
  )

  copies-mark_processing :
      (raw : Text) (now : ℕ) (s : r.State)
      → member raw (r.items s p) ≡ true
      → copies_of (mark_processing r c settings raw now s).1 ≡ copies_of s
  unfolding mark_processing with_processing_started_at
  copies-mark_processing raw now s h = elim (Result-cases (from_json c raw)) [
    | inr (e, bad) ↦ rw (bad, mark_processing) refl
    | inl (job, good) ↦
        let job' = with_processing_started_at c job none now in
        elim (Bool-cases (text_eq (to_json c job') raw)) [
          | inl same ↦ rw (good, mark_processing) (rw same refl)
          | inr other ↦ rw (good, mark_processing) (rw other (replaced raw job job' s h good refl))
        ]
  ]

  -- Taking a job moves it from the queue to the processing queue, and no job is lost or doubled,
  -- also when the text in the queue is malformed.
  pub copies-dequeue_job :
      (now : ℕ) (s : r.State) → copies_of (dequeue_job r c settings now s).1 ≡ copies_of s
  unfolding dequeue_job
  copies-dequeue_job now s = elim (Option-cases (last? (r.items s q))) [
    | inl empty ↦
        rw (lawful.brpoplpush_value s q p ∙ empty, dequeue_job)
          (copies-brpoplpush r lawful settings distinct (id_weight c i) s)
    | inr (raw, e) ↦
        rw (lawful.brpoplpush_value s q p ∙ e, dequeue_job)
          (copies-mark_processing raw now (r.brpoplpush s q p).1 (
              rw (items-brpoplpush_processing r lawful settings distinct (id_weight c i) s raw e)
                (rw (text_eq_refl raw) refl))
            ∙ copies-brpoplpush r lawful settings distinct (id_weight c i) s)
  ]

  -- What LREM leaves of the processing queue and of another list.
  taken_out : (v : Text) (s : r.State) → r.items (r.lrem s p v).1 p ≡ erase v (r.items s p)
  taken_out v s = lawful.items-lrem s p v p ∙ ground (arith, eq_refl p)

  left_alone :
      (j : String) (v : Text) (s : r.State)
      → str_eq p j ≡ false
      → r.items (r.lrem s p v).1 j ≡ r.items s j
  left_alone j v s other = lawful.items-lrem s p v j ∙ rw other refl

  -- A retry takes the job out of the processing queue and puts the retried one, with the same
  -- identifier, type and payload, into the delayed queue; the lists of the queue and of the failed jobs
  -- stay, and so do the copies of every job. Hypotheses: the job is being processed, and the retried
  -- one is not delayed yet.
  pub copies-schedule_retry :
      (job : Job) (error : Text) (now : ℕ) (s : r.State)
      → member (to_json c job) (r.items s p) ≡ true
      → scored (to_json c (schedule_retry r c settings job error now s).0) (r.members s d) ≡ false
      → let job' = (schedule_retry r c settings job error now s).0 in
        let s' = (schedule_retry r c settings job error now s).1 in
        (r.items s' p ≡ erase (to_json c job) (r.items s p))
        × (scored (to_json c job') (r.members s' d) ≡ true)
        × ((job'.id ≡ job.id) × (job'.type ≡ job.type) × (job'.payload ≡ job.payload))
        × ((r.items s' q ≡ r.items s q) × (r.items s' f ≡ r.items s f))
        × (copies_of s' ≡ copies_of s)
  unfolding schedule_retry with_next_attempt with_error
  copies-schedule_retry job error now s h new =
      let job' = with_error (with_next_attempt job) error in
      let s₁ = (r.lrem s p (to_json c job)).1 in
      let t = now + seconds (calculate_retry_delay_seconds settings job'.attempts) in
      let absent : scored (to_json c job') (r.members s₁ d) ≡ false =
        rw (lawful.members-lrem s p (to_json c job) d) new in
      let (xs, ys, _, after) = lawful.members-zadd s₁ d (to_json c job') t absent in
      let kept : copies_of (r.zadd s₁ d (to_json c job') t) ≡ copies_of s = omega (
        arith,
        copies-lrem r lawful settings distinct (id_weight c i) s (to_json c job) h,
        copies-zadd r lawful settings distinct (id_weight c i) (r.lrem s p (to_json c job)).1
            (to_json c job') t absent,
        weight-to_json job,
        weight-to_json job',
      ) in
      (
        lawful.items-zadd s₁ d (to_json c job') t p ∙ taken_out (to_json c job) s,
        rw after (scored-insert (to_json c job') t xs ys),
        (refl, refl, refl),
        (
          lawful.items-zadd s₁ d (to_json c job') t q
              ∙ left_alone q (to_json c job) s (str_ne q p distinct.queue_processing).1,
          lawful.items-zadd s₁ d (to_json c job') t f
              ∙ left_alone f (to_json c job) s (str_ne p f distinct.processing_failed).0,
        ),
        kept,
      )

  failed_version_id :
      (job : Job) (error : Option Text) (now : ℕ)
      → has_id i (failed_version r c settings job error now) ≡ has_id i job
  unfolding failed_version with_failed_at with_error
  failed_version_id job (some e) now = refl
  failed_version_id job none now = ground arith

  -- A job that fails for good keeps its identifier, type and payload.
  failed_version_same :
      (job : Job) (error : Option Text) (now : ℕ)
      → let job' = failed_version r c settings job error now in
        (job'.id ≡ job.id) × (job'.type ≡ job.type) × (job'.payload ≡ job.payload)
  unfolding failed_version with_failed_at with_error
  failed_version_same job (some e) now = (refl, refl, refl)
  failed_version_same job none now = elim (Option-cases job.last_error) [
    | inl no_error ↦ rw no_error (refl, refl, refl)
    | inr (e, old) ↦ rw old (refl, refl, refl)
  ]

  -- It goes from the processing queue to the failed queue.
  pub moved_to_failed_queue :
      (job : Job) (error : Option Text) (now : ℕ) (s : r.State)
      → let job' = (move_job_to_failed_queue r c settings job error now s).0 in
        let s' = (move_job_to_failed_queue r c settings job error now s).1 in
        (r.items s' p ≡ erase (to_json c job) (r.items s p))
        × (member (to_json c job') (r.items s' f) ≡ true)
        × ((job'.id ≡ job.id) × (job'.type ≡ job.type) × (job'.payload ≡ job.payload))
  unfolding move_job_to_failed_queue
  moved_to_failed_queue job error now s =
      let job' = failed_version r c settings job error now in
      let s₁ = (r.lrem s p (to_json c job)).1 in
      let apart = (str_ne p f distinct.processing_failed).1 in
      (
        lawful.items-lpush s₁ f (to_json c job') p ∙ rw apart (taken_out (to_json c job) s),
        rw (lawful.items-lpush s₁ f (to_json c job') f)
            (rw (eq_refl f) (rw (text_eq_refl (to_json c job')) refl)),
        failed_version_same job error now,
      )

  -- The copies of every job stay when one fails for good.
  pub copies-move_job_to_failed_queue :
      (job : Job) (error : Option Text) (now : ℕ) (s : r.State)
      → member (to_json c job) (r.items s p) ≡ true
      → copies_of (move_job_to_failed_queue r c settings job error now s).1 ≡ copies_of s
  unfolding move_job_to_failed_queue
  copies-move_job_to_failed_queue job error now s h =
      let job' = failed_version r c settings job error now in
      omega (
        arith,
        copies-lrem r lawful settings distinct (id_weight c i) s (to_json c job) h,
        copies-lpush_failed r lawful settings distinct (id_weight c i)
            (r.lrem s p (to_json c job)).1 (to_json c job'),
        weight-to_json job,
        weight-to_json job',
        failed_version_id job error now,
      )
