-- ===== src/Worker/Rounds.antt =====
-- One round of the worker: what becomes of the job that it takes.
-- In every theorem here, the lists of the queue, of the jobs being processed and of the failed jobs
-- have three different names, and Redis and JSON behave as their interfaces say.
use starter_backend_template.Prelude.{
  ℕ, ◌+◌, ◌≡◌, true, false, refl, arith, ltb, none, some, List, ◌∷◌, Text, text_eq, text_eq_refl,
  text_eq_sound, sym, ◌⊎◌, Option, inl, inr, eq_refl, Bool-cases, Option-cases, ◌∙◌,
}
use starter_backend_template.Errors.{Error, unknown_job_type, ok, err, Result-cases}
use starter_backend_template.Queue.Redis.{Redis, IsRedis, member, erase, scored, last?}
use starter_backend_template.Queue.Backoff.{WorkerSettings}
use starter_backend_template.Queue.Job.{
  Codec, IsCodec, Job, to_json, from_json, with_processing_started_at, with_next_attempt,
  with_error,
}
use starter_backend_template.Queue.Ops.{
  mark_processing, dequeue_job, schedule_retry, move_job_to_failed_queue,
}
use starter_backend_template.Queue.Copies.Commands.{AreDistinct, items-brpoplpush_processing}
use starter_backend_template.Queue.Conservation.{
  job_copies, weight-to_json, has_id, id_weight, copies-dequeue_job, copies-ack_job,
  copies-schedule_retry, copies-move_job_to_failed_queue, moved_to_failed_queue,
}
use starter_backend_template.Worker.{
  Handlers, handle_job, Status, completed, WorkerState, settle, process_next_job,
}

module _ (r : Redis) (lawful : IsRedis r) (c : Codec) (codec : IsCodec c)
    (settings : WorkerSettings) (distinct : AreDistinct settings) where
  open settings use {
    worker_queue_name as q, worker_processing_queue_name as p, worker_delayed_queue_name as d,
    worker_failed_queue_name as f,
  }

  mark_processing_marks :
      (raw : Text) (now : ℕ) (s : r.State) (job : Job)
      → member raw (r.items s p) ≡ true
      → from_json c raw ≡ ok job
      → let job' = with_processing_started_at c job none now in
        ((mark_processing r c settings raw now s).0 ≡ ok (some job'))
        × (member (to_json c job') (r.items (mark_processing r c settings raw now s).1 p) ≡ true)
  unfolding mark_processing
  mark_processing_marks raw now s job h good =
      let job' = with_processing_started_at c job none now in
      elim (Bool-cases (text_eq (to_json c job') raw)) [
        | inl same ↦ (
          rw (good, mark_processing) (rw same refl),
          rw (good, mark_processing) (rw same (rw (text_eq_sound _ raw same) h)),
        )
        | inr other ↦ (
          rw (good, mark_processing) (rw other refl),
          rw (good, mark_processing)
              (rw other (
                rw (lawful.items-lpush _ p (to_json c job') p)
                  (rw (eq_refl p) (rw (text_eq_refl (to_json c job')) refl)))),
        )
      ]

  mark_processing_fails :
      (raw : Text) (now : ℕ) (s : r.State) (e : Error)
      → from_json c raw ≡ err e
      → (mark_processing r c settings raw now s).0 ≡ err e
  unfolding mark_processing
  mark_processing_fails raw now s e bad = rw (bad, mark_processing) refl

  member-mark_processing :
      (raw : Text) (now : ℕ) (s : r.State) (job : Job)
      → member raw (r.items s p) ≡ true
      → (mark_processing r c settings raw now s).0 ≡ ok (some job)
      → member (to_json c job) (r.items (mark_processing r c settings raw now s).1 p) ≡ true
  member-mark_processing raw now s job h e = elim (Result-cases (from_json c raw)) [
    | inr (x, bad) ↦ cc (mark_processing_fails raw now s x bad)
    | inl (j, good) ↦
        let (same, there) = mark_processing_marks raw now s j h good in
        rw (some_job (sym e ∙ same)) there
  ]
    where
      some_job : {a b : Job} → ok (some a) ≡ ok (some b) → a ≡ b
      some_job h = cc

  dequeue_empty :
      (now : ℕ) (s : r.State)
      → last? (r.items s q) ≡ none
      → (dequeue_job r c settings now s).0 ≡ ok none
  unfolding dequeue_job
  dequeue_empty now s e = rw (lawful.brpoplpush_value s q p ∙ e, dequeue_job) refl

  dequeue_nonempty :
      (now : ℕ) (s : r.State) (raw : Text)
      → last? (r.items s q) ≡ some raw
      → dequeue_job r c settings now s ≡ mark_processing r c settings raw now (r.brpoplpush s q p).1
  unfolding dequeue_job
  dequeue_nonempty now s raw e = rw (lawful.brpoplpush_value s q p ∙ e, dequeue_job) refl

  -- A job that `dequeue_job` returns is in the processing queue, in the form that is acknowledged.
  pub member-dequeue_job :
      (now : ℕ) (s : r.State) (job : Job)
      → (dequeue_job r c settings now s).0 ≡ ok (some job)
      → member (to_json c job) (r.items (dequeue_job r c settings now s).1 p) ≡ true
  member-dequeue_job now s job e = elim (Option-cases (last? (r.items s q))) [
    | inl empty ↦ cc (dequeue_empty now s empty)
    | inr (raw, found) ↦ rw (dequeue_nonempty now s raw found) (
        member-mark_processing raw now (r.brpoplpush s q p).1 job
          (rw (items-brpoplpush_processing r lawful settings distinct (λ t. 0) s raw found)
            (rw (text_eq_refl raw) refl))
          (rw (dequeue_nonempty now s raw found) at e))
  ]

  members-mark_processing :
      (raw : Text) (now : ℕ) (s : r.State)
      → r.members (mark_processing r c settings raw now s).1 d ≡ r.members s d
  unfolding mark_processing
  members-mark_processing raw now s = elim (Result-cases (from_json c raw)) [
    | inr (e, bad) ↦ rw (bad, mark_processing) refl
    | inl (job, good) ↦
        let job' = with_processing_started_at c job none now in
        elim (Bool-cases (text_eq (to_json c job') raw)) [
          | inl same ↦ rw (good, mark_processing) (rw same refl)
          | inr other ↦
              rw (good, mark_processing)
                (rw other
                  (lawful.members-lpush _ p (to_json c job') d ∙ lawful.members-lrem s p raw d))
        ]
  ]

  members-dequeue_job :
      (now : ℕ) (s : r.State) → r.members (dequeue_job r c settings now s).1 d ≡ r.members s d
  unfolding dequeue_job
  members-dequeue_job now s = elim (Option-cases (last? (r.items s q))) [
    | inl empty ↦
        rw (lawful.brpoplpush_value s q p ∙ empty, dequeue_job) (lawful.members-brpoplpush s q p d)
    | inr (raw, e) ↦
        rw (dequeue_nonempty now s raw e)
          (members-mark_processing raw now _ ∙ lawful.members-brpoplpush s q p d)
  ]

  -- No copy of the job waits in the delayed queue.
  abbrev pub IsNotDelayed : Job → r.State → Type 0
  IsNotDelayed job s = (t : Text) → scored t (r.members s d) ≡ true → id_weight c job.id t ≡ 0

  pub retry_is_new :
      (job : Job) (error : Text) (later : ℕ) (s : r.State)
      → IsNotDelayed job s
      → scored (to_json c (schedule_retry r c settings job error later s).0) (r.members s d) ≡ false
  unfolding schedule_retry with_error with_next_attempt
  retry_is_new job error later s h =
      let job' = with_error (with_next_attempt job) error in
      elim (Bool-cases (scored (to_json c job') (r.members s d))) [
        | inr new ↦ new
        | inl old ↦
            let w : id_weight c job.id (to_json c job') ≡ 1 =
              weight-to_json r lawful c codec settings distinct job.id job'
              ∙ rw (text_eq_refl job.id) refl in
            absurd (omega (arith, h (to_json c job') old, w))
      ]

  -- The job left the processing queue, and one with its identifier, type and payload came into the
  -- delayed or the failed queue.
  abbrev pub IsMoved : Job → r.State → r.State → Type 0
  IsMoved job s s' =
      (r.items s' p ≡ erase (to_json c job) (r.items s p))
      × ((job' : Job) × ((job'.id ≡ job.id) × (job'.type ≡ job.type) × (job'.payload ≡ job.payload))
          × ((scored (to_json c job') (r.members s' d) ≡ true)
              ⊎ (member (to_json c job') (r.items s' f) ≡ true)))

  module _ {D : Type 0} (handlers : Handlers D) (message : Error → Text) (i : Text) where
    abbrev copies_in : WorkerState r.State D → ℕ
    copies_in w = job_copies r c settings i w.queue

    retried :
        (job : Job) (error : Text) (later : ℕ) (s : r.State)
        → member (to_json c job) (r.items s p) ≡ true
        → IsNotDelayed job s
        → let s' = (schedule_retry r c settings job error later s).1 in
          IsMoved job s s' × (job_copies r c settings i s' ≡ job_copies r c settings i s)
    retried job error later s here new =
        let (gone, there, same, _, kept) =
          copies-schedule_retry r lawful c codec settings distinct i job error later s here
            (retry_is_new job error later s new) in
        ((gone, ((schedule_retry r c settings job error later s).0, same, inl there)), kept)

    failed_for_good :
        (job : Job) (error : Option Text) (later : ℕ) (s : r.State)
        → member (to_json c job) (r.items s p) ≡ true
        → let s' = (move_job_to_failed_queue r c settings job error later s).1 in
          IsMoved job s s' × (job_copies r c settings i s' ≡ job_copies r c settings i s)
    failed_for_good job error later s here =
        let (gone, there, same) =
          moved_to_failed_queue r lawful c codec settings distinct i job error later s in
        (
          (gone, ((move_job_to_failed_queue r c settings job error later s).0, same, inr there)),
          copies-move_job_to_failed_queue r lawful c codec settings distinct i job error later s
              here,
        )

    copies-settle :
        (job : Job) (later : ℕ) (e : Error) (services : D) (s : r.State)
        (seen : List (Text × Status))
        → member (to_json c job) (r.items s p) ≡ true
        → IsNotDelayed job s
        → let w = settle r c settings handlers message job later (err e) services s seen in
          IsMoved job s w.queue × (copies_in w ≡ job_copies r c settings i s)
    unfolding settle
    copies-settle job later (unknown_job_type t) services s seen here new =
        failed_for_good job (some (message (unknown_job_type t))) later s here
    copies-settle job later e services s seen here new =
        elim (Bool-cases (ltb job.attempts settings.worker_max_retries)) [
          | inl retry ↦ rw retry (retried job (message e) later s here new)
          | inr spent ↦ rw spent (failed_for_good job (some (message e)) later s here)
        ]

    -- The state that the round leaves for a job that it took.
    process_next_job_taken :
        (now later : ℕ) (w : WorkerState r.State D) (job : Job)
        → (dequeue_job r c settings now w.queue).0 ≡ ok (some job)
        → process_next_job r c settings handlers message now later w ≡ (
          ok true,
          settle r c settings handlers message job later
              (handle_job r c settings handlers message job w.services).0
              (handle_job r c settings handlers message job w.services).1
              (dequeue_job r c settings now w.queue).1
              w.observed,
        )
    unfolding process_next_job
    process_next_job_taken now later w job e = rw (e, process_next_job) refl

    -- A round whose handler raises keeps the number of copies of every job in the four queues. The job
    -- that it took is in the processing queue while it is handled and leaves it then, and a job with
    -- its identifier, type and payload is in the delayed or the failed queue. The hypothesis is that no
    -- copy of that job was delayed.
    pub process_next_job_keeps :
        (now later : ℕ) (w : WorkerState r.State D) (job : Job) (e : Error)
        → (dequeue_job r c settings now w.queue).0 ≡ ok (some job)
        → (handle_job r c settings handlers message job w.services).0 ≡ err e
        → IsNotDelayed job w.queue
        → let taken = (dequeue_job r c settings now w.queue).1 in
          let s' = (process_next_job r c settings handlers message now later w).1.queue in
          (member (to_json c job) (r.items taken p) ≡ true)
          × IsMoved job taken s'
          × (job_copies r c settings i s' ≡ job_copies r c settings i w.queue)
    process_next_job_keeps now later w job e taken raised new =
        let here = member-dequeue_job now w.queue job taken in
        let (moved, kept) =
          copies-settle job later e (handle_job r c settings handlers message job w.services).1
            (dequeue_job r c settings now w.queue).1 w.observed here
            (λ t h. new t (rw (← members-dequeue_job now w.queue) h)) in
        rw (process_next_job_taken now later w job taken) (
          rw raised (
            here,
            moved,
            kept ∙ copies-dequeue_job r lawful c codec settings distinct i now w.queue,
          ))

    -- A round whose handler returns takes away one copy of its job, and of no other, and counts it as
    -- completed.
    pub process_next_job_acknowledges :
        (now later : ℕ) (w : WorkerState r.State D) (job : Job)
        → (dequeue_job r c settings now w.queue).0 ≡ ok (some job)
        → (handle_job r c settings handlers message job w.services).0 ≡ ok tt
        → let w' = (process_next_job r c settings handlers message now later w).1 in
          (has_id i job + job_copies r c settings i w'.queue ≡ job_copies r c settings i w.queue)
          × (w'.observed ≡ (job.type, completed) ∷ w.observed)
          × (w'.job_in_progress ≡ false)
    unfolding settle
    process_next_job_acknowledges now later w job taken returned =
        rw (process_next_job_taken now later w job taken) (
          rw returned (
            copies-ack_job r lawful c codec settings distinct i job _
                  (member-dequeue_job now w.queue job taken)
                ∙ copies-dequeue_job r lawful c codec settings distinct i now w.queue,
            refl,
            refl,
          ))
