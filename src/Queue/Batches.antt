-- ===== src/Queue/Batches.antt =====
-- The operations of app/core/job_queue.py that walk a whole queue keep every job: promotion,
-- reclaiming, and requeueing of failed jobs.
-- In every theorem here, the lists of the queue, of the jobs being processed and of the failed jobs
-- have three different names, and Redis and JSON behave as their interfaces say.
use starter_backend_template.Prelude.{
  ℕ, zero, suc, ◌+◌, ◌<◌, ◌≡◌, ◌≢◌, true, false, refl, arith, Option, none, some, List, [], ◌∷◌,
  Text, length, inl, inr, eq_refl, Bool-cases, Option-cases, ◌∙◌,
}
use starter_backend_template.Errors.{Error, ok, err, Result-cases, ◌>>=◌}
use starter_backend_template.Queue.Redis.{Redis, IsRedis, member, scored, last?}
use starter_backend_template.Queue.Backoff.{WorkerSettings}
use starter_backend_template.Queue.Job.{
  Codec, IsCodec, Job, to_json, from_json, without_processing_started_at,
}
use starter_backend_template.Queue.Ops.{
  promote_one, promote_loop, promote_delayed_jobs, is_stale, put_back, reclaim_one, reclaim_loop,
  reclaim_stale_processing_jobs, requeue_failed_loop, requeue_failed_jobs, is_reached,
}
use starter_backend_template.Queue.Copies.Tally.{length-front}
use starter_backend_template.Queue.Copies.Commands.{
  AreDistinct, str_ne, copies-lpush_queue, copies-lrem, copies-lrem_absent, copies-rpop,
  copies-rpop_empty, copies-zrem, copies-zrem_absent,
}
use starter_backend_template.Queue.Conservation
use starter_backend_template.Queue.Conservation.{job_copies, has_id, id_weight}

module _ (r : Redis) (lawful : IsRedis r) (c : Codec) (codec : IsCodec c)
    (settings : WorkerSettings) (distinct : AreDistinct settings) (i : Text) where
  open settings use {
    worker_queue_name as q, worker_processing_queue_name as p, worker_delayed_queue_name as d,
    worker_failed_queue_name as f,
  }

  abbrev copies_of : r.State → ℕ
  copies_of s = job_copies r c settings i s

  weight-to_json : (job : Job) → id_weight c i (to_json c job) ≡ has_id i job
  weight-to_json = Conservation.weight-to_json r lawful c codec settings distinct i

  weight_of_ok :
      (raw : Text) (job : Job) → from_json c raw ≡ ok job → id_weight c i raw ≡ has_id i job
  weight_of_ok = Conservation.weight_of_ok r lawful c codec settings distinct i

  copies-promote_one :
      (raw : Text) (s : r.State) → copies_of (promote_one r c settings raw s).1 ≡ copies_of s
  unfolding promote_one
  copies-promote_one raw s = elim (Bool-cases (scored raw (r.members s d))) [
    | inl there ↦
        rw (lawful.zrem_count s d raw, promote_one)
          (rw there (
            omega (
              arith,
              copies-zrem r lawful settings distinct (id_weight c i) s raw there,
              copies-lpush_queue r lawful settings distinct (id_weight c i) (r.zrem s d raw).1 raw,
            )))
    | inr gone ↦
        rw (lawful.zrem_count s d raw, promote_one)
          (rw gone (copies-zrem_absent r lawful settings distinct (id_weight c i) s raw gone))
  ]

  copies-promote_loop :
      (raws : List Text) (limit : Option ℕ) (n : ℕ) (s : r.State)
      → copies_of (promote_loop r c settings raws limit n s).1 ≡ copies_of s
  unfolding promote_loop
  copies-promote_loop [] limit n s = refl
  copies-promote_loop (raw ∷ raws) limit n s = elim (Bool-cases (is_reached limit n)) [
    | inl stop ↦ rw stop refl
    | inr more ↦ rw more (copies-promote_loop raws limit _ _ ∙ copies-promote_one raw s)
  ]

  -- Promoting the delayed jobs that are due, up to a limit, only moves them to the queue.
  pub copies-promote_delayed_jobs :
      (now : ℕ) (limit : Option ℕ) (s : r.State)
      → copies_of (promote_delayed_jobs r c settings now limit s).1 ≡ copies_of s
  unfolding promote_delayed_jobs
  copies-promote_delayed_jobs now limit s = copies-promote_loop (r.zrangebyscore s d now) limit 0 s

  reclaimed :
      (raw : Text) (job : Job) (s : r.State)
      → from_json c raw ≡ ok job
      → copies_of (put_back r c settings raw job s).1 ≡ copies_of s
  unfolding put_back without_processing_started_at
  reclaimed raw job s e = elim (Bool-cases (member raw (r.items s p))) [
    | inl there ↦
        rw (lawful.lrem_count s p raw, put_back)
          (rw there (
            omega (
              arith,
              copies-lrem r lawful settings distinct (id_weight c i) s raw there,
              copies-lpush_queue r lawful settings distinct (id_weight c i) (r.lrem s p raw).1
                  (to_json c (without_processing_started_at job)),
              weight_of_ok raw job e,
              weight-to_json (without_processing_started_at job),
            )))
    | inr gone ↦
        rw (lawful.lrem_count s p raw, put_back)
          (rw gone (copies-lrem_absent r lawful settings distinct (id_weight c i) s raw gone))
  ]

  copies-reclaim_one :
      (raw : Text) (now : ℕ) (s : r.State)
      → copies_of (reclaim_one r c settings raw now s).1 ≡ copies_of s
  unfolding reclaim_one
  copies-reclaim_one raw now s = elim (Result-cases (from_json c raw)) [
    | inr (e, bad) ↦ rw (bad, reclaim_one) refl
    | inl (job, good) ↦ elim (Result-cases (is_stale r c settings job now)) [
      | inr (e, bad) ↦ rw (good, reclaim_one) (rw (bad, reclaim_one) refl)
      | inl (false, fresh) ↦ rw (good, reclaim_one) (rw (fresh, reclaim_one) refl)
      | inl (true, stale) ↦
          rw (good, reclaim_one) (rw (stale, reclaim_one) (reclaimed raw job s good))
    ]
  ]

  copies-reclaim_loop :
      (raws : List Text) (now n : ℕ) (s : r.State)
      → copies_of (reclaim_loop r c settings raws now n s).1 ≡ copies_of s
  unfolding reclaim_loop
  copies-reclaim_loop [] now n s = refl
  copies-reclaim_loop (raw ∷ raws) now n s =
      elim (Result-cases (reclaim_one r c settings raw now s).0) [
        | inl (k, e) ↦
            rw (e, ◌>>=◌) (copies-reclaim_loop raws now (n + k) _ ∙ copies-reclaim_one raw now s)
        | inr (e, h) ↦ rw (h, ◌>>=◌) (copies-reclaim_one raw now s)
      ]

  -- Reclaiming stale jobs only moves them back to the queue, also when it raises at a text that it
  -- cannot read.
  pub copies-reclaim_stale_processing_jobs :
      (now : ℕ) (s : r.State)
      → copies_of (reclaim_stale_processing_jobs r c settings now s).1 ≡ copies_of s
  unfolding reclaim_stale_processing_jobs
  copies-reclaim_stale_processing_jobs now s = copies-reclaim_loop (r.items s p) now 0 s

  -- What one round of `requeue_failed_jobs` leaves: the copies, and a shorter failed queue.
  round_copies :
      (raw : Text) (job : Job) (s : r.State)
      → last? (r.items s f) ≡ some raw
      → from_json c raw ≡ ok job
      → copies_of (r.lpush (r.rpop s f).1 q (to_json c job)) ≡ copies_of s
  round_copies raw job s e good = omega (
    arith,
    copies-rpop r lawful settings distinct (id_weight c i) s raw e,
    copies-lpush_queue r lawful settings distinct (id_weight c i) (r.rpop s f).1 (to_json c job),
    weight_of_ok raw job good,
    weight-to_json job,
  )

  round_length :
      (raw : Text) (job : Job) (s : r.State)
      → last? (r.items s f) ≡ some raw
      → suc (length (r.items (r.lpush (r.rpop s f).1 q (to_json c job)) f)) ≡ length (r.items s f)
  round_length raw job s e = rw (lawful.items-lpush (r.rpop s f).1 q (to_json c job) f) (
      rw ((str_ne q f distinct.queue_failed).0)
        (rw (lawful.items-rpop s f f) (rw (eq_refl f) (length-front raw (r.items s f) e))))

  malformed_weight : (raw : Text) (e : Error) → from_json c raw ≡ err e → id_weight c i raw ≡ 0
  malformed_weight = Conservation.malformed_weight r lawful c codec settings distinct i

  copies-requeue_failed_loop :
      (fuel : ℕ) (limit : Option ℕ) (n : ℕ) (s : r.State)
      → copies_of (requeue_failed_loop r c settings fuel limit n s).1 ≡ copies_of s
  unfolding requeue_failed_loop
  copies-requeue_failed_loop zero limit n s = refl
  copies-requeue_failed_loop (suc fuel) limit n s = elim (Bool-cases (is_reached limit n)) [
    | inl stop ↦ rw stop refl
    | inr more ↦ rw more (elim (Option-cases (last? (r.items s f))) [
      | inl empty ↦
          rw (lawful.rpop_value s f ∙ empty, requeue_failed_loop)
            (copies-rpop_empty r lawful settings distinct (id_weight c i) s empty)
      | inr (raw, e) ↦
          rw (lawful.rpop_value s f ∙ e, requeue_failed_loop)
            (elim (Result-cases (from_json c raw)) [
              | inl (job, good) ↦
                  rw (good, requeue_failed_loop)
                    (copies-requeue_failed_loop fuel limit (n + 1) _
                      ∙ round_copies raw job s e good)
              | inr (bad, h) ↦
                  rw (h, requeue_failed_loop)
                    (omega (
                      arith,
                      copies-rpop r lawful settings distinct (id_weight c i) s raw e,
                      malformed_weight raw bad h,
                    ))
            ])
    ])
  ]

  requeue_failed_loop_ends :
      (fuel : ℕ) (limit : Option ℕ) (n : ℕ) (s : r.State)
      → length (r.items s f) < fuel
      → (requeue_failed_loop r c settings fuel limit n s).0 ≢ ok none
  unfolding requeue_failed_loop
  requeue_failed_loop_ends zero limit n s h = elim h [ ]
  requeue_failed_loop_ends (suc fuel) limit n s h = elim (Bool-cases (is_reached limit n)) [
    | inl stop ↦ rw stop (cc)
    | inr more ↦ rw more (elim (Option-cases (last? (r.items s f))) [
      | inl empty ↦ rw (lawful.rpop_value s f ∙ empty, requeue_failed_loop) (cc)
      | inr (raw, e) ↦
          rw (lawful.rpop_value s f ∙ e, requeue_failed_loop)
            (elim (Result-cases (from_json c raw)) [
              | inl (job, good) ↦
                  rw (good, requeue_failed_loop)
                    (requeue_failed_loop_ends fuel limit (n + 1) _
                      (omega (arith, round_length raw job s e)))
              | inr (bad, g) ↦ rw (g, requeue_failed_loop) (cc)
            ])
    ])
  ]

  -- Requeueing the failed jobs ends for every limit, and only moves them to the queue.
  pub copies-requeue_failed_jobs :
      (limit : Option ℕ) (s : r.State)
      → (copies_of (requeue_failed_jobs r c settings limit s).1 ≡ copies_of s)
        × ((requeue_failed_jobs r c settings limit s).0 ≢ ok none)
  unfolding requeue_failed_jobs
  copies-requeue_failed_jobs limit s =
      (copies-requeue_failed_loop _ limit 0 s, requeue_failed_loop_ends _ limit 0 s (omega arith))
