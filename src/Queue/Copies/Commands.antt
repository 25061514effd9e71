-- ===== src/Queue/Copies/Commands.antt =====
-- The count of a job's copies under each command.
use starter_backend_template.Prelude.{
  ℕ, ◌+◌, ◌≡◌, ◌≢◌, String, true, false, refl, arith, if◌then◌else◌, eq_iff, str_eq, Option, none,
  some, ◌∷◌, Text, ap, eq_refl,
}
use starter_backend_template.Queue.Redis.{Redis, IsRedis, member, scored, last?, front}
use starter_backend_template.Queue.Backoff.{WorkerSettings}
use starter_backend_template.Queue.Copies.Tally.{
  tally, tally_scored, tally-erase, tally-unscored, tally-front, tally_scored-insert, last?-none,
  erase_absent, unscored_absent,
}

-- The settings name three different lists.
pub record AreDistinct (settings : WorkerSettings) : Type 0 where
  pub queue_processing : settings.worker_queue_name ≢ settings.worker_processing_queue_name
  pub queue_failed : settings.worker_queue_name ≢ settings.worker_failed_queue_name
  pub processing_failed : settings.worker_processing_queue_name ≢ settings.worker_failed_queue_name

pub str_ne : (a b : String) → a ≢ b → (str_eq a b ≡ false) × (str_eq b a ≡ false)
str_ne a b h = (ground (arith, eq_iff a b), ground (arith, eq_iff b a))

module _ (r : Redis) (settings : WorkerSettings) (w : Text → ℕ) where
  -- The weight of all four queues.
  abbrev pub copies : r.State → ℕ
  copies s =
      tally w (r.items s settings.worker_queue_name)
      + tally w (r.items s settings.worker_processing_queue_name)
      + tally_scored w (r.members s settings.worker_delayed_queue_name)
      + tally w (r.items s settings.worker_failed_queue_name)

module _ (r : Redis) (lawful : IsRedis r) (settings : WorkerSettings)
    (distinct : AreDistinct settings) (w : Text → ℕ) where
  open settings use {
    worker_queue_name as q, worker_processing_queue_name as p, worker_delayed_queue_name as d,
    worker_failed_queue_name as f,
  }

  qp : (str_eq q p ≡ false) × (str_eq p q ≡ false)
  qp = str_ne q p distinct.queue_processing

  qf : (str_eq q f ≡ false) × (str_eq f q ≡ false)
  qf = str_ne q f distinct.queue_failed

  pf : (str_eq p f ≡ false) × (str_eq f p ≡ false)
  pf = str_ne p f distinct.processing_failed

  pub copies-lpush_queue :
      (s : r.State) (v : Text) → copies r settings w (r.lpush s q v) ≡ w v + copies r settings w s
  copies-lpush_queue s v =
      rw
        (
          lawful.items-lpush s q v q,
          lawful.items-lpush s q v p,
          lawful.items-lpush s q v f,
          lawful.members-lpush s q v d,
        )
        (ground (arith, qp.0, qf.0, eq_refl q))

  pub copies-lpush_processing :
      (s : r.State) (v : Text) → copies r settings w (r.lpush s p v) ≡ w v + copies r settings w s
  copies-lpush_processing s v =
      rw
        (
          lawful.items-lpush s p v q,
          lawful.items-lpush s p v p,
          lawful.items-lpush s p v f,
          lawful.members-lpush s p v d,
        )
        (ground (arith, qp.1, pf.0, eq_refl p))

  pub copies-lpush_failed :
      (s : r.State) (v : Text) → copies r settings w (r.lpush s f v) ≡ w v + copies r settings w s
  copies-lpush_failed s v =
      rw
        (
          lawful.items-lpush s f v q,
          lawful.items-lpush s f v p,
          lawful.items-lpush s f v f,
          lawful.members-lpush s f v d,
        )
        (ground (arith, qf.1, pf.1, eq_refl f))

  pub copies-lrem :
      (s : r.State) (v : Text)
      → member v (r.items s p) ≡ true
      → w v + copies r settings w (r.lrem s p v).1 ≡ copies r settings w s
  copies-lrem s v h =
      rw
        (
          lawful.items-lrem s p v q,
          lawful.items-lrem s p v p,
          lawful.items-lrem s p v f,
          lawful.members-lrem s p v d,
        )
        (ground (arith, qp.1, pf.0, eq_refl p, tally-erase w v (r.items s p)))

  pub copies-lrem_absent :
      (s : r.State) (v : Text)
      → member v (r.items s p) ≡ false
      → copies r settings w (r.lrem s p v).1 ≡ copies r settings w s
  copies-lrem_absent s v h =
      rw
        (
          lawful.items-lrem s p v q,
          lawful.items-lrem s p v p,
          lawful.items-lrem s p v f,
          lawful.members-lrem s p v d,
        )
        (ground (arith, qp.1, pf.0, eq_refl p, erase_absent v (r.items s p)))

  pub copies-brpoplpush :
      (s : r.State) → copies r settings w (r.brpoplpush s q p).1 ≡ copies r settings w s
  copies-brpoplpush s =
      rw
        (
          lawful.items-brpoplpush s q p q qp.0,
          lawful.items-brpoplpush s q p p qp.0,
          lawful.items-brpoplpush s q p f qp.0,
          lawful.members-brpoplpush s q p d,
        )
        (moved (last? (r.items s q)) refl)
    where
      moved :
          (o : Option Text)
          → last? (r.items s q) ≡ o
          → tally w (
                if str_eq q q
                then front (r.items s q)
                else if str_eq p q
                then elim (last? (r.items s q)) [ none ↦ r.items s q | some v ↦ v ∷ r.items s q ]
                else r.items s q)
              + tally w (
                  if str_eq q p
                  then front (r.items s p)
                  else if str_eq p p
                  then elim (last? (r.items s q)) [ none ↦ r.items s p | some v ↦ v ∷ r.items s p ]
                  else r.items s p)
              + tally_scored w (r.members s d)
              + tally w (
                  if str_eq q f
                  then front (r.items s f)
                  else if str_eq p f
                  then elim (last? (r.items s q)) [ none ↦ r.items s f | some v ↦ v ∷ r.items s f ]
                  else r.items s f)
            ≡ copies r settings w s
      moved none e =
          ground (arith, qp.0, qf.0, pf.0, eq_refl q, eq_refl p, last?-none (r.items s q) e)
      moved (some v) e =
          ground (arith, qp.0, qf.0, pf.0, eq_refl q, eq_refl p, tally-front w v (r.items s q) e)

  pub items-brpoplpush_processing :
      (s : r.State) (v : Text)
      → last? (r.items s q) ≡ some v
      → r.items (r.brpoplpush s q p).1 p ≡ v ∷ r.items s p
  items-brpoplpush_processing s v e =
      rw (lawful.items-brpoplpush s q p p qp.0) (ground (arith, qp.0, eq_refl p))

  pub copies-rpop :
      (s : r.State) (v : Text)
      → last? (r.items s f) ≡ some v
      → w v + copies r settings w (r.rpop s f).1 ≡ copies r settings w s
  copies-rpop s v h =
      rw
        (
          lawful.items-rpop s f q,
          lawful.items-rpop s f p,
          lawful.items-rpop s f f,
          lawful.members-rpop s f d,
        )
        (ground (arith, qf.1, pf.1, eq_refl f, tally-front w v (r.items s f)))

  pub copies-rpop_empty :
      (s : r.State)
      → last? (r.items s f) ≡ none
      → copies r settings w (r.rpop s f).1 ≡ copies r settings w s
  copies-rpop_empty s h =
      rw
        (
          lawful.items-rpop s f q,
          lawful.items-rpop s f p,
          lawful.items-rpop s f f,
          lawful.members-rpop s f d,
        )
        (ground (arith, qf.1, pf.1, eq_refl f, last?-none (r.items s f)))

  pub copies-zadd :
      (s : r.State) (v : Text) (t : ℕ)
      → scored v (r.members s d) ≡ false
      → copies r settings w (r.zadd s d v t) ≡ w v + copies r settings w s
  copies-zadd s v t h =
      let (xs, ys, before, after) = lawful.members-zadd s d v t h in
      rw
        (
          lawful.items-zadd s d v t q,
          lawful.items-zadd s d v t p,
          lawful.items-zadd s d v t f,
          after,
        )
        (omega (arith, tally_scored-insert w v t xs ys, ap (tally_scored w) before))

  pub copies-zrem :
      (s : r.State) (v : Text)
      → scored v (r.members s d) ≡ true
      → w v + copies r settings w (r.zrem s d v).1 ≡ copies r settings w s
  copies-zrem s v h =
      rw
        (
          lawful.items-zrem s d v q,
          lawful.items-zrem s d v p,
          lawful.items-zrem s d v f,
          lawful.members-zrem s d v,
        )
        (omega (arith, tally-unscored w v (r.members s d) h))

  pub copies-zrem_absent :
      (s : r.State) (v : Text)
      → scored v (r.members s d) ≡ false
      → copies r settings w (r.zrem s d v).1 ≡ copies r settings w s
  copies-zrem_absent s v h =
      rw
        (
          lawful.items-zrem s d v q,
          lawful.items-zrem s d v p,
          lawful.items-zrem s d v f,
          lawful.members-zrem s d v,
        )
        (rw (unscored_absent v (r.members s d) h) refl)
