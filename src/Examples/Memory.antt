-- ===== src/Examples/Memory.antt =====
-- A Redis in memory with the commands of app/core/job_queue.py, for the examples.
use starter_backend_template.Prelude.{
  ℕ, ◌≡◌, String, Bool, false, refl, if◌then◌else◌, leb, Option, none, some, List, [], ◌∷◌, ◌++◌,
  Text, str_eq, eq_refl, text_eq, ap, Bool-cases, inl, inr,
}
use starter_backend_template.Queue.Redis.{
  Redis, IsRedis, member, erase, scored, unscored, last?, front, due,
}

pub record Memory : Type 0 where
  pub lists : String → List Text
  pub sets : String → List (Text × ℕ)

-- A member before the first one with a higher score.
abbrev pub place : Text → ℕ → List (Text × ℕ) → List (Text × ℕ)
place v t [] = (v, t) ∷ []
place v t ((x, u) ∷ xs) = if leb t u then (v, t) ∷ (x, u) ∷ xs else (x, u) ∷ place v t xs

Places : Text → ℕ → List (Text × ℕ) → Type 0
Places v t ms =
    (xs : List (Text × ℕ)) × (ys : List (Text × ℕ)) × (ms ≡ xs ++ ys)
    × (place v t ms ≡ xs ++ ((v, t) ∷ ys))

place_splits : (v : Text) (t : ℕ) (ms : List (Text × ℕ)) → Places v t ms
unfolding Places
place_splits v t [] = ([], [], refl, refl)
place_splits v t ((x, u) ∷ ms) = elim (Bool-cases (leb t u)) [
  | inl e ↦ ([], (x, u) ∷ ms, refl, rw e refl)
  | inr e ↦
      let (xs, ys, p, q) = place_splits v t ms in
      ((x, u) ∷ xs, ys, ap (λ zs. (x, u) ∷ zs) p, rw e (ap (λ zs. (x, u) ∷ zs) q))
]

abbrev pub add : Option Text → List Text → List Text
add none xs = xs
add (some v) xs = v ∷ xs

abbrev pub memory : Redis
memory = record {
  State = Memory;
  items = λ s j. s.lists j;
  members = λ s j. s.sets j;
  lpush = λ s k v. record s { lists = λ j. if str_eq k j then v ∷ s.lists j else s.lists j };
  lrem = λ s k v. (
    (if member v (s.lists k) then 1 else 0),
    record s { lists = λ j. if str_eq k j then erase v (s.lists j) else s.lists j },
  );
  brpoplpush = λ s k l. (
    last? (s.lists k),
    record s {
      lists = λ j.
          if str_eq k j
          then front (s.lists j)
          else if str_eq l j
          then add (last? (s.lists k)) (s.lists j)
          else s.lists j;
    },
  );
  rpop = λ s k. (
    last? (s.lists k),
    record s { lists = λ j. if str_eq k j then front (s.lists j) else s.lists j },
  );
  zadd = λ s k v t. record s {
    sets = λ j. if str_eq k j then place v t (unscored v (s.sets j)) else s.sets j;
  };
  zrem = λ s k v. (
    (if scored v (s.sets k) then 1 else 0),
    record s { sets = λ j. if str_eq k j then unscored v (s.sets j) else s.sets j },
  );
  zrangebyscore = λ s k now. due now (s.sets k);
}

brpoplpush_add :
    (a b : Bool) (f xs : List Text) (o : Option Text)
    → (if a then f else if b then add o xs else xs)
      ≡ (if a then f else if b then elim o [ none ↦ xs | some v ↦ v ∷ xs ] else xs)
brpoplpush_add a b f xs none = refl
brpoplpush_add a b f xs (some v) = refl

unscored_new : (v : Text) (ms : List (Text × ℕ)) → scored v ms ≡ false → unscored v ms ≡ ms
unscored_new v [] h = refl
unscored_new v ((x, t) ∷ ms) h = elim (Bool-cases (text_eq x v)) [
  | inl e ↦ cc (rw e at h)
  | inr e ↦ rw e (ap (λ zs. (x, t) ∷ zs) (unscored_new v ms (rw e at h)))
]

zadd_places :
    (s : Memory) (k : String) (v : Text) (t : ℕ)
    → scored v (s.sets k) ≡ false
    → (xs : List (Text × ℕ)) × (ys : List (Text × ℕ)) × (s.sets k ≡ xs ++ ys)
      × ((if str_eq k k then place v t (unscored v (s.sets k)) else s.sets k) ≡ xs ++ ((v, t) ∷ ys))
unfolding Places
zadd_places s k v t h =
    rw (eq_refl k) (rw (unscored_new v (s.sets k) h) (place_splits v t (s.sets k)))

pub memory_lawful : IsRedis memory
memory_lawful = record {
  items-lpush = λ s k v j. refl;
  members-lpush = λ s k v j. refl;
  items-lrem = λ s k v j. refl;
  members-lrem = λ s k v j. refl;
  lrem_count = λ s k v. refl;
  brpoplpush_value = λ s k l. refl;
  items-brpoplpush = λ s k l j h.
      brpoplpush_add (str_eq k j) (str_eq l j) (front (s.lists j)) (s.lists j) (last? (s.lists k));
  members-brpoplpush = λ s k l j. refl;
  rpop_value = λ s k. refl;
  items-rpop = λ s k j. refl;
  members-rpop = λ s k j. refl;
  items-zadd = λ s k v t j. refl;
  members-zadd = λ s k v t h. zadd_places s k v t h;
  items-zrem = λ s k v j. refl;
  members-zrem = λ s k v. rw (eq_refl k) refl;
  zrem_count = λ s k v. refl;
  zrangebyscore-due = λ s k now. refl;
}
