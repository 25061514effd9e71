-- ===== src/Queue/Redis.antt =====
-- The Redis commands that app/core/job_queue.py sends, as a parameter: an unknown state, what LRANGE
-- and ZRANGE show of it, and the documented effect of each command on that.
use starter_backend_template.Prelude.{
  ℕ, ◌≡◌, String, Bool, true, false, List, [], ◌∷◌, ◌++◌, if◌then◌else◌, Option, none, some, Text,
  text_eq, str_eq, leb,
}

abbrev pub member : Text → List Text → Bool
member v [] = false
member v (x ∷ xs) = if text_eq x v then true else member v xs

-- The list without the first item that is `v`.
abbrev pub erase : Text → List Text → List Text
erase v [] = []
erase v (x ∷ xs) = if text_eq x v then xs else x ∷ erase v xs

abbrev pub scored : Text → List (Text × ℕ) → Bool
scored v [] = false
scored v ((x, t) ∷ xs) = if text_eq x v then true else scored v xs

abbrev pub unscored : Text → List (Text × ℕ) → List (Text × ℕ)
unscored v [] = []
unscored v ((x, t) ∷ xs) = if text_eq x v then xs else (x, t) ∷ unscored v xs

-- The last item of a list, and the items before it.
abbrev pub last? : List Text → Option Text
last? [] = none
last? (x ∷ []) = some x
last? (x ∷ y ∷ xs) = last? (y ∷ xs)

abbrev pub front : List Text → List Text
front [] = []
front (x ∷ []) = []
front (x ∷ y ∷ xs) = x ∷ front (y ∷ xs)

abbrev pub due : ℕ → List (Text × ℕ) → List Text
due now [] = []
due now ((x, t) ∷ xs) = if leb t now then x ∷ due now xs else due now xs

pub record Redis : Type 1 where
  pub State : Type 0
  -- LRANGE key 0 -1, and the members of a sorted set with their scores, lowest first
  pub items : State → String → List Text
  pub members : State → String → List (Text × ℕ)
  pub lpush : State → String → Text → State
  -- LREM key 1 value
  pub lrem : State → String → Text → ℕ × State
  pub brpoplpush : State → String → String → Option Text × State
  pub rpop : State → String → Option Text × State
  pub zadd : State → String → Text → ℕ → State
  pub zrem : State → String → Text → ℕ × State
  -- ZRANGEBYSCORE key 0 now
  pub zrangebyscore : State → String → ℕ → List Text

-- What a command that writes to a list or to a sorted set leaves of the others.
pub record IsRedis (r : Redis) : Type 0 where
  pub items-lpush :
      (s : r.State) (k : String) (v : Text) (j : String)
      → r.items (r.lpush s k v) j ≡ (if str_eq k j then v ∷ r.items s j else r.items s j)
  pub members-lpush :
      (s : r.State) (k : String) (v : Text) (j : String)
      → r.members (r.lpush s k v) j ≡ r.members s j
  pub items-lrem :
      (s : r.State) (k : String) (v : Text) (j : String)
      → r.items (r.lrem s k v).1 j ≡ (if str_eq k j then erase v (r.items s j) else r.items s j)
  pub members-lrem :
      (s : r.State) (k : String) (v : Text) (j : String)
      → r.members (r.lrem s k v).1 j ≡ r.members s j
  pub lrem_count :
      (s : r.State) (k : String) (v : Text)
      → (r.lrem s k v).0 ≡ (if member v (r.items s k) then 1 else 0)
  -- two different lists
  pub brpoplpush_value : (s : r.State) (k l : String) → (r.brpoplpush s k l).0 ≡ last? (r.items s k)
  pub items-brpoplpush :
      (s : r.State) (k l : String) (j : String)
      → str_eq k l ≡ false
      → r.items (r.brpoplpush s k l).1 j ≡ (
          if str_eq k j
          then front (r.items s j)
          else if str_eq l j
          then elim (last? (r.items s k)) [ none ↦ r.items s j | some v ↦ v ∷ r.items s j ]
          else r.items s j)
  pub members-brpoplpush :
      (s : r.State) (k l j : String) → r.members (r.brpoplpush s k l).1 j ≡ r.members s j
  pub rpop_value : (s : r.State) (k : String) → (r.rpop s k).0 ≡ last? (r.items s k)
  pub items-rpop :
      (s : r.State) (k j : String)
      → r.items (r.rpop s k).1 j ≡ (if str_eq k j then front (r.items s j) else r.items s j)
  pub members-rpop : (s : r.State) (k j : String) → r.members (r.rpop s k).1 j ≡ r.members s j
  pub items-zadd :
      (s : r.State) (k : String) (v : Text) (t : ℕ) (j : String)
      → r.items (r.zadd s k v t) j ≡ r.items s j
  -- a new member gets a place by its score; one that is there would get the new score
  pub members-zadd :
      (s : r.State) (k : String) (v : Text) (t : ℕ)
      → scored v (r.members s k) ≡ false
      → (xs : List (Text × ℕ)) × (ys : List (Text × ℕ)) × (r.members s k ≡ xs ++ ys)
        × (r.members (r.zadd s k v t) k ≡ xs ++ ((v, t) ∷ ys))
  pub items-zrem :
      (s : r.State) (k : String) (v : Text) (j : String) → r.items (r.zrem s k v).1 j ≡ r.items s j
  pub members-zrem :
      (s : r.State) (k : String) (v : Text)
      → r.members (r.zrem s k v).1 k ≡ unscored v (r.members s k)
  pub zrem_count :
      (s : r.State) (k : String) (v : Text)
      → (r.zrem s k v).0 ≡ (if scored v (r.members s k) then 1 else 0)
  pub zrangebyscore-due :
      (s : r.State) (k : String) (now : ℕ) → r.zrangebyscore s k now ≡ due now (r.members s k)
