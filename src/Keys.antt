-- ===== src/Keys.antt =====
-- The Redis commands on single keys that the services send, as a parameter: an unknown state, what
-- GET shows of a key at a time, and the documented effect of each command on that. Times are in
-- seconds. `none` for a result is a `RedisError`, which leaves the keys as they are.
use starter_backend_template.Prelude.{
  ℕ, ◌+◌, ◌≡◌, Bool, true, false, if◌then◌else◌, ltb, Option, none, some, Text, text_eq,
}

pub record Keys : Type 1 where
  pub State : Type 0
  -- GET key: none if it was never set, was deleted or has expired
  pub value : State → ℕ → Text → Option Text
  -- SET key value EX ttl, SET key value NX EX ttl, DEL key, INCR key, EXPIRE key ttl
  pub set_ex : State → ℕ → Text → Text → ℕ → State
  pub set_nx_ex : State → ℕ → Text → Text → ℕ → Bool × State
  pub delete : State → ℕ → Text → State
  pub incr : State → ℕ → Text → Option ℕ × State
  pub expire : State → ℕ → Text → ℕ → Bool × State

abbrev pub is_there : Option Text → Bool
is_there none = false
is_there (some v) = true

-- A value that expires at a time, seen at another.
abbrev pub until : ℕ → Text → ℕ → Option Text
until expires v now = if ltb now expires then some v else none

pub record IsKeys (k : Keys) : Type 0 where
  pub value-set_ex :
      (s : k.State) (now : ℕ) (key v : Text) (ttl : ℕ) (t : ℕ) (j : Text)
      → k.value (k.set_ex s now key v ttl) t j
        ≡ (if text_eq key j then until (now + ttl) v t else k.value s t j)
  pub set_nx_ex_flag :
      (s : k.State) (now : ℕ) (key v : Text) (ttl : ℕ)
      → (k.set_nx_ex s now key v ttl).0 ≡ (if is_there (k.value s now key) then false else true)
  pub value-set_nx_ex :
      (s : k.State) (now : ℕ) (key v : Text) (ttl : ℕ) (t : ℕ) (j : Text)
      → k.value (k.set_nx_ex s now key v ttl).1 t j ≡ (
          if is_there (k.value s now key)
          then k.value s t j
          else if text_eq key j
          then until (now + ttl) v t
          else k.value s t j)
  pub value-delete :
      (s : k.State) (now : ℕ) (key : Text) (t : ℕ) (j : Text)
      → k.value (k.delete s now key) t j ≡ (if text_eq key j then none else k.value s t j)
