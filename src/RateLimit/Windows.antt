-- ===== src/RateLimit/Windows.antt =====
-- Which requests of a key pass the counter of app/api/dependencies/rate_limit.py.
use starter_backend_template.Prelude.{
  ℕ, suc, ◌+◌, ◌≡◌, refl, ap, ◌∙◌, Bool, true, false, ◌==◌, ltb, leb, Option, none, some, List, [],
  ◌∷◌, All, Text, arith,
}
use starter_backend_template.Errors.{http_exception, Result, ok, err}
use starter_backend_template.RateLimit.{
  live, counted, Counters, IsCounters, check_count, enforce_rate_limit_counter,
}

-- A request that passes.
abbrev pub is_ok : Result (Unit {0}) → Bool
is_ok (ok _) = true
is_ok (err e) = false

-- The requests of a key at a sequence of times: which of them pass.
abbrev pub verdicts :
    (c : Counters) (key : Text) (limit window_seconds : ℕ) → List ℕ → c.State → List Bool
verdicts c key limit window_seconds [] s = []
verdicts c key limit window_seconds (now ∷ times) s =
    is_ok (enforce_rate_limit_counter c key limit window_seconds now s).0
    ∷ verdicts c key limit window_seconds times
        (enforce_rate_limit_counter c key limit window_seconds now s).1

-- The requests after the first `n`, of which those up to the limit pass.
abbrev pub up_to : (limit n : ℕ) → List ℕ → List Bool
up_to limit n [] = []
up_to limit n (now ∷ times) = leb (suc n) limit ∷ up_to limit (suc n) times

-- A counter with a deadline, or without one, is there at a time.
abbrev pub lasts : Option ℕ → ℕ → Bool
lasts none now = true
lasts (some deadline) now = ltb now deadline

live-lasts :
    (n : ℕ) (d : Option ℕ) (now : ℕ) → lasts d now ≡ true → live now (some (n, d)) ≡ some (n, d)
live-lasts n none now h = refl
live-lasts n (some deadline) now h = rw h refl

-- Redis answers every INCR, and every command.
abbrev pub Answers : Counters → Type 0
Answers c = (s : c.State) (now : ℕ) (key : Text) → (n : ℕ) × ((c.incr s now key).0 ≡ some n)

pub record IsUp (c : Counters) : Type 0 where
  pub answers : Answers c
  pub expires : (s : c.State) (now : ℕ) (key : Text) (ttl : ℕ) → (c.expire s now key ttl).0 ≡ true

module _ (c : Counters) (lawful : IsCounters c) (key : Text) (limit window : ℕ) where
  abbrev run : ℕ → c.State → Result (Unit {0}) × c.State
  run now s = enforce_rate_limit_counter c key limit window now s

  checked : (n : ℕ) → is_ok (check_count c limit n) ≡ leb n limit
  checked n = ground arith

  -- A request at a live counter counts on.
  count_on :
      (s : c.State) (now n m : ℕ) (d : Option ℕ)
      → (c.incr s now key).0 ≡ some m
      → live now (c.counter s key) ≡ some (suc n, d)
      → (is_ok (run now s).0 ≡ leb (suc (suc n)) limit)
        × (c.counter (run now s).1 key ≡ some (suc (suc n), d))
  unfolding enforce_rate_limit_counter
  count_on s now n m d answered alive =
      let (value, after) = lawful.incr_some s now key m answered in
      let is_next : m ≡ suc (suc n) = value ∙ ap (λ x. (counted x).0) alive in
      let later : (m == 1) ≡ false = ground (arith, is_next) in
      (
        rw answered (rw later (rw is_next (checked (suc (suc n))))),
        rw answered (rw later (after ∙ ap (λ x. some (counted x)) alive)),
      )

  -- A request at a key that is not there, or has expired, starts a counter.
  start_count :
      (s : c.State) (now m : ℕ)
      → (c.incr s now key).0 ≡ some m
      → (c.expire (c.incr s now key).1 now key window).0 ≡ true
      → live now (c.counter s key) ≡ none
      → (is_ok (run now s).0 ≡ leb 1 limit)
        × (c.counter (run now s).1 key ≡ some (1, some (now + window)))
  unfolding enforce_rate_limit_counter
  start_count s now m answered expires absent =
      let (value, after) = lawful.incr_some s now key m answered in
      let first : m ≡ 1 = value ∙ ap (λ x. (counted x).0) absent in
      let counter = after ∙ ap (λ x. some (counted x)) absent in
      (
        rw answered (rw first (rw expires (checked 1))),
        rw answered (
            rw first
              (lawful.expire_true (c.incr s now key).1 now key window 1 none expires counter)),
      )

  -- Requests while a counter lives.
  while_live :
      (answers : Answers c) (times : List ℕ) (s : c.State) (n : ℕ) (d : Option ℕ)
      → All (λ now. lasts d now ≡ true) times
      → c.counter s key ≡ some (suc n, d)
      → verdicts c key limit window times s ≡ up_to limit (suc n) times
  while_live answers [] s n d all counter = refl
  while_live answers (now ∷ times) s n d (here, all) counter =
      let (m, answered) = answers s now key in
      let (verdict, after) =
        count_on s now n m d answered (rw counter (live-lasts (suc n) d now here)) in
      let rest = while_live answers times (run now s).1 (suc n) d all after in
      rw verdict (ap (λ x. leb (suc (suc n)) limit ∷ x) rest)

  -- Within a window that a request opens exactly the first requests of a key pass, as many as the limit,
  -- while Redis answers.
  pub enforce_rate_limit_counter-up_to :
      (up : IsUp c) (now : ℕ) (times : List ℕ) (s : c.State)
      → live now (c.counter s key) ≡ none
      → All (λ t. lasts (some (now + window)) t ≡ true) times
      → verdicts c key limit window (now ∷ times) s ≡ up_to limit 0 (now ∷ times)
  enforce_rate_limit_counter-up_to up now times s absent all =
      let (m, answered) = up.answers s now key in
      let (verdict, after) =
        start_count s now m answered (up.expires (c.incr s now key).1 now key window) absent in
      let rest = while_live up.answers times (run now s).1 0 (some (now + window)) all after in
      rw verdict (ap (λ x. leb 1 limit ∷ x) rest)

  -- A request whose INCR opens the counter and whose EXPIRE fails is answered with 503, and leaves a
  -- counter that never expires: the requests after it are counted for ever, at whatever times they come.
  pub enforce_rate_limit_counter_never_expires :
      (answers : Answers c) (now : ℕ) (times : List ℕ) (s : c.State)
      → live now (c.counter s key) ≡ none
      → (c.expire (c.incr s now key).1 now key window).0 ≡ false
      → ((run now s).0 ≡ err (http_exception 503 "Service temporarily unavailable"))
        × (verdicts c key limit window times (run now s).1 ≡ up_to limit 1 times)
  unfolding enforce_rate_limit_counter
  enforce_rate_limit_counter_never_expires answers now times s absent failed =
      let (m, answered) = answers s now key in
      let (value, after) = lawful.incr_some s now key m answered in
      let first : m ≡ 1 = value ∙ ap (λ x. (counted x).0) absent in
      let counter = after ∙ ap (λ x. some (counted x)) absent in
      let left : c.counter (run now s).1 key ≡ some (1, none) =
        rw answered
          (rw first (lawful.expire_false (c.incr s now key).1 now key window failed ∙ counter)) in
      (
        rw answered (rw first (rw failed refl)),
        while_live answers times (run now s).1 0 none (all_last times) left,
      )
    where
      all_last : (times : List ℕ) → All (λ t. lasts none t ≡ true) times
      all_last [] = tt
      all_last (t ∷ times) = (refl, all_last times)
