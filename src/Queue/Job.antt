-- ===== src/Queue/Job.antt =====
-- The class `Job` of app/core/job_queue.py, with its JSON form.
use starter_backend_template.Prelude.{
  ℕ, ◌+◌, ◌≡◌, Bool, if◌then◌else◌, arith, Option, none, some, Text, codes, take, text_eq,
  is_nonempty,
}
use starter_backend_template.Errors.{malformed, ill_typed, Result, ok, err}
use starter_backend_template.Errors.Chains.{◌>>=◌}

-- A JSON value, as `json.loads` returns it and `json.dumps` takes it; `neg n` is -(n + 1), and a float
-- is its `repr`.
mutual
  pub data Value : Type 0 where
    null : Value
    num : ℕ → Value
    str : Text → Value
    neg : ℕ → Value
    float : Text → Value
    flag : Bool → Value
    arr : Items → Value
    obj : Fields → Value

  pub data Items : Type 0 where
    nil : Items
    item : Value → Items → Items

  pub data Fields : Type 0 where
    end : Fields
    field : Text → Value → Fields → Fields

-- `data.get(key)`
abbrev pub get : Text → Fields → Option Value
get key end = none
get key (field k v rest) = if text_eq k key then some v else get key rest

-- `json.dumps`, `json.loads`, `datetime.isoformat` in UTC and `datetime.fromisoformat`.
pub record Codec : Type 0 where
  pub dumps : Value → Text
  pub loads : Text → Option Value
  pub isoformat : ℕ → Text
  pub fromisoformat : Text → Option ℕ

pub record IsCodec (c : Codec) : Type 0 where
  pub loads-dumps : (v : Value) → c.loads (c.dumps v) ≡ some v
  pub fromisoformat-isoformat : (t : ℕ) → c.fromisoformat (c.isoformat t) ≡ some t

pub record Job : Type 0 where
  pub id : Text
  pub type : Text
  pub payload : Value
  pub attempts : ℕ
  pub request_id : Option Text
  pub last_error : Option Text
  pub failed_at : Option Text
  pub processing_started_at : Option Text

abbrev pub max_job_error_length : ℕ
max_job_error_length = 500

-- `if value is not None: data[key] = value`
abbrev put_if_some : Text → Option Text → Fields → Fields
put_if_some key none rest = rest
put_if_some key (some t) rest = field key (str t) rest

module _ (c : Codec) where
  unfoldable pub to_json : Job → Text
  to_json job = c.dumps (
      obj (
        field (codes "id") (str job.id) (
          field (codes "type") (str job.type) (
            field (codes "payload") job.payload (
              field (codes "attempts") (num job.attempts) (
                put_if_some (codes "request_id") job.request_id (
                  put_if_some (codes "last_error") job.last_error (
                    put_if_some (codes "failed_at") job.failed_at (
                      put_if_some (codes "processing_started_at") job.processing_started_at
                        end)))))))))

-- `data[key]` for a text, `data[key]`, `data.get("attempts", 0)` and `data.get(key)`. Python checks no
-- types here; the model goes on with the types that the class `Job` names, which are those of every text
-- that the program itself puts into a queue, and ends in `ill_typed` with others.
text_of : Option Value → Result Text
text_of none = err malformed
text_of (some (str t)) = ok t
text_of (some _) = err ill_typed

value_of : Option Value → Result Value
value_of none = err malformed
value_of (some v) = ok v

attempts_of : Option Value → Result ℕ
attempts_of none = ok 0
attempts_of (some (num n)) = ok n
attempts_of (some _) = err ill_typed

optional_of : Option Value → Result (Option Text)
optional_of none = ok none
optional_of (some null) = ok none
optional_of (some (str t)) = ok (some t)
optional_of (some _) = err ill_typed

of_fields : Fields → Result Job
unfolding text_of value_of attempts_of optional_of
of_fields fs = do
  id ← text_of (get (codes "id") fs)
  type ← text_of (get (codes "type") fs)
  payload ← value_of (get (codes "payload") fs)
  attempts ← attempts_of (get (codes "attempts") fs)
  request_id ← optional_of (get (codes "request_id") fs)
  last_error ← optional_of (get (codes "last_error") fs)
  failed_at ← optional_of (get (codes "failed_at") fs)
  processing_started_at ← optional_of (get (codes "processing_started_at") fs)
  ok (record {
    id = id;
    type = type;
    payload = payload;
    attempts = attempts;
    request_id = request_id;
    last_error = last_error;
    failed_at = failed_at;
    processing_started_at = processing_started_at;
  })

of_value : Option Value → Result Job
of_value (some (obj fs)) = of_fields fs
of_value _ = err malformed

module _ (c : Codec) where
  unfoldable pub from_json : Text → Result Job
  unfolding of_value of_fields
  from_json raw_job = of_value (c.loads raw_job)

  -- `started_at or datetime.now(timezone.utc).isoformat()`
  abbrev pub or_now : Option Text → ℕ → Text
  or_now none now = c.isoformat now
  or_now (some t) now = if is_nonempty t then t else c.isoformat now

  unfoldable pub with_processing_started_at : Job → Option Text → ℕ → Job
  with_processing_started_at job started_at now = record job {
    processing_started_at = some (or_now started_at now);
  }

  unfoldable pub with_failed_at : Job → Option Text → ℕ → Job
  with_failed_at job failed_at now = record job { failed_at = some (or_now failed_at now) }

unfoldable pub without_processing_started_at : Job → Job
without_processing_started_at job = record job { processing_started_at = none }

unfoldable pub with_next_attempt : Job → Job
with_next_attempt job = record job { attempts = job.attempts + 1; processing_started_at = none }

unfoldable pub with_error : Job → Text → Job
with_error job message = record job { last_error = some (take max_job_error_length message) }

module _ (c : Codec) (lawful : IsCodec c) where
  -- Reading back what a job was written as gives the job: no field is lost or mixed up.
  pub from_json-to_json : (job : Job) → from_json c (to_json c job) ≡ ok job
  unfolding from_json to_json
  from_json-to_json job = rw (lawful.loads-dumps _) (ground arith)
