-- ===== src/Webhook/Store.antt =====
-- app/services/idempotency_service.py and the event table of app/services/webhook_service.py, over
-- the keys of Redis and a database session, both parameters. Times are in seconds.
use starter_backend_template.Prelude.{
  ℕ, ◌+◌, ◌*◌, ◌≡◌, Bool, true, false, not, ◌&&◌, if◌then◌else◌, ltb, Option, none, some, List, ◌∷◌,
  ◌++◌, Text, codes, text_eq, is_nonempty, strip, any, All, select,
}
use starter_backend_template.Errors.{bad_request, conflict, integrity_error, Result, ok, err, Exec}
use starter_backend_template.Keys.{Keys}
use starter_backend_template.Queue.Job.{Value}

-- app/models/idempotency_record.py and app/models/webhook_event.py, less the columns `id` and
-- `created_at`. The body is the JSON value that its text stands for.
pub record IdempotencyRecord : Type 0 where
  pub scope_key : Text
  pub status_code : ℕ
  pub response_body : Value
  pub expires_at : ℕ

pub record WebhookEvent : Type 0 where
  pub provider : Text
  pub event_id : Text
  pub payload_hash : Text
  pub received_at : ℕ

-- A session between two requests of which nothing is pending: the committed rows, the first row
-- that a query finds, `db.add(row)` with `db.commit()` and, if that raises, `db.rollback()`, and the
-- deletion of the rows that a filter takes, committed.
pub record Session : Type 1 where
  pub State : Type 0
  pub records : State → List IdempotencyRecord
  pub events : State → List WebhookEvent
  pub first_record : State → (IdempotencyRecord → Bool) → Option IdempotencyRecord
  pub insert_record : State → IdempotencyRecord → Result (Unit {0}) × State
  pub insert_event : State → WebhookEvent → Result (Unit {0}) × State
  pub delete_records : State → (IdempotencyRecord → Bool) → ℕ × State
  pub delete_events : State → (WebhookEvent → Bool) → ℕ × State

-- The unique columns: `scope_key`, and `provider` with `event_id`.
abbrev pub has_scope : Text → IdempotencyRecord → Bool
has_scope k r = text_eq r.scope_key k

abbrev pub same_event : WebhookEvent → WebhookEvent → Bool
same_event a b = text_eq b.provider a.provider && text_eq b.event_id a.event_id

-- Some row of a query, if there is one; and an insertion that the unique columns allow or refuse.
pub record IsSession (d : Session) : Type 1 where
  pub first_some :
      (s : d.State) (p : IdempotencyRecord → Bool) (r : IdempotencyRecord)
      → d.first_record s p ≡ some r
      → p r ≡ true
  pub first_none :
      (s : d.State) (p : IdempotencyRecord → Bool)
      → d.first_record s p ≡ none
      → All (λ r. p r ≡ false) (d.records s)
  pub first_stored :
      (s : d.State) (p : IdempotencyRecord → Bool) (r : IdempotencyRecord)
      (P : IdempotencyRecord → Type 0)
      → d.first_record s p ≡ some r
      → All P (d.records s)
      → P r
  pub insert_record_new :
      (s : d.State) (r : IdempotencyRecord)
      → any (has_scope r.scope_key) (d.records s) ≡ false
      → (d.insert_record s r).0 ≡ ok tt
  pub insert_record_taken :
      (s : d.State) (r : IdempotencyRecord)
      → any (has_scope r.scope_key) (d.records s) ≡ true
      → (d.insert_record s r).0 ≡ err integrity_error
  pub records-insert_record :
      (s : d.State) (r : IdempotencyRecord)
      → d.records (d.insert_record s r).1
        ≡ (if any (has_scope r.scope_key) (d.records s) then d.records s else r ∷ d.records s)
  pub events-insert_record :
      (s : d.State) (r : IdempotencyRecord) → d.events (d.insert_record s r).1 ≡ d.events s
  pub insert_event_new :
      (s : d.State) (e : WebhookEvent)
      → any (same_event e) (d.events s) ≡ false
      → (d.insert_event s e).0 ≡ ok tt
  pub insert_event_taken :
      (s : d.State) (e : WebhookEvent)
      → any (same_event e) (d.events s) ≡ true
      → (d.insert_event s e).0 ≡ err integrity_error
  pub events-insert_event :
      (s : d.State) (e : WebhookEvent)
      → d.events (d.insert_event s e).1
        ≡ (if any (same_event e) (d.events s) then d.events s else e ∷ d.events s)
  pub records-insert_event :
      (s : d.State) (e : WebhookEvent) → d.records (d.insert_event s e).1 ≡ d.records s
  pub records-delete_records :
      (s : d.State) (p : IdempotencyRecord → Bool)
      → d.records (d.delete_records s p).1 ≡ select (λ r. not (p r)) (d.records s)
  pub events-delete_records :
      (s : d.State) (p : IdempotencyRecord → Bool) → d.events (d.delete_records s p).1 ≡ d.events s

pub record IdempotencySettings : Type 0 where
  pub idempotency_ttl_seconds : ℕ
  pub idempotency_processing_lock_ttl_seconds : ℕ
  pub webhook_event_retention_days : ℕ

-- `begin_idempotent_request` returns a cached record, or that the lock was acquired.
pub data Begun : Type 0 where
  cached : IdempotencyRecord → Begun
  lock_acquired : Begun

unfoldable pub idempotency_lock_key : Text → Text
idempotency_lock_key scope_key = codes "idempotency:processing:" ++ scope_key

-- `sha256` is `hashlib.sha256(…).hexdigest()`.
unfoldable pub build_scope_key : (Text → Text) → Text → Text → Result Text
build_scope_key sha256 scope idempotency_key =
    let normalized_key = strip idempotency_key in
    if not (is_nonempty normalized_key)
    then err (bad_request "Idempotency-Key header is required")
    else ok (scope ++ (codes ":" ++ sha256 (scope ++ (codes ":" ++ normalized_key))))

pub record Stores (K D : Type 0) : Type 0 where
  pub keys : K
  pub database : D

-- The filter of `get_cached_response`.
abbrev pub is_live : Text → ℕ → IdempotencyRecord → Bool
is_live scope_key now r = text_eq r.scope_key scope_key && ltb now r.expires_at

module _ (k : Keys) (d : Session) (settings : IdempotencySettings) (now : ℕ) where
  abbrev pub S : Type 0
  S = Stores k.State d.State

  unfoldable pub try_acquire_idempotency_lock : Text → Exec S Bool
  try_acquire_idempotency_lock scope_key s =
      let (is_set, keys) =
        k.set_nx_ex s.keys now (idempotency_lock_key scope_key) (codes "1")
          settings.idempotency_processing_lock_ttl_seconds in
      (ok is_set, record s { keys = keys })

  unfoldable pub release_idempotency_lock : Text → S → S
  release_idempotency_lock scope_key s = record s {
    keys = k.delete s.keys now (idempotency_lock_key scope_key);
  }

  unfoldable pub get_cached_response : Text → S → Option IdempotencyRecord
  get_cached_response scope_key s = d.first_record s.database (is_live scope_key now)

  -- The `except IntegrityError` of `store_response`.
  abbrev or_existing :
      IdempotencyRecord → Result (Unit {0}) → Option IdempotencyRecord → Result IdempotencyRecord
  or_existing new (ok _) existing = ok new
  or_existing new (err integrity_error) (some existing_record) = ok existing_record
  or_existing new (err e) existing = err e

  unfoldable pub store_response : Text → ℕ → Value → Exec S IdempotencyRecord
  unfolding get_cached_response
  store_response scope_key status_code response_body s =
      let new : IdempotencyRecord = record {
        scope_key = scope_key;
        status_code = status_code;
        response_body = response_body;
        expires_at = now + settings.idempotency_ttl_seconds;
      } in
      let (inserted, database) = d.insert_record s.database new in
      let s' : S = record s { database = database } in
      (or_existing new inserted (get_cached_response scope_key s'), s')

  unfoldable pub begin_idempotent_request : Text → Exec S Begun
  unfolding get_cached_response try_acquire_idempotency_lock
  begin_idempotent_request scope_key s = elim (get_cached_response scope_key s) [
    | some cached_record ↦ (ok (cached cached_record), s)
    | none ↦
        let (is_set, keys) =
          k.set_nx_ex s.keys now (idempotency_lock_key scope_key) (codes "1")
            settings.idempotency_processing_lock_ttl_seconds in
        let s' : S = record s { keys = keys } in
        if is_set then (ok lock_acquired, s') else (
          elim (get_cached_response scope_key s') [
            | some cached_record ↦ ok (cached cached_record)
            | none ↦ err (conflict "Duplicate request is already in progress")
          ],
          s',
        )
  ]

  unfoldable pub cleanup_expired_idempotency_records : S → ℕ × S
  cleanup_expired_idempotency_records s =
      let (deleted_count, database) = d.delete_records s.database (λ r. ltb r.expires_at now) in
      (deleted_count, record s { database = database })

  -- app/services/webhook_service.py; `hash_payload` is `sha256(payload).hexdigest()`.
  unfoldable pub persist_webhook_event : (Text → Text) → Text → Text → Text → Exec S WebhookEvent
  persist_webhook_event hash_payload provider event_id payload s =
      let event : WebhookEvent = record {
        provider = provider;
        event_id = event_id;
        payload_hash = hash_payload payload;
        received_at = now;
      } in
      let (inserted, database) = d.insert_event s.database event in
      let s' : S = record s { database = database } in
      elim inserted [
        | ok _ ↦ (ok event, s')
        | err integrity_error ↦ (err (conflict "Webhook event already processed"), s')
        | err e ↦ (err e, s')
      ]

  unfoldable pub cleanup_old_webhook_events : S → ℕ × S
  cleanup_old_webhook_events s =
      let (deleted_count, database) =
        d.delete_events s.database
          (λ e. ltb (e.received_at + settings.webhook_event_retention_days * 86400) now) in
      (deleted_count, record s { database = database })
