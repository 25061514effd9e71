-- ===== src/Examples/WebhookTests.antt =====
-- The theorems on the webhook signature, the idempotency keys and the stored events, with keys and
-- a database in memory.
use starter_backend_template.Prelude.{
  ◌≡◌, ◌↔◌, Bool, true, false, not, refl, arith, if◌then◌else◌, none, some, List, [], ◌∷◌, ◌++◌,
  codes, any, select,
}
use starter_backend_template.Errors.{conflict, integrity_error, Result, ok, err}
use starter_backend_template.Examples.Tables.{
  Table, keys, keys_lawful, find, find-some, find-none, find_stored,
}
use starter_backend_template.Queue.Job.{num}
use starter_backend_template.Webhook.Signature.{pos, Crypto, verify_timestamped_hmac_signature}
use starter_backend_template.Webhook.Header.{IsGenuine, verify_timestamped_hmac_signature_iff}
use starter_backend_template.Webhook.Store.{
  IdempotencyRecord, WebhookEvent, Session, IsSession, has_scope, same_event, IdempotencySettings,
  Stores, cached, lock_acquired, release_idempotency_lock, get_cached_response, store_response,
  begin_idempotent_request, persist_webhook_event,
}
use starter_backend_template.Webhook.Idempotency.{begin_excludes}
use starter_backend_template.Webhook.Replay.{
  answer, release-begin_idempotent_request, store_response-begin, store_response_expired,
  persist_webhook_event_once,
}

record Rows : Type 0 where
  records_of : List IdempotencyRecord
  events_of : List WebhookEvent

abbrev refused : Bool → Result (Unit {0})
refused true = err integrity_error
refused false = ok tt

abbrev database : Session
database = record {
  State = Rows;
  records = λ s. s.records_of;
  events = λ s. s.events_of;
  first_record = λ s p. find p s.records_of;
  insert_record = λ s r. (
    refused (any (has_scope r.scope_key) s.records_of),
    record s {
      records_of =
          if any (has_scope r.scope_key) s.records_of then s.records_of else r ∷ s.records_of;
    },
  );
  insert_event = λ s e. (
    refused (any (same_event e) s.events_of),
    record s {
      events_of = if any (same_event e) s.events_of then s.events_of else e ∷ s.events_of;
    },
  );
  delete_records = λ s p. (0, record s { records_of = select (λ r. not (p r)) s.records_of });
  delete_events = λ s p. (0, record s { events_of = select (λ e. not (p e)) s.events_of });
}

database_lawful : IsSession database
database_lawful = record {
  first_some = λ s p r e. find-some p s.records_of r e;
  first_none = λ s p e. find-none p s.records_of e;
  first_stored = λ s p r P e all. find_stored p s.records_of r P e all;
  insert_record_new = λ s r h. rw h refl;
  insert_record_taken = λ s r h. rw h refl;
  records-insert_record = λ s r. refl;
  events-insert_record = λ s r. refl;
  insert_event_new = λ s e h. rw h refl;
  insert_event_taken = λ s e h. rw h refl;
  events-insert_event = λ s e. refl;
  records-insert_event = λ s e. refl;
  records-delete_records = λ s p. refl;
  events-delete_records = λ s p. refl;
}

abbrev settings : IdempotencySettings
settings = record {
  idempotency_ttl_seconds = 86400;
  idempotency_processing_lock_ttl_seconds = 60;
  webhook_event_retention_days = 90;
}

abbrev empty : Stores Table Rows
empty = record { keys = λ t j. none; database = record { records_of = []; events_of = [] } }

-- A response that expires at 50.
abbrev old_response : IdempotencyRecord
old_response = record {
  scope_key = codes "k";
  status_code = 202;
  response_body = num 1;
  expires_at = 50;
}

abbrev answered : Stores Table Rows
answered = record empty { database = record { records_of = old_response ∷ []; events_of = [] } }

begin_excludes_example :
    (begin_idempotent_request keys database settings 110
      (codes "k")
      (begin_idempotent_request keys database settings 100 (codes "k") empty).1).0
    ≡ err (conflict "Duplicate request is already in progress")
unfolding begin_idempotent_request get_cached_response
begin_excludes_example =
    begin_excludes keys keys_lawful database database_lawful settings (codes "k") 100 110 empty
      (omega arith) refl refl

release-begin_idempotent_request_example :
    (begin_idempotent_request keys database settings 100
      (codes "k")
      (release_idempotency_lock keys database settings 100 (codes "k") empty)).0
    ≡ ok lock_acquired
unfolding release_idempotency_lock get_cached_response
release-begin_idempotent_request_example =
    release-begin_idempotent_request keys keys_lawful database database_lawful settings (codes "k")
      100 empty refl

store_response-begin_example :
    let (stored, s') = store_response keys database settings 100 (codes "k") 202 (num 7) empty in
    let new =
      answer keys keys_lawful database database_lawful settings (codes "k") 100 202 (num 7) in
    (stored ≡ ok new)
    × (begin_idempotent_request keys database settings 200 (codes "k") s' ≡ (ok (cached new), s'))
store_response-begin_example =
    store_response-begin keys keys_lawful database database_lawful settings (codes "k") 100 200 202
      (num 7) empty refl (omega arith)

store_response_expired_example :
    let (stored, s') = store_response keys database settings 100 (codes "k") 202 (num 7) answered in
    (stored ≡ err integrity_error) × (s'.database.records_of ≡ old_response ∷ [])
store_response_expired_example =
    store_response_expired keys keys_lawful database database_lawful settings (codes "k") 100 202
      (num 7) answered refl (refl, tt)

persist_webhook_event_once_example :
    let s' =
      (persist_webhook_event keys database settings 100
        (λ t. t)
        (codes "stripe")
        (codes "e1")
        (codes "a")
        empty).1 in
    let (again, s'') =
      persist_webhook_event keys database settings 200
        (λ t. t)
        (codes "stripe")
        (codes "e1")
        (codes "b")
        s' in
    (again ≡ err (conflict "Webhook event already processed"))
    × (s''.database.events_of ≡ s'.database.events_of)
persist_webhook_event_once_example =
    persist_webhook_event_once keys keys_lawful database database_lawful settings (λ t. t)
      (codes "stripe") (codes "e1") (codes "a") (codes "b") 100 200 empty

abbrev crypto : Crypto
crypto = record {
  hmac = λ secret text. secret ++ text;
  lower = λ t. t;
  int = λ t. some (pos 100);
  show = λ t. codes "100";
}

verify_timestamped_hmac_signature_iff_example :
    (verify_timestamped_hmac_signature crypto
        (codes "{}")
        (codes "s100.{}")
        (some (pos 100))
        (codes "s")
        300
        160
      ≡ ok (pos 100))
    ↔ IsGenuine crypto (codes "{}") (codes "s100.{}") (some (pos 100)) (codes "s") 300 160 (pos 100)
verify_timestamped_hmac_signature_iff_example =
    verify_timestamped_hmac_signature_iff crypto (codes "{}") (codes "s100.{}") (some (pos 100))
      (codes "s") 300 160 (pos 100)
