-- ===== src/Webhook/Replay.antt =====
-- What app/services/idempotency_service.py and app/services/webhook_service.py store, and what a
-- repeated request meets.
use starter_backend_template.Prelude.{
  ℕ, ◌+◌, ◌<◌, ◌≡◌, Bool, true, false, none, some, List, [], ◌∷◌, Text, text_eq, text_eq_refl,
  arith, refl, All, any, Option-cases, Bool-cases, ◌∙◌, ap, inl, inr, lt→ltb,
}
use starter_backend_template.Errors.{conflict, integrity_error, ok, err}
use starter_backend_template.Keys.{Keys, IsKeys}
use starter_backend_template.Queue.Job.{Value}
use starter_backend_template.Webhook.Store.{
  IdempotencyRecord, WebhookEvent, Session, IsSession, has_scope, same_event, IdempotencySettings,
  cached, lock_acquired, idempotency_lock_key, is_live, S, release_idempotency_lock,
  get_cached_response, store_response, begin_idempotent_request, persist_webhook_event,
}
use starter_backend_template.Webhook.Idempotency.{IsUnanswered, begin_cached, begin_free}

module _ (k : Keys) (lawful : IsKeys k) (d : Session) (session : IsSession d)
    (settings : IdempotencySettings) where
  -- Releasing the lock lets the next request with the key begin, if nothing was stored for it.
  pub release-begin_idempotent_request :
      (scope_key : Text) (now : ℕ) (s : S k d settings now)
      → let s' = release_idempotency_lock k d settings now scope_key s in
        IsUnanswered k lawful d session settings scope_key now s'
        → (begin_idempotent_request k d settings now scope_key s').0 ≡ ok lock_acquired
  unfolding release_idempotency_lock
  release-begin_idempotent_request scope_key now s u =
      ap (λ x. x.0)
        (begin_free k lawful d session settings scope_key now _ u (
          rw (lawful.value-delete _ _ _ _ _)
            (rw (text_eq_refl (idempotency_lock_key scope_key)) refl)))

  -- The row that `store_response` adds.
  abbrev pub answer : Text → ℕ → ℕ → Value → IdempotencyRecord
  answer scope_key now status_code response_body = record {
    scope_key = scope_key;
    status_code = status_code;
    response_body = response_body;
    expires_at = now + settings.idempotency_ttl_seconds;
  }

  abbrev IsOnly : Text → IdempotencyRecord → IdempotencyRecord → Type 0
  IsOnly scope_key new r = text_eq r.scope_key scope_key ≡ true → r ≡ new

  others :
      (scope_key : Text) (new : IdempotencyRecord) (rs : List IdempotencyRecord)
      → any (has_scope scope_key) rs ≡ false
      → All (IsOnly scope_key new) rs
  others scope_key new [] h = tt
  others scope_key new (r ∷ rs) h =
      (λ e. absurd (ground arith), others scope_key new rs (ground arith))

  nothing_live :
      (st : d.State) (p : IdempotencyRecord → Bool)
      → All (λ r. p r ≡ false) (d.records st)
      → d.first_record st p ≡ none
  nothing_live st p h = elim (Option-cases (d.first_record st p)) [
    | inl e ↦ e
    | inr (r, e) ↦
        cc (session.first_some st p r e, session.first_stored st p r (λ x. p x ≡ false) e h)
  ]

  -- The row that was added is the one that a query for its key finds while it lives.
  only_live :
      (scope_key : Text) (later : ℕ) (st : d.State) (new : IdempotencyRecord)
      (rs : List IdempotencyRecord)
      → d.records st ≡ new ∷ rs
      → All (IsOnly scope_key new) (new ∷ rs)
      → is_live scope_key later new ≡ true
      → d.first_record st (is_live scope_key later) ≡ some new
  only_live scope_key later st new rs e only live =
      elim (Option-cases (d.first_record st (is_live scope_key later))) [
        | inl none_there ↦
            let (dead, _) = rw e at (session.first_none st (is_live scope_key later) none_there) in
            cc
        | inr (r, found) ↦
            let same = session.first_stored st _ r (IsOnly scope_key new) found (rw e only) in
            found ∙ ap some (same (ground (arith, session.first_some st _ r found)))
      ]

  -- The first response for a key is stored, and every later request with the key gets it back, until
  -- it expires.
  pub store_response-begin :
      (scope_key : Text) (now later status_code : ℕ) (response_body : Value)
      (s : S k d settings now)
      → any (has_scope scope_key) (d.records s.database) ≡ false
      → later < now + settings.idempotency_ttl_seconds
      → let (stored, s') = store_response k d settings now scope_key status_code response_body s in
        let new = answer scope_key now status_code response_body in
        (stored ≡ ok new)
        × (begin_idempotent_request k d settings later scope_key s' ≡ (ok (cached new), s'))
  unfolding store_response get_cached_response
  store_response-begin scope_key now later status_code response_body s fresh l =
      let new = answer scope_key now status_code response_body in
      let added : d.records (d.insert_record s.database new).1 ≡ new ∷ d.records s.database =
        session.records-insert_record s.database new ∙ rw fresh refl in
      (
        rw (session.insert_record_new s.database new fresh) refl,
        begin_cached k lawful d session settings scope_key later _ new (
            only_live scope_key later _ new (d.records s.database) added
              ((λ _. refl), others scope_key new (d.records s.database) fresh)
              (rw (text_eq_refl scope_key) (lt→ltb _ _ l))),
      )

  -- A row of the key that has expired, and that no cleanup has deleted yet, makes every
  -- `store_response` for the key raise `IntegrityError`; nothing is stored.
  pub store_response_expired :
      (scope_key : Text) (now status_code : ℕ) (response_body : Value) (s : S k d settings now)
      → any (has_scope scope_key) (d.records s.database) ≡ true
      → All (λ r. is_live scope_key now r ≡ false) (d.records s.database)
      → let (stored, s') = store_response k d settings now scope_key status_code response_body s in
        (stored ≡ err integrity_error) × (d.records s'.database ≡ d.records s.database)
  unfolding store_response get_cached_response
  store_response_expired scope_key now status_code response_body s there expired =
      let new = answer scope_key now status_code response_body in
      let same : d.records (d.insert_record s.database new).1 ≡ d.records s.database =
        session.records-insert_record s.database new ∙ rw there refl in
      (
        rw (session.insert_record_taken s.database new there) (
            rw
              (nothing_live (d.insert_record s.database new).1 (is_live scope_key now)
                (rw same expired))
              refl),
        same,
      )

  -- The row that `persist_webhook_event` adds.
  abbrev event : (Text → Text) → Text → Text → Text → ℕ → WebhookEvent
  event hash_payload provider event_id payload now = record {
    provider = provider;
    event_id = event_id;
    payload_hash = hash_payload payload;
    received_at = now;
  }

  persist_new :
      (h : Text → Text) (provider event_id payload : Text) (now : ℕ) (s : S k d settings now)
      → let e = event h provider event_id payload now in
        any (same_event e) (d.events s.database) ≡ false
        → persist_webhook_event k d settings now h provider event_id payload s
          ≡ (ok e, record s { database = (d.insert_event s.database e).1 })
  unfolding persist_webhook_event
  persist_new h provider event_id payload now s fresh =
      rw
        (
          session.insert_event_new s.database (event h provider event_id payload now) fresh,
          persist_webhook_event,
        )
        refl

  persist_taken :
      (h : Text → Text) (provider event_id payload : Text) (now : ℕ) (s : S k d settings now)
      → let e = event h provider event_id payload now in
        any (same_event e) (d.events s.database) ≡ true
        → persist_webhook_event k d settings now h provider event_id payload s ≡ (
          err (conflict "Webhook event already processed"),
          record s { database = (d.insert_event s.database e).1 },
        )
  unfolding persist_webhook_event
  persist_taken h provider event_id payload now s there =
      rw
        (
          session.insert_event_taken s.database (event h provider event_id payload now) there,
          persist_webhook_event,
        )
        refl

  stored_once :
      (h : Text → Text) (provider event_id payload : Text) (now : ℕ) (s : S k d settings now)
      → let e = event h provider event_id payload now in
        any (same_event e) (
          d.events
            (persist_webhook_event k d settings now h provider event_id payload s).1.database)
        ≡ true
  stored_once h provider event_id payload now s =
      let e = event h provider event_id payload now in
      elim (Bool-cases (any (same_event e) (d.events s.database))) [
        | inl there ↦
            rw (persist_taken h provider event_id payload now s there)
              (rw (session.events-insert_event s.database e) (rw there there))
        | inr fresh ↦ rw (persist_new h provider event_id payload now s fresh) (
            rw (session.events-insert_event s.database e)
              (rw fresh (rw (text_eq_refl provider) (rw (text_eq_refl event_id) refl))))
      ]

  -- After one call of `persist_webhook_event` for an event of a provider, a second call is refused
  -- with a conflict and stores nothing, whatever its payload.
  pub persist_webhook_event_once :
      (hash_payload : Text → Text) (provider event_id payload payload' : Text) (now later : ℕ)
      (s : S k d settings now)
      → let s' =
          (persist_webhook_event k d settings now hash_payload provider event_id payload s).1 in
        let (again, s'') =
          persist_webhook_event k d settings later hash_payload provider event_id payload' s' in
        (again ≡ err (conflict "Webhook event already processed"))
        × (d.events s''.database ≡ d.events s'.database)
  persist_webhook_event_once h provider event_id payload payload' now later s =
      let s' = (persist_webhook_event k d settings now h provider event_id payload s).1 in
      let there = stored_once h provider event_id payload now s in
      rw (persist_taken h provider event_id payload' later s' there) (
        refl,
        session.events-insert_event s'.database (event h provider event_id payload' later)
            ∙ rw there refl,
      )
