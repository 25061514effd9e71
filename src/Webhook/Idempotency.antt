-- ===== src/Webhook/Idempotency.antt =====
-- The contract of app/services/idempotency_service.py.
use starter_backend_template.Prelude.{
  ℕ, ◌+◌, ◌<◌, ◌≡◌, Bool, true, none, some, Text, codes, text_eq_refl, refl, Option-cases, ap, inl,
  inr, lt→ltb,
}
use starter_backend_template.Errors.{conflict, ok, err}
use starter_backend_template.Keys.{Keys, IsKeys, is_there}
use starter_backend_template.Webhook.Store.{
  IdempotencyRecord, Session, IsSession, IdempotencySettings, cached, lock_acquired,
  idempotency_lock_key, S, get_cached_response, begin_idempotent_request,
}

module _ (k : Keys) (lawful : IsKeys k) (d : Session) (session : IsSession d)
    (settings : IdempotencySettings) where
  -- The lock of a scope key is taken at a time.
  abbrev pub IsLocked : Text → ℕ → S k d settings 0 → Type 0
  IsLocked scope_key now s = is_there (k.value s.keys now (idempotency_lock_key scope_key)) ≡ true

  -- No live record of the scope key is stored.
  abbrev pub IsUnanswered : Text → ℕ → S k d settings 0 → Type 0
  IsUnanswered scope_key now s = get_cached_response k d settings now scope_key s ≡ none

  lock_value :
      (scope_key : Text) (now : ℕ) (s : S k d settings now)
      → k.value s.keys now (idempotency_lock_key scope_key) ≡ none
      → (later : ℕ) → later < now + settings.idempotency_processing_lock_ttl_seconds
      → is_there (
          k.value
            (k.set_nx_ex s.keys now
              (idempotency_lock_key scope_key)
              (codes "1")
              settings.idempotency_processing_lock_ttl_seconds).1
            later
            (idempotency_lock_key scope_key))
        ≡ true
  lock_value scope_key now s free later l =
      rw (lawful.value-set_nx_ex _ _ _ _ _ _ _)
        (rw free (rw (text_eq_refl (idempotency_lock_key scope_key)) (rw (lt→ltb _ _ l) refl)))

  unfoldable pub set_lock : Text → ℕ → S k d settings 0 → Bool × k.State
  set_lock scope_key now s =
      k.set_nx_ex s.keys now (idempotency_lock_key scope_key) (codes "1")
        settings.idempotency_processing_lock_ttl_seconds

  -- The three ways in which `begin_idempotent_request` returns.
  pub begin_cached :
      (scope_key : Text) (now : ℕ) (s : S k d settings now) (r : IdempotencyRecord)
      → get_cached_response k d settings now scope_key s ≡ some r
      → begin_idempotent_request k d settings now scope_key s ≡ (ok (cached r), s)
  unfolding begin_idempotent_request get_cached_response
  begin_cached scope_key now s r e = rw (e, begin_idempotent_request) refl

  pub begin_free :
      (scope_key : Text) (now : ℕ) (s : S k d settings now)
      → IsUnanswered scope_key now s
      → k.value s.keys now (idempotency_lock_key scope_key) ≡ none
      → begin_idempotent_request k d settings now scope_key s
        ≡ (ok lock_acquired, record s { keys = (set_lock scope_key now s).1 })
  unfolding begin_idempotent_request get_cached_response set_lock
  begin_free scope_key now s u free =
      rw (u, begin_idempotent_request) (rw (lawful.set_nx_ex_flag _ _ _ _ _) (rw free refl))

  pub begin_taken :
      (scope_key : Text) (now : ℕ) (s : S k d settings now)
      → IsUnanswered scope_key now s
      → IsLocked scope_key now s
      → begin_idempotent_request k d settings now scope_key s ≡ (
        err (conflict "Duplicate request is already in progress"),
        record s { keys = (set_lock scope_key now s).1 },
      )
  unfolding begin_idempotent_request get_cached_response set_lock
  begin_taken scope_key now s u taken =
      rw (u, begin_idempotent_request) (rw (lawful.set_nx_ex_flag _ _ _ _ _) (rw taken (rw u refl)))

  -- Mutual exclusion: once a request has begun, no other request with its key begins while the lock
  -- lives and nothing is stored for the key; it is refused with a conflict.
  pub begin_excludes :
      (scope_key : Text) (now later : ℕ) (s : S k d settings now)
      → later < now + settings.idempotency_processing_lock_ttl_seconds
      → (begin_idempotent_request k d settings now scope_key s).0 ≡ ok lock_acquired
      → let s' = (begin_idempotent_request k d settings now scope_key s).1 in
        IsUnanswered scope_key later s'
        → (begin_idempotent_request k d settings later scope_key s').0
          ≡ err (conflict "Duplicate request is already in progress")
  unfolding set_lock
  begin_excludes scope_key now later s l e =
      elim (Option-cases (get_cached_response k d settings now scope_key s)) [
        | inr (r, found) ↦ λ u. cc (ap (λ x. x.0) (begin_cached scope_key now s r found))
        | inl nothing ↦ elim (Option-cases (k.value s.keys now (idempotency_lock_key scope_key))) [
          | inr (v, taken) ↦
              λ u. cc (ap (λ x. x.0) (begin_taken scope_key now s nothing (rw taken refl)))
          | inl free ↦ rw (begin_free scope_key now s nothing free) (λ u.
              ap (λ x. x.0)
                (begin_taken scope_key later _ u (lock_value scope_key now s free later l)))
        ]
      ]
