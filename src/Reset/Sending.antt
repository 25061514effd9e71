-- ===== src/Reset/Sending.antt =====
-- The job of app/services/password_reset_service.py that makes a reset token and sends it. What is
-- added to the session is committed or rolled back as a whole: a flush shows its error only, and the
-- rows appear with the commit. The email service is a parameter. Times are in seconds.
use starter_backend_template.Prelude.{
  ℕ, ◌+◌, ◌*◌, ◌≡◌, String, Bool, true, false, not, ◌||◌, if◌then◌else◌, Option, none, some, Text,
  codes, ◌++◌, refl, arith, Bool-cases, inl, inr, ◌==◌,
}
use starter_backend_template.Errors.{integrity_error, Result, ok, err, Exec, Result-cases}
use starter_backend_template.Permissions.{User}
use starter_backend_template.Keys.{Keys, is_there}
use starter_backend_template.Accounts.{Accounts}

pub record NewToken : Type 0 where
  pub user_id : ℕ
  pub token_hash : Text
  pub expires_at : ℕ

pub record Completions : Type 1 where
  pub State : Type 0
  -- a row of `password_reset_job_completions` has the identifier of the job
  pub is_completed : State → Text → Bool
  -- the token written in the open transaction, which the database may refuse
  pub flush : State → NewToken → Result (Unit {0})
  -- the token and, for a job, its completion, committed or rolled back
  pub commit : State → NewToken → Option Text → Result (Unit {0}) × State

-- The identifier of a job is unique: after a commit for it, and after one that it refused, its
-- completion is stored.
pub record IsCompletions (c : Completions) : Type 0 where
  pub commit_ok :
      (s : c.State) (token : NewToken) (job_id : Text)
      → (c.commit s token (some job_id)).0 ≡ ok tt
      → c.is_completed (c.commit s token (some job_id)).1 job_id ≡ true
  pub commit_refused :
      (s : c.State) (token : NewToken) (job_id : Text)
      → (c.commit s token (some job_id)).0 ≡ err integrity_error
      → c.is_completed (c.commit s token (some job_id)).1 job_id ≡ true

pub record SendState (K C E : Type 0) : Type 0 where
  pub keys : K
  pub completions : C
  pub email : E

pub record SendSettings : Type 0 where
  pub password_reset_job_completion_ttl_seconds : ℕ
  pub password_reset_token_expire_minutes : ℕ

unfoldable pub password_reset_job_completed_key : Text → Text
password_reset_job_completed_key job_id = codes "password_reset_job_completed:" ++ job_id

module _ (k : Keys) (a : Accounts) (c : Completions) {E : Type 0}
    (send_password_reset_email : String → Text → Exec E (Unit {0})) (hash : Text → Text)
    (settings : SendSettings) (accounts : a.State) (now : ℕ) where
  abbrev pub S : Type 0
  S = SendState k.State c.State E

  unfoldable pub is_password_reset_job_completed : Text → S → Bool
  is_password_reset_job_completed job_id s =
      is_there (k.value s.keys now (password_reset_job_completed_key job_id))

  unfoldable pub is_password_reset_job_done : Text → S → Bool
  is_password_reset_job_done job_id s =
      is_password_reset_job_completed job_id s || c.is_completed s.completions job_id

  unfoldable pub mark_password_reset_job_completed : Text → S → S
  mark_password_reset_job_completed job_id s = record s {
    keys =
        k.set_ex s.keys now (password_reset_job_completed_key job_id) (codes "1")
          settings.password_reset_job_completion_ttl_seconds;
  }

  -- What follows the commit.
  unfoldable pub after_commit : Text → Result (Unit {0}) → Exec S (Unit {0})
  after_commit job_id (ok _) s = (ok tt, mark_password_reset_job_completed job_id s)
  after_commit job_id (err integrity_error) s = (ok tt, s)
  after_commit job_id (err e) s = (err e, s)

  -- The email with the flushed token, and the commit.
  unfoldable pub send_and_commit : Text → (raw_token : Text) → User → NewToken → Exec S (Unit {0})
  send_and_commit job_id raw_token user token s =
      let (sent, email) = send_password_reset_email user.email raw_token s.email in
      let (committed, completions) = c.commit s.completions token (some job_id) in
      elim sent [
        | err e ↦ (err e, record s { email = email })
        | ok _ ↦
            after_commit job_id committed (record s { completions = completions; email = email })
      ]

  -- The token is made, flushed and sent to the user that was found.
  unfoldable pub send_token : Text → (raw_token : Text) → Option User → Exec S (Unit {0})
  send_token job_id raw_token none s = (ok tt, s)
  send_token job_id raw_token (some user) s =
      if not user.is_active
      then (ok tt, s)
      else let token : NewToken = record {
        user_id = user.id;
        token_hash = hash raw_token;
        expires_at = now + settings.password_reset_token_expire_minutes * 60;
      } in
        elim (c.flush s.completions token) [
          | err e ↦ (err e, s)
          | ok _ ↦ send_and_commit job_id raw_token user token s
        ]

  -- The call of the worker, which passes the identifier of the job; `raw_token` is the next one of
  -- `secrets`.
  unfoldable pub create_password_reset_token_and_send_email :
      (user_id : ℕ) (job_id raw_token : Text) → Exec S (Unit {0})
  create_password_reset_token_and_send_email user_id job_id raw_token s =
      if is_password_reset_job_done job_id s
      then (
        ok tt,
        (if not (is_password_reset_job_completed job_id s)
            then mark_password_reset_job_completed job_id s
            else s),
      )
      else send_token job_id raw_token (a.first_user accounts (λ u. u.id == user_id)) s

  -- A job that is done sends no email and stores no token, whatever is left of its key.
  done_sends_nothing :
      (user_id : ℕ) (job_id raw_token : Text) (s : S)
      → is_password_reset_job_done job_id s ≡ true
      → let s' = (create_password_reset_token_and_send_email user_id job_id raw_token s).1 in
        (s'.email ≡ s.email) × (s'.completions ≡ s.completions)
  unfolding create_password_reset_token_and_send_email mark_password_reset_job_completed
  done_sends_nothing user_id job_id raw_token s h =
      rw h (elim (Bool-cases (is_password_reset_job_completed job_id s)) [
        | inl e ↦ rw e (refl, refl)
        | inr e ↦ rw e (refl, refl)
      ])

  after_commit_done :
      (job_id : Text) (r : Result (Unit {0})) (s : S)
      → (r ≡ ok tt → c.is_completed s.completions job_id ≡ true)
      → (r ≡ err integrity_error → c.is_completed s.completions job_id ≡ true)
      → (after_commit job_id r s).0 ≡ ok tt
      → c.is_completed (after_commit job_id r s).1.completions job_id ≡ true
  unfolding after_commit mark_password_reset_job_completed
  after_commit_done job_id (ok x) s f g h = f refl
  after_commit_done job_id (err integrity_error) s f g h = g refl
  after_commit_done job_id (err e) s f g h = cc

  send_and_commit_done :
      (table : IsCompletions c) (job_id raw_token : Text) (user : User) (token : NewToken) (s : S)
      → (send_and_commit job_id raw_token user token s).0 ≡ ok tt
      → c.is_completed (send_and_commit job_id raw_token user token s).1.completions job_id ≡ true
  unfolding send_and_commit
  send_and_commit_done table job_id raw_token user token s h =
      elim (Result-cases (send_password_reset_email user.email raw_token s.email).0) [
        | inr (e, bad) ↦ cc (rw (bad, send_and_commit) at h)
        | inl (x, sent) ↦
            rw (sent, send_and_commit)
              (after_commit_done job_id _ _ (table.commit_ok s.completions _ job_id)
                (table.commit_refused s.completions _ job_id) (rw (sent, send_and_commit) at h))
      ]

  committed_is_done :
      (table : IsCompletions c) (job_id raw_token : Text) (user : User) (s : S)
      → user.is_active ≡ true
      → (send_token job_id raw_token (some user) s).0 ≡ ok tt
      → c.is_completed (send_token job_id raw_token (some user) s).1.completions job_id ≡ true
  unfolding send_token
  committed_is_done table job_id raw_token user s active h =
      let token : NewToken = record {
        user_id = user.id;
        token_hash = hash raw_token;
        expires_at = now + settings.password_reset_token_expire_minutes * 60;
      } in
      elim (Result-cases (c.flush s.completions token)) [
        | inr (e, bad) ↦ cc (rw (bad, send_token) at (rw (active, send_token) at h))
        | inl (x, flushed) ↦
            rw (active, send_token)
              (rw (flushed, send_token)
                (send_and_commit_done table job_id raw_token user token s
                  (rw (flushed, send_token) at (rw (active, send_token) at h))))
      ]

  done_if_completed :
      (job_id : Text) (s : S)
      → c.is_completed s.completions job_id ≡ true
      → is_password_reset_job_done job_id s ≡ true
  unfolding is_password_reset_job_done
  done_if_completed job_id s e = ground (arith, e)

  -- A job for an active user that returned once sends no further email and stores no further token
  -- when it runs again right after, with any new token.
  pub create_password_reset_token_and_send_email_once :
      (table : IsCompletions c) (user_id : ℕ) (job_id raw_token again : Text) (user : User) (s : S)
      → a.first_user accounts (λ u. u.id == user_id) ≡ some user
      → user.is_active ≡ true
      → is_password_reset_job_done job_id s ≡ false
      → (create_password_reset_token_and_send_email user_id job_id raw_token s).0 ≡ ok tt
      → let s' = (create_password_reset_token_and_send_email user_id job_id raw_token s).1 in
        let s'' = (create_password_reset_token_and_send_email user_id job_id again s').1 in
        (s''.email ≡ s'.email) × (s''.completions ≡ s'.completions)
  unfolding create_password_reset_token_and_send_email
  create_password_reset_token_and_send_email_once table user_id job_id raw_token again user s found
        active new h =
      let h' : (send_token job_id raw_token (some user) s).0 ≡ ok tt = rw found at (rw new at h) in
      let after : create_password_reset_token_and_send_email user_id job_id raw_token s
          ≡ send_token job_id raw_token (some user) s =
        rw new (rw found refl) in
      done_sends_nothing user_id job_id again _ (
        done_if_completed job_id _
          (rw after (committed_is_done table job_id raw_token user s active h')))
