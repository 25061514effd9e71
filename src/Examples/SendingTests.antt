-- ===== src/Examples/SendingTests.antt =====
-- The theorem on the job that sends a reset token, at one user.
use starter_backend_template.Prelude.{
  ℕ, suc, ◌≡◌, Bool, true, false, refl, any, Option, none, some, List, [], ◌∷◌, Text, codes,
  text_eq, text_eq_refl, Bool-cases, inl, inr, String,
}
use starter_backend_template.Errors.{integrity_error, Result, ok, err, Exec}
use starter_backend_template.Reset.Sending.{
  Completions, IsCompletions, SendState, SendSettings, is_password_reset_job_completed,
  is_password_reset_job_done, after_commit, send_token, send_and_commit,
  create_password_reset_token_and_send_email, create_password_reset_token_and_send_email_once,
}
use starter_backend_template.Examples.Tables.{Table, keys}
use starter_backend_template.Examples.AuthTests.{accounts, carol}

abbrev commit : Bool → Text → List Text → Result (Unit {0}) × List Text
commit true job_id s = (err integrity_error, s)
commit false job_id s = (ok tt, job_id ∷ s)

abbrev commit_job : Option Text → List Text → Result (Unit {0}) × List Text
commit_job none s = (ok tt, s)
commit_job (some job_id) s = commit (any (text_eq job_id) s) job_id s

abbrev completions : Completions
completions = record {
  State = List Text;
  is_completed = λ s job_id. any (text_eq job_id) s;
  flush = λ s token. ok tt;
  commit = λ s token job_id. commit_job job_id s;
}

stored :
    (s : List Text) (job_id : Text) → any (text_eq job_id) (commit_job (some job_id) s).1 ≡ true
stored s job_id = elim (Bool-cases (any (text_eq job_id) s)) [
  | inl e ↦ rw e e
  | inr e ↦ rw e (rw (text_eq_refl job_id) refl)
]

completions_lawful : IsCompletions completions
completions_lawful = record {
  commit_ok = λ s token job_id h. stored s job_id;
  commit_refused = λ s token job_id h. stored s job_id;
}

-- The number of emails that were sent.
abbrev send : String → Text → Exec ℕ (Unit {0})
send address raw_token n = (ok tt, suc n)

abbrev settings : SendSettings
settings = record {
  password_reset_job_completion_ttl_seconds = 86400;
  password_reset_token_expire_minutes = 30;
}

abbrev idle : SendState Table (List Text) ℕ
idle = record { keys = λ t j. none; completions = []; email = 0 }

create_password_reset_token_and_send_email_once_example :
    let run =
      create_password_reset_token_and_send_email keys accounts completions send
        (λ t. t)
        settings
        (carol ∷ [])
        100
        1
        (codes "j1") in
    let s' = (run (codes "t1") idle).1 in
    let s'' = (run (codes "t2") s').1 in (s''.email ≡ s'.email) × (s''.completions ≡ s'.completions)
unfolding create_password_reset_token_and_send_email send_token send_and_commit after_commit
    is_password_reset_job_done is_password_reset_job_completed
create_password_reset_token_and_send_email_once_example =
    create_password_reset_token_and_send_email_once keys accounts completions send (λ t. t) settings
      (carol ∷ []) 100 completions_lawful 1 (codes "j1") (codes "t1") (codes "t2") carol idle refl
      refl refl refl
