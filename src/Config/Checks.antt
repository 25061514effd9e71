-- ===== src/Config/Checks.antt =====
-- Reading off what an empty list of problems means, test by test.
use starter_backend_template.Prelude.{
  ℕ, ◌≤◌, ◌≡◌, ◌≢◌, ◌↔◌, refl, Bool, true, false, not, ltb, List, [], ◌∷◌, Text, text_eq,
  text_eq_sound, text_eq_refl, is_one_of, is_nonempty, strip, All, arith,
}
use starter_backend_template.Config.{Problem, report, reports, is_blank, is_any}

pub report_iff :
    (test : Bool) (problem : Problem) (rest : List Problem)
    → (report test problem rest ≡ []) ↔ ((test ≡ false) × (rest ≡ []))
report_iff true problem rest = (λ h. cc, λ h. cc)
report_iff false problem rest = (λ h. (refl, h), λ h. h.1)

pub text_ne_iff : (s t : Text) → (text_eq s t ≡ false) ↔ (s ≢ t)
text_ne_iff s t = (λ h e. cc (text_eq_refl t), λ h. ground (arith, text_eq_sound s t))

pub none_of_iff : (s : Text) (ts : List Text) → (is_one_of s ts ≡ false) ↔ All (λ t. s ≢ t) ts
none_of_iff s [] = (λ h. tt, λ h. refl)
none_of_iff s (t ∷ ts) = (
  λ h. ((text_ne_iff s t).0 (ground arith), (none_of_iff s ts).0 (ground arith)),
  λ h. let a = (text_ne_iff s t).1 h.0 in let b = (none_of_iff s ts).1 h.1 in ground (arith, a, b),
)

nonempty_iff : (t : Text) → (not (is_nonempty t) ≡ false) ↔ (t ≢ [])
nonempty_iff [] = (λ h. cc, λ h. absurd (h refl))
nonempty_iff (c ∷ t) = (λ h. cc, λ h. refl)

pub not_blank_iff : (s : Text) → (is_blank s ≡ false) ↔ (strip s ≢ [])
not_blank_iff s = nonempty_iff (strip s)

pub any_iff : (ts : List Text) → (not (is_any ts) ≡ false) ↔ (ts ≢ [])
any_iff [] = (λ h. cc, λ h. absurd (h refl))
any_iff (c ∷ t) = (λ h. cc, λ h. refl)

pub not-false_iff : (b : Bool) → (not b ≡ false) ↔ (b ≡ true)
not-false_iff b = ground arith

pub not_lt_iff : (a b : ℕ) → (ltb a b ≡ false) ↔ (b ≤ a)
not_lt_iff a b = ground arith

abbrev pub Passes : Bool × Problem → Type 0
Passes (test, problem) = test ≡ false

pub reports_iff :
    (checks : List (Bool × Problem)) (rest : List Problem)
    → (reports checks rest ≡ []) ↔ (All Passes checks × (rest ≡ []))
reports_iff [] rest = (λ h. (tt, h), λ h. h.1)
reports_iff ((true, problem) ∷ more) rest = (λ h. cc, λ h. cc (h.0.0))
reports_iff ((false, problem) ∷ more) rest = (
  λ h. let (a, b) = (reports_iff more rest).0 h in ((refl, a), b),
  λ h. (reports_iff more rest).1 (h.0.1, h.1),
)
