-- ===== src/Examples/Tables.antt =====
-- Keys that live for a time, and rows with the first one that a filter takes, in memory.
use starter_backend_template.Prelude.{
  ℕ, ◌+◌, ◌≡◌, Bool, true, false, refl, if◌then◌else◌, Option, none, some, List, [], ◌∷◌, Text,
  text_eq, All, Bool-cases, inl, inr, subst, ap,
}
use starter_backend_template.Keys.{Keys, IsKeys, is_there, until}

-- The value of a key at each time.
abbrev pub Table : Type 0
Table = ℕ → Text → Option Text

abbrev pub keys : Keys
keys = record {
  State = Table;
  value = λ s t j. s t j;
  set_ex = λ s now key v ttl t j. if text_eq key j then until (now + ttl) v t else s t j;
  set_nx_ex = λ s now key v ttl. (
    (if is_there (s now key) then false else true),
    λ t j.
        if is_there (s now key)
        then s t j
        else if text_eq key j
        then until (now + ttl) v t
        else s t j,
  );
  delete = λ s now key t j. if text_eq key j then none else s t j;
  incr = λ s now key. (none, s);
  expire = λ s now key ttl. (false, s);
}

pub keys_lawful : IsKeys keys
keys_lawful = record {
  value-set_ex = λ s now key v ttl t j. refl;
  set_nx_ex_flag = λ s now key v ttl. refl;
  value-set_nx_ex = λ s now key v ttl t j. refl;
  value-delete = λ s now key t j. refl;
}

abbrev pub find : {A : Type 0} → (A → Bool) → List A → Option A
find p [] = none
find p (x ∷ xs) = if p x then some x else find p xs

abbrev pub or_default : {A : Type 0} → A → Option A → A
or_default x none = x
or_default x (some y) = y

pub find-some : {A : Type 0} (p : A → Bool) (xs : List A) (r : A) → find p xs ≡ some r → p r ≡ true
find-some p [] r e = cc
find-some p (x ∷ xs) r e = elim (Bool-cases (p x)) [
  | inl h ↦ let same : some x ≡ some r = rw h at e in cc
  | inr h ↦ find-some p xs r (rw h at e)
]

pub find-none :
    {A : Type 0} (p : A → Bool) (xs : List A) → find p xs ≡ none → All (λ r. p r ≡ false) xs
find-none p [] e = tt
find-none p (x ∷ xs) e = elim (Bool-cases (p x)) [
  | inl h ↦ let same : some x ≡ none = rw h at e in cc
  | inr h ↦ (h, find-none p xs (rw h at e))
]

pub find_stored :
    {A : Type 0} (p : A → Bool) (xs : List A) (r : A) (P : A → Type 0)
    → find p xs ≡ some r
    → All P xs
    → P r
find_stored p [] r P e all = cc
find_stored p (x ∷ xs) r P e (a, all) = elim (Bool-cases (p x)) [
  | inl h ↦ let same : some x ≡ some r = rw h at e in subst P (ap (or_default x) same) a
  | inr h ↦ find_stored p xs r P (rw h at e) all
]
