-- ===== src/Prelude/Decimal.antt =====
-- Python's `str` of a natural number, and texts that are divided by a separator.
use Prim.Native.Nat.{ℕ, zero, suc, ◌+◌, ◌-◌, ◌*◌, ◌/◌, ◌%◌, ◌≤◌, ◌<◌}
use mathlib.Core.Path.{◌≡◌, refl, sym, ap, ◌∙◌}
use mathlib.Core.Logic.{inl, inr}
use mathlib.Core.Bool.{true, false}
use mathlib.Core.List.{[], ◌∷◌, ◌++◌}
use native.Mathlib.Omega.{arith}
use package.starter_backend_template.Prelude.Tests.{ltb, ==_iff, Bool-cases}
use package.starter_backend_template.Prelude.Lists.{All, length, drop}
use package.starter_backend_template.Prelude.Codes.{Text, starts_with}

-- The digits, on fuel: a number has at most as many digits as itself and one more.
abbrev pub decimal_from : ℕ → ℕ → Text
decimal_from zero n = []
decimal_from (suc k) n = elim (ltb n 10) [
  | true ↦ (48 + n) ∷ []
  | false ↦ decimal_from k (n / 10) ++ ((48 + n % 10) ∷ [])
]

-- `str(n)`
unfoldable pub decimal : ℕ → Text
decimal n = decimal_from (suc n) n

-- The number that digits stand for, after those that have been read.
abbrev pub numeral : ℕ → Text → ℕ
numeral acc [] = acc
numeral acc (c ∷ s) = numeral (acc * 10 + (c - 48)) s

numeral-append :
    (acc : ℕ) (s : Text) (c : ℕ) → numeral acc (s ++ (c ∷ [])) ≡ numeral acc s * 10 + (c - 48)
numeral-append acc [] c = refl
numeral-append acc (d ∷ s) c = numeral-append (acc * 10 + (d - 48)) s c

decimal_from_small : (k n : ℕ) → ltb n 10 ≡ true → decimal_from (suc k) n ≡ (48 + n) ∷ []
decimal_from_small k n h = ground (arith, h)

decimal_from_large :
    (k n : ℕ)
    → ltb n 10 ≡ false
    → decimal_from (suc k) n ≡ decimal_from k (n / 10) ++ ((48 + n % 10) ∷ [])
decimal_from_large k n h = ground (arith, h)

numeral-decimal_from : (k n : ℕ) → n < k → numeral 0 (decimal_from k n) ≡ n
numeral-decimal_from zero n l = omega arith
numeral-decimal_from (suc k) n l = elim (Bool-cases (ltb n 10)) [
  | inl small ↦ rw (decimal_from_small k n small) (omega arith)
  | inr large ↦
      let less : n / 10 < k = ground arith in
      rw (decimal_from_large k n large) (
        rw (numeral-append 0 (decimal_from k (n / 10)) (48 + n % 10))
          (rw (numeral-decimal_from k (n / 10) less) (omega arith)))
]

-- Different numbers have different texts.
pub decimal-injective : (n m : ℕ) → decimal n ≡ decimal m → n ≡ m
unfolding decimal
decimal-injective n m h =
    sym (numeral-decimal_from (suc n) n (omega arith))
    ∙ ap (numeral 0) h
    ∙ numeral-decimal_from (suc m) m (omega arith)

abbrev pub IsDigit : ℕ → Type 0
IsDigit c = (48 ≤ c) × (c ≤ 57)

All-append : (P : ℕ → Type 0) (s t : Text) → All P s → All P t → All P (s ++ t)
All-append P [] t a b = b
All-append P (c ∷ s) t (p, a) b = (p, All-append P s t a b)

decimal_from-IsDigit : (k n : ℕ) → All IsDigit (decimal_from k n)
decimal_from-IsDigit zero n = tt
decimal_from-IsDigit (suc k) n = elim (Bool-cases (ltb n 10)) [
  | inl small ↦ rw (decimal_from_small k n small) ((omega arith, ground arith), tt)
  | inr large ↦ rw (decimal_from_large k n large) (
      All-append IsDigit (decimal_from k (n / 10)) ((48 + n % 10) ∷ [])
        (decimal_from-IsDigit k (n / 10)) ((omega arith, omega arith), tt))
]

pub decimal-IsDigit : (n : ℕ) → All IsDigit (decimal n)
unfolding decimal
decimal-IsDigit n = decimal_from-IsDigit (suc n) n

-- A text that starts with two fields, each ended by the separator 47 (a slash) and free of it: the
-- fields are equal, and what follows them starts both rests.
pub same_field :
    (s a b p q : Text)
    → All IsDigit a
    → All IsDigit b
    → starts_with s (a ++ (47 ∷ p)) ≡ true
    → starts_with s (b ++ (47 ∷ q)) ≡ true
    → (a ≡ b) × ((r : Text) × (starts_with r p ≡ true) × (starts_with r q ≡ true))
same_field [] [] b p q da db h h' = cc
same_field [] (x ∷ a) b p q da db h h' = cc
same_field (c ∷ s) [] [] p q da db h h' = (refl, (s, ground arith, ground arith))
same_field (c ∷ s) [] (y ∷ b) p q da ((lo, hi), db) h h' = ground arith
same_field (c ∷ s) (x ∷ a) [] p q ((lo, hi), da) db h h' = ground arith
same_field (c ∷ s) (x ∷ a) (y ∷ b) p q (_, da) (_, db) h h' =
    let (e, r) = same_field s a b p q da db (ground arith) (ground arith) in
    let first : x ≡ y = ground arith in (cc (first, e), r)

pub starts_with-append : (s a : Text) → starts_with (a ++ s) a ≡ true
starts_with-append s [] = starts_with-nil s
  where
    starts_with-nil : (s : Text) → starts_with s [] ≡ true
    starts_with-nil [] = refl
    starts_with-nil (c ∷ s) = refl
starts_with-append s (c ∷ a) = ground (arith, starts_with-append s a, (==_iff c c).1 refl)

pub starts_with-drop :
    (s a p : Text) → starts_with s (a ++ p) ≡ true → starts_with (drop (length a) s) p ≡ true
starts_with-drop s [] p h = h
starts_with-drop [] (c ∷ a) p h = cc
starts_with-drop (d ∷ s) (c ∷ a) p h = starts_with-drop s a p (ground arith)
