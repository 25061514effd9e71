-- ===== src/Queue/Copies/Tally.antt =====
-- Sums of weights over a list and over a sorted set, with the operations of Queue/Redis.antt.
use starter_backend_template.Prelude.{
  ℕ, suc, ◌+◌, ◌≡◌, true, false, refl, arith, none, some, List, [], ◌∷◌, ◌++◌, Text, text_eq_sound,
  text_eq_refl, length, ap,
}
use starter_backend_template.Queue.Redis.{member, erase, scored, unscored, last?, front}

module _ (w : Text → ℕ) where
  abbrev pub tally : List Text → ℕ
  tally [] = 0
  tally (x ∷ xs) = w x + tally xs

  abbrev pub tally_scored : List (Text × ℕ) → ℕ
  tally_scored [] = 0
  tally_scored ((x, t) ∷ xs) = w x + tally_scored xs

module _ (w : Text → ℕ) where
  pub tally-erase :
      (v : Text) (xs : List Text) → member v xs ≡ true → w v + tally w (erase v xs) ≡ tally w xs
  tally-erase v [] h = cc
  tally-erase v (x ∷ xs) h =
      ground (arith, tally-erase v xs, text_eq_sound x v, λ (e : x ≡ v). ap w e)

  pub tally-unscored :
      (v : Text) (xs : List (Text × ℕ))
      → scored v xs ≡ true
      → w v + tally_scored w (unscored v xs) ≡ tally_scored w xs
  tally-unscored v [] h = cc
  tally-unscored v ((x, t) ∷ xs) h = ground (arith, tally-unscored v xs, text_eq_sound x v)

  pub tally-front :
      (v : Text) (xs : List Text) → last? xs ≡ some v → w v + tally w (front xs) ≡ tally w xs
  tally-front v [] h = cc
  tally-front v (x ∷ []) h = ground arith
  tally-front v (x ∷ y ∷ xs) h = omega (arith, tally-front v (y ∷ xs) h)

  pub tally_scored-insert :
      (v : Text) (t : ℕ) (xs ys : List (Text × ℕ))
      → tally_scored w (xs ++ ((v, t) ∷ ys)) ≡ w v + tally_scored w (xs ++ ys)
  tally_scored-insert v t [] ys = refl
  tally_scored-insert v t ((x, s) ∷ xs) ys = omega (arith, tally_scored-insert v t xs ys)

pub scored-insert :
    (v : Text) (t : ℕ) (xs ys : List (Text × ℕ)) → scored v (xs ++ ((v, t) ∷ ys)) ≡ true
scored-insert v t [] ys = rw (text_eq_refl v) refl
scored-insert v t ((x, u) ∷ xs) ys = ground (arith, scored-insert v t xs ys)

pub last?-none : (xs : List Text) → last? xs ≡ none → front xs ≡ xs
last?-none [] h = refl
last?-none (x ∷ []) h = cc
last?-none (x ∷ y ∷ xs) h = absurd (last?_cons x y xs h)
  where
    last?_cons : (x y : Text) (xs : List Text) → last? (x ∷ y ∷ xs) ≡ none → ⊥
    last?_cons x y [] h = cc
    last?_cons x y (z ∷ xs) h = last?_cons y z xs h

pub erase_absent : (v : Text) (xs : List Text) → member v xs ≡ false → erase v xs ≡ xs
erase_absent v [] h = refl
erase_absent v (x ∷ xs) h = ground (arith, erase_absent v xs)

pub unscored_absent : (v : Text) (xs : List (Text × ℕ)) → scored v xs ≡ false → unscored v xs ≡ xs
unscored_absent v [] h = refl
unscored_absent v ((x, t) ∷ xs) h = ground (arith, unscored_absent v xs)

pub length-front :
    (v : Text) (xs : List Text) → last? xs ≡ some v → suc (length (front xs)) ≡ length xs
length-front v [] h = cc
length-front v (x ∷ []) h = refl
length-front v (x ∷ y ∷ xs) h = omega (arith, length-front v (y ∷ xs) h)
