-- ===== src/Errors/Chains.antt =====
-- Chains of calls that may raise, as do blocks on results, and what a chain that returned has done.
use starter_backend_template.Prelude.{◌≡◌, refl, ◌↔◌}
use starter_backend_template.Errors.{Error, Result, ok, err, Exec, lift}
use starter_backend_template.Errors as Errors

infixl 5 ◌>>=◌ ◌>>◌
abbrev pub ◌>>=◌ : {A B : Type 0} → Result A → (A → Result B) → Result B
ok a >>= f = f a
err e >>= f = err e

abbrev pub ◌>>◌ : {A B : Type 0} → Result A → Result B → Result B
r >> k = r >>= λ _. k

module _ {A B : Type 0} where
  -- A chain of two returns exactly if both return.
  pub chain_iff :
      (r : Result A) (f : A → Result B) (b : B)
      → ((r >>= f) ≡ ok b) ↔ ((a : A) × (r ≡ ok a) × (f a ≡ ok b))
  chain_iff (ok a) f b = (λ h. (a, refl, h), λ (a', e, h). cc)
  chain_iff (err e) f b = (λ h. cc, λ (a', e', h). cc)

module _ {B : Type 0} where
  -- The same where the first call returns nothing.
  pub sequence_iff :
      (r : Result (Unit {0})) (k : Result B) (b : B)
      → ((r >> k) ≡ ok b) ↔ ((r ≡ ok tt) × (k ≡ ok b))
  sequence_iff (ok tt) k b = (λ h. (refl, h), λ h. h.1)
  sequence_iff (err e) k b = (λ h. cc, λ (e', h). cc)

module _ {S A B : Type 0} where
  state_from :
      (x : Result A × S) (f : A → Exec S B) (s : S) (P : S → Type 0)
      → P x.1
      → ((a : A) → x.0 ≡ ok a → P (f a x.1).1)
      → P (Errors.◌>>=◌ (λ _. x) f s).1
  state_from (ok a, s') f s P here there = there a refl
  state_from (err e, s') f s P here there = here

  -- What holds of the state after the first call, and after the second one if the first returned, holds
  -- after the chain.
  pub bind_state :
      (m : Exec S A) (f : A → Exec S B) (s : S) (P : S → Type 0)
      → P (m s).1
      → ((a : A) → (m s).0 ≡ ok a → P (f a (m s).1).1)
      → P (Errors.◌>>=◌ m f s).1
  bind_state m f s P here there = state_from (m s) f s P here there

-- A call returns a value in a state.
pub record Returns {S A : Type 0} (m : Exec S A) (s : S) (a : A) : Type 0 where
  pub returned : (m s).0 ≡ ok a

module _ {S A B : Type 0} where
  returned_from :
      (x : Result A × S) (f : A → Exec S B) (s : S) (b : B)
      → (Errors.◌>>=◌ (λ _. x) f s).0 ≡ ok b
      → (a : A) × (x.0 ≡ ok a) × ((f a x.1).0 ≡ ok b)
  returned_from (ok a, s') f s b h = (a, refl, h)
  returned_from (err e, s') f s b h = cc

  -- A chain that returned is two calls that returned.
  pub Returns-bind :
      (m : Exec S A) (f : A → Exec S B) (s : S) (b : B)
      → Returns (Errors.◌>>=◌ m f) s b
      → (a : A) × ((m s).0 ≡ ok a) × Returns (f a) (m s).1 b
  Returns-bind m f s b h =
      let (a, e, k) = returned_from (m s) f s b h.returned in (a, e, record { returned = k })

  -- The same where the first call leaves the state.
  pub Returns-lift :
      (r : Result A) (f : A → Exec S B) (s : S) (b : B)
      → Returns (Errors.◌>>=◌ (lift r) f) s b
      → (a : A) × (r ≡ ok a) × Returns (f a) s b
  Returns-lift r f s b h = Returns-bind (lift r) f s b h

-- What holds of the state that a call leaves, if it returns.
pub record After {S A : Type 0} (m : Exec S A) (s : S) (P : S → Type 0) : Type 0 where
  pub after : (a : A) → (m s).0 ≡ ok a → P (m s).1

module _ {S A B : Type 0} where
  after_from :
      (x : Result A × S) (f : A → Exec S B) (s : S) (P : S → Type 0)
      → ((a : A) → x.0 ≡ ok a → After (f a) x.1 P)
      → (b : B) → (Errors.◌>>=◌ (λ _. x) f s).0 ≡ ok b
      → P (Errors.◌>>=◌ (λ _. x) f s).1
  after_from (ok a, s') f s P next b h = (next a refl).after b h
  after_from (err e, s') f s P next b h = cc

  pub After-bind :
      (m : Exec S A) (f : A → Exec S B) (s : S) (P : S → Type 0)
      → ((a : A) → (m s).0 ≡ ok a → After (f a) (m s).1 P)
      → After (Errors.◌>>=◌ m f) s P
  After-bind m f s P next = record { after = λ b h. after_from (m s) f s P next b h }

module _ {S A B : Type 0} where
  Returns-from :
      (x : Result A × S) (f : A → Exec S B) (s : S) (a : A) (b : B)
      → x.0 ≡ ok a
      → Returns (f a) x.1 b
      → (Errors.◌>>=◌ (λ _. x) f s).0 ≡ ok b
  Returns-from (ok a', s') f s a b e h = let same : a' ≡ a = cc in rw same h.returned
  Returns-from (err x, s') f s a b e h = cc

  -- Two calls that return make a chain that returns.
  pub Returns-to :
      (m : Exec S A) (f : A → Exec S B) (s : S) (a : A) (b : B)
      → (m s).0 ≡ ok a
      → Returns (f a) (m s).1 b
      → Returns (Errors.◌>>=◌ m f) s b
  Returns-to m f s a b e h = record { returned = Returns-from (m s) f s a b e h }
