-- ===== src/Examples/Codec.antt =====
-- A coding of JSON values as texts that is read back, for the examples.
use starter_backend_template.Prelude.{
  ℕ, zero, suc, true, false, ◌+◌, ◌≤◌, ◌≡◌, refl, arith, Option, none, some, [], ◌∷◌, ◌++◌, Text,
  length, ap,
}
use starter_backend_template.Queue.Job.{
  Value, null, num, str, neg, float, flag, arr, obj, Items, nil, item, Fields, end, field, Codec,
  IsCodec,
}

unfoldable mutual
  pub enc : Value → Text → Text
  enc null r = 0 ∷ r
  enc (num n) r = 1 ∷ n ∷ r
  enc (str t) r = 2 ∷ length t ∷ t ++ r
  enc (obj fs) r = 3 ∷ encf fs r
  enc (neg n) r = 4 ∷ n ∷ r
  enc (float t) r = 5 ∷ length t ∷ t ++ r
  enc (flag false) r = 6 ∷ r
  enc (flag true) r = 7 ∷ r
  enc (arr vs) r = 8 ∷ enci vs r

  pub enci : Items → Text → Text
  enci nil r = 0 ∷ r
  enci (item v vs) r = 1 ∷ enc v (enci vs r)

  pub encf : Fields → Text → Text
  encf end r = 0 ∷ r
  encf (field k v fs) r = 1 ∷ length k ∷ k ++ enc v (encf fs r)

  pub size : Value → ℕ
  size null = 1
  size (num n) = 1
  size (str t) = 1
  size (neg n) = 1
  size (float t) = 1
  size (flag b) = 1
  size (arr vs) = suc (sizei vs)
  size (obj fs) = suc (sizes fs)

  pub sizei : Items → ℕ
  sizei nil = 1
  sizei (item v vs) = suc (suc (size v + sizei vs))

  pub sizes : Fields → ℕ
  sizes end = 1
  sizes (field k v fs) = suc (suc (size v + sizes fs))

abbrev cut : ℕ → Text → Text × Text
cut zero t = ([], t)
cut (suc n) [] = ([], [])
cut (suc n) (x ∷ t) = let (a, b) = cut n t in (x ∷ a, b)

cut-append : (t r : Text) → cut (length t) (t ++ r) ≡ (t, r)
cut-append [] r = refl
cut-append (x ∷ t) r = rw (cut-append t r) refl

abbrev with_name : Text → Value → Option (Fields × Text) → Option (Fields × Text)
with_name k v none = none
with_name k v (some (fs, r)) = some (field k v fs, r)

abbrev as_obj : Option (Fields × Text) → Option (Value × Text)
as_obj none = none
as_obj (some (fs, r)) = some (obj fs, r)

abbrev with_item : Value → Option (Items × Text) → Option (Items × Text)
with_item v none = none
with_item v (some (vs, r)) = some (item v vs, r)

abbrev as_arr : Option (Items × Text) → Option (Value × Text)
as_arr none = none
as_arr (some (vs, r)) = some (arr vs, r)

unfoldable mutual
  pub dec : ℕ → Text → Option (Value × Text)
  dec (suc n) (zero ∷ r) = some (null, r)
  dec (suc n) (suc zero ∷ m ∷ r) = some (num m, r)
  dec (suc n) (suc (suc zero) ∷ m ∷ r) = let (a, b) = cut m r in some (str a, b)
  dec (suc n) (suc (suc (suc zero)) ∷ r) = as_obj (decf n r)
  dec (suc n) (suc (suc (suc (suc zero))) ∷ m ∷ r) = some (neg m, r)
  dec (suc n) (suc (suc (suc (suc (suc zero)))) ∷ m ∷ r) = let (a, b) = cut m r in some (float a, b)
  dec (suc n) (suc (suc (suc (suc (suc (suc zero))))) ∷ r) = some (flag false, r)
  dec (suc n) (suc (suc (suc (suc (suc (suc (suc zero)))))) ∷ r) = some (flag true, r)
  dec (suc n) (suc (suc (suc (suc (suc (suc (suc (suc zero))))))) ∷ r) = as_arr (deci n r)
  dec _ _ = none

  pub deci : ℕ → Text → Option (Items × Text)
  deci (suc n) (zero ∷ r) = some (nil, r)
  deci (suc n) (suc zero ∷ r) = next_item n (dec n r)
  deci _ _ = none

  pub next_item : ℕ → Option (Value × Text) → Option (Items × Text)
  next_item (suc n) (some (v, r)) = with_item v (deci n r)
  next_item _ _ = none

  pub decf : ℕ → Text → Option (Fields × Text)
  decf (suc n) (zero ∷ r) = some (end, r)
  decf (suc n) (suc zero ∷ m ∷ r) = let (a, b) = cut m r in after n a (dec n b)
  decf _ _ = none

  pub after : ℕ → Text → Option (Value × Text) → Option (Fields × Text)
  after (suc n) k (some (v, r)) = with_name k v (decf n r)
  after _ _ _ = none

mutual
  unfolding enc dec

  dec-enc : (v : Value) (n : ℕ) (r : Text) → size v ≤ n → dec n (enc v r) ≡ some (v, r)
  dec-enc null zero r h = absurd (omega (arith, h))
  dec-enc (num m) zero r h = absurd (omega (arith, h))
  dec-enc (str t) zero r h = absurd (omega (arith, h))
  dec-enc (obj fs) zero r h = absurd (omega (arith, h))
  dec-enc (neg m) zero r h = absurd (omega (arith, h))
  dec-enc (float t) zero r h = absurd (omega (arith, h))
  dec-enc (flag b) zero r h = absurd (omega (arith, h))
  dec-enc (arr vs) zero r h = absurd (omega (arith, h))
  dec-enc (neg m) (suc n) r h = refl
  dec-enc (float t) (suc n) r h = rw (cut-append t r, dec) refl
  dec-enc (flag false) (suc n) r h = refl
  dec-enc (flag true) (suc n) r h = refl
  dec-enc (arr vs) (suc n) r h = rw (deci-enci vs n r (omega arith)) refl
  dec-enc null (suc n) r h = refl
  dec-enc (num m) (suc n) r h = refl
  dec-enc (str t) (suc n) r h = rw (cut-append t r, dec) refl
  dec-enc (obj fs) (suc n) r h = rw (decf-encf fs n r (omega arith)) refl

  deci-enci : (vs : Items) (n : ℕ) (r : Text) → sizei vs ≤ n → deci n (enci vs r) ≡ some (vs, r)
  deci-enci nil zero r h = absurd (omega (arith, h))
  deci-enci (item v vs) zero r h = absurd (omega (arith, h))
  deci-enci nil (suc n) r h = refl
  deci-enci (item v vs) (suc zero) r h = absurd (omega (arith, h))
  deci-enci (item v vs) (suc (suc n)) r h =
      rw (dec-enc v (suc n) (enci vs r) (omega arith), next_item)
        (rw (deci-enci vs n r (omega arith)) refl)

  decf-encf : (fs : Fields) (n : ℕ) (r : Text) → sizes fs ≤ n → decf n (encf fs r) ≡ some (fs, r)
  decf-encf end zero r h = absurd (omega (arith, h))
  decf-encf (field k v fs) zero r h = absurd (omega (arith, h))
  decf-encf end (suc n) r h = refl
  decf-encf (field k v fs) (suc zero) r h = absurd (omega (arith, h))
  decf-encf (field k v fs) (suc (suc n)) r h =
      rw (cut-append k (enc v (encf fs r)), decf)
        (rw (dec-enc v (suc n) (encf fs r) (omega arith), after)
          (rw (decf-encf fs n r (omega arith)) (rw (cut-append k (enc v (encf fs r))) refl)))

abbrev value_of : Option (Value × Text) → Option Value
value_of none = none
value_of (some (v, r)) = some v

abbrev load : Text → Option Value
load [] = none
load (n ∷ t) = value_of (dec n t)

abbrev moment : Text → Option ℕ
moment (t ∷ []) = some t
moment _ = none

abbrev pub codec : Codec
codec = record {
  dumps = λ v. size v ∷ enc v [];
  loads = load;
  isoformat = λ t. t ∷ [];
  fromisoformat = moment;
}

pub codec_lawful : IsCodec codec
unfolding enc dec
codec_lawful = record {
  loads-dumps = λ v. ap value_of (dec-enc v (size v) [] (omega arith));
  fromisoformat-isoformat = λ t. refl;
}
