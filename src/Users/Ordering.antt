-- ===== src/Users/Ordering.antt =====
-- Ordered lists of rows, and what a page takes of them.
use starter_backend_template.Prelude.{
  ℕ, zero, suc, ◌≡◌, ◌<◌, refl, ap, ◌⊎◌, String, Bool, true, false, ◌&&◌, ◌||◌, ltb, eq_refl,
  Option, none, some, List, [], ◌∷◌, ◌++◌, take, drop, select, length, All, arith, Bool-cases, inl,
  inr,
}
use starter_backend_template.Permissions.{User}
use starter_backend_template.Users.Listing.{same_text, same_flag, last?}

-- Each row stands before all that follow.
abbrev pub IsOrdered : (User → User → Bool) → List User → Type 0
IsOrdered lt [] = Unit
IsOrdered lt (u ∷ us) = All (λ w. lt u w ≡ true) us × IsOrdered lt us

module _ (p q : User → Bool) where
  pub select-select : (us : List User) → select (λ u. p u && q u) us ≡ select q (select p us)
  select-select [] = refl
  select-select (u ∷ us) = elim (Bool-cases (p u)) [
    | inr out ↦ rw out (select-select us)
    | inl listed ↦ elim (Bool-cases (q u)) [
      | inl on ↦ rw listed (rw on (ap (λ x. u ∷ x) (select-select us)))
      | inr off ↦ rw listed (rw off (select-select us))
    ]
  ]

module _ (lt : User → User → Bool) where
  All-select :
      (P : User → Type 0) (p : User → Bool) (us : List User) → All P us → All P (select p us)
  All-select P p [] all = tt
  All-select P p (u ∷ us) (here, all) = elim (Bool-cases (p u)) [
    | inl kept ↦ rw kept (here, All-select P p us all)
    | inr gone ↦ rw gone (All-select P p us all)
  ]

  pub select-IsOrdered :
      (p : User → Bool) (us : List User) → IsOrdered lt us → IsOrdered lt (select p us)
  select-IsOrdered p [] o = tt
  select-IsOrdered p (u ∷ us) (first, o) = elim (Bool-cases (p u)) [
    | inl kept ↦ rw kept (All-select (λ w. lt u w ≡ true) p us first, select-IsOrdered p us o)
    | inr gone ↦ rw gone (select-IsOrdered p us o)
  ]

  select_all : (q : User → Bool) (us : List User) → All (λ w. q w ≡ true) us → select q us ≡ us
  select_all q [] all = refl
  select_all q (u ∷ us) (here, all) = rw here (ap (λ x. u ∷ x) (select_all q us all))

  All-in :
      (P : User → Type 0) (xs : List User) (x : User) (ys : List User)
      → All P (xs ++ (x ∷ ys))
      → P x
  All-in P [] x ys (here, all) = here
  All-in P (u ∷ xs) x ys (here, all) = All-in P xs x ys all

  -- The rows after a row of an ordered list are those behind it.
  pub select_after :
      ((u w : User) → lt u w ≡ true → lt w u ≡ false)
      → (xs : List User) (x : User) (ys : List User) → IsOrdered lt (xs ++ (x ∷ ys))
      → select (lt x) (xs ++ (x ∷ ys)) ≡ ys
  select_after strict [] x ys (first, o) = elim (Bool-cases (lt x x)) [
    | inl itself ↦ cc (strict x x itself)
    | inr not_itself ↦ rw not_itself (select_all (lt x) ys first)
  ]
  select_after strict (u ∷ xs) x ys (first, o) =
      let ahead : lt u x ≡ true = All-in (λ w. lt u w ≡ true) xs x ys first in
      rw (strict u x ahead) (select_after strict xs x ys o)

-- Of two rows that differ in the cell or in the identifier, one is not after the other.
pub either_way :
    (lt gt e e' : Bool) (n m : ℕ)
    → (lt ≡ true → (gt ≡ false) × (e' ≡ false))
    → (gt ≡ true → e ≡ false)
    → lt || (e && ltb n m) ≡ true
    → gt || (e' && ltb m n) ≡ false
either_way true gt e e' n m f g h = let (a, b) = f refl in rw (a, b) refl
either_way false true e e' n m f g h = cc (rw (g refl) at h)
either_way false false e e' n m f g h = ground arith

pub same_text_self : (o : Option String) → same_text o o ≡ true
same_text_self none = refl
same_text_self (some s) = eq_refl s

pub same_flag_self : (o : Option Bool) → same_flag o o ≡ true
same_flag_self none = refl
same_flag_self (some true) = refl
same_flag_self (some false) = refl

pub last-snoc : (zs : List User) (y : User) → last? (zs ++ (y ∷ [])) ≡ some y
last-snoc [] y = refl
last-snoc (z ∷ []) y = refl
last-snoc (z ∷ w ∷ zs) y = last-snoc (w ∷ zs) y

pub append_assoc : (xs ys zs : List User) → (xs ++ ys) ++ zs ≡ xs ++ (ys ++ zs)
append_assoc [] ys zs = refl
append_assoc (x ∷ xs) ys zs = ap (λ us. x ∷ us) (append_assoc xs ys zs)

-- A page that is not full is all there is; a full one ends in a row that the others follow.
abbrev pub Full : ℕ → List User → Type 0
Full limit us =
    (zs : List User) × (y : User) × (ltb (length (take limit us)) limit ≡ false)
    × (take limit us ≡ zs ++ (y ∷ []))
    × (us ≡ zs ++ (y ∷ drop limit us))
    × (length (drop limit us) < length us)

pub page_cases :
    (n : ℕ) (us : List User)
    → ((ltb (length (take (suc n) us)) (suc n) ≡ true) × (take (suc n) us ≡ us)) ⊎ Full (suc n) us
page_cases n [] = inl (ground arith, refl)
page_cases zero (u ∷ us) = inr ([], u, refl, refl, refl, omega arith)
page_cases (suc n) (u ∷ us) = elim (page_cases n us) [
  | inl (short, all) ↦ inl (ground arith, ap (λ x. u ∷ x) all)
  | inr (zs, y, full, taken, split, less) ↦
      inr (u ∷ zs, y, ground arith, ap (λ x. u ∷ x) taken, ap (λ x. u ∷ x) split, omega arith)
]
