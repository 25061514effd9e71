-- ===== src/Uploads/Rows.antt =====
-- The life of a row of `uploaded_files`: what an operation may do to the table, seen on the list of
-- rows, and the status that is seen of an identifier.
use starter_backend_template.Prelude.{
  ℕ, ◌≡◌, refl, subst, String, false, not, ◌==◌, if◌then◌else◌, Option, none, some, List, [], ◌∷◌,
  map, any, All, select, arith, Bool-cases, inl, inr, ==_iff, ==_refl,
}
use starter_backend_template.Uploads.ObjectKeys.{IsKeyOf}
use starter_backend_template.Uploads.Stores.{UploadedFile, has_id, replaced_file}
use starter_backend_template.Uploads.Access.{pending, verified}

-- The object key lies in the directory of the tenant and the owner of the row.
abbrev pub IsOwned : UploadedFile → Type 0
IsOwned f = IsKeyOf f.object_key f.tenant_id f.owner_id

-- No two rows have one identifier.
abbrev pub IsDistinct : List UploadedFile → Type 0
IsDistinct [] = Unit
IsDistinct (f ∷ fs) = (any (has_id f.id) fs ≡ false) × IsDistinct fs

abbrev pub IsSound : List UploadedFile → Type 0
IsSound fs = All IsOwned fs × IsDistinct fs

-- The status of the row with an identifier.
abbrev pub status_of : List UploadedFile → ℕ → Option String
status_of [] n = none
status_of (f ∷ fs) n = if has_id n f then some f.verification_status else status_of fs n

-- The operations on the rows: `verifying n P` is the check of the row n, whose row and object are as `P`
-- says when it is confirmed.
pub data Label : Type 1 where
  storing registering external : Label
  verifying : ℕ → (UploadedFile → Type 0) → Label
  deleting : ℕ → Label

-- The status that an operation gives to a new row.
abbrev pub Gives : Label → String → Type 0
Gives storing status = status ≡ verified
Gives registering status = status ≡ pending
Gives _ status = ⊥

-- The row that it may confirm, and the identifier that it may remove, with its status.
abbrev pub Confirms : Label → UploadedFile → Type 0
Confirms (verifying n P) f = (f.id ≡ n) × P f
Confirms _ f = ⊥

abbrev pub Removes : Label → ℕ → Option String → Type 0
Removes (verifying n P) m status = (m ≡ n) × (status ≡ some pending)
Removes (deleting n) m status = m ≡ n
Removes _ m status = ⊥

-- The row, marked as verified.
abbrev pub marked : UploadedFile → UploadedFile
marked f = record f { verification_status = verified }

-- What one operation may do to the rows.
pub data Change (l : Label) : List UploadedFile → List UploadedFile → Type 0 where
  unchanged : (fs : List UploadedFile) → Change l fs fs
  inserted :
      (f : UploadedFile) (fs : List UploadedFile)
      → any (has_id f.id) fs ≡ false
      → IsOwned f
      → Gives l f.verification_status
      → Change l fs (f ∷ fs)
  confirmed :
      (f : UploadedFile) (fs : List UploadedFile)
      → status_of fs f.id ≡ some pending
      → IsOwned f
      → Confirms l f
      → Change l fs (map (replaced_file (marked f)) fs)
  removed :
      (n : ℕ) (fs : List UploadedFile)
      → Removes l n (status_of fs n)
      → Change l fs (select (λ g. not (has_id n g)) fs)

-- The life of an upload under an operation: a status is given to a new identifier, `pending` becomes
-- `verified`, and a row goes, each as far as the operation may do it to the identifier.
pub data Move (l : Label) (n : ℕ) : Option String → Option String → Type 0 where
  stays : (o : Option String) → Move l n o o
  gives : (status : String) → Gives l status → Move l n none (some status)
  confirms : (f : UploadedFile) → f.id ≡ n → Confirms l f → Move l n (some pending) (some verified)
  leaves : (status : String) → Removes l n (some status) → Move l n (some status) none

status_of_absent :
    (fs : List UploadedFile) (n : ℕ) → any (has_id n) fs ≡ false → status_of fs n ≡ none
status_of_absent [] n h = refl
status_of_absent (f ∷ fs) n h =
    let here : (f.id == n) ≡ false = ground arith in
    let rest : any (has_id n) fs ≡ false = ground arith in rw here (status_of_absent fs n rest)

abbrev ShowsIn : List UploadedFile → UploadedFile → Type 0
ShowsIn fs g = status_of fs g.id ≡ some g.verification_status

-- A new row in front hides no other.
shows_behind :
    (f : UploadedFile) (fs gs : List UploadedFile)
    → any (has_id f.id) gs ≡ false
    → All (ShowsIn fs) gs
    → All (ShowsIn (f ∷ fs)) gs
shows_behind f fs [] h a = tt
shows_behind f fs (g ∷ gs) h (shown, a) =
    let other : (f.id == g.id) ≡ false = ground arith in
    let rest : any (has_id f.id) gs ≡ false = ground arith in
    (rw other shown, shows_behind f fs gs rest a)

-- In a table with distinct identifiers, each row shows its status.
pub IsDistinct-status_of : (fs : List UploadedFile) → IsDistinct fs → All (ShowsIn fs) fs
IsDistinct-status_of [] d = tt
IsDistinct-status_of (f ∷ fs) (new, d) =
    (rw (==_refl f.id) refl, shows_behind f fs fs new (IsDistinct-status_of fs d))

-- Rows that are replaced.
replaced-other :
    (f : UploadedFile) (fs : List UploadedFile) (n : ℕ)
    → (f.id == n) ≡ false
    → status_of (map (replaced_file f) fs) n ≡ status_of fs n
replaced-other f [] n h = refl
replaced-other f (g ∷ fs) n h = elim (Bool-cases (g.id == f.id)) [
  | inl same ↦
      let other : (g.id == n) ≡ false = ground arith in
      rw same (rw h (rw other (replaced-other f fs n h)))
  | inr differs ↦ rw differs (rw (replaced-other f fs n h) refl)
]

replaced-same :
    (f : UploadedFile) (fs : List UploadedFile) (t : String)
    → status_of fs f.id ≡ some t
    → status_of (map (replaced_file f) fs) f.id ≡ some f.verification_status
replaced-same f [] t h = cc
replaced-same f (g ∷ fs) t h = elim (Bool-cases (g.id == f.id)) [
  | inl same ↦ rw same (rw (==_refl f.id) refl)
  | inr differs ↦ rw differs (rw differs (replaced-same f fs t (rw differs at h)))
]

removed-other :
    (n m : ℕ) (fs : List UploadedFile)
    → (n == m) ≡ false
    → status_of (select (λ g. not (has_id n g)) fs) m ≡ status_of fs m
removed-other n m [] h = refl
removed-other n m (g ∷ fs) h = elim (Bool-cases (g.id == n)) [
  | inl same ↦
      let other : (g.id == m) ≡ false = ground arith in rw same (rw other (removed-other n m fs h))
  | inr differs ↦ rw differs (rw (removed-other n m fs h) refl)
]

removed-same :
    (n : ℕ) (fs : List UploadedFile) → status_of (select (λ g. not (has_id n g)) fs) n ≡ none
removed-same n [] = refl
removed-same n (g ∷ fs) = elim (Bool-cases (g.id == n)) [
  | inl same ↦ rw same (removed-same n fs)
  | inr differs ↦ rw differs (rw differs (removed-same n fs))
]

-- Every change moves every identifier along its life.
pub Change-Move :
    (l : Label) (fs gs : List UploadedFile)
    → Change l fs gs
    → (n : ℕ) → Move l n (status_of fs n) (status_of gs n)
Change-Move l _ _ (unchanged fs) n = stays (status_of fs n)
Change-Move l _ _ (inserted f fs new owned status) n = elim (Bool-cases (f.id == n)) [
  | inr differs ↦ rw differs (stays (status_of fs n))
  | inl same ↦
      let at : f.id ≡ n = (==_iff f.id n).0 same in
      let absent : status_of fs n ≡ none =
        status_of_absent fs n (subst (λ m. any (has_id m) fs ≡ false) at new) in
      rw same (rw absent (gives f.verification_status status))
]
Change-Move l _ _ (confirmed f fs was owned may) n = elim (Bool-cases (f.id == n)) [
  | inr differs ↦ rw (replaced-other (marked f) fs n differs) (stays (status_of fs n))
  | inl same ↦
      let at : f.id ≡ n = (==_iff f.id n).0 same in
      rw (← at) (rw (replaced-same (marked f) fs pending was) (rw was (confirms f refl may)))
]
Change-Move l _ _ (removed m fs may) n = elim (Bool-cases (m == n)) [
  | inr differs ↦ rw (removed-other m n fs differs) (stays (status_of fs n))
  | inl same ↦
      let at : m ≡ n = (==_iff m n).0 same in
      rw (← at) (rw (removed-same m fs) (gone (status_of fs m) may))
]
  where
    gone : (o : Option String) → Removes l m o → Move l m o none
    gone none may = stays none
    gone (some t) may = leaves t may
