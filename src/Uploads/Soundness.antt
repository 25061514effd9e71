-- ===== src/Uploads/Soundness.antt =====
-- Every change of the rows of `uploaded_files` keeps them sound: owned, with distinct identifiers.
use starter_backend_template.Prelude.{
  ℕ, ◌≡◌, refl, false, not, ◌==◌, List, [], ◌∷◌, map, any, select, arith, Bool-cases, inl, inr,
  ==_iff,
}
use starter_backend_template.Uploads.Stores.{UploadedFile, has_id, replaced_file}
use starter_backend_template.Uploads.Rows.{
  unchanged, inserted, confirmed, removed, IsOwned, IsSound, Label, marked, Change,
}

-- Soundness is kept by every change.
replaced-absent :
    (f : UploadedFile) (n : ℕ) (fs : List UploadedFile)
    → any (has_id n) (map (replaced_file f) fs) ≡ any (has_id n) fs
replaced-absent f n [] = refl
replaced-absent f n (g ∷ fs) = elim (Bool-cases (g.id == f.id)) [
  | inl same ↦
      let at : g.id ≡ f.id = (==_iff g.id f.id).0 same in
      rw same (rw at (rw (replaced-absent f n fs) refl))
  | inr differs ↦ rw differs (rw (replaced-absent f n fs) refl)
]

removed-absent :
    (n m : ℕ) (fs : List UploadedFile)
    → any (has_id n) fs ≡ false
    → any (has_id n) (select (λ g. not (has_id m g)) fs) ≡ false
removed-absent n m [] h = refl
removed-absent n m (g ∷ fs) h =
    let here : (g.id == n) ≡ false = ground arith in
    let rest = removed-absent n m fs (ground arith) in
    elim (Bool-cases (g.id == m)) [
      | inl same ↦ rw same rest
      | inr differs ↦ rw differs (rw here rest)
    ]

replaced-IsSound :
    (f : UploadedFile) (fs : List UploadedFile)
    → IsOwned f
    → IsSound fs
    → IsSound (map (replaced_file f) fs)
replaced-IsSound f [] o h = (tt, tt)
replaced-IsSound f (g ∷ fs) o ((own, owned), (new, d)) =
    let (a, b) = replaced-IsSound f fs o (owned, d) in
    elim (Bool-cases (g.id == f.id)) [
      | inl same ↦
          let at : g.id ≡ f.id = (==_iff g.id f.id).0 same in
          rw same ((o, a), (rw (replaced-absent f f.id fs) (rw (← at) new), b))
      | inr differs ↦ rw differs ((own, a), (rw (replaced-absent f g.id fs) new, b))
    ]

removed-IsSound :
    (n : ℕ) (fs : List UploadedFile) → IsSound fs → IsSound (select (λ g. not (has_id n g)) fs)
removed-IsSound n [] h = (tt, tt)
removed-IsSound n (g ∷ fs) ((own, owned), (new, d)) =
    let (a, b) = removed-IsSound n fs (owned, d) in
    elim (Bool-cases (g.id == n)) [
      | inl same ↦ rw same (a, b)
      | inr differs ↦ rw differs ((own, a), (removed-absent g.id n fs new, b))
    ]

pub Change-IsSound :
    (l : Label) (fs gs : List UploadedFile) → Change l fs gs → IsSound fs → IsSound gs
Change-IsSound l _ _ (unchanged fs) h = h
Change-IsSound l _ _ (inserted f fs new owned status) (a, d) = ((owned, a), (new, d))
Change-IsSound l _ _ (confirmed f fs was owned may) h = replaced-IsSound (marked f) fs owned h
Change-IsSound l _ _ (removed n fs may) h = removed-IsSound n fs h
