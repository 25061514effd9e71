-- ===== src/Uploads/Spool.antt =====
-- How the body of an upload is read: `spool_upload_stream_limited` and `validate_file_size` of
-- app/services/storage_service.py. A file is the bytes that are left of it: `read(n)` takes the first
-- n of them. The loop runs on fuel, the length of the file and one more; each round reads a byte or
-- ends.
use starter_backend_template.Prelude.{
  ℕ, zero, suc, ◌+◌, ◌≤◌, ◌<◌, ◌≡◌, refl, ap, ◌∙◌, true, false, if◌then◌else◌, ltb, [], ◌∷◌, ◌++◌,
  length, take, drop, arith, Bool-cases, inl, inr, not, is_nonempty,
}
use starter_backend_template.Errors.{payload_too_large, other_error, Result, ok, err}
use starter_backend_template.Uploads.Validation.{Bytes, UploadSettings}

unfoldable pub validate_file_size : UploadSettings → ℕ → Result (Unit {0})
validate_file_size settings size_bytes =
    if ltb settings.upload_max_size_bytes size_bytes
    then err (payload_too_large "File too large")
    else ok tt

-- What the loop has read: the spooled bytes and `total_size`.
abbrev pub Spooled : Type 0
Spooled = Bytes × ℕ

module _ (settings : UploadSettings) where
  abbrev pub spool_loop : ℕ → Bytes → Bytes → ℕ → Result Spooled
  spool_loop zero file spool total_size = err other_error
  spool_loop (suc fuel) file spool total_size =
      let chunk = take settings.upload_stream_chunk_size_bytes file in
      let size = total_size + length chunk in
      let rest =
        spool_loop fuel (drop settings.upload_stream_chunk_size_bytes file) (spool ++ chunk) size in
      if not (is_nonempty chunk)
      then ok (spool, total_size)
      else if ltb settings.upload_max_size_bytes size
      then err (payload_too_large "File too large")
      else rest

  unfoldable pub spool_upload_stream_limited : Bytes → Result Spooled
  spool_upload_stream_limited file = spool_loop (suc (length file)) file [] 0

-- Reading a file at once: the limit is on its length.
abbrev pub read_whole : (limit : ℕ) → Bytes → Bytes → ℕ → Result Spooled
read_whole limit file spool total_size =
    if ltb limit (total_size + length file)
    then err (payload_too_large "File too large")
    else ok (spool ++ file, total_size + length file)

append_nil : (s : Bytes) → s ++ [] ≡ s
append_nil [] = refl
append_nil (c ∷ s) = ap (λ t. c ∷ t) (append_nil s)

append_assoc : (a b c : Bytes) → (a ++ b) ++ c ≡ a ++ (b ++ c)
append_assoc [] b c = refl
append_assoc (x ∷ a) b c = ap (λ t. x ∷ t) (append_assoc a b c)

take-drop : (n : ℕ) (s : Bytes) → take n s ++ drop n s ≡ s
take-drop zero s = refl
take-drop (suc n) [] = refl
take-drop (suc n) (c ∷ s) = ap (λ t. c ∷ t) (take-drop n s)

length-take-drop : (n : ℕ) (s : Bytes) → length (take n s) + length (drop n s) ≡ length s
length-take-drop zero s = omega arith
length-take-drop (suc n) [] = omega arith
length-take-drop (suc n) (c ∷ s) = omega (arith, length-take-drop n s)

-- The bytes that are left in the file after a chunk give the same whole.
whole_step :
    (limit n : ℕ) (file spool : Bytes) (total : ℕ)
    → read_whole limit (drop n file) (spool ++ take n file) (total + length (take n file))
      ≡ read_whole limit file spool total
whole_step limit n file spool total =
    let size : total + length (take n file) + length (drop n file) ≡ total + length file =
      omega (arith, length-take-drop n file) in
    rw size (rw (append_assoc spool (take n file) (drop n file)) (rw (take-drop n file) refl))

module _ (settings : UploadSettings) where
  open settings use {upload_max_size_bytes as limit, upload_stream_chunk_size_bytes as size}

  spool_loop-read_whole :
      (fuel n : ℕ) (file spool : Bytes) (total : ℕ)
      → size ≡ suc n
      → length file < fuel
      → total ≤ limit
      → spool_loop settings fuel file spool total ≡ read_whole limit file spool total
  spool_loop-read_whole zero n file spool total e l o = absurd (omega (arith, l))
  spool_loop-read_whole (suc fuel) n [] spool total e l o =
      let low : ltb limit (total + 0) ≡ false = ground (arith, o) in
      let same : total + 0 ≡ total = omega arith in
      rw low (rw same (rw (append_nil spool) (rw e refl)))
  spool_loop-read_whole (suc fuel) n (c ∷ file) spool total e l o =
      let whole = whole_step limit (suc n) (c ∷ file) spool total in
      let fewer = length-take-drop n file in
      elim (Bool-cases (ltb limit (total + suc (length (take n file))))) [
        | inl over ↦
            let big : ltb limit (total + suc (length file)) ≡ true = ground (arith, fewer, over) in
            rw e (rw over (rw big refl))
        | inr fits ↦ rw e (
            rw fits (
              spool_loop-read_whole fuel n (drop n file) (spool ++ (c ∷ take n file))
                (total + suc (length (take n file))) e (omega (arith, fewer)) (ground (arith, fits))
              ∙ whole))
      ]

  -- A file is read whole, and refused exactly if it is longer than the limit, whatever the size of the
  -- chunks is.
  pub spool_upload_stream_limited-read_whole :
      (file : Bytes)
      → 0 < size
      → spool_upload_stream_limited settings file ≡ read_whole limit file [] 0
  unfolding spool_upload_stream_limited
  spool_upload_stream_limited-read_whole file o = from size refl o
    where
      from :
          (n : ℕ)
          → size ≡ n
          → 0 < n
          → spool_loop settings (suc (length file)) file [] 0 ≡ read_whole limit file [] 0
      from zero e o = absurd (omega (arith, o))
      from (suc n) e o =
          spool_loop-read_whole (suc (length file)) n file [] 0 e (omega arith) (omega arith)
