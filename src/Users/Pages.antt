-- ===== src/Users/Pages.antt =====
-- Following the cursors of app/services/user_service.py gives the whole listing.
use starter_backend_template.Prelude.{
  ℕ, zero, suc, ◌≡◌, ◌<◌, refl, sym, ap, subst, ◌∙◌, ◌⊎◌, true, false, ◌&&◌, ltb, eq_refl, Option,
  none, some, List, [], ◌∷◌, ◌++◌, take, drop, select, length, arith, inl, inr,
}
use starter_backend_template.Errors.{ok}
use starter_backend_template.Permissions.{User}
use starter_backend_template.Users.Listing.{
  SortOrder, asc, desc, Cell, sort_value, Filters, Cursor, sort_name, order_name, mismatch, Listing,
  encode_cursor, decode_cursor, precedes, row_before, is_listed, apply_keyset_filter, last?,
  cursor_at, build_next_cursor, checked_cursor, validate_cursor_filters, fetch, page, follow,
}
use starter_backend_template.Users.Ordering.{
  IsOrdered, select-select, select-IsOrdered, select_after, either_way, same_text_self,
  same_flag_self, last-snoc, append_assoc, Full, page_cases,
}

-- Cells are compared strictly, what is encoded decodes, and the rows come in order.
pub record IsListing (l : Listing) : Type 0 where
  pub less_strict :
      (v w : Cell)
      → l.less v w ≡ true
      → (l.less w v ≡ false) × (l.same v w ≡ false) × (l.same w v ≡ false)
  pub loads-dumps : (c : Cursor) → l.loads (l.dumps c) ≡ some c
  pub b64decode-b64encode : (r : l.Raw) → l.b64decode (l.b64encode r) ≡ some r
  pub rows_ordered :
      (s : l.State) (f : Filters) → IsOrdered (row_before l f) (l.rows s (row_before l f))

module _ (l : Listing) (lawful : IsListing l) (s : l.State) (tenant_id limit : ℕ)
    (f : Filters) where
  strict : (u w : User) → row_before l f u w ≡ true → row_before l f w u ≡ false
  unfolding precedes
  strict u w h = by_order f.sort_order (sort_value f.sort_by u) (sort_value f.sort_by w) u.id w.id h
    where
      by_order :
          (o : SortOrder) (v x : Cell) (n m : ℕ)
          → precedes l o v n x m ≡ true
          → precedes l o x m v n ≡ false
      by_order asc v x n m h =
          either_way (l.less v x) (l.less x v) (l.same v x) (l.same x v) n m
            (λ below. let (a, _, c) = lawful.less_strict v x below in (a, c))
            (λ above. let (_, _, c) = lawful.less_strict x v above in c) h
      by_order desc v x n m h =
          either_way (l.less x v) (l.less v x) (l.same v x) (l.same x v) m n
            (λ below. let (a, b, _) = lawful.less_strict x v below in (a, b))
            (λ above. let (_, b, _) = lawful.less_strict v x above in b) h

  -- The whole listing.
  abbrev pub listing : List User
  listing = select (is_listed l tenant_id f) (l.rows s (row_before l f))

  listing-IsOrdered : IsOrdered (row_before l f) listing
  listing-IsOrdered =
      select-IsOrdered (row_before l f) (is_listed l tenant_id f) (l.rows s (row_before l f))
        (lawful.rows_ordered s f)

  -- The cursor of a row.
  abbrev at : User → Cursor
  at x = record { id = x.id; sort_value = sort_value f.sort_by x; filters = f }

  mismatch_self : mismatch f f ≡ none
  unfolding mismatch
  mismatch_self =
      rw
        (
          eq_refl (sort_name f.sort_by),
          eq_refl (order_name f.sort_order),
          same_text_self f.role,
          same_flag_self f.is_active,
          same_text_self f.search,
          eq_refl f.search_mode,
        )
        refl

  decode_cursor-encode_cursor : (c : Cursor) → decode_cursor l (encode_cursor l c) ≡ some c
  unfolding decode_cursor encode_cursor
  decode_cursor-encode_cursor c =
      rw (lawful.b64decode-b64encode (l.dumps c), decode_cursor) (lawful.loads-dumps c)

  read_back : (x : User) → validate_cursor_filters l f (encode_cursor l (at x)) ≡ ok (at x)
  unfolding validate_cursor_filters
  read_back x = rw (decode_cursor-encode_cursor (at x)) (rw (mismatch_self, checked_cursor) refl)

  -- The rows that a cursor has left, or all.
  data Left : Option l.Token → List User → Type 0 where
    at_start : Left none listing
    at_row :
        (xs : List User) (x : User) (rest : List User)
        → listing ≡ xs ++ (x ∷ rest)
        → Left (some (encode_cursor l (at x))) rest

  fetch_after :
      (xs : List User) (x : User) (rest : List User)
      → listing ≡ xs ++ (x ∷ rest)
      → fetch l s f (λ u. is_listed l tenant_id f u && apply_keyset_filter l f (at x) u) limit
        ≡ take limit rest
  unfolding fetch apply_keyset_filter
  fetch_after xs x rest e = ap (take limit) (
      select-select (is_listed l tenant_id f) (row_before l f x) (l.rows s (row_before l f))
      ∙ ap (select (row_before l f x)) e
      ∙ select_after (row_before l f) strict xs x rest
          (subst (IsOrdered (row_before l f)) e listing-IsOrdered))

  fetch_first : fetch l s f (is_listed l tenant_id f) limit ≡ take limit listing
  unfolding fetch
  fetch_first = refl

  page-Left :
      (cursor : Option l.Token) (rest : List User)
      → Left cursor rest
      → page l s tenant_id limit f cursor
        ≡ ok (take limit rest, build_next_cursor l (take limit rest) limit f)
  unfolding page
  page-Left _ _ at_start = rw fetch_first refl
  page-Left _ _ (at_row xs x rest e) = rw (read_back x) (rw (fetch_after xs x rest e) refl)

  Left-split :
      (cursor : Option l.Token) (rest : List User)
      → Left cursor rest
      → (done : List User) × (listing ≡ done ++ rest)
  Left-split _ _ at_start = ([], refl)
  Left-split _ _ (at_row xs x rest e) = (xs ++ (x ∷ []), e ∙ sym (append_assoc xs (x ∷ []) rest))

  Left-next :
      (cursor : Option l.Token) (rest zs more : List User) (y : User)
      → Left cursor rest
      → rest ≡ zs ++ (y ∷ more)
      → Left (some (encode_cursor l (at y))) more
  Left-next cursor rest zs more y left e =
      let (done, all) = Left-split cursor rest left in
      at_row (done ++ zs) y more
        (all ∙ ap (λ us. done ++ us) e ∙ sym (append_assoc done zs (y ∷ more)))

  next_short :
      (us : List User) → ltb (length us) limit ≡ true → build_next_cursor l us limit f ≡ none
  unfolding build_next_cursor
  next_short us h = rw h refl

  next_full :
      (us zs : List User) (y : User)
      → ltb (length us) limit ≡ false
      → us ≡ zs ++ (y ∷ [])
      → build_next_cursor l us limit f ≡ some (encode_cursor l (at y))
  unfolding build_next_cursor
  next_full us zs y h e =
      rw h (ap (λ us. cursor_at l f (last? us)) e ∙ ap (cursor_at l f) (last-snoc zs y))

  positive_cases :
      0 < limit
      → (us : List User)
      → ((ltb (length (take limit us)) limit ≡ true) × (take limit us ≡ us)) ⊎ Full limit us
  positive_cases p us = cases limit p
    where
      cases : (k : ℕ) → 0 < k → ((ltb (length (take k us)) k ≡ true) × (take k us ≡ us)) ⊎ Full k us
      cases zero p = absurd (omega (arith, p))
      cases (suc n) p = page_cases n us

  follow-Left :
      0 < limit
      → (fuel : ℕ) (cursor : Option l.Token) (rest : List User) → Left cursor rest
      → length rest < fuel
      → follow l fuel s tenant_id limit f cursor ≡ rest
  unfolding follow
  follow-Left p zero cursor rest left h = absurd (omega (arith, h))
  follow-Left p (suc fuel) cursor rest left h = elim (positive_cases p rest) [
    | inl (short, all) ↦
        rw (page-Left cursor rest left) (rw (next_short (take limit rest) short) all)
    | inr (zs, y, full, taken, split, less) ↦
        let later =
          follow-Left p fuel (some (encode_cursor l (at y))) (drop limit rest)
            (Left-next cursor rest zs (drop limit rest) y left split) (omega arith) in
        rw (page-Left cursor rest left) (
          rw (next_full (take limit rest) zs y full taken) (
            ap (λ us. take limit rest ++ us) later
            ∙ ap (λ us. us ++ drop limit rest) taken
            ∙ append_assoc zs (y ∷ []) (drop limit rest)
            ∙ sym split))
  ]

  -- A client that follows the cursors from the first page on gets the whole listing, each row once and
  -- in order, on fuel above the number of its rows. Hypotheses: the limit is positive, the database
  -- compares cells strictly and orders the rows, and base64 and json read back what they wrote.
  pub follow_all :
      0 < limit
      → (fuel : ℕ) → length listing < fuel
      → follow l fuel s tenant_id limit f none ≡ listing
  follow_all p fuel h = follow-Left p fuel none listing at_start h
