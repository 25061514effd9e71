-- ===== src/Users/Listing.antt =====
-- The pages of a list of users: the query of `get_users` in app/services/user_service.py with its
-- keyset cursor. The database is a parameter: how it compares cells, matches a search and orders rows.
-- The cache of the pages and the fallback to an offset are left out.
use starter_backend_template.Prelude.{
  ℕ, zero, suc, String, Bool, true, false, not, ◌&&◌, ◌||◌, ◌==◌, ltb, str_eq, if◌then◌else◌,
  Option, none, some, List, [], ◌∷◌, ◌++◌, take, select, length,
}
use starter_backend_template.Errors.{value_error, Result, ok, err}
use starter_backend_template.Errors.Chains.{◌>>=◌}
use starter_backend_template.Permissions.{User}

-- `UserSortBy` and `SortOrder` of app/api/routes/users.py.
pub data SortBy : Type 0 where
  by_id by_email by_role by_is_active : SortBy

pub data SortOrder : Type 0 where
  asc desc : SortOrder

-- A value of a column.
pub data Cell : Type 0 where
  number : ℕ → Cell
  text : String → Cell
  flag : Bool → Cell

-- `allowed_sort_fields`, and `getattr(user, sort_by)`.
unfoldable pub sort_value : SortBy → User → Cell
sort_value by_id u = number u.id
sort_value by_email u = text u.email
sort_value by_role u = text u.role
sort_value by_is_active u = flag u.is_active

pub record Filters : Type 0 where
  pub sort_by : SortBy
  pub sort_order : SortOrder
  pub role : Option String
  pub is_active : Option Bool
  pub search : Option String
  pub search_mode : String

-- The payload of a cursor.
pub record Cursor : Type 0 where
  pub id : ℕ
  pub sort_value : Cell
  pub filters : Filters

-- The texts of the sort fields and of the directions.
abbrev pub sort_name : SortBy → String
sort_name by_id = "id"
sort_name by_email = "email"
sort_name by_role = "role"
sort_name by_is_active = "is_active"

abbrev pub order_name : SortOrder → String
order_name asc = "asc"
order_name desc = "desc"

-- `a == b` of optional texts and flags
abbrev pub same_text : Option String → Option String → Bool
same_text none none = true
same_text (some a) (some b) = str_eq a b
same_text _ _ = false

abbrev pub same_flag : Option Bool → Option Bool → Bool
same_flag none none = true
same_flag (some true) (some true) = true
same_flag (some false) (some false) = true
same_flag _ _ = false

-- The first field in which the filters of a cursor differ.
unfoldable pub mismatch : Filters → Filters → Option String
mismatch c f =
    if not (str_eq (sort_name c.sort_by) (sort_name f.sort_by))
    then some "cursor sort_by mismatch"
    else if not (str_eq (order_name c.sort_order) (order_name f.sort_order))
    then some "cursor sort_order mismatch"
    else if not (same_text c.role f.role)
    then some "cursor role mismatch"
    else if not (same_flag c.is_active f.is_active)
    then some "cursor is_active mismatch"
    else if not (same_text c.search f.search)
    then some "cursor search mismatch"
    else if not (str_eq c.search_mode f.search_mode)
    then some "cursor search_mode mismatch"
    else none

-- `less` and `same` compare cells as SQL does, `matches search mode email` is ILIKE, `b64encode` and
-- `b64decode` are the functions of base64 and `dumps` and `loads` those of json, where a payload that is
-- no object with an identifier and a sort value is none, and `rows s lt` are all rows in the order `lt`.
pub record Listing : Type 1 where
  pub State : Type 0
  pub less : Cell → Cell → Bool
  pub same : Cell → Cell → Bool
  pub matches : String → String → String → Bool
  pub Token : Type 0
  pub Raw : Type 0
  pub dumps : Cursor → Raw
  pub loads : Raw → Option Cursor
  pub b64encode : Raw → Token
  pub b64decode : Token → Option Raw
  pub rows : State → (User → User → Bool) → List User

-- The last row of a page.
abbrev pub last? : List User → Option User
last? [] = none
last? (u ∷ []) = some u
last? (u ∷ w ∷ us) = last? (w ∷ us)

module _ (l : Listing) where
  unfoldable pub encode_cursor : Cursor → l.Token
  encode_cursor payload = l.b64encode (l.dumps payload)

  unfoldable pub decode_cursor : l.Token → Option Cursor
  decode_cursor cursor = elim (l.b64decode cursor) [ none ↦ none | some raw ↦ l.loads raw ]

  -- ORDER BY the column and the identifier: a row stands before a cell and an identifier.
  unfoldable pub precedes : SortOrder → Cell → ℕ → Cell → ℕ → Bool
  precedes asc v n w m = l.less v w || (l.same v w && ltb n m)
  precedes desc v n w m = l.less w v || (l.same v w && ltb m n)

  abbrev pub row_before : Filters → User → User → Bool
  row_before f u w =
      precedes f.sort_order (sort_value f.sort_by u) u.id (sort_value f.sort_by w) w.id

  abbrev pub has_role : Option String → User → Bool
  has_role none u = true
  has_role (some role) u = str_eq u.role role

  abbrev pub has_state : Option Bool → User → Bool
  has_state none u = u.is_active
  has_state (some true) u = u.is_active
  has_state (some false) u = not u.is_active

  abbrev pub is_found : Option String → String → User → Bool
  is_found none mode u = true
  is_found (some search) mode u = l.matches search mode u.email

  -- The filters of the query before the cursor.
  unfoldable pub is_listed : ℕ → Filters → User → Bool
  is_listed tenant_id f u =
      u.tenant_id == tenant_id
      && (has_role f.role u && (has_state f.is_active u && is_found f.search f.search_mode u))

  -- `_apply_keyset_filter`
  unfoldable pub apply_keyset_filter : Filters → Cursor → User → Bool
  apply_keyset_filter f c u = precedes f.sort_order c.sort_value c.id (sort_value f.sort_by u) u.id

  abbrev pub cursor_at : Filters → Option User → Option l.Token
  cursor_at f none = none
  cursor_at f (some u) =
      some (encode_cursor (record { id = u.id; sort_value = sort_value f.sort_by u; filters = f }))

  -- `_build_next_cursor`; an empty page that is as long as its limit has no last row and would raise.
  unfoldable pub build_next_cursor : List User → (limit : ℕ) → Filters → Option l.Token
  build_next_cursor users limit f =
      if ltb (length users) limit then none else cursor_at f (last? users)

  -- `_validate_cursor_filters(decode_cursor(cursor), …)`
  abbrev pub checked_cursor : Filters → Option Cursor → Result Cursor
  checked_cursor f none = err (value_error "invalid cursor")
  checked_cursor f (some c) = elim (mismatch c.filters f) [
    | none ↦ ok c
    | some message ↦ err (value_error message)
  ]

  unfoldable pub validate_cursor_filters : Filters → l.Token → Result Cursor
  validate_cursor_filters f cursor = checked_cursor f (decode_cursor cursor)

  -- The rows of a page: ordered, filtered and limited.
  unfoldable pub fetch : l.State → Filters → (User → Bool) → (limit : ℕ) → List User
  fetch s f p limit = take limit (select p (l.rows s (row_before f)))

  unfoldable pub page :
      l.State
      → (tenant_id limit : ℕ) → Filters
      → (cursor : Option l.Token) → Result (List User × Option l.Token)
  page s tenant_id limit f none =
      let users = fetch s f (is_listed tenant_id f) limit in
      ok (users, build_next_cursor users limit f)
  page s tenant_id limit f (some cursor) = do
    c ← validate_cursor_filters f cursor
    let users = fetch s f (λ u. is_listed tenant_id f u && apply_keyset_filter f c u) limit
    ok (users, build_next_cursor users limit f)

  -- The rows of a page, and those behind its cursor.
  abbrev pub with_rest : (l.Token → List User) → Result (List User × Option l.Token) → List User
  with_rest rest (err e) = []
  with_rest rest (ok (users, none)) = users
  with_rest rest (ok (users, some next)) = users ++ rest next

  -- A client that follows the cursors, on fuel.
  unfoldable pub follow : ℕ → l.State → (tenant_id limit : ℕ) → Filters → Option l.Token → List User
  follow zero s tenant_id limit f cursor = []
  follow (suc fuel) s tenant_id limit f cursor =
      with_rest (λ next. follow fuel s tenant_id limit f (some next))
        (page s tenant_id limit f cursor)
