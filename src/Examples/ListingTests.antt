-- ===== src/Examples/ListingTests.antt =====
-- The pages of a list of two users.
use starter_backend_template.Prelude.{
  ◌≡◌, refl, Bool, true, false, not, ◌&&◌, ◌==◌, ltb, if◌then◌else◌, none, some, List, [], ◌∷◌,
  length, codes, arith,
}
use starter_backend_template.Permissions.{User}
use starter_backend_template.Users.Listing.{
  SortBy, by_id, by_email, by_role, by_is_active, SortOrder, asc, desc, Cell, number, text, flag,
  sort_value, Filters, Cursor, Listing, precedes, is_listed, follow,
}
use starter_backend_template.Users.Ordering.{IsOrdered}
use starter_backend_template.Users.Pages.{IsListing, follow_all}
use starter_backend_template.Examples.AuthTests.{carol}

-- Texts are compared by their length here.
less_cell : Cell → Cell → Bool
less_cell (number n) (number m) = ltb n m
less_cell (text a) (text b) = ltb (length (codes a)) (length (codes b))
less_cell (flag a) (flag b) = not a && b
less_cell _ _ = false

same_cell : Cell → Cell → Bool
same_cell (number n) (number m) = n == m
same_cell (text a) (text b) = length (codes a) == length (codes b)
same_cell (flag a) (flag b) = if a then b else not b
same_cell _ _ = false

less_cell_strict :
    (v w : Cell)
    → less_cell v w ≡ true
    → (less_cell w v ≡ false) × (same_cell v w ≡ false) × (same_cell w v ≡ false)
unfolding less_cell same_cell
less_cell_strict (number n) (number m) h = (ground arith, ground arith, ground arith)
less_cell_strict (text a) (text b) h = (ground arith, ground arith, ground arith)
less_cell_strict (flag true) (flag b) h = cc
less_cell_strict (flag false) (flag true) h = (refl, refl, refl)
less_cell_strict (flag false) (flag false) h = cc
less_cell_strict (number n) (text b) h = cc
less_cell_strict (number n) (flag b) h = cc
less_cell_strict (text a) (number m) h = cc
less_cell_strict (text a) (flag b) h = cc
less_cell_strict (flag a) (number m) h = cc
less_cell_strict (flag a) (text b) h = cc

abbrev dave : User
dave = record carol { id = 7; email = "dave-with-a-longer-name@acme.test" }

abbrev ordered_rows : (User → User → Bool) → List User
ordered_rows lt = if lt carol dave then carol ∷ dave ∷ [] else dave ∷ carol ∷ []

abbrev two_users : Listing
two_users = record {
  State = Unit;
  less = less_cell;
  same = same_cell;
  matches = λ search mode email. true;
  Token = Cursor;
  Raw = Cursor;
  dumps = λ c. c;
  loads = some;
  b64encode = λ r. r;
  b64decode = some;
  rows = λ s lt. ordered_rows lt;
}

abbrev Ordered : SortBy → SortOrder → Type 0
Ordered b o =
    let lt : User → User → Bool =
      λ u w. precedes two_users o (sort_value b u) u.id (sort_value b w) w.id in
    IsOrdered lt (ordered_rows lt)

ordered : (b : SortBy) (o : SortOrder) → Ordered b o
unfolding precedes sort_value less_cell same_cell
ordered by_id asc = ((refl, tt), (tt, tt))
ordered by_id desc = ((refl, tt), (tt, tt))
ordered by_email asc = ((refl, tt), (tt, tt))
ordered by_email desc = ((refl, tt), (tt, tt))
ordered by_role asc = ((refl, tt), (tt, tt))
ordered by_role desc = ((refl, tt), (tt, tt))
ordered by_is_active asc = ((refl, tt), (tt, tt))
ordered by_is_active desc = ((refl, tt), (tt, tt))

two_users_lawful : IsListing two_users
two_users_lawful = record {
  less_strict = less_cell_strict;
  loads-dumps = λ c. refl;
  b64decode-b64encode = λ r. refl;
  rows_ordered = λ s f. ordered f.sort_by f.sort_order;
}

abbrev newest_first : Filters
newest_first = record {
  sort_by = by_id;
  sort_order = desc;
  role = none;
  is_active = none;
  search = none;
  search_mode = "prefix";
}

follow_all_example : follow two_users 3 tt 10 1 newest_first none ≡ dave ∷ carol ∷ []
unfolding precedes sort_value less_cell same_cell is_listed
follow_all_example =
    follow_all two_users two_users_lawful tt 10 1 newest_first (omega arith) 3 (omega arith)
