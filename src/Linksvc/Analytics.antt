-- ===== src/Linksvc/Analytics.antt =====
-- `validate_limit` and `top_links` of examples/linksvc/linksvc/analytics.py, on the table of the
-- store.
--
-- The page is what the SELECT names: the clicked rows, in the order of ORDER BY, up to LIMIT.
pub mod Order
use minifleet.Prelude.{
  ℕ, Bool, ◌&&◌, ◌||◌, Option, none, some, filter, take, ltb, eqb, if◌then◌else◌, sort_by, str_le,
}
use minifleet.Model.{ℤ, pos, negsuc, lt_ℤ, eq_ℤ}
use minifleet.Linksvc.Store.{LinkRow, Table}

abbrev pub default_limit : ℕ
default_limit = 10

abbrev pub max_limit : ℕ
max_limit = 100

-- The call passes an int; `none` is InvalidLimit.
unfoldable pub validate_limit : ℤ → Option ℕ
validate_limit (negsuc n) = none
validate_limit (pos n) = if ltb n 1 || ltb max_limit n then none else some n

-- ORDER BY clicks DESC, created_at ASC, code ASC
abbrev pub ranks : LinkRow → LinkRow → Bool
ranks a b =
    ltb b.clicks a.clicks
    || eqb a.clicks b.clicks
      && (lt_ℤ a.created_at b.created_at || eq_ℤ a.created_at b.created_at && str_le a.code b.code)

-- WHERE clicks > 0
abbrev pub is_clicked : LinkRow → Bool
is_clicked r = ltb 0 r.clicks

abbrev pub page : ℕ → Table → Table
page n t = take n (sort_by ranks (filter is_clicked t))

abbrev pub page_of : Option ℕ → Table → Option Table
page_of none t = none
page_of (some n) t = some (page n t)

unfoldable pub top_links : ℤ → Table → Option Table
top_links limit t = page_of (validate_limit limit) t
