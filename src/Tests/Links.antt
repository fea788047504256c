-- ===== src/Tests/Links.antt =====
-- A table with two links, and calls on it.
use minifleet.Prelude.{
  ℕ, ◌≤◌, String, true, Option, none, some, List, [], ◌∷◌, ◌++◌, ◌≡◌, refl, ◌↔◌, ◌⊎◌, codes, trim,
  sort_by,
}
use minifleet.Model.{pos, text}
use minifleet.Linksvc.Store.{
  Web, Order, ok, Link, Table, Call, creating, clicking, create, record_click, perform, perform_all,
  stats, get, checked, normalize_url, normalize_alias, is_alias, alias_rest, store, LinkRow,
}
use minifleet.Linksvc.Store.Idempotent.{create-again}
use minifleet.Linksvc.Store.Refines.{IsStep, view, perform-IsStep, stats-perform_all}
use minifleet.Linksvc.Store.Lookup.{create-get}
use minifleet.Linksvc.Store.Alias.{IsBody, is_alias_iff}
use minifleet.Linksvc.Analytics.{top_links, validate_limit}
use minifleet.Linksvc.Analytics.Order.{IsPage, top_links-IsPage}
use minifleet.Linksvc.Limiter.{new_limiter, allow, remember}

abbrev pub web : Web
web = record { parse = λ url. some ("https", "a.example"); add = λ a b. b }

abbrev order : String → Option String → Order
order alias key = record {
  url = some (text " https://a.example ");
  alias = some (text alias);
  ttl = none;
  key = key;
}

abbrev cat_link : Link
cat_link = record { code = "cat"; url = "https://a.example"; created_at = pos 5; expires_at = none }

abbrev pub first_table : Table
first_table = (create web (pos 5) [] (order "cat" (some "k")) []).1

abbrev more_calls : List Call
more_calls =
    clicking "cat" ∷ creating (pos 6) [] (order "dog" none) ∷ clicking "dog" ∷ clicking "cat" ∷ []

program : Unit {0}
unfolding create checked normalize_url normalize_alias is_alias alias_rest store record_click stats
    get new_limiter allow remember top_links validate_limit trim
program = tt

first-create : (create web (pos 5) [] (order "cat" (some "k")) []).0 ≡ ok cat_link
unfolding program
first-create = refl

first-stats : stats "cat" first_table ≡ some (cat_link, 0)
unfolding program
first-stats = refl

second-checked :
    checked web (order "cow" (some "k"))
    ≡ ok (record { url = "https://a.example"; alias = some "cow"; ttl = none; key = some "k" })
unfolding program
second-checked = refl

create-again_example :
    create web (pos 9) [] (order "cow" (some "k")) (perform_all web more_calls first_table)
    ≡ (ok cat_link, perform_all web more_calls first_table)
create-again_example =
    create-again web (pos 5) [] (order "cat" (some "k")) [] "k" cat_link refl first-create
      more_calls (pos 9) [] (order "cow" (some "k")) _ refl second-checked

perform-IsStep_example :
    IsStep (clicking "cat") (view first_table) (view (perform web (clicking "cat") first_table))
perform-IsStep_example = perform-IsStep web (clicking "cat") first_table

stats-perform_all_example :
    stats "cat" (perform_all web more_calls first_table) ≡ some (cat_link, 2)
stats-perform_all_example =
    stats-perform_all web more_calls first_table "cat" cat_link 0 first-stats

create-get_example : get "cat" (perform_all web more_calls first_table) ≡ some cat_link
create-get_example =
    create-get web (pos 5) [] (order "cat" (some "k")) [] cat_link tt first-create refl more_calls

is_alias_iff_example : (is_alias (codes "cat" ++ 10 ∷ []) ≡ true) ↔ (
    (b : List ℕ) × IsBody b
    × ((codes "cat" ++ 10 ∷ [] ≡ b) ⊎ (codes "cat" ++ 10 ∷ [] ≡ b ++ 10 ∷ [])))
is_alias_iff_example = is_alias_iff (codes "cat" ++ 10 ∷ [])

abbrev row : String → ℕ → LinkRow
row code n = record {
  code = code;
  url = "https://a.example";
  created_at = pos 5;
  expires_at = none;
  clicks = n;
  key = none;
}

three-top : top_links (pos 1) (row "a" 1 ∷ row "b" 0 ∷ row "c" 3 ∷ []) ≡ some (row "c" 3 ∷ [])
unfolding program sort_by
three-top = refl

top_links-IsPage_example :
    (n : ℕ) × (pos 1 ≡ pos n)
    × (1 ≤ n)
    × (n ≤ 100)
    × IsPage n (row "a" 1 ∷ row "b" 0 ∷ row "c" 3 ∷ []) (row "c" 3 ∷ [])
top_links-IsPage_example = top_links-IsPage (pos 1) _ _ three-top
