-- ===== src/Tests/Routes.antt =====
-- Addresses of the site, reversed and resolved.
use tucano.Prelude.{ℕ, ◌≡◌, refl, Bool, false, some, none, String, codes, List, [], ◌∷◌, ◌++◌}
use tucano.Routes.Patterns.{compile, fits, spell}
use tucano.Routes.Numbers.{to_url, digits, is_digit, read_int, read_more}
use tucano.Routes.Urls.{UrlPattern, path, find, view_match, urlpatterns, reverse, resolve}
use tucano.Routes.Laws.{resolve-reverse}

abbrev has_route : String → List ℕ → Bool
has_route name path = false

abbrev select_page : UrlPattern
select_page = record {
  route =
      compile false (codes "chamados/") ++ compile false (codes "interesse/<int:pk>/selecionar/");
  view = "SelectInterestView";
  name = "requests:interest-select";
}

found : find urlpatterns "requests:interest-select" ≡ some select_page
unfolding find urlpatterns
found = refl

resolve-reverse_example :
    (s : List ℕ) × (reverse urlpatterns "requests:interest-select" (205 ∷ []) ≡ some s)
    × (resolve has_route urlpatterns s ≡ some (view_match "SelectInterestView" (205 ∷ [])))
unfolding compile
resolve-reverse_example =
    resolve-reverse has_route "requests:interest-select" select_page (205 ∷ []) found refl

-- What the browser sends when the client presses the button.
selected :
    reverse urlpatterns "requests:interest-select" (205 ∷ [])
    ≡ some (codes "chamados/interesse/205/selecionar/")
unfolding reverse find urlpatterns compile spell to_url digits
selected = refl

-- A number with leading zeros names the same call.
zeros :
    resolve has_route urlpatterns (codes "chamados/007/")
    ≡ some (view_match "ServiceRequestDetailView" (7 ∷ []))
unfolding resolve urlpatterns compile fits read_int read_more is_digit
zeros = refl

nowhere : resolve has_route urlpatterns (codes "chamados/abc/") ≡ none
unfolding resolve urlpatterns compile fits read_int read_more is_digit
nowhere = refl
