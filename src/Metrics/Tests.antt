-- ===== src/Metrics/Tests.antt =====
-- Runs of the route matcher, and the theorems at a concrete table.
use tls_impersonate_proxy.Base.{◌≡◌, ◌↔◌, refl, some, List, [], ◌∷◌, All}
use tls_impersonate_proxy.Text.{
  Text, text, text_eq, contains_text, In, lower, split, cut, cut_prefix, has_suffix, text_le,
}
use tls_impersonate_proxy.Metrics.Routes.{
  Route, Matcher, RouteError, ok, err, new_matcher, compile, match, match_path,
}
use tls_impersonate_proxy.Metrics.Routes.Laws.{Fits, match_path_iff}
use tls_impersonate_proxy.Metrics.Routes.Tables.{new_matcher-match-LabelsIn}

program : Unit {0}
unfolding text_eq contains_text lower split cut cut_prefix has_suffix text_le new_matcher compile
    match match_path
program = tt

abbrev user : Route
user = record {
  name = text "user";
  host = text "*.Example.com";
  path = text "/api/user:id/*";
  capture = text "id" ∷ [];
}

abbrev table : Matcher
table = record {
  routes =
      record {
        name = text "user";
        host = text "*.example.com";
        segments = text "api" ∷ text "user:id" ∷ text "*" ∷ [];
        capture = text "id" ∷ [];
      }
      ∷ [];
  captures = text "id" ∷ [];
}

table_lem : new_matcher (user ∷ []) ≡ ok table
unfolding program
table_lem = refl

match_tests :
    (match table (text "a.EXAMPLE.com") (text "/api/user42/x/y")
      ≡ (text "user", (text "id", text "42") ∷ []))
    × (match table (text "example.com") (text "/api/user42/x") ≡ ([], []))
    × (match table (text "a.example.com") (text "/api/user/x") ≡ ([], []))
    × (new_matcher (record user { path = text "/*/x" } ∷ [])
        ≡ err (RouteError.star_not_last (text "user")))
unfolding program
match_tests = (refl, refl, refl, refl)

match_path_iff_example :
    ((labels : List (Text × Text)) × (match_path (compile user) (text "api" ∷ text "user7" ∷ [])
        ≡ some labels))
    ↔ Fits (compile user).segments (text "api" ∷ text "user7" ∷ [])
match_path_iff_example = match_path_iff (compile user) (text "api" ∷ text "user7" ∷ [])

new_matcher-match_example :
    All (λ l. In table.captures l.0) (match table (text "a.example.com") (text "/api/user42/")).1
new_matcher-match_example =
    new_matcher-match-LabelsIn (user ∷ []) table (text "a.example.com") (text "/api/user42/")
      table_lem
