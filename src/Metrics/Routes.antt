-- ===== src/Metrics/Routes.antt =====
-- internal/metrics/routes.go: the route table behind the `route` label of every metric.
-- A Go map from names to values is an association list; assignment replaces an entry in place.
pub mod Laws
pub mod Tables
use tls_impersonate_proxy.Base.{
  ℕ, suc, ◌≡◌, refl, Bool, true, false, not, ◌&&◌, Option, none, some, List, [], ◌∷◌, ◌++◌, is_nil,
  if◌then◌else◌, leb, ltb, ◌==◌, map, any,
}
use tls_impersonate_proxy.Text.{
  Text, text, text_eq, contains_text, lower, split, cut, cut_prefix, has_suffix, text_le,
}

pub record Route : Type 0 where
  pub name : Text
  pub host : Text
  pub path : Text
  pub capture : List Text

-- The unexported `route`: `capture` is the set of its true keys.
pub record Compiled : Type 0 where
  pub name : Text
  pub host : Text
  pub segments : List Text
  pub capture : List Text

pub record Matcher : Type 0 where
  pub routes : List Compiled
  pub captures : List Text

pub data RouteError : Type 0 where
  star_not_last : Text → RouteError
  not_a_parameter : Text → Text → RouteError

-- What `NewMatcher` returns: its error, or a value.
pub data Checked {ℓ} (A : Type ℓ) : Type ℓ where
  err : RouteError → Checked A
  ok : A → Checked A

infixl 5 ◌>>=◌
abbrev pub ◌>>=◌ {ℓ ℓ'} : {X : Type ℓ} {Y : Type ℓ'} → Checked X → (X → Checked Y) → Checked Y
err found >>= next = err found
ok x >>= next = next x

-- A chain that ends well has passed its first check.
pub >>=-inv {ℓ ℓ'} :
    {X : Type ℓ} {Y : Type ℓ'} (check : Checked X) (next : X → Checked Y) {y : Y}
    → check >>= next ≡ ok y
    → (x : X) × (next x ≡ ok y) × (check ≡ ok x)
>>=-inv (err found) next passed = cc
>>=-inv (ok x) next passed = (x, passed, refl)

abbrev pub trim_slash : Text → Text
trim_slash path = elim (cut_prefix (text "/") path) [ none ↦ path | some rest ↦ rest ]

-- The segments of a path, as both `NewMatcher` and `Match` cut it.
abbrev pub segments_of : Text → List Text
segments_of path = split b'/' (trim_slash path)

-- The parameter that a segment names, if it is one.
abbrev add_param : Text → List Text → List Text
add_param segment params = elim (cut b':' segment) [
  | none ↦ params
  | some (_, name) ↦ name ∷ params
]

-- The loop over a new route's segments: `*` stands last or not at all; the parameters' names.
unfoldable pub params_of : Text → List Text → List Text → Checked (List Text)
params_of route [] params = ok params
params_of route (s ∷ rest) params =
    let next = params_of route rest (add_param s params) in
    if text_eq s (text "*") && not (is_nil rest) then err (star_not_last route) else next

-- `seen`, `m.captures` and the route's own capture set, extended by each name that it captures.
unfoldable pub add_captures : Text → List Text → List Text → List Text → Checked (List Text)
add_captures route params [] captures = ok captures
add_captures route params (name ∷ names) captures =
    let next =
      add_captures route params names
        (if contains_text captures name then captures else captures ++ name ∷ []) in
    if contains_text params name then next else err (not_a_parameter route name)

unfoldable pub compile : Route → Compiled
compile r = record {
  name = r.name;
  host = lower r.host;
  segments = segments_of r.path;
  capture = r.capture;
}

-- The loop of `NewMatcher` over the configured routes.
unfoldable pub add_routes : List Route → List Compiled → List Text → Checked Matcher
unfolding params_of add_captures compile
add_routes [] routes captures = ok (record { routes = routes; captures = captures })
add_routes (r ∷ rs) routes captures = do
  params ← params_of r.name (segments_of r.path) []
  captures' ← add_captures r.name params r.capture captures
  add_routes rs (routes ++ compile r ∷ []) captures'

-- `slices.Sort`
unfoldable pub insert_sorted : Text → List Text → List Text
insert_sorted t [] = t ∷ []
insert_sorted t (s ∷ ss) = if text_le t s then t ∷ s ∷ ss else s ∷ insert_sorted t ss

unfoldable pub sort : List Text → List Text
unfolding insert_sorted
sort [] = []
sort (t ∷ ts) = insert_sorted t (sort ts)

unfoldable pub new_matcher : List Route → Checked Matcher
unfolding add_routes sort
new_matcher routes = do m ← add_routes routes [] []; ok (record m { captures = sort m.captures })

-- `labels[name] = value`
unfoldable pub put : Text → Text → List (Text × Text) → List (Text × Text)
put k v [] = (k, v) ∷ []
put k v ((j, w) ∷ m) = if text_eq j k then (k, v) ∷ m else (j, w) ∷ put k v m

unfoldable pub match_host : Text → Text → Bool
match_host pattern host = elim (cut_prefix (text "*.") pattern) [
  | none ↦ text_eq pattern host
  | some suffix ↦ has_suffix (text "." ++ suffix) host
]

abbrev add_label : List Text → Text → Text → List (Text × Text) → List (Text × Text)
add_label capture name value labels =
    if contains_text capture name then put name value labels else labels

-- What one segment that is not `*` does to the labels; `none` where it does not match.
unfoldable pub match_segment :
    List Text → Text → Text → List (Text × Text) → Option (List (Text × Text))
unfolding put
match_segment capture pattern segment labels = elim (cut b':' pattern) [
  | none ↦ if text_eq pattern segment then some labels else none
  | some (prefix, name) ↦ elim (cut_prefix prefix segment) [
    | none ↦ none
    | some value ↦ if is_nil value then none else some (add_label capture name value labels)
  ]
]

-- The loop of `matchPath`.
unfoldable pub match_from :
    List Text → List Text → List Text → List (Text × Text) → Option (List (Text × Text))
match_from capture [] segments labels = if is_nil segments then some labels else none
match_from capture (p ∷ ps) [] labels = if text_eq p (text "*") then some labels else none
match_from capture (p ∷ ps) (s ∷ ss) labels =
    if text_eq p (text "*")
    then some labels
    else if is_nil s
    then none
    else elim (match_segment capture p s labels) [
      | none ↦ none
      | some labels' ↦ match_from capture ps ss labels'
    ]

unfoldable pub match_path : Compiled → List Text → Option (List (Text × Text))
unfolding match_from match_segment
match_path r segments = match_from r.capture r.segments segments []

-- The loop of `Match`; no route is the empty name and a nil map.
unfoldable pub match_routes : List Compiled → Text → List Text → Text × List (Text × Text)
unfolding match_host match_path
match_routes [] host segments = ([], [])
match_routes (r ∷ rs) host segments =
    let later = match_routes rs host segments in
    if match_host r.host host
    then elim (match_path r segments) [ none ↦ later | some labels ↦ (r.name, labels) ]
    else later

unfoldable pub match : Matcher → Text → Text → Text × List (Text × Text)
unfolding match_routes
match m host path = match_routes m.routes (lower host) (segments_of path)
