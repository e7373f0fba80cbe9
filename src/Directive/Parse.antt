-- ===== src/Directive/Parse.antt =====
-- internal/directive/parse.go: from the headers of a request to its directive, or to the issues.
-- A header gives each name at least one value, as net/http's do. `http.ParseCookie`, `url.Parse` and
-- the schema's `Parse` (zog) are arguments.
pub mod Strip
pub mod Admits
pub mod Refusals
pub mod Ordered
use tls_impersonate_proxy.Base.{
  ◌≡◌, refl, ◌⊎◌, inl, inr, ℕ, zero, suc, Bool, true, false, not, ◌&&◌, ◌||◌, Option, none, some,
  List, [], ◌∷◌, ◌++◌, map, is_nil, is_some, keep, if◌then◌else◌,
}
use tls_impersonate_proxy.Text.{
  Text, text, text_eq, contains_text, lower, equal_fold, trim_space, trim_string, split, join,
  has_prefix, cut_prefix,
}
use tls_impersonate_proxy.Assoc.{lookup, put, has_key}
use tls_impersonate_proxy.Net.{Url}
use tls_impersonate_proxy.Directive.Types.{Directive, zero_directive, Issue}
use tls_impersonate_proxy.Directive.Names.{Shape, shape_of, kv_keys, is_known, official_name}
use tls_impersonate_proxy.Directive.Policy.{Policy, Shaped, denied, host_message, proxy_allowed}

pub record Values : Type 0 where
  pub first : Text
  pub rest : List Text

abbrev pub Header : Type 0
Header = List (Text × Values)

-- A result, or the text of an error.
pub data Outcome {ℓ} (A : Type ℓ) : Type ℓ where
  ok : A → Outcome A
  err : Text → Outcome A

pub Outcome-cases {ℓ} :
    {A : Type ℓ} (o : Outcome A)
    → ((a : A) × (o ≡ Outcome.ok a)) ⊎ ((m : Text) × (o ≡ Outcome.err m))
Outcome-cases (Outcome.ok a) = inl (a, refl)
Outcome-cases (Outcome.err m) = inr (m, refl)

pub record ZogIssue : Type 0 where
  pub path : List Text
  pub message : Text

-- What the package calls and does not implement.
pub record Library : Type 0 where
  pub parse_cookie : Text → Outcome (List (Text × Text))
  pub url_parse : Text → Option Url
  pub schema_parse : List (Text × Shaped) → Directive × List ZogIssue

abbrev pub prefix : Text
prefix = text "X-Tip-"

-- `name[:n]` and `name[n:]`, where `name` may be shorter.
unfoldable pub take : ℕ → Text → Text
take zero s = []
take (suc n) [] = []
take (suc n) (c ∷ s) = c ∷ take n s

unfoldable pub drop : ℕ → Text → Text
drop zero s = s
drop (suc n) [] = []
drop (suc n) (c ∷ s) = drop n s

-- `hasPrefix`: a shorter name is cut to itself, which is not the prefix.
unfoldable pub is_prefixed : Text → Bool
unfolding take
is_prefixed name = equal_fold (take 6 name) prefix

-- `strings.ToLower(name[len(Prefix):])`
unfoldable pub key_of : Text → Text
unfolding drop
key_of name = lower (drop 6 name)

unfoldable pub split_list : Text → List Text
split_list raw = map (λ part. lower (trim_string part)) (split b',' raw)

abbrev values_list : Values → List Text
values_list v = v.first ∷ v.rest

module _ (lib : Library) where
  open lib use {parse_cookie, url_parse, schema_parse}

  -- The loop of `parsePairs`: the pairs and the order so far.
  unfoldable pub add_pairs :
      List Text → List (Text × Text) → List (Text × Text) → List Text → Outcome Shaped
  add_pairs allowed [] out order = Outcome.ok (Shaped.pairs out order)
  add_pairs allowed ((pair_name, value) ∷ pairs) out order =
      let name = lower pair_name in
      let rest = add_pairs allowed pairs (put name value out) (order ++ name ∷ []) in
      if not (contains_text allowed name)
      then Outcome.err (text "unknown key " ++ pair_name)
      else if has_key name out
      then Outcome.err (official_name name ++ text " given more than once")
      else rest

  unfoldable pub parse_pairs : Text → Text → Outcome Shaped
  parse_pairs key raw = elim (parse_cookie raw) [
    | Outcome.err e ↦ Outcome.err (text "must be Key=Value pairs separated by semicolons: " ++ e)
    | Outcome.ok cookies ↦ add_pairs (kv_keys key) cookies [] []
  ]

  unfoldable pub shape_value : Text → Values → Outcome Shaped
  shape_value key values = elim (shape_of key) [
    | Shape.list ↦
        let raw = join (text ",") (values_list values) in
        if is_nil (trim_space raw)
        then Outcome.err (text "must not be empty")
        else Outcome.ok (Shaped.list (split_list raw))
    | Shape.kv ↦ parse_pairs key (join (text ";") (values_list values))
    | Shape.scalar ↦
        if not (is_nil values.rest)
        then Outcome.err (text "sent more than once")
        else if is_nil (trim_space values.first)
        then Outcome.err (text "must not be empty")
        else Outcome.ok (Shaped.scalar values.first)
  ]

  -- What one header is to the loop of `Parse`.
  pub data Verdict : Type 0 where
    other : Verdict
    refused : Issue → Verdict
    accepted : Text → Shaped → Verdict

  unfoldable pub read_header : Policy → Text × Values → Verdict
  read_header p (name, values) =
      if not (is_prefixed name)
      then Verdict.other
      else let key = key_of name in
        if not (is_known key)
        then Verdict.refused (record { path = name; message = text "unknown directive" })
        else if denied p key
        then Verdict.refused
            (record { path = official_name key; message = text "not permitted by this proxy" })
        else (elim (shape_value key values) [
          | Outcome.err e ↦ Verdict.refused (record { path = official_name key; message = e })
          | Outcome.ok shaped ↦ Verdict.accepted key shaped
        ])

  -- The loop of `Parse` over the headers.
  unfoldable pub read_headers :
      Policy → Header → List (Text × Shaped) → List Issue → List (Text × Shaped) × List Issue
  read_headers p [] req issues = (req, issues)
  read_headers p (h ∷ hs) req issues = elim (read_header p h) [
    | Verdict.other ↦ read_headers p hs req issues
    | Verdict.refused i ↦ read_headers p hs req (issues ++ i ∷ [])
    | Verdict.accepted key shaped ↦ read_headers p hs (put key shaped req) issues
  ]

-- `displaced`: does the request name the directive, or one of the other identity group?
unfoldable pub displaced {ℓ} : {V : Type ℓ} → List (Text × V) → Text → Bool
displaced req key =
    if has_key key req
    then true
    else if text_eq key (text "browser") || text_eq key (text "os") || text_eq key (text "match")
    then has_key (text "profile") req
    else if text_eq key (text "profile")
    then has_key (text "browser") req || has_key (text "os") req || has_key (text "match") req
    else false

-- The defaults that the request leaves, and `maps.Copy` of the request over them.
unfoldable pub kept_defaults {ℓ} :
    {V : Type ℓ} → List (Text × V) → List (Text × V) → List (Text × V)
kept_defaults req [] = []
kept_defaults req ((k, v) ∷ defaults) =
    let rest = kept_defaults req defaults in if displaced req k then rest else put k v rest

unfoldable pub copy {ℓ} : {V : Type ℓ} → List (Text × V) → List (Text × V) → List (Text × V)
copy [] into = into
copy ((k, v) ∷ src) into = put k v (copy src into)

unfoldable pub merge {ℓ} : {V : Type ℓ} → List (Text × V) → List (Text × V) → List (Text × V)
unfolding kept_defaults copy displaced
merge defaults req = copy req (kept_defaults req defaults)

-- The loop of `renderPath`: the text so far.
unfoldable pub render_from : Text → List Text → Text
render_from b [] = b
render_from b (segment ∷ path) =
    render_from
      (if has_prefix (text "[") segment
        then b ++ segment
        else (if is_nil b then official_name segment else b ++ (text "." ++ official_name segment)))
      path

unfoldable pub from_zog : List ZogIssue → List Issue
unfolding render_from
from_zog list = map (λ z. record { path = render_from [] z.path; message = z.message }) list

unfoldable pub keys {ℓ} : {V : Type ℓ} → List (Text × V) → List Text
keys [] = []
keys ((k, v) ∷ m) = k ∷ keys m

module _ (lib : Library) where
  open lib use {parse_cookie, url_parse, schema_parse}

  -- The two checks of `Proxy` behind the schema.
  unfoldable pub proxy_issues : Policy → Directive → List Issue
  proxy_issues p d =
      (if is_nil d.proxy && p.require_proxy
        then record { path = text "Proxy"; message = text "required by this proxy" } ∷ []
        else [])
      ++ (if not (is_nil d.proxy) && not (proxy_allowed url_parse p d.proxy)
          then record { path = text "Proxy"; message = host_message p } ∷ []
          else [])

  -- The end of `Parse`, from the request's directives and the issues of its headers.
  unfoldable pub finish : Policy → List (Text × Shaped) → List Issue → Directive × List Issue
  finish p req issues =
      let (d, found) = schema_parse (merge p.defaults req) in
      let issues' = issues ++ from_zog found in
      if not (is_nil issues')
      then (zero_directive, issues')
      else if not (is_nil (proxy_issues p d))
      then (zero_directive, proxy_issues p d)
      else (record d { from_request = keys req }, [])

  unfoldable pub parse : Header → Policy → Directive × List Issue
  parse h p = let (req, issues) = read_headers lib p h [] [] in finish p req issues

-- `Strip`
unfoldable pub strip {ℓ} : {V : Type ℓ} → List (Text × V) → List (Text × V)
unfolding is_prefixed
strip [] = []
strip ((name, v) ∷ h) = if is_prefixed name then strip h else (name, v) ∷ strip h
