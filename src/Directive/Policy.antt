-- ===== src/Directive/Policy.antt =====
-- internal/directive/policy.go: what the configuration allows of the directives.
pub mod Hosts
use tls_impersonate_proxy.Base.{
  ◌≡◌, refl, ◌⊎◌, inl, inr, ℕ, Bool, true, false, not, ◌&&◌, ◌||◌, Option, none, some, List, [],
  ◌∷◌, ◌++◌, is_nil, any, if◌then◌else◌, is_some, ◌==◌,
}
use tls_impersonate_proxy.Text.{
  Text, text, text_eq, contains_text, lower, trim_space, trim, has_prefix, has_suffix, join,
}
use tls_impersonate_proxy.Assoc.{lookup}
use tls_impersonate_proxy.Directive.Types.{Issue}
use tls_impersonate_proxy.Net.{Url, split_host_port, has_char}

-- `any`, as `shapeValue` makes it: a text, a list, or pairs with the order of their names.
pub data Shaped : Type 0 where
  scalar : Text → Shaped
  list : List Text → Shaped
  pairs : List (Text × Text) → List Text → Shaped

pub record Policy : Type 0 where
  pub defaults : List (Text × Shaped)
  pub deny : List Text
  pub proxy_hosts : List Text
  pub require_proxy : Bool

-- The errors of `NewPolicy`, `ProxyHosts` and `RequireProxy`, with what their texts name.
pub data PolicyError : Type 0 where
  unknown_deny : Text → PolicyError
  bad_defaults : List Issue → PolicyError
  bad_pattern : Text → PolicyError
  default_refused : Text → PolicyError
  nothing_passes : PolicyError

pub data Made {ℓ} (A : Type ℓ) : Type ℓ where
  ok : A → Made A
  err : PolicyError → Made A

pub Made-cases {ℓ} :
    {A : Type ℓ} (m : Made A) → ((a : A) × (m ≡ Made.ok a)) ⊎ ((e : PolicyError) × (m ≡ Made.err e))
Made-cases (Made.ok a) = inl (a, refl)
Made-cases (Made.err e) = inr (e, refl)

unfoldable pub denied : Policy → Text → Bool
denied p key = contains_text p.deny key

unfoldable pub host_message : Policy → Text
host_message p = text "host must be one of " ++ join (text ", ") p.proxy_hosts

-- `strings.Trim(pattern, "[]")`
unfoldable pub is_bracket : ℕ → Bool
is_bracket c = c == b'[' || c == b']'

unfoldable pub split_pattern : Text → Text × Text
unfolding split_host_port trim is_bracket
split_pattern pattern = elim (split_host_port pattern) [
  | some (host, port) ↦ (host, port)
  | none ↦ (trim is_bracket pattern, [])
]

-- `host[1:]` of a host that begins with `*.`
abbrev pub drop_first : Text → Text
drop_first [] = []
drop_first (c ∷ s) = s

-- The test of one pattern against a host and a port.
unfoldable pub pattern_allows : Text → Text → Text → Bool
unfolding split_pattern
pattern_allows pattern name url_port =
    let (host, port) = split_pattern pattern in
    (is_nil port || text_eq port url_port)
    && (text_eq host name || (has_prefix (text "*.") host && has_suffix (drop_first host) name))

-- `strings.ContainsAny(pattern, "/@ \t")`
unfoldable pub is_no_pattern : Text → Bool
is_no_pattern pattern =
    is_nil pattern || any (λ c. c == b'/' || c == b'@' || c == 32 || c == 9) pattern

-- The loop of `ProxyHosts`: the patterns so far.
unfoldable pub add_patterns : List Text → List Text → Made (List Text)
unfolding trim_space is_no_pattern
add_patterns [] patterns = Made.ok patterns
add_patterns (raw ∷ raws) patterns =
    let pattern = lower (trim_space raw) in
    let rest = add_patterns raws (patterns ++ pattern ∷ []) in
    if is_no_pattern pattern then Made.err (bad_pattern raw) else rest

-- `p.defaults["proxy"].(string)`
unfoldable pub default_proxy : Policy → Option Text
default_proxy p = elim (lookup (text "proxy") p.defaults) [
  | some (Shaped.scalar t) ↦ some t
  | _ ↦ none
]

module _ (url_parse : Text → Option Url) where
  unfoldable pub proxy_allowed : Policy → Text → Bool
  unfolding pattern_allows
  proxy_allowed p raw = if is_nil p.proxy_hosts then true else elim (url_parse raw) [
    | none ↦ false
    | some u ↦ any (λ pattern. pattern_allows pattern (lower u.hostname) u.port) p.proxy_hosts
  ]

  unfoldable pub proxy_hosts : Policy → List Text → Made Policy
  proxy_hosts p raws = elim (add_patterns raws []) [
    | Made.err e ↦ Made.err e
    | Made.ok patterns ↦
        let q = record p { proxy_hosts = patterns } in
        elim (default_proxy q) [
          | none ↦ Made.ok q
          | some def ↦
              if proxy_allowed q def then Made.ok q else Made.err (default_refused (host_message q))
        ]
  ]

unfoldable pub require_proxy : Policy → Made Policy
unfolding denied
require_proxy p =
    if denied p (text "proxy") && not (is_some (lookup (text "proxy") p.defaults))
    then Made.err nothing_passes
    else Made.ok (record p { require_proxy = true })
