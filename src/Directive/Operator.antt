-- ===== src/Directive/Operator.antt =====
-- internal/directive/policy.go: `NewPolicy`, from the operator's defaults and denials to a policy.
use tls_impersonate_proxy.Base.{
  ◌≡◌, refl, inl, inr, true, false, not, ◌||◌, none, some, List, [], ◌∷◌, ◌++◌, map, arith, is_nil,
  if◌then◌else◌, Bool-cases, List-cases, All, ap,
}
use tls_impersonate_proxy.Text.{Text, text_eq, contains_text, lower, trim_space}
use tls_impersonate_proxy.Assoc.{lookup, put}
use tls_impersonate_proxy.Http.{canonical}
use tls_impersonate_proxy.Directive.Types.{Issue}
use tls_impersonate_proxy.Directive.Names.{is_known}
use tls_impersonate_proxy.Directive.Policy.{Policy, Shaped, Made, Made-cases, PolicyError, denied}
use tls_impersonate_proxy.Directive.Parse.{
  Header, Outcome, Library, prefix, is_prefixed, key_of, drop, shape_value, parse,
}
use tls_impersonate_proxy.Directive.Parse.Admits.{IsAdmitted, parse-IsAdmitted}

unfoldable pub deny_key : Text → Text
deny_key name = let key = lower (trim_space name) in if is_prefixed key then drop 6 key else key

-- The loop over `deny`: the keys so far.
unfoldable pub add_denied : List Text → List Text → Made (List Text)
add_denied [] keys = Made.ok keys
add_denied (name ∷ names) keys =
    let rest = add_denied names (keys ++ deny_key name ∷ []) in
    if is_known (deny_key name) then rest else Made.err (PolicyError.unknown_deny name)

-- `h.Add`
unfoldable pub add_value : Text → Text → Header → Header
add_value name value h = elim (lookup (canonical name) h) [
  | none ↦ put (canonical name) (record { first = value; rest = [] }) h
  | some v ↦ put (canonical name) (record v { rest = v.rest ++ value ∷ [] }) h
]

unfoldable pub default_header : List (Text × Text) → Header → Header
default_header [] h = h
default_header ((name, value) ∷ defaults) h =
    let trimmed = trim_space name in
    default_header defaults
      (add_value (if is_prefixed trimmed then trimmed else prefix ++ trimmed) (trim_space value) h)

abbrev pub no_policy : Policy
no_policy = record { defaults = []; deny = []; proxy_hosts = []; require_proxy = false }

module _ (lib : Library) where
  -- The last loop. Every value has its shape there, since `Parse` has accepted it.
  unfoldable pub shape_defaults : Header → List (Text × Shaped) → List (Text × Shaped)
  shape_defaults [] defaults = defaults
  shape_defaults ((name, values) ∷ h) defaults = elim (shape_value lib (key_of name) values) [
    | Outcome.err e ↦ shape_defaults h defaults
    | Outcome.ok shaped ↦ shape_defaults h (put (key_of name) shaped defaults)
  ]

  unfoldable pub new_policy : List (Text × Text) → List Text → Made Policy
  new_policy defaults deny = elim (add_denied deny []) [
    | Made.err e ↦ Made.err e
    | Made.ok keys ↦
        let h = default_header defaults [] in
        let (d, issues) = parse lib h no_policy in
        if not (is_nil issues)
        then Made.err (PolicyError.bad_defaults issues)
        else Made.ok (record {
          defaults = shape_defaults h [];
          deny = keys;
          proxy_hosts = [];
          require_proxy = false;
        })
  ]

In-append :
    (xs : List Text) (y t : Text)
    → (contains_text (xs ++ y ∷ []) t) ≡ (contains_text xs t || text_eq y t)
unfolding contains_text
In-append [] y t = ground arith
In-append (x ∷ xs) y t = ground (arith, In-append xs y t)

add_denied-ok :
    (names keys out : List Text)
    → add_denied names keys ≡ Made.ok out
    → ((t : Text)
        → contains_text out t ≡ (contains_text keys t || contains_text (map deny_key names) t))
      × All (λ name. is_known (deny_key name) ≡ true) names
unfolding add_denied contains_text
add_denied-ok [] keys out h = (λ t. ground arith, tt)
add_denied-ok (name ∷ names) keys out h = elim (Bool-cases (is_known (deny_key name))) [
  | inr unknown ↦ absurd (ground arith)
  | inl known ↦
      let (same, all) = add_denied-ok names (keys ++ deny_key name ∷ []) out (rw known at h) in
      (λ t. ground (arith, same t, In-append keys (deny_key name) t), (known, all))
]

-- A policy that `NewPolicy` makes denies exactly the directives that the operator names, each of them known,
-- with or without the prefix and in any case; each default names a known directive with a value of its
-- shape; and any proxy is allowed and none required, until the operator says otherwise.
pub new_policy-ok :
    (lib : Library) (defaults : List (Text × Text)) (deny : List Text) (p : Policy)
    → new_policy lib defaults deny ≡ Made.ok p
    → ((key : Text) → denied p key ≡ contains_text (map deny_key deny) key)
      × All (λ name. is_known (deny_key name) ≡ true) deny
      × All (IsAdmitted lib no_policy) (default_header defaults [])
      × (p.proxy_hosts ≡ [])
      × (p.require_proxy ≡ false)
unfolding new_policy denied
new_policy-ok lib defaults deny p h = elim (Made-cases (add_denied deny [])) [
  | inr (e, f) ↦ absurd (ground arith)
  | inl (keys, f) ↦
      let (same, known) = add_denied-ok deny [] keys f in
      let head = default_header defaults [] in
      elim (List-cases (parse lib head no_policy).1) [
        | inr (i, is, found) ↦ absurd (ground arith)
        | inl clean ↦
            let made : record {
              defaults = shape_defaults lib head [];
              deny = keys;
              proxy_hosts = [];
              require_proxy = false;
            }
                ≡ p =
              ground arith in
            let parsed : parse lib head no_policy ≡ ((parse lib head no_policy).0, []) =
              ap (λ (is : List Issue). ((parse lib head no_policy).0, is)) clean in
            let admitted =
              (parse-IsAdmitted lib head no_policy (parse lib head no_policy).0 parsed).0 in
            rw (← made) ((λ key. unfold contains_text in same key), known, admitted, refl, refl)
      ]
]
