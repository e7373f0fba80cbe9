-- ===== src/Directive/Policy/Hosts.antt =====
-- internal/directive/policy.go: which hosts of `X-Tip-Proxy` a policy allows, and which policies there are.
use tls_impersonate_proxy.Base.{
  ◌≡◌, refl, ◌≢◌, ◌⊎◌, ◌↔◌, inl, inr, Bool, true, false, ◌&&◌, ◌||◌, Option, some, List, [], ◌∷◌,
  ◌++◌, map, arith, is_nil, any, and-eq-true, Bool-cases, Option-cases, List-cases, All, Has,
  append_assoc, append-nil, ◌∙◌, sym,
}
use tls_impersonate_proxy.Text.{
  Text, text, text_eq, text_eq_iff, lower, trim_space, cut_prefix, cut_prefix_sound, has_prefix,
  has_suffix, has_suffix_sound, has_suffix-append,
}
use tls_impersonate_proxy.Net.{Url}
use tls_impersonate_proxy.Directive.Policy.{
  Policy, Made, Made-cases, split_pattern, drop_first, pattern_allows, is_no_pattern, add_patterns,
  default_proxy, proxy_allowed, proxy_hosts,
}

-- The host is the pattern's, or ends in what follows the star of a `*.suffix` pattern, the dot included.
abbrev pub HostMatches : Text → Text → Type 0
HostMatches host name =
    (host ≡ name)
    ⊎ ((suffix label : Text) × (host ≡ text "*." ++ suffix)
        × (name ≡ label ++ (text "." ++ suffix)))

-- The pattern has no port, or the proxy's.
abbrev pub PatternMatches : Text → Text → Text → Type 0
PatternMatches pattern name port =
    (((split_pattern pattern).1 ≡ []) ⊎ ((split_pattern pattern).1 ≡ port))
    × HostMatches (split_pattern pattern).0 name

abbrev wildcard : Text → Text → Bool
wildcard host name = has_prefix (text "*.") host && has_suffix (drop_first host) name

wildcard_prefix :
    (host : Text)
    → has_prefix (text "*.") host ≡ true
    → (suffix : Text) × (host ≡ text "*." ++ suffix)
wildcard_prefix host h = elim (Option-cases (cut_prefix (text "*.") host)) [
  | inl none_left ↦ absurd (ground arith)
  | inr (suffix, e) ↦ (suffix, cut_prefix_sound (text "*.") host suffix e)
]

wildcard-append :
    (suffix label : Text) → wildcard (text "*." ++ suffix) (label ++ (text "." ++ suffix)) ≡ true
unfolding cut_prefix
wildcard-append suffix label = ground (arith, has_suffix-append label (text "." ++ suffix))

wildcard_iff :
    (host name : Text)
    → (wildcard host name ≡ true) ↔ (
        (suffix label : Text) × (host ≡ text "*." ++ suffix)
        × (name ≡ label ++ (text "." ++ suffix)))
wildcard_iff host name = (
  λ h.
      let (suffix, e) =
        wildcard_prefix host
          (and-eq-true (has_prefix (text "*.") host) (has_suffix (drop_first host) name) h).0 in
      let (label, f) =
        has_suffix_sound (drop_first host) name
          (and-eq-true (has_prefix (text "*.") host) (has_suffix (drop_first host) name) h).1 in
      (suffix, label, e, rw e at f),
  λ (suffix, label, e, f). rw (e, f) (wildcard-append suffix label),
)

port_iff : (p port : Text) → ((is_nil p || text_eq p port) ≡ true) ↔ ((p ≡ []) ⊎ (p ≡ port))
port_iff [] port = (λ h. inl refl, λ a. refl)
port_iff (c ∷ p) port =
    (λ h. inr ((text_eq_iff (c ∷ p) port).0 h), λ a. ground (arith, text_eq_iff (c ∷ p) port))

host_iff :
    (host name : Text) → ((text_eq host name || wildcard host name) ≡ true) ↔ HostMatches host name
host_iff host name = elim (Bool-cases (text_eq host name)) [
  | inl same ↦ (λ h. inl ((text_eq_iff host name).0 same), λ a. rw same refl)
  | inr other ↦ (
    λ h. inr ((wildcard_iff host name).0 (rw other at h)),
    λ a. elim a [
      | inl same ↦ absurd (ground (arith, text_eq_iff host name))
      | inr suffixed ↦ rw other ((wildcard_iff host name).1 suffixed)
    ],
  )
]

pattern_allows_iff :
    (pattern name port : Text)
    → (pattern_allows pattern name port ≡ true) ↔ PatternMatches pattern name port
unfolding pattern_allows
pattern_allows_iff pattern name port =
    let (host, p) = split_pattern pattern in
    (
      λ h.
          let (a, b) =
            and-eq-true (is_nil p || text_eq p port) (text_eq host name || wildcard host name) h in
          ((port_iff p port).0 a, (host_iff host name).0 b),
      λ (a, b). rw ((port_iff p port).1 a, (host_iff host name).1 b) refl,
    )

any_iff {ℓ} :
    {A : Type ℓ} (test : A → Bool) (P : A → Type 0)
    → ((a : A) → (test a ≡ true) ↔ P a)
    → (xs : List A) → (any test xs ≡ true) ↔ Has P xs
any_iff test P h [] = (λ e. ground arith, λ e. absurd e)
any_iff test P h (x ∷ xs) = elim (Bool-cases (test x)) [
  | inl holds ↦ (λ e. inl ((h x).0 holds), λ e. rw holds refl)
  | inr fails ↦ (
    λ e. inr ((any_iff test P h xs).0 (rw fails at e)),
    λ e. elim e [
      | inl here ↦ absurd (ground (arith, (h x).1 here))
      | inr later ↦ rw fails ((any_iff test P h xs).1 later)
    ],
  )
]

-- With host patterns, an upstream proxy is allowed exactly if its address parses and some pattern fits it:
-- the pattern has no port or the proxy's, and its host is the proxy's, in lower case, or is `*.suffix` where
-- the proxy's host ends in `.suffix`.
pub proxy_allowed_iff :
    (url_parse : Text → Option Url) (p : Policy) (raw : Text)
    → p.proxy_hosts ≢ []
    → (proxy_allowed url_parse p raw ≡ true) ↔ (
        (u : Url) × (url_parse raw ≡ some u)
        × Has (λ pattern. PatternMatches pattern (lower u.hostname) u.port) p.proxy_hosts)
unfolding proxy_allowed
proxy_allowed_iff url_parse p raw n = elim (List-cases p.proxy_hosts) [
  | inl none_left ↦ absurd (n none_left)
  | inr (h, hs, listed) ↦ elim (Option-cases (url_parse raw)) [
    | inl bad ↦ (λ e. absurd (ground arith), λ (u, e, m). absurd (ground arith))
    | inr (u, good) ↦
        let allows =
          any_iff (λ pattern. pattern_allows pattern (lower u.hostname) u.port)
            (λ pattern. PatternMatches pattern (lower u.hostname) u.port)
            (λ pattern. pattern_allows_iff pattern (lower u.hostname) u.port) in
        let hosts = p.proxy_hosts in
        let step : proxy_allowed url_parse p raw
            ≡ any (λ pattern. pattern_allows pattern (lower u.hostname) u.port) hosts =
          ground arith in
        (
          λ e. (u, good, (allows hosts).0 (sym step ∙ e)),
          λ (v, e, m). let same : v ≡ u = ground arith in step ∙ (allows hosts).1 (rw same at m),
        )
  ]
]

abbrev pub pattern_of : Text → Text
pattern_of raw = lower (trim_space raw)

add_patterns-ok :
    (raws patterns out : List Text)
    → add_patterns raws patterns ≡ Made.ok out
    → (out ≡ patterns ++ map pattern_of raws)
      × All (λ raw. is_no_pattern (pattern_of raw) ≡ false) raws
unfolding add_patterns
add_patterns-ok [] patterns out h = (ground (arith, append-nil patterns), tt)
add_patterns-ok (raw ∷ raws) patterns out h = elim (Bool-cases (is_no_pattern (pattern_of raw))) [
  | inl bad ↦ absurd (ground arith)
  | inr fine ↦
      let (e, rest) = add_patterns-ok raws (patterns ++ pattern_of raw ∷ []) out (rw fine at h) in
      (e ∙ append_assoc patterns (pattern_of raw ∷ []) (map pattern_of raws), (fine, rest))
]

-- A policy that `ProxyHosts` accepts holds each given pattern, trimmed and in lower case, none of them
-- empty or with a slash, an `@`, a space or a tab; its default proxy, if it has one, is allowed by those
-- patterns; and nothing else of the policy has changed.
pub proxy_hosts-ok :
    (url_parse : Text → Option Url) (p q : Policy) (raws : List Text)
    → proxy_hosts url_parse p raws ≡ Made.ok q
    → (q.proxy_hosts ≡ map pattern_of raws)
      × All (λ raw. is_no_pattern (pattern_of raw) ≡ false) raws
      × ((def : Text) → default_proxy p ≡ some def → proxy_allowed url_parse q def ≡ true)
      × (record q { proxy_hosts = p.proxy_hosts } ≡ p)
unfolding proxy_hosts default_proxy
proxy_hosts-ok url_parse p q raws h = elim (Made-cases (add_patterns raws [])) [
  | inr (e, f) ↦ absurd (ground arith)
  | inl (patterns, f) ↦
      let (same, fine) = add_patterns-ok raws [] patterns f in
      elim (Option-cases (default_proxy p)) [
        | inl none_left ↦
            let e : record p { proxy_hosts = patterns } ≡ q = ground arith in
            rw (← e) (same, fine, λ def g. absurd (ground arith), refl)
        | inr (def, given) ↦
            elim (Bool-cases (proxy_allowed url_parse (record p { proxy_hosts = patterns }) def)) [
              | inr refused ↦ absurd (ground arith)
              | inl passes ↦
                  let e : record p { proxy_hosts = patterns } ≡ q = ground arith in
                  rw (← e) (
                    same,
                    fine,
                    λ def' g. (let k : def ≡ def' = ground arith in rw (← k) passes),
                    refl,
                  )
            ]
      ]
]
