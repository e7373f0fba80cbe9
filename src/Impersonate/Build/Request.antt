-- ===== src/Impersonate/Build/Request.antt =====
-- internal/directive (`Parse`, `Resolve`, `Spec`) with internal/impersonate/build.go (`Build`): the spec
-- of a request that is accepted and resolved is one that `Build` does not panic on.
use tls_impersonate_proxy.Base.{
  ◌≡◌, refl, ◌≢◌, ◌⊎◌, inl, inr, true, Option, none, some, List, [], ◌∷◌, ◌++◌, arith, is_nil,
  is_some, Bool-cases, List-cases, Option-cases, ap, sym, subst, ◌∙◌,
}
use tls_impersonate_proxy.Text.{Text, text, text_eq, contains_text, lower, In}
use tls_impersonate_proxy.Assoc.{lookup, has_key, All-lookup}
use tls_impersonate_proxy.Net.{Url}
use tls_impersonate_proxy.Directive.Types.{
  Directive, Issue, Http3, Spec, spec_of, first_or_empty, spec_os,
}
use tls_impersonate_proxy.Directive.Names.{lowers}
use tls_impersonate_proxy.Directive.Policy.{Policy, Shaped}
use tls_impersonate_proxy.Directive.Parse
use tls_impersonate_proxy.Directive.Parse.{
  Header, ZogIssue, from_zog, merge, read_headers, finish, keys, proxy_issues, parse,
}
use tls_impersonate_proxy.Directive.Parse.Ordered.{
  AllOrdered, merge-AllOrdered, read_headers-AllOrdered,
}
use tls_impersonate_proxy.Directive.Resolve.{Picks, resolve, pool_of}
use tls_impersonate_proxy.Directive.Resolve.Laws.{
  InRange, resolve-IsResolved, resolve_any, resolve_empty, Fair,
}
use tls_impersonate_proxy.Directive.Schema.{
  official_presets, is_dns_over_tls, is_proxy_url, normal_proxy,
}
use tls_impersonate_proxy.Impersonate.Infer.{Family, family_map, families, oses_of}
use tls_impersonate_proxy.Impersonate.Build.{Options, Built, Library, BuiltClient, build, bad_url}
use tls_impersonate_proxy.Impersonate.Build.Presets.{all_keys_sound}
use tls_impersonate_proxy.Impersonate.Build.Ready.{
  HasMajor, IsPair, IsReady, IsGiven, Outcome, build-Outcome, client, proxy_over_http3,
  proxy_unread, surf_refused,
}

-- What zog promises of a directive without issues, field by field: an optional field is empty or has
-- passed its test, `Proxy` has been through its transform, and the settings of HTTP/3 hold the order
-- that the value gives and a number for each pair of the value that names a number.
module _ (url_parse : Text → Option Url) (url_string : Url → Text) where
  pub record IsTested (req : List (Text × Shaped)) (d : Directive) : Type 0 where
    pub preset : (d.ja ≡ []) ⊎ In (lowers official_presets) d.ja
    pub resolver : (d.dns_over_tls ≡ []) ⊎ (is_dns_over_tls d.dns_over_tls ≡ true)
    pub through :
        (d.proxy ≡ [])
        ⊎ ((raw : Text) × (is_proxy_url url_parse raw ≡ true)
            × (d.proxy ≡ normal_proxy url_parse url_string raw))
    pub http3 :
        (h : Http3)
        → d.http3_settings ≡ some h
        → (out : List (Text × Text)) × (lookup (text "http3settings") req
            ≡ some (Shaped.pairs out h.order))
          × ((key : Text) → has_key key out ≡ true → IsGiven h key)

from_zog-nil :
    (issues : List Issue) (found : List ZogIssue)
    → is_nil (issues ++ from_zog found) ≡ true
    → found ≡ []
unfolding from_zog
from_zog-nil [] [] h = refl
from_zog-nil [] (z ∷ zs) h = cc
from_zog-nil (i ∷ is) found h = cc

module _ (lib : Parse.Library) (p : Policy) where
  -- An accepted request has been through the schema without an issue.
  parse-schema :
      (h : Header) (d : Directive)
      → parse lib h p ≡ (d, [])
      → (d' : Directive) × (lib.schema_parse (merge p.defaults (read_headers lib p h [] []).0)
          ≡ (d', []))
        × (record d' { from_request = keys (read_headers lib p h [] []).0 } ≡ d)
  unfolding parse finish from_zog
  parse-schema h d e =
      let (req, issues) = read_headers lib p h [] [] in
      let (d', found) = lib.schema_parse (merge p.defaults req) in
      elim (Bool-cases (is_nil (issues ++ from_zog found))) [
        | inr some_issue ↦ absurd (ground arith)
        | inl clean ↦ elim (Bool-cases (is_nil (proxy_issues lib p d'))) [
          | inr refused ↦ absurd (ground arith)
          | inl passed ↦ (
            d',
            ap (λ (is : List ZogIssue). (d', is)) (from_zog-nil issues found clean),
            ground arith,
          )
        ]
      ]

is_family :
    (browser : Text) → In families browser → (f : Family) × (lookup browser family_map ≡ some f)
unfolding lookup contains_text text_eq
is_family browser i =
    found (lookup browser family_map) (all_keys_sound family_map families browser refl i)
  where
    found : (o : Option Family) → is_some o ≡ true → (f : Family) × (o ≡ some f)
    found none h = absurd (ground arith)
    found (some f) h = (f, refl)

named-IsPair :
    (b : Text) (bs os : List Text)
    → bs ≡ b ∷ []
    → In families b
    → (os ≡ []) ⊎ ((o : Text) × (os ≡ o ∷ []) × In (oses_of b) o)
    → IsPair (first_or_empty bs) (spec_os bs os)
unfolding oses_of
named-IsPair b bs os e i (inl none_named) =
    let (f, g) = is_family b i in rw (e, none_named) (f, g, inl refl)
named-IsPair b bs os e i (inr (o, one, available)) =
    let (f, g) = is_family b i in rw (e, one) (f, g, inr (rw (g, oses_of) at available))

-- The spec of a resolved directive names no browser, or an available pair.
resolve-IsPair :
    (picks : Picks) (d r : Directive)
    → InRange picks
    → resolve families oses_of picks d ≡ some (r, true)
    → (((spec_of r).browser ≡ []) ⊎ IsPair (spec_of r).browser (spec_of r).os)
      × (record r { browser = d.browser; os = d.os } ≡ d)
unfolding spec_of
resolve-IsPair picks d r range e = elim (List-cases d.browser) [
  | inl any_browser ↦
      let same : d ≡ r =
        ground (arith, sym (resolve_any families oses_of picks d any_browser) ∙ e) in
      rw (← same) (inl (ap first_or_empty any_browser), refl)
  | inr (b, bs, named) ↦
      let n : d.browser ≢ [] = λ q. ground arith in
      elim (List-cases (pool_of families oses_of d)) [
        | inl empty ↦
            absurd (ground (arith, sym (resolve_empty families oses_of picks d n empty) ∙ e))
        | inr (c, cs, full) ↦
            let (r', f, resolved) =
              resolve-IsResolved families oses_of picks d range n (λ q. ground arith) in
            let same : r' ≡ r = ground (arith, sym f ∙ e) in
            rw (← same) (
              inr (
                  named-IsPair resolved.browser r'.browser r'.os resolved.one_browser
                    resolved.fair_browser.0 (os_of r' resolved.browser resolved.one_os)),
              resolved.rest,
            )
      ]
]
  where
    os_of :
        (r' : Directive) (b : Text)
        → ((d.os ≡ []) × (r'.os ≡ []))
          ⊎ ((os : Text) × (r'.os ≡ os ∷ []) × Fair d.os (oses_of b) os)
        → (r'.os ≡ []) ⊎ ((o : Text) × (r'.os ≡ o ∷ []) × In (oses_of b) o)
    os_of r' b (inl (_, e)) = inl e
    os_of r' b (inr (o, e, fair)) = inr (o, e, fair.0)

abbrev pub lowered : Url → Url
lowered u = record u { scheme = lower u.scheme; host = lower u.host }

-- What the two packages ask of zog, of net/url and of surf's data.
pub record Promises (lib : Parse.Library) (bl : Library) (url_string : Url → Text) : Type 0 where
  pub tested :
      (req : List (Text × Shaped)) (d : Directive)
      → lib.schema_parse req ≡ (d, [])
      → IsTested lib.url_parse url_string req d
  pub one_parser : (t : Text) → bl.url_parse t ≡ lib.url_parse t
  pub reread :
      (t : Text) (u : Url)
      → lib.url_parse t ≡ some u
      → lib.url_parse (url_string (lowered u)) ≢ none
  pub major : HasMajor bl

module _ (lib : Parse.Library) (bl : Library) (url_string : Url → Text) where
  module _ (promises : Promises lib bl url_string) where
    proxy_read :
        (req : List (Text × Shaped)) (d : Directive)
        → IsTested lib.url_parse url_string req d
        → d.proxy ≢ []
        → bl.url_parse d.proxy ≢ none
    unfolding normal_proxy is_proxy_url
    proxy_read req d t given e = elim t.through [
      | inl empty ↦ given empty
      | inr (raw, tested, same) ↦ elim (Option-cases (lib.url_parse raw)) [
        | inl q ↦ absurd (ground arith)
        | inr (u, q) ↦
            let n : normal_proxy lib.url_parse url_string raw ≡ url_string (lowered u) =
              ground arith in
            promises.reread raw u q
              (ap lib.url_parse (sym n ∙ sym same) ∙ (sym (promises.one_parser d.proxy) ∙ e))
      ]
    ]

    schema-IsReady :
        (req : List (Text × Shaped)) (d r : Directive)
        → AllOrdered req
        → IsTested lib.url_parse url_string req d
        → record r { browser = d.browser; os = d.os; from_request = d.from_request } ≡ d
        → ((spec_of r).browser ≡ []) ⊎ IsPair (spec_of r).browser (spec_of r).os
        → IsReady (spec_of r)
    unfolding spec_of
    schema-IsReady req d r ordered t same pair = record {
      pair = pair;
      preset =
          subst (λ (x : Text). (x ≡ []) ⊎ In (lowers official_presets) x)
            (sym (ap (λ (d : Directive). d.ja) same)) t.preset;
      pointed = λ h e key i.
          let (out, f, set) = t.http3 h (sym (ap (λ (d : Directive). d.http3_settings) same) ∙ e) in
          set key
            (All-lookup _ (text "http3settings") (Shaped.pairs out h.order) req ordered f key i);
      resolver =
          subst (λ (x : Text). (x ≡ []) ⊎ (is_dns_over_tls x ≡ true))
            (sym (ap (λ (d : Directive). d.dns_over_tls) same)) t.resolver;
    }

    -- `Build` says that the proxy is no URL only of one that is there and that does not parse.
    unread :
        (s : Spec) (o : Options) {b : Built BuiltClient}
        → Outcome bl s o b
        → b ≡ Built.err bad_url
        → (s.proxy ≢ []) × (bl.url_parse s.proxy ≡ none)
    unread s o (client c k) e = cc
    unread s o (proxy_over_http3 given three) e = cc
    unread s o (proxy_unread given q) e = (given, q)
    unread s o (surf_refused message) e = cc

    -- Where zog, net/url and surf's data keep their promises: a request that `Parse` accepts under a
    -- policy whose defaults have been shaped, and that `Resolve` then resolves with random numbers in
    -- range, has a spec from which `Build` makes a client with the spec's key, without a panic, unless
    -- the spec has a proxy and forces HTTP/3, or surf refuses. In particular it never says that the
    -- browser, the OS or the preset is unknown, or that the proxy is no URL.
    pub build-parse :
        (p : Policy) (h : Header) (picks : Picks) (d r : Directive) (o : Options)
        → AllOrdered p.defaults
        → InRange picks
        → parse lib h p ≡ (d, [])
        → resolve families oses_of picks d ≡ some (r, true)
        → Outcome bl (spec_of r) o (build bl (spec_of r) o)
          × (build bl (spec_of r) o ≢ Built.err bad_url)
    unfolding spec_of
    build-parse p h picks d r o defaults range parsed resolved =
        let (req, issues) = read_headers lib p h [] [] in
        let (d', found, same) = parse-schema lib p h d parsed in
        let t = promises.tested (merge p.defaults req) d' found in
        let (pair, rest) = resolve-IsPair picks d r range resolved in
        let ordered =
          merge-AllOrdered p.defaults req defaults (read_headers-AllOrdered lib p h [] [] tt) in
        let kept : record r { browser = d'.browser; os = d'.os; from_request = d'.from_request }
            ≡ d' =
          ap (λ (x : Directive). record x { from_request = d'.from_request })
            (subst (λ (x : Directive). record r { browser = x.browser; os = x.os } ≡ x) (sym same)
              rest) in
        let proxy : r.proxy ≡ d'.proxy = ap (λ (x : Directive). x.proxy) kept in
        let ready = schema-IsReady (merge p.defaults req) d' r ordered t kept pair in
        let outcome = build-Outcome bl promises.major (spec_of r) o ready in
        (
          outcome,
          λ e.
              let (given, q) = unread (spec_of r) o outcome e in
              proxy_read (merge p.defaults req) d' t (λ z. given (proxy ∙ z))
                (ap bl.url_parse (sym proxy) ∙ q),
        )
