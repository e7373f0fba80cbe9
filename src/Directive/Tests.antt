-- ===== src/Directive/Tests.antt =====
-- Runs of the directives' parser and chooser, and the theorems at concrete requests.
use tls_impersonate_proxy.Base.{
  Has, inl, inr, ◌≡◌, ◌≢◌, ◌↔◌, refl, true, false, none, some, List, [], ◌∷◌, ◌++◌, All, arith,
}
use tls_impersonate_proxy.Text.{
  Text, text, text_eq, contains_text, lower, equal_fold, trim_space, trim_string, trim, trim_left,
  split, join, cut, cut_prefix, has_suffix, is_space, is_ascii_space,
}
use tls_impersonate_proxy.Assoc.{lookup, put}
use tls_impersonate_proxy.Net.{Url, split_host_port, has_char}
use tls_impersonate_proxy.Directive.Types.{Directive, zero_directive, Issue, is_from_request}
use tls_impersonate_proxy.Directive.Names.{
  shape_of, kv_keys, is_known, official_name, official, register,
}
use tls_impersonate_proxy.Directive.Resolve.{Picks, choose, get_elem?, pool_of, resolve_os, resolve}
use tls_impersonate_proxy.Directive.Resolve.Laws.{InRange, IsResolved, resolve-IsResolved}
use tls_impersonate_proxy.Directive.Policy.{
  Policy, Made, denied, split_pattern, is_bracket, pattern_allows, is_no_pattern, add_patterns,
  default_proxy, proxy_allowed, proxy_hosts,
}
use tls_impersonate_proxy.Directive.Parse.{
  Values, Header, Outcome, Library, is_prefixed, key_of, take, drop, shape_value, split_list,
  read_header, read_headers, keys, displaced, kept_defaults, copy, merge, proxy_issues, finish,
  parse, from_zog, render_from, strip,
}
use tls_impersonate_proxy.Directive.Parse.Strip.{IsDirectiveName, lookup-strip}
use tls_impersonate_proxy.Directive.Parse.Admits.{IsAdmitted, Names, refusals, parse-IsAdmitted}
use tls_impersonate_proxy.Directive.Parse.Refusals.{IsRefused, Answers, parse-refuses}
use tls_impersonate_proxy.Directive.Policy.{Shaped}
use tls_impersonate_proxy.Http.{canonical, canonical_from, is_token, is_alpha}
use tls_impersonate_proxy.Directive.Operator.{
  deny_key, add_denied, add_value, default_header, shape_defaults, new_policy,
}

program : Unit {0}
unfolding text_eq contains_text lower equal_fold trim_space trim_string trim trim_left split join
    cut cut_prefix has_suffix is_space is_ascii_space lookup put split_host_port has_char
    is_from_request shape_of kv_keys is_known official_name official register choose get_elem?
    pool_of resolve_os resolve denied split_pattern is_bracket pattern_allows is_no_pattern
    add_patterns default_proxy proxy_allowed proxy_hosts is_prefixed key_of take drop shape_value
    split_list read_header read_headers keys displaced kept_defaults copy merge proxy_issues finish
    parse from_zog render_from strip
program = tt

abbrev browsers : List Text
browsers = text "chrome" ∷ text "edge" ∷ []

abbrev oses : Text → List Text
oses b = text "windows" ∷ text "macos" ∷ []

abbrev picks : Picks
picks = record { first = λ n. 0; second = λ n. 0 }

picks-InRange : InRange picks
picks-InRange = record { first = λ n h. h; second = λ n h. h }

abbrev wanted : Directive
wanted = record zero_directive { browser = text "edge" ∷ []; os = text "random" ∷ [] }

wanted_nonempty : wanted.browser ≢ []
wanted_nonempty = λ e. ground arith

wanted_pool : pool_of browsers oses wanted ≢ []
unfolding program
wanted_pool = λ e. ground arith

resolve_lem :
    resolve browsers oses picks wanted
    ≡ some (record zero_directive { browser = text "edge" ∷ []; os = text "windows" ∷ [] }, true)
unfolding program
resolve_lem = refl

resolve-IsResolved_example :
    (r : Directive) × (resolve browsers oses picks wanted ≡ some (r, true))
    × IsResolved browsers oses picks wanted r
resolve-IsResolved_example =
    resolve-IsResolved browsers oses picks wanted picks-InRange wanted_nonempty wanted_pool

abbrev one : Text → Values
one t = record { first = t; rest = [] }

abbrev header : Header
header =
    (text "x-tip-proxy", one (text "http://a.b:1")) ∷ (text "Accept", one (text "text/plain")) ∷ []

lookup-strip_example :
    (IsDirectiveName (text "x-tip-proxy") → lookup (text "x-tip-proxy") (strip header) ≡ none)
    × (¬ IsDirectiveName (text "x-tip-proxy")
        → lookup (text "x-tip-proxy") (strip header) ≡ lookup (text "x-tip-proxy") header)
    × All (λ e. ¬ IsDirectiveName e.0) (strip header)
lookup-strip_example = lookup-strip (text "x-tip-proxy") header

abbrev default_browser : List (Text × Text)
default_browser = (text "browser", text "chrome") ∷ []

abbrev asked_profile : List (Text × Text)
asked_profile = (text "profile", text "chrome-1") ∷ []

abbrev hop_url : Url
hop_url = record {
  scheme = text "http";
  host = text "A.b:1";
  hostname = text "A.b";
  port = text "1";
  user = none;
}

abbrev proxied : Directive
proxied = record zero_directive { proxy = text "http://a.b:1" }

-- A library that knows one address and one set of directives.
abbrev library : Library
library = record {
  parse_cookie = λ t. Outcome.ok [];
  url_parse = λ t. some hop_url;
  schema_parse = λ m. (proxied, []);
}

abbrev open_policy : Policy
open_policy = record {
  defaults = [];
  deny = text "timeout" ∷ [];
  proxy_hosts = [];
  require_proxy = true;
}

abbrev accepted : Directive
accepted = record proxied { from_request = text "proxy" ∷ [] }

parse_lem : parse library header open_policy ≡ (accepted, [])
unfolding program
parse_lem = refl

parse-IsAdmitted_example :
    All (IsAdmitted library open_policy) header
    × (accepted.proxy ≡ [] → open_policy.require_proxy ≡ false)
    × (accepted.proxy ≢ [] → proxy_allowed library.url_parse open_policy accepted.proxy ≡ true)
    × ((name : Text)
        → (is_from_request accepted name ≡ true) ↔ Names library open_policy (lower name) header)
parse-IsAdmitted_example = parse-IsAdmitted library header open_policy accepted parse_lem

abbrev denied_header : Header
denied_header = (text "X-Tip-Timeout", one (text "1s")) ∷ []

denied_header-IsRefused : Has (IsRefused library open_policy) denied_header
unfolding program
denied_header-IsRefused = inl ((text "X-Tip-", text "Timeout", refl, refl), inr (inl refl))

parse-refuses_example :
    ((parse library denied_header open_policy).0 ≡ zero_directive)
    × ((later : List Issue) × ((parse library denied_header open_policy).1
          ≡ refusals library open_policy denied_header ++ later))
    × (refusals library open_policy denied_header ≢ [])
    × All (λ e. IsDirectiveName e.0 → Answers library open_policy e) denied_header
parse-refuses_example = parse-refuses library denied_header open_policy denied_header-IsRefused

abbrev host_policy : Policy
host_policy = record open_policy { proxy_hosts = text "*.b" ∷ [] }

proxy_allowed_lem : proxy_allowed library.url_parse host_policy (text "http://a.b:1") ≡ true
unfolding program
proxy_allowed_lem = refl

proxy_hosts_lem : proxy_hosts library.url_parse open_policy (text " *.B" ∷ []) ≡ Made.ok host_policy
unfolding program
proxy_hosts_lem = refl

abbrev operator_library : Library
operator_library = record library { schema_parse = λ m. (zero_directive, []) }

abbrev operator_policy : Policy
operator_policy = record {
  defaults = (text "timeout", Shaped.scalar (text "5s")) ∷ [];
  deny = text "proxy" ∷ [];
  proxy_hosts = [];
  require_proxy = false;
}

new_policy_lem :
    new_policy operator_library ((text "Timeout", text "5s") ∷ []) (text " X-Tip-Proxy" ∷ [])
    ≡ Made.ok operator_policy
unfolding program new_policy shape_defaults default_header add_value add_denied deny_key canonical
    canonical_from is_token is_alpha
new_policy_lem = refl
