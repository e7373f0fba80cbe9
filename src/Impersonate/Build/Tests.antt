-- ===== src/Impersonate/Build/Tests.antt =====
-- Runs of the builder, and the theorems at concrete specs and requests.
use tls_impersonate_proxy.Base.{
  not, ◌≡◌, ◌≢◌, ◌⊎◌, refl, inl, true, false, Option, none, some, List, [], ◌∷◌, ◌++◌,
  if◌then◌else◌, arith, ap, subst,
}
use tls_impersonate_proxy.Text.{
  Text, text, text_eq, contains_text, lower, trim_space, trim, trim_left, trim_right, is_space,
  split, join, cut, cut_prefix,
}
use tls_impersonate_proxy.Assoc.{lookup, put, has_key}
use tls_impersonate_proxy.Net.{Url}
use tls_impersonate_proxy.Connect.{basic_auth, join_host_port}
use tls_impersonate_proxy.Directive.Types.{Directive, zero_directive, Spec, Http3, spec_of}
use tls_impersonate_proxy.Directive.Names.{
  shape_of, kv_keys, is_known, official_name, official, register,
}
use tls_impersonate_proxy.Directive.Policy.{Shaped, denied, proxy_allowed}
use tls_impersonate_proxy.Directive.Operator.{no_policy}
use tls_impersonate_proxy.Directive.Parse
use tls_impersonate_proxy.Directive.Parse.{
  Header, ZogIssue, is_prefixed, key_of, take, drop, add_pairs, parse_pairs, shape_value,
  split_list, read_header, read_headers, keys, displaced, kept_defaults, copy, merge, proxy_issues,
  finish, parse, from_zog,
}
use tls_impersonate_proxy.Directive.Resolve.{Picks, choose, get_elem?, pool_of, resolve_os, resolve}
use tls_impersonate_proxy.Directive.Resolve.Laws.{InRange}
use tls_impersonate_proxy.Impersonate.Infer.{families, oses_of}
use tls_impersonate_proxy.Impersonate.Profiles.{
  chrome_major, digits_of, edge_agent, edge_headers, replace_all, replace_from,
}
use tls_impersonate_proxy.Impersonate.Build.{
  Options, Hop, Call, Built, Library, impersonate_os, base_of, apply_http2, http3_key, http3_keys,
  http3_settings_calls, dns_over_tls_calls, ja_calls, http2_calls, http3_calls, resolver_calls,
  force_calls, transport_calls, family_headers, browser_calls, hop_dialer, calls_of, build, bad_url,
}
use tls_impersonate_proxy.Impersonate.Build.Surf.{
  HttpTransport, Ran, run_hop, run_hop-hop_dialer, no_transport, http, other,
}
use tls_impersonate_proxy.Impersonate.Build.Ready.{IsGiven, Outcome}
use tls_impersonate_proxy.Impersonate.Build.Request.{IsTested, Promises, build-parse}
use tls_impersonate_proxy.Impersonate.Build.Plain.{routes}
use tls_impersonate_proxy.Impersonate.Build.Route.{checks, calls_of-routes}
use tls_impersonate_proxy.Impersonate.Build.Surf.{IsHttp}

program : Unit {0}
unfolding text_eq contains_text lower trim_space trim trim_left trim_right is_space split join cut
    cut_prefix lookup put spec_of shape_of kv_keys is_known official_name official register denied
    proxy_allowed is_prefixed key_of take drop add_pairs parse_pairs shape_value split_list
    read_header read_headers keys displaced kept_defaults copy merge proxy_issues finish parse
    from_zog choose get_elem? pool_of resolve_os resolve oses_of chrome_major digits_of edge_agent
    edge_headers replace_all replace_from impersonate_os base_of apply_http2 http3_key http3_keys
    http3_settings_calls dns_over_tls_calls ja_calls http2_calls http3_calls resolver_calls
    force_calls transport_calls family_headers browser_calls hop_dialer calls_of build
program = tt

abbrev parse_url : Text → Option Url
parse_url t =
    if text_eq t (text "http://hop:81")
    then some (record {
      scheme = text "http";
      host = text "hop:81";
      hostname = text "hop";
      port = text "81";
      user = none;
    })
    else none

abbrev options : Options
options = record { verify_certificates = true; response_header_timeout = 5 }

abbrev surf : Library
surf = record {
  url_parse = parse_url;
  spec_key = λ s. s.browser ++ s.proxy;
  agent = λ os. text "Mozilla/5.0 Chrome/152.0";
  sec_ch_ua = text "\"Google Chrome\";v=\"152\"";
  surf_error = λ calls. none;
}

-- Edge's overrides of Chrome's headers.
edge_overrides :
    edge_headers surf.agent surf.sec_ch_ua (text "windows")
    ≡ some (
        (text "User-Agent", text "Mozilla/5.0 Chrome/152.0 Edg/152.0.0.0")
        ∷ (text "sec-ch-ua", text "\"Microsoft Edge\";v=\"152\"")
        ∷ [])
unfolding program
edge_overrides = refl

abbrev proxied : Spec
proxied = record (spec_of zero_directive) {
  browser = text "firefox";
  os = text "linux";
  proxy = text "http://hop:81";
  dns_over_tls = text "Quad9";
}

abbrev hop : Hop
hop = record {
  url = record {
    scheme = text "http";
    host = text "hop:81";
    hostname = text "hop";
    port = text "81";
    user = none;
  };
  insecure = false;
}

abbrev proxied_calls : List Call
proxied_calls =
    Call.impersonate
    ∷ Call.im_os (text "Linux")
    ∷ Call.im_base (text "Firefox")
    ∷ Call.proxy []
    ∷ Call.with_hop hop
    ∷ Call.dns_over_tls
    ∷ Call.dot_provider (text "Quad9")
    ∷ Call.secure_tls
    ∷ Call.disable_compression
    ∷ Call.header_timeout 5
    ∷ Call.finalize
    ∷ []

proxied_run : calls_of surf proxied options ≡ Built.ok proxied_calls
unfolding program
proxied_run = refl

proxied_hop : hop_dialer surf proxied options ≡ Built.ok (some hop)
unfolding program
proxied_hop = refl

calls_of-routes_example :
    (proxied.proxy ≡ [] → routes proxied_calls ≡ Call.proxy [] ∷ checks surf proxied options)
    × (proxied.proxy ≢ []
        → (u : Url) × (surf.url_parse proxied.proxy ≡ some u)
          × (proxied.force_http ≢ text "3")
          × (IsHttp u
              → routes proxied_calls
                ≡ Call.proxy []
                  ∷ Call.with_hop (record { url = u; insecure = not options.verify_certificates })
                  ∷ checks surf proxied options)
          × (¬ IsHttp u
              → routes proxied_calls ≡ Call.proxy proxied.proxy ∷ checks surf proxied options))
unfolding spec_of
calls_of-routes_example = calls_of-routes surf proxied options proxied_calls proxied_run

abbrev transport : HttpTransport
transport = record { proxied = true; dialer = none; insecure = false; response_header_timeout = 0 }

run_hop-hop_dialer_example :
    (surf.url_parse proxied.proxy ≡ some hop.url)
    × ((hop.url.scheme ≡ text "http") ⊎ (hop.url.scheme ≡ text "https"))
    × (run_hop (λ t. t) hop other ≡ no_transport)
    × (run_hop (λ t. t) hop (http transport)
        ≡ Ran.ok (
            http (record transport {
              proxied = false;
              dialer = some (record {
                host = join_host_port (text "hop") (text "81");
                auth = [];
                with_tls = false;
              });
              insecure = false;
            })))
unfolding text_eq spec_of basic_auth
run_hop-hop_dialer_example =
    run_hop-hop_dialer (λ t. t) surf proxied options hop transport proxied_hop

-- A schema that keeps the settings of HTTP/3, with the number 1 for each.
abbrev numbers : List Text → Http3
numbers order = record {
  qpack_max_table_capacity = some 1;
  max_field_section_size = some 1;
  qpack_blocked_streams = some 1;
  enable_connect_protocol = some 1;
  settings_h3_datagram = some 1;
  h3_datagram = some 1;
  enable_webtransport = some 1;
  grease = true;
  order = order;
}

abbrev http3_of : Option Shaped → Option Http3
http3_of none = none
http3_of (some (Shaped.scalar t)) = none
http3_of (some (Shaped.list ts)) = none
http3_of (some (Shaped.pairs out order)) = some (numbers order)

abbrev parser : Parse.Library
parser = record {
  parse_cookie =
      λ t. Parse.Outcome.ok ((text "Grease", text "true") ∷ (text "H3Datagram", text "1") ∷ []);
  url_parse = parse_url;
  schema_parse = λ req. (
    record zero_directive {
      browser = text "edge" ∷ [];
      os = text "windows" ∷ text "linux" ∷ [];
      http3_settings = http3_of (lookup (text "http3settings") req);
    },
    [],
  );
}

abbrev url_string : Url → Text
url_string u = text "http://hop:81"

numbers-IsGiven : (order : List Text) (key : Text) → IsGiven (numbers order) key
unfolding lookup
numbers-IsGiven order key e = ground arith

http3_of-tested :
    (o : Option Shaped) (h : Http3)
    → http3_of o ≡ some h
    → (out : List (Text × Text)) × (o ≡ some (Shaped.pairs out h.order))
      × ((key : Text) → has_key key out ≡ true → IsGiven h key)
http3_of-tested none h e = absurd (ground arith)
http3_of-tested (some (Shaped.scalar t)) h e = absurd (ground arith)
http3_of-tested (some (Shaped.list ts)) h e = absurd (ground arith)
http3_of-tested (some (Shaped.pairs out order)) h e =
    let same : numbers order ≡ h = ground arith in
    rw (← same) (out, refl, λ key i. numbers-IsGiven order key)

parser-IsTested :
    (req : List (Text × Shaped)) (d : Directive)
    → parser.schema_parse req ≡ (d, [])
    → IsTested parse_url url_string req d
parser-IsTested req d e =
    subst (λ (d : Directive). IsTested parse_url url_string req d)
      (ap (λ (r : Directive × List ZogIssue). r.0) e)
      (record {
        preset = inl refl;
        resolver = inl refl;
        through = inl refl;
        http3 = http3_of-tested (lookup (text "http3settings") req);
      })

parse_url-again : parse_url (text "http://hop:81") ≢ none
unfolding text_eq
parse_url-again e = ground arith

major : (os : Text) → (m : Text) × (chrome_major (surf.agent os) ≡ some m)
unfolding program
major os = (text "152", refl)

promises : Promises parser surf url_string
promises = record {
  tested = parser-IsTested;
  one_parser = λ t. refl;
  reread = λ t u e. parse_url-again;
  major = major;
}

abbrev header : Header
header =
    (text "X-Tip-Http3Settings", record { first = text "Grease=true; H3Datagram=1"; rest = [] })
    ∷ []

abbrev picks : Picks
picks = record { first = λ n. 0; second = λ n. 0 }

picks-InRange : InRange picks
picks-InRange = record { first = λ n h. h; second = λ n h. h }

abbrev parsed : Directive
parsed = record zero_directive {
  browser = text "edge" ∷ [];
  os = text "windows" ∷ text "linux" ∷ [];
  http3_settings = some (numbers (text "grease" ∷ text "h3datagram" ∷ []));
  from_request = text "http3settings" ∷ [];
}

abbrev chosen : Directive
chosen = record parsed { os = text "windows" ∷ [] }

parse_run : parse parser header no_policy ≡ (parsed, [])
unfolding program
parse_run = refl

resolve_run : resolve families oses_of picks parsed ≡ some (chosen, true)
unfolding program
resolve_run = refl

build-parse_example :
    Outcome surf (spec_of chosen) options (build surf (spec_of chosen) options)
    × (build surf (spec_of chosen) options ≢ Built.err bad_url)
build-parse_example =
    build-parse parser surf url_string promises no_policy header picks parsed chosen options tt
      picks-InRange parse_run resolve_run
