-- ===== src/Command/Tests.antt =====
-- cmd/tip/main.go: a start with a configuration that wants a proxy, one with a path that is taken, and
-- the theorems at them.
use tls_impersonate_proxy.Base.{
  not, ◌≡◌, refl, ◌≢◌, true, false, none, some, List, [], ◌∷◌, ◌++◌, map, All, Has,
}
use tls_impersonate_proxy.Text.{
  Text, text, text_eq, text_le, join, contains_text, lower, trim_space, trim_string, trim,
  trim_left, split, cut, cut_prefix, has_suffix, equal_fold, is_space, is_ascii_space,
}
use tls_impersonate_proxy.Net.{Url, split_host_port, has_char}
use tls_impersonate_proxy.Assoc.{lookup, put}
use tls_impersonate_proxy.Http.{canonical, canonical_from, is_token, is_alpha}
use tls_impersonate_proxy.Logging.{new_logger}
use tls_impersonate_proxy.Metrics.Routes.{sort, insert_sorted, new_matcher, compile}
use tls_impersonate_proxy.Metrics.Registry
use tls_impersonate_proxy.Metrics.Registry.Labels.{is_repeated}
use tls_impersonate_proxy.Metrics.Registry.{Metrics, made_metrics}
use tls_impersonate_proxy.Directive.Types.{Directive, zero_directive}
use tls_impersonate_proxy.Directive.Names.{is_known, shape_of}
use tls_impersonate_proxy.Directive.Policy.{
  Policy, Shaped, split_pattern, is_bracket, is_no_pattern, add_patterns, default_proxy,
  proxy_hosts, require_proxy, denied,
}
use tls_impersonate_proxy.Directive.Policy.Hosts.{PatternMatches, pattern_of}
use tls_impersonate_proxy.Directive.Operator.{
  deny_key, add_denied, add_value, default_header, shape_defaults, new_policy,
}
use tls_impersonate_proxy.Directive.Parse.{
  Header, Outcome, is_prefixed, key_of, take, drop, shape_value, split_list, read_header,
  read_headers, keys, displaced, kept_defaults, copy, merge, proxy_issues, finish, parse, from_zog,
  render_from,
}
use tls_impersonate_proxy.Proxy.Ca.{
  create_ca, load_ca, load_or_create_ca, is_open_to_others, Disk, Result, absent,
}
use tls_impersonate_proxy.Config.{Config}
use tls_impersonate_proxy.Config.Unknown.{
  type_of, keys_of_doc, keys_of_value, keys_of_items, unknown_keys,
}
use tls_impersonate_proxy.Config.Load
use tls_impersonate_proxy.Config.Load.{load_doc, load, redacted}
use tls_impersonate_proxy.Config.Load.Tests.{plain_config}
use tls_impersonate_proxy.Command.{
  World, Ran, Setup, signalled, server_failed, of_server, routes, admin_paths, policy_of,
  metrics_of, admin_of, setup, setup_of, run,
}
use tls_impersonate_proxy.Command.Laws.{run-parse, run-conflicts}

program : Unit {0}
unfolding text_eq text_le join sort insert_sorted type_of keys_of_doc keys_of_value keys_of_items
    unknown_keys load_doc load contains_text lower trim_space trim_string trim trim_left split cut
    cut_prefix has_suffix equal_fold is_space is_ascii_space lookup put split_host_port has_char
    canonical canonical_from is_token is_alpha new_logger new_matcher compile is_known shape_of
    split_pattern is_bracket is_no_pattern add_patterns default_proxy proxy_hosts require_proxy
    denied deny_key add_denied add_value default_header shape_defaults new_policy is_prefixed key_of
    take drop shape_value split_list read_header read_headers keys displaced kept_defaults copy
    merge proxy_issues finish parse from_zog render_from create_ca load_ca load_or_create_ca
    is_open_to_others routes policy_of metrics_of admin_of setup run Registry.new
program = tt

abbrev config : Config
config = record plain_config {
  directives = record {
    defaults = (text "Timeout", text "5s") ∷ [];
    deny = text "X-Tip-Browser" ∷ [];
    proxy_hosts = text "*.hops.test" ∷ [];
    require_proxy = true;
  };
  metrics = record plain_config.metrics { enabled = true };
}

abbrev hop : Url
hop = record {
  scheme = text "http";
  host = text "a.hops.test:1";
  hostname = text "a.hops.test";
  port = text "1";
  user = none;
}

abbrev hop_text : Text
hop_text = text "http://a.hops.test:1"

abbrev proxied : Directive
proxied = record zero_directive { proxy = hop_text }

-- The schema gives the proxy of the directives, if there is one.
abbrev directive_of : List (Text × Shaped) → Directive
directive_of m = elim (lookup (text "proxy") m) [ none ↦ zero_directive | some v ↦ proxied ]

abbrev world : Config → World
world cfg = record {
  config = record {
    read_file = λ path. Load.Result.ok [];
    yaml = λ raw. Load.Result.ok none;
    schema_parse = λ doc. (cfg, []);
  };
  level_error = λ level. none;
  ca = record {
    generated = Result.ok (text "cert", text "key");
    cert_write = none;
    key_write = none;
    key_pair = λ cert key. Result.ok cert;
  };
  directives = record {
    parse_cookie = λ t. Outcome.ok [];
    url_parse = λ t. some hop;
    schema_parse = λ m. (directive_of m, []);
  };
  accepts_labels = λ labels. not (is_repeated labels);
  listen = λ address. none;
  conflicts = contains_text;
}

abbrev disk : Disk
disk = record { cert = absent; key = absent }

abbrev policy : Policy
policy = record {
  defaults = (text "timeout", Shaped.scalar (text "5s")) ∷ [];
  deny = text "browser" ∷ [];
  proxy_hosts = pattern_of (text "*.hops.test") ∷ [];
  require_proxy = true;
}

abbrev metrics : Metrics
metrics = made_metrics config.metrics.collectors (record { routes = []; captures = [] })

abbrev started : Setup
started =
    setup_of (world config) (redacted config) (text "cert") policy (some metrics)
      (admin_paths ++ text "/metrics" ∷ [])

starts : run (world config) disk (text "tip.yaml") signalled ≡ Ran.ok started
unfolding program
starts = refl

-- A server that fails ends `run` with its error.
broken :
    run (world config) disk (text "tip.yaml") (server_failed (text "accept"))
    ≡ Ran.failed (of_server (text "accept"))
unfolding program
broken = refl

run-parse_example :
    (cfg : Config) × (Load.load (world config).config (text "tip.yaml") ≡ Load.Result.ok cfg)
    × ((header : Header) (d : Directive)
        → parse (world config).directives header started.policy ≡ (d, [])
        → All
            (λ h.
              is_prefixed h.0 ≡ true
              → contains_text (map deny_key cfg.directives.deny) (key_of h.0) ≡ false)
            header
          × (cfg.directives.require_proxy ≡ true → d.proxy ≢ [])
          × (map pattern_of cfg.directives.proxy_hosts ≢ []
              → d.proxy ≢ []
              → (u : Url) × ((world config).directives.url_parse d.proxy ≡ some u)
                × Has
                    (λ pattern. PatternMatches pattern (lower u.hostname) u.port)
                    (map pattern_of cfg.directives.proxy_hosts)))
run-parse_example = run-parse (world config) disk (text "tip.yaml") signalled started starts

abbrev taken : Config
taken = record config { metrics = record config.metrics { path = text "/profiles" } }

-- The path loads, and the start panics.
panics :
    (Load.load (world taken).config (text "tip.yaml") ≡ Load.Result.ok (redacted taken))
    × (run (world taken) disk (text "tip.yaml") signalled ≡ Ran.panic)
unfolding program
panics = (refl, refl)

run-conflicts_example : run (world taken) disk (text "tip.yaml") signalled ≢ Ran.ok started
run-conflicts_example =
    run-conflicts (world taken) disk (text "tip.yaml") signalled (redacted taken)
      (λ patterns p i. i) (unfold program in refl) refl (unfold program in refl) started
