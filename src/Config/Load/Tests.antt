-- ===== src/Config/Load/Tests.antt =====
-- internal/config/load.go: a file that loads, files that do not, and the texts of issues.
use tls_impersonate_proxy.Base.{◌≡◌, refl, true, false, Option, none, some, [], ◌∷◌, ◌++◌}
use tls_impersonate_proxy.Text.{text, text_eq, text_le, join}
use tls_impersonate_proxy.Metrics.Routes.{sort, insert_sorted}
use tls_impersonate_proxy.Config.{Config}
use tls_impersonate_proxy.Config.Unknown.{
  Doc, end, entry, other, type_of, keys_of_doc, keys_of_value, keys_of_items, unknown_keys,
}
use tls_impersonate_proxy.Config.Load.{
  Library, Result, ZogIssue, unknown, redacted, load_doc, load, permissive, issue_line,
  invalid_text, format_issue,
}

program : Unit {0}
unfolding text_eq text_le join sort insert_sorted type_of keys_of_doc keys_of_value keys_of_items
    unknown_keys load_doc load permissive issue_line invalid_text format_issue
program = tt

-- The configuration of an empty file.
abbrev pub plain_config : Config
plain_config = record {
  server = record {
    listen = text ":8080";
    max_connections = 0;
    read_header_timeout = 10000000000;
    idle_timeout = 120000000000;
    max_header_bytes = 1048576;
    shutdown_grace = 30000000000;
    serve_ca = true;
    serve_profiles = true;
  };
  tls = record {
    ca_cert = text "ca.crt";
    ca_key = text "ca.key";
    cert_cache_size = 10;
    client_http2 = true;
  };
  upstream = record { verify_certificates = true; timeout = 30000000000 };
  directives = record { defaults = []; deny = []; proxy_hosts = []; require_proxy = false };
  clients = record { max = 10; idle_ttl = 300000000000 };
  encoding = record { mode = text "identity" };
  auth = record { realm = text "tip"; users = [] };
  logging = record { level = text "info"; format = text "json"; redact = none };
  metrics = record {
    enabled = false;
    listen = text ":9090";
    path = text "/metrics";
    collectors = record {
      requests = true;
      latency = true;
      bandwidth = true;
      upstream_errors = true;
      validation_errors = true;
      clients = true;
      tunnels = true;
    };
    routes = [];
  };
}

-- A library for a file that holds the document.
abbrev pub library : Config → Option Doc → Library
library cfg doc = record {
  read_file = λ path. Result.ok [];
  yaml = λ raw. Result.ok doc;
  schema_parse = λ doc. (cfg, []);
}

abbrev loaded : Config
loaded = redacted plain_config

misspelt :
    load (library plain_config (some (entry (text "tsl") other end))) (text "tip.yaml")
    ≡ Result.err (unknown (text "tsl" ∷ []))
unfolding program
misspelt = refl

abbrev issue : ZogIssue
issue = record {
  path = text "clients" ∷ text "max" ∷ [];
  is_coercion = true;
  error = some (text "no number");
  message = [];
}

issue_text :
    invalid_text (join (text ".")) (
      format_issue (λ e. text "is wrong") issue
      ∷ format_issue (λ e. text "is wrong") (record issue { path = []; error = none })
      ∷ [])
    ≡ text "clients.max: no number" ++ (10 ∷ text "config: is wrong")
unfolding program
issue_text = refl

modes : (permissive 384 ≡ false) × (permissive 416 ≡ true)
unfolding program
modes = (refl, refl)

loads : load (library plain_config none) (text "tip.yaml") ≡ Result.ok loaded
unfolding program
loads = refl
