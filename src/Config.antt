-- ===== src/Config.antt =====
-- internal/config/config.go: the configuration. A duration is its number of nanoseconds. The collectors
-- and the routes have the fields of internal/metrics' types.
pub mod Unknown
pub mod Load
use tls_impersonate_proxy.Base.{ℕ, Bool, Option, List}
use tls_impersonate_proxy.Text.{Text}
use tls_impersonate_proxy.Metrics.Registry.{Collectors}

pub record Server : Type 0 where
  pub listen : Text
  pub max_connections : ℕ
  pub read_header_timeout : ℕ
  pub idle_timeout : ℕ
  pub max_header_bytes : ℕ
  pub shutdown_grace : ℕ
  pub serve_ca : Bool
  pub serve_profiles : Bool

pub record Tls : Type 0 where
  pub ca_cert : Text
  pub ca_key : Text
  pub cert_cache_size : ℕ
  pub client_http2 : Bool

pub record Upstream : Type 0 where
  pub verify_certificates : Bool
  pub timeout : ℕ

pub record Directives : Type 0 where
  pub defaults : List (Text × Text)
  pub deny : List Text
  pub proxy_hosts : List Text
  pub require_proxy : Bool

pub record Clients : Type 0 where
  pub max : ℕ
  pub idle_ttl : ℕ

pub record Encoding : Type 0 where
  pub mode : Text

pub record Auth : Type 0 where
  pub realm : Text
  pub users : List (Text × Text)

-- `redact` is nil where the file does not name it.
pub record Logging : Type 0 where
  pub level : Text
  pub format : Text
  pub redact : Option (List Text)

pub record Route : Type 0 where
  pub name : Text
  pub host : Text
  pub path : Text
  pub capture : List Text

pub record Metrics : Type 0 where
  pub enabled : Bool
  pub listen : Text
  pub path : Text
  pub collectors : Collectors
  pub routes : List Route

pub record Config : Type 0 where
  pub server : Server
  pub tls : Tls
  pub upstream : Upstream
  pub directives : Directives
  pub clients : Clients
  pub encoding : Encoding
  pub auth : Auth
  pub logging : Logging
  pub metrics : Metrics
