-- ===== src/Command.antt =====
-- cmd/tip/main.go: `run`, from the configuration to the servers and to the end.
-- What the packages call is an argument of theirs, and so is what the operating system answers: the
-- errors of the listeners, and how the servers end. Goroutines that run beside `run` (the servers and the
-- sweeper) are the other modules'.
pub mod Laws
mod Tests
use tls_impersonate_proxy.Base.{
  ℕ, ◌/◌, ◌<◌, Bool, true, false, not, Option, none, some, List, [], ◌∷◌, ◌++◌, map, ltb, is_nil,
  if◌then◌else◌, ◌||◌,
}
use tls_impersonate_proxy.Text.{Text, text, contains_text}
use tls_impersonate_proxy.Net.{Url}
use tls_impersonate_proxy.Config
use tls_impersonate_proxy.Config.Load
use tls_impersonate_proxy.Config.{Config}
use tls_impersonate_proxy.Logging
use tls_impersonate_proxy.Logging.{new_logger}
use tls_impersonate_proxy.Directive.Policy.{Policy, PolicyError, proxy_hosts, require_proxy}
use tls_impersonate_proxy.Directive.Policy.{Made}
use tls_impersonate_proxy.Directive.Parse
use tls_impersonate_proxy.Directive.Operator.{new_policy}
use tls_impersonate_proxy.Metrics.Routes.{Route, RouteError, Checked}
use tls_impersonate_proxy.Metrics.Registry
use tls_impersonate_proxy.Metrics.Registry.{Metrics}
use tls_impersonate_proxy.Impersonate.Cache.{CacheOptions}
use tls_impersonate_proxy.Impersonate.Build
use tls_impersonate_proxy.Proxy.Connection.{Auth}
use tls_impersonate_proxy.Proxy.Ca
use tls_impersonate_proxy.Proxy.Ca.{Disk, load_or_create_ca}

-- `routes`
unfoldable pub routes : List Config.Route → List Route
routes [] = []
routes (r ∷ rs) =
    record { name = r.name; host = r.host; path = r.path; capture = r.capture } ∷ routes rs

-- The error that `run` returns.
pub data Failure : Type 0 where
  of_config : Load.LoadError → Failure
  of_logger : Logging.LoggerError → Failure
  of_ca : Text → Failure
  of_policy : PolicyError → Failure
  of_metrics : RouteError → Failure
  of_listener : Text → Failure
  of_server : Text → Failure

-- What stands when the servers start. `limit` is that of the connections; a certificate is a text.
pub record Setup : Type 0 where
  pub policy : Policy
  pub metrics : Option Metrics
  pub ca : Text
  pub cert_cache_size : ℕ
  pub client_http2 : Bool
  pub build : Build.Options
  pub cache : CacheOptions
  pub auth : Auth
  pub encoding : Text
  pub timeout : ℕ
  pub serve_ca : Bool
  pub serve_profiles : Bool
  pub redact : List Text
  pub limit : Option ℕ
  pub read_header_timeout : ℕ
  pub idle_timeout : ℕ
  pub max_header_bytes : ℕ
  pub admin : List Text
  pub sweep_every : ℕ

pub data Ran {ℓ} (A : Type ℓ) : Type ℓ where
  ok : A → Ran A
  failed : Failure → Ran A
  panic : Ran A

infixl 5 ◌>>=◌
abbrev pub ◌>>=◌ {ℓ κ} : {A : Type ℓ} {B : Type κ} → Ran A → (A → Ran B) → Ran B
Ran.ok a >>= f = f a
Ran.failed e >>= f = Ran.failed e
Ran.panic >>= f = Ran.panic

-- The servers end by a signal, or one of them by an error, which may be `http.ErrServerClosed`.
pub data Ending : Type 0 where
  signalled : Ending
  server_closed : Ending
  server_failed : Text → Ending

-- `conflicts ps p` says that `ServeMux.Handle` panics on the pattern behind the others.
pub record World : Type 0 where
  pub config : Load.Library
  pub level_error : Text → Option Text
  pub ca : Ca.Library Text
  pub directives : Parse.Library
  pub accepts_labels : List Text → Bool
  pub listen : Text → Option Text
  pub conflicts : List Text → Text → Bool

abbrev pub of_load : Load.Result Config Load.LoadError → Ran Config
of_load (Load.ok cfg) = Ran.ok cfg
of_load (Load.err e) = Ran.failed (of_config e)

abbrev pub of_made : Made Policy → Ran Policy
of_made (Made.ok p) = Ran.ok p
of_made (Made.err e) = Ran.failed (of_policy e)

abbrev pub of_new_logger : Logging.Made → Ran Logging.Handler
of_new_logger (Logging.logger h) = Ran.ok h
of_new_logger (Logging.refused e) = Ran.failed (of_logger e)

abbrev pub of_result : Ca.Result Text → Ran Text
of_result (Ca.Result.ok ca) = Ran.ok ca
of_result (Ca.Result.err e) = Ran.failed (of_ca e)

abbrev pub of_checked : Option (Checked Metrics) → Ran (Option Metrics)
of_checked (some (Checked.ok m)) = Ran.ok (some m)
of_checked (some (Checked.err e)) = Ran.failed (of_metrics e)
of_checked none = Ran.panic

abbrev pub of_error : Option Text → Ran (Unit {0})
of_error none = Ran.ok tt
of_error (some e) = Ran.failed (of_listener e)

-- The paths of the admin server before the metrics'.
abbrev pub admin_paths : List Text
admin_paths = text "/healthz" ∷ text "/readyz" ∷ text "/ca.pem" ∷ text "/profiles" ∷ []

abbrev second : ℕ
second = 1000000000

module _ (w : World) where
  -- The policy of the configuration.
  unfoldable pub policy_of : Config → Ran Policy
  policy_of cfg = do
    p ← of_made (new_policy w.directives cfg.directives.defaults cfg.directives.deny)
    q ← of_made (proxy_hosts w.directives.url_parse p cfg.directives.proxy_hosts)
    if cfg.directives.require_proxy then of_made (require_proxy q) else Ran.ok q

  unfoldable pub metrics_of : Config → Ran (Option Metrics)
  unfolding routes
  metrics_of cfg =
      if cfg.metrics.enabled
      then of_checked (
          Registry.new w.accepts_labels
            (record { collectors = cfg.metrics.collectors; routes = routes cfg.metrics.routes }))
      else Ran.ok none

  -- `admin.Handle`, for each pattern in turn.
  unfoldable pub admin_of : Config → Option Metrics → Ran (List Text)
  admin_of cfg none = Ran.ok admin_paths
  admin_of cfg (some m) =
      if w.conflicts admin_paths cfg.metrics.path
      then Ran.panic
      else Ran.ok (admin_paths ++ cfg.metrics.path ∷ [])

  abbrev redact_of : Option (List Text) → List Text
  redact_of none = []
  redact_of (some names) = names

  abbrev setup_of : Config → Text → Policy → Option Metrics → List Text → Setup
  setup_of cfg ca p m admin = record {
    policy = p;
    metrics = m;
    ca = ca;
    cert_cache_size = cfg.tls.cert_cache_size;
    client_http2 = cfg.tls.client_http2;
    build = record {
      verify_certificates = cfg.upstream.verify_certificates;
      response_header_timeout = cfg.upstream.timeout;
    };
    cache = record { max = cfg.clients.max; idle_ttl = cfg.clients.idle_ttl };
    auth = record { realm = cfg.auth.realm; users = cfg.auth.users };
    encoding = cfg.encoding.mode;
    timeout = cfg.upstream.timeout;
    serve_ca = cfg.server.serve_ca;
    serve_profiles = cfg.server.serve_profiles;
    redact = redact_of cfg.logging.redact;
    limit = if ltb 0 cfg.server.max_connections then some cfg.server.max_connections else none;
    read_header_timeout = cfg.server.read_header_timeout;
    idle_timeout = cfg.server.idle_timeout;
    max_header_bytes = cfg.server.max_header_bytes;
    admin = admin;
    sweep_every =
        if ltb (cfg.clients.idle_ttl / 4) second then second else cfg.clients.idle_ttl / 4;
  }

  -- `run` behind `config.Load`, up to the start of the servers.
  unfoldable pub setup : Disk → Config → Ran Setup
  setup disk cfg = do
    handler ← of_new_logger (new_logger w.level_error cfg.logging.level cfg.logging.format)
    ca ← of_result (load_or_create_ca w.ca disk).ca
    p ← policy_of cfg
    m ← metrics_of cfg
    proxy_listener ← of_error (w.listen cfg.server.listen)
    admin_listener ← of_error (w.listen cfg.metrics.listen)
    admin ← admin_of cfg m
    Ran.ok (setup_of cfg ca p m admin)

  abbrev pub end_of : Ending → Setup → Ran Setup
  end_of signalled su = Ran.ok su
  end_of server_closed su = Ran.ok su
  end_of (server_failed e) su = Ran.failed (of_server e)

  -- `run`. Drained or not, a shutdown ends without an error.
  unfoldable pub run : Disk → Text → Ending → Ran Setup
  run disk path ending = do
    cfg ← of_load (Load.load w.config path)
    su ← setup disk cfg
    end_of ending su
