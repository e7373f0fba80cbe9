-- ===== src/Metrics/Registry.antt =====
-- internal/metrics/metrics.go, cmd/tip/observer.go: the counters and gauges, and the calls that the
-- proxy and the cache make of them.
-- A collector of the prometheus library is what was added to it so far: a vector has one entry for each
-- addition, with its label values; a gauge has what it was raised and lowered by. `WithLabelValues`
-- panics unless there is a value for each label and each value is valid UTF-8 (`is_valid`); so does a
-- call of a collector that is nil, and the registration of a vector whose label names are not accepted. Names, help texts, buckets and the duration of a request are left out:
-- the histogram counts its observations. A panic is none.
pub mod Wired
pub mod Laws
pub mod Counts
pub mod Labels
mod Tests
use tls_impersonate_proxy.Base.{
  ℕ, ◌+◌, Bool, true, false, not, ◌&&◌, ◌||◌, Option, none, some, List, [], ◌∷◌, ◌++◌, length, ◌==◌,
  if◌then◌else◌, ◌>>=◌, map, get_or,
}
use tls_impersonate_proxy.Base
use tls_impersonate_proxy.Text.{Text, text, itoa}
use tls_impersonate_proxy.Assoc.{lookup}
use tls_impersonate_proxy.Metrics.Routes.{Route, Matcher, Checked, new_matcher, match}
use tls_impersonate_proxy.Metrics.Routes
use tls_impersonate_proxy.Impersonate.Classify.{Kind, kind_text}
use tls_impersonate_proxy.Proxy.Server.{Event, RequestEvent}

pub record Collectors : Type 0 where
  pub requests : Bool
  pub latency : Bool
  pub bandwidth : Bool
  pub upstream_errors : Bool
  pub validation_errors : Bool
  pub clients : Bool
  pub tunnels : Bool

pub record Options : Type 0 where
  pub collectors : Collectors
  pub routes : List Route

-- `Request`, without its duration.
pub record Request : Type 0 where
  pub host : Text
  pub method : Text
  pub path : Text
  pub browser : Text
  pub status : ℕ
  pub bytes_in : ℕ
  pub bytes_out : ℕ

-- `CounterVec` and `HistogramVec`
pub record Vec : Type 0 where
  pub labels : List Text
  pub adds : List (List Text × ℕ)

pub record Gauge : Type 0 where
  pub up : ℕ
  pub down : ℕ

pub record Metrics : Type 0 where
  pub matcher : Matcher
  pub captures : List Text
  pub requests : Option Vec
  pub inflight : Option Gauge
  pub latency : Option Vec
  pub bandwidth : Option Vec
  pub upstream_errors : Option Vec
  pub validation_errors : Option Vec
  pub clients_active : Option Gauge
  pub client_builds : Option Vec
  pub client_evictions : Option ℕ
  pub cache_hits : Option ℕ
  pub cache_misses : Option ℕ
  pub tunnels : Option ℕ

abbrev pub made {ℓ} : {A : Type ℓ} → Bool → A → Option A
made b a = if b then some a else none

abbrev pub new_vec : List Text → Vec
new_vec labels = record { labels = labels; adds = [] }

abbrev pub new_gauge : Gauge
new_gauge = record { up = 0; down = 0 }

-- `labels`
abbrev pub with_captures : List Text → List Text → List Text
with_captures captures fixed = fixed ++ captures

abbrev pub made_metrics : Collectors → Matcher → Metrics
made_metrics c matcher =
    let labels = with_captures matcher.captures in
    record {
      matcher = matcher;
      captures = matcher.captures;
      requests = made c.requests (
          new_vec (
            labels
              (text "host" ∷ text "method" ∷ text "status" ∷ text "browser" ∷ text "route" ∷ [])));
      inflight = made c.requests new_gauge;
      latency = made c.latency (new_vec (labels (text "host" ∷ text "route" ∷ [])));
      bandwidth =
          made c.bandwidth (new_vec (labels (text "host" ∷ text "route" ∷ text "direction" ∷ [])));
      upstream_errors = made c.upstream_errors (new_vec (text "host" ∷ text "kind" ∷ []));
      validation_errors = made c.validation_errors (new_vec (text "directive" ∷ []));
      clients_active = made c.clients new_gauge;
      client_builds = made c.clients (new_vec (text "browser" ∷ text "os" ∷ []));
      client_evictions = made c.clients 0;
      cache_hits = made c.clients 0;
      cache_misses = made c.clients 0;
      tunnels = made c.tunnels 0;
    }

-- Does registration take the labels of the vectors that are there? The labels that come from no route
-- are fixed, and taken.
abbrev pub is_registered : (List Text → Bool) → Collectors → List Text → Bool
is_registered accepts c captures =
    let labels = with_captures captures in
    (not c.requests
      || accepts (
          labels
            (text "host" ∷ text "method" ∷ text "status" ∷ text "browser" ∷ text "route" ∷ [])))
    && (not c.latency || accepts (labels (text "host" ∷ text "route" ∷ [])))
    && (not c.bandwidth || accepts (labels (text "host" ∷ text "route" ∷ text "direction" ∷ [])))

-- `New`. `accepts` is what prometheus thinks of a list of label names; `promauto` panics on one that it
-- does not accept.
unfoldable pub new : (List Text → Bool) → Options → Option (Checked Metrics)
new accepts o = elim (new_matcher o.routes) [
  | Checked.err e ↦ some (Checked.err e)
  | Checked.ok matcher ↦
      if is_registered accepts o.collectors matcher.captures
      then some (Checked.ok (made_metrics o.collectors matcher))
      else none
]

-- `Route`
unfoldable pub route_of : Metrics → Text → Text → Text
route_of m host path = (match m.matcher host path).0

-- A collector that may be nil, where the code tests it first.
abbrev pub if_there {ℓ κ} : {A : Type ℓ} {B : Type κ} → Option A → B → (A → B) → B
if_there none b f = b
if_there (some a) b f = f a

-- The closure `values`.
unfoldable pub captured_values : List Text → List (Text × Text) → List Text
unfolding lookup
captured_values [] labels = []
captured_values (name ∷ names) labels =
    get_or [] (lookup name labels) ∷ captured_values names labels

abbrev pub inc_gauge : Gauge → Gauge
inc_gauge g = record g { up = g.up + 1 }

abbrev pub dec_gauge : Gauge → Gauge
dec_gauge g = record g { down = g.down + 1 }

abbrev pub lowered : Option Gauge → Option (Option Gauge)
lowered none = none
lowered (some g) = some (some (dec_gauge g))

abbrev pub raised : Option Gauge → Option (Option Gauge)
raised none = none
raised (some g) = some (some (inc_gauge g))

unfoldable pub request_started : Metrics → Metrics
request_started m = if_there m.inflight m (λ g. record m { inflight = some (inc_gauge g) })

unfoldable pub tunnel_opened : Metrics → Metrics
tunnel_opened m = if_there m.tunnels m (λ n. record m { tunnels = some (n + 1) })

unfoldable pub cache_hit : Metrics → Metrics
cache_hit m = if_there m.cache_hits m (λ n. record m { cache_hits = some (n + 1) })

unfoldable pub cache_miss : Metrics → Metrics
cache_miss m = if_there m.cache_misses m (λ n. record m { cache_misses = some (n + 1) })

unfoldable pub client_evicted : Metrics → Option Metrics
client_evicted m = if_there m.client_evictions (some m) (λ n. do
  active ← lowered m.clients_active
  some (record m { client_evictions = some (n + 1); clients_active = active }))

-- The calls of the proxy's observer and of the cache's.
pub data Call : Type 0 where
  of_proxy : Event → Call
  cache_hit_call : Call
  cache_miss_call : Call
  client_built_call : Text → Text → Call
  client_evicted_call : Call

-- The request that `observer` hands on.
unfoldable pub request_of : RequestEvent → Request
request_of e = record {
  host = e.host;
  method = e.method;
  path = e.path;
  browser = e.browser;
  status = e.status;
  bytes_in = e.bytes_in;
  bytes_out = e.bytes_out;
}

module _ (is_valid : Text → Bool) where
  abbrev pub all_valid : List Text → Bool
  all_valid [] = true
  all_valid (t ∷ ts) = is_valid t && all_valid ts

  -- `WithLabelValues(values...).Add(amount)`
  unfoldable pub add : List Text → ℕ → Vec → Option Vec
  add values amount v =
      if length values == length v.labels && all_valid values
      then some (record v { adds = (values, amount) ∷ v.adds })
      else none

  -- The part of a method that adds to one vector, if it is there.
  abbrev pub add_there : Option Vec → List Text → ℕ → Option (Option Vec)
  add_there v values amount =
      if_there v (some none) (λ v. Base.◌>>=◌ (add values amount v) (λ v. some (some v)))

  -- `RequestFinished`. Only the requests' vector is tested before the gauge is lowered.
  unfoldable pub request_finished : Request → Metrics → Option Metrics
  request_finished r m =
      let (route, captured) = match m.matcher r.host r.path in
      let values = λ (fixed : List Text). fixed ++ captured_values m.captures captured in
      do
        requests ←
            add_there m.requests
              (values (r.host ∷ r.method ∷ itoa r.status ∷ r.browser ∷ route ∷ [])) 1
        inflight ← if_there m.requests (some m.inflight) (λ _. lowered m.inflight)
        latency ← add_there m.latency (values (r.host ∷ route ∷ [])) 1
        bandwidth_in ← add_there m.bandwidth (values (r.host ∷ route ∷ text "in" ∷ [])) r.bytes_in
        bandwidth_out ←
            add_there bandwidth_in (values (r.host ∷ route ∷ text "out" ∷ [])) r.bytes_out
        some (record m {
          requests = requests;
          inflight = inflight;
          latency = latency;
          bandwidth = bandwidth_out;
        })

  unfoldable pub validation_failed : Text → Metrics → Option Metrics
  validation_failed directive m = do
    v ← add_there m.validation_errors (directive ∷ []) 1
    some (record m { validation_errors = v })

  unfoldable pub upstream_error : Text → Text → Metrics → Option Metrics
  upstream_error host kind m = do
    v ← add_there m.upstream_errors (host ∷ kind ∷ []) 1
    some (record m { upstream_errors = v })

  unfoldable pub client_built : Text → Text → Metrics → Option Metrics
  client_built browser os m = if_there m.client_builds (some m) (λ v. do
    v' ← add (browser ∷ os ∷ []) 1 v
    active ← raised m.clients_active
    some (record m { client_builds = some v'; clients_active = active }))

  -- `observer`, for metrics that are there.
  unfoldable pub observe_event : Event → Metrics → Option Metrics
  observe_event Event.request_started m = some (request_started m)
  observe_event (Event.request_finished e) m = request_finished (request_of e) m
  observe_event (Event.validation_failed d) m = validation_failed d m
  observe_event (Event.upstream_error host kind) m = upstream_error host (kind_text kind) m
  observe_event Event.tunnel_opened m = some (tunnel_opened m)

  unfoldable pub observe_call : Call → Metrics → Option Metrics
  observe_call (of_proxy e) m = observe_event e m
  observe_call cache_hit_call m = some (cache_hit m)
  observe_call cache_miss_call m = some (cache_miss m)
  observe_call (client_built_call browser os) m = client_built browser os m
  observe_call client_evicted_call m = client_evicted m

  -- `observer`: nothing happens where there are no metrics.
  unfoldable pub observe : Call → Option Metrics → Option (Option Metrics)
  observe call none = some none
  observe call (some m) = Base.◌>>=◌ (observe_call call m) (λ m. some (some m))

  unfoldable pub observe_all : List Call → Metrics → Option Metrics
  observe_all [] m = some m
  observe_all (call ∷ calls) m = elim (observe_call call m) [
    | none ↦ none
    | some m' ↦ observe_all calls m'
  ]
