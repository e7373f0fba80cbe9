-- ===== src/Metrics/Registry/Wired.antt =====
-- internal/metrics/metrics.go: the collectors are made together and with labels for every value that the
-- methods give, and what a call does to them.
use tls_impersonate_proxy.Base.{
  ℕ, ◌+◌, ◌≡◌, refl, Bool, Option, none, some, List, [], ◌∷◌, ◌++◌, length, arith, is_some,
  if◌then◌else◌, if-elim, ◌∙◌,
}
use tls_impersonate_proxy.Text.{Text, text, itoa}
use tls_impersonate_proxy.Metrics.Routes.{Matcher, Checked, new_matcher, match}
use tls_impersonate_proxy.Impersonate.Classify.{kind_text}
use tls_impersonate_proxy.Proxy.Server.{Event, RequestEvent}
use tls_impersonate_proxy.Metrics.Registry.{
  Options, Vec, Gauge, Metrics, Call, new, captured_values, made_metrics, is_registered, of_proxy,
  cache_hit_call, cache_miss_call, client_built_call, client_evicted_call,
}

-- A vector that is there has so many labels.
abbrev pub HasLabels : ℕ → Option Vec → Type 0
HasLabels n none = Unit
HasLabels n (some v) = length v.labels ≡ n

pub record IsWired (m : Metrics) : Type 0 where
  pub paired : is_some m.requests ≡ is_some m.inflight
  pub built_pair : is_some m.client_builds ≡ is_some m.clients_active
  pub evicted_pair : is_some m.client_evictions ≡ is_some m.clients_active
  pub requests : HasLabels (5 + length m.captures) m.requests
  pub latency : HasLabels (2 + length m.captures) m.latency
  pub bandwidth : HasLabels (3 + length m.captures) m.bandwidth
  pub upstream_errors : HasLabels 2 m.upstream_errors
  pub validation_errors : HasLabels 1 m.validation_errors
  pub client_builds : HasLabels 2 m.client_builds

pub new-ok :
    (accepts : List Text → Bool) (o : Options) (m : Metrics)
    → new accepts o ≡ some (Checked.ok m)
    → (matcher : Matcher) × (made_metrics o.collectors matcher ≡ m)
unfolding new
new-ok accepts o m h = made (new_matcher o.routes) h
  where
    made :
        (c : Checked Matcher)
        → elim c [
          | Checked.err e ↦ some (Checked.err e)
          | Checked.ok matcher ↦
              if is_registered accepts o.collectors matcher.captures
              then some (Checked.ok (made_metrics o.collectors matcher))
              else none
        ]
          ≡ some (Checked.ok m)
        → (matcher : Matcher) × (made_metrics o.collectors matcher ≡ m)
    made (Checked.err e) h = cc
    made (Checked.ok matcher) h = (
      matcher,
      if-elim (λ r. r ≡ some (Checked.ok m) → made_metrics o.collectors matcher ≡ m)
          (is_registered accepts o.collectors matcher.captures) (λ _ h. cc) (λ _ h. cc) h,
    )

pub new-IsWired :
    (accepts : List Text → Bool) (o : Options) (m : Metrics)
    → new accepts o ≡ some (Checked.ok m)
    → IsWired m
new-IsWired accepts o m h =
    let (matcher, same) = new-ok accepts o m h in
    rw (← same) (record {
      paired = ground arith;
      built_pair = ground arith;
      evicted_pair = ground arith;
      requests = ground arith;
      latency = ground arith;
      bandwidth = ground arith;
      upstream_errors = ground arith;
      validation_errors = ground arith;
      client_builds = ground arith;
    })

pub length-captured_values :
    (names : List Text) (labels : List (Text × Text))
    → length (captured_values names labels) ≡ length names
unfolding captured_values
length-captured_values [] labels = refl
length-captured_values (name ∷ names) labels = omega (arith, length-captured_values names labels)

-- What a call does to the collectors, where it does not panic: each one that is there is added to.
abbrev pub pushed : List Text → ℕ → Option Vec → Option Vec
pushed values amount none = none
pushed values amount (some v) = some (record v { adds = (values, amount) ∷ v.adds })

abbrev pub counted : Option ℕ → Option ℕ
counted none = none
counted (some n) = some (n + 1)

abbrev pub up_one : Option Gauge → Option Gauge
up_one none = none
up_one (some g) = some (record g { up = g.up + 1 })

abbrev pub down_one : Option Gauge → Option Gauge
down_one none = none
down_one (some g) = some (record g { down = g.down + 1 })

-- The label values of a call, with the matcher and the captures of the metrics.
abbrev pub values_of : Matcher → List Text → Call → List Text
values_of matcher captures (of_proxy Event.request_started) = []
values_of matcher captures (of_proxy (Event.request_finished e)) =
    let (route, captured) = match matcher e.host e.path in
    e.host
    ∷ e.method
    ∷ itoa e.status
    ∷ e.browser
    ∷ route
    ∷ text "in"
    ∷ text "out"
    ∷ captured_values captures captured
values_of matcher captures (of_proxy (Event.validation_failed d)) = d ∷ []
values_of matcher captures (of_proxy (Event.upstream_error host kind)) = host ∷ kind_text kind ∷ []
values_of matcher captures (of_proxy Event.tunnel_opened) = []
values_of matcher captures cache_hit_call = []
values_of matcher captures cache_miss_call = []
values_of matcher captures (client_built_call browser os) = browser ∷ os ∷ []
values_of matcher captures client_evicted_call = []

abbrev pub finished_values : Matcher → List Text → List Text → RequestEvent → List Text
finished_values matcher captures fixed e =
    fixed ++ captured_values captures (match matcher e.host e.path).1

abbrev pub after : Call → Metrics → Metrics
after (of_proxy Event.request_started) m = record m { inflight = up_one m.inflight }
after (of_proxy (Event.request_finished e)) m =
    let route = (match m.matcher e.host e.path).0 in
    record m {
      requests =
          pushed
            (finished_values m.matcher m.captures
              (e.host ∷ e.method ∷ itoa e.status ∷ e.browser ∷ route ∷ []) e)
            1 m.requests;
      inflight = down_one m.inflight;
      latency = pushed (finished_values m.matcher m.captures (e.host ∷ route ∷ []) e) 1 m.latency;
      bandwidth =
          pushed (finished_values m.matcher m.captures (e.host ∷ route ∷ text "out" ∷ []) e)
            e.bytes_out
            (pushed (finished_values m.matcher m.captures (e.host ∷ route ∷ text "in" ∷ []) e)
              e.bytes_in m.bandwidth);
    }
after (of_proxy (Event.validation_failed d)) m = record m {
  validation_errors = pushed (d ∷ []) 1 m.validation_errors;
}
after (of_proxy (Event.upstream_error host kind)) m = record m {
  upstream_errors = pushed (host ∷ kind_text kind ∷ []) 1 m.upstream_errors;
}
after (of_proxy Event.tunnel_opened) m = record m { tunnels = counted m.tunnels }
after cache_hit_call m = record m { cache_hits = counted m.cache_hits }
after cache_miss_call m = record m { cache_misses = counted m.cache_misses }
after (client_built_call browser os) m = record m {
  client_builds = pushed (browser ∷ os ∷ []) 1 m.client_builds;
  clients_active = up_one m.clients_active;
}
after client_evicted_call m = record m {
  client_evictions = counted m.client_evictions;
  clients_active = down_one m.clients_active;
}

pub HasLabels-pushed :
    (n amount : ℕ) (values : List Text) (v : Option Vec)
    → HasLabels n v
    → HasLabels n (pushed values amount v)
HasLabels-pushed n amount values none h = tt
HasLabels-pushed n amount values (some v) h = h

is_some-pushed :
    (amount : ℕ) (values : List Text) (v : Option Vec)
    → is_some (pushed values amount v) ≡ is_some v
is_some-pushed amount values none = refl
is_some-pushed amount values (some v) = refl

pub after-IsWired : (call : Call) (m : Metrics) → IsWired m → IsWired (after call m)
after-IsWired (of_proxy Event.request_started) m w = ground arith
after-IsWired (of_proxy (Event.request_finished e)) m w = record {
  paired = is_some-pushed _ _ m.requests ∙ (w.paired ∙ ground arith);
  built_pair = w.built_pair;
  evicted_pair = w.evicted_pair;
  upstream_errors = w.upstream_errors;
  validation_errors = w.validation_errors;
  client_builds = w.client_builds;
  requests = HasLabels-pushed _ _ _ m.requests w.requests;
  latency = HasLabels-pushed _ _ _ m.latency w.latency;
  bandwidth =
      HasLabels-pushed _ _ _ (pushed _ _ m.bandwidth)
        (HasLabels-pushed _ _ _ m.bandwidth w.bandwidth);
}
after-IsWired (of_proxy (Event.validation_failed d)) m w = ground arith
after-IsWired (of_proxy (Event.upstream_error host kind)) m w = ground arith
after-IsWired (of_proxy Event.tunnel_opened) m w = ground arith
after-IsWired cache_hit_call m w = ground arith
after-IsWired cache_miss_call m w = ground arith
after-IsWired (client_built_call browser os) m w = ground arith
after-IsWired client_evicted_call m w = ground arith
