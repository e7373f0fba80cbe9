-- ===== src/Metrics/Registry/Counts.antt =====
-- internal/metrics/metrics.go: what the collectors show of any sequence of calls.
use tls_impersonate_proxy.Base.{
  ℕ, suc, ◌+◌, ◌≡◌, refl, Bool, true, false, Option, none, some, List, [], ◌∷◌, ◌++◌, arith,
  append_assoc, All, ◌∙◌, ap, sym, if◌then◌else◌,
}
use tls_impersonate_proxy.Text.{Text, text, itoa}
use tls_impersonate_proxy.Metrics.Routes.{Matcher, Checked, match}
use tls_impersonate_proxy.Impersonate.Classify.{kind_text}
use tls_impersonate_proxy.Proxy.Server.{Event, RequestEvent}
use tls_impersonate_proxy.Metrics.Registry.{
  Options, Vec, Gauge, Metrics, Call, new, all_valid, observe_all, of_proxy, cache_hit_call,
  cache_miss_call, client_built_call, client_evicted_call,
}
use tls_impersonate_proxy.Metrics.Registry.Wired.{
  IsWired, new-IsWired, pushed, counted, up_one, down_one, finished_values, values_of, after,
  after-IsWired,
}
use tls_impersonate_proxy.Metrics.Registry.Laws.{observe_call-after}

abbrev pub count : (Call → Bool) → List Call → ℕ
count p [] = 0
count p (c ∷ cs) = if p c then suc (count p cs) else count p cs

abbrev pub is_started : Call → Bool
is_started (of_proxy Event.request_started) = true
is_started c = false

abbrev pub is_finished : Call → Bool
is_finished (of_proxy (Event.request_finished e)) = true
is_finished c = false

abbrev pub is_opened : Call → Bool
is_opened (of_proxy Event.tunnel_opened) = true
is_opened c = false

abbrev pub is_hit : Call → Bool
is_hit cache_hit_call = true
is_hit c = false

abbrev pub is_miss : Call → Bool
is_miss cache_miss_call = true
is_miss c = false

abbrev pub is_built : Call → Bool
is_built (client_built_call browser os) = true
is_built c = false

abbrev pub is_evicted : Call → Bool
is_evicted client_evicted_call = true
is_evicted c = false

abbrev pub Adds : Type 0
Adds = List (List Text × ℕ)

-- The additions of the calls to one vector, the latest first.
abbrev joined : Adds → Adds → Adds
joined later [] = later
joined later (x ∷ xs) = later ++ x ∷ xs

abbrev pub adds : (Call → Adds) → List Call → Adds
adds f [] = []
adds f (c ∷ cs) = joined (adds f cs) (f c)

abbrev pub validation_adds : Call → Adds
validation_adds (of_proxy (Event.validation_failed d)) = (d ∷ [], 1) ∷ []
validation_adds c = []

abbrev pub upstream_adds : Call → Adds
upstream_adds (of_proxy (Event.upstream_error host kind)) = (host ∷ kind_text kind ∷ [], 1) ∷ []
upstream_adds c = []

abbrev pub build_adds : Call → Adds
build_adds (client_built_call browser os) = (browser ∷ os ∷ [], 1) ∷ []
build_adds c = []

module _ (matcher : Matcher) (captures : List Text) where
  abbrev route : RequestEvent → Text
  route e = (match matcher e.host e.path).0

  abbrev pub request_adds : Call → Adds
  request_adds (of_proxy (Event.request_finished e)) =
      (
        finished_values matcher captures
            (e.host ∷ e.method ∷ itoa e.status ∷ e.browser ∷ route e ∷ []) e,
        1,
      )
      ∷ []
  request_adds c = []

  abbrev pub latency_adds : Call → Adds
  latency_adds (of_proxy (Event.request_finished e)) =
      (finished_values matcher captures (e.host ∷ route e ∷ []) e, 1) ∷ []
  latency_adds c = []

  abbrev pub bandwidth_adds : Call → Adds
  bandwidth_adds (of_proxy (Event.request_finished e)) =
      (finished_values matcher captures (e.host ∷ route e ∷ text "out" ∷ []) e, e.bytes_out)
      ∷ (finished_values matcher captures (e.host ∷ route e ∷ text "in" ∷ []) e, e.bytes_in)
      ∷ []
  bandwidth_adds c = []

abbrev pub moved : ℕ → ℕ → Option Gauge → Option Gauge
moved a b none = none
moved a b (some g) = some (record g { up = g.up + a; down = g.down + b })

abbrev pub plus : ℕ → Option ℕ → Option ℕ
plus a none = none
plus a (some n) = some (n + a)

abbrev pub logged : Adds → Option Vec → Option Vec
logged l none = none
logged l (some v) = some (record v { adds = l ++ v.adds })

-- The metrics behind the calls, if each collector that is there shows the calls that concern it and no
-- others: the gauges and counters their numbers, the vectors their label values and amounts.
abbrev pub shown : List Call → Metrics → Metrics
shown calls m = record m {
  inflight = moved (count is_started calls) (count is_finished calls) m.inflight;
  clients_active = moved (count is_built calls) (count is_evicted calls) m.clients_active;
  client_evictions = plus (count is_evicted calls) m.client_evictions;
  cache_hits = plus (count is_hit calls) m.cache_hits;
  cache_misses = plus (count is_miss calls) m.cache_misses;
  tunnels = plus (count is_opened calls) m.tunnels;
  validation_errors = logged (adds validation_adds calls) m.validation_errors;
  upstream_errors = logged (adds upstream_adds calls) m.upstream_errors;
  client_builds = logged (adds build_adds calls) m.client_builds;
  requests = logged (adds (request_adds m.matcher m.captures) calls) m.requests;
  latency = logged (adds (latency_adds m.matcher m.captures) calls) m.latency;
  bandwidth = logged (adds (bandwidth_adds m.matcher m.captures) calls) m.bandwidth;
}

moved-up_one : (a b : ℕ) (g : Option Gauge) → moved a b (up_one g) ≡ moved (suc a) b g
moved-up_one a b none = refl
moved-up_one a b (some g) = ground arith

moved-down_one : (a b : ℕ) (g : Option Gauge) → moved a b (down_one g) ≡ moved a (suc b) g
moved-down_one a b none = refl
moved-down_one a b (some g) = ground arith

plus-counted : (a : ℕ) (n : Option ℕ) → plus a (counted n) ≡ plus (suc a) n
plus-counted a none = refl
plus-counted a (some n) = ground arith

logged-pushed :
    (l : Adds) (values : List Text) (amount : ℕ) (v : Option Vec)
    → logged l (pushed values amount v) ≡ logged (l ++ (values, amount) ∷ []) v
logged-pushed l values amount none = refl
logged-pushed l values amount (some v) =
    ap (λ (a : Adds). some (record v { adds = a }))
      (sym (append_assoc l ((values, amount) ∷ []) v.adds))

moved_none : (g : Option Gauge) → moved 0 0 g ≡ g
moved_none none = refl
moved_none (some g) = ground arith

plus_none : (n : Option ℕ) → plus 0 n ≡ n
plus_none none = refl
plus_none (some n) = ground arith

logged_none : (v : Option Vec) → logged [] v ≡ v
logged_none none = refl
logged_none (some v) = refl

shown-nil : (m : Metrics) → shown [] m ≡ m
shown-nil m = simp (moved_none, plus_none, logged_none)

shown-after : (c : Call) (cs : List Call) (m : Metrics) → shown cs (after c m) ≡ shown (c ∷ cs) m
shown-after (of_proxy Event.request_started) cs m = rw moved-up_one refl
shown-after (of_proxy (Event.request_finished e)) cs m =
    simp (logged-pushed, moved-down_one, append_assoc)
shown-after (of_proxy (Event.validation_failed d)) cs m = rw logged-pushed refl
shown-after (of_proxy (Event.upstream_error host kind)) cs m = rw logged-pushed refl
shown-after (of_proxy Event.tunnel_opened) cs m = rw plus-counted refl
shown-after cache_hit_call cs m = rw plus-counted refl
shown-after cache_miss_call cs m = rw plus-counted refl
shown-after (client_built_call browser os) cs m = rw (logged-pushed, moved-up_one) refl
shown-after client_evicted_call cs m = rw (plus-counted, moved-down_one) refl

abbrev pub AllValid : (Text → Bool) → Matcher → List Text → List Call → Type 0
AllValid is_valid matcher captures calls =
    All (λ c. all_valid is_valid (values_of matcher captures c) ≡ true) calls

matcher-after :
    (c : Call) (m : Metrics)
    → ((after c m).matcher ≡ m.matcher) × ((after c m).captures ≡ m.captures)
matcher-after (of_proxy Event.request_started) m = (refl, refl)
matcher-after (of_proxy (Event.request_finished e)) m = (refl, refl)
matcher-after (of_proxy (Event.validation_failed d)) m = (refl, refl)
matcher-after (of_proxy (Event.upstream_error host kind)) m = (refl, refl)
matcher-after (of_proxy Event.tunnel_opened) m = (refl, refl)
matcher-after cache_hit_call m = (refl, refl)
matcher-after cache_miss_call m = (refl, refl)
matcher-after (client_built_call browser os) m = (refl, refl)
matcher-after client_evicted_call m = (refl, refl)

observe_all-shown :
    (is_valid : Text → Bool) (calls : List Call) (m : Metrics)
    → IsWired m
    → AllValid is_valid m.matcher m.captures calls
    → observe_all is_valid calls m ≡ some (shown calls m)
unfolding observe_all
observe_all-shown is_valid [] m w valid = ap some (sym (shown-nil m))
observe_all-shown is_valid (c ∷ cs) m w (q, valid) =
    let (same, names) = matcher-after c m in
    let ih =
      observe_all-shown is_valid cs (after c m) (after-IsWired c m w) (rw (same, names) valid) in
    rw (observe_call-after is_valid c m w q, observe_all) (ih ∙ ap some (shown-after c cs m))

-- Whatever metrics `New` makes, and whatever sequence of the proxy's and the cache's calls they are
-- given: if every label value is valid UTF-8, no call panics, and behind the calls each collector that
-- is there shows exactly the calls that concern it. The gauge of requests in flight is raised by the
-- started and lowered by the finished requests, that of clients by the built and the evicted ones; the
-- counters are the numbers of their calls; each vector has one addition for each of its calls, with the
-- call's labels, the latest first. The rest of the metrics stays as it is.
pub observe_all-new :
    (is_valid : Text → Bool) (accepts : List Text → Bool) (o : Options) (m : Metrics)
    (calls : List Call)
    → new accepts o ≡ some (Checked.ok m)
    → AllValid is_valid m.matcher m.captures calls
    → observe_all is_valid calls m ≡ some (shown calls m)
observe_all-new is_valid accepts o m calls h valid =
    observe_all-shown is_valid calls m (new-IsWired accepts o m h) valid
