-- ===== src/Metrics/Registry/Laws.antt =====
-- internal/metrics/metrics.go: no method panics on values that are valid UTF-8, and one does on another.
use tls_impersonate_proxy.Base.{
  ℕ, suc, ◌≡◌, refl, inl, inr, Bool, true, false, Option, none, some, List, [], ◌∷◌, ◌++◌, length,
  arith, is_some, Option-cases, ap, ◌∙◌, sym, subst,
}
use tls_impersonate_proxy.Text.{Text, text, itoa}
use tls_impersonate_proxy.Metrics.Routes.{Checked, match}
use tls_impersonate_proxy.Impersonate.Classify.{kind_text}
use tls_impersonate_proxy.Proxy.Server.{Event, RequestEvent}
use tls_impersonate_proxy.Metrics.Registry.{
  Options, Vec, Gauge, Metrics, Call, new, captured_values, request_started, tunnel_opened,
  cache_hit, cache_miss, client_evicted, all_valid, add, add_there, request_finished, request_of,
  validation_failed, upstream_error, client_built, observe_event, observe_call, lowered, if_there,
  of_proxy, cache_hit_call, cache_miss_call, client_built_call, client_evicted_call,
}
use tls_impersonate_proxy.Metrics.Registry.Wired.{
  HasLabels, IsWired, new-ok, length-captured_values, pushed, down_one, values_of, after,
  HasLabels-pushed,
}

module _ (is_valid : Text → Bool) where
  add-ok :
      (values : List Text) (amount : ℕ) (v : Vec)
      → length values ≡ length v.labels
      → all_valid is_valid values ≡ true
      → add is_valid values amount v ≡ some (record v { adds = (values, amount) ∷ v.adds })
  unfolding add
  add-ok values amount v l q = ground arith

  add_there-ok :
      (n : ℕ) (v : Option Vec) (values : List Text) (amount : ℕ)
      → HasLabels n v
      → length values ≡ n
      → all_valid is_valid values ≡ true
      → add_there is_valid v values amount ≡ some (pushed values amount v)
  add_there-ok n none values amount h l q = refl
  add_there-ok n (some v) values amount h l q = rw (add-ok values amount v (l ∙ sym h) q)

  all_valid-append :
      (xs ys : List Text)
      → all_valid is_valid xs ≡ true
      → all_valid is_valid ys ≡ true
      → all_valid is_valid (xs ++ ys) ≡ true
  all_valid-append [] ys h g = g
  all_valid-append (x ∷ xs) ys h g = ground (arith, all_valid-append xs ys)

  lowered-ok :
      (v : Option Vec) (g : Option Gauge)
      → is_some v ≡ is_some g
      → if_there v (some g) (λ _. lowered g) ≡ some (down_one g)
  lowered-ok none none h = refl
  lowered-ok none (some g) h = cc
  lowered-ok (some v) none h = cc
  lowered-ok (some v) (some g) h = refl

  request_finished-ok :
      (e : RequestEvent) (m : Metrics)
      → IsWired m
      → all_valid is_valid (values_of m.matcher m.captures (of_proxy (Event.request_finished e)))
        ≡ true
      → request_finished is_valid (request_of e) m
        ≡ some (after (of_proxy (Event.request_finished e)) m)
  unfolding request_finished request_of
  request_finished-ok e m w q =
      let (route, captured) = match m.matcher e.host e.path in
      let captured_valid : all_valid is_valid (captured_values m.captures captured) ≡ true =
        ground arith in
      let n = length-captured_values m.captures captured in
      rw
        (
          add_there-ok _ m.requests _ 1 w.requests
              (ap (λ (k : ℕ). suc (suc (suc (suc (suc k))))) n ∙ omega arith)
              (all_valid-append (e.host ∷ e.method ∷ itoa e.status ∷ e.browser ∷ route ∷ []) _
                (ground arith) captured_valid),
          lowered-ok m.requests m.inflight w.paired,
          add_there-ok _ m.latency _ 1 w.latency (ap (λ (k : ℕ). suc (suc k)) n ∙ omega arith)
              (all_valid-append (e.host ∷ route ∷ []) _ (ground arith) captured_valid),
          add_there-ok _ m.bandwidth _ e.bytes_in w.bandwidth
              (ap (λ (k : ℕ). suc (suc (suc k))) n ∙ omega arith)
              (all_valid-append (e.host ∷ route ∷ text "in" ∷ []) _ (ground arith) captured_valid),
          add_there-ok _ (pushed _ _ m.bandwidth) _ e.bytes_out
              (HasLabels-pushed _ _ _ m.bandwidth w.bandwidth)
              (ap (λ (k : ℕ). suc (suc (suc k))) n ∙ omega arith)
              (all_valid-append (e.host ∷ route ∷ text "out" ∷ []) _ (ground arith) captured_valid),
        )
        refl

  -- A call whose label values are valid does not panic, and does just this.
  pub observe_call-after :
      (call : Call) (m : Metrics)
      → IsWired m
      → all_valid is_valid (values_of m.matcher m.captures call) ≡ true
      → observe_call is_valid call m ≡ some (after call m)
  unfolding observe_call observe_event request_started tunnel_opened cache_hit cache_miss
      validation_failed upstream_error client_built client_evicted
  observe_call-after (of_proxy Event.request_started) m w q = ground arith
  observe_call-after (of_proxy (Event.request_finished e)) m w q = request_finished-ok e m w q
  observe_call-after (of_proxy (Event.validation_failed d)) m w q =
      rw (add_there-ok 1 m.validation_errors (d ∷ []) 1 w.validation_errors refl q) refl
  observe_call-after (of_proxy (Event.upstream_error host kind)) m w q =
      rw (add_there-ok 2 m.upstream_errors (host ∷ kind_text kind ∷ []) 1 w.upstream_errors refl q)
        refl
  observe_call-after (of_proxy Event.tunnel_opened) m w q = ground arith
  observe_call-after cache_hit_call m w q = ground arith
  observe_call-after cache_miss_call m w q = ground arith
  observe_call-after (client_built_call browser os) m w q = elim (Option-cases m.client_builds) [
    | inl e ↦ ground arith
    | inr (v, e) ↦
        let labels : HasLabels 2 (some v) = subst (HasLabels 2) e w.client_builds in
        ground (arith, add-ok (browser ∷ os ∷ []) 1 v (sym labels) q)
  ]
  observe_call-after client_evicted_call m w q = ground arith

requests_there :
    (accepts : List Text → Bool) (o : Options) (m : Metrics)
    → new accepts o ≡ some (Checked.ok m)
    → o.collectors.requests ≡ true
    → (v : Vec) × (m.requests ≡ some v)
requests_there accepts o m h on =
    let (matcher, same) = new-ok accepts o m h in rw (← same, on) (_, refl)

module _ (is_valid : Text → Bool) where
  append-invalid :
      (xs ys : List Text) → all_valid is_valid ys ≡ false → all_valid is_valid (xs ++ ys) ≡ false
  append-invalid [] ys h = h
  append-invalid (x ∷ xs) ys h = ground (arith, append-invalid xs ys)

  add-invalid :
      (values : List Text) (amount : ℕ) (v : Vec)
      → all_valid is_valid values ≡ false
      → add is_valid values amount v ≡ none
  unfolding add
  add-invalid values amount v h = ground arith

  -- In metrics that `New` makes with a counter of the requests, a call that finishes a request panics if
  -- a segment that the route table captures from the request's path is not valid UTF-8.
  pub request_finished-invalid :
      (accepts : List Text → Bool) (o : Options) (m : Metrics) (e : RequestEvent)
      → new accepts o ≡ some (Checked.ok m)
      → o.collectors.requests ≡ true
      → all_valid is_valid (captured_values m.captures (match m.matcher e.host e.path).1) ≡ false
      → observe_call is_valid (of_proxy (Event.request_finished e)) m ≡ none
  unfolding observe_call observe_event request_finished request_of
  request_finished-invalid accepts o m e h on bad =
      let (v, there) = requests_there accepts o m h on in
      let route = (match m.matcher e.host e.path).0 in
      rw
        (
          there,
          add-invalid _ 1 v
              (append-invalid (e.host ∷ e.method ∷ itoa e.status ∷ e.browser ∷ route ∷ []) _ bad),
        )
        refl
