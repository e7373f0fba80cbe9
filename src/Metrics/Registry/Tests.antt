-- ===== src/Metrics/Registry/Tests.antt =====
-- internal/metrics/metrics.go: a run of the collectors, and the theorems at a concrete table.
use tls_impersonate_proxy.Base.{
  ap, ◌≡◌, refl, Bool, true, false, not, none, some, List, [], ◌∷◌, ◌++◌,
}
use tls_impersonate_proxy.Text.{
  Text, text, text_eq, contains_text, lower, split, cut, cut_prefix, has_suffix, text_le, itoa,
  digits_from,
}
use tls_impersonate_proxy.Assoc.{lookup}
use tls_impersonate_proxy.Metrics.Routes.{
  Checked, new_matcher, compile, match, match_host, match_path,
}
use tls_impersonate_proxy.Impersonate.Classify.{Kind, kind_text}
use tls_impersonate_proxy.Proxy.Server.{Event, RequestEvent}
use tls_impersonate_proxy.Metrics.Registry.{
  Options, Metrics, Call, new, made_metrics, captured_values, observe_call, observe_all, of_proxy,
  cache_hit_call,
}
use tls_impersonate_proxy.Metrics.Registry.Laws.{request_finished-invalid}
use tls_impersonate_proxy.Metrics.Registry.Labels.{is_repeated, new-is_repeated}
use tls_impersonate_proxy.Metrics.Registry.Counts.{shown, observe_all-new}

program : Unit {0}
unfolding text_eq contains_text lower split cut cut_prefix has_suffix text_le itoa digits_from
    lookup new_matcher compile match match_path match_host kind_text new captured_values
program = tt

abbrev options : Options
options = record {
  collectors = record {
    requests = true;
    latency = false;
    bandwidth = true;
    upstream_errors = true;
    validation_errors = false;
    clients = true;
    tunnels = true;
  };
  routes =
      record {
        name = text "user";
        host = text "a.b";
        path = text "/user/:id";
        capture = text "id" ∷ [];
      }
      ∷ [];
}

abbrev metrics : Metrics
metrics = made_metrics options.collectors (record {
  routes =
      record {
        name = text "user";
        host = text "a.b";
        segments = text "user" ∷ text ":id" ∷ [];
        capture = text "id" ∷ [];
      }
      ∷ [];
  captures = text "id" ∷ [];
})

abbrev accepts : List Text → Bool
accepts labels = not (is_repeated labels)

made : new accepts options ≡ some (Checked.ok metrics)
unfolding program
made = refl

abbrev ended : Text → RequestEvent
ended path = record {
  host = text "a.b";
  method = text "GET";
  path = path;
  browser = text "chrome";
  route = text "user";
  status = 200;
  bytes_in = 3;
  bytes_out = 7;
}

-- A text with the code point 0xdcff, which stands for a byte that is no UTF-8.
abbrev is_valid : Text → Bool
is_valid t = not (text_eq t (0xdcff ∷ []))

abbrev calls : List Call
calls =
    of_proxy Event.tunnel_opened
    ∷ of_proxy Event.request_started
    ∷ cache_hit_call
    ∷ of_proxy (Event.upstream_error (text "a.b") Kind.dial)
    ∷ of_proxy (Event.request_finished (ended (text "/user/42")))
    ∷ []

observe_all-new_example : observe_all is_valid calls metrics ≡ some (shown calls metrics)
unfolding program
observe_all-new_example =
    observe_all-new is_valid accepts options metrics calls made
      (refl, (refl, (refl, (refl, (refl, tt)))))

request_finished-invalid_example :
    observe_call is_valid
      (of_proxy (Event.request_finished (ended (text "/user/" ++ 0xdcff ∷ []))))
      metrics
    ≡ none
unfolding program
request_finished-invalid_example =
    request_finished-invalid is_valid accepts options metrics (ended (text "/user/" ++ 0xdcff ∷ []))
      made refl refl

abbrev clashing : Options
clashing = record options {
  routes =
      record {
        name = text "by_host";
        host = text "a.b";
        path = text "/:host";
        capture = text "host" ∷ [];
      }
      ∷ [];
}

new-is_repeated_example : new accepts clashing ≡ none
unfolding program
new-is_repeated_example =
    new-is_repeated accepts clashing
      (record {
        routes =
            record {
              name = text "by_host";
              host = text "a.b";
              segments = text ":host" ∷ [];
              capture = text "host" ∷ [];
            }
            ∷ [];
        captures = text "host" ∷ [];
      })
      (text "host") (λ labels twice. ap not twice) refl refl refl refl
