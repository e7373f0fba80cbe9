-- ===== src/Proxy/Server.antt =====
-- internal/proxy: proxy.go (the server's state), handler.go (the state of a request), roundtrip.go
-- (`finish`), observer.go.
use tls_impersonate_proxy.Base.{ℕ, ◌+◌, Bool, Option, none, List, [], ◌∷◌, ◌++◌, ltb}
use tls_impersonate_proxy.Text.{Text}
use tls_impersonate_proxy.Net.{Url}
use tls_impersonate_proxy.Impersonate.Classify.{Kind}
use tls_impersonate_proxy.Directive.Types.{Directive, zero_directive, Spec, spec_of}
use tls_impersonate_proxy.Directive.Parse.{Header}

-- The durations are left out.
pub record RequestEvent : Type 0 where
  pub host : Text
  pub method : Text
  pub path : Text
  pub browser : Text
  pub route : Text
  pub status : ℕ
  pub bytes_in : ℕ
  pub bytes_out : ℕ

-- The calls of the observer.
pub data Event : Type 0 where
  request_started : Event
  request_finished : RequestEvent → Event
  validation_failed : Text → Event
  upstream_error : Text → Kind → Event
  tunnel_opened : Event

-- The atomic counter `active` is the difference of the two sums of what was added and taken so far.
pub record Server : Type 0 where
  pub started : ℕ
  pub finished : ℕ
  pub draining : Bool
  pub events : List Event

-- `active.Load() > 0`
abbrev pub is_active : Server → Bool
is_active s = ltb s.finished s.started

pub record Request : Type 0 where
  pub method : Text
  pub url : Url
  pub path : Text
  pub host : Text
  pub header : Header

pub record State : Type 0 where
  pub directive : Directive
  pub spec : Spec
  pub accept : List Text
  pub original : Option Header
  pub bytes_in : ℕ
  pub method : Text
  pub host : Text
  pub path : Text
  pub scheme : Text

-- The state that `onRequest` makes first.
unfoldable pub new_state : Request → State
new_state req = record {
  directive = zero_directive;
  spec = spec_of zero_directive;
  accept = [];
  original = none;
  bytes_in = 0;
  method = req.method;
  host = req.url.hostname;
  path = req.path;
  scheme = req.url.scheme;
}

unfoldable pub tell : Event → Server → Server
tell e s = record s { events = s.events ++ e ∷ [] }

-- `active.Add(1)` and `RequestStarted`
unfoldable pub start : Server → Server
start s = record s { started = s.started + 1; events = s.events ++ request_started ∷ [] }

-- `finish`; the count goes down last.
unfoldable pub finish : (Text → Text → Text) → State → ℕ → ℕ → Server → Server
finish route st status bytes_out s =
    let event : RequestEvent = record {
      host = st.host;
      method = st.method;
      path = st.path;
      browser = st.spec.browser;
      route = route st.host st.path;
      status = status;
      bytes_in = st.bytes_in;
      bytes_out = bytes_out;
    } in
    record s { finished = s.finished + 1; events = s.events ++ request_finished event ∷ [] }

-- `Drain` stores the flag first and then polls `active`.
unfoldable pub drain_start : Server → Server
drain_start s = record s { draining = Bool.true }
