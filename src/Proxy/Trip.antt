-- ===== src/Proxy/Trip.antt =====
-- internal/proxy/roundtrip.go: `RoundTrip`, from the client's answer to the close of the response's body,
-- with body.go's `closeHook` and the count of the bytes that leave. What the client answers is an argument.
pub mod Laws
pub mod Tests
use tls_impersonate_proxy.Base.{
  ℕ, ◌+◌, Bool, true, false, ◌&&◌, ◌||◌, Option, none, some, List, [], ◌∷◌, ltb, ◌==◌,
  if◌then◌else◌,
}
use tls_impersonate_proxy.Text.{Text}
use tls_impersonate_proxy.Net.{Url}
use tls_impersonate_proxy.Connect.{Memo, Cause, HopError}
use tls_impersonate_proxy.Impersonate.Classify.{Failure}
use tls_impersonate_proxy.Directive.Parse.{strip}
use tls_impersonate_proxy.Proxy.Diagnosis.{Seen, diagnose}
use tls_impersonate_proxy.Proxy.Errors.{Response, upstream_failure}
use tls_impersonate_proxy.Proxy.Encoding.{Reply, Opening, negotiate}
use tls_impersonate_proxy.Proxy.Server.{Server, State, tell, finish, upstream_error}

-- The timeout of a request: its own counts where it is shorter than the server's, or where that has none.
unfoldable pub timeout_of : ℕ → ℕ → ℕ
timeout_of ceiling asked =
    if ltb 0 asked && (ceiling == 0 || ltb asked ceiling) then asked else ceiling

-- A response's body in the client's hands. `done` says that `closeHook.once` has run; `out` is what was read of the
-- upstream's body, before any decoder.
pub record Body : Type 0 where
  pub state : State
  pub status : ℕ
  pub out : ℕ
  pub done : Bool
  pub closes : ℕ

-- The response that goes to the client: one of the proxy's own, or the upstream's with its body.
pub data Reached : Type 0 where
  own : Response → Reached
  upstream : Reply → Body → Reached

pub record Exchange : Type 0 where
  pub server : Server
  pub releases : ℕ
  pub cancels : ℕ
  pub reached : Reached

-- What the client's `RoundTrip` gives: an error with what the memo and the capture then hold, or a response.
pub data Result : Type 0 where
  failed : Failure → Memo → Bool → Result
  got : Reply → Result

unfoldable pub cleaned : Text → List Text → Reply → (Text → Text → Opening) → Reply
cleaned mode accept reply opens =
    let r = record reply { header = strip reply.header } in
    if reply.status_code == 101 then r else negotiate opens mode accept r

-- What happens to the exchange after that: the client reads from the response's body, the upstream reads
-- from the request's, or the body is closed.
pub data Op : Type 0 where
  read sent : ℕ → Op
  close : Op

unfoldable pub read_body : ℕ → Exchange → Exchange
read_body n x = elim x.reached [
  | own r ↦ x
  | upstream r b ↦ record x { reached = upstream r (record b { out = b.out + n }) }
]

unfoldable pub sent_body : ℕ → Exchange → Exchange
sent_body n x = elim x.reached [
  | own r ↦ x
  | upstream r b ↦ record x {
    reached = upstream r (record b { state = record b.state { bytes_in = b.state.bytes_in + n } });
  }
]

module _ (route : Text → Text → Text) where
  -- `closeHook.Close`; the body of an answer of the proxy's own is `http.NoBody`.
  unfoldable pub close_body : Exchange → Exchange
  close_body x = elim x.reached [
    | own r ↦ x
    | upstream r b ↦
        let closed = record b { closes = b.closes + 1; done = true } in
        if b.done then record x { reached = upstream r closed } else record x {
          server = finish route b.state b.status b.out x.server;
          releases = x.releases + 1;
          cancels = x.cancels + 1;
          reached = upstream r closed;
        }
  ]

  unfoldable pub step : Op → Exchange → Exchange
  step (read n) x = read_body n x
  step (sent n) x = sent_body n x
  step close x = close_body x

  unfoldable pub run : List Op → Exchange → Exchange
  run [] x = x
  run (op ∷ ops) x = run ops (step op x)

module _ (status_text_of : ℕ → Text) (url_parse : Text → Option Url) (route : Text → Text → Text)
    (opens : Text → Text → Opening) (mode : Text) where
  unfoldable pub round_trip : State → Result → Server → Exchange
  round_trip st (Result.failed f memo connected) s =
      let seen : Seen = record { host = st.host; proxy = st.spec.proxy; connected = connected } in
      let d = diagnose url_parse status_text_of f seen memo in
      let response = upstream_failure status_text_of d f.own in
      record {
        server = finish route st response.status_code 0 (tell (upstream_error st.host d.kind) s);
        releases = 1;
        cancels = 1;
        reached = own response;
      }
  round_trip st (Result.got reply) s = record {
    server = s;
    releases = 0;
    cancels = 0;
    reached =
        upstream (cleaned mode st.accept reply opens)
          (record { state = st; status = reply.status_code; out = 0; done = false; closes = 0 });
  }
