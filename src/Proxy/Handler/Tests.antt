-- ===== src/Proxy/Handler/Tests.antt =====
-- Runs of the handler, and its theorems at concrete requests.
use tls_impersonate_proxy.Base.{Bool, ◌≡◌, ◌≢◌, refl, true, false, none, some, [], ◌∷◌, ◌++◌, arith}
use tls_impersonate_proxy.Text.{text, text_eq, contains_text, join}
use tls_impersonate_proxy.Assoc.{lookup, put}
use tls_impersonate_proxy.Directive.Types.{Directive, zero_directive}
use tls_impersonate_proxy.Directive.Resolve.{Picks, choose, get_elem?, pool_of, resolve_os, resolve}
use tls_impersonate_proxy.Directive.Resolve.Laws.{InRange}
use tls_impersonate_proxy.Directive.Parse.{Outcome}
use tls_impersonate_proxy.Proxy.Server.{Server, Request, new_state, finish, is_active, drain_start}
use tls_impersonate_proxy.Proxy.Handler.{
  World, Tunnel, Handled, serve, pick_key, remember, picked, resolve_for, on_request,
}
use tls_impersonate_proxy.Proxy.Handler.Tunnels.{Picking, Step, Reach, without}
use tls_impersonate_proxy.Proxy.Handler.Laws.{resolve_for-sticky}
use tls_impersonate_proxy.Proxy.Handler.Drain.{Act, Round, drained, drain, drain_loop, act, act_all}
use tls_impersonate_proxy.Proxy.Handler.Race.{is_forward, as_draining, drain_race}

program : Unit {0}
unfolding text_eq contains_text join lookup put choose get_elem? pool_of resolve_os resolve pick_key
    remember picked resolve_for
program = tt

abbrev first_picks : Picks
first_picks = record { first = λ n. 0; second = λ n. 0 }

abbrev last_picks : Picks
last_picks = record { first = λ n. 1; second = λ n. 1 }

picks-InRange : InRange first_picks
picks-InRange = record { first = λ n h. h; second = λ n h. h }

abbrev world : World
world = record {
  lib = record {
    parse_cookie = λ t. Outcome.ok [];
    url_parse = λ t. none;
    schema_parse = λ m. (zero_directive, []);
  };
  policy = record { defaults = []; deny = []; proxy_hosts = []; require_proxy = false };
  status_text_of = λ n. [];
  route = λ host path. [];
  lookup_profile = λ t. none;
  revision = text "r";
  infer = λ t. record { browser = []; os = [] };
  families = text "chrome" ∷ text "edge" ∷ [];
  oses = λ b. text "linux" ∷ text "macos" ∷ [];
  get = λ s. Outcome.ok 7;
  meanwhile = λ t. t;
}

abbrev random_browser : Directive
random_browser = record zero_directive { browser = text "random" ∷ [] }

abbrev chosen : Directive
chosen = record zero_directive { browser = text "chrome" ∷ [] }

abbrev tunnel : Tunnel
tunnel = (text "random:", record { browser = text "chrome" ∷ []; os = [] }) ∷ []

first_lem :
    resolve_for world first_picks (some []) random_browser ≡ some (some tunnel, chosen, true)
unfolding program
first_lem = refl

chosen_lem : chosen.browser ≢ []
chosen_lem = λ e. ground arith

-- Another request of the tunnel looks, and remembers, behind the first.
abbrev other_browser : Directive
other_browser = record zero_directive { browser = text "edge" ∷ [] }

abbrev moved : Picking
moved = record {
  picks = tunnel ++ (text "edge:", record { browser = text "edge" ∷ []; os = [] }) ∷ [];
  pending = [];
}

moves : Reach (record { picks = tunnel; pending = [] }) moved
unfolding program put without
moves =
    Reach.next (Reach.next Reach.here (Step.looked other_browser refl))
      (Step.remembered (text "edge:") other_browser refl refl)

resolve_for-sticky_example :
    resolve_for world last_picks (some moved.picks) random_browser
    ≡ some
        (some moved.picks, record random_browser { browser = chosen.browser; os = chosen.os }, true)
unfolding contains_text
resolve_for-sticky_example =
    resolve_for-sticky world world first_picks last_picks [] tunnel [] moved random_browser
      random_browser chosen first_lem chosen_lem refl moves refl

abbrev request : Request
request = record {
  method = text "GET";
  url = record {
    scheme = text "http";
    host = text "h";
    hostname = text "h";
    port = [];
    user = none;
  };
  path = text "/";
  host = text "h";
  header = [];
}

abbrev server : Server
server = record { started = 0; finished = 0; draining = false; events = [] }

-- Two requests are active; in each round one comes and is turned away, and one ends.
abbrev busy : Server
busy = record { started = 2; finished = 0; draining = false; events = [] }

abbrev round : Bool → Round
round done = record {
  acts = Act.arrives first_picks request none ∷ Act.ends (new_state request) 200 5 ∷ [];
  done = done;
}

drained_lem : (drain world (round false ∷ round false ∷ []) busy).0 ≡ drained
unfolding drain drain_loop drain_start act act_all on_request finish
drained_lem = refl

drain_race_example :
    (drain world (round true ∷ []) server ≡ (drained, drain_start server))
    × (serve world first_picks request none (drain_start server)
        ≡ as_draining (on_request world first_picks request none server))
    × ((h : Handled) × (serve world first_picks request none (drain_start server) ≡ some h)
        × (is_forward h.answer ≡ true → is_active h.server ≡ true))
drain_race_example =
    drain_race world first_picks request (round true ∷ []) none server picks-InRange refl refl
