-- ===== src/Proxy/Handler.antt =====
-- internal/proxy/handler.go: what becomes of a request before it is sent on.
-- `impersonate.Lookup` and `Infer`, the families and their OSes, and the cache's `Get` are arguments, as the
-- interface `Clients` is one of the code's.
pub mod Tunnels
pub mod Laws
pub mod Accounts
pub mod Drain
pub mod Race
pub mod Tests
use tls_impersonate_proxy.Base.{
  ℕ, Bool, true, false, not, ◌&&◌, ◌||◌, Option, none, some, List, [], ◌∷◌, ◌++◌, map, is_nil,
  if◌then◌else◌, ◌>>=◌,
}
use tls_impersonate_proxy.Text.{Text, text, text_eq, equal_fold, join, cut, cut_head}
use tls_impersonate_proxy.Assoc.{lookup, put}
use tls_impersonate_proxy.Net.{Url, has_char, split_host_port}
use tls_impersonate_proxy.Http
use tls_impersonate_proxy.Logging.{redact_userinfo}
use tls_impersonate_proxy.Directive.Types.{
  Directive, zero_directive, Spec, spec_of, Issue, is_from_request,
}
use tls_impersonate_proxy.Directive.Resolve.{Picks, resolve}
use tls_impersonate_proxy.Directive.Policy.{Policy}
use tls_impersonate_proxy.Directive.Parse.{Values, Header, Outcome, Library, parse, strip}
use tls_impersonate_proxy.Proxy.Errors.{Response, teapot, unavailable}
use tls_impersonate_proxy.Proxy.Encoding.{accept_encodings}
use tls_impersonate_proxy.Proxy.Server.{
  Event, Server, Request, State, new_state, tell, start, finish, validation_failed,
}

-- `identity` and the picks of a `tunnel`; the lock is held for each look and each change.
pub record Identity : Type 0 where
  pub browser : List Text
  pub os : List Text

abbrev pub Tunnel : Type 0
Tunnel = List (Text × Identity)

pub record Profile : Type 0 where
  pub family : Text
  pub platform : Text

pub record Inference : Type 0 where
  pub browser : Text
  pub os : Text

-- What the handler calls; and `meanwhile`, what the other requests of the tunnel make of its picks between
-- this request's look at them and its own change, which take the lock one after the other.
pub record World : Type 0 where
  pub lib : Library
  pub policy : Policy
  pub status_text_of : ℕ → Text
  pub route : Text → Text → Text
  pub lookup_profile : Text → Option Profile
  pub revision : Text
  pub infer : Text → Inference
  pub families : List Text
  pub oses : Text → List Text
  pub get : Spec → Outcome ℕ
  pub meanwhile : Tunnel → Tunnel

pub data Answer : Type 0 where
  respond : Response → Answer
  forward : Request → ℕ → State → Answer

pub record Handled : Type 0 where
  pub server : Server
  pub tunnel : Option Tunnel
  pub answer : Answer

abbrev pub values_of : Values → List Text
values_of v = v.first ∷ v.rest

unfoldable pub http_header : Header → Http.Header
http_header [] = []
http_header ((name, v) ∷ h) = (name, values_of v) ∷ http_header h

unfoldable pub is_web_socket_upgrade : Header → Bool
is_web_socket_upgrade h = equal_fold (Http.get (http_header h) (text "Upgrade")) (text "websocket")

-- `req.Host` without the port 80.
unfoldable pub plain_host : Text → Text
plain_host host = elim (split_host_port host) [
  | none ↦ host
  | some (h, p) ↦ if text_eq p (text "80") then h else host
]

unfoldable pub upgrade : Request → Request
upgrade req =
    let u = req.url in
    let name = u.hostname in
    let bare = if has_char b':' name then text "[" ++ (name ++ text "]") else name in
    if text_eq u.port (text "80")
    then record req {
      url = record u { scheme = text "https"; host = bare; port = [] };
      host = plain_host req.host;
    }
    else record req { url = record u { scheme = text "https" } }

-- The key of a tunnel's picks.
unfoldable pub pick_key : Directive → Text
pick_key d = join (text ",") d.browser ++ (text ":" ++ join (text ",") d.os)

unfoldable pub remember : Text → Directive → Option Tunnel → Option Tunnel
remember key resolved none = none
remember key resolved (some t) =
    if is_nil resolved.browser
    then some t
    else some (put key (record { browser = resolved.browser; os = resolved.os }) t)

unfoldable pub picked : Option Tunnel → Text → Option Identity
picked none key = none
picked (some t) key = lookup key t

unfoldable pub failures : List Issue → List Event
failures [] = []
failures (i ∷ is) = validation_failed (cut_head b'.' i.path) ∷ failures is

unfoldable pub forced : Request → Directive → Directive
forced req d =
    if is_nil d.force_http && is_web_socket_upgrade req.header
    then record d { force_http = text "1" }
    else d

abbrev pub no_pair : Directive → List Issue
no_pair d =
    record {
      path = text "Os";
      message =
          join (text ",") d.os ++ (text " is not available for " ++ join (text ",") d.browser);
    }
    ∷ []

module _ (w : World) where
  -- The tunnel when the lock is taken again.
  abbrev pub later : Option Tunnel → Option Tunnel
  later none = none
  later (some t) = some (w.meanwhile t)

  unfoldable pub resolve_for :
      Picks → Option Tunnel → Directive → Option (Option Tunnel × Directive × Bool)
  resolve_for picks t d = elim (picked t (pick_key d)) [
    | some id ↦ some (t, record d { browser = id.browser; os = id.os }, true)
    | none ↦ elim (resolve w.families w.oses picks d) [
      | none ↦ none
      | some (resolved, ok) ↦
          if ok
          then some (remember (pick_key d) resolved (later t), resolved, true)
          else some (later t, d, false)
    ]
  ]

  -- The end of a request that is refused: the observer's calls, then `finish` with 418.
  unfoldable pub refuse : List Event → State → Option Tunnel → Response → Server → Handled
  refuse events st t response s = record {
    server = finish w.route st 418 0 (record s { events = s.events ++ events });
    tunnel = t;
    answer = respond response;
  }

  -- `d.Match`
  unfoldable pub inferred : Request → Directive → Directive
  inferred req d =
      let i = w.infer (Http.get (http_header req.header) (text "User-Agent")) in
      if not (d.match && not (is_from_request d (text "browser")))
      then d
      else if is_nil i.browser
      then d
      else if not (is_nil i.os) && not (is_from_request d (text "os"))
      then record d { browser = i.browser ∷ []; os = i.os ∷ [] }
      else record d { browser = i.browser ∷ [] }

  -- `d.Profile`; `none` is a profile that the catalogue lacks.
  unfoldable pub profiled : Directive → Option Directive
  profiled d = if is_nil d.profile then some d else (elim (w.lookup_profile d.profile) [
    | none ↦ none
    | some p ↦ some (record d { browser = p.family ∷ []; os = p.platform ∷ [] })
  ])

  abbrev pub unknown_profile : Response
  unknown_profile =
      let r =
        teapot w.status_text_of (
          record { path = text "Profile"; message = text "unknown, fetch /profiles again" } ∷ []) in
      record r { header = Http.set (text "X-Tip-Profiles-Revision") w.revision r.header }

  -- The rest of `onRequest`, once browser and OS are chosen; `d` is the directive before that.
  unfoldable pub prepare :
      Request → State → Option Tunnel → Directive → Directive → Server → Handled
  prepare req st t d resolved s =
      let spec = spec_of resolved in
      let stripped = record req { header = strip req.header } in
      let https = text_eq d.scheme (text "https") in
      let st' = record st {
        directive = resolved;
        spec = spec;
        accept = accept_encodings (Http.values (http_header req.header) (text "Accept-Encoding"));
        original = if is_nil d.keep then none else some req.header;
        scheme = if https then text "https" else st.scheme;
      } in
      elim (w.get spec) [
        | Outcome.err e ↦
            refuse (validation_failed (text "Build") ∷ []) st' t
              (teapot w.status_text_of (record { path = []; message = redact_userinfo e } ∷ [])) s
        | Outcome.ok client ↦ record {
          server = s;
          tunnel = t;
          answer = forward (if https then upgrade stripped else stripped) client st';
        }
      ]

  -- From the directive of the request and its profile on; `none` is a panic of `Resolve`.
  unfoldable pub choose_identity :
      Picks → Request → State → Option Tunnel → Directive → Server → Option Handled
  choose_identity picks req st t profile s =
      let d = forced req (inferred req profile) in
      elim (resolve_for picks t d) [
        | none ↦ none
        | some (t', resolved, ok) ↦
            if ok
            then some (prepare req st t' d resolved s)
            else some (
                refuse (validation_failed (text "Os") ∷ []) st t'
                  (teapot w.status_text_of (no_pair d)) s)
      ]

  -- `onRequest` behind its look at `draining`.
  unfoldable pub serve : Picks → Request → Option Tunnel → Server → Option Handled
  serve picks req t s =
      let st = new_state req in
      let (d, issues) = parse w.lib req.header w.policy in
      if not (is_nil issues)
      then some (refuse (failures issues) st t (teapot w.status_text_of issues) (start s))
      else (elim (profiled d) [
        | none ↦
            some (refuse (validation_failed (text "Profile") ∷ []) st t unknown_profile (start s))
        | some profile ↦ choose_identity picks req st t profile (start s)
      ])

  unfoldable pub on_request : Picks → Request → Option Tunnel → Server → Option Handled
  on_request picks req t s =
      if s.draining
      then some (record { server = s; tunnel = t; answer = respond (unavailable w.status_text_of) })
      else serve picks req t s
