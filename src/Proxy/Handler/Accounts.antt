-- ===== src/Proxy/Handler/Accounts.antt =====
-- internal/proxy/handler.go: `onRequest` answers a request or sends it on, and the count of the active
-- requests and the observer's calls fit what it does.
use tls_impersonate_proxy.Base.{
  ◌+◌, ◌≡◌, refl, ◌≢◌, inl, inr, Bool, true, false, Option, none, some, List, [], ◌∷◌, ◌++◌, arith,
  Bool-cases, Option-cases, List-cases, All, ◌∙◌, append_assoc,
}
use tls_impersonate_proxy.Text.{text, text_eq, cut_head}
use tls_impersonate_proxy.Directive.Types.{Directive, spec_of, Issue}
use tls_impersonate_proxy.Directive.Resolve.{Picks, resolve}
use tls_impersonate_proxy.Directive.Resolve.Laws.{InRange, resolve_total}
use tls_impersonate_proxy.Directive.Parse.{Outcome, Outcome-cases, is_prefixed, parse, strip}
use tls_impersonate_proxy.Directive.Parse.Strip.{strip-All}
use tls_impersonate_proxy.Proxy.Errors.{Response, teapot, synthetic}
use tls_impersonate_proxy.Proxy.Server.{
  Event, RequestEvent, Server, Request, State, new_state, start, finish, request_started,
  request_finished, validation_failed,
}
use tls_impersonate_proxy.Proxy.Handler.{
  Tunnel, World, Answer, Handled, pick_key, picked, remember, no_pair, unknown_profile, no_pair,
  upgrade, later, resolve_for, refuse, inferred, forced, profiled, prepare, choose_identity,
  on_request, serve, respond, forward, failures,
}
use tls_impersonate_proxy.Proxy.Handler.Laws.{
  resolve_for_kept, resolve_for_new, resolve_for_refused,
}

-- What `onRequest` leaves behind. An answer of its own is a 418: the request was counted in and out again,
-- and the observer heard of its start, of at least one failure, and of its end. A request that is sent on is
-- counted in; it has no directive left in its header, and its client is the cache's for the request's spec.
abbrev pub Accounted : World → Server → Answer → Server → Type 0
Accounted w s (respond r) s' =
    (r.status_code ≡ 418)
    × (s'.started ≡ s.started + 1)
    × (s'.finished ≡ s.finished + 1)
    × ((vs : List Event) × (ev : RequestEvent) × (vs ≢ [])
        × (ev.status ≡ 418)
        × (s'.events ≡ s.events ++ request_started ∷ (vs ++ request_finished ev ∷ [])))
Accounted w s (forward req client st) s' =
    All (λ e. is_prefixed e.0 ≡ false) req.header
    × (s'.started ≡ s.started + 1)
    × (s'.finished ≡ s.finished)
    × (s'.events ≡ s.events ++ request_started ∷ [])
    × (w.get st.spec ≡ Outcome.ok client)
    × (st.spec ≡ spec_of st.directive)

module _ (w : World) where
  refuse-Accounted :
      (e : Event) (events : List Event) (st : State) (t : Option Tunnel) (r : Response) (s : Server)
      → r.status_code ≡ 418
      → Accounted w s
          (refuse w (e ∷ events) st t r (start s)).answer
          (refuse w (e ∷ events) st t r (start s)).server
  unfolding refuse finish start
  refuse-Accounted e events st t r s h =
      (h, refl, refl, (e ∷ events, ended, λ q. ground arith, refl, shape))
    where
      ended : RequestEvent
      ended = record {
        host = st.host;
        method = st.method;
        path = st.path;
        browser = st.spec.browser;
        route = w.route st.host st.path;
        status = 418;
        bytes_in = st.bytes_in;
        bytes_out = 0;
      }

      shape :
          ((s.events ++ request_started ∷ []) ++ e ∷ events) ++ request_finished ended ∷ []
          ≡ s.events ++ request_started ∷ (e ∷ events ++ request_finished ended ∷ [])
      shape =
          append_assoc (s.events ++ request_started ∷ []) (e ∷ events) (request_finished ended ∷ [])
          ∙ append_assoc s.events (request_started ∷ [])
              (e ∷ (events ++ request_finished ended ∷ []))

  upgrade-header : (req : Request) → (upgrade req).header ≡ req.header
  unfolding upgrade
  upgrade-header req = ground arith

  teapot-status : (is : List Issue) → (teapot w.status_text_of is).status_code ≡ 418
  unfolding teapot synthetic
  teapot-status is = refl

  unknown_profile-status : (unknown_profile w).status_code ≡ 418
  unfolding teapot synthetic
  unknown_profile-status = refl

  prepare-Accounted :
      (req : Request) (st : State) (t : Option Tunnel) (d resolved : Directive) (s : Server)
      → Accounted w s
          (prepare w req st t d resolved (start s)).answer
          (prepare w req st t d resolved (start s)).server
  unfolding prepare start
  prepare-Accounted req st t d resolved s = elim (Outcome-cases (w.get (spec_of resolved))) [
    | inr (message, failed) ↦
        rw (failed, prepare)
          (refuse-Accounted (validation_failed (text "Build")) [] _ t _ s (teapot-status _))
    | inl (client, got) ↦ elim (Bool-cases (text_eq d.scheme (text "https"))) [
      | inl https ↦
          rw (got, https, prepare)
            (
              rw (upgrade-header (record req { header = strip req.header })) (strip-All req.header),
              refl,
              refl,
              refl,
              got,
              refl,
            )
      | inr other ↦ rw (got, other, prepare) ((strip-All req.header), refl, refl, refl, got, refl)
    ]
  ]

  -- Where `onRequest` ends, and with what.
  abbrev pub Ends : Server → Option Handled → Type 0
  Ends s o = (h : Handled) × (o ≡ some h) × Accounted w s h.answer h.server

  resolve_for_total :
      (picks : Picks) (t : Option Tunnel) (d : Directive)
      → InRange picks
      → (t' : Option Tunnel) × (r : Directive) × (ok : Bool) × (resolve_for w picks t d
          ≡ some (t', r, ok))
  resolve_for_total picks t d range = elim (Option-cases (picked t (pick_key d))) [
    | inr (id, known) ↦ (
      t,
      record d { browser = id.browser; os = id.os },
      true,
      resolve_for_kept w picks t d id known,
    )
    | inl fresh ↦ let (r, ok, e) = resolve_total w.families w.oses picks d range in new r ok e fresh
  ]
    where
      new :
          (r : Directive) (ok : Bool)
          → resolve w.families w.oses picks d ≡ some (r, ok)
          → picked t (pick_key d) ≡ none
          → (t' : Option Tunnel) × (r' : Directive) × (ok' : Bool) × (resolve_for w picks t d
              ≡ some (t', r', ok'))
      new r true e fresh =
          (remember (pick_key d) r (later w t), r, true, resolve_for_new w picks t d r fresh e)
      new r false e fresh = (later w t, d, false, resolve_for_refused w picks t d r fresh e)

  choose_identity-Ends :
      (picks : Picks) (req : Request) (st : State) (t : Option Tunnel) (profile : Directive)
      (s : Server)
      → InRange picks
      → Ends s (choose_identity w picks req st t profile (start s))
  unfolding choose_identity
  choose_identity-Ends picks req st t profile s range =
      let d = forced req (inferred w req profile) in
      let (t', r, ok, e) = resolve_for_total picks t d range in
      elim (Bool-cases ok) [
        | inl found ↦
            rw (e, found, choose_identity)
              (prepare w req st t' d r (start s), refl, prepare-Accounted req st t' d r s)
        | inr refused ↦
            rw (e, refused, choose_identity)
              (
                refuse w (validation_failed (text "Os") ∷ []) st t'
                    (teapot w.status_text_of (no_pair d)) (start s),
                refl,
                refuse-Accounted (validation_failed (text "Os")) [] st t'
                    (teapot w.status_text_of (no_pair d)) s (teapot-status (no_pair d)),
              )
      ]

  pub serve-Ends :
      (picks : Picks) (req : Request) (t : Option Tunnel) (s : Server)
      → InRange picks
      → Ends s (serve w picks req t s)
  unfolding serve failures
  serve-Ends picks req t s range =
      let (d, issues) = parse w.lib req.header w.policy in
      let st = new_state req in
      elim (List-cases issues) [
        | inr (i, is, found) ↦
            rw (found, serve)
              (
                refuse w (failures (i ∷ is)) st t (teapot w.status_text_of (i ∷ is)) (start s),
                refl,
                refuse-Accounted (validation_failed (cut_head b'.' i.path)) (failures is) st t
                    (teapot w.status_text_of (i ∷ is)) s (teapot-status (i ∷ is)),
              )
        | inl clean ↦ elim (Option-cases (profiled w d)) [
          | inl unknown ↦
              rw (clean, unknown, serve)
                (
                  refuse w (validation_failed (text "Profile") ∷ []) st t (unknown_profile w)
                      (start s),
                  refl,
                  refuse-Accounted (validation_failed (text "Profile")) [] st t (unknown_profile w)
                      s unknown_profile-status,
                )
          | inr (profile, known) ↦
              rw (clean, known, serve) (choose_identity-Ends picks req st t profile s range)
        ]
      ]

  pub on_request-serve :
      (picks : Picks) (req : Request) (t : Option Tunnel) (s : Server)
      → s.draining ≡ false
      → on_request w picks req t s ≡ serve w picks req t s
  unfolding on_request
  on_request-serve picks req t s e = ground arith
