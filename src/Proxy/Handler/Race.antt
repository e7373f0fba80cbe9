-- ===== src/Proxy/Handler/Race.antt =====
-- internal/proxy/handler.go, internal/proxy/proxy.go: `Drain` between the look of `onRequest` at the flag and
-- its count.
use tls_impersonate_proxy.Base.{
  ◌≡◌, refl, inl, inr, Bool, true, false, Option, none, some, List, [], ◌∷◌, arith, Bool-cases,
  Option-cases, List-cases, ap, sym, ◌∙◌,
}
use tls_impersonate_proxy.Directive.Types.{Directive, spec_of}
use tls_impersonate_proxy.Directive.Resolve.{Picks}
use tls_impersonate_proxy.Directive.Resolve.Laws.{InRange}
use tls_impersonate_proxy.Directive.Parse.{Outcome-cases, parse}
use tls_impersonate_proxy.Proxy.Server.{
  Event, Server, Request, State, new_state, start, finish, is_active, drain_start,
}
use tls_impersonate_proxy.Proxy.Errors.{Response}
use tls_impersonate_proxy.Proxy.Handler.{
  Tunnel, World, Handled, Answer, forward, respond, refuse, inferred, forced, profiled, resolve_for,
  prepare, choose_identity, serve, on_request,
}
use tls_impersonate_proxy.Proxy.Handler.Accounts.{Accounted, serve-Ends, on_request-serve}
use tls_impersonate_proxy.Proxy.Handler.Drain.{Round, drained, drain, drain_loop}

abbrev pub is_forward : Answer → Bool
is_forward (respond r) = false
is_forward (forward req client st) = true

active_behind :
    (w : World) (s : Server) (a : Answer) (s' : Server)
    → s.started ≡ s.finished
    → Accounted w s a s'
    → is_forward a ≡ true
    → is_active s' ≡ true
active_behind w s (respond r) s' idle acc f = absurd (ground arith)
active_behind w s (forward req client st) s' idle (clean, started, finished, events, got, spec) f =
    ground arith

drain-idle :
    (w : World) (rounds : List Round) (s : Server)
    → s.started ≡ s.finished
    → drain w rounds s ≡ (drained, drain_start s)
unfolding drain drain_loop drain_start
drain-idle w [] s idle = ground arith
drain-idle w (r ∷ rounds) s idle = ground arith

-- An outcome of `onRequest` with the flag of the server set.
abbrev pub as_draining : Option Handled → Option Handled
as_draining none = none
as_draining (some h) = some (record h { server = drain_start h.server })

module _ (w : World) (picks : Picks) (req : Request) where
  refuse-drain_start :
      (events : List Event) (st : State) (t : Option Tunnel) (r : Response) (s : Server)
      → some (refuse w events st t r (start (drain_start s)))
        ≡ as_draining (some (refuse w events st t r (start s)))
  unfolding refuse finish start drain_start
  refuse-drain_start events st t r s = refl

  prepare-drain_start :
      (st : State) (t : Option Tunnel) (d resolved : Directive) (s : Server)
      → some (prepare w req st t d resolved (start (drain_start s)))
        ≡ as_draining (some (prepare w req st t d resolved (start s)))
  unfolding prepare start drain_start
  prepare-drain_start st t d resolved s = elim (Outcome-cases (w.get (spec_of resolved))) [
    | inr (message, failed) ↦ rw (failed, prepare) (refuse-drain_start _ _ t _ s)
    | inl (client, got) ↦ rw (got, prepare) refl
  ]

  choose_identity-drain_start :
      (st : State) (t : Option Tunnel) (profile : Directive) (s : Server)
      → choose_identity w picks req st t profile (start (drain_start s))
        ≡ as_draining (choose_identity w picks req st t profile (start s))
  unfolding choose_identity
  choose_identity-drain_start st t profile s =
      let d = forced req (inferred w req profile) in
      elim (Option-cases (resolve_for w picks t d)) [
        | inl panic ↦ rw (panic, choose_identity) refl
        | inr ((t', resolved, ok), e) ↦ elim (Bool-cases ok) [
          | inl found ↦ rw (e, found, choose_identity) (prepare-drain_start st t' d resolved s)
          | inr refused ↦ rw (e, refused, choose_identity) (refuse-drain_start _ st t' _ s)
        ]
      ]

  serve-drain_start :
      (t : Option Tunnel) (s : Server)
      → serve w picks req t (drain_start s) ≡ as_draining (serve w picks req t s)
  unfolding serve
  serve-drain_start t s =
      let (d, issues) = parse w.lib req.header w.policy in
      let st = new_state req in
      elim (List-cases issues) [
        | inr (i, is, found) ↦ rw (found, serve) (refuse-drain_start _ st t _ s)
        | inl clean ↦ elim (Option-cases (profiled w d)) [
          | inl unknown ↦ rw (clean, unknown, serve) (refuse-drain_start _ st t _ s)
          | inr (profile, known) ↦
              rw (clean, known, serve) (choose_identity-drain_start st t profile s)
        ]
      ]

  -- `onRequest` looks at `draining` before it counts its request in. On a server that has no active request
  -- then, a whole `Drain` between the two finds none and returns without an error. Behind that the request is
  -- served all the same: with random numbers in range it comes, without a panic, to the answer, the tunnel and
  -- the events that it would have come to without `Drain`, and is active behind the return of `Drain` if it is
  -- sent on.
  pub drain_race :
      (rounds : List Round) (t : Option Tunnel) (s : Server)
      → InRange picks
      → s.draining ≡ false
      → s.started ≡ s.finished
      → (drain w rounds s ≡ (drained, drain_start s))
        × (serve w picks req t (drain_start s) ≡ as_draining (on_request w picks req t s))
        × ((h : Handled) × (serve w picks req t (drain_start s) ≡ some h)
            × (is_forward h.answer ≡ true → is_active h.server ≡ true))
  unfolding drain_start
  drain_race rounds t s range up idle =
      let (h, e, accounted) = serve-Ends w picks req t (drain_start s) range in
      (
        drain-idle w rounds s idle,
        serve-drain_start t s ∙ ap as_draining (sym (on_request-serve w picks req t s up)),
        (h, e, active_behind w (drain_start s) h.answer h.server idle accounted),
      )
