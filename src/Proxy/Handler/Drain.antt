-- ===== src/Proxy/Handler/Drain.antt =====
-- internal/proxy/proxy.go: `Drain` on a server whose requests go on to end and to arrive.
use tls_impersonate_proxy.Base.{
  ℕ, suc, ◌+◌, ◌-◌, ◌≡◌, Bool, true, false, not, Option, none, some, List, [], ◌∷◌, All,
  if◌then◌else◌,
}
use tls_impersonate_proxy.Directive.Resolve.{Picks}
use tls_impersonate_proxy.Proxy.Server.{Server, Request, State, finish, is_active, drain_start}
use tls_impersonate_proxy.Proxy.Handler.{Tunnel, World, Handled, on_request}

-- What happens to the server while `Drain` waits: a request comes to `onRequest`, or one that was counted in
-- ends.
pub data Act : Type 0 where
  arrives : Picks → Request → Option Tunnel → Act
  ends : State → ℕ → ℕ → Act

-- A pass of the loop behind a poll that finds active requests: what happens until the `select` is over, and
-- whether it took the context's case; then what happens until the error's own load of the count is in `acts`.
pub record Round : Type 0 where
  pub acts : List Act
  pub done : Bool

-- `waiting`: the rounds that are given have passed, and the loop goes on.
pub data Drained : Type 0 where
  drained : Drained
  gave_up : ℕ → Drained
  waiting : Drained

abbrev server_after : Server → Option Handled → Server
server_after s none = s
server_after s (some h) = h.server

module _ (w : World) where
  unfoldable pub act : Act → Server → Server
  act (arrives picks req t) s = server_after s (on_request w picks req t s)
  act (ends st status bytes) s = finish w.route st status bytes s

  unfoldable pub act_all : List Act → Server → Server
  act_all [] s = s
  act_all (a ∷ acts) s = act_all acts (act a s)

  -- The loop of `Drain`.
  unfoldable pub drain_loop : List Round → Server → Drained × Server
  drain_loop [] s = (if is_active s then waiting else drained, s)
  drain_loop (r ∷ rounds) s =
      let s' = act_all r.acts s in
      let rest = drain_loop rounds s' in
      if not (is_active s)
      then (drained, s)
      else if r.done
      then (gave_up (s'.started - s'.finished), s')
      else rest

  unfoldable pub drain : List Round → Server → Drained × Server
  drain rounds s = drain_loop rounds (drain_start s)

-- How many requests end.
unfoldable pub ends_in : List Act → ℕ
ends_in [] = 0
ends_in (arrives picks req t ∷ acts) = ends_in acts
ends_in (ends st status bytes ∷ acts) = suc (ends_in acts)

unfoldable pub ends_of : List Round → ℕ
ends_of [] = 0
ends_of (r ∷ rounds) = ends_in r.acts + ends_of rounds

module _ (w : World) where
  -- What is left of a draining server when `n` more requests have ended.
  abbrev IsAfter : Server → ℕ → Server → Type 0
  IsAfter s n s' = (s'.draining ≡ true) × (s'.started ≡ s.started) × (s'.finished ≡ s.finished + n)

  abbrev pub InTime : List Round → Type 0
  InTime rounds = All (λ r. r.done ≡ false) rounds
