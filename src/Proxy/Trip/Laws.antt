-- ===== src/Proxy/Trip/Laws.antt =====
-- internal/proxy/roundtrip.go: a round trip is finished once and releases its client once, and no request
-- gets more time than the server allows.
use tls_impersonate_proxy.Base.{
  ℕ, ◌+◌, ◌≤◌, ◌<◌, ◌≡◌, refl, ◌⊎◌, Bool, true, false, ◌||◌, Option, List, [], ◌∷◌, ◌++◌, arith,
  subst,
}
use tls_impersonate_proxy.Text.{Text}
use tls_impersonate_proxy.Net.{Url}
use tls_impersonate_proxy.Proxy.Errors.{Response}
use tls_impersonate_proxy.Proxy.Encoding.{Opening, Reply}
use tls_impersonate_proxy.Proxy.Server.{RequestEvent, Server, State, tell, finish, request_finished}
use tls_impersonate_proxy.Proxy.Trip.{
  Body, Reached, Exchange, Result, Op, timeout_of, cleaned, round_trip, read_body, sent_body,
  close_body, step, run, own, upstream,
}

-- A request never gets more time than the server's limit, where there is one, nor more than it asked for,
-- where it asked; it has no limit only where neither is set; and the limit is one of the two.
pub timeout_of_lem :
    (ceiling asked : ℕ)
    → (0 < ceiling → (0 < timeout_of ceiling asked) × (timeout_of ceiling asked ≤ ceiling))
      × (0 < asked → (0 < timeout_of ceiling asked) × (timeout_of ceiling asked ≤ asked))
      × ((timeout_of ceiling asked ≡ ceiling) ⊎ (timeout_of ceiling asked ≡ asked))
unfolding timeout_of
timeout_of_lem ceiling asked = (λ h. ground arith, λ h. ground arith, ground arith)

abbrev is_close : Op → Bool
is_close Op.close = true
is_close op = false

abbrev pub closes : List Op → Bool
closes [] = false
closes (op ∷ ops) = is_close op || closes ops

-- What was read of a body before it was first closed.
abbrev pub read_before : List Op → ℕ
read_before [] = 0
read_before (Op.read n ∷ ops) = n + read_before ops
read_before (Op.sent n ∷ ops) = read_before ops
read_before (Op.close ∷ ops) = 0

-- What the close of a body adds to the server's books: one request less, and one event with the response's
-- status and the bytes that had been read by then.
abbrev pub Closed : Server → ℕ → ℕ → Server → Type 0
Closed s status out s' =
    (s'.started ≡ s.started)
    × (s'.finished ≡ s.finished + 1)
    × ((ev : RequestEvent) × (ev.status ≡ status)
        × (ev.bytes_out ≡ out)
        × (s'.events ≡ s.events ++ request_finished ev ∷ []))

abbrev pub exchange : Server → ℕ → ℕ → Reached → Exchange
exchange s n c reached = record { server = s; releases = n; cancels = c; reached = reached }

module _ (route : Text → Text → Text) where
  finish-Closed :
      (st : State) (status out : ℕ) (s : Server)
      → Closed s status (out + 0) (finish route st status out s)
  unfolding finish
  finish-Closed st status out s = (
    refl,
    refl,
    (
      record {
        host = st.host;
        method = st.method;
        path = st.path;
        browser = st.spec.browser;
        route = route st.host st.path;
        status = status;
        bytes_in = st.bytes_in;
        bytes_out = out;
      },
      refl,
      omega arith,
      refl,
    ),
  )

  run-own :
      (ops : List Op) (s : Server) (n c : ℕ) (r : Response)
      → run route ops (exchange s n c (own r)) ≡ exchange s n c (own r)
  unfolding run step read_body sent_body close_body
  run-own [] s n c r = refl
  run-own (Op.read k ∷ ops) s n c r = run-own ops s n c r
  run-own (Op.sent k ∷ ops) s n c r = run-own ops s n c r
  run-own (Op.close ∷ ops) s n c r = run-own ops s n c r

  run-done :
      (ops : List Op) (s : Server) (n c : ℕ) (r : Reply) (b : Body)
      → b.done ≡ true
      → let y = run route ops (exchange s n c (upstream r b)) in
        (y.server ≡ s) × (y.releases ≡ n) × (y.cancels ≡ c)
  unfolding run step read_body sent_body close_body
  run-done [] s n c r b h = (refl, refl, refl)
  run-done (Op.read k ∷ ops) s n c r b h = run-done ops s n c r _ h
  run-done (Op.sent k ∷ ops) s n c r b h = run-done ops s n c r _ h
  run-done (Op.close ∷ ops) s n c r b h = rw h (run-done ops s n c r _ refl)

  run-open :
      (ops : List Op) (s : Server) (n c : ℕ) (r : Reply) (b : Body)
      → b.done ≡ false
      → let y = run route ops (exchange s n c (upstream r b)) in
        (closes ops ≡ false → (y.server ≡ s) × (y.releases ≡ n) × (y.cancels ≡ c))
        × (closes ops ≡ true
            → Closed s b.status (b.out + read_before ops) y.server
              × (y.releases ≡ n + 1)
              × (y.cancels ≡ c + 1))
  unfolding run step read_body sent_body close_body
  run-open [] s n c r b h = (λ e. (refl, refl, refl), λ e. absurd (ground arith))
  run-open (Op.read k ∷ ops) s n c r b h =
      let (quiet, closing) = run-open ops s n c r (record b { out = b.out + k }) h in
      let sum : b.out + k + read_before ops ≡ b.out + (k + read_before ops) = omega arith in
      (
        quiet,
        λ e.
            let (books, once, freed) = closing e in
            (
              subst
                  (λ (out : ℕ).
                    Closed s b.status out
                      (run route ops
                        (exchange s n c (upstream r (record b { out = b.out + k })))).server)
                  sum books,
              once,
              freed,
            ),
      )
  run-open (Op.sent k ∷ ops) s n c r b h = run-open ops s n c r _ h
  run-open (Op.close ∷ ops) s n c r b h = (
    λ e. absurd (ground arith),
    λ e. rw h (
        let (same, once, freed) =
          run-done ops (finish route b.state b.status b.out s) (n + 1) (c + 1) r
            (record b { done = true; closes = b.closes + 1 }) refl in
        (rw same (finish-Closed b.state b.status b.out s), once, freed)),
  )

-- A failed round trip is finished at once. Any other is finished when its body is first closed, and not
-- before; the bytes that had been read by then are the ones that count.
abbrev pub Settles : Result → List Op → Server → Exchange → Type 0
Settles (Result.failed f memo connected) ops s y =
    (y.releases ≡ 1)
    × (y.cancels ≡ 1)
    × (y.server.started ≡ s.started)
    × (y.server.finished ≡ s.finished + 1)
Settles (Result.got reply) ops s y =
    (closes ops ≡ false → (y.server ≡ s) × (y.releases ≡ 0) × (y.cancels ≡ 0))
    × (closes ops ≡ true
        → Closed s reply.status_code (read_before ops) y.server
          × (y.releases ≡ 1)
          × (y.cancels ≡ 1))

-- However a round trip ends and whatever is then read, sent and closed, and in which order: a failed one has
-- released its client, cancelled its context and finished its request exactly once; any other has done none
-- of it before its body is closed, and each exactly once from the first close on, with the upstream's status
-- and the bytes that had been read before that close.
pub round_trip-Settles :
    (status_text_of : ℕ → Text) (url_parse : Text → Option Url) (route : Text → Text → Text)
    (opens : Text → Text → Opening) (mode : Text) (st : State) (result : Result) (s : Server)
    (ops : List Op)
    → Settles result ops s
        (run route ops (round_trip status_text_of url_parse route opens mode st result s))
unfolding round_trip finish tell
round_trip-Settles status_text_of url_parse route opens mode st (Result.failed f memo connected) s
      ops =
    rw (run-own route ops _ _ _ _) (refl, refl, refl, refl)
round_trip-Settles status_text_of url_parse route opens mode st (Result.got reply) s ops =
    let r = cleaned mode st.accept reply opens in
    let b : Body = record {
      state = st;
      status = reply.status_code;
      out = 0;
      done = false;
      closes = 0;
    } in
    let (quiet, closing) = run-open route ops s 0 0 r b refl in
    let sum : 0 + read_before ops ≡ read_before ops = omega arith in
    (
      quiet,
      λ e.
          let (books, once, freed) = closing e in
          (
            subst
                (λ (out : ℕ).
                  Closed s reply.status_code out
                    (run route ops (exchange s 0 0 (upstream r b))).server)
                sum books,
            once,
            freed,
          ),
    )
