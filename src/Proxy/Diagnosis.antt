-- ===== src/Proxy/Diagnosis.antt =====
-- internal/proxy/roundtrip.go: `diagnose` names a failed round trip for the log, the metrics and the
-- client. `url.Parse` and `http.StatusText` are arguments.
use tls_impersonate_proxy.Base.{
  ℕ, Bool, true, false, Option, none, some, [], ◌++◌, is_nil, if◌then◌else◌, ◌≡◌, refl, ◌≢◌, ◌↔◌,
  inl, inr, arith, List-cases, not,
}
use tls_impersonate_proxy.Text.{Text, text}
use tls_impersonate_proxy.Net.{Url}
use tls_impersonate_proxy.Logging.{redact_userinfo}
use tls_impersonate_proxy.Connect.{Phase, Verdict, HopError, Memo, phase_text, phase_of, verdict_of}
use tls_impersonate_proxy.Impersonate.Classify.{Kind, Failure, classify, classify_hop}
use tls_impersonate_proxy.Text.{itoa}

pub record Diagnosis : Type 0 where
  pub kind : Kind
  pub message : Text
  pub phase : Phase
  pub verdict : Option Verdict
  pub connected : Bool
  pub next_hop : Text

-- What `diagnose` reads of the request's state: `st.host`, `st.spec.Proxy`, `st.capture.Connected`.
pub record Seen : Type 0 where
  pub host : Text
  pub proxy : Text
  pub connected : Bool

-- A failure behind a proxy to dial is one of the proxy.
abbrev behind_proxy : Kind → Kind
behind_proxy Kind.dial = Kind.proxy
behind_proxy k = k

abbrev is_timeout_kind : Kind → Bool
is_timeout_kind Kind.timeout = true
is_timeout_kind k = false

abbrev is_no_phase : Phase → Bool
is_no_phase Phase.no_phase = true
is_no_phase p = false

is_no_phase-false : (p : Phase) → p ≢ Phase.no_phase → is_no_phase p ≡ false
is_no_phase-false Phase.no_phase n = absurd (n refl)
is_no_phase-false Phase.proxy_dial n = refl
is_no_phase-false Phase.proxy_tls n = refl
is_no_phase-false Phase.proxy_connect n = refl

module _ (url_parse : Text → Option Url) (status_text_of : ℕ → Text) where
  -- `Error.Error` of a hop error
  unfoldable pub hop_message : HopError → Text
  hop_message (HopError.rejected v) =
      text "CONNECT " ++ (itoa v.status ++ (text " " ++ status_text_of v.status))
  hop_message (HopError.failed p e) = phase_text p ++ (text ": " ++ e.message)

  unfoldable pub next_hop_of : Seen → Text
  next_hop_of st =
      if is_nil st.proxy
      then st.host
      else (elim (url_parse st.proxy) [ none ↦ st.host | some u ↦ u.host ])

  unfoldable pub kind_of : Failure → Seen → Kind
  kind_of f st = if is_nil st.proxy then classify f else behind_proxy (classify f)

  -- The message before it is redacted, the phase and the verdict.
  unfoldable pub place : Failure → Seen → Memo → Text × Phase × Option Verdict
  place f st memo = elim f.hop [
    | some e ↦ (hop_message e, phase_of e, verdict_of e)
    | none ↦
        if not (is_timeout_kind (kind_of f st))
        then (f.own.message, Phase.no_phase, none)
        else if not (is_no_phase memo.phase)
        then (phase_text memo.phase ++ (text ": waiting for " ++ next_hop_of st), memo.phase, none)
        else if st.connected
        then (text "waiting for response headers from " ++ st.host, Phase.no_phase, none)
        else (text "connecting to " ++ st.host, Phase.no_phase, none)
  ]

  unfoldable pub diagnose : Failure → Seen → Memo → Diagnosis
  diagnose f st memo =
      let (message, phase, verdict) = place f st memo in
      record {
        kind = kind_of f st;
        message = redact_userinfo message;
        phase = phase;
        verdict = verdict;
        connected = st.connected;
        next_hop = next_hop_of st;
      }

  place-verdict :
      (f : Failure) (st : Seen) (memo : Memo) (v : Verdict)
      → (place f st memo).2 ≡ some v
      → f.hop ≡ some (HopError.rejected v)
  unfolding place
  place-verdict f st memo v h = from (f.hop) refl
    where
      from : (hop : Option HopError) → f.hop ≡ hop → f.hop ≡ some (HopError.rejected v)
      from none e = absurd (ground arith)
      from (some (HopError.rejected w)) e = ground arith
      from (some (HopError.failed p x)) e = absurd (ground arith)

  kind_of-rejected :
      (f : Failure) (st : Seen) (v : Verdict)
      → f.hop ≡ some (HopError.rejected v)
      → kind_of f st ≡ Kind.proxy_rejected
  unfolding kind_of classify classify_hop
  kind_of-rejected f st v e = ground arith

  kind_of-behind : (f : Failure) (st : Seen) → st.proxy ≢ [] → kind_of f st ≢ Kind.dial
  unfolding kind_of
  kind_of-behind f st n e = elim (List-cases st.proxy) [
    | inl direct ↦ n direct
    | inr (c, s, proxied) ↦ not_dial (classify f) (rw proxied at e)
  ]
    where
      not_dial : (k : Kind) → behind_proxy k ≢ Kind.dial
      not_dial Kind.dial h = ground arith
      not_dial Kind.proxy_rejected h = ground arith
      not_dial Kind.timeout h = ground arith
      not_dial Kind.proxy h = ground arith
      not_dial Kind.tls h = ground arith
      not_dial Kind.read h = ground arith

  place-phase :
      (f : Failure) (st : Seen) (memo : Memo)
      → f.hop ≡ none
      → kind_of f st ≡ Kind.timeout
      → memo.phase ≢ Phase.no_phase
      → (place f st memo).1 ≡ memo.phase
  unfolding place
  place-phase f st memo e k n = rw (e, k, is_no_phase-false memo.phase n, place) refl

  place-rejected :
      (f : Failure) (st : Seen) (memo : Memo) (v : Verdict)
      → f.hop ≡ some (HopError.rejected v)
      → ((place f st memo).2 ≡ some v) × ((place f st memo).1 ≡ Phase.proxy_connect)
  unfolding place
  place-rejected f st memo v e = rw (e, place) (refl, refl)

  -- `diagnose` keeps a verdict exactly where a hop refused, and that verdict; the kind is then
  -- `proxy_rejected` and the phase the CONNECT one. Behind an upstream proxy no failure is of kind `dial`,
  -- and a timeout that no hop reported, met while a phase of the hop was under way, is placed in that phase.
  pub diagnose_lem :
      (f : Failure) (st : Seen) (memo : Memo) (v : Verdict)
      → (((diagnose f st memo).verdict ≡ some v) ↔ (f.hop ≡ some (HopError.rejected v)))
        × (f.hop ≡ some (HopError.rejected v)
            → ((diagnose f st memo).kind ≡ Kind.proxy_rejected)
              × ((diagnose f st memo).phase ≡ Phase.proxy_connect))
        × (st.proxy ≢ [] → (diagnose f st memo).kind ≢ Kind.dial)
        × (f.hop ≡ none
            → (diagnose f st memo).kind ≡ Kind.timeout
            → memo.phase ≢ Phase.no_phase
            → (diagnose f st memo).phase ≡ memo.phase)
  unfolding diagnose
  diagnose_lem f st memo v = (
    (place-verdict f st memo v, λ e. (place-rejected f st memo v e).0),
    λ e. (kind_of-rejected f st v e, (place-rejected f st memo v e).1),
    kind_of-behind f st,
    place-phase f st memo,
  )
