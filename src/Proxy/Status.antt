-- ===== src/Proxy/Status.antt =====
-- internal/proxy/status.go: TIP's entry in a Proxy-Status field (RFC 9209).
pub mod Laws
use tls_impersonate_proxy.Base.{
  ℕ, zero, suc, ◌+◌, ◌/◌, ◌%◌, Bool, true, false, not, ◌&&◌, ◌||◌, Option, none, some, List, [],
  ◌∷◌, ◌++◌, ◌==◌, leb, ltb, is_nil, if◌then◌else◌, ◌≡◌, refl, arith, ◌≤◌, All, All-append, ◌⊎◌,
  inl, inr, Bool-cases, length,
}
use tls_impersonate_proxy.Text.{itoa, Text, text, lower, contains}
use tls_impersonate_proxy.Connect.{Cause, HopError, Phase, Verdict}
use tls_impersonate_proxy.Impersonate.Classify.{Kind}

pub record ProxyStatus : Type 0 where
  pub err : Text
  pub next_hop : Text
  pub received : ℕ
  pub details : Text

-- One character of `sfString`.
unfoldable pub sf_char : ℕ → Text
sf_char c =
    if c == b'"' || c == 92
    then 92 ∷ c ∷ []
    else if ltb c 0x20 || ltb 0x7e c
    then b'?' ∷ []
    else c ∷ []

unfoldable pub sf_chars : Text → Text
sf_chars [] = []
sf_chars (c ∷ s) = sf_char c ++ sf_chars s

unfoldable pub sf_string : Text → Text
unfolding sf_char sf_chars
sf_string s = b'"' ∷ (sf_chars s ++ b'"' ∷ [])

abbrev part : Bool → Text → Text
part off s = if off then [] else s

-- `proxyStatus.String`
unfoldable pub status_text : ProxyStatus → Text
unfolding sf_string itoa
status_text p =
    text "tip"
    ++ (part (is_nil p.err) (text "; error=" ++ p.err)
        ++ (part (is_nil p.next_hop) (text "; next-hop=" ++ sf_string p.next_hop)
            ++ (part (p.received == 0) (text "; received-status=" ++ itoa p.received)
                ++ part (is_nil p.details) (text "; details=" ++ sf_string p.details))))

unfoldable pub dial_error_type : Cause → Text
dial_error_type e =
    if e.dns
    then text "dns_error"
    else if e.refused
    then text "connection_refused"
    else if e.host_unreachable || e.net_unreachable
    then text "destination_ip_unroutable"
    else text "destination_unavailable"

unfoldable pub tls_error_type : Cause → Text
tls_error_type e =
    let msg = lower e.message in
    if e.verification || contains (text "certificate") msg
    then text "tls_certificate_error"
    else if e.alert || contains (text "alert") msg
    then text "tls_alert_received"
    else text "tls_protocol_error"

abbrev is_no_phase : Phase → Bool
is_no_phase Phase.no_phase = true
is_no_phase p = false

abbrev is_tls_phase : Phase → Bool
is_tls_phase Phase.proxy_tls = true
is_tls_phase p = false

-- What `errorType` reads of a diagnosis.
unfoldable pub error_type : Kind → Phase → Bool → Cause → Text
unfolding dial_error_type tls_error_type
error_type Kind.timeout phase connected e =
    if not (is_no_phase phase) || not connected
    then text "connection_timeout"
    else text "http_response_timeout"
error_type Kind.proxy_rejected phase connected e = text "http_request_error"
error_type Kind.tls phase connected e = tls_error_type e
error_type Kind.dial phase connected e =
    if is_tls_phase phase then tls_error_type e else dial_error_type e
error_type Kind.proxy phase connected e =
    if is_tls_phase phase then tls_error_type e else dial_error_type e
error_type Kind.read phase connected e =
    if e.unexpected_eof then text "http_response_incomplete" else text "connection_terminated"
