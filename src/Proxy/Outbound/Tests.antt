-- ===== src/Proxy/Outbound/Tests.antt =====
-- internal/proxy/roundtrip.go: the outbound lines of a small header, and the theorem at it.
use tls_impersonate_proxy.Base.{◌≡◌, refl, List, [], ◌∷◌}
use tls_impersonate_proxy.Text.{Text, text, text_eq, contains_text, lower, cut_prefix, text_le}
use tls_impersonate_proxy.Assoc.{lookup}
use tls_impersonate_proxy.Http.{Header, canonical, canonical_from, is_token, is_alpha}
use tls_impersonate_proxy.Logging.{new_redactor, redact_value}
use tls_impersonate_proxy.Metrics.Routes.{sort, insert_sorted}
use tls_impersonate_proxy.Impersonate.Lines.{emit_all, lines}
use tls_impersonate_proxy.Proxy.Outbound.{cut_line, log_line, log_outbound}

program : Unit {0}
unfolding text_eq contains_text lower cut_prefix text_le lookup canonical canonical_from is_token
    is_alpha new_redactor redact_value sort insert_sorted emit_all lines cut_line log_line
    log_outbound
program = tt

abbrev header : Header
header =
    (text "Accept", text "a: b" ∷ [])
    ∷ (text "Cookie", text "c=1" ∷ text "d=2" ∷ [])
    ∷ (text "Header-Order:", text "cookie" ∷ text "x-absent" ∷ [])
    ∷ []

abbrev order : Text
order = text "Header-Order:"

abbrev pheader : Text
pheader = text "PHeader-Order:"

abbrev hidden : List Text
hidden = new_redactor (text "COOKIE" ∷ [])

captured :
    lines order pheader header ≡ text "cookie: c=1" ∷ text "cookie: d=2" ∷ text "accept: a: b" ∷ []
unfolding program
captured = refl

logged_lines :
    log_outbound hidden (lines order pheader header)
    ≡ text "cookie: [redacted]" ∷ text "cookie: [redacted]" ∷ text "accept: a: b" ∷ []
unfolding program
logged_lines = refl
