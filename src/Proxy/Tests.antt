-- ===== src/Proxy/Tests.antt =====
-- Runs of the answers that the proxy makes itself, and the theorems at concrete failures.
use tls_impersonate_proxy.Base.{
  ℕ, ◌≡◌, refl, true, false, none, some, List, [], ◌∷◌, ◌++◌, ◌↔◌, ◌≢◌, map, length, All,
}
use tls_impersonate_proxy.Text.{Text, text, has_prefix, cut_prefix}
use tls_impersonate_proxy.Proxy.Status.{sf_string}
use tls_impersonate_proxy.Proxy.Status.Laws.{read_sf, visible, read_sf-sf_string}
use tls_impersonate_proxy.Connect.{Verdict, Cause, HopError, new_memo}
use tls_impersonate_proxy.Impersonate.Classify.{Failure}
use tls_impersonate_proxy.Proxy.Diagnosis.{Seen, Diagnosis, diagnose}
use tls_impersonate_proxy.Assoc.{lookup}
use tls_impersonate_proxy.Http.{values}
use tls_impersonate_proxy.Directive.Types.{Issue, issue_text, single_line}
use tls_impersonate_proxy.Impersonate.Classify.{Kind}
use tls_impersonate_proxy.Text.{itoa}
use tls_impersonate_proxy.Proxy.Errors.{teapot, upstream_failure}
use tls_impersonate_proxy.Proxy.Errors.Laws.{own_header, upstream_failure-own}
use tls_impersonate_proxy.Proxy.Errors.Refusals.{IsOneLine, teapot-issues}

read_sf-sf_string_example :
    (tail : Text) × (sf_string (text "a\"b") ++ text ";x" ≡ b'"' ∷ tail)
    × (read_sf false tail ≡ some (visible (text "a\"b"), text ";x"))
read_sf-sf_string_example = read_sf-sf_string (text "a\"b") (text ";x")

abbrev verdict : Verdict
verdict = record {
  status = 407;
  header = (text "X-Tip-Error", text "mine" ∷ []) ∷ (text "Date", text "now" ∷ []) ∷ [];
  body = text "no";
}

abbrev no_cause : Cause
no_cause = record {
  message = text "EOF";
  canceled = false;
  deadline_exceeded = false;
  net_timeout = false;
  dial_op = false;
  dns = false;
  refused = false;
  host_unreachable = false;
  net_unreachable = false;
  verification = false;
  alert = false;
  unexpected_eof = false;
}

abbrev no_text : ℕ → Text
no_text n = []

abbrev failure : Failure
failure = record { hop = some (HopError.rejected verdict); own = no_cause }

abbrev seen : Seen
seen = record { host = text "h"; proxy = []; connected = false }

abbrev found : Diagnosis
found = diagnose (λ t. none) no_text failure seen new_memo

own_prefix : has_prefix (text "X-Tip-") (text "X-Tip-Error") ≡ true
unfolding cut_prefix
own_prefix = refl

upstream_failure-own_example :
    (lookup (text "X-Tip-Error") (upstream_failure no_text found no_cause).header
      ≡ own_header found (text "X-Tip-Error"))
    × (((upstream_failure no_text found no_cause).status_code ≡ 504) ↔ (found.kind ≡ Kind.timeout))
    × (((upstream_failure no_text found no_cause).status_code ≡ 502) ↔ (found.kind ≢ Kind.timeout))
upstream_failure-own_example =
    upstream_failure-own no_text found no_cause (text "X-Tip-Error") own_prefix

abbrev issues : List Issue
issues = record { path = text "Os"; message = text "bad" } ∷ []

teapot-issues_example :
    ((teapot no_text issues).status_code ≡ 418)
    × (values (teapot no_text issues).header (text "X-Tip-Error")
        ≡ map (λ i. single_line (issue_text i)) issues)
    × All IsOneLine (values (teapot no_text issues).header (text "X-Tip-Error"))
    × (values (teapot no_text issues).header (text "X-Tip-Error-Count") ≡ itoa (length issues) ∷ [])
teapot-issues_example = teapot-issues no_text issues
