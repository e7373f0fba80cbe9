-- ===== src/Proxy/Errors.antt =====
-- internal/proxy/errors.go, internal/directive/issues.go: the answers that the proxy makes itself. The
-- request of an answer and its fixed protocol version are left out; `http.StatusText` is an argument.
pub mod Laws
pub mod Refusals
use tls_impersonate_proxy.Base.{
  ℕ, Bool, true, false, ◌||◌, Option, none, some, List, [], ◌∷◌, ◌++◌, map, length, any, is_nil,
  if◌then◌else◌,
}
use tls_impersonate_proxy.Text.{Text, text, contains_text, split, trim_space, has_prefix}
use tls_impersonate_proxy.Assoc.{put}
use tls_impersonate_proxy.Http.{Header, canonical, values, set, add}
use tls_impersonate_proxy.Logging.{redact_userinfo}
use tls_impersonate_proxy.Connect.{Verdict, Cause, line}
use tls_impersonate_proxy.Directive.Types.{Issue, issue_text, single_line}
use tls_impersonate_proxy.Impersonate.Classify.{Kind, kind_text}
use tls_impersonate_proxy.Text.{itoa}
use tls_impersonate_proxy.Proxy.Status.{ProxyStatus, status_text, error_type}
use tls_impersonate_proxy.Proxy.Diagnosis.{Diagnosis}

pub record Response : Type 0 where
  pub status : Text
  pub status_code : ℕ
  pub header : Header
  pub content_length : ℕ

abbrev pub no_status : ProxyStatus
no_status = record { err = []; next_hop = []; received = 0; details = [] }

-- `unrelayed`
abbrev pub unrelayed : List Text
unrelayed =
    text "Connection"
    ∷ text "Keep-Alive"
    ∷ text "Proxy-Authenticate"
    ∷ text "Proxy-Connection"
    ∷ text "Te"
    ∷ text "Trailer"
    ∷ text "Transfer-Encoding"
    ∷ text "Upgrade"
    ∷ text "Content-Length"
    ∷ text "Content-Encoding"
    ∷ text "Content-Type"
    ∷ []

unfoldable pub name_list : List Text → List Text
name_list [] = []
name_list (name ∷ names) = canonical (trim_space name) ∷ name_list names

-- The set `skip`: the names that the values of `Connection` list.
unfoldable pub skip_names : List Text → List Text
skip_names [] = []
skip_names (v ∷ vs) = name_list (split b',' v) ++ skip_names vs

unfoldable pub is_dropped : List Text → Text → Bool
is_dropped skip name =
    contains_text unrelayed name || contains_text skip name || has_prefix (text "X-Tip-") name

unfoldable pub relay_from : List Text → Header → Header → Header
relay_from skip dst [] = dst
relay_from skip dst ((name, vs) ∷ src) =
    let rest = relay_from skip dst src in if is_dropped skip name then rest else put name vs rest

unfoldable pub relay : Header → Header → Header
relay dst src = relay_from (skip_names (values src (text "Connection"))) dst src

-- `Issues.Headers`: the loop over the issues.
unfoldable pub add_issues : List Issue → Header → Header
add_issues [] h = h
add_issues (i ∷ is) h = add_issues is (add (text "X-Tip-Error") (single_line (issue_text i)) h)

unfoldable pub issue_headers : List Issue → Header
issue_headers is = add_issues is (set (text "X-Tip-Error-Count") (itoa (length is)) [])

-- What a hop's verdict brings: its headers, its raw status, the first line of its body.
unfoldable pub hop_headers : Option Verdict → Header
hop_headers none = []
hop_headers (some v) =
    let l = redact_userinfo (line v) in
    let h = set (text "X-Tip-Proxy-Status") (itoa v.status) (relay [] v.header) in
    if is_nil l then h else set (text "X-Tip-Proxy-Error") (single_line l) h

unfoldable pub hop_status : Text → Text → Option Verdict → ProxyStatus
hop_status err next_hop none = record { err = err; next_hop = next_hop; received = 0; details = [] }
hop_status err next_hop (some v) = record {
  err = err;
  next_hop = next_hop;
  received = v.status;
  details = redact_userinfo (line v);
}

unfoldable pub failure_headers : Diagnosis → Cause → Header
failure_headers d e =
    let status = hop_status (error_type d.kind d.phase d.connected e) d.next_hop d.verdict in
    add (text "Proxy-Status") (status_text status) (
      set (text "X-Tip-Error") (kind_text d.kind ++ (text ": " ++ single_line d.message))
        (hop_headers d.verdict))

abbrev pub failure_code : Kind → ℕ
failure_code Kind.timeout = 504
failure_code k = 502

module _ (status_text_of : ℕ → Text) where
  unfoldable pub synthetic : ℕ → Header → Response
  synthetic code h = record {
    status = itoa code ++ (text " " ++ status_text_of code);
    status_code = code;
    header = set (text "Content-Length") (text "0") h;
    content_length = 0;
  }

  unfoldable pub teapot : List Issue → Response
  teapot issues = synthetic 418 (
      set (text "Proxy-Status")
        (status_text (record no_status { err = text "http_request_denied" }))
        (issue_headers issues))

  unfoldable pub upstream_failure : Diagnosis → Cause → Response
  upstream_failure d e = synthetic (failure_code d.kind) (failure_headers d e)

  unfoldable pub unavailable : Response
  unavailable = synthetic 503 (
      set (text "Connection") (text "close") (
        set (text "Proxy-Status")
          (status_text (record no_status {
            err = text "proxy_internal_error";
            details = text "shutting down";
          }))
          (set (text "X-Tip-Error") (text "shutting down") [])))
