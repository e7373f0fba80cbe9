-- ===== src/Proxy/Errors/Laws.antt =====
-- internal/proxy/errors.go: what reaches the client of a hop's refusal, and which headers are the
-- proxy's own.
use tls_impersonate_proxy.Base.{
  ℕ, ◌≡◌, refl, ◌≢◌, ◌↔◌, inl, inr, true, false, not, ◌&&◌, Option, none, some, List, [], ◌∷◌, ◌++◌,
  map, is_nil, if◌then◌else◌, arith, Bool-cases, append_assoc, append-nil, sym, ap, ◌∙◌,
}
use tls_impersonate_proxy.Text.{
  Text, text, text_eq, text_eq_iff, text_eq_refl, contains_text, has_prefix, cut_prefix,
}
use tls_impersonate_proxy.Assoc.{lookup, lookup-put}
use tls_impersonate_proxy.Http.{
  content_length_lem, Header, canonical, canonical_from, is_token, is_alpha, values, set, add,
  lookup-set, lookup-add,
}
use tls_impersonate_proxy.Logging.{redact_userinfo}
use tls_impersonate_proxy.Connect.{Verdict, Cause, line}
use tls_impersonate_proxy.Directive.Types.{Issue, issue_text, single_line}
use tls_impersonate_proxy.Impersonate.Classify.{Kind, kind_text}
use tls_impersonate_proxy.Text.{itoa}
use tls_impersonate_proxy.Proxy.Status.{status_text, error_type}
use tls_impersonate_proxy.Proxy.Diagnosis.{Diagnosis}
use tls_impersonate_proxy.Proxy.Errors.{
  skip_names, is_dropped, relay_from, relay, add_issues, hop_headers, hop_status, failure_headers,
  failure_code, synthetic, upstream_failure,
}

lookup-relay_from :
    (skip : List Text) (name : Text) (dst src : Header)
    → lookup name (relay_from skip dst src) ≡ (
        if is_dropped skip name
        then lookup name dst
        else (elim (lookup name src) [ some vs ↦ some vs | none ↦ lookup name dst ]))
unfolding relay_from lookup
lookup-relay_from skip name dst [] = ground arith
lookup-relay_from skip name dst ((n, vs) ∷ src) = ground (
  arith,
  text_eq_iff n name,
  lookup-put n name vs (relay_from skip dst src),
  lookup-relay_from skip name dst src,
)

-- Of a hop's refusal the client gets every header, with its values, but the hop-by-hop ones, the ones that
-- the hop's `Connection` lists, those that describe the body, and those that begin with `X-Tip-`.
pub lookup-relay :
    (name : Text) (src : Header)
    → lookup name (relay [] src) ≡ (
        if is_dropped (skip_names (values src (text "Connection"))) name
        then none
        else lookup name src)
unfolding relay lookup
lookup-relay name src =
    ground (arith, lookup-relay_from (skip_names (values src (text "Connection"))) name [] src)

pub x_tip_error_lem : canonical (text "X-Tip-Error") ≡ text "X-Tip-Error"
unfolding canonical canonical_from is_token is_alpha
x_tip_error_lem = refl

pub x_tip_error_count_lem : canonical (text "X-Tip-Error-Count") ≡ text "X-Tip-Error-Count"
unfolding canonical canonical_from is_token is_alpha
x_tip_error_count_lem = refl

x_tip_proxy_status_lem : canonical (text "X-Tip-Proxy-Status") ≡ text "X-Tip-Proxy-Status"
unfolding canonical canonical_from is_token is_alpha
x_tip_proxy_status_lem = refl

x_tip_proxy_error_lem : canonical (text "X-Tip-Proxy-Error") ≡ text "X-Tip-Proxy-Error"
unfolding canonical canonical_from is_token is_alpha
x_tip_proxy_error_lem = refl

pub proxy_status_lem : canonical (text "Proxy-Status") ≡ text "Proxy-Status"
unfolding canonical canonical_from is_token is_alpha
proxy_status_lem = refl

-- The headers that begin with `X-Tip-` and come of a hop's verdict.
abbrev pub verdict_header : Option Verdict → Text → Option (List Text)
verdict_header none name = none
verdict_header (some v) name =
    let l = redact_userinfo (line v) in
    if not (is_nil l) && text_eq (text "X-Tip-Proxy-Error") name
    then some (single_line l ∷ [])
    else if text_eq (text "X-Tip-Proxy-Status") name
    then some (itoa v.status ∷ [])
    else none

abbrev pub own_header : Diagnosis → Text → Option (List Text)
own_header d name =
    if text_eq (text "X-Tip-Error") name
    then some ((kind_text d.kind ++ (text ": " ++ single_line d.message)) ∷ [])
    else verdict_header d.verdict name

-- A header set under a canonical name.
lookup-set-canonical :
    (name value : Text) (h : Header) (n : Text)
    → canonical name ≡ name
    → lookup n (set name value h) ≡ (if text_eq name n then some (value ∷ []) else lookup n h)
lookup-set-canonical name value h n e = ground (arith, lookup-set name value h n)

lookup-relay_own :
    (name : Text) (src : Header)
    → has_prefix (text "X-Tip-") name ≡ true
    → lookup name (relay [] src) ≡ none
unfolding is_dropped
lookup-relay_own name src h =
    let e = lookup-relay name src in
    elim (Bool-cases (contains_text (skip_names (values src (text "Connection"))) name)) [
      | inl skipped ↦ ground arith
      | inr other ↦ ground arith
    ]

lookup-hop_headers :
    (v : Option Verdict) (name : Text)
    → has_prefix (text "X-Tip-") name ≡ true
    → lookup name (hop_headers v) ≡ verdict_header v name
unfolding hop_headers
lookup-hop_headers none name h = unfold lookup in refl
lookup-hop_headers (some v) name h =
    let l = redact_userinfo (line v) in
    let h₁ = set (text "X-Tip-Proxy-Status") (itoa v.status) (relay [] v.header) in
    let dropped = lookup-relay_own name v.header h in
    let coded =
      lookup-set-canonical (text "X-Tip-Proxy-Status") (itoa v.status) (relay [] v.header) name
        x_tip_proxy_status_lem in
    let lined =
      lookup-set-canonical (text "X-Tip-Proxy-Error") (single_line l) h₁ name
        x_tip_proxy_error_lem in
    elim (Bool-cases (is_nil l)) [
      | inl empty ↦ rw empty (coded ∙ rw dropped refl)
      | inr shown ↦ rw shown (lined ∙ rw (coded, dropped) refl)
    ]

prefixed_other :
    (other name : Text)
    → has_prefix (text "X-Tip-") other ≡ false
    → has_prefix (text "X-Tip-") name ≡ true
    → text_eq other name ≡ false
prefixed_other other name n h = elim (Bool-cases (text_eq other name)) [
  | inr distinct ↦ distinct
  | inl same ↦ absurd (ground (arith, text_eq_iff other name))
]

-- The client of a failed round trip reads 504 exactly if the failure is a timeout, else 502. Of the headers
-- that begin with `X-Tip-` it reads exactly the proxy's own, whatever the hop sent: `X-Tip-Error` with the
-- kind and the message on one line and, where a hop refused, `X-Tip-Proxy-Status` with the hop's raw status
-- and, where the body's redacted first line is not empty, `X-Tip-Proxy-Error` with that line.
pub upstream_failure-own :
    (status_text_of : ℕ → Text) (d : Diagnosis) (e : Cause) (name : Text)
    → has_prefix (text "X-Tip-") name ≡ true
    → (lookup name (upstream_failure status_text_of d e).header ≡ own_header d name)
      × (((upstream_failure status_text_of d e).status_code ≡ 504) ↔ (d.kind ≡ Kind.timeout))
      × (((upstream_failure status_text_of d e).status_code ≡ 502) ↔ (d.kind ≢ Kind.timeout))
unfolding upstream_failure synthetic failure_headers
upstream_failure-own status_text_of d e name h =
    let status = hop_status (error_type d.kind d.phase d.connected e) d.next_hop d.verdict in
    let message = kind_text d.kind ++ (text ": " ++ single_line d.message) in
    let h₁ = set (text "X-Tip-Error") message (hop_headers d.verdict) in
    let h₂ = add (text "Proxy-Status") (status_text status) h₁ in
    let length_other = prefixed_other (text "Content-Length") name (unfold cut_prefix in refl) h in
    let status_other = prefixed_other (text "Proxy-Status") name (unfold cut_prefix in refl) h in
    let a = lookup-set-canonical (text "Content-Length") (text "0") h₂ name content_length_lem in
    let b = lookup-add (text "Proxy-Status") (status_text status) h₁ name in
    let c =
      lookup-set-canonical (text "X-Tip-Error") message (hop_headers d.verdict) name
        x_tip_error_lem in
    let v = lookup-hop_headers d.verdict name h in
    (
      a ∙ rw (length_other, b, proxy_status_lem, status_other, c, v) refl,
      code_timeout d.kind,
      code_gateway d.kind,
    )
  where
    code_timeout : (k : Kind) → (failure_code k ≡ 504) ↔ (k ≡ Kind.timeout)
    code_timeout Kind.timeout = (λ p. refl, λ p. refl)
    code_timeout Kind.proxy_rejected = (λ p. absurd (omega arith), λ p. absurd (ground arith))
    code_timeout Kind.proxy = (λ p. absurd (omega arith), λ p. absurd (ground arith))
    code_timeout Kind.tls = (λ p. absurd (omega arith), λ p. absurd (ground arith))
    code_timeout Kind.dial = (λ p. absurd (omega arith), λ p. absurd (ground arith))
    code_timeout Kind.read = (λ p. absurd (omega arith), λ p. absurd (ground arith))

    code_gateway : (k : Kind) → (failure_code k ≡ 502) ↔ (k ≢ Kind.timeout)
    code_gateway Kind.timeout = (λ p. absurd (omega arith), λ p. absurd (p refl))
    code_gateway Kind.proxy_rejected = (λ p. λ q. ground arith, λ p. refl)
    code_gateway Kind.proxy = (λ p. λ q. ground arith, λ p. refl)
    code_gateway Kind.tls = (λ p. λ q. ground arith, λ p. refl)
    code_gateway Kind.dial = (λ p. λ q. ground arith, λ p. refl)
    code_gateway Kind.read = (λ p. λ q. ground arith, λ p. refl)

values-add :
    (name value : Text) (h : Header) → values (add name value h) name ≡ values h name ++ value ∷ []
unfolding values add
values-add name value h = ground (
  arith,
  lookup-put (canonical name) (canonical name) (values h name ++ value ∷ []) h,
  text_eq_refl (canonical name),
)

pub add_issues-values :
    (is : List Issue) (h : Header)
    → values (add_issues is h) (text "X-Tip-Error")
      ≡ values h (text "X-Tip-Error") ++ map (λ i. single_line (issue_text i)) is
unfolding add_issues
add_issues-values [] h = sym (append-nil (values h (text "X-Tip-Error")))
add_issues-values (i ∷ is) h =
    let v = single_line (issue_text i) in
    add_issues-values is (add (text "X-Tip-Error") v h)
    ∙ (ap (λ (xs : List Text). xs ++ map (λ i. single_line (issue_text i)) is)
          (values-add (text "X-Tip-Error") v h)
        ∙ append_assoc (values h (text "X-Tip-Error")) (v ∷ [])
            (map (λ i. single_line (issue_text i)) is))
