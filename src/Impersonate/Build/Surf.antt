-- ===== src/Impersonate/Build/Surf.antt =====
-- internal/impersonate/build.go: what `Build` registers to run on surf's client, on the transport that
-- surf has made. A client's transport is an HTTP/1.1 or HTTP/2 one, or another.
use tls_impersonate_proxy.Base.{
  ℕ, ◌≡◌, refl, Bool, false, not, ◌&&◌, ◌⊎◌, inl, inr, Option, none, some, arith, is_nil, ltb,
  if◌then◌else◌, if-elim, Bool-cases, subst,
}
use tls_impersonate_proxy.Text.{Text, text, text_eq, text_eq_iff}
use tls_impersonate_proxy.Net.{Url}
use tls_impersonate_proxy.Connect
use tls_impersonate_proxy.Connect.{Dialer, NewError, Made, new_dialer, basic_auth, join_host_port}
use tls_impersonate_proxy.Directive.Types.{Spec}
use tls_impersonate_proxy.Impersonate.Build.{Options, Hop, Built, Library, hop_dialer, bad_url}

-- The fields of `*ehttp.Transport` that the package sets: whether `Proxy` is set, whose `DialContext`
-- it dials with and whether that verifies the hop's certificate, and the header timeout.
pub record HttpTransport : Type 0 where
  pub proxied : Bool
  pub dialer : Option Dialer
  pub insecure : Bool
  pub response_header_timeout : ℕ

pub data Transport : Type 0 where
  http : HttpTransport → Transport
  other : Transport

pub data Ran : Type 0 where
  ok : Transport → Ran
  no_transport : Ran
  bad_hop : NewError → Ran

abbrev hopped : HttpTransport → Bool → Made → Ran
hopped t insecure (Made.err e) = bad_hop e
hopped t insecure (Made.ok d) =
    Ran.ok (http (record t { proxied = false; dialer = some d; insecure = insecure }))

-- The function that `hopDialer` returns.
unfoldable pub run_hop : (Text → Text) → Hop → Transport → Ran
run_hop base64 hop other = no_transport
run_hop base64 hop (http t) = hopped t hop.insecure (new_dialer base64 hop.url)

-- `headerTimeout`
unfoldable pub header_timeout : ℕ → Transport → Transport
header_timeout d other = other
header_timeout d (http t) =
    if ltb 0 d then http (record t { response_header_timeout = d }) else http t

abbrev pub IsHttp : Url → Type 0
IsHttp u = (u.scheme ≡ text "http") ⊎ (u.scheme ≡ text "https")

-- What `hopDialer` hands on, if it hands on a hop.
abbrev IsHop : Library → Spec → Options → Hop → Type 0
IsHop lib s o hop =
    IsHttp hop.url
    × (lib.url_parse s.proxy ≡ some hop.url)
    × (hop.insecure ≡ not o.verify_certificates)

abbrev MayHop : Library → Spec → Options → Built (Option Hop) → Type 0
MayHop lib s o (Built.ok (some hop)) = IsHop lib s o hop
MayHop lib s o b = Unit

hop_dialer-MayHop : (lib : Library) (s : Spec) (o : Options) → MayHop lib s o (hop_dialer lib s o)
unfolding hop_dialer
hop_dialer-MayHop lib s o =
    if-elim P (is_nil s.proxy) (λ _. tt)
      (λ _.
        if-elim P (text_eq s.force_http (text "3")) (λ _. tt)
          (λ _. parsed (lib.url_parse s.proxy) refl))
  where
    P : Built (Option Hop) → Type 0
    P b = MayHop lib s o b

    parsed :
        (v : Option Url)
        → lib.url_parse s.proxy ≡ v
        → P (elim v [
          | none ↦ Built.err bad_url
          | some u ↦
              if not (text_eq u.scheme (text "http")) && not (text_eq u.scheme (text "https"))
              then Built.ok none
              else Built.ok (some (record { url = u; insecure = not o.verify_certificates }))
        ])
    parsed none e = tt
    parsed (some u) e =
        if-elim P (not (text_eq u.scheme (text "http")) && not (text_eq u.scheme (text "https")))
          (λ _. tt)
          (λ q.
            let a = text_eq_iff u.scheme (text "http") in
            let b = text_eq_iff u.scheme (text "https") in
            (
              elim (Bool-cases (text_eq u.scheme (text "http"))) [
                | inl plain ↦ inl (a.0 plain)
                | inr n ↦ inr (b.0 (ground arith))
              ],
              e,
              refl,
            ))

-- The transport behind a hop that `Build` registers, and behind the header timeout.
module _ (base64 : Text → Text) (lib : Library) (s : Spec) (o : Options) (hop : Hop) where
  -- An http or https proxy of a spec, run on an HTTP transport: if the URL has no host name, the build
  -- fails with that; otherwise the transport has no proxy of surf's left and dials through TIP's own
  -- dialer for the URL that `url.Parse` reads, with TLS exactly if its scheme is https, which is http
  -- otherwise, and checks the hop's certificate exactly if the options ask for verified certificates.
  -- On another transport it fails.
  pub run_hop-hop_dialer :
      (t : HttpTransport)
      → hop_dialer lib s o ≡ Built.ok (some hop)
      → (lib.url_parse s.proxy ≡ some hop.url)
        × ((hop.url.scheme ≡ text "http") ⊎ (hop.url.scheme ≡ text "https"))
        × (run_hop base64 hop other ≡ no_transport)
        × (run_hop base64 hop (http t) ≡ (
            if is_nil hop.url.hostname
            then bad_hop Connect.no_host
            else Ran.ok (
                http (record t {
                  proxied = false;
                  dialer = some (record {
                    host = join_host_port hop.url.hostname (
                        if is_nil hop.url.port
                        then (if text_eq hop.url.scheme (text "https")
                            then text "443"
                            else text "80")
                        else hop.url.port);
                    auth = basic_auth base64 hop.url.user;
                    with_tls = text_eq hop.url.scheme (text "https");
                  });
                  insecure = not o.verify_certificates;
                }))))
  unfolding run_hop new_dialer
  run_hop-hop_dialer t h =
      let (scheme, parsed, insecure) =
        subst (λ (b : Built (Option Hop)). MayHop lib s o b) h (hop_dialer-MayHop lib s o) in
      (parsed, scheme, refl, rw (insecure, known scheme) (ground arith))
    where
      known :
          IsHttp hop.url
          → (not (text_eq hop.url.scheme (text "http"))
              && not (text_eq hop.url.scheme (text "https")))
            ≡ false
      known (inl e) = rw e (unfold text_eq in refl)
      known (inr e) = rw e (unfold text_eq in refl)
