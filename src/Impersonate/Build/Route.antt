-- ===== src/Impersonate/Build/Route.antt =====
-- internal/impersonate/build.go: which of the calls of `Build` decide where a connection goes and
-- whether its certificate is checked.
use tls_impersonate_proxy.Base.{
  ◌≡◌, refl, not, ◌&&◌, ◌||◌, Option, none, some, List, [], ◌∷◌, ◌++◌, arith, is_nil, if◌then◌else◌,
  if-elim, ◌≢◌, inl, inr, true, Bool-cases, Option-cases, ap, sym, ◌∙◌,
}
use tls_impersonate_proxy.Text.{Text, text, text_eq, text_eq_iff, contains_text}
use tls_impersonate_proxy.Assoc.{lookup}
use tls_impersonate_proxy.Net.{Url}
use tls_impersonate_proxy.Impersonate.Build.Surf.{IsHttp}
use tls_impersonate_proxy.Directive.Types.{Spec}
use tls_impersonate_proxy.Impersonate.Infer.{Family, family_map}
use tls_impersonate_proxy.Impersonate.Profiles.{edge_headers}
use tls_impersonate_proxy.Impersonate.Build.{
  Options, Hop, Call, Built, ◌>>=◌, or_panic, when, Library, impersonate_os, ja_calls, http2_calls,
  http3_calls, resolver_calls, force_calls, transport_calls, family_headers, browser_calls, base_of,
  unknown_browser, not_available, >>=-eq-ok, hop_dialer, proxy_calls, calls_of,
}
use tls_impersonate_proxy.Impersonate.Build.Plain.{
  routes, routes-append, IsPlain, IsEmpty, append-IsEmpty, bind-IsPlain, impersonate_os-IsEmpty,
  http2_calls-IsEmpty, plain, http3_calls-IsPlain, ja_calls-IsPlain, resolver_calls-IsPlain,
  when-IsEmpty, skip,
}

transport_calls-routes :
    (s : Spec) (o : Options)
    → routes (transport_calls s o)
      ≡ when (s.secure_tls || o.verify_certificates) (Call.secure_tls ∷ [])
unfolding transport_calls force_calls
transport_calls-routes s o =
    skip (when (not (is_nil s.interface_addr)) (Call.interface_addr s.interface_addr ∷ [])) _ (
      when-IsEmpty (not (is_nil s.interface_addr)) (Call.interface_addr s.interface_addr ∷ []) refl)
    ∙ (routes-append checked _ ∙ (ap (λ (cs : List Call). routes checked ++ cs) rest ∙ only))
  where
    checked : List Call
    checked = when (s.secure_tls || o.verify_certificates) (Call.secure_tls ∷ [])

    last : List Call
    last =
        Call.disable_compression
        ∷ Call.header_timeout o.response_header_timeout
        ∷ Call.finalize
        ∷ []

    alive : List Call
    alive = when s.disable_keep_alive (Call.disable_keep_alive ∷ [])

    clear : List Call
    clear = when s.h2c (Call.h2c ∷ [])

    rest : routes (alive ++ (clear ++ (force_calls s.force_http ++ last))) ≡ []
    rest =
        append-IsEmpty alive (clear ++ (force_calls s.force_http ++ last))
          (when-IsEmpty s.disable_keep_alive (Call.disable_keep_alive ∷ []) refl)
          (append-IsEmpty clear (force_calls s.force_http ++ last)
            (when-IsEmpty s.h2c (Call.h2c ∷ []) refl)
            (append-IsEmpty (force_calls s.force_http) last (ground arith) refl))

    only : routes checked ++ [] ≡ checked
    only = ground arith

ok_injective : (xs ys : List Call) → Built.ok xs ≡ Built.ok ys → xs ≡ ys
ok_injective xs ys h = cc

module _ (lib : Library) (s : Spec) (o : Options) where
  family_headers-IsPlain : (name os : Text) → IsPlain (family_headers lib name os)
  unfolding family_headers
  family_headers-IsPlain name os =
      if-elim IsPlain (text_eq name (text "edge"))
        (λ _.
          bind-IsPlain (or_panic (edge_headers lib.agent lib.sec_ch_ua os)) _ (λ overrides e. refl))
        (λ _. refl)

  browser_calls-IsPlain : IsPlain (browser_calls lib s)
  unfolding browser_calls
  browser_calls-IsPlain =
      if-elim IsPlain (is_nil s.browser) (λ _. refl) (λ _. found (lookup s.browser family_map))
    where
      found :
          (o : Option Family)
          → IsPlain (elim o [
            | none ↦ Built.err (unknown_browser s.browser)
            | some f ↦
                if not (is_nil s.os) && not (contains_text f.oses s.os)
                then Built.err (not_available s.browser s.os)
                else (family_headers lib f.name s.os >>= λ headers. Built.ok (
                    Call.impersonate
                    ∷ (impersonate_os s.os ++ (Call.im_base (base_of f.name) ∷ headers))))
          ])
      found none = tt
      found (some f) =
          if-elim IsPlain (not (is_nil s.os) && not (contains_text f.oses s.os)) (λ _. tt)
            (λ _. bind-IsPlain (family_headers lib f.name s.os) _ (λ headers e.
              append-IsEmpty (impersonate_os s.os) (Call.im_base (base_of f.name) ∷ headers)
                (impersonate_os-IsEmpty s.os) (plain (family_headers-IsPlain f.name s.os) e)))

  calls_of-hop :
      (calls : List Call)
      → calls_of lib s o ≡ Built.ok calls
      → (hop : Option Hop) × (hop_dialer lib s o ≡ Built.ok hop)
        × (routes calls
            ≡ proxy_calls lib s hop
              ++ when (s.secure_tls || o.verify_certificates) (Call.secure_tls ∷ []))
  unfolding calls_of
  calls_of-hop calls h =
      let (browser, e, h) = >>=-eq-ok (browser_calls lib s) _ h in
      let (preset, f, h) = >>=-eq-ok (ja_calls s) _ h in
      let (http3, g, h) = >>=-eq-ok (http3_calls s) _ h in
      let (hop, i, h) = >>=-eq-ok (hop_dialer lib s o) _ h in
      let (resolver, j, h) = >>=-eq-ok (resolver_calls s) _ h in
      (
        hop,
        i,
        joined browser preset http3 resolver hop (plain browser_calls-IsPlain e)
            (plain (ja_calls-IsPlain s) f) (plain (http3_calls-IsPlain s) g)
            (plain (resolver_calls-IsPlain s) j) h,
      )
    where
      checked : List Call
      checked = when (s.secure_tls || o.verify_certificates) (Call.secure_tls ∷ [])

      proxy_routes : (hop : Option Hop) → routes (proxy_calls lib s hop) ≡ proxy_calls lib s hop
      proxy_routes none = refl
      proxy_routes (some hop) = refl

      joined :
          (browser preset http3 resolver : List Call) (hop : Option Hop)
          → IsEmpty browser
          → IsEmpty preset
          → IsEmpty http3
          → IsEmpty resolver
          → Built.ok (
              browser
              ++ (preset
                  ++ (http2_calls s
                      ++ (http3 ++ (proxy_calls lib s hop ++ (resolver ++ transport_calls s o))))))
            ≡ Built.ok calls
          → routes calls ≡ proxy_calls lib s hop ++ checked
      joined browser preset http3 resolver hop a b c d e =
          let same = ok_injective _ _ e in
          ap routes (sym same)
          ∙ (skip browser _ a
              ∙ (skip preset _ b
                  ∙ (skip (http2_calls s) _ (http2_calls-IsEmpty s)
                      ∙ (skip http3 _ c
                          ∙ (routes-append (proxy_calls lib s hop) _
                              ∙ (ap
                                    (λ (cs : List Call).
                                      cs ++ routes (resolver ++ transport_calls s o))
                                    (proxy_routes hop)
                                  ∙ ap (λ (cs : List Call). proxy_calls lib s hop ++ cs)
                                      (skip resolver _ d ∙ transport_calls-routes s o)))))))

  -- Where a hop is handed on, or none is, and the spec has a proxy, the URL of the proxy can be read, and
  -- HTTP/3 is not forced.
  hop_dialer-cases :
      (hop : Option Hop)
      → hop_dialer lib s o ≡ Built.ok hop
      → s.proxy ≢ []
      → (u : Url) × (lib.url_parse s.proxy ≡ some u)
        × (s.force_http ≢ text "3")
        × (IsHttp u → hop ≡ some (record { url = u; insecure = not o.verify_certificates }))
        × (¬ IsHttp u → hop ≡ none)
  unfolding hop_dialer
  hop_dialer-cases hop h given = elim (Bool-cases (is_nil s.proxy)) [
    | inl empty ↦ absurd (given (is_nil_sound s.proxy empty))
    | inr there ↦ elim (Bool-cases (text_eq s.force_http (text "3"))) [
      | inl three ↦ absurd (ground arith)
      | inr other ↦ elim (Option-cases (lib.url_parse s.proxy)) [
        | inl bad ↦ absurd (ground arith)
        | inr (u, parsed) ↦ (
          u,
          parsed,
          λ e. let on = (text_eq_iff s.force_http (text "3")).1 e in absurd (ground arith),
          λ is_http. elim is_http [
            | inl e ↦ let on = (text_eq_iff u.scheme (text "http")).1 e in ground arith
            | inr e ↦ let on = (text_eq_iff u.scheme (text "https")).1 e in ground arith
          ],
          λ n. elim (Bool-cases (text_eq u.scheme (text "http"))) [
            | inl on ↦ absurd (n (inl ((text_eq_iff u.scheme (text "http")).0 on)))
            | inr off ↦ elim (Bool-cases (text_eq u.scheme (text "https"))) [
              | inl on ↦ absurd (n (inr ((text_eq_iff u.scheme (text "https")).0 on)))
              | inr off' ↦ ground arith
            ]
          ],
        )
      ]
    ]
  ]
    where
      is_nil_sound : (t : Text) → is_nil t ≡ true → t ≡ []
      is_nil_sound [] e = refl
      is_nil_sound (c ∷ t) e = absurd (ground arith)

  abbrev pub checks : List Call
  checks = when (s.secure_tls || o.verify_certificates) (Call.secure_tls ∷ [])

  -- Where `Build` gets to surf, the calls that it has made of surf's proxy, of a hop of its own and of
  -- the check of certificates are these, once each and in this order. Without a proxy in the spec it
  -- sets no proxy. Otherwise the URL of the proxy can be read and the spec does not force HTTP/3; if the
  -- URL's scheme is http or https, it sets no proxy of surf's and its own hop to that URL, which leaves the
  -- hop's certificate unchecked exactly if the options do not ask for verified certificates; with another
  -- scheme it sets the spec's proxy and no hop. Then comes the check of certificates, exactly if the spec
  -- or the options ask for it.
  pub calls_of-routes :
      (calls : List Call)
      → calls_of lib s o ≡ Built.ok calls
      → (s.proxy ≡ [] → routes calls ≡ Call.proxy [] ∷ checks)
        × (s.proxy ≢ []
            → (u : Url) × (lib.url_parse s.proxy ≡ some u)
              × (s.force_http ≢ text "3")
              × (IsHttp u
                  → routes calls
                    ≡ Call.proxy []
                      ∷ Call.with_hop (record { url = u; insecure = not o.verify_certificates })
                      ∷ checks)
              × (¬ IsHttp u → routes calls ≡ Call.proxy s.proxy ∷ checks))
  unfolding hop_dialer
  calls_of-routes calls h =
      let (hop, made, same) = calls_of-hop calls h in
      (
        λ e.
            let no_hop : none ≡ hop =
              built_injective none hop (sym (rw (e, hop_dialer) refl) ∙ made) in
            same
            ∙ (ap (λ (o' : Option Hop). proxy_calls lib s o' ++ checks) (sym no_hop)
                ∙ ap (λ (t : Text). Call.proxy t ∷ checks) e),
        λ given.
            let (u, parsed, other, is_hop, is_none) = hop_dialer-cases hop made given in
            (
              u,
              parsed,
              other,
              λ http. same ∙ ap (λ (o' : Option Hop). proxy_calls lib s o' ++ checks) (is_hop http),
              λ n. same ∙ ap (λ (o' : Option Hop). proxy_calls lib s o' ++ checks) (is_none n),
            ),
      )
    where
      built_injective : (a b : Option Hop) → Built.ok a ≡ Built.ok b → a ≡ b
      built_injective a b h = cc
