-- ===== src/Impersonate/Build/Plain.antt =====
-- internal/impersonate/build.go: the calls of the sections of `Build` that do not decide where a connection
-- goes.
use tls_impersonate_proxy.Base.{
  ◌≡◌, refl, Bool, true, false, not, Option, none, some, List, [], ◌∷◌, ◌++◌, arith, is_nil, keep,
  if◌then◌else◌, if-elim, ℕ, subst, map,
}
use tls_impersonate_proxy.Text.{Text, text, text_eq, cut, lower, split, trim_space}
use tls_impersonate_proxy.Assoc.{lookup}
use tls_impersonate_proxy.Directive.Types.{Spec, Http2, Http3}
use tls_impersonate_proxy.Impersonate.Build.Presets.{ja_presets, dot_providers}
use tls_impersonate_proxy.Impersonate.Build.{
  Call, Built, ◌>>=◌, or_panic, when, impersonate_os, apply_http2, http2_call, http3_call,
  http3_key, http3_keys, http3_settings_calls, dns_over_tls_calls, ja_calls, http2_calls,
  http3_calls, resolver_calls, unknown_preset,
}

abbrev pub is_route : Call → Bool
is_route (Call.proxy url) = true
is_route (Call.with_hop hop) = true
is_route Call.secure_tls = true
is_route call = false

-- The calls of a builder that set its proxy, its hop and the check of certificates.
abbrev pub routes : List Call → List Call
routes calls = keep is_route calls

pub routes-append : (xs ys : List Call) → routes (xs ++ ys) ≡ routes xs ++ routes ys
routes-append [] ys = refl
routes-append (x ∷ xs) ys = ground (arith, routes-append xs ys)

-- No call of the section is such a call.
abbrev pub IsPlain : Built (List Call) → Type 0
IsPlain (Built.ok calls) = routes calls ≡ []
IsPlain b = Unit

abbrev pub IsEmpty : List Call → Type 0
IsEmpty calls = routes calls ≡ []

pub append-IsEmpty : (xs ys : List Call) → IsEmpty xs → IsEmpty ys → IsEmpty (xs ++ ys)
append-IsEmpty xs ys h g = rw (routes-append xs ys, h, g)

pub bind-IsPlain {ℓ} :
    {A : Type ℓ} (m : Built A) (f : A → Built (List Call))
    → ((a : A) → m ≡ Built.ok a → IsPlain (f a))
    → IsPlain (m >>= f)
bind-IsPlain (Built.ok a) f h = h a refl
bind-IsPlain (Built.err e) f h = tt
bind-IsPlain Built.panic f h = tt

pub impersonate_os-IsEmpty : (os : Text) → IsEmpty (impersonate_os os)
unfolding impersonate_os
impersonate_os-IsEmpty os = ground arith

http2_call-IsEmpty : (name : Text) (o : Option ℕ) → IsEmpty (http2_call name o)
http2_call-IsEmpty name none = refl
http2_call-IsEmpty name (some v) = refl

apply_http2-IsEmpty : (h : Http2) → IsEmpty (apply_http2 h)
unfolding apply_http2
apply_http2-IsEmpty h = simp (routes-append, http2_call-IsEmpty)

pub http2_calls-IsEmpty : (s : Spec) → IsEmpty (http2_calls s)
unfolding http2_calls
http2_calls-IsEmpty s = settings s.http2_settings
  where
    settings :
        (o : Option Http2)
        → IsEmpty (elim o [
          | none ↦ []
          | some h ↦
              Call.http2_settings ∷ (apply_http2 h ++ when (is_nil s.browser) (Call.http2_set ∷ []))
        ])
    settings none = refl
    settings (some h) = append-IsEmpty (apply_http2 h) _ (apply_http2-IsEmpty h) (ground arith)

http3_call-IsPlain : (name : Text) (o : Option ℕ) → IsPlain (http3_call name o)
http3_call-IsPlain name none = tt
http3_call-IsPlain name (some v) = refl

http3_key-IsPlain : (h : Http3) (key : Text) → IsPlain (http3_key h key)
unfolding http3_key
http3_key-IsPlain h key =
    if-elim IsPlain (text_eq key (text "qpackmaxtablecapacity"))
      (λ _. http3_call-IsPlain (text "QpackMaxTableCapacity") h.qpack_max_table_capacity)
      (λ _.
        if-elim IsPlain (text_eq key (text "maxfieldsectionsize"))
          (λ _. http3_call-IsPlain (text "MaxFieldSectionSize") h.max_field_section_size)
          (λ _.
            if-elim IsPlain (text_eq key (text "qpackblockedstreams"))
              (λ _. http3_call-IsPlain (text "QpackBlockedStreams") h.qpack_blocked_streams)
              (λ _.
                if-elim IsPlain (text_eq key (text "enableconnectprotocol"))
                  (λ _. http3_call-IsPlain (text "EnableConnectProtocol") h.enable_connect_protocol)
                  (λ _.
                    if-elim IsPlain (text_eq key (text "settingsh3datagram"))
                      (λ _. http3_call-IsPlain (text "SettingsH3Datagram") h.settings_h3_datagram)
                      (λ _.
                        if-elim IsPlain (text_eq key (text "h3datagram"))
                          (λ _. http3_call-IsPlain (text "H3Datagram") h.h3_datagram)
                          (λ _.
                            if-elim IsPlain (text_eq key (text "enablewebtransport"))
                              (λ _.
                                http3_call-IsPlain (text "EnableWebtransport")
                                  h.enable_webtransport)
                              (λ _. ground arith)))))))

-- What is no such call of a section that ends well.
pub plain :
    {b : Built (List Call)} {calls : List Call} → IsPlain b → b ≡ Built.ok calls → IsEmpty calls
plain h e = subst IsPlain e h

http3_keys-IsPlain : (h : Http3) (keys : List Text) → IsPlain (http3_keys h keys)
unfolding http3_keys
http3_keys-IsPlain h [] = refl
http3_keys-IsPlain h (key ∷ keys) =
    let ih = http3_keys-IsPlain h keys in
    bind-IsPlain (http3_key h key) _ (λ here e.
      bind-IsPlain (http3_keys h keys) _
        (λ later f. append-IsEmpty here later (plain (http3_key-IsPlain h key) e) (plain ih f)))

pub http3_calls-IsPlain : (s : Spec) → IsPlain (http3_calls s)
unfolding http3_calls http3_settings_calls
http3_calls-IsPlain s = settings s.http3_settings
  where
    settings :
        (o : Option Http3)
        → IsPlain (elim o [ none ↦ Built.ok [] | some h ↦ http3_settings_calls h ])
    settings none = refl
    settings (some h) = bind-IsPlain (http3_keys h h.order) _ (λ values e.
        append-IsEmpty values (Call.http3_set ∷ []) (plain (http3_keys-IsPlain h h.order) e) refl)

pub ja_calls-IsPlain : (s : Spec) → IsPlain (ja_calls s)
unfolding ja_calls
ja_calls-IsPlain s = if-elim IsPlain (is_nil s.ja) (λ _. refl) (λ _. found (lookup s.ja ja_presets))
  where
    found :
        (o : Option Text)
        → IsPlain (elim o [
          | none ↦ Built.err (unknown_preset s.ja)
          | some method ↦ Built.ok (Call.ja method ∷ [])
        ])
    found none = tt
    found (some method) = refl

dns_over_tls_calls-IsPlain : (value : Text) → IsPlain (dns_over_tls_calls value)
unfolding dns_over_tls_calls
dns_over_tls_calls-IsPlain value = parts (cut b'@' value)
  where
    parts :
        (o : Option (Text × Text))
        → IsPlain (elim o [
          | none ↦ or_panic (lookup (lower value) dot_providers) >>= λ method.
              Built.ok (Call.dns_over_tls ∷ Call.dot_provider method ∷ [])
          | some (name, addrs) ↦
              Built.ok (
                Call.dns_over_tls ∷ Call.add_provider name (map trim_space (split b',' addrs)) ∷ [])
        ])
    parts none = bind-IsPlain (or_panic (lookup (lower value) dot_providers)) _ (λ method e. refl)
    parts (some (name, addrs)) = refl

pub resolver_calls-IsPlain : (s : Spec) → IsPlain (resolver_calls s)
unfolding resolver_calls
resolver_calls-IsPlain s = bind-IsPlain over_tls _ (λ calls e.
    append-IsEmpty (when (not (is_nil s.dns)) (Call.dns s.dns ∷ [])) calls (ground arith) (
      plain
        (if-elim IsPlain (is_nil s.dns_over_tls) (λ _. refl)
          (λ _. dns_over_tls_calls-IsPlain s.dns_over_tls))
        e))
  where
    over_tls : Built (List Call)
    over_tls = if is_nil s.dns_over_tls then Built.ok [] else dns_over_tls_calls s.dns_over_tls

pub when-IsEmpty : (b : Bool) (calls : List Call) → IsEmpty calls → IsEmpty (when b calls)
when-IsEmpty true calls h = h
when-IsEmpty false calls h = refl

pub skip : (xs ys : List Call) → IsEmpty xs → routes (xs ++ ys) ≡ routes ys
skip xs ys h = rw (routes-append xs ys, h)
