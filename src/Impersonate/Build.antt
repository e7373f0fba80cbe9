-- ===== src/Impersonate/Build.antt =====
-- internal/impersonate/build.go: the calls of the surf library's builder that a spec gives.
-- A builder is the list of the calls made on it, in their order; what surf does with them is an
-- argument. A method of surf is called by its name. An index out of range, a nil pointer that is
-- read and a nil function that is called are panics.
pub mod Presets
pub mod Surf
pub mod Ready
pub mod Plain
pub mod Route
pub mod Request
mod Tests
use tls_impersonate_proxy.Base.{
  ℕ, Bool, true, false, not, ◌&&◌, ◌||◌, Option, none, some, List, [], ◌∷◌, ◌++◌, ◌≡◌, refl, ◌⊎◌,
  inl, inr, map, is_nil, if◌then◌else◌,
}
use tls_impersonate_proxy.Text.{Text, text, text_eq, contains_text, lower, trim_space, split, cut}
use tls_impersonate_proxy.Assoc.{lookup}
use tls_impersonate_proxy.Net.{Url}
use tls_impersonate_proxy.Directive.Types.{Spec, Http2, Http3}
use tls_impersonate_proxy.Impersonate.Infer.{Family, family_map}
use tls_impersonate_proxy.Impersonate.Profiles.{edge_headers}
use tls_impersonate_proxy.Impersonate.Build.Presets.{ja_presets, dot_providers}

-- `Options`; a timeout of 0 or less is none.
pub record Options : Type 0 where
  pub verify_certificates : Bool
  pub response_header_timeout : ℕ

-- What `With(hop, 10)` registers: the proxy's URL and `InsecureSkipVerify`.
pub record Hop : Type 0 where
  pub url : Url
  pub insecure : Bool

pub data Call : Type 0 where
  impersonate : Call
  im_os : Text → Call
  im_base : Text → Call
  override : List (Text × Text) → Call
  ja : Text → Call
  http2_settings : Call
  http2_value : Text → ℕ → Call
  http2_set : Call
  http3_settings : Call
  http3_value : Text → ℕ → Call
  http3_grease : Call
  http3_set : Call
  proxy : Text → Call
  with_hop : Hop → Call
  dns : Text → Call
  dns_over_tls : Call
  dot_provider : Text → Call
  add_provider : Text → List Text → Call
  interface_addr : Text → Call
  secure_tls : Call
  disable_keep_alive : Call
  h2c : Call
  force_http : ℕ → Call
  disable_compression : Call
  header_timeout : ℕ → Call
  finalize : Call

-- The errors of `Build`, with what their texts name.
pub data BuildError : Type 0 where
  unknown_browser : Text → BuildError
  not_available : Text → Text → BuildError
  unknown_preset : Text → BuildError
  http3_proxy : BuildError
  bad_url : BuildError
  surf_failed : Text → BuildError

pub data Built {ℓ} (A : Type ℓ) : Type ℓ where
  ok : A → Built A
  err : BuildError → Built A
  panic : Built A

infixl 5 ◌>>=◌
abbrev pub ◌>>=◌ {ℓ κ} : {A : Type ℓ} {B : Type κ} → Built A → (A → Built B) → Built B
Built.ok a >>= f = f a
Built.err e >>= f = Built.err e
Built.panic >>= f = Built.panic

pub Built-cases {ℓ} :
    {A : Type ℓ} (b : Built A)
    → ((a : A) × (b ≡ Built.ok a)) ⊎ (((e : BuildError) × (b ≡ Built.err e)) ⊎ (b ≡ Built.panic))
Built-cases (Built.ok a) = inl (a, refl)
Built-cases (Built.err e) = inr (inl (e, refl))
Built-cases Built.panic = inr (inr refl)

pub >>=-eq-ok {ℓ κ} :
    {A : Type ℓ} {B : Type κ} (m : Built A) (f : A → Built B) {b : B}
    → (m >>= f) ≡ Built.ok b
    → (a : A) × (m ≡ Built.ok a) × (f a ≡ Built.ok b)
>>=-eq-ok (Built.ok a) f h = (a, refl, h)
>>=-eq-ok (Built.err e) f h = cc
>>=-eq-ok Built.panic f h = cc

abbrev pub or_panic {ℓ} : {A : Type ℓ} → Option A → Built A
or_panic none = Built.panic
or_panic (some a) = Built.ok a

abbrev pub when : Bool → List Call → List Call
when b calls = if b then calls else []

-- `impersonateOs`: no call for any other name.
unfoldable pub impersonate_os : Text → List Call
impersonate_os os =
    if text_eq os (text "windows")
    then im_os (text "Windows") ∷ []
    else if text_eq os (text "macos")
    then im_os (text "MacOS") ∷ []
    else if text_eq os (text "linux")
    then im_os (text "Linux") ∷ []
    else if text_eq os (text "android")
    then im_os (text "Android") ∷ []
    else if text_eq os (text "ios")
    then im_os (text "IOS") ∷ []
    else []

-- The field `base` of the families.
unfoldable pub base_of : Text → Text
base_of name = if text_eq name (text "firefox") then text "Firefox" else text "Chrome"

-- `applyHttp2`
abbrev http2_call : Text → Option ℕ → List Call
http2_call name none = []
http2_call name (some v) = http2_value name v ∷ []

unfoldable pub apply_http2 : Http2 → List Call
apply_http2 s =
    http2_call (text "HeaderTableSize") s.header_table_size
    ++ (http2_call (text "EnablePush") s.enable_push
        ++ (http2_call (text "MaxConcurrentStreams") s.max_concurrent_streams
            ++ (http2_call (text "InitialWindowSize") s.initial_window_size
                ++ (http2_call (text "MaxFrameSize") s.max_frame_size
                    ++ (http2_call (text "MaxHeaderListSize") s.max_header_list_size
                        ++ (http2_call (text "NoRFC7540Priorities") s.no_rfc7540_priorities
                            ++ (http2_call (text "ConnectionFlow") s.connection_flow
                                ++ http2_call (text "InitialStreamID") s.initial_stream_id)))))))

-- One case of the switch of `http3Settings`.
abbrev http3_call : Text → Option ℕ → Built (List Call)
http3_call name none = Built.panic
http3_call name (some v) = Built.ok (http3_value name v ∷ [])

unfoldable pub http3_key : Http3 → Text → Built (List Call)
http3_key s key =
    if text_eq key (text "qpackmaxtablecapacity")
    then http3_call (text "QpackMaxTableCapacity") s.qpack_max_table_capacity
    else if text_eq key (text "maxfieldsectionsize")
    then http3_call (text "MaxFieldSectionSize") s.max_field_section_size
    else if text_eq key (text "qpackblockedstreams")
    then http3_call (text "QpackBlockedStreams") s.qpack_blocked_streams
    else if text_eq key (text "enableconnectprotocol")
    then http3_call (text "EnableConnectProtocol") s.enable_connect_protocol
    else if text_eq key (text "settingsh3datagram")
    then http3_call (text "SettingsH3Datagram") s.settings_h3_datagram
    else if text_eq key (text "h3datagram")
    then http3_call (text "H3Datagram") s.h3_datagram
    else if text_eq key (text "enablewebtransport")
    then http3_call (text "EnableWebtransport") s.enable_webtransport
    else if text_eq key (text "grease")
    then Built.ok (when s.grease (http3_grease ∷ []))
    else Built.ok []

-- The loop of `http3Settings` over the order.
unfoldable pub http3_keys : Http3 → List Text → Built (List Call)
http3_keys s [] = Built.ok []
http3_keys s (key ∷ keys) =
    let rest = http3_keys s keys in
    do here ← http3_key s key; later ← rest; Built.ok (here ++ later)

unfoldable pub http3_settings_calls : Http3 → Built (List Call)
http3_settings_calls s = do
  values ← http3_keys s s.order
  Built.ok (http3_settings ∷ (values ++ http3_set ∷ []))

-- `dnsOverTls`
unfoldable pub dns_over_tls_calls : Text → Built (List Call)
dns_over_tls_calls value = elim (cut b'@' value) [
  | none ↦ do
    method ← or_panic (lookup (lower value) dot_providers)
    Built.ok (dns_over_tls ∷ dot_provider method ∷ [])
  | some (name, addrs) ↦
      Built.ok (dns_over_tls ∷ add_provider name (map trim_space (split b',' addrs)) ∷ [])
]

-- The sections of `Build` up to the HTTP/3 settings and those behind the proxy.
unfoldable pub ja_calls : Spec → Built (List Call)
ja_calls s = if is_nil s.ja then Built.ok [] else (elim (lookup s.ja ja_presets) [
  | none ↦ Built.err (unknown_preset s.ja)
  | some method ↦ Built.ok (Call.ja method ∷ [])
])

-- Behind an impersonated browser the settings are filled in and `Set` is not called.
unfoldable pub http2_calls : Spec → List Call
unfolding apply_http2
http2_calls s = elim s.http2_settings [
  | none ↦ []
  | some h ↦ http2_settings ∷ (apply_http2 h ++ when (is_nil s.browser) (http2_set ∷ []))
]

unfoldable pub http3_calls : Spec → Built (List Call)
http3_calls s = elim s.http3_settings [ none ↦ Built.ok [] | some h ↦ http3_settings_calls h ]

unfoldable pub resolver_calls : Spec → Built (List Call)
resolver_calls s = do
  over_tls ← (if is_nil s.dns_over_tls then Built.ok [] else dns_over_tls_calls s.dns_over_tls)
  Built.ok (when (not (is_nil s.dns)) (dns s.dns ∷ []) ++ over_tls)

-- `switch s.ForceHttp`
unfoldable pub force_calls : Text → List Call
force_calls version =
    if text_eq version (text "1")
    then force_http 1 ∷ []
    else if text_eq version (text "2")
    then force_http 2 ∷ []
    else if text_eq version (text "3")
    then force_http 3 ∷ []
    else []

unfoldable pub transport_calls : Spec → Options → List Call
unfolding force_calls
transport_calls s o =
    when (not (is_nil s.interface_addr)) (interface_addr s.interface_addr ∷ [])
    ++ (when (s.secure_tls || o.verify_certificates) (secure_tls ∷ [])
        ++ (when s.disable_keep_alive (disable_keep_alive ∷ [])
            ++ (when s.h2c (h2c ∷ [])
                ++ (force_calls s.force_http
                    ++ (disable_compression
                        ∷ header_timeout o.response_header_timeout
                        ∷ finalize
                        ∷ [])))))

-- What the package calls and does not implement: `url.Parse`, `Spec.Key`'s JSON, surf's data on
-- Chrome, and surf's `Build` with the text of its error.
pub record Library : Type 0 where
  pub url_parse : Text → Option Url
  pub spec_key : Spec → Text
  pub agent : Text → Text
  pub sec_ch_ua : Text
  pub surf_error : List Call → Option Text

pub record BuiltClient : Type 0 where
  pub key : Text
  pub calls : List Call

module _ (lib : Library) where
  open lib use {url_parse, spec_key, agent, sec_ch_ua, surf_error}

  -- The overrides of the family, which only Edge has.
  unfoldable pub family_headers : Text → Text → Built (List Call)
  family_headers name os =
      if text_eq name (text "edge")
      then (do
        overrides ← or_panic (edge_headers agent sec_ch_ua os)
        Built.ok (override overrides ∷ []))
      else Built.ok []

  unfoldable pub browser_calls : Spec → Built (List Call)
  browser_calls s = if is_nil s.browser then Built.ok [] else (elim (lookup s.browser family_map) [
    | none ↦ Built.err (unknown_browser s.browser)
    | some f ↦
        if not (is_nil s.os) && not (contains_text f.oses s.os)
        then Built.err (not_available s.browser s.os)
        else (do
          headers ← family_headers f.name s.os
          Built.ok (impersonate ∷ (impersonate_os s.os ++ (im_base (base_of f.name) ∷ headers))))
  ])

  unfoldable pub hop_dialer : Spec → Options → Built (Option Hop)
  hop_dialer s o =
      if is_nil s.proxy
      then Built.ok none
      else if text_eq s.force_http (text "3")
      then Built.err http3_proxy
      else (elim (url_parse s.proxy) [
        | none ↦ Built.err bad_url
        | some u ↦
            if not (text_eq u.scheme (text "http")) && not (text_eq u.scheme (text "https"))
            then Built.ok none
            else Built.ok (some (record { url = u; insecure = not o.verify_certificates }))
      ])

  abbrev pub proxy_calls : Spec → Option Hop → List Call
  proxy_calls s none = proxy s.proxy ∷ []
  proxy_calls s (some hop) = proxy [] ∷ with_hop hop ∷ []

  abbrev pub finished : Spec → List Call → Option Text → Built BuiltClient
  finished s calls none = Built.ok (record { key = spec_key s; calls = calls })
  finished s calls (some message) = Built.err (surf_failed message)

  -- The calls of `Build`, or the error or panic that comes first.
  unfoldable pub calls_of : Spec → Options → Built (List Call)
  calls_of s o = do
    browser ← browser_calls s
    preset ← ja_calls s
    http3 ← http3_calls s
    hop ← hop_dialer s o
    resolver ← resolver_calls s
    Built.ok (
        browser
        ++ (preset
            ++ (http2_calls s
                ++ (http3 ++ (proxy_calls s hop ++ (resolver ++ transport_calls s o))))))

  unfoldable pub build : Spec → Options → Built BuiltClient
  build s o = do calls ← calls_of s o; finished s calls (surf_error calls)
