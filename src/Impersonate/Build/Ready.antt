-- ===== src/Impersonate/Build/Ready.antt =====
-- internal/impersonate/build.go: which specs `Build` turns into a client, and that it does not panic.
use tls_impersonate_proxy.Base.{
  ◌≡◌, refl, ◌≢◌, ◌⊎◌, inl, inr, Bool, true, false, Option, none, some, List, [], ◌∷◌, ◌++◌, arith,
  not, ◌&&◌, is_nil, is_some, if◌then◌else◌, if-elim, ◌∙◌, Bool-cases, Option-cases, List-cases, ap,
}
use tls_impersonate_proxy.Base
use tls_impersonate_proxy.Text.{
  Text, text, text_eq, text_eq_iff, text_eq_refl, contains_text, lower, cut, In,
}
use tls_impersonate_proxy.Assoc.{lookup, has_key}
use tls_impersonate_proxy.Net.{Url}
use tls_impersonate_proxy.Directive.Types.{Spec, Http3}
use tls_impersonate_proxy.Directive.Names.{lowers}
use tls_impersonate_proxy.Directive.Schema.{official_presets, is_dns_over_tls}
use tls_impersonate_proxy.Impersonate.Infer.{Family, family_map}
use tls_impersonate_proxy.Impersonate.Profiles.{edge_headers, edge_agent, chrome_major}
use tls_impersonate_proxy.Impersonate.Build.Presets.{
  ja_presets, dot_providers, has_key-presets, has_key-providers,
}
use tls_impersonate_proxy.Impersonate.Build.{
  Options, Hop, Call, Built, ◌>>=◌, Library, BuiltClient, http3_key, http3_call, http3_keys,
  http3_settings_calls, dns_over_tls_calls, ja_calls, http3_calls, resolver_calls, family_headers,
  browser_calls, hop_dialer, calls_of, build, or_panic, finished, http3_proxy, bad_url, surf_failed,
}

-- The pointers of `Http3`, by the names that the schema gives them.
abbrev pub pointers : Http3 → List (Text × Option Base.ℕ)
pointers h =
    (text "qpackmaxtablecapacity", h.qpack_max_table_capacity)
    ∷ (text "maxfieldsectionsize", h.max_field_section_size)
    ∷ (text "qpackblockedstreams", h.qpack_blocked_streams)
    ∷ (text "enableconnectprotocol", h.enable_connect_protocol)
    ∷ (text "settingsh3datagram", h.settings_h3_datagram)
    ∷ (text "h3datagram", h.h3_datagram)
    ∷ (text "enablewebtransport", h.enable_webtransport)
    ∷ []

-- If the key names a pointer, that is not nil.
abbrev pub IsGiven : Http3 → Text → Type 0
IsGiven h key = lookup key (pointers h) ≢ some none

-- The browser has a family, and the OS is one of the family's.
abbrev pub IsPair : Text → Text → Type 0
IsPair browser os = (f : Family) × (lookup browser family_map ≡ some f) × ((os ≡ []) ⊎ In f.oses os)

pub record IsReady (s : Spec) : Type 0 where
  pub pair : (s.browser ≡ []) ⊎ IsPair s.browser s.os
  pub preset : (s.ja ≡ []) ⊎ In (lowers official_presets) s.ja
  pub pointed :
      (h : Http3) → s.http3_settings ≡ some h → (key : Text) → In h.order key → IsGiven h key
  pub resolver : (s.dns_over_tls ≡ []) ⊎ (is_dns_over_tls s.dns_over_tls ≡ true)

-- Every agent of Chrome names the version that Edge's agent takes from it.
abbrev pub HasMajor : Library → Type 0
HasMajor lib = (os : Text) → (m : Text) × (chrome_major (lib.agent os) ≡ some m)

abbrev IsOk {ℓ} : {A : Type ℓ} → Built A → Type ℓ
IsOk {A = A} b = (a : A) × (b ≡ Built.ok a)

if-IsOk {ℓ} :
    {A : Type ℓ} (c : Bool) {x y : Built A}
    → (c ≡ true → IsOk x)
    → (c ≡ false → IsOk y)
    → IsOk (if c then x else y)
if-IsOk true f g = f refl
if-IsOk false f g = g refl

bind-IsOk {ℓ κ} :
    {A : Type ℓ} {B : Type κ} (m : Built A) (f : A → Built B)
    → IsOk m
    → ((a : A) → IsOk (f a))
    → IsOk (m >>= f)
bind-IsOk m f (a, e) g = rw e (g a)

http3_call-IsOk : (name : Text) (o : Option Base.ℕ) → o ≢ none → IsOk (http3_call name o)
http3_call-IsOk name none n = absurd (n refl)
http3_call-IsOk name (some v) n = (Call.http3_value name v ∷ [], refl)

http3_key-IsOk : (h : Http3) (key : Text) → IsGiven h key → IsOk (http3_key h key)
unfolding http3_key lookup text_eq
http3_key-IsOk h key set =
    if-IsOk _ (λ e. pointed _ (text "qpackmaxtablecapacity") e refl)
      (λ _.
        if-IsOk _ (λ e. pointed _ (text "maxfieldsectionsize") e refl)
          (λ _.
            if-IsOk _ (λ e. pointed _ (text "qpackblockedstreams") e refl)
              (λ _.
                if-IsOk _ (λ e. pointed _ (text "enableconnectprotocol") e refl)
                  (λ _.
                    if-IsOk _ (λ e. pointed _ (text "settingsh3datagram") e refl)
                      (λ _.
                        if-IsOk _ (λ e. pointed _ (text "h3datagram") e refl)
                          (λ _.
                            if-IsOk _ (λ e. pointed _ (text "enablewebtransport") e refl)
                              (λ _.
                                if-IsOk (text_eq key (text "grease")) (λ _. (_, refl))
                                  (λ _. ([], refl)))))))))
  where
    pointed :
        (name : Text) {o : Option Base.ℕ} (t : Text)
        → text_eq key t ≡ true
        → lookup t (pointers h) ≡ some o
        → IsOk (http3_call name o)
    pointed name {o} t e f = http3_call-IsOk name o (λ q.
        set (ap (λ (k : Text). lookup k (pointers h)) ((text_eq_iff key t).0 e) ∙ (f ∙ ap some q)))

http3_keys-IsOk :
    (h : Http3) (keys : List Text)
    → ((key : Text) → In keys key → IsGiven h key)
    → IsOk (http3_keys h keys)
unfolding http3_keys contains_text
http3_keys-IsOk h [] set = ([], refl)
http3_keys-IsOk h (key ∷ keys) set =
    let (here, e) = http3_key-IsOk h key (set key (ground (arith, text_eq_refl key))) in
    let (later, f) = http3_keys-IsOk h keys (λ k i. set k (ground arith)) in
    (here ++ later, rw (e, f))

http3_calls-IsOk : (s : Spec) → IsReady s → IsOk (http3_calls s)
unfolding http3_calls http3_settings_calls
http3_calls-IsOk s r = elim (Option-cases s.http3_settings) [
  | inl e ↦ rw e ([], refl)
  | inr (h, e) ↦
      rw e (bind-IsOk _ _ (http3_keys-IsOk h h.order (r.pointed h e)) (λ values. (_, refl)))
]

has_key-lookup :
    {V : Type 0} (k : Text) (m : List (Text × V))
    → has_key k m ≡ true
    → (v : V) × (lookup k m ≡ some v)
has_key-lookup k m h = elim (Option-cases (lookup k m)) [
  | inl e ↦ absurd (ground arith)
  | inr found ↦ found
]

ja_calls-IsOk : (s : Spec) → IsReady s → IsOk (ja_calls s)
unfolding ja_calls
ja_calls-IsOk s r = elim r.preset [
  | inl e ↦ ([], ground arith)
  | inr i ↦
      let (m, e) = has_key-lookup s.ja ja_presets (has_key-presets s.ja i) in
      elim (Bool-cases (is_nil s.ja)) [
        | inl nothing ↦ ([], rw nothing)
        | inr named ↦ (Call.ja m ∷ [], rw (named, e))
      ]
]

dns_over_tls_calls-IsOk :
    (value : Text) → is_dns_over_tls value ≡ true → IsOk (dns_over_tls_calls value)
unfolding dns_over_tls_calls is_dns_over_tls
dns_over_tls_calls-IsOk value h = elim (Option-cases (cut b'@' value)) [
  | inr ((name, addrs), e) ↦ rw (e, dns_over_tls_calls) (_, refl)
  | inl e ↦
      let (m, f) =
        has_key-lookup (lower value) dot_providers
          (has_key-providers (lower value) (ground arith)) in
      rw (e, f, dns_over_tls_calls) (_, refl)
]

resolver_calls-IsOk : (s : Spec) → IsReady s → IsOk (resolver_calls s)
unfolding resolver_calls
resolver_calls-IsOk s r = bind-IsOk _ _ over_tls (λ calls. (_, refl))
  where
    over_tls :
        IsOk (if is_nil s.dns_over_tls then Built.ok [] else dns_over_tls_calls s.dns_over_tls)
    over_tls = elim r.resolver [
      | inl e ↦ rw e ([], refl)
      | inr h ↦ if-IsOk _ (λ _. ([], refl)) (λ _. dns_over_tls_calls-IsOk s.dns_over_tls h)
    ]

module _ (lib : Library) where
  edge_headers-IsOk :
      HasMajor lib → (os : Text) → IsOk (or_panic (edge_headers lib.agent lib.sec_ch_ua os))
  unfolding edge_headers edge_agent
  edge_headers-IsOk major os = let (m, e) = major os in rw (e, edge_headers) (_, refl)

  family_headers-IsOk : HasMajor lib → (name os : Text) → IsOk (family_headers lib name os)
  unfolding family_headers
  family_headers-IsOk major name os =
      if-IsOk (text_eq name (text "edge"))
        (λ _. bind-IsOk _ _ (edge_headers-IsOk major os) (λ overrides. (_, refl))) (λ _. ([], refl))

  browser_calls-IsOk : HasMajor lib → (s : Spec) → IsReady s → IsOk (browser_calls lib s)
  unfolding browser_calls
  browser_calls-IsOk major s r = elim r.pair [
    | inl e ↦ rw e ([], refl)
    | inr (f, e, available) ↦ elim (Bool-cases (is_nil s.browser)) [
      | inl empty ↦ rw empty ([], refl)
      | inr named ↦
          rw (named, e)
            (if-IsOk _ (λ refused. absurd (unavailable f available refused))
              (λ _. bind-IsOk _ _ (family_headers-IsOk major f.name s.os) (λ headers. (_, refl))))
    ]
  ]
    where
      unavailable :
          (f : Family)
          → (s.os ≡ []) ⊎ In f.oses s.os
          → (not (is_nil s.os) && not (contains_text f.oses s.os)) ≡ true
          → ⊥
      unavailable f (inl e) h = absurd (ground arith)
      unavailable f (inr i) h = ground arith

  -- What `Build` makes of a spec: a client, or one of three errors.
  pub data Outcome (s : Spec) (o : Options) : Built BuiltClient → Type 0 where
    client : (c : BuiltClient) → c.key ≡ lib.spec_key s → Outcome s o (Built.ok c)
    proxy_over_http3 : s.proxy ≢ [] → s.force_http ≡ text "3" → Outcome s o (Built.err http3_proxy)
    proxy_unread : s.proxy ≢ [] → lib.url_parse s.proxy ≡ none → Outcome s o (Built.err bad_url)
    surf_refused : (message : Text) → Outcome s o (Built.err (surf_failed message))

  finished-Outcome :
      (s : Spec) (o : Options) (calls : List Call) (e : Option Text)
      → Outcome s o (finished lib s calls e)
  finished-Outcome s o calls none = client _ refl
  finished-Outcome s o calls (some message) = surf_refused message

  hop_dialer-Outcome :
      (s : Spec) (o : Options) (f : Option Hop → Built (List Call))
      (g : List Call → Built BuiltClient)
      → ((hop : Option Hop) → Outcome s o (f hop >>= g))
      → Outcome s o ((hop_dialer lib s o >>= f) >>= g)
  unfolding hop_dialer
  hop_dialer-Outcome s o f g k =
      if-elim P (is_nil s.proxy) (λ _. k none)
        (λ some_proxy.
          let given : s.proxy ≢ [] = λ e. ground arith in
          if-elim P (text_eq s.force_http (text "3"))
            (λ three. proxy_over_http3 given ((text_eq_iff s.force_http (text "3")).0 three))
            (λ _. parsed given (lib.url_parse s.proxy) refl))
    where
      P : Built (Option Hop) → Type 0
      P m = Outcome s o ((m >>= f) >>= g)

      parsed :
          s.proxy ≢ []
          → (u : Option Url) → lib.url_parse s.proxy ≡ u
          → P (elim u [
            | none ↦ Built.err bad_url
            | some u ↦
                if not (text_eq u.scheme (text "http")) && not (text_eq u.scheme (text "https"))
                then Built.ok none
                else Built.ok (some (record { url = u; insecure = not o.verify_certificates }))
          ])
      parsed given none e = proxy_unread given e
      parsed given (some u) e =
          if-elim P (not (text_eq u.scheme (text "http")) && not (text_eq u.scheme (text "https")))
            (λ _. k none) (λ _. k (some _))

  -- With agents of Chrome that name their version, a spec with an available pair, a known preset,
  -- HTTP/3 settings that are set wherever their order names them, and a resolver that the schema
  -- admits gives a client with the spec's key, or one of three errors: a proxy over HTTP/3, a proxy
  -- that is no URL, or surf's own. `Build` does not panic on it.
  pub build-Outcome :
      HasMajor lib → (s : Spec) (o : Options) → IsReady s → Outcome s o (build lib s o)
  unfolding build calls_of
  build-Outcome major s o r =
      let (browser, e) = browser_calls-IsOk major s r in
      let (preset, f) = ja_calls-IsOk s r in
      let (http3, g) = http3_calls-IsOk s r in
      let (resolver, h) = resolver_calls-IsOk s r in
      rw (e, f, g)
        (hop_dialer-Outcome s o _ _ (λ hop. rw h (finished-Outcome s o _ (lib.surf_error _))))
