-- ===== src/Directive/Schema.antt =====
-- internal/directive/schema.go: the coercers, tests and transforms that the schema names for its
-- fields. What zog does with them (in which order, and that it reports the first issue of a field) is
-- the library's. A value is the text that the header gives; `url.Parse` and `URL.String` are arguments.
pub mod Numbers
mod Tests
use tls_impersonate_proxy.Base.{
  ℕ, ◌+◌, ◌-◌, ◌*◌, ◌^◌, Bool, true, false, not, ◌&&◌, ◌||◌, Option, none, some, List, [], ◌∷◌,
  ◌++◌, ◌==◌, ltb, leb, length, is_nil, if◌then◌else◌, ◌>>=◌,
}
use tls_impersonate_proxy.Text.{
  Text, text, text_eq, contains_text, lower, trim_space, split, join, cut,
}
use tls_impersonate_proxy.Net.{Url, split_host_port}
use tls_impersonate_proxy.Directive.Types.{Directive}
use tls_impersonate_proxy.Directive.Names.{lowers, enum_message, proxy_schemes}
use tls_impersonate_proxy.Directive.Parse.{Outcome}

-- `jaPresets` and `dotProviders`, in their official spelling.
abbrev pub official_presets : List Text
official_presets =
    text "Android"
    ∷ text "Chrome"
    ∷ text "Chrome58"
    ∷ text "Chrome62"
    ∷ text "Chrome70"
    ∷ text "Chrome72"
    ∷ text "Chrome83"
    ∷ text "Chrome87"
    ∷ text "Chrome96"
    ∷ text "Chrome100"
    ∷ text "Chrome102"
    ∷ text "Chrome106"
    ∷ text "Chrome120"
    ∷ text "Chrome120PQ"
    ∷ text "Chrome152"
    ∷ text "Edge"
    ∷ text "Edge85"
    ∷ text "Edge106"
    ∷ text "Firefox"
    ∷ text "Firefox55"
    ∷ text "Firefox56"
    ∷ text "Firefox63"
    ∷ text "Firefox65"
    ∷ text "Firefox99"
    ∷ text "Firefox102"
    ∷ text "Firefox105"
    ∷ text "Firefox120"
    ∷ text "Firefox148"
    ∷ text "IOS"
    ∷ text "IOS11"
    ∷ text "IOS12"
    ∷ text "IOS13"
    ∷ text "IOS14"
    ∷ text "Randomized"
    ∷ text "RandomizedALPN"
    ∷ text "RandomizedNoALPN"
    ∷ text "Safari"
    ∷ []

abbrev pub official_providers : List Text
official_providers =
    text "AdGuard"
    ∷ text "Google"
    ∷ text "Cloudflare"
    ∷ text "Quad9"
    ∷ text "Switch"
    ∷ text "CIRAShield"
    ∷ text "Ali"
    ∷ text "Quad101"
    ∷ text "SB"
    ∷ text "Forge"
    ∷ text "LibreDNS"
    ∷ []

-- `lowercase`
unfoldable pub lowercase : Text → Text
lowercase s = lower (trim_space s)

-- The test of `enum.schema`, behind its transform.
unfoldable pub enum_allows : List Text → Text → Bool
enum_allows official s = contains_text (lowers official) s

unfoldable pub is_digit : ℕ → Bool
is_digit c = leb b'0' c && leb c b'9'

-- `strconv.ParseUint(s, 10, bits)`, with `limit` for 2 ^ bits; `none` is its error.
unfoldable pub digits_value : ℕ → Text → Option ℕ
digits_value n [] = some n
digits_value n (c ∷ s) =
    let rest = digits_value (n * 10 + (c - b'0')) s in if is_digit c then rest else none

abbrev pub below : ℕ → ℕ → Option ℕ
below limit n = if ltb n limit then some n else none

unfoldable pub parse_uint : ℕ → Text → Option ℕ
unfolding digits_value
parse_uint limit s = if is_nil s then none else digits_value 0 s >>= below limit

abbrev pub reported {ℓ} : {A : Type ℓ} → Text → Option A → Outcome A
reported message none = Outcome.err message
reported message (some a) = Outcome.ok a

-- The coercers of `uint32s` and `uint64s`.
unfoldable pub uint32_of : Text → Outcome ℕ
unfolding parse_uint
uint32_of s =
    reported (text "must be an unsigned 32-bit integer") (parse_uint (2 ^ 32) (trim_space s))

unfoldable pub uint64_of : Text → Outcome ℕ
unfolding parse_uint
uint64_of s =
    reported (text "must be an unsigned 64-bit integer") (parse_uint (2 ^ 64) (trim_space s))

-- `strconv.ParseBool`
abbrev true_texts : List Text
true_texts = text "1" ∷ text "t" ∷ text "T" ∷ text "true" ∷ text "TRUE" ∷ text "True" ∷ []

abbrev false_texts : List Text
false_texts = text "0" ∷ text "f" ∷ text "F" ∷ text "false" ∷ text "FALSE" ∷ text "False" ∷ []

unfoldable pub parse_bool : Text → Option Bool
parse_bool s =
    if contains_text true_texts s
    then some true
    else if contains_text false_texts s
    then some false
    else none

-- The coercer of `boolean`.
unfoldable pub bool_of : Text → Outcome Bool
unfolding parse_bool
bool_of s = reported (text "must be true or false") (parse_bool (trim_space s))

-- The coercer of `duration`, with `time.ParseDuration` as an argument that gives nanoseconds or none.
unfoldable pub duration_of {ℓ} : {D : Type ℓ} → (Text → Option D) → Text → Outcome D
duration_of parse_duration s =
    reported (text "must be a duration such as 15s or 500ms") (parse_duration (trim_space s))

-- The test of `hostPort`.
unfoldable pub is_host_port : Text → Bool
is_host_port s = elim (split_host_port s) [ none ↦ false | some _ ↦ true ]

-- The test and the transform of `proxyURL`.
unfoldable pub is_proxy_url : (Text → Option Url) → Text → Bool
is_proxy_url url_parse s = elim (url_parse s) [
  | none ↦ false
  | some u ↦ not (is_nil u.host) && contains_text proxy_schemes (lower u.scheme)
]

unfoldable pub normal_proxy : (Text → Option Url) → (Url → Text) → Text → Text
normal_proxy url_parse url_string s = elim (url_parse s) [
  | none ↦ s
  | some u ↦ url_string (record u { scheme = lower u.scheme; host = lower u.host })
]

-- The loop of `dnsOverTls` over the addresses.
unfoldable pub all_host_ports : List Text → Bool
unfolding is_host_port
all_host_ports [] = true
all_host_ports (addr ∷ addrs) = is_host_port (trim_space addr) && all_host_ports addrs

-- The test of `dnsOverTls`.
unfoldable pub is_dns_over_tls : Text → Bool
is_dns_over_tls s = elim (cut b'@' s) [
  | none ↦ contains_text (lowers official_providers) (lower s)
  | some (name, addrs) ↦ if is_nil name then false else all_host_ports (split b',' addrs)
]

unfoldable pub dns_over_tls_message : Text
dns_over_tls_message = enum_message official_providers ++ text " or servername@host:port,host:port"

-- The test of `forceHttp`.
unfoldable pub is_force_http : Text → Bool
is_force_http s = contains_text (text "1" ∷ text "2" ∷ text "3" ∷ []) s

-- `profileID`
abbrev pub is_hex : ℕ → Bool
is_hex c = (leb b'0' c && leb c b'9') || (leb b'a' c && leb c b'f')

abbrev pub all_hex : Text → Bool
all_hex [] = true
all_hex (c ∷ s) = is_hex c && all_hex s

unfoldable pub is_profile_id : Text → Bool
is_profile_id s = length s == 12 && all_hex s

-- The test of the whole schema.
unfoldable pub is_exclusive : Directive → Bool
is_exclusive d = is_nil d.profile || (is_nil d.browser && is_nil d.os && not d.match)
