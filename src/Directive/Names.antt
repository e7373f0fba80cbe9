-- ===== src/Directive/Names.antt =====
-- internal/directive/schema.go: the enums, the names that `init` registers, and their official
-- spelling; internal/directive/parse.go: the shapes of the values.
use tls_impersonate_proxy.Base.{Bool, List, [], ◌∷◌, ◌++◌, if◌then◌else◌, get_or}
use tls_impersonate_proxy.Text.{Text, text, text_eq, contains_text, lower, join}
use tls_impersonate_proxy.Assoc.{lookup}

-- `enum`, with the spellings in lower case beside the official ones.
abbrev pub lowers : List Text → List Text
lowers [] = []
lowers (t ∷ ts) = lower t ∷ lowers ts

abbrev pub official_browsers : List Text
official_browsers = text "Chrome" ∷ text "Firefox" ∷ text "Edge" ∷ text "Random" ∷ []

abbrev pub official_oses : List Text
official_oses =
    text "Windows" ∷ text "MacOS" ∷ text "Linux" ∷ text "Android" ∷ text "IOS" ∷ text "Random" ∷ []

abbrev pub concrete_oses : List Text
concrete_oses = text "windows" ∷ text "macos" ∷ text "linux" ∷ text "android" ∷ text "ios" ∷ []

abbrev pub proxy_schemes : List Text
proxy_schemes =
    text "http"
    ∷ text "https"
    ∷ text "socks4"
    ∷ text "socks4a"
    ∷ text "socks5"
    ∷ text "socks5h"
    ∷ []

-- `enum.message`
unfoldable pub enum_message : List Text → Text
enum_message official = text "must be one of " ++ join (text ", ") official

abbrev pub directive_names : List Text
directive_names =
    text "Browser"
    ∷ text "Os"
    ∷ text "Ja"
    ∷ text "Http2Settings"
    ∷ text "Http3Settings"
    ∷ text "ForceHttp"
    ∷ text "Proxy"
    ∷ text "Timeout"
    ∷ text "Dns"
    ∷ text "DnsOverTls"
    ∷ text "InterfaceAddr"
    ∷ text "SecureTls"
    ∷ text "DisableKeepAlive"
    ∷ text "H2c"
    ∷ text "Scheme"
    ∷ text "Keep"
    ∷ text "Match"
    ∷ text "Profile"
    ∷ []

abbrev pub http2_names : List Text
http2_names =
    text "HeaderTableSize"
    ∷ text "EnablePush"
    ∷ text "MaxConcurrentStreams"
    ∷ text "InitialWindowSize"
    ∷ text "MaxFrameSize"
    ∷ text "MaxHeaderListSize"
    ∷ text "NoRFC7540Priorities"
    ∷ text "ConnectionFlow"
    ∷ text "InitialStreamID"
    ∷ []

abbrev pub http3_names : List Text
http3_names =
    text "QpackMaxTableCapacity"
    ∷ text "MaxFieldSectionSize"
    ∷ text "QpackBlockedStreams"
    ∷ text "EnableConnectProtocol"
    ∷ text "SettingsH3Datagram"
    ∷ text "H3Datagram"
    ∷ text "EnableWebtransport"
    ∷ text "Grease"
    ∷ []

-- `register`: the set of the keys, and what it adds to `official`.
unfoldable pub register : List Text → List (Text × Text)
register [] = []
register (name ∷ names) = (lower name, name) ∷ register names

unfoldable pub official : List (Text × Text)
unfolding register
official = register directive_names ++ (register http2_names ++ register http3_names)

unfoldable pub is_known : Text → Bool
is_known key = contains_text (lowers directive_names) key

unfoldable pub official_name : Text → Text
unfolding official lookup
official_name key = get_or key (lookup key official)

pub data Shape : Type 0 where
  scalar list kv : Shape

-- `shapes[key]`, which is the scalar shape for a key that the map lacks.
unfoldable pub shape_of : Text → Shape
shape_of key =
    if text_eq key (text "browser")
    then Shape.list
    else if text_eq key (text "os")
    then Shape.list
    else if text_eq key (text "keep")
    then Shape.list
    else if text_eq key (text "http2settings")
    then Shape.kv
    else if text_eq key (text "http3settings")
    then Shape.kv
    else Shape.scalar

-- `kvKeys[key]`
unfoldable pub kv_keys : Text → List Text
kv_keys key =
    if text_eq key (text "http2settings")
    then lowers http2_names
    else if text_eq key (text "http3settings")
    then lowers http3_names
    else []
