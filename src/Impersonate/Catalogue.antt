-- ===== src/Impersonate/Catalogue.antt =====
-- internal/impersonate/catalogue.go: the profiles that `/profiles` lists, and `Lookup`.
-- The agents, the hints and the variants of the browsers are data of the surf library, and arguments; so
-- is SHA-256, as the bytes of a text's sum. A panic is none: an agent of Chrome without a version.
pub mod Ids
pub mod Laws
mod Tests
use tls_impersonate_proxy.Base.{
  ℕ, ◌+◌, ◌/◌, ◌%◌, Bool, true, false, Option, none, some, List, [], ◌∷◌, ◌++◌, map, ltb,
  if◌then◌else◌, ◌>>=◌, get_or,
}
use tls_impersonate_proxy.Text.{Text, text, text_eq, lower, join, itoa}
use tls_impersonate_proxy.Assoc.{lookup, put}
use tls_impersonate_proxy.Directive.Parse.{take}
use tls_impersonate_proxy.Impersonate.Infer.{Family, family_map, families}
use tls_impersonate_proxy.Impersonate.Profiles.{edge_agent, edge_headers}

pub record Profile : Type 0 where
  pub id : Text
  pub browser : Text
  pub os : Text
  pub mobile : Bool
  pub fidelity : Text
  pub user_agent : Text
  pub sec_ch_ua : Text
  pub sec_ch_ua_platform : Text
  pub sec_ch_ua_mobile : Text
  pub family : Text
  pub platform : Text

pub record Catalogue : Type 0 where
  pub revision : Text
  pub profiles : List Profile
  pub by_id : List (Text × Profile)

-- `official`
abbrev pub official : List (Text × Text)
official =
    (text "chrome", text "Chrome")
    ∷ (text "firefox", text "Firefox")
    ∷ (text "edge", text "Edge")
    ∷ (text "windows", text "Windows")
    ∷ (text "macos", text "MacOS")
    ∷ (text "linux", text "Linux")
    ∷ (text "android", text "Android")
    ∷ (text "ios", text "IOS")
    ∷ []

-- What `ConfigureH2` calls of its recorder; the values of the last two are the texts of `%v`.
pub data Setting : Type 0 where
  header_table_size enable_push max_concurrent_streams initial_window_size max_frame_size :
      ℕ → Setting
  max_header_list_size no_rfc7540_priorities connection_flow initial_stream_id : ℕ → Setting
  priority_param priority_frames : Text → Setting

-- `h2recorder.add`, by its callers.
unfoldable pub setting_text : Setting → Text
setting_text (header_table_size v) = text "hts=" ++ itoa v
setting_text (enable_push v) = text "push=" ++ itoa v
setting_text (max_concurrent_streams v) = text "mcs=" ++ itoa v
setting_text (initial_window_size v) = text "iws=" ++ itoa v
setting_text (max_frame_size v) = text "mfs=" ++ itoa v
setting_text (max_header_list_size v) = text "mhls=" ++ itoa v
setting_text (no_rfc7540_priorities v) = text "norfc=" ++ itoa v
setting_text (connection_flow v) = text "flow=" ++ itoa v
setting_text (initial_stream_id v) = text "sid=" ++ itoa v
setting_text (priority_param v) = text "prio=" ++ v
setting_text (priority_frames v) = text "frames=" ++ v

-- The suites and the types of the extensions, where there is a hello; the calls of the recorder.
pub record Variant : Type 0 where
  pub hello_spec : Option (List ℕ × List Text)
  pub hello_id : Text
  pub settings : List Setting

unfoldable pub suite_texts : List ℕ → Text
suite_texts [] = []
suite_texts (suite ∷ suites) = itoa suite ++ (text "," ++ suite_texts suites)

unfoldable pub extension_texts : List Text → Text
extension_texts [] = []
extension_texts (ext ∷ exts) = ext ++ (text ";" ++ extension_texts exts)

abbrev hello_text : Variant → Text
hello_text v = elim v.hello_spec [
  | some (suites, exts) ↦ suite_texts suites ++ extension_texts exts
  | none ↦ v.hello_id
]

unfoldable pub fingerprint_digest : Variant → Text
unfolding suite_texts extension_texts setting_text
fingerprint_digest v = hello_text v ++ join (text ";") (map setting_text v.settings)

pub record Surf : Type 0 where
  pub chrome_agent : Text → Text
  pub firefox_agent : Text → Text
  pub sec_ch_ua : Text
  pub platform : Text → Text
  pub mobile : Text → Text
  pub is_mobile : Text → Bool
  pub chrome_variant : Bool → Variant
  pub firefox_variant : Bool → Variant
  pub sha256 : Text → List ℕ

-- `hex.EncodeToString`
abbrev pub hex_digit : ℕ → ℕ
hex_digit n = if ltb n 10 then b'0' + n else b'W' + n

unfoldable pub hex_of : List ℕ → Text
hex_of [] = []
hex_of (byte ∷ bytes) = hex_digit (byte / 16) ∷ hex_digit (byte % 16) ∷ hex_of bytes

pub record Hints : Type 0 where
  pub ua : Text
  pub platform : Text
  pub mobile : Text

-- `Lookup`
unfoldable pub find : Catalogue → Text → Option Profile
find c id = lookup (lower id) c.by_id

-- One round of the loop of `buildCatalogue`. What is written into the revision's sum is kept in its
-- place.
abbrev pub add_profile : Profile → Catalogue → Catalogue
add_profile p c = record {
  revision = c.revision ++ p.id;
  profiles = c.profiles ++ p ∷ [];
  by_id = put p.id p c.by_id;
}

module _ (surf : Surf) where
  open surf use {chrome_agent, firefox_agent, chrome_variant, firefox_variant, sha256}

  -- The agent, the hints and the variant of a family, which `families` has under its name.
  unfoldable pub agent_of : Text → Text → Option Text
  agent_of name os =
      if text_eq name (text "edge")
      then edge_agent chrome_agent surf.sec_ch_ua os
      else if text_eq name (text "firefox")
      then some (firefox_agent os)
      else some (chrome_agent os)

  abbrev hint_of : Text → Text → Option Text
  hint_of name os =
      if text_eq name (text "edge")
      then (do
        headers ← edge_headers chrome_agent surf.sec_ch_ua os
        some (get_or [] (lookup (text "sec-ch-ua") headers)))
      else some surf.sec_ch_ua

  unfoldable pub hints_of : Text → Text → Option Hints
  hints_of name os =
      if text_eq name (text "firefox")
      then some (record { ua = []; platform = []; mobile = [] })
      else (do
        ua ← hint_of name os
        some (record { ua = ua; platform = surf.platform os; mobile = surf.mobile os }))

  unfoldable pub variant_of : Text → Bool → Variant
  variant_of name mobile =
      if text_eq name (text "firefox") then firefox_variant mobile else chrome_variant mobile

  -- The first twelve digits of a sum, which has more.
  unfoldable pub short_sum : Text → Text
  unfolding hex_of
  short_sum t = take 12 (hex_of (sha256 t))

  abbrev identity : Text → Text → Text → Hints → Text
  identity name os agent h = join (10 ∷ []) (
      name
      ∷ os
      ∷ agent
      ∷ h.ua
      ∷ h.platform
      ∷ h.mobile
      ∷ fingerprint_digest (variant_of name (surf.is_mobile os))
      ∷ [])

  unfoldable pub profile_for : Text → Text → Option Profile
  profile_for name os = do
    agent ← agent_of name os
    h ← hints_of name os
    some (record {
      id = short_sum (identity name os agent h);
      browser = get_or [] (lookup name official);
      os = get_or [] (lookup os official);
      mobile = surf.is_mobile os;
      fidelity = if text_eq os (text "ios") then text "low" else text "high";
      user_agent = agent;
      sec_ch_ua = h.ua;
      sec_ch_ua_platform = h.platform;
      sec_ch_ua_mobile = h.mobile;
      family = name;
      platform = os;
    })

  unfoldable pub add_oses : Text → List Text → Catalogue → Option Catalogue
  add_oses name [] c = some c
  add_oses name (os ∷ oses) c = do p ← profile_for name os; add_oses name oses (add_profile p c)

  unfoldable pub add_families : List Text → Catalogue → Option Catalogue
  add_families [] c = some c
  add_families (name ∷ names) c = elim (lookup name family_map) [
    | none ↦ none
    | some f ↦ (do c' ← add_oses f.name f.oses c; add_families names c')
  ]

  unfoldable pub build_catalogue : Option Catalogue
  build_catalogue = do
    c ← add_families families (record { revision = []; profiles = []; by_id = [] })
    some (record c { revision = short_sum c.revision })
