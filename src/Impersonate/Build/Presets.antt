-- ===== src/Impersonate/Build/Presets.antt =====
-- internal/impersonate/build.go: the tables from the names of presets and providers to the methods of
-- surf, and that the directives' schema admits exactly their names.
use tls_impersonate_proxy.Base.{◌≡◌, refl, Bool, true, ◌&&◌, List, [], ◌∷◌, arith, none, ◌↔◌}
use tls_impersonate_proxy.Text.{Text, text, text_eq, text_eq_iff, contains_text, lower, cut, In}
use tls_impersonate_proxy.Assoc.{lookup, has_key}
use tls_impersonate_proxy.Directive.Names.{lowers}
use tls_impersonate_proxy.Directive.Schema.{
  official_presets, official_providers, enum_allows, is_dns_over_tls,
}

abbrev pub ja_presets : List (Text × Text)
ja_presets =
    (text "android", text "Android")
    ∷ (text "chrome", text "Chrome")
    ∷ (text "chrome58", text "Chrome58")
    ∷ (text "chrome62", text "Chrome62")
    ∷ (text "chrome70", text "Chrome70")
    ∷ (text "chrome72", text "Chrome72")
    ∷ (text "chrome83", text "Chrome83")
    ∷ (text "chrome87", text "Chrome87")
    ∷ (text "chrome96", text "Chrome96")
    ∷ (text "chrome100", text "Chrome100")
    ∷ (text "chrome102", text "Chrome102")
    ∷ (text "chrome106", text "Chrome106")
    ∷ (text "chrome120", text "Chrome120")
    ∷ (text "chrome120pq", text "Chrome120PQ")
    ∷ (text "chrome152", text "Chrome152")
    ∷ (text "edge", text "Edge")
    ∷ (text "edge85", text "Edge85")
    ∷ (text "edge106", text "Edge106")
    ∷ (text "firefox", text "Firefox")
    ∷ (text "firefox55", text "Firefox55")
    ∷ (text "firefox56", text "Firefox56")
    ∷ (text "firefox63", text "Firefox63")
    ∷ (text "firefox65", text "Firefox65")
    ∷ (text "firefox99", text "Firefox99")
    ∷ (text "firefox102", text "Firefox102")
    ∷ (text "firefox105", text "Firefox105")
    ∷ (text "firefox120", text "Firefox120")
    ∷ (text "firefox148", text "Firefox148")
    ∷ (text "ios", text "IOS")
    ∷ (text "ios11", text "IOS11")
    ∷ (text "ios12", text "IOS12")
    ∷ (text "ios13", text "IOS13")
    ∷ (text "ios14", text "IOS14")
    ∷ (text "randomized", text "Randomized")
    ∷ (text "randomizedalpn", text "RandomizedALPN")
    ∷ (text "randomizednoalpn", text "RandomizedNoALPN")
    ∷ (text "safari", text "Safari")
    ∷ []

abbrev pub dot_providers : List (Text × Text)
dot_providers =
    (text "adguard", text "AdGuard")
    ∷ (text "google", text "Google")
    ∷ (text "cloudflare", text "Cloudflare")
    ∷ (text "quad9", text "Quad9")
    ∷ (text "switch", text "Switch")
    ∷ (text "cirashield", text "CIRAShield")
    ∷ (text "ali", text "Ali")
    ∷ (text "quad101", text "Quad101")
    ∷ (text "sb", text "SB")
    ∷ (text "forge", text "Forge")
    ∷ (text "libredns", text "LibreDNS")
    ∷ []

abbrev pub all_keys {ℓ} : {V : Type ℓ} → List (Text × V) → List Text → Bool
all_keys m [] = true
all_keys m (t ∷ ts) = has_key t m && all_keys m ts

abbrev all_names {ℓ} : {V : Type ℓ} → List Text → List (Text × V) → Bool
all_names ts [] = true
all_names ts ((k, v) ∷ m) = contains_text ts k && all_names ts m

pub all_keys_sound {ℓ} :
    {V : Type ℓ} (m : List (Text × V)) (ts : List Text) (t : Text)
    → all_keys m ts ≡ true
    → In ts t
    → has_key t m ≡ true
unfolding contains_text
all_keys_sound m [] t h i = absurd (ground arith)
all_keys_sound m (s ∷ ts) t h i = ground (arith, text_eq_iff s t, all_keys_sound m ts t)

all_names_sound {ℓ} :
    {V : Type ℓ} (ts : List Text) (m : List (Text × V)) (t : Text)
    → all_names ts m ≡ true
    → has_key t m ≡ true
    → In ts t
unfolding lookup
all_names_sound ts [] t h i = absurd (ground arith)
all_names_sound ts ((k, v) ∷ m) t h i = ground (arith, text_eq_iff k t, all_names_sound ts m t)

presets_tables :
    (all_keys ja_presets (lowers official_presets) ≡ true)
    × (all_names (lowers official_presets) ja_presets ≡ true)
unfolding lookup contains_text text_eq lower
presets_tables = (refl, refl)

providers_tables :
    (all_keys dot_providers (lowers official_providers) ≡ true)
    × (all_names (lowers official_providers) dot_providers ≡ true)
unfolding lookup contains_text text_eq lower
providers_tables = (refl, refl)

pub has_key-presets : (t : Text) → In (lowers official_presets) t → has_key t ja_presets ≡ true
has_key-presets t i = all_keys_sound ja_presets (lowers official_presets) t presets_tables.0 i

pub has_key-providers :
    (t : Text) → In (lowers official_providers) t → has_key t dot_providers ≡ true
has_key-providers t i =
    all_keys_sound dot_providers (lowers official_providers) t providers_tables.0 i

-- The schema and the builder agree on their tables: a text is admitted as a TLS preset exactly if the
-- builder has a method for it, and one without `@` as a resolver exactly if the builder has a provider
-- for it in lower case.
pub enum_allows-presets :
    (t : Text)
    → cut b'@' t ≡ none
    → ((enum_allows official_presets t ≡ true) ↔ (has_key t ja_presets ≡ true))
      × ((is_dns_over_tls t ≡ true) ↔ (has_key (lower t) dot_providers ≡ true))
unfolding enum_allows is_dns_over_tls
enum_allows-presets t plain = (
  (has_key-presets t, all_names_sound (lowers official_presets) ja_presets t presets_tables.1),
  (
    λ h. has_key-providers (lower t) (ground arith),
    λ h.
        let i =
          all_names_sound (lowers official_providers) dot_providers (lower t) providers_tables.1
            h in
        ground arith,
  ),
)
