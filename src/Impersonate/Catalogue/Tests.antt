-- ===== src/Impersonate/Catalogue/Tests.antt =====
-- internal/impersonate/catalogue.go: a catalogue of made-up data, and the theorem at it.
use tls_impersonate_proxy.Base.{
  ℕ, zero, suc, ◌%◌, ◌<◌, ◌≡◌, refl, true, some, List, [], ◌∷◌, arith, length, map, All,
}
use tls_impersonate_proxy.Text.{
  Text, text, text_eq, lower, join, itoa, digits_from, cut_prefix, has_prefix,
}
use tls_impersonate_proxy.Assoc.{lookup, put}
use tls_impersonate_proxy.Directive.Parse.{take}
use tls_impersonate_proxy.Impersonate.Infer.{families}
use tls_impersonate_proxy.Impersonate.Profiles.{
  digits_of, chrome_major, edge_agent, edge_headers, replace_all, replace_from,
}
use tls_impersonate_proxy.Impersonate.Catalogue.{
  Profile, Catalogue, Surf, Variant, header_table_size, priority_param, suite_texts,
  extension_texts, setting_text, fingerprint_digest, hex_of, find, agent_of, hints_of, variant_of,
  short_sum, profile_for, build_catalogue,
}
use tls_impersonate_proxy.Impersonate.Catalogue.Ids.{IsSha256}
use tls_impersonate_proxy.Impersonate.Catalogue.Laws.{
  pairs, pair_of, IsListed, IsFound, build_catalogue-IsListed,
}

program : Unit {0}
unfolding text_eq lower join itoa digits_from cut_prefix has_prefix lookup put take digits_of
    chrome_major edge_agent edge_headers replace_all replace_from suite_texts extension_texts
    setting_text fingerprint_digest hex_of find agent_of hints_of variant_of short_sum profile_for
program = tt

abbrev variant : Variant
variant = record {
  hello_spec = some (4865 ∷ 4866 ∷ [], text "*tls.SNIExtension" ∷ []);
  hello_id = [];
  settings = header_table_size 65536 ∷ priority_param (text "{0 true 255}") ∷ [];
}

digest : fingerprint_digest variant ≡ text "4865,4866,*tls.SNIExtension;hts=65536;prio={0 true 255}"
unfolding program
digest = refl

abbrev zeros : ℕ → List ℕ
zeros zero = []
zeros (suc n) = 0 ∷ zeros n

abbrev surf : Surf
surf = record {
  chrome_agent = λ os. text "Chrome/143.0";
  firefox_agent = λ os. text "Firefox/146.0";
  sec_ch_ua = text "\"Google Chrome\";v=\"143\"";
  platform = λ os. os;
  mobile = λ os. text "?0";
  is_mobile = λ os. text_eq os (text "android");
  chrome_variant = λ mobile. variant;
  firefox_variant = λ mobile. variant;
  sha256 = λ t. (length t % 256) ∷ zeros 31;
}

small_zeros : (n : ℕ) → All (λ b. b < 256) (zeros n)
small_zeros zero = tt
small_zeros (suc n) = (omega arith, small_zeros n)

surf-IsSha256 : IsSha256 surf.sha256
surf-IsSha256 = record { size = λ t. refl; bytes = λ t. (omega arith, small_zeros 31) }

has_major : (os : Text) → (m : Text) × (chrome_major (surf.chrome_agent os) ≡ some m)
unfolding program
has_major os = (text "143", refl)

abbrev edge_android : Profile
edge_android = record {
  id = text "840000000000";
  browser = text "Edge";
  os = text "Android";
  mobile = true;
  fidelity = text "high";
  user_agent = text "Chrome/143.0 EdgA/143.0.0.0";
  sec_ch_ua = text "\"Microsoft Edge\";v=\"143\"";
  sec_ch_ua_platform = text "android";
  sec_ch_ua_mobile = text "?0";
  family = text "edge";
  platform = text "android";
}

edge_profile : profile_for surf (text "edge") (text "android") ≡ some edge_android
unfolding program
edge_profile = refl

build_catalogue-IsListed_example :
    (c : Catalogue) × (build_catalogue surf ≡ some c)
    × (map pair_of c.profiles ≡ pairs families)
    × All (λ p. IsListed p × IsFound c p) c.profiles
    × ((id : Text) (p : Profile) → find c id ≡ some p → (p.id ≡ lower id) × IsListed p)
build_catalogue-IsListed_example = build_catalogue-IsListed surf surf-IsSha256 has_major
