-- ===== src/Impersonate/Infer.antt =====
-- internal/impersonate/infer.go, profiles.go: the families of browsers, and which of them a User-Agent
-- shows. The agent of a family on an OS is data of the surf library: `agent family os` is an argument.
pub mod Laws
mod Tests
use tls_impersonate_proxy.Base.{
  Bool, true, false, not, ◌&&◌, ◌||◌, Option, none, some, List, [], ◌∷◌, map, is_nil, any,
  if◌then◌else◌, get_or,
}
use tls_impersonate_proxy.Text.{Text, text, text_eq, contains_text, contains}
use tls_impersonate_proxy.Assoc.{lookup}

pub record Family : Type 0 where
  pub name : Text
  pub oses : List Text
  pub detect : List Text

abbrev pub all_oses : List Text
all_oses = text "windows" ∷ text "macos" ∷ text "linux" ∷ text "android" ∷ text "ios" ∷ []

abbrev pub chrome : Family
chrome = record {
  name = text "chrome";
  oses = all_oses;
  detect = text "Chrome/" ∷ text "CriOS/" ∷ text "Chromium/" ∷ [];
}

abbrev pub firefox : Family
firefox = record {
  name = text "firefox";
  oses = all_oses;
  detect = text "Firefox/" ∷ text "FxiOS/" ∷ [];
}

abbrev pub edge : Family
edge = record {
  name = text "edge";
  oses = text "windows" ∷ text "macos" ∷ text "linux" ∷ text "android" ∷ [];
  detect = text "Edg/" ∷ text "EdgA/" ∷ text "EdgiOS/" ∷ [];
}

-- `families`, and the families in `detectionOrder`
abbrev pub family_map : List (Text × Family)
family_map = (text "chrome", chrome) ∷ (text "firefox", firefox) ∷ (text "edge", edge) ∷ []

abbrev pub detection_order : List Family
detection_order = edge ∷ firefox ∷ chrome ∷ []

-- `Families`, which sorts the names
abbrev pub families : List Text
families = text "chrome" ∷ text "edge" ∷ text "firefox" ∷ []

-- `OSes`
unfoldable pub oses_of : Text → List Text
oses_of browser = elim (lookup browser family_map) [ some f ↦ f.oses | none ↦ all_oses ]

-- `containsOs`: an unknown browser has no family, and none of its OSes.
unfoldable pub contains_os : Text → Text → Bool
contains_os browser os = elim (lookup browser family_map) [
  | some f ↦ contains_text f.oses os
  | none ↦ false
]

pub record Inference : Type 0 where
  pub browser : Text
  pub os : Text

unfoldable pub platform : Text → Text
platform ua =
    if contains (text "Android") ua
    then text "android"
    else if contains (text "iPhone") ua || contains (text "iPad") ua || contains (text "iPod") ua
    then text "ios"
    else if contains (text "Windows") ua
    then text "windows"
    else if contains (text "Macintosh") ua || contains (text "Mac OS X") ua
    then text "macos"
    else if contains (text "Linux") ua || contains (text "X11") ua
    then text "linux"
    else []

unfoldable pub closest : Text → Text → Inference
closest browser os =
    if not (is_nil os) && not (contains_os browser os)
    then record { browser = text "chrome"; os = os }
    else record { browser = browser; os = os }

-- The second loop of `Infer`.
unfoldable pub detected : Text → List Family → Option Inference
detected ua [] = none
detected ua (f ∷ fs) =
    let rest = detected ua fs in
    if any (λ marker. contains marker ua) f.detect
    then some (closest f.name (platform ua))
    else rest

module _ (agent : Text → Text → Text) where
  -- The first loop of `Infer`, over the OSes of one family and over the families.
  unfoldable pub exact_os : Text → Text → List Text → Option Inference
  exact_os ua name [] = none
  exact_os ua name (os ∷ oses) =
      let rest = exact_os ua name oses in
      if text_eq (agent name os) ua then some (record { browser = name; os = os }) else rest

  unfoldable pub exact : Text → List Family → Option Inference
  exact ua [] = none
  exact ua (f ∷ fs) =
      let rest = exact ua fs in elim (exact_os ua f.name f.oses) [ some i ↦ some i | none ↦ rest ]

  unfoldable pub infer : Text → Inference
  infer ua = elim (exact ua detection_order) [
    | some i ↦ i
    | none ↦ elim (detected ua detection_order) [
      | some i ↦ i
      | none ↦ record { browser = []; os = [] }
    ]
  ]
