-- ===== src/Impersonate/Infer/Laws.antt =====
-- internal/impersonate/infer.go: what `Infer` gives is an available pair, and a family's own agent is
-- recognised.
use tls_impersonate_proxy.Base.{
  ◌≡◌, refl, ◌≢◌, ◌⊎◌, inl, inr, Bool, true, false, ◌||◌, none, some, List, [], ◌∷◌, arith, any,
  if◌then◌else◌, Bool-cases, Option-cases, All, Has, ◌∙◌, ap,
}
use tls_impersonate_proxy.Text.{
  Text, text, text_eq, text_eq_iff, text_eq_refl, contains_text, In, contains,
}
use tls_impersonate_proxy.Assoc.{lookup}
use tls_impersonate_proxy.Impersonate.Infer.{
  Family, Inference, all_oses, detection_order, families, oses_of, contains_os, platform, closest,
  detected, exact_os, exact, infer,
}

-- A family whose name and OSes are the map's.
abbrev Known : Family → Type 0
Known f = In families f.name × (oses_of f.name ≡ f.oses)

detection_order-Known : All Known detection_order
unfolding contains_text oses_of lookup text_eq
detection_order-Known = ((refl, refl), ((refl, refl), ((refl, refl), tt)))

-- A family, and an OS that it has or none at all.
abbrev pub IsAvailable : Inference → Type 0
IsAvailable i = In families i.browser × ((i.os ≡ []) ⊎ In (oses_of i.browser) i.os)

platform-In : (ua : Text) → (platform ua ≡ []) ⊎ In (oses_of (text "chrome")) (platform ua)
unfolding platform oses_of lookup text_eq contains_text
platform-In ua =
    of_tests (contains (text "Android") ua)
      (contains (text "iPhone") ua || contains (text "iPad") ua || contains (text "iPod") ua)
      (contains (text "Windows") ua)
      (contains (text "Macintosh") ua || contains (text "Mac OS X") ua)
      (contains (text "Linux") ua || contains (text "X11") ua)
  where
    of_tests :
        (a b c d e : Bool)
        → let p =
            if a
            then text "android"
            else if b
            then text "ios"
            else if c
            then text "windows"
            else if d
            then text "macos"
            else if e
            then text "linux"
            else [] in
          (p ≡ []) ⊎ (contains_text all_oses p ≡ true)
    of_tests true b c d e = inr refl
    of_tests false true c d e = inr refl
    of_tests false false true d e = inr refl
    of_tests false false false true e = inr refl
    of_tests false false false false true = inr refl
    of_tests false false false false false = inl refl

contains_os-In : (browser os : Text) → contains_os browser os ≡ true → In (oses_of browser) os
unfolding contains_os oses_of
contains_os-In browser os h = ground arith

closest-IsAvailable :
    (browser os : Text)
    → In families browser
    → (os ≡ []) ⊎ In (oses_of (text "chrome")) os
    → IsAvailable (closest browser os)
unfolding closest
closest-IsAvailable browser [] h p = (h, inl refl)
closest-IsAvailable browser (c ∷ s) h p = elim (Bool-cases (contains_os browser (c ∷ s))) [
  | inl offered ↦ rw (offered, closest) (h, inr (contains_os-In browser (c ∷ s) offered))
  | inr missing ↦ rw (missing, closest) (chrome_known, p)
]
  where
    chrome_known : In families (text "chrome")
    chrome_known = unfold contains_text text_eq in refl

detected-IsAvailable :
    (ua : Text) (fs : List Family) (i : Inference)
    → All Known fs
    → detected ua fs ≡ some i
    → IsAvailable i
unfolding detected
detected-IsAvailable ua [] i k h = absurd (ground arith)
detected-IsAvailable ua (f ∷ fs) i (k, ks) h =
    elim (Bool-cases (any (λ marker. contains marker ua) f.detect)) [
      | inl seen ↦
          let e : closest f.name (platform ua) ≡ i = ground arith in
          rw (← e) (closest-IsAvailable f.name (platform ua) k.0 (platform-In ua))
      | inr unseen ↦ detected-IsAvailable ua fs i ks (rw unseen at h)
    ]

module _ (agent : Text → Text → Text) where
  exact_os_sound :
      (ua name : Text) (oses : List Text) (i : Inference)
      → exact_os agent ua name oses ≡ some i
      → (i.browser ≡ name) × In oses i.os × (agent i.browser i.os ≡ ua)
  unfolding exact_os contains_text
  exact_os_sound ua name [] i h = absurd (ground arith)
  exact_os_sound ua name (os ∷ oses) i h = elim (Bool-cases (text_eq (agent name os) ua)) [
    | inl same ↦
        let e : record { browser = name; os = os } ≡ i = ground arith in
        rw (← e) (refl, ground (arith, text_eq_refl os), (text_eq_iff (agent name os) ua).0 same)
    | inr other ↦
        let (a, b, c) = exact_os_sound ua name oses i (rw other at h) in (a, ground arith, c)
  ]

  exact_sound :
      (ua : Text) (fs : List Family) (i : Inference)
      → All Known fs
      → exact agent ua fs ≡ some i
      → (In families i.browser × In (oses_of i.browser) i.os) × (agent i.browser i.os ≡ ua)
  unfolding exact
  exact_sound ua [] i k h = absurd (ground arith)
  exact_sound ua (f ∷ fs) i ((known, oses), ks) h =
      elim (Option-cases (exact_os agent ua f.name f.oses)) [
        | inl missed ↦ exact_sound ua fs i ks (rw (missed, exact) at h)
        | inr (j, found) ↦
            let e : j ≡ i = ground arith in
            let (a, b, c) = exact_os_sound ua f.name f.oses j found in
            rw (← e) ((rw a known, rw (a, oses) b), c)
      ]

  exact_os_complete :
      (ua name : Text) (oses : List Text) (os : Text)
      → In oses os
      → agent name os ≡ ua
      → exact_os agent ua name oses ≢ none
  unfolding exact_os contains_text
  exact_os_complete ua name [] os m a h = ground arith
  exact_os_complete ua name (o ∷ oses) os m a h = elim (Bool-cases (text_eq o os)) [
    | inl same ↦
        let e : agent name o ≡ ua = ap (agent name) ((text_eq_iff o os).0 same) ∙ a in
        ground (arith, text_eq_iff (agent name o) ua)
    | inr other ↦ elim (Bool-cases (text_eq (agent name o) ua)) [
      | inl hit ↦ ground arith
      | inr miss ↦ exact_os_complete ua name oses os (ground arith) a (rw miss at h)
    ]
  ]

  exact_complete :
      (ua : Text) (fs : List Family) (f : Family) (os : Text)
      → Has (λ g. g ≡ f) fs
      → In f.oses os
      → agent f.name os ≡ ua
      → exact agent ua fs ≢ none
  unfolding exact
  exact_complete ua [] f os m i a h = m
  exact_complete ua (g ∷ fs) f os m i a h = elim (Option-cases (exact_os agent ua g.name g.oses)) [
    | inr (j, found) ↦ absurd (ground arith)
    | inl missed ↦ elim m [
      | inl here ↦ exact_os_complete ua g.name g.oses os (rw here i) (rw here a) missed
      | inr later ↦ exact_complete ua fs f os later i a (rw (missed, exact) at h)
    ]
  ]

  -- What `Infer` gives of a User-Agent is nothing, or a family of the catalogue with one of its OSes or with
  -- none.
  pub infer-IsAvailable :
      (ua : Text) → ((infer agent ua).browser ≡ []) ⊎ IsAvailable (infer agent ua)
  unfolding infer
  infer-IsAvailable ua = elim (Option-cases (exact agent ua detection_order)) [
    | inr (i, found) ↦
        let ((a, b), c) = exact_sound ua detection_order i detection_order-Known found in
        rw (found, infer) (inr (a, inr b))
    | inl missed ↦ elim (Option-cases (detected ua detection_order)) [
      | inr (i, found) ↦
          rw (missed, found, infer)
            (inr (detected-IsAvailable ua detection_order i detection_order-Known found))
      | inl unseen ↦ rw (missed, unseen, infer) (inl refl)
    ]
  ]

  -- The agent of each family on each of its OSes is recognised: `Infer` gives a family and an OS with just
  -- that agent.
  pub infer-agent :
      (f : Family) (os : Text)
      → Has (λ g. g ≡ f) detection_order
      → In f.oses os
      → (agent (infer agent (agent f.name os)).browser (infer agent (agent f.name os)).os
          ≡ agent f.name os)
        × In (oses_of (infer agent (agent f.name os)).browser) (infer agent (agent f.name os)).os
  unfolding infer
  infer-agent f os m i = elim (Option-cases (exact agent (agent f.name os) detection_order)) [
    | inl missed ↦ absurd (exact_complete (agent f.name os) detection_order f os m i refl missed)
    | inr (j, found) ↦
        let ((a, b), c) =
          exact_sound (agent f.name os) detection_order j detection_order-Known found in
        rw (found, infer) (c, b)
  ]
