-- ===== src/Metrics/Routes/Laws.antt =====
-- internal/metrics/routes.go: which paths a route takes, which tables are accepted, and which
-- labels a match can carry.
use tls_impersonate_proxy.Base.{
  ◌≡◌, refl, ◌≢◌, ◌↔◌, ◌⊎◌, inl, inr, true, none, some, List, [], ◌∷◌, ◌++◌, arith, if◌then◌else◌,
  Bool-cases, Option-cases,
}
use tls_impersonate_proxy.Text.{
  Text, text, text_eq, text_eq_iff, contains_text, cut, cut_prefix, cut_prefix_sound,
  cut_prefix-append, has_suffix_sound, has_suffix-append,
}
use tls_impersonate_proxy.Metrics.Routes.{
  Compiled, put, match_host, match_segment, match_from, match_path,
}

-- The paths that a pattern is meant to take: `*` takes all that is left, every other segment one
-- segment that is not empty, `prefix:name` one that goes on behind the prefix.
pub data Fits : List Text → List Text → Type 0 where
  done : Fits [] []
  star : {p : Text} {ps ss : List Text} → p ≡ text "*" → Fits (p ∷ ps) ss
  literal :
      {p s : Text} {ps ss : List Text}
      → p ≢ text "*"
      → s ≢ []
      → cut b':' p ≡ none
      → p ≡ s
      → Fits ps ss
      → Fits (p ∷ ps) (s ∷ ss)
  param :
      {p s : Text} {ps ss : List Text} (prefix name value : Text)
      → p ≢ text "*"
      → cut b':' p ≡ some (prefix, name)
      → value ≢ []
      → s ≡ prefix ++ value
      → s ≢ []
      → Fits ps ss
      → Fits (p ∷ ps) (s ∷ ss)

abbrev Labels : Type 0
Labels = List (Text × Text)

-- One segment fits.
abbrev SegmentFits : Text → Text → Type 0
SegmentFits p s =
    ((cut b':' p ≡ none) × (p ≡ s))
    ⊎ ((prefix : Text) × (name : Text) × (value : Text) × (cut b':' p ≡ some (prefix, name))
        × (value ≢ [])
        × (s ≡ prefix ++ value))

match_segment_sound :
    (capture : List Text) (p s : Text) (labels labels' : Labels)
    → match_segment capture p s labels ≡ some labels'
    → SegmentFits p s
unfolding match_segment
match_segment_sound capture p s labels labels' h = elim (Option-cases (cut b':' p)) [
  | inl e ↦ inl (e, ground (arith, text_eq_iff p s))
  | inr ((prefix, name), e) ↦ inr (go prefix name e)
]
  where
    go :
        (prefix name : Text)
        → cut b':' p ≡ some (prefix, name)
        → (prefix : Text) × (name : Text) × (value : Text) × (cut b':' p ≡ some (prefix, name))
          × (value ≢ [])
          × (s ≡ prefix ++ value)
    go prefix name e = elim (Option-cases (cut_prefix prefix s)) [
      | inl f ↦ absurd (ground arith)
      | inr (value, f) ↦ (prefix, name, value, e, ground arith, cut_prefix_sound prefix s value f)
    ]

match_segment_complete :
    (capture : List Text) (p s : Text) (labels : Labels)
    → SegmentFits p s
    → (labels' : Labels) × (match_segment capture p s labels ≡ some labels')
unfolding match_segment
match_segment_complete capture p s labels (inl (e, same)) =
    (labels, ground (arith, text_eq_iff p s))
match_segment_complete capture p s labels (inr (prefix, name, [], e, f, g)) = absurd (f refl)
match_segment_complete capture p s labels (inr (prefix, name, c ∷ value, e, f, g)) = (
  if contains_text capture name then put name (c ∷ value) labels else labels,
  ground (arith, cut_prefix-append prefix (c ∷ value)),
)

match_from_sound :
    (capture ps ss : List Text) (labels labels' : Labels)
    → match_from capture ps ss labels ≡ some labels'
    → Fits ps ss
unfolding match_from
match_from_sound capture [] [] labels labels' h = done
match_from_sound capture [] (s ∷ ss) labels labels' h = absurd (ground arith)
match_from_sound capture (p ∷ ps) [] labels labels' h =
    star (ground (arith, text_eq_iff p (text "*")))
match_from_sound capture (p ∷ ps) (s ∷ ss) labels labels' h =
    elim (Bool-cases (text_eq p (text "*"))) [
      | inl e ↦ star ((text_eq_iff p (text "*")).0 e)
      | inr e ↦ elim (Option-cases (match_segment capture p s labels)) [
        | inl f ↦ absurd (ground arith)
        | inr (next, f) ↦
            build (ground (arith, text_eq_iff p (text "*"))) (ground arith)
              (match_segment_sound capture p s labels next f)
              (match_from_sound capture ps ss next labels' (ground arith))
      ]
    ]
  where
    build : p ≢ text "*" → s ≢ [] → SegmentFits p s → Fits ps ss → Fits (p ∷ ps) (s ∷ ss)
    build n m (inl (e, f)) rest = literal n m e f rest
    build n m (inr (prefix, name, value, e, f, g)) rest = param prefix name value n e f g m rest

match_from_segment :
    (capture ps ss : List Text) (p s : Text) (labels : Labels)
    → p ≢ text "*"
    → s ≢ []
    → SegmentFits p s
    → ((next : Labels) → (out : Labels) × (match_from capture ps ss next ≡ some out))
    → (out : Labels) × (match_from capture (p ∷ ps) (s ∷ ss) labels ≡ some out)
unfolding match_from
match_from_segment capture ps ss p s labels n m fits rest =
    let (next, e) = match_segment_complete capture p s labels fits in
    let (out, f) = rest next in (out, ground (arith, text_eq_iff p (text "*")))

match_from_complete :
    (capture : List Text) {ps ss : List Text} (labels : Labels)
    → Fits ps ss
    → (out : Labels) × (match_from capture ps ss labels ≡ some out)
unfolding match_from
match_from_complete capture labels done = (labels, refl)
match_from_complete capture labels (star {p} {ps} {ss} e) = go ss
  where
    go : (ss : List Text) → (out : Labels) × (match_from capture (p ∷ ps) ss labels ≡ some out)
    go [] = (labels, ground (arith, text_eq_iff p (text "*")))
    go (s ∷ ss) = (labels, ground (arith, text_eq_iff p (text "*")))
match_from_complete capture labels (literal {p} {s} {ps} {ss} n m e f rest) =
    match_from_segment capture ps ss p s labels n m (inl (e, f))
      (λ next. match_from_complete capture next rest)
match_from_complete capture labels (param {p} {s} {ps} {ss} prefix name value n e f g m rest) =
    match_from_segment capture ps ss p s labels n m (inr (prefix, name, value, e, f, g))
      (λ next. match_from_complete capture next rest)

-- A compiled route takes exactly the segment lists that fit its pattern, whatever it captures.
pub match_path_iff :
    (r : Compiled) (segments : List Text)
    → ((labels : Labels) × (match_path r segments ≡ some labels)) ↔ Fits r.segments segments
unfolding match_path
match_path_iff r segments = (
  λ h. match_from_sound r.capture r.segments segments [] h.0 h.1,
  λ fits. match_from_complete r.capture [] fits,
)

-- A `*.domain` pattern takes exactly the hosts that end in `.domain`, so never the domain itself;
-- a pattern with no such prefix takes its own text alone.
pub match_host_iff :
    (pattern host : Text)
    → (match_host pattern host ≡ true) ↔ (
        ((domain : Text) × (below : Text) × (pattern ≡ text "*." ++ domain)
          × (host ≡ below ++ (text "." ++ domain)))
        ⊎ ((cut_prefix (text "*.") pattern ≡ none) × (pattern ≡ host)))
unfolding match_host
match_host_iff pattern host = (forth, back)
  where
    forth :
        match_host pattern host ≡ true
        → ((domain : Text) × (below : Text) × (pattern ≡ text "*." ++ domain)
            × (host ≡ below ++ (text "." ++ domain)))
          ⊎ ((cut_prefix (text "*.") pattern ≡ none) × (pattern ≡ host))
    forth h = elim (Option-cases (cut_prefix (text "*.") pattern)) [
      | inl e ↦ inr (e, ground (arith, text_eq_iff pattern host))
      | inr (domain, e) ↦
          let (below, f) = has_suffix_sound (text "." ++ domain) host (ground arith) in
          inl (domain, below, cut_prefix_sound (text "*.") pattern domain e, f)
    ]

    back :
        ((domain : Text) × (below : Text) × (pattern ≡ text "*." ++ domain)
            × (host ≡ below ++ (text "." ++ domain)))
          ⊎ ((cut_prefix (text "*.") pattern ≡ none) × (pattern ≡ host))
        → match_host pattern host ≡ true
    back (inl (domain, below, e, f)) =
        ground (
          arith,
          cut_prefix-append (text "*.") domain,
          has_suffix-append below (text "." ++ domain),
        )
    back (inr (e, f)) = ground (arith, text_eq_iff pattern host)
