-- ===== src/Metrics/Registry/Labels.antt =====
-- internal/metrics/metrics.go: routes whose captures clash with the labels that the requests have anyway.
use tls_impersonate_proxy.Base.{
  ◌≡◌, refl, inl, inr, Bool, true, false, ◌||◌, none, List, [], ◌∷◌, ◌++◌, arith, Bool-cases,
}
use tls_impersonate_proxy.Text.{Text, text, text_eq, text_eq_iff, contains_text, In}
use tls_impersonate_proxy.Metrics.Routes.{Matcher, Checked, new_matcher}
use tls_impersonate_proxy.Metrics.Registry.{Options, new}

-- A list of labels has a name twice.
abbrev pub is_repeated : List Text → Bool
is_repeated [] = false
is_repeated (name ∷ names) = contains_text names name || is_repeated names

contains_text-append : (xs ys : List Text) (name : Text) → In ys name → In (xs ++ ys) name
unfolding contains_text
contains_text-append [] ys name h = h
contains_text-append (x ∷ xs) ys name h = ground (arith, contains_text-append xs ys name)

is_repeated-append :
    (xs ys : List Text) (name : Text) → In xs name → In ys name → is_repeated (xs ++ ys) ≡ true
unfolding contains_text
is_repeated-append [] ys name h i = absurd (ground arith)
is_repeated-append (x ∷ xs) ys name h i = elim (Bool-cases (text_eq x name)) [
  | inl same ↦
      let e = (text_eq_iff x name).0 same in
      let there : In (xs ++ ys) x = rw e (contains_text-append xs ys name i) in ground arith
  | inr other ↦ let later = is_repeated-append xs ys name (ground arith) i in ground arith
]

-- Where prometheus accepts no list of labels with a name twice: `New` panics on routes that it could
-- compile and that capture a parameter named `host`, `method`, `status`, `browser` or `route`, if the
-- requests are to be counted.
pub new-is_repeated :
    (accepts : List Text → Bool) (o : Options) (matcher : Matcher) (name : Text)
    → ((labels : List Text) → is_repeated labels ≡ true → accepts labels ≡ false)
    → new_matcher o.routes ≡ Checked.ok matcher
    → o.collectors.requests ≡ true
    → In (text "host" ∷ text "method" ∷ text "status" ∷ text "browser" ∷ text "route" ∷ []) name
    → In matcher.captures name
    → new accepts o ≡ none
unfolding new
new-is_repeated accepts o matcher name refuses compiled on fixed captured =
    rw
      (
        compiled,
        new,
        on,
        refuses _ (
            is_repeated-append
              (text "host" ∷ text "method" ∷ text "status" ∷ text "browser" ∷ text "route" ∷ [])
              matcher.captures name fixed captured),
      )
      refl
