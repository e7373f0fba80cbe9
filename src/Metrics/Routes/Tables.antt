-- ===== src/Metrics/Routes/Tables.antt =====
-- internal/metrics/routes.go: `NewMatcher`, and the labels that its matches can carry.
use tls_impersonate_proxy.Base.{
  ◌≡◌, inl, inr, some, List, [], ◌∷◌, ◌++◌, arith, if◌then◌else◌, Bool-cases, Option-cases, All,
  All-append,
}
use tls_impersonate_proxy.Text.{
  Text, text, text_eq, text_eq_iff, text_eq_refl, contains_text, In, cut, cut_prefix,
}
use tls_impersonate_proxy.Metrics.Routes.{
  Route, Compiled, Matcher, ok, >>=-inv, params_of, add_captures, compile, add_routes,
  insert_sorted, sort, new_matcher, put, match_host, match_segment, match_from, match_path,
  match_routes, match, segments_of,
}

In-append_left : (xs ys : List Text) (t : Text) → In xs t → In (xs ++ ys) t
unfolding contains_text
In-append_left [] ys t h = absurd (ground arith)
In-append_left (x ∷ xs) ys t h = ground (arith, In-append_left xs ys t)

In-append_last : (xs : List Text) (t : Text) → In (xs ++ t ∷ []) t
unfolding contains_text
In-append_last [] t = ground (arith, text_eq_refl t)
In-append_last (x ∷ xs) t = ground (arith, In-append_last xs t)

In-insert_self : (t : Text) (ts : List Text) → In (insert_sorted t ts) t
unfolding insert_sorted contains_text
In-insert_self t [] = ground (arith, text_eq_refl t)
In-insert_self t (s ∷ ss) = ground (arith, text_eq_refl t, In-insert_self t ss)

In-insert_sorted : (t u : Text) (ts : List Text) → In ts u → In (insert_sorted t ts) u
unfolding insert_sorted contains_text
In-insert_sorted t u [] h = absurd (ground arith)
In-insert_sorted t u (s ∷ ss) h = ground (arith, In-insert_sorted t u ss)

In-sort : (ts : List Text) (u : Text) → In ts u → In (sort ts) u
unfolding sort contains_text
In-sort [] u h = h
In-sort (t ∷ ts) u h = elim (Bool-cases (text_eq t u)) [
  | inl e ↦ rw (← (text_eq_iff t u).0 e) (In-insert_self t (sort ts))
  | inr e ↦ In-insert_sorted t u (sort ts) (In-sort ts u (ground arith))
]

-- Every name that a route captures is among the captures of the table.
abbrev Covered : List Text → Compiled → Type 0
Covered captures r = All (In captures) r.capture

Grows : List Text → List Text → Type 0
Grows xs ys = (t : Text) → In xs t → In ys t

All-Grows : (xs ys ts : List Text) → Grows xs ys → All (In xs) ts → All (In ys) ts
unfolding Grows
All-Grows xs ys [] g h = tt
All-Grows xs ys (t ∷ ts) g (p, h) = (g t p, All-Grows xs ys ts g h)

Covered-Grows :
    (xs ys : List Text) (rs : List Compiled)
    → Grows xs ys
    → All (Covered xs) rs
    → All (Covered ys) rs
Covered-Grows xs ys [] g h = tt
Covered-Grows xs ys (r ∷ rs) g (p, h) = (All-Grows xs ys r.capture g p, Covered-Grows xs ys rs g h)

add_captures-Grows :
    (route : Text) (params names captures out : List Text)
    → add_captures route params names captures ≡ ok out
    → Grows captures out × All (In out) names
unfolding add_captures Grows
add_captures-Grows route params [] captures out h = (λ t p. ground arith, tt)
add_captures-Grows route params (name ∷ names) captures out h =
    let next = if contains_text captures name then captures else captures ++ name ∷ [] in
    let (grows, rest) = add_captures-Grows route params names next out (ground arith) in
    (
      λ t p. grows t (ground (arith, In-append_left captures (name ∷ []) t)),
      (grows name (ground (arith, In-append_last captures name)), rest),
    )

add_routes-Covered :
    (rs : List Route) (routes : List Compiled) (captures : List Text) (m : Matcher)
    → add_routes rs routes captures ≡ ok m
    → All (Covered captures) routes
    → All (Covered m.captures) m.routes
unfolding add_routes
add_routes-Covered [] routes captures m h c = ground arith
add_routes-Covered (r ∷ rs) routes captures m h c =
    let (params, h', e) = >>=-inv (params_of r.name (segments_of r.path) []) _ h in
    let (captures', h'', f) = >>=-inv (add_captures r.name params r.capture captures) _ h' in
    let (grows, own) = add_captures-Grows r.name params r.capture captures captures' f in
    add_routes-Covered rs (routes ++ compile r ∷ []) captures' m h'' (
      All-append (Covered captures') routes (compile r ∷ [])
        (Covered-Grows captures captures' routes grows c) (unfold compile in own, tt))

-- The names of the labels of a match.
abbrev LabelsIn : List Text → List (Text × Text) → Type 0
LabelsIn captures labels = All (λ l. In captures l.0) labels

put-LabelsIn :
    (captures : List Text) (k v : Text) (labels : List (Text × Text))
    → In captures k
    → LabelsIn captures labels
    → LabelsIn captures (put k v labels)
unfolding put
put-LabelsIn captures k v [] h _ = (h, tt)
put-LabelsIn captures k v ((j, w) ∷ m) h (p, q) = elim (Bool-cases (text_eq j k)) [
  | inl e ↦ rw e (h, q)
  | inr e ↦ rw e (p, put-LabelsIn captures k v m h q)
]

In-Covered :
    (captures names : List Text) (t : Text) → All (In captures) names → In names t → In captures t
unfolding contains_text
In-Covered captures [] t h p = absurd (ground arith)
In-Covered captures (n ∷ names) t (h, hs) p = elim (Bool-cases (text_eq n t)) [
  | inl e ↦ rw (← (text_eq_iff n t).0 e) h
  | inr e ↦ In-Covered captures names t hs (ground arith)
]

match_segment-LabelsIn :
    (captures capture : List Text) (p s : Text) (labels labels' : List (Text × Text))
    → All (In captures) capture
    → LabelsIn captures labels
    → match_segment capture p s labels ≡ some labels'
    → LabelsIn captures labels'
unfolding match_segment
match_segment-LabelsIn captures capture p s labels labels' c h e =
    elim (Option-cases (cut b':' p)) [
      | inl f ↦ ground arith
      | inr ((prefix, name), f) ↦ elim (Option-cases (cut_prefix prefix s)) [
        | inl g ↦ absurd (ground arith)
        | inr (value, g) ↦ elim (Bool-cases (contains_text capture name)) [
          | inl i ↦
              let out =
                put-LabelsIn captures name value labels (In-Covered captures capture name c i) h in
              let same : put name value labels ≡ labels' = ground arith in rw (← same) out
          | inr i ↦ let same : labels ≡ labels' = ground arith in rw (← same) h
        ]
      ]
    ]

match_from-LabelsIn :
    (captures capture ps ss : List Text) (labels labels' : List (Text × Text))
    → All (In captures) capture
    → LabelsIn captures labels
    → match_from capture ps ss labels ≡ some labels'
    → LabelsIn captures labels'
unfolding match_from
match_from-LabelsIn captures capture [] ss labels labels' c h e =
    let same : labels ≡ labels' = ground arith in rw (← same) h
match_from-LabelsIn captures capture (p ∷ ps) [] labels labels' c h e =
    let same : labels ≡ labels' = ground arith in rw (← same) h
match_from-LabelsIn captures capture (p ∷ ps) (s ∷ ss) labels labels' c h e =
    elim (Bool-cases (text_eq p (text "*"))) [
      | inl f ↦ let same : labels ≡ labels' = ground arith in rw (← same) h
      | inr f ↦ elim (Option-cases (match_segment capture p s labels)) [
        | inl g ↦ absurd (ground arith)
        | inr (next, g) ↦
            match_from-LabelsIn captures capture ps ss next labels' c
              (match_segment-LabelsIn captures capture p s labels next c h g) (ground arith)
      ]
    ]

match_routes-LabelsIn :
    (captures : List Text) (rs : List Compiled) (host : Text) (segments : List Text)
    → All (Covered captures) rs
    → LabelsIn captures (match_routes rs host segments).1
unfolding match_routes
match_routes-LabelsIn captures [] host segments c = tt
match_routes-LabelsIn captures (r ∷ rs) host segments (c, cs) =
    elim (Bool-cases (match_host r.host host)) [
      | inr e ↦ rw e (match_routes-LabelsIn captures rs host segments cs)
      | inl e ↦ elim (Option-cases (match_path r segments)) [
        | inl f ↦ rw (e, f) (match_routes-LabelsIn captures rs host segments cs)
        | inr (labels, f) ↦
            rw (e, f)
              (unfold match_path in
                match_from-LabelsIn captures r.capture r.segments segments [] labels c tt f)
      ]
    ]

-- Whatever table `NewMatcher` accepts and whatever request is matched against it, every label of the
-- match is one of the table's captures, so the label values that the counters are given miss none.
pub new_matcher-match-LabelsIn :
    (routes : List Route) (m : Matcher) (host path : Text)
    → new_matcher routes ≡ ok m
    → All (λ l. In m.captures l.0) (match m host path).1
unfolding new_matcher match
new_matcher-match-LabelsIn routes m host path h =
    let (m', f, e) = >>=-inv (add_routes routes [] []) _ h in
    let sorted : record m' { captures = sort m'.captures } ≡ m = ground arith in
    rw (← sorted) (
      match_routes-LabelsIn (sort m'.captures) m'.routes _ _ (
        Covered-Grows m'.captures (sort m'.captures) m'.routes
          (unfold Grows in λ t p. In-sort m'.captures t p)
          (add_routes-Covered routes [] [] m' e tt)))
