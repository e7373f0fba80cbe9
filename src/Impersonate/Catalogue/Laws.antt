-- ===== src/Impersonate/Catalogue/Laws.antt =====
-- internal/impersonate/catalogue.go: what the catalogue lists, and what `Lookup` finds in it.
use tls_impersonate_proxy.Base.{
  ◌≡◌, refl, inl, inr, true, Option, some, List, [], ◌∷◌, ◌++◌, arith, map, if◌then◌else◌, All,
  All-append, append_assoc, append-nil, Bool-cases, Option-cases, sym, ap, ◌∙◌,
}
use tls_impersonate_proxy.Text.{
  Text, text, text_eq, text_eq_iff, text_eq_refl, lower, In, contains_text,
}
use tls_impersonate_proxy.Assoc.{lookup, put, has_key, lookup-put}
use tls_impersonate_proxy.Directive.Schema.{is_profile_id, all_hex}
use tls_impersonate_proxy.Impersonate.Infer.{Family, family_map, families, oses_of}
use tls_impersonate_proxy.Impersonate.Profiles.{chrome_major, edge_agent, edge_headers}
use tls_impersonate_proxy.Impersonate.Catalogue.{
  Profile, Catalogue, Surf, Hints, find, agent_of, hint_of, hints_of, profile_for, add_profile,
  add_oses, add_families, build_catalogue, short_sum,
}
use tls_impersonate_proxy.Impersonate.Catalogue.Ids.{
  IsSha256, short_sum-is_profile_id, lower-all_hex,
}

-- The OS is one of those of the browser's family.
abbrev pub IsAvailable : Text → Text → Type 0
IsAvailable browser os = (f : Family) × (lookup browser family_map ≡ some f) × In f.oses os

-- The browsers with each of their OSes.
abbrev pub pairs : List Text → List (Text × Text)
pairs [] = []
pairs (name ∷ names) = map (λ os. (name, os)) (oses_of name) ++ pairs names

abbrev pub pair_of : Profile → Text × Text
pair_of p = (p.family, p.platform)

abbrev pub IsListed : Profile → Type 0
IsListed p = (is_profile_id p.id ≡ true) × IsAvailable p.family p.platform

-- What `find` gives for the id of a listed profile.
abbrev pub IsFound : Catalogue → Profile → Type 0
IsFound c p = (q : Profile) × (find c p.id ≡ some q) × (q.id ≡ p.id)

-- The catalogue while it is built: what is listed is found.
record IsIndexed (c : Catalogue) : Type 0 where
  listed : All IsListed c.profiles
  found : (id : Text) (p : Profile) → lookup id c.by_id ≡ some p → (p.id ≡ id) × IsListed p
  all_found : All (λ p. has_key p.id c.by_id ≡ true) c.profiles

has_key-put :
    (k j : Text) (p : Profile) (m : List (Text × Profile))
    → has_key j m ≡ true
    → has_key j (put k p m) ≡ true
has_key-put k j p m h = ground (arith, lookup-put k j p m)

has_key-put_same :
    (k : Text) (p : Profile) (m : List (Text × Profile)) → has_key k (put k p m) ≡ true
has_key-put_same k p m = ground (arith, lookup-put k k p m, text_eq_refl k)

All-has_key-put :
    (k : Text) (p : Profile) (m : List (Text × Profile)) (ps : List Profile)
    → All (λ q. has_key q.id m ≡ true) ps
    → All (λ q. has_key q.id (put k p m) ≡ true) ps
All-has_key-put k p m [] h = tt
All-has_key-put k p m (q ∷ ps) (h, hs) = (has_key-put k q.id p m h, All-has_key-put k p m ps hs)

add_profile-IsIndexed :
    (p : Profile) (c : Catalogue) → IsListed p → IsIndexed c → IsIndexed (add_profile p c)
add_profile-IsIndexed p c good i = record {
  listed = All-append IsListed c.profiles (p ∷ []) i.listed (good, tt);
  found = λ id q h. found id q (sym (lookup-put p.id id p c.by_id) ∙ h);
  all_found =
      All-append (λ q. has_key q.id (put p.id p c.by_id) ≡ true) c.profiles (p ∷ [])
        (All-has_key-put p.id p c.by_id c.profiles i.all_found)
        (has_key-put_same p.id p c.by_id, tt);
}
  where
    found :
        (id : Text) (q : Profile)
        → (if text_eq p.id id then some p else lookup id c.by_id) ≡ some q
        → (q.id ≡ id) × IsListed q
    found id q h = elim (Bool-cases (text_eq p.id id)) [
      | inl same ↦
          let e : p ≡ q = some_injective p q (sym (rw same refl) ∙ h) in
          rw (← e) ((text_eq_iff p.id id).0 same, good)
      | inr other ↦ i.found id q (sym (rw other refl) ∙ h)
    ]
      where
        some_injective : (a b : Profile) → some a ≡ some b → a ≡ b
        some_injective a b h = cc

map-append : (ps qs : List Profile) → map pair_of (ps ++ qs) ≡ map pair_of ps ++ map pair_of qs
map-append [] qs = refl
map-append (p ∷ ps) qs = ap (λ (xs : List (Text × Text)). pair_of p ∷ xs) (map-append ps qs)

module _ (surf : Surf) (sum : IsSha256 surf.sha256)
    (major : (os : Text) → (m : Text) × (chrome_major (surf.chrome_agent os) ≡ some m)) where
  agent_of-some : (name os : Text) → (a : Text) × (agent_of surf name os ≡ some a)
  unfolding agent_of edge_agent
  agent_of-some name os =
      let (m, e) = major os in
      elim (Bool-cases (text_eq name (text "edge"))) [
        | inl edge ↦ rw (edge, e) (_, refl)
        | inr other ↦ rw other (elim (Bool-cases (text_eq name (text "firefox"))) [
          | inl firefox ↦ rw firefox (_, refl)
          | inr chrome ↦ rw chrome (_, refl)
        ])
      ]

  hint_of-some : (name os : Text) → (h : Text) × (hint_of surf name os ≡ some h)
  unfolding edge_headers edge_agent
  hint_of-some name os =
      let (m, e) = major os in
      elim (Bool-cases (text_eq name (text "edge"))) [
        | inl edge ↦ rw (edge, e) (_, refl)
        | inr other ↦ rw other (_, refl)
      ]

  hints_of-some : (name os : Text) → (h : Hints) × (hints_of surf name os ≡ some h)
  unfolding hints_of
  hints_of-some name os =
      let (h, e) = hint_of-some name os in
      elim (Bool-cases (text_eq name (text "firefox"))) [
        | inl firefox ↦ rw firefox (_, refl)
        | inr other ↦ rw (other, e) (_, refl)
      ]

  profile_for-some :
      (name os : Text)
      → (p : Profile) × (profile_for surf name os ≡ some p)
        × (is_profile_id p.id ≡ true)
        × (pair_of p ≡ (name, os))
  unfolding profile_for
  profile_for-some name os =
      let (a, e) = agent_of-some name os in
      let (h, f) = hints_of-some name os in
      rw (e, f) (_, refl, short_sum-is_profile_id surf sum _, refl)

  -- The rounds of `add_oses` and `add_families` add the pairs in their order.
  Grows : Catalogue → List (Text × Text) → Option Catalogue → Type 0
  Grows c added r =
      (c' : Catalogue) × (r ≡ some c')
      × IsIndexed c'
      × (map pair_of c'.profiles ≡ map pair_of c.profiles ++ added)

  add_oses-Grows :
      (name : Text) (f : Family) (oses : List Text) (c : Catalogue)
      → lookup name family_map ≡ some f
      → All (In f.oses) oses
      → IsIndexed c
      → Grows c (map (λ os. (name, os)) oses) (add_oses surf name oses c)
  unfolding add_oses Grows
  add_oses-Grows name f [] c e h i = (c, refl, i, sym (append-nil (map pair_of c.profiles)))
  add_oses-Grows name f (os ∷ oses) c e (here, h) i =
      let (p, made, valid, pair) = profile_for-some name os in
      let family : p.family ≡ name = ap (λ (q : Text × Text). q.0) pair in
      let platform : p.platform ≡ os = ap (λ (q : Text × Text). q.1) pair in
      let good : IsListed p = (
        valid,
        (
          f,
          ap (λ (n : Text). lookup n family_map) family ∙ e,
          ap (contains_text f.oses) platform ∙ here,
        ),
      ) in
      let (c', r, i', grown) =
        add_oses-Grows name f oses (add_profile p c) e h (add_profile-IsIndexed p c good i) in
      let moved =
        ap (λ (ps : List (Text × Text)). ps ++ map (λ (os : Text). (name, os)) oses)
          (map-append c.profiles (p ∷ [])
            ∙ ap (λ (q : Text × Text). map pair_of c.profiles ++ q ∷ []) pair) in
      rw (made, add_oses)
        (c', r, i', grown ∙ moved ∙ append_assoc (map pair_of c.profiles) ((name, os) ∷ []) _)

  IsKnown : Text → Type 0
  IsKnown name =
      (f : Family) × (lookup name family_map ≡ some f) × (f.name ≡ name) × All (In f.oses) f.oses

  add_families-Grows :
      (names : List Text) (c : Catalogue)
      → All IsKnown names
      → IsIndexed c
      → Grows c (pairs names) (add_families surf names c)
  unfolding add_families Grows oses_of IsKnown
  add_families-Grows [] c k i = (c, refl, i, sym (append-nil (map pair_of c.profiles)))
  add_families-Grows (name ∷ names) c ((f, e, same, own), k) i =
      let (c1, r, i1, grown) =
        add_oses-Grows f.name f f.oses c (ap (λ (n : Text). lookup n family_map) same ∙ e) own i in
      let (c2, q, i2, grown2) = add_families-Grows names c1 k i1 in
      let named =
        ap
          (λ (n : Text).
            (map pair_of c.profiles ++ map (λ (os : Text). (n, os)) f.oses) ++ pairs names)
          same in
      rw (e, add_families, oses_of, r)
        (
          c2,
          q,
          i2,
          grown2
              ∙ ap (λ (ps : List (Text × Text)). ps ++ pairs names) grown
              ∙ named
              ∙ append_assoc (map pair_of c.profiles) (map (λ os. (name, os)) f.oses) (pairs names),
        )

  families-IsKnown : All IsKnown families
  unfolding IsKnown lookup text_eq contains_text
  families-IsKnown = (
    (_, refl, refl, (refl, (refl, (refl, (refl, (refl, tt)))))),
    (
      (_, refl, refl, (refl, (refl, (refl, (refl, tt))))),
      ((_, refl, refl, (refl, (refl, (refl, (refl, (refl, tt)))))), tt),
    ),
  )

  All-IsFound :
      (c : Catalogue) (ps : List Profile)
      → IsIndexed c
      → All IsListed ps
      → All (λ p. has_key p.id c.by_id ≡ true) ps
      → All (λ p. IsListed p × IsFound c p) ps
  unfolding is_profile_id find
  All-IsFound c [] i l h = tt
  All-IsFound c (p ∷ ps) i (good, l) (here, h) = ((good, find-IsFound), All-IsFound c ps i l h)
    where
      hex : all_hex p.id ≡ true
      hex = let valid = good.0 in ground arith

      find-IsFound : IsFound c p
      find-IsFound = elim (Option-cases (lookup p.id c.by_id)) [
        | inl missing ↦ absurd (ground arith)
        | inr (q, e) ↦ (
          q,
          ap (λ (id : Text). lookup id c.by_id) (lower-all_hex p.id hex) ∙ e,
          (i.found p.id q e).0,
        )
      ]

  -- Where SHA-256 gives 32 bytes and every agent of Chrome has a version: the catalogue is built without
  -- a panic; it lists each browser with each of its OSes once, in the order of `Families` and of the
  -- family; every id that it lists is one that the schema takes in `X-Tip-Profile`, and `Lookup` finds a
  -- profile with that id; and what `Lookup` finds for a text, in whatever case, has the text's lower case
  -- as its id, and is a browser with an OS of its family.
  pub build_catalogue-IsListed :
      (c : Catalogue) × (build_catalogue surf ≡ some c)
      × (map pair_of c.profiles ≡ pairs families)
      × All (λ p. IsListed p × IsFound c p) c.profiles
      × ((id : Text) (p : Profile) → find c id ≡ some p → (p.id ≡ lower id) × IsListed p)
  unfolding build_catalogue Grows lookup
  build_catalogue-IsListed =
      let (c, r, i, grown) =
        add_families-Grows families (record { revision = []; profiles = []; by_id = [] })
          families-IsKnown
          (record { listed = tt; found = λ id p h. absurd (ground arith); all_found = tt }) in
      let c' : Catalogue = record c { revision = short_sum surf c.revision } in
      let i' : IsIndexed c' = record {
        listed = i.listed;
        found = i.found;
        all_found = i.all_found;
      } in
      rw r (
        c',
        refl,
        grown,
        All-IsFound c' c.profiles i' i.listed i.all_found,
        λ id p h. i.found (lower id) p (unfold find in h),
      )
