-- ===== src/Directive/Parse/Strip.antt =====
-- internal/directive/parse.go: `Strip` and the precedence of the request over the defaults.
use tls_impersonate_proxy.Base.{
  ℕ, zero, suc, length, ap, sym, ◌∙◌, ◌++◌, ◌↔◌, ◌≡◌, refl, inl, inr, true, false, none, some, List,
  [], ◌∷◌, arith, if◌then◌else◌, Bool-cases, All,
}
use tls_impersonate_proxy.Text.{Text, text, text_eq, text_eq_iff, lower}
use tls_impersonate_proxy.Assoc.{lookup, has_key, lookup-put}
use tls_impersonate_proxy.Directive.Parse.{
  is_prefixed, prefix, take, drop, displaced, kept_defaults, copy, merge, strip,
}

-- The name begins with `X-Tip-`, in any case.
abbrev pub IsDirectiveName : Text → Type 0
IsDirectiveName name = (p : Text) × (rest : Text) × (name ≡ p ++ rest) × (lower p ≡ text "x-tip-")

take-drop : (n : ℕ) (s : Text) → s ≡ take n s ++ drop n s
unfolding take drop
take-drop zero s = refl
take-drop (suc n) [] = refl
take-drop (suc n) (c ∷ s) = ap (λ (t : Text). c ∷ t) (take-drop n s)

take-append : (p rest : Text) → take (length p) (p ++ rest) ≡ p
unfolding take
take-append [] rest = refl
take-append (c ∷ p) rest = ap (λ (t : Text). c ∷ t) (take-append p rest)

length-lower : (s : Text) → length (lower s) ≡ length s
unfolding lower
length-lower [] = refl
length-lower (c ∷ s) = omega (arith, length-lower s)

lower-prefix : lower prefix ≡ text "x-tip-"
unfolding lower
lower-prefix = refl

pub is_prefixed_iff : (name : Text) → (is_prefixed name ≡ true) ↔ IsDirectiveName name
unfolding is_prefixed
is_prefixed_iff name = (
  λ h. (
    take 6 name,
    drop 6 name,
    take-drop 6 name,
    (text_eq_iff (lower (take 6 name)) (lower prefix)).0 h ∙ lower-prefix,
  ),
  λ (p, rest, e, f).
      let six : length p ≡ 6 = sym (length-lower p) ∙ ap length f in
      let front : take 6 name ≡ p =
        ap (take 6) e ∙ (ap (λ n. take n (p ++ rest)) (sym six) ∙ take-append p rest) in
      (text_eq_iff (lower (take 6 name)) (lower prefix)).1
        (ap lower front ∙ (f ∙ sym lower-prefix)),
)

pub strip-All {ℓ} :
    {V : Type ℓ} (h : List (Text × V)) → All (λ e. is_prefixed e.0 ≡ false) (strip h)
unfolding strip
strip-All [] = tt
strip-All ((n, v) ∷ h) = elim (Bool-cases (is_prefixed n)) [
  | inl gone ↦ rw gone (strip-All h)
  | inr kept ↦ rw kept (kept, strip-All h)
]

lookup-strip_any {ℓ} :
    {V : Type ℓ} (name : Text) (h : List (Text × V))
    → lookup name (strip h) ≡ (if is_prefixed name then none else lookup name h)
unfolding strip lookup
lookup-strip_any name [] = ground arith
lookup-strip_any name ((n, v) ∷ h) = elim (Bool-cases (is_prefixed n)) [
  | inl gone ↦ rw gone (ground (arith, lookup-strip_any name h, text_eq_iff n name))
  | inr kept ↦ rw kept (ground (arith, lookup-strip_any name h, text_eq_iff n name))
]

unnamed {ℓ} :
    {V : Type ℓ} (es : List (Text × V))
    → All (λ e. is_prefixed e.0 ≡ false) es
    → All (λ e. ¬ IsDirectiveName e.0) es
unnamed [] a = tt
unnamed (e ∷ es) (off, a) =
    (λ d. let on = (is_prefixed_iff e.0).1 d in absurd (ground arith), unnamed es a)

-- `Strip` leaves exactly the headers whose names do not begin with `X-Tip-`, in any case, with their
-- values, and no header that does.
pub lookup-strip {ℓ} :
    {V : Type ℓ} (name : Text) (h : List (Text × V))
    → (IsDirectiveName name → lookup name (strip h) ≡ none)
      × (¬ IsDirectiveName name → lookup name (strip h) ≡ lookup name h)
      × All (λ e. ¬ IsDirectiveName e.0) (strip h)
lookup-strip name h = (
  λ d. lookup-strip_any name h ∙ rw ((is_prefixed_iff name).1 d) refl,
  λ n. elim (Bool-cases (is_prefixed name)) [
    | inl on ↦ absurd (n ((is_prefixed_iff name).0 on))
    | inr off ↦ lookup-strip_any name h ∙ rw off refl
  ],
  unnamed (strip h) (strip-All h),
)

lookup-copy {ℓ} :
    {V : Type ℓ} (key : Text) (src into : List (Text × V))
    → lookup key (copy src into)
      ≡ (elim (lookup key src) [ some v ↦ some v | none ↦ lookup key into ])
unfolding copy lookup
lookup-copy key [] into = refl
lookup-copy key ((k, v) ∷ src) into =
    ground (arith, lookup-put k key v (copy src into), lookup-copy key src into)

lookup-kept {ℓ} :
    {V : Type ℓ} (key : Text) (req defaults : List (Text × V))
    → lookup key (kept_defaults req defaults)
      ≡ (if displaced req key then none else lookup key defaults)
unfolding kept_defaults lookup
lookup-kept key req [] = ground arith
lookup-kept key req ((k, v) ∷ defaults) = ground (
  arith,
  lookup-put k key v (kept_defaults req defaults),
  lookup-kept key req defaults,
  text_eq_iff k key,
)

-- What the schema is given: the request's value of a directive if it names it; else the default, unless
-- the request names a directive of the other identity group.
pub lookup-merge {ℓ} :
    {V : Type ℓ} (key : Text) (defaults req : List (Text × V))
    → lookup key (merge defaults req) ≡ (elim (lookup key req) [
      | some v ↦ some v
      | none ↦ if displaced req key then none else lookup key defaults
    ])
unfolding merge
lookup-merge key defaults req =
    ground (arith, lookup-copy key req (kept_defaults req defaults), lookup-kept key req defaults)

-- `Profile` and one of `Browser`, `Os` and `Match` are never both set.
abbrev pub IsExclusive {ℓ} : {V : Type ℓ} → List (Text × V) → Type 0
IsExclusive m =
    has_key (text "profile") m ≡ true
    → (has_key (text "browser") m ≡ false)
      × (has_key (text "os") m ≡ false)
      × (has_key (text "match") m ≡ false)

-- Defaults and a request that each keep to one identity group are merged into one that does, and the
-- group is the request's where the request names one.
pub merge-IsExclusive {ℓ} :
    {V : Type ℓ} (defaults req : List (Text × V))
    → IsExclusive defaults
    → IsExclusive req
    → IsExclusive (merge defaults req)
unfolding displaced text_eq
merge-IsExclusive defaults req d r h = ground (
  arith,
  d,
  r,
  lookup-merge (text "profile") defaults req,
  lookup-merge (text "browser") defaults req,
  lookup-merge (text "os") defaults req,
  lookup-merge (text "match") defaults req,
)
