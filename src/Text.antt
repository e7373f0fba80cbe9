-- ===== src/Text.antt =====
-- Go's strings and the functions of `strings`, `net/textproto` and `net` that the program calls.
-- A string is the list of its code points; letter case is that of ASCII.
use Prim.Native.Char.{code}
use Prim.Native.String.{String}
use tls_impersonate_proxy.Base.{
  ℕ, zero, suc, ltb, ◌/◌, ◌%◌, ◌+◌, ◌≡◌, refl, ◌↔◌, Bool, true, false, ◌&&◌, ◌||◌, Option, none,
  some, List, [], ◌∷◌, ◌++◌, ap, inl, inr, Bool-cases, arith, leb, keep, ◌==◌, if◌then◌else◌,
}

abbrev pub Text : Type 0
Text = List ℕ

-- The code points of a literal.
abbrev pub text : String → Text
text String.[] = []
text (String.◌∷◌ c s) = code c ∷ text s

unfoldable pub text_eq : Text → Text → Bool
text_eq [] [] = true
text_eq (a ∷ s) (b ∷ t) = a == b && text_eq s t
text_eq _ _ = false

text_eq_sound : (s t : Text) → text_eq s t ≡ true → s ≡ t
unfolding text_eq
text_eq_sound [] [] h = refl
text_eq_sound (a ∷ s) (b ∷ t) h = ground (arith, text_eq_sound s t)
text_eq_sound [] (b ∷ t) h = ground arith
text_eq_sound (a ∷ s) [] h = ground arith

pub text_eq_refl : (s : Text) → text_eq s s ≡ true
unfolding text_eq
text_eq_refl [] = refl
text_eq_refl (a ∷ s) = ground (arith, text_eq_refl s)

pub text_eq_iff : (s t : Text) → (text_eq s t ≡ true) ↔ (s ≡ t)
text_eq_iff s t = (text_eq_sound s t, λ e. ground (arith, text_eq_refl s))

-- `slices.Contains`
unfoldable pub contains_text : List Text → Text → Bool
contains_text [] t = false
contains_text (s ∷ ss) t = text_eq s t || contains_text ss t

-- `t` is among the texts.
abbrev pub In : List Text → Text → Type 0
In ts t = contains_text ts t ≡ true

pub In-keep :
    (p : Text → Bool) (ts : List Text) (t : Text) → In (keep p ts) t → In ts t × (p t ≡ true)
unfolding contains_text
In-keep p [] t h = absurd (ground arith)
In-keep p (s ∷ ss) t h = elim (Bool-cases (p s)) [
  | inr off ↦ let (i, q) = In-keep p ss t (ground arith) in (ground arith, q)
  | inl on ↦ elim (Bool-cases (text_eq s t)) [
    | inl same ↦ (ground arith, rw (← (text_eq_iff s t).0 same) on)
    | inr other ↦ let (i, q) = In-keep p ss t (ground arith) in (ground arith, q)
  ]
]

pub keep-In :
    (p : Text → Bool) (ts : List Text) (t : Text) → In ts t → p t ≡ true → In (keep p ts) t
unfolding contains_text
keep-In p [] t h q = absurd (ground arith)
keep-In p (s ∷ ss) t h q = elim (Bool-cases (text_eq s t)) [
  | inl same ↦ ground (arith, (text_eq_iff s t).0 same)
  | inr other ↦ ground (arith, keep-In p ss t)
]

-- `strings.ToLower`
abbrev pub lower_char : ℕ → ℕ
lower_char c = if leb b'A' c && leb c b'Z' then c + 32 else c

unfoldable pub lower : Text → Text
lower [] = []
lower (c ∷ s) = lower_char c ∷ lower s

pub lower_idem : (s : Text) → lower (lower s) ≡ lower s
unfolding lower
lower_idem [] = refl
lower_idem (c ∷ s) = ground (arith, lower_idem s)

-- `strings.EqualFold`
abbrev pub equal_fold : Text → Text → Bool
equal_fold s t = text_eq (lower s) (lower t)

-- `unicode.IsSpace`
unfoldable pub is_space : ℕ → Bool
is_space c =
    (leb 9 c && leb c 13)
    || c == 32
    || c == 0x85
    || c == 0xa0
    || c == 0x1680
    || (leb 0x2000 c && leb c 0x200a)
    || c == 0x2028
    || c == 0x2029
    || c == 0x202f
    || c == 0x205f
    || c == 0x3000

-- `textproto.TrimString` trims these.
unfoldable pub is_ascii_space : ℕ → Bool
is_ascii_space c = c == 32 || c == 9 || c == 10 || c == 13

module _ (space : ℕ → Bool) where
  unfoldable pub trim_left : Text → Text
  trim_left [] = []
  trim_left (c ∷ s) = if space c then trim_left s else c ∷ s

  abbrev drop_space : ℕ → Text → Text
  drop_space c [] = if space c then [] else c ∷ []
  drop_space c (d ∷ s) = c ∷ d ∷ s

  unfoldable pub trim_right : Text → Text
  trim_right [] = []
  trim_right (c ∷ s) = drop_space c (trim_right s)

  unfoldable pub trim : Text → Text
  unfolding trim_left trim_right
  trim s = trim_right (trim_left s)

-- `strings.TrimSpace` and `textproto.TrimString`
unfoldable pub trim_space : Text → Text
unfolding trim is_space
trim_space s = trim is_space s

unfoldable pub trim_string : Text → Text
unfolding trim is_ascii_space
trim_string s = trim is_ascii_space s

-- `strings.Split` at one character.
abbrev push : ℕ → List Text → List Text
push c [] = (c ∷ []) ∷ []
push c (p ∷ ps) = (c ∷ p) ∷ ps

unfoldable pub split : ℕ → Text → List Text
split sep [] = [] ∷ []
split sep (c ∷ s) = let rest = split sep s in if c == sep then [] ∷ rest else push c rest

-- `strings.Join`
unfoldable pub join : Text → List Text → Text
join sep [] = []
join sep (s ∷ []) = s
join sep (s ∷ t ∷ rest) = s ++ (sep ++ join sep (t ∷ rest))

-- `strings.Cut` at one character; `none` where it is not found.
abbrev pub cut_behind : ℕ → Option (Text × Text) → Option (Text × Text)
cut_behind c none = none
cut_behind c (some (a, b)) = some (c ∷ a, b)

unfoldable pub cut : ℕ → Text → Option (Text × Text)
cut sep [] = none
cut sep (c ∷ s) = let rest = cut sep s in if c == sep then some ([], s) else cut_behind c rest

abbrev pub cut_head : ℕ → Text → Text
cut_head sep s = elim (cut sep s) [ none ↦ s | some (a, b) ↦ a ]

-- `strings.CutPrefix`, `HasPrefix`, `HasSuffix`, `Contains`
unfoldable pub cut_prefix : Text → Text → Option Text
cut_prefix [] s = some s
cut_prefix (p ∷ ps) [] = none
cut_prefix (p ∷ ps) (c ∷ s) = if p == c then cut_prefix ps s else none

abbrev pub has_prefix : Text → Text → Bool
has_prefix p s = elim (cut_prefix p s) [ none ↦ false | some _ ↦ true ]

unfoldable pub has_suffix : Text → Text → Bool
has_suffix suffix [] = text_eq suffix []
has_suffix suffix (c ∷ s) = text_eq suffix (c ∷ s) || has_suffix suffix s

unfoldable pub contains : Text → Text → Bool
contains part [] = has_prefix part []
contains part (c ∷ s) = has_prefix part (c ∷ s) || contains part s

pub cut_prefix_sound : (p s t : Text) → cut_prefix p s ≡ some t → s ≡ p ++ t
unfolding cut_prefix
cut_prefix_sound [] s t h = ground arith
cut_prefix_sound (p ∷ ps) [] t h = ground arith
cut_prefix_sound (p ∷ ps) (c ∷ s) t h = ground (arith, cut_prefix_sound ps s t)

pub cut_prefix-append : (p t : Text) → cut_prefix p (p ++ t) ≡ some t
unfolding cut_prefix
cut_prefix-append [] t = refl
cut_prefix-append (p ∷ ps) t = ground (arith, cut_prefix-append ps t)

pub has_suffix_sound : (u s : Text) → has_suffix u s ≡ true → (t : Text) × (s ≡ t ++ u)
unfolding has_suffix
has_suffix_sound u [] h = ([], ground (arith, text_eq_iff u []))
has_suffix_sound u (c ∷ s) h = elim (Bool-cases (text_eq u (c ∷ s))) [
  | inl same ↦ ([], ground (arith, text_eq_iff u (c ∷ s)))
  | inr other ↦ let (t, e) = has_suffix_sound u s (ground arith) in (c ∷ t, ap (◌∷◌ c) e)
]

pub has_suffix-append : (t u : Text) → has_suffix u (t ++ u) ≡ true
unfolding has_suffix text_eq
has_suffix-append [] [] = refl
has_suffix-append [] (c ∷ u) = ground (arith, text_eq_refl (c ∷ u))
has_suffix-append (c ∷ t) u = ground (arith, has_suffix-append t u)

-- The order of Go strings.
unfoldable pub text_le : Text → Text → Bool
text_le [] t = true
text_le (a ∷ s) [] = false
text_le (a ∷ s) (b ∷ t) = if a == b then text_le s t else leb a b

-- `%d` of a number, as `strconv.Itoa` writes it. The fuel counts digits.
unfoldable pub digits_from : ℕ → ℕ → Text → Text
digits_from zero n out = out
digits_from (suc fuel) n out =
    let out' = (b'0' + n % 10) ∷ out in
    let rest = digits_from fuel (n / 10) out' in if ltb n 10 then out' else rest

unfoldable pub itoa : ℕ → Text
unfolding digits_from
itoa n = digits_from (suc n) n []
