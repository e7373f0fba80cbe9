-- ===== src/Directive/Schema/Numbers.antt =====
-- internal/directive/schema.go: the bounds of the numbers that the coercers accept, and that they read
-- what `strconv.Itoa` writes.
use tls_impersonate_proxy.Base.{
  ℕ, zero, suc, ◌+◌, ◌*◌, ◌/◌, ◌%◌, ◌<◌, ◌^◌, ◌≡◌, refl, inl, inr, Bool, false, some, [], ◌∷◌,
  arith, ltb, is_nil, ◌∙◌, ap, any, Bool-cases, Option-cases, if◌then◌else◌,
}
use tls_impersonate_proxy.Text.{
  Text, text, digits_from, itoa, trim_left, trim_right, trim_space, is_space,
}
use tls_impersonate_proxy.Directive.Parse.{Outcome}
use tls_impersonate_proxy.Directive.Schema.{
  is_digit, digits_value, below, parse_uint, reported, uint32_of, uint64_of,
}

-- A digit in front of what is read already.
digits_value-cons :
    (n d : ℕ) (s : Text) → d < 10 → digits_value n ((b'0' + d) ∷ s) ≡ digits_value (n * 10 + d) s
unfolding digits_value is_digit
digits_value-cons n d s h = ground arith

-- Reading the digits that are written in front of `out`, from 0, is reading `out` from `n`.
digits_value-digits_from :
    (fuel n : ℕ) (out : Text)
    → n < fuel
    → digits_value 0 (digits_from fuel n out) ≡ digits_value n out
unfolding digits_from
digits_value-digits_from zero n out h = absurd (omega arith)
digits_value-digits_from (suc fuel) n out h = elim (Bool-cases (ltb n 10)) [
  | inl small ↦ rw small (
      digits_value-cons 0 (n % 10) out (omega arith)
      ∙ ap (λ (k : ℕ). digits_value k out) (ground arith))
  | inr large ↦ rw large (
      digits_value-digits_from fuel (n / 10) ((b'0' + n % 10) ∷ out) (ground arith)
      ∙ (digits_value-cons (n / 10) (n % 10) out (omega arith)
          ∙ ap (λ (k : ℕ). digits_value k out) (omega arith)))
]

digits_value-itoa : (n : ℕ) → digits_value 0 (itoa n) ≡ some n
unfolding itoa
digits_value-itoa n =
    digits_value-digits_from (suc n) n [] (omega arith) ∙ unfold digits_value in refl

-- Trimming leaves a text without spaces as it is.
trim_left-no_space : (space : ℕ → Bool) (s : Text) → any space s ≡ false → trim_left space s ≡ s
unfolding trim_left
trim_left-no_space space [] h = refl
trim_left-no_space space (c ∷ s) h = ground arith

trim_right-no_space : (space : ℕ → Bool) (s : Text) → any space s ≡ false → trim_right space s ≡ s
unfolding trim_right
trim_right-no_space space [] h = refl
trim_right-no_space space (c ∷ []) h = ground arith
trim_right-no_space space (c ∷ d ∷ s) h =
    let ih = trim_right-no_space space (d ∷ s) (ground arith) in rw ih

trim_space-no_space : (s : Text) → any is_space s ≡ false → trim_space s ≡ s
unfolding trim_space
trim_space-no_space s h = rw (trim_left-no_space is_space s h) (trim_right-no_space is_space s h)

digit-no_space : (d : ℕ) → d < 10 → is_space (b'0' + d) ≡ false
unfolding is_space
digit-no_space d h = ground arith

digits_from-no_space :
    (fuel n : ℕ) (out : Text)
    → any is_space out ≡ false
    → any is_space (digits_from fuel n out) ≡ false
unfolding digits_from
digits_from-no_space zero n out h = h
digits_from-no_space (suc fuel) n out h =
    let here = digit-no_space (n % 10) (omega arith) in
    let rest = digits_from-no_space fuel (n / 10) ((b'0' + n % 10) ∷ out) (rw here h) in
    elim (Bool-cases (ltb n 10)) [ inl small ↦ rw (small, here) h | inr large ↦ rw large rest ]

trim_space-itoa : (n : ℕ) → trim_space (itoa n) ≡ itoa n
trim_space-itoa n =
    trim_space-no_space (itoa n) (unfold itoa in digits_from-no_space (suc n) n [] refl)

is_nil-digits_from :
    (fuel n : ℕ) (c : ℕ) (out : Text) → is_nil (digits_from fuel n (c ∷ out)) ≡ false
unfolding digits_from
is_nil-digits_from zero n c out = refl
is_nil-digits_from (suc fuel) n c out = elim (Bool-cases (ltb n 10)) [
  | inl small ↦ rw small
  | inr large ↦ rw large (is_nil-digits_from fuel (n / 10) (b'0' + n % 10) (c ∷ out))
]

is_nil-itoa : (n : ℕ) → is_nil (itoa n) ≡ false
unfolding itoa digits_from
is_nil-itoa n = elim (Bool-cases (ltb n 10)) [
  | inl small ↦ rw small
  | inr large ↦ rw large (is_nil-digits_from n (n / 10) (b'0' + n % 10) [])
]

parse_uint-itoa : (limit n : ℕ) → parse_uint limit (itoa n) ≡ below limit n
unfolding parse_uint
parse_uint-itoa limit n = rw (is_nil-itoa n, digits_value-itoa n)

parse_uint-lt : (limit n : ℕ) (s : Text) → parse_uint limit s ≡ some n → n < limit
unfolding parse_uint
parse_uint-lt limit n s h = ground arith

-- An outcome that is a number is below the limit.
abbrev pub IsBelow : ℕ → Outcome ℕ → Type 0
IsBelow limit (Outcome.ok n) = n < limit
IsBelow limit (Outcome.err message) = Unit

reported-IsBelow : (limit : ℕ) (m s : Text) → IsBelow limit (reported m (parse_uint limit s))
reported-IsBelow limit m s = elim (Option-cases (parse_uint limit s)) [
  | inl e ↦ rw e tt
  | inr (n, e) ↦ rw e (parse_uint-lt limit n s e)
]

-- The coercers of the 32-bit and of the 64-bit settings accept no text as a number that does not fit;
-- they read back every number that fits as it is written in decimal, and refuse every written number
-- that does not fit.
pub uint_of-itoa :
    (s : Text) (n : ℕ)
    → IsBelow (2 ^ 32) (uint32_of s)
      × IsBelow (2 ^ 64) (uint64_of s)
      × (uint32_of (itoa n) ≡ (
          if ltb n (2 ^ 32)
          then Outcome.ok n
          else Outcome.err (text "must be an unsigned 32-bit integer")))
      × (uint64_of (itoa n) ≡ (
          if ltb n (2 ^ 64)
          then Outcome.ok n
          else Outcome.err (text "must be an unsigned 64-bit integer")))
unfolding uint32_of uint64_of
uint_of-itoa s n = (
  reported-IsBelow (2 ^ 32) _ (trim_space s),
  reported-IsBelow (2 ^ 64) _ (trim_space s),
  rw (trim_space-itoa n, parse_uint-itoa) (ground arith),
  rw (trim_space-itoa n, parse_uint-itoa) (ground arith),
)
