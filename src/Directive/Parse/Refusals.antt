-- ===== src/Directive/Parse/Refusals.antt =====
-- internal/directive/parse.go: which requests are refused, and what is said of their directives.
use tls_impersonate_proxy.Base.{
  ◌≡◌, refl, ◌≢◌, ◌⊎◌, inl, inr, true, false, List, [], ◌∷◌, ◌++◌, arith, List-cases, All, Has, sym,
  ap, ◌∙◌,
}
use tls_impersonate_proxy.Text.{Text, text}
use tls_impersonate_proxy.Directive.Types.{zero_directive, Issue}
use tls_impersonate_proxy.Directive.Names.{is_known, official_name}
use tls_impersonate_proxy.Directive.Policy.{Policy, denied}
use tls_impersonate_proxy.Directive.Parse.{
  Values, Header, Outcome, Library, key_of, shape_value, read_header, read_headers, parse,
}
use tls_impersonate_proxy.Directive.Parse.Strip.{IsDirectiveName, is_prefixed_iff}
use tls_impersonate_proxy.Directive.Parse.Admits.{
  refusal, refusals, refusal-IsAdmitted, read_headers-issues, finish-refuses,
}

-- The header's name begins with `X-Tip-`, and its directive is unknown, denied or badly shaped.
abbrev pub IsRefused : Library → Policy → Text × Values → Type 0
IsRefused lib p e =
    IsDirectiveName e.0
    × ((is_known (key_of e.0) ≡ false)
        ⊎ ((denied p (key_of e.0) ≡ true)
            ⊎ ((m : Text) × (shape_value lib (key_of e.0) e.1 ≡ Outcome.err m))))

-- What is said of a directive: the first of three complaints, or none.
abbrev pub Answers : Library → Policy → Text × Values → Type 0
Answers lib p e =
    (is_known (key_of e.0) ≡ false
      → refusal lib p e ≡ record { path = e.0; message = text "unknown directive" } ∷ [])
    × (is_known (key_of e.0) ≡ true
        → denied p (key_of e.0) ≡ true
        → refusal lib p e
          ≡ record {
            path = official_name (key_of e.0);
            message = text "not permitted by this proxy";
          }
            ∷ [])
    × ((m : Text)
        → is_known (key_of e.0) ≡ true
        → denied p (key_of e.0) ≡ false
        → shape_value lib (key_of e.0) e.1 ≡ Outcome.err m
        → refusal lib p e ≡ record { path = official_name (key_of e.0); message = m } ∷ [])

module _ (lib : Library) (p : Policy) where
  refusal-Answers : (e : Text × Values) → IsDirectiveName e.0 → Answers lib p e
  unfolding read_header
  refusal-Answers (name, values) d =
      let on = (is_prefixed_iff name).1 d in
      (
        λ unknown. rw (on, unknown) refl,
        λ known banned. rw (on, known, banned) refl,
        λ m known yes bad. rw (on, known, yes, bad) refl,
      )

  all-Answers : (h : Header) → All (λ e. IsDirectiveName e.0 → Answers lib p e) h
  all-Answers [] = tt
  all-Answers (e ∷ h) = (refusal-Answers e, all-Answers h)

  refusal-IsRefused : (e : Text × Values) → IsRefused lib p e → refusal lib p e ≢ []
  refusal-IsRefused e (d, bad) none_here =
      let (known, free, (s, fine)) =
        refusal-IsAdmitted lib p e none_here ((is_prefixed_iff e.0).1 d) in
      elim bad [
        | inl unknown ↦ absurd (ground arith)
        | inr (inl banned) ↦ absurd (ground arith)
        | inr (inr (m, f)) ↦ absurd (ground arith)
      ]

  refusals-IsRefused : (h : Header) → Has (IsRefused lib p) h → refusals lib p h ≢ []
  refusals-IsRefused [] bad q = bad
  refusals-IsRefused (e ∷ h) (inl bad) q = elim (List-cases (refusal lib p e)) [
    | inl none_here ↦ refusal-IsRefused e bad none_here
    | inr (i, is, some_here) ↦ absurd (ground arith)
  ]
  refusals-IsRefused (e ∷ h) (inr later) q = elim (List-cases (refusal lib p e)) [
    | inl none_here ↦ refusals-IsRefused h later (rw none_here at q)
    | inr (i, is, some_here) ↦ absurd (ground arith)
  ]

-- A request with a header whose name begins with `X-Tip-`, in any case, and whose directive is unknown,
-- denied or badly shaped is refused: it gives no directive, and its issues begin with those of the headers
-- that are read, in their order. A directive's own issue is that it is unknown; or if it is known, that it
-- is not permitted; or if it is permitted, what is wrong with its shape.
pub parse-refuses :
    (lib : Library) (h : Header) (p : Policy)
    → Has (IsRefused lib p) h
    → ((parse lib h p).0 ≡ zero_directive)
      × ((later : List Issue) × ((parse lib h p).1 ≡ refusals lib p h ++ later))
      × (refusals lib p h ≢ [])
      × All (λ e. IsDirectiveName e.0 → Answers lib p e) h
unfolding parse
parse-refuses lib h p bad =
    let (req, issues) = read_headers lib p h [] [] in
    let same = read_headers-issues lib p h [] [] in
    let n = refusals-IsRefused lib p h bad in
    let (z, (later, e)) = finish-refuses lib p req issues (λ q. n (sym same ∙ q)) in
    (z, (later, e ∙ ap (λ (xs : List Issue). xs ++ later) same), n, all-Answers lib p h)
