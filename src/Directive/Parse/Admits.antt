-- ===== src/Directive/Parse/Admits.antt =====
-- internal/directive/parse.go: what an accepted request has passed, and what refuses one.
use tls_impersonate_proxy.Base.{
  ◌≡◌, refl, ◌≢◌, ◌⊎◌, ◌↔◌, inl, inr, true, false, List, [], ◌∷◌, ◌++◌, arith, is_nil, Bool-cases,
  List-cases, All, Has, append_assoc, append-nil, sym, ◌∙◌,
}
use tls_impersonate_proxy.Text.{Text, text_eq, text_eq_iff, contains_text, lower}
use tls_impersonate_proxy.Assoc.{lookup, put, has_key, lookup-put}
use tls_impersonate_proxy.Directive.Types.{Directive, zero_directive, Issue, is_from_request}
use tls_impersonate_proxy.Directive.Names.{is_known}
use tls_impersonate_proxy.Directive.Policy.{Policy, Shaped, denied, proxy_allowed}
use tls_impersonate_proxy.Directive.Parse.{
  Values, Header, Outcome, Outcome-cases, Library, Verdict, is_prefixed, key_of, shape_value,
  read_header, read_headers, keys, proxy_issues, finish, parse, from_zog, merge,
}

module _ (lib : Library) (p : Policy) where
  -- A header that names a known directive which is not denied, with values that have its shape.
  abbrev pub IsAdmitted : Text × Values → Type 0
  IsAdmitted h =
      is_prefixed h.0 ≡ true
      → (is_known (key_of h.0) ≡ true)
        × (denied p (key_of h.0) ≡ false)
        × ((s : Shaped) × (shape_value lib (key_of h.0) h.1 ≡ Outcome.ok s))

  -- The issue of one header, if it has one.
  abbrev issues_of : Verdict lib → List Issue
  issues_of (Verdict.refused i) = i ∷ []
  issues_of v = []

  abbrev pub refusal : Text × Values → List Issue
  refusal h = issues_of (read_header lib p h)

  abbrev pub refusals : Header → List Issue
  refusals [] = []
  refusals (h ∷ hs) = refusal h ++ refusals hs

  pub refusal-IsAdmitted : (h : Text × Values) → refusal h ≡ [] → IsAdmitted h
  unfolding read_header
  refusal-IsAdmitted (name, values) e prefixed =
      elim (Outcome-cases (shape_value lib (key_of name) values)) [
        | inl (s, f) ↦ (ground arith, ground arith, (s, f))
        | inr (m, f) ↦ absurd (ground arith)
      ]

  refusals-IsAdmitted : (hs : Header) → refusals hs ≡ [] → All IsAdmitted hs
  refusals-IsAdmitted [] e = tt
  refusals-IsAdmitted (h ∷ hs) e = elim (List-cases (refusal h)) [
    | inl none_here ↦ (refusal-IsAdmitted h none_here, refusals-IsAdmitted hs (rw none_here at e))
    | inr (i, is, some_here) ↦ absurd (ground arith)
  ]

  Verdict-cases :
      (v : Verdict lib)
      → (v ≡ Verdict.other)
        ⊎ (((i : Issue) × (v ≡ Verdict.refused i))
            ⊎ ((key : Text) × (s : Shaped) × (v ≡ Verdict.accepted key s)))
  Verdict-cases Verdict.other = inl refl
  Verdict-cases (Verdict.refused i) = inr (inl (i, refl))
  Verdict-cases (Verdict.accepted key s) = inr (inr (key, s, refl))

  -- The header at the head is read, and the loop goes on.
  abbrev next_req : Verdict lib → List (Text × Shaped) → List (Text × Shaped)
  next_req (Verdict.accepted key s) req = put key s req
  next_req v req = req

  abbrev next_issues : Verdict lib → List Issue → List Issue
  next_issues (Verdict.refused i) issues = issues ++ i ∷ []
  next_issues v issues = issues

  read_headers_step :
      (h : Text × Values) (hs : Header) (req : List (Text × Shaped)) (issues : List Issue)
      → read_headers lib p (h ∷ hs) req issues
        ≡ read_headers lib p hs
            (next_req (read_header lib p h) req)
            (next_issues (read_header lib p h) issues)
  unfolding read_headers
  read_headers_step h hs req issues = elim (Verdict-cases (read_header lib p h)) [
    | inl e ↦ rw (e, read_headers)
    | inr (inl (i, e)) ↦ rw (e, read_headers)
    | inr (inr (key, s, e)) ↦ rw (e, read_headers)
  ]

  pub read_headers-issues :
      (hs : Header) (req : List (Text × Shaped)) (issues : List Issue)
      → (read_headers lib p hs req issues).1 ≡ issues ++ refusals hs
  read_headers-issues [] req issues = unfold read_headers in sym (append-nil issues)
  read_headers-issues (h ∷ hs) req issues =
      let v = read_header lib p h in
      let ih = read_headers-issues hs (next_req v req) (next_issues v issues) in
      rw read_headers_step (ih ∙ shift)
    where
      shift : next_issues (read_header lib p h) issues ++ refusals hs ≡ issues ++ refusals (h ∷ hs)
      shift = elim (Verdict-cases (read_header lib p h)) [
        | inl e ↦ rw e
        | inr (inl (i, e)) ↦ rw e (append_assoc issues (i ∷ []) (refusals hs))
        | inr (inr (key, s, e)) ↦ rw e
      ]

  -- Some directive of the request has the key.
  abbrev pub Names : Text → Header → Type 0
  Names key hs = Has (λ h. (is_prefixed h.0 ≡ true) × (key_of h.0 ≡ key)) hs

  read_header-accepted :
      (h : Text × Values)
      → is_prefixed h.0 ≡ true
      → refusal h ≡ []
      → (s : Shaped) × (read_header lib p h ≡ Verdict.accepted (key_of h.0) s)
  unfolding read_header
  read_header-accepted (name, values) e none_here =
      let (known, free, (s, f)) = refusal-IsAdmitted (name, values) none_here e in (s, ground arith)

  read_header-other :
      (h : Text × Values) → is_prefixed h.0 ≡ false → read_header lib p h ≡ Verdict.other
  unfolding read_header
  read_header-other (name, values) e = ground arith

  -- The keys that the loop collects are those that it began with and those of the directives.
  read_headers-keys :
      (key : Text) (hs : Header) (req : List (Text × Shaped)) (issues : List Issue)
      → refusals hs ≡ []
      → (has_key key (read_headers lib p hs req issues).0 ≡ true)
        ↔ ((has_key key req ≡ true) ⊎ Names key hs)
  read_headers-keys key [] req issues e =
      unfold read_headers in (λ h. inl h, λ h. elim h [ inl q ↦ q | inr q ↦ absurd q ])
  read_headers-keys key (h ∷ hs) req issues e = elim (List-cases (refusal h)) [
    | inr (i, is, some_here) ↦ absurd (ground arith)
    | inl none_here ↦ elim (Bool-cases (is_prefixed h.0)) [
      | inr off ↦
          let v = read_header-other h off in
          let ih = read_headers-keys key hs req issues (rw none_here at e) in
          rw (read_headers_step, v)
            (
              λ q. elim (ih.0 q) [ inl a ↦ inl a | inr b ↦ inr (inr b) ],
              λ q. elim q [
                | inl a ↦ ih.1 (inl a)
                | inr (inl (p, b)) ↦ cc
                | inr (inr b) ↦ ih.1 (inr b)
              ],
            )
      | inl on ↦
          let (s, v) = read_header-accepted h on none_here in
          let ih = read_headers-keys key hs (put (key_of h.0) s req) issues (rw none_here at e) in
          let l = lookup-put (key_of h.0) key s req in
          let t = text_eq_iff (key_of h.0) key in
          rw (read_headers_step, v)
            (
              λ q. elim (ih.0 q) [
                | inl a ↦ elim (Bool-cases (text_eq (key_of h.0) key)) [
                  | inl same ↦ inr (inl (on, t.0 same))
                  | inr apart ↦ inl (ground arith)
                ]
                | inr b ↦ inr (inr b)
              ],
              λ q. elim q [
                | inl a ↦ ih.1 (inl (ground arith))
                | inr (inl (p, b)) ↦ ih.1 (inl (ground arith))
                | inr (inr b) ↦ ih.1 (inr b)
              ],
            )
    ]
  ]

contains-keys {ℓ} :
    {V : Type ℓ} (key : Text) (m : List (Text × V)) → contains_text (keys m) key ≡ has_key key m
unfolding contains_text keys lookup
contains-keys key [] = refl
contains-keys key ((k, v) ∷ m) = ground (arith, contains-keys key m)

append-eq-nil {ℓ} : {A : Type ℓ} (xs ys : List A) → xs ++ ys ≡ [] → (xs ≡ []) × (ys ≡ [])
append-eq-nil [] ys h = (refl, h)
append-eq-nil (x ∷ xs) ys h = absurd (ground arith)

module _ (lib : Library) (p : Policy) (req : List (Text × Shaped)) (issues : List Issue) where
  -- An accepted end of `Parse`.
  finish-accepts :
      (d : Directive)
      → finish lib p req issues ≡ (d, [])
      → (issues ≡ [])
        × (d.from_request ≡ keys req)
        × (d.proxy ≡ [] → p.require_proxy ≡ false)
        × (d.proxy ≢ [] → proxy_allowed lib.url_parse p d.proxy ≡ true)
  unfolding finish proxy_issues
  finish-accepts d e =
      let (d', found) = lib.schema_parse (merge p.defaults req) in
      elim (Bool-cases (is_nil (issues ++ from_zog found))) [
        | inr some_issue ↦ absurd (ground arith)
        | inl no_issue ↦
            let none_left : issues ++ from_zog found ≡ [] = ground arith in
            elim (Bool-cases (is_nil (proxy_issues lib p d'))) [
              | inr refused ↦ absurd (ground arith)
              | inl passed ↦
                  let same : record d' { from_request = keys req } ≡ d = ground arith in
                  (
                    (append-eq-nil issues (from_zog found) none_left).0,
                    ground arith,
                    λ q. ground arith,
                    λ q. ground arith,
                  )
            ]
      ]

  -- With issues of the headers, `Parse` ends with those first, and with no directive.
  pub finish-refuses :
      issues ≢ []
      → ((finish lib p req issues).0 ≡ zero_directive)
        × ((later : List Issue) × ((finish lib p req issues).1 ≡ issues ++ later))
  unfolding finish
  finish-refuses n = elim (List-cases issues) [
    | inl e ↦ absurd (n e)
    | inr (i, is, e) ↦
        (ground arith, (from_zog (lib.schema_parse (merge p.defaults req)).1, ground arith))
  ]

-- `Parse` accepts a request only if every `X-Tip-*` header of it names a known directive that is not
-- denied, with values of its shape; if a required proxy is there; and if the proxy, where there is one,
-- is among the allowed ones. A directive then counts as the request's exactly if some header of the
-- request names it, in any case.
pub parse-IsAdmitted :
    (lib : Library) (h : Header) (p : Policy) (d : Directive)
    → parse lib h p ≡ (d, [])
    → All (IsAdmitted lib p) h
      × (d.proxy ≡ [] → p.require_proxy ≡ false)
      × (d.proxy ≢ [] → proxy_allowed lib.url_parse p d.proxy ≡ true)
      × ((name : Text) → (is_from_request d name ≡ true) ↔ Names lib p (lower name) h)
unfolding parse is_from_request lookup
parse-IsAdmitted lib h p d e =
    let (req, issues) = read_headers lib p h [] [] in
    let (clean, from, required, allowed) = finish-accepts lib p req issues d e in
    let none_refused : refusals lib p h ≡ [] = sym (read_headers-issues lib p h [] []) ∙ clean in
    (
      refusals-IsAdmitted lib p h none_refused,
      required,
      allowed,
      λ name.
          let k = read_headers-keys lib p (lower name) h [] [] none_refused in
          let c = contains-keys (lower name) req in
          (
            λ q. elim (k.0 (sym c ∙ (rw (← from) q))) [ inl a ↦ absurd (ground arith) | inr b ↦ b ],
            λ q. rw from (c ∙ k.1 (inr q)),
          ),
    )
