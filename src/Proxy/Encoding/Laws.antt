-- ===== src/Proxy/Encoding/Laws.antt =====
-- internal/proxy/encoding.go: what a client gets of an encoded response.
use tls_impersonate_proxy.Base.{
  ℕ, ◌≡◌, refl, ◌≢◌, ◌⊎◌, ◌↔◌, inl, inr, Bool, true, false, ◌||◌, Option, none, some, List, [], ◌∷◌,
  arith, is_nil, ◌==◌, if◌then◌else◌, Bool-cases, ap,
}
use tls_impersonate_proxy.Text.{Text, text, text_eq, text_eq_iff, contains_text}
use tls_impersonate_proxy.Assoc.{lookup, remove, lookup-remove}
use tls_impersonate_proxy.Http.{content_encoding_lem, content_length_lem, Header, del}
use tls_impersonate_proxy.Proxy.Encoding.{
  Reply, Opening, is_decodable, encoding_of, is_wanted, is_bodiless, is_zero, negotiate,
}
use tls_impersonate_proxy.Proxy.Encoding.Decoder.{
  left_of, Opens, decoder-Opens_iff, decoder-left_of, decoder-opened,
}

-- The encoding is one that this client does not take as it is.
abbrev pub Unwanted : Text → List Text → Text → Type 0
Unwanted mode accept encoding =
    (encoding ≢ [])
    × (encoding ≢ text "identity")
    × (mode ≢ text "passthrough")
    × (mode ≡ text "negotiate"
        → (contains_text accept encoding ≡ false) × (contains_text accept (text "*") ≡ false))

abbrev pub HasBody : Reply → Type 0
HasBody resp =
    (resp.status_code ≢ 204)
    × (resp.status_code ≢ 304)
    × (resp.content_length ≢ some 0)
    × (resp.head ≡ false)

text_eq-false : (s t : Text) → s ≢ t → text_eq s t ≡ false
text_eq-false s t n = elim (Bool-cases (text_eq s t)) [
  | inr other ↦ other
  | inl same ↦ absurd (n ((text_eq_iff s t).0 same))
]

is_nil-false : (s : Text) → s ≢ [] → is_nil s ≡ false
is_nil-false [] n = absurd (n refl)
is_nil-false (c ∷ s) n = refl

eq_false : (a b : ℕ) → a ≢ b → (a == b) ≡ false
eq_false a b n = ground arith

is_zero-false : (n : Option ℕ) → n ≢ some 0 → is_zero n ≡ false
is_zero-false none h = refl
is_zero-false (some n) h = eq_false n 0 (λ e. h (rw e refl))

is_wanted-Unwanted :
    (mode : Text) (accept : List Text) (encoding : Text)
    → (is_wanted mode accept encoding ≡ false) ↔ Unwanted mode accept encoding
unfolding is_wanted
is_wanted-Unwanted mode accept encoding =
    let a = text_eq_iff encoding (text "identity") in
    let b = text_eq_iff mode (text "passthrough") in
    let c = text_eq_iff mode (text "negotiate") in
    (
      λ e. (
        λ p. ground arith,
        λ p. ground (arith, a.1 p),
        λ p. ground (arith, b.1 p),
        λ p. (ground (arith, c.1 p), ground (arith, c.1 p)),
      ),
      λ (p, q, r, s). unwanted p q r s,
    )
  where
    unwanted :
        encoding ≢ []
        → encoding ≢ text "identity"
        → mode ≢ text "passthrough"
        → (mode ≡ text "negotiate"
            → (contains_text accept encoding ≡ false) × (contains_text accept (text "*") ≡ false))
        → is_wanted mode accept encoding ≡ false
    unwanted p q r s =
        let p' = is_nil-false encoding p in
        let q' = text_eq-false encoding (text "identity") q in
        let r' = text_eq-false mode (text "passthrough") r in
        rw (p', q', r')
          (elim (Bool-cases (text_eq mode (text "negotiate"))) [
            | inr other ↦ rw other refl
            | inl same ↦
                let (x, y) = s ((text_eq_iff mode (text "negotiate")).0 same) in
                rw (same, x, y) refl
          ])

is_bodiless-HasBody : (resp : Reply) → (is_bodiless resp ≡ false) ↔ HasBody resp
unfolding is_bodiless
is_bodiless-HasBody resp = (
  λ e. (λ p. ground arith, λ p. ground arith, λ p. ground arith, ground arith),
  λ (p, q, r, s).
      rw
        (
          eq_false resp.status_code 204 p,
          eq_false resp.status_code 304 q,
          is_zero-false resp.content_length r,
          s,
        )
        refl,
)

-- A response is decoded exactly if the client does not take its encoding as it is, it has a body, and the
-- body opens in that encoding.
abbrev pub IsDecoded : (Text → Text → Opening) → Text → List Text → Reply → Type 0
IsDecoded opens mode accept resp =
    Unwanted mode accept (encoding_of resp)
    × HasBody resp
    × Opens opens (encoding_of resp) resp.body

-- The response behind a decoder.
abbrev plain : Reply → Reply
plain resp = record resp {
  header = del (text "Content-Length") (del (text "Content-Encoding") resp.header);
  content_length = none;
  uncompressed = true;
  decoded = some (encoding_of resp);
}

lookup-plain :
    (h : Header) (name : Text)
    → lookup name (del (text "Content-Length") (del (text "Content-Encoding") h)) ≡ (
        if text_eq (text "Content-Length") name || text_eq (text "Content-Encoding") name
        then none
        else lookup name h)
unfolding del
lookup-plain h name =
    rw
      (
        content_length_lem,
        content_encoding_lem,
        lookup-remove (text "Content-Length") name (remove (text "Content-Encoding") h),
        lookup-remove (text "Content-Encoding") name h,
      )
      (either (text_eq (text "Content-Length") name) (text_eq (text "Content-Encoding") name)
        (lookup name h))
  where
    either :
        (a b : Bool) (o : Option (List Text))
        → (if a then none else if b then none else o) ≡ (if a || b then none else o)
    either true b o = refl
    either false b o = refl

-- The response is one that `negotiate` tries to decode.
abbrev pub IsTried : Text → List Text → Reply → Type 0
IsTried mode accept resp = Unwanted mode accept (encoding_of resp) × HasBody resp

negotiate-cases :
    (opens : Text → Text → Opening) (mode : Text) (accept : List Text) (resp : Reply)
    → ((negotiate opens mode accept resp ≡ resp) × ¬ IsTried mode accept resp)
      ⊎ (((negotiate opens mode accept resp
              ≡ record resp { body = left_of opens (encoding_of resp) resp.body })
            × IsTried mode accept resp
            × ¬ Opens opens (encoding_of resp) resp.body)
          ⊎ ((negotiate opens mode accept resp ≡ plain resp) × IsDecoded opens mode accept resp))
unfolding negotiate
negotiate-cases opens mode accept resp =
    let encoding = encoding_of resp in
    elim (Bool-cases (is_wanted mode accept encoding)) [
      | inl wanted ↦ inl (
        rw (wanted, negotiate) refl,
        λ (u, b). absurd (ground (arith, (is_wanted-Unwanted mode accept encoding).1 u)),
      )
      | inr unwanted ↦ elim (Bool-cases (is_bodiless resp)) [
        | inl empty ↦ inl (
          rw (unwanted, empty, negotiate) refl,
          λ (u, b). absurd (ground (arith, (is_bodiless-HasBody resp).1 b)),
        )
        | inr full ↦
            let tried : IsTried mode accept resp = (
              (is_wanted-Unwanted mode accept encoding).0 unwanted,
              (is_bodiless-HasBody resp).0 full,
            ) in
            elim (Bool-cases (is_decodable opens encoding resp.body)) [
              | inr shut ↦ inr (
                  inl (
                    rw (unwanted, full, shut, negotiate)
                        (ap (λ (t : Text). record resp { body = t })
                          (decoder-left_of opens encoding resp.body)),
                    tried,
                    λ well.
                        absurd
                          (ground (arith, (decoder-Opens_iff opens encoding resp.body).1 well)),
                  ))
              | inl open_ ↦ inr (
                  inr (
                    rw (unwanted, full, open_, negotiate)
                        (ap (λ (t : Text). record (plain resp) { body = t })
                          (decoder-opened opens encoding resp.body open_)),
                    (tried.0, tried.1, (decoder-Opens_iff opens encoding resp.body).0 open_),
                  ))
            ]
      ]
    ]

-- `negotiate` decodes a response exactly if the mode is not `passthrough`, the response names an encoding
-- other than `identity`, the client accepts neither it nor `*` or the mode asks for more than that, the
-- response has a body, and the body opens in that encoding: the encoding is `br`, or it is `gzip`, `deflate`
-- or `zstd`, the body begins as one in it must and the library's reader takes it. Then the client gets no `Content-Encoding`, no
-- `Content-Length`, every other header as it was, the same status and a body of unknown length. A response
-- that is not tried, for one of the other reasons, is left as it is. One whose body does not open keeps all
-- but its body, and the body too, unless it begins as one in the encoding must and the library's reader
-- errs: then only what that reader has not read of it is left, under the length that the response names.
pub negotiate_iff :
    (opens : Text → Text → Opening) (mode : Text) (accept : List Text) (resp : Reply)
    → resp.decoded ≡ none
    → (((negotiate opens mode accept resp).decoded ≡ some (encoding_of resp))
        ↔ IsDecoded opens mode accept resp)
      × (¬ IsTried mode accept resp → negotiate opens mode accept resp ≡ resp)
      × (IsTried mode accept resp
          → ¬ Opens opens (encoding_of resp) resp.body
          → negotiate opens mode accept resp
            ≡ record resp { body = left_of opens (encoding_of resp) resp.body })
      × (IsDecoded opens mode accept resp
          → ((name : Text)
              → lookup name (negotiate opens mode accept resp).header ≡ (
                  if text_eq (text "Content-Length") name || text_eq (text "Content-Encoding") name
                  then none
                  else lookup name resp.header))
            × ((negotiate opens mode accept resp).content_length ≡ none)
            × ((negotiate opens mode accept resp).status_code ≡ resp.status_code))
negotiate_iff opens mode accept resp fresh = elim (negotiate-cases opens mode accept resp) [
  | inl (e, idle) ↦ (
    (λ h. absurd (ground (arith, e)), λ (u, b, d). absurd (idle (u, b))),
    λ n. e,
    λ t. absurd (idle t),
    λ (u, b, d). absurd (idle (u, b)),
  )
  | inr (inl (e, tried, shut)) ↦ (
    (λ h. absurd (ground (arith, e)), λ (u, b, d). absurd (shut d)),
    λ n. absurd (n tried),
    λ t s. e,
    λ (u, b, d). absurd (shut d),
  )
  | inr (inr (e, d)) ↦ (
    (λ h. d, λ d'. rw e refl),
    λ n. absurd (n (d.0, d.1)),
    λ t s. absurd (s d.2),
    λ d'. (λ name. rw e (lookup-plain resp.header name), rw e refl, rw e refl),
  )
]
