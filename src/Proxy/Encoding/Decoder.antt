-- ===== src/Proxy/Encoding/Decoder.antt =====
-- internal/proxy/encoding.go: what `decoder` leaves of a body.
use tls_impersonate_proxy.Base.{
  ◌⊎◌, ◌↔◌, inl, inr, subst, sym, ap, ◌≡◌, refl, Bool, true, false, ◌&&◌, arith, if◌then◌else◌,
}
use tls_impersonate_proxy.Text.{Text, text, text_eq, text_eq_iff, has_prefix}
use tls_impersonate_proxy.Proxy.Encoding.{
  Opening, opened, refused, decoder, is_zlib, gzip_magic, zstd_magic,
}

-- The body begins as one in the encoding must.
abbrev pub has_magic : Text → Text → Bool
has_magic encoding body =
    if text_eq encoding (text "gzip")
    then has_prefix gzip_magic body
    else if text_eq encoding (text "deflate")
    then is_zlib body
    else if text_eq encoding (text "br")
    then false
    else text_eq encoding (text "zstd") && has_prefix zstd_magic body

-- The body that is left: the rest, where the library's reader errs behind a good beginning.
abbrev pub left_of : (Text → Text → Opening) → Text → Text → Text
left_of opens encoding body =
    if has_magic encoding body
    then (elim (opens encoding body) [ opened ↦ body | refused rest ↦ rest ])
    else body

-- `decoder` on the outcomes of its tests.
abbrev tried : Text → Bool → Opening → Text × Bool
tried body matched o =
    if matched
    then (elim o [ opened ↦ (body, true) | refused rest ↦ (rest, false) ])
    else (body, false)

abbrev chosen : Text → Bool → Bool → Bool → Bool → Bool → Bool → Bool → Opening → Text × Bool
chosen body g d b z m n k o =
    if g
    then tried body m o
    else if d
    then tried body n o
    else if b
    then (body, true)
    else if z
    then tried body k o
    else (body, false)

pub decoder-left_of :
    (opens : Text → Text → Opening) (encoding body : Text)
    → (decoder opens encoding body).0 ≡ left_of opens encoding body
unfolding decoder
decoder-left_of opens encoding body =
    pick (text_eq encoding (text "gzip")) (text_eq encoding (text "deflate"))
      (text_eq encoding (text "br")) (text_eq encoding (text "zstd")) (has_prefix gzip_magic body)
      (is_zlib body) (has_prefix zstd_magic body) (opens encoding body)
  where
    rest_of : Opening → Text
    rest_of o = elim o [ opened ↦ body | refused rest ↦ rest ]

    one :
        (matched : Bool) (o : Opening)
        → (tried body matched o).0 ≡ (if matched then rest_of o else body)
    one true opened = refl
    one true (refused rest) = refl
    one false o = refl

    pick :
        (g d b z m n k : Bool) (o : Opening)
        → (chosen body g d b z m n k o).0 ≡ (
            if (if g then m else if d then n else if b then false else z && k)
            then rest_of o
            else body)
    pick true d b z m n k o = one m o
    pick false true b z m n k o = one n o
    pick false false true z m n k o = refl
    pick false false false true m n k o = one k o
    pick false false false false m n k o = refl

pub decoder-opened :
    (opens : Text → Text → Opening) (encoding body : Text)
    → (decoder opens encoding body).1 ≡ true
    → (decoder opens encoding body).0 ≡ body
unfolding decoder
decoder-opened opens encoding body h =
    pick (text_eq encoding (text "gzip")) (text_eq encoding (text "deflate"))
      (text_eq encoding (text "br")) (text_eq encoding (text "zstd")) (has_prefix gzip_magic body)
      (is_zlib body) (has_prefix zstd_magic body) (opens encoding body) h
  where
    one :
        (matched : Bool) (o : Opening)
        → (tried body matched o).1 ≡ true
        → (tried body matched o).0 ≡ body
    one true opened h = refl
    one true (refused rest) h = absurd (ground arith)
    one false o h = refl

    pick :
        (g d b z m n k : Bool) (o : Opening)
        → (chosen body g d b z m n k o).1 ≡ true
        → (chosen body g d b z m n k o).0 ≡ body
    pick true d b z m n k o h = one m o h
    pick false true b z m n k o h = one n o h
    pick false false true z m n k o h = refl
    pick false false false true m n k o h = one k o h
    pick false false false false m n k o h = refl

-- The body opens in the encoding: every body does in brotli, one that begins well and that the library's
-- reader takes in the others, and none in an encoding that is not of the four.
abbrev pub Opens : (Text → Text → Opening) → Text → Text → Type 0
Opens opens encoding body =
    (encoding ≡ text "gzip") × (has_prefix gzip_magic body ≡ true) × (opens encoding body ≡ opened)
    ⊎ ((encoding ≡ text "deflate") × (is_zlib body ≡ true) × (opens encoding body ≡ opened)
        ⊎ ((encoding ≡ text "br")
            ⊎ (encoding ≡ text "zstd")
              × (has_prefix zstd_magic body ≡ true)
              × (opens encoding body ≡ opened)))

decoder-Opens :
    (opens : Text → Text → Opening) (encoding body : Text)
    → (decoder opens encoding body).1 ≡ true
    → Opens opens encoding body
unfolding decoder
decoder-Opens opens encoding body h =
    let found =
      pick (text_eq encoding (text "gzip")) (text_eq encoding (text "deflate"))
        (text_eq encoding (text "br")) (text_eq encoding (text "zstd")) (has_prefix gzip_magic body)
        (is_zlib body) (has_prefix zstd_magic body) (opens encoding body) h in
    elim found [
      | inl (e, m, o) ↦ inl ((text_eq_iff encoding (text "gzip")).0 e, m, o)
      | inr (inl (e, m, o)) ↦ inr (inl ((text_eq_iff encoding (text "deflate")).0 e, m, o))
      | inr (inr (inl e)) ↦ inr (inr (inl ((text_eq_iff encoding (text "br")).0 e)))
      | inr (inr (inr (e, m, o))) ↦ inr (inr (inr ((text_eq_iff encoding (text "zstd")).0 e, m, o)))
    ]
  where
    one :
        (matched : Bool) (o : Opening)
        → (tried body matched o).1 ≡ true
        → (matched ≡ true) × (o ≡ opened)
    one true opened h = (refl, refl)
    one true (refused rest) h = absurd (ground arith)
    one false o h = absurd (ground arith)

    pick :
        (g d b z m n k : Bool) (o : Opening)
        → (chosen body g d b z m n k o).1 ≡ true
        → (g ≡ true) × (m ≡ true) × (o ≡ opened)
          ⊎ ((d ≡ true) × (n ≡ true) × (o ≡ opened)
              ⊎ ((b ≡ true) ⊎ (z ≡ true) × (k ≡ true) × (o ≡ opened)))
    pick true d b z m n k o h = let (p, q) = one m o h in inl (refl, p, q)
    pick false true b z m n k o h = let (p, q) = one n o h in inr (inl (refl, p, q))
    pick false false true z m n k o h = inr (inr (inl refl))
    pick false false false true m n k o h = let (p, q) = one k o h in inr (inr (inr (refl, p, q)))
    pick false false false false m n k o h = absurd (ground arith)

Opens-decoder :
    (opens : Text → Text → Opening) (encoding body : Text)
    → Opens opens encoding body
    → (decoder opens encoding body).1 ≡ true
unfolding decoder text_eq
Opens-decoder opens encoding body (inl (e, m, o)) =
    let g : text_eq encoding (text "gzip") ≡ true = ap (λ x. text_eq x (text "gzip")) e in
    rw (decoder, g, m, o) refl
Opens-decoder opens encoding body (inr (inl (e, m, o))) =
    let g : text_eq encoding (text "gzip") ≡ false = ap (λ x. text_eq x (text "gzip")) e in
    let d : text_eq encoding (text "deflate") ≡ true = ap (λ x. text_eq x (text "deflate")) e in
    rw (decoder, g, d, m, o) refl
Opens-decoder opens encoding body (inr (inr (inl e))) =
    subst (λ e. (decoder opens e body).1 ≡ true) (sym e) refl
Opens-decoder opens encoding body (inr (inr (inr (e, m, o)))) =
    let g : text_eq encoding (text "gzip") ≡ false = ap (λ x. text_eq x (text "gzip")) e in
    let d : text_eq encoding (text "deflate") ≡ false = ap (λ x. text_eq x (text "deflate")) e in
    let b : text_eq encoding (text "br") ≡ false = ap (λ x. text_eq x (text "br")) e in
    let z : text_eq encoding (text "zstd") ≡ true = ap (λ x. text_eq x (text "zstd")) e in
    rw (decoder, g, d, b, z, m, o) refl

pub decoder-Opens_iff :
    (opens : Text → Text → Opening) (encoding body : Text)
    → ((decoder opens encoding body).1 ≡ true) ↔ Opens opens encoding body
decoder-Opens_iff opens encoding body =
    (decoder-Opens opens encoding body, Opens-decoder opens encoding body)
