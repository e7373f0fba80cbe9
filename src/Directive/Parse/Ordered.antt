-- ===== src/Directive/Parse/Ordered.antt =====
-- internal/directive/parse.go: the order that `parsePairs` keeps beside the pairs names only pairs that
-- are there, in every value that the schema is given.
use tls_impersonate_proxy.Base.{
  ◌≡◌, inl, inr, true, ◌||◌, List, [], ◌∷◌, ◌++◌, arith, not, is_nil, Bool-cases, All, if-elim,
  if◌then◌else◌,
}
use tls_impersonate_proxy.Text.{
  Text, text, join, trim_space, text_eq, text_eq_iff, contains_text, lower, In,
}
use tls_impersonate_proxy.Assoc.{put, has_key, lookup-put, All-put}
use tls_impersonate_proxy.Directive.Types.{Issue}
use tls_impersonate_proxy.Directive.Names.{kv_keys, Shape, shape_of, is_known, official_name}
use tls_impersonate_proxy.Directive.Policy.{Policy, Shaped, Made, Made-cases, denied}
use tls_impersonate_proxy.Directive.Operator.{
  add_denied, default_header, no_policy, shape_defaults, new_policy,
}
use tls_impersonate_proxy.Directive.Parse.{
  Values, Header, Outcome, Library, Verdict, add_pairs, parse_pairs, shape_value, split_list,
  is_prefixed, key_of, parse, read_header, read_headers, displaced, kept_defaults, copy, merge,
}

abbrev pub IsOrdered : Shaped → Type 0
IsOrdered (Shaped.scalar t) = Unit
IsOrdered (Shaped.list ts) = Unit
IsOrdered (Shaped.pairs out order) = (k : Text) → In order k → has_key k out ≡ true

abbrev pub AllOrdered : List (Text × Shaped) → Type 0
AllOrdered m = All (λ (e : Text × Shaped). IsOrdered e.1) m

In-snoc :
    (xs : List Text) (y t : Text)
    → contains_text (xs ++ y ∷ []) t ≡ (contains_text xs t || text_eq y t)
unfolding contains_text
In-snoc [] y t = ground arith
In-snoc (x ∷ xs) y t = ground (arith, In-snoc xs y t)

abbrev Ensures : Outcome Shaped → Type 0
Ensures (Outcome.ok s) = IsOrdered s
Ensures (Outcome.err m) = Unit

module _ (lib : Library) where
  add_pairs-Ensures :
      (allowed : List Text) (ps out : List (Text × Text)) (order : List Text)
      → IsOrdered (Shaped.pairs out order)
      → Ensures (add_pairs lib allowed ps out order)
  unfolding add_pairs
  add_pairs-Ensures allowed [] out order h = h
  add_pairs-Ensures allowed ((pair_name, value) ∷ ps) out order h =
      let name = lower pair_name in
      if-elim Ensures (not (contains_text allowed name)) (λ _. tt)
        (λ _.
          if-elim Ensures (has_key name out) (λ _. tt)
            (λ _. add_pairs-Ensures allowed ps (put name value out) (order ++ name ∷ []) (λ k i.
              ground (
                arith,
                lookup-put name k value out,
                In-snoc order name k,
                h k,
                text_eq_iff name k,
              ))))

  shape_value-Ensures : (key : Text) (values : Values) → Ensures (shape_value lib key values)
  unfolding shape_value parse_pairs add_pairs contains_text
  shape_value-Ensures key values = shaped (shape_of key)
    where
      pairs :
          (cookies : Outcome (List (Text × Text)))
          → Ensures (elim cookies [
            | Outcome.err e ↦
                Outcome.err (text "must be Key=Value pairs separated by semicolons: " ++ e)
            | Outcome.ok cookies ↦ add_pairs lib (kv_keys key) cookies [] []
          ])
      pairs (Outcome.err e) = tt
      pairs (Outcome.ok cookies) =
          add_pairs-Ensures (kv_keys key) cookies [] [] (λ k i. absurd (ground arith))

      shaped :
          (shape : Shape)
          → Ensures (elim shape [
            | Shape.list ↦
                let raw = join (text ",") (values.first ∷ values.rest) in
                if is_nil (trim_space raw)
                then Outcome.err (text "must not be empty")
                else Outcome.ok (Shaped.list (split_list raw))
            | Shape.kv ↦ parse_pairs lib key (join (text ";") (values.first ∷ values.rest))
            | Shape.scalar ↦
                if not (is_nil values.rest)
                then Outcome.err (text "sent more than once")
                else if is_nil (trim_space values.first)
                then Outcome.err (text "must not be empty")
                else Outcome.ok (Shaped.scalar values.first)
          ])
      shaped Shape.list =
          if-elim Ensures (is_nil (trim_space (join (text ",") (values.first ∷ values.rest))))
            (λ _. tt) (λ _. tt)
      shaped Shape.kv = pairs (lib.parse_cookie (join (text ";") (values.first ∷ values.rest)))
      shaped Shape.scalar =
          if-elim Ensures (not (is_nil values.rest)) (λ _. tt)
            (λ _. if-elim Ensures (is_nil (trim_space values.first)) (λ _. tt) (λ _. tt))

  abbrev Accepts : Verdict lib → Type 0
  Accepts (Verdict.accepted key s) = IsOrdered s
  Accepts v = Unit

  read_header-Accepts : (p : Policy) (h : Text × Values) → Accepts (read_header lib p h)
  unfolding read_header
  read_header-Accepts p (name, values) =
      let key = key_of name in
      if-elim Accepts (not (is_prefixed name)) (λ _. tt)
        (λ _.
          if-elim Accepts (not (is_known key)) (λ _. tt)
            (λ _.
              if-elim Accepts (denied p key) (λ _. tt)
                (λ _. verdict key (shape_value lib key values) (shape_value-Ensures key values))))
    where
      verdict :
          (key : Text) (o : Outcome Shaped)
          → Ensures o
          → Accepts (elim o [
            | Outcome.err e ↦ Verdict.refused (record { path = official_name key; message = e })
            | Outcome.ok shaped ↦ Verdict.accepted key shaped
          ])
      verdict key (Outcome.ok s) h = h
      verdict key (Outcome.err e) h = tt

  pub read_headers-AllOrdered :
      (p : Policy) (hs : Header) (req : List (Text × Shaped)) (issues : List Issue)
      → AllOrdered req
      → AllOrdered (read_headers lib p hs req issues).0
  unfolding read_headers
  read_headers-AllOrdered p [] req issues h = h
  read_headers-AllOrdered p (header ∷ hs) req issues h =
      next (read_headers-AllOrdered p hs) (read_header lib p header) (read_header-Accepts p header)
    where
      next :
          ((req : List (Text × Shaped)) (issues : List Issue)
            → AllOrdered req
            → AllOrdered (read_headers lib p hs req issues).0)
          → (v : Verdict lib) → Accepts v
          → AllOrdered
              (elim v as (λ v. List (Text × Shaped) × List Issue) [
                | Verdict.other ↦ read_headers lib p hs req issues
                | Verdict.refused i ↦ read_headers lib p hs req (issues ++ i ∷ [])
                | Verdict.accepted key shaped ↦ read_headers lib p hs (put key shaped req) issues
              ]).0
      next ih Verdict.other a = ih req issues h
      next ih (Verdict.refused i) a = ih req (issues ++ i ∷ []) h
      next ih (Verdict.accepted key s) a = ih (put key s req) issues (All-put _ key s req a h)

  -- The defaults of every policy that `NewPolicy` makes are of this kind.
  pub shape_defaults-AllOrdered :
      (h : Header) (defaults : List (Text × Shaped))
      → AllOrdered defaults
      → AllOrdered (shape_defaults lib h defaults)
  unfolding shape_defaults
  shape_defaults-AllOrdered [] defaults d = d
  shape_defaults-AllOrdered ((name, values) ∷ h) defaults d =
      next (shape_defaults-AllOrdered h) (shape_value lib (key_of name) values)
        (shape_value-Ensures (key_of name) values)
    where
      next :
          ((defaults : List (Text × Shaped))
            → AllOrdered defaults
            → AllOrdered (shape_defaults lib h defaults))
          → (o : Outcome Shaped) → Ensures o
          → AllOrdered (elim o [
            | Outcome.err e ↦ shape_defaults lib h defaults
            | Outcome.ok shaped ↦ shape_defaults lib h (put (key_of name) shaped defaults)
          ])
      next ih (Outcome.err e) a = ih defaults d
      next ih (Outcome.ok s) a =
          ih (put (key_of name) s defaults) (All-put _ (key_of name) s defaults a d)

  pub new_policy-AllOrdered :
      (defaults : List (Text × Text)) (deny : List Text) (p : Policy)
      → new_policy lib defaults deny ≡ Made.ok p
      → AllOrdered p.defaults
  unfolding new_policy
  new_policy-AllOrdered defaults deny p h = elim (Made-cases (add_denied deny [])) [
    | inr (e, f) ↦ absurd (ground arith)
    | inl (keys, f) ↦
        let head = default_header defaults [] in
        elim (Bool-cases (is_nil (parse lib head no_policy).1)) [
          | inr found ↦ absurd (ground arith)
          | inl clean ↦
              let made : shape_defaults lib head [] ≡ p.defaults = ground arith in
              rw (← made) (shape_defaults-AllOrdered head [] tt)
        ]
  ]

copy-AllOrdered :
    (src into : List (Text × Shaped))
    → AllOrdered src
    → AllOrdered into
    → AllOrdered (copy src into)
unfolding copy
copy-AllOrdered [] into h g = g
copy-AllOrdered ((k, v) ∷ src) into (p, h) g = All-put _ k v _ p (copy-AllOrdered src into h g)

kept_defaults-AllOrdered :
    (req defaults : List (Text × Shaped))
    → AllOrdered defaults
    → AllOrdered (kept_defaults req defaults)
unfolding kept_defaults
kept_defaults-AllOrdered req [] h = tt
kept_defaults-AllOrdered req ((k, v) ∷ defaults) (p, h) =
    let ih = kept_defaults-AllOrdered req defaults h in
    elim (Bool-cases (displaced req k)) [
      | inl gone ↦ rw gone ih
      | inr kept ↦ rw kept (All-put _ k v _ p ih)
    ]

pub merge-AllOrdered :
    (defaults req : List (Text × Shaped))
    → AllOrdered defaults
    → AllOrdered req
    → AllOrdered (merge defaults req)
unfolding merge
merge-AllOrdered defaults req h g =
    copy-AllOrdered req (kept_defaults req defaults) g (kept_defaults-AllOrdered req defaults h)
