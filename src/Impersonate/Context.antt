-- ===== src/Impersonate/Context.antt =====
-- internal/impersonate/context.go: `finalize` puts the headers that a client asked to keep back into the
-- request that the transport has written.
use tls_impersonate_proxy.Base.{
  ◌≡◌, refl, Bool, true, List, [], ◌∷◌, ◌++◌, any, arith, if◌then◌else◌, append_assoc, append-nil,
  Bool-cases, inl, inr, sym, ap, ◌∙◌, get_or,
}
use tls_impersonate_proxy.Text.{Text, text_eq, text_eq_iff, text_eq_refl}
use tls_impersonate_proxy.Assoc.{lookup, lookup-remove}
use tls_impersonate_proxy.Http.{Header, canonical, values, add, del, lookup-add}

unfoldable pub add_all : Text → List Text → Header → Header
add_all name [] h = h
add_all name (v ∷ vs) h = add_all name vs (add name v h)

-- The loop over `k.names`.
unfoldable pub keep_names : Header → List Text → Header → Header
keep_names original [] h = h
keep_names original (name ∷ names) h =
    keep_names original names (add_all name (values original name) (del name h))

values-add_any :
    (name v : Text) (h : Header) (n : Text)
    → values (add name v h) n
      ≡ (if text_eq (canonical name) (canonical n) then values h name ++ v ∷ [] else values h n)
unfolding values
values-add_any name v h n = ground (arith, lookup-add name v h (canonical n))

values_same :
    (name n : Text) (h : Header)
    → text_eq (canonical name) (canonical n) ≡ true
    → values h n ≡ values h name
unfolding values
values_same name n h same =
    ap (λ k. get_or [] (lookup k h)) (sym ((text_eq_iff (canonical name) (canonical n)).0 same))

values-add_all :
    (name : Text) (vs : List Text) (h : Header) (n : Text)
    → values (add_all name vs h) n
      ≡ (if text_eq (canonical name) (canonical n) then values h name ++ vs else values h n)
unfolding add_all
values-add_all name [] h n = elim (Bool-cases (text_eq (canonical name) (canonical n))) [
  | inl same ↦ rw same (values_same name n h same ∙ sym (append-nil (values h name)))
  | inr other ↦ rw other refl
]
values-add_all name (v ∷ vs) h n =
    values-add_all name vs (add name v h) n
    ∙ (elim (Bool-cases (text_eq (canonical name) (canonical n))) [
      | inl same ↦ rw same (
          ap (λ (xs : List Text). xs ++ vs)
            (values-add_any name v h name ∙ rw (text_eq_refl (canonical name)) refl)
          ∙ append_assoc (values h name) (v ∷ []) vs)
      | inr other ↦ rw other (values-add_any name v h n ∙ rw other refl)
    ])

values-del :
    (name : Text) (h : Header) (n : Text)
    → values (del name h) n ≡ (if text_eq (canonical name) (canonical n) then [] else values h n)
unfolding values del
values-del name h n = ground (arith, lookup-remove (canonical name) (canonical n) h)

-- The names of the list, in whatever case, hold the name.
abbrev pub is_named : List Text → Text → Bool
is_named names n = any (λ name. text_eq (canonical name) (canonical n)) names

values-kept_one :
    (original : Header) (name : Text) (h : Header) (n : Text)
    → values (add_all name (values original name) (del name h)) n
      ≡ (if text_eq (canonical name) (canonical n) then values original n else values h n)
values-kept_one original name h n =
    let gone : values (del name h) name ≡ [] =
      values-del name h name ∙ rw (text_eq_refl (canonical name)) refl in
    values-add_all name (values original name) (del name h) n
    ∙ (elim (Bool-cases (text_eq (canonical name) (canonical n))) [
      | inl same ↦ rw same (
          ap (λ (xs : List Text). xs ++ values original name) gone
          ∙ sym (values_same name n original same))
      | inr other ↦ rw other (values-del name h n ∙ rw other refl)
    ])

-- A header that a client asks to keep leaves with exactly the values that the client sent, in their order,
-- whatever the transport had put there, and with none if the client sent none. Every other header leaves as
-- the transport wrote it.
pub values-keep_names :
    (original h : Header) (names : List Text) (n : Text)
    → values (keep_names original names h) n
      ≡ (if is_named names n then values original n else values h n)
unfolding keep_names
values-keep_names original h [] n = refl
values-keep_names original h (name ∷ names) n =
    let h' = add_all name (values original name) (del name h) in
    ground (arith, values-keep_names original h' names n, values-kept_one original name h n)
