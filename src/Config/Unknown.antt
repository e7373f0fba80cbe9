-- ===== src/Config/Unknown.antt =====
-- internal/config/unknown.go: the keys of a configuration file that name no field.
-- A document is a tree as the YAML library makes it; a type is a tree of the fields that have a struct or
-- a slice of structs, and of those that have another type, by their `zog` tags.
mod Tests
use tls_impersonate_proxy.Base.{
  ℕ, ◌+◌, ◌≡◌, refl, ◌↔◌, ◌⊎◌, inl, inr, Bool, true, false, Option, none, some, List, [], ◌∷◌, ◌++◌,
  arith, is_nil, if◌then◌else◌, ap,
}
use tls_impersonate_proxy.Text.{Text, text, text_eq, itoa}
use tls_impersonate_proxy.Metrics.Routes.{sort, insert_sorted}

-- A value that is a mapping with text keys, a sequence, or anything else.
mutual
  pub data Value : Type 0 where
    mapping : Doc → Value
    sequence : Items → Value
    other : Value

  pub data Doc : Type 0 where
    end : Doc
    entry : Text → Value → Doc → Doc

  pub data Items : Type 0 where
    nil : Items
    item : Value → Items → Items

mutual
  pub data FieldType : Type 0 where
    struct : Fields → FieldType
    structs : Fields → FieldType
    plain : FieldType

  pub data Fields : Type 0 where
    no_field : Fields
    field : Text → FieldType → Fields → Fields

unfoldable pub type_of : Text → Fields → Option FieldType
type_of key no_field = none
type_of key (field name t fields) = if text_eq name key then some t else type_of key fields

-- `fmt.Sprintf("%s%s[%d].", prefix, key, i)`
abbrev item_prefix : Text → Text → ℕ → Text
item_prefix prefix key i = prefix ++ (key ++ (text "[" ++ (itoa i ++ text "].")))

-- `unknownKeys`: the loop over the keys, one key, and the loop over the items of a slice. The keys below
-- one key are sorted where they are found, and all of them again.
unfoldable mutual
  pub keys_of_value : Value → Option FieldType → Text → Text → List Text
  keys_of_value v none prefix key = (prefix ++ key) ∷ []
  keys_of_value (mapping doc) (some (struct fields)) prefix key =
      sort (keys_of_doc doc fields (prefix ++ (key ++ text ".")))
  keys_of_value (sequence items) (some (structs fields)) prefix key =
      keys_of_items items fields prefix key 0
  keys_of_value v (some t) prefix key = []

  pub keys_of_doc : Doc → Fields → Text → List Text
  keys_of_doc end fields prefix = []
  keys_of_doc (entry key v doc) fields prefix =
      keys_of_value v (type_of key fields) prefix key ++ keys_of_doc doc fields prefix

  pub keys_of_items : Items → Fields → Text → Text → ℕ → List Text
  keys_of_items nil fields prefix key i = []
  keys_of_items (item (mapping doc) items) fields prefix key i =
      sort (keys_of_doc doc fields (item_prefix prefix key i))
      ++ keys_of_items items fields prefix key (i + 1)
  keys_of_items (item v items) fields prefix key i = keys_of_items items fields prefix key (i + 1)

unfoldable pub unknown_keys : Doc → Fields → Text → List Text
unknown_keys doc fields prefix = sort (keys_of_doc doc fields prefix)

-- Each key of a mapping that the type has a struct for is a field of it, at any depth.
unfoldable mutual
  pub IsKnownValue : Value → Option FieldType → Type 0
  IsKnownValue v none = ⊥
  IsKnownValue (mapping doc) (some (struct fields)) = IsKnown doc fields
  IsKnownValue (sequence items) (some (structs fields)) = AllKnown items fields
  IsKnownValue v (some t) = Unit

  pub IsKnown : Doc → Fields → Type 0
  IsKnown end fields = Unit
  IsKnown (entry key v doc) fields = IsKnownValue v (type_of key fields) × IsKnown doc fields

  pub AllKnown : Items → Fields → Type 0
  AllKnown nil fields = Unit
  AllKnown (item (mapping doc) items) fields = IsKnown doc fields × AllKnown items fields
  AllKnown (item v items) fields = AllKnown items fields

insert_sorted-ne : (t : Text) (ts : List Text) → insert_sorted t ts ≡ [] → ⊥
unfolding insert_sorted
insert_sorted-ne t [] h = ground arith
insert_sorted-ne t (s ∷ ss) h = ground arith

sort-eq-nil : (ts : List Text) → sort ts ≡ [] → ts ≡ []
unfolding sort
sort-eq-nil [] h = refl
sort-eq-nil (t ∷ ts) h = absurd (insert_sorted-ne t (sort ts) h)

append-eq-nil : (xs ys : List Text) → xs ++ ys ≡ [] → (xs ≡ []) × (ys ≡ [])
append-eq-nil [] ys h = (refl, h)
append-eq-nil (x ∷ xs) ys h = absurd (ground arith)

mutual
  unfolding keys_of_value keys_of_doc keys_of_items IsKnownValue IsKnown AllKnown

  keys_of_value-IsKnownValue :
      (v : Value) (t : Option FieldType) (prefix key : Text)
      → keys_of_value v t prefix key ≡ []
      → IsKnownValue v t
  keys_of_value-IsKnownValue (mapping doc) none prefix key h = ground arith
  keys_of_value-IsKnownValue (sequence items) none prefix key h = ground arith
  keys_of_value-IsKnownValue other none prefix key h = ground arith
  keys_of_value-IsKnownValue (mapping doc) (some (struct fields)) prefix key h =
      keys_of_doc-IsKnown doc fields _ (sort-eq-nil _ h)
  keys_of_value-IsKnownValue (mapping doc) (some (structs fields)) prefix key h = tt
  keys_of_value-IsKnownValue (mapping doc) (some plain) prefix key h = tt
  keys_of_value-IsKnownValue (sequence items) (some (structs fields)) prefix key h =
      keys_of_items-AllKnown items fields prefix key 0 h
  keys_of_value-IsKnownValue (sequence items) (some (struct fields)) prefix key h = tt
  keys_of_value-IsKnownValue (sequence items) (some plain) prefix key h = tt
  keys_of_value-IsKnownValue other (some (struct fields)) prefix key h = tt
  keys_of_value-IsKnownValue other (some (structs fields)) prefix key h = tt
  keys_of_value-IsKnownValue other (some plain) prefix key h = tt

  keys_of_doc-IsKnown :
      (doc : Doc) (fields : Fields) (prefix : Text)
      → keys_of_doc doc fields prefix ≡ []
      → IsKnown doc fields
  keys_of_doc-IsKnown end fields prefix h = tt
  keys_of_doc-IsKnown (entry key v doc) fields prefix h =
      let (a, b) = append-eq-nil (keys_of_value v (type_of key fields) prefix key) _ h in
      (
        keys_of_value-IsKnownValue v (type_of key fields) prefix key a,
        keys_of_doc-IsKnown doc fields prefix b,
      )

  keys_of_items-AllKnown :
      (items : Items) (fields : Fields) (prefix key : Text) (i : ℕ)
      → keys_of_items items fields prefix key i ≡ []
      → AllKnown items fields
  keys_of_items-AllKnown nil fields prefix key i h = tt
  keys_of_items-AllKnown (item (mapping doc) items) fields prefix key i h =
      let (a, b) = append-eq-nil (sort (keys_of_doc doc fields (item_prefix prefix key i))) _ h in
      (
        keys_of_doc-IsKnown doc fields _ (sort-eq-nil _ a),
        keys_of_items-AllKnown items fields prefix key (i + 1) b,
      )
  keys_of_items-AllKnown (item (sequence inner) items) fields prefix key i h =
      keys_of_items-AllKnown items fields prefix key (i + 1) h
  keys_of_items-AllKnown (item other items) fields prefix key i h =
      keys_of_items-AllKnown items fields prefix key (i + 1) h

mutual
  unfolding keys_of_value keys_of_doc keys_of_items IsKnownValue IsKnown AllKnown sort

  IsKnownValue-keys_of_value :
      (v : Value) (t : Option FieldType) (prefix key : Text)
      → IsKnownValue v t
      → keys_of_value v t prefix key ≡ []
  IsKnownValue-keys_of_value (mapping doc) none prefix key h = absurd h
  IsKnownValue-keys_of_value (sequence items) none prefix key h = absurd h
  IsKnownValue-keys_of_value other none prefix key h = absurd h
  IsKnownValue-keys_of_value (mapping doc) (some (struct fields)) prefix key h =
      ap sort (IsKnown-keys_of_doc doc fields _ h)
  IsKnownValue-keys_of_value (mapping doc) (some (structs fields)) prefix key h = refl
  IsKnownValue-keys_of_value (mapping doc) (some plain) prefix key h = refl
  IsKnownValue-keys_of_value (sequence items) (some (structs fields)) prefix key h =
      AllKnown-keys_of_items items fields prefix key 0 h
  IsKnownValue-keys_of_value (sequence items) (some (struct fields)) prefix key h = refl
  IsKnownValue-keys_of_value (sequence items) (some plain) prefix key h = refl
  IsKnownValue-keys_of_value other (some (struct fields)) prefix key h = refl
  IsKnownValue-keys_of_value other (some (structs fields)) prefix key h = refl
  IsKnownValue-keys_of_value other (some plain) prefix key h = refl

  IsKnown-keys_of_doc :
      (doc : Doc) (fields : Fields) (prefix : Text)
      → IsKnown doc fields
      → keys_of_doc doc fields prefix ≡ []
  IsKnown-keys_of_doc end fields prefix h = refl
  IsKnown-keys_of_doc (entry key v doc) fields prefix (a, b) = rw (
    IsKnownValue-keys_of_value v (type_of key fields) prefix key a,
    IsKnown-keys_of_doc doc fields prefix b,
  )

  AllKnown-keys_of_items :
      (items : Items) (fields : Fields) (prefix key : Text) (i : ℕ)
      → AllKnown items fields
      → keys_of_items items fields prefix key i ≡ []
  AllKnown-keys_of_items nil fields prefix key i h = refl
  AllKnown-keys_of_items (item (mapping doc) items) fields prefix key i (a, b) = rw (
    IsKnown-keys_of_doc doc fields (item_prefix prefix key i) a,
    AllKnown-keys_of_items items fields prefix key (i + 1) b,
  )
  AllKnown-keys_of_items (item (sequence inner) items) fields prefix key i h =
      AllKnown-keys_of_items items fields prefix key (i + 1) h
  AllKnown-keys_of_items (item other items) fields prefix key i h =
      AllKnown-keys_of_items items fields prefix key (i + 1) h

-- `unknownKeys` finds nothing exactly if every key of the document is a field of the struct that stands
-- at its place, at any depth of structs and of slices of structs; what stands at other fields, and values
-- that are no mapping where a struct is wanted, it leaves to the schema.
pub unknown_keys_iff :
    (doc : Doc) (fields : Fields) (prefix : Text)
    → (unknown_keys doc fields prefix ≡ []) ↔ IsKnown doc fields
unfolding unknown_keys sort
unknown_keys_iff doc fields prefix = (
  λ h. keys_of_doc-IsKnown doc fields prefix (sort-eq-nil _ h),
  λ k. ap sort (IsKnown-keys_of_doc doc fields prefix k),
)
