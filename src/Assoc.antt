-- ===== src/Assoc.antt =====
-- Go's maps with string keys: the list of the entries, in the order in which this run's iteration
-- takes them. Assignment replaces an entry in place, or adds one at the end.
use tls_impersonate_proxy.Base.{
  ◌+◌, ◌≡◌, refl, ◌≢◌, inl, inr, Bool, false, Option, none, some, List, [], ◌∷◌, arith, length,
  is_some, if◌then◌else◌, Bool-cases, All, Has,
}
use tls_impersonate_proxy.Text.{Text, text_eq, text_eq_iff}

module _ {ℓ} {V : Type ℓ} where
  unfoldable pub lookup : Text → List (Text × V) → Option V
  lookup k [] = none
  lookup k ((j, v) ∷ m) = if text_eq j k then some v else lookup k m

  unfoldable pub put : Text → V → List (Text × V) → List (Text × V)
  put k v [] = (k, v) ∷ []
  put k v ((j, w) ∷ m) = if text_eq j k then (k, v) ∷ m else (j, w) ∷ put k v m

  -- `delete`
  unfoldable pub remove : Text → List (Text × V) → List (Text × V)
  remove k [] = []
  remove k ((j, v) ∷ m) = let rest = remove k m in if text_eq j k then rest else (j, v) ∷ rest

  abbrev pub has_key : Text → List (Text × V) → Bool
  has_key k m = is_some (lookup k m)

  -- No key has two entries.
  abbrev pub Distinct : List (Text × V) → Type 0
  Distinct [] = Unit
  Distinct ((k, v) ∷ m) = (has_key k m ≡ false) × Distinct m

  pub lookup-put :
      (k j : Text) (v : V) (m : List (Text × V))
      → lookup j (put k v m) ≡ (if text_eq k j then some v else lookup j m)
  unfolding lookup put
  lookup-put k j v [] = refl
  lookup-put k j v ((i, w) ∷ m) =
      ground (arith, text_eq_iff k j, text_eq_iff i k, text_eq_iff i j, lookup-put k j v m)

  pub lookup-remove :
      (k j : Text) (m : List (Text × V))
      → lookup j (remove k m) ≡ (if text_eq k j then none else lookup j m)
  unfolding lookup remove
  lookup-remove k j [] = ground arith
  lookup-remove k j ((i, w) ∷ m) =
      ground (arith, text_eq_iff k j, text_eq_iff i k, text_eq_iff i j, lookup-remove k j m)

  pub remove_absent : (k : Text) (m : List (Text × V)) → lookup k m ≡ none → remove k m ≡ m
  unfolding lookup remove
  remove_absent k [] h = refl
  remove_absent k ((j, v) ∷ m) h = ground (arith, remove_absent k m)

  pub length-put_absent :
      (k : Text) (v : V) (m : List (Text × V))
      → lookup k m ≡ none
      → length (put k v m) ≡ length m + 1
  unfolding lookup put
  length-put_absent k v [] h = omega arith
  length-put_absent k v ((j, w) ∷ m) h = ground (arith, length-put_absent k v m)

  pub length-remove_present :
      (k : Text) (v : V) (m : List (Text × V))
      → Distinct m
      → lookup k m ≡ some v
      → length (remove k m) + 1 ≡ length m
  unfolding lookup remove
  length-remove_present k v [] d h = absurd (ground arith)
  length-remove_present k v ((j, w) ∷ m) (e, d) h =
      ground (arith, text_eq_iff j k, remove_absent k m, length-remove_present k v m d)

  pub Distinct-put : (k : Text) (v : V) (m : List (Text × V)) → Distinct m → Distinct (put k v m)
  unfolding put lookup
  Distinct-put k v [] d = (refl, tt)
  Distinct-put k v ((j, w) ∷ m) (e, d) = elim (Bool-cases (text_eq j k)) [
    | inl same ↦ rw same (rw (← (text_eq_iff j k).0 same) e, d)
    | inr other ↦
        rw other (
          ground (arith, lookup-put k j v m, text_eq_iff j k, text_eq_iff k j),
          Distinct-put k v m d,
        )
  ]

  pub Distinct-remove : (k : Text) (m : List (Text × V)) → Distinct m → Distinct (remove k m)
  unfolding remove
  Distinct-remove k [] d = tt
  Distinct-remove k ((j, w) ∷ m) (e, d) = elim (Bool-cases (text_eq j k)) [
    | inl same ↦ rw same (Distinct-remove k m d)
    | inr other ↦ rw other (ground (arith, lookup-remove k j m), Distinct-remove k m d)
  ]

module _ {ℓ κ} {V : Type ℓ} (P : Text × V → Type κ) where
  pub All-lookup :
      (k : Text) (v : V) (m : List (Text × V)) → All P m → lookup k m ≡ some v → P (k, v)
  unfolding lookup
  All-lookup k v [] h e = absurd (ground arith)
  All-lookup k v ((j, w) ∷ m) (p, h) e = elim (Bool-cases (text_eq j k)) [
    | inl same ↦ let e' : w ≡ v = ground arith in rw (← (text_eq_iff j k).0 same, ← e') p
    | inr other ↦ All-lookup k v m h (ground arith)
  ]

  pub All-put : (k : Text) (v : V) (m : List (Text × V)) → P (k, v) → All P m → All P (put k v m)
  unfolding put
  All-put k v [] p h = (p, tt)
  All-put k v ((j, w) ∷ m) p (q, h) = elim (Bool-cases (text_eq j k)) [
    | inl same ↦ rw same (p, h)
    | inr other ↦ rw other (q, All-put k v m p h)
  ]

  -- What holds of every entry with another key holds of what `delete` leaves.
  pub All-remove :
      (k : Text) (m : List (Text × V)) → All (λ e. e.0 ≢ k → P e) m → All P (remove k m)
  unfolding remove
  All-remove k [] h = tt
  All-remove k ((j, w) ∷ m) (p, h) = elim (Bool-cases (text_eq j k)) [
    | inl same ↦ rw same (All-remove k m h)
    | inr other ↦ rw other (p (ground (arith, text_eq_iff j k)), All-remove k m h)
  ]

module _ {ℓ κ μ} {A : Type ℓ} {P : A → Type κ} {Q : A → Type μ} where
  pub All-map : (f : (a : A) → P a → Q a) (xs : List A) → All P xs → All Q xs
  All-map f [] h = tt
  All-map f (x ∷ xs) (p, h) = (f x p, All-map f xs h)

-- The entry with the key stands in a map that holds each key once.
pub lookup-Has :
    {V : Type 0} (k : Text) (v : V) (m : List (Text × V))
    → Distinct m
    → Has (λ e. (e.0 ≡ k) × (e.1 ≡ v)) m
    → lookup k m ≡ some v
unfolding lookup
lookup-Has k v [] d h = absurd h
lookup-Has k v ((j, w) ∷ m) d (inl (p, q)) = ground (arith, text_eq_iff j k)
lookup-Has k v ((j, w) ∷ m) (e, d) (inr h) =
    let ih = lookup-Has k v m d h in
    elim (Bool-cases (text_eq j k)) [
      | inl same ↦ absurd (ground (arith, text_eq_iff j k))
      | inr other ↦ rw other ih
    ]
