-- ===== src/Proxy/Certs.antt =====
-- internal/proxy/certs.go: the store of the certificates made for tunnels. `Fetch` holds the lock for its
-- look and, behind the making of a certificate, for its insertion; other fetches act in between.
use tls_impersonate_proxy.Base.{
  ℕ, zero, suc, ◌+◌, ◌≤◌, ◌≡◌, refl, inl, inr, Option, none, some, List, [], ◌∷◌, arith, length,
  leb, if◌then◌else◌, Bool-cases, Option-cases, All, ◌≢◌, subst,
}
use tls_impersonate_proxy.Text.{Text, text_eq_refl}
use tls_impersonate_proxy.Assoc.{lookup, put, remove, All-lookup, All-put, All-remove, All-map}

-- The most entries that a store with the limit ever has: one where the limit is 0.
abbrev pub limit : ℕ → ℕ
limit zero = 1
limit (suc n) = suc n

pub record CertStore {ℓ} (C : Type ℓ) : Type ℓ where
  pub max : ℕ
  pub certs : List (Text × C)

module _ {ℓ} {C : Type ℓ} where
  -- `newCertStore`
  abbrev pub new_cert_store : ℕ → CertStore C
  new_cert_store max = record { max = max; certs = [] }

  -- The loop that deletes the first entry it meets, which is any.
  unfoldable pub drop_one : List (Text × C) → List (Text × C)
  drop_one [] = []
  drop_one ((victim, cert) ∷ certs) = remove victim ((victim, cert) ∷ certs)

  -- The second lock of `Fetch`.
  unfoldable pub store : Text → C → CertStore C → CertStore C
  store host cert s =
      let room = if leb s.max (length s.certs) then drop_one s.certs else s.certs in
      record s { certs = put host cert room }

  -- What `Fetch` gives when no other fetch acts in between; `gen` has failed where it is `none`.
  unfoldable pub fetch : Text → Option C → CertStore C → CertStore C × Option C
  fetch host gen s = elim (lookup host s.certs) [
    | some cert ↦ (s, some cert)
    | none ↦ elim gen [ none ↦ (s, none) | some cert ↦ (store host cert s, some cert) ]
  ]

  unfoldable pub stores : List (Text × C) → CertStore C → CertStore C
  stores [] s = s
  stores ((host, cert) ∷ made) s = stores made (store host cert s)

  length-remove-le : (k : Text) (m : List (Text × C)) → length (remove k m) ≤ length m
  unfolding remove
  length-remove-le k [] = omega arith
  length-remove-le k ((j, c) ∷ m) = ground (arith, length-remove-le k m)

  length-put-le : (k : Text) (c : C) (m : List (Text × C)) → length (put k c m) ≤ length m + 1
  unfolding put
  length-put-le k c [] = omega arith
  length-put-le k c ((j, d) ∷ m) = ground (arith, length-put-le k c m)

  length-drop_one : (m : List (Text × C)) (n : ℕ) → length m ≤ n + 1 → length (drop_one m) ≤ n
  unfolding drop_one remove
  length-drop_one [] n h = omega arith
  length-drop_one ((victim, c) ∷ m) n h =
      ground (arith, text_eq_refl victim, length-remove-le victim m)

  length-room :
      (max : ℕ) (m : List (Text × C))
      → length m ≤ limit max
      → length (if leb max (length m) then drop_one m else m) + 1 ≤ limit max
  length-room zero m h = ground (arith, length-drop_one m 0)
  length-room (suc n) m h = ground (arith, length-drop_one m n)

module _ {ℓ κ} {C : Type ℓ} (P : Text × C → Type κ) where
  All-drop_one : (m : List (Text × C)) → All P m → All P (drop_one m)
  unfolding drop_one
  All-drop_one [] h = tt
  All-drop_one ((victim, c) ∷ m) h =
      All-remove P victim ((victim, c) ∷ m) (All-map (λ e p n. p) ((victim, c) ∷ m) h)

  All-room :
      (max : ℕ) (m : List (Text × C))
      → All P m
      → All P (if leb max (length m) then drop_one m else m)
  All-room max m h = elim (Bool-cases (leb max (length m))) [
    | inl full ↦ rw full (All-drop_one m h)
    | inr space ↦ rw space h
  ]

  store-kept :
      (host : Text) (cert : C) (s : CertStore C)
      → P (host, cert)
      → All P s.certs
      → length s.certs ≤ limit s.max
      → All P (store host cert s).certs × (length (store host cert s).certs ≤ limit s.max)
  unfolding store
  store-kept host cert s p all le =
      let m = if leb s.max (length s.certs) then drop_one s.certs else s.certs in
      let room = length-room s.max s.certs le in
      let fits = length-put-le host cert m in
      (All-put P host cert m p (All-room s.max s.certs all), omega arith)

  stores-kept :
      (made : List (Text × C)) (s : CertStore C)
      → All P made
      → All P s.certs
      → length s.certs ≤ limit s.max
      → All P (stores made s).certs
        × (length (stores made s).certs ≤ limit (stores made s).max)
        × ((stores made s).max ≡ s.max)
  unfolding stores store
  stores-kept [] s h all le = (all, le, refl)
  stores-kept ((host, cert) ∷ made) s (p, h) all le =
      let (all', le') = store-kept host cert s p all le in
      let (a, b, c) = stores-kept made (store host cert s) h all' le' in (a, b, c)

  fetch_hit :
      (host : Text) (gen : Option C) (s : CertStore C) (cert : C)
      → lookup host s.certs ≡ some cert
      → fetch host gen s ≡ (s, some cert)
  unfolding fetch
  fetch_hit host gen s cert h = rw (h, fetch) refl

  fetch_failed :
      (host : Text) (s : CertStore C) → lookup host s.certs ≡ none → fetch host none s ≡ (s, none)
  unfolding fetch
  fetch_failed host s h = rw (h, fetch) refl

  fetch_made :
      (host : Text) (s : CertStore C) (cert : C)
      → lookup host s.certs ≡ none
      → fetch host (some cert) s ≡ (store host cert s, some cert)
  unfolding fetch
  fetch_made host s cert h = rw (h, fetch) refl

  of_some : (host : Text) (c d : C) → some c ≡ some d → P (host, c) → P (host, d)
  of_some host c d e p = subst (λ o. value o) e p
    where
      value : Option C → Type κ
      value none = P (host, c)
      value (some x) = P (host, x)

  -- Whatever certificates have been stored before, each made for its host, and in whatever order: `Fetch`
  -- gives for a host only a certificate that was made for it, gives one whenever one can be made, and leaves
  -- at most the configured number of entries, or one where that number is 0.
  pub fetch_lem :
      (made : List (Text × C)) (max : ℕ) (host : Text) (gen : Option C)
      → All P made
      → ((c : C) → gen ≡ some c → P (host, c))
      → ((c : C) → (fetch host gen (stores made (new_cert_store max))).1 ≡ some c → P (host, c))
        × ((c : C) → gen ≡ some c → (fetch host gen (stores made (new_cert_store max))).1 ≢ none)
        × (length (fetch host gen (stores made (new_cert_store max))).0.certs ≤ limit max)
  fetch_lem made max host none h right =
      let s = stores made (new_cert_store max) in
      let (all, le, same) = stores-kept made (new_cert_store max) h tt (omega arith) in
      let bound = subst (λ (k : ℕ). length s.certs ≤ limit k) same le in
      elim (Option-cases (lookup host s.certs)) [
        | inr (cert, found) ↦ rw (fetch_hit host none s cert found) (
          λ c e. of_some host cert c e (All-lookup P host cert s.certs all found),
          λ c e n. ground arith,
          bound,
        )
        | inl missed ↦
            rw (fetch_failed host s missed)
              (λ c e. absurd (ground arith), λ c e n. ground arith, bound)
      ]
  fetch_lem made max host (some fresh) h right =
      let s = stores made (new_cert_store max) in
      let (all, le, same) = stores-kept made (new_cert_store max) h tt (omega arith) in
      let bound = subst (λ (k : ℕ). length s.certs ≤ limit k) same le in
      elim (Option-cases (lookup host s.certs)) [
        | inr (cert, found) ↦ rw (fetch_hit host (some fresh) s cert found) (
          λ c e. of_some host cert c e (All-lookup P host cert s.certs all found),
          λ c e n. ground arith,
          bound,
        )
        | inl missed ↦ rw (fetch_made host s fresh missed) (
          λ c e. of_some host fresh c e (right fresh refl),
          λ c e n. ground arith,
          subst (λ (k : ℕ). length (store host fresh s).certs ≤ limit k) same
              (store-kept host fresh s (right fresh refl) all le).1,
        )
      ]
