-- ===== src/Impersonate/Cache/Sweep.antt =====
-- internal/impersonate/cache.go: `Sweep` drops exactly the entries that are stale.
use tls_impersonate_proxy.Base.{
  ◌<◌, ◌↔◌, ◌≢◌, ◌∙◌, ℕ, ◌+◌, ◌≡◌, refl, inl, inr, true, false, Option, none, some, List, [], ◌∷◌,
  arith, ◌==◌, if◌then◌else◌, Bool-cases, All, ap,
}
use tls_impersonate_proxy.Text.{Text, text_eq_iff, text_eq_refl}
use tls_impersonate_proxy.Assoc.{lookup, remove, has_key, Distinct, lookup-remove}
use tls_impersonate_proxy.Impersonate.Client.{Client}
use tls_impersonate_proxy.Impersonate.Cache.{Cache, evict, sweep, sweep_from, stale}
use tls_impersonate_proxy.Impersonate.Cache.Room.{evict_present}
use tls_impersonate_proxy.Impersonate.Cache.Invariant.{IsLive, IsValid, evict-IsValid}

others_found :
    (k : Text) (entries es : List (Text × ℕ))
    → has_key k es ≡ false
    → All (λ e. lookup e.0 entries ≡ some e.1) es
    → All (λ e. lookup e.0 (remove k entries) ≡ some e.1) es
unfolding lookup
others_found k entries [] p q = tt
others_found k entries (x ∷ es) p (q, qs) = (
  ground (arith, lookup-remove k x.0 entries, text_eq_iff x.0 k, text_eq_iff k x.0),
  others_found k entries es (ground arith) qs,
)

module _ (ttl now n : ℕ) (k : Text) (i : ℕ) (es : List (Text × ℕ)) (c : Cache) where
  sweep_kept :
      stale ttl now (c.clients i) ≡ false
      → sweep_from ttl now ((k, i) ∷ es) c n ≡ sweep_from ttl now es c n
  unfolding sweep_from
  sweep_kept h = rw h

  sweep_gone :
      stale ttl now (c.clients i) ≡ true
      → sweep_from ttl now ((k, i) ∷ es) c n ≡ sweep_from ttl now es (evict k c) (n + 1)
  unfolding sweep_from
  sweep_gone h = rw h

pub sweep_from-IsValid :
    (max ttl now n : ℕ) (es : List (Text × ℕ)) (c : Cache)
    → IsValid max n c
    → Distinct es
    → All (λ e. lookup e.0 c.entries ≡ some e.1) es
    → IsValid max (sweep_from ttl now es c n).1 (sweep_from ttl now es c n).0
unfolding sweep_from
sweep_from-IsValid max ttl now n [] c v d h = v
sweep_from-IsValid max ttl now n ((k, i) ∷ es) c v (e, d) (found, h) =
    elim (Bool-cases (stale ttl now (c.clients i))) [
      | inr kept ↦
          rw (sweep_kept ttl now n k i es c kept) (sweep_from-IsValid max ttl now n es c v d h)
      | inl gone ↦ rw (sweep_gone ttl now n k i es c gone) (
          sweep_from-IsValid max ttl now (n + 1) es (evict k c) (evict-IsValid max n c k i found v)
            d (rw (evict_present c k i found) (others_found k c.entries es e h)))
    ]

-- Every entry of a map is found in it.
pub found_everywhere : (m : List (Text × ℕ)) → Distinct m → All (λ e. lookup e.0 m ≡ some e.1) m
unfolding lookup
found_everywhere [] d = tt
found_everywhere ((k, v) ∷ m) (e, d) =
    (ground (arith, text_eq_refl k), later m e (found_everywhere m d))
  where
    later :
        (es : List (Text × ℕ))
        → has_key k es ≡ false
        → All (λ e. lookup e.0 m ≡ some e.1) es
        → All (λ e. lookup e.0 ((k, v) ∷ m) ≡ some e.1) es
    later [] p q = tt
    later (x ∷ es) p (q, qs) =
        (ground (arith, text_eq_iff x.0 k, text_eq_iff k x.0), later es (ground arith) qs)

pub sweep-IsValid :
    (max ttl now : ℕ) (c : Cache) → IsValid max 0 c → IsValid max 0 (sweep ttl now c).0
unfolding sweep
sweep-IsValid max ttl now c v =
    let v' =
      sweep_from-IsValid max ttl now 0 c.entries c v v.distinct
        (found_everywhere c.entries v.distinct) in
    record {
      distinct = v'.distinct;
      live = v'.live;
      sound = v'.sound;
      balanced = v'.balanced;
      timely = v'.timely;
      bounded = v'.bounded;
      pending_distinct = v'.pending_distinct;
      apart = v'.apart;
      gauge = omega (arith, v'.gauge);
    }

-- What is left of an entry after a sweep of the clients `clients`.
abbrev pub after_sweep : ℕ → ℕ → (ℕ → Client) → Option ℕ → Option ℕ
after_sweep ttl now clients none = none
after_sweep ttl now clients (some i) = if stale ttl now (clients i) then none else some i

module _ (ttl now : ℕ) (start : ℕ → Client) where
  -- The clients of the entries still to visit are as they were.
  abbrev AsBefore : Cache → List (Text × ℕ) → Type 0
  AsBefore c es = All (λ e. c.clients e.1 ≡ start e.1) es

  evict-AsBefore :
      (c : Cache) (k : Text) (i : ℕ) (es : List (Text × ℕ))
      → lookup k c.entries ≡ some i
      → (start i).key ≡ k
      → has_key k es ≡ false
      → All (λ e. (start e.1).key ≡ e.0) es
      → AsBefore c es
      → AsBefore (evict k c) es
  unfolding lookup
  evict-AsBefore c k i [] found key e keys h = tt
  evict-AsBefore c k i (x ∷ es) found key e (p, ps) (q, qs) = (
    elim (Bool-cases (i == x.1)) [
      | inl same ↦
          let e' : i ≡ x.1 = ground arith in
          absurd (ground (arith, text_eq_iff x.0 k, ap (λ (j : ℕ). (start j).key) e'))
      | inr other ↦ rw (evict_present c k i found) (rw other q)
    ],
    evict-AsBefore c k i es found key (ground arith) ps qs,
  )

  -- The entry of `key` behind the loop, from what the loop visits and what it leaves alone.
  abbrev swept : Option ℕ → Option ℕ → Option ℕ
  swept none rest = rest
  swept (some i) rest = after_sweep ttl now start (some i)

  sweep_from-lookup :
      (key : Text) (es : List (Text × ℕ)) (c : Cache) (n : ℕ)
      → Distinct es
      → All (λ e. lookup e.0 c.entries ≡ some e.1) es
      → All (λ e. (start e.1).key ≡ e.0) es
      → AsBefore c es
      → lookup key (sweep_from ttl now es c n).0.entries
        ≡ swept (lookup key es) (lookup key c.entries)
  unfolding lookup
  sweep_from-lookup key [] c n d found keys before = unfold sweep_from in refl
  sweep_from-lookup key ((k, i) ∷ es) c n (e, d) (f, found) (p, keys) (b, before) =
      elim (Bool-cases (stale ttl now (c.clients i))) [
        | inr kept ↦
            let ih = sweep_from-lookup key es c n d found keys before in
            let same : (stale ttl now (start i)) ≡ false = rw (← b) kept in
            rw (sweep_kept ttl now n k i es c kept) (ground (arith, ih, text_eq_iff k key))
        | inl gone ↦
            let ih =
              sweep_from-lookup key es (evict k c) (n + 1) d
                (rw (evict_present c k i f) (others_found k c.entries es e found)) keys
                (evict-AsBefore c k i es f p e keys before) in
            let same : (stale ttl now (start i)) ≡ true = rw (← b) gone in
            rw (sweep_gone ttl now n k i es c gone) (
              ground (
                arith,
                ih,
                text_eq_iff k key,
                evict_present c k i f,
                lookup-remove k key c.entries,
              ))
      ]

live-keys :
    (clients : ℕ → Client) (next : ℕ) (es : List (Text × ℕ))
    → All (IsLive clients next) es
    → All (λ e. (clients e.1).key ≡ e.0) es
live-keys clients next [] h = tt
live-keys clients next (e ∷ es) (p, h) = (p.0, live-keys clients next es h)

unchanged : (clients : ℕ → Client) (es : List (Text × ℕ)) → All (λ e. clients e.1 ≡ clients e.1) es
unchanged clients [] = tt
unchanged clients (e ∷ es) = (refl, unchanged clients es)

sweep-after :
    (max ttl now : ℕ) (c : Cache) (key : Text)
    → IsValid max 0 c
    → lookup key (sweep ttl now c).0.entries ≡ after_sweep ttl now c.clients (lookup key c.entries)
unfolding sweep
sweep-after max ttl now c key v =
    let h =
      sweep_from-lookup ttl now c.clients key c.entries c 0 v.distinct
        (found_everywhere c.entries v.distinct) (live-keys c.clients c.next_client c.entries v.live)
        (unchanged c.clients c.entries) in
    ground (arith, h)

-- `Sweep` on a valid cache drops an entry exactly if its client was last used more than `IdleTtl` ago and
-- has no request in flight; every other entry keeps its client, and no entry is added.
pub lookup-sweep :
    (max ttl now : ℕ) (c : Cache) (key : Text)
    → IsValid max 0 c
    → (lookup key c.entries ≡ none → lookup key (sweep ttl now c).0.entries ≡ none)
      × ((i : ℕ)
          → lookup key c.entries ≡ some i
          → ((lookup key (sweep ttl now c).0.entries ≡ none) ↔ (
              ((c.clients i).last_used + ttl < now)
              × ((c.clients i).acquired ≡ (c.clients i).released)))
            × (lookup key (sweep ttl now c).0.entries ≢ none
                → lookup key (sweep ttl now c).0.entries ≡ some i))
lookup-sweep max ttl now c key v =
    let h = sweep-after max ttl now c key v in
    (
      λ e. h ∙ rw e refl,
      λ i e.
          let f : lookup key (sweep ttl now c).0.entries
              ≡ (if stale ttl now (c.clients i) then none else some i) =
            h ∙ rw e refl in
          elim (Bool-cases (stale ttl now (c.clients i))) [
            | inl gone ↦ (
              (λ g. (ground arith, ground arith), λ g. f ∙ rw gone refl),
              λ g. absurd (g (f ∙ rw gone refl)),
            )
            | inr kept ↦
                ((λ g. absurd (ground arith), λ g. absurd (ground arith)), λ g. f ∙ rw kept refl)
          ],
    )
