-- ===== src/Impersonate/Cache/Reach.antt =====
-- internal/impersonate/cache.go: the steps that goroutines interleave on a cache, and what holds of
-- every cache that they reach from the empty one.
use tls_impersonate_proxy.Base.{
  ℕ, ◌+◌, ◌<◌, ◌≡◌, refl, inl, inr, true, false, Option, none, some, List, [], ◌∷◌, arith, ◌==◌,
  Bool-cases, Option-cases, All, ◌∙◌,
}
use tls_impersonate_proxy.Text.{Text}
use tls_impersonate_proxy.Assoc.{
  lookup, put, remove, has_key, Distinct-put, Distinct-remove, All-lookup, All-put,
}
use tls_impersonate_proxy.Impersonate.Client.{
  Client, acquire, release, fresh-IsSound, release-IsSound,
}
use tls_impersonate_proxy.Impersonate.Cache.{
  Cache, CacheOptions, Got, update, max_int64, new_cache, get_enter, get_failed, get_built, share,
  sweep,
}
use tls_impersonate_proxy.Impersonate.Cache.Invariant.{IsLive, IsValid}
use tls_impersonate_proxy.Impersonate.Cache.Insertion.{remove-All, touch-IsValid}
use tls_impersonate_proxy.Impersonate.Cache.Steps.{
  acquire-IsValid, acquire-facts, release-facts, get_built-IsValid, books-IsValid, pending-IsValid,
}
use tls_impersonate_proxy.Impersonate.Cache.Sweep.{sweep-IsValid}

-- One step of some goroutine: the first part of a `Get`; the second part of the `Get` that makes the
-- build of a key; `share` in a `Get` that waited; a `Release`, as one step, by one who has a client;
-- the sweeper's round. The clock and the result of the build are the environment's choice.
pub data Step (o : CacheOptions) (c : Cache) : Cache → Type 0 where
  enter : (key : Text) (now : ℕ) → now < max_int64 → Step o c (get_enter key now c).0
  failed : (key : Text) (p : ℕ) → lookup key c.pending ≡ some p → Step o c (get_failed key p c)
  built :
      {d : Cache} (key : Text) (p now : ℕ)
      → lookup key c.pending ≡ some p
      → now < max_int64
      → get_built o.max key p now c ≡ some d
      → Step o c d
  shared :
      {d : Cache} (p now : ℕ) (r : Option ℕ)
      → now < max_int64
      → share p now c ≡ some (d, r)
      → Step o c d
  released :
      (i : ℕ)
      → (c.clients i).released < (c.clients i).acquired
      → Step o c (record c { clients = update c.clients i (release (c.clients i)) })
  swept : (now : ℕ) → Step o c (sweep o.idle_ttl now c).0

pub data Reach (o : CacheOptions) (c : Cache) : Cache → Type 0 where
  here : Reach o c c
  next : {d e : Cache} → Reach o c d → Step o d e → Reach o c e

new_cache-IsValid : (max : ℕ) → IsValid max 0 new_cache
new_cache-IsValid max = record {
  distinct = tt;
  live = tt;
  sound = λ i. fresh-IsSound [];
  balanced = λ i. omega arith;
  timely = tt;
  bounded = omega arith;
  pending_distinct = tt;
  apart = tt;
  gauge = refl;
}

module _ (key : Text) (now : ℕ) (c : Cache) where
  pub enter_hit :
      (i : ℕ)
      → lookup key c.entries ≡ some i
      → get_enter key now c ≡ (
        record c { clients = update c.clients i (acquire now (c.clients i)); hits = c.hits + 1 },
        Got.hit i,
      )
  unfolding get_enter
  enter_hit i e = rw (e, get_enter)

  pub enter_wait :
      (p : ℕ)
      → lookup key c.entries ≡ none
      → lookup key c.pending ≡ some p
      → get_enter key now c ≡ (record c { hits = c.hits + 1 }, Got.wait p)
  unfolding get_enter
  enter_wait p e f = rw (e, f, get_enter)

  pub enter_build :
      lookup key c.entries ≡ none
      → lookup key c.pending ≡ none
      → get_enter key now c ≡ (
        record c {
          pending = put key c.next_build c.pending;
          builds = update c.builds c.next_build (record { done = false; client = none });
          next_build = c.next_build + 1;
          misses = c.misses + 1;
        },
        Got.build c.next_build,
      )
  unfolding get_enter
  enter_build e f = rw (e, f, get_enter)

enter-IsValid :
    (max now : ℕ) (key : Text) (c : Cache)
    → now < max_int64
    → IsValid max 0 c
    → IsValid max 0 (get_enter key now c).0
enter-IsValid max now key c t v = elim (Option-cases (lookup key c.entries)) [
  | inr (i, e) ↦ rw (enter_hit key now c i e) (
      books-IsValid max 0 _ (c.hits + 1) c.misses c.next_build c.builds
        (acquire-IsValid max 0 now c i t v))
  | inl e ↦ elim (Option-cases (lookup key c.pending)) [
    | inr (p, f) ↦
        rw (enter_wait key now c p e f)
          (books-IsValid max 0 c (c.hits + 1) c.misses c.next_build c.builds v)
    | inl f ↦ rw (enter_build key now c e f) (
        books-IsValid max 0 (record c { pending = put key c.next_build c.pending }) c.hits
          (c.misses + 1) (c.next_build + 1) _
          (pending-IsValid max 0 c (put key c.next_build c.pending)
            (Distinct-put key c.next_build c.pending v.pending_distinct)
            (All-put (λ x. has_key x.0 c.entries ≡ false) key c.next_build c.pending (ground arith)
              v.apart)
            v))
  ]
]

share-IsValid :
    (max now p : ℕ) (c d : Cache) (r : Option ℕ)
    → now < max_int64
    → share p now c ≡ some (d, r)
    → IsValid max 0 c
    → IsValid max 0 d
unfolding share
share-IsValid max now p c d r t e v = elim (Option-cases (c.builds p).client) [
  | inl f ↦ let same : c ≡ d = ground arith in rw (← same) v
  | inr (i, f) ↦
      let same : record c { clients = update c.clients i (acquire now (c.clients i)) } ≡ d =
        ground arith in
      rw (← same) (acquire-IsValid max 0 now c i t v)
]

entries-timely :
    (c : Cache) (i : ℕ) (x : Client) (es : List (Text × ℕ))
    → x.last_used ≡ (c.clients i).last_used
    → All (λ e. (c.clients e.1).last_used < max_int64) es
    → All (λ e. (update c.clients i x e.1).last_used < max_int64) es
entries-timely c i x [] same h = tt
entries-timely c i x (e ∷ es) same (p, h) = (
  elim (Bool-cases (i == e.1)) [
    | inl on ↦ let e' : i ≡ e.1 = ground arith in rw on (rw same (rw e' p))
    | inr off ↦ rw off p
  ],
  entries-timely c i x es same h,
)

release-IsValid :
    (max : ℕ) (c : Cache) (i : ℕ)
    → (c.clients i).released < (c.clients i).acquired
    → IsValid max 0 c
    → IsValid max 0 (record c { clients = update c.clients i (release (c.clients i)) })
release-IsValid max c i lt v =
    let f = release-facts (c.clients i) in
    touch-IsValid max 0 c i (release (c.clients i)) v f.0 f.1
      (release-IsSound (c.clients i) (v.sound i)) (omega arith)
      (entries-timely c i (release (c.clients i)) c.entries f.2 v.timely)

-- Every step of every goroutine keeps the invariant, in a cache that may hold a client at all.
pub Step-IsValid :
    {o : CacheOptions} {c d : Cache}
    → 0 < o.max
    → Step o c d
    → IsValid o.max 0 c
    → IsValid o.max 0 d
unfolding get_failed
Step-IsValid {o} {c} pos (enter key now t) v = enter-IsValid o.max now key c t v
Step-IsValid {o} {c} pos (failed key p e) v =
    books-IsValid o.max 0 (record c { pending = remove key c.pending }) c.hits c.misses c.next_build
      _
      (pending-IsValid o.max 0 c (remove key c.pending)
        (Distinct-remove key c.pending v.pending_distinct)
        (remove-All (λ e. has_key e.0 c.entries ≡ false) key c.pending v.apart) v)
Step-IsValid {o} {c} {d} pos (built key p now e t made) v =
    get_built-IsValid o.max now p key c d p pos t e made v
Step-IsValid {o} {c} {d} pos (shared p now r t e) v = share-IsValid o.max now p c d r t e v
Step-IsValid {o} {c} pos (released i lt) v = release-IsValid o.max c i lt v
Step-IsValid {o} {c} pos (swept now) v = sweep-IsValid o.max o.idle_ttl now c v

-- With `Max` above 0, and whatever `Get`, `Release` and `Sweep` the goroutines do, in whatever order of
-- their atomic parts (a `Release` being one), the cache keeps its invariant: no key has two entries, every entry names a client of its own key that is neither retired nor closed, there are
-- at most `Max` entries, no key that is being built has an entry, a client is closed only after it
-- was retired and never twice, a retired client that nobody uses is closed, and the observer's builds
-- are its evictions and the entries.
pub Reach-IsValid :
    {o : CacheOptions} {c : Cache} → 0 < o.max → Reach o new_cache c → IsValid o.max 0 c
Reach-IsValid {o} pos here = new_cache-IsValid o.max
Reach-IsValid pos (next r s) = Step-IsValid pos s (Reach-IsValid pos r)

-- In every cache that is so reached, with `Max` above 0, a hit hands out a client of the key that is
-- neither retired nor closed and is now in use.
pub get_enter-usable :
    {o : CacheOptions} {c : Cache} (key : Text) (now i : ℕ)
    → 0 < o.max
    → Reach o new_cache c
    → (get_enter key now c).1 ≡ Got.hit i
    → let client = (get_enter key now c).0.clients i in
      (client.key ≡ key)
      × (client.retired ≡ false)
      × (client.closed ≡ false)
      × (client.released < client.acquired)
get_enter-usable {o} {c} key now i pos r e =
    let v = Reach-IsValid pos r in
    elim (Option-cases (lookup key c.entries)) [
      | inl f ↦ absurd (miss f)
      | inr (j, f) ↦
          let same : j ≡ i = ground (arith, enter_hit key now c j f) in
          let live = All-lookup (IsLive c.clients c.next_client) key j c.entries v.live f in
          let a = acquire-facts now (c.clients j) in
          let shut : (c.clients j).closed ≡ false = elim (Bool-cases (c.clients j).closed) [
            | inl h ↦ absurd (ground (arith, (v.sound j).closed_retired h, live.1))
            | inr h ↦ h
          ] in
          let on : (j == j) ≡ true = ground arith in
          let b = v.balanced j in
          rw (← same, enter_hit key now c j f)
            (rw on (a.0 ∙ live.0, a.1 ∙ live.1, a.5 ∙ shut, omega arith))
    ]
  where
    miss : lookup key c.entries ≡ none → ⊥
    miss f = elim (Option-cases (lookup key c.pending)) [
      | inl g ↦ ground (arith, enter_build key now c f g)
      | inr (p, g) ↦ ground (arith, enter_wait key now c p f g)
    ]

-- In every cache that is so reached, with `Max` above 0, a `Get` of a key that is being built waits for
-- that build, starts no other and changes nothing but the count of hits.
pub get_enter-wait :
    {o : CacheOptions} {c : Cache} (key : Text) (now p : ℕ)
    → 0 < o.max
    → Reach o new_cache c
    → lookup key c.pending ≡ some p
    → get_enter key now c ≡ (record c { hits = c.hits + 1 }, Got.wait p)
get_enter-wait {o} {c} key now p pos r f =
    let v = Reach-IsValid pos r in
    let free = All-lookup (λ x. has_key x.0 c.entries ≡ false) key p c.pending v.apart f in
    enter_wait key now c p (ground arith) f
