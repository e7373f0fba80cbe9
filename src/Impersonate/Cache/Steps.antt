-- ===== src/Impersonate/Cache/Steps.antt =====
-- internal/impersonate/cache.go: the atomic parts of `Get`, `Release` and `Sweep` as steps that the
-- goroutines interleave, and the invariant of every cache that they reach.
use tls_impersonate_proxy.Base.{
  ℕ, suc, ◌+◌, ◌<◌, ◌≡◌, refl, inl, inr, true, false, none, some, List, arith, length, ◌==◌,
  Option-cases, All, ◌∙◌, ap,
}
use tls_impersonate_proxy.Text.{Text}
use tls_impersonate_proxy.Assoc.{
  lookup, put, remove, has_key, Distinct, Distinct-put, Distinct-remove, length-put_absent,
  All-lookup, All-put,
}
use tls_impersonate_proxy.Impersonate.Client.{
  Client, fresh, acquire, release, fresh-IsSound, acquire-IsSound,
}
use tls_impersonate_proxy.Impersonate.Cache.{
  Cache, Pending, update, max_int64, make_room, insert, get_built,
}
use tls_impersonate_proxy.Impersonate.Cache.Room.{make_room_total}
use tls_impersonate_proxy.Impersonate.Cache.Invariant.{
  IsLive, IsValid, update-IsLive, update-IsSound, update-balanced,
}
use tls_impersonate_proxy.Impersonate.Cache.Insertion.{
  Kept, make_room-IsValid, update-IsLive_next, update-timely, remove-ne, put-apart, remove-All,
  touch-IsValid,
}

pub acquire-facts :
    (now : ℕ) (c : Client)
    → ((acquire now c).key ≡ c.key)
      × ((acquire now c).retired ≡ c.retired)
      × ((acquire now c).last_used ≡ now)
      × ((acquire now c).released ≡ c.released)
      × ((acquire now c).acquired ≡ c.acquired + 1)
      × ((acquire now c).closed ≡ c.closed)
unfolding acquire
acquire-facts now c = (refl, refl, refl, refl, refl, refl)

pub acquire-IsValid :
    (max n now : ℕ) (c : Cache) (i : ℕ)
    → now < max_int64
    → IsValid max n c
    → IsValid max n (record c { clients = update c.clients i (acquire now (c.clients i)) })
acquire-IsValid max n now c i t v =
    let f = acquire-facts now (c.clients i) in
    touch-IsValid max n c i (acquire now (c.clients i)) v f.0 f.1
      (acquire-IsSound now (c.clients i) (v.sound i) (v.balanced i)) (omega (arith, v.balanced i))
      (update-timely c.clients i _ c.entries (omega arith) v.timely)

pub release-facts :
    (c : Client)
    → ((release c).key ≡ c.key)
      × ((release c).retired ≡ c.retired)
      × ((release c).last_used ≡ c.last_used)
      × ((release c).released ≡ c.released + 1)
      × ((release c).acquired ≡ c.acquired)
unfolding release
release-facts c = ground arith

module _ (max now p : ℕ) (key : Text) (c : Cache) where
  -- The state in which the new client is inserted.
  abbrev pub before_insert : Cache
  before_insert = record c {
    pending = remove key c.pending;
    clients = update c.clients c.next_client (fresh key);
    next_client = c.next_client + 1;
  }

  before_insert-IsValid : IsValid max 0 c → IsValid max 0 before_insert
  before_insert-IsValid v = record {
    distinct = v.distinct;
    live = (update-IsLive_next c.clients c.next_client (fresh key) c.entries v.live).0;
    sound = update-IsSound c.clients c.next_client (fresh key) v.sound (fresh-IsSound key);
    balanced = update-balanced c.clients c.next_client (fresh key) v.balanced (omega arith);
    timely = update-timely c.clients c.next_client (fresh key) c.entries (omega arith) v.timely;
    bounded = v.bounded;
    pending_distinct = Distinct-remove key c.pending v.pending_distinct;
    apart = remove-All (λ e. has_key e.0 c.entries ≡ false) key c.pending v.apart;
    gauge = v.gauge;
  }

  abbrev pub after_insert : Cache → ℕ → Cache
  after_insert c' n = record c' {
    entries = put key c.next_client c'.entries;
    clients = update c'.clients c.next_client (acquire now (c'.clients c.next_client));
    builds = update c'.builds p (record { done = true; client = some c.next_client });
    built = c'.built + 1;
    evicted = c'.evicted + n;
  }

  after_insert-IsValid :
      (c' : Cache) (n : ℕ)
      → now < max_int64
      → IsValid max n c'
      → Kept c.next_client key before_insert c'
      → length c'.entries < max
      → IsValid max 0 (after_insert c' n)
  after_insert-IsValid c' n t v k lt =
      let i = c.next_client in
      let new = c'.clients i in
      let f = acquire-facts now new in
      let self : (i == i) ≡ true = ground arith in
      let made : new ≡ fresh key = k.client ∙ (rw self) in
      let absent : lookup key c'.entries ≡ none = ground (arith, k.absent) in
      let longer = length-put_absent key i c'.entries absent in
      record {
        distinct = Distinct-put key i c'.entries v.distinct;
        live =
            All-put (IsLive (update c'.clients i (acquire now new)) c'.next_client) key i c'.entries
              (rw self
                (f.0 ∙ ap Client.key made, f.1 ∙ ap Client.retired made, omega (arith, k.next)))
              (update-IsLive c'.clients i (acquire now new) c'.next_client c'.entries f.0 f.1
                v.live);
        sound =
            update-IsSound c'.clients i (acquire now new) v.sound
              (acquire-IsSound now new (v.sound i) (v.balanced i));
        balanced =
            update-balanced c'.clients i (acquire now new) v.balanced (omega (arith, v.balanced i));
        timely =
            All-put (λ e. (update c'.clients i (acquire now new) e.1).last_used < max_int64) key i
              c'.entries (rw self (omega arith))
              (update-timely c'.clients i (acquire now new) c'.entries (omega arith) v.timely);
        bounded = omega arith;
        pending_distinct = v.pending_distinct;
        apart =
            put-apart key i c'.entries c'.pending (rw k.pending (remove-ne key c.pending)) v.apart;
        gauge = omega (arith, v.gauge);
      }

  pub get_built-IsValid :
      (d : Cache) (q : ℕ)
      → 0 < max
      → now < max_int64
      → lookup key c.pending ≡ some q
      → get_built max key p now c ≡ some d
      → IsValid max 0 c
      → IsValid max 0 d
  unfolding get_built insert
  get_built-IsValid d q pos t waiting e v =
      elim (Option-cases (make_room (suc (length c.entries)) max before_insert 0)) [
        | inl out ↦ absurd (ground arith)
        | inr ((c', n), room) ↦
            let same : after_insert c' n ≡ d = ground arith in
            let (v', k, lt) =
              make_room-IsValid (suc (length c.entries)) max 0 n before_insert c' c.next_client key
                pos room (before_insert-IsValid v)
                (update-IsLive_next c.clients c.next_client (fresh key) c.entries v.live).1
                (All-lookup (λ e. has_key e.0 c.entries ≡ false) key q c.pending v.apart waiting) in
            rw (← same) (after_insert-IsValid c' n t v' k lt)
      ]

  -- In a valid cache, with `Max` above 0, a build of a pending key that gives a client ends: the loop that
  -- makes room for it comes to its end, at any time of the clock.
  pub get_built_total :
      (q : ℕ)
      → 0 < max
      → lookup key c.pending ≡ some q
      → IsValid max 0 c
      → (d : Cache) × (get_built max key p now c ≡ some d)
  unfolding get_built insert
  get_built_total q pos waiting v =
      let v' = before_insert-IsValid v in
      let (c', n, e, lt, count) =
        make_room_total (suc (length c.entries)) max before_insert 0 v'.distinct v'.timely pos
          (omega arith) in
      (after_insert c' n, rw e)

-- The counters of hits and misses and the heap of builds are no part of the invariant.
pub books-IsValid :
    (max n : ℕ) (c : Cache) (hits misses next : ℕ) (builds : ℕ → Pending)
    → IsValid max n c
    → IsValid max n (record c { hits = hits; misses = misses; next_build = next; builds = builds })
books-IsValid max n c hits misses next builds v = record {
  distinct = v.distinct;
  live = v.live;
  sound = v.sound;
  balanced = v.balanced;
  timely = v.timely;
  bounded = v.bounded;
  pending_distinct = v.pending_distinct;
  apart = v.apart;
  gauge = v.gauge;
}

pub pending-IsValid :
    (max n : ℕ) (c : Cache) (pending : List (Text × ℕ))
    → Distinct pending
    → All (λ e. has_key e.0 c.entries ≡ false) pending
    → IsValid max n c
    → IsValid max n (record c { pending = pending })
pending-IsValid max n c pending d a v = record {
  distinct = v.distinct;
  live = v.live;
  sound = v.sound;
  balanced = v.balanced;
  timely = v.timely;
  bounded = v.bounded;
  pending_distinct = d;
  apart = a;
  gauge = v.gauge;
}
