-- ===== src/Impersonate/Cache/Insertion.antt =====
-- internal/impersonate/cache.go: `insert` under the invariant, and the pieces of a new entry.
use tls_impersonate_proxy.Base.{
  ℕ, zero, suc, ◌+◌, ◌≤◌, ◌<◌, ◌≡◌, refl, ◌≢◌, inl, inr, false, some, List, [], ◌∷◌, arith, length,
  leb, ◌==◌, Bool-cases, All, ◌∙◌,
}
use tls_impersonate_proxy.Text.{Text, text_eq_iff}
use tls_impersonate_proxy.Assoc.{
  lookup, put, remove, has_key, lookup-put, lookup-remove, All-lookup, All-remove,
}
use tls_impersonate_proxy.Impersonate.Client.{Client, IsSound}
use tls_impersonate_proxy.Impersonate.Cache.{
  Cache, update, max_int64, evict, least_recent, make_room,
}
use tls_impersonate_proxy.Impersonate.Cache.Room.{least_recent_lem, evict_present}
use tls_impersonate_proxy.Impersonate.Cache.Invariant.{
  IsLive, IsValid, update-IsLive, update-IsSound, update-balanced, evict-IsValid,
}

-- What evictions leave alone: a client that no entry names, a key with no entry, the builds.
pub record Kept (i : ℕ) (key : Text) (c c' : Cache) : Type 0 where
  pub client : c'.clients i ≡ c.clients i
  pub others : All (λ e. e.1 ≢ i) c'.entries
  pub absent : has_key key c'.entries ≡ false
  pub pending : c'.pending ≡ c.pending
  pub next : c'.next_client ≡ c.next_client

evict-Kept :
    (i : ℕ) (key : Text) (c : Cache) (victim : Text) (j : ℕ)
    → lookup victim c.entries ≡ some j
    → All (λ e. e.1 ≢ i) c.entries
    → has_key key c.entries ≡ false
    → Kept i key c (evict victim c)
evict-Kept i key c victim j e others absent = record {
  client =
      rw (evict_present c victim j e)
        (ground (arith, All-lookup (λ e. e.1 ≢ i) victim j c.entries others e));
  others =
      rw (evict_present c victim j e)
        (All-remove (λ (e : Text × ℕ). e.1 ≢ i) victim c.entries (drop c.entries others));
  absent = rw (evict_present c victim j e) (ground (arith, lookup-remove victim key c.entries));
  pending = rw (evict_present c victim j e);
  next = rw (evict_present c victim j e);
}
  where
    drop : (es : List (Text × ℕ)) → All (λ e. e.1 ≢ i) es → All (λ e. e.0 ≢ victim → e.1 ≢ i) es
    drop [] h = tt
    drop (x ∷ es) (p, h) = (λ _. p, drop es h)

pub make_room-IsValid :
    (fuel max n m : ℕ) (c c' : Cache) (i : ℕ) (key : Text)
    → 0 < max
    → make_room fuel max c n ≡ some (c', m)
    → IsValid max n c
    → All (λ e. e.1 ≢ i) c.entries
    → has_key key c.entries ≡ false
    → IsValid max m c' × Kept i key c c' × (length c'.entries < max)
unfolding make_room
make_room-IsValid zero max n m c c' i key pos e v others absent = absurd (ground arith)
make_room-IsValid (suc fuel) max n m c c' i key pos e v others absent =
    elim (Bool-cases (leb max (length c.entries))) [
      | inr room ↦
          let same : c ≡ c' = ground arith in
          let count : n ≡ m = ground arith in
          rw (← same, ← count)
            (
              v,
              record {
                client = refl;
                others = others;
                absent = absent;
                pending = refl;
                next = refl;
              },
              ground arith,
            )
      | inl full ↦
          let (j, found, all) = least_recent_lem c v.distinct v.timely (ground arith) in
          let k = evict-Kept i key c (least_recent c) j found others absent in
          let v' = evict-IsValid max n c (least_recent c) j found v in
          let (v'', k', lt) =
            make_room-IsValid fuel max (n + 1) m (evict (least_recent c) c) c' i key pos
              (ground arith) v' k.others k.absent in
          (
            v'',
            record {
              client = k'.client ∙ k.client;
              others = k'.others;
              absent = k'.absent;
              pending = k'.pending ∙ k.pending;
              next = k'.next ∙ k.next;
            },
            lt,
          )
    ]

-- A client that is about to be built: no entry has its number yet.
pub update-IsLive_next :
    (clients : ℕ → Client) (next : ℕ) (c : Client) (es : List (Text × ℕ))
    → All (IsLive clients next) es
    → All (IsLive (update clients next c) (next + 1)) es × All (λ e. e.1 ≢ next) es
update-IsLive_next clients next c [] h = (tt, tt)
update-IsLive_next clients next c (e ∷ es) ((p, q, r), hs) =
    let ih = update-IsLive_next clients next c es hs in
    let ne : e.1 ≢ next = omega arith in
    let off : (next == e.1) ≡ false = ground arith in
    ((rw off (p, q, omega arith), ih.0), (ne, ih.1))

pub update-timely :
    (clients : ℕ → Client) (i : ℕ) (c : Client) (es : List (Text × ℕ))
    → c.last_used < max_int64
    → All (λ e. (clients e.1).last_used < max_int64) es
    → All (λ e. (update clients i c e.1).last_used < max_int64) es
update-timely clients i c [] h hs = tt
update-timely clients i c (e ∷ es) h (p, hs) = (ground arith, update-timely clients i c es h hs)

pub remove-ne : (key : Text) (m : List (Text × ℕ)) → All (λ e. e.0 ≢ key) (remove key m)
remove-ne key m = All-remove (λ (e : Text × ℕ). e.0 ≢ key) key m (all m)
  where
    all : (m : List (Text × ℕ)) → All (λ e. e.0 ≢ key → e.0 ≢ key) m
    all [] = tt
    all (e ∷ m) = (λ h. h, all m)

pub put-apart :
    (key : Text) (i : ℕ) (es ps : List (Text × ℕ))
    → All (λ e. e.0 ≢ key) ps
    → All (λ e. has_key e.0 es ≡ false) ps
    → All (λ e. has_key e.0 (put key i es) ≡ false) ps
put-apart key i es [] q h = tt
put-apart key i es (p ∷ ps) (q, qs) (h, hs) =
    (ground (arith, lookup-put key p.0 i es, text_eq_iff key p.0), put-apart key i es ps qs hs)

pub remove-All :
    (P : Text × ℕ → Type 0) (key : Text) (m : List (Text × ℕ)) → All P m → All P (remove key m)
remove-All P key m h = All-remove P key m (drop m h)
  where
    drop : (m : List (Text × ℕ)) → All P m → All (λ e. e.0 ≢ key → P e) m
    drop [] h = tt
    drop (e ∷ m) (p, h) = (λ _. p, drop m h)

-- A change of one client that the cache's own fields do not see.
pub touch-IsValid :
    (max n : ℕ) (c : Cache) (i : ℕ) (x : Client)
    → IsValid max n c
    → x.key ≡ (c.clients i).key
    → x.retired ≡ (c.clients i).retired
    → IsSound x
    → x.released ≤ x.acquired
    → All (λ e. (update c.clients i x e.1).last_used < max_int64) c.entries
    → IsValid max n (record c { clients = update c.clients i x })
touch-IsValid max n c i x v k r s b t = record {
  distinct = v.distinct;
  live = update-IsLive c.clients i x c.next_client c.entries k r v.live;
  sound = update-IsSound c.clients i x v.sound s;
  balanced = update-balanced c.clients i x v.balanced b;
  timely = t;
  bounded = v.bounded;
  pending_distinct = v.pending_distinct;
  apart = v.apart;
  gauge = v.gauge;
}
