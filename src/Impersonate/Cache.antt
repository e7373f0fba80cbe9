-- ===== src/Impersonate/Cache.antt =====
-- internal/impersonate/cache.go: the cache of clients by the key of their spec.
-- A pointer to a client or to a pending build is a number, and the two heaps are functions of it.
-- `Get` is cut where it gives up the lock: `get_enter`, `get_built` and `share` are the atomic parts,
-- and other goroutines act between them. The observer's four counters are kept in the state.
pub mod Room
pub mod Invariant
pub mod Insertion
pub mod Steps
pub mod Sweep
pub mod Reach
use tls_impersonate_proxy.Base.{
  ℕ, zero, suc, ◌+◌, Bool, true, false, ◌&&◌, Option, none, some, List, [], ◌∷◌, length, ltb, leb,
  ◌==◌, if◌then◌else◌, ◌>>=◌,
}
use tls_impersonate_proxy.Text.{Text}
use tls_impersonate_proxy.Assoc.{lookup, put, remove}
use tls_impersonate_proxy.Impersonate.Client.{Client, fresh, is_idle, acquire, retire}

pub record CacheOptions : Type 0 where
  pub max : ℕ
  pub idle_ttl : ℕ

-- `done` says that the channel is closed; then no client is an error of the build.
pub record Pending : Type 0 where
  pub done : Bool
  pub client : Option ℕ

pub record Cache : Type 0 where
  pub entries : List (Text × ℕ)
  pub pending : List (Text × ℕ)
  pub clients : ℕ → Client
  pub next_client : ℕ
  pub builds : ℕ → Pending
  pub next_build : ℕ
  pub hits : ℕ
  pub misses : ℕ
  pub built : ℕ
  pub evicted : ℕ

abbrev pub update {ℓ} : {A : Type ℓ} → (ℕ → A) → ℕ → A → ℕ → A
update f i a j = if i == j then a else f j

abbrev pub max_int64 : ℕ
max_int64 = 9223372036854775807

-- The state that `NewCache` makes.
abbrev pub new_cache : Cache
new_cache = record {
  entries = [];
  pending = [];
  clients = λ i. fresh [];
  next_client = 0;
  builds = λ p. record { done = false; client = none };
  next_build = 0;
  hits = 0;
  misses = 0;
  built = 0;
  evicted = 0;
}

-- The loop of `leastRecent`.
unfoldable pub oldest_of : (ℕ → Client) → List (Text × ℕ) → Text → ℕ → Text
oldest_of clients [] oldest oldest_at = oldest
oldest_of clients ((k, i) ∷ es) oldest oldest_at =
    let older = ltb (clients i).last_used oldest_at in
    oldest_of clients es (if older then k else oldest)
      (if older then (clients i).last_used else oldest_at)

unfoldable pub least_recent : Cache → Text
unfolding oldest_of
least_recent c = oldest_of c.clients c.entries [] max_int64

unfoldable pub evict : Text → Cache → Cache
evict key c = elim (lookup key c.entries) [
  | none ↦ c
  | some i ↦ record c {
    entries = remove key c.entries;
    clients = update c.clients i (retire (c.clients i));
  }
]

-- The loop of `insert`, with the clients evicted so far; `none` is the end of the fuel.
unfoldable pub make_room : ℕ → ℕ → Cache → ℕ → Option (Cache × ℕ)
make_room zero max c n = none
make_room (suc fuel) max c n = elim (leb max (length c.entries)) [
  | true ↦ make_room fuel max (evict (least_recent c) c) (n + 1)
  | false ↦ some (c, n)
]

unfoldable pub insert : ℕ → Text → ℕ → Cache → Option (Cache × ℕ)
insert max key i c = do
  (c', n) ← make_room (suc (length c.entries)) max c 0
  some (record c' { entries = put key i c'.entries }, n)

-- What the first part of `Get` found: a client, a build to wait for, or a build to make.
pub data Got : Type 0 where
  hit : ℕ → Got
  wait : ℕ → Got
  build : ℕ → Got

unfoldable pub get_enter : Text → ℕ → Cache → Cache × Got
get_enter key now c = elim (lookup key c.entries) [
  | some i ↦ (
    record c { clients = update c.clients i (acquire now (c.clients i)); hits = c.hits + 1 },
    hit i,
  )
  | none ↦ elim (lookup key c.pending) [
    | some p ↦ (record c { hits = c.hits + 1 }, wait p)
    | none ↦ (
      record c {
        pending = put key c.next_build c.pending;
        builds = update c.builds c.next_build (record { done = false; client = none });
        next_build = c.next_build + 1;
        misses = c.misses + 1;
      },
      build c.next_build,
    )
  ]
]

-- The second part of a `Get` whose build failed.
unfoldable pub get_failed : Text → ℕ → Cache → Cache
get_failed key p c = record c {
  pending = remove key c.pending;
  builds = update c.builds p (record { done = true; client = none });
}

-- The second part of a `Get` whose build gave a client.
unfoldable pub get_built : ℕ → Text → ℕ → ℕ → Cache → Option Cache
get_built max key p now c = do
  let i = c.next_client
  let c' = record c {
    pending = remove key c.pending;
    clients = update c.clients i (fresh key);
    next_client = i + 1;
  }
  (c'', n) ← insert max key i c'
  some (record c'' {
    clients = update c''.clients i (acquire now (c''.clients i));
    builds = update c''.builds p (record { done = true; client = some i });
    built = c''.built + 1;
    evicted = c''.evicted + n;
  })

-- `share`, once `<-p.done` returns; `none` while it blocks. An error of the build is no client.
unfoldable pub share : ℕ → ℕ → Cache → Option (Cache × Option ℕ)
share p now c =
    if (c.builds p).done
    then (elim (c.builds p).client [
      | none ↦ some (c, none)
      | some i ↦
          some (record c { clients = update c.clients i (acquire now (c.clients i)) }, some i)
    ])
    else none

-- `client.lastUsed < cutoff && client.inflight == 0`, with `IdleTtl` moved to the other side.
abbrev pub stale : ℕ → ℕ → Client → Bool
stale ttl now client = ltb (client.last_used + ttl) now && is_idle client

-- The loop of `Sweep`, over the entries as they were.
unfoldable pub sweep_from : ℕ → ℕ → List (Text × ℕ) → Cache → ℕ → Cache × ℕ
sweep_from ttl now [] c n = (c, n)
sweep_from ttl now ((k, i) ∷ es) c n =
    let test = stale ttl now (c.clients i) in
    sweep_from ttl now es (if test then evict k c else c) (if test then n + 1 else n)

unfoldable pub sweep : ℕ → ℕ → Cache → Cache × ℕ
unfolding sweep_from
sweep ttl now c =
    let (c', n) = sweep_from ttl now c.entries c 0 in (record c' { evicted = c'.evicted + n }, n)

unfoldable pub close_from : List (Text × ℕ) → Cache → Cache
close_from [] c = c
close_from ((k, i) ∷ es) c = close_from es (evict k c)

unfoldable pub close : Cache → Cache
unfolding close_from
close c = close_from c.entries c
