-- ===== src/Impersonate/Tests.antt =====
-- Runs of the client cache, and the theorems at concrete caches.
use tls_impersonate_proxy.Base.{
  ◌↔◌, ◌≢◌, ◌<◌, none, some, ◌+◌, ℕ, ◌+◌, ◌<◌, ◌≡◌, refl, true, false, none, some, [], ◌∷◌, arith,
}
use tls_impersonate_proxy.Text.{text, text_eq}
use tls_impersonate_proxy.Assoc.{lookup, put, remove}
use tls_impersonate_proxy.Impersonate.Client
use tls_impersonate_proxy.Impersonate.Client.{
  Client, fresh, acquire, retire, release, release_count, release_check, usable,
}
use tls_impersonate_proxy.Impersonate.Cache.{
  Cache, CacheOptions, Got, update, new_cache, least_recent, evict, make_room, insert, get_enter,
  get_failed, get_built, share, sweep,
}
use tls_impersonate_proxy.Impersonate.Cache.Invariant.{IsValid}
use tls_impersonate_proxy.Impersonate.Cache.Sweep.{lookup-sweep}
use tls_impersonate_proxy.Impersonate.Cache.Steps.{get_built_total}
use tls_impersonate_proxy.Impersonate.Cache.Reach.{
  Step, Reach, Reach-IsValid, get_enter-usable, get_enter-wait,
}
use tls_impersonate_proxy.Impersonate.Races.{release_race, share_race}

program : Unit {0}
unfolding text_eq lookup put remove acquire retire release Client.close least_recent evict make_room
    insert get_enter get_failed get_built share sweep
program = tt

abbrev options : CacheOptions
options = record { max = 1; idle_ttl = 100 }

-- A `Get` of "a" that builds, before and after the build, and one of "b" that begins.
abbrev asked : Cache
asked = (get_enter (text "a") 5 new_cache).0

abbrev client_a : Client
client_a = acquire 6 (fresh (text "a"))

abbrev filled : Cache
filled = record new_cache {
  entries = (text "a", 0) ∷ [];
  clients = update (update new_cache.clients 0 (fresh (text "a"))) 0 client_a;
  next_client = 1;
  builds =
      update (update new_cache.builds 0 (record { done = false; client = none })) 0
        (record { done = true; client = some 0 });
  next_build = 1;
  misses = 1;
  built = 1;
}

filled_lem : get_built 1 (text "a") 0 6 asked ≡ some filled
unfolding program
filled_lem = refl

asked_pending : lookup (text "a") asked.pending ≡ some 0
unfolding program
asked_pending = refl

asked-Reach : Reach options new_cache asked
asked-Reach = Reach.next Reach.here (Step.enter (text "a") 5 (omega arith))

filled-Reach : Reach options new_cache filled
filled-Reach =
    Reach.next asked-Reach (Step.built (text "a") 0 6 asked_pending (omega arith) filled_lem)

Reach-IsValid_example : IsValid 1 0 filled
Reach-IsValid_example = Reach-IsValid (omega arith) filled-Reach

hit_lem : (get_enter (text "a") 7 filled).1 ≡ Got.hit 0
unfolding program
hit_lem = refl

get_enter-usable_example :
    let client = (get_enter (text "a") 7 filled).0.clients 0 in
    (client.key ≡ text "a")
    × (client.retired ≡ false)
    × (client.closed ≡ false)
    × (client.released < client.acquired)
get_enter-usable_example = get_enter-usable (text "a") 7 0 (omega arith) filled-Reach hit_lem

get_enter-wait_example :
    get_enter (text "a") 7 asked ≡ (record asked { hits = asked.hits + 1 }, Got.wait 0)
get_enter-wait_example = get_enter-wait (text "a") 7 0 (omega arith) asked-Reach asked_pending

get_built_total_example : (d : Cache) × (get_built 1 (text "a") 0 6 asked ≡ some d)
get_built_total_example =
    get_built_total 1 6 0 (text "a") asked 0 (omega arith) asked_pending
      (Reach-IsValid (omega arith) asked-Reach)

lookup-sweep_example :
    (lookup (text "a") filled.entries ≡ none
      → lookup (text "a") (sweep 100 500 filled).0.entries ≡ none)
    × ((i : ℕ)
        → lookup (text "a") filled.entries ≡ some i
        → ((lookup (text "a") (sweep 100 500 filled).0.entries ≡ none) ↔ (
            ((filled.clients i).last_used + 100 < 500)
            × ((filled.clients i).acquired ≡ (filled.clients i).released)))
          × (lookup (text "a") (sweep 100 500 filled).0.entries ≢ none
              → lookup (text "a") (sweep 100 500 filled).0.entries ≡ some i))
lookup-sweep_example = lookup-sweep 1 100 500 filled (text "a") Reach-IsValid_example

release_race_example :
    let c = filled.clients 0 in
    let split = release_check (retire (acquire 9 (release_count c))) in
    let whole = retire (acquire 9 (release c)) in
    (split.acquired ≡ split.released + 1)
    × (usable split ≡ false)
    × (whole.acquired ≡ whole.released + 1)
    × (usable whole ≡ true)
unfolding program
release_race_example = release_race 9 (filled.clients 0) refl refl refl

share_race_example :
    let c = filled in
    let freed =
      evict (text "a") (record c { clients = update c.clients 0 (release (c.clients 0)) }) in
    ((d : Cache) × (share 0 9 freed ≡ some (d, some 0))
      × ((d.clients 0).acquired ≡ (d.clients 0).released + 1)
      × (usable (d.clients 0) ≡ false))
    × ((e : Cache) × (share 0 9 c ≡ some (e, some 0)) × (usable (e.clients 0) ≡ true))
unfolding program
share_race_example = share_race (text "a") 0 0 9 filled refl refl refl refl refl
