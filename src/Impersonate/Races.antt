-- ===== src/Impersonate/Races.antt =====
-- internal/impersonate/client.go, internal/impersonate/cache.go: two orders of the goroutines' steps
-- in which a request is left with a closed client.
use tls_impersonate_proxy.Base.{ℕ, ◌+◌, ◌≡◌, refl, true, false, some, arith, subst, sym, ap, ◌∙◌}
use tls_impersonate_proxy.Assoc.{lookup, remove}
use tls_impersonate_proxy.Impersonate.Cache.{Cache, update, evict, share}
use tls_impersonate_proxy.Text.{Text}
use tls_impersonate_proxy.Impersonate.Client.{
  Client, acquire, retire, release, release_count, release_check, usable, close,
}

-- `Release` counts down before it reads `retired`, and holds no lock. If the last user of an open
-- client is between the two when a `Get` hits the client and an insertion then evicts it, the
-- `Release` closes the client under the new request: one request is in flight on a closed client.
-- Had the `Release` been one step, the client would have stayed open.
pub release_race :
    (now : ℕ) (c : Client)
    → c.acquired ≡ c.released + 1
    → c.retired ≡ false
    → c.closed ≡ false
    → let split = release_check (retire (acquire now (release_count c))) in
      let whole = retire (acquire now (release c)) in
      (split.acquired ≡ split.released + 1)
      × (usable split ≡ false)
      × (whole.acquired ≡ whole.released + 1)
      × (usable whole ≡ true)
unfolding acquire retire release release_count release_check
release_race now c used open_ live = ground arith

update_same {ℓ} : {A : Type ℓ} (f : ℕ → A) (i : ℕ) (a : A) → update f i a i ≡ a
update_same f i a = ground arith

evict_there :
    (key : Text) (i : ℕ) (c : Cache)
    → lookup key c.entries ≡ some i
    → evict key c ≡ record c {
      entries = remove key c.entries;
      clients = update c.clients i (retire (c.clients i));
    }
unfolding evict
evict_there key i c e = rw (e, evict) refl

share_done :
    (p i now : ℕ) (c : Cache)
    → (c.builds p).done ≡ true
    → (c.builds p).client ≡ some i
    → share p now c
      ≡ some (record c { clients = update c.clients i (acquire now (c.clients i)) }, some i)
unfolding share
share_done p i now c e f = rw (e, f, share) refl

handed_late :
    (later : ℕ) (c : Client)
    → c.acquired ≡ c.released + 1
    → c.closed ≡ false
    → let handed = acquire later (retire (release c)) in
      (handed.acquired ≡ handed.released + 1) × (usable handed ≡ false)
unfolding acquire retire release release_count release_check close
handed_late later c used live = ground arith

handed_soon : (later : ℕ) (c : Client) → c.closed ≡ false → usable (acquire later c) ≡ true
unfolding acquire
handed_soon later c live = ground arith

-- A `Get` that waited for a build acquires the client only after the builder has given up the lock. Where
-- the build is done and its client stands in the map, open and in use by the builder alone: if the
-- builder's request ends and the client is evicted before the waiter's `share` goes on, `share` hands out
-- that client without an error, with one request in flight on it, and closed. Had `share` gone on at once,
-- the client that it hands out would have been open.
pub share_race :
    (key : Text) (p i later : ℕ) (c : Cache)
    → (c.builds p).done ≡ true
    → (c.builds p).client ≡ some i
    → lookup key c.entries ≡ some i
    → (c.clients i).acquired ≡ (c.clients i).released + 1
    → (c.clients i).closed ≡ false
    → let freed = evict key (record c { clients = update c.clients i (release (c.clients i)) }) in
      ((d : Cache) × (share p later freed ≡ some (d, some i))
        × ((d.clients i).acquired ≡ (d.clients i).released + 1)
        × (usable (d.clients i) ≡ false))
      × ((e : Cache) × (share p later c ≡ some (e, some i)) × (usable (e.clients i) ≡ true))
share_race key p i later c done built there used live =
    let c1 : Cache = record c { clients = update c.clients i (release (c.clients i)) } in
    let c2 : Cache = record c1 {
      entries = remove key c.entries;
      clients = update c1.clients i (retire (c1.clients i));
    } in
    let gone : evict key c1 ≡ c2 = evict_there key i c1 there in
    let one : c1.clients i ≡ release (c.clients i) =
      update_same c.clients i (release (c.clients i)) in
    let two : c2.clients i ≡ retire (release (c.clients i)) =
      update_same c1.clients i (retire (c1.clients i)) ∙ ap retire one in
    let late = update_same c2.clients i (acquire later (c2.clients i)) ∙ ap (acquire later) two in
    let soon = update_same c.clients i (acquire later (c.clients i)) in
    let (busy, shut) = handed_late later (c.clients i) used live in
    (
      (
        record c2 { clients = update c2.clients i (acquire later (c2.clients i)) },
        ap (share p later) gone ∙ share_done p i later c2 done built,
        subst (λ (x : Client). x.acquired ≡ x.released + 1) (sym late) busy,
        subst (λ (x : Client). usable x ≡ false) (sym late) shut,
      ),
      (
        record c { clients = update c.clients i (acquire later (c.clients i)) },
        share_done p i later c done built,
        subst (λ (x : Client). usable x ≡ true) (sym soon) (handed_soon later (c.clients i) live),
      ),
    )
