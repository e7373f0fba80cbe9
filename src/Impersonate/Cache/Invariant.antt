-- ===== src/Impersonate/Cache/Invariant.antt =====
-- internal/impersonate/cache.go: what holds of the cache whenever the lock is free, and that every
-- atomic part of its operations keeps it.
use tls_impersonate_proxy.Base.{
  ℕ, ◌+◌, ◌≤◌, ◌<◌, ◌≡◌, ◌≢◌, inl, inr, false, some, List, [], ◌∷◌, arith, length, ◌==◌, Bool-cases,
  All, sym, ◌∙◌, ap,
}
use tls_impersonate_proxy.Text.{Text}
use tls_impersonate_proxy.Assoc.{
  lookup, remove, has_key, Distinct, lookup-remove, length-remove_present, All-lookup, All-remove,
}
use tls_impersonate_proxy.Impersonate.Client
use tls_impersonate_proxy.Impersonate.Client.{
  Client, fresh, acquire, retire, release, IsSound, fresh-IsSound, acquire-IsSound, retire-IsSound,
  release-IsSound,
}
use tls_impersonate_proxy.Impersonate.Cache.{Cache, update, evict}
use tls_impersonate_proxy.Impersonate.Cache.Room.{
  Timely, evict_present, evict-Distinct, evict-Timely, length-evict,
}

-- An entry names a client of its own key that is not retired.
abbrev pub IsLive : (ℕ → Client) → ℕ → Text × ℕ → Type 0
IsLive clients next e = ((clients e.1).key ≡ e.0) × ((clients e.1).retired ≡ false) × (e.1 < next)

-- `n` is the number of evictions that the observer has not been told of yet.
pub record IsValid (max n : ℕ) (c : Cache) : Type 0 where
  pub distinct : Distinct c.entries
  pub live : All (IsLive c.clients c.next_client) c.entries
  pub sound : (i : ℕ) → IsSound (c.clients i)
  pub balanced : (i : ℕ) → (c.clients i).released ≤ (c.clients i).acquired
  pub timely : Timely c
  pub bounded : length c.entries ≤ max
  pub pending_distinct : Distinct c.pending
  pub apart : All (λ e. has_key e.0 c.entries ≡ false) c.pending
  pub gauge : c.built ≡ c.evicted + n + length c.entries

retire-facts :
    (c : Client)
    → ((retire c).key ≡ c.key)
      × ((retire c).acquired ≡ c.acquired)
      × ((retire c).released ≡ c.released)
unfolding retire Client.close
retire-facts c = ground arith

module _ (clients : ℕ → Client) (i : ℕ) (c : Client) where
  -- A change of one client that keeps its key and does not retire it keeps the entries live.
  pub update-IsLive :
      (next : ℕ) (es : List (Text × ℕ))
      → c.key ≡ (clients i).key
      → c.retired ≡ (clients i).retired
      → All (IsLive clients next) es
      → All (IsLive (update clients i c) next) es
  update-IsLive next [] p q h = tt
  update-IsLive next (e ∷ es) p q (h, hs) = (
    elim (Bool-cases (i == e.1)) [
      | inl same ↦
          let e' : i ≡ e.1 = ground arith in
          rw same (
            p ∙ ap (λ (j : ℕ). (clients j).key) e' ∙ h.0,
            q ∙ ap (λ (j : ℕ). (clients j).retired) e' ∙ h.1,
            h.2,
          )
      | inr other ↦ rw other h
    ],
    update-IsLive next es p q hs,
  )

  pub update-IsSound :
      ((j : ℕ) → IsSound (clients j)) → IsSound c → (j : ℕ) → IsSound (update clients i c j)
  update-IsSound h s j = elim (Bool-cases (i == j)) [
    | inl same ↦ rw same s
    | inr other ↦ rw other (h j)
  ]

  pub update-balanced :
      ((j : ℕ) → (clients j).released ≤ (clients j).acquired)
      → c.released ≤ c.acquired
      → (j : ℕ) → (update clients i c j).released ≤ (update clients i c j).acquired
  update-balanced h s j = elim (Bool-cases (i == j)) [
    | inl same ↦ rw same s
    | inr other ↦ rw other (h j)
  ]

  -- Entries with other keys than the client's do not name it.
  update-IsLive_other :
      (next : ℕ) (key : Text) (es : List (Text × ℕ))
      → (clients i).key ≡ key
      → All (IsLive clients next) es
      → All (λ e. e.0 ≢ key → IsLive (update clients i c) next e) es
  update-IsLive_other next key [] p h = tt
  update-IsLive_other next key (e ∷ es) p (h, hs) = (
    λ ne. elim (Bool-cases (i == e.1)) [
      | inl same ↦
          let e' : i ≡ e.1 = ground arith in
          absurd (ne (sym h.0 ∙ ap (λ (j : ℕ). (clients j).key) (sym e') ∙ p))
      | inr other ↦ rw other h
    ],
    update-IsLive_other next key es p hs,
  )

remove-apart :
    (key : Text) (es ps : List (Text × ℕ))
    → All (λ e. has_key e.0 es ≡ false) ps
    → All (λ e. has_key e.0 (remove key es) ≡ false) ps
remove-apart key es [] h = tt
remove-apart key es (p ∷ ps) (h, hs) =
    (ground (arith, lookup-remove key p.0 es), remove-apart key es ps hs)

-- One eviction, under the lock, of a key that has an entry.
pub evict-IsValid :
    (max n : ℕ) (c : Cache) (key : Text) (i : ℕ)
    → lookup key c.entries ≡ some i
    → IsValid max n c
    → IsValid max (n + 1) (evict key c)
evict-IsValid max n c key i e v = record {
  distinct = evict-Distinct c key v.distinct;
  live = rw same (
      All-remove (IsLive (update c.clients i (retire (c.clients i))) c.next_client) key c.entries (
        update-IsLive_other c.clients i (retire (c.clients i)) c.next_client key c.entries
          ((All-lookup (IsLive c.clients c.next_client) key i c.entries v.live e).0) v.live));
  sound = rw same (update-IsSound c.clients i _ v.sound (retire-IsSound (c.clients i) (v.sound i)));
  balanced = rw same (
      update-balanced c.clients i _ v.balanced
        (omega (arith, retire-facts (c.clients i), v.balanced i)));
  timely = evict-Timely c key v.timely;
  bounded = omega (arith, length-evict c key i v.distinct e, v.bounded);
  pending_distinct = rw same v.pending_distinct;
  apart = rw same (remove-apart key c.entries c.pending v.apart);
  gauge = rw same (omega (arith, length-remove_present key i c.entries v.distinct e, v.gauge));
}
  where
    same : evict key c ≡ record c {
      entries = remove key c.entries;
      clients = update c.clients i (retire (c.clients i));
    }
    same = evict_present c key i e
