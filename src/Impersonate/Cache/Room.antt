-- ===== src/Impersonate/Cache/Room.antt =====
-- internal/impersonate/cache.go: `insert` makes room, and whom it evicts.
use tls_impersonate_proxy.Base.{
  ℕ, zero, suc, ◌+◌, ◌≤◌, ◌<◌, ◌≡◌, refl, ◌≢◌, ◌⊎◌, inl, inr, none, some, List, [], ◌∷◌, arith,
  length, ltb, leb, Bool-cases, Option-cases, All, Has, sym, subst,
}
use tls_impersonate_proxy.Text.{Text}
use tls_impersonate_proxy.Assoc.{
  lookup, remove, Distinct, Distinct-remove, length-remove_present, All-remove, lookup-Has,
}
use tls_impersonate_proxy.Impersonate.Client
use tls_impersonate_proxy.Impersonate.Client.{Client, retire}
use tls_impersonate_proxy.Impersonate.Cache.{
  Cache, update, max_int64, oldest_of, least_recent, evict, make_room,
}

-- Either the search ends with what it began with, or with the key of an entry used before that.
abbrev Search : (ℕ → Client) → List (Text × ℕ) → Text → ℕ → Text → Type 0
Search clients es k t r =
    ((r ≡ k) × All (λ e. t ≤ (clients e.1).last_used) es)
    ⊎ ((i : ℕ) × Has (λ e. (e.0 ≡ r) × (e.1 ≡ i)) es
        × ((clients i).last_used < t)
        × All (λ e. (clients i).last_used ≤ (clients e.1).last_used) es)

module _ (clients : ℕ → Client) (es : List (Text × ℕ)) (j k : Text) (i t : ℕ) (r : Text) where
  Search-older :
      (clients i).last_used < t
      → Search clients es j (clients i).last_used r
      → Search clients ((j, i) ∷ es) k t r
  Search-older lt (inl (e, all)) = inr (i, inl (sym e, refl), lt, (omega arith, all))
  Search-older lt (inr (m, has, lt', all)) = inr (m, inr has, omega arith, (omega arith, all))

  Search-newer :
      t ≤ (clients i).last_used → Search clients es k t r → Search clients ((j, i) ∷ es) k t r
  Search-newer le (inl (e, all)) = inl (e, (le, all))
  Search-newer le (inr (m, has, lt, all)) = inr (m, inr has, lt, (omega arith, all))

oldest_of-Search :
    (clients : ℕ → Client) (es : List (Text × ℕ)) (k : Text) (t : ℕ)
    → Search clients es k t (oldest_of clients es k t)
unfolding oldest_of
oldest_of-Search clients [] k t = inl (refl, tt)
oldest_of-Search clients ((j, i) ∷ es) k t = elim (Bool-cases (ltb (clients i).last_used t)) [
  | inl older ↦
      let same : oldest_of clients ((j, i) ∷ es) k t
          ≡ oldest_of clients es j (clients i).last_used =
        rw older in
      subst (Search clients ((j, i) ∷ es) k t) (sym same) (
        Search-older clients es j k i t _ (ground arith)
          (oldest_of-Search clients es j (clients i).last_used))
  | inr newer ↦
      let same : oldest_of clients ((j, i) ∷ es) k t ≡ oldest_of clients es k t = rw newer in
      subst (Search clients ((j, i) ∷ es) k t) (sym same)
        (Search-newer clients es j k i t _ (ground arith) (oldest_of-Search clients es k t))
]

-- A time of last use is one that an int64 holds below its largest value.
abbrev pub Timely : Cache → Type 0
Timely c = All (λ e. (c.clients e.1).last_used < max_int64) c.entries

-- In a cache that is not empty, holds no key twice and has times below the largest int64, `leastRecent`
-- finds an entry that was used no later than any other.
pub least_recent_lem :
    (c : Cache)
    → Distinct c.entries
    → Timely c
    → 0 < length c.entries
    → (i : ℕ) × (lookup (least_recent c) c.entries ≡ some i)
      × All (λ e. (c.clients i).last_used ≤ (c.clients e.1).last_used) c.entries
unfolding least_recent
least_recent_lem c d timely some_entry = elim (oldest_of-Search c.clients c.entries [] max_int64) [
  | inl (e, all) ↦ absurd (none_timely c.entries timely all some_entry)
  | inr (i, has, lt, all) ↦ (i, lookup-Has _ i c.entries d has, all)
]
  where
    none_timely :
        (es : List (Text × ℕ))
        → All (λ e. (c.clients e.1).last_used < max_int64) es
        → All (λ e. max_int64 ≤ (c.clients e.1).last_used) es
        → ¬ (0 < length es)
    none_timely [] p q h = omega arith
    none_timely (e ∷ es) p q h = omega arith

last_used-retire : (c : Client) → (retire c).last_used ≡ c.last_used
unfolding retire Client.close
last_used-retire c = ground arith

pub evict_absent : (c : Cache) (key : Text) → lookup key c.entries ≡ none → evict key c ≡ c
unfolding evict
evict_absent c key e = rw (e, evict)

pub evict_present :
    (c : Cache) (key : Text) (i : ℕ)
    → lookup key c.entries ≡ some i
    → evict key c ≡ record c {
      entries = remove key c.entries;
      clients = update c.clients i (retire (c.clients i));
    }
unfolding evict
evict_present c key i e = rw (e, evict)

retire-Timely :
    (clients : ℕ → Client) (i : ℕ) (key : Text) (es : List (Text × ℕ))
    → All (λ e. (clients e.1).last_used < max_int64) es
    → All (λ e. e.0 ≢ key → (update clients i (retire (clients i)) e.1).last_used < max_int64) es
retire-Timely clients i key [] h = tt
retire-Timely clients i key (e ∷ es) (p, h) =
    (λ _. ground (arith, last_used-retire (clients i)), retire-Timely clients i key es h)

-- An eviction keeps the times of the entries that stay.
pub evict-Timely : (c : Cache) (key : Text) → Timely c → Timely (evict key c)
evict-Timely c key h = elim (Option-cases (lookup key c.entries)) [
  | inl e ↦ rw (evict_absent c key e) h
  | inr (i, e) ↦ rw (evict_present c key i e) (
      All-remove (λ e. (update c.clients i (retire (c.clients i)) e.1).last_used < max_int64) key
        c.entries (retire-Timely c.clients i key c.entries h))
]

pub evict-Distinct : (c : Cache) (key : Text) → Distinct c.entries → Distinct (evict key c).entries
evict-Distinct c key d = elim (Option-cases (lookup key c.entries)) [
  | inl e ↦ rw (evict_absent c key e) d
  | inr (i, e) ↦ rw (evict_present c key i e) (Distinct-remove key c.entries d)
]

pub length-evict :
    (c : Cache) (key : Text) (i : ℕ)
    → Distinct c.entries
    → lookup key c.entries ≡ some i
    → length (evict key c).entries + 1 ≡ length c.entries
length-evict c key i d e = rw (evict_present c key i e) (length-remove_present key i c.entries d e)

-- The loop of `insert` ends: in a cache that may hold a client at all, with times that an int64
-- holds, it leaves room for one more entry, and counts the entries that it dropped.
pub make_room_total :
    (fuel max : ℕ) (c : Cache) (n : ℕ)
    → Distinct c.entries
    → Timely c
    → 0 < max
    → length c.entries < fuel
    → (c' : Cache) × (m : ℕ) × (make_room fuel max c n ≡ some (c', m))
      × (length c'.entries < max)
      × (m + length c'.entries ≡ n + length c.entries)
unfolding make_room
make_room_total zero max c n d t pos enough = absurd (omega arith)
make_room_total (suc fuel) max c n d t pos enough = elim (Bool-cases (leb max (length c.entries))) [
  | inr room ↦ rw (room, make_room) (c, n, refl, ground arith, refl)
  | inl full ↦
      let (i, e, all) = least_recent_lem c d t (ground arith) in
      let shorter = length-evict c (least_recent c) i d e in
      let next = evict (least_recent c) c in
      let (c', m, f, g, h) =
        make_room_total fuel max next (n + 1) (evict-Distinct c _ d) (evict-Timely c _ t) pos
          (omega arith) in
      rw (full, make_room) (c', m, f, g, omega arith)
]
