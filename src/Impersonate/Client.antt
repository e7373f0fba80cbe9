-- ===== src/Impersonate/Client.antt =====
-- internal/impersonate/client.go: the life of a client, from its build to the close of its transport.
-- The atomic counter `inflight` is the difference of the calls of `acquire` and of `Release` so far,
-- so it is 0 when the two are equal, and may be below 0. Times are nanoseconds (`UnixNano`).
-- `closer.Close()` and `CloseIdleConnections()` are calls of the transport: their numbers are kept.
use tls_impersonate_proxy.Base.{
  ℕ, ◌+◌, ◌≤◌, ◌≡◌, Bool, true, false, arith, ◌==◌, if◌then◌else◌, not,
}
use tls_impersonate_proxy.Text.{Text}

pub record Client : Type 0 where
  pub key : Text
  pub acquired : ℕ
  pub released : ℕ
  pub last_used : ℕ
  pub retired : Bool
  pub closed : Bool
  pub closes : ℕ
  pub idle_closes : ℕ

-- What `Build` returns: `&Client{Key: s.Key(), …}`.
abbrev pub fresh : Text → Client
fresh key = record {
  key = key;
  acquired = 0;
  released = 0;
  last_used = 0;
  retired = false;
  closed = false;
  closes = 0;
  idle_closes = 0;
}

-- `inflight.Load() == 0`
abbrev pub is_idle : Client → Bool
is_idle c = c.acquired == c.released

unfoldable pub acquire : ℕ → Client → Client
acquire now c = record c { acquired = c.acquired + 1; last_used = now }

-- `closeOnce.Do`: `closed` is set there and nowhere else.
unfoldable pub close : Client → Client
close c = if c.closed then c else record c { closed = true; closes = c.closes + 1 }

unfoldable pub retire : Client → Client
unfolding close
retire c =
    let c' = record c { retired = true; idle_closes = c.idle_closes + 1 } in
    if is_idle c' then close c' else c'

-- `inflight.Add(-1)`, which `Release` compares with 0 before it reads `retired`.
unfoldable pub release_count : Client → Client
release_count c = record c { released = c.released + 1 }

-- The rest of a `Release` whose `Add` returned 0.
unfoldable pub release_check : Client → Client
unfolding close
release_check c = if c.retired then close c else c

unfoldable pub release : Client → Client
unfolding release_count release_check
release c = let c' = release_count c in if is_idle c' then release_check c' else c'

-- `RoundTrip` answers `ErrClosed` at once on a closed client.
abbrev pub usable : Client → Bool
usable c = not c.closed

-- What holds of every client at every moment: only a retired client is closed, its transport is
-- closed once, and a retired client that nobody uses is closed.
pub record IsSound (c : Client) : Type 0 where
  pub closed_retired : c.closed ≡ true → c.retired ≡ true
  pub once : c.closes ≡ (if c.closed then 1 else 0)
  pub no_leak : c.retired ≡ true → c.acquired ≡ c.released → c.closed ≡ true

pub fresh-IsSound : (key : Text) → IsSound (fresh key)
fresh-IsSound key = ground arith

pub acquire-IsSound :
    (now : ℕ) (c : Client) → IsSound c → c.released ≤ c.acquired → IsSound (acquire now c)
unfolding acquire
acquire-IsSound now c h le = ground arith

pub retire-IsSound : (c : Client) → IsSound c → IsSound (retire c)
unfolding retire
retire-IsSound c h = ground arith

pub release-IsSound : (c : Client) → IsSound c → IsSound (release c)
unfolding release
release-IsSound c h = ground arith

pub close-retire : (c : Client) → (retire c).key ≡ c.key
unfolding retire
close-retire c = ground arith
