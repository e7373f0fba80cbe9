-- ===== src/Proxy/Connection.antt =====
-- internal/proxy/proxy.go: who may use the proxy. The handlers that `New` registers for CONNECT and for
-- requests, as goproxy runs them on one connection of a client.
-- What goproxy's `auth` package does with the header `Proxy-Authorization` is an argument, and so is how
-- goproxy goes through the handlers: the first that answers ends the round.
mod Tests
use tls_impersonate_proxy.Base.{
  ◌≡◌, refl, ◌≢◌, ◌⊎◌, inl, inr, ◌+◌, Bool, true, false, not, ◌&&◌, Option, none, some, List, [],
  ◌∷◌, ◌++◌, arith, is_nil, is_some, if◌then◌else◌, Bool-cases, Option-cases, Has,
}
use tls_impersonate_proxy.Text.{Text, text_eq, text_eq_iff}
use tls_impersonate_proxy.Assoc.{lookup}
use tls_impersonate_proxy.Proxy.Server.{Server, Event, tell}
use tls_impersonate_proxy.Proxy.Handler.{Tunnel}

-- `Auth`
pub record Auth : Type 0 where
  pub realm : Text
  pub users : List (Text × Text)

-- `authenticate`; `subtle.ConstantTimeCompare` tells whether two texts are equal.
unfoldable pub authenticate : Auth → Text → Text → Bool
authenticate a user password = elim (lookup user a.users) [
  | none ↦ false
  | some expected ↦ text_eq expected password
]

-- `auth.BasicConnect` and `auth.Basic` of goproxy, on the value of the header: does it end the round?
pub record Library : Type 0 where
  pub basic_connect : (Text → Text → Bool) → Text → Bool
  pub basic : (Text → Text → Bool) → Text → Bool

-- A connection of a client: behind a CONNECT it is a tunnel with its picks.
pub record Connection : Type 0 where
  pub tunnel : Option Tunnel
  pub server : Server

-- `onConnect`
unfoldable pub on_connect : Connection → Connection
on_connect c = record { tunnel = some []; server = tell Event.tunnel_opened c.server }

-- What a client sends, with the value of `Proxy-Authorization`.
pub data Message : Type 0 where
  connect : Text → Message
  request : Text → Message

abbrev pub credentials : Message → Text
credentials (connect value) = value
credentials (request value) = value

module _ (lib : Library) (a : Auth) where
  open lib use {basic_connect, basic}

  -- `len(o.Auth.Users) > 0`
  abbrev pub is_guarded : Bool
  is_guarded = not (is_nil a.users)

  -- The handlers of CONNECT; false is a refusal.
  unfoldable pub handle_connect : Text → Connection → Connection × Bool
  handle_connect value c =
      if is_guarded && basic_connect (authenticate a) value
      then (c, false)
      else (on_connect c, true)

  -- `plainAuth`: does the round go on behind it?
  unfoldable pub plain_auth : Text → Connection → Bool
  plain_auth value c = if is_some c.tunnel then true else not (basic (authenticate a) value)

  -- Does a request come to `onRequest`?
  unfoldable pub reaches : Text → Connection → Bool
  reaches value c = if is_guarded then plain_auth value c else true

  -- One message: in a tunnel all are requests.
  unfoldable pub step : Message → Connection → Connection
  step (request value) c = c
  step (connect value) c = if is_some c.tunnel then c else (handle_connect value c).0

  unfoldable pub run : List Message → Connection → Connection
  run [] c = c
  run (m ∷ ms) c = run ms (step m c)

-- What goproxy's package promises: it lets through only what carries a user and a password, as `read`
-- finds them, that the given test accepts.
pub record IsHonest (read : Text → Option (Text × Text)) (lib : Library) : Type 0 where
  pub connects :
      (f : Text → Text → Bool) (value : Text)
      → lib.basic_connect f value ≡ false
      → (user : Text) × (password : Text) × (read value ≡ some (user, password))
        × (f user password ≡ true)
  pub requests :
      (f : Text → Text → Bool) (value : Text)
      → lib.basic f value ≡ false
      → (user : Text) × (password : Text) × (read value ≡ some (user, password))
        × (f user password ≡ true)

module _ (read : Text → Option (Text × Text)) (lib : Library) (a : Auth) where
  -- The message carries a configured user with just that user's password.
  abbrev pub IsAllowed : Message → Type 0
  IsAllowed m =
      (user : Text) × (password : Text) × (read (credentials m) ≡ some (user, password))
      × (lookup user a.users ≡ some password)

  authenticate_sound :
      (user password : Text)
      → authenticate a user password ≡ true
      → lookup user a.users ≡ some password
  unfolding authenticate
  authenticate_sound user password h = elim (Option-cases (lookup user a.users)) [
    | inl e ↦ absurd (ground arith)
    | inr (expected, e) ↦ ground (arith, text_eq_iff expected password)
  ]

  module _ (honest : IsHonest read lib) (guarded : a.users ≢ []) where
    step-tunnel :
        (m : Message) (c : Connection)
        → is_some c.tunnel ≡ false
        → is_some (step lib a m c).tunnel ≡ true
        → IsAllowed m
    unfolding step handle_connect
    step-tunnel (request value) c h e = cc
    step-tunnel (connect value) c h e =
        elim (Bool-cases (lib.basic_connect (authenticate a) value)) [
          | inl refused ↦ absurd (ground arith)
          | inr passed ↦
              let (user, password, r, f) = honest.connects (authenticate a) value passed in
              (user, password, r, authenticate_sound user password f)
        ]

    run-tunnel :
        (ms : List Message) (c : Connection)
        → is_some c.tunnel ≡ false
        → is_some (run lib a ms c).tunnel ≡ true
        → Has IsAllowed ms
    unfolding run
    run-tunnel [] c h e = cc
    run-tunnel (m ∷ ms) c h e = elim (Bool-cases (is_some (step lib a m c).tunnel)) [
      | inl up ↦ inl (step-tunnel m c h up)
      | inr down ↦ inr (run-tunnel ms (step lib a m c) down e)
    ]

    Has-append :
        (ms : List Message) (m : Message)
        → Has IsAllowed ms ⊎ IsAllowed m
        → Has IsAllowed (ms ++ m ∷ [])
    Has-append [] m (inl h) = absurd h
    Has-append [] m (inr h) = inl h
    Has-append (n ∷ ns) m (inl (inl h)) = inl h
    Has-append (n ∷ ns) m (inl (inr h)) = inr (Has-append ns m (inl h))
    Has-append (n ∷ ns) m (inr h) = inr (Has-append ns m (inr h))

    -- With users configured, and goproxy's package as it promises: whatever a client has sent on a fresh
    -- connection, a request comes to `onRequest` only if it carries a configured user with that user's
    -- password, or an earlier message of the same connection does.
    pub reaches-IsAllowed :
        (ms : List Message) (value : Text) (s : Server)
        → reaches lib a value (run lib a ms (record { tunnel = none; server = s })) ≡ true
        → Has IsAllowed (ms ++ request value ∷ [])
    unfolding reaches plain_auth
    reaches-IsAllowed ms value s h =
        let c = run lib a ms (record { tunnel = none; server = s }) in
        elim (Bool-cases (is_some c.tunnel)) [
          | inl up ↦ Has-append ms (request value) (inl (run-tunnel ms _ refl up))
          | inr down ↦ elim (Bool-cases (lib.basic (authenticate a) value)) [
            | inl refused ↦ absurd (ground arith)
            | inr passed ↦
                let (user, password, r, f) = honest.requests (authenticate a) value passed in
                Has-append ms (request value)
                  (inr (user, password, r, authenticate_sound user password f))
          ]
        ]
