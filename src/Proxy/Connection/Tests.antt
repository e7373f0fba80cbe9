-- ===== src/Proxy/Connection/Tests.antt =====
-- internal/proxy/proxy.go: the theorem on authentication at a concrete connection.
use tls_impersonate_proxy.Base.{
  ◌≡◌, refl, ◌≢◌, Bool, true, false, not, Option, none, some, List, [], ◌∷◌, ◌++◌, arith, Has,
}
use tls_impersonate_proxy.Text.{Text, text, text_eq, cut}
use tls_impersonate_proxy.Assoc.{lookup}
use tls_impersonate_proxy.Proxy.Server.{Server}
use tls_impersonate_proxy.Proxy.Connection.{
  Auth, Library, Message, connect, request, authenticate, on_connect, handle_connect, plain_auth,
  reaches, step, run, IsHonest, IsAllowed, reaches-IsAllowed,
}

program : Unit {0}
unfolding text_eq cut lookup authenticate on_connect handle_connect plain_auth reaches step run
program = tt

abbrev auth : Auth
auth = record { realm = text "tip"; users = (text "ann", text "secret") ∷ [] }

-- A header that is `user:password` as it stands.
abbrev read : Text → Option (Text × Text)
read value = cut b':' value

abbrev refuses : (Text → Text → Bool) → Text → Bool
refuses f value = elim (read value) [ none ↦ true | some (user, password) ↦ not (f user password) ]

abbrev library : Library
library = record { basic_connect = refuses; basic = refuses }

refuses_honest :
    (f : Text → Text → Bool) (value : Text)
    → refuses f value ≡ false
    → (user : Text) × (password : Text) × (read value ≡ some (user, password))
      × (f user password ≡ true)
refuses_honest f value h = found (cut b':' value) refl h
  where
    found :
        (o : Option (Text × Text))
        → cut b':' value ≡ o
        → elim o [ none ↦ true | some (user, password) ↦ not (f user password) ] ≡ false
        → (user : Text) × (password : Text) × (cut b':' value ≡ some (user, password))
          × (f user password ≡ true)
    found none e h = cc
    found (some (user, password)) e h = (user, password, e, ground arith)

honest : IsHonest read library
honest = record { connects = refuses_honest; requests = refuses_honest }

abbrev server : Server
server = record { started = 0; finished = 0; draining = false; events = [] }

abbrev sent : List Message
sent = connect (text "eve:guess") ∷ connect (text "ann:secret") ∷ []

guarded : auth.users ≢ []
guarded e = ground arith

reached :
    reaches library auth [] (run library auth sent (record { tunnel = none; server = server }))
    ≡ true
unfolding program
reached = refl

not_reached :
    reaches library auth (text "ann:guess") (record { tunnel = none; server = server }) ≡ false
unfolding program
not_reached = refl

reaches-IsAllowed_example : Has (IsAllowed read library auth) (sent ++ request [] ∷ [])
reaches-IsAllowed_example =
    reaches-IsAllowed read library auth honest guarded sent [] server reached
