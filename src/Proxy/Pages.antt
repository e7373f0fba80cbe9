-- ===== src/Proxy/Pages.antt =====
-- internal/proxy/proxy.go: the answers to requests that are made to the proxy as a web server. The
-- JSON text of the profiles and the PEM text of the CA are arguments.
mod Tests
use tls_impersonate_proxy.Base.{
  ℕ, ◌≡◌, refl, ◌≢◌, ◌⊎◌, inl, inr, Bool, true, false, not, ◌&&◌, Option, none, some, List, [], ◌∷◌,
  ◌++◌, arith, if◌then◌else◌, Bool-cases,
}
use tls_impersonate_proxy.Text.{Text, text, text_eq, text_eq_iff}
use tls_impersonate_proxy.Proxy.Server.{Server, Request}
use tls_impersonate_proxy.Proxy.Handler.{World, Tunnel, Answer, respond, on_request}
use tls_impersonate_proxy.Proxy.Errors.{unavailable}
use tls_impersonate_proxy.Directive.Resolve.{Picks}

-- What a handler writes; the headers are those that it sets itself.
pub record Page : Type 0 where
  pub status : ℕ
  pub header : List (Text × Text)
  pub body : Text

-- `http.Error`
abbrev error_page : Text → ℕ → Page
error_page message status = record {
  status = status;
  header = (text "Content-Type", text "text/plain; charset=utf-8") ∷ [];
  body = message ++ 10 ∷ [];
}

abbrev text_page : Text → Page
text_page body = record { status = 200; header = []; body = body }

pub record Options : Type 0 where
  pub serve_ca : Bool
  pub serve_profiles : Bool
  pub ca_pem : Text
  pub profiles : Text
  pub revision : Text

-- `ReadyHandler`
unfoldable pub ready_handler : Server → Page
ready_handler s =
    if s.draining then error_page (text "draining") 503 else text_page (text "ready" ++ 10 ∷ [])

-- `ProfilesHandler`, on the value of `If-None-Match`.
unfoldable pub etag_of : Options → Text
etag_of o = b'"' ∷ (o.revision ++ b'"' ∷ [])

unfoldable pub profiles_handler : Options → Text → Page
profiles_handler o if_none_match =
    let caching : List (Text × Text) =
      (text "ETag", etag_of o) ∷ (text "Cache-Control", text "max-age=300") ∷ [] in
    if text_eq if_none_match (etag_of o)
    then record { status = 304; header = caching; body = [] }
    else record {
      status = 200;
      header = caching ++ (text "Content-Type", text "application/json") ∷ [];
      body = o.profiles;
    }

-- `CAHandler`
unfoldable pub ca_handler : Options → Page
ca_handler o = record {
  status = 200;
  header = (text "Content-Type", text "application/x-pem-file") ∷ [];
  body = o.ca_pem;
}

-- `nonProxy`, on the path and on `If-None-Match`.
unfoldable pub non_proxy : Options → Server → Text → Text → Page
non_proxy o s path if_none_match =
    if text_eq path (text "/healthz")
    then text_page (text "ok" ++ 10 ∷ [])
    else if text_eq path (text "/readyz")
    then ready_handler s
    else if text_eq path (text "/ca.pem") && o.serve_ca
    then ca_handler o
    else if text_eq path (text "/profiles") && o.serve_profiles
    then profiles_handler o if_none_match
    else error_page (text "tip is a proxy; configure it as your HTTP proxy") 400

-- `/readyz` is 503 exactly while `onRequest` turns every request away with `unavailable`, and is 200
-- otherwise; `/healthz` is 200 all along, and so a server that drains is alive and not ready.
pub non_proxy-ready :
    (o : Options) (w : World) (picks : Picks) (req : Request) (t : Option Tunnel) (s : Server)
    (tag : Text)
    → ((non_proxy o s (text "/healthz") tag).status ≡ 200)
      × (((non_proxy o s (text "/readyz") tag).status ≡ 503)
            × (on_request w picks req t s
                ≡ some (record {
                  server = s;
                  tunnel = t;
                  answer = respond (unavailable w.status_text_of);
                }))
          ⊎ ((non_proxy o s (text "/readyz") tag).status ≡ 200) × (s.draining ≡ false))
unfolding non_proxy ready_handler on_request text_eq
non_proxy-ready o w picks req t s tag = elim (Bool-cases s.draining) [
  | inl on ↦ (refl, inl (ground arith, ground arith))
  | inr off ↦ (refl, inr (ground arith, off))
]

-- Where the profiles are served, a client that repeats its request for them with the tag of the first
-- answer, which is the same in every answer, gets 304 and no body; with no other tag does it, and then
-- it gets the profiles.
pub profiles_handler-again :
    (o : Options) (s : Server) (tag : Text)
    → o.serve_profiles ≡ true
    → (non_proxy o s (text "/profiles") (etag_of o) ≡ record {
      status = 304;
      header = (text "ETag", etag_of o) ∷ (text "Cache-Control", text "max-age=300") ∷ [];
      body = [];
    })
      × ((tag ≢ etag_of o) → (non_proxy o s (text "/profiles") tag).body ≡ o.profiles)
unfolding non_proxy profiles_handler
profiles_handler-again o s tag on =
    let here : text_eq (text "/profiles") (text "/profiles") ≡ true = unfold text_eq in refl in
    let a : text_eq (text "/profiles") (text "/healthz") ≡ false = unfold text_eq in refl in
    let b : text_eq (text "/profiles") (text "/readyz") ≡ false = unfold text_eq in refl in
    let c : text_eq (text "/profiles") (text "/ca.pem") ≡ false = unfold text_eq in refl in
    rw (a, b, c, here, on)
      (
        ground (arith, text_eq_iff (etag_of o) (etag_of o)),
        λ other. ground (arith, text_eq_iff tag (etag_of o)),
      )
