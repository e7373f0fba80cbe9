-- ===== src/Proxy/Trip/Tests.antt =====
-- Runs of a round trip, of its bodies and of `negotiate`, and the theorems at concrete exchanges.
use tls_impersonate_proxy.Base.{
  ℕ, ◌≡◌, refl, ◌↔◌, ◌||◌, false, none, some, List, [], ◌∷◌, if◌then◌else◌,
}
use tls_impersonate_proxy.Text.{
  Text, text, text_eq, contains_text, lower, trim_space, trim_string, trim, trim_left, is_space,
  is_ascii_space, cut_prefix,
}
use tls_impersonate_proxy.Http.{get, values, canonical, canonical_from, is_token, is_alpha}
use tls_impersonate_proxy.Assoc.{lookup}
use tls_impersonate_proxy.Directive.Types.{zero_directive, spec_of}
use tls_impersonate_proxy.Directive.Parse.{drop}
use tls_impersonate_proxy.Proxy.Encoding.{
  is_wanted, is_bodiless, decoder, Reply, Opening, opened, refused, negotiate, encoding_of,
}
use tls_impersonate_proxy.Proxy.Encoding.Decoder.{left_of, Opens}
use tls_impersonate_proxy.Proxy.Encoding.Laws.{IsDecoded, IsTried, negotiate_iff}
use tls_impersonate_proxy.Proxy.Server.{Server, State, finish}
use tls_impersonate_proxy.Proxy.Trip.{
  Op, Result, timeout_of, round_trip, read_body, sent_body, close_body, step, run,
}
use tls_impersonate_proxy.Proxy.Trip.Laws.{Settles, round_trip-Settles}

program : Unit {0}
unfolding finish timeout_of round_trip read_body sent_body close_body step run
program = tt

abbrev state : State
state = record {
  directive = zero_directive;
  spec = spec_of zero_directive;
  accept = text "gzip" ∷ [];
  original = none;
  bytes_in = 0;
  method = text "GET";
  host = text "h";
  path = text "/";
  scheme = text "http";
}

abbrev server : Server
server = record { started = 1; finished = 0; draining = false; events = [] }

abbrev reply : Reply
reply = record {
  status_code = 200;
  header = (text "Content-Encoding", text "br" ∷ []) ∷ [];
  content_length = some 2;
  head = false;
  uncompressed = false;
  body = text "xy";
  decoded = none;
}

abbrev no_text : ℕ → Text
no_text n = []

abbrev no_route : Text → Text → Text
no_route host path = []

abbrev all_open : Text → Text → Opening
all_open encoding body = opened

abbrev ops : List Op
ops = Op.read 5 ∷ Op.close ∷ Op.read 3 ∷ Op.close ∷ []

releases_lem :
    (run no_route ops (
      round_trip no_text
        (λ t. none)
        no_route
        all_open
        (text "negotiate")
        state
        (Result.got reply)
        server)).releases
    ≡ 1
unfolding program
releases_lem = refl

round_trip-Settles_example : Settles (Result.got reply) ops server (
    run no_route ops (
      round_trip no_text
        (λ t. none)
        no_route
        all_open
        (text "negotiate")
        state
        (Result.got reply)
        server))
round_trip-Settles_example =
    round_trip-Settles no_text (λ t. none) no_route all_open (text "negotiate") state
      (Result.got reply) server ops

-- A reader that reads the fixed part of a header before it errs.
abbrev all_shut : Text → Text → Opening
all_shut encoding body = refused (drop 10 body)

abbrev spoiled : Reply
spoiled = record reply {
  header = (text "Content-Encoding", text "gzip" ∷ []) ∷ [];
  body = 0x1f ∷ 0x8b ∷ text "12345678rest";
}

spoiled_lem : (negotiate all_shut (text "negotiate") [] spoiled).body ≡ text "rest"
unfolding program negotiate decoder is_wanted is_bodiless encoding_of text_eq contains_text lower
    trim_space trim_string trim trim_left is_space is_ascii_space lookup get values canonical
    canonical_from is_token is_alpha cut_prefix drop
spoiled_lem = refl

negotiate_iff_example :
    (((negotiate all_shut (text "negotiate") [] spoiled).decoded ≡ some (encoding_of spoiled))
      ↔ IsDecoded all_shut (text "negotiate") [] spoiled)
    × (¬ IsTried (text "negotiate") [] spoiled
        → negotiate all_shut (text "negotiate") [] spoiled ≡ spoiled)
    × (IsTried (text "negotiate") [] spoiled
        → ¬ Opens all_shut (encoding_of spoiled) spoiled.body
        → negotiate all_shut (text "negotiate") [] spoiled
          ≡ record spoiled { body = left_of all_shut (encoding_of spoiled) spoiled.body })
    × (IsDecoded all_shut (text "negotiate") [] spoiled
        → ((name : Text)
            → lookup name (negotiate all_shut (text "negotiate") [] spoiled).header ≡ (
                if text_eq (text "Content-Length") name || text_eq (text "Content-Encoding") name
                then none
                else lookup name spoiled.header))
          × ((negotiate all_shut (text "negotiate") [] spoiled).content_length ≡ none)
          × ((negotiate all_shut (text "negotiate") [] spoiled).status_code ≡ spoiled.status_code))
negotiate_iff_example = negotiate_iff all_shut (text "negotiate") [] spoiled refl
