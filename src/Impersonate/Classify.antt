-- ===== src/Impersonate/Classify.antt =====
-- internal/impersonate/client.go: `Classify` names the kind of a failed round trip.
use tls_impersonate_proxy.Base.{Bool, ◌||◌, Option, none, some, if◌then◌else◌}
use tls_impersonate_proxy.Text.{Text, text, lower, contains}
use tls_impersonate_proxy.Connect.{Cause, HopError}

pub data Kind : Type 0 where
  proxy_rejected timeout proxy tls dial read : Kind

unfoldable pub kind_text : Kind → Text
kind_text Kind.proxy_rejected = text "proxy_rejected"
kind_text Kind.timeout = text "timeout"
kind_text Kind.proxy = text "proxy"
kind_text Kind.tls = text "tls"
kind_text Kind.dial = text "dial"
kind_text Kind.read = text "read"

-- An error of `RoundTrip`: the hop error in its chain, if there is one, and what the whole chain shows.
pub record Failure : Type 0 where
  pub hop : Option HopError
  pub own : Cause

-- A context that ended, or a timeout of the network.
abbrev pub is_timeout : Cause → Bool
is_timeout c = c.canceled || c.deadline_exceeded || c.net_timeout

unfoldable pub classify_hop : HopError → Kind
classify_hop (HopError.rejected v) = Kind.proxy_rejected
classify_hop (HopError.failed p e) = if is_timeout e then Kind.timeout else Kind.proxy

unfoldable pub classify_own : Cause → Kind
classify_own e =
    let msg = lower e.message in
    if is_timeout e
    then Kind.timeout
    else if contains (text "proxy") msg
    then Kind.proxy
    else if contains (text "tls") msg
        || contains (text "certificate") msg
        || contains (text "handshake") msg
    then Kind.tls
    else if e.dial_op
    then Kind.dial
    else if contains (text "dial") msg
    then Kind.dial
    else Kind.read

unfoldable pub classify : Failure → Kind
unfolding classify_hop classify_own
classify f = elim f.hop [ some e ↦ classify_hop e | none ↦ classify_own f.own ]
