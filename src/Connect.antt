-- ===== src/Connect.antt =====
-- internal/connect/connect.go: dialling through an HTTP CONNECT proxy.
-- What the network does in one attempt is an argument (`Attempt`): each call that can fail has its
-- outcome there. A connection is what `conn_open` says of it: whether it is open when the call returns.
pub mod Laws
mod Tests
use tls_impersonate_proxy.Base.{
  ℕ, ◌+◌, ◌-◌, ◌/◌, Bool, true, false, not, ◌&&◌, Option, none, some, List, [], ◌∷◌, ◌++◌, ◌==◌,
  leb, ltb, length, is_nil, if◌then◌else◌,
}
use tls_impersonate_proxy.Text.{Text, text, text_eq, trim_space, cut_head, cut}
use tls_impersonate_proxy.Net.{Url}

-- `""`, `proxy-dial`, `proxy-tls`, `proxy-connect`
pub data Phase : Type 0 where
  no_phase proxy_dial proxy_tls proxy_connect : Phase

unfoldable pub phase_text : Phase → Text
phase_text Phase.no_phase = []
phase_text Phase.proxy_dial = text "proxy-dial"
phase_text Phase.proxy_tls = text "proxy-tls"
phase_text Phase.proxy_connect = text "proxy-connect"

pub record Verdict : Type 0 where
  pub status : ℕ
  pub header : List (Text × List Text)
  pub body : Text

-- The bytes of a code point in UTF-8.
abbrev pub utf8_len : ℕ → ℕ
utf8_len c = if ltb c 0x80 then 1 else if ltb c 0x800 then 2 else if ltb c 0x10000 then 3 else 4

abbrev pub byte_len : Text → ℕ
byte_len [] = 0
byte_len (c ∷ s) = utf8_len c + byte_len s

-- `strings.ToValidUTF8(line[:n], "")` of a text that is longer: a code point that the cut splits goes.
unfoldable pub cut_bytes : ℕ → Text → Text
cut_bytes n [] = []
cut_bytes n (c ∷ s) =
    let rest = cut_bytes (n - utf8_len c) s in if leb (utf8_len c) n then c ∷ rest else []

abbrev pub max_line : ℕ
max_line = 200

abbrev pub max_body : ℕ
max_body = 4096

-- `Verdict.Line`
unfoldable pub line : Verdict → Text
unfolding trim_space cut cut_bytes
line v =
    let s = trim_space (cut_head 10 (trim_space v.body)) in
    if ltb max_line (byte_len s) then cut_bytes max_line s else s

-- What `errors.Is` and `errors.As` find in the chain of an error, and its text.
pub record Cause : Type 0 where
  pub message : Text
  pub canceled : Bool
  pub deadline_exceeded : Bool
  pub net_timeout : Bool
  pub dial_op : Bool
  pub dns : Bool
  pub refused : Bool
  pub host_unreachable : Bool
  pub net_unreachable : Bool
  pub verification : Bool
  pub alert : Bool
  pub unexpected_eof : Bool

-- `*connect.Error`: a refusal with the hop's verdict, or a failure of a phase.
pub data HopError : Type 0 where
  rejected : Verdict → HopError
  failed : Phase → Cause → HopError

-- `Error.Phase`; every verdict is made with `PhaseConnect`.
abbrev pub phase_of : HopError → Phase
phase_of (HopError.rejected v) = Phase.proxy_connect
phase_of (HopError.failed p e) = p

abbrev pub verdict_of : HopError → Option Verdict
verdict_of (HopError.rejected v) = some v
verdict_of (HopError.failed p e) = none

pub record Memo : Type 0 where
  pub phase : Phase
  pub verdict : Option Verdict

abbrev pub new_memo : Memo
new_memo = record { phase = Phase.no_phase; verdict = none }

-- `Memo.set`: a verdict, once there, stays until another comes.
unfoldable pub set : Phase → Option Verdict → Memo → Memo
set phase none m = record m { phase = phase }
set phase (some v) m = record { phase = phase; verdict = some v }

-- A hop's answer to CONNECT. Of a body, a code point that a limit splits is dropped.
pub record Response : Type 0 where
  pub status : ℕ
  pub header : List (Text × List Text)
  pub body : Text
  pub buffered : Text

-- The outcomes of an attempt: the errors of the base dialer, of the handshake, of the write of the
-- request; the answer or the error of its read; `ctx.Err()` at the end, if the context is done.
pub record Attempt : Type 0 where
  pub dial_err : Option Cause
  pub tls_err : Option Cause
  pub write_err : Option Cause
  pub answer : Option Response
  pub read_err : Cause
  pub ctx_err : Option Cause

pub record Dialer : Type 0 where
  pub host : Text
  pub auth : Text
  pub with_tls : Bool

-- `cause`
unfoldable pub cause : Attempt → Cause → Cause
cause a err = elim a.ctx_err [ none ↦ err | some e ↦ e ]

-- A tunnel with the bytes that are read before the socket's, or an error.
pub data Tunnel : Type 0 where
  up : Text → Tunnel
  down : HopError → Tunnel

unfoldable pub is_success : ℕ → Bool
is_success status = status / 100 == 2

-- `Dialer.connect`. `stop()` reports false if the context is done.
unfoldable pub connect : Attempt → Tunnel
connect a = elim a.write_err [
  | some e ↦ Tunnel.down (HopError.failed Phase.proxy_connect (cause a e))
  | none ↦ elim a.answer [
    | none ↦ Tunnel.down (HopError.failed Phase.proxy_connect (cause a a.read_err))
    | some r ↦
        if not (is_success r.status)
        then Tunnel.down (
            HopError.rejected
              (record { status = r.status; header = r.header; body = cut_bytes max_body r.body }))
        else (elim a.ctx_err [
          | some e ↦ Tunnel.down (HopError.failed Phase.proxy_connect e)
          | none ↦ Tunnel.up r.buffered
        ])
  ]
]

pub record Dialled : Type 0 where
  pub tunnel : Tunnel
  pub memo : Memo
  pub conn_open : Bool
  pub asked : Bool

-- The end of `DialContext`, on a connection that is ready.
unfoldable pub over : Attempt → Memo → Dialled
over a m = elim (connect a) [
  | Tunnel.up early ↦ record {
    tunnel = Tunnel.up early;
    memo = set Phase.no_phase none (set Phase.proxy_connect none m);
    conn_open = true;
    asked = true;
  }
  | Tunnel.down e ↦ record {
    tunnel = Tunnel.down e;
    memo = set Phase.proxy_connect (verdict_of e) (set Phase.proxy_connect none m);
    conn_open = false;
    asked = true;
  }
]

-- The handshake of `DialContext`, if the proxy is an https one.
unfoldable pub handshake : Dialer → Attempt → Memo → Dialled
handshake d a m =
    if d.with_tls
    then (elim a.tls_err [
      | some e ↦ record {
        tunnel = Tunnel.down (HopError.failed Phase.proxy_tls e);
        memo = set Phase.proxy_tls none m;
        conn_open = false;
        asked = true;
      }
      | none ↦ over a (set Phase.proxy_tls none m)
    ])
    else over a m

-- `Dialer.DialContext`; `asked` says whether the hop was dialled at all.
unfoldable pub dial_context : Dialer → Attempt → Memo → Dialled
dial_context d a m = elim m.verdict [
  | some v ↦ record {
    tunnel = Tunnel.down (HopError.rejected v);
    memo = m;
    conn_open = false;
    asked = false;
  }
  | none ↦ elim a.dial_err [
    | some e ↦ record {
      tunnel = Tunnel.down (HopError.failed Phase.proxy_dial e);
      memo = set Phase.proxy_dial none m;
      conn_open = false;
      asked = true;
    }
    | none ↦ handshake d a (set Phase.proxy_dial none m)
  ]
]

-- The errors of `New`.
pub data NewError : Type 0 where
  bad_scheme : Text → NewError
  no_host : NewError

pub data Made : Type 0 where
  ok : Dialer → Made
  err : NewError → Made

abbrev is_http : Text → Bool
is_http scheme = text_eq scheme (text "http")

abbrev is_https : Text → Bool
is_https scheme = text_eq scheme (text "https")

abbrev default_port : Text → Text
default_port scheme = if is_https scheme then text "443" else text "80"

-- `net.JoinHostPort`
unfoldable pub join_host_port : Text → Text → Text
join_host_port host port = elim (cut b':' host) [
  | none ↦ host ++ (text ":" ++ port)
  | some _ ↦ text "[" ++ (host ++ (text "]:" ++ port))
]

module _ (base64 : Text → Text) where
  -- `"Basic " + base64(username:password)`, if the URL has userinfo.
  unfoldable pub basic_auth : Option (Text × Text) → Text
  basic_auth none = []
  basic_auth (some (user, password)) = text "Basic " ++ base64 (user ++ (text ":" ++ password))

  unfoldable pub new_dialer : Url → Made
  new_dialer u =
      if not (is_http u.scheme) && not (is_https u.scheme)
      then Made.err (bad_scheme u.scheme)
      else if is_nil u.hostname
      then Made.err no_host
      else Made.ok (record {
        host = join_host_port u.hostname (if is_nil u.port then default_port u.scheme else u.port);
        auth = basic_auth u.user;
        with_tls = is_https u.scheme;
      })
