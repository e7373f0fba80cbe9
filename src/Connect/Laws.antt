-- ===== src/Connect/Laws.antt =====
-- internal/connect/connect.go: connections are not leaked, the memo says where an attempt failed, and a
-- refusal is asked for once.
use tls_impersonate_proxy.Base.{
  ℕ, ◌-◌, ◌/◌, ◌≤◌, ◌≡◌, refl, ◌≢◌, inl, inr, true, false, none, some, [], ◌∷◌, arith, ◌==◌,
  Bool-cases, Option-cases,
}
use tls_impersonate_proxy.Text.{Text, trim_space, cut_head}
use tls_impersonate_proxy.Connect.{
  Phase, Verdict, HopError, Memo, Response, Attempt, Dialer, Tunnel, Dialled, set, is_success,
  connect, over, handshake, dial_context, utf8_len, byte_len, cut_bytes, line, max_line,
}

-- What an attempt that asked the hop leaves behind.
abbrev pub Settled : Attempt → Dialled → Tunnel → Type 0
Settled a r (Tunnel.up early) =
    (r.conn_open ≡ true)
    × (r.memo.phase ≡ Phase.no_phase)
    × ((answer : Response) × (a.answer ≡ some answer)
        × (answer.status / 100 ≡ 2)
        × (early ≡ answer.buffered))
Settled a r (Tunnel.down (HopError.rejected v)) =
    (r.conn_open ≡ false)
    × (r.memo.phase ≡ Phase.proxy_connect)
    × (r.memo.verdict ≡ some v)
    × ((answer : Response) × (a.answer ≡ some answer)
        × (answer.status / 100 ≢ 2)
        × (v.status ≡ answer.status)
        × (v.header ≡ answer.header))
Settled a r (Tunnel.down (HopError.failed p e)) =
    (r.conn_open ≡ false) × (r.memo.phase ≡ p) × (r.memo.verdict ≡ none)

over-Settled : (a : Attempt) (m : Memo) → m.verdict ≡ none → Settled a (over a m) (over a m).tunnel
unfolding over connect set is_success
over-Settled a m fresh = elim (Option-cases a.write_err) [
  | inr (e, f) ↦ rw (f, over) (refl, refl, fresh)
  | inl f ↦ elim (Option-cases a.answer) [
    | inl g ↦ rw (f, g, over) (refl, refl, fresh)
    | inr (r, g) ↦ elim (Bool-cases (r.status / 100 == 2)) [
      | inr bad ↦ rw (f, g, bad, over) (refl, refl, refl, (r, refl, ground arith, refl, refl))
      | inl good ↦ elim (Option-cases a.ctx_err) [
        | inl h ↦ rw (f, g, good, h, over) (refl, refl, (r, refl, ground arith, refl))
        | inr (e, h) ↦ rw (f, g, good, h, over) (refl, refl, fresh)
      ]
    ]
  ]
]

handshake-Settled :
    (d : Dialer) (a : Attempt) (m : Memo)
    → m.verdict ≡ none
    → Settled a (handshake d a m) (handshake d a m).tunnel
unfolding handshake set
handshake-Settled d a m fresh = elim (Bool-cases d.with_tls) [
  | inr plain ↦ rw (plain, handshake) (over-Settled a m fresh)
  | inl secure ↦ elim (Option-cases a.tls_err) [
    | inr (e, f) ↦ rw (secure, f, handshake) (refl, refl, fresh)
    | inl f ↦ rw (secure, f, handshake) (over-Settled a (set Phase.proxy_tls none m) fresh)
  ]
]

-- A dial of a hop that has not refused this request yet. Where it gives a tunnel, the connection is open,
-- no phase is under way, the hop's answer was a 2xx, and the bytes read past the answer come first. Where
-- it gives an error, the connection is closed and the memo names the phase of the error; and the error is
-- a refusal, which the memo keeps, only if the hop answered with a status outside 200 to 299, which it has.
pub dial_context-Settled :
    (d : Dialer) (a : Attempt) (m : Memo)
    → m.verdict ≡ none
    → Settled a (dial_context d a m) (dial_context d a m).tunnel
unfolding dial_context set
dial_context-Settled d a m fresh = elim (Option-cases a.dial_err) [
  | inr (e, f) ↦ rw (fresh, f, dial_context) (refl, refl, fresh)
  | inl f ↦ rw (fresh, f, dial_context) (handshake-Settled d a (set Phase.proxy_dial none m) fresh)
]

dial_context_again :
    (d : Dialer) (a : Attempt) (m : Memo) (v : Verdict)
    → m.verdict ≡ some v
    → dial_context d a m ≡ record {
      tunnel = Tunnel.down (HopError.rejected v);
      memo = m;
      conn_open = false;
      asked = false;
    }
unfolding dial_context
dial_context_again d a m v e = ground arith

-- Once a hop has refused a request, every later dial of the request gets the same refusal at once: the
-- hop is not dialled again and the memo stays as it is.
pub dial_context-refused_once :
    (d e : Dialer) (a b : Attempt) (m : Memo) (v : Verdict)
    → (dial_context d a m).tunnel ≡ Tunnel.down (HopError.rejected v)
    → dial_context e b (dial_context d a m).memo ≡ record {
      tunnel = Tunnel.down (HopError.rejected v);
      memo = (dial_context d a m).memo;
      conn_open = false;
      asked = false;
    }
dial_context-refused_once d e a b m v h =
    let kept : (dial_context d a m).memo.verdict ≡ some v = (elim (Option-cases m.verdict) [
      | inr (w, f) ↦ ground (arith, dial_context_again d a m w f)
      | inl f ↦ (rw h at (dial_context-Settled d a m f)).2
    ]) in
    dial_context_again e b (dial_context d a m).memo v kept

byte_len-cut_bytes-le : (n : ℕ) (s : Text) → byte_len (cut_bytes n s) ≤ n
unfolding cut_bytes
byte_len-cut_bytes-le n [] = omega arith
byte_len-cut_bytes-le n (c ∷ s) = ground (arith, byte_len-cut_bytes-le (n - utf8_len c) s)

-- The line that a verdict shows is at most 200 bytes long, whatever the hop sent.
pub byte_len-line-le : (v : Verdict) → byte_len (line v) ≤ 200
unfolding line
byte_len-line-le v =
    let s = trim_space (cut_head 10 (trim_space v.body)) in
    ground (arith, byte_len-cut_bytes-le max_line s)
