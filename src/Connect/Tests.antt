-- ===== src/Connect/Tests.antt =====
-- Runs of the dialer, and the theorems at concrete attempts.
use tls_impersonate_proxy.Base.{◌≡◌, refl, true, false, none, some, []}
use tls_impersonate_proxy.Text.{text, text_eq, cut}
use tls_impersonate_proxy.Connect.{
  Verdict, Cause, HopError, Response, Attempt, Dialer, Tunnel, Made, new_memo, set, cause,
  is_success, connect, over, handshake, dial_context, line, new_dialer, basic_auth, join_host_port,
  cut_bytes,
}
use tls_impersonate_proxy.Connect.Laws.{Settled, dial_context-Settled}

program : Unit {0}
unfolding set cause is_success connect over handshake dial_context line new_dialer basic_auth
    join_host_port text_eq cut cut_bytes
program = tt

abbrev no_cause : Cause
no_cause = record {
  message = [];
  canceled = false;
  deadline_exceeded = false;
  net_timeout = false;
  dial_op = false;
  dns = false;
  refused = false;
  host_unreachable = false;
  net_unreachable = false;
  verification = false;
  alert = false;
  unexpected_eof = false;
}

abbrev dialer : Dialer
dialer = record { host = text "hop:80"; auth = []; with_tls = false }

abbrev refusal : Response
refusal = record { status = 407; header = []; body = text "no\nway"; buffered = [] }

abbrev refused : Attempt
refused = record {
  dial_err = none;
  tls_err = none;
  write_err = none;
  answer = some refusal;
  read_err = no_cause;
  ctx_err = none;
}

abbrev verdict : Verdict
verdict = record { status = 407; header = []; body = text "no\nway" }

refused_lem :
    (dial_context dialer refused new_memo).tunnel ≡ Tunnel.down (HopError.rejected verdict)
unfolding program
refused_lem = refl

line_lem : line verdict ≡ text "no"
unfolding program
line_lem = refl

new_dialer_lem :
    new_dialer
      (λ s. s)
      (record {
        scheme = text "https";
        host = text "h";
        hostname = text "h";
        port = [];
        user = some (text "u", text "p");
      })
    ≡ Made.ok (record { host = text "h:443"; auth = text "Basic u:p"; with_tls = true })
unfolding program
new_dialer_lem = refl

dial_context-Settled_example :
    Settled refused
      (dial_context dialer refused new_memo)
      (dial_context dialer refused new_memo).tunnel
dial_context-Settled_example = dial_context-Settled dialer refused new_memo refl
