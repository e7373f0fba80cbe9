-- ===== src/Proxy/Pages/Tests.antt =====
-- internal/proxy/proxy.go: runs of the pages.
use tls_impersonate_proxy.Base.{◌≡◌, refl, true, false, []}
use tls_impersonate_proxy.Text.{text, text_eq}
use tls_impersonate_proxy.Proxy.Server.{Server}
use tls_impersonate_proxy.Proxy.Pages.{
  Options, etag_of, non_proxy, ready_handler, profiles_handler, ca_handler,
}

program : Unit {0}
unfolding text_eq etag_of non_proxy ready_handler profiles_handler ca_handler
program = tt

abbrev options : Options
options = record {
  serve_ca = false;
  serve_profiles = true;
  ca_pem = text "pem";
  profiles = text "{}";
  revision = text "r1";
}

abbrev server : Server
server = record { started = 1; finished = 0; draining = true; events = [] }

ca_hidden : (non_proxy options server (text "/ca.pem") []).status ≡ 400
unfolding program
ca_hidden = refl
