-- ===== src/Directive/Types.antt =====
-- internal/directive/directive.go, spec.go, issues.go: the types, `Spec`, and the issues' texts.
-- A duration is its number of nanoseconds; the schema admits none below 1. A Go set is a list of
-- its members.
use tls_impersonate_proxy.Base.{
  ℕ, Bool, false, Option, none, List, [], ◌∷◌, ◌++◌, map, is_nil, ◌==◌, if◌then◌else◌,
}
use tls_impersonate_proxy.Text.{Text, text, lower, join, contains_text}

pub record Http2 : Type 0 where
  pub header_table_size : Option ℕ
  pub enable_push : Option ℕ
  pub max_concurrent_streams : Option ℕ
  pub initial_window_size : Option ℕ
  pub max_frame_size : Option ℕ
  pub max_header_list_size : Option ℕ
  pub no_rfc7540_priorities : Option ℕ
  pub connection_flow : Option ℕ
  pub initial_stream_id : Option ℕ

pub record Http3 : Type 0 where
  pub qpack_max_table_capacity : Option ℕ
  pub max_field_section_size : Option ℕ
  pub qpack_blocked_streams : Option ℕ
  pub enable_connect_protocol : Option ℕ
  pub settings_h3_datagram : Option ℕ
  pub h3_datagram : Option ℕ
  pub enable_webtransport : Option ℕ
  pub grease : Bool
  pub order : List Text

pub record Directive : Type 0 where
  pub browser : List Text
  pub os : List Text
  pub ja : Text
  pub http2_settings : Option Http2
  pub http3_settings : Option Http3
  pub force_http : Text
  pub proxy : Text
  pub timeout : ℕ
  pub dns : Text
  pub dns_over_tls : Text
  pub interface_addr : Text
  pub secure_tls : Bool
  pub disable_keep_alive : Bool
  pub h2c : Bool
  pub scheme : Text
  pub keep : List Text
  pub match : Bool
  pub profile : Text
  pub from_request : List Text

-- `Directive{}`
abbrev pub zero_directive : Directive
zero_directive = record {
  browser = [];
  os = [];
  ja = [];
  http2_settings = none;
  http3_settings = none;
  force_http = [];
  proxy = [];
  timeout = 0;
  dns = [];
  dns_over_tls = [];
  interface_addr = [];
  secure_tls = false;
  disable_keep_alive = false;
  h2c = false;
  scheme = [];
  keep = [];
  match = false;
  profile = [];
  from_request = [];
}

-- `FromRequest`
unfoldable pub is_from_request : Directive → Text → Bool
is_from_request d name = contains_text d.from_request (lower name)

pub record Spec : Type 0 where
  pub browser : Text
  pub os : Text
  pub ja : Text
  pub http2_settings : Option Http2
  pub http3_settings : Option Http3
  pub force_http : Text
  pub proxy : Text
  pub dns : Text
  pub dns_over_tls : Text
  pub interface_addr : Text
  pub secure_tls : Bool
  pub disable_keep_alive : Bool
  pub h2c : Bool

abbrev pub first_or_empty : List Text → Text
first_or_empty [] = []
first_or_empty (t ∷ ts) = t

-- The OS counts only behind a browser.
abbrev pub spec_os : List Text → List Text → Text
spec_os [] os = []
spec_os (b ∷ bs) os = first_or_empty os

-- `Directive.Spec`
unfoldable pub spec_of : Directive → Spec
spec_of d = record {
  browser = first_or_empty d.browser;
  os = spec_os d.browser d.os;
  ja = d.ja;
  http2_settings = d.http2_settings;
  http3_settings = d.http3_settings;
  force_http = d.force_http;
  proxy = d.proxy;
  dns = d.dns;
  dns_over_tls = d.dns_over_tls;
  interface_addr = d.interface_addr;
  secure_tls = d.secure_tls;
  disable_keep_alive = d.disable_keep_alive;
  h2c = d.h2c;
}

pub record Issue : Type 0 where
  pub path : Text
  pub message : Text

-- `Issue.String`
unfoldable pub issue_text : Issue → Text
issue_text i = if is_nil i.path then i.message else i.path ++ (text ": " ++ i.message)

-- `Issues.Error`
unfoldable pub issues_text : List Issue → Text
unfolding issue_text join
issues_text is = join (text "; ") (map issue_text is)

-- `strings.NewReplacer("\r", " ", "\n", " ")`
abbrev pub single_char : ℕ → ℕ
single_char c = if c == 13 then 32 else if c == 10 then 32 else c

unfoldable pub single_line : Text → Text
single_line [] = []
single_line (c ∷ s) = single_char c ∷ single_line s
