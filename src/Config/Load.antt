-- ===== src/Config/Load.antt =====
-- internal/config/load.go, schema.go: from a file to the configuration. Reading the file, YAML, and the
-- schema's `Parse` and the formats of zog are arguments.
pub mod Tests
use tls_impersonate_proxy.Base.{
  ℕ, ◌%◌, ◌≡◌, refl, ◌≢◌, ◌⊎◌, inl, inr, Bool, true, false, not, ◌&&◌, Option, none, some, List, [],
  ◌∷◌, ◌++◌, arith, ◌==◌, is_nil, is_some, map, if◌then◌else◌, Bool-cases, Option-cases, List-cases,
}
use tls_impersonate_proxy.Text.{Text, text, join}
use tls_impersonate_proxy.Config.{Config, Logging}
use tls_impersonate_proxy.Config.Unknown.{
  Doc, Fields, end, struct, structs, plain, field, no_field, unknown_keys, unknown_keys_iff,
  IsKnown,
}

-- The `zog` tags of the structs of config.go.
abbrev collectors_fields : Fields
collectors_fields = field (text "requests") plain (
    field (text "latency") plain (
      field (text "bandwidth") plain (
        field (text "upstream_errors") plain (
          field (text "validation_errors") plain
            (field (text "clients") plain (field (text "tunnels") plain no_field))))))

abbrev route_fields : Fields
route_fields =
    field (text "name") plain (
      field (text "host") plain (field (text "path") plain (field (text "capture") plain no_field)))

abbrev server_fields : Fields
server_fields = field (text "listen") plain (
    field (text "max_connections") plain (
      field (text "read_header_timeout") plain (
        field (text "idle_timeout") plain (
          field (text "max_header_bytes") plain (
            field (text "shutdown_grace") plain
              (field (text "serve_ca") plain (field (text "serve_profiles") plain no_field)))))))

abbrev tls_fields : Fields
tls_fields = field (text "ca_cert") plain (
    field (text "ca_key") plain
      (field (text "cert_cache_size") plain (field (text "client_http2") plain no_field)))

abbrev upstream_fields : Fields
upstream_fields = field (text "verify_certificates") plain (field (text "timeout") plain no_field)

abbrev directives_fields : Fields
directives_fields = field (text "defaults") plain (
    field (text "deny") plain
      (field (text "proxy_hosts") plain (field (text "require_proxy") plain no_field)))

abbrev clients_fields : Fields
clients_fields = field (text "max") plain (field (text "idle_ttl") plain no_field)

abbrev encoding_fields : Fields
encoding_fields = field (text "mode") plain no_field

abbrev auth_fields : Fields
auth_fields = field (text "realm") plain (field (text "users") plain no_field)

abbrev logging_fields : Fields
logging_fields =
    field (text "level") plain (field (text "format") plain (field (text "redact") plain no_field))

abbrev metrics_fields : Fields
metrics_fields = field (text "enabled") plain (
    field (text "listen") plain (
      field (text "path") plain (
        field (text "collectors") (struct collectors_fields)
          (field (text "routes") (structs route_fields) no_field))))

abbrev pub config_fields : Fields
config_fields = field (text "server") (struct server_fields) (
    field (text "tls") (struct tls_fields) (
      field (text "upstream") (struct upstream_fields) (
        field (text "directives") (struct directives_fields) (
          field (text "clients") (struct clients_fields) (
            field (text "encoding") (struct encoding_fields) (
              field (text "auth") (struct auth_fields) (
                field (text "logging") (struct logging_fields)
                  (field (text "metrics") (struct metrics_fields) no_field))))))))

-- `defaultRedact`
abbrev pub default_redact : List Text
default_redact =
    text "Authorization" ∷ text "Proxy-Authorization" ∷ text "Cookie" ∷ text "Set-Cookie" ∷ []

-- An issue of zog, with whether it is one of a coercer, and the error that it carries.
pub record ZogIssue : Type 0 where
  pub path : List Text
  pub is_coercion : Bool
  pub error : Option Text
  pub message : Text

-- `formatIssue`, with the message that zog's own formatter gives.
unfoldable pub format_issue : (ZogIssue → Text) → ZogIssue → ZogIssue
format_issue default e = elim e.error [
  | none ↦ record e { message = default e }
  | some error ↦ record e { message = if e.is_coercion then error else default e }
]

-- The text of an `InvalidError`, with zog's `FlattenPath` as an argument.
unfoldable pub issue_line : (List Text → Text) → ZogIssue → Text
issue_line flatten e =
    (if is_nil (flatten e.path) then text "config" else flatten e.path) ++ (text ": " ++ e.message)

unfoldable pub invalid_text : (List Text → Text) → List ZogIssue → Text
unfolding issue_line join
invalid_text flatten issues = join (10 ∷ []) (map (issue_line flatten) issues)

pub data LoadError : Type 0 where
  unread : Text → LoadError
  bad_yaml : Text → LoadError
  unknown : List Text → LoadError
  invalid : List ZogIssue → LoadError

pub data Result {ℓ κ} (A : Type ℓ) (E : Type κ) : Type (ℓ ⊔ κ) where
  ok : A → Result A E
  err : E → Result A E

pub record Library : Type 0 where
  pub read_file : Text → Result Text Text
  pub yaml : Text → Result (Option Doc) Text
  pub schema_parse : Doc → Config × List ZogIssue

-- The configuration whose redacted headers are the default ones, unless the file names some.
abbrev pub redacted : Config → Config
redacted cfg = elim cfg.logging.redact [
  | some names ↦ cfg
  | none ↦ record cfg { logging = record cfg.logging { redact = some default_redact } }
]

abbrev pub doc_of : Option Doc → Doc
doc_of none = end
doc_of (some doc) = doc

module _ (lib : Library) where
  open lib use {read_file, yaml, schema_parse}

  abbrev checked : Config × List ZogIssue → Result Config LoadError
  checked (cfg, issues) =
      if is_nil issues then Result.ok (redacted cfg) else Result.err (invalid issues)

  -- The part of `Load` behind the YAML.
  unfoldable pub load_doc : Doc → Result Config LoadError
  load_doc doc =
      let found = unknown_keys doc config_fields [] in
      if is_nil found then checked (schema_parse doc) else Result.err (unknown found)

  unfoldable pub load : Text → Result Config LoadError
  load path = elim (read_file path) [
    | Result.err e ↦ Result.err (unread e)
    | Result.ok raw ↦ elim (yaml raw) [
      | Result.err e ↦ Result.err (bad_yaml e)
      | Result.ok doc ↦ load_doc (doc_of doc)
    ]
  ]

  load_doc-ok :
      (doc : Doc) (cfg : Config)
      → load_doc doc ≡ Result.ok cfg
      → IsKnown doc config_fields
        × ((schema_parse doc).1 ≡ [])
        × (cfg ≡ redacted (schema_parse doc).0)
  unfolding load_doc
  load_doc-ok doc cfg h = elim (List-cases (unknown_keys doc config_fields [])) [
    | inr (k, ks, e) ↦ absurd (ground arith)
    | inl e ↦ elim (List-cases (schema_parse doc).1) [
      | inr (i, is, f) ↦ absurd (ground arith)
      | inl f ↦ ((unknown_keys_iff doc config_fields []).0 e, f, ground arith)
    ]
  ]

  -- A configuration that `Load` returns is that of the file's document, which is empty for an empty file:
  -- every key of the document names a field at its place, the schema has no issue with it, and the
  -- configuration is the schema's, except that the four default headers are redacted where the file does
  -- not say which.
  pub load-ok :
      (path : Text) (cfg : Config)
      → load path ≡ Result.ok cfg
      → (raw : Text) × (doc : Option Doc) × (read_file path ≡ Result.ok raw)
        × (yaml raw ≡ Result.ok doc)
        × IsKnown (doc_of doc) config_fields
        × ((schema_parse (doc_of doc)).1 ≡ [])
        × (cfg ≡ redacted (schema_parse (doc_of doc)).0)
  unfolding load
  load-ok path cfg h = read (read_file path) refl h
    where
      parsed :
          (raw : Text) (r : Result (Option Doc) Text)
          → read_file path ≡ Result.ok raw
          → yaml raw ≡ r
          → elim r as (λ r. Result Config LoadError) [
            | Result.err e ↦ Result.err (bad_yaml e)
            | Result.ok doc ↦ load_doc (doc_of doc)
          ]
            ≡ Result.ok cfg
          → (raw : Text) × (doc : Option Doc) × (read_file path ≡ Result.ok raw)
            × (yaml raw ≡ Result.ok doc)
            × IsKnown (doc_of doc) config_fields
            × ((schema_parse (doc_of doc)).1 ≡ [])
            × (cfg ≡ redacted (schema_parse (doc_of doc)).0)
      parsed raw (Result.err e) f g h = cc
      parsed raw (Result.ok doc) f g h =
          let (a, b, c) = load_doc-ok (doc_of doc) cfg h in (raw, doc, f, g, a, b, c)

      read :
          (r : Result Text Text)
          → read_file path ≡ r
          → elim r as (λ r. Result Config LoadError) [
            | Result.err e ↦ Result.err (unread e)
            | Result.ok raw ↦ elim (yaml raw) [
              | Result.err e ↦ Result.err (bad_yaml e)
              | Result.ok doc ↦ load_doc (doc_of doc)
            ]
          ]
            ≡ Result.ok cfg
          → (raw : Text) × (doc : Option Doc) × (read_file path ≡ Result.ok raw)
            × (yaml raw ≡ Result.ok doc)
            × IsKnown (doc_of doc) config_fields
            × ((schema_parse (doc_of doc)).1 ≡ [])
            × (cfg ≡ redacted (schema_parse (doc_of doc)).0)
      read (Result.err e) f h = cc
      read (Result.ok raw) f h = parsed raw (yaml raw) f refl h

-- `Permissive`, on the permissions of the file: the bits of the group and of the others.
unfoldable pub permissive : ℕ → Bool
permissive mode = not (mode % 64 == 0)
