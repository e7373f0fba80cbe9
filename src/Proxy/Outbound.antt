-- ===== src/Proxy/Outbound.antt =====
-- internal/proxy/roundtrip.go: `logOutbound`, which shows the captured header lines in the debug log, with
-- the redactor of internal/logging/redact.go.
mod Tests
use tls_impersonate_proxy.Base.{
  ℕ, ◌≡◌, ◌⊎◌, Bool, true, not, ◌&&◌, ◌==◌, Option, none, some, List, [], ◌∷◌, ◌++◌, map, get_or,
  if◌then◌else◌, append_assoc,
}
use tls_impersonate_proxy.Text.{Text, text, contains_text, In, cut_prefix, cut_behind}
use tls_impersonate_proxy.Assoc.{lookup}
use tls_impersonate_proxy.Http.{Header}
use tls_impersonate_proxy.Logging.{redact_value}
use tls_impersonate_proxy.Impersonate.Lines.{lines_of}

-- `strings.Cut(line, ": ")`
unfoldable pub cut_line : Text → Option (Text × Text)
unfolding cut_prefix
cut_line [] = none
cut_line (c ∷ s) =
    let rest = cut_line s in
    elim (cut_prefix (text ": ") (c ∷ s)) [
      | some value ↦ some ([], value)
      | none ↦ cut_behind c rest
    ]

abbrev shown : List Text → Text → Text → Text
shown hidden name value = name ++ (text ": " ++ redact_value hidden name value)

unfoldable pub log_line : List Text → Text → Text
unfolding cut_line
log_line hidden line = elim (cut_line line) [
  | some (name, value) ↦ shown hidden name value
  | none ↦ shown hidden line []
]

-- The lines of `logOutbound`; the log's level is looked at before.
unfoldable pub log_outbound : List Text → List Text → List Text
log_outbound hidden captured = map (log_line hidden) captured

abbrev pub has_no_colon : Text → Bool
has_no_colon [] = true
has_no_colon (c ∷ s) = not (c == b':') && has_no_colon s

-- A kept key, or one without a colon.
abbrev pub IsPlain : List Text → Text × List Text → Type 0
IsPlain kept e = (contains_text kept e.0 ≡ true) ⊎ (has_no_colon e.0 ≡ true)

module _ (hidden : List Text) where
  -- A header whose hidden values are hidden; the two order keys are not sent, and kept.
  abbrev redacted_values : List Text → Text → List Text → List Text
  redacted_values kept key values =
      if contains_text kept key then values else map (redact_value hidden key) values

  abbrev pub redact_header : List Text → Header → Header
  redact_header kept [] = []
  redact_header kept ((key, values) ∷ h) =
      (key, redacted_values kept key values) ∷ redact_header kept h

  IsKept : List Text → List Text → Type 0
  IsKept kept seen = (key : Text) → contains_text kept key ≡ true → contains_text seen key ≡ true

  -- What `emit` adds to the rest of the loop.
  abbrev emitted : Header → Text → List Text × List Text → List Text × List Text
  emitted h key (out, after) = (lines_of key (get_or [] (lookup key h)) ++ out, after)

  abbrev logged : List Text × List Text → List Text × List Text
  logged (out, after) = (log_outbound hidden out, after)
