-- ===== src/Logging.antt =====
-- internal/logging: redact.go, logging.go: what is hidden in a log, and the choice of its handler.
use tls_impersonate_proxy.Base.{
  ℕ, zero, suc, Bool, not, ◌&&◌, ◌||◌, Option, none, some, List, [], ◌∷◌, ◌++◌, ◌==◌, leb, length,
  if◌then◌else◌,
}
use tls_impersonate_proxy.Text.{Text, text, text_eq, contains_text, lower, cut_prefix}

abbrev pub redacted : Text
redacted = text "[redacted]"

unfoldable pub new_redactor : List Text → List Text
new_redactor [] = []
new_redactor (name ∷ names) = lower name ∷ new_redactor names

-- `Redactor.Value`
unfoldable pub redact_value : List Text → Text → Text → Text
redact_value hidden name value = if contains_text hidden (lower name) then redacted else value

-- The classes of the pattern `(?i)([a-z][a-z0-9+.\-]*://)[^/\s]*@`; folding adds two letters to `a-z`.
unfoldable pub is_letter : ℕ → Bool
is_letter c = (leb b'a' c && leb c b'z') || (leb b'A' c && leb c b'Z') || c == 0x17f || c == 0x212a

unfoldable pub is_scheme_char : ℕ → Bool
unfolding is_letter
is_scheme_char c = is_letter c || (leb b'0' c && leb c b'9') || c == b'+' || c == b'.' || c == b'-'

unfoldable pub is_userinfo_char : ℕ → Bool
is_userinfo_char c = not (c == b'/' || c == 9 || c == 10 || c == 12 || c == 13 || c == 32)

-- The longest run of the class, and the rest.
unfoldable pub span : (ℕ → Bool) → Text → Text × Text
span p [] = ([], [])
span p (c ∷ s) = let (run, rest) = span p s in if p c then (c ∷ run, rest) else ([], c ∷ s)

-- What stands behind the last `@`, if there is one.
unfoldable pub behind_at : Text → Option Text
behind_at [] = none
behind_at (c ∷ s) = elim (behind_at s) [
  | some rest ↦ some rest
  | none ↦ if c == b'@' then some s else none
]

-- A match that begins where the text does: the first group, and what stands behind the match. No class
-- holds the character that follows it in the pattern but the last, so the longest run is the only one.
unfoldable pub match_at : Text → Option (Text × Text)
unfolding is_scheme_char is_userinfo_char span behind_at
match_at [] = none
match_at (c ∷ s) =
    let (scheme, rest) = span is_scheme_char s in
    if not (is_letter c) then none else (elim (cut_prefix (text "://") rest) [
      | none ↦ none
      | some rest' ↦
          let (run, tail) = span is_userinfo_char rest' in
          elim (behind_at run) [
            | none ↦ none
            | some host ↦ some (c ∷ (scheme ++ text "://"), host ++ tail)
          ]
    ])

-- `userinfo.ReplaceAllString`: the leftmost match, then the next behind it. Each round takes at least one
-- character, so the length is fuel enough.
unfoldable pub replace_from : ℕ → Text → Text
replace_from zero s = s
replace_from (suc fuel) [] = []
replace_from (suc fuel) (c ∷ s) = elim (match_at (c ∷ s)) [
  | none ↦ c ∷ replace_from fuel s
  | some (group, rest) ↦ group ++ (text "***@" ++ replace_from fuel rest)
]

unfoldable pub redact_userinfo : Text → Text
unfolding match_at replace_from
redact_userinfo s = replace_from (length s) s

-- internal/logging/logging.go: `New`, which makes the handler of one of two formats. What
-- `slog.Level.UnmarshalText` says of a level is an argument: its error, if it is none.
pub data Handler : Type 0 where
  json_handler text_handler : Handler

pub data LoggerError : Type 0 where
  bad_level : Text → Text → LoggerError
  bad_format : Text → LoggerError

pub data Made : Type 0 where
  logger : Handler → Made
  refused : LoggerError → Made

unfoldable pub new_logger : (Text → Option Text) → Text → Text → Made
new_logger level_error level format = elim (level_error level) [
  | some e ↦ refused (bad_level level e)
  | none ↦
      if text_eq format (text "json")
      then logger json_handler
      else if text_eq format (text "text")
      then logger text_handler
      else refused (bad_format format)
]
