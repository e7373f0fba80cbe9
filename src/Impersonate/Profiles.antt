-- ===== src/Impersonate/Profiles.antt =====
-- internal/impersonate/profiles.go: the agents and the headers that the Edge family adds to Chrome's.
-- The agents and the client hints of Chrome are data of the surf library, and arguments: `agent os` is
-- what `chromeAgent` gives, also for an OS without a name.
use tls_impersonate_proxy.Base.{
  ℕ, zero, suc, ◌-◌, ◌&&◌, Option, none, some, List, [], ◌∷◌, ◌++◌, length, leb, is_nil,
  if◌then◌else◌, ◌>>=◌,
}
use tls_impersonate_proxy.Text.{Text, text, text_eq, has_prefix, cut_prefix}

-- The digits at the head of a text.
unfoldable pub digits_of : Text → Text
digits_of [] = []
digits_of (c ∷ s) = let rest = digits_of s in if leb b'0' c && leb c b'9' then c ∷ rest else []

-- What stands behind `Chrome/` here, if it is at least one digit.
abbrev major_at : Text → Option Text
major_at s = elim (cut_prefix (text "Chrome/") s) [
  | none ↦ none
  | some rest ↦ if is_nil (digits_of rest) then none else some (digits_of rest)
]

-- `chromeMajor.FindStringSubmatch(ua)[1]`: the leftmost match; none is an index out of range.
unfoldable pub chrome_major : Text → Option Text
unfolding digits_of cut_prefix
chrome_major [] = none
chrome_major (c ∷ s) =
    let rest = chrome_major s in elim (major_at (c ∷ s)) [ some m ↦ some m | none ↦ rest ]

-- `strings.ReplaceAll` of a text that is not empty; `skip` characters of a match are left to pass.
unfoldable pub replace_from : Text → Text → ℕ → Text → Text
replace_from old new skip [] = []
replace_from old new (suc skip) (c ∷ s) = replace_from old new skip s
replace_from old new zero (c ∷ s) =
    let matched = replace_from old new (length old - 1) s in
    let passed = replace_from old new zero s in
    if has_prefix old (c ∷ s) then new ++ matched else c ∷ passed

unfoldable pub replace_all : Text → Text → Text → Text
unfolding replace_from cut_prefix
replace_all s old new = replace_from old new zero s

module _ (agent : Text → Text) (sec_ch_ua : Text) where
  unfoldable pub edge_agent : Text → Option Text
  unfolding chrome_major text_eq
  edge_agent os = do
    major ← chrome_major (agent os)
    some (
        if text_eq os (text "android")
        then agent os ++ (text " EdgA/" ++ (major ++ text ".0.0.0"))
        else agent os ++ (text " Edg/" ++ (major ++ text ".0.0.0")))

  unfoldable pub edge_headers : Text → Option (List (Text × Text))
  unfolding edge_agent replace_all
  edge_headers os = do
    ua ← edge_agent os
    some (
        (text "User-Agent", ua)
        ∷ (
          text "sec-ch-ua",
          replace_all sec_ch_ua (text "\"Google Chrome\"") (text "\"Microsoft Edge\""),
        )
        ∷ [])
