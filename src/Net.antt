-- ===== src/Net.antt =====
-- Go's `net.SplitHostPort`, and what the program reads of a URL that `url.Parse` returns. The parser
-- itself is an argument of what calls it.
use tls_impersonate_proxy.Base.{
  ℕ, Bool, ◌||◌, Option, none, some, [], ◌∷◌, ◌==◌, if◌then◌else◌, any,
}
use tls_impersonate_proxy.Text.{Text, cut}

-- The fields and methods `Scheme`, `Host`, `Hostname()`, `Port()` and the userinfo of a URL.
pub record Url : Type 0 where
  pub scheme : Text
  pub host : Text
  pub hostname : Text
  pub port : Text
  pub user : Option (Text × Text)

unfoldable pub has_char : ℕ → Text → Bool
has_char c s = any (λ d. d == c) s

-- The rest of `[host]:port`, behind the bracket: the port stands behind the last colon of the text,
-- which is the one that follows the first `]`.
abbrev behind_bracket : Option (Text × Text) → Option (Text × Text)
behind_bracket none = none
behind_bracket (some (host, [])) = none
behind_bracket (some (host, c ∷ port)) =
    if c == b':'
    then if has_char b':' port || has_char b'[' host || has_char b'[' port || has_char b']' port
      then none
      else some (host, port)
    else none

abbrev at_colon : Text → Option (Text × Text) → Option (Text × Text)
at_colon s none = none
at_colon s (some (host, port)) =
    if has_char b':' port || has_char b'[' s || has_char b']' s then none else some (host, port)

-- `net.SplitHostPort`; `none` is its error.
unfoldable pub split_host_port : Text → Option (Text × Text)
unfolding has_char cut
split_host_port [] = none
split_host_port (c ∷ s) =
    if c == b'[' then behind_bracket (cut b']' s) else at_colon (c ∷ s) (cut b':' (c ∷ s))
