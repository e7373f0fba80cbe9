-- ===== src/Http.antt =====
-- Go's `http.Header`: names to lists of values, under canonical names.
use tls_impersonate_proxy.Base.{
  refl, ℕ, ◌+◌, ◌-◌, Bool, true, not, ◌&&◌, ◌||◌, some, List, [], ◌∷◌, ◌++◌, ◌==◌, leb, any, get_or,
  if◌then◌else◌, ◌≡◌,
}
use tls_impersonate_proxy.Text.{Text, text, text_eq}
use tls_impersonate_proxy.Assoc.{lookup, put, remove, lookup-put}

abbrev pub Header : Type 0
Header = List (Text × List Text)

unfoldable pub is_alpha : ℕ → Bool
is_alpha c = (leb b'a' c && leb c b'z') || (leb b'A' c && leb c b'Z')

-- The bytes of a token.
unfoldable pub is_token : ℕ → Bool
unfolding is_alpha
is_token c =
    is_alpha c
    || (leb b'0' c && leb c b'9')
    || any (λ d. c == d)
        (b'!' ∷ b'#' ∷ b'$' ∷ b'%' ∷ b'&' ∷ 39 ∷ b'*' ∷ b'+' ∷ b'-' ∷ b'.' ∷ b'^' ∷ b'_' ∷ b'`'
          ∷ b'|' ∷ b'~' ∷ [])

-- One character of a canonical name: capital at the start and behind a dash.
abbrev canonical_char : Bool → ℕ → ℕ
canonical_char upper c =
    if upper
    then if leb b'a' c && leb c b'z' then c - 32 else c
    else if leb b'A' c && leb c b'Z'
    then c + 32
    else c

unfoldable pub canonical_from : Bool → Text → Text
canonical_from upper [] = []
canonical_from upper (c ∷ s) = canonical_char upper c ∷ canonical_from (c == b'-') s

-- `textproto.CanonicalMIMEHeaderKey`: a name that is no token stays as it is.
unfoldable pub canonical : Text → Text
unfolding is_token canonical_from
canonical name = if any (λ c. not (is_token c)) name then name else canonical_from true name

unfoldable pub values : Header → Text → List Text
values h name = get_or [] (lookup (canonical name) h)

abbrev first_of_values : List Text → Text
first_of_values [] = []
first_of_values (v ∷ vs) = v

-- `Header.Get`, `Set`, `Add`, `Del`
unfoldable pub get : Header → Text → Text
unfolding values
get h name = first_of_values (values h name)

unfoldable pub set : Text → Text → Header → Header
set name value h = put (canonical name) (value ∷ []) h

unfoldable pub add : Text → Text → Header → Header
unfolding values
add name value h = put (canonical name) (values h name ++ value ∷ []) h

unfoldable pub del : Text → Header → Header
del name h = remove (canonical name) h

-- What a reader of one name gets after `Set` and after `Add`.
pub lookup-set :
    (name value : Text) (h : Header) (n : Text)
    → lookup n (set name value h)
      ≡ (if text_eq (canonical name) n then some (value ∷ []) else lookup n h)
unfolding set
lookup-set name value h n = lookup-put (canonical name) n (value ∷ []) h

pub lookup-add :
    (name value : Text) (h : Header) (n : Text)
    → lookup n (add name value h)
      ≡ (if text_eq (canonical name) n then some (values h name ++ value ∷ []) else lookup n h)
unfolding add
lookup-add name value h n = lookup-put (canonical name) n (values h name ++ value ∷ []) h

-- Two names that are canonical.
pub content_encoding_lem : canonical (text "Content-Encoding") ≡ text "Content-Encoding"
unfolding canonical canonical_from is_token is_alpha
content_encoding_lem = refl

pub content_length_lem : canonical (text "Content-Length") ≡ text "Content-Length"
unfolding canonical canonical_from is_token is_alpha
content_length_lem = refl
